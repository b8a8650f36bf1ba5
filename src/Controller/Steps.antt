-- ===== src/Controller/Steps.antt =====
-- A handler that may return early: each step is a `Result` whose error is what the handler returns.
use pod_snapshotter.Base.Result.{Result, ok, err, ◌>>=◌}
use pod_snapshotter.Base.{◌≡◌, refl, subst}

module _ {ℓ} {R : Type ℓ} where
  -- What the handler returns, when every step has gone on.
  abbrev pub finish : Result R R → R
  finish (ok r) = r
  finish (err r) = r

  -- Every early return meets `Q`, and what goes on meets `G`.
  abbrev pub Wp {κ ι} : {A : Type κ} → (R → Type ι) → (A → Type ι) → Result R A → Type ι
  Wp Q G (ok a) = G a
  Wp Q G (err r) = Q r

  pub Wp-bind {κ θ ι} :
      {A : Type κ} {B : Type θ} (Q : R → Type ι) (G : A → Type ι) (H : B → Type ι) (x : Result R A)
      (k : A → Result R B)
      → Wp Q G x
      → ((a : A) → G a → Wp Q H (k a))
      → Wp Q H (x >>= k)
  Wp-bind Q G H (ok a) k h n = n a h
  Wp-bind Q G H (err r) k h n = h

  pub Wp-finish {ι} : (Q : R → Type ι) (x : Result R R) → Wp Q Q x → Q (finish x)
  Wp-finish Q (ok r) h = h
  Wp-finish Q (err r) h = h

  -- The same, where the rest needs the step's result.
  pub Wp-step {κ θ ι} :
      {A : Type κ} {B : Type θ} (Q : R → Type ι) (H : B → Type ι) (x : Result R A)
      (k : A → Result R B)
      → ((r : R) → x ≡ err r → Q r)
      → ((a : A) → x ≡ ok a → Wp Q H (k a))
      → Wp Q H (x >>= k)
  Wp-step Q H (ok a) k early next = next a refl
  Wp-step Q H (err r) k early next = early r refl

  pub Wp-early {κ ι} :
      {A : Type κ} (Q : R → Type ι) (G : A → Type ι) (x : Result R A)
      → Wp Q G x
      → (r : R) → x ≡ err r
      → Q r
  Wp-early Q G x h r e = subst (Wp Q G) e h

  -- A chain whose steps are looked at one by one.
  pub finish_bind {κ ι} :
      {A : Type κ} (Q : R → Type ι) (x : Result R A) (k : A → Result R R)
      → ((r : R) → x ≡ err r → Q r)
      → ((a : A) → x ≡ ok a → Q (finish (k a)))
      → Q (finish (x >>= k))
  finish_bind Q (ok a) k early next = next a refl
  finish_bind Q (err r) k early next = early r refl

  pub Wp-ok {κ ι} :
      {A : Type κ} (Q : R → Type ι) (G : A → Type ι) (x : Result R A)
      → Wp Q G x
      → (a : A) → x ≡ ok a
      → G a
  Wp-ok Q G x h a e = subst (Wp Q G) e h
