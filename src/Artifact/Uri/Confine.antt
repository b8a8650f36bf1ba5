-- ===== src/Artifact/Uri/Confine.antt =====
-- The check of file URIs against the agent's local root.
use mathlib.Core.Path.{subst₂}
use pod_snapshotter.Base.{
  ◌≡◌, refl, sym, ap, ◌∙◌, ◌≢◌, ◌↔◌, ◌⊎◌, inl, inr, true, false, List, [], ◌∷◌, ◌++◌, arith, All,
  append_assoc, ℕ, append-nil,
}
use pod_snapshotter.Base.Bytes.{
  Bytes, codes, eqb, eqb_iff, has_prefix, trim_right, trim_step, split, Lacks,
}
use pod_snapshotter.Base.Result.{ok}
use pod_snapshotter.Go.Path.{slash, clean}
use pod_snapshotter.Go.Path.Parts.{IsPart, IsAbs, abs}
use pod_snapshotter.Go.Path.Laws.{split-abs, abs-append}
use pod_snapshotter.Go.Path.Join.{split-abs-slash}
use pod_snapshotter.Artifact.Uri.{Uri, scheme_file, check_local_root}
use pod_snapshotter.Artifact.Uri.Parse.{IsValid}
use pod_snapshotter.Artifact.Uri.Roundtrip.{abs_not_dot}

trim_step_other : (c a : ℕ) (s : Bytes) → a ≢ c → trim_step c a s ≡ a ∷ s
unfolding trim_step
trim_step_other c a [] n = ground arith
trim_step_other c a (b ∷ s) n = refl

trim_step_more : (c a : ℕ) (s t : Bytes) → s ≢ [] → trim_step c a (s ++ t) ≡ a ∷ (s ++ t)
unfolding trim_step
trim_step_more c a [] t n = absurd (n refl)
trim_step_more c a (b ∷ s) t n = refl

trim_right_after :
    (s : Bytes) (l : List Bytes)
    → Lacks slash s
    → All IsPart l
    → trim_right slash (s ++ abs l) ≡ s ++ abs l
unfolding trim_right
trim_right_after [] [] n h = refl
trim_right_after [] (t ∷ l) n h =
    rw (trim_right_after t l h.0.no_slash h.1) (trim_step_more slash slash t (abs l) h.0.filled)
trim_right_after (a ∷ s) l n h =
    rw (trim_right_after s l n.1 h) (trim_step_other slash a (s ++ abs l) n.0)

-- There is no slash at the end of a path of ordinary parts to take off.
pub trim_right-IsAbs : (p : Bytes) → IsAbs p → trim_right slash p ≡ p
trim_right-IsAbs p a = rw a.shape (trim_right_after [] a.parts tt a.ordinary)

has_prefix-append : (s p : Bytes) → has_prefix s p ≡ true → (t : Bytes) × (s ≡ p ++ t)
unfolding has_prefix
has_prefix-append s [] h = (s, refl)
has_prefix-append [] (b ∷ p) h = absurd (cc)
has_prefix-append (a ∷ s) (b ∷ p) h =
    let (t, e) = has_prefix-append s p (ground arith) in (t, ground arith)

pub has_prefix_self : (p t : Bytes) → has_prefix (p ++ t) p ≡ true
unfolding has_prefix
has_prefix_self [] [] = refl
has_prefix_self [] (a ∷ t) = refl
has_prefix_self (a ∷ p) t = ground (arith, has_prefix_self p t)

absurd_dot : ¬ IsAbs (clean [])
unfolding clean
absurd_dot a = abs_not_dot a.parts (sym a.shape)

root_given : (root : Bytes) → IsAbs (clean root) → eqb root [] ≡ false
unfolding eqb
root_given [] a = absurd (absurd_dot a)
root_given (b ∷ root) a = refl

tail_path : {s t : Bytes} {l m : List Bytes} → ◌≡◌ {A = List Bytes} (s ∷ l) (t ∷ m) → l ≡ m
tail_path e = cc

-- The parts of an extended path.
parts_extended :
    (l r : List Bytes) (t : Bytes)
    → l ≢ []
    → r ≢ []
    → All IsPart l
    → All IsPart r
    → abs l ≡ (abs r ++ slash ∷ []) ++ t
    → l ≡ r ++ split slash t
parts_extended l r t n m h k e = tail_path (
    sym (split-abs l n h)
    ∙ ap (split slash) (e ∙ append_assoc (abs r) (slash ∷ []) t)
    ∙ split-abs-slash r t m k)

abs-injective :
    (l r : List Bytes) → l ≢ [] → r ≢ [] → All IsPart l → All IsPart r → abs l ≡ abs r → l ≡ r
abs-injective l r n m h k e =
    tail_path (sym (split-abs l n h) ∙ ap (split slash) e ∙ split-abs r m k)

-- The two tests of the check.
abbrev AtOrBelow : Bytes → Bytes → Type 0
AtOrBelow p q = (eqb p q ≡ true) ⊎ (has_prefix p (q ++ codes "/") ≡ true)

-- A rooted path that lies at another one or below it: its parts go on from the other's.
abbrev pub IsInside : List Bytes → List Bytes → Type 0
IsInside l r = (rest : List Bytes) × (l ≡ r ++ rest)

module _ (l r : List Bytes) (n : l ≢ []) (m : r ≢ []) (h : All IsPart l) (k : All IsPart r) where
  IsInside-of_test : AtOrBelow (abs l) (abs r) → IsInside l r
  IsInside-of_test (inl e) =
      ([], abs-injective l r n m h k ((eqb_iff (abs l) (abs r)).0 e) ∙ sym (append-nil r))
  IsInside-of_test (inr e) =
      let (t, q) = has_prefix-append (abs l) (abs r ++ slash ∷ []) e in
      (split slash t, parts_extended l r t n m h k q)

test_of_inside : (l r rest : List Bytes) → l ≡ r ++ rest → AtOrBelow (abs l) (abs r)
test_of_inside l r [] e = inl ((eqb_iff (abs l) (abs r)).1 (ap abs (e ∙ append-nil r)))
test_of_inside l r (s ∷ rest) e = inr (
    rw
      (ap abs e ∙ abs-append r (s ∷ rest) ∙ sym (append_assoc (abs r) (slash ∷ []) (s ++ abs rest)))
      (has_prefix_self (abs r ++ slash ∷ []) (s ++ abs rest)))

module _ (u : Uri) (root : Bytes) (a : IsAbs (clean root)) (f : u.scheme ≡ scheme_file) where
  checked : (check_local_root u root ≡ ok tt) ↔ AtOrBelow u.path (clean root)
  unfolding check_local_root
  checked =
      rw (root_given root a, trim_right-IsAbs (clean root) a, (eqb_iff u.scheme scheme_file).1 f)
        (ground arith, ground arith)

-- A valid file URI passes the check exactly if its path lies at the configured root or below it,
-- part by part, where the cleaned root is a rooted path of ordinary parts.
pub check_local_root_iff :
    (u : Uri) (root : Bytes) (v : IsValid u) (a : IsAbs (clean root))
    → u.scheme ≡ scheme_file
    → (check_local_root u root ≡ ok tt) ↔ IsInside v.usable_path.parts a.parts
check_local_root_iff u root v a f =
    let l = v.usable_path.parts in
    let inside =
      IsInside-of_test l a.parts v.usable_path.some_part a.some_part v.usable_path.ordinary
        a.ordinary in
    (
      λ h. inside (subst₂ AtOrBelow v.usable_path.shape a.shape ((checked u root a f).0 h)),
      λ i. (checked u root a f).1 (
          subst₂ AtOrBelow (sym v.usable_path.shape) (sym a.shape)
            (test_of_inside l a.parts i.0 i.1)),
    )
