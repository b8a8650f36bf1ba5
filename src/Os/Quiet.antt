-- ===== src/Os/Quiet.antt =====
-- Programs that only work on files: they neither read nor write the object of the API server, and
-- they dump no container.
use pod_snapshotter.Base.{◌≡◌, refl, Option, none, some, subst, sym}
use pod_snapshotter.Base.Result.{Result, ok, err}
use pod_snapshotter.Os.{Op, Answer, Prog, ret, call, ◌>>=◌, or_return, or_else, get, update, dump}
use pod_snapshotter.Os.Laws.{Traced}

abbrev pub OnFiles : Op → Type 0
OnFiles get = ⊥
OnFiles (update snap) = ⊥
OnFiles (dump opts) = ⊥
OnFiles _ = Unit

abbrev pub Quiet {ℓ} : {A : Type ℓ} → Prog A → Type 0
Quiet (ret a) = Unit
Quiet (call o k) = OnFiles o × ((r : Answer o) → Quiet (k r))

pub Quiet-bind {ℓ κ} :
    {A : Type ℓ} {B : Type κ} (p : Prog A) (f : A → Prog B)
    → Quiet p
    → ((a : A) → Quiet (f a))
    → Quiet (p >>= f)
Quiet-bind (ret a) f h n = n a
Quiet-bind (call o k) f h n = (h.0, λ r. Quiet-bind (k r) f (h.1 r) n)

pub Quiet-or_return {ℓ κ} :
    {E : Type κ} {A : Type ℓ} (x : Option E) (f : E → Prog A) (rest : Prog A)
    → ((e : E) → Quiet (f e))
    → Quiet rest
    → Quiet (or_return x f rest)
Quiet-or_return none f rest early next = next
Quiet-or_return (some e) f rest early next = early e

pub Quiet-or_else {ℓ κ ι} :
    {E : Type κ} {B : Type ι} {A : Type ℓ} (x : Result E B) (f : E → Prog A) (rest : B → Prog A)
    → ((e : E) → Quiet (f e))
    → ((b : B) → Quiet (rest b))
    → Quiet (or_else x f rest)
Quiet-or_else (ok b) f rest early next = next b
Quiet-or_else (err e) f rest early next = early e

-- Where the files do not count, a quiet program can be left out.
pub Traced-Quiet {ℓ} :
    {S : Type 0} {A : Type ℓ} (step : (o : Op) → Answer o → S → S) (Need : Op → S → Type 0)
    → ((o : Op) (r : Answer o) (s : S) → OnFiles o → step o r s ≡ s)
    → ((o : Op) (s : S) → OnFiles o → Need o s)
    → (s : S) (p : Prog A) → Quiet p
    → Traced step Need s (λ t _. t ≡ s) p
Traced-Quiet step Need keeps free s (ret a) h = refl
Traced-Quiet step Need keeps free s (call o k) h = (
  free o s h.0,
  λ r.
      subst (λ t. Traced step Need t (λ u _. u ≡ s) (k r)) (sym (keeps o r s h.0))
        (Traced-Quiet step Need keeps free s (k r) (h.1 r)),
)
