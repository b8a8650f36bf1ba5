-- ===== src/Os/Laws.antt =====
-- Predicates over programs: what holds of every update that a program sends, and of its result.
use pod_snapshotter.Base.{Option, some, none, ◌≡◌, refl}
use pod_snapshotter.Base.Result.{ok, err, Result}
use pod_snapshotter.Api.Snapshot.{PodSnapshot}
use pod_snapshotter.Os.{◌>>=◌, Op, Answer, Prog, ret, call, get, update, or_return, or_else}

-- The object that was read last.
abbrev pub last_read : (o : Op) → Answer o → Option PodSnapshot → Option PodSnapshot
last_read get (ok snap) last = some snap
last_read get (err e) last = last
last_read (update snap) none last = some snap
last_read (update snap) (some e) last = last
last_read _ r last = last

-- The updates that a program can send, each with the object that it has read last.
pub data Issues {ℓ} {A : Type ℓ}
    : Option PodSnapshot → Prog A → PodSnapshot → PodSnapshot → Type ℓ where
  sends :
      {read snap : PodSnapshot} {k : Answer (update snap) → Prog A}
      → Issues (some read) (call (update snap) k) read snap
  later :
      {last : Option PodSnapshot} {o : Op} {k : Answer o → Prog A} {read snap : PodSnapshot}
      (r : Answer o)
      → Issues (last_read o r last) (k r) read snap
      → Issues last (call o k) read snap

-- A property of the calls of a program, which may depend on what was called before: `step` keeps
-- track of that, and every call meets `Need`. `G` holds at the end.
module _ {κ} {S : Type κ} (step : (o : Op) → Answer o → S → S) (Need : Op → S → Type 0) where
  abbrev pub Traced {ℓ} : {A : Type ℓ} → S → (S → A → Type 0) → Prog A → Type 0
  Traced s G (ret a) = G s a
  Traced s G (call o k) = Need o s × ((r : Answer o) → Traced (step o r s) G (k r))

  pub Traced-bind {ℓ ι} :
      {A : Type ℓ} {B : Type ι} (s : S) (G : S → A → Type 0) (H : S → B → Type 0) (p : Prog A)
      (f : A → Prog B)
      → Traced s G p
      → ((t : S) (a : A) → G t a → Traced t H (f a))
      → Traced s H (p >>= f)
  Traced-bind s G H (ret a) f h n = n s a h
  Traced-bind s G H (call o k) f h n = (h.0, λ r. Traced-bind (step o r s) G H (k r) f (h.1 r) n)

  pub Traced-or_return {ℓ ι} :
      {E : Type ι} {A : Type ℓ} (s : S) (H : S → A → Type 0) (x : Option E) (f : E → Prog A)
      (rest : Prog A)
      → ((e : E) → x ≡ some e → Traced s H (f e))
      → (x ≡ none → Traced s H rest)
      → Traced s H (or_return x f rest)
  Traced-or_return s H none f rest early next = next refl
  Traced-or_return s H (some e) f rest early next = early e refl

  pub Traced-or_else {ℓ ι θ} :
      {E : Type ι} {B : Type θ} {A : Type ℓ} (s : S) (H : S → A → Type 0) (x : Result E B)
      (f : E → Prog A) (rest : B → Prog A)
      → ((e : E) → x ≡ err e → Traced s H (f e))
      → ((b : B) → x ≡ ok b → Traced s H (rest b))
      → Traced s H (or_else x f rest)
  Traced-or_else s H (ok b) f rest early next = next b refl
  Traced-or_else s H (err e) f rest early next = early e refl

-- An update is a move from what was read last.
abbrev pub Sent : (PodSnapshot → PodSnapshot → Type 0) → Op → Option PodSnapshot → Type 0
Sent M (update snap) (some read) = M read snap
Sent M _ last = Unit

abbrev pub Ends {ℓ} : {A : Type ℓ} → Option PodSnapshot → A → Type 0
Ends last a = Unit

-- A program that sends nothing but moves of `M`.
abbrev pub Writes {ℓ} :
    {A : Type ℓ} → (PodSnapshot → PodSnapshot → Type 0) → Option PodSnapshot → Prog A → Type 0
Writes M last p = Traced last_read (Sent M) last Ends p

pub Issues-Writes {ℓ} :
    {A : Type ℓ} (M : PodSnapshot → PodSnapshot → Type 0) {last : Option PodSnapshot} {p : Prog A}
    {read snap : PodSnapshot}
    → Issues last p read snap
    → Writes M last p
    → M read snap
Issues-Writes M sends h = h.0
Issues-Writes M (later r i) h = Issues-Writes M i (h.1 r)
