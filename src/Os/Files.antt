-- ===== src/Os/Files.antt =====
-- What the calls do to the files, failures included, and what holds of the files at every point of a
-- program, so also where it is cut off. A file system is what each path holds. A call that is cut off
-- leaves what it may leave when it fails. A rename may be a copy, as on the mount of the artifact
-- store: one that fails or is cut off can leave a beginning of the contents, and one that succeeds
-- can leave its source. Creating a file that exists is not taken to empty it, which that mount does
-- not do. The size that a stat tells is that of the contents.
use pod_snapshotter.Base.{
  ◌≡◌, refl, sym, ◌≢◌, ◌⊎◌, inl, inr, ◌++◌, length, Option, none, some, false, [], Bool-cases,
  subst,
}
use pod_snapshotter.Base.Bytes.{Bytes, eqb, eqb_iff, has_prefix}
use pod_snapshotter.Base.Result.{Result, ok, err}
use pod_snapshotter.Os.{
  Op, Answer, Prog, ret, call, ◌>>=◌, or_return, or_else, OsError, os_error, remove, remove_all,
  create, write, rename, stat, FileInfo, capture_shm, capture_rootfs, dump, unless_missing,
  not_exist, read_file,
}

abbrev pub Files : Type 0
Files = Bytes → Option Bytes

abbrev pub Same : Files → Files → Type 0
Same fs after = (q : Bytes) → after q ≡ fs q

-- Only the file at `p` may change.
abbrev pub Only : Bytes → Files → Files → Type 0
Only p fs after = (q : Bytes) → q ≢ p → after q ≡ fs q

abbrev pub Removed : Bytes → Files → Option OsError → Files → Type 0
Removed p fs (some (os_error t)) after = (after p ≡ fs p) ⊎ (after p ≡ none)
Removed p fs _ after = after p ≡ none

-- A beginning of the contents.
abbrev pub Copied : Option Bytes → Option Bytes → Type 0
Copied whole found =
    (part : Bytes) × (rest : Bytes) × (whole ≡ some (part ++ rest)) × (found ≡ some part)

abbrev pub Renamed : Bytes → Bytes → Files → Option OsError → Files → Type 0
Renamed p q fs (some e) after = Only q fs after × ((after q ≡ fs q) ⊎ Copied (fs p) (after q))
Renamed p q fs none after = (after q ≡ fs p) × ((r : Bytes) → r ≢ p → r ≢ q → after r ≡ fs r)

-- What a call that is answered so may have done.
abbrev pub Effect : (o : Op) → Files → Answer o → Files → Type 0
Effect (remove p) fs r after = Only p fs after × Removed p fs r after
Effect (remove_all p) fs r after = (q : Bytes) → (after q ≡ fs q) ⊎ (after q ≡ none)
Effect (create p) fs r after = Only p fs after × (r ≡ none → fs p ≡ none → after p ≡ some [])
Effect (write p body) fs r after =
    Only p fs after × (r ≡ none → fs p ≡ some [] → after p ≡ some body)
Effect (rename p q) fs r after = Renamed p q fs r after
Effect (capture_shm spec host out) fs r after = Only out fs after
Effect (capture_rootfs upper host out) fs r after = Only out fs after
Effect (dump opts) fs r after =
    (q : Bytes)
    → has_prefix q opts.image_path ≡ false
    → has_prefix q opts.work_path ≡ false
    → after q ≡ fs q
Effect (read_file p) fs r after = Same fs after × ((body : Bytes) → r ≡ ok body → fs p ≡ some body)
Effect (stat p) fs r after =
    Same fs after
    × ((info : FileInfo) (body : Bytes) → r ≡ ok info → fs p ≡ some body → info.size ≡ length body)
Effect _ fs r after = Same fs after

-- `I` holds of the files before and after every call, and `G` of the result and the files at the end.
abbrev pub Along {ℓ} :
    {A : Type ℓ} → (Files → Type 0) → (A → Files → Type 0) → Prog A → Files → Type 0
Along I G (ret a) fs = I fs × G a fs
Along I G (call o k) fs =
    I fs × ((r : Answer o) (after : Files) → Effect o fs r after → Along I G (k r) after)

pub Along-bind {ℓ κ} :
    {A : Type ℓ} {B : Type κ} (I : Files → Type 0) (G : A → Files → Type 0) (H : B → Files → Type 0)
    (p : Prog A) (f : A → Prog B) (fs : Files)
    → Along I G p fs
    → ((a : A) (after : Files) → I after → G a after → Along I H (f a) after)
    → Along I H (p >>= f) fs
Along-bind I G H (ret a) f fs h n = n a fs h.0 h.1
Along-bind I G H (call o k) f fs h n =
    (h.0, λ r after e. Along-bind I G H (k r) f after (h.1 r after e) n)

pub Along-map {ℓ} :
    {A : Type ℓ} (I J : Files → Type 0) (G H : A → Files → Type 0) (p : Prog A) (fs : Files)
    → ((after : Files) → I after → J after)
    → ((a : A) (after : Files) → I after → G a after → H a after)
    → Along I G p fs
    → Along J H p fs
Along-map I J G H (ret a) fs i g h = (i fs h.0, g a fs h.0 h.1)
Along-map I J G H (call o k) fs i g h =
    (i fs h.0, λ r after e. Along-map I J G H (k r) after i g (h.1 r after e))

pub Along-or_return {ℓ κ} :
    {E : Type κ} {A : Type ℓ} (I : Files → Type 0) (H : A → Files → Type 0) (x : Option E)
    (f : E → Prog A) (rest : Prog A) (fs : Files)
    → ((e : E) → x ≡ some e → Along I H (f e) fs)
    → (x ≡ none → Along I H rest fs)
    → Along I H (or_return x f rest) fs
Along-or_return I H none f rest fs early next = next refl
Along-or_return I H (some e) f rest fs early next = early e refl

pub Along-or_else {ℓ κ ι} :
    {E : Type κ} {B : Type ι} {A : Type ℓ} (I : Files → Type 0) (H : A → Files → Type 0)
    (x : Result E B) (f : E → Prog A) (rest : B → Prog A) (fs : Files)
    → ((e : E) → x ≡ err e → Along I H (f e) fs)
    → ((b : B) → x ≡ ok b → Along I H (rest b) fs)
    → Along I H (or_else x f rest) fs
Along-or_else I H (ok b) f rest fs early next = next b refl
Along-or_else I H (err e) f rest fs early next = early e refl

-- A removal that does not fail leaves no file.
pub Removed-gone :
    (p : Bytes) (fs : Files) (r : Option OsError) (after : Files)
    → unless_missing r ≡ none
    → Removed p fs r after
    → after p ≡ none
Removed-gone p fs none after e h = h
Removed-gone p fs (some not_exist) after e h = h
Removed-gone p fs (some (os_error t)) after e h = absurd (cc e)

-- A file that a removal leaves as it was leaves the others as they were, too.
pub Only-Same : (p : Bytes) (fs after : Files) → Only p fs after → after p ≡ fs p → Same fs after
Only-Same p fs after only at_p q = elim (Bool-cases (eqb q p)) [
  | inl t ↦ subst (λ x. after x ≡ fs x) (sym ((eqb_iff q p).0 t)) at_p
  | inr t ↦ only q (λ e. absurd (cc (t, (eqb_iff q p).1 e)))
]
