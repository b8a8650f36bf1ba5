-- ===== src/Artifact/Prefetch.antt =====
-- internal/artifact/prefetch.go: fetchOne, and what it has read when it succeeds. `sha` is the
-- hexadecimal SHA-256; `moved` is the number of bytes that a failed copy of a file has moved.
pub mod Pool
pub mod Totals
pub mod Progress
mod Tests
use pod_snapshotter.Base.{
  ℕ, ◌≡◌, refl, Bool, true, false, not, ◌&&◌, ◌==◌, Option, none, some, List, [], ◌∷◌, arith,
  if◌then◌else◌, length, if_split,
}
use pod_snapshotter.Base.Bytes.{Bytes, codes, eqb}
use pod_snapshotter.Base.Result.{Result, ok, err}
use pod_snapshotter.Base.Int.{ℤ, pos}
use pod_snapshotter.Agent.Config.{decimal}
use pod_snapshotter.Go.Path.{join_path, dir_of}
use pod_snapshotter.Api.Common.{Message, format3, nested}
use pod_snapshotter.Artifact.Manifest.{Manifest, ManifestFile}
use pod_snapshotter.Artifact.Publish.{os_message}
use pod_snapshotter.Os.{
  Prog, ret, call, ask, ◌>>=◌, or_return, or_else, unless_missing, OsError, Op, Answer, open_file,
  mkdir_all, remove, create, read_file, write, close,
}

pub record PrefetchOptions : Type 0 where
  pub src_dir : Bytes
  pub manifest : Option Manifest
  pub stage_dir : Bytes
  pub parallelism : ℤ
  pub verify : Bool

-- What fetchOne returns: the bytes that it moved, and an error.
abbrev pub Fetched : Type 0
Fetched = ℕ × Option Message

abbrev failed : OsError → Prog Fetched
failed e = ret (0, some (os_message e))

-- A result of a program, under some answers.
pub data Returns {ℓ} {A : Type ℓ} : Prog A → A → Type ℓ where
  at_once : {a : A} → Returns (ret a) a
  after :
      {o : Op} {k : Answer o → Prog A} {a : A} (r : Answer o)
      → Returns (k r) a
      → Returns (call o k) a

-- What holds of each result of a program.
abbrev pub Always {ℓ} : {A : Type ℓ} → (A → Type 0) → Prog A → Type 0
Always P (ret a) = P a
Always P (call o k) = (r : Answer o) → Always P (k r)

Returns-Always {ℓ} :
    {A : Type ℓ} (P : A → Type 0) {p : Prog A} {a : A} → Returns p a → Always P p → P a
Returns-Always P at_once h = h
Returns-Always P (after r i) h = Returns-Always P i (h r)

Always-bind {ℓ κ} :
    {A : Type ℓ} {B : Type κ} (P : A → Type 0) (Q : B → Type 0) (p : Prog A) (f : A → Prog B)
    → Always P p
    → ((a : A) → P a → Always Q (f a))
    → Always Q (p >>= f)
Always-bind P Q (ret a) f h n = n a h
Always-bind P Q (call o k) f h n = λ r. Always-bind P Q (k r) f (h r) n

Always-or_return {ℓ κ} :
    {E : Type κ} {A : Type ℓ} (P : A → Type 0) (x : Option E) (f : E → Prog A) (rest : Prog A)
    → ((e : E) → Always P (f e))
    → Always P rest
    → Always P (or_return x f rest)
Always-or_return P none f rest early next = next
Always-or_return P (some e) f rest early next = early e

Always-or_else {ℓ κ ι} :
    {E : Type κ} {B : Type ι} {A : Type ℓ} (P : A → Type 0) (x : Result E B) (f : E → Prog A)
    (rest : B → Prog A)
    → ((e : E) → Always P (f e))
    → ((b : B) → Always P (rest b))
    → Always P (or_else x f rest)
Always-or_else P (ok b) f rest early next = next b
Always-or_else P (err e) f rest early next = early e

module _ (sha : Bytes → Bytes) (moved : ManifestFile → ℕ) (opts : PrefetchOptions) where
  -- The checks after the copy.
  unfoldable pub check_fetched : ManifestFile → Bytes → Fetched
  check_fetched f body =
      let n = length body in
      if not (n == f.size)
      then (
        n,
        some (
            format3 "artifact file %s is %d bytes, manifest says %d" f.path (decimal (pos n))
              (decimal (pos f.size))),
      )
      else if opts.verify && not (eqb f.sha256 []) && not (eqb (sha body) f.sha256)
      then (
        n,
        some (
            format3 "artifact file %s digest %s does not match manifest %s" f.path (sha body)
              f.sha256),
      )
      else (n, none)

  unfoldable pub reading_error : ManifestFile → OsError → Fetched
  reading_error f e = (moved f, some (nested "reading %s: %w" f.path [] (os_message e)))

  -- io.CopyBuffer to a sink that is open: the staged file, or only the digest, and the checks.
  unfoldable pub copy : Bytes → Option Bytes → ManifestFile → Prog Fetched
  copy src none f = do
    r ← ask (read_file src)
    or_else r (λ e. ret (reading_error f e)) (λ body. ret (check_fetched f body))
  copy src (some staged) f = do
    r ← ask (read_file src)
    or_else r (λ e. ret (reading_error f e))
        (λ body. (do
          written ← ask (write staged body)
          or_return written (λ e. ret (reading_error f e)) (ret (check_fetched f body))))

  -- The copy into node-local storage.
  unfoldable pub stage : Bytes → Bytes → ManifestFile → Prog Fetched
  stage src staged f = do
    made ← ask (mkdir_all (dir_of staged))
    or_return made failed (do
      removed ← ask (remove staged)
      or_return (unless_missing removed) failed (do
        created ← ask (create staged)
        or_return created failed (do r ← copy src (some staged) f; _ ← ask (close staged); ret r)))

  unfoldable pub fetch_opened : Bytes → ManifestFile → Prog Fetched
  fetch_opened src f =
      if eqb opts.stage_dir []
      then copy src none f
      else stage src (join_path (opts.stage_dir ∷ f.path ∷ [])) f

  -- fetchOne (the mode of a staged file is not kept)
  unfoldable pub fetch_one : ManifestFile → Prog Fetched
  fetch_one f =
      let src = join_path (opts.src_dir ∷ f.path ∷ []) in
      do
        opened ← ask (open_file src)
        or_return opened (λ e. ret (0, some (nested "opening %s: %w" f.path [] (os_message e))))
            (do r ← fetch_opened src f; _ ← ask (close src); ret r)

  -- What fetchOne can return.
  abbrev pub Fetches : ManifestFile → Fetched → Type 0
  Fetches f r = Returns (fetch_one f) r

  abbrev Complete : ManifestFile → Fetched → Type 0
  Complete f r = r.1 ≡ none → r.0 ≡ f.size

  check_fetched-Complete : (f : ManifestFile) (body : Bytes) → Complete f (check_fetched f body)
  unfolding check_fetched
  check_fetched-Complete f body h = ground arith

  failed-Complete : (f : ManifestFile) (e : OsError) → Always (Complete f) (failed e)
  failed-Complete f e h = absurd (cc h)

  copy-Complete :
      (src : Bytes) (staged : Option Bytes) (f : ManifestFile)
      → Always (Complete f) (copy src staged f)
  unfolding copy reading_error
  copy-Complete src none f = λ r.
      Always-or_else (Complete f) r _ _ (λ e h. absurd (cc h))
        (λ body. check_fetched-Complete f body)
  copy-Complete src (some staged) f = λ r.
      Always-or_else (Complete f) r _ _ (λ e h. absurd (cc h))
        (λ body w.
          Always-or_return (Complete f) w _ _ (λ e h. absurd (cc h))
            (check_fetched-Complete f body))

  stage-Complete :
      (src staged : Bytes) (f : ManifestFile) → Always (Complete f) (stage src staged f)
  unfolding stage
  stage-Complete src staged f = λ made.
      Always-or_return (Complete f) made _ _ (failed-Complete f) (λ removed.
        Always-or_return (Complete f) (unless_missing removed) _ _ (failed-Complete f) (λ created.
          Always-or_return (Complete f) created _ _ (failed-Complete f) (
            Always-bind (Complete f) (Complete f) (copy src (some staged) f) _
              (copy-Complete src (some staged) f) (λ r h _. h))))

  fetch_opened-Complete :
      (src : Bytes) (f : ManifestFile) → Always (Complete f) (fetch_opened src f)
  unfolding fetch_opened
  fetch_opened-Complete src f =
      if_split (Always (Complete f)) (eqb opts.stage_dir []) _ _ (λ _. copy-Complete src none f)
        (λ _. stage-Complete src (join_path (opts.stage_dir ∷ f.path ∷ [])) f)

  fetch_one-Complete : (f : ManifestFile) → Always (Complete f) (fetch_one f)
  unfolding fetch_one
  fetch_one-Complete f = λ opened.
      let src = join_path (opts.src_dir ∷ f.path ∷ []) in
      Always-or_return (Complete f) opened _ _ (λ e h. absurd (cc h))
        (Always-bind (Complete f) (Complete f) (fetch_opened src f) _ (fetch_opened-Complete src f)
          (λ r h _. h))

  pub fetch_one-size : (f : ManifestFile) (n : ℕ) → Fetches f (n, none) → n ≡ f.size
  fetch_one-size f n r = Returns-Always (Complete f) r (fetch_one-Complete f) refl
