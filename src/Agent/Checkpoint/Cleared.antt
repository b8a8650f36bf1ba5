-- ===== src/Agent/Checkpoint/Cleared.antt =====
-- When runc is run: the artifact directory was read back empty, and nothing was written since.
use pod_snapshotter.Base.{
  ◌≡◌, refl, ◌∙◌, Bool, true, false, List, [], ◌∷◌, if◌then◌else◌, if_split, ℕ, suc, zero,
}
use pod_snapshotter.Base.Bytes.{Bytes, codes, eqb, eqb_iff}
use pod_snapshotter.Base.Result.{Result, ok, err}
use pod_snapshotter.Go.Path.{join_path}
use pod_snapshotter.Os.{
  Op, Answer, Prog, ret, call, ◌>>=◌, OsError, not_exist, os_error, DirEntry, dump, read_dir,
  mkdir_all, create, write, rename, capture_shm, capture_rootfs, update, get, unless_missing,
}
use pod_snapshotter.Os.Quiet.{OnFiles, Quiet, Quiet-or_return, Quiet-or_else}
use pod_snapshotter.Artifact.Publish.Quiet.{and_then-Quiet}
use pod_snapshotter.Os.Laws.{Traced, Traced-or_else, Traced-bind}
use pod_snapshotter.Artifact.Publish.{Action}
use pod_snapshotter.Api.Common.{Message}
use pod_snapshotter.Agent.Checkpoint.Clear.{
  unread, check_left, read_again, clear_artifact_dir, clear_entries, clear_entry,
}
use Prim.Native.String.{String}

-- What a reading of the directory shows.
abbrev pub shows_empty : Result OsError (List DirEntry) → Bool
shows_empty (ok []) = true
shows_empty (err not_exist) = true
shows_empty _ = false

-- Whether the directory is known to be empty: it was read so, and nothing was written since.
abbrev pub empty_after : Bytes → (o : Op) → Answer o → Bool → Bool
empty_after dst (read_dir p) r known = if eqb p dst then shows_empty r else known
empty_after dst (mkdir_all p) r known = false
empty_after dst (create p) r known = false
empty_after dst (write p body) r known = false
empty_after dst (rename p q) r known = false
empty_after dst (capture_shm spec host out) r known = false
empty_after dst (capture_rootfs upper host out) r known = false
empty_after dst (dump opts) r known = false
empty_after dst _ r known = known

-- A dump needs it, and writes into the directory.
abbrev pub IntoEmpty : Bytes → Op → Bool → Type 0
IntoEmpty dst (dump opts) known =
    (known ≡ true) × (opts.image_path ≡ join_path (dst ∷ codes "checkpoint" ∷ []))
IntoEmpty dst _ known = Unit

abbrev pub Anyhow {ℓ} : {A : Type ℓ} → Bool → A → Type 0
Anyhow known a = Unit

-- Every dump of the program is one into an empty directory.
abbrev pub DumpsEmpty {ℓ} : {A : Type ℓ} → Bytes → Bool → Prog A → Type 0
DumpsEmpty dst known p = Traced (empty_after dst) (IntoEmpty dst) known Anyhow p

-- No dump at all.
abbrev pub NotDump : Op → Type 0
NotDump (dump opts) = ⊥
NotDump _ = Unit

abbrev pub NoDump {ℓ} : {A : Type ℓ} → Prog A → Type 0
NoDump (ret a) = Unit
NoDump (call o k) = NotDump o × ((r : Answer o) → NoDump (k r))

pub NoDump-bind {ℓ κ} :
    {A : Type ℓ} {B : Type κ} (p : Prog A) (f : A → Prog B)
    → NoDump p
    → ((a : A) → NoDump (f a))
    → NoDump (p >>= f)
NoDump-bind (ret a) f h n = n a
NoDump-bind (call o k) f h n = (h.0, λ r. NoDump-bind (k r) f (h.1 r) n)

not_needed : (dst : Bytes) (o : Op) (known : Bool) → NotDump o → IntoEmpty dst o known
not_needed dst (dump opts) known h = absurd h
not_needed dst _ known h = tt

pub NoDump-DumpsEmpty {ℓ} :
    {A : Type ℓ} (dst : Bytes) (known : Bool) (p : Prog A) → NoDump p → DumpsEmpty dst known p
NoDump-DumpsEmpty dst known (ret a) h = tt
NoDump-DumpsEmpty dst known (call o k) h = (
  not_needed dst o known h.0,
  λ r. NoDump-DumpsEmpty dst (empty_after dst o r known) (k r) (h.1 r),
)

file_op : (o : Op) → OnFiles o → NotDump o
file_op get h = tt
file_op (update snap) h = tt
file_op (dump opts) h = absurd h
file_op _ h = tt

pub Quiet-NoDump {ℓ} : {A : Type ℓ} (p : Prog A) → Quiet p → NoDump p
Quiet-NoDump (ret a) h = tt
Quiet-NoDump (call o k) h = (file_op o h.0, λ r. Quiet-NoDump (k r) (h.1 r))

unread-Quiet : (what : String) (dir : Bytes) (e : OsError) → Quiet (unread what dir e)
unfolding unread
unread-Quiet what dir not_exist = tt
unread-Quiet what dir (os_error t) = tt

check_left-Quiet : (dir : Bytes) (left : List DirEntry) → Quiet (check_left dir left)
unfolding check_left
check_left-Quiet dir [] = tt
check_left-Quiet dir (e ∷ left) = tt

clear_entry-Quiet :
    (recur : Bytes → Action (Unit {0}))
    → ((p : Bytes) → Quiet (recur p))
    → (dir : Bytes) (e : DirEntry) → Quiet (clear_entry recur dir e)
unfolding clear_entry
clear_entry-Quiet recur h dir e =
    and_then-Quiet _ _
      (if_split (λ (p : Action (Unit {0})). Quiet p) e.is_dir _ _ (λ _. h _) (λ _. tt))
      (λ _. (tt, λ r. Quiet-or_return (unless_missing r) _ _ (λ x. tt) tt))

clear_entries-Quiet :
    (recur : Bytes → Action (Unit {0}))
    → ((p : Bytes) → Quiet (recur p))
    → (dir : Bytes) (entries : List DirEntry) → Quiet (clear_entries recur dir entries)
unfolding clear_entries read_again
clear_entries-Quiet recur h dir [] =
    (tt, λ r. Quiet-or_else r _ _ (unread-Quiet _ dir) (check_left-Quiet dir))
clear_entries-Quiet recur h dir (e ∷ entries) =
    and_then-Quiet _ _ (clear_entry-Quiet recur h dir e)
      (λ _. clear_entries-Quiet recur h dir entries)

pub clear_artifact_dir-Quiet : (depth : ℕ) (dir : Bytes) → Quiet (clear_artifact_dir depth dir)
unfolding clear_artifact_dir
clear_artifact_dir-Quiet zero dir = tt
clear_artifact_dir-Quiet (suc depth) dir = (
  tt,
  λ r.
      Quiet-or_else r _ _ (unread-Quiet _ dir)
        (clear_entries-Quiet _ (clear_artifact_dir-Quiet depth) dir),
)

module _ (dst : Bytes) where
  -- After a clearing that succeeds the directory is known to be empty.
  abbrev pub KnownIfOk : Bool → Result Message (Unit {0}) → Type 0
  KnownIfOk known (ok u) = known ≡ true
  KnownIfOk known (err m) = Unit

  abbrev pub Clears : Bool → Action (Unit {0}) → Type 0
  Clears known p = Traced (empty_after dst) (IntoEmpty dst) known KnownIfOk p

  same_path : eqb dst dst ≡ true
  same_path = (eqb_iff dst dst).1 refl

  seen-shows :
      (known : Bool) (r : Result OsError (List DirEntry))
      → (if eqb dst dst then shows_empty r else known) ≡ shows_empty r
  seen-shows known r = rw same_path refl

  unread-Clears :
      (what : String) (known : Bool) (e : OsError)
      → (e ≡ not_exist → known ≡ true)
      → Clears known (unread what dst e)
  unfolding unread
  unread-Clears what known not_exist h = h refl
  unread-Clears what known (os_error t) h = tt

  check_left-Clears :
      (known : Bool) (left : List DirEntry)
      → (left ≡ [] → known ≡ true)
      → Clears known (check_left dst left)
  unfolding check_left
  check_left-Clears known [] h = h refl
  check_left-Clears known (e ∷ left) h = tt

  read_again-Clears : (known : Bool) → Clears known (read_again dst)
  unfolding read_again
  read_again-Clears known = (
    tt,
    λ r.
        Traced-or_else (empty_after dst) (IntoEmpty dst) _ KnownIfOk r _ _
          (λ e q. unread-Clears _ _ e (λ n. seen-shows known r ∙ (rw (q, n) refl)))
          (λ left q. check_left-Clears _ left (λ n. seen-shows known r ∙ (rw (q, n) refl))),
  )

  clear_entries-Clears :
      (recur : Bytes → Action (Unit {0}))
      → ((p : Bytes) → Quiet (recur p))
      → (known : Bool) (entries : List DirEntry) → Clears known (clear_entries recur dst entries)
  unfolding clear_entries
  clear_entries-Clears recur h known [] = read_again-Clears known
  clear_entries-Clears recur h known (e ∷ entries) =
      Traced-bind (empty_after dst) (IntoEmpty dst) known Anyhow KnownIfOk (clear_entry recur dst e)
        _ (NoDump-DumpsEmpty dst known _ (Quiet-NoDump _ (clear_entry-Quiet recur h dst e)))
        (λ now r _.
          Traced-or_else (empty_after dst) (IntoEmpty dst) now KnownIfOk r _ _ (λ _ _. tt)
            (λ _ _. clear_entries-Clears recur h now entries))

  pub clear_artifact_dir-Clears :
      (depth : ℕ) (known : Bool) → Clears known (clear_artifact_dir depth dst)
  unfolding clear_artifact_dir
  clear_artifact_dir-Clears zero known = tt
  clear_artifact_dir-Clears (suc depth) known = (
    tt,
    λ r.
        Traced-or_else (empty_after dst) (IntoEmpty dst) _ KnownIfOk r _ _
          (λ e q. unread-Clears _ _ e (λ n. seen-shows known r ∙ (rw (q, n) refl)))
          (λ entries _. clear_entries-Clears _ (clear_artifact_dir-Quiet depth) _ entries),
  )
