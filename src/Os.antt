-- ===== src/Os.antt =====
-- Programs that call the surroundings one operation at a time: what the agent asks of the node's
-- file system, of the container runtime and of the API server. A program is a tree whose branches
-- are the answers, so that a statement about it holds at every call and after every failure.
pub mod Laws
pub mod Files
pub mod Quiet
use Prim.Native.String.{String}
use pod_snapshotter.Base.{ℕ, Bool, Option, none, some, List, if◌then◌else◌}
use pod_snapshotter.Base.Bytes.{Bytes, codes}
use pod_snapshotter.Base.Int.{ℤ}
use pod_snapshotter.Base.Result.{Result, ok, err}
use pod_snapshotter.Api.Common.{ApiError}
use pod_snapshotter.Api.Snapshot.{PodSnapshot}

-- An error of package os, or of a tool that is called: what os.IsNotExist recognises, or a text.
pub data OsError : Type 0 where
  not_exist : OsError
  os_error : Bytes → OsError

pub record FileInfo : Type 0 where
  pub is_dir : Bool
  pub size : ℕ
  pub mode : ℕ
  pub modified_at : ℕ

pub record DirEntry : Type 0 where
  pub name : Bytes
  pub is_dir : Bool

-- A file below a directory that filepath.WalkDir visits.
pub record WalkFile : Type 0 where
  pub rel : Bytes
  pub size : ℕ
  pub mode : ℕ

-- One header of an archive with the contents behind it.
pub data MemberType : Type 0 where
  type_dir type_reg type_other : MemberType

pub record Member : Type 0 where
  pub name : Bytes
  pub type : MemberType
  pub mode : ℕ
  pub body : Bytes

-- cri.SandboxInfo, of which the dump reads two fields.
pub record Sandbox : Type 0 where
  pub keeper_container_id : Bytes
  pub keeper_pid : ℤ

-- restore.CheckpointOpts, less what is left at its zero value.
pub record CheckpointOpts : Type 0 where
  pub container_id : Bytes
  pub image_path : Bytes
  pub work_path : Bytes
  pub env : List (Bytes × Bytes)
  pub timeout : ℕ

-- One call. `write` is the copy of contents into the file that was opened, `capture_shm` and
-- `capture_rootfs` are CaptureShm and CaptureRootfsDiff of package restore.
pub data Op : Type 0 where
  mkdir_all remove remove_all create sync close stat open_file read_file read_dir walk : Bytes → Op
  write rename resolve : Bytes → Bytes → Op
  overlay_upper_dir : ℤ → Op
  capture_shm capture_rootfs : Bytes → Bytes → Bytes → Op
  dump : CheckpointOpts → Op
  head : Bytes → Op
  get : Op
  update : PodSnapshot → Op
  now : Op

abbrev pub Answer : Op → Type 0
Answer (mkdir_all p) = Option OsError
Answer (remove p) = Option OsError
Answer (remove_all p) = Option OsError
Answer (create p) = Option OsError
Answer (sync p) = Option OsError
Answer (close p) = Option OsError
Answer (stat p) = Result OsError FileInfo
Answer (read_file p) = Result OsError Bytes
Answer (read_dir p) = Result OsError (List DirEntry)
Answer (walk p) = Result OsError (List WalkFile)
Answer (open_file p) = Option OsError
Answer (write p body) = Option OsError
Answer (rename p q) = Option OsError
Answer (resolve uid container) = Result OsError Sandbox
Answer (overlay_upper_dir pid) = Result OsError Bytes
Answer (capture_shm spec host out) = Result OsError Bool
Answer (capture_rootfs upper host out) = Result OsError Bool
Answer (dump opts) = Option OsError
Answer (head p) = Option OsError
Answer get = Result ApiError PodSnapshot
Answer (update snap) = Option ApiError
Answer now = ℕ

pub data Prog {ℓ} (A : Type ℓ) : Type ℓ where
  ret : A → Prog A
  call : (o : Op) → (Answer o → Prog A) → Prog A

infixl 5 ◌>>=◌
abbrev pub ◌>>=◌ {ℓ κ} : {A : Type ℓ} {B : Type κ} → Prog A → (A → Prog B) → Prog B
ret a >>= f = f a
call o k >>= f = call o (λ r. k r >>= f)

abbrev pub ask : (o : Op) → Prog (Answer o)
ask o = call o (λ r. ret r)

-- `if err := op; err != nil { return r }`, and else the rest.
abbrev pub or_return {ℓ κ} : {E : Type κ} {A : Type ℓ} → Option E → (E → Prog A) → Prog A → Prog A
or_return none f rest = rest
or_return (some e) f rest = f e

-- The same of a call that returns a value too.
abbrev pub or_else {ℓ κ ι} :
    {E : Type κ} {B : Type ι} {A : Type ℓ} → Result E B → (E → Prog A) → (B → Prog A) → Prog A
or_else (ok b) f rest = rest b
or_else (err e) f rest = f e

-- `err != nil && !os.IsNotExist(err)`
abbrev pub unless_missing : Option OsError → Option OsError
unless_missing none = none
unless_missing (some not_exist) = none
unless_missing (some (os_error t)) = some (os_error t)

-- err.Error()
abbrev pub os_error_text : OsError → Bytes
os_error_text not_exist = codes "no such file or directory"
os_error_text (os_error t) = t
