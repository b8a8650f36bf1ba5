-- ===== src/Artifact/Publish.antt =====
-- internal/artifact/expand.go: how a file, and the MANIFEST that commits a directory artifact, are
-- put on the disk. `sha` is the hexadecimal SHA-256, `encode` what Manifest.Encode writes.
pub mod Expand
pub mod Dir
pub mod Magic
pub mod Quiet
pub mod QuietDir
mod Tests
pub mod Writes
pub mod Commit
pub mod Atomic
pub mod Whole
pub mod Checked
pub mod Absent
use pod_snapshotter.Base.{ℕ, ◌%◌, Option, none, some, List, [], ◌∷◌, ◌++◌, length}
use pod_snapshotter.Base.Bytes.{Bytes, codes}
use pod_snapshotter.Base.Result.{Result, ok, err}
use pod_snapshotter.Go.Path.{join_path, dir_of}
use pod_snapshotter.Artifact.Uri.{manifest_name}
use pod_snapshotter.Artifact.Manifest.{
  Manifest, ManifestFile, ManifestError, valid_rel_path, empty_path, not_relative, not_clean,
  leaves_prefix,
}
use pod_snapshotter.Api.Common.{Message, fixed, format1, nested}
use pod_snapshotter.Os.{
  Prog, ret, ask, ◌>>=◌, or_return, or_else, unless_missing, os_error_text, OsError, mkdir_all,
  remove, create, write, sync, close, rename, stat, read_file,
}

-- What a function of the package returns, as a program.
abbrev pub Action {ℓ} : Type ℓ → Type ℓ
Action A = Prog (Result Message A)

abbrev pub os_message : OsError → Message
os_message e = format1 "%v" (os_error_text e)

-- `if err != nil { return err }`
abbrev pub or_fail {ℓ} : {A : Type ℓ} → Option OsError → Action A → Action A
or_fail x rest = or_return x (λ e. ret (err (os_message e))) rest

-- `if err := op; err != nil { return err }`, for an operation of the package.
abbrev pub and_then {ℓ κ} : {A : Type ℓ} {B : Type κ} → Action A → (A → Action B) → Action B
and_then p f = do r ← p; or_else r (λ m. ret (err m)) f

-- The clean-up before an error is returned: the descriptor is closed, the file removed.
abbrev pub close_remove : Bytes → OsError → Action (Unit {0})
close_remove tmp e = do _ ← ask (close tmp); _ ← ask (remove tmp); ret (err (os_message e))

abbrev pub only_remove : Bytes → OsError → Action (Unit {0})
only_remove tmp e = do _ ← ask (remove tmp); ret (err (os_message e))

-- RenamePublish after the rename: the source is removed where it is still there.
unfoldable pub remove_source : Bytes → Bytes → Action (Unit {0})
remove_source tmp dst = do
  removed ← ask (remove tmp)
  or_return (unless_missing removed)
      (λ e. ret (err (nested "published %s but could not remove %s: %w" dst tmp (os_message e))))
      (ret (ok tt))

-- RenamePublish
unfoldable pub rename_publish : Bytes → Bytes → Action (Unit {0})
rename_publish tmp dst = do renamed ← ask (rename tmp dst); or_fail renamed (remove_source tmp dst)

-- WriteManifestDir once the temporary file is open.
unfoldable pub fill_manifest : Bytes → Bytes → Bytes → Action (Unit {0})
fill_manifest tmp dst body = do
  written ← ask (write tmp body)
  or_return written (close_remove tmp) (do
    synced ← ask (sync tmp)
    or_return synced (close_remove tmp)
        (do closed ← ask (close tmp); or_return closed (only_remove tmp) (rename_publish tmp dst)))

abbrev pub manifest_path : Bytes → Bytes
manifest_path dir = join_path (dir ∷ manifest_name ∷ [])

abbrev pub part_of : Bytes → Bytes
part_of p = p ++ codes ".part"

-- WriteManifestDir
unfoldable pub write_manifest_dir : (Manifest → Bytes) → Bytes → Manifest → Action (Unit {0})
write_manifest_dir encode dir m =
    let tmp = part_of (manifest_path dir) in
    do
      cleared ← ask (remove tmp)
      or_fail (unless_missing cleared) (do
        created ← ask (create tmp)
        or_fail created (fill_manifest tmp (manifest_path dir) (encode m)))

abbrev pub close_fail {ℓ} : {A : Type ℓ} → Bytes → OsError → Action A
close_fail dst e = do _ ← ask (close dst); ret (err (os_message e))

-- writeFile once the file is open: the digest and the size of what was written.
unfoldable pub fill_file : (Bytes → Bytes) → Bytes → Bytes → Action (Bytes × ℕ)
fill_file sha dst body = do
  written ← ask (write dst body)
  or_return written (close_fail dst) (do
    synced ← ask (sync dst)
    or_return synced (close_fail dst) (do
      closed ← ask (close dst)
      or_return closed (close_fail dst) (ret (ok (sha body, length body)))))

-- writeFile (the mode of the new file is not kept)
unfoldable pub write_file : (Bytes → Bytes) → Bytes → Bytes → Action (Bytes × ℕ)
write_file sha dst body = do
  made ← ask (mkdir_all (dir_of dst))
  or_fail made (do
    removed ← ask (remove dst)
    or_fail (unless_missing removed)
        (do created ← ask (create dst); or_fail created (fill_file sha dst body)))

abbrev pub manifest_error : ManifestError → Message
manifest_error empty_path = fixed "empty path"
manifest_error not_relative = fixed "must be relative"
manifest_error not_clean = fixed "must be a clean path"
manifest_error leaves_prefix = fixed "must not traverse out of the artifact prefix"
manifest_error _ = fixed "invalid MANIFEST"

-- DescribeFile after the check of the path.
unfoldable pub describe_valid : (Bytes → Bytes) → Bytes → Bytes → Action ManifestFile
describe_valid sha dst rel =
    let full = join_path (dst ∷ rel ∷ []) in
    do
      found ← ask (stat full)
      or_else found (λ e. ret (err (os_message e)))
          (λ info. do
            opened ← ask (read_file full)
            or_else opened (λ e. ret (err (os_message e)))
                (λ body. ret (
                  ok (record {
                    path = rel;
                    size = info.size;
                    sha256 = sha body;
                    mode = info.mode % 512;
                  }))))

-- DescribeFile
unfoldable pub describe_file : (Bytes → Bytes) → Bytes → Bytes → Action ManifestFile
describe_file sha dst rel =
    or_else (valid_rel_path rel)
      (λ e. ret (err (nested "artifact file %q: %w" rel [] (manifest_error e))))
      (λ _. describe_valid sha dst rel)
