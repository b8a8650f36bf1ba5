-- ===== src/Agent/Checkpoint/Clear.antt =====
-- clearArtifactDir of internal/agent/checkpoint_controller.go. The fuel is the depth of the tree;
-- paths of Linux have at most 4096 bytes, so no tree is deeper than 2048.
use Prim.Native.String.{String}
use pod_snapshotter.Base.{ℕ, suc, zero, List, [], ◌∷◌, if◌then◌else◌}
use pod_snapshotter.Base.Bytes.{Bytes}
use pod_snapshotter.Base.Result.{ok, err}
use pod_snapshotter.Go.Path.{join_path}
use pod_snapshotter.Artifact.Publish.{Action, os_message, and_then}
use pod_snapshotter.Api.Common.{fixed, format1, nested}
use pod_snapshotter.Os.{
  ret, ask, ◌>>=◌, or_return, or_else, unless_missing, OsError, not_exist, os_error, DirEntry,
  remove, read_dir,
}

abbrev pub max_depth : ℕ
max_depth = 2048

-- A directory that is not there is clear.
unfoldable pub unread : String → Bytes → OsError → Action (Unit {0})
unread what dir not_exist = ret (ok tt)
unread what dir (os_error t) = ret (err (nested what dir [] (os_message (os_error t))))

-- The second reading: what is left is an error.
unfoldable pub check_left : Bytes → List DirEntry → Action (Unit {0})
check_left dir [] = ret (ok tt)
check_left dir (e ∷ left) = ret (err (format1 "%s still holds files after removing them" dir))

unfoldable pub read_again : Bytes → Action (Unit {0})
read_again dir = do
  r ← ask (read_dir dir)
  or_else r (unread "re-reading %s after clearing it: %w" dir) (check_left dir)

-- One entry of the loop; `recur` clears a directory.
unfoldable pub clear_entry : (Bytes → Action (Unit {0})) → Bytes → DirEntry → Action (Unit {0})
clear_entry recur dir e =
    let p = join_path (dir ∷ e.name ∷ []) in
    and_then (if e.is_dir then recur p else ret (ok tt)) (λ _. do
      r ← ask (remove p)
      or_return (unless_missing r) (λ x. ret (err (nested "removing %s: %w" p [] (os_message x))))
          (ret (ok tt)))

unfoldable pub clear_entries :
    (Bytes → Action (Unit {0})) → Bytes → List DirEntry → Action (Unit {0})
clear_entries recur dir [] = read_again dir
clear_entries recur dir (e ∷ entries) =
    and_then (clear_entry recur dir e) (λ _. clear_entries recur dir entries)

-- clearArtifactDir
unfoldable pub clear_artifact_dir : ℕ → Bytes → Action (Unit {0})
clear_artifact_dir zero dir = ret (err (fixed "too deep"))
clear_artifact_dir (suc depth) dir = do
  r ← ask (read_dir dir)
  or_else r (unread "reading %s to clear it: %w" dir) (clear_entries (clear_artifact_dir depth) dir)
