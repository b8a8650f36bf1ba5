-- ===== src/Agent/Checkpoint.antt =====
-- internal/agent/checkpoint_controller.go: CheckpointReconciler, and here how it writes its results.
-- retry.RetryOnConflict with DefaultRetry makes five attempts.
pub mod Clear
pub mod Parts
pub mod Dump
pub mod Cleared
pub mod Guard
use pod_snapshotter.Base.{
  ℕ, suc, zero, ◌-◌, ◌%◌, ◌^◌, Bool, true, false, not, ◌&&◌, ◌||◌, Option, none, some, List, [],
  ◌∷◌, ◌++◌, map, length, ltb, ◌==◌, if◌then◌else◌, is_empty,
}
use pod_snapshotter.Base.Bytes.{Bytes, codes, eqb, has_prefix}
use pod_snapshotter.Base.Int.{positive_or}
use pod_snapshotter.Base.Result.{Result, ok, err}
use pod_snapshotter.Go.Path.{join_path}
use pod_snapshotter.Artifact.Uri.{
  Uri, parse, to_string, format, host_path, check_local_root, scheme_file,
}
use pod_snapshotter.Artifact.Manifest.{Manifest, ManifestFile, decode_manifest}
use pod_snapshotter.Artifact.Publish.{
  Action, os_message, or_fail, and_then, manifest_path, describe_file,
}
use pod_snapshotter.Artifact.Publish.Dir.{
  CheckpointMeta, PublishDirOptions, publish_dir, write_whole,
}
use pod_snapshotter.Api.Common.{
  Message, fixed, format1, format2, format3, no_message, nested, uri_error, ApiError, not_found,
  conflict, unavailable,
}
use pod_snapshotter.Api.Snapshot.{
  PodSnapshot, SnapshotPhase, checkpointing, completed, failed, ArtifactStatus, checkpointer_agent,
}
use pod_snapshotter.Controller.Env.{Outcome, done, requeue_after, returned_error, failed_with}
use pod_snapshotter.Controller.Snapshot.{condition, with_message, with_phase, with_status}
use pod_snapshotter.Controller.Snapshot.Checkpointing.{is_checkpointing}
use pod_snapshotter.Os.{
  Prog, ret, ask, ◌>>=◌, or_return, or_else, OsError, Sandbox, CheckpointOpts, mkdir_all, read_file,
  remove_all, resolve, overlay_upper_dir, capture_shm, capture_rootfs, dump, get, update, now,
}
use pod_snapshotter.Agent.Config.{AgentConfig, ignore_not_found}
use pod_snapshotter.Agent.Upload.{quiesce_info, shm_diff_name}

-- CheckpointReconciler.owns
unfoldable pub has_location : Option ArtifactStatus → Bool
has_location none = false
has_location (some a) = not (eqb a.uri [])

unfoldable pub owns : AgentConfig → PodSnapshot → Bool
owns cfg snap =
    eqb snap.status.node_name cfg.node_name
    && is_checkpointing snap.status.phase
    && eqb snap.spec.checkpointer checkpointer_agent
    && has_location snap.status.artifact

-- One attempt of writeStatus: the object is read, changed and sent. A missing object is no error.
unfoldable pub attempt :
    (ℕ → PodSnapshot → PodSnapshot) → Result ApiError PodSnapshot → Prog (Option ApiError)
attempt mutate (err not_found) = ret none
attempt mutate (err e) = ret (some e)
attempt mutate (ok cur) = do t ← ask now; ask (update (mutate t cur))

abbrev pub is_conflict : Option ApiError → Bool
is_conflict (some conflict) = true
is_conflict _ = false

-- retry.RetryOnConflict: an attempt that ends in a conflict is made again, up to `tries` in all.
unfoldable pub retry_on_conflict : ℕ → (ℕ → PodSnapshot → PodSnapshot) → Prog (Option ApiError)
retry_on_conflict zero mutate = ret (some conflict)
retry_on_conflict (suc tries) mutate =
    let again = retry_on_conflict tries mutate in
    ask get >>= λ read. attempt mutate read >>= λ e. if is_conflict e then again else ret e

abbrev pub default_retry : ℕ
default_retry = 5

-- writeStatus
unfoldable pub write_status : (ℕ → PodSnapshot → PodSnapshot) → Prog (Option ApiError)
write_status mutate = retry_on_conflict default_retry mutate

abbrev pub or_error : Option ApiError → Outcome → Outcome
or_error none outcome = outcome
or_error (some e) outcome = failed_with e

-- fail
unfoldable pub failed_dump : Message → ℕ → PodSnapshot → PodSnapshot
failed_dump m t cur = condition "Ready" false "Failed" m (
    condition "CheckpointCreated" false "CheckpointFailed" m
      (with_message m (with_phase failed cur)))

unfoldable pub fail : Message → Prog Outcome
fail m = write_status (failed_dump m) >>= λ e. ret (or_error e done)

-- retry
unfoldable pub retry : Message → Prog Outcome
retry m = write_status (λ t cur. with_message m cur) >>= λ e. ret (or_error e (requeue_after 5))

abbrev pub artifact_of : Uri → Option ArtifactStatus → ArtifactStatus
artifact_of uri (some a) = a
artifact_of uri none = record {
  uri = to_string uri;
  format = [];
  size_bytes = 0;
  sha256 = [];
  file_count = 0;
  created_at = 0;
}

-- What complete stores.
unfoldable pub completed_dump : Uri → Bytes → Manifest → ℕ → PodSnapshot → PodSnapshot
completed_dump uri image_dir m t cur = condition "Ready" true "Completed" no_message (
    condition "ArtifactUploaded" true "Published" (format1 "%s" (to_string uri)) (
      condition "CheckpointCreated" true "CheckpointCreated" (format1 "%s" image_dir) (
        with_status cur (record cur.status {
          artifact = some (record (artifact_of uri cur.status.artifact) {
            format = format uri;
            size_bytes = m.total_bytes;
            file_count = length m.files % 2 ^ 32;
            created_at = t;
          });
          phase = completed;
          message = no_message;
          completed_at = some t;
        }))))

-- complete, and the return of the error.
unfoldable pub complete : Uri → Bytes → Manifest → Prog Outcome
complete uri image_dir m =
    write_status (completed_dump uri image_dir m) >>= λ e. ret (or_error e done)

-- The UID and the annotations of the snapshot.
pub record ObjectMeta : Type 0 where
  pub uid : Bytes
  pub annotations : List (Bytes × Bytes)
