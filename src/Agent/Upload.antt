-- ===== src/Agent/Upload.antt =====
-- internal/agent/upload_controller.go: UploadReconciler. restore.CaptureShm is a call.
use pod_snapshotter.Base.{
  ℕ, ◌%◌, ◌^◌, true, false, not, ◌&&◌, Option, none, some, List, [], ◌∷◌, length, if◌then◌else◌,
}
use pod_snapshotter.Base.Bytes.{Bytes, codes, eqb}
use pod_snapshotter.Base.Result.{ok, err, Result}
use pod_snapshotter.Go.Path.{join_path, base, dir_of}
use pod_snapshotter.Artifact.Uri.{
  Uri, parse, to_string, format, host_path, fuse_path, commit_path, check_local_root, scheme_file,
  scheme_fuse,
}
use pod_snapshotter.Artifact.Manifest.{Manifest, ManifestFile, QuiesceInfo}
use pod_snapshotter.Artifact.Publish.{
  Action, os_message, or_fail, and_then, part_of, rename_publish, describe_file,
}
use pod_snapshotter.Artifact.Publish.Expand.{Archive, expand_tar_to_dir}
use pod_snapshotter.Api.Common.{
  ApiError, Message, fixed, format1, format2, no_message, nested, uri_error,
}
use pod_snapshotter.Api.Snapshot.{
  PodSnapshot, SnapshotPhase, checkpointed, uploading, completed, failed, ArtifactStatus,
  QuiesceStatus,
}
use pod_snapshotter.Controller.Env.{Outcome, done, requeue_after, returned_error, panicked}
use pod_snapshotter.Controller.Snapshot.{condition, with_message, with_phase, with_status}
use pod_snapshotter.Os.{
  Prog, ret, ask, ◌>>=◌, or_return, or_else, unless_missing, OsError, not_exist, os_error, FileInfo,
  mkdir_all, read_file, remove, create, write, sync, close, stat, capture_shm, head, get, update,
  now,
}
use pod_snapshotter.Agent.Config.{AgentConfig, ignore_not_found, update_then}

-- copyAtomic, where an error is returned once the temporary file is open.
abbrev pub drop_part {ℓ} : {A : Type ℓ} → Bytes → Message → Action A
drop_part tmp m = do _ ← ask (close tmp); _ ← ask (remove tmp); ret (err m)

-- copyAtomic once the temporary file is open.
unfoldable pub fill_copy : (Bytes → Bytes) → Bytes → Bytes → Bytes → Action (Bytes × ℕ)
fill_copy sha tmp dst body = do
  written ← ask (write tmp body)
  or_return written (λ e. drop_part tmp (os_message e))
      (do
        synced ← ask (sync tmp)
        or_return synced (λ e. drop_part tmp (os_message e))
            (do
              closed ← ask (close tmp)
              or_return closed (λ e. drop_part tmp (os_message e))
                  (do
                    published ← rename_publish tmp dst
                    or_else published (λ m. drop_part tmp m)
                        (λ _. ret (ok (sha body, length body))))))

-- copyAtomic
unfoldable pub copy_atomic : (Bytes → Bytes) → Bytes → Bytes → Action (Bytes × ℕ)
copy_atomic sha src dst = do
  made ← ask (mkdir_all (dir_of dst))
  or_fail made (do
    opened ← ask (read_file src)
    or_else opened (λ e. ret (err (os_message e)))
        (λ body. do
          removed ← ask (remove (part_of dst))
          or_fail (unless_missing removed) (do
            created ← ask (create (part_of dst))
            or_fail created (fill_copy sha (part_of dst) dst body))))

abbrev pub shm_diff_name : Bytes
shm_diff_name = codes "shm-diff.tar"

-- captureShm
unfoldable pub captured_shm : (Bytes → Bytes) → Bytes → Bytes → Action (List ManifestFile)
captured_shm sha host_root dst = do
  r ← ask (
      capture_shm (join_path (dst ∷ codes "spec.dump" ∷ [])) host_root
        (join_path (dst ∷ shm_diff_name ∷ [])))
  or_else r (λ e. ret (err (nested "capturing /dev/shm: %w" [] [] (os_message e))))
      (λ captured.
        if not captured
        then ret (ok [])
        else and_then (describe_file sha dst shm_diff_name) (λ entry. ret (ok (entry ∷ []))))

-- fail
unfoldable pub failed_upload : PodSnapshot → Message → PodSnapshot
failed_upload snap m =
    condition "ArtifactUploaded" false "UploadFailed" m (with_message m (with_phase failed snap))

unfoldable pub fail : PodSnapshot → Message → Prog Outcome
fail snap m = update_then (failed_upload snap m) done

-- retryUpload
abbrev pub retried : PodSnapshot → Message → PodSnapshot
retried snap cause = with_message (nested "upload failed, will retry: %v" [] [] cause) snap

unfoldable pub retry_upload : PodSnapshot → Message → Prog Outcome
retry_upload snap cause = update_then (retried snap cause) (requeue_after 15)

-- What was put at the destination: the digest of a tar, the size, the number of files.
pub record Uploaded : Type 0 where
  pub sum : Bytes
  pub size : ℕ
  pub file_count : ℕ

-- What upload stores in the end.
unfoldable pub uploaded : ℕ → ArtifactStatus → Uri → FileInfo → Uploaded → PodSnapshot → PodSnapshot
uploaded t a uri info up snap = condition "Ready" true "Completed" no_message (
    condition "ArtifactUploaded" true "Uploaded" (format1 "%s" (to_string uri)) (
      with_status snap (record snap.status {
        artifact = some (record a {
          format = format uri;
          size_bytes = up.size;
          sha256 = up.sum;
          file_count = up.file_count;
          created_at = info.modified_at;
        });
        phase = completed;
        message = no_message;
        completed_at = some t;
      })))

abbrev pub quiesce_info : Option QuiesceStatus → Option QuiesceInfo
quiesce_info none = none
quiesce_info (some q) = some (record { mode = q.mode; dir = q.dir })

-- `src`: the kubelet's path, or the file of its name in the mount.
unfoldable pub upload_source : AgentConfig → PodSnapshot → Bytes
upload_source cfg snap =
    if eqb cfg.checkpoints_host_path []
    then snap.status.kubelet_checkpoint_path
    else join_path (cfg.checkpoints_host_path ∷ base snap.status.kubelet_checkpoint_path ∷ [])

module _ (cfg : AgentConfig) (sha : Bytes → Bytes) (encode : Manifest → Bytes) (archive : Archive)
    (snap : PodSnapshot) (a : ArtifactStatus) (uri : Uri) where
  -- upload, once the artifact is at its destination. Neither the check through the API of
  -- fuse-client nor the removal of the tar can make it fail.
  unfoldable pub finish_upload : FileInfo → Uploaded → Prog Outcome
  finish_upload info up = do
    _ ←
        if eqb uri.scheme scheme_fuse && cfg.verify_fuse
        then ask (head (fuse_path (commit_path uri)))
        else ret none
    _ ← ask (remove (upload_source cfg snap))
    t ← ask now
    update_then (uploaded t a uri info up snap) done

  -- The branch of a directory artifact.
  unfoldable pub upload_dir : FileInfo → Prog Outcome
  upload_dir info = do
    r ←
        expand_tar_to_dir sha encode archive (upload_source cfg snap) (host_path uri cfg.fuse_mount)
          (quiesce_info snap.status.quiesce) (some (captured_shm sha cfg.host_root))
    or_else r (retry_upload snap) (λ m.
        finish_upload info
          (record { sum = []; size = m.total_bytes; file_count = length m.files % 2 ^ 32 }))

  -- The branch of a tar.
  unfoldable pub upload_tar : FileInfo → Prog Outcome
  upload_tar info = do
    r ← copy_atomic sha (upload_source cfg snap) (host_path uri cfg.fuse_mount)
    or_else r (retry_upload snap)
        (λ copied. finish_upload info (record { sum = copied.0; size = copied.1; file_count = 0 }))

  missing_tar : Message
  missing_tar =
      format2 "kubelet checkpoint tar %s not found on node %s (was it garbage-collected?)"
        (upload_source cfg snap) cfg.node_name

  unfoldable pub no_source : OsError → Prog Outcome
  unfolding missing_tar
  no_source not_exist = fail snap missing_tar
  no_source (os_error t) = ret (returned_error (os_message (os_error t)))

  -- upload from os.Stat of the source on.
  unfoldable pub upload_stat : Prog Outcome
  unfolding no_source
  upload_stat = do
    found ← ask (stat (upload_source cfg snap))
    or_else found no_source (λ info. if uri.dir then upload_dir info else upload_tar info)

  abbrev pub local_parent : Bytes
  local_parent =
      if uri.dir then host_path uri cfg.fuse_mount else dir_of (host_path uri cfg.fuse_mount)

  cannot_create : OsError → Message
  cannot_create e =
      nested "creating the node-local artifact directory %s: %v" local_parent [] (os_message e)

  -- upload once the artifact's location is accepted.
  unfoldable pub upload_to : Prog Outcome
  unfolding cannot_create
  upload_to = if not (eqb uri.scheme scheme_file) then upload_stat else (do
    made ← ask (mkdir_all local_parent)
    or_return made (λ e. fail snap (cannot_create e)) upload_stat)

-- upload, where an artifact is recorded; it follows a nil pointer where none is.
unfoldable pub upload_artifact :
    Option ArtifactStatus
    → AgentConfig
    → (Bytes → Bytes)
    → (Manifest → Bytes)
    → Archive
    → PodSnapshot
    → Prog Outcome
upload_artifact none cfg sha encode archive snap = ret panicked
upload_artifact (some a) cfg sha encode archive snap =
    or_else (parse a.uri) (λ e. fail snap (uri_error e))
      (λ uri.
        or_else (check_local_root uri cfg.local_artifact_root) (λ e. fail snap (uri_error e))
          (λ _. upload_to cfg sha encode archive snap a uri))

-- upload
unfoldable pub upload :
    AgentConfig → (Bytes → Bytes) → (Manifest → Bytes) → Archive → PodSnapshot → Prog Outcome
upload cfg sha encode archive snap =
    upload_artifact snap.status.artifact cfg sha encode archive snap

-- The claim of an upload.
unfoldable pub claimed : PodSnapshot → PodSnapshot
claimed snap =
    with_message (fixed "agent uploading checkpoint tar to artifact store")
      (with_phase uploading snap)

-- Requeue is written as a wait of no time.
unfoldable pub claim : PodSnapshot → Prog Outcome
claim snap = do
  e ← ask (update (claimed snap))
  or_return e (λ x. ret (ignore_not_found x)) (ret (requeue_after 0))

-- The switch of Reconcile.
unfoldable pub by_phase :
    SnapshotPhase
    → AgentConfig
    → (Bytes → Bytes)
    → (Manifest → Bytes)
    → Archive
    → PodSnapshot
    → Prog Outcome
by_phase checkpointed cfg sha encode archive snap = claim snap
by_phase uploading cfg sha encode archive snap = upload cfg sha encode archive snap
by_phase _ cfg sha encode archive snap = ret done

-- Reconcile once the object is read.
unfoldable pub reconcile_read :
    AgentConfig
    → (Bytes → Bytes)
    → (Manifest → Bytes)
    → Archive
    → Result ApiError PodSnapshot
    → Prog Outcome
reconcile_read cfg sha encode archive (err e) = ret (ignore_not_found e)
reconcile_read cfg sha encode archive (ok snap) =
    if not (eqb snap.status.node_name cfg.node_name)
    then ret done
    else by_phase snap.status.phase cfg sha encode archive snap

-- Reconcile
unfoldable pub reconcile :
    AgentConfig → (Bytes → Bytes) → (Manifest → Bytes) → Archive → Prog Outcome
reconcile cfg sha encode archive = ask get >>= reconcile_read cfg sha encode archive
