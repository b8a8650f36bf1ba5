-- ===== src/Agent/Checkpoint/Dump.antt =====
-- checkpoint and Reconcile of internal/agent/checkpoint_controller.go. The arguments are the functions that the program calls: see `Calls`.
use pod_snapshotter.Base.{ℕ, Bool, not, Option, none, some, [], ◌∷◌, if◌then◌else◌}
use pod_snapshotter.Base.Bytes.{Bytes, codes, eqb}
use pod_snapshotter.Base.Int.{positive_or}
use pod_snapshotter.Base.Result.{Result, ok, err}
use pod_snapshotter.Go.Path.{join_path}
use pod_snapshotter.Artifact.Uri.{Uri, parse, to_string, host_path, check_local_root, scheme_file}
use pod_snapshotter.Artifact.Manifest.{Manifest, decode_manifest}
use pod_snapshotter.Artifact.Publish.{os_message, manifest_path}
use pod_snapshotter.Artifact.Publish.Dir.{CheckpointMeta, publish_dir}
use pod_snapshotter.Api.Common.{ApiError, Message, format2, nested, uri_error}
use pod_snapshotter.Api.Snapshot.{PodSnapshot, ArtifactStatus, checkpointer_agent}
use pod_snapshotter.Controller.Env.{Outcome, done, returned_error, panicked, requeue_after}
use pod_snapshotter.Os.{
  Prog, ret, ask, ◌>>=◌, or_return, or_else, OsError, Sandbox, CheckpointOpts, mkdir_all, read_file,
  remove_all, resolve, overlay_upper_dir, dump, get, now,
}
use pod_snapshotter.Agent.Config.{AgentConfig, ignore_not_found}
use pod_snapshotter.Agent.Upload.{quiesce_info}
use pod_snapshotter.Agent.Checkpoint.{ObjectMeta, owns, fail, retry, complete}
use pod_snapshotter.Agent.Checkpoint.Clear.{clear_artifact_dir, max_depth}
use pod_snapshotter.Agent.Checkpoint.Parts.{
  contribute, checkpoint_meta, read_task_spec, copy_into, criu_dump_tuning,
}

-- The functions of the standard library that the dump calls: SHA-256 in hexadecimal, the encoder
-- and the decoder of manifests, json.Marshal, json.Valid, and the order of a Go map's range.
pub record Calls : Type 0 where
  pub sha : Bytes → Bytes
  pub encode : Manifest → Bytes
  pub decode : Bytes → Option Manifest
  pub encode_meta : CheckpointMeta → Result Message Bytes
  pub json_valid : Bytes → Bool
  pub spec_first : Bool

-- ReadManifestDir: its errors are all the same to the callers here.
unfoldable pub read_manifest_dir : (Bytes → Option Manifest) → Bytes → Prog (Option Manifest)
read_manifest_dir decode dir = do
  r ← ask (read_file (manifest_path dir))
  or_else r (λ e. ret none)
      (λ body. or_else (decode_manifest decode body) (λ e. ret none) (λ m. ret (some m)))

module _ (cfg : AgentConfig) (calls : Calls) (about : ObjectMeta) (snap : PodSnapshot)
    (uri : Uri) where
  abbrev pub dst_dir : Bytes
  dst_dir = host_path uri cfg.fuse_mount

  abbrev pub image_dir : Bytes
  image_dir = join_path (dst_dir ∷ codes "checkpoint" ∷ [])

  abbrev pub work_dir : Bytes
  work_dir = join_path (cfg.work_root ∷ codes "checkpoints" ∷ about.uid ∷ [])

  -- checkpoint after the dump: dump.log is copied, the artifact published and the result stored.
  unfoldable pub publish : Bytes → Bytes → Sandbox → ℕ → Prog Outcome
  publish spec upper sandbox started = do
    r ← publish_dir calls.sha calls.encode calls.encode_meta calls.spec_first (record {
      dir = dst_dir;
      meta = some (checkpoint_meta snap sandbox.keeper_container_id started);
      spec = spec;
      quiesce = quiesce_info snap.status.quiesce;
      contribute = some (contribute calls.sha cfg.host_root upper);
      digest = cfg.digest;
    })
    or_else r (λ m. fail (nested "publishing the artifact: %v" [] [] m))
        (λ m. do _ ← ask (remove_all work_dir); complete uri image_dir m)

  unfoldable pub after_dump : Bytes → Bytes → Sandbox → ℕ → Prog Outcome
  after_dump spec upper sandbox started = do
    r ←
        copy_into (join_path (work_dir ∷ codes "dump.log" ∷ []))
          (join_path (dst_dir ∷ codes "dump.log" ∷ []))
    or_else r (λ m. fail (nested "copying dump.log into the artifact: %v" [] [] m))
        (λ _. publish spec upper sandbox started)

  abbrev pub dump_opts : Sandbox → CheckpointOpts
  dump_opts sandbox = record {
    container_id = sandbox.keeper_container_id;
    image_path = image_dir;
    work_path = work_dir;
    env = criu_dump_tuning [] about.annotations;
    timeout = positive_or 120 snap.spec.timeout_seconds;
  }

  -- The dump itself, into the directory that was cleared.
  unfoldable pub run_dump : Bytes → Bytes → Sandbox → Prog Outcome
  run_dump spec upper sandbox = do
    started ← ask now
    r ← ask (dump (dump_opts sandbox))
    or_return r (λ e. fail (nested "runc checkpoint: %v" [] [] (os_message e)))
        (after_dump spec upper sandbox started)

  -- checkpoint from clearArtifactDir on.
  unfoldable pub clear_and_dump : Bytes → Bytes → Sandbox → Prog Outcome
  clear_and_dump spec upper sandbox = do
    cleared ← clear_artifact_dir max_depth dst_dir
    or_else cleared
        (λ m. fail (nested "clearing the artifact directory before the dump: %v" [] [] m))
        (λ _. do
          r ← ask (remove_all work_dir)
          or_return r (λ e. ret (returned_error (os_message e))) (run_dump spec upper sandbox))

  abbrev pub upper_of : Result OsError Bytes → Bytes
  upper_of (ok upper) = upper
  upper_of (err e) = []

  -- checkpoint once the container is resolved.
  unfoldable pub dump_sandbox : Sandbox → Prog Outcome
  dump_sandbox sandbox = do
    r ← read_task_spec calls.json_valid sandbox.keeper_container_id
    or_else r (λ m. fail (nested "reading the container's OCI spec: %v" [] [] m))
        (λ spec. do
          upper ← ask (overlay_upper_dir sandbox.keeper_pid)
          clear_and_dump spec (upper_of upper) sandbox)

  -- What is done where the artifact is committed already, and where it is not.
  unfoldable pub if_committed : Option Manifest → Prog Outcome
  if_committed (some m) = complete uri image_dir m
  if_committed none = do
    r ← ask (resolve snap.status.pod_uid snap.status.container)
    or_else r (λ e. retry (nested "resolving container to checkpoint: %v" [] [] (os_message e)))
        dump_sandbox

  -- checkpoint from the look for a committed artifact on.
  unfoldable pub unless_committed : Prog Outcome
  unless_committed = read_manifest_dir calls.decode dst_dir >>= if_committed

  -- checkpoint once the location is accepted.
  unfoldable pub checkpoint_to : Prog Outcome
  checkpoint_to = if not (eqb uri.scheme scheme_file) then unless_committed else (do
    made ← ask (mkdir_all dst_dir)
    or_return made
        (λ e.
          fail
            (nested "creating the node-local artifact directory %s: %v" dst_dir [] (os_message e)))
        unless_committed)

-- checkpoint, the artifact's location being parsed: it is a directory under the local root.
unfoldable pub checkpoint_uri : AgentConfig → Calls → ObjectMeta → PodSnapshot → Uri → Prog Outcome
checkpoint_uri cfg calls about snap uri =
    if not uri.dir
    then fail (
        format2 "checkpointer %q needs a directory artifact; %s is a tar" checkpointer_agent
          (to_string uri))
    else or_else (check_local_root uri cfg.local_artifact_root) (λ e. fail (uri_error e))
        (λ _. checkpoint_to cfg calls about snap uri)

unfoldable pub checkpoint_artifact :
    Option ArtifactStatus → AgentConfig → Calls → ObjectMeta → PodSnapshot → Prog Outcome
checkpoint_artifact none cfg calls about snap = ret panicked
checkpoint_artifact (some a) cfg calls about snap =
    or_else (parse a.uri) (λ e. fail (uri_error e)) (checkpoint_uri cfg calls about snap)

-- checkpoint
unfoldable pub checkpoint : AgentConfig → Calls → ObjectMeta → PodSnapshot → Prog Outcome
checkpoint cfg calls about snap = checkpoint_artifact snap.status.artifact cfg calls about snap

-- Reconcile once the object is read: `running` is whether the in-flight map holds its key.
unfoldable pub reconcile_read :
    AgentConfig → Calls → ObjectMeta → Bool → Result ApiError PodSnapshot → Prog Outcome
reconcile_read cfg calls about running (err e) = ret (ignore_not_found e)
reconcile_read cfg calls about running (ok snap) =
    if not (owns cfg snap)
    then ret done
    else if running
    then ret (requeue_after 10)
    else checkpoint cfg calls about snap

-- Reconcile
unfoldable pub reconcile : AgentConfig → Calls → ObjectMeta → Bool → Prog Outcome
reconcile cfg calls about running = ask get >>= reconcile_read cfg calls about running
