-- ===== src/Controller/Restore/Pending.antt =====
-- reconcilePending and checkNodeCompatibility of podrestore_controller.go.
use pod_snapshotter.Base.{true, false, not, ◌&&◌, Option, none, some, [], if◌then◌else◌}
use pod_snapshotter.Base.Bytes.{Bytes, codes, eqb}
use pod_snapshotter.Base.Result.{Result, ok, err, ◌>>=◌, ◌>>◌}
use pod_snapshotter.Artifact.Uri.{Uri, parse, to_string, scheme_file}
use pod_snapshotter.Api.Common.{ApiError, Message, fixed, format1, format2}
use pod_snapshotter.Api.Snapshot.{PodSnapshot, ArtifactStatus}
use pod_snapshotter.Api.Compat.{CompatibilityKey, mismatch, parse_compatibility}
use pod_snapshotter.Api.Restore.{PodRestore, prewarming, preparing}
use pod_snapshotter.Api.Build.{SnapshotBuild, build_phase_text}
use pod_snapshotter.Controller.Env.{done, requeue_after, failed_with}
use pod_snapshotter.Controller.Steps.{finish}
use pod_snapshotter.Controller.Placeholder.{target_container}
use pod_snapshotter.Controller.Snapshot.Pending.{is_not_found, text_of}
use pod_snapshotter.Controller.Restore.{
  RestoreEnv, State, Run, write, fail, condition, with_status, with_message, with_phase,
  bool_or_true, snapshot_phase_text,
}

-- The artifact of a completed build or snapshot.
unfoldable pub completed_build : SnapshotBuild → Option ArtifactStatus
completed_build build =
    if not (eqb (build_phase_text build.status.phase) (codes "Completed"))
    then none
    else build.status.artifact

unfoldable pub completed_snapshot : PodSnapshot → Option ArtifactStatus
completed_snapshot snap =
    if not (eqb (snapshot_phase_text snap.status.phase) (codes "Completed"))
    then none
    else snap.status.artifact

-- The last step: to PreWarming on a pinned node, else to Preparing.
unfoldable pub prepare : PodRestore → PodRestore
prepare restore =
    if not (eqb restore.spec.node_name []) && bool_or_true restore.spec.prewarm
    then with_message (fixed "pre-warming artifact on target node") (
        with_phase prewarming
          (with_status restore (record restore.status { target_node = restore.spec.node_name })))
    else with_phase preparing restore

unfoldable pub with_artifact : PodRestore → Uri → PodRestore
with_artifact restore uri =
    let found = condition "ArtifactAvailable" true "Found" (format1 "%s" (to_string uri)) restore in
    with_status found (record found.status { artifact_uri = to_string uri })

-- Why a node cannot take the restore, or none.
unfoldable pub unfit : CompatibilityKey → Option Bytes → Option Bytes
unfit want none = none
unfit want (some raw) = mismatch want (parse_compatibility raw)

module _ (env : RestoreEnv) where
  unfoldable pub or_fail {ℓ} : {A : Type ℓ} → PodRestore → State → Result Message A → Result Run A
  or_fail restore s (ok a) = ok a
  or_fail restore s (err m) = err (fail env restore m s)

  -- `if err := r.Get(...); err != nil`
  unfoldable pub or_missing {ℓ} :
      {A : Type ℓ} → PodRestore → State → Message → Result ApiError A → Result Run A
  or_missing restore s m (ok a) = ok a
  or_missing restore s m (err e) =
      if is_not_found e then err (fail env restore m s) else err (s, failed_with e)

  -- Not completed yet: say so, and look again in ten seconds.
  unfoldable pub or_wait {ℓ} : {A : Type ℓ} → PodRestore → State → Message → Option A → Result Run A
  or_wait restore s m (some a) = ok a
  or_wait restore s m none = err (write env (with_message m restore) s (requeue_after 10))

  -- The case of buildRef: the URI, and the build's tuple carried onto the restore.
  unfoldable pub from_build : PodRestore → State → Bytes → Result Run (PodRestore × Bytes)
  from_build restore s name = do
    build ← or_missing restore s (format1 "buildRef %q not found" name) (env.build name)
    artifact ←
        or_wait restore s
          (format2 "waiting for SnapshotBuild %s to complete (phase %s)" build.name
            (build_phase_text build.status.phase))
          (completed_build build)
    ok (
      with_status restore (record restore.status { compatibility = build.status.compatibility }),
      artifact.uri,
    )

  -- The case of snapshotRef.
  unfoldable pub from_snapshot : PodRestore → State → Bytes → Result Run (PodRestore × Bytes)
  from_snapshot restore s name = do
    snap ← or_missing restore s (format1 "snapshotRef %q not found" name) (env.snapshot name)
    artifact ←
        or_wait restore s
          (format2 "waiting for PodSnapshot %s to complete (phase %s)" snap.name
            (snapshot_phase_text snap.status.phase))
          (completed_snapshot snap)
    ok (restore, artifact.uri)

  unfoldable pub from_refs :
      Option Bytes → Option Bytes → PodRestore → State → Result Run (PodRestore × Bytes)
  from_refs (some build) snapshot restore s = from_build restore s build
  from_refs none (some snapshot) restore s = from_snapshot restore s snapshot
  from_refs none none restore s = err (
      fail env restore
        (fixed "one of spec.artifactURI, spec.snapshotRef or spec.buildRef is required") s)

  -- The switch over the sources of the URI.
  unfoldable pub source_of : PodRestore → State → Result Run (PodRestore × Bytes)
  source_of restore s =
      if not (eqb restore.spec.artifact_uri [])
      then ok (restore, restore.spec.artifact_uri)
      else from_refs restore.spec.build_ref restore.spec.snapshot_ref restore s

  -- What Stat answers, where it is asked: a file artifact is checked by the agent.
  unfoldable pub stat_error : Uri → Option Bytes
  stat_error uri =
      if env.has_stat && not (eqb uri.scheme scheme_file) then env.artifact_error uri else none

  unfoldable pub or_unavailable : PodRestore → State → Option Bytes → Result Run (Unit {0})
  or_unavailable restore s none = ok tt
  or_unavailable restore s (some text) = err (
      write env
        (with_message (format1 "artifact not available yet: %v" text)
          (condition "ArtifactAvailable" false "NotFound" (format1 "%s" text) restore))
        s (requeue_after 15))

  unfoldable pub or_unfit : PodRestore → State → Bytes → Option Bytes → Result Run (Unit {0})
  or_unfit restore s node_name none = ok tt
  or_unfit restore s node_name (some why) =
      err (fail env restore (format2 "node %s cannot restore this artifact: %s" node_name why) s)

  unfoldable pub tuple_of : State → Result ApiError (Option Bytes) → Result Run (Option Bytes)
  tuple_of s (ok raw) = ok raw
  tuple_of s (err e) = err (s, failed_with e)

  unfoldable pub check_tuple :
      Option CompatibilityKey → PodRestore → State → Bytes → Result Run (Unit {0})
  check_tuple none restore s node_name = ok tt
  check_tuple (some want) restore s node_name = if eqb node_name [] then ok tt else do
    raw ← tuple_of s (env.node_tuple node_name)
    or_unfit restore s node_name (unfit want raw)

  -- checkNodeCompatibility: an error is `handled`, with what the run returns.
  unfoldable pub check_node_compatibility : PodRestore → State → Bytes → Result Run (Unit {0})
  check_node_compatibility restore s node_name =
      check_tuple restore.status.compatibility restore s node_name

  -- reconcilePending
  unfoldable pub reconcile_pending : PodRestore → State → Run
  reconcile_pending restore s = finish (do
    source ← source_of restore s
    uri ← or_fail source.0 s (text_of (parse source.1))
    _ ← or_fail source.0 s (target_container source.0.spec)
    or_unavailable source.0 s (stat_error uri)
    let ready = with_artifact source.0 uri
    if eqb ready.spec.node_name []
        then ok tt
        else check_node_compatibility ready s ready.spec.node_name
    ok (write env (prepare ready) s done))
