-- ===== src/Controller/Build/Handlers.antt =====
-- The handlers of the phases of a SnapshotBuild, in snapshotbuild_controller.go.
use pod_snapshotter.Base.{
  Bool, true, false, not, ◌&&◌, ◌||◌, Option, none, some, List, [], ◌∷◌, if◌then◌else◌,
}
use pod_snapshotter.Api.Build.{SnapshotBuild, building, snapshotting, completed}
use pod_snapshotter.Api.Compat.{CompatibilityKey, no_key, parse_compatibility}
use pod_snapshotter.Api.Snapshot.{PodSnapshot, SnapshotPhase, ArtifactStatus}
use pod_snapshotter.Artifact.Uri.{Uri, UriError, parse, default_build_uri}
use pod_snapshotter.Base.Bytes.{Bytes, eqb, codes}
use pod_snapshotter.Controller.Build.{
  BuildEnv, Config, with_status, State, build_snapshot_name, condition, NewSnapshot, Run,
  build_pod_name, write, fail_build, with_message, build_format,
}
use pod_snapshotter.Controller.Env.{LivePod, failed_with, panicked, requeue_after, done}
use pod_snapshotter.Api.Common.{
  ApiError, Message, PodPhase, fixed, format1, nested, no_message, format2, pod_running,
  pod_pending, pod_unknown,
}
use pod_snapshotter.Api.Restore.{Container}
use pod_snapshotter.Base.Result.{Result, ok, err, ◌>>=◌, ◌>>◌}
use pod_snapshotter.Controller.Steps.{finish}
use pod_snapshotter.Controller.Builder.{build_container, build_builder_pod}
use pod_snapshotter.Controller.Placeholder.{NewPod}
use pod_snapshotter.Controller.Snapshot.Pending.{is_not_found, new_artifact, phase_text, text_of}
use pod_snapshotter.Controller.Restore.{snapshot_phase_text}

-- The switch over the snapshot's phase in reconcileSnapshotting.
pub data Progress : Type 0 where
  went_wrong going_on finished : Progress

unfoldable pub progress_of : SnapshotPhase → Progress
progress_of SnapshotPhase.failed = went_wrong
progress_of SnapshotPhase.completed = finished
progress_of _ = going_on

-- A message put into another one, as far as it is kept: its own format and arguments.
unfoldable pub failure_of : PodSnapshot → Message
failure_of snap = nested "PodSnapshot %s failed: %s" snap.name [] snap.status.message

abbrev pub or_blank : Option Bytes → Bytes
or_blank none = []
or_blank (some t) = t

abbrev pub or_observed : Bytes → Bytes → Bytes
or_observed pinned observed = if eqb pinned [] then observed else pinned

-- What the node reports, under what is pinned.
unfoldable pub with_observed : CompatibilityKey → Result ApiError (Option Bytes) → CompatibilityKey
with_observed key (err e) = key
with_observed key (ok raw) =
    let observed = parse_compatibility (or_blank raw) in
    record key {
      gpu_model = or_observed key.gpu_model observed.gpu_model;
      driver_version = or_observed key.driver_version observed.driver_version;
      criu_version = or_observed key.criu_version observed.criu_version;
    }

-- The image of the container of that name, the first one.
unfoldable pub image_of : Bytes → List (Bytes × Bytes) → Bytes → Bytes
image_of name [] digest = digest
image_of name ((n, image) ∷ rest) digest =
    let later = image_of name rest digest in if eqb n name then image else later

unfoldable pub with_image : SnapshotBuild → LivePod → CompatibilityKey → CompatibilityKey
with_image build pod key =
    if not (eqb key.image_digest []) then key else elim (build_container build.spec) [
      | err e ↦ key
      | ok c ↦ record key { image_digest = image_of c.name pod.images key.image_digest }
    ]

abbrev pub or_no_key : Option CompatibilityKey → CompatibilityKey
or_no_key none = no_key
or_no_key (some key) = key

-- observeCompatibility
unfoldable pub observe_compatibility : BuildEnv → SnapshotBuild → LivePod → CompatibilityKey
observe_compatibility env build pod =
    with_image build pod
      (with_observed (or_no_key build.spec.compatibility) (env.node_tuple pod.node_name))

-- metav1.IsControlledBy
unfoldable pub is_controlled_by : LivePod → SnapshotBuild → Bool
is_controlled_by pod build = elim pod.controller [ none ↦ false | some uid ↦ eqb uid build.uid ]

-- What reconcileBuildPending stores at its end.
unfoldable pub begun : SnapshotBuild → Uri → SnapshotBuild
begun build uri = condition "BuildPodReady" false "Creating" (format1 "%s" (build_pod_name build)) (
    with_status build (record build.status {
      build_pod_name = build_pod_name build;
      artifact = some (new_artifact uri);
      phase = building;
      message = fixed "waiting for the build pod to initialize the engine";
    }))

-- What reconcileBuilding records of the running pod.
unfoldable pub observed : BuildEnv → SnapshotBuild → LivePod → SnapshotBuild
observed env build pod = condition "BuildPodReady" true "Running" (format1 "%s" pod.name) (
    with_status build (record build.status {
      node_name = pod.node_name;
      compatibility = some (observe_compatibility env build pod);
    }))

unfoldable pub new_snapshot : SnapshotBuild → LivePod → Container → ArtifactStatus → NewSnapshot
new_snapshot build pod c artifact = record {
  namespace = build.namespace;
  name = build_snapshot_name build;
  spec = record {
    pod_name = pod.name;
    container = c.name;
    artifact_uri = artifact.uri;
    artifact_format = [];
    deletion_policy = codes "Retain";
    timeout_seconds = build.spec.timeout_seconds;
    checkpointer = build.spec.checkpointer;
  };
}

unfoldable pub handed : SnapshotBuild → SnapshotBuild
handed build = with_status build (record build.status {
  snapshot_name = build_snapshot_name build;
  phase = snapshotting;
  message = fixed "checkpointing the build pod at its quiesce point";
})

unfoldable pub built : BuildEnv → SnapshotBuild → ArtifactStatus → SnapshotBuild
built env build artifact = condition "ArtifactBuilt" true "Built" (format1 "%s" artifact.uri) (
    with_status build (record build.status {
      artifact = some artifact;
      phase = completed;
      message = no_message;
      completed_at = some env.now;
    }))

unfoldable pub build_uri : Config → SnapshotBuild → Result UriError Uri
build_uri cfg build = parse (
    if eqb build.spec.artifact_uri []
    then default_build_uri cfg.artifact_root build.spec.revision (build_format build)
    else build.spec.artifact_uri)

module _ (env : BuildEnv) where
  unfoldable pub or_fail {ℓ} :
      {A : Type ℓ} → SnapshotBuild → State → Result Message A → Result Run A
  or_fail build s (ok a) = ok a
  or_fail build s (err m) = err (fail_build env build m s)

  -- `if err := r.Get(...); err != nil`
  unfoldable pub or_missing {ℓ} :
      {A : Type ℓ} → SnapshotBuild → State → Message → Result ApiError A → Result Run A
  or_missing build s m (ok a) = ok a
  or_missing build s m (err e) =
      if is_not_found e then err (fail_build env build m s) else err (s, failed_with e)

  -- r.Create of the build pod. (SetControllerReference fails only for an object that has a
  -- controller already.)
  unfoldable pub after_pod : Option ApiError → NewPod → State → Result Run State
  after_pod none pod s = ok (record s { pods = pod ∷ s.pods })
  after_pod (some e) pod s = err (s, failed_with e)

  unfoldable pub own_pod : SnapshotBuild → LivePod → State → Result Run State
  own_pod build pod s =
      if not (is_controlled_by pod build) || pod.terminating
      then err (
          write env
            (with_message (format1 "waiting for stale build pod %s to terminate" pod.name) build) s
            (requeue_after 5))
      else ok s

  unfoldable pub create_pod : SnapshotBuild → State → Result Run State
  create_pod build s = do
    pod ← or_fail build s (build_builder_pod build (build_pod_name build))
    after_pod (env.refuse_pod pod) pod s

  -- The switch over the pod: it is there and ours, or it is created now.
  unfoldable pub build_pod_there : SnapshotBuild → State → Result Run State
  build_pod_there build s = elim (env.pod (build_pod_name build)) [
    | ok pod ↦ own_pod build pod s
    | err e ↦ if is_not_found e then create_pod build s else err (s, failed_with e)
  ]

  -- reconcileBuildPending
  unfoldable pub reconcile_build_pending : Config → SnapshotBuild → State → Run
  reconcile_build_pending cfg build s = finish (do
    _ ← or_fail build s (build_container build.spec)
    uri ← or_fail build s (text_of (build_uri cfg build))
    t ← build_pod_there build s
    ok (write env (begun build uri) t done))

  -- The switch over the pod's phase in reconcileBuilding.
  unfoldable pub runs_pod : PodPhase → SnapshotBuild → LivePod → State → Result Run (Unit {0})
  runs_pod pod_running build pod s = ok tt
  runs_pod pod_pending build pod s = err (
      write env
        (with_message (format2 "build pod %s is %s" pod.name (phase_text pod_pending)) build) s
        (requeue_after 5))
  runs_pod pod_unknown build pod s = err (
      write env
        (with_message (format2 "build pod %s is %s" pod.name (phase_text pod_unknown)) build) s
        (requeue_after 5))
  runs_pod phase build pod s = err (
      fail_build env build
        (format2 "build pod %s is %s before the checkpoint; the shim must block, not exit" pod.name
          (phase_text phase))
        s)

  -- A nil artifact is followed.
  unfoldable pub or_panic : State → Option ArtifactStatus → Result Run ArtifactStatus
  or_panic s (some a) = ok a
  or_panic s none = err (s, panicked)

  unfoldable pub after_snapshot : Option ApiError → NewSnapshot → State → Result Run State
  after_snapshot none snap s = ok (record s { snapshots = snap ∷ s.snapshots })
  after_snapshot (some e) snap s = err (s, failed_with e)

  unfoldable pub create_snapshot : SnapshotBuild → LivePod → Container → State → Result Run State
  create_snapshot build pod c s = do
    artifact ← or_panic s build.status.artifact
    after_snapshot (env.refuse_snapshot (new_snapshot build pod c artifact))
        (new_snapshot build pod c artifact) s

  -- A snapshot of that name is taken as it is, or one is created now.
  unfoldable pub snapshot_there : SnapshotBuild → LivePod → Container → State → Result Run State
  snapshot_there build pod c s = elim (env.snapshot (build_snapshot_name build)) [
    | ok snap ↦ ok s
    | err e ↦ if is_not_found e then create_snapshot build pod c s else err (s, failed_with e)
  ]

  -- reconcileBuilding
  unfoldable pub reconcile_building : SnapshotBuild → State → Run
  reconcile_building build s = finish (do
    pod ←
        or_missing build s (format1 "build pod %s disappeared" build.status.build_pod_name)
          (env.pod build.status.build_pod_name)
    runs_pod pod.phase build pod s
    let seen = observed env build pod
    c ← or_fail seen s (build_container build.spec)
    t ← snapshot_there seen pod c s
    ok (write env (handed seen) t done))

  -- The switch over the snapshot's phase.
  unfoldable pub snapshot_done :
      Progress → SnapshotBuild → PodSnapshot → State → Result Run (Unit {0})
  snapshot_done finished build snap s = ok tt
  snapshot_done went_wrong build snap s = err (
      fail_build env (condition "ArtifactBuilt" false "SnapshotFailed" snap.status.message build)
        (failure_of snap) s)
  snapshot_done going_on build snap s = err (
      write env
        (with_message
          (nested "PodSnapshot %s is %s: %s" snap.name (snapshot_phase_text snap.status.phase)
            snap.status.message)
          build)
        s (requeue_after 5))

  -- r.Delete of the build pod, unless it is kept.
  unfoldable pub free_pod : SnapshotBuild → State → Result Run State
  free_pod build s =
      if not build.spec.keep_build_pod && not (eqb build.status.build_pod_name [])
      then elim (env.refuse_delete build.status.build_pod_name) [
        | none ↦ ok (record s { deleted = build.status.build_pod_name ∷ s.deleted })
        | some e ↦ if is_not_found e then ok s else err (s, failed_with e)
      ]
      else ok s

  -- reconcileSnapshotting
  unfoldable pub reconcile_snapshotting : SnapshotBuild → State → Run
  reconcile_snapshotting build s = finish (do
    snap ←
        or_missing build s (format1 "PodSnapshot %s disappeared" build.status.snapshot_name)
          (env.snapshot build.status.snapshot_name)
    snapshot_done (progress_of snap.status.phase) build snap s
    t ← free_pod build s
    artifact ← or_panic t snap.status.artifact
    ok (write env (built env build artifact) t done))
