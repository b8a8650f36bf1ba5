-- ===== src/Controller/Build.antt =====
-- internal/controller/snapshotbuild_controller.go: SnapshotBuildReconciler. A run takes the stored
-- object and what was asked of the server to a new state and an outcome.
pub mod Handlers
pub mod Reconcile
pub mod Keeps
pub mod Phases
pub mod Results
pub mod Observed
mod Tests
use pod_snapshotter.Base.{ℕ, Bool, Option, some, none, List, ◌++◌, if◌then◌else◌, false, []}
use Prim.Native.String.{String}
use pod_snapshotter.Api.Build.{BuildPhase, SnapshotBuild, SnapshotBuildStatus, failed}
use pod_snapshotter.Api.Common.{ApiError, Message, set_condition}
use pod_snapshotter.Base.Bytes.{Bytes, codes, eqb}
use pod_snapshotter.Controller.Env.{Outcome, answer, LivePod, done}
use pod_snapshotter.Api.Snapshot.{PodSnapshotSpec, PodSnapshot}
use pod_snapshotter.Base.Result.{Result}
use pod_snapshotter.Controller.Placeholder.{NewPod}
use pod_snapshotter.Artifact.Uri.{format_dir, Uri}

-- The fields of SnapshotBuildReconciler: `has_deleter` is whether Artifacts is set.
pub record Config : Type 0 where
  pub artifact_root : Bytes
  pub has_deleter : Bool

-- The PodSnapshot that is sent to the API server.
pub record NewSnapshot : Type 0 where
  pub namespace : Bytes
  pub name : Bytes
  pub spec : PodSnapshotSpec

-- One run's surroundings. `node_tuple` is what a node's compatibility annotation holds,
-- `delete_artifact` whether ArtifactDeleter.Delete succeeds.
pub record BuildEnv : Type 0 where
  pub now : ℕ
  pub lookup_error : Option ApiError
  pub pod : Bytes → Result ApiError LivePod
  pub snapshot : Bytes → Result ApiError PodSnapshot
  pub node_tuple : Bytes → Result ApiError (Option Bytes)
  pub delete_artifact : Uri → Bool
  pub refuse : SnapshotBuild → Option ApiError
  pub refuse_pod : NewPod → Option ApiError
  pub refuse_snapshot : NewSnapshot → Option ApiError
  pub refuse_delete : Bytes → Option ApiError

-- One SnapshotBuild, the pods and snapshots that were created for it, and the pods whose deletion
-- was asked for.
pub record State : Type 0 where
  pub stored : SnapshotBuild
  pub pods : List NewPod
  pub snapshots : List NewSnapshot
  pub deleted : List Bytes

abbrev pub Run : Type 0
Run = State × Outcome

-- `return outcome` after `r.Status().Update(ctx, build)`, or after `r.Update(ctx, build)`.
unfoldable pub write : BuildEnv → SnapshotBuild → State → Outcome → Run
write env build s outcome = answer (env.refuse build) s (record s { stored = build }) outcome

abbrev pub with_status : SnapshotBuild → SnapshotBuildStatus → SnapshotBuild
with_status build status = record build { status = status }

-- setCondition(&build.Status.Conditions, kind, status, reason, message)
unfoldable pub condition : String → Bool → String → Message → SnapshotBuild → SnapshotBuild
condition kind status reason message build = with_status build (record build.status {
  conditions =
      set_condition build.status.conditions
        (record { kind = kind; status = status; reason = reason; message = message });
})

abbrev pub with_message : Message → SnapshotBuild → SnapshotBuild
with_message m build = with_status build (record build.status { message = m })

abbrev pub with_phase : BuildPhase → SnapshotBuild → SnapshotBuild
with_phase p build = with_status build (record build.status { phase = p })

-- failBuild
unfoldable pub fail_build : BuildEnv → SnapshotBuild → Message → State → Run
fail_build env build m s =
    write env
      (condition "ArtifactBuilt" false "Failed" m (with_message m (with_phase failed build))) s done

-- buildFormat
unfoldable pub build_format : SnapshotBuild → Bytes
build_format build =
    if eqb build.spec.artifact_format [] then format_dir else build.spec.artifact_format

-- buildPodName
unfoldable pub build_pod_name : SnapshotBuild → Bytes
build_pod_name build = build.name ++ codes "-build"

-- buildSnapshotName
unfoldable pub build_snapshot_name : SnapshotBuild → Bytes
build_snapshot_name build = build.name ++ codes "-snap"
