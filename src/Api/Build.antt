-- ===== src/Api/Build.antt =====
-- api/v1alpha1/snapshotbuild_types.go: SnapshotBuild.
use pod_snapshotter.Base.{ℕ, Bool, Option, List, []}
use pod_snapshotter.Base.Bytes.{Bytes, codes}
use pod_snapshotter.Base.Int.{ℤ}
use pod_snapshotter.Api.Common.{Condition, Message}
use pod_snapshotter.Api.Snapshot.{ArtifactStatus}
use pod_snapshotter.Api.Compat.{CompatibilityKey}
use pod_snapshotter.Api.Restore.{PodTemplate}

-- Status.Phase: the constants, the empty text, and any other text.
pub data BuildPhase : Type 0 where
  unset pending building snapshotting completed failed : BuildPhase
  other_phase : Bytes → BuildPhase

pub record SnapshotBuildSpec : Type 0 where
  pub pod_template : PodTemplate
  pub container : Bytes
  pub revision : Bytes
  pub compatibility : Option CompatibilityKey
  pub artifact_uri : Bytes
  pub artifact_format : Bytes
  pub deletion_policy : Bytes
  pub timeout_seconds : ℤ
  pub checkpointer : Bytes
  pub keep_build_pod : Bool

pub record SnapshotBuildStatus : Type 0 where
  pub phase : BuildPhase
  pub build_pod_name : Bytes
  pub node_name : Bytes
  pub snapshot_name : Bytes
  pub artifact : Option ArtifactStatus
  pub compatibility : Option CompatibilityKey
  pub conditions : List Condition
  pub message : Message
  pub started_at : Option ℕ
  pub completed_at : Option ℕ

pub record SnapshotBuild : Type 0 where
  pub namespace : Bytes
  pub name : Bytes
  pub uid : Bytes
  pub deleting : Bool
  pub finalizer : Bool
  pub spec : SnapshotBuildSpec
  pub status : SnapshotBuildStatus

abbrev pub build_phase_text : BuildPhase → Bytes
build_phase_text unset = []
build_phase_text pending = codes "Pending"
build_phase_text building = codes "Building"
build_phase_text snapshotting = codes "Snapshotting"
build_phase_text completed = codes "Completed"
build_phase_text failed = codes "Failed"
build_phase_text (other_phase t) = t
