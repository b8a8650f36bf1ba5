-- ===== src/Api/Snapshot.antt =====
-- api/v1alpha1/podsnapshot_types.go: PodSnapshot.
use Prim.Native.String.{String}
use pod_snapshotter.Base.{ℕ, ◌*◌, ◌^◌, Bool, List, Option}
use pod_snapshotter.Base.Bytes.{Bytes, codes}
use pod_snapshotter.Base.Int.{ℤ}
use pod_snapshotter.Api.Common.{Condition, Message}

-- Status.Phase: the constants, the empty text, and any other text.
pub data SnapshotPhase : Type 0 where
  unset pending quiescing checkpointing checkpointed uploading completed failed : SnapshotPhase
  other_phase : Bytes → SnapshotPhase

pub record PodSnapshotSpec : Type 0 where
  pub pod_name : Bytes
  pub container : Bytes
  pub artifact_uri : Bytes
  pub artifact_format : Bytes
  pub deletion_policy : Bytes
  pub timeout_seconds : ℤ
  pub checkpointer : Bytes

pub record ArtifactStatus : Type 0 where
  pub uri : Bytes
  pub format : Bytes
  pub size_bytes : ℕ
  pub sha256 : Bytes
  pub file_count : ℕ
  pub created_at : ℕ

pub record QuiesceStatus : Type 0 where
  pub mode : Bytes
  pub dir : Bytes
  pub deadline : Option ℕ
  pub ready_at : Option ℕ

pub record PodSnapshotStatus : Type 0 where
  pub phase : SnapshotPhase
  pub node_name : Bytes
  pub pod_uid : Bytes
  pub container : Bytes
  pub kubelet_checkpoint_path : Bytes
  pub artifact : Option ArtifactStatus
  pub quiesce : Option QuiesceStatus
  pub conditions : List Condition
  pub message : Message
  pub started_at : Option ℕ
  pub completed_at : Option ℕ

-- Of the metadata: the key, whether a deletion timestamp is set, and whether the one finalizer of
-- the program is among the finalizers (the others are left alone).
pub record PodSnapshot : Type 0 where
  pub namespace : Bytes
  pub name : Bytes
  pub deleting : Bool
  pub finalizer : Bool
  pub spec : PodSnapshotSpec
  pub status : PodSnapshotStatus

abbrev pub checkpointer_agent : Bytes
checkpointer_agent = codes "agent"

abbrev pub deletion_policy_delete : Bytes
deletion_policy_delete = codes "Delete"

abbrev pub quiesce_annotation : String
quiesce_annotation = "podsnapshot.io/quiesce"

abbrev pub quiesce_dir_annotation : String
quiesce_dir_annotation = "podsnapshot.io/quiesce-dir"

abbrev pub quiesce_timeout_annotation : String
quiesce_timeout_annotation = "podsnapshot.io/quiesce-timeout"

abbrev pub quiesce_mode_presence_file : Bytes
quiesce_mode_presence_file = codes "presence-file"

abbrev pub default_quiesce_dir : Bytes
default_quiesce_dir = codes "/snapshot"

-- 10 * time.Minute, in nanoseconds
abbrev pub default_quiesce_timeout : ℕ
default_quiesce_timeout = 600 * 10 ^ 9

abbrev pub ready_for_checkpoint_file : Bytes
ready_for_checkpoint_file = codes "ready-for-checkpoint"
