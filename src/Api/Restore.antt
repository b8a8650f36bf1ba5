-- ===== src/Api/Restore.antt =====
-- api/v1alpha1/podrestore_types.go: PodRestore, and podtemplate.go: the template of a pod.
use pod_snapshotter.Base.{ℕ, Bool, Option, List}
use pod_snapshotter.Base.Bytes.{Bytes}
use pod_snapshotter.Base.Int.{ℤ}
use pod_snapshotter.Api.Common.{Condition, Message}
use pod_snapshotter.Api.Compat.{CompatibilityKey}

-- Status.Phase: the constants, the empty text, and any other text.
pub data RestorePhase : Type 0 where
  unset pending prewarming preparing restoring running failed : RestorePhase
  other_phase : Bytes → RestorePhase

-- Of a container of the template: what BuildPlaceholderPod touches, and the rest as one value.
pub record Container : Type 0 where
  pub name : Bytes
  pub command : List Bytes
  pub args : List Bytes
  pub liveness_probe : Option Bytes
  pub startup_probe : Option Bytes
  pub others : Bytes

-- A pod template, or a pod made from one, in the same way.
pub record PodTemplate : Type 0 where
  pub labels : Bytes → Option Bytes
  pub annotations : Bytes → Option Bytes
  pub containers : List Container
  pub node_name : Bytes
  pub node_selector : Bytes → Option Bytes
  pub restart_policy : Bytes
  pub app_armor_profile : Option Bytes  -- the type, of the pod's security context
  pub others : Bytes

-- The spec, less `pin`, which only the agent reads. A map of texts says what each key holds.
pub record PodRestoreSpec : Type 0 where
  pub artifact_uri : Bytes
  pub snapshot_ref : Option Bytes
  pub build_ref : Option Bytes
  pub pod_template : PodTemplate
  pub container : Bytes
  pub node_name : Bytes
  pub node_selector : Bytes → Option Bytes
  pub prewarm : Option Bool
  pub timeout_seconds : ℤ

-- The status, less restoredPID, prewarmBytes and restoredAt, which only the agent sets.
pub record PodRestoreStatus : Type 0 where
  pub phase : RestorePhase
  pub artifact_uri : Bytes
  pub target_node : Bytes
  pub pod_name : Bytes
  pub pod_uid : Bytes
  pub restored_container_id : Bytes
  pub compatibility : Option CompatibilityKey
  pub conditions : List Condition
  pub message : Message
  pub started_at : Option ℕ

pub record PodRestore : Type 0 where
  pub namespace : Bytes
  pub name : Bytes
  pub uid : Bytes
  pub deleting : Bool
  pub finalizer : Bool
  pub spec : PodRestoreSpec
  pub status : PodRestoreStatus
