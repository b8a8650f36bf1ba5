-- ===== src/Controller/Restore.antt =====
-- internal/controller/podrestore_controller.go: PodRestoreReconciler. A run takes the stored object
-- and what was asked of the server to a new state and an outcome.
pub mod Pending
pub mod Reconcile
pub mod Keeps
pub mod Phases
pub mod Handover
pub mod Teardown
mod Tests
use Prim.Native.String.{String}
use pod_snapshotter.Base.{ℕ, Bool, true, false, Option, none, some, List, []}
use pod_snapshotter.Base.Bytes.{Bytes, codes}
use pod_snapshotter.Base.Result.{Result}
use pod_snapshotter.Artifact.Uri.{Uri}
use pod_snapshotter.Api.Common.{ApiError, Message, set_condition, PodPhase}
use pod_snapshotter.Api.Snapshot.{PodSnapshot, SnapshotPhase}
use pod_snapshotter.Api.Restore.{
  PodRestore, PodRestoreStatus, RestorePhase, unset, pending, prewarming, preparing, restoring,
  running, failed, other_phase,
}
use pod_snapshotter.Api.Build.{SnapshotBuild}
use pod_snapshotter.Controller.Env.{answer, LivePod, Outcome, done, failed_with}
use pod_snapshotter.Controller.Placeholder.{NewPod}

-- One run's surroundings. `artifact_error` is the text of Artifacts.Stat's error, where Artifacts is
-- set; `node_tuple` what a node's compatibility annotation holds; `digest` the hexadecimal SHA-256.
pub record RestoreEnv : Type 0 where
  pub now : ℕ
  pub lookup_error : Option ApiError
  pub build : Bytes → Result ApiError SnapshotBuild
  pub snapshot : Bytes → Result ApiError PodSnapshot
  pub pod : Bytes → Result ApiError LivePod
  pub node_tuple : Bytes → Result ApiError (Option Bytes)
  pub has_stat : Bool
  pub artifact_error : Uri → Option Bytes
  pub refuse : PodRestore → Option ApiError
  pub refuse_pod : NewPod → Option ApiError
  pub refuse_delete : Bytes → Option ApiError
  pub digest : Bytes → Bytes

-- One PodRestore, the pods that were created for it and the pods whose deletion was asked for.
pub record State : Type 0 where
  pub stored : PodRestore
  pub created : List NewPod
  pub deleted : List Bytes

abbrev pub Run : Type 0
Run = State × Outcome

-- `return outcome` after `r.Status().Update(ctx, restore)`, or after `r.Update(ctx, restore)`.
unfoldable pub write : RestoreEnv → PodRestore → State → Outcome → Run
write env restore s outcome = answer (env.refuse restore) s (record s { stored = restore }) outcome

abbrev pub with_status : PodRestore → PodRestoreStatus → PodRestore
with_status restore status = record restore { status = status }

-- setCondition(&restore.Status.Conditions, kind, status, reason, message)
unfoldable pub condition : String → Bool → String → Message → PodRestore → PodRestore
condition kind status reason message restore = with_status restore (record restore.status {
  conditions =
      set_condition restore.status.conditions
        (record { kind = kind; status = status; reason = reason; message = message });
})

abbrev pub with_message : Message → PodRestore → PodRestore
with_message m restore = with_status restore (record restore.status { message = m })

abbrev pub with_phase : RestorePhase → PodRestore → PodRestore
with_phase p restore = with_status restore (record restore.status { phase = p })

-- PodRestoreReconciler.fail
unfoldable pub fail : RestoreEnv → PodRestore → Message → State → Run
fail env restore m s =
    write env (condition "Restored" false "Failed" m (with_message m (with_phase failed restore))) s
      done

-- boolOrTrue
abbrev pub bool_or_true : Option Bool → Bool
bool_or_true none = true
bool_or_true (some b) = b

abbrev pub restore_phase_text : RestorePhase → Bytes
restore_phase_text unset = []
restore_phase_text pending = codes "Pending"
restore_phase_text prewarming = codes "PreWarming"
restore_phase_text preparing = codes "Preparing"
restore_phase_text restoring = codes "Restoring"
restore_phase_text running = codes "Running"
restore_phase_text failed = codes "Failed"
restore_phase_text (other_phase t) = t

abbrev pub snapshot_phase_text : SnapshotPhase → Bytes
snapshot_phase_text SnapshotPhase.unset = []
snapshot_phase_text SnapshotPhase.pending = codes "Pending"
snapshot_phase_text SnapshotPhase.quiescing = codes "Quiescing"
snapshot_phase_text SnapshotPhase.checkpointing = codes "Checkpointing"
snapshot_phase_text SnapshotPhase.checkpointed = codes "Checkpointed"
snapshot_phase_text SnapshotPhase.uploading = codes "Uploading"
snapshot_phase_text SnapshotPhase.completed = codes "Completed"
snapshot_phase_text SnapshotPhase.failed = codes "Failed"
snapshot_phase_text (SnapshotPhase.other_phase t) = t
