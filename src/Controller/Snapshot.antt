-- ===== src/Controller/Snapshot.antt =====
-- internal/controller/podsnapshot_controller.go: PodSnapshotReconciler. A run takes the stored
-- object and the shared state of the reconciler to a new state and an outcome. The object in hand
-- is passed along; only a write that the server accepts stores it.
pub mod Pending
pub mod Checkpointing
pub mod Runs
pub mod Phases
pub mod Calls
pub mod Guards
pub mod Cleanup
use Prim.Native.String.{String}
use pod_snapshotter.Base.{
  ℕ, ◌+◌, Bool, true, false, not, ◌&&◌, Option, none, some, List, [], ◌∷◌, ltb, if◌then◌else◌, any,
}
use pod_snapshotter.Base.Bytes.{Bytes, codes, eqb, has_prefix}
use pod_snapshotter.Base.Int.{ℤ, pos, negsuc, positive_or, not_positive}
use pod_snapshotter.Base.Result.{Result, ok, err}
use pod_snapshotter.Go.Path.{clean}
use pod_snapshotter.Artifact.Uri.{Uri, parse, to_string, format, default_uri}
use pod_snapshotter.Api.Common.{
  ApiError, not_found, Message, fixed, format1, format2, format3, uri_error, no_message,
  same_message, Condition, set_condition, Pod, PodPhase, pod_running, Node, AddressType,
  internal_ip, host_name, other_address, prereqs_annotation, agent_checkpoint_capability,
  node_has_capability,
}
use pod_snapshotter.Api.Snapshot.{
  PodSnapshot, PodSnapshotStatus, SnapshotPhase, unset, pending, quiescing, checkpointing,
  checkpointed, uploading, completed, failed, other_phase, ArtifactStatus, QuiesceStatus,
  checkpointer_agent, deletion_policy_delete, quiesce_annotation, quiesce_dir_annotation,
  quiesce_timeout_annotation, quiesce_mode_presence_file, default_quiesce_dir,
  default_quiesce_timeout,
}
use pod_snapshotter.Controller.Env.{answer, Env, Outcome, done, requeue_after, failed_with}

-- The fields of PodSnapshotReconciler: `has_deleter` is whether Artifacts is set.
pub record Config : Type 0 where
  pub require_prereqs : Bool
  pub artifact_root : Bytes
  pub has_deleter : Bool

-- One kubelet checkpoint call in flight, with the arguments that it was launched with.
pub record Call : Type 0 where
  pub node_address : Bytes
  pub namespace : Bytes
  pub pod : Bytes
  pub container : Bytes
  pub timeout : ℕ

-- One PodSnapshot in the cluster, whether the reconciler's `inflight` map holds its key, and the
-- calls that run for it.
pub record State : Type 0 where
  pub stored : PodSnapshot
  pub inflight : Bool
  pub calls : List Call

-- `return outcome` after `r.Status().Update(ctx, snap)`, or after `r.Update(ctx, snap)`.
unfoldable pub write : Env PodSnapshot → PodSnapshot → State → Outcome → State × Outcome
write env snap s outcome = answer (env.refuse snap) s (record s { stored = snap }) outcome

-- `snap.Status.Conditions` set, with the message of the status
abbrev pub with_status : PodSnapshot → PodSnapshotStatus → PodSnapshot
with_status snap status = record snap { status = status }

-- setCondition(&snap.Status.Conditions, kind, status, reason, message)
unfoldable pub condition : String → Bool → String → Message → PodSnapshot → PodSnapshot
condition kind status reason message snap = with_status snap (record snap.status {
  conditions =
      set_condition snap.status.conditions
        (record { kind = kind; status = status; reason = reason; message = message });
})

abbrev pub with_message : Message → PodSnapshot → PodSnapshot
with_message m snap = with_status snap (record snap.status { message = m })

abbrev pub with_phase : SnapshotPhase → PodSnapshot → PodSnapshot
with_phase p snap = with_status snap (record snap.status { phase = p })

-- PodSnapshotReconciler.fail
unfoldable pub fail : Env PodSnapshot → PodSnapshot → Message → State → State × Outcome
fail env snap m s =
    write env (condition "Ready" false "Failed" m (with_message m (with_phase failed snap))) s done

-- nodeAddress: the first internal address, or else the last host name.
unfoldable pub node_address_from : Bytes → List (AddressType × Bytes) → Bytes
node_address_from hostname [] = hostname
node_address_from hostname ((internal_ip, a) ∷ rest) = a
node_address_from hostname ((host_name, a) ∷ rest) = node_address_from a rest
node_address_from hostname ((other_address, a) ∷ rest) = node_address_from hostname rest

unfoldable pub node_address : Node → Bytes
node_address node = node_address_from [] node.addresses

abbrev pub or_unset : Bytes → Bytes
or_unset s = if eqb s [] then codes "<unset>" else s
