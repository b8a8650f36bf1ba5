-- ===== src/Controller/Snapshot/Checkpointing.antt =====
-- agentCheckpoints and reconcileCheckpointing of podsnapshot_controller.go, the goroutine that
-- reconcileCheckpointing starts, reconcileDelete and Reconcile. The goroutine is the calls of the
-- state: it is launched by the run, and ends by a step of its own, `finish_call`.
use pod_snapshotter.Base.{
  Bool, true, false, not, ◌&&◌, Option, none, some, List, [], ◌∷◌, if◌then◌else◌,
}
use pod_snapshotter.Base.Bytes.{Bytes, eqb}
use pod_snapshotter.Base.Int.{positive_or}
use pod_snapshotter.Base.Result.{Result, ok, err}
use pod_snapshotter.Artifact.Uri.{parse}
use pod_snapshotter.Api.Common.{
  ApiError, Message, fixed, format1, format2, same_message, agent_checkpoint_capability,
  node_has_capability,
}
use pod_snapshotter.Api.Snapshot.{
  PodSnapshot, SnapshotPhase, unset, pending, quiescing, checkpointing, checkpointed, failed,
  checkpointer_agent, deletion_policy_delete,
}
use pod_snapshotter.Controller.Env.{answer, Env, done, requeue_after, failed_with}
use pod_snapshotter.Controller.Snapshot.{
  Config, Call, State, write, fail, condition, with_message, with_phase, with_status, node_address,
}
use pod_snapshotter.Controller.Snapshot.Pending.{
  Run, is_not_found, reconcile_pending, reconcile_quiescing,
}

-- What agentCheckpoints answers: the agent owns the dump, or the kubelet path is taken, with or
-- without a reason to report.
pub data Owner : Type 0 where
  agent : Owner
  kubelet : Owner
  kubelet_because : Message → Owner

is_directory : Bytes → Bool
is_directory uri = elim (parse uri) [ err e ↦ false | ok u ↦ u.dir ]

-- agentCheckpoints
unfoldable pub agent_checkpoints : Env PodSnapshot → PodSnapshot → Owner
unfolding is_directory
agent_checkpoints env snap =
    if not (eqb snap.spec.checkpointer checkpointer_agent)
    then kubelet
    else elim snap.status.artifact [
      | none ↦ kubelet
      | some a ↦
          if not (is_directory a.uri)
          then kubelet_because (
              format2
                "checkpointer %q needs a directory artifact; falling back to the kubelet API for %s"
                checkpointer_agent a.uri)
          else elim (env.node snap.status.node_name) [
            | err e ↦ kubelet_because (
                format1
                  "could not read node %s to check agent capabilities; falling back to the kubelet API"
                  snap.status.node_name)
            | ok node ↦
                if node_has_capability node.annotations agent_checkpoint_capability
                then agent
                else kubelet_because (
                    format2
                      "node %s does not advertise %s (agent too old); falling back to the kubelet API"
                      node.name agent_checkpoint_capability)
          ]
    ]

abbrev pub agent_runs : PodSnapshot → Message
agent_runs snap = format1 "node agent %s is running runc checkpoint" snap.status.node_name

-- The agent runs the dump: say so once.
unfoldable pub leave_to_agent : Env PodSnapshot → PodSnapshot → State → Run
leave_to_agent env snap s =
    if same_message snap.status.message (agent_runs snap)
    then (s, done)
    else write env (with_message (agent_runs snap) snap) s done

-- The kubelet call, from inflight.LoadOrStore on.
unfoldable pub launch_call : Env PodSnapshot → PodSnapshot → State → Run
launch_call env snap s =
    if s.inflight then (s, requeue_after 5) else elim (env.node_again snap.status.node_name) [
      | err e ↦ (s, failed_with e)
      | ok node ↦
          if eqb (node_address node) []
          then fail env snap (format1 "node %s has no InternalIP or Hostname address" node.name) s
          else (
            record s {
              inflight = true;
              calls =
                  record {
                    node_address = node_address node;
                    namespace = snap.namespace;
                    pod = snap.spec.pod_name;
                    container = snap.status.container;
                    timeout = positive_or 120 snap.spec.timeout_seconds;
                  }
                  ∷ s.calls;
            },
            requeue_after 10,
          )
    ]

-- Why the kubelet path is taken is stored first; the run goes on only if that succeeds.
unfoldable pub report_reason : Option ApiError → Env PodSnapshot → PodSnapshot → State → Run
report_reason none env snap s = launch_call env snap (record s { stored = snap })
report_reason (some e) env snap s = (s, failed_with e)

unfoldable pub by_owner : Owner → Env PodSnapshot → PodSnapshot → State → Run
by_owner agent env snap s = leave_to_agent env snap s
by_owner kubelet env snap s = launch_call env snap s
by_owner (kubelet_because why) env snap s =
    if same_message snap.status.message why
    then launch_call env snap s
    else (let told = with_message why snap in report_reason (env.refuse told) env told s)

-- reconcileCheckpointing
unfoldable pub reconcile_checkpointing : Env PodSnapshot → PodSnapshot → State → Run
reconcile_checkpointing env snap s = by_owner (agent_checkpoints env snap) env snap s

-- What the goroutine writes when Kubelet.Checkpoint has returned.
unfoldable pub call_result : Result Message Bytes → PodSnapshot → PodSnapshot
call_result (err m) snap =
    condition "CheckpointCreated" false "CheckpointFailed" m
      (with_message m (with_phase failed snap))
call_result (ok path) snap =
    condition "CheckpointCreated" true "CheckpointCreated" (format1 "%s" path) (
      with_message (fixed "checkpoint tar written by kubelet; waiting for node agent upload") (
        with_phase checkpointed
          (with_status snap (record snap.status { kubelet_checkpoint_path = path }))))

abbrev pub is_checkpointing : SnapshotPhase → Bool
is_checkpointing checkpointing = true
is_checkpointing _ = false

-- The goroutine after its call: a read or a write that fails, and an object that has left the phase,
-- change nothing; the key leaves `inflight` in any case.
unfoldable pub finish_call : Env PodSnapshot → Result Message Bytes → List Call → State → State
finish_call env result rest s =
    let idle = record s { inflight = false; calls = rest } in
    elim env.lookup_error [
      | some e ↦ idle
      | none ↦
          if not (is_checkpointing s.stored.status.phase)
          then idle
          else (answer (env.refuse (call_result result s.stored)) idle
              (record idle { stored = call_result result s.stored }) done).0
    ]

-- RemoveFinalizer and Update; the object is gone once nothing else holds it.
unfoldable pub release : Env PodSnapshot → PodSnapshot → State → Run
release env snap s = write env (record snap { finalizer = false }) s done

-- What reconcileDelete does: nothing, try again, or let the object go.
pub data Deletion : Type 0 where
  not_held try_again let_go : Deletion

-- The tests of reconcileDelete and the call of ArtifactDeleter.Delete.
unfoldable pub deletion : Config → Env PodSnapshot → PodSnapshot → Deletion
deletion cfg env snap =
    if not snap.finalizer
    then not_held
    else if not (eqb snap.spec.deletion_policy deletion_policy_delete)
    then let_go
    else elim snap.status.artifact [
      | none ↦ let_go
      | some a ↦ if eqb a.uri [] then let_go else elim (parse a.uri) [
        | err e ↦ let_go
        | ok uri ↦ if cfg.has_deleter && not (env.delete_artifact uri) then try_again else let_go
      ]
    ]

unfoldable pub by_deletion : Deletion → Env PodSnapshot → PodSnapshot → State → Run
by_deletion not_held env snap s = (s, done)
by_deletion try_again env snap s = (s, requeue_after 15)
by_deletion let_go env snap s = release env snap s

-- reconcileDelete
unfoldable pub reconcile_delete : Config → Env PodSnapshot → PodSnapshot → State → Run
reconcile_delete cfg env snap s = by_deletion (deletion cfg env snap) env snap s

-- The switch of Reconcile.
unfoldable pub by_phase : SnapshotPhase → Config → Env PodSnapshot → PodSnapshot → State → Run
by_phase unset cfg env snap s =
    write env (with_status snap (record snap.status { phase = pending; started_at = some env.now }))
      s done
by_phase pending cfg env snap s = reconcile_pending cfg env snap s
by_phase checkpointing cfg env snap s = reconcile_checkpointing env snap s
by_phase quiescing cfg env snap s = reconcile_quiescing cfg env snap s
by_phase _ cfg env snap s = (s, done)

-- The finalizer is stored before anything else is done.
unfoldable pub with_finalizer :
    Option ApiError → Config → Env PodSnapshot → PodSnapshot → State → Run
with_finalizer (some e) cfg env snap s = (s, failed_with e)
with_finalizer none cfg env snap s =
    by_phase snap.status.phase cfg env snap (record s { stored = snap })

unfoldable pub reconcile_found : Config → Env PodSnapshot → State → Run
reconcile_found cfg env s =
    let snap = s.stored in
    if snap.deleting
    then reconcile_delete cfg env snap s
    else if eqb snap.spec.deletion_policy deletion_policy_delete && not snap.finalizer
    then (let held = record snap { finalizer = true } in
        with_finalizer (env.refuse held) cfg env held s)
    else by_phase snap.status.phase cfg env snap s

-- Reconcile
unfoldable pub reconcile : Config → Env PodSnapshot → State → Run
reconcile cfg env s = elim env.lookup_error [
  | some e ↦ if is_not_found e then (s, done) else (s, failed_with e)
  | none ↦ reconcile_found cfg env s
]
