-- ===== src/Agent/Quiesce.antt =====
-- internal/agent/quiesce_controller.go: QuiesceReconciler.
use pod_snapshotter.Base.{
  ℕ, Bool, true, false, ◌&&◌, Option, none, some, [], ◌∷◌, ltb, if◌then◌else◌,
}
use pod_snapshotter.Base.Bytes.{eqb}
use pod_snapshotter.Base.Int.{not_positive}
use pod_snapshotter.Api.Common.{ApiError, fixed, format2}
use pod_snapshotter.Api.Snapshot.{
  PodSnapshot, SnapshotPhase, quiescing, checkpointing, QuiesceStatus, ready_for_checkpoint_file,
}
use pod_snapshotter.Base.Result.{Result, ok, err}
use pod_snapshotter.Controller.Env.{Outcome, done, requeue_after}
use pod_snapshotter.Controller.Snapshot.{condition, with_status}
use pod_snapshotter.Os.{Prog, ret, ask, ◌>>=◌, or_else, get, now, resolve, stat, Sandbox}
use pod_snapshotter.Agent.Config.{AgentConfig, ignore_not_found, update_then, container_path}

abbrev pub is_quiescing : SnapshotPhase → Bool
is_quiescing quiescing = true
is_quiescing _ = false

-- QuiesceReconciler.owns
unfoldable pub owns : AgentConfig → PodSnapshot → Bool
owns cfg snap = eqb snap.status.node_name cfg.node_name && is_quiescing snap.status.phase

abbrev pub is_past : ℕ → Option ℕ → Bool
is_past t none = false
is_past t (some deadline) = ltb deadline t

-- What Reconcile stores once the workload is ready.
unfoldable pub quiesced : ℕ → QuiesceStatus → PodSnapshot → PodSnapshot
quiesced t q snap =
    condition "Quiesced" true "Quiesced" (format2 "%s/%s present" q.dir ready_for_checkpoint_file) (
      with_status snap (record snap.status {
        quiesce = some (record q { ready_at = some t });
        phase = checkpointing;
        message = fixed "workload quiesced; starting checkpoint";
      }))

-- Reconcile once the container is resolved: its presence file is looked for.
unfoldable pub look : QuiesceStatus → PodSnapshot → Sandbox → Prog Outcome
look q snap sandbox = if not_positive sandbox.keeper_pid then ret (requeue_after 2) else do
  found ← ask (stat (container_path sandbox.keeper_pid (q.dir ∷ ready_for_checkpoint_file ∷ [])))
  or_else found (λ _. ret (requeue_after 2))
      (λ _. do t ← ask now; update_then (quiesced t q snap) done)

-- Reconcile before the deadline.
unfoldable pub find : QuiesceStatus → PodSnapshot → Prog Outcome
find q snap = do
  sandbox ← ask (resolve snap.status.pod_uid snap.status.container)
  or_else sandbox (λ _. ret (requeue_after 2)) (λ found. look q snap found)

-- Reconcile from the quiesce status on.
unfoldable pub wait : QuiesceStatus → PodSnapshot → Prog Outcome
wait q snap =
    if eqb q.dir []
    then ret done
    else ask now >>= λ t. if is_past t q.deadline then ret done else find q snap

unfoldable pub wait_if : Option QuiesceStatus → PodSnapshot → Prog Outcome
wait_if none snap = ret done
wait_if (some q) snap = wait q snap

-- Reconcile once the object is read.
unfoldable pub reconcile_read : AgentConfig → Result ApiError PodSnapshot → Prog Outcome
reconcile_read cfg (err e) = ret (ignore_not_found e)
reconcile_read cfg (ok snap) = if owns cfg snap then wait_if snap.status.quiesce snap else ret done

-- Reconcile
unfoldable pub reconcile : AgentConfig → Prog Outcome
reconcile cfg = ask get >>= reconcile_read cfg
