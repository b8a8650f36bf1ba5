-- ===== src/Controller/Restore/Reconcile.antt =====
-- reconcilePreparing, reconcileDelete and Reconcile of podrestore_controller.go.
use pod_snapshotter.Base.{
  ℕ, ◌+◌, ◌*◌, ◌^◌, Bool, true, false, not, ◌&&◌, ◌||◌, Option, none, some, [], ◌∷◌, ◌++◌, ltb,
  if◌then◌else◌,
}
use pod_snapshotter.Base.Bytes.{Bytes, codes, eqb}
use pod_snapshotter.Base.Int.{positive_or}
use pod_snapshotter.Base.Result.{Result, ok, err, ◌>>=◌, ◌>>◌}
use pod_snapshotter.Api.Common.{
  ApiError, fixed, format1, format2, format_duration, no_message, condition_true, PodPhase,
  pod_running, pod_failed,
}
use pod_snapshotter.Api.Restore.{
  PodRestore, RestorePhase, unset, pending, prewarming, preparing, restoring, running, failed,
}
use pod_snapshotter.Controller.Env.{LivePod, done, requeue_after, failed_with}
use pod_snapshotter.Controller.Steps.{finish}
use pod_snapshotter.Controller.Placeholder.{NewPod, build_placeholder_pod}
use pod_snapshotter.Controller.Snapshot.Pending.{is_not_found, phase_text}
use pod_snapshotter.Controller.Restore.{
  RestoreEnv, State, Run, write, fail, condition, with_status, with_message, with_phase,
  bool_or_true, restore_phase_text,
}
use pod_snapshotter.Controller.Restore.Pending.{
  or_fail, check_node_compatibility, reconcile_pending,
}

unfoldable pub placeholder_name : PodRestore → Bytes
placeholder_name restore =
    if eqb restore.status.pod_name []
    then restore.name ++ codes "-restored"
    else restore.status.pod_name

-- metav1.IsControlledBy
unfoldable pub is_controlled_by : LivePod → PodRestore → Bool
is_controlled_by pod restore = elim pod.controller [ none ↦ false | some uid ↦ eqb uid restore.uid ]

-- The pod is the restore's own, and runs: record it, then pre-warm once or restore.
unfoldable pub prepared : PodRestore → LivePod → PodRestore
prepared restore pod = condition "PodPrepared" true "Running" (format1 "%s" pod.name) (
    with_status restore (record restore.status {
      pod_name = pod.name;
      pod_uid = pod.uid;
      target_node = pod.node_name;
    }))

unfoldable pub hand_over : PodRestore → PodRestore
hand_over restore =
    if bool_or_true restore.spec.prewarm
      && not (condition_true restore.status.conditions "PreWarmed")
    then with_message (fixed "pre-warming artifact on target node") (with_phase prewarming restore)
    else with_message (fixed "node agent restoring workload into placeholder pod")
        (with_phase restoring restore)

-- A container was restored on a node, and the agent has not said that it is gone.
abbrev pub needs_teardown : PodRestore → Bool
needs_teardown restore =
    not (eqb restore.status.restored_container_id [])
    && not (condition_true restore.status.conditions "TornDown")

-- Neither Running nor Failed.
abbrev pub is_live : RestorePhase → Bool
is_live running = false
is_live failed = false
is_live _ = true

unfoldable pub timeout_of : PodRestore → ℕ
timeout_of restore = positive_or 600 restore.spec.timeout_seconds * 10 ^ 9

module _ (env : RestoreEnv) where
  -- r.Create, and what follows when the server accepts it. (SetControllerReference fails only for an
  -- object that has a controller already.)
  unfoldable pub after_create : Option ApiError → PodRestore → NewPod → State → Run
  after_create (some e) restore pod s = (s, failed_with e)
  after_create none restore pod s =
      write env
        (condition "PodPrepared" false "Creating" no_message (
          with_message (fixed "waiting for placeholder pod to run")
            (with_status restore (record restore.status { pod_name = pod.name }))))
        (record s { created = pod ∷ s.created }) (requeue_after 5)

  unfoldable pub create_pod : PodRestore → State → Run
  create_pod restore s = finish (do
    pod ←
        or_fail env restore s (build_placeholder_pod env.digest restore (placeholder_name restore))
    ok (after_create (env.refuse_pod pod) restore pod s))

  -- A pod of that name that is not ours, or is going away, is waited out.
  unfoldable pub own_pod : PodRestore → LivePod → State → Result Run (Unit {0})
  own_pod restore pod s =
      if not (is_controlled_by pod restore) || pod.terminating
      then err (
          write env
            (with_message (format1 "waiting for stale placeholder pod %s to terminate" pod.name)
              restore)
            s (requeue_after 5))
      else ok tt

  -- The switch over the pod's phase.
  unfoldable pub runs_pod : PodPhase → PodRestore → LivePod → State → Result Run (Unit {0})
  runs_pod pod_running restore pod s = ok tt
  runs_pod pod_failed restore pod s =
      err (fail env restore (format2 "placeholder pod %s failed: %s" pod.name pod.message) s)
  runs_pod phase restore pod s = err (
      write env
        (with_message (format2 "placeholder pod %s is %s" pod.name (phase_text phase))
          (with_status restore (record restore.status { pod_name = pod.name })))
        s (requeue_after 5))

  unfoldable pub use_pod : PodRestore → LivePod → State → Run
  use_pod restore pod s = finish (do
    own_pod restore pod s
    runs_pod pod.phase restore pod s
    check_node_compatibility env restore s pod.node_name
    ok (write env (hand_over (prepared restore pod)) s done))

  -- reconcilePreparing
  unfoldable pub reconcile_preparing : PodRestore → State → Run
  reconcile_preparing restore s = elim (env.pod (placeholder_name restore)) [
    | ok pod ↦ use_pod restore pod s
    | err e ↦ if is_not_found e then create_pod restore s else (s, failed_with e)
  ]

  -- r.Delete of the placeholder pod, where one was made.
  unfoldable pub delete_pod : PodRestore → State → Result ApiError State
  delete_pod restore s =
      if eqb restore.status.pod_name []
      then ok s
      else elim (env.refuse_delete restore.status.pod_name) [
        | none ↦ ok (record s { deleted = restore.status.pod_name ∷ s.deleted })
        | some e ↦ if is_not_found e then ok s else err e
      ]

  -- reconcileDelete
  unfoldable pub reconcile_delete : PodRestore → State → Run
  reconcile_delete restore s =
      if not restore.finalizer
      then (s, done)
      else if needs_teardown restore
      then (s, requeue_after 5)
      else elim (delete_pod restore s) [
        | err e ↦ (s, failed_with e)
        | ok t ↦ write env (record restore { finalizer = false }) t done
      ]

  -- The global timeout check.
  unfoldable pub is_overdue : PodRestore → Bool
  is_overdue restore = elim restore.status.started_at [
    | none ↦ false
    | some started ↦ is_live restore.status.phase && ltb (started + timeout_of restore) env.now
  ]

  -- The switch of Reconcile.
  unfoldable pub by_phase : RestorePhase → PodRestore → State → Run
  by_phase unset restore s =
      write env
        (with_status restore (record restore.status { phase = pending; started_at = some env.now }))
        s done
  by_phase pending restore s = reconcile_pending env restore s
  by_phase preparing restore s = reconcile_preparing restore s
  by_phase prewarming restore s = (s, requeue_after 15)
  by_phase restoring restore s = (s, requeue_after 15)
  by_phase _ restore s = (s, done)

  unfoldable pub reconcile_held : PodRestore → State → Run
  reconcile_held restore s =
      if is_overdue restore
      then fail env restore
          (format_duration "restore timed out after %s in phase %s" (timeout_of restore)
            (restore_phase_text restore.status.phase))
          s
      else by_phase restore.status.phase restore s

  unfoldable pub with_finalizer : Option ApiError → PodRestore → State → Run
  with_finalizer (some e) restore s = (s, failed_with e)
  with_finalizer none restore s = reconcile_held restore (record s { stored = restore })

  unfoldable pub reconcile_found : State → Run
  reconcile_found s =
      let restore = s.stored in
      if restore.deleting
      then reconcile_delete restore s
      else if not restore.finalizer
      then (let held = record restore { finalizer = true } in
          with_finalizer (env.refuse held) held s)
      else reconcile_held restore s

  -- Reconcile
  unfoldable pub reconcile : State → Run
  reconcile s = elim env.lookup_error [
    | some e ↦ if is_not_found e then (s, done) else (s, failed_with e)
    | none ↦ reconcile_found s
  ]
