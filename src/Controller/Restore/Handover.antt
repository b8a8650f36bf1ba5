-- ===== src/Controller/Restore/Handover.antt =====
-- Which pod a restore is handed to the agent with.
use pod_snapshotter.Base.{
  ◌≡◌, refl, Bool, true, false, inl, inr, arith, not, if_split, ◌&&◌, Option-cases,
}
use pod_snapshotter.Base.Result.{ok, Result-cases}
use pod_snapshotter.Api.Common.{
  PodPhase, pod_running, pod_failed, pod_pending, pod_succeeded, pod_unknown, condition_true,
}
use pod_snapshotter.Api.Restore.{PodRestore, RestorePhase, prewarming, restoring}
use pod_snapshotter.Controller.Env.{LivePod, done, failed_with}
use pod_snapshotter.Controller.Steps.{Wp-step, Wp-early, Wp-finish}
use pod_snapshotter.Controller.Snapshot.Pending.{is_not_found}
use pod_snapshotter.Controller.Restore.{RestoreEnv, State, Run, write, condition, bool_or_true}
use pod_snapshotter.Controller.Restore.Pending.{check_node_compatibility}
use pod_snapshotter.Controller.Restore.Keeps.{
  Good, own_pod-Wp, runs_pod-Wp, check_node-Wp, create_pod-Good,
}
use pod_snapshotter.Controller.Restore.Reconcile.{
  create_pod, placeholder_name, is_controlled_by, own_pod, runs_pod, prepared, hand_over, use_pod,
  reconcile_preparing,
}

-- The agent has the restore.
abbrev pub is_handed : RestorePhase → Bool
is_handed prewarming = true
is_handed restoring = true
is_handed _ = false

-- The pod that a restore was handed over with, and what was stored of it.
pub record IsHanded (env : RestoreEnv) (restore after : PodRestore) : Type 0 where
  pub pod : LivePod
  pub pod_found : env.pod (placeholder_name restore) ≡ ok pod
  pub owned : is_controlled_by pod restore ≡ true
  pub stays : pod.terminating ≡ false
  pub runs : pod.phase ≡ pod_running
  pub name_recorded : after.status.pod_name ≡ pod.name
  pub uid_recorded : after.status.pod_uid ≡ pod.uid
  pub node_recorded : after.status.target_node ≡ pod.node_name

hand_over_lem :
    (t : PodRestore) (pod : LivePod)
    → ((hand_over (prepared t pod)).status.pod_name ≡ pod.name)
      × ((hand_over (prepared t pod)).status.pod_uid ≡ pod.uid)
      × ((hand_over (prepared t pod)).status.target_node ≡ pod.node_name)
unfolding hand_over prepared condition
hand_over_lem t pod =
    if_split
      (λ (u : PodRestore).
        (u.status.pod_name ≡ pod.name)
        × (u.status.pod_uid ≡ pod.uid)
        × (u.status.target_node ≡ pod.node_name))
      (bool_or_true t.spec.prewarm
        && not (condition_true (prepared t pod).status.conditions "PreWarmed"))
      _ _ (λ _. (refl, refl, refl)) (λ _. (refl, refl, refl))

abbrev NotHanded : RestorePhase → Type 0
NotHanded p = is_handed p ≡ false

module _ (env : RestoreEnv) (t : PodRestore) (s : State) (before : NotHanded s.stored.status.phase)
    (fit : NotHanded t.status.phase) where
  abbrev Checked : Run → Type 0
  Checked r = is_handed r.0.stored.status.phase ≡ true → IsHanded env t r.0.stored

  early : (r : Run) → NotHanded r.0.stored.status.phase → Checked r
  early r h handed = absurd (cc (h, handed))

  own_of_step :
      (pod : LivePod)
      → own_pod env t pod s ≡ ok tt
      → (is_controlled_by pod t ≡ true) × (pod.terminating ≡ false)
  unfolding own_pod
  own_of_step pod h = (ground arith, ground arith)

  running_of_step :
      (phase : PodPhase) (pod : LivePod) → runs_pod env phase t pod s ≡ ok tt → phase ≡ pod_running
  unfolding runs_pod
  running_of_step pod_running pod h = refl
  running_of_step pod_failed pod h = absurd (cc)
  running_of_step pod_pending pod h = absurd (cc)
  running_of_step pod_succeeded pod h = absurd (cc)
  running_of_step pod_unknown pod h = absurd (cc)

  stored_lem :
      (pod : LivePod)
      → env.pod (placeholder_name t) ≡ ok pod
      → own_pod env t pod s ≡ ok tt
      → runs_pod env pod.phase t pod s ≡ ok tt
      → Checked (write env (hand_over (prepared t pod)) s done)
  unfolding write
  stored_lem pod found own runs = elim (Option-cases (env.refuse (hand_over (prepared t pod)))) [
    | inr (e, x) ↦ rw x (early (s, done) before)
    | inl x ↦ rw x (λ _. record {
      pod = pod;
      pod_found = found;
      owned = (own_of_step pod own).0;
      stays = (own_of_step pod own).1;
      runs = running_of_step pod.phase pod runs;
      name_recorded = (hand_over_lem t pod).0;
      uid_recorded = (hand_over_lem t pod).1;
      node_recorded = (hand_over_lem t pod).2;
    })
  ]

  use_pod-Checked :
      (pod : LivePod) → env.pod (placeholder_name t) ≡ ok pod → Checked (use_pod env t pod s)
  unfolding use_pod
  use_pod-Checked pod found =
      let G = Good NotHanded env s before refl in
      Wp-finish Checked _ (
        Wp-step Checked Checked (own_pod env t pod s) _
          (λ r e.
            early r
              (Wp-early G (λ _. Unit {0}) _ (own_pod-Wp NotHanded env s before refl t pod fit) r e))
          (λ _ own.
            Wp-step Checked Checked (runs_pod env pod.phase t pod s) _
              (λ r e. early r (
                Wp-early G (λ _. Unit {0}) _
                  (runs_pod-Wp NotHanded env s before refl pod.phase t pod fit) r e))
              (λ _ runs.
                Wp-step Checked Checked (check_node_compatibility env t s pod.node_name) _
                  (λ r e. early r (
                    Wp-early G (λ _. Unit {0}) _
                      (check_node-Wp NotHanded env s before refl t pod.node_name) r e))
                  (λ _ _. stored_lem pod found own runs))))

  reconcile_preparing-Checked : Checked (reconcile_preparing env t s)
  unfolding reconcile_preparing
  reconcile_preparing-Checked = elim (Result-cases (env.pod (placeholder_name t))) [
    | inr (pod, q) ↦ rw (q, reconcile_preparing) (use_pod-Checked pod q)
    | inl (e, q) ↦
        rw (q, reconcile_preparing)
          (if_split Checked (is_not_found e) _ _
            (λ _. early (create_pod env t s) (create_pod-Good NotHanded env s before refl t fit))
            (λ _. early (s, failed_with e) before))
  ]

  -- A run in Preparing, on a restore that is in neither of the two phases before, that leaves it in
  -- PreWarming or Restoring has found a running pod of
  -- the placeholder's name that this very restore controls and that is not terminating, and has
  -- stored that pod's name, UID and node.
  pub reconcile_preparing-IsHanded :
      is_handed (reconcile_preparing env t s).0.stored.status.phase ≡ true
      → IsHanded env t (reconcile_preparing env t s).0.stored
  reconcile_preparing-IsHanded h = reconcile_preparing-Checked h
