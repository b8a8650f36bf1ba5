-- ===== src/Controller/Snapshot/Pending/Laws.antt =====
-- What a run in the phase Pending can leave behind.
use mathlib.Core.Option.{none}
use pod_snapshotter.Base.{◌≡◌, none, Bool-cases, Option-cases, inl, subst, inr, Option, some, ltb}
use pod_snapshotter.Base.Result.{Result, ok, err, Result-cases, err-injective}
use pod_snapshotter.Api.Common.{Message, Pod, prereqs_annotation}
use pod_snapshotter.Api.Snapshot.{
  PodSnapshot, SnapshotPhase, failed, checkpointing, QuiesceStatus, quiescing,
}
use pod_snapshotter.Controller.Steps.{finish_bind}
use pod_snapshotter.Controller.Env.{Env, Outcome}
use pod_snapshotter.Controller.Snapshot.{Config, State, write, fail, condition, eqb, codes}
use pod_snapshotter.Controller.Snapshot.Pending.{
  Run, or_fail, target_pod, is_not_found, is_running, node_ready, reconcile_pending,
  reconcile_quiescing, start, resolve_container, text_of, snapshot_uri, resolve_quiesce,
}

-- What a state of the reconciler keeps, where storing an object of the right phase keeps it.
module _ (P : State → Type 0) (R : SnapshotPhase → Type 0)
    (stores : (s : State) (snap : PodSnapshot)
      → P s
      → R snap.status.phase
      → P (record s { stored = snap }))
    (env : Env PodSnapshot) (s : State) (before : P s) where
  pub write-phase :
      (snap : PodSnapshot) (o : Outcome) → R snap.status.phase → P (write env snap s o).0
  unfolding write
  write-phase snap o h = elim (Option-cases (env.refuse snap)) [
    | inl e ↦ rw e (stores s snap before h)
    | inr (x, e) ↦ rw e before
  ]

  pub fail-phase : (snap : PodSnapshot) (m : Message) → R failed → P (fail env snap m s).0
  unfolding fail
  fail-phase snap m h = write-phase _ _ (unfold condition in h)

module _ (P : State → Type 0) (R : SnapshotPhase → Type 0)
    (stores : (s : State) (snap : PodSnapshot)
      → P s
      → R snap.status.phase
      → P (record s { stored = snap }))
    (cfg : Config) (env : Env PodSnapshot) (s : State) (before : P s) (in_failed : R failed) where
  pub or_fail-phase {ℓ} :
      {A : Type ℓ} (snap : PodSnapshot) (x : Result Message A) (r : Run)
      → or_fail cfg env snap s x ≡ err r
      → P r.0
  unfolding or_fail
  or_fail-phase snap (ok a) r h = absurd (cc)
  or_fail-phase snap (err m) r h =
      subst (λ q. P q.0) (err-injective h) (fail-phase P R stores env s before snap m in_failed)

  pub target_pod-phase :
      (snap : PodSnapshot) (r : Run)
      → R snap.status.phase
      → target_pod cfg env snap s ≡ err r
      → P r.0
  unfolding target_pod
  target_pod-phase snap r p h = elim (Result-cases (env.pod snap.spec.pod_name)) [
    | inl (e, q) ↦ elim (Bool-cases (is_not_found e)) [
      | inl t ↦
          subst (λ r. P r.0) (err-injective (rw (q, t, target_pod) at h))
            (fail-phase P R stores env s before snap _ in_failed)
      | inr t ↦ subst (λ r. P r.0) (err-injective (rw (q, t, target_pod) at h)) before
    ]
    | inr (pod, q) ↦ elim (Bool-cases (is_running pod.phase)) [
      | inl t ↦ absurd (cc (rw (q, t, target_pod) at h))
      | inr t ↦
          subst (λ r. P r.0) (err-injective (rw (q, t, target_pod) at h))
            (write-phase P R stores env s before _ _ p)
    ]
  ]

  pub node_ready-phase :
      (snap : PodSnapshot) (pod : Pod) (r : Run)
      → R snap.status.phase
      → node_ready cfg env snap pod s ≡ err r
      → P r.0
  unfolding node_ready
  node_ready-phase snap pod r p h = elim (Bool-cases cfg.require_prereqs) [
    | inl c ↦ elim (Result-cases (env.node pod.node_name)) [
      | inl (e, q) ↦ subst (λ r. P r.0) (err-injective (rw (c, q, node_ready) at h)) before
      | inr (node, q) ↦ elim (Bool-cases (eqb (node.annotations prereqs_annotation) (codes "ok"))) [
        | inl t ↦ absurd (cc (rw (c, q, t, node_ready) at h))
        | inr t ↦
            subst (λ r. P r.0) (err-injective (rw (c, q, t, node_ready) at h))
              (write-phase P R stores env s before _ _ (unfold condition in p))
      ]
    ]
    | inr c ↦ absurd (cc (rw (c, node_ready) at h))
  ]

  start-phase :
      (snap : PodSnapshot) (q : Option QuiesceStatus)
      → R checkpointing
      → R quiescing
      → R (start snap q).status.phase
  unfolding start condition
  start-phase snap none c q = c
  start-phase snap (some x) c q = q

  -- A run in Pending leaves the object in the phase that it had, or in one of three others.
  pub reconcile_pending-phase :
      (snap : PodSnapshot)
      → R snap.status.phase
      → R checkpointing
      → R quiescing
      → P (reconcile_pending cfg env snap s).0
  unfolding reconcile_pending
  reconcile_pending-phase snap p c q =
      let Q = λ (r : Run). P r.0 in
      finish_bind Q (target_pod cfg env snap s) _ (λ r. target_pod-phase snap r p)
        (λ pod _.
          finish_bind Q (or_fail cfg env snap s (resolve_container snap.spec.container pod)) _
            (or_fail-phase snap _)
            (λ container _.
              finish_bind Q (node_ready cfg env snap pod s) _ (λ r. node_ready-phase snap pod r p)
                (λ _ _.
                  finish_bind Q
                    (or_fail cfg env _ s (text_of (snapshot_uri cfg env snap container))) _
                    (or_fail-phase _ _)
                    (λ uri _.
                      finish_bind Q
                        (or_fail cfg env _ s (resolve_quiesce env.parse_duration env.now pod)) _
                        (or_fail-phase _ _)
                        (λ quiesce _.
                          write-phase P R stores env s before _ _ (start-phase _ quiesce c q))))))

  -- A run in Quiescing leaves it, or fails it.
  pub reconcile_quiescing-phase : (snap : PodSnapshot) → P (reconcile_quiescing cfg env snap s).0
  unfolding reconcile_quiescing
  reconcile_quiescing-phase snap = elim (Option-cases snap.status.quiesce) [
    | inl e ↦ rw (e, reconcile_quiescing) before
    | inr (q, e) ↦ elim (Option-cases q.deadline) [
      | inl d ↦ rw (e, d, reconcile_quiescing) before
      | inr (deadline, d) ↦ elim (Bool-cases (ltb env.now deadline)) [
        | inl t ↦ rw (e, d, t, reconcile_quiescing) before
        | inr t ↦
            rw (e, d, t, reconcile_quiescing) (fail-phase P R stores env s before _ _ in_failed)
      ]
    ]
  ]
