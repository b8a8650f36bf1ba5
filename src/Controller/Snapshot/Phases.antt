-- ===== src/Controller/Snapshot/Phases.antt =====
-- The diagram of the phases, and that the manager keeps to it.
use mathlib.Core.Option.{none}
use pod_snapshotter.Base.{
  ◌≡◌, refl, sym, Option, some, Option-cases, inl, inr, subst, not, ◌&&◌, if_split,
}
use pod_snapshotter.Base.Bytes.{eqb}
use pod_snapshotter.Api.Common.{ApiError}
use pod_snapshotter.Api.Snapshot.{
  PodSnapshot, SnapshotPhase, unset, pending, quiescing, checkpointing, checkpointed, failed,
  deletion_policy_delete,
}
use pod_snapshotter.Controller.Env.{Env}
use pod_snapshotter.Controller.Snapshot.{Config, State}
use pod_snapshotter.Controller.Snapshot.Pending.{Run, is_not_found}
use pod_snapshotter.Controller.Snapshot.Pending.Laws.{
  write-phase, reconcile_pending-phase, reconcile_quiescing-phase,
}
use pod_snapshotter.Controller.Snapshot.Runs.{by_owner-phase, by_deletion-phase}
use pod_snapshotter.Controller.Snapshot.Checkpointing.{
  agent_checkpoints, reconcile_checkpointing, reconcile_delete, by_phase, with_finalizer,
  reconcile_found, reconcile, deletion,
}

-- The phases that the manager may end as Failed.
pub data IsManaged : SnapshotPhase → Type 0 where
  in_pending : IsManaged pending
  in_quiescing : IsManaged quiescing
  in_checkpointing : IsManaged checkpointing

-- The diagram of the manager's part.
pub data Moves : SnapshotPhase → SnapshotPhase → Type 0 where
  stay : {p : SnapshotPhase} → Moves p p
  begin : Moves unset pending
  park : Moves pending quiescing
  dump : Moves pending checkpointing
  dumped : Moves checkpointing checkpointed
  give_up : {p : SnapshotPhase} → IsManaged p → Moves p failed

-- The phase that is stored after a run.
abbrev phase_after : Run → SnapshotPhase
phase_after r = r.0.stored.status.phase

abbrev At : SnapshotPhase → State → Type 0
At p s = Moves p s.stored.status.phase

keeps :
    (p : SnapshotPhase) (s : State) (snap : PodSnapshot)
    → At p s
    → Moves p snap.status.phase
    → At p (record s { stored = snap })
keeps p s snap h k = k

module _ (cfg : Config) (env : Env PodSnapshot) where
  -- A run of the switch, on an object that is in the stored phase.
  by_phase-Moves :
      (p : SnapshotPhase) (snap : PodSnapshot) (s : State)
      → snap.status.phase ≡ p
      → s.stored.status.phase ≡ p
      → Moves p (phase_after (by_phase p cfg env snap s))
  unfolding by_phase
  by_phase-Moves unset snap s same before =
      write-phase (At unset) (Moves unset) (keeps unset) env s
        (subst (Moves unset) (sym before) stay) _ _ begin
  by_phase-Moves pending snap s same before =
      reconcile_pending-phase (At pending) (Moves pending) (keeps pending) cfg env s
        (subst (Moves pending) (sym before) stay) (give_up in_pending) snap
        (subst (Moves pending) (sym same) stay) dump park
  by_phase-Moves quiescing snap s same before =
      reconcile_quiescing-phase (At quiescing) (Moves quiescing) (keeps quiescing) cfg env s
        (subst (Moves quiescing) (sym before) stay) (give_up in_quiescing) snap
  by_phase-Moves checkpointing snap s same before =
      unfold reconcile_checkpointing in
      by_owner-phase (At checkpointing) (Moves checkpointing) (keeps checkpointing) env
        (λ s c h _. h) (give_up in_checkpointing) (agent_checkpoints env snap) snap s
        (subst (Moves checkpointing) (sym same) stay)
        (subst (Moves checkpointing) (sym before) stay)
  by_phase-Moves _ snap s same before = subst (Moves _) (sym before) stay

  with_finalizer-Moves :
      (x : Option ApiError) (snap : PodSnapshot) (s : State)
      → snap.status.phase ≡ s.stored.status.phase
      → Moves s.stored.status.phase (phase_after (with_finalizer x cfg env snap s))
  unfolding with_finalizer
  with_finalizer-Moves (some e) snap s same = stay
  with_finalizer-Moves none snap s same =
      subst
        (λ p.
          Moves p
            (phase_after (by_phase snap.status.phase cfg env snap (record s { stored = snap }))))
        same (by_phase-Moves snap.status.phase snap (record s { stored = snap }) refl refl)

  reconcile_found-Moves :
      (s : State) → Moves s.stored.status.phase (phase_after (reconcile_found cfg env s))
  unfolding reconcile_found reconcile_delete
  reconcile_found-Moves s =
      let Q = λ (r : Run). Moves s.stored.status.phase (phase_after r) in
      if_split Q s.stored.deleting _ _
        (λ _.
          by_deletion-phase (At s.stored.status.phase) (Moves s.stored.status.phase)
            (keeps s.stored.status.phase) env (deletion cfg env s.stored) s.stored s stay stay)
        (λ _.
          if_split Q
            (eqb s.stored.spec.deletion_policy deletion_policy_delete && not s.stored.finalizer) _ _
            (λ _. with_finalizer-Moves _ _ s refl)
            (λ _. by_phase-Moves s.stored.status.phase s.stored s refl refl))

  -- A run of Reconcile, whatever the surroundings answer, leaves the stored phase as it was or
  -- moves it along one arrow of the diagram.
  pub reconcile-Moves :
      (s : State) → Moves s.stored.status.phase (phase_after (reconcile cfg env s))
  unfolding reconcile
  reconcile-Moves s = elim (Option-cases env.lookup_error) [
    | inl e ↦ rw (e, reconcile) (reconcile_found-Moves s)
    | inr (x, e) ↦
        rw (e, reconcile)
          (if_split (λ (r : Run). Moves s.stored.status.phase (phase_after r)) (is_not_found x) _ _
            (λ _. stay) (λ _. stay))
  ]
