-- ===== src/Controller/Build/Phases.antt =====
-- The diagram of the phases of a SnapshotBuild, and that the manager keeps to it.
use pod_snapshotter.Base.{
  refl, none, Option, Option-cases, if_split, ◌≡◌, inl, not, subst, true, false, inr, some, sym,
  arith,
}
use pod_snapshotter.Api.Build.{
  SnapshotBuild, BuildPhase, unset, pending, building, snapshotting, completed, failed,
}
use pod_snapshotter.Controller.Build.{Config, BuildEnv, State, Run, write}
use pod_snapshotter.Controller.Build.Reconcile.{
  is_live, is_overdue, by_phase, reconcile_held, with_finalizer, reconcile_delete, reconcile_found,
  reconcile, keeps_artifact,
}
use pod_snapshotter.Controller.Build.Keeps.{
  write-Good, fail-Good, reconcile_build_pending-Good, reconcile_building-Good,
  reconcile_snapshotting-Good,
}
use pod_snapshotter.Api.Common.{ApiError}
use pod_snapshotter.Controller.Snapshot.Pending.{is_not_found}

-- The diagram.
pub data Moves : BuildPhase → BuildPhase → Type 0 where
  stay : {p : BuildPhase} → Moves p p
  begin : Moves unset pending
  build : Moves pending building
  dump : Moves building snapshotting
  publish : Moves snapshotting completed
  give_up : {p : BuildPhase} → is_live p ≡ true → Moves p failed

abbrev phase_after : Run → BuildPhase
phase_after r = r.0.stored.status.phase

module _ (cfg : Config) (env : BuildEnv) where
  by_phase-Moves :
      (p : BuildPhase) (b : SnapshotBuild) (s : State)
      → b.status.phase ≡ p
      → s.stored.status.phase ≡ p
      → Moves p (phase_after (by_phase cfg env p b s))
  unfolding by_phase
  by_phase-Moves unset b s same at =
      write-Good (Moves unset) env (give_up refl) _ s _ (subst (Moves unset) (sym at) stay) begin
  by_phase-Moves pending b s same at =
      reconcile_build_pending-Good (Moves pending) env (give_up refl) cfg b s
        (subst (Moves pending) (sym at) stay) (subst (Moves pending) (sym same) stay) build
  by_phase-Moves building b s same at =
      reconcile_building-Good (Moves building) env (give_up refl) b s
        (subst (Moves building) (sym at) stay) (subst (Moves building) (sym same) stay) dump
  by_phase-Moves snapshotting b s same at =
      reconcile_snapshotting-Good (Moves snapshotting) env (give_up refl) b s
        (subst (Moves snapshotting) (sym at) stay) (subst (Moves snapshotting) (sym same) stay)
        publish
  by_phase-Moves _ b s same at = subst (Moves _) (sym at) stay

  -- Only a live phase is overdue.
  is_overdue-is_live :
      (b : SnapshotBuild) → is_overdue cfg env b ≡ true → is_live b.status.phase ≡ true
  unfolding is_overdue
  is_overdue-is_live b h = elim (Option-cases b.status.started_at) [
    | inl e ↦ absurd (cc (rw (e, is_overdue) at h))
    | inr (started, e) ↦ ground (arith, rw (e, is_overdue) at h)
  ]

  reconcile_held-Moves :
      (p : BuildPhase) (b : SnapshotBuild) (s : State)
      → b.status.phase ≡ p
      → s.stored.status.phase ≡ p
      → Moves p (phase_after (reconcile_held cfg env b s))
  unfolding reconcile_held
  reconcile_held-Moves p b s same at =
      if_split (λ (r : Run). Moves p (phase_after r)) (is_overdue cfg env b) _ _
        (λ late.
          let live = subst (λ q. is_live q ≡ true) same (is_overdue-is_live b late) in
          fail-Good (Moves p) env (give_up live) b _ s (subst (Moves p) (sym at) stay))
        (λ _.
          subst (λ q. Moves p (phase_after (by_phase cfg env q b s))) (sym same)
            (by_phase-Moves p b s same at))

  with_finalizer-Moves :
      (x : Option ApiError) (b : SnapshotBuild) (s : State)
      → b.status.phase ≡ s.stored.status.phase
      → Moves s.stored.status.phase (phase_after (with_finalizer cfg env x b s))
  unfolding with_finalizer
  with_finalizer-Moves (some e) b s same = stay
  with_finalizer-Moves none b s same =
      reconcile_held-Moves s.stored.status.phase b (record s { stored = b }) same same

  reconcile_delete-Moves :
      (s : State) → Moves s.stored.status.phase (phase_after (reconcile_delete cfg env s.stored s))
  unfolding reconcile_delete write
  reconcile_delete-Moves s =
      let Q = λ (r : Run). Moves s.stored.status.phase (phase_after r) in
      if_split Q (not s.stored.finalizer) _ _ (λ _. stay)
        (λ _.
          if_split Q (keeps_artifact cfg env s.stored) _ _ (λ _. stay)
            (λ _. elim (Option-cases (env.refuse (record s.stored { finalizer = false }))) [
              | inl a ↦ rw a stay
              | inr (x, a) ↦ rw a stay
            ]))

  reconcile_found-Moves :
      (s : State) → Moves s.stored.status.phase (phase_after (reconcile_found cfg env s))
  unfolding reconcile_found
  reconcile_found-Moves s =
      let Q = λ (r : Run). Moves s.stored.status.phase (phase_after r) in
      if_split Q s.stored.deleting _ _ (λ _. reconcile_delete-Moves s)
        (λ _.
          if_split Q (not s.stored.finalizer) _ _ (λ _. with_finalizer-Moves _ _ s refl)
            (λ _. reconcile_held-Moves s.stored.status.phase s.stored s refl refl))

  -- A run of Reconcile of a SnapshotBuild, whatever the surroundings answer, leaves the stored phase
  -- as it was or moves it along one arrow of the diagram: Completed and Failed are never left, and
  -- only a phase other than these two becomes Failed.
  pub build-Moves : (s : State) → Moves s.stored.status.phase (phase_after (reconcile cfg env s))
  unfolding reconcile
  build-Moves s = elim (Option-cases env.lookup_error) [
    | inl e ↦ rw (e, reconcile) (reconcile_found-Moves s)
    | inr (x, e) ↦
        rw (e, reconcile)
          (if_split (λ (r : Run). Moves s.stored.status.phase (phase_after r)) (is_not_found x) _ _
            (λ _. stay) (λ _. stay))
  ]
