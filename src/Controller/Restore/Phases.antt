-- ===== src/Controller/Restore/Phases.antt =====
-- The diagram of the phases of a PodRestore, and that the manager keeps to it.
use pod_snapshotter.Base.{◌≡◌, true, false}
use pod_snapshotter.Api.Restore.{
  RestorePhase, unset, pending, prewarming, preparing, restoring, failed,
}
use pod_snapshotter.Controller.Restore.{RestoreEnv, State, Run, write}
use pod_snapshotter.Controller.Restore.Keeps.{
  write-Good, fail-Good, reconcile_pending-Good, reconcile_preparing-Good,
}
use pod_snapshotter.Controller.Snapshot.Pending.{is_not_found}
use pod_snapshotter.Api.Common.{ApiError}
use pod_snapshotter.Base.{
  subst, sym, ap, Option, none, some, Option-cases, Bool-cases, inl, inr, if_split, not, arith,
  refl, [],
}
use pod_snapshotter.Base.Bytes.{eqb}
use pod_snapshotter.Base.Result.{Result-cases, ok, ok-injective}
use pod_snapshotter.Api.Restore.{PodRestore}
use pod_snapshotter.Controller.Restore.Reconcile.{
  needs_teardown, is_overdue, by_phase, reconcile_held, with_finalizer, delete_pod,
  reconcile_delete, reconcile_found, reconcile, is_live,
}

-- The diagram of the manager's part.
pub data Moves : RestorePhase → RestorePhase → Type 0 where
  stay : {p : RestorePhase} → Moves p p
  begin : Moves unset pending
  warm : Moves pending prewarming
  place : Moves pending preparing
  warm_placed : Moves preparing prewarming
  hand : Moves preparing restoring
  give_up : {p : RestorePhase} → is_live p ≡ true → Moves p failed

abbrev phase_after : Run → RestorePhase
phase_after r = r.0.stored.status.phase

module _ (env : RestoreEnv) where
  by_phase-Moves :
      (p : RestorePhase) (t : PodRestore) (s : State)
      → t.status.phase ≡ p
      → s.stored.status.phase ≡ p
      → Moves p (phase_after (by_phase env p t s))
  unfolding by_phase
  by_phase-Moves unset t s same at =
      write-Good (Moves unset) env s (subst (Moves unset) (sym at) stay) (give_up refl) _ _ begin
  by_phase-Moves pending t s same at =
      reconcile_pending-Good (Moves pending) env s (subst (Moves pending) (sym at) stay)
        (give_up refl) t (subst (Moves pending) (sym same) stay) warm place
  by_phase-Moves preparing t s same at =
      reconcile_preparing-Good (Moves preparing) env s (subst (Moves preparing) (sym at) stay)
        (give_up refl) t (subst (Moves preparing) (sym same) stay) warm_placed hand
  by_phase-Moves prewarming t s same at = subst (Moves prewarming) (sym at) stay
  by_phase-Moves restoring t s same at = subst (Moves restoring) (sym at) stay
  by_phase-Moves _ t s same at = subst (Moves _) (sym at) stay

  -- Only a live phase is overdue.
  is_overdue-is_live : (t : PodRestore) → is_overdue env t ≡ true → is_live t.status.phase ≡ true
  unfolding is_overdue
  is_overdue-is_live t h = elim (Option-cases t.status.started_at) [
    | inl e ↦ absurd (cc (rw (e, is_overdue) at h))
    | inr (started, e) ↦ ground (arith, rw (e, is_overdue) at h)
  ]

  reconcile_held-Moves :
      (p : RestorePhase) (t : PodRestore) (s : State)
      → t.status.phase ≡ p
      → s.stored.status.phase ≡ p
      → Moves p (phase_after (reconcile_held env t s))
  unfolding reconcile_held
  reconcile_held-Moves p t s same at =
      if_split (λ (r : Run). Moves p (phase_after r)) (is_overdue env t) _ _
        (λ late.
          let live = subst (λ q. is_live q ≡ true) same (is_overdue-is_live t late) in
          fail-Good (Moves p) env s (subst (Moves p) (sym at) stay) (give_up live) t _)
        (λ _.
          subst (λ q. Moves p (phase_after (by_phase env q t s))) (sym same)
            (by_phase-Moves p t s same at))

  with_finalizer-Moves :
      (x : Option ApiError) (t : PodRestore) (s : State)
      → t.status.phase ≡ s.stored.status.phase
      → Moves s.stored.status.phase (phase_after (with_finalizer env x t s))
  unfolding with_finalizer
  with_finalizer-Moves (some e) t s same = stay
  with_finalizer-Moves none t s same =
      reconcile_held-Moves s.stored.status.phase t (record s { stored = t }) same same

  delete_pod_stored :
      (t : PodRestore) (s u : State)
      → delete_pod env t s ≡ ok u
      → u.stored.status.phase ≡ s.stored.status.phase
  unfolding delete_pod
  delete_pod_stored t s u h = elim (Bool-cases (eqb t.status.pod_name [])) [
    | inl b ↦ ap (λ v. v.stored.status.phase) (sym (ok-injective (rw (b, delete_pod) at h)))
    | inr b ↦ elim (Option-cases (env.refuse_delete t.status.pod_name)) [
      | inl e ↦ ap (λ v. v.stored.status.phase) (sym (ok-injective (rw (b, e, delete_pod) at h)))
      | inr (x, e) ↦ elim (Bool-cases (is_not_found x)) [
        | inl c ↦
            ap (λ v. v.stored.status.phase) (sym (ok-injective (rw (b, e, c, delete_pod) at h)))
        | inr c ↦ absurd (cc (rw (b, e, c, delete_pod) at h))
      ]
    ]
  ]

  reconcile_delete-Moves :
      (s : State) → Moves s.stored.status.phase (phase_after (reconcile_delete env s.stored s))
  unfolding reconcile_delete write
  reconcile_delete-Moves s =
      let Q = λ (r : Run). Moves s.stored.status.phase (phase_after r) in
      if_split Q (not s.stored.finalizer) _ _ (λ _. stay)
        (λ _.
          if_split Q (needs_teardown s.stored) _ _ (λ _. stay)
            (λ _. elim (Result-cases (delete_pod env s.stored s)) [
              | inl (e, q) ↦ rw q stay
              | inr (u, q) ↦
                  rw q (elim (Option-cases (env.refuse (record s.stored { finalizer = false }))) [
                    | inl a ↦ rw (a, write) stay
                    | inr (x, a) ↦
                        rw (a, write)
                          (subst (Moves s.stored.status.phase)
                            (sym (delete_pod_stored s.stored s u q)) stay)
                  ])
            ]))

  reconcile_found-Moves :
      (s : State) → Moves s.stored.status.phase (phase_after (reconcile_found env s))
  unfolding reconcile_found
  reconcile_found-Moves s =
      let Q = λ (r : Run). Moves s.stored.status.phase (phase_after r) in
      if_split Q s.stored.deleting _ _ (λ _. reconcile_delete-Moves s)
        (λ _.
          if_split Q (not s.stored.finalizer) _ _ (λ _. with_finalizer-Moves _ _ s refl)
            (λ _. reconcile_held-Moves s.stored.status.phase s.stored s refl refl))

  -- A run of Reconcile of a PodRestore, whatever the surroundings answer, leaves the stored phase as
  -- it was or moves it along one arrow of the diagram: Running and Failed are never left, and only a
  -- phase other than these two becomes Failed.
  pub restore-Moves : (s : State) → Moves s.stored.status.phase (phase_after (reconcile env s))
  unfolding reconcile
  restore-Moves s = elim (Option-cases env.lookup_error) [
    | inl e ↦ rw (e, reconcile) (reconcile_found-Moves s)
    | inr (x, e) ↦
        rw (e, reconcile)
          (if_split (λ (r : Run). Moves s.stored.status.phase (phase_after r)) (is_not_found x) _ _
            (λ _. stay) (λ _. stay))
  ]
