-- ===== src/Controller/Restore/Teardown.antt =====
-- When the teardown finalizer of a PodRestore is released.
use mathlib.Core.Option.{none}
use pod_snapshotter.Base.{
  ◌≡◌, ◌⊎◌, refl, true, false, some, Bool-cases, inl, inr, ap, [], Option-cases, ◌∙◌, if_split, not,
  arith,
}
use pod_snapshotter.Base.Bytes.{eqb}
use pod_snapshotter.Base.Result.{ok, Result-cases}
use pod_snapshotter.Api.Common.{condition_true, ApiError, not_found}
use pod_snapshotter.Api.Restore.{PodRestore}
use pod_snapshotter.Controller.Snapshot.Pending.{is_not_found}
use pod_snapshotter.Controller.Restore.{RestoreEnv, State, Run}
use pod_snapshotter.Controller.Restore.Reconcile.{needs_teardown, delete_pod, reconcile_delete}

-- No container was restored, or the agent has said that it is torn down.
abbrev pub IsTornDown : PodRestore → Type 0
IsTornDown t =
    (eqb t.status.restored_container_id [] ≡ true)
    ⊎ (condition_true t.status.conditions "TornDown" ≡ true)

torn_down : (t : PodRestore) → needs_teardown t ≡ false → IsTornDown t
torn_down t h = elim (Bool-cases (eqb t.status.restored_container_id [])) [
  | inl e ↦ inl e
  | inr e ↦ inr (ground arith)
]

-- No placeholder pod is recorded, or its deletion was accepted, or it is not there.
abbrev pub IsPodGone : RestoreEnv → PodRestore → Type 0
IsPodGone env t =
    (eqb t.status.pod_name [] ≡ true)
    ⊎ ((env.refuse_delete t.status.pod_name ≡ none)
        ⊎ (env.refuse_delete t.status.pod_name ≡ some not_found))

module _ (env : RestoreEnv) where
  not_found_of : (e : ApiError) → is_not_found e ≡ true → e ≡ not_found
  not_found_of not_found h = refl
  not_found_of _ h = absurd (cc)

  delete_pod-IsPodGone :
      (t : PodRestore) (s u : State) → delete_pod env t s ≡ ok u → IsPodGone env t
  unfolding delete_pod
  delete_pod-IsPodGone t s u h = elim (Bool-cases (eqb t.status.pod_name [])) [
    | inl b ↦ inl b
    | inr b ↦ elim (Option-cases (env.refuse_delete t.status.pod_name)) [
      | inl e ↦ inr (inl e)
      | inr (x, e) ↦ elim (Bool-cases (is_not_found x)) [
        | inl c ↦ inr (inr (e ∙ ap some (not_found_of x c)))
        | inr c ↦ absurd (cc (rw (b, e, c, delete_pod) at h))
      ]
    ]
  ]

  abbrev Released : State → Run → Type 0
  Released s r = r.0.stored.finalizer ≡ false → IsTornDown s.stored × IsPodGone env s.stored

  reconcile_delete-Released :
      (s : State) → s.stored.finalizer ≡ true → Released s (reconcile_delete env s.stored s)
  unfolding reconcile_delete
  reconcile_delete-Released s held =
      if_split (Released s) (not s.stored.finalizer) _ _ (λ e h. absurd (ground arith))
        (λ _.
          if_split (Released s) (needs_teardown s.stored) _ _ (λ _ h. absurd (cc (held, h)))
            (λ n. elim (Result-cases (delete_pod env s.stored s)) [
              | inl (e, q) ↦ rw q (λ h. absurd (cc (held, h)))
              | inr (u, q) ↦ rw q (λ h. (torn_down s.stored n, delete_pod-IsPodGone s.stored s u q))
            ]))

  -- A deletion run that releases the held finalizer of a PodRestore finds no restored container, or the
  -- agent's word that it is torn down; and no placeholder pod is recorded in the status, or the
  -- deletion of the one that is recorded was accepted or found no such pod. (A pod that was created
  -- and then not recorded is not covered.)
  pub reconcile_delete-released :
      (s : State)
      → s.stored.finalizer ≡ true
      → (reconcile_delete env s.stored s).0.stored.finalizer ≡ false
      → IsTornDown s.stored × IsPodGone env s.stored
  reconcile_delete-released s held h = reconcile_delete-Released s held h
