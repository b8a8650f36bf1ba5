-- ===== src/Controller/Restore/Keeps.antt =====
-- What every run of the PodRestore reconciler keeps of the stored phase.
use pod_snapshotter.Base.{
  ◌∷◌, Option, none, some, Option-cases, inl, inr, if_split, not, ◌&&◌, [], ◌||◌,
}
use pod_snapshotter.Base.Bytes.{Bytes, eqb}
use pod_snapshotter.Base.Result.{Result, ok, err, Result-cases}
use pod_snapshotter.Artifact.Uri.{parse}
use pod_snapshotter.Api.Common.{
  pod_running, pod_failed, pod_pending, pod_succeeded, pod_unknown, condition_true, pod_pending,
  pod_succeeded, pod_unknown, ApiError, Message, PodPhase,
}
use pod_snapshotter.Api.Compat.{CompatibilityKey}
use pod_snapshotter.Api.Restore.{PodRestore, RestorePhase, prewarming, preparing, restoring, failed}
use pod_snapshotter.Controller.Env.{LivePod, Outcome}
use pod_snapshotter.Controller.Steps.{Wp, Wp-bind, Wp-finish}
use pod_snapshotter.Controller.Placeholder.{target_container, NewPod, build_placeholder_pod}
use pod_snapshotter.Controller.Snapshot.Pending.{is_not_found, text_of}
use pod_snapshotter.Controller.Restore.{
  RestoreEnv, State, Run, write, fail, condition, bool_or_true,
}
use pod_snapshotter.Controller.Restore.Pending.{
  or_fail, or_missing, or_wait, from_build, from_snapshot, from_refs, source_of, or_unavailable,
  stat_error, or_unfit, unfit, tuple_of, check_tuple, check_node_compatibility, prepare,
  with_artifact, reconcile_pending, completed_build, completed_snapshot,
}
use pod_snapshotter.Controller.Restore.Reconcile.{
  own_pod, runs_pod, hand_over, use_pod, after_create, create_pod, placeholder_name,
  is_controlled_by, reconcile_preparing,
}

-- What the manager stores is of a phase that satisfies `M`, and the phase Failed does.
module _ (M : RestorePhase → Type 0) (env : RestoreEnv) (s : State)
    (before : M s.stored.status.phase) (in_failed : M failed) where
  abbrev pub Good : Run → Type 0
  Good r = M r.0.stored.status.phase

  abbrev pub Fit : PodRestore → Type 0
  Fit t = M t.status.phase

  pub write-Good : (t : PodRestore) (o : Outcome) → Fit t → Good (write env t s o)
  unfolding write
  write-Good t o h = elim (Option-cases (env.refuse t)) [
    | inl e ↦ rw e h
    | inr (x, e) ↦ rw e before
  ]

  pub fail-Good : (t : PodRestore) (m : Message) → Good (fail env t m s)
  unfolding fail
  fail-Good t m = write-Good _ _ (unfold condition in in_failed)

  pub or_fail-Wp {ℓ} :
      {A : Type ℓ} (G : A → Type 0) (t : PodRestore) (x : Result Message A)
      → ((a : A) → G a)
      → Wp Good G (or_fail env t s x)
  unfolding or_fail
  or_fail-Wp G t (ok a) h = h a
  or_fail-Wp G t (err m) h = fail-Good t m

  or_missing-Wp {ℓ} :
      {A : Type ℓ} (G : A → Type 0) (t : PodRestore) (m : Message) (x : Result ApiError A)
      → ((a : A) → G a)
      → Wp Good G (or_missing env t s m x)
  unfolding or_missing
  or_missing-Wp G t m (ok a) h = h a
  or_missing-Wp G t m (err e) h =
      if_split (Wp Good G) (is_not_found e) _ _ (λ _. fail-Good t m) (λ _. before)

  or_wait-Wp {ℓ} :
      {A : Type ℓ} (G : A → Type 0) (t : PodRestore) (m : Message) (x : Option A)
      → Fit t
      → ((a : A) → G a)
      → Wp Good G (or_wait env t s m x)
  unfolding or_wait
  or_wait-Wp G t m (some a) f h = h a
  or_wait-Wp G t m none f h = write-Good _ _ f

  abbrev FitSource : PodRestore × Bytes → Type 0
  FitSource p = Fit p.0

  from_refs-Wp :
      (build snapshot : Option Bytes) (t : PodRestore)
      → Fit t
      → Wp Good FitSource (from_refs env build snapshot t s)
  unfolding from_refs from_build from_snapshot
  from_refs-Wp (some name) snapshot t f =
      Wp-bind Good (λ _. Fit t) FitSource (or_missing env t s _ (env.build name)) _
        (or_missing-Wp (λ _. Fit t) t _ (env.build name) (λ _. f))
        (λ build _.
          Wp-bind Good (λ _. Fit t) FitSource (or_wait env t s _ (completed_build build)) _
            (or_wait-Wp (λ _. Fit t) t _ (completed_build build) f (λ _. f)) (λ artifact _. f))
  from_refs-Wp none (some name) t f =
      Wp-bind Good (λ _. Fit t) FitSource (or_missing env t s _ (env.snapshot name)) _
        (or_missing-Wp (λ _. Fit t) t _ (env.snapshot name) (λ _. f))
        (λ snap _.
          Wp-bind Good (λ _. Fit t) FitSource (or_wait env t s _ (completed_snapshot snap)) _
            (or_wait-Wp (λ _. Fit t) t _ (completed_snapshot snap) f (λ _. f)) (λ artifact _. f))
  from_refs-Wp none none t f = fail-Good t _

  source_of-Wp : (t : PodRestore) → Fit t → Wp Good FitSource (source_of env t s)
  unfolding source_of
  source_of-Wp t f =
      if_split (Wp Good FitSource) (not (eqb t.spec.artifact_uri [])) _ _ (λ _. f)
        (λ _. from_refs-Wp t.spec.build_ref t.spec.snapshot_ref t f)

  abbrev On : Unit {0} → Type 0
  On _ = Unit {0}

  or_unavailable-Wp :
      (t : PodRestore) (x : Option Bytes) → Fit t → Wp Good On (or_unavailable env t s x)
  unfolding or_unavailable condition
  or_unavailable-Wp t none f = tt
  or_unavailable-Wp t (some text) f = write-Good _ _ f

  check_tuple-Wp :
      (x : Option CompatibilityKey) (t : PodRestore) (node : Bytes)
      → Wp Good On (check_tuple env x t s node)
  unfolding check_tuple tuple_of or_unfit
  check_tuple-Wp none t node = tt
  check_tuple-Wp (some want) t node =
      if_split (Wp Good On) (eqb node []) _ _ (λ _. tt)
        (λ _. elim (Result-cases (env.node_tuple node)) [
          | inl (e, q) ↦ rw q before
          | inr (raw, q) ↦ rw q (elim (Option-cases (unfit want raw)) [
            | inl u ↦ rw u tt
            | inr (why, u) ↦ rw u (fail-Good t _)
          ])
        ])

  pub check_node-Wp :
      (t : PodRestore) (node : Bytes) → Wp Good On (check_node_compatibility env t s node)
  unfolding check_node_compatibility
  check_node-Wp t node = check_tuple-Wp t.status.compatibility t node

  prepare-Fit : (t : PodRestore) → M prewarming → M preparing → Fit (prepare t)
  unfolding prepare
  prepare-Fit t w p =
      if_split Fit (not (eqb t.spec.node_name []) && bool_or_true t.spec.prewarm) _ _ (λ _. w)
        (λ _. p)

  -- A run in Pending.
  pub reconcile_pending-Good :
      (t : PodRestore) → Fit t → M prewarming → M preparing → Good (reconcile_pending env t s)
  unfolding reconcile_pending
  reconcile_pending-Good t f w p = Wp-finish Good _ (
      Wp-bind Good FitSource Good (source_of env t s) _ (source_of-Wp t f) (λ source g.
        Wp-bind Good (λ _. Fit source.0) Good (or_fail env source.0 s (text_of (parse source.1))) _
          (or_fail-Wp (λ _. Fit source.0) source.0 _ (λ _. g))
          (λ uri _.
            Wp-bind Good (λ _. Fit source.0) Good
              (or_fail env source.0 s (target_container source.0.spec)) _
              (or_fail-Wp (λ _. Fit source.0) source.0 _ (λ _. g))
              (λ _ _.
                Wp-bind Good On Good (or_unavailable env source.0 s (stat_error env uri)) _
                  (or_unavailable-Wp source.0 (stat_error env uri) g)
                  (λ _ _.
                    Wp-bind Good On Good _ _
                      (if_split (Wp Good On) (eqb (with_artifact source.0 uri).spec.node_name []) _
                        _ (λ _. tt) (λ _. check_node-Wp _ _))
                      (λ _ _. write-Good _ _ (prepare-Fit _ w p)))))))

  pub own_pod-Wp : (t : PodRestore) (pod : LivePod) → Fit t → Wp Good On (own_pod env t pod s)
  unfolding own_pod
  own_pod-Wp t pod f =
      if_split (Wp Good On) (not (is_controlled_by pod t) || pod.terminating) _ _
        (λ _. write-Good _ _ f) (λ _. tt)

  pub runs_pod-Wp :
      (phase : PodPhase) (t : PodRestore) (pod : LivePod)
      → Fit t
      → Wp Good On (runs_pod env phase t pod s)
  unfolding runs_pod
  runs_pod-Wp pod_running t pod f = tt
  runs_pod-Wp pod_failed t pod f = fail-Good t _
  runs_pod-Wp pod_pending t pod f = write-Good _ _ f
  runs_pod-Wp pod_succeeded t pod f = write-Good _ _ f
  runs_pod-Wp pod_unknown t pod f = write-Good _ _ f

  hand_over-Fit : (t : PodRestore) → M prewarming → M restoring → Fit (hand_over t)
  unfolding hand_over
  hand_over-Fit t w r =
      if_split Fit
        (bool_or_true t.spec.prewarm && not (condition_true t.status.conditions "PreWarmed")) _ _
        (λ _. w) (λ _. r)

  use_pod-Good :
      (t : PodRestore) (pod : LivePod)
      → Fit t
      → M prewarming
      → M restoring
      → Good (use_pod env t pod s)
  unfolding use_pod
  use_pod-Good t pod f w r = Wp-finish Good _ (
      Wp-bind Good On Good (own_pod env t pod s) _ (own_pod-Wp t pod f) (λ _ _.
        Wp-bind Good On Good (runs_pod env pod.phase t pod s) _ (runs_pod-Wp pod.phase t pod f)
          (λ _ _.
            Wp-bind Good On Good (check_node_compatibility env t s pod.node_name) _
              (check_node-Wp t pod.node_name) (λ _ _. write-Good _ _ (hand_over-Fit _ w r)))))

-- Creating the pod leaves the stored object as it was, or stores the same phase.
module _ (M : RestorePhase → Type 0) (env : RestoreEnv) (s : State)
    (before : M s.stored.status.phase) (in_failed : M failed) where
  after_create-Good :
      (x : Option ApiError) (t : PodRestore) (pod : NewPod)
      → M t.status.phase
      → Good M env s before in_failed (after_create env x t pod s)
  unfolding after_create condition
  after_create-Good (some e) t pod f = before
  after_create-Good none t pod f =
      write-Good M env (record s { created = pod ∷ s.created }) before in_failed _ _ f

  pub create_pod-Good :
      (t : PodRestore) → M t.status.phase → Good M env s before in_failed (create_pod env t s)
  unfolding create_pod
  create_pod-Good t f = Wp-finish (Good M env s before in_failed) _ (
      Wp-bind (Good M env s before in_failed) (λ _. M t.status.phase)
        (Good M env s before in_failed)
        (or_fail env t s (build_placeholder_pod env.digest t (placeholder_name t))) _
        (or_fail-Wp M env s before in_failed (λ _. M t.status.phase) t _ (λ _. f))
        (λ pod _. after_create-Good (env.refuse_pod pod) t pod f))

  -- A run in Preparing.
  pub reconcile_preparing-Good :
      (t : PodRestore)
      → M t.status.phase
      → M prewarming
      → M restoring
      → Good M env s before in_failed (reconcile_preparing env t s)
  unfolding reconcile_preparing
  reconcile_preparing-Good t f w r = elim (Result-cases (env.pod (placeholder_name t))) [
    | inr (pod, q) ↦ rw (q, reconcile_preparing) (use_pod-Good M env s before in_failed t pod f w r)
    | inl (e, q) ↦
        rw (q, reconcile_preparing)
          (if_split (Good M env s before in_failed) (is_not_found e) _ _ (λ _. create_pod-Good t f)
            (λ _. before))
  ]
