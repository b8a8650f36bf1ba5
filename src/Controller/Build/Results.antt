-- ===== src/Controller/Build/Results.antt =====
-- What a SnapshotBuild that becomes Completed rests on.
use pod_snapshotter.Base.{
  refl, none, true, false, Bool, ◌≡◌, Option, ◌⊎◌, some, [], ap, Bool-cases, inl, inr, Option-cases,
  if_split, not, subst, sym, ◌&&◌, arith,
}
use pod_snapshotter.Base.Result.{ok, err, Result, ok-injective}
use pod_snapshotter.Api.Build.{SnapshotBuild, BuildPhase, completed}
use pod_snapshotter.Controller.Steps.{Wp, Wp-step, Wp-early, Wp-finish, Wp-ok}
use pod_snapshotter.Controller.Build.{BuildEnv, State, Run, write, condition}
use pod_snapshotter.Controller.Build.Handlers.{
  progress_of, snapshot_done, finished, Progress, free_pod, or_missing, or_panic, went_wrong,
  going_on, built, reconcile_snapshotting,
}
use pod_snapshotter.Api.Snapshot.{PodSnapshot, SnapshotPhase, ArtifactStatus}
use pod_snapshotter.Api.Common.{conflict, unavailable, Message, ApiError, not_found}
use pod_snapshotter.Base.Bytes.{eqb}
use pod_snapshotter.Controller.Snapshot.Pending.{is_not_found}
use pod_snapshotter.Controller.Env.{done}
use pod_snapshotter.Controller.Build.Keeps.{
  Good, or_missing-Wp, snapshot_done-Wp, Kept, free_pod-Wp, or_panic-Wp,
}

abbrev pub is_completed : BuildPhase → Bool
is_completed completed = true
is_completed _ = false

-- The build pod is kept, or none is recorded, or its deletion was accepted, or it is not there.
abbrev pub IsFreed : BuildEnv → SnapshotBuild → Type 0
IsFreed env b =
    (b.spec.keep_build_pod ≡ true)
    ⊎ ((eqb b.status.build_pod_name [] ≡ true)
        ⊎ ((env.refuse_delete b.status.build_pod_name ≡ none)
            ⊎ (env.refuse_delete b.status.build_pod_name ≡ some not_found)))

pub record IsBuilt (env : BuildEnv) (b after : SnapshotBuild) : Type 0 where
  pub snap : PodSnapshot
  pub artifact : ArtifactStatus
  pub snap_found : env.snapshot b.status.snapshot_name ≡ ok snap
  pub snap_done : snap.status.phase ≡ SnapshotPhase.completed
  pub snap_artifact : snap.status.artifact ≡ some artifact
  pub recorded : after.status.artifact ≡ some artifact
  pub freed : IsFreed env b

finished_lem : (p : SnapshotPhase) → progress_of p ≡ finished → p ≡ SnapshotPhase.completed
unfolding progress_of
finished_lem SnapshotPhase.completed h = refl
finished_lem SnapshotPhase.failed h = absurd (cc)
finished_lem SnapshotPhase.unset h = absurd (cc)
finished_lem SnapshotPhase.pending h = absurd (cc)
finished_lem SnapshotPhase.quiescing h = absurd (cc)
finished_lem SnapshotPhase.checkpointing h = absurd (cc)
finished_lem SnapshotPhase.checkpointed h = absurd (cc)
finished_lem SnapshotPhase.uploading h = absurd (cc)
finished_lem (SnapshotPhase.other_phase t) h = absurd (cc)

abbrev Incomplete : BuildPhase → Type 0
Incomplete p = is_completed p ≡ false

module _ (env : BuildEnv) (b : SnapshotBuild) (s : State)
    (before : Incomplete s.stored.status.phase) (fit : Incomplete b.status.phase) where
  abbrev Checked : Run → Type 0
  Checked r = is_completed r.0.stored.status.phase ≡ true → IsBuilt env b r.0.stored

  early : (r : Run) → Incomplete r.0.stored.status.phase → Checked r
  early r h full = absurd (cc (h, full))

  finished_of_step :
      (p : Progress) (snap : PodSnapshot) → snapshot_done env p b snap s ≡ ok tt → p ≡ finished
  unfolding snapshot_done
  finished_of_step finished snap h = refl
  finished_of_step went_wrong snap h = absurd (cc)
  finished_of_step going_on snap h = absurd (cc)

  missing_of_step {ℓ} :
      {A : Type ℓ} (m : Message) (x : Result ApiError A) (a : A)
      → or_missing env b s m x ≡ ok a
      → x ≡ ok a
  unfolding or_missing
  missing_of_step m (ok c) a h = ap ok (ok-injective h)
  missing_of_step m (err e) a h = elim (Bool-cases (is_not_found e)) [
    | inl q ↦ absurd (cc (rw (q, or_missing) at h))
    | inr q ↦ absurd (cc (rw (q, or_missing) at h))
  ]

  panic_of_step :
      (t : State) (x : Option ArtifactStatus) (a : ArtifactStatus)
      → or_panic env t x ≡ ok a
      → x ≡ some a
  unfolding or_panic
  panic_of_step t (some c) a h = ap some (ok-injective h)
  panic_of_step t none a h = absurd (cc)

  abbrev Freed : State → Type 0
  Freed t = IsFreed env b × (t.stored ≡ s.stored)

  abbrev Anyhow : Run → Type 0
  Anyhow r = Unit {0}

  not_wanted :
      (not b.spec.keep_build_pod && not (eqb b.status.build_pod_name [])) ≡ false → IsFreed env b
  not_wanted h = elim (Bool-cases b.spec.keep_build_pod) [
    | inl k ↦ inl k
    | inr k ↦ elim (Bool-cases (eqb b.status.build_pod_name [])) [
      | inl n ↦ inr (inl n)
      | inr n ↦ absurd (ground arith)
    ]
  ]

  free_pod-Freed : Wp Anyhow Freed (free_pod env b s)
  unfolding free_pod
  free_pod-Freed =
      if_split (Wp Anyhow Freed) (not b.spec.keep_build_pod && not (eqb b.status.build_pod_name []))
        _ _
        (λ _. elim (Option-cases (env.refuse_delete b.status.build_pod_name)) [
          | inl e ↦ rw e (inr (inr (inl e)), refl)
          | inr (not_found, e) ↦ rw e (inr (inr (inr e)), refl)
          | inr (conflict, e) ↦ rw e tt
          | inr (unavailable, e) ↦ rw e tt
        ])
        (λ off. (not_wanted off, refl))

  stored_lem :
      (snap : PodSnapshot) (a : ArtifactStatus) (t : State)
      → env.snapshot b.status.snapshot_name ≡ ok snap
      → snap.status.phase ≡ SnapshotPhase.completed
      → snap.status.artifact ≡ some a
      → Freed t
      → Checked (write env (built env b a) t done)
  unfolding write built condition
  stored_lem snap a t found over has freed = elim (Option-cases (env.refuse (built env b a))) [
    | inr (e, x) ↦
        rw x (early (t, done) (subst (λ u. Incomplete u.status.phase) (sym freed.1) before))
    | inl x ↦ rw x (λ _. record {
      snap = snap;
      artifact = a;
      snap_found = found;
      snap_done = over;
      snap_artifact = has;
      recorded = refl;
      freed = freed.0;
    })
  ]

  reconcile_snapshotting-Checked : Checked (reconcile_snapshotting env b s)
  unfolding reconcile_snapshotting
  reconcile_snapshotting-Checked =
      let G = Good Incomplete env refl in
      Wp-finish Checked _ (
        Wp-step Checked Checked (or_missing env b s _ (env.snapshot b.status.snapshot_name)) _
          (λ r e. early r (
            Wp-early G (λ _. Unit {0}) _
              (or_missing-Wp Incomplete env refl (λ _. Unit {0}) b s _
                (env.snapshot b.status.snapshot_name) before (λ _. tt))
              r e))
          (λ snap found.
            Wp-step Checked Checked (snapshot_done env (progress_of snap.status.phase) b snap s) _
              (λ r e. early r (
                Wp-early G (λ _. Unit {0}) _
                  (snapshot_done-Wp Incomplete env refl (progress_of snap.status.phase) b snap s
                    before fit)
                  r e))
              (λ _ over.
                Wp-step Checked Checked (free_pod env b s) _
                  (λ r e. early r (
                    Wp-early G (Kept Incomplete env refl) _
                      (free_pod-Wp Incomplete env refl b s before) r e))
                  (λ t freed.
                    let facts = Wp-ok Anyhow Freed (free_pod env b s) free_pod-Freed t freed in
                    Wp-step Checked Checked (or_panic env t snap.status.artifact) _
                      (λ r e. early r (
                        Wp-early G (λ _. Kept Incomplete env refl t) _
                          (or_panic-Wp Incomplete env refl t snap.status.artifact
                            (subst (λ u. Incomplete u.status.phase) (sym facts.1) before))
                          r e))
                      (λ a has.
                        stored_lem snap a t (missing_of_step _ _ snap found)
                          (finished_lem snap.status.phase (finished_of_step _ snap over))
                          (panic_of_step t snap.status.artifact a has) facts)))))

  -- A run in Snapshotting, on a build that is not Completed before, that leaves it in Completed has
  -- found the build's snapshot Completed with an artifact, has stored that very artifact, and has
  -- freed the build pod: unless it is kept, none is recorded, or the server accepted its deletion, or
  -- does not have it.
  pub reconcile_snapshotting-IsBuilt :
      is_completed (reconcile_snapshotting env b s).0.stored.status.phase ≡ true
      → IsBuilt env b (reconcile_snapshotting env b s).0.stored
  reconcile_snapshotting-IsBuilt h = reconcile_snapshotting-Checked h
