-- ===== src/Controller/Build/Keeps.antt =====
-- What every handler of a SnapshotBuild keeps of the stored phase.
use pod_snapshotter.Base.{inl, inr, Option-cases, if_split, not, ◌&&◌, ◌||◌, [], Option, some, none}
use pod_snapshotter.Base.Result.{Result, ok, err, Result-cases}
use pod_snapshotter.Api.Build.{SnapshotBuild, BuildPhase, building, snapshotting, completed, failed}
use pod_snapshotter.Controller.Steps.{Wp, Wp-bind, Wp-finish}
use pod_snapshotter.Controller.Build.{
  Config, BuildEnv, State, Run, write, fail_build, condition, build_pod_name, build_snapshot_name,
}
use pod_snapshotter.Api.Common.{
  Message, ApiError, PodPhase, format1, pod_running, pod_pending, pod_unknown, pod_failed,
  pod_succeeded,
}
use pod_snapshotter.Controller.Build.Handlers.{
  build_pod_there, create_pod, create_snapshot, free_pod, or_fail, or_missing,
  reconcile_build_pending, reconcile_building, reconcile_snapshotting, runs_pod, snapshot_done,
  snapshot_there, Progress, after_pod, after_snapshot, begun, built, handed, own_pod, or_panic,
  is_controlled_by, new_snapshot, observed, progress_of, build_uri, finished, went_wrong, going_on,
}
use pod_snapshotter.Controller.Env.{Outcome, LivePod}
use pod_snapshotter.Api.Restore.{Container}
use pod_snapshotter.Api.Snapshot.{PodSnapshot, ArtifactStatus}
use pod_snapshotter.Controller.Builder.{build_builder_pod, build_container}
use pod_snapshotter.Controller.Snapshot.Pending.{is_not_found, text_of}
use pod_snapshotter.Base.Bytes.{eqb}

-- What the manager stores is of a phase that satisfies `M`, and the phase Failed does.
module _ (M : BuildPhase → Type 0) (env : BuildEnv) (in_failed : M failed) where
  abbrev pub Fit : SnapshotBuild → Type 0
  Fit b = M b.status.phase

  abbrev pub Kept : State → Type 0
  Kept s = Fit s.stored

  abbrev pub Good : Run → Type 0
  Good r = Kept r.0

  pub write-Good :
      (b : SnapshotBuild) (s : State) (o : Outcome) → Kept s → Fit b → Good (write env b s o)
  unfolding write
  write-Good b s o before h = elim (Option-cases (env.refuse b)) [
    | inl e ↦ rw e h
    | inr (x, e) ↦ rw e before
  ]

  pub fail-Good :
      (b : SnapshotBuild) (m : Message) (s : State) → Kept s → Good (fail_build env b m s)
  unfolding fail_build
  fail-Good b m s before = write-Good _ _ _ before (unfold condition in in_failed)

  or_fail-Wp {ℓ} :
      {A : Type ℓ} (G : A → Type 0) (b : SnapshotBuild) (s : State) (x : Result Message A)
      → Kept s
      → ((a : A) → G a)
      → Wp Good G (or_fail env b s x)
  unfolding or_fail
  or_fail-Wp G b s (ok a) k h = h a
  or_fail-Wp G b s (err m) k h = fail-Good b m s k

  pub or_missing-Wp {ℓ} :
      {A : Type ℓ} (G : A → Type 0) (b : SnapshotBuild) (s : State) (m : Message)
      (x : Result ApiError A)
      → Kept s
      → ((a : A) → G a)
      → Wp Good G (or_missing env b s m x)
  unfolding or_missing
  or_missing-Wp G b s m (ok a) k h = h a
  or_missing-Wp G b s m (err e) k h =
      if_split (Wp Good G) (is_not_found e) _ _ (λ _. fail-Good b m s k) (λ _. k)

  create_pod-Wp : (b : SnapshotBuild) (s : State) → Kept s → Wp Good Kept (create_pod env b s)
  unfolding create_pod after_pod
  create_pod-Wp b s k =
      Wp-bind Good (λ _. Kept s) Kept (or_fail env b s (build_builder_pod b (build_pod_name b))) _
        (or_fail-Wp (λ _. Kept s) b s _ k (λ _. k))
        (λ pod _. elim (Option-cases (env.refuse_pod pod)) [ inl e ↦ rw e k | inr (x, e) ↦ rw e k ])

  build_pod_there-Wp :
      (b : SnapshotBuild) (s : State) → Kept s → Fit b → Wp Good Kept (build_pod_there env b s)
  unfolding build_pod_there own_pod
  build_pod_there-Wp b s k f = elim (Result-cases (env.pod (build_pod_name b))) [
    | inr (pod, q) ↦
        rw (q, build_pod_there)
          (if_split (Wp Good Kept) (not (is_controlled_by pod b) || pod.terminating) _ _
            (λ _. write-Good _ _ _ k f) (λ _. k))
    | inl (e, q) ↦
        rw (q, build_pod_there)
          (if_split (Wp Good Kept) (is_not_found e) _ _ (λ _. create_pod-Wp b s k) (λ _. k))
  ]

  -- A run in Pending.
  pub reconcile_build_pending-Good :
      (cfg : Config) (b : SnapshotBuild) (s : State)
      → Kept s
      → Fit b
      → M building
      → Good (reconcile_build_pending env cfg b s)
  unfolding reconcile_build_pending begun condition
  reconcile_build_pending-Good cfg b s k f next = Wp-finish Good _ (
      Wp-bind Good (λ _. Kept s) Good (or_fail env b s (build_container b.spec)) _
        (or_fail-Wp (λ _. Kept s) b s _ k (λ _. k))
        (λ _ _.
          Wp-bind Good (λ _. Kept s) Good (or_fail env b s (text_of (build_uri cfg b))) _
            (or_fail-Wp (λ _. Kept s) b s _ k (λ _. k))
            (λ uri _.
              Wp-bind Good Kept Good (build_pod_there env b s) _ (build_pod_there-Wp b s k f)
                (λ t kept. write-Good _ _ _ kept next))))

  abbrev On : Unit {0} → Type 0
  On _ = Unit {0}

  runs_pod-Wp :
      (phase : PodPhase) (b : SnapshotBuild) (pod : LivePod) (s : State)
      → Kept s
      → Fit b
      → Wp Good On (runs_pod env phase b pod s)
  unfolding runs_pod
  runs_pod-Wp pod_running b pod s k f = tt
  runs_pod-Wp pod_pending b pod s k f = write-Good _ _ _ k f
  runs_pod-Wp pod_unknown b pod s k f = write-Good _ _ _ k f
  runs_pod-Wp pod_failed b pod s k f = fail-Good _ _ _ k
  runs_pod-Wp pod_succeeded b pod s k f = fail-Good _ _ _ k

  pub or_panic-Wp :
      (s : State) (x : Option ArtifactStatus) → Kept s → Wp Good (λ _. Kept s) (or_panic env s x)
  unfolding or_panic
  or_panic-Wp s none k = k
  or_panic-Wp s (some a) k = k

  create_snapshot-Wp :
      (b : SnapshotBuild) (pod : LivePod) (c : Container) (s : State)
      → Kept s
      → Wp Good Kept (create_snapshot env b pod c s)
  unfolding create_snapshot after_snapshot
  create_snapshot-Wp b pod c s k =
      Wp-bind Good (λ _. Kept s) Kept (or_panic env s b.status.artifact) _
        (or_panic-Wp s b.status.artifact k)
        (λ a _. elim (Option-cases (env.refuse_snapshot (new_snapshot b pod c a))) [
          | inl q ↦ rw q k
          | inr (x, q) ↦ rw q k
        ])

  snapshot_there-Wp :
      (b : SnapshotBuild) (pod : LivePod) (c : Container) (s : State)
      → Kept s
      → Wp Good Kept (snapshot_there env b pod c s)
  unfolding snapshot_there
  snapshot_there-Wp b pod c s k = elim (Result-cases (env.snapshot (build_snapshot_name b))) [
    | inr (snap, q) ↦ rw (q, snapshot_there) k
    | inl (e, q) ↦
        rw (q, snapshot_there)
          (if_split (Wp Good Kept) (is_not_found e) _ _ (λ _. create_snapshot-Wp b pod c s k)
            (λ _. k))
  ]

  -- A run in Building.
  pub reconcile_building-Good :
      (b : SnapshotBuild) (s : State)
      → Kept s
      → Fit b
      → M snapshotting
      → Good (reconcile_building env b s)
  unfolding reconcile_building handed
  reconcile_building-Good b s k f next = Wp-finish Good _ (
      Wp-bind Good (λ _. Kept s) Good
        (or_missing env b s (format1 "build pod %s disappeared" b.status.build_pod_name)
          (env.pod b.status.build_pod_name))
        _ (or_missing-Wp (λ _. Kept s) b s _ _ k (λ _. k))
        (λ pod _.
          Wp-bind Good On Good (runs_pod env pod.phase b pod s) _
            (runs_pod-Wp pod.phase b pod s k f)
            (λ _ _.
              Wp-bind Good (λ _. Kept s) Good
                (or_fail env (observed env b pod) s (build_container b.spec)) _
                (or_fail-Wp (λ _. Kept s) (observed env b pod) s _ k (λ _. k))
                (λ c _.
                  Wp-bind Good Kept Good (snapshot_there env (observed env b pod) pod c s) _
                    (snapshot_there-Wp (observed env b pod) pod c s k)
                    (λ t kept. write-Good _ _ _ kept next)))))

  pub snapshot_done-Wp :
      (p : Progress) (b : SnapshotBuild) (snap : PodSnapshot) (s : State)
      → Kept s
      → Fit b
      → Wp Good On (snapshot_done env p b snap s)
  unfolding snapshot_done
  snapshot_done-Wp finished b snap s k f = tt
  snapshot_done-Wp went_wrong b snap s k f = fail-Good _ _ _ k
  snapshot_done-Wp going_on b snap s k f = write-Good _ _ _ k f

  pub free_pod-Wp : (b : SnapshotBuild) (s : State) → Kept s → Wp Good Kept (free_pod env b s)
  unfolding free_pod
  free_pod-Wp b s k =
      if_split (Wp Good Kept) (not b.spec.keep_build_pod && not (eqb b.status.build_pod_name [])) _
        _
        (λ _. elim (Option-cases (env.refuse_delete b.status.build_pod_name)) [
          | inl e ↦ rw e k
          | inr (x, e) ↦ rw e (if_split (Wp Good Kept) (is_not_found x) _ _ (λ _. k) (λ _. k))
        ])
        (λ _. k)

  -- A run in Snapshotting.
  pub reconcile_snapshotting-Good :
      (b : SnapshotBuild) (s : State)
      → Kept s
      → Fit b
      → M completed
      → Good (reconcile_snapshotting env b s)
  unfolding reconcile_snapshotting built condition
  reconcile_snapshotting-Good b s k f next = Wp-finish Good _ (
      Wp-bind Good (λ _. Kept s) Good
        (or_missing env b s (format1 "PodSnapshot %s disappeared" b.status.snapshot_name)
          (env.snapshot b.status.snapshot_name))
        _ (or_missing-Wp (λ _. Kept s) b s _ _ k (λ _. k))
        (λ snap _.
          Wp-bind Good On Good (snapshot_done env (progress_of snap.status.phase) b snap s) _
            (snapshot_done-Wp (progress_of snap.status.phase) b snap s k f)
            (λ _ _. Wp-bind Good Kept Good (free_pod env b s) _ (free_pod-Wp b s k) (λ t kept.
              Wp-bind Good (λ _. Kept t) Good (or_panic env t snap.status.artifact) _
                (or_panic-Wp t snap.status.artifact kept) (λ a _. write-Good _ _ _ kept next)))))
