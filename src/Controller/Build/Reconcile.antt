-- ===== src/Controller/Build/Reconcile.antt =====
-- reconcileDelete and Reconcile of snapshotbuild_controller.go.
use pod_snapshotter.Base.Result.{ok, err}
use pod_snapshotter.Base.{
  true, Bool, ℕ, false, Option, if◌then◌else◌, ◌*◌, not, ◌^◌, some, none, [], ◌&&◌, ltb, ◌+◌,
}
use pod_snapshotter.Api.Build.{
  SnapshotBuild, BuildPhase, unset, pending, building, snapshotting, completed, failed,
  build_phase_text,
}
use pod_snapshotter.Controller.Build.{Config, BuildEnv, State, Run, fail_build, write, with_status}
use pod_snapshotter.Base.Int.{positive_or}
use pod_snapshotter.Api.Common.{ApiError, format_duration}
use pod_snapshotter.Base.Bytes.{eqb}
use pod_snapshotter.Controller.Env.{done, failed_with, requeue_after}
use pod_snapshotter.Api.Snapshot.{deletion_policy_delete}
use pod_snapshotter.Controller.Snapshot.Pending.{is_not_found}
use pod_snapshotter.Controller.Build.Handlers.{
  reconcile_build_pending, reconcile_building, reconcile_snapshotting,
}
use pod_snapshotter.Artifact.Uri.{parse}

-- Neither Completed nor Failed.
abbrev pub is_live : BuildPhase → Bool
is_live completed = false
is_live failed = false
is_live _ = true

unfoldable pub timeout_of : SnapshotBuild → ℕ
timeout_of build = positive_or 1800 build.spec.timeout_seconds * 10 ^ 9

module _ (cfg : Config) (env : BuildEnv) where
  -- Whether the artifact is to be deleted, and cannot be now.
  unfoldable pub keeps_artifact : SnapshotBuild → Bool
  keeps_artifact build =
      if not (eqb build.spec.deletion_policy deletion_policy_delete)
      then false
      else elim build.status.artifact [
        | none ↦ false
        | some a ↦ if eqb a.uri [] then false else elim (parse a.uri) [
          | err e ↦ false
          | ok uri ↦ cfg.has_deleter && not (env.delete_artifact uri)
        ]
      ]

  -- reconcileDelete
  unfoldable pub reconcile_delete : SnapshotBuild → State → Run
  reconcile_delete build s =
      if not build.finalizer
      then (s, done)
      else if keeps_artifact build
      then (s, requeue_after 15)
      else write env (record build { finalizer = false }) s done

  -- The deadline check.
  unfoldable pub is_overdue : SnapshotBuild → Bool
  is_overdue build = elim build.status.started_at [
    | none ↦ false
    | some started ↦ is_live build.status.phase && ltb (started + timeout_of build) env.now
  ]

  -- The switch of Reconcile.
  unfoldable pub by_phase : BuildPhase → SnapshotBuild → State → Run
  by_phase unset build s =
      write env
        (with_status build (record build.status { phase = pending; started_at = some env.now })) s
        done
  by_phase pending build s = reconcile_build_pending env cfg build s
  by_phase building build s = reconcile_building env build s
  by_phase snapshotting build s = reconcile_snapshotting env build s
  by_phase _ build s = (s, done)

  unfoldable pub reconcile_held : SnapshotBuild → State → Run
  reconcile_held build s =
      if is_overdue build
      then fail_build env build
          (format_duration "build timed out after %s in phase %s" (timeout_of build)
            (build_phase_text build.status.phase))
          s
      else by_phase build.status.phase build s

  unfoldable pub with_finalizer : Option ApiError → SnapshotBuild → State → Run
  with_finalizer (some e) build s = (s, failed_with e)
  with_finalizer none build s = reconcile_held build (record s { stored = build })

  unfoldable pub reconcile_found : State → Run
  reconcile_found s =
      let build = s.stored in
      if build.deleting
      then reconcile_delete build s
      else if not build.finalizer
      then (let held = record build { finalizer = true } in with_finalizer (env.refuse held) held s)
      else reconcile_held build s

  -- Reconcile
  unfoldable pub reconcile : State → Run
  reconcile s = elim env.lookup_error [
    | some e ↦ if is_not_found e then (s, done) else (s, failed_with e)
    | none ↦ reconcile_found s
  ]
