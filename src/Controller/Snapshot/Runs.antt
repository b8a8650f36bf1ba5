-- ===== src/Controller/Snapshot/Runs.antt =====
-- What every run that does not end in Pending or Quiescing keeps of the reconciler's state.
use mathlib.Core.Option.{none}
use pod_snapshotter.Controller.Snapshot.Pending.{Run}
use pod_snapshotter.Base.{◌≡◌, Option, some, Bool-cases, inl, inr, [], false, true, ◌∷◌, if_split}
use pod_snapshotter.Base.Bytes.{eqb}
use pod_snapshotter.Base.Result.{Result-cases}
use pod_snapshotter.Api.Common.{ApiError, same_message}
use pod_snapshotter.Api.Snapshot.{PodSnapshot, SnapshotPhase, failed}
use pod_snapshotter.Controller.Env.{Env}
use pod_snapshotter.Controller.Snapshot.{State, node_address, Call}
use pod_snapshotter.Controller.Snapshot.Pending.Laws.{write-phase, fail-phase}
use pod_snapshotter.Controller.Snapshot.Checkpointing.{
  not_held, let_go, try_again, Owner, agent, kubelet, kubelet_because, leave_to_agent, launch_call,
  report_reason, by_owner, release, agent_runs, by_deletion, Deletion,
}

module _ (P : State → Type 0) (R : SnapshotPhase → Type 0)
    (stores : (s : State) (snap : PodSnapshot)
      → P s
      → R snap.status.phase
      → P (record s { stored = snap }))
    (env : Env PodSnapshot)
    (launches : (s : State) (c : Call)
      → P s
      → s.inflight ≡ false
      → P (record s { inflight = true; calls = c ∷ s.calls }))
    (in_failed : R failed) where
  leave_to_agent-phase :
      (snap : PodSnapshot) (s : State) → R snap.status.phase → P s → P (leave_to_agent env snap s).0
  unfolding leave_to_agent
  leave_to_agent-phase snap s same before =
      elim (Bool-cases (same_message snap.status.message (agent_runs snap))) [
        | inl t ↦ rw (t, leave_to_agent) before
        | inr t ↦ rw (t, leave_to_agent) (write-phase P R stores env s before _ _ same)
      ]

  launch_call-phase : (snap : PodSnapshot) (s : State) → P s → P (launch_call env snap s).0
  unfolding launch_call
  launch_call-phase snap s before =
      if_split (λ (r : Run). P r.0) s.inflight _ _ (λ _. before)
        (λ t. elim (Result-cases (env.node_again snap.status.node_name)) [
          | inl (e, q) ↦ rw q before
          | inr (node, q) ↦ rw q (
              if_split (λ (r : Run). P r.0) (eqb (node_address node) []) _ _
                (λ _. fail-phase P R stores env s before _ _ in_failed)
                (λ _. launches s _ before t))
        ])

  report_reason-phase :
      (x : Option ApiError) (told : PodSnapshot) (s : State)
      → R told.status.phase
      → P s
      → P (report_reason x env told s).0
  unfolding report_reason
  report_reason-phase none told s same before =
      launch_call-phase told (record s { stored = told }) (stores s told before same)
  report_reason-phase (some e) told s same before = before

  pub by_owner-phase :
      (o : Owner) (snap : PodSnapshot) (s : State)
      → R snap.status.phase
      → P s
      → P (by_owner o env snap s).0
  unfolding by_owner
  by_owner-phase agent snap s same before = leave_to_agent-phase snap s same before
  by_owner-phase kubelet snap s same before = launch_call-phase snap s before
  by_owner-phase (kubelet_because why) snap s same before =
      elim (Bool-cases (same_message snap.status.message why)) [
        | inl t ↦ rw (t, by_owner) (launch_call-phase snap s before)
        | inr t ↦ rw (t, by_owner) (report_reason-phase _ _ s same before)
      ]

module _ (P : State → Type 0) (R : SnapshotPhase → Type 0)
    (stores : (s : State) (snap : PodSnapshot)
      → P s
      → R snap.status.phase
      → P (record s { stored = snap }))
    (env : Env PodSnapshot) where
  release-phase :
      (snap : PodSnapshot) (s : State) → R snap.status.phase → P s → P (release env snap s).0
  unfolding release
  release-phase snap s same before = write-phase P R stores env s before _ _ same

  pub by_deletion-phase :
      (d : Deletion) (snap : PodSnapshot) (s : State)
      → R snap.status.phase
      → P s
      → P (by_deletion d env snap s).0
  unfolding by_deletion
  by_deletion-phase not_held snap s same before = before
  by_deletion-phase try_again snap s same before = before
  by_deletion-phase let_go snap s same before = release-phase snap s same before
