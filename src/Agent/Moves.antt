-- ===== src/Agent/Moves.antt =====
-- How the agents that wait and upload move the phase of a PodSnapshot.
use pod_snapshotter.Base.{◌≡◌, refl, sym, subst, Option, none, some, true, if_split, [], arith, ℕ}
use pod_snapshotter.Base.Bytes.{eqb}
use pod_snapshotter.Base.Int.{not_positive}
use pod_snapshotter.Base.Result.{Result, ok, err}
use pod_snapshotter.Api.Common.{ApiError}
use pod_snapshotter.Api.Snapshot.{
  PodSnapshot, SnapshotPhase, quiescing, checkpointing, QuiesceStatus,
}
use pod_snapshotter.Controller.Env.{Outcome, done}
use pod_snapshotter.Os.{◌>>=◌, Op, Answer, Prog, update, Sandbox, dump, get}
use pod_snapshotter.Os.Laws.{last_read, Traced-bind, Traced-or_else, Sent, Ends, Writes}
use pod_snapshotter.Os.Quiet.{OnFiles, Quiet, Traced-Quiet}
use pod_snapshotter.Agent.Config.{AgentConfig, update_then}
use pod_snapshotter.Controller.Snapshot.{condition}
use pod_snapshotter.Agent.Quiesce

keeps_read : (o : Op) (r : Answer o) (s : Option PodSnapshot) → OnFiles o → last_read o r s ≡ s
keeps_read get r s h = absurd h
keeps_read (update snap) r s h = absurd h
keeps_read (dump opts) r s h = absurd h
keeps_read _ r s h = refl

module _ (M : PodSnapshot → PodSnapshot → Type 0) where
  sends_nothing : (o : Op) (s : Option PodSnapshot) → OnFiles o → Sent M o s
  sends_nothing get s h = absurd h
  sends_nothing (update snap) s h = absurd h
  sends_nothing (dump opts) s h = absurd h
  sends_nothing _ s h = tt

  -- A program on files, and then the rest.
  pub Writes-Quiet {ℓ κ} :
      {A : Type ℓ} {B : Type κ} (last : Option PodSnapshot) (p : Prog A) (f : A → Prog B)
      → Quiet p
      → ((a : A) → Writes M last (f a))
      → Writes M last (p >>= f)
  Writes-Quiet last p f h n =
      Traced-bind last_read (Sent M) last (λ t _. t ≡ last) Ends p f
        (Traced-Quiet last_read (Sent M) keeps_read sends_nothing last p h)
        (λ t a e. subst (λ u. Writes M u (f a)) (sym e) (n a))

  -- One update, which is a move.
  pub Writes-update :
      (read snap : PodSnapshot) (outcome : Outcome)
      → M read snap
      → Writes M (some read) (update_then snap outcome)
  Writes-update read snap outcome m = (m, λ r. tt)

-- The workload is ready: the only move of the quiesce agent.
pub data QuiesceMoves : SnapshotPhase → SnapshotPhase → Type 0 where
  ready : QuiesceMoves quiescing checkpointing

abbrev pub OnPhases : (SnapshotPhase → SnapshotPhase → Type 0) → PodSnapshot → PodSnapshot → Type 0
OnPhases M read snap = M read.status.phase snap.status.phase

quiesced-phase :
    (t : ℕ) (q : QuiesceStatus) (snap : PodSnapshot)
    → (Quiesce.quiesced t q snap).status.phase ≡ checkpointing
unfolding Quiesce.quiesced condition
quiesced-phase t q snap = refl

is_quiescing_iff : (p : SnapshotPhase) → Quiesce.is_quiescing p ≡ true → p ≡ quiescing
is_quiescing_iff quiescing h = refl
is_quiescing_iff _ h = absurd (cc h)

owned :
    (cfg : AgentConfig) (snap : PodSnapshot)
    → Quiesce.owns cfg snap ≡ true
    → snap.status.phase ≡ quiescing
unfolding Quiesce.owns
owned cfg snap h = is_quiescing_iff snap.status.phase (ground arith)

module _ (snap : PodSnapshot) (phase : snap.status.phase ≡ quiescing) where
  abbrev Sends : Prog Outcome → Type 0
  Sends p = Writes (OnPhases QuiesceMoves) (some snap) p

  ready-Writes : (q : QuiesceStatus) (t : ℕ) → Sends (update_then (Quiesce.quiesced t q snap) done)
  ready-Writes q t = Writes-update (OnPhases QuiesceMoves) snap (Quiesce.quiesced t q snap) done (
      subst (λ p. QuiesceMoves p (Quiesce.quiesced t q snap).status.phase) (sym phase)
        (subst (QuiesceMoves quiescing) (sym (quiesced-phase t q snap)) ready))

  look-Writes : (q : QuiesceStatus) (sandbox : Sandbox) → Sends (Quiesce.look q snap sandbox)
  unfolding Quiesce.look
  look-Writes q sandbox =
      if_split Sends (not_positive sandbox.keeper_pid) _ _ (λ _. tt)
        (λ _. (
          tt,
          λ r.
              Traced-or_else last_read (Sent (OnPhases QuiesceMoves)) (some snap) Ends r _ _
                (λ _ _. tt) (λ _ _. (tt, λ t. ready-Writes q t)),
        ))

  wait_if-Writes : (q : Option QuiesceStatus) → Sends (Quiesce.wait_if q snap)
  unfolding Quiesce.wait_if Quiesce.wait Quiesce.find
  wait_if-Writes none = tt
  wait_if-Writes (some q) =
      if_split Sends (eqb q.dir []) _ _ (λ _. tt)
        (λ _. (
          tt,
          λ t.
              if_split Sends (Quiesce.is_past t q.deadline) _ _ (λ _. tt)
                (λ _. (
                  tt,
                  λ r.
                      Traced-or_else last_read (Sent (OnPhases QuiesceMoves)) (some snap) Ends r _ _
                        (λ _ _. tt) (λ sandbox _. look-Writes q sandbox),
                )),
        ))

found_quiescing :
    (cfg : AgentConfig) (r : Result ApiError PodSnapshot)
    → Writes (OnPhases QuiesceMoves) (last_read get r none) (Quiesce.reconcile_read cfg r)
unfolding Quiesce.reconcile_read
found_quiescing cfg (err e) = tt
found_quiescing cfg (ok snap) =
    if_split (λ (p : Prog Outcome). Writes (OnPhases QuiesceMoves) (some snap) p)
      (Quiesce.owns cfg snap) _ _ (λ t. wait_if-Writes snap (owned cfg snap t) snap.status.quiesce)
      (λ _. tt)

-- Whatever the node and the API server answer, the quiesce agent sends no update but from
-- Quiescing to Checkpointing.
pub quiesce-Writes :
    (cfg : AgentConfig) → Writes (OnPhases QuiesceMoves) none (Quiesce.reconcile cfg)
unfolding Quiesce.reconcile
quiesce-Writes cfg = (tt, λ r. found_quiescing cfg r)
