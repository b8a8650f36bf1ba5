-- ===== src/Agent/System.antt =====
-- The manager and the agents on one PodSnapshot: what is stored, over every interleaving of runs of
-- the manager, of kubelet calls that end and of updates that an agent sends and the server accepts.
-- The server accepts an update of the object that was read last only while that is what is stored.
use pod_snapshotter.Base.{Bool, ℕ, sym, subst, ◌≤◌, inl, inr, none, arith, List}
use pod_snapshotter.Base.Bytes.{Bytes}
use pod_snapshotter.Base.Result.{Result, ok, err}
use pod_snapshotter.Api.Common.{Message}
use pod_snapshotter.Api.Snapshot.{
  PodSnapshot, SnapshotPhase, unset, pending, quiescing, checkpointing, checkpointed, uploading,
  completed, failed, other_phase,
}
use pod_snapshotter.Artifact.Manifest.{Manifest}
use pod_snapshotter.Artifact.Publish.Expand.{Archive}
use pod_snapshotter.Controller.Env.{Env}
use pod_snapshotter.Controller.Snapshot.{Config, State, Call}
use pod_snapshotter.Controller.Snapshot.Checkpointing
use pod_snapshotter.Controller.Snapshot.Checkpointing.{finish_call, call_result}
use pod_snapshotter.Controller.Snapshot.Calls.{finish_call-stored, IsResult}
use pod_snapshotter.Controller.Snapshot.Phases.{
  Moves, stay, begin, park, dump, dumped, give_up, IsManaged, in_pending, in_quiescing,
  in_checkpointing, reconcile-Moves,
}
use pod_snapshotter.Os.Laws.{Issues, Issues-Writes}
use pod_snapshotter.Agent.Config.{AgentConfig}
use pod_snapshotter.Agent.Quiesce
use pod_snapshotter.Agent.Upload
use pod_snapshotter.Agent.Checkpoint.{ObjectMeta}
use pod_snapshotter.Agent.Checkpoint.Dump.{Calls}
use pod_snapshotter.Agent.Checkpoint.Dump
use pod_snapshotter.Agent.Moves.{OnPhases, QuiesceMoves, ready, quiesce-Writes}
use pod_snapshotter.Agent.UploadMoves.{
  UploadMoves, claims, retries, completes, gives_up, upload-Writes,
}
use pod_snapshotter.Agent.CheckpointMoves.{CheckpointMoves, stays, checkpoint-Writes}

-- How far a snapshot has come. Both ends, and a phase that no code of the program sets, are last.
abbrev pub rank : SnapshotPhase → ℕ
rank unset = 0
rank pending = 1
rank quiescing = 2
rank checkpointing = 3
rank checkpointed = 4
rank uploading = 5
rank completed = 6
rank failed = 6
rank (other_phase t) = 6

abbrev pub rank_of : State → ℕ
rank_of s = rank s.stored.status.phase

-- One event. An agent may run on any node, with any configuration.
pub data Step (cfg : Config) : State → State → Type 0 where
  manages : (env : Env PodSnapshot) (s : State) → Step cfg s (Checkpointing.reconcile cfg env s).0
  returns :
      (env : Env PodSnapshot) (result : Result Message Bytes) (rest : List Call) (s : State)
      → Step cfg s (finish_call env result rest s)
  quiesces :
      (agent : AgentConfig) (s : State) (snap : PodSnapshot)
      → Issues none (Quiesce.reconcile agent) s.stored snap
      → Step cfg s (record s { stored = snap })
  dumps :
      (agent : AgentConfig) (calls : Calls) (about : ObjectMeta) (running : Bool) (s : State)
      (snap : PodSnapshot)
      → Issues none (Dump.reconcile agent calls about running) s.stored snap
      → Step cfg s (record s { stored = snap })
  uploads :
      (agent : AgentConfig) (sha : Bytes → Bytes) (encode : Manifest → Bytes) (archive : Archive)
      (s : State) (snap : PodSnapshot)
      → Issues none (Upload.reconcile agent sha encode archive) s.stored snap
      → Step cfg s (record s { stored = snap })

pub data Reach (cfg : Config) (s : State) : State → Type 0 where
  here : Reach cfg s s
  next : {t u : State} → Reach cfg s t → Step cfg t u → Reach cfg s u

managed-rank : {p : SnapshotPhase} → IsManaged p → rank p ≤ 6
managed-rank in_pending = omega arith
managed-rank in_quiescing = omega arith
managed-rank in_checkpointing = omega arith

moves-rank : {p q : SnapshotPhase} → Moves p q → rank p ≤ rank q
moves-rank stay = omega arith
moves-rank begin = omega arith
moves-rank park = omega arith
moves-rank dump = omega arith
moves-rank dumped = omega arith
moves-rank (give_up m) = managed-rank m

quiesce-rank : {p q : SnapshotPhase} → QuiesceMoves p q → rank p ≤ rank q
quiesce-rank ready = omega arith

upload-rank : {p q : SnapshotPhase} → UploadMoves p q → rank p ≤ rank q
upload-rank claims = omega arith
upload-rank retries = omega arith
upload-rank completes = omega arith
upload-rank gives_up = omega arith

most : (p : SnapshotPhase) → rank p ≤ 6
most unset = omega arith
most pending = omega arith
most quiescing = omega arith
most checkpointing = omega arith
most checkpointed = omega arith
most uploading = omega arith
most completed = omega arith
most failed = omega arith
most (other_phase t) = omega arith

checkpoint-rank : {p q : SnapshotPhase} → CheckpointMoves p q → rank p ≤ rank q
checkpoint-rank stays = omega arith
checkpoint-rank {p = p} CheckpointMoves.completes = most p
checkpoint-rank {p = p} CheckpointMoves.fails = most p

IsResult-rank :
    (result : Result Message Bytes) (old new : PodSnapshot)
    → IsResult result old new
    → 3 ≤ rank new.status.phase
IsResult-rank (ok path) old new h = subst (λ p. 3 ≤ rank p) (sym h.0) (omega arith)
IsResult-rank (err m) old new h = subst (λ p. 3 ≤ rank p) (sym h.0) (omega arith)

returned :
    (env : Env PodSnapshot) (result : Result Message Bytes) (rest : List Call) (s : State)
    → rank_of s ≤ rank_of (finish_call env result rest s)
returned env result rest s = elim (finish_call-stored env result rest s).1 [
  | inl e ↦ subst (λ x. rank_of s ≤ rank x.status.phase) (sym e) (omega arith)
  | inr (p, h) ↦
      let after = finish_call env result rest s in
      subst (λ q. rank q ≤ rank_of after) (sym p) (IsResult-rank result s.stored after.stored h)
]

Step-rank : (cfg : Config) {s t : State} → Step cfg s t → rank_of s ≤ rank_of t
Step-rank cfg (manages env s) = moves-rank (reconcile-Moves cfg env s)
Step-rank cfg (returns env result rest s) = returned env result rest s
Step-rank cfg (quiesces agent s snap i) =
    quiesce-rank (Issues-Writes (OnPhases QuiesceMoves) i (quiesce-Writes agent))
Step-rank cfg (dumps agent calls about running s snap i) =
    checkpoint-rank
      (Issues-Writes (OnPhases CheckpointMoves) i (checkpoint-Writes agent calls about running))
Step-rank cfg (uploads agent sha encode archive s snap i) =
    upload-rank (Issues-Writes (OnPhases UploadMoves) i (upload-Writes agent sha encode archive))

-- In every interleaving of the manager, of its kubelet calls and of the agents, no update that the
-- server accepts takes a PodSnapshot back to an earlier phase; once it is Completed or Failed it
-- stays in one of these two, or in a phase that none of the code sets.
pub Reach-rank : (cfg : Config) {s t : State} → Reach cfg s t → rank_of s ≤ rank_of t
Reach-rank cfg here = omega arith
Reach-rank cfg (next r st) = omega (arith, Reach-rank cfg r, Step-rank cfg st)
