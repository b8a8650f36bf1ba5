-- ===== src/Controller/Snapshot/Calls.antt =====
-- The kubelet calls of one PodSnapshot, over every interleaving of reconciler runs, calls that end,
-- and changes that the agent and the users make to the stored object.
use mathlib.Core.Option.{none}
use pod_snapshotter.Base.{
  if◌then◌else◌, suc, Bool-cases, ◌≡◌, refl, true, false, Option, some, List, [], ◌∷◌, arith,
  length, Option-cases, inl, inr, if_split, ◌&&◌, not, ap, ◌⊎◌,
}
use pod_snapshotter.Base.Bytes.{Bytes, eqb}
use pod_snapshotter.Base.Result.{Result, ok, err}
use pod_snapshotter.Api.Common.{ApiError, Message}
use pod_snapshotter.Api.Snapshot.{
  PodSnapshot, SnapshotPhase, unset, pending, quiescing, checkpointing, checkpointed, failed,
  deletion_policy_delete,
}
use pod_snapshotter.Controller.Env.{Env}
use pod_snapshotter.Controller.Snapshot.{Config, State, Call, condition}
use pod_snapshotter.Controller.Snapshot.Pending.{Run, is_not_found}
use pod_snapshotter.Controller.Snapshot.Pending.Laws.{
  write-phase, reconcile_pending-phase, reconcile_quiescing-phase,
}
use pod_snapshotter.Controller.Snapshot.Runs.{by_owner-phase, by_deletion-phase}
use pod_snapshotter.Controller.Snapshot.Checkpointing.{
  agent_checkpoints, reconcile_checkpointing, finish_call, deletion, reconcile_delete, by_phase,
  with_finalizer, reconcile_found, reconcile, call_result, is_checkpointing,
}

-- One event: a run of Reconcile, the end of a call, or a change of the object by somebody else.
pub data Step (cfg : Config) : State → State → Type 0 where
  runs : (env : Env PodSnapshot) (s : State) → Step cfg s (reconcile cfg env s).0
  returns :
      (env : Env PodSnapshot) (result : Result Message Bytes) (s : State) (c : Call)
      (rest : List Call)
      → s.calls ≡ c ∷ rest
      → Step cfg s (finish_call env result rest s)
  changes : (snap : PodSnapshot) (s : State) → Step cfg s (record s { stored = snap })

pub data Reach (cfg : Config) (s : State) : State → Type 0 where
  here : Reach cfg s s
  next : {t u : State} → Reach cfg s t → Step cfg t u → Reach cfg s u

-- One call while the key is in `inflight`, else none.
abbrev pub OneCall : State → Type 0
OneCall s = length s.calls ≡ (if s.inflight then 1 else 0)

abbrev Anything : SnapshotPhase → Type 0
Anything p = Unit

stores-OneCall :
    (s : State) (snap : PodSnapshot)
    → OneCall s
    → Anything snap.status.phase
    → OneCall (record s { stored = snap })
stores-OneCall s snap h _ = h

launches-OneCall :
    (s : State) (c : Call)
    → OneCall s
    → s.inflight ≡ false
    → OneCall (record s { inflight = true; calls = c ∷ s.calls })
launches-OneCall s c h free = ap suc (rw free at h)

finished-OneCall :
    (snap : PodSnapshot) (rest : List Call)
    → rest ≡ []
    → OneCall (record { stored = snap; inflight = false; calls = rest })
finished-OneCall snap rest e = ap (length {A = Call}) e

last_call : (s : State) (c : Call) (rest : List Call) → s.calls ≡ c ∷ rest → OneCall s → rest ≡ []
last_call s c [] e h = refl
last_call s c (d ∷ rest) e h = elim (Bool-cases s.inflight) [
  | inl b ↦ absurd (omega (arith, rw b at h, ap (length {A = Call}) e))
  | inr b ↦ absurd (omega (arith, rw b at h, ap (length {A = Call}) e))
]

module _ (cfg : Config) (env : Env PodSnapshot) where
  by_phase-OneCall :
      (p : SnapshotPhase) (snap : PodSnapshot) (s : State)
      → OneCall s
      → OneCall (by_phase p cfg env snap s).0
  unfolding by_phase
  by_phase-OneCall unset snap s h = write-phase OneCall Anything stores-OneCall env s h _ _ tt
  by_phase-OneCall pending snap s h =
      reconcile_pending-phase OneCall Anything stores-OneCall cfg env s h tt snap tt tt tt
  by_phase-OneCall quiescing snap s h =
      reconcile_quiescing-phase OneCall Anything stores-OneCall cfg env s h tt snap
  by_phase-OneCall checkpointing snap s h =
      unfold reconcile_checkpointing in
      by_owner-phase OneCall Anything stores-OneCall env launches-OneCall tt
        (agent_checkpoints env snap) snap s tt h
  by_phase-OneCall _ snap s h = h

  with_finalizer-OneCall :
      (x : Option ApiError) (snap : PodSnapshot) (s : State)
      → OneCall s
      → OneCall (with_finalizer x cfg env snap s).0
  unfolding with_finalizer
  with_finalizer-OneCall (some e) snap s h = h
  with_finalizer-OneCall none snap s h =
      by_phase-OneCall snap.status.phase snap (record s { stored = snap })
        (stores-OneCall s snap h tt)

  reconcile_found-OneCall : (s : State) → OneCall s → OneCall (reconcile_found cfg env s).0
  unfolding reconcile_found reconcile_delete
  reconcile_found-OneCall s h =
      let Q = λ (r : Run). OneCall r.0 in
      if_split Q s.stored.deleting _ _
        (λ _.
          by_deletion-phase OneCall Anything stores-OneCall env (deletion cfg env s.stored) s.stored
            s tt h)
        (λ _.
          if_split Q
            (eqb s.stored.spec.deletion_policy deletion_policy_delete && not s.stored.finalizer) _ _
            (λ _. with_finalizer-OneCall _ _ s h)
            (λ _. by_phase-OneCall s.stored.status.phase s.stored s h))

  reconcile-OneCall : (s : State) → OneCall s → OneCall (reconcile cfg env s).0
  unfolding reconcile
  reconcile-OneCall s h = elim (Option-cases env.lookup_error) [
    | inl e ↦ rw (e, reconcile) (reconcile_found-OneCall s h)
    | inr (x, e) ↦
        rw (e, reconcile)
          (if_split (λ (r : Run). OneCall r.0) (is_not_found x) _ _ (λ _. h) (λ _. h))
  ]

  finish_call-OneCall :
      (result : Result Message Bytes) (s : State) (c : Call) (rest : List Call)
      → s.calls ≡ c ∷ rest
      → OneCall s
      → OneCall (finish_call env result rest s)
  unfolding finish_call
  finish_call-OneCall result s c rest e h =
      let idle = last_call s c rest e h in
      elim (Option-cases env.lookup_error) [
        | inr (x, q) ↦ rw q (finished-OneCall s.stored rest idle)
        | inl q ↦ rw q (
            if_split OneCall (not (is_checkpointing s.stored.status.phase)) _ _
              (λ _. finished-OneCall s.stored rest idle)
              (λ _. elim (Option-cases (env.refuse (call_result result s.stored))) [
                | inl a ↦ rw a (finished-OneCall (call_result result s.stored) rest idle)
                | inr (x, a) ↦ rw a (finished-OneCall s.stored rest idle)
              ]))
      ]

Step-OneCall : (cfg : Config) {s t : State} → Step cfg s t → OneCall s → OneCall t
Step-OneCall cfg (runs env s) h = reconcile-OneCall cfg env s h
Step-OneCall cfg (returns env result s c rest e) h = finish_call-OneCall cfg env result s c rest e h
Step-OneCall cfg (changes snap s) h = stores-OneCall s snap h tt

-- From a reconciler with no call in flight, in every interleaving of runs, call ends and outside
-- changes, exactly one kubelet checkpoint call runs for the object while its key is in `inflight`,
-- and none while it is not.
pub Reach-OneCall :
    (cfg : Config) (snap : PodSnapshot) {t : State}
    → Reach cfg (record { stored = snap; inflight = false; calls = [] }) t
    → OneCall t
Reach-OneCall cfg snap here = finished-OneCall snap [] refl
Reach-OneCall cfg snap (next r st) = Step-OneCall cfg st (Reach-OneCall cfg snap r)

-- The object can be read, is in Checkpointing still, and no update of it is refused.
abbrev pub IsOpen : Env PodSnapshot → PodSnapshot → Type 0
IsOpen env snap =
    (env.lookup_error ≡ none)
    × (snap.status.phase ≡ checkpointing)
    × ((next : PodSnapshot) → env.refuse next ≡ none)

-- What a call leaves in the object: the path of the checkpoint, or why there is none.
abbrev pub IsResult : Result Message Bytes → PodSnapshot → PodSnapshot → Type 0
IsResult (ok path) old new =
    (new.status.phase ≡ checkpointed)
    × (new.status.kubelet_checkpoint_path ≡ path)
    × (new.spec ≡ old.spec)
IsResult (err m) old new =
    (new.status.phase ≡ failed)
    × (new.status.message ≡ m)
    × (new.status.kubelet_checkpoint_path ≡ old.status.kubelet_checkpoint_path)
    × (new.spec ≡ old.spec)

call_result-IsResult :
    (result : Result Message Bytes) (snap : PodSnapshot)
    → IsResult result snap (call_result result snap)
unfolding call_result condition
call_result-IsResult (ok path) snap = (refl, refl, refl)
call_result-IsResult (err m) snap = (refl, refl, refl, refl)

checkpointing_phase : (p : SnapshotPhase) → not (is_checkpointing p) ≡ false → p ≡ checkpointing
checkpointing_phase checkpointing h = refl
checkpointing_phase _ h = absurd (cc h)

-- The end of a kubelet call takes the key out of `inflight`. It changes the stored object only where
-- that is in Checkpointing still, and then to Checkpointed with the path that the kubelet returned,
-- or to Failed with the call's error and the path as it was. Where the object can be read, is in
-- Checkpointing and updates are not refused, the result is stored.
pub finish_call-stored :
    (env : Env PodSnapshot) (result : Result Message Bytes) (rest : List Call) (s : State)
    → ((finish_call env result rest s).inflight ≡ false)
      × (((finish_call env result rest s).stored ≡ s.stored)
          ⊎ ((s.stored.status.phase ≡ checkpointing)
              × IsResult result s.stored (finish_call env result rest s).stored))
      × (IsOpen env s.stored → IsResult result s.stored (finish_call env result rest s).stored)
unfolding finish_call
finish_call-stored env result rest s = elim (Option-cases env.lookup_error) [
  | inr (x, q) ↦ rw q (refl, inl refl, λ o. absurd (cc (o.0)))
  | inl q ↦ elim (Bool-cases (not (is_checkpointing s.stored.status.phase))) [
    | inl b ↦
        rw (q, b) (refl, inl refl, λ o. absurd (cc (b, ap (λ p. not (is_checkpointing p)) o.1)))
    | inr b ↦
        let stores = call_result-IsResult result s.stored in
        elim (Option-cases (env.refuse (call_result result s.stored))) [
          | inl a ↦ rw (q, b, a) (refl, inr (checkpointing_phase _ b, stores), λ o. stores)
          | inr (x, a) ↦
              rw (q, b, a) (refl, inl refl, λ o. absurd (cc (a, o.2 (call_result result s.stored))))
        ]
  ]
]
