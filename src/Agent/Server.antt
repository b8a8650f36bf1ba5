-- ===== src/Agent/Server.antt =====
-- An API server that holds one PodSnapshot which others write as well, a client that reads it through
-- a cache (the manager's client of cmd/agent/main.go), and what a program does against the two.
use pod_snapshotter.Base.{
  ℕ, zero, suc, ◌≡◌, refl, ◌<◌, Option, none, some, arith, List, [], ◌∷◌, ◌++◌, All, length, subst,
}
use pod_snapshotter.Base.Result.{ok}
use pod_snapshotter.Api.Common.{conflict, ApiError}
use pod_snapshotter.Api.Snapshot.{PodSnapshot}
use pod_snapshotter.Os.{Op, Answer, Prog, ret, call, get, update, now}
use pod_snapshotter.Agent.Checkpoint.{attempt, retry_on_conflict, write_status}

-- How one read and the update after it go: the cache still holds an earlier version, or it holds the
-- last one but somebody else writes before the update comes, or nobody does. The server refuses an
-- update of any version but the last.
pub data Turn : Type 0 where
  lagging overtaken : PodSnapshot → Turn
  undisturbed : Turn

-- The stored object, and the turns to come; after them nothing disturbs.
pub record Server : Type 0 where
  pub stored : PodSnapshot
  pub turns : List Turn

-- The turns in which an update is refused.
abbrev pub IsLate : Turn → Type 0
IsLate undisturbed = ⊥
IsLate _ = Unit

-- What the others leave after some turns.
abbrev pub left : List Turn → PodSnapshot → PodSnapshot
left [] snap = snap
left (overtaken by ∷ turns) snap = left turns by
left (_ ∷ turns) snap = left turns snap

module _ (time : ℕ) (rest : (o : Op) → Answer o) where
  abbrev cached : List Turn → PodSnapshot → PodSnapshot
  cached (lagging old ∷ turns) snap = old
  cached _ snap = snap

  abbrev updated : PodSnapshot → PodSnapshot → List Turn → Option ApiError × Server
  updated snap old [] = (none, record { stored = snap; turns = [] })
  updated snap old (undisturbed ∷ turns) = (none, record { stored = snap; turns = turns })
  updated snap old (lagging before ∷ turns) =
      (some conflict, record { stored = old; turns = turns })
  updated snap old (overtaken by ∷ turns) = (some conflict, record { stored = by; turns = turns })

  abbrev serve : (o : Op) → Server → Answer o × Server
  serve get s = (ok (cached s.turns s.stored), s)
  serve (update snap) s = updated snap s.stored s.turns
  serve now s = (time, s)
  serve o s = (rest o, s)

  abbrev pub run {ℓ} : {A : Type ℓ} → Prog A → Server → A × Server
  run (ret a) s = (a, s)
  run (call o k) s = run (k (serve o s).0) (serve o s).1

  module _ (mutate : ℕ → PodSnapshot → PodSnapshot) where
    retried :
        (tries : ℕ) (late : List Turn) (turns : List Turn) (snap : PodSnapshot)
        → All IsLate late
        → length late < tries
        → run
            (retry_on_conflict tries mutate)
            (record { stored = snap; turns = late ++ undisturbed ∷ turns })
          ≡ (none, record { stored = mutate time (left late snap); turns = turns })
    unfolding retry_on_conflict attempt
    retried zero late turns snap l h = absurd (omega (arith, h))
    retried (suc tries) [] turns snap l h = refl
    retried (suc tries) (lagging old ∷ late) turns snap l h =
        retried tries late turns snap l.1 (omega (arith, h))
    retried (suc tries) (overtaken by ∷ late) turns snap l h =
        retried tries late turns by l.1 (omega (arith, h))
    retried (suc tries) (undisturbed ∷ late) turns snap l h = absurd l.0

    given_up :
        (late : List Turn) (turns : List Turn) (snap : PodSnapshot)
        → All IsLate late
        → run
            (retry_on_conflict (length late) mutate)
            (record { stored = snap; turns = late ++ turns })
          ≡ (some conflict, record { stored = left late snap; turns = turns })
    unfolding retry_on_conflict attempt
    given_up [] turns snap l = refl
    given_up (lagging old ∷ late) turns snap l = given_up late turns snap l.1
    given_up (overtaken by ∷ late) turns snap l = given_up late turns by l.1
    given_up (undisturbed ∷ late) turns snap l = absurd l.0

  -- A status write of the checkpoint agent gets through as soon as one of its first five reads is of
  -- the last version and nobody writes before its update: it then succeeds, and what is stored is the
  -- object as the others left it, with the agent's change. Where all five attempts come too late,
  -- because of the cache or of the others, it reports the conflict and has changed nothing.
  pub write_status-stores :
      (mutate : ℕ → PodSnapshot → PodSnapshot) (late turns : List Turn) (snap : PodSnapshot)
      → All IsLate late
      → (length late < 5
          → run
              (write_status mutate)
              (record { stored = snap; turns = late ++ undisturbed ∷ turns })
            ≡ (none, record { stored = mutate time (left late snap); turns = turns }))
        × (length late ≡ 5
            → run (write_status mutate) (record { stored = snap; turns = late ++ turns })
              ≡ (some conflict, record { stored = left late snap; turns = turns }))
  unfolding write_status
  write_status-stores mutate late turns snap l = (
    λ h. retried mutate 5 late turns snap l h,
    λ h.
        subst
          (λ n.
            run (retry_on_conflict n mutate) (record { stored = snap; turns = late ++ turns })
            ≡ (some conflict, record { stored = left late snap; turns = turns }))
          h (given_up mutate late turns snap l),
  )
