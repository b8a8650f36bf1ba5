-- ===== src/Artifact/Prefetch/Pool.antt =====
-- internal/artifact/prefetch.go: Prefetch, a pool of workers that fetch the files of a manifest.
-- The steps are those of the dispatching loop, of one worker, and of the caller's context; a worker's
-- totals, its error and the cancellation that follows it are one step.
use pod_snapshotter.Base.{
  ℕ, suc, ◌+◌, ◌%◌, ◌^◌, ◌≡◌, Bool, true, false, Option, none, some, List, [], ◌∷◌, length, ltb,
  if◌then◌else◌,
}
use pod_snapshotter.Base.Int.{ℤ, positive_or}
use pod_snapshotter.Base.Result.{Result, ok, err}
use pod_snapshotter.Api.Common.{Message}
use pod_snapshotter.Artifact.Manifest.{ManifestFile}
use pod_snapshotter.Artifact.Prefetch.{Fetched}

-- DefaultPrefetchParallelism
abbrev pub default_parallelism : ℕ
default_parallelism = 4

unfoldable pub workers : ℤ → List ManifestFile → ℕ
workers parallelism files =
    let w = positive_or default_parallelism parallelism in
    if ltb (length files) w then length files else w

-- The dispatching loop: at its select, at its test of the context, or left, with `jobs` closed.
pub data Dispatcher : Type 0 where
  selecting checking closed : Dispatcher

-- The files still to be dispatched, those that workers hold, and the workers that wait for one.
pub record Pool : Type 0 where
  pub dispatcher : Dispatcher
  pub pending : List ManifestFile
  pub running : List ManifestFile
  pub idle : ℕ
  pub total : ℕ  -- int64
  pub first_err : Option Message
  pub cancelled : Bool

unfoldable pub start : ℤ → List ManifestFile → Pool
start parallelism files = record {
  dispatcher = selecting;
  pending = files;
  running = [];
  idle = workers parallelism files;
  total = 0;
  first_err = none;
  cancelled = false;
}

-- `once.Do`
unfoldable pub first_of : Option Message → Message → Option Message
first_of none m = some m
first_of (some e) m = some e

abbrev pub dispatched : Pool → ManifestFile → List ManifestFile → ℕ → Pool
dispatched s f rest idle = record s {
  dispatcher = checking;
  pending = rest;
  running = f ∷ s.running;
  idle = idle;
}

abbrev pub succeeded : Pool → List ManifestFile → ℕ → Pool
succeeded s running n = record s {
  running = running;
  idle = suc s.idle;
  total = (s.total + n) % 2 ^ 64;
}

-- The worker records the error, cancels the context and is gone.
abbrev pub stopped : Pool → List ManifestFile → ℕ → Message → Pool
stopped s running n e = record s {
  running = running;
  total = (s.total + n) % 2 ^ 64;
  first_err = first_of s.first_err e;
  cancelled = true;
}

-- wg.Wait returns: no worker holds a file, and `jobs` is closed.
abbrev pub Finished : Pool → Type 0
Finished s = (s.dispatcher ≡ closed) × (s.running ≡ [])

unfoldable pub result_of : Option Message → Bool → ℕ → Result (Option Message) ℕ
result_of (some e) cancelled total = err (some e)
result_of none true total = err none
result_of none false total = ok total

-- What Prefetch returns besides the total; a context that was cancelled is `none`.
unfoldable pub result : Pool → Result (Option Message) ℕ
result s = result_of s.first_err s.cancelled s.total

-- The list without one of its members.
pub data Without (f : ManifestFile) : List ManifestFile → List ManifestFile → Type 0 where
  here : {files : List ManifestFile} → Without f (f ∷ files) files
  there :
      {g : ManifestFile} {files rest : List ManifestFile}
      → Without f files rest
      → Without f (g ∷ files) (g ∷ rest)

-- `Fetches f r`: fetchOne of `f` can return `r`.
module _ (Fetches : ManifestFile → Fetched → Type 0) where
  pub data Step : Pool → Pool → Type 0 where
    send :
        (s : Pool) (f : ManifestFile) (rest : List ManifestFile) (idle : ℕ)
        → s.dispatcher ≡ selecting
        → s.pending ≡ f ∷ rest
        → s.idle ≡ suc idle
        → Step s (dispatched s f rest idle)
    skip :
        (s : Pool) (f : ManifestFile) (rest : List ManifestFile)
        → s.dispatcher ≡ selecting
        → s.pending ≡ f ∷ rest
        → s.cancelled ≡ true
        → Step s (record s { dispatcher = checking; pending = rest })
    go_on :
        (s : Pool)
        → s.dispatcher ≡ checking
        → s.cancelled ≡ false
        → Step s (record s { dispatcher = selecting })
    give_up :
        (s : Pool)
        → s.dispatcher ≡ checking
        → s.cancelled ≡ true
        → Step s (record s { dispatcher = closed })
    all_sent :
        (s : Pool)
        → s.dispatcher ≡ selecting
        → s.pending ≡ []
        → Step s (record s { dispatcher = closed })
    finish :
        (s : Pool) (f : ManifestFile) (rest : List ManifestFile) (n : ℕ)
        → Without f s.running rest
        → Fetches f (n, none)
        → Step s (succeeded s rest n)
    fail :
        (s : Pool) (f : ManifestFile) (rest : List ManifestFile) (n : ℕ) (e : Message)
        → Without f s.running rest
        → Fetches f (n, some e)
        → Step s (stopped s rest n e)
    interrupt : (s : Pool) → s.cancelled ≡ false → Step s (record s { cancelled = true })

  -- So many steps from the one to the other.
  pub data Reach : Pool → ℕ → Pool → Type 0 where
    stay : {s : Pool} → Reach s 0 s
    next : {s t u : Pool} {n : ℕ} → Reach s n t → Step t u → Reach s (suc n) u
