-- ===== src/Artifact/Prefetch/Progress.antt =====
-- That a prefetch never gets stuck: at every point that is not its end, some step can be taken.
use pod_snapshotter.Base.{
  ℕ, zero, suc, ◌+◌, ◌<◌, ◌≤◌, ◌≡◌, refl, Bool, true, false, none, some, List, [], ◌∷◌, arith,
  length, ◌⊎◌, inl, inr, Bool-cases,
}
use pod_snapshotter.Base.Int.{ℤ, pos, negsuc, positive_or}
use pod_snapshotter.Base.Result.{err}
use pod_snapshotter.Base.Bytes.{Bytes}
use pod_snapshotter.Api.Common.{not_found}
use pod_snapshotter.Artifact.Manifest.{ManifestFile}
use pod_snapshotter.Artifact.Prefetch.{
  PrefetchOptions, Fetched, Fetches, Returns, at_once, after, fetch_one,
}
use pod_snapshotter.Artifact.Prefetch.Pool.{
  Pool, Dispatcher, selecting, checking, closed, Step, send, skip, go_on, give_up, all_sent, finish,
  fail, interrupt, Reach, stay, next, here, start, Finished, workers,
}
use pod_snapshotter.Artifact.Prefetch.Totals.{Without-length}
use pod_snapshotter.Os.{
  Prog, ret, call, Op, Answer, not_exist, mkdir_all, remove, remove_all, create, sync, close, stat,
  open_file, read_file, read_dir, walk, write, rename, resolve, overlay_upper_dir, capture_shm,
  capture_rootfs, dump, head, get, update, now,
}

some_answer : (o : Op) → Answer o
some_answer (mkdir_all p) = none
some_answer (remove p) = none
some_answer (remove_all p) = none
some_answer (create p) = none
some_answer (sync p) = none
some_answer (close p) = none
some_answer (stat p) = err not_exist
some_answer (read_file p) = err not_exist
some_answer (read_dir p) = err not_exist
some_answer (walk p) = err not_exist
some_answer (open_file p) = none
some_answer (write p body) = none
some_answer (rename p q) = none
some_answer (resolve uid container) = err not_exist
some_answer (overlay_upper_dir pid) = err not_exist
some_answer (capture_shm spec host out) = err not_exist
some_answer (capture_rootfs upper host out) = err not_exist
some_answer (dump opts) = none
some_answer (head p) = none
some_answer get = err not_found
some_answer (update snap) = none
some_answer now = 0

-- A program returns something.
some_result {ℓ} : {A : Type ℓ} (p : Prog A) → (a : A) × Returns p a
some_result (ret a) = (a, at_once)
some_result (call o k) =
    let (a, r) = some_result (k (some_answer o)) in (a, after (some_answer o) r)

workers-positive :
    (parallelism : ℤ) (files : List ManifestFile) → 0 < length files → 0 < workers parallelism files
unfolding workers positive_or
workers-positive (pos zero) files h = ground arith
workers-positive (pos (suc n)) files h = ground arith
workers-positive (negsuc n) files h = ground arith

module _ (Fetches : ManifestFile → Fetched → Type 0) where
  -- While nothing is cancelled, every worker waits or holds a file.
  abbrev Manned : ℕ → ℕ → Pool → Type 0
  Manned w k s = (s.cancelled ≡ false → s.idle + length s.running ≡ w) × (length s.pending ≤ k)

  Step-Manned : (w k : ℕ) {s t : Pool} → Step Fetches s t → Manned w k s → Manned w k t
  Step-Manned w k (send s f rest idle d p i) (h, b) =
      (λ c. let g = rw i at (h c) in omega (arith, g), let g = rw p at b in omega (arith, g))
  Step-Manned w k (skip s f rest d p c) (h, b) = (h, let g = rw p at b in omega (arith, g))
  Step-Manned w k (go_on s d c) m = m
  Step-Manned w k (give_up s d c) m = m
  Step-Manned w k (all_sent s d p) m = m
  Step-Manned w k (finish s f rest n o r) (h, b) =
      (λ c. let g = h c in omega (arith, g, Without-length o), b)
  Step-Manned w k (fail s f rest n e o r) (h, b) = (λ c. absurd (cc c), b)
  Step-Manned w k (interrupt s c) (h, b) = (λ e. absurd (cc e), b)

  Reach-Manned : (w k : ℕ) {s t : Pool} {n : ℕ} → Reach Fetches s n t → Manned w k s → Manned w k t
  Reach-Manned w k stay m = m
  Reach-Manned w k (next r step) m = Step-Manned w k step (Reach-Manned w k r m)

  module _ (live : (f : ManifestFile) → (r : Fetched) × Fetches f r) where
    Takes : Pool → Type 0
    Takes s = (t : Pool) × Step Fetches s t

    -- A worker that holds a file comes back.
    running-Takes :
        (s : Pool) (f : ManifestFile) (rest : List ManifestFile)
        → s.running ≡ f ∷ rest
        → (r : Fetched) → Fetches f r
        → Takes s
    unfolding Takes
    running-Takes s f rest e (n, none) h = (_, finish s f rest n (rw e here) h)
    running-Takes s f rest e (n, some m) h = (_, fail s f rest n m (rw e here) h)

    -- The loop is at its select.
    selecting-Takes :
        (s : Pool) (w k : ℕ)
        → Manned w k s
        → (0 < k → 0 < w)
        → s.dispatcher ≡ selecting
        → (pending : List ManifestFile) → s.pending ≡ pending
        → (running : List ManifestFile) → s.running ≡ running
        → (idle : ℕ) → s.idle ≡ idle
        → (cancelled : Bool) → s.cancelled ≡ cancelled
        → Takes s
    unfolding Takes
    selecting-Takes s w k m p d [] e running r idle i c t = (_, all_sent s d e)
    selecting-Takes s w k m p d (f ∷ rest) e (g ∷ files) r idle i c t =
        running-Takes s g files r (live g).0 (live g).1
    selecting-Takes s w k m p d (f ∷ rest) e [] r (suc idle) i c t = (_, send s f rest idle d e i)
    selecting-Takes s w k m p d (f ∷ rest) e [] r zero i true t = (_, skip s f rest d e t)
    selecting-Takes s w k m p d (f ∷ rest) e [] r zero i false t =
        let all = rw (i, r) at (m.0 t) in
        let more = rw e at m.1 in absurd (omega (arith, all, more, p (omega (arith, more))))

    progress :
        (s : Pool) (w k : ℕ)
        → Manned w k s
        → (0 < k → 0 < w)
        → (dispatcher : Dispatcher) → s.dispatcher ≡ dispatcher
        → (running : List ManifestFile) → s.running ≡ running
        → Finished s ⊎ Takes s
    unfolding Takes
    progress s w k m p closed d [] r = inl (d, r)
    progress s w k m p closed d (g ∷ files) r =
        inr (running-Takes s g files r (live g).0 (live g).1)
    progress s w k m p selecting d running r =
        inr (selecting-Takes s w k m p d s.pending refl running r s.idle refl s.cancelled refl)
    progress s w k m p checking d running r = elim (Bool-cases s.cancelled) [
      | inl c ↦ inr (_, give_up s d c)
      | inr c ↦ inr (_, go_on s d c)
    ]

-- A prefetch is never stuck: at each point that it can reach it has either finished, or some step of
-- it can be taken.
pub Reach-progress :
    (sha : Bytes → Bytes) (moved : ManifestFile → ℕ) (opts : PrefetchOptions)
    (files : List ManifestFile) {t : Pool} {n : ℕ}
    → Reach (Fetches sha moved opts) (start opts.parallelism files) n t
    → Finished t ⊎ ((u : Pool) × Step (Fetches sha moved opts) t u)
unfolding start Takes
Reach-progress sha moved opts files {t} r =
    let w = workers opts.parallelism files in
    let m =
      Reach-Manned (Fetches sha moved opts) w (length files) r (λ c. omega arith, omega arith) in
    progress (Fetches sha moved opts) (λ f. some_result (fetch_one sha moved opts f)) t w
      (length files) m (workers-positive opts.parallelism files) t.dispatcher refl t.running refl
