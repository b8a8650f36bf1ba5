-- ===== src/Artifact/Prefetch/Totals.antt =====
-- How long a prefetch takes, and what it returns.
use pod_snapshotter.Base.{
  ℕ, suc, ◌+◌, ◌*◌, ◌%◌, ◌^◌, ◌<◌, ◌≤◌, sym, ◌∙◌, ◌≡◌, refl, Bool, true, false, Option, none, some,
  List, [], arith, length, if◌then◌else◌,
}
use pod_snapshotter.Base.Int.{ℤ}
use pod_snapshotter.Base.Result.{ok}
use pod_snapshotter.Api.Common.{Message}
use pod_snapshotter.Artifact.Manifest.{ManifestFile}
use pod_snapshotter.Artifact.Prefetch.{Fetched, PrefetchOptions, Fetches, fetch_one-size}
use pod_snapshotter.Base.Bytes.{Bytes}
use pod_snapshotter.Artifact.Manifest.Order.{sizes}
use pod_snapshotter.Artifact.Prefetch.Pool.{
  Pool, Dispatcher, selecting, checking, closed, Step, send, skip, go_on, give_up, all_sent, finish,
  fail, interrupt, Reach, stay, next, Without, here, there, start, Finished, result, result_of,
}

unfoldable pub phase : Dispatcher → ℕ
phase closed = 0
phase selecting = 1
phase checking = 2

-- What the steps use up.
unfoldable pub rank : Pool → ℕ
rank s =
    4 * length s.pending + length s.running + phase s.dispatcher + (if s.cancelled then 0 else 1)

pub Without-length :
    {f : ManifestFile} {files rest : List ManifestFile}
    → Without f files rest
    → length files ≡ suc (length rest)
Without-length here = refl
Without-length (there w) = omega (arith, Without-length w)

Without-sizes :
    {f : ManifestFile} {files rest : List ManifestFile}
    → Without f files rest
    → sizes files ≡ f.size + sizes rest
Without-sizes here = refl
Without-sizes (there w) = omega (arith, Without-sizes w)

module _ (Fetches : ManifestFile → Fetched → Type 0) where
  -- Every step uses something up, so that a prefetch takes fewer steps than it starts with.
  pub Step-rank : {s t : Pool} → Step Fetches s t → rank t < rank s
  unfolding rank phase
  Step-rank (send s f rest idle d p i) = rw (d, p) (omega arith)
  Step-rank (skip s f rest d p c) = rw (d, p) (omega arith)
  Step-rank (go_on s d c) = rw d (omega arith)
  Step-rank (give_up s d c) = rw d (omega arith)
  Step-rank (all_sent s d p) = rw d (omega arith)
  Step-rank (finish s f rest n w h) = rw (Without-length w) (omega arith)
  Step-rank (fail s f rest n e w h) = let l = Without-length w in omega (arith, l)
  Step-rank (interrupt s c) = rw c (omega arith)

  -- What holds at every point, `want` being the sizes of all the files.
  abbrev Balanced : ℕ → Pool → Type 0
  Balanced want s =
      (s.cancelled ≡ false → (s.total + sizes s.pending + sizes s.running) % 2 ^ 64 ≡ want % 2 ^ 64)
      × (s.cancelled ≡ false → s.dispatcher ≡ closed → s.pending ≡ [])
      × (s.total < 2 ^ 64)

  module _ (exact : (f : ManifestFile) (n : ℕ) → Fetches f (n, none) → n ≡ f.size) where
    Step-Balanced : (want : ℕ) {s t : Pool} → Step Fetches s t → Balanced want s → Balanced want t
    Step-Balanced want (send s f rest idle d p i) (h, k, b) =
        (λ c. let g = rw p at (h c) in omega (arith, g), λ c e. absurd (cc e), b)
    Step-Balanced want (skip s f rest d p c) (h, k, b) =
        (λ e. absurd (cc (c, e)), λ e. absurd (cc (c, e)), b)
    Step-Balanced want (go_on s d c) (h, k, b) = (h, λ c e. absurd (cc e), b)
    Step-Balanced want (give_up s d c) (h, k, b) = (h, λ e. absurd (cc (c, e)), b)
    Step-Balanced want (all_sent s d p) (h, k, b) = (h, λ c e. p, b)
    Step-Balanced want (finish s f rest n w r) (h, k, b) =
        (λ c. let g = h c in omega (arith, g, Without-sizes w, exact f n r), k, omega arith)
    Step-Balanced want (fail s f rest n e w r) (h, k, b) =
        (λ c. absurd (cc c), λ c. absurd (cc c), omega arith)
    Step-Balanced want (interrupt s c) (h, k, b) = (λ c. absurd (cc c), λ c. absurd (cc c), b)

    Reach-Balanced :
        (want : ℕ) {s t : Pool} {n : ℕ} → Reach Fetches s n t → Balanced want s → Balanced want t
    Reach-Balanced want stay h = h
    Reach-Balanced want (next r step) h = Step-Balanced want step (Reach-Balanced want r h)

    Finished-total :
        (files : List ManifestFile) (t : Pool)
        → Balanced (sizes files) t
        → Finished t
        → t.cancelled ≡ false
        → t.total ≡ sizes files % 2 ^ 64
    Finished-total files t (h, k, b) (d, r) c =
        let g = rw (k c d, r) at (h c) in omega (arith, g, b)

  Reach-rank : {s t : Pool} {n : ℕ} → Reach Fetches s n t → n + rank t ≤ rank s
  Reach-rank stay = omega arith
  Reach-rank (next r step) = let d = Step-rank step in let e = Reach-rank r in omega (arith, d, e)

  -- However the workers, the dispatching loop and the caller's context take turns, a prefetch of
  -- some files comes to an end after at most four steps for each of them and two more.
  pub start-Reach :
      (parallelism : ℤ) (files : List ManifestFile) {t : Pool} {n : ℕ}
      → Reach Fetches (start parallelism files) n t
      → n ≤ 4 * length files + 2
  unfolding rank start phase
  start-Reach parallelism files r = let e = Reach-rank r in omega (arith, e)

result_of-ok :
    (first : Option Message) (cancelled : Bool) (n total : ℕ)
    → result_of first cancelled n ≡ ok total
    → (cancelled ≡ false) × (n ≡ total)
unfolding result_of
result_of-ok (some e) cancelled n total h = absurd (cc h)
result_of-ok none true n total h = absurd (cc h)
result_of-ok none false n total h = (refl, cc h)

-- A prefetch that has finished without an error returns the sum of the sizes that the manifest lists
-- (as an int64), in whatever order the workers fetched the files and whatever their calls answered.
pub result-sizes :
    (sha : Bytes → Bytes) (moved : ManifestFile → ℕ) (opts : PrefetchOptions)
    (files : List ManifestFile) {t : Pool} {n : ℕ}
    → Reach (Fetches sha moved opts) (start opts.parallelism files) n t
    → Finished t
    → (total : ℕ) → result t ≡ ok total
    → total ≡ sizes files % 2 ^ 64
unfolding result start
result-sizes sha moved opts files {t} r finished total h =
    let g = result_of-ok t.first_err t.cancelled t.total total h in
    let balanced =
      Reach-Balanced (Fetches sha moved opts) (fetch_one-size sha moved opts) (sizes files) r
        (λ _. omega arith, λ c e. absurd (cc e), omega arith) in
    sym g.1
    ∙ Finished-total (Fetches sha moved opts) (fetch_one-size sha moved opts) files t balanced
        finished g.0
