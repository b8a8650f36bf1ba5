-- ===== src/Artifact/Prefetch/Tests.antt =====
-- A prefetch of one file.
use pod_snapshotter.Base.{ℕ, ◌≡◌, refl, ◌*◌, ◌+◌, ◌≤◌, ◌%◌, ◌^◌, [], ◌∷◌, none, false, length, ◌⊎◌}
use pod_snapshotter.Base.Bytes.{Bytes, codes, eqb}
use pod_snapshotter.Base.Result.{ok}
use pod_snapshotter.Base.Int.{pos, positive_or}
use pod_snapshotter.Artifact.Manifest.{ManifestFile}
use pod_snapshotter.Artifact.Manifest.Order.{sizes}
use pod_snapshotter.Artifact.Prefetch.{
  PrefetchOptions, Fetches, at_once, after, fetch_one, fetch_opened, copy, check_fetched,
}
use pod_snapshotter.Artifact.Prefetch.Pool.{
  Pool, send, go_on, all_sent, finish, Reach, stay, next, here, start, workers, result, result_of,
  closed, Finished, Step,
}
use pod_snapshotter.Artifact.Prefetch.Progress.{Reach-progress}
use pod_snapshotter.Artifact.Prefetch.Totals.{result-sizes, start-Reach}

abbrev in_place : PrefetchOptions
in_place = record {
  src_dir = codes "/a";
  manifest = none;
  stage_dir = [];
  parallelism = pos 0;
  verify = false;
}

abbrev image : ManifestFile
image = record { path = codes "f"; size = 2; sha256 = []; mode = 420 }

abbrev no_digest : Bytes → Bytes
no_digest body = []

abbrev nothing : ManifestFile → ℕ
nothing f = 0

image-Returns : Fetches no_digest nothing in_place image (2, none)
unfolding fetch_one fetch_opened copy check_fetched eqb
image-Returns = after none (after (ok (1 ∷ 2 ∷ [])) (after none at_once))

abbrev at_end : Pool
at_end = record {
  dispatcher = closed;
  pending = [];
  running = [];
  idle = 1;
  total = 2;
  first_err = none;
  cancelled = false;
}

image-Reach :
    Reach (Fetches no_digest nothing in_place) (start in_place.parallelism (image ∷ [])) 4 at_end
unfolding start workers positive_or
image-Reach =
    next
      (next (next (next stay (send _ image [] 0 refl refl refl)) (go_on _ refl refl))
        (all_sent _ refl refl))
      (finish _ image [] 2 here image-Returns)

at_end-ok : result at_end ≡ ok 2
unfolding result result_of
at_end-ok = refl

result-sizes_example : 2 ≡ sizes (image ∷ []) % 2 ^ 64
result-sizes_example =
    result-sizes no_digest nothing in_place (image ∷ []) image-Reach (refl, refl) 2 at_end-ok

start-Reach_example : 4 ≤ 4 * length (image ∷ []) + 2
start-Reach_example =
    start-Reach (Fetches no_digest nothing in_place) in_place.parallelism (image ∷ []) image-Reach

abbrev at_start : Pool
at_start = start in_place.parallelism (image ∷ [])

Reach-progress_example :
    Finished at_start ⊎ ((u : Pool) × Step (Fetches no_digest nothing in_place) at_start u)
Reach-progress_example = Reach-progress no_digest nothing in_place (image ∷ []) stay
