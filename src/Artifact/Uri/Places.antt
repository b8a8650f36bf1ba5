-- ===== src/Artifact/Uri/Places.antt =====
-- Where URIs point: under the mount, inside the prefix, inside the local root.
use pod_snapshotter.Base.{◌≡◌, refl, ◌≢◌, true, false, [], ◌∷◌, ◌++◌, arith, if◌then◌else◌}
use pod_snapshotter.Base.Bytes.{Bytes, eqb, eqb_iff, has_prefix}
use pod_snapshotter.Base.Result.{ok}
use pod_snapshotter.Go.Path.{slash, clean}
use pod_snapshotter.Go.Path.Parts.{IsAbs}
use pod_snapshotter.Go.Path.Laws.{clean-IsAbs}
use pod_snapshotter.Go.Path.Join.{join_path-IsAbs}
use pod_snapshotter.Artifact.Uri.{Uri, scheme_file, parse, host_path, join}
use pod_snapshotter.Artifact.Uri.Parse.{parse-IsValid}

-- Where the mount is a rooted path of ordinary parts, an accepted fuse URI is the path under it that
-- has the URI's path appended, and an accepted file URI is its own path.
pub host_path-parse :
    (raw mount : Bytes) (u : Uri)
    → parse raw ≡ ok u
    → IsAbs mount
    → host_path u mount ≡ (if eqb u.scheme scheme_file then u.path else mount ++ u.path)
unfolding host_path
host_path-parse raw mount u h m =
    rw (join_path-IsAbs mount u.path m (parse-IsValid raw u h).usable_path)

slash_first : (s : Bytes) → has_prefix (slash ∷ s) (slash ∷ []) ≡ true
unfolding has_prefix
slash_first s = refl

clean-slash_first : (rel : Bytes) → has_prefix (clean (slash ∷ rel)) (slash ∷ []) ≡ true
unfolding clean has_prefix
clean-slash_first rel = refl

module _ (u : Uri) (rel : Bytes) (v : Uri) (h : join u rel ≡ ok v) where
  joined_path : v.path ≡ u.path ++ clean (slash ∷ rel)
  unfolding join
  joined_path = ground arith

  joined_scheme : (v.scheme ≡ u.scheme) × (v.dir ≡ false) × (u.dir ≡ true)
  unfolding join
  joined_scheme = (ground arith, ground arith, ground arith)

  joined_below : clean (slash ∷ rel) ≢ slash ∷ []
  unfolding join
  joined_below = ground (arith, eqb_iff (clean (slash ∷ rel)) (slash ∷ []))

  -- A join that succeeds gives an object of the same scheme below the prefix, whose path goes on
  -- with ordinary parts, at least one.
  pub join-below :
      (v.scheme ≡ u.scheme)
      × (v.dir ≡ false)
      × (u.dir ≡ true)
      × ((t : Bytes) × IsAbs t × (v.path ≡ u.path ++ t))
  join-below = (
    joined_scheme.0,
    joined_scheme.1,
    joined_scheme.2,
    (
      clean (slash ∷ rel),
      clean-IsAbs (slash ∷ rel) (clean-slash_first rel) joined_below,
      joined_path,
    ),
  )
