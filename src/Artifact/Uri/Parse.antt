-- ===== src/Artifact/Uri/Parse.antt =====
-- What Parse accepts.
use pod_snapshotter.Base.{◌≡◌, sym, ◌≢◌, inl, inr, true, [], ◌∷◌, arith, Option-cases, subst}
use pod_snapshotter.Base.Bytes.{Bytes, eqb_iff, has_prefix}
use pod_snapshotter.Base.Result.{ok}
use pod_snapshotter.Go.Path.{slash, clean}
use pod_snapshotter.Go.Path.Parts.{IsAbs}
use pod_snapshotter.Go.Path.Laws.{clean-IsAbs}
use pod_snapshotter.Go.Url.{Url, url_parse}
use pod_snapshotter.Go.Url.Laws.{IsScheme}
use pod_snapshotter.Artifact.Uri.{Uri, scheme_fuse, scheme_file, parse, parse_url}

-- A URI that names something below the root of its scheme.
pub record IsValid (u : Uri) : Type 0 where
  pub known_scheme : IsScheme u.scheme
  pub usable_path : IsAbs u.path

module _ (raw : Bytes) (l : Url) (u : Uri) (h : parse_url raw l ≡ ok u) where
  accepted_scheme : IsScheme u.scheme
  unfolding parse_url
  accepted_scheme = ground (arith, eqb_iff l.scheme scheme_fuse, eqb_iff l.scheme scheme_file)

  accepted_path : u.path ≡ clean l.path
  unfolding parse_url
  accepted_path = ground arith

  accepted_slash : has_prefix (clean l.path) (slash ∷ []) ≡ true
  unfolding parse_url
  accepted_slash = ground arith

  accepted_root : clean l.path ≢ slash ∷ []
  unfolding parse_url
  accepted_root = ground (arith, eqb_iff (clean l.path) (slash ∷ []))

  parse_url-IsValid : IsValid u
  parse_url-IsValid = record {
    known_scheme = accepted_scheme;
    usable_path = subst IsAbs (sym accepted_path) (clean-IsAbs l.path accepted_slash accepted_root);
  }

-- An accepted URI has a known scheme, and its path consists of ordinary parts.
pub parse-IsValid : (raw : Bytes) (u : Uri) → parse raw ≡ ok u → IsValid u
unfolding parse
parse-IsValid raw u h = elim (Option-cases (url_parse raw)) [
  | inl e ↦ absurd (cc (rw (e, parse) at h))
  | inr (l, e) ↦ parse_url-IsValid raw l u (rw (e, parse) at h)
]
