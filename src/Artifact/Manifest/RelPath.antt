-- ===== src/Artifact/Manifest/RelPath.antt =====
-- What the check of a manifest's paths promises.
use pod_snapshotter.Base.{
  ◌≡◌, refl, sym, ap, ◌∙◌, ◌≢◌, true, false, List, [], ◌∷◌, ◌++◌, arith, All, any,
}
use pod_snapshotter.Base.Bytes.{
  Bytes, codes, eqb, eqb_iff, has_prefix, split, join, split_of_Lacks, split-append, split-Lacks,
}
use pod_snapshotter.Artifact.Uri
use pod_snapshotter.Base.Result.{ok}
use pod_snapshotter.Go.Path.{slash, dot, dotdot, clean, is_rooted, relative, clean_parts}
use pod_snapshotter.Go.Path.Parts.{ne-eqb, IsPart, IsAbs, IsKept, clean_parts-IsKept, join-abs}
use pod_snapshotter.Go.Path.Laws.{clean_unrooted, clean_of_IsAbs}
use pod_snapshotter.Artifact.Uri.{Uri, climbs}
use pod_snapshotter.Artifact.Uri.Roundtrip.{abs_not_root}
use pod_snapshotter.Artifact.Manifest.{valid_rel_path}

split-join : (l : List Bytes) → l ≢ [] → All IsKept l → split slash (join slash l) ≡ l
unfolding join
split-join [] n h = absurd (n refl)
split-join (s ∷ []) n h = split_of_Lacks slash s h.0.no_slash
split-join (s ∷ t ∷ l) n h =
    split-append slash s (join slash (t ∷ l)) h.0.no_slash
    ∙ ap (λ r. s ∷ r) (split-join (t ∷ l) (λ e. cc) h.1)

not_rooted : (p : Bytes) → has_prefix p (codes "/") ≡ false → is_rooted p ≡ false
unfolding is_rooted has_prefix eqb
not_rooted [] h = refl
not_rooted (a ∷ s) h = ground arith

kept-IsPart :
    (l : List Bytes) → All IsKept l → any (λ part. eqb part dotdot) l ≡ false → All IsPart l
kept-IsPart [] h n = tt
kept-IsPart (s ∷ l) h n = (
  record {
    filled = h.0.filled;
    not_dot = h.0.not_dot;
    not_dotdot = ground (arith, eqb_iff s dotdot);
    no_slash = h.0.no_slash;
  },
  kept-IsPart l h.1 (ground arith),
)

relative-IsAbs :
    (p : Bytes) (l : List Bytes)
    → p ≡ relative l
    → All IsKept l
    → climbs p ≡ false
    → p ≢ dot
    → IsAbs (slash ∷ p)
unfolding relative climbs
relative-IsAbs p [] e h c n = absurd (n e)
relative-IsAbs p (s ∷ l) e h c n =
    let some_part : s ∷ l ≢ [] = λ q. cc in
    let in_parts =
      ap (any (λ part. eqb part dotdot)) (ap (split slash) e ∙ split-join (s ∷ l) some_part h) in
    record {
      parts = s ∷ l;
      some_part = some_part;
      ordinary = kept-IsPart (s ∷ l) h (sym in_parts ∙ c);
      shape = ap (λ r. slash ∷ r) e ∙ join-abs (s ∷ l) some_part;
    }

module _ (p : Bytes) (h : valid_rel_path p ≡ ok tt) where
  valid_clean : p ≡ clean p
  unfolding valid_rel_path
  valid_clean = ground (arith, eqb_iff p (clean p))

  valid_relative : has_prefix p (codes "/") ≡ false
  unfolding valid_rel_path
  valid_relative = ground arith

  pub valid_climbs : climbs p ≡ false
  unfolding valid_rel_path
  valid_climbs = ground arith

  -- A path that passes the check, other than `.`, consists of ordinary parts.
  pub valid_rel_path-IsAbs : p ≢ dot → IsAbs (slash ∷ p)
  valid_rel_path-IsAbs n =
      relative-IsAbs p (clean_parts false [] (split slash p))
        (valid_clean ∙ clean_unrooted p (not_rooted p valid_relative))
        (clean_parts-IsKept [] (split slash p) tt (split-Lacks slash p)) valid_climbs n

abs_not_slash : (p : Bytes) → IsAbs p → p ≢ slash ∷ []
abs_not_slash p a e = abs_not_root a.parts a.some_part a.ordinary (sym a.shape ∙ e)

-- Joining a directory prefix with an entry that passes the check, other than `.`, names the object
-- at that very path below the prefix.
pub join-valid_rel_path :
    (u : Uri) (p : Bytes)
    → u.dir ≡ true
    → valid_rel_path p ≡ ok tt
    → p ≢ dot
    → Uri.join u p ≡ ok (record { scheme = u.scheme; path = u.path ++ slash ∷ p; dir = false })
unfolding Uri.join
join-valid_rel_path u p d h n =
    let a = valid_rel_path-IsAbs p h n in
    rw (
      d,
      valid_climbs p h,
      clean_of_IsAbs (slash ∷ p) a,
      ne-eqb (slash ∷ p) (slash ∷ []) (abs_not_slash (slash ∷ p) a),
    )
