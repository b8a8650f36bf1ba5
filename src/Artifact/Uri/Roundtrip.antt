-- ===== src/Artifact/Uri/Roundtrip.antt =====
-- A URI reads back as it was printed.
use pod_snapshotter.Base.{
  ◌≡◌, refl, sym, ap, ◌∙◌, ◌≢◌, inl, inr, Bool, true, false, some, List, [], ◌∷◌, ◌++◌, arith, All,
  All-append, append_assoc, append-nil, subst, ◌||◌,
}
use pod_snapshotter.Base.Bytes.{Bytes, codes, eqb, has_prefix, has_suffix}
use pod_snapshotter.Base.Result.{ok}
use pod_snapshotter.Go.Path.{slash, clean}
use pod_snapshotter.Go.Path.Parts.{IsPart, abs, ne-eqb}
use pod_snapshotter.Go.Path.Laws.{clean-abs}
use pod_snapshotter.Go.Path.Slash.{
  has_suffix-append_slash, has_suffix-abs, clean-abs-slash, any-dotdot-abs, any-dotdot-abs-slash,
}
use pod_snapshotter.Go.Url.{url_parse}
use pod_snapshotter.Go.Url.Laws.{IsPlain, is_plain, IsScheme, url_parse-located}
use pod_snapshotter.Artifact.Uri.{
  Uri, scheme_fuse, scheme_file, parse, parse_url, to_string, climbs,
}
use pod_snapshotter.Artifact.Uri.Parse.{IsValid}

known_eqb : (s : Bytes) → IsScheme s → (eqb s scheme_fuse || eqb s scheme_file) ≡ true
unfolding eqb
known_eqb s (inl e) = rw e
known_eqb s (inr e) = rw e

no_host : eqb [] [] ≡ true
unfolding eqb
no_host = refl

abs-slash_first : (l : List Bytes) → l ≢ [] → has_prefix (abs l) (slash ∷ []) ≡ true
unfolding has_prefix
abs-slash_first [] n = absurd (n refl)
abs-slash_first (s ∷ l) n = refl

pub abs_not_root : (l : List Bytes) → l ≢ [] → All IsPart l → abs l ≢ slash ∷ []
abs_not_root [] n h = absurd (n refl)
abs_not_root ([] ∷ l) n h = absurd (h.0.filled refl)
abs_not_root ((a ∷ s) ∷ l) n h = λ e. cc

pub abs_not_dot : (l : List Bytes) → abs l ≢ codes "."
abs_not_dot [] e = cc
abs_not_dot (s ∷ l) e = ground arith

-- Parse after url.Parse, of a rooted path whose parts are not `..`.
pub parse_url-accepts :
    (raw s p : Bytes) (l : List Bytes)
    → IsScheme s
    → climbs p ≡ false
    → clean p ≡ abs l
    → l ≢ []
    → All IsPart l
    → parse_url raw (record { scheme = s; host = []; path = p })
      ≡ ok (record { scheme = s; path = abs l; dir = has_suffix p (codes "/") })
unfolding parse_url
parse_url-accepts raw s p l k c e n h =
    rw (known_eqb s k, no_host, c, e)
      (rw (
        ne-eqb (abs l) (slash ∷ []) (abs_not_root l n h),
        ne-eqb (abs l) (codes ".") (abs_not_dot l),
        abs-slash_first l n,
      ))

-- A plain rooted path behind a known scheme is taken as it stands.
url_parse_path :
    (s p : Bytes) (l : List Bytes) (rest : Bytes)
    → IsScheme s
    → p ≡ abs l ++ rest
    → l ≢ []
    → All IsPlain p
    → url_parse (s ++ (codes "://" ++ p)) ≡ some (record { scheme = s; host = []; path = p })
url_parse_path s p [] rest k e n h = absurd (n refl)
url_parse_path s p (part ∷ l) rest k e n h =
    rw e (url_parse-located s ((part ++ abs l) ++ rest) k (rw e at h).1)

parse_path :
    (s p : Bytes) (l : List Bytes) (rest : Bytes)
    → IsScheme s
    → p ≡ abs l ++ rest
    → l ≢ []
    → All IsPart l
    → All IsPlain p
    → climbs p ≡ false
    → clean p ≡ abs l
    → parse (s ++ (codes "://" ++ p))
      ≡ ok (record { scheme = s; path = abs l; dir = has_suffix p (codes "/") })
unfolding parse
parse_path s p l rest k e n h plain c q =
    rw (url_parse_path s p l rest k e n plain, parse)
      (parse_url-accepts (s ++ (codes "://" ++ p)) s p l k c q n h)

-- The text of a single object, and of a directory prefix.
pub parse_object :
    (s : Bytes) (l : List Bytes)
    → IsScheme s
    → l ≢ []
    → All IsPart l
    → All IsPlain (abs l)
    → parse (s ++ (codes "://" ++ abs l)) ≡ ok (record { scheme = s; path = abs l; dir = false })
parse_object s l k n h plain =
    parse_path s (abs l) l [] k (sym (append-nil (abs l))) n h plain
      (unfold climbs in any-dotdot-abs l n h) (clean-abs l n h)
    ∙ ap (λ d. ok (record { scheme = s; path = abs l; dir = d })) (has_suffix-abs l h)

pub parse_directory :
    (s : Bytes) (l : List Bytes)
    → IsScheme s
    → l ≢ []
    → All IsPart l
    → All IsPlain (abs l)
    → parse (s ++ (codes "://" ++ (abs l ++ slash ∷ [])))
      ≡ ok (record { scheme = s; path = abs l; dir = true })
parse_directory s l k n h plain =
    parse_path s (abs l ++ slash ∷ []) l (slash ∷ []) k refl n h
      (All-append IsPlain (abs l) (slash ∷ []) plain (unfold is_plain in (refl, tt)))
      (unfold climbs in any-dotdot-abs-slash l n h) (clean-abs-slash l n h)
    ∙ ap (λ d. ok (record { scheme = s; path = abs l; dir = d })) (has_suffix-append_slash (abs l))

parse_printed :
    (s : Bytes) (l : List Bytes) (d : Bool)
    → IsScheme s
    → l ≢ []
    → All IsPart l
    → All IsPlain (abs l)
    → parse (to_string (record { scheme = s; path = abs l; dir = d }))
      ≡ ok (record { scheme = s; path = abs l; dir = d })
unfolding to_string
parse_printed s l true k n h plain =
    ap parse (append_assoc s (codes "://" ++ abs l) (slash ∷ [])) ∙ parse_directory s l k n h plain
parse_printed s l false k n h plain = parse_object s l k n h plain

-- A valid URI whose path needs no escape reads back as it was printed, with its scheme, its path
-- and the slash that marks a directory.
pub parse-to_string : (u : Uri) → IsValid u → All IsPlain u.path → parse (to_string u) ≡ ok u
parse-to_string u v plain =
    let a = v.usable_path in
    subst
      (λ p.
        parse (to_string (record { scheme = u.scheme; path = p; dir = u.dir }))
        ≡ ok (record { scheme = u.scheme; path = p; dir = u.dir }))
      (sym a.shape)
      (parse_printed u.scheme a.parts u.dir v.known_scheme a.some_part a.ordinary
        (subst (All IsPlain) a.shape plain))
