-- ===== src/Go/Url/Laws.antt =====
-- url.Parse of a location that needs no escape.
use pod_snapshotter.Base.{
  ℕ, ◌≡◌, ◌≢◌, ◌⊎◌, inl, inr, Bool, true, false, not, ◌&&◌, ◌||◌, some, [], ◌∷◌, ◌++◌, arith, ◌==◌,
  any, All, All-map, All-append, map, refl,
}
use pod_snapshotter.Base.Bytes.{Bytes, codes, eqb, Lacks, cut_of_Lacks}
use pod_snapshotter.Go.Url.{
  Url, unescape, is_ctl, to_lower, get_scheme, parse_rest, parse_no_fragment, url_parse,
}

-- A byte that url.Parse takes for itself in a path: no control character and none of `%`, `?`, `#`.
unfoldable pub is_plain : ℕ → Bool
unfolding is_ctl
is_plain a = not (is_ctl a) && not (a == b'%' || a == b'?' || a == b'#')

abbrev pub IsPlain : ℕ → Type 0
IsPlain a = is_plain a ≡ true

no_ctl : (a : ℕ) → IsPlain a → is_ctl a ≡ false
unfolding is_plain
no_ctl a h = ground arith

no_percent : (a : ℕ) → IsPlain a → a ≢ b'%'
unfolding is_plain
no_percent a h = ground arith

no_query : (a : ℕ) → IsPlain a → a ≢ b'?'
unfolding is_plain
no_query a h = ground arith

no_fragment : (a : ℕ) → IsPlain a → a ≢ b'#'
unfolding is_plain
no_fragment a h = ground arith

eq_false : (a c : ℕ) → a ≢ c → (a == c) ≡ false
eq_false a c h = ground arith

unescape-Lacks : (s : Bytes) → Lacks b'%' s → unescape s ≡ some s
unfolding unescape
unescape-Lacks [] h = refl
unescape-Lacks (a ∷ []) h = rw (eq_false a b'%' h.0)
unescape-Lacks (a ∷ b ∷ []) h = rw (eq_false a b'%' h.0, eq_false b b'%' h.1.0)
unescape-Lacks (a ∷ b ∷ c ∷ s) h =
    rw (eq_false a b'%' h.0) (rw (unescape-Lacks (b ∷ c ∷ s) h.1) refl)

any_ctl : (s : Bytes) → All IsPlain s → any is_ctl s ≡ false
any_ctl [] h = refl
any_ctl (a ∷ s) h = rw (no_ctl a h.0) (any_ctl s h.1)

-- The text of a location: a scheme of the program, no host and a rooted path.
abbrev pub located : Bytes → Bytes → Bytes
located scheme t = scheme ++ (codes "://" ++ (b'/' ∷ t))

parse_rest-located :
    (scheme t : Bytes)
    → eqb scheme [] ≡ false
    → All IsPlain t
    → parse_rest scheme (codes "//" ++ (b'/' ∷ t))
      ≡ some (record { scheme = scheme; host = []; path = b'/' ∷ t })
unfolding parse_rest
parse_rest-located scheme t h p =
    rw h (rw (unescape-Lacks (b'/' ∷ t) (omega arith, All-map IsPlain _ no_percent t p)))

IsPlain-located :
    (scheme t : Bytes) → All IsPlain scheme → All IsPlain t → All IsPlain (located scheme t)
IsPlain-located scheme t s p =
    All-append IsPlain scheme (codes "://" ++ (b'/' ∷ t)) s
      (unfold is_plain in (refl, (refl, (refl, (refl, p)))))

-- With the scheme found, the rest of the text is the path.
parse_no_fragment-located :
    (scheme t : Bytes)
    → any is_ctl (located scheme t) ≡ false
    → eqb (located scheme t) (codes "*") ≡ false
    → get_scheme (located scheme t) ≡ some (scheme, codes "//" ++ (b'/' ∷ t))
    → map to_lower scheme ≡ scheme
    → eqb scheme [] ≡ false
    → All IsPlain t
    → parse_no_fragment (located scheme t)
      ≡ some (record { scheme = scheme; host = []; path = b'/' ∷ t })
unfolding parse_no_fragment
parse_no_fragment-located scheme t ctl star found lower filled p =
    rw (ctl, star, found, lower)
      (rw
        (cut_of_Lacks b'?' (codes "//" ++ (b'/' ∷ t))
          (omega arith, (omega arith, (omega arith, All-map IsPlain _ no_query t p))))
        (parse_rest-located scheme t filled p))

url_parse-no_fragment :
    (raw : Bytes) (u : Url)
    → Lacks b'#' raw
    → parse_no_fragment raw ≡ some u
    → url_parse raw ≡ some u
unfolding url_parse
url_parse-no_fragment raw u h e = rw (cut_of_Lacks b'#' raw h) (rw e (unfold unescape in refl))

-- The schemes of the program.
abbrev pub IsScheme : Bytes → Type 0
IsScheme s = (s ≡ codes "fuse") ⊎ (s ≡ codes "file")

scheme-IsPlain : (s : Bytes) → IsScheme s → All IsPlain s
unfolding is_plain
scheme-IsPlain s (inl e) = rw e (refl, (refl, (refl, (refl, tt))))
scheme-IsPlain s (inr e) = rw e (refl, (refl, (refl, (refl, tt))))

get_scheme-located :
    (s t : Bytes) → IsScheme s → get_scheme (located s t) ≡ some (s, codes "//" ++ (b'/' ∷ t))
unfolding get_scheme
get_scheme-located s t (inl e) = rw e
get_scheme-located s t (inr e) = rw e

to_lower_scheme : (s : Bytes) → IsScheme s → map to_lower s ≡ s
unfolding to_lower
to_lower_scheme s (inl e) = rw e
to_lower_scheme s (inr e) = rw e

not_star : (s t : Bytes) → IsScheme s → eqb (located s t) (codes "*") ≡ false
unfolding eqb
not_star s t (inl e) = rw e
not_star s t (inr e) = rw e

scheme_filled : (s : Bytes) → IsScheme s → eqb s [] ≡ false
unfolding eqb
scheme_filled s (inl e) = rw e
scheme_filled s (inr e) = rw e

-- A location of plain bytes is taken as it stands.
pub url_parse-located :
    (s t : Bytes)
    → IsScheme s
    → All IsPlain t
    → url_parse (located s t) ≡ some (record { scheme = s; host = []; path = b'/' ∷ t })
url_parse-located s t k p =
    let plain = IsPlain-located s t (scheme-IsPlain s k) p in
    url_parse-no_fragment (located s t) _ (All-map IsPlain _ no_fragment (located s t) plain) (
      parse_no_fragment-located s t (any_ctl (located s t) plain) (not_star s t k)
        (get_scheme-located s t k) (to_lower_scheme s k) (scheme_filled s k) p)
