-- ===== src/Go/Path/Slash.antt =====
-- A path of ordinary parts, with and without a slash at its end.
use mathlib.Core.List.{reverse-reverse}
use pod_snapshotter.Base.{
  ◌≡◌, refl, sym, ap, ◌∙◌, ◌≢◌, true, false, List, [], ◌∷◌, ◌++◌, reverse, append-nil, arith, All,
  any, ℕ,
}
use pod_snapshotter.Base.Bytes.{Bytes, eqb, has_suffix, split, join, Lacks}
use pod_snapshotter.Go.Path.{slash, dotdot, clean_parts, clean}
use pod_snapshotter.Go.Path.Parts.{IsPart, abs, ne-eqb, join-abs}
use pod_snapshotter.Go.Path.Laws.{split-abs, clean_parts_empty}
use pod_snapshotter.Go.Path.Join.{split-abs-slash, clean-abs-then_slash}

pub has_suffix-append_slash : (s : Bytes) → has_suffix (s ++ slash ∷ []) (slash ∷ []) ≡ true
unfolding has_suffix eqb
has_suffix-append_slash [] = refl
has_suffix-append_slash (a ∷ s) = ground (arith, has_suffix-append_slash s)

slash_not_last : (s t : Bytes) → s ≢ [] → eqb (slash ∷ (s ++ t)) (slash ∷ []) ≡ false
unfolding eqb
slash_not_last [] t n = absurd (n refl)
slash_not_last (a ∷ s) t n = refl

other_not_slash : (a : ℕ) (s : Bytes) → a ≢ slash → eqb (a ∷ s) (slash ∷ []) ≡ false
unfolding eqb
other_not_slash a s n = ground arith

has_suffix_after :
    (s : Bytes) (l : List Bytes)
    → Lacks slash s
    → All IsPart l
    → has_suffix (s ++ abs l) (slash ∷ []) ≡ false
unfolding has_suffix
has_suffix_after [] [] n h = unfold eqb in refl
has_suffix_after [] (t ∷ l) n h =
    rw (slash_not_last t (abs l) h.0.filled) (has_suffix_after t l h.0.no_slash h.1)
has_suffix_after (a ∷ s) l n h =
    rw (other_not_slash a (s ++ abs l) n.0) (has_suffix_after s l n.1 h)

-- A path of ordinary parts does not end with a slash.
pub has_suffix-abs : (l : List Bytes) → All IsPart l → has_suffix (abs l) (slash ∷ []) ≡ false
has_suffix-abs l h = has_suffix_after [] l tt h

-- Clean takes the slash at the end off.
pub clean-abs-slash : (l : List Bytes) → l ≢ [] → All IsPart l → clean (abs l ++ slash ∷ []) ≡ abs l
clean-abs-slash l n h =
    clean-abs-then_slash l [] n h
    ∙ ap (λ r. slash ∷ join slash r) (no_more (reverse l) ∙ reverse-reverse l)
    ∙ join-abs l n
  where
    no_more : (stack : List Bytes) → clean_parts true stack (split slash []) ≡ reverse stack
    no_more stack = unfold split clean_parts in clean_parts_empty true stack []

any-dotdot-append :
    (l m : List Bytes)
    → All IsPart l
    → any (λ part. eqb part dotdot) m ≡ false
    → any (λ part. eqb part dotdot) (l ++ m) ≡ false
any-dotdot-append [] m h e = e
any-dotdot-append (s ∷ l) m h e = rw (ne-eqb s dotdot h.0.not_dotdot) (any-dotdot-append l m h.1 e)

-- No part of such a path is `..`.
pub any-dotdot-abs :
    (l : List Bytes)
    → l ≢ []
    → All IsPart l
    → any (λ part. eqb part dotdot) (split slash (abs l)) ≡ false
any-dotdot-abs l n h =
    ap (any (λ part. eqb part dotdot)) (split-abs l n h)
    ∙ rw (ne-eqb [] dotdot (λ e. cc))
        (ap (any (λ part. eqb part dotdot)) (sym (append-nil l)) ∙ any-dotdot-append l [] h refl)

pub any-dotdot-abs-slash :
    (l : List Bytes)
    → l ≢ []
    → All IsPart l
    → any (λ part. eqb part dotdot) (split slash (abs l ++ slash ∷ [])) ≡ false
any-dotdot-abs-slash l n h =
    ap (any (λ part. eqb part dotdot)) (split-abs-slash l [] n h)
    ∙ rw (ne-eqb [] dotdot (λ e. cc))
        (any-dotdot-append l (split slash []) h (unfold split eqb in refl))
