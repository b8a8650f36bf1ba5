-- ===== src/Go/Path/Laws.antt =====
-- What Clean gives: a rooted result is a sequence of ordinary parts, and such a path is its own
-- Clean.
use mathlib.Core.List.{reverse-append}
use pod_snapshotter.Base.{
  ◌≡◌, refl, sym, ap, ◌∙◌, ◌≢◌, inl, inr, Bool, true, false, List, [], ◌∷◌, ◌++◌, reverse,
  append-nil, append_assoc, Bool-cases, All,
}
use pod_snapshotter.Base.Bytes.{
  Bytes, eqb, has_prefix, split, join, Lacks, split-Lacks, split_of_Lacks, split-append,
}
use pod_snapshotter.Go.Path.Parts.{
  IsPart, abs, IsAbs, join-abs, ne-eqb, clean_parts-IsPart, clean_parts-IsKept, relative_unrooted,
}
use pod_snapshotter.Go.Path.{
  slash, dot, dotdot, clean_step, clean_parts, is_rooted, relative, clean,
}

pub clean_rooted :
    (p : Bytes)
    → is_rooted p ≡ true
    → clean p ≡ slash ∷ join slash (clean_parts true [] (split slash p))
unfolding clean
clean_rooted p r = rw r

pub clean_unrooted :
    (p : Bytes) → is_rooted p ≡ false → clean p ≡ relative (clean_parts false [] (split slash p))
unfolding clean
clean_unrooted p r = rw r

rooted-IsAbs :
    (p : Bytes) (l : List Bytes)
    → clean p ≡ slash ∷ join slash l
    → All IsPart l
    → clean p ≢ slash ∷ []
    → IsAbs (clean p)
rooted-IsAbs p [] e h n = absurd (n (unfold join in e))
rooted-IsAbs p (part ∷ l) e h n = record {
  parts = part ∷ l;
  some_part = λ e. cc;
  ordinary = h;
  shape = e ∙ join-abs (part ∷ l) (λ e. cc);
}

-- Clean of a path, if it begins with a slash and is not the root alone, has ordinary parts only.
pub clean-IsAbs :
    (p : Bytes) → has_prefix (clean p) (slash ∷ []) ≡ true → clean p ≢ slash ∷ [] → IsAbs (clean p)
clean-IsAbs p h n = elim (Bool-cases (is_rooted p)) [
  | inl r ↦
      rooted-IsAbs p (clean_parts true [] (split slash p)) (clean_rooted p r)
        (clean_parts-IsPart [] (split slash p) tt (split-Lacks slash p)) n
  | inr r ↦ absurd (
      cc (
        relative_unrooted (clean_parts false [] (split slash p))
            (clean_parts-IsKept [] (split slash p) tt (split-Lacks slash p)),
        clean_unrooted p r,
        h,
      ))
]

-- An ordinary part is kept.
pub clean_parts-cons :
    (rooted : Bool) (stack : List Bytes) (part : Bytes) (parts : List Bytes)
    → IsPart part
    → clean_parts rooted stack (part ∷ parts) ≡ clean_parts rooted (part ∷ stack) parts
unfolding clean_parts clean_step
clean_parts-cons rooted stack part parts h =
    rw (ne-eqb part [] h.filled, ne-eqb part dot h.not_dot, ne-eqb part dotdot h.not_dotdot)

pub clean_parts-keep :
    (rooted : Bool) (stack parts : List Bytes)
    → All IsPart parts
    → clean_parts rooted stack parts ≡ reverse stack ++ parts
clean_parts-keep rooted stack [] h = unfold clean_parts in sym (append-nil (reverse stack))
clean_parts-keep rooted stack (part ∷ parts) h =
    clean_parts-cons rooted stack part parts h.0
    ∙ clean_parts-keep rooted (part ∷ stack) parts h.1
    ∙ ap (λ r. r ++ parts) (reverse-append (part ∷ []) stack)
    ∙ append_assoc (reverse stack) (part ∷ []) parts

split-abs_after :
    (s : Bytes) (l : List Bytes) → Lacks slash s → All IsPart l → split slash (s ++ abs l) ≡ s ∷ l
split-abs_after s [] n h = rw append-nil (split_of_Lacks slash s n)
split-abs_after s (t ∷ l) n h =
    split-append slash s (t ++ abs l) n ∙ ap (λ r. s ∷ r) (split-abs_after t l h.0.no_slash h.1)

-- The parts of a path of ordinary parts: an empty one before the first slash, and they.
pub split-abs : (l : List Bytes) → l ≢ [] → All IsPart l → split slash (abs l) ≡ [] ∷ l
split-abs [] n h = absurd (n refl)
split-abs (s ∷ l) n h =
    split-append slash [] (s ++ abs l) tt ∙ ap (λ r. [] ∷ r) (split-abs_after s l h.0.no_slash h.1)

pub is_rooted-abs : (l : List Bytes) → l ≢ [] → is_rooted (abs l) ≡ true
unfolding is_rooted eqb
is_rooted-abs [] n = absurd (n refl)
is_rooted-abs (s ∷ l) n = refl

-- An empty part is dropped.
pub clean_parts_empty :
    (rooted : Bool) (stack parts : List Bytes)
    → clean_parts rooted stack ([] ∷ parts) ≡ clean_parts rooted stack parts
unfolding clean_parts clean_step eqb
clean_parts_empty rooted stack parts = refl

-- A rooted path of ordinary parts is its own Clean.
pub clean-abs : (l : List Bytes) → l ≢ [] → All IsPart l → clean (abs l) ≡ abs l
clean-abs l n h =
    clean_rooted (abs l) (is_rooted-abs l n)
    ∙ ap (λ r. slash ∷ join slash (clean_parts true [] r)) (split-abs l n h)
    ∙ ap (λ r. slash ∷ join slash r) (clean_parts_empty true [] l ∙ clean_parts-keep true [] l h)
    ∙ join-abs l n

pub clean_of_IsAbs : (p : Bytes) → IsAbs p → clean p ≡ p
clean_of_IsAbs p a = rw a.shape (clean-abs a.parts a.some_part a.ordinary)

pub abs-append : (l m : List Bytes) → abs (l ++ m) ≡ abs l ++ abs m
abs-append [] m = refl
abs-append (s ∷ l) m =
    ap (λ r. slash ∷ r) (ap (λ r. s ++ r) (abs-append l m) ∙ sym (append_assoc s (abs l) (abs m)))
