-- ===== src/Go/Path/Join.antt =====
-- Join of two rooted paths of ordinary parts is the one after the other.
use mathlib.Core.Path.{ap₂}
use mathlib.Core.List.{reverse-append, reverse-reverse}
use pod_snapshotter.Base.{
  ◌≡◌, refl, sym, ap, ◌∙◌, ◌≢◌, Bool, true, List, [], ◌∷◌, ◌++◌, reverse, append-nil, append_assoc,
  All,
}
use pod_snapshotter.Base.Bytes.{Bytes, eqb, split, join, Lacks, split-append}
use pod_snapshotter.Go.Path.{slash, clean_parts, is_rooted, clean, join_path}
use pod_snapshotter.Go.Path.Parts.{IsPart, IsAbs, abs, ne-eqb, join-abs}
use pod_snapshotter.Go.Path.Laws.{
  split-abs, clean_rooted, clean_parts_empty, abs-append, clean_parts-keep, clean_parts-cons,
}

-- Ordinary parts are all kept, whatever follows them.
clean_parts-append :
    (rooted : Bool) (stack l parts : List Bytes)
    → All IsPart l
    → clean_parts rooted stack (l ++ parts) ≡ clean_parts rooted (reverse l ++ stack) parts
clean_parts-append rooted stack [] parts h = refl
clean_parts-append rooted stack (part ∷ l) parts h =
    clean_parts-cons rooted stack part (l ++ parts) h.0
    ∙ clean_parts-append rooted (part ∷ stack) l parts h.1
    ∙ ap (λ r. clean_parts rooted r parts)
        (sym (append_assoc (reverse l) (part ∷ []) stack)
          ∙ ap (λ r. r ++ stack) (sym (reverse-append (part ∷ []) l)))

split-abs_then :
    (s : Bytes) (l : List Bytes) (t : Bytes)
    → Lacks slash s
    → All IsPart l
    → split slash (s ++ (abs l ++ slash ∷ t)) ≡ s ∷ (l ++ split slash t)
split-abs_then s [] t n h = split-append slash s t n
split-abs_then s (u ∷ l) t n h =
    ap (λ r. split slash (s ++ slash ∷ r)) (append_assoc u (abs l) (slash ∷ t))
    ∙ split-append slash s (u ++ (abs l ++ slash ∷ t)) n
    ∙ ap (λ r. s ∷ r) (split-abs_then u l t h.0.no_slash h.1)

pub split-abs-slash :
    (l : List Bytes) (t : Bytes)
    → l ≢ []
    → All IsPart l
    → split slash (abs l ++ slash ∷ t) ≡ [] ∷ (l ++ split slash t)
split-abs-slash [] t n h = absurd (n refl)
split-abs-slash (s ∷ l) t n h =
    ap (λ r. split slash (slash ∷ r)) (append_assoc s (abs l) (slash ∷ t))
    ∙ split-append slash [] (s ++ (abs l ++ slash ∷ t)) tt
    ∙ ap (λ r. [] ∷ r) (split-abs_then s l t h.0.no_slash h.1)

is_rooted_append : (l : List Bytes) (t : Bytes) → l ≢ [] → is_rooted (abs l ++ t) ≡ true
unfolding is_rooted eqb
is_rooted_append [] t n = absurd (n refl)
is_rooted_append (s ∷ l) t n = refl

reverse_twice {ℓ} : {A : Type ℓ} (l : List A) → reverse (reverse l ++ []) ≡ l
reverse_twice l = rw append-nil (reverse-reverse l)

append-ne-nil : (l m : List Bytes) → l ≢ [] → l ++ m ≢ []
append-ne-nil [] m n = absurd (n refl)
append-ne-nil (s ∷ l) m n = λ e. cc

-- What Clean does after the parts of a rooted path and a slash.
pub clean-abs-then_slash :
    (l : List Bytes) (t : Bytes)
    → l ≢ []
    → All IsPart l
    → clean (abs l ++ slash ∷ t) ≡ slash ∷ join slash (clean_parts true (reverse l) (split slash t))
clean-abs-then_slash l t n h =
    clean_rooted (abs l ++ slash ∷ t) (is_rooted_append l (slash ∷ t) n)
    ∙ ap (λ r. slash ∷ join slash (clean_parts true [] r)) (split-abs-slash l t n h)
    ∙ ap (λ r. slash ∷ join slash r)
        (clean_parts_empty true [] (l ++ split slash t)
          ∙ clean_parts-append true [] l (split slash t) h
          ∙ ap (λ r. clean_parts true r (split slash t)) (append-nil (reverse l)))

clean_parts_after :
    (l m : List Bytes)
    → m ≢ []
    → All IsPart m
    → clean_parts true (reverse l) (split slash (abs m)) ≡ l ++ m
clean_parts_after l m n h =
    ap (λ r. clean_parts true (reverse l) r) (split-abs m n h)
    ∙ clean_parts_empty true (reverse l) m
    ∙ clean_parts-keep true (reverse l) m h
    ∙ ap (λ r. r ++ m) (reverse-reverse l)

kept_both : (p q : Bytes) → p ≢ [] → q ≢ [] → join_path (p ∷ q ∷ []) ≡ clean (p ++ slash ∷ q)
unfolding join_path join
kept_both p q n m = rw (ne-eqb p [] n, ne-eqb q [] m)

abs-ne-nil : (p : Bytes) → IsAbs p → p ≢ []
abs-ne-nil p a e = not_empty a.parts a.some_part (sym a.shape ∙ e)
  where
    not_empty : (l : List Bytes) → l ≢ [] → abs l ≢ []
    not_empty [] n h = n refl
    not_empty (s ∷ l) n h = cc

-- Joining two rooted paths of ordinary parts puts the second under the first.
pub join_path-IsAbs : (p q : Bytes) → IsAbs p → IsAbs q → join_path (p ∷ q ∷ []) ≡ p ++ q
join_path-IsAbs p q a b =
    kept_both p q (abs-ne-nil p a) (abs-ne-nil q b)
    ∙ ap₂ (λ r t. clean (r ++ slash ∷ t)) a.shape b.shape
    ∙ clean-abs-then_slash a.parts (abs b.parts) a.some_part a.ordinary
    ∙ ap (λ r. slash ∷ join slash r) (clean_parts_after a.parts b.parts b.some_part b.ordinary)
    ∙ join-abs (a.parts ++ b.parts) (append-ne-nil a.parts b.parts a.some_part)
    ∙ abs-append a.parts b.parts
    ∙ sym (ap₂ ◌++◌ a.shape b.shape)
