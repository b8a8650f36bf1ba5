-- ===== src/Go/Path/Parts.antt =====
-- The parts of a path, and those that one step of Clean keeps.
use mathlib.Core.List.{reverse-append}
use pod_snapshotter.Base.{
  ◌≡◌, refl, sym, ap, ◌≢◌, inl, inr, true, false, List, [], ◌∷◌, ◌++◌, reverse, subst, append-nil,
  arith, Bool-cases, All, All-append,
}
use pod_snapshotter.Base.Bytes.{Bytes, eqb, eqb_iff, has_prefix, join, Lacks}
use pod_snapshotter.Go.Path.{slash, dot, dotdot, up, clean_step, clean_parts, relative}

-- An ordinary part of a path.
pub record IsPart (s : Bytes) : Type 0 where
  pub filled : s ≢ []
  pub not_dot : s ≢ dot
  pub not_dotdot : s ≢ dotdot
  pub no_slash : Lacks slash s

-- The rooted path with the given parts.
abbrev pub abs : List Bytes → Bytes
abs [] = []
abs (s ∷ l) = slash ∷ (s ++ abs l)

-- A rooted path of at least one part, with no empty part and no `.` or `..` in it.
pub record IsAbs (p : Bytes) : Type 0 where
  pub parts : List Bytes
  pub some_part : parts ≢ []
  pub ordinary : All IsPart parts
  pub shape : p ≡ abs parts

pub join-abs : (l : List Bytes) → l ≢ [] → slash ∷ join slash l ≡ abs l
unfolding join
join-abs [] h = absurd (h refl)
join-abs (s ∷ []) h = rw append-nil
join-abs (s ∷ t ∷ l) h = ap (λ r. slash ∷ (s ++ r)) (join-abs (t ∷ l) (λ e. cc))

All-reverse {ℓ κ} : {A : Type ℓ} (P : A → Type κ) (xs : List A) → All P xs → All P (reverse xs)
All-reverse P [] h = tt
All-reverse P (x ∷ xs) h =
    subst (All P) (sym (reverse-append (x ∷ []) xs))
      (All-append P (reverse xs) (x ∷ []) (All-reverse P xs h.1) (h.0, tt))

-- What holds of every part that a relative path keeps, `..` too.
pub record IsKept (s : Bytes) : Type 0 where
  pub filled : s ≢ []
  pub not_dot : s ≢ dot
  pub no_slash : Lacks slash s

dotdot-IsKept : IsKept dotdot
dotdot-IsKept = record {
  filled = λ e. cc;
  not_dot = λ e. cc;
  no_slash = (omega arith, (omega arith, tt));
}

eqb-ne : (s t : Bytes) → eqb s t ≡ false → s ≢ t
eqb-ne s t h e = ground (arith, eqb_iff s t)

pub ne-eqb : (s t : Bytes) → s ≢ t → eqb s t ≡ false
ne-eqb s t h = ground (arith, eqb_iff s t)

up-IsPart : (stack : List Bytes) → All IsPart stack → All IsPart (up true stack)
unfolding up
up-IsPart [] h = tt
up-IsPart (top ∷ stack) h = rw (ne-eqb top dotdot h.0.not_dotdot) h.1

clean_step-IsPart :
    (stack : List Bytes) (part : Bytes)
    → All IsPart stack
    → Lacks slash part
    → All IsPart (clean_step true stack part)
unfolding clean_step
clean_step-IsPart stack part h n = elim (Bool-cases (eqb part [])) [
  | inl e ↦ rw e h
  | inr a ↦ rw a (elim (Bool-cases (eqb part dot)) [
    | inl e ↦ rw e h
    | inr b ↦ rw b (elim (Bool-cases (eqb part dotdot)) [
      | inl e ↦ rw e (up-IsPart stack h)
      | inr c ↦ rw c (
        record {
          filled = eqb-ne part [] a;
          not_dot = eqb-ne part dot b;
          not_dotdot = eqb-ne part dotdot c;
          no_slash = n;
        },
        h,
      )
    ])
  ])
]

pub clean_parts-IsPart :
    (stack parts : List Bytes)
    → All IsPart stack
    → All (Lacks slash) parts
    → All IsPart (clean_parts true stack parts)
unfolding clean_parts
clean_parts-IsPart stack [] h n = All-reverse IsPart stack h
clean_parts-IsPart stack (part ∷ parts) h n =
    clean_parts-IsPart (clean_step true stack part) parts (clean_step-IsPart stack part h n.0) n.1

up-IsKept : (stack : List Bytes) → All IsKept stack → All IsKept (up false stack)
unfolding up
up-IsKept [] h = (dotdot-IsKept, tt)
up-IsKept (top ∷ stack) h = elim (Bool-cases (eqb top dotdot)) [
  | inl e ↦ rw e (dotdot-IsKept, h)
  | inr n ↦ rw n h.1
]

clean_step-IsKept :
    (stack : List Bytes) (part : Bytes)
    → All IsKept stack
    → Lacks slash part
    → All IsKept (clean_step false stack part)
unfolding clean_step
clean_step-IsKept stack part h n = elim (Bool-cases (eqb part [])) [
  | inl e ↦ rw e h
  | inr a ↦ rw a (elim (Bool-cases (eqb part dot)) [
    | inl e ↦ rw e h
    | inr b ↦ rw b (elim (Bool-cases (eqb part dotdot)) [
      | inl e ↦ rw e (up-IsKept stack h)
      | inr c ↦
          rw c (record { filled = eqb-ne part [] a; not_dot = eqb-ne part dot b; no_slash = n }, h)
    ])
  ])
]

pub clean_parts-IsKept :
    (stack parts : List Bytes)
    → All IsKept stack
    → All (Lacks slash) parts
    → All IsKept (clean_parts false stack parts)
unfolding clean_parts
clean_parts-IsKept stack [] h n = All-reverse IsKept stack h
clean_parts-IsKept stack (part ∷ parts) h n =
    clean_parts-IsKept (clean_step false stack part) parts (clean_step-IsKept stack part h n.0) n.1

-- A relative result does not begin with a slash.
pub relative_unrooted :
    (l : List Bytes) → All IsKept l → has_prefix (relative l) (slash ∷ []) ≡ false
unfolding relative has_prefix join
relative_unrooted [] h = refl
relative_unrooted ([] ∷ l) h = absurd (h.0.filled refl)
relative_unrooted ((a ∷ s) ∷ []) h = ground (arith, h.0.no_slash)
relative_unrooted ((a ∷ s) ∷ t ∷ l) h = ground (arith, h.0.no_slash)
