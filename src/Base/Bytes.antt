-- ===== src/Base/Bytes.antt =====
-- Go strings as lists of bytes, with the functions of package strings that the code calls.
use Prim.Native.Char.{code}
use Prim.Native.String.{String}
use mathlib.Core.Path.{ap₂}
use pod_snapshotter.Base.{
  ℕ, ◌≡◌, refl, sym, ap, ◌∙◌, ◌≢◌, ◌↔◌, inl, inr, Bool, true, false, ◌&&◌, ◌||◌, List, [], ◌∷◌,
  ◌++◌, arith, ◌==◌, ==_iff, Bool-cases, if◌then◌else◌, All, reverse,
}

abbrev pub Bytes : Type 0
Bytes = List ℕ

-- A literal of the source. All of them are ASCII, so their code points are their bytes.
abbrev pub codes : String → Bytes
codes String.[] = []
codes (String.◌∷◌ c s) = code c ∷ codes s

-- `s == t`
unfoldable pub eqb : Bytes → Bytes → Bool
eqb [] [] = true
eqb (a ∷ s) (b ∷ t) = a == b && eqb s t
eqb _ _ = false

pub eqb_iff : (s t : Bytes) → (eqb s t ≡ true) ↔ (s ≡ t)
unfolding eqb
eqb_iff [] [] = ground arith
eqb_iff [] (b ∷ t) = ground arith
eqb_iff (a ∷ s) [] = ground arith
eqb_iff (a ∷ s) (b ∷ t) = ground (arith, eqb_iff s t)

-- strings.HasPrefix(s, p)
unfoldable pub has_prefix : Bytes → Bytes → Bool
has_prefix s [] = true
has_prefix [] (b ∷ p) = false
has_prefix (a ∷ s) (b ∷ p) = a == b && has_prefix s p

-- strings.HasSuffix(s, p): a suffix is the whole or a suffix of the tail.
unfoldable pub has_suffix : Bytes → Bytes → Bool
unfolding eqb
has_suffix [] p = eqb [] p
has_suffix (a ∷ s) p = eqb (a ∷ s) p || has_suffix s p

-- strings.TrimPrefix(s, p), for a prefix of one byte
unfoldable pub trim_prefix : ℕ → Bytes → Bytes
trim_prefix c [] = []
trim_prefix c (a ∷ s) = if a == c then s else a ∷ s

-- strings.TrimRight(s, c), for a cut set of one byte
unfoldable pub trim_step : ℕ → ℕ → Bytes → Bytes
trim_step c a [] = if a == c then [] else a ∷ []
trim_step c a (b ∷ s) = a ∷ b ∷ s

unfoldable pub trim_right : ℕ → Bytes → Bytes
trim_right c [] = []
trim_right c (a ∷ s) = trim_step c a (trim_right c s)

cons_head : ℕ → List Bytes → List Bytes
cons_head a [] = (a ∷ []) ∷ []
cons_head a (h ∷ t) = (a ∷ h) ∷ t

-- strings.Split(s, c), for a separator of one byte
unfoldable pub split : ℕ → Bytes → List Bytes
unfolding cons_head
split c [] = [] ∷ []
split c (a ∷ s) = let rest = split c s in if a == c then [] ∷ rest else cons_head a rest

-- strings.Join(l, c), for a separator of one byte
unfoldable pub join : ℕ → List Bytes → Bytes
join c [] = []
join c (s ∷ []) = s
join c (s ∷ t ∷ l) = s ++ c ∷ join c (t ∷ l)

-- strings.Cut(s, c), for a separator of one byte, without the flag: what stands before the first
-- `c` and what stands after it.
unfoldable pub cut : ℕ → Bytes → Bytes × Bytes
cut c [] = ([], [])
cut c (a ∷ s) = let rest = cut c s in if a == c then ([], s) else (a ∷ rest.0, rest.1)

-- strings.Contains(s, c), for one byte
unfoldable pub contains : ℕ → Bytes → Bool
contains c [] = false
contains c (a ∷ s) = a == c || contains c s

-- unicode.IsSpace, for ASCII
abbrev is_space : ℕ → Bool
is_space a = a == b' ' || a == 9 || a == 10 || a == 11 || a == 12 || a == 13

trim_left_space : Bytes → Bytes
trim_left_space [] = []
trim_left_space (a ∷ s) = let rest = trim_left_space s in if is_space a then rest else a ∷ s

-- strings.TrimSpace(s), for ASCII
unfoldable pub trim_space : Bytes → Bytes
unfolding trim_left_space
trim_space s = reverse (trim_left_space (reverse (trim_left_space s)))

-- No byte of `s` is `c`.
abbrev pub Lacks : ℕ → Bytes → Type 0
Lacks c = All (λ a. a ≢ c)

join_cons : (c a : ℕ) (l : List Bytes) → l ≢ [] → join c (cons_head a l) ≡ a ∷ join c l
unfolding join cons_head
join_cons c a [] h = absurd (h refl)
join_cons c a (s ∷ []) h = refl
join_cons c a (s ∷ t ∷ l) h = refl

split-ne-nil : (c : ℕ) (s : Bytes) → split c s ≢ []
unfolding split
split-ne-nil c [] = ground arith
split-ne-nil c (a ∷ s) = ground arith

join_nil_cons : (c : ℕ) (l : List Bytes) → l ≢ [] → join c ([] ∷ l) ≡ c ∷ join c l
unfolding join
join_nil_cons c [] h = absurd (h refl)
join_nil_cons c (s ∷ l) h = refl

-- Joining what was split gives the text back.
pub join-split : (c : ℕ) (s : Bytes) → join c (split c s) ≡ s
unfolding split
join-split c [] = unfold join in refl
join-split c (a ∷ s) = elim (Bool-cases (a == c)) [
  | inl e ↦ rw e (
      join_nil_cons c (split c s) (split-ne-nil c s)
      ∙ ap₂ ◌∷◌ (sym ((==_iff a c).0 e)) (join-split c s))
  | inr n ↦ rw n (join_cons c a (split c s) (split-ne-nil c s) ∙ ap (λ t. a ∷ t) (join-split c s))
]

cons_head-Lacks :
    (c a : ℕ) (l : List Bytes) → a ≢ c → All (Lacks c) l → All (Lacks c) (cons_head a l)
unfolding cons_head
cons_head-Lacks c a [] n h = ((n, tt), tt)
cons_head-Lacks c a (s ∷ l) n h = ((n, h.0), h.1)

-- The parts of a split do not hold the separator.
pub split-Lacks : (c : ℕ) (s : Bytes) → All (Lacks c) (split c s)
unfolding split
split-Lacks c [] = (tt, tt)
split-Lacks c (a ∷ s) = elim (Bool-cases (a == c)) [
  | inl e ↦ rw e (tt, split-Lacks c s)
  | inr n ↦ rw n (cons_head-Lacks c a (split c s) (ground arith) (split-Lacks c s))
]

eq_false_of_ne : (a c : ℕ) → a ≢ c → (a == c) ≡ false
eq_false_of_ne a c h = ground arith

pub split_of_Lacks : (c : ℕ) (s : Bytes) → Lacks c s → split c s ≡ s ∷ []
unfolding split
split_of_Lacks c [] h = refl
split_of_Lacks c (a ∷ s) h =
    rw (eq_false_of_ne a c h.0) (rw (split_of_Lacks c s h.1) (unfold cons_head in refl))

eq_true_self : (c : ℕ) → (c == c) ≡ true
eq_true_self c = ground arith

pub split-append : (c : ℕ) (s t : Bytes) → Lacks c s → split c (s ++ c ∷ t) ≡ s ∷ split c t
unfolding split
split-append c [] t h = rw (eq_true_self c)
split-append c (a ∷ s) t h =
    rw (eq_false_of_ne a c h.0) (rw (split-append c s t h.1) (unfold cons_head in refl))

pub cut_of_Lacks : (c : ℕ) (s : Bytes) → Lacks c s → cut c s ≡ (s, [])
unfolding cut
cut_of_Lacks c [] h = refl
cut_of_Lacks c (a ∷ s) h = rw (eq_false_of_ne a c h.0) (rw (cut_of_Lacks c s h.1))
