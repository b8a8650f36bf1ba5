-- ===== src/Go/Url.antt =====
-- url.Parse of Go's net/url, for the three components that the program reads. Two things that no
-- answer of the program depends on are left out: a host is not decoded nor checked (a host that is
-- not empty is refused in any case), and what failed is not told apart.
pub mod Laws
use mathlib.Core.Option
use pod_snapshotter.Base.{
  ℕ, ◌+◌, ◌-◌, ◌*◌, Bool, not, ◌&&◌, ◌||◌, Option, none, some, [], ◌∷◌, leb, ltb, ◌==◌,
  if◌then◌else◌, any, map,
}
use pod_snapshotter.Base.Bytes.{Bytes, codes, eqb, has_prefix, contains, cut}

pub record Url : Type 0 where
  pub scheme : Bytes
  pub host : Bytes
  pub path : Bytes

infixl 5 ◌>>=◌
abbrev ◌>>=◌ {ℓ κ} : {A : Type ℓ} {B : Type κ} → Option A → (A → Option B) → Option B
none >>= f = none
some a >>= f = f a

abbrev between : ℕ → ℕ → ℕ → Bool
between lo hi a = leb lo a && leb a hi

is_letter : ℕ → Bool
is_letter a = between b'a' b'z' a || between b'A' b'Z' a

is_digit : ℕ → Bool
is_digit a = between b'0' b'9' a

to_lower : ℕ → ℕ
to_lower a = if between b'A' b'Z' a then a + 32 else a

hex_digit : ℕ → Option ℕ
unfolding is_digit
hex_digit a =
    if is_digit a
    then some (a - b'0')
    else if between b'a' b'f' a
    then some (a - b'a' + 10)
    else if between b'A' b'F' a
    then some (a - b'A' + 10)
    else none

hex_pair : ℕ → ℕ → Option ℕ
unfolding hex_digit
hex_pair a b = do high ← hex_digit a; low ← hex_digit b; some (high * 16 + low)

-- unescape(s, encodePath): `%XY` is a byte, and a bad escape is an error.
unescape : Bytes → Option Bytes
unfolding hex_pair
unescape [] = some []
unescape (a ∷ []) = if a == b'%' then none else some (a ∷ [])
unescape (a ∷ b ∷ []) =
    let plain = Option.map (λ t. a ∷ t) (unescape (b ∷ [])) in if a == b'%' then none else plain
unescape (a ∷ b ∷ c ∷ s) =
    let escaped = hex_pair b c >>= λ v. Option.map (λ t. v ∷ t) (unescape s) in
    let plain = Option.map (λ t. a ∷ t) (unescape (b ∷ c ∷ s)) in
    if a == b'%' then escaped else plain

unfoldable pub is_ctl : ℕ → Bool
is_ctl a = ltb a b' ' || a == 127

-- getScheme after its first letter: the letters so far, in reverse, do not matter to a failure.
scheme_tail : Bytes → Option (Bytes × Bytes)
unfolding is_letter is_digit
scheme_tail [] = none
scheme_tail (a ∷ s) =
    let more = Option.map (λ r. (a ∷ r.0, r.1)) (scheme_tail s) in
    if is_letter a || is_digit a || a == b'+' || a == b'-' || a == b'.'
    then more
    else if a == b':'
    then some ([], s)
    else none

or_no_scheme : Bytes → Option (Bytes × Bytes) → Option (Bytes × Bytes)
or_no_scheme raw none = some ([], raw)
or_no_scheme raw (some r) = some r

-- getScheme: the scheme and the rest, or no scheme and the whole; a leading colon is an error.
get_scheme : Bytes → Option (Bytes × Bytes)
unfolding scheme_tail or_no_scheme
get_scheme [] = some ([], [])
get_scheme (a ∷ s) =
    if is_letter a
    then or_no_scheme (a ∷ s) (scheme_tail (a ∷ s))
    else if a == b':'
    then none
    else some ([], a ∷ s)

-- The text after the last `@`, and the user information before it.
after_at : Bytes → Option (Bytes × Bytes)
after_at [] = none
after_at (a ∷ s) = elim (after_at s) [
  | some (user, host) ↦ some (a ∷ user, host)
  | none ↦ if a == b'@' then some ([], s) else none
]

is_user_byte : ℕ → Bool
unfolding is_letter is_digit contains
is_user_byte a = is_letter a || is_digit a || contains a (codes "-._:~!$&'()*+,;=%@")

-- parseAuthority, to the host
authority_host : Bytes → Option Bytes
unfolding after_at is_user_byte unescape
authority_host authority = elim (after_at authority) [
  | none ↦ some authority
  | some (user, host) ↦
      if any (λ a. not (is_user_byte a)) user then none else unescape user >>= λ _. some host
]

-- `authority[:i], authority[i:]` at the first slash
split_authority : Bytes → Bytes × Bytes
split_authority [] = ([], [])
split_authority (a ∷ s) =
    let rest = split_authority s in if a == b'/' then ([], a ∷ s) else (a ∷ rest.0, rest.1)

-- parse after the scheme and the query are off.
parse_rest : Bytes → Bytes → Option Url
unfolding split_authority authority_host unescape has_prefix eqb cut contains
parse_rest scheme rest =
    let path_only =
      Option.map (λ p. record { scheme = scheme; host = []; path = p }) (unescape rest) in
    let with_authority =
      (let (authority, path) = split_authority (elim rest [ _ ∷ (_ ∷ r) ↦ r | _ ↦ [] ]) in
        authority_host authority >>= λ h.
        unescape path >>= λ p. some (record { scheme = scheme; host = h; path = p })) in
    if not (has_prefix rest (codes "/")) && not (eqb scheme [])
    then some (record { scheme = scheme; host = []; path = [] })
    else if not (has_prefix rest (codes "/")) && contains b':' (cut b'/' rest).0
    then none
    else if (not (eqb scheme []) || not (has_prefix rest (codes "///")))
        && has_prefix rest (codes "//")
    then with_authority
    else path_only

-- parse(raw, false): what follows the first `?` is the query.
parse_no_fragment : Bytes → Option Url
parse_no_fragment raw =
    if any is_ctl raw
    then none
    else if eqb raw (codes "*")
    then some (record { scheme = []; host = []; path = codes "*" })
    else get_scheme raw >>= λ r. parse_rest (map to_lower r.0) (cut b'?' r.1).0

-- url.Parse: what follows the first `#` is the fragment, and a bad escape in it is an error.
unfoldable pub url_parse : Bytes → Option Url
unfolding parse_no_fragment parse_rest get_scheme to_lower is_ctl unescape cut eqb
url_parse raw = do url ← parse_no_fragment (cut b'#' raw).0; _ ← unescape (cut b'#' raw).1; some url
