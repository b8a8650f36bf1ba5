-- ===== src/Go/Path.antt =====
-- Package path of Go's standard library (filepath is the same on Linux): Clean, Join and Base, by
-- the rules that its documentation gives for the shortest equivalent path.
pub mod Parts
pub mod Laws
pub mod Join
pub mod Slash
use pod_snapshotter.Base.{ℕ, Bool, false, ◌||◌, List, [], ◌∷◌, reverse, is_empty, if◌then◌else◌}
use pod_snapshotter.Base.Bytes
use pod_snapshotter.Base.Bytes.{Bytes, codes, eqb, has_prefix, split, join}

abbrev pub slash : ℕ
slash = b'/'

abbrev pub dot : Bytes
dot = b'.' ∷ []

abbrev pub dotdot : Bytes
dotdot = b'.' ∷ b'.' ∷ []

-- A `..` removes the part before it; at the root it is dropped, and a relative path keeps it.
up : Bool → List Bytes → List Bytes
up rooted [] = if rooted then [] else dotdot ∷ []
up rooted (top ∷ stack) = if eqb top dotdot then dotdot ∷ top ∷ stack else stack

-- One part of the path, with the parts kept so far, the last one first.
clean_step : Bool → List Bytes → Bytes → List Bytes
unfolding up
clean_step rooted stack part =
    if eqb part [] || eqb part dot
    then stack
    else if eqb part dotdot
    then up rooted stack
    else part ∷ stack

pub clean_parts : Bool → List Bytes → List Bytes → List Bytes
unfolding clean_step
clean_parts rooted stack [] = reverse stack
clean_parts rooted stack (part ∷ parts) = clean_parts rooted (clean_step rooted stack part) parts

unfoldable pub is_rooted : Bytes → Bool
is_rooted [] = false
is_rooted (a ∷ s) = eqb (a ∷ []) (slash ∷ [])

unfoldable pub relative : List Bytes → Bytes
relative [] = dot
relative (part ∷ parts) = join slash (part ∷ parts)

-- path.Clean(p)
unfoldable pub clean : Bytes → Bytes
unfolding is_rooted relative clean_parts split join eqb
clean p =
    let parts = clean_parts (is_rooted p) [] (split slash p) in
    if is_rooted p then slash ∷ join slash parts else relative parts

non_empty : List Bytes → List Bytes
non_empty [] = []
non_empty (part ∷ parts) = if eqb part [] then non_empty parts else part ∷ non_empty parts

-- path.Join(elements...)
unfoldable pub join_path : List Bytes → Bytes
unfolding non_empty clean eqb join
join_path elements =
    let kept = non_empty elements in if is_empty kept then [] else clean (join slash kept)

-- path.Base(p): the last part, less trailing slashes.
last_part : List Bytes → Bytes
last_part [] = []
last_part (part ∷ []) = part
last_part (part ∷ next ∷ parts) = last_part (next ∷ parts)

base_trimmed : Bytes → Bytes
unfolding last_part split
base_trimmed [] = slash ∷ []
base_trimmed (a ∷ s) = last_part (split slash (a ∷ s))

unfoldable pub base : Bytes → Bytes
unfolding base_trimmed
base [] = dot
base (a ∷ s) = base_trimmed (Bytes.trim_right slash (a ∷ s))

-- What stands up to the last slash, that slash included.
up_to_slash : Bytes → Bytes
up_to_slash [] = []
up_to_slash (a ∷ s) =
    let rest = up_to_slash s in
    if Bytes.contains slash s then a ∷ rest else if eqb (a ∷ []) (slash ∷ []) then a ∷ [] else []

-- filepath.Dir(p)
unfoldable pub dir_of : Bytes → Bytes
unfolding up_to_slash
dir_of p = clean (up_to_slash p)
