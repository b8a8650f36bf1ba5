-- ===== src/Api/Compat.antt =====
-- The environment tuple of an artifact: CompatibilityKey of api/v1alpha1/snapshotbuild_types.go, and
-- api/v1alpha1/compatibility.go. A digest of SHA-256 in hexadecimal is an argument.
pub mod Roundtrip
use pod_snapshotter.Base.{
  take, Bool, not, ◌&&◌, Option, none, some, List, [], ◌∷◌, ◌++◌, if◌then◌else◌,
}
use pod_snapshotter.Base.Bytes.{Bytes, codes, eqb, split, cut, contains, trim_space}

pub record CompatibilityKey : Type 0 where
  pub gpu_model : Bytes
  pub driver_version : Bytes
  pub criu_version : Bytes
  pub image_digest : Bytes

-- One row of the loop of Matches: what is compared, what is wanted, what the node has.
pub record Compared : Type 0 where
  pub what : Bytes
  pub want : Bytes
  pub got : Bytes

unfoldable pub differs : Compared → Bool
differs f = not (eqb f.want []) && not (eqb f.got []) && not (eqb f.want f.got)

-- The loop of Matches: why not, or none.
unfoldable pub first_mismatch : List Compared → Option Bytes
first_mismatch [] = none
first_mismatch (f ∷ fields) =
    let rest = first_mismatch fields in
    if differs f
    then some (f.what ++ (codes " " ++ (f.got ++ (codes " does not match the build's " ++ f.want))))
    else rest

-- CompatibilityKey.Matches
unfoldable pub mismatch : CompatibilityKey → CompatibilityKey → Option Bytes
mismatch k node = first_mismatch (
    record { what = codes "GPU model"; want = k.gpu_model; got = node.gpu_model }
    ∷ record { what = codes "NVIDIA driver"; want = k.driver_version; got = node.driver_version }
    ∷ record { what = codes "CRIU version"; want = k.criu_version; got = node.criu_version }
    ∷ [])

-- CompatibilityKey.NodeCompatibility
unfoldable pub node_compatibility : CompatibilityKey → Bytes
node_compatibility k =
    codes "gpu="
    ++ (k.gpu_model
        ++ (codes ";driver=" ++ (k.driver_version ++ (codes ";criu=" ++ k.criu_version))))

-- The switch of ParseCompatibility.
unfoldable pub set_field : Bytes → Bytes → CompatibilityKey → CompatibilityKey
set_field key value k =
    if eqb key (codes "gpu")
    then record k { gpu_model = value }
    else if eqb key (codes "driver")
    then record k { driver_version = value }
    else if eqb key (codes "criu")
    then record k { criu_version = value }
    else k

-- The body of the loop of ParseCompatibility.
unfoldable pub parse_field : CompatibilityKey → Bytes → CompatibilityKey
parse_field k field =
    if not (contains b'=' field)
    then k
    else set_field (trim_space (cut b'=' field).0) (cut b'=' field).1 k

-- The loop of ParseCompatibility.
unfoldable pub parse_fields : CompatibilityKey → List Bytes → CompatibilityKey
parse_fields k [] = k
parse_fields k (field ∷ fields) = parse_fields (parse_field k field) fields

abbrev pub no_key : CompatibilityKey
no_key = record { gpu_model = []; driver_version = []; criu_version = []; image_digest = [] }

-- ParseCompatibility
unfoldable pub parse_compatibility : Bytes → CompatibilityKey
parse_compatibility s = parse_fields no_key (split b';' s)

-- CompatibilityKey.NodeHash, `digest` being the hexadecimal SHA-256.
unfoldable pub node_hash : (Bytes → Bytes) → Option CompatibilityKey → Bytes
node_hash digest none = []
node_hash digest (some k) =
    if eqb k.gpu_model [] && eqb k.driver_version [] && eqb k.criu_version []
    then []
    else take 16 (digest (node_compatibility k))

abbrev pub compatibility_hash_label : Bytes
compatibility_hash_label = codes "podsnapshot.io/compat-hash"
