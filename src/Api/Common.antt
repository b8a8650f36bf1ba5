-- ===== src/Api/Common.antt =====
-- What the resources share: messages, conditions, and the core objects that the controllers read.
-- A Go map of texts is a function; a missing key reads as the empty text. A time and a duration are
-- numbers of nanoseconds.
use Prim.Native.String.{String}
use text.Mathlib.Text.{◌==◌ as str_eq}
use pod_snapshotter.Base.{ℕ, ◌==◌, Bool, false, ◌&&◌, List, [], ◌∷◌, if◌then◌else◌, any}
use pod_snapshotter.Base.Bytes.{Bytes, codes, eqb, split, trim_space}
use pod_snapshotter.Artifact.Uri.{UriError}

-- An error of the Kubernetes API.
pub data ApiError : Type 0 where
  not_found conflict unavailable : ApiError

-- A status or condition message: a format of the source with its arguments, or an error's text.
pub data Message : Type 0 where
  fixed : String → Message
  format1 : String → Bytes → Message
  format2 : String → Bytes → Bytes → Message
  format3 : String → Bytes → Bytes → Bytes → Message
  format4 : String → Bytes → Bytes → Bytes → Bytes → Message
  format_count : String → Bytes → ℕ → Message
  format_duration : String → ℕ → Bytes → Message
  uri_error : UriError → Message
  nested : String → Bytes → Bytes → Message → Message  -- a message as the last argument

abbrev pub no_message : Message
no_message = fixed ""

-- `a == b` of two messages made by the same code. (An error's text is never compared.)
unfoldable pub same_message : Message → Message → Bool
same_message (fixed a) (fixed b) = str_eq a b
same_message (format1 a x) (format1 b y) = str_eq a b && eqb x y
same_message (format2 a x y) (format2 b z w) = str_eq a b && eqb x z && eqb y w
same_message (format3 a x y z) (format3 b u v w) = str_eq a b && eqb x u && eqb y v && eqb z w
same_message (format4 a x y z w) (format4 b u v p q) =
    str_eq a b && eqb x u && eqb y v && eqb z p && eqb w q
same_message (format_count a x m) (format_count b y n) = str_eq a b && eqb x y && m == n
same_message (format_duration a m x) (format_duration b n y) = str_eq a b && m == n && eqb x y
same_message _ _ = false

-- metav1.Condition, less its transition time.
pub record Condition : Type 0 where
  pub kind : String
  pub status : Bool
  pub reason : String
  pub message : Message

-- setCondition of internal/controller/conditions.go (meta.SetStatusCondition): the condition of
-- that kind is replaced, or a new one appended.
unfoldable pub set_condition : List Condition → Condition → List Condition
set_condition [] c = c ∷ []
set_condition (d ∷ conditions) c =
    let rest = set_condition conditions c in
    if str_eq d.kind c.kind then c ∷ conditions else d ∷ rest

-- meta.IsStatusConditionTrue: what the first condition of that kind says.
unfoldable pub condition_true : List Condition → String → Bool
condition_true [] kind = false
condition_true (d ∷ conditions) kind =
    let rest = condition_true conditions kind in if str_eq d.kind kind then d.status else rest

pub data PodPhase : Type 0 where
  pod_pending pod_running pod_succeeded pod_failed pod_unknown : PodPhase

pub record Pod : Type 0 where
  pub name : Bytes
  pub uid : Bytes
  pub phase : PodPhase
  pub containers : List Bytes
  pub node_name : Bytes
  pub annotations : String → Bytes

pub data AddressType : Type 0 where
  internal_ip host_name other_address : AddressType

pub record Node : Type 0 where
  pub name : Bytes
  pub annotations : String → Bytes
  pub addresses : List (AddressType × Bytes)

abbrev pub prereqs_annotation : String
prereqs_annotation = "podsnapshot.io/prereqs"

abbrev pub capabilities_annotation : String
capabilities_annotation = "podsnapshot.io/capabilities"

abbrev pub agent_checkpoint_capability : Bytes
agent_checkpoint_capability = codes "agent-checkpoint"

-- NodeHasCapability of podsnapshot_types.go
unfoldable pub node_has_capability : (String → Bytes) → Bytes → Bool
node_has_capability annotations want =
    any (λ c. eqb (trim_space c) want) (split b',' (annotations capabilities_annotation))
