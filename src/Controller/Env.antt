-- ===== src/Controller/Env.antt =====
-- What a reconciler meets outside itself: the answers of the API server and of the node, given for
-- one run as functions of what is asked, and the outcome that it returns.
use pod_snapshotter.Base.{List, none, some, ℕ, Bool, Option}
use pod_snapshotter.Base.Bytes.{Bytes}
use pod_snapshotter.Base.Int.{ℤ}
use pod_snapshotter.Base.Result.{Result}
use pod_snapshotter.Artifact.Uri.{Uri}
use pod_snapshotter.Api.Common.{Message, PodPhase, ApiError, Pod, Node}

-- `(ctrl.Result, error)`: done, again after so many seconds, or an error (tried again with backoff).
pub data Outcome : Type 0 where
  done : Outcome
  requeue_after : ℕ → Outcome
  failed_with : ApiError → Outcome
  returned_error : Message → Outcome
  panicked : Outcome  -- a nil pointer is followed

-- `return outcome` after a write: where the server refuses it, nothing is stored.
abbrev pub answer : {S : Type 0} → Option ApiError → S → S → Outcome → S × Outcome
answer none before after outcome = (after, outcome)
answer (some e) before after outcome = (before, failed_with e)

-- A pod as it is read: `controller` is the UID of its controlling owner,
-- `images` the image of each container that has started.
pub record LivePod : Type 0 where
  pub name : Bytes
  pub uid : Bytes
  pub phase : PodPhase
  pub message : Bytes
  pub node_name : Bytes
  pub controller : Option Bytes
  pub terminating : Bool
  pub images : List (Bytes × Bytes)

-- One run's surroundings, for resources of type `S`. `refuse` is the server's answer to a write of
-- that value: a conflict, some other error, or none. `parse_duration` is time.ParseDuration, in
-- nanoseconds. `node_again` is the answer where a run reads the node a second time.
-- `delete_artifact` is whether ArtifactDeleter.Delete succeeds.
pub record Env (S : Type 0) : Type 0 where
  pub now : ℕ
  pub lookup_error : Option ApiError
  pub pod : Bytes → Result ApiError Pod
  pub node : Bytes → Result ApiError Node
  pub node_again : Bytes → Result ApiError Node
  pub refuse : S → Option ApiError
  pub parse_duration : Bytes → Option ℤ
  pub delete_artifact : Uri → Bool
