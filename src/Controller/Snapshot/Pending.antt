-- ===== src/Controller/Snapshot/Pending.antt =====
-- reconcilePending, resolveQuiesce and reconcileQuiescing of podsnapshot_controller.go. A step of a
-- run that may return early is a `Result` whose error is what the run returns.
pub mod Laws
use pod_snapshotter.Base.{
  length, ℕ, ◌+◌, Bool, true, false, not, ◌&&◌, Option, none, some, List, [], ◌∷◌, ltb,
  if◌then◌else◌, any,
}
use pod_snapshotter.Base.Bytes.{Bytes, codes, eqb, has_prefix}
use pod_snapshotter.Base.Int.{ℤ, positive_or, not_positive}
use pod_snapshotter.Base.Result.{Result, ok, err, ◌>>=◌, ◌>>◌}
use pod_snapshotter.Go.Path.{clean}
use pod_snapshotter.Artifact.Uri.{Uri, UriError, parse, to_string, format, default_uri}
use pod_snapshotter.Api.Common.{
  ApiError, not_found, Message, fixed, format1, format2, format3, format4, format_count, uri_error,
  no_message, Pod, PodPhase, pod_pending, pod_running, pod_succeeded, pod_failed, pod_unknown, Node,
  prereqs_annotation,
}
use pod_snapshotter.Api.Snapshot.{
  PodSnapshot, PodSnapshotStatus, pending, quiescing, checkpointing, ArtifactStatus, QuiesceStatus,
  quiesce_annotation, quiesce_dir_annotation, quiesce_timeout_annotation,
  quiesce_mode_presence_file, default_quiesce_dir, ready_for_checkpoint_file,
  default_quiesce_timeout,
}
use pod_snapshotter.Controller.Steps.{finish}
use pod_snapshotter.Controller.Env.{Env, Outcome, done, requeue_after, failed_with}
use pod_snapshotter.Controller.Snapshot.{
  Config, State, write, fail, condition, with_message, with_phase, with_status, or_unset,
}

abbrev pub Run : Type 0
Run = State × Outcome

abbrev pub is_not_found : ApiError → Bool
is_not_found not_found = true
is_not_found _ = false

abbrev pub phase_text : PodPhase → Bytes
phase_text pod_pending = codes "Pending"
phase_text pod_running = codes "Running"
phase_text pod_succeeded = codes "Succeeded"
phase_text pod_failed = codes "Failed"
phase_text pod_unknown = codes "Unknown"

abbrev pub is_running : PodPhase → Bool
is_running pod_running = true
is_running _ = false

-- The timeout of the annotation, or the default; a bad text or one that is not positive is refused.
unfoldable pub quiesce_timeout : (Bytes → Option ℤ) → Bytes → Option ℕ
quiesce_timeout parse_duration raw =
    if eqb raw [] then some default_quiesce_timeout else elim (parse_duration raw) [
      | none ↦ none
      | some d ↦ if not_positive d then none else some (positive_or 0 d)
    ]

unfoldable pub quiesce_dir : Bytes → Bytes
quiesce_dir dir = if eqb dir [] then default_quiesce_dir else dir

-- resolveQuiesce: `none` where the pod has not opted in.
unfoldable pub resolve_quiesce :
    (Bytes → Option ℤ) → ℕ → Pod → Result Message (Option QuiesceStatus)
resolve_quiesce parse_duration now pod =
    let mode = pod.annotations quiesce_annotation in
    let dir = quiesce_dir (pod.annotations quiesce_dir_annotation) in
    let raw = pod.annotations quiesce_timeout_annotation in
    if eqb mode []
    then ok none
    else if not (eqb mode quiesce_mode_presence_file)
    then err (
        format3 "unsupported %s value %q (only %q is implemented)" (codes "podsnapshot.io/quiesce")
          mode quiesce_mode_presence_file)
    else if not (has_prefix dir (codes "/"))
    then err (
        format2 "%s must be an absolute in-container path, got %q"
          (codes "podsnapshot.io/quiesce-dir") dir)
    else elim (quiesce_timeout parse_duration raw) [
      | none ↦ err (
          format2 "%s must be a positive Go duration (e.g. \"600s\"), got %q"
            (codes "podsnapshot.io/quiesce-timeout") raw)
      | some timeout ↦ ok (
          some (record {
            mode = mode;
            dir = clean dir;
            deadline = some (now + timeout);
            ready_at = none;
          }))
    ]

abbrev pub counted : Pod → Message
counted pod =
    format_count "pod %s has %d containers; spec.container is required" pod.name
      (length pod.containers)

-- The container that the spec names, or the only one of the pod.
unfoldable pub resolve_container : Bytes → Pod → Result Message Bytes
resolve_container wanted pod =
    if eqb wanted []
    then elim pod.containers [
      | [] ↦ err (counted pod)
      | c ∷ rest ↦ elim rest [ [] ↦ ok c | _ ↦ err (counted pod) ]
    ]
    else if any (λ c. eqb c wanted) pod.containers
    then ok wanted
    else err (format2 "container %q not found in pod %s" wanted pod.name)

abbrev pub text_of {ℓ} : {A : Type ℓ} → Result UriError A → Result Message A
text_of (ok a) = ok a
text_of (err e) = err (uri_error e)

abbrev pub new_artifact : Uri → ArtifactStatus
new_artifact uri = record {
  uri = to_string uri;
  format = format uri;
  size_bytes = 0;
  sha256 = [];
  file_count = 0;
  created_at = 0;
}

abbrev pub keep_artifact : Option ArtifactStatus → Uri → Option ArtifactStatus
keep_artifact none uri = some (new_artifact uri)
keep_artifact (some a) uri = some a

-- The object with what was resolved.
unfoldable pub resolved : PodSnapshot → Pod → Bytes → Uri → PodSnapshot
resolved snap pod container uri = with_status snap (record snap.status {
  node_name = pod.node_name;
  pod_uid = pod.uid;
  container = container;
  artifact = keep_artifact snap.status.artifact uri;
})

-- The last step: to Quiescing where the pod has opted in, else to Checkpointing.
unfoldable pub start : PodSnapshot → Option QuiesceStatus → PodSnapshot
start snap none = with_message (fixed "starting checkpoint") (with_phase checkpointing snap)
start snap (some q) =
    let m = format2 "waiting for %s/%s from the workload shim" q.dir ready_for_checkpoint_file in
    condition "Quiesced" false "Waiting" m (
      with_message m
        (with_phase quiescing (with_status snap (record snap.status { quiesce = some q }))))

module _ (cfg : Config) (env : Env PodSnapshot) where
  -- A failed check ends the run in the phase Failed.
  unfoldable pub or_fail {ℓ} : {A : Type ℓ} → PodSnapshot → State → Result Message A → Result Run A
  or_fail snap s (ok a) = ok a
  or_fail snap s (err m) = err (fail env snap m s)

  -- The target pod, if it is there and runs.
  unfoldable pub target_pod : PodSnapshot → State → Result Run Pod
  target_pod snap s = elim (env.pod snap.spec.pod_name) [
    | err e ↦
        if is_not_found e
        then err (fail env snap (format1 "pod %s not found" snap.spec.pod_name) s)
        else err (s, failed_with e)
    | ok pod ↦
        if is_running pod.phase
        then ok pod
        else err (
            write env
              (with_message
                (format2 "pod %s is %s, waiting for Running" pod.name (phase_text pod.phase)) snap)
              s (requeue_after 10))
  ]

  -- The node's prerequisites, where they are required.
  unfoldable pub node_ready : PodSnapshot → Pod → State → Result Run (Unit {0})
  node_ready snap pod s = if not cfg.require_prereqs then ok tt else elim (env.node pod.node_name) [
    | err e ↦ err (s, failed_with e)
    | ok node ↦
        if eqb (node.annotations prereqs_annotation) (codes "ok")
        then ok tt
        else err (
            write env
              (with_message
                (format2 "waiting for node %s prerequisites (annotation %s)" pod.node_name
                  (codes "podsnapshot.io/prereqs"))
                (condition "NodeReady" false "PrereqsNotMet"
                  (format2 "node %s prereqs: %s" pod.node_name
                    (or_unset (node.annotations prereqs_annotation)))
                  snap))
              s (requeue_after 30))
  ]

  -- The URI of the spec, or the default one, parsed.
  unfoldable pub snapshot_uri : PodSnapshot → Bytes → Result UriError Uri
  snapshot_uri snap container = parse (
      if eqb snap.spec.artifact_uri []
      then default_uri cfg.artifact_root snap.namespace snap.name container
          snap.spec.artifact_format
      else snap.spec.artifact_uri)

  -- reconcilePending
  unfoldable pub reconcile_pending : PodSnapshot → State → Run
  reconcile_pending snap s = finish (do
    pod ← target_pod snap s
    container ← or_fail snap s (resolve_container snap.spec.container pod)
    node_ready snap pod s
    let ready = condition "NodeReady" true "PrereqsMet" no_message snap
    uri ← or_fail ready s (text_of (snapshot_uri snap container))
    let named = resolved ready pod container uri
    quiesce ← or_fail named s (resolve_quiesce env.parse_duration env.now pod)
    ok (write env (start named quiesce) s done))

  -- reconcileQuiescing: the manager enforces the deadline only.
  unfoldable pub reconcile_quiescing : PodSnapshot → State → Run
  reconcile_quiescing snap s = elim snap.status.quiesce [
    | none ↦ (s, requeue_after 5)
    | some q ↦ elim q.deadline [
      | none ↦ (s, requeue_after 5)
      | some deadline ↦
          if ltb env.now deadline
          then (s, requeue_after 5)
          else (let m =
                format4
                  "workload never wrote %s/%s before the quiesce deadline; check the shim in container %q (annotation %s)"
                  q.dir ready_for_checkpoint_file snap.status.container
                  (codes "podsnapshot.io/quiesce-timeout") in
              fail env (condition "Quiesced" false "QuiesceTimeout" m snap) m s)
    ]
  ]
