-- ===== src/Controller/Tests.antt =====
-- The reconcilers at concrete inputs.
use Prim.Native.String.{String}
use text.Mathlib.Text.{◌==◌ as str_eq}
use pod_snapshotter.Base.{◌≡◌, refl, [], ◌∷◌, ◌⊎◌, true, false, none, some, if◌then◌else◌}
use pod_snapshotter.Base.Bytes.{Bytes, codes, eqb, has_prefix, has_suffix, trim_right}
use pod_snapshotter.Base.Int.{pos}
use pod_snapshotter.Base.Result.{ok}
use pod_snapshotter.Go.Path.{clean}
use pod_snapshotter.Go.Url.{url_parse}
use pod_snapshotter.Artifact.Uri.{
  Uri, scheme_fuse, parse, parse_url, climbs, to_string, format, default_uri, root_or_default,
  with_format, format_dir,
}
use pod_snapshotter.Api.Common.{
  Pod, pod_running, Node, internal_ip, no_message, prereqs_annotation, set_condition,
}
use pod_snapshotter.Api.Snapshot.{
  ArtifactStatus, PodSnapshot, pending, checkpointing, deletion_policy_delete,
}
use pod_snapshotter.Controller.Env.{Env}
use pod_snapshotter.Controller.Snapshot.{Config, State, write, condition}
use pod_snapshotter.Controller.Snapshot.Pending.{
  reconcile_pending, target_pod, node_ready, or_fail, resolve_container, snapshot_uri, resolved,
  start, resolve_quiesce,
}
use pod_snapshotter.Controller.Snapshot.Checkpointing.{
  reconcile_delete, by_deletion, deletion, release, reconcile, finish_call,
}
use pod_snapshotter.Controller.Snapshot.Phases.{Moves, reconcile-Moves}
use pod_snapshotter.Controller.Snapshot.Calls.{
  here, next, runs, OneCall, Reach-OneCall, finish_call-stored, IsResult, IsOpen,
}
use pod_snapshotter.Controller.Snapshot.Cleanup.{reconcile_delete-cleaned}
use pod_snapshotter.Controller.Snapshot.Guards.{IsStart, is_started, reconcile_pending-IsStart}

notes : String → Bytes
notes key = if str_eq key prereqs_annotation then codes "ok" else []

abbrev worker : Pod
worker = record {
  name = codes "vllm";
  uid = codes "u1";
  phase = pod_running;
  containers = codes "main" ∷ [];
  node_name = codes "n1";
  annotations = λ _. [];
}

abbrev gpu_node : Node
gpu_node = record {
  name = codes "n1";
  annotations = notes;
  addresses = (internal_ip, codes "10.0.0.4") ∷ [];
}

abbrev cluster : Env PodSnapshot
cluster = record {
  now = 5;
  lookup_error = none;
  pod = λ _. ok worker;
  node = λ _. ok gpu_node;
  node_again = λ _. ok gpu_node;
  refuse = λ _. none;
  parse_duration = λ _. none;
  delete_artifact = λ _. true;
}

abbrev config : Config
config = record { require_prereqs = true; artifact_root = []; has_deleter = true }

abbrev snap : PodSnapshot
snap = record {
  namespace = codes "ml";
  name = codes "s";
  deleting = false;
  finalizer = false;
  spec = record {
    pod_name = codes "vllm";
    container = [];
    artifact_uri = [];
    artifact_format = format_dir;
    deletion_policy = codes "Retain";
    timeout_seconds = pos 0;
    checkpointer = [];
  };
  status = record {
    phase = pending;
    node_name = [];
    pod_uid = [];
    container = [];
    kubelet_checkpoint_path = [];
    artifact = none;
    quiesce = none;
    conditions = [];
    message = no_message;
    started_at = some 1;
    completed_at = none;
  };
}

abbrev fresh : State
fresh = record { stored = snap; inflight = false; calls = [] }

abbrev dumping : State
dumping = (reconcile config cluster fresh).0

pending_starts :
    is_started (reconcile_pending config cluster snap fresh).0.stored.status.phase ≡ true
unfolding reconcile_pending target_pod node_ready or_fail resolve_container snapshot_uri resolved
    start resolve_quiesce write condition set_condition parse parse_url url_parse climbs clean
    to_string format default_uri root_or_default with_format has_prefix has_suffix trim_right eqb
    notes
pending_starts = refl

reconcile_pending-IsStart_example :
    IsStart config cluster snap (reconcile_pending config cluster snap fresh).0.stored
reconcile_pending-IsStart_example =
    reconcile_pending-IsStart config cluster snap fresh refl refl pending_starts

reconcile-Moves_example : Moves pending (reconcile config cluster fresh).0.stored.status.phase
reconcile-Moves_example = reconcile-Moves config cluster fresh

-- Two runs: the first stores Checkpointing, the second launches the call.
Reach-OneCall_example : OneCall (reconcile config cluster dumping).0
Reach-OneCall_example =
    Reach-OneCall config snap (next (next here (runs cluster fresh)) (runs cluster dumping))

finish_call-stored_example :
    ((finish_call cluster (ok (codes "/ckpt.tar")) [] dumping).inflight ≡ false)
    × (((finish_call cluster (ok (codes "/ckpt.tar")) [] dumping).stored ≡ dumping.stored)
        ⊎ ((dumping.stored.status.phase ≡ checkpointing)
            × IsResult
                (ok (codes "/ckpt.tar"))
                dumping.stored
                (finish_call cluster (ok (codes "/ckpt.tar")) [] dumping).stored))
    × (IsOpen cluster dumping.stored
        → IsResult
            (ok (codes "/ckpt.tar"))
            dumping.stored
            (finish_call cluster (ok (codes "/ckpt.tar")) [] dumping).stored)
finish_call-stored_example = finish_call-stored cluster (ok (codes "/ckpt.tar")) [] dumping

abbrev stored_artifact : ArtifactStatus
stored_artifact = record {
  uri = codes "fuse:///a/b/";
  format = format_dir;
  size_bytes = 3;
  sha256 = [];
  file_count = 1;
  created_at = 0;
}

abbrev doomed : State
doomed = record fresh {
  stored = record snap {
    deleting = true;
    finalizer = true;
    spec = record snap.spec { deletion_policy = deletion_policy_delete };
    status = record snap.status { artifact = some stored_artifact };
  };
}

abbrev place : Uri
place = record { scheme = scheme_fuse; path = codes "/a/b"; dir = true }

parse-place : parse (codes "fuse:///a/b/") ≡ ok place
unfolding parse parse_url url_parse climbs clean has_prefix has_suffix eqb
parse-place = refl

is_delete : eqb deletion_policy_delete deletion_policy_delete ≡ true
unfolding eqb
is_delete = refl

is_named : eqb stored_artifact.uri [] ≡ false
unfolding eqb
is_named = refl

cleaned : (reconcile_delete config cluster doomed.stored doomed).0.stored.finalizer ≡ false
unfolding reconcile_delete by_deletion deletion release write parse parse_url url_parse climbs clean
    has_prefix has_suffix eqb
cleaned = refl

reconcile_delete-cleaned_example : cluster.delete_artifact place ≡ true
reconcile_delete-cleaned_example =
    reconcile_delete-cleaned config cluster doomed stored_artifact place refl is_delete refl
      is_named parse-place refl cleaned
