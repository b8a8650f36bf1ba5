-- ===== src/Controller/Build/Tests.antt =====
-- The SnapshotBuild reconciler at concrete inputs.
use pod_snapshotter.Base.{◌≡◌, refl, [], ◌∷◌, none, some, true, false}
use pod_snapshotter.Base.Bytes.{Bytes, codes, eqb}
use pod_snapshotter.Base.Result.{ok}
use pod_snapshotter.Api.Restore.{Container, PodTemplate}
use pod_snapshotter.Api.Compat.{mismatch, parse_compatibility}
use pod_snapshotter.Api.Build.{SnapshotBuild, snapshotting}
use pod_snapshotter.Controller.Build.{Config, BuildEnv, State, write, condition}
use pod_snapshotter.Controller.Build.Handlers.{
  reconcile_snapshotting, observe_compatibility, snapshot_done, progress_of, free_pod, or_panic,
  or_missing, built, or_no_key,
}
use pod_snapshotter.Controller.Build.Reconcile.{reconcile}
use pod_snapshotter.Controller.Build.Phases.{Moves, build-Moves}
use pod_snapshotter.Controller.Build.Results.{IsBuilt, is_completed, reconcile_snapshotting-IsBuilt}
use pod_snapshotter.Controller.Build.Observed.{observe_compatibility-fits, AreRecorded, IsOpen}
use pod_snapshotter.Api.Common.{set_condition, no_message, pod_running}
use pod_snapshotter.Api.Snapshot.{ArtifactStatus, PodSnapshot, SnapshotPhase}
use pod_snapshotter.Base.Int.{pos}
use pod_snapshotter.Controller.Env.{LivePod}

abbrev engine : Container
engine = record {
  name = codes "main";
  command = [];
  args = [];
  liveness_probe = none;
  startup_probe = none;
  others = [];
}

abbrev template : PodTemplate
template = record {
  labels = λ _. none;
  annotations = λ _. none;
  containers = engine ∷ [];
  node_name = [];
  node_selector = λ _. none;
  restart_policy = [];
  app_armor_profile = none;
  others = [];
}

abbrev artifact : ArtifactStatus
artifact = record {
  uri = codes "fuse:///builds/r1/";
  format = codes "dir";
  size_bytes = 9;
  sha256 = [];
  file_count = 2;
  created_at = 1;
}

abbrev revision : SnapshotBuild
revision = record {
  namespace = codes "ml";
  name = codes "b";
  uid = codes "u2";
  deleting = false;
  finalizer = true;
  spec = record {
    pod_template = template;
    container = [];
    revision = codes "r1";
    compatibility = none;
    artifact_uri = [];
    artifact_format = [];
    deletion_policy = codes "Retain";
    timeout_seconds = pos 0;
    checkpointer = codes "agent";
    keep_build_pod = false;
  };
  status = record {
    phase = snapshotting;
    build_pod_name = codes "b-build";
    node_name = codes "n1";
    snapshot_name = codes "b-snap";
    artifact = none;
    compatibility = none;
    conditions = [];
    message = no_message;
    started_at = none;
    completed_at = none;
  };
}

abbrev dumped : PodSnapshot
dumped = record {
  namespace = codes "ml";
  name = codes "b-snap";
  deleting = false;
  finalizer = false;
  spec = record {
    pod_name = codes "b-build";
    container = codes "main";
    artifact_uri = artifact.uri;
    artifact_format = [];
    deletion_policy = codes "Retain";
    timeout_seconds = pos 0;
    checkpointer = codes "agent";
  };
  status = record {
    phase = SnapshotPhase.completed;
    node_name = codes "n1";
    pod_uid = [];
    container = codes "main";
    kubelet_checkpoint_path = [];
    artifact = some artifact;
    quiesce = none;
    conditions = [];
    message = no_message;
    started_at = none;
    completed_at = some 4;
  };
}

abbrev engine_pod : LivePod
engine_pod = record {
  name = codes "b-build";
  uid = codes "p3";
  phase = pod_running;
  message = [];
  node_name = codes "n1";
  controller = some (codes "u2");
  terminating = false;
  images = (codes "main", codes "sha256:aa") ∷ [];
}

abbrev surroundings : BuildEnv
surroundings = record {
  now = 8;
  lookup_error = none;
  pod = λ _. ok engine_pod;
  snapshot = λ _. ok dumped;
  node_tuple = λ _. ok (some (codes "gpu=A100;driver=580;criu=4.2"));
  delete_artifact = λ _. true;
  refuse = λ _. none;
  refuse_pod = λ _. none;
  refuse_snapshot = λ _. none;
  refuse_delete = λ _. none;
}

abbrev config : Config
config = record { artifact_root = []; has_deleter = true }

abbrev waiting : State
waiting = record { stored = revision; pods = []; snapshots = []; deleted = [] }

build-Moves_example :
    Moves snapshotting (reconcile config surroundings waiting).0.stored.status.phase
build-Moves_example = build-Moves config surroundings waiting

completes :
    is_completed (reconcile_snapshotting surroundings revision waiting).0.stored.status.phase ≡ true
unfolding reconcile_snapshotting snapshot_done progress_of free_pod or_panic or_missing built write
    condition set_condition eqb
completes = refl

reconcile_snapshotting-IsBuilt_example :
    IsBuilt surroundings revision (reconcile_snapshotting surroundings revision waiting).0.stored
reconcile_snapshotting-IsBuilt_example =
    reconcile_snapshotting-IsBuilt surroundings revision waiting refl refl completes

abbrev tuple_text : Bytes
tuple_text = codes "gpu=A100;driver=580;criu=4.2"

observe_compatibility-fits_example :
    AreRecorded
      (or_no_key revision.spec.compatibility)
      (parse_compatibility tuple_text)
      (observe_compatibility surroundings revision engine_pod)
    × (IsOpen
          (or_no_key revision.spec.compatibility).gpu_model
          (parse_compatibility tuple_text).gpu_model
        → IsOpen
            (or_no_key revision.spec.compatibility).driver_version
            (parse_compatibility tuple_text).driver_version
        → IsOpen
            (or_no_key revision.spec.compatibility).criu_version
            (parse_compatibility tuple_text).criu_version
        → mismatch
            (observe_compatibility surroundings revision engine_pod)
            (parse_compatibility tuple_text)
          ≡ none)
observe_compatibility-fits_example =
    observe_compatibility-fits surroundings revision engine_pod tuple_text refl
