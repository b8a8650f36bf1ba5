-- ===== src/Controller/Restore/Tests.antt =====
-- The PodRestore reconciler and its placeholder pod at concrete inputs.
use pod_snapshotter.Controller.Env.{LivePod}
use pod_snapshotter.Base.{◌≡◌, refl, [], ◌∷◌, true, false, none, some, if◌then◌else◌}
use pod_snapshotter.Base.Bytes.{Bytes, codes, eqb}
use pod_snapshotter.Base.Int.{pos}
use pod_snapshotter.Base.Result.{ok, err}
use pod_snapshotter.Api.Common.{not_found, pod_running, no_message, condition_true, set_condition}
use pod_snapshotter.Api.Restore.{PodRestore, PodTemplate, Container, preparing}
use pod_snapshotter.Controller.Placeholder.{
  NewPod, build_placeholder_pod, target_container, keeper, selector_of,
}
use pod_snapshotter.Controller.Placeholder.Target.{
  IsPlaceholder, build_placeholder_pod-IsPlaceholder,
}
use pod_snapshotter.Controller.Restore.{RestoreEnv, State, write, condition}
use pod_snapshotter.Controller.Restore.Pending.{check_node_compatibility, check_tuple}
use pod_snapshotter.Controller.Restore.Reconcile.{
  reconcile, reconcile_preparing, reconcile_delete, use_pod, own_pod, runs_pod, prepared, hand_over,
  placeholder_name, is_controlled_by, delete_pod,
}
use pod_snapshotter.Controller.Restore.Phases.{Moves, restore-Moves}
use pod_snapshotter.Controller.Restore.Handover.{is_handed, IsHanded, reconcile_preparing-IsHanded}
use pod_snapshotter.Controller.Restore.Teardown.{IsTornDown, IsPodGone, reconcile_delete-released}

abbrev server : Container
server = record {
  name = codes "main";
  command = codes "serve" ∷ [];
  args = [];
  liveness_probe = some (codes "/live");
  startup_probe = none;
  others = codes "image";
}

abbrev template : PodTemplate
template = record {
  labels = λ _. none;
  annotations = λ _. none;
  containers = server ∷ [];
  node_name = [];
  node_selector = λ _. none;
  restart_policy = codes "Always";
  app_armor_profile = none;
  others = [];
}

abbrev restore : PodRestore
restore = record {
  namespace = codes "ml";
  name = codes "r";
  uid = codes "u9";
  deleting = false;
  finalizer = true;
  spec = record {
    artifact_uri = codes "fuse:///a/";
    snapshot_ref = none;
    build_ref = none;
    pod_template = template;
    container = [];
    node_name = [];
    node_selector = λ _. none;
    prewarm = some false;
    timeout_seconds = pos 60;
  };
  status = record {
    phase = preparing;
    artifact_uri = codes "fuse:///a/";
    target_node = [];
    pod_name = [];
    pod_uid = [];
    restored_container_id = [];
    compatibility = none;
    conditions = [];
    message = no_message;
    started_at = none;
  };
}

abbrev placeholder : LivePod
placeholder = record {
  name = codes "r-restored";
  uid = codes "p1";
  phase = pod_running;
  message = [];
  node_name = codes "n1";
  controller = some (codes "u9");
  terminating = false;
  images = [];
}

abbrev surroundings : RestoreEnv
surroundings = record {
  now = 7;
  lookup_error = none;
  build = λ _. err not_found;
  snapshot = λ _. err not_found;
  pod = λ _. ok placeholder;
  node_tuple = λ _. ok none;
  has_stat = false;
  artifact_error = λ _. none;
  refuse = λ _. none;
  refuse_pod = λ _. none;
  refuse_delete = λ _. some not_found;
  digest = λ s. s;
}

abbrev placed : State
placed = record { stored = restore; created = []; deleted = [] }

restore-Moves_example : Moves preparing (reconcile surroundings placed).0.stored.status.phase
restore-Moves_example = restore-Moves surroundings placed

handed : is_handed (reconcile_preparing surroundings restore placed).0.stored.status.phase ≡ true
unfolding reconcile_preparing use_pod own_pod runs_pod prepared hand_over placeholder_name
    is_controlled_by check_node_compatibility check_tuple write condition condition_true
    set_condition eqb
handed = refl

reconcile_preparing-IsHanded_example :
    IsHanded surroundings restore (reconcile_preparing surroundings restore placed).0.stored
reconcile_preparing-IsHanded_example =
    reconcile_preparing-IsHanded surroundings restore placed refl refl handed

released : (reconcile_delete surroundings restore placed).0.stored.finalizer ≡ false
unfolding reconcile_delete delete_pod write condition_true eqb
released = refl

reconcile_delete-released_example : IsTornDown restore × IsPodGone surroundings restore
reconcile_delete-released_example = reconcile_delete-released surroundings placed refl released

abbrev no_digest : Bytes → Bytes
no_digest s = s

abbrev made : NewPod
made = record {
  namespace = codes "ml";
  name = codes "r-restored";
  template = record template {
    labels = λ k.
        if eqb k (codes "app.kubernetes.io/managed-by")
        then some (codes "pod-snapshotter")
        else none;
    annotations = λ k. if eqb k (codes "podsnapshot.io/restore") then some (codes "ml/r") else none;
    containers = keeper server ∷ [];
    node_selector = selector_of no_digest restore;
    restart_policy = codes "Never";
  };
}

built : build_placeholder_pod no_digest restore (codes "r-restored") ≡ ok made
unfolding build_placeholder_pod target_container eqb
built = refl

build_placeholder_pod-IsPlaceholder_example : IsPlaceholder no_digest restore made
build_placeholder_pod-IsPlaceholder_example =
    build_placeholder_pod-IsPlaceholder no_digest restore (codes "r-restored") made built
