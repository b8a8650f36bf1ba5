-- ===== src/Controller/Placeholder.antt =====
-- internal/controller/placeholder_pod.go: the pod that a restore runs in.
pub mod Target
use pod_snapshotter.Base.{Option, none, some, List, [], ◌∷◌, ◌++◌, if◌then◌else◌}
use pod_snapshotter.Base.Bytes.{Bytes, codes, eqb}
use pod_snapshotter.Base.Result.{Result, ok, err, ◌>>=◌}
use pod_snapshotter.Api.Common.{Message, fixed, format1}
use pod_snapshotter.Api.Compat.{node_hash, compatibility_hash_label}
use pod_snapshotter.Api.Restore.{Container, PodTemplate, PodRestore, PodRestoreSpec}

-- The pod that is sent to the API server.
pub record NewPod : Type 0 where
  pub namespace : Bytes
  pub name : Bytes
  pub template : PodTemplate

-- The search of targetContainerIndex: the containers before the first one of that name, that one,
-- and those after it.
unfoldable pub find_container :
    Bytes → List Container → Option (List Container × Container × List Container)
find_container name [] = none
find_container name (c ∷ rest) =
    let later = find_container name rest in
    if eqb c.name name
    then some ([], c, rest)
    else elim later [ none ↦ none | some found ↦ some (c ∷ found.0, found.1, found.2) ]

-- targetContainerIndex, with the split of the containers in place of the index.
unfoldable pub target_container :
    PodRestoreSpec → Result Message (List Container × Container × List Container)
target_container spec = elim spec.pod_template.containers [
  | [] ↦ err (fixed "spec.podTemplate has no containers")
  | c ∷ rest ↦
      if eqb spec.container []
      then ok ([], c, rest)
      else elim (find_container spec.container (c ∷ rest)) [
        | none ↦ err (format1 "container %q not found in spec.podTemplate" spec.container)
        | some found ↦ ok found
      ]
]

-- The container that holds the sandbox.
unfoldable pub keeper : Container → Container
keeper c = record c {
  command = codes "sh" ∷ codes "-c" ∷ codes "trap 'exit 0' TERM; sleep infinity & wait" ∷ [];
  args = [];
  liveness_probe = none;
  startup_probe = none;
}

-- `m[key] = value`
abbrev pub with_key : Bytes → Bytes → (Bytes → Option Bytes) → Bytes → Option Bytes
with_key key value m k = if eqb k key then some value else m k

-- `for k, v := range over { m[k] = v }`
abbrev pub merged : (Bytes → Option Bytes) → (Bytes → Option Bytes) → Bytes → Option Bytes
merged over m k = elim (over k) [ some v ↦ some v | none ↦ m k ]

-- The node selector: the template's, under the restore's, under the label of the environment.
unfoldable pub selector_of : (Bytes → Bytes) → PodRestore → Bytes → Option Bytes
selector_of digest restore =
    let m = merged restore.spec.node_selector restore.spec.pod_template.node_selector in
    let hash = node_hash digest restore.status.compatibility in
    if eqb hash [] then m else with_key compatibility_hash_label hash m

-- BuildPlaceholderPod
unfoldable pub build_placeholder_pod : (Bytes → Bytes) → PodRestore → Bytes → Result Message NewPod
build_placeholder_pod digest restore pod_name = do
  found ← target_container restore.spec
  let tmpl = restore.spec.pod_template
  ok (record {
    namespace = restore.namespace;
    name = pod_name;
    template = record tmpl {
      labels =
          with_key (codes "app.kubernetes.io/managed-by") (codes "pod-snapshotter") tmpl.labels;
      annotations =
          with_key (codes "podsnapshot.io/restore")
            (restore.namespace ++ (codes "/" ++ restore.name)) tmpl.annotations;
      containers = found.0 ++ (keeper found.1 ∷ found.2);
      node_name = if eqb restore.spec.node_name [] then tmpl.node_name else restore.spec.node_name;
      node_selector = selector_of digest restore;
      restart_policy = codes "Never";
    };
  })
