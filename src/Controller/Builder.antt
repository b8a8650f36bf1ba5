-- ===== src/Controller/Builder.antt =====
-- internal/controller/build_pod.go: the pod that a build checkpoints.
use pod_snapshotter.Base.{none, some, [], ◌∷◌, ◌++◌, Option, if◌then◌else◌}
use pod_snapshotter.Base.Bytes.{Bytes, codes, eqb}
use pod_snapshotter.Base.Result.{Result, ok, err, ◌>>=◌}
use pod_snapshotter.Api.Common.{Message, fixed, format1}
use pod_snapshotter.Api.Restore.{Container}
use pod_snapshotter.Api.Build.{SnapshotBuild, SnapshotBuildSpec}
use pod_snapshotter.Controller.Placeholder.{NewPod, find_container, with_key}

-- buildContainerIndex, with the container in place of its index.
unfoldable pub build_container : SnapshotBuildSpec → Result Message Container
build_container spec = elim spec.pod_template.containers [
  | [] ↦ err (fixed "spec.podTemplate has no containers")
  | c ∷ rest ↦
      if eqb spec.container [] then ok c else elim (find_container spec.container (c ∷ rest)) [
        | none ↦ err (format1 "container %q not found in spec.podTemplate" spec.container)
        | some found ↦ ok found.1
      ]
]

-- The AppArmor profile of the security context, where none is set.
unfoldable pub or_unconfined : Option Bytes → Option Bytes
or_unconfined none = some (codes "Unconfined")
or_unconfined (some profile) = some profile

-- BuildBuilderPod
unfoldable pub build_builder_pod : SnapshotBuild → Bytes → Result Message NewPod
build_builder_pod build pod_name = do
  _ ← build_container build.spec
  let tmpl = build.spec.pod_template
  ok (record {
    namespace = build.namespace;
    name = pod_name;
    template = record tmpl {
      labels =
          with_key (codes "app.kubernetes.io/managed-by") (codes "pod-snapshotter") tmpl.labels;
      annotations =
          with_key (codes "podsnapshot.io/build") (build.namespace ++ (codes "/" ++ build.name))
            tmpl.annotations;
      restart_policy = codes "Never";
      app_armor_profile = or_unconfined tmpl.app_armor_profile;
    };
  })
