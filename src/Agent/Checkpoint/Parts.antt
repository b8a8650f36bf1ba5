-- ===== src/Agent/Checkpoint/Parts.antt =====
-- What CheckpointReconciler hands to runc and to PublishDir, from
-- internal/agent/checkpoint_controller.go.
use pod_snapshotter.Base.{
  ℕ, ◌-◌, Bool, true, false, not, ◌&&◌, ◌||◌, Option, none, some, List, [], ◌∷◌, ◌++◌, map, ltb,
  ◌==◌, if◌then◌else◌,
}
use pod_snapshotter.Base.Bytes.{Bytes, codes, eqb}
use pod_snapshotter.Base.Result.{Result, ok, err}
use pod_snapshotter.Go.Path.{join_path}
use pod_snapshotter.Artifact.Manifest.{ManifestFile}
use pod_snapshotter.Artifact.Publish.{Action, os_message, describe_file}
use pod_snapshotter.Artifact.Publish.Dir.{CheckpointMeta, write_whole}
use pod_snapshotter.Api.Common.{fixed, format1, nested}
use pod_snapshotter.Api.Snapshot.{PodSnapshot}
use pod_snapshotter.Os.{ret, ask, ◌>>=◌, or_else, OsError, read_file, capture_shm, capture_rootfs}
use pod_snapshotter.Agent.Upload.{shm_diff_name}

-- One of the captures of contribute: what is missed is left out.
unfoldable pub add_file :
    (Bytes → Bytes)
    → Bytes
    → Bytes
    → Result OsError Bool
    → List ManifestFile
    → (List ManifestFile → Action (List ManifestFile))
    → Action (List ManifestFile)
add_file sha dst name (err e) files next = next files
add_file sha dst name (ok false) files next = next files
add_file sha dst name (ok true) files next = do
  r ← describe_file sha dst name
  or_else r (λ m. next files) (λ entry. next (files ++ entry ∷ []))

abbrev pub rootfs_diff_name : Bytes
rootfs_diff_name = codes "rootfs-diff.tar"

-- contribute
unfoldable pub contribute : (Bytes → Bytes) → Bytes → Bytes → Bytes → Action (List ManifestFile)
contribute sha host_root upper dst = do
  shm ← ask (
      capture_shm (join_path (dst ∷ codes "spec.dump" ∷ [])) host_root
        (join_path (dst ∷ shm_diff_name ∷ [])))
  add_file sha dst shm_diff_name shm [] (λ files. do
    rootfs ← ask (capture_rootfs upper host_root (join_path (dst ∷ rootfs_diff_name ∷ [])))
    add_file sha dst rootfs_diff_name rootfs files (λ all. ret (ok all)))

-- checkpointMeta
unfoldable pub checkpoint_meta : PodSnapshot → Bytes → ℕ → CheckpointMeta
checkpoint_meta snap container_id t = record {
  id = container_id;
  name =
      snap.status.container
      ++ (codes "_"
          ++ (snap.spec.pod_name
              ++ (codes "_"
                  ++ (snap.namespace ++ (codes "_" ++ (snap.status.pod_uid ++ codes "_0"))))));
  runtime = codes "io.containerd.runc.v2";
  checkpointed_at = t;
}

-- readTaskSpec
unfoldable pub read_task_spec : (Bytes → Bool) → Bytes → Action Bytes
read_task_spec json_valid container_id =
    let path = join_path (
      codes "/run/containerd/io.containerd.runtime.v2.task/k8s.io"
      ∷ container_id
      ∷ codes "config.json"
      ∷ []) in
    if eqb container_id []
    then ret (err (fixed "no container id"))
    else ask (read_file path) >>= λ r.
        or_else r (λ e. ret (err (nested "reading %s: %w" path [] (os_message e))))
          (λ raw.
            if not (json_valid raw)
            then ret (err (format1 "%s is not valid JSON" path))
            else ret (ok raw))

-- copyInto
unfoldable pub copy_into : Bytes → Bytes → Action (Unit {0})
copy_into src dst = do
  r ← ask (read_file src)
  or_else r (λ e. ret (err (os_message e))) (λ raw. write_whole dst raw)

-- strings.CutPrefix
abbrev cut_prefix : Bytes → Bytes → Option Bytes
cut_prefix s [] = some s
cut_prefix [] (b ∷ p) = none
cut_prefix (a ∷ s) (b ∷ p) = let rest = cut_prefix s p in if a == b then rest else none

-- A letter of an environment variable: upper case, an underscore for a dash.
abbrev env_letter : ℕ → ℕ
env_letter a = if a == b'-' then b'_' else if ltb 96 a && ltb a 123 then a - 32 else a

-- The environment is a Go map: a variable that is set again has its last value.
unfoldable pub set_variable : Bytes → Bytes → List (Bytes × Bytes) → List (Bytes × Bytes)
set_variable name value [] = (name, value) ∷ []
set_variable name value (v ∷ env) =
    let rest = set_variable name value env in if eqb v.0 name then (name, value) ∷ env else v ∷ rest

-- One annotation of criuDumpTuning.
unfoldable pub tune : Bytes × Bytes → List (Bytes × Bytes) → List (Bytes × Bytes)
tune a env = elim (cut_prefix a.0 (codes "podsnapshot.io/criu-dump-env-")) [
  | none ↦ env
  | some name ↦
      if eqb name [] || eqb a.1 [] then env else set_variable (map env_letter name) a.1 env
]

-- criuDumpTuning
unfoldable pub criu_dump_tuning : List (Bytes × Bytes) → List (Bytes × Bytes) → List (Bytes × Bytes)
criu_dump_tuning env [] = env
criu_dump_tuning env (a ∷ annotations) = criu_dump_tuning (tune a env) annotations
