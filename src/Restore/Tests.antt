-- ===== src/Restore/Tests.antt =====
-- The rewriting of a spec at concrete inputs.
use pod_snapshotter.Base.{true, false, none, Bool, Option, List, [], ◌∷◌, All, ◌≡◌, ◌↔◌}
use pod_snapshotter.Base.Bytes.{Bytes, codes}
use pod_snapshotter.Base.Int.{pos}
use pod_snapshotter.Restore.Spec.{SandboxTarget, RuntimeSpec, rewrite_spec, gpu_devices_present}
use pod_snapshotter.Restore.Mounts.{IsPrivate, rewrite_spec-IsPrivate}
use pod_snapshotter.Restore.Extra.{
  Distinct, rewrite_spec-Distinct, IsPresent, gpu_devices_present_iff,
}

abbrev target : SandboxTarget
target = record {
  pause_pid = pos 7;
  pod_uid = codes "u2";
  old_pod_uid = codes "u1";
  cgroups_path = [];
  rootfs_path = codes "/rootfs";
  sandbox_id = [];
  keeper_mounts = λ d. [];
  extra_mounts = [];
  host_root = [];
}

abbrev dumped : RuntimeSpec
dumped = record {
  namespaces = [];
  cgroups_path = [];
  allows_all_devices = false;
  process = none;
  root = none;
  mounts =
      record {
        destination = codes "/dev/nvidia0";
        type = codes "bind";
        source = codes "/dev/nvidia0";
        options = codes "rshared" ∷ [];
      }
      ∷ [];
  others = [];
}

present : Bytes → Bool
present p = true

no_entries : Bytes → Option (List Bytes)
no_entries d = none

rewrite_spec-IsPrivate_example :
    All IsPrivate (rewrite_spec present no_entries target dumped).mounts
rewrite_spec-IsPrivate_example = rewrite_spec-IsPrivate present no_entries target dumped

rewrite_spec-Distinct_example : Distinct (rewrite_spec present no_entries target dumped).mounts
rewrite_spec-Distinct_example = rewrite_spec-Distinct present no_entries target dumped (tt, tt)

gpu_devices_present_iff_example :
    (gpu_devices_present present no_entries dumped ≡ true)
    ↔ All (IsPresent present no_entries) dumped.mounts
gpu_devices_present_iff_example = gpu_devices_present_iff present no_entries dumped
