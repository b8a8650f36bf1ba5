-- ===== src/Restore/Spec.antt =====
-- internal/restore/specrewrite.go: RewriteSpec between reading spec.dump and writing config.json, of
-- the parts of a spec that it touches (the rest is one value), and ValidateGPUDevices. `exists` is
-- whether os.Stat finds a path, `entries` what os.ReadDir answers.
use pod_snapshotter.Base.{
  ℕ, zero, suc, Bool, true, false, not, ◌&&◌, ◌||◌, Option, none, some, List, [], ◌∷◌, ◌++◌, map,
  any, leb, is_empty, if◌then◌else◌,
}
use pod_snapshotter.Base.Bytes.{Bytes, codes, eqb, has_prefix, contains}
use pod_snapshotter.Base.Int.{ℤ}
use pod_snapshotter.Go.Path.{slash, join_path, base}
use pod_snapshotter.Agent.Config.{decimal}

pub data NamespaceType : Type 0 where
  network_ns ipc_ns uts_ns pid_ns mount_ns : NamespaceType
  other_ns : Bytes → NamespaceType

pub record Namespace : Type 0 where
  pub type : NamespaceType
  pub path : Bytes

pub record Mount : Type 0 where
  pub destination : Bytes
  pub type : Bytes
  pub source : Bytes
  pub options : List Bytes

-- ExtraMount of bundle.go
pub record ExtraMount : Type 0 where
  pub container_path : Bytes
  pub host_path : Bytes

pub record SandboxTarget : Type 0 where
  pub pause_pid : ℤ
  pub pod_uid : Bytes
  pub old_pod_uid : Bytes
  pub cgroups_path : Bytes
  pub rootfs_path : Bytes
  pub sandbox_id : Bytes
  pub keeper_mounts : Bytes → Bytes  -- the empty text for a missing key
  pub extra_mounts : List ExtraMount
  pub host_root : Bytes

-- Of the process and the root of a spec, both of which may be missing.
pub record Process : Type 0 where
  pub apparmor_profile : Bytes
  pub selinux_label : Bytes
  pub others : Bytes

pub record Root : Type 0 where
  pub path : Bytes
  pub others : Bytes

-- A spec that has a linux section.
pub record RuntimeSpec : Type 0 where
  pub namespaces : List Namespace
  pub cgroups_path : Bytes
  pub allows_all_devices : Bool
  pub process : Option Process
  pub root : Option Root
  pub mounts : List Mount
  pub others : Bytes

-- nsPath
unfoldable pub ns_path : ℤ → Bytes → Bytes
ns_path pid kind = codes "/proc/" ++ (decimal pid ++ (codes "/ns/" ++ kind))

-- The loop over the namespaces.
unfoldable pub join_namespace : ℤ → Namespace → Namespace
join_namespace pid ns = elim ns.type [
  | network_ns ↦ record ns { path = ns_path pid (codes "net") }
  | ipc_ns ↦ record ns { path = ns_path pid (codes "ipc") }
  | uts_ns ↦ record ns { path = ns_path pid (codes "uts") }
  | pid_ns ↦ record ns { path = [] }
  | mount_ns ↦ record ns { path = [] }
  | other_ns t ↦ ns
]

abbrev is_hex : ℕ → Bool
is_hex a = (leb b'0' a && leb a b'9') || (leb b'a' a && leb a b'f')

-- `n` hexadecimal digits and then a slash.
sandbox_id_follows : ℕ → Bytes → Bool
sandbox_id_follows n [] = false
sandbox_id_follows zero (a ∷ s) = eqb (a ∷ []) (slash ∷ [])
sandbox_id_follows (suc n) (a ∷ s) = is_hex a && sandbox_id_follows n s

-- What stands after a prefix.
unfoldable pub after_prefix : Bytes → Bytes → Bytes
after_prefix [] s = s
after_prefix (b ∷ p) [] = []
after_prefix (b ∷ p) (a ∷ s) = after_prefix p s

abbrev sandboxes : Bytes
sandboxes = codes "/sandboxes/"

abbrev matches_sandbox : Bytes → Bool
matches_sandbox s = has_prefix s sandboxes && sandbox_id_follows 64 (after_prefix sandboxes s)

-- sandboxDirRe.ReplaceAllString: a match has 76 bytes; `skip` of them are left to pass over.
unfoldable pub replace_sandbox : Bytes → ℕ → Bytes → Bytes
unfolding sandbox_id_follows
replace_sandbox id skip [] = []
replace_sandbox id (suc skip) (a ∷ s) = replace_sandbox id skip s
replace_sandbox id zero (a ∷ s) =
    let next = replace_sandbox id 0 s in
    let after = replace_sandbox id 75 s in
    if matches_sandbox (a ∷ s) then sandboxes ++ (id ++ (slash ∷ after)) else a ∷ next

-- hasBindOption
unfoldable pub has_bind_option : List Bytes → Bool
has_bind_option options = any (λ o. eqb o (codes "bind") || eqb o (codes "rbind")) options

-- isNvidiaDevice
unfoldable pub is_nvidia_device : Bytes → Bool
is_nvidia_device dest =
    has_prefix dest (codes "/dev/")
    && (has_prefix (base dest) (codes "nvidia")
        || eqb (base dest) (codes "nvidia-uvm")
        || eqb (base dest) (codes "nvidiactl"))

-- The propagation options.
unfoldable pub is_propagation : Bytes → Bool
is_propagation o =
    eqb o (codes "shared")
    || eqb o (codes "rshared")
    || eqb o (codes "slave")
    || eqb o (codes "rslave")
    || eqb o (codes "private")
    || eqb o (codes "rprivate")
    || eqb o (codes "unbindable")
    || eqb o (codes "runbindable")

unfoldable pub without_propagation : List Bytes → List Bytes
without_propagation [] = []
without_propagation (o ∷ options) =
    let rest = without_propagation options in if is_propagation o then rest else o ∷ rest

-- ensureOption, for the one option that it is called with.
unfoldable pub ensure_private : List Bytes → List Bytes
ensure_private options =
    if any (λ o. eqb o (codes "rprivate")) options
    then options
    else without_propagation options ++ codes "rprivate" ∷ []

abbrev pub pod_prefix : Bytes → Bytes
pod_prefix uid = codes "/var/lib/kubelet/pods/" ++ (uid ++ codes "/")

-- path.Split: the directory, its slash included, and the name.
unfoldable pub split_path : Bytes → Bytes × Bytes
split_path [] = ([], [])
split_path (a ∷ s) =
    let rest = split_path s in if contains slash (a ∷ s) then (a ∷ rest.0, rest.1) else ([], a ∷ s)

-- `base[:dash+1]` of the last dash, or none.
unfoldable pub dash_prefix : Bytes → Option Bytes
dash_prefix [] = none
dash_prefix (a ∷ s) =
    let rest = dash_prefix s in
    elim rest [
      | some p ↦ some (a ∷ p)
      | none ↦ if eqb (a ∷ []) (codes "-") then some (a ∷ []) else none
    ]

-- The loop over the siblings: the one with the prefix, if there is one and no other.
unfoldable pub unique_match : Bytes → List Bytes → Bytes → Bytes
unique_match prefix [] found = found
unique_match prefix (e ∷ names) found =
    let next = unique_match prefix names found in
    let first = unique_match prefix names e in
    if not (has_prefix e prefix) then next else if not (eqb found []) then [] else first

module _ (exists : Bytes → Bool) (entries : Bytes → Option (List Bytes)) where
  -- resolveVolumeDir, the prefix of the name being more than a dash.
  unfoldable pub resolve_sibling : Bytes → Bytes → Bytes → Bytes
  resolve_sibling src dir prefix = elim (entries dir) [
    | none ↦ src
    | some names ↦
        let found = unique_match prefix names [] in if eqb found [] then src else dir ++ found
  ]

  -- resolveVolumeDir
  unfoldable pub resolve_volume_dir : Bytes → Bytes
  resolve_volume_dir src = if exists src then src else elim (dash_prefix (split_path src).1) [
    | none ↦ src
    | some prefix ↦
        if eqb prefix (codes "-") then src else resolve_sibling src (split_path src).0 prefix
  ]

  -- The four rewritings of a mount's source, in turn.
  unfoldable pub moved_to_pod : SandboxTarget → Bytes → Bytes
  moved_to_pod t source =
      if not (eqb t.old_pod_uid [])
        && not (eqb t.pod_uid [])
        && has_prefix source (pod_prefix t.old_pod_uid)
      then pod_prefix t.pod_uid ++ after_prefix (pod_prefix t.old_pod_uid) source
      else source

  unfoldable pub moved_to_sandbox : SandboxTarget → Bytes → Bytes
  moved_to_sandbox t source =
      if not (eqb t.sandbox_id []) then replace_sandbox t.sandbox_id 0 source else source

  unfoldable pub resolved_volume : SandboxTarget → Bytes → Bytes
  resolved_volume t source =
      if has_prefix source (pod_prefix t.pod_uid) then resolve_volume_dir source else source

  unfoldable pub borrowed : SandboxTarget → Mount → Bytes → Bytes
  borrowed t m source =
      if (eqb m.type (codes "bind") || has_bind_option m.options)
        && not (exists source)
        && not (eqb (t.keeper_mounts m.destination) [])
      then t.keeper_mounts m.destination
      else source

  -- The body of the loop over the mounts.
  unfoldable pub rewrite_mount : SandboxTarget → Mount → Mount
  rewrite_mount t m = record m {
    source = borrowed t m (resolved_volume t (moved_to_sandbox t (moved_to_pod t m.source)));
    options = if is_nvidia_device m.destination then ensure_private m.options else m.options;
  }

  abbrev pub bound : ExtraMount → Mount
  bound e = record {
    destination = e.container_path;
    type = codes "bind";
    source = e.host_path;
    options = codes "rbind" ∷ codes "rprivate" ∷ codes "ro" ∷ codes "nosuid" ∷ codes "nodev" ∷ [];
  }

  abbrev pub is_destination : Bytes → List Mount → Bool
  is_destination d mounts = any (λ m. eqb m.destination d) mounts

  -- What keeps an extra mount out of the spec.
  unfoldable pub left_out : SandboxTarget → ExtraMount → List Mount → Bool
  left_out t e mounts =
      is_destination e.container_path mounts
      || has_prefix e.container_path (codes "/proc/")
      || eqb e.host_path []
      || not (exists (join_path (t.host_root ∷ e.host_path ∷ [])))

  -- The loop over the extra mounts.
  unfoldable pub add_mounts : SandboxTarget → List ExtraMount → List Mount → List Mount
  add_mounts t [] mounts = mounts
  add_mounts t (e ∷ extra) mounts =
      let kept = add_mounts t extra mounts in
      let added = add_mounts t extra (mounts ++ bound e ∷ []) in
      if left_out t e mounts then kept else added

  abbrev unconfined : Process → Process
  unconfined p = record p { apparmor_profile = []; selinux_label = [] }

  unfoldable pub process_of : Option Process → Option Process
  process_of none = none
  process_of (some p) = some (unconfined p)

  unfoldable pub root_of : Bytes → Option Root → Option Root
  root_of path none = if eqb path [] then none else some (record { path = path; others = [] })
  root_of path (some r) = if eqb path [] then some r else some (record r { path = path })

  -- RewriteSpec
  unfoldable pub rewrite_spec : SandboxTarget → RuntimeSpec → RuntimeSpec
  rewrite_spec t spec = record spec {
    namespaces = map (join_namespace t.pause_pid) spec.namespaces;
    cgroups_path = if not (eqb t.cgroups_path []) then t.cgroups_path else spec.cgroups_path;
    allows_all_devices = true;
    process = process_of spec.process;
    root = root_of t.rootfs_path spec.root;
    mounts = add_mounts t t.extra_mounts (map (rewrite_mount t) spec.mounts);
  }

  -- The sources of the device nodes that ValidateGPUDevices misses.
  unfoldable pub missing_devices : List Mount → List Bytes
  missing_devices [] = []
  missing_devices (m ∷ mounts) =
      let rest = missing_devices mounts in
      if is_nvidia_device m.destination && not (exists m.source) then m.source ∷ rest else rest

  -- ValidateGPUDevices succeeds
  unfoldable pub gpu_devices_present : RuntimeSpec → Bool
  gpu_devices_present spec = is_empty (missing_devices spec.mounts)
