-- ===== src/Artifact/Publish/Tests.antt =====
-- The publication and the cache of an artifact at concrete inputs.
use pod_snapshotter.Base.{
  ◌≡◌, refl, ◌≢◌, none, false, [], ◌∷◌, All, ◌%◌, ◌^◌, Option, some, if◌then◌else◌, true, ◌↔◌,
}
use pod_snapshotter.Base.Bytes.{Bytes, codes, eqb, eqb_iff}
use pod_snapshotter.Go.Path.{join_path, clean}
use mathlib.Core.List.{Perm}
use pod_snapshotter.Os.{Member, type_reg, FileInfo}
use pod_snapshotter.Os.Files.{Files, Same, Along}
use pod_snapshotter.Artifact.Manifest.{Manifest, ManifestFile, new_manifest}
use pod_snapshotter.Artifact.Publish.{manifest_path}
use pod_snapshotter.Artifact.Publish.Writes.{Success}
use pod_snapshotter.Agent.Upload.{captured_shm}
use pod_snapshotter.Agent.Capture.{contribute-Still, shm_path}
use pod_snapshotter.Artifact.Publish.Expand.{Contribute, Archive}
use pod_snapshotter.Artifact.Publish.Magic.{Magic, verify_image_magic-Along}
use pod_snapshotter.Agent.Checkpoint.Parts.{contribute, rootfs_diff_name}
use pod_snapshotter.Artifact.Publish.Checked.{Observed, Published}
use pod_snapshotter.Artifact.Publish.Whole.{publish_dir-Along}
use pod_snapshotter.Api.Common.{Message}
use pod_snapshotter.Artifact.Publish.Dir.{
  publish_dir, PublishDirOptions, CheckpointMeta, verify_image_magic,
}
use pod_snapshotter.Artifact.Manifest.Order.{Sorted, sizes, new_manifest-Sorted}
use pod_snapshotter.Artifact.Cache.{
  NvmeCache, CacheDir, cache_dir, resolve, resolve_manifest, or_decline, check_files, is_directory,
  IsCached, resolve_iff,
}
use pod_snapshotter.Base.Result.{Result, ok}

abbrev pages : Member
pages = record {
  name = codes "checkpoint/pages-1.img";
  type = type_reg;
  mode = 420;
  body = 1 ∷ 2 ∷ [];
}

abbrev archive : Archive
archive = (pages ∷ [], none)

abbrev dst : Bytes
dst = codes "/a/b"

differ : (a b : Bytes) → eqb a b ≡ false → a ≢ b
differ a b h e = absurd (cc (h, (eqb_iff a b).1 e))

shm-manifest : eqb (shm_path dst) (manifest_path dst) ≡ false
unfolding eqb join_path clean
shm-manifest = refl

abbrev no_digest : Bytes → Bytes
no_digest body = []

abbrev count : Manifest → Bytes
count m = m.total_bytes ∷ []

abbrev no_files : Files
no_files p = none

-- With the capture of /dev/shm.
abbrev shm : Contribute
shm = some (captured_shm no_digest [])

abbrev image : ManifestFile
image = record { path = codes "files.img"; size = 8; sha256 = []; mode = 420 }

-- A disk with one metadata image.
abbrev dumped : Files
dumped p =
    if eqb p (codes "/a/b/files.img") then some (25 ∷ 67 ∷ 86 ∷ 84 ∷ 1 ∷ 2 ∷ 3 ∷ 4 ∷ []) else none

verify_image_magic-Along_example :
    Along
      (Same dumped)
      (Success (λ _ _. All (Magic dst dumped) (image ∷ [])))
      (verify_image_magic dst (image ∷ []))
      dumped
verify_image_magic-Along_example = verify_image_magic-Along dst dumped (image ∷ [])

new_manifest-Sorted_example :
    Sorted (new_manifest 0 (image ∷ []) [] none).files
    × Perm (new_manifest 0 (image ∷ []) [] none).files (image ∷ [])
    × ((new_manifest 0 (image ∷ []) [] none).total_bytes ≡ sizes (image ∷ []) % 2 ^ 64)
new_manifest-Sorted_example = new_manifest-Sorted 0 (image ∷ []) [] none

abbrev cache : NvmeCache
cache = record { root = codes "/n"; host_root = codes "/host" }

abbrev on_disk : Bytes → Option FileInfo
on_disk p =
    if eqb p (codes "/host/n/a")
    then some (record { is_dir = true; size = 0; mode = 493; modified_at = 0 })
    else if eqb p (codes "/host/n/a/files.img")
    then some (record { is_dir = false; size = 8; mode = 420; modified_at = 0 })
    else none

abbrev listed : Manifest
listed = new_manifest 0 (image ∷ []) [] none

abbrev resolved : CacheDir
resolved = record { host = codes "/n/a"; local = codes "/host/n/a" }

resolve-listed : resolve on_disk cache (codes "a") (some listed) ≡ ok (some resolved)
unfolding resolve resolve_manifest or_decline check_files is_directory cache_dir eqb join_path clean
    new_manifest pod_snapshotter.Artifact.Manifest.sort_files
    pod_snapshotter.Artifact.Manifest.insert_file
resolve-listed = refl

resolve_iff_example : (resolve on_disk cache (codes "a") (some listed) ≡ ok (some resolved)) ↔ (
    (eqb cache.root [] ≡ false)
    × (resolved ≡ cache_dir cache (codes "a"))
    × (is_directory (on_disk resolved.local) ≡ true)
    × All (IsCached on_disk resolved.local) listed.files)
resolve_iff_example = resolve_iff on_disk cache (codes "a") listed resolved

abbrev dump_options : PublishDirOptions
dump_options = record {
  dir = dst;
  meta = some (record {
    id = codes "c1";
    name = codes "vllm";
    runtime = codes "runc";
    checkpointed_at = 7;
  });
  spec = 123 ∷ 125 ∷ [];
  quiesce = none;
  contribute = some (contribute no_digest [] (codes "/upper"));
  digest = false;
}

abbrev no_meta : CheckpointMeta → Result Message Bytes
no_meta meta = ok []

config-manifest : eqb (join_path (dst ∷ codes "config.dump" ∷ [])) (manifest_path dst) ≡ false
unfolding eqb join_path clean
config-manifest = refl

spec-manifest : eqb (join_path (dst ∷ codes "spec.dump" ∷ [])) (manifest_path dst) ≡ false
unfolding eqb join_path clean
spec-manifest = refl

rootfs-manifest : eqb (join_path (dst ∷ rootfs_diff_name ∷ [])) (manifest_path dst) ≡ false
unfolding eqb join_path clean
rootfs-manifest = refl

publish_dir-Along_example :
    Along
      (Observed count dst dumped)
      (Published count dst)
      (publish_dir no_digest count no_meta true dump_options)
      dumped
publish_dir-Along_example =
    publish_dir-Along no_digest count dump_options (differ _ _ config-manifest)
      (differ _ _ spec-manifest)
      (contribute-Still no_digest dst [] (codes "/upper") (differ _ _ shm-manifest)
        (differ _ _ rootfs-manifest))
      dumped no_meta true
