-- ===== src/Artifact/Publish/Dir.antt =====
-- internal/artifact/publish.go: PublishDir. `encode_meta` is json.Marshal. The two metadata files are
-- written in the order of a Go map, which is not specified: `spec_first` says which one is first.
use pod_snapshotter.Base.{
  ℕ, ◌%◌, Bool, not, ◌&&◌, ◌||◌, Option, none, some, List, [], ◌∷◌, ◌++◌, ltb, any, is_empty, take,
  length, if◌then◌else◌,
}
use pod_snapshotter.Base.Bytes.{Bytes, codes, eqb, has_prefix, has_suffix}
use pod_snapshotter.Base.Result.{Result, ok, err}
use pod_snapshotter.Go.Path.{join_path, base}
use pod_snapshotter.Artifact.Uri.{manifest_name}
use pod_snapshotter.Artifact.Manifest.{Manifest, ManifestFile, QuiesceInfo}
use pod_snapshotter.Artifact.Publish.{
  Action, os_message, or_fail, and_then, manifest_path, describe_file,
}
use pod_snapshotter.Artifact.Publish.Expand.{Contribute, contributed, commit}
use pod_snapshotter.Api.Common.{Message, fixed, format1, nested}
use pod_snapshotter.Os.{
  ret, ask, ◌>>=◌, or_return, or_else, unless_missing, WalkFile, remove, stat, create, write, close,
  walk, read_file,
}

-- CheckpointMeta, of which the dump sets these.
pub record CheckpointMeta : Type 0 where
  pub id : Bytes
  pub name : Bytes
  pub runtime : Bytes
  pub checkpointed_at : ℕ

pub record PublishDirOptions : Type 0 where
  pub dir : Bytes
  pub meta : Option CheckpointMeta
  pub spec : Bytes
  pub quiesce : Option QuiesceInfo
  pub contribute : Contribute
  pub digest : Bool

-- os.WriteFile of package os
unfoldable pub write_whole : Bytes → Bytes → Action (Unit {0})
write_whole p body = do
  created ← ask (create p)
  or_fail created (do
    written ← ask (write p body)
    or_return written (λ e. (do _ ← ask (close p); ret (err (os_message e))))
        (do closed ← ask (close p); or_fail closed (ret (ok tt))))

-- The loop that writes the metadata files.
unfoldable pub write_metadata : Bytes → List (Bytes × Bytes) → Action (Unit {0})
write_metadata dir [] = ret (ok tt)
write_metadata dir (f ∷ files) = do
  written ← write_whole (join_path (dir ∷ f.0 ∷ [])) f.1
  or_else written (λ m. ret (err (nested "writing %s: %w" f.0 [] m)))
      (λ _. write_metadata dir files)

unfoldable pub metadata_files : Bool → Bytes → Bytes → List (Bytes × Bytes)
metadata_files spec_first meta spec =
    if spec_first
    then (codes "spec.dump", spec) ∷ (codes "config.dump", meta) ∷ []
    else (codes "config.dump", meta) ∷ (codes "spec.dump", spec) ∷ []

abbrev pub is_described : Bytes → List ManifestFile → Bool
is_described rel files = any (λ f. eqb f.path rel) files

abbrev describe_walked : (Bytes → Bytes) → Bytes → Bytes → Action ManifestFile
describe_walked sha dir rel = do
  r ← describe_file sha dir rel
  or_else r (λ m. ret (err (nested "describing %s: %w" rel [] m))) (λ f. ret (ok f))

-- One file that the walk finds, which is to be listed.
unfoldable pub list_file : (Bytes → Bytes) → Bool → Bytes → WalkFile → Action ManifestFile
list_file sha digest dir w =
    if digest
    then describe_walked sha dir w.rel
    else ret (ok (record { path = w.rel; size = w.size; sha256 = []; mode = w.mode % 512 }))

-- The walk: `described` is what the contributor listed.
unfoldable pub list_files :
    (Bytes → Bytes)
    → Bool
    → Bytes
    → List ManifestFile
    → List WalkFile
    → List ManifestFile
    → Action (List ManifestFile)
list_files sha digest dir described [] files = ret (ok files)
list_files sha digest dir described (w ∷ rest) files =
    let skipped = list_files sha digest dir described rest files in
    if eqb w.rel manifest_name || is_described w.rel described
    then skipped
    else and_then (list_file sha digest dir w)
        (λ f. list_files sha digest dir described rest (files ++ f ∷ []))

-- `len(base) > 6 && base[:6] == "pages-"`
unfoldable pub is_pages : ManifestFile → Bool
is_pages f = ltb 6 (length (base f.path)) && has_prefix (base f.path) (codes "pages-")

abbrev pub criu_image_magic : Bytes
criu_image_magic = 25 ∷ 67 ∷ 86 ∷ 84 ∷ []

-- The files whose first bytes verifyImageMagic looks at.
unfoldable pub has_magic : ManifestFile → Bool
has_magic f =
    let name = base f.path in
    has_suffix name (codes ".img")
    && not (has_prefix name (codes "pages-"))
    && not (has_suffix name (codes ".tar.gz.img"))
    && not (eqb name (codes "inventory.img"))
    && not (ltb f.size 4)

-- The comparison of one header: io.ReadFull fails where the file is shorter.
unfoldable pub check_magic : ManifestFile → Bytes → Result Message (Unit {0})
check_magic f body =
    if ltb (length body) 4
    then err (format1 "reading the header of %s: unexpected EOF" f.path)
    else if not (eqb (take 4 body) criu_image_magic)
    then err (format1 "%s does not start with the CRIU image magic" f.path)
    else ok tt

-- verifyImageMagic
unfoldable pub verify_image_magic : Bytes → List ManifestFile → Action (Unit {0})
verify_image_magic dir [] = ret (ok tt)
verify_image_magic dir (f ∷ files) =
    let rest = verify_image_magic dir files in
    if not (has_magic f) then rest else do
      opened ← ask (read_file (join_path (dir ∷ f.path ∷ [])))
      or_else opened
          (λ e. ret (err (nested "opening %s to verify it: %w" f.path [] (os_message e))))
          (λ body. or_else (check_magic f body) (λ m. ret (err m)) (λ _. rest))

-- PublishDir once the files are listed.
unfoldable pub publish_listed :
    (Manifest → Bytes) → PublishDirOptions → List ManifestFile → Action Manifest
publish_listed encode opts files =
    if is_empty files
    then ret (err (format1 "artifact at %s is empty" opts.dir))
    else if not (any is_pages files)
    then ret (
        err (
          format1 "artifact at %s has no pages-*.img: the dump produced no memory images" opts.dir))
    else and_then (verify_image_magic opts.dir files)
        (λ _. commit encode opts.dir [] opts.quiesce files)

-- PublishDir from the walk on.
unfoldable pub publish_walk :
    (Bytes → Bytes) → (Manifest → Bytes) → PublishDirOptions → List ManifestFile → Action Manifest
publish_walk sha encode opts described = do
  walked ← ask (walk opts.dir)
  or_else walked (λ e. ret (err (os_message e)))
      (λ found.
        and_then (list_files sha opts.digest opts.dir described found described)
          (publish_listed encode opts))

-- PublishDir from the metadata files on.
unfoldable pub publish_metadata :
    (Bytes → Bytes)
    → (Manifest → Bytes)
    → PublishDirOptions
    → List (Bytes × Bytes)
    → Action Manifest
publish_metadata sha encode opts metadata =
    and_then (write_metadata opts.dir metadata)
      (λ _. and_then (contributed opts.contribute opts.dir []) (publish_walk sha encode opts))

abbrev pub no_images : Bytes → Message
no_images dir =
    format1 "no CRIU images at %s: the dump must write there before publishing"
      (join_path (dir ∷ codes "checkpoint" ∷ []))

-- PublishDir once the old MANIFEST is cleared.
unfoldable pub publish_cleared :
    (Bytes → Bytes)
    → (Manifest → Bytes)
    → (CheckpointMeta → Result Message Bytes)
    → Bool
    → PublishDirOptions
    → CheckpointMeta
    → Action Manifest
publish_cleared sha encode encode_meta spec_first opts meta = do
  found ← ask (stat (join_path (opts.dir ∷ codes "checkpoint" ∷ [])))
  or_else found (λ _. ret (err (no_images opts.dir)))
      (λ info.
        if not info.is_dir
        then ret (err (no_images opts.dir))
        else or_else (encode_meta meta) (λ m. ret (err (nested "encoding config.dump: %w" [] [] m)))
            (λ body. publish_metadata sha encode opts (metadata_files spec_first body opts.spec)))

-- PublishDir after the tests of its options.
unfoldable pub publish_with :
    (Bytes → Bytes)
    → (Manifest → Bytes)
    → (CheckpointMeta → Result Message Bytes)
    → Bool
    → PublishDirOptions
    → CheckpointMeta
    → Action Manifest
publish_with sha encode encode_meta spec_first opts meta =
    if is_empty opts.spec
    then ret (
        err (
          fixed
            "the container's OCI spec is required; without spec.dump the artifact cannot be restored"))
    else do
      cleared ← ask (remove (manifest_path opts.dir))
      or_return (unless_missing cleared)
          (λ e. ret (err (nested "clearing stale MANIFEST: %w" [] [] (os_message e))))
          (publish_cleared sha encode encode_meta spec_first opts meta)

unfoldable pub publish_meta :
    Option CheckpointMeta
    → (Bytes → Bytes)
    → (Manifest → Bytes)
    → (CheckpointMeta → Result Message Bytes)
    → Bool
    → PublishDirOptions
    → Action Manifest
publish_meta none sha encode encode_meta spec_first opts =
    ret (err (fixed "checkpoint metadata is required"))
publish_meta (some meta) sha encode encode_meta spec_first opts =
    publish_with sha encode encode_meta spec_first opts meta

-- PublishDir
unfoldable pub publish_dir :
    (Bytes → Bytes)
    → (Manifest → Bytes)
    → (CheckpointMeta → Result Message Bytes)
    → Bool
    → PublishDirOptions
    → Action Manifest
publish_dir sha encode encode_meta spec_first opts =
    if eqb opts.dir []
    then ret (err (fixed "artifact dir is required"))
    else publish_meta opts.meta sha encode encode_meta spec_first opts
