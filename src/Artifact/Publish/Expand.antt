-- ===== src/Artifact/Publish/Expand.antt =====
-- internal/artifact/expand.go: ExpandTarToDir. The archive is what archive/tar reads: its members,
-- and whether it ends or breaks off with an error.
use pod_snapshotter.Base.{
  ℕ, suc, ◌%◌, ◌^◌, Bool, ◌||◌, Option, none, some, List, [], ◌∷◌, ◌++◌, ltb, is_empty,
  if◌then◌else◌,
}
use pod_snapshotter.Base.Bytes.{Bytes, codes, eqb}
use pod_snapshotter.Base.Result.{ok, err}
use pod_snapshotter.Go.Path.{clean, join_path, base}
use pod_snapshotter.Artifact.Manifest.{
  Manifest, ManifestFile, QuiesceInfo, new_manifest, valid_rel_path,
}
use pod_snapshotter.Artifact.Publish.{
  Action, os_message, or_fail, and_then, manifest_path, write_file, write_manifest_dir,
  manifest_error,
}
use pod_snapshotter.Api.Common.{fixed, format1, nested}
use pod_snapshotter.Os.{
  ret, ask, ◌>>=◌, or_return, or_else, unless_missing, OsError, Member, MemberType, type_dir,
  type_reg, type_other, mkdir_all, remove, open_file, now,
}

abbrev pub max_tar_entries : ℕ
max_tar_entries = 2 ^ 20

-- Where a member is written.
abbrev pub member_name : Member → Bytes
member_name m = clean m.name

abbrev pub target : Bytes → Member → Bytes
target dst m = join_path (dst ∷ member_name m ∷ [])

abbrev pub is_skipped : Member → Bool
is_skipped m = eqb (member_name m) (codes ".") || eqb (member_name m) (codes "/")

-- The manifest entry of a member that was written.
abbrev pub entry_of : Member → Bytes × ℕ → ManifestFile
entry_of m written = record {
  path = member_name m;
  size = written.1;
  sha256 = written.0;
  mode = m.mode % 512;
}

-- The switch on the type of a member; `next` goes on with the files written so far.
unfoldable pub expand_type :
    (Bytes → Bytes)
    → Bytes
    → Member
    → MemberType
    → List ManifestFile
    → (List ManifestFile → Action (List ManifestFile))
    → Action (List ManifestFile)
expand_type sha dst m type_dir files next = do
  made ← ask (mkdir_all (target dst m))
  or_fail made (next files)
expand_type sha dst m type_reg files next = do
  result ← write_file sha (target dst m) m.body
  or_else result (λ e. ret (err (nested "writing %s: %w" (member_name m) [] e)))
      (λ written. next (files ++ entry_of m written ∷ []))
expand_type sha dst m type_other files next =
    ret (err (format1 "checkpoint tar entry %q has unsupported type" m.name))

-- The body of the loop, after the count.
unfoldable pub expand_member :
    (Bytes → Bytes)
    → Bytes
    → Member
    → List ManifestFile
    → (List ManifestFile → Action (List ManifestFile))
    → Action (List ManifestFile)
expand_member sha dst m files next =
    if is_skipped m
    then next files
    else or_else (valid_rel_path (member_name m))
        (λ e. ret (err (nested "checkpoint tar entry %q: %w" m.name [] (manifest_error e))))
        (λ _. expand_type sha dst m m.type files next)

-- The loop: the archive ends, or breaks off with an error.
unfoldable pub expand_members :
    (Bytes → Bytes)
    → Bytes
    → ℕ
    → List Member
    → Option OsError
    → List ManifestFile
    → Action (List ManifestFile)
expand_members sha dst entries [] none files = ret (ok files)
expand_members sha dst entries [] (some e) files =
    ret (err (nested "reading checkpoint tar: %w" [] [] (os_message e)))
expand_members sha dst entries (m ∷ rest) end files =
    if ltb max_tar_entries (suc entries)
    then ret (err (fixed "checkpoint tar has too many entries"))
    else expand_member sha dst m files (λ done. expand_members sha dst (suc entries) rest end done)

-- `contribute`, which may be nil.
abbrev pub Contribute : Type 0
Contribute = Option (Bytes → Action (List ManifestFile))

unfoldable pub contributed : Contribute → Bytes → List ManifestFile → Action (List ManifestFile)
contributed none dst files = ret (ok files)
contributed (some f) dst files = and_then (f dst) (λ extra. ret (ok (files ++ extra)))

-- NewManifest and WriteManifestDir.
unfoldable pub commit :
    (Manifest → Bytes) → Bytes → Bytes → Option QuiesceInfo → List ManifestFile → Action Manifest
commit encode dst source quiesce files = do
  t ← ask now
  and_then (write_manifest_dir encode dst (new_manifest t files source quiesce))
      (λ _. ret (ok (new_manifest t files source quiesce)))

-- ExpandTarToDir after the loop.
unfoldable pub expand_rest :
    (Manifest → Bytes)
    → Bytes
    → Bytes
    → Option QuiesceInfo
    → Contribute
    → List ManifestFile
    → Action Manifest
expand_rest encode tar dst quiesce contribute files =
    if is_empty files
    then ret (err (format1 "checkpoint tar %s contained no files" tar))
    else and_then (contributed contribute dst files) (commit encode dst (base tar) quiesce)

abbrev pub Archive : Type 0
Archive = List Member × Option OsError

-- ExpandTarToDir from opening the archive on.
unfoldable pub expand_open :
    (Bytes → Bytes)
    → (Manifest → Bytes)
    → Archive
    → Bytes
    → Bytes
    → Option QuiesceInfo
    → Contribute
    → Action Manifest
expand_open sha encode archive tar dst quiesce contribute = do
  opened ← ask (open_file tar)
  or_return opened (λ e. ret (err (nested "opening checkpoint tar: %w" [] [] (os_message e))))
      (and_then (expand_members sha dst 0 archive.0 archive.1 [])
        (expand_rest encode tar dst quiesce contribute))

-- ExpandTarToDir
unfoldable pub expand_tar_to_dir :
    (Bytes → Bytes)
    → (Manifest → Bytes)
    → Archive
    → Bytes
    → Bytes
    → Option QuiesceInfo
    → Contribute
    → Action Manifest
expand_tar_to_dir sha encode archive tar dst quiesce contribute = do
  made ← ask (mkdir_all dst)
  or_fail made (do
    cleared ← ask (remove (manifest_path dst))
    or_return (unless_missing cleared)
        (λ e. ret (err (nested "clearing stale MANIFEST: %w" [] [] (os_message e))))
        (expand_open sha encode archive tar dst quiesce contribute))
