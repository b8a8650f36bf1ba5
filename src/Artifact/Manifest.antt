-- ===== src/Artifact/Manifest.antt =====
-- internal/artifact/manifest.go: the commit record of a directory artifact. An int64 is its bit
-- pattern, below 2^64; the version, an int, is a number (the check accepts what is negative, as it
-- accepts 0). encoding/json is an argument of `decode_manifest`, time.Now one of `new_manifest`.
pub mod RelPath
pub mod Order
use pod_snapshotter.Base.{
  ℕ, ◌+◌, ◌%◌, ◌^◌, Bool, true, false, not, ◌&&◌, ◌||◌, Option, none, some, List, [], ◌∷◌, ltb,
  ◌==◌, if◌then◌else◌, is_empty,
}
use pod_snapshotter.Base.Bytes.{Bytes, codes, eqb, has_prefix}
use pod_snapshotter.Base.Result.{Result, ok, err, ◌>>=◌, ◌>>◌, fail_if, wrap}
use pod_snapshotter.Go.Path.{clean}
use pod_snapshotter.Artifact.Uri.{climbs, format_dir}

abbrev pub manifest_version : ℕ
manifest_version = 1

pub record ManifestFile : Type 0 where
  pub path : Bytes
  pub size : ℕ  -- int64
  pub sha256 : Bytes
  pub mode : ℕ  -- uint32

pub record QuiesceInfo : Type 0 where
  pub mode : Bytes
  pub dir : Bytes

pub record Manifest : Type 0 where
  pub version : ℕ
  pub format : Bytes
  pub source_tar : Bytes
  pub quiesce : Option QuiesceInfo
  pub files : List ManifestFile
  pub total_bytes : ℕ  -- int64
  pub created_at : ℕ

-- The byte-wise order of Go strings.
unfoldable pub less : Bytes → Bytes → Bool
less [] [] = false
less [] (b ∷ t) = true
less (a ∷ s) [] = false
less (a ∷ s) (b ∷ t) = let rest = less s t in if ltb a b then true else a == b && rest

-- sort.Slice by path. Where two paths are the same the library's order is not specified.
unfoldable pub insert_file : ManifestFile → List ManifestFile → List ManifestFile
insert_file f [] = f ∷ []
insert_file f (g ∷ files) =
    let rest = insert_file f files in if less g.path f.path then g ∷ rest else f ∷ g ∷ files

unfoldable pub sort_files : List ManifestFile → List ManifestFile
sort_files [] = []
sort_files (f ∷ files) = insert_file f (sort_files files)

-- `for _, f := range files { total += f.Size }`
unfoldable pub total_size : ℕ → List ManifestFile → ℕ
total_size total [] = total
total_size total (f ∷ files) = total_size ((total + f.size) % 2 ^ 64) files

-- NewManifest
unfoldable pub new_manifest : ℕ → List ManifestFile → Bytes → Option QuiesceInfo → Manifest
new_manifest now files source_tar quiesce =
    let sorted = sort_files files in
    record {
      version = manifest_version;
      format = format_dir;
      source_tar = source_tar;
      quiesce = quiesce;
      files = sorted;
      total_bytes = total_size 0 sorted;
      created_at = now;
    }

pub data ManifestError : Type 0 where
  not_json no_files : ManifestError
  newer_version : ℕ → ManifestError
  empty_path not_relative not_clean leaves_prefix : ManifestError
  bad_entry : Bytes → ManifestError → ManifestError

-- validRelPath
unfoldable pub valid_rel_path : Bytes → Result ManifestError (Unit {0})
valid_rel_path p = do
  fail_if (eqb p []) empty_path
  fail_if (has_prefix p (codes "/")) not_relative
  fail_if (not (eqb p (clean p))) not_clean
  fail_if (climbs p) leaves_prefix
  ok tt

-- `for _, f := range m.Files { validRelPath(f.Path) }`
unfoldable pub valid_entries : List ManifestFile → Result ManifestError (Unit {0})
valid_entries [] = ok tt
valid_entries (f ∷ files) =
    let rest = valid_entries files in wrap (bad_entry f.path) (valid_rel_path f.path) >> rest

-- DecodeManifest after the JSON decoder.
unfoldable pub validate : Manifest → Result ManifestError Manifest
validate m = do
  fail_if (ltb manifest_version m.version) (newer_version m.version)
  fail_if (is_empty m.files) no_files
  valid_entries m.files
  ok m

-- DecodeManifest
unfoldable pub decode_manifest : (Bytes → Option Manifest) → Bytes → Result ManifestError Manifest
decode_manifest json body = elim (json body) [ none ↦ err not_json | some m ↦ validate m ]
