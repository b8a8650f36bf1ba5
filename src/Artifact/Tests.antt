-- ===== src/Artifact/Tests.antt =====
-- The artifact model at concrete inputs.
use pod_snapshotter.Artifact.Manifest.{
  Manifest, ManifestFile, decode_manifest, validate, valid_entries, valid_rel_path,
}
use pod_snapshotter.Artifact.Manifest.RelPath.{join-valid_rel_path}
use pod_snapshotter.Artifact.Store.{
  Access, reading, deleting, Objects, manifest, stat, delete, delete_object, delete_files,
  delete_next, delete_committed, read, found,
}
use pod_snapshotter.Artifact.Store.Delete.{delete-all_or_uncommitted}
use pod_snapshotter.Artifact.Store.Scope.{delete-outside, delete-gone, Removed}
use pod_snapshotter.Base.{
  ◌≡◌, refl, [], ◌∷◌, All, ◌⊎◌, ◌↔◌, true, false, if◌then◌else◌, ◌++◌, Bool, Option, none, some,
}
use pod_snapshotter.Base.Bytes.{Bytes, codes, eqb, has_prefix, has_suffix}
use pod_snapshotter.Base.Result.{ok, err, is_err}
use pod_snapshotter.Go.Path.{clean}
use pod_snapshotter.Go.Path.Parts.{IsAbs}
use pod_snapshotter.Go.Url.{url_parse, is_ctl}
use pod_snapshotter.Go.Path.Laws.{clean-IsAbs}
use pod_snapshotter.Go.Url.Laws.{IsPlain, is_plain}
use pod_snapshotter.Artifact.Uri
use pod_snapshotter.Artifact.Uri.{
  Uri, UriError, has_host, has_dotdot, unusable_path, parse, parse_url, climbs, to_string,
  host_path, join, check_local_root, default_uri, with_format, root_or_default, scheme_fuse,
  scheme_file, format_dir, commit_path,
}
use pod_snapshotter.Artifact.Uri.Parse.{IsValid, parse-IsValid}
use pod_snapshotter.Artifact.Uri.Roundtrip.{parse-to_string}
use pod_snapshotter.Artifact.Uri.Places.{host_path-parse, join-below}
use pod_snapshotter.Artifact.Uri.Confine.{check_local_root_iff, IsInside}

parse_tar :
    parse (codes "fuse:///a//b/./c.tar")
    ≡ ok (record { scheme = scheme_fuse; path = codes "/a/b/c.tar"; dir = false })
unfolding parse parse_url url_parse climbs clean has_prefix has_suffix eqb
parse_tar = refl

parse_dir :
    parse (codes "FILE:///a/b%20c/")
    ≡ ok (record { scheme = scheme_file; path = codes "/a/b c"; dir = true })
unfolding parse parse_url url_parse climbs clean has_prefix has_suffix eqb
parse_dir = refl

parse_host : parse (codes "fuse://snapshots/a") ≡ err (has_host (codes "fuse://snapshots/a"))
unfolding parse parse_url url_parse climbs clean has_prefix has_suffix eqb
parse_host = refl

parse_climb : parse (codes "fuse:///a/%2e%2E/b") ≡ err (has_dotdot (codes "fuse:///a/%2e%2E/b"))
unfolding parse parse_url url_parse climbs clean has_prefix has_suffix eqb
parse_climb = refl

parse_opaque : parse (codes "fuse:snap") ≡ err (unusable_path (codes "fuse:snap"))
unfolding parse parse_url url_parse climbs clean has_prefix has_suffix eqb
parse_opaque = refl

default_dir :
    default_uri [] (codes "ml") (codes "snap") (codes "vllm") format_dir
    ≡ codes "fuse:///snapshots/ml/snap/vllm/"
unfolding default_uri root_or_default with_format eqb
default_dir = refl

-- A directory artifact, and a path on the disk with its root.
abbrev sample : Uri
sample = record { scheme = scheme_fuse; path = codes "/a/b"; dir = true }

abbrev local : Uri
local = record { scheme = scheme_file; path = codes "/data/x"; dir = true }

abbrev data_root : Bytes
data_root = codes "/data/"

parse-sample : parse (codes "fuse:///a/b/") ≡ ok sample
unfolding parse parse_url url_parse climbs clean has_prefix has_suffix eqb
parse-sample = refl

parse_local : parse (codes "file:///data//x/") ≡ ok local
unfolding parse parse_url url_parse climbs clean has_prefix has_suffix eqb
parse_local = refl

data_IsAbs : IsAbs (clean data_root)
unfolding clean has_prefix
data_IsAbs = clean-IsAbs data_root refl (λ e. cc)

IsPlain-sample : All IsPlain sample.path
unfolding is_plain is_ctl
IsPlain-sample = (refl, (refl, (refl, (refl, tt))))

abbrev page : Uri
page = record { scheme = scheme_fuse; path = codes "/a/b/pages/1.img"; dir = false }

joined : Uri.join sample (codes "pages/1.img") ≡ ok page
unfolding Uri.join climbs clean eqb
joined = refl

parse-IsValid_example : IsValid sample
parse-IsValid_example = parse-IsValid (codes "fuse:///a/b/") sample parse-sample

parse-to_string_example : parse (to_string sample) ≡ ok sample
parse-to_string_example =
    parse-to_string sample (parse-IsValid (codes "fuse:///a/b/") sample parse-sample) IsPlain-sample

host_path-parse_example :
    host_path sample (clean data_root)
    ≡ (if eqb sample.scheme scheme_file then sample.path else clean data_root ++ sample.path)
host_path-parse_example =
    host_path-parse (codes "fuse:///a/b/") (clean data_root) sample parse-sample data_IsAbs

join-below_example :
    (page.scheme ≡ sample.scheme)
    × (page.dir ≡ false)
    × (sample.dir ≡ true)
    × ((t : Bytes) × IsAbs t × (page.path ≡ sample.path ++ t))
join-below_example = join-below sample (codes "pages/1.img") page joined

check_local_root_example :
    (check_local_root local data_root ≡ ok tt)
    ↔ IsInside
        (parse-IsValid (codes "file:///data//x/") local parse_local).usable_path.parts
        data_IsAbs.parts
check_local_root_example =
    check_local_root_iff local data_root
      (parse-IsValid (codes "file:///data//x/") local parse_local) data_IsAbs refl

valid_page : valid_rel_path (codes "pages/1.img") ≡ ok tt
unfolding valid_rel_path climbs clean eqb has_prefix
valid_page = refl

join-valid_rel_path_example : Uri.join sample (codes "pages/1.img") ≡ ok page
join-valid_rel_path_example =
    join-valid_rel_path sample (codes "pages/1.img") refl valid_page (λ e. cc e)

-- A committed directory of one file on the disk, beside a file of somebody else.
abbrev listed : ManifestFile
listed = record { path = codes "p"; size = 3; sha256 = codes "00"; mode = 420 }

abbrev record_of : Manifest
record_of = record {
  version = 1;
  format = format_dir;
  source_tar = [];
  quiesce = none;
  files = listed ∷ [];
  total_bytes = 3;
  created_at = 0;
}

disk : Bytes → Option Bytes
unfolding eqb
disk key =
    if eqb key (codes "/data/x/MANIFEST")
    then some (codes "{}")
    else if eqb key (codes "/data/x/p")
    then some (codes "abc")
    else if eqb key (codes "/data/y")
    then some (codes "def")
    else none

abbrev objects : Objects
objects = record { file = disk; fuse = λ _. none; endpoint = false }

abbrev no_fault : Access → Bytes → Bytes → Bool
no_fault access scheme path = false

-- A store that refuses every deletion.
abbrev sealed : Access → Bytes → Bytes → Bool
sealed deleting scheme path = true
sealed reading scheme path = false

abbrev read_json : Bytes → Option Manifest
read_json body = some record_of

committed : manifest no_fault read_json objects local ≡ ok record_of
unfolding manifest read found disk commit_path decode_manifest validate valid_entries valid_rel_path
    climbs clean has_prefix eqb
committed = refl

deleted : (delete no_fault read_json objects local).0 ≡ ok tt
unfolding delete delete_committed delete_files delete_next delete_object Uri.join manifest read
    found disk commit_path decode_manifest validate valid_entries valid_rel_path climbs clean
    has_prefix eqb
deleted = refl

sealed-committed : manifest sealed read_json objects local ≡ ok record_of
unfolding manifest read found disk commit_path decode_manifest validate valid_entries valid_rel_path
    climbs clean has_prefix eqb
sealed-committed = refl

delete-all_or_uncommitted_example :
    ((is_err (delete sealed read_json objects local).0 ≡ true)
      × ((delete sealed read_json objects local).1 ≡ objects))
    ⊎ (is_err (stat sealed read_json (delete sealed read_json objects local).1 local) ≡ true)
delete-all_or_uncommitted_example =
    delete-all_or_uncommitted sealed read_json objects local record_of refl sealed-committed

beside : has_prefix (codes "/data/y") (local.path ++ codes "/") ≡ false
unfolding has_prefix
beside = refl

delete-outside_example :
    (delete no_fault read_json objects local).1.file (codes "/data/y") ≡ disk (codes "/data/y")
delete-outside_example =
    delete-outside no_fault read_json objects local record_of (codes "/data/y") refl committed
      beside

delete-gone_example :
    All
      (λ f.
        Removed no_fault read_json
          (delete no_fault read_json objects local).1
          (Uri.join local f.path))
      (listed ∷ [])
delete-gone_example = delete-gone no_fault read_json objects local record_of refl committed deleted
