-- ===== src/Artifact/Uri.antt =====
-- internal/artifact/uri.go: artifact locations. An error is its format with the arguments.
pub mod Parse
pub mod Roundtrip
pub mod Places
pub mod Confine
use pod_snapshotter.Base.{
  Bool, false, not, ◌&&◌, ◌||◌, none, some, [], ◌∷◌, ◌++◌, if◌then◌else◌, any,
}
use pod_snapshotter.Base.Bytes.{
  Bytes, codes, eqb, has_prefix, has_suffix, trim_prefix, trim_right, split,
}
use pod_snapshotter.Base.Result.{Result, ok, err, ◌>>=◌, ◌>>◌, fail_if, wrap}
use pod_snapshotter.Go.Path.{slash, dotdot, clean, join_path}
use pod_snapshotter.Go.Url.{Url, url_parse}

abbrev pub scheme_fuse : Bytes
scheme_fuse = codes "fuse"

abbrev pub scheme_file : Bytes
scheme_file = codes "file"

abbrev pub format_tar : Bytes
format_tar = codes "tar"

abbrev pub format_dir : Bytes
format_dir = codes "dir"

-- The object whose presence commits a directory artifact (ManifestName of manifest.go).
abbrev pub manifest_name : Bytes
manifest_name = codes "MANIFEST"

pub record Uri : Type 0 where
  pub scheme : Bytes
  pub path : Bytes
  pub dir : Bool

pub data UriError : Type 0 where
  invalid_uri unusable_path has_dotdot : Bytes → UriError
  unsupported_scheme : Bytes → UriError
  has_host : Bytes → UriError
  not_directory : Uri → UriError
  leaves_prefix : Bytes → UriError
  empty_relative_path : UriError
  outside_root : Uri → Bytes → UriError
  invalid_root : Bytes → UriError → UriError

-- `for _, seg := range strings.Split(p, "/") { if seg == ".." ... }`
unfoldable pub climbs : Bytes → Bool
climbs p = any (λ part. eqb part dotdot) (split slash p)

-- Parse after url.Parse.
unfoldable pub parse_url : Bytes → Url → Result UriError Uri
parse_url raw u = do
  fail_if (not (eqb u.scheme scheme_fuse || eqb u.scheme scheme_file)) (unsupported_scheme u.scheme)
  fail_if (not (eqb u.host [])) (has_host raw)
  fail_if (climbs u.path) (has_dotdot raw)
  let p = clean u.path
  fail_if (eqb p (codes "/") || eqb p (codes ".") || not (has_prefix p (codes "/")))
      (unusable_path raw)
  ok (record { scheme = u.scheme; path = p; dir = has_suffix u.path (codes "/") })

-- Parse
unfoldable pub parse : Bytes → Result UriError Uri
parse raw = elim (url_parse raw) [ none ↦ err (invalid_uri raw) | some u ↦ parse_url raw u ]

-- URI.String
unfoldable pub to_string : Uri → Bytes
to_string u = let s = u.scheme ++ (codes "://" ++ u.path) in if u.dir then s ++ codes "/" else s

-- URI.Format
unfoldable pub format : Uri → Bytes
format u = if u.dir then format_dir else format_tar

-- URI.HostPath
unfoldable pub host_path : Uri → Bytes → Bytes
host_path u fuse_mount =
    if eqb u.scheme scheme_file then u.path else join_path (fuse_mount ∷ u.path ∷ [])

-- URI.FusePath
unfoldable pub fuse_path : Uri → Bytes
fuse_path u = trim_prefix slash u.path

-- URI.Join
unfoldable pub join : Uri → Bytes → Result UriError Uri
join u rel = do
  fail_if (not u.dir) (not_directory u)
  fail_if (climbs rel) (leaves_prefix rel)
  let cleaned = clean (codes "/" ++ rel)
  fail_if (eqb cleaned (codes "/")) empty_relative_path
  ok (record { scheme = u.scheme; path = u.path ++ cleaned; dir = false })

-- URI.CommitPath
unfoldable pub commit_path : Uri → Uri
commit_path u =
    if not u.dir
    then u
    else record { scheme = u.scheme; path = u.path ++ (codes "/" ++ manifest_name); dir = false }

abbrev pub default_root : Bytes
default_root = codes "fuse:///snapshots"

-- rootOrDefault
unfoldable pub root_or_default : Bytes → Bytes
root_or_default root = if eqb root [] then default_root else trim_right slash root

-- ParseRoot
unfoldable pub parse_root : Bytes → Result UriError Bytes
parse_root root = do
  let trimmed = trim_right slash (if eqb root [] then default_root else root)
  _ ← wrap (invalid_root trimmed) (parse (trimmed ++ codes "/probe"))
  ok trimmed

-- withFormat
unfoldable pub with_format : Bytes → Bytes → Bytes
with_format base fmt = if eqb fmt format_dir then base ++ codes "/" else base ++ codes ".tar"

-- DefaultURI
unfoldable pub default_uri : Bytes → Bytes → Bytes → Bytes → Bytes → Bytes
default_uri root namespace name container fmt =
    with_format
      (root_or_default root
        ++ (codes "/" ++ (namespace ++ (codes "/" ++ (name ++ (codes "/" ++ container))))))
      fmt

-- DefaultBuildURI
unfoldable pub default_build_uri : Bytes → Bytes → Bytes → Bytes
default_build_uri root revision fmt =
    with_format (root_or_default root ++ (codes "/builds/" ++ revision)) fmt

-- CheckLocalRoot
unfoldable pub check_local_root : Uri → Bytes → Result UriError (Unit {0})
check_local_root u root =
    let trimmed = trim_right slash (clean root) in
    if not (eqb u.scheme scheme_file) || eqb root []
    then ok tt
    else fail_if (not (eqb u.path trimmed) && not (has_prefix u.path (trimmed ++ codes "/")))
        (outside_root u trimmed)
