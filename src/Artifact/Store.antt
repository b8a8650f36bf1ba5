-- ===== src/Artifact/Store.antt =====
-- internal/artifact/store.go: artifacts as the manager sees them, through the fuse-client API
-- (internal/fuseclient/http.go: a missing object is an error of Stat and Get, and not one of
-- Delete) or on the local disk. Any single object may be faulty: reads of it fail, or deletions of it,
-- or both.
pub mod Delete
pub mod Scope
use pod_snapshotter.Base.{
  ℕ, Bool, true, false, not, Option, none, some, List, [], ◌∷◌, if◌then◌else◌, length,
}
use pod_snapshotter.Base.Bytes.{Bytes, eqb}
use pod_snapshotter.Base.Result.{Result, ok, err, ◌>>=◌}
use pod_snapshotter.Artifact.Uri
use pod_snapshotter.Artifact.Uri.{Uri, UriError, scheme_file, scheme_fuse, fuse_path, commit_path}
use pod_snapshotter.Artifact.Manifest.{Manifest, ManifestFile, ManifestError, decode_manifest}

pub record Objects : Type 0 where
  pub file : Bytes → Option Bytes  -- the disk, by path
  pub fuse : Bytes → Option Bytes  -- the fuse-client tree, by path under its root
  pub endpoint : Bool  -- a fuse-client endpoint is configured

pub data StoreError : Type 0 where
  not_found faulty : Bytes → StoreError
  no_endpoint : Uri → StoreError
  unsupported_scheme : Bytes → StoreError
  bad_manifest : ManifestError → StoreError

-- What is done with an object.
pub data Access : Type 0 where
  reading deleting : Access

abbrev pub without : Bytes → (Bytes → Option Bytes) → Bytes → Option Bytes
without path m key = if eqb key path then none else m key

-- `if err := step; err != nil { return err }`
abbrev pub and_then :
    Result StoreError (Unit {0}) × Objects
    → (Objects → Result StoreError (Unit {0}) × Objects)
    → Result StoreError (Unit {0}) × Objects
and_then (ok x, s) f = f s
and_then (err e, s) f = (err e, s)

unfoldable pub found : Bytes → Option Bytes → Result StoreError Bytes
found path none = err (not_found path)
found path (some body) = ok body

-- The parameters: which access to which object fails, by scheme and path, and the JSON decoder.
module _ (fault : Access → Bytes → Bytes → Bool) (json : Bytes → Option Manifest) where
  -- os.Open, or FuseAPI.Get, of an object: what statObject and manifest have in common.
  unfoldable pub read : Objects → Uri → Result StoreError Bytes
  unfolding found
  read s u =
      if eqb u.scheme scheme_file
      then (if fault reading scheme_file u.path
          then err (faulty u.path)
          else found u.path (s.file u.path))
      else if eqb u.scheme scheme_fuse
      then (if not s.endpoint
          then err (no_endpoint u)
          else if fault reading scheme_fuse (fuse_path u)
          then err (faulty (fuse_path u))
          else found (fuse_path u) (s.fuse (fuse_path u)))
      else err (unsupported_scheme u.scheme)

  -- Store.statObject
  unfoldable pub stat_object : Objects → Uri → Result StoreError ℕ
  stat_object s u = do body ← read s u; ok (length body)

  -- Store.manifest
  unfoldable pub manifest : Objects → Uri → Result StoreError Manifest
  manifest s u = do
    body ← read s (commit_path u)
    elim (decode_manifest json body) [ err e ↦ err (bad_manifest e) | ok m ↦ ok m ]

  -- Store.Stat
  unfoldable pub stat : Objects → Uri → Result StoreError ℕ
  stat s u = if u.dir then (do m ← manifest s u; ok m.total_bytes) else stat_object s u

  -- Store.deleteObject
  unfoldable pub delete_object : Objects → Uri → Result StoreError (Unit {0}) × Objects
  delete_object s u =
      if eqb u.scheme scheme_file
      then (if fault deleting scheme_file u.path
          then (err (faulty u.path), s)
          else (ok tt, record s { file = without u.path s.file }))
      else if eqb u.scheme scheme_fuse
      then (if not s.endpoint
          then (err (no_endpoint u), s)
          else if fault deleting scheme_fuse (fuse_path u)
          then (err (faulty (fuse_path u)), s)
          else (ok tt, record s { fuse = without (fuse_path u) s.fuse }))
      else (err (unsupported_scheme u.scheme), s)

  -- One listed file of Delete, then the rest. One that cannot be joined is passed over.
  unfoldable pub delete_next :
      (Objects → Result StoreError (Unit {0}) × Objects)
      → Objects
      → Result UriError Uri
      → Result StoreError (Unit {0}) × Objects
  delete_next rest s (err e) = rest s
  delete_next rest s (ok v) = and_then (delete_object s v) rest

  -- The loop of Delete over the listed files.
  unfoldable pub delete_files :
      Objects → Uri → List ManifestFile → Result StoreError (Unit {0}) × Objects
  delete_files s u [] = (ok tt, s)
  delete_files s u (f ∷ files) = delete_next (λ t. delete_files t u files) s (Uri.join u f.path)

  -- Delete of a committed directory: the MANIFEST first, then the files.
  unfoldable pub delete_committed :
      Objects → Uri → Manifest → Result StoreError (Unit {0}) × Objects
  delete_committed s u m =
      and_then (delete_object s (commit_path u)) (λ s'. delete_files s' u m.files)

  -- Store.Delete
  unfoldable pub delete : Objects → Uri → Result StoreError (Unit {0}) × Objects
  delete s u =
      if not u.dir
      then delete_object s u
      else elim (manifest s u) [ err e ↦ (ok tt, s) | ok m ↦ delete_committed s u m ]
