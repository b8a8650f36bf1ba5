-- ===== src/Artifact/Cache.antt =====
-- internal/artifact/nvmecache.go: NVMeCache.Resolve. `stat` is what os.Stat answers.
use pod_snapshotter.Base.{
  ℕ, ◌≡◌, refl, Bool, true, false, not, ◌==◌, Option, none, some, List, [], ◌∷◌, All, arith,
  if◌then◌else◌, Option-cases, inl, inr, ◌↔◌, Bool-cases, subst,
}
use pod_snapshotter.Base.Bytes.{Bytes, eqb}
use pod_snapshotter.Base.Result.{Result, ok, err}
use pod_snapshotter.Go.Path.{join_path}
use pod_snapshotter.Os.{FileInfo}
use pod_snapshotter.Artifact.Manifest.{Manifest, ManifestFile}

pub record NvmeCache : Type 0 where
  pub root : Bytes
  pub host_root : Bytes

pub record CacheDir : Type 0 where
  pub host : Bytes
  pub local : Bytes

-- A cached file of another size than the manifest says.
pub data CacheError : Type 0 where
  wrong_size : Bytes → ℕ → ℕ → CacheError

-- Where the prefix lies in the two mount namespaces.
unfoldable pub cache_dir : NvmeCache → Bytes → CacheDir
cache_dir c fuse_path =
    let host = join_path (c.root ∷ fuse_path ∷ []) in
    record {
      host = host;
      local = if not (eqb c.host_root []) then join_path (c.host_root ∷ host ∷ []) else host;
    }

-- os.Stat of the prefix: a directory.
unfoldable pub is_directory : Option FileInfo → Bool
is_directory none = false
is_directory (some info) = info.is_dir

unfoldable pub or_decline : CacheDir → Result CacheError Bool → Result CacheError (Option CacheDir)
or_decline dir (err e) = err e
or_decline dir (ok false) = ok none
or_decline dir (ok true) = ok (some dir)

or_decline-some :
    (d dir : CacheDir) (r : Result CacheError Bool)
    → or_decline d r ≡ ok (some dir)
    → (r ≡ ok true) × (dir ≡ d)
unfolding or_decline
or_decline-some d dir (err e) h = absurd (cc h)
or_decline-some d dir (ok false) h = absurd (cc h)
or_decline-some d dir (ok true) h = (refl, cc h)

module _ (stat : Bytes → Option FileInfo) where
  -- The loop of Resolve: whether to use the cache.
  unfoldable pub check_files : Bytes → List ManifestFile → Result CacheError Bool
  check_files local [] = ok true
  check_files local (f ∷ files) =
      let rest = check_files local files in
      elim (stat (join_path (local ∷ f.path ∷ []))) [
        | none ↦ ok false
        | some st ↦ if not (st.size == f.size) then err (wrong_size f.path st.size f.size) else rest
      ]

  unfoldable pub resolve_manifest :
      NvmeCache → Bytes → Manifest → Result CacheError (Option CacheDir)
  resolve_manifest c fuse_path m =
      let dir = cache_dir c fuse_path in
      if not (is_directory (stat dir.local))
      then ok none
      else or_decline dir (check_files dir.local m.files)

  -- NVMeCache.Resolve; the zero CacheDir is none.
  unfoldable pub resolve : NvmeCache → Bytes → Option Manifest → Result CacheError (Option CacheDir)
  resolve c fuse_path none = ok none
  resolve c fuse_path (some m) = if eqb c.root [] then ok none else resolve_manifest c fuse_path m

  -- The cached copy of a listed file has the listed size.
  abbrev pub IsCached : Bytes → ManifestFile → Type 0
  IsCached local f =
      (st : FileInfo) × (stat (join_path (local ∷ f.path ∷ [])) ≡ some st) × (st.size ≡ f.size)

  check_files-IsCached :
      (local : Bytes) (files : List ManifestFile)
      → check_files local files ≡ ok true
      → All (IsCached local) files
  unfolding check_files
  check_files-IsCached local [] h = tt
  check_files-IsCached local (f ∷ files) h =
      elim (Option-cases (stat (join_path (local ∷ f.path ∷ [])))) [
        | inl e ↦ absurd (cc (rw (e, check_files) at h))
        | inr (st, e) ↦
            let g = rw (e, check_files) at h in
            ((st, e, ground (arith, g)), check_files-IsCached local files (ground (arith, g)))
      ]

  IsCached-check_files :
      (local : Bytes) (files : List ManifestFile)
      → All (IsCached local) files
      → check_files local files ≡ ok true
  unfolding check_files
  IsCached-check_files local [] h = refl
  IsCached-check_files local (f ∷ files) ((st, e, s), h) =
      let r = IsCached-check_files local files h in rw (e, check_files) (ground (arith, s, r))

  resolve_manifest-some :
      (c : NvmeCache) (fuse_path : Bytes) (m : Manifest) (dir : CacheDir)
      → resolve_manifest c fuse_path m ≡ ok (some dir)
      → (dir ≡ cache_dir c fuse_path)
        × (is_directory (stat dir.local) ≡ true)
        × All (IsCached dir.local) m.files
  unfolding resolve_manifest
  resolve_manifest-some c fuse_path m dir h =
      let d = cache_dir c fuse_path in
      elim (Bool-cases (is_directory (stat (cache_dir c fuse_path).local))) [
        | inl e ↦
            let g = or_decline-some d dir (check_files d.local m.files) (rw e at h) in
            rw g.1 (refl, e, check_files-IsCached d.local m.files g.0)
        | inr e ↦ absurd (cc (rw e at h))
      ]

  resolve_manifest-cached :
      (c : NvmeCache) (fuse_path : Bytes) (m : Manifest)
      → is_directory (stat (cache_dir c fuse_path).local) ≡ true
      → All (IsCached (cache_dir c fuse_path).local) m.files
      → resolve_manifest c fuse_path m ≡ ok (some (cache_dir c fuse_path))
  unfolding resolve_manifest or_decline
  resolve_manifest-cached c fuse_path m d h =
      rw (d, IsCached-check_files (cache_dir c fuse_path).local m.files h) refl

  -- A prefix is resolved exactly where the bypass is configured, the prefix is a directory of the
  -- cache, and every file that the manifest lists is there in the listed size: then to the
  -- directory's names in the two mount namespaces, and to nothing else.
  pub resolve_iff :
      (c : NvmeCache) (fuse_path : Bytes) (m : Manifest) (dir : CacheDir)
      → (resolve c fuse_path (some m) ≡ ok (some dir)) ↔ (
          (eqb c.root [] ≡ false)
          × (dir ≡ cache_dir c fuse_path)
          × (is_directory (stat dir.local) ≡ true)
          × All (IsCached dir.local) m.files)
  unfolding resolve
  resolve_iff c fuse_path m dir = (
    λ h. elim (Bool-cases (eqb c.root [])) [
      | inl e ↦ absurd (cc (rw e at h))
      | inr e ↦ let g = resolve_manifest-some c fuse_path m dir (rw e at h) in (e, g.0, g.1, g.2)
    ],
    λ (e, d, is_dir, cached).
        rw (e, d)
          (resolve_manifest-cached c fuse_path m (rw d at is_dir)
            (subst (λ x. All (IsCached x.local) m.files) d cached)),
  )
