-- ===== src/Artifact/Publish/Atomic.antt =====
-- ExpandTarToDir as a whole: a directory artifact is committed at once.
use pod_snapshotter.Base.{
  ◌≡◌, ◌∙◌, ◌⊎◌, inl, inr, Option, none, some, List, [], ◌∷◌, All, if_split, ◌++◌,
}
use pod_snapshotter.Base.Bytes.{Bytes}
use pod_snapshotter.Base.Result.{Result, ok, err}
use pod_snapshotter.Os.{ret, or_else}
use pod_snapshotter.Os.Files.{Files, Same, Along, Along-bind, Along-map, Copied}
use pod_snapshotter.Artifact.Manifest.{
  Manifest, ManifestFile, QuiesceInfo, less, insert_file, sort_files, new_manifest,
}
use pod_snapshotter.Artifact.Publish.{manifest_path, part_of, write_manifest_dir, and_then, Action}
use pod_snapshotter.Artifact.Publish.Writes.{Success, write_manifest_dir-Along}
use pod_snapshotter.Artifact.Publish.Commit.{
  Whole, Whole-kept, Clear, Listed, Ready, Uncommitted, Whole-Same,
}
use pod_snapshotter.Artifact.Publish.Expand.{commit, Contribute}
use pod_snapshotter.Api.Common.{Message}

All-insert_file :
    (P : ManifestFile → Type 0) (f : ManifestFile) (files : List ManifestFile)
    → P f
    → All P files
    → All P (insert_file f files)
unfolding insert_file
All-insert_file P f [] p h = (p, tt)
All-insert_file P f (g ∷ files) p h =
    if_split (All P) (less g.path f.path) _ _ (λ _. (h.0, All-insert_file P f files p h.1))
      (λ _. (p, h))

pub All-sort_files :
    (P : ManifestFile → Type 0) (files : List ManifestFile) → All P files → All P (sort_files files)
unfolding sort_files
All-sort_files P [] h = tt
All-sort_files P (f ∷ files) h =
    All-insert_file P f (sort_files files) h.0 (All-sort_files P files h.1)

-- The MANIFEST is a whole one, or as much of it as a rename has copied, and every file that it lists is
-- on the disk.
pub Committed : (Bytes → Bytes) → (Manifest → Bytes) → Bytes → Files → Type 0
Committed sha encode dst fs =
    (m : Manifest) × Copied (some (encode m)) (fs (manifest_path dst)) × Whole sha dst m.files fs

-- The states that a reader may meet: the artifact as it was, none, or one whose files are whole.
abbrev pub Readable : (Bytes → Bytes) → (Manifest → Bytes) → Bytes → Files → Files → Type 0
Readable sha encode dst before fs =
    Same before fs ⊎ (Uncommitted sha dst fs ⊎ Committed sha encode dst fs)

abbrev pub Returned :
    (Bytes → Bytes) → (Manifest → Bytes) → Bytes → Result Message Manifest → Files → Type 0
Returned sha encode dst =
    Success (λ m fs. (fs (manifest_path dst) ≡ some (encode m)) × Whole sha dst m.files fs)

after-Along {ℓ κ} :
    {A : Type ℓ} {B : Type κ} (I : Files → Type 0) (P : A → Files → Type 0)
    (H : Result Message B → Files → Type 0) (f : A → Action B) (r : Result Message A) (fs : Files)
    → ((m : Message) → H (err m) fs)
    → I fs
    → Success P r fs
    → ((a : A) → P a fs → Along I H (f a) fs)
    → Along I H (or_else r (λ m. ret (err m)) f) fs
after-Along I P H f (ok a) fs fails i g n = n a g
after-Along I P H f (err m) fs fails i g n = (i, fails m)

-- `p`, and then `f` of its result.
pub and_then-Along {ℓ κ} :
    {A : Type ℓ} {B : Type κ} (I : Files → Type 0) (P : A → Files → Type 0)
    (H : Result Message B → Files → Type 0) (p : Action A) (f : A → Action B) (fs : Files)
    → ((m : Message) (after : Files) → H (err m) after)
    → Along I (Success P) p fs
    → ((a : A) (after : Files) → I after → P a after → Along I H (f a) after)
    → Along I H (and_then p f) fs
and_then-Along I P H p f fs fails h n =
    Along-bind I (Success P) H p _ fs h
      (λ r after i g. after-Along I P H f r after (λ m. fails m after) i g (λ a. n a after i))

module _ (sha : Bytes → Bytes) (encode : Manifest → Bytes) (dst : Bytes) where
  readable :
      (before : Files) (m : Manifest) (fs : Files)
      → Whole sha dst m.files fs
        × ((fs (manifest_path dst) ≡ none) ⊎ Copied (some (encode m)) (fs (manifest_path dst)))
      → Readable sha encode dst before fs
  unfolding Committed
  readable before m fs (h, inl n) = inr (inl n)
  readable before m fs (h, inr s) = inr (inr (m, s, h))

  module _ (m : Manifest) (clear : Clear dst (manifest_path dst) m.files)
      (clear_part : Clear dst (part_of (manifest_path dst)) m.files) (before : Files) where
    pub returns :
        (r : Result Message (Unit {0})) (after : Files)
        → Readable sha encode dst before after
        → Whole sha dst m.files after
          × Success (λ _ x. x (manifest_path dst) ≡ some (encode m)) r after
        → Along
            (Readable sha encode dst before)
            (Returned sha encode dst)
            (or_else r (λ e. ret (err e)) (λ _. ret (ok m)))
            after
    returns (ok u) after i g = (i, (g.1, g.0))
    returns (err e) after i g = (i, tt)

    pub manifest-Along :
        (fs : Files)
        → fs (manifest_path dst) ≡ none
        → Whole sha dst m.files fs
        → Along
            (Readable sha encode dst before)
            (Returned sha encode dst)
            (and_then (write_manifest_dir encode dst m) (λ _. ret (ok m)))
            fs
    manifest-Along fs n h =
        Along-bind (Readable sha encode dst before)
          (λ r after.
            Whole sha dst m.files after
            × Success (λ _ x. x (manifest_path dst) ≡ some (encode m)) r after)
          (Returned sha encode dst) (write_manifest_dir encode dst m) _ fs
          (Along-map _ _ _ _ _ fs (readable before m) (λ r after i g. (i.0, g))
            (write_manifest_dir-Along (Whole sha dst m.files) dst
              (λ x after q.
                Whole-kept sha dst m.files (manifest_path dst) _ x after q clear clear_part)
              encode m fs h n))
          returns

  pub commit-Along :
      (before : Files) (source : Bytes) (quiesce : Option QuiesceInfo) (files : List ManifestFile)
      (fs : Files)
      → Ready sha dst files fs
      → Along
          (Readable sha encode dst before)
          (Returned sha encode dst)
          (commit encode dst source quiesce files)
          fs
  unfolding commit new_manifest
  commit-Along before source quiesce files fs h = (
    inr (inl h.0),
    λ t a e.
        manifest-Along (new_manifest t files source quiesce) (All-sort_files _ files h.2)
          (All-sort_files _ files h.3) before a (e (manifest_path dst) ∙ h.0)
          (All-sort_files _ files (Whole-Same sha dst files fs a e h.1)),
  )

module _ (sha : Bytes → Bytes) (encode : Manifest → Bytes) (dst out : Bytes) where
  -- What `contribute` adds is on the disk, where nothing is listed at `out` yet, and it leaves the listed
  -- files and the MANIFEST alone.
  abbrev pub Contributes : Contribute → Type 0
  Contributes none = Unit
  Contributes (some f) =
      (files : List ManifestFile) (fs : Files)
      → Listed sha dst out files fs
      → Along (Uncommitted sha dst) (Success (λ extra. Ready sha dst (files ++ extra))) (f dst) fs

  fails : (m : Message) (after : Files) → Returned sha encode dst (err m) after
  fails m after = tt
