-- ===== src/Artifact/Publish/Checked.antt =====
-- What PublishDir commits, and when.
use pod_snapshotter.Base.{
  ◌≡◌, refl, ◌≢◌, ◌∙◌, ◌⊎◌, inl, inr, some, List, [], ◌∷◌, All, any, Bool, true, ◌||◌, arith,
}
use pod_snapshotter.Base.Bytes.{Bytes, codes, has_prefix}
use pod_snapshotter.Base.Result.{Result, ok, err}
use pod_snapshotter.Go.Path.{base}
use pod_snapshotter.Api.Common.{Message}
use pod_snapshotter.Os.{ret}
use pod_snapshotter.Os.Files.{Files, Same, Copied, Along, Along-bind, Along-map, Along-or_else}
use pod_snapshotter.Artifact.Manifest.{Manifest, ManifestFile, insert_file, sort_files}
use pod_snapshotter.Artifact.Publish.{Action, manifest_path, part_of, write_manifest_dir, and_then}
use pod_snapshotter.Artifact.Publish.Writes.{Success, write_manifest_dir-Along}
use pod_snapshotter.Artifact.Publish.Magic.{Magic}
use pod_snapshotter.Artifact.Publish.Atomic.{and_then-Along}
use pod_snapshotter.Artifact.Publish.Dir.{is_pages}
use pod_snapshotter.Artifact.Publish.Absent.{NotYet, Still}

-- A file of memory pages.
abbrev pub HasPages : List ManifestFile → Type 0
HasPages files = any (λ f. has_prefix (base f.path) (codes "pages-")) files ≡ true

any-insert_file :
    (p : ManifestFile → Bool) (f : ManifestFile) (files : List ManifestFile)
    → any p (insert_file f files) ≡ (p f || any p files)
unfolding insert_file
any-insert_file p f [] = refl
any-insert_file p f (g ∷ files) = ground (arith, any-insert_file p f files)

pub any-sort_files :
    (p : ManifestFile → Bool) (files : List ManifestFile) → any p (sort_files files) ≡ any p files
unfolding sort_files
any-sort_files p [] = refl
any-sort_files p (f ∷ files) =
    any-insert_file p f (sort_files files) ∙ ground (arith, any-sort_files p files)

pub is_pages-HasPages : (files : List ManifestFile) → any is_pages files ≡ true → HasPages files
unfolding is_pages
is_pages-HasPages [] h = absurd (cc h)
is_pages-HasPages (f ∷ files) h = ground (arith, is_pages-HasPages files)

module _ (encode : Manifest → Bytes) (dir : Bytes) where
  -- Nothing but the MANIFEST and its temporary file is other than in `at`.
  abbrev pub Beside : Files → Files → Type 0
  Beside at fs = (q : Bytes) → q ≢ manifest_path dir → q ≢ part_of (manifest_path dir) → fs q ≡ at q

  -- What is committed: a MANIFEST that lists pages, whose metadata images were on the disk with CRIU's
  -- magic, and since then nothing else has been changed.
  abbrev pub Checked : Manifest → Files → Type 0
  Checked m fs = (at : Files) × Beside at fs × All (Magic dir at) m.files × HasPages m.files

  abbrev pub Observed : Files → Files → Type 0
  Observed before fs =
      Same before fs
      ⊎ (NotYet dir fs
          ⊎ ((m : Manifest) × Copied (some (encode m)) (fs (manifest_path dir)) × Checked m fs))

  abbrev pub Published : Result Message Manifest → Files → Type 0
  Published = Success (λ m fs. (fs (manifest_path dir) ≡ some (encode m)) × Checked m fs)

  pub not_yet : (before fs : Files) → NotYet dir fs → Observed before fs
  not_yet before fs n = inr (inl n)

  Beside-keeps :
      (at fs after : Files)
      → ((q : Bytes) → q ≢ manifest_path dir → q ≢ part_of (manifest_path dir) → after q ≡ fs q)
      → Beside at fs
      → Beside at after
  Beside-keeps at fs after e h q n o = e q n o ∙ h q n o

  module _ (before at : Files) (m : Manifest) (magic : All (Magic dir at) m.files)
      (pages : HasPages m.files) where
    staged :
        (fs : Files)
        → Beside at fs × (NotYet dir fs ⊎ Copied (some (encode m)) (fs (manifest_path dir)))
        → Observed before fs
    staged fs (b, inl n) = inr (inl n)
    staged fs (b, inr c) = inr (inr (m, c, (at, b, magic, pages)))

    marked :
        (r : Result Message (Unit {0})) (fs : Files)
        → Beside at fs
        → Success (λ _ x. x (manifest_path dir) ≡ some (encode m)) r fs
        → Success (λ _ x. (x (manifest_path dir) ≡ some (encode m)) × Checked m x) r fs
    marked (ok u) fs b h = (h, (at, b, magic, pages))
    marked (err e) fs b h = tt

    pub marker-Along :
        (fs : Files)
        → Beside at fs
        → NotYet dir fs
        → Along
            (Observed before)
            Published
            (and_then (write_manifest_dir encode dir m) (λ _. ret (ok m)))
            fs
    marker-Along fs b n =
        and_then-Along (Observed before)
          (λ _ x. (x (manifest_path dir) ≡ some (encode m)) × Checked m x) Published
          (write_manifest_dir encode dir m) _ fs (λ e after. tt)
          (Along-map _ _ _ _ _ fs staged (λ r after i g. marked r after i.0 g)
            (write_manifest_dir-Along (Beside at) dir (Beside-keeps at) encode m fs b n))
          (λ u after i g. (i, g))

  -- Such a program, and then the rest.
  pub Still-Along {ℓ} :
      {A : Type ℓ} (before : Files) (p : Action A) (f : A → Action Manifest) (fs : Files)
      → Still dir p fs
      → ((a : A) (after : Files) → NotYet dir after → Along (Observed before) Published (f a) after)
      → Along (Observed before) Published (and_then p f) fs
  Still-Along before p f fs h n =
      Along-bind (Observed before) (λ _ x. NotYet dir x) Published p _ fs
        (Along-map (NotYet dir) (Observed before) (λ _ _. Unit) (λ _ x. NotYet dir x) p fs
          (not_yet before) (λ r after i g. i) h)
        (λ r a i g.
          Along-or_else (Observed before) Published r _ _ a (λ e _. (i, tt)) (λ b _. n b a g))
