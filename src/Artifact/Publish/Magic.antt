-- ===== src/Artifact/Publish/Magic.antt =====
-- What verifyImageMagic has seen when it succeeds.
use pod_snapshotter.Go.Path.{base}
use pod_snapshotter.Base.{
  false, ◌≢◌, ◌≤◌, Bool-cases, inl, inr, ◌≡◌, refl, ◌∙◌, sym, true, some, List, [], ◌∷◌, All, take,
  arith, if_split, not,
}
use pod_snapshotter.Base.Bytes.{Bytes, eqb_iff, eqb, codes, has_prefix, has_suffix}
use pod_snapshotter.Base.Result.{Result, ok, err}
use pod_snapshotter.Api.Common.{Message}
use pod_snapshotter.Os.Files.{Files, Same, Along, Along-or_else, Along-map}
use pod_snapshotter.Artifact.Manifest.{ManifestFile}
use pod_snapshotter.Artifact.Publish.Writes.{Success}
use pod_snapshotter.Artifact.Publish.Commit.{place}
use pod_snapshotter.Artifact.Publish.Dir.{
  has_magic, check_magic, criu_image_magic, verify_image_magic,
}
use pod_snapshotter.Artifact.Publish.{Action}

-- An image of CRIU's metadata: named .img, but neither a page image, nor a compressed tar, nor the
-- inventory, and not shorter than the magic.
abbrev pub IsMetadataImage : ManifestFile → Type 0
IsMetadataImage f =
    (has_suffix (base f.path) (codes ".img") ≡ true)
    × (has_prefix (base f.path) (codes "pages-") ≡ false)
    × (has_suffix (base f.path) (codes ".tar.gz.img") ≡ false)
    × (base f.path ≢ codes "inventory.img")
    × (4 ≤ f.size)

has_magic-IsMetadataImage : (f : ManifestFile) → IsMetadataImage f → has_magic f ≡ true
unfolding has_magic
has_magic-IsMetadataImage f (a, b, c, d, e) =
    elim (Bool-cases (eqb (base f.path) (codes "inventory.img"))) [
      | inl h ↦ absurd (d ((eqb_iff _ _).0 h))
      | inr h ↦ rw (a, b, c, h) (ground (arith, e))
    ]

-- A metadata image starts with the four bytes that CRIU writes.
abbrev pub Magic : Bytes → Files → ManifestFile → Type 0
Magic dir fs f =
    IsMetadataImage f
    → (body : Bytes) × (fs (place dir f) ≡ some body) × (take 4 body ≡ criu_image_magic)

check_magic-ok :
    (f : ManifestFile) (body : Bytes) → check_magic f body ≡ ok tt → take 4 body ≡ criu_image_magic
unfolding check_magic
check_magic-ok f body h = ground (arith, eqb_iff (take 4 body) criu_image_magic)

module _ (dir : Bytes) (before : Files) where
  abbrev Seen : List ManifestFile → Result Message (Unit {0}) → Files → Type 0
  Seen files = Success (λ _ _. All (Magic dir before) files)

  with_first :
      (f : ManifestFile) (files : List ManifestFile) (r : Result Message (Unit {0})) (fs : Files)
      → Magic dir before f
      → Seen files r fs
      → Seen (f ∷ files) r fs
  with_first f files (ok u) fs m h = (m, h)
  with_first f files (err e) fs m h = tt

  more :
      (f : ManifestFile) (files : List ManifestFile) (fs : Files)
      → Magic dir before f
      → Along (Same before) (Seen files) (verify_image_magic dir files) fs
      → Along (Same before) (Seen (f ∷ files)) (verify_image_magic dir files) fs
  more f files fs m =
      Along-map (Same before) (Same before) (Seen files) (Seen (f ∷ files)) _ fs (λ after i. i)
        (λ r after i h. with_first f files r after m h)

  verified :
      (files : List ManifestFile) (fs : Files)
      → Same before fs
      → Along (Same before) (Seen files) (verify_image_magic dir files) fs
  unfolding verify_image_magic
  verified [] fs s = (s, tt)
  verified (f ∷ files) fs s =
      if_split (λ (p : Action (Unit {0})). Along (Same before) (Seen (f ∷ files)) p fs)
        (not (has_magic f)) _ _
        (λ t.
          more f files fs (λ h. absurd (cc (rw (has_magic-IsMetadataImage f h) at t)))
            (verified files fs s))
        (λ _. (
          s,
          λ r a e.
              (let t = λ (q : Bytes). e.0 q ∙ s q in
                Along-or_else (Same before) (Seen (f ∷ files)) r _ _ a (λ x _. (t, tt))
                  (λ body o.
                    Along-or_else (Same before) (Seen (f ∷ files)) (check_magic f body) _ _ a
                      (λ x _. (t, tt))
                      (λ u k.
                        more f files a
                          (λ _. (body, sym (s _) ∙ e.1 body o, check_magic-ok f body k))
                          (verified files a t)))),
        ))

  -- The verification of the images leaves the files as they are, and one that succeeds has found
  -- on the disk, with CRIU's magic at its start, every listed file of at least four bytes that is named
  -- .img and is neither a page image (pages-), nor a compressed tar (.tar.gz.img), nor the inventory.
  pub verify_image_magic-Along :
      (files : List ManifestFile)
      → Along
          (Same before)
          (Success (λ _ _. All (Magic dir before) files))
          (verify_image_magic dir files)
          before
  verify_image_magic-Along files = verified files before (λ q. refl)
