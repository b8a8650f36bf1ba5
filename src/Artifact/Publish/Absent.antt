-- ===== src/Artifact/Publish/Absent.antt =====
-- The steps of PublishDir before its commit: none of them brings a MANIFEST.
use pod_snapshotter.Base.{◌≡◌, ◌≢◌, ◌∙◌, sym, none, List, [], ◌∷◌, ◌++◌, All, Bool, if_split}
use pod_snapshotter.Base.Bytes.{Bytes}
use pod_snapshotter.Base.Result.{Result}
use pod_snapshotter.Go.Path.{join_path}
use pod_snapshotter.Api.Common.{Message}
use pod_snapshotter.Os.{Prog, WalkFile}
use pod_snapshotter.Os.Files.{Files, Along, Along-bind, Along-or_return, Along-or_else}
use pod_snapshotter.Artifact.Manifest.{valid_rel_path, ManifestFile}
use pod_snapshotter.Artifact.Publish.{
  Action, manifest_path, and_then, describe_file, describe_valid,
}
use pod_snapshotter.Artifact.Publish.Dir.{write_whole, write_metadata, list_file, list_files}

module _ (dir : Bytes) where
  abbrev pub NotYet : Files → Type 0
  NotYet fs = fs (manifest_path dir) ≡ none

  -- A program that leaves the MANIFEST absent.
  abbrev pub Still {ℓ} : {A : Type ℓ} → Prog A → Files → Type 0
  Still p fs = Along NotYet (λ _ _. Unit) p fs

  pub Still-then {ℓ κ} :
      {A : Type ℓ} {B : Type κ} (p : Action A) (f : A → Action B) (fs : Files)
      → Still p fs
      → ((a : A) (after : Files) → NotYet after → Still (f a) after)
      → Still (and_then p f) fs
  Still-then p f fs h n =
      Along-bind NotYet (λ _ _. Unit) (λ _ _. Unit) p _ fs h
        (λ r a i g. Along-or_else NotYet (λ _ _. Unit) r _ _ a (λ e _. (i, tt)) (λ b _. n b a i))

  write_whole-Still :
      (p body : Bytes) (fs : Files)
      → p ≢ manifest_path dir
      → NotYet fs
      → Still (write_whole p body) fs
  unfolding write_whole
  write_whole-Still p body fs apart h =
      let G = λ (r : Result Message (Unit {0})) (x : Files). Unit {0} in
      let other = λ (s : manifest_path dir ≡ p). apart (sym s) in
      (
        h,
        λ r a e.
            (let ha = e.0 (manifest_path dir) other ∙ h in
              Along-or_return NotYet G r _ _ a (λ x _. (ha, tt))
                (λ _. (
                  ha,
                  λ w b f.
                      (let hb = f.0 (manifest_path dir) other ∙ ha in
                        Along-or_return NotYet G w _ _ b
                          (λ x _. (hb, λ c d s. (s (manifest_path dir) ∙ hb, tt)))
                          (λ _. (
                            hb,
                            λ c d s.
                                (let hd = s (manifest_path dir) ∙ hb in
                                  Along-or_return NotYet G c _ _ d (λ x _. (hd, tt))
                                    (λ _. (hd, tt))),
                          ))),
                ))),
      )

  pub write_metadata-Still :
      (files : List (Bytes × Bytes)) (fs : Files)
      → All (λ f. join_path (dir ∷ f.0 ∷ []) ≢ manifest_path dir) files
      → NotYet fs
      → Still (write_metadata dir files) fs
  unfolding write_metadata
  write_metadata-Still [] fs apart h = (h, tt)
  write_metadata-Still (f ∷ files) fs apart h =
      Along-bind NotYet (λ _ _. Unit) (λ _ _. Unit) _ _ fs
        (write_whole-Still (join_path (dir ∷ f.0 ∷ [])) f.1 fs apart.0 h)
        (λ r a i g.
          Along-or_else NotYet (λ _ _. Unit) r _ _ a (λ e _. (i, tt))
            (λ _ _. write_metadata-Still files a apart.1 i))

  describe_valid-Still :
      (sha : Bytes → Bytes) (rel : Bytes) (fs : Files)
      → NotYet fs
      → Still (describe_valid sha dir rel) fs
  unfolding describe_valid
  describe_valid-Still sha rel fs h =
      let G = λ (r : Result Message ManifestFile) (x : Files). Unit {0} in
      (
        h,
        λ r a e.
            (let ha = e.0 (manifest_path dir) ∙ h in
              Along-or_else NotYet G r _ _ a (λ x _. (ha, tt))
                (λ info _. (
                  ha,
                  λ r2 b f.
                      (let hb = f.0 (manifest_path dir) ∙ ha in
                        Along-or_else NotYet G r2 _ _ b (λ x _. (hb, tt)) (λ body _. (hb, tt))),
                ))),
      )

  pub describe_file-Still :
      (sha : Bytes → Bytes) (rel : Bytes) (fs : Files)
      → NotYet fs
      → Still (describe_file sha dir rel) fs
  unfolding describe_file
  describe_file-Still sha rel fs h =
      Along-or_else NotYet (λ _ _. Unit) (valid_rel_path rel) _ _ fs (λ e _. (h, tt))
        (λ _ _. describe_valid-Still sha rel fs h)

  list_file-Still :
      (sha : Bytes → Bytes) (digest : Bool) (w : WalkFile) (fs : Files)
      → NotYet fs
      → Still (list_file sha digest dir w) fs
  unfolding list_file
  list_file-Still sha digest w fs h =
      if_split (λ (p : Action ManifestFile). Still p fs) digest _ _
        (λ _.
          Along-bind NotYet (λ _ _. Unit) (λ _ _. Unit) _ _ fs (describe_file-Still sha w.rel fs h)
            (λ r a i g.
              Along-or_else NotYet (λ _ _. Unit) r _ _ a (λ e _. (i, tt)) (λ b _. (i, tt))))
        (λ _. (h, tt))

  pub list_files-Still :
      (sha : Bytes → Bytes) (digest : Bool) (described : List ManifestFile) (found : List WalkFile)
      (files : List ManifestFile) (fs : Files)
      → NotYet fs
      → Still (list_files sha digest dir described found files) fs
  unfolding list_files
  list_files-Still sha digest described [] files fs h = (h, tt)
  list_files-Still sha digest described (w ∷ found) files fs h =
      if_split (λ (p : Action (List ManifestFile)). Still p fs) _ _ _
        (λ _. list_files-Still sha digest described found files fs h)
        (λ _.
          Still-then (list_file sha digest dir w) _ fs (list_file-Still sha digest w fs h)
            (λ f a i. list_files-Still sha digest described found (files ++ f ∷ []) a i))
