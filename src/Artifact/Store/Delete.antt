-- ===== src/Artifact/Store/Delete.antt =====
-- A directory artifact is un-committed before any of its files goes.
use pod_snapshotter.Base.{
  ◌≡◌, Bool, Option, none, List, [], ◌∷◌, arith, if◌then◌else◌, ◌⊎◌, inl, inr, ap, refl, ◌∙◌, subst,
  sym,
}
use pod_snapshotter.Base.Bytes.{Bytes, eqb, eqb_iff}
use pod_snapshotter.Base.Result.{ok, is_err}
use pod_snapshotter.Artifact.Uri.{Uri, scheme_file, fuse_path}
use pod_snapshotter.Artifact.Uri
use pod_snapshotter.Artifact.Manifest.{Manifest, ManifestFile}
use pod_snapshotter.Artifact.Store.{
  Access, Objects, delete_object, delete_files, Result, delete, manifest, stat, StoreError,
  delete_committed, read, true, and_then, commit_path, err, delete_next, UriError,
}

-- The object that a URI names.
abbrev pub object : Objects → Uri → Option Bytes
object s u = if eqb u.scheme scheme_file then s.file u.path else s.fuse (fuse_path u)

pub and_then_inv {ℓ} :
    (P : Objects → Type ℓ) (r : Result StoreError (Unit {0}) × Objects)
    (f : Objects → Result StoreError (Unit {0}) × Objects)
    → P r.1
    → ((s : Objects) → P s → P (f s).1)
    → P (and_then r f).1
and_then_inv P (ok x, s) f h k = k s h
and_then_inv P (err e, s) f h k = h

pub and_then-cases :
    (r : Result StoreError (Unit {0}) × Objects)
    (f : Objects → Result StoreError (Unit {0}) × Objects)
    → ((is_err r.0 ≡ true) × (and_then r f ≡ r)) ⊎ ((r.0 ≡ ok tt) × (and_then r f ≡ f r.1))
and_then-cases (ok x, s) f = inr (refl, refl)
and_then-cases (err e, s) f = inl (refl, refl)

module _ (fault : Access → Bytes → Bytes → Bool) (json : Bytes → Option Manifest) where
  -- Deleting brings no object back.
  pub absent-delete_object :
      (s : Objects) (v w : Uri)
      → object s w ≡ none
      → object (delete_object fault json s v).1 w ≡ none
  unfolding delete_object
  absent-delete_object s v w h = ground arith

  delete_next_inv {ℓ} :
      (P : Objects → Type ℓ) (u : Uri) (rel : Bytes)
      → ((s : Objects) (rel : Bytes) (v : Uri)
          → Uri.join u rel ≡ ok v
          → P s
          → P (delete_object fault json s v).1)
      → (rest : Objects → Result StoreError (Unit {0}) × Objects)
      → ((s : Objects) → P s → P (rest s).1)
      → (s : Objects) (r : Result UriError Uri) → Uri.join u rel ≡ r
      → P s
      → P (delete_next fault json rest s r).1
  unfolding delete_next
  delete_next_inv P u rel keep rest k s (err e) q h = k s h
  delete_next_inv P u rel keep rest k s (ok v) q h =
      and_then_inv P (delete_object fault json s v) rest (keep s rel v q h) k

  -- What every single deletion of a joined file keeps, the loop keeps, wherever it ends.
  pub delete_files_inv {ℓ} :
      (P : Objects → Type ℓ) (u : Uri)
      → ((s : Objects) (rel : Bytes) (v : Uri)
          → Uri.join u rel ≡ ok v
          → P s
          → P (delete_object fault json s v).1)
      → (s : Objects) (files : List ManifestFile) → P s
      → P (delete_files fault json s u files).1
  unfolding delete_files
  delete_files_inv P u keep s [] h = h
  delete_files_inv P u keep s (f ∷ files) h =
      delete_next_inv P u f.path keep (λ t. delete_files fault json t u files)
        (λ t. delete_files_inv P u keep t files) s (Uri.join u f.path) refl h

  -- After a deletion that succeeds the object is not there.
  pub object-delete_object :
      (s : Objects) (w : Uri)
      → (delete_object fault json s w).0 ≡ ok tt
      → object (delete_object fault json s w).1 w ≡ none
  unfolding delete_object
  object-delete_object s w h =
      ground (arith, eqb_iff w.path w.path, eqb_iff (fuse_path w) (fuse_path w))

  -- A deletion that fails changes nothing.
  failed-delete_object :
      (s : Objects) (w : Uri)
      → is_err (delete_object fault json s w).0 ≡ true
      → (delete_object fault json s w).1 ≡ s
  unfolding delete_object
  failed-delete_object s w = ground arith

  no_manifest :
      (s : Objects) (u : Uri)
      → object s (commit_path u) ≡ none
      → is_err (manifest fault json s u) ≡ true
  unfolding manifest read
  no_manifest s u h = ground arith

  no_stat :
      (s : Objects) (u : Uri)
      → u.dir ≡ true
      → object s (commit_path u) ≡ none
      → is_err (stat fault json s u) ≡ true
  unfolding stat
  no_stat s u d h = ground (arith, no_manifest s u h)

  pub delete-committed :
      (s : Objects) (u : Uri) (m : Manifest)
      → u.dir ≡ true
      → manifest fault json s u ≡ ok m
      → delete fault json s u
        ≡ and_then
            (delete_object fault json s (commit_path u))
            (λ t. delete_files fault json t u m.files)
  unfolding delete delete_committed
  delete-committed s u m d h = simp (d, h)

  -- Wherever the deletion of a directory ends whose MANIFEST can be read, with success or with an
  -- error at any of its objects, either it has reported an error and nothing has changed at all, or
  -- Stat refuses the artifact. Reads and deletions of an object may fail apart from each other.
  pub delete-all_or_uncommitted :
      (s : Objects) (u : Uri) (m : Manifest)
      → u.dir ≡ true
      → manifest fault json s u ≡ ok m
      → ((is_err (delete fault json s u).0 ≡ true) × ((delete fault json s u).1 ≡ s))
        ⊎ (is_err (stat fault json (delete fault json s u).1 u) ≡ true)
  delete-all_or_uncommitted s u m d h =
      let r = delete_object fault json s (commit_path u) in
      let rest = λ (t : Objects). delete_files fault json t u m.files in
      elim (and_then-cases r rest) [
        | inl (failed, e) ↦
            let same = delete-committed s u m d h ∙ e in
            inl (
              ap (λ q. is_err q.0) same ∙ failed,
              ap (λ q. q.1) same ∙ failed-delete_object s (commit_path u) failed,
            )
        | inr (done, e) ↦ inr (
            no_stat (delete fault json s u).1 u d (
              subst (λ q. object q.1 (commit_path u) ≡ none) (sym (delete-committed s u m d h ∙ e))
                (delete_files_inv (λ t. object t (commit_path u) ≡ none) u
                  (λ t rel v joined gone. absent-delete_object t v (commit_path u) gone) r.1 m.files
                  (object-delete_object s (commit_path u) done))))
      ]
