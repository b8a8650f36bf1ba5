-- ===== src/Artifact/Store/Scope.antt =====
-- What a deletion of a directory artifact removes, and what it leaves alone.
use pod_snapshotter.Base.{
  ◌≡◌, refl, sym, ap, ◌∙◌, ◌≢◌, inl, inr, Bool, true, false, Option, none, List, [], ◌∷◌, ◌++◌,
  arith, All, append_assoc, subst,
}
use pod_snapshotter.Base.Bytes.{Bytes, codes, eqb_iff, has_prefix}
use pod_snapshotter.Base.Result.{Result, ok, err, is_err}
use pod_snapshotter.Go.Path.{slash}
use pod_snapshotter.Go.Path.Parts.{IsAbs, abs}
use pod_snapshotter.Artifact.Uri.{Uri, UriError, fuse_path, commit_path, manifest_name}
use pod_snapshotter.Artifact.Uri
use pod_snapshotter.Artifact.Uri.Places.{join-below}
use pod_snapshotter.Artifact.Uri.Confine.{has_prefix_self}
use pod_snapshotter.Artifact.Manifest.{Manifest, ManifestFile}
use pod_snapshotter.Artifact.Store.{
  Access, Objects, and_then, manifest, delete_object, delete_next, delete_files, delete,
}
use pod_snapshotter.Artifact.Store.Delete.{
  object, delete_files_inv, absent-delete_object, object-delete_object, delete-committed,
  and_then_inv, and_then-cases,
}

-- A path that goes on from a prefix with a slash is told from a key outside the prefix.
outside-ne : (key p t : Bytes) → has_prefix key (p ++ slash ∷ []) ≡ false → key ≢ p ++ slash ∷ t
outside-ne key p t h e = cc (
  h,
  ap (λ k. has_prefix k (p ++ slash ∷ [])) (e ∙ sym (append_assoc p (slash ∷ []) t)),
  has_prefix_self (p ++ slash ∷ []) t,
)

abs_slash : (t : Bytes) → IsAbs t → (r : Bytes) × (t ≡ slash ∷ r)
abs_slash t a = first a.parts a.some_part a.shape
  where
    first : (l : List Bytes) → l ≢ [] → t ≡ abs l → (r : Bytes) × (t ≡ slash ∷ r)
    first [] n e = absurd (n refl)
    first (s ∷ l) n e = (s ++ abs l, e)

module _ (fault : Access → Bytes → Bytes → Bool) (json : Bytes → Option Manifest) where
  file-delete_object :
      (s : Objects) (v : Uri) (key : Bytes)
      → key ≢ v.path
      → (delete_object fault json s v).1.file key ≡ s.file key
  unfolding delete_object
  file-delete_object s v key n = ground (arith, eqb_iff key v.path)

  joined-ne :
      (u v : Uri) (rel key : Bytes)
      → has_prefix key (u.path ++ slash ∷ []) ≡ false
      → Uri.join u rel ≡ ok v
      → key ≢ v.path
  joined-ne u v rel key h j e =
      let (t, a, q) = (join-below u rel v j).3 in
      let (r, w) = abs_slash t a in outside-ne key u.path r h (e ∙ q ∙ ap (λ x. u.path ++ x) w)

  commit-ne :
      (u : Uri) (key : Bytes)
      → u.dir ≡ true
      → has_prefix key (u.path ++ slash ∷ []) ≡ false
      → key ≢ (commit_path u).path
  unfolding commit_path
  commit-ne u key d h = simp d (outside-ne key u.path manifest_name h)

  -- Deleting a committed directory artifact leaves every file on the disk outside the artifact's
  -- prefix as it was, whatever the manifest lists and wherever the deletion ends.
  pub delete-outside :
      (s : Objects) (u : Uri) (m : Manifest) (key : Bytes)
      → u.dir ≡ true
      → manifest fault json s u ≡ ok m
      → has_prefix key (u.path ++ codes "/") ≡ false
      → (delete fault json s u).1.file key ≡ s.file key
  delete-outside s u m key d h out =
      ap (λ r. r.1.file key) (delete-committed fault json s u m d h)
      ∙ and_then_inv (λ t. t.file key ≡ s.file key) (delete_object fault json s (commit_path u))
          (λ t. delete_files fault json t u m.files)
          (file-delete_object s (commit_path u) key (commit-ne u key d out))
          (λ t e.
            delete_files_inv fault json (λ t. t.file key ≡ s.file key) u
              (λ t rel v j q. file-delete_object t v key (joined-ne u v rel key out j) ∙ q) t
              m.files e)

  deleted-gone :
      (u v : Uri) (files : List ManifestFile) (s : Objects)
      → (and_then (delete_object fault json s v) (λ t. delete_files fault json t u files)).0 ≡ ok tt
      → object
          (and_then (delete_object fault json s v) (λ t. delete_files fault json t u files)).1
          v
        ≡ none
  deleted-gone u v files s h =
      let rest = λ (t : Objects). delete_files fault json t u files in
      elim (and_then-cases (delete_object fault json s v) rest) [
        | inl (failed, e) ↦ absurd (cc (failed, ap (λ r. is_err r.0) e, ap is_err h))
        | inr (done, e) ↦
            subst (λ r. object r.1 v ≡ none) (sym e)
              (delete_files_inv fault json (λ t. object t v ≡ none) u
                (λ t rel w j gone. absent-delete_object fault json t w v gone)
                (delete_object fault json s v).1 files (object-delete_object fault json s v done))
      ]

  -- The object at a joined path is not there.
  abbrev pub Removed : Objects → Result UriError Uri → Type 0
  Removed s (ok v) = object s v ≡ none
  Removed s (err e) = Unit

  abbrev Gone : Objects → Uri → ManifestFile → Type 0
  Gone s u f = Removed s (Uri.join u f.path)

  delete_next-Gone :
      (u : Uri) (f : ManifestFile) (files : List ManifestFile) (s : Objects)
      (r : Result UriError Uri)
      → Uri.join u f.path ≡ r
      → (delete_next fault json (λ t. delete_files fault json t u files) s r).0 ≡ ok tt
      → Gone (delete_next fault json (λ t. delete_files fault json t u files) s r).1 u f
  unfolding delete_next
  delete_next-Gone u f files s (err e) j h = rw j tt
  delete_next-Gone u f files s (ok w) j h = rw j (deleted-gone u w files s h)

  rest_ok :
      (u : Uri) (files : List ManifestFile) (s : Objects) (r : Result UriError Uri)
      → (delete_next fault json (λ t. delete_files fault json t u files) s r).0 ≡ ok tt
      → (t : Objects) × ((delete_next fault json (λ t. delete_files fault json t u files) s r)
          ≡ delete_files fault json t u files)
  unfolding delete_next
  rest_ok u files s (err e) h = (s, refl)
  rest_ok u files s (ok v) h =
      elim (and_then-cases (delete_object fault json s v)
        (λ t. delete_files fault json t u files)) [
          | inl (failed, e) ↦ absurd (cc (failed, ap (λ r. is_err r.0) e, ap is_err h))
          | inr (done, e) ↦ ((delete_object fault json s v).1, e)
        ]

  delete_files-Gone :
      (s : Objects) (u : Uri) (files : List ManifestFile)
      → (delete_files fault json s u files).0 ≡ ok tt
      → All (Gone (delete_files fault json s u files).1 u) files
  unfolding delete_files
  delete_files-Gone s u [] h = tt
  delete_files-Gone s u (f ∷ files) h =
      let (t, e) = rest_ok u files s (Uri.join u f.path) h in
      (
        delete_next-Gone u f files s (Uri.join u f.path) refl h,
        subst (λ r. All (Gone r.1 u) files) (sym e)
            (delete_files-Gone t u files (sym (ap (λ r. r.0) e) ∙ h)),
      )

  -- A deletion of a directory whose MANIFEST can be read has, where it reports success, removed every
  -- object that the MANIFEST lists and whose path can be joined.
  pub delete-gone :
      (s : Objects) (u : Uri) (m : Manifest)
      → u.dir ≡ true
      → manifest fault json s u ≡ ok m
      → (delete fault json s u).0 ≡ ok tt
      → All (λ f. Removed (delete fault json s u).1 (Uri.join u f.path)) m.files
  delete-gone s u m d h done =
      let r = delete_object fault json s (commit_path u) in
      let e = delete-committed fault json s u m d h in
      elim (and_then-cases r (λ t. delete_files fault json t u m.files)) [
        | inl (failed, q) ↦ absurd (cc (failed, ap (λ r. is_err r.0) (e ∙ q), ap is_err done))
        | inr (_, q) ↦
            subst (λ r. All (Gone r.1 u) m.files) (sym (e ∙ q))
              (delete_files-Gone r.1 u m.files (sym (ap (λ r. r.0) (e ∙ q)) ∙ done))
      ]
