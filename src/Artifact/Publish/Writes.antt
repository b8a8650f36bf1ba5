-- ===== src/Artifact/Publish/Writes.antt =====
-- What a file that is published does to the files: until it is whole, only its own path changes.
use pod_snapshotter.Base.{
  ℕ, ◌+◌, ◌≡◌, refl, sym, ap, ◌∙◌, ◌≢◌, ◌⊎◌, inl, inr, none, some, [], ◌∷◌, ◌++◌, length, arith,
  Option, append-nil,
}
use pod_snapshotter.Base.Bytes.{Bytes, codes}
use pod_snapshotter.Base.Result.{Result, ok, err}
use pod_snapshotter.Os.{OsError, unless_missing}
use pod_snapshotter.Os.Files.{
  Files, Same, Only, Along, Along-or_return, Removed-gone, Renamed, Copied,
}
use pod_snapshotter.Api.Common.{Message}
use pod_snapshotter.Artifact.Publish.{
  fill_file, write_file, close_fail, part_of, rename_publish, fill_manifest, close_remove,
  manifest_path, only_remove, write_manifest_dir, remove_source, or_fail,
}
use pod_snapshotter.Artifact.Manifest.{Manifest}

-- What holds where an action succeeds.
abbrev pub Success {ℓ} : {A : Type ℓ} → (A → Files → Type 0) → Result Message A → Files → Type 0
Success P (ok a) fs = P a fs
Success P (err e) fs = Unit

-- The file is what was to be written, and the digest and the size are its own.
abbrev pub Written : (Bytes → Bytes) → Bytes → Bytes → Bytes × ℕ → Files → Type 0
Written sha q body r fs = (fs q ≡ some body) × (r.0 ≡ sha body) × (r.1 ≡ length body)

module _ (J : Files → Type 0) (q : Bytes)
    (stable : (fs after : Files) → Only q fs after → J fs → J after) where
  pub same-stable : (fs after : Files) → Same fs after → J fs → J after
  same-stable fs after e h = stable fs after (λ p _. e p) h

  close_fail-Along {ℓ} :
      {A : Type ℓ} (P : A → Files → Type 0) (dst : Bytes) (e : OsError) (fs : Files)
      → J fs
      → Along J (Success P) (close_fail dst e) fs
  close_fail-Along P dst e fs h = (h, λ r after s. (same-stable fs after s h, tt))

  fill_file-Along :
      (sha : Bytes → Bytes) (body : Bytes) (fs : Files)
      → J fs
      → fs q ≡ some []
      → Along J (Success (Written sha q body)) (fill_file sha q body) fs
  unfolding fill_file
  fill_file-Along sha body fs h empty =
      let H = Success (Written sha q body) in
      (
        h,
        λ r a e.
            (let ha = stable fs a e.0 h in
              Along-or_return J H r _ _ a (λ x _. close_fail-Along (Written sha q body) q x a ha)
                (λ w. (
                  ha,
                  λ r2 b s.
                      (let hb = same-stable a b s ha in
                        Along-or_return J H r2 _ _ b
                          (λ x _. close_fail-Along (Written sha q body) q x b hb)
                          (λ _. (
                            hb,
                            λ r3 c t.
                                (let hc = same-stable b c t hb in
                                  Along-or_return J H r3 _ _ c
                                    (λ x _. close_fail-Along (Written sha q body) q x c hc)
                                    (λ _. (hc, (t q ∙ (s q ∙ e.1 w empty), refl, refl)))),
                          ))),
                ))),
      )

  -- Whatever survives changes of the file at `q` holds at every point of writing that file; and a
  -- write that succeeds leaves the whole file there.
  pub write_file-Along :
      (sha : Bytes → Bytes) (body : Bytes) (fs : Files)
      → J fs
      → Along J (Success (Written sha q body)) (write_file sha q body) fs
  unfolding write_file
  write_file-Along sha body fs h =
      let H = Success (Written sha q body) in
      (
        h,
        λ r a e.
            (let ha = same-stable fs a e h in
              Along-or_return J H r _ _ a (λ x _. (ha, tt))
                (λ _. (
                  ha,
                  λ r2 b s.
                      (let hb = stable a b s.0 ha in
                        Along-or_return J H (unless_missing r2) _ _ b (λ x _. (hb, tt))
                          (λ m. (
                            hb,
                            λ r3 c t.
                                (let hc = stable b c t.0 hb in
                                  Along-or_return J H r3 _ _ c (λ x _. (hc, tt))
                                    (λ w.
                                      fill_file-Along sha body c hc
                                        (t.1 w (Removed-gone q a r2 b m s.1)))),
                          ))),
                ))),
      )

module _ (K : Files → Type 0) (mp tmp body : Bytes) (apart : tmp ≢ mp)
    (keeps : (fs after : Files)
      → ((q : Bytes) → q ≢ mp → q ≢ tmp → after q ≡ fs q)
      → K fs
      → K after) where
  -- Nothing is committed yet, or the new commit marker is in place, or a beginning of it.
  abbrev pub Staged : Files → Type 0
  Staged fs = K fs × ((fs mp ≡ none) ⊎ Copied (some body) (fs mp))

  abbrev Open : Files → Type 0
  Open fs = K fs × (fs mp ≡ none)

  abbrev Done : Files → Type 0
  Done fs = K fs × (fs mp ≡ some body)

  opened : (fs : Files) → Open fs → Staged fs
  opened fs h = (h.0, inl h.1)

  committed : (fs : Files) → Done fs → Staged fs
  committed fs h = (h.0, inr (body, [], ap some (sym (append-nil body)), h.1))

  Open-stable : (fs after : Files) → Only tmp fs after → Open fs → Open after
  Open-stable fs after e h = (keeps fs after (λ q _ n. e q n) h.0, e mp (λ s. apart (sym s)) ∙ h.1)

  Done-stable : (fs after : Files) → Only tmp fs after → Done fs → Done after
  Done-stable fs after e h = (keeps fs after (λ q _ n. e q n) h.0, e mp (λ s. apart (sym s)) ∙ h.1)

  abbrev Published : Result Message (Unit {0}) → Files → Type 0
  Published = Success (λ _ fs. fs mp ≡ some body)

  remove_source-Along : (fs : Files) → Done fs → Along Staged Published (remove_source tmp mp) fs
  unfolding remove_source
  remove_source-Along fs h = (
    committed fs h,
    λ r a e.
        (let ha = Done-stable fs a e.0 h in
          Along-or_return Staged Published (unless_missing r) _ _ a (λ x _. (committed a ha, tt))
            (λ _. (committed a ha, ha.1))),
  )

  after_rename :
      (fs : Files) (r : Option OsError) (a : Files)
      → Open fs
      → fs tmp ≡ some body
      → Renamed tmp mp fs r a
      → Along Staged Published (or_fail r (remove_source tmp mp)) a
  after_rename fs (some x) a h full (only, inl same) =
      (opened a (keeps fs a (λ q n m. only q n) h.0, same ∙ h.1), tt)
  after_rename fs (some x) a h full (only, inr (part, rest, whole, found)) =
      ((keeps fs a (λ q n m. only q n) h.0, inr (part, rest, sym full ∙ whole, found)), tt)
  after_rename fs none a h full e =
      remove_source-Along a (keeps fs a (λ q n m. e.1 q m n) h.0, e.0 ∙ full)

  rename_publish-Along :
      (fs : Files)
      → Open fs
      → fs tmp ≡ some body
      → Along Staged Published (rename_publish tmp mp) fs
  unfolding rename_publish
  rename_publish-Along fs h full = (opened fs h, λ r a e. after_rename fs r a h full e)

  close_remove-Along :
      (e : OsError) (fs : Files) → Open fs → Along Staged Published (close_remove tmp e) fs
  close_remove-Along x fs h = (
    opened fs h,
    λ r a e.
        (let ha = Open-stable fs a (λ q _. e q) h in
          (opened a ha, λ r2 b s. (opened b (Open-stable a b s.0 ha), tt))),
  )

  only_remove-Along :
      (e : OsError) (fs : Files) → Open fs → Along Staged Published (only_remove tmp e) fs
  only_remove-Along x fs h = (opened fs h, λ r a e. (opened a (Open-stable fs a e.0 h), tt))

  fill_manifest-Along :
      (fs : Files)
      → Open fs
      → fs tmp ≡ some []
      → Along Staged Published (fill_manifest tmp mp body) fs
  unfolding fill_manifest
  fill_manifest-Along fs h empty = (
    opened fs h,
    λ r a e.
        (let ha = Open-stable fs a e.0 h in
          Along-or_return Staged Published r _ _ a (λ x _. close_remove-Along x a ha)
            (λ w. (
              opened a ha,
              λ r2 b s.
                  (let hb = Open-stable a b (λ q _. s q) ha in
                    Along-or_return Staged Published r2 _ _ b (λ x _. close_remove-Along x b hb)
                      (λ _. (
                        opened b hb,
                        λ r3 c t.
                            (let hc = Open-stable b c (λ q _. t q) hb in
                              Along-or_return Staged Published r3 _ _ c
                                (λ x _. only_remove-Along x c hc)
                                (λ _. rename_publish-Along c hc (t tmp ∙ (s tmp ∙ e.1 w empty)))),
                      ))),
            ))),
  )

longer : (p s : Bytes) → length (p ++ s) ≡ length p + length s
longer [] s = omega arith
longer (a ∷ p) s = omega (arith, longer p s)

pub part_of-apart : (p : Bytes) → part_of p ≢ p
part_of-apart p e = absurd (omega (arith, ap (length {A = ℕ}) e, longer p (codes ".part")))

module _ (K : Files → Type 0) (dir : Bytes)
    (keeps : (fs after : Files)
      → ((q : Bytes) → q ≢ manifest_path dir → q ≢ part_of (manifest_path dir) → after q ≡ fs q)
      → K fs
      → K after) where
  -- While the MANIFEST is written nothing is committed, until the rename has copied a beginning of the
  -- new one; then it is the whole new one.
  pub write_manifest_dir-Along :
      (encode : Manifest → Bytes) (m : Manifest) (fs : Files)
      → K fs
      → fs (manifest_path dir) ≡ none
      → Along
          (λ after.
            K after
            × ((after (manifest_path dir) ≡ none)
                ⊎ Copied (some (encode m)) (after (manifest_path dir))))
          (Success (λ _ after. after (manifest_path dir) ≡ some (encode m)))
          (write_manifest_dir encode dir m)
          fs
  unfolding write_manifest_dir
  write_manifest_dir-Along encode m fs k n =
      let mp = manifest_path dir in
      let tmp = part_of mp in
      let body = encode m in
      let apart = part_of-apart mp in
      let I = Staged K mp tmp body apart keeps in
      let H = Success (λ _ after. after mp ≡ some body) in
      let move = Open-stable K mp tmp body apart keeps in
      let op = opened K mp tmp body apart keeps in
      (
        op fs (k, n),
        λ r a e.
            (let ha = move fs a e.0 (k, n) in
              Along-or_return I H (unless_missing r) _ _ a (λ x _. (op a ha, tt))
                (λ g. (
                  op a ha,
                  λ r2 b s.
                      (let hb = move a b s.0 ha in
                        Along-or_return I H r2 _ _ b (λ x _. (op b hb, tt))
                          (λ w.
                            fill_manifest-Along K mp tmp body apart keeps b hb
                              (s.1 w (Removed-gone tmp fs r a g e.1)))),
                ))),
      )
