-- ===== src/Artifact/Publish/Whole.antt =====
-- PublishDir as a whole: nothing is committed until the images have been looked at.
use pod_snapshotter.Base.{
  ◌≡◌, refl, ◌≢◌, ◌∙◌, inl, inr, Option, none, some, List, [], ◌∷◌, All, any, Bool, true, false,
  not, if_split, is_empty,
}
use pod_snapshotter.Base.Bytes.{Bytes, codes, eqb}
use pod_snapshotter.Base.Result.{Result, ok, err}
use pod_snapshotter.Go.Path.{join_path}
use pod_snapshotter.Api.Common.{Message}
use pod_snapshotter.Os.{OsError, unless_missing, not_exist, os_error}
use pod_snapshotter.Os.Files.{
  Files, Same, Only, Along, Along-map, Along-or_return, Along-or_else, Removed-gone, Removed,
  Only-Same,
}
use pod_snapshotter.Artifact.Manifest.{Manifest, ManifestFile, new_manifest}
use pod_snapshotter.Artifact.Publish.{Action, manifest_path, and_then}
use pod_snapshotter.Artifact.Publish.Writes.{Success}
use pod_snapshotter.Artifact.Publish.Expand.{commit, Contribute, contributed}
use pod_snapshotter.Artifact.Publish.Magic.{Magic, verify_image_magic-Along}
use pod_snapshotter.Artifact.Publish.Atomic.{All-sort_files, and_then-Along}
use pod_snapshotter.Artifact.Publish.Dir.{
  is_pages, write_metadata, metadata_files, list_files, publish_listed, publish_walk,
  publish_metadata, publish_cleared, publish_with, publish_meta, publish_dir, verify_image_magic,
  PublishDirOptions, CheckpointMeta,
}
use pod_snapshotter.Artifact.Publish.Absent.{
  NotYet, Still, Still-then, write_metadata-Still, list_files-Still,
}
use pod_snapshotter.Artifact.Publish.Checked.{
  HasPages, any-sort_files, is_pages-HasPages, Observed, Published, not_yet, marker-Along,
  Still-Along,
}

not-false : (b : Bool) → not b ≡ false → b ≡ true
not-false true h = refl
not-false false h = absurd (cc h)

module _ (sha : Bytes → Bytes) (encode : Manifest → Bytes) (opts : PublishDirOptions) where
  commit-Along :
      (before at fs : Files) (files : List ManifestFile)
      → All (Magic opts.dir at) files
      → HasPages files
      → Same at fs
      → NotYet opts.dir fs
      → Along
          (Observed encode opts.dir before)
          (Published encode opts.dir)
          (commit encode opts.dir [] opts.quiesce files)
          fs
  unfolding commit new_manifest
  commit-Along before at fs files magic pages s n = (
    not_yet encode opts.dir before fs n,
    λ t a e.
        marker-Along encode opts.dir before at (new_manifest t files [] opts.quiesce)
          (All-sort_files _ files magic) (any-sort_files _ files ∙ pages) a (λ q _ _. e q ∙ s q)
          (e (manifest_path opts.dir) ∙ n),
  )

  seen :
      (fs after : Files) (files : List ManifestFile) (r : Result Message (Unit {0}))
      → Same fs after
      → Success (λ _ _. All (Magic opts.dir fs) files) r after
      → Success (λ _ x. Same fs x × All (Magic opts.dir fs) files) r after
  seen fs after files (ok u) s h = (s, h)
  seen fs after files (err e) s h = tt

  verified-Along :
      (before fs : Files) (files : List ManifestFile)
      → HasPages files
      → NotYet opts.dir fs
      → Along
          (Observed encode opts.dir before)
          (Published encode opts.dir)
          (and_then
            (verify_image_magic opts.dir files)
            (λ _. commit encode opts.dir [] opts.quiesce files))
          fs
  verified-Along before fs files pages n =
      and_then-Along (Observed encode opts.dir before)
        (λ _ x. Same fs x × All (Magic opts.dir fs) files) (Published encode opts.dir)
        (verify_image_magic opts.dir files) _ fs (λ m after. tt)
        (Along-map _ _ _ _ _ fs
          (λ after s. not_yet encode opts.dir before after (s (manifest_path opts.dir) ∙ n))
          (λ r after s h. seen fs after files r s h) (verify_image_magic-Along opts.dir fs files))
        (λ u after i g.
          commit-Along before fs after files g.1 pages g.0 (g.0 (manifest_path opts.dir) ∙ n))

  listed-Along :
      (before : Files) (files : List ManifestFile) (fs : Files)
      → NotYet opts.dir fs
      → Along
          (Observed encode opts.dir before)
          (Published encode opts.dir)
          (publish_listed encode opts files)
          fs
  unfolding publish_listed
  listed-Along before files fs n =
      let I = Observed encode opts.dir before in
      let G = Published encode opts.dir in
      let i = not_yet encode opts.dir before fs n in
      if_split (λ (p : Action Manifest). Along I G p fs) (is_empty files) _ _ (λ _. (i, tt))
        (λ _.
          if_split (λ (p : Action Manifest). Along I G p fs) (not (any is_pages files)) _ _
            (λ _. (i, tt))
            (λ t.
              verified-Along before fs files
                (is_pages-HasPages files (not-false (any is_pages files) t)) n))

  walk-Along :
      (before : Files) (described : List ManifestFile) (fs : Files)
      → NotYet opts.dir fs
      → Along
          (Observed encode opts.dir before)
          (Published encode opts.dir)
          (publish_walk sha encode opts described)
          fs
  unfolding publish_walk
  walk-Along before described fs n =
      let I = Observed encode opts.dir before in
      let G = Published encode opts.dir in
      (
        not_yet encode opts.dir before fs n,
        λ r a e.
            (let ha = e (manifest_path opts.dir) ∙ n in
              Along-or_else I G r _ _ a (λ x _. (not_yet encode opts.dir before a ha, tt))
                (λ found _.
                  Still-Along encode opts.dir before
                    (list_files sha opts.digest opts.dir described found described)
                    (publish_listed encode opts) a
                    (list_files-Still opts.dir sha opts.digest described found described a ha)
                    (λ files b i. listed-Along before files b i))),
      )

  -- What `contribute` does brings no MANIFEST.
  abbrev pub Leaves : Contribute → Type 0
  Leaves none = Unit
  Leaves (some f) = (fs : Files) → NotYet opts.dir fs → Still opts.dir (f opts.dir) fs

  contributed-Still :
      (c : Contribute)
      → Leaves c
      → (fs : Files) → NotYet opts.dir fs
      → Still opts.dir (contributed c opts.dir []) fs
  unfolding contributed
  contributed-Still none l fs n = (n, tt)
  contributed-Still (some f) l fs n =
      Still-then opts.dir (f opts.dir) _ fs (l fs n) (λ extra after i. (i, tt))

  module _ (config : join_path (opts.dir ∷ codes "config.dump" ∷ []) ≢ manifest_path opts.dir)
      (spec : join_path (opts.dir ∷ codes "spec.dump" ∷ []) ≢ manifest_path opts.dir)
      (leaves : Leaves opts.contribute) (before : Files) where
    abbrev Goes : Action Manifest → Files → Type 0
    Goes p fs = Along (Observed encode opts.dir before) (Published encode opts.dir) p fs

    metadata-apart :
        (spec_first : Bool) (meta : Bytes)
        → All
            (λ f. join_path (opts.dir ∷ f.0 ∷ []) ≢ manifest_path opts.dir)
            (metadata_files spec_first meta opts.spec)
    unfolding metadata_files
    metadata-apart true meta = (spec, (config, tt))
    metadata-apart false meta = (config, (spec, tt))

    metadata-Goes :
        (spec_first : Bool) (meta : Bytes) (fs : Files)
        → NotYet opts.dir fs
        → Goes (publish_metadata sha encode opts (metadata_files spec_first meta opts.spec)) fs
    unfolding publish_metadata
    metadata-Goes spec_first meta fs n =
        Still-Along encode opts.dir before
          (write_metadata opts.dir (metadata_files spec_first meta opts.spec)) _ fs
          (write_metadata-Still opts.dir (metadata_files spec_first meta opts.spec) fs
            (metadata-apart spec_first meta) n)
          (λ u a i.
            Still-Along encode opts.dir before (contributed opts.contribute opts.dir []) _ a
              (contributed-Still opts.contribute leaves a i)
              (λ described c j. walk-Along before described c j))

    cleared-Goes :
        (encode_meta : CheckpointMeta → Result Message Bytes) (spec_first : Bool)
        (meta : CheckpointMeta) (fs : Files)
        → NotYet opts.dir fs
        → Goes (publish_cleared sha encode encode_meta spec_first opts meta) fs
    unfolding publish_cleared
    cleared-Goes encode_meta spec_first meta fs n =
        let I = Observed encode opts.dir before in
        let G = Published encode opts.dir in
        (
          not_yet encode opts.dir before fs n,
          λ r a e.
              (let ha = e.0 (manifest_path opts.dir) ∙ n in
                let ia = not_yet encode opts.dir before a ha in
                Along-or_else I G r _ _ a (λ x _. (ia, tt))
                  (λ info _.
                    if_split (λ (p : Action Manifest). Goes p a) (not info.is_dir) _ _
                      (λ _. (ia, tt))
                      (λ _.
                        Along-or_else I G (encode_meta meta) _ _ a (λ x _. (ia, tt))
                          (λ body _. metadata-Goes spec_first body a ha)))),
        )

    not_cleared :
        (r : Option OsError) (after : Files)
        → Only (manifest_path opts.dir) before after
        → Removed (manifest_path opts.dir) before r after
        → Observed encode opts.dir before after
    not_cleared none after o h = inr (inl h)
    not_cleared (some not_exist) after o h = inr (inl h)
    not_cleared (some (os_error t)) after o (inl h) =
        inl (Only-Same (manifest_path opts.dir) before after o h)
    not_cleared (some (os_error t)) after o (inr h) = inr (inl h)

    with-Goes :
        (encode_meta : CheckpointMeta → Result Message Bytes) (spec_first : Bool)
        (meta : CheckpointMeta)
        → Goes (publish_with sha encode encode_meta spec_first opts meta) before
    unfolding publish_with
    with-Goes encode_meta spec_first meta =
        let I = Observed encode opts.dir before in
        let G = Published encode opts.dir in
        if_split (λ (p : Action Manifest). Goes p before) (is_empty opts.spec) _ _
          (λ _. (inl (λ q. refl), tt))
          (λ _. (
            inl (λ q. refl),
            λ r a e.
                Along-or_return I G (unless_missing r) _ _ a (λ x _. (not_cleared r a e.0 e.1, tt))
                  (λ g.
                    cleared-Goes encode_meta spec_first meta a
                      (Removed-gone (manifest_path opts.dir) before r a g e.1)),
          ))

    meta-Goes :
        (encode_meta : CheckpointMeta → Result Message Bytes) (spec_first : Bool)
        (meta : Option CheckpointMeta)
        → Goes (publish_meta meta sha encode encode_meta spec_first opts) before
    unfolding publish_meta
    meta-Goes encode_meta spec_first none = (inl (λ q. refl), tt)
    meta-Goes encode_meta spec_first (some meta) = with-Goes encode_meta spec_first meta

    -- While a dumped directory is published, and wherever that is cut off or fails, a reader finds the
    -- files as they were before the first call, or no MANIFEST, or a MANIFEST, or the beginning of
    -- one that a rename copies, that lists a file of memory pages and whose metadata images have all
    -- been on the disk with CRIU's magic, nothing but the MANIFEST and its temporary file having
    -- changed since; and a publication that succeeds leaves the whole of such a MANIFEST.
    -- config.dump, spec.dump and the contributor's files lie elsewhere than the MANIFEST.
    pub publish_dir-Along :
        (encode_meta : CheckpointMeta → Result Message Bytes) (spec_first : Bool)
        → Along
            (Observed encode opts.dir before)
            (Published encode opts.dir)
            (publish_dir sha encode encode_meta spec_first opts)
            before
    unfolding publish_dir
    publish_dir-Along encode_meta spec_first =
        if_split (λ (p : Action Manifest). Goes p before) (eqb opts.dir []) _ _
          (λ _. (inl (λ q. refl), tt)) (λ _. meta-Goes encode_meta spec_first opts.meta)
