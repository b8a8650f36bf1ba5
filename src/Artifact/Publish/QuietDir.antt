-- ===== src/Artifact/Publish/QuietDir.antt =====
-- PublishDir only works on files.
use pod_snapshotter.Base.{
  Option, none, some, Bool, List, [], ◌∷◌, if_split, is_empty, any, not, ◌||◌,
}
use pod_snapshotter.Base.Bytes.{Bytes, eqb}
use pod_snapshotter.Base.Result.{Result}
use pod_snapshotter.Os.{WalkFile, unless_missing}
use pod_snapshotter.Os.Quiet.{Quiet, Quiet-bind, Quiet-or_return, Quiet-or_else}
use pod_snapshotter.Artifact.Uri.{manifest_name}
use pod_snapshotter.Artifact.Manifest.{Manifest, ManifestFile}
use pod_snapshotter.Artifact.Publish.{Action}
use pod_snapshotter.Artifact.Publish.Quiet.{
  and_then-Quiet, describe_file-Quiet, contributed-Quiet, commit-Quiet, QuietContribute,
}
use pod_snapshotter.Artifact.Publish.Dir.{
  CheckpointMeta, PublishDirOptions, write_whole, write_metadata, is_described, list_file,
  list_files, has_magic, check_magic, is_pages, verify_image_magic, publish_listed, publish_walk,
  publish_metadata, publish_cleared, publish_with, publish_dir, publish_meta,
}
use pod_snapshotter.Api.Common.{Message}

pub write_whole-Quiet : (p body : Bytes) → Quiet (write_whole p body)
unfolding write_whole
write_whole-Quiet p body = (
  tt,
  λ c.
      Quiet-or_return c _ _ (λ e. tt)
        (
          tt,
          λ w.
              Quiet-or_return w _ _ (λ e. (tt, λ _. tt))
                (tt, λ z. Quiet-or_return z _ _ (λ e. tt) tt),
        ),
)

write_metadata-Quiet :
    (dir : Bytes) (files : List (Bytes × Bytes)) → Quiet (write_metadata dir files)
unfolding write_metadata
write_metadata-Quiet dir [] = tt
write_metadata-Quiet dir (f ∷ files) =
    Quiet-bind _ _ (write_whole-Quiet _ f.1)
      (λ r. Quiet-or_else r _ _ (λ m. tt) (λ _. write_metadata-Quiet dir files))

list_file-Quiet :
    (sha : Bytes → Bytes) (digest : Bool) (dir : Bytes) (w : WalkFile)
    → Quiet (list_file sha digest dir w)
unfolding list_file
list_file-Quiet sha digest dir w =
    if_split (λ (p : Action ManifestFile). Quiet p) digest _ _
      (λ _.
        Quiet-bind _ _ (describe_file-Quiet sha dir w.rel)
          (λ r. Quiet-or_else r _ _ (λ m. tt) (λ f. tt)))
      (λ _. tt)

list_files-Quiet :
    (sha : Bytes → Bytes) (digest : Bool) (dir : Bytes) (described : List ManifestFile)
    (found : List WalkFile) (files : List ManifestFile)
    → Quiet (list_files sha digest dir described found files)
unfolding list_files
list_files-Quiet sha digest dir described [] files = tt
list_files-Quiet sha digest dir described (w ∷ rest) files =
    if_split (λ (p : Action (List ManifestFile)). Quiet p)
      (eqb w.rel manifest_name || is_described w.rel described) _ _
      (λ _. list_files-Quiet sha digest dir described rest files)
      (λ _.
        and_then-Quiet _ _ (list_file-Quiet sha digest dir w)
          (λ f. list_files-Quiet sha digest dir described rest _))

verify_image_magic-Quiet :
    (dir : Bytes) (files : List ManifestFile) → Quiet (verify_image_magic dir files)
unfolding verify_image_magic
verify_image_magic-Quiet dir [] = tt
verify_image_magic-Quiet dir (f ∷ files) =
    if_split (λ (p : Action (Unit {0})). Quiet p) (not (has_magic f)) _ _
      (λ _. verify_image_magic-Quiet dir files)
      (λ _. (
        tt,
        λ r.
            Quiet-or_else r _ _ (λ e. tt)
              (λ body.
                Quiet-or_else (check_magic f body) _ _ (λ m. tt)
                  (λ _. verify_image_magic-Quiet dir files)),
      ))

module _ (sha : Bytes → Bytes) (encode : Manifest → Bytes) (opts : PublishDirOptions)
    (quiet : QuietContribute opts.contribute opts.dir) where
  abbrev Q : Action Manifest → Type 0
  Q p = Quiet p

  publish_listed-Quiet : (files : List ManifestFile) → Quiet (publish_listed encode opts files)
  unfolding publish_listed
  publish_listed-Quiet files =
      if_split Q (is_empty files) _ _ (λ _. tt)
        (λ _.
          if_split Q (not (any is_pages files)) _ _ (λ _. tt)
            (λ _.
              and_then-Quiet _ _ (verify_image_magic-Quiet opts.dir files)
                (λ _. commit-Quiet encode opts.dir _ opts.quiesce files)))

  publish_metadata-Quiet :
      (metadata : List (Bytes × Bytes)) → Quiet (publish_metadata sha encode opts metadata)
  unfolding publish_metadata publish_walk
  publish_metadata-Quiet metadata =
      and_then-Quiet _ _ (write_metadata-Quiet opts.dir metadata) (λ _.
        and_then-Quiet _ _ (contributed-Quiet opts.contribute opts.dir [] quiet) (λ described. (
          tt,
          λ r.
              Quiet-or_else r _ _ (λ e. tt)
                (λ found.
                  and_then-Quiet _ _
                    (list_files-Quiet sha opts.digest opts.dir described found described)
                    publish_listed-Quiet),
        )))

  module _ (encode_meta : CheckpointMeta → Result Message Bytes) (spec_first : Bool) where
    publish_with-Quiet :
        (meta : CheckpointMeta) → Quiet (publish_with sha encode encode_meta spec_first opts meta)
    unfolding publish_with publish_cleared
    publish_with-Quiet meta =
        if_split Q (is_empty opts.spec) _ _ (λ _. tt)
          (λ _. (
            tt,
            λ r.
                Quiet-or_return (unless_missing r) _ _ (λ e. tt)
                  (
                    tt,
                    λ s.
                        Quiet-or_else s _ _ (λ e. tt)
                          (λ info.
                            if_split Q (not info.is_dir) _ _ (λ _. tt)
                              (λ _.
                                Quiet-or_else (encode_meta meta) _ _ (λ m. tt)
                                  (λ body. publish_metadata-Quiet _))),
                  ),
          ))

    pub publish_dir-Quiet : Quiet (publish_dir sha encode encode_meta spec_first opts)
    unfolding publish_dir publish_meta
    publish_dir-Quiet = if_split Q (eqb opts.dir []) _ _ (λ _. tt) (λ _. meta-Quiet opts.meta)
      where
        meta-Quiet :
            (m : Option CheckpointMeta)
            → Quiet (publish_meta m sha encode encode_meta spec_first opts)
        meta-Quiet none = tt
        meta-Quiet (some meta) = publish_with-Quiet meta
