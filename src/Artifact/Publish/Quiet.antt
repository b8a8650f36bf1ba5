-- ===== src/Artifact/Publish/Quiet.antt =====
-- The programs of the publication only work on files.
use pod_snapshotter.Base.{ℕ, suc, Option, none, some, List, [], ◌∷◌, if_split, ltb, is_empty}
use pod_snapshotter.Base.Bytes.{Bytes}
use pod_snapshotter.Os.{OsError, Member, MemberType, type_dir, type_reg, type_other, unless_missing}
use pod_snapshotter.Os.Quiet.{Quiet, Quiet-bind, Quiet-or_return, Quiet-or_else}
use pod_snapshotter.Artifact.Manifest.{Manifest, ManifestFile, QuiesceInfo, valid_rel_path}
use pod_snapshotter.Artifact.Publish.{
  Action, and_then, rename_publish, remove_source, fill_manifest, write_manifest_dir, fill_file,
  write_file, describe_valid, describe_file,
}
use pod_snapshotter.Artifact.Publish.Expand.{
  Contribute, Archive, contributed, commit, expand_type, expand_member, expand_members, expand_rest,
  expand_open, expand_tar_to_dir, max_tar_entries, is_skipped, member_name,
}

pub and_then-Quiet {ℓ κ} :
    {A : Type ℓ} {B : Type κ} (p : Action A) (f : A → Action B)
    → Quiet p
    → ((a : A) → Quiet (f a))
    → Quiet (and_then p f)
and_then-Quiet p f h n = Quiet-bind p _ h (λ r. Quiet-or_else r _ f (λ e. tt) n)

pub rename_publish-Quiet : (tmp dst : Bytes) → Quiet (rename_publish tmp dst)
unfolding rename_publish remove_source
rename_publish-Quiet tmp dst = (
  tt,
  λ r.
      Quiet-or_return r _ _ (λ e. tt)
        (tt, λ s. Quiet-or_return (unless_missing s) _ _ (λ e. tt) tt),
)

write_manifest_dir-Quiet :
    (encode : Manifest → Bytes) (dir : Bytes) (m : Manifest)
    → Quiet (write_manifest_dir encode dir m)
unfolding write_manifest_dir fill_manifest
write_manifest_dir-Quiet encode dir m = (
  tt,
  λ r.
      Quiet-or_return (unless_missing r) _ _ (λ e. tt)
        (
          tt,
          λ s.
              Quiet-or_return s _ _ (λ e. tt)
                (
                  tt,
                  λ w.
                      Quiet-or_return w _ _ (λ e. (tt, λ _. (tt, λ _. tt)))
                        (
                          tt,
                          λ y.
                              Quiet-or_return y _ _ (λ e. (tt, λ _. (tt, λ _. tt)))
                                (
                                  tt,
                                  λ c.
                                      Quiet-or_return c _ _ (λ e. (tt, λ _. tt))
                                        (rename_publish-Quiet _ _),
                                ),
                        ),
                ),
        ),
)

write_file-Quiet : (sha : Bytes → Bytes) (dst body : Bytes) → Quiet (write_file sha dst body)
unfolding write_file fill_file
write_file-Quiet sha dst body = (
  tt,
  λ r.
      Quiet-or_return r _ _ (λ e. tt)
        (
          tt,
          λ s.
              Quiet-or_return (unless_missing s) _ _ (λ e. tt)
                (
                  tt,
                  λ c.
                      Quiet-or_return c _ _ (λ e. tt)
                        (
                          tt,
                          λ w.
                              Quiet-or_return w _ _ (λ e. (tt, λ _. tt))
                                (
                                  tt,
                                  λ y.
                                      Quiet-or_return y _ _ (λ e. (tt, λ _. tt))
                                        (tt, λ z. Quiet-or_return z _ _ (λ e. (tt, λ _. tt)) tt),
                                ),
                        ),
                ),
        ),
)

pub describe_file-Quiet :
    (sha : Bytes → Bytes) (dst rel : Bytes) → Quiet (describe_file sha dst rel)
unfolding describe_file describe_valid
describe_file-Quiet sha dst rel =
    Quiet-or_else (valid_rel_path rel) _ _ (λ e. tt)
      (λ _. (
        tt,
        λ r.
            Quiet-or_else r _ _ (λ e. tt)
              (λ info. (tt, λ s. Quiet-or_else s _ _ (λ e. tt) (λ body. tt))),
      ))

abbrev pub QuietContribute : Contribute → Bytes → Type 0
QuietContribute none dst = Unit
QuietContribute (some f) dst = Quiet (f dst)

pub contributed-Quiet :
    (c : Contribute) (dst : Bytes) (files : List ManifestFile)
    → QuietContribute c dst
    → Quiet (contributed c dst files)
unfolding contributed
contributed-Quiet none dst files h = tt
contributed-Quiet (some f) dst files h = and_then-Quiet (f dst) _ h (λ a. tt)

pub commit-Quiet :
    (encode : Manifest → Bytes) (dst source : Bytes) (quiesce : Option QuiesceInfo)
    (files : List ManifestFile)
    → Quiet (commit encode dst source quiesce files)
unfolding commit
commit-Quiet encode dst source quiesce files =
    (tt, λ t. and_then-Quiet _ _ (write_manifest_dir-Quiet encode dst _) (λ _. tt))

module _ (sha : Bytes → Bytes) (dst : Bytes) where
  expand_type-Quiet :
      (m : Member) (type : MemberType) (files : List ManifestFile)
      (next : List ManifestFile → Action (List ManifestFile))
      → ((done : List ManifestFile) → Quiet (next done))
      → Quiet (expand_type sha dst m type files next)
  unfolding expand_type
  expand_type-Quiet m type_dir files next h = (tt, λ r. Quiet-or_return r _ _ (λ e. tt) (h files))
  expand_type-Quiet m type_reg files next h =
      Quiet-bind _ _ (write_file-Quiet sha _ m.body) (λ r. Quiet-or_else r _ _ (λ e. tt) (λ w. h _))
  expand_type-Quiet m type_other files next h = tt

  expand_members-Quiet :
      (entries : ℕ) (members : List Member) (end : Option OsError) (files : List ManifestFile)
      → Quiet (expand_members sha dst entries members end files)
  unfolding expand_members expand_member
  expand_members-Quiet entries [] none files = tt
  expand_members-Quiet entries [] (some e) files = tt
  expand_members-Quiet entries (m ∷ rest) end files =
      let Q = λ (p : Action (List ManifestFile)). Quiet p in
      if_split Q (ltb max_tar_entries (suc entries)) _ _ (λ _. tt)
        (λ _.
          if_split Q (is_skipped m) _ _ (λ _. expand_members-Quiet (suc entries) rest end files)
            (λ _.
              Quiet-or_else (valid_rel_path (member_name m)) _ _ (λ e. tt)
                (λ _.
                  expand_type-Quiet m m.type files _
                    (λ done. expand_members-Quiet (suc entries) rest end done))))

  pub expand_tar_to_dir-Quiet :
      (encode : Manifest → Bytes) (archive : Archive) (tar : Bytes) (quiesce : Option QuiesceInfo)
      (c : Contribute)
      → QuietContribute c dst
      → Quiet (expand_tar_to_dir sha encode archive tar dst quiesce c)
  unfolding expand_tar_to_dir expand_open expand_rest
  expand_tar_to_dir-Quiet encode archive tar quiesce c h = (
    tt,
    λ r.
        Quiet-or_return r _ _ (λ e. tt)
          (
            tt,
            λ s.
                Quiet-or_return (unless_missing s) _ _ (λ e. tt)
                  (
                    tt,
                    λ o.
                        Quiet-or_return o _ _ (λ e. tt)
                          (and_then-Quiet _ _ (expand_members-Quiet 0 archive.0 archive.1 [])
                            (λ files.
                              if_split (λ (p : Action Manifest). Quiet p) (is_empty files) _ _
                                (λ _. tt)
                                (λ _.
                                  and_then-Quiet _ _ (contributed-Quiet c dst files h)
                                    (λ all. commit-Quiet encode dst _ quiesce all)))),
                  ),
          ),
  )
