-- ===== src/Artifact/Publish/Commit.antt =====
-- The loop of ExpandTarToDir: nothing is committed while it runs, and what it lists is on the disk.
use pod_snapshotter.Base.{
  ℕ, suc, ◌≡◌, sym, ◌∙◌, ◌≢◌, Option, none, some, List, [], ◌∷◌, ◌++◌, All, All-append, length,
  if_split, ltb, subst, All-map,
}
use pod_snapshotter.Base.Bytes.{Bytes}
use pod_snapshotter.Go.Path.{join_path}
use pod_snapshotter.Os.{OsError, Member, MemberType, type_dir, type_reg, type_other}
use pod_snapshotter.Os.Files.{
  Files, Only, Along, Along-bind, Along-map, Along-or_return, Along-or_else, Same,
}
use pod_snapshotter.Artifact.Manifest.{ManifestFile, valid_rel_path}
use pod_snapshotter.Artifact.Publish.{Action, write_file, manifest_path, part_of}
use pod_snapshotter.Artifact.Publish.Writes.{Success, Written, write_file-Along}
use pod_snapshotter.Artifact.Publish.Expand.{
  target, member_name, is_skipped, entry_of, expand_type, expand_member, expand_members,
  max_tar_entries,
}

-- Where a listed file lies.
abbrev pub place : Bytes → ManifestFile → Bytes
place dst f = join_path (dst ∷ f.path ∷ [])

-- A listed file is on the disk, with the size and the digest that the list gives.
abbrev pub Stored : (Bytes → Bytes) → Bytes → Files → ManifestFile → Type 0
Stored sha dst fs f =
    (body : Bytes) × (fs (place dst f) ≡ some body) × (f.size ≡ length body) × (f.sha256 ≡ sha body)

abbrev pub Whole : (Bytes → Bytes) → Bytes → List ManifestFile → Files → Type 0
Whole sha dst files fs = All (Stored sha dst fs) files

abbrev pub Clear : Bytes → Bytes → List ManifestFile → Type 0
Clear dst q files = All (λ f. place dst f ≢ q) files

-- The members are written at places of their own, none of them that of the MANIFEST or of its
-- temporary file, or `out`, where something else is to be written later.
abbrev pub Apart : Bytes → Bytes → List Bytes → List Member → Type 0
Apart dst out used [] = Unit
Apart dst out used (m ∷ rest) =
    (target dst m ≢ manifest_path dst)
    × (target dst m ≢ part_of (manifest_path dst))
    × All (λ u. target dst m ≢ u) used
    × Apart dst out (target dst m ∷ used) rest
    × (target dst m ≢ out)

module _ (sha : Bytes → Bytes) (dst : Bytes) where
  Stored-kept :
      (fs after : Files) (f : ManifestFile)
      → after (place dst f) ≡ fs (place dst f)
      → Stored sha dst fs f
      → Stored sha dst after f
  Stored-kept fs after f e (body, b, size, digest) = (body, e ∙ b, size, digest)

  pub Whole-kept :
      (files : List ManifestFile) (p q : Bytes) (fs after : Files)
      → ((r : Bytes) → r ≢ p → r ≢ q → after r ≡ fs r)
      → Clear dst p files
      → Clear dst q files
      → Whole sha dst files fs
      → Whole sha dst files after
  Whole-kept [] p q fs after e c d h = tt
  Whole-kept (f ∷ files) p q fs after e c d h =
      (Stored-kept fs after f (e _ c.0 d.0) h.0, Whole-kept files p q fs after e c.1 d.1 h.1)

  pub Whole-Same :
      (files : List ManifestFile) (fs after : Files)
      → Same fs after
      → Whole sha dst files fs
      → Whole sha dst files after
  Whole-Same files fs after e h =
      All-map _ _ (λ f. Stored-kept fs after f (e (place dst f))) files h

  -- Nothing is committed, and what is listed is there.
  abbrev pub Ready : List ManifestFile → Files → Type 0
  Ready files fs =
      (fs (manifest_path dst) ≡ none)
      × Whole sha dst files fs
      × Clear dst (manifest_path dst) files
      × Clear dst (part_of (manifest_path dst)) files

  pub Ready-stable :
      (files : List ManifestFile) (q : Bytes)
      → q ≢ manifest_path dst
      → Clear dst q files
      → (fs after : Files) → Only q fs after
      → Ready files fs
      → Ready files after
  Ready-stable files q n c fs after e h = (
    e (manifest_path dst) (λ s. n (sym s)) ∙ h.0,
    Whole-kept files q q fs after (λ r m _. e r m) c c h.1,
    h.2,
    h.3,
  )

  pub Ready-Same :
      (files : List ManifestFile) (fs after : Files)
      → Same fs after
      → Ready files fs
      → Ready files after
  Ready-Same files fs after e h =
      (e (manifest_path dst) ∙ h.0, Whole-Same files fs after e h.1, h.2, h.3)

  abbrev pub Uncommitted : Files → Type 0
  Uncommitted fs = fs (manifest_path dst) ≡ none

module _ (sha : Bytes → Bytes) (dst out : Bytes) where
  -- The same, and nothing is listed at `out`.
  abbrev pub Listed : List ManifestFile → Files → Type 0
  Listed files fs = Ready sha dst files fs × Clear dst out files

  -- What is listed lies at the places used.
  abbrev Within : List Bytes → List ManifestFile → Type 0
  Within used files = (q : Bytes) → All (λ u. q ≢ u) used → Clear dst q files

  Listed-stable :
      (files : List ManifestFile) (q : Bytes)
      → q ≢ manifest_path dst
      → Clear dst q files
      → (fs after : Files) → Only q fs after
      → Listed files fs
      → Listed files after
  Listed-stable files q n c fs after e h = (Ready-stable sha dst files q n c fs after e h.0, h.1)

  abbrev Next : List Bytes → (List ManifestFile → Action (List ManifestFile)) → Type 0
  Next used next =
      (files : List ManifestFile) (fs : Files)
      → Listed files fs
      → Within used files
      → Along (Uncommitted sha dst) (Success Listed) (next files) fs

  module _ (m : Member) (used : List Bytes) (n : target dst m ≢ manifest_path dst)
      (o : target dst m ≢ part_of (manifest_path dst)) (not_out : target dst m ≢ out)
      (apart : All (λ u. target dst m ≢ u) used) (files : List ManifestFile)
      (within : Within used files) (next : List ManifestFile → Action (List ManifestFile))
      (goes_on : Next (target dst m ∷ used) next) where
    still-Within : Within (target dst m ∷ used) files
    still-Within q a = within q a.1

    skip-Along :
        (fs : Files)
        → Listed files fs
        → Along (Uncommitted sha dst) (Success Listed) (next files) fs
    skip-Along fs h = goes_on files fs h still-Within

    add_entry :
        (written : Bytes × ℕ) (fs : Files)
        → Listed files fs
        → Written sha (target dst m) m.body written fs
        → Along (Uncommitted sha dst) (Success Listed) (next (files ++ entry_of m written ∷ [])) fs
    add_entry written fs h w =
        goes_on _ fs
          (
            (
              h.0.0,
              All-append _ files _ h.0.1 ((m.body, w.0, w.2, w.1), tt),
              All-append _ files _ h.0.2 (n, tt),
              All-append _ files _ h.0.3 (o, tt),
            ),
            All-append _ files _ h.1 (not_out, tt),
          )
          (λ q a. All-append _ files _ (within q a.1) ((λ s. a.0 (sym s)), tt))

    expand_type-Along :
        (type : MemberType) (fs : Files)
        → Listed files fs
        → Along (Uncommitted sha dst) (Success Listed) (expand_type sha dst m type files next) fs
    unfolding expand_type
    expand_type-Along type_dir fs h = (
      h.0.0,
      λ r a e.
          (let ha = Listed-stable files (target dst m) n (within _ apart) fs a (λ q _. e q) h in
            Along-or_return (Uncommitted sha dst) (Success Listed) r _ _ a (λ x _. (ha.0.0, tt))
              (λ _. skip-Along a ha)),
    )
    expand_type-Along type_reg fs h =
        Along-bind (Uncommitted sha dst)
          (λ r after. Listed files after × Success (Written sha (target dst m) m.body) r after)
          (Success Listed) (write_file sha (target dst m) m.body) _ fs
          ((Along-map (Listed files) (Uncommitted sha dst)
            (Success (Written sha (target dst m) m.body)) _ _ fs (λ after l. l.0.0)
            (λ r after l w. (l, w))
            (write_file-Along (Listed files) (target dst m)
              (Listed-stable files (target dst m) n (within _ apart)) sha m.body fs h)))
          (λ r a i g.
            Along-or_else (Uncommitted sha dst) (Success Listed) r _ _ a (λ e _. (i, tt))
              (λ b e.
                add_entry b a g.0
                  (subst (λ x. Success (Written sha (target dst m) m.body) x a) e g.1)))
    expand_type-Along type_other fs h = (h.0.0, tt)

    expand_member-Along :
        (fs : Files)
        → Listed files fs
        → Along (Uncommitted sha dst) (Success Listed) (expand_member sha dst m files next) fs
    unfolding expand_member
    expand_member-Along fs h =
        if_split
          (λ (p : Action (List ManifestFile)). Along (Uncommitted sha dst) (Success Listed) p fs)
          (is_skipped m) _ _ (λ _. skip-Along fs h)
          (λ _.
            Along-or_else (Uncommitted sha dst) (Success Listed) (valid_rel_path (member_name m)) _
              _ fs (λ e _. (h.0.0, tt)) (λ _ _. expand_type-Along m.type fs h))

  pub expand_members-Along :
      (entries : ℕ) (members : List Member) (end : Option OsError) (used : List Bytes)
      → Apart dst out used members
      → (files : List ManifestFile) (fs : Files) → Listed files fs
      → Within used files
      → Along
          (Uncommitted sha dst)
          (Success Listed)
          (expand_members sha dst entries members end files)
          fs
  unfolding expand_members
  expand_members-Along entries [] none used apart files fs h w = (h.0.0, h)
  expand_members-Along entries [] (some e) used apart files fs h w = (h.0.0, tt)
  expand_members-Along entries (m ∷ rest) end used apart files fs h w =
      if_split
        (λ (p : Action (List ManifestFile)). Along (Uncommitted sha dst) (Success Listed) p fs)
        (ltb max_tar_entries (suc entries)) _ _ (λ _. (h.0.0, tt))
        (λ _.
          expand_member-Along m used apart.0 apart.1 apart.4 apart.2 files w _
            (λ done after.
              expand_members-Along (suc entries) rest end (target dst m ∷ used) apart.3 done after)
            fs h)
