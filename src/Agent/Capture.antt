-- ===== src/Agent/Capture.antt =====
-- internal/agent: captureShm of upload_controller.go as what ExpandTarToDir is given to contribute, and
-- contribute of checkpoint_controller.go as what PublishDir is given.
use pod_snapshotter.Base.{
  ◌≢◌, ◌∙◌, some, List, [], ◌∷◌, ◌++◌, subst, sym, append-nil, All-append, Bool, true, false,
  if◌then◌else◌, not, refl,
}
use pod_snapshotter.Base.Bytes.{Bytes}
use pod_snapshotter.Base.Result.{ok, Result, err}
use pod_snapshotter.Go.Path.{join_path}
use pod_snapshotter.Os.{ret, OsError}
use pod_snapshotter.Os.Files.{Files, Along-bind, Along, Along-or_else}
use pod_snapshotter.Artifact.Manifest.{Manifest, ManifestFile, valid_rel_path}
use pod_snapshotter.Artifact.Publish.{
  manifest_path, part_of, describe_file, describe_valid, and_then, Action,
}
use pod_snapshotter.Artifact.Publish.Writes.{Success}
use pod_snapshotter.Artifact.Publish.Commit.{Ready, Ready-stable, Ready-Same, Uncommitted}
use pod_snapshotter.Artifact.Publish.Atomic.{Contributes, and_then-Along}
use pod_snapshotter.Artifact.Publish.Absent.{NotYet, Still, describe_file-Still}
use pod_snapshotter.Agent.Checkpoint.Parts.{add_file, contribute, rootfs_diff_name}
use pod_snapshotter.Agent.Upload.{captured_shm, shm_diff_name}

-- Where the contents of /dev/shm are put.
abbrev pub shm_path : Bytes → Bytes
shm_path dst = join_path (dst ∷ shm_diff_name ∷ [])

module _ (sha : Bytes → Bytes) (dst : Bytes) (n : shm_path dst ≢ manifest_path dst)
    (o : shm_path dst ≢ part_of (manifest_path dst)) (files : List ManifestFile) where
  abbrev Adds : List ManifestFile → Files → Type 0
  Adds extra = Ready sha dst (files ++ extra)

  nothing-Adds : (fs : Files) → Ready sha dst files fs → Adds [] fs
  nothing-Adds fs h = subst (λ l. Ready sha dst l fs) (sym (append-nil files)) h

  describe_valid-Adds :
      (fs : Files)
      → Ready sha dst files fs
      → Along
          (Uncommitted sha dst)
          (Success (λ entry. Adds (entry ∷ [])))
          (describe_valid sha dst shm_diff_name)
          fs
  unfolding describe_valid
  describe_valid-Adds fs h =
      let H = Success (λ (entry : ManifestFile). Adds (entry ∷ [])) in
      (
        h.0,
        λ r a e.
            (let ha = Ready-Same sha dst files fs a e.0 h in
              Along-or_else (Uncommitted sha dst) H r _ _ a (λ x _. (ha.0, tt))
                (λ info told. (
                  ha.0,
                  λ r2 b f.
                      (let hb = Ready-Same sha dst files a b f.0 ha in
                        Along-or_else (Uncommitted sha dst) H r2 _ _ b (λ x _. (hb.0, tt))
                          (λ body read.
                            let at_a = f.1 body read in
                            let size = e.1 info body told (sym (e.0 (shm_path dst)) ∙ at_a) in
                            (
                              hb.0,
                              (
                                hb.0,
                                All-append _ files _ hb.1
                                    ((body, f.0 (shm_path dst) ∙ at_a, size, refl), tt),
                                All-append _ files _ hb.2 (n, tt),
                                All-append _ files _ hb.3 (o, tt),
                              ),
                            ))),
                ))),
      )

  describe_file-Adds :
      (fs : Files)
      → Ready sha dst files fs
      → Along
          (Uncommitted sha dst)
          (Success (λ entry. Adds (entry ∷ [])))
          (describe_file sha dst shm_diff_name)
          fs
  unfolding describe_file
  describe_file-Adds fs h =
      Along-or_else (Uncommitted sha dst) (Success (λ entry. Adds (entry ∷ [])))
        (valid_rel_path shm_diff_name) _ _ fs (λ e _. (h.0, tt)) (λ _ _. describe_valid-Adds fs h)

  captured-Adds :
      (captured : Bool) (fs : Files)
      → Ready sha dst files fs
      → Along
          (Uncommitted sha dst)
          (Success Adds)
          (if not captured
            then ret (ok [])
            else and_then (describe_file sha dst shm_diff_name) (λ entry. ret (ok (entry ∷ []))))
          fs
  captured-Adds false fs h = (h.0, nothing-Adds fs h)
  captured-Adds true fs h =
      and_then-Along (Uncommitted sha dst) (λ entry. Adds (entry ∷ [])) (Success Adds)
        (describe_file sha dst shm_diff_name) _ fs (λ m after. tt) (describe_file-Adds fs h)
        (λ entry after i g. (i, g))

-- The capture of /dev/shm is a contributor of an expansion whose members are not written at the place
-- of the capture.
pub captured_shm-Contributes :
    (sha : Bytes → Bytes) (encode : Manifest → Bytes) (host dst : Bytes)
    → shm_path dst ≢ manifest_path dst
    → shm_path dst ≢ part_of (manifest_path dst)
    → Contributes sha encode dst (shm_path dst) (some (captured_shm sha host))
unfolding captured_shm
captured_shm-Contributes sha encode host dst n o files fs h = (
  h.0.0,
  λ r a e.
      (let ha = Ready-stable sha dst files (shm_path dst) n h.1 fs a e h.0 in
        Along-or_else (Uncommitted sha dst) (Success (Adds sha dst n o files)) r _ _ a
          (λ x _. (ha.0, tt)) (λ captured _. captured-Adds sha dst n o files captured a ha)),
)

module _ (sha : Bytes → Bytes) (dir : Bytes) where
  add_file-Still :
      (name : Bytes) (r : Result OsError Bool) (files : List ManifestFile)
      (next : List ManifestFile → Action (List ManifestFile))
      → ((done : List ManifestFile) (fs : Files) → NotYet dir fs → Still dir (next done) fs)
      → (fs : Files) → NotYet dir fs
      → Still dir (add_file sha dir name r files next) fs
  unfolding add_file
  add_file-Still name (err e) files next n fs h = n files fs h
  add_file-Still name (ok false) files next n fs h = n files fs h
  add_file-Still name (ok true) files next n fs h =
      Along-bind (NotYet dir) (λ _ _. Unit) (λ _ _. Unit) (describe_file sha dir name) _ fs
        (describe_file-Still dir sha name fs h)
        (λ r a i g.
          Along-or_else (NotYet dir) (λ _ _. Unit) r _ _ a (λ m _. n files a i)
            (λ entry _. n (files ++ entry ∷ []) a i))

  -- What the dump agent adds to the images brings no MANIFEST.
  pub contribute-Still :
      (host upper : Bytes)
      → shm_path dir ≢ manifest_path dir
      → join_path (dir ∷ rootfs_diff_name ∷ []) ≢ manifest_path dir
      → (fs : Files) → NotYet dir fs
      → Still dir (contribute sha host upper dir) fs
  unfolding contribute
  contribute-Still host upper shm rootfs fs h = (
    h,
    λ r a e.
        add_file-Still shm_diff_name r [] _
          (λ done b i. (
            i,
            λ r2 c f.
                add_file-Still rootfs_diff_name r2 done _ (λ all d j. (j, tt)) c
                  (f (manifest_path dir) (λ s. rootfs (sym s)) ∙ i),
          ))
          a (e (manifest_path dir) (λ s. shm (sym s)) ∙ h),
  )
