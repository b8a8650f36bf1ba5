-- ===== src/Agent/UploadMoves.antt =====
-- How the agent that uploads moves the phase of a PodSnapshot.
use pod_snapshotter.Base.{◌≡◌, refl, sym, subst, Option, none, some, not, ◌&&◌, if_split, List}
use pod_snapshotter.Base.Bytes.{Bytes, eqb}
use pod_snapshotter.Base.Result.{Result, ok, err}
use pod_snapshotter.Api.Common.{Message, ApiError}
use pod_snapshotter.Api.Snapshot.{
  PodSnapshot, SnapshotPhase, checkpointed, uploading, completed, failed, ArtifactStatus,
}
use pod_snapshotter.Artifact.Uri.{Uri, parse, check_local_root, scheme_file, scheme_fuse}
use pod_snapshotter.Artifact.Manifest.{Manifest, ManifestFile}
use pod_snapshotter.Artifact.Publish.{part_of, Action}
use pod_snapshotter.Artifact.Publish.Expand.{Archive}
use pod_snapshotter.Artifact.Publish.Quiet.{
  and_then-Quiet, rename_publish-Quiet, describe_file-Quiet, expand_tar_to_dir-Quiet,
}
use pod_snapshotter.Controller.Env.{Outcome, done, requeue_after}
use pod_snapshotter.Controller.Snapshot.{condition}
use pod_snapshotter.Os.{Prog, FileInfo, OsError, not_exist, os_error, unless_missing, get}
use pod_snapshotter.Os.Laws.{last_read, Traced-or_return, Traced-or_else, Sent, Ends, Writes}
use pod_snapshotter.Os.Quiet.{Quiet, Quiet-bind, Quiet-or_return, Quiet-or_else}
use pod_snapshotter.Agent.Config.{AgentConfig}
use pod_snapshotter.Agent.Moves.{OnPhases, Writes-Quiet, Writes-update}
use pod_snapshotter.Agent.Upload
use pod_snapshotter.Agent.Upload.{
  copy_atomic, fill_copy, captured_shm, failed_upload, retry_upload, uploaded, Uploaded, claimed,
  finish_upload, upload_dir, upload_tar, upload_stat, upload_to, upload, claim, reconcile_read,
  no_source, upload_artifact,
}

pub data UploadMoves : SnapshotPhase → SnapshotPhase → Type 0 where
  claims : UploadMoves checkpointed uploading
  retries : UploadMoves uploading uploading
  completes : UploadMoves uploading completed
  gives_up : UploadMoves uploading failed

copy_atomic-Quiet : (sha : Bytes → Bytes) (src dst : Bytes) → Quiet (copy_atomic sha src dst)
unfolding copy_atomic fill_copy
copy_atomic-Quiet sha src dst = (
  tt,
  λ r.
      Quiet-or_return r _ _ (λ e. tt)
        (
          tt,
          λ o.
              Quiet-or_else o _ _ (λ e. tt)
                (λ body. (
                  tt,
                  λ s.
                      Quiet-or_return (unless_missing s) _ _ (λ e. tt)
                        (
                          tt,
                          λ c.
                              Quiet-or_return c _ _ (λ e. tt)
                                (
                                  tt,
                                  λ w.
                                      Quiet-or_return w _ _ (λ e. (tt, λ _. (tt, λ _. tt)))
                                        (
                                          tt,
                                          λ y.
                                              Quiet-or_return y _ _ (λ e. (tt, λ _. (tt, λ _. tt)))
                                                (
                                                  tt,
                                                  λ z.
                                                      Quiet-or_return z _ _
                                                        (λ e. (tt, λ _. (tt, λ _. tt)))
                                                        (Quiet-bind _ _
                                                          (rename_publish-Quiet (part_of dst) dst)
                                                          (λ p.
                                                            Quiet-or_else p _ _
                                                            (λ m. (tt, λ _. (tt, λ _. tt)))
                                                            (λ u. tt))),
                                                ),
                                        ),
                                ),
                        ),
                )),
        ),
)

captured_shm-Quiet : (sha : Bytes → Bytes) (host dst : Bytes) → Quiet (captured_shm sha host dst)
unfolding captured_shm
captured_shm-Quiet sha host dst = (
  tt,
  λ r.
      Quiet-or_else r _ _ (λ e. tt)
        (λ captured.
          if_split (λ (p : Action (List ManifestFile)). Quiet p) (not captured) _ _ (λ _. tt)
            (λ _. and_then-Quiet _ _ (describe_file-Quiet sha dst _) (λ entry. tt))),
)

abbrev M : PodSnapshot → PodSnapshot → Type 0
M = OnPhases UploadMoves

module _ (snap : PodSnapshot) (phase : snap.status.phase ≡ uploading) where
  abbrev Sends : Prog Outcome → Type 0
  Sends p = Writes M (some snap) p

  from_uploading : (p : SnapshotPhase) → UploadMoves uploading p → UploadMoves snap.status.phase p
  from_uploading p m = subst (λ q. UploadMoves q p) (sym phase) m

  fail-Sends : (m : Message) → Sends (Upload.fail snap m)
  unfolding Upload.fail failed_upload condition
  fail-Sends m = Writes-update M snap (failed_upload snap m) done (from_uploading failed gives_up)

  retry-Sends : (m : Message) → Sends (retry_upload snap m)
  unfolding retry_upload
  retry-Sends m =
      Writes-update M snap (Upload.retried snap m) (requeue_after 15)
        (from_uploading snap.status.phase (subst (UploadMoves uploading) (sym phase) retries))

  module _ (cfg : AgentConfig) (sha : Bytes → Bytes) (encode : Manifest → Bytes) (archive : Archive)
      (a : ArtifactStatus) (uri : Uri) where
    finish-Sends :
        (info : FileInfo) (up : Uploaded)
        → Sends (finish_upload cfg sha encode archive snap a uri info up)
    unfolding finish_upload uploaded condition
    finish-Sends info up =
        Writes-Quiet M (some snap) _ _
          (if_split (λ (p : Prog (Option OsError)). Quiet p)
            (eqb uri.scheme scheme_fuse && cfg.verify_fuse) _ _ (λ _. (tt, λ _. tt)) (λ _. tt))
          (λ _. (
            tt,
            λ _. (
              tt,
              λ t.
                  Writes-update M snap (uploaded t a uri info up snap) done
                    (from_uploading completed completes),
            ),
          ))

    upload_dir-Sends : (info : FileInfo) → Sends (upload_dir cfg sha encode archive snap a uri info)
    unfolding upload_dir
    upload_dir-Sends info =
        Writes-Quiet M (some snap) _ _
          (expand_tar_to_dir-Quiet sha _ encode archive _ _ _
            (captured_shm-Quiet sha cfg.host_root _))
          (λ r.
            Traced-or_else last_read (Sent M) (some snap) Ends r _ _ (λ m _. retry-Sends m)
              (λ m _. finish-Sends info _))

    upload_tar-Sends : (info : FileInfo) → Sends (upload_tar cfg sha encode archive snap a uri info)
    unfolding upload_tar
    upload_tar-Sends info = Writes-Quiet M (some snap) _ _ (copy_atomic-Quiet sha _ _) (λ r.
        Traced-or_else last_read (Sent M) (some snap) Ends r _ _ (λ m _. retry-Sends m)
          (λ m _. finish-Sends info _))

    no_source-Sends : (e : OsError) → Sends (no_source cfg sha encode archive snap a uri e)
    unfolding no_source
    no_source-Sends not_exist = fail-Sends _
    no_source-Sends (os_error x) = tt

    upload_stat-Sends : Sends (upload_stat cfg sha encode archive snap a uri)
    unfolding upload_stat
    upload_stat-Sends = (
      tt,
      λ r.
          Traced-or_else last_read (Sent M) (some snap) Ends r _ _ (λ e _. no_source-Sends e)
            (λ info _.
              if_split Sends uri.dir _ _ (λ _. upload_dir-Sends info) (λ _. upload_tar-Sends info)),
    )

    upload_to-Sends : Sends (upload_to cfg sha encode archive snap a uri)
    unfolding upload_to
    upload_to-Sends =
        if_split Sends (not (eqb uri.scheme scheme_file)) _ _ (λ _. upload_stat-Sends)
          (λ _. (
            tt,
            λ r.
                Traced-or_return last_read (Sent M) (some snap) Ends r _ _ (λ e _. fail-Sends _)
                  (λ _. upload_stat-Sends),
          ))

  module _ (cfg : AgentConfig) (sha : Bytes → Bytes) (encode : Manifest → Bytes)
      (archive : Archive) where
    artifact-Sends :
        (a : Option ArtifactStatus) → Sends (upload_artifact a cfg sha encode archive snap)
    unfolding upload_artifact
    artifact-Sends none = tt
    artifact-Sends (some a) =
        Traced-or_else last_read (Sent M) (some snap) Ends (parse a.uri) _ _ (λ x _. fail-Sends _)
          (λ uri _.
            Traced-or_else last_read (Sent M) (some snap) Ends
              (check_local_root uri cfg.local_artifact_root) _ _ (λ x _. fail-Sends _)
              (λ _ _. upload_to-Sends cfg sha encode archive a uri))

    upload-Sends : Sends (upload cfg sha encode archive snap)
    unfolding upload
    upload-Sends = artifact-Sends snap.status.artifact

claim-Writes :
    (snap : PodSnapshot) → snap.status.phase ≡ checkpointed → Writes M (some snap) (claim snap)
unfolding claim claimed
claim-Writes snap phase = (
  subst (λ q. UploadMoves q uploading) (sym phase) claims,
  λ r. Traced-or_return last_read (Sent M) _ Ends r _ _ (λ _ _. tt) (λ _. tt),
)

module _ (cfg : AgentConfig) (sha : Bytes → Bytes) (encode : Manifest → Bytes)
    (archive : Archive) where
  by_phase-Writes :
      (p : SnapshotPhase) (snap : PodSnapshot)
      → snap.status.phase ≡ p
      → Writes M (some snap) (Upload.by_phase p cfg sha encode archive snap)
  unfolding Upload.by_phase
  by_phase-Writes checkpointed snap e = claim-Writes snap e
  by_phase-Writes uploading snap e = upload-Sends snap e cfg sha encode archive
  by_phase-Writes _ snap e = tt

  read-Writes :
      (r : Result ApiError PodSnapshot)
      → Writes M (last_read get r none) (reconcile_read cfg sha encode archive r)
  unfolding reconcile_read
  read-Writes (err e) = tt
  read-Writes (ok snap) =
      if_split (λ (p : Prog Outcome). Writes M (some snap) p)
        (not (eqb snap.status.node_name cfg.node_name)) _ _ (λ _. tt)
        (λ _. by_phase-Writes snap.status.phase snap refl)

  -- Whatever the node and the API server answer, the upload agent sends no update but one that
  -- takes a Checkpointed snapshot to Uploading, or one that takes an Uploading snapshot to Completed or
  -- to Failed, or leaves it in the phase Uploading (it may then change the rest, as the message of a
  -- retry).
  pub upload-Writes : Writes M none (Upload.reconcile cfg sha encode archive)
  unfolding Upload.reconcile
  upload-Writes = (tt, λ r. read-Writes r)
