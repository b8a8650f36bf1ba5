-- ===== src/Agent/CheckpointMoves.antt =====
-- How the agent that dumps moves the phase of a PodSnapshot.
use pod_snapshotter.Base.{ℕ, zero, suc, Option, none, some, not, if_split, Bool}
use pod_snapshotter.Base.Bytes.{Bytes, eqb}
use pod_snapshotter.Base.Result.{Result, ok, err}
use pod_snapshotter.Os.{◌>>=◌, Prog, ret, get, Sandbox, or_else}
use pod_snapshotter.Os.Laws.{
  last_read, Traced-bind, Traced-or_return, Traced-or_else, Sent, Ends, Writes,
}
use pod_snapshotter.Artifact.Uri.{Uri, parse, check_local_root, scheme_file}
use pod_snapshotter.Artifact.Manifest.{Manifest}
use pod_snapshotter.Artifact.Publish.QuietDir.{publish_dir-Quiet}
use pod_snapshotter.Api.Common.{Message, ApiError, not_found, conflict, unavailable}
use pod_snapshotter.Api.Snapshot.{PodSnapshot, SnapshotPhase, completed, failed, ArtifactStatus}
use pod_snapshotter.Controller.Env.{Outcome}
use pod_snapshotter.Controller.Snapshot.{condition}
use pod_snapshotter.Agent.Config.{AgentConfig}
use pod_snapshotter.Agent.Moves.{OnPhases, Writes-Quiet}
use pod_snapshotter.Agent.Checkpoint.{
  ObjectMeta, attempt, is_conflict, retry_on_conflict, write_status, default_retry, fail, retry,
  complete, failed_dump, completed_dump, owns,
}
use pod_snapshotter.Agent.Checkpoint.Clear.{max_depth}
use pod_snapshotter.Agent.Checkpoint.Cleared.{clear_artifact_dir-Quiet}
use pod_snapshotter.Agent.Checkpoint.Guard.{
  contribute-Quiet, copy_into-Quiet, read_task_spec-Quiet, read_manifest_dir-Quiet,
}
use pod_snapshotter.Agent.Checkpoint.Dump.{
  Calls, publish, after_dump, run_dump, clear_and_dump, dump_sandbox, if_committed,
  unless_committed, checkpoint_to, checkpoint_uri, checkpoint_artifact, checkpoint, reconcile_read,
  reconcile,
}

-- The result of a dump is written whatever the phase has become.
pub data CheckpointMoves : SnapshotPhase → SnapshotPhase → Type 0 where
  stays : {p : SnapshotPhase} → CheckpointMoves p p
  completes : {p : SnapshotPhase} → CheckpointMoves p completed
  fails : {p : SnapshotPhase} → CheckpointMoves p failed

abbrev M : PodSnapshot → PodSnapshot → Type 0
M = OnPhases CheckpointMoves

module _ (mutate : ℕ → PodSnapshot → PodSnapshot)
    (good : (t : ℕ) (cur : PodSnapshot) → M cur (mutate t cur)) where
  attempt-Writes :
      (last : Option PodSnapshot) (r : Result ApiError PodSnapshot)
      → Writes M (last_read get r last) (attempt mutate r)
  unfolding attempt
  attempt-Writes last (err not_found) = tt
  attempt-Writes last (err conflict) = tt
  attempt-Writes last (err unavailable) = tt
  attempt-Writes last (ok cur) = (tt, λ t. (good t cur, λ e. tt))

  retry-Writes :
      (tries : ℕ) (last : Option PodSnapshot) → Writes M last (retry_on_conflict tries mutate)
  unfolding retry_on_conflict
  retry-Writes zero last = tt
  retry-Writes (suc tries) last = (
    tt,
    λ r. Traced-bind last_read (Sent M) _ Ends Ends _ _ (attempt-Writes last r) (λ s e _.
        if_split (λ (p : Prog (Option ApiError)). Writes M s p) (is_conflict e) _ _
          (λ _. retry-Writes tries s) (λ _. tt)),
  )

  then-Writes :
      (last : Option PodSnapshot) (f : Option ApiError → Outcome)
      → Writes M last (write_status mutate >>= λ e. ret (f e))
  unfolding write_status
  then-Writes last f =
      Traced-bind last_read (Sent M) last Ends Ends _ _ (retry-Writes default_retry last)
        (λ s e _. tt)

fail-Writes : (last : Option PodSnapshot) (m : Message) → Writes M last (fail m)
unfolding fail
fail-Writes last m =
    then-Writes (failed_dump m) (λ t cur. unfold failed_dump condition in fails) last _

retry_later-Writes : (last : Option PodSnapshot) (m : Message) → Writes M last (retry m)
unfolding retry
retry_later-Writes last m = then-Writes _ (λ t cur. stays) last _

complete-Writes :
    (last : Option PodSnapshot) (uri : Uri) (dir : Bytes) (m : Manifest)
    → Writes M last (complete uri dir m)
unfolding complete
complete-Writes last uri dir m =
    then-Writes (completed_dump uri dir m) (λ t cur. unfold completed_dump condition in completes)
      last _

or_fails {ℓ κ} :
    {E : Type κ} {B : Type ℓ} (last : Option PodSnapshot) (r : Result E B) (f : E → Prog Outcome)
    (rest : B → Prog Outcome)
    → ((e : E) → Writes M last (f e))
    → ((b : B) → Writes M last (rest b))
    → Writes M last (or_else r f rest)
or_fails last r f rest early next =
    Traced-or_else last_read (Sent M) last Ends r f rest (λ e _. early e) (λ b _. next b)

module _ (cfg : AgentConfig) (calls : Calls) (about : ObjectMeta) (snap : PodSnapshot)
    (last : Option PodSnapshot) where
  module _ (uri : Uri) where
    after_dump-Writes :
        (spec upper : Bytes) (sandbox : Sandbox) (started : ℕ)
        → Writes M last (after_dump cfg calls about snap uri spec upper sandbox started)
    unfolding after_dump publish
    after_dump-Writes spec upper sandbox started =
        Writes-Quiet M last _ _ (copy_into-Quiet _ _) (λ r.
          or_fails last r _ _ (λ m. fail-Writes last _)
            (λ _.
              Writes-Quiet M last _ _
                (publish_dir-Quiet calls.sha calls.encode _
                  (contribute-Quiet calls.sha cfg.host_root upper _) calls.encode_meta
                  calls.spec_first)
                (λ p.
                  or_fails last p _ _ (λ m. fail-Writes last _)
                    (λ m. (tt, λ _. complete-Writes last uri _ m)))))

    clear-Writes :
        (spec upper : Bytes) (sandbox : Sandbox)
        → Writes M last (clear_and_dump cfg calls about snap uri spec upper sandbox)
    unfolding clear_and_dump run_dump
    clear-Writes spec upper sandbox =
        Writes-Quiet M last _ _ (clear_artifact_dir-Quiet max_depth _) (λ r.
          or_fails last r _ _ (λ m. fail-Writes last _)
            (λ _. (
              tt,
              λ s.
                  Traced-or_return last_read (Sent M) last Ends s _ _ (λ _ _. tt)
                    (λ _. (
                      tt,
                      λ started. (
                        tt,
                        λ d.
                            Traced-or_return last_read (Sent M) last Ends d _ _
                              (λ e _. fail-Writes last _)
                              (λ _. after_dump-Writes spec upper sandbox started),
                      ),
                    )),
            )))

    committed-Writes :
        (m : Option Manifest) → Writes M last (if_committed cfg calls about snap uri m)
    unfolding if_committed dump_sandbox
    committed-Writes (some m) = complete-Writes last uri _ m
    committed-Writes none = (
      tt,
      λ r.
          or_fails last r _ _ (λ e. retry_later-Writes last _)
            (λ sandbox. Writes-Quiet M last _ _ (read_task_spec-Quiet calls.json_valid _) (λ s.
              or_fails last s _ _ (λ m. fail-Writes last _)
                (λ spec. (tt, λ upper. clear-Writes spec _ sandbox)))),
    )

    unless_committed-Writes : Writes M last (unless_committed cfg calls about snap uri)
    unfolding unless_committed
    unless_committed-Writes =
        Writes-Quiet M last _ _ (read_manifest_dir-Quiet calls.decode _) committed-Writes

    uri-Writes : Writes M last (checkpoint_uri cfg calls about snap uri)
    unfolding checkpoint_uri checkpoint_to
    uri-Writes =
        let Q = λ (p : Prog Outcome). Writes M last p in
        if_split Q (not uri.dir) _ _ (λ _. fail-Writes last _)
          (λ _.
            or_fails last (check_local_root uri cfg.local_artifact_root) _ _
              (λ e. fail-Writes last _)
              (λ _.
                if_split Q (not (eqb uri.scheme scheme_file)) _ _ (λ _. unless_committed-Writes)
                  (λ _. (
                    tt,
                    λ r.
                        Traced-or_return last_read (Sent M) last Ends r _ _
                          (λ e _. fail-Writes last _) (λ _. unless_committed-Writes),
                  ))))

  artifact-Writes :
      (a : Option ArtifactStatus) → Writes M last (checkpoint_artifact a cfg calls about snap)
  unfolding checkpoint_artifact
  artifact-Writes none = tt
  artifact-Writes (some a) = or_fails last (parse a.uri) _ _ (λ e. fail-Writes last _) uri-Writes

module _ (cfg : AgentConfig) (calls : Calls) (about : ObjectMeta) (running : Bool) where
  read-Writes :
      (r : Result ApiError PodSnapshot)
      → Writes M (last_read get r none) (reconcile_read cfg calls about running r)
  unfolding reconcile_read checkpoint
  read-Writes (err e) = tt
  read-Writes (ok snap) =
      let Q = λ (p : Prog Outcome). Writes M (some snap) p in
      if_split Q (not (owns cfg snap)) _ _ (λ _. tt)
        (λ _.
          if_split Q running _ _ (λ _. tt)
            (λ _. artifact-Writes cfg calls about snap (some snap) snap.status.artifact))

  -- Whatever the node and the API server answer, the checkpoint agent sends no update but one that
  -- leaves the phase it has just read, or makes it Completed or Failed.
  pub checkpoint-Writes : Writes M none (reconcile cfg calls about running)
  unfolding reconcile
  checkpoint-Writes = (tt, λ r. read-Writes r)
