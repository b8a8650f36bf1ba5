-- ===== src/Agent/Checkpoint/Guard.antt =====
-- The dump of the agent goes into a directory that was read back empty.
use pod_snapshotter.Base.{
  ℕ, zero, suc, Option, Bool, true, false, not, List, [], if_split, ◌≡◌, none, refl,
}
use pod_snapshotter.Base.Bytes.{Bytes, eqb}
use pod_snapshotter.Base.Result.{Result, ok, err}
use pod_snapshotter.Os.{◌>>=◌, Prog, OsError, or_else, Sandbox}
use pod_snapshotter.Os.Quiet.{Quiet, Quiet-bind, Quiet-or_else}
use pod_snapshotter.Artifact.Uri.{Uri, scheme_file}
use pod_snapshotter.Artifact.Manifest.{ManifestFile, Manifest, decode_manifest}
use pod_snapshotter.Artifact.Publish.{Action}
use pod_snapshotter.Artifact.Publish.Quiet.{describe_file-Quiet}
use pod_snapshotter.Artifact.Publish.QuietDir.{write_whole-Quiet, publish_dir-Quiet}
use pod_snapshotter.Api.Common.{Message, ApiError, not_found, conflict, unavailable}
use pod_snapshotter.Api.Snapshot.{PodSnapshot}
use pod_snapshotter.Controller.Env.{Outcome}
use pod_snapshotter.Agent.Config.{AgentConfig}
use pod_snapshotter.Agent.Checkpoint.{
  ObjectMeta, attempt, is_conflict, retry_on_conflict, write_status, fail, complete, retry, some,
}
use pod_snapshotter.Agent.Checkpoint.Parts.{add_file, contribute, read_task_spec, copy_into}
use pod_snapshotter.Agent.Checkpoint.Cleared.{
  NoDump, NoDump-bind, NoDump-DumpsEmpty, DumpsEmpty, KnownIfOk, empty_after, IntoEmpty, Anyhow,
  Quiet-NoDump, clear_artifact_dir-Clears,
}
use pod_snapshotter.Agent.Checkpoint.Dump.{
  Calls, read_manifest_dir, dst_dir, after_dump, checkpoint_to, clear_and_dump, dump_sandbox,
  if_committed, publish, run_dump, unless_committed,
}
use pod_snapshotter.Os.Laws.{Traced-bind, Traced-or_else, Traced-or_return}
use pod_snapshotter.Agent.Checkpoint.Clear.{clear_artifact_dir, max_depth}

add_file-Quiet :
    (sha : Bytes → Bytes) (dst name : Bytes) (r : Result OsError Bool) (files : List ManifestFile)
    (next : List ManifestFile → Action (List ManifestFile))
    → ((all : List ManifestFile) → Quiet (next all))
    → Quiet (add_file sha dst name r files next)
unfolding add_file
add_file-Quiet sha dst name (err e) files next h = h files
add_file-Quiet sha dst name (ok false) files next h = h files
add_file-Quiet sha dst name (ok true) files next h =
    Quiet-bind _ _ (describe_file-Quiet sha dst name)
      (λ r. Quiet-or_else r _ _ (λ m. h files) (λ entry. h _))

pub contribute-Quiet :
    (sha : Bytes → Bytes) (host upper dst : Bytes) → Quiet (contribute sha host upper dst)
unfolding contribute
contribute-Quiet sha host upper dst = (
  tt,
  λ r.
      add_file-Quiet sha dst _ r [] _
        (λ files. (tt, λ s. add_file-Quiet sha dst _ s files _ (λ all. tt))),
)

pub copy_into-Quiet : (src dst : Bytes) → Quiet (copy_into src dst)
unfolding copy_into
copy_into-Quiet src dst =
    (tt, λ r. Quiet-or_else r _ _ (λ e. tt) (λ raw. write_whole-Quiet dst raw))

pub read_task_spec-Quiet : (valid : Bytes → Bool) (id : Bytes) → Quiet (read_task_spec valid id)
unfolding read_task_spec
read_task_spec-Quiet valid id =
    if_split (λ (p : Action Bytes). Quiet p) (eqb id []) _ _ (λ _. tt)
      (λ _. (
        tt,
        λ r.
            Quiet-or_else r _ _ (λ e. tt)
              (λ raw.
                if_split (λ (p : Action Bytes). Quiet p) (not (valid raw)) _ _ (λ _. tt) (λ _. tt)),
      ))

pub read_manifest_dir-Quiet :
    (decode : Bytes → Option Manifest) (dir : Bytes) → Quiet (read_manifest_dir decode dir)
unfolding read_manifest_dir
read_manifest_dir-Quiet decode dir = (
  tt,
  λ r.
      Quiet-or_else r _ _ (λ e. tt)
        (λ body. Quiet-or_else (decode_manifest decode body) _ _ (λ e. tt) (λ m. tt)),
)

attempt-NoDump :
    (mutate : ℕ → PodSnapshot → PodSnapshot) (r : Result ApiError PodSnapshot)
    → NoDump (attempt mutate r)
unfolding attempt
attempt-NoDump mutate (err not_found) = tt
attempt-NoDump mutate (err conflict) = tt
attempt-NoDump mutate (err unavailable) = tt
attempt-NoDump mutate (ok cur) = (tt, λ t. (tt, λ e. tt))

retry-NoDump :
    (tries : ℕ) (mutate : ℕ → PodSnapshot → PodSnapshot) → NoDump (retry_on_conflict tries mutate)
unfolding retry_on_conflict
retry-NoDump zero mutate = tt
retry-NoDump (suc tries) mutate = (
  tt,
  λ r. NoDump-bind _ _ (attempt-NoDump mutate r) (λ e.
      if_split (λ (p : Prog (Option ApiError)). NoDump p) (is_conflict e) _ _
        (λ _. retry-NoDump tries mutate) (λ _. tt)),
)

fail-NoDump : (m : Message) → NoDump (fail m)
unfolding fail write_status
fail-NoDump m = NoDump-bind _ _ (retry-NoDump 5 _) (λ e. tt)

retry_later-NoDump : (m : Message) → NoDump (retry m)
unfolding retry write_status
retry_later-NoDump m = NoDump-bind _ _ (retry-NoDump 5 _) (λ e. tt)

module _ (cfg : AgentConfig) (calls : Calls) (about : ObjectMeta) (snap : PodSnapshot)
    (uri : Uri) where
  complete-NoDump : (image_dir : Bytes) (m : Manifest) → NoDump (complete uri image_dir m)
  unfolding complete write_status
  complete-NoDump image_dir m = NoDump-bind _ _ (retry-NoDump 5 _) (λ e. tt)

  abbrev Guarded : Bool → Prog Outcome → Type 0
  Guarded known p = DumpsEmpty (dst_dir cfg calls about snap uri) known p

  free : (known : Bool) (p : Prog Outcome) → NoDump p → Guarded known p
  free known p h = NoDump-DumpsEmpty (dst_dir cfg calls about snap uri) known p h

  abbrev dst : Bytes
  dst = dst_dir cfg calls about snap uri

  Guarded-bind {ℓ} :
      {A : Type ℓ} (known : Bool) (p : Prog A) (f : A → Prog Outcome)
      → Quiet p
      → ((k : Bool) (a : A) → Guarded k (f a))
      → Guarded known (p >>= f)
  Guarded-bind known p f h n =
      Traced-bind (empty_after dst) (IntoEmpty dst) known Anyhow Anyhow p f
        (NoDump-DumpsEmpty dst known p (Quiet-NoDump p h)) (λ k a _. n k a)

  or_fails {ℓ κ} :
      {E : Type κ} {B : Type ℓ} (known : Bool) (r : Result E B) (f : E → Prog Outcome)
      (rest : B → Prog Outcome)
      → ((e : E) → Guarded known (f e))
      → ((b : B) → Guarded known (rest b))
      → Guarded known (or_else r f rest)
  or_fails known r f rest early next =
      Traced-or_else (empty_after dst) (IntoEmpty dst) known Anyhow r f rest (λ e _. early e)
        (λ b _. next b)

  fails : (known : Bool) (m : Message) → Guarded known (fail m)
  fails known m = free known (fail m) (fail-NoDump m)

  publish-Guarded :
      (known : Bool) (spec upper : Bytes) (sandbox : Sandbox) (started : ℕ)
      → Guarded known (publish cfg calls about snap uri spec upper sandbox started)
  unfolding publish
  publish-Guarded known spec upper sandbox started =
      Guarded-bind known _ _
        (publish_dir-Quiet calls.sha calls.encode _
          (contribute-Quiet calls.sha cfg.host_root upper dst) calls.encode_meta calls.spec_first)
        (λ k r.
          or_fails k r _ _ (λ m. fails k _)
            (λ m. (tt, λ _. free k (complete uri _ m) (complete-NoDump _ m))))

  after_dump-Guarded :
      (known : Bool) (spec upper : Bytes) (sandbox : Sandbox) (started : ℕ)
      → Guarded known (after_dump cfg calls about snap uri spec upper sandbox started)
  unfolding after_dump
  after_dump-Guarded known spec upper sandbox started =
      Guarded-bind known _ _ (copy_into-Quiet _ _) (λ k r.
        or_fails k r _ _ (λ m. fails k _) (λ _. publish-Guarded k spec upper sandbox started))

  run_dump-Guarded :
      (known : Bool) (spec upper : Bytes) (sandbox : Sandbox)
      → known ≡ true
      → Guarded known (run_dump cfg calls about snap uri spec upper sandbox)
  unfolding run_dump
  run_dump-Guarded known spec upper sandbox h = (
    tt,
    λ started. (
      (h, refl),
      λ r.
          Traced-or_return (empty_after dst) (IntoEmpty dst) false Anyhow r _ _
            (λ e _. fails false _) (λ _. after_dump-Guarded false spec upper sandbox started),
    ),
  )

  after_clear :
      (known : Bool) (r : Result Message (Unit {0})) (f : Message → Prog Outcome)
      (rest : Unit {0} → Prog Outcome)
      → KnownIfOk dst known r
      → ((m : Message) → Guarded known (f m))
      → (known ≡ true → Guarded known (rest tt))
      → Guarded known (or_else r f rest)
  after_clear known (ok u) f rest h early next = next h
  after_clear known (err m) f rest h early next = early m

  clear-Guarded :
      (known : Bool) (spec upper : Bytes) (sandbox : Sandbox)
      → Guarded known (clear_and_dump cfg calls about snap uri spec upper sandbox)
  unfolding clear_and_dump
  clear-Guarded known spec upper sandbox =
      Traced-bind (empty_after dst) (IntoEmpty dst) known (KnownIfOk dst) Anyhow
        (clear_artifact_dir max_depth dst) _ (clear_artifact_dir-Clears dst max_depth known)
        (λ k r h.
          after_clear k r _ _ h (λ m. fails k _)
            (λ e. (
              tt,
              λ s.
                  Traced-or_return (empty_after dst) (IntoEmpty dst) k Anyhow s _ _ (λ _ _. tt)
                    (λ _. run_dump-Guarded k spec upper sandbox e),
            )))

  sandbox-Guarded :
      (known : Bool) (sandbox : Sandbox)
      → Guarded known (dump_sandbox cfg calls about snap uri sandbox)
  unfolding dump_sandbox
  sandbox-Guarded known sandbox =
      Guarded-bind known _ _ (read_task_spec-Quiet calls.json_valid sandbox.keeper_container_id)
        (λ k r.
          or_fails k r _ _ (λ m. fails k _) (λ spec. (tt, λ upper. clear-Guarded k spec _ sandbox)))

  committed-Guarded :
      (known : Bool) (m : Option Manifest) → Guarded known (if_committed cfg calls about snap uri m)
  unfolding if_committed
  committed-Guarded known (some m) = free known _ (complete-NoDump _ m)
  committed-Guarded known none = (
    tt,
    λ r.
        or_fails known r _ _ (λ e. free known _ (retry_later-NoDump _))
          (λ sandbox. sandbox-Guarded known sandbox),
  )

  unless_committed-Guarded :
      (known : Bool) → Guarded known (unless_committed cfg calls about snap uri)
  unfolding unless_committed
  unless_committed-Guarded known =
      Guarded-bind known _ _ (read_manifest_dir-Quiet calls.decode dst) committed-Guarded

  -- The agent runs runc's dump only into the snapshot's own image directory, and only when the last
  -- reading of the artifact's directory showed it empty or missing and no file or directory was made
  -- since, whatever the calls before have answered.
  pub checkpoint_to-DumpsEmpty : DumpsEmpty dst false (checkpoint_to cfg calls about snap uri)
  unfolding checkpoint_to
  checkpoint_to-DumpsEmpty =
      if_split (λ (p : Prog Outcome). Guarded false p) (not (eqb uri.scheme scheme_file)) _ _
        (λ _. unless_committed-Guarded false)
        (λ _. (
          tt,
          λ r.
              Traced-or_return (empty_after dst) (IntoEmpty dst) false Anyhow r _ _
                (λ e _. fails false _) (λ _. unless_committed-Guarded false),
        ))
