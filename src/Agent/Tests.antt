-- ===== src/Agent/Tests.antt =====
-- The agents at concrete inputs.
use pod_snapshotter.Base.{◌≡◌, ◌≤◌, none, some, true, false, [], ◌∷◌, List, ◌<◌, ◌++◌, length}
use pod_snapshotter.Base.Bytes.{Bytes, codes, eqb}
use pod_snapshotter.Base.Int.{pos}
use pod_snapshotter.Base.Result.{ok, err}
use pod_snapshotter.Artifact.Uri.{Uri, scheme_fuse, format_dir}
use pod_snapshotter.Artifact.Manifest.{Manifest}
use pod_snapshotter.Artifact.Publish.Expand.{Archive}
use pod_snapshotter.Api.Common.{no_message, fixed, not_found, conflict}
use pod_snapshotter.Api.Snapshot.{PodSnapshot, checkpointed, checkpointer_agent}
use pod_snapshotter.Controller.Snapshot.{Config, State}
use pod_snapshotter.Os.{
  Op, Answer, not_exist, mkdir_all, remove, remove_all, create, sync, close, stat, open_file,
  read_file, read_dir, walk, write, rename, resolve, overlay_upper_dir, capture_shm, capture_rootfs,
  dump, head, get, update, now,
}
use pod_snapshotter.Os.Laws.{Writes, Issues, sends, later}
use pod_snapshotter.Agent.Config.{AgentConfig}
use pod_snapshotter.Agent.Quiesce
use pod_snapshotter.Agent.Upload
use pod_snapshotter.Agent.Upload.{claimed, claim}
use pod_snapshotter.Agent.Checkpoint.{ObjectMeta, write_status, failed_dump}
use pod_snapshotter.Agent.Checkpoint.Dump
use pod_snapshotter.Agent.Checkpoint.Dump.{Calls, checkpoint_to, dst_dir}
use pod_snapshotter.Agent.Checkpoint.Cleared.{DumpsEmpty}
use pod_snapshotter.Agent.Checkpoint.Guard.{checkpoint_to-DumpsEmpty}
use pod_snapshotter.Agent.Moves.{OnPhases, QuiesceMoves, quiesce-Writes}
use pod_snapshotter.Agent.UploadMoves.{UploadMoves, upload-Writes}
use pod_snapshotter.Agent.CheckpointMoves.{CheckpointMoves, checkpoint-Writes}
use pod_snapshotter.Agent.Server.{
  run, left, Turn, lagging, overtaken, undisturbed, write_status-stores,
}
use pod_snapshotter.Agent.System.{here, next, uploads, rank_of, Reach-rank}

abbrev agent : AgentConfig
agent = record {
  node_name = codes "n1";
  fuse_mount = codes "/mnt/fuse";
  local_artifact_root = [];
  checkpoints_host_path = [];
  work_root = codes "/work";
  host_root = [];
  digest = false;
  verify_fuse = false;
}

abbrev snap : PodSnapshot
snap = record {
  namespace = codes "ml";
  name = codes "s";
  deleting = false;
  finalizer = false;
  spec = record {
    pod_name = codes "vllm";
    container = [];
    artifact_uri = [];
    artifact_format = format_dir;
    deletion_policy = codes "Retain";
    timeout_seconds = pos 0;
    checkpointer = checkpointer_agent;
  };
  status = record {
    phase = checkpointed;
    node_name = codes "n1";
    pod_uid = codes "u1";
    container = codes "main";
    kubelet_checkpoint_path = codes "/c.tar";
    artifact = none;
    quiesce = none;
    conditions = [];
    message = no_message;
    started_at = some 1;
    completed_at = none;
  };
}

abbrev no_digest : Bytes → Bytes
no_digest body = []

abbrev count : Manifest → Bytes
count m = m.total_bytes ∷ []

abbrev calls : Calls
calls = record {
  sha = no_digest;
  encode = count;
  decode = λ body. none;
  encode_meta = λ m. ok m.id;
  json_valid = λ body. true;
  spec_first = false;
}

abbrev about : ObjectMeta
about = record { uid = codes "u9"; annotations = [] }

abbrev place : Uri
place = record { scheme = scheme_fuse; path = codes "/a/b"; dir = true }

abbrev nothing : Archive
nothing = ([], none)

checkpoint_to-DumpsEmpty_example :
    DumpsEmpty
      (dst_dir agent calls about snap place)
      false
      (checkpoint_to agent calls about snap place)
checkpoint_to-DumpsEmpty_example = checkpoint_to-DumpsEmpty agent calls about snap place

quiesce-Writes_example : Writes (OnPhases QuiesceMoves) none (Quiesce.reconcile agent)
quiesce-Writes_example = quiesce-Writes agent

upload-Writes_example :
    Writes (OnPhases UploadMoves) none (Upload.reconcile agent no_digest count nothing)
upload-Writes_example = upload-Writes agent no_digest count nothing

checkpoint-Writes_example :
    Writes (OnPhases CheckpointMoves) none (Dump.reconcile agent calls about false)
checkpoint-Writes_example = checkpoint-Writes agent calls about false

-- Answers of a node where everything is missing.
missing : (o : Op) → Answer o
missing (mkdir_all p) = some not_exist
missing (remove p) = some not_exist
missing (remove_all p) = some not_exist
missing (create p) = some not_exist
missing (sync p) = some not_exist
missing (close p) = some not_exist
missing (stat p) = err not_exist
missing (open_file p) = some not_exist
missing (read_file p) = err not_exist
missing (read_dir p) = err not_exist
missing (walk p) = err not_exist
missing (write p body) = some not_exist
missing (rename p q) = some not_exist
missing (resolve uid container) = err not_exist
missing (overlay_upper_dir pid) = err not_exist
missing (capture_shm spec host out) = err not_exist
missing (capture_rootfs upper host out) = err not_exist
missing (dump opts) = some not_exist
missing (head p) = some not_exist
missing get = err not_found
missing (update s) = some not_found
missing now = 0

abbrev noted : PodSnapshot
noted = record snap { status = record snap.status { message = fixed "manager" } }

-- The cache lags once, and then the manager writes in between.
abbrev delays : List Turn
delays = lagging snap ∷ overtaken noted ∷ []

write_status-stores_example :
    (length delays < 5
      → run 7 missing
          (write_status (failed_dump no_message))
          (record { stored = snap; turns = delays ++ undisturbed ∷ [] })
        ≡ (none, record { stored = failed_dump no_message 7 (left delays snap); turns = [] }))
    × (length delays ≡ 5
        → run 7 missing
            (write_status (failed_dump no_message))
            (record { stored = snap; turns = delays ++ [] })
          ≡ (some conflict, record { stored = left delays snap; turns = [] }))
write_status-stores_example =
    write_status-stores 7 missing (failed_dump no_message) delays [] snap (tt, (tt, tt))

abbrev config : Config
config = record { require_prereqs = false; artifact_root = []; has_deleter = false }

abbrev before : State
before = record { stored = snap; inflight = false; calls = [] }

-- The upload agent reads the snapshot and claims it.
claim-Issues : Issues none (Upload.reconcile agent no_digest count nothing) snap (claimed snap)
unfolding Upload.reconcile Upload.reconcile_read Upload.by_phase claim eqb
claim-Issues = later (ok snap) sends

Reach-rank_example : rank_of before ≤ rank_of (record before { stored = claimed snap })
Reach-rank_example =
    Reach-rank config
      (next here (uploads agent no_digest count nothing before (claimed snap) claim-Issues))
