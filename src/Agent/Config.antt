-- ===== src/Agent/Config.antt =====
-- What the reconcilers of internal/agent share: their configuration, and how they set a status.
use pod_snapshotter.Base.{
  ℕ, ◌+◌, ◌/◌, ◌%◌, zero, suc, Bool, ltb, Option, some, List, [], ◌∷◌, ◌++◌, if◌then◌else◌, none,
}
use pod_snapshotter.Base.Bytes.{Bytes, codes}
use pod_snapshotter.Base.Int.{ℤ, pos, negsuc}
use pod_snapshotter.Go.Path.{join_path}
use pod_snapshotter.Api.Common.{ApiError, not_found}
use pod_snapshotter.Api.Snapshot.{PodSnapshot}
use pod_snapshotter.Controller.Env.{Outcome, done, failed_with}
use pod_snapshotter.Os.{Prog, ret, ask, ◌>>=◌, update}

-- The fields of the reconcilers that a run reads. `verify_fuse` is whether VerifyFuse is set.
pub record AgentConfig : Type 0 where
  pub node_name : Bytes
  pub fuse_mount : Bytes
  pub local_artifact_root : Bytes
  pub checkpoints_host_path : Bytes
  pub work_root : Bytes
  pub host_root : Bytes
  pub digest : Bool
  pub verify_fuse : Bool

-- client.IgnoreNotFound
abbrev pub ignore_not_found : ApiError → Outcome
ignore_not_found not_found = done
ignore_not_found e = failed_with e

abbrev pub finished : Outcome → Option ApiError → Outcome
finished outcome none = outcome
finished outcome (some e) = failed_with e

-- `return outcome` after `r.Status().Update(ctx, snap)`, whose error is returned.
abbrev pub update_then : PodSnapshot → Outcome → Prog Outcome
update_then snap outcome = do e ← ask (update snap); ret (finished outcome e)

-- `%d` of a number: the digits, the fuel being at least their count.
unfoldable pub digits : ℕ → ℕ → Bytes
digits zero n = []
digits (suc fuel) n =
    let before = digits fuel (n / 10) in
    if ltb n 10 then (b'0' + n) ∷ [] else before ++ (b'0' + n % 10) ∷ []

-- `%d` of an int
unfoldable pub decimal : ℤ → Bytes
decimal (pos n) = digits (suc n) n
decimal (negsuc n) = b'-' ∷ digits (suc (suc n)) (suc n)

-- containerPath of quiesce_controller.go
unfoldable pub container_path : ℤ → List Bytes → Bytes
container_path pid elements =
    join_path ((codes "/proc/" ++ (decimal pid ++ codes "/root")) ∷ elements)
