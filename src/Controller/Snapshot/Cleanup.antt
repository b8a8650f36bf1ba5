-- ===== src/Controller/Snapshot/Cleanup.antt =====
-- The finalizer of a PodSnapshot with the deletion policy Delete.
use pod_snapshotter.Base.{◌≡◌, true, false, some, Bool-cases, inl, inr, [], ap}
use pod_snapshotter.Base.Bytes.{eqb}
use pod_snapshotter.Base.Result.{ok}
use pod_snapshotter.Artifact.Uri.{Uri, parse}
use pod_snapshotter.Api.Snapshot.{PodSnapshot, ArtifactStatus, deletion_policy_delete}
use pod_snapshotter.Controller.Env.{Env}
use pod_snapshotter.Controller.Snapshot.{Config, State}
use pod_snapshotter.Controller.Snapshot.Checkpointing.{
  deletion, try_again, by_deletion, reconcile_delete,
}

module _ (cfg : Config) (env : Env PodSnapshot) (s : State) (a : ArtifactStatus) (uri : Uri)
    (held : s.stored.finalizer ≡ true)
    (policy : eqb s.stored.spec.deletion_policy deletion_policy_delete ≡ true)
    (has_artifact : s.stored.status.artifact ≡ some a) (named : eqb a.uri [] ≡ false)
    (parsed : parse a.uri ≡ ok uri) (deleter : cfg.has_deleter ≡ true) where
  deletion-failed : env.delete_artifact uri ≡ false → deletion cfg env s.stored ≡ try_again
  unfolding deletion
  deletion-failed d = simp (held, policy, has_artifact, named, parsed, deleter, d)

  -- The finalizer of a snapshot whose policy is Delete is released only by a run in which the
  -- deletion of its artifact succeeded, where the artifact is recorded with a location that parses
  -- and a deleter is configured.
  pub reconcile_delete-cleaned :
      (reconcile_delete cfg env s.stored s).0.stored.finalizer ≡ false
      → env.delete_artifact uri ≡ true
  unfolding reconcile_delete by_deletion
  reconcile_delete-cleaned h = elim (Bool-cases (env.delete_artifact uri)) [
    | inl d ↦ d
    | inr d ↦ absurd (
        cc (
          held,
          ap (λ x. (by_deletion x env s.stored s).0.stored.finalizer) (deletion-failed d),
          h,
        ))
  ]
