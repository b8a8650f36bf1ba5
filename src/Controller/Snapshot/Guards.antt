-- ===== src/Controller/Snapshot/Guards.antt =====
-- What has been checked when a snapshot leaves the phase Pending for a dump.
use mathlib.Core.Option.{none}
use pod_snapshotter.Controller.Snapshot.Pending.Laws.{
  target_pod-phase, or_fail-phase, node_ready-phase,
}
use pod_snapshotter.Base.{
  ◌⊎◌, Bool-cases, ◌∙◌, ◌≡◌, Bool, true, false, arith, inl, inr, ap, Option, Option-cases, refl,
  some,
}
use pod_snapshotter.Base.Bytes.{Bytes, codes, eqb}
use pod_snapshotter.Base.Result.{Result, ok, err, Result-cases, ok-injective}
use pod_snapshotter.Artifact.Uri.{Uri}
use pod_snapshotter.Api.Common.{Message, Pod, Node, prereqs_annotation, no_message}
use pod_snapshotter.Api.Snapshot.{
  PodSnapshot, SnapshotPhase, quiescing, checkpointing, QuiesceStatus,
}
use pod_snapshotter.Controller.Steps.{finish_bind}
use pod_snapshotter.Controller.Env.{Env, done}
use pod_snapshotter.Controller.Snapshot.{Config, State, write, condition}
use pod_snapshotter.Controller.Snapshot.Pending.{
  is_running, or_fail, target_pod, node_ready, snapshot_uri, text_of, resolve_container, Run,
  resolved, start, reconcile_pending, resolve_quiesce,
}

-- A dump is under way, or the workload is asked to park for it.
abbrev pub is_started : SnapshotPhase → Bool
is_started quiescing = true
is_started checkpointing = true
is_started _ = false

-- Everything that the start of a dump rests on.
pub record IsStart (cfg : Config) (env : Env PodSnapshot) (snap after : PodSnapshot) : Type 0 where
  pub pod : Pod
  pub container : Bytes
  pub uri : Uri
  pub pod_found : env.pod snap.spec.pod_name ≡ ok pod
  pub pod_runs : is_running pod.phase ≡ true
  pub container_chosen : resolve_container snap.spec.container pod ≡ ok container
  pub node_checked :
      (cfg.require_prereqs ≡ false)
      ⊎ ((node : Node) × (env.node pod.node_name ≡ ok node)
          × (eqb (node.annotations prereqs_annotation) (codes "ok") ≡ true))
  pub uri_parsed : snapshot_uri cfg env snap container ≡ ok uri
  pub node_recorded : after.status.node_name ≡ pod.node_name
  pub uid_recorded : after.status.pod_uid ≡ pod.uid
  pub container_recorded : after.status.container ≡ container

module _ (cfg : Config) (env : Env PodSnapshot) (snap : PodSnapshot) (s : State) where
  pod_of_step :
      (pod : Pod)
      → target_pod cfg env snap s ≡ ok pod
      → (env.pod snap.spec.pod_name ≡ ok pod) × (is_running pod.phase ≡ true)
  unfolding target_pod
  pod_of_step pod h = (ground arith, ground arith)

  node_of_step :
      (pod : Pod)
      → node_ready cfg env snap pod s ≡ ok tt
      → (cfg.require_prereqs ≡ false)
        ⊎ ((node : Node) × (env.node pod.node_name ≡ ok node)
            × (eqb (node.annotations prereqs_annotation) (codes "ok") ≡ true))
  unfolding node_ready
  node_of_step pod h = elim (Bool-cases cfg.require_prereqs) [
    | inr c ↦ inl c
    | inl c ↦ elim (Result-cases (env.node pod.node_name)) [
      | inl (e, q) ↦ absurd (cc (rw (c, q, node_ready) at h))
      | inr (node, q) ↦ inr (node, q, ground arith)
    ]
  ]

  value_of_step {ℓ} :
      {A : Type ℓ} (t : PodSnapshot) (x : Result Message A) (a : A)
      → or_fail cfg env t s x ≡ ok a
      → x ≡ ok a
  unfolding or_fail
  value_of_step t (ok b) a h = ap ok (ok-injective h)
  value_of_step t (err m) a h = absurd (cc)

  uri_of_text :
      (c : Bytes) (uri : Uri)
      → text_of (snapshot_uri cfg env snap c) ≡ ok uri
      → snapshot_uri cfg env snap c ≡ ok uri
  uri_of_text c uri h = ground arith

-- The last step keeps what was resolved.
start_lem :
    (snap : PodSnapshot) (q : Option QuiesceStatus)
    → ((start snap q).status.node_name ≡ snap.status.node_name)
      × ((start snap q).status.pod_uid ≡ snap.status.pod_uid)
      × ((start snap q).status.container ≡ snap.status.container)
unfolding start condition
start_lem snap none = (refl, refl, refl)
start_lem snap (some q) = (refl, refl, refl)

resolved_lem :
    (snap : PodSnapshot) (pod : Pod) (container : Bytes) (uri : Uri)
    → ((resolved snap pod container uri).status.node_name ≡ pod.node_name)
      × ((resolved snap pod container uri).status.pod_uid ≡ pod.uid)
      × ((resolved snap pod container uri).status.container ≡ container)
unfolding resolved
resolved_lem snap pod container uri = (refl, refl, refl)

abbrev Checked : Config → Env PodSnapshot → PodSnapshot → Run → Type 0
Checked cfg env snap r = is_started r.0.stored.status.phase ≡ true → IsStart cfg env snap r.0.stored

abbrev NotStarted : State → Type 0
NotStarted t = is_started t.stored.status.phase ≡ false

abbrev Unstarted : SnapshotPhase → Type 0
Unstarted p = is_started p ≡ false

stores-NotStarted :
    (s : State) (snap : PodSnapshot)
    → NotStarted s
    → Unstarted snap.status.phase
    → NotStarted (record s { stored = snap })
stores-NotStarted s snap h k = k

module _ (cfg : Config) (env : Env PodSnapshot) (snap : PodSnapshot) (s : State)
    (before : NotStarted s) where
  early : (r : Run) → NotStarted r.0 → Checked cfg env snap r
  early r h started = absurd (cc (h, started))

  module _ (pod : Pod) (container : Bytes) (uri : Uri) (found : target_pod cfg env snap s ≡ ok pod)
      (chosen : resolve_container snap.spec.container pod ≡ ok container)
      (ready : node_ready cfg env snap pod s ≡ ok tt)
      (parsed : snapshot_uri cfg env snap container ≡ ok uri) where
    abbrev named : PodSnapshot
    named = resolved (condition "NodeReady" true "PrereqsMet" no_message snap) pod container uri

    started : (q : Option QuiesceStatus) → Checked cfg env snap (write env (start named q) s done)
    unfolding write
    started q = elim (Option-cases (env.refuse (start named q))) [
      | inr (e, x) ↦ rw x (early (s, done) before)
      | inl x ↦ rw x (λ _. record {
        pod = pod;
        container = container;
        uri = uri;
        pod_found = (pod_of_step cfg env snap s pod found).0;
        pod_runs = (pod_of_step cfg env snap s pod found).1;
        container_chosen = chosen;
        node_checked = node_of_step cfg env snap s pod ready;
        uri_parsed = parsed;
        node_recorded = (start_lem named q).0 ∙ (resolved_lem _ pod container uri).0;
        uid_recorded = (start_lem named q).1 ∙ (resolved_lem _ pod container uri).1;
        container_recorded = (start_lem named q).2 ∙ (resolved_lem _ pod container uri).2;
      })
    ]

module _ (cfg : Config) (env : Env PodSnapshot) (snap : PodSnapshot) (s : State)
    (before : NotStarted s) (unstarted : Unstarted snap.status.phase) where
  abbrev Q : Run → Type 0
  Q r = Checked cfg env snap r

  stop : (r : Run) → NotStarted r.0 → Q r
  stop r h = early cfg env snap s before r h

  reconcile_pending-Checked : Checked cfg env snap (reconcile_pending cfg env snap s)
  unfolding reconcile_pending
  reconcile_pending-Checked =
      finish_bind Q (target_pod cfg env snap s) _
        (λ r h. stop r (
          target_pod-phase NotStarted Unstarted stores-NotStarted cfg env s before refl snap r
            unstarted h))
        (λ pod found.
          finish_bind Q (or_fail cfg env snap s (resolve_container snap.spec.container pod)) _
            (λ r h. stop r (
              or_fail-phase NotStarted Unstarted stores-NotStarted cfg env s before refl snap _ r
                h))
            (λ container chosen.
              finish_bind Q (node_ready cfg env snap pod s) _
                (λ r h. stop r (
                  node_ready-phase NotStarted Unstarted stores-NotStarted cfg env s before refl snap
                    pod r unstarted h))
                (λ _ ready.
                  finish_bind Q
                    (or_fail cfg env _ s (text_of (snapshot_uri cfg env snap container))) _
                    (λ r h. stop r (
                      or_fail-phase NotStarted Unstarted stores-NotStarted cfg env s before refl _ _
                        r h))
                    (λ uri parsed.
                      finish_bind Q
                        (or_fail cfg env _ s (resolve_quiesce env.parse_duration env.now pod)) _
                        (λ r h. stop r (
                          or_fail-phase NotStarted Unstarted stores-NotStarted cfg env s before refl
                            _ _ r h))
                        (λ quiesce _.
                          started cfg env snap s before pod container uri found
                            (value_of_step cfg env snap s snap _ container chosen) ready
                            (uri_of_text cfg env snap s container uri
                              (value_of_step cfg env snap s _ _ uri parsed))
                            quiesce)))))

  -- A run in Pending, on an object that is in neither of the two phases before, that leaves it in
  -- Quiescing or Checkpointing has found the pod, which
  -- was running, the container and a valid artifact URI, has seen the node's prerequisites where
  -- they are required, and has stored the pod's node and UID and the container.
  pub reconcile_pending-IsStart :
      is_started (reconcile_pending cfg env snap s).0.stored.status.phase ≡ true
      → IsStart cfg env snap (reconcile_pending cfg env snap s).0.stored
  reconcile_pending-IsStart h = reconcile_pending-Checked h
