-- ===== src/Controller/Build/Observed.antt =====
-- The environment tuple that a build records.
use pod_snapshotter.Base.{
  ◌≡◌, refl, none, some, false, [], ◌⊎◌, inl, arith, if_split, inr, not, ◌∙◌, Bool-cases, ◌≢◌,
}
use pod_snapshotter.Base.Result.{ok, Result-cases}
use pod_snapshotter.Api.Compat.{
  CompatibilityKey, mismatch, first_mismatch, differs, parse_compatibility,
}
use pod_snapshotter.Controller.Build.{BuildEnv}
use pod_snapshotter.Controller.Build.Handlers.{
  with_observed, with_image, or_observed, observe_compatibility, or_no_key,
}
use pod_snapshotter.Base.Bytes.{Bytes, eqb_iff, codes, eqb}
use pod_snapshotter.Api.Build.{SnapshotBuild}
use pod_snapshotter.Controller.Env.{LivePod}
use pod_snapshotter.Controller.Builder.{build_container}

-- Nothing is pinned, or what the node has.
abbrev pub IsOpen : Bytes → Bytes → Type 0
IsOpen pinned got = (pinned ≡ []) ⊎ (pinned ≡ got)

-- Such a field does not differ from the node's.
same_field :
    (what pinned got : Bytes)
    → IsOpen pinned got
    → differs (record { what = what; want = or_observed pinned got; got = got }) ≡ false
unfolding differs
same_field what pinned got (inl e) = ground (arith, eqb_iff pinned [], eqb_iff got got)
same_field what pinned got (inr e) =
    ground (arith, eqb_iff pinned [], eqb_iff got got, eqb_iff pinned got)

-- The image's digest does not matter on a node.
mismatch-with_image :
    (b : SnapshotBuild) (pod : LivePod) (key node : CompatibilityKey)
    → mismatch (with_image b pod key) node ≡ mismatch key node
unfolding with_image mismatch
mismatch-with_image b pod key node =
    if_split (λ k. mismatch k node ≡ mismatch key node) (not (eqb key.image_digest [])) _ _
      (λ _. refl)
      (λ _. elim (Result-cases (build_container b.spec)) [
        | inl (e, q) ↦ rw q refl
        | inr (c, q) ↦ rw q refl
      ])

-- What is pinned stays, and what is not is what the node has.
abbrev pub IsRecorded : Bytes → Bytes → Bytes → Type 0
IsRecorded pinned got recorded = (pinned ≢ [] → recorded ≡ pinned) × (pinned ≡ [] → recorded ≡ got)

-- The three fields of a node.
abbrev pub AreRecorded : CompatibilityKey → CompatibilityKey → CompatibilityKey → Type 0
AreRecorded pinned node recorded =
    IsRecorded pinned.gpu_model node.gpu_model recorded.gpu_model
    × IsRecorded pinned.driver_version node.driver_version recorded.driver_version
    × IsRecorded pinned.criu_version node.criu_version recorded.criu_version

or_observed-IsRecorded : (pinned got : Bytes) → IsRecorded pinned got (or_observed pinned got)
or_observed-IsRecorded pinned got = elim (Bool-cases (eqb pinned [])) [
  | inl t ↦ rw t (λ n. absurd (n ((eqb_iff pinned []).0 t)), λ _. refl)
  | inr t ↦ rw t (λ n. refl, λ e. absurd (cc (t, (eqb_iff pinned []).1 e)))
]

with_image-AreRecorded :
    (b : SnapshotBuild) (pod : LivePod) (pinned node key : CompatibilityKey)
    → AreRecorded pinned node key
    → AreRecorded pinned node (with_image b pod key)
unfolding with_image
with_image-AreRecorded b pod pinned node key h =
    if_split (AreRecorded pinned node) (not (eqb key.image_digest [])) _ _ (λ _. h)
      (λ _. elim (Result-cases (build_container b.spec)) [
        | inl (e, q) ↦ rw q h
        | inr (c, q) ↦ rw q h
      ])

observe_compatibility-AreRecorded :
    (env : BuildEnv) (b : SnapshotBuild) (pod : LivePod) (raw : Bytes)
    → env.node_tuple pod.node_name ≡ ok (some raw)
    → AreRecorded
        (or_no_key b.spec.compatibility)
        (parse_compatibility raw)
        (observe_compatibility env b pod)
unfolding observe_compatibility with_observed
observe_compatibility-AreRecorded env b pod raw q =
    let pinned = or_no_key b.spec.compatibility in
    let node = parse_compatibility raw in
    with_image-AreRecorded b pod pinned node (with_observed pinned (env.node_tuple pod.node_name)) (
      rw q (
        or_observed-IsRecorded pinned.gpu_model node.gpu_model,
        or_observed-IsRecorded pinned.driver_version node.driver_version,
        or_observed-IsRecorded pinned.criu_version node.criu_version,
      ))

observed-matches :
    (env : BuildEnv) (b : SnapshotBuild) (pod : LivePod) (raw : Bytes)
    → env.node_tuple pod.node_name ≡ ok (some raw)
    → IsOpen (or_no_key b.spec.compatibility).gpu_model (parse_compatibility raw).gpu_model
    → IsOpen
        (or_no_key b.spec.compatibility).driver_version
        (parse_compatibility raw).driver_version
    → IsOpen (or_no_key b.spec.compatibility).criu_version (parse_compatibility raw).criu_version
    → mismatch (observe_compatibility env b pod) (parse_compatibility raw) ≡ none
unfolding observe_compatibility
observed-matches env b pod raw q g d c =
    mismatch-with_image b pod
      (with_observed (or_no_key b.spec.compatibility) (env.node_tuple pod.node_name))
      (parse_compatibility raw)
    ∙ rw q (
        unfold mismatch in
        unfold first_mismatch in
        unfold with_observed in
        simp (
          same_field (codes "GPU model") _ _ g,
          same_field (codes "NVIDIA driver") _ _ d,
          same_field (codes "CRIU version") _ _ c,
        ))

-- The tuple that a build records of its node has each of the GPU model, the driver and the CRIU
-- version as it is pinned, and what the node's annotation says where it is not. Where every field
-- that is pinned is what the node has, the node's own annotation matches that tuple.
pub observe_compatibility-fits :
    (env : BuildEnv) (b : SnapshotBuild) (pod : LivePod) (raw : Bytes)
    → env.node_tuple pod.node_name ≡ ok (some raw)
    → AreRecorded
        (or_no_key b.spec.compatibility)
        (parse_compatibility raw)
        (observe_compatibility env b pod)
      × (IsOpen (or_no_key b.spec.compatibility).gpu_model (parse_compatibility raw).gpu_model
          → IsOpen
              (or_no_key b.spec.compatibility).driver_version
              (parse_compatibility raw).driver_version
          → IsOpen
              (or_no_key b.spec.compatibility).criu_version
              (parse_compatibility raw).criu_version
          → mismatch (observe_compatibility env b pod) (parse_compatibility raw) ≡ none)
observe_compatibility-fits env b pod raw q =
    (observe_compatibility-AreRecorded env b pod raw q, observed-matches env b pod raw q)
