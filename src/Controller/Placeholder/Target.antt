-- ===== src/Controller/Placeholder/Target.antt =====
-- Which container of the template the placeholder pod keeps free, and where the pod may run.
use mathlib.Core.Option.{none}
use pod_snapshotter.Base.{
  subst, ◌≡◌, ◌⊎◌, refl, ap, Option, some, inl, inr, [], ◌∷◌, ◌++◌, List, if_split, ◌≢◌, Bool-cases,
  if◌then◌else◌,
}
use pod_snapshotter.Base.Bytes.{codes, Bytes, eqb, eqb_iff}
use pod_snapshotter.Base.Result.{ok, err, Result-cases, ok-injective, Result}
use pod_snapshotter.Api.Common.{format1, Message}
use pod_snapshotter.Api.Restore.{PodRestore, Container, PodRestoreSpec}
use pod_snapshotter.Controller.Placeholder.{
  NewPod, keeper, merged, with_key, selector_of, build_placeholder_pod, find_container,
  target_container,
}
use pod_snapshotter.Api.Compat.{node_hash, compatibility_hash_label}

abbrev Found : Type 0
Found = List Container × Container × List Container

-- A split of the list at a container of that name.
abbrev AtName : Bytes → List Container → Found → Type 0
AtName name l f = (l ≡ f.0 ++ (f.1 ∷ f.2)) × (f.1.name ≡ name)

abbrev IfSome : (Found → Type 0) → Option Found → Type 0
IfSome P none = Unit
IfSome P (some f) = P f

later-AtName :
    (name : Bytes) (c : Container) (rest : List Container) (x : Option Found)
    → IfSome (AtName name rest) x
    → IfSome (AtName name (c ∷ rest)) (elim x [ none ↦ none | some f ↦ some (c ∷ f.0, f.1, f.2) ])
later-AtName name c rest none h = tt
later-AtName name c rest (some f) h = (ap (λ l. c ∷ l) h.0, h.1)

find_container-AtName :
    (name : Bytes) (l : List Container) → IfSome (AtName name l) (find_container name l)
unfolding find_container
find_container-AtName name [] = tt
find_container-AtName name (c ∷ rest) =
    if_split (IfSome (AtName name (c ∷ rest))) (eqb c.name name) _ _
      (λ e. (refl, (eqb_iff c.name name).0 e))
      (λ _. later-AtName name c rest (find_container name rest) (find_container-AtName name rest))

-- A split of the template's containers at the one that the spec names, or at the first one where it
-- names none.
abbrev pub IsTarget : PodRestoreSpec → Found → Type 0
IsTarget spec f =
    (spec.pod_template.containers ≡ f.0 ++ (f.1 ∷ f.2))
    × ((f.1.name ≡ spec.container) ⊎ ((spec.container ≡ []) × (f.0 ≡ [])))

abbrev IfOk {ℓ} : {A : Type ℓ} → (A → Type 0) → Result Message A → Type 0
IfOk P (ok a) = P a
IfOk P (err m) = Unit

first_or_empty :
    (l : List Container) → (l ≡ []) ⊎ ((c : Container) × (rest : List Container) × (l ≡ c ∷ rest))
first_or_empty [] = inl refl
first_or_empty (c ∷ rest) = inr (c, rest, refl)

named-IsTarget :
    (spec : PodRestoreSpec) (m : Message) (x : Option Found)
    → IfSome (AtName spec.container spec.pod_template.containers) x
    → IfOk (IsTarget spec) (elim x [ none ↦ err m | some f ↦ ok f ])
named-IsTarget spec m none h = tt
named-IsTarget spec m (some f) h = (h.0, inl h.1)

target_container-IsTarget : (spec : PodRestoreSpec) → IfOk (IsTarget spec) (target_container spec)
unfolding target_container
target_container-IsTarget spec = elim (first_or_empty spec.pod_template.containers) [
  | inl e ↦ rw (e, target_container) tt
  | inr (c, rest, e) ↦
      let named =
        named-IsTarget spec (format1 "container %q not found in spec.podTemplate" spec.container)
          (find_container spec.container spec.pod_template.containers)
          (find_container-AtName spec.container spec.pod_template.containers) in
      rw (e, target_container)
        (if_split
          (IfOk (λ f.
            (c ∷ rest ≡ f.0 ++ (f.1 ∷ f.2))
            × ((f.1.name ≡ spec.container) ⊎ ((spec.container ≡ []) × (f.0 ≡ [])))))
          (eqb spec.container []) _ _ (λ b. (refl, inr ((eqb_iff spec.container []).0 b, refl)))
          (λ _. rw e at named))
]

-- What a node selector asks for at one key, besides the label of the environment: what the restore says,
-- else what the template says.
abbrev pub Chosen : PodRestoreSpec → (Bytes → Option Bytes) → Bytes → Type 0
Chosen spec selector k =
    ((v : Bytes) → spec.node_selector k ≡ some v → selector k ≡ some v)
    × (spec.node_selector k ≡ none → selector k ≡ spec.pod_template.node_selector k)

-- A node selector that holds a pod on the nodes with the label `hash`, if there is one, and else follows
-- the two selectors.
abbrev pub IsSelector : Bytes → PodRestoreSpec → (Bytes → Option Bytes) → Type 0
IsSelector hash spec selector =
    (hash ≢ [] → selector compatibility_hash_label ≡ some hash)
    × ((k : Bytes) → (hash ≡ []) ⊎ (k ≢ compatibility_hash_label) → Chosen spec selector k)

with_key_self :
    (key value : Bytes) (m : Bytes → Option Bytes) → with_key key value m key ≡ some value
with_key_self key value m = rw ((eqb_iff key key).1 refl) refl

with_key_other :
    (key value : Bytes) (m : Bytes → Option Bytes) (k : Bytes)
    → k ≢ key
    → with_key key value m k ≡ m k
with_key_other key value m k n = elim (Bool-cases (eqb k key)) [
  | inl t ↦ absurd (n ((eqb_iff k key).0 t))
  | inr t ↦ rw t refl
]

merged-Chosen :
    (spec : PodRestoreSpec) (k : Bytes)
    → Chosen spec (merged spec.node_selector spec.pod_template.node_selector) k
merged-Chosen spec k = (λ v h. rw (h, merged) refl, λ h. rw (h, merged) refl)

selector_of-IsSelector :
    (digest : Bytes → Bytes) (restore : PodRestore)
    → IsSelector
        (node_hash digest restore.status.compatibility)
        restore.spec
        (selector_of digest restore)
unfolding selector_of
selector_of-IsSelector digest restore =
    let spec = restore.spec in
    let hash = node_hash digest restore.status.compatibility in
    let m = merged spec.node_selector spec.pod_template.node_selector in
    if_split (IsSelector hash spec) (eqb hash []) _ _
      (λ t. (λ n. absurd (n ((eqb_iff hash []).0 t)), λ k _. merged-Chosen spec k))
      (λ t. (
        λ n. with_key_self compatibility_hash_label hash m,
        λ k other. elim other [
          | inl e ↦ absurd (cc (t, (eqb_iff hash []).1 e))
          | inr n ↦ rw (with_key_other compatibility_hash_label hash m k n) (merged-Chosen spec k)
        ],
      ))

bound_to :
    (named own : Bytes)
    → (named ≢ [] → (if eqb named [] then own else named) ≡ named)
      × (named ≡ [] → (if eqb named [] then own else named) ≡ own)
bound_to named own = elim (Bool-cases (eqb named [])) [
  | inl t ↦ rw t (λ n. absurd (n ((eqb_iff named []).0 t)), λ _. refl)
  | inr t ↦ rw t (λ n. refl, λ e. absurd (cc (t, (eqb_iff named []).1 e)))
]

-- What the placeholder pod is made of.
abbrev pub IsPlaceholder : (Bytes → Bytes) → PodRestore → NewPod → Type 0
IsPlaceholder digest restore pod =
    ((f : Found) × IsTarget restore.spec f × (pod.template.containers ≡ f.0 ++ (keeper f.1 ∷ f.2)))
    × IsSelector (node_hash digest restore.status.compatibility) restore.spec
        pod.template.node_selector
    × (restore.spec.node_name ≢ [] → pod.template.node_name ≡ restore.spec.node_name)
    × (restore.spec.node_name ≡ [] → pod.template.node_name ≡ restore.spec.pod_template.node_name)
    × (pod.template.restart_policy ≡ codes "Never")

-- A placeholder pod that is built has the template's containers, each as authored but for the one
-- that the spec names, or the first one where it names none, which is the keeper. Its node selector has
-- the label of the environment, where there is one, and at every other key what the restore's selector
-- says, or else the template's. It is bound to the node that the restore names, or else to the
-- template's, and it is never restarted.
pub build_placeholder_pod-IsPlaceholder :
    (digest : Bytes → Bytes) (restore : PodRestore) (name : Bytes) (pod : NewPod)
    → build_placeholder_pod digest restore name ≡ ok pod
    → IsPlaceholder digest restore pod
unfolding build_placeholder_pod
build_placeholder_pod-IsPlaceholder digest restore name pod h =
    elim (Result-cases (target_container restore.spec)) [
      | inl (e, q) ↦ absurd (cc (rw (q, build_placeholder_pod) at h))
      | inr (f, q) ↦
          let target =
            subst (IfOk (IsTarget restore.spec)) q (target_container-IsTarget restore.spec) in
          let node = bound_to restore.spec.node_name restore.spec.pod_template.node_name in
          subst (IsPlaceholder digest restore) (ok-injective (rw (q, build_placeholder_pod) at h))
            ((f, target, refl), selector_of-IsSelector digest restore, node.0, node.1, refl)
    ]
