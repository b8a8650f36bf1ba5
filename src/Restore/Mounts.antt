-- ===== src/Restore/Mounts.antt =====
-- The mounts of a rewritten spec.
use pod_snapshotter.Base.{
  ◌≡◌, refl, Bool, true, Option, List, [], ◌∷◌, ◌++◌, map, any, All, All-append, arith, if_split,
}
use pod_snapshotter.Base.Bytes.{Bytes, codes, eqb}
use pod_snapshotter.Restore.Spec.{
  Mount, ExtraMount, SandboxTarget, RuntimeSpec, is_nvidia_device, ensure_private,
  without_propagation, rewrite_mount, bound, left_out, add_mounts, rewrite_spec,
}

abbrev pub rprivate : Bytes
rprivate = codes "rprivate"

-- A device node of NVIDIA has the option rprivate among its options (other propagation options may
-- stand beside it).
abbrev pub IsPrivate : Mount → Type 0
IsPrivate m = is_nvidia_device m.destination ≡ true → any (λ o. eqb o rprivate) m.options ≡ true

any-last : (options : List Bytes) → any (λ o. eqb o rprivate) (options ++ rprivate ∷ []) ≡ true
unfolding eqb
any-last [] = refl
any-last (o ∷ options) = ground (arith, any-last options)

ensure_private-any :
    (options : List Bytes) → any (λ o. eqb o rprivate) (ensure_private options) ≡ true
unfolding ensure_private
ensure_private-any options =
    if_split (λ l. any (λ o. eqb o rprivate) l ≡ true) (any (λ o. eqb o rprivate) options) _ _
      (λ t. t) (λ _. any-last (without_propagation options))

module _ (exists : Bytes → Bool) (entries : Bytes → Option (List Bytes)) where
  rewrite_mount-IsPrivate :
      (t : SandboxTarget) (m : Mount) → IsPrivate (rewrite_mount exists entries t m)
  unfolding rewrite_mount
  rewrite_mount-IsPrivate t m h =
      if_split (λ l. any (λ o. eqb o rprivate) l ≡ true) (is_nvidia_device m.destination) _ _
        (λ _. ensure_private-any m.options) (λ n. absurd (cc (h, n)))

  bound-IsPrivate : (e : ExtraMount) → IsPrivate (bound exists entries e)
  unfolding eqb
  bound-IsPrivate e h = refl

  add_mounts-IsPrivate :
      (t : SandboxTarget) (extra : List ExtraMount) (mounts : List Mount)
      → All IsPrivate mounts
      → All IsPrivate (add_mounts exists entries t extra mounts)
  unfolding add_mounts
  add_mounts-IsPrivate t [] mounts h = h
  add_mounts-IsPrivate t (e ∷ extra) mounts h =
      if_split (All IsPrivate) (left_out exists entries t e mounts) _ _
        (λ _. add_mounts-IsPrivate t extra mounts h)
        (λ _.
          add_mounts-IsPrivate t extra _ (All-append IsPrivate mounts _ h (bound-IsPrivate e, tt)))

  mapped-IsPrivate :
      (t : SandboxTarget) (mounts : List Mount)
      → All IsPrivate (map (rewrite_mount exists entries t) mounts)
  mapped-IsPrivate t [] = tt
  mapped-IsPrivate t (m ∷ mounts) = (rewrite_mount-IsPrivate t m, mapped-IsPrivate t mounts)

  -- In the spec that a container is restored with, every mount of an NVIDIA device node has the
  -- option rprivate, whatever the dumped spec and the recorded mounts say.
  pub rewrite_spec-IsPrivate :
      (t : SandboxTarget) (spec : RuntimeSpec)
      → All IsPrivate (rewrite_spec exists entries t spec).mounts
  unfolding rewrite_spec
  rewrite_spec-IsPrivate t spec =
      add_mounts-IsPrivate t t.extra_mounts _ (mapped-IsPrivate t spec.mounts)
