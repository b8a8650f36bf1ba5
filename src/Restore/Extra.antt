-- ===== src/Restore/Extra.antt =====
-- What the recorded mounts add to a spec, and the check of the device nodes.
use pod_snapshotter.Base.{
  ◌≡◌, ◌≢◌, refl, Bool, true, false, Option, List, [], ◌∷◌, ◌++◌, map, All, All-append, arith,
  if_split, ◌↔◌, is_empty,
}
use pod_snapshotter.Base.Bytes.{Bytes, eqb_iff}
use pod_snapshotter.Restore.Spec.{
  Mount, ExtraMount, SandboxTarget, RuntimeSpec, is_nvidia_device, rewrite_mount, left_out,
  add_mounts, rewrite_spec, missing_devices, gpu_devices_present, is_destination,
}

-- No two mounts have the same destination.
abbrev pub Distinct : List Mount → Type 0
Distinct [] = Unit
Distinct (m ∷ mounts) = All (λ n. n.destination ≢ m.destination) mounts × Distinct mounts

Distinct-snoc :
    (mounts : List Mount) (e : Mount)
    → Distinct mounts
    → All (λ m. e.destination ≢ m.destination) mounts
    → Distinct (mounts ++ e ∷ [])
Distinct-snoc [] e h k = (tt, tt)
Distinct-snoc (m ∷ mounts) e h k =
    (All-append _ mounts _ h.0 (k.0, tt), Distinct-snoc mounts e h.1 k.1)

module _ (exists : Bytes → Bool) (entries : Bytes → Option (List Bytes)) where
  not_destination :
      (d : Bytes) (mounts : List Mount)
      → is_destination exists entries d mounts ≡ false
      → All (λ m. d ≢ m.destination) mounts
  not_destination d [] h = tt
  not_destination d (m ∷ mounts) h =
      (ground (arith, eqb_iff m.destination d), not_destination d mounts (ground arith))

  added :
      (t : SandboxTarget) (e : ExtraMount) (mounts : List Mount)
      → left_out exists entries t e mounts ≡ false
      → is_destination exists entries e.container_path mounts ≡ false
  unfolding left_out
  added t e mounts h = ground arith

  add_mounts-Distinct :
      (t : SandboxTarget) (extra : List ExtraMount) (mounts : List Mount)
      → Distinct mounts
      → Distinct (add_mounts exists entries t extra mounts)
  unfolding add_mounts
  add_mounts-Distinct t [] mounts h = h
  add_mounts-Distinct t (e ∷ extra) mounts h =
      if_split Distinct (left_out exists entries t e mounts) _ _
        (λ _. add_mounts-Distinct t extra mounts h)
        (λ n.
          add_mounts-Distinct t extra _ (
            Distinct-snoc mounts _ h
              (not_destination e.container_path mounts (added t e mounts n))))

  mapped-All :
      (t : SandboxTarget) (d : Bytes) (mounts : List Mount)
      → All (λ n. n.destination ≢ d) mounts
      → All (λ n. n.destination ≢ d) (map (rewrite_mount exists entries t) mounts)
  unfolding rewrite_mount
  mapped-All t d [] h = tt
  mapped-All t d (m ∷ mounts) h = (h.0, mapped-All t d mounts h.1)

  mapped-Distinct :
      (t : SandboxTarget) (mounts : List Mount)
      → Distinct mounts
      → Distinct (map (rewrite_mount exists entries t) mounts)
  unfolding rewrite_mount
  mapped-Distinct t [] h = tt
  mapped-Distinct t (m ∷ mounts) h =
      (mapped-All t m.destination mounts h.0, mapped-Distinct t mounts h.1)

  -- Where the mounts of the dumped spec have different destinations, so have those of the rewritten
  -- one: no recorded mount is added at a destination that is taken, by the spec or by another.
  pub rewrite_spec-Distinct :
      (t : SandboxTarget) (spec : RuntimeSpec)
      → Distinct spec.mounts
      → Distinct (rewrite_spec exists entries t spec).mounts
  unfolding rewrite_spec
  rewrite_spec-Distinct t spec h =
      add_mounts-Distinct t t.extra_mounts _ (mapped-Distinct t spec.mounts h)

  -- A device node of NVIDIA is there.
  abbrev pub IsPresent : Mount → Type 0
  IsPresent m = is_nvidia_device m.destination ≡ true → exists m.source ≡ true

  missing_devices-nil :
      (mounts : List Mount)
      → is_empty (missing_devices exists entries mounts) ≡ true
      → All IsPresent mounts
  unfolding missing_devices
  missing_devices-nil [] h = tt
  missing_devices-nil (m ∷ mounts) h =
      ((λ n. ground arith), missing_devices-nil mounts (ground arith))

  none_missing :
      (mounts : List Mount)
      → All IsPresent mounts
      → is_empty (missing_devices exists entries mounts) ≡ true
  unfolding missing_devices
  none_missing [] h = refl
  none_missing (m ∷ mounts) h = ground (arith, h.0, none_missing mounts h.1)

  -- The check of the device nodes succeeds exactly if the source of every mount of an NVIDIA device
  -- node exists on the node.
  pub gpu_devices_present_iff :
      (spec : RuntimeSpec)
      → (gpu_devices_present exists entries spec ≡ true) ↔ All IsPresent spec.mounts
  unfolding gpu_devices_present
  gpu_devices_present_iff spec = (missing_devices-nil spec.mounts, none_missing spec.mounts)
