-- ===== src/Api/Compat/Roundtrip.antt =====
-- That a node's annotation reads back as the tuple that the agent wrote.
use pod_snapshotter.Base.{false, ℕ, ◌≡◌, ◌≢◌, refl, ap, ◌∙◌, [], ◌∷◌, ◌++◌, All-append, arith}
use pod_snapshotter.Base.Bytes.{
  Bytes, codes, split, cut, contains, trim_space, Lacks, eqb, split-append, split_of_Lacks,
}
use pod_snapshotter.Api.Compat.{
  CompatibilityKey, node_compatibility, parse_field, parse_fields, parse_compatibility, set_field,
  no_key,
}

pub contains-Lacks : (c : ℕ) (s : Bytes) → contains c s ≡ false → Lacks c s
unfolding contains
contains-Lacks c [] h = tt
contains-Lacks c (a ∷ s) h = (ground arith, contains-Lacks c s (ground arith))

key-Lacks : (c : ℕ) (key s : Bytes) → contains c key ≡ false → Lacks c s → Lacks c (key ++ s)
key-Lacks c key s h k = All-append (λ a. a ≢ c) key s (contains-Lacks c key h) k

-- The three fields as they are written.
split-node_compatibility :
    (g d c : Bytes)
    → Lacks b';' g
    → Lacks b';' d
    → Lacks b';' c
    → split b';' (codes "gpu=" ++ (g ++ (codes ";driver=" ++ (d ++ (codes ";criu=" ++ c)))))
      ≡ (codes "gpu=" ++ g) ∷ (codes "driver=" ++ d) ∷ (codes "criu=" ++ c) ∷ []
unfolding contains
split-node_compatibility g d c hg hd hc =
    split-append b';' (codes "gpu=" ++ g) _ (key-Lacks b';' (codes "gpu=") g refl hg)
    ∙ ap (λ l. (codes "gpu=" ++ g) ∷ l)
        (split-append b';' (codes "driver=" ++ d) _ (key-Lacks b';' (codes "driver=") d refl hd)
          ∙ ap (λ l. (codes "driver=" ++ d) ∷ l)
              (split_of_Lacks b';' (codes "criu=" ++ c) (key-Lacks b';' (codes "criu=") c refl hc)))

field_gpu :
    (k : CompatibilityKey) (v : Bytes)
    → parse_field k (codes "gpu=" ++ v) ≡ record k { gpu_model = v }
unfolding parse_field contains cut trim_space set_field eqb
field_gpu k v = refl

field_driver :
    (k : CompatibilityKey) (v : Bytes)
    → parse_field k (codes "driver=" ++ v) ≡ record k { driver_version = v }
unfolding parse_field contains cut trim_space set_field eqb
field_driver k v = refl

field_criu :
    (k : CompatibilityKey) (v : Bytes)
    → parse_field k (codes "criu=" ++ v) ≡ record k { criu_version = v }
unfolding parse_field contains cut trim_space set_field eqb
field_criu k v = refl

-- A tuple whose parts hold no `;` reads back from a node's annotation as it was written there; the
-- image's digest is not written.
pub parse_compatibility-node_compatibility :
    (k : CompatibilityKey)
    → Lacks b';' k.gpu_model
    → Lacks b';' k.driver_version
    → Lacks b';' k.criu_version
    → parse_compatibility (node_compatibility k) ≡ record k { image_digest = [] }
unfolding parse_compatibility node_compatibility parse_fields
parse_compatibility-node_compatibility k hg hd hc =
    rw
      (
        split-node_compatibility k.gpu_model k.driver_version k.criu_version hg hd hc,
        field_gpu no_key k.gpu_model,
      )
      (ap (λ m. parse_field m (codes "criu=" ++ k.criu_version))
          (field_driver (record no_key { gpu_model = k.gpu_model }) k.driver_version)
        ∙ field_criu _ k.criu_version)
