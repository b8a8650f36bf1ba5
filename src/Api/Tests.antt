-- ===== src/Api/Tests.antt =====
-- The environment tuple at concrete inputs.
use pod_snapshotter.Base.{◌≡◌, refl, [], some}
use pod_snapshotter.Base.Bytes.{codes, contains, split, cut, trim_space, eqb, Lacks}
use pod_snapshotter.Api.Compat.{
  CompatibilityKey, node_compatibility, parse_compatibility, parse_fields, parse_field, set_field,
  mismatch, first_mismatch, differs,
}
use pod_snapshotter.Api.Compat.Roundtrip.{contains-Lacks, parse_compatibility-node_compatibility}

abbrev tuple : CompatibilityKey
tuple = record {
  gpu_model = codes "NVIDIA A100";
  driver_version = codes "580.1";
  criu_version = codes "4.2.1";
  image_digest = [];
}

older :
    mismatch tuple (parse_compatibility (codes "gpu=NVIDIA A100;new; criu=4.1"))
    ≡ some (codes "CRIU version 4.1 does not match the build's 4.2.1")
unfolding mismatch first_mismatch differs parse_compatibility parse_fields parse_field set_field
    contains split cut trim_space eqb
older = refl

gpu-Lacks : Lacks b';' (codes "NVIDIA A100")
unfolding contains
gpu-Lacks = contains-Lacks b';' (codes "NVIDIA A100") refl

driver-Lacks : Lacks b';' (codes "580.1")
unfolding contains
driver-Lacks = contains-Lacks b';' (codes "580.1") refl

criu-Lacks : Lacks b';' (codes "4.2.1")
unfolding contains
criu-Lacks = contains-Lacks b';' (codes "4.2.1") refl

parse_compatibility-node_compatibility_example :
    parse_compatibility (node_compatibility tuple) ≡ tuple
parse_compatibility-node_compatibility_example =
    parse_compatibility-node_compatibility tuple gpu-Lacks driver-Lacks criu-Lacks
