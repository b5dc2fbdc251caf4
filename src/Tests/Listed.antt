-- ===== src/Tests/Listed.antt =====
-- A list of the patch versions below v1.2, over a library that knows two versions.
use Prim.Native.Nat.{Ordering}
use geth_sev.Prelude.{◌≡◌, ◌≢◌, ◌↔◌, refl, Bytes, codes, bytes_eq, ◌||◌, true, [], ◌∷◌, In}
use geth_sev.Semantic.{SemverLib}
use geth_sev.VersionsApi.{image, minor, validate_ref, validate_stream}
use geth_sev.VersionsApi
use geth_sev.VersionsApi.Lists.{list_path}
use geth_sev.VersionLists.{
  VersionList, json_path, contains, structured_versions, normalize, validate,
}
use geth_sev.VersionLists.Listed.{structured, listed_lem}

abbrev base : Bytes
base = codes "v1.2"

abbrev patched : Bytes
patched = codes "v1.2.3"

abbrev two_versions : SemverLib
two_versions = record {
  is_valid = λ v. bytes_eq v base || bytes_eq v patched;
  canonical = λ v. patched;
  major = λ v. codes "v1";
  major_minor = λ v. base;
  compare = λ v w. Ordering.eq;
}

abbrev patches : VersionList
patches = record {
  ref = codes "feat-x";
  stream = codes "nightly";
  granularity = minor;
  base = base;
  kind = image;
  versions = patched ∷ [];
}

patches_valid : validate two_versions patches ≡ []
unfolding validate validate_ref validate_stream normalize bytes_eq
patches_valid = refl

patches_contain : contains patches patched ≡ true
unfolding contains bytes_eq
patches_contain = refl

listed_example :
    In (structured patches patched) (structured_versions patches)
    × (list_path two_versions (structured patches patched) patches.granularity ≡ json_path patches)
    × (patches.base ≢ patched)
    × ((VersionsApi.validate two_versions (structured patches patched) ≡ []) ↔ (patched ≡ patched))
listed_example = listed_lem two_versions patches patched patches_valid patches_contain
