-- ===== src/VersionsApi/Kinds.antt =====
-- The words of `VersionKind` and `Granularity`, and back, in any case of the letters.
use geth_sev.Prelude.{◌≡◌, refl, bytes_eq, to_lower}
use geth_sev.VersionsApi.{
  VersionKind, unknown_kind, image, cli, Granularity, unknown_granularity, major, minor, patch,
  kind_string, kind_from_string, granularity_string, granularity_from_string,
}

kind-back : (k : VersionKind) → kind_from_string (kind_string k) ≡ k
unfolding kind_from_string kind_string to_lower bytes_eq
kind-back unknown_kind = refl
kind-back image = refl
kind-back cli = refl

granularity-back : (g : Granularity) → granularity_from_string (granularity_string g) ≡ g
unfolding granularity_from_string granularity_string to_lower bytes_eq
granularity-back unknown_granularity = refl
granularity-back major = refl
granularity-back minor = refl
granularity-back patch = refl

-- Every kind and every granularity is read back from the word it is printed as.
pub from_string-kind_string :
    (k : VersionKind) (g : Granularity)
    → (kind_from_string (kind_string k) ≡ k) × (granularity_from_string (granularity_string g) ≡ g)
from_string-kind_string k g = (kind-back k, granularity-back g)
