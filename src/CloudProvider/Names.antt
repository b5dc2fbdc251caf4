-- ===== src/CloudProvider/Names.antt =====
-- The names of the providers are read back.
use geth_sev.Prelude.{◌≡◌, ◌↔◌, refl, true, arith}
use geth_sev.CloudProvider.{
  Provider, unknown, aws, azure, gcp, openstack, qemu, string, from_string, provider_eq,
}

-- A provider's name is read back as that provider.
pub from_string-string : (p : Provider) → from_string (string p) ≡ p
unfolding from_string string
from_string-string unknown = refl
from_string-string aws = refl
from_string-string azure = refl
from_string-string gcp = refl
from_string-string openstack = refl
from_string-string qemu = refl

pub provider_eq_iff : (p q : Provider) → (provider_eq p q ≡ true) ↔ (p ≡ q)
unfolding provider_eq
provider_eq_iff p q = ground arith
