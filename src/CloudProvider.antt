-- ===== src/CloudProvider.antt =====
-- constellation/cloud/cloudprovider/cloudprovider.go: the providers and their names.
pub mod Names
use geth_sev.Prelude.{
  ℕ, ◌==◌, Bytes, codes, bytes_eq, Bool, true, false, ◌||◌, to_lower, if◌then◌else◌,
}

-- The constants of the source; a `uint32` beyond them is no provider.
pub data Provider : Type 0 where
  unknown aws azure gcp openstack qemu : Provider

-- The source's generated `String`.
unfoldable pub string : Provider → Bytes
string unknown = codes "Unknown"
string aws = codes "AWS"
string azure = codes "Azure"
string gcp = codes "GCP"
string openstack = codes "OpenStack"
string qemu = codes "QEMU"

unfoldable pub is_open_stack_provider : Bytes → Bool
unfolding to_lower bytes_eq
is_open_stack_provider s =
    let l : Bytes = to_lower s in bytes_eq l (codes "openstack") || bytes_eq l (codes "stackit")

from_lower : Bytes → Provider
from_lower s =
    if is_open_stack_provider s
    then openstack
    else if bytes_eq s (codes "aws")
    then aws
    else if bytes_eq s (codes "azure")
    then azure
    else if bytes_eq s (codes "gcp")
    then gcp
    else if bytes_eq s (codes "qemu")
    then qemu
    else unknown

unfoldable pub from_string : Bytes → Provider
unfolding from_lower is_open_stack_provider bytes_eq to_lower
from_string s = from_lower (to_lower s)

-- The numbers of the constants, by which providers are ordered.
unfoldable pub number : Provider → ℕ
number unknown = 0
number aws = 1
number azure = 2
number gcp = 3
number openstack = 4
number qemu = 5

unfoldable pub provider_eq : Provider → Provider → Bool
unfolding number
provider_eq p q = number p == number q
