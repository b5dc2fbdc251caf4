-- ===== src/Variant.antt =====
-- constellation/attestation/variant/variant.go: the attestation variants, their object identifiers
-- and names, and the variants that each provider offers.
pub mod Names
pub mod Providers
pub mod Duplicates
use geth_sev.Prelude.{
  ℕ, Bytes, codes, bytes_eq, Bool, true, false, ◌||◌, Option, none, some, List, [], ◌∷◌, ◌++◌,
  if◌then◌else◌,
}
use geth_sev.CloudProvider.{Provider, unknown, aws, azure, gcp, openstack, qemu}

-- One empty struct for each variant in the source.
pub data Variant : Type 0 where
  dummy aws_nitro_tpm aws_sev_snp gcp_sev_es gcp_sev_snp : Variant
  azure_tdx azure_sev_snp azure_trusted_launch qemu_vtpm qemu_tdx : Variant

-- The methods `OID`.
unfoldable pub oid : Variant → List ℕ
oid dummy = 1 ∷ 3 ∷ 9900 ∷ 1 ∷ 1 ∷ []
oid aws_nitro_tpm = 1 ∷ 3 ∷ 9900 ∷ 2 ∷ 1 ∷ []
oid aws_sev_snp = 1 ∷ 3 ∷ 9900 ∷ 2 ∷ 2 ∷ []
oid gcp_sev_es = 1 ∷ 3 ∷ 9900 ∷ 3 ∷ 1 ∷ []
oid gcp_sev_snp = 1 ∷ 3 ∷ 9900 ∷ 3 ∷ 2 ∷ []
oid azure_tdx = 1 ∷ 3 ∷ 9900 ∷ 4 ∷ 3 ∷ []
oid azure_sev_snp = 1 ∷ 3 ∷ 9900 ∷ 4 ∷ 1 ∷ []
oid azure_trusted_launch = 1 ∷ 3 ∷ 9900 ∷ 4 ∷ 2 ∷ []
oid qemu_vtpm = 1 ∷ 3 ∷ 9900 ∷ 5 ∷ 1 ∷ []
oid qemu_tdx = 1 ∷ 3 ∷ 9900 ∷ 5 ∷ 99 ∷ []

-- `asn1.ObjectIdentifier.Equal`: the same length and the same arcs.
unfoldable pub oid_eq : List ℕ → List ℕ → Bool
unfolding bytes_eq
oid_eq o p = bytes_eq o p

-- The methods `Equal`: they compare the object identifiers.
unfoldable pub equal : Variant → Variant → Bool
unfolding oid oid_eq
equal v other = oid_eq (oid other) (oid v)

-- `==` of two interface values that hold variants: the dynamic types are compared.
unfoldable pub variant_eq : Variant → Variant → Bool
variant_eq dummy w = elim w [ dummy ↦ true | _ ↦ false ]
variant_eq aws_nitro_tpm w = elim w [ aws_nitro_tpm ↦ true | _ ↦ false ]
variant_eq aws_sev_snp w = elim w [ aws_sev_snp ↦ true | _ ↦ false ]
variant_eq gcp_sev_es w = elim w [ gcp_sev_es ↦ true | _ ↦ false ]
variant_eq gcp_sev_snp w = elim w [ gcp_sev_snp ↦ true | _ ↦ false ]
variant_eq azure_tdx w = elim w [ azure_tdx ↦ true | _ ↦ false ]
variant_eq azure_sev_snp w = elim w [ azure_sev_snp ↦ true | _ ↦ false ]
variant_eq azure_trusted_launch w = elim w [ azure_trusted_launch ↦ true | _ ↦ false ]
variant_eq qemu_vtpm w = elim w [ qemu_vtpm ↦ true | _ ↦ false ]
variant_eq qemu_tdx w = elim w [ qemu_tdx ↦ true | _ ↦ false ]

-- The methods `String`.
unfoldable pub string : Variant → Bytes
string dummy = codes "dummy"
string aws_nitro_tpm = codes "aws-nitro-tpm"
string aws_sev_snp = codes "aws-sev-snp"
string gcp_sev_es = codes "gcp-sev-es"
string gcp_sev_snp = codes "gcp-sev-snp"
string azure_tdx = codes "azure-tdx"
string azure_sev_snp = codes "azure-sev-snp"
string azure_trusted_launch = codes "azure-trustedlaunch"
string qemu_vtpm = codes "qemu-vtpm"
string qemu_tdx = codes "qemu-tdx"

-- The error of the source carries the unknown name only.
unfoldable pub from_string : Bytes → Option Variant
unfolding bytes_eq
from_string o =
    if bytes_eq o (codes "dummy")
    then some dummy
    else if bytes_eq o (codes "aws-sev-snp")
    then some aws_sev_snp
    else if bytes_eq o (codes "aws-nitro-tpm")
    then some aws_nitro_tpm
    else if bytes_eq o (codes "gcp-sev-es")
    then some gcp_sev_es
    else if bytes_eq o (codes "gcp-sev-snp")
    then some gcp_sev_snp
    else if bytes_eq o (codes "azure-sev-snp")
    then some azure_sev_snp
    else if bytes_eq o (codes "azure-trustedlaunch")
    then some azure_trusted_launch
    else if bytes_eq o (codes "azure-tdx")
    then some azure_tdx
    else if bytes_eq o (codes "qemu-vtpm")
    then some qemu_vtpm
    else if bytes_eq o (codes "qemu-tdx")
    then some qemu_tdx
    else none

-- `providerAttestationMapping`; `none` for a provider that the map lacks.
unfoldable pub mapping : Provider → Option (List Variant)
mapping unknown = none
mapping aws = some (aws_sev_snp ∷ aws_nitro_tpm ∷ [])
mapping azure = some (azure_sev_snp ∷ azure_tdx ∷ azure_trusted_launch ∷ [])
mapping gcp = some (gcp_sev_es ∷ gcp_sev_snp ∷ [])
mapping qemu = some (qemu_vtpm ∷ [])
mapping openstack = some (qemu_vtpm ∷ [])

-- `res[0]`; no list of the map is empty.
unfoldable pub get_default_attestation : Provider → Variant
unfolding mapping
get_default_attestation p = elim (mapping p) [
  | none ↦ dummy
  | some l ↦ elim l [ [] ↦ dummy | v ∷ rest ↦ v ]
]

any_equal : Variant → List Variant → Bool
any_equal v [] = false
any_equal v (t ∷ ts) = equal v t || any_equal v ts

unfoldable pub valid_provider : Provider → Variant → Bool
unfolding mapping any_equal equal
valid_provider p v = elim (mapping p) [ none ↦ false | some ts ↦ any_equal v ts ]

-- `RemoveDuplicate` at a type whose `==` is `eq`. The keys of `allKeys` are those of `list`.
module _ {A : Type 0} (eq : A → A → Bool) where
  seen : A → List A → Bool
  seen a [] = false
  seen a (x ∷ xs) = eq a x || seen a xs

  remove_loop : List A → List A → List A
  remove_loop list [] = list
  remove_loop list (item ∷ rest) =
      remove_loop (if seen item list then list else list ++ item ∷ []) rest

  unfoldable pub remove_duplicate : List A → List A
  unfolding seen remove_loop
  remove_duplicate items = remove_loop [] items

-- The map's keys, sorted by their numbers.
abbrev providers : List Provider
providers = aws ∷ azure ∷ gcp ∷ openstack ∷ qemu ∷ []

collect : List Provider → List Variant
collect [] = []
collect (p ∷ ps) = elim (mapping p) [ none ↦ collect ps | some l ↦ l ++ collect ps ]

unfoldable pub get_available_attestation_variants : List Variant
unfolding collect mapping remove_duplicate variant_eq
get_available_attestation_variants = remove_duplicate variant_eq (collect providers)
