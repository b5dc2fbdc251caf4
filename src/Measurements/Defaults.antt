-- ===== src/Measurements/Defaults.antt =====
-- constellation/attestation/measurements: the default measurements of measurements_oss.go, and
-- `DefaultsFor` of measurements.go.
use geth_sev.Prelude.{
  ℕ, keys, insert, ◌+◌, ◌≡◌, refl, true, false, Bool, ◌&&◌, Option, none, some, [], ◌∷◌, length,
  Result-cases, ok, is_ok, inl, inr, arith, ◌==◌, if◌then◌else◌,
}
use geth_sev.CloudProvider.{Provider, aws, azure, gcp, openstack, qemu, provider_eq}
use geth_sev.Variant.{
  Variant, aws_nitro_tpm, aws_sev_snp, gcp_sev_es, gcp_sev_snp, azure_tdx, azure_sev_snp,
  azure_trusted_launch, qemu_vtpm, qemu_tdx, variant_eq, valid_provider,
}
use geth_sev.Measurements.{
  M, enforce, copy, get_enforced, check_length, place_holder_measurement, with_all_bytes,
}

abbrev pub pcr_measurement_length : ℕ
pcr_measurement_length = 32

abbrev pub tdx_measurement_length : ℕ
tdx_measurement_length = 48

abbrev pub pcr_index_cluster_id : ℕ
pcr_index_cluster_id = 15

abbrev pub rtmr_index_cluster_id : ℕ
rtmr_index_cluster_id = 2

abbrev pub tdx_index_cluster_id : ℕ
tdx_index_cluster_id = rtmr_index_cluster_id + 1

aws_aws_nitro_tpm : M
unfolding place_holder_measurement with_all_bytes
aws_aws_nitro_tpm =
    (4, place_holder_measurement pcr_measurement_length)
    ∷ (8, with_all_bytes 0 enforce pcr_measurement_length)
    ∷ (9, place_holder_measurement pcr_measurement_length)
    ∷ (11, with_all_bytes 0 enforce pcr_measurement_length)
    ∷ (12, place_holder_measurement pcr_measurement_length)
    ∷ (13, with_all_bytes 0 enforce pcr_measurement_length)
    ∷ (pcr_index_cluster_id, with_all_bytes 0 enforce pcr_measurement_length)
    ∷ []

aws_aws_sev_snp : M
unfolding place_holder_measurement with_all_bytes
aws_aws_sev_snp =
    (4, place_holder_measurement pcr_measurement_length)
    ∷ (8, with_all_bytes 0 enforce pcr_measurement_length)
    ∷ (9, place_holder_measurement pcr_measurement_length)
    ∷ (11, with_all_bytes 0 enforce pcr_measurement_length)
    ∷ (12, place_holder_measurement pcr_measurement_length)
    ∷ (13, with_all_bytes 0 enforce pcr_measurement_length)
    ∷ (pcr_index_cluster_id, with_all_bytes 0 enforce pcr_measurement_length)
    ∷ []

azure_azure_sev_snp : M
unfolding place_holder_measurement with_all_bytes
azure_azure_sev_snp =
    (4, place_holder_measurement pcr_measurement_length)
    ∷ (8, with_all_bytes 0 enforce pcr_measurement_length)
    ∷ (9, place_holder_measurement pcr_measurement_length)
    ∷ (11, with_all_bytes 0 enforce pcr_measurement_length)
    ∷ (12, place_holder_measurement pcr_measurement_length)
    ∷ (13, with_all_bytes 0 enforce pcr_measurement_length)
    ∷ (pcr_index_cluster_id, with_all_bytes 0 enforce pcr_measurement_length)
    ∷ []

azure_azure_tdx : M
unfolding place_holder_measurement with_all_bytes
azure_azure_tdx =
    (4, place_holder_measurement pcr_measurement_length)
    ∷ (8, with_all_bytes 0 enforce pcr_measurement_length)
    ∷ (9, place_holder_measurement pcr_measurement_length)
    ∷ (11, with_all_bytes 0 enforce pcr_measurement_length)
    ∷ (12, place_holder_measurement pcr_measurement_length)
    ∷ (13, with_all_bytes 0 enforce pcr_measurement_length)
    ∷ (pcr_index_cluster_id, with_all_bytes 0 enforce pcr_measurement_length)
    ∷ []

azure_azure_trusted_launch : M
unfolding place_holder_measurement with_all_bytes
azure_azure_trusted_launch =
    (4, place_holder_measurement pcr_measurement_length)
    ∷ (8, with_all_bytes 0 enforce pcr_measurement_length)
    ∷ (9, place_holder_measurement pcr_measurement_length)
    ∷ (11, with_all_bytes 0 enforce pcr_measurement_length)
    ∷ (12, place_holder_measurement pcr_measurement_length)
    ∷ (13, with_all_bytes 0 enforce pcr_measurement_length)
    ∷ (pcr_index_cluster_id, with_all_bytes 0 enforce pcr_measurement_length)
    ∷ []

gcp_gcp_sev_es : M
unfolding place_holder_measurement with_all_bytes
gcp_gcp_sev_es =
    (4, place_holder_measurement pcr_measurement_length)
    ∷ (8, with_all_bytes 0 enforce pcr_measurement_length)
    ∷ (9, place_holder_measurement pcr_measurement_length)
    ∷ (11, with_all_bytes 0 enforce pcr_measurement_length)
    ∷ (12, place_holder_measurement pcr_measurement_length)
    ∷ (13, with_all_bytes 0 enforce pcr_measurement_length)
    ∷ (pcr_index_cluster_id, with_all_bytes 0 enforce pcr_measurement_length)
    ∷ []

gcp_gcp_sev_snp : M
unfolding place_holder_measurement with_all_bytes
gcp_gcp_sev_snp =
    (4, place_holder_measurement pcr_measurement_length)
    ∷ (8, with_all_bytes 0 enforce pcr_measurement_length)
    ∷ (9, place_holder_measurement pcr_measurement_length)
    ∷ (11, with_all_bytes 0 enforce pcr_measurement_length)
    ∷ (12, place_holder_measurement pcr_measurement_length)
    ∷ (13, with_all_bytes 0 enforce pcr_measurement_length)
    ∷ (pcr_index_cluster_id, with_all_bytes 0 enforce pcr_measurement_length)
    ∷ []

openstack_qemu_vtpm : M
unfolding place_holder_measurement with_all_bytes
openstack_qemu_vtpm =
    (4, place_holder_measurement pcr_measurement_length)
    ∷ (8, with_all_bytes 0 enforce pcr_measurement_length)
    ∷ (9, place_holder_measurement pcr_measurement_length)
    ∷ (11, with_all_bytes 0 enforce pcr_measurement_length)
    ∷ (12, place_holder_measurement pcr_measurement_length)
    ∷ (13, with_all_bytes 0 enforce pcr_measurement_length)
    ∷ (pcr_index_cluster_id, with_all_bytes 0 enforce pcr_measurement_length)
    ∷ []

qemu_qemu_tdx : M
unfolding place_holder_measurement with_all_bytes
qemu_qemu_tdx =
    (0, place_holder_measurement tdx_measurement_length)
    ∷ (1, place_holder_measurement tdx_measurement_length)
    ∷ (2, place_holder_measurement tdx_measurement_length)
    ∷ (tdx_index_cluster_id, with_all_bytes 0 enforce tdx_measurement_length)
    ∷ (4, place_holder_measurement tdx_measurement_length)
    ∷ []

qemu_qemu_vtpm : M
unfolding place_holder_measurement with_all_bytes
qemu_qemu_vtpm =
    (4, place_holder_measurement pcr_measurement_length)
    ∷ (8, with_all_bytes 0 enforce pcr_measurement_length)
    ∷ (9, place_holder_measurement pcr_measurement_length)
    ∷ (11, with_all_bytes 0 enforce pcr_measurement_length)
    ∷ (12, place_holder_measurement pcr_measurement_length)
    ∷ (13, with_all_bytes 0 enforce pcr_measurement_length)
    ∷ (pcr_index_cluster_id, with_all_bytes 0 enforce pcr_measurement_length)
    ∷ []

-- `none` is the nil map of the source's default case.
unfoldable pub defaults_for : Provider → Variant → Option M
unfolding copy provider_eq variant_eq aws_aws_nitro_tpm aws_aws_sev_snp azure_azure_sev_snp
    azure_azure_tdx azure_azure_trusted_launch gcp_gcp_sev_es gcp_gcp_sev_snp openstack_qemu_vtpm
    qemu_qemu_tdx qemu_qemu_vtpm
defaults_for p v =
    if provider_eq p aws && variant_eq v aws_nitro_tpm
    then some (copy aws_aws_nitro_tpm)
    else if provider_eq p aws && variant_eq v aws_sev_snp
    then some (copy aws_aws_sev_snp)
    else if provider_eq p azure && variant_eq v azure_sev_snp
    then some (copy azure_azure_sev_snp)
    else if provider_eq p azure && variant_eq v azure_tdx
    then some (copy azure_azure_tdx)
    else if provider_eq p azure && variant_eq v azure_trusted_launch
    then some (copy azure_azure_trusted_launch)
    else if provider_eq p gcp && variant_eq v gcp_sev_es
    then some (copy gcp_gcp_sev_es)
    else if provider_eq p gcp && variant_eq v gcp_sev_snp
    then some (copy gcp_gcp_sev_snp)
    else if provider_eq p openstack && variant_eq v qemu_vtpm
    then some (copy openstack_qemu_vtpm)
    else if provider_eq p qemu && variant_eq v qemu_tdx
    then some (copy qemu_qemu_tdx)
    else if provider_eq p qemu && variant_eq v qemu_vtpm
    then some (copy qemu_qemu_vtpm)
    else none

good : Option M → Bool
unfolding get_enforced check_length
good none = false
good (some m) = length (get_enforced m) == length m && is_ok (check_length m)

all_good : (p : Provider) (v : Variant) → valid_provider p v ≡ true → good (defaults_for p v) ≡ true
unfolding valid_provider defaults_for good keys insert
all_good aws aws_nitro_tpm h = refl
all_good aws aws_sev_snp h = refl
all_good azure azure_sev_snp h = refl
all_good azure azure_tdx h = refl
all_good azure azure_trusted_launch h = refl
all_good gcp gcp_sev_es h = refl
all_good gcp gcp_sev_snp h = refl
all_good openstack qemu_vtpm h = refl
all_good qemu qemu_vtpm h = refl
all_good p v h = cc

open_good :
    (o : Option M)
    → good o ≡ true
    → (m : M) × (o ≡ some m) × (length (get_enforced m) ≡ length m) × (check_length m ≡ ok tt)
unfolding good
open_good none h = cc
open_good (some m) h = elim (Result-cases (check_length m)) [
  | inl (tt, e) ↦ (m, refl, ground arith, e)
  | inr (e, z) ↦ absurd (ground (arith, z))
]

-- Each variant that a provider offers has default measurements; all of them are enforced, and they
-- pass the check of equal lengths.
pub defaults_for_valid :
    (p : Provider) (v : Variant)
    → valid_provider p v ≡ true
    → (m : M) × (defaults_for p v ≡ some m)
      × (length (get_enforced m) ≡ length m)
      × (check_length m ≡ ok tt)
defaults_for_valid p v h = open_good (defaults_for p v) (all_good p v h)
