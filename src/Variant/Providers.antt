-- ===== src/Variant/Providers.antt =====
-- Which variants a provider offers.
use geth_sev.Prelude.{◌≡◌, ◌≢◌, ◌↔◌, true, arith, In}
use geth_sev.CloudProvider.{Provider, unknown, aws, azure, gcp, qemu}
use geth_sev.Variant.{
  Variant, aws_nitro_tpm, aws_sev_snp, gcp_sev_es, gcp_sev_snp, azure_tdx, azure_sev_snp,
  azure_trusted_launch, valid_provider, get_default_attestation, get_available_attestation_variants,
}

-- The default variant of a known provider is valid for that provider.
pub valid_provider-get_default :
    (p : Provider) → p ≢ unknown → valid_provider p (get_default_attestation p) ≡ true
unfolding valid_provider get_default_attestation
valid_provider-get_default p h = ground arith

available_of_valid :
    (p : Provider) (v : Variant)
    → valid_provider p v ≡ true
    → In v get_available_attestation_variants
unfolding valid_provider get_available_attestation_variants
available_of_valid p v h = ground arith

-- A provider that offers the variant.
home : Variant → Provider
home aws_nitro_tpm = aws
home aws_sev_snp = aws
home gcp_sev_es = gcp
home gcp_sev_snp = gcp
home azure_tdx = azure
home azure_sev_snp = azure
home azure_trusted_launch = azure
home _ = qemu

valid_at_home :
    (v : Variant) → In v get_available_attestation_variants → valid_provider (home v) v ≡ true
unfolding valid_provider get_available_attestation_variants home
valid_at_home v m = ground arith

-- A variant is available exactly if it is valid for some provider.
pub available_iff :
    (v : Variant)
    → In v get_available_attestation_variants ↔ ((p : Provider) × (valid_provider p v ≡ true))
available_iff v = (λ m. (home v, valid_at_home v m), λ (p, h). available_of_valid p v h)
