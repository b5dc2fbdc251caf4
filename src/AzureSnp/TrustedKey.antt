-- ===== src/AzureSnp/TrustedKey.antt =====
-- `getTrustedKey`: what a trusted key rests on.
use geth_sev.Prelude.{◌≡◌, ◌⊎◌, Bytes, some, In, ok}
use geth_sev.IdKeyDigest.{maa_fallback, warn_only}
use geth_sev.Snp.{Attestation}
use geth_sev.Snp.Chain.{IsArkFrom}
use geth_sev.AzureSnp.{
  AzureConfig, AzureInstance, AzureInfo, AzureLib, VerifyOptions, validate_options,
}

-- The stages that a trusted key has passed.
pub record IsTrusted {Report Pub Key : Type 0} (lib : AzureLib Report Pub Key) (c : AzureConfig)
    (instance_info ak_pub extra : Bytes) (key : Key) : Type 0 where
  pub instance : AzureInstance
  pub azure : AzureInfo
  pub att : Attestation Report
  pub roots : VerifyOptions
  pub area : Pub
  pub unmarshaled : lib.unmarshal instance_info ≡ ok instance
  pub root_cert : IsArkFrom lib.snp (some c.amd_root_key) att
  pub signing_parsed : lib.parse_certificate att.certs.ask_cert ≡ ok roots.ask
  pub root_parsed : lib.parse_certificate att.certs.ark_cert ≡ ok roots.ark
  pub verified : lib.verify_snp att roots ≡ ok tt
  pub validated : lib.validate_snp att (validate_options c) ≡ ok tt
  pub azure_info : instance.azure ≡ some azure
  pub digest :
      In (lib.id_key_digest att.report) c.firmware_signer_config.accepted_key_digests
      ⊎ (((c.firmware_signer_config.enforcement_policy ≡ maa_fallback)
            × (lib.validate_token c.firmware_signer_config.maa_url azure.maa_token extra ≡ ok tt))
          ⊎ (c.firmware_signer_config.enforcement_policy ≡ warn_only))
  pub decoded : lib.decode_public ak_pub ≡ ok area
  pub bound : lib.hcl_validate azure.runtime_data (lib.report_data att.report) area ≡ ok tt
  pub key_is : lib.key area ≡ ok key
