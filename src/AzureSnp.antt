-- ===== src/AzureSnp.antt =====
-- constellation/attestation/azure/snp: the trusted key of an Azure SEV-SNP VM (validator.go).
pub mod KeyDigest
pub mod TrustedKey
use geth_sev.Prelude.{
  ℕ, Bytes, codes, bytes_eq, Bool, true, false, not, Option, none, some, List, [], ◌∷◌, Result, ok,
  err, ◌>>=◌, ◌>>◌, map_err, if◌then◌else◌,
}
use geth_sev.IdKeyDigest.{Enforcement, equal, maa_fallback, warn_only, unknown}
use geth_sev.Snp.{
  Cert, CertificateChain, InstanceInfo, Attestation, SnpLib, SnpError, attestation_with_certs,
}

-- `SNPFirmwareSignerConfig`
pub record FirmwareSignerConfig : Type 0 where
  pub accepted_key_digests : List Bytes
  pub enforcement_policy : Enforcement
  pub maa_url : Bytes

-- `kds.TCBParts`, by the fields that are set.
pub record TcbParts : Type 0 where
  pub bl_spl : ℕ
  pub tee_spl : ℕ
  pub snp_spl : ℕ
  pub ucode_spl : ℕ

-- `config.AzureSEVSNP`; the four versions are the values of the fields.
pub record AzureConfig : Type 0 where
  pub bootloader_version : ℕ
  pub tee_version : ℕ
  pub snp_version : ℕ
  pub microcode_version : ℕ
  pub firmware_signer_config : FirmwareSignerConfig
  pub amd_root_key : Cert
  pub amd_signing_key : Cert

-- `validate.Options`, by the fields that are set.
pub record ValidateOptions : Type 0 where
  pub debug : Bool
  pub smt : Bool
  pub vmpl : Option ℕ
  pub minimum_tcb : TcbParts
  pub minimum_launch_tcb : TcbParts
  pub permit_provisional_firmware : Bool
  pub trusted_id_key_hashes : List Bytes
  pub require_id_block : Bool

-- `AzureInstanceInfo`, and the instance info with it; nil is `none`.
pub record AzureInfo : Type 0 where
  pub runtime_data : Bytes
  pub maa_token : Bytes

pub record AzureInstance : Type 0 where
  pub info : InstanceInfo
  pub azure : Option AzureInfo

-- The roots that `getVerifyOpts` trusts for the product Milan.
pub record VerifyOptions : Type 0 where
  pub ask : Cert
  pub ark : Cert

pub data AzureError : Type 0 where
  unmarshalling verifying validating maa decoding_public hcl key_of : Bytes → AzureError
  parsing_report : SnpError → AzureError
  parsing_ask parsing_ark : Bytes → AzureError
  missing_azure_info untrusted_digest : AzureError

-- What is called beyond the repository, at the context of one call: JSON, X.509, go-sev-guest's
-- verification and validation, the MAA's token check, and the TPM's public areas.
pub record AzureLib (Report Pub Key : Type 0) : Type 0 where
  pub snp : SnpLib Report
  pub unmarshal : Bytes → Result Bytes AzureInstance
  pub parse_certificate : Option Bytes → Result Bytes Cert
  pub verify_snp : Attestation Report → VerifyOptions → Result Bytes (Unit {0})
  pub validate_snp : Attestation Report → ValidateOptions → Result Bytes (Unit {0})
  pub id_key_digest : Report → Bytes
  pub report_data : Report → Bytes
  pub validate_token : Bytes → Bytes → Bytes → Result Bytes (Unit {0})
  pub decode_public : Bytes → Result Bytes Pub
  pub hcl_validate : Bytes → Bytes → Pub → Result Bytes (Unit {0})
  pub key : Pub → Result Bytes Key

is_equal : Enforcement → Bool
is_equal p = elim p [ equal ↦ true | _ ↦ false ]

-- The options that `getTrustedKey` validates the report with.
unfoldable pub validate_options : AzureConfig → ValidateOptions
unfolding is_equal
validate_options c =
    let minimum : TcbParts = record {
      bl_spl = c.bootloader_version;
      tee_spl = c.tee_version;
      snp_spl = c.snp_version;
      ucode_spl = c.microcode_version;
    } in
    record {
      debug = false;
      smt = true;
      vmpl = some 0;
      minimum_tcb = minimum;
      minimum_launch_tcb = minimum;
      permit_provisional_firmware = true;
      trusted_id_key_hashes = c.firmware_signer_config.accepted_key_digests;
      require_id_block = is_equal c.firmware_signer_config.enforcement_policy;
    }

-- The loop of `checkIDKeyDigest`
accepted : Bytes → List Bytes → Bool
unfolding bytes_eq
accepted reported [] = false
accepted reported (digest ∷ digests) =
    if bytes_eq digest reported then true else accepted reported digests

by_policy : Enforcement → Result Bytes (Unit {0}) → Result AzureError (Unit {0})
by_policy maa_fallback token = map_err maa token
by_policy warn_only token = ok tt
by_policy equal token = err untrusted_digest
by_policy unknown token = err untrusted_digest

module _ {Report Pub Key : Type 0} (lib : AzureLib Report Pub Key) where
  -- `checkIDKeyDigest`; the log is left out.
  unfoldable pub check_id_key_digest :
      FirmwareSignerConfig → Attestation Report → Bytes → Bytes → Result AzureError (Unit {0})
  unfolding accepted by_policy
  check_id_key_digest c att maa_token extra_data =
      if accepted (lib.id_key_digest att.report) c.accepted_key_digests
      then ok tt
      else by_policy c.enforcement_policy (lib.validate_token c.maa_url maa_token extra_data)

  -- `getVerifyOpts`
  unfoldable pub get_verify_opts : Attestation Report → Result AzureError VerifyOptions
  get_verify_opts att = do
    ask ← map_err parsing_ask (lib.parse_certificate att.certs.ask_cert)
    ark ← map_err parsing_ark (lib.parse_certificate att.certs.ark_cert)
    ok (record { ask = ask; ark = ark })

  require_azure : Option AzureInfo → Result AzureError AzureInfo
  require_azure none = err missing_azure_info
  require_azure (some a) = ok a

  -- `getTrustedKey`, at the instance info and the public area of the document's attestation key
  unfoldable pub get_trusted_key : AzureConfig → Bytes → Bytes → Bytes → Result AzureError Key
  unfolding attestation_with_certs get_verify_opts validate_options require_azure
      check_id_key_digest
  get_trusted_key c instance_info ak_pub extra_data = do
    let cached_certs : CertificateChain = record {
      ask = some c.amd_signing_key;
      ark = some c.amd_root_key;
    }
    instance ← map_err unmarshalling (lib.unmarshal instance_info)
    att ← map_err parsing_report (attestation_with_certs lib.snp instance.info cached_certs)
    opts ← get_verify_opts att
    map_err verifying (lib.verify_snp att opts)
    map_err validating (lib.validate_snp att (validate_options c))
    azure ← require_azure instance.azure
    check_id_key_digest c.firmware_signer_config att azure.maa_token extra_data
    pub_area ← map_err decoding_public (lib.decode_public ak_pub)
    map_err hcl (lib.hcl_validate azure.runtime_data (lib.report_data att.report) pub_area)
    map_err key_of (lib.key pub_area)
