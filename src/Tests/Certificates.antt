-- ===== src/Tests/Certificates.antt =====
-- SEV-SNP reports with toy certificates, whose bytes are their common names.
use geth_sev.Prelude.{
  ℕ, ◌≡◌, ◌↔◌, ◌⊎◌, refl, Bytes, codes, bytes_eq, Option, some, none, [], ◌∷◌, In, ok,
}
use geth_sev.AzureSnp.{AzureConfig, AzureLib, FirmwareSignerConfig, check_id_key_digest}
use geth_sev.AzureSnp.KeyDigest.{check_id_key_digest_iff}
use geth_sev.IdKeyDigest.{maa_fallback, warn_only}
use geth_sev.Snp.{
  Cert, Block, SnpLib, InstanceInfo, CertificateChain, Attestation, vcek, parse_cert_chain,
  attestation_with_certs,
}
use geth_sev.Snp.Chain.{IsArkFrom, attestation_with_certs-ark}
use geth_sev.Snp.Names.{parse_cert_chain_lem}

-- A chain is one block, and there is no block in nothing.
abbrev one_block : Bytes → Option (Block × Bytes)
one_block [] = none
one_block (x ∷ rest) = some (record { kind = codes "CERTIFICATE"; content = x ∷ rest }, [])

abbrev snp_toy : SnpLib ℕ
snp_toy = record {
  trim_space = λ b. b;
  pem_decode = one_block;
  parse_certificate = λ b. ok (record { raw = some b; common_name = b });
  report_to_proto = λ b. ok 1;
  signer_info = λ r. ok vcek;
  get_vcek = λ r. ok (2 ∷ []);
  get_product_chain = λ s. ok (record {
    ask = some (record { raw = some (5 ∷ []); common_name = [] });
    ark = some (record { raw = some (6 ∷ []); common_name = [] });
  });
}

abbrev forged : InstanceInfo
forged = record { report_signer = []; cert_chain = codes "ARK-Milan"; attestation_report = [] }

abbrev cert : Bytes → Cert
cert b = record { raw = some b; common_name = b }

abbrev configured : CertificateChain
configured = record { ask = some (cert (3 ∷ [])); ark = some (cert (4 ∷ [])) }

abbrev attested : Attestation ℕ
attested = record {
  report = 1;
  certs = record {
    vcek_cert = some (2 ∷ []);
    vlek_cert = none;
    ask_cert = some (3 ∷ []);
    ark_cert = some (4 ∷ []);
  };
}

attested_ok : attestation_with_certs snp_toy forged configured ≡ ok attested
unfolding attestation_with_certs bytes_eq
attested_ok = refl

ark_example : IsArkFrom snp_toy configured.ark attested
ark_example = attestation_with_certs-ark snp_toy forged configured attested attested_ok

chain_example :
    (((parse_cert_chain snp_toy forged).ask ≡ some (cert (codes "ARK-Milan")))
      → (codes "ARK-Milan" ≡ codes "SEV-Milan") ⊎ (codes "ARK-Milan" ≡ codes "SEV-VLEK-Milan"))
    × (((parse_cert_chain snp_toy forged).ark ≡ some (cert (codes "ARK-Milan")))
        → codes "ARK-Milan" ≡ codes "ARK-Milan")
chain_example = parse_cert_chain_lem snp_toy forged (cert (codes "ARK-Milan"))

abbrev azure_toy : AzureLib ℕ ℕ ℕ
azure_toy = record {
  snp = snp_toy;
  unmarshal = λ b.
      ok
        (record { info = forged; azure = some (record { runtime_data = []; maa_token = 9 ∷ [] }) });
  parse_certificate = λ o. ok (cert []);
  verify_snp = λ a o. ok tt;
  validate_snp = λ a o. ok tt;
  id_key_digest = λ r. 8 ∷ [];
  report_data = λ r. [];
  validate_token = λ url token extra. ok tt;
  decode_public = λ b. ok 5;
  hcl_validate = λ a b p. ok tt;
  key = λ p. ok p;
}

abbrev signer : FirmwareSignerConfig
signer = record { accepted_key_digests = []; enforcement_policy = maa_fallback; maa_url = [] }

-- As in the default configuration, the signing key is a zero certificate.
abbrev config : AzureConfig
config = record {
  bootloader_version = 3;
  tee_version = 0;
  snp_version = 8;
  microcode_version = 115;
  firmware_signer_config = signer;
  amd_root_key = cert (4 ∷ []);
  amd_signing_key = record { raw = none; common_name = [] };
}

digest_example : (check_id_key_digest azure_toy signer attested (9 ∷ []) [] ≡ ok tt) ↔ (
    In (azure_toy.id_key_digest 1) []
    ⊎ (((maa_fallback ≡ maa_fallback) × (azure_toy.validate_token [] (9 ∷ []) [] ≡ ok tt))
        ⊎ (maa_fallback ≡ warn_only)))
digest_example = check_id_key_digest_iff azure_toy signer attested (9 ∷ []) []
