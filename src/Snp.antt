-- ===== src/Snp.antt =====
-- constellation/attestation/snp/snp.go: the certificates of an SEV-SNP report, from the issuer, the
-- configuration, or AMD's key distribution service (KDS). PEM, X.509 and the KDS are parameters.
pub mod Chain
pub mod Names
use geth_sev.Prelude.{
  ℕ, zero, suc, ◌==◌, Bytes, codes, bytes_eq, length, Bool, true, false, ◌&&◌, ◌||◌, not, Option,
  none, some, List, [], ◌∷◌, Result, ok, err, ◌>>=◌, ◌>>◌, map_err, if◌then◌else◌,
}

-- `x509.Certificate`, by the fields that are read here. `Raw` is nil in a zero certificate.
pub record Cert : Type 0 where
  pub raw : Option Bytes
  pub common_name : Bytes

pub record Block : Type 0 where
  pub kind : Bytes
  pub content : Bytes

-- `abi.ReportSigner`, as `ParseSignerInfo` gives it
pub data ReportSigner : Type 0 where
  vcek vlek no_signer : ReportSigner

-- The product certificates of the KDS; nil is `none`.
pub record ProductCerts : Type 0 where
  pub ask : Option Cert
  pub ark : Option Cert

-- What is called beyond the repository: `bytes.TrimSpace`, `pem.Decode` with nil as `none`,
-- `x509.ParseCertificate`, and of go-sev-guest the report's conversion, its signer, and the KDS.
pub record SnpLib (Report : Type 0) : Type 0 where
  pub trim_space : Bytes → Bytes
  pub pem_decode : Bytes → Option (Block × Bytes)
  pub parse_certificate : Bytes → Result Bytes Cert
  pub report_to_proto : Bytes → Result Bytes Report
  pub signer_info : Report → Result Bytes ReportSigner
  pub get_vcek : Report → Result Bytes Bytes
  pub get_product_chain : ReportSigner → Result Bytes ProductCerts

pub data SnpError : Type 0 where
  no_pem_blocks too_many remaining_block : SnpError
  block_type common_name_of parsing : Bytes → SnpError
  signer_more_data signer_no_pem : SnpError
  converting signer_info_error retrieving_vcek retrieving_chain : Bytes → SnpError
  vlek_missing panic : SnpError

-- `InstanceInfo`, without the fields of single providers
pub record InstanceInfo : Type 0 where
  pub report_signer : Bytes
  pub cert_chain : Bytes
  pub attestation_report : Bytes

-- `CertificateChain`
pub record CertificateChain : Type 0 where
  pub ask : Option Cert
  pub ark : Option Cert

-- The named results of `ParseCertChain`: on an error what is set so far is returned with it.
pub record ParsedChain : Type 0 where
  pub ask : Option Cert
  pub ark : Option Cert
  pub ret_err : Option SnpError

-- The certificates of `spb.CertificateChain`; nil is `none`.
pub record ReportCerts : Type 0 where
  pub vcek_cert : Option Bytes
  pub vlek_cert : Option Bytes
  pub ask_cert : Option Bytes
  pub ark_cert : Option Bytes

pub record Attestation (Report : Type 0) : Type 0 where
  pub report : Report
  pub certs : ReportCerts

is_none : {A : Type 0} → Option A → Bool
is_none none = true
is_none (some a) = false

raw_of : Option Cert → Option Bytes
raw_of none = none
raw_of (some c) = c.raw

or_else : Option Bytes → Option Bytes → Option Bytes
or_else none o = o
or_else (some a) o = some a

module _ {Report : Type 0} (lib : SnpLib Report) where
  -- The switch of `ParseCertChain` on the common name of one block's certificate.
  place : Cert → ParsedChain → ParsedChain
  unfolding bytes_eq
  place cert chain =
      if bytes_eq cert.common_name (codes "SEV-Milan")
        || bytes_eq cert.common_name (codes "SEV-VLEK-Milan")
      then record { ask = some cert; ark = chain.ark; ret_err = chain.ret_err }
      else if bytes_eq cert.common_name (codes "ARK-Milan")
      then record { ask = chain.ask; ark = some cert; ret_err = chain.ret_err }
      else record {
        ask = chain.ask;
        ark = chain.ark;
        ret_err = some (common_name_of cert.common_name);
      }

  failed : SnpError → ParsedChain → ParsedChain
  failed e chain = record { ask = chain.ask; ark = chain.ark; ret_err = some e }

  -- One block: the chain with the block's certificate, or with an error.
  read_block : Block → ParsedChain → ParsedChain
  unfolding bytes_eq place failed
  read_block block chain =
      if not (bytes_eq block.kind (codes "CERTIFICATE"))
      then failed (block_type block.kind) chain
      else elim (lib.parse_certificate block.content) [
        | err e ↦ failed (parsing e) chain
        | ok cert ↦ place cert chain
      ]

  -- After the last block: `first` says that there was none, and the bytes are what is left.
  finished : Bool → Bytes → ParsedChain → ParsedChain
  unfolding failed
  finished first rest chain =
      if first
      then failed no_pem_blocks chain
      else if not (length rest == 0)
      then failed remaining_block chain
      else chain

  -- The loop of `ParseCertChain`; the number is that of the blocks that may still come, 3 - i.
  chain_loop : ℕ → Bool → Bytes → ParsedChain → ParsedChain
  unfolding read_block finished failed is_none
  chain_loop zero first rest chain = elim (lib.pem_decode rest) [
    | none ↦ finished first rest chain
    | some d ↦ failed too_many chain
  ]
  chain_loop (suc n) first rest chain =
      let next : Block × Bytes → ParsedChain = λ d. chain_loop n false d.1 (read_block d.0 chain) in
      elim (lib.pem_decode rest) [
        | none ↦ finished first rest chain
        | some d ↦ if is_none ((read_block d.0 chain).ret_err) then next d else read_block d.0 chain
      ]

  -- `ParseCertChain`
  unfoldable pub parse_cert_chain : InstanceInfo → ParsedChain
  unfolding chain_loop
  parse_cert_chain info =
      chain_loop 2 true (lib.trim_space info.cert_chain)
        (record { ask = none; ark = none; ret_err = none })

  -- `ParseReportSigner`
  unfoldable pub parse_report_signer : InstanceInfo → Result SnpError (Option Cert)
  unfolding bytes_eq
  parse_report_signer info =
      if length (lib.trim_space info.report_signer) == 0
      then ok none
      else elim (lib.pem_decode (lib.trim_space info.report_signer)) [
        | none ↦ err signer_no_pem
        | some d ↦
            if not (length d.1 == 0)
            then err signer_more_data
            else if not (bytes_eq d.0.kind (codes "CERTIFICATE"))
            then err (block_type d.0.kind)
            else (map_err parsing (lib.parse_certificate d.0.content) >>= λ c. ok (some c))
      ]

  -- The certificate, nil if there is none or on an error, which is only logged.
  signer_cert : InstanceInfo → Option Cert
  unfolding parse_report_signer
  signer_cert info = elim (parse_report_signer info) [ ok c ↦ c | err e ↦ none ]

  with_signer : Option Cert → Report → ReportSigner → Result SnpError ReportCerts
  with_signer none report vlek = err vlek_missing
  with_signer (some c) report vlek =
      ok (record { vcek_cert = none; vlek_cert = c.raw; ask_cert = none; ark_cert = none })
  with_signer none report vcek = do
    vcek_data ← map_err retrieving_vcek (lib.get_vcek report)
    ok (record { vcek_cert = some vcek_data; vlek_cert = none; ask_cert = none; ark_cert = none })
  with_signer (some c) report vcek =
      ok (record { vcek_cert = c.raw; vlek_cert = none; ask_cert = none; ark_cert = none })
  with_signer none report no_signer =
      ok (record { vcek_cert = none; vlek_cert = none; ask_cert = none; ark_cert = none })
  with_signer (some c) report no_signer =
      ok (record { vcek_cert = none; vlek_cert = none; ask_cert = none; ark_cert = none })

  -- `addReportSigner`, on the empty chain that it is called with
  unfoldable pub add_report_signer :
      InstanceInfo → Report → Result SnpError (ReportCerts × ReportSigner)
  unfolding with_signer signer_cert
  add_report_signer info report = do
    signing_key ← map_err signer_info_error (lib.signer_info report)
    certs ← with_signer (signer_cert info) report signing_key
    ok (certs, signing_key)

  -- `if att.CertificateChain.ArkCert == nil && kdsCertChain.Ask != nil`: the condition tests the ASK
  -- and the assignment reads the ARK.
  kds_ark : Option Bytes → ProductCerts → Result SnpError (Option Bytes)
  unfolding is_none raw_of
  kds_ark ark kds =
      if is_none ark && not (is_none kds.ask)
      then elim kds.ark [ none ↦ err panic | some c ↦ ok c.raw ]
      else ok ark

  -- The certificates that are still missing, from the KDS.
  completed :
      Option Bytes → Option Bytes → ReportSigner → Result SnpError (Option Bytes × Option Bytes)
  unfolding is_none raw_of or_else kds_ark
  completed ask ark signing_key =
      if is_none ask || is_none ark
      then (do
        kds ← map_err retrieving_chain (lib.get_product_chain signing_key)
        ark_cert ← kds_ark ark kds
        ok (or_else ask (raw_of kds.ask), ark_cert))
      else ok (ask, ark)

  -- `AttestationWithCerts`
  unfoldable pub attestation_with_certs :
      InstanceInfo → CertificateChain → Result SnpError (Attestation Report)
  unfolding add_report_signer parse_cert_chain completed or_else raw_of
  attestation_with_certs info fallback_certs = do
    report ← map_err converting (lib.report_to_proto info.attestation_report)
    (certs, signing_key) ← add_report_signer info report
    let ask : Option Bytes =
        or_else (raw_of ((parse_cert_chain info).ask)) (raw_of fallback_certs.ask)
    (ask_cert, ark_cert) ← completed ask (raw_of fallback_certs.ark) signing_key
    ok (record {
      report = report;
      certs = record {
        vcek_cert = certs.vcek_cert;
        vlek_cert = certs.vlek_cert;
        ask_cert = ask_cert;
        ark_cert = ark_cert;
      };
    })
