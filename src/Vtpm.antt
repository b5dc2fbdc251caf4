-- ===== src/Vtpm.antt =====
-- constellation/attestation/vtpm/attestation.go: attestation documents of a TPM, issued and
-- validated. TPM, protobuf and JSON calls are parameters.
pub mod Quotes
pub mod Validation
pub mod Issuing
pub mod Selected
use geth_sev.Prelude.{
  ℕ, zero, suc, ◌==◌, Bytes, length, Bool, true, false, Option, none, some, List, [], ◌∷◌, ◌++◌,
  Map, insert, Result, ok, err, ◌>>=◌, ◌>>◌, map_err, not, if◌then◌else◌,
}
use geth_sev.Attestation.{make_extra_data}
use geth_sev.Measurements.{M, enforce, Complaint, compare}

-- `tpmProto.PCRs`: the hash algorithm, whether it is SHA256, and the values by index.
pub record Pcrs : Type 0 where
  pub is_sha256 : Bool
  pub pcrs : Map Bytes

-- `tpmProto.Quote`, by the field that is read here; nil is `none`.
pub record Quote : Type 0 where
  pub pcrs : Option Pcrs

pub data QuoteError : Type 0 where
  missing_quotes quote_nil no_pcr_data no_sha256 : QuoteError

-- The loop of `GetSHA256QuoteIndex`, from an index on.
quote_loop : ℕ → List (Option Quote) → Result QuoteError ℕ
quote_loop idx [] = err no_sha256
quote_loop idx (none ∷ quotes) = err quote_nil
quote_loop idx (some q ∷ quotes) =
    let next = quote_loop (suc idx) quotes in
    elim q.pcrs [ none ↦ err no_pcr_data | some p ↦ if p.is_sha256 then ok idx else next ]

-- `GetSHA256QuoteIndex`
unfoldable pub get_sha256_quote_index : List (Option Quote) → Result QuoteError ℕ
unfolding quote_loop
get_sha256_quote_index quotes =
    if length quotes == 0 then err missing_quotes else quote_loop 0 quotes

-- `quotes[i].Pcrs.Pcrs`; a nil pointer or an index out of range panics.
unfoldable pub pcrs_at : ℕ → List (Option Quote) → Option (Map Bytes)
pcrs_at i [] = none
pcrs_at zero (q ∷ quotes) = elim q [
  | none ↦ none
  | some r ↦ elim r.pcrs [ none ↦ none | some p ↦ some p.pcrs ]
]
pcrs_at (suc i) (q ∷ quotes) = pcrs_at i quotes

-- `AttestationDocument`, over the type of the TPM attestation
pub record Document (Att : Type 0) : Type 0 where
  pub attestation : Att
  pub instance_info : Bytes
  pub user_data : Bytes

pub data VtpmError : Type 0 where
  opening_tpm loading_key fetching_info creating marshaling unmarshaling : Bytes → VtpmError
  untrusted_key verifying_attestation validating_cvm : Bytes → VtpmError
  quotes : QuoteError → VtpmError
  measurement_validation : List Complaint → VtpmError
  panic : VtpmError

-- What the code calls beyond the repository: SHA-256, JSON, and the verification of go-tpm-tools,
-- which takes the nonce, the trusted keys and whether SHA-1 is allowed.
pub record TpmLib (Att Key State : Type 0) : Type 0 where
  pub sha256 : Bytes → Bytes
  pub marshal : Document Att → Result Bytes Bytes
  pub unmarshal : Bytes → Result Bytes (Document Att)
  pub quotes_of : Att → List (Option Quote)
  pub verify_attestation : Att → Bytes → List Key → Bool → Result Bytes State

-- `Validator`
pub record Validator (Att Key State : Type 0) : Type 0 where
  pub expected : M
  pub get_trusted_key : Document Att → Bytes → Result Bytes Key
  pub validate_cvm : Document Att → State → Result Bytes (Unit {0})

-- `Issuer`; `attest` is the method of the key that `getAttestationKey` returns. `Tpm` and `Handle`
-- are what `openTPM` and `getAttestationKey` give.
pub record Issuer (Att Tpm Handle : Type 0) : Type 0 where
  pub open_tpm : Result Bytes Tpm
  pub get_attestation_key : Tpm → Result Bytes Handle
  pub get_instance_info : Tpm → Bytes → Result Bytes Bytes
  pub attest : Handle → Bytes → Result Bytes Att

-- What is open when the call returns, by the deferred closings.
pub data Event : Type 0 where
  opened_tpm closed_tpm loaded_key closed_key : Event

-- `makeTpmNonce`
unfoldable pub make_tpm_nonce : (Bytes → Bytes) → Bytes → Bytes → Bytes
make_tpm_nonce sha256 instance_info extra_data = sha256 (instance_info ++ extra_data)

on_errors : List Complaint → Bytes → Result VtpmError Bytes
on_errors [] user_data = ok user_data
on_errors (e ∷ errs) user_data = err (measurement_validation (e ∷ errs))

on_pcrs : M → Option (Map Bytes) → Bytes → Result VtpmError Bytes
unfolding compare on_errors
on_pcrs expected none user_data = err panic
on_pcrs expected (some pcrs) user_data = on_errors ((compare expected pcrs).1) user_data

module _ {Att Key State : Type 0} (lib : TpmLib Att Key State) where
  -- `Validator.Validate`; the log is left out.
  unfoldable pub validate : Validator Att Key State → Bytes → Bytes → Result VtpmError Bytes
  unfolding make_extra_data make_tpm_nonce get_sha256_quote_index pcrs_at on_pcrs
  validate v att_doc_raw nonce = do
    att_doc ← map_err unmarshaling (lib.unmarshal att_doc_raw)
    let extra_data : Bytes = make_extra_data lib.sha256 att_doc.user_data nonce
    akp ← map_err untrusted_key (v.get_trusted_key att_doc extra_data)
    let tpm_nonce : Bytes = make_tpm_nonce lib.sha256 att_doc.instance_info extra_data
    state ←
        map_err verifying_attestation
          (lib.verify_attestation att_doc.attestation tpm_nonce (akp ∷ []) false)
    map_err validating_cvm (v.validate_cvm att_doc state)
    quote_idx ← map_err quotes (get_sha256_quote_index (lib.quotes_of att_doc.attestation))
    on_pcrs v.expected (pcrs_at quote_idx (lib.quotes_of att_doc.attestation)) att_doc.user_data

  module _ {Tpm Handle : Type 0} where
    attested : Issuer Att Tpm Handle → Tpm → Handle → Bytes → Bytes → Result VtpmError Bytes
    unfolding make_extra_data make_tpm_nonce
    attested i tpm ak user_data nonce = do
      let extra_data : Bytes = make_extra_data lib.sha256 user_data nonce
      instance_info ← map_err fetching_info (i.get_instance_info tpm extra_data)
      let tpm_nonce : Bytes = make_tpm_nonce lib.sha256 instance_info extra_data
      tpm_attestation ← map_err creating (i.attest ak tpm_nonce)
      map_err marshaling (
          lib.marshal (record {
            attestation = tpm_attestation;
            instance_info = instance_info;
            user_data = user_data;
          }))

    -- `Issuer.Issue`: the result, and what was opened and closed, in order
    unfoldable pub issue :
        Issuer Att Tpm Handle → Bytes → Bytes → Result VtpmError Bytes × List Event
    unfolding attested
    issue i user_data nonce = elim i.open_tpm [
      | err e ↦ (err (opening_tpm e), [])
      | ok tpm ↦ elim (i.get_attestation_key tpm) [
        | err e ↦ (err (loading_key e), opened_tpm ∷ closed_tpm ∷ [])
        | ok ak ↦ (
          attested i tpm ak user_data nonce,
          opened_tpm ∷ loaded_key ∷ closed_key ∷ closed_tpm ∷ [],
        )
      ]
    ]

-- The loop of `GetSelectedMeasurements`, over the values in the order of the iteration; the error
-- is the length of the offending value.
selected_loop : Map Bytes → M → Result ℕ M
selected_loop [] m = ok m
selected_loop ((i, pcr) ∷ pcrs) m =
    let next =
      selected_loop pcrs (insert i (record { expected = pcr; validation_opt = enforce }) m) in
    if not (length pcr == 32) then err (length pcr) else next

-- `GetSelectedMeasurements`, from the values that `ReadPCRs` has read
unfoldable pub get_selected_measurements : Map Bytes → Result ℕ M
unfolding selected_loop
get_selected_measurements pcrs = selected_loop pcrs []
