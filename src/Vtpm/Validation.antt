-- ===== src/Vtpm/Validation.antt =====
-- What a validated attestation document says.
use geth_sev.Prelude.{
  ◌≡◌, ◌↔◌, refl, sym, ap, ◌∙◌, ℕ, Bytes, false, some, List, [], ◌∷◌, Map, lookup, ok, >>=-eq-ok,
  ok-injective, map_err, map_err-ok,
}
use geth_sev.Attestation.{make_extra_data}
use geth_sev.Measurements.{M, Measurement, enforce, compare, reported, Complaint}
use geth_sev.Measurements.Comparing.{compare_passes_iff}
use geth_sev.Vtpm.{
  Document, unmarshaling, untrusted_key, verifying_attestation, validating_cvm, quotes, TpmLib,
  Validator, get_sha256_quote_index, on_errors, on_pcrs, make_tpm_nonce, validate,
}
use geth_sev.Vtpm.Quotes.{IsFirstSha256, get_sha256_quote_index_iff, pcrs_at-first}

-- Every enforced measurement equals the reported value.
abbrev pub Enforced : M → Map Bytes → Type 0
Enforced m o =
    (k : ℕ) (v : Measurement)
    → lookup k m ≡ some v
    → v.validation_opt ≡ enforce
    → v.expected ≡ reported k o

-- The stages of a validation that succeed, one after the other.
pub record IsValid {Att Key State : Type 0} (lib : TpmLib Att Key State)
    (v : Validator Att Key State) (raw nonce user_data : Bytes) : Type 0 where
  pub doc : Document Att
  pub key : Key
  pub state : State
  pub index : ℕ
  pub pcrs : Map Bytes
  pub unmarshaled : lib.unmarshal raw ≡ ok doc
  pub trusted : v.get_trusted_key doc (make_extra_data lib.sha256 doc.user_data nonce) ≡ ok key
  pub verified :
      lib.verify_attestation doc.attestation
        (make_tpm_nonce lib.sha256 doc.instance_info
          (make_extra_data lib.sha256 doc.user_data nonce))
        (key ∷ [])
        false
      ≡ ok state
  pub cvm : v.validate_cvm doc state ≡ ok tt
  pub first : IsFirstSha256 (lib.quotes_of doc.attestation) index pcrs
  pub enforced : Enforced v.expected pcrs
  pub same_data : doc.user_data ≡ user_data

on_errors_iff :
    (es : List Complaint) (given result : Bytes)
    → (on_errors es given ≡ ok result) ↔ ((es ≡ []) × (given ≡ result))
unfolding on_errors
on_errors_iff [] given result = (λ h. (refl, ok-injective given result h), λ h. ap ok h.1)
on_errors_iff (c ∷ es) given result = (λ h. cc, λ h. cc)

on_pcrs_iff :
    (m : M) (pcrs : Map Bytes) (given result : Bytes)
    → (on_pcrs m (some pcrs) given ≡ ok result) ↔ (Enforced m pcrs × (given ≡ result))
unfolding on_pcrs
on_pcrs_iff m pcrs given result =
    let f = on_errors_iff ((compare m pcrs).1) given result in
    let c = compare_passes_iff m pcrs in
    (λ h. (c.0 ((f.0 h).0), (f.0 h).1), λ h. f.1 (c.1 h.0, h.1))

module _ {Att Key State : Type 0} (lib : TpmLib Att Key State) where
  module _ (v : Validator Att Key State) (raw nonce user_data : Bytes) where
    validated : validate lib v raw nonce ≡ ok user_data → IsValid lib v raw nonce user_data
    unfolding validate
    validated h =
        let (doc, hd, h1) = >>=-eq-ok (map_err unmarshaling (lib.unmarshal raw)) _ h in
        let (key, hk, h2) =
          >>=-eq-ok
            (map_err untrusted_key
              (v.get_trusted_key doc (make_extra_data lib.sha256 doc.user_data nonce)))
            _ h1 in
        let (state, hs, h3) =
          >>=-eq-ok
            (map_err verifying_attestation (
              lib.verify_attestation doc.attestation
                (make_tpm_nonce lib.sha256 doc.instance_info
                  (make_extra_data lib.sha256 doc.user_data nonce))
                (key ∷ []) false))
            _ h2 in
        let (u, hu, h4) = >>=-eq-ok (map_err validating_cvm (v.validate_cvm doc state)) _ h3 in
        let (idx, hi, h5) =
          >>=-eq-ok (map_err quotes (get_sha256_quote_index (lib.quotes_of doc.attestation))) _
            h4 in
        let (pcrs, first) =
          (get_sha256_quote_index_iff (lib.quotes_of doc.attestation) idx).0
            (map_err-ok _ _ idx hi) in
        let (enforced, same) = (on_pcrs_iff v.expected pcrs doc.user_data user_data).0 (
          ap (λ o. on_pcrs v.expected o doc.user_data)
            (sym (pcrs_at-first (lib.quotes_of doc.attestation) idx pcrs first))
          ∙ h5) in
        record {
          doc = doc;
          key = key;
          state = state;
          index = idx;
          pcrs = pcrs;
          unmarshaled = map_err-ok _ _ doc hd;
          trusted = map_err-ok _ _ key hk;
          verified = map_err-ok _ _ state hs;
          cvm = map_err-ok _ _ tt hu;
          first = first;
          enforced = enforced;
          same_data = same;
        }

    validates : IsValid lib v raw nonce user_data → validate lib v raw nonce ≡ ok user_data
    unfolding validate
    validates i =
        rw
          (
            i.unmarshaled,
            i.trusted,
            i.verified,
            i.cvm,
            (get_sha256_quote_index_iff (lib.quotes_of i.doc.attestation) i.index).1
                (i.pcrs, i.first),
          )
          (ap (λ o. on_pcrs v.expected o i.doc.user_data)
              (pcrs_at-first (lib.quotes_of i.doc.attestation) i.index i.pcrs i.first)
            ∙ (on_pcrs_iff v.expected i.pcrs i.doc.user_data user_data).1 (i.enforced, i.same_data))

-- `Validate` returns user data exactly if the document is read, its key is trusted for the extra
-- data of that user data and the nonce, the attestation is verified under that key and the nonce
-- of the instance info, the confidential computing check passes, and every enforced measurement
-- equals the value of the first SHA256 quote; the result is the document's user data.
pub validate_iff :
    {Att Key State : Type 0} (lib : TpmLib Att Key State) (v : Validator Att Key State)
    (raw nonce user_data : Bytes)
    → (validate lib v raw nonce ≡ ok user_data) ↔ IsValid lib v raw nonce user_data
validate_iff lib v raw nonce user_data =
    (validated lib v raw nonce user_data, validates lib v raw nonce user_data)
