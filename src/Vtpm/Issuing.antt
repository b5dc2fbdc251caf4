-- ===== src/Vtpm/Issuing.antt =====
-- An issued attestation document, as a validator sees it.
use geth_sev.Prelude.{
  ◌≡◌, refl, sym, ap, ◌∙◌, ℕ, Bytes, false, List, [], ◌∷◌, Map, Result, ok, err, >>=-eq-ok, map_err,
  map_err-ok, Result-cases, inl, inr,
}
use geth_sev.Attestation.{make_extra_data}
use geth_sev.Vtpm.{
  Document, VtpmError, fetching_info, creating, marshaling, opening_tpm, loading_key, TpmLib,
  Validator, Issuer, Event, opened_tpm, closed_tpm, loaded_key, closed_key, attested, issue,
  validate, make_tpm_nonce,
}
use geth_sev.Vtpm.Quotes.{IsFirstSha256}
use geth_sev.Vtpm.Validation.{Enforced, IsValid, validate_iff}

module _ {Att Key State Tpm Handle : Type 0} (lib : TpmLib Att Key State) where
  -- A validator that is set up for an issuer's machine: documents are read back, instance info that
  -- the issuer fetches for some extra data makes the validator trust a key for that extra data, what
  -- the issuer's key attests is verified under that key and the same nonce, and its quotes have the
  -- enforced measurements.
  pub record IsPeer (i : Issuer Att Tpm Handle) (v : Validator Att Key State) : Type 0 where
    pub key : Key
    pub reads : (d : Document Att) (raw : Bytes) → lib.marshal d ≡ ok raw → lib.unmarshal raw ≡ ok d
    pub trusts :
        (t : Tpm) (d : Document Att) (extra : Bytes)
        → i.open_tpm ≡ ok t
        → i.get_instance_info t extra ≡ ok d.instance_info
        → v.get_trusted_key d extra ≡ ok key
    pub verifies :
        (t : Tpm) (h : Handle) (n : Bytes) (a : Att)
        → i.open_tpm ≡ ok t
        → i.get_attestation_key t ≡ ok h
        → i.attest h n ≡ ok a
        → (s : State) × (lib.verify_attestation a n (key ∷ []) false ≡ ok s)
    pub confidential : (d : Document Att) (s : State) → v.validate_cvm d s ≡ ok tt
    pub quoted :
        (t : Tpm) (h : Handle) (n : Bytes) (a : Att)
        → i.open_tpm ≡ ok t
        → i.get_attestation_key t ≡ ok h
        → i.attest h n ≡ ok a
        → (idx : ℕ) × (pcrs : Map Bytes) × IsFirstSha256 (lib.quotes_of a) idx pcrs
          × Enforced v.expected pcrs

  module _ (i : Issuer Att Tpm Handle) (v : Validator Att Key State) (p : IsPeer i v)
      (user_data nonce raw : Bytes) where
    IsValid-of_attested :
        (t : Tpm) (h : Handle)
        → i.open_tpm ≡ ok t
        → i.get_attestation_key t ≡ ok h
        → attested lib i t h user_data nonce ≡ ok raw
        → IsValid lib v raw nonce user_data
    unfolding attested
    IsValid-of_attested t h ht hh e =
        let extra = make_extra_data lib.sha256 user_data nonce in
        let (info, hi, e1) = >>=-eq-ok (map_err fetching_info (i.get_instance_info t extra)) _ e in
        let n = make_tpm_nonce lib.sha256 info extra in
        let (a, ha, e2) = >>=-eq-ok (map_err creating (i.attest h n)) _ e1 in
        let made = map_err-ok _ _ a ha in
        let (s, hs) = p.verifies t h n a ht hh made in
        let (idx, pcrs, first, enforced) = p.quoted t h n a ht hh made in
        let doc : Document Att = record {
          attestation = a;
          instance_info = info;
          user_data = user_data;
        } in
        record {
          doc = doc;
          key = p.key;
          state = s;
          index = idx;
          pcrs = pcrs;
          unmarshaled = p.reads doc raw (map_err-ok marshaling _ raw e2);
          trusted = p.trusts t doc extra ht (map_err-ok _ _ info hi);
          verified = hs;
          cvm = p.confidential doc s;
          first = first;
          enforced = enforced;
          same_data = refl;
        }

    attested_of_issue :
        (events : List Event)
        → issue lib i user_data nonce ≡ (ok raw, events)
        → (t : Tpm) × (h : Handle) × (i.open_tpm ≡ ok t)
          × (i.get_attestation_key t ≡ ok h)
          × (attested lib i t h user_data nonce ≡ ok raw)
    unfolding issue
    attested_of_issue events e = elim (Result-cases i.open_tpm) [
      | inr (x, ho) ↦
          absurd (err≢ok (opening_tpm x) (sym (ap result (opened_err x ho)) ∙ ap result e))
      | inl (t, ho) ↦ elim (Result-cases (i.get_attestation_key t)) [
        | inr (x, hk) ↦
            absurd (err≢ok (loading_key x) (sym (ap result (key_err t x ho hk)) ∙ ap result e))
        | inl (h, hk) ↦ (t, h, ho, hk, sym (ap result (issued t h ho hk)) ∙ ap result e)
      ]
    ]
      where
        result : Result VtpmError Bytes × List Event → Result VtpmError Bytes
        result r = r.0

        err≢ok : (x : VtpmError) → ◌≡◌ {A = Result VtpmError Bytes} (err x) (ok raw) → ⊥
        err≢ok x h = cc

        opened_err :
            (x : Bytes)
            → i.open_tpm ≡ err x
            → issue lib i user_data nonce ≡ (err (opening_tpm x), [])
        opened_err x ho = rw ho refl

        key_err :
            (t : Tpm) (x : Bytes)
            → i.open_tpm ≡ ok t
            → i.get_attestation_key t ≡ err x
            → issue lib i user_data nonce ≡ (err (loading_key x), opened_tpm ∷ closed_tpm ∷ [])
        key_err t x ho hk = rw ho (rw hk refl)

        issued :
            (t : Tpm) (h : Handle)
            → i.open_tpm ≡ ok t
            → i.get_attestation_key t ≡ ok h
            → issue lib i user_data nonce ≡ (
              attested lib i t h user_data nonce,
              opened_tpm ∷ loaded_key ∷ closed_key ∷ closed_tpm ∷ [],
            )
        issued t h ho hk = rw ho (rw hk refl)

-- A document that is issued for user data and a nonce is validated under that nonce by a validator
-- that is set up for the issuer's machine, and gives the user data back.
pub validate-issue :
    {Att Key State Tpm Handle : Type 0} (lib : TpmLib Att Key State) (i : Issuer Att Tpm Handle)
    (v : Validator Att Key State) (user_data nonce raw : Bytes) (events : List Event)
    → IsPeer lib i v
    → issue lib i user_data nonce ≡ (ok raw, events)
    → validate lib v raw nonce ≡ ok user_data
validate-issue lib i v user_data nonce raw events p e =
    let (t, h, ht, hh, made) = attested_of_issue lib i v p user_data nonce raw events e in
    (validate_iff lib v raw nonce user_data).1
      (IsValid-of_attested lib i v p user_data nonce raw t h ht hh made)
