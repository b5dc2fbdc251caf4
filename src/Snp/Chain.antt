-- ===== src/Snp/Chain.antt =====
-- `AttestationWithCerts`: where the root and the signing key come from.
use geth_sev.Prelude.{
  ◌≡◌, ◌⊎◌, refl, sym, ap, ◌∙◌, Bytes, Bool-cases, Option-cases, true, false, ◌||◌, Option, none,
  some, inl, inr, Result, ok, err, ◌>>=◌, >>=-eq-ok, ok-injective, map_err, map_err-ok,
}
use geth_sev.Snp.{
  Cert, SnpLib, SnpError, panic, InstanceInfo, CertificateChain, ProductCerts, ReportSigner,
  Attestation, attestation_with_certs, parse_cert_chain, add_report_signer, completed, kds_ark,
  ReportCerts, with_signer, signer_cert, signer_info_error, is_none, raw_of, or_else,
  retrieving_chain, converting,
}

module _ {Report : Type 0} (lib : SnpLib Report) where
  -- A root key of the KDS with these bytes.
  abbrev pub IsKdsArk : ReportSigner → Bytes → Type 0
  IsKdsArk key r =
      (kds : ProductCerts) × (c : Cert) × (lib.get_product_chain key ≡ ok kds)
      × (kds.ark ≡ some c)
      × (c.raw ≡ some r)

  kds_ark_kept :
      (a : Bytes) (kds : ProductCerts) (result : Option Bytes)
      → kds_ark lib (some a) kds ≡ ok result
      → result ≡ some a
  unfolding kds_ark is_none
  kds_ark_kept a kds result h = sym (ok-injective _ _ h)

  kds_ark_found :
      (kds : ProductCerts) (r : Bytes)
      → kds_ark lib none kds ≡ ok (some r)
      → (c : Cert) × (kds.ark ≡ some c) × (c.raw ≡ some r)
  unfolding kds_ark is_none
  kds_ark_found kds r h = elim (Option-cases kds.ask) [
    | inl e ↦ absurd (none≢ok (sym (no_ask e) ∙ h))
    | inr (a, e) ↦ elim (Option-cases kds.ark) [
      | inl n ↦ absurd (err≢ok (sym (panics a e n) ∙ h))
      | inr (c, s) ↦ (c, s, ok-injective _ _ (sym (found a c e s) ∙ h))
    ]
  ]
    where
      none≢ok : ◌≡◌ {A = Result SnpError (Option Bytes)} (ok none) (ok (some r)) → ⊥
      none≢ok h = cc

      err≢ok : ◌≡◌ {A = Result SnpError (Option Bytes)} (err panic) (ok (some r)) → ⊥
      err≢ok h = cc

      no_ask : kds.ask ≡ none → kds_ark lib none kds ≡ ok none
      no_ask e = rw (e, kds_ark) refl

      panics : (a : Cert) → kds.ask ≡ some a → kds.ark ≡ none → kds_ark lib none kds ≡ err panic
      panics a e n = rw (e, n, kds_ark) refl

      found : (a c : Cert) → kds.ask ≡ some a → kds.ark ≡ some c → kds_ark lib none kds ≡ ok c.raw
      found a c e s = rw (e, s, kds_ark) refl

  completed_with :
      (ask ark ask' ark' : Option Bytes) (key : ReportSigner)
      → completed lib ask ark key ≡ ok (ask', ark')
      → (ark' ≡ ark)
        ⊎ ((kds : ProductCerts) × (lib.get_product_chain key ≡ ok kds)
            × (kds_ark lib ark kds ≡ ok ark'))
  unfolding completed
  completed_with ask ark ask' ark' key h = elim (Bool-cases (is_none ask || is_none ark)) [
    | inr n ↦ inl (sym (ap (λ p. p.1) (ok-injective _ _ (sym (at_hand n) ∙ h))))
    | inl y ↦
        let (kds, hk, h1) =
          >>=-eq-ok (map_err retrieving_chain (lib.get_product_chain key)) _ (sym (asked y) ∙ h) in
        let (a, ha, h2) = >>=-eq-ok (kds_ark lib ark kds) _ h1 in
        inr (kds, map_err-ok _ _ kds hk, ha ∙ ap ok (ap (λ p. p.1) (ok-injective _ _ h2)))
  ]
    where
      at_hand : (is_none ask || is_none ark) ≡ false → completed lib ask ark key ≡ ok (ask, ark)
      at_hand n = rw (n, completed) refl

      asked :
          (is_none ask || is_none ark) ≡ true
          → completed lib ask ark key ≡ (
              map_err retrieving_chain (lib.get_product_chain key) >>= λ kds.
              kds_ark lib ark kds >>= λ ark_cert. ok (or_else ask (raw_of kds.ask), ark_cert))
      asked y = rw (y, completed) refl

  ark_of_some :
      (ask : Option Bytes) (a : Bytes) (ask' ark' : Option Bytes) (key : ReportSigner)
      → completed lib ask (some a) key ≡ ok (ask', ark')
      → ark' ≡ some a
  ark_of_some ask a ask' ark' key h = elim (completed_with ask (some a) ask' ark' key h) [
    | inl e ↦ e
    | inr (kds, hk, e) ↦ kds_ark_kept a kds ark' e
  ]

  ark_of_none :
      (ask ask' : Option Bytes) (r : Bytes) (key : ReportSigner)
      → completed lib ask none key ≡ ok (ask', some r)
      → IsKdsArk key r
  ark_of_none ask ask' r key h = elim (completed_with ask none ask' (some r) key h) [
    | inl e ↦ absurd (some≢none e)
    | inr (kds, hk, e) ↦ let (c, hc, hr) = kds_ark_found kds r e in (kds, c, hk, hc, hr)
  ]
    where
      some≢none : some r ≡ none → ⊥
      some≢none h = cc

  signer_of :
      (info : InstanceInfo) (report : Report) (certs : ReportCerts) (key : ReportSigner)
      → add_report_signer lib info report ≡ ok (certs, key)
      → lib.signer_info report ≡ ok key
  unfolding add_report_signer
  signer_of info report certs key h =
      let (signing_key, hs, h1) =
        >>=-eq-ok (map_err signer_info_error (lib.signer_info report)) _ h in
      let (c, hc, h2) =
        >>=-eq-ok (with_signer lib (signer_cert lib info) report signing_key) _ h1 in
      map_err-ok _ _ signing_key hs ∙ ap (λ p. ok p.1) (ok-injective _ _ h2)

  attested_steps :
      (info : InstanceInfo) (fallback : CertificateChain) (att : Attestation Report)
      → attestation_with_certs lib info fallback ≡ ok att
      → (key : ReportSigner) × (ask ask' : Option Bytes) × (lib.signer_info att.report ≡ ok key)
        × (completed lib ask (raw_of fallback.ark) key ≡ ok (ask', att.certs.ark_cert))
  unfolding attestation_with_certs
  attested_steps info fallback att h =
      let (report, hr, h1) =
        >>=-eq-ok (map_err converting (lib.report_to_proto info.attestation_report)) _ h in
      let (p, hp, h2) = >>=-eq-ok (add_report_signer lib info report) _ h1 in
      let ask = or_else (raw_of ((parse_cert_chain lib info).ask)) (raw_of fallback.ask) in
      let (q, hq, h3) = >>=-eq-ok (completed lib ask (raw_of fallback.ark) p.1) _ h2 in
      let result = ok-injective _ _ h3 in
      (
        p.1,
        ask,
        q.0,
        ap (λ a. lib.signer_info a.report) (sym result) ∙ signer_of info report p.0 p.1 hp,
        hq ∙ ap (λ a. ok (q.0, a.certs.ark_cert)) result,
      )

-- No certificate, or a zero certificate, which has no bytes.
abbrev pub HasNoBytes : Option Cert → Type 0
HasNoBytes o = (o ≡ none) ⊎ ((c : Cert) × (o ≡ some c) × (c.raw ≡ none))

-- The root key of an attestation: the bytes of the configured certificate, if there are any;
-- otherwise none, or one that the key distribution service has for the report's signer.
abbrev pub IsArkFrom : {Report : Type 0} → SnpLib Report → Option Cert → Attestation Report → Type 0
IsArkFrom lib fallback_ark att =
    ((c : Cert) × (r : Bytes) × (fallback_ark ≡ some c)
      × (c.raw ≡ some r)
      × (att.certs.ark_cert ≡ some r))
    ⊎ (HasNoBytes fallback_ark
        × ((att.certs.ark_cert ≡ none)
            ⊎ ((key : ReportSigner) × (r : Bytes) × (lib.signer_info att.report ≡ ok key)
                × IsKdsArk lib key r
                × (att.certs.ark_cert ≡ some r))))

fallback_cases :
    (o : Option Cert)
    → ((c : Cert) × (r : Bytes) × (o ≡ some c) × (c.raw ≡ some r))
      ⊎ (HasNoBytes o × (raw_of o ≡ none))
unfolding raw_of
fallback_cases none = inr (inl refl, refl)
fallback_cases (some c) = elim (Option-cases c.raw) [
  | inl n ↦ inr (inr (c, refl, n), n)
  | inr (r, e) ↦ inl (c, r, refl, e)
]

-- The root key of the result is the configuration's, if that has a certificate with bytes.
-- Otherwise, also if its certificate is a zero one, there is no root key, or it is one that AMD's
-- key distribution service has for the signer of the report. It is never taken from the chain that
-- the issuer sent.
pub attestation_with_certs-ark :
    {Report : Type 0} (lib : SnpLib Report) (info : InstanceInfo) (fallback : CertificateChain)
    (att : Attestation Report)
    → attestation_with_certs lib info fallback ≡ ok att
    → IsArkFrom lib fallback.ark att
unfolding raw_of
attestation_with_certs-ark lib info fallback att h =
    let (key, ask, ask', signer, e) = attested_steps lib info fallback att h in
    elim (fallback_cases fallback.ark) [
      | inl (c, r, hc, hr) ↦ inl (
        c,
        r,
        hc,
        hr,
        ark_of_some lib ask r ask' _ key
            (ap (λ o. completed lib ask o key) (sym (ap raw_of hc ∙ hr)) ∙ e),
      )
      | inr (no_bytes, n) ↦ inr (
        no_bytes,
        (elim (Option-cases att.certs.ark_cert) [
          | inl missing ↦ inl missing
          | inr (r, hr) ↦ inr (
            key,
            r,
            signer,
            ark_of_none lib ask ask' r key
                (ap (λ o. completed lib ask o key) (sym n) ∙ e ∙ ap (λ o. ok (ask', o)) hr),
            hr,
          )
        ]),
      )
    ]
