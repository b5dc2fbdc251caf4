-- ===== src/Atls/Handshake.antt =====
-- The two sides together: the documents that one side's certificates carry are accepted by the
-- other, with the nonces passed through the server name and the acceptable client CAs.
use geth_sev.Prelude.{
  ◌≡◌, refl, sym, ap, ◌∙◌, subst, ap₂, ◌≤◌, ℕ, Bytes, bytes_eq, bytes_eq_refl, false, Option, some,
  List, [], ◌∷◌, Result, ok, >>=-eq-ok, ok-injective, map_err, map_err-ok, arith, inr, ◌+◌,
}
use geth_sev.Variant.{oid_eq}
use geth_sev.Atls.{
  library, Extension, Template, Issuer, Validator, X509, hash_public_key, get_certificate, embed,
  ClientConfig, ServerConnection, client_verify, server_get_certificate, client_config,
  oid_common_name,
}
use geth_sev.Atls.Embedded.{IsAccepted}
use geth_sev.Atls.Connections.{IsSelfSigned, client_verify_iff}

-- What the code relies on of the Go standard library: a created certificate is parsed back with the
-- key it was made for and with the extensions it was given, within its validity it verifies against
-- itself as a root, its subject is the common name it was given, unless that is empty, and base64
-- is read back. The number is the time of the verifications.
pub record IsX509 {Cert Pub Priv : Type 0} (x : X509 Cert Pub Priv) (clock : ℕ) : Type 0 where
  pub created :
      (t : Template) (priv : Priv) (der : Bytes)
      → x.create t (x.public_of priv) priv ≡ ok der
      → (cert : Cert) × (x.parse der ≡ ok cert)
        × (x.public_key cert ≡ x.public_of priv)
        × (x.extensions cert ≡ t.extra_extensions)
  pub verifies :
      (t : Template) (priv : Priv) (der : Bytes) (cert : Cert)
      → x.create t (x.public_of priv) priv ≡ ok der
      → x.parse der ≡ ok cert
      → t.not_before ≤ clock
      → clock ≤ t.not_after
      → x.verify cert ≡ ok tt
  pub named :
      (t : Template) (priv : Priv) (der : Bytes) (cert : Cert)
      → x.create t (x.public_of priv) priv ≡ ok der
      → x.parse der ≡ ok cert
      → bytes_eq t.common_name [] ≡ false
      → x.unmarshal_name (x.raw_subject cert)
        ≡ ok ((record { kind = oid_common_name; text = some t.common_name } ∷ []) ∷ [])
  pub base64 : (b : Bytes) → x.base64_decode (x.base64_encode b) ≡ ok b
  pub base64_text : (b : Bytes) → bytes_eq b [] ≡ false → bytes_eq (x.base64_encode b) [] ≡ false

-- A validator is for an issuer if the object identifiers are the same and it reads the user data
-- back from the issuer's documents.
pub record IsFor (issuer : Issuer) (validator : Validator) : Type 0 where
  pub same_oid : issuer.oid ≡ validator.oid
  pub reads :
      (user_data nonce doc : Bytes)
      → issuer.issue user_data nonce ≡ ok doc
      → validator.validate doc nonce ≡ ok user_data

-- The only extension of a certificate that the issuer's document is embedded in is accepted.
one_extension :
    (issuer : Issuer) (v : Validator) (hash nonce doc : Bytes)
    → IsFor issuer v
    → issuer.issue hash nonce ≡ ok doc
    → IsAccepted (v ∷ []) (record { id = issuer.oid; value = doc } ∷ []) hash nonce
unfolding oid_eq
one_extension issuer v hash nonce doc f h = record {
  before = [];
  deciding = record { id = issuer.oid; value = doc };
  after = [];
  skipped = [];
  validator = v;
  unused = [];
  extensions_are = refl;
  validators_are = refl;
  before_none = tt;
  skipped_none = tt;
  is_for = ap (λ o. bytes_eq issuer.oid o) (sym f.same_oid) ∙ bytes_eq_refl issuer.oid;
  accepts = f.reads hash nonce doc h;
}

module _ {Cert Pub Priv : Type 0} (x : X509 Cert Pub Priv) where
  embed_facts :
      (issuer : Issuer) (key : Pub) (nonce : Bytes) (exts : List Extension)
      → embed x (some issuer) key nonce ≡ ok exts
      → (m doc : Bytes) × (x.marshal_public_key key ≡ ok m)
        × (issuer.issue (x.sha256 m) nonce ≡ ok doc)
        × (exts ≡ record { id = issuer.oid; value = doc } ∷ [])
  unfolding embed hash_public_key
  embed_facts issuer key nonce exts h =
      let (d, hd, h1) = >>=-eq-ok (hash_public_key x key) _ h in
      let (doc, hi, h2) = >>=-eq-ok (map_err _ (issuer.issue d nonce)) _ h1 in
      let (m, hm, h3) = >>=-eq-ok (map_err library (x.marshal_public_key key)) _ hd in
      (
        m,
        doc,
        map_err-ok _ _ m hm,
        ap (λ k. issuer.issue k nonce) (ok-injective _ _ h3) ∙ map_err-ok _ _ doc hi,
        sym (ok-injective _ _ h2),
      )

  -- A certificate made for a nonce, as the peer that drew the nonce sees it.
  pub certificate_facts :
      (serial : Result Bytes ℕ) (now clock : ℕ) (issuer : Issuer) (priv : Priv) (nonce der : Bytes)
      (v : Validator)
      → IsX509 x clock
      → IsFor issuer v
      → now ≤ clock + 7200
      → clock ≤ now + 7200
      → get_certificate x serial now (some issuer) priv (x.public_of priv) nonce ≡ ok der
      → (p : Cert × Bytes) × IsSelfSigned x (der ∷ []) p.0 p.1
        × IsAccepted (v ∷ []) (x.extensions p.0) p.1 nonce
  unfolding get_certificate
  certificate_facts serial now clock issuer priv nonce der v laws f early late h =
      let (n, hn, h1) = >>=-eq-ok (map_err library serial) _ h in
      let (exts, he, h2) = >>=-eq-ok (embed x (some issuer) (x.public_of priv) nonce) _ h1 in
      let (m, doc, hm, hd, ee) = embed_facts issuer (x.public_of priv) nonce exts he in
      let made = map_err-ok _ _ der h2 in
      let (cert, hp, hk, hx) = laws.created _ priv der made in
      (
        (cert, x.sha256 m),
        record {
          first = der;
          others = [];
          marshalled = m;
          raws_are = refl;
          parsed = hp;
          verified = laws.verifies _ priv der cert made hp (omega (arith, early)) late;
          key = ap x.marshal_public_key hk ∙ hm;
          hash_is = refl;
        },
        subst (λ l. IsAccepted (v ∷ []) l (x.sha256 m) nonce) (sym (hx ∙ ee))
            (one_extension issuer v _ nonce doc f hd),
      )

  nonce_through_name :
      (nonce : Bytes) (issuer : Option Issuer) (vs : List Validator) (cfg : ClientConfig)
      → client_config x (ok nonce) issuer vs ≡ ok cfg
      → (cfg.server_name ≡ x.base64_encode nonce)
        × (cfg.connection ≡ record { issuer = issuer; validators = vs; client_nonce = nonce })
  unfolding client_config
  nonce_through_name nonce issuer vs cfg h =
      let e = sym (ok-injective _ _ h) in (ap (λ c. c.server_name) e, ap (λ c. c.connection) e)

  get_of_name :
      (serial : Result Bytes ℕ) (now : ℕ) (sc : ServerConnection Priv) (issuer : Issuer)
      (name nonce der : Bytes)
      → sc.issuer ≡ some issuer
      → x.base64_decode name ≡ ok nonce
      → server_get_certificate x serial now sc name ≡ ok der
      → get_certificate x serial now (some issuer) sc.priv_key (x.public_of sc.priv_key) nonce
        ≡ ok der
  unfolding server_get_certificate
  get_of_name serial now sc issuer name nonce der hi hb h =
      let (n, hn, h1) = >>=-eq-ok (map_err library (x.base64_decode name)) _ h in
      let e : n ≡ nonce = ok-injective _ _ (sym (map_err-ok _ _ n hn) ∙ hb) in
      ap₂ (λ i k. get_certificate x serial now i sc.priv_key (x.public_of sc.priv_key) k) (sym hi)
        (sym e)
      ∙ h1

-- A certificate that a server makes for the server name of a client's configuration is accepted by
-- that client, whose one validator is for the server's issuer, from two hours before it is made
-- to two hours after.
pub client_verify-server_get_certificate :
    {Cert Pub Priv : Type 0} (x : X509 Cert Pub Priv) (clock now : ℕ) (issuer : Issuer)
    (v : Validator) (client_issuer : Option Issuer) (nonce der : Bytes) (cfg : ClientConfig)
    (serial : Result Bytes ℕ) (sc : ServerConnection Priv)
    → IsX509 x clock
    → IsFor issuer v
    → sc.issuer ≡ some issuer
    → now ≤ clock + 7200
    → clock ≤ now + 7200
    → client_config x (ok nonce) client_issuer (v ∷ []) ≡ ok cfg
    → server_get_certificate x serial now sc cfg.server_name ≡ ok der
    → client_verify x cfg.connection (der ∷ []) ≡ ok tt
client_verify-server_get_certificate x clock now issuer v client_issuer nonce der cfg serial sc laws
      f hi early late hc hs =
    let (name, conn) = nonce_through_name x nonce client_issuer (v ∷ []) cfg hc in
    let got =
      get_of_name x serial now sc issuer cfg.server_name nonce der hi
        (ap x.base64_decode name ∙ laws.base64 nonce) hs in
    let (p, signed, accepted) =
      certificate_facts x serial now clock issuer sc.priv_key nonce der v laws f early late got in
    ap (λ c. client_verify x c (der ∷ [])) conn
    ∙ (client_verify_iff x
          (record { issuer = client_issuer; validators = v ∷ []; client_nonce = nonce })
          (der ∷ [])).1
        (p, signed, inr accepted)
