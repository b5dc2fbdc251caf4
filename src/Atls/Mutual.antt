-- ===== src/Atls/Mutual.antt =====
-- Mutual attestation: the server's nonce reaches the client through the acceptable client CAs.
use geth_sev.Prelude.{
  ◌≡◌, sym, ap, ap₂, ◌∙◌, ℕ, ◌+◌, ◌≤◌, Bytes, bytes_eq, true, false, Option, some, List, [], ◌∷◌,
  map, Result, ok, >>=-eq-ok, ok-injective, map_err, map_err-ok,
}
use geth_sev.Atls.{
  library, nonce_decoding, nonce_encoding, Issuer, Validator, X509, get_certificate,
  ClientConnection, ServerConfig, server_verify, client_get_certificate, server_config,
  encode_nonce_to_cert_pool, decode_nonce_from_acceptable_cas, decode_name, oid_common_name,
}
use geth_sev.Atls.Connections.{server_verify_iff}
use geth_sev.Atls.Handshake.{IsX509, IsFor, certificate_facts}

module _ {Cert Pub Priv : Type 0} (x : X509 Cert Pub Priv) (clock : ℕ) (laws : IsX509 x clock) where
  decode_common_name :
      (nonce : Bytes)
      → decode_name x
          ((record { kind = oid_common_name; text = some (x.base64_encode nonce) } ∷ []) ∷ [])
        ≡ ok nonce
  unfolding decode_name
  decode_common_name nonce = ap (map_err library) (laws.base64 nonce)

  -- The nonce that is put into the pool is the one that is read from the pool's subjects.
  decode-encode_nonce :
      (nonce : Bytes) (priv : Priv) (pool : List Cert)
      → bytes_eq nonce [] ≡ false
      → encode_nonce_to_cert_pool x nonce priv ≡ ok pool
      → decode_nonce_from_acceptable_cas x (map x.raw_subject pool) ≡ ok nonce
  unfolding encode_nonce_to_cert_pool decode_nonce_from_acceptable_cas
  decode-encode_nonce nonce priv pool ne h =
      let (der, hd, h1) = >>=-eq-ok (map_err library _) _ h in
      let (cert, hc, h2) = >>=-eq-ok (map_err library (x.parse der)) _ h1 in
      let named =
        laws.named _ priv der cert (map_err-ok _ _ der hd) (map_err-ok _ _ cert hc)
          (laws.base64_text nonce ne) in
      ap (λ p. decode_nonce_from_acceptable_cas x (map x.raw_subject p)) (sym (ok-injective _ _ h2))
      ∙ rw named (decode_common_name nonce)

  nonce_through_pool :
      (nonce : Bytes) (priv : Priv) (issuer : Option Issuer) (v : Validator)
      (cfg : ServerConfig Cert Priv)
      → server_config x (ok nonce) priv issuer (v ∷ []) ≡ ok cfg
      → (encode_nonce_to_cert_pool x nonce priv ≡ ok cfg.client_cas)
        × (cfg.require_client_cert ≡ true)
        × (cfg.connection ≡ record {
          issuer = issuer;
          validators = v ∷ [];
          priv_key = priv;
          server_nonce = nonce;
        })
  unfolding server_config
  nonce_through_pool nonce priv issuer v cfg h =
      let (pool, hp, h1) =
        >>=-eq-ok (map_err nonce_encoding (encode_nonce_to_cert_pool x nonce priv)) _ h in
      let e = sym (ok-injective _ _ h1) in
      (
        map_err-ok _ _ pool hp ∙ ap ok (sym (ap (λ c. c.client_cas) e)),
        ap (λ c. c.require_client_cert) e,
        ap (λ c. c.connection) e,
      )

  get_of_pool :
      (key : Result Bytes Priv) (serial : Result Bytes ℕ) (now : ℕ) (cc' : ClientConnection)
      (issuer : Issuer) (cas : List Bytes) (nonce der : Bytes)
      → cc'.issuer ≡ some issuer
      → decode_nonce_from_acceptable_cas x cas ≡ ok nonce
      → client_get_certificate x key serial now cc' cas ≡ ok der
      → (priv : Priv) × (get_certificate x serial now (some issuer) priv (x.public_of priv) nonce
          ≡ ok der)
  unfolding client_get_certificate
  get_of_pool key serial now cc' issuer cas nonce der hi hn h =
      let (priv, hk, h1) = >>=-eq-ok (map_err library key) _ h in
      let (n, hd, h2) =
        >>=-eq-ok (map_err nonce_decoding (decode_nonce_from_acceptable_cas x cas)) _ h1 in
      let e : n ≡ nonce = ok-injective _ _ (sym (map_err-ok _ _ n hd) ∙ hn) in
      (
        priv,
        ap₂ (λ i k. get_certificate x serial now i priv (x.public_of priv) k) (sym hi) (sym e) ∙ h2,
      )

-- A server with a validator asks for a client certificate, and accepts the one that a client, whose
-- issuer that validator is for, makes for the subjects of the server's client CAs, from two hours
-- before it is made to two hours after; the server's nonce is not empty.
pub server_verify-client_get_certificate :
    {Cert Pub Priv : Type 0} (x : X509 Cert Pub Priv) (clock now : ℕ) (issuer : Issuer)
    (v : Validator) (server_issuer : Option Issuer) (priv : Priv) (nonce der : Bytes)
    (cfg : ServerConfig Cert Priv) (key : Result Bytes Priv) (serial : Result Bytes ℕ)
    (client : ClientConnection)
    → IsX509 x clock
    → IsFor issuer v
    → client.issuer ≡ some issuer
    → now ≤ clock + 7200
    → clock ≤ now + 7200
    → bytes_eq nonce [] ≡ false
    → server_config x (ok nonce) priv server_issuer (v ∷ []) ≡ ok cfg
    → client_get_certificate x key serial now client (map x.raw_subject cfg.client_cas) ≡ ok der
    → (cfg.require_client_cert ≡ true) × (server_verify x cfg.connection (der ∷ []) ≡ ok tt)
server_verify-client_get_certificate x clock now issuer v server_issuer priv nonce der cfg key
      serial client laws f hi early late ne hs hc =
    let (pool, required, conn) =
      nonce_through_pool x clock laws nonce priv server_issuer v cfg hs in
    let (fresh, got) =
      get_of_pool x clock laws key serial now client issuer _ nonce der hi
        (decode-encode_nonce x clock laws nonce priv cfg.client_cas ne pool) hc in
    let (p, signed, accepted) =
      certificate_facts x serial now clock issuer fresh nonce der v laws f early late got in
    (
      required,
      ap (λ c. server_verify x c (der ∷ [])) conn
          ∙ (server_verify_iff x
                (record {
                  issuer = server_issuer;
                  validators = v ∷ [];
                  priv_key = priv;
                  server_nonce = nonce;
                })
                (der ∷ [])).1
              (p, signed, accepted),
    )
