-- ===== src/Atls/Connections.antt =====
-- What a verified connection says about the peer's certificate.
use geth_sev.Prelude.{
  ◌≡◌, ◌↔◌, ◌⊎◌, refl, sym, ap, ◌∙◌, ◌==◌, ==_iff, Bytes, length, Bool-cases, List, [], ◌∷◌, ok,
  >>=-eq-ok, ok-injective, map_err, map_err-ok, if◌then◌else◌, inl, inr,
}
use geth_sev.Atls.{
  library, X509, hash_public_key, verify_embedded_report, process_certificate, ClientConnection,
  ServerConnection, client_verify, server_verify,
}
use geth_sev.Atls.Embedded.{IsAccepted, verify_embedded_report_iff}

-- The first raw certificate is parsed and verifies itself, and the hash is that of its key.
pub record IsSelfSigned {Cert Pub Priv : Type 0} (x : X509 Cert Pub Priv) (raws : List Bytes)
    (cert : Cert) (hash : Bytes) : Type 0 where
  pub first : Bytes
  pub others : List Bytes
  pub marshalled : Bytes
  pub raws_are : raws ≡ first ∷ others
  pub parsed : x.parse first ≡ ok cert
  pub verified : x.verify cert ≡ ok tt
  pub key : x.marshal_public_key (x.public_key cert) ≡ ok marshalled
  pub hash_is : x.sha256 marshalled ≡ hash

module _ {Cert Pub Priv : Type 0} (x : X509 Cert Pub Priv) where
  signed_of :
      (raw : Bytes) (rest : List Bytes) (cert : Cert) (hash : Bytes) (c : Cert) (d m : Bytes)
      → x.parse raw ≡ ok c
      → x.verify c ≡ ok tt
      → x.marshal_public_key (x.public_key c) ≡ ok m
      → x.sha256 m ≡ d
      → ◌≡◌ {A = Cert × Bytes} (c, d) (cert, hash)
      → IsSelfSigned x (raw ∷ rest) cert hash
  signed_of raw rest cert hash c d m hp hv hk hd e =
      let ec : c ≡ cert = ap (λ p. p.0) e in
      record {
        first = raw;
        others = rest;
        marshalled = m;
        raws_are = refl;
        parsed = hp ∙ ap ok ec;
        verified = ap x.verify (sym ec) ∙ hv;
        key = ap (λ k. x.marshal_public_key (x.public_key k)) (sym ec) ∙ hk;
        hash_is = hd ∙ ap (λ p. p.1) e;
      }

  process_facts :
      (raws : List Bytes) (cert : Cert) (hash : Bytes)
      → process_certificate x raws ≡ ok (cert, hash)
      → IsSelfSigned x raws cert hash
  unfolding process_certificate hash_public_key
  process_facts [] cert hash h = cc
  process_facts (raw ∷ rest) cert hash h =
      let (c, hc, h1) = >>=-eq-ok (map_err library (x.parse raw)) _ h in
      let (u, hu, h2) = >>=-eq-ok (map_err library (x.verify c)) _ h1 in
      let (d, hd, h3) = >>=-eq-ok (hash_public_key x (x.public_key c)) _ h2 in
      let (m, hm, h4) = >>=-eq-ok (map_err library (x.marshal_public_key (x.public_key c))) _ hd in
      signed_of raw rest cert hash c d m (map_err-ok _ _ c hc) (map_err-ok _ _ tt hu)
        (map_err-ok _ _ m hm) (ok-injective _ _ h4) (ok-injective _ _ h3)

  process_of_signed :
      (raws : List Bytes) (cert : Cert) (hash : Bytes)
      → IsSelfSigned x raws cert hash
      → process_certificate x raws ≡ ok (cert, hash)
  unfolding process_certificate hash_public_key
  process_of_signed raws cert hash s = rw (s.raws_are, s.parsed, s.verified, s.key, s.hash_is) refl

  -- The client accepts a server's certificates exactly if the first is self-signed and, unless the
  -- client has no validators, the embedded report is accepted under the client's nonce with the
  -- hash of the certificate's key.
  pub client_verify_iff :
      (c : ClientConnection) (raws : List Bytes)
      → (client_verify x c raws ≡ ok tt) ↔ (
          (p : Cert × Bytes) × IsSelfSigned x raws p.0 p.1
          × ((length c.validators ≡ 0)
              ⊎ IsAccepted c.validators (x.extensions p.0) p.1 c.client_nonce))
  unfolding client_verify
  client_verify_iff c raws = (forth, back)
    where
      decided :
          (p : Cert × Bytes)
          → (if length c.validators == 0
              then ok tt
              else verify_embedded_report x c.validators p.0 p.1 c.client_nonce)
            ≡ ok tt
          → (length c.validators ≡ 0)
            ⊎ IsAccepted c.validators (x.extensions p.0) p.1 c.client_nonce
      decided p h = elim (Bool-cases (length c.validators == 0)) [
        | inl y ↦ inl ((==_iff (length c.validators) 0).0 y)
        | inr n ↦ inr (
            (verify_embedded_report_iff x c.validators p.0 p.1 c.client_nonce).0 (
              ap
                (λ b.
                  if b then ok tt else verify_embedded_report x c.validators p.0 p.1 c.client_nonce)
                (sym n)
              ∙ h))
      ]

      forth :
          client_verify x c raws ≡ ok tt
          → (p : Cert × Bytes) × IsSelfSigned x raws p.0 p.1
            × ((length c.validators ≡ 0)
                ⊎ IsAccepted c.validators (x.extensions p.0) p.1 c.client_nonce)
      forth h =
          let (p, hp, h1) = >>=-eq-ok (process_certificate x raws) _ h in
          (p, process_facts raws p.0 p.1 hp, decided p h1)

      chosen :
          (p : Cert × Bytes)
          → (length c.validators ≡ 0)
            ⊎ IsAccepted c.validators (x.extensions p.0) p.1 c.client_nonce
          → (if length c.validators == 0
              then ok tt
              else verify_embedded_report x c.validators p.0 p.1 c.client_nonce)
            ≡ ok tt
      chosen p (inl e) = rw ((==_iff (length c.validators) 0).1 e) refl
      chosen p (inr a) = elim (Bool-cases (length c.validators == 0)) [
        | inl y ↦ rw y refl
        | inr n ↦ rw n ((verify_embedded_report_iff x c.validators p.0 p.1 c.client_nonce).1 a)
      ]

      back :
          ((p : Cert × Bytes) × IsSelfSigned x raws p.0 p.1
            × ((length c.validators ≡ 0)
                ⊎ IsAccepted c.validators (x.extensions p.0) p.1 c.client_nonce))
          → client_verify x c raws ≡ ok tt
      back (p, s, a) = rw (process_of_signed raws p.0 p.1 s) (chosen p a)

  -- The server accepts a client's certificates exactly if the first is self-signed and the embedded
  -- report is accepted under the server's nonce with the hash of the certificate's key: a server
  -- without validators accepts none.
  pub server_verify_iff :
      (c : ServerConnection Priv) (raws : List Bytes)
      → (server_verify x c raws ≡ ok tt) ↔ (
          (p : Cert × Bytes) × IsSelfSigned x raws p.0 p.1
          × IsAccepted c.validators (x.extensions p.0) p.1 c.server_nonce)
  unfolding server_verify
  server_verify_iff c raws = (
    (λ h.
        let (p, hp, h1) = >>=-eq-ok (process_certificate x raws) _ h in
        (
          p,
          process_facts raws p.0 p.1 hp,
          (verify_embedded_report_iff x c.validators p.0 p.1 c.server_nonce).0 h1,
        )),
    (λ (p, s, a).
        rw (process_of_signed raws p.0 p.1 s)
          ((verify_embedded_report_iff x c.validators p.0 p.1 c.server_nonce).1 a)),
  )
