-- ===== src/Tests/Connections.antt =====
-- Connections over a toy X.509: keys are numbers, and a certificate has no extension, or one with
-- the object identifier 7.
use geth_sev.Prelude.{
  ℕ, zero, suc, ◌≡◌, ◌↔◌, ◌⊎◌, refl, sym, ap, ◌∙◌, Bytes, codes, bytes_eq, bytes_eq_iff, Bool-cases,
  ◌&&◌, true, false, some, List, [], ◌∷◌, map, length, Result, ok, err, ok-injective, if◌then◌else◌,
  arith, inl, inr,
}
use geth_sev.Atls.{
  Extension, X509, Issuer, Validator, ClientConfig, ServerConfig, verify_embedded_report,
  client_verify, server_verify, client_config, server_config, server_get_certificate,
  client_get_certificate,
}
use geth_sev.Atls.Connections.{IsSelfSigned, client_verify_iff, server_verify_iff}
use geth_sev.Atls.Embedded.{IsAccepted, verify_embedded_report_iff}
use geth_sev.Atls.Fake.{
  FakeDoc, DocJson, IsDocJson, fake_issue, fake_issuer, fake_validator, fake-IsFor,
}
use geth_sev.Atls.Handshake.{IsX509, IsFor, client_verify-server_get_certificate}
use geth_sev.Atls.Mutual.{server_verify-client_get_certificate}

record ToyCert : Type 0 where
  key : ℕ
  exts : List Extension
  name : Bytes

abbrev own_name : Bytes
own_name = codes "Constellation"

abbrev toy_create : List Extension → Bytes → ℕ → Result Bytes Bytes
toy_create [] name k = ok (0 ∷ k ∷ name)
toy_create (e ∷ []) name k =
    if bytes_eq e.id (7 ∷ []) && bytes_eq name own_name then ok (1 ∷ k ∷ e.value) else err []
toy_create (e ∷ f ∷ rest) name k = err []

abbrev toy_parse : Bytes → Result Bytes ToyCert
toy_parse (zero ∷ k ∷ name) = ok (record { key = k; exts = []; name = name })
toy_parse (suc n ∷ k ∷ value) =
    ok (record { key = k; exts = record { id = 7 ∷ []; value = value } ∷ []; name = own_name })
toy_parse (n ∷ []) = err []
toy_parse [] = err []

abbrev toy : X509 ToyCert ℕ ℕ
toy = record {
  parse = toy_parse;
  verify = λ c. ok tt;
  public_key = λ c. c.key;
  extensions = λ c. c.exts;
  raw_subject = λ c. c.name;
  create = λ t pub_key priv. toy_create t.extra_extensions t.common_name priv;
  public_of = λ k. k;
  marshal_public_key = λ k. ok (k ∷ []);
  sha256 = λ b. b;
  unmarshal_name = λ b. ok ((record { kind = 2 ∷ 5 ∷ 4 ∷ 3 ∷ []; text = some b } ∷ []) ∷ []);
  base64_encode = λ b. b;
  base64_decode = λ b. ok b;
}

parse-create :
    (exts : List Extension) (name : Bytes) (k : ℕ) (der : Bytes)
    → toy_create exts name k ≡ ok der
    → toy_parse der ≡ ok (record { key = k; exts = exts; name = name })
parse-create [] name k der h = ap toy_parse (sym (ok-injective _ _ h))
parse-create (e ∷ f ∷ rest) name k der h = cc
parse-create (e ∷ []) name k der h =
    elim (Bool-cases (bytes_eq e.id (7 ∷ []) && bytes_eq name own_name)) [
      | inr n ↦ absurd (not_made n)
      | inl y ↦
          ap toy_parse (sym (ok-injective _ _ (sym (made y) ∙ h)))
          ∙ same (sym ((bytes_eq_iff e.id (7 ∷ [])).0 (left y)))
              (sym ((bytes_eq_iff name own_name).0 (right y)))
    ]
  where
    not_made : (bytes_eq e.id (7 ∷ []) && bytes_eq name own_name) ≡ false → ⊥
    not_made n = ground (arith, n, h)

    made :
        (bytes_eq e.id (7 ∷ []) && bytes_eq name own_name) ≡ true
        → toy_create (e ∷ []) name k ≡ ok (1 ∷ k ∷ e.value)
    made y = rw y refl

    left : (bytes_eq e.id (7 ∷ []) && bytes_eq name own_name) ≡ true → bytes_eq e.id (7 ∷ []) ≡ true
    left y = ground (arith, y)

    right :
        (bytes_eq e.id (7 ∷ []) && bytes_eq name own_name) ≡ true → bytes_eq name own_name ≡ true
    right y = ground (arith, y)

    same :
        {i j : List ℕ} {n m : Bytes}
        → i ≡ j
        → n ≡ m
        → ◌≡◌ {A = Result Bytes ToyCert}
            (ok (record { key = k; exts = record { id = i; value = e.value } ∷ []; name = n }))
            (ok (record { key = k; exts = record { id = j; value = e.value } ∷ []; name = m }))
    same p q = cc

toy-IsX509 : (clock : ℕ) → IsX509 toy clock
toy-IsX509 clock = record {
  created = λ t priv der h. (
    record { key = priv; exts = t.extra_extensions; name = t.common_name },
    parse-create t.extra_extensions t.common_name priv der h,
    refl,
    refl,
  );
  verifies = λ t priv der cert h p early late. refl;
  named = λ t priv der cert h p n.
      ap (λ c. toy.unmarshal_name (toy.raw_subject c))
        (ok-injective _ _ (sym p ∙ parse-create t.extra_extensions t.common_name priv der h));
  base64 = λ b. refl;
  base64_text = λ b h. h;
}

-- Fake documents with nonces of one byte.
abbrev toy_marshal : Bytes → Bytes → Result Bytes Bytes
toy_marshal user_data (n ∷ []) = ok (n ∷ user_data)
toy_marshal user_data [] = err []
toy_marshal user_data (n ∷ m ∷ rest) = err []

abbrev toy_unmarshal : Bytes → Result Bytes FakeDoc
toy_unmarshal [] = err []
toy_unmarshal (n ∷ user_data) = ok (record { user_data = user_data; nonce = n ∷ [] })

abbrev json : DocJson
json = record { marshal = λ d. toy_marshal d.user_data d.nonce; unmarshal = toy_unmarshal }

json_back :
    (user_data nonce raw : Bytes)
    → toy_marshal user_data nonce ≡ ok raw
    → toy_unmarshal raw ≡ ok (record { user_data = user_data; nonce = nonce })
json_back user_data [] raw h = cc
json_back user_data (n ∷ m ∷ rest) raw h = cc
json_back user_data (n ∷ []) raw h = ap toy_unmarshal (sym (ok-injective _ _ h))

json-IsDocJson : IsDocJson json
json-IsDocJson = record { back = λ d raw h. json_back d.user_data d.nonce raw h }

abbrev issuer : Issuer
issuer = fake_issuer json (7 ∷ [])

abbrev validator : Validator
validator = fake_validator json (7 ∷ [])

toy-IsFor : IsFor issuer validator
toy-IsFor = fake-IsFor json (7 ∷ []) json-IsDocJson

abbrev client : ClientConfig
client = record {
  connection = record { issuer = some issuer; validators = validator ∷ []; client_nonce = 6 ∷ [] };
  server_name = 6 ∷ [];
}

abbrev server : ServerConfig ToyCert ℕ
server = record {
  connection = record {
    issuer = some issuer;
    validators = validator ∷ [];
    priv_key = 3;
    server_nonce = 5 ∷ [];
  };
  require_client_cert = true;
  client_cas = record { key = 3; exts = []; name = 5 ∷ [] } ∷ [];
}

client_made : client_config toy (ok (6 ∷ [])) (some issuer) (validator ∷ []) ≡ ok client
unfolding client_config
client_made = refl

server_made : server_config toy (ok (5 ∷ [])) 3 (some issuer) (validator ∷ []) ≡ ok server
unfolding server_config
server_made = refl

abbrev server_cert : Bytes
server_cert = 1 ∷ 3 ∷ 6 ∷ 3 ∷ []

abbrev client_cert : Bytes
client_cert = 1 ∷ 4 ∷ 5 ∷ 4 ∷ []

server_cert_made :
    server_get_certificate toy (ok 1) 9000 server.connection (6 ∷ []) ≡ ok server_cert
unfolding server_get_certificate fake_issuer bytes_eq
server_cert_made = refl

client_cert_made :
    client_get_certificate toy
      (ok 4)
      (ok 1)
      9000
      client.connection
      (map toy.raw_subject server.client_cas)
    ≡ ok client_cert
unfolding client_get_certificate fake_issuer bytes_eq
client_cert_made = refl

handshake_example : client_verify toy client.connection (server_cert ∷ []) ≡ ok tt
handshake_example =
    client_verify-server_get_certificate toy 10000 9000 issuer validator (some issuer) (6 ∷ [])
      server_cert client (ok 1) server.connection (toy-IsX509 10000) toy-IsFor refl (ground arith)
      (ground arith) client_made server_cert_made

mutual_example :
    (server.require_client_cert ≡ true)
    × (server_verify toy server.connection (client_cert ∷ []) ≡ ok tt)
mutual_example =
    server_verify-client_get_certificate toy 10000 9000 issuer validator (some issuer) 3 (5 ∷ [])
      client_cert server (ok 4) (ok 1) client.connection (toy-IsX509 10000) toy-IsFor refl
      (ground arith) (ground arith) (unfold bytes_eq in refl) server_made client_cert_made

client_verify_example : (client_verify toy client.connection (server_cert ∷ []) ≡ ok tt) ↔ (
    (p : ToyCert × Bytes) × IsSelfSigned toy (server_cert ∷ []) p.0 p.1
    × ((length client.connection.validators ≡ 0)
        ⊎ IsAccepted client.connection.validators
            (toy.extensions p.0)
            p.1
            client.connection.client_nonce))
client_verify_example = client_verify_iff toy client.connection (server_cert ∷ [])

server_verify_example : (server_verify toy server.connection (client_cert ∷ []) ≡ ok tt) ↔ (
    (p : ToyCert × Bytes) × IsSelfSigned toy (client_cert ∷ []) p.0 p.1
    × IsAccepted server.connection.validators
        (toy.extensions p.0)
        p.1
        server.connection.server_nonce)
server_verify_example = server_verify_iff toy server.connection (client_cert ∷ [])

abbrev cert : ToyCert
cert = record { key = 3; exts = record { id = 7 ∷ []; value = 6 ∷ 3 ∷ [] } ∷ []; name = own_name }

embedded_example :
    (verify_embedded_report toy (validator ∷ []) cert (3 ∷ []) (6 ∷ []) ≡ ok tt)
    ↔ IsAccepted (validator ∷ []) cert.exts (3 ∷ []) (6 ∷ [])
embedded_example = verify_embedded_report_iff toy (validator ∷ []) cert (3 ∷ []) (6 ∷ [])

abbrev drawn : Bytes
drawn = 6 ∷ []

abbrev hashed : Bytes
hashed = 3 ∷ []

fake_issued : fake_issue json hashed drawn ≡ ok (6 ∷ 3 ∷ [])
unfolding fake_issue
fake_issued = refl
