-- ===== src/Atls.antt =====
-- constellation/atls/atls.go: TLS connections whose self-signed certificates carry an attestation
-- document, with the nonces passed through the server name and the acceptable client CAs.
pub mod Embedded
pub mod Connections
pub mod Fake
pub mod Handshake
pub mod Mutual
use geth_sev.Prelude.{
  ℕ, ◌+◌, ◌-◌, ◌==◌, Bytes, codes, bytes_eq, length, Bool, true, false, not, Option, none, some,
  List, [], ◌∷◌, ◌++◌, Result, ok, err, ◌>>=◌, ◌>>◌, map_err, if◌then◌else◌,
}
use geth_sev.Variant.{oid_eq}

pub data AtlsError : Type 0 where
  library issuing validating : Bytes → AtlsError
  raw_certs_empty hash_mismatch ca_length rdn_type cn_not_found : AtlsError
  no_attestation : List (List ℕ) → AtlsError
  nonce_decoding nonce_encoding : AtlsError → AtlsError

-- `pkix.Extension`
pub record Extension : Type 0 where
  pub id : List ℕ
  pub value : Bytes

-- The fields of the certificate templates; times are in seconds.
pub record Template : Type 0 where
  pub serial_number : ℕ
  pub common_name : Bytes
  pub not_before : ℕ
  pub not_after : ℕ
  pub extra_extensions : List Extension

-- An attribute of a distinguished name: its type, and its value if that is text.
pub record Attribute : Type 0 where
  pub kind : List ℕ
  pub text : Option Bytes

-- What the code calls of the Go standard library (crypto/x509, crypto/sha256, encoding/asn1,
-- encoding/base64). `verify` is `Verify` with the certificate itself as the only root.
pub record X509 (Cert Pub Priv : Type 0) : Type 0 where
  pub parse : Bytes → Result Bytes Cert
  pub verify : Cert → Result Bytes (Unit {0})
  pub public_key : Cert → Pub
  pub extensions : Cert → List Extension
  pub raw_subject : Cert → Bytes
  pub create : Template → Pub → Priv → Result Bytes Bytes
  pub public_of : Priv → Pub
  pub marshal_public_key : Pub → Result Bytes Bytes
  pub sha256 : Bytes → Bytes
  pub unmarshal_name : Bytes → Result Bytes (List (List Attribute))
  pub base64_encode : Bytes → Bytes
  pub base64_decode : Bytes → Result Bytes Bytes

-- `Issuer` and `Validator`: an object identifier and the method, at the context of one call.
pub record Issuer : Type 0 where
  pub oid : List ℕ
  pub issue : Bytes → Bytes → Result Bytes Bytes

pub record Validator : Type 0 where
  pub oid : List ℕ
  pub validate : Bytes → Bytes → Result Bytes Bytes

-- The inner loop of `verifyEmbeddedReport`: what the first validator for the extension says.
match_validator : List Validator → Extension → Bytes → Bytes → Option (Result AtlsError (Unit {0}))
unfolding oid_eq bytes_eq
match_validator [] ex hash nonce = none
match_validator (v ∷ vs) ex hash nonce =
    if oid_eq ex.id v.oid
    then some (do
      user_data ← map_err validating (v.validate ex.value nonce)
      if not (bytes_eq user_data hash) then err hash_mismatch else ok tt)
    else match_validator vs ex hash nonce

verify_loop :
    List Validator → List Extension → Bytes → Bytes → List (List ℕ) → Result AtlsError (Unit {0})
unfolding match_validator
verify_loop vs [] hash nonce exts = err (no_attestation exts)
verify_loop vs (ex ∷ rest) hash nonce exts =
    let others = verify_loop vs rest hash nonce (exts ++ ex.id ∷ []) in
    elim (match_validator vs ex hash nonce) [ none ↦ others | some r ↦ r ]

-- What the two sides keep; the key of a server is made before its first client connects.
pub record ClientConnection : Type 0 where
  pub issuer : Option Issuer
  pub validators : List Validator
  pub client_nonce : Bytes

pub record ServerConnection (Priv : Type 0) : Type 0 where
  pub issuer : Option Issuer
  pub validators : List Validator
  pub priv_key : Priv
  pub server_nonce : Bytes

-- The fields of the `tls.Config` of the two sides that are set to data.
pub record ClientConfig : Type 0 where
  pub connection : ClientConnection
  pub server_name : Bytes

pub record ServerConfig (Cert Priv : Type 0) : Type 0 where
  pub connection : ServerConnection Priv
  pub require_client_cert : Bool
  pub client_cas : List Cert

abbrev oid_common_name : List ℕ
oid_common_name = 2 ∷ 5 ∷ 4 ∷ 3 ∷ []

abbrev two_hours : ℕ
two_hours = 7200

-- The two loops of `decodeNonceFromAcceptableCAs`: the first common name decides.
find_common_name : List Attribute → Option Attribute
unfolding oid_eq bytes_eq
find_common_name [] = none
find_common_name (a ∷ rdn) = if oid_eq a.kind oid_common_name then some a else find_common_name rdn

find_in_names : List (List Attribute) → Option Attribute
unfolding find_common_name
find_in_names [] = none
find_in_names (rdn ∷ rest) =
    let others = find_in_names rest in
    elim (find_common_name rdn) [ none ↦ others | some a ↦ some a ]

module _ {Cert Pub Priv : Type 0} (x : X509 Cert Pub Priv) where
  -- `hashPublicKey`
  unfoldable pub hash_public_key : Pub → Result AtlsError Bytes
  hash_public_key key = do bytes ← map_err library (x.marshal_public_key key); ok (x.sha256 bytes)

  -- `verifyEmbeddedReport`
  unfoldable pub verify_embedded_report :
      List Validator → Cert → Bytes → Bytes → Result AtlsError (Unit {0})
  unfolding verify_loop
  verify_embedded_report validators cert hash nonce =
      verify_loop validators (x.extensions cert) hash nonce []

  -- `processCertificate`
  unfoldable pub process_certificate : List Bytes → Result AtlsError (Cert × Bytes)
  unfolding hash_public_key
  process_certificate [] = err raw_certs_empty
  process_certificate (raw ∷ rest) = do
    cert ← map_err library (x.parse raw)
    map_err library (x.verify cert)
    hash ← hash_public_key (x.public_key cert)
    ok (cert, hash)

  embed : Option Issuer → Pub → Bytes → Result AtlsError (List Extension)
  unfolding hash_public_key
  embed none pub_key nonce = ok []
  embed (some issuer) pub_key nonce = do
    hash ← hash_public_key pub_key
    att_doc ← map_err issuing (issuer.issue hash nonce)
    ok (record { id = issuer.oid; value = att_doc } ∷ [])

  -- `getCertificate`, at a random serial number and the time of the call
  unfoldable pub get_certificate :
      Result Bytes ℕ → ℕ → Option Issuer → Priv → Pub → Bytes → Result AtlsError Bytes
  unfolding embed
  get_certificate serial now issuer priv pub_key nonce = do
    serial_number ← map_err library serial
    extensions ← embed issuer pub_key nonce
    map_err library (
        x.create
          (record {
            serial_number = serial_number;
            common_name = codes "Constellation";
            not_before = now - two_hours;
            not_after = now + two_hours;
            extra_extensions = extensions;
          })
          pub_key priv)

  -- `encodeNonceToCertPool`; the template leaves the times at their zero value.
  unfoldable pub encode_nonce_to_cert_pool : Bytes → Priv → Result AtlsError (List Cert)
  encode_nonce_to_cert_pool nonce priv = do
    der ← map_err library (
        x.create
          (record {
            serial_number = 0;
            common_name = x.base64_encode nonce;
            not_before = 0;
            not_after = 0;
            extra_extensions = [];
          })
          (x.public_of priv) priv)
    cert ← map_err library (x.parse der)
    ok (cert ∷ [])

  decode_name : List (List Attribute) → Result AtlsError Bytes
  unfolding find_in_names
  decode_name names = elim (find_in_names names) [
    | none ↦ err cn_not_found
    | some a ↦ elim a.text [ none ↦ err rdn_type | some t ↦ map_err library (x.base64_decode t) ]
  ]

  -- `decodeNonceFromAcceptableCAs`
  unfoldable pub decode_nonce_from_acceptable_cas : List Bytes → Result AtlsError Bytes
  unfolding decode_name
  decode_nonce_from_acceptable_cas [] = err ca_length
  decode_nonce_from_acceptable_cas (ca ∷ []) = do
    names ← map_err library (x.unmarshal_name ca)
    decode_name names
  decode_nonce_from_acceptable_cas (ca ∷ cb ∷ rest) = err ca_length

  -- `clientConnection.verify`
  unfoldable pub client_verify : ClientConnection → List Bytes → Result AtlsError (Unit {0})
  unfolding process_certificate verify_embedded_report
  client_verify c raw_certs = do
    (cert, hash) ← process_certificate raw_certs
    if length c.validators == 0
        then ok tt
        else verify_embedded_report c.validators cert hash c.client_nonce

  -- `serverConnection.verify`
  unfoldable pub server_verify : ServerConnection Priv → List Bytes → Result AtlsError (Unit {0})
  unfolding process_certificate verify_embedded_report
  server_verify c raw_certs = do
    (cert, hash) ← process_certificate raw_certs
    verify_embedded_report c.validators cert hash c.server_nonce

  -- `clientConnection.getCertificate`, at the outcome of generating a key
  unfoldable pub client_get_certificate :
      Result Bytes Priv
      → Result Bytes ℕ
      → ℕ
      → ClientConnection
      → List Bytes
      → Result AtlsError Bytes
  unfolding get_certificate decode_nonce_from_acceptable_cas
  client_get_certificate key serial now c acceptable_cas = do
    priv ← map_err library key
    server_nonce ← map_err nonce_decoding (decode_nonce_from_acceptable_cas acceptable_cas)
    get_certificate serial now c.issuer priv (x.public_of priv) server_nonce

  -- `serverConnection.getCertificate`
  unfoldable pub server_get_certificate :
      Result Bytes ℕ → ℕ → ServerConnection Priv → Bytes → Result AtlsError Bytes
  unfolding get_certificate
  server_get_certificate serial now c server_name = do
    client_nonce ← map_err library (x.base64_decode server_name)
    get_certificate serial now c.issuer c.priv_key (x.public_of c.priv_key) client_nonce

  -- `CreateAttestationClientTLSConfig`, at the outcome of drawing the nonce
  unfoldable pub client_config :
      Result Bytes Bytes → Option Issuer → List Validator → Result AtlsError ClientConfig
  client_config drawn issuer validators = do
    client_nonce ← map_err library drawn
    ok (record {
      connection = record { issuer = issuer; validators = validators; client_nonce = client_nonce };
      server_name = x.base64_encode client_nonce;
    })

  -- The function that `getATLSConfigForClientFunc` returns, with the key it has generated
  unfoldable pub server_config :
      Result Bytes Bytes
      → Priv
      → Option Issuer
      → List Validator
      → Result AtlsError (ServerConfig Cert Priv)
  unfolding encode_nonce_to_cert_pool
  server_config drawn priv issuer validators = do
    server_nonce ← map_err library drawn
    client_cas ←
        if length validators == 0
        then ok []
        else map_err nonce_encoding (encode_nonce_to_cert_pool server_nonce priv)
    ok (record {
      connection = record {
        issuer = issuer;
        validators = validators;
        priv_key = priv;
        server_nonce = server_nonce;
      };
      require_client_cert = not (length validators == 0);
      client_cas = client_cas;
    })
