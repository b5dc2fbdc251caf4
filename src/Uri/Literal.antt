-- ===== src/Uri/Literal.antt =====
-- constellation/kms/uri/uri.go: decoding undoes `EncodeToURI` for values without percent signs and
-- plus signs.
use geth_sev.Prelude.{
  Bytes, IsBytes, codes, bytes_eq, ◌≡◌, ◌≢◌, refl, sym, [], ◌∷◌, Result, ok, ◌>>=◌, ap, map_err,
  ◌∙◌, ok-injective, err,
}
use geth_sev.Uri.{
  UriError, unescaping, parameter_of, get_query_parameter, get_base64_query_parameter, base64,
  MasterSecret, encode_master_secret, decode_master_secret, AwsS3Config, encode_aws_s3,
  decode_aws_s3, AzureConfig, encode_azure, decode_azure, AzureBlobConfig, encode_azure_blob,
  decode_azure_blob, GcpConfig, encode_gcp, decode_gcp, GoogleCloudStorageConfig,
  encode_google_cloud_storage, decode_google_cloud_storage,
}
use geth_sev.Uri.Url.{UrlLib, IsUrl}
use geth_sev.Uri.Fields.{Fields, AreWritten}
use geth_sev.Uri.RoundTrip.{
  AreBytes, read-address, decode-encode_aws_s3, decode-encode_azure, decode-encode_azure_blob,
  decode-encode_gcp, decode-encode_google_cloud_storage,
}
use geth_sev.Uri.Literals.{
  IsLiteral, AreLiteral, literal-parameter, unescaped_aws_s3-literal, unescaped_azure-literal,
  unescaped_azure_blob-literal, unescaped_gcp-literal, unescaped_google_cloud_storage-literal,
}
use geth_sev.Uri.Unescaped.{
  unescaped_once, fields_of_aws_s3, unescaped_aws_s3, fields_of_azure, unescaped_azure,
  fields_of_azure_blob, unescaped_azure_blob, fields_of_gcp, unescaped_gcp,
  fields_of_google_cloud_storage, unescaped_google_cloud_storage,
}

module _ (lib : UrlLib) (laws : IsUrl lib) where
  base64-IsLiteral : (s : Bytes) → s ≢ [] → IsBytes s → IsLiteral (lib.base64_encode s)
  base64-IsLiteral s n b = (
    λ e. n (ok-injective s [] (sym (laws.base64_decode_encode s b) ∙ empty e)),
    (laws.base64_chars s b).1,
  )
    where
      empty : lib.base64_encode s ≡ [] → lib.base64_decode (lib.base64_encode s) ≡ ok []
      empty e = ap lib.base64_decode (e ∙ sym laws.base64_nil) ∙ laws.base64_decode_encode [] tt

  secret-parameter :
      (k s : Bytes)
      → s ≢ []
      → IsBytes s
      → (parameter_of lib k (lib.base64_encode s) >>= λ value.
          map_err base64 (lib.base64_decode value))
        ≡ ok s
  secret-parameter k s n b =
      rw
        (
          literal-parameter lib laws k (lib.base64_encode s) (base64-IsLiteral s n b),
          laws.base64_decode_encode s b,
        )
        refl

  -- Under the laws of net/url and encoding/base64: a master secret of bytes, whose key and salt are
  -- not empty, is decoded from its address.
  pub decode-encode_master_secret :
      (m : MasterSecret)
      → m.key ≢ []
      → m.salt ≢ []
      → IsBytes m.key
      → IsBytes m.salt
      → decode_master_secret lib (encode_master_secret lib m) ≡ ok m
  unfolding decode_master_secret encode_master_secret get_base64_query_parameter get_query_parameter
      bytes_eq
  decode-encode_master_secret m nk ns bk bs =
      read-address lib laws body (codes "kms") (codes "cluster-kms") texts texts (λ e. cc) refl refl
        (λ e. cc) written
      ∙ rw
          (secret-parameter (codes "key") m.key nk bk, secret-parameter (codes "salt") m.salt ns bs)
          refl
    where
      texts : Fields
      texts = (codes "key", lib.base64_encode m.key) ∷ (codes "salt", lib.base64_encode m.salt) ∷ []

      written : AreWritten lib texts texts
      written = (
        refl,
        refl,
        (laws.base64_chars m.key bk).0,
        laws.unescape_literal _ (laws.base64_chars m.key bk).1,
        (
          refl,
          refl,
          (laws.base64_chars m.salt bs).0,
          laws.unescape_literal _ (laws.base64_chars m.salt bs).1,
          tt,
        ),
      )

      body : (Bytes → Bytes) → Result UriError MasterSecret
      body get = do
        key ← parameter_of lib (codes "key") (get (codes "key")) >>= λ value.
            map_err base64 (lib.base64_decode value)
        salt ← parameter_of lib (codes "salt") (get (codes "salt")) >>= λ value.
            map_err base64 (lib.base64_decode value)
        ok (record { key = key; salt = salt })

  parameter_of-unescaped_once : (k v : Bytes) → parameter_of lib k v ≡ unescaped_once lib k v
  unfolding parameter_of
  parameter_of-unescaped_once k [] = refl
  parameter_of-unescaped_once k (c ∷ v) = agree (lib.query_unescape (c ∷ v))
    where
      agree :
          (r : Result Bytes Bytes)
          → map_err (λ _. unescaping k) r
            ≡ elim r [ ok text ↦ ok text | err e ↦ err (unescaping k) ]
      agree (ok text) = refl
      agree (err e) = refl

  getters : parameter_of lib ≡ unescaped_once lib
  getters = λ i k v. parameter_of-unescaped_once k v i

  module _ (s3 : AwsS3Config) (azure : AzureConfig) (blob : AzureBlobConfig) (gcp : GcpConfig)
      (storage : GoogleCloudStorageConfig)
      (bytes : AreBytes (fields_of_aws_s3 s3)
        × AreBytes (fields_of_azure azure)
        × AreBytes (fields_of_azure_blob blob)
        × AreBytes (fields_of_gcp gcp)
        × AreBytes (fields_of_google_cloud_storage storage)) where
    -- Under the laws of net/url, for configurations of byte strings: what is decoded from the address
    -- of a configuration for S3, the two Azure services or the two of GCP is every value unescaped
    -- once more than it was escaped, and an error where a value is empty or does not unescape.
    pub decode-encode_unescapes :
        (decode_aws_s3 lib (encode_aws_s3 lib s3) ≡ unescaped_aws_s3 (unescaped_once lib) s3)
        × (decode_azure lib (encode_azure lib azure) ≡ unescaped_azure (unescaped_once lib) azure)
        × (decode_azure_blob lib (encode_azure_blob lib blob)
            ≡ unescaped_azure_blob (unescaped_once lib) blob)
        × (decode_gcp lib (encode_gcp lib gcp) ≡ unescaped_gcp (unescaped_once lib) gcp)
        × (decode_google_cloud_storage lib (encode_google_cloud_storage lib storage)
            ≡ unescaped_google_cloud_storage (unescaped_once lib) storage)
    decode-encode_unescapes = (
      decode-encode_aws_s3 lib laws s3 bytes.0 ∙ ap (λ get. unescaped_aws_s3 get s3) getters,
      decode-encode_azure lib laws azure bytes.1 ∙ ap (λ get. unescaped_azure get azure) getters,
      decode-encode_azure_blob lib laws blob bytes.2
          ∙ ap (λ get. unescaped_azure_blob get blob) getters,
      decode-encode_gcp lib laws gcp bytes.3 ∙ ap (λ get. unescaped_gcp get gcp) getters,
      decode-encode_google_cloud_storage lib laws storage bytes.4
          ∙ ap (λ get. unescaped_google_cloud_storage get storage) getters,
    )

    -- Under the laws of net/url, for configurations of byte strings whose values are not empty and
    -- have no percent sign and no plus sign: the configurations for S3, the two Azure services and the
    -- two of GCP are decoded from their addresses.
    pub decode-encode_literal :
        (AreLiteral (fields_of_aws_s3 s3)
          × AreLiteral (fields_of_azure azure)
          × AreLiteral (fields_of_azure_blob blob)
          × AreLiteral (fields_of_gcp gcp)
          × AreLiteral (fields_of_google_cloud_storage storage))
        → (decode_aws_s3 lib (encode_aws_s3 lib s3) ≡ ok s3)
          × (decode_azure lib (encode_azure lib azure) ≡ ok azure)
          × (decode_azure_blob lib (encode_azure_blob lib blob) ≡ ok blob)
          × (decode_gcp lib (encode_gcp lib gcp) ≡ ok gcp)
          × (decode_google_cloud_storage lib (encode_google_cloud_storage lib storage) ≡ ok storage)
    decode-encode_literal literal = (
      decode-encode_aws_s3 lib laws s3 bytes.0 ∙ unescaped_aws_s3-literal lib laws s3 literal.0,
      decode-encode_azure lib laws azure bytes.1 ∙ unescaped_azure-literal lib laws azure literal.1,
      decode-encode_azure_blob lib laws blob bytes.2
          ∙ unescaped_azure_blob-literal lib laws blob literal.2,
      decode-encode_gcp lib laws gcp bytes.3 ∙ unescaped_gcp-literal lib laws gcp literal.3,
      decode-encode_google_cloud_storage lib laws storage bytes.4
          ∙ unescaped_google_cloud_storage-literal lib laws storage literal.4,
    )
