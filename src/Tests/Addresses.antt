-- ===== src/Tests/Addresses.antt =====
-- Configurations in addresses, with the toy libraries.
use geth_sev.Prelude.{
  ◌≡◌, refl, codes, IsBytes, Bytes, [], ◌∷◌, ok, ltb, Bool, true, false, ◌&&◌, arith,
}
use geth_sev.Uri.{
  MasterSecret, encode_master_secret, decode_master_secret, AwsS3Config, encode_aws_s3,
  decode_aws_s3, AzureConfig, encode_azure, decode_azure, AzureBlobConfig, encode_azure_blob,
  decode_azure_blob, GcpConfig, encode_gcp, decode_gcp, GoogleCloudStorageConfig,
  encode_google_cloud_storage, decode_google_cloud_storage,
}
use geth_sev.Uri.Url.{every, is_letter, is_literal}
use geth_sev.Uri.Fields.{Fields}
use geth_sev.Uri.RoundTrip.{AreBytes}
use geth_sev.Uri.Unescaped.{
  unescaped_once, unescaped_aws_s3, unescaped_azure, unescaped_azure_blob, unescaped_gcp,
  unescaped_google_cloud_storage, fields_of_aws_s3, fields_of_azure, fields_of_azure_blob,
  fields_of_gcp, fields_of_google_cloud_storage,
}
use geth_sev.Uri.Literals.{AreLiteral}
use geth_sev.Uri.Literal.{
  decode-encode_master_secret, decode-encode_unescapes, decode-encode_literal,
}
use geth_sev.Tests.Urls.{toy_url, toy_laws}

below_256 : (s : Bytes) → every (λ c. ltb c 256) s ≡ true → IsBytes s
below_256 [] h = tt
below_256 (c ∷ s) h = ground (arith, h, below_256 s)

abbrev are_bytes : Fields → Bool
are_bytes [] = true
are_bytes ((k, v) ∷ fields) = every is_letter k && (every (λ c. ltb c 256) v && are_bytes fields)

bytes_by_test : (fields : Fields) → are_bytes fields ≡ true → AreBytes fields
bytes_by_test [] h = tt
bytes_by_test ((k, v) ∷ fields) h = ground (arith, h, below_256 v, bytes_by_test fields)

abbrev are_literal : Fields → Bool
are_literal [] = true
are_literal ((k, []) ∷ fields) = false
are_literal ((k, c ∷ v) ∷ fields) = every is_literal (c ∷ v) && are_literal fields

literal_by_test : (fields : Fields) → are_literal fields ≡ true → AreLiteral fields
literal_by_test [] h = tt
literal_by_test ((k, []) ∷ fields) h = cc
literal_by_test ((k, c ∷ v) ∷ fields) h = ground (arith, h, literal_by_test fields)

abbrev secret : MasterSecret
secret = record { key = codes "key"; salt = codes "salt" }

secret_example : decode_master_secret toy_url (encode_master_secret toy_url secret) ≡ ok secret
secret_example =
    decode-encode_master_secret toy_url toy_laws secret (λ e. cc) (λ e. cc)
      (below_256 (codes "key") refl) (below_256 (codes "salt") refl)

abbrev s3 : Bytes → AwsS3Config
s3 key = record {
  bucket = codes "bucket";
  region = codes "eu-1";
  access_key_id = codes "id";
  access_key = key;
}

abbrev vault : AzureConfig
vault = record {
  tenant_id = codes "tenant";
  client_id = codes "client";
  client_secret = codes "s/e?c&r=t";
  vault_name = codes "vault";
  vault_type = codes "vault.azure.net";
  key_name = codes "key name";
}

abbrev blob : AzureBlobConfig
blob = record {
  storage_account = codes "account";
  container = codes "container";
  tenant_id = codes "tenant";
  client_id = codes "client";
  client_secret = codes "secret";
}

abbrev ring : GcpConfig
ring = record {
  credentials_path = codes "/path/to/credentials";
  project_id = codes "project";
  location = codes "location";
  key_ring = codes "ring";
  key_name = codes "key";
}

abbrev store : GoogleCloudStorageConfig
store = record {
  credentials_path = codes "/path";
  project_id = codes "project";
  bucket = codes "bucket";
}

bytes_evidence :
    (key : Bytes)
    → are_bytes (fields_of_aws_s3 (s3 key)) ≡ true
    → AreBytes (fields_of_aws_s3 (s3 key))
      × AreBytes (fields_of_azure vault)
      × AreBytes (fields_of_azure_blob blob)
      × AreBytes (fields_of_gcp ring)
      × AreBytes (fields_of_google_cloud_storage store)
bytes_evidence key h = (
  bytes_by_test (fields_of_aws_s3 (s3 key)) h,
  bytes_by_test (fields_of_azure vault) refl,
  bytes_by_test (fields_of_azure_blob blob) refl,
  bytes_by_test (fields_of_gcp ring) refl,
  bytes_by_test (fields_of_google_cloud_storage store) refl,
)

-- A key with a percent sign is unescaped twice.
unescapes_example :
    (decode_aws_s3 toy_url (encode_aws_s3 toy_url (s3 (codes "a%BB")))
      ≡ unescaped_aws_s3 (unescaped_once toy_url) (s3 (codes "a%BB")))
    × (decode_azure toy_url (encode_azure toy_url vault)
        ≡ unescaped_azure (unescaped_once toy_url) vault)
    × (decode_azure_blob toy_url (encode_azure_blob toy_url blob)
        ≡ unescaped_azure_blob (unescaped_once toy_url) blob)
    × (decode_gcp toy_url (encode_gcp toy_url ring) ≡ unescaped_gcp (unescaped_once toy_url) ring)
    × (decode_google_cloud_storage toy_url (encode_google_cloud_storage toy_url store)
        ≡ unescaped_google_cloud_storage (unescaped_once toy_url) store)
unescapes_example =
    decode-encode_unescapes toy_url toy_laws (s3 (codes "a%BB")) vault blob ring store
      (bytes_evidence (codes "a%BB") refl)

literal_example :
    (decode_aws_s3 toy_url (encode_aws_s3 toy_url (s3 (codes "secret"))) ≡ ok (s3 (codes "secret")))
    × (decode_azure toy_url (encode_azure toy_url vault) ≡ ok vault)
    × (decode_azure_blob toy_url (encode_azure_blob toy_url blob) ≡ ok blob)
    × (decode_gcp toy_url (encode_gcp toy_url ring) ≡ ok ring)
    × (decode_google_cloud_storage toy_url (encode_google_cloud_storage toy_url store) ≡ ok store)
literal_example =
    decode-encode_literal toy_url toy_laws (s3 (codes "secret")) vault blob ring store
      (bytes_evidence (codes "secret") refl)
      (
        literal_by_test (fields_of_aws_s3 (s3 (codes "secret"))) refl,
        literal_by_test (fields_of_azure vault) refl,
        literal_by_test (fields_of_azure_blob blob) refl,
        literal_by_test (fields_of_gcp ring) refl,
        literal_by_test (fields_of_google_cloud_storage store) refl,
      )
