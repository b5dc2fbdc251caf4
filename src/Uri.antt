-- ===== src/Uri.antt =====
-- constellation/kms/uri/uri.go: the addresses of key management services and storages, with their
-- query parameters. net/url and encoding/base64 are the parameters that Url.antt describes.
pub mod Url
pub mod Fields
pub mod Unescaped
pub mod RoundTrip
pub mod Literals
pub mod Literal
use geth_sev.Prelude.{
  Bytes, codes, bytes_eq, concat, [], ◌∷◌, Bool, true, false, Result, ok, err, map_err, ◌>>=◌, ◌>>◌,
  not, if◌then◌else◌,
}
use geth_sev.Uri.Url.{UrlLib}

pub data UriError : Type 0 where
  parsing base64 : Bytes → UriError
  invalid_scheme invalid_host : Bytes → UriError
  missing unescaping : Bytes → UriError

-- What the decoders begin with: the raw query of an address with this scheme and host.
unfoldable pub checked_query : UrlLib → Bytes → Bytes → Bytes → Result UriError Bytes
unfolding bytes_eq
checked_query lib scheme host uri = do
  u ← map_err parsing (lib.parse uri)
  if not (bytes_eq u.scheme scheme)
      then err (invalid_scheme u.scheme)
      else if not (bytes_eq u.host host)
      then err (invalid_host u.host)
      else ok u.raw_query

-- `getQueryParameter`, at the value that `Get` gives
unfoldable pub parameter_of : UrlLib → Bytes → Bytes → Result UriError Bytes
unfolding bytes_eq
parameter_of lib key value =
    if bytes_eq value []
    then err (missing key)
    else map_err (λ _. unescaping key) (lib.query_unescape value)

-- `getQueryParameter`
unfoldable pub get_query_parameter : UrlLib → Bytes → Bytes → Result UriError Bytes
unfolding parameter_of
get_query_parameter lib query key = parameter_of lib key (lib.get query key)

-- `getBase64QueryParameter`
unfoldable pub get_base64_query_parameter : UrlLib → Bytes → Bytes → Result UriError Bytes
unfolding get_query_parameter
get_base64_query_parameter lib query key = do
  value ← get_query_parameter lib query key
  map_err base64 (lib.base64_decode value)

pub record MasterSecret : Type 0 where
  pub key : Bytes
  pub salt : Bytes

unfoldable pub encode_master_secret : UrlLib → MasterSecret → Bytes
encode_master_secret lib m = concat (
    codes "kms://cluster-kms?key="
    ∷ lib.base64_encode m.key
    ∷ codes "&salt="
    ∷ lib.base64_encode m.salt
    ∷ [])

unfoldable pub decode_master_secret : UrlLib → Bytes → Result UriError MasterSecret
unfolding checked_query get_base64_query_parameter
decode_master_secret lib uri = do
  q ← checked_query lib (codes "kms") (codes "cluster-kms") uri
  key ← get_base64_query_parameter lib q (codes "key")
  salt ← get_base64_query_parameter lib q (codes "salt")
  ok (record { key = key; salt = salt })

pub record AwsConfig : Type 0 where
  pub key_name : Bytes
  pub region : Bytes
  pub access_key_id : Bytes
  pub access_key : Bytes

-- The values are written as they are, not escaped.
unfoldable pub encode_aws : UrlLib → AwsConfig → Bytes
encode_aws lib c = concat (
    codes "kms://aws?region="
    ∷ c.region
    ∷ codes "&accessKeyID="
    ∷ c.access_key_id
    ∷ codes "&accessKey="
    ∷ c.access_key
    ∷ codes "&keyName="
    ∷ c.key_name
    ∷ [])

unfoldable pub decode_aws : UrlLib → Bytes → Result UriError AwsConfig
unfolding checked_query get_query_parameter
decode_aws lib uri = do
  q ← checked_query lib (codes "kms") (codes "aws") uri
  key_name ← get_query_parameter lib q (codes "keyName")
  region ← get_query_parameter lib q (codes "region")
  access_key_id ← get_query_parameter lib q (codes "accessKeyID")
  access_key ← get_query_parameter lib q (codes "accessKey")
  ok (record {
    key_name = key_name;
    region = region;
    access_key_id = access_key_id;
    access_key = access_key;
  })

pub record AwsS3Config : Type 0 where
  pub bucket : Bytes
  pub region : Bytes
  pub access_key_id : Bytes
  pub access_key : Bytes

unfoldable pub encode_aws_s3 : UrlLib → AwsS3Config → Bytes
encode_aws_s3 lib c = concat (
    codes "storage://aws?bucket="
    ∷ lib.query_escape c.bucket
    ∷ codes "&region="
    ∷ lib.query_escape c.region
    ∷ codes "&accessKeyID="
    ∷ lib.query_escape c.access_key_id
    ∷ codes "&accessKey="
    ∷ lib.query_escape c.access_key
    ∷ [])

unfoldable pub decode_aws_s3 : UrlLib → Bytes → Result UriError AwsS3Config
unfolding checked_query get_query_parameter
decode_aws_s3 lib uri = do
  q ← checked_query lib (codes "storage") (codes "aws") uri
  bucket ← get_query_parameter lib q (codes "bucket")
  region ← get_query_parameter lib q (codes "region")
  access_key_id ← get_query_parameter lib q (codes "accessKeyID")
  access_key ← get_query_parameter lib q (codes "accessKey")
  ok (record {
    bucket = bucket;
    region = region;
    access_key_id = access_key_id;
    access_key = access_key;
  })

pub record AzureConfig : Type 0 where
  pub tenant_id : Bytes
  pub client_id : Bytes
  pub client_secret : Bytes
  pub vault_name : Bytes
  pub vault_type : Bytes
  pub key_name : Bytes

unfoldable pub encode_azure : UrlLib → AzureConfig → Bytes
encode_azure lib c = concat (
    codes "kms://azure?tenantID="
    ∷ lib.query_escape c.tenant_id
    ∷ codes "&clientID="
    ∷ lib.query_escape c.client_id
    ∷ codes "&clientSecret="
    ∷ lib.query_escape c.client_secret
    ∷ codes "&vaultName="
    ∷ lib.query_escape c.vault_name
    ∷ codes "&vaultType="
    ∷ lib.query_escape c.vault_type
    ∷ codes "&keyName="
    ∷ lib.query_escape c.key_name
    ∷ [])

unfoldable pub decode_azure : UrlLib → Bytes → Result UriError AzureConfig
unfolding checked_query get_query_parameter
decode_azure lib uri = do
  q ← checked_query lib (codes "kms") (codes "azure") uri
  tenant_id ← get_query_parameter lib q (codes "tenantID")
  client_id ← get_query_parameter lib q (codes "clientID")
  client_secret ← get_query_parameter lib q (codes "clientSecret")
  vault_name ← get_query_parameter lib q (codes "vaultName")
  vault_type ← get_query_parameter lib q (codes "vaultType")
  key_name ← get_query_parameter lib q (codes "keyName")
  ok (record {
    tenant_id = tenant_id;
    client_id = client_id;
    client_secret = client_secret;
    vault_name = vault_name;
    vault_type = vault_type;
    key_name = key_name;
  })

pub record AzureBlobConfig : Type 0 where
  pub storage_account : Bytes
  pub container : Bytes
  pub tenant_id : Bytes
  pub client_id : Bytes
  pub client_secret : Bytes

unfoldable pub encode_azure_blob : UrlLib → AzureBlobConfig → Bytes
encode_azure_blob lib c = concat (
    codes "storage://azure?account="
    ∷ lib.query_escape c.storage_account
    ∷ codes "&container="
    ∷ lib.query_escape c.container
    ∷ codes "&tenantID="
    ∷ lib.query_escape c.tenant_id
    ∷ codes "&clientID="
    ∷ lib.query_escape c.client_id
    ∷ codes "&clientSecret="
    ∷ lib.query_escape c.client_secret
    ∷ [])

unfoldable pub decode_azure_blob : UrlLib → Bytes → Result UriError AzureBlobConfig
unfolding checked_query get_query_parameter
decode_azure_blob lib uri = do
  q ← checked_query lib (codes "storage") (codes "azure") uri
  storage_account ← get_query_parameter lib q (codes "account")
  container ← get_query_parameter lib q (codes "container")
  tenant_id ← get_query_parameter lib q (codes "tenantID")
  client_id ← get_query_parameter lib q (codes "clientID")
  client_secret ← get_query_parameter lib q (codes "clientSecret")
  ok (record {
    storage_account = storage_account;
    container = container;
    tenant_id = tenant_id;
    client_id = client_id;
    client_secret = client_secret;
  })

pub record GcpConfig : Type 0 where
  pub credentials_path : Bytes
  pub project_id : Bytes
  pub location : Bytes
  pub key_ring : Bytes
  pub key_name : Bytes

unfoldable pub encode_gcp : UrlLib → GcpConfig → Bytes
encode_gcp lib c = concat (
    codes "kms://gcp?projectID="
    ∷ lib.query_escape c.project_id
    ∷ codes "&location="
    ∷ lib.query_escape c.location
    ∷ codes "&keyRing="
    ∷ lib.query_escape c.key_ring
    ∷ codes "&credentialsPath="
    ∷ lib.query_escape c.credentials_path
    ∷ codes "&keyName="
    ∷ lib.query_escape c.key_name
    ∷ [])

unfoldable pub decode_gcp : UrlLib → Bytes → Result UriError GcpConfig
unfolding checked_query get_query_parameter
decode_gcp lib uri = do
  q ← checked_query lib (codes "kms") (codes "gcp") uri
  credentials_path ← get_query_parameter lib q (codes "credentialsPath")
  project_id ← get_query_parameter lib q (codes "projectID")
  location ← get_query_parameter lib q (codes "location")
  key_ring ← get_query_parameter lib q (codes "keyRing")
  key_name ← get_query_parameter lib q (codes "keyName")
  ok (record {
    credentials_path = credentials_path;
    project_id = project_id;
    location = location;
    key_ring = key_ring;
    key_name = key_name;
  })

pub record GoogleCloudStorageConfig : Type 0 where
  pub credentials_path : Bytes
  pub project_id : Bytes
  pub bucket : Bytes

unfoldable pub encode_google_cloud_storage : UrlLib → GoogleCloudStorageConfig → Bytes
encode_google_cloud_storage lib c = concat (
    codes "storage://gcp?projectID="
    ∷ lib.query_escape c.project_id
    ∷ codes "&bucket="
    ∷ lib.query_escape c.bucket
    ∷ codes "&credentialsPath="
    ∷ lib.query_escape c.credentials_path
    ∷ [])

unfoldable pub decode_google_cloud_storage :
    UrlLib → Bytes → Result UriError GoogleCloudStorageConfig
unfolding checked_query get_query_parameter
decode_google_cloud_storage lib uri = do
  q ← checked_query lib (codes "storage") (codes "gcp") uri
  credentials_path ← get_query_parameter lib q (codes "credentialsPath")
  project_id ← get_query_parameter lib q (codes "projectID")
  bucket ← get_query_parameter lib q (codes "bucket")
  ok (record { credentials_path = credentials_path; project_id = project_id; bucket = bucket })
