-- ===== src/Uri/Unescaped.antt =====
-- constellation/kms/uri/uri.go: the parameters of each configuration, and the configuration with its
-- values unescaped once more.
use geth_sev.Prelude.{Bytes, codes, err, [], ◌∷◌, Result, ok, ◌>>=◌}
use geth_sev.Uri.{
  UriError, missing, unescaping, AwsConfig, AwsS3Config, AzureConfig, AzureBlobConfig, GcpConfig,
  GoogleCloudStorageConfig,
}
use geth_sev.Uri.Url.{UrlLib}
use geth_sev.Uri.Fields.{Fields}

-- The parameters of each configuration, in the order of its address.
abbrev pub fields_of_aws : AwsConfig → Fields
fields_of_aws c =
    (codes "region", c.region)
    ∷ (codes "accessKeyID", c.access_key_id)
    ∷ (codes "accessKey", c.access_key)
    ∷ (codes "keyName", c.key_name)
    ∷ []

abbrev pub fields_of_aws_s3 : AwsS3Config → Fields
fields_of_aws_s3 c =
    (codes "bucket", c.bucket)
    ∷ (codes "region", c.region)
    ∷ (codes "accessKeyID", c.access_key_id)
    ∷ (codes "accessKey", c.access_key)
    ∷ []

abbrev pub fields_of_azure : AzureConfig → Fields
fields_of_azure c =
    (codes "tenantID", c.tenant_id)
    ∷ (codes "clientID", c.client_id)
    ∷ (codes "clientSecret", c.client_secret)
    ∷ (codes "vaultName", c.vault_name)
    ∷ (codes "vaultType", c.vault_type)
    ∷ (codes "keyName", c.key_name)
    ∷ []

abbrev pub fields_of_azure_blob : AzureBlobConfig → Fields
fields_of_azure_blob c =
    (codes "account", c.storage_account)
    ∷ (codes "container", c.container)
    ∷ (codes "tenantID", c.tenant_id)
    ∷ (codes "clientID", c.client_id)
    ∷ (codes "clientSecret", c.client_secret)
    ∷ []

abbrev pub fields_of_gcp : GcpConfig → Fields
fields_of_gcp c =
    (codes "projectID", c.project_id)
    ∷ (codes "location", c.location)
    ∷ (codes "keyRing", c.key_ring)
    ∷ (codes "credentialsPath", c.credentials_path)
    ∷ (codes "keyName", c.key_name)
    ∷ []

abbrev pub fields_of_google_cloud_storage : GoogleCloudStorageConfig → Fields
fields_of_google_cloud_storage c =
    (codes "projectID", c.project_id)
    ∷ (codes "bucket", c.bucket)
    ∷ (codes "credentialsPath", c.credentials_path)
    ∷ []

-- What becomes of the value of a parameter, by its key.
abbrev pub Getter : Type 0
Getter = Bytes → Bytes → Result UriError Bytes

-- A value unescaped once more; an empty one is missing.
abbrev pub unescaped_once : UrlLib → Getter
unescaped_once lib key [] = err (missing key)
unescaped_once lib key (c ∷ value) = elim (lib.query_unescape (c ∷ value)) [
  | ok text ↦ ok text
  | err e ↦ err (unescaping key)
]

-- What becomes of each configuration, or the first error in the order in which it is read.
unfoldable pub unescaped_aws : Getter → AwsConfig → Result UriError AwsConfig
unescaped_aws get c = do
  key_name ← get (codes "keyName") c.key_name
  region ← get (codes "region") c.region
  access_key_id ← get (codes "accessKeyID") c.access_key_id
  access_key ← get (codes "accessKey") c.access_key
  ok (record {
    key_name = key_name;
    region = region;
    access_key_id = access_key_id;
    access_key = access_key;
  })

unfoldable pub unescaped_aws_s3 : Getter → AwsS3Config → Result UriError AwsS3Config
unescaped_aws_s3 get c = do
  bucket ← get (codes "bucket") c.bucket
  region ← get (codes "region") c.region
  access_key_id ← get (codes "accessKeyID") c.access_key_id
  access_key ← get (codes "accessKey") c.access_key
  ok (record {
    bucket = bucket;
    region = region;
    access_key_id = access_key_id;
    access_key = access_key;
  })

unfoldable pub unescaped_azure : Getter → AzureConfig → Result UriError AzureConfig
unescaped_azure get c = do
  tenant_id ← get (codes "tenantID") c.tenant_id
  client_id ← get (codes "clientID") c.client_id
  client_secret ← get (codes "clientSecret") c.client_secret
  vault_name ← get (codes "vaultName") c.vault_name
  vault_type ← get (codes "vaultType") c.vault_type
  key_name ← get (codes "keyName") c.key_name
  ok (record {
    tenant_id = tenant_id;
    client_id = client_id;
    client_secret = client_secret;
    vault_name = vault_name;
    vault_type = vault_type;
    key_name = key_name;
  })

unfoldable pub unescaped_azure_blob : Getter → AzureBlobConfig → Result UriError AzureBlobConfig
unescaped_azure_blob get c = do
  storage_account ← get (codes "account") c.storage_account
  container ← get (codes "container") c.container
  tenant_id ← get (codes "tenantID") c.tenant_id
  client_id ← get (codes "clientID") c.client_id
  client_secret ← get (codes "clientSecret") c.client_secret
  ok (record {
    storage_account = storage_account;
    container = container;
    tenant_id = tenant_id;
    client_id = client_id;
    client_secret = client_secret;
  })

unfoldable pub unescaped_gcp : Getter → GcpConfig → Result UriError GcpConfig
unescaped_gcp get c = do
  credentials_path ← get (codes "credentialsPath") c.credentials_path
  project_id ← get (codes "projectID") c.project_id
  location ← get (codes "location") c.location
  key_ring ← get (codes "keyRing") c.key_ring
  key_name ← get (codes "keyName") c.key_name
  ok (record {
    credentials_path = credentials_path;
    project_id = project_id;
    location = location;
    key_ring = key_ring;
    key_name = key_name;
  })

unfoldable pub unescaped_google_cloud_storage :
    Getter → GoogleCloudStorageConfig → Result UriError GoogleCloudStorageConfig
unescaped_google_cloud_storage get c = do
  credentials_path ← get (codes "credentialsPath") c.credentials_path
  project_id ← get (codes "projectID") c.project_id
  bucket ← get (codes "bucket") c.bucket
  ok (record { credentials_path = credentials_path; project_id = project_id; bucket = bucket })
