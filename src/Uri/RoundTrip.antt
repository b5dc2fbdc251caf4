-- ===== src/Uri/RoundTrip.antt =====
-- constellation/kms/uri/uri.go: what is decoded from the addresses that `EncodeToURI` makes.
use geth_sev.Prelude.{
  Bytes, IsBytes, codes, bytes_eq, ◌≡◌, ◌≢◌, refl, [], ◌∷◌, true, Result, ok, ◌>>=◌, ap, ◌∙◌,
  concat,
}
use geth_sev.Uri.{
  UriError, parameter_of, checked_query, get_query_parameter, AwsConfig, encode_aws, decode_aws,
  AwsS3Config, encode_aws_s3, decode_aws_s3, AzureConfig, encode_azure, decode_azure,
  AzureBlobConfig, encode_azure_blob, decode_azure_blob, GcpConfig, encode_gcp, decode_gcp,
  GoogleCloudStorageConfig, encode_google_cloud_storage, decode_google_cloud_storage,
}
use geth_sev.Uri.Url.{UrlLib, IsUrl, every, is_letter, is_lower, is_host}
use geth_sev.Uri.Fields.{
  Fields, AreWritten, query_text, first_value, get-query_text, checked_query-address,
}
use geth_sev.Uri.Unescaped.{
  fields_of_aws, unescaped_aws, fields_of_aws_s3, unescaped_aws_s3, fields_of_azure,
  unescaped_azure, fields_of_azure_blob, unescaped_azure_blob, fields_of_gcp, unescaped_gcp,
  fields_of_google_cloud_storage, unescaped_google_cloud_storage,
}

-- The values are byte strings, under keys of letters.
abbrev pub AreBytes : Fields → Type 0
AreBytes [] = Unit
AreBytes ((k, v) ∷ fields) = (every is_letter k ≡ true) × IsBytes v × AreBytes fields

abbrev escaped : UrlLib → Fields → Fields
escaped lib [] = []
escaped lib ((k, v) ∷ fields) = (k, lib.query_escape v) ∷ escaped lib fields

module _ (lib : UrlLib) (laws : IsUrl lib) where
  escaped-AreWritten :
      (fields : Fields) → AreBytes fields → AreWritten lib (escaped lib fields) fields
  escaped-AreWritten [] h = tt
  escaped-AreWritten ((k, v) ∷ fields) h = (
    refl,
    h.0,
    laws.escape_chars v h.1,
    laws.unescape_escape v h.1,
    escaped-AreWritten fields h.2,
  )

  -- A decoder at an address with its scheme and host.
  pub read-address :
      {A : Type 0} (body : (Bytes → Bytes) → Result UriError A) (scheme host : Bytes)
      (texts fields : Fields)
      → scheme ≢ []
      → every is_lower scheme ≡ true
      → every is_host host ≡ true
      → texts ≢ []
      → AreWritten lib texts fields
      → (checked_query lib scheme host
            (concat (scheme ∷ codes "://" ∷ host ∷ codes "?" ∷ query_text texts ∷ []))
          >>= λ q. body (lib.get q))
        ≡ body (first_value fields)
  read-address body scheme host texts fields n s h t w =
      ap (λ r. r >>= λ q. body (lib.get q))
        (checked_query-address lib laws scheme host texts fields n s h w)
      ∙ (λ i. body (λ k. get-query_text lib laws texts fields k t w i))

  pub decode-encode_aws :
      (c : AwsConfig)
      → AreWritten lib (fields_of_aws c) (fields_of_aws c)
      → decode_aws lib (encode_aws lib c) ≡ unescaped_aws (parameter_of lib) c
  unfolding decode_aws encode_aws unescaped_aws get_query_parameter bytes_eq
  decode-encode_aws c b =
      read-address body (codes "kms") (codes "aws") (fields_of_aws c) (fields_of_aws c) (λ e. cc)
        refl refl (λ e. cc) b
    where
      body : (Bytes → Bytes) → Result UriError AwsConfig
      body get = do
        key_name ← parameter_of lib (codes "keyName") (get (codes "keyName"))
        region ← parameter_of lib (codes "region") (get (codes "region"))
        access_key_id ← parameter_of lib (codes "accessKeyID") (get (codes "accessKeyID"))
        access_key ← parameter_of lib (codes "accessKey") (get (codes "accessKey"))
        ok (record {
          key_name = key_name;
          region = region;
          access_key_id = access_key_id;
          access_key = access_key;
        })

  pub decode-encode_aws_s3 :
      (c : AwsS3Config)
      → AreBytes (fields_of_aws_s3 c)
      → decode_aws_s3 lib (encode_aws_s3 lib c) ≡ unescaped_aws_s3 (parameter_of lib) c
  unfolding decode_aws_s3 encode_aws_s3 unescaped_aws_s3 get_query_parameter bytes_eq
  decode-encode_aws_s3 c b =
      read-address body (codes "storage") (codes "aws") (escaped lib (fields_of_aws_s3 c))
        (fields_of_aws_s3 c) (λ e. cc) refl refl (λ e. cc)
        (escaped-AreWritten (fields_of_aws_s3 c) b)
    where
      body : (Bytes → Bytes) → Result UriError AwsS3Config
      body get = do
        bucket ← parameter_of lib (codes "bucket") (get (codes "bucket"))
        region ← parameter_of lib (codes "region") (get (codes "region"))
        access_key_id ← parameter_of lib (codes "accessKeyID") (get (codes "accessKeyID"))
        access_key ← parameter_of lib (codes "accessKey") (get (codes "accessKey"))
        ok (record {
          bucket = bucket;
          region = region;
          access_key_id = access_key_id;
          access_key = access_key;
        })

  pub decode-encode_azure :
      (c : AzureConfig)
      → AreBytes (fields_of_azure c)
      → decode_azure lib (encode_azure lib c) ≡ unescaped_azure (parameter_of lib) c
  unfolding decode_azure encode_azure unescaped_azure get_query_parameter bytes_eq
  decode-encode_azure c b =
      read-address body (codes "kms") (codes "azure") (escaped lib (fields_of_azure c))
        (fields_of_azure c) (λ e. cc) refl refl (λ e. cc) (escaped-AreWritten (fields_of_azure c) b)
    where
      body : (Bytes → Bytes) → Result UriError AzureConfig
      body get = do
        tenant_id ← parameter_of lib (codes "tenantID") (get (codes "tenantID"))
        client_id ← parameter_of lib (codes "clientID") (get (codes "clientID"))
        client_secret ← parameter_of lib (codes "clientSecret") (get (codes "clientSecret"))
        vault_name ← parameter_of lib (codes "vaultName") (get (codes "vaultName"))
        vault_type ← parameter_of lib (codes "vaultType") (get (codes "vaultType"))
        key_name ← parameter_of lib (codes "keyName") (get (codes "keyName"))
        ok (record {
          tenant_id = tenant_id;
          client_id = client_id;
          client_secret = client_secret;
          vault_name = vault_name;
          vault_type = vault_type;
          key_name = key_name;
        })

  pub decode-encode_azure_blob :
      (c : AzureBlobConfig)
      → AreBytes (fields_of_azure_blob c)
      → decode_azure_blob lib (encode_azure_blob lib c) ≡ unescaped_azure_blob (parameter_of lib) c
  unfolding decode_azure_blob encode_azure_blob unescaped_azure_blob get_query_parameter bytes_eq
  decode-encode_azure_blob c b =
      read-address body (codes "storage") (codes "azure") (escaped lib (fields_of_azure_blob c))
        (fields_of_azure_blob c) (λ e. cc) refl refl (λ e. cc)
        (escaped-AreWritten (fields_of_azure_blob c) b)
    where
      body : (Bytes → Bytes) → Result UriError AzureBlobConfig
      body get = do
        storage_account ← parameter_of lib (codes "account") (get (codes "account"))
        container ← parameter_of lib (codes "container") (get (codes "container"))
        tenant_id ← parameter_of lib (codes "tenantID") (get (codes "tenantID"))
        client_id ← parameter_of lib (codes "clientID") (get (codes "clientID"))
        client_secret ← parameter_of lib (codes "clientSecret") (get (codes "clientSecret"))
        ok (record {
          storage_account = storage_account;
          container = container;
          tenant_id = tenant_id;
          client_id = client_id;
          client_secret = client_secret;
        })

  pub decode-encode_gcp :
      (c : GcpConfig)
      → AreBytes (fields_of_gcp c)
      → decode_gcp lib (encode_gcp lib c) ≡ unescaped_gcp (parameter_of lib) c
  unfolding decode_gcp encode_gcp unescaped_gcp get_query_parameter bytes_eq
  decode-encode_gcp c b =
      read-address body (codes "kms") (codes "gcp") (escaped lib (fields_of_gcp c))
        (fields_of_gcp c) (λ e. cc) refl refl (λ e. cc) (escaped-AreWritten (fields_of_gcp c) b)
    where
      body : (Bytes → Bytes) → Result UriError GcpConfig
      body get = do
        credentials_path ←
            parameter_of lib (codes "credentialsPath") (get (codes "credentialsPath"))
        project_id ← parameter_of lib (codes "projectID") (get (codes "projectID"))
        location ← parameter_of lib (codes "location") (get (codes "location"))
        key_ring ← parameter_of lib (codes "keyRing") (get (codes "keyRing"))
        key_name ← parameter_of lib (codes "keyName") (get (codes "keyName"))
        ok (record {
          credentials_path = credentials_path;
          project_id = project_id;
          location = location;
          key_ring = key_ring;
          key_name = key_name;
        })

  pub decode-encode_google_cloud_storage :
      (c : GoogleCloudStorageConfig)
      → AreBytes (fields_of_google_cloud_storage c)
      → decode_google_cloud_storage lib (encode_google_cloud_storage lib c)
        ≡ unescaped_google_cloud_storage (parameter_of lib) c
  unfolding decode_google_cloud_storage encode_google_cloud_storage unescaped_google_cloud_storage
      get_query_parameter bytes_eq
  decode-encode_google_cloud_storage c b =
      read-address body (codes "storage") (codes "gcp")
        (escaped lib (fields_of_google_cloud_storage c)) (fields_of_google_cloud_storage c)
        (λ e. cc) refl refl (λ e. cc) (escaped-AreWritten (fields_of_google_cloud_storage c) b)
    where
      body : (Bytes → Bytes) → Result UriError GoogleCloudStorageConfig
      body get = do
        credentials_path ←
            parameter_of lib (codes "credentialsPath") (get (codes "credentialsPath"))
        project_id ← parameter_of lib (codes "projectID") (get (codes "projectID"))
        bucket ← parameter_of lib (codes "bucket") (get (codes "bucket"))
        ok (record {
          credentials_path = credentials_path;
          project_id = project_id;
          bucket = bucket;
        })
