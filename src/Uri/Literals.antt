-- ===== src/Uri/Literals.antt =====
-- constellation/kms/uri/uri.go: configurations whose values unescaping does not change.
use geth_sev.Prelude.{Bytes, codes, ◌≡◌, ◌≢◌, refl, [], ◌∷◌, true, ok, arith}
use geth_sev.Uri.{
  parameter_of, AwsConfig, AwsS3Config, AzureConfig, AzureBlobConfig, GcpConfig,
  GoogleCloudStorageConfig,
}
use geth_sev.Uri.Url.{UrlLib, IsUrl, every, is_literal}
use geth_sev.Uri.Fields.{Fields}
use geth_sev.Uri.Unescaped.{
  fields_of_aws, unescaped_aws, fields_of_aws_s3, unescaped_aws_s3, fields_of_azure,
  unescaped_azure, fields_of_azure_blob, unescaped_azure_blob, fields_of_gcp, unescaped_gcp,
  fields_of_google_cloud_storage, unescaped_google_cloud_storage,
}

-- A value that unescaping does not change, and that is not taken for a missing one.
abbrev pub IsLiteral : Bytes → Type 0
IsLiteral v = (v ≢ []) × (every is_literal v ≡ true)

abbrev pub AreLiteral : Fields → Type 0
AreLiteral [] = Unit
AreLiteral ((k, v) ∷ fields) = IsLiteral v × AreLiteral fields

module _ (lib : UrlLib) (laws : IsUrl lib) where
  pub literal-parameter : (k v : Bytes) → IsLiteral v → parameter_of lib k v ≡ ok v
  unfolding parameter_of
  literal-parameter k [] h = absurd (h.0 refl)
  literal-parameter k (c ∷ v) h = ground (arith, laws.unescape_literal (c ∷ v) h.1)

  pub unescaped_aws-literal :
      (c : AwsConfig) → AreLiteral (fields_of_aws c) → unescaped_aws (parameter_of lib) c ≡ ok c
  unfolding unescaped_aws
  unescaped_aws-literal c h =
      rw
        (
          literal-parameter (codes "keyName") c.key_name h.1.1.1.0,
          literal-parameter (codes "region") c.region h.0,
          literal-parameter (codes "accessKeyID") c.access_key_id h.1.0,
          literal-parameter (codes "accessKey") c.access_key h.1.1.0,
        )
        refl

  pub unescaped_aws_s3-literal :
      (c : AwsS3Config)
      → AreLiteral (fields_of_aws_s3 c)
      → unescaped_aws_s3 (parameter_of lib) c ≡ ok c
  unfolding unescaped_aws_s3
  unescaped_aws_s3-literal c h =
      rw
        (
          literal-parameter (codes "bucket") c.bucket h.0,
          literal-parameter (codes "region") c.region h.1.0,
          literal-parameter (codes "accessKeyID") c.access_key_id h.1.1.0,
          literal-parameter (codes "accessKey") c.access_key h.1.1.1.0,
        )
        refl

  pub unescaped_azure-literal :
      (c : AzureConfig)
      → AreLiteral (fields_of_azure c)
      → unescaped_azure (parameter_of lib) c ≡ ok c
  unfolding unescaped_azure
  unescaped_azure-literal c h =
      rw
        (
          literal-parameter (codes "tenantID") c.tenant_id h.0,
          literal-parameter (codes "clientID") c.client_id h.1.0,
          literal-parameter (codes "clientSecret") c.client_secret h.1.1.0,
          literal-parameter (codes "vaultName") c.vault_name h.1.1.1.0,
          literal-parameter (codes "vaultType") c.vault_type h.1.1.1.1.0,
          literal-parameter (codes "keyName") c.key_name h.1.1.1.1.1.0,
        )
        refl

  pub unescaped_azure_blob-literal :
      (c : AzureBlobConfig)
      → AreLiteral (fields_of_azure_blob c)
      → unescaped_azure_blob (parameter_of lib) c ≡ ok c
  unfolding unescaped_azure_blob
  unescaped_azure_blob-literal c h =
      rw
        (
          literal-parameter (codes "account") c.storage_account h.0,
          literal-parameter (codes "container") c.container h.1.0,
          literal-parameter (codes "tenantID") c.tenant_id h.1.1.0,
          literal-parameter (codes "clientID") c.client_id h.1.1.1.0,
          literal-parameter (codes "clientSecret") c.client_secret h.1.1.1.1.0,
        )
        refl

  pub unescaped_gcp-literal :
      (c : GcpConfig) → AreLiteral (fields_of_gcp c) → unescaped_gcp (parameter_of lib) c ≡ ok c
  unfolding unescaped_gcp
  unescaped_gcp-literal c h =
      rw
        (
          literal-parameter (codes "credentialsPath") c.credentials_path h.1.1.1.0,
          literal-parameter (codes "projectID") c.project_id h.0,
          literal-parameter (codes "location") c.location h.1.0,
          literal-parameter (codes "keyRing") c.key_ring h.1.1.0,
          literal-parameter (codes "keyName") c.key_name h.1.1.1.1.0,
        )
        refl

  pub unescaped_google_cloud_storage-literal :
      (c : GoogleCloudStorageConfig)
      → AreLiteral (fields_of_google_cloud_storage c)
      → unescaped_google_cloud_storage (parameter_of lib) c ≡ ok c
  unfolding unescaped_google_cloud_storage
  unescaped_google_cloud_storage-literal c h =
      rw
        (
          literal-parameter (codes "credentialsPath") c.credentials_path h.1.1.0,
          literal-parameter (codes "projectID") c.project_id h.0,
          literal-parameter (codes "bucket") c.bucket h.1.0,
        )
        refl
