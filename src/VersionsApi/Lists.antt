-- ===== src/VersionsApi/Lists.antt =====
-- `WithGranularity` and the paths and URLs of the version lists and the artifacts.
use geth_sev.Prelude.{Bytes, codes, bytes_eq, Bool, ◌&&◌, true, false, ◌++◌, [], ◌∷◌, if◌then◌else◌}
use geth_sev.Semantic.{SemverLib}
use geth_sev.FilePath.{path_join}
use geth_sev.VersionsApi.{
  VersionKind, Granularity, unknown_granularity, major, minor, patch, kind_string,
  granularity_string, Version,
}

abbrev cdn_repository_url : Bytes
cdn_repository_url = codes "https://cdn.confidential.cloud"

-- `apiVersion`, of which the constants V1 and V2 are used.
pub data ApiVersion : Type 0 where
  v1 v2 : ApiVersion

unfoldable pub api_version_string : ApiVersion → Bytes
api_version_string v1 = codes "v1"
api_version_string v2 = codes "v2"

kind_eq : VersionKind → VersionKind → Bool
unfolding bytes_eq kind_string
kind_eq a b = bytes_eq (kind_string a) (kind_string b)

-- `Version.Equal`
unfoldable pub equal : Version → Version → Bool
unfolding bytes_eq kind_eq
equal v other =
    bytes_eq v.ref other.ref
    && bytes_eq v.stream other.stream
    && bytes_eq v.version other.version
    && kind_eq v.kind other.kind

-- `gran == GranularityUnknown || gran == GranularityPatch`
no_list : Granularity → Bool
no_list gran = elim gran [ unknown_granularity ↦ true | patch ↦ true | _ ↦ false ]

module _ (lib : SemverLib) where
  -- `WithGranularity`, with `Major` and `MajorMinor`
  unfoldable pub with_granularity : Version → Granularity → Bytes
  with_granularity v major = lib.major v.version
  with_granularity v minor = lib.major_minor v.version
  with_granularity v patch = v.version
  with_granularity v unknown_granularity = []

  -- `ListPath`
  unfoldable pub list_path : Version → Granularity → Bytes
  unfolding no_list with_granularity granularity_string kind_string path_join
  list_path v gran =
      if no_list gran
      then []
      else path_join (
          codes "constellation/v1"
          ∷ codes "ref"
          ∷ v.ref
          ∷ codes "stream"
          ∷ v.stream
          ∷ codes "versions"
          ∷ granularity_string gran
          ∷ with_granularity v gran
          ∷ (kind_string v.kind ++ codes ".json")
          ∷ [])

  -- `ListURL`
  unfoldable pub list_url : Version → Granularity → Bytes
  unfolding no_list list_path
  list_url v gran = if no_list gran then [] else cdn_repository_url ++ codes "/" ++ list_path v gran

-- `ArtifactPath`
unfoldable pub artifact_path : Version → ApiVersion → Bytes
unfolding api_version_string path_join
artifact_path v api = path_join (
    codes "constellation"
    ∷ api_version_string api
    ∷ codes "ref"
    ∷ v.ref
    ∷ codes "stream"
    ∷ v.stream
    ∷ v.version
    ∷ [])

-- `ArtifactsURL`
unfoldable pub artifacts_url : Version → ApiVersion → Bytes
unfolding artifact_path
artifacts_url v api = cdn_repository_url ++ codes "/" ++ artifact_path v api
