-- ===== src/VersionLists.antt =====
-- constellation/api/versionsapi/list.go: the lists of the versions below a major or minor version.
pub mod Checked
pub mod Listed
use geth_sev.Prelude.{
  Bytes, codes, bytes_eq, Bool, true, false, ◌||◌, not, List, [], ◌∷◌, ◌++◌, Result, ok, err,
  if◌then◌else◌,
}
use geth_sev.Semantic.{SemverLib}
use geth_sev.FilePath.{path_join}
use geth_sev.VersionsApi.{
  VersionKind, unknown_kind, Granularity, unknown_granularity, major, minor, patch, Version,
  VersionError, kind_string, granularity_string, validate_ref, validate_stream,
}

-- `List`
pub record VersionList : Type 0 where
  pub ref : Bytes
  pub stream : Bytes
  pub granularity : Granularity
  pub base : Bytes
  pub kind : VersionKind
  pub versions : List Bytes

pub data ListError : Type 0 where
  invalid : VersionError → ListError
  no_list_granularity : Granularity → ListError
  no_list_kind : ListError
  base_not_semver : Bytes → ListError
  base_not_of_granularity : Bytes → Granularity → ListError
  versions_in_request : ListError
  version_not_semver : Bytes → ListError
  not_finer : Bytes → Bytes → ListError

-- `JSONPath`
unfoldable pub json_path : VersionList → Bytes
unfolding granularity_string kind_string path_join
json_path l = path_join (
    codes "constellation/v1"
    ∷ codes "ref"
    ∷ l.ref
    ∷ codes "stream"
    ∷ l.stream
    ∷ codes "versions"
    ∷ granularity_string l.granularity
    ∷ l.base
    ∷ (kind_string l.kind ++ codes ".json")
    ∷ [])

-- `retErr = errors.Join(retErr, ...)`, under a condition or for a call's error
error_if : Bool → ListError → List ListError
error_if b e = if b then e ∷ [] else []

error_of : Result VersionError (Unit {0}) → List ListError
error_of (ok u) = []
error_of (err e) = invalid e ∷ []

is_list_granularity : Granularity → Bool
is_list_granularity gran = elim gran [ major ↦ true | minor ↦ true | _ ↦ false ]

is_no_kind : VersionKind → Bool
is_no_kind k = elim k [ unknown_kind ↦ true | _ ↦ false ]

-- `Contains`
contains_loop : Bytes → List Bytes → Bool
unfolding bytes_eq
contains_loop version [] = false
contains_loop version (v ∷ vs) = bytes_eq v version || contains_loop version vs

unfoldable pub contains : VersionList → Bytes → Bool
unfolding contains_loop
contains l version = contains_loop version l.versions

structured_loop : VersionList → List Bytes → List Version
structured_loop l [] = []
structured_loop l (v ∷ vs) =
    record { ref = l.ref; stream = l.stream; version = v; kind = l.kind } ∷ structured_loop l vs

-- `StructuredVersions`
unfoldable pub structured_versions : VersionList → List Version
unfolding structured_loop
structured_versions l = structured_loop l l.versions

module _ (lib : SemverLib) where
  -- `normalizeFunc`
  unfoldable pub normalize : Granularity → Bytes → Bytes
  normalize major v = lib.major v
  normalize minor v = lib.major_minor v
  normalize patch v = v
  normalize unknown_granularity v = v

  -- The checks that `ValidateRequest` and `Validate` begin with
  request_errors : VersionList → List ListError
  unfolding error_of error_if is_list_granularity is_no_kind normalize bytes_eq
  request_errors l =
      error_of (validate_ref l.ref)
      ++ error_of (validate_stream l.ref l.stream)
      ++ error_if (not (is_list_granularity l.granularity)) (no_list_granularity l.granularity)
      ++ error_if (is_no_kind l.kind) no_list_kind
      ++ error_if (not (lib.is_valid l.base)) (base_not_semver l.base)
      ++ error_if (not (bytes_eq (normalize l.granularity l.base) l.base))
          (base_not_of_granularity l.base l.granularity)

  -- `ValidateRequest`
  unfoldable pub validate_request : VersionList → List ListError
  unfolding request_errors error_if
  validate_request l = request_errors l ++ error_if (not (is_empty l.versions)) versions_in_request
    where
      is_empty : List Bytes → Bool
      is_empty [] = true
      is_empty (v ∷ vs) = false

  -- The loop over the versions
  version_errors : Granularity → Bytes → List Bytes → List ListError
  unfolding error_if normalize bytes_eq
  version_errors gran base [] = []
  version_errors gran base (v ∷ vs) =
      error_if (not (lib.is_valid v)) (version_not_semver v)
      ++ error_if (not (bytes_eq (normalize gran v) base) || bytes_eq (normalize gran v) v)
          (not_finer v base)
      ++ version_errors gran base vs

  -- `Validate`
  unfoldable pub validate : VersionList → List ListError
  unfolding request_errors version_errors
  validate l = request_errors l ++ version_errors l.granularity l.base l.versions
