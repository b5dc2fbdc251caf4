-- ===== src/ImageMeasurements.antt =====
-- constellation/attestation/measurements/measurements.go and fetchmeasurements.go,
-- constellation/sigstore/keyselect/keyselect.go, and `VerifyWithRekor` of
-- constellation/sigstore/rekor.go: the measurements of images, merged and fetched. HTTP, JSON, the
-- hash, the signatures of cosign, the queries to Rekor and net/url are parameters.
pub mod Merging
pub mod Entries
pub mod Fetching
use geth_sev.Prelude.{
  ℕ, ◌==◌, ltb, Bytes, codes, bytes_eq, Bool, true, false, not, ◌&&◌, ◌||◌, Option, none, some,
  List, [], ◌∷◌, ◌++◌, Result, ok, err, map_err, ◌>>=◌, ◌>>◌, if◌then◌else◌, sort_stable, text_less,
}
use geth_sev.CloudProvider.{Provider, unknown, aws, azure, gcp, openstack, qemu}
use geth_sev.Variant.{Variant}
use geth_sev.Variant
use geth_sev.Measurements.{M}
use geth_sev.Semantic.{SemverLib}
use geth_sev.VersionsApi.{
  Version, VersionKind, image, cli, unknown_kind, VersionError, new_version,
  new_version_from_short_path, validate, release_ref,
}
use geth_sev.VersionsApi.Lists.{artifacts_url, v2}

-- The entry of one variant.
pub record Entry : Type 0 where
  pub csp : Provider
  pub attestation_variant : Bytes
  pub measurements : M

-- `ImageMeasurementsV2`
pub record ImageMeasurements : Type 0 where
  pub version : Bytes
  pub ref : Bytes
  pub stream : Bytes
  pub list : List Entry

pub data MergeError : Type 0 where
  no_measurements version_mismatch ref_mismatch stream_mismatch : MergeError

-- The number of a provider in the source's enumeration.
csp_number : Provider → ℕ
csp_number unknown = 0
csp_number aws = 1
csp_number azure = 2
csp_number gcp = 3
csp_number openstack = 4
csp_number qemu = 5

-- The `less` that the entries are sorted by.
pub entry_less : Entry → Entry → Bool
unfolding csp_number text_less
entry_less a b =
    if not (csp_number a.csp == csp_number b.csp)
    then ltb (csp_number a.csp) (csp_number b.csp)
    else text_less a.attestation_variant b.attestation_variant

merge_loop :
    ImageMeasurements → List ImageMeasurements → List Entry → Result MergeError (List Entry)
unfolding bytes_eq
merge_loop out [] list = ok list
merge_loop out (m ∷ ms) list =
    let rest : Result MergeError (List Entry) = merge_loop out ms (list ++ m.list) in
    if not (bytes_eq m.version out.version)
    then err version_mismatch
    else if not (bytes_eq m.ref out.ref)
    then err ref_mismatch
    else if not (bytes_eq m.stream out.stream)
    then err stream_mismatch
    else rest

sorted_into : ImageMeasurements → List Entry → ImageMeasurements
unfolding entry_less sort_stable
sorted_into out list = record {
  version = out.version;
  ref = out.ref;
  stream = out.stream;
  list = sort_stable entry_less list;
}

-- `MergeImageMeasurementsV2`
unfoldable pub merge : List ImageMeasurements → Result MergeError ImageMeasurements
unfolding merge_loop sorted_into
merge [] = err no_measurements
merge (m ∷ []) = ok m
merge (m ∷ n ∷ ms) = do list ← merge_loop m (m ∷ n ∷ ms) []; ok (sorted_into m list)

pub data FetchError : Type 0 where
  fetching fetching_signature bad_signature unmarshalling : Bytes → FetchError
  invalid_metadata : List VersionError → FetchError
  mismatch no_entry : FetchError
  image_version selecting_key : List VersionError → FetchError
  creating_verifier joining parsing_url : Bytes → FetchError
  unsupported_kind : FetchError
  searching_rekor verifying_rekor : Bytes → FetchError
  no_rekor_entry : FetchError

same_kind : VersionKind → VersionKind → Bool
same_kind k j = elim k [
  | image ↦ elim j [ image ↦ true | _ ↦ false ]
  | cli ↦ elim j [ cli ↦ true | _ ↦ false ]
  | unknown_kind ↦ elim j [ unknown_kind ↦ true | _ ↦ false ]
]

-- `Version.Equal`
unfoldable pub version_equal : Version → Version → Bool
unfolding bytes_eq same_kind
version_equal v other =
    bytes_eq v.ref other.ref
    && (bytes_eq v.stream other.stream
        && (bytes_eq v.version other.version && same_kind v.kind other.kind))

-- Whether an entry is for the provider and the variant, which may be nil.
is_wanted : Provider → Option Variant → Entry → Bool
unfolding csp_number Variant.from_string Variant.equal
is_wanted csp none entry = false
is_wanted csp (some v) entry =
    csp_number entry.csp == csp_number csp && elim (Variant.from_string entry.attestation_variant) [
      | none ↦ false
      | some got ↦ Variant.equal got v
    ]

pub find_entry : Provider → Option Variant → List Entry → Option Entry
unfolding is_wanted
find_entry csp v [] = none
find_entry csp v (entry ∷ entries) =
    if is_wanted csp v entry then some entry else find_entry csp v entries

-- What the fetching needs of other packages: `getFromURL`, the decoder of JSON, `sha256` in hex,
-- the check of a signature under a public key, the two queries to Rekor, Base64, and net/url.
pub record FetchLib : Type 0 where
  pub get_from_url : Bytes → Result Bytes Bytes
  pub unmarshal : Bytes → Result Bytes ImageMeasurements
  pub sha256_hex : Bytes → Bytes
  pub new_cosign_verifier : Bytes → Result Bytes (Unit {0})
  pub verify_signature : Bytes → Bytes → Bytes → Result Bytes (Unit {0})
  pub search_by_hash : Bytes → Result Bytes (List Bytes)
  pub verify_entry : Bytes → Bytes → Result Bytes (Unit {0})
  pub base64 : Bytes → Bytes
  pub join_path : Bytes → List Bytes → Result Bytes Bytes
  pub parse_url : Bytes → Result Bytes Bytes
  pub release_key : Bytes
  pub dev_key : Bytes

-- `CosignPublicKeyForVersion`
unfoldable pub cosign_public_key_for_version :
    SemverLib → FetchLib → Version → Result (List VersionError) Bytes
unfolding validate bytes_eq
cosign_public_key_for_version sem lib v = elim (validate sem v) [
  | e ∷ es ↦ err (e ∷ es)
  | [] ↦
      if bytes_eq v.ref release_ref && bytes_eq v.stream (codes "stable")
      then ok lib.release_key
      else ok lib.dev_key
]

abbrev pub measurements_file : Bytes
measurements_file = codes "measurements.json"

abbrev pub signature_file : Bytes
signature_file = codes "measurements.json.sig"

-- `MeasurementURL`
unfoldable pub measurement_url : FetchLib → Version → Result FetchError (Bytes × Bytes)
unfolding same_kind artifacts_url
measurement_url lib v = if not (same_kind v.kind image) then err unsupported_kind else urls
  where
    urls : Result FetchError (Bytes × Bytes)
    urls = do
      path ←
          map_err joining
            (lib.join_path (artifacts_url v v2) (codes "image" ∷ measurements_file ∷ []))
      signature_path ←
          map_err joining (lib.join_path (artifacts_url v v2) (codes "image" ∷ signature_file ∷ []))
      url ← map_err parsing_url (lib.parse_url path)
      signature_url ← map_err parsing_url (lib.parse_url signature_path)
      ok (url, signature_url)

-- The first entry that Rekor has is verified; the others are ignored.
first_entry : FetchLib → Bytes → List Bytes → Result FetchError (Unit {0})
first_entry lib public_key [] = err no_rekor_entry
first_entry lib public_key (uuid ∷ others) =
    map_err verifying_rekor (lib.verify_entry uuid (lib.base64 public_key))

-- `VerifyWithRekor`
unfoldable pub verify_with_rekor : FetchLib → Bytes → Bytes → Result FetchError (Unit {0})
unfolding first_entry
verify_with_rekor lib public_key hash = do
  uuids ← map_err searching_rekor (lib.search_by_hash hash)
  first_entry lib public_key uuids

module _ (sem : SemverLib) (lib : FetchLib) where
  -- `fromImageMeasurementsV2`: the new value of the measurements
  unfoldable pub from_image_measurements :
      ImageMeasurements → Version → Provider → Option Variant → Result FetchError M
  unfolding new_version version_equal find_entry
  from_image_measurements ms want csp v = do
    got ← map_err invalid_metadata (new_version sem ms.ref ms.stream ms.version image)
    if not (version_equal want got) then err mismatch else entry
    where
      entry : Result FetchError M
      entry = elim (find_entry csp v ms.list) [ none ↦ err no_entry | some e ↦ ok e.measurements ]

  -- `fetchAndVerify` with the verifier of a public key: the new value and the hash
  unfoldable pub fetch_and_verify :
      Bytes → Bytes → Bytes → Version → Provider → Option Variant → Result FetchError (M × Bytes)
  unfolding from_image_measurements
  fetch_and_verify public_key url signature_url want csp v = do
    raw ← map_err fetching (lib.get_from_url url)
    signature ← map_err fetching_signature (lib.get_from_url signature_url)
    map_err bad_signature (lib.verify_signature public_key raw signature)
    ms ← map_err unmarshalling (lib.unmarshal raw)
    m ← from_image_measurements ms want csp v
    ok (m, lib.sha256_hex raw)

  -- `FetchNoVerify`
  unfoldable pub fetch_no_verify : Bytes → Version → Provider → Option Variant → Result FetchError M
  unfolding from_image_measurements
  fetch_no_verify url want csp v = do
    raw ← map_err fetching (lib.get_from_url url)
    ms ← map_err unmarshalling (lib.unmarshal raw)
    from_image_measurements ms want csp v

  verified : Bytes → Bytes → Bytes → Version → Provider → Option Variant → Result FetchError M
  unfolding fetch_and_verify verify_with_rekor
  verified public_key url signature_url version csp v = do
    fetched ← fetch_and_verify public_key url signature_url version csp v
    verify_with_rekor lib public_key fetched.1
    ok fetched.0

  -- `FetchAndVerifyMeasurements`
  unfoldable pub fetch_and_verify_measurements :
      Bytes → Provider → Option Variant → Bool → Result FetchError M
  unfolding new_version_from_short_path cosign_public_key_for_version measurement_url
      fetch_no_verify verified
  fetch_and_verify_measurements path csp v no_verify = do
    version ← map_err image_version (new_version_from_short_path sem path image)
    public_key ← map_err selecting_key (cosign_public_key_for_version sem lib version)
    map_err creating_verifier (lib.new_cosign_verifier public_key)
    urls ← measurement_url lib version
    if no_verify
        then fetch_no_verify urls.0 version csp v
        else verified public_key urls.0 urls.1 version csp v
