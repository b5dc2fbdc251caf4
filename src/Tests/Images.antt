-- ===== src/Tests/Images.antt =====
-- Measurements of images, fetched over a toy network: the document is the byte 1, which the key for
-- other versions signs as 2.
use geth_sev.Prelude.{
  ◌≡◌, ◌↔◌, refl, Bytes, codes, bytes_eq, [], ◌∷◌, some, true, false, ok, err, is_ok, All,
  if◌then◌else◌,
}
use mathlib.Core.List.{Perm}
use geth_sev.CloudProvider.{azure, gcp}
use geth_sev.Variant.{azure_sev_snp}
use geth_sev.Measurements.{M, enforce}
use geth_sev.VersionsApi.{Version, image, new_version_from_short_path}
use geth_sev.VersionsApi
use geth_sev.ImageMeasurements.{
  Entry, ImageMeasurements, FetchLib, merge, fetch_and_verify_measurements, measurement_url,
  cosign_public_key_for_version,
}
use geth_sev.ImageMeasurements.Merging.{IsSameImage, IsOrdered, entries, merge_iff}
use geth_sev.ImageMeasurements.Fetching.{IsFor, IsKeyFor, IsTrusted, fetched-IsTrusted}
use geth_sev.Tests.Versions.{one_version}

abbrev values : M
values = (4, record { expected = 7 ∷ []; validation_opt = enforce }) ∷ []

abbrev document : Entry → ImageMeasurements
document e = record {
  version = codes "v1.2.3";
  ref = codes "feat-x";
  stream = codes "nightly";
  list = e ∷ [];
}

abbrev on_azure : Entry
on_azure = record {
  csp = azure;
  attestation_variant = codes "azure-sev-snp";
  measurements = values;
}

abbrev on_gcp : Entry
on_gcp = record { csp = gcp; attestation_variant = codes "gcp-sev-es"; measurements = [] }

merge_example :
    ((is_ok (merge (document on_gcp ∷ document on_azure ∷ [])) ≡ true)
      ↔ All (IsSameImage (document on_gcp)) (document on_azure ∷ []))
    × ((out : ImageMeasurements)
        → merge (document on_gcp ∷ document on_azure ∷ []) ≡ ok out
        → IsSameImage (document on_gcp) out
          × Perm out.list (entries (document on_gcp ∷ document on_azure ∷ []))
          × IsOrdered out.list)
merge_example = merge_iff (document on_gcp) (document on_azure) []

abbrev network : FetchLib
network = record {
  get_from_url =
      λ url. if bytes_eq url (codes "measurements.json") then ok (1 ∷ []) else ok (2 ∷ []);
  unmarshal = λ raw. ok (document on_azure);
  sha256_hex = λ raw. raw;
  new_cosign_verifier = λ key. ok tt;
  verify_signature = λ key raw signature.
      if bytes_eq key (codes "dev")
      then (if bytes_eq signature (2 ∷ []) then ok tt else err [])
      else err [];
  search_by_hash = λ hash. ok (hash ∷ []);
  verify_entry = λ uuid key. if bytes_eq key (codes "dev") then ok tt else err [];
  base64 = λ key. key;
  join_path =
      λ base parts. elim parts [ [] ↦ err [] | p ∷ ps ↦ elim ps [ [] ↦ ok p | q ∷ qs ↦ ok q ] ];
  parse_url = λ path. ok path;
  release_key = codes "release";
  dev_key = codes "dev";
}

abbrev path : Bytes
path = codes "ref/feat-x/stream/nightly/v1.2.3"

fetched :
    fetch_and_verify_measurements one_version network path azure (some azure_sev_snp) false
    ≡ ok values
unfolding fetch_and_verify_measurements new_version_from_short_path VersionsApi.checked
    VersionsApi.validate VersionsApi.validate_ref VersionsApi.validate_stream bytes_eq
    cosign_public_key_for_version measurement_url
fetched = refl

fetch_example :
    (version : Version) × (key url signature_url : Bytes) × (ms : ImageMeasurements)
    × (new_version_from_short_path one_version path image ≡ ok version)
    × IsKeyFor one_version network version key
    × (measurement_url network version ≡ ok (url, signature_url))
    × IsTrusted one_version network key url signature_url ms
    × IsFor one_version network version azure (some azure_sev_snp) ms values
fetch_example = fetched-IsTrusted one_version network path azure (some azure_sev_snp) values fetched
