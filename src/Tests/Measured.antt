-- ===== src/Tests/Measured.antt =====
-- Measurements of two indices, and their documents.
use geth_sev.Prelude.{
  ℕ, ◌≡◌, ◌↔◌, ◌⊎◌, refl, inl, Bytes, true, Option, none, some, List, [], ◌∷◌, IsMap, has, lookup,
  insert, Result, ok, err, arith,
}
use geth_sev.Hex.{encode_to_string, decode_string}
use geth_sev.Measurements.{
  M, Measurement, enforce, warn_only, reported, equal_to, compare, set_enforced, check_length,
  with_all_bytes,
}
use geth_sev.Measurements.Comparing.{compare_passes_iff}
use geth_sev.Measurements.Encoding.{
  Document, IsDigest, unmarshal_document, marshal, unmarshal_m, unmarshal-marshal,
}
use geth_sev.Measurements.Yaml.{zero_measurement, unmarshal_m_yaml, HasLengthOrNull, readers_bounds}
use geth_sev.Measurements.Enforced.{set_enforced-error_iff, first_missing}
use geth_sev.Measurements.Equality.{HasValues, equal_to_iff}
use geth_sev.Measurements.Lengths.{HasLength}

abbrev digest : Measurement
digest = with_all_bytes 0xab enforce 32

abbrev two : M
two = (4, digest) ∷ (9, record { expected = 7 ∷ []; validation_opt = warn_only }) ∷ []

abbrev swapped : M
swapped = (9, record { expected = 7 ∷ []; validation_opt = warn_only }) ∷ (4, digest) ∷ []

two-IsMap : IsMap two
two-IsMap = (unfold has in refl, (unfold has in refl, tt))

swapped-IsMap : IsMap swapped
swapped-IsMap = (unfold has in refl, (unfold has in refl, tt))

two_values : HasValues two
unfolding with_all_bytes
two_values = ((λ h. cc), ((λ h. cc), tt))

passes_example : ((compare two []).1 ≡ []) ↔ (
    (k : ℕ) (v : Measurement)
    → lookup k two ≡ some v
    → v.validation_opt ≡ enforce
    → v.expected ≡ reported k [])
passes_example = compare_passes_iff two []

lookup-swapped : (k : ℕ) → lookup k two ≡ lookup k swapped
unfolding lookup
lookup-swapped k = ground arith

equal_to_example : (equal_to two swapped ≡ true) ↔ ((k : ℕ) → lookup k two ≡ lookup k swapped)
equal_to_example = equal_to_iff two swapped two-IsMap swapped-IsMap two_values

abbrev nine : ℕ
nine = 9

abbrev nine_enforced : M
nine_enforced =
    (4, record { expected = digest.expected; validation_opt = warn_only })
    ∷ (9, record { expected = 7 ∷ []; validation_opt = enforce })
    ∷ []

set_nine : set_enforced two (9 ∷ []) ≡ ok nine_enforced
unfolding set_enforced lookup insert
set_nine = refl

set_enforced_example :
    (set_enforced two (9 ∷ 5 ∷ []) ≡ err 5) ↔ (first_missing (9 ∷ 5 ∷ []) two ≡ some 5)
set_enforced_example = set_enforced-error_iff two (9 ∷ 5 ∷ []) 5

abbrev refused : Result Bytes Bytes
refused = err []

digest_ok : IsDigest digest
unfolding with_all_bytes
digest_ok = (ground arith, inl refl)

unmarshal_example :
    unmarshal_document (record { as_object = ok (marshal digest); as_string = refused }) ≡ ok digest
unmarshal_example = unmarshal-marshal digest refused digest_ok

abbrev entries : List (ℕ × Document Bytes)
entries = (4, record { as_object = ok (marshal digest); as_string = refused }) ∷ []

entries_read : unmarshal_m (ok entries) ≡ ok ((4, digest) ∷ [])
unfolding unmarshal_m unmarshal_document marshal encode_to_string decode_string with_all_bytes
    check_length insert
entries_read = refl

-- An entry that is null stands before the digest.
abbrev yaml_entries : List (ℕ × Option (Document Bytes))
yaml_entries =
    (9, none) ∷ (4, some (record { as_object = ok (marshal digest); as_string = refused })) ∷ []

abbrev from_yaml : M
from_yaml = (9, zero_measurement) ∷ (4, digest) ∷ []

yaml_entries_read : unmarshal_m_yaml (ok yaml_entries) ≡ ok from_yaml
unfolding unmarshal_m_yaml unmarshal_document marshal encode_to_string decode_string with_all_bytes
    check_length insert
yaml_entries_read = refl

readers_example :
    (IsMap ((4, digest) ∷ []) × (HasLength 32 ((4, digest) ∷ []) ⊎ HasLength 48 ((4, digest) ∷ [])))
    × (IsMap from_yaml
        × (HasLengthOrNull 32 yaml_entries from_yaml ⊎ HasLengthOrNull 48 yaml_entries from_yaml))
readers_example =
    readers_bounds (ok entries) yaml_entries ((4, digest) ∷ []) from_yaml entries_read
      yaml_entries_read
