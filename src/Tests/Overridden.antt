-- ===== src/Tests/Overridden.antt =====
-- Overrides of the measurements of a GCP image; index 1 is still expected to be 9.
use geth_sev.Prelude.{
  ◌≡◌, refl, inl, Bytes, codes, lookup, insert, keys, some, [], ◌∷◌, ◌++◌, ok, err, Result,
}
use geth_sev.CloudProvider.{gcp}
use geth_sev.Measurements.{M, Measurement, enforce, warn_only}
use geth_sev.Overrides.{apply_overrides, for_csp, for_variant, OverrideError}
use geth_sev.Overrides.Applied.{overridden_all, lookup-apply_overrides}
use geth_sev.Overrides.Mandatory.{mandatory-enforced}

abbrev nine : Measurement
nine = record { expected = 9 ∷ []; validation_opt = warn_only }

abbrev image_measurements : M
image_measurements =
    (1, nine)
    ∷ (4, nine)
    ∷ (8, nine)
    ∷ (9, nine)
    ∷ (11, nine)
    ∷ (12, nine)
    ∷ (13, nine)
    ∷ (15, nine)
    ∷ []

-- The measurements of an override that succeeds.
abbrev outcome : Result OverrideError M → M
outcome (ok out) = out
outcome (err e) = []

abbrev gcp_variant : Bytes
gcp_variant = codes "gcp-sev-es"

abbrev gcp_measurements : M
gcp_measurements = outcome (apply_overrides image_measurements gcp gcp_variant)

applied : apply_overrides image_measurements gcp gcp_variant ≡ ok gcp_measurements
unfolding apply_overrides insert keys
applied = refl

abbrev nine_enforced : Measurement
nine_enforced = record { expected = 9 ∷ []; validation_opt = enforce }

lookup-four : lookup 4 gcp_measurements ≡ some nine_enforced
unfolding apply_overrides lookup insert keys
lookup-four = refl

mandatory_example : nine_enforced.validation_opt ≡ enforce
mandatory_example =
    mandatory-enforced image_measurements gcp_measurements gcp gcp_variant 4 nine_enforced tt
      (inl refl) applied lookup-four

overridden_example :
    lookup 1 gcp_measurements
    ≡ overridden_all 1 (for_variant gcp_variant ++ for_csp gcp) (lookup 1 image_measurements)
overridden_example =
    lookup-apply_overrides image_measurements gcp_measurements gcp gcp_variant 1 applied
