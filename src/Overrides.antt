-- ===== src/Overrides.antt =====
-- constellation/attestation/measurements/overrides.go: the values and options that are set for a
-- provider or a variant.
pub mod Applied
pub mod Mandatory
use geth_sev.Prelude.{
  ℕ, Bytes, codes, bytes_eq, Map, lookup, insert, Option, none, some, List, [], ◌∷◌, ◌++◌, Result,
  ok, err, ◌>>=◌, if◌then◌else◌,
}
use geth_sev.CloudProvider.{Provider, unknown, aws, azure, gcp, openstack, qemu}
use geth_sev.Measurements.{M, Measurement, ValidationOption, enforce, warn_only, copy, at}

-- `measurementOverride`
pub record Override : Type 0 where
  pub must_enforce : List ℕ
  pub must_warn : List ℕ
  pub value_overrides : List (ℕ × Bytes)

pub data OverrideError : Type 0 where
  missing_measurement : ℕ → OverrideError

abbrev zeros : Bytes
zeros =
    0 ∷ 0 ∷ 0 ∷ 0 ∷ 0 ∷ 0 ∷ 0 ∷ 0 ∷ 0 ∷ 0 ∷ 0 ∷ 0 ∷ 0 ∷ 0 ∷ 0 ∷ 0 ∷ 0 ∷ 0 ∷ 0 ∷ 0 ∷ 0 ∷ 0 ∷ 0 ∷ 0
    ∷ 0 ∷ 0 ∷ 0 ∷ 0 ∷ 0 ∷ 0 ∷ 0 ∷ 0 ∷ []

abbrev boot_3d45 : Bytes
boot_3d45 =
    0x3d ∷ 0x45 ∷ 0x8c ∷ 0xfe ∷ 0x55 ∷ 0xcc ∷ 0x03 ∷ 0xea ∷ 0x1f ∷ 0x44 ∷ 0x3f ∷ 0x15 ∷ 0x62 ∷ 0xbe
    ∷ 0xec ∷ 0x8d ∷ 0xf5 ∷ 0x1c ∷ 0x75 ∷ 0xe1 ∷ 0x4a ∷ 0x9f ∷ 0xcf ∷ 0x9a ∷ 0x72 ∷ 0x34 ∷ 0xa1
    ∷ 0x3f ∷ 0x19 ∷ 0x8e ∷ 0x79 ∷ 0x69 ∷ []

abbrev boot_3695 : Bytes
boot_3695 =
    0x36 ∷ 0x95 ∷ 0xdc ∷ 0xc5 ∷ 0x5e ∷ 0x3a ∷ 0xa3 ∷ 0x40 ∷ 0x27 ∷ 0xc2 ∷ 0x77 ∷ 0x93 ∷ 0xc8 ∷ 0x5c
    ∷ 0x72 ∷ 0x3c ∷ 0x69 ∷ 0x7d ∷ 0x70 ∷ 0x8c ∷ 0x42 ∷ 0xd1 ∷ 0xf7 ∷ 0x3b ∷ 0xd6 ∷ 0xfa ∷ 0x4f
    ∷ 0x26 ∷ 0x60 ∷ 0x8a ∷ 0x5b ∷ 0x24 ∷ []

abbrev boot_737f : Bytes
boot_737f =
    0x73 ∷ 0x7f ∷ 0x76 ∷ 0x7a ∷ 0x12 ∷ 0xf5 ∷ 0x4e ∷ 0x70 ∷ 0xee ∷ 0xcb ∷ 0xc8 ∷ 0x68 ∷ 0x40 ∷ 0x11
    ∷ 0x32 ∷ 0x3a ∷ 0xe2 ∷ 0xfe ∷ 0x2d ∷ 0xd9 ∷ 0xf9 ∷ 0x07 ∷ 0x85 ∷ 0x57 ∷ 0x79 ∷ 0x69 ∷ 0xd7
    ∷ 0xa2 ∷ 0x01 ∷ 0x3e ∷ 0x8c ∷ 0x12 ∷ []

abbrev boot_7b06 : Bytes
boot_7b06 =
    0x7b ∷ 0x06 ∷ 0x8c ∷ 0x0c ∷ 0x3a ∷ 0xc2 ∷ 0x9a ∷ 0xfe ∷ 0x26 ∷ 0x41 ∷ 0x34 ∷ 0x53 ∷ 0x6b ∷ 0x9b
    ∷ 0xe2 ∷ 0x6f ∷ 0x1d ∷ 0x4c ∷ 0xcd ∷ 0x57 ∷ 0x5b ∷ 0x88 ∷ 0xd3 ∷ 0xc3 ∷ 0xce ∷ 0xab ∷ 0xf3
    ∷ 0x6a ∷ 0xc9 ∷ 0x9c ∷ 0x02 ∷ 0x78 ∷ []

abbrev aws_override : Override
aws_override = record {
  must_enforce = 4 ∷ 8 ∷ 9 ∷ 11 ∷ 12 ∷ 13 ∷ 15 ∷ [];
  must_warn = 0 ∷ 2 ∷ 3 ∷ 6 ∷ 14 ∷ [];
  value_overrides = (2, boot_3d45) ∷ (3, boot_3d45) ∷ (6, boot_3d45) ∷ (14, zeros) ∷ [];
}

abbrev azure_override : Override
azure_override = record {
  must_enforce = 4 ∷ 8 ∷ 9 ∷ 11 ∷ 12 ∷ 13 ∷ 15 ∷ [];
  must_warn = 1 ∷ 2 ∷ 3 ∷ 14 ∷ [];
  value_overrides = (1, boot_3d45) ∷ (2, boot_3d45) ∷ (3, boot_3d45) ∷ (14, zeros) ∷ [];
}

abbrev gcp_override : Override
gcp_override = record {
  must_enforce = 4 ∷ 8 ∷ 9 ∷ 11 ∷ 12 ∷ 13 ∷ 15 ∷ [];
  must_warn = 1 ∷ 2 ∷ 3 ∷ 6 ∷ 14 ∷ [];
  value_overrides =
      (1, boot_3695) ∷ (2, boot_3d45) ∷ (3, boot_3d45) ∷ (6, boot_3d45) ∷ (14, zeros) ∷ [];
}

abbrev openstack_override : Override
openstack_override = record {
  must_enforce = 4 ∷ 8 ∷ 9 ∷ 11 ∷ 12 ∷ 13 ∷ 15 ∷ [];
  must_warn = 14 ∷ [];
  value_overrides = (14, zeros) ∷ [];
}

abbrev aws_nitro_tpm_override : Override
aws_nitro_tpm_override = record {
  must_enforce = [];
  must_warn = [];
  value_overrides = (0, boot_737f) ∷ [];
}

abbrev aws_sev_snp_override : Override
aws_sev_snp_override = record {
  must_enforce = [];
  must_warn = [];
  value_overrides = (0, boot_7b06) ∷ [];
}

-- `measurementOverridesForCSP`, by the provider instead of its name
unfoldable pub for_csp : Provider → List Override
for_csp aws = aws_override ∷ []
for_csp azure = azure_override ∷ []
for_csp gcp = gcp_override ∷ []
for_csp openstack = openstack_override ∷ []
for_csp qemu = []
for_csp unknown = []

-- `measurementOverridesForAttestationVariant`
unfoldable pub for_variant : Bytes → List Override
unfolding bytes_eq
for_variant v =
    if bytes_eq v (codes "aws-nitro-tpm")
    then aws_nitro_tpm_override ∷ []
    else if bytes_eq v (codes "aws-sev-snp")
    then aws_sev_snp_override ∷ []
    else []

-- The loop over the values
set_values : List (ℕ × Bytes) → M → M
unfolding at
set_values [] out = out
set_values ((i, v) ∷ values) out =
    set_values values
      (insert i (record { expected = v; validation_opt = (at i out).validation_opt }) out)

-- The loops over the options
set_options : ValidationOption → List ℕ → M → Result OverrideError M
set_options opt [] out = ok out
set_options opt (i ∷ is) out = elim (lookup i out) [
  | none ↦ err (missing_measurement i)
  | some m ↦
      set_options opt is (insert i (record { expected = m.expected; validation_opt = opt }) out)
]

unfoldable pub apply_override : Override → M → Result OverrideError M
unfolding set_values set_options
apply_override o out = do
  enforced ← set_options enforce o.must_enforce (set_values o.value_overrides out)
  set_options warn_only o.must_warn enforced

apply_all : List Override → M → Result OverrideError M
unfolding apply_override
apply_all [] out = ok out
apply_all (o ∷ os) out = do next ← apply_override o out; apply_all os next

-- `ApplyOverrides`
unfoldable pub apply_overrides : M → Provider → Bytes → Result OverrideError M
unfolding apply_all copy for_csp for_variant
apply_overrides m csp attestation_variant =
    apply_all (for_variant attestation_variant ++ for_csp csp) (copy m)
