-- ===== src/Tests/ExtraData.antt =====
-- Extra data.
use geth_sev.Prelude.{ℕ, ◌≡◌, ◌↔◌, true, [], ◌∷◌}
use geth_sev.Attestation.{compare_extra_data}
use geth_sev.Attestation.ExtraData.{byte_at, compare_extra_data_iff}

extra_data_example :
    (compare_extra_data (1 ∷ 2 ∷ 0 ∷ []) (1 ∷ 2 ∷ []) ≡ true)
    ↔ ((i : ℕ) → byte_at (1 ∷ 2 ∷ 0 ∷ []) i ≡ byte_at (1 ∷ 2 ∷ []) i)
extra_data_example = compare_extra_data_iff (1 ∷ 2 ∷ 0 ∷ []) (1 ∷ 2 ∷ [])
