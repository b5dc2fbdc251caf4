-- ===== src/Attestation.antt =====
-- constellation/attestation/attestation.go: the extra data that binds user data to a nonce.
pub mod ExtraData
use geth_sev.Prelude.{
  ℕ, zero, suc, ◌-◌, ◌==◌, ltb, Bytes, bytes_eq, length, Bool, not, List, [], ◌∷◌, ◌++◌,
  if◌then◌else◌,
}

-- `MakeExtraData`, with `sha256.Sum256`
unfoldable pub make_extra_data : (Bytes → Bytes) → Bytes → Bytes → Bytes
make_extra_data sha256 user_data nonce = sha256 (user_data ++ nonce)

-- `bytes.Repeat([]byte{0x00}, n)`
zeros : ℕ → Bytes
zeros zero = []
zeros (suc n) = 0 ∷ zeros n

-- `CompareExtraData`
unfoldable pub compare_extra_data : Bytes → Bytes → Bool
unfolding bytes_eq zeros
compare_extra_data quote_data expected_data =
    if not (length quote_data == length expected_data)
    then if ltb (length quote_data) (length expected_data)
      then bytes_eq (quote_data ++ zeros (length expected_data - length quote_data)) expected_data
      else bytes_eq quote_data (expected_data ++ zeros (length quote_data - length expected_data))
    else bytes_eq quote_data expected_data
