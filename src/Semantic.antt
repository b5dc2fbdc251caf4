-- ===== src/Semantic.antt =====
-- golang.org/x/mod/semver, which is not part of the repository: its functions are parameters, and
-- what the code relies on of their documentation are the laws below.
use geth_sev.Prelude.{ℕ, ◌≡◌, Bytes, leb, ◌==◌, Bool, true, ◌&&◌, ◌||◌, ◌∷◌, All}
use Prim.Native.Nat.{Ordering}

-- Versions are texts with a leading `v`; an invalid version is less than a valid one.
pub record SemverLib : Type 0 where
  pub is_valid : Bytes → Bool
  pub canonical : Bytes → Bytes
  pub major : Bytes → Bytes
  pub major_minor : Bytes → Bytes
  pub compare : Bytes → Bytes → Ordering

abbrev pub is_alnum_or_dash : ℕ → Bool
is_alnum_or_dash c =
    leb b'a' c && leb c b'z' || leb b'A' c && leb c b'Z' || leb b'0' c && leb c b'9' || c == b'-'

abbrev pub is_version_char : ℕ → Bool
is_version_char c = is_alnum_or_dash c || c == b'.'

-- A valid version begins with `v`; without build metadata, which the canonical form drops, it has
-- letters, digits, dashes and dots only.
pub record IsSemver (lib : SemverLib) : Type 0 where
  pub valid_prefix : (v : Bytes) → lib.is_valid v ≡ true → (rest : Bytes) × (v ≡ b'v' ∷ rest)
  pub canonical_chars :
      (v : Bytes)
      → lib.is_valid v ≡ true
      → lib.canonical v ≡ v
      → All (λ c. is_version_char c ≡ true) v
