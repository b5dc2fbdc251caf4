-- ===== src/Compatibility.antt =====
-- constellation/compatibility/compatibility.go and the comparisons of constellation/semver/semver.go:
-- which versions may be upgraded to which. golang.org/x/mod/semver is the parameter of
-- Semantic.antt, and the scanning of numbers by `fmt.Sscanf` is one more.
pub mod Upgrades
pub mod Newer
use geth_sev.Prelude.{
  ℕ, ◌-◌, ◌+◌, Bytes, codes, bytes_eq, has_prefix, ltb, ◌==◌, List, [], ◌∷◌, Bool, true, false, not,
  ◌&&◌, ◌||◌, Result, ok, err, map_err, ◌>>=◌, ◌>>◌, concat, if◌then◌else◌,
}
use Prim.Native.Nat.{Ordering}
use geth_sev.Semantic.{SemverLib}

pub data InnerError : Type 0 where
  major_mismatch minor_drift sem_ver outdated_cli not_newer : InnerError
  invalid_semver scanning : Bytes → InnerError

-- `InvalidUpgradeError`
pub record InvalidUpgrade : Type 0 where
  pub from : Bytes
  pub to : Bytes
  pub inner_err : InnerError

-- `EnsurePrefixV`
unfoldable pub ensure_prefix_v : Bytes → Bytes
unfolding has_prefix
ensure_prefix_v s = if has_prefix s (codes "v") then s else b'v' ∷ s

abbrev is_less : Ordering → Bool
is_less o = elim o [ Ordering.lt ↦ true | _ ↦ false ]

abbrev is_greater : Ordering → Bool
is_greater o = elim o [ Ordering.gt ↦ true | _ ↦ false ]

-- `Sscanf` of a text such as v1.2
abbrev pub Scan : Type 0
Scan = Bytes → Result Bytes (ℕ × ℕ)

module _ (lib : SemverLib) (scan : Scan) where
  -- `parseCanonicalSemver`
  unfoldable pub parse_canonical_semver : Bytes → Result InnerError (ℕ × ℕ)
  unfolding bytes_eq
  parse_canonical_semver version =
      if bytes_eq (lib.major_minor version) []
      then err (invalid_semver (lib.major_minor version))
      else map_err scanning (scan (lib.major_minor version))

  -- What `IsValidUpgrade` asks of two versions that begin with v.
  check_upgrade : Bytes → Bytes → Result InnerError (Unit {0})
  unfolding parse_canonical_semver
  check_upgrade a b =
      if not (lib.is_valid a) || not (lib.is_valid b)
      then err sem_ver
      else if not (is_less (lib.compare a b))
      then err not_newer
      else drift
    where
      drift : Result InnerError (Unit {0})
      drift = do
        x ← parse_canonical_semver a
        y ← parse_canonical_semver b
        if not (x.0 == y.0)
            then err major_mismatch
            else if ltb 1 (y.1 - x.1)
            then err minor_drift
            else ok tt

  -- `IsValidUpgrade`
  unfoldable pub is_valid_upgrade : Bytes → Bytes → Result InvalidUpgrade (Unit {0})
  unfolding ensure_prefix_v check_upgrade
  is_valid_upgrade a b =
      map_err (λ e. record { from = ensure_prefix_v a; to = ensure_prefix_v b; inner_err = e })
        (check_upgrade (ensure_prefix_v a) (ensure_prefix_v b))

  check_binary : Bytes → Bytes → Result InnerError (Unit {0})
  unfolding parse_canonical_semver
  check_binary binary target =
      if not (lib.is_valid binary) || not (lib.is_valid target) then err sem_ver else drift
    where
      drift : Result InnerError (Unit {0})
      drift = do
        x ← parse_canonical_semver binary
        y ← parse_canonical_semver target
        if not (x.0 == y.0)
            then err major_mismatch
            else if is_less (lib.compare (lib.major_minor binary) (lib.major_minor target))
            then err outdated_cli
            else if ltb 1 (x.1 - y.1)
            then err minor_drift
            else ok tt

  -- `BinaryWith`
  unfoldable pub binary_with : Bytes → Bytes → Result InnerError (Unit {0})
  unfolding ensure_prefix_v check_binary
  binary_with binary_version target =
      check_binary (ensure_prefix_v binary_version) (ensure_prefix_v target)

-- `FilterNewerVersion`
unfoldable pub filter_newer_version : SemverLib → Bytes → List Bytes → List Bytes
unfolding ensure_prefix_v
filter_newer_version lib current [] = []
filter_newer_version lib current (image ∷ images) =
    let rest : List Bytes = filter_newer_version lib current images in
    if not (is_greater (lib.compare (ensure_prefix_v image) (ensure_prefix_v current)))
    then rest
    else ensure_prefix_v image ∷ rest

-- `NextMinorVersion`, at the printing of numbers
unfoldable pub next_minor_version : SemverLib → Scan → (ℕ → Bytes) → Bytes → Result InnerError Bytes
unfolding parse_canonical_semver ensure_prefix_v
next_minor_version lib scan print version = do
  x ← parse_canonical_semver lib scan (ensure_prefix_v version)
  ok (concat (codes "v" ∷ print x.0 ∷ codes "." ∷ print (x.1 + 1) ∷ []))
