-- ===== src/Compatibility/Upgrades.antt =====
-- constellation/compatibility/compatibility.go: which upgrades are valid, and which versions a binary
-- works with.
use geth_sev.Prelude.{
  ℕ, ◌-◌, ◌+◌, ◌≤◌, ◌≡◌, ◌≢◌, ◌↔◌, ◌⊎◌, inl, inr, Bytes, bytes_eq_iff, [], true, ok, map_err, arith,
  Result-cases, subst, ap, map_err-ok,
}
use Prim.Native.Nat.{Ordering, compare}
use geth_sev.Semantic.{SemverLib}
use geth_sev.Compatibility.{
  Scan, parse_canonical_semver, check_upgrade, is_valid_upgrade, check_binary, binary_with,
  ensure_prefix_v,
}

-- What the comparison of versions says of their numbers: of valid versions the smaller one has no
-- larger major version, nor, within the same one, a larger minor version; and without the rest the
-- versions of the same major version compare by their minor versions. A valid version has the part
-- that is scanned.
pub record IsOrder (lib : SemverLib) (scan : Scan) : Type 0 where
  pub has_major_minor : (v : Bytes) → lib.is_valid v ≡ true → lib.major_minor v ≢ []
  pub less_minor :
      (v w : Bytes) (major m n : ℕ)
      → lib.is_valid v ≡ true
      → lib.is_valid w ≡ true
      → scan (lib.major_minor v) ≡ ok (major, m)
      → scan (lib.major_minor w) ≡ ok (major, n)
      → lib.compare v w ≡ Ordering.lt
      → m ≤ n
  pub compare_minor :
      (v w : Bytes) (major m n : ℕ)
      → lib.is_valid v ≡ true
      → lib.is_valid w ≡ true
      → scan (lib.major_minor v) ≡ ok (major, m)
      → scan (lib.major_minor w) ≡ ok (major, n)
      → lib.compare (lib.major_minor v) (lib.major_minor w) ≡ compare m n

-- Two valid versions whose numbers can be scanned, of the same major version.
abbrev pub HasMinors : SemverLib → Scan → Bytes → Bytes → ℕ → ℕ → Type 0
HasMinors lib scan a b m n =
    (lib.is_valid a ≡ true)
    × (lib.is_valid b ≡ true)
    × ((major : ℕ) × (scan (lib.major_minor a) ≡ ok (major, m))
        × (scan (lib.major_minor b) ≡ ok (major, n)))

module _ (lib : SemverLib) (scan : Scan) (order : IsOrder lib scan) where
  parse_iff :
      (v : Bytes) (x : ℕ × ℕ)
      → lib.is_valid v ≡ true
      → (parse_canonical_semver lib scan v ≡ ok x) ↔ (scan (lib.major_minor v) ≡ ok x)
  unfolding parse_canonical_semver
  parse_iff v x valid = elim (Result-cases (scan (lib.major_minor v))) [
    | inl s ↦
        ground (arith, s.1, order.has_major_minor v valid, bytes_eq_iff (lib.major_minor v) [])
    | inr f ↦
        ground (arith, f.1, order.has_major_minor v valid, bytes_eq_iff (lib.major_minor v) [])
  ]

  -- The minor versions of a valid upgrade.
  abbrev pub Upgrade : Bytes → Bytes → Type 0
  Upgrade a b =
      (m n : ℕ) × HasMinors lib scan a b m n
      × (lib.compare a b ≡ Ordering.lt)
      × ((n ≡ m) ⊎ (n ≡ m + 1))

  check_upgrade-Upgrade : (a b : Bytes) → check_upgrade lib scan a b ≡ ok tt → Upgrade a b
  unfolding check_upgrade
  check_upgrade-Upgrade a b h =
      let va : lib.is_valid a ≡ true = ground (arith, h) in
      let vb : lib.is_valid b ≡ true = ground (arith, h) in
      elim (Result-cases (parse_canonical_semver lib scan a)) [
        | inr f ↦ absurd (ground (arith, h, f.1))
        | inl x ↦ elim (Result-cases (parse_canonical_semver lib scan b)) [
          | inr f ↦ absurd (ground (arith, h, x.1, f.1))
          | inl y ↦
              let less : lib.compare a b ≡ Ordering.lt = ground (arith, h, x.1, y.1) in
              let same : x.0.0 ≡ y.0.0 = ground (arith, h, x.1, y.1) in
              let near : y.0.1 - x.0.1 ≤ 1 = ground (arith, h, x.1, y.1) in
              let sa : scan (lib.major_minor a) ≡ ok (y.0.0, x.0.1) =
                subst (λ k. scan (lib.major_minor a) ≡ ok (k, x.0.1)) same
                  ((parse_iff a x.0 va).0 x.1) in
              let sb : scan (lib.major_minor b) ≡ ok (y.0.0, y.0.1) = (parse_iff b y.0 vb).0 y.1 in
              let grows : x.0.1 ≤ y.0.1 = order.less_minor a b y.0.0 x.0.1 y.0.1 va vb sa sb less in
              (x.0.1, y.0.1, (va, vb, (y.0.0, sa, sb)), less, omega (arith, near, grows))
        ]
      ]

  Upgrade-check_upgrade : (a b : Bytes) → Upgrade a b → check_upgrade lib scan a b ≡ ok tt
  unfolding check_upgrade
  Upgrade-check_upgrade a b (m, n, (va, vb, (major, sa, sb)), less, drift) = ground (
    arith,
    va,
    vb,
    less,
    drift,
    (parse_iff a (major, m) va).1 sa,
    (parse_iff b (major, n) vb).1 sb,
  )

  -- The minor versions of a binary and of a version that it works with.
  abbrev pub WorksWith : Bytes → Bytes → Type 0
  WorksWith binary target =
      (m n : ℕ) × HasMinors lib scan binary target m n × ((m ≡ n) ⊎ (m ≡ n + 1))

  check_binary-WorksWith :
      (binary target : Bytes)
      → check_binary lib scan binary target ≡ ok tt
      → WorksWith binary target
  unfolding check_binary
  check_binary-WorksWith a b h =
      let va : lib.is_valid a ≡ true = ground (arith, h) in
      let vb : lib.is_valid b ≡ true = ground (arith, h) in
      elim (Result-cases (parse_canonical_semver lib scan a)) [
        | inr f ↦ absurd (ground (arith, h, f.1))
        | inl x ↦ elim (Result-cases (parse_canonical_semver lib scan b)) [
          | inr f ↦ absurd (ground (arith, h, x.1, f.1))
          | inl y ↦
              let same : x.0.0 ≡ y.0.0 = ground (arith, h, x.1, y.1) in
              let near : x.0.1 - y.0.1 ≤ 1 = ground (arith, h, x.1, y.1) in
              let sa : scan (lib.major_minor a) ≡ ok (y.0.0, x.0.1) =
                subst (λ k. scan (lib.major_minor a) ≡ ok (k, x.0.1)) same
                  ((parse_iff a x.0 va).0 x.1) in
              let sb : scan (lib.major_minor b) ≡ ok (y.0.0, y.0.1) = (parse_iff b y.0 vb).0 y.1 in
              let late : y.0.1 ≤ x.0.1 =
                ground
                  (arith, h, x.1, y.1, order.compare_minor a b y.0.0 x.0.1 y.0.1 va vb sa sb) in
              (x.0.1, y.0.1, (va, vb, (y.0.0, sa, sb)), omega (arith, near, late))
        ]
      ]

  WorksWith-check_binary :
      (binary target : Bytes)
      → WorksWith binary target
      → check_binary lib scan binary target ≡ ok tt
  unfolding check_binary
  WorksWith-check_binary a b (m, n, (va, vb, (major, sa, sb)), drift) = ground (
    arith,
    va,
    vb,
    drift,
    (parse_iff a (major, m) va).1 sa,
    (parse_iff b (major, n) vb).1 sb,
    order.compare_minor a b major m n va vb sa sb,
  )

  -- Under the laws of the comparison, for two versions with the letter v added in front where it is
  -- missing: `IsValidUpgrade` returns no error exactly if both are valid, their numbers can be
  -- scanned, the second is newer, the major versions are the same, and the minor version is the same
  -- or the next one.
  pub is_valid_upgrade_iff :
      (a b : Bytes)
      → (is_valid_upgrade lib scan a b ≡ ok tt) ↔ Upgrade (ensure_prefix_v a) (ensure_prefix_v b)
  unfolding is_valid_upgrade
  is_valid_upgrade_iff a b = (
    λ h. check_upgrade-Upgrade (ensure_prefix_v a) (ensure_prefix_v b) (map_err-ok _ _ tt h),
    λ u. ap (map_err _) (Upgrade-check_upgrade (ensure_prefix_v a) (ensure_prefix_v b) u),
  )

  -- Under the laws of the comparison, for two versions with the letter v added in front where it is
  -- missing: `BinaryWith` returns no error exactly if both are valid, their numbers can be scanned,
  -- the major versions are the same, and the binary has the minor version of the target or the next
  -- one. It therefore returns none for a binary of any version that is a valid upgrade of the target.
  pub binary_with_iff :
      (binary target : Bytes)
      → ((binary_with lib scan binary target ≡ ok tt)
          ↔ WorksWith (ensure_prefix_v binary) (ensure_prefix_v target))
        × (is_valid_upgrade lib scan target binary ≡ ok tt
            → binary_with lib scan binary target ≡ ok tt)
  unfolding binary_with
  binary_with_iff binary target = (
    (
      check_binary-WorksWith (ensure_prefix_v binary) (ensure_prefix_v target),
      WorksWith-check_binary (ensure_prefix_v binary) (ensure_prefix_v target),
    ),
    λ h.
        WorksWith-check_binary (ensure_prefix_v binary) (ensure_prefix_v target)
          (turned ((is_valid_upgrade_iff target binary).0 h)),
  )
    where
      turned :
          Upgrade (ensure_prefix_v target) (ensure_prefix_v binary)
          → WorksWith (ensure_prefix_v binary) (ensure_prefix_v target)
      turned (m, n, (va, vb, (major, sa, sb)), less, drift) =
          (n, m, (vb, va, (major, sb, sa)), drift)
