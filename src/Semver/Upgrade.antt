-- ===== src/Semver/Upgrade.antt =====
-- constellation/semver/semver.go and constellation/compatibility/compatibility.go: both decide the
-- same upgrades.
use geth_sev.Prelude.{
  ℕ, ◌-◌, ◌≤◌, ◌≡◌, refl, ◌↔◌, Bytes, [], ◌∷◌, true, ok, arith, subst, sym, has_prefix,
}
use Prim.Native.Nat.{Ordering}
use geth_sev.Semantic.{SemverLib}
use geth_sev.Compatibility.{Scan, is_valid_upgrade, ensure_prefix_v}
use geth_sev.Compatibility.Upgrades.{IsOrder, Upgrade, is_valid_upgrade_iff}
use geth_sev.Semver.{Semver, NumberLib, string, text_of, compare_semver, is_upgrade_to}

-- The versions are compared from either side, and the text of a version scans as its own numbers.
pub record IsScan (lib : SemverLib) (scan : Scan) (num : NumberLib) : Type 0 where
  pub flip : (v w : Bytes) → (lib.compare v w ≡ Ordering.gt) ↔ (lib.compare w v ≡ Ordering.lt)
  pub scan_string :
      (v : Semver)
      → lib.is_valid (string num v) ≡ true
      → scan (lib.major_minor (string num v)) ≡ ok (v.major, v.minor)

module _ (lib : SemverLib) (scan : Scan) (num : NumberLib) (order : IsOrder lib scan)
    (laws : IsScan lib scan num) where
  ensure_prefix_v-text_of :
      (a b c : ℕ) (p : Bytes) → ensure_prefix_v (text_of num a b c p) ≡ text_of num a b c p
  unfolding text_of ensure_prefix_v has_prefix
  ensure_prefix_v-text_of a b c [] = refl
  ensure_prefix_v-text_of a b c (p ∷ re) = refl

  ensure_prefix_v-string : (v : Semver) → ensure_prefix_v (string num v) ≡ string num v
  unfolding string
  ensure_prefix_v-string v = ensure_prefix_v-text_of v.major v.minor v.patch v.prerelease

  is_upgrade_to-Upgrade :
      (v other : Semver)
      → lib.is_valid (string num v) ≡ true
      → lib.is_valid (string num other) ≡ true
      → is_upgrade_to lib num v other ≡ ok tt
      → Upgrade lib scan order (string num other) (string num v)
  unfolding is_upgrade_to compare_semver
  is_upgrade_to-Upgrade v other vv vo h =
      let newer : lib.compare (string num v) (string num other) ≡ Ordering.gt = ground (arith, h) in
      let same : v.major ≡ other.major = ground (arith, h) in
      let near : v.minor - other.minor ≤ 1 = ground (arith, h) in
      let sv = laws.scan_string v vv in
      let so : scan (lib.major_minor (string num other)) ≡ ok (v.major, other.minor) =
        subst (λ k. scan (lib.major_minor (string num other)) ≡ ok (k, other.minor)) (sym same)
          (laws.scan_string other vo) in
      let less = (laws.flip (string num v) (string num other)).0 newer in
      let grows =
        order.less_minor (string num other) (string num v) v.major other.minor v.minor vo vv so sv
          less in
      (other.minor, v.minor, (vo, vv, (v.major, so, sv)), less, omega (arith, near, grows))

  Upgrade-is_upgrade_to :
      (v other : Semver)
      → Upgrade lib scan order (string num other) (string num v)
      → is_upgrade_to lib num v other ≡ ok tt
  unfolding is_upgrade_to compare_semver
  Upgrade-is_upgrade_to v other (m, n, (vo, vv, (major, so, sv)), less, drift) = ground (
    arith,
    drift,
    (laws.flip (string num v) (string num other)).1 less,
    so,
    sv,
    laws.scan_string v vv,
    laws.scan_string other vo,
  )

  -- Under the laws of comparison and scanning, for two versions whose texts are valid: `IsUpgradeTo`
  -- returns no error exactly if `IsValidUpgrade` returns none for the texts.
  pub is_upgrade_to_iff :
      (v other : Semver)
      → lib.is_valid (string num v) ≡ true
      → lib.is_valid (string num other) ≡ true
      → (is_upgrade_to lib num v other ≡ ok tt)
        ↔ (is_valid_upgrade lib scan (string num other) (string num v) ≡ ok tt)
  is_upgrade_to_iff v other vv vo =
      let valid = is_valid_upgrade_iff lib scan order (string num other) (string num v) in
      (
        λ h. valid.1 (
            rw (ensure_prefix_v-string v, ensure_prefix_v-string other)
              (is_upgrade_to-Upgrade v other vv vo h)),
        λ h. Upgrade-is_upgrade_to v other (
            subst (λ x. Upgrade lib scan order x (string num v)) (ensure_prefix_v-string other)
              (subst (λ x. Upgrade lib scan order (ensure_prefix_v (string num other)) x)
                (ensure_prefix_v-string v) (valid.0 h))),
      )
