-- ===== src/Tests/Upgrades.antt =====
-- Upgrades, over a toy library of versions whose numbers are single characters and that compares only
-- the major and minor versions.
use Prim.Native.Nat.{Ordering, compare}
use geth_sev.Prelude.{
  ℕ, ◌+◌, ◌-◌, ◌≡◌, ◌≢◌, ◌↔◌, refl, ap, ap₂, ◌∙◌, sym, Bytes, codes, [], ◌∷◌, Option, none, some,
  Bool, true, false, Result, ok, err, arith, ok-injective, has_prefix, bytes_eq,
}
use geth_sev.Semantic.{SemverLib}
use geth_sev.Compatibility.{Scan, is_valid_upgrade, ensure_prefix_v}
use geth_sev.Compatibility.Upgrades.{IsOrder, Upgrade, is_valid_upgrade_iff}
use geth_sev.Semver.{Semver, NumberLib, string, new_slice, to_strings, is_upgrade_to}
use geth_sev.Semver.Text.{IsNumberLib, IsCanonical, new_slice-to_strings}
use geth_sev.Semver.Upgrade.{IsScan, is_upgrade_to_iff}

-- The two numbers of a text such as v1.2.
shape : Bytes → Option (ℕ × ℕ)
shape (v ∷ a ∷ dot ∷ b ∷ rest) = some (a - 100, b - 100)
shape _ = none

both : Option (ℕ × ℕ) → Option (ℕ × ℕ) → Ordering
both none y = Ordering.eq
both (some x) none = Ordering.eq
both (some x) (some y) = elim (compare x.0 y.0) [
  | Ordering.lt ↦ Ordering.lt
  | Ordering.gt ↦ Ordering.gt
  | Ordering.eq ↦ compare x.1 y.1
]

abbrev is_some : Option (ℕ × ℕ) → Bool
is_some none = false
is_some (some x) = true

pub toy_versions : SemverLib
unfolding shape both
toy_versions = record {
  is_valid = λ v. is_some (shape v);
  canonical = λ v. v;
  major = λ v. v;
  major_minor = λ v. v;
  compare = λ v w. both (shape v) (shape w);
}

scanned : Option (ℕ × ℕ) → Result Bytes (ℕ × ℕ)
scanned none = err []
scanned (some x) = ok x

toy_scan : Scan
unfolding shape scanned
toy_scan s = scanned (shape s)

shape-nil : shape [] ≡ none
unfolding shape
shape-nil = refl

scanned-ok : (o : Option (ℕ × ℕ)) (x : ℕ × ℕ) → scanned o ≡ ok x → o ≡ some x
unfolding scanned
scanned-ok none x h = cc
scanned-ok (some y) x h = ap some (ok-injective _ _ h)

both-less : (k m n : ℕ) → both (some (k, m)) (some (k, n)) ≡ compare m n
unfolding both
both-less k m n = ground arith

both-flip : (x y : Option (ℕ × ℕ)) → (both x y ≡ Ordering.gt) ↔ (both y x ≡ Ordering.lt)
unfolding both
both-flip none none = (λ h. cc, λ h. cc)
both-flip none (some y) = (λ h. cc, λ h. cc)
both-flip (some x) none = (λ h. cc, λ h. cc)
both-flip (some x) (some y) = ground arith

same_major :
    (v w : Bytes) (major m n : ℕ)
    → toy_scan v ≡ ok (major, m)
    → toy_scan w ≡ ok (major, n)
    → both (shape v) (shape w) ≡ compare m n
unfolding toy_scan
same_major v w major m n e f =
    ap₂ both (scanned-ok (shape v) (major, m) e) (scanned-ok (shape w) (major, n) f)
    ∙ both-less major m n

toy_order : IsOrder toy_versions toy_scan
unfolding toy_versions
toy_order = record {
  has_major_minor =
      λ v valid e. true≢false (sym valid ∙ ap (λ s. is_some (shape s)) e ∙ ap is_some shape-nil);
  less_minor = λ v w major m n vv vw e f less. ground (arith, less, same_major v w major m n e f);
  compare_minor = λ v w major m n vv vw e f. same_major v w major m n e f;
}
  where
    true≢false : true ≢ false
    true≢false e = cc

toy_numbers : NumberLib
toy_numbers = record { print = λ n. (n + 100) ∷ []; scan_parts = parts }
  where
    parts : Bytes → Result Bytes (ℕ × ℕ × ℕ)
    parts (v ∷ a ∷ p ∷ b ∷ q ∷ c ∷ rest) = ok (a - 100, b - 100, c - 100)
    parts _ = err []

plus_minus : (n : ℕ) → n + 100 - 100 ≡ n
plus_minus n = omega arith

toy_numbers-laws : IsNumberLib toy_numbers
unfolding toy_numbers
toy_numbers-laws = record {
  print_dashes = λ n. (ground arith, tt);
  scan_printed = λ a b c. rw (plus_minus a, plus_minus b, plus_minus c) refl;
  scan_prerelease = λ a b c rest. rw (plus_minus a, plus_minus b, plus_minus c) refl;
}

scan-text :
    (a b c : ℕ) (p : Bytes)
    → shape (string toy_numbers (record { major = a; minor = b; patch = c; prerelease = p }))
      ≡ some (a, b)
unfolding shape string toy_numbers
scan-text a b c [] = rw (plus_minus a, plus_minus b) refl
scan-text a b c (x ∷ p) = rw (plus_minus a, plus_minus b) refl

toy_laws : IsScan toy_versions toy_scan toy_numbers
unfolding toy_versions toy_scan
toy_laws = record {
  flip = λ v w. both-flip (shape v) (shape w);
  scan_string = λ v h.
      ap scanned (scan-text v.major v.minor v.patch v.prerelease) ∙ scanned_some (v.major, v.minor);
}
  where
    scanned_some : (x : ℕ × ℕ) → scanned (some x) ≡ ok x
    scanned_some x = refl

-- Versions 1.2 and 1.3, the latter without its first letter.
abbrev older : Bytes
older = b'v' ∷ 101 ∷ b'.' ∷ 102 ∷ []

abbrev newer : Bytes
newer = 101 ∷ b'.' ∷ 103 ∷ []

next_minor_example :
    (is_valid_upgrade toy_versions toy_scan older newer ≡ ok tt)
    ↔ Upgrade toy_versions toy_scan toy_order (ensure_prefix_v older) (ensure_prefix_v newer)
next_minor_example = is_valid_upgrade_iff toy_versions toy_scan toy_order older newer

upgrade_test : is_valid_upgrade toy_versions toy_scan older newer ≡ ok tt
unfolding is_valid_upgrade toy_versions toy_scan shape scanned both ensure_prefix_v has_prefix
    bytes_eq
upgrade_test = refl

abbrev pre : Semver
pre = record { major = 1; minor = 3; patch = 0; prerelease = codes "pre-1" }

abbrev release : Semver
release = record { major = 1; minor = 2; patch = 9; prerelease = [] }

pre-IsCanonical : IsCanonical toy_versions toy_numbers pre
unfolding toy_versions string toy_numbers shape
pre-IsCanonical = (refl, refl)

release-IsCanonical : IsCanonical toy_versions toy_numbers release
unfolding toy_versions string toy_numbers shape
release-IsCanonical = (refl, refl)

semver_example :
    new_slice toy_versions toy_numbers (to_strings toy_numbers (pre ∷ release ∷ []))
    ≡ ok (pre ∷ release ∷ [])
semver_example =
    new_slice-to_strings toy_versions toy_numbers toy_numbers-laws (pre ∷ release ∷ [])
      (pre-IsCanonical, (release-IsCanonical, tt))

same_upgrade_example : (is_upgrade_to toy_versions toy_numbers pre release ≡ ok tt) ↔ (
    is_valid_upgrade toy_versions toy_scan (string toy_numbers release) (string toy_numbers pre)
    ≡ ok tt)
same_upgrade_example =
    is_upgrade_to_iff toy_versions toy_scan toy_numbers toy_order toy_laws pre release
      pre-IsCanonical.0 release-IsCanonical.0
