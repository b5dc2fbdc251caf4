-- ===== src/Semver.antt =====
-- constellation/semver/semver.go: semantic versions as numbers. golang.org/x/mod/semver is the
-- parameter of Semantic.antt; the printing and scanning of numbers by fmt are parameters too.
pub mod Upgrade
pub mod Text
use geth_sev.Prelude.{
  ℕ, ◌+◌, ◌-◌, Bytes, codes, concat, has_prefix, ltb, ◌==◌, List, [], ◌∷◌, Bool, true, false, not,
  ◌&&◌, ◌||◌, Result, ok, err, map_err, ◌>>=◌, ◌>>◌, if◌then◌else◌, sort_stable, text_less,
}
use Prim.Native.Nat.{Ordering}
use geth_sev.Semantic.{SemverLib}
use geth_sev.Compatibility.{InvalidUpgrade, InnerError, major_mismatch, minor_drift, not_newer}

-- The numbers are Go integers that are not negative.
pub record Semver : Type 0 where
  pub major : ℕ
  pub minor : ℕ
  pub patch : ℕ
  pub prerelease : Bytes

-- `%d`, and `Sscanf` of a text such as v1.2.3
pub record NumberLib : Type 0 where
  pub print : ℕ → Bytes
  pub scan_parts : Bytes → Result Bytes (ℕ × ℕ × ℕ)

pub data SemverError : Type 0 where
  invalid parsing_parts : Bytes → SemverError
  parsing_version : Bytes → SemverError → SemverError

-- The second result of `strings.Cut` at a dash.
after_dash : Bytes → Bytes
after_dash [] = []
after_dash (c ∷ cs) = let rest : Bytes = after_dash cs in if c == b'-' then cs else rest

with_v : Bytes → Bytes
unfolding has_prefix
with_v s = if has_prefix s (codes "v") then s else b'v' ∷ s

-- `New` from the canonical text on
parts_of : NumberLib → Bytes → Result SemverError Semver
unfolding after_dash
parts_of num canonical = do
  x ← map_err parsing_parts (num.scan_parts canonical)
  ok (record { major = x.0; minor = x.1; patch = x.2; prerelease = after_dash canonical })

prefixed : SemverLib → NumberLib → Bytes → Result SemverError Semver
unfolding parts_of
prefixed lib num version =
    if not (lib.is_valid version)
    then err (invalid version)
    else parts_of num (lib.canonical version)

-- `New`
unfoldable pub new : SemverLib → NumberLib → Bytes → Result SemverError Semver
unfolding with_v prefixed
new lib num version = prefixed lib num (with_v version)

-- `NewSlice`
unfoldable pub new_slice : SemverLib → NumberLib → List Bytes → Result SemverError (List Semver)
unfolding new
new_slice lib num [] = ok []
new_slice lib num (version ∷ versions) = do
  v ← map_err (parsing_version version) (new lib num version)
  vs ← new_slice lib num versions
  ok (v ∷ vs)

text_of : NumberLib → ℕ → ℕ → ℕ → Bytes → Bytes
text_of num a b c [] =
    concat (codes "v" ∷ num.print a ∷ codes "." ∷ num.print b ∷ codes "." ∷ num.print c ∷ [])
text_of num a b c (p ∷ re) = concat (
    codes "v"
    ∷ num.print a
    ∷ codes "."
    ∷ num.print b
    ∷ codes "."
    ∷ num.print c
    ∷ codes "-"
    ∷ (p ∷ re)
    ∷ [])

-- `String`
unfoldable pub string : NumberLib → Semver → Bytes
unfolding text_of
string num v = text_of num v.major v.minor v.patch v.prerelease

-- `ToStrings`
unfoldable pub to_strings : NumberLib → List Semver → List Bytes
unfolding string
to_strings num [] = []
to_strings num (v ∷ vs) = string num v ∷ to_strings num vs

-- `Compare`
unfoldable pub compare_semver : SemverLib → NumberLib → Semver → Semver → Ordering
unfolding string
compare_semver lib num v other = lib.compare (string num v) (string num other)

-- `MajorMinorEqual`
unfoldable pub major_minor_equal : Semver → Semver → Bool
major_minor_equal v other = v.major == other.major && v.minor == other.minor

-- `IsUpgradeTo`
unfoldable pub is_upgrade_to :
    SemverLib → NumberLib → Semver → Semver → Result InvalidUpgrade (Unit {0})
unfolding compare_semver string
is_upgrade_to lib num v other =
    if not (greater (compare_semver lib num v other))
    then refused not_newer
    else if not (v.major == other.major)
    then refused major_mismatch
    else if ltb 1 (v.minor - other.minor)
    then refused minor_drift
    else ok tt
  where
    greater : Ordering → Bool
    greater o = elim o [ Ordering.gt ↦ true | _ ↦ false ]

    refused : InnerError → Result InvalidUpgrade (Unit {0})
    refused e = err (record { from = string num other; to = string num v; inner_err = e })

-- `NextMinor`
unfoldable pub next_minor : NumberLib → Semver → Bytes
next_minor num v = concat (codes "v" ∷ num.print v.major ∷ codes "." ∷ num.print (v.minor + 1) ∷ [])

-- `Less`
unfoldable pub less : SemverLib → NumberLib → Semver → Semver → Bool
unfolding compare_semver string text_less
less lib num v w = elim (compare_semver lib num v w) [
  | Ordering.lt ↦ true
  | Ordering.gt ↦ false
  | Ordering.eq ↦ text_less (string num v) (string num w)
]

-- `Sort`; versions that neither is less than the other have the same text.
unfoldable pub sort_versions : SemverLib → NumberLib → List Semver → List Semver
unfolding less sort_stable
sort_versions lib num vs = sort_stable (less lib num) vs
