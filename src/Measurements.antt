-- ===== src/Measurements.antt =====
-- constellation/attestation/measurements/measurements.go: expected measurements by index, their
-- comparison with reported values, and which of them are enforced.
pub mod Copying
pub mod Equality
pub mod Comparing
pub mod Enforced
pub mod Lengths
pub mod Encoding
pub mod Yaml
pub mod Defaults
use geth_sev.Prelude.{
  ℕ, zero, suc, ◌/◌, ◌==◌, ltb, Bytes, bytes_eq, Bool, true, false, ◌&&◌, Option, none, some, List,
  [], ◌∷◌, ◌++◌, length, Map, lookup, insert, keys, sort_stable, Result, ok, err, if◌then◌else◌,
}

-- `MeasurementValidationOption`: `WarnOnly` is true and `Enforce` is false, the zero value.
pub data ValidationOption : Type 0 where
  enforce warn_only : ValidationOption

unfoldable pub option_eq : ValidationOption → ValidationOption → Bool
option_eq enforce o = elim o [ enforce ↦ true | _ ↦ false ]
option_eq warn_only o = elim o [ warn_only ↦ true | _ ↦ false ]

pub record Measurement : Type 0 where
  pub expected : Bytes
  pub validation_opt : ValidationOption

-- `type M map[uint32]Measurement`
abbrev pub M : Type 0
M = Map Measurement

-- `m[k]`, with the zero value where the key is missing.
unfoldable pub at : ℕ → M → Measurement
unfolding lookup
at k m = elim (lookup k m) [
  | none ↦ record { expected = []; validation_opt = enforce }
  | some v ↦ v
]

-- `other[idx]` of the reported values; a missing key reads as nil.
unfoldable pub reported : ℕ → Map Bytes → Bytes
unfolding lookup
reported k o = elim (lookup k o) [ none ↦ [] | some v ↦ v ]

copy_loop : List ℕ → M → M → M
copy_loop [] other m = m
copy_loop (idx ∷ rest) other m = copy_loop rest other (insert idx (at idx other) m)

-- `CopyFrom`: the new value of `*m`.
unfoldable pub copy_from : M → M → M
unfolding copy_loop at
copy_from m other = copy_loop (keys other) other m

-- `Copy`
unfoldable pub copy : M → M
unfolding copy_loop at
copy m = copy_loop (keys m) m []

all_equal : M → M → Bool
all_equal [] other = true
all_equal ((k, v) ∷ m) other =
    if bytes_eq v.expected (at k other).expected
    then if option_eq v.validation_opt (at k other).validation_opt then all_equal m other else false
    else false

-- `EqualTo`
unfoldable pub equal_to : M → M → Bool
unfolding all_equal at option_eq
equal_to m other = if length m == length other then all_equal m other else false

-- The message of a mismatch.
pub data Complaint : Type 0 where
  untrusted : Bytes → ℕ → Complaint
  missing : ℕ → Complaint

unfoldable pub complaint : ℕ → Bytes → Complaint
complaint idx value = if length value == 0 then missing idx else untrusted value idx

compare_loop :
    M → Map Bytes → List ℕ → List Complaint → List Complaint → List Complaint × List Complaint
compare_loop m other [] warnings errs = (warnings, errs)
compare_loop m other (idx ∷ rest) warnings errs =
    let msg : Complaint = complaint idx (reported idx other) in
    let warned = compare_loop m other rest (warnings ++ msg ∷ []) errs in
    let failed = compare_loop m other rest warnings (errs ++ msg ∷ []) in
    let passed = compare_loop m other rest warnings errs in
    if bytes_eq (at idx m).expected (reported idx other)
    then passed
    else if option_eq (at idx m).validation_opt enforce
    then failed
    else warned

-- `Compare`: the warnings and the errors, in the order of the indices.
unfoldable pub compare : M → Map Bytes → List Complaint × List Complaint
unfolding compare_loop complaint at reported option_eq
compare m other = compare_loop m other (sort_stable ltb (keys m)) [] []

-- `GetEnforced`
unfoldable pub get_enforced : M → List ℕ
unfolding option_eq
get_enforced [] = []
get_enforced ((idx, v) ∷ m) =
    if option_eq v.validation_opt enforce then idx ∷ get_enforced m else get_enforced m

all_warn : M → M
all_warn [] = []
all_warn ((idx, v) ∷ m) = (idx, record v { validation_opt = warn_only }) ∷ all_warn m

-- The error carries the index that is not in the list.
enforce_loop : List ℕ → M → Result ℕ M
enforce_loop [] new_m = ok new_m
enforce_loop (idx ∷ rest) new_m = elim (lookup idx new_m) [
  | none ↦ err idx
  | some v ↦ enforce_loop rest (insert idx (record v { validation_opt = enforce }) new_m)
]

-- `SetEnforced`: the new value of `*m`; an error leaves it alone.
unfoldable pub set_enforced : M → List ℕ → Result ℕ M
unfolding all_warn enforce_loop
set_enforced m enforced = enforce_loop enforced (all_warn m)

-- The error of `checkLength`.
pub record LengthMismatch : Type 0 where
  pub index : ℕ
  pub wanted : ℕ
  pub got : ℕ

pub length_loop : ℕ → M → Result LengthMismatch (Unit {0})
length_loop n [] = ok tt
length_loop n ((idx, v) ∷ m) =
    let same = length_loop (if n == 0 then length v.expected else n) m in
    if n == 0
    then same
    else if length v.expected == n
    then same
    else err (record { index = idx; wanted = n; got = length v.expected })

-- `checkLength`
unfoldable pub check_length : M → Result LengthMismatch (Unit {0})
unfolding length_loop
check_length m = length_loop 0 m

-- `bytes.Repeat` of one byte, and of 0x12, 0x34.
repeat_byte : ℕ → ℕ → Bytes
repeat_byte b zero = []
repeat_byte b (suc n) = b ∷ repeat_byte b n

repeat_pair : ℕ → ℕ → ℕ → Bytes
repeat_pair a b zero = []
repeat_pair a b (suc n) = a ∷ b ∷ repeat_pair a b n

-- `WithAllBytes`
unfoldable pub with_all_bytes : ℕ → ValidationOption → ℕ → Measurement
unfolding repeat_byte
with_all_bytes b opt len = record { expected = repeat_byte b len; validation_opt = opt }

-- `PlaceHolderMeasurement`
unfoldable pub place_holder_measurement : ℕ → Measurement
unfolding repeat_pair
place_holder_measurement len = record {
  expected = repeat_pair 0x12 0x34 (len / 2);
  validation_opt = enforce;
}
