-- ===== src/IdKeyDigest.antt =====
-- constellation/attestation/idkeydigest: the enforcement policy for ID key digests, and lists of
-- digests with their texts. JSON and YAML are parameters: what a document reads as.
pub mod Policy
pub mod Digests
use geth_sev.Prelude.{
  ℕ, ◌==◌, Bytes, codes, bytes_eq, to_lower, length, Bool, true, false, not, Option, none, some,
  List, [], ◌∷◌, map, Result, ok, err, ◌>>=◌, map_err, if◌then◌else◌,
}
use geth_sev.Hex.{HexError, encode_to_string, decode_string}

-- `Enforcement`; a number beyond the constants is not modelled.
pub data Enforcement : Type 0 where
  unknown equal maa_fallback warn_only : Enforcement

pub data EnforcementError : Type 0 where
  no_text : Bytes → EnforcementError
  unknown_value : Bytes → EnforcementError

-- `EnforcePolicyFromString`
unfoldable pub enforce_policy_from_string : Bytes → Enforcement
unfolding to_lower bytes_eq
enforce_policy_from_string s =
    if bytes_eq (to_lower s) (codes "equal")
    then equal
    else if bytes_eq (to_lower s) (codes "maafallback")
    then maa_fallback
    else if bytes_eq (to_lower s) (codes "warnonly")
    then warn_only
    else unknown

-- `Enforcement.String`, which is generated from the constants
unfoldable pub string : Enforcement → Bytes
string unknown = codes "Unknown"
string equal = codes "Equal"
string maa_fallback = codes "MAAFallback"
string warn_only = codes "WarnOnly"

-- What the decoder makes of a document, as a Boolean and as text.
pub record Reading : Type 0 where
  pub as_bool : Result Bytes Bool
  pub as_text : Result Bytes Bytes

known : Bytes → Enforcement → Result EnforcementError Enforcement
known s unknown = err (unknown_value s)
known s equal = ok equal
known s maa_fallback = ok maa_fallback
known s warn_only = ok warn_only

-- `Enforcement.unmarshal`: the new value; on an error the receiver may have been set to unknown.
unfoldable pub unmarshal : Reading → Result EnforcementError Enforcement
unfolding enforce_policy_from_string known
unmarshal r = elim r.as_bool [
  | ok legacy_enforce ↦ ok (if legacy_enforce then equal else warn_only)
  | err legacy_err ↦ elim r.as_text [
    | err e ↦ err (no_text e)
    | ok enforce ↦ known enforce (enforce_policy_from_string enforce)
  ]
]

pub data DigestError : Type 0 where
  digest_length : ℕ → DigestError
  decoding : HexError → DigestError

abbrev encoded_digest_length : ℕ
encoded_digest_length = 96

-- `UnmarshalHexString`
unfoldable pub unmarshal_hex_string : List Bytes → Result DigestError (List Bytes)
unfolding decode_string
unmarshal_hex_string [] = ok []
unmarshal_hex_string (s ∷ rest) =
    let others = unmarshal_hex_string rest in
    if not (length s == encoded_digest_length)
    then err (digest_length (length s))
    else (map_err decoding (decode_string s) >>= λ d. others >>= λ ds. ok (d ∷ ds))

-- The texts of `List.MarshalJSON` and `List.MarshalYAML`
unfoldable pub marshal : List Bytes → List Bytes
unfolding encode_to_string
marshal [] = []
marshal (d ∷ ds) = encode_to_string d ∷ marshal ds

equal_loop : List Bytes → List Bytes → Bool
unfolding bytes_eq
equal_loop (d ∷ ds) (e ∷ es) = if not (bytes_eq d e) then false else equal_loop ds es
equal_loop [] es = true
equal_loop (d ∷ ds) [] = true

-- `List.EqualTo`; the loop does not run out of `other`, since the lengths are equal.
unfoldable pub equal_to : List Bytes → List Bytes → Bool
unfolding equal_loop
equal_to d other = if not (length d == length other) then false else equal_loop d other
