-- ===== src/Tests/Documents.antt =====
-- An attestation document of a toy TPM: its attestations are numbers, and what it signs is the
-- nonce 5, which its hash always is.
use geth_sev.Prelude.{
  ℕ, ◌≡◌, ◌↔◌, refl, sym, ap, ◌∙◌, Bytes, bytes_eq, bytes_eq_iff, Bool-cases, true, false, Option,
  some, List, [], ◌∷◌, Map, IsMap, keys, sort_stable, has, Result, ok, err, ok-injective,
  if◌then◌else◌, arith, inl, inr,
}
use geth_sev.Measurements.{enforce, compare}
use geth_sev.Measurements.Comparing.{compare_passes_iff}
use geth_sev.Vtpm.{
  Quote, Document, TpmLib, Validator, Issuer, Event, opened_tpm, loaded_key, closed_key, closed_tpm,
  validate, issue, get_sha256_quote_index,
}
use geth_sev.Vtpm.Issuing.{IsPeer, validate-issue}
use geth_sev.Vtpm.Quotes.{IsFirstSha256, get_sha256_quote_index_iff}
use geth_sev.Vtpm.Validation.{IsValid, Enforced, validate_iff}

abbrev values : Map Bytes
values = (4, 1 ∷ []) ∷ []

abbrev sha256_quote : Option Quote
sha256_quote = some (record { pcrs = some (record { is_sha256 = true; pcrs = values }) })

abbrev sha1_quote : Option Quote
sha1_quote = some (record { pcrs = some (record { is_sha256 = false; pcrs = [] }) })

abbrev both : List (Option Quote)
both = sha1_quote ∷ sha256_quote ∷ []

abbrev written : Document ℕ → Result Bytes Bytes
written d = if bytes_eq d.instance_info (9 ∷ []) then ok (d.attestation ∷ d.user_data) else err []

abbrev read : Bytes → Result Bytes (Document ℕ)
read [] = err []
read (a ∷ user_data) =
    ok (record { attestation = a; instance_info = 9 ∷ []; user_data = user_data })

abbrev verified : ℕ → Bytes → Result Bytes ℕ
verified a [] = err []
verified a (n ∷ rest) = if bytes_eq (a ∷ []) (n ∷ []) then ok 0 else err []

abbrev signed : Bytes → Result Bytes ℕ
signed [] = err []
signed (n ∷ rest) = ok n

abbrev toy : TpmLib ℕ ℕ ℕ
toy = record {
  sha256 = λ b. 5 ∷ [];
  marshal = written;
  unmarshal = read;
  quotes_of = λ a. both;
  verify_attestation = λ a n keys sha1. verified a n;
}

abbrev checker : Validator ℕ ℕ ℕ
checker = record {
  expected = (4, record { expected = 1 ∷ []; validation_opt = enforce }) ∷ [];
  get_trusted_key = λ d extra. ok 3;
  validate_cvm = λ d s. ok tt;
}

abbrev maker : Issuer ℕ ℕ ℕ
maker = record {
  open_tpm = ok 0;
  get_attestation_key = λ t. ok 3;
  get_instance_info = λ t extra. ok (9 ∷ []);
  attest = λ h n. signed n;
}

read-written : (d : Document ℕ) (raw : Bytes) → written d ≡ ok raw → read raw ≡ ok d
read-written d raw h = elim (Bool-cases (bytes_eq d.instance_info (9 ∷ []))) [
  | inl y ↦
      ap read (sym (ok-injective _ _ (sym (as_written y) ∙ h)))
      ∙ ap
          (λ i.
            ok (record { attestation = d.attestation; instance_info = i; user_data = d.user_data }))
          (sym ((bytes_eq_iff d.instance_info (9 ∷ [])).0 y))
  | inr n ↦ absurd (not_written n)
]
  where
    as_written :
        bytes_eq d.instance_info (9 ∷ []) ≡ true → written d ≡ ok (d.attestation ∷ d.user_data)
    as_written y = rw y refl

    not_written : bytes_eq d.instance_info (9 ∷ []) ≡ false → ⊥
    not_written n = ground (arith, n, h)

verified-signed : (n : Bytes) (a : ℕ) → signed n ≡ ok a → (s : ℕ) × (verified a n ≡ ok s)
verified-signed [] a h = cc
verified-signed (n ∷ rest) a h =
    (0, rw ((bytes_eq_iff (a ∷ []) (n ∷ [])).1 (ap (λ k. k ∷ []) (sym (ok-injective n a h)))) refl)

second : IsFirstSha256 both 1 values
second = record {
  before = sha1_quote ∷ [];
  found = record { is_sha256 = true; pcrs = values };
  after = [];
  quotes_are = refl;
  others = ((record { is_sha256 = false; pcrs = [] }, refl, refl), tt);
  sha256 = refl;
  index = refl;
  values = refl;
}

passes : Enforced checker.expected values
unfolding compare sort_stable keys bytes_eq
passes = (compare_passes_iff checker.expected values).0 refl

peer : IsPeer toy maker checker
peer = record {
  key = 3;
  reads = read-written;
  trusts = λ t d extra ho hi. refl;
  verifies = λ t h n a ho hh ha. verified-signed n a ha;
  confidential = λ d s. refl;
  quoted = λ t h n a ho hh ha. (1, values, second, passes);
}

abbrev issued_events : List Event
issued_events = opened_tpm ∷ loaded_key ∷ closed_key ∷ closed_tpm ∷ []

issued : issue toy maker (8 ∷ []) (7 ∷ []) ≡ (ok (5 ∷ 8 ∷ []), issued_events)
unfolding issue bytes_eq
issued = refl

issue_example : validate toy checker (5 ∷ 8 ∷ []) (7 ∷ []) ≡ ok (8 ∷ [])
issue_example =
    validate-issue toy maker checker (8 ∷ []) (7 ∷ []) (5 ∷ 8 ∷ []) issued_events peer issued

validate_example :
    (validate toy checker (5 ∷ 8 ∷ []) (7 ∷ []) ≡ ok (8 ∷ []))
    ↔ IsValid toy checker (5 ∷ 8 ∷ []) (7 ∷ []) (8 ∷ [])
validate_example = validate_iff toy checker (5 ∷ 8 ∷ []) (7 ∷ []) (8 ∷ [])

quote_example :
    (get_sha256_quote_index both ≡ ok 1) ↔ ((pcrs : Map Bytes) × IsFirstSha256 both 1 pcrs)
quote_example = get_sha256_quote_index_iff both 1

values-IsMap : IsMap values
values-IsMap = (unfold has in refl, tt)
