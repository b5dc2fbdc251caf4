-- ===== src/Atls/Fake.antt =====
-- `FakeIssuer` and `FakeValidator`: a validator that compares the nonces and returns the user data.
use geth_sev.Prelude.{
  ◌≡◌, ◌↔◌, refl, Bytes, codes, bytes_eq, bytes_eq_iff, not, Option, none, some, List, Result, ok,
  err, ◌>>=◌, if◌then◌else◌, ℕ, arith,
}
use geth_sev.Atls.{Issuer, Validator}
use geth_sev.Atls.Handshake.{IsFor}

pub record FakeDoc : Type 0 where
  pub user_data : Bytes
  pub nonce : Bytes

-- `json.Marshal` and `json.Unmarshal` at the fake document.
pub record DocJson : Type 0 where
  pub marshal : FakeDoc → Result Bytes Bytes
  pub unmarshal : Bytes → Result Bytes FakeDoc

pub record IsDocJson (json : DocJson) : Type 0 where
  pub back : (d : FakeDoc) (raw : Bytes) → json.marshal d ≡ ok raw → json.unmarshal raw ≡ ok d

module _ (json : DocJson) where
  -- `FakeIssuer.Issue`
  unfoldable pub fake_issue : Bytes → Bytes → Result Bytes Bytes
  fake_issue user_data nonce = json.marshal (record { user_data = user_data; nonce = nonce })

  -- `FakeValidator.Validate`, with the error that the validator is set to return
  unfoldable pub fake_validate : Option Bytes → Bytes → Bytes → Result Bytes Bytes
  unfolding bytes_eq
  fake_validate error att_doc nonce = do
    doc ← json.unmarshal att_doc
    if not (bytes_eq doc.nonce nonce)
        then err (codes "invalid nonce")
        else elim error [ none ↦ ok doc.user_data | some e ↦ err e ]

  unfoldable pub fake_issuer : List ℕ → Issuer
  unfolding fake_issue
  fake_issuer oid = record { oid = oid; issue = fake_issue }

  unfoldable pub fake_validator : List ℕ → Validator
  unfolding fake_validate
  fake_validator oid = record { oid = oid; validate = fake_validate none }

  fake_validate_iff_at :
      (doc : FakeDoc) (att_doc nonce user_data : Bytes)
      → json.unmarshal att_doc ≡ ok doc
      → (fake_validate none att_doc nonce ≡ ok user_data)
        ↔ ((doc.nonce ≡ nonce) × (doc.user_data ≡ user_data))
  unfolding fake_validate
  fake_validate_iff_at doc att_doc nonce user_data h =
      ground (arith, bytes_eq_iff doc.nonce nonce, h)

-- The fake validator accepts what the fake issuer issues exactly under the nonce it was issued for,
-- and then returns the user data.
pub fake_validate-fake_issue :
    (json : DocJson) (user_data nonce other doc result : Bytes)
    → IsDocJson json
    → fake_issue json user_data nonce ≡ ok doc
    → (fake_validate json none doc other ≡ ok result) ↔ ((nonce ≡ other) × (user_data ≡ result))
unfolding fake_issue
fake_validate-fake_issue json user_data nonce other doc result laws h =
    fake_validate_iff_at json (record { user_data = user_data; nonce = nonce }) doc other result
      (laws.back _ doc h)

pub fake-IsFor :
    (json : DocJson) (oid : List ℕ)
    → IsDocJson json
    → IsFor (fake_issuer json oid) (fake_validator json oid)
unfolding fake_issuer fake_validator
fake-IsFor json oid laws = record {
  same_oid = refl;
  reads = λ user_data nonce doc h.
      (fake_validate-fake_issue json user_data nonce nonce doc user_data laws h).1 (refl, refl);
}
