-- ===== src/Atls/Embedded.antt =====
-- `verifyEmbeddedReport`: which attestation document decides, and what it has to say.
use geth_sev.Prelude.{
  ◌≡◌, ◌↔◌, ◌⊎◌, refl, sym, ap, ◌∙◌, ℕ, Bytes, bytes_eq, bytes_eq_iff, Bool-cases, true, false, not,
  none, some, List, [], ◌∷◌, ◌++◌, All, Result, ok, err, Result-cases, map_err, ◌>>=◌, arith,
  if◌then◌else◌, inl, inr,
}
use geth_sev.Variant.{oid_eq}
use geth_sev.Atls.{
  AtlsError, validating, hash_mismatch, Extension, Validator, X509, match_validator, verify_loop,
  verify_embedded_report,
}

-- No validator in the list is for the extension.
abbrev pub NoneFor : List Validator → Extension → Type 0
NoneFor vs ex = All (λ v. oid_eq ex.id v.oid ≡ false) vs

-- The first extension that some validator is for is the one that decides, through the first
-- validator for it, which accepts the document under the nonce and returns the hash.
pub record IsAccepted (vs : List Validator) (exts : List Extension) (hash nonce : Bytes)
    : Type 0 where
  pub before : List Extension
  pub deciding : Extension
  pub after : List Extension
  pub skipped : List Validator
  pub validator : Validator
  pub unused : List Validator
  pub extensions_are : exts ≡ before ++ deciding ∷ after
  pub validators_are : vs ≡ skipped ++ validator ∷ unused
  pub before_none : All (NoneFor vs) before
  pub skipped_none : NoneFor skipped deciding
  pub is_for : oid_eq deciding.id validator.oid ≡ true
  pub accepts : validator.validate deciding.value nonce ≡ ok hash

-- The verdict of one validator.
abbrev verdict : Validator → Extension → Bytes → Bytes → Result AtlsError (Unit {0})
unfolding bytes_eq
verdict v ex hash nonce = do
  user_data ← map_err validating (v.validate ex.value nonce)
  if not (bytes_eq user_data hash) then err hash_mismatch else ok tt

verdict_ok :
    (v : Validator) (ex : Extension) (hash nonce : Bytes)
    → (verdict v ex hash nonce ≡ ok tt) ↔ (v.validate ex.value nonce ≡ ok hash)
unfolding verdict
verdict_ok v ex hash nonce = elim (Result-cases (v.validate ex.value nonce)) [
  | inl (u, e) ↦ ground (arith, bytes_eq_iff u hash, e)
  | inr (u, e) ↦ ground (arith, e)
]

none_match :
    (vs : List Validator) (ex : Extension) (hash nonce : Bytes)
    → NoneFor vs ex
    → match_validator vs ex hash nonce ≡ none
unfolding match_validator
none_match [] ex hash nonce h = refl
none_match (v ∷ vs) ex hash nonce h = rw h.0 (none_match vs ex hash nonce h.1)

match_at :
    (skipped : List Validator) (v : Validator) (unused : List Validator) (ex : Extension)
    (hash nonce : Bytes)
    → NoneFor skipped ex
    → oid_eq ex.id v.oid ≡ true
    → match_validator (skipped ++ v ∷ unused) ex hash nonce ≡ some (verdict v ex hash nonce)
unfolding match_validator verdict
match_at [] v unused ex hash nonce n h = rw h refl
match_at (w ∷ skipped) v unused ex hash nonce n h =
    rw n.0 (match_at skipped v unused ex hash nonce n.1 h)

-- The validators, taken apart at the first for the extension.
record FirstFor (vs : List Validator) (ex : Extension) : Type 0 where
  pub skipped : List Validator
  pub validator : Validator
  pub unused : List Validator
  pub validators_are : vs ≡ skipped ++ validator ∷ unused
  pub skipped_none : NoneFor skipped ex
  pub is_for : oid_eq ex.id validator.oid ≡ true

first_or_none : (vs : List Validator) (ex : Extension) → FirstFor vs ex ⊎ NoneFor vs ex
first_or_none [] ex = inr tt
first_or_none (v ∷ vs) ex = elim (Bool-cases (oid_eq ex.id v.oid)) [
  | inl y ↦ inl (record {
    skipped = [];
    validator = v;
    unused = vs;
    validators_are = refl;
    skipped_none = tt;
    is_for = y;
  })
  | inr n ↦ elim (first_or_none vs ex) [
    | inr rest ↦ inr (n, rest)
    | inl f ↦ inl (record {
      skipped = v ∷ f.skipped;
      validator = f.validator;
      unused = f.unused;
      validators_are = ap (◌∷◌ v) f.validators_are;
      skipped_none = (n, f.skipped_none);
      is_for = f.is_for;
    })
  ]
]

match_first :
    (vs : List Validator) (ex : Extension) (hash nonce : Bytes) (f : FirstFor vs ex)
    → match_validator vs ex hash nonce ≡ some (verdict f.validator ex hash nonce)
match_first vs ex hash nonce f =
    ap (λ l. match_validator l ex hash nonce) f.validators_are
    ∙ match_at f.skipped f.validator f.unused ex hash nonce f.skipped_none f.is_for

loop_some :
    (vs : List Validator) (ex : Extension) (rest : List Extension) (hash nonce : Bytes)
    (seen : List (List ℕ)) (r : Result AtlsError (Unit {0}))
    → match_validator vs ex hash nonce ≡ some r
    → verify_loop vs (ex ∷ rest) hash nonce seen ≡ r
unfolding verify_loop
loop_some vs ex rest hash nonce seen r h = rw (h, verify_loop) refl

loop_none :
    (vs : List Validator) (ex : Extension) (rest : List Extension) (hash nonce : Bytes)
    (seen : List (List ℕ))
    → match_validator vs ex hash nonce ≡ none
    → verify_loop vs (ex ∷ rest) hash nonce seen
      ≡ verify_loop vs rest hash nonce (seen ++ ex.id ∷ [])
unfolding verify_loop
loop_none vs ex rest hash nonce seen h = rw (h, verify_loop) refl

later :
    (vs : List Validator) (ex : Extension) (rest : List Extension) (hash nonce : Bytes)
    → NoneFor vs ex
    → IsAccepted vs rest hash nonce
    → IsAccepted vs (ex ∷ rest) hash nonce
later vs ex rest hash nonce n a = record {
  before = ex ∷ a.before;
  deciding = a.deciding;
  after = a.after;
  skipped = a.skipped;
  validator = a.validator;
  unused = a.unused;
  extensions_are = ap (◌∷◌ ex) a.extensions_are;
  validators_are = a.validators_are;
  before_none = (n, a.before_none);
  skipped_none = a.skipped_none;
  is_for = a.is_for;
  accepts = a.accepts;
}

IsAccepted-of_loop :
    (vs : List Validator) (exts : List Extension) (hash nonce : Bytes) (seen : List (List ℕ))
    → verify_loop vs exts hash nonce seen ≡ ok tt
    → IsAccepted vs exts hash nonce
IsAccepted-of_loop vs [] hash nonce seen h = absurd (unfold verify_loop in cc)
IsAccepted-of_loop vs (ex ∷ rest) hash nonce seen h = elim (first_or_none vs ex) [
  | inr n ↦ later vs ex rest hash nonce n (
      IsAccepted-of_loop vs rest hash nonce _
        (sym (loop_none vs ex rest hash nonce seen (none_match vs ex hash nonce n)) ∙ h))
  | inl f ↦ record {
    before = [];
    deciding = ex;
    after = rest;
    skipped = f.skipped;
    validator = f.validator;
    unused = f.unused;
    extensions_are = refl;
    validators_are = f.validators_are;
    before_none = tt;
    skipped_none = f.skipped_none;
    is_for = f.is_for;
    accepts =
        (verdict_ok f.validator ex hash nonce).0
          (sym (loop_some vs ex rest hash nonce seen _ (match_first vs ex hash nonce f)) ∙ h);
  }
]

loop_past :
    (vs : List Validator) (before exts : List Extension) (hash nonce : Bytes) (seen : List (List ℕ))
    (r : Result AtlsError (Unit {0}))
    → All (NoneFor vs) before
    → ((s : List (List ℕ)) → verify_loop vs exts hash nonce s ≡ r)
    → verify_loop vs (before ++ exts) hash nonce seen ≡ r
loop_past vs [] exts hash nonce seen r n h = h seen
loop_past vs (ex ∷ before) exts hash nonce seen r n h =
    loop_none vs ex _ hash nonce seen (none_match vs ex hash nonce n.0)
    ∙ loop_past vs before exts hash nonce _ r n.1 h

loop_of_accepted :
    (vs : List Validator) (exts : List Extension) (hash nonce : Bytes)
    → IsAccepted vs exts hash nonce
    → verify_loop vs exts hash nonce [] ≡ ok tt
loop_of_accepted vs exts hash nonce a =
    ap (λ l. verify_loop vs l hash nonce []) a.extensions_are
    ∙ loop_past vs a.before _ hash nonce [] (ok tt) a.before_none (λ s.
      loop_some vs a.deciding a.after hash nonce s _ (
        ap (λ l. match_validator l a.deciding hash nonce) a.validators_are
        ∙ match_at a.skipped a.validator a.unused a.deciding hash nonce a.skipped_none a.is_for)
      ∙ (verdict_ok a.validator a.deciding hash nonce).1 a.accepts)

-- The embedded report is verified exactly if, at the first extension that carries the object
-- identifier of some validator, the first such validator accepts the document under the nonce and
-- returns the hash of the key.
pub verify_embedded_report_iff :
    {Cert Pub Priv : Type 0} (x : X509 Cert Pub Priv) (vs : List Validator) (cert : Cert)
    (hash nonce : Bytes)
    → (verify_embedded_report x vs cert hash nonce ≡ ok tt)
      ↔ IsAccepted vs (x.extensions cert) hash nonce
unfolding verify_embedded_report
verify_embedded_report_iff x vs cert hash nonce = (
  IsAccepted-of_loop vs (x.extensions cert) hash nonce [],
  loop_of_accepted vs (x.extensions cert) hash nonce,
)
