-- ===== src/VersionsApi/Refs.antt =====
-- `CanonicalizeRef`.
use geth_sev.Prelude.{
  ℕ, zero, suc, ◌≡◌, ◌↔◌, refl, sym, ap, ◌∙◌, Bytes, bytes_eq, bytes_eq_iff, true, false, [], ◌∷◌,
  Bool-cases, arith, inl, inr,
}
use geth_sev.Semantic.{is_alnum_or_dash}
use geth_sev.VersionsApi.{release_ref, all_of, replace_loop, canonicalize_ref}

replace-all_of : (k : ℕ) (s : Bytes) → all_of is_alnum_or_dash (replace_loop k s) ≡ true
unfolding replace_loop all_of
replace-all_of k [] = refl
replace-all_of (suc k) (c ∷ s) = replace-all_of k s
replace-all_of zero (c ∷ s) = elim (Bool-cases (is_alnum_or_dash c)) [
  | inl e ↦ rw e (rw e (replace-all_of zero s))
  | inr e ↦ rw e (replace-all_of _ s)
]

replace_id : (s : Bytes) → all_of is_alnum_or_dash s ≡ true → replace_loop zero s ≡ s
unfolding replace_loop all_of
replace_id [] h = refl
replace_id (c ∷ s) h = ground (arith, replace_id s)

canonicalize-release : (r : Bytes) → r ≡ release_ref → canonicalize_ref r ≡ release_ref
unfolding canonicalize_ref
canonicalize-release r h = rw ((bytes_eq_iff r release_ref).1 h) h

canonicalize_bare :
    (r : Bytes)
    → bytes_eq r release_ref ≡ false
    → bytes_eq (replace_loop zero r) release_ref ≡ true
    → canonicalize_ref r ≡ []
unfolding canonicalize_ref
canonicalize_bare r n h = rw (n, h) refl

canonicalize_other :
    (r : Bytes)
    → bytes_eq r release_ref ≡ false
    → bytes_eq (replace_loop zero r) release_ref ≡ false
    → canonicalize_ref r ≡ replace_loop zero r
unfolding canonicalize_ref
canonicalize_other r n h = rw (n, h) refl

not_release : (r : Bytes) → bytes_eq r release_ref ≡ false → ¬ (r ≡ release_ref)
not_release r n h = let y = (bytes_eq_iff r release_ref).1 h in cc

canonicalize-clean : (r : Bytes) → all_of is_alnum_or_dash r ≡ true → canonicalize_ref r ≡ r
canonicalize-clean r h = elim (Bool-cases (bytes_eq r release_ref)) [
  | inl e ↦ let q = (bytes_eq_iff r release_ref).0 e in canonicalize-release r q ∙ sym q
  | inr n ↦
      let id = replace_id r h in
      canonicalize_other r n (ap (λ x. bytes_eq x release_ref) id ∙ n) ∙ id
]

pub canonicalize-all_of : (r : Bytes) → all_of is_alnum_or_dash (canonicalize_ref r) ≡ true
unfolding all_of
canonicalize-all_of r = elim (Bool-cases (bytes_eq r release_ref)) [
  | inl e ↦ rw (canonicalize-release r ((bytes_eq_iff r release_ref).0 e)) refl
  | inr n ↦ elim (Bool-cases (bytes_eq (replace_loop zero r) release_ref)) [
    | inl h ↦ rw (canonicalize_bare r n h) refl
    | inr h ↦ rw (canonicalize_other r n h) (replace-all_of zero r)
  ]
]

canonicalize-release_iff : (r : Bytes) → (canonicalize_ref r ≡ release_ref) ↔ (r ≡ release_ref)
canonicalize-release_iff r = elim (Bool-cases (bytes_eq r release_ref)) [
  | inl e ↦ let q = (bytes_eq_iff r release_ref).0 e in (λ _. q, λ _. canonicalize-release r q)
  | inr n ↦ elim (Bool-cases (bytes_eq (replace_loop zero r) release_ref)) [
    | inl h ↦
        let q = canonicalize_bare r n h in
        (λ y. absurd (not_empty (sym q ∙ y)), λ y. absurd (not_release r n y))
    | inr h ↦
        let q = canonicalize_other r n h in
        (λ y. absurd (not_release _ h (sym q ∙ y)), λ y. absurd (not_release r n y))
  ]
]
  where
    not_empty : ¬ ([] ≡ release_ref)
    not_empty h = cc

-- Canonicalizing any ref gives text of letters, digits and dashes that a second canonicalization
-- leaves as it is, and the result names a release exactly if the ref itself did.
pub canonicalize_ref_lem :
    (r : Bytes)
    → (all_of is_alnum_or_dash (canonicalize_ref r) ≡ true)
      × (canonicalize_ref (canonicalize_ref r) ≡ canonicalize_ref r)
      × ((canonicalize_ref r ≡ release_ref) ↔ (r ≡ release_ref))
canonicalize_ref_lem r = (
  canonicalize-all_of r,
  canonicalize-clean _ (canonicalize-all_of r),
  canonicalize-release_iff r,
)
