-- ===== src/IdKeyDigest/Digests.antt =====
-- Lists of digests: equality, and the texts they are written as.
use geth_sev.Prelude.{
  ◌≡◌, ◌↔◌, refl, sym, ap, ◌∙◌, subst, ℕ, suc, ◌*◌, ◌==◌, ==_iff, Bytes, IsBytes, bytes_eq_iff,
  length, Bool-cases, true, false, List, [], ◌∷◌, All, Result, ok, err, ◌>>=◌, >>=-eq-ok,
  ok-injective, map_err, map_err-ok, arith, inl, inr,
}
use geth_sev.Hex.{encode_to_string, decode_string, decode-encode, decode_bounds}
use geth_sev.IdKeyDigest.{
  DigestError, digest_length, decoding, unmarshal_hex_string, marshal, equal_loop, equal_to,
}

-- 48 bytes.
abbrev pub IsDigest : Bytes → Type 0
IsDigest d = IsBytes d × (length d ≡ 48)

loop_iff : (d e : List Bytes) → length d ≡ length e → (equal_loop d e ≡ true) ↔ (d ≡ e)
unfolding equal_loop
loop_iff [] [] h = (λ x. refl, λ x. refl)
loop_iff [] (e ∷ es) h = absurd (omega (arith, h))
loop_iff (d ∷ ds) [] h = absurd (omega (arith, h))
loop_iff (d ∷ ds) (e ∷ es) h = ground (arith, bytes_eq_iff d e, loop_iff ds es)

-- `EqualTo` is true exactly for the same digests in the same order.
pub equal_to_digests_iff : (d e : List Bytes) → (equal_to d e ≡ true) ↔ (d ≡ e)
unfolding equal_to
equal_to_digests_iff d e = elim (Bool-cases (length d == length e)) [
  | inl y ↦ rw (y, equal_to) (loop_iff d e ((==_iff (length d) (length e)).0 y))
  | inr n ↦ rw (n, equal_to) ((λ h. cc), (λ h. absurd (ground (arith, n, ap length h))))
]

encode_length : (d : Bytes) → IsDigest d → (length (encode_to_string d) == 96) ≡ true
encode_length d h =
    let b = decode_bounds (encode_to_string d) d (decode-encode d h.0) in
    (==_iff (length (encode_to_string d)) 96).1 (omega (arith, h.1, b.1))

-- Digests of 48 bytes are read back from their texts.
pub unmarshal_hex_string-marshal :
    (ds : List Bytes) → All IsDigest ds → unmarshal_hex_string (marshal ds) ≡ ok ds
unfolding unmarshal_hex_string marshal
unmarshal_hex_string-marshal [] h = refl
unmarshal_hex_string-marshal (d ∷ ds) h =
    rw (encode_length d h.0, decode-encode d h.0.0, unmarshal_hex_string-marshal ds h.1) refl

read_long :
    (s : Bytes) (ss : List Bytes)
    → (length s == 96) ≡ true
    → unmarshal_hex_string (s ∷ ss)
      ≡ (map_err decoding (decode_string s) >>= λ d. unmarshal_hex_string ss >>= λ ds. ok (d ∷ ds))
unfolding unmarshal_hex_string
read_long s ss h = rw (h, unmarshal_hex_string) refl

read_other :
    (s : Bytes) (ss : List Bytes)
    → (length s == 96) ≡ false
    → unmarshal_hex_string (s ∷ ss) ≡ err (digest_length (length s))
unfolding unmarshal_hex_string
read_other s ss h = rw (h, unmarshal_hex_string) refl

err≢ok :
    (x : DigestError) (ds : List Bytes)
    → ◌≡◌ {A = Result DigestError (List Bytes)} (err x) (ok ds)
    → ⊥
err≢ok x ds h = cc

half : (n : ℕ) → 96 ≡ 2 * n → n ≡ 48
half n h = omega (arith, h)

-- Whatever is read is as many digests as there are texts, of 48 bytes each.
pub unmarshal_hex_string_bounds :
    (ss ds : List Bytes)
    → unmarshal_hex_string ss ≡ ok ds
    → All IsDigest ds × (length ds ≡ length ss)
unfolding unmarshal_hex_string
unmarshal_hex_string_bounds [] ds h =
    subst (λ l. All IsDigest l × (length l ≡ 0)) (ok-injective _ _ h) (tt, refl)
unmarshal_hex_string_bounds (s ∷ ss) ds h = elim (Bool-cases (length s == 96)) [
  | inr n ↦ absurd (err≢ok (digest_length (length s)) ds (sym (read_other s ss n) ∙ h))
  | inl y ↦
      let (d, hd, h1) =
        >>=-eq-ok (map_err decoding (decode_string s)) _ (sym (read_long s ss y) ∙ h) in
      let (es, he, h2) = >>=-eq-ok (unmarshal_hex_string ss) _ h1 in
      let ih = unmarshal_hex_string_bounds ss es he in
      let b = decode_bounds s d (map_err-ok decoding (decode_string s) d hd) in
      subst (λ l. All IsDigest l × (length l ≡ suc (length ss))) (ok-injective _ _ h2)
        (((b.0, half (length d) (sym ((==_iff (length s) 96).0 y) ∙ b.1)), ih.0), ap suc ih.1)
]
