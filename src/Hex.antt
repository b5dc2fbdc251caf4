-- ===== src/Hex.antt =====
-- Go's `encoding/hex`: `EncodeToString` and `DecodeString`, on bytes.
use geth_sev.Prelude.{
  ℕ, ◌+◌, ◌-◌, ◌*◌, ◌/◌, ◌%◌, ◌<◌, ◌≡◌, refl, leb, ltb, Bytes, IsBytes, length, ◌&&◌, Option, none,
  some, [], ◌∷◌, Result, ok, err, ◌>>=◌, >>=-eq-ok, ok-injective, arith, subst, sym, if◌then◌else◌,
}

pub data HexError : Type 0 where
  invalid_byte : ℕ → HexError
  odd_length : HexError

digit : ℕ → ℕ
digit n = if ltb n 10 then b'0' + n else b'a' + (n - 10)

value : ℕ → Option ℕ
value c =
    if leb b'0' c && leb c b'9'
    then some (c - b'0')
    else if leb b'a' c && leb c b'f'
    then some (c - b'a' + 10)
    else if leb b'A' c && leb c b'F'
    then some (c - b'A' + 10)
    else none

unfoldable pub encode_to_string : Bytes → Bytes
unfolding digit
encode_to_string [] = []
encode_to_string (b ∷ bs) = digit (b / 16) ∷ digit (b % 16) ∷ encode_to_string bs

nibble : ℕ → Result HexError ℕ
unfolding value
nibble c = elim (value c) [ none ↦ err (invalid_byte c) | some v ↦ ok v ]

unfoldable pub decode_string : Bytes → Result HexError Bytes
unfolding nibble
decode_string [] = ok []
decode_string (p ∷ []) = do nibble p >>= λ _. err odd_length
decode_string (p ∷ q ∷ rest) = do
  a ← nibble p
  b ← nibble q
  bs ← decode_string rest
  ok ((a * 16 + b) ∷ bs)

nibble-digit : (n : ℕ) → n < 16 → nibble (digit n) ≡ ok n
unfolding nibble digit
nibble-digit n h = ground arith

-- Decoding undoes encoding.
pub decode-encode : (bs : Bytes) → IsBytes bs → decode_string (encode_to_string bs) ≡ ok bs
unfolding decode_string encode_to_string
decode-encode [] h = refl
decode-encode (b ∷ bs) h =
    let high = nibble-digit (b / 16) (omega (arith, h.0)) in
    let low = nibble-digit (b % 16) (omega arith) in
    rw (high, low, decode-encode bs h.1) (ground arith)

nibble-lt : (c n : ℕ) → nibble c ≡ ok n → n < 16
unfolding nibble
nibble-lt c n h = ground arith

-- A successful step and the pieces that it is made of.
decode-pair :
    (p q : ℕ) (rest bs : Bytes)
    → decode_string (p ∷ q ∷ rest) ≡ ok bs
    → (a b : ℕ) × (t : Bytes) × (nibble p ≡ ok a)
      × (nibble q ≡ ok b)
      × (decode_string rest ≡ ok t)
      × (bs ≡ (a * 16 + b) ∷ t)
unfolding decode_string
decode-pair p q rest bs h =
    let (a, x, h₁) = >>=-eq-ok (nibble p) _ h in
    let (b, y, h₂) = >>=-eq-ok (nibble q) _ h₁ in
    let (t, z, h₃) = >>=-eq-ok (decode_string rest) _ h₂ in
    (a, b, t, x, y, z, sym (ok-injective _ _ h₃))

abbrev Decoded : Bytes → Bytes → Type 0
Decoded s bs = IsBytes bs × (length s ≡ 2 * length bs)

-- What is decoded are bytes, one for each two digits.
pub decode_bounds :
    (s bs : Bytes) → decode_string s ≡ ok bs → IsBytes bs × (length s ≡ 2 * length bs)
decode_bounds [] bs h =
    subst (Decoded []) {x = []} (unfold decode_string in ground arith) (tt, refl)
decode_bounds (p ∷ []) bs h = absurd (unfold decode_string in ground arith)
decode_bounds (p ∷ q ∷ rest) bs h =
    let (a, b, t, x, y, z, e) = decode-pair p q rest bs h in
    let ih = decode_bounds rest t z in
    subst (Decoded (p ∷ q ∷ rest)) (sym e)
      ((omega (arith, nibble-lt p a x, nibble-lt q b y), ih.0), omega (arith, ih.1))
