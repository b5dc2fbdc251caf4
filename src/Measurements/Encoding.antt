-- ===== src/Measurements/Encoding.antt =====
-- constellation/attestation/measurements/measurements.go: reading and writing of measurements.
-- A JSON or YAML document is what its two readings give: as an object, and as a plain string. The
-- readers are Go's and a library's; `E` is the type of their errors.
use geth_sev.Prelude.{
  ℕ, ◌==◌, ◌≡◌, ◌≢◌, ◌⊎◌, refl, ap, ◌∙◌, subst, ◌&&◌, not, some, List, [], ◌∷◌, Bytes, IsBytes,
  length, IsMap, lookup, insert, lookup-nil, lookup-cons, insert-IsMap, Result, ok, err, ◌>>=◌,
  ◌>>◌, >>=-eq-ok, ok-injective, map_err, Bool-cases, Result-cases, arith, if◌then◌else◌, inl, inr,
}
use geth_sev.Hex.{HexError, encode_to_string, decode_string, decode-encode, decode_bounds}
use geth_sev.Measurements.{M, Measurement, ValidationOption, enforce, LengthMismatch, check_length}
use geth_sev.Measurements.Equality.{HasValues}
use geth_sev.Measurements.Lengths.{HasLength, check_length_iff}

-- `encodedMeasurement`
pub record EncodedMeasurement : Type 0 where
  pub expected : Bytes
  pub warn_only : ValidationOption

pub record Document (E : Type 0) : Type 0 where
  pub as_object : Result E EncodedMeasurement
  pub as_string : Result E Bytes

pub data EncodingError (E : Type 0) : Type 0 where
  no_document : E → E → EncodingError E
  bad_hex : HexError → EncodingError E
  invalid_length : ℕ → EncodingError E
  inconsistent : LengthMismatch → EncodingError E
  no_map : E → EncodingError E

-- `Measurement.MarshalJSON` and `Measurement.MarshalYAML`, before the object is written out.
unfoldable pub marshal : Measurement → EncodedMeasurement
marshal m = record { expected = encode_to_string m.expected; warn_only = m.validation_opt }

-- What `unmarshal` accepts: bytes, 32 or 48 of them.
abbrev pub IsDigest : Measurement → Type 0
IsDigest m = IsBytes m.expected × ((length m.expected ≡ 32) ⊎ (length m.expected ≡ 48))

abbrev Digests : M → Type 0
Digests [] = Unit
Digests ((k, v) ∷ m) = IsDigest v × Digests m

insert-Digests : (k : ℕ) (v : Measurement) (m : M) → IsDigest v → Digests m → Digests (insert k v m)
unfolding insert
insert-Digests k v [] d h = (d, tt)
insert-Digests k v ((j, w) ∷ m) d h = elim (Bool-cases (j == k)) [
  | inl e ↦ rw e (d, h.1)
  | inr e ↦ rw e (h.0, insert-Digests k v m d h.1)
]

Digests-HasValues : (m : M) → Digests m → HasValues m
Digests-HasValues [] h = tt
Digests-HasValues ((k, v) ∷ m) h = (not_empty h.0.1, Digests-HasValues m h.1)
  where
    not_empty : (length v.expected ≡ 32) ⊎ (length v.expected ≡ 48) → v.expected ≢ []
    not_empty l e = omega (arith, l, ap (length {A = ℕ}) e)

uniform_lengths :
    (m : M) → IsMap m → Digests m → check_length m ≡ ok tt → HasLength 32 m ⊎ HasLength 48 m
uniform_lengths [] u d c = inl λ k v p. ground (arith, lookup-nil {V = Measurement} k)
uniform_lengths ((i, x) ∷ m) u d c = elim d.0.1 [
  | inl l ↦ inl λ k v p. same k v p ∙ l
  | inr l ↦ inr λ k v p. same k v p ∙ l
]
  where
    same :
        (k : ℕ) (v : Measurement)
        → lookup k ((i, x) ∷ m) ≡ some v
        → length v.expected ≡ length x.expected
    same k v p =
        (check_length_iff ((i, x) ∷ m) u (Digests-HasValues ((i, x) ∷ m) d)).0 c k i v x p
          (ground (arith, lookup-cons i i x m))

module _ {E : Type 0} where
  -- The new value of `*m`; an error leaves it alone.
  unmarshal : EncodedMeasurement → Result (EncodingError E) Measurement
  unmarshal em = do
    expected ← map_err bad_hex (decode_string em.expected)
    if not (length expected == 32) && not (length expected == 48)
        then err (invalid_length (length expected))
        else ok (record { expected = expected; validation_opt = em.warn_only })

  -- `Measurement.UnmarshalJSON` and `Measurement.UnmarshalYAML`: a plain string is always enforced.
  unfoldable pub unmarshal_document : Document E → Result (EncodingError E) Measurement
  unfolding unmarshal
  unmarshal_document d = elim d.as_object [
    | ok em ↦ unmarshal em
    | err e ↦ elim d.as_string [
      | ok s ↦ unmarshal (record { expected = s; warn_only = enforce })
      | err legacy ↦ err (no_document e legacy)
    ]
  ]

  -- The reader of JSON hands each entry of the object to the method above, also a null; a repeated
  -- key is overwritten.
  read_entries : M → List (ℕ × Document E) → Result (EncodingError E) M
  read_entries new_m [] = ok new_m
  read_entries new_m ((k, d) ∷ rest) = do
    v ← unmarshal_document d
    read_entries (insert k v new_m) rest

  -- `M.UnmarshalJSON`, of a document whose entries were read; `M.UnmarshalYAML` is in Yaml.
  unfoldable pub unmarshal_m : Result E (List (ℕ × Document E)) → Result (EncodingError E) M
  unfolding read_entries
  unmarshal_m doc = do
    entries ← map_err no_map doc
    new_m ← read_entries [] entries
    map_err inconsistent (check_length new_m)
    ok new_m

  unmarshal-parts :
      (em : EncodedMeasurement) (m : Measurement)
      → unmarshal em ≡ ok m
      → (bs : Bytes) × (decode_string em.expected ≡ ok bs)
        × (bs ≡ m.expected)
        × ((length bs ≡ 32) ⊎ (length bs ≡ 48))
  unfolding unmarshal
  unmarshal-parts em m h = elim (Result-cases (decode_string em.expected)) [
    | inl (bs, z) ↦ (bs, z, ground (arith, z), ground (arith, z))
    | inr (e, z) ↦ absurd (ground (arith, z))
  ]

  unmarshal-IsDigest :
      (em : EncodedMeasurement) (m : Measurement) → unmarshal em ≡ ok m → IsDigest m
  unmarshal-IsDigest em m h =
      let (bs, z, e, l) = unmarshal-parts em m h in
      subst (λ t. IsBytes t × ((length t ≡ 32) ⊎ (length t ≡ 48))) e
        ((decode_bounds em.expected bs z).0, l)

  pub unmarshal_document-IsDigest :
      (d : Document E) (m : Measurement) → unmarshal_document d ≡ ok m → IsDigest m
  unfolding unmarshal_document
  unmarshal_document-IsDigest d m h = elim (Result-cases d.as_object) [
    | inl (em, z) ↦ unmarshal-IsDigest em m (rw (z, unmarshal_document) at h)
    | inr (e, z) ↦ elim (Result-cases d.as_string) [
      | inl (s, y) ↦
          unmarshal-IsDigest (record { expected = s; warn_only = enforce }) m
            (rw (z, y, unmarshal_document) at h)
      | inr (l, y) ↦ absurd (ground arith)
    ]
  ]

  read_entries-IsMap :
      (es : List (ℕ × Document E)) (m n : M)
      → IsMap m
      → Digests m
      → read_entries m es ≡ ok n
      → IsMap n × Digests n
  unfolding read_entries
  read_entries-IsMap [] m n u d h = subst (λ t. IsMap t × Digests t) (ok-injective m n h) (u, d)
  read_entries-IsMap ((k, x) ∷ es) m n u d h =
      let (v, e, h') = >>=-eq-ok (unmarshal_document x) _ h in
      read_entries-IsMap es (insert k v m) n (insert-IsMap k v m u)
        (insert-Digests k v m (unmarshal_document-IsDigest x v e) d) h'

  -- Measurements that were read from a JSON document have one entry for each index, and their values all
  -- have 32 bytes or all have 48.
  pub unmarshal_m_bounds :
      (doc : Result E (List (ℕ × Document E))) (m : M)
      → unmarshal_m doc ≡ ok m
      → IsMap m × (HasLength 32 m ⊎ HasLength 48 m)
  unfolding unmarshal_m
  unmarshal_m_bounds doc m h =
      let (es, e₁, h₁) = >>=-eq-ok (map_err no_map doc) _ h in
      let (n, e₂, h₂) = >>=-eq-ok (read_entries [] es) _ h₁ in
      let (t, e₃, h₃) = >>=-eq-ok (map_err inconsistent (check_length n)) _ h₂ in
      let (u, d) = read_entries-IsMap es [] n tt tt e₂ in
      subst (λ r. IsMap r × (HasLength 32 r ⊎ HasLength 48 r)) (ok-injective n m h₃)
        (u, uniform_lengths n u d (passed (check_length n) e₃))
    where
      passed :
          (r : Result LengthMismatch (Unit {0})) {t : Unit {0}}
          → map_err {F = EncodingError E} inconsistent r ≡ ok t
          → r ≡ ok tt
      passed (ok tt) e = refl
      passed (err l) e = cc

  -- A measurement of 32 or 48 bytes that was written out is read back as it was.
  pub unmarshal-marshal :
      (m : Measurement) (s : Result E Bytes)
      → IsDigest m
      → unmarshal_document (record { as_object = ok (marshal m); as_string = s }) ≡ ok m
  unfolding unmarshal_document marshal
  unmarshal-marshal m s d = rw (decode-encode m.expected d.0) (ground (arith, d.1))
