-- ===== src/Measurements/Yaml.antt =====
-- constellation/attestation/measurements/measurements.go: reading measurements from YAML, where a
-- null entry does not reach the method of `Measurement`.
use geth_sev.Prelude.{
  ℕ, ◌==◌, ◌≡◌, ◌≢◌, ◌⊎◌, refl, sym, ap, ◌∙◌, subst, Option, none, some, List, [], ◌∷◌, length,
  IsMap, lookup, insert, lookup-nil, lookup-cons, lookup-insert, insert-IsMap, Result, ok, ◌>>=◌,
  ◌>>◌, >>=-eq-ok, ok-injective, map_err, map_err-ok, Bool-cases, arith, inl, inr, ==_iff,
  has-eq-is_some,
}
use geth_sev.Measurements.{M, Measurement, enforce, check_length, length_loop}
use geth_sev.Measurements.Encoding.{
  Document, EncodingError, no_map, inconsistent, unmarshal_document, unmarshal_document-IsDigest,
  unmarshal_m, unmarshal_m_bounds,
}
use geth_sev.Measurements.Lengths.{HasLength, loop_sound}

-- `Measurement{}`
abbrev pub zero_measurement : Measurement
zero_measurement = record { expected = []; validation_opt = enforce }

abbrev HasLengthOrNone : ℕ → M → Type 0
HasLengthOrNone n m =
    (k : ℕ) (v : Measurement)
    → lookup k m ≡ some v
    → (length v.expected ≡ n) ⊎ (length v.expected ≡ 0)

cons-HasLengthOrNone :
    (n j : ℕ) (w : Measurement) (m : M)
    → (length w.expected ≡ n) ⊎ (length w.expected ≡ 0)
    → HasLengthOrNone n m
    → HasLengthOrNone n ((j, w) ∷ m)
cons-HasLengthOrNone n j w m here there k v p =
    ground (arith, p, here, there k v, lookup-cons k j w m)

from_loop :
    (n j : ℕ) (w : Measurement) (m : M)
    → n ≢ 0
    → length w.expected ≡ n
    → length_loop (length w.expected) m ≡ ok tt
    → HasLengthOrNone n ((j, w) ∷ m)
from_loop n j w m z e h =
    cons-HasLengthOrNone n j w m (inl e)
      (λ k v p. inl (loop_sound n m z (ap (λ l. length_loop l m) (sym e) ∙ h) k v p))

module _ {E : Type 0} where
  -- The reader stores a zero measurement for a null, which is `none`.
  read_yaml_entries : M → List (ℕ × Option (Document E)) → Result (EncodingError E) M
  read_yaml_entries new_m [] = ok new_m
  read_yaml_entries new_m ((k, none) ∷ rest) =
      read_yaml_entries (insert k zero_measurement new_m) rest
  read_yaml_entries new_m ((k, some d) ∷ rest) = do
    v ← unmarshal_document d
    read_yaml_entries (insert k v new_m) rest

  -- `M.UnmarshalYAML`, of a document whose entries were read.
  unfoldable pub unmarshal_m_yaml :
      Result E (List (ℕ × Option (Document E))) → Result (EncodingError E) M
  unfolding read_yaml_entries
  unmarshal_m_yaml doc = do
    entries ← map_err no_map doc
    new_m ← read_yaml_entries [] entries
    map_err inconsistent (check_length new_m)
    ok new_m

  -- The entries have a null at this index.
  abbrev pub IsNullAt : ℕ → List (ℕ × Option (Document E)) → Type 0
  IsNullAt k [] = ⊥
  IsNullAt k ((j, none) ∷ es) = (k ≡ j) ⊎ IsNullAt k es
  IsNullAt k ((j, some d) ∷ es) = IsNullAt k es

  -- Every value has this length, or it has no bytes and its entry is a null.
  abbrev pub HasLengthOrNull : ℕ → List (ℕ × Option (Document E)) → M → Type 0
  HasLengthOrNull n es m =
      (k : ℕ) (v : Measurement)
      → lookup k m ≡ some v
      → (length v.expected ≡ n) ⊎ ((length v.expected ≡ 0) × IsNullAt k es)

  abbrev IsRead : List (ℕ × Option (Document E)) → ℕ → Measurement → Type 0
  IsRead es k v =
      ((length v.expected ≡ 32) ⊎ (length v.expected ≡ 48))
      ⊎ ((length v.expected ≡ 0) × IsNullAt k es)

  abbrev AreRead : List (ℕ × Option (Document E)) → M → Type 0
  AreRead es m = (k : ℕ) (v : Measurement) → lookup k m ≡ some v → IsRead es k v

  insert-AreRead :
      (es : List (ℕ × Option (Document E))) (j : ℕ) (w : Measurement) (m : M)
      → IsRead es j w
      → AreRead es m
      → AreRead es (insert j w m)
  insert-AreRead es j w m r h k v p = elim (Bool-cases (j == k)) [
    | inl y ↦
        let e : j ≡ k = (==_iff j k).0 y in
        let same : w ≡ v = ground (arith, p, y, lookup-insert k j w m) in
        subst (λ i. IsRead es i v) e (subst (λ x. IsRead es j x) same r)
    | inr n ↦ h k v (ground (arith, p, n, lookup-insert k j w m))
  ]

  read_yaml_entries-AreRead :
      (all es : List (ℕ × Option (Document E))) (m n : M)
      → ((k : ℕ) → IsNullAt k es → IsNullAt k all)
      → IsMap m
      → AreRead all m
      → read_yaml_entries m es ≡ ok n
      → IsMap n × AreRead all n
  unfolding read_yaml_entries
  read_yaml_entries-AreRead all [] m n within u r h =
      subst (λ t. IsMap t × AreRead all t) (ok-injective m n h) (u, r)
  read_yaml_entries-AreRead all ((j, none) ∷ es) m n within u r h =
      read_yaml_entries-AreRead all es (insert j zero_measurement m) n (λ k s. within k (inr s))
        (insert-IsMap j zero_measurement m u)
        (insert-AreRead all j zero_measurement m (inr (refl, within j (inl refl))) r) h
  read_yaml_entries-AreRead all ((j, some d) ∷ es) m n within u r h =
      let (v, e, h₁) = >>=-eq-ok (unmarshal_document d) _ h in
      read_yaml_entries-AreRead all es (insert j v m) n within (insert-IsMap j v m u)
        (insert-AreRead all j v m (inl (unmarshal_document-IsDigest d v e).1) r) h₁

  -- The loop of `checkLength` passes over leading values without bytes.
  uniform_or_none :
      (es : List (ℕ × Option (Document E))) (m : M)
      → IsMap m
      → AreRead es m
      → length_loop 0 m ≡ ok tt
      → HasLengthOrNone 32 m ⊎ HasLengthOrNone 48 m
  unfolding length_loop
  uniform_or_none es [] u r h = inl λ k v p. ground (arith, lookup-nil {V = Measurement} k)
  uniform_or_none es ((j, w) ∷ m) u r h = elim (r j w (ground (arith, lookup-cons j j w m))) [
    | inl (inl e) ↦ inl (from_loop 32 j w m (λ z. cc) e h)
    | inl (inr e) ↦ inr (from_loop 48 j w m (λ z. cc) e h)
    | inr (z, null) ↦ elim (uniform_or_none es m u.1 tail (ap (λ l. length_loop l m) (sym z) ∙ h)) [
      | inl a ↦ inl (cons-HasLengthOrNone 32 j w m (inr z) a)
      | inr a ↦ inr (cons-HasLengthOrNone 48 j w m (inr z) a)
    ]
  ]
    where
      tail : AreRead es m
      tail k v p = r k v (ground (arith, p, u.0, has-eq-is_some k m v p, lookup-cons k j w m))

  bounded :
      (es : List (ℕ × Option (Document E))) (n : ℕ) (m : M)
      → n ≢ 0
      → (n ≡ 32) ⊎ (n ≡ 48)
      → AreRead es m
      → HasLengthOrNone n m
      → HasLengthOrNull n es m
  bounded es n m z c r h k v p = ground (arith, r k v p, h k v p)

  -- Measurements that were read from a document have one entry for each index. From JSON their values
  -- all have 32 bytes or all have 48. From YAML that holds but for the entries that are null: their
  -- values may have no bytes.
  pub readers_bounds :
      (doc : Result E (List (ℕ × Document E))) (entries : List (ℕ × Option (Document E))) (m n : M)
      → unmarshal_m doc ≡ ok m
      → unmarshal_m_yaml (ok entries) ≡ ok n
      → (IsMap m × (HasLength 32 m ⊎ HasLength 48 m))
        × (IsMap n × (HasLengthOrNull 32 entries n ⊎ HasLengthOrNull 48 entries n))
  unfolding unmarshal_m_yaml
  readers_bounds doc entries m n hm hn =
      let (r, e₂, h₂) = >>=-eq-ok (read_yaml_entries [] entries) _ hn in
      let (t, e₃, h₃) = >>=-eq-ok (map_err inconsistent (check_length r)) _ h₂ in
      let (u, read) =
        read_yaml_entries-AreRead entries entries [] r (λ k s. s) tt
          (λ k v p. ground (arith, lookup-nil {V = Measurement} k)) e₂ in
      (
        unmarshal_m_bounds doc m hm,
        subst (λ x. IsMap x × (HasLengthOrNull 32 entries x ⊎ HasLengthOrNull 48 entries x))
            (ok-injective r n h₃)
            (
              u,
              (elim (uniform_or_none entries r u read (passed r (map_err-ok _ _ tt e₃))) [
                | inl a ↦ inl (bounded entries 32 r (λ z. cc) (inl refl) read a)
                | inr a ↦ inr (bounded entries 48 r (λ z. cc) (inr refl) read a)
              ]),
            ),
      )
    where
      passed : (r : M) → check_length r ≡ ok tt → length_loop 0 r ≡ ok tt
      passed r h = unfold check_length in h
