-- ===== src/Measurements/Equality.antt =====
-- `EqualTo` compares maps, whatever the order of their walks.
use geth_sev.Prelude.{
  ℕ, ◌≡◌, ◌≢◌, ◌↔◌, refl, sym, ◌∙◌, Bool, ◌&&◌, true, false, none, some, [], ◌∷◌, length, IsMap,
  lookup, lookup-cons, has-nil, has, has-cons, has_of_length, length_le_of_keys, bytes_eq,
  bytes_eq_iff, Bool-cases, Option-cases, arith, inl, inr,
}
use geth_sev.Measurements.{M, Measurement, ValidationOption, at, option_eq, all_equal, equal_to}

-- No expected value is empty: what `unmarshal` guarantees.
abbrev pub HasValues : M → Type 0
HasValues [] = Unit
HasValues ((k, v) ∷ m) = (v.expected ≢ []) × HasValues m

option_eq_iff : (a b : ValidationOption) → (option_eq a b ≡ true) ↔ (a ≡ b)
unfolding option_eq
option_eq_iff a b = ground arith

-- Every key of `m` reads in `o` as in `m`.
abbrev Within : M → M → Type 0
Within m o = (k : ℕ) → has k m ≡ true → lookup k m ≡ lookup k o

-- Two measurements agree in both fields.
same : Measurement → Measurement → Bool
unfolding option_eq
same v w = bytes_eq v.expected w.expected && option_eq v.validation_opt w.validation_opt

same_iff : (v w : Measurement) → (same v w ≡ true) ↔ (v ≡ w)
unfolding same
same_iff v w =
    ground
      (arith, bytes_eq_iff v.expected w.expected, option_eq_iff v.validation_opt w.validation_opt)

all_equal-cons :
    (k : ℕ) (v : Measurement) (m o : M)
    → all_equal ((k, v) ∷ m) o ≡ (same v (at k o) && all_equal m o)
unfolding all_equal same
all_equal-cons k v m o = ground arith

-- A value that is not empty is read from an entry.
lookup_of_at :
    (k : ℕ) (v : Measurement) (o : M) → v.expected ≢ [] → v ≡ at k o → some v ≡ lookup k o
unfolding at
lookup_of_at k v o h e = elim (Option-cases (lookup k o)) [
  | inl z ↦ absurd (h (ground (arith, e, z)))
  | inr (w, z) ↦ ground (arith, e, z)
]

at_of_lookup : (k : ℕ) (v : Measurement) (o : M) → some v ≡ lookup k o → v ≡ at k o
unfolding at
at_of_lookup k v o e = ground arith

all_equal_sound : (m o : M) → IsMap m → HasValues m → all_equal m o ≡ true → Within m o
all_equal_sound [] o h v e k p = ground (arith, has-nil Measurement k)
all_equal_sound ((j, w) ∷ m) o h v e k p =
    let split = all_equal-cons j w m o in
    let parts : (same w (at j o) ≡ true) × (all_equal m o ≡ true) = ground arith in
    ground (
      arith,
      all_equal_sound m o h.1 v.1 parts.1 k,
      lookup_of_at j w o v.0 ((same_iff w (at j o)).0 parts.0),
      has-cons k j w m,
      lookup-cons k j w m,
    )

all_equal_complete : (m o : M) → IsMap m → Within m o → all_equal m o ≡ true
all_equal_complete [] o h w = unfold all_equal in refl
all_equal_complete ((j, v) ∷ m) o h w = ground (
  arith,
  all_equal-cons j v m o,
  (same_iff v (at j o)).1 (at_of_lookup j v o head),
  all_equal_complete m o h.1 rest,
)
  where
    head : some v ≡ lookup j o
    head = ground (arith, w j, has-cons j j v m, lookup-cons j j v m)

    rest : Within m o
    rest k p = ground (arith, p, h.0, w k, has-cons k j v m, lookup-cons k j v m)

has_of_lookup : (k : ℕ) (m o : M) → lookup k m ≡ lookup k o → has k m ≡ has k o
unfolding has
has_of_lookup k m o e = ground arith

lookup_of_not_has : (k : ℕ) (m : M) → has k m ≡ false → lookup k m ≡ none
unfolding has
lookup_of_not_has k m e = ground arith

length_of_same_keys :
    (m o : M) → IsMap m → IsMap o → ((k : ℕ) → has k m ≡ has k o) → length m ≡ length o
length_of_same_keys m o hm ho e = omega (
  arith,
  length_le_of_keys m o hm ho (λ k p. sym (e k) ∙ p),
  length_le_of_keys o m ho hm (λ k p. e k ∙ p),
)

equal_to_split : (m o : M) → equal_to m o ≡ true → (length m ≡ length o) × (all_equal m o ≡ true)
unfolding equal_to
equal_to_split m o h = ground arith

equal_to_join : (m o : M) → length m ≡ length o → all_equal m o ≡ true → equal_to m o ≡ true
unfolding equal_to
equal_to_join m o e h = ground arith

equal_to_sound :
    (m o : M)
    → IsMap m
    → IsMap o
    → HasValues m
    → equal_to m o ≡ true
    → (k : ℕ) → lookup k m ≡ lookup k o
equal_to_sound m o hm ho v h k = elim (Bool-cases (has k m)) [
  | inl p ↦ within k p
  | inr p ↦ lookup_of_not_has k m p ∙ sym (lookup_of_not_has k o (ground (arith, p, back)))
]
  where
    parts : (length m ≡ length o) × (all_equal m o ≡ true)
    parts = equal_to_split m o h

    within : Within m o
    within = all_equal_sound m o hm v parts.1

    back : has k o ≡ true → has k m ≡ true
    back = has_of_length m o hm ho (λ i q. sym (has_of_lookup i m o (within i q)) ∙ q) parts.0 k

-- Of two maps, the first with no empty value: `EqualTo` holds exactly if every key reads alike.
pub equal_to_iff :
    (m o : M)
    → IsMap m
    → IsMap o
    → HasValues m
    → (equal_to m o ≡ true) ↔ ((k : ℕ) → lookup k m ≡ lookup k o)
equal_to_iff m o hm ho v = (
  equal_to_sound m o hm ho v,
  λ e.
      equal_to_join m o (length_of_same_keys m o hm ho (λ k. has_of_lookup k m o (e k)))
        (all_equal_complete m o hm (λ k p. e k)),
)
