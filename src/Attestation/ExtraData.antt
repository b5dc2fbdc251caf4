-- ===== src/Attestation/ExtraData.antt =====
-- The comparison of extra data up to trailing zeros.
use geth_sev.Prelude.{
  ◌≡◌, Bool-cases, inl, inr, ◌≤◌, ◌↔◌, refl, sym, ap, ap₂, ◌∙◌, ℕ, zero, suc, ◌-◌, ◌==◌, ==_iff,
  ltb, Bytes, bytes_eq, length, Bool, true, false, ◌&&◌, [], ◌∷◌, ◌++◌, arith,
}
use geth_sev.Attestation.{zeros, compare_extra_data}

-- The byte at an index, zero beyond the end.
pub byte_at : Bytes → ℕ → ℕ
byte_at [] i = 0
byte_at (b ∷ bs) zero = b
byte_at (b ∷ bs) (suc i) = byte_at bs i

-- Both sides padded to the same length.
padded : Bytes → Bytes → Bytes
unfolding zeros
padded xs ys = xs ++ zeros (length ys - length xs)

same : Bytes → Bytes → Bool
unfolding bytes_eq padded
same xs ys = bytes_eq (padded xs ys) (padded ys xs)

padded_cons : (x y : ℕ) (xs ys : Bytes) → padded (x ∷ xs) (y ∷ ys) ≡ x ∷ padded xs ys
unfolding padded
padded_cons x y xs ys = ap (λ n. x ∷ xs ++ zeros n) (omega arith)

padded_nil : (y : ℕ) (ys : Bytes) → padded [] (y ∷ ys) ≡ 0 ∷ padded [] ys
unfolding padded zeros
padded_nil y ys = ap zeros (minus_zero (length ys))
  where
    minus_zero : (n : ℕ) → suc n - 0 ≡ suc (n - 0)
    minus_zero n = omega arith

padded_over : (x : ℕ) (xs : Bytes) → padded (x ∷ xs) [] ≡ x ∷ padded xs []
unfolding padded
padded_over x xs = ap (λ n. x ∷ xs ++ zeros n) (omega arith)

same_cons : (x y : ℕ) (xs ys : Bytes) → same (x ∷ xs) (y ∷ ys) ≡ ((x == y) && same xs ys)
unfolding same bytes_eq
same_cons x y xs ys = ap₂ bytes_eq (padded_cons x y xs ys) (padded_cons y x ys xs)

same_left : (y : ℕ) (ys : Bytes) → same [] (y ∷ ys) ≡ ((0 == y) && same [] ys)
unfolding same bytes_eq
same_left y ys = ap₂ bytes_eq (padded_nil y ys) (padded_over y ys)

same_right : (x : ℕ) (xs : Bytes) → same (x ∷ xs) [] ≡ ((x == 0) && same xs [])
unfolding same bytes_eq
same_right x xs = ap₂ bytes_eq (padded_over x xs) (padded_nil x xs)

-- The bytes agree at every index.
abbrev pub Agree : Bytes → Bytes → Type 0
Agree xs ys = (i : ℕ) → byte_at xs i ≡ byte_at ys i

Agree-cons :
    (b : Bool) (x y : ℕ) (xs ys : Bytes)
    → ((b ≡ true) ↔ Agree xs ys)
    → (((x == y) && b) ≡ true) ↔ ((x ≡ y) × Agree xs ys)
Agree-cons true x y xs ys h =
    (λ e. ((==_iff x y).0 (ground arith), h.0 refl), λ p. ground (arith, (==_iff x y).1 p.0))
Agree-cons false x y xs ys h = (λ e. absurd (ground arith), λ p. ground (arith, h.1 p.1))

Agree-at :
    (xs ys xs' ys' : Bytes) (x y : ℕ)
    → ((i : ℕ) → byte_at xs' (suc i) ≡ byte_at xs i)
    → ((i : ℕ) → byte_at ys' (suc i) ≡ byte_at ys i)
    → byte_at xs' 0 ≡ x
    → byte_at ys' 0 ≡ y
    → ((x ≡ y) × Agree xs ys) ↔ Agree xs' ys'
Agree-at xs ys xs' ys' x y hx hy x0 y0 =
    (forth, λ a. (sym x0 ∙ a 0 ∙ y0, λ i. sym (hx i) ∙ a (suc i) ∙ hy i))
  where
    forth : (x ≡ y) × Agree xs ys → Agree xs' ys'
    forth (e, a) zero = x0 ∙ e ∙ sym y0
    forth (e, a) (suc i) = hx i ∙ a i ∙ sym (hy i)

both : {A B C : Type 0} → (A ↔ B) → (B ↔ C) → A ↔ C
both f g = (λ a. g.0 (f.0 a), λ c. f.1 (g.1 c))

same_iff : (xs ys : Bytes) → (same xs ys ≡ true) ↔ Agree xs ys
unfolding byte_at
same_iff [] [] = (λ e i. refl, λ a. unfold same padded zeros bytes_eq in refl)
same_iff [] (y ∷ ys) = rw (same_left y ys) (
    both (Agree-cons (same [] ys) 0 y [] ys (same_iff [] ys))
      (Agree-at [] ys [] (y ∷ ys) 0 y (λ i. refl) (λ i. refl) refl refl))
same_iff (x ∷ xs) [] = rw (same_right x xs) (
    both (Agree-cons (same xs []) x 0 xs [] (same_iff xs []))
      (Agree-at xs [] (x ∷ xs) [] x 0 (λ i. refl) (λ i. refl) refl refl))
same_iff (x ∷ xs) (y ∷ ys) = rw (same_cons x y xs ys) (
    both (Agree-cons (same xs ys) x y xs ys (same_iff xs ys))
      (Agree-at xs ys (x ∷ xs) (y ∷ ys) x y (λ i. refl) (λ i. refl) refl refl))

append_nil : (xs : Bytes) → xs ++ [] ≡ xs
append_nil [] = refl
append_nil (x ∷ xs) = ap (◌∷◌ x) (append_nil xs)

padded_none : (xs ys : Bytes) → length ys ≤ length xs → padded xs ys ≡ xs
unfolding padded zeros
padded_none xs ys h = ap (λ n. xs ++ zeros n) (none_left (length ys) (length xs) h) ∙ append_nil xs
  where
    none_left : (a b : ℕ) → a ≤ b → a - b ≡ 0
    none_left a b h = omega (arith, h)

compare_same : (q e : Bytes) → compare_extra_data q e ≡ same q e
unfolding compare_extra_data same
compare_same q e = elim (Bool-cases (length q == length e)) [
  | inl y ↦
      rw (y, compare_extra_data)
        (sym (ap₂ bytes_eq (padded_none q e (ground arith)) (padded_none e q (ground arith))))
  | inr n ↦ elim (Bool-cases (ltb (length q) (length e))) [
    | inl l ↦
        rw (n, l, compare_extra_data)
          (ap (bytes_eq (padded q e)) (sym (padded_none e q (ground arith))))
    | inr l ↦
        rw (n, l, compare_extra_data)
          (ap (λ z. bytes_eq z (padded e q)) (sym (padded_none q e (ground arith))))
  ]
]

-- Extra data compares as equal exactly if the two agree at every index, where bytes beyond the end
-- count as zero.
pub compare_extra_data_iff : (q e : Bytes) → (compare_extra_data q e ≡ true) ↔ Agree q e
compare_extra_data_iff q e = rw (compare_same q e) (same_iff q e)
