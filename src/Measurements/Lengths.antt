-- ===== src/Measurements/Lengths.antt =====
-- `checkLength`.
use geth_sev.Prelude.{
  ℕ, ◌≡◌, ◌≢◌, ◌↔◌, refl, sym, ◌∙◌, some, List, [], ◌∷◌, length, IsMap, lookup, lookup-cons,
  lookup-nil, has-eq-is_some, ok, arith,
}
use geth_sev.Measurements.{M, Measurement, length_loop, check_length}
use geth_sev.Measurements.Equality.{HasValues}

-- Every value read from the map has length `n`.
abbrev pub HasLength : ℕ → M → Type 0
HasLength n m = (k : ℕ) (v : Measurement) → lookup k m ≡ some v → length v.expected ≡ n

length_pos : (b : List ℕ) → b ≢ [] → length b ≢ 0
length_pos [] h e = h refl
length_pos (x ∷ b) h e = omega arith

pub loop_sound : (n : ℕ) (m : M) → n ≢ 0 → length_loop n m ≡ ok tt → HasLength n m
unfolding length_loop
loop_sound n [] h e k v p = ground (arith, lookup-nil {V = Measurement} k)
loop_sound n ((j, w) ∷ m) h e k v p =
    ground (arith, lookup-cons k j w m, loop_sound n m h (ground arith) k v)

loop_complete : (n : ℕ) (m : M) → n ≢ 0 → IsMap m → HasLength n m → length_loop n m ≡ ok tt
unfolding length_loop
loop_complete n [] h u a = refl
loop_complete n ((j, w) ∷ m) h u a = ground (
  arith,
  a j w (ground (arith, lookup-cons j j w m)),
  loop_complete n m h u.1
      (λ k v p. a k v (ground (arith, p, u.0, has-eq-is_some k m v p, lookup-cons k j w m))),
)

first_step :
    (k : ℕ) (v : Measurement) (m : M)
    → v.expected ≢ []
    → check_length ((k, v) ∷ m) ≡ length_loop (length v.expected) m
unfolding check_length
first_step k v m h = refl

-- The values of a map, none of them empty: `checkLength` passes exactly if any two of them have the
-- same length.
pub check_length_iff :
    (m : M)
    → IsMap m
    → HasValues m
    → (check_length m ≡ ok tt) ↔ (
        (j k : ℕ) (v w : Measurement)
        → lookup j m ≡ some v
        → lookup k m ≡ some w
        → length v.expected ≡ length w.expected)
check_length_iff [] u h = (
  λ e j k v w p q. ground (arith, lookup-nil {V = Measurement} j),
  λ a. unfold check_length in refl,
)
check_length_iff ((i, x) ∷ m) u h = (forth, back)
  where
    head : lookup i ((i, x) ∷ m) ≡ some x
    head = ground (arith, lookup-cons i i x m)

    uniform : check_length ((i, x) ∷ m) ≡ ok tt → HasLength (length x.expected) ((i, x) ∷ m)
    uniform e k v p = ground (
      arith,
      lookup-cons k i x m,
      loop_sound (length x.expected) m (length_pos x.expected h.0) (sym (first_step i x m h.0) ∙ e)
          k v,
    )

    forth :
        check_length ((i, x) ∷ m) ≡ ok tt
        → (j k : ℕ) (v w : Measurement) → lookup j ((i, x) ∷ m) ≡ some v
        → lookup k ((i, x) ∷ m) ≡ some w
        → length v.expected ≡ length w.expected
    forth e j k v w p q = uniform e j v p ∙ sym (uniform e k w q)

    back :
        ((j k : ℕ) (v w : Measurement)
          → lookup j ((i, x) ∷ m) ≡ some v
          → lookup k ((i, x) ∷ m) ≡ some w
          → length v.expected ≡ length w.expected)
        → check_length ((i, x) ∷ m) ≡ ok tt
    back a =
        first_step i x m h.0
        ∙ loop_complete (length x.expected) m (length_pos x.expected h.0) u.1 (λ k v p.
          a k i v x (ground (arith, p, u.0, has-eq-is_some k m v p, lookup-cons k i x m)) head)
