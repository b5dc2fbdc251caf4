-- ===== src/Measurements/Copying.antt =====
-- `CopyFrom` and `Copy`.
use geth_sev.Prelude.{
  ℕ, ◌==◌, ◌≡◌, refl, Bool, true, false, none, some, List, [], ◌∷◌, lookup, insert, keys, has,
  lookup-insert, lookup-nil, arith, if◌then◌else◌,
}
use geth_sev.Measurements.{M, Measurement, at, copy_loop, copy_from, copy}

-- What a key reads as while keys are copied.
contains : ℕ → List ℕ → Bool
contains k [] = false
contains k (x ∷ xs) = if x == k then true else contains k xs

contains-keys : (k : ℕ) (m : M) → contains k (keys m) ≡ has k m
unfolding contains keys has
contains-keys k [] = refl
contains-keys k ((j, v) ∷ m) = ground (arith, contains-keys k m)

lookup-copy_loop :
    (k : ℕ) (ks : List ℕ) (other m : M)
    → lookup k (copy_loop ks other m) ≡ (if contains k ks then some (at k other) else lookup k m)
unfolding copy_loop contains
lookup-copy_loop k [] other m = refl
lookup-copy_loop k (j ∷ ks) other m =
    ground (
      arith,
      lookup-copy_loop k ks other (insert j (at j other) m),
      lookup-insert k j (at j other) m,
    )

at_of_has : (k : ℕ) (m : M) → (if has k m then some (at k m) else none) ≡ lookup k m
unfolding at has
at_of_has k m = ground arith

-- After `CopyFrom` a key reads as in the other map where that has it, and as before elsewhere.
pub lookup-copy_from :
    (m other : M) (k : ℕ)
    → lookup k (copy_from m other) ≡ (if has k other then lookup k other else lookup k m)
unfolding copy_from
lookup-copy_from m other k =
    ground
      (arith, lookup-copy_loop k (keys other) other m, contains-keys k other, at_of_has k other)

-- A copy has the values of the original, and no others.
pub lookup-copy : (m : M) (k : ℕ) → lookup k (copy m) ≡ lookup k m
unfolding copy
lookup-copy m k = ground (
  arith,
  lookup-copy_loop k (keys m) m [],
  contains-keys k m,
  at_of_has k m,
  lookup-nil {V = Measurement} k,
)
