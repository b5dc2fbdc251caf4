-- ===== src/Prelude/Maps.antt =====
-- Go maps with unsigned keys, as association lists. The order of the list is one order in which
-- `range` may walk the map; the order is unspecified, so theorems speak of every list.
use Prim.Native.Nat.{ℕ, suc, ◌≤◌}
use mathlib.Core.Path.{◌≡◌, refl}
use mathlib.Core.Logic.{◌↔◌}
use mathlib.Core.Bool.{Bool, true, false}
use mathlib.Core.Option.{Option, none, some}
use mathlib.Core.List.{List, [], ◌∷◌}
use native.Mathlib.Omega.{arith}
use geth_sev.Prelude.Tests.{◌==◌, if◌then◌else◌}
use geth_sev.Prelude.Lists.{length, In, Nodup}

abbrev pub Map {ℓ} : Type ℓ → Type ℓ
Map V = List (ℕ × V)

module _ {ℓ} {V : Type ℓ} where
  -- `v, ok := m[k]`
  unfoldable pub lookup : ℕ → Map V → Option V
  lookup k [] = none
  lookup k ((j, v) ∷ m) = if j == k then some v else lookup k m

  -- `m[k] = v`
  unfoldable pub insert : ℕ → V → Map V → Map V
  insert k v [] = (k, v) ∷ []
  insert k v ((j, w) ∷ m) = if j == k then (k, v) ∷ m else (j, w) ∷ insert k v m

  unfoldable pub keys : Map V → List ℕ
  keys [] = []
  keys ((k, v) ∷ m) = k ∷ keys m

  unfoldable pub has : ℕ → Map V → Bool
  unfolding lookup
  has k m = elim (lookup k m) [ none ↦ false | some v ↦ true ]

  delete : ℕ → Map V → Map V
  delete k [] = []
  delete k ((j, v) ∷ m) = if j == k then m else (j, v) ∷ delete k m

-- Each key stands once.
abbrev pub IsMap {ℓ} : {V : Type ℓ} → Map V → Type 0
IsMap [] = Unit
IsMap ((k, v) ∷ m) = (has k m ≡ false) × IsMap m

pub has-nil {ℓ} : (V : Type ℓ) (k : ℕ) → has {V = V} k [] ≡ false
unfolding has
has-nil V k = refl

pub lookup-nil {ℓ} : {V : Type ℓ} (k : ℕ) → lookup {V = V} k [] ≡ none
unfolding lookup
lookup-nil k = refl

module _ {ℓ} {V : Type ℓ} where
  pub lookup-cons :
      (j k : ℕ) (v : V) (m : Map V)
      → lookup j ((k, v) ∷ m) ≡ (if k == j then some v else lookup j m)
  unfolding lookup
  lookup-cons j k v m = refl

  pub has-eq-is_some : (k : ℕ) (m : Map V) (v : V) → lookup k m ≡ some v → has k m ≡ true
  unfolding has
  has-eq-is_some k m v e = ground arith

  pub lookup-insert :
      (j k : ℕ) (v : V) (m : Map V)
      → lookup j (insert k v m) ≡ (if k == j then some v else lookup j m)
  unfolding lookup insert
  lookup-insert j k v [] = refl
  lookup-insert j k v ((i, w) ∷ m) = ground (arith, lookup-insert j k v m)

  pub has-insert :
      (j k : ℕ) (v : V) (m : Map V) → has j (insert k v m) ≡ (if k == j then true else has j m)
  unfolding has
  has-insert j k v m = ground (arith, lookup-insert j k v m)

  pub insert-IsMap : (k : ℕ) (v : V) (m : Map V) → IsMap m → IsMap (insert k v m)
  unfolding insert has
  insert-IsMap k v [] h = (refl, tt)
  insert-IsMap k v ((j, w) ∷ m) h = ground (arith, insert-IsMap k v m h.1, lookup-insert j k v m)

  pub In-keys_iff : (k : ℕ) (m : Map V) → In k (keys m) ↔ (has k m ≡ true)
  unfolding keys has
  In-keys_iff k [] = (λ m. absurd m, λ h. cc)
  In-keys_iff k ((j, v) ∷ m) = ground (arith, In-keys_iff k m)

  pub keys-Nodup : (m : Map V) → IsMap m → Nodup (keys m)
  unfolding keys
  keys-Nodup [] h = tt
  keys-Nodup ((k, v) ∷ m) h = (λ i. ground (arith, h.0, (In-keys_iff k m).0 i), keys-Nodup m h.1)

  has-delete :
      (j k : ℕ) (m : Map V) → IsMap m → has j (delete k m) ≡ (if k == j then false else has j m)
  unfolding has delete
  has-delete j k [] h = ground arith
  has-delete j k ((i, w) ∷ m) h = ground (arith, has-delete j k m h.1)

  delete-IsMap : (k : ℕ) (m : Map V) → IsMap m → IsMap (delete k m)
  unfolding delete
  delete-IsMap k [] h = tt
  delete-IsMap k ((j, w) ∷ m) h = ground (arith, delete-IsMap k m h.1, has-delete j k m h.1)

  length-delete : (k : ℕ) (m : Map V) → has k m ≡ true → length m ≡ suc (length (delete k m))
  unfolding has delete
  length-delete k [] h = cc
  length-delete k ((j, w) ∷ m) h = ground (arith, length-delete k m)

  pub has-cons :
      (j k : ℕ) (v : V) (m : Map V) → has j ((k, v) ∷ m) ≡ (if k == j then true else has j m)
  unfolding has
  has-cons j k v m = ground arith

module _ {ℓ κ} {V : Type ℓ} {W : Type κ} where
  sub-delete :
      (k : ℕ) (v : W) (m : Map W) (o : Map V)
      → IsMap ((k, v) ∷ m)
      → IsMap o
      → ((i : ℕ) → has i ((k, v) ∷ m) ≡ true → has i o ≡ true)
      → (i : ℕ) → has i m ≡ true
      → has i (delete k o) ≡ true
  sub-delete k v m o hm ho sub i p =
      ground (arith, sub i, has-cons i k v m, has-delete i k o ho, hm.0, p)

  length-delete_head :
      (k : ℕ) (v : W) (m : Map W) (o : Map V)
      → ((i : ℕ) → has i ((k, v) ∷ m) ≡ true → has i o ≡ true)
      → length o ≡ suc (length (delete k o))
  length-delete_head k v m o sub = length-delete k o (sub k (ground (arith, has-cons k k v m)))

  -- A map whose keys all stand in another map is no larger.
  pub length_le_of_keys :
      (m : Map W) (o : Map V)
      → IsMap m
      → IsMap o
      → ((k : ℕ) → has k m ≡ true → has k o ≡ true)
      → length m ≤ length o
  length_le_of_keys [] o hm ho sub = omega arith
  length_le_of_keys ((k, v) ∷ m) o hm ho sub = omega (
    arith,
    length-delete_head k v m o sub,
    length_le_of_keys m (delete k o) hm.1 (delete-IsMap k o ho) (sub-delete k v m o hm ho sub),
  )

-- A map whose keys all stand in another map of the same size has all of its keys.
pub has_of_length {ℓ κ} :
    {V : Type ℓ} {W : Type κ} (m : Map W) (o : Map V)
    → IsMap m
    → IsMap o
    → ((k : ℕ) → has k m ≡ true → has k o ≡ true)
    → length m ≡ length o
    → (j : ℕ) → has j o ≡ true
    → has j m ≡ true
has_of_length {V} [] [] hm ho sub e j h = ground (arith, h, has-nil V j)
has_of_length [] (x ∷ o) hm ho sub e j h = absurd (omega arith)
has_of_length ((k, v) ∷ m) o hm ho sub e j h = ground (
  arith,
  has-cons j k v m,
  has-delete j k o ho,
  has_of_length m (delete k o) hm.1 (delete-IsMap k o ho) (sub-delete k v m o hm ho sub)
      (omega (arith, length-delete_head k v m o sub)) j,
)
