-- ===== src/Measurements/Enforced.antt =====
-- `SetEnforced` and `GetEnforced`.
use geth_sev.Prelude.{
  ℕ, ◌==◌, ◌≡◌, ◌↔◌, ◌⊎◌, refl, sym, Bool, true, false, Option, none, some, List, [], ◌∷◌, In,
  IsMap, lookup, insert, lookup-insert, insert-IsMap, has, ok, err, Option-cases, has-eq-is_some,
  subst, arith, if◌then◌else◌, inl, inr,
}
use geth_sev.Measurements.{
  M, Measurement, enforce, at, option_eq, get_enforced, all_warn, enforce_loop, set_enforced,
}

is_enforced : ℕ → M → Bool
unfolding option_eq
is_enforced k m = elim (lookup k m) [ none ↦ false | some v ↦ option_eq v.validation_opt enforce ]

In-get_enforced : (k : ℕ) (m : M) → IsMap m → In k (get_enforced m) ↔ (is_enforced k m ≡ true)
unfolding get_enforced is_enforced lookup has
In-get_enforced k [] h = (λ i. absurd i, λ e. cc)
In-get_enforced k ((j, v) ∷ m) h = ground (arith, In-get_enforced k m h.1, h.0)

-- What a step of the loop keeps: every entry but its option.
abbrev SameValues : M → M → Type 0
SameValues m n = (k : ℕ) → (has k m ≡ has k n) × ((at k m).expected ≡ (at k n).expected)

all_warn_lem :
    (m : M) (k : ℕ)
    → (has k (all_warn m) ≡ has k m)
      × ((at k (all_warn m)).expected ≡ (at k m).expected)
      × (is_enforced k (all_warn m) ≡ false)
unfolding all_warn has at is_enforced lookup
all_warn_lem [] k = (refl, refl, refl)
all_warn_lem ((j, v) ∷ m) k = ground (arith, all_warn_lem m k)

all_warn-IsMap : (m : M) → IsMap m → IsMap (all_warn m)
unfolding all_warn
all_warn-IsMap [] h = tt
all_warn-IsMap ((k, v) ∷ m) h = (ground (arith, (all_warn_lem m k).0, h.0), all_warn-IsMap m h.1)

abbrev enforced_at : ℕ → Measurement → M → M
enforced_at i v m = insert i (record v { validation_opt = enforce }) m

step_lem :
    (i : ℕ) (v : Measurement) (m : M) (k : ℕ)
    → lookup i m ≡ some v
    → (has k (enforced_at i v m) ≡ has k m)
      × ((at k (enforced_at i v m)).expected ≡ (at k m).expected)
      × (is_enforced k (enforced_at i v m) ≡ (if i == k then true else is_enforced k m))
unfolding has at is_enforced
step_lem i v m k e = ground (arith, lookup-insert k i (record v { validation_opt = enforce }) m)

loop_lem :
    (es : List ℕ) (m n : M) (k : ℕ)
    → enforce_loop es m ≡ ok n
    → (has k n ≡ has k m)
      × ((at k n).expected ≡ (at k m).expected)
      × ((is_enforced k n ≡ true) ↔ ((is_enforced k m ≡ true) ⊎ In k es))
unfolding enforce_loop
loop_lem [] m n k e = ground arith
loop_lem (i ∷ es) m n k e = elim (Option-cases (lookup i m)) [
  | inl z ↦ absurd (ground arith)
  | inr (v, z) ↦
      ground (arith, step_lem i v m k z, loop_lem es (enforced_at i v m) n k (ground arith))
]

loop-IsMap : (es : List ℕ) (m n : M) → IsMap m → enforce_loop es m ≡ ok n → IsMap n
unfolding enforce_loop
loop-IsMap [] m n h e = subst IsMap (ground arith) h
loop-IsMap (i ∷ es) m n h e = elim (Option-cases (lookup i m)) [
  | inl z ↦ absurd (ground arith)
  | inr (v, z) ↦
      loop-IsMap es (enforced_at i v m) n
        (insert-IsMap i (record v { validation_opt = enforce }) m h) (ground arith)
]

-- After `SetEnforced` succeeds, exactly the listed indices are enforced, the indices are those of
-- before, and so are the expected values.
pub get_enforced-set_enforced :
    (m n : M) (es : List ℕ)
    → IsMap m
    → set_enforced m es ≡ ok n
    → (k : ℕ)
    → (In k (get_enforced n) ↔ In k es)
      × (has k n ≡ has k m)
      × ((at k n).expected ≡ (at k m).expected)
unfolding set_enforced
get_enforced-set_enforced m n es h e k = ground (
  arith,
  In-get_enforced k n (loop-IsMap es (all_warn m) n (all_warn-IsMap m h) e),
  all_warn_lem m k,
  loop_lem es (all_warn m) n k e,
)

-- The first listed index that the map lacks.
pub first_missing : List ℕ → M → Option ℕ
first_missing [] m = none
first_missing (i ∷ es) m = if has i m then first_missing es m else some i

first_missing_agrees :
    (es : List ℕ) (m n : M)
    → ((k : ℕ) → has k m ≡ has k n)
    → first_missing es m ≡ first_missing es n
unfolding first_missing
first_missing_agrees [] m n h = refl
first_missing_agrees (i ∷ es) m n h = ground (arith, h i, first_missing_agrees es m n h)

loop-error :
    (es : List ℕ) (m : M) (i : ℕ) → (enforce_loop es m ≡ err i) ↔ (first_missing es m ≡ some i)
unfolding enforce_loop first_missing
loop-error [] m i = (λ e. ground arith, λ e. ground arith)
loop-error (j ∷ es) m i = elim (Option-cases (lookup j m)) [
  | inl z ↦ unfold has in ground (arith, z)
  | inr (v, z) ↦ ground (
    arith,
    z,
    has-eq-is_some j m v z,
    loop-error es (enforced_at j v m) i,
    first_missing_agrees es m (enforced_at j v m) (λ k. sym (step_lem j v m k z).0),
  )
]

-- `SetEnforced` fails exactly if some listed index is not in the map, and names the first such.
pub set_enforced-error_iff :
    (m : M) (es : List ℕ) (i : ℕ) → (set_enforced m es ≡ err i) ↔ (first_missing es m ≡ some i)
unfolding set_enforced
set_enforced-error_iff m es i = ground (
  arith,
  loop-error es (all_warn m) i,
  first_missing_agrees es m (all_warn m) (λ k. sym (all_warn_lem m k).0),
)
