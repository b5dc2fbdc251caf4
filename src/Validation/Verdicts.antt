-- ===== src/Validation/Verdicts.antt =====
-- constellation/validation/constraints.go: when each constraint is satisfied.
use geth_sev.Prelude.{
  ℕ, zero, suc, ◌+◌, ◌≡◌, ◌≢◌, refl, ◌↔◌, ◌⊎◌, inl, inr, Bytes, List, [], ◌∷◌, true, Option, none,
  some, Result, ok, err, In, All, arith, subst,
}
use geth_sev.Validation.{
  Constraint, TreeError, Children, no_child, child, append_child, Comparable, equal, not_equal,
  empty, not_empty, one_of, empty_slice, not_empty_slice, if_not_nil, with_trace, all, all_loop,
  apply_all, ErrStrategy, evaluate_all, fail_fast, and_all, or_any, or_loop, first_failure, grouped,
  member,
}

-- Go's `==` decides equality.
abbrev pub IsComparable : {A : Type 0} → Comparable A → Type 0
IsComparable {A} c = (s t : A) → (c.equals s t ≡ true) ↔ (s ≡ t)

module _ {A : Type 0} (c : Comparable A) (law : IsComparable c) where
  member_iff : (s : A) (p : List A) → (member c s p ≡ true) ↔ In s p
  member_iff s [] = (λ h. cc, λ m. absurd m)
  member_iff s (v ∷ p) = ground (arith, law s v, member_iff s p)

  -- Where `==` decides equality: `Equal`, `NotEqual`, `Empty`, `NotEmpty` and `OneOf` are satisfied
  -- exactly by equal values, by different ones, by the zero value, by any other one, and by the
  -- members of the list, and `EmptySlice` and `NotEmptySlice` by the empty list and by all others.
  pub elementary_iff :
      (s t : A) (p : List A)
      → ((equal c s t ≡ none) ↔ (s ≡ t))
        × ((not_equal c s t ≡ none) ↔ (s ≢ t))
        × ((empty c s ≡ none) ↔ (s ≡ c.zero_value))
        × ((not_empty c s ≡ none) ↔ (s ≢ c.zero_value))
        × ((one_of c s p ≡ none) ↔ In s p)
        × ((empty_slice c p ≡ none) ↔ (p ≡ []))
        × ((not_empty_slice c p ≡ none) ↔ (p ≢ []))
  unfolding equal not_equal empty not_empty one_of empty_slice not_empty_slice
  elementary_iff s t p = (
    ground (arith, law s t),
    ground (arith, law s t),
    ground (arith, law s c.zero_value),
    ground (arith, law s c.zero_value),
    ground (arith, member_iff s p),
    lists.0 p,
    lists.1 p,
  )
    where
      lists :
          ((p : List A) → (empty_slice c p ≡ none) ↔ (p ≡ []))
          × ((p : List A) → (not_empty_slice c p ≡ none) ↔ (p ≢ []))
      lists = (
        elim [ [] ↦ ground arith | v ∷ p ↦ ground arith ],
        elim [ [] ↦ ground arith | v ∷ p ↦ ground arith ],
      )

abbrev pub AreSatisfied : List Constraint → Type 0
AreSatisfied cs = All (λ c. c ≡ none) cs

append_child-≢ : (e : TreeError) (failed : Children) → append_child failed e ≢ no_child
append_child-≢ e no_child h = cc
append_child-≢ e (child d rest) h = cc

grouped_iff :
    (message : Bytes) (failed : Children) → (grouped message failed ≡ none) ↔ (failed ≡ no_child)
grouped_iff message no_child = ground arith
grouped_iff message (child e rest) = ground arith

all_loop_iff :
    (cs : List Constraint) (failed : Children)
    → (all_loop cs failed ≡ none) ↔ ((failed ≡ no_child) × AreSatisfied cs)
unfolding all_loop
all_loop_iff [] failed = ground (arith, grouped_iff _ failed)
all_loop_iff (none ∷ cs) failed = ground (arith, all_loop_iff cs failed)
all_loop_iff (some e ∷ cs) failed =
    ground (arith, all_loop_iff cs (append_child failed e), append_child-≢ e failed)

or_loop_iff :
    (cs : List Constraint) (failed : Children)
    → (or_loop cs failed ≡ none) ↔ (((failed ≡ no_child) × (cs ≡ [])) ⊎ In none cs)
unfolding or_loop
or_loop_iff [] failed = ground (arith, grouped_iff _ failed)
or_loop_iff (none ∷ cs) failed = (λ h. inr (inl refl), λ h. refl)
or_loop_iff (some e ∷ cs) failed =
    ground (arith, or_loop_iff cs (append_child failed e), append_child-≢ e failed)

first_failure_iff : (cs : List Constraint) → (first_failure cs ≡ none) ↔ AreSatisfied cs
first_failure_iff [] = ground arith
first_failure_iff (none ∷ cs) = ground (arith, first_failure_iff cs)
first_failure_iff (some e ∷ cs) = ground arith

pub and_all_iff :
    (strategy : ErrStrategy) (cs : List Constraint) → (and_all strategy cs ≡ none) ↔ AreSatisfied cs
unfolding and_all
and_all_iff fail_fast cs = first_failure_iff cs
and_all_iff evaluate_all cs = ground (arith, all_loop_iff cs no_child)

pub or_any_iff : (cs : List Constraint) → (or_any cs ≡ none) ↔ ((cs ≡ []) ⊎ In none cs)
unfolding or_any
or_any_iff cs = ground (arith, or_loop_iff cs no_child)

pub with_trace_iff :
    (found : Result Bytes Bytes) (c : Constraint) → (with_trace found c ≡ none) ↔ (c ≡ none)
unfolding with_trace
with_trace_iff found none = ground arith
with_trace_iff (ok path) (some e) = ground arith
with_trace_iff (err failure) (some e) = ground arith

pub if_not_nil_iff :
    {A : Type 0} (o : Option A) (on : A → Constraint)
    → (if_not_nil o on ≡ none) ↔ ((o ≡ none) ⊎ ((a : A) × (o ≡ some a) × (on a ≡ none)))
unfolding if_not_nil
if_not_nil_iff none on = (λ h. inl refl, λ h. refl)
if_not_nil_iff {A} (some b) on = (λ h. inr (b, refl, h), back)
  where
    back : ((some b ≡ none) ⊎ ((a : A) × (some b ≡ some a) × (on a ≡ none))) → on b ≡ none
    back (inl e) = cc
    back (inr x) = ground (arith, x.1, x.2)

-- The item at an index.
abbrev pub item_at : {A : Type 0} → List A → ℕ → Option A
item_at [] i = none
item_at (v ∷ s) zero = some v
item_at (v ∷ s) (suc i) = item_at s i

some_inj : {A : Type 0} (a b : A) → ◌≡◌ {A = Option A} (some a) (some b) → a ≡ b
some_inj a b e = cc

apply_all-AreSatisfied :
    {A : Type 0} (c : ℕ → A → Constraint) (start : ℕ) (s : List A)
    → ((i : ℕ) (v : A) → item_at s i ≡ some v → c (start + i) v ≡ none)
    → AreSatisfied (apply_all c start s)
apply_all-AreSatisfied c start [] h = tt
apply_all-AreSatisfied c start (w ∷ s) h = (
  subst (λ k. c k w ≡ none) (omega arith) (h 0 w refl),
  apply_all-AreSatisfied c (suc start) s
      (λ i v e. subst (λ k. c k v ≡ none) (omega arith) (h (suc i) v e)),
)

AreSatisfied-apply_all :
    {A : Type 0} (c : ℕ → A → Constraint) (start : ℕ) (s : List A)
    → AreSatisfied (apply_all c start s)
    → (i : ℕ) (v : A) → item_at s i ≡ some v
    → c (start + i) v ≡ none
AreSatisfied-apply_all c start [] h i v e = cc
AreSatisfied-apply_all c start (w ∷ s) h zero v e =
    subst (λ k. c k v ≡ none) (omega arith) (subst (λ x. c start x ≡ none) (some_inj w v e) h.0)
AreSatisfied-apply_all c start (w ∷ s) h (suc i) v e =
    subst (λ k. c k v ≡ none) (omega arith) (AreSatisfied-apply_all c (suc start) s h.1 i v e)

all_iff :
    {A : Type 0} (s : List A) (each : ℕ → A → Constraint)
    → (all s each ≡ none) ↔ ((i : ℕ) (v : A) → item_at s i ≡ some v → each i v ≡ none)
unfolding all
all_iff s each = (
  λ h i v e.
      subst (λ k. each k v ≡ none) (omega arith)
        (AreSatisfied-apply_all each 0 s ((all_loop_iff (apply_all each 0 s) no_child).0 h).1 i v
          e),
  λ h. (all_loop_iff (apply_all each 0 s) no_child).1 (
    refl,
    apply_all-AreSatisfied each 0 s (λ i v e. subst (λ k. each k v ≡ none) (omega arith) (h i v e)),
  ),
)

-- A constraint with a trace is satisfied exactly if it is without. `And` is satisfied, under either
-- strategy, exactly if all of its constraints are. `Or` is satisfied exactly if one of them is, or if
-- there are none. `All` is satisfied exactly if every item satisfies its constraint, at its index.
-- `IfNotNil` is satisfied exactly if there is no value or the constraint holds of it.
pub combinators_iff :
    {A : Type 0} (found : Result Bytes Bytes) (c : Constraint) (cs : List Constraint)
    (strategy : ErrStrategy) (s : List A) (each : ℕ → A → Constraint) (o : Option A)
    (on : A → Constraint)
    → ((with_trace found c ≡ none) ↔ (c ≡ none))
      × ((and_all strategy cs ≡ none) ↔ AreSatisfied cs)
      × ((or_any cs ≡ none) ↔ ((cs ≡ []) ⊎ In none cs))
      × ((all s each ≡ none) ↔ ((i : ℕ) (v : A) → item_at s i ≡ some v → each i v ≡ none))
      × ((if_not_nil o on ≡ none) ↔ ((o ≡ none) ⊎ ((a : A) × (o ≡ some a) × (on a ≡ none))))
combinators_iff {A} found c cs strategy s each o on = (
  with_trace_iff found c,
  and_all_iff strategy cs,
  or_any_iff cs,
  all_iff s each,
  if_not_nil_iff o on,
)
