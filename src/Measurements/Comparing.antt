-- ===== src/Measurements/Comparing.antt =====
-- `Compare`: what it reports, and that the order in which the map is walked does not show.
use mathlib.Core.List.{append_assoc, append-nil}
use geth_sev.Prelude.{
  ℕ, ◌≡◌, ◌↔◌, refl, sym, ap, ◌∙◌, Bool, true, false, ◌&&◌, not, none, some, List, [], ◌∷◌, ◌++◌,
  In, Map, IsMap, Bytes, lookup, has, keys, In-keys_iff, keys-Nodup, bytes_eq, bytes_eq_iff,
  sort_stable, In-sort_stable, sort-Ascending, Ascending-unique, ltb, Option-cases, has-eq-is_some,
  arith, if◌then◌else◌, inl, inr,
}
use geth_sev.Measurements.{
  M, Measurement, ValidationOption, enforce, warn_only, at, option_eq, reported, Complaint,
  complaint, compare_loop, compare,
}

none-has : {V : Type 0} (k : ℕ) (m : Map V) → lookup k m ≡ none → has k m ≡ true → ⊥
unfolding has
none-has k m e h = ground arith

-- A value that differs from the reported one, at an index with the given option.
differs : M → Map Bytes → ValidationOption → ℕ → Bool
differs m o opt k =
    not (bytes_eq (at k m).expected (reported k o)) && option_eq (at k m).validation_opt opt

complaints : M → Map Bytes → ValidationOption → List ℕ → List Complaint
complaints m o opt [] = []
complaints m o opt (k ∷ ks) =
    if differs m o opt k
    then complaint k (reported k o) ∷ complaints m o opt ks
    else complaints m o opt ks

compare_loop_lem :
    (m : M) (o : Map Bytes) (ks : List ℕ) (ws es : List Complaint)
    → compare_loop m o ks ws es
      ≡ (ws ++ complaints m o warn_only ks, es ++ complaints m o enforce ks)
unfolding compare_loop complaints differs option_eq
compare_loop_lem m o [] ws es = rw (append-nil ws, append-nil es)
compare_loop_lem m o (k ∷ ks) ws es =
    let msg : Complaint = complaint k (reported k o) in
    ground (
      arith,
      compare_loop_lem m o ks (ws ++ msg ∷ []) es,
      compare_loop_lem m o ks ws (es ++ msg ∷ []),
      compare_loop_lem m o ks ws es,
      append_assoc ws (msg ∷ []) (complaints m o warn_only ks),
      append_assoc es (msg ∷ []) (complaints m o enforce ks),
    )

-- The warnings and the errors are those of the differing values, by the option of their index, in
-- ascending order of the indices.
compare_lem :
    (m : M) (o : Map Bytes)
    → let ks = sort_stable ltb (keys m) in
      compare m o ≡ (complaints m o warn_only ks, complaints m o enforce ks)
unfolding compare
compare_lem m o = compare_loop_lem m o (sort_stable ltb (keys m)) [] []

complaints-nil_sound :
    (m : M) (o : Map Bytes) (opt : ValidationOption) (ks : List ℕ)
    → complaints m o opt ks ≡ []
    → (k : ℕ) → In k ks
    → differs m o opt k ≡ false
unfolding complaints
complaints-nil_sound m o opt [] e j i = absurd i
complaints-nil_sound m o opt (k ∷ ks) e j i =
    ground (arith, i, complaints-nil_sound m o opt ks (ground arith) j)

complaints-nil_complete :
    (m : M) (o : Map Bytes) (opt : ValidationOption) (ks : List ℕ)
    → ((k : ℕ) → In k ks → differs m o opt k ≡ false)
    → complaints m o opt ks ≡ []
unfolding complaints
complaints-nil_complete m o opt [] h = refl
complaints-nil_complete m o opt (k ∷ ks) h =
    ground (arith, h k (inl refl), complaints-nil_complete m o opt ks (λ j i. h j (inr i)))

has_sorted : (m : M) (k : ℕ) → In k (sort_stable ltb (keys m)) ↔ (has k m ≡ true)
has_sorted m k = (
  λ i. (In-keys_iff k m).0 ((In-sort_stable ltb k (keys m)).0 i),
  λ h. (In-sort_stable ltb k (keys m)).1 ((In-keys_iff k m).1 h),
)

option_eq_iff : (a b : ValidationOption) → (option_eq a b ≡ true) ↔ (a ≡ b)
unfolding option_eq
option_eq_iff a b = ground arith

differs_iff :
    (m : M) (o : Map Bytes) (k : ℕ) (v : Measurement)
    → lookup k m ≡ some v
    → (differs m o enforce k ≡ false) ↔ (v.validation_opt ≡ enforce → v.expected ≡ reported k o)
unfolding differs at
differs_iff m o k v e = (
  λ d h.
      ground
        (arith, bytes_eq_iff v.expected (reported k o), option_eq_iff v.validation_opt enforce),
  λ h.
      ground
        (arith, h, bytes_eq_iff v.expected (reported k o), option_eq_iff v.validation_opt enforce),
)

-- `Compare` reports no error exactly if every enforced value of the map equals the reported one.
pub compare_passes_iff :
    (m : M) (o : Map Bytes)
    → ((compare m o).1 ≡ []) ↔ (
        (k : ℕ) (v : Measurement)
        → lookup k m ≡ some v
        → v.validation_opt ≡ enforce
        → v.expected ≡ reported k o)
compare_passes_iff m o = (
  λ e k v p. (differs_iff m o k v p).0 (
      complaints-nil_sound m o enforce (sort_stable ltb (keys m)) (rw compare_lem at e) k
        ((has_sorted m k).1 (has-eq-is_some k m v p))),
  λ h. rw compare_lem (
      complaints-nil_complete m o enforce (sort_stable ltb (keys m))
        (λ k i. at_key h k ((has_sorted m k).0 i))),
)
  where
    at_key :
        ((k : ℕ) (v : Measurement)
          → lookup k m ≡ some v
          → v.validation_opt ≡ enforce
          → v.expected ≡ reported k o)
        → (k : ℕ) → has k m ≡ true
        → differs m o enforce k ≡ false
    at_key h k p = elim (Option-cases (lookup k m)) [
      | inl z ↦ absurd (none-has k m z p)
      | inr (v, z) ↦ (differs_iff m o k v z).1 (h k v z)
    ]

at_of_lookup : (k : ℕ) (m n : M) → lookup k m ≡ lookup k n → at k m ≡ at k n
unfolding at
at_of_lookup k m n e = ground arith

loop_agrees :
    (m n : M) (o : Map Bytes) (ks : List ℕ) (ws es : List Complaint)
    → ((k : ℕ) → at k m ≡ at k n)
    → compare_loop m o ks ws es ≡ compare_loop n o ks ws es
unfolding compare_loop
loop_agrees m n o [] ws es h = refl
loop_agrees m n o (k ∷ ks) ws es h =
    let msg : Complaint = complaint k (reported k o) in
    ground (
      arith,
      h k,
      loop_agrees m n o ks (ws ++ msg ∷ []) es h,
      loop_agrees m n o ks ws (es ++ msg ∷ []) h,
      loop_agrees m n o ks ws es h,
    )

has_agrees : (k : ℕ) (m n : M) → lookup k m ≡ lookup k n → has k m ≡ has k n
unfolding has
has_agrees k m n e = ground arith

-- Two walks of the same map give the same warnings and the same errors, in the same order.
pub compare_of_same_map :
    (m n : M) (o : Map Bytes)
    → IsMap m
    → IsMap n
    → ((k : ℕ) → lookup k m ≡ lookup k n)
    → compare m o ≡ compare n o
unfolding compare
compare_of_same_map m n o hm hn e =
    loop_agrees m n o (sort_stable ltb (keys m)) [] [] (λ k. at_of_lookup k m n (e k))
    ∙ ap (λ ks. compare_loop n o ks [] [])
        (Ascending-unique (sort_stable ltb (keys m)) (sort_stable ltb (keys n))
          (sort-Ascending (keys m) (keys-Nodup m hm)) (sort-Ascending (keys n) (keys-Nodup n hn))
          members)
  where
    members : (k : ℕ) → In k (sort_stable ltb (keys m)) ↔ In k (sort_stable ltb (keys n))
    members k = (
      λ i. (has_sorted n k).1 (sym (has_agrees k m n (e k)) ∙ (has_sorted m k).0 i),
      λ i. (has_sorted m k).1 (has_agrees k m n (e k) ∙ (has_sorted n k).0 i),
    )
