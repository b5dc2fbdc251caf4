-- ===== src/Prelude/Sort.antt =====
-- `sort.SliceStable` by a Boolean `less`. The library's algorithm is not read: the model is an
-- insertion sort, and the stable order of a list by a weak order is unique.
use Prim.Native.Nat.{ℕ, ◌<◌}
use mathlib.Core.Path.{◌≡◌, refl, sym, subst, ap₂}
use mathlib.Core.Logic.{◌↔◌, ◌⊎◌, inl, inr}
use mathlib.Core.Bool.{Bool, true, false}
use mathlib.Core.List.{List, [], ◌∷◌, Perm}
use mathlib.Core.List.Perm
use native.Mathlib.Omega.{arith}
use geth_sev.Prelude.Tests.{ltb, if◌then◌else◌, Bool-cases}
use geth_sev.Prelude.Lists.{In, Nodup, All, All-In, All_at}

module _ {A : Type 0} (less : A → A → Bool) where
  -- `x` stood before `ys`, so it stays before its equals.
  sort_insert : A → List A → List A
  sort_insert x [] = x ∷ []
  sort_insert x (y ∷ ys) = if less y x then y ∷ sort_insert x ys else x ∷ y ∷ ys

  unfoldable pub sort_stable : List A → List A
  unfolding sort_insert
  sort_stable [] = []
  sort_stable (x ∷ xs) = sort_insert x (sort_stable xs)

  -- No item stands behind one that it is less than.
  abbrev pub IsSorted : List A → Type 0
  IsSorted [] = Unit
  IsSorted (x ∷ xs) = All (λ y. less y x ≡ false) xs × IsSorted xs

  insert-perm : (x : A) (xs : List A) → Perm (sort_insert x xs) (x ∷ xs)
  unfolding sort_insert
  insert-perm x [] = Perm.refl (x ∷ [])
  insert-perm x (y ∷ ys) = elim (Bool-cases (less y x)) [
    | inl e ↦ rw e (Perm.trans (Perm.cons y (insert-perm x ys)) (Perm.swap x y ys))
    | inr e ↦ rw e (Perm.refl (x ∷ y ∷ ys))
  ]

  pub sort_stable-perm : (xs : List A) → Perm (sort_stable xs) xs
  unfolding sort_stable
  sort_stable-perm [] = Perm.refl []
  sort_stable-perm (x ∷ xs) =
      Perm.trans (insert-perm x (sort_stable xs)) (Perm.cons x (sort_stable-perm xs))

  In-insert : (a x : A) (xs : List A) → In a (sort_insert x xs) ↔ ((a ≡ x) ⊎ In a xs)
  unfolding sort_insert
  In-insert a x [] = (λ m. m, λ m. m)
  In-insert a x (y ∷ ys) = ground (arith, In-insert a x ys)

  pub In-sort_stable : (a : A) (xs : List A) → In a (sort_stable xs) ↔ In a xs
  unfolding sort_stable
  In-sort_stable a [] = (λ m. m, λ m. m)
  In-sort_stable a (x ∷ xs) = ground (arith, In-insert a x (sort_stable xs), In-sort_stable a xs)

  module _ (asym : (a b : A) → less a b ≡ true → less b a ≡ false)
      (trans : (a b c : A) → less b a ≡ false → less c b ≡ false → less c a ≡ false) where
    insert-All :
        (z x : A) (xs : List A)
        → less x z ≡ false
        → All (λ y. less y z ≡ false) xs
        → All (λ y. less y z ≡ false) (sort_insert x xs)
    insert-All z x xs h a = All-In (sort_insert x xs) λ b m. elim ((In-insert b x xs).0 m) [
      | inl e ↦ subst (λ w. less w z ≡ false) (sym e) h
      | inr r ↦ All_at (λ y. less y z ≡ false) b xs a r
    ]

    insert-IsSorted : (x : A) (xs : List A) → IsSorted xs → IsSorted (sort_insert x xs)
    unfolding sort_insert
    insert-IsSorted x [] h = (tt, tt)
    insert-IsSorted x (y ∷ ys) h = elim (Bool-cases (less y x)) [
      | inl e ↦ rw e (insert-All y x ys (asym y x e) h.0, insert-IsSorted x ys h.1)
      | inr e ↦
          rw e
            ((e, All-In ys (λ b m. trans x y b e (All_at (λ w. less w y ≡ false) b ys h.0 m))), h)
    ]

    pub sort_stable-IsSorted : (xs : List A) → IsSorted (sort_stable xs)
    unfolding sort_stable
    sort_stable-IsSorted [] = tt
    sort_stable-IsSorted (x ∷ xs) = insert-IsSorted x (sort_stable xs) (sort_stable-IsSorted xs)

-- Strictly ascending numbers.
abbrev pub Ascending : List ℕ → Type 0
Ascending [] = Unit
Ascending (x ∷ xs) = All (λ y. x < y) xs × Ascending xs

insert-Ascending :
    (x : ℕ) (xs : List ℕ) → ¬ In x xs → Ascending xs → Ascending (sort_insert ltb x xs)
unfolding sort_insert
insert-Ascending x [] n h = (tt, tt)
insert-Ascending x (y ∷ ys) n h = elim (Bool-cases (ltb y x)) [
  | inl e ↦ rw e (
    All-In (sort_insert ltb x ys) (λ b m. elim ((In-insert ltb b x ys).0 m) [
      | inl q ↦ ground (arith, q, e)
      | inr r ↦ All_at (λ w. y < w) b ys h.0 r
    ]),
    insert-Ascending x ys (λ m. n (inr m)) h.1,
  )
  | inr e ↦
      let lt : x < y = ground (arith, e, λ (q : x ≡ y). n (inl q)) in
      rw e ((lt, All-In ys (λ b m. omega (arith, lt, All_at (λ w. y < w) b ys h.0 m))), h)
]

pub sort-Ascending : (xs : List ℕ) → Nodup xs → Ascending (sort_stable ltb xs)
unfolding sort_stable
sort-Ascending [] n = tt
sort-Ascending (x ∷ xs) n =
    insert-Ascending x (sort_stable ltb xs) (λ m. n.0 ((In-sort_stable ltb x xs).0 m))
      (sort-Ascending xs n.1)

-- An ascending list is determined by its members.
pub Ascending-unique :
    (xs ys : List ℕ) → Ascending xs → Ascending ys → ((a : ℕ) → In a xs ↔ In a ys) → xs ≡ ys
Ascending-unique [] [] hx hy e = refl
Ascending-unique [] (y ∷ ys) hx hy e = absurd ((e y).1 (inl refl))
Ascending-unique (x ∷ xs) [] hx hy e = absurd ((e x).0 (inl refl))
Ascending-unique (x ∷ xs) (y ∷ ys) hx hy e =
    ap₂ ◌∷◌ heads (Ascending-unique xs ys hx.1 hy.1 (λ a. (forth a, back a)))
  where
    heads : x ≡ y
    heads = elim ((e x).0 (inl refl)) [
      | inl q ↦ q
      | inr m ↦ elim ((e y).1 (inl refl)) [
        | inl q ↦ sym q
        | inr k ↦
            absurd (omega (arith, All_at (λ w. y < w) x ys hy.0 m, All_at (λ w. x < w) y xs hx.0 k))
      ]
    ]

    forth : (a : ℕ) → In a xs → In a ys
    forth a m = elim ((e a).0 (inr m)) [
      | inl q ↦ absurd (omega (arith, q, heads, All_at (λ w. x < w) a xs hx.0 m))
      | inr k ↦ k
    ]

    back : (a : ℕ) → In a ys → In a xs
    back a m = elim ((e a).1 (inr m)) [
      | inl q ↦ absurd (omega (arith, q, heads, All_at (λ w. y < w) a ys hy.0 m))
      | inr k ↦ k
    ]
