-- ===== src/Variant/Duplicates.antt =====
-- `RemoveDuplicate` keeps the first of equal items.
use mathlib.Core.List.{append_assoc, append-nil}
use geth_sev.Prelude.{
  ◌≡◌, ◌↔◌, ◌⊎◌, inl, inr, sym, subst, ◌∙◌, Bool, true, false, Bool-cases, List, [], ◌∷◌, ◌++◌, In,
  Nodup, In-append_left, In-append_right, In-append_cases, arith,
}
use geth_sev.Variant.{seen, remove_loop, remove_duplicate}

module _ {A : Type 0} (eq : A → A → Bool) (law : (a b : A) → (eq a b ≡ true) ↔ (a ≡ b)) where
  seen_iff : (a : A) (xs : List A) → (seen eq a xs ≡ true) ↔ In a xs
  unfolding seen
  seen_iff a [] = (λ h. cc, λ m. absurd m)
  seen_iff a (x ∷ xs) = ground (arith, law a x, seen_iff a xs)

  Nodup-snoc : (xs : List A) (a : A) → Nodup xs → ¬ In a xs → Nodup (xs ++ a ∷ [])
  Nodup-snoc [] a n h = (λ m. m, tt)
  Nodup-snoc (x ∷ xs) a n h = (
    λ m. elim (In-append_cases x xs (a ∷ []) m) [
      | inl l ↦ n.0 l
      | inr r ↦ elim r [ inl e ↦ h (inl (sym e)) | inr z ↦ z ]
    ],
    Nodup-snoc xs a n.1 (λ m. h (inr m)),
  )

  loop-Nodup : (list items : List A) → Nodup list → Nodup (remove_loop eq list items)
  unfolding remove_loop
  loop-Nodup list [] n = n
  loop-Nodup list (x ∷ rest) n = elim (Bool-cases (seen eq x list)) [
    | inl e ↦ rw e (loop-Nodup list rest n)
    | inr e ↦ rw e (
        loop-Nodup (list ++ x ∷ []) rest
          (Nodup-snoc list x n (λ m. absurd (clash (sym e ∙ (seen_iff x list).1 m)))))
  ]
    where
      clash : false ≡ true → ⊥
      clash c = cc

  loop-In :
      (a : A) (list items : List A) → In a (remove_loop eq list items) ↔ (In a list ⊎ In a items)
  unfolding remove_loop
  loop-In a list [] = (inl, λ s. elim s [ inl m ↦ m | inr m ↦ absurd m ])
  loop-In a list (x ∷ rest) = elim (Bool-cases (seen eq x list)) [
    | inl e ↦
        let ih = loop-In a list rest in
        let old = (seen_iff x list).0 e in
        rw e (
          λ m. elim (ih.0 m) [ inl l ↦ inl l | inr r ↦ inr (inr r) ],
          λ s. ih.1 (elim s [
            | inl l ↦ inl l
            | inr r ↦ elim r [ inl q ↦ inl (subst (λ y. In y list) (sym q) old) | inr z ↦ inr z ]
          ]),
        )
    | inr e ↦
        let ih = loop-In a (list ++ x ∷ []) rest in
        rw e (
          λ m. elim (ih.0 m) [
            | inl l ↦ elim (In-append_cases a list (x ∷ []) l) [
              | inl u ↦ inl u
              | inr u ↦ elim u [ inl q ↦ inr (inl q) | inr z ↦ absurd z ]
            ]
            | inr r ↦ inr (inr r)
          ],
          λ s. ih.1 (elim s [
            | inl l ↦ inl (In-append_left a list (x ∷ []) l)
            | inr r ↦ elim r [
              | inl q ↦ inl (In-append_right a list (x ∷ []) (inl q))
              | inr z ↦ inr z
            ]
          ]),
        )
  ]

  Nodup-middle : (xs : List A) (a : A) (ys : List A) → Nodup (xs ++ a ∷ ys) → ¬ In a xs
  Nodup-middle [] a ys n m = m
  Nodup-middle (x ∷ xs) a ys n (inl e) = n.0 (In-append_right x xs (a ∷ ys) (inl (sym e)))
  Nodup-middle (x ∷ xs) a ys n (inr m) = Nodup-middle xs a ys n.1 m

  loop_id :
      (list items : List A) → Nodup (list ++ items) → remove_loop eq list items ≡ list ++ items
  unfolding remove_loop
  loop_id list [] n = sym (append-nil list)
  loop_id list (x ∷ rest) n = elim (Bool-cases (seen eq x list)) [
    | inl e ↦ absurd (Nodup-middle list x rest n ((seen_iff x list).0 e))
    | inr e ↦
        let regroup : (list ++ x ∷ []) ++ rest ≡ list ++ x ∷ rest =
          append_assoc list (x ∷ []) rest in
        rw e (loop_id (list ++ x ∷ []) rest (subst Nodup (sym regroup) n) ∙ regroup)
  ]

  -- Under an `==` that decides equality: the result has the same members, no member twice, and is
  -- left alone by a second pass.
  pub remove_duplicate_lem :
      (items : List A)
      → ((a : A) → In a (remove_duplicate eq items) ↔ In a items)
        × Nodup (remove_duplicate eq items)
        × (remove_duplicate eq (remove_duplicate eq items) ≡ remove_duplicate eq items)
  unfolding remove_duplicate
  remove_duplicate_lem items =
      let once = loop-Nodup [] items tt in
      (
        λ a. (
          λ m. elim ((loop-In a [] items).0 m) [ inl z ↦ absurd z | inr r ↦ r ],
          λ m. (loop-In a [] items).1 (inr m),
        ),
        once,
        loop_id [] (remove_loop eq [] items) once,
      )
