-- ===== src/Retry/Bounded.antt =====
-- constellation/retry/retry.go: when `Do` ends, and with what.
use geth_sev.Prelude.{
  ℕ, zero, suc, ◌+◌, ◌<◌, ◌≤◌, ◌≡◌, subst, ◌⊎◌, inl, inr, true, false, none, some, Result, ok, err,
  arith, Option-cases, Result-cases, Bool-cases,
}
use geth_sev.Retry.{Retrier, pass, do_from}

-- An attempt after which the loop goes on: it failed with a retriable error, and the context has
-- not ended.
abbrev pub IsTransient : {E : Type 0} → Retrier E → ℕ → Type 0
IsTransient {E} r i =
    (e : E) × (r.attempt i ≡ err e) × (r.retriable e ≡ true) × (r.is_done i ≡ false)

-- How the loop ends at an attempt.
abbrev pub EndsWith : {E : Type 0} → Retrier E → ℕ → Result E (Unit {0}) → Type 0
EndsWith r i (ok u) = r.attempt i ≡ ok tt
EndsWith {E} r i (err e) =
    ((r.attempt i ≡ err e) × (r.retriable e ≡ false))
    ⊎ ((f : E) × (r.attempt i ≡ err f)
        × (r.retriable f ≡ true)
        × (r.is_done i ≡ true)
        × (e ≡ r.context_error))

transient-pass : {E : Type 0} (r : Retrier E) (i : ℕ) → IsTransient r i → pass r i ≡ none
unfolding pass
transient-pass r i t = ground (arith, t.1, t.2, t.3)

ends-pass :
    {E : Type 0} (r : Retrier E) (i : ℕ) (result : Result E (Unit {0}))
    → EndsWith r i result
    → pass r i ≡ some result
unfolding pass
ends-pass r i (ok u) h = ground (arith, h)
ends-pass r i (err e) (inl h) = ground (arith, h.0, h.1)
ends-pass r i (err e) (inr h) = ground (arith, h.1, h.2, h.3, h.4)

do_from-end :
    {E : Type 0} (r : Retrier E) (fuel n i : ℕ) (result : Result E (Unit {0}))
    → n < fuel
    → ((j : ℕ) → j < n → IsTransient r (i + j))
    → EndsWith r (i + n) result
    → do_from r fuel i ≡ some (result, suc (i + n))
unfolding do_from
do_from-end r zero n i result lt before ends = absurd (omega (arith, lt))
do_from-end r (suc fuel) zero i result lt before ends =
    ground (arith, ends-pass r i result (subst (λ k. EndsWith r k result) (omega arith) ends))
do_from-end r (suc fuel) (suc n) i result lt before ends = ground (
  arith,
  transient-pass r i (subst (IsTransient r) (omega arith) (before 0 (omega arith))),
  do_from-end r fuel n (suc i) result (omega (arith, lt))
      (λ j p. subst (IsTransient r) (omega arith) (before (suc j) (omega (arith, p))))
      (subst (λ k. EndsWith r k result) (omega arith) ends),
)

-- If the loop goes on after every attempt before `n` (a retriable error, and the context has not
-- ended) and ends at `n`, with success, a permanent error or the end of the context: then with fuel
-- for more than `n` attempts `Do` makes exactly `n + 1` of them and returns that outcome.
pub do_reaches_end :
    {E : Type 0} (r : Retrier E) (fuel n : ℕ) (result : Result E (Unit {0}))
    → n < fuel
    → ((j : ℕ) → j < n → IsTransient r j)
    → EndsWith r n result
    → do_from r fuel 0 ≡ some (result, suc n)
do_reaches_end r fuel n result lt before ends =
    subst (λ k. do_from r fuel 0 ≡ some (result, suc k)) (omega arith)
      (do_from-end r fuel n 0 result lt (λ j p. subst (IsTransient r) (omega arith) (before j p))
        (subst (λ k. EndsWith r k result) (omega arith) ends))

pass-done :
    {E : Type 0} (r : Retrier E) (i : ℕ)
    → r.is_done i ≡ true
    → (result : Result E (Unit {0})) × (pass r i ≡ some result)
unfolding pass
pass-done r i d = elim (Result-cases (r.attempt i)) [
  | inl s ↦ (ok tt, ground (arith, s.1))
  | inr f ↦ elim (Bool-cases (r.retriable f.0)) [
    | inl y ↦ (err r.context_error, ground (arith, f.1, y, d))
    | inr n ↦ (err f.0, ground (arith, f.1, n))
  ]
]

do_from-done :
    {E : Type 0} (r : Retrier E) (fuel n i : ℕ)
    → n < fuel
    → r.is_done (i + n) ≡ true
    → (result : Result E (Unit {0})) × (made : ℕ) × (do_from r fuel i ≡ some (result, made))
      × (made ≤ suc (i + n))
unfolding do_from
do_from-done r zero n i lt d = absurd (omega (arith, lt))
do_from-done r (suc fuel) zero i lt d =
    let p = pass-done r i (subst (λ k. r.is_done k ≡ true) (omega arith) d) in
    (p.0, suc i, ground (arith, p.1), omega arith)
do_from-done r (suc fuel) (suc n) i lt d = elim (Option-cases (pass r i)) [
  | inl go ↦
      let rest =
        do_from-done r fuel n (suc i) (omega (arith, lt))
          (subst (λ k. r.is_done k ≡ true) (omega arith) d) in
      (rest.0, rest.1, ground (arith, go, rest.2), omega (arith, rest.3))
  | inr stop ↦ (stop.0, suc i, ground (arith, stop.1), omega arith)
]

-- If the context ends during the wait after the attempt `n`, then `Do` returns after at most
-- `n + 1` attempts, whatever the doer returns and however its errors are classified.
pub do_ends_with_context :
    {E : Type 0} (r : Retrier E) (fuel n : ℕ)
    → n < fuel
    → r.is_done n ≡ true
    → (result : Result E (Unit {0})) × (made : ℕ) × (do_from r fuel 0 ≡ some (result, made))
      × (made ≤ suc n)
do_ends_with_context r fuel n lt d =
    let found = do_from-done r fuel n 0 lt (subst (λ k. r.is_done k ≡ true) (omega arith) d) in
    (found.0, found.1, found.2, omega (arith, found.3))
