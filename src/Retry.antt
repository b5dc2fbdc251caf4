-- ===== src/Retry.antt =====
-- constellation/retry/retry.go: the loop of `IntervalRetrier.Do`. The doer's attempts, the
-- classification of errors and the choice of `select` are parameters.
pub mod Bounded
use geth_sev.Prelude.{
  ℕ, zero, suc, ◌+◌, Bool, true, false, Option, none, some, Result, ok, err, if◌then◌else◌,
}

-- What surrounds the loop: the result of each attempt of the doer, which errors are retriable, and
-- for the wait after each attempt whether `select` takes the end of the context, and its error.
pub record Retrier (E : Type 0) : Type 0 where
  pub attempt : ℕ → Result E (Unit {0})
  pub retriable : E → Bool
  pub is_done : ℕ → Bool
  pub context_error : E

-- One pass of the loop, the attempt `i`: the result that `Do` returns, or nothing to go on.
pass : {E : Type 0} → Retrier E → ℕ → Option (Result E (Unit {0}))
pass r i = elim (r.attempt i) [
  | ok u ↦ some (ok tt)
  | err e ↦
      if r.retriable e
      then if r.is_done i then some (err r.context_error) else none
      else some (err e)
]

-- `Do` on fuel, from the attempt `i`: its result and the number of attempts that were made, or
-- nothing when the fuel runs out. The fuel bounds the attempts; the source has no bound.
unfoldable pub do_from : {E : Type 0} → Retrier E → ℕ → ℕ → Option (Result E (Unit {0}) × ℕ)
unfolding pass
do_from r zero i = none
do_from r (suc fuel) i =
    let rest : Option (Result _ (Unit {0}) × ℕ) = do_from r fuel (suc i) in
    elim (pass r i) [ some result ↦ some (result, suc i) | none ↦ rest ]
