-- ===== src/Validation/Reports.antt =====
-- constellation/validation/validation.go: what `Validate` reports.
use geth_sev.Prelude.{
  ◌≡◌, refl, sym, ◌∙◌, ap, ◌↔◌, List, [], ◌∷◌, ◌++◌, Option, none, some, arith, Option-cases, inl,
  inr,
}
use geth_sev.Validation.{
  Constraint, TreeError, ErrStrategy, evaluate_all, fail_fast, ValidationError, single, joined,
  joined_to, join, validate, validate_loop, ValidateOptions,
}
use geth_sev.Validation.Verdicts.{AreSatisfied}

-- The trees of an error, in the order in which they were joined.
abbrev pub trees : ValidationError → List TreeError
trees (single e) = e ∷ []
trees (joined e) = e ∷ []
trees (joined_to es e) = trees es ++ e ∷ []

abbrev pub reported : Option ValidationError → List TreeError
reported none = []
reported (some es) = trees es

-- The trees of the constraints that are not satisfied, in their order, and the first of them.
abbrev pub failures : List Constraint → List TreeError
failures [] = []
failures (none ∷ cs) = failures cs
failures (some e ∷ cs) = e ∷ failures cs

abbrev pub first_of : List TreeError → List TreeError
first_of [] = []
first_of (e ∷ es) = e ∷ []

-- The constraints that are used.
abbrev pub chosen : List Constraint → ValidateOptions → List Constraint
chosen constraints opts = elim opts.override_constraints [
  | none ↦ constraints
  | some override ↦ override
]

append_assoc : {A : Type 0} (xs ys zs : List A) → (xs ++ ys) ++ zs ≡ xs ++ (ys ++ zs)
append_assoc [] ys zs = refl
append_assoc (x ∷ xs) ys zs = ap (λ w. x ∷ w) (append_assoc xs ys zs)

append_nil : {A : Type 0} (xs : List A) → xs ++ [] ≡ xs
append_nil [] = refl
append_nil (x ∷ xs) = ap (λ w. x ∷ w) (append_nil xs)

reported-join :
    (es : Option ValidationError) (e : TreeError) → trees (join es e) ≡ reported es ++ e ∷ []
reported-join none e = refl
reported-join (some es) e = refl

evaluate_all-reported :
    (cs : List Constraint) (es : Option ValidationError)
    → reported (validate_loop evaluate_all cs es) ≡ reported es ++ failures cs
unfolding validate_loop
evaluate_all-reported [] es = sym (append_nil (reported es))
evaluate_all-reported (none ∷ cs) es = evaluate_all-reported cs es
evaluate_all-reported (some e ∷ cs) es =
    evaluate_all-reported cs (some (join es e))
    ∙ ap (λ w. w ++ failures cs) (reported-join es e)
    ∙ append_assoc (reported es) (e ∷ []) (failures cs)

fail_fast-reported :
    (cs : List Constraint) → reported (validate_loop fail_fast cs none) ≡ first_of (failures cs)
unfolding validate_loop
fail_fast-reported [] = refl
fail_fast-reported (none ∷ cs) = fail_fast-reported cs
fail_fast-reported (some e ∷ cs) = refl

validate_loop_iff :
    (strategy : ErrStrategy) (cs : List Constraint) (es : Option ValidationError)
    → (validate_loop strategy cs es ≡ none) ↔ ((es ≡ none) × AreSatisfied cs)
unfolding validate_loop
validate_loop_iff strategy [] es = ground arith
validate_loop_iff strategy (none ∷ cs) es = ground (arith, validate_loop_iff strategy cs es)
validate_loop_iff fail_fast (some e ∷ cs) es = ground arith
validate_loop_iff evaluate_all (some e ∷ cs) es =
    ground (arith, validate_loop_iff evaluate_all cs (some (join es e)))

-- The trees that a strategy reports of all failures.
abbrev pub reported_by : ErrStrategy → List TreeError → List TreeError
reported_by evaluate_all es = es
reported_by fail_fast es = first_of es

-- `Validate` uses the constraints of the options where they have some, else those of the document.
-- Under either strategy it returns no error exactly if all of them are satisfied. Otherwise the error
-- has the tree of every constraint that is not, in their order, or under `FailFast` the first one.
pub validate_lem :
    (constraints : List Constraint) (opts : ValidateOptions)
    → ((validate constraints opts ≡ none) ↔ AreSatisfied (chosen constraints opts))
      × (reported (validate constraints opts)
          ≡ reported_by opts.err_strategy (failures (chosen constraints opts)))
unfolding validate
validate_lem constraints opts = elim (Option-cases opts.override_constraints) [
  | inl n ↦ rw n (uses opts.err_strategy constraints)
  | inr s ↦ rw (s.1) (uses opts.err_strategy s.0)
]
  where
    uses :
        (strategy : ErrStrategy) (cs : List Constraint)
        → ((validate_loop strategy cs none ≡ none) ↔ AreSatisfied cs)
          × (reported (validate_loop strategy cs none) ≡ reported_by strategy (failures cs))
    uses evaluate_all cs =
        (ground (arith, validate_loop_iff evaluate_all cs none), evaluate_all-reported cs none)
    uses fail_fast cs = (ground (arith, validate_loop_iff fail_fast cs none), fail_fast-reported cs)
