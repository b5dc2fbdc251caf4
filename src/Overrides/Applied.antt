-- ===== src/Overrides/Applied.antt =====
-- constellation/attestation/measurements/overrides.go: what overrides do to each index.
use geth_sev.Prelude.{
  ℕ, ◌≡◌, refl, sym, ap, ◌∙◌, Bytes, ◌==◌, lookup, insert, lookup-insert, Option, none, some,
  Option-cases, Bool-cases, ==_iff, ◌⊎◌, Bool, true, false, ◌||◌, List, [], ◌∷◌, ◌++◌, ok,
  >>=-eq-ok, ok-injective, if◌then◌else◌, arith, inl, inr,
}
use geth_sev.CloudProvider.{Provider}
use geth_sev.Measurements.{M, Measurement, ValidationOption, enforce, warn_only, copy, at}
use geth_sev.Measurements.Copying.{lookup-copy}
use geth_sev.Overrides.{
  Override, for_csp, for_variant, set_values, set_options, apply_override, apply_all,
  apply_overrides,
}

abbrev pub mentions : ℕ → List ℕ → Bool
mentions i [] = false
mentions i (j ∷ js) = j == i || mentions i js

-- The last value for an index, or the one there was.
abbrev pub last_value : ℕ → List (ℕ × Bytes) → Option Bytes → Option Bytes
last_value i [] v = v
last_value i ((j, w) ∷ values) v = last_value i values (if j == i then some w else v)

abbrev pub with_value : Option Bytes → Option Measurement → Option Measurement
with_value none old = old
with_value (some v) none = some (record { expected = v; validation_opt = enforce })
with_value (some v) (some m) = some (record { expected = v; validation_opt = m.validation_opt })

abbrev pub with_option : Option ValidationOption → Option Measurement → Option Measurement
with_option none old = old
with_option (some opt) none = none
with_option (some opt) (some m) = some (record { expected = m.expected; validation_opt = opt })

-- The option that an override sets for an index; the warnings come last.
abbrev pub chosen_option : Override → ℕ → Option ValidationOption
chosen_option o i =
    if mentions i o.must_warn
    then some warn_only
    else if mentions i o.must_enforce
    then some enforce
    else none

-- What an override makes of the measurement at an index.
abbrev pub overridden : ℕ → Override → Option Measurement → Option Measurement
overridden i o old =
    with_option (chosen_option o i) (with_value (last_value i o.value_overrides none) old)

abbrev pub overridden_all : ℕ → List Override → Option Measurement → Option Measurement
overridden_all i [] old = old
overridden_all i (o ∷ os) old = overridden_all i os (overridden i o old)

lookup-set_options :
    (opt : ValidationOption) (is : List ℕ) (m out : M) (k : ℕ)
    → set_options opt is m ≡ ok out
    → lookup k out ≡ with_option (if mentions k is then some opt else none) (lookup k m)
unfolding set_options
lookup-set_options opt [] m out k h = ap (lookup k) (sym (ok-injective _ _ h))
lookup-set_options opt (i ∷ is) m out k h = elim (Option-cases (lookup i m)) [
  | inl n ↦ absurd (ground (arith, h, n))
  | inr s ↦
      let next : M = insert i (record { expected = s.0.expected; validation_opt = opt }) m in
      let rest : set_options opt is next ≡ ok out = ground (arith, h, s.1) in
      ground (
        arith,
        lookup-set_options opt is next out k rest,
        lookup-insert k i (record { expected = s.0.expected; validation_opt = opt }) m,
        s.1,
      )
]

last_value-some :
    (k : ℕ) (values : List (ℕ × Bytes)) (v : Bytes)
    → ((last_value k values none ≡ none) × (last_value k values (some v) ≡ some v))
      ⊎ ((w : Bytes) × (last_value k values none ≡ some w)
          × (last_value k values (some v) ≡ some w))
last_value-some k [] v = inl (refl, refl)
last_value-some k ((j, w) ∷ values) v = elim (Bool-cases (j == k)) [
  | inl y ↦ rw y (elim (last_value-some k values w) [
    | inl n ↦ inr (w, n.1, n.1)
    | inr s ↦ inr (s.0, s.2, s.2)
  ])
  | inr n ↦ rw n (last_value-some k values v)
]

with_value-at :
    (w : Bytes) (k : ℕ) (m : M)
    → with_value (some w) (lookup k m)
      ≡ some (record { expected = w; validation_opt = (at k m).validation_opt })
unfolding at
with_value-at w k m = elim (Option-cases (lookup k m)) [
  | inl n ↦ ground (arith, n)
  | inr s ↦ ground (arith, s.1)
]

-- Setting one value before the others.
with_value-first :
    (k : ℕ) (values : List (ℕ × Bytes)) (v : Bytes) (m : M)
    → with_value
        (last_value k values none)
        (some (record { expected = v; validation_opt = (at k m).validation_opt }))
      ≡ with_value (last_value k values (some v)) (lookup k m)
with_value-first k values v m = elim (last_value-some k values v) [
  | inl n ↦ rw (n.0, n.1) (sym (with_value-at v k m))
  | inr s ↦ rw (s.1, s.2) (sym (with_value-at s.0 k m))
]

lookup-set_values :
    (values : List (ℕ × Bytes)) (m : M) (k : ℕ)
    → lookup k (set_values values m) ≡ with_value (last_value k values none) (lookup k m)
unfolding set_values
lookup-set_values [] m k = refl
lookup-set_values ((i, v) ∷ values) m k =
    lookup-set_values values
      (insert i (record { expected = v; validation_opt = (at i m).validation_opt }) m) k
    ∙ ap (with_value (last_value k values none))
        (lookup-insert k i (record { expected = v; validation_opt = (at i m).validation_opt }) m)
    ∙ elim (Bool-cases (i == k)) [
      | inl y ↦ rw (y, (==_iff i k).0 y) (with_value-first k values v m)
      | inr n ↦ rw n refl
    ]

lookup-apply_override :
    (o : Override) (m out : M) (k : ℕ)
    → apply_override o m ≡ ok out
    → lookup k out ≡ overridden k o (lookup k m)
unfolding apply_override
lookup-apply_override o m out k h =
    let (enforced, e, h₁) =
      >>=-eq-ok (set_options enforce o.must_enforce (set_values o.value_overrides m)) _ h in
    lookup-set_options warn_only o.must_warn enforced out k h₁
    ∙ ap (with_option (if mentions k o.must_warn then some warn_only else none)) (
        lookup-set_options enforce o.must_enforce (set_values o.value_overrides m) enforced k e
        ∙ ap (with_option (if mentions k o.must_enforce then some enforce else none))
            (lookup-set_values o.value_overrides m k))
    ∙ last_option (mentions k o.must_warn) (mentions k o.must_enforce)
        (with_value (last_value k o.value_overrides none) (lookup k m))
  where
    last_option :
        (warns enforces : Bool) (old : Option Measurement)
        → with_option
            (if warns then some warn_only else none)
            (with_option (if enforces then some enforce else none) old)
          ≡ with_option
              (if warns then some warn_only else if enforces then some enforce else none)
              old
    last_option true true none = refl
    last_option true true (some x) = refl
    last_option true false none = refl
    last_option true false (some x) = refl
    last_option false true old = refl
    last_option false false old = refl

lookup-apply_all :
    (os : List Override) (m out : M) (k : ℕ)
    → apply_all os m ≡ ok out
    → lookup k out ≡ overridden_all k os (lookup k m)
unfolding apply_all
lookup-apply_all [] m out k h = ap (lookup k) (sym (ok-injective _ _ h))
lookup-apply_all (o ∷ os) m out k h =
    let (next, e, h₁) = >>=-eq-ok (apply_override o m) _ h in
    lookup-apply_all os next out k h₁
    ∙ ap (overridden_all k os) (lookup-apply_override o m next k e)

-- If `ApplyOverrides` succeeds, each index has what the overrides for the variant and then those for
-- the provider make of the measurement it had: an override replaces the expected value by the last
-- one it has for the index, with the zero option where there was no measurement, and sets the
-- option, to a warning if it names the index as one, else to enforced if it names it as such.
pub lookup-apply_overrides :
    (m out : M) (csp : Provider) (attestation_variant : Bytes) (k : ℕ)
    → apply_overrides m csp attestation_variant ≡ ok out
    → lookup k out ≡ overridden_all k (for_variant attestation_variant ++ for_csp csp) (lookup k m)
unfolding apply_overrides
lookup-apply_overrides m out csp attestation_variant k h =
    lookup-apply_all (for_variant attestation_variant ++ for_csp csp) (copy m) out k h
    ∙ ap (overridden_all k (for_variant attestation_variant ++ for_csp csp)) (lookup-copy m k)
