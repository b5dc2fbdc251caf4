-- ===== src/Vtpm/Selected.antt =====
-- `GetSelectedMeasurements`: which values are taken over.
use geth_sev.Prelude.{
  ◌≡◌, ◌↔◌, refl, sym, ap, ◌∙◌, ℕ, ◌==◌, Bytes, length, Bool-cases, true, false, Option, none, some,
  [], ◌∷◌, All, Map, IsMap, lookup, lookup-insert, lookup-nil, lookup-cons, insert, ==_iff,
  Option-cases, has, has-eq-is_some, ok, ok-injective, arith, inl, inr,
}
use geth_sev.Measurements.{M, Measurement, enforce}
use geth_sev.Vtpm.{selected_loop, get_selected_measurements}

-- The measurement of a value, if one was read, and otherwise what was there before.
abbrev pub taken : Option Bytes → Option Measurement → Option Measurement
taken none o = o
taken (some pcr) o = some (record { expected = pcr; validation_opt = enforce })

abbrev pub Has32 : Map Bytes → Type 0
Has32 pcrs = All (λ e. length e.1 ≡ 32) pcrs

-- What is stored for a value.
abbrev stored : Bytes → Measurement
stored pcr = record { expected = pcr; validation_opt = enforce }

step_iff :
    (i : ℕ) (pcr : Bytes) (pcrs : Map Bytes) (m n : M)
    → (selected_loop ((i, pcr) ∷ pcrs) m ≡ ok n)
      ↔ ((length pcr ≡ 32) × (selected_loop pcrs (insert i (stored pcr) m) ≡ ok n))
unfolding selected_loop
step_iff i pcr pcrs m n = elim (Bool-cases (length pcr == 32)) [
  | inl y ↦ rw (y, selected_loop) (λ h. ((==_iff (length pcr) 32).0 y, h), λ h. h.1)
  | inr y ↦
      rw (y, selected_loop)
        (λ h. cc, λ h. absurd (not_true (sym y ∙ (==_iff (length pcr) 32).1 h.0)))
]
  where
    not_true : ¬ (false ≡ true)
    not_true h = cc

loop_ok : (pcrs : Map Bytes) (m : M) → Has32 pcrs → (n : M) × (selected_loop pcrs m ≡ ok n)
loop_ok [] m h = (m, unfold selected_loop in refl)
loop_ok ((i, pcr) ∷ pcrs) m h =
    let (n, e) = loop_ok pcrs (insert i (stored pcr) m) h.1 in
    (n, (step_iff i pcr pcrs m n).1 (h.0, e))

loop_sound : (pcrs : Map Bytes) (m n : M) → selected_loop pcrs m ≡ ok n → Has32 pcrs
loop_sound [] m n e = tt
loop_sound ((i, pcr) ∷ pcrs) m n e =
    let (l, r) = (step_iff i pcr pcrs m n).0 e in (l, loop_sound pcrs (insert i (stored pcr) m) n r)

head_case :
    (k i : ℕ) (pcr : Bytes) (pcrs : Map Bytes) (m : M)
    → has i pcrs ≡ false
    → taken (lookup k pcrs) (lookup k (insert i (stored pcr) m))
      ≡ taken (lookup k ((i, pcr) ∷ pcrs)) (lookup k m)
unfolding has
head_case k i pcr pcrs m h = elim (Bool-cases (i == k)) [
  | inl y ↦
      rw
        (
          lookup-insert k i (stored pcr) m,
          lookup-cons k i pcr pcrs,
          y,
          none_at k ((==_iff i k).0 y),
        )
        refl
  | inr y ↦ rw (lookup-insert k i (stored pcr) m, lookup-cons k i pcr pcrs, y) refl
]
  where
    none_at : (k : ℕ) → i ≡ k → lookup k pcrs ≡ none
    none_at k e = elim (Option-cases (lookup k pcrs)) [
      | inl n ↦ n
      | inr (a, s) ↦ ground (arith, h, has-eq-is_some k pcrs a s)
    ]

loop_lookup :
    (k : ℕ) (pcrs : Map Bytes) (m n : M)
    → IsMap pcrs
    → selected_loop pcrs m ≡ ok n
    → lookup k n ≡ taken (lookup k pcrs) (lookup k m)
unfolding selected_loop
loop_lookup k [] m n d e =
    ap (lookup k) (sym (ok-injective m n e)) ∙ rw (lookup-nil {V = Bytes} k) refl
loop_lookup k ((i, pcr) ∷ pcrs) m n d e =
    loop_lookup k pcrs (insert i (stored pcr) m) n d.1 (((step_iff i pcr pcrs m n).0 e).1)
    ∙ head_case k i pcr pcrs m d.0

-- The measurements are made exactly if every value that was read has 32 bytes, and then each value
-- is expected and enforced under its own index, and nothing is expected under any other.
pub get_selected_measurements_lem :
    (pcrs : Map Bytes)
    → IsMap pcrs
    → (((n : M) × (get_selected_measurements pcrs ≡ ok n)) ↔ Has32 pcrs)
      × ((n : M) (k : ℕ)
          → get_selected_measurements pcrs ≡ ok n
          → lookup k n ≡ taken (lookup k pcrs) none)
unfolding get_selected_measurements
get_selected_measurements_lem pcrs d = (
  (λ (n, e). loop_sound pcrs [] n e, λ h. loop_ok pcrs [] h),
  (λ n k e. loop_lookup k pcrs [] n d e ∙ ap (taken (lookup k pcrs)) (lookup-nil k)),
)
