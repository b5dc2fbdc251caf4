-- ===== src/ImageMeasurements/Entries.antt =====
-- constellation/attestation/measurements/measurements.go, `fromImageMeasurementsV2`: the entry that is
-- chosen.
use geth_sev.Prelude.{
  ◌≡◌, ◌↔◌, refl, none, ◌++◌, All, Bool, Bool-cases, subst, ◌&&◌, ◌==◌, ==_iff, sym, ap, ◌∙◌, inl,
  inr, List, [], ◌∷◌, true, false, Option, some, arith,
}
use geth_sev.CloudProvider.{Provider}
use geth_sev.Variant.{Variant, string, from_string}
use geth_sev.Variant
use geth_sev.Variant.Names.{from_string_iff, equal_iff}
use geth_sev.ImageMeasurements.{Entry, find_entry, is_wanted, csp_number}

-- The entry names this provider and this variant, which is not nil.
abbrev pub IsEntryFor : Provider → Option Variant → Entry → Type 0
IsEntryFor csp v entry =
    (w : Variant) × (v ≡ some w) × (entry.csp ≡ csp) × (entry.attestation_variant ≡ string w)

-- The entry is in the list, and it is the first of those for the provider and the variant.
abbrev pub IsFirstFor : Provider → Option Variant → List Entry → Entry → Type 0
IsFirstFor csp v list entry =
    (before after : List Entry) × (list ≡ before ++ entry ∷ after)
    × IsEntryFor csp v entry
    × All (λ e. ¬ IsEntryFor csp v e) before

csp_number-injective : (a b : Provider) → csp_number a ≡ csp_number b → a ≡ b
unfolding csp_number
csp_number-injective a b h = ground arith

both_iff :
    (test : Bool) (o : Option Variant) (w : Variant)
    → ((test && elim o [ none ↦ false | some got ↦ Variant.equal got w ]) ≡ true)
      ↔ ((test ≡ true) × (o ≡ some w))
both_iff test none w = ground arith
both_iff test (some got) w = ground (arith, equal_iff got w)

is_wanted_iff :
    (csp : Provider) (v : Option Variant) (entry : Entry)
    → (is_wanted csp v entry ≡ true) ↔ IsEntryFor csp v entry
unfolding is_wanted
is_wanted_iff csp none entry = (λ h. cc, λ e. absurd (none≢some e.1))
  where
    none≢some : {w : Variant} → ◌≡◌ {A = Option Variant} none (some w) → ⊥
    none≢some h = cc
is_wanted_iff csp (some w) entry = (
  (λ h.
      let (same_csp, named) =
        (both_iff (csp_number entry.csp == csp_number csp) (from_string entry.attestation_variant)
            w).0
          h in
      (
        w,
        refl,
        csp_number-injective entry.csp csp ((==_iff _ _).0 same_csp),
        (from_string_iff entry.attestation_variant w).0 named,
      )),
  (λ (x, e, c, n).
      (both_iff (csp_number entry.csp == csp_number csp) (from_string entry.attestation_variant)
          w).1
        (
          (==_iff _ _).1 (ap csp_number c),
          (from_string_iff entry.attestation_variant w).1
              (n ∙ ap string (sym (some-injective w x e))),
        )),
)
  where
    some-injective : (a b : Variant) → some a ≡ some b → a ≡ b
    some-injective a b h = cc

pub find_entry-IsFirstFor :
    (csp : Provider) (v : Option Variant) (list : List Entry) (entry : Entry)
    → find_entry csp v list ≡ some entry
    → IsFirstFor csp v list entry
unfolding find_entry
find_entry-IsFirstFor csp v [] entry h = cc
find_entry-IsFirstFor csp v (e ∷ list) entry h = elim (Bool-cases (is_wanted csp v e)) [
  | inl y ↦
      let same : e ≡ entry = ground (arith, h, y) in
      (
        [],
        list,
        ap (λ x. x ∷ list) same,
        subst (IsEntryFor csp v) same ((is_wanted_iff csp v e).0 y),
        tt,
      )
  | inr n ↦
      let (before, after, split, it, none_before) =
        find_entry-IsFirstFor csp v list entry (ground (arith, h, n)) in
      (
        e ∷ before,
        after,
        ap (λ l. e ∷ l) split,
        it,
        ((λ w. ground (arith, n, (is_wanted_iff csp v e).1 w)), none_before),
      )
]
