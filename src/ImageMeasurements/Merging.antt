-- ===== src/ImageMeasurements/Merging.antt =====
-- constellation/attestation/measurements/measurements.go, `MergeImageMeasurementsV2`.
use geth_sev.Prelude.{
  ◌≡◌, refl, sym, ap, ◌∙◌, ◌↔◌, bytes_eq_iff, List, [], ◌∷◌, ◌++◌, true, false, All, ok, is_ok,
  arith, IsSorted, ℕ, Bytes, ◌<◌, ◌⊎◌, All_at, All-In, text_less, sort_stable-perm,
  sort_stable-IsSorted, text_less-asym, text_less_trans, subst, Result-cases, inl, inr,
  ok-injective, ◌>>=◌,
}
use mathlib.Core.List.{Perm}
use geth_sev.CloudProvider.{Provider, unknown, aws, azure, gcp, openstack, qemu}
use geth_sev.ImageMeasurements.{
  Entry, ImageMeasurements, csp_number, entry_less, merge, merge_loop, sorted_into,
}

-- The same version, ref and stream.
abbrev pub IsSameImage : ImageMeasurements → ImageMeasurements → Type 0
IsSameImage m n = (n.version ≡ m.version) × (n.ref ≡ m.ref) × (n.stream ≡ m.stream)

abbrev pub entries : List ImageMeasurements → List Entry
entries [] = []
entries (m ∷ ms) = m.list ++ entries ms

-- The order of the providers.
abbrev pub provider_place : Provider → ℕ
provider_place unknown = 0
provider_place aws = 1
provider_place azure = 2
provider_place gcp = 3
provider_place openstack = 4
provider_place qemu = 5

-- Before another text in the order of the first byte that differs, or a beginning of it.
abbrev pub IsAtMost : Bytes → Bytes → Type 0
IsAtMost [] ys = Unit
IsAtMost (x ∷ xs) [] = ⊥
IsAtMost (x ∷ xs) (y ∷ ys) = (x < y) ⊎ ((x ≡ y) × IsAtMost xs ys)

-- An earlier provider, or the same one and no later name of the variant.
abbrev pub Precedes : Entry → Entry → Type 0
Precedes a b =
    (provider_place a.csp < provider_place b.csp)
    ⊎ ((a.csp ≡ b.csp) × IsAtMost a.attestation_variant b.attestation_variant)

-- Every entry precedes all that stand behind it.
abbrev pub IsOrdered : List Entry → Type 0
IsOrdered [] = Unit
IsOrdered (a ∷ list) = All (Precedes a) list × IsOrdered list

text_less-IsAtMost : (xs ys : Bytes) → text_less ys xs ≡ false → IsAtMost xs ys
unfolding text_less
text_less-IsAtMost [] ys h = tt
text_less-IsAtMost (x ∷ xs) [] h = cc
text_less-IsAtMost (x ∷ xs) (y ∷ ys) h = ground (arith, h, text_less-IsAtMost xs ys)

csp_number-eq : (p : Provider) → csp_number p ≡ provider_place p
unfolding csp_number
csp_number-eq p = ground arith

place-injective : (a b : Provider) → provider_place a ≡ provider_place b → a ≡ b
place-injective a b h = ground arith

entry_less-Precedes : (a b : Entry) → entry_less b a ≡ false → Precedes a b
unfolding entry_less
entry_less-Precedes a b h = ground (
  arith,
  h,
  csp_number-eq a.csp,
  csp_number-eq b.csp,
  place-injective a.csp b.csp,
  text_less-IsAtMost a.attestation_variant b.attestation_variant,
)

IsSorted-IsOrdered : (list : List Entry) → IsSorted entry_less list → IsOrdered list
IsSorted-IsOrdered [] h = tt
IsSorted-IsOrdered (a ∷ list) h = (
  All-In list (λ b m. entry_less-Precedes a b (All_at (λ y. entry_less y a ≡ false) b list h.0 m)),
  IsSorted-IsOrdered list h.1,
)

entry_less-asym : (a b : Entry) → entry_less a b ≡ true → entry_less b a ≡ false
unfolding entry_less
entry_less-asym a b h =
    ground (arith, h, text_less-asym a.attestation_variant b.attestation_variant)

entry_less_trans :
    (a b c : Entry) → entry_less b a ≡ false → entry_less c b ≡ false → entry_less c a ≡ false
unfolding entry_less
entry_less_trans a b c h k =
    ground (
      arith,
      h,
      k,
      text_less_trans a.attestation_variant b.attestation_variant c.attestation_variant,
    )

append_assoc : (xs ys zs : List Entry) → (xs ++ ys) ++ zs ≡ xs ++ (ys ++ zs)
append_assoc [] ys zs = refl
append_assoc (x ∷ xs) ys zs = ap (λ w. x ∷ w) (append_assoc xs ys zs)

append_nil : (xs : List Entry) → xs ++ [] ≡ xs
append_nil [] = refl
append_nil (x ∷ xs) = ap (λ w. x ∷ w) (append_nil xs)

merge_loop-same :
    (out : ImageMeasurements) (ms : List ImageMeasurements) (list : List Entry)
    → All (IsSameImage out) ms
    → merge_loop out ms list ≡ ok (list ++ entries ms)
unfolding merge_loop
merge_loop-same out [] list h = ap ok (sym (append_nil list))
merge_loop-same out (m ∷ ms) list h =
    rw
      (
        (bytes_eq_iff m.version out.version).1 h.0.0,
        (bytes_eq_iff m.ref out.ref).1 h.0.1,
        (bytes_eq_iff m.stream out.stream).1 h.0.2,
      )
      (merge_loop-same out ms (list ++ m.list) h.1 ∙ ap ok (append_assoc list m.list (entries ms)))

merge_loop-ok :
    (out : ImageMeasurements) (ms : List ImageMeasurements) (list result : List Entry)
    → merge_loop out ms list ≡ ok result
    → All (IsSameImage out) ms
unfolding merge_loop
merge_loop-ok out [] list result h = tt
merge_loop-ok out (m ∷ ms) list result h =
    let v : m.version ≡ out.version = ground (arith, h, bytes_eq_iff m.version out.version) in
    let r : m.ref ≡ out.ref = ground (arith, h, bytes_eq_iff m.ref out.ref) in
    let s : m.stream ≡ out.stream = ground (arith, h, bytes_eq_iff m.stream out.stream) in
    let rest : merge_loop out ms (list ++ m.list) ≡ ok result = ground (arith, h) in
    ((v, r, s), merge_loop-ok out ms (list ++ m.list) result rest)

-- Merging two or more lists of measurements succeeds exactly if all are for the version, ref and
-- stream of the first one. The result is then for these, and has exactly the entries of all of them,
-- ordered by provider (unknown, AWS, Azure, GCP, OpenStack, QEMU), and for the same provider by the
-- name of the variant.
pub merge_iff :
    (m n : ImageMeasurements) (ms : List ImageMeasurements)
    → ((is_ok (merge (m ∷ n ∷ ms)) ≡ true) ↔ All (IsSameImage m) (n ∷ ms))
      × ((out : ImageMeasurements)
          → merge (m ∷ n ∷ ms) ≡ ok out
          → IsSameImage m out × Perm out.list (entries (m ∷ n ∷ ms)) × IsOrdered out.list)
unfolding merge sorted_into
merge_iff m n ms = (
  (
    λ h. elim (Result-cases (merge_loop m (m ∷ n ∷ ms) [])) [
      | inl r ↦ (merge_loop-ok m (m ∷ n ∷ ms) [] r.0 r.1).1
      | inr f ↦ absurd (ground (arith, h, f.1))
    ],
    λ same. rw (merged same) refl,
  ),
  λ out h. elim (Result-cases (merge_loop m (m ∷ n ∷ ms) [])) [
    | inr f ↦ absurd (ground (arith, h, f.1))
    | inl r ↦
        let same = (merge_loop-ok m (m ∷ n ∷ ms) [] r.0 r.1).1 in
        let e : sorted_into m (entries (m ∷ n ∷ ms)) ≡ out =
          ok-injective _ _
            (sym (ap (λ x. x >>= λ list. ok (sorted_into m list)) (merged same)) ∙ h) in
        subst (λ x. IsSameImage m x × Perm x.list (entries (m ∷ n ∷ ms)) × IsOrdered x.list) e
          (
            (refl, refl, refl),
            sort_stable-perm entry_less (entries (m ∷ n ∷ ms)),
            IsSorted-IsOrdered _ (
                sort_stable-IsSorted entry_less entry_less-asym entry_less_trans
                  (entries (m ∷ n ∷ ms))),
          )
  ],
)
  where
    merged : All (IsSameImage m) (n ∷ ms) → merge_loop m (m ∷ n ∷ ms) [] ≡ ok (entries (m ∷ n ∷ ms))
    merged same = merge_loop-same m (m ∷ n ∷ ms) [] ((refl, refl, refl), same)
