-- ===== src/Compatibility/Newer.antt =====
-- constellation/compatibility/compatibility.go, `FilterNewerVersion`.
use geth_sev.Prelude.{
  ◌≡◌, refl, sym, ◌↔◌, inl, inr, Bytes, List, [], ◌∷◌, false, not, In, arith, Bool-cases, subst, ap,
  ◌∙◌,
}
use Prim.Native.Nat.{Ordering}
use geth_sev.Semantic.{SemverLib}
use geth_sev.Compatibility.{filter_newer_version, ensure_prefix_v, is_greater}

is_greater_iff : (o : Ordering) → (not (is_greater o) ≡ false) ↔ (o ≡ Ordering.gt)
is_greater_iff Ordering.lt = (λ h. cc, λ h. cc)
is_greater_iff Ordering.eq = (λ h. cc, λ h. cc)
is_greater_iff Ordering.gt = (λ h. refl, λ h. refl)

-- The image that a version stems from.
abbrev pub IsNewerIn : SemverLib → Bytes → List Bytes → Bytes → Type 0
IsNewerIn lib current images w =
    (image : Bytes) × In image images
    × (w ≡ ensure_prefix_v image)
    × (lib.compare w (ensure_prefix_v current) ≡ Ordering.gt)

-- `FilterNewerVersion` gives exactly the versions of the list, with the letter v added in front where
-- it is missing, that compare as greater than the current one, with it likewise added.
pub filter_newer_version_iff :
    (lib : SemverLib) (current w : Bytes) (images : List Bytes)
    → In w (filter_newer_version lib current images) ↔ IsNewerIn lib current images w
unfolding filter_newer_version
filter_newer_version_iff lib current w [] = (λ m. absurd m, λ x. absurd x.1)
filter_newer_version_iff lib current w (image ∷ images) =
    let ih = filter_newer_version_iff lib current w images in
    let test = is_greater_iff (lib.compare (ensure_prefix_v image) (ensure_prefix_v current)) in
    elim (Bool-cases
      (not (is_greater (lib.compare (ensure_prefix_v image) (ensure_prefix_v current))))) [
        | inl older ↦ rw older (
          λ m. let found = ih.0 m in (found.0, inr found.1, found.2, found.3),
          λ found. elim found.1 [
            | inl e ↦ absurd (ground (arith, older, test, e, found.2, found.3))
            | inr m ↦ ih.1 (found.0, m, found.2, found.3)
          ],
        )
        | inr newer ↦ rw newer (
          elim [
            | inl e ↦ (
              image,
              inl refl,
              e,
              subst (λ x. lib.compare x (ensure_prefix_v current) ≡ Ordering.gt) (sym e)
                  (test.0 newer),
            )
            | inr m ↦ (let found = ih.0 m in (found.0, inr found.1, found.2, found.3))
          ],
          λ found. elim found.1 [
            | inl e ↦ inl (found.2 ∙ ap ensure_prefix_v e)
            | inr m ↦ inr (ih.1 (found.0, m, found.2, found.3))
          ],
        )
      ]
