-- ===== src/VersionLists/Checked.antt =====
-- constellation/api/versionsapi/list.go: what valid lists hold.
use geth_sev.Prelude.{
  ◌≡◌, ◌≢◌, ◌↔◌, refl, sym, ◌∙◌, Bytes, bytes_eq, bytes_eq_iff, Bool, true, false, not, ◌||◌, List,
  [], ◌∷◌, ◌++◌, All, Result, ok, err, ◌⊎◌, inl, inr, arith, Bool-cases,
}
use geth_sev.Semantic.{SemverLib}
use geth_sev.VersionsApi.{
  VersionKind, unknown_kind, image, cli, Granularity, unknown_granularity, major, minor, patch,
  VersionError, validate_ref, validate_stream,
}
use geth_sev.VersionLists.{
  VersionList, ListError, no_list_granularity, no_list_kind, base_not_semver,
  base_not_of_granularity, version_not_semver, not_finer, error_if, error_of, is_list_granularity,
  is_no_kind, normalize, request_errors, version_errors, validate,
}

append-nil_iff : {A : Type 0} (xs ys : List A) → (xs ++ ys ≡ []) ↔ ((xs ≡ []) × (ys ≡ []))
append-nil_iff [] ys = ((λ h. (refl, h)), (λ h. h.1))
append-nil_iff (x ∷ xs) ys = ((λ h. cc), (λ h. cc))

error_if-nil_iff : (b : Bool) (e : ListError) → (error_if b e ≡ []) ↔ (b ≡ false)
unfolding error_if
error_if-nil_iff true e = ((λ h. cc), (λ h. cc))
error_if-nil_iff false e = ((λ h. refl), (λ h. refl))

error_of-nil_iff : (r : Result VersionError (Unit {0})) → (error_of r ≡ []) ↔ (r ≡ ok tt)
unfolding error_of
error_of-nil_iff (ok tt) = ((λ h. refl), (λ h. refl))
error_of-nil_iff (err e) = ((λ h. cc), (λ h. cc))

kind_iff : (k : VersionKind) → (is_no_kind k ≡ false) ↔ (k ≢ unknown_kind)
unfolding is_no_kind
kind_iff unknown_kind = ((λ h. cc), (λ h. absurd (h refl)))
kind_iff image = ((λ h e. cc), (λ h. refl))
kind_iff cli = ((λ h e. cc), (λ h. refl))

granularity_iff :
    (g : Granularity) → (not (is_list_granularity g) ≡ false) ↔ ((g ≡ major) ⊎ (g ≡ minor))
unfolding is_list_granularity
granularity_iff major = ((λ h. inl refl), (λ h. refl))
granularity_iff minor = ((λ h. inr refl), (λ h. refl))
granularity_iff patch = ((λ h. cc), (λ h. elim h [ inl e ↦ cc | inr e ↦ cc ]))
granularity_iff unknown_granularity = ((λ h. cc), (λ h. elim h [ inl e ↦ cc | inr e ↦ cc ]))

not-false_iff : (b : Bool) → (not b ≡ false) ↔ (b ≡ true)
not-false_iff true = ((λ h. refl), (λ h. refl))
not-false_iff false = ((λ h. cc), (λ h. cc))

module _ (lib : SemverLib) where
  -- A version that is finer than the base, at the granularity.
  abbrev pub IsFiner : Granularity → Bytes → Bytes → Type 0
  IsFiner gran base v = (lib.is_valid v ≡ true) × (normalize lib gran v ≡ base) × (base ≢ v)

  -- The request parameters.
  abbrev pub IsRequest : VersionList → Type 0
  IsRequest l =
      (validate_ref l.ref ≡ ok tt)
      × (validate_stream l.ref l.stream ≡ ok tt)
      × ((l.granularity ≡ major) ⊎ (l.granularity ≡ minor))
      × (l.kind ≢ unknown_kind)
      × (lib.is_valid l.base ≡ true)
      × (normalize lib l.granularity l.base ≡ l.base)

  finer_iff :
      (gran : Granularity) (base v : Bytes)
      → ((not (bytes_eq (normalize lib gran v) base) || bytes_eq (normalize lib gran v) v) ≡ false)
        ↔ ((normalize lib gran v ≡ base) × (base ≢ v))
  finer_iff gran base v =
      let same = bytes_eq_iff (normalize lib gran v) base in
      let own = bytes_eq_iff (normalize lib gran v) v in
      (
        (λ h. elim (Bool-cases (bytes_eq (normalize lib gran v) base)) [
          | inl y ↦ (same.0 y, (λ e. ground (arith, h, y, own.1 (same.0 y ∙ e))))
          | inr n ↦ absurd (ground (arith, h, n))
        ]),
        (λ h. elim (Bool-cases (bytes_eq (normalize lib gran v) v)) [
          | inl y ↦ absurd (h.1 (sym h.0 ∙ own.0 y))
          | inr n ↦ ground (arith, same.1 h.0, n)
        ]),
      )

  request_errors_iff : (l : VersionList) → (request_errors lib l ≡ []) ↔ IsRequest l
  unfolding request_errors
  request_errors_iff l = (
    (λ h.
        let (h₁, n) =
          (append-nil_iff _
              (error_if (not (bytes_eq (normalize lib l.granularity l.base) l.base)) _)).0
            h in
        let (h₂, b) = (append-nil_iff _ (error_if (not (lib.is_valid l.base)) _)).0 h₁ in
        let (h₃, k) = (append-nil_iff _ (error_if (is_no_kind l.kind) _)).0 h₂ in
        let (h₄, g) =
          (append-nil_iff _ (error_if (not (is_list_granularity l.granularity)) _)).0 h₃ in
        let (r, s) = (append-nil_iff (error_of (validate_ref l.ref)) _).0 h₄ in
        (
          (error_of-nil_iff _).0 r,
          (error_of-nil_iff _).0 s,
          (granularity_iff l.granularity).0 ((error_if-nil_iff _ _).0 g),
          (kind_iff l.kind).0 ((error_if-nil_iff _ _).0 k),
          (not-false_iff _).0 ((error_if-nil_iff _ _).0 b),
          (bytes_eq_iff _ _).0 ((not-false_iff _).0 ((error_if-nil_iff _ _).0 n)),
        )),
    (λ (r, s, g, k, b, n).
        let h₄ = (append-nil_iff _ _).1 (
          (error_of-nil_iff (validate_ref l.ref)).1 r,
          (error_of-nil_iff (validate_stream l.ref l.stream)).1 s,
        ) in
        let h₃ = (append-nil_iff _ _).1 (
          h₄,
          (error_if-nil_iff _ (no_list_granularity l.granularity)).1
              ((granularity_iff l.granularity).1 g),
        ) in
        let h₂ =
          (append-nil_iff _ _).1
            (h₃, (error_if-nil_iff _ no_list_kind).1 ((kind_iff l.kind).1 k)) in
        let h₁ = (append-nil_iff _ _).1 (
          h₂,
          (error_if-nil_iff _ (base_not_semver l.base)).1
              ((not-false_iff (lib.is_valid l.base)).1 b),
        ) in
        (append-nil_iff _ _).1 (
          h₁,
          (error_if-nil_iff _ (base_not_of_granularity l.base l.granularity)).1
              ((not-false_iff _).1 ((bytes_eq_iff _ _).1 n)),
        )),
  )

  version_errors_iff :
      (gran : Granularity) (base : Bytes) (vs : List Bytes)
      → (version_errors lib gran base vs ≡ []) ↔ All (IsFiner gran base) vs
  unfolding version_errors
  version_errors_iff gran base [] = ((λ h. tt), (λ h. refl))
  version_errors_iff gran base (v ∷ vs) = (
    (λ h.
        let (h₁, rest) = (append-nil_iff _ (version_errors lib gran base vs)).0 h in
        let (s, f) = (append-nil_iff (error_if (not (lib.is_valid v)) _) _).0 h₁ in
        (
          (let finer = (finer_iff gran base v).0 ((error_if-nil_iff _ _).0 f) in
              ((not-false_iff _).0 ((error_if-nil_iff _ _).0 s), finer.0, finer.1)),
          (version_errors_iff gran base vs).0 rest,
        )),
    (λ (f, rest).
        let s =
          (error_if-nil_iff _ (version_not_semver v)).1 ((not-false_iff (lib.is_valid v)).1 f.0) in
        let g = (error_if-nil_iff _ (not_finer v base)).1 ((finer_iff gran base v).1 (f.1, f.2)) in
        (append-nil_iff _ _).1
          ((append-nil_iff _ _).1 (s, g), (version_errors_iff gran base vs).1 rest)),
  )

  -- `Validate` accepts a list exactly if its ref and stream are valid, its granularity is major or
  -- minor, its kind is known, its base is a valid version that is its own normal form at that
  -- granularity, and every version of it is valid, has the base as its normal form and is not the
  -- base.
  pub validate_iff :
      (l : VersionList)
      → (validate lib l ≡ []) ↔ (IsRequest l × All (IsFiner l.granularity l.base) l.versions)
  unfolding validate
  validate_iff l = (
    (λ h.
        let (r, v) = (append-nil_iff (request_errors lib l) _).0 h in
        ((request_errors_iff l).0 r, (version_errors_iff l.granularity l.base l.versions).0 v)),
    (λ (r, v).
        (append-nil_iff _ _).1
          ((request_errors_iff l).1 r, (version_errors_iff l.granularity l.base l.versions).1 v)),
  )
