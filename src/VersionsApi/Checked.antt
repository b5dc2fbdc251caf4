-- ===== src/VersionsApi/Checked.antt =====
-- constellation/api/versionsapi/version.go: what a version that `NewVersion` returns is.
use geth_sev.Prelude.{
  ◌≡◌, refl, Bytes, List, [], ◌∷◌, ok, arith, ◌⊎◌, inl, inr, ◌≢◌, ◌↔◌, true, false, bytes_eq_refl,
}
use geth_sev.Semantic.{SemverLib}
use geth_sev.VersionsApi.{
  Version, VersionKind, unknown_kind, image, cli, VersionError, new_version, checked, validate,
  validate_ref, validate_stream, note, note_if, is_unknown_kind,
}
use geth_sev.VersionsApi.Parts.{validate_facts}

errors_cases :
    (es : List VersionError)
    → (es ≡ []) ⊎ ((e : VersionError) × (r : List VersionError) × (es ≡ e ∷ r))
errors_cases [] = inl refl
errors_cases (e ∷ es) = inr (e, es, refl)

checked-ok :
    (sem : SemverLib) (v got : Version) → checked sem v ≡ ok got → (got ≡ v) × (validate sem v ≡ [])
unfolding checked
checked-ok sem v got h = elim (errors_cases (validate sem v)) [
  | inl n ↦ (ground (arith, h, n), n)
  | inr e ↦ absurd (ground (arith, h, e.2))
]

-- A version made of these parts is exactly of these parts.
pub new_version-ok :
    (sem : SemverLib) (ref stream version : Bytes) (kind : VersionKind) (got : Version)
    → new_version sem ref stream version kind ≡ ok got
    → got ≡ record { ref = ref; stream = stream; version = version; kind = kind }
unfolding new_version
new_version-ok sem ref stream version kind got h = (checked-ok sem _ got h).0

-- For the other parts of a version in order, its form decides.
pub validate_checked_iff :
    (lib : SemverLib) (v : Version)
    → validate_ref v.ref ≡ ok tt
    → validate_stream v.ref v.stream ≡ ok tt
    → v.kind ≢ unknown_kind
    → lib.is_valid v.version ≡ true
    → (validate lib v ≡ []) ↔ (lib.canonical v.version ≡ v.version)
unfolding validate note note_if is_unknown_kind
validate_checked_iff lib v r s k b = (
  (λ h. (validate_facts lib v h).canonical),
  (λ c. rw (r, s, b, c, bytes_eq_refl v.version, known v.kind k) refl),
)
  where
    known : (kind : VersionKind) → kind ≢ unknown_kind → is_unknown_kind kind ≡ false
    known unknown_kind h = absurd (h refl)
    known image h = refl
    known cli h = refl
