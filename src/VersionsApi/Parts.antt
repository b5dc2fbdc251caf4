-- ===== src/VersionsApi/Parts.antt =====
-- What validation and the short path's patterns say of the parts of a version.
use geth_sev.Prelude.{
  ◌≡◌, ◌≢◌, refl, ap, ◌∙◌, Bytes, codes, bytes_eq, bytes_eq_iff, Bool, true, false, not, List, [],
  ◌∷◌, ◌++◌, none, some, In, All, Result, ok, err, arith, inl, inr,
}
use geth_sev.Semantic.{SemverLib, IsSemver, is_alnum_or_dash, is_version_char}
use geth_sev.FilePath.{split}
use geth_sev.FilePath.Plain.{NoSlash, IsPlain}
use geth_sev.VersionsApi.{
  Version, VersionError, note_if, release_ref, all_of, is_class, validate_ref, validate_stream,
  one_of, match_ref, match_release, parse_ref, parse_release, parse_short_path, note, validate,
  checked,
}

all_of-version_char :
    (s : Bytes) → All (λ c. is_version_char c ≡ true) s → all_of is_version_char s ≡ true
unfolding all_of
all_of-version_char [] h = refl
all_of-version_char (c ∷ s) h = rw (h.0, all_of-version_char s h.1)

version-NoSlash : (s : Bytes) → all_of is_version_char s ≡ true → NoSlash s
unfolding all_of
version-NoSlash [] h = tt
version-NoSlash (c ∷ s) h = (ground arith, version-NoSlash s (ground arith))

alnum-NoSlash : (s : Bytes) → all_of is_alnum_or_dash s ≡ true → NoSlash s
unfolding all_of
alnum-NoSlash [] h = tt
alnum-NoSlash (c ∷ s) h = (ground arith, alnum-NoSlash s (ground arith))

no_dot : (s : Bytes) (t : Bytes) → all_of is_alnum_or_dash s ≡ true → bytes_eq s (b'.' ∷ t) ≡ false
unfolding all_of bytes_eq
no_dot [] t h = refl
no_dot (c ∷ s) t h = ground arith

pub class-IsPlain : (s : Bytes) → is_class is_alnum_or_dash s ≡ true → IsPlain s
unfolding is_class
class-IsPlain s h = record {
  no_slash = alnum-NoSlash s (ground arith);
  not_empty = ground arith;
  not_dot = no_dot s [] (ground arith);
  not_dot_dot = no_dot s (b'.' ∷ []) (ground arith);
}

pub version-IsPlain :
    (rest : Bytes) → all_of is_version_char (b'v' ∷ rest) ≡ true → IsPlain (b'v' ∷ rest)
unfolding bytes_eq
version-IsPlain rest h = record {
  no_slash = version-NoSlash (b'v' ∷ rest) h;
  not_empty = refl;
  not_dot = refl;
  not_dot_dot = refl;
}

pub ref_facts : (r : Bytes) → validate_ref r ≡ ok tt → is_class is_alnum_or_dash r ≡ true
unfolding validate_ref is_class
ref_facts r h = ground arith

-- The streams that some ref allows.
pub stream_cases :
    (r s : Bytes)
    → validate_stream r s ≡ ok tt
    → In s (codes "stable" ∷ codes "nightly" ∷ codes "console" ∷ codes "debug" ∷ [])
unfolding validate_stream one_of
stream_cases r s h = ground (
  arith,
  bytes_eq_iff s (codes "stable"),
  bytes_eq_iff s (codes "nightly"),
  bytes_eq_iff s (codes "console"),
  bytes_eq_iff s (codes "debug"),
)

pub stream_class :
    (s : Bytes)
    → In s (codes "stable" ∷ codes "nightly" ∷ codes "console" ∷ codes "debug" ∷ [])
    → is_class is_alnum_or_dash s ≡ true
unfolding is_class bytes_eq
stream_class s (inl e) = rw e
stream_class s (inr (inl e)) = rw e
stream_class s (inr (inr (inl e))) = rw e
stream_class s (inr (inr (inr (inl e)))) = rw e
stream_class s (inr (inr (inr (inr z)))) = absurd z

-- A stream of a release other than `stable` is a stream of the other refs too.
pub release_stream :
    (s : Bytes)
    → validate_stream release_ref s ≡ ok tt
    → bytes_eq s (codes "stable") ≡ false
    → validate_stream [] s ≡ ok tt
unfolding validate_stream one_of
release_stream s h n = ground arith

snoc_nil : {A : Type 0} (xs : List A) (x : A) → xs ++ x ∷ [] ≢ []
snoc_nil [] x h = cc
snoc_nil (y ∷ ys) x h = cc

note-nil :
    (r : Result VersionError (Unit {0})) (es : List VersionError)
    → note r es ≡ []
    → (r ≡ ok tt) × (es ≡ [])
unfolding note
note-nil (ok tt) es h = (refl, h)
note-nil (err e) es h = absurd (snoc_nil es e h)

note_if-nil :
    (b : Bool) (e : VersionError) (es : List VersionError)
    → note_if b e es ≡ []
    → (b ≡ false) × (es ≡ [])
unfolding note_if
note_if-nil true e es h = absurd (snoc_nil es e h)
note_if-nil false e es h = (refl, h)

not-false : (b : Bool) → not b ≡ false → b ≡ true
not-false true h = refl
not-false false h = cc

pub ref-IsPlain : IsPlain (codes "ref")
ref-IsPlain = class-IsPlain (codes "ref") (unfold is_class all_of bytes_eq in refl)

pub stream-IsPlain : IsPlain (codes "stream")
stream-IsPlain = class-IsPlain (codes "stream") (unfold is_class all_of bytes_eq in refl)

pub match_ref-segments :
    (r s v : Bytes)
    → is_class is_alnum_or_dash r ≡ true
    → is_class is_alnum_or_dash s ≡ true
    → is_class is_version_char v ≡ true
    → match_ref (codes "ref" ∷ r ∷ codes "stream" ∷ s ∷ v ∷ []) ≡ some (r, s, v)
unfolding match_ref bytes_eq
match_ref-segments r s v hr hs hv = rw (hr, hs, hv)

pub match_release-segments :
    (s v : Bytes)
    → is_class is_alnum_or_dash s ≡ true
    → is_class is_version_char v ≡ true
    → match_release (codes "stream" ∷ s ∷ v ∷ []) ≡ some (s, v)
unfolding match_release bytes_eq
match_release-segments s v hs hv = rw (hs, hv)

module _ (lib : SemverLib) where
  pub record IsChecked (v : Version) : Type 0 where
    pub ref_ok : validate_ref v.ref ≡ ok tt
    pub stream_ok : validate_stream v.ref v.stream ≡ ok tt
    pub valid : lib.is_valid v.version ≡ true
    pub canonical : lib.canonical v.version ≡ v.version

  pub validate_facts : (v : Version) → validate lib v ≡ [] → IsChecked v
  unfolding validate
  validate_facts v h =
      let (k, h₁) = note_if-nil _ _ _ h in
      let (c, h₂) = note_if-nil _ _ _ h₁ in
      let (w, h₃) = note_if-nil _ _ _ h₂ in
      let (s, h₄) = note-nil _ _ h₃ in
      let (r, h₅) = note-nil _ _ h₄ in
      record {
        ref_ok = r;
        stream_ok = s;
        valid = not-false _ w;
        canonical = (bytes_eq_iff (lib.canonical v.version) v.version).0 (not-false _ c);
      }

  pub checked_lem : (v : Version) → validate lib v ≡ [] → checked lib v ≡ ok v
  unfolding checked
  checked_lem v h = rw (h, checked)

  pub version_chars :
      IsSemver lib
      → (v : Version) → IsChecked v
      → (all_of is_version_char v.version ≡ true) × ((rest : Bytes) × (v.version ≡ b'v' ∷ rest))
  version_chars laws v c = (
    all_of-version_char v.version (laws.canonical_chars v.version c.valid c.canonical),
    laws.valid_prefix v.version c.valid,
  )

  pub parse_of_ref :
      (p : Bytes) (segments : List Bytes) (m : Bytes × Bytes × Bytes)
      → split p ≡ segments
      → match_ref segments ≡ some m
      → parse_short_path lib p ≡ parse_ref lib m
  unfolding parse_short_path
  parse_of_ref p segments m e h = rw (e, h, parse_short_path)

  pub parse_of_release :
      (p : Bytes) (segments : List Bytes) (m : Bytes × Bytes)
      → split p ≡ segments
      → match_ref segments ≡ none
      → match_release segments ≡ some m
      → parse_short_path lib p ≡ parse_release lib m
  unfolding parse_short_path
  parse_of_release p segments m e n h =
      rw (ap match_ref e ∙ n, ap match_release e ∙ h, parse_short_path)

  pub parse_of_version :
      (p : Bytes)
      → split p ≡ p ∷ []
      → lib.is_valid p ≡ true
      → parse_short_path lib p ≡ ok (release_ref, codes "stable", p)
  unfolding parse_short_path match_ref match_release
  parse_of_version p e h =
      let no_ref : match_ref (split p) ≡ none = ap match_ref e in
      let no_release : match_release (split p) ≡ none = ap match_release e in
      rw (no_ref, no_release, h, parse_short_path)
