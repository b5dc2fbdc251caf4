-- ===== src/VersionsApi/ShortPath.antt =====
-- The short path of a valid version names that version.
use geth_sev.Prelude.{
  ℕ, ◌≡◌, refl, sym, ap, ap₂, ◌∙◌, subst, Bytes, codes, bytes_eq, bytes_eq_iff, true, false, List,
  [], ◌∷◌, All, Bool-cases, ok, inl, inr,
}
use geth_sev.Semantic.{SemverLib, IsSemver, is_alnum_or_dash, is_version_char}
use geth_sev.FilePath.{split, path_join}
use geth_sev.FilePath.Plain.{
  IsPlain, split-join, path_join-plain, plain-NoSlash, split-plain, path_join-empty,
}
use geth_sev.VersionsApi.{
  Version, release_ref, all_of, is_class, validate_stream, short_path, match_ref, parse_ref,
  parse_release, parse_short_path, validate, new_version_from_short_path,
}
use geth_sev.VersionsApi.Parts.{
  class-IsPlain, version-IsPlain, ref_facts, stream_cases, stream_class, release_stream, IsChecked,
  validate_facts, checked_lem, version_chars, ref-IsPlain, stream-IsPlain, match_ref-segments,
  match_release-segments, parse_of_ref, parse_of_release, parse_of_version,
}

true_class :
    (s : Bytes) (c : ℕ) (rest : Bytes)
    → all_of is_version_char s ≡ true
    → s ≡ c ∷ rest
    → is_class is_version_char s ≡ true
unfolding is_class bytes_eq
true_class s c rest h e = rw (h, e)

pub split-path_join :
    (s : Bytes) (ss : List Bytes) → All IsPlain (s ∷ ss) → split (path_join (s ∷ ss)) ≡ s ∷ ss
split-path_join s ss h =
    ap split (path_join-plain s ss h) ∙ split-join s ss (plain-NoSlash (s ∷ ss) h)

module _ (lib : SemverLib) (laws : IsSemver lib) (v : Version) (c : IsChecked lib v) where
  version-class : is_class is_version_char v.version ≡ true
  version-class =
      let (chars, begins) = version_chars lib laws v c in
      let (rest, e) = begins in true_class v.version b'v' rest chars e

  pub version-IsPlain_at : IsPlain v.version
  version-IsPlain_at =
      let (chars, begins) = version_chars lib laws v c in
      let (rest, e) = begins in
      subst IsPlain (sym e)
        (version-IsPlain rest (subst (λ t. all_of is_version_char t ≡ true) e chars))

  pub stream-class : is_class is_alnum_or_dash v.stream ≡ true
  stream-class = stream_class v.stream (stream_cases v.ref v.stream c.stream_ok)

  ref_case :
      bytes_eq v.ref release_ref ≡ false
      → parse_short_path lib (short_path v.ref v.stream v.version) ≡ ok (v.ref, v.stream, v.version)
  unfolding short_path parse_ref
  ref_case n =
      let ref_class = ref_facts v.ref c.ref_ok in
      let plain : All IsPlain (codes "ref" ∷ v.ref ∷ codes "stream" ∷ v.stream ∷ v.version ∷ []) = (
        ref-IsPlain,
        (
          class-IsPlain v.ref ref_class,
          (stream-IsPlain, (class-IsPlain v.stream stream-class, (version-IsPlain_at, tt))),
        ),
      ) in
      rw n (
        parse_of_ref lib _ _ (v.ref, v.stream, v.version) (split-path_join _ _ plain)
          (match_ref-segments v.ref v.stream v.version ref_class stream-class version-class)
        ∙ rw (c.ref_ok, c.stream_ok, c.valid))

  stream_case :
      bytes_eq v.ref release_ref ≡ true
      → bytes_eq v.stream (codes "stable") ≡ false
      → parse_short_path lib (short_path v.ref v.stream v.version)
        ≡ ok (release_ref, v.stream, v.version)
  unfolding short_path parse_release match_ref
  stream_case r n =
      let plain : All IsPlain (codes "stream" ∷ v.stream ∷ v.version ∷ []) =
        (stream-IsPlain, (class-IsPlain v.stream stream-class, (version-IsPlain_at, tt))) in
      rw (r, n, path_join-empty)
        (parse_of_release lib _ _ (v.stream, v.version) (split-path_join _ _ plain) refl
            (match_release-segments v.stream v.version stream-class version-class)
          ∙ rw (
            release_stream v.stream
                (subst (λ q. validate_stream q v.stream ≡ ok tt)
                  ((bytes_eq_iff v.ref release_ref).0 r) c.stream_ok)
                n,
            c.valid,
          ))

  stable_case :
      bytes_eq v.ref release_ref ≡ true
      → bytes_eq v.stream (codes "stable") ≡ true
      → parse_short_path lib (short_path v.ref v.stream v.version)
        ≡ ok (release_ref, codes "stable", v.version)
  unfolding short_path
  stable_case r s =
      rw (r, s)
        (parse_of_version lib v.version (split-plain v.version version-IsPlain_at.no_slash) c.valid)

  -- What the short path of a checked version is parsed to.
  parse-short_path :
      parse_short_path lib (short_path v.ref v.stream v.version) ≡ ok (v.ref, v.stream, v.version)
  parse-short_path = elim (Bool-cases (bytes_eq v.ref release_ref)) [
    | inr n ↦ ref_case n
    | inl r ↦
        let e : v.ref ≡ release_ref = (bytes_eq_iff v.ref release_ref).0 r in
        elim (Bool-cases (bytes_eq v.stream (codes "stable"))) [
          | inr n ↦ stream_case r n ∙ ap (λ q. ok (q, v.stream, v.version)) (sym e)
          | inl s ↦
              stable_case r s
              ∙ ap₂ (λ q t. ok (q, t, v.version)) (sym e)
                  (sym ((bytes_eq_iff v.stream (codes "stable")).0 s))
        ]
  ]

-- The short path of a valid version is read back as that version.
pub new_version-short_path :
    (lib : SemverLib) (v : Version)
    → IsSemver lib
    → validate lib v ≡ []
    → new_version_from_short_path lib (short_path v.ref v.stream v.version) v.kind ≡ ok v
unfolding new_version_from_short_path
new_version-short_path lib v laws h =
    rw (parse-short_path lib laws v (validate_facts lib v h), new_version_from_short_path)
      (checked_lem lib v h)
