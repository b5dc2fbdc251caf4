-- ===== src/VersionsApi.antt =====
-- constellation/api/versionsapi/version.go: versions with a ref, a stream and a kind, their
-- validation, and the short paths that name them.
pub mod Kinds
pub mod Refs
pub mod Parts
pub mod Checked
pub mod ShortPath
pub mod Lists
pub mod Artifacts
use geth_sev.Prelude.{
  ℕ, zero, suc, ◌==◌, leb, Bytes, codes, bytes_eq, has_prefix, to_lower, Bool, true, false, ◌&&◌,
  ◌||◌, not, Option, none, some, List, [], ◌∷◌, ◌++◌, Result, ok, err, if◌then◌else◌, ◌-◌, ◌>>=◌,
  ◌>>◌, map_err,
}
use geth_sev.Semantic.{SemverLib, is_alnum_or_dash, is_version_char}
use geth_sev.FilePath.{split, path_join}

-- `VersionKind` and `Granularity`, with the constants of the source.
pub data VersionKind : Type 0 where
  unknown_kind image cli : VersionKind

pub data Granularity : Type 0 where
  unknown_granularity major minor patch : Granularity

pub record Version : Type 0 where
  pub ref : Bytes
  pub stream : Bytes
  pub version : Bytes
  pub kind : VersionKind

abbrev pub release_ref : Bytes
release_ref = codes "-"

pub data VersionError : Type 0 where
  empty_ref ref_chars ref_prefix : VersionError
  unknown_stream : Bytes → Bytes → VersionError
  not_semver not_canonical : Bytes → VersionError
  no_kind : VersionError
  invalid_version invalid_short_path : Bytes → VersionError

-- `VersionKind.String`
unfoldable pub kind_string : VersionKind → Bytes
kind_string image = codes "image"
kind_string cli = codes "cli"
kind_string unknown_kind = codes "unknown"

-- `VersionKindFromString`
unfoldable pub kind_from_string : Bytes → VersionKind
unfolding bytes_eq to_lower
kind_from_string s =
    if bytes_eq (to_lower s) (codes "image")
    then image
    else if bytes_eq (to_lower s) (codes "cli")
    then cli
    else unknown_kind

-- `Granularity.String`
unfoldable pub granularity_string : Granularity → Bytes
granularity_string major = codes "major"
granularity_string minor = codes "minor"
granularity_string patch = codes "patch"
granularity_string unknown_granularity = codes "unknown"

-- `GranularityFromString`
unfoldable pub granularity_from_string : Bytes → Granularity
unfolding bytes_eq to_lower
granularity_from_string s =
    if bytes_eq (to_lower s) (codes "major")
    then major
    else if bytes_eq (to_lower s) (codes "minor")
    then minor
    else if bytes_eq (to_lower s) (codes "patch")
    then patch
    else unknown_granularity

-- The byte of `[a-zA-Z0-9-]`; `FindString` finds something exactly if some byte is outside.
pub all_of : (ℕ → Bool) → Bytes → Bool
all_of p [] = true
all_of p (c ∷ s) = p c && all_of p s

-- `ValidateRef`
unfoldable pub validate_ref : Bytes → Result VersionError (Unit {0})
unfolding bytes_eq all_of has_prefix
validate_ref ref =
    if bytes_eq ref []
    then err empty_ref
    else if not (all_of is_alnum_or_dash ref)
    then err ref_chars
    else if has_prefix ref (codes "refs-heads")
    then err ref_prefix
    else ok tt

one_of : Bytes → List Bytes → Bool
one_of s [] = false
one_of s (t ∷ ts) = if bytes_eq s t then true else one_of s ts

-- `ValidateStream`
unfoldable pub validate_stream : Bytes → Bytes → Result VersionError (Unit {0})
unfolding one_of bytes_eq
validate_stream ref stream =
    let valid_release_streams = codes "stable" ∷ codes "console" ∷ codes "debug" ∷ [] in
    let valid_streams = codes "nightly" ∷ codes "console" ∷ codes "debug" ∷ [] in
    if one_of stream (if bytes_eq ref release_ref then valid_release_streams else valid_streams)
    then ok tt
    else err (unknown_stream stream ref)

-- How many bytes the first rune of a text takes; 1 for bytes that are no UTF-8.
rune_width : Bytes → ℕ
rune_width (a ∷ b ∷ rest) = elim rest [
  | [] ↦ two a b
  | c ∷ more ↦ elim more [ [] ↦ three a b c | d ∷ _ ↦ four a b c d ]
]
  where
    cont : ℕ → Bool
    cont x = leb 0x80 x && leb x 0xbf

    two : ℕ → ℕ → ℕ
    two x y = if leb 0xc2 x && leb x 0xdf && cont y then 2 else 1

    three : ℕ → ℕ → ℕ → ℕ
    three x y z =
        if (x == 0xe0 && leb 0xa0 y && leb y 0xbf && cont z)
          || (x == 0xed && leb 0x80 y && leb y 0x9f && cont z)
          || (leb 0xe1 x && leb x 0xef && not (x == 0xed) && cont y && cont z)
        then 3
        else two x y

    four : ℕ → ℕ → ℕ → ℕ → ℕ
    four x y z w =
        if (x == 0xf0 && leb 0x90 y && leb y 0xbf && cont z && cont w)
          || (x == 0xf4 && leb 0x80 y && leb y 0x8f && cont z && cont w)
          || (leb 0xf1 x && leb x 0xf3 && cont y && cont z && cont w)
        then 4
        else three x y z
rune_width s = 1

-- `ReplaceAllString(s, "-")` by `[^a-zA-Z0-9-]`: one dash for each rune outside the class. The
-- number is that of the bytes of the current rune that are still to be passed over.
replace_loop : ℕ → Bytes → Bytes
replace_loop k [] = []
replace_loop (suc k) (c ∷ s) = replace_loop k s
replace_loop zero (c ∷ s) =
    if is_alnum_or_dash c
    then c ∷ replace_loop zero s
    else b'-' ∷ replace_loop (rune_width (c ∷ s) - 1) s

-- `CanonicalizeRef`
unfoldable pub canonicalize_ref : Bytes → Bytes
unfolding bytes_eq replace_loop rune_width
canonicalize_ref ref =
    if bytes_eq ref release_ref
    then ref
    else if bytes_eq (replace_loop zero ref) release_ref
    then []
    else replace_loop zero ref

-- `shortPath`
unfoldable pub short_path : Bytes → Bytes → Bytes → Bytes
unfolding bytes_eq
short_path ref stream version =
    if not (bytes_eq ref release_ref)
    then path_join (codes "ref" ∷ ref ∷ codes "stream" ∷ stream ∷ version ∷ [])
    else if not (bytes_eq stream (codes "stable"))
    then path_join ([] ∷ codes "stream" ∷ stream ∷ version ∷ [])
    else version

pub is_class : (ℕ → Bool) → Bytes → Bool
unfolding all_of
is_class p s = not (bytes_eq s []) && all_of p s

-- `shortPathRegex`: the classes hold no slash, so a text matches exactly by its segments.
pub match_ref : List Bytes → Option (Bytes × Bytes × Bytes)
match_ref (a ∷ r ∷ b ∷ s ∷ v ∷ []) =
    if bytes_eq a (codes "ref")
      && is_class is_alnum_or_dash r
      && bytes_eq b (codes "stream")
      && is_class is_alnum_or_dash s
      && is_class is_version_char v
    then some (r, s, v)
    else none
match_ref segments = none

-- `shortPathReleaseRegex`
pub match_release : List Bytes → Option (Bytes × Bytes)
match_release (b ∷ s ∷ v ∷ []) =
    if bytes_eq b (codes "stream") && is_class is_alnum_or_dash s && is_class is_version_char v
    then some (s, v)
    else none
match_release segments = none

-- `if err != nil { retErr = errors.Join(retErr, err) }`
note : Result VersionError (Unit {0}) → List VersionError → List VersionError
note (ok u) errs = errs
note (err e) errs = errs ++ e ∷ []

note_if : Bool → VersionError → List VersionError → List VersionError
note_if b e errs = if b then errs ++ e ∷ [] else errs

is_unknown_kind : VersionKind → Bool
is_unknown_kind k = elim k [ unknown_kind ↦ true | _ ↦ false ]

module _ (lib : SemverLib) where
  pub parse_ref : Bytes × Bytes × Bytes → Result VersionError (Bytes × Bytes × Bytes)
  parse_ref (ref, stream, version) = do
    validate_ref ref
    validate_stream ref stream
    if not (lib.is_valid version) then err (invalid_version version) else ok (ref, stream, version)

  -- The stream is checked against the function's result `ref`, which is still empty here.
  pub parse_release : Bytes × Bytes → Result VersionError (Bytes × Bytes × Bytes)
  parse_release (stream, version) = do
    validate_stream [] stream
    if not (lib.is_valid version)
        then err (invalid_version version)
        else ok (release_ref, stream, version)

  -- `parseShortPath`
  unfoldable pub parse_short_path : Bytes → Result VersionError (Bytes × Bytes × Bytes)
  unfolding match_ref match_release is_class parse_ref parse_release
  parse_short_path path = elim (match_ref (split path)) [
    | some m ↦ parse_ref m
    | none ↦ elim (match_release (split path)) [
      | some m ↦ parse_release m
      | none ↦
          if lib.is_valid path
          then ok (release_ref, codes "stable", path)
          else err (invalid_short_path path)
    ]
  ]

  -- `Validate`: the errors that are joined, in order; none is nil.
  unfoldable pub validate : Version → List VersionError
  unfolding note note_if is_unknown_kind bytes_eq
  validate v = note_if (is_unknown_kind v.kind) no_kind (
      note_if (not (bytes_eq (lib.canonical v.version) v.version)) (not_canonical v.version) (
        note_if (not (lib.is_valid v.version)) (not_semver v.version)
          (note (validate_stream v.ref v.stream) (note (validate_ref v.ref) []))))

  unfoldable pub checked : Version → Result (List VersionError) Version
  unfolding validate
  checked v = elim (validate v) [ [] ↦ ok v | e ∷ es ↦ err (e ∷ es) ]

  -- `NewVersion`
  unfoldable pub new_version :
      Bytes → Bytes → Bytes → VersionKind → Result (List VersionError) Version
  unfolding checked
  new_version ref stream version kind =
      checked (record { ref = ref; stream = stream; version = version; kind = kind })

  -- `NewVersionFromShortPath`
  unfoldable pub new_version_from_short_path :
      Bytes → VersionKind → Result (List VersionError) Version
  unfolding checked parse_short_path
  new_version_from_short_path path kind = do
    (ref, stream, version) ← map_err (λ e. e ∷ []) (parse_short_path path)
    checked (record { ref = ref; stream = stream; version = version; kind = kind })
