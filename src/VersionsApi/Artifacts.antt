-- ===== src/VersionsApi/Artifacts.antt =====
-- The paths under which the artifacts of valid versions are stored.
use geth_sev.Prelude.{
  ◌≡◌, refl, sym, ap, ◌∙◌, Bytes, bytes_eq, bytes_eq_iff, codes, List, [], ◌∷◌, All,
}
use geth_sev.Semantic.{SemverLib, IsSemver}
use geth_sev.FilePath.{split}
use geth_sev.FilePath.Plain.{IsPlain}
use geth_sev.VersionsApi.{Version, validate, is_class, all_of}
use geth_sev.VersionsApi.Lists.{ApiVersion, v1, v2, api_version_string, artifact_path}
use geth_sev.VersionsApi.Parts.{
  class-IsPlain, ref_facts, validate_facts, ref-IsPlain, stream-IsPlain,
}
use geth_sev.VersionsApi.ShortPath.{version-IsPlain_at, stream-class, split-path_join}

slug-IsPlain : (api : ApiVersion) → IsPlain (api_version_string api)
unfolding api_version_string is_class all_of bytes_eq
slug-IsPlain v1 = class-IsPlain _ refl
slug-IsPlain v2 = class-IsPlain _ refl

slug-injective : (a b : ApiVersion) → api_version_string a ≡ api_version_string b → a ≡ b
unfolding api_version_string bytes_eq
slug-injective v1 v1 h = refl
slug-injective v2 v2 h = refl
slug-injective v1 v2 h = let y = (bytes_eq_iff _ _).1 h in cc
slug-injective v2 v1 h = let y = (bytes_eq_iff _ _).1 h in cc

segments : Version → ApiVersion → List Bytes
segments v api =
    codes "constellation"
    ∷ api_version_string api
    ∷ codes "ref"
    ∷ v.ref
    ∷ codes "stream"
    ∷ v.stream
    ∷ v.version
    ∷ []

split-artifact_path :
    (lib : SemverLib) (v : Version) (api : ApiVersion)
    → IsSemver lib
    → validate lib v ≡ []
    → split (artifact_path v api) ≡ segments v api
unfolding artifact_path segments
split-artifact_path lib v api laws h =
    let c = validate_facts lib v h in
    let plain : All IsPlain (segments v api) = (
      class-IsPlain (codes "constellation") (unfold is_class all_of bytes_eq in refl),
      (
        slug-IsPlain api,
        (
          ref-IsPlain,
          (
            class-IsPlain v.ref (ref_facts v.ref c.ref_ok),
            (
              stream-IsPlain,
              (
                class-IsPlain v.stream (stream-class lib laws v c),
                (version-IsPlain_at lib laws v c, tt),
              ),
            ),
          ),
        ),
      ),
    ) in
    split-path_join _ _ plain

segments-injective :
    (v w : Version) (a b : ApiVersion)
    → segments v a ≡ segments w b
    → (api_version_string a ≡ api_version_string b)
      × (v.ref ≡ w.ref)
      × (v.stream ≡ w.stream)
      × (v.version ≡ w.version)
unfolding segments
segments-injective v w a b h = (cc, cc, cc, cc)

-- Two valid versions have the same artifact path only under the same version of the API and with
-- the same ref, stream and version.
pub artifact_path-injective :
    (lib : SemverLib) (v w : Version) (a b : ApiVersion)
    → IsSemver lib
    → validate lib v ≡ []
    → validate lib w ≡ []
    → artifact_path v a ≡ artifact_path w b
    → (a ≡ b) × (v.ref ≡ w.ref) × (v.stream ≡ w.stream) × (v.version ≡ w.version)
artifact_path-injective lib v w a b laws hv hw e =
    let parts = segments-injective v w a b (
      sym (split-artifact_path lib v a laws hv)
      ∙ ap split e
      ∙ split-artifact_path lib w b laws hw) in
    let (slug, r, s, t) = parts in (slug-injective a b slug, r, s, t)
