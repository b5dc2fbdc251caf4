-- ===== src/Tests/Versions.antt =====
-- Versions and their paths, over a library that knows one version.
use Prim.Native.Nat.{Ordering}
use geth_sev.Prelude.{
  ◌≡◌, refl, sym, subst, Bytes, codes, bytes_eq, bytes_eq_iff, true, [], All, ok,
}
use geth_sev.Semantic.{SemverLib, IsSemver, is_version_char}
use geth_sev.VersionsApi.{
  Version, image, validate, short_path, new_version_from_short_path, validate_ref, validate_stream,
}
use geth_sev.VersionsApi.ShortPath.{new_version-short_path}

abbrev pub only : Bytes
only = codes "v1.2.3"

abbrev pub one_version : SemverLib
one_version = record {
  is_valid = λ v. bytes_eq v only;
  canonical = λ v. v;
  major = λ v. codes "v1";
  major_minor = λ v. codes "v1.2";
  compare = λ v w. Ordering.eq;
}

only_chars : All (λ c. is_version_char c ≡ true) only
only_chars = (refl, (refl, (refl, (refl, (refl, (refl, tt))))))

one_version-IsSemver : IsSemver one_version
one_version-IsSemver = record {
  valid_prefix = λ v h. (codes "1.2.3", (bytes_eq_iff v only).0 h);
  canonical_chars = λ v h c.
      subst (All (λ c. is_version_char c ≡ true)) (sym ((bytes_eq_iff v only).0 h)) only_chars;
}

abbrev nightly : Version
nightly = record { ref = codes "feat-x"; stream = codes "nightly"; version = only; kind = image }

nightly_valid : validate one_version nightly ≡ []
unfolding validate validate_ref validate_stream bytes_eq
nightly_valid = refl

short_path_example :
    new_version_from_short_path one_version
      (short_path nightly.ref nightly.stream nightly.version)
      image
    ≡ ok nightly
short_path_example = new_version-short_path one_version nightly one_version-IsSemver nightly_valid
