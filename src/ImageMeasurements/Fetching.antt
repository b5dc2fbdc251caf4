-- ===== src/ImageMeasurements/Fetching.antt =====
-- constellation/attestation/measurements/fetchmeasurements.go: what fetched and verified
-- measurements rest on.
use geth_sev.Prelude.{
  ◌≡◌, refl, sym, ap, ◌∙◌, ◌⊎◌, inl, inr, bytes_eq_iff, codes, Bytes, List, [], ◌∷◌, true, false,
  Option, ok, map_err, >>=-eq-ok, map_err-ok, ok-injective, arith, Option-cases,
}
use geth_sev.CloudProvider.{Provider}
use geth_sev.Variant.{Variant}
use geth_sev.Measurements.{M}
use geth_sev.Semantic.{SemverLib}
use geth_sev.VersionsApi.{
  Version, image, new_version_from_short_path, release_ref, new_version, validate,
}
use geth_sev.VersionsApi.Checked.{new_version-ok}
use geth_sev.ImageMeasurements.Entries.{IsFirstFor, find_entry-IsFirstFor}
use geth_sev.ImageMeasurements.{
  Entry, ImageMeasurements, FetchLib, find_entry, version_equal, from_image_measurements,
  fetch_and_verify, verify_with_rekor, first_entry, verified, measurement_url,
  cosign_public_key_for_version, fetch_and_verify_measurements,
}

validate_cases : {A : Type 0} (es : List A) → (es ≡ []) ⊎ ((e : A) × (r : List A) × (es ≡ e ∷ r))
validate_cases [] = inl refl
validate_cases (e ∷ es) = inr (e, es, refl)

module _ (sem : SemverLib) (lib : FetchLib) where
  -- The document is for this version, and its first entry for the provider and the variant has
  -- these measurements.
  abbrev pub IsFor : Version → Provider → Option Variant → ImageMeasurements → M → Type 0
  IsFor version csp v ms m =
      (ms.ref ≡ version.ref)
      × (ms.stream ≡ version.stream)
      × (ms.version ≡ version.version)
      × ((entry : Entry) × IsFirstFor csp v ms.list entry × (entry.measurements ≡ m))

  -- The key for the releases of the stable stream, and the one for all other versions.
  abbrev pub IsKeyFor : Version → Bytes → Type 0
  IsKeyFor version key =
      ((version.ref ≡ release_ref) × (version.stream ≡ codes "stable") × (key ≡ lib.release_key))
      ⊎ (¬ ((version.ref ≡ release_ref) × (version.stream ≡ codes "stable")) × (key ≡ lib.dev_key))

  -- Signed with the key is the document, and the first entry that Rekor has for its hash is
  -- verified with the key.
  abbrev pub IsTrusted : Bytes → Bytes → Bytes → ImageMeasurements → Type 0
  IsTrusted key url signature_url ms =
      (raw signature uuid : Bytes) × (others : List Bytes) × (lib.get_from_url url ≡ ok raw)
      × (lib.get_from_url signature_url ≡ ok signature)
      × (lib.verify_signature key raw signature ≡ ok tt)
      × (lib.unmarshal raw ≡ ok ms)
      × (lib.search_by_hash (lib.sha256_hex raw) ≡ ok (uuid ∷ others))
      × (lib.verify_entry uuid (lib.base64 key) ≡ ok tt)

  version_equal-eq :
      (want got : Version)
      → version_equal want got ≡ true
      → (got.ref ≡ want.ref) × (got.stream ≡ want.stream) × (got.version ≡ want.version)
  unfolding version_equal
  version_equal-eq want got h = (
    ground (arith, h, bytes_eq_iff want.ref got.ref),
    ground (arith, h, bytes_eq_iff want.stream got.stream),
    ground (arith, h, bytes_eq_iff want.version got.version),
  )

  from_image_measurements-IsFor :
      (ms : ImageMeasurements) (want : Version) (csp : Provider) (v : Option Variant) (m : M)
      → from_image_measurements sem lib ms want csp v ≡ ok m
      → IsFor want csp v ms m
  unfolding from_image_measurements
  from_image_measurements-IsFor ms want csp v m h =
      let (got, made, h₁) =
        >>=-eq-ok (map_err _ (new_version sem ms.ref ms.stream ms.version image)) _ h in
      let eq : version_equal want got ≡ true = ground (arith, h₁) in
      let parts =
        new_version-ok sem ms.ref ms.stream ms.version image got (map_err-ok _ _ got made) in
      let same = version_equal-eq want got eq in
      elim (Option-cases (find_entry csp v ms.list)) [
        | inl n ↦ absurd (ground (arith, h₁, eq, n))
        | inr e ↦ (
          sym (ap (λ x. x.ref) parts) ∙ same.0,
          sym (ap (λ x. x.stream) parts) ∙ same.1,
          sym (ap (λ x. x.version) parts) ∙ same.2,
          (e.0, find_entry-IsFirstFor csp v ms.list e.0 e.1, ground (arith, h₁, eq, e.1)),
        )
      ]

  key-IsKeyFor :
      (version : Version) (key : Bytes)
      → cosign_public_key_for_version sem lib version ≡ ok key
      → IsKeyFor version key
  unfolding cosign_public_key_for_version
  key-IsKeyFor version key h = elim (validate_cases (validate sem version)) [
    | inr e ↦ absurd (ground (arith, h, e.2))
    | inl n ↦ ground (
      arith,
      h,
      n,
      bytes_eq_iff version.ref release_ref,
      bytes_eq_iff version.stream (codes "stable"),
    )
  ]

  first_entry-ok :
      (key : Bytes) (uuids : List Bytes)
      → first_entry lib key uuids ≡ ok tt
      → (uuid : Bytes) × (others : List Bytes) × (uuids ≡ uuid ∷ others)
        × (lib.verify_entry uuid (lib.base64 key) ≡ ok tt)
  unfolding first_entry
  first_entry-ok key [] h = cc
  first_entry-ok key (uuid ∷ others) h = (uuid, others, refl, map_err-ok _ _ tt h)

  rekor-first :
      (key hash : Bytes)
      → verify_with_rekor lib key hash ≡ ok tt
      → (uuid : Bytes) × (others : List Bytes) × (lib.search_by_hash hash ≡ ok (uuid ∷ others))
        × (lib.verify_entry uuid (lib.base64 key) ≡ ok tt)
  unfolding verify_with_rekor
  rekor-first key hash h =
      let (uuids, found, h₁) = >>=-eq-ok (map_err _ (lib.search_by_hash hash)) _ h in
      let (uuid, others, e, entry) = first_entry-ok key uuids h₁ in
      (uuid, others, map_err-ok _ _ uuids found ∙ ap ok e, entry)

  fetch_and_verify-signed :
      (key url signature_url : Bytes) (want : Version) (csp : Provider) (v : Option Variant) (m : M)
      (hash : Bytes)
      → fetch_and_verify sem lib key url signature_url want csp v ≡ ok (m, hash)
      → (raw signature : Bytes) × (ms : ImageMeasurements) × (lib.get_from_url url ≡ ok raw)
        × (lib.get_from_url signature_url ≡ ok signature)
        × (lib.verify_signature key raw signature ≡ ok tt)
        × (lib.unmarshal raw ≡ ok ms)
        × IsFor want csp v ms m
        × (hash ≡ lib.sha256_hex raw)
  unfolding fetch_and_verify
  fetch_and_verify-signed key url signature_url want csp v m hash h =
      let (raw, e₁, h₁) = >>=-eq-ok (map_err _ (lib.get_from_url url)) _ h in
      let (signature, e₂, h₂) = >>=-eq-ok (map_err _ (lib.get_from_url signature_url)) _ h₁ in
      let (u, e₃, h₃) = >>=-eq-ok (map_err _ (lib.verify_signature key raw signature)) _ h₂ in
      let (ms, e₄, h₄) = >>=-eq-ok (map_err _ (lib.unmarshal raw)) _ h₃ in
      let (n, e₅, h₅) = >>=-eq-ok (from_image_measurements sem lib ms want csp v) _ h₄ in
      let pair = ok-injective _ _ h₅ in
      (
        raw,
        signature,
        ms,
        map_err-ok _ _ raw e₁,
        map_err-ok _ _ signature e₂,
        map_err-ok _ _ u e₃,
        map_err-ok _ _ ms e₄,
        from_image_measurements-IsFor ms want csp v m (e₅ ∙ ap (λ x. ok x.0) pair),
        sym (ap (λ x. x.1) pair),
      )

  verified-IsTrusted :
      (key url signature_url : Bytes) (version : Version) (csp : Provider) (v : Option Variant)
      (m : M)
      → verified sem lib key url signature_url version csp v ≡ ok m
      → (ms : ImageMeasurements) × IsTrusted key url signature_url ms × IsFor version csp v ms m
  unfolding verified
  verified-IsTrusted key url signature_url version csp v m h =
      let (got, e, h₁) =
        >>=-eq-ok (fetch_and_verify sem lib key url signature_url version csp v) _ h in
      let (w, rekor, h₂) = >>=-eq-ok (verify_with_rekor lib key got.1) _ h₁ in
      let (raw, signature, ms, r₁, r₂, r₃, r₄, for_it, hashed) =
        fetch_and_verify-signed key url signature_url version csp v m got.1
          (e ∙ ap (λ x. ok (x, got.1)) (ok-injective _ _ h₂)) in
      let (uuid, others, found, entry) = rekor-first key got.1 rekor in
      (
        ms,
        (
          raw,
          signature,
          uuid,
          others,
          r₁,
          r₂,
          r₃,
          r₄,
          ap lib.search_by_hash (sym hashed) ∙ found,
          entry,
        ),
        for_it,
      )

  -- With verification, measurements are returned only if: the image's path is that of a version; the
  -- key is the one for releases if the version is a release of the stable stream, and the other one
  -- otherwise; the document that was fetched is signed with it, and the first entry that Rekor has for
  -- the hash of that document is verified with it too; the document is for that version; and the
  -- measurements are those of the first of its entries that name the provider and the variant.
  pub fetched-IsTrusted :
      (path : Bytes) (csp : Provider) (v : Option Variant) (m : M)
      → fetch_and_verify_measurements sem lib path csp v false ≡ ok m
      → (version : Version) × (key url signature_url : Bytes) × (ms : ImageMeasurements)
        × (new_version_from_short_path sem path image ≡ ok version)
        × IsKeyFor version key
        × (measurement_url lib version ≡ ok (url, signature_url))
        × IsTrusted key url signature_url ms
        × IsFor version csp v ms m
  unfolding fetch_and_verify_measurements
  fetched-IsTrusted path csp v m h =
      let (version, e₁, h₁) =
        >>=-eq-ok (map_err _ (new_version_from_short_path sem path image)) _ h in
      let (key, e₂, h₂) =
        >>=-eq-ok (map_err _ (cosign_public_key_for_version sem lib version)) _ h₁ in
      let (u, e₃, h₃) = >>=-eq-ok (map_err _ (lib.new_cosign_verifier key)) _ h₂ in
      let (urls, e₄, h₄) = >>=-eq-ok (measurement_url lib version) _ h₃ in
      let (ms, trusted, for_it) = verified-IsTrusted key urls.0 urls.1 version csp v m h₄ in
      (
        version,
        key,
        urls.0,
        urls.1,
        ms,
        map_err-ok _ _ version e₁,
        key-IsKeyFor version key (map_err-ok _ _ key e₂),
        e₄,
        trusted,
        for_it,
      )
