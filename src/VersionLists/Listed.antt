-- ===== src/VersionLists/Listed.antt =====
-- constellation/api/versionsapi/list.go: the versions that a valid list contains.
use geth_sev.Prelude.{
  ◌≡◌, ◌≢◌, ◌↔◌, refl, ap, ◌∙◌, Bytes, bytes_eq_iff, true, List, [], ◌∷◌, All_at, In, ◌⊎◌, inl, inr,
  arith,
}
use geth_sev.Semantic.{SemverLib}
use geth_sev.VersionsApi.{
  Granularity, unknown_granularity, major, minor, patch, VersionKind, unknown_kind, image, cli,
  Version,
}
use geth_sev.VersionsApi
use geth_sev.VersionsApi.Lists.{list_path}
use geth_sev.VersionsApi.Checked.{validate_checked_iff}
use geth_sev.VersionLists.{
  VersionList, json_path, contains_loop, contains, structured_loop, structured_versions, normalize,
  validate,
}
use geth_sev.VersionLists.Checked.{IsFiner, validate_iff}

contains_loop_iff : (v : Bytes) (vs : List Bytes) → (contains_loop v vs ≡ true) ↔ In v vs
unfolding contains_loop
contains_loop_iff v [] = ((λ h. cc), (λ h. absurd h))
contains_loop_iff v (w ∷ vs) = ground (arith, contains_loop_iff v vs, bytes_eq_iff w v)

-- The version that `StructuredVersions` makes of a listed one.
abbrev pub structured : VersionList → Bytes → Version
structured l v = record { ref = l.ref; stream = l.stream; version = v; kind = l.kind }

In-structured_loop :
    (l : VersionList) (v : Bytes) (vs : List Bytes)
    → In v vs
    → In (structured l v) (structured_loop l vs)
unfolding structured_loop
In-structured_loop l v (w ∷ vs) (inl e) = inl (ap (structured l) e)
In-structured_loop l v (w ∷ vs) (inr m) = inr (In-structured_loop l v vs m)
In-structured_loop l v [] m = absurd m

module _ (lib : SemverLib) where
  abbrev list_with : VersionList → Granularity → Bytes → VersionList
  list_with l g b = record {
    ref = l.ref;
    stream = l.stream;
    granularity = g;
    base = b;
    kind = l.kind;
    versions = l.versions;
  }

  list_path_at :
      (l : VersionList) (v : Bytes) (g : Granularity)
      → (g ≡ major) ⊎ (g ≡ minor)
      → list_path lib (structured l v) g ≡ json_path (list_with l g (normalize lib g v))
  unfolding list_path json_path normalize
  list_path_at l v major h = refl
  list_path_at l v minor h = refl
  list_path_at l v patch h = absurd (elim h [ inl e ↦ cc | inr e ↦ cc ])
  list_path_at l v unknown_granularity h = absurd (elim h [ inl e ↦ cc | inr e ↦ cc ])

  list_path-json_path :
      (l : VersionList) (v : Bytes)
      → (l.granularity ≡ major) ⊎ (l.granularity ≡ minor)
      → normalize lib l.granularity v ≡ l.base
      → list_path lib (structured l v) l.granularity ≡ json_path l
  list_path-json_path l v g e =
      list_path_at l v l.granularity g ∙ ap (λ b. json_path (list_with l l.granularity b)) e

  -- If `Validate` accepts a list and `Contains` finds a version in it, then `StructuredVersions` has
  -- that version with the list's ref, stream and kind, its `ListPath` at the list's granularity is the
  -- list's `JSONPath`, it is not the base, and it is itself accepted by `Validate` exactly if it is
  -- in canonical form.
  pub listed_lem :
      (l : VersionList) (v : Bytes)
      → validate lib l ≡ []
      → contains l v ≡ true
      → In (structured l v) (structured_versions l)
        × (list_path lib (structured l v) l.granularity ≡ json_path l)
        × (l.base ≢ v)
        × ((VersionsApi.validate lib (structured l v) ≡ []) ↔ (lib.canonical v ≡ v))
  unfolding contains structured_versions
  listed_lem l v h c =
      let ((r, s, g, k, b, n), finer) = (validate_iff lib l).0 h in
      let named : In v l.versions = (contains_loop_iff v l.versions).0 c in
      let (valid, under, other) =
        All_at (IsFiner lib l.granularity l.base) v l.versions finer named in
      (
        In-structured_loop l v l.versions named,
        list_path-json_path l v g under,
        other,
        validate_checked_iff lib (structured l v) r s k valid,
      )
