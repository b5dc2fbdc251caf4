-- ===== src/Semver/Text.antt =====
-- constellation/semver/semver.go: a version is read back from its text.
use geth_sev.Prelude.{
  ℕ, ◌≡◌, refl, ap, ◌∙◌, sym, Bytes, codes, concat, List, [], ◌∷◌, ◌++◌, true, false, ◌==◌, ok,
  arith, All, has_prefix,
}
use geth_sev.Semantic.{SemverLib}
use geth_sev.Semver.{
  Semver, NumberLib, new, new_slice, string, to_strings, after_dash, with_v, prefixed, parts_of,
  text_of,
}

-- Numbers are printed without a dash, and scanned where they are followed by a dash or by nothing.
pub record IsNumberLib (num : NumberLib) : Type 0 where
  pub print_dashes : (n : ℕ) → All (λ c. (c == b'-') ≡ false) (num.print n)
  pub scan_printed :
      (a b c : ℕ)
      → num.scan_parts (
          concat (codes "v" ∷ num.print a ∷ codes "." ∷ num.print b ∷ codes "." ∷ num.print c ∷ []))
        ≡ ok (a, b, c)
  pub scan_prerelease :
      (a b c : ℕ) (rest : Bytes)
      → num.scan_parts (
          concat (
            codes "v"
            ∷ num.print a
            ∷ codes "."
            ∷ num.print b
            ∷ codes "."
            ∷ num.print c
            ∷ codes "-"
            ∷ rest
            ∷ []))
        ≡ ok (a, b, c)

-- A version whose text is valid and canonical.
abbrev pub IsCanonical : SemverLib → NumberLib → Semver → Type 0
IsCanonical lib num v =
    (lib.is_valid (string num v) ≡ true) × (lib.canonical (string num v) ≡ string num v)

abbrev NoDash : Bytes → Type 0
NoDash s = All (λ c. (c == b'-') ≡ false) s

after_dash-skip : (s t : Bytes) → NoDash s → after_dash (s ++ t) ≡ after_dash t
unfolding after_dash
after_dash-skip [] t h = refl
after_dash-skip (c ∷ s) t h = ground (arith, h.0, after_dash-skip s t h.1)

append_nil : (xs : Bytes) → xs ++ [] ≡ xs
append_nil [] = refl
append_nil (x ∷ xs) = ap (λ w. x ∷ w) (append_nil xs)

module _ (lib : SemverLib) (num : NumberLib) (laws : IsNumberLib num) where
  after_dash-numbers :
      (a b c : ℕ) (t : Bytes)
      → after_dash (
          concat
            (codes "v" ∷ num.print a ∷ codes "." ∷ num.print b ∷ codes "." ∷ num.print c ∷ t ∷ []))
        ≡ after_dash t
  unfolding after_dash
  after_dash-numbers a b c t =
      after_dash-skip (num.print a) (b'.' ∷ (num.print b ++ (b'.' ∷ (num.print c ++ t))))
        (laws.print_dashes a)
      ∙ after_dash-skip (num.print b) (b'.' ∷ (num.print c ++ t)) (laws.print_dashes b)
      ∙ after_dash-skip (num.print c) t (laws.print_dashes c)

  after_dash-text_of : (a b c : ℕ) (p : Bytes) → after_dash (text_of num a b c p) ≡ p
  unfolding text_of after_dash
  after_dash-text_of a b c [] =
      ap
        (λ w.
          after_dash
            (concat (codes "v" ∷ num.print a ∷ codes "." ∷ num.print b ∷ codes "." ∷ w ∷ [])))
        (sym (append_nil (num.print c)))
      ∙ after_dash-numbers a b c []
  after_dash-text_of a b c (p ∷ re) = after_dash-numbers a b c (b'-' ∷ (p ∷ re))

  scan-text_of : (a b c : ℕ) (p : Bytes) → num.scan_parts (text_of num a b c p) ≡ ok (a, b, c)
  unfolding text_of
  scan-text_of a b c [] = laws.scan_printed a b c
  scan-text_of a b c (p ∷ re) = laws.scan_prerelease a b c (p ∷ re)

  with_v-text_of : (a b c : ℕ) (p : Bytes) → with_v (text_of num a b c p) ≡ text_of num a b c p
  unfolding text_of with_v has_prefix
  with_v-text_of a b c [] = refl
  with_v-text_of a b c (p ∷ re) = refl

  new-text :
      (s p : Bytes) (a b c : ℕ)
      → with_v s ≡ s
      → lib.is_valid s ≡ true
      → lib.canonical s ≡ s
      → num.scan_parts s ≡ ok (a, b, c)
      → after_dash s ≡ p
      → new lib num s ≡ ok (record { major = a; minor = b; patch = c; prerelease = p })
  unfolding new prefixed parts_of
  new-text s p a b c pre valid canonical scanned dash =
      ap (prefixed lib num) pre ∙ rw (valid) (ap (parts_of num) canonical ∙ rw (scanned, dash) refl)

  pub new-string : (v : Semver) → IsCanonical lib num v → new lib num (string num v) ≡ ok v
  unfolding string
  new-string v h =
      new-text (string num v) v.prerelease v.major v.minor v.patch
        (with_v-text_of v.major v.minor v.patch v.prerelease) h.0 h.1
        (scan-text_of v.major v.minor v.patch v.prerelease)
        (after_dash-text_of v.major v.minor v.patch v.prerelease)

  -- Where numbers are printed without a dash and scanned back: `NewSlice` reads a list of versions back
  -- from the result of `ToStrings`, and so `New` each one from its `String`, if their texts are valid
  -- and canonical.
  pub new_slice-to_strings :
      (vs : List Semver)
      → All (IsCanonical lib num) vs
      → new_slice lib num (to_strings num vs) ≡ ok vs
  unfolding new_slice to_strings
  new_slice-to_strings [] h = refl
  new_slice-to_strings (v ∷ vs) h = rw (new-string v h.0, new_slice-to_strings vs h.1) refl
