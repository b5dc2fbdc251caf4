-- ===== src/Vtpm/Quotes.antt =====
-- `GetSHA256QuoteIndex`: the first SHA256 quote, with well-formed quotes before it.
use geth_sev.Prelude.{
  ◌≡◌, ◌⊎◌, ◌↔◌, refl, sym, ap, ◌∙◌, subst, ℕ, suc, ◌+◌, ◌==◌, Bytes, length, Bool-cases,
  Option-cases, true, false, Option, none, some, List, [], ◌∷◌, ◌++◌, All, Map, Result, ok, err,
  ok-injective, arith, inl, inr,
}
use geth_sev.Vtpm.{
  Quote, Pcrs, QuoteError, no_pcr_data, quote_loop, get_sha256_quote_index, pcrs_at,
}

-- A quote with values of another hash algorithm.
abbrev pub IsOther : Option Quote → Type 0
IsOther q = (p : Pcrs) × (q ≡ some (record { pcrs = some p })) × (p.is_sha256 ≡ false)

-- The quote at the index is the first with SHA256 values, and those before it have other values.
pub record IsFirstSha256 (quotes : List (Option Quote)) (i : ℕ) (pcrs : Map Bytes) : Type 0 where
  pub before : List (Option Quote)
  pub found : Pcrs
  pub after : List (Option Quote)
  pub quotes_are : quotes ≡ before ++ some (record { pcrs = some found }) ∷ after
  pub others : All IsOther before
  pub sha256 : found.is_sha256 ≡ true
  pub index : length before ≡ i
  pub values : found.pcrs ≡ pcrs

shift_first :
    (q : Option Quote) (quotes : List (Option Quote)) (i : ℕ) (pcrs : Map Bytes)
    → IsOther q
    → IsFirstSha256 quotes i pcrs
    → IsFirstSha256 (q ∷ quotes) (suc i) pcrs
shift_first q quotes i pcrs o f = record {
  before = q ∷ f.before;
  found = f.found;
  after = f.after;
  quotes_are = ap (◌∷◌ q) f.quotes_are;
  others = (o, f.others);
  sha256 = f.sha256;
  index = ap suc f.index;
  values = f.values;
}

loop_other :
    (k : ℕ) (q : Option Quote) (quotes : List (Option Quote))
    → IsOther q
    → quote_loop k (q ∷ quotes) ≡ quote_loop (suc k) quotes
unfolding quote_loop
loop_other k q quotes (p, e, s) = rw (e, s) refl

-- A quote with SHA256 values.
abbrev IsSha256 : Option Quote → Type 0
IsSha256 q = (p : Pcrs) × (q ≡ some (record { pcrs = some p })) × (p.is_sha256 ≡ true)

-- A quote stops the loop with an error, or is passed over, or is found.
quote_cases :
    (q : Option Quote)
    → ((k : ℕ) (quotes : List (Option Quote))
        → (e : QuoteError) × (quote_loop k (q ∷ quotes) ≡ err e))
      ⊎ (IsOther q ⊎ IsSha256 q)
unfolding quote_loop
quote_cases none = inl (λ k quotes. (_, refl))
quote_cases (some q) = elim (Option-cases q.pcrs) [
  | inl e ↦ inl (λ k quotes. (no_pcr_data, rw e refl))
  | inr (p, e) ↦ elim (Bool-cases p.is_sha256) [
    | inl s ↦ inr (inr (p, ap (λ r. some (record { pcrs = r })) e, s))
    | inr s ↦ inr (inl (p, ap (λ r. some (record { pcrs = r })) e, s))
  ]
]

loop_found :
    (k : ℕ) (q : Option Quote) (quotes : List (Option Quote))
    → IsSha256 q
    → quote_loop k (q ∷ quotes) ≡ ok k
unfolding quote_loop
loop_found k q quotes (p, e, s) = rw (e, s) refl

found_first :
    (q : Option Quote) (quotes : List (Option Quote))
    → IsSha256 q
    → (pcrs : Map Bytes) × IsFirstSha256 (q ∷ quotes) 0 pcrs
found_first q quotes (p, e, s) = (
  p.pcrs,
  record {
    before = [];
    found = p;
    after = quotes;
    quotes_are = ap (λ r. r ∷ quotes) e;
    others = tt;
    sha256 = s;
    index = refl;
    values = refl;
  },
)

plus_suc : (j k : ℕ) → j + suc k ≡ suc j + k
plus_suc j k = omega arith

zero_plus : (k : ℕ) → k ≡ 0 + k
zero_plus k = omega arith

-- What the loop returns, from an index on.
loop_sound :
    (k : ℕ) (quotes : List (Option Quote)) (i : ℕ)
    → quote_loop k quotes ≡ ok i
    → (j : ℕ) × (i ≡ j + k) × ((pcrs : Map Bytes) × IsFirstSha256 quotes j pcrs)
loop_sound k [] i h = absurd (unfold quote_loop in cc)
loop_sound k (q ∷ quotes) i h = elim (quote_cases q) [
  | inl f ↦ let (e, he) = f k quotes in absurd (err≢ok e i (sym he ∙ h))
  | inr (inl o) ↦
      let (j, hj, (pcrs, first)) =
        loop_sound (suc k) quotes i (sym (loop_other k q quotes o) ∙ h) in
      (suc j, hj ∙ plus_suc j k, (pcrs, shift_first q quotes j pcrs o first))
  | inr (inr s) ↦
      (0, ok-injective i k (sym h ∙ loop_found k q quotes s) ∙ zero_plus k, found_first q quotes s)
]
  where
    err≢ok : (e : QuoteError) (i : ℕ) → ◌≡◌ {A = Result QuoteError ℕ} (err e) (ok i) → ⊥
    err≢ok e i h = cc

loop_past :
    (k : ℕ) (before : List (Option Quote)) (q : Option Quote) (after : List (Option Quote))
    → All IsOther before
    → IsSha256 q
    → quote_loop k (before ++ q ∷ after) ≡ ok (length before + k)
loop_past k [] q after n s = loop_found k q after s ∙ ap ok (zero_plus k)
loop_past k (o ∷ before) q after n s =
    loop_other k o (before ++ q ∷ after) n.0
    ∙ loop_past (suc k) before q after n.1 s
    ∙ ap ok (plus_suc (length before) k)

index_of_loop :
    (quotes : List (Option Quote)) (i : ℕ)
    → (get_sha256_quote_index quotes ≡ ok i) ↔ (quote_loop 0 quotes ≡ ok i)
unfolding get_sha256_quote_index quote_loop
index_of_loop [] i = (λ h. absurd (ground arith), λ h. absurd (ground arith))
index_of_loop (q ∷ quotes) i =
    rw (not_empty (length quotes), get_sha256_quote_index) (λ h. h, λ h. h)
  where
    not_empty : (n : ℕ) → (suc n == 0) ≡ false
    not_empty n = ground arith

plus_zero : (i : ℕ) → i + 0 ≡ i
plus_zero i = omega arith

-- The index of the quotes is found exactly if a first SHA256 quote stands there, with quotes of
-- other algorithms, none of them nil or without values, before it.
pub get_sha256_quote_index_iff :
    (quotes : List (Option Quote)) (i : ℕ)
    → (get_sha256_quote_index quotes ≡ ok i) ↔ ((pcrs : Map Bytes) × IsFirstSha256 quotes i pcrs)
get_sha256_quote_index_iff quotes i = (forth, back)
  where
    forth : get_sha256_quote_index quotes ≡ ok i → (pcrs : Map Bytes) × IsFirstSha256 quotes i pcrs
    forth h =
        let (j, hj, first) = loop_sound 0 quotes i ((index_of_loop quotes i).0 h) in
        subst (λ n. (pcrs : Map Bytes) × IsFirstSha256 quotes n pcrs) (sym (hj ∙ plus_zero j)) first

    back : ((pcrs : Map Bytes) × IsFirstSha256 quotes i pcrs) → get_sha256_quote_index quotes ≡ ok i
    back (pcrs, f) = (index_of_loop quotes i).1 (
        ap (quote_loop 0) f.quotes_are
        ∙ loop_past 0 f.before _ f.after f.others (f.found, refl, f.sha256)
        ∙ ap ok (plus_zero (length f.before) ∙ f.index))

values_past :
    (found : Pcrs) (after before : List (Option Quote))
    → pcrs_at (length before) (before ++ some (record { pcrs = some found }) ∷ after)
      ≡ some found.pcrs
unfolding pcrs_at
values_past found after [] = refl
values_past found after (q ∷ before) = values_past found after before

-- The values at the index that is found; there is no panic.
pub pcrs_at-first :
    (quotes : List (Option Quote)) (i : ℕ) (pcrs : Map Bytes)
    → IsFirstSha256 quotes i pcrs
    → pcrs_at i quotes ≡ some pcrs
pcrs_at-first quotes i pcrs f =
    ap (λ n. pcrs_at n quotes) (sym f.index)
    ∙ ap (pcrs_at (length f.before)) f.quotes_are
    ∙ values_past f.found f.after f.before
    ∙ ap some f.values
