-- ===== src/Kms/Keys.antt =====
-- constellation/kms/kms/internal/internal.go: a key stays the same.
use geth_sev.Prelude.{
  ℕ, ◌≡◌, ◌≢◌, refl, sym, ap, ◌∙◌, Bytes, ◌⊎◌, inl, inr, Option, none, some, List, [], ◌∷◌, Result,
  ok, err, arith, Result-cases, subst,
}
use geth_sev.Kms.{
  Storage, StorageError, dek_unset, storage_failure, Wrapper, Answer, put_result, put_dek, new_dek,
  unwrapped, from_storage, get_dek,
}

-- A storage gives back what was put under a key's name, and putting something under one name leaves
-- the other names alone, even where it fails.
pub record IsStorage {S : Type 0} (storage : Storage S) : Type 0 where
  pub get_put :
      (key_id dek : Bytes) (s : S)
      → (storage.put key_id dek s).0 ≡ ok tt
      → storage.get key_id (storage.put key_id dek s).1 ≡ ok dek
  pub get_other :
      (key_id other dek : Bytes) (s : S)
      → key_id ≢ other
      → storage.get other (storage.put key_id dek s).1 ≡ storage.get other s

-- What is wrapped is unwrapped, whatever randomness was used.
abbrev pub IsWrapper : Wrapper → Type 0
IsWrapper w =
    (nonce : ℕ) (plain encrypted : Bytes)
    → w.wrap nonce plain ≡ ok encrypted
    → w.unwrap encrypted ≡ ok plain

-- One call of `GetDEK`: the name of its key, the randomness of its wrapping, and its random bytes.
pub record Request : Type 0 where
  pub key_id : Bytes
  pub nonce : ℕ
  pub random : Result Bytes Bytes

some_inj : {A : Type 0} (a b : A) → ◌≡◌ {A = Option A} (some a) (some b) → a ≡ b
some_inj a b e = cc

module _ {S : Type 0} (storage : Storage S) (wrapper : Wrapper) where
  abbrev pub ask : Request → S → Answer S
  ask r s = get_dek storage wrapper r.key_id r.nonce r.random s

  -- The storage after a sequence of calls.
  unfoldable pub run : List Request → S → S
  run [] s = s
  run (r ∷ rs) s = run rs (ask r s).after

  -- Under the name stands the wrapped key.
  abbrev Keeps : Bytes → Bytes → S → Type 0
  Keeps key_id dek s =
      (encrypted : Bytes) × (storage.get key_id s ≡ ok encrypted)
      × (wrapper.unwrap encrypted ≡ ok dek)

module _ {S : Type 0} (storage : Storage S) (wrapper : Wrapper) (laws : IsStorage storage)
    (wraps : IsWrapper wrapper) where
  put_result-none :
      (w : Result Bytes (Unit {0}) × S)
      → (put_result storage wrapper w).0 ≡ none
      → (w.0 ≡ ok tt) × ((put_result storage wrapper w).1 ≡ w.1)
  unfolding put_result
  put_result-none (ok u, s) h = (refl, refl)
  put_result-none (err e, s) h = cc

  put_dek-Keeps :
      (key_id dek : Bytes) (s : S) (nonce : ℕ) (encrypted : Result Bytes Bytes)
      → wrapper.wrap nonce dek ≡ encrypted
      → (put_dek storage wrapper key_id s encrypted).0 ≡ none
      → Keeps storage wrapper key_id dek (put_dek storage wrapper key_id s encrypted).1
  unfolding put_dek
  put_dek-Keeps key_id dek s nonce (err e) w h = cc
  put_dek-Keeps key_id dek s nonce (ok encrypted) w h =
      let saved = put_result-none (storage.put key_id encrypted s) h in
      (
        encrypted,
        ap (storage.get key_id) saved.1 ∙ laws.get_put key_id encrypted s saved.0,
        wraps nonce dek encrypted w,
      )

  from_storage-Keeps :
      (key_id : Bytes) (nonce : ℕ) (random : Result Bytes Bytes) (s : S) (dek : Bytes)
      (has : Result StorageError Bytes)
      → storage.get key_id s ≡ has
      → (from_storage storage wrapper key_id nonce random s has).failure ≡ none
      → (from_storage storage wrapper key_id nonce random s has).dek ≡ some dek
      → Keeps storage wrapper key_id dek
          (from_storage storage wrapper key_id nonce random s has).after
  unfolding from_storage new_dek unwrapped
  from_storage-Keeps key_id nonce random s dek (ok encrypted) g f d =
      elim (Result-cases (wrapper.unwrap encrypted)) [
        | inl u ↦
            let same : u.0 ≡ dek = ground (arith, u.1, d) in
            rw (u.1) (encrypted, g, u.1 ∙ ap ok same)
        | inr e ↦ absurd (ground (arith, e.1, f))
      ]
  from_storage-Keeps key_id nonce (ok random) s dek (err dek_unset) g f d =
      put_dek-Keeps key_id dek s nonce (wrapper.wrap nonce random)
        (ap (wrapper.wrap nonce) (sym (some_inj random dek d))) f
  from_storage-Keeps key_id nonce (err e) s dek (err dek_unset) g f d = cc
  from_storage-Keeps key_id nonce random s dek (err (storage_failure e)) g f d = cc

  Keeps-get_dek :
      (r : Request) (s : S) (dek : Bytes)
      → Keeps storage wrapper r.key_id dek s
      → ask storage wrapper r s ≡ record { dek = some dek; failure = none; after = s }
  unfolding get_dek from_storage unwrapped
  Keeps-get_dek r s dek k = rw (k.1, k.2) refl

  put_result-after : (w : Result Bytes (Unit {0}) × S) → (put_result storage wrapper w).1 ≡ w.1
  unfolding put_result
  put_result-after (ok u, t) = refl
  put_result-after (err e, t) = refl

  put_dek-after :
      (key_id : Bytes) (s : S) (encrypted : Result Bytes Bytes)
      → ((put_dek storage wrapper key_id s encrypted).1 ≡ s)
        ⊎ ((e : Bytes) × ((put_dek storage wrapper key_id s encrypted).1
              ≡ (storage.put key_id e s).1))
  unfolding put_dek
  put_dek-after key_id s (err e) = inl refl
  put_dek-after key_id s (ok encrypted) =
      inr (encrypted, put_result-after (storage.put key_id encrypted s))

  from_storage-after :
      (key_id other : Bytes) (nonce : ℕ) (random : Result Bytes Bytes) (s : S)
      (has : Result StorageError Bytes)
      → (has ≡ err dek_unset → key_id ≢ other)
      → storage.get other (from_storage storage wrapper key_id nonce random s has).after
        ≡ storage.get other s
  unfolding from_storage new_dek unwrapped
  from_storage-after key_id other nonce random s (ok encrypted) n =
      elim (Result-cases (wrapper.unwrap encrypted)) [
        | inl u ↦ rw (u.1) refl
        | inr e ↦ rw (e.1) refl
      ]
  from_storage-after key_id other nonce (err e) s (err dek_unset) n = refl
  from_storage-after key_id other nonce (ok random) s (err dek_unset) n =
      elim (put_dek-after key_id s (wrapper.wrap nonce random)) [
        | inl e ↦ ap (storage.get other) e
        | inr w ↦ ap (storage.get other) w.1 ∙ laws.get_other key_id other w.0 s (n refl)
      ]
  from_storage-after key_id other nonce random s (err (storage_failure e)) n = refl

  Keeps-step :
      (r : Request) (s : S) (key_id dek : Bytes)
      → Keeps storage wrapper key_id dek s
      → Keeps storage wrapper key_id dek (ask storage wrapper r s).after
  unfolding get_dek
  Keeps-step r s key_id dek k = (
    k.0,
    from_storage-after r.key_id key_id r.nonce r.random s (storage.get r.key_id s)
          (λ unset e. apart unset e)
        ∙ k.1,
    k.2,
  )
    where
      apart : storage.get r.key_id s ≡ err dek_unset → r.key_id ≡ key_id → ⊥
      apart unset e = ground (arith, sym unset ∙ ap (λ i. storage.get i s) e ∙ k.1)

  Keeps-run :
      (rs : List Request) (s : S) (key_id dek : Bytes)
      → Keeps storage wrapper key_id dek s
      → Keeps storage wrapper key_id dek (run storage wrapper rs s)
  unfolding run
  Keeps-run [] s key_id dek k = k
  Keeps-run (r ∷ rs) s key_id dek k =
      Keeps-run rs (ask storage wrapper r s).after key_id dek (Keeps-step r s key_id dek k)

  -- Over a storage that gives back what was put, and a wrapper that unwraps what it wrapped: once
  -- `GetDEK` has returned a key without an error, then after any sequence of other calls, for any
  -- names, a call for the same name returns the same key without an error, and changes nothing.
  pub get_dek_again :
      (first again : Request) (rs : List Request) (s : S) (dek : Bytes)
      → (ask storage wrapper first s).failure ≡ none
      → (ask storage wrapper first s).dek ≡ some dek
      → again.key_id ≡ first.key_id
      → ask storage wrapper again (run storage wrapper rs (ask storage wrapper first s).after)
        ≡ record {
          dek = some dek;
          failure = none;
          after = run storage wrapper rs (ask storage wrapper first s).after;
        }
  unfolding get_dek
  get_dek_again first again rs s dek f d same =
      Keeps-get_dek again (run storage wrapper rs (ask storage wrapper first s).after) dek (
        subst
          (λ i.
            Keeps storage wrapper i dek
              (run storage wrapper rs (ask storage wrapper first s).after))
          (sym same)
          (Keeps-run rs (ask storage wrapper first s).after first.key_id dek (
            from_storage-Keeps first.key_id first.nonce first.random s dek
              (storage.get first.key_id s) refl f d)))
