-- ===== src/IdKeyDigest/Policy.antt =====
-- Enforcement policies and their words.
use geth_sev.Prelude.{◌≡◌, ◌≢◌, refl, Bytes, bytes_eq, to_lower, ok, err}
use geth_sev.IdKeyDigest.{
  Enforcement, unknown, equal, maa_fallback, warn_only, Reading, enforce_policy_from_string, string,
  known, unmarshal,
}

string-back : (e : Enforcement) → enforce_policy_from_string (string e) ≡ e
unfolding enforce_policy_from_string string to_lower bytes_eq
string-back unknown = refl
string-back equal = refl
string-back maa_fallback = refl
string-back warn_only = refl

known_word : (e : Enforcement) (s : Bytes) → e ≢ unknown → known s e ≡ ok e
unfolding known
known_word unknown s n = absurd (n refl)
known_word equal s n = refl
known_word maa_fallback s n = refl
known_word warn_only s n = refl

-- A policy other than the unknown one is read back from a document that has its word and is no
-- Boolean.
pub unmarshal-string :
    (e : Enforcement) (r : Reading) (x : Bytes)
    → r.as_bool ≡ err x
    → r.as_text ≡ ok (string e)
    → e ≢ unknown
    → unmarshal r ≡ ok e
unfolding unmarshal
unmarshal-string e r x hb ht n = rw (hb, ht, string-back e) (known_word e (string e) n)
