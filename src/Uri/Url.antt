-- ===== src/Uri/Url.antt =====
-- net/url and encoding/base64, which are not part of the repository: their functions are
-- parameters, and what constellation/kms/uri/uri.go relies on of their documentation are the laws.
use geth_sev.Prelude.{
  ℕ, Bytes, IsBytes, codes, bytes_eq, leb, ◌==◌, ◌≡◌, ◌≢◌, [], ◌∷◌, concat, Bool, true, not, ◌&&◌,
  ◌||◌, Result, ok, if◌then◌else◌,
}

-- `URL`, as far as it is read
pub record Url : Type 0 where
  pub scheme : Bytes
  pub host : Bytes
  pub raw_query : Bytes

-- `Parse`; `Get` of the query that `Query` makes of a raw query; `QueryEscape` and `QueryUnescape`;
-- `URLEncoding`.
pub record UrlLib : Type 0 where
  pub parse : Bytes → Result Bytes Url
  pub get : Bytes → Bytes → Bytes
  pub query_escape : Bytes → Bytes
  pub query_unescape : Bytes → Result Bytes Bytes
  pub base64_encode : Bytes → Bytes
  pub base64_decode : Bytes → Result Bytes Bytes

abbrev pub every : (ℕ → Bool) → Bytes → Bool
every p [] = true
every p (c ∷ cs) = p c && every p cs

abbrev pub is_lower : ℕ → Bool
is_lower c = leb b'a' c && leb c b'z'

abbrev pub is_letter : ℕ → Bool
is_letter c = is_lower c || leb b'A' c && leb c b'Z'

abbrev pub is_host : ℕ → Bool
is_host c = is_lower c || c == b'-'

-- The characters of an escaped value, with the equality sign that ends a Base64 text.
abbrev pub is_value : ℕ → Bool
is_value c =
    is_letter c
    || leb b'0' c && leb c b'9'
    || c == b'-'
    || c == b'_'
    || c == b'.'
    || c == b'~'
    || c == b'%'
    || c == b'+'
    || c == b'='

abbrev pub is_query : ℕ → Bool
is_query c = is_value c || c == b'&'

-- What unescaping does not change.
abbrev pub is_literal : ℕ → Bool
is_literal c = not (c == b'%') && not (c == b'+')

pub record IsUrl (lib : UrlLib) : Type 0 where
  pub parse_address :
      (scheme host query : Bytes)
      → scheme ≢ []
      → every is_lower scheme ≡ true
      → every is_host host ≡ true
      → every is_query query ≡ true
      → lib.parse (concat (scheme ∷ codes "://" ∷ host ∷ codes "?" ∷ query ∷ []))
        ≡ ok (record { scheme = scheme; host = host; raw_query = query })
  -- The last parameter of a query, and one before others.
  pub get_last :
      (key value unescaped k : Bytes)
      → every is_letter key ≡ true
      → every is_value value ≡ true
      → lib.query_unescape value ≡ ok unescaped
      → lib.get (concat (key ∷ codes "=" ∷ value ∷ [])) k
        ≡ (if bytes_eq key k then unescaped else [])
  pub get_first :
      (key value unescaped others k : Bytes)
      → every is_letter key ≡ true
      → every is_value value ≡ true
      → lib.query_unescape value ≡ ok unescaped
      → lib.get (concat (key ∷ codes "=" ∷ value ∷ codes "&" ∷ others ∷ [])) k
        ≡ (if bytes_eq key k then unescaped else lib.get others k)
  pub escape_chars : (s : Bytes) → IsBytes s → every is_value (lib.query_escape s) ≡ true
  pub unescape_escape : (s : Bytes) → IsBytes s → lib.query_unescape (lib.query_escape s) ≡ ok s
  pub unescape_literal : (s : Bytes) → every is_literal s ≡ true → lib.query_unescape s ≡ ok s
  pub base64_chars :
      (s : Bytes)
      → IsBytes s
      → (every is_value (lib.base64_encode s) ≡ true)
        × (every is_literal (lib.base64_encode s) ≡ true)
  pub base64_decode_encode :
      (s : Bytes) → IsBytes s → lib.base64_decode (lib.base64_encode s) ≡ ok s
  pub base64_nil : lib.base64_encode [] ≡ []
