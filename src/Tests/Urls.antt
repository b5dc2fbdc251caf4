-- ===== src/Tests/Urls.antt =====
-- A toy of net/url and encoding/base64 that meets their laws: it escapes every byte, as a percent
-- sign and two letters.
use geth_sev.Prelude.{
  ℕ, ◌+◌, ◌-◌, ◌*◌, ◌/◌, ◌%◌, ◌<◌, ◌≡◌, refl, sym, ok-injective, ap, ap₂, ◌∙◌, Bytes, IsBytes,
  codes, concat, bytes_eq, List, [], ◌∷◌, ◌++◌, Bool, true, not, ◌==◌, Result, ok, arith,
  if◌then◌else◌,
}
use geth_sev.Uri.Url.{Url, UrlLib, IsUrl, every, is_letter, is_value, is_literal, is_lower, is_host}
use geth_sev.Uri.Fields.{every-weaken, every-append}

letters : Bytes → Bytes
letters [] = []
letters (b ∷ bs) = (b'A' + b / 16) ∷ (b'A' + b % 16) ∷ letters bs

numbers : Bytes → Bytes
numbers [] = []
numbers (a ∷ []) = []
numbers (a ∷ b ∷ rest) = ((a - b'A') * 16 + (b - b'A')) ∷ numbers rest

numbers-letters : (bs : Bytes) → IsBytes bs → numbers (letters bs) ≡ bs
unfolding letters numbers
numbers-letters [] h = refl
numbers-letters (b ∷ bs) h = ap₂ ◌∷◌ (omega arith) (numbers-letters bs h.1)

escape : Bytes → Bytes
escape [] = []
escape (b ∷ bs) = b'%' ∷ (b'A' + b / 16) ∷ (b'A' + b % 16) ∷ escape bs

unescape : Bytes → Bytes
unescape [] = []
unescape (a ∷ []) = a ∷ []
unescape (a ∷ b ∷ []) = a ∷ b ∷ []
unescape (a ∷ b ∷ c ∷ rest) =
    let escaped : Bytes = ((b - b'A') * 16 + (c - b'A')) ∷ unescape rest in
    let plain : Bytes = a ∷ unescape (b ∷ c ∷ rest) in if a == b'%' then escaped else plain

unescape-escape : (bs : Bytes) → IsBytes bs → unescape (escape bs) ≡ bs
unfolding escape unescape
unescape-escape [] h = refl
unescape-escape (b ∷ bs) h = ap₂ ◌∷◌ (omega arith) (unescape-escape bs h.1)

unescape-literal : (s : Bytes) → every is_literal s ≡ true → unescape s ≡ s
unfolding unescape
unescape-literal [] h = refl
unescape-literal (a ∷ []) h = refl
unescape-literal (a ∷ b ∷ []) h = refl
unescape-literal (a ∷ b ∷ c ∷ rest) h = ground (arith, h, unescape-literal (b ∷ c ∷ rest))

letters-every :
    (p : ℕ → Bool) (bs : Bytes)
    → ((n : ℕ) → n < 16 → p (b'A' + n) ≡ true)
    → IsBytes bs
    → every p (letters bs) ≡ true
unfolding letters
letters-every p [] h b = refl
letters-every p (x ∷ bs) h b =
    ground
      (arith, h (x / 16) (omega (arith, b.0)), h (x % 16) (omega arith), letters-every p bs h b.1)

escape-every : (bs : Bytes) → IsBytes bs → every is_value (escape bs) ≡ true
unfolding escape
escape-every [] b = refl
escape-every (x ∷ bs) b = ground (
  arith,
  a_letter (x / 16) (omega (arith, b.0)),
  a_letter (x % 16) (omega arith),
  escape-every bs b.1,
)
  where
    a_letter : (n : ℕ) → n < 16 → is_value (b'A' + n) ≡ true
    a_letter n h = ground (arith, h)

-- The text before the first separator and the text after it.
cut : ℕ → Bytes → Bytes × Bytes
cut sep [] = ([], [])
cut sep (c ∷ cs) =
    let rest : Bytes × Bytes = cut sep cs in if c == sep then ([], cs) else (c ∷ rest.0, rest.1)

abbrev Without : ℕ → Bytes → Type 0
Without sep s = every (λ c. not (c == sep)) s ≡ true

cut-append : (sep : ℕ) (xs ys : Bytes) → Without sep xs → cut sep (xs ++ (sep ∷ ys)) ≡ (xs, ys)
unfolding cut
cut-append sep [] ys h = ground arith
cut-append sep (x ∷ xs) ys h = ground (arith, h, cut-append sep xs ys)

pieces : Bytes → List Bytes
pieces [] = [] ∷ []
pieces (c ∷ cs) =
    let rest : List Bytes = pieces cs in
    if c == b'&' then [] ∷ rest else elim rest [ [] ↦ (c ∷ []) ∷ [] | p ∷ ps ↦ (c ∷ p) ∷ ps ]

pieces-last : (xs : Bytes) → Without b'&' xs → pieces xs ≡ xs ∷ []
unfolding pieces
pieces-last [] h = refl
pieces-last (x ∷ xs) h = ground (arith, h, pieces-last xs)

pieces-first : (xs ys : Bytes) → Without b'&' xs → pieces (xs ++ (b'&' ∷ ys)) ≡ xs ∷ pieces ys
unfolding pieces
pieces-first [] ys h = refl
pieces-first (x ∷ xs) ys h = ground (arith, h, pieces-first xs ys)

find : List Bytes → Bytes → Bytes
unfolding bytes_eq
find [] k = []
find (p ∷ ps) k = if bytes_eq (cut b'=' p).0 k then unescape (cut b'=' p).1 else find ps k

toy_get : Bytes → Bytes → Bytes
toy_get raw k = find (pieces raw) k

toy_parse : Bytes → Result Bytes Url
toy_parse uri = from_host (cut b':' uri).0 (drop2 (cut b':' uri).1)
  where
    drop2 : Bytes → Bytes
    drop2 [] = []
    drop2 (a ∷ []) = []
    drop2 (a ∷ b ∷ rest) = rest

    from_host : Bytes → Bytes → Result Bytes Url
    from_host scheme rest =
        ok (record { scheme = scheme; host = (cut b'?' rest).0; raw_query = (cut b'?' rest).1 })

pub toy_url : UrlLib
toy_url = record {
  parse = toy_parse;
  get = toy_get;
  query_escape = escape;
  query_unescape = λ s. ok (unescape s);
  base64_encode = letters;
  base64_decode = λ s. ok (numbers s);
}

-- A piece that is a key, an equality sign and a value.
find-piece :
    (key value k : Bytes) (ps : List Bytes)
    → every is_letter key ≡ true
    → find ((key ++ (b'=' ∷ value)) ∷ ps) k ≡ (if bytes_eq key k then unescape value else find ps k)
unfolding find
find-piece key value k ps h =
    ap (λ c. if bytes_eq c.0 k then unescape c.1 else find ps k)
      (cut-append b'=' key value
        (every-weaken is_letter (λ c. not (c == b'=')) key (λ c l. ground (arith, l)) h))

no_amp_letters : (key : Bytes) → every is_letter key ≡ true → Without b'&' key
no_amp_letters key = every-weaken is_letter _ key λ c l. ground (arith, l)

no_amp_value : (value : Bytes) → every is_value value ≡ true → Without b'&' value
no_amp_value value = every-weaken is_value _ value λ c l. ground (arith, l)

no_amp_piece :
    (key value : Bytes)
    → every is_letter key ≡ true
    → every is_value value ≡ true
    → Without b'&' (key ++ (b'=' ∷ value))
no_amp_piece key value hk hv =
    every-append (λ c. not (c == b'&')) key (b'=' ∷ value) (no_amp_letters key hk)
      (no_amp_value value hv)

append_assoc : (xs ys zs : Bytes) → (xs ++ ys) ++ zs ≡ xs ++ (ys ++ zs)
append_assoc [] ys zs = refl
append_assoc (x ∷ xs) ys zs = ap (λ w. x ∷ w) (append_assoc xs ys zs)

toy_parse-address :
    (scheme host query : Bytes)
    → every is_lower scheme ≡ true
    → every is_host host ≡ true
    → toy_parse (concat (scheme ∷ codes "://" ∷ host ∷ codes "?" ∷ query ∷ []))
      ≡ ok (record { scheme = scheme; host = host; raw_query = query })
unfolding toy_parse
toy_parse-address scheme host query hs hh =
    rw
      (
        cut-append b':' scheme (b'/' ∷ b'/' ∷ (host ++ (b'?' ∷ query)))
            (every-weaken is_lower (λ c. not (c == b':')) scheme (λ c l. ground (arith, l)) hs),
        cut-append b'?' host query
            (every-weaken is_host (λ c. not (c == b'?')) host (λ c l. ground (arith, l)) hh),
      )
      refl

toy_get-last :
    (key value k : Bytes)
    → every is_letter key ≡ true
    → every is_value value ≡ true
    → toy_get (concat (key ∷ codes "=" ∷ value ∷ [])) k
      ≡ (if bytes_eq key k then unescape value else [])
unfolding toy_get find
toy_get-last key value k hk hv =
    ap (λ ps. find ps k) (pieces-last (key ++ (b'=' ∷ value)) (no_amp_piece key value hk hv))
    ∙ find-piece key value k [] hk

toy_get-first :
    (key value others k : Bytes)
    → every is_letter key ≡ true
    → every is_value value ≡ true
    → toy_get (concat (key ∷ codes "=" ∷ value ∷ codes "&" ∷ others ∷ [])) k
      ≡ (if bytes_eq key k then unescape value else toy_get others k)
unfolding toy_get
toy_get-first key value others k hk hv =
    ap (λ raw. find (pieces raw) k) (sym (append_assoc key (b'=' ∷ value) (b'&' ∷ others)))
    ∙ ap (λ ps. find ps k)
        (pieces-first (key ++ (b'=' ∷ value)) others (no_amp_piece key value hk hv))
    ∙ find-piece key value k (pieces others) hk

pub toy_laws : IsUrl toy_url
unfolding toy_url toy_parse toy_get find letters
toy_laws = record {
  parse_address = λ scheme host query n hs hh hq. toy_parse-address scheme host query hs hh;
  get_last = λ key value u k hk hv e.
      toy_get-last key value k hk hv
      ∙ ap (λ w. if bytes_eq key k then w else []) (ok-injective _ _ e);
  get_first = λ key value u others k hk hv e.
      toy_get-first key value others k hk hv
      ∙ ap (λ w. if bytes_eq key k then w else toy_get others k) (ok-injective _ _ e);
  escape_chars = escape-every;
  unescape_escape = λ s b. ap ok (unescape-escape s b);
  unescape_literal = λ s h. ap ok (unescape-literal s h);
  base64_chars = λ s b. (
    letters-every is_value s (λ n h. ground (arith, h)) b,
    letters-every is_literal s (λ n h. ground (arith, h)) b,
  );
  base64_decode_encode = λ s b. ap ok (numbers-letters s b);
  base64_nil = refl;
}
