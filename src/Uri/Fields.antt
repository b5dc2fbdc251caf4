-- ===== src/Uri/Fields.antt =====
-- constellation/kms/uri/uri.go: what a query of escaped parameters reads as.
use geth_sev.Prelude.{
  ℕ, Bytes, codes, bytes_eq, ◌≡◌, ◌≢◌, refl, List, [], ◌∷◌, ◌++◌, concat, Bool, true, ok,
  if◌then◌else◌, arith, ap, ap₂, ◌∙◌, bytes_eq_refl,
}
use geth_sev.Uri.{checked_query}
use geth_sev.Uri.Url.{UrlLib, IsUrl, every, is_letter, is_value, is_query, is_lower, is_host}

abbrev pub Fields : Type 0
Fields = List (Bytes × Bytes)

-- The text of parameters whose values are escaped already.
abbrev pub query_text : Fields → Bytes
query_text [] = []
query_text ((k, v) ∷ []) = concat (k ∷ codes "=" ∷ v ∷ [])
query_text ((k, v) ∷ w ∷ rest) = concat (k ∷ codes "=" ∷ v ∷ codes "&" ∷ query_text (w ∷ rest) ∷ [])

-- The first value of a key.
abbrev pub first_value : Fields → Bytes → Bytes
first_value [] k = []
first_value ((j, v) ∷ rest) k = if bytes_eq j k then v else first_value rest k

-- The parameters of an address with their texts, each under a key of letters: the text has only the
-- characters of an escaped value, and unescapes to the value.
abbrev pub AreWritten : UrlLib → Fields → Fields → Type 0
AreWritten lib [] [] = Unit
AreWritten lib [] (f ∷ fields) = ⊥
AreWritten lib (t ∷ texts) [] = ⊥
AreWritten lib ((k, t) ∷ texts) ((j, v) ∷ fields) =
    (k ≡ j)
    × (every is_letter k ≡ true)
    × (every is_value t ≡ true)
    × (lib.query_unescape t ≡ ok v)
    × AreWritten lib texts fields

pub every-append :
    (p : ℕ → Bool) (xs ys : Bytes)
    → every p xs ≡ true
    → every p ys ≡ true
    → every p (xs ++ ys) ≡ true
every-append p [] ys hx hy = hy
every-append p (x ∷ xs) ys hx hy = ground (arith, every-append p xs ys, hx, hy)

pub every-weaken :
    (p q : ℕ → Bool) (xs : Bytes)
    → ((c : ℕ) → p c ≡ true → q c ≡ true)
    → every p xs ≡ true
    → every q xs ≡ true
every-weaken p q [] imp h = refl
every-weaken p q (x ∷ xs) imp h = ground (arith, imp x, every-weaken p q xs imp, h)

letter-is_query : (xs : Bytes) → every is_letter xs ≡ true → every is_query xs ≡ true
letter-is_query xs = every-weaken is_letter is_query xs λ c h. ground (arith, h)

value-is_query : (xs : Bytes) → every is_value xs ≡ true → every is_query xs ≡ true
value-is_query xs = every-weaken is_value is_query xs λ c h. ground (arith, h)

query_text-is_query :
    (lib : UrlLib) (texts fields : Fields)
    → AreWritten lib texts fields
    → every is_query (query_text texts) ≡ true
query_text-is_query lib [] fields w = refl
query_text-is_query lib (t ∷ texts) [] w = absurd w
query_text-is_query lib ((k, t) ∷ []) ((j, v) ∷ fields) w =
    every-append is_query k (codes "=" ++ t) (letter-is_query k w.1) (value-is_query t w.2)
query_text-is_query lib ((k, t) ∷ u ∷ texts) ((j, v) ∷ fields) w =
    every-append is_query k (codes "=" ++ (t ++ (codes "&" ++ query_text (u ∷ texts))))
      (letter-is_query k w.1)
      (every-append is_query t (codes "&" ++ query_text (u ∷ texts)) (value-is_query t w.2)
        (query_text-is_query lib (u ∷ texts) fields w.4))

module _ (lib : UrlLib) (laws : IsUrl lib) where
  -- A parameter reads as its first value.
  pub get-query_text :
      (texts fields : Fields) (k : Bytes)
      → texts ≢ []
      → AreWritten lib texts fields
      → lib.get (query_text texts) k ≡ first_value fields k
  get-query_text [] fields k n w = absurd (n refl)
  get-query_text (t ∷ texts) [] k n w = absurd w
  get-query_text ((i, t) ∷ []) ((j, v) ∷ []) k n w =
      laws.get_last i t v k w.1 w.2 w.3 ∙ ap (λ x. if bytes_eq x k then v else []) w.0
  get-query_text ((i, t) ∷ []) ((j, v) ∷ f ∷ fields) k n w = absurd w.4
  get-query_text ((i, t) ∷ u ∷ texts) ((j, v) ∷ fields) k n w =
      laws.get_first i t v (query_text (u ∷ texts)) k w.1 w.2 w.3
      ∙ ap₂ (λ x y. if bytes_eq x k then v else y) w.0
          (get-query_text (u ∷ texts) fields k (λ e. cc) w.4)

  -- The checks of scheme and host pass at an address with these.
  pub checked_query-address :
      (scheme host : Bytes) (texts fields : Fields)
      → scheme ≢ []
      → every is_lower scheme ≡ true
      → every is_host host ≡ true
      → AreWritten lib texts fields
      → checked_query lib scheme host
          (concat (scheme ∷ codes "://" ∷ host ∷ codes "?" ∷ query_text texts ∷ []))
        ≡ ok (query_text texts)
  unfolding checked_query
  checked_query-address scheme host texts fields n s h w = ground (
    arith,
    laws.parse_address scheme host (query_text texts) n s h
        (query_text-is_query lib texts fields w),
    bytes_eq_refl scheme,
    bytes_eq_refl host,
  )
