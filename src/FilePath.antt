-- ===== src/FilePath.antt =====
-- Go's `path.Join` and `path.Clean`, on slash-separated byte strings.
pub mod Plain
use geth_sev.Prelude.{
  ℕ, ◌==◌, ◌≡◌, ◌≢◌, refl, sym, ap, ◌∙◌, Bytes, codes, bytes_eq, bytes_eq_iff, Bool, true, false,
  ◌||◌, ◌&&◌, List, [], ◌∷◌, ◌++◌, All, Bool-cases, arith, if◌then◌else◌, inl, inr,
}

-- A segment in front of the first of a list.
cons_head : ℕ → List Bytes → List Bytes
cons_head c [] = (c ∷ []) ∷ []
cons_head c (s ∷ ss) = (c ∷ s) ∷ ss

-- The segments between slashes; an empty text has one empty segment.
unfoldable pub split : Bytes → List Bytes
unfolding cons_head
split [] = [] ∷ []
split (c ∷ s) = if c == b'/' then [] ∷ split s else cons_head c (split s)

unfoldable pub join : List Bytes → Bytes
join [] = []
join (s ∷ []) = s
join (s ∷ t ∷ ss) = s ++ b'/' ∷ join (t ∷ ss)

-- The segments that `Clean` keeps, last first.
clean_loop : Bool → List Bytes → List Bytes → List Bytes
clean_loop rooted out [] = out
clean_loop rooted out (s ∷ ss) =
    let kept = clean_loop rooted out ss in
    let pushed = clean_loop rooted (s ∷ out) ss in
    if bytes_eq s [] || bytes_eq s (codes ".")
    then kept
    else if bytes_eq s (codes "..")
    then elim out [
      | [] ↦ if rooted then kept else pushed
      | t ∷ below ↦ if bytes_eq t (codes "..") then pushed else clean_loop rooted below ss
    ]
    else pushed

rev_onto : List Bytes → List Bytes → List Bytes
rev_onto [] acc = acc
rev_onto (s ∷ ss) acc = rev_onto ss (s ∷ acc)

finish : Bool → List Bytes → Bytes
finish rooted [] = if rooted then codes "/" else codes "."
finish rooted (s ∷ ss) = if rooted then b'/' ∷ join (s ∷ ss) else join (s ∷ ss)

unfoldable pub clean : Bytes → Bytes
unfolding split clean_loop rev_onto finish join bytes_eq
clean [] = codes "."
clean (c ∷ s) =
    let rooted = c == b'/' in finish rooted (rev_onto (clean_loop rooted [] (split (c ∷ s))) [])

non_empty : List Bytes → List Bytes
non_empty [] = []
non_empty (s ∷ ss) = if bytes_eq s [] then non_empty ss else s ∷ non_empty ss

unfoldable pub path_join : List Bytes → Bytes
unfolding non_empty clean join bytes_eq
path_join elements = elim (non_empty elements) [ [] ↦ [] | s ∷ ss ↦ clean (join (s ∷ ss)) ]
