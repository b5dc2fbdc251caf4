-- ===== src/FilePath/Plain.antt =====
-- Joining of segments that `Clean` has nothing to do for.
use mathlib.Core.List.{append-nil}
use geth_sev.Prelude.{
  ℕ, ◌==◌, ◌≡◌, refl, ap, ◌∙◌, Bytes, codes, bytes_eq, Bool, true, false, List, [], ◌∷◌, ◌++◌, All,
}
use geth_sev.FilePath.{split, join, clean_loop, rev_onto, finish, clean, non_empty, path_join}

abbrev pub NoSlash : Bytes → Type 0
NoSlash s = All (λ c. (c == b'/') ≡ false) s

-- Not empty, without a slash, and neither `.` nor `..`.
pub record IsPlain (s : Bytes) : Type 0 where
  pub no_slash : NoSlash s
  pub not_empty : bytes_eq s [] ≡ false
  pub not_dot : bytes_eq s (codes ".") ≡ false
  pub not_dot_dot : bytes_eq s (codes "..") ≡ false

pub split-plain : (s : Bytes) → NoSlash s → split s ≡ s ∷ []
unfolding split
split-plain [] h = refl
split-plain (c ∷ s) h = rw (h.0, split-plain s h.1)

split-slash : (s t : Bytes) → NoSlash s → split (s ++ b'/' ∷ t) ≡ s ∷ split t
unfolding split
split-slash [] t h = refl
split-slash (c ∷ s) t h = rw (h.0, split-slash s t h.1)

-- The segments of joined segments.
pub split-join :
    (s : Bytes) (ss : List Bytes) → All NoSlash (s ∷ ss) → split (join (s ∷ ss)) ≡ s ∷ ss
unfolding join
split-join s [] h = split-plain s h.0
split-join s (t ∷ ss) h = split-slash s (join (t ∷ ss)) h.0 ∙ ap (◌∷◌ s) (split-join t ss h.1)

loop-plain :
    (rooted : Bool) (ss out : List Bytes)
    → All IsPlain ss
    → clean_loop rooted out ss ≡ rev_onto ss out
unfolding clean_loop rev_onto
loop-plain r [] out h = refl
loop-plain r (s ∷ ss) out h =
    rw (h.0.not_empty, h.0.not_dot, h.0.not_dot_dot) (loop-plain r ss (s ∷ out) h.1)

rev-rev :
    (ss out : List Bytes) (acc : List Bytes)
    → rev_onto (rev_onto ss out) acc ≡ rev_onto out (ss ++ acc)
unfolding rev_onto
rev-rev [] out acc = refl
rev-rev (s ∷ ss) out acc = rev-rev ss (s ∷ out) acc

join-cons : (c : ℕ) (s : Bytes) (ss : List Bytes) → (r : Bytes) × (join ((c ∷ s) ∷ ss) ≡ c ∷ r)
unfolding join
join-cons c s [] = (s, refl)
join-cons c s (t ∷ ss) = (s ++ b'/' ∷ join (t ∷ ss), refl)

clean_relative :
    (b : Bytes) (c : ℕ) (r : Bytes)
    → b ≡ c ∷ r
    → (c == b'/') ≡ false
    → clean b ≡ finish false (rev_onto (clean_loop false [] (split b)) [])
unfolding clean
clean_relative b c r e h = rw (e, h)

pub plain-NoSlash : (ss : List Bytes) → All IsPlain ss → All NoSlash ss
plain-NoSlash [] h = tt
plain-NoSlash (s ∷ ss) h = (h.0.no_slash, plain-NoSlash ss h.1)

finished : (s : Bytes) (ss : List Bytes) → finish false (s ∷ ss) ≡ join (s ∷ ss)
unfolding finish
finished s ss = refl

true≢false : true ≡ false → ⊥
true≢false e = cc

clean-join :
    (s : Bytes) (ss : List Bytes) → All IsPlain (s ∷ ss) → clean (join (s ∷ ss)) ≡ join (s ∷ ss)
unfolding rev_onto
clean-join [] ss h = absurd (unfold bytes_eq in true≢false h.0.not_empty)
clean-join (c ∷ s) ss h =
    let (r, e) = join-cons c s ss in
    clean_relative (join ((c ∷ s) ∷ ss)) c r e h.0.no_slash.0
    ∙ ap (λ l. finish false (rev_onto (clean_loop false [] l) []))
        (split-join (c ∷ s) ss (plain-NoSlash ((c ∷ s) ∷ ss) h))
    ∙ ap (λ l. finish false (rev_onto l [])) (loop-plain false ((c ∷ s) ∷ ss) [] h)
    ∙ ap (finish false) (rev-rev ((c ∷ s) ∷ ss) [] [] ∙ append-nil ((c ∷ s) ∷ ss))
    ∙ finished (c ∷ s) ss

non_empty-plain : (ss : List Bytes) → All IsPlain ss → non_empty ss ≡ ss
unfolding non_empty
non_empty-plain [] h = refl
non_empty-plain (s ∷ ss) h = rw h.0.not_empty (ap (◌∷◌ s) (non_empty-plain ss h.1))

-- Plain segments are joined by slashes, and nothing else is done.
pub path_join-plain :
    (s : Bytes) (ss : List Bytes) → All IsPlain (s ∷ ss) → path_join (s ∷ ss) ≡ join (s ∷ ss)
unfolding path_join
path_join-plain s ss h = rw (non_empty-plain (s ∷ ss) h, path_join) (clean-join s ss h)

-- `Join` leaves empty elements out.
pub path_join-empty : (ss : List Bytes) → path_join ([] ∷ ss) ≡ path_join ss
unfolding path_join
path_join-empty ss = refl
