-- ===== src/Prelude/Strings.antt =====
-- `strings.ToLower` and `strings.HasPrefix`, on byte strings.
use mathlib.Core.Path.{◌≡◌, refl}
use mathlib.Core.Bool.{Bool, true, false, ◌&&◌, ◌||◌}
use native.Mathlib.Omega.{arith}
use mathlib.Core.List.{[], ◌∷◌}
use Prim.Native.Nat.{ℕ, ◌+◌}
use geth_sev.Prelude.Tests.{leb, ltb, ◌==◌, if◌then◌else◌}
use geth_sev.Prelude.Lists.{Bytes}

abbrev lower_byte : ℕ → ℕ
lower_byte c = if leb b'A' c && leb c b'Z' then c + 32 else c

-- `strings.ToLower`: ASCII letters, and the two letters beyond ASCII whose lower case is ASCII,
-- the dotted capital I (to i) and the Kelvin sign (to k). Other letters keep their bytes: their lower
-- case is no ASCII text either, and the results are only compared with ASCII words.
unfoldable pub to_lower : Bytes → Bytes
to_lower [] = []
to_lower (a ∷ []) = lower_byte a ∷ []
to_lower (a ∷ b ∷ []) =
    if a == 0xc4 && b == 0xb0 then b'i' ∷ [] else lower_byte a ∷ lower_byte b ∷ []
to_lower (a ∷ b ∷ c ∷ rest) =
    let kelvin : Bytes = b'k' ∷ to_lower rest in
    let dotted : Bytes = b'i' ∷ to_lower (c ∷ rest) in
    let plain : Bytes = lower_byte a ∷ to_lower (b ∷ c ∷ rest) in
    if a == 0xe2 && b == 0x84 && c == 0xaa
    then kelvin
    else if a == 0xc4 && b == 0xb0
    then dotted
    else plain

unfoldable pub has_prefix : Bytes → Bytes → Bool
has_prefix s [] = true
has_prefix [] (y ∷ p) = false
has_prefix (x ∷ s) (y ∷ p) = x == y && has_prefix s p

-- `<` of strings
unfoldable pub text_less : Bytes → Bytes → Bool
text_less [] [] = false
text_less [] (y ∷ ys) = true
text_less (x ∷ xs) [] = false
text_less (x ∷ xs) (y ∷ ys) = ltb x y || x == y && text_less xs ys

pub text_less-asym : (xs ys : Bytes) → text_less xs ys ≡ true → text_less ys xs ≡ false
unfolding text_less
text_less-asym [] [] h = refl
text_less-asym [] (y ∷ ys) h = refl
text_less-asym (x ∷ xs) [] h = cc
text_less-asym (x ∷ xs) (y ∷ ys) h = ground (arith, h, text_less-asym xs ys)

-- Not being less is transitive.
pub text_less_trans :
    (xs ys zs : Bytes) → text_less ys xs ≡ false → text_less zs ys ≡ false → text_less zs xs ≡ false
unfolding text_less
text_less_trans [] [] [] h k = refl
text_less_trans [] [] (z ∷ zs) h k = k
text_less_trans [] (y ∷ ys) [] h k = cc
text_less_trans [] (y ∷ ys) (z ∷ zs) h k = refl
text_less_trans (x ∷ xs) [] zs h k = cc
text_less_trans (x ∷ xs) (y ∷ ys) [] h k = cc
text_less_trans (x ∷ xs) (y ∷ ys) (z ∷ zs) h k = ground (arith, h, k, text_less_trans xs ys zs)
