-- ===== src/Validation/Lines.antt =====
-- constellation/validation/errors.go, `format`: the text of an error tree as lines.
use geth_sev.Prelude.{
  ℕ, zero, suc, Bytes, codes, concat, ◌≡◌, refl, ap, ap₂, ◌∙◌, sym, List, [], ◌∷◌, ◌++◌,
}
use geth_sev.Validation.{
  TreeError, tree, Reason, text, traced, no_path, Children, no_child, child, format, reason_text,
  children_text, indentation,
}

-- Two spaces for each level.
abbrev pub spaces : ℕ → Bytes
spaces zero = []
spaces (suc depth) = b' ' ∷ b' ' ∷ spaces depth

abbrev pub line : ℕ × Bytes → Bytes
line (depth, said) = spaces depth ++ said

-- Lines, with a line break between two of them.
abbrev pub lines : List (ℕ × Bytes) → Bytes
lines [] = []
lines (l ∷ []) = line l
lines (l ∷ k ∷ ls) = concat (line l ∷ codes "\n" ∷ lines (k ∷ ls) ∷ [])

-- A reason after the path of its node, if that has one.
abbrev pub heading : Bytes → Bytes → Bytes
heading [] said = said
heading (p ∷ ath) said = concat (codes "validating " ∷ (p ∷ ath) ∷ codes ": " ∷ said ∷ [])

-- The nodes of a tree, each before its children, with their depths. A reason is a message, or the
-- text of the traced error, after the failure to find the path of its field if there is one.
mutual
  pub preorder : ℕ → TreeError → List (ℕ × Bytes)
  preorder depth (tree path reason children) =
      (depth, heading path (said reason)) ∷ preorder_all (suc depth) children

  pub said : Reason → Bytes
  said (text message) = message
  said (traced e) = lines (preorder 0 e)
  said (no_path failure e) = concat (
      codes "cannot find path to field: "
      ∷ failure
      ∷ codes ". original error: "
      ∷ lines (preorder 0 e)
      ∷ [])

  preorder_all : ℕ → Children → List (ℕ × Bytes)
  preorder_all depth no_child = []
  preorder_all depth (child e rest) = preorder depth e ++ preorder_all depth rest

further : List (ℕ × Bytes) → Bytes
further [] = []
further (l ∷ ls) = concat (codes "\n" ∷ line l ∷ further ls ∷ [])

indentation-eq : (depth : ℕ) → indentation depth ≡ spaces depth
indentation-eq zero = refl
indentation-eq (suc depth) = ap (λ w. b' ' ∷ b' ' ∷ w) (indentation-eq depth)

append_assoc : (xs ys zs : Bytes) → (xs ++ ys) ++ zs ≡ xs ++ (ys ++ zs)
append_assoc [] ys zs = refl
append_assoc (x ∷ xs) ys zs = ap (λ w. x ∷ w) (append_assoc xs ys zs)

append_nil : (xs : Bytes) → xs ++ [] ≡ xs
append_nil [] = refl
append_nil (x ∷ xs) = ap (λ w. x ∷ w) (append_nil xs)

lines-further : (l : ℕ × Bytes) (ls : List (ℕ × Bytes)) → lines (l ∷ ls) ≡ line l ++ further ls
unfolding further
lines-further l [] = sym (append_nil (line l))
lines-further l (k ∷ ls) = ap (λ w. line l ++ (codes "\n" ++ w)) (lines-further k ls)

further-append : (ks ls : List (ℕ × Bytes)) → further (ks ++ ls) ≡ further ks ++ further ls
unfolding further
further-append [] ls = refl
further-append (k ∷ ks) ls =
    ap (λ w. codes "\n" ++ (line k ++ w)) (further-append ks ls)
    ∙ sym (append_assoc (codes "\n" ++ line k) (further ks) (further ls) ∙ refl)

lines-append_further :
    (ks ls : List (ℕ × Bytes)) (k : ℕ × Bytes)
    → lines ((k ∷ ks) ++ ls) ≡ lines (k ∷ ks) ++ further ls
lines-append_further ks ls k =
    lines-further k (ks ++ ls)
    ∙ ap (λ w. line k ++ w) (further-append ks ls)
    ∙ sym (append_assoc (line k) (further ks) (further ls))
    ∙ ap (λ w. w ++ further ls) (sym (lines-further k ks))

format-node :
    (depth : ℕ) (path : Bytes) (reason : Reason) (children : Children)
    → format depth (tree path reason children)
      ≡ line (depth, heading path (reason_text reason)) ++ children_text (suc depth) children
unfolding format
format-node depth [] reason children =
    ap (λ w. w ++ (reason_text reason ++ children_text (suc depth) children)) (indentation-eq depth)
    ∙ sym (append_assoc (spaces depth) (reason_text reason) (children_text (suc depth) children))
format-node depth (p ∷ ath) reason children =
    ap
      (λ w.
        w
        ++ (codes "validating "
            ++ ((p ∷ ath)
                ++ (codes ": " ++ (reason_text reason ++ children_text (suc depth) children)))))
      (indentation-eq depth)
    ∙ sym (
        append_assoc (spaces depth) (heading (p ∷ ath) (reason_text reason))
          (children_text (suc depth) children)
        ∙ ap (λ w. spaces depth ++ w)
            (regroup (p ∷ ath) (reason_text reason) (children_text (suc depth) children)))
  where
    regroup :
        (a b c : Bytes)
        → concat (codes "validating " ∷ a ∷ codes ": " ∷ b ∷ []) ++ c
          ≡ concat (codes "validating " ∷ a ∷ codes ": " ∷ b ∷ c ∷ [])
    regroup a b c = ap (λ w. codes "validating " ++ w) (append_assoc a (codes ": " ++ b) c)

further-lines :
    (ks ls : List (ℕ × Bytes)) (k : ℕ × Bytes)
    → codes "\n" ++ (lines (k ∷ ks) ++ further ls) ≡ further ((k ∷ ks) ++ ls)
unfolding further
further-lines ks ls k =
    ap (λ w. codes "\n" ++ w) (sym (lines-append_further ks ls k) ∙ lines-further k (ks ++ ls))

nothing : [] ≡ further []
unfolding further
nothing = refl

mutual
  unfolding format preorder

  format-eq : (depth : ℕ) (e : TreeError) → format depth e ≡ lines (preorder depth e)
  format-eq depth (tree path reason children) =
      format-node depth path reason children
      ∙ ap₂ (λ w x. line (depth, heading path w) ++ x) (reason-eq reason)
          (children-eq (suc depth) children)
      ∙ sym (lines-further (depth, heading path (said reason)) (preorder_all (suc depth) children))

  reason-eq : (reason : Reason) → reason_text reason ≡ said reason
  reason-eq (text message) = refl
  reason-eq (traced e) = format-eq 0 e
  reason-eq (no_path failure e) =
      ap
        (λ w.
          concat
            (codes "cannot find path to field: " ∷ failure ∷ codes ". original error: " ∷ w ∷ []))
        (format-eq 0 e)

  children-eq :
      (depth : ℕ) (cs : Children) → children_text depth cs ≡ further (preorder_all depth cs)
  children-eq depth no_child = nothing
  children-eq depth (child (tree path reason children) rest) =
      ap₂ (λ x y. codes "\n" ++ (x ++ y)) (format-eq depth (tree path reason children))
        (children-eq depth rest)
      ∙ further-lines (preorder_all (suc depth) children) (preorder_all depth rest)
          (depth, heading path (said reason))

-- The text of an error tree is one line for each of its nodes, every node before its children,
-- indented by two spaces for each level; a line says the path of its node, if that has one, and the
-- reason: a message, or the text of a traced error, after a remark on the failure to find the path
-- of its field if there was one.
pub format_lem : (depth : ℕ) (e : TreeError) → format depth e ≡ lines (preorder depth e)
format_lem depth e = format-eq depth e
