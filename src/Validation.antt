-- ===== src/Validation.antt =====
-- constellation/validation: constraints on documents, and the error trees they give. A constraint
-- is what its `Satisfied` returns: the functions have no other effect. The pattern matcher, the
-- parsers of addresses, and the path that reflection finds are parameters.
pub mod Verdicts
pub mod Reports
pub mod Lines
use geth_sev.Prelude.{
  ℕ, zero, suc, Bytes, codes, concat, length, ◌==◌, List, [], ◌∷◌, ◌++◌, Bool, true, false, not,
  Option, none, some, Result, ok, err, if◌then◌else◌,
}

-- `TreeError` with its children, and the errors it can carry.
mutual
  pub data TreeError : Type 0 where
    tree : Bytes → Reason → Children → TreeError

  pub data Reason : Type 0 where
    text : Bytes → Reason
    traced : TreeError → Reason
    no_path : Bytes → TreeError → Reason

  pub data Children : Type 0 where
    no_child : Children
    child : TreeError → Children → Children

abbrev pub Constraint : Type 0
Constraint = Option TreeError

abbrev pub append_child : Children → TreeError → Children
append_child no_child e = child e no_child
append_child (child c cs) e = child c (append_child cs e)

-- `NewErrorTree` of `fmt.Errorf`
abbrev pub new_error_tree : List Bytes → TreeError
new_error_tree parts = tree [] (text (concat parts)) no_child

-- `withTrace`, at what `traverse` finds: the path of the field, or an error
unfoldable pub with_trace : Result Bytes Bytes → Constraint → Constraint
with_trace found none = none
with_trace (ok path) (some e) = some (tree path (traced e) no_child)
with_trace (err failure) (some e) = some (tree (codes "unknown") (no_path failure e) no_child)

abbrev fails_unless : Bool → List Bytes → Constraint
fails_unless true message = none
fails_unless false message = some (new_error_tree message)

-- `MatchRegex`
unfoldable pub match_regex : (Bytes → Bytes → Bool) → Bytes → Bytes → Constraint
match_regex match s regex =
    fails_unless (match regex s) (s ∷ codes " must match the pattern " ∷ regex ∷ [])

-- A `comparable` type, with what `%v` prints of its values and of lists of them.
pub record Comparable (A : Type 0) : Type 0 where
  pub equals : A → A → Bool
  pub zero_value : A
  pub print : A → Bytes
  pub print_all : List A → Bytes

abbrev is_nil : Constraint → Bool
is_nil none = true
is_nil (some e) = false

abbrev member : {A : Type 0} → Comparable A → A → List A → Bool
member c s [] = false
member c s (v ∷ p) = if c.equals s v then true else member c s p

module _ {A : Type 0} (c : Comparable A) where
  -- `Equal`
  unfoldable pub equal : A → A → Constraint
  equal s t = fails_unless (c.equals s t) (c.print s ∷ codes " must be equal to " ∷ c.print t ∷ [])

  -- `NotEqual`
  unfoldable pub not_equal : A → A → Constraint
  unfolding equal
  not_equal s t =
      fails_unless (not (is_nil (equal s t)))
        (c.print s ∷ codes " must not be equal to " ∷ c.print t ∷ [])

  -- `Empty`
  unfoldable pub empty : A → Constraint
  empty s = fails_unless (c.equals s c.zero_value) (c.print s ∷ codes " must be empty" ∷ [])

  -- `NotEmpty`
  unfoldable pub not_empty : A → Constraint
  unfolding empty
  not_empty s = fails_unless (not (is_nil (empty s))) (codes "must not be empty" ∷ [])

  -- `OneOf`
  unfoldable pub one_of : A → List A → Constraint
  one_of s p =
      fails_unless (member c s p) (c.print s ∷ codes " must be one of " ∷ c.print_all p ∷ [])

  -- `EmptySlice`
  unfoldable pub empty_slice : List A → Constraint
  empty_slice s = fails_unless (length s == 0) (c.print_all s ∷ codes " must be empty" ∷ [])

  -- `NotEmptySlice`
  unfoldable pub not_empty_slice : List A → Constraint
  unfolding empty_slice
  not_empty_slice s = fails_unless (not (is_nil (empty_slice s))) (codes "must not be empty" ∷ [])

-- `IPAddress`, `CIDR` and `DNSName`, at what the parser or the pattern says of the text
unfoldable pub ip_address : (Bytes → Bool) → Bytes → Constraint
ip_address parses s = fails_unless (parses s) (s ∷ codes " must be a valid IP address" ∷ [])

unfoldable pub cidr : (Bytes → Bool) → Bytes → Constraint
cidr parses s = fails_unless (parses s) (s ∷ codes " must be a valid CIDR" ∷ [])

unfoldable pub dns_name : (Bytes → Bool) → Bytes → Constraint
dns_name matches s = fails_unless (matches s) (s ∷ codes " must be a valid DNS name" ∷ [])

-- `IfNotNil`, at the constraint on the value that the pointer refers to, if it does
unfoldable pub if_not_nil : {A : Type 0} → Option A → (A → Constraint) → Constraint
if_not_nil none c = none
if_not_nil (some a) c = c a

-- The tree of the error that groups others, unless there is no child.
abbrev grouped : Bytes → Children → Constraint
grouped message no_child = none
grouped message (child e rest) = some (tree [] (text message) (child e rest))

abbrev pub all_message : Bytes
all_message = codes "all of the constraints must be satisfied: "

abbrev pub some_message : Bytes
some_message = codes "at least one of the constraints must be satisfied: "

-- The loop of `And` and `All`, which goes on after a failure.
all_loop : List Constraint → Children → Constraint
all_loop [] failed = grouped all_message failed
all_loop (none ∷ cs) failed = all_loop cs failed
all_loop (some e ∷ cs) failed = all_loop cs (append_child failed e)

abbrev apply_all : {A : Type 0} → (ℕ → A → Constraint) → ℕ → List A → List Constraint
apply_all c i [] = []
apply_all c i (v ∷ s) = c i v ∷ apply_all c (suc i) s

-- `All`
unfoldable pub all : {A : Type 0} → List A → (ℕ → A → Constraint) → Constraint
unfolding all_loop
all s c = all_loop (apply_all c 0 s) no_child

pub data ErrStrategy : Type 0 where
  evaluate_all fail_fast : ErrStrategy

abbrev pub first_failure : List Constraint → Constraint
first_failure [] = none
first_failure (none ∷ cs) = first_failure cs
first_failure (some e ∷ cs) = some e

-- `And`
unfoldable pub and_all : ErrStrategy → List Constraint → Constraint
unfolding all_loop
and_all fail_fast cs = first_failure cs
and_all evaluate_all cs = all_loop cs no_child

or_loop : List Constraint → Children → Constraint
or_loop [] failed = grouped some_message failed
or_loop (none ∷ cs) failed = none
or_loop (some e ∷ cs) failed = or_loop cs (append_child failed e)

-- `Or`
unfoldable pub or_any : List Constraint → Constraint
unfolding or_loop
or_any cs = or_loop cs no_child

-- The error of `Validate`: a tree alone, or trees joined one by one.
pub data ValidationError : Type 0 where
  single joined : TreeError → ValidationError
  joined_to : ValidationError → TreeError → ValidationError

abbrev join : Option ValidationError → TreeError → ValidationError
join none e = joined e
join (some es) e = joined_to es e

validate_loop : ErrStrategy → List Constraint → Option ValidationError → Option ValidationError
validate_loop strategy [] errors = errors
validate_loop strategy (none ∷ cs) errors = validate_loop strategy cs errors
validate_loop fail_fast (some e ∷ cs) errors = some (single e)
validate_loop evaluate_all (some e ∷ cs) errors =
    validate_loop evaluate_all cs (some (join errors e))

pub record ValidateOptions : Type 0 where
  pub err_strategy : ErrStrategy
  pub override_constraints : Option (List Constraint)

-- `Validate`, at the constraints of the document
unfoldable pub validate : List Constraint → ValidateOptions → Option ValidationError
unfolding validate_loop
validate constraints opts = elim opts.override_constraints [
  | none ↦ validate_loop opts.err_strategy constraints none
  | some override ↦ validate_loop opts.err_strategy override none
]

abbrev indentation : ℕ → Bytes
indentation zero = []
indentation (suc n) = codes "  " ++ indentation n

-- `format`
unfoldable mutual
  pub format : ℕ → TreeError → Bytes
  format indent (tree [] reason children) =
      concat (indentation indent ∷ reason_text reason ∷ children_text (suc indent) children ∷ [])
  format indent (tree (p ∷ ath) reason children) = concat (
      indentation indent
      ∷ codes "validating "
      ∷ (p ∷ ath)
      ∷ codes ": "
      ∷ reason_text reason
      ∷ children_text (suc indent) children
      ∷ [])

  reason_text : Reason → Bytes
  reason_text (text message) = message
  reason_text (traced e) = format 0 e
  reason_text (no_path failure e) =
      concat (
        codes "cannot find path to field: "
        ∷ failure
        ∷ codes ". original error: "
        ∷ format 0 e
        ∷ [])

  children_text : ℕ → Children → Bytes
  children_text indent no_child = []
  children_text indent (child e rest) =
      concat (codes "\n" ∷ format indent e ∷ children_text indent rest ∷ [])
