-- ===== src/Tests/States.antt =====
-- Constraints and states of clusters.
use geth_sev.Prelude.{
  ℕ, ◌≡◌, ◌≢◌, ◌↔◌, ◌⊎◌, inl, inr, refl, codes, Bytes, bytes_eq, bytes_eq_iff, [], ◌∷◌, Option,
  some, none, ok, true, false, In, ◌==◌, ==_iff,
}
use geth_sev.Validation.{
  Comparable, Constraint, TreeError, tree, text, no_child, child, equal, with_trace, and_all,
  or_any, all, if_not_nil, fail_fast, validate, ValidateOptions, format,
}
use geth_sev.Validation.Verdicts.{combinators_iff, AreSatisfied, item_at}
use geth_sev.Validation.Reports.{validate_lem, reported, reported_by, failures, chosen}
use geth_sev.Validation.Lines.{format_lem, lines, preorder}
use geth_sev.Variant.{azure_sev_snp}
use geth_sev.State.{State, Azure, Gcp, ClusterValues, new, set_cluster_values, version1}
use geth_sev.State.Constraints.{Checks, validate_state, pre_create, pre_init, post_init, other_set}
use geth_sev.State.Fields.{AreChecks}
use geth_sev.State.Verdicts.{IsPreCreate, IsPreInit, IsPostInit, validate_state_iff}
use geth_sev.State.Stages.{IsElsewhere, stages_lem}

abbrev numbers : Comparable ℕ
numbers = record { equals = λ s t. s == t; zero_value = 0; print = λ s. []; print_all = λ s. [] }

abbrev three : ℕ
three = 3

abbrev some_two : Option ℕ
some_two = some 2

abbrev bad : Constraint
bad =
    some
      (tree (codes "a") (text (codes "b")) (child (tree [] (text (codes "c")) no_child) no_child))

combinators_example :
    ((with_trace (ok (codes "path")) bad ≡ none) ↔ (bad ≡ none))
    × ((and_all fail_fast (none ∷ bad ∷ []) ≡ none) ↔ AreSatisfied (none ∷ bad ∷ []))
    × ((or_any (none ∷ bad ∷ []) ≡ none) ↔ ((none ∷ bad ∷ [] ≡ []) ⊎ In none (none ∷ bad ∷ [])))
    × ((all (1 ∷ 2 ∷ []) (λ i v. equal numbers v 1) ≡ none)
        ↔ ((i v : ℕ) → item_at (1 ∷ 2 ∷ []) i ≡ some v → equal numbers v 1 ≡ none))
    × ((if_not_nil some_two (λ v. equal numbers v 1) ≡ none)
        ↔ ((some_two ≡ none) ⊎ ((a : ℕ) × (some_two ≡ some a) × (equal numbers a 1 ≡ none))))
combinators_example =
    combinators_iff (ok (codes "path")) bad (none ∷ bad ∷ []) fail_fast (1 ∷ 2 ∷ [])
      (λ i v. equal numbers v 1) some_two (λ v. equal numbers v 1)

abbrev options : ValidateOptions
options = record { err_strategy = fail_fast; override_constraints = some (none ∷ bad ∷ bad ∷ []) }

report_example :
    ((validate [] options ≡ none) ↔ AreSatisfied (chosen [] options))
    × (reported (validate [] options) ≡ reported_by fail_fast (failures (none ∷ bad ∷ bad ∷ [])))
report_example = validate_lem [] options

abbrev bad_tree : TreeError
bad_tree =
    tree (codes "a") (text (codes "b")) (child (tree [] (text (codes "c")) no_child) no_child)

format_example : format 1 bad_tree ≡ lines (preorder 1 bad_tree)
format_example = format_lem 1 bad_tree

abbrev strings : Comparable Bytes
strings = record { equals = bytes_eq; zero_value = []; print = λ s. s; print_all = λ s. [] }

abbrev pointers : (A : Type 0) → Comparable (Option A)
pointers A = record {
  equals = λ p q. elim p [ none ↦ (elim q [ none ↦ true | some b ↦ false ]) | some a ↦ false ];
  zero_value = none;
  print = λ p. [];
  print_all = λ p. [];
}

abbrev checks : Checks
checks = record {
  is_dns_name = λ s. bytes_eq s (codes "a.b");
  is_ip_address = λ s. bytes_eq s (codes "10.0.0.1");
  is_cidr = λ s. bytes_eq s (codes "10.0.0.0/8");
  path = λ s. ok s;
  strings = strings;
  octets = numbers;
  azure_pointers = pointers Azure;
  gcp_pointers = pointers Gcp;
}

nil_pointer : (A : Type 0) (p : Option A) → ((pointers A).equals p none ≡ true) ↔ (p ≡ none)
nil_pointer A none = (λ h. refl, λ h. refl)
nil_pointer A (some a) = (λ h. cc, λ h. cc)

checks_laws : AreChecks checks
checks_laws = record {
  strings = bytes_eq_iff;
  no_string = refl;
  octets = ==_iff;
  azure_nil = nil_pointer Azure;
  azure_zero = refl;
  gcp_nil = nil_pointer Gcp;
  gcp_zero = refl;
}

-- A cluster on Azure before its initialization.
abbrev created : State
created = record {
  version = version1;
  infrastructure = record {
    uid = codes "u";
    cluster_endpoint = codes "a.b";
    in_cluster_endpoint = codes "10.0.0.1";
    init_secret = [];
    api_server_cert_sans = [];
    name = codes "n";
    ip_cidr_node = codes "10.0.0.0/8";
    azure = some (record {
      resource_group = codes "r";
      subscription_id = codes "s";
      network_security_group_name = codes "g";
      load_balancer_name = codes "l";
      user_assigned_identity = codes "i";
      attestation_url = codes "url";
    });
    gcp = none;
    open_stack = none;
  };
  cluster_values = record { cluster_id = []; owner_id = []; measurement_salt = [] };
}

state_example :
    ((validate_state checks pre_create azure_sev_snp created ≡ none) ↔ IsPreCreate created)
    × ((validate_state checks pre_init azure_sev_snp created ≡ none)
        ↔ IsPreInit checks azure_sev_snp created)
    × ((validate_state checks post_init azure_sev_snp created ≡ none)
        ↔ IsPostInit checks azure_sev_snp created)
    × (validate_state checks other_set azure_sev_snp created ≢ none)
state_example = validate_state_iff checks checks_laws azure_sev_snp created

created-IsPreInit : IsPreInit checks azure_sev_snp created
unfolding bytes_eq
created-IsPreInit = (
  (refl, inl refl, inr refl, refl, λ e. cc, λ e. cc),
  refl,
  refl,
  ((refl, (λ e. cc, λ e. cc, λ e. cc, λ e. cc, λ e. cc)), λ e. cc),
)

abbrev values : ClusterValues
values = record { cluster_id = codes "id"; owner_id = []; measurement_salt = 1 ∷ [] }

stages_example :
    (validate_state checks pre_create azure_sev_snp new ≡ none)
    × (validate_state checks pre_create azure_sev_snp created ≡ none
        → (validate_state checks pre_init azure_sev_snp created ≢ none)
          × (validate_state checks post_init azure_sev_snp created ≢ none))
    × (validate_state checks pre_init azure_sev_snp created ≡ none
        → validate_state checks post_init azure_sev_snp created ≢ none)
    × (validate_state checks pre_init azure_sev_snp created ≡ none
        → values.cluster_id ≢ []
        → values.measurement_salt ≢ []
        → (IsElsewhere azure_sev_snp
            → (created.infrastructure.gcp ≡ none) × (created.infrastructure.azure ≡ none))
        → validate_state checks post_init azure_sev_snp (set_cluster_values values created) ≡ none)
stages_example = stages_lem checks checks_laws azure_sev_snp created values

-- The state before initialization is accepted, and after it too.
stages_test :
    validate_state checks post_init azure_sev_snp (set_cluster_values values created) ≡ none
stages_test =
    (stages_lem checks checks_laws azure_sev_snp created values).3
      ((validate_state_iff checks checks_laws azure_sev_snp created).1.1 created-IsPreInit)
      (λ e. cc) (λ e. cc) (λ e. absurd e)
