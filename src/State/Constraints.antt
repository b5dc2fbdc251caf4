-- ===== src/State/Constraints.antt =====
-- constellation/constellation/state/state.go: the constraints that a state has to meet before creation,
-- before initialization and afterwards. The parsers of names and addresses, and the paths that
-- reflection finds, are parameters.
use geth_sev.Prelude.{ℕ, Bytes, codes, List, [], ◌∷◌, ◌++◌, Bool, Option, none, some, Result}
use geth_sev.Validation.{
  Comparable, Constraint, with_trace, equal, empty, not_empty, one_of, empty_slice, not_empty_slice,
  ip_address, cidr, dns_name, if_not_nil, and_all, or_any, evaluate_all, validate, ValidationError,
}
use geth_sev.Variant.{
  Variant, azure_sev_snp, azure_tdx, azure_trusted_launch, gcp_sev_es, gcp_sev_snp,
}
use geth_sev.State.{State, Infrastructure, Azure, Gcp, version1}

-- What the constraints need of other packages: the pattern of names, the parsers of addresses and
-- ranges, the path of a field, and the comparison and printing of the values that are compared.
pub record Checks : Type 0 where
  pub is_dns_name : Bytes → Bool
  pub is_ip_address : Bytes → Bool
  pub is_cidr : Bytes → Bool
  pub path : Bytes → Result Bytes Bytes
  pub strings : Comparable Bytes
  pub octets : Comparable ℕ
  pub azure_pointers : Comparable (Option Azure)
  pub gcp_pointers : Comparable (Option Gcp)

module _ (c : Checks) where
  -- A constraint with the trace of its field.
  unfoldable pub at_field : Bytes → Constraint → Constraint
  unfolding with_trace
  at_field name constraint = with_trace (c.path name) constraint

  unfoldable pub known_version : State → Constraint
  unfolding at_field one_of
  known_version s = at_field (codes "version") (one_of c.strings s.version (version1 ∷ []))

  -- A text that has to be empty, or filled.
  unfoldable pub blank : Bytes → Bytes → Constraint
  unfolding at_field empty
  blank name s = at_field name (empty c.strings s)

  unfoldable pub filled : Bytes → Bytes → Constraint
  unfolding at_field not_empty
  filled name s = at_field name (not_empty c.strings s)

  unfoldable pub blank_bytes : Bytes → Bytes → Constraint
  unfolding at_field empty_slice
  blank_bytes name s = at_field name (empty_slice c.octets s)

  unfoldable pub filled_bytes : Bytes → Bytes → Constraint
  unfolding at_field not_empty_slice
  filled_bytes name s = at_field name (not_empty_slice c.octets s)

  unfoldable pub is_range : Bytes → Bytes → Constraint
  unfolding at_field cidr
  is_range name s = at_field name (cidr c.is_cidr s)

  -- An endpoint: a DNS name or an IP address.
  unfoldable pub endpoint : Bytes → Bytes → Constraint
  unfolding at_field dns_name ip_address or_any
  endpoint name s =
      or_any (
        at_field name (dns_name c.is_dns_name s)
        ∷ at_field name (ip_address c.is_ip_address s)
        ∷ [])

  -- "need to be nil or empty": equal to nil, or not nil and then empty, as a pointer.
  unfoldable pub no_gcp : Option Gcp → Constraint
  unfolding at_field equal empty if_not_nil or_any
  no_gcp p = or_any (
      at_field (codes "gcp") (equal c.gcp_pointers p none)
      ∷ if_not_nil p (λ _. at_field (codes "gcp") (empty c.gcp_pointers p))
      ∷ [])

  unfoldable pub no_azure : Option Azure → Constraint
  unfolding at_field equal empty if_not_nil or_any
  no_azure p = or_any (
      at_field (codes "azure") (equal c.azure_pointers p none)
      ∷ if_not_nil p (λ _. at_field (codes "azure") (empty c.azure_pointers p))
      ∷ [])

  unfoldable pub azure_values : Option Azure → Constraint
  unfolding filled if_not_nil and_all
  azure_values p = if_not_nil p λ a. and_all evaluate_all (
      filled (codes "resourceGroup") a.resource_group
      ∷ filled (codes "subscriptionID") a.subscription_id
      ∷ filled (codes "networkSecurityGroupName") a.network_security_group_name
      ∷ filled (codes "loadBalancerName") a.load_balancer_name
      ∷ filled (codes "userAssignedIdentity") a.user_assigned_identity
      ∷ [])

  unfoldable pub azure_url : Option Azure → Constraint
  unfolding filled if_not_nil
  azure_url p = if_not_nil p λ a. filled (codes "attestationURL") a.attestation_url

  unfoldable pub gcp_values : Option Gcp → Constraint
  unfolding filled is_range if_not_nil and_all
  gcp_values p = if_not_nil p λ g.
      and_all evaluate_all
        (filled (codes "projectID") g.project_id ∷ is_range (codes "ipCidrPod") g.ip_cidr_pod ∷ [])

  -- `preCreateConstraints`
  unfoldable pub pre_create_constraints : State → List Constraint
  unfolding known_version blank blank_bytes at_field empty_slice
  pre_create_constraints s =
      known_version s
      ∷ blank (codes "uid") s.infrastructure.uid
      ∷ blank (codes "clusterEndpoint") s.infrastructure.cluster_endpoint
      ∷ blank (codes "inClusterEndpoint") s.infrastructure.in_cluster_endpoint
      ∷ blank (codes "name") s.infrastructure.name
      ∷ blank (codes "ipCidrNode") s.infrastructure.ip_cidr_node
      ∷ at_field (codes "apiServerCertSANs")
          (empty_slice c.strings s.infrastructure.api_server_cert_sans)
      ∷ blank_bytes (codes "initSecret") s.infrastructure.init_secret
      ∷ blank (codes "clusterID") s.cluster_values.cluster_id
      ∷ blank_bytes (codes "measurementSalt") s.cluster_values.measurement_salt
      ∷ []

  -- What both later sets begin with.
  unfoldable pub infrastructure_constraints : State → List Constraint → List Constraint
  unfolding known_version endpoint is_range filled
  infrastructure_constraints s rest =
      known_version s
      ∷ endpoint (codes "clusterEndpoint") s.infrastructure.cluster_endpoint
      ∷ endpoint (codes "inClusterEndpoint") s.infrastructure.in_cluster_endpoint
      ∷ is_range (codes "ipCidrNode") s.infrastructure.ip_cidr_node
      ∷ filled (codes "uid") s.infrastructure.uid
      ∷ filled (codes "name") s.infrastructure.name
      ∷ rest

  unfoldable pub azure_constraints : Infrastructure → List Constraint
  unfolding no_gcp azure_values
  azure_constraints i = no_gcp i.gcp ∷ azure_values i.azure ∷ []

  unfoldable pub gcp_constraints : Infrastructure → List Constraint
  unfolding no_azure gcp_values
  gcp_constraints i = no_azure i.azure ∷ gcp_values i.gcp ∷ []

  -- The switch on the variant, with what its default adds.
  unfoldable pub provider_constraints : Variant → Infrastructure → List Constraint → List Constraint
  unfolding azure_constraints gcp_constraints azure_url
  provider_constraints azure_sev_snp i default = azure_constraints i ++ azure_url i.azure ∷ []
  provider_constraints azure_tdx i default = azure_constraints i
  provider_constraints azure_trusted_launch i default = azure_constraints i
  provider_constraints gcp_sev_es i default = gcp_constraints i
  provider_constraints gcp_sev_snp i default = gcp_constraints i
  provider_constraints _ i default = default

  -- `preInitConstraints`
  unfoldable pub pre_init_constraints : Variant → State → List Constraint
  unfolding infrastructure_constraints blank blank_bytes provider_constraints
  pre_init_constraints variant s = infrastructure_constraints s (
      blank (codes "clusterID") s.cluster_values.cluster_id
      ∷ blank_bytes (codes "measurementSalt") s.cluster_values.measurement_salt
      ∷ provider_constraints variant s.infrastructure [])

  -- `postInitConstraints`
  unfoldable pub post_init_constraints : Variant → State → List Constraint
  unfolding infrastructure_constraints filled filled_bytes provider_constraints no_gcp no_azure
  post_init_constraints variant s = infrastructure_constraints s (
      filled (codes "clusterID") s.cluster_values.cluster_id
      ∷ filled_bytes (codes "measurementSalt") s.cluster_values.measurement_salt
      ∷ provider_constraints variant s.infrastructure
          (no_gcp s.infrastructure.gcp ∷ no_azure s.infrastructure.azure ∷ []))

pub data ConstraintSet : Type 0 where
  pre_create pre_init post_init : ConstraintSet
  other_set : ConstraintSet

pub data StateError : Type 0 where
  unknown_constraint_set : StateError
  invalid : ValidationError → StateError

abbrev pub as_error : Option ValidationError → Option StateError
as_error none = none
as_error (some e) = some (invalid e)

unfoldable pub override_with : List Constraint → Option StateError
unfolding validate
override_with cs =
    as_error (validate [] (record { err_strategy = evaluate_all; override_constraints = some cs }))

-- `Validate`; the strategy that the options leave out is `EvaluateAll`, and `Constraints` is empty.
unfoldable pub validate_state : Checks → ConstraintSet → Variant → State → Option StateError
unfolding override_with pre_create_constraints pre_init_constraints post_init_constraints
validate_state c pre_create variant s = override_with (pre_create_constraints c s)
validate_state c pre_init variant s = override_with (pre_init_constraints c variant s)
validate_state c post_init variant s = override_with (post_init_constraints c variant s)
validate_state c other_set variant s = some unknown_constraint_set
