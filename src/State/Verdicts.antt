-- ===== src/State/Verdicts.antt =====
-- constellation/constellation/state/state.go: which states `Validate` accepts.
use geth_sev.Prelude.{codes, ◌≡◌, ◌≢◌, ◌↔◌, List, [], ◌∷◌, true, none, arith, iff_trans}
use geth_sev.Validation.{Constraint, empty_slice}
use geth_sev.Validation.Verdicts.{elementary_iff, with_trace_iff, AreSatisfied}
use geth_sev.Variant.{Variant}
use geth_sev.State.{State, version1}
use geth_sev.State.Constraints.{
  Checks, at_field, blank, filled, blank_bytes, filled_bytes, no_gcp, no_azure,
  pre_create_constraints, pre_init_constraints, post_init_constraints, infrastructure_constraints,
  provider_constraints, validate_state, pre_create, pre_init, post_init, other_set,
}
use geth_sev.State.Fields.{
  AreChecks, IsEndpoint, ProviderRule, known_version_iff, blank_iff, filled_iff, blank_bytes_iff,
  filled_bytes_iff, is_range_iff, endpoint_iff, no_gcp_iff, no_azure_iff, ProviderRule-iff,
  override_with_iff,
}

abbrev pub IsPreCreate : State → Type 0
IsPreCreate s =
    (s.version ≡ version1)
    × (s.infrastructure.uid ≡ [])
    × (s.infrastructure.cluster_endpoint ≡ [])
    × (s.infrastructure.in_cluster_endpoint ≡ [])
    × (s.infrastructure.name ≡ [])
    × (s.infrastructure.ip_cidr_node ≡ [])
    × (s.infrastructure.api_server_cert_sans ≡ [])
    × (s.infrastructure.init_secret ≡ [])
    × (s.cluster_values.cluster_id ≡ [])
    × (s.cluster_values.measurement_salt ≡ [])

abbrev pub HasInfrastructure : Checks → State → Type 0
HasInfrastructure c s =
    (s.version ≡ version1)
    × IsEndpoint c s.infrastructure.cluster_endpoint
    × IsEndpoint c s.infrastructure.in_cluster_endpoint
    × (c.is_cidr s.infrastructure.ip_cidr_node ≡ true)
    × (s.infrastructure.uid ≢ [])
    × (s.infrastructure.name ≢ [])

abbrev pub IsPreInit : Checks → Variant → State → Type 0
IsPreInit c v s =
    HasInfrastructure c s
    × (s.cluster_values.cluster_id ≡ [])
    × (s.cluster_values.measurement_salt ≡ [])
    × ProviderRule c v s.infrastructure Unit

abbrev pub IsPostInit : Checks → Variant → State → Type 0
IsPostInit c v s =
    HasInfrastructure c s
    × (s.cluster_values.cluster_id ≢ [])
    × (s.cluster_values.measurement_salt ≢ [])
    × ProviderRule c v s.infrastructure
        ((s.infrastructure.gcp ≡ none) × (s.infrastructure.azure ≡ none))

module _ (c : Checks) (laws : AreChecks c) where
  infrastructure_iff :
      (s : State) (rest : List Constraint)
      → AreSatisfied (infrastructure_constraints c s rest)
        ↔ (HasInfrastructure c s × AreSatisfied rest)
  unfolding infrastructure_constraints
  infrastructure_iff s rest = ground (
    arith,
    known_version_iff c laws s,
    endpoint_iff c laws (codes "clusterEndpoint") s.infrastructure.cluster_endpoint,
    endpoint_iff c laws (codes "inClusterEndpoint") s.infrastructure.in_cluster_endpoint,
    is_range_iff c laws (codes "ipCidrNode") s.infrastructure.ip_cidr_node,
    filled_iff c laws (codes "uid") s.infrastructure.uid,
    filled_iff c laws (codes "name") s.infrastructure.name,
  )

  IsPreCreate-iff : (s : State) → AreSatisfied (pre_create_constraints c s) ↔ IsPreCreate s
  unfolding pre_create_constraints at_field
  IsPreCreate-iff s = ground (
    arith,
    known_version_iff c laws s,
    blank_iff c laws (codes "uid") s.infrastructure.uid,
    blank_iff c laws (codes "clusterEndpoint") s.infrastructure.cluster_endpoint,
    blank_iff c laws (codes "inClusterEndpoint") s.infrastructure.in_cluster_endpoint,
    blank_iff c laws (codes "name") s.infrastructure.name,
    blank_iff c laws (codes "ipCidrNode") s.infrastructure.ip_cidr_node,
    with_trace_iff (c.path (codes "apiServerCertSANs"))
        (empty_slice c.strings s.infrastructure.api_server_cert_sans),
    (elementary_iff c.strings laws.strings [] [] s.infrastructure.api_server_cert_sans).5,
    blank_bytes_iff c laws (codes "initSecret") s.infrastructure.init_secret,
    blank_iff c laws (codes "clusterID") s.cluster_values.cluster_id,
    blank_bytes_iff c laws (codes "measurementSalt") s.cluster_values.measurement_salt,
  )

  IsPreInit-iff :
      (v : Variant) (s : State) → AreSatisfied (pre_init_constraints c v s) ↔ IsPreInit c v s
  unfolding pre_init_constraints
  IsPreInit-iff v s = ground (
    arith,
    infrastructure_iff s (
        blank c (codes "clusterID") s.cluster_values.cluster_id
        ∷ blank_bytes c (codes "measurementSalt") s.cluster_values.measurement_salt
        ∷ provider_constraints c v s.infrastructure []),
    blank_iff c laws (codes "clusterID") s.cluster_values.cluster_id,
    blank_bytes_iff c laws (codes "measurementSalt") s.cluster_values.measurement_salt,
    ProviderRule-iff c laws v s.infrastructure [] Unit (λ h. tt, λ h. tt),
  )

  IsPostInit-iff :
      (v : Variant) (s : State) → AreSatisfied (post_init_constraints c v s) ↔ IsPostInit c v s
  unfolding post_init_constraints
  IsPostInit-iff v s = ground (
    arith,
    infrastructure_iff s (
        filled c (codes "clusterID") s.cluster_values.cluster_id
        ∷ filled_bytes c (codes "measurementSalt") s.cluster_values.measurement_salt
        ∷ provider_constraints c v s.infrastructure
            (no_gcp c s.infrastructure.gcp ∷ no_azure c s.infrastructure.azure ∷ [])),
    filled_iff c laws (codes "clusterID") s.cluster_values.cluster_id,
    filled_bytes_iff c laws (codes "measurementSalt") s.cluster_values.measurement_salt,
    ProviderRule-iff c laws v s.infrastructure
        (no_gcp c s.infrastructure.gcp ∷ no_azure c s.infrastructure.azure ∷ [])
        ((s.infrastructure.gcp ≡ none) × (s.infrastructure.azure ≡ none))
        (ground (
          arith,
          no_gcp_iff c laws s.infrastructure.gcp,
          no_azure_iff c laws s.infrastructure.azure,
        )),
  )

  -- Under the laws of the comparisons, `Validate` returns no error exactly: before creation for the
  -- known version and empty fields, except the owner and the values of providers, which are not
  -- checked; before initialization for endpoints that are names or addresses, a range of node
  -- addresses, a filled identifier and name, and no cluster values; after initialization for the
  -- same with filled cluster values. In the latter two the variants of Azure ask that there are no
  -- values for GCP and that those for Azure, if there are any, are filled; the variants of GCP ask
  -- the converse; every other variant asks after initialization that there are neither. Any other
  -- set of constraints is an error.
  pub validate_state_iff :
      (v : Variant) (s : State)
      → ((validate_state c pre_create v s ≡ none) ↔ IsPreCreate s)
        × ((validate_state c pre_init v s ≡ none) ↔ IsPreInit c v s)
        × ((validate_state c post_init v s ≡ none) ↔ IsPostInit c v s)
        × (validate_state c other_set v s ≢ none)
  unfolding validate_state
  validate_state_iff v s = (
    iff_trans (override_with_iff c laws (pre_create_constraints c s)) (IsPreCreate-iff s),
    iff_trans (override_with_iff c laws (pre_init_constraints c v s)) (IsPreInit-iff v s),
    iff_trans (override_with_iff c laws (post_init_constraints c v s)) (IsPostInit-iff v s),
    λ h. cc,
  )
