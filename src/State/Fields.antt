-- ===== src/State/Fields.antt =====
-- constellation/constellation/state/state.go: what each constraint on a state asks.
use geth_sev.Prelude.{
  Bytes, codes, ◌≡◌, ◌≢◌, sym, subst, ◌↔◌, ◌⊎◌, List, [], ◌∷◌, true, Option, none, some, arith,
}
use geth_sev.Validation.{
  Constraint, Comparable, equal, empty, not_empty, one_of, empty_slice, not_empty_slice, cidr,
  dns_name, ip_address, if_not_nil, or_any, evaluate_all, with_trace,
}
use geth_sev.Validation.Verdicts.{
  IsComparable, elementary_iff, with_trace_iff, if_not_nil_iff, and_all_iff, or_any_iff,
  AreSatisfied,
}
use geth_sev.Validation.Reports.{validate_lem}
use geth_sev.Variant.{
  Variant, dummy, aws_nitro_tpm, aws_sev_snp, gcp_sev_es, gcp_sev_snp, azure_tdx, azure_sev_snp,
  azure_trusted_launch, qemu_vtpm, qemu_tdx,
}
use geth_sev.State.{State, Infrastructure, Azure, Gcp, version1}
use geth_sev.State.Constraints.{
  Checks, at_field, known_version, blank, filled, blank_bytes, filled_bytes, is_range, endpoint,
  no_gcp, no_azure, azure_values, azure_url, gcp_values, azure_constraints, gcp_constraints,
  provider_constraints, override_with,
}

-- `==` decides equality of texts and bytes, and whether a pointer is nil; the zero values are the
-- empty text and nil.
pub record AreChecks (c : Checks) : Type 0 where
  pub strings : IsComparable c.strings
  pub no_string : c.strings.zero_value ≡ []
  pub octets : IsComparable c.octets
  pub azure_nil : (p : Option Azure) → (c.azure_pointers.equals p none ≡ true) ↔ (p ≡ none)
  pub azure_zero : c.azure_pointers.zero_value ≡ none
  pub gcp_nil : (p : Option Gcp) → (c.gcp_pointers.equals p none ≡ true) ↔ (p ≡ none)
  pub gcp_zero : c.gcp_pointers.zero_value ≡ none

abbrev pub IsEndpoint : Checks → Bytes → Type 0
IsEndpoint c e = (c.is_dns_name e ≡ true) ⊎ (c.is_ip_address e ≡ true)

abbrev pub HasAzureValues : Azure → Type 0
HasAzureValues a =
    (a.resource_group ≢ [])
    × (a.subscription_id ≢ [])
    × (a.network_security_group_name ≢ [])
    × (a.load_balancer_name ≢ [])
    × (a.user_assigned_identity ≢ [])

abbrev pub IfSome : {A : Type 0} → (A → Type 0) → Option A → Type 0
IfSome P none = Unit
IfSome P (some a) = P a

abbrev pub AzureRule : Infrastructure → Type 0
AzureRule i = (i.gcp ≡ none) × IfSome HasAzureValues i.azure

abbrev pub GcpRule : Checks → Infrastructure → Type 0
GcpRule c i =
    (i.azure ≡ none) × IfSome (λ g. (g.project_id ≢ []) × (c.is_cidr g.ip_cidr_pod ≡ true)) i.gcp

-- What a variant asks of the providers' values; `other` is what the variants of no provider ask.
abbrev pub ProviderRule : Checks → Variant → Infrastructure → Type 0 → Type 0
ProviderRule c azure_sev_snp i other = AzureRule i × IfSome (λ a. a.attestation_url ≢ []) i.azure
ProviderRule c azure_tdx i other = AzureRule i
ProviderRule c azure_trusted_launch i other = AzureRule i
ProviderRule c gcp_sev_es i other = GcpRule c i
ProviderRule c gcp_sev_snp i other = GcpRule c i
ProviderRule c _ i other = other

module _ (c : Checks) (laws : AreChecks c) where
  pub known_version_iff : (s : State) → (known_version c s ≡ none) ↔ (s.version ≡ version1)
  unfolding known_version at_field
  known_version_iff s = ground (
    arith,
    with_trace_iff (c.path (codes "version")) (one_of c.strings s.version (version1 ∷ [])),
    (elementary_iff c.strings laws.strings s.version [] (version1 ∷ [])).4,
  )

  pub blank_iff : (name s : Bytes) → (blank c name s ≡ none) ↔ (s ≡ [])
  unfolding blank at_field
  blank_iff name s = ground (
    arith,
    with_trace_iff (c.path name) (empty c.strings s),
    (elementary_iff c.strings laws.strings s [] []).2,
    laws.no_string,
  )

  pub filled_iff : (name s : Bytes) → (filled c name s ≡ none) ↔ (s ≢ [])
  unfolding filled at_field
  filled_iff name s = ground (
    arith,
    with_trace_iff (c.path name) (not_empty c.strings s),
    (elementary_iff c.strings laws.strings s [] []).3,
    laws.no_string,
  )

  pub blank_bytes_iff : (name s : Bytes) → (blank_bytes c name s ≡ none) ↔ (s ≡ [])
  unfolding blank_bytes at_field
  blank_bytes_iff name s = ground (
    arith,
    with_trace_iff (c.path name) (empty_slice c.octets s),
    (elementary_iff c.octets laws.octets 0 0 s).5,
  )

  pub filled_bytes_iff : (name s : Bytes) → (filled_bytes c name s ≡ none) ↔ (s ≢ [])
  unfolding filled_bytes at_field
  filled_bytes_iff name s = ground (
    arith,
    with_trace_iff (c.path name) (not_empty_slice c.octets s),
    (elementary_iff c.octets laws.octets 0 0 s).6,
  )

  pub is_range_iff : (name s : Bytes) → (is_range c name s ≡ none) ↔ (c.is_cidr s ≡ true)
  unfolding is_range at_field cidr
  is_range_iff name s = ground (arith, with_trace_iff (c.path name) (cidr c.is_cidr s))

  pub endpoint_iff : (name s : Bytes) → (endpoint c name s ≡ none) ↔ IsEndpoint c s
  unfolding endpoint at_field dns_name ip_address
  endpoint_iff name s = ground (
    arith,
    with_trace_iff (c.path name) (dns_name c.is_dns_name s),
    with_trace_iff (c.path name) (ip_address c.is_ip_address s),
    or_any_iff (
        with_trace (c.path name) (dns_name c.is_dns_name s)
        ∷ with_trace (c.path name) (ip_address c.is_ip_address s)
        ∷ []),
  )

  -- A pointer has to be nil: one that is not is not empty either.
  nil_iff :
      {A : Type 0} (k : Comparable (Option A)) (name : Bytes) (p : Option A)
      → ((k.equals p none ≡ true) ↔ (p ≡ none))
      → k.zero_value ≡ none
      → (or_any (
            with_trace (c.path name) (equal k p none)
            ∷ if_not_nil p (λ _. with_trace (c.path name) (empty k p))
            ∷ [])
          ≡ none)
        ↔ (p ≡ none)
  unfolding equal empty
  nil_iff {A} k name p law z = ground (
    arith,
    law,
    with_trace_iff (c.path name) (equal k p none),
    with_trace_iff (c.path name) (empty k p),
    subst (λ zero. (k.equals p zero ≡ true) ↔ (p ≡ none)) (sym z) law,
    if_not_nil_iff p (λ _. with_trace (c.path name) (empty k p)),
    or_any_iff (
        with_trace (c.path name) (equal k p none)
        ∷ if_not_nil p (λ _. with_trace (c.path name) (empty k p))
        ∷ []),
  )

  pub no_gcp_iff : (p : Option Gcp) → (no_gcp c p ≡ none) ↔ (p ≡ none)
  unfolding no_gcp at_field
  no_gcp_iff p = nil_iff c.gcp_pointers (codes "gcp") p (laws.gcp_nil p) laws.gcp_zero

  pub no_azure_iff : (p : Option Azure) → (no_azure c p ≡ none) ↔ (p ≡ none)
  unfolding no_azure at_field
  no_azure_iff p = nil_iff c.azure_pointers (codes "azure") p (laws.azure_nil p) laws.azure_zero

  azure_values_iff : (p : Option Azure) → (azure_values c p ≡ none) ↔ IfSome HasAzureValues p
  unfolding azure_values if_not_nil
  azure_values_iff none = ground arith
  azure_values_iff (some a) = ground (
    arith,
    and_all_iff evaluate_all (
        filled c (codes "resourceGroup") a.resource_group
        ∷ filled c (codes "subscriptionID") a.subscription_id
        ∷ filled c (codes "networkSecurityGroupName") a.network_security_group_name
        ∷ filled c (codes "loadBalancerName") a.load_balancer_name
        ∷ filled c (codes "userAssignedIdentity") a.user_assigned_identity
        ∷ []),
    filled_iff (codes "resourceGroup") a.resource_group,
    filled_iff (codes "subscriptionID") a.subscription_id,
    filled_iff (codes "networkSecurityGroupName") a.network_security_group_name,
    filled_iff (codes "loadBalancerName") a.load_balancer_name,
    filled_iff (codes "userAssignedIdentity") a.user_assigned_identity,
  )

  azure_url_iff :
      (p : Option Azure) → (azure_url c p ≡ none) ↔ IfSome (λ a. a.attestation_url ≢ []) p
  unfolding azure_url if_not_nil
  azure_url_iff none = ground arith
  azure_url_iff (some a) = filled_iff (codes "attestationURL") a.attestation_url

  gcp_values_iff :
      (p : Option Gcp)
      → (gcp_values c p ≡ none)
        ↔ IfSome (λ g. (g.project_id ≢ []) × (c.is_cidr g.ip_cidr_pod ≡ true)) p
  unfolding gcp_values if_not_nil
  gcp_values_iff none = ground arith
  gcp_values_iff (some g) = ground (
    arith,
    and_all_iff evaluate_all (
        filled c (codes "projectID") g.project_id
        ∷ is_range c (codes "ipCidrPod") g.ip_cidr_pod
        ∷ []),
    filled_iff (codes "projectID") g.project_id,
    is_range_iff (codes "ipCidrPod") g.ip_cidr_pod,
  )

  AzureRule-iff : (i : Infrastructure) → AreSatisfied (azure_constraints c i) ↔ AzureRule i
  unfolding azure_constraints
  AzureRule-iff i = ground (arith, no_gcp_iff i.gcp, azure_values_iff i.azure)

  GcpRule-iff : (i : Infrastructure) → AreSatisfied (gcp_constraints c i) ↔ GcpRule c i
  unfolding gcp_constraints
  GcpRule-iff i = ground (arith, no_azure_iff i.azure, gcp_values_iff i.gcp)

  pub ProviderRule-iff :
      (v : Variant) (i : Infrastructure) (default : List Constraint) (other : Type 0)
      → AreSatisfied default ↔ other
      → AreSatisfied (provider_constraints c v i default) ↔ ProviderRule c v i other
  unfolding provider_constraints azure_constraints
  ProviderRule-iff azure_sev_snp i default other d =
      ground
        (arith, AzureRule-iff i, no_gcp_iff i.gcp, azure_values_iff i.azure, azure_url_iff i.azure)
  ProviderRule-iff azure_tdx i default other d = AzureRule-iff i
  ProviderRule-iff azure_trusted_launch i default other d = AzureRule-iff i
  ProviderRule-iff gcp_sev_es i default other d = GcpRule-iff i
  ProviderRule-iff gcp_sev_snp i default other d = GcpRule-iff i
  ProviderRule-iff dummy i default other d = d
  ProviderRule-iff aws_nitro_tpm i default other d = d
  ProviderRule-iff aws_sev_snp i default other d = d
  ProviderRule-iff qemu_vtpm i default other d = d
  ProviderRule-iff qemu_tdx i default other d = d

  pub override_with_iff : (cs : List Constraint) → (override_with cs ≡ none) ↔ AreSatisfied cs
  unfolding override_with
  override_with_iff cs = ground (
    arith,
    (validate_lem [] (record { err_strategy = evaluate_all; override_constraints = some cs })).0,
  )
