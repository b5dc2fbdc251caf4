-- ===== src/State/Stages.antt =====
-- constellation/constellation/state/state.go: a state on its way from creation to an initialized
-- cluster.
use geth_sev.Prelude.{◌≡◌, ◌≢◌, refl, none, some, [], Result, ok, err, Bytes}
use geth_sev.Variant.{
  Variant, dummy, aws_nitro_tpm, aws_sev_snp, gcp_sev_es, gcp_sev_snp, azure_tdx, azure_sev_snp,
  azure_trusted_launch, qemu_vtpm, qemu_tdx,
}
use geth_sev.State.{
  State, Infrastructure, ClusterValues, new, set_cluster_values, Created, create_or_read,
  read_from_file, ReadError, not_exist, unreadable,
}
use geth_sev.State.Constraints.{Checks, validate_state, pre_create, pre_init, post_init}
use geth_sev.State.Fields.{AreChecks, ProviderRule}
use geth_sev.State.Verdicts.{IsPreCreate, IsPreInit, IsPostInit, validate_state_iff}

-- The variants that are neither of Azure nor of GCP.
abbrev pub IsElsewhere : Variant → Type 0
IsElsewhere azure_sev_snp = ⊥
IsElsewhere azure_tdx = ⊥
IsElsewhere azure_trusted_launch = ⊥
IsElsewhere gcp_sev_es = ⊥
IsElsewhere gcp_sev_snp = ⊥
IsElsewhere _ = Unit

-- These ask nothing before initialization, so a state may still have values for a provider then.
provider_rule_later :
    (c : Checks) (v : Variant) (i : Infrastructure)
    → ProviderRule c v i Unit
    → (IsElsewhere v → (i.gcp ≡ none) × (i.azure ≡ none))
    → ProviderRule c v i ((i.gcp ≡ none) × (i.azure ≡ none))
provider_rule_later c azure_sev_snp i h n = h
provider_rule_later c azure_tdx i h n = h
provider_rule_later c azure_trusted_launch i h n = h
provider_rule_later c gcp_sev_es i h n = h
provider_rule_later c gcp_sev_snp i h n = h
provider_rule_later c dummy i h n = n tt
provider_rule_later c aws_nitro_tpm i h n = n tt
provider_rule_later c aws_sev_snp i h n = n tt
provider_rule_later c qemu_vtpm i h n = n tt
provider_rule_later c qemu_tdx i h n = n tt

module _ (c : Checks) (laws : AreChecks c) (v : Variant) where
  new-IsPreCreate : IsPreCreate new
  unfolding new
  new-IsPreCreate = (refl, refl, refl, refl, refl, refl, refl, refl, refl, refl)

  initialized-IsPostInit :
      (s : State) (values : ClusterValues)
      → IsPreInit c v s
      → values.cluster_id ≢ []
      → values.measurement_salt ≢ []
      → (IsElsewhere v → (s.infrastructure.gcp ≡ none) × (s.infrastructure.azure ≡ none))
      → IsPostInit c v (set_cluster_values values s)
  unfolding set_cluster_values
  initialized-IsPostInit s values h id salt n =
      (h.0, id, salt, provider_rule_later c v s.infrastructure h.3 n)

  -- Under the laws of the comparisons: a new state is accepted before creation. No state is accepted
  -- both before creation and at a later stage, nor both before and after initialization. A state that
  -- is accepted before initialization is accepted afterwards once it has been given filled cluster
  -- values, provided that, for a variant neither of Azure nor of GCP, it has no values for these two.
  pub stages_lem :
      (s : State) (values : ClusterValues)
      → (validate_state c pre_create v new ≡ none)
        × (validate_state c pre_create v s ≡ none
            → (validate_state c pre_init v s ≢ none) × (validate_state c post_init v s ≢ none))
        × (validate_state c pre_init v s ≡ none → validate_state c post_init v s ≢ none)
        × (validate_state c pre_init v s ≡ none
            → values.cluster_id ≢ []
            → values.measurement_salt ≢ []
            → (IsElsewhere v → (s.infrastructure.gcp ≡ none) × (s.infrastructure.azure ≡ none))
            → validate_state c post_init v (set_cluster_values values s) ≡ none)
  stages_lem s values =
      let at_s = validate_state_iff c laws v s in
      (
        (validate_state_iff c laws v new).0.1 new-IsPreCreate,
        λ h. (λ i. (at_s.1.0 i).0.4 (at_s.0.0 h).1, λ p. (at_s.2.0 p).0.4 (at_s.0.0 h).1),
        λ i p. (at_s.2.0 p).1 (at_s.1.0 i).1,
        λ i id salt n.
            (validate_state_iff c laws v (set_cluster_values values s)).2.1
              (initialized-IsPostInit s values (at_s.1.0 i) id salt n),
      )

-- What the file has after `CreateOrRead`: what was written, which reads as it was, or what it had.
abbrev pub file_after : Result ReadError State → Created → Result ReadError State
file_after found done = elim done.written [ none ↦ found | some s ↦ ok s ]

-- After `CreateOrRead` without an error, a second call returns the same state, without an error, and
-- writes nothing, whatever writing would have returned.
pub create_or_read_again :
    (found : Result ReadError State) (write again : Result Bytes (Unit {0}))
    → (create_or_read found write).failure ≡ none
    → create_or_read (file_after found (create_or_read found write)) again
      ≡ record { state = (create_or_read found write).state; failure = none; written = none }
unfolding create_or_read read_from_file
create_or_read_again (ok s) write again h = refl
create_or_read_again (err not_exist) write again h = refl
create_or_read_again (err (unreadable e)) write again h = cc
