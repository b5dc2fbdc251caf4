-- ===== src/Overrides/Mandatory.antt =====
-- constellation/attestation/measurements/overrides.go: the indices that are always enforced.
use geth_sev.Prelude.{
  ℕ, ◌≡◌, refl, sym, ap, ◌∙◌, Bytes, Option, none, some, List, [], ◌∷◌, ◌++◌, ok, In, All, All_at,
  arith, lookup,
}
use geth_sev.CloudProvider.{Provider, unknown, aws, azure, gcp, openstack, qemu}
use geth_sev.Measurements.{M, Measurement, enforce}
use geth_sev.Overrides.{
  Override, for_csp, for_variant, apply_overrides, aws_override, azure_override, gcp_override,
  openstack_override,
}
use geth_sev.Overrides.Applied.{
  overridden, overridden_all, chosen_option, with_option, with_value, last_value,
  lookup-apply_overrides,
}

-- The boot loader, the kernel and its command line, the initramfs, and the state of the cluster.
abbrev pub mandatory : List ℕ
mandatory = 4 ∷ 8 ∷ 9 ∷ 11 ∷ 12 ∷ 13 ∷ 15 ∷ []

-- The providers that have overrides.
abbrev pub HasOverride : Provider → Type 0
HasOverride aws = Unit
HasOverride azure = Unit
HasOverride gcp = Unit
HasOverride openstack = Unit
HasOverride qemu = ⊥
HasOverride unknown = ⊥

overridden_all-append :
    (k : ℕ) (os : List Override) (o : Override) (old : Option Measurement)
    → overridden_all k (os ++ o ∷ []) old ≡ overridden k o (overridden_all k os old)
overridden_all-append k [] o old = refl
overridden_all-append k (p ∷ os) o old = overridden_all-append k os o (overridden k p old)

with_option-enforce :
    (old : Option Measurement) (x : Measurement)
    → with_option (some enforce) old ≡ some x
    → x.validation_opt ≡ enforce
with_option-enforce none x h = cc
with_option-enforce (some m) x h = ground (arith, h)

last-enforced :
    (m out : M) (csp : Provider) (variant : Bytes) (o : Override) (k : ℕ) (x : Measurement)
    → for_csp csp ≡ o ∷ []
    → All (λ i. chosen_option o i ≡ some enforce) mandatory
    → In k mandatory
    → apply_overrides m csp variant ≡ ok out
    → lookup k out ≡ some x
    → x.validation_opt ≡ enforce
last-enforced m out csp variant o k x table all named h l =
    with_option-enforce
      (with_value (last_value k o.value_overrides none)
        (overridden_all k (for_variant variant) (lookup k m)))
      x
      (ap
          (λ c. with_option c (
            with_value (last_value k o.value_overrides none)
              (overridden_all k (for_variant variant) (lookup k m))))
          (sym (All_at (λ i. chosen_option o i ≡ some enforce) k mandatory all named))
        ∙ sym (overridden_all-append k (for_variant variant) o (lookup k m))
        ∙ ap (λ os. overridden_all k (for_variant variant ++ os) (lookup k m)) (sym table)
        ∙ sym (lookup-apply_overrides m out csp variant k h)
        ∙ l)

-- After `ApplyOverrides` for AWS, Azure, GCP or OpenStack, under any variant: whatever measurement
-- stands at one of the indices 4, 8, 9, 11, 12, 13 and 15 is enforced.
pub mandatory-enforced :
    (m out : M) (csp : Provider) (variant : Bytes) (k : ℕ) (x : Measurement)
    → HasOverride csp
    → In k mandatory
    → apply_overrides m csp variant ≡ ok out
    → lookup k out ≡ some x
    → x.validation_opt ≡ enforce
unfolding for_csp
mandatory-enforced m out aws variant k x t =
    last-enforced m out aws variant aws_override k x refl
      (refl, (refl, (refl, (refl, (refl, (refl, (refl, tt)))))))
mandatory-enforced m out azure variant k x t =
    last-enforced m out azure variant azure_override k x refl
      (refl, (refl, (refl, (refl, (refl, (refl, (refl, tt)))))))
mandatory-enforced m out gcp variant k x t =
    last-enforced m out gcp variant gcp_override k x refl
      (refl, (refl, (refl, (refl, (refl, (refl, (refl, tt)))))))
mandatory-enforced m out openstack variant k x t =
    last-enforced m out openstack variant openstack_override k x refl
      (refl, (refl, (refl, (refl, (refl, (refl, (refl, tt)))))))
mandatory-enforced m out qemu variant k x t = absurd t
mandatory-enforced m out unknown variant k x t = absurd t
