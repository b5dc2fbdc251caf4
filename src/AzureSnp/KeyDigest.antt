-- ===== src/AzureSnp/KeyDigest.antt =====
-- `checkIDKeyDigest`: when a report's ID key digest passes.
use geth_sev.Prelude.{
  ◌≡◌, ◌↔◌, ◌⊎◌, refl, sym, ◌∙◌, Bytes, bytes_eq_iff, Bool-cases, true, false, List, [], ◌∷◌, In,
  Result, ok, map_err-ok, arith, inl, inr,
}
use geth_sev.IdKeyDigest.{Enforcement, equal, maa_fallback, warn_only, unknown}
use geth_sev.Snp.{Attestation}
use geth_sev.AzureSnp.{
  FirmwareSignerConfig, AzureLib, maa, accepted, by_policy, check_id_key_digest,
}

accepted_iff : (d : Bytes) (ds : List Bytes) → (accepted d ds ≡ true) ↔ In d ds
unfolding accepted
accepted_iff d [] = (λ h. cc, λ h. absurd h)
accepted_iff d (e ∷ ds) = ground (arith, bytes_eq_iff e d, accepted_iff d ds)

by_policy_iff :
    (p : Enforcement) (token : Result Bytes (Unit {0}))
    → (by_policy p token ≡ ok tt) ↔ (((p ≡ maa_fallback) × (token ≡ ok tt)) ⊎ (p ≡ warn_only))
unfolding by_policy
by_policy_iff maa_fallback token =
    (λ h. inl (refl, map_err-ok maa token tt h), λ h. ground (arith, h))
by_policy_iff warn_only token = (λ h. inr refl, λ h. refl)
by_policy_iff equal token = (λ h. cc, λ h. ground (arith, h))
by_policy_iff unknown token = (λ h. cc, λ h. ground (arith, h))

-- The report's ID key digest passes exactly if it is one of the accepted digests, or the policy is
-- to fall back to the MAA and its token is valid for the extra data, or the policy is to warn only.
pub check_id_key_digest_iff :
    {Report Pub Key : Type 0} (lib : AzureLib Report Pub Key) (c : FirmwareSignerConfig)
    (att : Attestation Report) (token extra : Bytes)
    → (check_id_key_digest lib c att token extra ≡ ok tt) ↔ (
        In (lib.id_key_digest att.report) c.accepted_key_digests
        ⊎ (((c.enforcement_policy ≡ maa_fallback)
              × (lib.validate_token c.maa_url token extra ≡ ok tt))
            ⊎ (c.enforcement_policy ≡ warn_only)))
unfolding check_id_key_digest
check_id_key_digest_iff lib c att token extra =
    let d = lib.id_key_digest att.report in
    let a = accepted_iff d c.accepted_key_digests in
    let p = by_policy_iff c.enforcement_policy (lib.validate_token c.maa_url token extra) in
    elim (Bool-cases (accepted d c.accepted_key_digests)) [
      | inl y ↦ rw (y, check_id_key_digest) ((λ h. inl (a.0 y)), (λ h. refl))
      | inr n ↦
          rw (n, check_id_key_digest)
            (
              (λ h. inr (p.0 h)),
              (λ h. elim h [ inl m ↦ absurd (not_true (sym n ∙ a.1 m)) | inr q ↦ p.1 q ]),
            )
    ]
  where
    not_true : ¬ (false ≡ true)
    not_true h = cc
