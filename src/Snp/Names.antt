-- ===== src/Snp/Names.antt =====
-- `ParseCertChain`: which certificates can stand where.
use geth_sev.Prelude.{
  ◌≡◌, ◌⊎◌, ℕ, zero, suc, Bytes, codes, bytes_eq, bytes_eq_iff, Bool, Bool-cases, Option-cases,
  Result-cases, true, false, Option, none, some, inl, inr, length, ◌==◌,
}
use geth_sev.Snp.{
  Cert, Block, SnpLib, SnpError, InstanceInfo, ParsedChain, place, failed, read_block, finished,
  chain_loop, parse_cert_chain, block_type, parsing, no_pem_blocks, remaining_block, is_none,
  too_many,
}

-- The ASK is one of the two signing keys of the Milan line, and the ARK is its root key.
abbrev IsNamed : Option Cert → Option Cert → Type 0
IsNamed ask ark =
    ((c : Cert)
      → ask ≡ some c
      → (c.common_name ≡ codes "SEV-Milan") ⊎ (c.common_name ≡ codes "SEV-VLEK-Milan"))
    × ((c : Cert) → ark ≡ some c → c.common_name ≡ codes "ARK-Milan")

module _ {Report : Type 0} (lib : SnpLib Report) where
  Named : ParsedChain → Type 0
  Named chain = IsNamed chain.ask chain.ark

  Named-failed : (e : SnpError) (chain : ParsedChain) → Named chain → Named (failed lib e chain)
  unfolding failed Named
  Named-failed e chain h = h

  Named-place : (cert : Cert) (chain : ParsedChain) → Named chain → Named (place lib cert chain)
  unfolding place Named
  Named-place cert chain h = elim (Bool-cases (bytes_eq cert.common_name (codes "SEV-Milan"))) [
    | inl y ↦ rw (y, place) ((λ c e. inl (named_by c e ((bytes_eq_iff _ _).0 y))), h.1)
    | inr y ↦ elim (Bool-cases (bytes_eq cert.common_name (codes "SEV-VLEK-Milan"))) [
      | inl z ↦ rw (y, z, place) ((λ c e. inr (named_by c e ((bytes_eq_iff _ _).0 z))), h.1)
      | inr z ↦ elim (Bool-cases (bytes_eq cert.common_name (codes "ARK-Milan"))) [
        | inl w ↦ rw (y, z, w, place) (h.0, (λ c e. named_by c e ((bytes_eq_iff _ _).0 w)))
        | inr w ↦ rw (y, z, w, place) h
      ]
    ]
  ]
    where
      named_by :
          {n : Bytes} (c : Cert) → some cert ≡ some c → cert.common_name ≡ n → c.common_name ≡ n
      named_by c e h = cc

  Named-read :
      (block : Block) (chain : ParsedChain) → Named chain → Named (read_block lib block chain)
  unfolding read_block
  Named-read block chain h = elim (Bool-cases (bytes_eq block.kind (codes "CERTIFICATE"))) [
    | inr n ↦ rw (n, read_block) (Named-failed (block_type block.kind) chain h)
    | inl y ↦ elim (Result-cases (lib.parse_certificate block.content)) [
      | inl (c, e) ↦ rw (y, e, read_block) (Named-place c chain h)
      | inr (x, e) ↦ rw (y, e, read_block) (Named-failed (parsing x) chain h)
    ]
  ]

  Named-finished :
      (first : Bool) (rest : Bytes) (chain : ParsedChain)
      → Named chain
      → Named (finished lib first rest chain)
  unfolding finished
  Named-finished true rest chain h = Named-failed no_pem_blocks chain h
  Named-finished false rest chain h = elim (Bool-cases (length rest == 0)) [
    | inl y ↦ rw (y, finished) h
    | inr n ↦ rw (n, finished) (Named-failed remaining_block chain h)
  ]

  Named-loop :
      (n : ℕ) (first : Bool) (rest : Bytes) (chain : ParsedChain)
      → Named chain
      → Named (chain_loop lib n first rest chain)
  unfolding chain_loop
  Named-loop zero first rest chain h = elim (Option-cases (lib.pem_decode rest)) [
    | inl e ↦ rw (e, chain_loop) (Named-finished first rest chain h)
    | inr (d, e) ↦ rw (e, chain_loop) (Named-failed too_many chain h)
  ]
  Named-loop (suc n) first rest chain h = elim (Option-cases (lib.pem_decode rest)) [
    | inl e ↦ rw (e, chain_loop) (Named-finished first rest chain h)
    | inr (d, e) ↦
        let read = Named-read d.0 chain h in
        let next = Named-loop n false d.1 (read_block lib d.0 chain) read in
        elim (Bool-cases (is_none ((read_block lib d.0 chain).ret_err))) [
          | inl y ↦ rw (e, y, chain_loop) next
          | inr y ↦ rw (e, y, chain_loop) read
        ]
  ]

-- Whatever the issuer's chain holds, and with or without an error, the ASK that is returned names
-- itself SEV-Milan or SEV-VLEK-Milan and the ARK that is returned names itself ARK-Milan.
pub parse_cert_chain_lem :
    {Report : Type 0} (lib : SnpLib Report) (info : InstanceInfo) (c : Cert)
    → (((parse_cert_chain lib info).ask ≡ some c)
        → (c.common_name ≡ codes "SEV-Milan") ⊎ (c.common_name ≡ codes "SEV-VLEK-Milan"))
      × (((parse_cert_chain lib info).ark ≡ some c) → c.common_name ≡ codes "ARK-Milan")
unfolding parse_cert_chain Named
parse_cert_chain_lem lib info c =
    let named =
      Named-loop lib 2 true (lib.trim_space info.cert_chain)
        (record { ask = none; ark = none; ret_err = none }) ((λ c h. cc), (λ c h. cc)) in
    (named.0 c, named.1 c)
