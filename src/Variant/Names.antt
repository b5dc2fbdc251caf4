-- ===== src/Variant/Names.antt =====
-- Names and object identifiers tell the variants apart.
use geth_sev.Prelude.{◌≡◌, ◌↔◌, refl, Bytes, codes, bytes_eq_iff, true, some, arith}
use geth_sev.Variant.{
  Variant, dummy, aws_nitro_tpm, aws_sev_snp, gcp_sev_es, gcp_sev_snp, azure_tdx, azure_sev_snp,
  azure_trusted_launch, qemu_vtpm, qemu_tdx, string, from_string, equal, variant_eq,
}

string-back : (v : Variant) → from_string (string v) ≡ some v
unfolding from_string string
string-back dummy = refl
string-back aws_nitro_tpm = refl
string-back aws_sev_snp = refl
string-back gcp_sev_es = refl
string-back gcp_sev_snp = refl
string-back azure_tdx = refl
string-back azure_sev_snp = refl
string-back azure_trusted_launch = refl
string-back qemu_vtpm = refl
string-back qemu_tdx = refl

string-from_string : (o : Bytes) (v : Variant) → from_string o ≡ some v → o ≡ string v
unfolding from_string string
string-from_string o v h = ground (
  arith,
  bytes_eq_iff o (codes "dummy"),
  bytes_eq_iff o (codes "aws-sev-snp"),
  bytes_eq_iff o (codes "aws-nitro-tpm"),
  bytes_eq_iff o (codes "gcp-sev-es"),
  bytes_eq_iff o (codes "gcp-sev-snp"),
  bytes_eq_iff o (codes "azure-sev-snp"),
  bytes_eq_iff o (codes "azure-trustedlaunch"),
  bytes_eq_iff o (codes "azure-tdx"),
  bytes_eq_iff o (codes "qemu-vtpm"),
  bytes_eq_iff o (codes "qemu-tdx"),
)

-- A text is read as a variant exactly if it is that variant's own name.
pub from_string_iff : (o : Bytes) (v : Variant) → (from_string o ≡ some v) ↔ (o ≡ string v)
from_string_iff o v = (string-from_string o v, λ e. rw e (string-back v))

-- The variant with a given branch and index.
equal_sound : (v w : Variant) → equal v w ≡ true → v ≡ w
unfolding equal
equal_sound v w h = ground arith

equal_refl : (v : Variant) → equal v v ≡ true
unfolding equal
equal_refl v = ground arith

-- Two variants are `Equal`, that is have the same object identifier, exactly if they are the same.
pub equal_iff : (v w : Variant) → (equal v w ≡ true) ↔ (v ≡ w)
equal_iff v w = (equal_sound v w, λ e. rw e (equal_refl w))

pub variant_eq_iff : (v w : Variant) → (variant_eq v w ≡ true) ↔ (v ≡ w)
unfolding variant_eq
variant_eq_iff v w = ground arith
