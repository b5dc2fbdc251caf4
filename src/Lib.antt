-- ===== src/Lib.antt =====
-- The core of Constellation: what a node issues, what a peer checks before it trusts a node, the names
-- under which images and their measurements are published and fetched, and the state, the disks and
-- the keys of a cluster.
--
-- Parts and files. Every path is below constellation/.
-- * Attested TLS, atls/atls.go: Atls. A connection's two sides are the records ClientConnection and
--   ServerConnection; clientConnection.verify is client_verify, getCertificate is get_certificate,
--   and so on. It reaches the validators of the next part through the records Issuer and Validator.
-- * TPM attestation, attestation/vtpm/attestation.go: Vtpm. Issuer.Issue is issue, and
--   Validator.Validate is validate; they use the extra data of attestation/attestation.go, in
--   Attestation, and the measurements below.
-- * Measurements, attestation/measurements/measurements.go and measurements_oss.go: Measurements.
--   The map M is an association list by index; a method with a pointer receiver returns the new map.
--   JSON is read in Measurements/Encoding, and YAML, whose null entries the reader keeps from the
--   methods, in Measurements/Yaml.
--   What a provider or a variant overrides, attestation/measurements/overrides.go: Overrides.
-- * SEV-SNP certificates, attestation/snp/snp.go: Snp. Azure's validator,
--   attestation/azure/snp/validator.go: AzureSnp. ID key digests, attestation/idkeydigest:
--   IdKeyDigest.
-- * Image measurements, attestation/measurements/measurements.go and fetchmeasurements.go, with
--   sigstore/keyselect and VerifyWithRekor of sigstore/rekor.go: ImageMeasurements. It uses the
--   versions and the measurements, and takes the network as the record FetchLib.
-- * Disks, cryptsetup/cryptsetup.go: CryptSetup. An operation gives its result, the object afterwards
--   and the calls that it made of libcryptsetup, whose answers it takes.
-- * Keys, kms/uri/uri.go in Uri, and kms/kms/internal, kms/storage/memfs and kms/kms/cluster in Kms,
--   where the record Storage is the interface and memfs one that meets its laws.
-- * Documents, validation in Validation, and constellation/state/state.go in State, whose three sets of
--   constraints use it. A constraint is what its method Satisfied returns.
-- * Upgrades, compatibility/compatibility.go in Compatibility and semver/semver.go in Semver.
-- * Trying again, retry/retry.go: Retry.
-- * Variants and providers, attestation/variant/variant.go and cloud/cloudprovider: Variant and
--   CloudProvider.
-- * Published versions, api/versionsapi/version.go: VersionsApi, over path.Join in FilePath and
--   golang.org/x/mod/semver in Semantic; their lists, api/versionsapi/list.go: VersionLists.
-- Prelude has the shared types and lemmas, Hex is encoding/hex, and Tests has concrete inputs.
--
-- A Go string or byte slice is the list of its bytes; a result with an error is ok or err; nil is
-- none. The order in which Go walks a map is that of the association list. Code that is not in the
-- repository (X.509, PEM, TLS, TPM, protobuf, JSON, the KDS, the MAA) is a parameter: a record of
-- functions, with what the code relies on of it as a record of laws where a theorem needs it. Every
-- loop is over a list, or over the number of the PEM blocks that may still come, which is at most two
-- before the chain is refused; only the loop of Retry has no bound in the source and takes fuel, one
-- unit for an attempt, and its results say how much is enough.
--
-- Not modelled: logging, locks and deadlines, the reflection that finds the path of a field, the
-- attestation of the other providers, and whatever reads devices, files or networks.
pub mod Prelude
pub mod CloudProvider
pub mod Variant
pub mod Measurements
pub mod Hex
pub mod FilePath
pub mod Semantic
pub mod VersionsApi
pub mod VersionLists
pub mod Atls
pub mod Attestation
pub mod Vtpm
pub mod Snp
pub mod AzureSnp
pub mod IdKeyDigest
pub mod CryptSetup
pub mod Retry
pub mod Uri
pub mod Validation
pub mod State
pub mod Compatibility
pub mod Semver
pub mod ImageMeasurements
pub mod Kms
pub mod Overrides
mod Tests
