-- ===== src/Kms.antt =====
-- constellation/kms/kms/internal/internal.go, constellation/kms/storage/memfs/memfs.go and
-- constellation/kms/kms/cluster/cluster.go: data encryption keys, kept encrypted in a storage or
-- derived from a master key. The random bytes, the wrapping with its encoding as JSON, and the key
-- derivation are parameters.
pub mod Keys
pub mod Memory
use geth_sev.Prelude.{
  ℕ, ◌==◌, Bytes, bytes_eq, length, Option, none, some, List, [], ◌∷◌, Bool, true, false, Result,
  ok, err, map_err, ◌>>=◌, ◌>>◌, if◌then◌else◌,
}

pub data StorageError : Type 0 where
  dek_unset : StorageError
  storage_failure : Bytes → StorageError

-- The interface `Storage`, over the states of a storage. A failed `Put` may have changed it.
pub record Storage (S : Type 0) : Type 0 where
  pub get : Bytes → S → Result StorageError Bytes
  pub put : Bytes → Bytes → S → Result Bytes (Unit {0}) × S

-- The wrapper's `Decrypt` after decoding, and encoding after `Encrypt`, which may use randomness: the
-- first argument.
pub record Wrapper : Type 0 where
  pub unwrap : Bytes → Result Bytes Bytes
  pub wrap : ℕ → Bytes → Result Bytes Bytes

pub data KmsError : Type 0 where
  loading generating unwrapping wrapping putting : Bytes → KmsError

-- What `GetDEK` returns, a key and an error, and the storage afterwards.
pub record Answer (S : Type 0) : Type 0 where
  pub dek : Option Bytes
  pub failure : Option KmsError
  pub after : S

module _ {S : Type 0} (storage : Storage S) (wrapper : Wrapper) where
  put_result : Result Bytes (Unit {0}) × S → Option KmsError × S
  put_result (ok u, s) = (none, s)
  put_result (err e, s) = (some (putting e), s)

  -- `putDEK` with what is wrapped
  put_dek : Bytes → S → Result Bytes Bytes → Option KmsError × S
  unfolding put_result
  put_dek key_id s (err e) = (some (wrapping e), s)
  put_dek key_id s (ok encrypted) = put_result (storage.put key_id encrypted s)

  -- A new key; it is returned together with the error of saving it.
  new_dek : Bytes → ℕ → S → Result Bytes Bytes → Answer S
  unfolding put_dek
  new_dek key_id nonce s (err e) = record { dek = none; failure = some (generating e); after = s }
  new_dek key_id nonce s (ok random) =
      let saved : Option KmsError × S = put_dek key_id s (wrapper.wrap nonce random) in
      record { dek = some random; failure = saved.0; after = saved.1 }

  unwrapped : S → Result Bytes Bytes → Answer S
  unwrapped s (ok dek) = record { dek = some dek; failure = none; after = s }
  unwrapped s (err e) = record { dek = none; failure = some (unwrapping e); after = s }

  -- `GetDEK` with what the storage has
  from_storage : Bytes → ℕ → Result Bytes Bytes → S → Result StorageError Bytes → Answer S
  unfolding new_dek unwrapped
  from_storage key_id nonce random s (ok encrypted) = unwrapped s (wrapper.unwrap encrypted)
  from_storage key_id nonce random s (err dek_unset) = new_dek key_id nonce s random
  from_storage key_id nonce random s (err (storage_failure e)) = record {
    dek = none;
    failure = some (loading e);
    after = s;
  }

  -- `GetDEK`, at what the generator of random bytes gives for the size
  unfoldable pub get_dek : Bytes → ℕ → Result Bytes Bytes → S → Answer S
  unfolding from_storage
  get_dek key_id nonce random s = from_storage key_id nonce random s (storage.get key_id s)

-- memfs: a map from texts.
abbrev pub DekPool : Type 0
DekPool = List (Bytes × Bytes)

pool_get : Bytes → DekPool → Result StorageError Bytes
unfolding bytes_eq
pool_get key_id [] = err dek_unset
pool_get key_id ((k, dek) ∷ pool) = if bytes_eq k key_id then ok dek else pool_get key_id pool

pool_put : Bytes → Bytes → DekPool → DekPool
unfolding bytes_eq
pool_put key_id dek [] = (key_id, dek) ∷ []
pool_put key_id dek ((k, d) ∷ pool) =
    let rest : DekPool = pool_put key_id dek pool in
    if bytes_eq k key_id then (k, dek) ∷ pool else (k, d) ∷ rest

-- `memfs.Storage`
unfoldable pub memfs : Storage DekPool
unfolding pool_get pool_put
memfs = record { get = pool_get; put = λ key_id dek pool. (ok tt, pool_put key_id dek pool) }

pub data ClusterError : Type 0 where
  missing_master_key missing_salt : ClusterError
  key_derivation : Bytes → ClusterError

-- `KMS` of the cluster
pub record ClusterKms : Type 0 where
  pub master_key : Bytes
  pub salt : Bytes

-- `New` of the cluster's KMS
unfoldable pub new_cluster_kms : Bytes → Bytes → Result ClusterError ClusterKms
new_cluster_kms key salt =
    if length key == 0
    then err missing_master_key
    else if length salt == 0
    then err missing_salt
    else ok (record { master_key = key; salt = salt })

-- `GetDEK` of the cluster's KMS, with the key derivation
unfoldable pub cluster_get_dek :
    (Bytes → Bytes → Bytes → ℕ → Result Bytes Bytes)
    → ClusterKms
    → Bytes
    → ℕ
    → Result ClusterError Bytes
cluster_get_dek derive c dek_id dek_size =
    if length c.master_key == 0
    then err missing_master_key
    else map_err key_derivation (derive c.master_key c.salt dek_id dek_size)
