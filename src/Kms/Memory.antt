-- ===== src/Kms/Memory.antt =====
-- constellation/kms/storage/memfs/memfs.go meets the interface of a storage.
use geth_sev.Prelude.{
  ◌≡◌, ◌≢◌, refl, Bytes, bytes_eq, bytes_eq_iff, bytes_eq_refl, [], ◌∷◌, ok, arith, Bool-cases, inl,
  inr,
}
use geth_sev.Kms.{memfs, pool_get, pool_put, DekPool}
use geth_sev.Kms.Keys.{IsStorage}

pool_get-put :
    (key_id dek : Bytes) (pool : DekPool) → pool_get key_id (pool_put key_id dek pool) ≡ ok dek
unfolding pool_get pool_put
pool_get-put key_id dek [] = rw (bytes_eq_refl key_id) refl
pool_get-put key_id dek ((k, d) ∷ pool) = elim (Bool-cases (bytes_eq k key_id)) [
  | inl y ↦ rw (y, y) refl
  | inr n ↦ rw (n, n) (pool_get-put key_id dek pool)
]

pool_get-other :
    (key_id other dek : Bytes) (pool : DekPool)
    → key_id ≢ other
    → pool_get other (pool_put key_id dek pool) ≡ pool_get other pool
unfolding pool_get pool_put
pool_get-other key_id other dek [] n = ground (arith, n, bytes_eq_iff key_id other)
pool_get-other key_id other dek ((k, d) ∷ pool) n =
    ground (
      arith,
      n,
      bytes_eq_iff k key_id,
      bytes_eq_iff k other,
      pool_get-other key_id other dek pool n,
    )

pub memfs-IsStorage : IsStorage memfs
unfolding memfs
memfs-IsStorage = record {
  get_put = λ key_id dek pool h. pool_get-put key_id dek pool;
  get_other = λ key_id other dek pool n. pool_get-other key_id other dek pool n;
}
