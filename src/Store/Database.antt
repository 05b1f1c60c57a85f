-- ===== src/Store/Database.antt =====
-- The key-value store below the chain store, the changes that a batch collects, and the errors of
-- blockchain/chainstore.go.
use elastos_ela_side_chain_t.Base.{
  ℕ, ◌^◌, ◌<◌, ◌≡◌, Bytes, Bool, List, [], ◌∷◌, ◌++◌, Option, none, some, All, bytes_eq,
  if◌then◌else◌, refl,
}
use elastos_ela_side_chain_t.Types.{Uint256, Transaction}

pub data StoreError : Type 0 where
  not_found bad_value reference_not_found index_out_of_range : StoreError
  no_unspent unspent_not_found read_error library_error ela_registered : StoreError

-- What the store holds before the batch is written: `Get`, `NewIterator`, `GetTransaction`.
pub record Database : Type 0 where
  pub get : Bytes → Option Bytes
  pub iterator : Bytes → List (Bytes × Bytes)
  pub get_transaction : Uint256 → Option (Transaction × ℕ)

-- `batch.Put` and `batch.Delete`
pub data Op : Type 0 where
  put : Bytes → Bytes → Op
  delete : Bytes → Op

abbrev pub Batch : Type 0
Batch = List Op

-- What the batch leaves under a key, the operations taken in order.
unfoldable pub commit : Batch → (Bytes → Option Bytes) → Bytes → Option Bytes
commit [] get k = get k
commit (put j v ∷ ops) get k = commit ops (λ i. if bytes_eq j i then some v else get i) k
commit (delete j ∷ ops) get k = commit ops (λ i. if bytes_eq j i then none else get i) k

pub commit-append :
    (a b : Batch) (get : Bytes → Option Bytes) (k : Bytes)
    → commit (a ++ b) get k ≡ commit b (commit a get) k
unfolding commit
commit-append [] b get k = refl
commit-append (put j v ∷ a) b get k = commit-append a b _ k
commit-append (delete j ∷ a) b get k = commit-append a b _ k

-- The constants and array encodings of the library: `IX_Unspent`, `ST_Info`, `GetUint16Array`,
-- `ToByteArray`.
pub record Layout : Type 0 where
  pub ix_unspent : ℕ
  -- whether `make([]*utxo, n)` gives a slice; it panics where `n` is too large
  pub makes_slice : ℕ → Bool
  pub st_info : ℕ
  pub get_uint16_array : Bytes → Option (List ℕ)
  pub to_byte_array : List ℕ → Bytes
  pub get_uint16_array-to_byte_array :
      (l : List ℕ) → All (λ n. n < 2 ^ 16) l → get_uint16_array (to_byte_array l) ≡ some l
  -- no byte is no index, also where the encoding of `nil` is an error
  pub get_uint16_array_empty : (l : List ℕ) → get_uint16_array [] ≡ some l → l ≡ []
  pub get_uint16_array_range :
      (b : Bytes) (l : List ℕ) → get_uint16_array b ≡ some l → All (λ n. n < 2 ^ 16) l

-- The store once a batch is written.
unfoldable pub committed : Database → Batch → Database
committed db batch = record db { get = commit batch db.get }
