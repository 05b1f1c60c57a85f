-- ===== src/Store/Assets/Stored.antt =====
-- Assets survive the store, the one named "ELA" excepted.
use mathlib.Core.List.{append_assoc, append-nil}
use elastos_ela_side_chain_t.Base.{
  ℕ, ◌^◌, ◌<◌, ◌≡◌, refl, sym, Bytes, [], ◌++◌, true, some, if◌then◌else◌, bytes_eq, bytes_eq_iff,
  Outcome, ok, err, ◌>>=◌, arith, Bool-cases, inl, inr, ok-injective,
}
use elastos_ela_side_chain_t.Types.{Uint256}
use elastos_ela_side_chain_t.Library.{Library}
use elastos_ela_side_chain_t.Format.{Format, bytes_buffer, write}
use elastos_ela_side_chain_t.Store.Database.{
  StoreError, Database, Layout, Batch, commit, commit-append, committed,
}
use elastos_ela_side_chain_t.Store.Assets.{
  StoreLibrary, AssetInfo, is_ela, serialize_asset_info, deserialize_asset_info, asset_key,
  buffer_after, persist_asset, rollback_asset, info_of, get_asset,
}

module _ (lib : Library) (format : Format) (layout : Layout) (store_lib : StoreLibrary) where
  -- An `AssetInfo` that `Serialize` writes to a buffer is read back by `Deserialize` with the bytes
  -- behind it left over, except that an asset named "ELA" keeps the height that was there before
  -- and leaves its own height unread. The library reads the asset back, and the height is a uint32.
  pub deserialize_asset_info-serialize :
      (info : AssetInfo) (height : ℕ) (rest : Bytes)
      → ((more : Bytes)
          → store_lib.read_asset (store_lib.asset_bytes info.asset ++ more)
            ≡ some (info.asset, more))
      → info.height < 2 ^ 32
      → (do
        w ← serialize_asset_info lib format layout store_lib bytes_buffer info []
        deserialize_asset_info lib format layout store_lib height (w ++ rest))
        ≡ ok (
            if is_ela info.asset
            then (
              record { asset = info.asset; height = height },
              format.uint32_bytes info.height ++ rest,
            )
            else (info, rest))
  unfolding serialize_asset_info deserialize_asset_info write
  deserialize_asset_info-serialize info height rest reads fits =
      rw
        (
          append_assoc (store_lib.asset_bytes info.asset) (format.uint32_bytes info.height) rest,
          reads (format.uint32_bytes info.height ++ rest),
        )
        (elim (Bool-cases (is_ela info.asset)) [
          | inl named ↦ rw named refl
          | inr named ↦ rw (named, format.read_uint32-bytes info.height rest fits) refl
        ])

  -- After a batch that ends in `PersistAsset`, `GetAsset` finds what was registered under the hash of
  -- the asset. The library reads the asset back, and the height is a uint32.
  pub get_asset-persist_asset :
      (db : Database) (batch : Batch) (info : AssetInfo) {put : Batch}
      → ((more : Bytes)
          → store_lib.read_asset (store_lib.asset_bytes info.asset ++ more)
            ≡ some (info.asset, more))
      → info.height < 2 ^ 32
      → persist_asset lib format layout store_lib info ≡ ok put
      → get_asset lib format layout store_lib
          (committed db (batch ++ put))
          (lib.asset_hash info.asset)
        ≡ ok info
  unfolding get_asset committed persist_asset serialize_asset_info buffer_after
      deserialize_asset_info info_of commit write
  get_asset-persist_asset db batch info {put} reads fits e = elim (Bool-cases (is_ela info.asset)) [
    | inl named ↦ absurd (refused (rw named at e))
    | inr named ↦
        let key = asset_key lib format layout store_lib (lib.asset_hash info.asset) in
        let made = ok-injective (rw named at e) in
        let same : bytes_eq key key ≡ true = ground (arith, bytes_eq_iff key key) in
        let read =
          rw (append-nil (format.uint32_bytes info.height)) at
            (format.read_uint32-bytes info.height [] fits) in
        rw
          (
            sym made,
            commit-append batch _ db.get key,
            same,
            reads (format.uint32_bytes info.height),
            named,
            read,
          )
          refl
  ]
    where
      refused : ◌≡◌ {A = Outcome StoreError Batch} (err StoreError.ela_registered) (ok put) → ⊥
      refused h = cc

  -- After a batch that ends in `RollbackAsset`, `GetAsset` does not find the asset.
  pub get_asset-rollback_asset :
      (db : Database) (batch : Batch) (h : Uint256)
      → get_asset lib format layout store_lib
          (committed db (batch ++ rollback_asset lib format layout store_lib h))
          h
        ≡ err StoreError.not_found
  unfolding get_asset committed rollback_asset commit
  get_asset-rollback_asset db batch h =
      let key = asset_key lib format layout store_lib h in
      let same : bytes_eq key key ≡ true = ground (arith, bytes_eq_iff key key) in
      rw (commit-append batch _ db.get key, same) refl
