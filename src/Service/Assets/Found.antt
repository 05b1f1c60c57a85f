-- ===== src/Service/Assets/Found.antt =====
-- `GetAssetByHash` on an asset that was registered.
use elastos_ela_side_chain_t.Base.{
  ◌^◌, ◌<◌, ◌≡◌, refl, Bytes, ◌++◌, some, Outcome, ok, err, Bool-cases, inl, inr,
}
use elastos_ela_side_chain_t.Library.{Library}
use elastos_ela_side_chain_t.Format.{Format}
use elastos_ela_side_chain_t.Texts.{Texts}
use elastos_ela_side_chain_t.Store.Database.{StoreError, Database, Layout, Batch, committed}
use elastos_ela_side_chain_t.Store.Assets as Assets
use elastos_ela_side_chain_t.Store.Assets.{StoreLibrary, is_ela, persist_asset, rollback_asset}
use elastos_ela_side_chain_t.Store.Assets.Stored.{get_asset-persist_asset, get_asset-rollback_asset}
use elastos_ela_side_chain_t.Service.{Params, ServiceError}
use elastos_ela_side_chain_t.Service.Assets.{info_row, shown_id, get_asset_by_hash}

module _ (lib : Library) (format : Format) (layout : Layout) (store_lib : StoreLibrary)
    (texts : Texts) where
  -- Once `PersistAsset` has put an asset into a batch that is written, `GetAssetByHash` for a text of
  -- its hash shows its name, description, precision and height, and that hash; and after a later
  -- batch that ends in `RollbackAsset` of that hash, it returns an error. The library reads the asset
  -- back, and the height is a uint32.
  pub get_asset_by_hash-persist_asset :
      (db : Database) (batch later : Batch) (info : Assets.AssetInfo) {put : Batch}
      (params : Params) (str hash_bytes rest : Bytes)
      → ((more : Bytes)
          → store_lib.read_asset (store_lib.asset_bytes info.asset ++ more)
            ≡ some (info.asset, more))
      → info.height < 2 ^ 32
      → persist_asset lib format layout store_lib info ≡ ok put
      → params.hash ≡ some str
      → texts.from_reversed_string str ≡ some hash_bytes
      → format.read_uint256 hash_bytes ≡ some (lib.asset_hash info.asset, rest)
      → (get_asset_by_hash lib format layout store_lib texts (committed db (batch ++ put)) params
          ≡ ok (record {
            name = info.asset.name;
            description = info.asset.description;
            precision = info.asset.precision;
            height = info.height;
            id = texts.bytes_to_hex_string (texts.bytes_reverse (lib.asset_hash info.asset));
          }))
        × (get_asset_by_hash lib format layout store_lib texts
              (committed
                (committed db (batch ++ put))
                (later ++ rollback_asset lib format layout store_lib (lib.asset_hash info.asset)))
              params
            ≡ err ServiceError.store_failed)
  unfolding get_asset_by_hash info_row
  get_asset_by_hash-persist_asset db batch later info {put} params str hash_bytes rest reads fits e
        given decoded read =
      let stored = get_asset-persist_asset lib format layout store_lib db batch info reads fits e in
      let gone =
        get_asset-rollback_asset lib format layout store_lib (committed db (batch ++ put)) later
          (lib.asset_hash info.asset) in
      (rw (given, decoded, read, stored, not_ela) refl, rw (given, decoded, read, gone) refl)
    where
      refused : ◌≡◌ {A = Outcome StoreError Batch} (err StoreError.ela_registered) (ok put) → ⊥
      refused h = cc

      not_ela : shown_id lib format layout store_lib texts db info ≡ lib.asset_hash info.asset
      not_ela = elim (Bool-cases (is_ela info.asset)) [
        | inl named ↦ absurd (refused (unfold persist_asset in rw named at e))
        | inr named ↦ unfold shown_id in rw named refl
      ]
