-- ===== src/Store/Assets.antt =====
-- `AssetInfo` of blockchain/chainstore.go and the assets in the store.
pub mod Stored
use elastos_ela_side_chain_t.Base.{
  ℕ, Bytes, List, [], ◌∷◌, ◌++◌, Bool, true, false, Option, none, some, if◌then◌else◌, bytes_eq,
  Outcome, ok, err, panic, ◌>>=◌, or_err,
}
use elastos_ela_side_chain_t.Types.{Uint256, Asset, Transaction}
use elastos_ela_side_chain_t.Library.{Library}
use elastos_ela_side_chain_t.Format.{Format, WireError, Writer, bytes_buffer, write, or_eof}
use elastos_ela_side_chain_t.Store.Database.{StoreError, Database, Layout, Op, Batch}

-- What the side chain library does for the store: the bytes of `types.Asset`, and the changes of its
-- own methods; `none` is an error.
pub record StoreLibrary : Type 0 where
  pub asset_bytes : Asset → Bytes
  pub read_asset : Bytes → Option (Asset × Bytes)
  -- what a failed `Deserialize` leaves in an empty `Asset`
  pub failed_asset : Bytes → Asset
  pub persist_transaction : Transaction → ℕ → Option Batch
  pub rollback_transaction : Transaction → Option Batch
  pub persist_mainchain_tx : Uint256 → Batch
  pub rollback_mainchain_tx : Uint256 → Batch

pub record AssetInfo : Type 0 where
  pub asset : Asset
  pub height : ℕ

-- "ELA"
abbrev pub ela : List ℕ
ela = 69 ∷ 76 ∷ 65 ∷ []

abbrev pub is_ela : Asset → Bool
is_ela a = bytes_eq a.name ela

module _ (lib : Library) (format : Format) (layout : Layout) (store_lib : StoreLibrary) where
  -- `AssetInfo.Serialize`
  unfoldable pub serialize_asset_info : Writer → AssetInfo → Bytes → Outcome WireError Bytes
  serialize_asset_info accepts info w = do
    w1 ← write accepts (store_lib.asset_bytes info.asset) w
    write accepts (format.uint32_bytes info.height) w1

  -- `AssetInfo.Deserialize` into an `AssetInfo` with the height `height`.
  unfoldable pub deserialize_asset_info : ℕ → Bytes → Outcome WireError (AssetInfo × Bytes)
  deserialize_asset_info height r = do
    (asset, r1) ← or_eof (store_lib.read_asset r)
    (if is_ela asset then ok (record { asset = asset; height = height }, r1) else (do
      (read_height, r2) ← or_eof (format.read_uint32 r1)
      ok (record { asset = asset; height = read_height }, r2)))

  -- The byte `ST_Info` and the hash.
  unfoldable pub asset_key : Uint256 → Bytes
  asset_key h = layout.st_info ∷ format.uint256_bytes h

  -- The buffer after `asset.Serialize(w)`, whose error is not looked at.
  unfoldable pub buffer_after : Outcome WireError Bytes → Bytes
  buffer_after (ok w) = w
  buffer_after (err _) = []
  buffer_after panic = []

  -- `PersistAsset`: what it adds to the batch.
  unfoldable pub persist_asset : AssetInfo → Outcome StoreError Batch
  persist_asset info =
      if is_ela info.asset
      then err StoreError.ela_registered
      else ok (
          Op.put (asset_key (lib.asset_hash info.asset))
            (buffer_after (serialize_asset_info bytes_buffer info []))
          ∷ [])

  -- `RollbackAsset`
  unfoldable pub rollback_asset : Uint256 → Batch
  rollback_asset h = Op.delete (asset_key h) ∷ []

  unfoldable pub info_of : Outcome WireError (AssetInfo × Bytes) → Outcome StoreError AssetInfo
  info_of (ok (info, _)) = ok info
  info_of (err _) = err StoreError.read_error
  info_of panic = panic

  -- `GetAsset`
  unfoldable pub get_asset : Database → Uint256 → Outcome StoreError AssetInfo
  get_asset db h = do
    asset_data ← or_err (db.get (asset_key h)) StoreError.not_found
    info_of (deserialize_asset_info 0 asset_data)
