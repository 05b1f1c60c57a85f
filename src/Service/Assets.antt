-- ===== src/Service/Assets.antt =====
-- `GetAssetByHash` and `GetAssetList` of service/service.go.
pub mod Found
use elastos_ela_side_chain_t.Base.{
  ℕ, Bytes, List, [], ◌∷◌, Option, none, some, if◌then◌else◌, Outcome, ok, err, ◌>>=◌, or_err, map,
}
use elastos_ela_side_chain_t.Types.{Uint256}
use elastos_ela_side_chain_t.Library.{Library}
use elastos_ela_side_chain_t.Format.{Format}
use elastos_ela_side_chain_t.Texts.{Texts}
use elastos_ela_side_chain_t.Store.Database.{Database, Layout}
use elastos_ela_side_chain_t.Store.Assets as Assets
use elastos_ela_side_chain_t.Store.Assets.{StoreLibrary, is_ela, get_asset}
use elastos_ela_side_chain_t.Store.Listing.{get_assets}
use elastos_ela_side_chain_t.Service.{Params, ServiceError, RangeOrder, or_error}

-- `AssetInfo` of service/types.go
pub record AssetInfo : Type 0 where
  pub name : List ℕ
  pub description : List ℕ
  pub precision : ℕ
  pub height : ℕ
  pub id : Bytes

-- The fields of a stored asset, under an asset id.
unfoldable pub info_row : Texts → Uint256 → Assets.AssetInfo → AssetInfo
info_row texts asset_id info = record {
  name = info.asset.name;
  description = info.asset.description;
  precision = info.asset.precision;
  height = info.height;
  id = texts.bytes_to_hex_string (texts.bytes_reverse asset_id);
}

module _ (lib : Library) (format : Format) (layout : Layout) (store_lib : StoreLibrary)
    (texts : Texts) (db : Database) where
  -- The asset id that is shown.
  unfoldable pub shown_id : Assets.AssetInfo → Uint256
  shown_id info = if is_ela info.asset then lib.system_asset_id else lib.asset_hash info.asset

  -- `GetAssetByHash`
  unfoldable pub get_asset_by_hash : Params → Outcome ServiceError AssetInfo
  unfolding shown_id info_row
  get_asset_by_hash params = do
    str ← or_err params.hash ServiceError.invalid_params
    hash_bytes ← or_err (texts.from_reversed_string str) ServiceError.invalid_params
    (hash, _) ← or_err (format.read_uint256 hash_bytes) ServiceError.invalid_params
    asset ← or_error (get_asset lib format layout store_lib db hash) ServiceError.store_failed
    ok (info_row texts (shown_id asset) asset)

  -- `GetAssetList`
  unfoldable pub get_asset_list : RangeOrder Uint256 Assets.AssetInfo → List AssetInfo
  get_asset_list order =
      map (λ (e : Uint256 × Assets.AssetInfo). info_row texts e.0 e.1)
        (order.visit 0 (get_assets format store_lib layout db))
