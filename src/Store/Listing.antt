-- ===== src/Store/Listing.antt =====
-- `GetUnspents` and `GetAssets` of blockchain/chainstore.go: what the store holds under a prefix. A
-- map is an association list in the order of insertion.
pub mod Unspents
pub mod Infos
use elastos_ela_side_chain_t.Base.{
  ℕ, Bytes, List, [], ◌∷◌, ◌++◌, Option, none, some, if◌then◌else◌, Outcome, ok, ◌>>=◌,
}
use elastos_ela_side_chain_t.Base.Assoc.{bytes_Eq, lookup, insert}
use elastos_ela_side_chain_t.Types.{Uint256, Uint168, Asset}
use elastos_ela_side_chain_t.Format.{Format}
use elastos_ela_side_chain_t.Store.Database.{StoreError, Database, Layout}
use elastos_ela_side_chain_t.Store.Unspent.{or_empty}
use elastos_ela_side_chain_t.Store.Utxo.{Utxo, ix_unspent_utxo, read_unspents}
use elastos_ela_side_chain_t.Store.Assets.{StoreLibrary, AssetInfo, is_ela}

-- What a read leaves in a field, where its error is not looked at.
unfoldable pub or_failed : {A : Type 0} → Option (A × Bytes) → A × Bytes → A × Bytes
or_failed none failed = failed
or_failed (some found) failed = found

module _ (format : Format) where
  -- The asset in a key: behind one byte and an address.
  unfoldable pub asset_of_key : Bytes → Uint256
  unfolding or_failed
  asset_of_key key =
      let r1 = format.skip_bytes 1 key in
      let r2 = (or_failed (format.read_uint168 r1) (format.failed_uint168 r1)).1 in
      (or_failed (format.read_uint256 r2) (format.failed_uint256 r2)).0

  -- The loop over the entries of the iterator.
  unfoldable pub gather_unspents :
      Layout
      → List (Bytes × Bytes)
      → List (Uint256 × List Utxo)
      → Outcome StoreError (List (Uint256 × List Utxo))
  gather_unspents layout [] m = ok m
  gather_unspents layout ((key, value) ∷ entries) m = do
    unspents ← read_unspents format layout value
    gather_unspents layout entries
        (insert (asset_of_key key) (or_empty (lookup (asset_of_key key) m) ++ unspents) m)

  -- `GetUnspents`
  unfoldable pub get_unspents :
      Layout → Database → Uint168 → Outcome StoreError (List (Uint256 × List Utxo))
  unfolding gather_unspents
  get_unspents layout db program_hash =
      gather_unspents layout (db.iterator (ix_unspent_utxo ∷ format.uint168_bytes program_hash)) []

  module _ (store_lib : StoreLibrary) where
    -- The asset id in a key: behind one byte.
    unfoldable pub id_of_key : Bytes → Uint256
    unfolding or_failed
    id_of_key key =
        let r1 = format.skip_bytes 1 key in
        (or_failed (format.read_uint256 r1) (format.failed_uint256 r1)).0

    -- The height that `ReadUint32` returns, also beside an error.
    abbrev pub height_left : Option (ℕ × Bytes) → Bytes → ℕ
    height_left none r = format.failed_uint32 r
    height_left (some (height, _)) r = height

    abbrev pub info_behind : Option (Asset × Bytes) → Bytes → AssetInfo
    info_behind none r = record { asset = store_lib.failed_asset r; height = 0 }
    info_behind (some (asset, r1)) r =
        if is_ela asset
        then record { asset = asset; height = 0 }
        else record { asset = asset; height = height_left (format.read_uint32 r1) r1 }

    -- What `AssetInfo.Deserialize` leaves in an empty `AssetInfo`, whether it fails or not.
    unfoldable pub info_left : Bytes → AssetInfo
    info_left r = info_behind (store_lib.read_asset r) r

    -- The loop over the entries of the iterator.
    unfoldable pub gather_assets :
        List (Bytes × Bytes) → List (Uint256 × AssetInfo) → List (Uint256 × AssetInfo)
    unfolding id_of_key info_left
    gather_assets [] m = m
    gather_assets ((key, value) ∷ entries) m =
        gather_assets entries (insert (id_of_key key) (info_left value) m)

    -- `GetAssets`
    unfoldable pub get_assets : Layout → Database → List (Uint256 × AssetInfo)
    unfolding gather_assets
    get_assets layout db = gather_assets (db.iterator (layout.st_info ∷ [])) []
