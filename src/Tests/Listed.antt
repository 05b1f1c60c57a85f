-- ===== src/Tests/Listed.antt =====
-- Witnesses: the theorems on amounts as texts and on what the store lists.
use elastos_ela_side_chain_t.Base.{
  All, false, ◌>>=◌, ◌≡◌, ◌≢◌, ◌↔◌, refl, [], ◌∷◌, none, some, ok, err, Bytes, List, if◌then◌else◌,
  map, pos, replicate, bytes_eq, bytes_eq_iff, arith, big_bytes, ◌*◌, ◌^◌,
}
use elastos_ela_side_chain_t.Base.Assoc.{bytes_Eq, lookup}
use elastos_ela_side_chain_t.Types.{Uint256}
use elastos_ela_side_chain_t.Store.Database.{StoreError, Database}
use elastos_ela_side_chain_t.Store.Unspent.{or_empty}
use elastos_ela_side_chain_t.Store.Utxo.{Utxo, UtxoKey, ix_unspent_utxo, value_bytes}
use elastos_ela_side_chain_t.Store.Utxo.RoundTrip.{FitsUtxo}
use elastos_ela_side_chain_t.Store.UtxoSet.{utxo_of}
use elastos_ela_side_chain_t.Store.Assets.{
  AssetInfo, get_asset, asset_key, info_of, deserialize_asset_info,
}
use elastos_ela_side_chain_t.Store.Amount.{value_string}
use elastos_ela_side_chain_t.Store.Amount.Value.{Spells, value_string-utxo_of}
use elastos_ela_side_chain_t.Store.Listing.{get_unspents, get_assets}
use elastos_ela_side_chain_t.Store.Listing.Unspents.{
  entry_bytes, of_asset, FitsEntry, get_unspents-entries,
}
use elastos_ela_side_chain_t.Store.Listing.Infos.{asset_entry, get_assets-get_asset}
use elastos_ela_side_chain_t.Service.Received.{
  Received, nothing_received, unspents_or_nil, receive_all,
}
use elastos_ela_side_chain_t.Service.Received.Totals.{sum_of, token_value}
use elastos_ela_side_chain_t.Service.Received.Entries.{IsAmount, received_entries}
use elastos_ela_side_chain_t.Tests.Samples.{
  sample_library, sample_format, sample_texts, sample_layout, sample_store_library, address, ela_id,
  token_id, token_output,
}

token_is_not_ela : token_id ≢ sample_library.system_asset_id
token_is_not_ela e = ground (arith, bytes_eq_iff token_id ela_id)

-- Half a token.
value_string-utxo_of_example :
    (s : Bytes) × (value_string sample_library sample_texts (
        utxo_of sample_library sample_format
          (replicate 32 7)
          0
          (token_output address (pos (5 * 10 ^ 17))))
      ≡ ok s)
    × Spells s (5 * 10 ^ 17)
value_string-utxo_of_example =
    value_string-utxo_of sample_library sample_format sample_texts (replicate 32 7) 0
      (token_output address (pos (5 * 10 ^ 17))) token_is_not_ela (omega arith)

abbrev entry : UtxoKey × List Utxo
entry = (
  (address, token_id, 12),
  utxo_of sample_library sample_format (replicate 32 7) 1 (token_output address (pos 9)) ∷ [],
)

abbrev listing_database : Database
listing_database = record {
  get = λ k.
      if bytes_eq k (192 ∷ replicate 32 3)
      then some (3 ∷ 84 ∷ 79 ∷ 75 ∷ 12 ∷ 0 ∷ 0 ∷ 0 ∷ [])
      else none;
  iterator = λ k.
      if bytes_eq k (192 ∷ [])
      then (192 ∷ replicate 32 3, 3 ∷ 84 ∷ 79 ∷ 75 ∷ 12 ∷ 0 ∷ 0 ∷ 0 ∷ []) ∷ []
      else entry_bytes sample_format entry ∷ [];
  get_transaction = λ h. none;
}

one_utxo :
    FitsUtxo
      (utxo_of sample_library sample_format (replicate 32 7) 1 (token_output address (pos 9)))
unfolding utxo_of value_bytes big_bytes bytes_eq
one_utxo = record { tx_id = refl; index = omega arith; asset_id = refl; value = omega arith }

entry_Fits : FitsEntry sample_layout entry
entry_Fits = record {
  address = refl;
  asset = refl;
  few = omega arith;
  slice = refl;
  fits = (one_utxo, tt);
}

iterated :
    listing_database.iterator (ix_unspent_utxo ∷ sample_format.uint168_bytes address)
    ≡ map (entry_bytes sample_format) (entry ∷ [])
unfolding bytes_eq
iterated = refl

get_unspents-entries_example :
    (m : List (Uint256 × List Utxo)) × (get_unspents sample_format sample_layout listing_database
        address
      ≡ ok m)
    × ((a : Uint256) → or_empty (lookup a m) ≡ of_asset a (entry ∷ []))
get_unspents-entries_example =
    get_unspents-entries sample_format sample_layout listing_database address (entry ∷ []) iterated
      (entry_Fits, tt)

abbrev asset_values : List (Uint256 × Bytes)
asset_values = (replicate 32 3, 3 ∷ 84 ∷ 79 ∷ 75 ∷ 12 ∷ 0 ∷ 0 ∷ 0 ∷ []) ∷ []

asset_values_got :
    (g : Uint256)
    → listing_database.get
        (asset_key sample_library sample_format sample_layout sample_store_library g)
      ≡ lookup g asset_values
unfolding asset_key lookup
asset_values_got g =
    ground (arith, bytes_eq_iff (192 ∷ g) (192 ∷ replicate 32 3), bytes_eq_iff (replicate 32 3) g)

assets_iterated :
    listing_database.iterator (192 ∷ [])
    ≡ map (asset_entry sample_library sample_format sample_layout sample_store_library) asset_values
unfolding bytes_eq asset_key
assets_iterated = refl

asset_is_readable :
    get_asset sample_library sample_format sample_layout sample_store_library listing_database
      (replicate 32 3)
    ≢ err StoreError.read_error
unfolding get_asset asset_key bytes_eq info_of deserialize_asset_info
asset_is_readable e = cc

get_assets-get_asset_example :
    ((info : AssetInfo)
      → (get_asset sample_library sample_format sample_layout sample_store_library listing_database
            (replicate 32 3)
          ≡ ok info)
        ↔ (lookup
              (replicate 32 3)
              (get_assets sample_format sample_store_library sample_layout listing_database)
            ≡ some info))
    × ((get_asset sample_library sample_format sample_layout sample_store_library listing_database
            (replicate 32 3)
          ≡ err StoreError.not_found)
        ↔ (lookup {V = AssetInfo}
              (replicate 32 3)
              (get_assets sample_format sample_store_library sample_layout listing_database)
            ≡ none))
get_assets-get_asset_example =
    get_assets-get_asset sample_library sample_format sample_layout sample_store_library
      listing_database asset_values (replicate 32 3) assets_iterated asset_values_got (refl, tt)
      (unfold lookup in refl, tt) asset_is_readable

no_ela : All (IsAmount sample_library sample_texts) (of_asset ela_id (entry ∷ []))
unfolding of_asset bytes_eq
no_ela = tt

received_entries_example :
    (r : Received) × ((do
      m ← unspents_or_nil (get_unspents sample_format sample_layout listing_database address)
      receive_all sample_library sample_texts nothing_received m)
      ≡ ok r)
    × ((a : Uint256)
        → bytes_eq a sample_library.system_asset_id ≡ false
        → token_value sample_library sample_texts r a ≡ pos (sum_of (of_asset a (entry ∷ []))))
received_entries_example =
    received_entries sample_library sample_texts sample_format sample_layout listing_database
      address (entry ∷ []) iterated (entry_Fits, tt) no_ela
