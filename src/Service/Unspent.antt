-- ===== src/Service/Unspent.antt =====
-- `ListUnspent` of service/service.go. A map is an association list, and the
-- order in which `range` visits it is a parameter.
pub mod Rows
use elastos_ela_side_chain_t.Base.{
  ℕ, suc, ◌+◌, ◌%◌, ◌^◌, Bytes, List, [], ◌∷◌, ◌++◌, Option, none, some, if◌then◌else◌, bytes_eq,
  get_elem?, Outcome, ok, err, ◌>>=◌, or_err, or_panic,
}
use elastos_ela_side_chain_t.Types.{Uint256}
use elastos_ela_side_chain_t.Library.{Library}
use elastos_ela_side_chain_t.Format.{Format}
use elastos_ela_side_chain_t.Texts.{Texts}
use elastos_ela_side_chain_t.Validator.References.{sub_uint32}
use elastos_ela_side_chain_t.Store.Database.{Database, Layout}
use elastos_ela_side_chain_t.Store.Utxo.{Utxo}
use elastos_ela_side_chain_t.Store.Amount.{value_string}
use elastos_ela_side_chain_t.Store.Listing.{get_unspents}
use elastos_ela_side_chain_t.Service.{
  Value, array, not_an_array, Params, ServiceError, RangeOrder, or_error,
}

pub record UtxoInfo : Type 0 where
  pub asset_id : Bytes
  pub txid : Bytes
  pub vout : ℕ
  pub address : Bytes
  pub amount : Bytes
  pub confirmations : ℕ
  pub output_lock : ℕ

-- The loop over the elements of the array.
unfoldable pub address_strings : List (Option Bytes) → Outcome ServiceError (List Bytes)
address_strings [] = ok []
address_strings (none ∷ vs) = err ServiceError.not_a_string
address_strings (some s ∷ vs) = do rest ← address_strings vs; ok (s ∷ rest)

-- The type switch on `param["addresses"]`.
unfoldable pub addresses_of : Option Value → Outcome ServiceError (List Bytes)
unfolding address_strings
addresses_of none = err ServiceError.need_address
addresses_of (some (array vs)) = address_strings vs
addresses_of (some not_an_array) = err ServiceError.wrong_type

-- `bestHeight - height + 1`, on uint32
unfoldable pub confirmations_of : ℕ → ℕ → ℕ
confirmations_of best_height height = (sub_uint32 best_height height + 1) % 2 ^ 32

-- The rows of one asset.
unfoldable pub of_asset_id : Bytes → List UtxoInfo → List UtxoInfo
of_asset_id asset_id [] = []
of_asset_id asset_id (r ∷ rows) =
    let rest = of_asset_id asset_id rows in if bytes_eq r.asset_id asset_id then r ∷ rest else rest

-- The choice by the parameter `assetid`.
unfoldable pub chosen_rows : Option Bytes → List UtxoInfo → List UtxoInfo
unfolding of_asset_id
chosen_rows none rows = rows
chosen_rows (some asset_id) rows = of_asset_id asset_id rows

module _ (lib : Library) (texts : Texts) (db : Database) (best_height : ℕ) where
  unfoldable pub utxo_info : Bytes → Utxo → Outcome ServiceError UtxoInfo
  utxo_info address unspent = do
    (tx, height) ← or_err (db.get_transaction unspent.tx_id) ServiceError.unknown_transaction
    amount ← or_error (value_string lib texts unspent) ServiceError.store_failed
    o ← or_panic (get_elem? tx.outputs unspent.index)
    ok (record {
      asset_id = texts.bytes_to_hex_string (texts.bytes_reverse unspent.asset_id);
      txid = texts.bytes_to_hex_string (texts.bytes_reverse unspent.tx_id);
      vout = unspent.index;
      address = address;
      amount = amount;
      confirmations = confirmations_of best_height height;
      output_lock = o.output_lock;
    })

  unfoldable pub utxo_infos : Bytes → List Utxo → Outcome ServiceError (List UtxoInfo)
  unfolding utxo_info
  utxo_infos address [] = ok []
  utxo_infos address (u ∷ us) = do
    r ← utxo_info address u
    rows ← utxo_infos address us
    ok (r ∷ rows)

  -- The loop over the assets of an address.
  unfoldable pub asset_infos :
      Bytes → List (Uint256 × List Utxo) → Outcome ServiceError (List UtxoInfo)
  unfolding utxo_infos
  asset_infos address [] = ok []
  asset_infos address ((_, us) ∷ m) = do
    rows ← utxo_infos address us
    more ← asset_infos address m
    ok (rows ++ more)

  module _ (format : Format) (layout : Layout) (order : RangeOrder Uint256 (List Utxo)) where
    -- The body of the loop over the addresses; it is the `n`-th.
    unfoldable pub address_infos : ℕ → Bytes → Outcome ServiceError (List UtxoInfo)
    unfolding asset_infos
    address_infos n address = do
      program_hash ← or_err (texts.uint168_from_address address) ServiceError.invalid_address
      different_assets ← or_error (get_unspents format layout db program_hash) ServiceError.no_asset
      asset_infos address (order.visit n different_assets)

    unfoldable pub all_infos : ℕ → List Bytes → Outcome ServiceError (List UtxoInfo)
    unfolding address_infos
    all_infos n [] = ok []
    all_infos n (address ∷ addresses) = do
      rows ← address_infos n address
      more ← all_infos (suc n) addresses
      ok (rows ++ more)

    -- `ListUnspent`
    unfoldable pub list_unspent : Params → Outcome ServiceError (List UtxoInfo)
    unfolding addresses_of all_infos chosen_rows
    list_unspent params = do
      addresses ← addresses_of params.addresses
      rows ← all_infos 0 addresses
      ok (chosen_rows params.assetid rows)
