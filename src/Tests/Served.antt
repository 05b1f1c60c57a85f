-- ===== src/Tests/Served.antt =====
-- Witnesses: the theorems on the JSON-RPC service and on transaction filters.
use mathlib.Core.Option.{some-injective}
use mathlib.Core.List.{Perm, reverse, reverse_perm}
use elastos_ela_side_chain_t.Base.{
  ℕ, pos, ◌≡◌, ◌≢◌, ◌↔◌, ◌⊎◌, ap, ◌≤◌, ◌%◌, ◌^◌, ◌*◌, refl, [], ◌∷◌, ◌++◌, none, some, ok, err,
  panic, Bytes, List, true, false, length, replicate, bytes_eq, bytes_eq_iff, arith, to_string,
  decimal, digits, set_bytes, value_from, parse_digits,
}
use elastos_ela_side_chain_t.Base.Assoc.{bytes_Eq, lookup, insert}
use elastos_ela_side_chain_t.Types.{
  Uint256, Transaction, TxType, transfer, cross_chain, PayloadTransferCrossChainAsset,
}
use elastos_ela_side_chain_t.Format.{write}
use elastos_ela_side_chain_t.Store.Database.{StoreError, Database, Batch, Op, committed}
use elastos_ela_side_chain_t.Store.Utxo.{
  Utxo, read_unspents, read_utxos, deserialize_utxo, read_value,
}
use elastos_ela_side_chain_t.Store.UtxoSet.{utxo_of}
use elastos_ela_side_chain_t.Store.Assets as Assets
use elastos_ela_side_chain_t.Store.Assets.{
  persist_asset, rollback_asset, asset_key, serialize_asset_info, buffer_after,
}
use elastos_ela_side_chain_t.Store.Amount.{value_string, with_point}
use elastos_ela_side_chain_t.Store.Listing.{or_failed, asset_of_key, gather_unspents, get_unspents}
use elastos_ela_side_chain_t.Validator.References.{sub_uint32}
use elastos_ela_side_chain_t.Service.{Params, RangeOrder, ServiceError, array}
use elastos_ela_side_chain_t.Service.Received.{get_received_by_address}
use elastos_ela_side_chain_t.Service.Received.Refused.{get_received_by_address-refuses_iff}
use elastos_ela_side_chain_t.Service.Unspent.{
  UtxoInfo, list_unspent, addresses_of, address_strings, all_infos, address_infos, asset_infos,
  utxo_infos, utxo_info, chosen_rows, confirmations_of,
}
use elastos_ela_side_chain_t.Service.Unspent.Rows.{
  AreRows, HasHeights, outputs_of, list_unspent_iff,
}
use elastos_ela_side_chain_t.Service.Assets.{get_asset_by_hash}
use elastos_ela_side_chain_t.Service.Assets.Found.{get_asset_by_hash-persist_asset}
use elastos_ela_side_chain_t.Service.Payloads.{PayloadVersions, get_payload_info}
use elastos_ela_side_chain_t.Service.Payloads.Lengths.{get_payload_info_iff}
use elastos_ela_side_chain_t.Service.Transactions.{output_value}
use elastos_ela_side_chain_t.Service.Transactions.Values.{output_value-value_string}
use elastos_ela_side_chain_t.Bloom.{BloomFilters, add, load, load_found, new_tx_filter}
use elastos_ela_side_chain_t.Bloom.Loaded.{Call, load_call, add_call, run, step, any_loads, add-run}
use elastos_ela_side_chain_t.Tests.Samples.{
  sample_library, sample_format, sample_layout, sample_store_library, sample_asset,
  sample_asset_reads, sample_texts, sample_database, sample_transaction, address, ela_id, token_id,
  token_output,
}

-- An entry of a token.
abbrev token_utxo : ℕ → Utxo
token_utxo n = record { tx_id = replicate 32 7; index = 1; asset_id = token_id; value = n ∷ [] }

-- A store whose entry has no length.
abbrev damaged_database : Database
damaged_database = record {
  get = λ k. none;
  iterator = λ k. ([], []) ∷ [];
  get_transaction = λ h. none;
}

abbrev address_params : Params
address_params = record { address = some address; assetid = none; hash = none; addresses = none }

damaged_fails :
    get_unspents sample_format sample_layout damaged_database address ≡ err StoreError.read_error
unfolding get_unspents gather_unspents read_unspents
damaged_fails = refl

get_received_by_address-refuses_iff_example :
    (get_received_by_address sample_library sample_texts sample_format sample_layout
        damaged_database address_params
      ≡ err ServiceError.store_failed)
    ↔ ((ServiceError.store_failed ≡ ServiceError.invalid_params)
        × ((address_params.address ≡ none)
            ⊎ ((str : Bytes) × (address_params.address ≡ some str)
                × (sample_texts.uint168_from_address str ≡ none))))
get_received_by_address-refuses_iff_example =
    get_received_by_address-refuses_iff sample_library sample_texts sample_format sample_layout
      damaged_database address_params ServiceError.store_failed

abbrev addresses_params : Params
addresses_params = record {
  address = none;
  assetid = none;
  hash = none;
  addresses = some (array (some address ∷ []));
}

-- A store with one entry of nine units of a token, in the second output of a transaction.
abbrev row_database : Database
row_database = record {
  get = λ k. none;
  iterator = λ k.
      (
        145 ∷ (address ++ (token_id ++ (12 ∷ 0 ∷ 0 ∷ 0 ∷ []))),
        1 ∷ (replicate 32 7 ++ (1 ∷ 0 ∷ 0 ∷ 0 ∷ token_id ++ (1 ∷ 9 ∷ []))),
      )
      ∷ [];
  get_transaction = λ h. some (
    sample_transaction TxType.transfer_asset transfer []
        (token_output address (pos 1) ∷ token_output address (pos 9) ∷ []) 7,
    12,
  );
}

abbrev row_unspents : List (Uint256 × List Utxo)
row_unspents = (token_id, token_utxo 9 ∷ []) ∷ []

row_listed : get_unspents sample_format sample_layout row_database address ≡ ok row_unspents
unfolding get_unspents gather_unspents read_unspents read_utxos deserialize_utxo read_value
    asset_of_key or_failed insert lookup bytes_eq
row_listed = refl

abbrev nine_units : UtxoInfo
nine_units = record {
  asset_id = token_id;
  txid = replicate 32 7;
  vout = 1;
  address = address;
  amount = b'0' ∷ b'.' ∷ (replicate 17 b'0' ++ (b'9' ∷ []));
  confirmations = 9;
  output_lock = 0;
}

-- Maps from the last entry to the first.
abbrev backwards : RangeOrder Uint256 (List Utxo)
backwards = record { visit = λ n m. reverse m; visit-Perm = λ n m. reverse_perm m }

stored_heights : HasHeights sample_library sample_texts row_database 20
stored_heights h tx height found =
    let is : 12 ≡ height =
      ap (λ (e : Transaction × ℕ). e.1) (some-injective _ (tx, height) found) in
    omega (arith, is)

list_unspent_iff_example :
    (us : List Utxo) × Perm us (outputs_of row_unspents)
    × ((rows : List UtxoInfo)
        → (list_unspent sample_library sample_texts row_database 20 sample_format sample_layout
              backwards addresses_params
            ≡ ok rows)
          ↔ AreRows sample_library sample_texts row_database 20 address us rows)
list_unspent_iff_example =
    list_unspent_iff sample_library sample_texts row_database 20 sample_format sample_layout
      backwards addresses_params address address row_unspents refl refl refl row_listed
      stored_heights

-- The node shows exactly this row.
row_shown :
    list_unspent sample_library sample_texts row_database 20 sample_format sample_layout backwards
      addresses_params
    ≡ ok (nine_units ∷ [])
unfolding list_unspent addresses_of address_strings all_infos address_infos asset_infos utxo_infos
    utxo_info chosen_rows get_unspents gather_unspents read_unspents read_utxos deserialize_utxo
    read_value asset_of_key or_failed insert lookup bytes_eq value_string with_point to_string
    decimal digits set_bytes value_from confirmations_of sub_uint32
row_shown = refl

abbrev registered : Assets.AssetInfo
registered = record { asset = sample_asset; height = 12 }

abbrev registered_batch : Batch
registered_batch = Op.put (192 ∷ replicate 32 3) (3 ∷ 84 ∷ 79 ∷ 75 ∷ 12 ∷ 0 ∷ 0 ∷ 0 ∷ []) ∷ []

registered_put :
    persist_asset sample_library sample_format sample_layout sample_store_library registered
    ≡ ok registered_batch
unfolding persist_asset buffer_after serialize_asset_info asset_key write bytes_eq
registered_put = refl

abbrev hash_params : Params
hash_params = record {
  address = none;
  assetid = none;
  hash = some (replicate 32 3);
  addresses = none;
}

get_asset_by_hash-persist_asset_example :
    (get_asset_by_hash sample_library sample_format sample_layout sample_store_library sample_texts
        (committed sample_database ([] ++ registered_batch))
        hash_params
      ≡ ok (record {
        name = 84 ∷ 79 ∷ 75 ∷ [];
        description = [];
        precision = 8;
        height = 12;
        id = replicate 32 3;
      }))
    × (get_asset_by_hash sample_library sample_format sample_layout sample_store_library
          sample_texts
          (committed (committed sample_database ([] ++ registered_batch)) (
            []
            ++ rollback_asset sample_library sample_format sample_layout sample_store_library
                (replicate 32 3)))
          hash_params
        ≡ err ServiceError.store_failed)
get_asset_by_hash-persist_asset_example =
    get_asset_by_hash-persist_asset sample_library sample_format sample_layout sample_store_library
      sample_texts sample_database [] [] registered {put = registered_batch} hash_params
      (replicate 32 3) (replicate 32 3) [] sample_asset_reads (omega arith) registered_put refl refl
      refl

abbrev sample_versions : PayloadVersions
sample_versions = record { recharge_version0 = 0; recharge_version1 = 1 }

abbrev short_payload : PayloadTransferCrossChainAsset
short_payload = record {
  cross_chain_addresses = address ∷ [];
  output_indexes = 0 ∷ [];
  cross_chain_amounts = [];
}

get_payload_info_iff_example :
    (get_payload_info sample_texts sample_versions (cross_chain short_payload) 0 ≢ panic) ↔ (
      (length short_payload.cross_chain_addresses ≤ length short_payload.output_indexes)
      × (length short_payload.cross_chain_addresses ≤ length short_payload.cross_chain_amounts))
get_payload_info_iff_example = get_payload_info_iff sample_texts sample_versions short_payload 0

token_is_other : token_id ≢ sample_library.system_asset_id
token_is_other e = ground (arith, bytes_eq_iff token_id ela_id)

-- One token and a half.
output_value-value_string_example :
    let o = token_output address (pos (15 * 10 ^ 17)) in
    (whole fraction : Bytes) × (value_string sample_library sample_texts
        (utxo_of sample_library sample_format (replicate 32 7) 0 o)
      ≡ ok (whole ++ (b'.' ∷ fraction)))
    × (parse_digits (output_value sample_library sample_texts o) ≡ parse_digits whole)
    × (parse_digits fraction ≡ some (15 * 10 ^ 17 % 10 ^ 18))
output_value-value_string_example =
    output_value-value_string sample_library sample_format sample_texts (replicate 32 7) 0
      (token_output address (pos (15 * 10 ^ 17))) (15 * 10 ^ 17) token_is_other refl (omega arith)

-- Filters as lists of bytes: all are loaded.
abbrev sample_filters : BloomFilters Bytes
sample_filters = record {
  load_filter = λ b. some b;
  is_loaded = λ f. true;
  load_filter_loaded = λ b f e. refl;
  add = λ f b. f ++ b;
  add_loaded = λ f b e. refl;
  match_tx_and_update = λ f tx. (false, f);
  match_loaded = λ f tx e. refl;
  match_nil = λ tx. panic;
}

abbrev sample_calls : List Call
sample_calls = add_call (1 ∷ []) ∷ load_call (2 ∷ []) ∷ []

sample_run : run sample_library sample_filters sample_calls new_tx_filter ≡ ok (some (2 ∷ []))
unfolding run step add load load_found
sample_run = refl

add-run_example :
    ((add sample_library sample_filters (3 ∷ []) (some (2 ∷ []))).0 ≡ ok tt)
    ↔ (any_loads sample_library sample_filters sample_calls ≡ true)
add-run_example =
    add-run sample_library sample_filters sample_calls (3 ∷ []) {f = some (2 ∷ [])} sample_run
