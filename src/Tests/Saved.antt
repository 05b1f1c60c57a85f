-- ===== src/Tests/Saved.antt =====
-- Witnesses: the theorems on the store and on block filling, on sample blocks.
use mathlib.Core.List.{map}
use elastos_ela_side_chain_t.Base.{
  inl, inr, pos, ◌==◌, not, ◌≡◌, ◌≢◌, ◌↔◌, refl, [], ◌∷◌, none, some, ok, panic, replicate, All,
  IsInt64, thirty_percent, sub_int64, wrap_int64, ◌-ℤ◌, bytes_eq, bytes_eq_iff, arith,
}
use elastos_ela_side_chain_t.Base.Assoc.{lookup, insert}
use elastos_ela_side_chain_t.Types.{
  TxType, Transaction, Output, Input, Block, transfer, registration,
}
use elastos_ela_side_chain_t.Format.{write}
use elastos_ela_side_chain_t.Store.Database.{Database, Batch, Op, commit, committed}
use elastos_ela_side_chain_t.Store.Removal.{find_index, swap_remove, put_last}
use elastos_ela_side_chain_t.Store.Count.{count, count_if, remove_value}
use elastos_ela_side_chain_t.Store.Unspent.{
  unspent_key, add_outputs, read_unspent, spend_input, spend_inputs, unspend_txn, unspend_txns,
  unspent_op, write_unspents, persist_unspend,
}
use elastos_ela_side_chain_t.Store.Unspent.Ledger.{decode_stored, stored, block_ledger}
use elastos_ela_side_chain_t.Store.Unspent.Stored.{persist_unspend-refines}
use elastos_ela_side_chain_t.Store.Unspent.Total.{IsReadable, IsAvailable, persist_unspend-total}
use elastos_ela_side_chain_t.Store.Utxo.{UtxoKey, get_unspent_element_from_program_hash}
use elastos_ela_side_chain_t.Store.UtxoSet.{stored_unspents, utxos_txns}
use elastos_ela_side_chain_t.Store.UtxoSet.Ledger.{
  UtxoLedger, AgreesUtxo, utxo_ledger, utxo_view, list_of,
}
use elastos_ela_side_chain_t.Store.UtxoSet.Refinement.{Refines, utxos_txns-Refines}
use elastos_ela_side_chain_t.Store.Reference.{Names, get_tx_reference, get_tx_reference_iff}
use elastos_ela_side_chain_t.Store.Assets.{
  persist_asset, rollback_asset, asset_key, serialize_asset_info, buffer_after,
}
use elastos_ela_side_chain_t.Store.Transactions.{
  persist_registration, persist_recharge, persist_transactions, rollback_registration,
  rollback_recharge, rollback_transactions,
}
use elastos_ela_side_chain_t.Store.Transactions.RolledBack.{
  IsGone, LeavesAssets, rollback_transactions-IsGone,
}
use elastos_ela_side_chain_t.Validator.Outputs.{check_transaction_output}
use elastos_ela_side_chain_t.Fees.{Pool, Filling, fill, split_reward, split_outputs}
use elastos_ela_side_chain_t.Fees.Filled.{Filled, fill-Filled}
use elastos_ela_side_chain_t.Fees.Split.{check_transaction_output-split_reward}
use elastos_ela_side_chain_t.Tests.Samples.{
  sample_library, sample_params, sample_format, sample_layout, sample_store_library,
  sample_database, sample_asset, foundation, address, ela_id, ela_output, sample_transaction, spend,
}

-- A coinbase with two outputs, and a transfer of the first of them.
abbrev pub sample_coin_base : Transaction
sample_coin_base =
    sample_transaction TxType.coin_base transfer []
      (ela_output foundation (pos 300) ∷ ela_output address (pos 700) ∷ []) 7

abbrev pub sample_transfer : Transaction
sample_transfer =
    sample_transaction TxType.transfer_asset transfer (spend 7 0 ∷ [])
      (ela_output address (pos 200) ∷ []) 8

abbrev pub sample_block : Block
sample_block = record { height = 12; transactions = sample_coin_base ∷ sample_transfer ∷ [] }

-- The index 1 of the coinbase is left, and the index 0 of the transfer.
abbrev pub sample_batch : Batch
sample_batch = Op.put (144 ∷ replicate 32 7) (1 ∷ []) ∷ Op.put (144 ∷ replicate 32 8) (0 ∷ []) ∷ []

pub sample_block_persists :
    persist_unspend sample_library sample_format sample_layout sample_database [] sample_block
    ≡ ok sample_batch
unfolding persist_unspend unspend_txns unspend_txn add_outputs spend_inputs spend_input read_unspent
    write_unspents unspent_op unspent_key insert lookup remove_value find_index swap_remove put_last
    bytes_eq
sample_block_persists = refl

pub sample_block_is_fresh :
    All
      (λ txn.
        stored sample_library sample_format sample_layout sample_database (sample_library.hash txn)
        ≡ [])
      sample_block.transactions
unfolding stored decode_stored
sample_block_is_fresh = (refl, (refl, tt))

persist_unspend-refines_example :
    count 1 (
      stored sample_library sample_format sample_layout
        (committed sample_database sample_batch)
        (replicate 32 7))
    ≡ block_ledger sample_library sample_block.transactions
        (λ g i. count i (stored sample_library sample_format sample_layout sample_database g))
        (replicate 32 7)
        1
persist_unspend-refines_example =
    persist_unspend-refines sample_library sample_format sample_layout sample_database []
      sample_block {batch' = sample_batch} sample_block_persists (λ h. unfold commit in refl)
      sample_block_is_fresh (replicate 32 7) 1

sample_block-IsAvailable :
    IsAvailable sample_library sample_format sample_layout sample_database
      (IsReadable sample_library sample_format sample_layout sample_database none)
      sample_block.transactions
sample_block-IsAvailable = (λ e. cc, (λ e. (inl (inr (refl, omega arith)), tt), tt))

persist_unspend-total_example :
    (batch' : Batch) × (persist_unspend sample_library sample_format sample_layout sample_database
        [] sample_block
      ≡ ok batch')
persist_unspend-total_example =
    persist_unspend-total sample_library sample_format sample_layout sample_database [] sample_block
      sample_block-IsAvailable

-- A store that knows the coinbase, saved at the height 12.
abbrev pub coin_base_database : Database
coin_base_database = record {
  get = λ k. none;
  iterator = λ k. [];
  get_transaction = λ h. some (sample_coin_base, 12);
}

abbrev pub empty_ledger : UtxoLedger
empty_ledger k h i = 0

pub no_read_panics :
    (k : UtxoKey)
    → stored_unspents sample_library sample_format sample_layout coin_base_database k ≢ panic
unfolding stored_unspents get_unspent_element_from_program_hash
no_read_panics k e = cc

pub empty_agrees :
    AgreesUtxo sample_library sample_format sample_layout coin_base_database [] empty_ledger
unfolding stored_unspents get_unspent_element_from_program_hash utxo_view list_of lookup count_if
empty_agrees k h i = refl

utxos_txns-Refines_example :
    Refines sample_library sample_format sample_layout coin_base_database
      (utxos_txns sample_library sample_format sample_layout coin_base_database 12 []
        sample_block.transactions)
      (utxo_ledger sample_library coin_base_database 12 sample_block.transactions empty_ledger)
utxos_txns-Refines_example =
    utxos_txns-Refines sample_library sample_format sample_layout coin_base_database 12
      sample_block.transactions [] empty_ledger no_read_panics empty_agrees

get_tx_reference_iff_example :
    (get_tx_reference coin_base_database sample_transfer
      ≡ ok ((spend 7 0, ela_output foundation (pos 300)) ∷ []))
    ↔ ((map (λ (r : Input × Output). r.0) ((spend 7 0, ela_output foundation (pos 300)) ∷ [])
          ≡ sample_transfer.inputs)
        × All (Names coin_base_database) ((spend 7 0, ela_output foundation (pos 300)) ∷ []))
get_tx_reference_iff_example =
    get_tx_reference_iff coin_base_database sample_transfer
      ((spend 7 0, ela_output foundation (pos 300)) ∷ [])

abbrev sample_registration : Transaction
sample_registration =
    sample_transaction TxType.register_asset
      (registration (record { asset = sample_asset; amount = pos 2; controller = address })) [] [] 9

abbrev saved_batch : Batch
saved_batch = Op.put (192 ∷ replicate 32 3) (3 ∷ 84 ∷ 79 ∷ 75 ∷ 12 ∷ 0 ∷ 0 ∷ 0 ∷ []) ∷ []

sample_registration_saved :
    persist_transactions sample_library sample_format sample_layout sample_store_library 12
      (sample_registration ∷ [])
    ≡ ok saved_batch
unfolding persist_transactions persist_registration persist_recharge persist_asset buffer_after
    serialize_asset_info asset_key write bytes_eq
sample_registration_saved = refl

abbrev rolled_batch : Batch
rolled_batch = Op.delete (192 ∷ replicate 32 3) ∷ []

sample_registration_rolled :
    rollback_transactions sample_library sample_format sample_layout sample_store_library ela_id
      (sample_registration ∷ [])
    ≡ ok rolled_batch
unfolding rollback_transactions rollback_registration rollback_recharge rollback_asset asset_key
    bytes_eq
sample_registration_rolled = refl

no_changes :
    (t : Transaction) (b : Batch) → sample_store_library.rollback_transaction t ≡ some b → b ≡ []
no_changes t b e = cc

library-LeavesAssets :
    (t : Transaction) (b : Batch)
    → sample_store_library.rollback_transaction t ≡ some b
    → LeavesAssets sample_library sample_format sample_layout sample_store_library b
unfolding commit
library-LeavesAssets t b e get h = rw (no_changes t b e) refl

rollback_transactions-IsGone_example :
    All
      (IsGone sample_library sample_format sample_layout sample_store_library ela_id
        (commit rolled_batch (λ k. some [])))
      (sample_registration ∷ [])
rollback_transactions-IsGone_example =
    rollback_transactions-IsGone sample_library sample_format sample_layout sample_store_library
      ela_id (sample_registration ∷ []) {ops = rolled_batch} library-LeavesAssets
      (λ h get g. unfold commit in refl) sample_registration_rolled (λ k. some [])

-- A pool of three transactions: the second is not final, the third does not fit.
abbrev sample_pool : Pool
sample_pool = record {
  sorted = sample_transfer ∷ sample_registration ∷ sample_coin_base ∷ [];
  size = λ txn. txn.lock_time;
  is_final = λ txn height. not (txn.lock_time == 9);
  tx_fee = λ txn. some (pos 50);
  max_block_size = 30;
  max_tx_per_block = 10;
  best_height = 11;
}

abbrev sample_filling : Filling
sample_filling = record {
  total_size = 7;
  count = 1;
  total_fee = pos 0;
  transactions = sample_coin_base ∷ [];
}

fill-Filled_example :
    Filled sample_pool sample_pool.sorted sample_filling
      (fill sample_pool sample_pool.sorted sample_filling)
fill-Filled_example = fill-Filled sample_pool sample_pool.sorted sample_filling

abbrev paid_coin_base : Transaction
paid_coin_base =
    sample_transaction TxType.coin_base transfer []
      (ela_output foundation (pos 30) ∷ ela_output address (pos 70) ∷ []) 7

address_is_not_foundation : address ≢ foundation
address_is_not_foundation e = ground (arith, bytes_eq_iff address foundation)

thirty_of_hundred : IsInt64 (thirty_percent (pos 100))
unfolding thirty_percent
thirty_of_hundred = (omega arith, omega arith)

sample_split : split_reward sample_pool (pos 100) (sample_coin_base ∷ []) ≡ ok (paid_coin_base ∷ [])
unfolding split_reward split_outputs thirty_percent sub_int64 wrap_int64 ◌-ℤ◌
sample_split = refl

check_transaction_output-split_reward_example :
    check_transaction_output sample_library sample_params paid_coin_base ≡ ok tt
check_transaction_output-split_reward_example =
    check_transaction_output-split_reward sample_library sample_params sample_pool (pos 100)
      sample_coin_base paid_coin_base [] [] (ela_output foundation (pos 300))
      (ela_output address (pos 700)) refl refl address_is_not_foundation (omega arith, omega arith)
      thirty_of_hundred refl sample_split
