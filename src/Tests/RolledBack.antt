-- ===== src/Tests/RolledBack.antt =====
-- Witnesses: the theorems on the rollback of a block, on sample blocks.
use elastos_ela_side_chain_t.Base.{
  ℕ, ◌≡◌, ◌≤◌, ◌<◌, ◌^◌, false, refl, [], ◌∷◌, none, some, ok, Bytes, if◌then◌else◌, replicate,
  bytes_eq, bytes_eq_iff, arith, All, Bool-cases, inl, inr,
}
use elastos_ela_side_chain_t.Base.Assoc.{lookup, insert}
use elastos_ela_side_chain_t.Types.{TxType, Transaction, Block, Input, transfer}
use elastos_ela_side_chain_t.Store.Database.{Database, Batch, Op, commit, committed}
use elastos_ela_side_chain_t.Store.Removal.{find_index, swap_remove, put_last}
use elastos_ela_side_chain_t.Store.Count.{count, count_if, remove_value}
use elastos_ela_side_chain_t.Store.Unspent.{
  unspent_key, add_outputs, read_unspent, spend_input, spend_inputs, unspend_txn, unspend_txns,
  unspent_op, write_unspents, persist_unspend, decode_spent, read_spent, restore_input,
  restore_inputs, restore_txns, rollback_unspend,
}
use elastos_ela_side_chain_t.Store.Unspent.Ledger.{decode_stored, stored}
use elastos_ela_side_chain_t.Store.Unspent.Restored.{IsSound, spent_inputs, has_hash, spends}
use elastos_ela_side_chain_t.Store.Unspent.Rollback.{rollback_ledger, rollback_unspend-refines}
use elastos_ela_side_chain_t.Store.Unspent.Undone.{LeavesUnspent, rollback_unspend-persist_unspend}
use elastos_ela_side_chain_t.Store.UtxoSet.{rollback_utxos_txns}
use elastos_ela_side_chain_t.Store.UtxoSet.Rollback.{
  Follows, rollback_utxo_ledger, rollback_utxos_txns-Follows,
}
use elastos_ela_side_chain_t.Tests.Samples.{
  sample_library, sample_format, sample_layout, sample_database, sample_transaction, spend,
}
use elastos_ela_side_chain_t.Tests.Saved.{
  sample_transfer, sample_block, coin_base_database, empty_ledger, no_read_panics, empty_agrees,
}

-- A store with both outputs of the coinbase, and a block that spends the first.
abbrev stored_database : Database
stored_database = record {
  get = λ k. if bytes_eq k (144 ∷ replicate 32 7) then some (0 ∷ 1 ∷ []) else none;
  iterator = λ k. [];
  get_transaction = λ h. none;
}

abbrev spending_block : Block
spending_block = record { height = 13; transactions = sample_transfer ∷ [] }

abbrev spending_batch : Batch
spending_batch =
    Op.put (144 ∷ replicate 32 8) (0 ∷ []) ∷ Op.put (144 ∷ replicate 32 7) (1 ∷ []) ∷ []

spending_block_persists :
    persist_unspend sample_library sample_format sample_layout stored_database [] spending_block
    ≡ ok spending_batch
unfolding persist_unspend unspend_txns unspend_txn add_outputs spend_inputs spend_input read_unspent
    write_unspents unspent_op unspent_key insert lookup remove_value find_index swap_remove put_last
    bytes_eq
spending_block_persists = refl

no_batch : LeavesUnspent sample_library sample_format sample_layout stored_database []
unfolding commit
no_batch h = refl

no_batch_later :
    LeavesUnspent sample_library sample_format sample_layout
      (committed stored_database spending_batch)
      []
unfolding commit
no_batch_later h = refl

stored_database-IsSound : IsSound sample_library sample_format sample_layout stored_database
stored_database-IsSound h value held =
    let found : value ≡ 0 ∷ 1 ∷ [] = ground (arith, held) in (0 ∷ 1 ∷ [], rw found refl)

spent_output : spent_inputs sample_library spending_block.transactions ≡ spend 7 0 ∷ []
unfolding spent_inputs
spent_output = refl

enough_stored :
    (h : Bytes) (j : ℕ)
    → spends h j (spent_inputs sample_library spending_block.transactions)
      ≤ count j (stored sample_library sample_format sample_layout stored_database h)
unfolding spends stored decode_stored unspent_key count_if bytes_eq
enough_stored h j = elim (Bool-cases (bytes_eq (replicate 32 7) h)) [
  | inl is ↦ rw (spent_output, ← (bytes_eq_iff (replicate 32 7) h).0 is) (ground arith)
  | inr other ↦ rw (spent_output, other) (ground arith)
]

fresh_stored :
    All
      (λ txn.
        stored sample_library sample_format sample_layout stored_database (sample_library.hash txn)
        ≡ [])
      spending_block.transactions
unfolding stored decode_stored unspent_key bytes_eq
fresh_stored = (refl, tt)

small_index :
    All
      (λ (i : Input). i.previous_index < 2 ^ 16)
      (spent_inputs sample_library spending_block.transactions)
small_index = rw spent_output (omega arith, tt)

earlier_input :
    All
      (λ (i : Input). has_hash sample_library i.previous_tx_id spending_block.transactions ≡ false)
      (spent_inputs sample_library spending_block.transactions)
unfolding has_hash bytes_eq
earlier_input = rw spent_output (refl, tt)

rollback_unspend-persist_unspend_example :
    (undone : Batch) × (rollback_unspend sample_library sample_format sample_layout
        (committed stored_database spending_batch)
        []
        spending_block
      ≡ ok undone)
    × ((h : Bytes) (j : ℕ)
        → count j (
            stored sample_library sample_format sample_layout
              (committed (committed stored_database spending_batch) undone)
              h)
          ≡ count j (stored sample_library sample_format sample_layout stored_database h))
rollback_unspend-persist_unspend_example =
    rollback_unspend-persist_unspend sample_library sample_format sample_layout stored_database []
      [] spending_block {made = spending_batch} spending_block_persists no_batch no_batch_later
      stored_database-IsSound fresh_stored small_index earlier_input enough_stored

abbrev restoring_batch : Batch
restoring_batch =
    Op.delete (144 ∷ replicate 32 7)
    ∷ Op.delete (144 ∷ replicate 32 8)
    ∷ Op.put (144 ∷ replicate 32 7) (0 ∷ [])
    ∷ []

-- The coinbase is of the block too: its spent output comes back, though the coinbase is gone.
sample_block_rolls_back :
    rollback_unspend sample_library sample_format sample_layout sample_database [] sample_block
    ≡ ok restoring_batch
unfolding rollback_unspend restore_txns restore_inputs restore_input read_spent decode_spent
    write_unspents unspent_op unspent_key insert lookup bytes_eq
sample_block_rolls_back = refl

sample_indices :
    All
      (λ (i : Input). i.previous_index < 2 ^ 16)
      (spent_inputs sample_library sample_block.transactions)
unfolding spent_inputs
sample_indices = (omega arith, tt)

rollback_unspend-refines_example :
    count 0 (
      stored sample_library sample_format sample_layout
        (committed sample_database restoring_batch)
        (replicate 32 7))
    ≡ rollback_ledger sample_library sample_block.transactions
        (λ g i. count i (stored sample_library sample_format sample_layout sample_database g))
        (replicate 32 7)
        0
rollback_unspend-refines_example =
    rollback_unspend-refines sample_library sample_format sample_layout sample_database []
      sample_block {batch' = restoring_batch} sample_block_rolls_back (λ h. unfold commit in refl)
      sample_indices (replicate 32 7) 0

-- A transaction without outputs that spends the first output of the coinbase.
abbrev spending : Transaction
spending = sample_transaction TxType.transfer_asset transfer (spend 7 0 ∷ []) [] 8

rollback_utxos_txns-Follows_example :
    Follows sample_library sample_format sample_layout coin_base_database
      (rollback_utxos_txns sample_library sample_format sample_layout coin_base_database 13 []
        (spending ∷ []))
      (rollback_utxo_ledger sample_library coin_base_database 13 (spending ∷ []) empty_ledger)
rollback_utxos_txns-Follows_example =
    rollback_utxos_txns-Follows sample_library sample_format sample_layout coin_base_database 13
      (spending ∷ []) [] empty_ledger no_read_panics empty_agrees
