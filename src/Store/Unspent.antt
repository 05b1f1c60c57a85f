-- ===== src/Store/Unspent.antt =====
-- `persistUnspend` and `rollbackUnspend` of blockchain/chainstore.go: for each transaction, the
-- indices of its outputs that are not spent yet.
pub mod Ledger
pub mod Writable
pub mod Stored
pub mod Total
pub mod Restored
pub mod Regained
pub mod Rollback
pub mod Spent
pub mod Undone
use elastos_ela_side_chain_t.Base.{
  ℕ, suc, ◌+◌, ◌%◌, ◌^◌, Bytes, List, [], ◌∷◌, ◌++◌, Bool, Option, none, some, ◌==◌, if◌then◌else◌,
  Outcome, ok, ◌>>=◌, or_err,
}
use elastos_ela_side_chain_t.Base.Assoc.{bytes_Eq, lookup, insert}
use elastos_ela_side_chain_t.Types.{Uint256, Transaction, Input, Output, Block}
use elastos_ela_side_chain_t.Library.{Library}
use elastos_ela_side_chain_t.Format.{Format}
use elastos_ela_side_chain_t.Store.Database.{StoreError, Database, Layout, Op, Batch}
use elastos_ela_side_chain_t.Store.Count.{remove_value}

-- `map[Uint256][]uint16`
abbrev pub Unspents : Type 0
Unspents = List (Uint256 × List ℕ)

-- `m[k]` where a missing key reads as an empty slice.
abbrev pub or_empty {ℓ} : {A : Type ℓ} → Option (List A) → List A
or_empty none = []
or_empty (some l) = l

module _ (lib : Library) (format : Format) (layout : Layout) where
  -- The byte `IX_Unspent` and the hash.
  unfoldable pub unspent_key : Uint256 → Bytes
  unspent_key h = layout.ix_unspent ∷ format.uint256_bytes h

  -- `for index := range txn.Outputs`, from the index `i` on.
  unfoldable pub add_outputs : Uint256 → List Output → ℕ → Unspents → Unspents
  add_outputs h [] i unspents = unspents
  add_outputs h (o ∷ os) i unspents =
      add_outputs h os (suc i)
        (insert h (or_empty (lookup h unspents) ++ (i % 2 ^ 16 ∷ [])) unspents)

  -- The unspent indices of a transaction: from the map, or read from the store.
  unfoldable pub read_unspent : Database → Option (List ℕ) → Uint256 → Outcome StoreError (List ℕ)
  read_unspent db (some l) h = ok l
  read_unspent db none h = do
    value ← or_err (db.get (unspent_key h)) StoreError.not_found
    or_err (layout.get_uint16_array value) StoreError.bad_value

  -- The body of the loop over the inputs. An index that is not there is passed over.
  unfoldable pub spend_input : Database → Unspents → Input → Outcome StoreError Unspents
  unfolding read_unspent
  spend_input db unspents input = do
    l ← read_unspent db (lookup input.previous_tx_id unspents) input.previous_tx_id
    ok (insert input.previous_tx_id (remove_value (input.previous_index % 2 ^ 16) l) unspents)

  unfoldable pub spend_inputs : Database → Unspents → List Input → Outcome StoreError Unspents
  spend_inputs db unspents [] = ok unspents
  spend_inputs db unspents (input ∷ inputs) = do
    unspents' ← spend_input db unspents input
    spend_inputs db unspents' inputs

  -- The body of the loop over the transactions.
  unfoldable pub unspend_txn : Database → Unspents → Transaction → Outcome StoreError Unspents
  unspend_txn db unspents txn =
      let created = add_outputs (lib.hash txn) txn.outputs 0 unspents in
      if lib.is_coin_base_tx txn then ok created else spend_inputs db created txn.inputs

  unfoldable pub unspend_txns : Database → Unspents → List Transaction → Outcome StoreError Unspents
  unspend_txns db unspents [] = ok unspents
  unspend_txns db unspents (txn ∷ txns) = do
    unspents' ← unspend_txn db unspents txn
    unspend_txns db unspents' txns

  -- What the last loop writes for one transaction.
  unfoldable pub unspent_op : Uint256 × List ℕ → Op
  unspent_op (h, []) = Op.delete (unspent_key h)
  unspent_op (h, i ∷ l) = Op.put (unspent_key h) (layout.to_byte_array (i ∷ l))

  -- The last loop, in the order of insertion; Go's order is arbitrary.
  unfoldable pub write_unspents : Unspents → Batch
  unfolding unspent_op
  write_unspents [] = []
  write_unspents (e ∷ unspents) = unspent_op e ∷ write_unspents unspents

  -- `persistUnspend`
  unfoldable pub persist_unspend : Database → Batch → Block → Outcome StoreError Batch
  persist_unspend db batch b = do
    unspents ← unspend_txns db [] b.transactions
    ok (batch ++ write_unspents unspents)

  -- `if len(unspentValue) != 0`
  unfoldable pub decode_spent : Bytes → Outcome StoreError (List ℕ)
  decode_spent [] = ok []
  decode_spent (x ∷ value) = or_err (layout.get_uint16_array (x ∷ value)) StoreError.bad_value

  -- In `rollbackUnspend` an error of `Get` and an empty value both read as no indices.
  unfoldable pub read_spent : Database → Option (List ℕ) → Uint256 → Outcome StoreError (List ℕ)
  read_spent db (some l) h = ok l
  read_spent db none h = decode_spent (or_empty (db.get (unspent_key h)))

  unfoldable pub restore_input : Database → Unspents → Input → Outcome StoreError Unspents
  unfolding read_spent
  restore_input db unspents input = do
    l ← read_spent db (lookup input.previous_tx_id unspents) input.previous_tx_id
    ok (insert input.previous_tx_id (l ++ (input.previous_index ∷ [])) unspents)

  unfoldable pub restore_inputs : Database → Unspents → List Input → Outcome StoreError Unspents
  restore_inputs db unspents [] = ok unspents
  restore_inputs db unspents (input ∷ inputs) = do
    unspents' ← restore_input db unspents input
    restore_inputs db unspents' inputs

  -- The loop over the transactions: the batch so far, and the map.
  unfoldable pub restore_txns :
      Database → Batch → Unspents → List Transaction → Outcome StoreError (Batch × Unspents)
  restore_txns db batch unspents [] = ok (batch, unspents)
  restore_txns db batch unspents (txn ∷ txns) = do
    let batch' = batch ++ (Op.delete (unspent_key (lib.hash txn)) ∷ [])
    unspents' ←
        (if lib.is_coin_base_tx txn then ok unspents else restore_inputs db unspents txn.inputs)
    restore_txns db batch' unspents' txns

  -- `rollbackUnspend`
  unfoldable pub rollback_unspend : Database → Batch → Block → Outcome StoreError Batch
  rollback_unspend db batch b = do
    (deleted, unspents) ← restore_txns db batch [] b.transactions
    ok (deleted ++ write_unspents unspents)
