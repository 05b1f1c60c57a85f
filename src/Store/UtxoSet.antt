-- ===== src/Store/UtxoSet.antt =====
-- `persistUnspendUTXOs` and `rollbackUnspendUTXOs` of blockchain/chainstore.go. The nested maps are
-- one map from the three keys; an inner map that is made and left empty writes nothing.
pub mod Ledger
pub mod Held
pub mod Settled
pub mod Refinement
pub mod Rollback
pub mod Stored
use elastos_ela_side_chain_t.Base.{
  ℕ, suc, ◌+◌, ◌%◌, ◌^◌, ◌≡◌, refl, ◌↔◌, Bytes, List, [], ◌∷◌, ◌++◌, Bool, true, false, Option,
  none, some, ◌&&◌, ◌==◌, ==_iff, if◌then◌else◌, bytes_eq, bytes_eq_iff, length, leb, Outcome, ok,
  err, panic, ◌>>=◌, or_err, or_panic, get_elem?, arith,
}
use elastos_ela_side_chain_t.Base.Assoc.{Eq, lookup, insert}
use elastos_ela_side_chain_t.Types.{Uint256, Transaction, Input, Output, Block}
use elastos_ela_side_chain_t.Library.{Library}
use elastos_ela_side_chain_t.Format.{Format}
use elastos_ela_side_chain_t.Store.Database.{StoreError, Database, Layout, Batch, Op}
use elastos_ela_side_chain_t.Store.Removal.{find_index, swap_remove, remove_at}
use elastos_ela_side_chain_t.Store.Utxo.{
  Utxo, UtxoKey, value_bytes, persist_unspent_with_program_hash,
  get_unspent_element_from_program_hash,
}

abbrev pub key_beq : UtxoKey → UtxoKey → Bool
key_beq (p, a, h) (q, b, i) = bytes_eq p q && bytes_eq a b && h == i

pub key_beq_iff : (k j : UtxoKey) → (key_beq k j ≡ true) ↔ (k ≡ j)
key_beq_iff (p, a, h) (q, b, i) = ground (arith, bytes_eq_iff p q, bytes_eq_iff a b, ==_iff h i)

instance abbrev pub key_Eq : Eq UtxoKey
key_Eq = record { eqb = key_beq; eqb_iff = key_beq_iff }

abbrev pub UtxoMap : Type 0
UtxoMap = List (UtxoKey × List Utxo)

-- `if _, ok := m[k]; !ok { … }`: the list of the map, or what the store gives.
unfoldable pub held_or :
    Option (List Utxo) → Outcome StoreError (List Utxo) → Outcome StoreError (List Utxo)
held_or none read = read
held_or (some l) read = ok l

-- An error of the read leaves an empty list.
unfoldable pub or_no_utxos : Outcome StoreError (List Utxo) → Outcome StoreError (List Utxo)
or_no_utxos (ok l) = ok l
or_no_utxos (err _) = ok []
or_no_utxos panic = panic

-- An error of the read is answered by another.
unfoldable pub or_no_unspent : Outcome StoreError (List Utxo) → Outcome StoreError (List Utxo)
or_no_unspent (ok l) = ok l
or_no_unspent (err _) = err StoreError.no_unspent
or_no_unspent panic = panic

abbrev pub key_of : Output → ℕ → UtxoKey
key_of o height = (o.program_hash, o.asset_id, height)

-- The element that is taken out, if one was found.
unfoldable pub take_utxo : Option ℕ → List Utxo → Outcome StoreError (List Utxo)
take_utxo none l = err StoreError.unspent_not_found
take_utxo (some i) l = ok (swap_remove i l)

-- `var position int`, set where the loop finds the element: 0 if it does not.
unfoldable pub position : Option ℕ → ℕ
position none = 0
position (some i) = i

-- `append(l[:position], l[position+1:]...)`; the slice expression panics behind the end.
unfoldable pub delete_at : ℕ → List Utxo → Outcome StoreError (List Utxo)
delete_at i l = if leb (suc i) (length l) then ok (remove_at i l) else panic

-- `u.TxID.IsEqual(h) && u.Index == i`
unfoldable pub is_utxo : Library → Uint256 → ℕ → Utxo → Bool
is_utxo lib h i u = lib.is_equal u.tx_id h && u.index == i

-- `utxo{txn.Hash(), uint32(index), assetID, valueBytes}`
unfoldable pub utxo_of : Library → Format → Uint256 → ℕ → Output → Utxo
utxo_of lib format h i o = record {
  tx_id = h;
  index = i % 2 ^ 32;
  asset_id = o.asset_id;
  value = value_bytes lib format o;
}

module _ (lib : Library) (format : Format) (layout : Layout) (db : Database) where
  unfoldable pub stored_unspents : UtxoKey → Outcome StoreError (List Utxo)
  stored_unspents key = get_unspent_element_from_program_hash format layout db key

  -- The loop over the outputs of a transaction, from the index `i` on.
  unfoldable pub create_utxos : ℕ → Uint256 → List Output → ℕ → UtxoMap → Outcome StoreError UtxoMap
  create_utxos height h [] i m = ok m
  create_utxos height h (o ∷ os) i m = do
    l ← held_or (lookup (key_of o height) m) (or_no_utxos (stored_unspents (key_of o height)))
    create_utxos height h os (suc i)
        (insert (key_of o height) (l ++ (utxo_of lib format h i o ∷ [])) m)

  -- The body of the loop over the inputs.
  unfoldable pub spend_utxo : UtxoMap → Input → Outcome StoreError UtxoMap
  spend_utxo m input = do
    (refer_txn, height) ← or_err (db.get_transaction input.previous_tx_id) StoreError.library_error
    o ← or_panic (get_elem? refer_txn.outputs input.previous_index)
    l ← held_or (lookup (key_of o height) m) (or_no_unspent (stored_unspents (key_of o height)))
    l' ←
        take_utxo (find_index (is_utxo lib (lib.hash refer_txn) (input.previous_index % 2 ^ 32)) l)
          l
    ok (insert (key_of o height) l' m)

  unfoldable pub spend_utxos : UtxoMap → List Input → Outcome StoreError UtxoMap
  spend_utxos m [] = ok m
  spend_utxos m (input ∷ inputs) = do m' ← spend_utxo m input; spend_utxos m' inputs

  -- The body of the loop over the transactions.
  unfoldable pub utxos_txn : ℕ → UtxoMap → Transaction → Outcome StoreError UtxoMap
  utxos_txn height m txn = do
    m' ← create_utxos height (lib.hash txn) txn.outputs 0 m
    (if lib.is_coin_base_tx txn then ok m' else spend_utxos m' txn.inputs)

  unfoldable pub utxos_txns : ℕ → UtxoMap → List Transaction → Outcome StoreError UtxoMap
  utxos_txns height m [] = ok m
  utxos_txns height m (txn ∷ txns) = do m' ← utxos_txn height m txn; utxos_txns height m' txns

  -- The last loops, in the order of insertion; Go's order is arbitrary.
  unfoldable pub write_utxos : UtxoMap → Batch
  write_utxos [] = []
  write_utxos ((key, l) ∷ m) = persist_unspent_with_program_hash format key l ∷ write_utxos m

  -- `persistUnspendUTXOs`
  unfoldable pub persist_unspend_utxos : Batch → Block → Outcome StoreError Batch
  persist_unspend_utxos batch b = do
    m ← utxos_txns b.height [] b.transactions
    ok (batch ++ write_utxos m)

  -- In `rollbackUnspendUTXOs`, the loop over the outputs.
  unfoldable pub remove_utxos : ℕ → Uint256 → List Output → ℕ → UtxoMap → Outcome StoreError UtxoMap
  remove_utxos height h [] i m = ok m
  remove_utxos height h (o ∷ os) i m = do
    l ← held_or (lookup (key_of o height) m) (or_no_unspent (stored_unspents (key_of o height)))
    l' ← delete_at (position (find_index (λ u. bytes_eq u.tx_id h && u.index == i % 2 ^ 32) l)) l
    remove_utxos height h os (suc i) (insert (key_of o height) l' m)

  -- The body of the loop over the inputs of the transaction `h`: the entry that it adds carries
  -- `h`, the hash of the transaction that spends.
  unfoldable pub restore_utxo : Uint256 → UtxoMap → Input → Outcome StoreError UtxoMap
  restore_utxo h m input = do
    (refer_txn, height) ← or_err (db.get_transaction input.previous_tx_id) StoreError.library_error
    o ← or_panic (get_elem? refer_txn.outputs input.previous_index)
    l ← held_or (lookup (key_of o height) m) (or_no_utxos (stored_unspents (key_of o height)))
    ok (insert (key_of o height) (l ++ (utxo_of lib format h input.previous_index o ∷ [])) m)

  unfoldable pub restore_utxos : Uint256 → UtxoMap → List Input → Outcome StoreError UtxoMap
  restore_utxos h m [] = ok m
  restore_utxos h m (input ∷ inputs) = do m' ← restore_utxo h m input; restore_utxos h m' inputs

  unfoldable pub rollback_utxos_txn : ℕ → UtxoMap → Transaction → Outcome StoreError UtxoMap
  rollback_utxos_txn height m txn = do
    m' ← remove_utxos height (lib.hash txn) txn.outputs 0 m
    (if lib.is_coin_base_tx txn then ok m' else restore_utxos (lib.hash txn) m' txn.inputs)

  unfoldable pub rollback_utxos_txns : ℕ → UtxoMap → List Transaction → Outcome StoreError UtxoMap
  rollback_utxos_txns height m [] = ok m
  rollback_utxos_txns height m (txn ∷ txns) = do
    m' ← rollback_utxos_txn height m txn
    rollback_utxos_txns height m' txns

  -- `rollbackUnspendUTXOs`
  unfoldable pub rollback_unspend_utxos : Batch → Block → Outcome StoreError Batch
  rollback_unspend_utxos batch b = do
    m ← rollback_utxos_txns b.height [] b.transactions
    ok (batch ++ write_utxos m)
