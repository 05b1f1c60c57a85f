-- ===== src/Tests/Settled.antt =====
-- Witness: the unspent outputs in the store after the sample block.
use mathlib.Core.Path.{subst}
use mathlib.Core.Option.{some-injective}
use elastos_ela_side_chain_t.Base.{
  ℕ, pos, ◌<◌, ◌^◌, ◌≡◌, refl, sym, ◌∙◌, [], ◌∷◌, List, some, ok, ok-injective, replicate, All,
  bytes_eq, arith,
}
use elastos_ela_side_chain_t.Base.Assoc.{lookup, insert}
use elastos_ela_side_chain_t.Types.{Uint256, Transaction}
use elastos_ela_side_chain_t.Store.Database.{Batch, commit, committed}
use elastos_ela_side_chain_t.Store.Removal.{find_index, swap_remove, put_last}
use elastos_ela_side_chain_t.Store.Count.{count_if}
use elastos_ela_side_chain_t.Store.Utxo.{
  Utxo, UtxoKey, value_bytes, get_unspent_element_from_program_hash,
}
use elastos_ela_side_chain_t.Store.UtxoSet.{
  UtxoMap, is_utxo, stored_unspents, utxos_txns, utxos_txn, create_utxos, spend_utxos, spend_utxo,
  held_or, or_no_utxos, or_no_unspent, take_utxo, utxo_of, persist_unspend_utxos,
}
use elastos_ela_side_chain_t.Store.UtxoSet.Ledger.{
  UtxoLedger, utxo_ledger, utxo_ledger_txn, losses, lose_reference, lose_output, lose, gains, gain,
  list_of,
}
use elastos_ela_side_chain_t.Store.UtxoSet.Stored.{IsKey}
use elastos_ela_side_chain_t.Store.UtxoSet.Held.{IsOutput, InRange}
use elastos_ela_side_chain_t.Store.UtxoSet.Settled.{IsShort, persist_unspend_utxos-settles}
use elastos_ela_side_chain_t.Tests.Samples.{
  sample_library, sample_format, sample_layout, foundation, address, ela_id, ela_output,
}
use elastos_ela_side_chain_t.Tests.Saved.{
  sample_coin_base, sample_block, coin_base_database, empty_ledger, no_read_panics, empty_agrees,
}

-- The first output of the coinbase is spent; its second and that of the transfer are left.
abbrev left_utxos : List Utxo
left_utxos =
    utxo_of sample_library sample_format (replicate 32 7) 1 (ela_output address (pos 700))
    ∷ utxo_of sample_library sample_format (replicate 32 8) 0 (ela_output address (pos 200))
    ∷ []

abbrev left_map : UtxoMap
left_map = ((foundation, ela_id, 12), []) ∷ ((address, ela_id, 12), left_utxos) ∷ []

sample_block_leaves :
    utxos_txns sample_library sample_format sample_layout coin_base_database 12 []
      sample_block.transactions
    ≡ ok left_map
unfolding utxos_txns utxos_txn create_utxos spend_utxos spend_utxo held_or or_no_utxos or_no_unspent
    take_utxo utxo_of stored_unspents get_unspent_element_from_program_hash is_utxo lookup insert
    find_index swap_remove put_last bytes_eq value_bytes
sample_block_leaves = refl

-- The ledger after the block.
abbrev left_ledger : UtxoLedger
left_ledger =
    lose (foundation, ela_id, 12) (replicate 32 7) 0
      (gain (address, ela_id, 12) (replicate 32 8) 0
        (gain (address, ela_id, 12) (replicate 32 7) 1
          (gain (foundation, ela_id, 12) (replicate 32 7) 0 empty_ledger)))

sample_block_is_accepted :
    utxo_ledger sample_library coin_base_database 12 sample_block.transactions empty_ledger
    ≡ some left_ledger
unfolding utxo_ledger utxo_ledger_txn losses lose_reference lose_output gains gain bytes_eq
sample_block_is_accepted = refl

sample-IsOutput :
    (n : ℕ) (v : ℕ)
    → IsOutput sample_library sample_format sample_layout coin_base_database
        (ela_output (33 ∷ replicate 20 n) (pos v))
unfolding value_bytes bytes_eq
sample-IsOutput n v = record { program_hash = refl; asset_id = refl; amount = omega arith }

coin_base_outputs :
    All
      (IsOutput sample_library sample_format sample_layout coin_base_database)
      sample_coin_base.outputs
coin_base_outputs = (sample-IsOutput 9 300, (sample-IsOutput 5 700, tt))

coin_base_database-InRange : InRange sample_library sample_format sample_layout coin_base_database
unfolding stored_unspents get_unspent_element_from_program_hash
coin_base_database-InRange = record {
  hash = λ txn. refl;
  transaction = λ h {txn} {height} found.
      subst
        (λ (r : Transaction × ℕ).
          All (IsOutput sample_library sample_format sample_layout coin_base_database) r.0.outputs
          × (r.1 < 2 ^ 32))
        (some-injective (sample_coin_base, 12) (txn, height) found)
        (coin_base_outputs, omega arith);
  unspents = λ k us read. absurd (cc);
}

left-IsShort :
    (m : UtxoMap)
    → utxos_txns sample_library sample_format sample_layout coin_base_database 12 []
        sample_block.transactions
      ≡ ok m
    → All (IsShort sample_layout) m
left-IsShort m made =
    subst (All (IsShort sample_layout)) (ok-injective (sym sample_block_leaves ∙ made))
      ((omega arith, refl), ((omega arith, refl), tt))

persist_unspend_utxos-settles_example :
    (made : Batch) × (persist_unspend_utxos sample_library sample_format sample_layout
        coin_base_database [] sample_block
      ≡ ok made)
    × ((k : UtxoKey) (h : Uint256) (i : ℕ)
        → IsKey k
        → count_if (is_utxo sample_library h i) (
            list_of (
              stored_unspents sample_library sample_format sample_layout
                (committed coin_base_database made)
                k))
          ≡ left_ledger k h i)
persist_unspend_utxos-settles_example =
    persist_unspend_utxos-settles sample_library sample_format sample_layout coin_base_database []
      sample_block empty_ledger {u' = left_ledger} sample_block_is_accepted
      coin_base_database-InRange (omega arith)
      (coin_base_outputs, ((sample-IsOutput 5 200, tt), tt)) left-IsShort
      (λ k. unfold commit in refl) no_read_panics empty_agrees
