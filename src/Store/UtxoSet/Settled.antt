-- ===== src/Store/UtxoSet/Settled.antt =====
-- `persistUnspendUTXOs` of blockchain/chainstore.go on a block that the ledger accepts.
use mathlib.Core.Option.{some-injective}
use elastos_ela_side_chain_t.Base.{
  ℕ, ◌^◌, ◌<◌, ◌≡◌, ◌≢◌, sym, ap, ◌∙◌, List, [], ◌∷◌, some, true, length, All, Outcome-cases, ok,
  panic, inl, inr,
}
use elastos_ela_side_chain_t.Types.{Uint256, Block}
use elastos_ela_side_chain_t.Library.{Library}
use elastos_ela_side_chain_t.Format.{Format}
use elastos_ela_side_chain_t.Store.Database.{Database, Layout, Batch, commit, committed}
use elastos_ela_side_chain_t.Store.Count.{count_if}
use elastos_ela_side_chain_t.Store.Utxo.{Utxo, UtxoKey, utxo_key}
use elastos_ela_side_chain_t.Store.UtxoSet.{
  UtxoMap, is_utxo, stored_unspents, utxos_txns, persist_unspend_utxos,
}
use elastos_ela_side_chain_t.Store.UtxoSet.Ledger.{UtxoLedger, utxo_ledger, list_of, AgreesUtxo}
use elastos_ela_side_chain_t.Store.UtxoSet.Refinement.{utxos_txns-Refines}
use elastos_ela_side_chain_t.Store.UtxoSet.Stored.{
  IsKey, IsStorableList, IsStorable, persist_unspend_utxos-stored,
}
use elastos_ela_side_chain_t.Store.UtxoSet.Held.{Entry, IsOutput, InRange, utxos_txns-IsHeld}

-- A list that a Go slice can be made for.
abbrev pub IsShort : Layout → UtxoKey × List Utxo → Type 0
IsShort layout (k, us) = (length us < 2 ^ 64) × (layout.makes_slice (length us) ≡ true)

join :
    (layout : Layout) (m : UtxoMap)
    → All Entry m
    → All (IsShort layout) m
    → All (λ (e : UtxoKey × List Utxo). IsKey e.0 × IsStorableList layout e.1) m
join layout [] h short = tt
join layout ((k, us) ∷ m) h short =
    ((h.0.0, (short.0.0, short.0.1, h.0.1)), join layout m h.1 short.1)

module _ (lib : Library) (format : Format) (layout : Layout) (db : Database) where
  utxos_txns-IsStorable :
      (b : Block) {m : UtxoMap}
      → InRange lib format layout db
      → b.height < 2 ^ 32
      → All (λ txn. All (IsOutput lib format layout db) txn.outputs) b.transactions
      → utxos_txns lib format layout db b.height [] b.transactions ≡ ok m
      → All (IsShort layout) m
      → IsStorable layout m
  utxos_txns-IsStorable b {m} db_fits low outs made short =
      let held =
        utxos_txns-IsHeld lib format layout db db_fits b.height b.transactions [] low outs made
          (record { distinct = tt; entries = tt }) in
      record { distinct = held.distinct; entries = join layout m held.entries short }

  -- On a block that has a next state in the ledger, `persistUnspendUTXOs` succeeds, and its batch
  -- takes the unspent outputs that the store holds under a key in range to those of the ledger after
  -- the block: where hashes, outputs, heights and what the store holds are in range, no list of
  -- the map is too long for a slice, the batch before leaves what is under the keys alone, and no
  -- list in the store makes the read panic.
  pub persist_unspend_utxos-settles :
      (batch : Batch) (b : Block) (u : UtxoLedger) {u' : UtxoLedger}
      → utxo_ledger lib db b.height b.transactions u ≡ some u'
      → InRange lib format layout db
      → b.height < 2 ^ 32
      → All (λ txn. All (IsOutput lib format layout db) txn.outputs) b.transactions
      → ((m : UtxoMap)
          → utxos_txns lib format layout db b.height [] b.transactions ≡ ok m
          → All (IsShort layout) m)
      → ((k : UtxoKey) → commit batch db.get (utxo_key format k) ≡ db.get (utxo_key format k))
      → ((k : UtxoKey) → stored_unspents lib format layout db k ≢ panic)
      → AgreesUtxo lib format layout db [] u
      → (batch' : Batch) × (persist_unspend_utxos lib format layout db batch b ≡ ok batch')
        × ((k : UtxoKey) (h : Uint256) (i : ℕ)
            → IsKey k
            → count_if
                (is_utxo lib h i)
                (list_of (stored_unspents lib format layout (committed db batch') k))
              ≡ u' k h i)
  persist_unspend_utxos-settles batch b u {u'} accepts db_fits low outs short untouched safe agree =
      let refines =
        rw accepts at
          (utxos_txns-Refines lib format layout db b.height b.transactions [] u safe agree) in
      elim (Outcome-cases (utxos_txns lib format layout db b.height [] b.transactions)) [
        | inl (m, made) ↦
            let w = utxos_txns-IsStorable b db_fits low outs made (short m made) in
            let (v, next, batch', done, same) =
              persist_unspend_utxos-stored lib format layout db batch b m u made w untouched safe
                agree in
            let is : v ≡ u' = some-injective v u' (sym next ∙ accepts) in
            (batch', done, λ k h i key. same k h i key ∙ ap (λ f. f k h i) is)
        | inr (inl (e, failed)) ↦ absurd (rw failed at refines)
        | inr (inr failed) ↦ absurd (rw failed at refines)
      ]
