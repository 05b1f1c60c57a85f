-- ===== src/Store/Unspent/Undone.antt =====
-- A block persisted by `persistUnspend` and rolled back by `rollbackUnspend`.
use elastos_ela_side_chain_t.Base.{
  ℕ, ◌≤◌, ◌≡◌, refl, sym, ◌∙◌, Bytes, List, [], ◌∷◌, Option, some, bytes_eq, bytes_eq_iff, All, ok,
  >>=-eq-ok, ok-injective, arith, Option-cases, Bool-cases, inl, inr, true, false,
}
use elastos_ela_side_chain_t.Base.Assoc.{bytes_Eq, lookup}
use elastos_ela_side_chain_t.Types.{Uint256, Transaction, Input, Block}
use elastos_ela_side_chain_t.Library.{Library}
use elastos_ela_side_chain_t.Format.{Format}
use elastos_ela_side_chain_t.Store.Database.{Database, Layout, Batch, commit, committed}
use elastos_ela_side_chain_t.Store.Count.{count, count_if}
use elastos_ela_side_chain_t.Store.Unspent.{
  Unspents, unspent_key, unspend_txns, persist_unspend, rollback_unspend,
}
use elastos_ela_side_chain_t.Store.Unspent.Ledger.{Ledger, block_ledger, stored}
use elastos_ela_side_chain_t.Store.Unspent.Writable.{
  IsUint16, IsWritable, IsWritable-nil, IsWritable-unspend_txns,
}
use elastos_ela_side_chain_t.Store.Unspent.Restored.{
  refers, spends, spent_inputs, has_hash, IsSound,
}
use elastos_ela_side_chain_t.Store.Unspent.Spent.{
  block_ledger-earlier, refers-has_hash, spends-unnamed,
}
use elastos_ela_side_chain_t.Store.Unspent.Stored.{
  after, written, commit-append_write, persist_unspend-refines,
}
use elastos_ela_side_chain_t.Store.Unspent.Rollback.{
  rollback_ledger, rollback_unspend-total, rollback_unspend-refines,
}

-- On ledgers, the rollback takes the block back.
rollback_ledger-block_ledger :
    (lib : Library) (txns : List Transaction) (u v : Ledger) (h : Uint256) (j : ℕ)
    → v h j ≡ block_ledger lib txns u h j
    → (has_hash lib h txns ≡ true → u h j ≡ 0)
    → All (λ (i : Input). IsUint16 i.previous_index) (spent_inputs lib txns)
    → All (λ (i : Input). has_hash lib i.previous_tx_id txns ≡ false) (spent_inputs lib txns)
    → spends h j (spent_inputs lib txns) ≤ u h j
    → rollback_ledger lib txns v h j ≡ u h j
unfolding rollback_ledger
rollback_ledger-block_ledger lib txns u v h j made fresh fits earlier enough =
    elim (Bool-cases (refers h (spent_inputs lib txns))) [
      | inl is ↦
          let other = refers-has_hash lib (spent_inputs lib txns) txns h earlier is in
          let less = block_ledger-earlier lib txns u h j other fits in
          rw is (omega (arith, made, less, enough))
      | inr is ↦
          let unnamed = spends-unnamed (spent_inputs lib txns) h j is in
          elim (Bool-cases (has_hash lib h txns)) [
            | inl in_block ↦ rw (is, in_block) (sym (fresh in_block))
            | inr other ↦
                let less = block_ledger-earlier lib txns u h j other fits in
                rw (is, other) (omega (arith, made, less, unnamed))
          ]
    ]

module _ (lib : Library) (format : Format) (layout : Layout) (db : Database) where
  -- A batch that leaves the stored indices alone.
  abbrev pub LeavesUnspent : Batch → Type 0
  LeavesUnspent ops =
      (h : Uint256)
      → commit ops db.get (unspent_key lib format layout h)
        ≡ db.get (unspent_key lib format layout h)

module _ (lib : Library) (format : Format) (layout : Layout) (db : Database) where
  fresh-count :
      (txns : List Transaction) (h : Uint256) (j : ℕ)
      → All (λ txn. stored lib format layout db (lib.hash txn) ≡ []) txns
      → has_hash lib h txns ≡ true
      → count j (stored lib format layout db h) ≡ 0
  unfolding has_hash count_if
  fresh-count [] h j fresh e = absurd (ground arith)
  fresh-count (txn ∷ txns) h j fresh e = elim (Bool-cases (bytes_eq (lib.hash txn) h)) [
    | inl same ↦ rw (← (bytes_eq_iff (lib.hash txn) h).0 same, fresh.0) refl
    | inr other ↦ fresh-count txns h j fresh.1 (ground arith)
  ]

  IsSound-after :
      (m : Unspents) (h : Uint256) (old : Option Bytes) (value : Bytes)
      → IsWritable m
      → ((v : Bytes) → old ≡ some v → (l : List ℕ) × (layout.get_uint16_array v ≡ some l))
      → after lib format layout db (lookup h m) old ≡ some value
      → (l : List ℕ) × (layout.get_uint16_array value ≡ some l)
  unfolding after written
  IsSound-after m h old value w sound e = elim (Option-cases (lookup h m)) [
    | inl miss ↦ sound value (rw miss at e)
    | inr ([], hit) ↦ absurd (ground arith)
    | inr (i ∷ l, hit) ↦
        let found : layout.to_byte_array (i ∷ l) ≡ value = ground arith in
        (
          i ∷ l,
          rw (← found) (layout.get_uint16_array-to_byte_array (i ∷ l) (w.ranged h (i ∷ l) hit)),
        )
  ]

  -- Once a block is persisted, the values under the keys of unspent indices can still be read.
  persist_unspend-IsSound :
      (batch : Batch) (b : Block) {batch' : Batch}
      → persist_unspend lib format layout db batch b ≡ ok batch'
      → LeavesUnspent lib format layout db batch
      → IsSound lib format layout db
      → IsSound lib format layout (committed db batch')
  unfolding persist_unspend committed
  persist_unspend-IsSound batch b {batch'} e untouched sound h value held =
      let (m, made, put) = >>=-eq-ok (unspend_txns lib format layout db [] b.transactions) _ e in
      let w = IsWritable-unspend_txns lib format layout db b.transactions [] made IsWritable-nil in
      let k = unspent_key lib format layout h in
      let left : after lib format layout db (lookup h m) (db.get k) ≡ some value =
        rw (← ok-injective put, commit-append_write lib format layout db batch m h w (untouched h))
          at held in
      IsSound-after m h (db.get k) value w (sound h) left

  -- A block that is persisted and then rolled back leaves every count of unspent outputs as it was, and
  -- the rollback succeeds: where the values under the keys of unspent indices can be read, the
  -- inputs of the block's ordinary transactions have uint16 indices and name no transaction of the
  -- block, none of them spends more than is stored, nothing is stored for the block's transactions,
  -- and the batches before leave the stored indices alone.
  pub rollback_unspend-persist_unspend :
      (before later : Batch) (b : Block) {made : Batch}
      → persist_unspend lib format layout db before b ≡ ok made
      → LeavesUnspent lib format layout db before
      → LeavesUnspent lib format layout (committed db made) later
      → IsSound lib format layout db
      → All (λ txn. stored lib format layout db (lib.hash txn) ≡ []) b.transactions
      → All (λ (i : Input). IsUint16 i.previous_index) (spent_inputs lib b.transactions)
      → All
          (λ (i : Input). has_hash lib i.previous_tx_id b.transactions ≡ false)
          (spent_inputs lib b.transactions)
      → ((h : Uint256) (j : ℕ)
          → spends h j (spent_inputs lib b.transactions) ≤ count j (stored lib format layout db h))
      → (undone : Batch) × (rollback_unspend lib format layout (committed db made) later b
          ≡ ok undone)
        × ((h : Uint256) (j : ℕ)
            → count j (stored lib format layout (committed (committed db made) undone) h)
              ≡ count j (stored lib format layout db h))
  rollback_unspend-persist_unspend before later b {made} e untouched untouched_later sound fresh
        fits earlier enough =
      let db' = committed db made in
      let (undone, e') =
        rollback_unspend-total lib format layout db' later b
          (persist_unspend-IsSound before b e untouched sound) in
      (
        undone,
        e',
        λ h j.
            rollback_unspend-refines lib format layout db' later b e' untouched_later fits h j
            ∙ rollback_ledger-block_ledger lib b.transactions
                (λ g i. count i (stored lib format layout db g))
                (λ g i. count i (stored lib format layout db' g)) h j
                (persist_unspend-refines lib format layout db before b e untouched fresh h j)
                (fresh-count b.transactions h j fresh) fits earlier (enough h j),
      )
