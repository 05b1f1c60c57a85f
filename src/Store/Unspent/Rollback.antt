-- ===== src/Store/Unspent/Rollback.antt =====
-- What the batch of `rollbackUnspend` leaves in the store.
use mathlib.Core.Path.{subst}
use elastos_ela_side_chain_t.Base.{
  ℕ, ◌+◌, ◌≡◌, refl, Bytes, List, [], ◌∷◌, ◌++◌, Option, none, if◌then◌else◌, bytes_eq, All, ok,
  ◌>>=◌, >>=-eq-ok, ok-injective, arith, Option-cases, Outcome-cases, Bool-cases, inl, inr,
}
use elastos_ela_side_chain_t.Base.Assoc.{bytes_Eq, lookup, Distinct}
use elastos_ela_side_chain_t.Types.{Uint256, Transaction, Input, Block}
use elastos_ela_side_chain_t.Library.{Library}
use elastos_ela_side_chain_t.Format.{Format}
use elastos_ela_side_chain_t.Store.Database.{
  Database, Layout, Batch, commit, commit-append, committed,
}
use elastos_ela_side_chain_t.Store.Count.{count, count_if}
use elastos_ela_side_chain_t.Store.Unspent.{
  Unspents, unspent_key, restore_inputs, write_unspents, rollback_unspend,
}
use elastos_ela_side_chain_t.Store.Unspent.Ledger.{Ledger, decode_stored, stored, view}
use elastos_ela_side_chain_t.Store.Unspent.Writable.{IsUint16, IsWritable, IsWritable-nil}
use elastos_ela_side_chain_t.Store.Unspent.Restored.{
  refers, spends, spent_inputs, has_hash, deletions, restore_txns-eq, IsSound, is_held,
}
use elastos_ela_side_chain_t.Store.Unspent.Regained.{
  restore_inputs-count, restore_inputs-held, restore_inputs-IsWritable, restore_inputs-total,
}
use elastos_ela_side_chain_t.Store.Unspent.Stored.{after, key_eq, commit-write, decode-written}

-- The abstract effect of the rollback: an index comes back for each input of an ordinary
-- transaction; without one, nothing is left of a transaction of the block.
unfoldable pub rollback_ledger : Library → List Transaction → Ledger → Ledger
rollback_ledger lib txns u h j =
    if refers h (spent_inputs lib txns)
    then u h j + spends h j (spent_inputs lib txns)
    else if has_hash lib h txns
    then 0
    else u h j

module _ (lib : Library) (format : Format) (layout : Layout) (db : Database) where
  commit-deletions :
      (txns : List Transaction) (get : Bytes → Option Bytes) (h : Uint256)
      → commit (deletions lib format layout txns) get (unspent_key lib format layout h)
        ≡ (if has_hash lib h txns then none else get (unspent_key lib format layout h))
  unfolding commit deletions has_hash
  commit-deletions [] get h = refl
  commit-deletions (txn ∷ txns) get h = ground (
    arith,
    commit-deletions txns
        (λ i. if bytes_eq (unspent_key lib format layout (lib.hash txn)) i then none else get i) h,
    key_eq lib format layout db (lib.hash txn) h,
  )

  -- A rollback is one loop over the inputs that the block spends, the deletions, and the map.
  rollback_unspend-eq :
      (batch : Batch) (b : Block)
      → rollback_unspend lib format layout db batch b ≡ (
          restore_inputs lib format layout db [] (spent_inputs lib b.transactions) >>= λ m. ok (
            (batch ++ deletions lib format layout b.transactions)
            ++ write_unspents lib format layout m))
  unfolding rollback_unspend
  rollback_unspend-eq batch b =
      rw (restore_txns-eq lib format layout db b.transactions batch [])
        (elim (Outcome-cases
          (restore_inputs lib format layout db [] (spent_inputs lib b.transactions))) [
            | inl (m, e) ↦ rw e refl
            | inr (inl (x, e)) ↦ rw e refl
            | inr (inr e) ↦ rw e refl
          ])

  -- `rollbackUnspend` succeeds where the values under the keys of unspent indices are arrays.
  pub rollback_unspend-total :
      (batch : Batch) (b : Block)
      → IsSound lib format layout db
      → (batch' : Batch) × (rollback_unspend lib format layout db batch b ≡ ok batch')
  rollback_unspend-total batch b sound =
      let (m, e) =
        restore_inputs-total lib format layout db (spent_inputs lib b.transactions) [] sound in
      let batch' : Batch =
        (batch ++ deletions lib format layout b.transactions)
        ++ write_unspents lib format layout m in
      (batch', rw (rollback_unspend-eq batch b, e) refl)

  -- The value under a key once the batch is written.
  commit-rollback :
      (batch : Batch) (txns : List Transaction) (m : Unspents) (h : Uint256)
      → Distinct m
      → commit batch db.get (unspent_key lib format layout h)
        ≡ db.get (unspent_key lib format layout h)
      → commit
          ((batch ++ deletions lib format layout txns) ++ write_unspents lib format layout m)
          db.get
          (unspent_key lib format layout h)
        ≡ after lib format layout db
            (lookup h m)
            (if has_hash lib h txns then none else db.get (unspent_key lib format layout h))
  commit-rollback batch txns m h d untouched =
      let k = unspent_key lib format layout h in
      rw
        (commit-append (batch ++ deletions lib format layout txns)
          (write_unspents lib format layout m) db.get k)
        (rw
          (commit-write lib format layout db m
            (commit (batch ++ deletions lib format layout txns) db.get) h d)
          (rw (commit-append batch (deletions lib format layout txns) db.get k)
            (rw (commit-deletions txns (commit batch db.get) h, untouched) refl)))

  decode-after_rollback :
      (txns : List Transaction) (m : Unspents) (h : Uint256)
      → IsWritable m
      → decode_stored layout (
          after lib format layout db
            (lookup h m)
            (if has_hash lib h txns then none else db.get (unspent_key lib format layout h)))
        ≡ (if is_held (lookup h m)
            then view lib format layout db m h
            else (if has_hash lib h txns then [] else stored lib format layout db h))
  unfolding view after stored
  decode-after_rollback txns m h w = elim (Option-cases (lookup h m)) [
    | inr (l, e) ↦ rw e (decode-written lib format layout db l (w.ranged h l e))
    | inl e ↦ rw e (elim (Bool-cases (has_hash lib h txns)) [
      | inl in_block ↦ rw in_block (unfold decode_stored in refl)
      | inr other ↦ rw other refl
    ])
  ]

  stored-rolled_back :
      (batch : Batch) (txns : List Transaction) (m : Unspents) (h : Uint256)
      → IsWritable m
      → commit batch db.get (unspent_key lib format layout h)
        ≡ db.get (unspent_key lib format layout h)
      → stored lib format layout
          (committed db
            ((batch ++ deletions lib format layout txns) ++ write_unspents lib format layout m))
          h
        ≡ (if is_held (lookup h m)
            then view lib format layout db m h
            else (if has_hash lib h txns then [] else stored lib format layout db h))
  unfolding stored committed
  stored-rolled_back batch txns m h w untouched =
      rw (commit-rollback batch txns m h w.distinct untouched)
        (unfold stored in decode-after_rollback txns m h w)

  restored-refines :
      (batch : Batch) (txns : List Transaction) (m : Unspents)
      → restore_inputs lib format layout db [] (spent_inputs lib txns) ≡ ok m
      → ((h : Uint256)
          → commit batch db.get (unspent_key lib format layout h)
            ≡ db.get (unspent_key lib format layout h))
      → All (λ (i : Input). IsUint16 i.previous_index) (spent_inputs lib txns)
      → (h : Uint256) (j : ℕ)
      → count j (
          stored lib format layout
            (committed db
              ((batch ++ deletions lib format layout txns) ++ write_unspents lib format layout m))
            h)
        ≡ rollback_ledger lib txns (λ g i. count i (stored lib format layout db g)) h j
  unfolding rollback_ledger
  restored-refines batch txns m made untouched fits h j =
      let inputs = spent_inputs lib txns in
      let w = restore_inputs-IsWritable lib format layout db inputs [] made fits IsWritable-nil in
      let counted = restore_inputs-count lib format layout db inputs [] made h j in
      let held = restore_inputs-held lib format layout db inputs [] made h in
      let none_held : lookup {V = List ℕ} h [] ≡ none = unfold lookup in refl in
      let start : view lib format layout db [] h ≡ stored lib format layout db h =
        unfold view lookup in refl in
      let left = stored-rolled_back batch txns m h w (untouched h) in
      let empty : count j [] ≡ 0 = unfold count_if in refl in
      ground (arith, counted, held, none_held, start, left, empty)

  -- Where `rollback_unspend` succeeds, its batch takes the store from a count of unspent outputs to the
  -- count that the rollback ledger has: for a transaction that an input of an ordinary transaction
  -- names, one more for each such input; else none for a transaction of the block, and no change
  -- for any other. The indices of those inputs are uint16, and the batch before it leaves the stored
  -- indices alone.
  pub rollback_unspend-refines :
      (batch : Batch) (b : Block) {batch' : Batch}
      → rollback_unspend lib format layout db batch b ≡ ok batch'
      → ((h : Uint256)
          → commit batch db.get (unspent_key lib format layout h)
            ≡ db.get (unspent_key lib format layout h))
      → All (λ (i : Input). IsUint16 i.previous_index) (spent_inputs lib b.transactions)
      → (h : Uint256) (j : ℕ)
      → count j (stored lib format layout (committed db batch') h)
        ≡ rollback_ledger lib b.transactions (λ g i. count i (stored lib format layout db g)) h j
  rollback_unspend-refines batch b e untouched fits h j =
      let (m, made, put) =
        >>=-eq-ok (restore_inputs lib format layout db [] (spent_inputs lib b.transactions)) _
          (rw (rollback_unspend-eq batch b) at e) in
      subst
        (λ x.
          count j (stored lib format layout (committed db x) h)
          ≡ rollback_ledger lib b.transactions (λ g i. count i (stored lib format layout db g)) h j)
        (ok-injective put) (restored-refines batch b.transactions m made untouched fits h j)
