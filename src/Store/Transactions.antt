-- ===== src/Store/Transactions.antt =====
-- `persistTransactions` and `rollbackTransactions` of blockchain/chainstore.go.
pub mod Registered
pub mod RolledBack
use elastos_ela_side_chain_t.Base.{
  ℕ, Bytes, List, [], ◌∷◌, ◌++◌, Bool, true, false, Option, none, some, if◌then◌else◌, Outcome, ok,
  err, panic, ◌>>=◌, or_err, or_panic,
}
use elastos_ela_side_chain_t.Types.{
  Uint256, Transaction, Block, is_register_asset, is_recharge, as_registration, as_recharge,
}
use elastos_ela_side_chain_t.Library.{Library}
use elastos_ela_side_chain_t.Format.{Format}
use elastos_ela_side_chain_t.Store.Database.{StoreError, Layout, Batch}
use elastos_ela_side_chain_t.Store.Assets.{StoreLibrary, AssetInfo, persist_asset, rollback_asset}

module _ (lib : Library) (format : Format) (layout : Layout) (store_lib : StoreLibrary) where
  -- The main chain transaction of a recharge.
  unfoldable pub recharge_hash : Transaction → Outcome StoreError Uint256
  recharge_hash txn = do
    p ← or_panic (as_recharge txn.payload)
    or_err (lib.get_mainchain_tx_hash p txn.payload_version) StoreError.library_error

  -- `if txn.TxType == types.RegisterAsset`
  unfoldable pub persist_registration : ℕ → Transaction → Outcome StoreError Batch
  persist_registration height txn =
      if is_register_asset txn.tx_type
      then (do
        p ← or_panic (as_registration txn.payload)
        persist_asset lib format layout store_lib (record { asset = p.asset; height = height }))
      else ok []

  -- `if txn.TxType == types.RechargeToSideChain`
  unfoldable pub persist_recharge : Transaction → Outcome StoreError Batch
  persist_recharge txn =
      if is_recharge txn.tx_type
      then (do h ← recharge_hash txn; ok (store_lib.persist_mainchain_tx h))
      else ok []

  -- `persistTransactions`: what it adds to the batch.
  unfoldable pub persist_transactions : ℕ → List Transaction → Outcome StoreError Batch
  persist_transactions height [] = ok []
  persist_transactions height (txn ∷ txns) = do
    saved ← or_err (store_lib.persist_transaction txn height) StoreError.library_error
    asset ← persist_registration height txn
    recharge ← persist_recharge txn
    rest ← persist_transactions height txns
    ok (saved ++ (asset ++ (recharge ++ rest)))

  -- The asset of a registration goes, under the hash of the transaction for the system asset.
  unfoldable pub rollback_registration : Uint256 → Transaction → Outcome StoreError Batch
  rollback_registration system_asset_id txn =
      if is_register_asset txn.tx_type
      then (if lib.is_equal system_asset_id (lib.hash txn)
          then ok (rollback_asset lib format layout store_lib (lib.hash txn))
          else (do
            p ← or_panic (as_registration txn.payload)
            ok (rollback_asset lib format layout store_lib (lib.asset_hash p.asset))))
      else ok []

  unfoldable pub rollback_recharge : Transaction → Outcome StoreError Batch
  rollback_recharge txn =
      if is_recharge txn.tx_type
      then (do h ← recharge_hash txn; ok (store_lib.rollback_mainchain_tx h))
      else ok []

  -- `rollbackTransactions`: what it adds to the batch.
  unfoldable pub rollback_transactions : Uint256 → List Transaction → Outcome StoreError Batch
  rollback_transactions system_asset_id [] = ok []
  rollback_transactions system_asset_id (txn ∷ txns) = do
    saved ← or_err (store_lib.rollback_transaction txn) StoreError.library_error
    asset ← rollback_registration system_asset_id txn
    recharge ← rollback_recharge txn
    rest ← rollback_transactions system_asset_id txns
    ok (saved ++ (asset ++ (recharge ++ rest)))
