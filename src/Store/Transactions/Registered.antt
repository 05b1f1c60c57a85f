-- ===== src/Store/Transactions/Registered.antt =====
-- Which assets a block may register.
use elastos_ela_side_chain_t.Base.{
  ℕ, ◌≡◌, List, [], ◌∷◌, true, false, some, ok, or_err, All, >>=-eq-ok, Option-cases, inl, inr,
  arith,
}
use elastos_ela_side_chain_t.Types.{
  Transaction, PayloadRegisterAsset, is_register_asset, as_registration,
}
use elastos_ela_side_chain_t.Library.{Library}
use elastos_ela_side_chain_t.Format.{Format}
use elastos_ela_side_chain_t.Store.Database.{StoreError, Layout, Batch}
use elastos_ela_side_chain_t.Store.Assets.{StoreLibrary, is_ela, persist_asset}
use elastos_ela_side_chain_t.Store.Transactions.{
  persist_registration, persist_recharge, persist_transactions,
}

-- A transaction that registers an asset carries one that is not named "ELA".
abbrev pub RegistersToken : Transaction → Type 0
RegistersToken txn =
    is_register_asset txn.tx_type ≡ true
    → (p : PayloadRegisterAsset) × (as_registration txn.payload ≡ some p) × (is_ela p.asset ≡ false)

module _ (lib : Library) (format : Format) (layout : Layout) (store_lib : StoreLibrary) where
  persist_registration-RegistersToken :
      (height : ℕ) (txn : Transaction) {put : Batch}
      → persist_registration lib format layout store_lib height txn ≡ ok put
      → RegistersToken txn
  unfolding persist_registration persist_asset
  persist_registration-RegistersToken height txn e registers =
      let e' = rw registers at e in
      elim (Option-cases (as_registration txn.payload)) [
        | inl missing ↦ absurd (ground arith)
        | inr (p, found) ↦ (p, found, ground arith)
      ]

  -- Where the transactions of a block are saved, every registration among them has a payload, and no
  -- asset named "ELA".
  pub persist_transactions-RegistersToken :
      (height : ℕ) (txns : List Transaction) {put : Batch}
      → persist_transactions lib format layout store_lib height txns ≡ ok put
      → All RegistersToken txns
  unfolding persist_transactions
  persist_transactions-RegistersToken height [] e = tt
  persist_transactions-RegistersToken height (txn ∷ txns) e =
      let (saved, _, e1) =
        >>=-eq-ok (or_err (store_lib.persist_transaction txn height) StoreError.library_error) _
          e in
      let (asset, registered, e2) =
        >>=-eq-ok (persist_registration lib format layout store_lib height txn) _ e1 in
      let (recharge, _, e3) = >>=-eq-ok (persist_recharge lib format layout store_lib txn) _ e2 in
      let (rest, later, _) =
        >>=-eq-ok (persist_transactions lib format layout store_lib height txns) _ e3 in
      (
        persist_registration-RegistersToken height txn registered,
        persist_transactions-RegistersToken height txns later,
      )
