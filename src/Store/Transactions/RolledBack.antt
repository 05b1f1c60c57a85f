-- ===== src/Store/Transactions/RolledBack.antt =====
-- What is left of the assets of a block that is rolled back.
use mathlib.Core.Path.{subst, fun_ext}
use elastos_ela_side_chain_t.Base.{
  ◌≡◌, sym, ◌∙◌, Bytes, List, [], ◌∷◌, ◌++◌, true, false, Option, none, some, bytes_eq_iff, ok,
  or_err, or_panic, All, >>=-eq-ok, ok-injective, Bool-cases, Option-cases, inl, inr, arith,
}
use elastos_ela_side_chain_t.Types.{
  Uint256, Transaction, PayloadRegisterAsset, is_register_asset, is_recharge, as_registration,
}
use elastos_ela_side_chain_t.Library.{Library}
use elastos_ela_side_chain_t.Format.{Format}
use elastos_ela_side_chain_t.Store.Database.{StoreError, Layout, Batch, commit, commit-append}
use elastos_ela_side_chain_t.Store.Assets.{StoreLibrary, asset_key, rollback_asset}
use elastos_ela_side_chain_t.Store.Transactions.{
  recharge_hash, rollback_registration, rollback_recharge, rollback_transactions,
}

module _ (lib : Library) (format : Format) (layout : Layout) (store_lib : StoreLibrary) where
  -- A batch that never brings an asset back.
  abbrev LeavesGone : Batch → Type 0
  LeavesGone ops =
      (get : Bytes → Option Bytes) (h : Uint256)
      → get (asset_key lib format layout store_lib h) ≡ none
      → commit ops get (asset_key lib format layout store_lib h) ≡ none

  LeavesGone-append : (a b : Batch) → LeavesGone a → LeavesGone b → LeavesGone (a ++ b)
  LeavesGone-append a b ga gb get h e =
      rw (commit-append a b get (asset_key lib format layout store_lib h))
        (gb (commit a get) h (ga get h e))

  LeavesGone-rollback_asset :
      (g : Uint256) → LeavesGone (rollback_asset lib format layout store_lib g)
  unfolding rollback_asset commit
  LeavesGone-rollback_asset g get h e = ground (arith, e)

  -- The asset that a registration brings in is gone.
  abbrev pub IsGone : Uint256 → (Bytes → Option Bytes) → Transaction → Type 0
  IsGone system_asset_id get txn =
      is_register_asset txn.tx_type ≡ true
      → lib.is_equal system_asset_id (lib.hash txn) ≡ false
      → (p : PayloadRegisterAsset) → as_registration txn.payload ≡ some p
      → get (asset_key lib format layout store_lib (lib.asset_hash p.asset)) ≡ none

  rollback_asset-gone :
      (g : Uint256) (get : Bytes → Option Bytes)
      → commit
          (rollback_asset lib format layout store_lib g)
          get
          (asset_key lib format layout store_lib g)
        ≡ none
  unfolding rollback_asset commit
  rollback_asset-gone g get = ground (
    arith,
    bytes_eq_iff (asset_key lib format layout store_lib g)
        (asset_key lib format layout store_lib g),
  )

  rollback_registration-IsGone :
      (system_asset_id : Uint256) (txn : Transaction) (get : Bytes → Option Bytes) {ops : Batch}
      → rollback_registration lib format layout store_lib system_asset_id txn ≡ ok ops
      → IsGone system_asset_id (commit ops get) txn
  unfolding rollback_registration
  rollback_registration-IsGone system_asset_id txn get {ops} e registers token p found =
      subst
        (λ x. commit x get (asset_key lib format layout store_lib (lib.asset_hash p.asset)) ≡ none)
        (ok-injective (rw (registers, token, found) at e))
        (rollback_asset-gone (lib.asset_hash p.asset) get)

  LeavesGone-registration :
      (system_asset_id : Uint256) (txn : Transaction) {ops : Batch}
      → rollback_registration lib format layout store_lib system_asset_id txn ≡ ok ops
      → LeavesGone ops
  unfolding rollback_registration
  LeavesGone-registration system_asset_id txn {ops} e =
      elim (Bool-cases (is_register_asset txn.tx_type)) [
        | inr plain ↦
            subst LeavesGone (ok-injective (rw plain at e)) (λ get h gone. unfold commit in gone)
        | inl registers ↦ elim (Bool-cases (lib.is_equal system_asset_id (lib.hash txn))) [
          | inl same ↦
              subst LeavesGone (ok-injective (rw (registers, same) at e))
                (LeavesGone-rollback_asset (lib.hash txn))
          | inr other ↦
              let (p, _, made) =
                >>=-eq-ok (or_panic (as_registration txn.payload)) _ (rw (registers, other) at e) in
              subst LeavesGone (ok-injective made)
                (LeavesGone-rollback_asset (lib.asset_hash p.asset))
        ]
      ]

  -- A batch that does not touch the assets.
  abbrev pub LeavesAssets : Batch → Type 0
  LeavesAssets ops =
      (get : Bytes → Option Bytes) (h : Uint256)
      → commit ops get (asset_key lib format layout store_lib h)
        ≡ get (asset_key lib format layout store_lib h)

  LeavesGone-of : (ops : Batch) → LeavesAssets ops → LeavesGone ops
  LeavesGone-of ops leaves get h e = leaves get h ∙ e

  LeavesGone-recharge :
      (txn : Transaction) {ops : Batch}
      → ((h : Uint256) → LeavesAssets (store_lib.rollback_mainchain_tx h))
      → rollback_recharge lib format layout store_lib txn ≡ ok ops
      → LeavesGone ops
  unfolding rollback_recharge
  LeavesGone-recharge txn {ops} leaves e = elim (Bool-cases (is_recharge txn.tx_type)) [
    | inr plain ↦
        subst LeavesGone (ok-injective (rw plain at e)) (λ get h gone. unfold commit in gone)
    | inl recharges ↦
        let (h, _, made) =
          >>=-eq-ok (recharge_hash lib format layout store_lib txn) _ (rw recharges at e) in
        subst LeavesGone (ok-injective made)
          (LeavesGone-of (store_lib.rollback_mainchain_tx h) (leaves h))
  ]

  LeavesGone-saved :
      (txn : Transaction) {ops : Batch}
      → ((t : Transaction) (b : Batch) → store_lib.rollback_transaction t ≡ some b → LeavesAssets b)
      → or_err (store_lib.rollback_transaction txn) StoreError.library_error ≡ ok ops
      → LeavesGone ops
  LeavesGone-saved txn {ops} leaves e = elim (Option-cases (store_lib.rollback_transaction txn)) [
    | inl missing ↦ absurd (ground arith)
    | inr (b, found) ↦
        subst LeavesGone (ok-injective (rw found at e)) (LeavesGone-of b (leaves txn b found))
  ]

  IsGone-append :
      (system_asset_id : Uint256) (a b : Batch) (get : Bytes → Option Bytes)
      (txns : List Transaction)
      → All (IsGone system_asset_id (commit b (commit a get))) txns
      → All (IsGone system_asset_id (commit (a ++ b) get)) txns
  IsGone-append system_asset_id a b get txns =
      subst (λ x. All (IsGone system_asset_id x) txns) (sym (fun_ext (commit-append a b get)))

  -- When the transactions of a block are rolled back, every asset that one of them registers is gone
  -- from the store, whatever it held, unless the registration is that of the system asset. The
  -- changes of the library's own methods do not touch the assets.
  pub rollback_transactions-IsGone :
      (system_asset_id : Uint256) (txns : List Transaction) {ops : Batch}
      → ((t : Transaction) (b : Batch) → store_lib.rollback_transaction t ≡ some b → LeavesAssets b)
      → ((h : Uint256) → LeavesAssets (store_lib.rollback_mainchain_tx h))
      → rollback_transactions lib format layout store_lib system_asset_id txns ≡ ok ops
      → (get : Bytes → Option Bytes) → All (IsGone system_asset_id (commit ops get)) txns
  unfolding rollback_transactions
  rollback_transactions-IsGone system_asset_id txns {ops} leaves1 leaves2 e get =
      (both txns e).0 get
    where
      both :
          (txns : List Transaction) {ops : Batch}
          → rollback_transactions lib format layout store_lib system_asset_id txns ≡ ok ops
          → ((get : Bytes → Option Bytes) → All (IsGone system_asset_id (commit ops get)) txns)
            × LeavesGone ops
      both [] e =
          (λ get. tt, subst LeavesGone (ok-injective e) (λ get h gone. unfold commit in gone))
      both (txn ∷ txns) {ops} e =
          let (saved, e0, e1) =
            >>=-eq-ok (or_err (store_lib.rollback_transaction txn) StoreError.library_error) _ e in
          let (asset, e2, e3) =
            >>=-eq-ok (rollback_registration lib format layout store_lib system_asset_id txn) _
              e1 in
          let (recharge, e4, e5) =
            >>=-eq-ok (rollback_recharge lib format layout store_lib txn) _ e3 in
          let (rest, e6, e7) =
            >>=-eq-ok (rollback_transactions lib format layout store_lib system_asset_id txns) _
              e5 in
          let (gone, keeps) = both txns e6 in
          let after_asset : LeavesGone (recharge ++ rest) =
            LeavesGone-append recharge rest (LeavesGone-recharge txn leaves2 e4) keeps in
          subst
            (λ x.
              ((get : Bytes → Option Bytes)
                → All (IsGone system_asset_id (commit x get)) (txn ∷ txns))
              × LeavesGone x)
            (ok-injective e7)
            (
              λ get. (
                λ registers token p found.
                    rw (commit-append saved, commit-append asset)
                      (after_asset (commit asset (commit saved get)) (lib.asset_hash p.asset) (
                        rollback_registration-IsGone system_asset_id txn (commit saved get) e2
                          registers token p found)),
                IsGone-append system_asset_id saved (asset ++ (recharge ++ rest)) get txns (
                    IsGone-append system_asset_id asset (recharge ++ rest) (commit saved get) txns (
                      IsGone-append system_asset_id recharge rest (commit asset (commit saved get))
                        txns (gone (commit recharge (commit asset (commit saved get)))))),
              ),
              LeavesGone-append saved (asset ++ (recharge ++ rest))
                  (LeavesGone-saved txn leaves1 e0)
                  (LeavesGone-append asset (recharge ++ rest)
                    (LeavesGone-registration system_asset_id txn e2) after_asset),
            )
