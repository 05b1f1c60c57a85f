-- ===== src/Validator/Balance.antt =====
-- `checkTransactionBalanceImpl` of mempool/validator.go.
pub mod Sums
pub mod Overflow
use elastos_ela_side_chain_t.Base.{
  ℕ, ℤ, pos, List, [], ◌∷◌, not, ◌&&◌, ◌||◌, if◌then◌else◌, ltb_ℤ, eqb_ℤ, ◌+ℤ◌, ◌-ℤ◌, add_int64,
  sub_int64, ok, ◌>>=◌, ◌>>◌, reject_if, or_err,
}
use elastos_ela_side_chain_t.Types.{Transaction, Output, is_register_asset}
use elastos_ela_side_chain_t.Library.{Library, ChainParams, ChainStore}
use elastos_ela_side_chain_t.Validator.Check.{Error, Check}

-- `MinRegisterAssetTxFee`
abbrev pub min_register_asset_tx_fee : ℕ
min_register_asset_tx_fee = 1000000000

module _ (lib : Library) (params : ChainParams) where
  -- The two loops are the same, over the references and over the outputs: the ELA amount, and the
  -- tokens of all other assets.
  unfoldable pub amounts : List Output → ℤ × ℤ → ℤ × ℤ
  amounts [] acc = acc
  amounts (o ∷ os) (ela, token) = amounts os (
      if lib.is_equal o.asset_id params.ela_asset_id
      then (add_int64 ela o.value, token)
      else (ela, token +ℤ o.token_value))

  -- The three fee limits.
  unfoldable pub check_fee : Transaction → ℤ → Check
  check_fee txn ela_balance =
      if lib.is_transfer_cross_chain_asset_tx txn || lib.is_recharge_to_side_chain_tx txn
      then reject_if (ltb_ℤ ela_balance params.min_cross_chain_tx_fee) Error.cross_chain_fee
      else if lib.is_register_asset_tx txn
      then reject_if (ltb_ℤ ela_balance (pos min_register_asset_tx_fee)) Error.register_fee
      else reject_if (ltb_ℤ ela_balance params.min_transaction_fee) Error.transaction_fee

  -- What follows the lookup of the references.
  unfoldable pub check_balance : Transaction → List Output → Check
  unfolding amounts check_fee
  check_balance txn references = do
    let (ela_in, token_in) = amounts references (pos 0, pos 0)
    let (ela_out, token_out) = amounts txn.outputs (pos 0, pos 0)
    check_fee txn (sub_int64 ela_in ela_out)
    reject_if (not (is_register_asset txn.tx_type) && not (eqb_ℤ (token_in -ℤ token_out) (pos 0)))
        Error.token_balance

  unfoldable pub check_transaction_balance : ChainStore → Transaction → Check
  unfolding check_balance
  check_transaction_balance db txn = do
    references ← or_err (db.get_tx_reference txn) Error.reference_error
    check_balance txn references
