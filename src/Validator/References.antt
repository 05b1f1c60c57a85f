-- ===== src/Validator/References.antt =====
-- `checkReferencedOutputImpl` of mempool/validator.go.
pub mod Spendable
use elastos_ela_side_chain_t.Base.{
  ℕ, pos, ◌+◌, ◌-◌, ◌%◌, ◌^◌, ◌&&◌, ltb, if◌then◌else◌, get_elem?, leb_ℤ, ok, ◌>>=◌, ◌>>◌,
  reject_if, or_err, or_panic,
}
use elastos_ela_side_chain_t.Types.{Transaction, Input, Output}
use elastos_ela_side_chain_t.Library.{Library, ChainParams, ChainStore}
use elastos_ela_side_chain_t.Validator.Check.{Error, Check, each}

-- `a - b` on `uint32`
unfoldable pub sub_uint32 : ℕ → ℕ → ℕ
sub_uint32 a b = (a + 2 ^ 32 - b) % 2 ^ 32

module _ (lib : Library) (params : ChainParams) (db : ChainStore) where
  pub check_referenced_amount : Output → Check
  check_referenced_amount o =
      if lib.is_equal o.asset_id params.ela_asset_id
      then reject_if (leb_ℤ o.value (pos 0)) Error.invalid_refered_value
      else reject_if (leb_ℤ o.token_value (pos 0)) Error.invalid_refered_token

  pub check_maturity : Transaction → Check
  unfolding sub_uint32
  check_maturity refer_txn =
      reject_if
        (lib.is_coin_base_tx refer_txn
          && ltb (sub_uint32 db.get_height refer_txn.lock_time) params.coinbase_maturity)
        Error.ineffective_coinbase

  -- The body of the loop over the inputs.
  pub check_reference : Input → Check
  unfolding check_referenced_amount check_maturity
  check_reference input = do
    (refer_txn, _) ← or_err (db.get_transaction input.previous_tx_id) Error.unknown_refered_tx
    refer_txn_out ← or_panic (get_elem? refer_txn.outputs input.previous_index)
    check_referenced_amount refer_txn_out
    check_maturity refer_txn

  pub check_referenced_output : Transaction → Check
  unfolding check_reference
  check_referenced_output txn = each check_reference txn.inputs
