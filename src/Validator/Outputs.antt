-- ===== src/Validator/Outputs.antt =====
-- `checkTransactionOutputImpl` and `checkOutputProgramHash` of mempool/validator.go.
pub mod Valid
pub mod Coinbase
use elastos_ela_side_chain_t.Base.{
  ℕ, ℤ, pos, List, [], ◌∷◌, Bool, true, false, not, ◌||◌, Bytes, bytes_eq, ltb, ◌==◌, if◌then◌else◌,
  length, replicate, ltb_ℤ, eqb_ℤ, add_int64, thirty_percent, ok, ◌>>=◌, ◌>>◌, reject_if,
}
use elastos_ela_side_chain_t.Types.{Transaction, Output, Uint168}
use elastos_ela_side_chain_t.Library.{Library, ChainParams}
use elastos_ela_side_chain_t.Validator.Check.{Error, Check, each}

-- The `switch` on `programHash[0]`; a `Uint168` has 21 bytes, so the empty list does not occur.
has_known_prefix : Library → Uint168 → Bool
has_known_prefix lib [] = false
has_known_prefix lib (b ∷ _) =
    b == lib.prefix_standard || b == lib.prefix_multi_sig || b == lib.prefix_cross_chain

pub check_output_program_hash : Library → Uint168 → Bool
unfolding has_known_prefix
check_output_program_hash lib h =
    if lib.is_equal h (replicate 21 0) then true else has_known_prefix lib h

module _ (lib : Library) (params : ChainParams) where
  -- The loop of the coinbase branch, over `totalReward` and `foundationReward`.
  pub rewards : List Output → ℤ × ℤ → ℤ × ℤ
  rewards [] acc = acc
  rewards (o ∷ os) (total, foundation) = rewards os (
    add_int64 total o.value,
    if lib.is_equal o.program_hash params.foundation
        then add_int64 foundation o.value
        else foundation,
  )

  -- The branches on the asset of one output.
  pub check_output_asset : Transaction → Output → Check
  check_output_asset txn o =
      if bytes_eq o.asset_id lib.empty_hash
      then reject_if true Error.asset_id_nil
      else if bytes_eq o.asset_id params.ela_asset_id
      then reject_if (ltb_ℤ o.value (pos 0) || not (eqb_ℤ o.token_value (pos 0)))
          Error.invalid_ela_output
      else do
        reject_if (lib.is_recharge_to_side_chain_tx txn || lib.is_transfer_cross_chain_asset_tx txn)
            Error.cross_chain_asset
        reject_if (ltb_ℤ o.token_value (pos 0) || not (eqb_ℤ o.value (pos 0)))
            Error.invalid_token_output

  -- The body of the loop over the outputs.
  pub check_output : Transaction → Output → Check
  unfolding check_output_asset
  check_output txn o = do
    check_output_asset txn o
    reject_if (not (check_output_program_hash lib o.program_hash)) Error.invalid_address

  pub check_coinbase_outputs : List Output → Check
  unfolding rewards
  check_coinbase_outputs outputs = do
    reject_if (ltb (length outputs) 2) Error.coinbase_outputs
    let sums = rewards outputs (pos 0, pos 0)
    reject_if (ltb_ℤ sums.1 (thirty_percent sums.0)) Error.foundation_reward

  pub check_transaction_output : Transaction → Check
  unfolding check_coinbase_outputs
  check_transaction_output txn =
      if lib.is_coin_base_tx txn then check_coinbase_outputs txn.outputs else do
        reject_if (ltb (length txn.outputs) 1) Error.no_outputs
        each (check_output txn) txn.outputs
