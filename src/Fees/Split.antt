-- ===== src/Fees/Split.antt =====
-- The split of the fees against the rule for coinbase transactions in core/validator.go.
use elastos_ela_side_chain_t.Base.{
  ap, ℤ, pos, List, [], ◌∷◌, ◌≡◌, ◌≢◌, sym, true, false, ◌+ℤ◌, ◌-ℤ◌, wrap_int64, sub_int64, IsInt64,
  wrap_int64-eq, thirty_percent, ok, ok-injective, arith, +ℤ_zero,
}
use elastos_ela_side_chain_t.Types.{Transaction, Output}
use elastos_ela_side_chain_t.Library.{Library, ChainParams}
use elastos_ela_side_chain_t.Validator.Outputs.{check_transaction_output}
use elastos_ela_side_chain_t.Validator.Outputs.Coinbase.{
  total_value, foundation_value, check_coinbase_iff,
}
use elastos_ela_side_chain_t.Fees.{Pool, split_outputs, split_reward}

parts_sum : (a b : ℤ) → IsInt64 b → wrap_int64 (a +ℤ (sub_int64 b a +ℤ pos 0)) ≡ b
unfolding sub_int64 wrap_int64 ◌+ℤ◌ ◌-ℤ◌
parts_sum a b h = ground arith

abbrev first_outputs : List Transaction → List Output
first_outputs [] = []
first_outputs (tx ∷ txs) = tx.outputs

module _ (lib : Library) (params : ChainParams) (pool : Pool) where
  -- The coinbase that leaves the split passes the check of coinbase outputs, if the first of its two
  -- outputs pays the foundation and the second does not, and the fees and 30 % of them are int64.
  pub check_transaction_output-split_reward :
      (reward : ℤ) (coin_base coin_base' : Transaction) (txs txs' : List Transaction) (o p : Output)
      → coin_base.outputs ≡ o ∷ p ∷ []
      → o.program_hash ≡ params.foundation
      → p.program_hash ≢ params.foundation
      → IsInt64 reward
      → IsInt64 (thirty_percent reward)
      → lib.is_coin_base_tx coin_base' ≡ true
      → split_reward pool reward (coin_base ∷ txs) ≡ ok (coin_base' ∷ txs')
      → check_transaction_output lib params coin_base' ≡ ok tt
  unfolding split_reward split_outputs total_value foundation_value
  check_transaction_output-split_reward reward coin_base coin_base' txs txs' o p two own foreign
        fits part is e =
      let made : List Output =
        record o { value = thirty_percent reward }
        ∷ record p { value = sub_int64 reward (thirty_percent reward) }
        ∷ [] in
      let outputs : coin_base'.outputs ≡ made =
        sym (ap first_outputs (ok-injective (rw two at e))) in
      let yes_own : lib.is_equal o.program_hash params.foundation ≡ true =
        ground (arith, lib.is_equal_iff o.program_hash params.foundation) in
      let not_own : lib.is_equal p.program_hash params.foundation ≡ false =
        ground (arith, lib.is_equal_iff p.program_hash params.foundation) in
      (check_coinbase_iff lib params coin_base' is).1 (
        rw
          (
            outputs,
            yes_own,
            not_own,
            parts_sum (thirty_percent reward) reward fits,
            +ℤ_zero (thirty_percent reward),
            wrap_int64-eq (thirty_percent reward) part,
          )
          (omega arith, omega arith))
