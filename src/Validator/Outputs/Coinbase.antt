-- ===== src/Validator/Outputs/Coinbase.antt =====
-- What `check_transaction_output` accepts of a coinbase transaction.
use elastos_ela_side_chain_t.Base.{
  ℤ, pos, List, [], ◌∷◌, ◌+ℤ◌, ◌≤ℤ◌, ◌≤◌, if◌then◌else◌, wrap_int64, add_int64-wrap_int64,
  wrap_int64-eq, +ℤ_assoc, +ℤ_zero, zero_+ℤ, ◌≡◌, ◌↔◌, true, ok, length, thirty_percent, arith,
  Bool-cases, inl, inr,
}
use elastos_ela_side_chain_t.Types.{Transaction, Output}
use elastos_ela_side_chain_t.Library.{Library, ChainParams}
use elastos_ela_side_chain_t.Validator.Outputs.{rewards, check_transaction_output}

module _ (lib : Library) (params : ChainParams) where
  -- The sum of the amounts, and of those paid to the foundation, as plain integers.
  unfoldable pub total_value : List Output → ℤ
  total_value [] = pos 0
  total_value (o ∷ os) = o.value +ℤ total_value os

  unfoldable pub foundation_value : List Output → ℤ
  foundation_value [] = pos 0
  foundation_value (o ∷ os) =
      if lib.is_equal o.program_hash params.foundation
      then o.value +ℤ foundation_value os
      else foundation_value os

  rewards_lem :
      (os : List Output) (t f : ℤ)
      → rewards lib params os (wrap_int64 t, wrap_int64 f)
        ≡ (wrap_int64 (t +ℤ total_value os), wrap_int64 (f +ℤ foundation_value os))
  unfolding rewards total_value foundation_value
  rewards_lem [] t f = rw (+ℤ_zero t, +ℤ_zero f)
  rewards_lem (o ∷ os) t f = elim (Bool-cases (lib.is_equal o.program_hash params.foundation)) [
    | inl e ↦ rw (
      e,
      add_int64-wrap_int64,
      add_int64-wrap_int64,
      rewards_lem os (t +ℤ o.value) (f +ℤ o.value),
      +ℤ_assoc,
      +ℤ_assoc,
    )
    | inr e ↦ rw (e, add_int64-wrap_int64, rewards_lem os (t +ℤ o.value) f, +ℤ_assoc)
  ]

  pub rewards_sum :
      (os : List Output)
      → rewards lib params os (pos 0, pos 0)
        ≡ (wrap_int64 (total_value os), wrap_int64 (foundation_value os))
  rewards_sum os =
      rw
        (
          zero_+ℤ (total_value os),
          zero_+ℤ (foundation_value os),
          wrap_int64-eq (pos 0) (omega arith),
        )
        at (rewards_lem os (pos 0) (pos 0))

  -- A coinbase transaction passes exactly if it has two outputs at least, and what it pays to the
  -- foundation is at least `int64(float64(total) * 0.3)` of what it pays in all, both sums as int64.
  pub check_coinbase_iff :
      (txn : Transaction)
      → lib.is_coin_base_tx txn ≡ true
      → (check_transaction_output lib params txn ≡ ok tt) ↔ (
          (2 ≤ length txn.outputs)
          × (thirty_percent (wrap_int64 (total_value txn.outputs))
              ≤ℤ wrap_int64 (foundation_value txn.outputs)))
  unfolding check_transaction_output
  check_coinbase_iff txn c = ground (arith, rewards_sum txn.outputs)
