-- ===== src/Validator/Balance/Overflow.antt =====
-- `checkTransactionBalanceImpl` of mempool/validator.go where the sums leave the range of an int64.
use elastos_ela_side_chain_t.Base.{
  ℕ, ℤ, pos, ◌*◌, ◌^◌, List, [], ◌∷◌, ◌++◌, ◌≡◌, refl, sym, ◌↔◌, ◌+ℤ◌, zero_+ℤ, +ℤ_assoc, +ℤ_zero,
  wrap_int64, ok, arith, Bool-cases, inl, inr,
}
use elastos_ela_side_chain_t.Types.{Transaction, Output}
use elastos_ela_side_chain_t.Library.{Library, ChainParams}
use elastos_ela_side_chain_t.Validator.Balance.{check_balance}
use elastos_ela_side_chain_t.Validator.Balance.Sums.{ela_sum, token_sum, min_fee, check_balance_iff}

wrap_int64-turns : (z : ℤ) (k : ℕ) → wrap_int64 (z +ℤ pos (k * 2 ^ 64)) ≡ wrap_int64 z
unfolding wrap_int64 ◌+ℤ◌
wrap_int64-turns z k = ground arith

module _ (lib : Library) (params : ChainParams) where
  ela_sum-append :
      (os more : List Output)
      → ela_sum lib params (os ++ more) ≡ ela_sum lib params os +ℤ ela_sum lib params more
  unfolding ela_sum
  ela_sum-append [] more = sym (zero_+ℤ (ela_sum lib params more))
  ela_sum-append (o ∷ os) more = elim (Bool-cases (lib.is_equal o.asset_id params.ela_asset_id)) [
    | inl is ↦ rw (is, ela_sum-append os more, +ℤ_assoc) refl
    | inr other ↦ rw other (ela_sum-append os more)
  ]

  token_sum-append :
      (os more : List Output)
      → token_sum lib params (os ++ more) ≡ token_sum lib params os +ℤ token_sum lib params more
  unfolding token_sum
  token_sum-append [] more = sym (zero_+ℤ (token_sum lib params more))
  token_sum-append (o ∷ os) more = elim (Bool-cases (lib.is_equal o.asset_id params.ela_asset_id)) [
    | inl is ↦ rw is (token_sum-append os more)
    | inr other ↦ rw (other, token_sum-append os more, +ℤ_assoc) refl
  ]

  -- ELA from nothing: outputs whose ELA values add up to a multiple of 2 ^ 64, and whose tokens add up
  -- to 0, can be put behind the outputs of a transaction, and the balance check passes exactly if
  -- it passes without them. The kind of the transaction, which sets its least fee, is the same.
  pub check_balance-overflow :
      (txn : Transaction) (references more : List Output) (k : ℕ)
      → min_fee lib params (record txn { outputs = txn.outputs ++ more }) ≡ min_fee lib params txn
      → ela_sum lib params more ≡ pos (k * 2 ^ 64)
      → token_sum lib params more ≡ pos 0
      → (check_balance lib params (record txn { outputs = txn.outputs ++ more }) references ≡ ok tt)
        ↔ (check_balance lib params txn references ≡ ok tt)
  check_balance-overflow txn references more k kind ela token =
      let ela_same : wrap_int64 (ela_sum lib params (txn.outputs ++ more))
          ≡ wrap_int64 (ela_sum lib params txn.outputs) =
        rw (ela_sum-append txn.outputs more, ela)
          (wrap_int64-turns (ela_sum lib params txn.outputs) k) in
      let token_same : token_sum lib params (txn.outputs ++ more)
          ≡ token_sum lib params txn.outputs =
        rw (token_sum-append txn.outputs more, token)
          (+ℤ_zero (token_sum lib params txn.outputs)) in
      let with_more =
        check_balance_iff lib params (record txn { outputs = txn.outputs ++ more }) references in
      let without = check_balance_iff lib params txn references in
      let same = rw (kind, ela_same, token_same) at with_more in
      (λ e. without.1 (same.0 e), λ e. same.1 (without.0 e))
