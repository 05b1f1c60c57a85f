-- ===== src/Validator/Balance/Sums.antt =====
-- What `check_transaction_balance` accepts, and what it does not see.
use mathlib.Core.List.{Perm, foldr}
use mathlib.Core.List.Perm
use elastos_ela_side_chain_t.Base.{
  ℤ-set, map, ℤ, pos, List, [], ◌∷◌, false, some, ◌≡◌, refl, ap, ◌↔◌, ◌||◌, ◌≤ℤ◌, ◌+ℤ◌, ◌-ℤ◌,
  +ℤ_zero, zero_+ℤ, +ℤ_assoc, sub_int64, pos_part, neg_part, wrap_int64, wrap_int64-eq,
  add_int64-wrap_int64, if◌then◌else◌, ok, arith, int_laws, eqb_ℤ_iff, Bool-cases, inl, inr,
}
use elastos_ela_side_chain_t.Types.{Uint256, Transaction, Output, is_register_asset}
use elastos_ela_side_chain_t.Library.{Library, ChainParams, ChainStore}
use elastos_ela_side_chain_t.Validator.Balance.{
  amounts, check_fee, check_balance, check_transaction_balance, min_register_asset_tx_fee,
}

sub-eq-zero_iff : (a b : ℤ) → (a -ℤ b ≡ pos 0) ↔ (a ≡ b)
sub-eq-zero_iff a b =
    (λ e. omega (int_laws, ap pos_part e, ap neg_part e), λ e. rw e (omega int_laws))

+ℤ_left_comm : (a b c : ℤ) → a +ℤ (b +ℤ c) ≡ b +ℤ (a +ℤ c)
+ℤ_left_comm a b c = omega int_laws

module _ (lib : Library) (params : ChainParams) where
  -- The ELA amount and the tokens of a list of outputs, as plain sums.
  unfoldable pub ela_sum : List Output → ℤ
  ela_sum [] = pos 0
  ela_sum (o ∷ os) =
      if lib.is_equal o.asset_id params.ela_asset_id then o.value +ℤ ela_sum os else ela_sum os

  unfoldable pub token_sum : List Output → ℤ
  token_sum [] = pos 0
  token_sum (o ∷ os) =
      if lib.is_equal o.asset_id params.ela_asset_id
      then token_sum os
      else o.token_value +ℤ token_sum os

  amounts_lem :
      (os : List Output) (e t : ℤ)
      → amounts lib params os (wrap_int64 e, t) ≡ (wrap_int64 (e +ℤ ela_sum os), t +ℤ token_sum os)
  unfolding amounts ela_sum token_sum
  amounts_lem [] e t = rw (+ℤ_zero e, +ℤ_zero t)
  amounts_lem (o ∷ os) e t = elim (Bool-cases (lib.is_equal o.asset_id params.ela_asset_id)) [
    | inl is ↦ rw (is, add_int64-wrap_int64, amounts_lem os (e +ℤ o.value) t, +ℤ_assoc)
    | inr is ↦ rw (is, amounts_lem os e (t +ℤ o.token_value), +ℤ_assoc t o.token_value)
  ]

  pub amounts_sum :
      (os : List Output)
      → amounts lib params os (pos 0, pos 0) ≡ (wrap_int64 (ela_sum os), token_sum os)
  amounts_sum os =
      rw (zero_+ℤ (ela_sum os), zero_+ℤ (token_sum os), wrap_int64-eq (pos 0) (omega arith)) at
        (amounts_lem os (pos 0) (pos 0))

  -- The least fee of a transaction.
  unfoldable pub min_fee : Transaction → ℤ
  min_fee txn =
      if lib.is_transfer_cross_chain_asset_tx txn || lib.is_recharge_to_side_chain_tx txn
      then params.min_cross_chain_tx_fee
      else if lib.is_register_asset_tx txn
      then pos min_register_asset_tx_fee
      else params.min_transaction_fee

  check_fee_iff :
      (txn : Transaction) (b : ℤ) → (check_fee lib params txn b ≡ ok tt) ↔ (min_fee txn ≤ℤ b)
  unfolding check_fee min_fee
  check_fee_iff txn b = ground arith

  pub check_balance_iff :
      (txn : Transaction) (references : List Output)
      → (check_balance lib params txn references ≡ ok tt) ↔ (
          (min_fee txn
            ≤ℤ sub_int64 (wrap_int64 (ela_sum references)) (wrap_int64 (ela_sum txn.outputs)))
          × (is_register_asset txn.tx_type ≡ false → token_sum references ≡ token_sum txn.outputs))
  unfolding check_balance
  check_balance_iff txn references = ground (
    arith,
    amounts_sum references,
    amounts_sum txn.outputs,
    check_fee_iff txn
        (sub_int64 (wrap_int64 (ela_sum references)) (wrap_int64 (ela_sum txn.outputs))),
    eqb_ℤ_iff (token_sum references -ℤ token_sum txn.outputs) (pos 0),
    sub-eq-zero_iff (token_sum references) (token_sum txn.outputs),
  )

  -- Once the references are found, the check passes exactly if the ELA inputs exceed the outputs by
  -- the least fee of the transaction's kind, and, unless the transaction registers an asset, the
  -- tokens of all assets together are balanced. The ELA sums and their difference wrap as int64.
  pub check_transaction_balance_iff :
      (db : ChainStore) (txn : Transaction) (references : List Output)
      → db.get_tx_reference txn ≡ some references
      → (check_transaction_balance lib params db txn ≡ ok tt) ↔ (
          (min_fee txn
            ≤ℤ sub_int64 (wrap_int64 (ela_sum references)) (wrap_int64 (ela_sum txn.outputs)))
          × (is_register_asset txn.tx_type ≡ false → token_sum references ≡ token_sum txn.outputs))
  unfolding check_transaction_balance
  check_transaction_balance_iff db txn references found =
      rw found (check_balance_iff txn references)

  -- The inputs and outputs count for the check by their sums alone.
  pub check_balance-sums :
      (txn : Transaction) (references other : List Output)
      → ela_sum references ≡ ela_sum other
      → token_sum references ≡ token_sum other
      → check_balance lib params txn references ≡ check_balance lib params txn other
  unfolding check_balance
  check_balance-sums txn references other e t =
      ground (arith, amounts_sum references, amounts_sum other, e, t)

  -- Adding one output to a sum commutes with adding another.
  add_ela : Output → ℤ → ℤ
  add_ela o s = if lib.is_equal o.asset_id params.ela_asset_id then o.value +ℤ s else s

  add_token : Output → ℤ → ℤ
  add_token o s = if lib.is_equal o.asset_id params.ela_asset_id then s else o.token_value +ℤ s

  add_ela_comm : (a b : Output) (s : ℤ) → add_ela a (add_ela b s) ≡ add_ela b (add_ela a s)
  unfolding add_ela
  add_ela_comm a b s = ground (arith, +ℤ_left_comm a.value b.value s)

  add_token_comm :
      (a b : Output) (s : ℤ) → add_token a (add_token b s) ≡ add_token b (add_token a s)
  unfolding add_token
  add_token_comm a b s = ground (arith, +ℤ_left_comm a.token_value b.token_value s)

  ela_sum-foldr : (os : List Output) → ela_sum os ≡ foldr add_ela (pos 0) os
  unfolding ela_sum add_ela
  ela_sum-foldr [] = refl
  ela_sum-foldr (o ∷ os) = rw (ela_sum-foldr os)

  token_sum-foldr : (os : List Output) → token_sum os ≡ foldr add_token (pos 0) os
  unfolding token_sum add_token
  token_sum-foldr [] = refl
  token_sum-foldr (o ∷ os) = rw (token_sum-foldr os)

  -- The verdict does not depend on the order in which Go iterates over the map of references.
  pub check_balance-perm :
      (txn : Transaction) (references other : List Output)
      → Perm references other
      → check_balance lib params txn references ≡ check_balance lib params txn other
  check_balance-perm txn references other p =
      check_balance-sums txn references other
        (rw (ela_sum-foldr, ela_sum-foldr) (Perm.foldr-eq ℤ-set add_ela add_ela_comm p (pos 0)))
        (rw (token_sum-foldr, token_sum-foldr)
          (Perm.foldr-eq ℤ-set add_token add_token_comm p (pos 0)))

  -- The output, in another asset.
  abbrev pub rename : (Uint256 → Uint256) → Output → Output
  rename f o = record o { asset_id = f o.asset_id }

  ela_sum-rename :
      (f : Uint256 → Uint256)
      → ((k : Uint256) → (f k ≡ params.ela_asset_id) ↔ (k ≡ params.ela_asset_id))
      → (os : List Output)
      → (ela_sum (map (rename f) os) ≡ ela_sum os) × (token_sum (map (rename f) os) ≡ token_sum os)
  unfolding ela_sum token_sum
  ela_sum-rename f keep [] = (refl, refl)
  ela_sum-rename f keep (o ∷ os) = ground (
    arith,
    lib.is_equal_iff (f o.asset_id) params.ela_asset_id,
    lib.is_equal_iff o.asset_id params.ela_asset_id,
    keep o.asset_id,
    ela_sum-rename f keep os,
  )

  -- The check does not tell one token asset from another: if the spent outputs are moved to other
  -- assets, all apart from ELA, by any renaming, the verdict stays the same.
  pub check_balance-rename :
      (f : Uint256 → Uint256)
      → ((k : Uint256) → (f k ≡ params.ela_asset_id) ↔ (k ≡ params.ela_asset_id))
      → (txn : Transaction) (references : List Output)
      → check_balance lib params txn (map (rename f) references)
        ≡ check_balance lib params txn references
  check_balance-rename f keep txn references =
      let (ela, token) = ela_sum-rename f keep references in
      check_balance-sums txn (map (rename f) references) references ela token
