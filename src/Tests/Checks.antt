-- ===== src/Tests/Checks.antt =====
-- Witnesses: the theorems on the checks of mempool/validator.go, on sample transactions.
use mathlib.Core.List.{map}
use mathlib.Core.List.Perm
use mathlib.Core.Path.{subst}
use elastos_ela_side_chain_t.Base.{
  ℕ, pos, negsuc, List, ◌++◌, ◌+ℤ◌, ◌^◌, ◌%◌, ◌-◌, ◌≡◌, ◌≤◌, ◌≤ℤ◌, ◌↔◌, refl, [], ◌∷◌, true, false,
  some, ok, panic, length, All, nat_abs, thirty_percent, wrap_int64, replicate, Option, ◌≢◌,
  if◌then◌else◌, bytes_eq, bytes_eq_iff, Bool-cases, arith, inl, inr, ◌*◌, ◌==◌, sub_int64,
}
use elastos_ela_side_chain_t.Types.{
  Uint256, Asset, TxType, Transaction, Output, PayloadRegisterAsset, is_register_asset,
  as_registration, transfer, unknown, registration,
}
use elastos_ela_side_chain_t.Library.{ChainStore}
use elastos_ela_side_chain_t.Validator.Outputs.{check_transaction_output, check_output_program_hash}
use elastos_ela_side_chain_t.Validator.Outputs.Valid.{
  IsAddress, IsValidOutput, check_transaction_output_iff, check_output_program_hash_complete,
}
use elastos_ela_side_chain_t.Validator.Outputs.Coinbase.{
  total_value, foundation_value, check_coinbase_iff,
}
use elastos_ela_side_chain_t.Validator.References.{check_referenced_output}
use elastos_ela_side_chain_t.Validator.References.Spendable.{
  IsSpendable, IsPast, check_referenced_output_iff, check_referenced_output_panic,
}
use elastos_ela_side_chain_t.Validator.Registration.{check_register_asset_tx}
use elastos_ela_side_chain_t.Validator.Registration.Accepted.{
  IsAccepted, check_register_asset_tx_iff,
}
use elastos_ela_side_chain_t.Validator.Precision.{
  check_asset_precision, check_token_amount_precise, check_amount_precise,
}
use elastos_ela_side_chain_t.Validator.Precision.Amounts.{
  check_token_amount_precise_lem, check_amount_precise_lem,
}
use elastos_ela_side_chain_t.Validator.Precision.Groups.{
  HasPrecisions, IsPrecise, check_asset_precision_iff,
}
use elastos_ela_side_chain_t.Validator.Balance.{check_transaction_balance, check_balance}
use elastos_ela_side_chain_t.Validator.Balance.Overflow.{check_balance-overflow}
use elastos_ela_side_chain_t.Validator.Balance.Sums.{
  ela_sum, token_sum, min_fee, check_transaction_balance_iff, check_balance-perm,
  check_balance-rename, rename,
}
use elastos_ela_side_chain_t.Validator.Payload.{
  check_transaction_payload, check_transaction_payload_bounds,
}
use elastos_ela_side_chain_t.Tests.Samples.{
  sample_library, sample_params, sample_asset, foundation, address, ela_id, token_id, ela_output,
  token_output, sample_transaction, spend,
}

-- A stored coinbase that pays two outputs, and a transfer that spends one of them.
abbrev coin_base_txn : Transaction
coin_base_txn =
    sample_transaction TxType.coin_base transfer []
      (ela_output foundation (pos 300) ∷ ela_output address (pos 700) ∷ []) 7

abbrev transfer_txn : Transaction
transfer_txn =
    sample_transaction TxType.transfer_asset transfer (spend 7 1 ∷ [])
      (ela_output address (pos 500) ∷ []) 0

abbrev registration_payload : PayloadRegisterAsset
registration_payload = record { asset = sample_asset; amount = pos 2; controller = address }

abbrev registration_txn : Transaction
registration_txn =
    sample_transaction TxType.register_asset (registration registration_payload) []
      (record {
        asset_id = replicate 32 3;
        value = pos 0;
        token_value = pos (2 * 10 ^ 18);
        output_lock = 0;
        program_hash = address;
      }
        ∷ [])
      0

abbrev sample_store : ChainStore
sample_store = record {
  get_transaction = λ h. some (coin_base_txn, 7);
  get_height = 200;
  get_assets = [];
  get_asset = λ h. some sample_asset;
  get_tx_reference = λ txn. some (ela_output address (pos 700) ∷ []);
}

check_transaction_output_iff_example :
    (check_transaction_output sample_library sample_params transfer_txn ≡ ok tt) ↔ (
      (1 ≤ length transfer_txn.outputs)
      × All (IsValidOutput sample_library sample_params transfer_txn) transfer_txn.outputs)
check_transaction_output_iff_example =
    check_transaction_output_iff sample_library sample_params transfer_txn refl

check_coinbase_iff_example :
    (check_transaction_output sample_library sample_params coin_base_txn ≡ ok tt) ↔ (
      (2 ≤ length coin_base_txn.outputs)
      × (thirty_percent
            (wrap_int64 (total_value sample_library sample_params coin_base_txn.outputs))
          ≤ℤ wrap_int64 (foundation_value sample_library sample_params coin_base_txn.outputs)))
check_coinbase_iff_example = check_coinbase_iff sample_library sample_params coin_base_txn refl

check_output_program_hash_complete_example : check_output_program_hash sample_library address ≡ true
check_output_program_hash_complete_example =
    check_output_program_hash_complete sample_library address
      (IsAddress.prefixed 33 (replicate 20 5) (inl refl))

check_register_asset_tx_iff_example :
    (check_register_asset_tx sample_library sample_store registration_txn ≡ ok tt) ↔ (
      (p : PayloadRegisterAsset) × (as_registration registration_txn.payload ≡ some p)
      × IsAccepted sample_library sample_store registration_txn.outputs p)
check_register_asset_tx_iff_example =
    check_register_asset_tx_iff sample_library sample_store registration_txn refl

stored_txn :
    {t : Transaction} {h : ℕ}
    → ◌≡◌ {A = Option (Transaction × ℕ)} (some (coin_base_txn, 7)) (some (t, h))
    → coin_base_txn ≡ t
stored_txn e = cc

transfer-IsPast : All (IsPast sample_library sample_params sample_store) transfer_txn.inputs
transfer-IsPast = (
  record {
    height_fits = omega arith;
    locked_before =
        λ t h e. subst (λ (x : Transaction). x.lock_time ≤ 200) (stored_txn e) (omega arith);
  },
  tt,
)

check_referenced_output_iff_example :
    (check_referenced_output sample_library sample_params sample_store transfer_txn ≡ ok tt)
    ↔ All (IsSpendable sample_library sample_params sample_store) transfer_txn.inputs
check_referenced_output_iff_example =
    check_referenced_output_iff sample_library sample_params sample_store transfer_txn
      transfer-IsPast

-- An input that names the output 9 of a transaction with two outputs.
abbrev wild_txn : Transaction
wild_txn = sample_transaction TxType.transfer_asset transfer (spend 7 9 ∷ []) [] 0

check_referenced_output_panic_example :
    check_referenced_output sample_library sample_params sample_store wild_txn ≡ panic
check_referenced_output_panic_example =
    check_referenced_output_panic sample_library sample_params sample_store wild_txn [] (spend 7 9)
      [] {refer_txn = coin_base_txn} {at_height = 7} refl tt tt refl (omega arith)

-- One token with all of its 18 decimals set does not fit an asset of 8 decimals.
check_token_amount_precise_example :
    check_token_amount_precise sample_library (negsuc (10 ^ 18)) 8 18
    ≡ ok (nat_abs (negsuc (10 ^ 18)) % 10 ^ (18 - 8) == 0)
check_token_amount_precise_example =
    check_token_amount_precise_lem sample_library (negsuc (10 ^ 18)) 8 (omega arith)

check_amount_precise_example :
    check_amount_precise sample_library (pos 1500) 6 8 ≡ ok (nat_abs (pos 1500) % 10 ^ (8 - 6) == 0)
check_amount_precise_example = check_amount_precise_lem sample_library (pos 1500) 6 (omega arith)

same_asset : {a : Asset} → some sample_asset ≡ some a → sample_asset ≡ a
same_asset e = cc

sample_precisions : HasPrecisions sample_library sample_params sample_store
sample_precisions = record {
  any = λ k a e. subst (λ (x : Asset). x.precision ≤ 18) (same_asset e) (omega arith);
  ela = λ a e. subst (λ (x : Asset). x.precision ≤ 8) (same_asset e) (omega arith);
}

abbrev mixed_txn : Transaction
mixed_txn =
    sample_transaction TxType.transfer_asset transfer (spend 7 1 ∷ [])
      (ela_output address (pos 500)
        ∷ token_output address (pos (10 ^ 10))
        ∷ token_output address (pos 5)
        ∷ [])
      0

check_asset_precision_iff_example :
    (check_asset_precision sample_library sample_params sample_store mixed_txn ≡ ok tt)
    ↔ All (IsPrecise sample_library sample_params sample_store) mixed_txn.outputs
check_asset_precision_iff_example =
    check_asset_precision_iff sample_library sample_params sample_store sample_precisions mixed_txn
      refl

check_transaction_balance_iff_example :
    (check_transaction_balance sample_library sample_params sample_store transfer_txn ≡ ok tt) ↔ (
      (min_fee sample_library sample_params transfer_txn
        ≤ℤ sub_int64
            (wrap_int64 (ela_sum sample_library sample_params (ela_output address (pos 700) ∷ [])))
            (wrap_int64 (ela_sum sample_library sample_params transfer_txn.outputs)))
      × (is_register_asset transfer_txn.tx_type ≡ false
          → token_sum sample_library sample_params (ela_output address (pos 700) ∷ [])
            ≡ token_sum sample_library sample_params transfer_txn.outputs))
check_transaction_balance_iff_example =
    check_transaction_balance_iff sample_library sample_params sample_store transfer_txn
      (ela_output address (pos 700) ∷ []) refl

check_balance-perm_example :
    check_balance sample_library sample_params transfer_txn
      (ela_output address (pos 700) ∷ token_output address (pos 3) ∷ [])
    ≡ check_balance sample_library sample_params transfer_txn
        (token_output address (pos 3) ∷ ela_output address (pos 700) ∷ [])
check_balance-perm_example =
    check_balance-perm sample_library sample_params transfer_txn
      (ela_output address (pos 700) ∷ token_output address (pos 3) ∷ [])
      (token_output address (pos 3) ∷ ela_output address (pos 700) ∷ [])
      (Perm.swap (token_output address (pos 3)) (ela_output address (pos 700)) [])

-- Four outputs that make 2 ^ 64 together.
abbrev quarter : Output
quarter = ela_output address (pos (2 ^ 62))

abbrev quarters : List Output
quarters = quarter ∷ quarter ∷ quarter ∷ quarter ∷ []

quarters_sum : ela_sum sample_library sample_params quarters ≡ pos (1 * 2 ^ 64)
unfolding ela_sum bytes_eq ◌+ℤ◌
quarters_sum = refl

quarters_tokens : token_sum sample_library sample_params quarters ≡ pos 0
unfolding token_sum bytes_eq
quarters_tokens = refl

quarters_kind :
    min_fee sample_library sample_params
      (record transfer_txn { outputs = transfer_txn.outputs ++ quarters })
    ≡ min_fee sample_library sample_params transfer_txn
unfolding min_fee
quarters_kind = refl

check_balance-overflow_example :
    (check_balance sample_library sample_params
        (record transfer_txn { outputs = transfer_txn.outputs ++ quarters })
        (ela_output address (pos 700) ∷ [])
      ≡ ok tt)
    ↔ (check_balance sample_library sample_params transfer_txn (ela_output address (pos 700) ∷ [])
        ≡ ok tt)
check_balance-overflow_example =
    check_balance-overflow sample_library sample_params transfer_txn
      (ela_output address (pos 700) ∷ []) quarters 1 quarters_kind quarters_sum quarters_tokens

-- The tokens of one asset, in another.
abbrev swap_assets : Uint256 → Uint256
swap_assets k = if bytes_eq k token_id then replicate 32 3 else k

token_is_not_ela : ¬ (token_id ≡ ela_id)
token_is_not_ela e = ground (arith, bytes_eq_iff token_id ela_id)

other_is_not_ela : ¬ (replicate 32 3 ≡ ela_id)
other_is_not_ela e = ground (arith, bytes_eq_iff (replicate 32 3) ela_id)

swap_assets-ela : (k : Uint256) → (swap_assets k ≡ ela_id) ↔ (k ≡ ela_id)
swap_assets-ela k = elim (Bool-cases (bytes_eq k token_id)) [
  | inl same ↦
      rw (same, (bytes_eq_iff k token_id).0 same)
        (λ e. absurd (other_is_not_ela e), λ e. absurd (token_is_not_ela e))
  | inr other ↦ rw other (λ e. e, λ e. e)
]

check_balance-rename_example :
    check_balance sample_library sample_params transfer_txn (
      map
        (rename sample_library sample_params swap_assets)
        (ela_output address (pos 700) ∷ token_output address (pos 3) ∷ []))
    ≡ check_balance sample_library sample_params transfer_txn
        (ela_output address (pos 700) ∷ token_output address (pos 3) ∷ [])
check_balance-rename_example =
    check_balance-rename sample_library sample_params swap_assets swap_assets-ela transfer_txn
      (ela_output address (pos 700) ∷ token_output address (pos 3) ∷ [])

transfer_payload_passes :
    check_transaction_payload sample_library sample_params transfer_txn ≡ ok tt
unfolding check_transaction_payload
transfer_payload_passes = refl

check_transaction_payload_bounds_example :
    (transfer_txn.payload ≢ unknown)
    × ((p : PayloadRegisterAsset)
        → as_registration transfer_txn.payload ≡ some p
        → (sample_library.min_precision ≤ p.asset.precision) × (p.asset.precision ≤ 18))
check_transaction_payload_bounds_example =
    check_transaction_payload_bounds sample_library sample_params transfer_txn
      transfer_payload_passes
