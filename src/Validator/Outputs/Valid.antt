-- ===== src/Validator/Outputs/Valid.antt =====
-- What `check_transaction_output` accepts.
use mathlib.Core.Logic.{◌≢◌}
use elastos_ela_side_chain_t.Base.{
  List, ℕ, pos, [], ◌∷◌, true, false, ◌≡◌, ◌↔◌, ◌⊎◌, inl, inr, ◌≤◌, ◌≤ℤ◌, bytes_eq_iff, length,
  replicate, All, All-of, ok, arith, eqb_ℤ_iff, Bool-cases,
}
use elastos_ela_side_chain_t.Types.{Transaction, Output, Uint168}
use elastos_ela_side_chain_t.Library.{Library, ChainParams}
use elastos_ela_side_chain_t.Validator.Check.{each, each-All}
use elastos_ela_side_chain_t.Validator.Outputs.{
  check_output_program_hash, check_output, check_transaction_output,
}

-- An address is all zero, or begins with one of the three known prefixes.
pub data IsAddress (lib : Library) : Uint168 → Type 0 where
  zeros : (h : Uint168) → h ≡ replicate 21 0 → IsAddress lib h
  prefixed :
      (b : ℕ) (rest : Uint168)
      → ((b ≡ lib.prefix_standard) ⊎ (b ≡ lib.prefix_multi_sig) ⊎ (b ≡ lib.prefix_cross_chain))
      → IsAddress lib (b ∷ rest)

pub check_output_program_hash_sound :
    (lib : Library) (h : Uint168) → check_output_program_hash lib h ≡ true → IsAddress lib h
unfolding check_output_program_hash
check_output_program_hash_sound lib [] e =
    zeros [] (ground (arith, lib.is_equal_iff [] (replicate 21 0)))
check_output_program_hash_sound lib (b ∷ h) e =
    elim (Bool-cases (lib.is_equal (b ∷ h) (replicate 21 0))) [
      | inl z ↦ zeros (b ∷ h) ((lib.is_equal_iff _ _).0 z)
      | inr z ↦ prefixed b h (ground arith)
    ]

pub check_output_program_hash_complete :
    (lib : Library) (h : Uint168) → IsAddress lib h → check_output_program_hash lib h ≡ true
unfolding check_output_program_hash
check_output_program_hash_complete lib h (zeros _ e) =
    ground (arith, lib.is_equal_iff h (replicate 21 0))
check_output_program_hash_complete lib h (prefixed b rest e) = ground arith

module _ (lib : Library) (params : ChainParams) where
  -- An ELA output carries a non-negative amount and no tokens; any other output carries tokens
  -- only, and stands in no cross chain transaction.
  pub record IsValidOutput (txn : Transaction) (o : Output) : Type 0 where
    pub has_asset : o.asset_id ≢ lib.empty_hash
    pub ela : o.asset_id ≡ params.ela_asset_id → (pos 0 ≤ℤ o.value) × (o.token_value ≡ pos 0)
    pub token :
        o.asset_id ≢ params.ela_asset_id
        → (lib.is_recharge_to_side_chain_tx txn ≡ false)
          × (lib.is_transfer_cross_chain_asset_tx txn ≡ false)
          × (pos 0 ≤ℤ o.token_value)
          × (o.value ≡ pos 0)
    pub address : IsAddress lib o.program_hash

  check_output_sound :
      (txn : Transaction) (o : Output) → check_output lib params txn o ≡ ok tt → IsValidOutput txn o
  unfolding check_output
  check_output_sound txn o e = record {
    has_asset = ground (arith, bytes_eq_iff o.asset_id lib.empty_hash);
    ela = ground (
      arith,
      bytes_eq_iff o.asset_id lib.empty_hash,
      bytes_eq_iff o.asset_id params.ela_asset_id,
      eqb_ℤ_iff o.token_value (pos 0),
    );
    token = ground (
      arith,
      bytes_eq_iff o.asset_id lib.empty_hash,
      bytes_eq_iff o.asset_id params.ela_asset_id,
      eqb_ℤ_iff o.value (pos 0),
    );
    address = check_output_program_hash_sound lib o.program_hash (ground arith);
  }

  check_output_complete :
      (txn : Transaction) (o : Output) → IsValidOutput txn o → check_output lib params txn o ≡ ok tt
  unfolding check_output
  check_output_complete txn o v = ground (
    arith,
    v.has_asset,
    v.ela,
    v.token,
    check_output_program_hash_complete lib o.program_hash v.address,
    bytes_eq_iff o.asset_id lib.empty_hash,
    bytes_eq_iff o.asset_id params.ela_asset_id,
    eqb_ℤ_iff o.value (pos 0),
    eqb_ℤ_iff o.token_value (pos 0),
  )

  check_outputs_iff :
      (txn : Transaction) (os : List Output)
      → (each (check_output lib params txn) os ≡ ok tt) ↔ All (IsValidOutput txn) os
  check_outputs_iff txn os = each-All (IsValidOutput txn) (check_output lib params txn) os (
      All-of {P = λ o. (check_output lib params txn o ≡ ok tt) ↔ IsValidOutput txn o}
        (λ o. (check_output_sound txn o, check_output_complete txn o)) os)

  -- Outside a coinbase transaction the check passes exactly if there is an output and every output
  -- is valid.
  pub check_transaction_output_iff :
      (txn : Transaction)
      → lib.is_coin_base_tx txn ≡ false
      → (check_transaction_output lib params txn ≡ ok tt)
        ↔ ((1 ≤ length txn.outputs) × All (IsValidOutput txn) txn.outputs)
  unfolding check_transaction_output
  check_transaction_output_iff txn c = ground (arith, check_outputs_iff txn txn.outputs)
