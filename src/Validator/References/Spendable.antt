-- ===== src/Validator/References/Spendable.antt =====
-- Which inputs `check_referenced_output` lets through.
use elastos_ela_side_chain_t.Base.{
  ℕ, pos, ◌+◌, ◌^◌, ◌≤◌, ◌<◌, inl, inr, ◌<ℤ◌, ◌≡◌, ◌≢◌, ◌↔◌, true, List, ◌∷◌, ◌++◌, length, some,
  get_elem?, get_elem?-eq-none, All, All-map, ok, panic, arith, Option-cases, ltb,
}
use elastos_ela_side_chain_t.Types.{Transaction, Input, Output}
use elastos_ela_side_chain_t.Library.{Library, ChainParams, ChainStore}
use elastos_ela_side_chain_t.Validator.Check.{each, each-All, each-append}
use elastos_ela_side_chain_t.Validator.References.{
  sub_uint32, check_maturity, check_reference, check_referenced_output,
}

-- At a height past the lock, the age that the code computes is below the maturity exactly if the
-- true age is.
pub ltb-sub_uint32_past :
    (height lock maturity : ℕ)
    → lock ≤ height
    → height < 2 ^ 32
    → (ltb (sub_uint32 height lock) maturity ≡ true) ↔ (height < lock + maturity)
unfolding sub_uint32
ltb-sub_uint32_past height lock maturity le hi = ground arith

module _ (lib : Library) (params : ChainParams) (db : ChainStore) where
  -- An input that the specification accepts: it names an output of a stored transaction, with a
  -- positive amount of its asset, and mature if it comes from a coinbase.
  pub record IsSpendable (input : Input) : Type 0 where
    pub refer_txn : Transaction
    pub at_height : ℕ
    pub output : Output
    pub stored : db.get_transaction input.previous_tx_id ≡ some (refer_txn, at_height)
    pub indexed : get_elem? refer_txn.outputs input.previous_index ≡ some output
    pub ela : output.asset_id ≡ params.ela_asset_id → pos 0 <ℤ output.value
    pub token : output.asset_id ≢ params.ela_asset_id → pos 0 <ℤ output.token_value
    pub mature :
        lib.is_coin_base_tx refer_txn ≡ true
        → refer_txn.lock_time + params.coinbase_maturity ≤ db.get_height

  -- No referenced transaction is locked beyond the current height, and heights are uint32.
  pub record IsPast (input : Input) : Type 0 where
    pub height_fits : db.get_height < 2 ^ 32
    pub locked_before :
        (refer_txn : Transaction) (at_height : ℕ)
        → db.get_transaction input.previous_tx_id ≡ some (refer_txn, at_height)
        → refer_txn.lock_time ≤ db.get_height

  check_reference_sound :
      (input : Input)
      → IsPast input
      → check_reference lib params db input ≡ ok tt
      → IsSpendable input
  unfolding check_reference
  check_reference_sound input past e =
      elim (Option-cases (db.get_transaction input.previous_tx_id)) [
        | inl missing ↦ absurd (ground arith)
        | inr ((t, h), found) ↦ elim (Option-cases (get_elem? t.outputs input.previous_index)) [
          | inl out ↦ absurd (ground arith)
          | inr (o, at) ↦ record {
            refer_txn = t;
            at_height = h;
            output = o;
            stored = found;
            indexed = at;
            ela = ground (arith, lib.is_equal_iff o.asset_id params.ela_asset_id);
            token = ground (arith, lib.is_equal_iff o.asset_id params.ela_asset_id);
            mature = ground (arith, past.locked_before t h found);
          }
        ]
      ]

  check_reference_complete :
      (input : Input)
      → IsPast input
      → IsSpendable input
      → check_reference lib params db input ≡ ok tt
  unfolding check_reference
  check_reference_complete input past s = ground (
    arith,
    s.stored,
    s.indexed,
    s.ela,
    s.token,
    s.mature,
    past.locked_before s.refer_txn s.at_height s.stored,
    lib.is_equal_iff s.output.asset_id params.ela_asset_id,
  )

  -- Where no referenced transaction is locked in the future, the check passes exactly if every
  -- input is spendable.
  pub check_referenced_output_iff :
      (txn : Transaction)
      → All IsPast txn.inputs
      → (check_referenced_output lib params db txn ≡ ok tt) ↔ All IsSpendable txn.inputs
  unfolding check_referenced_output
  check_referenced_output_iff txn past =
      each-All IsSpendable (check_reference lib params db) txn.inputs
        (All-map (λ i p. (check_reference_sound i p, check_reference_complete i p)) txn.inputs past)

  -- A coinbase transaction that is locked beyond the current height is not refused: the age wraps
  -- around, and the check passes as long as the wrapped age reaches the maturity.
  check_maturity_future :
      (refer_txn : Transaction)
      → db.get_height < refer_txn.lock_time
      → refer_txn.lock_time + params.coinbase_maturity ≤ 2 ^ 32 + db.get_height
      → check_maturity lib params db refer_txn ≡ ok tt
  unfolding check_maturity
  check_maturity_future refer_txn future room = ground arith

  -- Behind spendable inputs, an input whose index is out of range ends the check in a panic.
  pub check_referenced_output_panic :
      (txn : Transaction) (front : List Input) (input : Input) (back : List Input)
      {refer_txn : Transaction} {at_height : ℕ}
      → txn.inputs ≡ front ++ (input ∷ back)
      → All IsPast front
      → All IsSpendable front
      → db.get_transaction input.previous_tx_id ≡ some (refer_txn, at_height)
      → length refer_txn.outputs ≤ input.previous_index
      → check_referenced_output lib params db txn ≡ panic
  unfolding check_referenced_output
  check_referenced_output_panic txn front input back split past fine stored out =
      rw (split, each-append (check_reference lib params db) front (input ∷ back) passed)
        (unfold each check_reference in rw (stored, get_elem?-eq-none _ _ out))
    where
      passed : each (check_reference lib params db) front ≡ ok tt
      passed =
          (each-All IsSpendable (check_reference lib params db) front (
              All-map (λ i p. (check_reference_sound i p, check_reference_complete i p)) front
                past)).1
            fine
