-- ===== src/Config/Paid.antt =====
-- The limits on fees that a configuration leaves, as the balance check uses them.
use elastos_ela_side_chain_t.Base.{
  ℕ, ◌<◌, ◌^◌, ℤ, pos, ◌-ℤ◌, ◌≤ℤ◌, ◌<ℤ◌, ◌≡◌, List, some, sub_int64, wrap_int64, ok, arith,
}
use elastos_ela_side_chain_t.Types.{Transaction, Output}
use elastos_ela_side_chain_t.Library.{Library, ChainParams, ChainStore}
use elastos_ela_side_chain_t.Texts.{Texts}
use elastos_ela_side_chain_t.Params.{NetParams}
use elastos_ela_side_chain_t.Config.{Rates, ConfigParams, ConfigLibrary, load_config}
use elastos_ela_side_chain_t.Config.Usable.{IsUsable, load_config-IsUsable}
use elastos_ela_side_chain_t.Validator.Balance.{check_transaction_balance}
use elastos_ela_side_chain_t.Validator.Balance.Sums.{
  ela_sum, min_fee, check_transaction_balance_iff,
}

-- The parameters that the checks read, from those of a network.
abbrev pub chain_params : {Rate : Type 0} → NetParams Rate → ChainParams
chain_params p = record {
  foundation = p.foundation;
  ela_asset_id = p.ela_asset_id;
  coinbase_maturity = p.coinbase_maturity;
  min_transaction_fee = p.min_transaction_fee;
  min_cross_chain_tx_fee = p.min_cross_chain_tx_fee;
}

-- A difference of two sums in range does not wrap.
exceeds :
    (spent paid : ℕ)
    → spent < 2 ^ 63
    → paid < 2 ^ 63
    → (least : ℤ) → pos 0 <ℤ least
    → least ≤ℤ sub_int64 (wrap_int64 (pos spent)) (wrap_int64 (pos paid))
    → paid < spent
unfolding sub_int64 wrap_int64 ◌-ℤ◌
exceeds spent paid fits fits' least h k = ground arith

module _ {Rate Genesis : Type 0} (lib : Library) (texts : Texts) (rates : Rates Rate)
    (config_lib : ConfigLibrary Rate Genesis) where
  min_fee-positive :
      (p : NetParams Rate) (txn : Transaction)
      → IsUsable lib rates p
      → pos 0 <ℤ min_fee lib (chain_params p) txn
  unfolding min_fee
  min_fee-positive p txn u = ground (arith, u.min_cross_chain_tx_fee, u.min_transaction_fee)

  -- Whatever the file 'config.json' says, a transaction that passes the balance check under the
  -- parameters that `loadConfig` leaves spends more ELA than it pays out: where its references are
  -- found, and the sums of the ELA inputs and outputs are neither negative nor beyond an int64.
  pub load_config-pays :
      (file_config : ConfigParams Rate) (db : ChainStore) (txn : Transaction)
      (references : List Output) (spent paid : ℕ)
      → let params = chain_params (load_config lib texts rates config_lib file_config).active in
        db.get_tx_reference txn ≡ some references
        → ela_sum lib params references ≡ pos spent
        → ela_sum lib params txn.outputs ≡ pos paid
        → spent < 2 ^ 63
        → paid < 2 ^ 63
        → check_transaction_balance lib params db txn ≡ ok tt
        → paid < spent
  load_config-pays file_config db txn references spent paid found ins outs fits fits' passed =
      let active = (load_config lib texts rates config_lib file_config).active in
      let usable = load_config-IsUsable lib texts rates config_lib file_config in
      let least = min_fee-positive active txn usable.0 in
      let enough =
        ((check_transaction_balance_iff lib (chain_params active) db txn references found).0
          passed).0 in
      exceeds spent paid fits fits' (min_fee lib (chain_params active) txn) least
        (rw (ins, outs) at enough)
