-- ===== src/Validator/Payload.antt =====
-- `checkTransactionPayloadImpl` of mempool/validator.go.
use elastos_ela_side_chain_t.Base.{
  ◌≤◌, ◌≡◌, ◌≢◌, true, not, ◌||◌, some, ltb, if◌then◌else◌, ok, ◌>>=◌, ◌>>◌, reject_if, arith,
}
use elastos_ela_side_chain_t.Types.{
  Transaction, Payload, PayloadRegisterAsset, coin_base_data, registration, transfer, record_data,
  recharge, cross_chain, unknown, as_registration,
}
use elastos_ela_side_chain_t.Library.{Library, ChainParams}
use elastos_ela_side_chain_t.Validator.Check.{Error, Check}
use elastos_ela_side_chain_t.Validator.Precision.{check_amount_precise}

module _ (lib : Library) (params : ChainParams) where
  -- The case of `PayloadRegisterAsset`.
  unfoldable pub check_registration_payload : Transaction → PayloadRegisterAsset → Check
  check_registration_payload txn p = do
    reject_if (ltb p.asset.precision lib.min_precision || ltb 18 p.asset.precision)
        Error.asset_precision
    if lib.is_equal (lib.hash txn) params.ela_asset_id
        then (do
          precise ← check_amount_precise lib p.amount p.asset.precision 8
          reject_if (not precise) Error.ela_amount_precision)
        else ok tt

  -- The type switch.
  unfoldable pub check_payload : Transaction → Payload → Check
  unfolding check_registration_payload
  check_payload txn (registration p) = check_registration_payload txn p
  check_payload txn transfer = ok tt
  check_payload txn record_data = ok tt
  check_payload txn (coin_base_data _) = ok tt
  check_payload txn (recharge _) = ok tt
  check_payload txn (cross_chain _) = ok tt
  check_payload txn unknown = reject_if true Error.payload_type

  unfoldable pub check_transaction_payload : Transaction → Check
  unfolding check_payload
  check_transaction_payload txn = check_payload txn txn.payload

  -- A transaction that passes has a known payload, and a registration's precision lies between the
  -- library's least precision and 18.
  pub check_transaction_payload_bounds :
      (txn : Transaction)
      → check_transaction_payload txn ≡ ok tt
      → (txn.payload ≢ unknown)
        × ((p : PayloadRegisterAsset)
            → as_registration txn.payload ≡ some p
            → (lib.min_precision ≤ p.asset.precision) × (p.asset.precision ≤ 18))
  unfolding check_transaction_payload
  check_transaction_payload_bounds txn e = (known, bounds txn.payload e)
    where
      known : txn.payload ≢ unknown
      known u = cc (rw u at e)

      bounds :
          (payload : Payload)
          → check_payload txn payload ≡ ok tt
          → (p : PayloadRegisterAsset) → as_registration payload ≡ some p
          → (lib.min_precision ≤ p.asset.precision) × (p.asset.precision ≤ 18)
      bounds (registration q) passed p same = ground arith
      bounds _ passed p same = cc
