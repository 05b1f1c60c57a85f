-- ===== src/Validator/Precision.antt =====
-- `checkAmountPrecise`, `checkTokenAmountPrecise` and `checkAssetPrecisionImpl` of
-- mempool/validator.go.
pub mod Amounts
pub mod Groups
use elastos_ela_side_chain_t.Base.{
  ℕ, ℤ, pos, ◌+◌, ◌-◌, ◌%◌, ◌^◌, List, [], ◌∷◌, ◌++◌, Bool, false, not, Option, none, some, Bytes,
  bytes_eq, leb, ◌==◌, if◌then◌else◌, length, nat_abs, wrap_int64, to_string, set_string,
  last_digits, Outcome, ok, panic, ◌>>=◌, ◌>>◌, reject_if, or_err,
}
use elastos_ela_side_chain_t.Types.{Uint256, Transaction, Output, is_register_asset}
use elastos_ela_side_chain_t.Library.{Library, ChainParams, ChainStore}
use elastos_ela_side_chain_t.Validator.Check.{Error, Check, each}

-- `a % m == 0` on `int64`: a remainder is zero whatever the signs, and `m == 0` panics.
pub is_multiple : ℤ → ℤ → Outcome Error Bool
is_multiple a m = if nat_abs m == 0 then panic else ok (nat_abs a % nat_abs m == 0)

-- The same on what `SetString` returned; where it failed the answer is false.
pub is_multiple_read : Option ℤ → ℤ → Outcome Error Bool
unfolding is_multiple
is_multiple_read none m = ok false
is_multiple_read (some a) m = is_multiple (wrap_int64 a) m

module _ (lib : Library) where
  -- `int64(math.Pow10(n))`
  pub pow10_int64 : ℕ → ℤ
  pow10_int64 n = if leb n 18 then pos (10 ^ n) else lib.int64_of_pow10 n

  -- `int(assetPrecision-precision)` subtracts bytes, and wraps.
  pub check_amount_precise : ℤ → ℕ → ℕ → Outcome Error Bool
  unfolding is_multiple pow10_int64
  check_amount_precise amount precision asset_precision =
      is_multiple amount (pow10_int64 ((asset_precision + 256 - precision) % 256))

  pub check_token_amount_precise : ℤ → ℕ → ℕ → Outcome Error Bool
  unfolding is_multiple_read pow10_int64
  check_token_amount_precise amount precision asset_precision =
      is_multiple_read (set_string (last_digits 18 (to_string amount)))
        (pow10_int64 ((asset_precision + 256 - precision) % 256))

-- `assetOutputs[v.AssetID] = append(assetOutputs[v.AssetID], v)`; the map is kept in the order of
-- insertion, where Go iterates in any order.
pub add_to_group : Output → List (Uint256 × List Output) → List (Uint256 × List Output)
add_to_group o [] = (o.asset_id, o ∷ []) ∷ []
add_to_group o ((k, os) ∷ groups) =
    if bytes_eq o.asset_id k then (k, os ++ (o ∷ [])) ∷ groups else (k, os) ∷ add_to_group o groups

pub group_outputs : List Output → List (Uint256 × List Output) → List (Uint256 × List Output)
unfolding add_to_group
group_outputs [] groups = groups
group_outputs (o ∷ os) groups = group_outputs os (add_to_group o groups)

module _ (lib : Library) (params : ChainParams) (db : ChainStore) where
  -- The body of the inner loop.
  pub check_output_precision : ℕ → Output → Check
  unfolding check_amount_precise check_token_amount_precise
  check_output_precision precision o =
      if lib.is_equal o.asset_id params.ela_asset_id
      then (do
        precise ← check_amount_precise lib o.value precision 8
        reject_if (not precise) Error.ela_precision)
      else (do
        precise ← check_token_amount_precise lib o.token_value precision 18
        reject_if (not precise) Error.token_precision)

  -- The body of the loop over the map.
  pub check_group : Uint256 × List Output → Check
  unfolding check_output_precision
  check_group (k, outputs) = do
    asset ← or_err (db.get_asset k) Error.asset_not_found
    each (check_output_precision asset.precision) outputs

  pub check_asset_precision : Transaction → Check
  unfolding check_group group_outputs
  check_asset_precision txn =
      if is_register_asset txn.tx_type
      then ok tt
      else if length txn.outputs == 0
      then ok tt
      else each check_group (group_outputs txn.outputs [])
