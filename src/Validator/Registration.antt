-- ===== src/Validator/Registration.antt =====
-- `CheckRegisterAssetTx`, `checkRegisterAssetTransaction` and `getPrecisionBigInt` of
-- mempool/validator.go.
pub mod Accepted
use elastos_ela_side_chain_t.Base.{
  ℕ, ℤ, pos, ◌^◌, ◌+ℤ◌, ◌*ℤ◌, List, [], ◌∷◌, not, ◌&&◌, ◌||◌, Bytes, bytes_eq, ltb, ◌==◌,
  if◌then◌else◌, length, leb_ℤ, eqb_ℤ, Outcome, ok, err, ◌>>=◌, ◌>>◌, reject_if, or_err,
}
use elastos_ela_side_chain_t.Types.{
  Transaction, Output, Asset, PayloadRegisterAsset, as_registration, is_register_asset,
}
use elastos_ela_side_chain_t.Library.{Library, ChainStore}
use elastos_ela_side_chain_t.Validator.Check.{Error, Check, each}

-- `getPrecisionBigInt`: 10 ^ 18
pub get_precision_big_int : ℤ
get_precision_big_int = pos (10 ^ 18)

-- The loop over the runes of the name.
pub check_name_char : ℕ → Check
check_name_char c =
    reject_if (ltb c 48 || ltb 57 c && ltb c 65 || ltb 90 c && ltb c 97 || ltb 122 c)
      Error.name_characters

-- The loop over the runes of the description.
pub check_description_char : ℕ → Check
check_description_char c = reject_if (ltb c 32 || ltb 126 c) Error.description_characters

-- The loop over the registered assets.
pub check_name_new : Asset → Asset → Check
check_name_new new asset =
    reject_if (bytes_eq asset.name new.name) (Error.name_registered asset.name)

module _ (lib : Library) where
  -- The loop that adds up the tokens of the new asset in the outputs.
  pub total_token : PayloadRegisterAsset → List Output → ℤ → Outcome Error ℤ
  total_token p [] total = ok total
  total_token p (o ∷ os) total =
      if lib.is_equal o.asset_id (lib.asset_hash p.asset)
      then (do
        reject_if (not (lib.is_equal o.program_hash p.controller)) Error.controller_mismatch
        total_token p os (total +ℤ o.token_value))
      else total_token p os total

  pub check_registration : ChainStore → List Output → PayloadRegisterAsset → Check
  unfolding check_name_char check_description_char check_name_new total_token get_precision_big_int
  check_registration db outputs p = do
    reject_if (leb_ℤ p.amount (pos 0)) Error.amount_not_positive
    reject_if (length p.asset.name == 0) Error.name_empty
    each check_name_char p.asset.name
    each check_description_char p.asset.description
    each (check_name_new p.asset) db.get_assets
    total ← total_token p outputs (pos 0)
    reject_if (not (eqb_ℤ total (p.amount *ℤ get_precision_big_int))) Error.register_amount

  -- `checkRegisterAssetTransaction`
  pub check_register_asset_transaction : ChainStore → Transaction → Check
  unfolding check_registration
  check_register_asset_transaction db txn = do
    p ← or_err (as_registration txn.payload) Error.not_registration
    check_registration db txn.outputs p

  -- `CheckRegisterAssetTx`; the error that it wraps is kept.
  pub check_register_asset_tx : ChainStore → Transaction → Check
  unfolding check_register_asset_transaction
  check_register_asset_tx db txn =
      if is_register_asset txn.tx_type then check_register_asset_transaction db txn else ok tt
