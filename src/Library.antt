-- ===== src/Library.antt =====
-- What the node takes from libraries that are not in the repository: the methods of `types`, the
-- constants, and the chain store of the side chain library. All of it is a parameter of the model.
use elastos_ela_side_chain_t.Base.{ℕ, ℤ, Bytes, List, Bool, true, Option, ◌≡◌, ◌↔◌}
use elastos_ela_side_chain_t.Types.{
  Uint256, Uint168, Asset, Output, Transaction, PayloadRechargeToSideChain,
}

pub record Library : Type 0 where
  -- `Transaction.Hash`, `IsCoinBaseTx` and the tests beside it
  pub hash : Transaction → Uint256
  pub is_coin_base_tx : Transaction → Bool
  pub is_register_asset_tx : Transaction → Bool
  pub is_recharge_to_side_chain_tx : Transaction → Bool
  pub is_transfer_cross_chain_asset_tx : Transaction → Bool
  -- `Asset.Hash`
  pub asset_hash : Asset → Uint256
  -- `Uint256.IsEqual` and `Uint168.IsEqual` compare all bytes.
  pub is_equal : Bytes → Bytes → Bool
  pub is_equal_iff : (a b : Bytes) → (is_equal a b ≡ true) ↔ (a ≡ b)
  -- `GetMainchainTxHash`
  pub get_mainchain_tx_hash : PayloadRechargeToSideChain → ℕ → Option Uint256
  -- `types.GetSystemAssetId()`, `common.EmptyHash`, `types.MinPrecision`
  pub system_asset_id : Uint256
  pub empty_hash : Uint256
  pub min_precision : ℕ
  -- `contract.PrefixStandard`, `PrefixMultiSig`, `PrefixCrossChain`
  pub prefix_standard : ℕ
  pub prefix_multi_sig : ℕ
  pub prefix_cross_chain : ℕ
  -- What `int64(f)` gives for `f = math.Pow10(n)` with `n` above 18, where the conversion overflows:
  -- Go leaves the value to the implementation.
  pub int64_of_pow10 : ℕ → ℤ

-- The fields of `config.Params` that the checks read.
pub record ChainParams : Type 0 where
  pub foundation : Uint168
  pub ela_asset_id : Uint256
  pub coinbase_maturity : ℕ
  pub min_transaction_fee : ℤ
  pub min_cross_chain_tx_fee : ℤ

-- The read methods of `blockchain.ChainStore` at one moment; `none` is an error.
pub record ChainStore : Type 0 where
  pub get_transaction : Uint256 → Option (Transaction × ℕ)
  pub get_height : ℕ
  -- the values of the map that `GetAssets` returns
  pub get_assets : List Asset
  pub get_asset : Uint256 → Option Asset
  -- the values of the map that `GetTxReference` returns, in the order of one iteration
  pub get_tx_reference : Transaction → Option (List Output)
