-- ===== src/Types.antt =====
-- The data that the node shares with its libraries: transactions, blocks, assets (package `types` of
-- the side chain library, as the fields that this repository reads), and the chain parameters.
use elastos_ela_side_chain_t.Base.{ℕ, ℤ, Bytes, List, Bool, true, false, Option, none, some}

-- `common.Uint256` and `common.Uint168` are byte arrays.
abbrev pub Uint256 : Type 0
Uint256 = Bytes

abbrev pub Uint168 : Type 0
Uint168 = Bytes

-- The transaction types that the source compares with; `other` is any further one.
pub data TxType : Type 0 where
  coin_base register_asset transfer_asset recharge_to_side_chain transfer_cross_chain_asset : TxType
  other : ℕ → TxType

-- `txn.TxType == types.RegisterAsset`
abbrev pub is_register_asset : TxType → Bool
is_register_asset register_asset = true
is_register_asset _ = false

-- `txn.TxType == types.RechargeToSideChain`
abbrev pub is_recharge : TxType → Bool
is_recharge recharge_to_side_chain = true
is_recharge _ = false

-- A Go string is the list of the runes that `range` yields.
pub record Asset : Type 0 where
  pub name : List ℕ
  pub description : List ℕ
  pub precision : ℕ
  pub asset_type : ℕ

pub record PayloadRegisterAsset : Type 0 where
  pub asset : Asset
  pub amount : ℤ
  pub controller : Uint168

pub record PayloadRechargeToSideChain : Type 0 where
  pub merkle_proof : Bytes
  pub main_chain_transaction : Bytes
  pub main_chain_transaction_hash : Uint256

pub record PayloadTransferCrossChainAsset : Type 0 where
  pub cross_chain_addresses : List Bytes
  pub output_indexes : List ℕ
  pub cross_chain_amounts : List ℤ

-- The dynamic types of `types.Payload`; `unknown` is any other, or nil.
pub data Payload : Type 0 where
  coin_base_data : Bytes → Payload
  registration : PayloadRegisterAsset → Payload
  transfer : Payload
  record_data : Payload
  recharge : PayloadRechargeToSideChain → Payload
  cross_chain : PayloadTransferCrossChainAsset → Payload
  unknown : Payload

-- `p.(*types.PayloadRegisterAsset)`
abbrev pub as_registration : Payload → Option PayloadRegisterAsset
as_registration (registration p) = some p
as_registration _ = none

-- `p.(*types.PayloadRechargeToSideChain)`
abbrev pub as_recharge : Payload → Option PayloadRechargeToSideChain
as_recharge (recharge p) = some p
as_recharge _ = none

-- `value` is a `Fixed64`, an int64; `token_value` is a `big.Int`.
pub record Output : Type 0 where
  pub asset_id : Uint256
  pub value : ℤ
  pub token_value : ℤ
  pub output_lock : ℕ
  pub program_hash : Uint168

-- `previous_tx_id` and `previous_index` are the fields of `Previous`.
pub record Input : Type 0 where
  pub previous_tx_id : Uint256
  pub previous_index : ℕ
  pub sequence : ℕ

pub record Attribute : Type 0 where
  pub usage : ℕ
  pub attribute_data : Bytes

pub record Program : Type 0 where
  pub code : Bytes
  pub parameter : Bytes

pub record Transaction : Type 0 where
  pub tx_type : TxType
  pub payload_version : ℕ
  pub payload : Payload
  pub inputs : List Input
  pub outputs : List Output
  pub lock_time : ℕ
  pub attributes : List Attribute
  pub programs : List Program

pub record Block : Type 0 where
  pub height : ℕ
  pub transactions : List Transaction
