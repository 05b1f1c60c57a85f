-- ===== src/Service/Transactions.antt =====
-- `GetTransactionInfo` of service/service.go.
pub mod Values
use elastos_ela_side_chain_t.Base.{
  ℕ, suc, ◌+◌, ◌%◌, ◌^◌, Bytes, List, [], ◌∷◌, Option, none, some, if◌then◌else◌, to_string,
  Outcome, ok, ◌>>=◌, map,
}
use elastos_ela_side_chain_t.Types.{Uint256, TxType, Transaction, Input, Output, Attribute, Program}
use elastos_ela_side_chain_t.Library.{Library}
use elastos_ela_side_chain_t.Texts.{Texts}
use elastos_ela_side_chain_t.Service.{ServiceError}
use elastos_ela_side_chain_t.Service.Received.{div_tokens}
use elastos_ela_side_chain_t.Service.Unspent.{confirmations_of}
use elastos_ela_side_chain_t.Service.Payloads.{PayloadInfo, PayloadVersions, get_payload_info}

pub record InputInfo : Type 0 where
  pub tx_id : Bytes
  pub vout : ℕ
  pub sequence : ℕ

pub record OutputInfo : Type 0 where
  pub value : Bytes
  pub index : ℕ
  pub address : Bytes
  pub asset_id : Bytes
  pub output_lock : ℕ

pub record AttributeInfo : Type 0 where
  pub usage : ℕ
  pub attribute_data : Bytes

pub record ProgramInfo : Type 0 where
  pub code : Bytes
  pub parameter : Bytes

pub record TransactionInfo : Type 0 where
  pub tx_id : Bytes
  pub hash : Bytes
  pub size : ℕ
  pub vsize : ℕ
  pub version : ℕ
  pub lock_time : ℕ
  pub inputs : List InputInfo
  pub outputs : List OutputInfo
  pub block_hash : Bytes
  pub confirmations : ℕ
  pub time : ℕ
  pub block_time : ℕ
  pub tx_type : TxType
  pub payload_version : ℕ
  pub payload : Option PayloadInfo
  pub attributes : List AttributeInfo
  pub programs : List ProgramInfo

-- The fields of `types.Header` that are read.
pub record Header : Type 0 where
  pub height : ℕ
  pub timestamp : ℕ
  pub hash : Uint256

-- The block hash, the confirmations and the time, from a header or nil.
unfoldable pub block_fields : Texts → ℕ → Option Header → Bytes × ℕ × ℕ
block_fields texts best_height none = ([], 0, 0)
block_fields texts best_height (some header) = (
  texts.to_reversed_string header.hash,
  confirmations_of best_height header.height,
  header.timestamp,
)

module _ (lib : Library) (texts : Texts) where
  unfoldable pub input_info : Input → InputInfo
  input_info v = record {
    tx_id = texts.to_reversed_string v.previous_tx_id;
    vout = v.previous_index;
    sequence = v.sequence;
  }

  -- The text of an amount: that of a `Fixed64`, or of the whole tokens.
  unfoldable pub output_value : Output → Bytes
  output_value v =
      if lib.is_equal v.asset_id lib.system_asset_id
      then texts.fixed64_string v.value
      else to_string (div_tokens v.token_value)

  unfoldable pub output_info : ℕ → Output → OutputInfo
  unfolding output_value
  output_info i v = record {
    value = output_value v;
    index = i % 2 ^ 32;
    address = texts.to_address v.program_hash;
    asset_id = texts.to_reversed_string v.asset_id;
    output_lock = v.output_lock;
  }

  -- The loop over the outputs, from the index `i` on.
  unfoldable pub output_infos : ℕ → List Output → List OutputInfo
  unfolding output_info
  output_infos i [] = []
  output_infos i (v ∷ outputs) = output_info i v ∷ output_infos (suc i) outputs

  unfoldable pub attribute_info : Attribute → AttributeInfo
  attribute_info v = record {
    usage = v.usage;
    attribute_data = texts.bytes_to_hex_string v.attribute_data;
  }

  unfoldable pub program_info : Program → ProgramInfo
  program_info v = record {
    code = texts.bytes_to_hex_string v.code;
    parameter = texts.bytes_to_hex_string v.parameter;
  }

  -- `GetTransactionInfo`, with `tx.GetSize()` and the best height of `cfg.Chain`.
  unfoldable pub get_transaction_info :
      PayloadVersions
      → (Transaction → ℕ)
      → ℕ
      → Option Header
      → Transaction
      → Outcome ServiceError TransactionInfo
  unfolding input_info output_infos attribute_info program_info block_fields get_payload_info
  get_transaction_info versions get_size best_height header tx = do
    payload ← get_payload_info texts versions tx.payload tx.payload_version
    let (block_hash, confirmations, time) = block_fields texts best_height header
    ok (record {
      tx_id = texts.to_reversed_string (lib.hash tx);
      hash = texts.to_reversed_string (lib.hash tx);
      size = get_size tx % 2 ^ 32;
      vsize = get_size tx % 2 ^ 32;
      version = 0;
      lock_time = tx.lock_time;
      inputs = map input_info tx.inputs;
      outputs = output_infos 0 tx.outputs;
      block_hash = block_hash;
      confirmations = confirmations;
      time = time;
      block_time = time;
      tx_type = tx.tx_type;
      payload_version = tx.payload_version;
      payload = payload;
      attributes = map attribute_info tx.attributes;
      programs = map program_info tx.programs;
    })
