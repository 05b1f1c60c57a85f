-- ===== src/Params.antt =====
-- params/params.go: the parameters of the three networks. An exchange rate is a float64, of which
-- the code only uses the constant 1: its type is a parameter. A duration is in nanoseconds.
use Prim.Native.Char.{code}
use Prim.Native.String.{String}
use elastos_ela_side_chain_t.Base.{
  ℕ, ℤ, pos, ◌-◌, ◌*◌, ◌^◌, Bytes, List, [], ◌∷◌, Bool, false, replicate,
}
use elastos_ela_side_chain_t.Types.{Uint256, Uint168, TxType, Transaction, Block, registration}
use elastos_ela_side_chain_t.Library.{Library}

-- The bytes of a text in ASCII.
abbrev pub codes : String → Bytes
codes String.[] = []
codes (String.◌∷◌ c s) = code c ∷ codes s

-- `config.Params`
pub record NetParams (Rate : Type 0) : Type 0 where
  pub name : Bytes
  pub magic : ℕ
  pub default_port : ℕ
  pub dns_seeds : List Bytes
  pub foundation : Uint168
  pub ela_asset_id : Uint256
  pub genesis_block : Block
  pub pow_limit : ℕ
  pub pow_limit_bits : ℕ
  pub target_timespan : ℕ
  pub target_time_per_block : ℕ
  pub adjustment_factor : ℤ
  pub coinbase_maturity : ℕ
  pub min_transaction_fee : ℤ
  pub exchange_rate : Rate
  pub min_cross_chain_tx_fee : ℤ
  pub check_pow_header_height : ℕ
  pub disable_tx_filters : Bool

-- `elaAsset`: the registration of ELA.
abbrev pub ela_asset : Transaction
ela_asset = record {
  tx_type = TxType.register_asset;
  payload_version = 0;
  payload = registration (record {
    asset = record { name = codes "ELA"; description = []; precision = 8; asset_type = 0 };
    amount = pos (0 * 100000000);
    controller = replicate 21 0;
  });
  inputs = [];
  outputs = [];
  lock_time = 0;
  attributes = [];
  programs = [];
}

-- `GenesisBlock`, as the fields of `Block`.
abbrev pub genesis_block : Block
genesis_block = record { height = 0; transactions = ela_asset ∷ [] }

-- `powLimit`
abbrev pub pow_limit : ℕ
pow_limit = 2 ^ 255 - 1

abbrev pub main_net_foundation : Uint168
main_net_foundation =
    0x12 ∷ 0x9e ∷ 0x9c ∷ 0xf1 ∷ 0xc5 ∷ 0xf3 ∷ 0x36 ∷ 0xfc ∷ 0xf3 ∷ 0xa6 ∷ 0xc9 ∷ 0x54 ∷ 0x44 ∷ 0x4e
    ∷ 0xd4 ∷ 0x82 ∷ 0xc5 ∷ 0xd9 ∷ 0x16 ∷ 0xe5 ∷ 0x06 ∷ []

abbrev pub test_net_foundation : Uint168
test_net_foundation =
    0x12 ∷ 0x50 ∷ 0x96 ∷ 0x58 ∷ 0xd3 ∷ 0x9e ∷ 0x4b ∷ 0xde ∷ 0x30 ∷ 0x79 ∷ 0xe3 ∷ 0xf8 ∷ 0xde ∷ 0x91
    ∷ 0xf4 ∷ 0x9c ∷ 0xaa ∷ 0x97 ∷ 0x01 ∷ 0x5c ∷ 0x9e ∷ []

-- `time.Second`
abbrev pub second : ℕ
second = 10 ^ 9

module _ {Rate : Type 0} (lib : Library) (one : Rate) where
  -- `MainNetParams`
  unfoldable pub main_net_params : NetParams Rate
  main_net_params = record {
    name = codes "mainnet";
    magic = 2019004;
    default_port = 20618;
    dns_seeds =
        codes "node-mainnet-005.elastos.org:20618"
        ∷ codes "node-mainnet-010.elastos.org:20618"
        ∷ codes "node-mainnet-015.elastos.org:20618"
        ∷ codes "node-mainnet-020.elastos.org:20618"
        ∷ codes "node-mainnet-025.elastos.org:20618"
        ∷ [];
    foundation = main_net_foundation;
    ela_asset_id = lib.hash ela_asset;
    genesis_block = genesis_block;
    pow_limit = pow_limit;
    pow_limit_bits = 0x1f0008ff;
    target_timespan = 24 * 3600 * second;
    target_time_per_block = 2 * 60 * second;
    adjustment_factor = pos 4;
    coinbase_maturity = 100;
    min_transaction_fee = pos 100;
    exchange_rate = one;
    min_cross_chain_tx_fee = pos 10000;
    check_pow_header_height = 31538;
    disable_tx_filters = false;
  }

module _ {Rate : Type 0} where
  -- `testNetParams`
  unfoldable pub test_net_params : NetParams Rate → NetParams Rate
  test_net_params cfg = record cfg {
    name = codes "testnet";
    magic = 2019104;
    default_port = 21618;
    dns_seeds =
        codes "node-testnet-002.elastos.org:21618"
        ∷ codes "node-testnet-003.elastos.org:21618"
        ∷ codes "node-testnet-004.elastos.org:21618"
        ∷ [];
    foundation = test_net_foundation;
    check_pow_header_height = 30000;
  }

  -- `regNetParams`
  unfoldable pub reg_net_params : NetParams Rate → NetParams Rate
  reg_net_params cfg = record cfg {
    name = codes "regnet";
    magic = 2019204;
    default_port = 22618;
    dns_seeds =
        codes "node-regtest-102.eadd.co:22618"
        ∷ codes "node-regtest-103.eadd.co:22618"
        ∷ codes "node-regtest-104.eadd.co:22618"
        ∷ [];
    foundation = test_net_foundation;
    check_pow_header_height = 20000;
  }

  -- `InstantBlock`
  unfoldable pub instant_block : NetParams Rate → NetParams Rate
  instant_block cfg = record cfg {
    pow_limit_bits = 0x207fffff;
    target_timespan = 1 * second * 10;
    target_time_per_block = 1 * second;
  }
