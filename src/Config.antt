-- ===== src/Config.antt =====
-- config.go: what the file 'config.json' makes of the parameters of the networks, and the sizes of
-- the log files of log.go.
pub mod Usable
pub mod Paid
use elastos_ela_side_chain_t.Base.{
  ℕ, ℤ, pos, ◌+◌, ◌*◌, ◌-ℤ◌, Bytes, List, [], ◌∷◌, Bool, true, false, ◌&&◌, ◌||◌, ◌==◌, Option,
  none, some, if◌then◌else◌, bytes_eq, ltb, leb, ltb_ℤ, length, drop, take, wrap_int64, ◌*ℤ◌, ◌≡◌,
}
use elastos_ela_side_chain_t.Types.{Uint168}
use elastos_ela_side_chain_t.Library.{Library}
use elastos_ela_side_chain_t.Texts.{Texts}
use elastos_ela_side_chain_t.Params.{
  NetParams, codes, main_net_params, test_net_params, reg_net_params, instant_block,
}

-- What the code does with an exchange rate.
pub record Rates (Rate : Type 0) : Type 0 where
  pub zero : Rate
  pub one : Rate
  pub is_positive : Rate → Bool
  pub is_positive_one : is_positive one ≡ true

-- `configParams`
pub record ConfigParams (Rate : Type 0) : Type 0 where
  pub active_net : Bytes
  pub magic : ℕ
  pub node_port : ℕ
  pub dns_seeds : List Bytes
  pub disable_dns : Bool
  pub permanent_peers : List Bytes
  pub spv_magic : ℕ
  pub spv_dns_seeds : List Bytes
  pub spv_disable_dns : Bool
  pub spv_permanent_peers : List Bytes
  pub enable_rpc : Bool
  pub rpc_port : ℕ
  pub rpc_user : Bytes
  pub rpc_pass : Bytes
  pub rpc_white_list : List Bytes
  pub log_level : ℕ
  pub logs_folder_size : ℤ
  pub per_log_file_size : ℤ
  pub foundation_address : Bytes
  pub disable_tx_filters : Bool
  pub exchange_rate : Rate
  pub min_cross_chain_tx_fee : ℤ
  pub enable_mining : Bool
  pub instant_block : Bool
  pub pay_to_addr : Bytes
  pub miner_info : Bytes

-- The parameters of the main chain's networks that the code sets, and what comes with them from the
-- library: the networks, `config.GenesisBlock`, and `json.Unmarshal` into a configuration.
pub record SpvParams (Genesis : Type 0) : Type 0 where
  pub magic : ℕ
  pub dns_seeds : List Bytes
  pub foundation : Uint168
  pub genesis_block : Genesis

pub record ConfigLibrary (Rate Genesis : Type 0) : Type 0 where
  pub main_net : SpvParams Genesis
  pub test_net : SpvParams Genesis
  pub reg_net : SpvParams Genesis
  pub genesis_block : Uint168 → Genesis
  pub unmarshal : Bytes → ConfigParams Rate → ConfigParams Rate
  pub level_info : ℕ

-- `strings.ToLower`, for the letters that matter to a comparison with these words.
abbrev pub lower_letter : ℕ → ℕ
lower_letter c = if leb b'A' c && leb c b'Z' then c + 32 else c

unfoldable pub to_lower : Bytes → Bytes
to_lower [] = []
to_lower (c ∷ s) = lower_letter c ∷ to_lower s

-- `bytes.TrimPrefix(file, []byte("\xef\xbb\xbf"))`
unfoldable pub trim_mark : Bytes → Bytes
trim_mark file = if bytes_eq (take 3 file) (0xef ∷ 0xbb ∷ 0xbf ∷ []) then drop 3 file else file

module _ {Rate : Type 0} where
  -- `mainNetDefault`, `testNetDefault`, `regNetDefault`
  unfoldable pub main_net_default : ConfigParams Rate → ConfigParams Rate
  main_net_default cfg = if cfg.rpc_port == 0 then record cfg { rpc_port = 20616 } else cfg

  unfoldable pub test_net_default : ConfigParams Rate → ConfigParams Rate
  test_net_default cfg = if cfg.rpc_port == 0 then record cfg { rpc_port = 21616 } else cfg

  unfoldable pub reg_net_default : ConfigParams Rate → ConfigParams Rate
  reg_net_default cfg = if cfg.rpc_port == 0 then record cfg { rpc_port = 22616 } else cfg

-- The configuration, `spvNetParams` and `activeNetParams`.
pub record Loaded (Rate Genesis : Type 0) : Type 0 where
  pub cfg : ConfigParams Rate
  pub spv : SpvParams Genesis
  pub active : NetParams Rate

-- An empty list counts as not given.
abbrev pub given_seeds : List Bytes → List Bytes → List Bytes
given_seeds [] seeds = seeds
given_seeds (s ∷ ss) seeds = s ∷ ss

abbrev pub is_word : Bytes → List Bytes → Bool
is_word s [] = false
is_word s (w ∷ ws) = bytes_eq s w || is_word s ws

module _ {Rate Genesis : Type 0} (lib : Library) (texts : Texts) (rates : Rates Rate)
    (config_lib : ConfigLibrary Rate Genesis) where
  -- `defaultConfig`
  unfoldable pub default_config : ConfigParams Rate
  default_config = record {
    active_net = [];
    magic = 0;
    node_port = 0;
    dns_seeds = [];
    disable_dns = false;
    permanent_peers = [];
    spv_magic = 0;
    spv_dns_seeds = [];
    spv_disable_dns = false;
    spv_permanent_peers = [];
    enable_rpc = false;
    rpc_port = 0;
    rpc_user = [];
    rpc_pass = [];
    rpc_white_list = [];
    log_level = config_lib.level_info;
    logs_folder_size = pos 0;
    per_log_file_size = pos 0;
    foundation_address = [];
    disable_tx_filters = false;
    exchange_rate = rates.zero;
    min_cross_chain_tx_fee = pos 0;
    enable_mining = false;
    instant_block = false;
    pay_to_addr = [];
    miner_info = [];
  }

  -- `loadConfigFile`, from the bytes of the file; `none` where it cannot be read.
  unfoldable pub load_config_file : Option Bytes → ConfigParams Rate
  load_config_file none = default_config
  load_config_file (some file) = config_lib.unmarshal (trim_mark file) default_config

  -- The switch on the network.
  unfoldable pub choose_net : ConfigParams Rate → Loaded Rate Genesis
  choose_net cfg =
      let net = to_lower cfg.active_net in
      let main = main_net_params lib rates.one in
      if is_word net (codes "testnet" ∷ codes "test" ∷ codes "t" ∷ [])
      then record {
        cfg = test_net_default cfg;
        spv = config_lib.test_net;
        active = test_net_params main;
      }
      else if is_word net (codes "regnet" ∷ codes "reg" ∷ codes "r" ∷ [])
      then record {
        cfg = reg_net_default cfg;
        spv = config_lib.reg_net;
        active = reg_net_params main;
      }
      else record { cfg = main_net_default cfg; spv = config_lib.main_net; active = main }

  -- The foundation, where an address is given that can be read.
  unfoldable pub set_foundation :
      Option Uint168 → SpvParams Genesis × NetParams Rate → SpvParams Genesis × NetParams Rate
  set_foundation none nets = nets
  set_foundation (some foundation) (spv, active) = (
    record spv { foundation = foundation; genesis_block = config_lib.genesis_block foundation },
    record active { foundation = foundation },
  )

  unfoldable pub given_foundation : Bytes → Option Uint168
  given_foundation [] = none
  given_foundation (c ∷ s) = texts.uint168_from_address (c ∷ s)

  -- What the file overrides in `spvNetParams`.
  unfoldable pub override_spv : ConfigParams Rate → SpvParams Genesis → SpvParams Genesis
  override_spv cfg spv =
      let seeds = given_seeds cfg.spv_dns_seeds spv.dns_seeds in
      record spv {
        magic = if ltb 0 cfg.spv_magic then cfg.spv_magic else spv.magic;
        dns_seeds = if cfg.spv_disable_dns then [] else seeds;
      }

  -- What the file overrides in `activeNetParams`, the foundation and `InstantBlock` aside.
  unfoldable pub override_net : ConfigParams Rate → NetParams Rate → NetParams Rate
  override_net cfg active =
      let seeds = given_seeds cfg.dns_seeds active.dns_seeds in
      record active {
        magic = if ltb 0 cfg.magic then cfg.magic else active.magic;
        dns_seeds = if cfg.disable_dns then [] else seeds;
        default_port = if ltb 0 cfg.node_port then cfg.node_port else active.default_port;
        exchange_rate =
            if rates.is_positive cfg.exchange_rate then cfg.exchange_rate else active.exchange_rate;
        disable_tx_filters = cfg.disable_tx_filters || active.disable_tx_filters;
        min_cross_chain_tx_fee =
            if ltb_ℤ (pos 0) cfg.min_cross_chain_tx_fee
            then cfg.min_cross_chain_tx_fee
            else active.min_cross_chain_tx_fee;
      }

  unfoldable pub override_active : ConfigParams Rate → NetParams Rate → NetParams Rate
  unfolding override_net
  override_active cfg active =
      let changed = override_net cfg active in
      if cfg.instant_block then instant_block changed else changed

  -- `loadConfig`, behind `loadConfigFile`.
  unfoldable pub load_config : ConfigParams Rate → Loaded Rate Genesis
  unfolding choose_net set_foundation given_foundation override_spv override_active
  load_config file_config =
      let chosen = choose_net file_config in
      let (spv, active) =
        set_foundation (given_foundation chosen.cfg.foundation_address)
          (chosen.spv, chosen.active) in
      record {
        cfg = chosen.cfg;
        spv = override_spv chosen.cfg spv;
        active = override_active chosen.cfg active;
      }

  -- `configFileWriter`: the two sizes, with the library's `MBSize` and `GBSize`; the product wraps.
  unfoldable pub log_sizes : ℕ → ℕ → ConfigParams Rate → ℤ × ℤ
  log_sizes mb_size gb_size cfg = (
    if ltb_ℤ (pos 0) cfg.per_log_file_size
        then wrap_int64 (cfg.per_log_file_size *ℤ pos mb_size)
        else pos (mb_size * 20),
    if ltb_ℤ (pos 0) cfg.logs_folder_size
        then wrap_int64 (cfg.logs_folder_size *ℤ pos mb_size)
        else pos (gb_size * 2),
  )
