-- ===== src/Config/Usable.antt =====
-- Every file 'config.json' leaves parameters that the node can run with.
use elastos_ela_side_chain_t.Base.{
  pos, ◌<◌, ◌<ℤ◌, ◌≡◌, refl, [], ◌∷◌, true, ◌==◌, Option, none, some, arith, Bool-cases, inl, inr,
}
use elastos_ela_side_chain_t.Types.{Uint168}
use elastos_ela_side_chain_t.Library.{Library}
use elastos_ela_side_chain_t.Texts.{Texts}
use elastos_ela_side_chain_t.Params.{
  NetParams, codes, ela_asset, main_net_params, test_net_params, reg_net_params, instant_block,
}
use elastos_ela_side_chain_t.Config.{
  Rates, ConfigParams, SpvParams, ConfigLibrary, main_net_default, test_net_default,
  reg_net_default, to_lower, is_word, choose_net, set_foundation, given_foundation, override_net,
  override_active, load_config,
}

-- The parameters are those of one chain and can be run with: the limits that a file cannot change are
-- the main network's, and no other is zero.
pub record IsUsable {Rate : Type 0} (lib : Library) (rates : Rates Rate) (p : NetParams Rate)
    : Type 0 where
  pub magic : 0 < p.magic
  pub default_port : 0 < p.default_port
  pub ela_asset_id : p.ela_asset_id ≡ lib.hash ela_asset
  pub coinbase_maturity : p.coinbase_maturity ≡ 100
  pub min_transaction_fee : p.min_transaction_fee ≡ pos 100
  pub min_cross_chain_tx_fee : pos 0 <ℤ p.min_cross_chain_tx_fee
  pub exchange_rate : rates.is_positive p.exchange_rate ≡ true

module _ {Rate Genesis : Type 0} (lib : Library) (texts : Texts) (rates : Rates Rate)
    (config_lib : ConfigLibrary Rate Genesis) where
  main_net_params-IsUsable : IsUsable lib rates (main_net_params lib rates.one)
  unfolding main_net_params
  main_net_params-IsUsable = record {
    magic = omega arith;
    default_port = omega arith;
    ela_asset_id = refl;
    coinbase_maturity = refl;
    min_transaction_fee = refl;
    min_cross_chain_tx_fee = omega arith;
    exchange_rate = rates.is_positive_one;
  }

  -- The two other networks change the magic number and the port to others.
  test_net_params-IsUsable :
      (p : NetParams Rate) → IsUsable lib rates p → IsUsable lib rates (test_net_params p)
  unfolding test_net_params
  test_net_params-IsUsable p u = record {
    magic = omega arith;
    default_port = omega arith;
    ela_asset_id = u.ela_asset_id;
    coinbase_maturity = u.coinbase_maturity;
    min_transaction_fee = u.min_transaction_fee;
    min_cross_chain_tx_fee = u.min_cross_chain_tx_fee;
    exchange_rate = u.exchange_rate;
  }

  reg_net_params-IsUsable :
      (p : NetParams Rate) → IsUsable lib rates p → IsUsable lib rates (reg_net_params p)
  unfolding reg_net_params
  reg_net_params-IsUsable p u = record {
    magic = omega arith;
    default_port = omega arith;
    ela_asset_id = u.ela_asset_id;
    coinbase_maturity = u.coinbase_maturity;
    min_transaction_fee = u.min_transaction_fee;
    min_cross_chain_tx_fee = u.min_cross_chain_tx_fee;
    exchange_rate = u.exchange_rate;
  }

  default_ports :
      (cfg : ConfigParams Rate)
      → (0 < (main_net_default cfg).rpc_port)
        × (0 < (test_net_default cfg).rpc_port)
        × (0 < (reg_net_default cfg).rpc_port)
  unfolding main_net_default test_net_default reg_net_default
  default_ports cfg = elim (Bool-cases (cfg.rpc_port == 0)) [
    | inl none_given ↦ rw none_given (omega arith, omega arith, omega arith)
    | inr given ↦ rw given (ground arith, ground arith, ground arith)
  ]

  choose_net-IsUsable :
      (cfg : ConfigParams Rate)
      → let chosen = choose_net lib texts rates config_lib cfg in
        IsUsable lib rates chosen.active × (0 < chosen.cfg.rpc_port)
  unfolding choose_net
  choose_net-IsUsable cfg =
      let main = main_net_params-IsUsable in
      let (main_port, test_port, reg_port) = default_ports cfg in
      let net = to_lower cfg.active_net in
      elim (Bool-cases (is_word net (codes "testnet" ∷ codes "test" ∷ codes "t" ∷ []))) [
        | inl test ↦ rw test (test_net_params-IsUsable _ main, test_port)
        | inr not_test ↦
            rw not_test
              (elim (Bool-cases (is_word net (codes "regnet" ∷ codes "reg" ∷ codes "r" ∷ []))) [
                | inl reg ↦ rw reg (reg_net_params-IsUsable _ main, reg_port)
                | inr not_reg ↦ rw not_reg (main, main_port)
              ])
      ]

  instant_block-IsUsable :
      (p : NetParams Rate) → IsUsable lib rates p → IsUsable lib rates (instant_block p)
  unfolding instant_block
  instant_block-IsUsable p u = record {
    magic = u.magic;
    default_port = u.default_port;
    ela_asset_id = u.ela_asset_id;
    coinbase_maturity = u.coinbase_maturity;
    min_transaction_fee = u.min_transaction_fee;
    min_cross_chain_tx_fee = u.min_cross_chain_tx_fee;
    exchange_rate = u.exchange_rate;
  }

  override_net-IsUsable :
      (cfg : ConfigParams Rate) (p : NetParams Rate)
      → IsUsable lib rates p
      → IsUsable lib rates (override_net lib texts rates config_lib cfg p)
  unfolding override_net
  override_net-IsUsable cfg p u = record {
    magic = ground (arith, u.magic);
    default_port = ground (arith, u.default_port);
    ela_asset_id = u.ela_asset_id;
    coinbase_maturity = u.coinbase_maturity;
    min_transaction_fee = u.min_transaction_fee;
    min_cross_chain_tx_fee = ground (arith, u.min_cross_chain_tx_fee);
    exchange_rate = ground (arith, u.exchange_rate);
  }

  override_active-IsUsable :
      (cfg : ConfigParams Rate) (p : NetParams Rate)
      → IsUsable lib rates p
      → IsUsable lib rates (override_active lib texts rates config_lib cfg p)
  unfolding override_active
  override_active-IsUsable cfg p u =
      let changed = override_net-IsUsable cfg p u in
      elim (Bool-cases cfg.instant_block) [
        | inl instant ↦ rw instant (instant_block-IsUsable _ changed)
        | inr slow ↦ rw slow changed
      ]

  set_foundation-IsUsable :
      (foundation : Option Uint168) (spv : SpvParams Genesis) (p : NetParams Rate)
      → IsUsable lib rates p
      → IsUsable lib rates (set_foundation lib texts rates config_lib foundation (spv, p)).1
  unfolding set_foundation
  set_foundation-IsUsable none spv p u = u
  set_foundation-IsUsable (some foundation) spv p u = record {
    magic = u.magic;
    default_port = u.default_port;
    ela_asset_id = u.ela_asset_id;
    coinbase_maturity = u.coinbase_maturity;
    min_transaction_fee = u.min_transaction_fee;
    min_cross_chain_tx_fee = u.min_cross_chain_tx_fee;
    exchange_rate = u.exchange_rate;
  }

  -- Whatever the file says, the parameters that `loadConfig` leaves are usable, and the port of the
  -- JSON-RPC service is not zero: the magic number and the port are set, the least fee of a cross
  -- chain transaction and the exchange rate are positive, and the asset of ELA, the maturity of a
  -- coinbase and the least fee of a transaction are those of the main network.
  pub load_config-IsUsable :
      (file_config : ConfigParams Rate)
      → let loaded = load_config lib texts rates config_lib file_config in
        IsUsable lib rates loaded.active × (0 < loaded.cfg.rpc_port)
  unfolding load_config
  load_config-IsUsable file_config =
      let chosen = choose_net lib texts rates config_lib file_config in
      let foundation = given_foundation lib texts rates config_lib chosen.cfg.foundation_address in
      let nets = set_foundation lib texts rates config_lib foundation (chosen.spv, chosen.active) in
      let usable = choose_net-IsUsable file_config in
      (
        override_active-IsUsable chosen.cfg nets.1
            (set_foundation-IsUsable foundation chosen.spv chosen.active usable.0),
        usable.1,
      )
