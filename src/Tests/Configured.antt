-- ===== src/Tests/Configured.antt =====
-- Witnesses: the theorems on the configuration.
use elastos_ela_side_chain_t.Base.{
  ℕ, ℤ, pos, ◌<◌, ◌≡◌, refl, [], ◌∷◌, true, none, some, ok, replicate, ltb, sub_int64, wrap_int64,
  ◌+ℤ◌, ◌-ℤ◌, add_int64, bytes_eq, arith,
}
use elastos_ela_side_chain_t.Types.{Transaction, TxType, Output, transfer}
use elastos_ela_side_chain_t.Library.{ChainStore}
use elastos_ela_side_chain_t.Params.{codes, main_net_params, test_net_params, instant_block}
use elastos_ela_side_chain_t.Config.{
  Rates, ConfigParams, SpvParams, ConfigLibrary, to_lower, test_net_default, choose_net,
  set_foundation, given_foundation, override_net, override_active, default_config, load_config,
}
use elastos_ela_side_chain_t.Config.Usable.{IsUsable, load_config-IsUsable}
use elastos_ela_side_chain_t.Config.Paid.{chain_params, load_config-pays}
use elastos_ela_side_chain_t.Validator.Balance.{
  amounts, check_fee, check_balance, check_transaction_balance,
}
use elastos_ela_side_chain_t.Validator.Balance.Sums.{ela_sum}
use elastos_ela_side_chain_t.Tests.Samples.{
  sample_library, sample_texts, sample_transaction, spend, address,
}

abbrev sample_rates : Rates ℕ
sample_rates = record { zero = 0; one = 1; is_positive = λ r. ltb 0 r; is_positive_one = refl }

abbrev sample_spv : SpvParams ℕ
sample_spv = record { magic = 1; dns_seeds = []; foundation = address; genesis_block = 0 }

abbrev sample_config_library : ConfigLibrary ℕ ℕ
sample_config_library = record {
  main_net = sample_spv;
  test_net = sample_spv;
  reg_net = sample_spv;
  genesis_block = λ f. 1;
  unmarshal = λ file cfg. cfg;
  level_info = 1;
}

abbrev test_config : ConfigParams ℕ
test_config =
    record (default_config sample_library sample_texts sample_rates sample_config_library) {
      active_net = codes "Test";
      node_port = 30618;
      instant_block = true;
    }

load_config-IsUsable_example :
    let loaded =
      load_config sample_library sample_texts sample_rates sample_config_library test_config in
    IsUsable sample_library sample_rates loaded.active × (0 < loaded.cfg.rpc_port)
load_config-IsUsable_example =
    load_config-IsUsable sample_library sample_texts sample_rates sample_config_library test_config

abbrev ela_of : ℤ → Output
ela_of n = record {
  asset_id = replicate 32 0;
  value = n;
  token_value = pos 0;
  output_lock = 0;
  program_hash = address;
}

abbrev paying : Transaction
paying =
    sample_transaction TxType.transfer_asset transfer (spend 7 1 ∷ []) (ela_of (pos 500) ∷ []) 8

abbrev paid_store : ChainStore
paid_store = record {
  get_transaction = λ h. none;
  get_height = 200;
  get_assets = [];
  get_asset = λ h. none;
  get_tx_reference = λ txn. some (ela_of (pos 700) ∷ []);
}

paying_passes :
    check_transaction_balance sample_library
      (chain_params
        (load_config sample_library sample_texts sample_rates sample_config_library
          test_config).active)
      paid_store
      paying
    ≡ ok tt
unfolding check_transaction_balance check_balance amounts check_fee load_config choose_net to_lower
    set_foundation given_foundation override_active override_net instant_block test_net_params
    main_net_params test_net_default default_config bytes_eq sub_int64 add_int64 wrap_int64 ◌+ℤ◌
    ◌-ℤ◌
paying_passes = refl

spent_sum :
    ela_sum sample_library
      (chain_params
        (load_config sample_library sample_texts sample_rates sample_config_library
          test_config).active)
      (ela_of (pos 700) ∷ [])
    ≡ pos 700
unfolding ela_sum load_config choose_net to_lower set_foundation given_foundation override_active
    override_net instant_block test_net_params main_net_params test_net_default default_config
    bytes_eq ◌+ℤ◌
spent_sum = refl

paid_sum :
    ela_sum sample_library
      (chain_params
        (load_config sample_library sample_texts sample_rates sample_config_library
          test_config).active)
      paying.outputs
    ≡ pos 500
unfolding ela_sum load_config choose_net to_lower set_foundation given_foundation override_active
    override_net instant_block test_net_params main_net_params test_net_default default_config
    bytes_eq ◌+ℤ◌
paid_sum = refl

load_config-pays_example : 500 < 700
load_config-pays_example =
    load_config-pays sample_library sample_texts sample_rates sample_config_library test_config
      paid_store paying (ela_of (pos 700) ∷ []) 700 500 refl spent_sum paid_sum (omega arith)
      (omega arith) paying_passes
