-- ===== src/Scripts/Tests.antt =====
-- The scripts on a concrete cluster: the theorems at concrete inputs, and runs of the definitions.
use easyclaw.Base.{
  ◌≡◌, refl, true, false, Option, none, some, List, [], ◌∷◌, ◌++◌, arith, All, Text, text, trim,
  is_blank, split, if◌then◌else◌, Result, ok, Dict, traverse, ℕ, text_eq, includes, starts_with,
  map,
}
use easyclaw.Samples.{naturals, same-Congruent}
use easyclaw.Samples.Cluster.{cluster, cluster_laws}
use easyclaw.Scripts.Defaults.{btc_perp, eth_perp, markets}
use easyclaw.Scripts.Names.{
  add_account_aliases, concrete_tables, resolve_method, method_candidates, unique,
}
use easyclaw.Scripts.Names.Laws.{IsTable, Answers, add_account_aliases-Answers}
use easyclaw.Scripts.Env.{
  Env, list_items, get_env_pubkey, get_required_env_pubkey, get_env_number, get_env_boolean,
  parse_keepers, to_public_key, parse_pubkey_value,
}
use easyclaw.Scripts.Idl.{Idl}
use easyclaw.Scripts.Markets.{parse_bootstrap_markets}
use easyclaw.Scripts.Markets.Laws.{IsSelection, parse_bootstrap_markets-IsSelection}
use easyclaw.Scripts.Rpc.{World, call_rpc, ◌>>◌, for_each, unless_exists, send_call}
use easyclaw.Scripts.Rpc.Laws.{call_rpc-creates}
use easyclaw.Scripts.Bootstrap.Config.{
  Config, read_config, program_id, read_multisig, read_fee_split,
}
use easyclaw.Scripts.Bootstrap.Config.Laws.{IsAccepted, read_config-IsAccepted}
use easyclaw.Scripts.Bootstrap.Addresses.{
  derive_addresses, derive_market_pda, derive_funding_pda, keeper_rebate_pda, u64_seed,
}
use easyclaw.Scripts.Bootstrap.Phases.{
  run_phases, initialize_global, add_keeper, known_keeper, create_markets, create_market,
  create_market_at, initialize_pool, initialize_engine, init_funding_state, init_keeper_rebate,
  feed_env_key,
}
use easyclaw.Scripts.Bootstrap.Phases.Deploys.{IsDeployed, run_phases-IsDeployed}
use easyclaw.Scripts.Bootstrap.Phases.Rerun.{
  KeeperCalls, run_phases-KeeperCalls, run_phases-run_phases,
}
use easyclaw.Scripts.Faucet.{
  init, claim, Faucet, TokenAccounts, derive_faucet, run_action, initialize_faucet,
}
use easyclaw.Scripts.Faucet.Laws.{Sends, run_action-Sends, run_action-init}

abbrev config : Config Text (Option ℕ)
config = record {
  wallet = text "W";
  market_registry = text "R";
  lp_vault = text "V";
  order_engine = text "E";
  multisig = text "W";
  usdc_mint = text "U";
  keepers = text "W" ∷ text "K" ∷ [];
  markets = btc_perp ∷ [];
  fee_split = record { lp_bps = some 7000; insurance_bps = some 2000; protocol_bps = some 1000 };
  pause_flags = false;
  cooldown_secs = some 86400;
  min_liquidity_buffer_bps = some 100;
  max_ttl_secs = some 300;
  liquidation_penalty_bps = some 1000;
  max_imr_bps = some 5000;
}

abbrev empty_world : World naturals cluster
empty_world = record { chain = []; sent = [] }

abbrev no_env : Env
no_env name = none

abbrev after : Result (Unit {0}) × World naturals cluster
after = run_phases naturals cluster config no_env empty_world

after_ok : after.0 ≡ ok tt
unfolding run_phases initialize_global add_keeper known_keeper create_markets create_market
    create_market_at initialize_pool initialize_engine init_funding_state init_keeper_rebate ◌>>◌
    for_each unless_exists call_rpc send_call resolve_method concrete_tables derive_addresses
    derive_market_pda derive_funding_pda keeper_rebate_pda u64_seed get_env_pubkey feed_env_key
    method_candidates unique text_eq text includes starts_with
after_ok = refl

run_phases-IsDeployed_example : IsDeployed naturals cluster config after.1.chain
run_phases-IsDeployed_example =
    run_phases-IsDeployed naturals cluster config cluster_laws no_env empty_world after_ok

run_phases-KeeperCalls_example :
    KeeperCalls naturals cluster config after.1
      (run_phases naturals cluster config no_env after.1).1
run_phases-KeeperCalls_example =
    run_phases-KeeperCalls naturals cluster config cluster_laws no_env after.1
      run_phases-IsDeployed_example

run_phases-run_phases_example :
    KeeperCalls naturals cluster config after.1
      (run_phases naturals cluster config no_env after.1).1
run_phases-run_phases_example =
    run_phases-run_phases naturals cluster config cluster_laws no_env no_env empty_world after_ok

-- The environment of a run that leaves everything but the mint to the defaults.
abbrev mint_env : Env
mint_env name = if text_eq name (text "USDC_MINT") then some (text "U") else none

abbrev default_config : Config Text (Option ℕ)
default_config = record config { keepers = text "W" ∷ []; markets = markets }

read_config-default :
    read_config naturals cluster mint_env (text "W") (text "R") (text "V") (text "E")
    ≡ ok default_config
unfolding read_config program_id read_multisig read_fee_split get_env_pubkey get_required_env_pubkey
    get_env_number get_env_boolean parse_keepers parse_bootstrap_markets to_public_key
    parse_pubkey_value trim is_blank concrete_tables
read_config-default = refl

read_config-IsAccepted_example : IsAccepted naturals cluster (text "W") default_config
read_config-IsAccepted_example =
    read_config-IsAccepted naturals cluster mint_env (text "W") (text "R") (text "V") (text "E")
      {c = default_config} read_config-default

-- Ids in another order than the table's, one of them twice.
abbrev market_env : Env
market_env name =
    if text_eq name (text "BOOTSTRAP_MARKET_IDS") then some (text " 2,1, 2,") else none

parse_bootstrap_markets-IsSelection_example :
    (ids : List (Option ℕ)) × (ids ≡ map naturals.number (list_items (trim (text " 2,1, 2,"))))
    × All (λ i. (naturals.is_integer i ≡ true) × (naturals.is_positive i ≡ true)) ids
    × IsSelection naturals ids (btc_perp ∷ eth_perp ∷ [])
unfolding parse_bootstrap_markets list_items split traverse trim is_blank markets concrete_tables
parse_bootstrap_markets-IsSelection_example =
    parse_bootstrap_markets-IsSelection naturals same-Congruent market_env (text " 2,1, 2,")
      {selected = btc_perp ∷ eth_perp ∷ []} refl refl refl

abbrev table : Dict ℕ
table = (text "globalConfig", 1) ∷ (text "keeperSet", 2) ∷ (text "market", 3) ∷ []

table-IsTable : IsTable table
unfolding text
table-IsTable = ground arith

add_account_aliases-Answers_example : All (λ e. Answers e.0 e.1 (add_account_aliases table)) table
add_account_aliases-Answers_example = add_account_aliases-Answers table table-IsTable

abbrev raw_idl : Idl ℕ
raw_idl = record {
  address = text "R";
  types = some ((text "Pool", 7) ∷ (text "Config", 8) ∷ []);
  accounts = some (
      record { name = text "Config"; type = none }
      ∷ record { name = text "Pool"; type = some 5 }
      ∷ []);
}

abbrev pool_accounts : Dict Text
pool_accounts = (text "admin", text "W") ∷ (text "pool", text "P") ∷ []

-- `has_account` is a look-up in the list of accounts.
abbrev pool_call : Result (Unit {0}) × World naturals cluster
pool_call =
    call_rpc naturals cluster (text "V") (text "initializePool") [] pool_accounts empty_world

call_rpc-creates_example : cluster.has_account pool_call.1.chain (text "P") ≡ true
unfolding call_rpc send_call resolve_method method_candidates concrete_tables
call_rpc-creates_example =
    call_rpc-creates naturals cluster cluster_laws (text "V") (text "initializePool") []
      pool_accounts (text "pool") (text "P") (ground arith) refl refl empty_world tt refl

abbrev token_accounts : TokenAccounts naturals cluster
token_accounts = record {
  ata_of = λ mint owner. mint ++ owner;
  create_ata = λ payer ata owner mint. record {
    program = text "ATA";
    method = text "create";
    args = [];
    accounts = (text "account", ata) ∷ [];
  };
}

abbrev usdc_faucet : Faucet Text
usdc_faucet = derive_faucet naturals cluster (text "W") (text "F") (text "U")

abbrev initialized_world : Result (Unit {0}) × World naturals cluster
initialized_world = run_action naturals cluster usdc_faucet token_accounts no_env init empty_world

initialized_world_ok : initialized_world.0 ≡ ok tt
unfolding run_action initialize_faucet unless_exists call_rpc send_call get_env_number
    resolve_method method_candidates derive_faucet concrete_tables
initialized_world_ok = refl

run_action-init_example :
    (cluster.has_account initialized_world.1.chain usdc_faucet.config ≡ true)
    × (run_action naturals cluster usdc_faucet token_accounts no_env init initialized_world.1
        ≡ (ok tt, initialized_world.1))
run_action-init_example =
    run_action-init naturals cluster cluster_laws usdc_faucet token_accounts no_env empty_world
      initialized_world_ok

run_action-Sends_example :
    Sends naturals cluster cluster_laws usdc_faucet token_accounts claim empty_world
      (run_action naturals cluster usdc_faucet token_accounts no_env claim empty_world).1
run_action-Sends_example =
    run_action-Sends naturals cluster cluster_laws usdc_faucet token_accounts no_env claim
      empty_world
