-- ===== src/Scripts/Bootstrap/Phases.antt =====
-- The transactions of `main` of bootstrap.ts, phase by phase. Each account is created only if the
-- cluster has it not; a keeper that is already registered is no error. Lines of log are left out.
pub mod Deploys
pub mod Rerun
use easyclaw.Base.{
  ℕ, ◌||◌, ◌==◌, Bool, true, false, not, Option, none, some, List, [], ◌∷◌, ◌++◌, map, or_else,
  if◌then◌else◌, Text, text, to_upper, includes, Dict, Result, ok, err,
}
use easyclaw.Scripts.Defaults.{Market, balanced_funding, balanced_fee}
use easyclaw.Scripts.Platform.{Numbers, Web3, Arg, Call}
use easyclaw.Scripts.Env.{Env, get_env_pubkey}
use easyclaw.Scripts.Rpc.{Script, World, pure, lift, ◌>>=◌, ◌>>◌, for_each, call_rpc, unless_exists}
use easyclaw.Scripts.Bootstrap.Config.{Config, FeeSplit}
use easyclaw.Scripts.Bootstrap.Addresses.{
  Addresses, derive_addresses, derive_market_pda, derive_funding_pda, keeper_rebate_pda,
}

-- `market.symbol.replace(/-/g, "_").toUpperCase()`
unfoldable pub feed_env_key : Text → Text
feed_env_key symbol =
    text "PYTH_FEED_" ++ to_upper (map (λ u. if u == b'-' then b'_' else u) symbol)

module _ (n : Numbers) (w : Web3 n) (c : Config w.Key n.Num) where
  open n use {Num}
  open w use {Key, key_eq, system_program, token_program}

  abbrev Step : Type 0
  Step = Script (World n w) (Unit {0})

  unfoldable pub initialize_global : Step
  initialize_global =
      let a = derive_addresses n w c in
      unless_exists n w a.global_config (
        call_rpc n w c.market_registry (text "initializeGlobal")
          (Arg.key c.multisig
            ∷ Arg.fee_split c.fee_split.lp_bps c.fee_split.insurance_bps c.fee_split.protocol_bps
            ∷ Arg.flag c.pause_flags
            ∷ [])
          ((text "payer", c.wallet)
            ∷ (text "globalConfig", a.global_config)
            ∷ (text "keeperSet", a.keeper_set)
            ∷ (text "systemProgram", system_program)
            ∷ []))

  -- The `catch` round the registration of a keeper.
  unfoldable pub known_keeper : Result (Unit {0}) × World n w → Result (Unit {0}) × World n w
  known_keeper (ok u, s) = (ok u, s)
  known_keeper (err message, s) =
      if includes (text "KeeperAlreadyExists") message || includes (text "already in use") message
      then (ok tt, s)
      else (err message, s)

  unfoldable pub add_keeper : Key → Step
  unfolding known_keeper
  add_keeper keeper s =
      let a = derive_addresses n w c in
      known_keeper (
        call_rpc n w c.market_registry (text "addKeeper") (Arg.key keeper ∷ [])
          ((text "authority", c.wallet)
            ∷ (text "globalConfig", a.global_config)
            ∷ (text "keeperSet", a.keeper_set)
            ∷ [])
          s)

  -- The transaction, once the feed is known.
  unfoldable pub create_market_at : Key → Market → Step
  create_market_at feed market =
      let a = derive_addresses n w c in
      let pda = derive_market_pda n w c.market_registry market.market_id in
      unless_exists n w pda (
        call_rpc n w c.market_registry (text "createMarket")
          (Arg.int market.market_id
            ∷ Arg.str market.symbol
            ∷ Arg.key feed
            ∷ Arg.risk market.risk
            ∷ Arg.pricing market.pricing
            ∷ Arg.funding balanced_funding
            ∷ Arg.fee balanced_fee
            ∷ [])
          ((text "authority", c.wallet)
            ∷ (text "globalConfig", a.global_config)
            ∷ (text "keeperSet", a.keeper_set)
            ∷ (text "market", pda)
            ∷ (text "systemProgram", system_program)
            ∷ []))

  unfoldable pub create_market : Env → Key → Market → Step
  create_market env fallback market = do
    feed ← lift (get_env_pubkey n w env (feed_env_key market.symbol) true true)
    create_market_at (or_else feed fallback) market

  unfoldable pub create_markets : Env → Step
  create_markets env = do
    found ← lift (get_env_pubkey n w env (text "PYTH_FEED_FALLBACK") true true)
    for_each (create_market env (or_else found c.wallet)) c.markets

  unfoldable pub initialize_pool : Step
  initialize_pool =
      let a = derive_addresses n w c in
      unless_exists n w a.pool (
        call_rpc n w c.lp_vault (text "initializePool")
          (Arg.bn c.cooldown_secs ∷ Arg.num c.min_liquidity_buffer_bps ∷ [])
          ((text "admin", c.wallet)
            ∷ (text "usdcMint", c.usdc_mint)
            ∷ (text "orderEngineProgram", c.order_engine)
            ∷ (text "engineAuthority", a.engine_authority)
            ∷ (text "pool", a.pool)
            ∷ (text "liquidityAuth", a.liquidity_auth)
            ∷ (text "insuranceAuth", a.insurance_auth)
            ∷ (text "protocolFeeAuth", a.protocol_fee_auth)
            ∷ (text "liquidityVault", a.liquidity_vault)
            ∷ (text "insuranceVault", a.insurance_vault)
            ∷ (text "protocolFeeVault", a.protocol_fee_vault)
            ∷ (text "tokenProgram", token_program)
            ∷ (text "systemProgram", system_program)
            ∷ []))

  unfoldable pub initialize_engine : Step
  initialize_engine =
      let a = derive_addresses n w c in
      unless_exists n w a.engine_config (
        call_rpc n w c.order_engine (text "initializeEngine")
          (Arg.bn c.max_ttl_secs ∷ Arg.num c.liquidation_penalty_bps ∷ Arg.num c.max_imr_bps ∷ [])
          ((text "admin", c.wallet)
            ∷ (text "usdcMint", c.usdc_mint)
            ∷ (text "marketRegistryProgram", c.market_registry)
            ∷ (text "globalConfig", a.global_config)
            ∷ (text "keeperSet", a.keeper_set)
            ∷ (text "lpVaultProgram", c.lp_vault)
            ∷ (text "lpPool", a.pool)
            ∷ (text "lpLiquidityVault", a.liquidity_vault)
            ∷ (text "lpInsuranceVault", a.insurance_vault)
            ∷ (text "lpProtocolFeeVault", a.protocol_fee_vault)
            ∷ (text "engineAuthority", a.engine_authority)
            ∷ (text "engineConfig", a.engine_config)
            ∷ (text "collateralVault", a.collateral_vault)
            ∷ (text "tokenProgram", token_program)
            ∷ (text "systemProgram", system_program)
            ∷ []))

  unfoldable pub init_funding_state : Market → Step
  init_funding_state market =
      let a = derive_addresses n w c in
      let pda = derive_market_pda n w c.market_registry market.market_id in
      let funding = derive_funding_pda n w c.order_engine market.market_id in
      unless_exists n w funding (
        call_rpc n w c.order_engine (text "initializeMarketFundingState")
          (Arg.int market.market_id ∷ [])
          ((text "admin", c.wallet)
            ∷ (text "engineConfig", a.engine_config)
            ∷ (text "marketRegistryProgram", c.market_registry)
            ∷ (text "market", pda)
            ∷ (text "marketFundingState", funding)
            ∷ (text "systemProgram", system_program)
            ∷ []))

  -- Only the wallet can sign for its own rebate account; other keepers are skipped.
  unfoldable pub init_keeper_rebate : Key → Step
  init_keeper_rebate keeper s =
      let a = derive_addresses n w c in
      let rebate = keeper_rebate_pda n w c.lp_vault a.pool keeper in
      if key_eq keeper c.wallet
      then unless_exists n w rebate
          (call_rpc n w c.lp_vault (text "initKeeperRebate") [] (
            (text "keeper", keeper)
            ∷ (text "pool", a.pool)
            ∷ (text "keeperRebate", rebate)
            ∷ (text "systemProgram", system_program)
            ∷ []))
          s
      else (ok tt, s)

  -- The phases in the order of `main`.
  unfoldable pub run_phases : Env → Step
  run_phases env = do
    initialize_global
    for_each add_keeper c.keepers
    create_markets env
    initialize_pool
    initialize_engine
    for_each init_funding_state c.markets
    for_each init_keeper_rebate c.keepers
