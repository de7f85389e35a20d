-- ===== src/Scripts/Bootstrap/Phases/Deploys.antt =====
-- About the accounts that a run of the phases of bootstrap.ts leaves.
use easyclaw.Base.{
  ◌≡◌, refl, true, ◌||◌, Bool-cases, inl, inr, arith, All, text, Result, ok, err, includes, or_else,
}
use easyclaw.Scripts.Defaults.{Market}
use easyclaw.Scripts.Platform.{Numbers, Web3}
use easyclaw.Scripts.Env.{Env}
use easyclaw.Scripts.Names.{concrete_tables}
use easyclaw.Scripts.Rpc.{World, Script, ◌>>◌, for_each}
use easyclaw.Scripts.Rpc.Laws.{
  ClusterLaws, call_rpc-Monotone, call_rpc-creates, unless_exists-Monotone, unless_exists-Ensures,
}
use easyclaw.Scripts.Rpc.Steps.{
  Monotone, Ensures, Upward, lift-Monotone, lift-Ensures, seq-Monotone, seq-Ensures,
  for_each-Monotone, for_each-Ensures, has_account-Upward, All-Upward,
}
use easyclaw.Scripts.Bootstrap.Config.{Config}
use easyclaw.Scripts.Bootstrap.Addresses.{
  derive_addresses, derive_market_pda, derive_funding_pda, keeper_rebate_pda,
}
use easyclaw.Scripts.Bootstrap.Phases.{
  initialize_global, known_keeper, add_keeper, create_market_at, create_market, create_markets,
  initialize_pool, initialize_engine, init_funding_state, init_keeper_rebate, run_phases,
}

module _ (n : Numbers) (w : Web3 n) (c : Config w.Key n.Num) where
  open w use {Key, Chain, has_account, key_eq}

  abbrev pub HasMarket : Market → Chain → Type 0
  HasMarket m chain = has_account chain (derive_market_pda n w c.market_registry m.market_id) ≡ true

  abbrev pub HasFunding : Market → Chain → Type 0
  HasFunding m chain = has_account chain (derive_funding_pda n w c.order_engine m.market_id) ≡ true

  -- Only the wallet's own rebate account is created.
  abbrev pub HasRebate : Key → Chain → Type 0
  HasRebate k chain =
      key_eq k c.wallet ≡ true
      → has_account chain (keeper_rebate_pda n w c.lp_vault (derive_addresses n w c).pool k) ≡ true

  -- Every account of the deployment exists.
  pub record IsDeployed (chain : Chain) : Type 0 where
    pub global_config : has_account chain (derive_addresses n w c).global_config ≡ true
    pub pool : has_account chain (derive_addresses n w c).pool ≡ true
    pub engine_config : has_account chain (derive_addresses n w c).engine_config ≡ true
    pub market_accounts : All (λ m. HasMarket m chain) c.markets
    pub funding_accounts : All (λ m. HasFunding m chain) c.markets
    pub rebate_accounts : All (λ k. HasRebate k chain) c.keepers

  pub HasRebate-Upward : (k : Key) → Upward n w (HasRebate k)
  HasRebate-Upward k x y up h e = up _ (h e)

  pub IsDeployed-Upward : Upward n w IsDeployed
  IsDeployed-Upward a b keep d = record {
    global_config = keep _ d.global_config;
    pool = keep _ d.pool;
    engine_config = keep _ d.engine_config;
    market_accounts =
        All-Upward n w HasMarket c.markets (λ m. has_account-Upward n w _) a b keep
          d.market_accounts;
    funding_accounts =
        All-Upward n w HasFunding c.markets (λ m. has_account-Upward n w _) a b keep
          d.funding_accounts;
    rebate_accounts =
        All-Upward n w HasRebate c.keepers (λ k x y up h e. up _ (h e)) a b keep d.rebate_accounts;
  }

  pub known_keeper_chain : (p : Result (Unit {0}) × World n w) → (known_keeper n w c p).1 ≡ p.1
  unfolding known_keeper
  known_keeper_chain (ok u, s) = refl
  known_keeper_chain (err m, s) =
      elim (Bool-cases
        (includes (text "KeeperAlreadyExists") m || includes (text "already in use") m)) [
          | inl known ↦ rw known
          | inr other ↦ rw other
        ]

  module _ (laws : ClusterLaws n w) where
    pub initialize_global-Monotone : Monotone n w (initialize_global n w c)
    unfolding initialize_global concrete_tables
    initialize_global-Monotone =
        unless_exists-Monotone n w laws _ _
          (call_rpc-Monotone n w laws _ (text "initializeGlobal") _ _ (ground arith) refl)

    initialize_global-Ensures :
        Ensures n w
          (initialize_global n w c)
          (λ chain. has_account chain (derive_addresses n w c).global_config ≡ true)
    unfolding initialize_global concrete_tables
    initialize_global-Ensures = unless_exists-Ensures n w laws _ _ (
        call_rpc-creates n w laws c.market_registry (text "initializeGlobal") _ _
          (text "globalConfig") _ (ground arith) refl refl)

    pub add_keeper-Monotone : (k : Key) → Monotone n w (add_keeper n w c k)
    unfolding concrete_tables
    add_keeper-Monotone keeper s k h =
        unfold add_keeper in
        rw known_keeper_chain
          (call_rpc-Monotone n w laws _ (text "addKeeper") _ _ (ground arith) refl s k h)

    create_market_at-Monotone :
        (feed : Key) (m : Market) → Monotone n w (create_market_at n w c feed m)
    unfolding create_market_at concrete_tables
    create_market_at-Monotone feed m =
        unless_exists-Monotone n w laws _ _
          (call_rpc-Monotone n w laws _ (text "createMarket") _ _ (ground arith) refl)

    create_market_at-Ensures :
        (feed : Key) (m : Market) → Ensures n w (create_market_at n w c feed m) (HasMarket m)
    unfolding create_market_at concrete_tables
    create_market_at-Ensures feed m = unless_exists-Ensures n w laws _ _ (
        call_rpc-creates n w laws c.market_registry (text "createMarket") _ _ (text "market") _
          (ground arith) refl refl)

    pub create_market-Monotone :
        (env : Env) (fallback : Key) (m : Market)
        → Monotone n w (create_market n w c env fallback m)
    unfolding create_market
    create_market-Monotone env fallback m =
        lift-Monotone n w _ _ (λ feed. create_market_at-Monotone (or_else feed fallback) m)

    create_market-Ensures :
        (env : Env) (fallback : Key) (m : Market)
        → Ensures n w (create_market n w c env fallback m) (HasMarket m)
    unfolding create_market
    create_market-Ensures env fallback m =
        lift-Ensures n w (HasMarket m) _ _
          (λ feed. create_market_at-Ensures (or_else feed fallback) m)

    pub create_markets-Monotone : (env : Env) → Monotone n w (create_markets n w c env)
    unfolding create_markets
    create_markets-Monotone env =
        lift-Monotone n w _ _
          (λ found. for_each-Monotone n w _ _ (create_market-Monotone env (or_else found c.wallet)))

    create_markets-Ensures :
        (env : Env)
        → Ensures n w (create_markets n w c env) (λ chain. All (λ m. HasMarket m chain) c.markets)
    unfolding create_markets
    create_markets-Ensures env =
        lift-Ensures n w (λ chain. All (λ m. HasMarket m chain) c.markets) _ _
          (λ found.
            for_each-Ensures n w HasMarket _ c.markets (λ m. has_account-Upward n w _)
              (create_market-Monotone env (or_else found c.wallet))
              (create_market-Ensures env (or_else found c.wallet)))

    pub initialize_pool-Monotone : Monotone n w (initialize_pool n w c)
    unfolding initialize_pool concrete_tables
    initialize_pool-Monotone =
        unless_exists-Monotone n w laws _ _
          (call_rpc-Monotone n w laws _ (text "initializePool") _ _ (ground arith) refl)

    initialize_pool-Ensures :
        Ensures n w
          (initialize_pool n w c)
          (λ chain. has_account chain (derive_addresses n w c).pool ≡ true)
    unfolding initialize_pool concrete_tables
    initialize_pool-Ensures = unless_exists-Ensures n w laws _ _ (
        call_rpc-creates n w laws c.lp_vault (text "initializePool") _ _ (text "pool") _
          (ground arith) refl refl)

    pub initialize_engine-Monotone : Monotone n w (initialize_engine n w c)
    unfolding initialize_engine concrete_tables
    initialize_engine-Monotone =
        unless_exists-Monotone n w laws _ _
          (call_rpc-Monotone n w laws _ (text "initializeEngine") _ _ (ground arith) refl)

    initialize_engine-Ensures :
        Ensures n w
          (initialize_engine n w c)
          (λ chain. has_account chain (derive_addresses n w c).engine_config ≡ true)
    unfolding initialize_engine concrete_tables
    initialize_engine-Ensures = unless_exists-Ensures n w laws _ _ (
        call_rpc-creates n w laws c.order_engine (text "initializeEngine") _ _ (text "engineConfig")
          _ (ground arith) refl refl)

    pub init_funding_state-Monotone : (m : Market) → Monotone n w (init_funding_state n w c m)
    unfolding init_funding_state concrete_tables
    init_funding_state-Monotone m =
        unless_exists-Monotone n w laws _ _ (
          call_rpc-Monotone n w laws _ (text "initializeMarketFundingState") _ _ (ground arith)
            refl)

    init_funding_state-Ensures :
        (m : Market) → Ensures n w (init_funding_state n w c m) (HasFunding m)
    unfolding init_funding_state concrete_tables
    init_funding_state-Ensures m = unless_exists-Ensures n w laws _ _ (
        call_rpc-creates n w laws c.order_engine (text "initializeMarketFundingState") _ _
          (text "marketFundingState") _ (ground arith) refl refl)

    pub init_keeper_rebate-Monotone : (k : Key) → Monotone n w (init_keeper_rebate n w c k)
    unfolding init_keeper_rebate concrete_tables
    init_keeper_rebate-Monotone keeper s k h = elim (Bool-cases (key_eq keeper c.wallet)) [
      | inl own ↦ rw own (
          unless_exists-Monotone n w laws _ _
            (call_rpc-Monotone n w laws _ (text "initKeeperRebate") _ _ (ground arith) refl) s k h)
      | inr other ↦ rw other h
    ]

    init_keeper_rebate-Ensures : (k : Key) → Ensures n w (init_keeper_rebate n w c k) (HasRebate k)
    unfolding init_keeper_rebate concrete_tables
    init_keeper_rebate-Ensures keeper s u e own = rw own (
        unless_exists-Ensures n w laws _ _
          (call_rpc-creates n w laws c.lp_vault (text "initKeeperRebate") _ _ (text "keeperRebate")
            _ (ground arith) refl refl)
          s u (rw own at e))

    module _ (env : Env) where
      -- The phases from the pool on, and those before.
      abbrev from_pool : Script (World n w) (Unit {0})
      from_pool =
          initialize_pool n w c
          >> (initialize_engine n w c
              >> (for_each (init_funding_state n w c) c.markets
                  >> for_each (init_keeper_rebate n w c) c.keepers))

      from_pool-Monotone : Monotone n w from_pool
      from_pool-Monotone = seq-Monotone n w (initialize_pool n w c) _ initialize_pool-Monotone (
          seq-Monotone n w (initialize_engine n w c) _ initialize_engine-Monotone (
            seq-Monotone n w (for_each (init_funding_state n w c) c.markets) _
              (for_each-Monotone n w _ _ init_funding_state-Monotone)
              (for_each-Monotone n w _ _ init_keeper_rebate-Monotone)))

      -- The phases keep accounts, whatever becomes of each.
      pub run_phases-Monotone : Monotone n w (run_phases n w c env)
      unfolding run_phases
      run_phases-Monotone =
          seq-Monotone n w (initialize_global n w c) _ initialize_global-Monotone (
            seq-Monotone n w (for_each (add_keeper n w c) c.keepers) _
              (for_each-Monotone n w _ _ add_keeper-Monotone)
              (seq-Monotone n w (create_markets n w c env) _ (create_markets-Monotone env)
                from_pool-Monotone))

      abbrev AllMarkets : Chain → Type 0
      AllMarkets chain = All (λ m. HasMarket m chain) c.markets

      abbrev AllFunding : Chain → Type 0
      AllFunding chain = All (λ m. HasFunding m chain) c.markets

      abbrev AllRebates : Chain → Type 0
      AllRebates chain = All (λ k. HasRebate k chain) c.keepers

      abbrev HasPool : Chain → Type 0
      HasPool chain = has_account chain (derive_addresses n w c).pool ≡ true

      abbrev HasEngine : Chain → Type 0
      HasEngine chain = has_account chain (derive_addresses n w c).engine_config ≡ true

      abbrev HasGlobal : Chain → Type 0
      HasGlobal chain = has_account chain (derive_addresses n w c).global_config ≡ true

      abbrev FromPool : Chain → Type 0
      FromPool chain = HasPool chain × (HasEngine chain × (AllFunding chain × AllRebates chain))

      abbrev FromMarkets : Chain → Type 0
      FromMarkets chain = AllMarkets chain × FromPool chain

      funding-Ensures :
          Ensures n w
            (for_each (init_funding_state n w c) c.markets
              >> for_each (init_keeper_rebate n w c) c.keepers)
            (λ chain. AllFunding chain × AllRebates chain)
      funding-Ensures =
          seq-Ensures n w AllFunding AllRebates _ _
            (All-Upward n w HasFunding c.markets (λ m. has_account-Upward n w _))
            (for_each-Ensures n w HasFunding _ c.markets (λ m. has_account-Upward n w _)
              init_funding_state-Monotone init_funding_state-Ensures)
            (for_each-Monotone n w _ _ init_keeper_rebate-Monotone)
            (for_each-Ensures n w HasRebate _ c.keepers HasRebate-Upward init_keeper_rebate-Monotone
              init_keeper_rebate-Ensures)

      from_pool-Ensures : Ensures n w from_pool FromPool
      from_pool-Ensures =
          seq-Ensures n w HasPool (λ chain. HasEngine chain × (AllFunding chain × AllRebates chain))
            _ _ (has_account-Upward n w _) initialize_pool-Ensures
            (seq-Monotone n w (initialize_engine n w c) _ initialize_engine-Monotone (
              seq-Monotone n w (for_each (init_funding_state n w c) c.markets) _
                (for_each-Monotone n w _ _ init_funding_state-Monotone)
                (for_each-Monotone n w _ _ init_keeper_rebate-Monotone)))
            (seq-Ensures n w HasEngine (λ chain. AllFunding chain × AllRebates chain) _ _
              (has_account-Upward n w _) initialize_engine-Ensures
              (seq-Monotone n w (for_each (init_funding_state n w c) c.markets) _
                (for_each-Monotone n w _ _ init_funding_state-Monotone)
                (for_each-Monotone n w _ _ init_keeper_rebate-Monotone))
              funding-Ensures)

      markets-Ensures : Ensures n w (create_markets n w c env >> from_pool) FromMarkets
      markets-Ensures =
          seq-Ensures n w AllMarkets FromPool _ _
            (All-Upward n w HasMarket c.markets (λ m. has_account-Upward n w _))
            (create_markets-Ensures env) from_pool-Monotone from_pool-Ensures

      phases-Ensures :
          Ensures n w
            (run_phases n w c env)
            (λ chain. HasGlobal chain × (Unit {0} × FromMarkets chain))
      unfolding run_phases
      phases-Ensures =
          seq-Ensures n w HasGlobal (λ chain. Unit {0} × FromMarkets chain)
            (initialize_global n w c) _ (has_account-Upward n w _) initialize_global-Ensures
            (seq-Monotone n w (for_each (add_keeper n w c) c.keepers) _
              (for_each-Monotone n w _ _ add_keeper-Monotone)
              (seq-Monotone n w (create_markets n w c env) _ (create_markets-Monotone env)
                from_pool-Monotone))
            (seq-Ensures n w (λ chain. Unit {0}) FromMarkets (for_each (add_keeper n w c) c.keepers)
              _ (λ a b keep h. tt) (λ s u e. tt)
              (seq-Monotone n w (create_markets n w c env) _ (create_markets-Monotone env)
                from_pool-Monotone)
              markets-Ensures)

      -- On a cluster that loses no account to the scripts' calls and on which a successful initialising call creates
      -- the account that it is about, a run of the phases that returns leaves the global
      -- configuration, the pool, the engine's configuration, the account and the funding state of
      -- every chosen market, and the rebate account of the wallet if it is among the keepers.
      pub run_phases-IsDeployed :
          (s : World n w)
          → (run_phases n w c env s).0 ≡ ok tt
          → IsDeployed (run_phases n w c env s).1.chain
      run_phases-IsDeployed s e =
          let (global, (_, (ms, (pool, (engine, (fs, rs)))))) = phases-Ensures s tt e in
          record {
            global_config = global;
            pool = pool;
            engine_config = engine;
            market_accounts = ms;
            funding_accounts = fs;
            rebate_accounts = rs;
          }
