-- ===== src/Scripts/Bootstrap/Phases/Rerun.antt =====
-- About the phases of bootstrap.ts on a cluster that is deployed already.
use easyclaw.Base.{
  ◌≡◌, sym, ap, ◌∙◌, true, Bool-cases, inl, inr, List, [], ◌∷◌, ◌++◌, append_assoc, append-nil,
  arith, All, All-append, text, Result, ok, err, or_else,
}
use easyclaw.Scripts.Defaults.{Market}
use easyclaw.Scripts.Platform.{Numbers, Web3, Call}
use easyclaw.Scripts.Env.{Env}
use easyclaw.Scripts.Names.{to_camel}
use easyclaw.Scripts.Rpc.{World, Script, then_run, ◌>>=◌, ◌>>◌, lift, for_each, unless_exists}
use easyclaw.Scripts.Rpc.Laws.{ClusterLaws, call_rpc-sends}
use easyclaw.Scripts.Rpc.Steps.{Monotone, Upward, has_account-Upward, for_each-Monotone}
use easyclaw.Scripts.Bootstrap.Config.{Config}
use easyclaw.Scripts.Bootstrap.Phases.{
  initialize_global, add_keeper, create_market_at, create_market, create_markets, initialize_pool,
  initialize_engine, init_funding_state, init_keeper_rebate, run_phases,
}
use easyclaw.Scripts.Bootstrap.Phases.Deploys.{
  IsDeployed, IsDeployed-Upward, HasMarket, HasFunding, HasRebate, run_phases-IsDeployed,
  initialize_global-Monotone, add_keeper-Monotone, known_keeper_chain, create_market-Monotone,
  create_markets-Monotone, initialize_pool-Monotone, initialize_engine-Monotone,
  init_funding_state-Monotone, init_keeper_rebate-Monotone, HasRebate-Upward,
}

module _ (n : Numbers) (w : Web3 n) (c : Config w.Key n.Num) where
  open w use {Key, Chain, has_account, has_method, key_eq, send}

  -- Between two states of a run, only registrations of keepers were sent.
  abbrev pub KeeperCalls : World n w → World n w → Type 0
  KeeperCalls s t =
      (calls : List (Call Key n.Num)) × (t.sent ≡ s.sent ++ calls)
      × All (λ call. to_camel call.method ≡ text "addKeeper") calls

  no_calls : (s : World n w) → KeeperCalls s s
  no_calls s = ([], sym (append-nil s.sent), tt)

  more_calls : (s t u : World n w) → KeeperCalls s t → KeeperCalls t u → KeeperCalls s u
  more_calls s t u (before, sent, ok_before) (after, sent', ok_after) = (
    before ++ after,
    sent' ∙ ap (λ l. l ++ after) sent ∙ append_assoc s.sent before after,
    All-append (λ (call : Call Key n.Num). to_camel call.method ≡ text "addKeeper") before after
        ok_before ok_after,
  )

  -- Where `P` holds the step sends only registrations of keepers.
  abbrev Quiet : {A : Type 0} → (Chain → Type 0) → Script (World n w) A → Type 0
  Quiet P m = (s : World n w) → P s.chain → KeeperCalls s (m s).1

  then_run-Quiet :
      {A B : Type 0} (P : Chain → Type 0) (f : A → Script (World n w) B) (s : World n w)
      (p : Result A × World n w)
      → KeeperCalls s p.1
      → P p.1.chain
      → ((a : A) → Quiet P (f a))
      → KeeperCalls s (then_run f p).1
  then_run-Quiet P f s (ok a, t) sent holds h = more_calls s t (f a t).1 sent (h a t holds)
  then_run-Quiet P f s (err e, t) sent holds h = sent

  seq-Quiet :
      {B : Type 0} (P : Chain → Type 0) (m : Script (World n w) (Unit {0}))
      (k : Script (World n w) B)
      → Upward n w P
      → Monotone n w m
      → Quiet P m
      → Quiet P k
      → Quiet P (m >> k)
  unfolding ◌>>◌
  seq-Quiet P m k up mono hm hk s holds =
      then_run-Quiet P (λ _. k) s (m s) (hm s holds) (up s.chain (m s).1.chain (mono s) holds)
        (λ _. hk)

  for_each-Quiet :
      {A : Type 0} (P : A → Chain → Type 0) (body : A → Script (World n w) (Unit {0})) (xs : List A)
      → ((a : A) → Upward n w (P a))
      → ((a : A) → Monotone n w (body a))
      → ((a : A) → Quiet (P a) (body a))
      → Quiet (λ chain. All (λ a. P a chain) xs) (for_each body xs)
  unfolding for_each
  for_each-Quiet P body [] up mono quiet s holds = no_calls s
  for_each-Quiet P body (x ∷ xs) up mono quiet s holds =
      then_run-Quiet (λ chain. All (λ a. P a chain) xs) (λ _. for_each body xs) s (body x s)
        (quiet x s holds.0) (keep_all xs holds.1) (λ _. for_each-Quiet P body xs up mono quiet)
    where
      keep_all : (ys : List _) → All (λ a. P a s.chain) ys → All (λ a. P a (body x s).1.chain) ys
      keep_all [] h = tt
      keep_all (y ∷ ys) h = (up y s.chain (body x s).1.chain (mono x s) h.0, keep_all ys h.1)

  unless_exists-Quiet :
      (key : Key) (create : Script (World n w) (Unit {0}))
      → Quiet (λ chain. has_account chain key ≡ true) (unless_exists n w key create)
  unfolding unless_exists
  unless_exists-Quiet key create s there = rw there (no_calls s)

  lift-Quiet :
      {A B : Type 0} (P : Chain → Type 0) (r : Result A) (f : A → Script (World n w) B)
      → ((a : A) → Quiet P (f a))
      → Quiet P (lift r >>= f)
  lift-Quiet P (ok a) f h s holds = h a s holds
  lift-Quiet P (err e) f h s holds = no_calls s

  weaken :
      {A : Type 0} (P Q : Chain → Type 0) (m : Script (World n w) A)
      → ((chain : Chain) → P chain → Q chain)
      → Quiet Q m
      → Quiet P m
  weaken P Q m to quiet s holds = quiet s (to s.chain holds)

  module _ (laws : ClusterLaws n w) where
    add_keeper-Quiet : (k : Key) → Quiet (λ chain. Unit {0}) (add_keeper n w c k)
    unfolding add_keeper
    add_keeper-Quiet keeper s holds = rw known_keeper_chain (
        call_rpc-sends n w laws c.market_registry (text "addKeeper") _ _ s
          (unfold text in ground arith))

    keepers-Quiet : Quiet (IsDeployed n w c) (for_each (add_keeper n w c) c.keepers)
    keepers-Quiet s holds =
        for_each-Quiet (λ k chain. Unit {0}) (add_keeper n w c) c.keepers (λ k x y up h. tt)
          (add_keeper-Monotone n w c laws) add_keeper-Quiet s (trivial c.keepers)
      where
        trivial : (ks : List Key) → All (λ k. Unit {0}) ks
        trivial [] = tt
        trivial (k ∷ ks) = (tt, trivial ks)

    global-Quiet : Quiet (IsDeployed n w c) (initialize_global n w c)
    unfolding initialize_global
    global-Quiet s d = unless_exists-Quiet _ _ s d.global_config

    pool-Quiet : Quiet (IsDeployed n w c) (initialize_pool n w c)
    unfolding initialize_pool
    pool-Quiet s d = unless_exists-Quiet _ _ s d.pool

    engine-Quiet : Quiet (IsDeployed n w c) (initialize_engine n w c)
    unfolding initialize_engine
    engine-Quiet s d = unless_exists-Quiet _ _ s d.engine_config

    funding-Quiet : Quiet (IsDeployed n w c) (for_each (init_funding_state n w c) c.markets)
    unfolding init_funding_state
    funding-Quiet s d =
        for_each-Quiet (HasFunding n w c) (init_funding_state n w c) c.markets
          (λ m. has_account-Upward n w _) (init_funding_state-Monotone n w c laws)
          (λ m t there. unless_exists-Quiet _ _ t there) s d.funding_accounts

    init_keeper_rebate-Quiet : (k : Key) → Quiet (HasRebate n w c k) (init_keeper_rebate n w c k)
    unfolding init_keeper_rebate
    init_keeper_rebate-Quiet keeper s there = elim (Bool-cases (key_eq keeper c.wallet)) [
      | inl own ↦ rw own (unless_exists-Quiet _ _ s (there own))
      | inr other ↦ rw other (no_calls s)
    ]

    rebates-Quiet : Quiet (IsDeployed n w c) (for_each (init_keeper_rebate n w c) c.keepers)
    rebates-Quiet s d =
        for_each-Quiet (HasRebate n w c) (init_keeper_rebate n w c) c.keepers
          (HasRebate-Upward n w c) (init_keeper_rebate-Monotone n w c laws) init_keeper_rebate-Quiet
          s d.rebate_accounts

    create_market_at-Quiet :
        (feed : Key) (m : Market) → Quiet (HasMarket n w c m) (create_market_at n w c feed m)
    unfolding create_market_at
    create_market_at-Quiet feed m s there = unless_exists-Quiet _ _ s there

    create_market-Quiet :
        (env : Env) (fallback : Key) (m : Market)
        → Quiet (HasMarket n w c m) (create_market n w c env fallback m)
    unfolding create_market
    create_market-Quiet env fallback m =
        lift-Quiet (HasMarket n w c m) _ _
          (λ feed. create_market_at-Quiet (or_else feed fallback) m)

    all_markets-Quiet :
        (env : Env) (fallback : Key)
        → Quiet (IsDeployed n w c) (for_each (create_market n w c env fallback) c.markets)
    all_markets-Quiet env fallback s d =
        for_each-Quiet (HasMarket n w c) (create_market n w c env fallback) c.markets
          (λ m. has_account-Upward n w _) (create_market-Monotone n w c laws env fallback)
          (create_market-Quiet env fallback) s d.market_accounts

    markets-Quiet : (env : Env) → Quiet (IsDeployed n w c) (create_markets n w c env)
    unfolding create_markets
    markets-Quiet env =
        lift-Quiet (IsDeployed n w c) _ _ (λ found. all_markets-Quiet env (or_else found c.wallet))

    abbrev up : Upward n w (IsDeployed n w c)
    up = IsDeployed-Upward n w c

    -- On a cluster that loses no account to the scripts' calls and on which a successful initialising call creates the
    -- account that it is about, where every account of the deployment exists, a run of the phases,
    -- under any environment for the feeds, sends no call but registrations of keepers, however it
    -- ends.
    pub run_phases-KeeperCalls :
        (env : Env) (s : World n w)
        → IsDeployed n w c s.chain
        → KeeperCalls s (run_phases n w c env s).1
    unfolding run_phases
    run_phases-KeeperCalls env =
        seq-Quiet (IsDeployed n w c) _ _ up (initialize_global-Monotone n w c laws) global-Quiet (
          seq-Quiet (IsDeployed n w c) _ _ up
            (for_each-Monotone n w _ c.keepers (add_keeper-Monotone n w c laws)) keepers-Quiet
            (seq-Quiet (IsDeployed n w c) _ _ up (create_markets-Monotone n w c laws env)
              (markets-Quiet env)
              (seq-Quiet (IsDeployed n w c) _ _ up (initialize_pool-Monotone n w c laws) pool-Quiet
                (seq-Quiet (IsDeployed n w c) _ _ up (initialize_engine-Monotone n w c laws)
                  engine-Quiet
                  (seq-Quiet (IsDeployed n w c) _ _ up
                    (for_each-Monotone n w _ c.markets (init_funding_state-Monotone n w c laws))
                    funding-Quiet rebates-Quiet)))))

    -- On a cluster that loses no account to the scripts' calls and on which a successful initialising call creates the
    -- account that it is about, after a run of the phases that returned, a second run, possibly
    -- under another environment for the feeds, sends no call but registrations of keepers.
    pub run_phases-run_phases :
        (env env' : Env) (s : World n w)
        → (run_phases n w c env s).0 ≡ ok tt
        → KeeperCalls
            (run_phases n w c env s).1
            (run_phases n w c env' (run_phases n w c env s).1).1
    run_phases-run_phases env env' s e =
        run_phases-KeeperCalls env' (run_phases n w c env s).1
          (run_phases-IsDeployed n w c laws env s e)
