-- ===== src/Skill/Onboard/Trade/Laws.antt =====
-- The command line that the onboarding gives to the agent, and its reading there.
use easyclaw.Base.{
  ◌≡◌, refl, ap, ◌∙◌, Bool, true, false, not, ◌&&◌, some, [], arith, if◌then◌else◌, Text, text,
  text_eq, trim, to_lower, is_empty, ok,
}
use easyclaw.Numbers.{Numbers}
use easyclaw.Skill.Args.{parse_args}
use easyclaw.Skill.Args.Laws.{parse_args-tokens_of}
use easyclaw.Skill.Setup.{Host}
use easyclaw.Skill.Agent.Values.{Floats}
use easyclaw.Skill.Agent.Config.{
  Config, max, text_option, checked_config, read_strategy_prompt, read_config,
}
use easyclaw.Skill.Onboard.Trade.{TradeConfig, is_order_type, build_autotrade_args}
use easyclaw.Skill.Onboard.Trade.Shown.{number_given, int_given, int_absent}
use easyclaw.Skill.Onboard.Trade.Given.{
  IsCollected, whole, build_autotrade_args-tokens_of, values, given_options, lookup_price,
  lookup_deposit, lookup_reduce, lookup_agent, lookup_dry, market_id_there, margin_there,
  type_there, ttl_there, confidence_there, cooldown_there, orders_there, channel_there,
  strategy_there, base_absent, most_absent, attempts_absent,
}
use easyclaw.Skill.Onboard.Trade.Options.{to_bool_if, word_ne, text_option_given, text_option_if}

module _ (n : Numbers) (m : Floats n) where
  open n use {Num, number, of_ℕ, is_finite, show}
  open m use {floor, to_ℕ}

  -- The agent's configuration that it stands for, with the prompt.
  unfoldable pub agent_config : TradeConfig Num → Text → Config Num
  agent_config config prompt =
      let base = max 250 (to_ℕ (of_ℕ 1000)) in
      record {
        market_id = config.market_id;
        margin = config.margin;
        order_type = config.order_type;
        price = if text_eq config.order_type (text "limit") then config.price else [];
        ttl = config.ttl;
        deposit = if not (is_empty config.deposit) then config.deposit else [];
        reduce_only = config.reduce_only;
        min_confidence = config.min_confidence;
        cooldown_ms = to_ℕ config.cooldown_ms;
        max_orders = to_ℕ config.max_orders;
        channel = config.channel;
        agent_name_filter = if not (is_empty config.agent_name) then config.agent_name else [];
        dry_run = config.dry_run;
        strategy_prompt = prompt;
        reconnect_base_delay_ms = base;
        reconnect_max_delay_ms = max base (to_ℕ (of_ℕ 30000));
        max_reconnect_attempts = to_ℕ (of_ℕ 0);
      }

  module _ (config : TradeConfig Num) (path : Text) where
    module _ (c : IsCollected n m config path) where
      is_type_word :
          to_lower (text_option (text "type") (given_options n m config path) (text "market"))
          ≡ config.order_type
      is_type_word =
          ap to_lower (
            text_option_given (text "type") (given_options n m config path) config.order_type
              (text "market") (type_there n m config path) c.order_type)
          ∙ c.lower

      prompt_read :
          {K : Type 0} (host : Host K) {content : Text}
          → host.read_file (host.resolve path) ≡ some content
          → read_strategy_prompt host (given_options n m config path)
            ≡ ok (trim content, host.resolve path)
      unfolding read_strategy_prompt
      prompt_read host there = rw (
        text_option_given (text "strategy-file") (given_options n m config path) path []
            (strategy_there n m config path) c.path_word,
        word_ne path c.path_word,
        there,
      )

      -- What the tests of the agent let through.
      checked :
          (prompt source : Text)
          → checked_config n m config.market_id config.margin config.order_type
              (if text_eq config.order_type (text "limit") then config.price else [])
              config.ttl
              (if not (is_empty config.deposit) then config.deposit else [])
              config.channel
              (if not (is_empty config.agent_name) then config.agent_name else [])
              config.reduce_only
              config.dry_run
              (ok config.min_confidence)
              (ok (to_ℕ config.cooldown_ms))
              (ok (to_ℕ config.max_orders))
              (ok (to_ℕ (of_ℕ 1000)))
              (ok (to_ℕ (of_ℕ 30000)))
              (ok (to_ℕ (of_ℕ 0)))
              (ok (prompt, source))
            ≡ ok (agent_config config prompt)
      unfolding checked_config agent_config
      checked prompt source = rw (
        word_ne config.market_id c.market_id,
        word_ne config.margin c.margin,
        known_type c.known,
        price_there,
      )
        where
          known_type :
              is_order_type config.order_type ≡ true
              → not (
                  not (text_eq config.order_type (text "market"))
                  && not (text_eq config.order_type (text "limit")))
                ≡ true
          known_type h = ground arith

          price_there :
              not (
                text_eq config.order_type (text "limit")
                && is_empty (if text_eq config.order_type (text "limit") then config.price else []))
              ≡ true
          price_there = go (text_eq config.order_type (text "limit")) refl
            where
              go :
                  (b : Bool)
                  → text_eq config.order_type (text "limit") ≡ b
                  → not (b && is_empty (if b then config.price else [])) ≡ true
              go true e = rw (word_ne config.price (c.price e))
              go false e = refl

      read_given :
          {K : Type 0} (host : Host K) {content : Text}
          → host.read_file (host.resolve path) ≡ some content
          → read_config n m host (given_options n m config path)
            ≡ ok (agent_config config (trim content))
      unfolding read_config
      read_given host {content} there =
          rw
            (
              text_option_given (text "market-id") (given_options n m config path) config.market_id
                  [] (market_id_there n m config path) c.market_id,
              text_option_given (text "margin") (given_options n m config path) config.margin []
                  (margin_there n m config path) c.margin,
              is_type_word,
              text_option_if (text "price") (given_options n m config path) _ config.price
                  (lookup_price n m config path) c.price,
              text_option_given (text "ttl") (given_options n m config path) config.ttl (text "300")
                  (ttl_there n m config path) c.ttl,
              text_option_if (text "deposit") (given_options n m config path) _ config.deposit
                  (lookup_deposit n m config path) c.deposit,
              text_option_given (text "channel") (given_options n m config path) config.channel
                  (text "agent.signals") (channel_there n m config path) c.channel,
              text_option_if (text "agent-name") (given_options n m config path) _ config.agent_name
                  (lookup_agent n m config path) c.agent_name,
              to_bool_if config.reduce_only _ (lookup_reduce n m config path),
              to_bool_if config.dry_run _ (lookup_dry n m config path),
              number_given n m (text "min-confidence") (given_options n m config path)
                  config.min_confidence (number (text "0.7")) (confidence_there n m config path)
                  c.min_confidence,
              int_given n m (text "cooldown-ms") (given_options n m config path) config.cooldown_ms
                  15000 (cooldown_there n m config path) c.cooldown_ms c.whole_cooldown,
              int_given n m (text "max-orders") (given_options n m config path) config.max_orders 0
                  (orders_there n m config path) c.max_orders c.whole_orders,
              int_absent n m (text "reconnect-base-delay-ms") (given_options n m config path) 1000
                  (base_absent n m config path),
              int_absent n m (text "reconnect-max-delay-ms") (given_options n m config path) 30000
                  (most_absent n m config path),
              int_absent n m (text "max-reconnect-attempts") (given_options n m config path) 0
                  (attempts_absent n m config path),
              prompt_read host there,
            )
            (checked (trim content) (host.resolve path))

      -- Where the collected configuration consists of words and of numbers that are read back from their
      -- texts, and the strategy's file is there, the agent reads from the command line that the onboarding
      -- builds that configuration, with the file's prompt and its own delays to reconnect.
      pub read_config-build_autotrade_args :
          {K : Type 0} (host : Host K) {content : Text}
          → host.read_file (host.resolve path) ≡ some content
          → read_config n m host (parse_args (build_autotrade_args n m config path))
            ≡ ok (agent_config config (trim content))
      unfolding given_options
      read_config-build_autotrade_args host {content} there =
          ap (λ tokens. read_config n m host (parse_args tokens))
            (build_autotrade_args-tokens_of n m config path)
          ∙ ap (read_config n m host)
              (parse_args-tokens_of (whole n m config path) ((values n m config path) c))
          ∙ read_given host there
