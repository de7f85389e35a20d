-- ===== src/Skill/Onboard/Trade/Given.antt =====
-- The options of the agent's command line as a dictionary.
use easyclaw.Base.{
  ◌≡◌, refl, sym, ap, ◌∙◌, true, false, not, none, some, List, [], ◌∷◌, ◌++◌, if◌then◌else◌,
  All-append, Text, text, text_eq, to_lower, Dict, lookup, is_empty,
}
use easyclaw.Numbers.{Numbers}
use easyclaw.Skill.Words.{ArgValue, flag, given}
use easyclaw.Skill.Args.Laws.{Pair, IsValue, tokens_of, insert_all}
use easyclaw.Skill.Agent.Values.{Floats}
use easyclaw.Skill.Agent.Config.Laws.{pairs_if, pairs_if-IsValues, IsValues}
use easyclaw.Skill.Onboard.Trade.{TradeConfig, is_order_type, build_autotrade_args}
use easyclaw.Skill.Onboard.Trade.Shown.{IsShown}
use easyclaw.Skill.Onboard.Trade.Options.{
  tokens_five, last_of-five, last_of, lookup_options, last_of_other, last_of_same, or_option-none,
  IsWord,
}

module _ (n : Numbers) (m : Floats n) where
  open n use {Num, number, of_ℕ, is_finite, show}
  open m use {floor, to_ℕ}

  -- What a collected configuration is like: words, a type of order, and numbers that can be shown.
  pub record IsCollected (config : TradeConfig Num) (path : Text) : Type 0 where
    pub market_id : IsWord config.market_id
    pub margin : IsWord config.margin
    pub order_type : IsWord config.order_type
    pub lower : to_lower config.order_type ≡ config.order_type
    pub known : is_order_type config.order_type ≡ true
    pub price : text_eq config.order_type (text "limit") ≡ true → IsWord config.price
    pub ttl : IsWord config.ttl
    pub deposit : not (is_empty config.deposit) ≡ true → IsWord config.deposit
    pub min_confidence : IsShown n m config.min_confidence
    pub cooldown_ms : IsShown n m config.cooldown_ms
    pub whole_cooldown : floor config.cooldown_ms ≡ config.cooldown_ms
    pub max_orders : IsShown n m config.max_orders
    pub whole_orders : floor config.max_orders ≡ config.max_orders
    pub channel : IsWord config.channel
    pub agent_name : not (is_empty config.agent_name) ≡ true → IsWord config.agent_name
    pub path_word : IsWord path

  module _ (config : TradeConfig Num) (path : Text) where
    unfoldable pub fixed : List Pair
    fixed =
        (text "market-id", given config.market_id)
        ∷ (text "margin", given config.margin)
        ∷ (text "type", given config.order_type)
        ∷ (text "ttl", given config.ttl)
        ∷ (text "min-confidence", given (show config.min_confidence))
        ∷ (text "cooldown-ms", given (show config.cooldown_ms))
        ∷ (text "max-orders", given (show config.max_orders))
        ∷ (text "channel", given config.channel)
        ∷ (text "strategy-file", given path)
        ∷ []

    unfoldable pub prices : List Pair
    prices =
        pairs_if (text_eq config.order_type (text "limit"))
          ((text "price", given config.price) ∷ [])

    unfoldable pub deposits : List Pair
    deposits =
        pairs_if (not (is_empty config.deposit)) ((text "deposit", given config.deposit) ∷ [])

    unfoldable pub reduces : List Pair
    reduces = pairs_if config.reduce_only ((text "reduce-only", flag) ∷ [])

    unfoldable pub agents : List Pair
    agents =
        pairs_if (not (is_empty config.agent_name))
          ((text "agent-name", given config.agent_name) ∷ [])

    unfoldable pub dries : List Pair
    dries = pairs_if config.dry_run ((text "dry-run", flag) ∷ [])

    unfoldable pub whole : List Pair
    whole = fixed ++ (prices ++ (deposits ++ (reduces ++ (agents ++ dries))))

    pub build_autotrade_args-tokens_of : build_autotrade_args n m config path ≡ tokens_of whole
    unfolding build_autotrade_args text whole fixed prices deposits reduces agents dries
    build_autotrade_args-tokens_of =
        ap (λ l. tokens_of fixed ++ l)
          (sym (
            tokens_five (text_eq config.order_type (text "limit")) (not (is_empty config.deposit))
              config.reduce_only (not (is_empty config.agent_name)) config.dry_run
              ((text "price", given config.price) ∷ [])
              ((text "deposit", given config.deposit) ∷ []) ((text "reduce-only", flag) ∷ [])
              ((text "agent-name", given config.agent_name) ∷ []) ((text "dry-run", flag) ∷ [])))

    pub values : IsCollected config path → IsValues whole
    unfolding whole fixed prices deposits reduces agents dries
    values c =
        All-append (λ q. IsValue q.1) fixed _
          (
            c.market_id.no_option,
            (
              c.margin.no_option,
              (
                c.order_type.no_option,
                (
                  c.ttl.no_option,
                  (
                    c.min_confidence.no_option,
                    (
                      c.cooldown_ms.no_option,
                      (c.max_orders.no_option, (c.channel.no_option, (c.path_word.no_option, tt))),
                    ),
                  ),
                ),
              ),
            ),
          )
          (All-append (λ q. IsValue q.1) prices _
            (pairs_if-IsValues _ _ _ (λ e. (c.price e).no_option))
            (All-append (λ q. IsValue q.1) deposits _
              (pairs_if-IsValues _ _ _ (λ e. (c.deposit e).no_option))
              (All-append (λ q. IsValue q.1) reduces _ (pairs_if-IsValues _ _ _ (λ e. tt))
                (All-append (λ q. IsValue q.1) agents _
                  (pairs_if-IsValues _ _ _ (λ e. (c.agent_name e).no_option))
                  (pairs_if-IsValues _ _ _ (λ e. tt))))))

    -- The dictionary of the options.
    unfoldable pub given_options : Dict ArgValue
    given_options = insert_all whole []

    -- A key of none of the options under a test.
    pub lookup-fixed :
        (k : Text)
        → text_eq (text "price") k ≡ false
        → text_eq (text "deposit") k ≡ false
        → text_eq (text "reduce-only") k ≡ false
        → text_eq (text "agent-name") k ≡ false
        → text_eq (text "dry-run") k ≡ false
        → lookup k given_options ≡ last_of k fixed
    unfolding given_options whole prices deposits reduces agents dries
    lookup-fixed k p d r a y =
        lookup_options k whole
        ∙ last_of-five k fixed prices deposits reduces agents dries
        ∙ rw (
          last_of_other config.dry_run (text "dry-run") k flag y,
          last_of_other (not (is_empty config.agent_name)) (text "agent-name") k _ a,
          last_of_other config.reduce_only (text "reduce-only") k flag r,
          last_of_other (not (is_empty config.deposit)) (text "deposit") k _ d,
          last_of_other (text_eq config.order_type (text "limit")) (text "price") k _ p,
        )

    -- The keys of the options under a test.
    pub lookup_price :
        lookup (text "price") given_options
        ≡ (if text_eq config.order_type (text "limit") then some (given config.price) else none)
    unfolding given_options whole fixed prices deposits reduces agents dries text text_eq
    lookup_price =
        lookup_options (text "price") whole
        ∙ last_of-five (text "price") fixed prices deposits reduces agents dries
        ∙ simp (last_of_other, last_of_same, or_option-none)

    pub lookup_deposit :
        lookup (text "deposit") given_options
        ≡ (if not (is_empty config.deposit) then some (given config.deposit) else none)
    unfolding given_options whole fixed prices deposits reduces agents dries text text_eq
    lookup_deposit =
        lookup_options (text "deposit") whole
        ∙ last_of-five (text "deposit") fixed prices deposits reduces agents dries
        ∙ simp (last_of_other, last_of_same, or_option-none)

    pub lookup_reduce :
        lookup (text "reduce-only") given_options ≡ (if config.reduce_only then some flag else none)
    unfolding given_options whole fixed prices deposits reduces agents dries text text_eq
    lookup_reduce =
        lookup_options (text "reduce-only") whole
        ∙ last_of-five (text "reduce-only") fixed prices deposits reduces agents dries
        ∙ simp (last_of_other, last_of_same, or_option-none)

    pub lookup_agent :
        lookup (text "agent-name") given_options
        ≡ (if not (is_empty config.agent_name) then some (given config.agent_name) else none)
    unfolding given_options whole fixed prices deposits reduces agents dries text text_eq
    lookup_agent =
        lookup_options (text "agent-name") whole
        ∙ last_of-five (text "agent-name") fixed prices deposits reduces agents dries
        ∙ simp (last_of_other, last_of_same, or_option-none)

    pub lookup_dry :
        lookup (text "dry-run") given_options ≡ (if config.dry_run then some flag else none)
    unfolding given_options whole fixed prices deposits reduces agents dries text text_eq
    lookup_dry =
        lookup_options (text "dry-run") whole
        ∙ last_of-five (text "dry-run") fixed prices deposits reduces agents dries
        ∙ simp (last_of_other, last_of_same, or_option-none)

    -- The keys of the fixed part, and three that are not given.
    pub market_id_there : lookup (text "market-id") given_options ≡ some (given config.market_id)
    unfolding fixed text text_eq
    market_id_there = lookup-fixed (text "market-id") refl refl refl refl refl

    pub margin_there : lookup (text "margin") given_options ≡ some (given config.margin)
    unfolding fixed text text_eq
    margin_there = lookup-fixed (text "margin") refl refl refl refl refl

    pub type_there : lookup (text "type") given_options ≡ some (given config.order_type)
    unfolding fixed text text_eq
    type_there = lookup-fixed (text "type") refl refl refl refl refl

    pub ttl_there : lookup (text "ttl") given_options ≡ some (given config.ttl)
    unfolding fixed text text_eq
    ttl_there = lookup-fixed (text "ttl") refl refl refl refl refl

    pub confidence_there :
        lookup (text "min-confidence") given_options ≡ some (given (show config.min_confidence))
    unfolding fixed text text_eq
    confidence_there = lookup-fixed (text "min-confidence") refl refl refl refl refl

    pub cooldown_there :
        lookup (text "cooldown-ms") given_options ≡ some (given (show config.cooldown_ms))
    unfolding fixed text text_eq
    cooldown_there = lookup-fixed (text "cooldown-ms") refl refl refl refl refl

    pub orders_there :
        lookup (text "max-orders") given_options ≡ some (given (show config.max_orders))
    unfolding fixed text text_eq
    orders_there = lookup-fixed (text "max-orders") refl refl refl refl refl

    pub channel_there : lookup (text "channel") given_options ≡ some (given config.channel)
    unfolding fixed text text_eq
    channel_there = lookup-fixed (text "channel") refl refl refl refl refl

    pub strategy_there : lookup (text "strategy-file") given_options ≡ some (given path)
    unfolding fixed text text_eq
    strategy_there = lookup-fixed (text "strategy-file") refl refl refl refl refl

    pub base_absent : lookup (text "reconnect-base-delay-ms") given_options ≡ none
    unfolding fixed text text_eq
    base_absent = lookup-fixed (text "reconnect-base-delay-ms") refl refl refl refl refl

    pub most_absent : lookup (text "reconnect-max-delay-ms") given_options ≡ none
    unfolding fixed text text_eq
    most_absent = lookup-fixed (text "reconnect-max-delay-ms") refl refl refl refl refl

    pub attempts_absent : lookup (text "max-reconnect-attempts") given_options ≡ none
    unfolding fixed text text_eq
    attempts_absent = lookup-fixed (text "max-reconnect-attempts") refl refl refl refl refl
