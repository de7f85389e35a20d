-- ===== src/Skill/Agent/Config.antt =====
-- The configuration that `main` of realtime-agent.js reads, and the command line of an order.
pub mod Laws
use easyclaw.Base.{
  ℕ, Bool, true, false, not, ◌&&◌, Option, none, some, List, [], ◌∷◌, ◌++◌, if◌then◌else◌, ltb,
  is_empty, or_else, option_map, Text, text, text_eq, trim, to_lower, Dict, lookup, Result, ok, err,
  ◌>>=◌, ◌>>◌, guard, or_throw,
}
use easyclaw.Numbers.{Numbers}
use easyclaw.Skill.Words.{ArgValue, given, arg_text}
use easyclaw.Skill.Plan.{option}
use easyclaw.Skill.Setup.{Host}
use easyclaw.Skill.Agent.Values.{Floats, to_number, to_int, arg_json, to_bool}

pub record Config (N : Type 0) : Type 0 where
  pub market_id : Text
  pub margin : Text
  pub order_type : Text
  pub price : Text
  pub ttl : Text
  pub deposit : Text
  pub reduce_only : Bool
  pub min_confidence : N
  pub cooldown_ms : ℕ
  pub max_orders : ℕ
  pub channel : Text
  pub agent_name_filter : Text
  pub dry_run : Bool
  pub strategy_prompt : Text
  pub reconnect_base_delay_ms : ℕ
  pub reconnect_max_delay_ms : ℕ
  pub max_reconnect_attempts : ℕ

-- `String(args[name] || fallback).trim()`
abbrev pub text_option : Text → Dict ArgValue → Text → Text
text_option name args fallback = trim (arg_text (or_else (option name args) (given fallback)))

-- `Math.max(a, b)`
abbrev pub max : ℕ → ℕ → ℕ
max a b = if ltb a b then b else a

-- `Math.min(a, b)`
abbrev pub min : ℕ → ℕ → ℕ
min a b = if ltb b a then b else a

-- The prompt with its source.
unfoldable pub read_strategy_prompt : {K : Type 0} → Host K → Dict ArgValue → Result (Text × Text)
unfolding option
read_strategy_prompt host args =
    let file_path = text_option (text "strategy-file") args [] in
    let inline = text_option (text "strategy") args [] in
    let absolute = host.resolve file_path in
    if is_empty file_path
    then ok (inline, if is_empty inline then [] else text "inline")
    else or_throw (option_map (λ content. (trim content, absolute)) (host.read_file absolute))
        (text "strategy file not found: " ++ absolute)

module _ (n : Numbers) (m : Floats n) where
  open n use {Num, of_ℕ, number}
  open m use {to_ℕ}

  -- `Math.max(0, toInt(args[name], fallback))`
  abbrev pub int_option : Text → Dict ArgValue → ℕ → Result ℕ
  int_option name args fallback =
      to_int n m (option_map (arg_json n) (lookup name args)) (of_ℕ fallback) >>= λ v. ok (to_ℕ v)

  -- The tests on the options that are texts, and the readings of the others, in their order.
  unfoldable pub checked_config :
      (market_id margin order_type price ttl deposit channel agent_name : Text)
      (reduce_only dry_run : Bool)
      → Result Num
      → (cooldown max_orders base most attempts : Result ℕ) → Result (Text × Text)
      → Result (Config Num)
  checked_config market_id margin order_type price ttl deposit channel agent_name reduce_only
        dry_run confidence cooldown max_orders base most attempts prompt =
      do
        guard (not (is_empty market_id)) (text "--market-id is required")
        guard (not (is_empty margin)) (text "--margin is required")
        guard
            (not
              (not (text_eq order_type (text "market")) && not (text_eq order_type (text "limit"))))
            (text "--type must be market or limit")
        guard (not (text_eq order_type (text "limit") && is_empty price))
            (text "--price is required for limit orders")
        min_confidence ← confidence
        cooldown_ms ← cooldown
        most_orders ← max_orders
        base_ms ← base
        most_ms ← most
        most_attempts ← attempts
        strategy ← prompt
        ok (record {
          market_id = market_id;
          margin = margin;
          order_type = order_type;
          price = price;
          ttl = ttl;
          deposit = deposit;
          reduce_only = reduce_only;
          min_confidence = min_confidence;
          cooldown_ms = cooldown_ms;
          max_orders = most_orders;
          channel = channel;
          agent_name_filter = agent_name;
          dry_run = dry_run;
          strategy_prompt = strategy.0;
          reconnect_base_delay_ms = max 250 base_ms;
          reconnect_max_delay_ms = max (max 250 base_ms) most_ms;
          max_reconnect_attempts = most_attempts;
        })

  -- `toNumber(args[name], fallback)`
  abbrev pub number_option : Text → Dict ArgValue → Num → Result Num
  number_option name args fallback =
      to_number n (option_map (arg_json n) (lookup name args)) fallback

  -- From the options to `config`; the fallback `0.7` is the number of that text.
  unfoldable pub read_config : {K : Type 0} → Host K → Dict ArgValue → Result (Config Num)
  unfolding option read_strategy_prompt checked_config
  read_config host args =
      checked_config (text_option (text "market-id") args []) (text_option (text "margin") args [])
        (to_lower (text_option (text "type") args (text "market")))
        (text_option (text "price") args []) (text_option (text "ttl") args (text "300"))
        (text_option (text "deposit") args [])
        (text_option (text "channel") args (text "agent.signals"))
        (text_option (text "agent-name") args []) (to_bool (lookup (text "reduce-only") args))
        (to_bool (lookup (text "dry-run") args))
        (number_option (text "min-confidence") args (number (text "0.7")))
        (int_option (text "cooldown-ms") args 15000) (int_option (text "max-orders") args 0)
        (int_option (text "reconnect-base-delay-ms") args 1000)
        (int_option (text "reconnect-max-delay-ms") args 30000)
        (int_option (text "max-reconnect-attempts") args 0) (read_strategy_prompt host args)

-- Arguments that are pushed under a test.
abbrev pub pushed : Bool → List Text → List Text
pushed test xs = if test then xs else []

unfoldable pub build_order_args : {N : Type 0} → Config N → Text → List Text
build_order_args config side =
    (text "--market-id"
      ∷ config.market_id
      ∷ text "--side"
      ∷ side
      ∷ text "--type"
      ∷ config.order_type
      ∷ text "--margin"
      ∷ config.margin
      ∷ text "--ttl"
      ∷ config.ttl
      ∷ [])
    ++ (pushed (text_eq config.order_type (text "limit")) (text "--price" ∷ config.price ∷ [])
        ++ (pushed (not (is_empty config.deposit)) (text "--deposit" ∷ config.deposit ∷ [])
            ++ pushed config.reduce_only (text "--reduce-only" ∷ [])))
