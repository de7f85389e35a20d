-- ===== src/Skill/Onboard/Trade.antt =====
-- The trading configuration that onboard.js collects, and the command line of the agent.
pub mod Options
pub mod Shown
pub mod Given
pub mod Laws
use easyclaw.Base.{
  ℕ, Bool, true, false, not, ◌&&◌, ◌||◌, Option, none, some, List, [], ◌∷◌, ◌++◌, if◌then◌else◌,
  is_empty, is_some, or_else, option_map, Text, text, text_eq, trim, to_lower, Dict, lookup, Result,
  ok, err,
}
use easyclaw.Numbers.{Numbers}
use easyclaw.Skill.Words.{ArgValue, flag, given, arg_text, is_decimal}
use easyclaw.Skill.Plan.{truthy}
use easyclaw.Skill.Agent.Values.{Floats}
use easyclaw.Skill.Agent.Config.{pushed, text_option}
use easyclaw.Skill.Commands.Readers.{trimmed}
use easyclaw.Skill.Onboard.Answers.{
  Dialog, is_one_of, answer_or, ask_until, ask_yes_no, pure, lift, ◌>>=◌,
}

-- `isUnsignedIntegerText(value)`
abbrev pub is_unsigned_integer_text : Text → Bool
is_unsigned_integer_text value = is_decimal (trim value)

-- The test of the loop.
unfoldable pub unsigned_integer : Text → Option (Result Text)
unsigned_integer candidate =
    if not (is_empty candidate) && is_unsigned_integer_text candidate
    then some (ok candidate)
    else none

abbrev pub asked_unless : Option (Result Text) → Dialog Text
asked_unless none = ask_until (λ line. unsigned_integer (answer_or [] line))
asked_unless (some r) = lift r

-- The callers pass no fallback.
unfoldable pub ask_unsigned_integer : Text → Dialog Text
unfolding unsigned_integer answer_or ask_until lift
ask_unsigned_integer initial = asked_unless (unsigned_integer (trim initial))

unfoldable pub parse_bool : Option ArgValue → Bool
parse_bool none = false
parse_bool (some flag) = true
parse_bool (some (given s)) =
    is_one_of (text "1" ∷ text "true" ∷ text "yes" ∷ text "y" ∷ []) (to_lower (trim s))

abbrev pub is_order_type : Text → Bool
is_order_type s = text_eq s (text "market") || text_eq s (text "limit")

-- The answer to the question for the type.
unfoldable pub selected_type : Text → Option (Result Text)
unfolding answer_or
selected_type line =
    let selected = trim (to_lower (answer_or (text "market") line)) in
    if is_order_type selected then some (ok selected) else none

unfoldable pub ask_order_type : Dict ArgValue → Dialog Text
unfolding selected_type pure ask_until
ask_order_type args =
    let order_type = to_lower (text_option (text "type") args (text "market")) in
    if is_order_type order_type then pure order_type else ask_until selected_type

-- `s || fallback`
abbrev nonempty_or : Text → Text → Text
nonempty_or s fallback = if is_empty s then fallback else s

-- `String(raw || "")`
abbrev raw_text : Option ArgValue → Text
raw_text raw = or_else (option_map arg_text (truthy raw)) []

-- `${raw}`
abbrev shown : Option ArgValue → Text
shown raw = or_else (option_map arg_text raw) (text "undefined")

pub record TradeConfig (N : Type 0) : Type 0 where
  pub market_id : Text
  pub margin : Text
  pub order_type : Text
  pub price : Text
  pub ttl : Text
  pub deposit : Text
  pub reduce_only : Bool
  pub min_confidence : N
  pub cooldown_ms : N
  pub max_orders : N
  pub channel : Text
  pub agent_name : Text
  pub dry_run : Bool

module _ (n : Numbers) (m : Floats n) where
  open n use {Num, number, of_ℕ, is_finite, show}
  open m use {floor}

  unfoldable pub parse_maybe_float : Option ArgValue → Num → Result Num
  unfolding trimmed
  parse_maybe_float raw fallback =
      let value = trimmed raw in
      if is_empty value
      then ok fallback
      else if is_finite (number value)
      then ok (number value)
      else err (text "invalid numeric value: " ++ shown raw)

  unfoldable pub parse_maybe_int : Option ArgValue → Num → Result Num
  unfolding trimmed
  parse_maybe_int raw fallback =
      let value = trimmed raw in
      if is_empty value
      then ok fallback
      else if is_finite (number value)
      then ok (floor (number value))
      else err (text "invalid integer value: " ++ shown raw)

  unfoldable pub ask_price : Text → Text → Dialog Text
  unfolding ask_unsigned_integer pure
  ask_price order_type price =
      if text_eq order_type (text "limit") then ask_unsigned_integer price else pure price

  unfoldable pub ask_dry_run : Option ArgValue → Dialog Bool
  unfolding ask_yes_no parse_bool ◌>>=◌ pure
  ask_dry_run none = ask_yes_no false >>= λ real. pure (not real)
  ask_dry_run (some v) = pure (parse_bool (some v))

  unfoldable pub checked_deposit : Text → Result (Unit {0})
  checked_deposit deposit =
      if not (is_empty deposit) && not (is_unsigned_integer_text deposit)
      then err (text "--deposit must be an unsigned integer")
      else ok tt

  unfoldable pub collect_trade_config : Dict ArgValue → Dialog (TradeConfig Num)
  unfolding ask_unsigned_integer ask_order_type ask_price parse_maybe_int parse_maybe_float
      checked_deposit ask_dry_run trimmed ◌>>=◌ pure lift
  collect_trade_config args =
      let raw = λ (name : Text). lookup name args in
      let deposit = trimmed (raw (text "deposit")) in
      do
        market_id ← ask_unsigned_integer (raw_text (raw (text "market-id")))
        margin ← ask_unsigned_integer (raw_text (raw (text "margin")))
        order_type ← ask_order_type args
        price ← ask_price order_type (trimmed (raw (text "price")))
        ttl ← lift (parse_maybe_int (raw (text "ttl")) (of_ℕ 300))
        checked ← lift (checked_deposit deposit)
        min_confidence ←
            lift (parse_maybe_float (raw (text "min-confidence")) (number (text "0.75")))
        cooldown_ms ← lift (parse_maybe_int (raw (text "cooldown-ms")) (of_ℕ 15000))
        max_orders ← lift (parse_maybe_int (raw (text "max-orders")) (of_ℕ 0))
        dry_run ← ask_dry_run (raw (text "dry-run"))
        pure (record {
          market_id = market_id;
          margin = margin;
          order_type = order_type;
          price = price;
          ttl = show ttl;
          deposit = deposit;
          reduce_only = parse_bool (raw (text "reduce-only"));
          min_confidence = min_confidence;
          cooldown_ms = cooldown_ms;
          max_orders = max_orders;
          channel =
              nonempty_or (text_option (text "channel") args (text "agent.signals"))
                (text "agent.signals");
          agent_name = trimmed (raw (text "agent-name"));
          dry_run = dry_run;
        })

  -- After the script's path, the first argument of `out`.
  unfoldable pub build_autotrade_args : TradeConfig Num → Text → List Text
  build_autotrade_args config strategy_file_path =
      (text "--market-id"
        ∷ config.market_id
        ∷ text "--margin"
        ∷ config.margin
        ∷ text "--type"
        ∷ config.order_type
        ∷ text "--ttl"
        ∷ config.ttl
        ∷ text "--min-confidence"
        ∷ show config.min_confidence
        ∷ text "--cooldown-ms"
        ∷ show config.cooldown_ms
        ∷ text "--max-orders"
        ∷ show config.max_orders
        ∷ text "--channel"
        ∷ config.channel
        ∷ text "--strategy-file"
        ∷ strategy_file_path
        ∷ [])
      ++ (pushed (text_eq config.order_type (text "limit")) (text "--price" ∷ config.price ∷ [])
          ++ (pushed (not (is_empty config.deposit)) (text "--deposit" ∷ config.deposit ∷ [])
              ++ (pushed config.reduce_only (text "--reduce-only" ∷ [])
                  ++ (pushed (not (is_empty config.agent_name))
                        (text "--agent-name" ∷ config.agent_name ∷ [])
                      ++ pushed config.dry_run (text "--dry-run" ∷ [])))))
