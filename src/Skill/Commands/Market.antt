-- ===== src/Skill/Commands/Market.antt =====
-- The commands of backend.js that read the market, the user's tables, the feeds and the portfolios.
use easyclaw.Base.{
  Bool, Option, none, some, List, [], ◌∷◌, if◌then◌else◌, Text, text, Dict, lookup, Result, ok,
  ◌>>=◌,
}
use easyclaw.Numbers.{Numbers}
use easyclaw.Backend.Request.{QueryValue, absent, txt, number}
use easyclaw.Skill.Words.{ArgValue}
use easyclaw.Skill.Plan.{option}
use easyclaw.Skill.Agent.Values.{to_bool}
use easyclaw.Skill.Commands.Readers.{
  Call, Identity, required_arg, arg_query, query_or, getting, at_id, maybe_number,
}

pub data TableCommand : Type 0 where
  health system_status chart_candles positions orders fills position_history : TableCommand

pub data FeedCommand : Type 0 where
  orderbook_heatmap orderbook_heatmap_aggregated trades portfolio agent_portfolio leaderboard :
      FeedCommand

module _ (n : Numbers) where
  open n use {Num, of_ℕ}

  -- `value ?? undefined` of a number that is read
  abbrev opt_number : Option Num → QueryValue Num
  opt_number none = absent
  opt_number (some v) = number v

  -- `identity ? identity.field : undefined`
  abbrev identity_query : (Identity → Text) → Option Identity → QueryValue Num
  identity_query f none = absent
  identity_query f (some identity) = txt (f identity)

  abbrev page_query : Dict ArgValue → List (Text × QueryValue Num)
  page_query args =
      (text "limit", arg_query n (lookup (text "limit") args))
      ∷ (text "offset", arg_query n (lookup (text "offset") args))
      ∷ []

  abbrev margin_query : Dict ArgValue → Option Identity → Text × QueryValue Num
  margin_query args identity = (
    text "user_margin",
    query_or n (option (text "user-margin") args) (identity_query (λ i. i.user_margin) identity),
  )

  abbrev pubkey_query : Dict ArgValue → Option Identity → Text × QueryValue Num
  pubkey_query args identity = (
    text "user_pubkey",
    query_or n (option (text "user-pubkey") args) (identity_query (λ i. i.user_pubkey) identity),
  )

  abbrev market_query : Dict ArgValue → Text × QueryValue Num
  market_query args = (text "market_id", arg_query n (lookup (text "market-id") args))

  -- `mine ? mineIdentity() : null`, where the first argument is what `mineIdentity` gives or throws.
  abbrev identity_if : Result Identity → Bool → Result (Option Identity)
  identity_if who mine = if mine then (who >>= λ i. ok (some i)) else ok none

  abbrev identity_of : Result Identity → Dict ArgValue → Result (Option Identity)
  identity_of who args = identity_if who (to_bool (lookup (text "mine") args))

  unfoldable pub table_call : Result Identity → TableCommand → Dict ArgValue → Result (Call Num)
  unfolding option
  table_call who health args = ok (text "/healthz", getting n [])
  table_call who system_status args = ok (text "/v1/system/status", getting n [])
  table_call who chart_candles args = ok (
    text "/v1/chart/candles",
    getting n (
        (text "market", arg_query n (lookup (text "market") args))
        ∷ (text "timeframe", arg_query n (lookup (text "timeframe") args))
        ∷ (text "limit", arg_query n (lookup (text "limit") args))
        ∷ []),
  )
  table_call who positions args = identity_of who args >>= λ identity. ok (
    text "/api/v1/positions",
    getting n (margin_query args identity ∷ market_query args ∷ page_query args),
  )
  table_call who orders args = identity_of who args >>= λ identity. ok (
    text "/api/v1/orders",
    getting n (
        margin_query args identity
        ∷ pubkey_query args identity
        ∷ market_query args
        ∷ (text "status", arg_query n (lookup (text "status") args))
        ∷ page_query args),
  )
  table_call who fills args = identity_of who args >>= λ identity. ok (
    text "/api/v1/fills",
    getting n (
        margin_query args identity
        ∷ pubkey_query args identity
        ∷ market_query args
        ∷ page_query args),
  )
  table_call who position_history args = identity_of who args >>= λ identity. ok (
    text "/api/v1/position-history",
    getting n (margin_query args identity ∷ market_query args ∷ page_query args),
  )

  abbrev period_query : Dict ArgValue → Text × QueryValue Num
  period_query args = (text "period", query_or n (option (text "period") args) (txt (text "7d")))

  -- What comes after the key of a feed.
  abbrev range_query : Dict ArgValue → Option Num → Option Num → List (Text × QueryValue Num)
  range_query args from to =
      (text "from", opt_number from) ∷ (text "to", opt_number to) ∷ page_query args

  unfoldable pub feed_call : FeedCommand → Dict ArgValue → Result (Call Num)
  unfolding option
  feed_call orderbook_heatmap args = do
    exchange ← required_arg (text "exchange") args
    symbol ← required_arg (text "symbol") args
    from ← maybe_number n (lookup (text "from") args)
    to ← maybe_number n (lookup (text "to") args)
    ok (
      text "/api/v1/orderbook-heatmap",
      getting n (
          (text "exchange", txt exchange) ∷ (text "symbol", txt symbol) ∷ range_query args from to),
    )
  feed_call orderbook_heatmap_aggregated args = do
    symbol_key ← required_arg (text "symbol-key") args
    from ← maybe_number n (lookup (text "from") args)
    to ← maybe_number n (lookup (text "to") args)
    ok (
      text "/api/v1/orderbook-heatmap-aggregated",
      getting n ((text "symbol_key", txt symbol_key) ∷ range_query args from to),
    )
  feed_call trades args = do
    from ← maybe_number n (lookup (text "from") args)
    to ← maybe_number n (lookup (text "to") args)
    ok (
      text "/v1/trades",
      getting n (
          (text "agent_id", arg_query n (lookup (text "agent-id") args))
          ∷ range_query args from to),
    )
  feed_call portfolio args = ok (text "/v1/portfolio", getting n (period_query args ∷ []))
  feed_call agent_portfolio args = do
    id ← required_arg (text "agent-id") args
    at_id n (text "/v1/portfolio/agents/") id [] (getting n (period_query args ∷ []))
  feed_call leaderboard args = ok (
    text "/v1/leaderboard",
    getting n (
        (text "metric", query_or n (option (text "metric") args) (txt (text "pnl_pct")))
        ∷ period_query args
        ∷ (text "min_trades", query_or n (option (text "min-trades") args) (number (of_ℕ 20)))
        ∷ []),
  )
