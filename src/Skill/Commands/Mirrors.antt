-- ===== src/Skill/Commands/Mirrors.antt =====
-- About the commands of backend.js that read the market and the portfolios, beside the web client.
use easyclaw.Base.{
  ◌≡◌, refl, ap, ◌∙◌, Bool, true, false, ◌||◌, none, [], ◌++◌, map, Text, text, Dict, lookup,
  Result, ok, err, ◌>>=◌, Holds, held, >>=-Holds,
}
use easyclaw.Numbers.{Numbers}
use easyclaw.Backend.Uri.{encode_uri_component}
use easyclaw.Backend.Session.{Codec}
use easyclaw.Backend.Request.{Options}
use easyclaw.Backend.Endpoints.{Endpoint, Page, with_id, target_of}
use easyclaw.Skill.Words.{ArgValue}
use easyclaw.Skill.Api.{ApiOptions}
use easyclaw.Skill.Commands.{Command}
use easyclaw.Skill.Commands.Readers.{Call, Identity, required_arg, maybe_number, at_id}
use easyclaw.Skill.Commands.Market.{TableCommand, FeedCommand, table_call, feed_call}
use easyclaw.Skill.Commands.Agents.{AgentCommand}

-- The commands that the web client has no call for, and `agent-create`, whose risk profile is an object
-- of any fields.
abbrev pub is_shared : Command → Bool
is_shared Command.doctor = false
is_shared Command.help = false
is_shared (Command.table TableCommand.health) = false
is_shared (Command.feed FeedCommand.orderbook_heatmap) = false
is_shared (Command.feed FeedCommand.orderbook_heatmap_aggregated) = false
is_shared (Command.agent AgentCommand.agent_create) = false
is_shared _ = true

-- The one command that needs no token where the web client's call needs one.
abbrev pub is_laxer : Command → Bool
is_laxer (Command.agent AgentCommand.agent_owner_rebind) = true
is_laxer _ = false

-- The same request, but for the values of the query: its keys are the same.
abbrev pub SameRequest : {N : Type 0} → Bool → Options N → ApiOptions N → Type 0
SameRequest laxer web skill =
    (web.method ≡ skill.method)
    × (web.body ≡ skill.body)
    × (map (λ q. q.0) web.query ≡ map (λ q. q.0) skill.query)
    × (web.auth ≡ (skill.require_auth || laxer))

-- Some call of the web client asks for the same.
abbrev pub Mirrors : {N : Type 0} → Bool → Call N → Type 0
Mirrors {N} laxer (path, skill) =
    (endpoint : Endpoint N) × (web : Options N) × (target_of endpoint ≡ ok (path, web))
    × SameRequest laxer web skill

abbrev Shared : {N : Type 0} → Command → Call N → Type 0
Shared c call = is_shared c ≡ true → Mirrors (is_laxer c) call

-- A command with an id in its path.
abbrev no_page : {N : Type 0} → Page N
no_page = record {
  user_margin = none;
  user_pubkey = none;
  market_id = none;
  status = none;
  limit = none;
  offset = none;
}

module _ (n : Numbers) (codec : Codec n) where
  open n use {Num, of_ℕ}

  pub at_id-Mirrors :
      (laxer : Bool) (e : Endpoint Num) (prefix id suffix : Text) (web : Options Num)
      (skill : ApiOptions Num)
      → target_of e ≡ with_id prefix id suffix web
      → SameRequest laxer web skill
      → Holds (Mirrors laxer) (at_id n prefix id suffix skill)
  unfolding at_id with_id
  at_id-Mirrors laxer e prefix id suffix web skill target same = go (encode_uri_component id) refl
    where
      go :
          (r : Result Text)
          → encode_uri_component id ≡ r
          → Holds (Mirrors laxer) (r >>= λ s. ok (prefix ++ s ++ suffix, skill))
      go (ok s) made =
          held (e, web, target ∙ ap (λ r. r >>= λ s. ok (prefix ++ s ++ suffix, web)) made, same)
      go (err m) made = record { at_value = tt }

  pub table_call-Mirrors :
      (who : Result Identity) (c : TableCommand) (args : Dict ArgValue)
      → is_shared (Command.table c) ≡ true
      → Holds (Mirrors false) (table_call n who c args)
  unfolding table_call target_of
  table_call-Mirrors who TableCommand.health args h = cc
  table_call-Mirrors who TableCommand.system_status args h =
      held (Endpoint.get_system_status, _, refl, (refl, refl, refl, refl))
  table_call-Mirrors who TableCommand.chart_candles args h =
      held (Endpoint.get_chart_candles [] [] none, _, refl, (refl, refl, refl, refl))
  table_call-Mirrors who TableCommand.positions args h =
      >>=-Holds _ _ (λ i. held (Endpoint.get_positions no_page, _, refl, (refl, refl, refl, refl)))
  table_call-Mirrors who TableCommand.orders args h =
      >>=-Holds _ _ (λ i. held (Endpoint.get_orders no_page, _, refl, (refl, refl, refl, refl)))
  table_call-Mirrors who TableCommand.fills args h =
      >>=-Holds _ _ (λ i. held (Endpoint.get_fills no_page, _, refl, (refl, refl, refl, refl)))
  table_call-Mirrors who TableCommand.position_history args h =
      >>=-Holds _ _
        (λ i. held (Endpoint.get_position_history no_page, _, refl, (refl, refl, refl, refl)))

  pub feed_call-Mirrors :
      (c : FeedCommand) (args : Dict ArgValue)
      → is_shared (Command.feed c) ≡ true
      → Holds (Mirrors false) (feed_call n c args)
  unfolding feed_call target_of
  feed_call-Mirrors FeedCommand.orderbook_heatmap args h = cc
  feed_call-Mirrors FeedCommand.orderbook_heatmap_aggregated args h = cc
  feed_call-Mirrors FeedCommand.trades args h =
      >>=-Holds (maybe_number n (lookup (text "from") args)) _ (λ f.
        >>=-Holds (maybe_number n (lookup (text "to") args)) _ (λ t.
          held (Endpoint.get_trades none none none none none, _, refl, (refl, refl, refl, refl))))
  feed_call-Mirrors FeedCommand.portfolio args h =
      held (Endpoint.get_portfolio [], _, refl, (refl, refl, refl, refl))
  feed_call-Mirrors FeedCommand.agent_portfolio args h =
      >>=-Holds (required_arg (text "agent-id") args) _ (λ id.
        at_id-Mirrors false (Endpoint.get_agent_portfolio id []) (text "/v1/portfolio/agents/") id
          ([]) _ _ refl (refl, refl, refl, refl))
  feed_call-Mirrors FeedCommand.leaderboard args h =
      held (Endpoint.get_leaderboard [] [] (of_ℕ 20), _, refl, (refl, refl, refl, refl))
