-- ===== src/Backend/Endpoints.antt =====
-- The calls that backend.ts offers to the pages, each as the path and the options that it hands to
-- `request`. What a call does with the payload is a cast, but for `getLeaderboard`, which takes its
-- `items`.
pub mod Laws
pub mod Paths
use easyclaw.Base.{
  ℕ, Bool, true, false, not, Option, none, some, List, [], ◌∷◌, ◌++◌, if◌then◌else◌, filter, Text,
  text, text_eq, is_blank, Result, ok, err, ◌>>=◌,
}
use easyclaw.Numbers.{Numbers}
use easyclaw.Backend.Json.{
  Json, null, bool, num, str, arr, obj, Items, nil, cons, Fields, end, field,
}
use easyclaw.Backend.Uri.{encode_uri_component}
use easyclaw.Backend.Request.{
  HttpMethod, get, post, patch, delete, QueryValue, absent, txt, number, Options,
}

-- `AgentRiskProfile`, and its `Partial`.
pub record AgentRiskProfile (N : Type 0) : Type 0 where
  pub max_position_usdc : N
  pub daily_loss_limit_usdc : N
  pub kill_switch_enabled : Bool

pub record RiskPatch (N : Type 0) : Type 0 where
  pub max_position_usdc : Option N
  pub daily_loss_limit_usdc : Option N
  pub kill_switch_enabled : Option Bool

-- The filters of the list calls; each call uses some of them.
pub record Page (N : Type 0) : Type 0 where
  pub user_margin : Option Text
  pub user_pubkey : Option Text
  pub market_id : Option N
  pub status : Option Text
  pub limit : Option N
  pub offset : Option N

pub data Endpoint (N : Type 0) : Type 0 where
  get_system_status : Endpoint N
  get_chart_candles : Text → Text → Option N → Endpoint N
  get_agents : Endpoint N
  get_agent : Text → Endpoint N
  create_agent : Text → Text → AgentRiskProfile N → Endpoint N
  get_agent_binding : Text → Endpoint N
  rebind_agent_owner : Text → Text → Text → Endpoint N
  start_agent_session : Text → Text → Endpoint N
  stop_agent_session : Text → Text → Endpoint N
  kill_switch : List Text → Endpoint N
  get_agent_risk : Text → Endpoint N
  patch_agent_risk : Text → RiskPatch N → Endpoint N
  get_strategy_templates : Endpoint N
  create_strategy : Text → Fields N → Fields N → Fields N → Endpoint N
  get_strategy : Text → Endpoint N
  patch_strategy : Text → Option Text → Option (Fields N) → Option (Fields N) → Endpoint N
  publish_strategy : Text → Endpoint N
  get_portfolio : Text → Endpoint N
  get_agent_portfolio : Text → Text → Endpoint N
  get_trades : Option Text → Option N → Option N → Option N → Option N → Endpoint N
  get_leaderboard : Text → Text → N → Endpoint N
  get_positions : Page N → Endpoint N
  get_orders : Page N → Endpoint N
  get_fills : Page N → Endpoint N
  get_position_history : Page N → Endpoint N
  create_auth_challenge : Text → Text → Endpoint N
  verify_auth_signature : Text → Text → Text → Endpoint N
  refresh_auth_session : Option Text → Endpoint N

-- A path, and the options.
abbrev pub Target : Type 0 → Type 0
Target N = Result (Text × Options N)

module _ {N : Type 0} where
  abbrev pub opt_num : Option N → QueryValue N
  opt_num none = absent
  opt_num (some v) = number v

  abbrev pub opt_txt : Option Text → QueryValue N
  opt_txt none = absent
  opt_txt (some s) = txt s

  -- A GET with a query and no `auth`.
  abbrev pub reading : List (Text × QueryValue N) → Options N
  reading query = record { method = get; body = none; query = query; auth = false; token = none }

  -- A call with `auth: true`.
  abbrev pub changing : HttpMethod → Option (Json N) → Options N
  changing method body = record {
    method = method;
    body = body;
    query = [];
    auth = true;
    token = none;
  }

  -- `${prefix}${encodeURIComponent(id)}${suffix}`
  unfoldable pub with_id : Text → Text → Text → Options N → Target N
  with_id prefix id suffix options = do
    encoded ← encode_uri_component id
    ok (prefix ++ encoded ++ suffix, options)

  unfoldable pub risk_json : AgentRiskProfile N → Json N
  risk_json p = obj (
      field (text "max_position_usdc") (num p.max_position_usdc) (
        field (text "daily_loss_limit_usdc") (num p.daily_loss_limit_usdc)
          (field (text "kill_switch_enabled") (bool p.kill_switch_enabled) end)))

  -- A property that is `undefined` is left out of the JSON text.
  abbrev pub opt_field : Text → Option (Json N) → Fields N → Fields N
  opt_field key none rest = rest
  opt_field key (some v) rest = field key v rest

  abbrev pub as_json : {A : Type 0} → (A → Json N) → Option A → Option (Json N)
  as_json f none = none
  as_json f (some a) = some (f a)

  unfoldable pub risk_patch_json : RiskPatch N → Json N
  risk_patch_json p = obj (
      opt_field (text "max_position_usdc") (as_json num p.max_position_usdc) (
        opt_field (text "daily_loss_limit_usdc") (as_json num p.daily_loss_limit_usdc)
          (opt_field (text "kill_switch_enabled") (as_json bool p.kill_switch_enabled) end)))

  unfoldable pub texts_json : List Text → Items N
  texts_json [] = nil
  texts_json (s ∷ ss) = cons (str s) (texts_json ss)

  abbrev pub page_query : Page N → List (Text × QueryValue N)
  page_query p = (text "limit", opt_num p.limit) ∷ (text "offset", opt_num p.offset) ∷ []

  unfoldable pub target_of : Endpoint N → Target N
  unfolding with_id risk_json risk_patch_json texts_json
  target_of get_system_status = ok (text "/v1/system/status", reading [])
  target_of (get_chart_candles market timeframe limit) = ok (
    text "/v1/chart/candles",
    reading (
        (text "market", txt market)
        ∷ (text "timeframe", txt timeframe)
        ∷ (text "limit", opt_num limit)
        ∷ []),
  )
  target_of get_agents = ok (text "/v1/agents", reading [])
  target_of (get_agent id) = with_id (text "/v1/agents/") id [] (reading [])
  target_of (create_agent name strategy profile) = ok (
    text "/v1/agents",
    changing post (
        some (
          obj (
            field (text "name") (str name) (
              field (text "strategy_id") (str strategy)
                (field (text "risk_profile") (risk_json profile) end))))),
  )
  target_of (get_agent_binding id) =
      with_id (text "/v1/agents/") id (text "/owner-binding") (reading [])
  target_of (rebind_agent_owner id challenge signature) =
      with_id (text "/v1/agents/") id (text "/owner-binding/rebind") (
        changing post (
          some (
            obj (
              field (text "challenge_id") (str challenge)
                (field (text "signature") (str signature) end)))))
  target_of (start_agent_session id mode) =
      with_id (text "/v1/agents/") id (text "/sessions")
        (changing post (some (obj (field (text "mode") (str mode) end))))
  target_of (stop_agent_session id session) = do
    encoded ← encode_uri_component id
    with_id (text "/v1/agents/" ++ encoded ++ text "/sessions/") session [] (changing delete none)
  target_of (kill_switch ids) = ok (
    text "/v1/safety/kill-switch",
    changing post (some (obj (field (text "agent_ids") (arr (texts_json ids)) end))),
  )
  target_of (get_agent_risk id) = with_id (text "/v1/agents/") id (text "/risk") (reading [])
  target_of (patch_agent_risk id p) =
      with_id (text "/v1/agents/") id (text "/risk") (changing patch (some (risk_patch_json p)))
  target_of get_strategy_templates = ok (text "/v1/strategy/templates", reading [])
  target_of (create_strategy name entry exit risk) = ok (
    text "/v1/strategies",
    changing post (
        some (
          obj (
            field (text "name") (str name) (
              field (text "entry_rules") (obj entry) (
                field (text "exit_rules") (obj exit)
                  (field (text "risk_defaults") (obj risk) end)))))),
  )
  target_of (get_strategy id) = with_id (text "/v1/strategies/") id [] (reading [])
  target_of (patch_strategy id name entry exit) = with_id (text "/v1/strategies/") id [] (
      changing patch (
        some (
          obj (
            opt_field (text "name") (as_json str name) (
              opt_field (text "entry_rules") (as_json obj entry)
                (opt_field (text "exit_rules") (as_json obj exit) end))))))
  target_of (publish_strategy id) =
      with_id (text "/v1/strategies/") id (text "/publish") (changing post none)
  target_of (get_portfolio period) =
      ok (text "/v1/portfolio", reading ((text "period", txt period) ∷ []))
  target_of (get_agent_portfolio id period) =
      with_id (text "/v1/portfolio/agents/") id [] (reading ((text "period", txt period) ∷ []))
  target_of (get_trades agent from to limit offset) = ok (
    text "/v1/trades",
    reading (
        (text "agent_id", opt_txt agent)
        ∷ (text "from", opt_num from)
        ∷ (text "to", opt_num to)
        ∷ (text "limit", opt_num limit)
        ∷ (text "offset", opt_num offset)
        ∷ []),
  )
  target_of (get_leaderboard metric period min_trades) = ok (
    text "/v1/leaderboard",
    reading (
        (text "metric", txt metric)
        ∷ (text "period", txt period)
        ∷ (text "min_trades", number min_trades)
        ∷ []),
  )
  target_of (get_positions p) = ok (
    text "/api/v1/positions",
    reading (
        (text "user_margin", opt_txt p.user_margin)
        ∷ (text "market_id", opt_num p.market_id)
        ∷ page_query p),
  )
  target_of (get_orders p) = ok (
    text "/api/v1/orders",
    reading (
        (text "user_margin", opt_txt p.user_margin)
        ∷ (text "user_pubkey", opt_txt p.user_pubkey)
        ∷ (text "market_id", opt_num p.market_id)
        ∷ (text "status", opt_txt p.status)
        ∷ page_query p),
  )
  target_of (get_fills p) = ok (
    text "/api/v1/fills",
    reading (
        (text "user_margin", opt_txt p.user_margin)
        ∷ (text "user_pubkey", opt_txt p.user_pubkey)
        ∷ (text "market_id", opt_num p.market_id)
        ∷ page_query p),
  )
  target_of (get_position_history p) = ok (
    text "/api/v1/position-history",
    reading (
        (text "user_margin", opt_txt p.user_margin)
        ∷ (text "market_id", opt_num p.market_id)
        ∷ page_query p),
  )
  target_of (create_auth_challenge wallet intent) = ok (
    text "/v1/auth/challenge",
    record (changing post (
        some (
          obj (
            field (text "wallet_pubkey") (str wallet) (field (text "intent") (str intent) end))))) {
              auth = false;
            },
  )
  target_of (verify_auth_signature challenge signature wallet) = ok (
    text "/v1/auth/verify-signature",
    record (changing post (
        some (
          obj (
            field (text "challenge_id") (str challenge) (
              field (text "signature") (str signature)
                (field (text "wallet_pubkey") (str wallet) end)))))) { auth = false },
  )
  target_of (refresh_auth_session token) =
      ok (text "/v1/auth/session/refresh", record (changing post none) { token = token })

-- The fields of `AgentRecord` that the client reads itself.
pub record AgentRecord : Type 0 where
  pub id : Text
  pub name : Text
  pub owner_pubkey : Text

-- `filterAgentsByOwner`
unfoldable pub filter_agents_by_owner : List AgentRecord → Option Text → List AgentRecord
filter_agents_by_owner agents none = []
filter_agents_by_owner agents (some owner) =
    if is_blank owner then [] else filter (λ a. text_eq a.owner_pubkey owner) agents
