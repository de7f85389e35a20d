-- ===== src/Skill/Commands/Guarded.antt =====
-- Which commands need a token.
use easyclaw.Base.{
  ℕ, ◌≡◌, ◌≢◌, refl, ◌∙◌, ◌⊎◌, inl, inr, Bool, true, false, Option, none, some, [], ◌∷◌, ◌++◌,
  arith, is_empty, Text, text, Dict, lookup, Result, ok, err, ◌>>=◌, List, Holds, held, Holds-ok,
  >>=-Holds,
}
use easyclaw.Numbers.{Numbers}
use easyclaw.Backend.Json.{Json}
use easyclaw.Backend.Uri.{Env, encode_uri_component}
use easyclaw.Backend.Session.{Codec}
use easyclaw.Backend.Request.{HttpMethod, get, HttpRequest, QueryValue}
use easyclaw.Skill.Words.{ArgValue}
use easyclaw.Skill.Platform.{Solana}
use easyclaw.Skill.Setup.{Host}
use easyclaw.Skill.Api.{ApiOptions, auth_token, build_api_request}
use easyclaw.Skill.Api.Laws.{authorization, build_api_request-authorized}
use easyclaw.Skill.Commands.{Command, call_of}
use easyclaw.Skill.Commands.Readers.{Call, Identity, getting, authorized, at_id}
use easyclaw.Skill.Commands.Market.{TableCommand, FeedCommand, table_call, feed_call}
use easyclaw.Skill.Commands.Agents.{AgentCommand, agent_call}
use easyclaw.Skill.Commands.Strategies.{StrategyCommand, AuthCommand, strategy_call, auth_call}

-- The commands that change something and ask for no token.
abbrev pub asks_no_token : Command → Bool
asks_no_token (Command.auth AuthCommand.auth_challenge) = true
asks_no_token (Command.auth AuthCommand.auth_verify) = true
asks_no_token (Command.agent AgentCommand.agent_owner_rebind) = true
asks_no_token _ = false

-- A call that held (inl refl) a token, or a GET without a body, or one of a command that asks for none.
abbrev pub IsGuarded : {N : Type 0} → Bool → Call N → Type 0
IsGuarded lax (path, options) =
    (options.require_auth ≡ true)
    ⊎ (((options.method ≡ get) × (options.body ≡ none)) ⊎ (lax ≡ true))

pub at_id-Holds :
    (n : Numbers) (P : Call n.Num → Type 0) (prefix id suffix : Text) (options : ApiOptions n.Num)
    → ((e : Text) → P (prefix ++ e ++ suffix, options))
    → Holds P (at_id n prefix id suffix options)
unfolding at_id
at_id-Holds n P prefix id suffix options h = >>=-Holds (encode_uri_component id) _ (λ e. held (h e))

module _ (n : Numbers) (codec : Codec n) where
  open n use {Num}

  reads :
      (lax : Bool) (path : Text) (query : List (Text × QueryValue Num))
      → IsGuarded lax (path, getting n query)
  reads lax path query = inr (inl (refl, refl))

  needs :
      (lax : Bool) (path : Text) (method : HttpMethod) (body : Option (Json Num))
      (args : Dict ArgValue)
      → IsGuarded lax (path, authorized n method body args)
  needs lax path method body args = inl refl

  laxly : (call : Call Num) → IsGuarded true call
  laxly call = inr (inr refl)

  ruleset guards = (>>=-Holds, held, at_id-Holds, reads, needs, laxly)

  table_call-IsGuarded :
      (who : Result Identity) (c : TableCommand) (args : Dict ArgValue)
      → Holds (IsGuarded false) (table_call n who c args)
  unfolding table_call
  table_call-IsGuarded who TableCommand.health args = search guards depth 12
  table_call-IsGuarded who TableCommand.system_status args = search guards depth 12
  table_call-IsGuarded who TableCommand.chart_candles args = search guards depth 12
  table_call-IsGuarded who TableCommand.positions args = search guards depth 12
  table_call-IsGuarded who TableCommand.orders args = search guards depth 12
  table_call-IsGuarded who TableCommand.fills args = search guards depth 12
  table_call-IsGuarded who TableCommand.position_history args = search guards depth 12

  feed_call-IsGuarded :
      (c : FeedCommand) (args : Dict ArgValue) → Holds (IsGuarded false) (feed_call n c args)
  unfolding feed_call
  feed_call-IsGuarded FeedCommand.orderbook_heatmap args = search guards depth 12
  feed_call-IsGuarded FeedCommand.orderbook_heatmap_aggregated args = search guards depth 12
  feed_call-IsGuarded FeedCommand.trades args = search guards depth 12
  feed_call-IsGuarded FeedCommand.portfolio args = search guards depth 12
  feed_call-IsGuarded FeedCommand.agent_portfolio args = search guards depth 12
  feed_call-IsGuarded FeedCommand.leaderboard args = search guards depth 12

  agent_call-IsGuarded :
      (c : AgentCommand) (args : Dict ArgValue)
      → Holds (IsGuarded (asks_no_token (Command.agent c))) (agent_call n codec c args)
  unfolding agent_call
  agent_call-IsGuarded AgentCommand.agents args = search guards depth 12
  agent_call-IsGuarded AgentCommand.agent args = search guards depth 12
  agent_call-IsGuarded AgentCommand.agent_owner_binding args = search guards depth 12
  agent_call-IsGuarded AgentCommand.agent_owner_rebind args = search guards depth 12
  agent_call-IsGuarded AgentCommand.agent_session_start args = search guards depth 12
  agent_call-IsGuarded AgentCommand.agent_session_stop args = search guards depth 12
  agent_call-IsGuarded AgentCommand.agent_risk args = search guards depth 12
  agent_call-IsGuarded AgentCommand.agent_risk_patch args = search guards depth 12
  agent_call-IsGuarded AgentCommand.kill_switch args = search guards depth 12
  agent_call-IsGuarded AgentCommand.agent_create args = search guards depth 12

  strategy_call-IsGuarded :
      (c : StrategyCommand) (args : Dict ArgValue)
      → Holds (IsGuarded false) (strategy_call n codec c args)
  unfolding strategy_call
  strategy_call-IsGuarded StrategyCommand.strategy_templates args = search guards depth 12
  strategy_call-IsGuarded StrategyCommand.strategy_create args = search guards depth 12
  strategy_call-IsGuarded StrategyCommand.strategy args = search guards depth 12
  strategy_call-IsGuarded StrategyCommand.strategy_patch args = search guards depth 12
  strategy_call-IsGuarded StrategyCommand.strategy_publish args = search guards depth 12

  auth_call-IsGuarded :
      (c : AuthCommand) (args : Dict ArgValue)
      → Holds (IsGuarded (asks_no_token (Command.auth c))) (auth_call n codec c args)
  unfolding auth_call
  auth_call-IsGuarded AuthCommand.auth_challenge args = search guards depth 12
  auth_call-IsGuarded AuthCommand.auth_verify args = search guards depth 12
  auth_call-IsGuarded AuthCommand.auth_refresh args = search guards depth 12

  -- The call, if there is one.
  abbrev pub Sends : (Call Num → Type 0) → Option (Call Num) → Type 0
  Sends P none = Unit
  Sends P (some call) = P call

  pub sends_lem :
      (P : Call Num → Type 0) (r : Result (Call Num))
      → Holds P r
      → Holds (Sends P) (r >>= λ call. ok (some call))
  sends_lem P (ok call) h = held (Holds-ok h refl)
  sends_lem P (err m) h = record { at_value = tt }

  module _ (w : Solana) (host : Host w.Key) (now : ℕ) where
    call_of-IsGuarded :
        (c : Command) (args : Dict ArgValue)
        → Holds (Sends (IsGuarded (asks_no_token c))) (call_of n codec w host now c args)
    unfolding call_of
    call_of-IsGuarded Command.doctor args = held tt
    call_of-IsGuarded Command.help args = held tt
    call_of-IsGuarded (Command.table c) args = sends_lem _ _ (table_call-IsGuarded _ c args)
    call_of-IsGuarded (Command.feed c) args = sends_lem _ _ (feed_call-IsGuarded c args)
    call_of-IsGuarded (Command.agent c) args = sends_lem _ _ (agent_call-IsGuarded c args)
    call_of-IsGuarded (Command.strategy c) args = sends_lem _ _ (strategy_call-IsGuarded c args)
    call_of-IsGuarded (Command.auth c) args = sends_lem _ _ (auth_call-IsGuarded c args)

    bearing :
        (token : Text)
        → is_empty token ≡ false
        → (token ≢ []) × (authorization token ≡ some (text "Bearer " ++ token))
    bearing [] h = cc
    bearing (t ∷ ts) h = (λ e. cc, refl)

    -- Every request of a command that is no GET and that is built bears a token that is not empty, but
    -- for those of `auth-challenge`, `auth-verify` and `agent-owner-rebind`: whatever the options, the
    -- environment and the signer.
    pub call_of-authorized :
        (env : Env) (c : Command) (args : Dict ArgValue) {path : Text} {options : ApiOptions Num}
        {r : HttpRequest Num}
        → asks_no_token c ≡ false
        → call_of n codec w host now c args ≡ ok (some (path, options))
        → options.method ≢ get
        → build_api_request n codec env path options ≡ ok r
        → (token : Text) × (token ≢ [])
          × (lookup (text "Authorization") r.headers ≡ some (text "Bearer " ++ token))
    call_of-authorized env c args {path} {options} {r} asks call changes built =
        let (header, needed) =
          build_api_request-authorized n codec env path options {r = r} built in
        elim (Holds-ok (call_of-IsGuarded c args) call) [
          | inl auth ↦
              let (there, bears) = bearing (auth_token env options.token) (ground arith) in
              (auth_token env options.token, there, header ∙ bears)
          | inr (inl reads) ↦ absurd (changes reads.0)
          | inr (inr lax) ↦ cc
        ]
