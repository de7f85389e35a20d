-- ===== src/Skill/Commands.antt =====
-- backend.js: the commands of the skill's API client. The text of `usage` is not repeated; a response's
-- indented JSON text is a parameter.
pub mod Readers
pub mod Market
pub mod Agents
pub mod Strategies
pub mod Guarded
pub mod Mirrors
pub mod Shared
mod Tests
use easyclaw.Base.{
  ℕ, ◌/◌, Bool, true, false, not, ◌||◌, Option, none, some, List, [], ◌∷◌, ◌++◌, if◌then◌else◌,
  is_empty, is_some, or_else, or_nonempty, drop, Text, text, text_eq, Dict, lookup, Result, ok, err,
  ◌>>=◌,
}
use easyclaw.Numbers.{Numbers}
use easyclaw.Backend.Json.{Json, Fields, null, bool, num, str, obj, end, field}
use easyclaw.Backend.Uri.{Env}
use easyclaw.Backend.Session.{Codec}
use easyclaw.Backend.Request.{HttpRequest, HttpResponse}
use easyclaw.Skill.Words.{ArgValue}
use easyclaw.Skill.Args.{parse_args}
use easyclaw.Skill.Plan.{option}
use easyclaw.Skill.Platform.{Solana}
use easyclaw.Skill.Setup.{Host}
use easyclaw.Skill.Agent.Values.{to_bool}
use easyclaw.Skill.Api.{api_base_url, ws_url, ApiOptions, api_request}
use easyclaw.Skill.Commands.Readers.{Identity, Call, mine_identity}
use easyclaw.Skill.Commands.Market.{TableCommand, FeedCommand, table_call, feed_call}
use easyclaw.Skill.Commands.Agents.{AgentCommand, agent_call}
use easyclaw.Skill.Commands.Strategies.{StrategyCommand, AuthCommand, strategy_call, auth_call}

-- The labels of the switch.
pub data Command : Type 0 where
  doctor help : Command
  table : TableCommand → Command
  feed : FeedCommand → Command
  agent : AgentCommand → Command
  strategy : StrategyCommand → Command
  auth : AuthCommand → Command

abbrev pub commands : Dict Command
commands =
    (text "doctor", doctor)
    ∷ (text "health", table TableCommand.health)
    ∷ (text "system-status", table TableCommand.system_status)
    ∷ (text "chart-candles", table TableCommand.chart_candles)
    ∷ (text "positions", table TableCommand.positions)
    ∷ (text "orders", table TableCommand.orders)
    ∷ (text "fills", table TableCommand.fills)
    ∷ (text "position-history", table TableCommand.position_history)
    ∷ (text "orderbook-heatmap", feed FeedCommand.orderbook_heatmap)
    ∷ (text "orderbook-heatmap-aggregated", feed FeedCommand.orderbook_heatmap_aggregated)
    ∷ (text "trades", feed FeedCommand.trades)
    ∷ (text "portfolio", feed FeedCommand.portfolio)
    ∷ (text "agent-portfolio", feed FeedCommand.agent_portfolio)
    ∷ (text "leaderboard", feed FeedCommand.leaderboard)
    ∷ (text "agents", agent AgentCommand.agents)
    ∷ (text "agent", agent AgentCommand.agent)
    ∷ (text "agent-owner-binding", agent AgentCommand.agent_owner_binding)
    ∷ (text "agent-owner-rebind", agent AgentCommand.agent_owner_rebind)
    ∷ (text "agent-session-start", agent AgentCommand.agent_session_start)
    ∷ (text "agent-session-stop", agent AgentCommand.agent_session_stop)
    ∷ (text "agent-risk", agent AgentCommand.agent_risk)
    ∷ (text "agent-risk-patch", agent AgentCommand.agent_risk_patch)
    ∷ (text "kill-switch", agent AgentCommand.kill_switch)
    ∷ (text "strategy-templates", strategy StrategyCommand.strategy_templates)
    ∷ (text "strategy-create", strategy StrategyCommand.strategy_create)
    ∷ (text "strategy", strategy StrategyCommand.strategy)
    ∷ (text "strategy-patch", strategy StrategyCommand.strategy_patch)
    ∷ (text "strategy-publish", strategy StrategyCommand.strategy_publish)
    ∷ (text "agent-create", agent AgentCommand.agent_create)
    ∷ (text "auth-challenge", auth AuthCommand.auth_challenge)
    ∷ (text "auth-verify", auth AuthCommand.auth_verify)
    ∷ (text "auth-refresh", auth AuthCommand.auth_refresh)
    ∷ (text "help", help)
    ∷ (text "-h", help)
    ∷ (text "--help", help)
    ∷ []

unfoldable pub command_of : Text → Option Command
unfolding lookup
command_of name = lookup name commands

-- What is printed.
pub data Output : Type 0 where
  usage : Output
  line : Text → Output

-- `argv[0] || "help"`, and the options after it
unfoldable pub parse_main_args : List Text → Text × Dict ArgValue
parse_main_args [] = (text "help", parse_args [])
parse_main_args (name ∷ argv) = (if is_empty name then text "help" else name, parse_args argv)

-- `Boolean(process.env[name])`
abbrev is_set : Env → Text → Bool
is_set env name = is_some (or_nonempty (env name) none)

module _ (n : Numbers) (codec : Codec n) where
  open n use {Num, of_ℕ}

  unfoldable pub json_or_print : (Json Num → Text) → Option (Json Num) → Bool → Text
  json_or_print pretty none true = text "undefined"
  json_or_print pretty (some v) true = pretty v
  json_or_print pretty none false = text "(empty)"
  json_or_print pretty (some null) false = text "(empty)"
  json_or_print pretty (some (str s)) false = s
  json_or_print pretty (some v) false = pretty v

  -- The report of `doctor`, at a time in milliseconds.
  unfoldable pub doctor_report : Env → ℕ → Dict ArgValue → Fields Num
  unfolding api_base_url ws_url option
  doctor_report env now args = field (text "apiBaseUrl") (str (api_base_url env)) (
      field (text "wsUrl") (str (ws_url env)) (
        field (text "hasAuthToken")
          (bool (
            is_set env (text "EASYCLAW_API_TOKEN")
            || is_set env (text "API_AUTH_TOKEN")
            || is_some (option (text "token") args)))
          (field (text "timestamp") (num (of_ℕ (now / 1000))) end)))

  module _ (w : Solana) (host : Host w.Key) (now : ℕ) where
    -- The path and the options that a command hands to `apiRequest`; none for those that send nothing.
    unfoldable pub call_of : Command → Dict ArgValue → Result (Option (Call Num))
    unfolding mine_identity
    call_of doctor args = ok none
    call_of help args = ok none
    call_of (table c) args = table_call n (mine_identity w host) c args >>= λ call. ok (some call)
    call_of (feed c) args = feed_call n c args >>= λ call. ok (some call)
    call_of (agent c) args = agent_call n codec c args >>= λ call. ok (some call)
    call_of (strategy c) args = strategy_call n codec c args >>= λ call. ok (some call)
    call_of (auth c) args = auth_call n codec c args >>= λ call. ok (some call)

    module _ (fetch : HttpRequest Num → Result HttpResponse) (pretty : Json Num → Text) where
      -- What is printed where nothing is sent, and after a response.
      unfoldable pub finish : Command → Dict ArgValue → Option (Call Num) → Result Output
      unfolding api_request json_or_print doctor_report
      finish help args none = ok usage
      finish c args none = ok (
          line (
            json_or_print pretty (some (obj (doctor_report host.env now args)))
              (to_bool (lookup (text "json") args))))
      finish c args (some (path, options)) =
          api_request n codec fetch host.env path options >>= λ payload.
          ok (line (json_or_print pretty payload (to_bool (lookup (text "json") args))))

      unfoldable pub run_command : Text → Dict ArgValue → Result Output
      unfolding command_of call_of finish
      run_command name args = elim (command_of name) [
        | none ↦ err (text "Unknown backend command: " ++ name)
        | some c ↦ call_of c args >>= finish c args
      ]

      unfoldable pub main : List Text → Result Output
      unfolding run_command parse_main_args
      main argv = let (name, args) = parse_main_args argv in run_command name args
