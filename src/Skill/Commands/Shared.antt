-- ===== src/Skill/Commands/Shared.antt =====
-- About the commands of backend.js beside the calls of the web client.
use easyclaw.Base.{
  ℕ, ◌≡◌, refl, ap, true, false, none, some, [], ◌++◌, Text, text, Dict, lookup, Result, ok, err,
  ◌>>=◌, guard, not, Holds, held, Holds-ok, >>=-Holds,
}
use easyclaw.Numbers.{Numbers}
use easyclaw.Backend.Uri.{encode_uri_component}
use easyclaw.Backend.Session.{Codec}
use easyclaw.Backend.Request.{Options, delete}
use easyclaw.Backend.Endpoints.{Endpoint, changing, with_id, risk_patch_json, target_of}
use easyclaw.Skill.Words.{ArgValue}
use easyclaw.Skill.Platform.{Solana}
use easyclaw.Skill.Setup.{Host}
use easyclaw.Skill.Api.{ApiOptions}
use easyclaw.Skill.Commands.{Command, call_of}
use easyclaw.Skill.Commands.Readers.{
  required_arg, maybe_number, maybe_boolean, parse_json_object, object_or_empty, authorized, at_id,
}
use easyclaw.Skill.Commands.Agents.{AgentCommand, has_no_fields, risk_body, agent_call}
use easyclaw.Skill.Commands.Strategies.{
  StrategyCommand, AuthCommand, new_name, strategy_body, strategy_call, auth_call,
}
use easyclaw.Skill.Commands.Guarded.{Sends, sends_lem}
use easyclaw.Skill.Commands.Mirrors.{
  is_shared, is_laxer, SameRequest, Mirrors, at_id-Mirrors, table_call-Mirrors, feed_call-Mirrors,
}

module _ (n : Numbers) (codec : Codec n) where
  open n use {Num, of_ℕ}

  stop-Mirrors :
      (id session : Text) (args : Dict ArgValue)
      → Holds (Mirrors false) (
          encode_uri_component id >>= λ s.
          at_id n
            (text "/v1/agents/" ++ s ++ text "/sessions/")
            session
            []
            (authorized n delete none args))
  unfolding target_of
  stop-Mirrors id session args = go (encode_uri_component id) refl
    where
      go :
          (r : Result Text)
          → encode_uri_component id ≡ r
          → Holds (Mirrors false) (
              r >>= λ s.
              at_id n
                (text "/v1/agents/" ++ s ++ text "/sessions/")
                session
                []
                (authorized n delete none args))
      go (ok s) made =
          at_id-Mirrors n codec false (Endpoint.stop_agent_session id session) _ session [] _ _
            (ap
              (λ r. r >>= λ s.
                with_id (text "/v1/agents/" ++ s ++ text "/sessions/") session []
                  (changing delete none))
              made)
            (refl, refl, refl, refl)
      go (err m) made = record { at_value = tt }

  agent_call-Mirrors :
      (c : AgentCommand) (args : Dict ArgValue)
      → is_shared (Command.agent c) ≡ true
      → Holds (Mirrors (is_laxer (Command.agent c))) (agent_call n codec c args)
  unfolding agent_call target_of risk_body risk_patch_json
  agent_call-Mirrors AgentCommand.agents args h =
      held (Endpoint.get_agents, _, refl, (refl, refl, refl, refl))
  agent_call-Mirrors AgentCommand.agent args h =
      >>=-Holds (required_arg (text "agent-id") args) _ (λ id.
        at_id-Mirrors n codec false (Endpoint.get_agent id) (text "/v1/agents/") id ([]) _ _ refl
          (refl, refl, refl, refl))
  agent_call-Mirrors AgentCommand.agent_owner_binding args h =
      >>=-Holds (required_arg (text "agent-id") args) _ (λ id.
        at_id-Mirrors n codec false (Endpoint.get_agent_binding id) (text "/v1/agents/") id
          (text "/owner-binding") _ _ refl (refl, refl, refl, refl))
  agent_call-Mirrors AgentCommand.agent_owner_rebind args h =
      >>=-Holds (required_arg (text "agent-id") args) _ (λ id.
        >>=-Holds (required_arg (text "challenge-id") args) _ (λ c.
          >>=-Holds (required_arg (text "signature") args) _ (λ s.
            at_id-Mirrors n codec true (Endpoint.rebind_agent_owner id c s) (text "/v1/agents/") id
              (text "/owner-binding/rebind") _ _ refl (refl, refl, refl, refl))))
  agent_call-Mirrors AgentCommand.agent_session_start args h =
      >>=-Holds (required_arg (text "agent-id") args) _ (λ id.
        >>=-Holds (required_arg (text "mode") args) _ (λ m.
          at_id-Mirrors n codec false (Endpoint.start_agent_session id m) (text "/v1/agents/") id
            (text "/sessions") _ _ refl (refl, refl, refl, refl)))
  agent_call-Mirrors AgentCommand.agent_session_stop args h =
      >>=-Holds (required_arg (text "agent-id") args) _
        (λ id. >>=-Holds (required_arg (text "session-id") args) _ (λ s. stop-Mirrors id s args))
  agent_call-Mirrors AgentCommand.agent_risk args h =
      >>=-Holds (required_arg (text "agent-id") args) _ (λ id.
        at_id-Mirrors n codec false (Endpoint.get_agent_risk id) (text "/v1/agents/") id
          (text "/risk") _ _ refl (refl, refl, refl, refl))
  agent_call-Mirrors AgentCommand.agent_risk_patch args h =
      >>=-Holds (required_arg (text "agent-id") args) _ (λ id.
        >>=-Holds (maybe_number n (lookup (text "max-position-usdc") args)) _ (λ p.
          >>=-Holds (maybe_number n (lookup (text "daily-loss-limit-usdc") args)) _ (λ d.
            >>=-Holds
              (maybe_boolean (lookup (text "kill-switch-enabled") args)
                (text "--kill-switch-enabled"))
              _
              (λ k. >>=-Holds (guard (not (has_no_fields (risk_body n codec p d k))) _) _ (λ t.
                at_id-Mirrors n codec false
                  (Endpoint.patch_agent_risk id (record {
                    max_position_usdc = p;
                    daily_loss_limit_usdc = d;
                    kill_switch_enabled = k;
                  }))
                  (text "/v1/agents/") id (text "/risk") _ _ refl (refl, refl, refl, refl))))))
  agent_call-Mirrors AgentCommand.kill_switch args h =
      >>=-Holds (guard _ _) _
        (λ t. held (Endpoint.kill_switch _, _, refl, (refl, refl, refl, refl)))
  agent_call-Mirrors AgentCommand.agent_create args h = cc

  strategy_call-Mirrors :
      (c : StrategyCommand) (args : Dict ArgValue)
      → Holds (Mirrors false) (strategy_call n codec c args)
  unfolding strategy_call target_of strategy_body
  strategy_call-Mirrors StrategyCommand.strategy_templates args =
      held (Endpoint.get_strategy_templates, _, refl, (refl, refl, refl, refl))
  strategy_call-Mirrors StrategyCommand.strategy_create args =
      >>=-Holds (required_arg (text "name") args) _ (λ name.
        >>=-Holds
          (object_or_empty n codec (lookup (text "entry-rules-json") args)
            (text "--entry-rules-json"))
          _
          (λ a.
            >>=-Holds
              (object_or_empty n codec (lookup (text "exit-rules-json") args)
                (text "--exit-rules-json"))
              _
              (λ b.
                >>=-Holds
                  (object_or_empty n codec (lookup (text "risk-defaults-json") args)
                    (text "--risk-defaults-json"))
                  _
                  (λ d.
                    held
                      (Endpoint.create_strategy name a b d, _, refl, (refl, refl, refl, refl))))))
  strategy_call-Mirrors StrategyCommand.strategy args =
      >>=-Holds (required_arg (text "strategy-id") args) _ (λ id.
        at_id-Mirrors n codec false (Endpoint.get_strategy id) (text "/v1/strategies/") id ([]) _ _
          refl (refl, refl, refl, refl))
  strategy_call-Mirrors StrategyCommand.strategy_patch args =
      >>=-Holds (required_arg (text "strategy-id") args) _ (λ id.
        >>=-Holds
          (parse_json_object n codec (lookup (text "entry-rules-json") args)
            (text "--entry-rules-json"))
          _
          (λ a.
            >>=-Holds
              (parse_json_object n codec (lookup (text "exit-rules-json") args)
                (text "--exit-rules-json"))
              _
              (λ b.
                >>=-Holds
                  (guard
                    (not (
                      has_no_fields
                        (strategy_body n codec (new_name (lookup (text "name") args)) a b)))
                    _)
                  _
                  (λ t.
                    at_id-Mirrors n codec false
                      (Endpoint.patch_strategy id (new_name (lookup (text "name") args)) a b)
                      (text "/v1/strategies/") id ([]) _ _ refl (refl, refl, refl, refl)))))
  strategy_call-Mirrors StrategyCommand.strategy_publish args =
      >>=-Holds (required_arg (text "strategy-id") args) _ (λ id.
        at_id-Mirrors n codec false (Endpoint.publish_strategy id) (text "/v1/strategies/") id
          (text "/publish") _ _ refl (refl, refl, refl, refl))

  auth_call-Mirrors :
      (c : AuthCommand) (args : Dict ArgValue) → Holds (Mirrors false) (auth_call n codec c args)
  unfolding auth_call target_of
  auth_call-Mirrors AuthCommand.auth_challenge args =
      >>=-Holds (guard _ _) _
        (λ t. held (Endpoint.create_auth_challenge _ _, _, refl, (refl, refl, refl, refl)))
  auth_call-Mirrors AuthCommand.auth_verify args =
      >>=-Holds (guard _ _) _
        (λ t. held (Endpoint.verify_auth_signature _ _ _, _, refl, (refl, refl, refl, refl)))
  auth_call-Mirrors AuthCommand.auth_refresh args =
      held (Endpoint.refresh_auth_session none, _, refl, (refl, refl, refl, refl))

  module _ (w : Solana) (host : Host w.Key) (now : ℕ) where
    call_of-Mirrors :
        (c : Command) (args : Dict ArgValue)
        → is_shared c ≡ true
        → Holds (Sends n codec (Mirrors (is_laxer c))) (call_of n codec w host now c args)
    unfolding call_of
    call_of-Mirrors Command.doctor args h = cc
    call_of-Mirrors Command.help args h = cc
    call_of-Mirrors (Command.table c) args h =
        sends_lem n codec _ _ (table_call-Mirrors n codec _ c args h)
    call_of-Mirrors (Command.feed c) args h =
        sends_lem n codec _ _ (feed_call-Mirrors n codec c args h)
    call_of-Mirrors (Command.agent c) args h = sends_lem n codec _ _ (agent_call-Mirrors c args h)
    call_of-Mirrors (Command.strategy c) args h =
        sends_lem n codec _ _ (strategy_call-Mirrors c args)
    call_of-Mirrors (Command.auth c) args h = sends_lem n codec _ _ (auth_call-Mirrors c args)

    -- Every command of the skill but `doctor`, `help`, `health`, the two heatmaps and `agent-create` asks
    -- what some call of the web client asks: the same path, method and body, a query with the same keys,
    -- and a token exactly where that call needs one, but for `agent-owner-rebind`, which needs none.
    pub call_of-mirrored :
        (c : Command) (args : Dict ArgValue) {path : Text} {skill : ApiOptions Num}
        → is_shared c ≡ true
        → call_of n codec w host now c args ≡ ok (some (path, skill))
        → (endpoint : Endpoint Num) × (web : Options Num) × (target_of endpoint ≡ ok (path, web))
          × SameRequest (is_laxer c) web skill
    call_of-mirrored c args h call = Holds-ok (call_of-Mirrors c args h) call
