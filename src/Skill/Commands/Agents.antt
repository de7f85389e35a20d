-- ===== src/Skill/Commands/Agents.antt =====
-- The commands of backend.js on agents: their owners, sessions, risk limits and the kill switch.
use easyclaw.Base.{
  Bool, true, false, not, ◌&&◌, Option, none, some, List, [], ◌∷◌, ◌++◌, if◌then◌else◌, Text, text,
  option_map, Dict, lookup, Result, ok, ◌>>=◌, ◌>>◌, guard,
}
use easyclaw.Numbers.{Numbers}
use easyclaw.Backend.Json.{Fields, bool, num, str, arr, obj, end, field}
use easyclaw.Backend.Uri.{encode_uri_component}
use easyclaw.Backend.Session.{Codec}
use easyclaw.Backend.Request.{post, patch, delete}
use easyclaw.Backend.Endpoints.{opt_field, as_json, texts_json}
use easyclaw.Skill.Words.{ArgValue, arg_text}
use easyclaw.Skill.Agent.Values.{to_bool}
use easyclaw.Skill.Commands.Readers.{
  Call, required_arg, getting, authorized, at_id, maybe_number, maybe_boolean, parse_csv,
  parse_json_object,
}

pub data AgentCommand : Type 0 where
  agents agent agent_owner_binding agent_owner_rebind agent_session_start agent_session_stop
        agent_risk agent_risk_patch kill_switch agent_create :
      AgentCommand

-- `Object.keys(body).length === 0`
abbrev pub has_no_fields : {N : Type 0} → Fields N → Bool
has_no_fields end = true
has_no_fields (field k v fs) = false

-- `list.length === 0`
abbrev pub has_no_items : List Text → Bool
has_no_items [] = true
has_no_items (s ∷ ss) = false

module _ (n : Numbers) (codec : Codec n) where
  open n use {Num}

  unfoldable pub risk_body : Option Num → Option Num → Option Bool → Fields Num
  risk_body max_position daily_loss kill =
      opt_field (text "max_position_usdc") (as_json num max_position) (
        opt_field (text "daily_loss_limit_usdc") (as_json num daily_loss)
          (opt_field (text "kill_switch_enabled") (as_json bool kill) end))

  unfoldable pub agent_call : AgentCommand → Dict ArgValue → Result (Call Num)
  unfolding risk_body
  agent_call agents args = ok (text "/v1/agents", getting n [])
  agent_call agent args = do
    id ← required_arg (text "agent-id") args
    at_id n (text "/v1/agents/") id [] (getting n [])
  agent_call agent_owner_binding args = do
    id ← required_arg (text "agent-id") args
    at_id n (text "/v1/agents/") id (text "/owner-binding") (getting n [])
  agent_call agent_owner_rebind args = do
    id ← required_arg (text "agent-id") args
    challenge ← required_arg (text "challenge-id") args
    signature ← required_arg (text "signature") args
    at_id n (text "/v1/agents/") id (text "/owner-binding/rebind") (record {
      method = post;
      query = [];
      body = some (
          obj (
            field (text "challenge_id") (str challenge)
              (field (text "signature") (str signature) end)));
      require_auth = false;
      token = option_map arg_text (lookup (text "token") args);
    })
  agent_call agent_session_start args = do
    id ← required_arg (text "agent-id") args
    mode ← required_arg (text "mode") args
    at_id n (text "/v1/agents/") id (text "/sessions")
        (authorized n post (some (obj (field (text "mode") (str mode) end))) args)
  agent_call agent_session_stop args = do
    id ← required_arg (text "agent-id") args
    session ← required_arg (text "session-id") args
    encoded ← encode_uri_component id
    at_id n (text "/v1/agents/" ++ encoded ++ text "/sessions/") session []
        (authorized n delete none args)
  agent_call agent_risk args = do
    id ← required_arg (text "agent-id") args
    at_id n (text "/v1/agents/") id (text "/risk") (getting n [])
  agent_call agent_risk_patch args = do
    id ← required_arg (text "agent-id") args
    max_position ← maybe_number n (lookup (text "max-position-usdc") args)
    daily_loss ← maybe_number n (lookup (text "daily-loss-limit-usdc") args)
    kill ← maybe_boolean (lookup (text "kill-switch-enabled") args) (text "--kill-switch-enabled")
    guard (not (has_no_fields (risk_body max_position daily_loss kill))) (
        text
          "At least one of --max-position-usdc, --daily-loss-limit-usdc, --kill-switch-enabled is required")
    at_id n (text "/v1/agents/") id (text "/risk")
        (authorized n patch (some (obj (risk_body max_position daily_loss kill))) args)
  agent_call kill_switch args =
      let every = to_bool (lookup (text "all") args) in
      let ids =
        parse_csv (lookup (text "agent-ids") args) ++ parse_csv (lookup (text "agent-id") args) in
      let chosen = if every then text "all" ∷ [] else ids in
      do
        guard (not (not every && has_no_items chosen))
            (text "Pass --all or --agent-ids <csv> (or --agent-id <id>)")
        ok (
          text "/v1/safety/kill-switch",
          authorized n post (some (obj (field (text "agent_ids") (arr (texts_json chosen)) end)))
              args,
        )
  agent_call agent_create args = do
    name ← required_arg (text "name") args
    strategy_id ← required_arg (text "strategy-id") args
    risk_profile ←
        parse_json_object n codec (lookup (text "risk-profile-json") args)
          (text "--risk-profile-json")
    ok (
      text "/v1/agents",
      authorized n post
          (some (
            obj (
              field (text "name") (str name) (
                field (text "strategy_id") (str strategy_id)
                  (opt_field (text "risk_profile") (as_json obj risk_profile) end)))))
          args,
    )
