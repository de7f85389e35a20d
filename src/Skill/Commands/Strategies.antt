-- ===== src/Skill/Commands/Strategies.antt =====
-- The commands of backend.js on strategies, and those that sign in.
use easyclaw.Base.{
  false, not, ◌||◌, Option, none, some, [], if◌then◌else◌, is_empty, Text, text, trim, Dict, lookup,
  Result, ok, ◌>>=◌, ◌>>◌, guard,
}
use easyclaw.Numbers.{Numbers}
use easyclaw.Backend.Json.{Json, Fields, str, obj, end, field}
use easyclaw.Backend.Session.{Codec}
use easyclaw.Backend.Request.{post, patch}
use easyclaw.Backend.Endpoints.{opt_field, as_json}
use easyclaw.Skill.Words.{ArgValue, arg_text}
use easyclaw.Skill.Api.{ApiOptions}
use easyclaw.Skill.Agent.Config.{text_option}
use easyclaw.Skill.Commands.Readers.{
  Call, trimmed, required_arg, getting, authorized, at_id, parse_json_object, object_or_empty,
}
use easyclaw.Skill.Commands.Agents.{has_no_fields}

pub data StrategyCommand : Type 0 where
  strategy_templates strategy_create strategy strategy_patch strategy_publish : StrategyCommand

pub data AuthCommand : Type 0 where
  auth_challenge auth_verify auth_refresh : AuthCommand

-- `String(args.name).trim()`, if it is there and not empty
unfoldable pub new_name : Option ArgValue → Option Text
new_name none = none
new_name (some v) = if is_empty (trim (arg_text v)) then none else some (trim (arg_text v))

module _ (n : Numbers) (codec : Codec n) where
  open n use {Num}

  unfoldable pub strategy_body :
      Option Text → Option (Fields Num) → Option (Fields Num) → Fields Num
  strategy_body name entry exit = opt_field (text "name") (as_json str name) (
      opt_field (text "entry_rules") (as_json obj entry)
        (opt_field (text "exit_rules") (as_json obj exit) end))

  unfoldable pub strategy_call : StrategyCommand → Dict ArgValue → Result (Call Num)
  unfolding strategy_body new_name
  strategy_call strategy_templates args = ok (text "/v1/strategy/templates", getting n [])
  strategy_call strategy_create args = do
    name ← required_arg (text "name") args
    entry ←
        object_or_empty n codec (lookup (text "entry-rules-json") args) (text "--entry-rules-json")
    exit ← object_or_empty n codec (lookup (text "exit-rules-json") args) (text "--exit-rules-json")
    risk ←
        object_or_empty n codec (lookup (text "risk-defaults-json") args)
          (text "--risk-defaults-json")
    ok (
      text "/v1/strategies",
      authorized n post
          (some (
            obj (
              field (text "name") (str name) (
                field (text "entry_rules") (obj entry) (
                  field (text "exit_rules") (obj exit)
                    (field (text "risk_defaults") (obj risk) end))))))
          args,
    )
  strategy_call strategy args = do
    id ← required_arg (text "strategy-id") args
    at_id n (text "/v1/strategies/") id [] (getting n [])
  strategy_call strategy_patch args = do
    id ← required_arg (text "strategy-id") args
    let name = new_name (lookup (text "name") args)
    entry ←
        parse_json_object n codec (lookup (text "entry-rules-json") args)
          (text "--entry-rules-json")
    exit ←
        parse_json_object n codec (lookup (text "exit-rules-json") args) (text "--exit-rules-json")
    guard (not (has_no_fields (strategy_body name entry exit)))
        (text "At least one of --name, --entry-rules-json, --exit-rules-json is required")
    at_id n (text "/v1/strategies/") id []
        (authorized n patch (some (obj (strategy_body name entry exit))) args)
  strategy_call strategy_publish args = do
    id ← required_arg (text "strategy-id") args
    at_id n (text "/v1/strategies/") id (text "/publish") (authorized n post none args)

  -- A POST before there is a token.
  abbrev pub posting : Json Num → ApiOptions Num
  posting body = record {
    method = post;
    query = [];
    body = some body;
    require_auth = false;
    token = none;
  }

  unfoldable pub auth_call : AuthCommand → Dict ArgValue → Result (Call Num)
  auth_call auth_challenge args =
      let wallet = trimmed (lookup (text "wallet-pubkey") args) in
      let intent = text_option (text "intent") args (text "session") in
      do
        guard (not (is_empty wallet)) (text "--wallet-pubkey is required")
        ok (
          text "/v1/auth/challenge",
          posting (
              obj (
                field (text "wallet_pubkey") (str wallet)
                  (field (text "intent") (str intent) end))),
        )
  auth_call auth_verify args =
      let challenge = trimmed (lookup (text "challenge-id") args) in
      let signature = trimmed (lookup (text "signature") args) in
      let wallet = trimmed (lookup (text "wallet-pubkey") args) in
      do
        guard (not (is_empty challenge || is_empty signature || is_empty wallet))
            (text "--challenge-id, --signature, --wallet-pubkey are required")
        ok (
          text "/v1/auth/verify-signature",
          posting (
              obj (
                field (text "challenge_id") (str challenge) (
                  field (text "signature") (str signature)
                    (field (text "wallet_pubkey") (str wallet) end)))),
        )
  auth_call auth_refresh args = ok (text "/v1/auth/session/refresh", authorized n post none args)
