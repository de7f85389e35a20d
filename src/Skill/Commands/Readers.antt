-- ===== src/Skill/Commands/Readers.antt =====
-- The readers of backend.js: options as numbers, Booleans, JSON objects and lists, and the signer's own
-- identity.
use easyclaw.Base.{
  Bool, true, false, not, ◌||◌, Option, none, some, List, [], ◌++◌, if◌then◌else◌, is_empty,
  or_else, option_map, map, filter, Text, text, text_eq, trim, to_lower, is_blank, split, Dict,
  lookup, Result, ok, err, ◌>>=◌, or_throw,
}
use easyclaw.Numbers.{Numbers}
use easyclaw.Backend.Json.{Json, Fields, obj, end}
use easyclaw.Backend.Uri.{encode_uri_component}
use easyclaw.Backend.Session.{Codec}
use easyclaw.Backend.Request.{HttpMethod, get, QueryValue, absent, txt}
use easyclaw.Skill.Words.{ArgValue, flag, given, arg_text}
use easyclaw.Skill.Plan.{truthy}
use easyclaw.Skill.Platform.{Solana}
use easyclaw.Skill.Setup.{
  Host, read_signer, pubkey_from_env, default_order_engine, default_market_registry,
  derive_user_margin,
}
use easyclaw.Skill.Agent.Values.{number_of, arg_json}
use easyclaw.Skill.Api.{ApiOptions}

-- A path and the options of `apiRequest`.
abbrev pub Call : Type 0 → Type 0
Call N = Text × ApiOptions N

-- `mineIdentity()`
pub record Identity : Type 0 where
  pub user_pubkey : Text
  pub user_margin : Text

-- `programIdsFromEnv` reads the market registry's id too.
unfoldable pub mine_identity : (w : Solana) → Host w.Key → Result Identity
unfolding read_signer pubkey_from_env derive_user_margin
mine_identity w host = do
  signer ← read_signer host
  order_engine ← pubkey_from_env w host.env (text "ORDER_ENGINE_PROGRAM_ID") default_order_engine
  registry ← pubkey_from_env w host.env (text "MARKET_REGISTRY_PROGRAM_ID") default_market_registry
  ok (record {
    user_pubkey = w.to_base58 signer;
    user_margin = w.to_base58 (derive_user_margin w signer order_engine);
  })

-- A value unless `raw === undefined || String(raw).trim() === ""`
unfoldable pub stated : Option ArgValue → Option ArgValue
stated none = none
stated (some v) = if is_blank (arg_text v) then none else some v

-- `String(raw || "").trim()`
unfoldable pub trimmed : Option ArgValue → Text
unfolding trim
trimmed raw = trim (or_else (option_map arg_text (truthy raw)) [])

unfoldable pub required_string : Option ArgValue → Text → Result Text
unfolding trimmed
required_string raw flag_name =
    if is_empty (trimmed raw) then err (flag_name ++ text " is required") else ok (trimmed raw)

-- `requiredString(args[name], "--name")`
abbrev pub required_arg : Text → Dict ArgValue → Result Text
required_arg name args = required_string (lookup name args) (text "--" ++ name)

unfoldable pub maybe_boolean : Option ArgValue → Text → Result (Option Bool)
unfolding stated
maybe_boolean raw name = elim (stated raw) [
  | none ↦ ok none
  | some flag ↦ ok (some true)
  | some (given s) ↦
      let normalized = to_lower (trim s) in
      if text_eq normalized (text "1")
        || text_eq normalized (text "true")
        || text_eq normalized (text "yes")
      then ok (some true)
      else if text_eq normalized (text "0")
          || text_eq normalized (text "false")
          || text_eq normalized (text "no")
      then ok (some false)
      else err (text "Invalid boolean value for " ++ name ++ text ": " ++ s)
]

unfoldable pub parse_csv : Option ArgValue → List Text
unfolding stated
parse_csv raw = elim (stated raw) [
  | none ↦ []
  | some v ↦ filter (λ item. not (is_empty item)) (map trim (split b',' (arg_text v)))
]

module _ (n : Numbers) where
  open n use {Num, is_finite}

  -- A value of a query: `String(value)` is taken of it later.
  abbrev pub arg_query : Option ArgValue → QueryValue Num
  arg_query none = absent
  arg_query (some v) = txt (arg_text v)

  -- `args[name] || fallback`
  abbrev pub query_or : Option ArgValue → QueryValue Num → QueryValue Num
  query_or none fallback = fallback
  query_or (some v) fallback = txt (arg_text v)

  -- A GET, with neither a token nor the need of one.
  abbrev pub getting : List (Text × QueryValue Num) → ApiOptions Num
  getting query = record {
    method = get;
    query = query;
    body = none;
    require_auth = false;
    token = none;
  }

  -- `requireAuth: true, token`
  abbrev pub authorized : HttpMethod → Option (Json Num) → Dict ArgValue → ApiOptions Num
  authorized method body args = record {
    method = method;
    query = [];
    body = body;
    require_auth = true;
    token = option_map arg_text (lookup (text "token") args);
  }

  -- The path `${prefix}${encodeURIComponent(id)}${suffix}`
  unfoldable pub at_id : Text → Text → Text → ApiOptions Num → Result (Call Num)
  at_id prefix id suffix options = do
    encoded ← encode_uri_component id
    ok (prefix ++ encoded ++ suffix, options)

  unfoldable pub maybe_number : Option ArgValue → Result (Option Num)
  unfolding stated number_of
  maybe_number raw = elim (stated raw) [
    | none ↦ ok none
    | some v ↦
        if is_finite (number_of n (arg_json n v))
        then ok (some (number_of n (arg_json n v)))
        else err (text "Invalid numeric value: " ++ arg_text v)
  ]

  module _ (codec : Codec n) where
    unfoldable pub parse_json_string : Option ArgValue → Text → Result (Option (Json Num))
    unfolding stated
    parse_json_string raw name = elim (stated raw) [
      | none ↦ ok none
      | some v ↦
          or_throw (codec.parse (trim (arg_text v))) (text "Invalid JSON for " ++ name) >>= λ value.
          ok (some value)
    ]

    abbrev as_object : Text → Option (Json Num) → Result (Option (Fields Num))
    as_object name none = ok none
    as_object name (some (obj fs)) = ok (some fs)
    as_object name (some v) = err (name ++ text " must be a JSON object")

    -- With the fallback `undefined`.
    unfoldable pub parse_json_object : Option ArgValue → Text → Result (Option (Fields Num))
    unfolding parse_json_string
    parse_json_object raw name = parse_json_string raw name >>= as_object name

    -- With the fallback `{}`.
    abbrev pub object_or_empty : Option ArgValue → Text → Result (Fields Num)
    object_or_empty raw name = parse_json_object raw name >>= λ value. ok (or_else value end)
