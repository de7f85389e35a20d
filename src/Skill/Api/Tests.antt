-- ===== src/Skill/Api/Tests.antt =====
-- The requests of the scripts at concrete inputs.
use easyclaw.Base.{
  ◌≡◌, refl, true, ℕ, Option, none, some, [], ◌∷◌, ◌++◌, if◌then◌else◌, is_blank, trim, or_nonempty,
  Dict, insert, Text, text, text_eq, ok,
}
use easyclaw.Samples.{naturals}
use easyclaw.Backend.Uri.{Env}
use easyclaw.Backend.Session.{Codec}
use easyclaw.Backend.Request.{get, search_params, HttpRequest}
use easyclaw.Skill.Api.{ApiOptions, auth_token, build_api_request, api_base_url}

abbrev codec : Codec naturals
codec = record { parse = λ s. none; stringify = λ v. text "{}" }

abbrev token_env : Env
token_env name = if text_eq name (text "API_AUTH_TOKEN") then some (text " secret ") else none

abbrev options : ApiOptions (Option ℕ)
options = record { method = get; query = []; body = none; require_auth = true; token = none }

abbrev headers : Dict Text
headers =
    (text "Accept", text "application/json") ∷ (text "Authorization", text "Bearer secret") ∷ []

abbrev built : HttpRequest (Option ℕ)
built = record {
  method = get;
  base = api_base_url token_env ++ text "/";
  path = text "/v1/trades";
  params = [];
  headers = headers;
  body = none;
}

builds : build_api_request naturals codec token_env (text "/v1/trades") options ≡ ok built
unfolding build_api_request auth_token search_params text text_eq insert trim is_blank or_nonempty
builds = refl
