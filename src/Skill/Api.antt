-- ===== src/Skill/Api.antt =====
-- backend-common.js: the API's addresses, token and requests, for the scripts of the skill. The global
-- `fetch` is there, and no request is aborted.
pub mod Laws
mod Tests
use easyclaw.Base.{
  ℕ, Bool, true, false, not, Option, none, some, List, [], ◌∷◌, ◌++◌, if◌then◌else◌, is_empty,
  is_blank, or_else, or_nonempty, show_ℕ, Text, text, trim, Dict, insert, Result, ok, err, ◌>>=◌,
}
use easyclaw.Numbers.{Numbers}
use easyclaw.Backend.Json.{Json, str, obj, get_field, string_of}
use easyclaw.Backend.Uri.{Env, strip_slash, ws_beside}
use easyclaw.Backend.Session.{Codec}
use easyclaw.Backend.Request.{
  HttpMethod, QueryValue, HttpRequest, HttpResponse, is_ok_status, search_params, content_type,
  accept_json,
}
use easyclaw.Skill.Agent.Values.{is_truthy}

-- `process.env.a || process.env.b || …`
abbrev pub first_set : Env → List Text → Option Text
first_set env [] = none
first_set env (name ∷ names) = or_nonempty (env name) (first_set env names)

unfoldable pub api_base_url : Env → Text
api_base_url env = strip_slash (
    trim (
      or_else (first_set env (text "EASYCLAW_API_BASE_URL" ∷ text "API_BASE_URL" ∷ []))
        (text "http://127.0.0.1:8080")))

unfoldable pub ws_url : Env → Text
unfolding api_base_url
ws_url env =
    elim (first_set env (text "EASYCLAW_WS_URL" ∷ text "BACKEND_WS_URL" ∷ text "WS_URL" ∷ [])) [
      | none ↦ ws_beside (api_base_url env)
      | some explicit ↦ if is_blank explicit then ws_beside (api_base_url env) else trim explicit
    ]

abbrev token_from : Env → Text
token_from env = trim (
    or_else
      (first_set env (text "EASYCLAW_API_TOKEN" ∷ text "API_AUTH_TOKEN" ∷ text "API_TOKEN" ∷ []))
      [])

unfoldable pub auth_token : Env → Option Text → Text
auth_token env none = token_from env
auth_token env (some token) = if is_blank token then token_from env else trim token

-- The options of `apiRequest`.
pub record ApiOptions (N : Type 0) : Type 0 where
  pub method : HttpMethod
  pub query : List (Text × QueryValue N)
  pub body : Option (Json N)
  pub require_auth : Bool
  pub token : Option Text

module _ (n : Numbers) (codec : Codec n) where
  open n use {Num}

  bearer : Text → Bool → Result (Dict Text)
  bearer token require_auth =
      if not (is_empty token)
      then ok (insert (text "Authorization") (text "Bearer " ++ token) (accept_json n codec))
      else if require_auth
      then err (text "Missing API auth token. Set EASYCLAW_API_TOKEN or pass --token.")
      else ok (accept_json n codec)

  unfoldable pub build_api_request : Env → Text → ApiOptions Num → Result (HttpRequest Num)
  unfolding auth_token api_base_url bearer
  build_api_request env path options =
      bearer (auth_token env options.token) options.require_auth >>= λ headers. ok (record {
        method = options.method;
        base = api_base_url env ++ text "/";
        path = path;
        params = search_params n codec options.query [];
        headers = content_type n codec options.body headers;
        body = options.body;
      })

  -- `parsed`, which is undefined for an empty text.
  unfoldable pub parse_text : Text → Option (Json Num)
  parse_text [] = none
  parse_text (c ∷ s) = elim (codec.parse (c ∷ s)) [ none ↦ some (str (c ∷ s)) | some v ↦ some v ]

  -- What is said of a response that is not ok, after its status.
  unfoldable pub error_suffix : Option (Json Num) → Text
  error_suffix (some (obj fs)) = elim (get_field (text "error") fs) [
    | none ↦ []
    | some e ↦ if is_truthy n e then text ": " ++ string_of n e else []
  ]
  error_suffix (some (str s)) = if is_empty s then [] else text ": " ++ s
  error_suffix _ = []

  unfoldable pub read_api_response : HttpResponse → Result (Option (Json Num))
  unfolding parse_text error_suffix
  read_api_response r =
      if is_ok_status r.status
      then ok (parse_text r.content)
      else err (text "HTTP " ++ (show_ℕ r.status ++ error_suffix (parse_text r.content)))

  unfoldable pub api_request :
      (HttpRequest Num → Result HttpResponse)
      → Env
      → Text
      → ApiOptions Num
      → Result (Option (Json Num))
  unfolding build_api_request read_api_response
  api_request fetch env path options =
      build_api_request env path options >>= λ r. fetch r >>= read_api_response
