-- ===== src/Backend/Tests.antt =====
-- The client on concrete requests: the theorems at concrete inputs.
use easyclaw.Base.{
  ℕ, ◌≡◌, ◌≢◌, ◌≤◌, refl, true, Option, none, some, [], ◌∷◌, arith, Text, text, text_eq,
  if◌then◌else◌, trim, is_blank, zero, suc, show_ℕ, lookup, insert, Result, ok,
}
use easyclaw.Samples.{naturals}
use easyclaw.Backend.Json.{Json, null, num, str, obj, end, field}
use easyclaw.Backend.Uri.{
  Env, get_api_base_url, encode_uri_component, is_unreserved, percent, percent_utf8, hex_digit,
}
use easyclaw.Backend.Uri.Laws.{IsSafe, encode_uri_component-IsSafe}
use easyclaw.Backend.Session.{Codec, get_session_token}
use easyclaw.Backend.Request.{
  post, delete, absent, txt, number, Options, HttpRequest, HttpResponse, build_request, request,
  parse_payload, auth_headers, read_response, search_params, query_text,
}
use easyclaw.Backend.Request.Laws.{
  Bears, last_value, build_request-Bears, build_request-params, request-eq-ok,
}
use easyclaw.Backend.Endpoints.{Endpoint, changing, target_of}
use easyclaw.Backend.Endpoints.Laws.{target_of-Bears}
use easyclaw.Backend.Endpoints.Paths.{IsPath, target_of-IsPath}

-- A codec for the stored sessions; the first code unit tells whether there is a time.
abbrev to_text : Json (Option ℕ) → Text
to_text (obj (field j (str token) end)) = 0 ∷ token
to_text (obj (field j (str token) (field k (num (some t)) end))) = 1 ∷ t ∷ token
to_text _ = 2 ∷ []

abbrev timed : Text → Option (Json (Option ℕ))
timed [] = none
timed (t ∷ token) =
    some (obj (field (text "token") (str token) (field (text "expiresAt") (num (some t)) end)))

abbrev read : Text → Option (Json (Option ℕ))
read [] = none
read (zero ∷ token) = some (obj (field (text "token") (str token) end))
read (suc k ∷ rest) = timed rest

abbrev codec : Codec naturals
codec = record { parse = read; stringify = to_text }

encode_uri_component-IsSafe_example : IsSafe (text "a%2Fb%3F")
unfolding encode_uri_component is_unreserved percent_utf8 percent hex_digit text
encode_uri_component-IsSafe_example =
    encode_uri_component-IsSafe (text "a/b?") {t = text "a%2Fb%3F"} (ground arith) refl

abbrev no_env : Env
no_env name = none

abbrev options : Options (Option ℕ)
options = record {
  method = post;
  body = some (str (text "body"));
  query = (text "limit", number (some 5)) ∷ (text "from", absent) ∷ (text "limit", txt []) ∷ [];
  auth = true;
  token = some (text "secret");
}

abbrev built : HttpRequest (Option ℕ)
built = record {
  method = post;
  base = text "http://127.0.0.1:8080/";
  path = text "/v1/agents";
  params = (text "limit", text "5") ∷ [];
  headers =
      (text "Accept", text "application/json")
      ∷ (text "Authorization", text "Bearer secret")
      ∷ (text "Content-Type", text "application/json")
      ∷ [];
  body = some (str (text "body"));
}

builds : build_request naturals codec no_env (some []) (text "/v1/agents") options ≡ ok built
unfolding build_request auth_headers search_params query_text get_api_base_url insert text text_eq
    show_ℕ is_blank trim
builds = refl

build_request-Bears_example : (t : Text) × (t ≢ []) × Bears naturals codec t built.headers
build_request-Bears_example =
    build_request-Bears naturals codec no_env (some []) (text "/v1/agents") options {r = built} refl
      builds

build_request-params_example :
    lookup (text "limit") built.params ≡ last_value naturals codec (text "limit") options.query none
build_request-params_example =
    build_request-params naturals codec no_env (some []) (text "/v1/agents") (text "limit") options
      {r = built} builds

abbrev answering : HttpRequest (Option ℕ) → Result HttpResponse
answering r = ok (record { status = 204; content = [] })

answered : request naturals codec answering no_env (some []) (text "/v1/agents") options ≡ ok null
unfolding request read_response parse_payload
answered = rw (request, builds)

request-eq-ok_example :
    (r : HttpRequest (Option ℕ)) × (response : HttpResponse) × (build_request naturals codec no_env
        (some [])
        (text "/v1/agents")
        options
      ≡ ok r)
    × (answering r ≡ ok response)
    × (200 ≤ response.status)
    × (response.status ≤ 299)
    × (parse_payload naturals codec response.content ≡ null)
request-eq-ok_example =
    request-eq-ok naturals codec answering no_env (some []) (text "/v1/agents") options {v = null}
      answered

abbrev stop : Options (Option ℕ)
stop = changing delete none

abbrev stop_path : Text
stop_path = text "/v1/agents/a%2Fb/sessions/s"

abbrev stopped : HttpRequest (Option ℕ)
stopped = record {
  method = delete;
  base = text "http://127.0.0.1:8080/";
  path = stop_path;
  params = [];
  headers =
      (text "Accept", text "application/json") ∷ (text "Authorization", text "Bearer secret") ∷ [];
  body = none;
}

abbrev token_env : Env
token_env name = if text_eq name (text "VITE_API_TOKEN") then some (text " secret") else none

target_of-Bears_example : (t : Text) × (t ≢ []) × Bears naturals codec t stopped.headers
unfolding target_of encode_uri_component is_unreserved percent_utf8 percent hex_digit build_request
    auth_headers search_params get_api_base_url get_session_token insert text text_eq is_blank trim
target_of-Bears_example =
    target_of-Bears naturals codec token_env (some [])
      (Endpoint.stop_agent_session (text "a/b") (text "s")) stop_path stop {r = stopped} refl
      (λ e. cc) refl refl

stop_target : target_of (Endpoint.stop_agent_session (text "a/b") (text "s")) ≡ ok (stop_path, stop)
unfolding target_of encode_uri_component is_unreserved percent_utf8 percent hex_digit text
stop_target = refl

target_of-IsPath_example : IsPath stop_path
unfolding text
target_of-IsPath_example =
    target_of-IsPath (Endpoint.stop_agent_session (text "a/b") (text "s")) {path = stop_path}
      {options = stop} (ground arith) stop_target
