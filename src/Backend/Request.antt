-- ===== src/Backend/Request.antt =====
-- `request` of backend.ts, in three parts: the HTTP request that it builds (or the error that it
-- throws first), the fetch, and what it makes of the response.
pub mod Laws
use easyclaw.Base.{
  ℕ, ◌+◌, ◌≡◌, Bool, true, false, ◌&&◌, ◌||◌, Option, none, some, List, [], ◌∷◌, ◌++◌,
  if◌then◌else◌, leb, ◌==◌, or_option, is_empty, is_blank, show_ℕ, Text, text, Dict, lookup, insert,
  Result, ok, err, ◌>>=◌,
}
use easyclaw.Numbers.{Numbers}
use easyclaw.Backend.Json.{
  Json, null, bool, num, str, arr, obj, Items, nil, cons, Fields, end, field, get_field, string_of,
}
use easyclaw.Backend.Uri.{Env, get_api_base_url}
use easyclaw.Backend.Session.{Codec, Storage, get_session_token}

pub data HttpMethod : Type 0 where
  get post patch delete : HttpMethod

-- A value of `options.query`; `absent` is `undefined` or `null`.
pub data QueryValue (N : Type 0) : Type 0 where
  absent : QueryValue N
  txt : Text → QueryValue N
  number : N → QueryValue N

pub record Options (N : Type 0) : Type 0 where
  pub method : HttpMethod
  pub body : Option (Json N)
  pub query : List (Text × QueryValue N)
  pub auth : Bool
  pub token : Option Text

-- The URL is `path` resolved against `base`, with the search parameters.
pub record HttpRequest (N : Type 0) : Type 0 where
  pub method : HttpMethod
  pub base : Text
  pub path : Text
  pub params : Dict Text
  pub headers : Dict Text
  pub body : Option (Json N)

pub record HttpResponse : Type 0 where
  pub status : ℕ
  pub content : Text

-- `response.ok`
abbrev pub is_ok_status : ℕ → Bool
is_ok_status status = leb 200 status && leb status 299

module _ (n : Numbers) (codec : Codec n) where
  open n use {Num, show}

  -- `String(value)`, if the value is there.
  unfoldable pub query_text : QueryValue Num → Option Text
  query_text absent = none
  query_text (txt s) = some s
  query_text (number v) = some (show v)

  abbrev pub set_param : Text → Option Text → Dict Text → Dict Text
  set_param key none params = params
  set_param key (some s) params = if is_blank s then params else insert key s params

  unfoldable pub search_params : List (Text × QueryValue Num) → Dict Text → Dict Text
  unfolding query_text
  search_params [] params = params
  search_params ((key, v) ∷ query) params =
      search_params query (set_param key (query_text v) params)

  unfoldable pub auth_headers : Bool → Option Text → Dict Text → Result (Dict Text)
  auth_headers auth none headers =
      if auth then err (text "Session token is required for this request.") else ok headers
  auth_headers auth (some token) headers =
      if is_empty token
      then if auth then err (text "Session token is required for this request.") else ok headers
      else ok (insert (text "Authorization") (text "Bearer " ++ token) headers)

  abbrev pub content_type : Option (Json Num) → Dict Text → Dict Text
  content_type none headers = headers
  content_type (some body) headers = insert (text "Content-Type") (text "application/json") headers

  abbrev pub assemble : Env → Text → Options Num → Dict Text → HttpRequest Num
  assemble env path options headers = record {
    method = options.method;
    base = get_api_base_url env ++ text "/";
    path = path;
    params = search_params options.query [];
    headers = content_type options.body headers;
    body = options.body;
  }

  abbrev pub accept_json : Dict Text
  accept_json = (text "Accept", text "application/json") ∷ []

  unfoldable pub build_request : Env → Storage → Text → Options Num → Result (HttpRequest Num)
  build_request env storage path options = do
    let token = or_option options.token (get_session_token n codec env storage)
    headers ← auth_headers options.auth token accept_json
    ok (assemble env path options headers)

  -- What the response's text is taken for.
  unfoldable pub parse_payload : Text → Json Num
  parse_payload [] = null
  parse_payload (c ∷ s) = elim (codec.parse (c ∷ s)) [ none ↦ str (c ∷ s) | some v ↦ v ]

  abbrev pub error_or : ℕ → Option (Json Num) → Text
  error_or status none = text "HTTP " ++ show_ℕ status
  error_or status (some e) = string_of n e

  -- The message of a response that is not ok.
  unfoldable pub error_message : ℕ → Json Num → Text
  error_message status (obj fs) = error_or status (get_field (text "error") fs)
  error_message status _ = text "HTTP " ++ show_ℕ status

  unfoldable pub read_response : HttpResponse → Result (Json Num)
  read_response r =
      let payload = parse_payload r.content in
      let message = error_message r.status payload in
      if is_ok_status r.status
      then ok payload
      else if r.status == 401 || r.status == 403
      then err (text "Unauthorized: " ++ message)
      else err message

  -- `fetch` is the network: a response, or the message of its failure.
  unfoldable pub request :
      (HttpRequest Num → Result HttpResponse)
      → Env
      → Storage
      → Text
      → Options Num
      → Result (Json Num)
  unfolding build_request read_response
  request fetch env storage path options = do
    r ← build_request env storage path options
    response ← fetch r
    read_response response
