-- ===== src/Skill/Commands/Tests.antt =====
-- Commands at concrete inputs.
use easyclaw.Skill.Agent.Values.{to_bool}
use easyclaw.Base.{
  ℕ, ◌≡◌, refl, true, false, Option, none, some, [], ◌∷◌, ◌++◌, Text, text, text_eq, Dict, lookup,
  insert, ok, err, Result, or_nonempty, is_blank, ◌≢◌,
}
use easyclaw.Samples.{naturals}
use easyclaw.Backend.Uri.{encode_uri_component, is_unreserved, percent_utf8, percent, hex_digit}
use easyclaw.Backend.Session.{Codec}
use easyclaw.Backend.Request.{HttpRequest, HttpResponse, delete, search_params, Options}
use easyclaw.Backend.Endpoints.{Endpoint, target_of}
use easyclaw.Skill.Words.{ArgValue, given}
use easyclaw.Skill.Setup.{Host}
use easyclaw.Skill.Tests.Cluster.{Name, user, solana}
use easyclaw.Skill.Api.{ApiOptions, api_base_url, build_api_request}
use easyclaw.Skill.Commands.{Command, line, call_of, run_command}
use easyclaw.Skill.Commands.Readers.{required_string, at_id}
use easyclaw.Skill.Commands.Agents.{AgentCommand, agent_call}
use easyclaw.Skill.Commands.Guarded.{call_of-authorized}
use easyclaw.Skill.Commands.Mirrors.{SameRequest}
use easyclaw.Skill.Commands.Shared.{call_of-mirrored}

abbrev codec : Codec naturals
codec = record { parse = λ s. none; stringify = λ v. text "{}" }

abbrev host : Host Name
host = record {
  env = λ name. none;
  home = [];
  join = λ a b. b;
  resolve = λ p. p;
  read_file = λ p. some [];
  keypair = λ content. ok user;
}

abbrev stopping : Dict ArgValue
stopping =
    (text "agent-id", given (text "a/1"))
    ∷ (text "session-id", given (text " s "))
    ∷ (text "token", given (text "secret"))
    ∷ []

abbrev stop : Command
stop = Command.agent AgentCommand.agent_session_stop

abbrev path : Text
path = text "/v1/agents/a%2F1/sessions/s"

abbrev options : ApiOptions (Option ℕ)
options = record {
  method = delete;
  query = [];
  body = none;
  require_auth = true;
  token = some (text "secret");
}

abbrev headers : Dict Text
headers =
    (text "Accept", text "application/json") ∷ (text "Authorization", text "Bearer secret") ∷ []

abbrev request : HttpRequest (Option ℕ)
request = record {
  method = delete;
  base = api_base_url host.env ++ text "/";
  path = path;
  params = [];
  headers = headers;
  body = none;
}

stop_call : call_of naturals codec solana host 0 stop stopping ≡ ok (some (path, options))
unfolding call_of agent_call required_string lookup text_eq text encode_uri_component at_id
    is_unreserved percent_utf8 percent hex_digit
stop_call = refl

stop_request : build_api_request naturals codec host.env path options ≡ ok request
unfolding build_api_request is_blank text search_params insert text_eq
stop_request = refl

call_of-authorized_example :
    (token : Text) × (token ≢ [])
    × (lookup (text "Authorization") headers ≡ some (text "Bearer " ++ token))
call_of-authorized_example =
    call_of-authorized naturals codec solana host 0 host.env stop stopping {path = path}
      {options = options} {r = request} refl stop_call (λ e. cc) stop_request

call_of-mirrored_example :
    (endpoint : Endpoint (Option ℕ)) × (web : Options (Option ℕ)) × (target_of endpoint
      ≡ ok (path, web))
    × SameRequest false web options
call_of-mirrored_example =
    call_of-mirrored naturals codec solana host 0 stop stopping {path = path} {skill = options} refl
      stop_call

-- Without a token, `agent-owner-rebind` is sent all the same.
abbrev rebinding : Dict ArgValue
rebinding =
    (text "agent-id", given (text "a"))
    ∷ (text "challenge-id", given (text "c"))
    ∷ (text "signature", given (text "x"))
    ∷ []

rebind_headers : HttpRequest (Option ℕ) → Result HttpResponse
rebind_headers r = if_there (lookup (text "Authorization") r.headers)
  where
    if_there : Option Text → Result HttpResponse
    if_there none = ok (record { status = 200; content = text "none" })
    if_there (some t) = err t

rebind_runs :
    run_command naturals codec solana host 0 rebind_headers
      (λ v. [])
      (text "agent-owner-rebind")
      rebinding
    ≡ ok (line (text "none"))
unfolding run_command text_eq text agent_call required_string at_id encode_uri_component or_nonempty
    rebind_headers insert to_bool
rebind_runs = refl
