-- ===== src/Skill/Api/Laws.antt =====
-- The token of the scripts' requests.
use easyclaw.Base.{
  ◌≡◌, refl, sym, ap, ◌∙◌, Bool, true, false, ◌&&◌, Option, none, some, [], ◌∷◌, ◌++◌,
  if◌then◌else◌, is_empty, Text, text, text_eq, Dict, lookup, insert, Result, ok, >>=-eq-ok,
}
use easyclaw.Numbers.{Numbers}
use easyclaw.Backend.Json.{Json}
use easyclaw.Backend.Uri.{Env}
use easyclaw.Backend.Session.{Codec}
use easyclaw.Backend.Request.{HttpRequest, content_type}
use easyclaw.Skill.Api.{ApiOptions, auth_token, bearer, build_api_request}

abbrev pub authorization : Text → Option Text
authorization token = if is_empty token then none else some (text "Bearer " ++ token)

module _ (n : Numbers) (codec : Codec n) where
  open n use {Num}

  ok_eq : {a b : Dict Text} → ok a ≡ ok b → a ≡ b
  ok_eq e = cc

  no_need : (b : Bool) → (b && false) ≡ false
  no_need true = refl
  no_need false = refl

  bearer_header :
      (token : Text) (require_auth : Bool) (body : Option (Json Num)) (headers : Dict Text)
      → bearer n codec token require_auth ≡ ok headers
      → (lookup (text "Authorization") (content_type n codec body headers) ≡ authorization token)
        × ((require_auth && is_empty token) ≡ false)
  unfolding bearer lookup insert text_eq text
  bearer_header [] true body headers e = cc
  bearer_header [] false none headers e = (rw (← ok_eq e) refl, refl)
  bearer_header [] false (some b) headers e = (rw (← ok_eq e) refl, refl)
  bearer_header (t ∷ ts) require_auth none headers e = (rw (← ok_eq e) refl, no_need require_auth)
  bearer_header (t ∷ ts) require_auth (some b) headers e =
      (rw (← ok_eq e) refl, no_need require_auth)

  headers_eq :
      (r q : HttpRequest Num)
      → ◌≡◌ {A = Result (HttpRequest Num)} (ok r) (ok q)
      → r.headers ≡ q.headers
  headers_eq r q e = cc

  -- A request that is built bears the token that `authToken` finds, and no `Authorization` where that is
  -- empty; where a token is required it is not empty.
  pub build_api_request-authorized :
      (env : Env) (path : Text) (options : ApiOptions Num) {r : HttpRequest Num}
      → build_api_request n codec env path options ≡ ok r
      → (lookup (text "Authorization") r.headers ≡ authorization (auth_token env options.token))
        × ((options.require_auth && is_empty (auth_token env options.token)) ≡ false)
  unfolding build_api_request
  build_api_request-authorized env path options {r} e =
      let (headers, built, k) =
        >>=-eq-ok (bearer n codec (auth_token env options.token) options.require_auth) _ e in
      let (named, needed) =
        bearer_header (auth_token env options.token) options.require_auth options.body headers
          built in
      (ap (lookup (text "Authorization")) (sym (headers_eq _ r k)) ∙ named, needed)
