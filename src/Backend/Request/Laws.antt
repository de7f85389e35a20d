-- ===== src/Backend/Request/Laws.antt =====
-- What a request carries, and what a result means.
use easyclaw.Base.{
  ◌≤◌, ◌≡◌, refl, ◌∙◌, ◌≢◌, true, false, Bool-cases, inl, inr, Option, none, some, List, [], ◌∷◌,
  ◌++◌, arith, if◌then◌else◌, or_option, is_blank, Text, text, text_eq, text_eq_refl, Dict, lookup,
  insert, lookup-insert, Result, ok, err, ◌>>=◌, >>=-eq-ok,
}
use easyclaw.Numbers.{Numbers}
use easyclaw.Backend.Json.{Json}
use easyclaw.Backend.Uri.{Env}
use easyclaw.Backend.Session.{Codec, Storage, get_session_token}
use easyclaw.Backend.Request.{
  QueryValue, absent, txt, number, Options, HttpRequest, HttpResponse, query_text, set_param,
  search_params, assemble, accept_json, auth_headers, content_type, build_request, parse_payload,
  read_response, request,
}

module _ (n : Numbers) (codec : Codec n) where
  open n use {Num}

  -- A value that is neither missing nor blank takes the place of the one before.
  abbrev pub chosen : Option Text → Option Text → Option Text
  chosen none before = before
  chosen (some s) before = if is_blank s then before else some s

  abbrev pub Bears : Text → Dict Text → Type 0
  Bears t headers = lookup (text "Authorization") headers ≡ some (text "Bearer " ++ t)

  auth_headers-Bears :
      (o : Option Text) (d : Dict Text) {headers : Dict Text}
      → auth_headers n codec true o d ≡ ok headers
      → (t : Text) × (t ≢ []) × Bears t headers
  unfolding auth_headers
  auth_headers-Bears none d e = cc
  auth_headers-Bears (some []) d e = cc
  auth_headers-Bears (some (c ∷ t)) d {headers} e =
      let same : insert (text "Authorization") (text "Bearer " ++ c ∷ t) d ≡ headers =
        ground arith in
      (
        c ∷ t,
        (λ h. cc),
        rw (
          ← same,
          lookup-insert (text "Authorization") (text "Authorization"),
          text_eq_refl (text "Authorization"),
        ),
      )

  headers_apart : text_eq (text "Content-Type") (text "Authorization") ≡ false
  unfolding text text_eq
  headers_apart = refl

  content_type-Bears :
      (body : Option (Json Num)) (t : Text) (d : Dict Text)
      → Bears t d
      → Bears t (content_type n codec body d)
  content_type-Bears none t d h = h
  content_type-Bears (some b) t d h =
      rw
        (
          lookup-insert (text "Content-Type") (text "Authorization") (text "application/json") d,
          headers_apart,
        )
        h

  -- A request that asks for authorization and is built carries a bearer token that is not empty.
  pub build_request-Bears :
      (env : Env) (storage : Storage) (path : Text) (options : Options Num) {r : HttpRequest Num}
      → options.auth ≡ true
      → build_request n codec env storage path options ≡ ok r
      → (t : Text) × (t ≢ []) × Bears t r.headers
  unfolding build_request
  build_request-Bears env storage path options {r} auth e =
      let token = or_option options.token (get_session_token n codec env storage) in
      let (headers, made, rest) =
        >>=-eq-ok (auth_headers n codec options.auth token (accept_json n codec))
          (λ hs. ok (assemble n codec env path options hs)) e in
      let (t, filled, bears) =
        auth_headers-Bears token (accept_json n codec) {headers = headers} (rw auth at made) in
      let same : assemble n codec env path options headers ≡ r = ground arith in
      (t, filled, rw (← same) (content_type-Bears options.body t headers bears))

  -- A request that asks for authorization when there is no token fails with one message, whatever
  -- the network would have answered: nothing is sent.
  pub request_no_token :
      (fetch : HttpRequest Num → Result HttpResponse) (env : Env) (storage : Storage) (path : Text)
      (options : Options Num)
      → options.auth ≡ true
      → or_option options.token (get_session_token n codec env storage) ≡ none
      → request n codec fetch env storage path options
        ≡ err (text "Session token is required for this request.")
  unfolding request auth_headers
  request_no_token fetch env storage path options auth missing =
      rw (request, build_request, missing, auth_headers, auth)

  -- The text that a value stands for: none where it is missing.
  abbrev pub shown : QueryValue Num → Option Text
  shown absent = none
  shown (txt s) = some s
  shown (number v) = some (n.show v)

  query_text_shown : (v : QueryValue Num) → query_text n codec v ≡ shown v
  unfolding query_text
  query_text_shown absent = refl
  query_text_shown (txt s) = refl
  query_text_shown (number v) = refl

  -- The last value given for a key that is not blank, or what was there before.
  abbrev pub last_value : Text → List (Text × QueryValue Num) → Option Text → Option Text
  last_value k [] before = before
  last_value k ((j, v) ∷ query) before =
      last_value k query (if text_eq j k then chosen (shown v) before else before)

  lookup-set_param :
      (k j : Text) (o : Option Text) (d : Dict Text)
      → lookup k (set_param n codec j o d)
        ≡ (if text_eq j k then chosen o (lookup k d) else lookup k d)
  lookup-set_param k j none d = ground arith
  lookup-set_param k j (some s) d = elim (Bool-cases (is_blank s)) [
    | inl blank ↦ rw blank (ground arith)
    | inr filled ↦ rw (filled, lookup-insert j k s d)
  ]

  lookup-search_params :
      (k : Text) (query : List (Text × QueryValue Num)) (d : Dict Text)
      → lookup k (search_params n codec query d) ≡ last_value k query (lookup k d)
  unfolding search_params
  lookup-search_params k [] d = refl
  lookup-search_params k ((j, v) ∷ query) d = rw (
    lookup-search_params k query (set_param n codec j (query_text n codec v) d),
    lookup-set_param k j (query_text n codec v) d,
    query_text_shown v,
  )

  -- The search parameters of a request that is built are the given ones, missing and blank values
  -- left out: under every key stands the last value for it that is not blank.
  pub build_request-params :
      (env : Env) (storage : Storage) (path k : Text) (options : Options Num) {r : HttpRequest Num}
      → build_request n codec env storage path options ≡ ok r
      → lookup k r.params ≡ last_value k options.query none
  unfolding build_request
  build_request-params env storage path k options {r} e =
      let token = or_option options.token (get_session_token n codec env storage) in
      let (headers, made, rest) =
        >>=-eq-ok (auth_headers n codec options.auth token (accept_json n codec))
          (λ hs. ok (assemble n codec env path options hs)) e in
      let same : assemble n codec env path options headers ≡ r = ground arith in
      rw (← same) (lookup-search_params k options.query [] ∙ unfold lookup in refl)

  -- `request` returns a value only when the request was built and the network answered it with a
  -- status from 200 to 299; the value is then the response's payload.
  pub request-eq-ok :
      (fetch : HttpRequest Num → Result HttpResponse) (env : Env) (storage : Storage) (path : Text)
      (options : Options Num) {v : Json Num}
      → request n codec fetch env storage path options ≡ ok v
      → (r : HttpRequest Num) × (response : HttpResponse) × (build_request n codec env storage path
            options
          ≡ ok r)
        × (fetch r ≡ ok response)
        × (200 ≤ response.status)
        × (response.status ≤ 299)
        × (parse_payload n codec response.content ≡ v)
  unfolding request
  request-eq-ok fetch env storage path options {v} e =
      let (r, built, sent) =
        >>=-eq-ok (build_request n codec env storage path options)
          (λ q. fetch q >>= λ a. read_response n codec a) e in
      let (response, answered, read) = >>=-eq-ok (fetch r) (λ a. read_response n codec a) sent in
      let (low, high, value) = accepted response read in
      (r, response, built, answered, low, high, value)
    where
      accepted :
          (a : HttpResponse)
          → read_response n codec a ≡ ok v
          → (200 ≤ a.status) × (a.status ≤ 299) × (parse_payload n codec a.content ≡ v)
      accepted a h = ground arith
