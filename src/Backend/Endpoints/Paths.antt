-- ===== src/Backend/Endpoints/Paths.antt =====
-- About the characters in the paths of the calls of backend.ts.
use easyclaw.Base.{
  ℕ, ◌<◌, ◌≡◌, refl, subst, Bool, true, ◌||◌, none, List, [], ◌∷◌, ◌++◌, arith, ◌==◌, all, All,
  All-append, Text, text, Result, ok, err, ◌>>=◌,
}
use easyclaw.Backend.Uri.{is_unreserved, encode_uri_component}
use easyclaw.Backend.Uri.Laws.{IsSafe, encode_uri_component-IsSafe}
use easyclaw.Backend.Request.{Options, delete}
use easyclaw.Backend.Endpoints.{Endpoint, Target, changing, with_id, target_of}

-- A segment's character, or the slash between segments: no `?`, no `#` and no white space.
abbrev pub in_path : ℕ → Bool
in_path c = (is_unreserved c || c == b'%') || c == b'/'

abbrev pub InPath : ℕ → Type 0
InPath c = in_path c ≡ true

abbrev pub IsPath : Text → Type 0
IsPath s = All InPath s

-- The ids that a call puts into its path.
abbrev pub ids_of : {N : Type 0} → Endpoint N → List Text
ids_of (Endpoint.get_agent id) = id ∷ []
ids_of (Endpoint.get_agent_binding id) = id ∷ []
ids_of (Endpoint.rebind_agent_owner id c s) = id ∷ []
ids_of (Endpoint.start_agent_session id mode) = id ∷ []
ids_of (Endpoint.stop_agent_session id session) = id ∷ session ∷ []
ids_of (Endpoint.get_agent_risk id) = id ∷ []
ids_of (Endpoint.patch_agent_risk id p) = id ∷ []
ids_of (Endpoint.get_strategy id) = id ∷ []
ids_of (Endpoint.patch_strategy id a b c) = id ∷ []
ids_of (Endpoint.publish_strategy id) = id ∷ []
ids_of (Endpoint.get_agent_portfolio id period) = id ∷ []
ids_of _ = []

-- 16-bit code units.
abbrev pub IsString : Text → Type 0
IsString s = All (λ c. c < 0x10000) s

-- Of a fixed text it can be computed.
fixed-IsPath : (s : Text) → all in_path s ≡ true → IsPath s
fixed-IsPath [] h = tt
fixed-IsPath (c ∷ s) h = ground (arith, fixed-IsPath s)

segment-IsPath : (s : Text) → IsSafe s → IsPath s
segment-IsPath [] h = tt
segment-IsPath (c ∷ s) h = (rw h.0, segment-IsPath s h.1)

join-IsPath : (s t : Text) → IsPath s → IsPath t → IsPath (s ++ t)
join-IsPath s t hs ht = All-append InPath s t hs ht

-- A target that is there has such a path.
abbrev Within : {N : Type 0} → Target N → Type 0
Within (ok (path, options)) = IsPath path
Within (err e) = Unit

encode-IsPath : (id : Text) {e : Text} → IsString id → encode_uri_component id ≡ ok e → IsPath e
encode-IsPath id {e} h made = segment-IsPath e (encode_uri_component-IsSafe id h made)

module _ {N : Type 0} where
  with_id-Within :
      (prefix id suffix : Text) (options : Options N)
      → IsPath prefix
      → IsString id
      → IsPath suffix
      → Within (with_id prefix id suffix options)
  unfolding with_id
  with_id-Within prefix id suffix options hp hid hs =
      go (encode_uri_component id) (λ e made. encode-IsPath id hid made)
    where
      go :
          (r : Result Text)
          → ((e : Text) → r ≡ ok e → IsPath e)
          → Within (r >>= λ e. ok (prefix ++ e ++ suffix, options))
      go (ok e) h = join-IsPath (prefix ++ e) suffix (join-IsPath prefix e hp (h e refl)) hs
      go (err m) h = tt

  -- Of fixed texts round the id it can be computed.
  fixed-Within :
      (prefix id suffix : Text) (options : Options N)
      → all in_path prefix ≡ true
      → IsString id
      → all in_path suffix ≡ true
      → Within (with_id prefix id suffix options)
  fixed-Within prefix id suffix options hp hid hs =
      with_id-Within prefix id suffix options (fixed-IsPath prefix hp) hid (fixed-IsPath suffix hs)

  target_of-Within : (e : Endpoint N) → All IsString (ids_of e) → Within (target_of e)
  unfolding target_of text is_unreserved
  target_of-Within Endpoint.get_system_status h = fixed-IsPath (text "/v1/system/status") refl
  target_of-Within (Endpoint.get_chart_candles m t l) h =
      fixed-IsPath (text "/v1/chart/candles") refl
  target_of-Within Endpoint.get_agents h = fixed-IsPath (text "/v1/agents") refl
  target_of-Within Endpoint.get_strategy_templates h =
      fixed-IsPath (text "/v1/strategy/templates") refl
  target_of-Within (Endpoint.get_portfolio p) h = fixed-IsPath (text "/v1/portfolio") refl
  target_of-Within (Endpoint.get_trades a b c d e) h = fixed-IsPath (text "/v1/trades") refl
  target_of-Within (Endpoint.get_leaderboard a b c) h = fixed-IsPath (text "/v1/leaderboard") refl
  target_of-Within (Endpoint.get_positions p) h = fixed-IsPath (text "/api/v1/positions") refl
  target_of-Within (Endpoint.get_orders p) h = fixed-IsPath (text "/api/v1/orders") refl
  target_of-Within (Endpoint.get_fills p) h = fixed-IsPath (text "/api/v1/fills") refl
  target_of-Within (Endpoint.get_position_history p) h =
      fixed-IsPath (text "/api/v1/position-history") refl
  target_of-Within (Endpoint.create_agent a b c) h = fixed-IsPath (text "/v1/agents") refl
  target_of-Within (Endpoint.kill_switch a) h = fixed-IsPath (text "/v1/safety/kill-switch") refl
  target_of-Within (Endpoint.create_strategy a b c d) h = fixed-IsPath (text "/v1/strategies") refl
  target_of-Within (Endpoint.refresh_auth_session t) h =
      fixed-IsPath (text "/v1/auth/session/refresh") refl
  target_of-Within (Endpoint.create_auth_challenge a b) h =
      fixed-IsPath (text "/v1/auth/challenge") refl
  target_of-Within (Endpoint.verify_auth_signature a b c) h =
      fixed-IsPath (text "/v1/auth/verify-signature") refl
  target_of-Within (Endpoint.get_agent id) h =
      fixed-Within (text "/v1/agents/") id [] _ refl h.0 refl
  target_of-Within (Endpoint.get_agent_binding id) h =
      fixed-Within (text "/v1/agents/") id (text "/owner-binding") _ refl h.0 refl
  target_of-Within (Endpoint.get_agent_risk id) h =
      fixed-Within (text "/v1/agents/") id (text "/risk") _ refl h.0 refl
  target_of-Within (Endpoint.get_strategy id) h =
      fixed-Within (text "/v1/strategies/") id [] _ refl h.0 refl
  target_of-Within (Endpoint.get_agent_portfolio id period) h =
      fixed-Within (text "/v1/portfolio/agents/") id [] _ refl h.0 refl
  target_of-Within (Endpoint.rebind_agent_owner id c s) h =
      fixed-Within (text "/v1/agents/") id (text "/owner-binding/rebind") _ refl h.0 refl
  target_of-Within (Endpoint.start_agent_session id m) h =
      fixed-Within (text "/v1/agents/") id (text "/sessions") _ refl h.0 refl
  target_of-Within (Endpoint.patch_agent_risk id p) h =
      fixed-Within (text "/v1/agents/") id (text "/risk") _ refl h.0 refl
  target_of-Within (Endpoint.patch_strategy id a b c) h =
      fixed-Within (text "/v1/strategies/") id [] _ refl h.0 refl
  target_of-Within (Endpoint.publish_strategy id) h =
      fixed-Within (text "/v1/strategies/") id (text "/publish") _ refl h.0 refl
  target_of-Within (Endpoint.stop_agent_session id session) h =
      go (encode_uri_component id) (λ e made. encode-IsPath id h.0 made)
    where
      go :
          (r : Result Text)
          → ((e : Text) → r ≡ ok e → IsPath e)
          → Within {N = N} (
              r >>= λ e.
              with_id
                (text "/v1/agents/" ++ e ++ text "/sessions/")
                session
                []
                (changing delete none))
      go (ok e) made =
          with_id-Within (text "/v1/agents/" ++ e ++ text "/sessions/") session []
            (changing delete none)
            (join-IsPath (text "/v1/agents/" ++ e) (text "/sessions/")
              (join-IsPath (text "/v1/agents/") e (fixed-IsPath (text "/v1/agents/") refl)
                (made e refl))
              (fixed-IsPath (text "/sessions/") refl))
            h.1.0 tt
      go (err m) made = tt

  -- The path of every call, whatever texts of 16-bit code units are its ids, consists of unreserved
  -- characters, percent signs and slashes: an id adds no query and no fragment.
  pub target_of-IsPath :
      (e : Endpoint N) {path : Text} {options : Options N}
      → All IsString (ids_of e)
      → target_of e ≡ ok (path, options)
      → IsPath path
  target_of-IsPath e h target = subst Within target (target_of-Within e h)
