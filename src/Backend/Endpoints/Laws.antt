-- ===== src/Backend/Endpoints/Laws.antt =====
-- Which calls need a session.
use easyclaw.Base.{
  ◌≡◌, refl, subst, ◌≢◌, ◌⊎◌, Bool, true, false, inl, inr, none, [], ◌++◌, Text, text, Result, ok,
  err, ◌>>=◌,
}
use easyclaw.Numbers.{Numbers}
use easyclaw.Backend.Uri.{Env, encode_uri_component}
use easyclaw.Backend.Session.{Codec, Storage}
use easyclaw.Backend.Request.{get, delete, Options, HttpRequest, build_request}
use easyclaw.Backend.Request.Laws.{Bears, build_request-Bears}
use easyclaw.Backend.Endpoints.{
  Endpoint, create_auth_challenge, verify_auth_signature, Target, changing, with_id, target_of,
}

module _ {N : Type 0} where
  -- The two calls that a page makes before it has a session.
  abbrev pub opens_session : Endpoint N → Bool
  opens_session (create_auth_challenge w i) = true
  opens_session (verify_auth_signature c s w) = true
  opens_session _ = false

  -- Without `auth` the call only reads, or it opens a session.
  abbrev IsGuarded : Bool → Target N → Type 0
  IsGuarded opens (err e) = Unit
  IsGuarded opens (ok (path, options)) =
      (options.auth ≡ true) ⊎ ((options.method ≡ get) ⊎ (opens ≡ true))

  with_id-IsGuarded :
      (prefix id suffix : Text) (options : Options N) (opens : Bool)
      → ((options.auth ≡ true) ⊎ ((options.method ≡ get) ⊎ (opens ≡ true)))
      → IsGuarded opens (with_id prefix id suffix options)
  unfolding with_id
  with_id-IsGuarded prefix id suffix options opens h = go (encode_uri_component id)
    where
      go : (r : Result Text) → IsGuarded opens (r >>= λ e. ok (prefix ++ e ++ suffix, options))
      go (ok e) = h
      go (err e) = tt

  target_of-IsGuarded : (e : Endpoint N) → IsGuarded (opens_session e) (target_of e)
  unfolding target_of
  target_of-IsGuarded Endpoint.get_system_status = inr (inl refl)
  target_of-IsGuarded (Endpoint.get_chart_candles m t l) = inr (inl refl)
  target_of-IsGuarded Endpoint.get_agents = inr (inl refl)
  target_of-IsGuarded Endpoint.get_strategy_templates = inr (inl refl)
  target_of-IsGuarded (Endpoint.get_portfolio p) = inr (inl refl)
  target_of-IsGuarded (Endpoint.get_trades a b c d e) = inr (inl refl)
  target_of-IsGuarded (Endpoint.get_leaderboard a b c) = inr (inl refl)
  target_of-IsGuarded (Endpoint.get_positions p) = inr (inl refl)
  target_of-IsGuarded (Endpoint.get_orders p) = inr (inl refl)
  target_of-IsGuarded (Endpoint.get_fills p) = inr (inl refl)
  target_of-IsGuarded (Endpoint.get_position_history p) = inr (inl refl)
  target_of-IsGuarded (Endpoint.create_agent a b c) = inl refl
  target_of-IsGuarded (Endpoint.kill_switch a) = inl refl
  target_of-IsGuarded (Endpoint.create_strategy a b c d) = inl refl
  target_of-IsGuarded (Endpoint.refresh_auth_session t) = inl refl
  target_of-IsGuarded (Endpoint.create_auth_challenge a b) = inr (inr refl)
  target_of-IsGuarded (Endpoint.verify_auth_signature a b c) = inr (inr refl)
  target_of-IsGuarded (Endpoint.get_agent id) = with_id-IsGuarded _ id _ _ _ (inr (inl refl))
  target_of-IsGuarded (Endpoint.get_agent_binding id) =
      with_id-IsGuarded _ id _ _ _ (inr (inl refl))
  target_of-IsGuarded (Endpoint.get_agent_risk id) = with_id-IsGuarded _ id _ _ _ (inr (inl refl))
  target_of-IsGuarded (Endpoint.get_strategy id) = with_id-IsGuarded _ id _ _ _ (inr (inl refl))
  target_of-IsGuarded (Endpoint.get_agent_portfolio id period) =
      with_id-IsGuarded _ id _ _ _ (inr (inl refl))
  target_of-IsGuarded (Endpoint.rebind_agent_owner id c s) = with_id-IsGuarded _ id _ _ _ (inl refl)
  target_of-IsGuarded (Endpoint.start_agent_session id m) = with_id-IsGuarded _ id _ _ _ (inl refl)
  target_of-IsGuarded (Endpoint.patch_agent_risk id p) = with_id-IsGuarded _ id _ _ _ (inl refl)
  target_of-IsGuarded (Endpoint.patch_strategy id a b c) = with_id-IsGuarded _ id _ _ _ (inl refl)
  target_of-IsGuarded (Endpoint.publish_strategy id) = with_id-IsGuarded _ id _ _ _ (inl refl)
  target_of-IsGuarded (Endpoint.stop_agent_session id session) = go (encode_uri_component id)
    where
      go :
          (r : Result Text)
          → IsGuarded false (
              r >>= λ e.
              with_id
                (text "/v1/agents/" ++ e ++ text "/sessions/")
                session
                []
                (changing delete none))
      go (ok e) = with_id-IsGuarded _ session [] _ false (inl refl)
      go (err m) = tt

module _ (n : Numbers) (codec : Codec n) where
  -- Every call that is no GET and that is built carries a bearer token that is not empty, but for
  -- the two that open a session: whatever the arguments, the environment and the browser's storage.
  pub target_of-Bears :
      (env : Env) (storage : Storage) (e : Endpoint n.Num) (path : Text) (options : Options n.Num)
      {r : HttpRequest n.Num}
      → target_of e ≡ ok (path, options)
      → options.method ≢ get
      → opens_session e ≡ false
      → build_request n codec env storage path options ≡ ok r
      → (t : Text) × (t ≢ []) × Bears n codec t r.headers
  target_of-Bears env storage e path options target changes known built =
      elim (subst (IsGuarded (opens_session e)) target (target_of-IsGuarded e)) [
        | inl auth ↦ build_request-Bears n codec env storage path options auth built
        | inr (inl reads) ↦ absurd (changes reads)
        | inr (inr opens) ↦ cc
      ]
