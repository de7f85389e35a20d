-- ===== src/Backend/Session.antt =====
-- The session that the browser keeps: `getSession`, `getSessionToken`, `setSessionToken` and
-- `clearSessionToken`.
pub mod Laws
use easyclaw.Base.{
  Bool, Option, none, some, if◌then◌else◌, option_map, is_empty, Text, text, is_blank, trim, Dict,
  lookup, insert, remove,
}
use easyclaw.Numbers.{Numbers}
use easyclaw.Backend.Json.{
  Json, null, bool, num, str, arr, obj, Fields, end, field, get_field, as_text,
}
use easyclaw.Backend.Uri.{Env}

-- `JSON.parse`, which throws for what is no JSON, and `JSON.stringify`.
pub record Codec (n : Numbers) : Type 0 where
  pub parse : Text → Option (Json n.Num)
  pub stringify : Json n.Num → Text

-- `StoredSession`: the token, and the whole object that was stored.
pub record StoredSession (N : Type 0) : Type 0 where
  pub token : Text
  pub stored : Fields N

-- `window.localStorage`, or none where there is no `window`.
abbrev pub Storage : Type 0
Storage = Option (Dict Text)

abbrev pub session_key : Text
session_key = text "easyclaw_session"

module _ (n : Numbers) (codec : Codec n) where
  open n use {Num}

  -- The tests on the token of a parsed object.
  unfoldable pub with_token : Option Text → Fields Num → Option (StoredSession Num)
  with_token none fs = none
  with_token (some token) fs =
      if is_empty token then none else some (record { token = token; stored = fs })

  unfoldable pub checked_session : Option (Json Num) → Option (StoredSession Num)
  unfolding with_token
  checked_session (some (obj fs)) = with_token (as_text (get_field (text "token") fs)) fs
  checked_session _ = none

  -- The `try` block, on what the storage holds under the key.
  unfoldable pub read_session : Option Text → Option (StoredSession Num)
  unfolding checked_session
  read_session none = none
  read_session (some raw) = if is_empty raw then none else checked_session (codec.parse raw)

  unfoldable pub get_session : Storage → Option (StoredSession Num)
  get_session none = none
  get_session (some storage) = read_session (lookup session_key storage)

  unfoldable pub get_session_token : Env → Storage → Option Text
  get_session_token env storage = elim (env (text "VITE_API_TOKEN")) [
    | none ↦ option_map (λ s. s.token) (get_session storage)
    | some t ↦ if is_blank t then option_map (λ s. s.token) (get_session storage) else some (trim t)
  ]

  unfoldable pub session_fields : Text → Option Num → Fields Num
  session_fields token none = field (text "token") (str token) end
  session_fields token (some t) =
      field (text "token") (str token) (field (text "expiresAt") (num t) end)

  unfoldable pub set_session_token : Text → Option Num → Storage → Storage
  set_session_token token expires_at none = none
  set_session_token token expires_at (some storage) =
      some (insert session_key (codec.stringify (obj (session_fields token expires_at))) storage)

  unfoldable pub clear_session_token : Storage → Storage
  clear_session_token none = none
  clear_session_token (some storage) = some (remove session_key storage)
