-- ===== src/Backend/Socket.antt =====
-- `createChannelSocket` of backend.ts: the listeners of one WebSocket and the function that closes it.
-- What the page's callbacks do is not part of the client; the messages that they get are recorded.
use easyclaw.Base.{
  Bool, true, false, Option, none, some, List, [], ◌∷◌, ◌++◌, if◌then◌else◌, map, Text, text,
}
use easyclaw.Numbers.{Numbers}
use easyclaw.Backend.Json.{Json, str, obj, end, field}
use easyclaw.Backend.Session.{Codec}

-- `WebSocket.readyState`
pub data ReadyState : Type 0 where
  pending ready leaving gone : ReadyState

-- What the page's callbacks were called with.
pub data Notice (N : Type 0) : Type 0 where
  opened : Notice N
  message : Json N → Notice N
  failed : Notice N

pub record Socket (N : Type 0) : Type 0 where
  pub state : ReadyState
  pub sent : List Text
  pub notices : List (Notice N)

module _ (n : Numbers) (codec : Codec n) where
  open n use {Num}

  unfoldable pub new_socket : Socket Num
  new_socket = record { state = pending; sent = []; notices = [] }

  unfoldable pub subscribe_message : Text → Text
  subscribe_message channel = codec.stringify (
      obj (field (text "type") (str (text "subscribe")) (field (text "channel") (str channel) end)))

  -- `socket.onopen`
  unfoldable pub on_open : List Text → Socket Num → Socket Num
  unfolding subscribe_message
  on_open channels s = record s {
    state = ready;
    sent = s.sent ++ map subscribe_message channels;
    notices = s.notices ++ opened ∷ [];
  }

  abbrev pub told : Option (Json Num) → List (Notice Num)
  told none = []
  told (some v) = message v ∷ []

  -- `socket.onmessage`: what is no JSON is ignored.
  unfoldable pub on_message : Text → Socket Num → Socket Num
  on_message raw s = record s { notices = s.notices ++ told (codec.parse raw) }

  -- `socket.onerror`
  unfoldable pub on_error : Socket Num → Socket Num
  on_error s = record s { notices = s.notices ++ failed ∷ [] }

  abbrev pub is_open_or_connecting : ReadyState → Bool
  is_open_or_connecting pending = true
  is_open_or_connecting ready = true
  is_open_or_connecting leaving = false
  is_open_or_connecting gone = false

  -- The function that `createChannelSocket` returns.
  unfoldable pub close_socket : Socket Num → Socket Num
  close_socket s = if is_open_or_connecting s.state then record s { state = leaving } else s
