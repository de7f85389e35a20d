-- ===== src/Backend/Uri.antt =====
-- `encodeURIComponent`, and the base addresses of the client: `getApiBaseUrl` and `getWsUrl`.
pub mod Laws
use easyclaw.Base.{
  ℕ, ◌+◌, ◌-◌, ◌*◌, ◌/◌, ◌%◌, Bool, true, false, ◌&&◌, ◌||◌, Option, none, some, List, [], ◌∷◌,
  ◌++◌, if◌then◌else◌, leb, ltb, ◌==◌, any, is_upper, is_lower, is_digit, or_else, drop, length,
  Text, text, starts_with, trim, is_blank, Result, ok, err, ◌>>=◌,
}

-- The letters, the digits and `-_.!~*'()`.
abbrev pub marks : List ℕ
marks = b'-' ∷ b'_' ∷ b'.' ∷ b'!' ∷ b'~' ∷ b'*' ∷ 39 ∷ b'(' ∷ b')' ∷ []

unfoldable pub is_unreserved : ℕ → Bool
is_unreserved c = is_upper c || is_lower c || is_digit c || any (λ m. m == c) marks

unfoldable pub hex_digit : ℕ → ℕ
hex_digit d = if ltb d 10 then b'0' + d else b'A' + (d - 10)

unfoldable pub percent : ℕ → Text
percent b = b'%' ∷ hex_digit (b / 16) ∷ hex_digit (b % 16) ∷ []

-- The UTF-8 bytes of a code point, each as `%XX`.
unfoldable pub percent_utf8 : ℕ → Text
percent_utf8 c =
    if ltb c 0x80
    then percent c
    else if ltb c 0x800
    then percent (0xC0 + c / 64) ++ percent (0x80 + c % 64)
    else if ltb c 0x10000
    then percent (0xE0 + c / 4096) ++ percent (0x80 + c / 64 % 64) ++ percent (0x80 + c % 64)
    else percent (0xF0 + c / 262144)
      ++ percent (0x80 + c / 4096 % 64)
      ++ percent (0x80 + c / 64 % 64)
      ++ percent (0x80 + c % 64)

abbrev pub is_high_surrogate : ℕ → Bool
is_high_surrogate c = leb 0xD800 c && leb c 0xDBFF

abbrev pub is_low_surrogate : ℕ → Bool
is_low_surrogate c = leb 0xDC00 c && leb c 0xDFFF

unfoldable pub prepend : Text → Result Text → Result Text
prepend s (ok t) = ok (s ++ t)
prepend s (err e) = err e

unfoldable pub encode_unit : ℕ → Text
encode_unit c = if is_unreserved c then c ∷ [] else percent_utf8 c

abbrev pub malformed : Result Text
malformed = err (text "URI malformed")

-- The first argument is a high surrogate that waits for its other half; one without it is the
-- `URIError`.
unfoldable pub encode_from : Option ℕ → Text → Result Text
encode_from none [] = ok []
encode_from (some high) [] = malformed
encode_from none (c ∷ s) =
    let waiting = encode_from (some c) s in
    let plain = prepend (encode_unit c) (encode_from none s) in
    if is_low_surrogate c then malformed else if is_high_surrogate c then waiting else plain
encode_from (some high) (c ∷ s) =
    let pair =
      prepend (percent_utf8 (0x10000 + (high - 0xD800) * 1024 + (c - 0xDC00)))
        (encode_from none s) in
    if is_low_surrogate c then pair else malformed

unfoldable pub encode_uri_component : Text → Result Text
unfolding encode_from encode_unit prepend
encode_uri_component s = encode_from none s

-- `import.meta.env`
abbrev pub Env : Type 0
Env = Text → Option Text

-- `s.replace(/\/$/, "")`
unfoldable pub strip_slash : Text → Text
strip_slash [] = []
strip_slash (c ∷ []) = if c == b'/' then [] else c ∷ []
strip_slash (c ∷ d ∷ s) = c ∷ strip_slash (d ∷ s)

unfoldable pub get_api_base_url : Env → Text
unfolding strip_slash
get_api_base_url env =
    strip_slash (or_else (env (text "VITE_API_BASE_URL")) (text "http://127.0.0.1:8080"))

-- The socket's address beside the API.
unfoldable pub ws_beside : Text → Text
ws_beside base =
    if starts_with (text "https://") base
    then text "wss://" ++ drop 8 base ++ text "/ws"
    else if starts_with (text "http://") base
    then text "ws://" ++ drop 7 base ++ text "/ws"
    else base ++ text "/ws"

unfoldable pub get_ws_url : Env → Text
unfolding ws_beside
get_ws_url env = elim (env (text "VITE_WS_URL")) [
  | none ↦ ws_beside (get_api_base_url env)
  | some s ↦ if is_blank s then ws_beside (get_api_base_url env) else trim s
]
