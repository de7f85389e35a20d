-- ===== src/Scripts/Env.antt =====
-- Reading the environment: `getEnvNumber` (the same in faucet.ts and bootstrap.ts, and
-- `readEnvNumber` of qa_workflow.ts), the stricter one of fund_lp.ts, `getEnvBoolean`, the key
-- readers of bootstrap.ts, faucet.ts, qa_workflow.ts and fund_lp.ts, and `parseKeepers`.
use easyclaw.Base.{
  ℕ, ◌+◌, ◌-◌, ◌*◌, Bool, true, false, ◌&&◌, ◌||◌, not, Option, none, some, List, [], ◌∷◌, ◌++◌,
  map, if◌then◌else◌, ◌==◌, leb, Text, text, text_eq, trim, is_blank, is_empty, split, any, all,
  filter, length, drop, starts_with, to_lower, Result, ok, err, ◌>>=◌, traverse, is_digit, or_throw,
}
use easyclaw.Scripts.Platform.{Numbers, Web3}

-- `process.env`
abbrev pub Env : Type 0
Env = Text → Option Text

-- `!raw || raw.trim().length === 0`
unfoldable pub is_unset : Option Text → Bool
is_unset none = true
is_unset (some raw) = is_blank raw

module _ (n : Numbers) where
  open n use {Num, number, of_ℕ, is_finite, is_positive}

  read_number : (Num → Bool) → Text → Text → Num → Text → Result Num
  read_number accepts prefix name fallback raw =
      if is_blank raw
      then ok fallback
      else if accepts (number raw)
      then ok (number raw)
      else err (prefix ++ name ++ text ": " ++ raw)

  unfoldable pub get_env_number : Env → Text → Num → Result Num
  unfolding read_number
  get_env_number env name fallback = elim (env name) [
    | none ↦ ok fallback
    | some raw ↦ read_number is_finite (text "Invalid numeric env ") name fallback raw
  ]

  -- `readEnvNumber` of fund_lp.ts, which refuses zero and negative amounts too.
  unfoldable pub read_positive_number : Env → Text → Num → Result Num
  unfolding read_number
  read_positive_number env name fallback = elim (env name) [
    | none ↦ ok fallback
    | some raw ↦
        read_number (λ v. is_finite v && is_positive v) (text "Invalid numeric env ") name fallback
          raw
  ]

abbrev true_words : List Text
true_words = text "1" ∷ text "true" ∷ text "yes" ∷ text "on" ∷ []

abbrev false_words : List Text
false_words = text "0" ∷ text "false" ∷ text "no" ∷ text "off" ∷ []

-- Only ASCII letters are lowered: no other code unit becomes a letter of the words.
unfoldable pub read_boolean : Text → Bool → Text → Result Bool
read_boolean name fallback raw =
    let normalized = to_lower (trim raw) in
    if is_blank raw
    then ok fallback
    else if any (text_eq normalized) true_words
    then ok true
    else if any (text_eq normalized) false_words
    then ok false
    else err (text "Invalid boolean env " ++ name ++ text ": " ++ raw)

unfoldable pub get_env_boolean : Env → Text → Bool → Result Bool
unfolding read_boolean
get_env_boolean env name fallback = elim (env name) [
  | none ↦ ok fallback
  | some raw ↦ read_boolean name fallback raw
]

abbrev pub is_hex : ℕ → Bool
is_hex c = is_digit c || (leb b'a' c && leb c b'f') || (leb b'A' c && leb c b'F')

-- `/^0x[0-9a-fA-F]{64}$/.test(s)`
unfoldable pub is_hex_key : Text → Bool
is_hex_key s = starts_with (text "0x") s && length (drop 2 s) == 64 && all is_hex (drop 2 s)

abbrev pub hex_value : ℕ → ℕ
hex_value c = if is_digit c then c - b'0' else if leb b'a' c then c - b'a' + 10 else c - b'A' + 10

-- `Buffer.from(s, "hex")` of hexadecimal digits
unfoldable pub hex_bytes : Text → List ℕ
hex_bytes [] = []
hex_bytes (c ∷ []) = []
hex_bytes (c ∷ d ∷ s) = (16 * hex_value c + hex_value d) ∷ hex_bytes s

-- The items of a list between commas, trimmed, the empty ones left out.
unfoldable pub list_items : Text → List Text
list_items raw = filter (λ item. not (is_empty item)) (map trim (split b',' raw))

module _ (n : Numbers) (w : Web3 n) where
  open w use {Key, public_key, public_key_bytes}

  -- `toPublicKey`
  unfoldable pub to_public_key : Text → Result Key
  to_public_key value = public_key (trim value)

  unfoldable pub parse_pubkey_value : Text → Text → Bool → Result Key
  unfolding to_public_key
  parse_pubkey_value name raw allow_hex =
      let normalized = trim raw in
      let hint = if allow_hex then text "base58 or 0x + 64 hex chars" else text "base58" in
      if is_empty normalized
      then err (text "Empty pubkey env: " ++ name)
      else elim (to_public_key normalized) [
        | ok k ↦ ok k
        | err _ ↦
            if allow_hex && is_hex_key normalized
            then ok (public_key_bytes (hex_bytes (drop 2 normalized)))
            else err (
                text "Invalid pubkey env "
                ++ name
                ++ text ": "
                ++ raw
                ++ text " (expected "
                ++ hint
                ++ text ")")
      ]

  -- The `catch` of `getEnvPubkey`.
  caught_as_null : Bool → Result Key → Result (Option Key)
  caught_as_null invalid_as_null (ok k) = ok (some k)
  caught_as_null invalid_as_null (err e) = if invalid_as_null then ok none else err e

  -- The arguments `allow_hex` and `invalid_as_null` are the options, absent ones being false.
  unfoldable pub get_env_pubkey : Env → Text → Bool → Bool → Result (Option Key)
  unfolding parse_pubkey_value caught_as_null is_unset
  get_env_pubkey env name allow_hex invalid_as_null = elim (env name) [
    | none ↦ ok none
    | some raw ↦
        if is_blank raw
        then ok none
        else caught_as_null invalid_as_null (parse_pubkey_value name raw allow_hex)
  ]

  unfoldable pub get_required_env_pubkey : Env → Text → Result Key
  unfolding get_env_pubkey
  get_required_env_pubkey env name = do
    value ← get_env_pubkey env name false false
    or_throw value (text "Missing required env: " ++ name)

  abbrev keepers_or : Key → List Key → List Key
  keepers_or default_keeper [] = default_keeper ∷ []
  keepers_or default_keeper (k ∷ ks) = k ∷ ks

  unfoldable pub parse_keepers : Env → Key → Result (List Key)
  unfolding list_items to_public_key
  parse_keepers env default_keeper = elim (env (text "KEEPERS")) [
    | none ↦ ok (default_keeper ∷ [])
    | some raw ↦ if is_blank raw then ok (default_keeper ∷ []) else do
      keepers ← traverse to_public_key (list_items (trim raw))
      ok (keepers_or default_keeper keepers)
  ]
