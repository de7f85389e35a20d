-- ===== src/Skill/Plan.antt =====
-- What `main` of order-execute.js reads from the command line, before it asks anything of the
-- cluster. A test in JavaScript takes `undefined` and the empty text for false.
use easyclaw.Base.{
  ℕ, zero, suc, ◌+◌, ◌-◌, ◌*◌, ◌/◌, Bool, ◌&&◌, ◌||◌, not, Option, none, some, [], ◌∷◌, ◌++◌,
  if◌then◌else◌, ltb, ◌==◌, all, is_empty, is_digit, is_lower, lower_code, or_else, is_some, Text,
  text, text_eq, trim, to_lower, Dict, lookup, Result, ok, err, ◌>>=◌, ◌>>◌, guard, or_throw,
}
use easyclaw.Skill.Words.{
  ℤ, pos, negsuc, ArgValue, flag, given, arg_text, decimal_from, is_decimal, usage_number,
}
use easyclaw.Skill.Accounts.{OrderRequest}

-- A value that counts as true.
abbrev pub truthy : Option ArgValue → Option ArgValue
truthy none = none
truthy (some flag) = some flag
truthy (some (given s)) = if is_empty s then none else some (given s)

-- `args[name]`, where it counts as true
unfoldable pub option : Text → Dict ArgValue → Option ArgValue
option name args = truthy (lookup name args)

-- The digits that `0x`, `0o` and `0b` announce.
abbrev digit_value : ℕ → ℕ
digit_value c = if is_digit c then c - b'0' else lower_code c - 87

abbrev is_digit_of : ℕ → ℕ → Bool
is_digit_of radix c = (is_digit c || is_lower (lower_code c)) && ltb (digit_value c) radix

abbrev radix_from : ℕ → ℕ → Text → ℕ
radix_from radix v [] = v
radix_from radix v (c ∷ s) = radix_from radix (radix * v + digit_value c) s

abbrev negated : ℕ → ℤ
negated zero = pos zero
negated (suc n) = negsuc n

abbrev radix_of : ℕ → ℕ
radix_of c = if c == b'x' then 16 else if c == b'o' then 8 else if c == b'b' then 2 else 0

abbrev unsigned : Text → Option ℕ
unsigned s = if is_decimal s then some (decimal_from 0 s) else none

-- A number after `0` and a letter.
abbrev prefixed : ℕ → Text → Option ℤ
prefixed radix digits =
    if not (is_empty digits) && all (is_digit_of radix) digits
    then some (pos (radix_from radix 0 digits))
    else none

abbrev option_ℤ : (ℕ → ℤ) → Option ℕ → Option ℤ
option_ℤ f none = none
option_ℤ f (some n) = some (f n)

-- The text between the white space: nothing, or digits, with a sign or after a prefix.
unfoldable pub literal_ℤ : Text → Option ℤ
literal_ℤ [] = some (pos 0)
literal_ℤ (c ∷ []) = option_ℤ pos (unsigned (c ∷ []))
literal_ℤ (c ∷ d ∷ s) =
    let plain = option_ℤ pos (unsigned (c ∷ d ∷ s)) in
    let minus = option_ℤ negated (unsigned (d ∷ s)) in
    let plus = option_ℤ pos (unsigned (d ∷ s)) in
    let other = prefixed (radix_of (lower_code d)) s in
    if c == b'-'
    then minus
    else if c == b'+'
    then plus
    else if c == b'0' && ltb 0 (radix_of (lower_code d))
    then other
    else plain

-- `BigInt(value)` of an option's value
unfoldable pub big_int : ArgValue → Result ℤ
unfolding literal_ℤ
big_int flag = ok (pos 1)
big_int (given s) =
    or_throw (literal_ℤ (trim s)) (text "Cannot convert " ++ s ++ text " to a BigInt")

unfoldable pub side_to_index : ArgValue → Result ℕ
side_to_index value =
    let normalized = to_lower (arg_text value) in
    if text_eq normalized (text "buy")
    then ok 0
    else if text_eq normalized (text "sell")
    then ok 1
    else err (text "Invalid --side: " ++ arg_text value)

unfoldable pub type_to_index : ArgValue → Result ℕ
type_to_index value =
    let normalized = to_lower (arg_text value) in
    if text_eq normalized (text "market")
    then ok 0
    else if text_eq normalized (text "limit")
    then ok 1
    else err (text "Invalid --type: " ++ arg_text value)

unfoldable pub default_market_price : ℕ → ℕ
default_market_price side = if side == 0 then 100000000000 else 1

-- `args[name] ? usageNumberToBigInt(name, args[name]) : fallback`
abbrev pub number_or : Text → Dict ArgValue → ℕ → Result ℕ
number_or name args fallback = elim (option name args) [
  | none ↦ ok fallback
  | some value ↦ usage_number name value
]

-- `args[name] ? BigInt(args[name]) : fallback`
abbrev pub big_int_or : Text → Dict ArgValue → ℤ → Result ℤ
big_int_or name args fallback = elim (option name args) [
  | none ↦ ok fallback
  | some value ↦ big_int value
]

-- `if (!args[name]) throw …`
abbrev pub required : Text → Dict ArgValue → Result ArgValue
required name args = or_throw (option name args) (text "--" ++ name ++ text " is required")

-- What is to be done: the order, with what is set up before it.
pub record Plan : Type 0 where
  pub order : OrderRequest
  pub deposit : ℕ
  pub skip_create_position : Bool

-- `now` is `Date.now()`.
unfoldable pub read_plan : ℕ → Dict ArgValue → Result Plan
unfolding option
read_plan now args = do
  market ← required (text "market-id") args
  amount ← required (text "margin") args
  market_id ← usage_number (text "market-id") market
  side ← side_to_index (or_else (option (text "side") args) (given (text "buy")))
  order_type ← type_to_index (or_else (option (text "type") args) (given (text "market")))
  margin ← usage_number (text "margin") amount
  ttl_secs ← big_int_or (text "ttl") args (pos 300)
  client_order_id ← number_or (text "client-order-id") args (now / 1000)
  deposit ← number_or (text "deposit") args 0
  price ← number_or (text "price") args (default_market_price side)
  guard (not (order_type == 1 && price == 0)) (text "--price must be > 0 for limit orders")
  ok (record {
    order = record {
      market_id = market_id;
      side = side;
      order_type = order_type;
      reduce_only = is_some (option (text "reduce-only") args);
      margin = margin;
      price = price;
      ttl_secs = ttl_secs;
      client_order_id = client_order_id;
    };
    deposit = deposit;
    skip_create_position = is_some (option (text "skip-create-position") args);
  })
