-- ===== src/Skill/Words.antt =====
-- The numbers of common.js: `usageNumberToBigInt`, `u64Le`, `i64Le` and their readers. A `bigint` is
-- an integer of any size.
pub mod Laws
use easyclaw.Base.{
  ℕ, zero, suc, ◌+◌, ◌-◌, ◌*◌, ◌/◌, ◌%◌, Bool, true, false, ◌&&◌, not, List, [], ◌∷◌, ◌++◌,
  if◌then◌else◌, leb, ltb, ◌==◌, all, drop, take, is_empty, is_digit, Text, text, trim, show_ℕ,
  Result, ok, err, ◌>>=◌,
}
use easyclaw.Bytes.{le_bytes, from_le}

-- `negsuc n` is -(n + 1).
pub data ℤ : Type 0 where
  pos : ℕ → ℤ
  negsuc : ℕ → ℤ

-- `BigInt(raw)` of decimal digits
unfoldable pub decimal_from : ℕ → Text → ℕ
decimal_from v [] = v
decimal_from v (c ∷ s) = decimal_from (10 * v + (c - b'0')) s

-- `/^\d+$/.test(raw)`
abbrev pub is_decimal : Text → Bool
is_decimal raw = not (is_empty raw) && all is_digit raw

-- The value of an option is a text, or `true` where none was given.
pub data ArgValue : Type 0 where
  flag : ArgValue
  given : Text → ArgValue

-- `String(value)`
abbrev pub arg_text : ArgValue → Text
arg_text flag = text "true"
arg_text (given s) = s

unfoldable pub usage_number : Text → ArgValue → Result ℕ
unfolding decimal_from
usage_number name value =
    let raw = trim (arg_text value) in
    if is_decimal raw
    then ok (decimal_from 0 raw)
    else err (text "Invalid numeric value for " ++ name ++ text ": " ++ arg_text value)

-- `${value}` of a bigint
abbrev pub show_ℤ : ℤ → Text
show_ℤ (pos n) = show_ℕ n
show_ℤ (negsuc n) = b'-' ∷ show_ℕ (n + 1)

-- `u64Le` and `i64Le` of a bigint; the callers pass no other value.
unfoldable pub u64_le : ℤ → Result (List ℕ)
u64_le (pos n) =
    if leb n 18446744073709551615
    then ok (le_bytes 8 n)
    else err (text "u64 out of range: " ++ show_ℤ (pos n))
u64_le (negsuc n) = err (text "u64 out of range: " ++ show_ℤ (negsuc n))

-- The two's complement of a negative number is written.
unfoldable pub i64_le : ℤ → Result (List ℕ)
i64_le (pos n) =
    if leb n 9223372036854775807
    then ok (le_bytes 8 n)
    else err (text "i64 out of range: " ++ show_ℤ (pos n))
i64_le (negsuc n) =
    if leb n 9223372036854775807
    then ok (le_bytes 8 (18446744073709551615 - n))
    else err (text "i64 out of range: " ++ show_ℤ (negsuc n))

-- `data.subarray(offset, offset + size)`
abbrev pub slice : List ℕ → ℕ → ℕ → List ℕ
slice bytes offset size = take size (drop offset bytes)

-- `data.readBigUInt64LE(offset)`; the callers have checked that the eight bytes are there.
unfoldable pub read_u64_le : List ℕ → ℕ → ℕ
read_u64_le bytes offset = from_le (slice bytes offset 8)

unfoldable pub signed : ℕ → ℤ
signed u = if ltb u 9223372036854775808 then pos u else negsuc (18446744073709551615 - u)

unfoldable pub read_i64_le : List ℕ → ℕ → ℤ
unfolding read_u64_le
read_i64_le bytes offset = signed (read_u64_le bytes offset)

-- `data.readUInt8(offset)`, of a byte that is there
abbrev pub first_or_zero : List ℕ → ℕ
first_or_zero [] = 0
first_or_zero (b ∷ bs) = b

unfoldable pub read_u8 : List ℕ → ℕ → ℕ
read_u8 bytes offset = first_or_zero (drop offset bytes)
