-- ===== src/Wallet/Address.antt =====
-- `normalizeBase58Address`, `toBase58` and `formatWalletAddress` of wallet.tsx.
pub mod Laws
use easyclaw.Base.{
  ℕ, zero, suc, ◌-◌, Bool, true, false, ◌&&◌, ◌||◌, not, Option, none, some, ◌++◌, if◌then◌else◌,
  leb, ◌==◌, or_option, option_bind, all, length, take, drop, Text, text, text_eq, trim, is_empty,
}
use easyclaw.Wallet.Objects.{
  Value, nullish, falsy, str, other, ref, Method, missing, throws, returns_text, returns_other,
  JsObject, Store,
}

-- `[1-9A-HJ-NP-Za-km-z]`
unfoldable pub is_base58 : ℕ → Bool
is_base58 c =
    (leb b'1' c && leb c b'9')
    || (leb b'A' c && leb c b'H')
    || (leb b'J' c && leb c b'N')
    || (leb b'P' c && leb c b'Z')
    || (leb b'a' c && leb c b'k')
    || (leb b'm' c && leb c b'z')

-- `BASE58_ADDRESS_REGEX`
unfoldable pub matches_address : Text → Bool
matches_address s = leb 32 (length s) && leb (length s) 44 && all is_base58 s

unfoldable pub normalize_base58_address : Text → Option Text
normalize_base58_address value =
    let trimmed = trim value in
    if is_empty trimmed
    then none
    else if text_eq trimmed (text "[object Object]")
    then none
    else if not (matches_address trimmed)
    then none
    else some trimmed

-- A call of `toBase58()` or `toString()`, whose failures are ignored. What `toBase58` returns
-- counts only if it is a string; of `toString` a result that is no string makes `trim` throw.
unfoldable pub address_from : Method → Option Text
address_from missing = none
address_from throws = none
address_from (returns_text s) = normalize_base58_address s
address_from returns_other = none

-- `fuel` is 6 - depth: the function gives up when `depth > 5`.
unfoldable pub to_base58_from : Store → ℕ → Value → Option Text
unfolding address_from
to_base58_from h zero v = none
to_base58_from h (suc fuel) nullish = none
to_base58_from h (suc fuel) falsy = none
to_base58_from h (suc fuel) (str s) = normalize_base58_address s
to_base58_from h (suc fuel) other = none
to_base58_from h (suc fuel) (ref r) =
    or_option (option_bind (h r).address normalize_base58_address) (
      or_option (option_bind (h r).public_key (to_base58_from h fuel))
        (or_option (address_from (h r).to_base58) (address_from (h r).to_string)))

unfoldable pub to_base58 : Store → Value → Option Text
to_base58 h v = to_base58_from h 6 v

-- `formatWalletAddress`
unfoldable pub format_wallet_address : Text → Text
format_wallet_address address =
    if leb (length address) 12
    then address
    else take 6 address ++ text "..." ++ drop (length address - 4) address
