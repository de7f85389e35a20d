-- ===== src/Skill/Args.antt =====
-- `parseArgs` of common.js. A key that an object has by itself, such as `__proto__`, is given by no
-- option of the scripts.
pub mod Laws
use easyclaw.Base.{
  ℕ, Bool, true, false, ◌||◌, Option, none, some, List, [], ◌∷◌, if◌then◌else◌, is_empty, drop,
  Text, text, starts_with, Dict, lookup, insert,
}
use easyclaw.Skill.Words.{ArgValue, flag, given}

abbrev pub is_option : Text → Bool
is_option token = starts_with (text "--") token

abbrev pub key_of : Text → Text
key_of token = drop 2 token

-- `!next || next.startsWith("--")`, of a token that is there
abbrev pub is_no_value : Text → Bool
is_no_value next = is_empty next || is_option next

-- The loop, from the tokens that are left.
unfoldable pub parse_from : List Text → Dict ArgValue → Dict ArgValue
parse_from [] args = args
parse_from (token ∷ []) args = if is_option token then insert (key_of token) flag args else args
parse_from (token ∷ next ∷ tokens) args =
    let skipped = parse_from (next ∷ tokens) args in
    let flagged = parse_from (next ∷ tokens) (insert (key_of token) flag args) in
    let valued = parse_from tokens (insert (key_of token) (given next) args) in
    if is_option token then if is_no_value next then flagged else valued else skipped

unfoldable pub parse_args : List Text → Dict ArgValue
unfolding parse_from
parse_args argv = parse_from argv []
