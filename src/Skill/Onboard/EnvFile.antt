-- ===== src/Skill/Onboard/EnvFile.antt =====
-- `upsertEnvValue` of onboard.js: a value in the text of an `.env` file. The
-- pattern that the code builds of a key is modelled for keys of capital letters and underscores, which
-- stand for themselves in it; the code calls it with two such keys only.
pub mod Lines
pub mod Laws
use easyclaw.Base.{
  ℕ, Bool, true, false, not, ◌&&◌, ◌||◌, Option, none, some, List, [], ◌∷◌, ◌++◌, if◌then◌else◌,
  ◌==◌, is_empty, option_map, Text, text, starts_with,
}

-- What ends a line for `^`, `$` and `.` of a pattern.
abbrev pub is_terminator : ℕ → Bool
is_terminator c = c == 10 || c == 13 || c == 0x2028 || c == 0x2029

-- `.*`, and what comes after it
unfoldable pub line_of : Text → Text
line_of [] = []
line_of (c ∷ s) = let rest = line_of s in if is_terminator c then [] else c ∷ rest

unfoldable pub after_line : Text → Text
after_line [] = []
after_line (c ∷ s) = let rest = after_line s in if is_terminator c then c ∷ s else rest

-- A match: the text before it, the match and the text after it.
pub record Match : Type 0 where
  pub before : Text
  pub matched : Text
  pub after : Text

abbrev pub preceded : ℕ → Match → Match
preceded c m = record m { before = c ∷ m.before }

-- The first line that begins with the prefix, from a place that begins a line or not.
unfoldable pub find_from : Bool → Text → Text → Option Match
unfolding line_of after_line
find_from start prefix [] =
    if start && starts_with prefix []
    then some (record { before = []; matched = []; after = [] })
    else none
find_from start prefix (c ∷ s) =
    let later = option_map (preceded c) (find_from (is_terminator c) prefix s) in
    if start && starts_with prefix (c ∷ s)
    then some (record { before = []; matched = line_of (c ∷ s); after = after_line (c ∷ s) })
    else later

-- The replacement text of `replace`, with `$$`, `$&`, and the texts before and after the match.
unfoldable pub expand : Match → Text → Text
expand m [] = []
expand m (c ∷ []) = c ∷ []
expand m (c ∷ d ∷ s) =
    let plain = c ∷ expand m (d ∷ s) in
    let rest = expand m s in
    if not (c == b'$')
    then plain
    else if d == b'$'
    then b'$' ∷ rest
    else if d == b'&'
    then m.matched ++ rest
    else if d == 96
    then m.before ++ rest
    else if d == 39
    then m.after ++ rest
    else plain

-- `s.endsWith("\n")`
unfoldable pub ends_with_newline : Text → Bool
ends_with_newline [] = false
ends_with_newline (c ∷ []) = c == 10
ends_with_newline (c ∷ d ∷ s) = ends_with_newline (d ∷ s)

-- The source with the line in the place of what was found, or at its end.
unfoldable pub upserted : Text → Text → Option Match → Text
unfolding expand ends_with_newline
upserted source line (some m) = m.before ++ (expand m line ++ m.after)
upserted source line none =
    if not (ends_with_newline source) && not (is_empty source)
    then source ++ (10 ∷ (line ++ (10 ∷ [])))
    else source ++ (line ++ (10 ∷ []))

unfoldable pub upsert_env_value : Text → Text → Text → Text
unfolding find_from upserted
upsert_env_value source key value =
    upserted source (key ++ text "=" ++ value) (find_from true (key ++ text "=") source)
