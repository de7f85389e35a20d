-- ===== src/Skill/Agent/Values.antt =====
-- Values of parsed JSON and of options as texts, numbers and Booleans: `toBool`, `toNumber`, `toInt`.
-- An object that brings its own `toString` is not modelled.
use easyclaw.Base.{
  ℕ, Bool, true, false, not, ◌||◌, Option, none, some, List, [], ◌∷◌, ◌++◌, if◌then◌else◌, is_empty,
  or_else, option_map, Text, text, text_eq, trim, is_blank, to_lower, Result, ok, err, ◌>>=◌,
}
use easyclaw.Numbers.{Numbers}
use easyclaw.Backend.Json.{Json, string_of}
use easyclaw.Skill.Words.{ArgValue, flag, given}

-- What else is used of the language's numbers.
pub record Floats (n : Numbers) : Type 0 where
  -- `Math.floor(v)`
  pub floor : n.Num → n.Num
  -- `v < w`
  pub less : n.Num → n.Num → Bool
  -- `Math.max(0, v)` of a finite integer
  pub to_ℕ : n.Num → ℕ

module _ (n : Numbers) where
  open n use {Num, number, of_ℕ, is_finite, num_eq}

  -- Whether a value counts as true. No number of a JSON text is NaN.
  abbrev pub is_truthy : Json Num → Bool
  is_truthy Json.null = false
  is_truthy (Json.bool b) = b
  is_truthy (Json.num v) = not (num_eq v (of_ℕ 0))
  is_truthy (Json.str s) = not (is_empty s)
  is_truthy _ = true

  -- `a || b || …`
  abbrev pub first_truthy : List (Option (Json Num)) → Option (Json Num)
  first_truthy [] = none
  first_truthy (none ∷ vs) = first_truthy vs
  first_truthy (some v ∷ vs) = let rest = first_truthy vs in if is_truthy v then some v else rest

  -- `String(value || "")`
  unfoldable pub text_or_empty : Option (Json Num) → Text
  unfolding string_of
  text_or_empty value = or_else (option_map (string_of n) (first_truthy (value ∷ []))) []

  -- `Number(value)`
  unfoldable pub number_of : Json Num → Num
  unfolding string_of
  number_of (Json.num v) = v
  number_of (Json.bool b) = of_ℕ (if b then 1 else 0)
  number_of Json.null = of_ℕ 0
  number_of (Json.str s) = number s
  number_of (Json.arr xs) = number (string_of n (Json.arr xs))
  number_of (Json.obj fs) = number (text "[object Object]")

  -- `value === undefined || value === null || String(value).trim() === ""`
  abbrev pub given_value : Option (Json Num) → Option (Json Num)
  given_value none = none
  given_value (some Json.null) = none
  given_value (some v) = if is_blank (string_of n v) then none else some v

  -- The number of a value that is given, if it is finite.
  unfoldable pub finite_number : Text → Option (Json Num) → Num → Result Num
  unfolding number_of string_of
  finite_number kind none fallback = ok fallback
  finite_number kind (some v) fallback =
      if is_finite (number_of v)
      then ok (number_of v)
      else err (text "Invalid " ++ kind ++ text " value: " ++ string_of n v)

  unfoldable pub to_number : Option (Json Num) → Num → Result Num
  unfolding finite_number string_of
  to_number value fallback = finite_number (text "numeric") (given_value value) fallback

  module _ (m : Floats n) where
    open m use {floor}

    -- The whole part of the number, or the fallback.
    unfoldable pub floored : Option (Json Num) → Num → Result Num
    unfolding finite_number
    floored none fallback = ok fallback
    floored (some v) fallback =
        finite_number (text "integer") (some v) fallback >>= λ parsed. ok (floor parsed)

    unfoldable pub to_int : Option (Json Num) → Num → Result Num
    unfolding floored string_of
    to_int value fallback = floored (given_value value) fallback

  -- An option's value, as a value of the language.
  abbrev pub arg_json : ArgValue → Json Num
  arg_json flag = Json.bool true
  arg_json (given s) = Json.str s

unfoldable pub to_bool : Option ArgValue → Bool
to_bool none = false
to_bool (some flag) = true
to_bool (some (given s)) =
    let normalized = to_lower (trim s) in
    text_eq normalized (text "1")
    || text_eq normalized (text "true")
    || text_eq normalized (text "yes")
