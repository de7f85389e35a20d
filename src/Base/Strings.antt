-- ===== src/Base/Strings.antt =====
-- A JavaScript string as the list of its code units, with the string operations that the sources
-- call. `text` reads a literal; it stays shut, so that statements stay small.
use Prim.Native.Char.{code}
use Prim.Native.String.{String}
use Prim.Native.Nat.{ℕ, zero, suc, ◌+◌, ◌-◌, ◌/◌, ◌%◌}
use mathlib.Core.Path.{◌≡◌, refl, ap}
use mathlib.Core.Logic.{◌↔◌, ◌≢◌}
use mathlib.Core.Bool.{Bool, true, false, ◌&&◌, ◌||◌}
use mathlib.Core.Option.{Option, none, some}
use mathlib.Core.List.{List, [], ◌∷◌, ◌++◌, map}
use native.Mathlib.Omega.{arith}
use easyclaw.Base.Tests.{leb, ltb, ◌==◌, if◌then◌else◌}
use easyclaw.Base.Lists.{length}

abbrev pub Text : Type 0
Text = List ℕ

unfoldable pub text : String → Text
text String.[] = []
text (String.◌∷◌ c s) = code c ∷ text s

-- `a === b`
unfoldable pub text_eq : Text → Text → Bool
text_eq [] [] = true
text_eq [] (y ∷ ys) = false
text_eq (x ∷ xs) [] = false
text_eq (x ∷ xs) (y ∷ ys) = x == y && text_eq xs ys

text_eq_sound : (a b : Text) → text_eq a b ≡ true → a ≡ b
unfolding text_eq
text_eq_sound [] [] h = refl
text_eq_sound [] (y ∷ ys) h = cc
text_eq_sound (x ∷ xs) [] h = cc
text_eq_sound (x ∷ xs) (y ∷ ys) h = ground (arith, text_eq_sound xs ys)

pub text_eq_refl : (a : Text) → text_eq a a ≡ true
unfolding text_eq
text_eq_refl [] = refl
text_eq_refl (x ∷ xs) = ground (arith, text_eq_refl xs)

pub text_eq_iff : (a b : Text) → (text_eq a b ≡ true) ↔ (a ≡ b)
text_eq_iff a b = (text_eq_sound a b, λ e. rw e (text_eq_refl b))

pub text_eq_ne : (a b : Text) → a ≢ b → text_eq a b ≡ false
text_eq_ne a b h = ground (arith, text_eq_iff a b)

abbrev pub is_empty : Text → Bool
is_empty [] = true
is_empty (c ∷ s) = false

-- The white space and line terminators that `trim` removes.
unfoldable pub is_space : ℕ → Bool
is_space c =
    (leb 9 c && leb c 13)
    || c == 32
    || c == 160
    || c == 0x1680
    || (leb 0x2000 c && leb c 0x200A)
    || c == 0x2028
    || c == 0x2029
    || c == 0x202F
    || c == 0x205F
    || c == 0x3000
    || c == 0xFEFF

unfoldable pub trim_start : Text → Text
unfolding is_space
trim_start [] = []
trim_start (c ∷ s) = let rest = trim_start s in if is_space c then rest else c ∷ s

-- A list that `trim_end` has emptied stays empty; a space is kept when something follows it.
unfoldable pub trim_end : Text → Text
unfolding is_space
trim_end [] = []
trim_end (c ∷ s) = let rest = trim_end s in if is_space c && is_empty rest then [] else c ∷ rest

-- `s.trim()`
unfoldable pub trim : Text → Text
unfolding trim_start trim_end
trim s = trim_end (trim_start s)

-- `!s || s.trim().length === 0` of a string that is there
unfoldable pub is_blank : Text → Bool
unfolding trim
is_blank s = is_empty (trim s)

-- `s.startsWith(p)`
unfoldable pub starts_with : Text → Text → Bool
starts_with [] s = true
starts_with (c ∷ p) [] = false
starts_with (c ∷ p) (d ∷ s) = c == d && starts_with p s

-- `s.includes(p)`
unfoldable pub includes : Text → Text → Bool
unfolding starts_with
includes p [] = starts_with p []
includes p (c ∷ s) = starts_with p (c ∷ s) || includes p s

-- `s.split(sep)`, for a separator of one code unit
unfoldable pub split_on : ℕ → Text → Text → List Text
split_on sep cur [] = cur ∷ []
split_on sep cur (c ∷ s) =
    let closed = cur ∷ split_on sep [] s in
    let longer = split_on sep (cur ++ c ∷ []) s in if c == sep then closed else longer

unfoldable pub split : ℕ → Text → List Text
unfolding split_on
split sep s = split_on sep [] s

-- `parts.join(",")`
unfoldable pub join_comma : List Text → Text
join_comma [] = []
join_comma (p ∷ []) = p
join_comma (p ∷ q ∷ ps) = p ++ b',' ∷ join_comma (q ∷ ps)

abbrev pub is_upper : ℕ → Bool
is_upper c = leb b'A' c && leb c b'Z'

abbrev pub is_lower : ℕ → Bool
is_lower c = leb b'a' c && leb c b'z'

abbrev pub is_digit : ℕ → Bool
is_digit c = leb b'0' c && leb c b'9'

abbrev pub lower_code : ℕ → ℕ
lower_code c = if is_upper c then c + 32 else c

abbrev pub upper_code : ℕ → ℕ
upper_code c = if is_lower c then c - 32 else c

-- `toLowerCase()` and `toUpperCase()` on the ASCII letters; other code units are left as they are.
unfoldable pub to_lower : Text → Text
to_lower s = map lower_code s

unfoldable pub to_upper : Text → Text
to_upper s = map upper_code s

-- `a || b`, where an empty string counts as absent
unfoldable pub or_nonempty : Option Text → Option Text → Option Text
or_nonempty none o = o
or_nonempty (some []) o = o
or_nonempty (some (c ∷ s)) o = some (c ∷ s)

-- The decimal digits of a number, as `${n}` writes a non-negative integer.
digits_from : ℕ → ℕ → Text → Text
digits_from zero n acc = acc
digits_from (suc fuel) n acc =
    let more = digits_from fuel (n / 10) ((b'0' + n % 10) ∷ acc) in
    if ltb n 10 then (b'0' + n) ∷ acc else more

-- Fuel `n + 1` is enough: each round divides by ten.
unfoldable pub show_ℕ : ℕ → Text
unfolding digits_from
show_ℕ n = digits_from (suc n) n []

pub length-to_lower : (s : Text) → length (to_lower s) ≡ length s
unfolding to_lower
length-to_lower [] = refl
length-to_lower (c ∷ s) = ap suc (unfold to_lower in length-to_lower s)
