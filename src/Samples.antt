-- ===== src/Samples.antt =====
-- Concrete numbers for the tests: natural numbers, and none for what is no number.
pub mod Cluster
use easyclaw.Base.{
  ℕ, ◌+◌, ◌-◌, ◌*◌, Bool, true, false, Option, none, some, [], ◌∷◌, if◌then◌else◌, ◌==◌, is_digit,
  is_some, is_empty, option_bind, Text, text, show_ℕ, ◌≡◌, refl, arith,
}
use easyclaw.Numbers.{Numbers}

abbrev add_digit : ℕ → ℕ → Option ℕ
add_digit v c = if is_digit c then some (10 * v + (c - b'0')) else none

abbrev decimal_from : Option ℕ → Text → Option ℕ
decimal_from v [] = v
decimal_from v (c ∷ s) = decimal_from (option_bind v (λ x. add_digit x c)) s

abbrev positive : Option ℕ → Bool
positive none = false
positive (some v) = if v == 0 then false else true

abbrev sum : Option ℕ → Option ℕ → Option ℕ
sum none w = none
sum (some v) none = none
sum (some v) (some w) = some (v + w)

abbrev same : Option ℕ → Option ℕ → Bool
same none w = false
same (some v) none = false
same (some v) (some w) = v == w

abbrev show_decimal : Option ℕ → Text
show_decimal none = text "NaN"
show_decimal (some v) = show_ℕ v

abbrev pub naturals : Numbers
naturals = record {
  Num = Option ℕ;
  number = decimal_from (some 0);
  of_ℕ = some;
  is_finite = is_some;
  is_integer = is_some;
  is_positive = positive;
  add = sum;
  num_eq = same;
  show = show_decimal;
}

pub same-Congruent : (i j k : Option ℕ) → same i j ≡ true → same i k ≡ same j k
same-Congruent none j k h = cc
same-Congruent (some i) none k h = cc
same-Congruent (some i) (some j) none h = refl
same-Congruent (some i) (some j) (some k) h = ground arith
