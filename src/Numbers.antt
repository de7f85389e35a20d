-- ===== src/Numbers.antt =====
-- The numbers of the language, IEEE doubles, as an interface: what the sources do with a `number` that
-- need not be a small integer.
use easyclaw.Base.{ℕ, Bool, Text}

-- Doubles. `number` is `Number(text)`; the tests are those of `Number` and of the operators.
pub record Numbers : Type 1 where
  pub Num : Type 0
  pub number : Text → Num
  pub of_ℕ : ℕ → Num
  pub is_finite : Num → Bool
  pub is_integer : Num → Bool
  pub is_positive : Num → Bool
  pub add : Num → Num → Num
  pub num_eq : Num → Num → Bool
  pub show : Num → Text
