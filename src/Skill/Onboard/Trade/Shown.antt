-- ===== src/Skill/Onboard/Trade/Shown.antt =====
-- Options that are numbers, as the agent reads them.
use easyclaw.Base.{ℕ, ◌≡◌, true, false, none, some, Text, Dict, lookup, is_blank, ok}
use easyclaw.Numbers.{Numbers}
use easyclaw.Backend.Json.{str}
use easyclaw.Skill.Words.{ArgValue, given}
use easyclaw.Skill.Args.{is_no_value}
use easyclaw.Skill.Agent.Values.{Floats, number_of, to_number, floored, to_int, finite_number}
use easyclaw.Skill.Agent.Config.{int_option, number_option}

module _ (n : Numbers) (m : Floats n) where
  open n use {Num, number, of_ℕ, is_finite, show}
  open m use {floor, to_ℕ}

  -- A finite number that is read back from its text, which is no option.
  pub record IsShown (v : Num) : Type 0 where
    pub back : number (show v) ≡ v
    pub finite : is_finite v ≡ true
    pub shown : is_blank (show v) ≡ false
    pub no_option : is_no_value (show v) ≡ false

  pub number_given :
      (name : Text) (d : Dict ArgValue) (v fallback : Num)
      → lookup name d ≡ some (given (show v))
      → IsShown v
      → number_option n m name d fallback ≡ ok v
  unfolding to_number finite_number number_of
  number_given name d v fallback e shown = rw (e, shown.shown, shown.back, shown.finite)

  floored_shown :
      (v fallback : Num)
      → IsShown v
      → floor v ≡ v
      → floored n m (some (str (show v))) fallback ≡ ok v
  unfolding floored finite_number number_of
  floored_shown v fallback shown whole = rw (shown.back, shown.finite, whole)

  to_int_shown :
      (v fallback : Num)
      → IsShown v
      → floor v ≡ v
      → to_int n m (some (str (show v))) fallback ≡ ok v
  unfolding to_int
  to_int_shown v fallback shown whole = rw shown.shown (floored_shown v fallback shown whole)

  pub int_given :
      (name : Text) (d : Dict ArgValue) (v : Num) (fallback : ℕ)
      → lookup name d ≡ some (given (show v))
      → IsShown v
      → floor v ≡ v
      → int_option n m name d fallback ≡ ok (to_ℕ v)
  int_given name d v fallback e shown whole = rw e (rw (to_int_shown v (of_ℕ fallback) shown whole))

  pub int_absent :
      (name : Text) (d : Dict ArgValue) (fallback : ℕ)
      → lookup name d ≡ none
      → int_option n m name d fallback ≡ ok (to_ℕ (of_ℕ fallback))
  unfolding to_int floored
  int_absent name d fallback e = rw e
