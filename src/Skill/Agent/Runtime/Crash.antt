-- ===== src/Skill/Agent/Runtime/Crash.antt =====
-- Signals whose numbers cannot be read.
use easyclaw.Base.{ℕ, ◌≡◌, true, false, some, List, ◌∷◌, ◌++◌, is_blank, Text, text, err}
use easyclaw.Numbers.{Numbers}
use easyclaw.Backend.Json.{Json, Fields, get_field, string_of}
use easyclaw.Scripts.Rpc.{for_each, ◌>>◌}
use easyclaw.Skill.Agent.Values.{Floats, finite_number, to_number, number_of}
use easyclaw.Skill.Agent.Config.{Config}
use easyclaw.Skill.Agent.Signals.{signal_items_from_envelope, signal_fields}
use easyclaw.Skill.Agent.Runtime.{Runtime, applied, read_signal, take_signal, on_message}

module _ (n : Numbers) (m : Floats n) (c : Config n.Num) where
  open n use {Num, number, is_finite, of_ℕ}

  to_number_malformed :
      (t : Text) (fallback : Num)
      → is_blank t ≡ false
      → is_finite (number t) ≡ false
      → to_number n (some (Json.str t)) fallback
        ≡ err (text "Invalid " ++ text "numeric" ++ text " value: " ++ t)
  unfolding to_number finite_number number_of string_of
  to_number_malformed t fallback there bad = rw (there, bad)

  read_signal_malformed :
      (now : ℕ) (fs : Fields Num) (t : Text)
      → get_field (text "confidence") fs ≡ some (Json.str t)
      → is_blank t ≡ false
      → is_finite (number t) ≡ false
      → read_signal n m c now (Json.obj fs)
        ≡ err (text "Invalid " ++ text "numeric" ++ text " value: " ++ t)
  unfolding read_signal signal_fields
  read_signal_malformed now fs t e there bad = rw (e, to_number_malformed t (of_ℕ 0) there bad)

  -- A message whose first signal has a confidence that is a text of no number ends the agent, whatever
  -- the signal's side and agent and the filters.
  pub on_message_malformed :
      (envelope : Json Num) (now : ℕ) (s : Runtime Num) (fs : Fields Num) (rest : List (Json Num))
      (t : Text)
      → signal_items_from_envelope n envelope ≡ Json.obj fs ∷ rest
      → get_field (text "confidence") fs ≡ some (Json.str t)
      → is_blank t ≡ false
      → is_finite (number t) ≡ false
      → on_message n m c (some envelope) now s ≡ record s { crashed = true }
  unfolding on_message take_signal applied for_each ◌>>◌
  on_message_malformed envelope now s fs rest t items e there bad =
      rw (items, read_signal_malformed now fs t e there bad)
