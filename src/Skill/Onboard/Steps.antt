-- ===== src/Skill/Onboard/Steps.antt =====
-- About the steps of the onboarding (onboard.js) before its last question.
use easyclaw.Base.{
  ◌≡◌, refl, ap, Bool, true, false, Option, none, some, List, [], ◌∷◌, ◌++◌, if◌then◌else◌, Text,
  text, Dict, Result, is_blank, trim,
}
use easyclaw.Numbers.{Numbers}
use easyclaw.Skill.Words.{ArgValue}
use easyclaw.Skill.Plan.{option}
use easyclaw.Skill.Agent.Values.{Floats}
use easyclaw.Skill.Onboard.Answers.{done, ask, ask_yes_no}
use easyclaw.Skill.Onboard.Answers.Laws.{Careful, careful_rules}
use easyclaw.Skill.Onboard.Wallets.{System, Wallet, choose_from, choose_wallet}
use easyclaw.Skill.Onboard.Trade.{
  asked_unless, ask_unsigned_integer, unsigned_integer, ask_order_type, ask_price, ask_dry_run,
  collect_trade_config,
}
use easyclaw.Skill.Onboard.{
  Strategy, prompt_lines, ask_prompt, persist_wallet_selection, capture_from,
  capture_strategy_prompt, save_strategy_prompt, strategy_path, has_no_lines, join_lines,
}

module _ (n : Numbers) (m : Floats n) (system : System n) where
  open n use {Num}

  prompt_lines_taken :
      (lines answers : List Text)
      → (used : List Text) × (answers ≡ used ++ (prompt_lines lines answers).1)
  unfolding prompt_lines
  prompt_lines_taken lines [] = ([], refl)
  prompt_lines_taken lines (line ∷ answers) =
      go (is_blank line) (has_no_lines lines) (prompt_lines_taken lines answers)
        (prompt_lines_taken (lines ++ line ∷ []) answers)
    where
      go :
          (blank none_yet : Bool)
          → (used : List Text) × (answers ≡ used ++ (prompt_lines lines answers).1)
          → (used : List Text) × (answers ≡ used ++ (prompt_lines (lines ++ line ∷ []) answers).1)
          → (used : List Text) × (line ∷ answers
              ≡ used
                ++ (if blank
                    then if none_yet
                      then prompt_lines lines answers
                      else (done (join_lines lines), answers)
                    else prompt_lines (lines ++ line ∷ []) answers).1)
      go true true (used, e) more = (line ∷ used, ap (λ l. line ∷ l) e)
      go true false again more = (line ∷ [], refl)
      go false b again (used, e) = (line ∷ used, ap (λ l. line ∷ l) e)

  Careful-ask_prompt : Careful ask_prompt
  unfolding ask_prompt
  Careful-ask_prompt = record {
    takes = λ s. prompt_lines_taken [] s.answers;
    starts_none = λ s. refl;
  }

  pub choose_wallet-Careful : (args : Dict ArgValue) → Careful (choose_wallet n system args)
  unfolding choose_wallet
  choose_wallet-Careful args = search (careful_rules, from)
    where
      from :
          (files : Dict Text) (wallets : List Wallet) → Careful (choose_from n system files wallets)
      from files [] = unfold choose_from in search careful_rules
      from files (wallet ∷ wallets) = unfold choose_from ask in search careful_rules

  pub persist_wallet_selection-Careful :
      (path : Text) → Careful (persist_wallet_selection n m system path)
  unfolding persist_wallet_selection
  persist_wallet_selection-Careful path = search careful_rules

  pub capture_strategy_prompt-Careful :
      (args : Dict ArgValue) → Careful (capture_strategy_prompt n m system args)
  unfolding capture_strategy_prompt
  capture_strategy_prompt-Careful args = from (option (text "strategy-file") args)
    where
      from : (raw : Option ArgValue) → Careful (capture_from n m system raw)
      from none = unfold capture_from in search (careful_rules, Careful-ask_prompt)
      from (some v) = unfold capture_from in search careful_rules

  pub strategy_path-Careful :
      (strategy : Strategy) (wallet : Wallet) → Careful (strategy_path n m system strategy wallet)
  unfolding strategy_path save_strategy_prompt
  strategy_path-Careful strategy wallet = search careful_rules depth 8

  ask_unsigned_integer-Careful : (initial : Text) → Careful (ask_unsigned_integer initial)
  unfolding ask_unsigned_integer
  ask_unsigned_integer-Careful initial = from (unsigned_integer (trim initial))
    where
      from : (o : Option (Result Text)) → Careful (asked_unless o)
      from none = search careful_rules
      from (some r) = search careful_rules

  pub collect_trade_config-Careful :
      (args : Dict ArgValue) → Careful (collect_trade_config n m args)
  unfolding collect_trade_config ask_order_type ask_price
  collect_trade_config-Careful args =
      search (careful_rules, ask_unsigned_integer-Careful, dry) depth 16
    where
      dry : (raw : Option ArgValue) → Careful (ask_dry_run n m raw)
      dry none = unfold ask_dry_run ask_yes_no ask in search careful_rules depth 8
      dry (some v) = unfold ask_dry_run in search careful_rules
