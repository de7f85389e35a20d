-- ===== src/Skill/Onboard.antt =====
-- onboard.js: from the wallet to the agent's start. The answers of the dialog, the files and the agents
-- that were started are a state; lines of output are left out, and every file that exists can be read.
pub mod Answers
pub mod EnvFile
pub mod Wallets
pub mod Trade
pub mod Steps
pub mod Agreed
mod Tests
use easyclaw.Base.{
  ℕ, Bool, true, false, not, ◌||◌, Option, none, some, List, [], ◌∷◌, ◌++◌, if◌then◌else◌, is_empty,
  is_blank, is_some, or_else, option_map, Text, text, trim, Dict, lookup, Result, ok, err, or_throw,
}
use easyclaw.Numbers.{Numbers}
use easyclaw.Skill.Words.{ArgValue, arg_text}
use easyclaw.Skill.Args.{parse_args}
use easyclaw.Skill.Plan.{option}
use easyclaw.Skill.Agent.Values.{Floats}
use easyclaw.Skill.Onboard.Answers.{
  Session, Outcome, done, threw, waiting, Dialog, pure, lift, get_files, write_file, outcome_of,
  ask_yes_no, wait_for_registration, ◌>>=◌, ◌>>◌,
}
use easyclaw.Skill.Onboard.EnvFile.{upsert_env_value}
use easyclaw.Skill.Onboard.Wallets.{System, Wallet, expand_home, choose_wallet}
use easyclaw.Skill.Onboard.Trade.{TradeConfig, collect_trade_config, build_autotrade_args}

-- `lines.join("\n")`
abbrev pub join_lines : List Text → Text
join_lines [] = []
join_lines (l ∷ []) = l
join_lines (l ∷ k ∷ ls) = l ++ (10 ∷ join_lines (k ∷ ls))

abbrev has_no_lines : List Text → Bool
has_no_lines [] = true
has_no_lines (l ∷ ls) = false

-- The loop for the prompt, from the lines that it has.
unfoldable pub prompt_lines : List Text → List Text → Outcome Text × List Text
prompt_lines lines [] = (waiting, [])
prompt_lines lines (line ∷ answers) =
    let again = prompt_lines lines answers in
    let more = prompt_lines (lines ++ line ∷ []) answers in
    if is_blank line
    then if has_no_lines lines then again else (done (join_lines lines), answers)
    else more

unfoldable pub ask_prompt : Dialog Text
unfolding prompt_lines
ask_prompt s = let (o, rest) = prompt_lines [] s.answers in (o, record s { answers = rest })

pub record Strategy : Type 0 where
  pub prompt_text : Text
  pub original_path : Text

module _ (n : Numbers) (m : Floats n) (system : System n) where
  open system use {join, resolve, env_path, strategy_dir, agent_script, slug, meta_text, run_agent}

  unfoldable pub persist_wallet_selection : Text → Dialog (Unit {0})
  unfolding upsert_env_value ◌>>=◌ get_files write_file
  persist_wallet_selection wallet_path = get_files >>= λ files. write_file env_path (
      upsert_env_value
        (upsert_env_value (or_else (lookup env_path files) []) (text "KEYPAIR_PATH") wallet_path)
        (text "ANCHOR_WALLET") wallet_path)

  -- The strategy of a file.
  abbrev read_strategy : Text → Option Text → Result Strategy
  read_strategy path none = err (text "strategy file not found: " ++ path)
  read_strategy path (some content) =
      if is_empty (trim content)
      then err (text "strategy file is empty: " ++ path)
      else ok (record { prompt_text = trim content; original_path = path })

  -- With the option `--strategy-file`, or without.
  unfoldable pub capture_from : Option ArgValue → Dialog Strategy
  unfolding expand_home ask_prompt ◌>>=◌ pure lift get_files
  capture_from none =
      ask_prompt >>= λ prompt. pure (record { prompt_text = prompt; original_path = [] })
  capture_from (some v) = get_files >>= λ files.
      let path = resolve (expand_home n system (arg_text v)) in
      lift (read_strategy path (lookup path files))

  unfoldable pub capture_strategy_prompt : Dict ArgValue → Dialog Strategy
  unfolding option capture_from
  capture_strategy_prompt args = capture_from (option (text "strategy-file") args)

  -- The path of the text.
  unfoldable pub save_strategy_prompt : Text → Wallet → Dialog Text
  unfolding ◌>>=◌ write_file pure
  save_strategy_prompt strategy_prompt wallet =
      let txt_path = join strategy_dir (slug ++ text "-strategy.txt") in
      let meta_path = join strategy_dir (slug ++ text "-strategy.json") in
      do
        write_file txt_path (trim strategy_prompt ++ 10 ∷ [])
        write_file meta_path
            (meta_text wallet.wallet_address wallet.wallet_path txt_path ++ 10 ∷ [])
        pure txt_path

  unfoldable pub strategy_path : Strategy → Wallet → Dialog Text
  unfolding save_strategy_prompt pure
  strategy_path strategy wallet =
      if is_empty strategy.original_path
      then save_strategy_prompt strategy.prompt_text wallet
      else pure strategy.original_path

  -- The agent runs with the wallet in its environment, until its process ends.
  unfoldable pub run_autotrade : List Text → Text → Dialog (Unit {0})
  run_autotrade args wallet_path s = (
    outcome_of (run_agent args wallet_path),
    record s { started = s.started ++ (args, wallet_path) ∷ [] },
  )

  -- What comes after the question whether to start.
  unfoldable pub start_if : Bool → TradeConfig n.Num → Text → Text → Dialog (Unit {0})
  unfolding run_autotrade build_autotrade_args pure
  start_if confirmed config path wallet_path =
      if confirmed
      then run_autotrade (agent_script ∷ build_autotrade_args n m config path) wallet_path
      else pure tt

  unfoldable pub onboard : Dict ArgValue → Dialog (Unit {0})
  unfolding choose_wallet persist_wallet_selection wait_for_registration capture_strategy_prompt
      strategy_path collect_trade_config ask_yes_no start_if ◌>>=◌
  onboard args = do
    wallet ← choose_wallet n system args
    persist_wallet_selection wallet.wallet_path
    wait_for_registration
    strategy ← capture_strategy_prompt args
    path ← strategy_path strategy wallet
    config ← collect_trade_config n m args
    confirmed ← ask_yes_no false
    start_if confirmed config path wallet.wallet_path

  -- With `--help` or `--h` only the usage is printed.
  unfoldable pub main : List Text → Dialog (Unit {0})
  unfolding onboard option pure
  main argv =
      let args = parse_args argv in
      if is_some (option (text "help") args) || is_some (option (text "h") args)
      then pure tt
      else onboard args
