-- ===== src/Skill/Onboard/Wallets.antt =====
-- The wallets of onboard.js: where it looks for key files, and how one is chosen. What the script uses of
-- the system and of its libraries is a record.
use easyclaw.Base.{
  ℕ, suc, ◌||◌, Option, none, some, List, [], ◌∷◌, ◌++◌, if◌then◌else◌, is_empty, any, drop,
  option_map, Text, text, text_eq, starts_with, trim, trim_start, to_lower, Dict, lookup, Result,
  ok, err,
}
use easyclaw.Numbers.{Numbers}
use easyclaw.Backend.Json.{Json, Items, arr}
use easyclaw.Backend.Uri.{Env}
use easyclaw.Skill.Words.{ArgValue, arg_text}
use easyclaw.Skill.Plan.{option}
use easyclaw.Skill.Onboard.Answers.{Dialog, answer_or, ask, ask_until, get_files, lift, ◌>>=◌}
use easyclaw.Skill.Onboard.EnvFile.{line_of}

pub record System (n : Numbers) : Type 0 where
  pub env : Env
  -- `os.homedir()`, `path.join` and `path.resolve`
  pub home : Text
  pub join : Text → Text → Text
  pub resolve : Text → Text
  -- `JSON.parse`, with the message of its error
  pub parse_json : Text → Result (Json n.Num)
  -- `Keypair.fromSecretKey(Uint8Array.from(items)).publicKey.toBase58()`
  pub address : Items n.Num → Result Text
  -- What `solana config get` prints, and to its error output, if it succeeds.
  pub solana_config : Option (Text × Text)
  -- The constants `ENV_PATH` and `STRATEGY_DIR`, and the path of realtime-agent.js
  pub env_path : Text
  pub strategy_dir : Text
  pub agent_script : Text
  -- `timestampSlug()`, and the JSON text of a strategy's record: its wallet, the wallet's path and the
  -- strategy's file
  pub slug : Text
  pub meta_text : Text → Text → Text → Text
  -- The agent's process ends.
  pub run_agent : List Text → Text → Result (Unit {0})

pub record Wallet : Type 0 where
  pub wallet_path : Text
  pub wallet_address : Text

module _ (n : Numbers) (system : System n) where
  open n use {Num, number, of_ℕ, num_eq}
  open system use {env, home, join, resolve, parse_json, address, solana_config}

  unfoldable pub expand_home : Text → Text
  expand_home raw_path =
      let value = trim raw_path in
      if is_empty value
      then []
      else if text_eq value (text "~")
      then home
      else if starts_with (text "~/") value
      then join home (drop 2 value)
      else value

  -- The content of a file that is read as a wallet.
  abbrev decoded : Text → Json Num → Result Wallet
  decoded path (arr items) = wallet_at (address items)
    where
      wallet_at : Result Text → Result Wallet
      wallet_at (ok a) = ok (record { wallet_path = path; wallet_address = a })
      wallet_at (err message) = err message
  decoded path v = err (text "wallet file must be a JSON array")

  abbrev content_wallet : Text → Result (Json Num) → Result Wallet
  content_wallet path (ok v) = decoded path v
  content_wallet path (err message) = err message

  unfoldable pub parse_wallet_file : Dict Text → Text → Result Wallet
  unfolding expand_home
  parse_wallet_file files wallet_path =
      let path = resolve (expand_home wallet_path) in
      elim (lookup path files) [
        | none ↦ err (text "wallet file not found")
        | some raw ↦ content_wallet path (parse_json raw)
      ]

  -- The text after the first `Keypair Path:`, in any case.
  unfoldable pub after_label : Text → Text
  unfolding starts_with
  after_label [] = []
  after_label (c ∷ s) =
      let later = after_label s in
      if starts_with (text "keypair path:") (to_lower (c ∷ s)) then drop 13 (c ∷ s) else later

  -- `/Keypair Path:\s*(.+)/i`, and the trimmed group
  unfoldable pub parse_solana_config_wallet_path : Text
  unfolding after_label line_of
  parse_solana_config_wallet_path = elim solana_config [
    | none ↦ []
    | some (out, errors) ↦ trim (line_of (trim_start (after_label (out ++ 10 ∷ errors))))
  ]

  abbrev present : Option Text → List Text → List Text
  present none rest = rest
  present (some path) rest = if is_empty path then rest else path ∷ rest

  unfoldable pub candidate_paths : Dict ArgValue → List Text
  unfolding option parse_solana_config_wallet_path
  candidate_paths args = present (option_map arg_text (option (text "wallet-path") args)) (
      present (env (text "KEYPAIR_PATH")) (
        present (env (text "ANCHOR_WALLET"))
          (text "~/.config/solana/id.json" ∷ present (some parse_solana_config_wallet_path) [])))

  -- The second loop of `discoverWalletPaths`; the first list is `seen`.
  unfoldable pub dedupe : List Text → List Text → List Text
  unfolding expand_home
  dedupe seen [] = []
  dedupe seen (raw_path ∷ paths) =
      let absolute = resolve (expand_home raw_path) in
      let skipped = dedupe seen paths in
      let kept = absolute ∷ dedupe (absolute ∷ seen) paths in
      if is_empty absolute || any (λ p. text_eq p absolute) seen then skipped else kept

  unfoldable pub discover_wallet_paths : Dict ArgValue → List Text
  unfolding candidate_paths dedupe
  discover_wallet_paths args = dedupe [] (candidate_paths args)

  -- `available`; what is said of the other paths is a line of output.
  unfoldable pub evaluate_wallet_paths : Dict Text → List Text → List Wallet
  unfolding parse_wallet_file
  evaluate_wallet_paths files [] = []
  evaluate_wallet_paths files (path ∷ paths) =
      let rest = evaluate_wallet_paths files paths in
      elim (parse_wallet_file files path) [ ok wallet ↦ wallet ∷ rest | err message ↦ rest ]

  -- `available[index - 1]`, where `index` is a whole number from 1 to their count; the wallets are counted
  -- from the first argument on.
  unfoldable pub numbered : ℕ → Num → List Wallet → Option Wallet
  numbered i index [] = none
  numbered i index (wallet ∷ wallets) =
      let later = numbered (suc i) index wallets in
      if num_eq index (of_ℕ i) then some wallet else later

  -- The wallet that the answer selects.
  unfoldable pub select_wallet : Dict Text → List Wallet → Text → Result Wallet
  unfolding numbered parse_wallet_file
  select_wallet files available input = elim (numbered 1 (number input) available) [
    | some wallet ↦ ok wallet
    | none ↦ elim (parse_wallet_file files input) [
      | ok wallet ↦ ok wallet
      | err detail ↦ err (text "invalid wallet selection: " ++ detail)
    ]
  ]

  -- The loop for a path, where no wallet was found.
  unfoldable pub entered_wallet : Dict Text → Text → Option (Result Wallet)
  unfolding parse_wallet_file answer_or
  entered_wallet files line =
      let path = answer_or [] line in
      if is_empty path
      then none
      else elim (parse_wallet_file files path) [ ok wallet ↦ some (ok wallet) | err detail ↦ none ]

  unfoldable pub choose_from : Dict Text → List Wallet → Dialog Wallet
  unfolding select_wallet entered_wallet ◌>>=◌ lift ask ask_until
  choose_from files [] = ask_until (entered_wallet files)
  choose_from files (wallet ∷ wallets) =
      ask (text "1") >>= λ input. lift (select_wallet files (wallet ∷ wallets) input)

  unfoldable pub choose_wallet : Dict ArgValue → Dialog Wallet
  unfolding discover_wallet_paths evaluate_wallet_paths choose_from ◌>>=◌ get_files
  choose_wallet args = get_files >>= λ files.
      choose_from files (evaluate_wallet_paths files (discover_wallet_paths args))
