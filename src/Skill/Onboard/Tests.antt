-- ===== src/Skill/Onboard/Tests.antt =====
-- The onboarding at concrete inputs.
use easyclaw.Skill.Args.{parse_args}
use easyclaw.Base.{
  ℕ, ◌≡◌, refl, true, false, Option, none, some, List, [], ◌∷◌, ◌++◌, trim, Text, text, ok, lookup,
  insert, text_eq, ◌⊎◌, All, to_lower, is_blank, show_ℕ, starts_with,
}
use easyclaw.Samples.{naturals}
use easyclaw.Backend.Json.{arr, nil}
use easyclaw.Skill.Agent.Values.{Floats}
use easyclaw.Skill.Onboard.{main}
use easyclaw.Skill.Onboard.Answers.{Session, done, waiting, wait_for_registration}
use easyclaw.Skill.Onboard.Answers.Registration.{IsIdle, Settles, wait_for_registration-Ends}
use easyclaw.Skill.Onboard.Agreed.{Starts, Registered, Chosen, main-Starts}
use easyclaw.Skill.Onboard.EnvFile.{Match, upsert_env_value}
use easyclaw.Skill.Onboard.EnvFile.Laws.{IsWritten, IsKept, upsert_env_value-IsWritten}
use easyclaw.Skill.Args.{parse_args}
use easyclaw.Skill.Setup.{Host}
use easyclaw.Skill.Agent.Config.{read_config}
use easyclaw.Skill.Onboard.Trade.{TradeConfig, build_autotrade_args}
use easyclaw.Skill.Onboard.Trade.Shown.{IsShown}
use easyclaw.Skill.Onboard.Trade.Given.{IsCollected}
use easyclaw.Skill.Onboard.Trade.Laws.{agent_config, read_config-build_autotrade_args}
use easyclaw.Skill.Onboard.Wallets.{System}

abbrev system : System naturals
system = record {
  env = λ name. none;
  home = text "/home/u";
  join = λ a b. a ++ b'/' ∷ b;
  resolve = λ path. path;
  parse_json = λ raw. ok (arr nil);
  address = λ items. ok (text "W");
  solana_config = none;
  env_path = text ".env";
  strategy_dir = text "state";
  agent_script = text "agent.js";
  slug = text "now";
  meta_text = λ a b c. text "{}";
  run_agent = λ args wallet. ok tt;
}

abbrev floats : Floats naturals
floats = record { floor = λ v. v; less = λ v w. false; to_ℕ = λ v. 0 }

abbrev start : Session
start = record {
  answers =
      text "1"
      ∷ text "?"
      ∷ text " Done "
      ∷ []
      ∷ text "buy low"
      ∷ text "sell high"
      ∷ []
      ∷ text "y"
      ∷ text "left"
      ∷ [];
  files = (text "/home/u/.config/solana/id.json", text "[]") ∷ [];
  started = [];
}

abbrev argv : List Text
argv = text "--market-id" ∷ text "1" ∷ text "--margin" ∷ text "100" ∷ text "--dry-run" ∷ []

abbrev started_args : List Text
started_args =
    text "agent.js"
    ∷ text "--market-id"
    ∷ text "1"
    ∷ text "--margin"
    ∷ text "100"
    ∷ text "--type"
    ∷ text "market"
    ∷ text "--ttl"
    ∷ text "300"
    ∷ text "--min-confidence"
    ∷ text "NaN"
    ∷ text "--cooldown-ms"
    ∷ text "15000"
    ∷ text "--max-orders"
    ∷ text "0"
    ∷ text "--channel"
    ∷ text "agent.signals"
    ∷ text "--strategy-file"
    ∷ text "state/now-strategy.txt"
    ∷ text "--dry-run"
    ∷ []

abbrev finished : Session
finished = record {
  answers = text "left" ∷ [];
  files =
      (text "/home/u/.config/solana/id.json", text "[]")
      ∷ (
        text ".env",
        text "KEYPAIR_PATH=/home/u/.config/solana/id.json"
            ++ 10 ∷ text "ANCHOR_WALLET=/home/u/.config/solana/id.json"
            ++ 10 ∷ [],
      )
      ∷ (text "state/now-strategy.txt", text "buy low" ++ 10 ∷ text "sell high" ++ 10 ∷ [])
      ∷ (text "state/now-strategy.json", text "{}" ++ 10 ∷ [])
      ∷ [];
  started = (started_args, text "/home/u/.config/solana/id.json") ∷ [];
}

main_run : main naturals floats system argv start ≡ (done tt, finished)
unfolding main lookup parse_args text insert text_eq to_lower is_blank show_ℕ
main_run = refl

main-Starts_example :
    Starts naturals floats system Registered
      (Chosen naturals floats system (parse_args argv))
      start
      (main naturals floats system argv start).1
main-Starts_example = main-Starts naturals floats system argv start

wait_for_registration-Ends_example :
    let (o, t) = wait_for_registration start in
    (((before : List Text) × (answer : Text) × (start.answers ≡ before ++ (answer ∷ t.answers))
        × All IsIdle before
        × Settles answer o)
      ⊎ (All IsIdle start.answers × (o ≡ waiting) × (t.answers ≡ [])))
    × (t.files ≡ start.files)
    × (t.started ≡ start.started)
wait_for_registration-Ends_example = wait_for_registration-Ends start

abbrev env_source : Text
env_source = text "A=1" ++ 10 ∷ text "KEY=old" ++ 10 ∷ text "B=2"

upsert_env_value-IsWritten_example :
    (m : Match) × IsWritten
      (text "KEY")
      (text "/w")
      (upsert_env_value env_source (text "KEY") (text "/w"))
      m
    × IsKept (text "KEY") env_source m
unfolding text
upsert_env_value-IsWritten_example =
    upsert_env_value-IsWritten b'K' (text "EY") (text "/w") env_source refl refl refl

-- A dollar sign in a path is taken for a part of the replacement.
dollar_lost : upsert_env_value (text "KEY=old") (text "KEY") (text "/a$$b") ≡ text "KEY=/a$b"
unfolding upsert_env_value text starts_with
dollar_lost = refl

abbrev collected : TradeConfig (Option ℕ)
collected = record {
  market_id = text "1";
  margin = text "100";
  order_type = text "limit";
  price = text "7";
  ttl = text "300";
  deposit = [];
  reduce_only = true;
  min_confidence = some 1;
  cooldown_ms = some 20;
  max_orders = some 3;
  channel = text "signals";
  agent_name = text "a";
  dry_run = false;
}

abbrev reading_host : Host (Option ℕ)
reading_host = record {
  env = λ name. none;
  home = [];
  join = λ a b. b;
  resolve = λ p. p;
  read_file = λ p. some (text " buy low ");
  keypair = λ content. ok none;
}

one : IsShown naturals floats (some 1)
unfolding show_ℕ is_blank starts_with text
one = record { back = refl; finite = refl; shown = refl; no_option = refl }

twenty : IsShown naturals floats (some 20)
unfolding show_ℕ is_blank starts_with text
twenty = record { back = refl; finite = refl; shown = refl; no_option = refl }

three : IsShown naturals floats (some 3)
unfolding show_ℕ is_blank starts_with text
three = record { back = refl; finite = refl; shown = refl; no_option = refl }

collected-IsCollected : IsCollected naturals floats collected (text "strategy.txt")
unfolding text starts_with trim to_lower text_eq
collected-IsCollected = record {
  market_id = record { no_option = refl; trimmed_word = refl };
  margin = record { no_option = refl; trimmed_word = refl };
  order_type = record { no_option = refl; trimmed_word = refl };
  lower = refl;
  known = refl;
  price = λ e. record { no_option = refl; trimmed_word = refl };
  ttl = record { no_option = refl; trimmed_word = refl };
  deposit = λ e. cc;
  min_confidence = one;
  cooldown_ms = twenty;
  whole_cooldown = refl;
  max_orders = three;
  whole_orders = refl;
  channel = record { no_option = refl; trimmed_word = refl };
  agent_name = λ e. record { no_option = refl; trimmed_word = refl };
  path_word = record { no_option = refl; trimmed_word = refl };
}

read_config-build_autotrade_args_example :
    read_config naturals floats reading_host
      (parse_args (build_autotrade_args naturals floats collected (text "strategy.txt")))
    ≡ ok (agent_config naturals floats collected (trim (text " buy low ")))
read_config-build_autotrade_args_example =
    read_config-build_autotrade_args naturals floats collected (text "strategy.txt")
      collected-IsCollected reading_host refl
