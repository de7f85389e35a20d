-- ===== src/Skill/Balance/Tests.antt =====
-- The report on a small cluster.
use easyclaw.Base.{ℕ, ◌≡◌, refl, Bool, true, none, some, List, [], ◌∷◌, text, text_eq, ok}
use easyclaw.Bytes.{le_bytes, from_le}
use easyclaw.Skill.Words.{pos, read_u64_le, read_i64_le, read_u8, signed}
use easyclaw.Skill.Accounts.{
  Order, decode_engine_config, decode_user_margin, decode_order, checked_account,
}
use easyclaw.Skill.Accounts.Laws.{order_bytes, order_tail}
use easyclaw.Scripts.Env.{is_unset}
use easyclaw.Skill.Setup.{
  Host, keypair_path, read_signer, pubkey_from_env, derive_engine_config, derive_user_margin,
  default_order_engine, pubkey_from_env,
}
use easyclaw.Skill.Tests.Cluster.{Name, user, config, margin, position, order, ata, mint, solana}
use easyclaw.Skill.Balance.{
  Listed, Queries, Report, insert_order, sort_orders, decoded_orders, balance_report,
}
use easyclaw.Skill.Balance.Laws.{IsFalling, tally, balance_report-orders, Decodes}

abbrev host : Host Name
host = record {
  env = λ name. none;
  home = [];
  join = λ a b. b;
  resolve = λ p. p;
  read_file = λ p. some [];
  keypair = λ content. ok user;
}

abbrev order_with : ℕ → Order Name
order_with id = record {
  id = id;
  user_margin = margin;
  user = user;
  market_id = 1;
  side = 1;
  order_type = 0;
  reduce_only = true;
  margin = 10;
  price = 300;
  created_at = pos 17;
  expires_at = pos 18;
  client_order_id = 42;
  status = 0;
  bump = 255;
}

-- The second account is no order.
abbrev listed_accounts : List (Name × List ℕ)
listed_accounts =
    (position, order_bytes solana (order_with 3))
    ∷ (ata, 1 ∷ 2 ∷ [])
    ∷ (order, order_bytes solana (order_with 4))
    ∷ []

abbrev queries : Queries solana
queries = record {
  token_balance = λ chain k. ok (text "5", text "0.000005");
  lamports = λ chain k. ok 9;
  program_accounts = λ chain program offset k. ok listed_accounts;
}

abbrev report : Report solana
report = record {
  signer = user;
  engine_config = config;
  user_margin = margin;
  usdc_mint = mint;
  usdc_ata = ata;
  lamports = 9;
  usdc = none;
  margin = some (record {
    owner = user;
    collateral_balance = 500;
    next_order_nonce = 7;
    total_notional = 0;
    bump = 255;
  });
  orders =
      record { pubkey = order; order = order_with 4 }
      ∷ record { pubkey = position; order = order_with 3 }
      ∷ [];
}

report_made : balance_report solana queries host true ≡ ok report
unfolding balance_report read_signer keypair_path pubkey_from_env derive_engine_config
    derive_user_margin decode_engine_config decode_user_margin decode_order checked_account
    decoded_orders sort_orders insert_order order_bytes order_tail le_bytes from_le read_u64_le
    read_i64_le read_u8 signed text text_eq is_unset
report_made = refl

balance_report-orders_example :
    (engine : Name) × (accounts : List (Name × List ℕ)) × (os : List (Listed Name))
    × (pubkey_from_env solana host.env (text "ORDER_ENGINE_PROGRAM_ID") default_order_engine
        ≡ ok engine)
    × (queries.program_accounts true engine 16 margin ≡ ok accounts)
    × Decodes solana queries accounts os
    × IsFalling report.orders
    × ((test : Listed Name → Bool) → tally test report.orders ≡ tally test os)
balance_report-orders_example =
    balance_report-orders solana queries host true {r = report} report_made
