-- ===== src/Skill/Tests.antt =====
-- The scripts of the skill on a small cluster: the theorems at concrete inputs.
pub mod Cluster
use easyclaw.Base.{
  ℕ, ◌≡◌, ◌≤◌, refl, Bool, true, false, Option, none, some, List, [], ◌∷◌, arith, All, length, take,
  if◌then◌else◌, ◌==◌, Text, text, text_eq, lookup, insert, starts_with, is_empty, trim, is_blank,
  Result, ok, err,
}
use easyclaw.Bytes.{le_bytes}
use easyclaw.Numbers.{Numbers}
use easyclaw.Samples.{naturals}
use easyclaw.Backend.Json.{Json, str, obj, Fields, end, field, get_field}
use easyclaw.Skill.Words.{
  ℤ, pos, negsuc, ArgValue, flag, given, u64_le, i64_le, slice, read_u64_le, read_i64_le,
}
use easyclaw.Skill.Platform.{Solana, KeyLaws, Instruction}
use easyclaw.Skill.Accounts.{
  engine_config_account, user_margin_account, place_order, decode_engine_config, checked_account,
  Order, OrderRequest, bool_byte, decode_order, order_data,
}
use easyclaw.Skill.Accounts.Laws.{IsOrder, order_bytes, decode_order-order_bytes}
use easyclaw.Skill.Accounts.Orders.{IsInRange, order_wire, order_data-reads}
use easyclaw.Skill.Args.{parse_args}
use easyclaw.Skill.Args.Laws.{Pair, tokens_of, insert_all, parse_args-tokens_of}
use easyclaw.Skill.Plan.{Plan, read_plan}
use easyclaw.Skill.Setup.{
  Accounts, prepare, setup_instructions, create_margin, create_position, deposit_from, place_keys,
}
use easyclaw.Skill.Execute.{Network, Receipt, place}
use easyclaw.Skill.Execute.Laws.{place_late}
use easyclaw.Skill.Tests.Cluster.{
  Name, user, engine, registry, config, global, market, margin, position, order, ata, vault, mint,
  solana, key_laws,
}

abbrev some_order : Order Name
some_order = record {
  id = 70000;
  user_margin = margin;
  user = user;
  market_id = 1;
  side = 1;
  order_type = 0;
  reduce_only = true;
  margin = 1000000;
  price = 300;
  created_at = pos 1700000000;
  expires_at = negsuc 0;
  client_order_id = 42;
  status = 2;
  bump = 255;
}

some_order-IsOrder : IsOrder solana some_order
some_order-IsOrder = record {
  id = omega arith;
  market_id = omega arith;
  margin = omega arith;
  price = omega arith;
  created_at = omega arith;
  expires_at = omega arith;
  client_order_id = omega arith;
}

decode_order-order_bytes_example :
    decode_order solana (order_bytes solana some_order) ≡ ok some_order
decode_order-order_bytes_example =
    decode_order-order_bytes solana key_laws some_order some_order-IsOrder

abbrev request : OrderRequest
request = record {
  market_id = 1;
  side = 0;
  order_type = 0;
  reduce_only = false;
  margin = 1000000;
  price = 100000000000;
  ttl_secs = pos 300;
  client_order_id = 42;
}

order_data-reads_example :
    IsInRange request
    × (length (order_wire request) ≡ 51)
    × (take 8 (order_wire request) ≡ place_order)
    × (read_u64_le (order_wire request) 8 ≡ 1)
    × (slice (order_wire request) 16 3 ≡ 0 ∷ 0 ∷ 0 ∷ [])
    × (read_u64_le (order_wire request) 19 ≡ 1000000)
    × (read_u64_le (order_wire request) 27 ≡ 100000000000)
    × (read_i64_le (order_wire request) 35 ≡ pos 300)
    × (read_u64_le (order_wire request) 43 ≡ 42)
unfolding order_data order_wire le_bytes u64_le i64_le
order_data-reads_example = order_data-reads request refl

abbrev two_options : List Pair
two_options = (text "dry-run", flag) ∷ (text "margin", given (text "5")) ∷ []

abbrev accounts : Accounts solana
accounts = record {
  signer = user;
  order_engine = engine;
  market_registry = registry;
  engine_config = config;
  global_config = global;
  market = market;
  user_margin = margin;
  user_market_position = position;
}

abbrev plan : Plan
plan = record { order = request; deposit = 5; skip_create_position = false }

abbrev start : Network solana
start = record { chain = false; sent = [] }

abbrev setup : List (Instruction Name)
setup =
    create_margin solana accounts
    ∷ create_position solana accounts (le_bytes 8 1)
    ∷ solana.create_ata user ata user mint
    ∷ deposit_from solana accounts ata
        (record { admin = user; usdc_mint = mint; collateral_vault = vault }) (le_bytes 8 5)
    ∷ []

prepare_ok : prepare solana accounts plan false ≡ ok setup
unfolding prepare setup_instructions decode_engine_config checked_account u64_le le_bytes text_eq
prepare_ok = refl

abbrev placing : Instruction Name
placing = record {
  program = engine;
  keys = place_keys solana accounts order;
  payload = order_wire request;
}

abbrev receipt : Receipt solana
receipt = record {
  setup_tx = some (text "signature");
  order = order;
  place_tx = some (text "signature");
}

abbrev finish_state : Network solana
finish_state = record { chain = true; sent = setup ∷ (placing ∷ []) ∷ [] }

-- The margin does not fit.
abbrev wide_plan : Plan
wide_plan = record plan { order = record request { margin = 18446744073709551616 } }

wide_plan_wide : ¬ IsInRange wide_plan.order
wide_plan_wide v = omega (arith, v.margin)

place_late_example :
    (m : Text) × (place solana accounts wide_plan start
      ≡ (err m, record { chain = true; sent = setup ∷ [] }))
unfolding prepare
place_late_example =
    place_late solana accounts wide_plan start (create_margin solana accounts) _ (text "signature")
      prepare_ok refl wide_plan_wide
