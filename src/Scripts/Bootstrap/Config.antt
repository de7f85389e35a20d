-- ===== src/Scripts/Bootstrap/Config.antt =====
-- What `main` of bootstrap.ts reads before it sends anything: the programs, the signer's role, the
-- keepers, the markets and the numbers.
pub mod Laws
use easyclaw.Base.{
  Bool, false, Option, none, some, List, Text, text, Result, ok, ◌>>=◌, ◌>>◌, guard,
}
use easyclaw.Scripts.Defaults.{Market}
use easyclaw.Scripts.Platform.{Numbers, Web3}
use easyclaw.Scripts.Env.{
  Env, to_public_key, get_env_pubkey, get_required_env_pubkey, get_env_number, get_env_boolean,
  parse_keepers,
}
use easyclaw.Scripts.Markets.{parse_bootstrap_markets}

pub record FeeSplit (N : Type 0) : Type 0 where
  pub lp_bps : N
  pub insurance_bps : N
  pub protocol_bps : N

pub record Config (K N : Type 0) : Type 0 where
  pub wallet : K
  pub market_registry : K
  pub lp_vault : K
  pub order_engine : K
  pub multisig : K
  pub usdc_mint : K
  pub keepers : List K
  pub markets : List Market
  pub fee_split : FeeSplit N
  pub pause_flags : Bool
  pub cooldown_secs : N
  pub min_liquidity_buffer_bps : N
  pub max_ttl_secs : N
  pub liquidation_penalty_bps : N
  pub max_imr_bps : N

module _ (n : Numbers) (w : Web3 n) where
  open n use {Num, of_ℕ, add, num_eq}
  open w use {Key, key_eq}

  abbrev key_or : Result Key → Option Key → Result Key
  key_or fallback none = fallback
  key_or fallback (some k) = ok k

  -- `getEnvPubkey(name) ?? toPublicKey(idl.address)`
  unfoldable pub program_id : Env → Text → Text → Result Key
  program_id env name address = do
    found ← get_env_pubkey n w env name false false
    key_or (to_public_key n w address) found

  -- `getEnvPubkey("MULTISIG") ?? wallet`, which has to be the wallet.
  unfoldable pub read_multisig : Env → Key → Result Key
  read_multisig env wallet = do
    found ← get_env_pubkey n w env (text "MULTISIG") false false
    multisig ← key_or (ok wallet) found
    guard (key_eq multisig wallet)
        (text "This bootstrap signer flow requires MULTISIG to equal provider wallet pubkey")
    ok multisig

  unfoldable pub read_fee_split : Env → Result (FeeSplit Num)
  read_fee_split env = do
    lp ← get_env_number n env (text "GLOBAL_LP_BPS") (of_ℕ 7000)
    insurance ← get_env_number n env (text "GLOBAL_INSURANCE_BPS") (of_ℕ 2000)
    protocol ← get_env_number n env (text "GLOBAL_PROTOCOL_BPS") (of_ℕ 1000)
    guard (num_eq (add (add lp insurance) protocol) (of_ℕ 10000))
        (text "GLOBAL_*_BPS sum must be 10000")
    ok (record { lp_bps = lp; insurance_bps = insurance; protocol_bps = protocol })

  -- The arguments after the wallet are the addresses of the three IDLs.
  unfoldable pub read_config : Env → Key → Text → Text → Text → Result (Config Key Num)
  read_config env wallet registry_address vault_address engine_address = do
    market_registry ← program_id env (text "MARKET_REGISTRY_PROGRAM_ID") registry_address
    lp_vault ← program_id env (text "LP_VAULT_PROGRAM_ID") vault_address
    order_engine ← program_id env (text "ORDER_ENGINE_PROGRAM_ID") engine_address
    multisig ← read_multisig env wallet
    usdc_mint ← get_required_env_pubkey n w env (text "USDC_MINT")
    keepers ← parse_keepers n w env wallet
    chosen ← parse_bootstrap_markets n env
    fee_split ← read_fee_split env
    pause ← get_env_boolean env (text "GLOBAL_PAUSE") false
    cooldown ← get_env_number n env (text "LP_COOLDOWN_SECS") (of_ℕ 86400)
    buffer ← get_env_number n env (text "LP_MIN_BUFFER_BPS") (of_ℕ 100)
    ttl ← get_env_number n env (text "ENGINE_MAX_TTL_SECS") (of_ℕ 300)
    penalty ← get_env_number n env (text "ENGINE_LIQUIDATION_PENALTY_BPS") (of_ℕ 1000)
    imr ← get_env_number n env (text "ENGINE_MAX_IMR_BPS") (of_ℕ 5000)
    ok (record {
      wallet = wallet;
      market_registry = market_registry;
      lp_vault = lp_vault;
      order_engine = order_engine;
      multisig = multisig;
      usdc_mint = usdc_mint;
      keepers = keepers;
      markets = chosen;
      fee_split = fee_split;
      pause_flags = pause;
      cooldown_secs = cooldown;
      min_liquidity_buffer_bps = buffer;
      max_ttl_secs = ttl;
      liquidation_penalty_bps = penalty;
      max_imr_bps = imr;
    })
