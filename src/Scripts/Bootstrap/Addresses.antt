-- ===== src/Scripts/Bootstrap/Addresses.antt =====
-- The program-derived addresses of bootstrap.ts.
use easyclaw.Base.{ℕ, List, [], ◌∷◌, text}
use easyclaw.Bytes.{le_bytes}
use easyclaw.Scripts.Platform.{Numbers, Web3}
use easyclaw.Scripts.Bootstrap.Config.{Config}

-- `toBn(value).toArrayLike(Buffer, "le", 8)`: eight bytes, the lowest first. The ids that seed an
-- address are far below 2^64, beyond which the library throws.
unfoldable pub u64_seed : ℕ → List ℕ
unfolding le_bytes
u64_seed v = le_bytes 8 v

pub record Addresses (K : Type 0) : Type 0 where
  pub global_config : K
  pub keeper_set : K
  pub engine_authority : K
  pub engine_config : K
  pub collateral_vault : K
  pub pool : K
  pub liquidity_auth : K
  pub insurance_auth : K
  pub protocol_fee_auth : K
  pub liquidity_vault : K
  pub insurance_vault : K
  pub protocol_fee_vault : K

module _ (n : Numbers) (w : Web3 n) where
  open n use {Num}
  open w use {Key, find_pda, to_buffer}

  unfoldable pub derive_market_pda : Key → ℕ → Key
  derive_market_pda registry market_id = find_pda (text "market" ∷ u64_seed market_id ∷ []) registry

  unfoldable pub derive_funding_pda : Key → ℕ → Key
  derive_funding_pda engine market_id = find_pda (text "funding" ∷ u64_seed market_id ∷ []) engine

  unfoldable pub keeper_rebate_pda : Key → Key → Key → Key
  keeper_rebate_pda vault pool keeper =
      find_pda (text "keeper-rebate" ∷ to_buffer pool ∷ to_buffer keeper ∷ []) vault

  unfoldable pub derive_addresses : Config Key Num → Addresses Key
  derive_addresses c =
      let pool = find_pda (text "pool" ∷ to_buffer c.usdc_mint ∷ []) c.lp_vault in
      record {
        global_config = find_pda (text "global-config" ∷ []) c.market_registry;
        keeper_set = find_pda (text "keeper-set" ∷ []) c.market_registry;
        engine_authority = find_pda (text "engine-authority" ∷ []) c.order_engine;
        engine_config = find_pda (text "engine-config" ∷ []) c.order_engine;
        collateral_vault = find_pda (text "collateral-vault" ∷ []) c.order_engine;
        pool = pool;
        liquidity_auth = find_pda (text "liquidity-auth" ∷ to_buffer pool ∷ []) c.lp_vault;
        insurance_auth = find_pda (text "insurance-auth" ∷ to_buffer pool ∷ []) c.lp_vault;
        protocol_fee_auth = find_pda (text "protocol-fee-auth" ∷ to_buffer pool ∷ []) c.lp_vault;
        liquidity_vault = find_pda (text "liquidity-vault" ∷ to_buffer pool ∷ []) c.lp_vault;
        insurance_vault = find_pda (text "insurance-vault" ∷ to_buffer pool ∷ []) c.lp_vault;
        protocol_fee_vault = find_pda (text "protocol-fee-vault" ∷ to_buffer pool ∷ []) c.lp_vault;
      }
