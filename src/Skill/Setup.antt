-- ===== src/Skill/Setup.antt =====
-- What `main` of order-execute.js works out before and after its first transaction, with `readSigner`,
-- the addresses and `ensureAtaExists` of common.js.
use easyclaw.Base.{
  ℕ, Bool, true, false, ◌&&◌, not, Option, none, List, [], ◌∷◌, ◌++◌, if◌then◌else◌, ltb, is_empty,
  is_some, or_nonempty, or_else, Text, text, trim, Result, ok, ◌>>=◌, ◌>>◌, guard, or_throw,
}
use easyclaw.Scripts.Env.{Env, is_unset}
use easyclaw.Skill.Words.{pos, u64_le}
use easyclaw.Skill.Platform.{Meta, Instruction, Solana}
use easyclaw.Skill.Accounts.{
  create_margin_account, create_user_market_position, deposit_collateral, EngineConfig,
  decode_engine_config, decode_user_margin, order_data,
}
use easyclaw.Skill.Plan.{Plan}

-- The process around a script: its environment, its home directory and files, `path.join` and
-- `path.resolve`, and the public key of the `Keypair` that is read from a file's text.
pub record Host (K : Type 0) : Type 0 where
  pub env : Env
  pub home : Text
  pub join : Text → Text → Text
  pub resolve : Text → Text
  pub read_file : Text → Option Text
  pub keypair : Text → Result K

-- `DEFAULT_PROGRAM_IDS`
abbrev pub default_order_engine : Text
default_order_engine = text "GpMobZUKPtEE1eiZQAADo2ecD54JXhNHPNts5kPGwLtb"

abbrev pub default_market_registry : Text
default_market_registry = text "BsA8fuyw8XqBMiUfpLbdiBwbKg8MZMHB1jdZzjs7c46q"

-- The file of the signer's key.
unfoldable pub keypair_path : {K : Type 0} → Host K → Text
keypair_path host = host.resolve (
    or_else
      (or_nonempty (host.env (text "KEYPAIR_PATH"))
        (or_nonempty (host.env (text "ANCHOR_WALLET")) none))
      (host.join host.home (text ".config/solana/id.json")))

-- The public key of `readSigner().signer`.
unfoldable pub read_signer : {K : Type 0} → Host K → Result K
unfolding keypair_path
read_signer host = do
  content ←
      or_throw (host.read_file (keypair_path host))
        (text "Signer keypair not found: " ++ keypair_path host)
  host.keypair content

module _ (w : Solana) where
  open w use {
    Key, public_key, find_pda, to_bytes, to_base58, ata_of, create_ata, system_program,
    token_program, Chain, account_data,
  }

  unfoldable pub pubkey_from_env : Env → Text → Text → Result Key
  pubkey_from_env env name fallback =
      let value = if is_unset (env name) then fallback else trim (or_else (env name) []) in
      do guard (not (is_empty value)) (text "Missing required env: " ++ name); public_key value

  unfoldable pub derive_engine_config : Key → Key
  derive_engine_config order_engine = find_pda (text "engine-config" ∷ []) order_engine

  unfoldable pub derive_user_margin : Key → Key → Key
  derive_user_margin user order_engine =
      find_pda (text "user-margin" ∷ to_bytes user ∷ []) order_engine

  unfoldable pub derive_global_config : Key → Key
  derive_global_config market_registry = find_pda (text "global-config" ∷ []) market_registry

  unfoldable pub derive_user_market_position : Key → ℕ → Key → Result Key
  derive_user_market_position user_margin market_id order_engine = do
    id ← u64_le (pos market_id)
    ok (find_pda (text "user-market-pos" ∷ to_bytes user_margin ∷ id ∷ []) order_engine)

  unfoldable pub derive_market : ℕ → Key → Result Key
  derive_market market_id market_registry = do
    id ← u64_le (pos market_id)
    ok (find_pda (text "market" ∷ id ∷ []) market_registry)

  unfoldable pub derive_order : Key → ℕ → Key → Result Key
  derive_order user_margin nonce order_engine = do
    id ← u64_le (pos nonce)
    ok (find_pda (text "order" ∷ to_bytes user_margin ∷ id ∷ []) order_engine)

  -- The addresses that `main` works with.
  pub record Accounts : Type 0 where
    pub signer : Key
    pub order_engine : Key
    pub market_registry : Key
    pub engine_config : Key
    pub global_config : Key
    pub market : Key
    pub user_margin : Key
    pub user_market_position : Key

  -- `readSigner`, `programIdsFromEnv` and the addresses.
  unfoldable pub derive_accounts : Host Key → ℕ → Result Accounts
  unfolding read_signer
  derive_accounts host market_id = do
    signer ← read_signer host
    order_engine ← pubkey_from_env host.env (text "ORDER_ENGINE_PROGRAM_ID") default_order_engine
    market_registry ←
        pubkey_from_env host.env (text "MARKET_REGISTRY_PROGRAM_ID") default_market_registry
    market ← derive_market market_id market_registry
    position ←
        derive_user_market_position (derive_user_margin signer order_engine) market_id order_engine
    ok (record {
      signer = signer;
      order_engine = order_engine;
      market_registry = market_registry;
      engine_config = derive_engine_config order_engine;
      global_config = derive_global_config market_registry;
      market = market;
      user_margin = derive_user_margin signer order_engine;
      user_market_position = position;
    })

  abbrev pub signs : Key → Meta Key
  signs k = record { pubkey = k; is_signer = true; is_writable = true }

  abbrev pub writes : Key → Meta Key
  writes k = record { pubkey = k; is_signer = false; is_writable = true }

  abbrev pub reads : Key → Meta Key
  reads k = record { pubkey = k; is_signer = false; is_writable = false }

  -- `connection.getAccountInfo(key)` is not null.
  abbrev pub exists : Chain → Key → Bool
  exists chain k = is_some (account_data chain k)

  -- An instruction that is pushed under a test.
  abbrev pub pushed_if : Bool → Instruction Key → List (Instruction Key)
  pushed_if test i = if test then i ∷ [] else []

  module _ (a : Accounts) where
    abbrev pub create_margin : Instruction Key
    create_margin = record {
      program = a.order_engine;
      keys =
          signs a.signer ∷ reads a.engine_config ∷ writes a.user_margin ∷ reads system_program ∷ [];
      payload = create_margin_account;
    }

    abbrev pub create_position : List ℕ → Instruction Key
    create_position id = record {
      program = a.order_engine;
      keys =
          signs a.signer
          ∷ reads a.engine_config
          ∷ writes a.user_margin
          ∷ writes a.user_market_position
          ∷ reads system_program
          ∷ [];
      payload = create_user_market_position ++ id;
    }

    abbrev pub deposit_from : Key → EngineConfig Key → List ℕ → Instruction Key
    deposit_from ata config amount = record {
      program = a.order_engine;
      keys =
          signs a.signer
          ∷ reads a.engine_config
          ∷ writes a.user_margin
          ∷ writes ata
          ∷ writes config.collateral_vault
          ∷ reads token_program
          ∷ [];
      payload = deposit_collateral ++ amount;
    }

    -- `setupInstructions`, in their order.
    unfoldable pub setup_instructions :
        Plan → EngineConfig Key → Chain → Result (List (Instruction Key))
    setup_instructions plan config chain =
        let ata = ata_of config.usdc_mint a.signer in
        do
          position ←
              (if not plan.skip_create_position && not (exists chain a.user_market_position)
                then u64_le (pos plan.order.market_id) >>= (λ id. ok (create_position id ∷ []))
                else ok [])
          deposit ←
              (if ltb 0 plan.deposit
                then u64_le (pos plan.deposit)
                  >>= (λ amount. ok (deposit_from ata config amount ∷ []))
                else ok [])
          ok (
              pushed_if (not (exists chain a.user_margin)) create_margin
              ++ (position
                  ++ (pushed_if (not (exists chain ata))
                        (create_ata a.signer ata a.signer config.usdc_mint)
                      ++ deposit)))

    -- The tests up to the first transaction, and what it is to do.
    unfoldable pub prepare : Plan → Chain → Result (List (Instruction Key))
    unfolding setup_instructions
    prepare plan chain = do
      bytes ←
          or_throw (account_data chain a.engine_config)
            (text "Engine config not found: " ++ to_base58 a.engine_config)
      config ← decode_engine_config w bytes
      setup_instructions plan config chain

    -- The accounts of `placeIx`, with the order's address.
    abbrev pub place_keys : Key → List (Meta Key)
    place_keys order =
        signs a.signer
        ∷ reads a.engine_config
        ∷ reads a.market_registry
        ∷ reads a.global_config
        ∷ reads a.market
        ∷ writes a.user_margin
        ∷ writes order
        ∷ reads system_program
        ∷ []

    -- After the setup: the order's address and the instruction that places it.
    unfoldable pub place_instruction : Plan → Chain → Result (Key × Instruction Key)
    unfolding derive_order
    place_instruction plan chain = do
      bytes ←
          or_throw (account_data chain a.user_margin)
            (text "User margin account is still missing after setup")
      margin ← decode_user_margin w bytes
      order ← derive_order a.user_margin margin.next_order_nonce a.order_engine
      payload ← order_data plan.order
      ok (order, record { program = a.order_engine; keys = place_keys order; payload = payload })
