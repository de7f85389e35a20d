-- ===== src/Skill/Balance.antt =====
-- What balance.js reports: the balances of the signer and its orders.
pub mod Laws
mod Tests
use easyclaw.Base.{
  ℕ, Bool, true, false, Option, none, some, List, [], ◌∷◌, ◌++◌, if◌then◌else◌, ltb, ◌==◌, filter,
  length, map, take, or_throw, Text, text, show_ℕ, Result, ok, err, ◌>>=◌,
}
use easyclaw.Skill.Platform.{Solana}
use easyclaw.Skill.Accounts.{
  EngineConfig, UserMargin, Order, decode_engine_config, decode_user_margin, decode_order,
  side_name, order_type_name, order_status_name,
}
use easyclaw.Skill.Setup.{
  Host, read_signer, pubkey_from_env, default_order_engine, default_market_registry,
  derive_engine_config, derive_user_margin,
}

-- An order with the address of its account.
pub record Listed (K : Type 0) : Type 0 where
  pub pubkey : K
  pub order : Order K

-- Which accounts decode; the others are left out.
abbrev pub decoded_to : {K : Type 0} → K → Result (Order K) → List (Listed K)
decoded_to k (ok o) = record { pubkey = k; order = o } ∷ []
decoded_to k (err _) = []

-- `sort` by `a.id > b.id ? -1 : 1`: the greater id stands first. The ids of a margin account's orders
-- are all different.
unfoldable pub insert_order : {K : Type 0} → Listed K → List (Listed K) → List (Listed K)
insert_order o [] = o ∷ []
insert_order o (p ∷ ps) =
    let further = p ∷ insert_order o ps in if ltb p.order.id o.order.id then o ∷ p ∷ ps else further

unfoldable pub sort_orders : {K : Type 0} → List (Listed K) → List (Listed K)
unfolding insert_order
sort_orders [] = []
sort_orders (o ∷ os) = insert_order o (sort_orders os)

abbrev pub is_open : {K : Type 0} → Listed K → Bool
is_open o = o.order.status == 0

module _ (w : Solana) where
  open w use {Key, Chain, account_data, to_base58, ata_of}

  -- What else is asked of the cluster: the raw and the displayed amount of a token account, the lamports
  -- of an account, and a program's accounts that have a key at an offset.
  pub record Queries : Type 0 where
    pub token_balance : Chain → Key → Result (Text × Text)
    pub lamports : Chain → Key → Result ℕ
    pub program_accounts : Chain → Key → ℕ → Key → Result (List (Key × List ℕ))

  pub record Report : Type 0 where
    pub signer : Key
    pub engine_config : Key
    pub user_margin : Key
    pub usdc_mint : Key
    pub usdc_ata : Key
    pub lamports : ℕ
    pub usdc : Option (Text × Text)
    pub margin : Option (UserMargin Key)
    pub orders : List (Listed Key)

  unfoldable pub decoded_orders : List (Key × List ℕ) → List (Listed Key)
  decoded_orders [] = []
  decoded_orders ((k, bytes) ∷ accounts) =
      decoded_to k (decode_order w bytes) ++ decoded_orders accounts

  -- `info ? read(info.data) : null`
  read_margin : Option (List ℕ) → Result (Option (UserMargin Key))
  read_margin none = ok none
  read_margin (some bytes) = decode_user_margin w bytes >>= λ m. ok (some m)

  module _ (q : Queries) where
    open q use {token_balance, program_accounts}

    read_balance : Chain → Key → Option (List ℕ) → Result (Option (Text × Text))
    read_balance chain ata none = ok none
    read_balance chain ata (some bytes) = token_balance chain ata >>= λ b. ok (some b)

    -- `main`, up to what it prints
    unfoldable pub balance_report : Host Key → Chain → Result Report
    unfolding read_signer pubkey_from_env derive_engine_config derive_user_margin read_margin
        read_balance decoded_orders sort_orders
    balance_report host chain = do
      signer ← read_signer host
      order_engine ←
          pubkey_from_env w host.env (text "ORDER_ENGINE_PROGRAM_ID") default_order_engine
      registry ←
          pubkey_from_env w host.env (text "MARKET_REGISTRY_PROGRAM_ID") default_market_registry
      let engine_config = derive_engine_config w order_engine
      let user_margin = derive_user_margin w signer order_engine
      bytes ←
          or_throw (account_data chain engine_config)
            (text "Engine config not found: " ++ to_base58 engine_config)
      config ← decode_engine_config w bytes
      margin ← read_margin (account_data chain user_margin)
      let ata = ata_of config.usdc_mint signer
      usdc ← read_balance chain ata (account_data chain ata)
      lamports ← q.lamports chain signer
      accounts ← program_accounts chain order_engine 16 user_margin
      ok (record {
        signer = signer;
        engine_config = engine_config;
        user_margin = user_margin;
        usdc_mint = config.usdc_mint;
        usdc_ata = ata;
        lamports = lamports;
        usdc = usdc;
        margin = margin;
        orders = sort_orders (decoded_orders accounts);
      })

  -- The line of an order.
  unfoldable pub order_line : Listed Key → Text
  order_line o =
      text "- id="
      ++ (show_ℕ o.order.id
          ++ (text " market="
              ++ (show_ℕ o.order.market_id
                  ++ (text " side="
                      ++ (side_name o.order.side
                          ++ (text " type="
                              ++ (order_type_name o.order.order_type
                                  ++ (text " margin="
                                      ++ (show_ℕ o.order.margin
                                          ++ (text " price="
                                              ++ (show_ℕ o.order.price
                                                  ++ (text " status="
                                                      ++ (order_status_name o.order.status
                                                          ++ (text " pubkey="
                                                            ++ to_base58 o.pubkey))))))))))))))

  -- The lines on the orders, the first twenty that are open among them.
  unfoldable pub order_lines : List (Listed Key) → List Text
  unfolding order_line
  order_lines orders =
      let open_orders = filter is_open orders in
      (text "orders: total="
        ++ (show_ℕ (length orders) ++ (text ", open=" ++ show_ℕ (length open_orders))))
      ∷ map order_line (take 20 open_orders)
