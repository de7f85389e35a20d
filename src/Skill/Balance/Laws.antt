-- ===== src/Skill/Balance/Laws.antt =====
-- About the orders in the report of balance.js.
use easyclaw.Base.{
  ℕ, ◌+◌, ◌≤◌, ◌≡◌, refl, sym, ap, ◌∙◌, subst, Bool, Bool-cases, inl, inr, List, [], ◌∷◌, arith,
  All, if◌then◌else◌, ltb, ◌++◌, Text, text, Result, ok, err, or_throw, >>=-eq-ok,
}
use easyclaw.Skill.Platform.{Solana}
use easyclaw.Skill.Accounts.{Order, decode_engine_config, decode_order}
use easyclaw.Skill.Setup.{
  Host, read_signer, pubkey_from_env, default_order_engine, default_market_registry,
  derive_engine_config, derive_user_margin,
}
use easyclaw.Skill.Balance.{
  Listed, decoded_to, insert_order, sort_orders, decoded_orders, Queries, Report, read_margin,
  read_balance, balance_report,
}

module _ {K : Type 0} where
  -- No id is greater than one that stands before it.
  abbrev pub IsFalling : List (Listed K) → Type 0
  IsFalling [] = Unit
  IsFalling (o ∷ os) = All (λ p. p.order.id ≤ o.order.id) os × IsFalling os

  -- How many pass a test.
  abbrev pub tally : (Listed K → Bool) → List (Listed K) → ℕ
  tally test [] = 0
  tally test (o ∷ os) = (if test o then 1 else 0) + tally test os

  tally-insert_order :
      (test : Listed K → Bool) (o : Listed K) (os : List (Listed K))
      → tally test (insert_order o os) ≡ (if test o then 1 else 0) + tally test os
  unfolding insert_order
  tally-insert_order test o [] = refl
  tally-insert_order test o (p ∷ ps) = ground (arith, tally-insert_order test o ps)

  tally-sort_orders :
      (test : Listed K → Bool) (os : List (Listed K)) → tally test (sort_orders os) ≡ tally test os
  unfolding sort_orders
  tally-sort_orders test [] = refl
  tally-sort_orders test (o ∷ os) =
      omega (arith, tally-insert_order test o (sort_orders os), tally-sort_orders test os)

  insert_order-All :
      (P : Listed K → Type 0) (o : Listed K) (os : List (Listed K))
      → P o
      → All P os
      → All P (insert_order o os)
  unfolding insert_order
  insert_order-All P o [] here rest = (here, tt)
  insert_order-All P o (p ∷ ps) here rest = elim (Bool-cases (ltb p.order.id o.order.id)) [
    | inl greater ↦ rw greater (here, rest)
    | inr small ↦ rw small (rest.0, insert_order-All P o ps here rest.1)
  ]

  below :
      (o p : Listed K) (ps : List (Listed K))
      → p.order.id ≤ o.order.id
      → All (λ r. r.order.id ≤ p.order.id) ps
      → All (λ r. r.order.id ≤ o.order.id) ps
  below o p [] le rest = tt
  below o p (r ∷ rs) le rest = (omega (arith, rest.0, le), below o p rs le rest.1)

  insert_order-IsFalling :
      (o : Listed K) (os : List (Listed K)) → IsFalling os → IsFalling (insert_order o os)
  unfolding insert_order
  insert_order-IsFalling o [] h = (tt, tt)
  insert_order-IsFalling o (p ∷ ps) h = elim (Bool-cases (ltb p.order.id o.order.id)) [
    | inl greater ↦
        let le : p.order.id ≤ o.order.id = ground (arith, greater) in
        rw greater ((le, below o p ps le h.0), h)
    | inr small ↦ rw small (
      insert_order-All (λ r. r.order.id ≤ p.order.id) o ps (ground (arith, small)) h.0,
      insert_order-IsFalling o ps h.1,
    )
  ]

  sort_orders-IsFalling : (os : List (Listed K)) → IsFalling (sort_orders os)
  unfolding sort_orders
  sort_orders-IsFalling [] = tt
  sort_orders-IsFalling (o ∷ os) =
      insert_order-IsFalling o (sort_orders os) (sort_orders-IsFalling os)

module _ (w : Solana) (q : Queries w) where
  open w use {Key, Chain, account_data, ata_of}
  open q use {program_accounts}

  -- The orders that a list of accounts holds: one of every account that decodes, and no other.
  pub data Decodes : List (Key × List ℕ) → List (Listed Key) → Type 0 where
    none_left : Decodes [] []
    decodes :
        (k : Key) (bytes : List ℕ) (o : Order Key) {accounts : List (Key × List ℕ)}
        {os : List (Listed Key)}
        → decode_order w bytes ≡ ok o
        → Decodes accounts os
        → Decodes ((k, bytes) ∷ accounts) (record { pubkey = k; order = o } ∷ os)
    fails :
        (k : Key) (bytes : List ℕ) (m : Text) {accounts : List (Key × List ℕ)}
        {os : List (Listed Key)}
        → decode_order w bytes ≡ err m
        → Decodes accounts os
        → Decodes ((k, bytes) ∷ accounts) os

  decoded_orders-Decodes :
      (accounts : List (Key × List ℕ)) → Decodes accounts (decoded_orders w accounts)
  unfolding decoded_orders
  decoded_orders-Decodes [] = none_left
  decoded_orders-Decodes ((k, bytes) ∷ accounts) =
      go (decode_order w bytes) refl (decoded_orders-Decodes accounts)
    where
      go :
          (r : Result (Order Key))
          → decode_order w bytes ≡ r
          → Decodes accounts (decoded_orders w accounts)
          → Decodes ((k, bytes) ∷ accounts) (decoded_to k r ++ decoded_orders w accounts)
      go (ok o) e rest = decodes k bytes o e rest
      go (err m) e rest = fails k bytes m e rest

  orders_eq :
      (r t : Report w)
      → ◌≡◌ {A = Result (Report w)} (ok r) (ok t)
      → (r.orders ≡ t.orders) × (r.user_margin ≡ t.user_margin)
  orders_eq r t e = (cc, cc)

  -- If the report is made, its orders are those of the accounts that the cluster lists of the order
  -- engine for the margin account and that decode, each as often as it is there, the greatest id first.
  pub balance_report-orders :
      (host : Host Key) (chain : Chain) {r : Report w}
      → balance_report w q host chain ≡ ok r
      → (engine : Key) × (accounts : List (Key × List ℕ)) × (os : List (Listed Key))
        × (pubkey_from_env w host.env (text "ORDER_ENGINE_PROGRAM_ID") default_order_engine
            ≡ ok engine)
        × (program_accounts chain engine 16 r.user_margin ≡ ok accounts)
        × Decodes accounts os
        × IsFalling r.orders
        × ((test : Listed Key → Bool) → tally test r.orders ≡ tally test os)
  unfolding balance_report
  balance_report-orders host chain {r} e =
      let (signer, e1, k1) = >>=-eq-ok (read_signer host) _ e in
      let (engine, e2, k2) =
        >>=-eq-ok (pubkey_from_env w host.env (text "ORDER_ENGINE_PROGRAM_ID") default_order_engine)
          _ k1 in
      let (registry, e3, k3) =
        >>=-eq-ok
          (pubkey_from_env w host.env (text "MARKET_REGISTRY_PROGRAM_ID") default_market_registry) _
          k2 in
      let (bytes, e4, k4) =
        >>=-eq-ok (or_throw (account_data chain (derive_engine_config w engine)) _) _ k3 in
      let (config, e5, k5) = >>=-eq-ok (decode_engine_config w bytes) _ k4 in
      let (margin, e6, k6) =
        >>=-eq-ok (read_margin w (account_data chain (derive_user_margin w signer engine))) _ k5 in
      let (usdc, e7, k7) =
        >>=-eq-ok
          (read_balance w q chain (ata_of config.usdc_mint signer)
            (account_data chain (ata_of config.usdc_mint signer)))
          _ k6 in
      let (sol, e8, k8) = >>=-eq-ok (q.lamports chain signer) _ k7 in
      let (accounts, listed, k9) =
        >>=-eq-ok (program_accounts chain engine 16 (derive_user_margin w signer engine)) _ k8 in
      let (orders, account) = orders_eq _ r k9 in
      (
        engine,
        accounts,
        decoded_orders w accounts,
        e2,
        subst (λ k. program_accounts chain engine 16 k ≡ ok accounts) account listed,
        decoded_orders-Decodes accounts,
        subst IsFalling orders (sort_orders-IsFalling (decoded_orders w accounts)),
        λ test. ap (tally test) (sym orders) ∙ tally-sort_orders test (decoded_orders w accounts),
      )
