-- ===== src/Skill/Execute.antt =====
-- `main` of order-execute.js with `sendInstructions` of common.js. Between two of its own
-- transactions nothing changes the cluster, and `getLatestBlockhash` is a part of sending.
pub mod Laws
use easyclaw.Base.{ℕ, Option, none, some, List, [], ◌∷◌, ◌++◌, Text, text, Dict, Result, ok, err}
use easyclaw.Scripts.Rpc.{Script, pure, lift, then_run, ◌>>=◌}
use easyclaw.Skill.Words.{ArgValue}
use easyclaw.Skill.Platform.{Instruction, Solana}
use easyclaw.Skill.Plan.{Plan, option, read_plan}
use easyclaw.Skill.Setup.{Host, Accounts, derive_accounts, prepare, place_instruction}

module _ (w : Solana) where
  open w use {Key, Chain, send}

  -- The cluster, and the transactions that were sent to it, also those that failed.
  pub record Network : Type 0 where
    pub chain : Chain
    pub sent : List (List (Instruction Key))

  -- What is printed of an order that was placed.
  pub record Receipt : Type 0 where
    pub setup_tx : Option Text
    pub order : Key
    pub place_tx : Option Text

  answered : List (Instruction Key) → Network → Result Text × Chain → Result (Option Text) × Network
  answered is s (ok signature, chain) =
      (ok (some signature), record { chain = chain; sent = s.sent ++ is ∷ [] })
  answered is s (err message, chain) =
      (err message, record { chain = chain; sent = s.sent ++ is ∷ [] })

  -- `null` for no instructions, of which nothing is sent.
  unfoldable pub send_instructions : List (Instruction Key) → Script Network (Option Text)
  unfolding answered
  send_instructions [] s = (ok none, s)
  send_instructions (i ∷ is) s = answered (i ∷ is) s (send (i ∷ is) s.chain)

  -- A computation that reads the cluster.
  abbrev pub ask : {A : Type 0} → (Chain → Result A) → Script Network A
  ask f s = (f s.chain, s)

  -- The last part, once the setup is done: `placed` is the order's address and the instruction.
  unfoldable pub send_placed : Option Text → Key × Instruction Key → Script Network Receipt
  unfolding send_instructions
  send_placed setup_tx placed = do
    place_tx ← send_instructions (placed.1 ∷ [])
    pure (record { setup_tx = setup_tx; order = placed.0; place_tx = place_tx })

  unfoldable pub place_after : Accounts w → Plan → Option Text → Script Network Receipt
  unfolding send_placed
  place_after a plan setup_tx = ask (place_instruction w a plan) >>= send_placed setup_tx

  unfoldable pub set_up : Accounts w → Plan → List (Instruction Key) → Script Network Receipt
  unfolding send_instructions place_after
  set_up a plan setup = send_instructions setup >>= place_after a plan

  unfoldable pub place : Accounts w → Plan → Script Network Receipt
  unfolding set_up
  place a plan = ask (prepare w a plan) >>= set_up a plan

  place_order_of : Host Key → Plan → Script Network (Option Receipt)
  place_order_of host plan = do
    a ← lift (derive_accounts w host plan.order.market_id)
    receipt ← place a plan
    pure (some receipt)

  -- Nothing but the usage is printed for `--help`.
  unfoldable pub execute : Host Key → ℕ → Dict ArgValue → Script Network (Option Receipt)
  unfolding place_order_of
  execute host now args = elim (option (text "help") args) [
    | some _ ↦ pure none
    | none ↦ lift (read_plan now args) >>= place_order_of host
  ]
