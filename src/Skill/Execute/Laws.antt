-- ===== src/Skill/Execute/Laws.antt =====
-- What the runs of order-execute.js send, and what is left when one fails.
use easyclaw.Base.{
  ℕ, ◌≡◌, refl, ◌∙◌, ◌⊎◌, inl, inr, Option, none, some, List, [], ◌∷◌, ◌++◌, Text, text, Result, ok,
  err, >>=-eq-ok, or_throw,
}
use easyclaw.Bytes.{le_bytes}
use easyclaw.Scripts.Rpc.{Script, then_run}
use easyclaw.Scripts.Rpc as Rpc
use easyclaw.Skill.Words.Laws.{u64_le-eq-ok}
use easyclaw.Skill.Platform.{Instruction, Solana}
use easyclaw.Skill.Accounts.{UserMargin, decode_user_margin}
use easyclaw.Skill.Accounts.Orders.{IsInRange, order_wire, order_data-eq-ok}
use easyclaw.Skill.Plan.{Plan}
use easyclaw.Skill.Setup.{Accounts, prepare, place_keys, place_instruction, derive_order}
use easyclaw.Skill.Execute.{set_up, place_after, Network, answered, send_instructions, place}

throws :
    {S A B : Type 0} (f : A → Script S B) (p : Result A × S) {m : Text}
    → p.0 ≡ err m
    → then_run f p ≡ (err m, p.1)
throws f (ok a, s) e = cc
throws f (err m, s) e = cc

Result-cases : {A : Type 0} (r : Result A) → ((a : A) × (r ≡ ok a)) ⊎ ((m : Text) × (r ≡ err m))
Result-cases (ok a) = inl (a, refl)
Result-cases (err m) = inr (m, refl)

-- The transactions of a list of instructions: one, unless there are none.
abbrev pub batch : {A : Type 0} → List A → List (List A)
batch [] = []
batch (i ∷ is) = (i ∷ is) ∷ []

module _ (w : Solana) where
  open w use {Key, Chain, send, find_pda, to_bytes, account_data}

  -- The order's address and the instruction, of the account that was read.
  pub record IsPlaced (a : Accounts w) (plan : Plan) (chain : Chain) (order : Key)
      (i : Instruction Key) : Type 0 where
    pub account : List ℕ
    pub margin : UserMargin Key
    pub found : account_data chain a.user_margin ≡ some account
    pub decoded : decode_user_margin w account ≡ ok margin
    pub in_range : IsInRange plan.order
    pub order_eq :
        order
        ≡ find_pda
            (text "order" ∷ to_bytes a.user_margin ∷ le_bytes 8 margin.next_order_nonce ∷ [])
            a.order_engine
    pub instruction_eq : i ≡ record {
      program = a.order_engine;
      keys = place_keys w a order;
      payload = order_wire plan.order;
    }

  derive_order-eq-ok :
      (margin : Key) (nonce : ℕ) (engine : Key) {order : Key}
      → derive_order w margin nonce engine ≡ ok order
      → order ≡ find_pda (text "order" ∷ to_bytes margin ∷ le_bytes 8 nonce ∷ []) engine
  unfolding derive_order
  derive_order-eq-ok margin nonce engine e =
      let (id, eid, k) = >>=-eq-ok _ _ e in let (small, bytes) = u64_le-eq-ok nonce eid in cc

  or_throw-eq-ok : {A : Type 0} (o : Option A) (m : Text) {a : A} → or_throw o m ≡ ok a → o ≡ some a
  or_throw-eq-ok none m e = cc
  or_throw-eq-ok (some a) m e = cc

  placed_eq :
      (a : Accounts w) (plan : Plan) (key : Key) (payload : List ℕ) {order : Key}
      {i : Instruction Key}
      → ◌≡◌ {A = Result (Key × Instruction Key)}
          (ok (
            key,
            record { program = a.order_engine; keys = place_keys w a key; payload = payload },
          ))
          (ok (order, i))
      → payload ≡ order_wire plan.order
      → (order ≡ key)
        × (i ≡ record {
          program = a.order_engine;
          keys = place_keys w a order;
          payload = order_wire plan.order;
        })
  placed_eq a plan key payload e wire = (cc, cc)

  place_instruction-IsPlaced :
      (a : Accounts w) (plan : Plan) (chain : Chain) (order : Key) (i : Instruction Key)
      → place_instruction w a plan chain ≡ ok (order, i)
      → IsPlaced a plan chain order i
  unfolding place_instruction
  place_instruction-IsPlaced a plan chain order i e =
      let (account, found, k1) = >>=-eq-ok _ _ e in
      let (margin, decoded, k2) = >>=-eq-ok _ _ k1 in
      let (key, derived, k3) = >>=-eq-ok _ _ k2 in
      let (payload, written, k4) = >>=-eq-ok _ _ k3 in
      let (range, wire) = order_data-eq-ok plan.order written in
      let same = derive_order-eq-ok a.user_margin margin.next_order_nonce a.order_engine derived in
      let (named, written_as) = placed_eq a plan key payload k4 wire in
      record {
        account = account;
        margin = margin;
        found = or_throw-eq-ok (account_data chain a.user_margin) _ found;
        decoded = decoded;
        in_range = range;
        order_eq = named ∙ same;
        instruction_eq = written_as;
      }

  -- The chain once the setup was sent, or as it was where there is nothing to set up.
  abbrev pub after_setup : List (Instruction Key) → Chain → Chain
  after_setup [] chain = chain
  after_setup (i ∷ is) chain = (send (i ∷ is) chain).1

  answered_ok :
      (is : List (Instruction Key)) (s : Network w) (p : Result Text × Chain) (signature : Text)
      → p.0 ≡ ok signature
      → answered w is s p ≡ (ok (some signature), record { chain = p.1; sent = s.sent ++ is ∷ [] })
  unfolding answered
  answered_ok is s (ok sig, c) signature e = cc
  answered_ok is s (err m, c) signature e = cc

  -- Numbers that do not fit the program's arguments are only noticed after the setup: the run throws,
  -- and the setup has been carried out.
  pub place_late :
      (a : Accounts w) (plan : Plan) (s : Network w) (i : Instruction Key)
      (is : List (Instruction Key)) (signature : Text)
      → prepare w a plan s.chain ≡ ok (i ∷ is)
      → (send (i ∷ is) s.chain).0 ≡ ok signature
      → ¬ IsInRange plan.order
      → (m : Text) × (place w a plan s
          ≡ (err m, record { chain = (send (i ∷ is) s.chain).1; sent = s.sent ++ (i ∷ is) ∷ [] }))
  unfolding place set_up place_after send_instructions
  place_late a plan s i is signature prepared done wide =
      elim (Result-cases (place_instruction w a plan (send (i ∷ is) s.chain).1)) [
        | inl (placed, built) ↦
            absurd (wide (place_instruction-IsPlaced a plan _ placed.0 placed.1 built).in_range)
        | inr (m, failed) ↦ (
          m,
          rw (prepared, answered_ok (i ∷ is) s (send (i ∷ is) s.chain) signature done, failed),
        )
      ]
