-- ===== src/Scripts/Funding/Laws.antt =====
-- What fund_lp.ts sends.
use easyclaw.Base.{
  ◌≡◌, refl, sym, ap, ◌∙◌, Option, none, some, List, [], ◌∷◌, ◌++◌, append_assoc, append-nil, ℕ,
  text, Text, Bool, true, false, Result, ok, err, or_throw,
}
use easyclaw.Numbers.{Numbers}
use easyclaw.Skill.Platform.{Solana, Instruction, Meta}
use easyclaw.Scripts.Rpc.{Script, then_run, pure, ◌>>=◌}
use easyclaw.Scripts.Funding.{
  Vault, Ledger, Funding, send_tx, unless_there, ensure_ata, pool_of, position_of, create_position,
  build_instruction, deposit, balance, send_deposit, deposit_into, fund,
}

module _ {S A B : Type 0} where
  -- A script that returns: its first step returned, and then the rest.
  pub then_run-eq-ok :
      (k : A → Script S B) (p : Result A × S) {b : B} {t : S}
      → then_run k p ≡ (ok b, t)
      → (a : A) × (s : S) × (p ≡ (ok a, s)) × (k a s ≡ (ok b, t))
  then_run-eq-ok k (ok a, s) e = (a, s, refl, e)
  then_run-eq-ok k (err message, s) e = cc

or_throw-ok :
    {A : Type 0} (o : Option A) (message : Text) {a : A} → or_throw o message ≡ ok a → o ≡ some a
or_throw-ok none message e = cc
or_throw-ok (some b) message e = cc

module _ (n : Numbers) (w : Solana) where
  open w use {Key, Chain, account_data}

  -- The instruction, where the account is missing.
  abbrev pub if_missing : Option (List ℕ) → Instruction Key → List (Instruction Key)
  if_missing (some bytes) instruction = []
  if_missing none instruction = instruction ∷ []

  -- An account that signs or not, and is written or not.
  abbrev pub listed : Bool → Bool → Key → Meta Key
  listed signs written key = record { pubkey = key; is_signer = signs; is_writable = written }

  -- `CreateLpPosition` of the program: user, pool, lp_position, system_program.
  abbrev pub position_wire : Funding n w → Instruction Key
  position_wire f =
      let pool = w.find_pda (text "pool" ∷ w.to_bytes f.mint ∷ []) f.program in
      let position =
        w.find_pda (text "lp-pos" ∷ w.to_bytes pool ∷ w.to_bytes f.signer ∷ []) f.program in
      record {
        program = f.program;
        keys =
            listed true true f.signer
            ∷ listed false false pool
            ∷ listed false true position
            ∷ listed false false w.system_program
            ∷ [];
        payload = 157 ∷ 34 ∷ 123 ∷ 115 ∷ 132 ∷ 209 ∷ 158 ∷ 124 ∷ [];
      }

  -- `DepositLp` of the program: user, pool, lp_position, user_token_account, liquidity_vault,
  -- token_program.
  abbrev pub deposit_wire : Funding n w → Key → Key → List ℕ → Instruction Key
  deposit_wire f user_token_account vault amount =
      let pool = w.find_pda (text "pool" ∷ w.to_bytes f.mint ∷ []) f.program in
      let position =
        w.find_pda (text "lp-pos" ∷ w.to_bytes pool ∷ w.to_bytes f.signer ∷ []) f.program in
      record {
        program = f.program;
        keys =
            listed true true f.signer
            ∷ listed false true pool
            ∷ listed false true position
            ∷ listed false true user_token_account
            ∷ listed false true vault
            ∷ listed false false w.token_program
            ∷ [];
        payload = 83 ∷ 107 ∷ 16 ∷ 26 ∷ 26 ∷ 20 ∷ 130 ∷ 56 ∷ amount;
      }

  send_tx-sent :
      (i : Instruction Key) (s : Ledger n w) {r : Result Text} {t : Ledger n w}
      → send_tx n w i s ≡ (r, t)
      → t.sent ≡ s.sent ++ i ∷ []
  unfolding send_tx
  send_tx-sent i s e = sym (ap (λ p. p.1.sent) e)

  unless_there-sent :
      (info : Option (List ℕ)) (i : Instruction Key) (s : Ledger n w) {t : Ledger n w}
      → unless_there n w info i s ≡ (ok tt, t)
      → t.sent ≡ s.sent ++ if_missing info i
  unfolding unless_there
  unless_there-sent (some bytes) i s e = sym (ap (λ p. p.1.sent) e) ∙ sym (append-nil s.sent)
  unless_there-sent none i s e =
      let (signature, s1, sends, rest) = then_run-eq-ok _ (send_tx n w i s) e in
      ap (λ p. p.1.sent) (sym rest) ∙ send_tx-sent i s sends

  key_eq : {a b : Key} → ◌≡◌ {A = Result Key} (ok a) (ok b) → b ≡ a
  key_eq e = cc

  ensure_ata-sent :
      (owner mint payer : Key) (s : Ledger n w) {ata : Key} {t : Ledger n w}
      → ensure_ata n w owner mint payer s ≡ (ok ata, t)
      → (ata ≡ w.ata_of mint owner)
        × (t.sent
            ≡ s.sent
              ++ if_missing
                  (account_data s.chain (w.ata_of mint owner))
                  (w.create_ata payer (w.ata_of mint owner) owner mint))
  unfolding ensure_ata
  ensure_ata-sent owner mint payer s e =
      let (done, s1, sends, rest) =
        then_run-eq-ok _
          (unless_there n w (account_data s.chain (w.ata_of mint owner))
            (w.create_ata payer (w.ata_of mint owner) owner mint) s)
          e in
      (key_eq (ap (λ p. p.0) rest), ap (λ p. p.1.sent) (sym rest) ∙ unless_there-sent _ _ s sends)

  module _ (v : Vault n w) (f : Funding n w) where
    open f use {signer, program, mint}

    send_deposit-sent :
        (i : Instruction Key) (ata : Key) (s : Ledger n w) {t : Ledger n w}
        → send_deposit n w v i ata s ≡ (ok tt, t)
        → t.sent ≡ s.sent ++ i ∷ []
    unfolding send_deposit
    send_deposit-sent i ata s {t} e = go (then_run-eq-ok _ (send_tx n w i s) e)
      where
        last :
            (s1 : Ledger n w)
            → then_run (λ after. pure tt) (v.token_balance s1.chain ata, s1) ≡ (ok tt, t)
            → t.sent ≡ s1.sent
        last s1 e1 =
            let (after, s2, same, rest) =
              then_run-eq-ok (λ after. pure tt) (v.token_balance s1.chain ata, s1) e1 in
            sym (ap (λ p. p.1.sent) same ∙ ap (λ p. p.1.sent) rest)

        go :
            (signature : Text) × (s1 : Ledger n w) × (send_tx n w i s ≡ (ok signature, s1))
              × (then_run (λ after. pure tt) (v.token_balance s1.chain ata, s1) ≡ (ok tt, t))
            → t.sent ≡ s.sent ++ i ∷ []
        go (signature, s1, sends, rest) = last s1 rest ∙ send_tx-sent i s sends

    amount-sent :
        (instruction : List ℕ → Instruction Key) (ata : Key) (s : Ledger n w) {t : Ledger n w}
        → then_run (λ amount. send_deposit n w v (instruction amount) ata) (v.u64_le f.amount, s)
          ≡ (ok tt, t)
        → (amount : List ℕ) × (v.u64_le f.amount ≡ ok amount)
          × (t.sent ≡ s.sent ++ instruction amount ∷ [])
    amount-sent instruction ata s e =
        let (amount, s1, same, rest) =
          then_run-eq-ok (λ amount. send_deposit n w v (instruction amount) ata)
            (v.u64_le f.amount, s) e in
        (
          amount,
          ap (λ p. p.0) same,
          send_deposit-sent (instruction amount) ata s1 rest
              ∙ ap (λ l. l ++ instruction amount ∷ []) (sym (ap (λ p. p.1.sent) same)),
        )

    deposit_into-sent :
        (vault ata : Key) (s : Ledger n w) {t : Ledger n w}
        → deposit_into n w v f vault ata s ≡ (ok tt, t)
        → let pool = pool_of n w mint program in
          (amount : List ℕ) × (v.u64_le f.amount ≡ ok amount)
          × (t.sent
              ≡ s.sent
                ++ (if_missing
                      (account_data s.chain (position_of n w pool signer program))
                      (create_position n w program pool signer)
                    ++ deposit n w program pool signer ata vault amount ∷ []))
    unfolding deposit_into
    deposit_into-sent vault ata s e =
        let pool = pool_of n w mint program in
        let (done, s1, made, rest) =
          then_run-eq-ok _
            (unless_there n w (account_data s.chain (position_of n w pool signer program))
              (create_position n w program pool signer) s)
            e in
        let (amount, valued, sent) =
          amount-sent (λ a. deposit n w program pool signer ata vault a) ata s1 rest in
        (
          amount,
          valued,
          sent
              ∙ ap (λ l. l ++ deposit n w program pool signer ata vault amount ∷ [])
                  (unless_there-sent _ _ s made)
              ∙ append_assoc s.sent _ _,
        )

    -- The rest of the run, from the vault on.
    abbrev from_vault : Key → Script (Ledger n w) (Unit {0})
    from_vault vault = ensure_ata n w signer mint signer >>= λ ata.
        balance n w v ata >>= λ before. deposit_into n w v f vault ata

    from_vault-sent :
        (vault : Key) (s : Ledger n w) {t : Ledger n w}
        → from_vault vault s ≡ (ok tt, t)
        → let pool = pool_of n w mint program in
          let ata = w.ata_of mint signer in
          (amount : List ℕ) × (v.u64_le f.amount ≡ ok amount)
          × (t.sent
              ≡ s.sent
                ++ (if_missing (account_data s.chain ata) (w.create_ata signer ata signer mint)
                    ++ (if_missing
                          (account_data
                            (ensure_ata n w signer mint signer s).1.chain
                            (position_of n w pool signer program))
                          (create_position n w program pool signer)
                        ++ deposit n w program pool signer ata vault amount ∷ [])))
    from_vault-sent vault s {t} e =
        let (ata, s2, made, rest) = then_run-eq-ok _ (ensure_ata n w signer mint signer s) e in
        let (same, sent) = ensure_ata-sent signer mint signer s made in
        let (before, s3, asked, last) =
          then_run-eq-ok (λ before. deposit_into n w v f vault ata)
            (v.token_balance s2.chain ata, s2) rest in
        go ata s3 (ap (λ p. p.1) made ∙ ap (λ p. p.1) asked) same
          (sym (ap (λ p. p.1.sent) asked) ∙ sent) last
      where
        go :
            (user_ata : Key) (s3 : Ledger n w)
            → (ensure_ata n w signer mint signer s).1 ≡ s3
            → user_ata ≡ w.ata_of mint signer
            → s3.sent
              ≡ s.sent
                ++ if_missing
                    (account_data s.chain (w.ata_of mint signer))
                    (w.create_ata signer (w.ata_of mint signer) signer mint)
            → deposit_into n w v f vault user_ata s3 ≡ (ok tt, t)
            → let pool = pool_of n w mint program in
              let ata = w.ata_of mint signer in
              (amount : List ℕ) × (v.u64_le f.amount ≡ ok amount)
              × (t.sent
                  ≡ s.sent
                    ++ (if_missing (account_data s.chain ata) (w.create_ata signer ata signer mint)
                        ++ (if_missing
                              (account_data
                                (ensure_ata n w signer mint signer s).1.chain
                                (position_of n w pool signer program))
                              (create_position n w program pool signer)
                            ++ deposit n w program pool signer ata vault amount ∷ [])))
        go user_ata s3 there same sent last =
            let pool = pool_of n w mint program in
            let (amount, valued, sent3) = deposit_into-sent vault user_ata s3 last in
            let later = λ (u : Key).
              if_missing (account_data s3.chain (position_of n w pool signer program))
                (create_position n w program pool signer)
              ++ deposit n w program pool signer u vault amount ∷ [] in
            (
              amount,
              valued,
              rw there (
                  sent3
                  ∙ ap (λ u. s3.sent ++ later u) same
                  ∙ ap (λ l. l ++ later (w.ata_of mint signer)) sent
                  ∙ append_assoc s.sent
                      (if_missing (account_data s.chain (w.ata_of mint signer))
                        (w.create_ata signer (w.ata_of mint signer) signer mint))
                      (later (w.ata_of mint signer))),
            )

    -- If the funding returns, the pool's account was there, and it sent, in this order and nothing else:
    -- what creates the token account, if that was missing; the instruction `CreateLpPosition` of the
    -- program, if the position was missing then; and its instruction `DepositLp` of the amount, from the
    -- signer's token account into the vault that the pool's account names. The two have the accounts that
    -- the program asks for, in its order, signed and writable as it asks.
    pub fund-sent :
        (s : Ledger n w) {t : Ledger n w}
        → fund n w v f s ≡ (ok tt, t)
        → let pool = pool_of n w mint program in
          let ata = w.ata_of mint signer in
          (bytes : List ℕ) × (vault : Key) × (amount : List ℕ) × (account_data s.chain pool
            ≡ some bytes)
          × (v.liquidity_vault bytes ≡ ok vault)
          × (v.u64_le f.amount ≡ ok amount)
          × (t.sent
              ≡ s.sent
                ++ (if_missing (account_data s.chain ata) (w.create_ata signer ata signer mint)
                    ++ (if_missing
                          (account_data
                            (ensure_ata n w signer mint signer s).1.chain
                            (position_of n w pool signer program))
                          (position_wire f)
                        ++ deposit_wire f ata vault amount ∷ [])))
    unfolding fund create_position deposit build_instruction
    fund-sent s e =
        let (bytes, s0, e0, rest0) =
          then_run-eq-ok _
            (
              or_throw (account_data s.chain (pool_of n w mint program))
                  (text "Pool is not initialized. Run bootstrap first."),
              s,
            )
            e in
        let (vault, s1, e1, rest1) =
          then_run-eq-ok from_vault (v.liquidity_vault bytes, s0) rest0 in
        let same : s1 ≡ s = sym (ap (λ p. p.1) e0 ∙ ap (λ p. p.1) e1) in
        let (amount, valued, sent) =
          from_vault-sent vault s (ap (from_vault vault) (sym same) ∙ rest1) in
        (
          bytes,
          vault,
          amount,
          or_throw-ok (account_data s.chain (pool_of n w mint program)) _ (ap (λ p. p.0) e0),
          ap (λ p. p.0) e1,
          valued,
          sent,
        )
