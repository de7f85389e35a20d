-- ===== src/Scripts/Funding/Tests.antt =====
-- The funding on a small cluster.
use easyclaw.Base.{
  ℕ, ◌+◌, ◌≡◌, refl, none, some, List, [], ◌∷◌, ◌++◌, if◌then◌else◌, ◌==◌, text, text_eq, ok,
}
use easyclaw.Samples.{naturals}
use easyclaw.Skill.Platform.{Solana}
use easyclaw.Scripts.Funding.{
  Vault, Ledger, Funding, pool_of, position_of, create_position, deposit, ensure_ata, fund,
}
use easyclaw.Scripts.Funding.Laws.{if_missing, position_wire, deposit_wire, fund-sent}

-- The pool is the key 1, a position the key 2; only the pool's account is there.
abbrev pda : List (List ℕ) → ℕ
pda [] = 0
pda (seed ∷ seeds) = if text_eq seed (text "pool") then 1 else 2

abbrev cluster : Solana
cluster = record {
  Key = ℕ;
  public_key = λ t. ok 9;
  from_bytes = λ bytes. 0;
  to_bytes = λ k. k ∷ [];
  to_base58 = λ k. k ∷ [];
  find_pda = λ seeds program. pda seeds;
  system_program = 3;
  token_program = 4;
  ata_of = λ mint owner. 5;
  create_ata = λ payer account owner mint. record { program = 6; keys = []; payload = [] };
  Chain = ℕ;
  account_data = λ chain k. if k == 1 then some (7 ∷ []) else none;
  send = λ instructions chain. (ok (text "signature"), chain + 1);
}

abbrev vault : Vault naturals cluster
vault = record {
  liquidity_vault = λ bytes. ok 8;
  u64_le = λ v. ok (1 ∷ 0 ∷ []);
  token_balance = λ chain k. ok (text "0");
}

abbrev funding : Funding naturals cluster
funding = record { signer = 10; program = 11; mint = 12; amount = some 1 }

abbrev start : Ledger naturals cluster
start = record { chain = 0; sent = [] }

abbrev funded : Ledger naturals cluster
funded = record {
  chain = 3;
  sent =
      record { program = 6; keys = []; payload = [] }
      ∷ create_position naturals cluster 11 1 10
      ∷ deposit naturals cluster 11 1 10 5 8 (1 ∷ 0 ∷ [])
      ∷ [];
}

funds : fund naturals cluster vault funding start ≡ (ok tt, funded)
unfolding fund text_eq text
funds = refl

fund-sent_example :
    let pool = pool_of naturals cluster 12 11 in
    (bytes : List ℕ) × (v : ℕ) × (amount : List ℕ) × (cluster.account_data 0 pool ≡ some bytes)
    × (vault.liquidity_vault bytes ≡ ok v)
    × (vault.u64_le (some 1) ≡ ok amount)
    × (funded.sent
        ≡ start.sent
          ++ (if_missing naturals cluster (cluster.account_data 0 5) (cluster.create_ata 10 5 10 12)
              ++ (if_missing naturals cluster
                    (cluster.account_data
                      (ensure_ata naturals cluster 10 12 10 start).1.chain
                      (position_of naturals cluster pool 10 11))
                    (position_wire naturals cluster funding)
                  ++ deposit_wire naturals cluster funding 5 v amount ∷ [])))
fund-sent_example = fund-sent naturals cluster vault funding start {t = funded} funds
