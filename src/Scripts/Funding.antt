-- ===== src/Scripts/Funding.antt =====
-- fund_lp.ts: liquidity for the pool. What is decoded of the pool's account, the bytes of a `BN` and the
-- balance of a token account are parameters; every transaction is kept with its instructions.
pub mod Laws
mod Tests
use easyclaw.Base.{
  ℕ, Bool, true, false, Option, none, some, List, [], ◌∷◌, ◌++◌, if◌then◌else◌, is_some, or_else,
  or_nonempty, Text, text, trim, Result, ok, err, or_throw,
}
use easyclaw.Numbers.{Numbers}
use easyclaw.Skill.Platform.{Solana, Instruction, Meta}
use easyclaw.Skill.Setup.{Host}
use easyclaw.Scripts.Env.{Env, is_unset, read_positive_number}
use easyclaw.Scripts.Rpc.{Script, pure, lift, ◌>>=◌}

-- `DISCRIMINATORS`
abbrev pub create_lp_position : List ℕ
create_lp_position = 157 ∷ 34 ∷ 123 ∷ 115 ∷ 132 ∷ 209 ∷ 158 ∷ 124 ∷ []

abbrev pub deposit_lp : List ℕ
deposit_lp = 83 ∷ 107 ∷ 16 ∷ 26 ∷ 26 ∷ 20 ∷ 130 ∷ 56 ∷ []

-- The path of the signer's key.
unfoldable pub lp_signer_path : {K : Type 0} → Host K → Text
lp_signer_path host =
    or_else
      (or_nonempty (host.env (text "LP_SIGNER")) (
        or_nonempty (host.env (text "QA_SIGNER"))
          (or_nonempty (host.env (text "ANCHOR_WALLET")) none)))
      (host.join (or_else (host.env (text "HOME")) []) (text ".config/solana/id.json"))

unfoldable pub read_keypair : {K : Type 0} → Host K → Text → Result K
read_keypair host file_path = elim (host.read_file (host.resolve file_path)) [
  | none ↦
      err (text "ENOENT: no such file or directory, open '" ++ host.resolve file_path ++ text "'")
  | some content ↦ host.keypair content
]

module _ (n : Numbers) (w : Solana) where
  open n use {Num, of_ℕ}
  open w use {Key, Chain, public_key, to_bytes, find_pda, system_program, token_program}

  -- The liquidity vault that the pool's account names, `new BN(v).toArrayLike(Buffer, "le", 8)`, and what
  -- `getTokenAccountBalance` answers.
  pub record Vault : Type 0 where
    pub liquidity_vault : List ℕ → Result Key
    pub u64_le : Num → Result (List ℕ)
    pub token_balance : Chain → Key → Result Text

  -- The cluster, and the transactions that were sent.
  pub record Ledger : Type 0 where
    pub chain : Chain
    pub sent : List (Instruction Key)

  unfoldable pub read_env_pubkey : Env → Text → Result Key
  unfolding is_unset
  read_env_pubkey env name =
      if is_unset (env name)
      then err (text "Missing required env: " ++ name)
      else public_key (trim (or_else (env name) []))

  unfoldable pub build_instruction : Key → List ℕ → List (Meta Key) → List ℕ → Instruction Key
  build_instruction program_id discriminator keys payload = record {
    program = program_id;
    keys = keys;
    payload = discriminator ++ payload;
  }

  -- A transaction of one instruction, signed by the payer.
  unfoldable pub send_tx : Instruction Key → Script Ledger Text
  send_tx instruction s =
      let (r, after) = w.send (instruction ∷ []) s.chain in
      (r, record { chain = after; sent = s.sent ++ instruction ∷ [] })

  abbrev pub account_info : Key → Script Ledger (Option (List ℕ))
  account_info key s = (ok (w.account_data s.chain key), s)

  -- A step that is left out where the account exists.
  unfoldable pub unless_there : Option (List ℕ) → Instruction Key → Script Ledger (Unit {0})
  unfolding send_tx
  unless_there (some bytes) instruction = pure tt
  unless_there none instruction = send_tx instruction >>= λ signature. pure tt

  unfoldable pub ensure_ata : Key → Key → Key → Script Ledger Key
  unfolding unless_there
  ensure_ata owner mint payer =
      let ata = w.ata_of mint owner in
      account_info ata >>= λ info.
      unless_there info (w.create_ata payer ata owner mint) >>= λ done. pure ata

  abbrev meta : Bool → Bool → Key → Meta Key
  meta is_signer is_writable key = record {
    pubkey = key;
    is_signer = is_signer;
    is_writable = is_writable;
  }

  abbrev pub pool_of : Key → Key → Key
  pool_of mint program = find_pda (text "pool" ∷ to_bytes mint ∷ []) program

  abbrev pub position_of : Key → Key → Key → Key
  position_of pool signer program =
      find_pda (text "lp-pos" ∷ to_bytes pool ∷ to_bytes signer ∷ []) program

  unfoldable pub create_position : Key → Key → Key → Instruction Key
  unfolding build_instruction
  create_position program pool signer =
      build_instruction program create_lp_position
        (meta true true signer
          ∷ meta false false pool
          ∷ meta false true (position_of pool signer program)
          ∷ meta false false system_program
          ∷ [])
        []

  unfoldable pub deposit : Key → Key → Key → Key → Key → List ℕ → Instruction Key
  unfolding build_instruction
  deposit program pool signer user_ata vault amount =
      build_instruction program deposit_lp
        (meta true true signer
          ∷ meta false true pool
          ∷ meta false true (position_of pool signer program)
          ∷ meta false true user_ata
          ∷ meta false true vault
          ∷ meta false false token_program
          ∷ [])
        amount

  -- What the environment names.
  pub record Funding : Type 0 where
    pub signer : Key
    pub program : Key
    pub mint : Key
    pub amount : Num

  unfoldable pub read_funding : Host Key → Script Ledger Funding
  unfolding lp_signer_path read_keypair read_env_pubkey read_positive_number
  read_funding host = do
    signer ← lift (read_keypair host (lp_signer_path host))
    program ← lift (read_env_pubkey host.env (text "LP_VAULT_PROGRAM_ID"))
    mint ← lift (read_env_pubkey host.env (text "USDC_MINT"))
    amount ← lift (read_positive_number n host.env (text "LP_DEPOSIT_AMOUNT") (of_ℕ 10000000000))
    pure (record { signer = signer; program = program; mint = mint; amount = amount })

  module _ (v : Vault) where
    open v use {liquidity_vault, token_balance}

    abbrev balance : Key → Script Ledger Text
    balance ata s = (token_balance s.chain ata, s)

    -- The last transaction, and the balance after it.
    unfoldable pub send_deposit : Instruction Key → Key → Script Ledger (Unit {0})
    unfolding send_tx
    send_deposit instruction user_ata = do
      signature ← send_tx instruction
      after ← balance user_ata
      pure tt

    -- From the position on.
    unfoldable pub deposit_into : Funding → Key → Key → Script Ledger (Unit {0})
    unfolding unless_there create_position deposit send_deposit
    deposit_into f vault user_ata =
        let pool = pool_of f.mint f.program in
        do
          position ← account_info (position_of pool f.signer f.program)
          created ← unless_there position (create_position f.program pool f.signer)
          amount ← lift (v.u64_le f.amount)
          send_deposit (deposit f.program pool f.signer user_ata vault amount) user_ata

    -- From the pool on.
    unfoldable pub fund : Funding → Script Ledger (Unit {0})
    unfolding ensure_ata deposit_into
    fund f = do
      info ← account_info (pool_of f.mint f.program)
      bytes ← lift (or_throw info (text "Pool is not initialized. Run bootstrap first."))
      vault ← lift (liquidity_vault bytes)
      user_ata ← ensure_ata f.signer f.mint f.signer
      before ← balance user_ata
      deposit_into f vault user_ata

    unfoldable pub fund_lp : Host Key → Script Ledger (Unit {0})
    unfolding read_funding fund
    fund_lp host = read_funding host >>= fund
