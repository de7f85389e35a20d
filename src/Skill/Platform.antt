-- ===== src/Skill/Platform.antt =====
-- What the skill's scripts use of `@solana/web3.js` and `@solana/spl-token`, with the cluster behind
-- them.
use easyclaw.Base.{ℕ, ◌≡◌, Bool, Option, List, Text, Result, length}

-- A `TransactionInstruction`: the accounts with `isSigner` and `isWritable`.
pub record Meta (K : Type 0) : Type 0 where
  pub pubkey : K
  pub is_signer : Bool
  pub is_writable : Bool

pub record Instruction (K : Type 0) : Type 0 where
  pub program : K
  pub keys : List (Meta K)
  pub payload : List ℕ

pub record Solana : Type 1 where
  pub Key : Type 0
  -- `new PublicKey(text)`, which throws for what is no base58 key
  pub public_key : Text → Result Key
  -- `new PublicKey(bytes)` of 32 bytes, and `key.toBuffer()`
  pub from_bytes : List ℕ → Key
  pub to_bytes : Key → List ℕ
  pub to_base58 : Key → Text
  -- `PublicKey.findProgramAddressSync(seeds, program)[0]`
  pub find_pda : List (List ℕ) → Key → Key
  pub system_program : Key
  pub token_program : Key
  -- `getAssociatedTokenAddressSync(mint, owner, …)`, and the instruction that creates it: payer,
  -- account, owner, mint
  pub ata_of : Key → Key → Key
  pub create_ata : Key → Key → Key → Key → Instruction Key
  -- The cluster at one moment: the data of an account, if it exists.
  pub Chain : Type 0
  pub account_data : Chain → Key → Option (List ℕ)
  -- A signed transaction that is sent and confirmed: its signature or the message of its error, and
  -- the cluster afterwards.
  pub send : List (Instruction Key) → Chain → Result Text × Chain

-- A key is 32 bytes, and is read back from them.
pub record KeyLaws (w : Solana) : Type 0 where
  pub length-to_bytes : (k : w.Key) → length (w.to_bytes k) ≡ 32
  pub from_bytes-to_bytes : (k : w.Key) → w.from_bytes (w.to_bytes k) ≡ k
