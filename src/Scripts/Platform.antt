-- ===== src/Scripts/Platform.antt =====
-- What the scripts use and do not implement: the Solana clients `@solana/web3.js` and `@coral-xyz/anchor` with the cluster behind them.
use easyclaw.Base.{ℕ, Bool, List, Text, Result, Dict}
pub use easyclaw.Numbers.{Numbers}
use easyclaw.Scripts.Defaults.{RiskParams, PricingParams, FundingParams, FeeParams}

-- An argument of a program's method. `bn` is a number wrapped by `toBn`.
pub data Arg (K N : Type 0) : Type 0 where
  key : K → Arg K N
  num : N → Arg K N
  bn : N → Arg K N
  int : ℕ → Arg K N
  big : ℕ → Arg K N
  flag : Bool → Arg K N
  str : Text → Arg K N
  fee_split : N → N → N → Arg K N
  risk : RiskParams → Arg K N
  pricing : PricingParams → Arg K N
  funding : FundingParams → Arg K N
  fee : FeeParams → Arg K N

-- `program.methods[name](...args).accounts(accounts).rpc()`, or an instruction that a library makes
pub record Call (K N : Type 0) : Type 0 where
  pub program : K
  pub method : Text
  pub args : List (Arg K N)
  pub accounts : Dict K

pub record Web3 (n : Numbers) : Type 1 where
  pub Key : Type 0
  pub key_eq : Key → Key → Bool
  -- `new PublicKey(text)`, which throws for what is no base58 key; `new PublicKey(bytes)`
  pub public_key : Text → Result Key
  pub public_key_bytes : List ℕ → Key
  pub to_base58 : Key → Text
  pub to_buffer : Key → List ℕ
  -- `PublicKey.findProgramAddressSync(seeds, program)[0]`
  pub find_pda : List (List ℕ) → Key → Key
  pub system_program : Key
  pub token_program : Key
  -- The accounts of the cluster at one moment; `getAccountInfo(key) !== null`.
  pub Chain : Type 0
  pub has_account : Chain → Key → Bool
  -- `typeof program.methods?.[name] === "function"`
  pub has_method : Key → Text → Bool
  -- A transaction: its signature or the message of its error, and the cluster afterwards.
  pub send : Call Key n.Num → Chain → Result Text × Chain
