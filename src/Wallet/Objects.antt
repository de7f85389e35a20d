-- ===== src/Wallet/Objects.antt =====
-- The objects that a wallet extension puts on the page. They are shared and compared by identity,
-- and may refer to one another in a cycle, so they stand in a store.
use easyclaw.Base.{ℕ, Bool, Option, List, Text}

-- A value of type `unknown`. `nullish` is `null` or `undefined`, `falsy` any other falsy value but
-- the empty string, and `other` any other value that is no string and no object.
pub data Value : Type 0 where
  nullish : Value
  falsy : Value
  str : Text → Value
  other : Value
  ref : ℕ → Value

-- A property that may be called for a text: not a function, or what calling it does.
pub data Method : Type 0 where
  missing : Method
  throws : Method
  returns_text : Text → Method
  returns_other : Method

-- The properties that wallet.tsx reads.
pub record JsObject : Type 0 where
  -- `typeof record.address === "string"`
  pub address : Option Text
  -- `"publicKey" in record`
  pub public_key : Option Value
  pub to_base58 : Method
  pub to_string : Method
  -- `typeof candidate.connect === "function"`
  pub connect : Bool
  pub disconnect : Bool
  -- `"solana" in candidate`
  pub solana : Option Value
  -- `Array.isArray(provider.providers)`
  pub providers : Option (List Value)
  pub is_phantom : Bool
  pub is_solflare : Bool
  pub is_backpack : Bool

abbrev pub Store : Type 0
Store = ℕ → JsObject
