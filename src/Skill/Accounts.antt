-- ===== src/Skill/Accounts.antt =====
-- The accounts and instruction data of common.js: `decodeEngineConfig`, `decodeUserMargin`,
-- `decodeOrder` and `orderData`.
pub mod Laws
pub mod Orders
use easyclaw.Base.{
  ℕ, ◌+◌, ◌*◌, Bool, true, false, ◌&&◌, not, List, [], ◌∷◌, ◌++◌, if◌then◌else◌, ltb, ◌==◌, length,
  drop, take, Text, text, text_eq, show_ℕ, Result, ok, err, ◌>>=◌, ◌>>◌, guard,
}
use easyclaw.Bytes.{from_le}
use easyclaw.Skill.Words.{
  ℤ, pos, u64_le, i64_le, slice, read_u64_le, read_i64_le, read_u8, first_or_zero,
}
use easyclaw.Skill.Platform.{Solana, Instruction}

-- `DISCRIMINATORS`
abbrev pub create_margin_account : List ℕ
create_margin_account = 98 ∷ 114 ∷ 213 ∷ 184 ∷ 129 ∷ 89 ∷ 90 ∷ 185 ∷ []

abbrev pub create_user_market_position : List ℕ
create_user_market_position = 184 ∷ 183 ∷ 182 ∷ 125 ∷ 240 ∷ 234 ∷ 69 ∷ 166 ∷ []

abbrev pub deposit_collateral : List ℕ
deposit_collateral = 156 ∷ 131 ∷ 142 ∷ 116 ∷ 146 ∷ 247 ∷ 162 ∷ 120 ∷ []

abbrev pub place_order : List ℕ
place_order = 51 ∷ 194 ∷ 155 ∷ 175 ∷ 109 ∷ 130 ∷ 96 ∷ 106 ∷ []

abbrev pub engine_config_account : List ℕ
engine_config_account = 10 ∷ 197 ∷ 172 ∷ 236 ∷ 51 ∷ 169 ∷ 22 ∷ 207 ∷ []

abbrev pub user_margin_account : List ℕ
user_margin_account = 198 ∷ 202 ∷ 205 ∷ 196 ∷ 42 ∷ 177 ∷ 76 ∷ 75 ∷ []

abbrev pub order_account : List ℕ
order_account = 134 ∷ 173 ∷ 223 ∷ 185 ∷ 77 ∷ 86 ∷ 28 ∷ 51 ∷ []

pub record EngineConfig (K : Type 0) : Type 0 where
  pub admin : K
  pub usdc_mint : K
  pub collateral_vault : K

pub record UserMargin (K : Type 0) : Type 0 where
  pub owner : K
  pub collateral_balance : ℕ
  pub next_order_nonce : ℕ
  pub total_notional : ℕ
  pub bump : ℕ

-- A decoded order, without the address that it was read at.
pub record Order (K : Type 0) : Type 0 where
  pub id : ℕ
  pub user_margin : K
  pub user : K
  pub market_id : ℕ
  pub side : ℕ
  pub order_type : ℕ
  pub reduce_only : Bool
  pub margin : ℕ
  pub price : ℕ
  pub created_at : ℤ
  pub expires_at : ℤ
  pub client_order_id : ℕ
  pub status : ℕ
  pub bump : ℕ

-- The argument of `orderData`.
pub record OrderRequest : Type 0 where
  pub market_id : ℕ
  pub side : ℕ
  pub order_type : ℕ
  pub reduce_only : Bool
  pub margin : ℕ
  pub price : ℕ
  pub ttl_secs : ℤ
  pub client_order_id : ℕ

-- `boolByte`
abbrev pub bool_byte : Bool → ℕ
bool_byte b = if b then 1 else 0

-- The two tests at the head of a decoder: buffers are compared as texts are, element by element.
unfoldable pub checked_account : Text → ℕ → List ℕ → List ℕ → Result (Unit {0})
checked_account name size discriminator bytes =
    if ltb (length bytes) size
    then err (text "Invalid " ++ name ++ text " account length")
    else if not (text_eq (take 8 bytes) discriminator)
    then err (name ++ text " discriminator mismatch")
    else ok tt

module _ (w : Solana) where
  open w use {Key, from_bytes}

  abbrev pub key_at : List ℕ → ℕ → Key
  key_at bytes offset = from_bytes (slice bytes offset 32)

  unfoldable pub decode_engine_config : List ℕ → Result (EngineConfig Key)
  unfolding checked_account
  decode_engine_config bytes = do
    checked_account (text "EngineConfig") (8 + 32 * 3) engine_config_account bytes
    ok (record {
      admin = key_at bytes 8;
      usdc_mint = key_at bytes 40;
      collateral_vault = key_at bytes 72;
    })

  unfoldable pub decode_user_margin : List ℕ → Result (UserMargin Key)
  unfolding checked_account
  decode_user_margin bytes = do
    checked_account (text "UserMargin") (8 + 32 + 8 + 8 + 8 + 1) user_margin_account bytes
    ok (record {
      owner = key_at bytes 8;
      collateral_balance = read_u64_le bytes 40;
      next_order_nonce = read_u64_le bytes 48;
      total_notional = read_u64_le bytes 56;
      bump = read_u8 bytes 64;
    })

  unfoldable pub decode_order : List ℕ → Result (Order Key)
  unfolding checked_account
  decode_order bytes = do
    checked_account (text "Order") 133 order_account bytes
    ok (record {
      id = read_u64_le bytes 8;
      user_margin = key_at bytes 16;
      user = key_at bytes 48;
      market_id = read_u64_le bytes 80;
      side = read_u8 bytes 88;
      order_type = read_u8 bytes 89;
      reduce_only = read_u8 bytes 90 == 1;
      margin = read_u64_le bytes 91;
      price = read_u64_le bytes 99;
      created_at = read_i64_le bytes 107;
      expires_at = read_i64_le bytes 115;
      client_order_id = read_u64_le bytes 123;
      status = read_u8 bytes 131;
      bump = read_u8 bytes 132;
    })

abbrev pub side_name : ℕ → Text
side_name side = if side == 0 then text "buy" else text "sell"

abbrev pub order_type_name : ℕ → Text
order_type_name order_type = if order_type == 0 then text "market" else text "limit"

abbrev pub order_status_name : ℕ → Text
order_status_name status =
    if status == 0
    then text "open"
    else if status == 1
    then text "executed"
    else if status == 2
    then text "cancelled"
    else if status == 3
    then text "expired"
    else text "unknown(" ++ show_ℕ status ++ text ")"

-- The arguments are evaluated in order: the first number out of range is the error.
unfoldable pub order_data : OrderRequest → Result (List ℕ)
order_data r = do
  market_id ← u64_le (pos r.market_id)
  margin ← u64_le (pos r.margin)
  price ← u64_le (pos r.price)
  ttl_secs ← i64_le r.ttl_secs
  client_order_id ← u64_le (pos r.client_order_id)
  ok (
      place_order
      ++ (market_id
          ++ (r.side
              ∷ r.order_type
              ∷ bool_byte r.reduce_only
              ∷ (margin ++ (price ++ (ttl_secs ++ client_order_id))))))
