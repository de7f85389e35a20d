-- ===== src/Skill/Accounts/Laws.antt =====
-- The account of an order as the program writes it, and `decodeOrder` of it.
use easyclaw.Base.{
  ℕ, ◌+◌, ◌<◌, ◌≡◌, refl, ap, ◌∙◌, Bool, true, false, List, [], ◌∷◌, ◌++◌, arith, length,
  length-append, take, drop, ◌==◌, text_eq, text, ok,
}
use easyclaw.Bytes.{le_bytes, from_le, from_le-le_bytes, length-le_bytes}
use easyclaw.Skill.Words.{ℤ, slice, read_u64_le, read_i64_le, read_u8}
use easyclaw.Skill.Words.Laws.{
  slice-append, slice_after, drop_after, IsI64, complement, complement_small, signed-complement,
}
use easyclaw.Skill.Platform.{Solana, KeyLaws}
use easyclaw.Skill.Accounts.{order_account, Order, bool_byte, checked_account, key_at, decode_order}

abbrev pub IsU64 : ℕ → Type 0
IsU64 n = n < 18446744073709551616

-- The bytes of a 64-bit number in a buffer.
abbrev number_at : List ℕ → ℕ → ℕ
number_at bytes offset = from_le (slice bytes offset 8)

module _ (w : Solana) where
  -- What the program's `Order` is serialised to, after the first two keys.
  unfoldable pub order_tail : Order w.Key → List ℕ
  order_tail o =
      le_bytes 8 o.market_id
      ++ (o.side
          ∷ o.order_type
          ∷ bool_byte o.reduce_only
          ∷ (le_bytes 8 o.margin
              ++ (le_bytes 8 o.price
                  ++ (le_bytes 8 (complement o.created_at)
                      ++ (le_bytes 8 (complement o.expires_at)
                          ++ (le_bytes 8 o.client_order_id ++ (o.status ∷ o.bump ∷ [])))))))

  -- The account of an `Order` of the order engine: its fields in order.
  unfoldable pub order_bytes : Order w.Key → List ℕ
  order_bytes o =
      (order_account ++ le_bytes 8 o.id)
      ++ (w.to_bytes o.user_margin ++ (w.to_bytes o.user ++ order_tail o))

  -- Every number has its width.
  pub record IsOrder (o : Order w.Key) : Type 0 where
    pub id : IsU64 o.id
    pub market_id : IsU64 o.market_id
    pub margin : IsU64 o.margin
    pub price : IsU64 o.price
    pub created_at : IsI64 o.created_at
    pub expires_at : IsI64 o.expires_at
    pub client_order_id : IsU64 o.client_order_id

  -- The discriminator and the id.
  head_length : (o : Order w.Key) → length (order_account ++ le_bytes 8 o.id) ≡ 16
  head_length o = omega (arith, length-le_bytes 8 o.id)

  id_at : (o : Order w.Key) → slice (order_bytes o) 8 8 ≡ le_bytes 8 o.id
  unfolding order_bytes le_bytes
  id_at o = refl

  discriminator_at : (o : Order w.Key) → take 8 (order_bytes o) ≡ order_account
  unfolding order_bytes
  discriminator_at o = refl

  tail_length : (o : Order w.Key) → length (order_tail o) ≡ 53
  unfolding order_tail le_bytes
  tail_length o = refl

  tail_market_id : (o : Order w.Key) → slice (order_tail o) 0 8 ≡ le_bytes 8 o.market_id
  unfolding order_tail le_bytes
  tail_market_id o = refl

  -- The three bytes after it.
  tail_bytes :
      (o : Order w.Key)
      → slice (order_tail o) 8 3 ≡ o.side ∷ o.order_type ∷ bool_byte o.reduce_only ∷ []
  unfolding order_tail le_bytes
  tail_bytes o = refl

  tail_margin : (o : Order w.Key) → slice (order_tail o) 11 8 ≡ le_bytes 8 o.margin
  unfolding order_tail le_bytes
  tail_margin o = refl

  tail_price : (o : Order w.Key) → slice (order_tail o) 19 8 ≡ le_bytes 8 o.price
  unfolding order_tail le_bytes
  tail_price o = refl

  tail_created_at :
      (o : Order w.Key) → slice (order_tail o) 27 8 ≡ le_bytes 8 (complement o.created_at)
  unfolding order_tail le_bytes
  tail_created_at o = refl

  tail_expires_at :
      (o : Order w.Key) → slice (order_tail o) 35 8 ≡ le_bytes 8 (complement o.expires_at)
  unfolding order_tail le_bytes
  tail_expires_at o = refl

  tail_client_order_id :
      (o : Order w.Key) → slice (order_tail o) 43 8 ≡ le_bytes 8 o.client_order_id
  unfolding order_tail le_bytes
  tail_client_order_id o = refl

  tail_end : (o : Order w.Key) → drop 51 (order_tail o) ≡ o.status ∷ o.bump ∷ []
  unfolding order_tail le_bytes
  tail_end o = refl

  module _ (laws : KeyLaws w) where
    user_margin_at : (o : Order w.Key) → slice (order_bytes o) 16 32 ≡ w.to_bytes o.user_margin
    unfolding order_bytes
    user_margin_at o =
        slice-append (order_account ++ le_bytes 8 o.id) (w.to_bytes o.user_margin)
          (w.to_bytes o.user ++ order_tail o) 16 32 (head_length o)
          (laws.length-to_bytes o.user_margin)

    user_at : (o : Order w.Key) → slice (order_bytes o) 48 32 ≡ w.to_bytes o.user
    unfolding order_bytes
    user_at o =
        rw
          (slice_after (order_account ++ le_bytes 8 o.id)
            (w.to_bytes o.user_margin ++ (w.to_bytes o.user ++ order_tail o)) 16 32 32
            (head_length o))
          (slice-append (w.to_bytes o.user_margin) (w.to_bytes o.user) (order_tail o) 32 32
            (laws.length-to_bytes o.user_margin) (laws.length-to_bytes o.user))

    drop_tail : (o : Order w.Key) (m : ℕ) → drop (80 + m) (order_bytes o) ≡ drop m (order_tail o)
    unfolding order_bytes
    drop_tail o m =
        let rest = w.to_bytes o.user ++ order_tail o in
        let split : 80 + m ≡ 16 + (32 + (32 + m)) = omega arith in
        rw (
          split,
          drop_after (order_account ++ le_bytes 8 o.id) (w.to_bytes o.user_margin ++ rest) 16
              (32 + (32 + m)) (head_length o),
          drop_after (w.to_bytes o.user_margin) rest 32 (32 + m)
              (laws.length-to_bytes o.user_margin),
          drop_after (w.to_bytes o.user) (order_tail o) 32 m (laws.length-to_bytes o.user),
        )

    size : (o : Order w.Key) → length (order_bytes o) ≡ 133
    unfolding order_bytes
    size o = omega (
      arith,
      head_length o,
      tail_length o,
      laws.length-to_bytes o.user_margin,
      laws.length-to_bytes o.user,
      length-append {0} (order_account ++ le_bytes 8 o.id)
          (w.to_bytes o.user_margin ++ (w.to_bytes o.user ++ order_tail o)),
      length-append {0} (w.to_bytes o.user_margin) (w.to_bytes o.user ++ order_tail o),
      length-append {0} (w.to_bytes o.user) (order_tail o),
    )

    -- A number of the tail.
    tail_number :
        (o : Order w.Key) (m v : ℕ)
        → slice (order_tail o) m 8 ≡ le_bytes 8 v
        → v < 18446744073709551616
        → read_u64_le (order_bytes o) (80 + m) ≡ v
    unfolding read_u64_le
    tail_number o m v e h = rw (drop_tail o m, e) (from_le-le_bytes 8 v h)

    tail_signed :
        (o : Order w.Key) (m : ℕ) (z : ℤ)
        → slice (order_tail o) m 8 ≡ le_bytes 8 (complement z)
        → IsI64 z
        → read_i64_le (order_bytes o) (80 + m) ≡ z
    unfolding read_i64_le
    tail_signed o m z e h =
        rw (tail_number o m (complement z) e (complement_small z h)) (signed-complement z h)

    -- A byte of the tail.
    tail_byte :
        (o : Order w.Key) (m b : ℕ) (rest : List ℕ)
        → drop m (order_tail o) ≡ b ∷ rest
        → read_u8 (order_bytes o) (80 + m) ≡ b
    unfolding read_u8
    tail_byte o m b rest e = rw (drop_tail o m, e)

    bool_byte-eq-one : (b : Bool) → (bool_byte b == 1) ≡ b
    bool_byte-eq-one true = refl
    bool_byte-eq-one false = refl

    checked :
        (o : Order w.Key) → checked_account (text "Order") 133 order_account (order_bytes o) ≡ ok tt
    unfolding checked_account text_eq
    checked o = rw (size o, discriminator_at o)

    id_read : (o : Order w.Key) → IsU64 o.id → read_u64_le (order_bytes o) 8 ≡ o.id
    unfolding read_u64_le
    id_read o h = rw (id_at o) (from_le-le_bytes 8 o.id h)

    key_read :
        (o : Order w.Key) (offset : ℕ) (k : w.Key)
        → slice (order_bytes o) offset 32 ≡ w.to_bytes k
        → key_at w (order_bytes o) offset ≡ k
    key_read o offset k e = ap w.from_bytes e ∙ laws.from_bytes-to_bytes k

    -- The account that the order engine keeps for an order, its fields in the order of the program's
    -- struct, is decoded to that order, if its numbers have their width.
    pub decode_order-order_bytes :
        (o : Order w.Key) → IsOrder o → decode_order w (order_bytes o) ≡ ok o
    unfolding decode_order order_tail le_bytes
    decode_order-order_bytes o v = rw (checked o) (λ i. ok (record {
      id = id_read o v.id i;
      user_margin = key_read o 16 o.user_margin (user_margin_at o) i;
      user = key_read o 48 o.user (user_at o) i;
      market_id = tail_number o 0 o.market_id (tail_market_id o) v.market_id i;
      side = tail_byte o 8 o.side _ refl i;
      order_type = tail_byte o 9 o.order_type _ refl i;
      reduce_only = reduce_only_read o i;
      margin = tail_number o 11 o.margin (tail_margin o) v.margin i;
      price = tail_number o 19 o.price (tail_price o) v.price i;
      created_at = tail_signed o 27 o.created_at (tail_created_at o) v.created_at i;
      expires_at = tail_signed o 35 o.expires_at (tail_expires_at o) v.expires_at i;
      client_order_id =
          tail_number o 43 o.client_order_id (tail_client_order_id o) v.client_order_id i;
      status = tail_byte o 51 o.status _ refl i;
      bump = tail_byte o 52 o.bump _ refl i;
    }))
      where
        reduce_only_read : (o : Order w.Key) → (read_u8 (order_bytes o) 90 == 1) ≡ o.reduce_only
        reduce_only_read o =
            rw (tail_byte o 10 (bool_byte o.reduce_only) _ refl) (bool_byte-eq-one o.reduce_only)
