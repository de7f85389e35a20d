-- ===== src/Skill/Accounts/Orders.antt =====
-- The data of `place_order`, written by `orderData` and read at the offsets of its arguments.
use easyclaw.Base.{ℕ, ◌≡◌, refl, ap, ◌∙◌, List, [], ◌∷◌, ◌++◌, length, take, ok, >>=-eq-ok}
use easyclaw.Bytes.{le_bytes, from_le-le_bytes}
use easyclaw.Skill.Words.{pos, u64_le, i64_le, slice, read_u64_le, read_i64_le, signed}
use easyclaw.Skill.Words.Laws.{
  IsI64, complement, complement_small, signed-complement, u64_le-eq-ok, i64_le-eq-ok, u64_le_ok,
  i64_le_ok,
}
use easyclaw.Skill.Accounts.{place_order, OrderRequest, bool_byte, order_data}
use easyclaw.Skill.Accounts.Laws.{IsU64}

-- The numbers of a request have the width of the program's arguments.
pub record IsInRange (r : OrderRequest) : Type 0 where
  pub market_id : IsU64 r.market_id
  pub margin : IsU64 r.margin
  pub price : IsU64 r.price
  pub ttl_secs : IsI64 r.ttl_secs
  pub client_order_id : IsU64 r.client_order_id

-- The instruction's data with the numbers in little-endian order.
unfoldable pub order_wire : OrderRequest → List ℕ
order_wire r =
    place_order
    ++ (le_bytes 8 r.market_id
        ++ (r.side
            ∷ r.order_type
            ∷ bool_byte r.reduce_only
            ∷ (le_bytes 8 r.margin
                ++ (le_bytes 8 r.price
                    ++ (le_bytes 8 (complement r.ttl_secs) ++ le_bytes 8 r.client_order_id)))))

pub order_data-eq-ok :
    (r : OrderRequest) {bytes : List ℕ}
    → order_data r ≡ ok bytes
    → IsInRange r × (bytes ≡ order_wire r)
unfolding order_data order_wire
order_data-eq-ok r {bytes} e =
    let (a, ea, ka) = >>=-eq-ok (u64_le (pos r.market_id)) _ e in
    let (b, eb, kb) = >>=-eq-ok (u64_le (pos r.margin)) _ ka in
    let (c, ec, kc) = >>=-eq-ok (u64_le (pos r.price)) _ kb in
    let (d, ed, kd) = >>=-eq-ok (i64_le r.ttl_secs) _ kc in
    let (f, ef, kf) = >>=-eq-ok (u64_le (pos r.client_order_id)) _ kd in
    let (ha, sa) = u64_le-eq-ok r.market_id ea in
    let (hb, sb) = u64_le-eq-ok r.margin eb in
    let (hc, sc) = u64_le-eq-ok r.price ec in
    let (hd, sd) = i64_le-eq-ok r.ttl_secs ed in
    let (hf, sf) = u64_le-eq-ok r.client_order_id ef in
    (record { market_id = ha; margin = hb; price = hc; ttl_secs = hd; client_order_id = hf }, cc)

-- Read at the offsets at which the program's `place_order` has its arguments, `orderData` gives back
-- the request; it succeeds only if every number has its width.
pub order_data-reads :
    (r : OrderRequest) {bytes : List ℕ}
    → order_data r ≡ ok bytes
    → IsInRange r
      × (length bytes ≡ 51)
      × (take 8 bytes ≡ place_order)
      × (read_u64_le bytes 8 ≡ r.market_id)
      × (slice bytes 16 3 ≡ r.side ∷ r.order_type ∷ bool_byte r.reduce_only ∷ [])
      × (read_u64_le bytes 19 ≡ r.margin)
      × (read_u64_le bytes 27 ≡ r.price)
      × (read_i64_le bytes 35 ≡ r.ttl_secs)
      × (read_u64_le bytes 43 ≡ r.client_order_id)
unfolding order_wire le_bytes read_i64_le read_u64_le
order_data-reads r e =
    let (v, wire) = order_data-eq-ok r e in
    rw wire (
      v,
      refl,
      refl,
      from_le-le_bytes 8 r.market_id v.market_id,
      refl,
      from_le-le_bytes 8 r.margin v.margin,
      from_le-le_bytes 8 r.price v.price,
      ap signed
            (from_le-le_bytes 8 (complement r.ttl_secs) (complement_small r.ttl_secs v.ttl_secs))
          ∙ signed-complement r.ttl_secs v.ttl_secs,
      from_le-le_bytes 8 r.client_order_id v.client_order_id,
    )

-- In range it does succeed.
order_data_ok : (r : OrderRequest) → IsInRange r → order_data r ≡ ok (order_wire r)
unfolding order_data order_wire
order_data_ok r v = rw (
  u64_le_ok r.market_id v.market_id,
  u64_le_ok r.margin v.margin,
  u64_le_ok r.price v.price,
  i64_le_ok r.ttl_secs v.ttl_secs,
  u64_le_ok r.client_order_id v.client_order_id,
)
