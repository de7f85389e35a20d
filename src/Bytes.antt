-- ===== src/Bytes.antt =====
-- Little-endian numbers in buffers, which several scripts write and read.
use native.Mathlib.Nat.{suc-add}
use easyclaw.Base.{
  ℕ, zero, suc, ◌+◌, ◌*◌, ◌/◌, ◌%◌, ◌^◌, ◌<◌, ◌≡◌, refl, List, [], ◌∷◌, ◌++◌, arith, length, take,
  drop,
}

-- The lowest `k` bytes of a number, the lowest first.
unfoldable pub le_bytes : ℕ → ℕ → List ℕ
le_bytes zero v = []
le_bytes (suc k) v = v % 256 ∷ le_bytes k (v / 256)

unfoldable pub from_le : List ℕ → ℕ
from_le [] = 0
from_le (b ∷ bs) = b + 256 * from_le bs

pub from_le-le_bytes : (k v : ℕ) → v < 256 ^ k → from_le (le_bytes k v) ≡ v
unfolding from_le le_bytes
from_le-le_bytes zero v h = omega arith
from_le-le_bytes (suc k) v h = omega (arith, from_le-le_bytes k (v / 256) (below k v h))
  where
    below : (k v : ℕ) → v < 256 ^ suc k → v / 256 < 256 ^ k
    below k v h = grind arith

pub length-le_bytes : (k v : ℕ) → length (le_bytes k v) ≡ k
unfolding le_bytes
length-le_bytes zero v = refl
length-le_bytes (suc k) v = omega (arith, length-le_bytes k (v / 256))

module _ {ℓ} {A : Type ℓ} where
  pub take-append : (xs ys : List A) → take (length xs) (xs ++ ys) ≡ xs
  take-append [] ys = refl
  take-append (x ∷ xs) ys = rw (take-append xs ys)

  pub drop-append : (xs ys : List A) (k : ℕ) → drop (length xs + k) (xs ++ ys) ≡ drop k ys
  drop-append [] ys k = ground arith
  drop-append (x ∷ xs) ys k = rw (suc-add (length xs) k) (drop-append xs ys k)
