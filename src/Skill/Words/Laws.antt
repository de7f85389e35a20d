-- ===== src/Skill/Words/Laws.antt =====
-- Numbers that are written to a buffer and read from it.
use native.Mathlib.Nat.{add-zero}
use easyclaw.Base.{ℕ, ◌+◌, ◌-◌, ◌<◌, ◌≡◌, List, ◌++◌, arith, length, drop, ok}
use easyclaw.Bytes.{le_bytes, take-append, drop-append}
use easyclaw.Skill.Words.{ℤ, pos, negsuc, u64_le, i64_le, slice, signed}

pub slice-append :
    (xs ys zs : List ℕ) (n k : ℕ)
    → length xs ≡ n
    → length ys ≡ k
    → slice (xs ++ (ys ++ zs)) n k ≡ ys
slice-append xs ys zs n k hn hk =
    rw (← hn, ← hk, ← add-zero (length xs), drop-append xs (ys ++ zs) 0) (take-append ys zs)

pub drop_after : (xs ys : List ℕ) (n m : ℕ) → length xs ≡ n → drop (n + m) (xs ++ ys) ≡ drop m ys
drop_after xs ys n m hn = rw (← hn) (drop-append xs ys m)

pub slice_after :
    (xs ys : List ℕ) (n m k : ℕ) → length xs ≡ n → slice (xs ++ ys) (n + m) k ≡ slice ys m k
slice_after xs ys n m k hn = rw (← hn, drop-append xs ys m)

-- A 64-bit integer.
abbrev pub IsI64 : ℤ → Type 0
IsI64 (pos n) = n < 9223372036854775808
IsI64 (negsuc n) = n < 9223372036854775808

-- The two's complement of an integer.
abbrev pub complement : ℤ → ℕ
complement (pos n) = n
complement (negsuc n) = 18446744073709551615 - n

pub complement_small : (z : ℤ) → IsI64 z → complement z < 18446744073709551616
complement_small (pos n) h = omega arith
complement_small (negsuc n) h = omega arith

pub signed-complement : (z : ℤ) → IsI64 z → signed (complement z) ≡ z
unfolding signed
signed-complement (pos n) h = ground arith
signed-complement (negsuc n) h = ground arith

-- `u64Le` and `i64Le` succeed exactly in range.
pub u64_le-eq-ok :
    (n : ℕ) {bytes : List ℕ}
    → u64_le (pos n) ≡ ok bytes
    → (n < 18446744073709551616) × (bytes ≡ le_bytes 8 n)
unfolding u64_le
u64_le-eq-ok n e = ground arith

pub u64_le_ok : (n : ℕ) → n < 18446744073709551616 → u64_le (pos n) ≡ ok (le_bytes 8 n)
unfolding u64_le
u64_le_ok n h = ground arith

pub i64_le-eq-ok :
    (z : ℤ) {bytes : List ℕ} → i64_le z ≡ ok bytes → IsI64 z × (bytes ≡ le_bytes 8 (complement z))
unfolding i64_le
i64_le-eq-ok (pos n) e = ground arith
i64_le-eq-ok (negsuc n) e = ground arith

pub i64_le_ok : (z : ℤ) → IsI64 z → i64_le z ≡ ok (le_bytes 8 (complement z))
unfolding i64_le
i64_le_ok (pos n) h = ground arith
i64_le_ok (negsuc n) h = ground arith
