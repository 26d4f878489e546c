-- ===== src/Go/Int.antt =====
-- Go's signed integers, as integers; `int` has 64 bits.
use gateway_orchestrator.Prelude.{ℕ, ◌^◌, ◌-◌, ◌+◌, ◌%◌, Bool, true, false, ltb, if◌then◌else◌}

-- `negsuc n` is -(n + 1).
pub data ℤ : Type 0 where
  pos : ℕ → ℤ
  negsuc : ℕ → ℤ

-- `z < n` and `n < z` for a natural number n.
abbrev pub ltb_nat : ℤ → ℕ → Bool
ltb_nat (pos m) n = ltb m n
ltb_nat (negsuc m) n = true

abbrev pub nat_ltb : ℕ → ℤ → Bool
nat_ltb n (pos m) = ltb n m
nat_ltb n (negsuc m) = false

abbrev pub is_zero : ℤ → Bool
is_zero (pos n) = ltb n 1
is_zero (negsuc n) = false

abbrev pub to_nat : ℤ → ℕ
to_nat (pos n) = n
to_nat (negsuc n) = 0

-- `n + 1` for an `int` n that is not negative: it wraps at 2^63.
abbrev pub int_succ : ℕ → ℤ
int_succ n = if ltb (n + 1) (2 ^ 63) then pos (n + 1) else negsuc (2 ^ 63 - 1)

-- `int32(z)`: the integer with the same lowest 32 bits, between -2^31 and 2^31 - 1.
unfoldable pub to_int32 : ℤ → ℤ
to_int32 (pos n) =
    if ltb (n % 2 ^ 32) (2 ^ 31) then pos (n % 2 ^ 32) else negsuc (2 ^ 32 - 1 - n % 2 ^ 32)
to_int32 (negsuc n) =
    if ltb (n % 2 ^ 32) (2 ^ 31) then negsuc (n % 2 ^ 32) else pos (2 ^ 32 - 1 - n % 2 ^ 32)
