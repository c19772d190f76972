-- ===== src/Vmstat/Words.antt =====
-- The C integer types of vmstat.c on x86_64: conversions wrap, and signed division truncates.
use yc_360_script.Prelude.{ℕ, ◌+◌, ◌-◌, ◌/◌, ◌%◌, ◌^◌, ◌≤◌, ◌<◌, ◌≡◌, ltb, if◌then◌else◌, arith}
use yc_360_script.Prelude.Int.{ℤ, pos, negsuc, pos_part, neg_part, sub_ℕ}

-- The residue of an integer modulo `m`.
abbrev pub residue : ℕ → ℤ → ℕ
residue m (pos n) = n % m
residue m (negsuc n) = m - 1 - n % m

-- `(unsigned)`, `(unsigned long)`, `(int)` and `(long long)`.
abbrev pub u32 : ℤ → ℕ
u32 = residue (2 ^ 32)

abbrev pub u64 : ℤ → ℕ
u64 = residue (2 ^ 64)

unfoldable pub s32 : ℤ → ℤ
s32 z = let r = u32 z in if ltb r (2 ^ 31) then pos r else sub_ℕ r (2 ^ 32)

unfoldable pub s64 : ℤ → ℤ
s64 z = let r = u64 z in if ltb r (2 ^ 63) then pos r else sub_ℕ r (2 ^ 64)

-- Signed division by truncation; a division by zero faults in C, and is kept out by the callers.
unfoldable pub quotient : ℤ → ℤ → ℤ
quotient (pos a) (pos b) = pos (a / b)
quotient (pos a) (negsuc b) = sub_ℕ 0 (a / (b + 1))
quotient (negsuc a) (pos b) = sub_ℕ 0 ((a + 1) / b)
quotient (negsuc a) (negsuc b) = pos ((a + 1) / (b + 1))

-- Values that fit keep their value.
pub s32-small : (z : ℤ) → pos_part z < 2 ^ 31 → neg_part z ≤ 2 ^ 31 → s32 z ≡ z
unfolding s32
s32-small z h k = ground arith

pub s64-small : (z : ℤ) → pos_part z < 2 ^ 63 → neg_part z ≤ 2 ^ 63 → s64 z ≡ z
unfolding s64
s64-small z h k = ground arith
