-- ===== src/Vmstat/Rows/Percent.antt =====
-- The shares of the processor's time that a row shows, and the debt of idle ticks.
use yc_360_script.Prelude.{
  ℕ, zero, suc, ◌+◌, ◌*◌, ◌/◌, ◌%◌, ◌^◌, ◌≤◌, ◌<◌, ◌≡◌, refl, sym, ◌==◌, if◌then◌else◌, false,
  arith,
}
use native.Mathlib.Nat.{div-lt_iff_lt-mul, mod-eq_of_lt}
use yc_360_script.Prelude.Int.{
  pos_part, neg_part, ℤ, pos, negsuc, is_neg, ◌+ℤ◌, eqb_ℤ, +ℤ_parts, eq_of_parts,
}
use yc_360_script.Vmstat.Words.{s32, quotient, s64-small, s32-small}
use yc_360_script.Vmstat.Rows.{percent, settle_idle, half_of}

pos_sum : (a b : ℕ) → pos a +ℤ pos b ≡ pos (a + b)
pos_sum a b = eq_of_parts (pos a +ℤ pos b) (pos (a + b)) (omega (arith, +ℤ_parts (pos a) (pos b)))

-- A rounded percentage of a share is at most 100.
share-le : (whole part : ℕ) → 0 < whole → part ≤ whole → (100 * part + whole / 2) / whole ≤ 100
share-le whole part p h = omega (
  arith,
  (div-lt_iff_lt-mul {k = whole} {x = 100 * part + whole / 2} {y = 101} p).1 (omega arith),
)

-- The two conversions of half the total leave it unchanged.
half-kept : (whole : ℕ) → whole < 2 ^ 56 → half_of (pos whole) ≡ pos (whole / 2)
half-kept whole b =
    let small : whole % 2 ^ 64 / 2 ≡ whole / 2 = omega arith in
    rw small (s64-small (pos (whole / 2)) (omega arith) (omega arith))

-- Of a total below 2^56 ticks, a share of it is shown as its percentage to the nearest integer, half
-- of one rounded up, and never as more than 100.
pub percent-rounds :
    (whole part : ℕ)
    → 0 < whole
    → whole < 2 ^ 56
    → part ≤ whole
    → (percent (pos whole) (pos part) ≡ (100 * part + whole / 2) / whole)
      × (percent (pos whole) (pos part) ≤ 100)
unfolding percent quotient
percent-rounds whole part p b h =
    let top = share-le whole part p h in
    let kept : (100 * part + whole / 2) / whole % 2 ^ 32 ≡ (100 * part + whole / 2) / whole =
      mod-eq_of_lt (omega (arith, top)) in
    rw (half-kept whole b, pos_sum (100 * part) (whole / 2), kept) (refl, top)

add_zero : (a : ℤ) → a +ℤ pos 0 ≡ a
add_zero a = eq_of_parts (a +ℤ pos 0) a (omega (arith, +ℤ_parts a (pos 0)))

zero_add : (a : ℤ) → pos 0 +ℤ a ≡ a
zero_add a = eq_of_parts (pos 0 +ℤ a) a (omega (arith, +ℤ_parts (pos 0) a))

-- What the debt makes of the idle ticks is their sum, also where there is no debt.
owed-sum :
    (idle debt : ℤ)
    → s32 idle ≡ idle
    → (if eqb_ℤ debt (pos 0) then idle else s32 idle +ℤ debt) ≡ idle +ℤ debt
owed-sum idle (pos zero) e = sym (add_zero idle)
owed-sum idle (pos (suc n)) e = let test : suc n == 0 ≡ false = ground arith in rw (e, test) refl
owed-sum idle (negsuc n) e = rw e refl

-- A sum is shown where it is not negative, and owed where it is.
abbrev shown_and_owed : ℤ → ℤ × ℤ
shown_and_owed z = if is_neg z then (pos 0, z) else (z, pos 0)

split_sum :
    (z : ℤ)
    → ((shown_and_owed z).0 +ℤ (shown_and_owed z).1 ≡ z) × (is_neg (shown_and_owed z).0 ≡ false)
split_sum (pos n) = (add_zero (pos n), refl)
split_sum (negsuc n) = (zero_add (negsuc n), refl)

-- A sum of integers below 2^30 is an `int`.
int_sum :
    (a b : ℤ)
    → pos_part a < 2 ^ 30
    → neg_part a < 2 ^ 30
    → pos_part b < 2 ^ 30
    → neg_part b < 2 ^ 30
    → s32 (a +ℤ b) ≡ a +ℤ b
unfolding ◌+ℤ◌
int_sum a b h i j k = s32-small (a +ℤ b) (ground arith) (ground arith)

-- Idle ticks and debt are neither made nor lost by a row, and none is shown as negative: what a row
-- shows and what it still owes add up to what was measured and what was owed, where both are below
-- 2^30.
pub settle_idle-conserves :
    (idle debt : ℤ)
    → pos_part idle < 2 ^ 30
    → neg_part idle < 2 ^ 30
    → pos_part debt < 2 ^ 30
    → neg_part debt < 2 ^ 30
    → ((settle_idle idle debt).0 +ℤ (settle_idle idle debt).1 ≡ idle +ℤ debt)
      × (is_neg (settle_idle idle debt).0 ≡ false)
unfolding settle_idle
settle_idle-conserves idle debt a b c d =
    let kept = s32-small idle (omega arith) (omega arith) in
    rw (owed-sum idle debt kept, int_sum idle debt a b c d) (split_sum (idle +ℤ debt))
