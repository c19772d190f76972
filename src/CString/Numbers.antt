-- ===== src/CString/Numbers.antt =====
-- Printing numbers: `%d` and `%016llx`.
use yc_360_script.Prelude.{
  ℕ, zero, suc, ◌+◌, ◌-◌, ◌*◌, ◌/◌, ◌%◌, ◌^◌, ◌<◌, [], ◌∷◌, ◌++◌, ◌≡◌, refl, ltb, if◌then◌else◌,
  Bytes, codes, length, length-append, arith,
}
use yc_360_script.Prelude.Int.{ℤ, pos, negsuc}

unfoldable pub decimal_onto : ℕ → ℕ → Bytes → Bytes
decimal_onto zero n out = out
decimal_onto (suc fuel) n out =
    let next = decimal_onto fuel (n / 10) ((b'0' + n % 10) ∷ out) in
    if ltb n 10 then (b'0' + n) ∷ out else next

-- `%u`; a number has fewer digits than its value and one.
unfoldable pub decimal : ℕ → Bytes
unfolding decimal_onto
decimal n = decimal_onto (suc n) n []

-- `%d`.
unfoldable pub signed_decimal : ℤ → Bytes
unfolding decimal
signed_decimal (pos n) = decimal n
signed_decimal (negsuc n) = b'-' ∷ decimal (suc n)

unfoldable pub hex_digit : ℕ → ℕ
hex_digit d = if ltb d 10 then b'0' + d else b'a' + (d - 10)

-- The lowest `k` hexadecimal digits, highest first; `%016llx` for k = 16 and a 64-bit number.
unfoldable pub hex_digits : ℕ → ℕ → Bytes
unfolding hex_digit
hex_digits zero n = []
hex_digits (suc k) n = hex_digits k (n / 16) ++ hex_digit (n % 16) ∷ []

pub length-hex_digits : (k n : ℕ) → length (hex_digits k n) ≡ k
unfolding hex_digits
length-hex_digits zero n = refl
length-hex_digits (suc k) n = omega (
  arith,
  length-hex_digits k (n / 16),
  length-append (hex_digits k (n / 16)) (hex_digit (n % 16) ∷ []),
)

-- Reading hexadecimal digits back, as the JVM does with `replyInfo`.
abbrev pub hex_value_of : ℕ → ℕ
hex_value_of c = if ltb c b'a' then c - b'0' else c - b'a' + 10

unfoldable pub hex_value : ℕ → Bytes → ℕ
hex_value acc [] = acc
hex_value acc (c ∷ s) = hex_value (acc * 16 + hex_value_of c) s

pub hex_value-append :
    (s t : Bytes) (acc : ℕ) → hex_value acc (s ++ t) ≡ hex_value (hex_value acc s) t
unfolding hex_value
hex_value-append [] t acc = refl
hex_value-append (c ∷ s) t acc = hex_value-append s t (acc * 16 + hex_value_of c)

pub hex_value_of-hex_digit : (d : ℕ) → d < 16 → hex_value_of (hex_digit d) ≡ d
unfolding hex_digit
hex_value_of-hex_digit d h = ground arith

abbrev pub IsBelow : ℕ → ℕ → Type 0
IsBelow zero n = n ≡ 0
IsBelow (suc k) n = IsBelow k (n / 16)

-- `k` hexadecimal digits hold every number that runs out after `k` divisions by 16.
pub hex_value-hex_digits : (k n : ℕ) → IsBelow k n → hex_value 0 (hex_digits k n) ≡ n
unfolding hex_digits hex_value
hex_value-hex_digits zero n h = omega arith
hex_value-hex_digits (suc k) n h =
    rw (hex_value-append, hex_value-hex_digits k (n / 16) h)
      (omega (arith, hex_value_of-hex_digit (n % 16) (omega arith)))

pub IsBelow-64 : (n : ℕ) → n < 2 ^ 64 → IsBelow 16 n
IsBelow-64 n h = omega arith

runs : (decimal 12045 ≡ codes "12045") × (hex_digits 16 48879 ≡ codes "000000000000beef")
unfolding decimal hex_digits
runs = (refl, refl)
