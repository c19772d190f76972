-- ===== src/CString/Decimal.antt =====
-- `atoi` reads back what `%d` prints.
use yc_360_script.Prelude.{
  ℕ, zero, suc, ◌+◌, ◌-◌, ◌*◌, ◌/◌, ◌%◌, ◌≤◌, ◌<◌, ◌≡◌, ◌≢◌, refl, ap, ◌∙◌, false, [], ◌∷◌, ◌++◌,
  some, none, ltb, Bytes, arith, Bool-cases, inl, inr,
}
use yc_360_script.Prelude.Int.{pos}
use yc_360_script.CString.{is_digit, digits_value, signed_value, atoi, strchr, strrchr}
use yc_360_script.CString.Numbers.{decimal_onto, decimal}

abbrev pub All : (ℕ → Type 0) → Bytes → Type 0
All P [] = Unit
All P (c ∷ s) = P c × All P s

abbrev pub IsDigit : ℕ → Type 0
IsDigit c = (b'0' ≤ c) × (c ≤ b'9')

-- A text at whose head no digit stands.
abbrev pub IsEnd : Bytes → Type 0
IsEnd [] = Unit
IsEnd (c ∷ s) = is_digit c ≡ false

decimal_onto-append :
    (f n : ℕ) (out rest : Bytes) → decimal_onto f n out ++ rest ≡ decimal_onto f n (out ++ rest)
unfolding decimal_onto
decimal_onto-append zero n out rest = refl
decimal_onto-append (suc f) n out rest = elim (Bool-cases (ltb n 10)) [
  | inl small ↦ rw small
  | inr big ↦ rw big (decimal_onto-append f (n / 10) ((b'0' + n % 10) ∷ out) rest)
]

-- The first byte is a digit, so it is no space and no sign.
decimal_onto-first :
    (f n : ℕ) (out : Bytes)
    → n < f
    → (d : ℕ) × (s : Bytes) × (decimal_onto f n out ≡ d ∷ s) × IsDigit d
unfolding decimal_onto
decimal_onto-first zero n out h = absurd (omega arith)
decimal_onto-first (suc f) n out h = elim (Bool-cases (ltb n 10)) [
  | inl small ↦ (b'0' + n, out, rw small, (omega arith, ground arith))
  | inr big ↦ rw big (decimal_onto-first f (n / 10) ((b'0' + n % 10) ∷ out) (ground arith))
]

digits_value-digit :
    (acc c : ℕ) (s : Bytes)
    → IsDigit c
    → digits_value acc (c ∷ s) ≡ digits_value (acc * 10 + (c - b'0')) s
unfolding digits_value
digits_value-digit acc c s h = ground arith

digits_value-decimal_onto :
    (f n : ℕ) (out : Bytes) → n < f → digits_value 0 (decimal_onto f n out) ≡ digits_value n out
unfolding decimal_onto
digits_value-decimal_onto zero n out h = absurd (omega arith)
digits_value-decimal_onto (suc f) n out h = elim (Bool-cases (ltb n 10)) [
  | inl small ↦ rw small (
      digits_value-digit 0 (b'0' + n) out (omega arith, ground arith)
      ∙ ap (λ t. digits_value t out) (omega arith))
  | inr big ↦ rw big (
      digits_value-decimal_onto f (n / 10) ((b'0' + n % 10) ∷ out) (ground arith)
      ∙ digits_value-digit (n / 10) (b'0' + n % 10) out (omega arith, omega arith)
      ∙ ap (λ t. digits_value t out) (omega arith))
]

digits_value-IsEnd : (n : ℕ) (s : Bytes) → IsEnd s → digits_value n s ≡ n
unfolding digits_value
digits_value-IsEnd n [] h = refl
digits_value-IsEnd n (c ∷ s) h = rw h

signed_value-digit : (d : ℕ) (s : Bytes) → IsDigit d → atoi (d ∷ s) ≡ pos (digits_value 0 (d ∷ s))
unfolding atoi signed_value
signed_value-digit d s h = ground arith

-- A printed number is read back, whatever stands behind it that is no digit.
pub atoi-decimal : (n : ℕ) (rest : Bytes) → IsEnd rest → atoi (decimal n ++ rest) ≡ pos n
unfolding decimal
atoi-decimal n rest h =
    let (d, s, e, digit) = decimal_onto-first (suc n) n rest (omega arith) in
    rw (decimal_onto-append (suc n) n [] rest) (
      ap atoi e
      ∙ signed_value-digit d s digit
      ∙ rw (← e) (
          ap pos
            (digits_value-decimal_onto (suc n) n rest (omega arith) ∙ digits_value-IsEnd n rest h)))

decimal_onto-All :
    (f n : ℕ) (out : Bytes) → n < f → All IsDigit out → All IsDigit (decimal_onto f n out)
unfolding decimal_onto
decimal_onto-All zero n out h a = absurd (omega arith)
decimal_onto-All (suc f) n out h a = elim (Bool-cases (ltb n 10)) [
  | inl small ↦ rw small ((omega arith, ground arith), a)
  | inr big ↦ rw big (
      decimal_onto-All f (n / 10) ((b'0' + n % 10) ∷ out) (ground arith)
        ((omega arith, omega arith), a))
]

pub decimal-All : (n : ℕ) → All IsDigit (decimal n)
unfolding decimal
decimal-All n = decimal_onto-All (suc n) n [] (omega arith) tt

pub decimal-ne-nil : (n : ℕ) → decimal n ≢ []
unfolding decimal
decimal-ne-nil n e =
    let (d, s, first, digit) = decimal_onto-first (suc n) n [] (omega arith) in cc (first, e)

-- `atoi` skips a tab.
pub atoi_tab : (s : Bytes) → atoi (9 ∷ s) ≡ atoi s
unfolding atoi
atoi_tab s = refl

-- The first tab behind digits, and the last tab in front of digits.
pub strchr_digits : (s t : Bytes) → All IsDigit s → strchr (s ++ 9 ∷ t) 9 ≡ some (9 ∷ t)
strchr_digits [] t h = refl
strchr_digits (c ∷ s) t (hc, hs) = ground (arith, strchr_digits s t hs)

strrchr-none : (s : Bytes) → All (λ c. c ≢ 9) s → strrchr s 9 ≡ none
strrchr-none [] h = refl
strrchr-none (c ∷ s) (hc, hs) = ground (arith, strrchr-none s hs)

pub strrchr_last : (s t : Bytes) → All (λ c. c ≢ 9) t → strrchr (s ++ 9 ∷ t) 9 ≡ some (9 ∷ t)
strrchr_last [] t h = rw (strrchr-none t h)
strrchr_last (c ∷ s) t h = rw (strrchr_last s t h)
