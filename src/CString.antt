-- ===== src/CString.antt =====
-- The functions of <string.h>, <stdlib.h> and <stdio.h> that the C code calls, on byte lists.
pub mod Numbers
pub mod Decimal
use yc_360_script.Prelude.{
  ℕ, ◌+◌, ◌-◌, ◌*◌, Bool, true, false, ◌&&◌, ◌||◌, [], ◌∷◌, Option, none, some, leb, ◌==◌,
  if◌then◌else◌, Bytes, has_prefix, take, drop,
}
use yc_360_script.Prelude.Int.{ℤ, pos, sub_ℕ}

-- What a buffer of `size` bytes holds after `snprintf(buf, size, …)` of this text.
abbrev pub snprintf : ℕ → Bytes → Bytes
snprintf size text = take (size - 1) text

-- The rest of the string from the first `c`, or NULL.
abbrev pub strchr : Bytes → ℕ → Option Bytes
strchr [] c = none
strchr (x ∷ s) c = if x == c then some (x ∷ s) else strchr s c

-- The rest of the string from the last `c`, or NULL.
abbrev pub strrchr : Bytes → ℕ → Option Bytes
strrchr [] c = none
strrchr (x ∷ s) c =
    let rest = strrchr s c in
    elim rest [ some t ↦ some t | none ↦ if x == c then some (x ∷ s) else none ]

-- `strstr(s, p)`, moved on by `n` bytes: the memory from there on, or NULL. The search ends at the
-- first NUL of `s`; the result keeps what the buffer holds behind it.
unfoldable pub after_strstr : Bytes → Bytes → ℕ → Option Bytes
after_strstr [] p n = none
after_strstr (x ∷ s) p n =
    if has_prefix p (x ∷ s)
    then some (drop n (x ∷ s))
    else if x == 0
    then none
    else after_strstr s p n

abbrev pub is_digit : ℕ → Bool
is_digit c = leb b'0' c && leb c b'9'

-- `isspace` in the C locale.
abbrev pub is_space : ℕ → Bool
is_space c = c == b' ' || (leb 9 c && leb c 13)

-- The leading digits, as a number.
unfoldable pub digits_value : ℕ → Bytes → ℕ
digits_value acc [] = acc
digits_value acc (c ∷ s) =
    let rest = digits_value (acc * 10 + (c - b'0')) s in if is_digit c then rest else acc

unfoldable pub signed_value : Bytes → ℤ
unfolding digits_value
signed_value [] = pos 0
signed_value (c ∷ s) =
    if c == b'-'
    then sub_ℕ 0 (digits_value 0 s)
    else if c == b'+'
    then pos (digits_value 0 s)
    else pos (digits_value 0 (c ∷ s))

-- `atoi`. C leaves the result undefined where the value does not fit an `int`; here it is the value.
unfoldable pub atoi : Bytes → ℤ
unfolding signed_value
atoi [] = pos 0
atoi (c ∷ s) = let rest = atoi s in if is_space c then rest else signed_value (c ∷ s)
