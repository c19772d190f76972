-- ===== src/Openj9/Unescape/Laws.antt =====
-- `print_unescaped` against the escaping that `java.util.Properties.store` applies to a value. Its
-- characters are UTF-16 units.
use mathlib.Core.Option
use yc_360_script.Prelude.{
  ℕ, ◌+◌, ◌-◌, ◌/◌, ◌%◌, Bool, true, ltb, leb, ◌&&◌, inl, inr, Bool-cases, ◌||◌, [], ◌∷◌, ◌++◌,
  none, some, ◌==◌, if◌then◌else◌, Bytes, ◌≡◌, ◌≢◌, refl, sym, ap, ◌∙◌, append_assoc,
  append_cons-ne-nil, arith,
}
use yc_360_script.Openj9.Unescape.{cut_line, unescaped_byte, unescape_from, print_unescaped}

abbrev pub hex_upper : ℕ → ℕ
hex_upper n = if ltb n 10 then b'0' + n else b'A' + (n - 10)

-- `\\uXXXX` of a UTF-16 unit.
abbrev pub unicode : ℕ → Bytes
unicode c =
    b'\\'
    ∷ b'u'
    ∷ hex_upper (c / 4096 % 16)
    ∷ hex_upper (c / 256 % 16)
    ∷ hex_upper (c / 16 % 16)
    ∷ hex_upper (c % 16)
    ∷ []

-- How `store` writes one character of a value, behind its first one.
abbrev pub escape_char : ℕ → Bytes
escape_char c =
    if c == b'\n'
    then b'\\' ∷ b'n' ∷ []
    else if c == 13
    then b'\\' ∷ b'r' ∷ []
    else if c == 9
    then b'\\' ∷ b't' ∷ []
    else if c == 12
    then b'\\' ∷ b'f' ∷ []
    else if c == b'\\' || (c == b'=' || (c == b':' || (c == b'#' || c == b'!')))
    then b'\\' ∷ c ∷ []
    else if ltb c 32 || ltb 126 c
    then unicode c
    else c ∷ []

abbrev pub escape_rest : Bytes → Bytes
escape_rest [] = []
escape_rest (c ∷ s) = escape_char c ++ escape_rest s

-- How it writes a value: a blank at the front is escaped.
abbrev pub escape : Bytes → Bytes
escape [] = []
escape (c ∷ s) = if c == b' ' then b'\\' ∷ c ∷ escape_rest s else escape_char c ++ escape_rest s

-- Characters that `store` writes without `\\u`.
abbrev pub is_simple : ℕ → Bool
is_simple c = leb 32 c && leb c 126 || (c == b'\n' || (c == 13 || (c == 9 || c == 12)))

abbrev pub AllSimple : Bytes → Type 0
AllSimple [] = Unit
AllSimple (c ∷ s) = (is_simple c ≡ true) × AllSimple s

abbrev pub IsPlain : Bytes → Type 0
IsPlain [] = Unit
IsPlain (c ∷ s) = (c ≢ 0) × (c ≢ b'\n') × (c ≢ b'\\') × IsPlain s

-- What may stand behind the value: its line end or the NUL.
abbrev pub ends_line : ℕ → Bool
ends_line e = e == 0 || e == b'\n'

cut_line-escape_char :
    (c : ℕ) (mem : Bytes)
    → is_simple c ≡ true
    → cut_line (escape_char c ++ mem) ≡ escape_char c ++ cut_line mem
unfolding cut_line
cut_line-escape_char c mem h = ground (arith, h)

cut_line-escape_rest :
    (s mem : Bytes) (e : ℕ)
    → AllSimple s
    → ends_line e ≡ true
    → cut_line (escape_rest s ++ e ∷ mem) ≡ escape_rest s ++ 0 ∷ mem
unfolding cut_line
cut_line-escape_rest [] mem e h l = ground (arith, l)
cut_line-escape_rest (c ∷ s) mem e (hc, hs) l =
    rw (append_assoc, cut_line-escape_char c _ hc, cut_line-escape_rest s mem e hs l)
      (sym (append_assoc (escape_char c) (escape_rest s) (0 ∷ mem)))

unescape_pair :
    (d : ℕ) (mem : Bytes)
    → unescape_from (b'\\' ∷ d ∷ mem) ≡ Option.map (◌∷◌ (unescaped_byte d)) (unescape_from mem)
unfolding unescape_from
unescape_pair d mem = refl

unescape_plain :
    (c d : ℕ) (mem : Bytes)
    → c ≢ 0
    → c ≢ b'\\'
    → unescape_from (c ∷ d ∷ mem) ≡ Option.map (◌∷◌ c) (unescape_from (d ∷ mem))
unfolding unescape_from
unescape_plain c d mem h k = ground arith

-- The same without the codes.
escape_byte : ℕ → Bytes
escape_byte c =
    if c == b'\n'
    then b'\\' ∷ b'n' ∷ []
    else if c == 13
    then b'\\' ∷ b'r' ∷ []
    else if c == 9
    then b'\\' ∷ b't' ∷ []
    else if c == 12
    then b'\\' ∷ b'f' ∷ []
    else if c == b'\\' || (c == b'=' || (c == b':' || (c == b'#' || c == b'!')))
    then b'\\' ∷ c ∷ []
    else c ∷ []

simple-escape_byte : (c : ℕ) → is_simple c ≡ true → escape_char c ≡ escape_byte c
unfolding escape_byte
simple-escape_byte c h = ground (arith, h)

unescape_from-escape_byte :
    (c : ℕ) (mem : Bytes)
    → c ≢ 0
    → mem ≢ []
    → unescape_from (escape_byte c ++ mem) ≡ Option.map (◌∷◌ c) (unescape_from mem)
unfolding unescaped_byte escape_byte
unescape_from-escape_byte c [] h ne = absurd (ne refl)
unescape_from-escape_byte c (d ∷ mem) h ne = ground (
  arith,
  unescape_pair b'n' (d ∷ mem),
  unescape_pair b'r' (d ∷ mem),
  unescape_pair b't' (d ∷ mem),
  unescape_pair b'f' (d ∷ mem),
  unescape_pair c (d ∷ mem),
  unescape_plain c d mem,
)

unescape_from-escape_char :
    (c : ℕ) (mem : Bytes)
    → is_simple c ≡ true
    → mem ≢ []
    → unescape_from (escape_char c ++ mem) ≡ Option.map (◌∷◌ c) (unescape_from mem)
unescape_from-escape_char c mem h ne =
    ap (λ b. unescape_from (b ++ mem)) (simple-escape_byte c h)
    ∙ unescape_from-escape_byte c mem (λ e. absurd (ground (arith, h, e))) ne

unescape_from_end : (mem : Bytes) → unescape_from (0 ∷ mem) ≡ some []
unfolding unescape_from
unescape_from_end [] = refl
unescape_from_end (d ∷ mem) = refl

unescape_from-escape_rest :
    (s mem : Bytes) → AllSimple s → unescape_from (escape_rest s ++ 0 ∷ mem) ≡ some s
unescape_from-escape_rest [] mem h = unescape_from_end mem
unescape_from-escape_rest (c ∷ s) mem (hc, hs) = rw (
  append_assoc,
  unescape_from-escape_char c _ hc (append_cons-ne-nil (escape_rest s) mem 0),
  unescape_from-escape_rest s mem hs,
)

escaped_blank :
    (s mem : Bytes) (e : ℕ)
    → AllSimple s
    → ends_line e ≡ true
    → print_unescaped (b'\\' ∷ b' ' ∷ (escape_rest s ++ e ∷ mem)) ≡ some ((b' ' ∷ s) ++ b'\n' ∷ [])
unfolding print_unescaped cut_line unescaped_byte
escaped_blank s mem e h l =
    rw
      (
        cut_line-escape_rest s mem e h l,
        unescape_pair b' ' (escape_rest s ++ 0 ∷ mem),
        unescape_from-escape_rest s mem h,
      )
      refl

escaped_plain :
    (s mem : Bytes) (e : ℕ)
    → AllSimple s
    → ends_line e ≡ true
    → print_unescaped (escape_rest s ++ e ∷ mem) ≡ some (s ++ b'\n' ∷ [])
unfolding print_unescaped
escaped_plain s mem e h l =
    rw (cut_line-escape_rest s mem e h l, unescape_from-escape_rest s mem h) refl

-- A value of printable ASCII characters, tabs, form feeds and line ends that was escaped as
-- `Properties.store` does it, and stands in front of its line end or a NUL with anything behind, is
-- printed as it was, with a line end. Of other characters `store` writes the code, which is not read
-- back.
pub print_unescaped-escape :
    (s mem : Bytes) (e : ℕ)
    → AllSimple s
    → ends_line e ≡ true
    → print_unescaped (escape s ++ e ∷ mem) ≡ some (s ++ b'\n' ∷ [])
print_unescaped-escape [] mem e h l = escaped_plain [] mem e h l
print_unescaped-escape (c ∷ s) mem e (hc, hs) l = elim (Bool-cases (c == b' ')) [
  | inl blank ↦ let same : c ≡ b' ' = ground (arith, blank) in rw same (escaped_blank s mem e hs l)
  | inr other ↦ simp other (escaped_plain (c ∷ s) mem e (hc, hs) l)
]

cut_line-plain : (s mem : Bytes) → IsPlain s → cut_line (s ++ mem) ≡ s ++ cut_line mem
unfolding cut_line
cut_line-plain [] mem h = refl
cut_line-plain (c ∷ s) mem (h, k, l, hs) = ground (arith, cut_line-plain s mem hs)

unescape_from_lone : (s : Bytes) → IsPlain s → unescape_from (s ++ b'\\' ∷ 0 ∷ []) ≡ none
unescape_from_lone [] h = unfold unescape_from in refl
unescape_from_lone (c ∷ s) (h, k, l, hs) =
    rw (unescape_plain_ne c _ h l (append_cons-ne-nil s (0 ∷ []) b'\\'), unescape_from_lone s hs)
  where
    unescape_plain_ne :
        (c : ℕ) (mem : Bytes)
        → c ≢ 0
        → c ≢ b'\\'
        → mem ≢ []
        → unescape_from (c ∷ mem) ≡ Option.map (◌∷◌ c) (unescape_from mem)
    unescape_plain_ne c [] p q ne = absurd (ne refl)
    unescape_plain_ne c (d ∷ mem) p q ne = unescape_plain c d mem p q

-- An answer whose text ends in a single backslash, with the terminating NUL as the last byte that
-- was received, is read beyond that NUL: the loop leaves the received bytes.
pub print_unescaped_overrun : (s : Bytes) → IsPlain s → print_unescaped (s ++ b'\\' ∷ 0 ∷ []) ≡ none
unfolding print_unescaped
print_unescaped_overrun s h =
    rw (cut_line-plain s (b'\\' ∷ 0 ∷ []) h) (unfold cut_line in rw (unescape_from_lone s h))
