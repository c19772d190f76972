-- ===== src/Top/Utf8.antt =====
-- Texts of several bytes a character: `utf8_cols`, `utf8_delta`, `utf8_embody`, `utf8_justify`,
-- `utf8_proper_col` and `make_str_utf8`.
pub mod Chars
pub mod Kept
pub mod Fills
pub mod Places
use yc_360_script.Prelude.{
  ℕ, zero, suc, ◌+◌, ◌-◌, Bool, true, false, not, ◌&&◌, List, [], ◌∷◌, ◌++◌, Option, none, some,
  ltb, ◌==◌, if◌then◌else◌, Bytes, length, take, drop,
}
use yc_360_script.CString.{snprintf}
use yc_360_script.Top.Text.{screen_max, justify_pad}

-- `UTF8_tab`: the bytes of the character that a byte begins, nothing for -1. The table has
-- type `char`, which is signed here.
unfoldable pub utf8_tab : ℕ → Option ℕ
utf8_tab c =
    if ltb c 128
    then some 1
    else if ltb c 194
    then none
    else if ltb c 224
    then some 2
    else if ltb c 240
    then some 3
    else if ltb c 245
    then some 4
    else none

-- What the C library says of the bytes of a character: `wcwidth` behind `mbtowc`, nothing for -1.
abbrev pub Wcwidth : Type 0
Wcwidth = Bytes → Option ℕ

abbrev pub or_one : Option ℕ → ℕ
or_one none = 1
or_one (some w) = w

unfoldable pub utf8_cols : Wcwidth → Bytes → ℕ → ℕ
utf8_cols wcwidth p n = if ltb 1 n then or_one (wcwidth (take n p)) else n

-- The loops below have the rest of the text, `p`, and the bytes before it, with a round of fuel for each
-- byte of the text; `none` is a read behind the NUL, where the text ends within a character.
unfoldable pub delta_from : Wcwidth → ℕ → Bytes → ℕ → ℕ → Option ℕ
delta_from wcwidth fuel [] passed cnum = some (passed - cnum)
delta_from wcwidth zero (c ∷ p) passed cnum = none
delta_from wcwidth (suc fuel) (c ∷ p) passed cnum = elim (utf8_tab c) [
  | none ↦ some 0
  | some clen ↦ elim (ltb (suc (length p)) clen) [
    | true ↦ none
    | false ↦
        delta_from wcwidth fuel (drop clen (c ∷ p)) (passed + clen)
          (cnum + utf8_cols wcwidth (c ∷ p) clen)
  ]
]

-- `utf8_delta`; since `wcwidth` is at most 2, a text has no more columns than bytes.
unfoldable pub utf8_delta : Wcwidth → Bytes → Option ℕ
utf8_delta wcwidth str = delta_from wcwidth (length str) str 0 0

unfoldable pub embody_from : Wcwidth → ℕ → ℕ → Bytes → ℕ → ℕ → Option ℕ
embody_from wcwidth width fuel [] passed cnum = some passed
embody_from wcwidth width zero (c ∷ p) passed cnum = none
embody_from wcwidth width (suc fuel) (c ∷ p) passed cnum = elim (utf8_tab c) [
  | none ↦ some width
  | some clen ↦ elim (ltb width (cnum + utf8_cols wcwidth (c ∷ p) clen)) [
    | true ↦ some passed
    | false ↦ elim (ltb (suc (length p)) clen) [
      | true ↦ none
      | false ↦
          embody_from wcwidth width fuel (drop clen (c ∷ p)) (passed + clen)
            (cnum + utf8_cols wcwidth (c ∷ p) clen)
    ]
  ]
]

-- `utf8_embody`; a width below 0 does what 0 does.
unfoldable pub utf8_embody : Wcwidth → Bytes → ℕ → Option ℕ
utf8_embody wcwidth str width =
    if width == 0 then some 0 else embody_from wcwidth width (length str) str 0 0

-- A text behind the column of which `delta` is known; `justify_pad` has the buffer.
abbrev pub widened : Bytes → ℕ → Bool → Option ℕ → Option Bytes
widened tmp width justr none = none
widened tmp width justr (some delta) = some (justify_pad tmp (width + delta) justr)

abbrev pub embodied : Wcwidth → Bytes → ℕ → Bool → Option ℕ → Option Bytes
embodied wcwidth str width justr none = none
embodied wcwidth str width justr (some n) =
    let tmp = snprintf screen_max (take n str) in widened tmp width justr (utf8_delta wcwidth tmp)

-- `utf8_justify`, whose formats are those of `justify_pad`.
unfoldable pub utf8_justify : Wcwidth → Bytes → ℕ → Bool → Option Bytes
utf8_justify wcwidth str width justr =
    embodied wcwidth str width justr (utf8_embody wcwidth str width)

-- `snprintf(buf, sizeof(buf), "%.*s%c", utf8_embody(str, width-1), str, COLPLUSCH);`
abbrev pub cut_off : Wcwidth → Bytes → ℕ → Bool → Option ℕ → Option Bytes
cut_off wcwidth str width justr none = none
cut_off wcwidth str width justr (some n) =
    let buf = snprintf screen_max (take n str ++ b'+' ∷ []) in
    widened buf width justr (utf8_delta wcwidth buf)

abbrev pub made : Wcwidth → Bytes → ℕ → Bool → Option ℕ → Option Bytes
made wcwidth str width justr none = none
made wcwidth str width justr (some delta) =
    if ltb (width + delta) (length str)
    then cut_off wcwidth str width justr (utf8_embody wcwidth str (width - 1))
    else widened (snprintf screen_max str) width justr (some delta)

unfoldable pub make_str_utf8 : Wcwidth → Bytes → ℕ → Bool → Option Bytes
make_str_utf8 wcwidth str width justr = made wcwidth str width justr (utf8_delta wcwidth str)

unfoldable pub proper_from : Bool → ℕ → ℕ → Bytes → ℕ → ℕ → Option ℕ
proper_from tophysical col fuel [] tlen cnum = some (if tophysical then tlen else cnum)
proper_from tophysical col zero (c ∷ p) tlen cnum = none
proper_from tophysical col (suc fuel) (c ∷ p) tlen cnum = elim (utf8_tab c) [
  | none ↦ some col
  | some clen ↦ elim (ltb col (cnum + 1) && tophysical) [
    | true ↦ some tlen
    | false ↦ elim (ltb col (tlen + clen) && not tophysical) [
      | true ↦ some cnum
      | false ↦ elim (ltb (suc (length p)) clen) [
        | true ↦ none
        | false ↦ proper_from tophysical col fuel (drop clen (c ∷ p)) (tlen + clen) (cnum + 1)
      ]
    ]
  ]
]

unfoldable pub utf8_proper_col : Bytes → ℕ → Bool → Option ℕ
utf8_proper_col str col tophysical = proper_from tophysical col (length str) str 0 0
