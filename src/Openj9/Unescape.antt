-- ===== src/Openj9/Unescape.antt =====
-- `print_unescaped`: the answer to a diagnostic command arrives in the format of a Java
-- properties file, and its escapes are undone on the way to stdout.
pub mod Laws
use yc_360_script.Prelude.{
  ℕ, Bool, true, false, [], ◌∷◌, ◌++◌, Option, none, some, ◌==◌, if◌then◌else◌, Bytes, codes, ◌≡◌,
  refl,
}
use mathlib.Core.Option

-- `if ((p = strchr(str, '\n')) != NULL) *p = 0;` on the memory from `str` to the buffer's end.
unfoldable pub cut_line : Bytes → Bytes
cut_line [] = []
cut_line (c ∷ mem) = if c == 0 then c ∷ mem else if c == b'\n' then 0 ∷ mem else c ∷ cut_line mem

-- What the `switch` leaves in the place of the backslash in front of `c`.
unfoldable pub unescaped_byte : ℕ → ℕ
unescaped_byte c =
    if c == 0
    then b'\\'
    else if c == b'f'
    then 12
    else if c == b'n'
    then b'\n'
    else if c == b'r'
    then 13
    else if c == b't'
    then 9
    else c

-- The loop with its `fwrite` calls joined: all that is written until a NUL is met. After a
-- backslash the pointer moves on by two, over a NUL too. `none`: it ran off the buffer's end.
unfoldable pub unescape_from : Bytes → Option Bytes
unfolding unescaped_byte
unescape_from [] = none
unescape_from (c ∷ []) = if c == 0 then some [] else none
unescape_from (c ∷ d ∷ mem) = elim (c == 0) [
  | true ↦ some []
  | false ↦ elim (c == b'\\') [
    | true ↦ Option.map (◌∷◌ (unescaped_byte d)) (unescape_from mem)
    | false ↦ Option.map (◌∷◌ c) (unescape_from (d ∷ mem))
  ]
]

-- What reaches stdout, the line end of the `printf` included.
unfoldable pub print_unescaped : Bytes → Option Bytes
unfolding cut_line unescape_from
print_unescaped mem = Option.map (λ out. out ++ b'\n' ∷ []) (unescape_from (cut_line mem))
