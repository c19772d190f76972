-- ===== src/Tests/Utf8.antt =====
-- Texts with characters of one, two and three bytes.
use yc_360_script.Prelude.{
  arith, ◌≤◌, ◌≡◌, refl, ap, true, false, ◌==◌, if◌then◌else◌, List, [], ◌∷◌, some, none, Bytes,
  length, take,
}
use yc_360_script.Top.Text.{justify_pad}
use yc_360_script.Top.Utf8.{
  utf8_tab, Wcwidth, or_one, utf8_cols, delta_from, utf8_delta, embody_from, utf8_embody,
  utf8_justify, make_str_utf8, utf8_proper_col,
}
use yc_360_script.Top.Utf8.Chars.{char, AllChars, glued, total_cols, IsNarrow}
use yc_360_script.Top.Utf8.Kept.{kept}
use yc_360_script.Top.Utf8.Fills.{row, shown_chars, utf8_justify_fills, make_str_utf8_fills}
use yc_360_script.Top.Utf8.Places.{utf8_proper_col_back}

-- Characters of three bytes take two columns.
abbrev wide : Wcwidth
wide b = some (if length b == 3 then 2 else 1)

wide-IsNarrow : IsNarrow wide
wide-IsNarrow b w e = ground (arith, ap or_one e)

abbrev text : List Bytes
text = (97 ∷ []) ∷ (195 ∷ 169 ∷ []) ∷ (228 ∷ 184 ∷ 150 ∷ []) ∷ (98 ∷ []) ∷ []

text-All : AllChars text
unfolding utf8_tab
text-All = (
  char 97 [] refl,
  (char 195 (169 ∷ []) refl, (char 228 (184 ∷ 150 ∷ []) refl, (char 98 [] refl, tt))),
)

-- In three columns there is no room for the character that takes two.
cuts : utf8_embody wide (glued text) 3 ≡ some 3
unfolding utf8_embody embody_from utf8_tab utf8_cols
cuts = refl

fills : utf8_justify wide (glued text) 3 true ≡ some (32 ∷ 97 ∷ 195 ∷ 169 ∷ 32 ∷ [])
unfolding utf8_justify utf8_embody embody_from utf8_delta delta_from utf8_tab utf8_cols justify_pad
fills = refl

marks : make_str_utf8 wide (glued text) 4 false ≡ some (97 ∷ 195 ∷ 169 ∷ 43 ∷ 32 ∷ 32 ∷ [])
unfolding make_str_utf8 utf8_embody embody_from utf8_delta delta_from utf8_tab utf8_cols justify_pad
marks = refl

-- The text ends within a character: the loop goes on behind its NUL.
overruns : utf8_delta wide (97 ∷ 228 ∷ []) ≡ none
unfolding utf8_delta delta_from utf8_tab utf8_cols
overruns = refl

utf8_justify_fills_example :
    (total_cols wide (kept wide 3 text) ≤ 3)
    × (utf8_justify wide (glued text) 3 true ≡ some (row wide 3 true (kept wide 3 text)))
utf8_justify_fills_example =
    utf8_justify_fills wide text 3 true wide-IsNarrow text-All (omega arith)

make_str_utf8_fills_example :
    (total_cols wide (shown_chars wide 4 text) ≤ 4)
    × (make_str_utf8 wide (glued text) 4 false ≡ some (row wide 4 false (shown_chars wide 4 text)))
make_str_utf8_fills_example =
    make_str_utf8_fills wide text 4 false wide-IsNarrow text-All (omega arith) (omega arith)

utf8_proper_col_back_example :
    (utf8_proper_col (glued text) 3 true ≡ some (length (glued (take 3 text))))
    × (utf8_proper_col (glued text) (length (glued (take 3 text))) false ≡ some 3)
utf8_proper_col_back_example = utf8_proper_col_back text 3 text-All (omega arith)
