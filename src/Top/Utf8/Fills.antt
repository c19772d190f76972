-- ===== src/Top/Utf8/Fills.antt =====
-- A column holds as many whole characters as it has room for, and blanks for the rest.
use yc_360_script.Prelude.{
  ℕ, ◌+◌, ◌-◌, ◌≤◌, ◌<◌, ◌≡◌, refl, sym, ap, ◌∙◌, Bool, true, false, List, [], ◌∷◌, ◌++◌,
  append_assoc, some, ltb, if◌then◌else◌, Bytes, length, take, length-append, take_all, Bool-cases,
  inl, inr, arith,
}
use yc_360_script.CString.{snprintf}
use yc_360_script.Top.Text.{screen_max, blanks}
use yc_360_script.Top.Text.Laws.{padded, justify_pad-padded}
use yc_360_script.Top.Utf8.{
  Wcwidth, utf8_tab, utf8_cols, utf8_delta, utf8_embody, widened, embodied, utf8_justify, cut_off,
  made, make_str_utf8,
}
use yc_360_script.Top.Utf8.Chars.{char, AllChars, glued, total_cols, IsNarrow, total_cols-le}
use yc_360_script.Top.Utf8.Kept.{kept, utf8_embody-kept, take-kept, kept-All, utf8_delta-chars}

-- Characters in a column, with the blanks that are left and the one behind the column.
abbrev pub row : Wcwidth → ℕ → Bool → List Bytes → Bytes
row wcwidth width justr bs =
    let pad = blanks (width - total_cols wcwidth bs) in
    (if justr then pad ++ glued bs else glued bs ++ pad) ++ b' ' ∷ []

padded-row :
    (wcwidth : Wcwidth) (width : ℕ) (justr : Bool) (bs : List Bytes)
    → IsNarrow wcwidth
    → total_cols wcwidth bs ≤ width
    → padded (glued bs) (width + (length (glued bs) - total_cols wcwidth bs)) justr
      ≡ row wcwidth width justr bs
padded-row wcwidth width justr bs narrow few =
    let w = width + (length (glued bs) - total_cols wcwidth bs) in
    let bytes = total_cols-le wcwidth narrow bs in
    let whole = take_all w (glued bs) (omega (arith, few, bytes)) in
    let pad : w - length (glued bs) ≡ width - total_cols wcwidth bs = omega (arith, few, bytes) in
    rw (whole, pad) refl

widened-row :
    (wcwidth : Wcwidth) (width : ℕ) (justr : Bool) (bs : List Bytes)
    → IsNarrow wcwidth
    → AllChars bs
    → total_cols wcwidth bs ≤ width
    → width + length (glued bs) + 1 < screen_max
    → widened (glued bs) width justr (utf8_delta wcwidth (glued bs))
      ≡ some (row wcwidth width justr bs)
widened-row wcwidth width justr bs narrow all few short =
    let delta = length (glued bs) - total_cols wcwidth bs in
    ap (widened (glued bs) width justr) (utf8_delta-chars wcwidth bs all)
    ∙ ap some (
        justify_pad-padded (glued bs) (width + delta) justr (omega (arith, short))
        ∙ padded-row wcwidth width justr bs narrow few)

-- A text of whole characters, of two columns at most, in a column that is with it narrower than the
-- buffer: utf8_justify keeps the first characters that fit the width, none of them in part, and fills
-- the columns that are left with blanks, on the side that is asked for, and a blank behind the column.
pub utf8_justify_fills :
    (wcwidth : Wcwidth) (bs : List Bytes) (width : ℕ) (justr : Bool)
    → IsNarrow wcwidth
    → AllChars bs
    → width + length (glued bs) + 1 < screen_max
    → (total_cols wcwidth (kept wcwidth width bs) ≤ width)
      × (utf8_justify wcwidth (glued bs) width justr
          ≡ some (row wcwidth width justr (kept wcwidth width bs)))
unfolding utf8_justify
utf8_justify_fills wcwidth bs width justr narrow all short =
    let k = kept wcwidth width bs in
    let (chars, few, fewer) = kept-All wcwidth width bs all in
    let tmp : snprintf screen_max (take (length (glued k)) (glued bs)) ≡ glued k =
      ap (take (screen_max - 1)) (take-kept wcwidth width bs)
      ∙ take_all (screen_max - 1) (glued k) (omega (arith, short, fewer)) in
    (
      few,
      ap (embodied wcwidth (glued bs) width justr) (utf8_embody-kept wcwidth bs width all)
          ∙ ap (λ b. widened b width justr (utf8_delta wcwidth b)) tmp
          ∙ widened-row wcwidth width justr k narrow chars few (omega (arith, short, fewer)),
    )

-- What is shown of a text in a column: all of it, or what fits before a plus sign.
abbrev pub shown_chars : Wcwidth → ℕ → List Bytes → List Bytes
shown_chars wcwidth width bs =
    if ltb width (total_cols wcwidth bs)
    then kept wcwidth (width - 1) bs ++ (b'+' ∷ []) ∷ []
    else bs

glued-append : (bs cs : List Bytes) → glued (bs ++ cs) ≡ glued bs ++ glued cs
glued-append [] cs = refl
glued-append (b ∷ bs) cs =
    ap (λ z. b ++ z) (glued-append bs cs) ∙ sym (append_assoc b (glued bs) (glued cs))

total_cols-append :
    (wcwidth : Wcwidth) (bs cs : List Bytes)
    → total_cols wcwidth (bs ++ cs) ≡ total_cols wcwidth bs + total_cols wcwidth cs
total_cols-append wcwidth [] cs = omega arith
total_cols-append wcwidth (b ∷ bs) cs = omega (arith, total_cols-append wcwidth bs cs)

plus-All : (bs : List Bytes) → AllChars bs → AllChars (bs ++ (b'+' ∷ []) ∷ [])
unfolding utf8_tab
plus-All [] all = (char b'+' [] refl, tt)
plus-All (b ∷ bs) (ch, all) = (ch, plus-All bs all)

cut_off-row :
    (wcwidth : Wcwidth) (bs : List Bytes) (width : ℕ) (justr : Bool)
    → IsNarrow wcwidth
    → AllChars bs
    → 0 < width
    → width + length (glued bs) + 2 < screen_max
    → (let k = kept wcwidth (width - 1) bs ++ (b'+' ∷ []) ∷ [] in
        (total_cols wcwidth k ≤ width)
        × (cut_off wcwidth (glued bs) width justr (utf8_embody wcwidth (glued bs) (width - 1))
            ≡ some (row wcwidth width justr k)))
unfolding utf8_cols
cut_off-row wcwidth bs width justr narrow all some' short =
    let front = kept wcwidth (width - 1) bs in
    let k = front ++ (b'+' ∷ []) ∷ [] in
    let (chars, few, fewer) = kept-All wcwidth (width - 1) bs all in
    let size : length (glued k) ≡ length (glued front) + 1 =
      ap length (glued-append front ((b'+' ∷ []) ∷ [])) ∙ length-append (glued front) (b'+' ∷ []) in
    let fits : total_cols wcwidth k ≤ width =
      omega (arith, few, some', total_cols-append wcwidth front ((b'+' ∷ []) ∷ [])) in
    let buf : snprintf screen_max (take (length (glued front)) (glued bs) ++ b'+' ∷ []) ≡ glued k =
      ap (λ z. take (screen_max - 1) (z ++ b'+' ∷ [])) (take-kept wcwidth (width - 1) bs)
      ∙ ap (take (screen_max - 1)) (sym (glued-append front ((b'+' ∷ []) ∷ [])))
      ∙ take_all (screen_max - 1) (glued k) (omega (arith, short, fewer, size)) in
    (
      fits,
      ap (cut_off wcwidth (glued bs) width justr) (utf8_embody-kept wcwidth bs (width - 1) all)
          ∙ ap (λ b. widened b width justr (utf8_delta wcwidth b)) buf
          ∙ widened-row wcwidth width justr k narrow (plus-All front chars) fits
              (omega (arith, short, fewer, size)),
    )

-- A text of whole characters, of two columns at most, in a column of some width that is with it
-- narrower than the buffer: make_str_utf8 shows all of it where it fits the width, or else the first
-- characters that leave a column, and a plus sign there. It fills the rest with blanks, on the side
-- that is asked for, and puts a blank behind the column.
pub make_str_utf8_fills :
    (wcwidth : Wcwidth) (bs : List Bytes) (width : ℕ) (justr : Bool)
    → IsNarrow wcwidth
    → AllChars bs
    → 0 < width
    → width + length (glued bs) + 2 < screen_max
    → (total_cols wcwidth (shown_chars wcwidth width bs) ≤ width)
      × (make_str_utf8 wcwidth (glued bs) width justr
          ≡ some (row wcwidth width justr (shown_chars wcwidth width bs)))
unfolding make_str_utf8
make_str_utf8_fills wcwidth bs width justr narrow all some' short =
    let str = glued bs in
    let delta = length str - total_cols wcwidth bs in
    let known = utf8_delta-chars wcwidth bs all in
    let bytes = total_cols-le wcwidth narrow bs in
    elim (Bool-cases (ltb width (total_cols wcwidth bs))) [
      | inl over ↦
          let over' : ltb (width + delta) (length str) ≡ true = ground (arith, over, bytes) in
          let (few, e) = cut_off-row wcwidth bs width justr narrow all some' short in
          simp over (few, ap (made wcwidth str width justr) known ∙ simp over' e)
      | inr fits ↦
          let fits' : ltb (width + delta) (length str) ≡ false = ground (arith, fits, bytes) in
          let few : total_cols wcwidth bs ≤ width = ground (arith, fits) in
          let whole = take_all (screen_max - 1) str (omega (arith, short)) in
          simp fits (
            few,
            ap (made wcwidth str width justr) known
                ∙ simp fits' (
                    ap (λ b. widened b width justr (some delta)) whole
                    ∙ ap (widened str width justr) (sym known)
                    ∙ widened-row wcwidth width justr bs narrow all few (omega (arith, short))),
          )
    ]
