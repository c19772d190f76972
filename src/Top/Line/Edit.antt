-- ===== src/Top/Line/Edit.antt =====
-- The specification of the line editor: a text with a cursor.
pub mod Bounds
pub mod Refine
use yc_360_script.Prelude.{
  ℕ, zero, suc, ◌+◌, ◌-◌, ◌≤◌, ◌<◌, ◌≡◌, refl, sym, ◌∙◌, ap, Bool, true, false, not, ◌&&◌, ◌||◌,
  List, [], ◌∷◌, ◌++◌, append-nil, ◌==◌, ltb, leb, if◌then◌else◌, Bytes, length, take, drop, get_or,
  length-append, length-take, length-drop, take_all, Bool-cases, inl, inr, ◌⊎◌, arith,
}
use yc_360_script.Top.Line.{
  buf_max, zeros, text_of, store, squeeze, expand, Key, none_left, esc, enter, ins, del, bksp, left,
  right, home, end, up, down, char, Line, is_print, type_char, shortened, recall, press, Outcome,
  accepted, given_up, waiting, edit,
}
use yc_360_script.Top.Line.Buffer.{
  delete_at, insert_at, replace_at, squeeze_inside, squeeze_end, store_inside, store_behind,
  expand-padded,
}
use yc_360_script.Top.Line.Pads.{padded}

-- A text with a cursor, the mode, and the place among the saved lines.
pub record Editor : Type 0 where
  pub text : Bytes
  pub cursor : ℕ
  pub replacing : Bool
  pub place : ℕ

-- A character is inserted where there is room on the line and the screen, and replaces the one at the
-- cursor otherwise or in the overwrite mode.
abbrev pub typed : ℕ → ℕ → ℕ → Editor → Editor
typed cols beg c s =
    let room = ltb (length s.text + 1) buf_max && ltb (length s.text + beg + 1) cols in
    if is_print c && (ltb (s.cursor + 1) buf_max && ltb (beg + s.cursor + 1) cols)
    then record s {
      text =
          if not s.replacing && room
          then insert_at s.cursor c s.text
          else replace_at s.cursor c s.text;
      cursor = s.cursor + 1;
    }
    else s

abbrev pub recalled : ℕ → ℕ → Bytes → ℕ → Editor → Editor
recalled cols beg str place s = record s {
  text = shortened cols beg str;
  cursor = length (shortened cols beg str);
  place = place;
}

abbrev pub act : ℕ → ℕ → List Bytes → Key → Editor → Editor
act cols beg saved none_left s = s
act cols beg saved esc s = s
act cols beg saved enter s = s
act cols beg saved ins s = record s { replacing = not s.replacing }
act cols beg saved del s = record s { text = delete_at s.cursor s.text }
act cols beg saved bksp s =
    if ltb 0 s.cursor
    then record s { text = delete_at (s.cursor - 1) s.text; cursor = s.cursor - 1 }
    else s
act cols beg saved left s = if ltb 0 s.cursor then record s { cursor = s.cursor - 1 } else s
act cols beg saved right s =
    if ltb s.cursor (length s.text) then record s { cursor = s.cursor + 1 } else s
act cols beg saved home s = record s { cursor = 0 }
act cols beg saved end s = record s { cursor = length s.text }
act cols beg saved up s =
    if ltb (s.place + 1) (length saved)
    then recalled cols beg (get_or saved (s.place + 1) []) (s.place + 1) s
    else s
act cols beg saved down s = recalled cols beg (get_or saved (s.place - 1) []) (s.place - 1) s
act cols beg saved (char c) s = typed cols beg c s

abbrev pub session : ℕ → ℕ → List Bytes → List Key → Editor → Outcome
session cols beg saved [] s = waiting s.text
session cols beg saved (enter ∷ keys) s = accepted s.text
session cols beg saved (none_left ∷ keys) s = given_up []
session cols beg saved (esc ∷ keys) s = given_up (replace_at 0 27 s.text)
session cols beg saved (k ∷ keys) s = session cols beg saved keys (act cols beg saved k s)

abbrev pub NoNul : Bytes → Type 0
NoNul [] = Unit
NoNul (c ∷ t) = (0 < c) × NoNul t

-- The cursor stands in the text or at its end, and the text fits the buffer.
pub record IsFine (s : Editor) : Type 0 where
  pub inside : s.cursor ≤ length s.text
  pub short : length s.text ≤ 254
  pub solid : NoNul s.text

-- The variables of `ioline` for an editor.
abbrev pub line_of : Editor → Line
line_of s = record { buf = padded s.text; pos = s.cursor; ovt = s.replacing; plin = s.place }

-- The saved lines came from the editor.
abbrev pub AllShort : List Bytes → Type 0
AllShort [] = Unit
AllShort (t ∷ saved) = (length t ≤ 254) × NoNul t × AllShort saved
