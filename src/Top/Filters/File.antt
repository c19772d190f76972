-- ===== src/Top/Filters/File.antt =====
-- The filters in the configuration file: how `write_rcfile` prints them and `config_osel` reads them.
-- A line ends with its newline, and fits the buffer that it is read into.
pub mod Lines
pub mod Restore
pub mod Reread
use yc_360_script.Prelude.{
  ℕ, zero, suc, ◌+◌, ◌-◌, Bool, true, false, not, ◌&&◌, ◌||◌, List, [], ◌∷◌, ◌++◌, Option, none,
  some, ltb, leb, ◌==◌, if◌then◌else◌, Bytes, codes, map,
}
use yc_360_script.Prelude.Int.{ℤ, pos, negsuc}
use yc_360_script.CString.{after_strstr, is_digit, is_space, atoi}
use yc_360_script.CString.Numbers.{decimal, signed_decimal}
use yc_360_script.Top.Filters.{
  Criterion, Filters, Columns, Result, done, refused, osel_add, contains,
}

-- `sscanf`: white space in the format stands for any amount of it, `%d` for a number behind white space.
abbrev pub skip_spaces : Bytes → Bytes
skip_spaces [] = []
skip_spaces (c ∷ s) = if is_space c then skip_spaces s else c ∷ s

unfoldable pub scan_text : Bytes → Bytes → Option Bytes
scan_text [] s = some s
scan_text (f ∷ format) [] = if is_space f then scan_text format [] else none
scan_text (f ∷ format) (c ∷ s) =
    if is_space f
    then scan_text format (skip_spaces (c ∷ s))
    else if c == f
    then scan_text format s
    else none

abbrev pub skip_digits : Bytes → Bytes
skip_digits [] = []
skip_digits (c ∷ s) = if is_digit c then skip_digits s else c ∷ s

abbrev pub starts_number : Bytes → Bool
starts_number [] = false
starts_number (c ∷ []) = is_digit c
starts_number (c ∷ d ∷ s) = is_digit c || (c == b'-' || c == b'+') && is_digit d

abbrev pub behind_sign : Bytes → Bytes
behind_sign [] = []
behind_sign (c ∷ s) = if c == b'-' || c == b'+' then s else c ∷ s

abbrev pub read_int : Bytes → Option (ℤ × Bytes)
read_int s = if starts_number s then some (atoi s, skip_digits (behind_sign s)) else none

unfoldable pub scan_int : Bytes → Option (ℤ × Bytes)
scan_int s = read_int (skip_spaces s)

infixl 5 ◌>>=◌
abbrev pub ◌>>=◌ : {A B : Type 0} → Option A → (A → Option B) → Option B
none >>= f = none
(some a) >>= f = f a

-- `sscanf(buf, "window #%d, osel_tot=%d\n", &wno, &tot)`, with both numbers.
unfoldable pub scan_window : Bytes → Option (ℤ × ℤ)
scan_window buf = do
  s ← scan_text (codes "window #") buf
  t ← scan_int s
  u ← scan_text (codes ", osel_tot=") t.1
  v ← scan_int u
  some (t.0, v.0)

-- `sscanf(buf, "\ttype=%d,\tfilter=%*s\n", &ch)`, with its number.
unfoldable pub scan_type : Bytes → Option ℤ
scan_type buf = do s ← scan_text (9 ∷ codes "type=") buf; t ← scan_int s; some t.0

-- `if ((p = strchr(buf, '\n'))) *p = '\0';`
abbrev pub cut_newline : Bytes → Bytes
cut_newline [] = []
cut_newline (c ∷ s) = if c == 10 then [] else c ∷ cut_newline s

unfoldable pub scan_filter : Bytes → Option (ℤ × Bytes)
scan_filter buf = do
  ch ← scan_type buf
  p ← after_strstr (cut_newline buf) (codes "filter=") 7
  some (ch, p)

-- `Osel_delim_1_txt` and `Osel_delim_2_txt`.
abbrev pub delim_1 : Bytes
delim_1 = codes "begin: saved other filter data -------------------" ++ 10 ∷ []

abbrev pub delim_2 : Bytes
delim_2 = codes "end  : saved other filter data -------------------" ++ 10 ∷ []

-- Where `config_osel` stands: before the first delimiter, at a line for a window, or with filters of a
-- window to come, one and `n` more.
pub data OselMode : Type 0 where
  before at_window : OselMode
  at_filter : ℕ → ℕ → OselMode

abbrev pub to_come : ℕ → ℕ → OselMode
to_come w zero = at_window
to_come w (suc n) = at_filter w n

-- `return 0` at the end of the file or, with the line kept, where something else begins; the second
-- delimiter; `return 1` at the end of the file; and `end_oops`.
pub data Ending : Type 0 where
  nothing_there other_entry complete cut_short oops : Ending

-- `Winstk[wno]`, where the index was tested.
abbrev pub window_at : ℕ → List Filters → Option Filters
window_at w [] = none
window_at zero (f ∷ ws) = some f
window_at (suc w) (f ∷ ws) = window_at w ws

abbrev pub set_window : ℕ → Filters → List Filters → List Filters
set_window w g [] = []
set_window zero g (f ∷ ws) = g ∷ ws
set_window (suc w) g (f ∷ ws) = f ∷ set_window w g ws

-- One line: on to the next in a mode, or the end.
pub data Move : Type 0 where
  next : OselMode → List Filters → Move
  stop : Ending → Move

abbrev pub includes : Bytes → Bytes → Bool
includes delim buf = contains (λ c. c) delim buf

abbrev pub window_line : List Filters → Option (ℤ × ℤ) → Move
window_line ws (some (pos w, pos tot)) = if ltb w 4 then next (to_come w tot) ws else stop oops
window_line ws _ = stop oops

abbrev pub store_filters : ℕ → ℕ → List Filters → Result Filters → Move
store_filters w n ws (refused r) = stop oops
store_filters w n ws (done f) = next (to_come w n) (set_window w f ws)

abbrev pub filter_line : Columns → ℕ → ℕ → List Filters → Option (ℤ × Bytes) → Option Filters → Move
filter_line cols w n ws (some (ch, p)) (some f) = store_filters w n ws (osel_add cols ch p false f)
filter_line cols w n ws _ _ = stop oops

abbrev pub is_blank : Bytes → Bool
is_blank [] = false
is_blank (c ∷ s) = c == 10

unfoldable pub read_line : Columns → OselMode → Bytes → List Filters → Move
read_line cols before buf ws =
    if is_blank buf
    then next before ws
    else if includes delim_1 buf
    then next at_window ws
    else stop other_entry
read_line cols at_window buf ws =
    if is_blank buf
    then next at_window ws
    else if includes delim_2 buf
    then stop complete
    else window_line ws (scan_window buf)
read_line cols (at_filter w n) buf ws = filter_line cols w n ws (scan_filter buf) (window_at w ws)

abbrev pub at_end : OselMode → Ending
at_end before = nothing_there
at_end at_window = nothing_there
at_end (at_filter w n) = cut_short

-- `config_osel`: how it ends, the windows, and the lines that are left.
unfoldable pub config_osel :
    Columns → OselMode → List Bytes → List Filters → Ending × List Filters × List Bytes
config_osel cols mode [] ws = (at_end mode, ws, [])
config_osel cols mode (buf ∷ lines) ws = elim (read_line cols mode buf ws) [
  | next mode' ws' ↦ config_osel cols mode' lines ws'
  | stop other_entry ↦ (other_entry, ws, buf ∷ lines)
  | stop ending ↦ (ending, ws, lines)
]

-- What `write_rcfile` prints.
abbrev pub window_text : ℕ → ℕ → Bytes
window_text i tot =
    codes "window #" ++ decimal i ++ (codes ", osel_tot=" ++ (decimal tot ++ 10 ∷ []))

abbrev pub filter_text : Criterion → Bytes
filter_text c =
    9 ∷ codes "type=" ++ signed_decimal c.typ ++ (44 ∷ 9 ∷ codes "filter=" ++ (c.raw ++ 10 ∷ []))

abbrev pub window_texts : ℕ → Filters → List Bytes
window_texts i f = elim f.criteria [
  | [] ↦ []
  | c ∷ cs ↦ window_text i f.osel_tot ∷ map filter_text (c ∷ cs)
]

abbrev pub all_texts : ℕ → List Filters → List Bytes
all_texts i [] = []
all_texts i (f ∷ ws) = window_texts i f ++ all_texts (i + 1) ws

abbrev pub sum_tot : List Filters → ℕ
sum_tot [] = 0
sum_tot (f ∷ ws) = f.osel_tot + sum_tot ws

unfoldable pub write_osel : List Filters → List Bytes
write_osel ws =
    if sum_tot ws == 0 then [] else (10 ∷ []) ∷ delim_1 ∷ (all_texts 0 ws ++ delim_2 ∷ [])
