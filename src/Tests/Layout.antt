-- ===== src/Tests/Layout.antt =====
-- The windows on the screen, the columns, the fields screen and the inspection of a file.
use yc_360_script.Prelude.{
  arith, ℕ, zero, suc, ◌+◌, ◌≤◌, ◌<◌, ◌≡◌, refl, Bool, true, false, List, [], ◌∷◌, Option, none,
  some, length, drop,
}
use yc_360_script.Prelude.Int.{◌-ℤ◌, negsuc, pos}
use yc_360_script.Top.Forest.Rows.{Focus}
use yc_360_script.Top.Scroll.{Sight, show_rows}
use yc_360_script.Top.Frame.{
  Pane, visible, frame_hlp, pane_rows, scroll_current, pane_show, show_panes, frame_make,
}
use yc_360_script.Top.Frame.Laws.{frame_make-visible}
use yc_360_script.Top.Columns.{
  Slot, xon, xof, field, Table, len, lead, fit, drop_xon, calibrate, header_columns, flags_of,
  all_flags,
}
use yc_360_script.Top.Columns.Laws.{Full, calibrate-fits}
use yc_360_script.Top.Columns.EndKey.{calibrate_end}
use yc_360_script.Top.Columns.Keys.{
  left, pgup, pgdn, home, end, scroll_keys, scroll_key, column_left, column_right, Offset, Setting,
}
use yc_360_script.Top.Columns.Keys
use yc_360_script.Top.Columns.Keys.Laws.{IsView, scroll_keys-IsView}
use yc_360_script.Top.Fields.{
  Window, up, down, right, enter, toggle, quit, fields_utility, fields_keys, press, sort_place,
  place_of, swap_slots, toggle_slot,
}
use yc_360_script.Top.Fields.Laws.{IsKept, fields_utility-IsKept}
use yc_360_script.Top.Inspect.{Stream, Rows, insp_do_file, insp_cnt_nl, row_starts, rows_of}
use yc_360_script.Top.Inspect.Pieces.{lines}
use yc_360_script.Top.Inspect.Laws.{joined, insp_do_file-lines}

-- Five tasks, of which the second window shows the first and the last one.
abbrev whole : Focus
whole = record { focus_pid = 0; focus_beg = 0; focus_end = 0; begtask = pos 0; begnext = pos 0 }

abbrev all_tasks : Sight
all_tasks = record {
  shows = λ i. true;
  selects = λ i. true;
  busy = λ i. true;
  idle_too = true;
  by_user = false;
}

abbrev current : Pane
current = record {
  is_current = true;
  taskon = true;
  maxtasks = 0;
  sight = all_tasks;
  focus = whole;
}

abbrev hidden : Pane
hidden = record current { is_current = false; taskon = false }

abbrev beside : Pane
beside = record current { is_current = false }

-- Eight lines for two windows: three tasks in the first one, and as many in the other.
frame_of_two :
    (frame_make true 12 3 5 current (current ∷ hidden ∷ beside ∷ [])).windows
    ≡ (0 ∷ 1 ∷ 2 ∷ []) ∷ (0 ∷ 1 ∷ 2 ∷ []) ∷ []
unfolding frame_make show_panes pane_show pane_rows scroll_current frame_hlp show_rows
frame_of_two = refl

frame_make-visible_example :
    length (frame_make true 12 3 5 current (current ∷ hidden ∷ beside ∷ [])).windows
    ≡ visible (current ∷ hidden ∷ beside ∷ [])
frame_make-visible_example =
    frame_make-visible 12 3 5 current (current ∷ hidden ∷ beside ∷ []) (refl, (refl, (refl, tt)))
      (omega arith)

-- Fields of three columns, of which the second one is variable.
abbrev widths : ℕ → Option ℕ
widths zero = some 3
widths (suc zero) = none
widths (suc (suc f)) = some 3

abbrev table : Table
table = record { width = widths; heading = λ f. 3 }

abbrev slots : List Slot
slots =
    record { enu = 0; on = true }
    ∷ record { enu = 1; on = true }
    ∷ record { enu = 2; on = false }
    ∷ record { enu = 3; on = true }
    ∷ []

-- Ten columns take the first two fields, of which the variable one is widened.
columns_of_ten : (calibrate table false 10 true 3 0 slots).procflgs ≡ field 0 ∷ field 1 ∷ []
unfolding calibrate all_flags flags_of fit
columns_of_ten = refl

sorted_column :
    (calibrate table false 12 true 3 0 slots).procflgs
    ≡ field 0 ∷ field 1 ∷ xon ∷ field 3 ∷ xof ∷ []
unfolding calibrate all_flags flags_of fit
sorted_column = refl

calibrate-fits_example :
    (header_columns table true (calibrate table true 10 true 3 0 slots) ≤ 10)
    × ((calibrate table true 10 true 3 0 slots).procflgs
        ≡ drop_xon
            (fit table 10
              (lead true)
              (drop 0 (calibrate table true 10 true 3 0 slots).pflgsall)).flags)
    × Full table 10
        (drop 0 (calibrate table true 10 true 3 0 slots).pflgsall)
        (fit table 10 (lead true) (drop 0 (calibrate table true 10 true 3 0 slots).pflgsall))
calibrate-fits_example = calibrate-fits table true 10 true 3 0 slots (omega arith)

narrow : (f : ℕ) → 1 + len table f ≤ 10
narrow zero = omega arith
narrow (suc zero) = omega arith
narrow (suc (suc f)) = omega arith

calibrate_end_example :
    ((calibrate table true 10 true 3
        (calibrate table true 10 true 3 0 slots).endpflg
        slots).procflgs
      ≡ drop
          (calibrate table true 10 true 3 0 slots).endpflg
          (calibrate table true 10 true 3 0 slots).pflgsall)
    × ((calibrate table true 10 true 3 0 slots).endpflg
        < length (calibrate table true 10 true 3 0 slots).pflgsall)
calibrate_end_example = calibrate_end table true 10 true 3 0 slots narrow

-- The right key goes over the sort column with its marks, and the left key back.
abbrev first : Offset
first = record { begpflg = 0; varcolbeg = 0; begtask = pos 2; begnext = pos 0 }

abbrev setting : Bool → Setting
setting mode_altscr = record {
  in_view = true;
  idle = true;
  mode_altscr = mode_altscr;
  winlines = 4;
  count = 20;
}

scrolls_back :
    scroll_keys table
      (setting false)
      12
      true
      0
      slots
      (Keys.right ∷ Keys.right ∷ left ∷ left ∷ [])
      first
    ≡ first
unfolding scroll_keys scroll_key column_left column_right calibrate all_flags flags_of fit
scrolls_back = refl

pages :
    scroll_keys table (setting false) 12 true 0 slots (pgdn ∷ home ∷ pgup ∷ []) first
    ≡ record first { begtask = negsuc 0; begnext = pos 1 }
unfolding scroll_keys scroll_key calibrate all_flags flags_of ◌-ℤ◌
pages = refl

scroll_keys-IsView_example :
    IsView
      (all_flags true 3 slots)
      (scroll_keys table (setting true) 10 true 3 slots (Keys.right ∷ end ∷ left ∷ pgdn ∷ []) first)
scroll_keys-IsView_example =
    scroll_keys-IsView table (setting true) 10 true 3 slots (Keys.right ∷ end ∷ left ∷ pgdn ∷ [])
      first narrow refl refl

-- A window with these fields, where the second one is moved to the front.
abbrev fields_window : Window
fields_window = record {
  fieldscur = slots;
  sortindx = 1;
  begpflg = 2;
  varcolbeg = 0;
  show_hicols = true;
  show_forest = false;
}

abbrev moved_up : List Slot
moved_up =
    record { enu = 1; on = true }
    ∷ record { enu = 0; on = false }
    ∷ record { enu = 2; on = false }
    ∷ record { enu = 3; on = true }
    ∷ []

moves_up :
    (fields_utility 4
      (right ∷ up ∷ enter ∷ down ∷ toggle ∷ quit ∷ [])
      (fields_window ∷ [])
      0).windows
    ≡ record fields_window { fieldscur = moved_up; begpflg = 0; show_hicols = false } ∷ []
unfolding fields_utility fields_keys press sort_place place_of swap_slots toggle_slot
moves_up = refl

fields_utility-IsKept_example :
    IsKept 4
      (fields_window ∷ [])
      (fields_utility 4 (right ∷ up ∷ enter ∷ down ∷ toggle ∷ quit ∷ []) (fields_window ∷ []) 0)
fields_utility-IsKept_example =
    fields_utility-IsKept 4 (right ∷ up ∷ enter ∷ down ∷ toggle ∷ quit ∷ []) (fields_window ∷ []) 0
      (omega arith) (refl, tt)

-- Two blocks, and a last line without a newline.
abbrev stream : Stream
stream = record { blocks = (97 ∷ 10 ∷ 98 ∷ []) ∷ (99 ∷ 10 ∷ 10 ∷ 100 ∷ []) ∷ []; failed = false }

rows_found :
    insp_cnt_nl (joined stream.blocks) ≡ record { starts = 0 ∷ 2 ∷ 5 ∷ 6 ∷ 8 ∷ []; count = 4 }
unfolding insp_cnt_nl row_starts
rows_found = refl

insp_do_file-lines_example :
    (r : Rows) × (insp_do_file [] (some stream) ≡ some (joined stream.blocks, r))
    × (rows_of (joined stream.blocks) r ≡ lines (joined stream.blocks))
insp_do_file-lines_example = insp_do_file-lines [] stream refl
