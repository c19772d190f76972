-- ===== src/Top/Frame.antt =====
-- `frame_make` and `frame_hlp`: how the lines below the summary are shared among the windows.
pub mod Laws
use yc_360_script.Prelude.{
  ℕ, zero, suc, ◌+◌, ◌-◌, ◌/◌, Bool, true, false, List, [], ◌∷◌, ltb, leb, ◌==◌, if◌then◌else◌,
  length,
}
use yc_360_script.Prelude.Int.{pos, pos_part, eqb_ℤ}
use yc_360_script.Top.Forest.Rows.{Focus}
use yc_360_script.Top.Scroll.{Sight, sees, passes, smaller, show_rows, window_hlp}

-- What a window brings to the frame; its `focus` counts if it is not the current window.
pub record Pane : Type 0 where
  pub is_current : Bool
  pub taskon : Bool
  pub maxtasks : ℕ
  pub sight : Sight
  pub focus : Focus

-- `wins`: the visible windows of a rest of `Winstk`.
abbrev pub visible : List Pane → ℕ
visible [] = 0
visible (p ∷ ps) = if p.taskon then suc (visible ps) else visible ps

-- `frame_hlp` for the first window of the rest: its `winlines`. The size is -1 where `max` is 0; this
-- makes no difference to `window_show`, which shows no task then.
unfoldable pub frame_hlp : List Pane → ℕ → ℕ → ℕ
frame_hlp ps maxtasks max =
    let wins = if visible ps == 0 then 1 else visible ps in
    let size = (max - wins) / wins in if maxtasks == 0 then size else maxtasks

-- The loops of `window_show` in the window `q`.
unfoldable pub pane_rows : Sight → ℕ → ℕ → ℕ → Focus → List ℕ
pane_rows s count winlines wmax q =
    let i = pos_part q.begtask in
    let numtasks = if q.focus_pid == 0 then count else smaller q.focus_end count in
    show_rows (passes s) (smaller wmax (winlines + 1) - 1) i (numtasks - i)

-- `if (mkVIZyes) window_hlp();`
unfoldable pub scroll_current : Sight → ℕ → Focus → Focus
scroll_current here count cur =
    if eqb_ℤ cur.begnext (pos 0) then cur else window_hlp (sees here) count cur

-- `window_show` for any window: a request to scroll is always that of the current window, which is
-- `cur` with `here` as its sight. The result has the current window and the rows of tasks.
unfoldable pub pane_show : Sight → ℕ → Pane → ℕ → ℕ → Focus → Focus × List ℕ
pane_show here count p winlines wmax cur =
    if count == 0
    then (cur, [])
    else (let cur' = scroll_current here count cur in
        (cur', pane_rows p.sight count winlines wmax (if p.is_current then cur' else p.focus)))

-- What a frame has on the screen: the rows of tasks of each window that is shown, the current window,
-- and the number of lines that its windows take.
pub record Frame : Type 0 where
  pub windows : List (List ℕ)
  pub current : Focus
  pub scrlins : ℕ

abbrev pub with_window : List ℕ → Frame → Frame
with_window rows f = record f { windows = rows ∷ f.windows }

-- The loop over the windows of the alternate display, from one of them on; the test at its end is made
-- for invisible windows too.
unfoldable pub show_panes : Sight → ℕ → ℕ → List Pane → ℕ → Focus → Frame
show_panes here count max_lines [] scrlins cur = record {
  windows = [];
  current = cur;
  scrlins = scrlins;
}
show_panes here count max_lines (p ∷ ps) scrlins cur =
    let room = max_lines - scrlins in
    let shown = pane_show here count p (frame_hlp (p ∷ ps) p.maxtasks room) room cur in
    let lines = scrlins + 1 + length shown.1 in
    elim p.taskon [
      | true ↦ elim (leb max_lines lines) [
        | true ↦ record { windows = shown.1 ∷ []; current = shown.0; scrlins = lines }
        | false ↦ with_window shown.1 (show_panes here count max_lines ps lines shown.0)
      ]
      | false ↦ elim (leb max_lines scrlins) [
        | true ↦ record { windows = []; current = cur; scrlins = scrlins }
        | false ↦ show_panes here count max_lines ps scrlins cur
      ]
    ]

-- `Max_lines` below a summary of `msg_row` lines.
abbrev pub max_lines_of : ℕ → ℕ → ℕ
max_lines_of screen_rows msg_row = screen_rows - msg_row - 1

-- `frame_make` below the summary. `only` is the current window, among `panes`.
unfoldable pub frame_make : Bool → ℕ → ℕ → ℕ → Pane → List Pane → Frame
frame_make mode_altscr screen_rows msg_row count only panes =
    let max_lines = max_lines_of screen_rows msg_row in
    let winlines = if only.maxtasks == 0 then max_lines else only.maxtasks in
    let shown = pane_show only.sight count only winlines max_lines only.focus in
    if mode_altscr
    then show_panes only.sight count max_lines panes 0 only.focus
    else record { windows = shown.1 ∷ []; current = shown.0; scrlins = 1 + length shown.1 }
