-- ===== src/Top/Forest/Rows.antt =====
-- The forest view in display order: collapsed children, the focus of a window, and the artwork.
pub mod Laws
use yc_360_script.Prelude.{
  ℕ, zero, suc, ◌+◌, ◌-◌, ◌*◌, ◌%◌, ◌^◌, Bool, true, false, not, ◌&&◌, ◌||◌, List, [], ◌∷◌, ◌++◌,
  Option, none, some, ltb, leb, ◌==◌, if◌then◌else◌, Bytes, codes, map, length, take,
}
use mathlib.Core.Option
use yc_360_script.Prelude.Int.{ℤ, pos, negsuc, sub_ℕ, ltb_ℤ}
use yc_360_script.Top.Text.{pad_left}
use yc_360_script.Top.Forest.{Task, Entry}

-- `eu_TREE_HID`: nothing, 'x' or 'z'.
pub data Mark : Type 0 where
  plain collapsed unseen : Mark

-- An element of `Tree_ppt` with its three extra results.
pub record Row : Type 0 where
  pub task : Task
  pub level : ℕ
  pub mark : Mark
  pub added : ℕ

-- A finished tree, in display order.
unfoldable pub rows_of : List Entry → List Row → List Row
rows_of [] rows = rows
rows_of (e ∷ tree) rows =
    rows_of tree (record { task = e.task; level = e.level; mark = plain; added = 0 } ∷ rows)

-- The `while` loop: the run of deeper rows is marked unseen.
unfoldable pub hide_run : ℕ → List Row → List Row
hide_run level [] = []
hide_run level (r ∷ rs) =
    if ltb level r.level then record r { mark = unseen } ∷ hide_run level rs else r ∷ rs

-- The ticks that the parent collects, an unsigned int.
unfoldable pub run_ticks : ℕ → List Row → ℕ → ℕ
run_ticks level [] sum = sum
run_ticks level (r ∷ rs) sum =
    if ltb level r.level then run_ticks level rs ((sum + r.task.cpu) % 2 ^ 32) else sum

abbrev pub has_run : ℕ → List Row → Bool
has_run level [] = false
has_run level (r ∷ rs) = ltb level r.level

unfoldable pub collapse : Row → List Row → List Row
collapse p rs =
    record p {
      mark = if has_run p.level rs then collapsed else p.mark;
      added = run_ticks p.level rs p.added;
    }
    ∷ hide_run p.level rs

-- The loop for one positive `Hide_pid[i]`; `none` if there is no such task.
unfoldable pub hide_pid : ℕ → List Row → Option (List Row)
hide_pid pid [] = none
hide_pid pid (r ∷ rs) =
    if r.task.pid == pid then some (collapse r rs) else Option.map (◌∷◌ r) (hide_pid pid rs)

-- `Hide_pid[i] = -Hide_pid[i]` for a task that disappeared.
abbrev pub hide_found : ℕ → List Row → Option (List Row) → ℤ × List Row
hide_found pid rows none = (sub_ℕ 0 pid, rows)
hide_found pid rows (some rows') = (pos pid, rows')

abbrev pub hide_one : ℤ → List Row → ℤ × List Row
hide_one (negsuc n) rows = (negsuc n, rows)
hide_one (pos zero) rows = (pos zero, rows)
hide_one (pos (suc n)) rows = hide_found (suc n) rows (hide_pid (suc n) rows)

unfoldable pub hide_all : List ℤ → List Row → List ℤ × List Row
hide_all [] rows = ([], rows)
hide_all (h ∷ hs) rows =
    let (h', rows') = hide_one h rows in let (hs', rows'') = hide_all hs rows' in (h' ∷ hs', rows'')

-- The fields of a window that the focus and the scrolling concern.
pub record Focus : Type 0 where
  pub focus_pid : ℕ
  pub focus_beg : ℕ
  pub focus_end : ℕ
  pub begtask : ℤ
  pub begnext : ℤ

abbrev pub run_length : ℕ → List Row → ℕ
run_length level [] = 0
run_length level (r ∷ rs) = if ltb level r.level then suc (run_length level rs) else 0

-- `focus_beg` and `focus_end`, if the task is there; `i` is the index of the first row.
unfoldable pub find_focus : ℕ → ℕ → List Row → Option (ℕ × ℕ)
find_focus pid i [] = none
find_focus pid i (r ∷ rs) =
    if pid == r.task.pid then some (i, i + run_length r.level rs + 1) else find_focus pid (i + 1) rs

abbrev pub set_focus : Focus → Option (ℕ × ℕ) → Focus
set_focus q none = record q { focus_pid = 0; begtask = pos 0 }
set_focus q (some (beg, end)) =
    if ltb_ℤ q.begtask (pos beg)
    then record q { focus_beg = beg; focus_end = end; begtask = pos beg; begnext = pos 0 }
    else record q { focus_beg = beg; focus_end = end }

unfoldable pub forest_config : Focus → List Row → Focus
forest_config q rows = set_focus q (find_focus q.focus_pid 0 rows)

abbrev pub is_collapsed : Mark → Bool
is_collapsed collapsed = true
is_collapsed _ = false

-- `forest_display`: `which` is the command. The buffer of 128 KiB is not modelled.
unfoldable pub forest_display : Bool → Bool → Bool → Row → Bytes → Bytes
forest_display is_forest is_current has_focus r which =
    if not is_forest || r.level == 0
    then which
    else if is_current && is_collapsed r.mark
    then b'+' ∷ pad_left (4 * r.level - 1) (codes "`- ") ++ which
    else if ltb 100 r.level
    then pad_left 400 (codes " +  ") ++ which
    else if has_focus
    then b'|' ∷ pad_left (4 * r.level - 1) (codes "`- ") ++ which
    else pad_left (4 * r.level) (codes " `- ") ++ which
