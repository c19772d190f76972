-- ===== src/Tests/Top.antt =====
-- The forest view, the columns and the line editor of top.
use yc_360_script.Prelude.{
  arith, ℕ, ◌≤◌, ◌≡◌, ◌+◌, refl, true, false, List, [], ◌∷◌, some, codes, Bytes, length, map,
  bytes_eq,
}
use yc_360_script.Top.Forest.{Task, is_child, forest_adds, level_of, plant, forest}
use yc_360_script.Top.Forest.Parents.{Once}
use yc_360_script.Top.Forest.Guard.{forest_complete}
use yc_360_script.Top.Forest.Sums.{over_tasks, over_entries}
use yc_360_script.Top.Forest.Rows.{Row, plain, rows_of, hide_pid, find_focus}
use yc_360_script.Top.Forest.Rows.Laws.{hidden, collapsed_row, hide_pid-find_focus}
use yc_360_script.Top.Text.{
  scaled_target, justify_pad, make_str, clip, mark_cut, centiseconds, time_text, first_fit,
  scale_tics,
}
use yc_360_script.Top.Text.Laws.{padded, Shows, scale_tics-Shows}
use yc_360_script.Top.Line.{Key, char, left, enter, accepted, edit, extract, remember}
use yc_360_script.Top.Line.Edit.{Editor, session, line_of}
use yc_360_script.Top.Line.Edit.Refine.{edit-session}

-- Process 1 with the child 5, which has the thread 6 and the child 8, and process 7 beside them.
abbrev task : ℕ → ℕ → ℕ → ℕ → Task
task at pid ppid tgid = record { at = at; pid = pid; ppid = ppid; tgid = tgid; cpu = pid }

abbrev some_tasks : List Task
some_tasks = task 0 1 0 1 ∷ task 1 5 1 5 ∷ task 2 6 1 5 ∷ task 3 7 0 7 ∷ task 4 8 5 8 ∷ []

abbrev pids : List Row → List ℕ
pids rows = map (λ (r : Row). r.task.pid) rows

abbrev levels : List Row → List ℕ
levels rows = map (λ (r : Row). r.level) rows

shows_forest :
    (pids (rows_of (forest some_tasks) []) ≡ 1 ∷ 5 ∷ 6 ∷ 8 ∷ 7 ∷ [])
    × (levels (rows_of (forest some_tasks) []) ≡ 0 ∷ 1 ∷ 2 ∷ 2 ∷ 0 ∷ [])
unfolding forest plant forest_adds is_child level_of rows_of
shows_forest = (refl, refl)

forest_complete_example :
    Once some_tasks (forest some_tasks)
    × (over_entries (λ t. t.cpu) (forest some_tasks) ≡ over_tasks (λ t. t.cpu) some_tasks)
forest_complete_example =
    forest_complete some_tasks (λ t. t.cpu) (refl, (refl, (refl, (refl, (refl, tt)))))
      (
        (omega arith, (omega arith, (omega arith, (omega arith, tt)))),
        (
          (omega arith, (omega arith, (omega arith, tt))),
          ((omega arith, (omega arith, tt)), ((omega arith, tt), (tt, tt))),
        ),
      )

abbrev row : ℕ → ℕ → Row
row pid level = record { task = task 0 pid 0 pid; level = level; mark = plain; added = 0 }

hide_pid-find_focus_example :
    (hide_pid 5 (row 1 0 ∷ row 5 1 ∷ row 6 2 ∷ row 8 2 ∷ row 7 0 ∷ [])
      ≡ some (
          row 1 0
          ∷ collapsed_row (row 5 1) (row 6 2 ∷ row 8 2 ∷ [])
          ∷ hidden (row 6 2)
          ∷ hidden (row 8 2)
          ∷ row 7 0
          ∷ []))
    × (find_focus 5 0 (row 1 0 ∷ row 5 1 ∷ row 6 2 ∷ row 8 2 ∷ row 7 0 ∷ []) ≡ some (1, 4))
hide_pid-find_focus_example =
    hide_pid-find_focus 5 (row 1 0 ∷ []) (row 5 1) (row 6 2 ∷ row 8 2 ∷ []) (row 7 0 ∷ [])
      (omega arith, tt) refl (omega arith) (omega arith, (omega arith, tt)) (omega arith)

-- A number that does not fit ends in a plus sign, and 370 minutes are shown as 6,10.
marks_cut : make_str (codes "command") 5 false ≡ codes "comm+ "
unfolding make_str clip mark_cut justify_pad
marks_cut = refl

shows_hours : scale_tics false 0 100 2220000 9 true 0 ≡ codes "     6,10 "
unfolding scale_tics time_text first_fit centiseconds justify_pad
    yc_360_script.CString.Numbers.decimal
shows_hours = refl

scale_tics-Shows_example :
    (text : Bytes) × Shows false (scaled_target 0 0) (centiseconds 100 2220000) 9 text
    × (length text ≤ 9)
    × (scale_tics false 0 100 2220000 9 true 0 ≡ padded text 9 true)
    × (length (scale_tics false 0 100 2220000 9 true 0) ≡ 9 + 1)
scale_tics-Shows_example = scale_tics-Shows false 0 100 2220000 9 true 0 (omega arith) (omega arith)

-- `ac`, then `b` before the `c`, in a window of 80 columns behind a prompt of 10.
abbrev fresh : Editor
fresh = record { text = []; cursor = 0; replacing = false; place = 0 }

abbrev some_keys : List Key
some_keys = char b'a' ∷ char b'c' ∷ left ∷ char b'b' ∷ enter ∷ []

abbrev saved_lines : List Bytes
saved_lines = [] ∷ codes "x" ∷ codes "y" ∷ []

edits : session 80 10 saved_lines some_keys fresh ≡ accepted (codes "abc")
edits = refl

edit-session_example :
    edit 80 10 saved_lines some_keys (line_of fresh) ≡ session 80 10 saved_lines some_keys fresh
edit-session_example =
    edit-session some_keys 80 10 saved_lines fresh
      (omega arith, tt, (omega arith, (omega arith, tt), (omega arith, (omega arith, tt), tt)))
      (record { inside = omega arith; short = omega arith; solid = tt })

-- The line "y" is used again.
remembers : remember bytes_eq (codes "y") saved_lines ≡ [] ∷ codes "y" ∷ codes "x" ∷ []
unfolding remember extract
remembers = refl
