-- ===== src/Top/Forest/Rows/Laws.antt =====
-- Which rows the collapse of a task and the focus on a task select.
use yc_360_script.Prelude.{
  ℕ, ◌+◌, ◌%◌, ◌^◌, ◌≤◌, ◌<◌, ◌≡◌, ◌≢◌, refl, ◌∙◌, ap, true, List, [], ◌∷◌, ◌++◌, some, ltb, map,
  length, arith,
}
use yc_360_script.Top.Forest.Rows.{
  collapsed, unseen, Row, hide_run, run_ticks, collapse, hide_pid, run_length, find_focus,
}

abbrev pub Absent : ℕ → List Row → Type 0
Absent pid [] = Unit
Absent pid (r ∷ rs) = (r.task.pid ≢ pid) × Absent pid rs

-- The rows lie deeper than the level.
abbrev pub Deeper : ℕ → List Row → Type 0
Deeper level [] = Unit
Deeper level (r ∷ rs) = (level < r.level) × Deeper level rs

-- The list does not begin with a deeper row.
abbrev pub Ends : ℕ → List Row → Type 0
Ends level [] = Unit
Ends level (r ∷ rs) = r.level ≤ level

abbrev pub hidden : Row → Row
hidden r = record r { mark = unseen }

abbrev pub ticks : List Row → ℕ
ticks [] = 0
ticks (r ∷ rs) = r.task.cpu + ticks rs

hide_run-run :
    (level : ℕ) (run rest : List Row)
    → Deeper level run
    → Ends level rest
    → hide_run level (run ++ rest) ≡ map hidden run ++ rest
unfolding hide_run
hide_run-run level [] [] d e = refl
hide_run-run level [] (r ∷ rest) d e = ground arith
hide_run-run level (r ∷ run) rest d e = ground (arith, hide_run-run level run rest d.1 e)

run_ticks-run :
    (level sum : ℕ) (run rest : List Row)
    → Deeper level run
    → Ends level rest
    → run_ticks level (run ++ rest) sum % 2 ^ 32 ≡ (sum + ticks run) % 2 ^ 32
unfolding run_ticks
run_ticks-run level sum [] [] d e = omega arith
run_ticks-run level sum [] (r ∷ rest) d e = ground arith
run_ticks-run level sum (r ∷ run) rest d e =
    ground (arith, run_ticks-run level ((sum + r.task.cpu) % 2 ^ 32) run rest d.1 e)

run_ticks-lt : (level sum : ℕ) (rs : List Row) → sum < 2 ^ 32 → run_ticks level rs sum < 2 ^ 32
unfolding run_ticks
run_ticks-lt level sum [] h = h
run_ticks-lt level sum (r ∷ rs) h =
    ground (arith, run_ticks-lt level ((sum + r.task.cpu) % 2 ^ 32) rs (omega arith))

run_length-run :
    (level : ℕ) (run rest : List Row)
    → Deeper level run
    → Ends level rest
    → run_length level (run ++ rest) ≡ length run
run_length-run level [] [] d e = refl
run_length-run level [] (r ∷ rest) d e = ground arith
run_length-run level (r ∷ run) rest d e = ground (arith, run_length-run level run rest d.1 e)

-- A row and the run below it after a collapse.
abbrev pub collapsed_row : Row → List Row → Row
collapsed_row p [] = p
collapsed_row p (r ∷ run) = record p {
  mark = collapsed;
  added = (p.added + ticks (r ∷ run)) % 2 ^ 32;
}

collapse-run :
    (p : Row) (run rest : List Row)
    → p.added < 2 ^ 32
    → Deeper p.level run
    → Ends p.level rest
    → collapse p (run ++ rest) ≡ collapsed_row p run ∷ (map hidden run ++ rest)
unfolding collapse hide_run run_ticks
collapse-run p [] [] h d e = refl
collapse-run p [] (r ∷ rest) h d e = ground arith
collapse-run p (r ∷ run) rest h d e =
    let deeper : ltb p.level r.level ≡ true = ground (arith, d.0) in
    let sum : run_ticks p.level (run ++ rest) ((p.added + r.task.cpu) % 2 ^ 32)
        ≡ (p.added + ticks (r ∷ run)) % 2 ^ 32 =
      omega (
        arith,
        run_ticks-run p.level ((p.added + r.task.cpu) % 2 ^ 32) run rest d.1 e,
        run_ticks-lt p.level ((p.added + r.task.cpu) % 2 ^ 32) (run ++ rest) (omega arith),
      ) in
    rw (deeper, sum, hide_run-run p.level run rest d.1 e) refl

hide_pid-front :
    (pid : ℕ) (front : List Row) (p : Row) (rs : List Row)
    → Absent pid front
    → p.task.pid ≡ pid
    → hide_pid pid (front ++ (p ∷ rs)) ≡ some (front ++ collapse p rs)
unfolding hide_pid
hide_pid-front pid [] p rs a e = ground arith
hide_pid-front pid (r ∷ front) p rs a e = ground (arith, hide_pid-front pid front p rs a.1 e)

find_focus-front :
    (pid i : ℕ) (front : List Row) (p : Row) (rs : List Row)
    → Absent pid front
    → p.task.pid ≡ pid
    → find_focus pid i (front ++ (p ∷ rs))
      ≡ some (i + length front, i + length front + run_length p.level rs + 1)
unfolding find_focus
find_focus-front pid i [] p rs a e = ground arith
find_focus-front pid i (r ∷ front) p rs a e =
    ground (arith, find_focus-front pid (i + 1) front p rs a.1 e)

-- Collapsing a task and setting the focus on it concern the same rows: where the first row with its
-- process id is followed by a run of deeper rows, which ends with a row that is not deeper or with the
-- list, the run is marked unseen, the row collects the ticks of the run modulo 2^32 and is marked
-- collapsed if the run is not empty, every other row stays as it is, and the focus spans the row and
-- the run.
pub hide_pid-find_focus :
    (pid : ℕ) (front : List Row) (p : Row) (run rest : List Row)
    → Absent pid front
    → p.task.pid ≡ pid
    → p.added < 2 ^ 32
    → Deeper p.level run
    → Ends p.level rest
    → (hide_pid pid (front ++ (p ∷ (run ++ rest)))
        ≡ some (front ++ (collapsed_row p run ∷ (map hidden run ++ rest))))
      × (find_focus pid 0 (front ++ (p ∷ (run ++ rest)))
          ≡ some (length front, length front + length run + 1))
hide_pid-find_focus pid front p run rest a q h d e = (
  hide_pid-front pid front p (run ++ rest) a q
      ∙ ap (λ rs. some (front ++ rs)) (collapse-run p run rest h d e),
  find_focus-front pid 0 front p (run ++ rest) a q
      ∙ rw (run_length-run p.level run rest d e) (ground arith),
)
