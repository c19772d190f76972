-- ===== src/Top/Scroll.antt =====
-- `window_hlp` and `window_show`: which tasks of the current window are on the screen. Rows are
-- indices into the array of tasks.
pub mod Scans
pub mod Nearest
pub mod Shown
use yc_360_script.Prelude.{
  ℕ, zero, suc, ◌+◌, ◌-◌, Bool, true, false, not, ◌&&◌, ◌||◌, List, [], ◌∷◌, Option, none, some,
  ltb, leb, ◌==◌, if◌then◌else◌,
}
use yc_360_script.Prelude.Int.{ℤ, pos, negsuc, pos_part, ◌+ℤ◌, ltb_ℤ, eqb_ℤ}
use yc_360_script.Top.Forest.Rows.{Focus}

abbrev pub top_row : Focus → ℕ
top_row q = if q.focus_pid == 0 then 0 else q.focus_beg

abbrev pub end_row : ℕ → Focus → ℕ
end_row count q = if q.focus_pid == 0 then count else q.focus_end

-- The forward scan over `n` rows.
unfoldable pub forward : (ℕ → Bool) → ℕ → ℕ → Option ℕ
forward sees i zero = none
forward sees i (suc n) = if sees i then some i else forward sees (i + 1) n

-- The backward scan from row `beg + n`; it stops at `beg` in any case.
unfoldable pub backward : (ℕ → Bool) → ℕ → ℕ → ℕ
backward sees beg zero = beg
backward sees beg (suc n) = if sees (beg + suc n) then beg + suc n else backward sees beg n

-- From `fwd_redux` on, with `reversed` set.
unfoldable pub redux : (ℕ → Bool) → ℕ → ℕ → ℕ → ℕ
redux sees beg end i = elim (forward sees i (end - i)) [
  | some k ↦ k
  | none ↦ backward sees beg (end - 1 - beg)
]

-- "reached the top, but maybe this guy ain't visible"
unfoldable pub reached : (ℕ → Bool) → ℕ → ℕ → ℕ → ℕ
reached sees beg end i = if i == beg && not (sees beg) then redux sees beg end i else i

-- The row that the scans find from row `i` on.
unfoldable pub scan : (ℕ → Bool) → ℕ → ℕ → Bool → ℕ → ℕ
scan sees beg end false i = reached sees beg end (backward sees beg (i - beg))
scan sees beg end true i = elim (forward sees i (end - i)) [
  | some k ↦ k
  | none ↦ reached sees beg end (backward sees beg (end - 1 - beg))
]

-- Where the scans start, and whether the first one goes forward.
unfoldable pub scan_start : ℕ → ℕ → ℤ → ℤ → Bool × ℕ
scan_start beg end begtask begnext =
    let next = begtask +ℤ begnext in
    if not (ltb_ℤ (pos beg) next)
    then (true, beg)
    else (ltb_ℤ (pos 0) begnext, (if leb end (pos_part next) then end - 1 else pos_part next))

-- `sees` is `wins_usrselect(w, i) && *task_show(w, i)`, `count` is PIDSmaxt.
unfoldable pub window_hlp : (ℕ → Bool) → ℕ → Focus → Focus
window_hlp sees count q =
    let beg = top_row q in
    let end = end_row count q in
    let (ahead, i) = scan_start beg end q.begtask q.begnext in
    record q { begtask = pos (scan sees beg end ahead i); begnext = pos 0 }

-- What a window shows of each task: `*task_show(q, i)`, `wins_usrselect(q, i)` and `isBUSY`, and
-- whether it shows idle tasks and selects users.
pub record Sight : Type 0 where
  pub shows : ℕ → Bool
  pub selects : ℕ → Bool
  pub busy : ℕ → Bool
  pub idle_too : Bool
  pub by_user : Bool

abbrev pub sees : Sight → ℕ → Bool
sees s i = s.selects i && s.shows i

-- The tests of the two loops.
abbrev pub passes : Sight → ℕ → Bool
passes s i =
    if s.idle_too && not s.by_user
    then s.shows i
    else (s.idle_too || s.busy i) && (s.selects i && s.shows i)

-- The loops, over `n` rows from `i` on, while there is room for lines.
unfoldable pub show_rows : (ℕ → Bool) → ℕ → ℕ → ℕ → List ℕ
show_rows test room i zero = []
show_rows test zero i (suc n) = []
show_rows test (suc room) i (suc n) =
    if test i then i ∷ show_rows test room (i + 1) n else show_rows test (suc room) (i + 1) n

abbrev pub smaller : ℕ → ℕ → ℕ
smaller a b = if ltb a b then a else b

-- `window_show` for the current window, after the sort and the forest view: the window and the rows
-- that it prints below the column heading. Its result is one more than their number. A begtask below 0
-- only stands with a begnext.
unfoldable pub window_show : Sight → ℕ → ℕ → ℕ → Focus → Focus × List ℕ
window_show s count winlines wmax q =
    if count == 0
    then (q, [])
    else (let q' = if eqb_ℤ q.begnext (pos 0) then q else window_hlp (sees s) count q in
        let i = pos_part q'.begtask in
        let numtasks = if q'.focus_pid == 0 then count else smaller q'.focus_end count in
        (q', show_rows (passes s) (smaller wmax (winlines + 1) - 1) i (numtasks - i)))
