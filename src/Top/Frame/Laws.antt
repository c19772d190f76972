-- ===== src/Top/Frame/Laws.antt =====
-- The windows of a frame fit the screen, and each gets its share.
use yc_360_script.Prelude.{
  ℕ, zero, suc, ◌+◌, ◌-◌, ◌/◌, ◌≤◌, ◌≡◌, refl, ap, Bool, true, List, [], ◌∷◌, leb, ◌==◌,
  if◌then◌else◌, Bool-cases, inl, inr, length, arith,
}
use native.Mathlib.Nat.{div-le_self}
use yc_360_script.Prelude.Int.{pos_part}
use yc_360_script.Top.Forest.Rows.{Focus}
use yc_360_script.Top.Scroll.{Sight, passes, smaller, show_rows, window_show}
use yc_360_script.Top.Frame.{
  Pane, visible, frame_hlp, pane_rows, scroll_current, pane_show, show_panes, max_lines_of,
  frame_make,
}

show_rows-le : (test : ℕ → Bool) (room i n : ℕ) → length (show_rows test room i n) ≤ room
unfolding show_rows
show_rows-le test zero i zero = omega arith
show_rows-le test (suc room) i zero = omega arith
show_rows-le test zero i (suc n) = omega arith
show_rows-le test (suc room) i (suc n) =
    ground (arith, show_rows-le test room (i + 1) n, show_rows-le test (suc room) (i + 1) n)

pane_rows-le :
    (s : Sight) (count winlines wmax : ℕ) (q : Focus)
    → (length (pane_rows s count winlines wmax q) ≤ wmax - 1)
      × (length (pane_rows s count winlines wmax q) ≤ winlines)
unfolding pane_rows
pane_rows-le s count winlines wmax q =
    let i = pos_part q.begtask in
    let numtasks = if q.focus_pid == 0 then count else smaller q.focus_end count in
    let few = show_rows-le (passes s) (smaller wmax (winlines + 1) - 1) i (numtasks - i) in
    (ground (arith, few), ground (arith, few))

-- A window prints its column heading and fills neither its own lines nor the room with tasks.
pane_show-le :
    (here : Sight) (count : ℕ) (p : Pane) (winlines wmax : ℕ) (cur : Focus)
    → (length (pane_show here count p winlines wmax cur).1 ≤ wmax - 1)
      × (length (pane_show here count p winlines wmax cur).1 ≤ winlines)
unfolding pane_show
pane_show-le here count p winlines wmax cur = elim (Bool-cases (count == 0)) [
  | inl none' ↦ rw none' (omega arith, omega arith)
  | inr some' ↦
      let q = if p.is_current then scroll_current here count cur else p.focus in
      rw some' (pane_rows-le p.sight count winlines wmax q)
]

-- For the current window this is the `window_show` of its own.
pub pane_show-window_show :
    (count : ℕ) (p : Pane) (winlines wmax : ℕ)
    → p.is_current ≡ true
    → pane_show p.sight count p winlines wmax p.focus
      ≡ window_show p.sight count winlines wmax p.focus
unfolding pane_show window_show pane_rows scroll_current
pane_show-window_show count p winlines wmax h = rw h refl

frame_hlp-le : (ps : List Pane) (max : ℕ) → visible ps ≤ max → frame_hlp ps 0 max + visible ps ≤ max
unfolding frame_hlp
frame_hlp-le ps max h =
    let wins = if visible ps == 0 then 1 else visible ps in
    let share : (max - wins) / wins ≤ max - wins = div-le_self (max - wins) wins in
    ground (arith, share)

-- The windows take no share of their own.
abbrev pub AllAuto : List Pane → Type 0
AllAuto [] = Unit
AllAuto (p ∷ ps) = (p.maxtasks ≡ 0) × AllAuto ps

show_panes-visible :
    (here : Sight) (count max_lines : ℕ) (ps : List Pane) (scrlins : ℕ) (cur : Focus)
    → AllAuto ps
    → visible ps ≤ max_lines - scrlins
    → length (show_panes here count max_lines ps scrlins cur).windows ≡ visible ps
unfolding show_panes
show_panes-visible here count max_lines [] scrlins cur a h = refl
show_panes-visible here count max_lines (p ∷ ps) scrlins cur (auto, a) h =
    let room = max_lines - scrlins in
    let share = frame_hlp-le (p ∷ ps) room h in
    let winlines = frame_hlp (p ∷ ps) p.maxtasks room in
    let same : winlines ≡ frame_hlp (p ∷ ps) 0 room = ap (λ n. frame_hlp (p ∷ ps) n room) auto in
    let shown = pane_show here count p winlines room cur in
    let few = pane_show-le here count p winlines room cur in
    let lines = scrlins + 1 + length shown.1 in
    elim (Bool-cases p.taskon) [
      | inl on ↦
          let both : visible (p ∷ ps) ≡ suc (visible ps) = simp on refl in
          elim (Bool-cases (leb max_lines lines)) [
            | inl full ↦
                let last : visible ps ≡ 0 = ground (arith, full, few, same, share, both) in
                simp (show_panes, on, full, last) refl
            | inr more ↦
                simp (show_panes, on, more)
                  (ap suc (
                    show_panes-visible here count max_lines ps lines shown.0 a
                      (omega (arith, few, same, share, both))))
          ]
      | inr off ↦
          let others : visible (p ∷ ps) ≡ visible ps = simp off refl in
          elim (Bool-cases (leb max_lines scrlins)) [
            | inl full ↦
                let none' : visible ps ≡ 0 = ground (arith, full, others) in
                simp (show_panes, off, full, none') refl
            | inr more ↦
                simp (show_panes, off, more)
                  (show_panes-visible here count max_lines ps scrlins cur a (omega (arith, others)))
          ]
    ]

-- The windows share the screen: in the alternate display, where no window has a number of tasks set and
-- the summary leaves a line for each visible window, every visible window is shown with its heading,
-- whatever the windows before it show.
pub frame_make-visible :
    (screen_rows msg_row count : ℕ) (only : Pane) (panes : List Pane)
    → AllAuto panes
    → visible panes ≤ max_lines_of screen_rows msg_row
    → length (frame_make true screen_rows msg_row count only panes).windows ≡ visible panes
unfolding frame_make
frame_make-visible screen_rows msg_row count only panes a h =
    show_panes-visible only.sight count (max_lines_of screen_rows msg_row) panes 0 only.focus a
      (omega arith)
