-- ===== src/Top/Scroll/Shown.antt =====
-- What the loops of a window show, and that a window that scrolls shows something.
use yc_360_script.Prelude.{
  ℕ, zero, suc, ◌+◌, ◌-◌, ◌≤◌, ◌<◌, ◌≡◌, refl, ap, Bool, true, false, List, [], ◌∷◌, ◌==◌,
  if◌then◌else◌, Bool-cases, inl, inr, take, arith,
}
use yc_360_script.Prelude.Int.{pos, eqb_ℤ}
use yc_360_script.Top.Forest.Rows.{Focus}
use yc_360_script.Top.Scroll.{
  top_row, end_row, Sight, sees, passes, show_rows, smaller, window_show,
}
use yc_360_script.Top.Scroll.Nearest.{window_hlp-Settles}

-- The rows of `n` from row `i` on that pass a test.
abbrev pub passing : (ℕ → Bool) → ℕ → ℕ → List ℕ
passing test i zero = []
passing test i (suc n) = if test i then i ∷ passing test (i + 1) n else passing test (i + 1) n

pub show_rows-take :
    (test : ℕ → Bool) (room i n : ℕ) → show_rows test room i n ≡ take room (passing test i n)
unfolding show_rows
show_rows-take test zero i zero = refl
show_rows-take test (suc room) i zero = refl
show_rows-take test zero i (suc n) = refl
show_rows-take test (suc room) i (suc n) = elim (Bool-cases (test i)) [
  | inl h ↦ rw h (ap (◌∷◌ i) (show_rows-take test room (i + 1) n))
  | inr h ↦ rw h (show_rows-take test (suc room) (i + 1) n)
]

-- The end of the tasks of a window.
abbrev pub last_row : ℕ → Focus → ℕ
last_row count q = if q.focus_pid == 0 then count else smaller q.focus_end count

show_rows-first :
    (test : ℕ → Bool) (room i n : ℕ)
    → test i ≡ true
    → 0 < room
    → 0 < n
    → (rest : List ℕ) × (show_rows test room i n ≡ i ∷ rest)
unfolding show_rows
show_rows-first test zero i n h r l = ground arith
show_rows-first test (suc room) i zero h r l = ground arith
show_rows-first test (suc room) i (suc n) h r l = (show_rows test room (i + 1) n, rw h refl)

-- Where idle tasks are shown too, no task that belongs to the window of its user is kept back.
passes-sees : (s : Sight) (i : ℕ) → s.idle_too ≡ true → sees s i ≡ true → passes s i ≡ true
passes-sees s i h e = ground arith

-- A window that was asked to scroll shows something if it can: where idle tasks are shown too, a
-- visible task lies in the window, and there is room for a line, the rows on the screen begin with the
-- new `begtask`, which is a visible task.
pub window_show-begins :
    (s : Sight) (count winlines wmax : ℕ) (q : Focus) (i : ℕ)
    → s.idle_too ≡ true
    → eqb_ℤ q.begnext (pos 0) ≡ false
    → 1 < wmax
    → 0 < winlines
    → end_row count q ≤ count
    → top_row q ≤ i
    → i < end_row count q
    → sees s i ≡ true
    → (k : ℕ) × (rest : List ℕ) × (sees s k ≡ true)
      × (window_show s count winlines wmax q
          ≡ (record q { begtask = pos k; begnext = pos 0 }, k ∷ rest))
unfolding window_show
window_show-begins s count winlines wmax q i idle asked lines wins whole lo hi seen =
    let (k, moved, settles) = window_hlp-Settles (sees s) count q (omega arith) in
    let (le, lt, up, down, stop) = settles in
    let visible : sees s k ≡ true = elim stop [
      | inl yes' ↦ yes'
      | inr nothing ↦ let unseen = nothing.0 i lo hi in absurd (ground (arith, seen, unseen))
    ] in
    let some_tasks : (count == 0) ≡ false = ground arith in
    let behind : k < last_row count q = ground (arith, lt, whole) in
    let (rest, rows) =
      show_rows-first (passes s) (smaller wmax (winlines + 1) - 1) k (last_row count q - k)
        (passes-sees s k idle visible) (ground arith) (omega (arith, behind)) in
    (
      k,
      rest,
      visible,
      rw (some_tasks, asked, moved)
          (ap (λ r. (record q { begtask = pos k; begnext = pos 0 }, r)) rows),
    )
