-- ===== src/Tests/Scroll.antt =====
-- Scrolling in a window of six tasks.
use yc_360_script.Prelude.{arith, ℕ, ◌≡◌, refl, true, false, ◌==◌, ◌||◌, List, [], ◌∷◌}
use yc_360_script.Prelude.Int.{pos, negsuc, ◌+ℤ◌}
use yc_360_script.Top.Forest.Rows.{Focus}
use yc_360_script.Top.Scroll.{
  top_row, end_row, forward, backward, reached, scan, scan_start, window_hlp, Sight, sees,
  show_rows, window_show,
}
use yc_360_script.Top.Scroll.Nearest.{Settles, clamp, window_hlp-Settles}
use yc_360_script.Top.Scroll.Shown.{window_show-begins}

-- Rows 2 and 4 of six are visible, and the window is asked to move one row up from row 4.
abbrev sight : Sight
sight = record {
  shows = λ i. i == 2 || i == 4;
  selects = λ i. true;
  busy = λ i. false;
  idle_too = true;
  by_user = false;
}

abbrev window : Focus
window = record { focus_pid = 0; focus_beg = 0; focus_end = 0; begtask = pos 4; begnext = negsuc 0 }

scrolls :
    window_show sight 6 10 3 window
    ≡ (record window { begtask = pos 2; begnext = pos 0 }, 2 ∷ 4 ∷ [])
unfolding window_show window_hlp scan_start scan reached backward forward show_rows ◌+ℤ◌
scrolls = refl

window_hlp-Settles_example :
    (k : ℕ) × (window_hlp (sees sight) 6 window
      ≡ record window { begtask = pos k; begnext = pos 0 })
    × Settles
        (sees sight)
        (top_row window)
        (end_row 6 window)
        (clamp (top_row window) (end_row 6 window) (window.begtask +ℤ window.begnext))
        k
window_hlp-Settles_example = window_hlp-Settles (sees sight) 6 window (omega arith)

window_show-begins_example :
    (k : ℕ) × (rest : List ℕ) × (sees sight k ≡ true)
    × (window_show sight 6 10 3 window
        ≡ (record window { begtask = pos k; begnext = pos 0 }, k ∷ rest))
window_show-begins_example =
    window_show-begins sight 6 10 3 window 4 refl refl (omega arith) (omega arith) (omega arith)
      (omega arith) (omega arith) refl
