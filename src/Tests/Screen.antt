-- ===== src/Tests/Screen.antt =====
-- A screen with filters, a collapsed task and a selected user.
use yc_360_script.Prelude.{ℕ, ◌≡◌, refl, true, false, List, [], ◌∷◌, none, some, codes}
use yc_360_script.Prelude.Int.{pos}
use yc_360_script.Top.Forest.Rows.{Mark, plain, collapsed, unseen, Focus}
use yc_360_script.Top.Filters.{row_shown, osel_matched, relates, wins_usrselect}
use yc_360_script.Top.Scroll.{window_show, show_rows}
use yc_360_script.Top.Screen.{Shown, View, sight_of, task_shows, pane_of}
use yc_360_script.Top.Frame.{pane_show, pane_rows, scroll_current}

abbrev shown : ℕ → Mark → ℕ → Shown
shown pid mark uid = record {
  row = record {
    task = record { at = 0; pid = pid; ppid = 1; tgid = pid; cpu = 0 };
    level = 0;
    mark = mark;
    added = 0;
  };
  owner = record { real = 7; saved = 7; fsuid = 7; effective = uid };
  fields = (0, some (codes "java ")) ∷ (1, none) ∷ [];
}

-- Tasks of the users 7 and 8 whose command holds "AV", in forest view.
abbrev settings : View
settings = record {
  is_current = true;
  show_forest = true;
  show_idleps = true;
  mode_altscr = false;
  filters = record {
    criteria =
        record {
          typ = pos b'o';
          inc = true;
          enu = 0;
          ops = b'=';
          val = codes "AV";
          raw = codes "COMMAND=AV";
        }
        ∷ [];
    osel_tot = 1;
  };
  user = record { usrseltyp = b'u'; usrseluid = 7; usrselflg = true };
}

abbrev beside : View
beside = record settings { is_current = false }

abbrev some_shown : List Shown
some_shown = shown 1 plain 8 ∷ shown 2 collapsed 7 ∷ shown 3 unseen 7 ∷ shown 4 plain 7 ∷ []

abbrev window : Focus
window = record { focus_pid = 0; focus_beg = 0; focus_end = 0; begtask = pos 0; begnext = pos 0 }

shows_tasks : (window_show (sight_of settings some_shown) 4 20 20 window).1 ≡ 1 ∷ 3 ∷ []
unfolding window_show show_rows sight_of task_shows row_shown osel_matched relates wins_usrselect
shows_tasks = refl

-- In a window that is not the current one, the unseen task is shown too.
other_window :
    (pane_show
      (sight_of settings some_shown)
      4
      (pane_of beside some_shown true 0 window)
      20
      20
      window).1
    ≡ 1 ∷ 2 ∷ 3 ∷ []
unfolding pane_show pane_rows scroll_current show_rows sight_of task_shows row_shown osel_matched
    relates wins_usrselect
other_window = refl
