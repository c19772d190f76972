-- ===== src/Top/Screen.antt =====
-- The screen of a window: its tasks in forest view, its filters, and its scrolling together.
pub mod Laws
use yc_360_script.Prelude.{
  ℕ, zero, suc, ◌+◌, ◌-◌, ◌≡◌, refl, Bool, true, false, not, ◌&&◌, ◌||◌, List, [], ◌∷◌, Option,
  none, some, ltb, ◌==◌, if◌then◌else◌, Bytes, Bool-cases, inl, inr, length, arith,
}
use yc_360_script.Prelude.Int.{pos, pos_part, eqb_ℤ}
use yc_360_script.Top.Forest.Rows.{Mark, unseen, Row, Focus}
use yc_360_script.Top.Filters.{Filters, UserFilter, Owner, row_shown, wins_usrselect}
use yc_360_script.Top.Frame.{Pane}
use yc_360_script.Top.Scroll.{Sight, passes, show_rows, window_hlp, sees, smaller, window_show}

-- The tasks in display order with what is known of each: the row of the forest view, the owner, and
-- the fields of the window with their texts, none for one that shows nothing.
pub record Shown : Type 0 where
  pub row : Row
  pub owner : Owner
  pub fields : List (ℕ × Option Bytes)

abbrev pub is_unseen : Mark → Bool
is_unseen unseen = true
is_unseen _ = false

-- Something was put into `rbuf`.
abbrev pub has_text : List (ℕ × Option Bytes) → Bool
has_text [] = false
has_text ((i, none) ∷ fields) = has_text fields
has_text ((i, some []) ∷ fields) = has_text fields
has_text ((i, some (c ∷ text)) ∷ fields) = true

-- The settings of a window: whether it is the current one, the forest view, idle tasks, and the two
-- kinds of filters; with the one for the whole screen that begins each row with a blank.
pub record View : Type 0 where
  pub is_current : Bool
  pub show_forest : Bool
  pub show_idleps : Bool
  pub mode_altscr : Bool
  pub filters : Filters
  pub user : UserFilter

-- `*task_show(q, i)`; TREE_VWINALL is not set.
unfoldable pub task_shows : View → Shown → Bool
task_shows q t =
    not (q.is_current && (q.show_forest && is_unseen t.row.mark))
    && (row_shown q.filters t.fields && (q.mode_altscr || has_text t.fields))

abbrev pub of_task : (Shown → Bool) → List Shown → ℕ → Bool
of_task test [] i = false
of_task test (t ∷ ts) zero = test t
of_task test (t ∷ ts) (suc i) = of_task test ts i

unfoldable pub sight_of : View → List Shown → Sight
sight_of q ts = record {
  shows = of_task (task_shows q) ts;
  selects = of_task (λ t. wins_usrselect q.user t.owner) ts;
  busy = of_task (λ t. ltb 0 t.row.task.cpu) ts;
  idle_too = q.show_idleps;
  by_user = not (q.user.usrseltyp == 0);
}

-- The window as a part of the frame.
abbrev pub pane_of : View → List Shown → Bool → ℕ → Focus → Pane
pane_of q ts taskon maxtasks focus = record {
  is_current = q.is_current;
  taskon = taskon;
  maxtasks = maxtasks;
  sight = sight_of q ts;
  focus = focus;
}
