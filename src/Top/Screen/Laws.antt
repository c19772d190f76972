-- ===== src/Top/Screen/Laws.antt =====
-- What a window shows: the tasks that belong there, and no other ones.
use yc_360_script.Prelude.{ℕ, Bool, not, ◌&&◌, ◌||◌, ltb, if◌then◌else◌}
use yc_360_script.Top.Forest.Rows.{Focus}
use yc_360_script.Top.Filters.{row_shown, wins_usrselect}
use yc_360_script.Top.Scroll.{Sight}
use yc_360_script.Top.Frame.{scroll_current}
use yc_360_script.Top.Screen.{Shown, is_unseen, has_text, View}

-- Which tasks a window is to show: in forest view the current window leaves out those that are marked
-- as unseen; the fields match all filters; the task is of the selected user, or not of the excluded
-- one; it used the processor, or idle tasks are shown; and a row has text, or begins with a blank.
abbrev pub belongs : View → Shown → Bool
belongs q t =
    not (q.is_current && (q.show_forest && is_unseen t.row.mark))
    && (row_shown q.filters t.fields
        && (wins_usrselect q.user t.owner
            && ((q.show_idleps || ltb 0 t.row.task.cpu) && (q.mode_altscr || has_text t.fields))))

-- Where a window of the frame begins: the current one after its scrolling.
abbrev pub settled : Sight → ℕ → View → Focus → Focus → Focus
settled here count q focus cur = if q.is_current then scroll_current here count cur else focus
