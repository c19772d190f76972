-- ===== src/Top/Columns/Keys/Laws.antt =====
-- Scrolling sideways never leaves the columns.
use yc_360_script.Prelude.{
  sym, if◌then◌else◌, not, ◌&&◌, ◌==◌, ◌*◌, ◌-◌, refl, Bool, true, false, ℕ, zero, suc, ◌+◌, ◌≤◌,
  ◌<◌, ◌≡◌, List, [], ◌∷◌, length, arith,
}
use mathlib.Core.Path.{subst}
use yc_360_script.Prelude.Int.{ℤ, pos, negsuc, ◌-ℤ◌}
use yc_360_script.Top.Columns.{Slot, Flag, Table, len, flags_of, or_pid, all_flags, lead, calibrate}
use yc_360_script.Top.Columns.EndKey.{calibrate_end}
use yc_360_script.Top.Columns.Keys.{
  Key, up, down, left, right, pgup, pgdn, home, end, Offset, Setting, scroll_amt, var_right, page,
  go_left, go_right, scroll_key, scroll_keys,
}
use yc_360_script.Top.Columns.Keys.Starts.{
  Starts, here, all_flags-Shaped, column_left-Starts, column_right-Starts,
}
use yc_360_script.Top.Columns.Keys.Landing.{end_flag-Starts}

-- The first column on the screen is a whole one of the window, with its marks, and a variable column is
-- scrolled by steps of SCROLLAMT.
pub record IsView (flags : List Flag) (v : Offset) : Type 0 where
  pub starts : Starts flags v.begpflg
  pub inside : v.begpflg < length flags
  pub steps : (n : ℕ) × (v.varcolbeg ≡ n * scroll_amt)

or_pid-some : (flags : List Flag) → 0 < length (or_pid flags)
or_pid-some [] = omega arith
or_pid-some (f ∷ flags) = omega arith

all_flags-some :
    (hicols : Bool) (sortindx : ℕ) (slots : List Slot)
    → 0 < length (all_flags hicols sortindx slots)
unfolding all_flags
all_flags-some hicols sortindx slots = or_pid-some (flags_of hicols sortindx slots)

less_steps : (v n : ℕ) → v ≡ n * scroll_amt → (m : ℕ) × (v - scroll_amt ≡ m * scroll_amt)
less_steps v zero e = (0, omega (arith, e))
less_steps v (suc n) e = (n, omega (arith, e))

if-IsView :
    (flags : List Flag) (b : Bool) (v' v : Offset)
    → IsView flags v'
    → IsView flags v
    → IsView flags (if b then v' else v)
if-IsView flags true v' v h' h = h'
if-IsView flags false v' v h' h = h

-- The rows do not matter.
rows-IsView :
    (flags : List Flag) (v : Offset) (i j : ℤ)
    → IsView flags v
    → IsView flags (record v { begtask = i; begnext = j })
rows-IsView flags v i j h = record { starts = h.starts; inside = h.inside; steps = h.steps }

module _ (t : Table) (w : Setting) (cols : ℕ) (hicols : Bool) (sortindx : ℕ) (slots : List Slot)
    (narrow : (f : ℕ) → lead w.mode_altscr + len t f ≤ cols) where
  sideways-IsView :
      (flags : List Flag) (b : Bool) (v : Offset) (var place : ℕ)
      → IsView flags v
      → ((n : ℕ) × (var ≡ n * scroll_amt))
      → Starts flags place
      → place < length flags
      → IsView flags (if b then record v { varcolbeg = var } else record v { begpflg = place })
  sideways-IsView flags b v var place h steps st inside =
      if-IsView flags b (record v { varcolbeg = var }) (record v { begpflg = place })
        (record { starts = h.starts; inside = h.inside; steps = steps })
        (record { starts = st; inside = inside; steps = h.steps })

  key-IsView :
      (k : Key) (v : Offset)
      → IsView (all_flags hicols sortindx slots) v
      → IsView
          (all_flags hicols sortindx slots)
          (scroll_key t w (calibrate t w.mode_altscr cols hicols sortindx v.begpflg slots) k v)
  unfolding scroll_key calibrate
  key-IsView up v h =
      if-IsView (all_flags hicols sortindx slots) _ _ v
        (rows-IsView (all_flags hicols sortindx slots) v v.begtask (negsuc 0) h) h
  key-IsView down v h =
      if-IsView (all_flags hicols sortindx slots) _ _ v
        (rows-IsView (all_flags hicols sortindx slots) v v.begtask (pos 1) h) h
  key-IsView pgup v h =
      if-IsView (all_flags hicols sortindx slots) _ _ v
        (rows-IsView (all_flags hicols sortindx slots) v v.begtask (pos 0 -ℤ page w) h) h
  key-IsView pgdn v h =
      if-IsView (all_flags hicols sortindx slots) _ _ v
        (rows-IsView (all_flags hicols sortindx slots) v v.begtask (page w) h) h
  key-IsView left v h =
      let all = all_flags hicols sortindx slots in
      let l = calibrate t w.mode_altscr cols hicols sortindx v.begpflg slots in
      let (n, e) = h.steps in
      let moved = column_left-Starts all v.begpflg h.starts in
      if-IsView all w.in_view (go_left t l v) v
        (sideways-IsView all (not (v.varcolbeg == 0) && var_right t l.procflgs) v _ _ h
          (less_steps v.varcolbeg n e) moved.0 (omega (arith, moved.1, h.inside)))
        h
  key-IsView right v h =
      let all = all_flags hicols sortindx slots in
      let l = calibrate t w.mode_altscr cols hicols sortindx v.begpflg slots in
      let (n, e) = h.steps in
      let moved =
        column_right-Starts all v.begpflg (all_flags-Shaped hicols sortindx slots) h.starts
          h.inside in
      if-IsView all w.in_view (go_right t l v) v
        (sideways-IsView all (var_right t l.procflgs) v _ _ h (suc n, omega (arith, e)) moved.0
          moved.1)
        h
  key-IsView home v h =
      let all = all_flags hicols sortindx slots in
      let v' : Offset = record v { begtask = pos 0; begpflg = 0; varcolbeg = 0 } in
      let first : IsView all v' = record {
        starts = here;
        inside = all_flags-some hicols sortindx slots;
        steps = (0, refl);
      } in
      let b = w.in_view && w.idle in
      rows-IsView all (if b then v' else v) _ (pos 1) (if-IsView all b v' v first h)
  key-IsView end v h =
      let all = all_flags hicols sortindx slots in
      let ended = calibrate_end t w.mode_altscr cols hicols sortindx v.begpflg slots narrow in
      if-IsView all (w.in_view && w.idle) _ v
        (record {
          starts =
              end_flag-Starts t cols (lead w.mode_altscr) (all_flags-Shaped hicols sortindx slots);
          inside = ended.1;
          steps = (0, refl);
        })
        h

  keys-IsView :
      (keys : List Key) (v : Offset)
      → IsView (all_flags hicols sortindx slots) v
      → IsView (all_flags hicols sortindx slots) (scroll_keys t w cols hicols sortindx slots keys v)
  unfolding scroll_keys
  keys-IsView [] v h = h
  keys-IsView (k ∷ keys) v h =
      keys-IsView keys
        (scroll_key t w (calibrate t w.mode_altscr cols hicols sortindx v.begpflg slots) k v)
        (key-IsView k v h)

-- On a screen on which each single field fits, the keys that scroll, pressed in any order in a window
-- that begins at its first column and whose variable column is not scrolled, always leave it at one of
-- its columns, never behind the last one nor within the marks of the sort column, and a variable column
-- scrolled by steps of SCROLLAMT.
pub scroll_keys-IsView :
    (t : Table) (w : Setting) (cols : ℕ) (hicols : Bool) (sortindx : ℕ) (slots : List Slot)
    (keys : List Key) (v : Offset)
    → ((f : ℕ) → lead w.mode_altscr + len t f ≤ cols)
    → v.begpflg ≡ 0
    → v.varcolbeg ≡ 0
    → IsView (all_flags hicols sortindx slots) (scroll_keys t w cols hicols sortindx slots keys v)
scroll_keys-IsView t w cols hicols sortindx slots keys v narrow first still =
    let all = all_flags hicols sortindx slots in
    keys-IsView t w cols hicols sortindx slots narrow keys v (record {
      starts = subst (Starts all) (sym first) here;
      inside = omega (arith, first, all_flags-some hicols sortindx slots);
      steps = (0, omega (arith, still));
    })
