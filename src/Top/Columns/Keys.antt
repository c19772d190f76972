-- ===== src/Top/Columns/Keys.antt =====
-- The keys that scroll, from `kbd_UP` to `kbd_END` of `keys_window`. Between two keys,
-- `calibrate_fields` runs.
pub mod Starts
pub mod Landing
pub mod Laws
use yc_360_script.Prelude.{
  ℕ, zero, suc, ◌+◌, ◌-◌, Bool, true, false, not, ◌&&◌, List, [], ◌∷◌, ltb, ◌==◌, if◌then◌else◌,
  drop, length,
}
use yc_360_script.Prelude.Int.{ℤ, pos, negsuc, ltb_ℤ, ◌+ℤ◌, ◌-ℤ◌}
use yc_360_script.Top.Columns.{Slot, Flag, xon, xof, field, Table, is_var, Layout, calibrate}

pub data Key : Type 0 where
  up down left right pgup pgdn home end : Key

-- What the keys change: `begpflg`, `varcolbeg`, `begtask` and `begnext`.
pub record Offset : Type 0 where
  pub begpflg : ℕ
  pub varcolbeg : ℕ
  pub begtask : ℤ
  pub begnext : ℤ

-- What they read: VIZISw, Show_IDLEPS, `Rc.mode_altscr`, `winlines` and PIDSmaxt.
pub record Setting : Type 0 where
  pub in_view : Bool
  pub idle : Bool
  pub mode_altscr : Bool
  pub winlines : ℕ
  pub count : ℕ

-- `SCROLLAMT`
abbrev pub scroll_amt : ℕ
scroll_amt = 8

-- `VARright`: one variable column is all that is on the screen.
abbrev pub var_right : Table → List Flag → Bool
var_right t (field f ∷ []) = is_var (t.width f)
var_right t (xon ∷ field f ∷ g ∷ []) = is_var (t.width f)
var_right t _ = false

-- `EU_MAXPFLGS < w->pflgsall[i]`
abbrev pub is_mark : List Flag → Bool
is_mark (xon ∷ flags) = true
is_mark (xof ∷ flags) = true
is_mark _ = false

unfoldable pub column_left : List Flag → ℕ → ℕ
column_left flags b =
    if ltb 0 b then (if is_mark (drop (b - 1) flags) then b - 1 - 2 else b - 1) else b

unfoldable pub column_right : List Flag → ℕ → ℕ
column_right flags b =
    if ltb (b + 1) (length flags)
    then (if is_mark (drop b flags)
        then (if ltb (b + 3) (length flags) then b + 3 else b)
        else b + 1)
    else b

abbrev pub page : Setting → ℤ
page w = pos w.winlines -ℤ pos (if w.mode_altscr then 1 else 2)

-- `mkVIZrow1`
abbrev pub row_one : Offset → Offset
row_one v = record v { begnext = pos 1; begtask = v.begtask -ℤ pos 1 }

abbrev pub go_left : Table → Layout → Offset → Offset
go_left t l v =
    if not (v.varcolbeg == 0) && var_right t l.procflgs
    then record v { varcolbeg = v.varcolbeg - scroll_amt }
    else record v { begpflg = column_left l.pflgsall v.begpflg }

abbrev pub go_right : Table → Layout → Offset → Offset
go_right t l v =
    if var_right t l.procflgs
    then record v { varcolbeg = v.varcolbeg + scroll_amt }
    else record v { begpflg = column_right l.pflgsall v.begpflg }

unfoldable pub scroll_key : Table → Setting → Layout → Key → Offset → Offset
scroll_key t w l up v = if w.in_view && w.idle then record v { begnext = negsuc 0 } else v
scroll_key t w l down v = if w.in_view && w.idle then record v { begnext = pos 1 } else v
scroll_key t w l left v = if w.in_view then go_left t l v else v
scroll_key t w l right v = if w.in_view then go_right t l v else v
scroll_key t w l pgup v =
    if w.in_view && (w.idle && ltb_ℤ (pos 0) v.begtask)
    then record v { begnext = pos 0 -ℤ page w }
    else v
scroll_key t w l pgdn v =
    if w.in_view && (w.idle && ltb_ℤ v.begtask (pos w.count -ℤ pos 1))
    then record v { begnext = page w }
    else v
scroll_key t w l home v =
    row_one
      (if w.in_view && w.idle then record v { begtask = pos 0; begpflg = 0; varcolbeg = 0 } else v)
scroll_key t w l end v =
    if w.in_view && w.idle
    then record v {
      begnext = pos w.count -ℤ pos w.winlines +ℤ pos 1;
      begpflg = l.endpflg;
      varcolbeg = 0;
    }
    else v

-- Keys, one after another, in a window with these columns.
unfoldable pub scroll_keys : Table → Setting → ℕ → Bool → ℕ → List Slot → List Key → Offset → Offset
scroll_keys t w cols hicols sortindx slots [] v = v
scroll_keys t w cols hicols sortindx slots (k ∷ keys) v =
    scroll_keys t w cols hicols sortindx slots keys
      (scroll_key t w (calibrate t w.mode_altscr cols hicols sortindx v.begpflg slots) k v)
