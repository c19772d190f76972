-- ===== src/Top/Fields.antt =====
-- `fields_utility`: the keys with which the fields of the four windows are ordered, toggled and sorted.
pub mod Slots
pub mod Laws
use yc_360_script.Prelude.{
  ℕ, zero, suc, ◌+◌, ◌-◌, ◌%◌, Bool, true, false, not, ◌&&◌, List, [], ◌∷◌, Option, none, some, ltb,
  leb, ◌==◌, if◌then◌else◌, length, map,
}
use yc_360_script.Top.Columns.{Slot}

-- What the fields screen changes in a window.
pub record Window : Type 0 where
  pub fieldscur : List Slot
  pub sortindx : ℕ
  pub begpflg : ℕ
  pub varcolbeg : ℕ
  pub show_hicols : Bool
  pub show_forest : Bool

-- The windows, by their places in `Winstk`, the current one, the field under the cursor, and the field
-- that `p` points to while it is moved.
pub record Screen : Type 0 where
  pub windows : List Window
  pub curwin : ℕ
  pub at : ℕ
  pub moved : Option ℕ

pub data Key : Type 0 where
  up down left enter right home pgup end pgdn space toggle sort next prev quit esc other : Key

abbrev pub slot_at : List Slot → ℕ → Option Slot
slot_at [] i = none
slot_at (s ∷ slots) zero = some s
slot_at (s ∷ slots) (suc i) = slot_at slots i

abbrev pub set_slot : List Slot → ℕ → Option Slot → List Slot
set_slot [] i v = []
set_slot (s ∷ slots) zero none = s ∷ slots
set_slot (s ∷ slots) zero (some v) = v ∷ slots
set_slot (s ∷ slots) (suc i) v = s ∷ set_slot slots i v

abbrev pub window_at : List Window → ℕ → Option Window
window_at [] i = none
window_at (w ∷ ws) zero = some w
window_at (w ∷ ws) (suc i) = window_at ws i

-- A change of the current window.
abbrev pub on_window : (Window → Window) → List Window → ℕ → List Window
on_window f [] i = []
on_window f (w ∷ ws) zero = f w ∷ ws
on_window f (w ∷ ws) (suc i) = w ∷ on_window f ws i

-- `unSCRL`
abbrev pub unscroll : Window → Window
unscroll w = record w { begpflg = 0; varcolbeg = 0; show_hicols = false }

-- `swapEM` in `fieldscur`: `c = fieldscur[i]; fieldscur[i] = *p; *p = c;`
unfoldable pub swap_slots : ℕ → ℕ → List Slot → List Slot
swap_slots i p slots = let c = slot_at slots i in set_slot (set_slot slots i (slot_at slots p)) p c

abbrev pub swap_in : ℕ → ℕ → Window → Window
swap_in i p w = record (unscroll w) { fieldscur = swap_slots i p w.fieldscur }

-- `FLDtog`
abbrev pub toggled : Slot → Slot
toggled s = record s { on = not s.on }

unfoldable pub toggle_slot : ℕ → List Slot → List Slot
toggle_slot i [] = []
toggle_slot zero (s ∷ slots) = toggled s ∷ slots
toggle_slot (suc i) (s ∷ slots) = s ∷ toggle_slot i slots

-- `msch`: the place of a field in a state.
unfoldable pub place_of : ℕ → Bool → ℕ → List Slot → Option ℕ
place_of enu on i [] = none
place_of enu on i (s ∷ slots) =
    if s.enu == enu && (if on then s.on else not s.on)
    then some i
    else place_of enu on (i + 1) slots

abbrev pub place_or : ℕ → Option ℕ → ℕ
place_or d none = d
place_or d (some i) = i

-- `spewFI`: the place of the sort field, on or off, or 0.
unfoldable pub sort_place : Window → ℕ
sort_place w =
    place_or (place_or 0 (place_of w.sortindx false 0 w.fieldscur))
      (place_of w.sortindx true 0 w.fieldscur)

-- `i` moves to a neighbour, and a moved field with it.
abbrev pub moving : ℕ → Option ℕ → Screen → Screen
moving i none s = record s { at = i }
moving i (some p) s = record s {
  windows = on_window (swap_in i p) s.windows s.curwin;
  at = i;
  moved = some i;
}

abbrev pub move_to : ℕ → Screen → Screen
move_to i s = moving i s.moved s

abbrev pub sort_by : Option Slot → Window → Window
sort_by none w = w
sort_by (some f) w = record (unscroll w) { sortindx = f.enu; show_forest = false }

abbrev pub sort_place_in : List Window → ℕ → ℕ
sort_place_in ws i = elim (window_at ws i) [ none ↦ 0 | some w ↦ sort_place w ]

-- `Curwin = w = …; spewFI; p = NULL;`
abbrev pub select : ℕ → Screen → Screen
select i s = record s { curwin = i; at = sort_place_in s.windows i; moved = none }

abbrev pub is_moved : Option ℕ → Bool
is_moved none = false
is_moved (some p) = true

-- `if (!p) …`
abbrev pub if_still : Screen → Screen → Screen
if_still s s' = if is_moved s.moved then s else s'

abbrev pub fields : Screen → List Slot
fields s = elim (window_at s.windows s.curwin) [ none ↦ [] | some w ↦ w.fieldscur ]

-- One key; `EU_MAXPFLGS` is the number of fields of a window, and there are four windows in the ring.
unfoldable pub press : ℕ → Key → Screen → Screen
press maxpflgs up s = if ltb 0 s.at then move_to (s.at - 1) s else s
press maxpflgs down s = if ltb (s.at + 1) maxpflgs then move_to (s.at + 1) s else s
press maxpflgs left s = record s { moved = none }
press maxpflgs enter s = record s { moved = none }
press maxpflgs right s = record s { moved = some s.at }
press maxpflgs home s = if_still s (record s { at = 0 })
press maxpflgs pgup s = if_still s (record s { at = 0 })
press maxpflgs end s = if_still s (record s { at = maxpflgs - 1 })
press maxpflgs pgdn s = if_still s (record s { at = maxpflgs - 1 })
press maxpflgs space s = if_still s (record s {
  windows =
      on_window (λ w. unscroll (record w { fieldscur = toggle_slot s.at w.fieldscur })) s.windows
        s.curwin;
})
press maxpflgs toggle s = if_still s (record s {
  windows =
      on_window (λ w. unscroll (record w { fieldscur = toggle_slot s.at w.fieldscur })) s.windows
        s.curwin;
})
press maxpflgs sort s = if_still s (record s {
  windows = on_window (λ w. sort_by (slot_at w.fieldscur s.at) w) s.windows s.curwin;
})
press maxpflgs next s = select ((s.curwin + 1) % 4) s
press maxpflgs prev s = select ((s.curwin + 3) % 4) s
press maxpflgs quit s = s
press maxpflgs esc s = s
press maxpflgs other s = s

abbrev pub is_last : Key → Bool
is_last quit = true
is_last esc = true
is_last _ = false

-- The loop, up to `q` or ESC; a redraw after a signal changes nothing here.
unfoldable pub fields_keys : ℕ → List Key → Screen → Screen
fields_keys maxpflgs [] s = s
fields_keys maxpflgs (k ∷ keys) s =
    let s' = press maxpflgs k s in if is_last k then s' else fields_keys maxpflgs keys s'

unfoldable pub fields_utility : ℕ → List Key → List Window → ℕ → Screen
fields_utility maxpflgs keys ws curwin =
    fields_keys maxpflgs keys
      (record { windows = ws; curwin = curwin; at = sort_place_in ws curwin; moved = none })
