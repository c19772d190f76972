-- ===== src/Top/Fields/Slots.antt =====
-- A swap or a toggle keeps the fields of a window.
use yc_360_script.Prelude.{
  ℕ, zero, suc, ◌+◌, ◌≡◌, refl, ap, ◌∙◌, List, [], ◌∷◌, Option, none, some, ◌==◌, if◌then◌else◌,
  length, arith,
}
use yc_360_script.Top.Columns.{Slot}
use yc_360_script.Top.Fields.{slot_at, set_slot, swap_slots, toggle_slot}

abbrev pub once : ℕ → Slot → ℕ
once e s = if s.enu == e then 1 else 0

-- How often a field stands in the list, on or off.
abbrev pub times : ℕ → List Slot → ℕ
times e [] = 0
times e (s ∷ slots) = once e s + times e slots

times-set_slot :
    (e : ℕ) (slots : List Slot) (i : ℕ) (s v : Slot)
    → slot_at slots i ≡ some s
    → times e (set_slot slots i (some v)) + once e s ≡ times e slots + once e v
times-set_slot e [] i s v h = cc
times-set_slot e (x ∷ slots) zero s v h =
    let same : x ≡ s = cc in let o = ap (once e) same in omega (arith, o)
times-set_slot e (x ∷ slots) (suc i) s v h = omega (arith, times-set_slot e slots i s v h)

set_slot-none : (slots : List Slot) (i : ℕ) → set_slot slots i none ≡ slots
set_slot-none [] i = refl
set_slot-none (x ∷ slots) zero = refl
set_slot-none (x ∷ slots) (suc i) = ap (◌∷◌ x) (set_slot-none slots i)

set_slot_outside :
    (slots : List Slot) (i : ℕ) (v : Option Slot)
    → slot_at slots i ≡ none
    → set_slot slots i v ≡ slots
set_slot_outside [] i v h = refl
set_slot_outside (x ∷ slots) zero v h = cc
set_slot_outside (x ∷ slots) (suc i) v h = ap (◌∷◌ x) (set_slot_outside slots i v h)

length-set_slot :
    (slots : List Slot) (i : ℕ) (v : Option Slot) → length (set_slot slots i v) ≡ length slots
length-set_slot [] i v = refl
length-set_slot (x ∷ slots) zero none = refl
length-set_slot (x ∷ slots) zero (some v) = refl
length-set_slot (x ∷ slots) (suc i) v = ap suc (length-set_slot slots i v)

-- A second place keeps what it holds, if that is what was written.
slot_at-set_slot :
    (slots : List Slot) (i p : ℕ) (v : Slot)
    → slot_at slots p ≡ some v
    → slot_at (set_slot slots i (some v)) p ≡ some v
slot_at-set_slot [] i p v h = h
slot_at-set_slot (x ∷ slots) zero zero v h = refl
slot_at-set_slot (x ∷ slots) zero (suc p) v h = h
slot_at-set_slot (x ∷ slots) (suc i) zero v h = h
slot_at-set_slot (x ∷ slots) (suc i) (suc p) v h = slot_at-set_slot slots i p v h

times_swapped :
    (e : ℕ) (slots : List Slot) (i p : ℕ) (oc op : Option Slot)
    → slot_at slots i ≡ oc
    → slot_at slots p ≡ op
    → times e (set_slot (set_slot slots i op) p oc) ≡ times e slots
times_swapped e slots i p none op hi hp =
    rw (set_slot_outside slots i op hi, set_slot-none slots p) refl
times_swapped e slots i p (some c) none hi hp =
    rw (set_slot-none slots i, set_slot_outside slots p (some c) hp) refl
times_swapped e slots i p (some c) (some v) hi hp = omega (
  arith,
  times-set_slot e slots i c v hi,
  times-set_slot e (set_slot slots i (some v)) p v c (slot_at-set_slot slots i p v hp),
)

-- The same fields, as often, in any order and state.
abbrev pub SameFields : List Slot → List Slot → Type 0
SameFields slots slots' =
    (length slots' ≡ length slots) × ((e : ℕ) → times e slots' ≡ times e slots)

pub SameFields-swap : (i p : ℕ) (slots : List Slot) → SameFields slots (swap_slots i p slots)
unfolding swap_slots
SameFields-swap i p slots = (
  length-set_slot (set_slot slots i (slot_at slots p)) p (slot_at slots i)
      ∙ length-set_slot slots i (slot_at slots p),
  λ e. times_swapped e slots i p (slot_at slots i) (slot_at slots p) refl refl,
)

pub SameFields-toggle : (i : ℕ) (slots : List Slot) → SameFields slots (toggle_slot i slots)
unfolding toggle_slot
SameFields-toggle i [] = (refl, λ e. refl)
SameFields-toggle zero (s ∷ slots) = (refl, λ e. refl)
SameFields-toggle (suc i) (s ∷ slots) =
    let (l, t) = SameFields-toggle i slots in (ap suc l, λ e. ap (λ n. once e s + n) (t e))
