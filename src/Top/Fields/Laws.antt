-- ===== src/Top/Fields/Laws.antt =====
-- No key on the fields screen loses or doubles a field.
use yc_360_script.Prelude.{
  ℕ, zero, suc, ◌+◌, ◌-◌, ◌%◌, ◌<◌, ◌≡◌, refl, ◌∙◌, ◌⊎◌, inl, inr, Bool, true, false, List, [], ◌∷◌,
  Option, none, some, ltb, if◌then◌else◌, length, Bool-cases, arith,
}
use yc_360_script.Top.Columns.{Slot}
use yc_360_script.Top.Fields.{
  Window, Screen, Key, up, down, left, enter, right, home, pgup, end, pgdn, space, toggle, sort,
  next, prev, quit, esc, other, slot_at, on_window, unscroll, swap_in, toggle_slot, place_of,
  place_or, sort_place, moving, sort_by, sort_place_in, select, is_moved, if_still, press, is_last,
  fields_keys, fields_utility,
}
use yc_360_script.Top.Fields.Slots.{SameFields, SameFields-swap, SameFields-toggle}

abbrev pub AllSame : List Window → List Window → Type 0
AllSame [] [] = Unit
AllSame [] (w' ∷ ws') = ⊥
AllSame (w ∷ ws) [] = ⊥
AllSame (w ∷ ws) (w' ∷ ws') = SameFields w.fieldscur w'.fieldscur × AllSame ws ws'

AllSame-refl : (ws : List Window) → AllSame ws ws
AllSame-refl [] = tt
AllSame-refl (w ∷ ws) = ((refl, λ e. refl), AllSame-refl ws)

-- A change that keeps the fields of each window.
AllSame-on_window :
    (f : Window → Window) (ws us : List Window) (i : ℕ)
    → ((w : Window) → SameFields w.fieldscur (f w).fieldscur)
    → AllSame ws us
    → AllSame ws (on_window f us i)
AllSame-on_window f [] [] i h a = a
AllSame-on_window f [] (u ∷ us) i h a = elim a [ ]
AllSame-on_window f (w ∷ ws) [] i h a = elim a [ ]
AllSame-on_window f (w ∷ ws) (u ∷ us) zero h ((l, t), a) =
    let (l', t') = h u in ((l' ∙ l, λ e. t' e ∙ t e), a)
AllSame-on_window f (w ∷ ws) (u ∷ us) (suc i) h (s, a) = (s, AllSame-on_window f ws us i h a)

-- Every window has all the fields.
abbrev pub AllLong : ℕ → List Window → Type 0
AllLong n [] = Unit
AllLong n (w ∷ ws) = (length w.fieldscur ≡ n) × AllLong n ws

place_of-le :
    (enu : ℕ) (on : Bool) (i d : ℕ) (slots : List Slot)
    → d < i + length slots
    → place_or d (place_of enu on i slots) < i + length slots
unfolding place_of
place_of-le enu on i d [] h = h
place_of-le enu on i d (s ∷ slots) h =
    ground (arith, place_of-le enu on (i + 1) d slots (omega arith))

sort_place-lt : (w : Window) → 0 < length w.fieldscur → sort_place w < length w.fieldscur
unfolding sort_place
sort_place-lt w h = omega (
  arith,
  place_of-le w.sortindx true 0 (place_or 0 (place_of w.sortindx false 0 w.fieldscur)) w.fieldscur
      (omega (arith, place_of-le w.sortindx false 0 0 w.fieldscur (omega arith))),
)

sort_place_in-lt :
    (n : ℕ) (ws us : List Window) (i : ℕ)
    → 0 < n
    → AllLong n ws
    → AllSame ws us
    → sort_place_in us i < n
sort_place_in-lt n [] [] i h l a = h
sort_place_in-lt n [] (u ∷ us) i h l a = elim a [ ]
sort_place_in-lt n (w ∷ ws) [] i h l a = elim a [ ]
sort_place_in-lt n (w ∷ ws) (u ∷ us) zero h l a =
    let size = a.0.0 in omega (arith, size, l.0, sort_place-lt u (omega (arith, size, l.0)))
sort_place_in-lt n (w ∷ ws) (u ∷ us) (suc i) h l a = sort_place_in-lt n ws us i h l.1 a.1

-- The fields of the windows `ws` are all there, the cursor stands on one, and a field that is moved is
-- the one under the cursor.
pub record IsKept (n : ℕ) (ws : List Window) (s : Screen) : Type 0 where
  pub same : AllSame ws s.windows
  pub inside : s.at < n
  pub held : (s.moved ≡ none) ⊎ (s.moved ≡ some s.at)

module _ (n : ℕ) (ws : List Window) (some_field : 0 < n) (long : AllLong n ws) where
  moving-IsKept :
      (i : ℕ) (m : Option ℕ) (s : Screen)
      → s.moved ≡ m
      → i < n
      → IsKept n ws s
      → IsKept n ws (moving i m s)
  moving-IsKept i none s e h k = record { same = k.same; inside = h; held = inl e }
  moving-IsKept i (some p) s e h k = record {
    same =
        AllSame-on_window (swap_in i p) ws s.windows s.curwin (λ w. SameFields-swap i p w.fieldscur)
          k.same;
    inside = h;
    held = inr refl;
  }

  if_still-IsKept : (s s' : Screen) → IsKept n ws s → IsKept n ws s' → IsKept n ws (if_still s s')
  if_still-IsKept s s' k k' = elim (Bool-cases (is_moved s.moved)) [
    | inl e ↦ simp e k
    | inr e ↦ simp e k'
  ]

  changed-IsKept :
      (f : Window → Window) (s : Screen)
      → ((w : Window) → SameFields w.fieldscur (f w).fieldscur)
      → IsKept n ws s
      → IsKept n ws (record s { windows = on_window f s.windows s.curwin })
  changed-IsKept f s h k = record {
    same = AllSame-on_window f ws s.windows s.curwin h k.same;
    inside = k.inside;
    held = k.held;
  }

  select-IsKept : (i : ℕ) (s : Screen) → IsKept n ws s → IsKept n ws (select i s)
  select-IsKept i s k = record {
    same = k.same;
    inside = sort_place_in-lt n ws s.windows i some_field long k.same;
    held = inl refl;
  }

  still-IsKept : (s : Screen) → IsKept n ws s → IsKept n ws (record s { moved = none })
  still-IsKept s k = record { same = k.same; inside = k.inside; held = inl refl }

  -- The cursor may only jump if no field is moved.
  jump_by :
      (i : ℕ) (m : Option ℕ) (s : Screen)
      → s.moved ≡ m
      → i < n
      → IsKept n ws s
      → IsKept n ws (if is_moved m then s else record s { at = i })
  jump_by i none s e h k = record { same = k.same; inside = h; held = inl e }
  jump_by i (some p) s e h k = k

  sort_by-SameFields :
      (o : Option Slot) (w : Window) → SameFields w.fieldscur (sort_by o w).fieldscur
  sort_by-SameFields none w = (refl, λ e. refl)
  sort_by-SameFields (some f) w = (refl, λ e. refl)

  press-IsKept : (key : Key) (s : Screen) → IsKept n ws s → IsKept n ws (press n key s)
  unfolding press
  press-IsKept up s k = elim (Bool-cases (ltb 0 s.at)) [
    | inl e ↦ simp e (moving-IsKept (s.at - 1) s.moved s refl (omega (arith, k.inside)) k)
    | inr e ↦ simp e k
  ]
  press-IsKept down s k = elim (Bool-cases (ltb (s.at + 1) n)) [
    | inl e ↦ simp e (moving-IsKept (s.at + 1) s.moved s refl (ground (arith, e)) k)
    | inr e ↦ simp e k
  ]
  press-IsKept left s k = still-IsKept s k
  press-IsKept enter s k = still-IsKept s k
  press-IsKept right s k = record { same = k.same; inside = k.inside; held = inr refl }
  press-IsKept home s k = jump_by 0 s.moved s refl some_field k
  press-IsKept pgup s k = jump_by 0 s.moved s refl some_field k
  press-IsKept end s k = jump_by (n - 1) s.moved s refl (omega arith) k
  press-IsKept pgdn s k = jump_by (n - 1) s.moved s refl (omega arith) k
  press-IsKept space s k = if_still-IsKept s _ k (
      changed-IsKept (λ w. unscroll (record w { fieldscur = toggle_slot s.at w.fieldscur })) s
        (λ w. SameFields-toggle s.at w.fieldscur) k)
  press-IsKept toggle s k = if_still-IsKept s _ k (
      changed-IsKept (λ w. unscroll (record w { fieldscur = toggle_slot s.at w.fieldscur })) s
        (λ w. SameFields-toggle s.at w.fieldscur) k)
  press-IsKept sort s k = if_still-IsKept s _ k (
      changed-IsKept (λ w. sort_by (slot_at w.fieldscur s.at) w) s
        (λ w. sort_by-SameFields (slot_at w.fieldscur s.at) w) k)
  press-IsKept next s k = select-IsKept ((s.curwin + 1) % 4) s k
  press-IsKept prev s k = select-IsKept ((s.curwin + 3) % 4) s k
  press-IsKept quit s k = k
  press-IsKept esc s k = k
  press-IsKept other s k = k

  keys-IsKept : (keys : List Key) (s : Screen) → IsKept n ws s → IsKept n ws (fields_keys n keys s)
  unfolding fields_keys
  keys-IsKept [] s k = k
  keys-IsKept (key ∷ keys) s k = elim (Bool-cases (is_last key)) [
    | inl e ↦ simp e (press-IsKept key s k)
    | inr e ↦ simp e (keys-IsKept keys (press n key s) (press-IsKept key s k))
  ]

-- Whatever keys are pressed on the fields screen, no window loses, doubles or invents a field: each
-- keeps as many fields as it had and each field as often, so that they are reordered and toggled only.
-- The cursor stays on a field, and a field that is being moved is the one under the cursor. This holds
-- for windows that all have the `n` fields that there are.
pub fields_utility-IsKept :
    (n : ℕ) (keys : List Key) (ws : List Window) (curwin : ℕ)
    → 0 < n
    → AllLong n ws
    → IsKept n ws (fields_utility n keys ws curwin)
unfolding fields_utility
fields_utility-IsKept n keys ws curwin some_field long =
    let start : Screen = record {
      windows = ws;
      curwin = curwin;
      at = sort_place_in ws curwin;
      moved = none;
    } in
    keys-IsKept n ws some_field long keys start (record {
      same = AllSame-refl ws;
      inside = sort_place_in-lt n ws ws curwin some_field long (AllSame-refl ws);
      held = inl refl;
    })
