-- ===== src/Vmstat/Rows/Counts.antt =====
-- How many lines vmstat prints, and that titles and rows have the same columns.
use yc_360_script.Prelude.{
  ℕ, suc, ◌+◌, ◌%◌, ◌^◌, ◌≡◌, refl, Bool, true, false, ◌||◌, ◌&&◌, List, [], ◌∷◌, ◌++◌, ltb, ◌==◌,
  if◌then◌else◌, length, Bool-cases, length-take, inl, inr, arith,
}
use yc_360_script.Prelude.Int.{ℤ, pos}
use yc_360_script.Vmstat.Options.{Settings}
use yc_360_script.Vmstat.Rows.{
  shown, Line, heading, row, new_header, header_at, Paging, Reading, Machine, first_row, next_row,
  main_loop, new_format,
}

abbrev pub rows : List Line → ℕ
rows [] = 0
rows (heading _ ∷ ls) = rows ls
rows (row _ _ ∷ ls) = suc (rows ls)

rows-header_at : (s : Settings) (i : ℕ) (ls : List Line) → rows (header_at s i ++ ls) ≡ rows ls
unfolding new_header
rows-header_at s i ls = elim (Bool-cases (s.moreheaders && i % s.height == 0)) [
  | inl yes' ↦ rw yes'
  | inr no' ↦ rw no'
]

-- A row of the main loop is one row.
next_row-one :
    (s : Settings) (m : Machine) (before : Paging) (debt : ℤ) (r : Reading) (ls : List Line)
    → rows ((next_row s m before debt r).0 ∷ ls) ≡ suc (rows ls)
unfolding next_row
next_row-one s m before debt r ls = refl

-- The loop without an end: a row for each reading.
rows-main_loop_infinite :
    (rs : List Reading) (s : Settings) (m : Machine) (i : ℕ) (before : Paging) (debt : ℤ)
    → s.infinite_updates ≡ true
    → rows (main_loop s m i before debt rs) ≡ length rs
unfolding main_loop next_row
rows-main_loop_infinite [] s m i before debt f = refl
rows-main_loop_infinite (r ∷ rs) s m i before debt f =
    let line = next_row s m before debt r in
    let rest = rows-main_loop_infinite rs s m ((i + 1) % 2 ^ 32) r.paging line.1 f in
    let open_row =
      next_row-one s m before debt r (main_loop s m ((i + 1) % 2 ^ 32) r.paging line.1 rs) in
    rw (f, rows-header_at, open_row, rest) refl

-- Every line has the given number of columns.
abbrev pub HasColumns : ℕ → List Line → Type 0
HasColumns n [] = Unit
HasColumns n (heading names ∷ ls) = (length names ≡ n) × HasColumns n ls
HasColumns n (row fields _ ∷ ls) = (length fields ≡ n) × HasColumns n ls

abbrev pub width : Settings → ℕ
width s = if s.w_option then 18 else 17

HasColumns-if :
    (b : Bool) (n : ℕ) (xs ys : List Line)
    → HasColumns n xs
    → HasColumns n ys
    → HasColumns n (if b then xs else ys)
HasColumns-if true n xs ys h k = h
HasColumns-if false n xs ys h k = k

new_header-HasColumns :
    (s : Settings) (ls : List Line)
    → HasColumns (width s) ls
    → HasColumns (width s) (new_header s ∷ ls)
unfolding new_header
new_header-HasColumns s ls h = ground arith

header_at-HasColumns :
    (s : Settings) (i : ℕ) (ls : List Line)
    → HasColumns (width s) ls
    → HasColumns (width s) (header_at s i ++ ls)
unfolding new_header
header_at-HasColumns s i ls h = ground arith

length-shown :
    (w : Bool) (fields : List ℕ)
    → length fields ≡ 18
    → length (shown w fields) ≡ (if w then 18 else 17)
length-shown true fields h = h
length-shown false fields h = omega (arith, h, length-take 17 fields)

next_row-HasColumns :
    (s : Settings) (m : Machine) (before : Paging) (debt : ℤ) (r : Reading) (ls : List Line)
    → HasColumns (width s) ls
    → HasColumns (width s) ((next_row s m before debt r).0 ∷ ls)
unfolding next_row
next_row-HasColumns s m before debt r ls h = (length-shown s.w_option _ refl, h)

first_row-HasColumns :
    (s : Settings) (m : Machine) (r : Reading) (ls : List Line)
    → HasColumns (width s) ls
    → HasColumns (width s) (first_row s m r ∷ ls)
unfolding first_row
first_row-HasColumns s m r ls h = (length-shown s.w_option _ refl, h)

main_loop-HasColumns :
    (rs : List Reading) (s : Settings) (m : Machine) (i : ℕ) (before : Paging) (debt : ℤ)
    → HasColumns (width s) (main_loop s m i before debt rs)
unfolding main_loop
main_loop-HasColumns [] s m i before debt = tt
main_loop-HasColumns (r ∷ rs) s m i before debt =
    let line = next_row s m before debt r in
    let rest = main_loop-HasColumns rs s m ((i + 1) % 2 ^ 32) r.paging line.1 in
    let lines = main_loop s m ((i + 1) % 2 ^ 32) r.paging line.1 rs in
    HasColumns-if (s.infinite_updates || ltb i s.num_updates) (width s) _ []
      (header_at-HasColumns s i (line.0 ∷ lines) (next_row-HasColumns s m before debt r lines rest))
      tt

-- Titles and rows have the same number of columns in every report: 18, or 17 in the narrow format,
-- where the last one, guest time, is left out.
new_format-columns :
    (s : Settings) (m : Machine) (before : Paging) (r : Reading) (rs : List Reading)
    → HasColumns (if s.w_option then 18 else 17) (new_format s m before r rs)
unfolding new_format
new_format-columns s m before r rs =
    let more = record s { num_updates = (s.num_updates + 1) % 2 ^ 64 } in
    new_header-HasColumns s _ (
      HasColumns-if s.y_option (width s) _ _ (main_loop-HasColumns rs more m 1 before (pos 0))
        (first_row-HasColumns s m r _ (main_loop-HasColumns rs s m 1 before (pos 0))))
