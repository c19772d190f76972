-- ===== src/Top/Filters/File/Reread.antt =====
-- The filters of the windows through the configuration file, where the widths of the fields at reading
-- are not those at which the filters were made.
use yc_360_script.Prelude.{
  ℕ, suc, ◌+◌, ◌<◌, ◌≡◌, refl, sym, ◌∙◌, ap, Bool, true, false, ◌||◌, List, [], ◌∷◌, ◌++◌, Option,
  none, some, ◌==◌, Bytes, bytes_eq, map, length, arith, Bool-cases, inl, inr,
}
use mathlib.Core.Path.{subst}
use yc_360_script.Prelude.Int.{ℤ}
use yc_360_script.Top.Filters.{
  Criterion, Filters, Columns, Result, done, refused, has_raw, is_delimiter, split_glob, in_front,
  field_of, value_of, with_field, with_split, build,
}
use yc_360_script.Top.Filters.Refill.{Says, AllSay, Distinct, filters}
use yc_360_script.Top.Filters.File.{
  before, complete, config_osel, window_text, filter_text, window_texts, all_texts, sum_tot,
  write_osel,
}
use yc_360_script.Top.Filters.File.Restore.{AllTyped, cleared, Restorable, config_osel_same}

-- The text behind the delimiter.
abbrev behind : Option (Bytes × ℕ × Bytes) → Bytes
behind none = []
behind (some (name, ops, pval)) = pval

abbrev value_text : Bytes → Bytes
value_text raw = behind (split_glob raw)

-- The criterion with its value for these widths.
abbrev pub rebuilt : Columns → Criterion → Criterion
rebuilt cols c = record c { val = value_of cols c.ops c.enu (value_text c.raw) }

abbrev pub reread : Columns → Filters → Filters
reread cols f = record f { criteria = map (rebuilt cols) f.criteria }

-- The criterion is what its text says for some widths of the same fields.
abbrev pub IsMade : Columns → Criterion → Type 0
IsMade cols c = (made : Columns) × (cols.names ≡ made.names) × Says made c

abbrev pub AllMade : Columns → List Criterion → Type 0
AllMade cols [] = Unit
AllMade cols (c ∷ cs) = IsMade cols c × AllMade cols cs

-- What the windows are when they are printed.
abbrev pub AllSaved : Columns → List Filters → Type 0
AllSaved cols [] = Unit
AllSaved cols (f ∷ ws) =
    ((f.osel_tot ≡ length f.criteria)
      × Distinct f.criteria
      × AllMade cols f.criteria
      × AllTyped f.criteria)
    × AllSaved cols ws

module _ (cols made : Columns) (same : cols.names ≡ made.names) where
  -- The same result with the value for the other widths.
  redo : Bytes → Result Criterion → Result Criterion
  redo pval (refused r) = refused r
  redo pval (done c) = done (record c { val = value_of cols c.ops c.enu pval })

  with_field-redo :
      (ch : ℤ) (raw : Bytes) (inc : Bool) (name : Bytes) (ops : ℕ) (pval : Bytes) (o : Option ℕ)
      → with_field cols ch raw inc name ops pval o
        ≡ redo pval (with_field made ch raw inc name ops pval o)
  unfolding redo
  with_field-redo ch raw inc name ops pval none = refl
  with_field-redo ch raw inc name ops [] (some enu) = refl
  with_field-redo ch raw inc name ops (x ∷ pval) (some enu) = refl

  with_split-redo :
      (ch : ℤ) (raw : Bytes) (inc : Bool) (o : Option (Bytes × ℕ × Bytes))
      → with_split cols ch raw inc o ≡ redo (behind o) (with_split made ch raw inc o)
  unfolding redo
  with_split-redo ch raw inc none = refl
  with_split-redo ch raw inc (some (name, ops, pval)) =
      ap (λ names. with_field cols ch raw inc name ops pval (field_of 0 names name)) same
      ∙ with_field-redo ch raw inc name ops pval (field_of 0 made.names name)

  behind-in_front : (c : ℕ) (o : Option (Bytes × ℕ × Bytes)) → behind (in_front c o) ≡ behind o
  behind-in_front c none = refl
  behind-in_front c (some (name, ops, pval)) = refl

  value_text-not :
      (c : ℕ) (glob : Bytes) → (c == b'!') ≡ true → value_text (c ∷ glob) ≡ value_text glob
  unfolding split_glob
  value_text-not c glob h =
      let plain : is_delimiter c ≡ false = ground arith in
      rw plain (behind-in_front c (split_glob glob))

  build-redo :
      (ch : ℤ) (raw glob : Bytes)
      → build cols ch raw glob ≡ redo (value_text glob) (build made ch raw glob)
  unfolding build
  build-redo ch raw [] = with_split-redo ch raw true (split_glob [])
  build-redo ch raw (c ∷ glob) = elim (Bool-cases (c == b'!')) [
    | inl no' ↦ rw (no', value_text-not c glob no') (with_split-redo ch raw false (split_glob glob))
    | inr yes' ↦ rw yes' (with_split-redo ch raw true (split_glob (c ∷ glob)))
  ]

  Says-rebuilt : (c : Criterion) → Says made c → Says cols (rebuilt cols c)
  unfolding redo
  Says-rebuilt c (ne, plain, built) =
      (ne, plain, build-redo c.typ c.raw c.raw ∙ ap (redo (value_text c.raw)) built)

AllSay-rebuilt :
    (cols : Columns) (cs : List Criterion) → AllMade cols cs → AllSay cols (map (rebuilt cols) cs)
AllSay-rebuilt cols [] m = tt
AllSay-rebuilt cols (c ∷ cs) ((made, same, says), m) =
    (Says-rebuilt cols made same c says, AllSay-rebuilt cols cs m)

AllTyped-rebuilt :
    (cols : Columns) (cs : List Criterion) → AllTyped cs → AllTyped (map (rebuilt cols) cs)
AllTyped-rebuilt cols [] t = tt
AllTyped-rebuilt cols (c ∷ cs) t = (t.0, AllTyped-rebuilt cols cs t.1)

has_raw-rebuilt :
    (cols : Columns) (raw : Bytes) (cs : List Criterion)
    → has_raw raw (map (rebuilt cols) cs) ≡ has_raw raw cs
has_raw-rebuilt cols raw [] = refl
has_raw-rebuilt cols raw (c ∷ cs) = ap (◌||◌ (bytes_eq c.raw raw)) (has_raw-rebuilt cols raw cs)

Distinct-rebuilt :
    (cols : Columns) (cs : List Criterion) → Distinct cs → Distinct (map (rebuilt cols) cs)
Distinct-rebuilt cols [] d = tt
Distinct-rebuilt cols (c ∷ cs) d =
    (has_raw-rebuilt cols c.raw cs ∙ d.0, Distinct-rebuilt cols cs d.1)

length-rebuilt : (cols : Columns) (cs : List Criterion) → length (map (rebuilt cols) cs) ≡ length cs
length-rebuilt cols [] = refl
length-rebuilt cols (c ∷ cs) = ap suc (length-rebuilt cols cs)

Restorable-reread :
    (cols : Columns) (ws : List Filters) → AllSaved cols ws → Restorable cols (map (reread cols) ws)
Restorable-reread cols [] s = tt
Restorable-reread cols (f ∷ ws) ((counted, distinct, made, typed), s) = (
  record {
    counted = counted ∙ sym (length-rebuilt cols f.criteria);
    distinct = Distinct-rebuilt cols f.criteria distinct;
    say = AllSay-rebuilt cols f.criteria made;
  },
  AllTyped-rebuilt cols f.criteria typed,
  Restorable-reread cols ws s,
)

-- Only texts and types are printed.
filter_texts-rebuilt :
    (cols : Columns) (cs : List Criterion)
    → map filter_text (map (rebuilt cols) cs) ≡ map filter_text cs
filter_texts-rebuilt cols [] = refl
filter_texts-rebuilt cols (c ∷ cs) = ap (◌∷◌ (filter_text c)) (filter_texts-rebuilt cols cs)

window_texts-reread :
    (cols : Columns) (i tot : ℕ) (cs : List Criterion)
    → window_texts i (reread cols (record { criteria = cs; osel_tot = tot }))
      ≡ window_texts i (record { criteria = cs; osel_tot = tot })
window_texts-reread cols i tot [] = refl
window_texts-reread cols i tot (c ∷ cs) =
    ap (λ z. window_text i tot ∷ z) (filter_texts-rebuilt cols (c ∷ cs))

all_texts-reread :
    (cols : Columns) (i : ℕ) (ws : List Filters)
    → all_texts i (map (reread cols) ws) ≡ all_texts i ws
all_texts-reread cols i [] = refl
all_texts-reread cols i (f ∷ ws) =
    ap (λ z. z ++ all_texts (i + 1) (map (reread cols) ws))
      (window_texts-reread cols i f.osel_tot f.criteria)
    ∙ ap (λ z. window_texts i f ++ z) (all_texts-reread cols (i + 1) ws)

sum_tot-reread : (cols : Columns) (ws : List Filters) → sum_tot (map (reread cols) ws) ≡ sum_tot ws
sum_tot-reread cols [] = refl
sum_tot-reread cols (f ∷ ws) = ap (λ z. f.osel_tot + z) (sum_tot-reread cols ws)

write_osel-reread :
    (cols : Columns) (ws : List Filters) → write_osel (map (reread cols) ws) ≡ write_osel ws
unfolding write_osel
write_osel-reread cols ws = rw (sum_tot-reread cols ws, all_texts-reread cols 0 ws) refl

length-reread : (cols : Columns) (ws : List Filters) → length (map (reread cols) ws) ≡ length ws
length-reread cols [] = refl
length-reread cols (f ∷ ws) = ap suc (length-reread cols ws)

cleared-reread : (cols : Columns) (ws : List Filters) → cleared (map (reread cols) ws) ≡ cleared ws
cleared-reread cols [] = refl
cleared-reread cols (f ∷ ws) = ap (λ z. filters [] ∷ z) (cleared-reread cols ws)

-- The filters of the windows come back from the configuration file, with the widths that the fields
-- have at reading: for four windows that hold at least one filter, with no text twice in a window, each
-- filter what its text says for some widths of the same fields (each its own), reading what was printed
-- into cleared windows ends at the second delimiter, and leaves the lines behind it. The windows are
-- the same, filter by filter and in order, but that each value is the text behind the delimiter, which
-- `<` and `>` justify to the width at reading.
pub config_osel-write_osel :
    (cols : Columns) (ws : List Filters) (lines : List Bytes)
    → AllSaved cols ws
    → length ws ≡ 4
    → 0 < sum_tot ws
    → config_osel cols before (write_osel ws ++ lines) (cleared ws)
      ≡ (complete, map (reread cols) ws, lines)
config_osel-write_osel cols ws lines s four some_filter =
    let again = map (reread cols) ws in
    ap (λ z. config_osel cols before (z ++ lines) (cleared ws)) (sym (write_osel-reread cols ws))
    ∙ ap (λ z. config_osel cols before (write_osel again ++ lines) z) (sym (cleared-reread cols ws))
    ∙ config_osel_same cols again lines (Restorable-reread cols ws s) (length-reread cols ws ∙ four)
        (subst (λ z. 0 < z) (sym (sum_tot-reread cols ws)) some_filter)
