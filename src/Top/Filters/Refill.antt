-- ===== src/Top/Filters/Refill.antt =====
-- The filters of a window are what their texts say, so that they are restored from the texts.
use yc_360_script.Prelude.{
  ℕ, ◌+◌, ◌≤◌, ◌≡◌, ◌≢◌, refl, sym, ◌∙◌, ap, Bool, true, false, ◌||◌, List, [], ◌∷◌, ◌++◌, Option,
  none, some, ◌==◌, Bytes, bytes_eq_sym, length, length-append, take, take_all, Bool-cases, inl,
  inr, arith,
}
use mathlib.Core.Path.{subst}
use yc_360_script.Prelude.Int.{ℤ}
use yc_360_script.CString.Decimal.{All}
use yc_360_script.Top.Filters.{
  Criterion, Filters, Columns, Result, done, refused, has_raw, build, with_field, with_split,
  insert_filter, osel_add, split_glob, field_of,
}

-- A text of one line that fits the buffer.
abbrev pub Plain : Bytes → Type 0
Plain text = (length text ≤ 255) × All (λ x. x ≢ 10) text

-- The criterion is what its own text says.
abbrev pub Says : Columns → Criterion → Type 0
Says cols c = (c.raw ≢ []) × Plain c.raw × (build cols c.typ c.raw c.raw ≡ done c)

abbrev pub AllSay : Columns → List Criterion → Type 0
AllSay cols [] = Unit
AllSay cols (c ∷ cs) = Says cols c × AllSay cols cs

-- No text stands twice.
abbrev pub Distinct : List Criterion → Type 0
Distinct [] = Unit
Distinct (c ∷ cs) = (has_raw c.raw cs ≡ false) × Distinct cs

pub record IsFaithful (cols : Columns) (f : Filters) : Type 0 where
  pub counted : f.osel_tot ≡ length f.criteria
  pub distinct : Distinct f.criteria
  pub say : AllSay cols f.criteria

pub has_raw-append :
    (raw : Bytes) (cs ds : List Criterion)
    → has_raw raw (cs ++ ds) ≡ (has_raw raw cs || has_raw raw ds)
has_raw-append raw [] ds = refl
has_raw-append raw (c ∷ cs) ds = ground (arith, has_raw-append raw cs ds)

Distinct-append :
    (cs : List Criterion) (c : Criterion)
    → Distinct cs
    → has_raw c.raw cs ≡ false
    → Distinct (cs ++ c ∷ [])
Distinct-append [] c d h = (refl, tt)
Distinct-append (x ∷ cs) c d h =
    let apart = bytes_eq_sym c.raw x.raw in
    (
      has_raw-append x.raw cs (c ∷ []) ∙ ground (arith, d.0, h, apart),
      Distinct-append cs c d.1 (ground (arith, h)),
    )

AllSay-append :
    (cols : Columns) (cs : List Criterion) (c : Criterion)
    → AllSay cols cs
    → Says cols c
    → AllSay cols (cs ++ c ∷ [])
AllSay-append cols [] c a s = (s, tt)
AllSay-append cols (x ∷ cs) c a s = (a.0, AllSay-append cols cs c a.1 s)

-- A criterion keeps its text and its type.
Keeps : ℤ → Bytes → Result Criterion → Type 0
Keeps ch raw (refused r) = Unit
Keeps ch raw (done c) = (c.raw ≡ raw) × (c.typ ≡ ch)

with_field-Keeps :
    (cols : Columns) (ch : ℤ) (raw : Bytes) (inc : Bool) (name : Bytes) (ops : ℕ) (pval : Bytes)
    (o : Option ℕ)
    → Keeps ch raw (with_field cols ch raw inc name ops pval o)
unfolding Keeps
with_field-Keeps cols ch raw inc name ops pval none = tt
with_field-Keeps cols ch raw inc name ops [] (some enu) = tt
with_field-Keeps cols ch raw inc name ops (x ∷ pval) (some enu) = (refl, refl)

with_split-Keeps :
    (cols : Columns) (ch : ℤ) (raw : Bytes) (inc : Bool) (o : Option (Bytes × ℕ × Bytes))
    → Keeps ch raw (with_split cols ch raw inc o)
unfolding Keeps
with_split-Keeps cols ch raw inc none = tt
with_split-Keeps cols ch raw inc (some (name, ops, pval)) =
    with_field-Keeps cols ch raw inc name ops pval (field_of 0 cols.names name)

build-Keeps : (cols : Columns) (ch : ℤ) (raw glob : Bytes) → Keeps ch raw (build cols ch raw glob)
unfolding build
build-Keeps cols ch raw [] = with_split-Keeps cols ch raw true (split_glob [])
build-Keeps cols ch raw (c ∷ glob) = elim (Bool-cases (c == b'!')) [
  | inl no' ↦ rw no' (with_split-Keeps cols ch raw false (split_glob glob))
  | inr yes' ↦ rw yes' (with_split-Keeps cols ch raw true (split_glob (c ∷ glob)))
]

-- What `insert_filter` does with a criterion keeps the window faithful.
AllFaithful : Columns → Result Filters → Type 0
AllFaithful cols (refused r) = Unit
AllFaithful cols (done f) = IsFaithful cols f

insert_filter-AllFaithful :
    (cols : Columns) (ch : ℤ) (glob : Bytes) (push : Bool) (f : Filters) (r : Result Criterion)
    → glob ≢ []
    → Plain glob
    → has_raw glob f.criteria ≡ false
    → build cols ch glob glob ≡ r
    → Keeps ch glob r
    → IsFaithful cols f
    → AllFaithful cols (insert_filter push f r)
unfolding Keeps AllFaithful
insert_filter-AllFaithful cols ch glob push f (refused r) ne short new built keeps ok = tt
insert_filter-AllFaithful cols ch glob push f (done c) ne short new built (same, typ) ok =
    let says : Says cols c = (
      λ e. ne (sym same ∙ e),
      subst Plain (sym same) short,
      ap (λ t. build cols t c.raw c.raw) typ ∙ ap (λ t. build cols ch t t) same ∙ built,
    ) in
    let fresh : has_raw c.raw f.criteria ≡ false = rw same new in
    elim (Bool-cases push) [
      | inl front ↦ rw front (record {
        counted = omega (arith, ok.counted);
        distinct = (fresh, ok.distinct);
        say = (says, ok.say);
      })
      | inr back ↦ rw back (record {
        counted = omega (arith, ok.counted, length-append f.criteria (c ∷ []));
        distinct = Distinct-append f.criteria c ok.distinct fresh;
        say = AllSay-append cols f.criteria c ok.say says;
      })
    ]

osel_add-AllFaithful :
    (cols : Columns) (ch : ℤ) (glob : Bytes) (push : Bool) (f : Filters)
    → Plain glob
    → IsFaithful cols f
    → AllFaithful cols (osel_add cols ch glob push f)
unfolding osel_add AllFaithful
osel_add-AllFaithful cols ch [] push f short ok = ok
osel_add-AllFaithful cols ch (c ∷ glob) push f short ok =
    let whole : take 255 (c ∷ glob) ≡ c ∷ glob = take_all 255 (c ∷ glob) short.0 in
    elim (Bool-cases (has_raw (c ∷ glob) f.criteria)) [
      | inl old ↦ rw (whole, old) tt
      | inr new ↦
          rw (whole, new)
            (insert_filter-AllFaithful cols ch (c ∷ glob) push f
              (build cols ch (c ∷ glob) (c ∷ glob)) (λ e. cc e) short new refl
              (build-Keeps cols ch (c ∷ glob) (c ∷ glob)) ok)
    ]

abbrev pub filters : List Criterion → Filters
filters cs = record { criteria = cs; osel_tot = length cs }

add_text :
    (cols : Columns) (typ : ℤ) (raw : Bytes) (cs : List Criterion) (c : Criterion)
    → raw ≢ []
    → Plain raw
    → build cols typ raw raw ≡ done c
    → has_raw raw cs ≡ false
    → osel_add cols typ raw false (filters cs) ≡ done (filters (cs ++ c ∷ []))
unfolding osel_add
add_text cols typ [] cs c ne short built new = absurd (ne refl)
add_text cols typ (x ∷ raw) cs c ne short built new =
    let whole : take 255 (x ∷ raw) ≡ x ∷ raw = take_all 255 (x ∷ raw) short.0 in
    let size : length cs + 1 ≡ length (cs ++ c ∷ []) = omega (arith, length-append cs (c ∷ [])) in
    rw (whole, new, built, size) refl

-- A criterion that is added at the end from its own text.
pub osel_add-Says :
    (cols : Columns) (cs : List Criterion) (c : Criterion)
    → Says cols c
    → has_raw c.raw cs ≡ false
    → osel_add cols c.typ c.raw false (filters cs) ≡ done (filters (cs ++ c ∷ []))
osel_add-Says cols cs c (ne, short, built) new = add_text cols c.typ c.raw cs c ne short built new
