-- ===== src/Top/Filters/File/Restore.antt =====
-- Reading back what was printed restores the filters that are what their texts say at that time.
use yc_360_script.Prelude.{
  ℕ, suc, ◌+◌, ◌≤◌, ◌<◌, ◌≡◌, refl, sym, ◌∙◌, ap, true, false, List, [], ◌∷◌, ◌++◌, append_assoc,
  append-nil, some, ◌==◌, Bytes, bytes_eq_sym, map, length, length-append, ltb, arith,
}
use mathlib.Core.Path.{subst}
use yc_360_script.Prelude.Int.{pos}
use yc_360_script.Top.Filters.{Criterion, Filters, Columns, done, has_raw, osel_add}
use yc_360_script.Top.Filters.Refill.{
  Says, AllSay, Distinct, IsFaithful, filters, has_raw-append, osel_add-Says,
}
use yc_360_script.Top.Filters.File.{
  OselMode, before, at_window, at_filter, to_come, complete, window_at, set_window, next, read_line,
  config_osel, delim_1, delim_2, window_text, filter_text, window_texts, all_texts, sum_tot,
  write_osel,
}
use yc_360_script.Top.Filters.File.Lines.{scan_window-text, window_text-ends, scan_filter-text}

-- The type of a criterion is a character.
abbrev pub AllTyped : List Criterion → Type 0
AllTyped [] = Unit
AllTyped (c ∷ cs) = ((t : ℕ) × (c.typ ≡ pos t)) × AllTyped cs

-- None of the texts stands among the criteria `p`.
abbrev New : List Criterion → List Criterion → Type 0
New p [] = Unit
New p (c ∷ cs) = (has_raw c.raw p ≡ false) × New p cs

New-nil : (cs : List Criterion) → New [] cs
New-nil [] = tt
New-nil (c ∷ cs) = (refl, New-nil cs)

New-append :
    (p : List Criterion) (c : Criterion) (cs : List Criterion)
    → New p cs
    → has_raw c.raw cs ≡ false
    → New (p ++ c ∷ []) cs
New-append p c [] n h = tt
New-append p c (x ∷ cs) n h =
    let apart = bytes_eq_sym c.raw x.raw in
    (
      has_raw-append x.raw p (c ∷ []) ∙ ground (arith, n.0, h, apart),
      New-append p c cs n.1 (ground (arith, h)),
    )

window_at-front :
    (front back : List Filters) (f : Filters)
    → window_at (length front) (front ++ f ∷ back) ≡ some f
window_at-front [] back f = refl
window_at-front (g ∷ front) back f = window_at-front front back f

set_window-front :
    (front back : List Filters) (f g : Filters)
    → set_window (length front) g (front ++ f ∷ back) ≡ front ++ g ∷ back
set_window-front [] back f g = refl
set_window-front (x ∷ front) back f g = ap (◌∷◌ x) (set_window-front front back f g)

config_osel-next :
    (cols : Columns) (mode mode' : OselMode) (buf : Bytes) (lines : List Bytes)
    (ws ws' : List Filters)
    → read_line cols mode buf ws ≡ next mode' ws'
    → config_osel cols mode (buf ∷ lines) ws ≡ config_osel cols mode' lines ws'
unfolding config_osel
config_osel-next cols mode mode' buf lines ws ws' h = rw (config_osel, h) refl

-- One line for a filter.
read_line-filter :
    (cols : Columns) (front back : List Filters) (p : List Criterion) (c : Criterion) (n t : ℕ)
    → Says cols c
    → c.typ ≡ pos t
    → has_raw c.raw p ≡ false
    → read_line cols (at_filter (length front) n) (filter_text c) (front ++ filters p ∷ back)
      ≡ next (to_come (length front) n) (front ++ filters (p ++ c ∷ []) ∷ back)
unfolding read_line
read_line-filter cols front back p c n t s e new =
    let added : osel_add cols (pos t) c.raw false (filters p) ≡ done (filters (p ++ c ∷ [])) =
      ap (λ z. osel_add cols z c.raw false (filters p)) (sym e) ∙ osel_add-Says cols p c s new in
    rw
      (
        scan_filter-text t c e s.1.1,
        window_at-front front back (filters p),
        added,
        set_window-front front back (filters p) (filters (p ++ c ∷ [])),
      )
      refl

read_filters :
    (cols : Columns) (front back : List Filters) (p cs : List Criterion) (lines : List Bytes)
    → AllSay cols cs
    → AllTyped cs
    → Distinct cs
    → New p cs
    → config_osel cols
        (to_come (length front) (length cs))
        (map filter_text cs ++ lines)
        (front ++ filters p ∷ back)
      ≡ config_osel cols at_window lines (front ++ filters (p ++ cs) ∷ back)
read_filters cols front back p [] lines s t d n =
    ap (λ z. config_osel cols at_window lines (front ++ filters z ∷ back)) (sym (append-nil p))
read_filters cols front back p (c ∷ cs) lines s t d n =
    config_osel-next cols (at_filter (length front) (length cs))
      (to_come (length front) (length cs)) (filter_text c) (map filter_text cs ++ lines)
      (front ++ filters p ∷ back) (front ++ filters (p ++ c ∷ []) ∷ back)
      (read_line-filter cols front back p c (length cs) t.0.0 s.0 t.0.1 n.0)
    ∙ read_filters cols front back (p ++ c ∷ []) cs lines s.1 t.1 d.1 (New-append p c cs n.1 d.0)
    ∙ ap (λ z. config_osel cols at_window lines (front ++ filters z ∷ back))
        (append_assoc p (c ∷ []) cs)

read_line-window :
    (cols : Columns) (i n : ℕ) (ws : List Filters)
    → i < 4
    → read_line cols at_window (window_text i n) ws ≡ next (to_come i n) ws
unfolding read_line
read_line-window cols i n ws h =
    let small : ltb i 4 ≡ true = ground arith in
    rw (window_text-ends i n, scan_window-text i n, small) refl

read_window :
    (cols : Columns) (front back : List Filters) (cs : List Criterion) (lines : List Bytes)
    → AllSay cols cs
    → AllTyped cs
    → Distinct cs
    → length front < 4
    → config_osel cols at_window
        (window_texts (length front) (filters cs) ++ lines)
        (front ++ filters [] ∷ back)
      ≡ config_osel cols at_window lines (front ++ filters cs ∷ back)
read_window cols front back [] lines s t d h = refl
read_window cols front back (c ∷ cs) lines s t d h =
    let ws = front ++ filters [] ∷ back in
    config_osel-next cols at_window (at_filter (length front) (length cs))
      (window_text (length front) (length (c ∷ cs))) (map filter_text (c ∷ cs) ++ lines) ws ws
      (read_line-window cols (length front) (length (c ∷ cs)) ws h)
    ∙ read_filters cols front back [] (c ∷ cs) lines s t d (New-nil (c ∷ cs))

-- Windows by their criteria.
AllReady : Columns → List (List Criterion) → Type 0
AllReady cols [] = Unit
AllReady cols (cs ∷ css) = AllSay cols cs × AllTyped cs × Distinct cs × AllReady cols css

abbrev pub cleared {ℓ} : {A : Type ℓ} → List A → List Filters
cleared ws = map (λ f. filters []) ws

read_windows :
    (cols : Columns) (front : List Filters) (css : List (List Criterion)) (lines : List Bytes)
    → AllReady cols css
    → length front + length css ≤ 4
    → config_osel cols at_window
        (all_texts (length front) (map filters css) ++ lines)
        (front ++ cleared css)
      ≡ config_osel cols at_window lines (front ++ map filters css)
unfolding AllReady
read_windows cols front [] lines r h = refl
read_windows cols front (cs ∷ css) lines (say, typed, apart, r) h =
    let rest = all_texts (length front + 1) (map filters css) ++ lines in
    let others : front ++ filters cs ∷ cleared css ≡ (front ++ filters cs ∷ []) ++ cleared css =
      sym (append_assoc front (filters cs ∷ []) (cleared css)) in
    let size : length front + 1 ≡ length (front ++ filters cs ∷ []) =
      omega (arith, length-append front (filters cs ∷ [])) in
    ap (λ z. config_osel cols at_window z (front ++ filters [] ∷ cleared css))
      (append_assoc (window_texts (length front) (filters cs))
        (all_texts (length front + 1) (map filters css)) lines)
    ∙ read_window cols front (cleared css) cs rest say typed apart (omega arith)
    ∙ ap (λ z. config_osel cols at_window rest z) others
    ∙ ap
        (λ n.
          config_osel cols at_window (all_texts n (map filters css) ++ lines)
            ((front ++ filters cs ∷ []) ++ cleared css))
        size
    ∙ read_windows cols (front ++ filters cs ∷ []) css lines r
        (omega (arith, length-append front (filters cs ∷ [])))
    ∙ ap (λ z. config_osel cols at_window lines z)
        (append_assoc front (filters cs ∷ []) (map filters css))

read_end :
    (cols : Columns) (lines : List Bytes) (ws : List Filters)
    → config_osel cols at_window (delim_2 ∷ lines) ws ≡ (complete, ws, lines)
unfolding config_osel read_line
read_end cols lines ws = refl

read_begin :
    (cols : Columns) (lines : List Bytes) (ws : List Filters)
    → config_osel cols before ((10 ∷ []) ∷ delim_1 ∷ lines) ws ≡ config_osel cols at_window lines ws
unfolding config_osel read_line
read_begin cols lines ws = refl

-- Windows whose filters are what their texts say, with characters as types.
abbrev pub Restorable : Columns → List Filters → Type 0
Restorable cols [] = Unit
Restorable cols (f ∷ ws) = IsFaithful cols f × AllTyped f.criteria × Restorable cols ws

abbrev all_criteria : List Filters → List (List Criterion)
all_criteria ws = map (λ (f : Filters). f.criteria) ws

filters-IsFaithful : (cols : Columns) (f : Filters) → IsFaithful cols f → f ≡ filters f.criteria
filters-IsFaithful cols f ok = ap (λ n. record { criteria = f.criteria; osel_tot = n }) ok.counted

Restorable-filters :
    (cols : Columns) (ws : List Filters) → Restorable cols ws → ws ≡ map filters (all_criteria ws)
Restorable-filters cols [] r = refl
Restorable-filters cols (f ∷ ws) (ok, typed, r) =
    ap (λ g. g ∷ ws) (filters-IsFaithful cols f ok)
    ∙ ap (λ z. filters f.criteria ∷ z) (Restorable-filters cols ws r)

Restorable-AllReady :
    (cols : Columns) (ws : List Filters) → Restorable cols ws → AllReady cols (all_criteria ws)
unfolding AllReady
Restorable-AllReady cols [] r = tt
Restorable-AllReady cols (f ∷ ws) (ok, typed, r) =
    (ok.say, typed, ok.distinct, Restorable-AllReady cols ws r)

read_written :
    (cols : Columns) (css : List (List Criterion)) (lines : List Bytes)
    → AllReady cols css
    → length css ≤ 4
    → 0 < sum_tot (map filters css)
    → config_osel cols before (write_osel (map filters css) ++ lines) (cleared css)
      ≡ (complete, map filters css, lines)
unfolding write_osel
read_written cols css lines r h some_filter =
    let saved : (sum_tot (map filters css) == 0) ≡ false = ground (arith, some_filter) in
    let texts = all_texts 0 (map filters css) in
    rw saved (
      read_begin cols ((texts ++ delim_2 ∷ []) ++ lines) (cleared css)
      ∙ ap (λ z. config_osel cols at_window z (cleared css))
          (append_assoc texts (delim_2 ∷ []) lines)
      ∙ read_windows cols [] css (delim_2 ∷ lines) r (omega arith)
      ∙ read_end cols lines (map filters css))

cleared-criteria : (ws : List Filters) → cleared (all_criteria ws) ≡ cleared ws
cleared-criteria [] = refl
cleared-criteria (f ∷ ws) = ap (◌∷◌ (filters [])) (cleared-criteria ws)

length-criteria : (ws : List Filters) → length (all_criteria ws) ≡ length ws
length-criteria [] = refl
length-criteria (f ∷ ws) = ap suc (length-criteria ws)

-- With the widths that are in force at reading.
pub config_osel_same :
    (cols : Columns) (ws : List Filters) (lines : List Bytes)
    → Restorable cols ws
    → length ws ≡ 4
    → 0 < sum_tot ws
    → config_osel cols before (write_osel ws ++ lines) (cleared ws) ≡ (complete, ws, lines)
config_osel_same cols ws lines r four some_filter =
    let css = all_criteria ws in
    let e = Restorable-filters cols ws r in
    let back =
      read_written cols css lines (Restorable-AllReady cols ws r)
        (omega (arith, length-criteria ws)) (subst (λ z. 0 < sum_tot z) e some_filter) in
    ap (λ z. config_osel cols before (write_osel ws ++ lines) z) (sym (cleared-criteria ws))
    ∙ subst
        (λ z. config_osel cols before (write_osel z ++ lines) (cleared css) ≡ (complete, z, lines))
        (sym e) back
