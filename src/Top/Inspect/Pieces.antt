-- ===== src/Top/Inspect/Pieces.antt =====
-- The starts of rows that are found cut a text into pieces.
use yc_360_script.Prelude.{
  ℕ, suc, ◌+◌, ◌-◌, ◌<◌, ◌≡◌, refl, sym, ap, ◌∙◌, false, List, [], ◌∷◌, ◌++◌, append_assoc,
  append-nil, ◌==◌, if◌then◌else◌, Bytes, length, take, drop, length-append, Bool-cases, inl, inr,
  arith,
}
use yc_360_script.Top.Inspect.{row_starts, last_or, row_text, rows_between}

-- The lines of a text: each ends with a newline, but perhaps the last one.
abbrev pub on_first : ℕ → List Bytes → List Bytes
on_first c [] = (c ∷ []) ∷ []
on_first c (l ∷ ls) = (c ∷ l) ∷ ls

abbrev pub lines : Bytes → List Bytes
lines [] = []
lines (c ∷ text) = if c == 10 then [] ∷ lines text else on_first c (lines text)

-- The pieces of a text behind a piece of a line; the last one may be empty.
pub pieces : Bytes → Bytes → List Bytes
pieces part [] = part ∷ []
pieces part (c ∷ text) = if c == 10 then part ∷ pieces [] text else pieces (part ++ c ∷ []) text

drop-append : (front t : Bytes) → drop (length front) (front ++ t) ≡ t
drop-append [] t = refl
drop-append (c ∷ front) t = drop-append front t

take-append : (part t : Bytes) (n : ℕ) → n ≡ length part → take n (part ++ t) ≡ part
take-append [] t n e = rw e refl
take-append (c ∷ part) t n e = rw e (ap (◌∷◌ c) (take-append part t (length part) refl))

row_text-part :
    (front part t : Bytes) (p q : ℕ)
    → p ≡ length front
    → q ≡ length front + length part + 1
    → row_text (front ++ (part ++ t)) p q ≡ part
row_text-part front part t p q e f =
    let size : q - p - 1 ≡ length part = omega (arith, e, f) in
    rw e (rw (drop-append front (part ++ t)) (take-append part t _ (omega (arith, e, f))))

row_starts-first :
    (beg cur : ℕ) (text : Bytes) → (rest : List ℕ) × (row_starts beg cur text ≡ cur ∷ rest)
unfolding row_starts
row_starts-first beg cur [] = ([], refl)
row_starts-first beg cur (c ∷ text) = elim (Bool-cases (c == 10)) [
  | inl e ↦ (row_starts (beg + 1) (beg + 1) text, simp e refl)
  | inr e ↦ simp e (row_starts-first (beg + 1) cur text)
]

rows_between-next :
    (text : Bytes) (p q : ℕ) (starts more : List ℕ)
    → ((rest : List ℕ) × (starts ≡ q ∷ rest))
    → rows_between text (p ∷ (starts ++ more))
      ≡ row_text text p q ∷ rows_between text (starts ++ more)
rows_between-next text p q starts more (rest, e) = rw e refl

-- The rows from `cur` on, where `part` of the first one was seen.
pub rows_between-pieces :
    (text front part s : Bytes) (beg cur : ℕ)
    → text ≡ front ++ (part ++ s)
    → cur ≡ length front
    → beg ≡ length front + length part
    → rows_between text (row_starts beg cur s ++ (length text + 1) ∷ []) ≡ pieces part s
unfolding row_starts pieces
rows_between-pieces text front part [] beg cur e f g =
    let end : length text + 1 ≡ length front + length part + 1 =
      omega (arith, ap length e, length-append front (part ++ []), length-append part []) in
    ap (λ b. row_text b cur (length text + 1) ∷ []) e
    ∙ ap (λ r. r ∷ []) (row_text-part front part [] cur (length text + 1) f end)
rows_between-pieces text front part (c ∷ s) beg cur e f g = elim (Bool-cases (c == 10)) [
  | inl newline ↦
      let end = length text + 1 in
      let starts = row_starts (beg + 1) (beg + 1) s in
      let here : row_text text cur (beg + 1) ≡ part =
        ap (λ b. row_text b cur (beg + 1)) e
        ∙ row_text-part front part (c ∷ s) cur (beg + 1) f (omega (arith, g)) in
      let front' = front ++ (part ++ c ∷ []) in
      let split : text ≡ front' ++ s =
        e
        ∙ ap (λ z. front ++ z) (sym (append_assoc part (c ∷ []) s))
        ∙ sym (append_assoc front (part ++ c ∷ []) s) in
      let size : beg + 1 ≡ length front' =
        omega (arith, g, length-append front (part ++ c ∷ []), length-append part (c ∷ [])) in
      simp newline (
        rows_between-next text cur (beg + 1) starts (end ∷ [])
          (row_starts-first (beg + 1) (beg + 1) s)
        ∙ ap (λ r. r ∷ rows_between text (starts ++ end ∷ [])) here
        ∙ ap (λ rs. part ∷ rs)
            (rows_between-pieces text front' [] s (beg + 1) (beg + 1) split size
              (omega (arith, size))))
  | inr other ↦ simp other (
      rows_between-pieces text front (part ++ c ∷ []) s (beg + 1) cur
        (e ∙ ap (λ z. front ++ z) (sym (append_assoc part (c ∷ []) s))) f
        (omega (arith, g, length-append part (c ∷ []))))
]

pub length-row_starts :
    (beg cur : ℕ) (part s : Bytes) → length (row_starts beg cur s) ≡ length (pieces part s)
unfolding row_starts pieces
length-row_starts beg cur part [] = refl
length-row_starts beg cur part (c ∷ s) = elim (Bool-cases (c == 10)) [
  | inl e ↦ simp e (ap suc (length-row_starts (beg + 1) (beg + 1) [] s))
  | inr e ↦ simp e (length-row_starts (beg + 1) cur (part ++ c ∷ []) s)
]

pub last_piece : Bytes → Bytes → Bytes
last_piece part [] = part
last_piece part (c ∷ s) = if c == 10 then last_piece [] s else last_piece (part ++ c ∷ []) s

pub last_or-row_starts :
    (d beg cur : ℕ) (part s : Bytes)
    → beg ≡ cur + length part
    → last_or d (row_starts beg cur s) + length (last_piece part s) ≡ beg + length s
unfolding row_starts last_piece
last_or-row_starts d beg cur part [] e = omega (arith, e)
last_or-row_starts d beg cur part (c ∷ s) e = elim (Bool-cases (c == 10)) [
  | inl newline ↦
      simp newline (omega (arith, last_or-row_starts cur (beg + 1) (beg + 1) [] s (omega arith)))
  | inr other ↦ simp other (
      omega (
        arith,
        last_or-row_starts d (beg + 1) cur (part ++ c ∷ []) s
            (omega (arith, e, length-append part (c ∷ []))),
      ))
]

-- A piece in front of lines.
pub prepend : Bytes → List Bytes → List Bytes
prepend [] [] = []
prepend (c ∷ part) [] = (c ∷ part) ∷ []
prepend part (l ∷ ls) = (part ++ l) ∷ ls

pub prepend-nil : (ls : List Bytes) → prepend [] ls ≡ ls
unfolding prepend
prepend-nil [] = refl
prepend-nil (l ∷ ls) = refl

prepend-cons :
    (part : Bytes) (l : Bytes) (ls : List Bytes) → prepend part (l ∷ ls) ≡ (part ++ l) ∷ ls
unfolding prepend
prepend-cons [] l ls = refl
prepend-cons (c ∷ part) l ls = refl

prepend-on_first :
    (part : Bytes) (c : ℕ) (ls : List Bytes)
    → prepend (part ++ c ∷ []) ls ≡ prepend part (on_first c ls)
unfolding prepend
prepend-on_first [] c [] = refl
prepend-on_first [] c (l ∷ ls) = refl
prepend-on_first (x ∷ part) c [] = refl
prepend-on_first (x ∷ part) c (l ∷ ls) = ap (λ z. (x ∷ z) ∷ ls) (append_assoc part (c ∷ []) l)

pieces-some : (part s : Bytes) → 0 < length (pieces part s)
unfolding pieces
pieces-some part [] = omega arith
pieces-some part (c ∷ s) = elim (Bool-cases (c == 10)) [
  | inl e ↦ simp e (omega arith)
  | inr e ↦ simp e (pieces-some (part ++ c ∷ []) s)
]

-- How many pieces are lines.
abbrev pub count_of : Bytes → Bytes → ℕ
count_of part s =
    if length (last_piece part s) == 0 then length (pieces part s) - 1 else length (pieces part s)

pub take-pieces : (part s : Bytes) → take (count_of part s) (pieces part s) ≡ prepend part (lines s)
unfolding pieces last_piece prepend
take-pieces [] [] = refl
take-pieces (c ∷ part) [] =
    let piece : (suc (length part) == 0) ≡ false = ground arith in simp piece refl
take-pieces part (c ∷ s) = elim (Bool-cases (c == 10)) [
  | inl newline ↦
      let count : (if length (last_piece [] s) == 0
            then suc (length (pieces [] s)) - 1
            else suc (length (pieces [] s)))
          ≡ suc (count_of [] s) =
        ground (arith, pieces-some [] s) in
      simp newline (
        ap (λ n. take n (part ∷ pieces [] s)) count
        ∙ ap (λ ls. part ∷ ls) (take-pieces [] s ∙ prepend-nil (lines s))
        ∙ ap (λ z. z ∷ lines s) (sym (append-nil part))
        ∙ sym (prepend-cons part [] (lines s)))
  | inr other ↦ simp other (take-pieces (part ++ c ∷ []) s ∙ prepend-on_first part c (lines s))
]
