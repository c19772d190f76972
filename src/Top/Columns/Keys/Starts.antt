-- ===== src/Top/Columns/Keys/Starts.antt =====
-- Scrolling stops where a column begins.
use yc_360_script.Prelude.{
  ℕ, zero, suc, ◌+◌, ◌-◌, ◌≤◌, ◌<◌, ◌≡◌, refl, ap, Bool, true, false, ◌&&◌, List, [], ◌∷◌, ltb,
  ◌==◌, drop, length, Bool-cases, inl, inr, ◌⊎◌, arith,
}
use yc_360_script.Top.Columns.{Slot, Flag, xon, xof, field, flags_of, or_pid, all_flags}
use yc_360_script.Top.Columns.Keys.{is_mark, column_left, column_right}

-- Columns, of which a sort column stands between its marks.
pub data Shaped : List Flag → Type 0 where
  no_flags : Shaped []
  plain : (f : ℕ) {flags : List Flag} → Shaped flags → Shaped (field f ∷ flags)
  marked : (f : ℕ) {flags : List Flag} → Shaped flags → Shaped (xon ∷ field f ∷ xof ∷ flags)

-- The places where a column begins, and the end.
pub data Starts : List Flag → ℕ → Type 0 where
  here : {flags : List Flag} → Starts flags 0
  behind_plain :
      (f : ℕ) {flags : List Flag} {n : ℕ} → Starts flags n → Starts (field f ∷ flags) (suc n)
  behind_marked :
      (f : ℕ) {flags : List Flag} {n : ℕ}
      → Starts flags n
      → Starts (xon ∷ field f ∷ xof ∷ flags) (suc (suc (suc n)))

flags_of-Shaped :
    (hicols : Bool) (sortindx : ℕ) (slots : List Slot) → Shaped (flags_of hicols sortindx slots)
unfolding flags_of
flags_of-Shaped hicols sortindx [] = no_flags
flags_of-Shaped hicols sortindx (s ∷ slots) =
    let rest = flags_of-Shaped hicols sortindx slots in
    elim (Bool-cases s.on) [
      | inl on ↦ elim (Bool-cases (hicols && s.enu == sortindx)) [
        | inl sorted ↦ simp (on, sorted) (marked s.enu rest)
        | inr other ↦ simp (on, other) (plain s.enu rest)
      ]
      | inr off ↦ simp off rest
    ]

or_pid-Shaped : (flags : List Flag) → Shaped flags → Shaped (or_pid flags)
or_pid-Shaped [] s = plain 0 no_flags
or_pid-Shaped (f ∷ flags) s = s

pub all_flags-Shaped :
    (hicols : Bool) (sortindx : ℕ) (slots : List Slot) → Shaped (all_flags hicols sortindx slots)
unfolding all_flags
all_flags-Shaped hicols sortindx slots =
    or_pid-Shaped (flags_of hicols sortindx slots) (flags_of-Shaped hicols sortindx slots)

-- What stands in front of a place where a column begins.
Before : List Flag → ℕ → Type 0
Before flags zero = Unit
Before flags (suc n) =
    ((is_mark (drop n flags) ≡ false) × Starts flags n)
    ⊎ ((is_mark (drop n flags) ≡ true) × ((m : ℕ) × (n ≡ suc (suc m)) × Starts flags m))

before : {flags : List Flag} {b : ℕ} → Starts flags b → Before flags b
unfolding Before
before here = tt
before (behind_plain f {n = zero} st) = inl (refl, here)
before (behind_plain f {n = suc n} st) = elim (before st) [
  | inl (e, s) ↦ inl (e, behind_plain f s)
  | inr (e, (m, h, s)) ↦ inr (e, (suc m, ap suc h, behind_plain f s))
]
before (behind_marked f {n = zero} st) = inr (refl, (0, refl, here))
before (behind_marked f {n = suc n} st) = elim (before st) [
  | inl (e, s) ↦ inl (e, behind_marked f s)
  | inr (e, (m, h, s)) ↦
      inr (e, (suc (suc (suc m)), ap (λ k. suc (suc (suc k))) h, behind_marked f s))
]

pub column_left-Starts :
    (flags : List Flag) (b : ℕ)
    → Starts flags b
    → Starts flags (column_left flags b) × (column_left flags b ≤ b)
unfolding column_left Before
column_left-Starts flags zero st = (here, omega arith)
column_left-Starts flags (suc n) st =
    let some' : ltb 0 (suc n) ≡ true = ground arith in
    let one : suc n - 1 ≡ n = omega arith in
    elim (before st) [
      | inl (e, s) ↦ simp (some', one, e) (s, omega arith)
      | inr (e, (m, h, s)) ↦
          let three : n - 2 ≡ m = omega (arith, h) in
          simp (some', one, e, three) (s, omega (arith, h))
    ]

-- What stands behind it.
After : List Flag → ℕ → Type 0
After flags b =
    ((is_mark (drop b flags) ≡ false) × Starts flags (suc b))
    ⊎ ((is_mark (drop b flags) ≡ true) × Starts flags (suc (suc (suc b))))

after :
    {flags : List Flag} {b : ℕ} → Shaped flags → Starts flags b → b < length flags → After flags b
unfolding After
after no_flags here h = absurd (omega (arith, h))
after (plain f s) here h = inl (refl, behind_plain f here)
after (marked f s) here h = inr (refl, behind_marked f here)
after (plain f s) (behind_plain _ st) h = elim (after s st (omega (arith, h))) [
  | inl (e, s') ↦ inl (e, behind_plain f s')
  | inr (e, s') ↦ inr (e, behind_plain f s')
]
after (marked f s) (behind_marked _ st) h = elim (after s st (omega (arith, h))) [
  | inl (e, s') ↦ inl (e, behind_marked f s')
  | inr (e, s') ↦ inr (e, behind_marked f s')
]

pub column_right-Starts :
    (flags : List Flag) (b : ℕ)
    → Shaped flags
    → Starts flags b
    → b < length flags
    → Starts flags (column_right flags b) × (column_right flags b < length flags)
unfolding column_right After
column_right-Starts flags b s st h = elim (Bool-cases (ltb (b + 1) (length flags))) [
  | inr last ↦ simp last (st, h)
  | inl more ↦
      let one : b + 1 ≡ suc b = omega arith in
      elim (after s st h) [
        | inl (e, st') ↦ simp (more, e) (rw one st', ground (arith, more))
        | inr (e, st') ↦ elim (Bool-cases (ltb (b + 3) (length flags))) [
          | inr last ↦ simp (more, e, last) (st, h)
          | inl further ↦
              let three : b + 3 ≡ suc (suc (suc b)) = omega arith in
              simp (more, e, further) (rw three st', ground (arith, further))
        ]
      ]
]
