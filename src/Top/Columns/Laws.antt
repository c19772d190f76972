-- ===== src/Top/Columns/Laws.antt =====
-- The columns of a window fit the screen, and no more would.
use yc_360_script.Prelude.{
  ℕ, ◌+◌, ◌-◌, ◌*◌, ◌≤◌, ◌<◌, ◌≡◌, refl, ap, ◌⊎◌, inl, inr, Bool, List, [], ◌∷◌, ◌++◌, Option, none,
  some, ltb, ◌==◌, drop, Bool-cases, arith,
}
use native.Mathlib.Nat.{suc-mul, zero-mul, mul-div-le}
use yc_360_script.Top.Columns.{
  Slot, Flag, xon, xof, field, Table, len, width_or, Header, with_flag, with_field, empty, fit,
  drop_xon, varcolsz_of, all_flags, lead, calibrate, columns, header_columns,
}

-- What is said of a preliminary header that starts at `used` columns.
record Adds (t : Table) (cols used v : ℕ) (h : Header) : Type 0 where
  fits : h.used ≤ cols
  sum : used + columns t v h.flags + h.varsum ≡ h.used + h.varcolcnt * v

Adds-empty : (t : Table) (cols used v : ℕ) → used ≤ cols → Adds t cols used v (empty used)
unfolding columns
Adds-empty t cols used v h = record { fits = h; sum = omega arith }

Adds-width :
    (t : Table) (cols used v f : ℕ) (h : Header) (w : Option ℕ)
    → t.width f ≡ w
    → Adds t cols (used + len t f) v h
    → Adds t cols used v (with_field t f h)
unfolding columns
Adds-width t cols used v f h none e a =
    let size : len t f ≡ t.heading f + 1 = rw e refl in
    rw e (record { fits = a.fits; sum = rw e (omega (arith, a.sum, size, suc-mul h.varcolcnt v)) })
Adds-width t cols used v f h (some w) e a =
    let size : len t f ≡ w + 1 = rw e refl in
    rw e (record { fits = a.fits; sum = rw e (omega (arith, a.sum, size)) })

-- The columns that the flags take where the variable ones have width `v`.
fit-Adds :
    (t : Table) (cols used v : ℕ) (flags : List Flag)
    → used ≤ cols
    → Adds t cols used v (fit t cols used flags)
unfolding fit columns
fit-Adds t cols used v [] h = Adds-empty t cols used v h
fit-Adds t cols used v (xon ∷ flags) h =
    let a = fit-Adds t cols used v flags h in record { fits = a.fits; sum = a.sum }
fit-Adds t cols used v (xof ∷ flags) h =
    let a = fit-Adds t cols used v flags h in record { fits = a.fits; sum = a.sum }
fit-Adds t cols used v (field f ∷ flags) h = elim (Bool-cases (ltb cols (used + len t f))) [
  | inl full ↦ simp (fit, full) (Adds-empty t cols used v h)
  | inr room ↦
      simp (fit, room)
        (Adds-width t cols used v f (fit t cols (used + len t f) flags) (t.width f) refl
          (fit-Adds t cols (used + len t f) v flags (ground (arith, room))))
]

columns-drop_xon :
    (t : Table) (v : ℕ) (flags : List Flag) → columns t v (drop_xon flags) ≡ columns t v flags
unfolding columns
columns-drop_xon t v [] = refl
columns-drop_xon t v (xon ∷ []) = refl
columns-drop_xon t v (xon ∷ f ∷ flags) = columns-drop_xon t v (f ∷ flags)
columns-drop_xon t v (xof ∷ flags) = columns-drop_xon t v flags
columns-drop_xon t v (field f ∷ flags) =
    ap (λ n. width_or v (t.width f) + 1 + n) (columns-drop_xon t v flags)

-- The variable columns share what the others leave.
varcolsz_of-le :
    (cols : ℕ) (h : Header) → h.varcolcnt * varcolsz_of cols h ≤ h.varsum + (cols - h.used)
unfolding varcolsz_of
varcolsz_of-le cols h = elim (Bool-cases (h.varcolcnt == 0)) [
  | inl none' ↦
      let zero' : h.varcolcnt ≡ 0 = ground (arith, none') in simp (zero', zero-mul) (omega arith)
  | inr some' ↦ simp some' (omega (arith, mul-div-le (h.varsum + (cols - h.used)) h.varcolcnt))
]

-- A flag that was left out would not fit behind the ones that were taken.
abbrev pub Full : Table → ℕ → List Flag → Header → Type 0
Full t cols flags h =
    (h.flags ≡ flags)
    ⊎ ((f : ℕ) × (rest : List Flag) × (flags ≡ h.flags ++ field f ∷ rest)
        × (cols < h.used + len t f))

Full-flag :
    (t : Table) (cols : ℕ) (f : Flag) (flags : List Flag) (h : Header)
    → Full t cols flags h
    → Full t cols (f ∷ flags) (with_flag f h)
Full-flag t cols f flags h (inl e) = inl (ap (◌∷◌ f) e)
Full-flag t cols f flags h (inr (g, rest, e, l)) = inr (g, rest, ap (◌∷◌ f) e, l)

Full-width :
    (t : Table) (cols f : ℕ) (flags : List Flag) (h : Header) (w : Option ℕ)
    → t.width f ≡ w
    → Full t cols flags h
    → Full t cols (field f ∷ flags) (with_field t f h)
Full-width t cols f flags h none e a = rw e (Full-flag t cols (field f) flags h a)
Full-width t cols f flags h (some w) e a = rw e (Full-flag t cols (field f) flags h a)

fit-Full :
    (t : Table) (cols used : ℕ) (flags : List Flag) → Full t cols flags (fit t cols used flags)
unfolding fit
fit-Full t cols used [] = inl refl
fit-Full t cols used (xon ∷ flags) =
    Full-flag t cols xon flags (fit t cols used flags) (fit-Full t cols used flags)
fit-Full t cols used (xof ∷ flags) =
    Full-flag t cols xof flags (fit t cols used flags) (fit-Full t cols used flags)
fit-Full t cols used (field f ∷ flags) = elim (Bool-cases (ltb cols (used + len t f))) [
  | inl full ↦ simp (fit, full) (inr (f, flags, refl, ground (arith, full)))
  | inr room ↦
      simp (fit, room)
        (Full-width t cols f flags (fit t cols (used + len t f) flags) (t.width f) refl
          (fit-Full t cols (used + len t f) flags))
]

-- On a screen with room for the window number that the alternate display shows, the headings of a
-- window, and so its rows, fit: however wide its fields are and wherever its columns begin, the fields
-- that are shown, with the variable ones as wide as they were made, take at most the columns of the
-- screen. The first field that is left out would not fit, even with the variable ones at the widths of
-- their headings.
pub calibrate-fits :
    (t : Table) (mode_altscr : Bool) (cols : ℕ) (hicols : Bool) (sortindx begpflg : ℕ)
    (slots : List Slot)
    → lead mode_altscr ≤ cols
    → (let l = calibrate t mode_altscr cols hicols sortindx begpflg slots in
        let h = fit t cols (lead mode_altscr) (drop begpflg l.pflgsall) in
        (header_columns t mode_altscr l ≤ cols)
        × (l.procflgs ≡ drop_xon h.flags)
        × Full t cols (drop begpflg l.pflgsall) h)
unfolding calibrate header_columns
calibrate-fits t mode_altscr cols hicols sortindx begpflg slots h =
    let flags = drop begpflg (all_flags hicols sortindx slots) in
    let hd = fit t cols (lead mode_altscr) flags in
    let v = varcolsz_of cols hd in
    let a = fit-Adds t cols (lead mode_altscr) v flags h in
    (
      omega (arith, a.sum, a.fits, varcolsz_of-le cols hd, columns-drop_xon t v hd.flags),
      refl,
      fit-Full t cols (lead mode_altscr) flags,
    )
