-- ===== src/Top/Scroll/Nearest.antt =====
-- Scrolling stops at the visible task next to its target.
use yc_360_script.Prelude.{
  ℕ, ◌+◌, ◌-◌, ◌≤◌, ◌<◌, ◌≡◌, refl, Bool, true, false, not, ◌&&◌, Option, none, some, leb, ◌==◌,
  if◌then◌else◌, Bool-cases, inl, inr, ◌⊎◌, arith,
}
use mathlib.Core.Path.{subst}
use yc_360_script.Prelude.Int.{ℤ, pos, negsuc, pos_part, ◌+ℤ◌, ltb_ℤ}
use yc_360_script.Top.Forest.Rows.{Focus}
use yc_360_script.Top.Scroll.{
  top_row, end_row, forward, backward, redux, reached, scan, scan_start, window_hlp, sees,
}
use yc_360_script.Top.Scroll.Scans.{Dark, Found, Dark-none, forward-Found, Fallen, backward-Fallen}

-- The row `k` is the visible one next to `i`: no row between them is visible; it is the first row of
-- the window if none is visible at all.
abbrev pub Settles : (ℕ → Bool) → ℕ → ℕ → ℕ → ℕ → Type 0
Settles sees beg end i k =
    (beg ≤ k)
    × (k < end)
    × Dark sees i k
    × Dark sees (k + 1) (i + 1)
    × ((sees k ≡ true) ⊎ (Dark sees beg end × (k ≡ beg)))

Dark-within : (sees : ℕ → Bool) (a b c d : ℕ) → Dark sees a b → a ≤ c → d ≤ b → Dark sees c d
Dark-within sees a b c d dark l m j n o = dark j (omega arith) (omega arith)

redux-by :
    (sees : ℕ → Bool) (beg end : ℕ) (o : Option ℕ)
    → beg < end
    → Found sees beg end o
    → Settles sees beg end beg (elim o [ some k ↦ k | none ↦ backward sees beg (end - 1 - beg) ])
redux-by sees beg end (some k) h (le, lt, seen, dark) =
    (le, lt, dark, Dark-none sees (k + 1) (beg + 1) (omega arith), inl seen)
redux-by sees beg end none h dark =
    let (lo, hi, none_behind, stop) =
      backward-Fallen sees beg (end - 1) (end - 1 - beg) (omega arith) in
    let k = backward sees beg (end - 1 - beg) in
    (
      lo,
      omega arith,
      Dark-within sees beg end beg k dark (omega arith) (omega arith),
      Dark-none sees (k + 1) (beg + 1) (omega arith),
      elim stop [ inl seen ↦ inl seen | inr first ↦ inr (dark, first) ],
    )

redux-Settles :
    (sees : ℕ → Bool) (beg end : ℕ) → beg < end → Settles sees beg end beg (redux sees beg end beg)
unfolding redux
redux-Settles sees beg end h =
    redux-by sees beg end (forward sees beg (end - beg)) h
      (forward-Found sees beg end (end - beg) (omega arith))

reached-Settles :
    (sees : ℕ → Bool) (beg end i k : ℕ)
    → i < end
    → Fallen sees beg i k
    → Settles sees beg end i (reached sees beg end k)
unfolding reached
reached-Settles sees beg end i k h (lo, hi, dark, stop) =
    elim (Bool-cases (k == beg && not (sees beg))) [
      | inl unseen ↦
          let top : k ≡ beg = ground (arith, unseen) in
          let (le, lt, dark_up, dark_down, seen) = redux-Settles sees beg end (omega arith) in
          let r = redux sees beg end beg in
          rw (unseen, top)
            (
              le,
              lt,
              Dark-within sees beg r i r dark_up (omega arith) (omega arith),
              Dark-within sees (k + 1) (i + 1) (r + 1) (i + 1) dark (omega arith) (omega arith),
              seen,
            )
      | inr fine ↦ rw fine (
        lo,
        omega arith,
        Dark-none sees i k hi,
        dark,
        elim stop [ inl seen ↦ inl seen | inr top ↦ inl (rw top (ground (arith, fine, top))) ],
      )
    ]

ahead-by :
    (sees : ℕ → Bool) (beg end i : ℕ) (o : Option ℕ)
    → beg ≤ i
    → i < end
    → Found sees i end o
    → Settles sees beg end i
        (elim o [ some k ↦ k | none ↦ reached sees beg end (backward sees beg (end - 1 - beg)) ])
ahead-by sees beg end i (some k) g h (le, lt, seen, dark) =
    (omega arith, lt, dark, Dark-none sees (k + 1) (i + 1) (omega arith), inl seen)
ahead-by sees beg end i none g h dark =
    let r = reached sees beg end (backward sees beg (end - 1 - beg)) in
    let (le, lt, up, down, seen) =
      reached-Settles sees beg end (end - 1) (backward sees beg (end - 1 - beg)) (omega arith)
        (backward-Fallen sees beg (end - 1) (end - 1 - beg) (omega arith)) in
    (
      le,
      lt,
      Dark-within sees i end i r dark (omega arith) (omega arith),
      Dark-within sees (r + 1) (end - 1 + 1) (r + 1) (i + 1) down (omega arith) (omega arith),
      seen,
    )

scan-Settles :
    (sees : ℕ → Bool) (beg end : ℕ) (ahead : Bool) (i : ℕ)
    → beg ≤ i
    → i < end
    → Settles sees beg end i (scan sees beg end ahead i)
unfolding scan
scan-Settles sees beg end false i g h =
    reached-Settles sees beg end i (backward sees beg (i - beg)) h
      (backward-Fallen sees beg i (i - beg) (omega arith))
scan-Settles sees beg end true i g h =
    ahead-by sees beg end i (forward sees i (end - i)) g h
      (forward-Found sees i end (end - i) (omega arith))

-- The nearest row of the window.
abbrev pub clamp : ℕ → ℕ → ℤ → ℕ
clamp beg end z =
    if ltb_ℤ z (pos beg) then beg else if ltb_ℤ z (pos end) then pos_part z else end - 1

start-clamp :
    (beg end : ℕ) (z : ℤ) (b : Bool)
    → beg < end
    → let start : Bool × ℕ =
        if not (ltb_ℤ (pos beg) z)
        then (true, beg)
        else (b, (if leb end (pos_part z) then end - 1 else pos_part z)) in
      start.1 ≡ clamp beg end z
start-clamp beg end (pos n) b h = ground arith
start-clamp beg end (negsuc n) b h = ground arith

scan_start-clamp :
    (beg end : ℕ) (begtask begnext : ℤ)
    → beg < end
    → (scan_start beg end begtask begnext).1 ≡ clamp beg end (begtask +ℤ begnext)
unfolding scan_start
scan_start-clamp beg end begtask begnext h =
    start-clamp beg end (begtask +ℤ begnext) (ltb_ℤ (pos 0) begnext) h

clamp-inside : (beg end : ℕ) (z : ℤ) → beg < end → (beg ≤ clamp beg end z) × (clamp beg end z < end)
clamp-inside beg end (pos n) h = (ground arith, ground arith)
clamp-inside beg end (negsuc n) h = (ground arith, ground arith)

-- Scrolling a window that has rows, to the row at `begtask + begnext` or the row of the window nearest
-- to that: the window then begins with a row of its own, no visible task lies between it and the row
-- that was aimed at, and it is visible, unless no task of the window is visible: then it is the first
-- row. The request to scroll is done.
pub window_hlp-Settles :
    (sees : ℕ → Bool) (count : ℕ) (q : Focus)
    → top_row q < end_row count q
    → (k : ℕ) × (window_hlp sees count q ≡ record q { begtask = pos k; begnext = pos 0 })
      × Settles sees
          (top_row q)
          (end_row count q)
          (clamp (top_row q) (end_row count q) (q.begtask +ℤ q.begnext))
          k
unfolding window_hlp
window_hlp-Settles sees count q h =
    let beg = top_row q in
    let end = end_row count q in
    let start = scan_start beg end q.begtask q.begnext in
    let at = scan_start-clamp beg end q.begtask q.begnext h in
    let inside = clamp-inside beg end (q.begtask +ℤ q.begnext) h in
    let k = scan sees beg end start.0 start.1 in
    (
      k,
      refl,
      subst (λ i. Settles sees beg end i k) at
          (scan-Settles sees beg end start.0 start.1 (rw at inside.0) (rw at inside.1)),
    )
