-- ===== src/Top/Scroll/Scans.antt =====
-- What the scans of `window_hlp` find.
use yc_360_script.Prelude.{
  ℕ, zero, suc, ◌+◌, ◌≤◌, ◌<◌, ◌≡◌, refl, Bool, true, false, Option, none, some, ltb, ◌==◌,
  Bool-cases, inl, inr, ◌⊎◌, arith,
}
use yc_360_script.Top.Scroll.{forward, backward, sees}

-- No row from `a` on and below `b` is visible.
abbrev pub Dark : (ℕ → Bool) → ℕ → ℕ → Type 0
Dark sees a b = (j : ℕ) → a ≤ j → j < b → sees j ≡ false

-- What the forward scan over the rows up to `b` says.
abbrev pub Found : (ℕ → Bool) → ℕ → ℕ → Option ℕ → Type 0
Found sees a b none = Dark sees a b
Found sees a b (some k) = (a ≤ k) × (k < b) × (sees k ≡ true) × Dark sees a k

Dark-first : (sees : ℕ → Bool) (a b : ℕ) → sees a ≡ false → Dark sees (a + 1) b → Dark sees a b
Dark-first sees a b h d j l m = elim (Bool-cases (a == j)) [
  | inl e ↦ let same : j ≡ a = ground (arith, e) in rw same h
  | inr e ↦ d j (ground (arith, e)) m
]

pub Dark-join : (sees : ℕ → Bool) (a b c : ℕ) → Dark sees a b → Dark sees b c → Dark sees a c
Dark-join sees a b c d e j l m = elim (Bool-cases (ltb j b)) [
  | inl h ↦ d j l (ground (arith, h))
  | inr h ↦ e j (ground (arith, h)) m
]

pub Dark-none : (sees : ℕ → Bool) (a b : ℕ) → b ≤ a → Dark sees a b
Dark-none sees a b h j l m = ground arith

Found-first :
    (sees : ℕ → Bool) (a b : ℕ) (o : Option ℕ)
    → sees a ≡ false
    → Found sees (a + 1) b o
    → Found sees a b o
Found-first sees a b none h f = Dark-first sees a b h f
Found-first sees a b (some k) h (le, lt, seen, dark) =
    (omega (arith, le), lt, seen, Dark-first sees a k h dark)

pub forward-Found : (sees : ℕ → Bool) (a b n : ℕ) → b ≡ a + n → Found sees a b (forward sees a n)
unfolding forward
forward-Found sees a b zero e = Dark-none sees a b (omega arith)
forward-Found sees a b (suc n) e = elim (Bool-cases (sees a)) [
  | inl h ↦ rw h (omega arith, omega arith, h, Dark-none sees a a (omega arith))
  | inr h ↦ rw h (
      Found-first sees a b (forward sees (a + 1) n) h
        (forward-Found sees (a + 1) b n (omega (arith, e))))
]

-- What the backward scan from row `b` says: it stops at the last visible row, or at the first row.
abbrev pub Fallen : (ℕ → Bool) → ℕ → ℕ → ℕ → Type 0
Fallen sees beg b k =
    (beg ≤ k) × (k ≤ b) × Dark sees (k + 1) (b + 1) × ((sees k ≡ true) ⊎ (k ≡ beg))

pub backward-Fallen :
    (sees : ℕ → Bool) (beg b n : ℕ) → b ≡ beg + n → Fallen sees beg b (backward sees beg n)
unfolding backward
backward-Fallen sees beg b zero e =
    (omega arith, omega (arith, e), Dark-none sees (beg + 1) (b + 1) (omega (arith, e)), inr refl)
backward-Fallen sees beg b (suc n) e = elim (Bool-cases (sees (beg + suc n))) [
  | inl h ↦ rw h (
    omega arith,
    omega (arith, e),
    Dark-none sees (beg + suc n + 1) (b + 1) (omega (arith, e)),
    inl h,
  )
  | inr h ↦
      let (lo, hi, dark, end) = backward-Fallen sees beg (beg + n) n refl in
      let k = backward sees beg n in
      rw h (
        lo,
        omega (arith, hi, e),
        Dark-join sees (k + 1) (beg + n + 1) (b + 1) dark
            (λ j l m. let same : j ≡ beg + suc n = omega (arith, e) in rw same h),
        end,
      )
]
