-- ===== src/Top/Columns/Keys/Landing.antt =====
-- The backward loop of calibrate_fields stops where a column begins.
use yc_360_script.Prelude.{
  ℕ, suc, ◌+◌, ◌-◌, ◌≤◌, ◌≡◌, ◌≢◌, refl, true, false, List, [], ◌∷◌, ltb, ◌==◌, drop, length,
  Bool-cases, inl, inr, ◌⊎◌, arith,
}
use yc_360_script.Top.Columns.{
  Flag, xon, xof, field, Table, len, take_back, fit_back, is_xof, end_flag,
}
use yc_360_script.Top.Columns.Keys.{is_mark}
use yc_360_script.Top.Columns.Keys.Starts.{
  Shaped, no_flags, plain, marked, Starts, here, behind_plain, behind_marked,
}

-- A place from which columns are shown: a column begins there, or behind an EU_XOF there.
Landing : List Flag → ℕ → Type 0
Landing flags i =
    ((is_xof (drop i flags) ≡ false) × Starts flags i)
    ⊎ ((is_xof (drop i flags) ≡ true) × Starts flags (suc i))

Landing-plain :
    (f : ℕ) (flags : List Flag) (i : ℕ) → Landing flags i → Landing (field f ∷ flags) (suc i)
unfolding Landing
Landing-plain f flags i (inl (e, s)) = inl (e, behind_plain f s)
Landing-plain f flags i (inr (e, s)) = inr (e, behind_plain f s)

Landing-marked :
    (f : ℕ) (flags : List Flag) (i : ℕ)
    → Landing flags i
    → Landing (xon ∷ field f ∷ xof ∷ flags) (suc (suc (suc i)))
unfolding Landing
Landing-marked f flags i (inl (e, s)) = inl (e, behind_marked f s)
Landing-marked f flags i (inr (e, s)) = inr (e, behind_marked f s)

Shaped-first : {flags : List Flag} → Shaped flags → is_xof flags ≡ false
Shaped-first no_flags = refl
Shaped-first (plain f s) = refl
Shaped-first (marked f s) = refl

-- One round of the backward loop: it takes the flag, or it has ended, and it takes each mark.
Round : Flag → List Flag → ℕ → ℕ → Type 0
Round g flags k k' =
    ((k ≡ length flags) × (k' ≡ suc k))
    ⊎ ((k' ≡ k) × ((k ≡ length flags) → is_mark (g ∷ []) ≡ false))

take_back-Round :
    (t : Table) (cols : ℕ) (g : Flag) (flags : List Flag) (b : ℕ × ℕ)
    → b.0 ≡ length flags
    → Round g flags b.0 (take_back t cols g b).0
unfolding Round
take_back-Round t cols xon flags (k, u) h = inl (h, refl)
take_back-Round t cols xof flags (k, u) h = inl (h, refl)
take_back-Round t cols (field f) flags (k, u) h = elim (Bool-cases (ltb cols (u + len t f))) [
  | inl full ↦ simp full (inr (refl, λ _. refl))
  | inr room ↦ simp room (inl (h, refl))
]

fit_back-Round :
    (t : Table) (cols used : ℕ) (g : Flag) (flags : List Flag)
    → Round g flags (fit_back t cols used flags).0 (fit_back t cols used (g ∷ flags)).0
unfolding fit_back Round
fit_back-Round t cols used g flags =
    let b = fit_back t cols used flags in
    elim (Bool-cases (b.0 == length flags)) [
      | inl whole ↦ simp whole (take_back-Round t cols g flags b (ground (arith, whole)))
      | inr ended ↦ simp ended (inr (refl, λ e. absurd (ground (arith, ended, e))))
    ]

Round-mark :
    (g : Flag) (flags : List Flag) (k k' : ℕ)
    → is_mark (g ∷ []) ≡ true
    → Round g flags k k'
    → ((k ≡ length flags) × (k' ≡ suc k)) ⊎ ((k' ≡ k) × (k ≢ length flags))
unfolding Round
Round-mark g flags k k' m (inl r) = inl r
Round-mark g flags k k' m (inr (e, other)) = inr (e, λ h. cc (m, other h))

Landing-at : (flags : List Flag) (i j : ℕ) → i ≡ j → Landing flags j → Landing flags i
Landing-at flags i j e l = rw e l

plain-Landing :
    (f : ℕ) (flags : List Flag) (k k' : ℕ)
    → k ≤ length flags
    → Landing flags (length flags - k)
    → Round (field f) flags k k'
    → (k' ≤ suc (length flags)) × Landing (field f ∷ flags) (suc (length flags) - k')
unfolding Round Landing
plain-Landing f flags k k' le l (inl (whole, e)) = (
  omega (arith, e, le),
  Landing-at (field f ∷ flags) (suc (length flags) - k') 0 (omega (arith, whole, e))
      (inl (refl, here)),
)
plain-Landing f flags k k' le l (inr (e, other)) = (
  omega (arith, e, le),
  Landing-at (field f ∷ flags) (suc (length flags) - k') (suc (length flags - k))
      (omega (arith, e, le)) (Landing-plain f flags (length flags - k) l),
)

marked-Landing :
    (f : ℕ) (flags : List Flag) (k k1 k2 k3 : ℕ)
    → k ≤ length flags
    → Landing flags (length flags - k)
    → ((k ≡ length flags) × (k1 ≡ suc k)) ⊎ ((k1 ≡ k) × (k ≢ length flags))
    → Round (field f) (xof ∷ flags) k1 k2
    → ((k2 ≡ suc (suc (length flags))) × (k3 ≡ suc k2))
      ⊎ ((k3 ≡ k2) × (k2 ≢ suc (suc (length flags))))
    → (k3 ≤ suc (suc (suc (length flags))))
      × Landing (xon ∷ field f ∷ xof ∷ flags) (suc (suc (suc (length flags))) - k3)
unfolding Round Landing
marked-Landing f flags k k1 k2 k3 le l a b (inl (whole, e)) = (
  omega (arith, e, whole),
  Landing-at (xon ∷ field f ∷ xof ∷ flags) _ 0 (omega (arith, whole, e)) (inl (refl, here)),
)
marked-Landing f flags k k1 k2 k3 le l (inl (all, a)) (inl (whole, b)) (inr (e, other)) =
    absurd (other (omega (arith, all, a, b)))
marked-Landing f flags k k1 k2 k3 le l (inl (all, a)) (inr (b, _)) (inr (e, other)) = (
  omega (arith, all, a, b, e),
  Landing-at (xon ∷ field f ∷ xof ∷ flags) _ 2 (omega (arith, all, a, b, e))
      (inr (refl, behind_marked f here)),
)
marked-Landing f flags k k1 k2 k3 le l (inr (a, some')) (inl (whole, b)) (inr (e, other)) =
    absurd (omega (arith, a, le, whole))
marked-Landing f flags k k1 k2 k3 le l (inr (a, some')) (inr (b, _)) (inr (e, other)) = (
  omega (arith, a, b, e, le),
  Landing-at (xon ∷ field f ∷ xof ∷ flags) _ (suc (suc (suc (length flags - k))))
      (omega (arith, a, b, e, le)) (Landing-marked f flags (length flags - k) l),
)

fit_back-nil : (t : Table) (cols used : ℕ) → (fit_back t cols used []).0 ≡ 0
unfolding fit_back
fit_back-nil t cols used = refl

fit_back-Landing :
    (t : Table) (cols used : ℕ) {flags : List Flag}
    → Shaped flags
    → ((fit_back t cols used flags).0 ≤ length flags)
      × Landing flags (length flags - (fit_back t cols used flags).0)
unfolding Landing
fit_back-Landing t cols used no_flags =
    let e = fit_back-nil t cols used in
    (omega (arith, e), Landing-at [] _ 0 (omega (arith, e)) (inl (refl, here)))
fit_back-Landing t cols used (plain f {flags} s) =
    let (le, l) = fit_back-Landing t cols used s in
    plain-Landing f flags (fit_back t cols used flags).0 (fit_back t cols used (field f ∷ flags)).0
      le l (fit_back-Round t cols used (field f) flags)
fit_back-Landing t cols used (marked f {flags} s) =
    let (le, l) = fit_back-Landing t cols used s in
    let k = (fit_back t cols used flags).0 in
    let k1 = (fit_back t cols used (xof ∷ flags)).0 in
    let k2 = (fit_back t cols used (field f ∷ xof ∷ flags)).0 in
    let k3 = (fit_back t cols used (xon ∷ field f ∷ xof ∷ flags)).0 in
    marked-Landing f flags k k1 k2 k3 le l
      (Round-mark xof flags k k1 refl (fit_back-Round t cols used xof flags))
      (fit_back-Round t cols used (field f) (xof ∷ flags))
      (Round-mark xon (field f ∷ xof ∷ flags) k2 k3 refl
        (fit_back-Round t cols used xon (field f ∷ xof ∷ flags)))

pub end_flag-Starts :
    (t : Table) (cols used : ℕ) {flags : List Flag}
    → Shaped flags
    → Starts flags (end_flag t cols used flags)
unfolding end_flag Landing
end_flag-Starts t cols used {flags} s =
    let k = (fit_back t cols used flags).0 in
    elim (Bool-cases (k == 0)) [
      | inl none' ↦ simp (none', Shaped-first s) here
      | inr some' ↦
          let next : length flags - k + 1 ≡ suc (length flags - k) = omega arith in
          elim (fit_back-Landing t cols used s).1 [
            | inl (e, st) ↦ simp (some', e) st
            | inr (e, st) ↦ simp (some', e) (rw next st)
          ]
    ]
