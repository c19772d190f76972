-- ===== src/Top/Columns/Back.antt =====
-- What the backward loop of calibrate_fields takes.
use yc_360_script.Prelude.{
  ℕ, suc, ◌+◌, ◌-◌, ◌≤◌, ◌≡◌, refl, ap, ◌∙◌, false, List, [], ◌∷◌, ltb, ◌==◌, drop, length,
  Bool-cases, inl, inr, arith,
}
use yc_360_script.Top.Columns.{
  Flag, xon, xof, field, Table, len, Header, fit, is_var, with_field, take_back, fit_back,
}

-- The length of flags in the preliminary header.
unfoldable pub room_for : Table → List Flag → ℕ
room_for t [] = 0
room_for t (xon ∷ flags) = room_for t flags
room_for t (xof ∷ flags) = room_for t flags
room_for t (field f ∷ flags) = len t f + room_for t flags

flags-with_field : (t : Table) (f : ℕ) (h : Header) → (with_field t f h).flags ≡ field f ∷ h.flags
flags-with_field t f h = elim (Bool-cases (is_var (t.width f))) [
  | inl e ↦ rw e refl
  | inr e ↦ rw e refl
]

pub fit_all :
    (t : Table) (cols used : ℕ) (flags : List Flag)
    → used + room_for t flags ≤ cols
    → (fit t cols used flags).flags ≡ flags
unfolding fit room_for
fit_all t cols used [] h = refl
fit_all t cols used (xon ∷ flags) h = ap (◌∷◌ xon) (fit_all t cols used flags h)
fit_all t cols used (xof ∷ flags) h = ap (◌∷◌ xof) (fit_all t cols used flags h)
fit_all t cols used (field f ∷ flags) h =
    let room : ltb cols (used + len t f) ≡ false = ground arith in
    let rest = fit_all t cols (used + len t f) flags (omega arith) in
    simp (fit, room)
      (flags-with_field t f (fit t cols (used + len t f) flags) ∙ ap (◌∷◌ (field f)) rest)

-- What the backward loop has taken: the last `k` flags, which fit.
unfoldable pub Back : Table → ℕ → ℕ → List Flag → ℕ × ℕ → Type 0
Back t cols used flags (k, u) =
    (k ≤ length flags) × (u ≡ used + room_for t (drop (length flags - k) flags)) × (u ≤ cols)

Back-skip :
    (t : Table) (cols used : ℕ) (f : Flag) (flags : List Flag) (b : ℕ × ℕ)
    → Back t cols used flags b
    → Back t cols used (f ∷ flags) b
unfolding Back
Back-skip t cols used f flags (k, u) (le, sum, fits) =
    let e : length (f ∷ flags) - k ≡ suc (length flags - k) = omega arith in
    (omega arith, rw e sum, fits)

take_back-Back :
    (t : Table) (cols used : ℕ) (f : Flag) (flags : List Flag) (b : ℕ × ℕ)
    → b.0 ≡ length flags
    → b.1 ≡ used + room_for t (drop (length flags - b.0) flags)
    → b.1 ≤ cols
    → Back t cols used (f ∷ flags) (take_back t cols f b)
unfolding Back room_for
take_back-Back t cols used xon flags (k, u) e sum fits =
    let z : suc (length flags) - suc k ≡ 0 = omega arith in
    let all : length flags - k ≡ 0 = omega arith in
    let sum' : u ≡ used + room_for t flags = rw all at sum in (omega arith, rw z sum', fits)
take_back-Back t cols used xof flags (k, u) e sum fits =
    let z : suc (length flags) - suc k ≡ 0 = omega arith in
    let all : length flags - k ≡ 0 = omega arith in
    let sum' : u ≡ used + room_for t flags = rw all at sum in (omega arith, rw z sum', fits)
take_back-Back t cols used (field f) flags (k, u) e sum fits =
    elim (Bool-cases (ltb cols (u + len t f))) [
      | inl full ↦ simp full (Back-skip t cols used (field f) flags (k, u) (omega arith, sum, fits))
      | inr room ↦
          let z : suc (length flags) - suc k ≡ 0 = omega arith in
          let all : length flags - k ≡ 0 = omega arith in
          let sum' : u ≡ used + room_for t flags = rw all at sum in
          simp room (omega arith, rw z (omega (arith, sum')), ground (arith, room))
    ]

pub fit_back-Back :
    (t : Table) (cols used : ℕ) (flags : List Flag)
    → used ≤ cols
    → Back t cols used flags (fit_back t cols used flags)
unfolding fit_back Back room_for
fit_back-Back t cols used [] h = (omega arith, omega arith, h)
fit_back-Back t cols used (f ∷ flags) h =
    let behind = fit_back t cols used flags in
    let (le, sum, fits) = fit_back-Back t cols used flags h in
    elim (Bool-cases (behind.0 == length flags)) [
      | inl whole ↦
          simp whole (take_back-Back t cols used f flags behind (ground (arith, whole)) sum fits)
      | inr stopped ↦ simp stopped (Back-skip t cols used f flags behind (le, sum, fits))
    ]
