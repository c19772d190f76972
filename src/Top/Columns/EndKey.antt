-- ===== src/Top/Columns/EndKey.antt =====
-- The END key brings the last columns of a window onto the screen.
use yc_360_script.Prelude.{
  ℕ, zero, suc, ◌+◌, ◌-◌, ◌≤◌, ◌<◌, ◌≡◌, refl, ap, ◌∙◌, Bool, true, false, ◌&&◌, List, [], ◌∷◌,
  ◌==◌, drop, length, Bool-cases, inl, inr, ◌⊎◌, ◌≢◌, arith,
}
use yc_360_script.Top.Columns.{
  Slot, Flag, xon, xof, field, Table, len, drop_xon, flags_of, or_pid, all_flags, take_back,
  fit_back, is_xof, end_flag, lead, calibrate,
}
use yc_360_script.Top.Columns.Back.{room_for, fit_all, Back, fit_back-Back}

-- The last field stands at the end, or in front of its EU_XOF: the last one or two flags.
data Ends : List Flag → ℕ → Type 0 where
  last : (f : ℕ) → Ends (field f ∷ []) 1
  marked : (f : ℕ) → Ends (field f ∷ xof ∷ []) 2
  behind : (g : Flag) {flags : List Flag} {n : ℕ} → Ends flags n → Ends (g ∷ flags) n

Ends-le : {flags : List Flag} {n : ℕ} → Ends flags n → (0 < n) × (n ≤ length flags)
Ends-le (last f) = (omega arith, omega arith)
Ends-le (marked f) = (omega arith, omega arith)
Ends-le (behind g e) = let h = Ends-le e in (h.0, omega (arith, h.1))

-- The flag where these begin is no EU_XOF.
Ends-field :
    {flags : List Flag} {n : ℕ} → Ends flags n → is_xof (drop (length flags - n) flags) ≡ false
Ends-field (last f) = refl
Ends-field (marked f) = refl
Ends-field (behind g {flags} {n} e) =
    let h = Ends-le e in
    let z : suc (length flags) - n ≡ suc (length flags - n) = omega (arith, h.1) in
    rw z (Ends-field e)

take_back-ge : (t : Table) (cols : ℕ) (f : Flag) (b : ℕ × ℕ) → b.0 ≤ (take_back t cols f b).0
take_back-ge t cols xon (k, u) = omega arith
take_back-ge t cols xof (k, u) = omega arith
take_back-ge t cols (field f) (k, u) = ground arith

fit_back-ge :
    (t : Table) (cols used : ℕ) (f : Flag) (flags : List Flag)
    → (fit_back t cols used flags).0 ≤ (fit_back t cols used (f ∷ flags)).0
unfolding fit_back
fit_back-ge t cols used f flags =
    let b = fit_back t cols used flags in
    elim (Bool-cases (b.0 == length flags)) [
      | inl whole ↦ simp whole (take_back-ge t cols f b)
      | inr stopped ↦ simp stopped (omega arith)
    ]

-- Where every field fits the screen by itself, the last one is taken.
fit_back-Ends :
    (t : Table) (cols used : ℕ) {flags : List Flag} {n : ℕ}
    → ((f : ℕ) → used + len t f ≤ cols)
    → Ends flags n
    → n ≤ (fit_back t cols used flags).0
unfolding fit_back
fit_back-Ends t cols used narrow (last f) = let h = narrow f in ground (arith, h)
fit_back-Ends t cols used narrow (marked f) = let h = narrow f in ground (arith, h)
fit_back-Ends t cols used narrow (behind g {flags} {n} e) =
    omega (arith, fit_back-Ends t cols used narrow e, fit_back-ge t cols used g flags)

flags_of-Ends :
    (hicols : Bool) (sortindx : ℕ) (slots : List Slot)
    → (flags_of hicols sortindx slots ≡ []) ⊎ ((n : ℕ) × Ends (flags_of hicols sortindx slots) n)
unfolding flags_of
flags_of-Ends hicols sortindx [] = inl refl
flags_of-Ends hicols sortindx (s ∷ slots) =
    let others = flags_of-Ends hicols sortindx slots in
    elim (Bool-cases s.on) [
      | inr off ↦ simp off others
      | inl on ↦ elim (Bool-cases (hicols && s.enu == sortindx)) [
        | inl here ↦
            simp (on, here)
              (inr (elim others [
                | inl none' ↦ (2, simp none' (behind xon (marked s.enu)))
                | inr (n, e) ↦ (n, behind xon (behind (field s.enu) (behind xof e)))
              ]))
        | inr there ↦
            simp (on, there)
              (inr (elim others [
                | inl none' ↦ (1, simp none' (last s.enu))
                | inr (n, e) ↦ (n, behind (field s.enu) e)
              ]))
      ]
    ]

or_pid-Ends :
    (flags : List Flag) → (flags ≡ []) ⊎ ((n : ℕ) × Ends flags n) → (n : ℕ) × Ends (or_pid flags) n
or_pid-Ends [] h = (1, last 0)
or_pid-Ends (f ∷ flags) (inl e) = cc
or_pid-Ends (f ∷ flags) (inr e) = e

drop_nil : (i : ℕ) → drop {A = Flag} i [] ≡ []
drop_nil zero = refl
drop_nil (suc i) = refl

drop_xon-keep :
    (g : Flag) {flags : List Flag} {n : ℕ}
    → Ends flags n
    → drop_xon flags ≡ flags
    → drop_xon (g ∷ flags) ≡ g ∷ flags
drop_xon-keep xof e h = ap (◌∷◌ xof) h
drop_xon-keep (field f) e h = ap (◌∷◌ (field f)) h
drop_xon-keep xon (last f) h = refl
drop_xon-keep xon (marked f) h = refl
drop_xon-keep xon (behind g e) h = ap (◌∷◌ xon) h

drop_xon-Ends :
    (i : ℕ) {flags : List Flag} {n : ℕ} → Ends flags n → drop_xon (drop i flags) ≡ drop i flags
drop_xon-Ends zero (last f) = refl
drop_xon-Ends (suc i) (last f) = rw (drop_nil i) refl
drop_xon-Ends zero (marked f) = refl
drop_xon-Ends (suc zero) (marked f) = refl
drop_xon-Ends (suc (suc i)) (marked f) = rw (drop_nil i) refl
drop_xon-Ends zero (behind g e) = drop_xon-keep g e (drop_xon-Ends zero e)
drop_xon-Ends (suc i) (behind g e) = drop_xon-Ends i e

drop-xof :
    (t : Table) (i : ℕ) (flags : List Flag)
    → is_xof (drop i flags) ≡ true
    → room_for t (drop (i + 1) flags) ≡ room_for t (drop i flags)
unfolding room_for
drop-xof t zero [] h = cc
drop-xof t zero (xon ∷ flags) h = cc
drop-xof t zero (xof ∷ flags) h = refl
drop-xof t zero (field f ∷ flags) h = cc
drop-xof t (suc i) [] h = cc
drop-xof t (suc i) (g ∷ flags) h =
    let next : suc i + 1 ≡ suc (i + 1) = omega arith in rw next (drop-xof t i flags h)

end_flag-inside :
    (t : Table) (cols used : ℕ) {flags : List Flag} {n : ℕ}
    → ((f : ℕ) → used + len t f ≤ cols)
    → used ≤ cols
    → Ends flags n
    → (end_flag t cols used flags < length flags)
      × (used + room_for t (drop (end_flag t cols used flags) flags) ≤ cols)
unfolding end_flag Back
end_flag-inside t cols used {flags} {n} narrow h e =
    let k = (fit_back t cols used flags).0 in
    let at = length flags - k in
    let (le, sum, fits) = fit_back-Back t cols used flags h in
    let size = Ends-le e in
    let many = fit_back-Ends t cols used narrow e in
    let taken : (k == 0) ≡ false = ground (arith, size.0, many) in
    elim (Bool-cases (is_xof (drop at flags))) [
      | inr plain ↦ simp (taken, plain) (omega (arith, size, many), omega (arith, sum, fits))
      | inl pseudo ↦
          let before : at ≢ length flags - n =
            λ same. cc (pseudo, ap (λ i. is_xof (drop i flags)) same, Ends-field e) in
          let inside : at + 1 < length flags = omega (arith, size, many, before) in
          simp (taken, pseudo) (inside, rw (drop-xof t at flags pseudo) (omega (arith, sum, fits)))
    ]

-- After END, which begins the columns at `endpflg`, all fields from there to the last one are on the
-- screen, and there is at least one, in every window of a screen on which each single field fits.
pub calibrate_end :
    (t : Table) (mode_altscr : Bool) (cols : ℕ) (hicols : Bool) (sortindx begpflg : ℕ)
    (slots : List Slot)
    → ((f : ℕ) → lead mode_altscr + len t f ≤ cols)
    → (let l = calibrate t mode_altscr cols hicols sortindx begpflg slots in
        ((calibrate t mode_altscr cols hicols sortindx l.endpflg slots).procflgs
          ≡ drop l.endpflg l.pflgsall)
        × (l.endpflg < length l.pflgsall))
unfolding calibrate all_flags
calibrate_end t mode_altscr cols hicols sortindx begpflg slots narrow =
    let all = all_flags hicols sortindx slots in
    let (n, e) =
      or_pid-Ends (flags_of hicols sortindx slots) (flags_of-Ends hicols sortindx slots) in
    let first = narrow 0 in
    let inside = end_flag-inside t cols (lead mode_altscr) narrow (omega (arith, first)) e in
    let at = end_flag t cols (lead mode_altscr) all in
    (
      ap drop_xon (fit_all t cols (lead mode_altscr) (drop at all) inside.1) ∙ drop_xon-Ends at e,
      inside.0,
    )
