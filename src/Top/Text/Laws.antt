-- ===== src/Top/Text/Laws.antt =====
-- The columns of a row are aligned, and times are shown as they are.
use yc_360_script.Prelude.{
  ℕ, zero, suc, ◌+◌, ◌-◌, ◌*◌, ◌/◌, ◌%◌, ◌≤◌, ◌<◌, ◌≡◌, refl, ap, inl, inr, Bool, true, false, ◌&&◌,
  List, [], ◌∷◌, ◌++◌, leb, ◌==◌, Bytes, codes, if◌then◌else◌, length, take, take_all, ◌∙◌, ◌⊎◌,
  length-append, length-take, Bool-cases, arith,
}
use yc_360_script.CString.Numbers.{decimal}
use yc_360_script.Top.Text.{
  screen_max, blanks, pad_left, pad_right, justify_pad, two_digits, first_fit, time_forms,
  centiseconds, scaled_target, time_text, scale_tics,
}

length-blanks : (n : ℕ) → length (blanks n) ≡ n
length-blanks zero = refl
length-blanks (suc n) = ap suc (length-blanks n)

-- What a column holds where it fits the buffer.
abbrev pub padded : Bytes → ℕ → Bool → Bytes
padded str width justr =
    let cut = take width str in
    (if justr then pad_left width cut else pad_right width cut) ++ b' ' ∷ []

length-padded :
    (str : Bytes) (width : ℕ) (justr : Bool) → length (padded str width justr) ≡ width + 1
length-padded str width true = omega (
  arith,
  length-append (pad_left width (take width str)) (b' ' ∷ []),
  length-append (blanks (width - length (take width str))) (take width str),
  length-blanks (width - length (take width str)),
  length-take width str,
)
length-padded str width false = omega (
  arith,
  length-append (pad_right width (take width str)) (b' ' ∷ []),
  length-append (take width str) (blanks (width - length (take width str))),
  length-blanks (width - length (take width str)),
  length-take width str,
)

pub justify_pad-padded :
    (str : Bytes) (width : ℕ) (justr : Bool)
    → width + 1 < screen_max
    → justify_pad str width justr ≡ padded str width justr
unfolding justify_pad
justify_pad-padded str width justr h =
    take_all (screen_max - 1) (padded str width justr)
      (omega (arith, h, length-padded str width justr))

-- Every column has its width and a blank.
length-justify_pad :
    (str : Bytes) (width : ℕ) (justr : Bool)
    → width + 1 < screen_max
    → length (justify_pad str width justr) ≡ width + 1
length-justify_pad str width justr h =
    ap length (justify_pad-padded str width justr h) ∙ length-padded str width justr

-- The ways to write a number of hundredths of a second: in minutes, hours, days and weeks, and the
-- rest, which a coarser unit leaves out, is less than that unit. A text is "?" only if not even the
-- number of weeks fits the column, or a coarser unit is asked for.
pub data Shows (zero_suppress : Bool) (target nt width : ℕ) : Bytes → Type 0 where
  nothing : zero_suppress ≡ true → nt ≡ 0 → Shows zero_suppress target nt width []
  unknown :
      (6 < target) ⊎ (width < length (decimal (nt / 60480000) ++ codes "w"))
      → Shows zero_suppress target nt width (codes "?")
  hundredths :
      (m s c : ℕ)
      → nt ≡ (m * 60 + s) * 100 + c
      → s < 60
      → c < 100
      → Shows zero_suppress target nt width
          (decimal m ++ (b':' ∷ (two_digits s ++ (b'.' ∷ two_digits c))))
  seconds :
      (m s rest : ℕ)
      → nt ≡ (m * 60 + s) * 100 + rest
      → s < 60
      → rest < 100
      → Shows zero_suppress target nt width (decimal m ++ (b':' ∷ two_digits s))
  minutes :
      (h m rest : ℕ)
      → nt ≡ (h * 60 + m) * 6000 + rest
      → m < 60
      → rest < 6000
      → Shows zero_suppress target nt width (decimal h ++ (b',' ∷ two_digits m))
  hours :
      (d h rest : ℕ)
      → nt ≡ (d * 24 + h) * 360000 + rest
      → h < 24
      → rest < 360000
      → Shows zero_suppress target nt width (decimal d ++ (codes "d+" ++ (decimal h ++ codes "h")))
  days :
      (d rest : ℕ)
      → nt ≡ d * 8640000 + rest
      → rest < 8640000
      → Shows zero_suppress target nt width (decimal d ++ codes "d")
  weekdays :
      (w d rest : ℕ)
      → nt ≡ (w * 7 + d) * 8640000 + rest
      → d < 7
      → rest < 8640000
      → Shows zero_suppress target nt width (decimal w ++ (codes "w+" ++ (decimal d ++ codes "d")))
  weeks :
      (w rest : ℕ)
      → nt ≡ w * 60480000 + rest
      → rest < 60480000
      → Shows zero_suppress target nt width (decimal w ++ codes "w")

AllShow : Bool → ℕ → ℕ → ℕ → List (Bool × Bytes) → Type 0
AllShow z target nt width [] = Unit
AllShow z target nt width ((b, text) ∷ rest) =
    Shows z target nt width text × AllShow z target nt width rest

-- The forms but for the last one, the number of weeks.
long_forms : ℕ → ℕ → List (Bool × Bytes)
long_forms target nt = take 6 (time_forms target nt)

long_forms-AllShow :
    (z : Bool) (target nt width : ℕ) → AllShow z target nt width (long_forms target nt)
unfolding AllShow long_forms
long_forms-AllShow z target nt width =
    let secs = nt / 100 in
    let mins = secs / 60 in
    let hour = mins / 60 in
    let day = hour / 24 in
    let hour_rest = nt % 6000 in
    let day_rest = nt % 8640000 in
    (
      hundredths mins (secs % 60) (nt % 100) (omega arith) (omega arith) (omega arith),
      (
        seconds mins (secs % 60) (nt % 100) (omega arith) (omega arith) (omega arith),
        (
          minutes hour (mins % 60) hour_rest (omega arith) (omega arith) (omega arith),
          (
            hours day (hour % 24) (nt % 360000) (omega arith) (omega arith) (omega arith),
            (
              days day day_rest (omega arith) (omega arith),
              (weekdays (day / 7) (day % 7) day_rest (omega arith) (omega arith) (omega arith), tt),
            ),
          ),
        ),
      ),
    )

first_fit-Shows :
    (z : Bool) (target nt width : ℕ) (forms : List (Bool × Bytes)) (b : Bool) (text : Bytes)
    → AllShow z target nt width forms
    → Shows z target nt width text
    → ((b && leb (length text) width) ≡ false → Shows z target nt width (codes "?"))
    → Shows z target nt width (first_fit width (forms ++ (b, text) ∷ []))
unfolding first_fit AllShow
first_fit-Shows z target nt width [] b text a last fail =
    elim (Bool-cases (b && leb (length text) width)) [
      | inl fits ↦ rw fits last
      | inr other ↦ rw other (fail other)
    ]
first_fit-Shows z target nt width ((c, first) ∷ rest) b text a last fail =
    elim (Bool-cases (c && leb (length first) width)) [
      | inl fits ↦ rw fits a.0
      | inr other ↦ rw other (first_fit-Shows z target nt width rest b text a.1 last fail)
    ]

first_fit-le :
    (width : ℕ) (forms : List (Bool × Bytes)) → 0 < width → length (first_fit width forms) ≤ width
unfolding first_fit
first_fit-le width [] h = omega arith
first_fit-le width ((b, text) ∷ rest) h = ground (arith, first_fit-le width rest h)

weeks_of : (nt : ℕ) → nt / 100 / 60 / 60 / 24 / 7 ≡ nt / 60480000
weeks_of nt = omega arith

forms-Shows :
    (z : Bool) (target nt width : ℕ)
    → Shows z target nt width (first_fit width (time_forms target nt))
unfolding long_forms
forms-Shows z target nt width =
    let text = decimal (nt / 100 / 60 / 60 / 24 / 7) ++ codes "w" in
    first_fit-Shows z target nt width (long_forms target nt) (leb target 6) text
      (long_forms-AllShow z target nt width)
      (weeks (nt / 100 / 60 / 60 / 24 / 7) (nt % 60480000) (omega arith) (omega arith))
      (λ other.
        let same = ap (λ w. length (decimal w ++ codes "w")) (weeks_of nt) in
        unknown (ground (arith, other, same)))

time_text-Shows :
    (z : Bool) (scaled hertz tics width target : ℕ)
    → Shows z
        (scaled_target scaled target)
        (centiseconds hertz tics)
        width
        (time_text z scaled hertz tics width target)
unfolding time_text
time_text-Shows z scaled hertz tics width target =
    let nt = centiseconds hertz tics in
    elim (Bool-cases (z && nt == 0)) [
      | inl hides ↦ rw hides (nothing (ground (arith, hides)) (ground (arith, hides)))
      | inr shows ↦ rw shows (forms-Shows z (scaled_target scaled target) nt width)
    ]

time_text-le :
    (z : Bool) (scaled hertz tics width target : ℕ)
    → 0 < width
    → length (time_text z scaled hertz tics width target) ≤ width
unfolding time_text
time_text-le z scaled hertz tics width target h =
    let nt = centiseconds hertz tics in
    elim (Bool-cases (z && nt == 0)) [
      | inl hides ↦ rw hides (omega arith)
      | inr shows ↦ rw shows (first_fit-le width (time_forms (scaled_target scaled target) nt) h)
    ]

-- In a column of at least one place, which fits the buffer, `scale_tics` shows the time truly: its text
-- fits the column, which is filled to its width and a blank, and is a way to write the hundredths of a
-- second in which what is left out is less than the smallest unit that is shown. It is nothing only for
-- a time of 0 where zeros are suppressed, and "?" only where the number of weeks does not fit either or
-- the target is no unit.
pub scale_tics-Shows :
    (zero_suppress : Bool) (tics_scaled hertz tics width : ℕ) (justr : Bool) (target : ℕ)
    → 0 < width
    → width + 1 < screen_max
    → (text : Bytes) × Shows zero_suppress
        (scaled_target tics_scaled target)
        (centiseconds hertz tics)
        width
        text
      × (length text ≤ width)
      × (scale_tics zero_suppress tics_scaled hertz tics width justr target
          ≡ padded text width justr)
      × (length (scale_tics zero_suppress tics_scaled hertz tics width justr target) ≡ width + 1)
unfolding scale_tics
scale_tics-Shows z scaled hertz tics width justr target h fits =
    let text = time_text z scaled hertz tics width target in
    (
      text,
      time_text-Shows z scaled hertz tics width target,
      time_text-le z scaled hertz tics width target h,
      justify_pad-padded text width justr fits,
      length-justify_pad text width justr fits,
    )
