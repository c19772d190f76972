-- ===== src/Top/Columns.antt =====
-- `calibrate_fields` and the column headings of `build_headers`, for one window.
pub mod Laws
pub mod Back
pub mod EndKey
pub mod Keys
use yc_360_script.Prelude.{
  ℕ, zero, suc, ◌+◌, ◌-◌, ◌*◌, ◌/◌, Bool, true, false, ◌&&◌, List, [], ◌∷◌, Option, none, some, ltb,
  leb, ◌==◌, if◌then◌else◌, drop, length,
}

-- An element of `fieldscur`: a field and whether it is on.
pub record Slot : Type 0 where
  pub enu : ℕ
  pub on : Bool

-- A field, or EU_XON and EU_XOF around the sort column.
pub data Flag : Type 0 where
  xon xof : Flag
  field : ℕ → Flag

-- `Fieldstab[f].width`, nothing for VARcol, and the length of `N_col(f)`.
pub record Table : Type 0 where
  pub width : ℕ → Option ℕ
  pub heading : ℕ → ℕ

unfoldable pub flags_of : Bool → ℕ → List Slot → List Flag
flags_of hicols sortindx [] = []
flags_of hicols sortindx (s ∷ slots) =
    let rest = flags_of hicols sortindx slots in
    if s.on
    then (if hicols && s.enu == sortindx
        then xon ∷ field s.enu ∷ xof ∷ rest
        else field s.enu ∷ rest)
    else rest

-- `if (!w->totpflgs)`, with EU_PID.
abbrev pub or_pid : List Flag → List Flag
or_pid [] = field 0 ∷ []
or_pid (f ∷ flags) = f ∷ flags

unfoldable pub all_flags : Bool → ℕ → List Slot → List Flag
all_flags hicols sortindx slots = or_pid (flags_of hicols sortindx slots)

abbrev pub width_or : ℕ → Option ℕ → ℕ
width_or n none = n
width_or n (some w) = w

-- `len`: what a field takes in the preliminary header, with its padding.
abbrev pub len : Table → ℕ → ℕ
len t f = width_or (t.heading f) (t.width f) + 1

abbrev pub is_var : Option ℕ → Bool
is_var none = true
is_var (some w) = false

-- The preliminary header: the flags that fit, its length, and the variable columns, with the sum of
-- their headings.
pub record Header : Type 0 where
  pub flags : List Flag
  pub used : ℕ
  pub varcolcnt : ℕ
  pub varsum : ℕ

abbrev pub with_flag : Flag → Header → Header
with_flag f h = record h { flags = f ∷ h.flags }

abbrev pub with_field : Table → ℕ → Header → Header
with_field t f h =
    if is_var (t.width f)
    then record h {
      flags = field f ∷ h.flags;
      varcolcnt = suc h.varcolcnt;
      varsum = t.heading f + h.varsum;
    }
    else record h { flags = field f ∷ h.flags }

abbrev pub empty : ℕ → Header
empty used = record { flags = []; used = used; varcolcnt = 0; varsum = 0 }

-- The loop from `begpflg` on; the pseudo flags take no room.
unfoldable pub fit : Table → ℕ → ℕ → List Flag → Header
fit t cols used [] = empty used
fit t cols used (xon ∷ flags) = with_flag xon (fit t cols used flags)
fit t cols used (xof ∷ flags) = with_flag xof (fit t cols used flags)
fit t cols used (field f ∷ flags) = elim (ltb cols (used + len t f)) [
  | true ↦ empty used
  | false ↦ with_field t f (fit t cols (used + len t f) flags)
]

-- `if (i >= 1 && EU_XON == w->procflgs[i - 1]) --i;`
abbrev pub drop_xon : List Flag → List Flag
drop_xon [] = []
drop_xon (xon ∷ []) = []
drop_xon (f ∷ flags) = f ∷ drop_xon flags

unfoldable pub varcolsz_of : ℕ → Header → ℕ
varcolsz_of cols h =
    let spare = h.varsum + (cols - h.used) in
    if h.varcolcnt == 0 then spare else spare / h.varcolcnt

-- The loop from the last flag backwards: how many flags it takes and their length. A flag is reached if
-- none behind it has ended the loop.
abbrev pub take_back : Table → ℕ → Flag → ℕ × ℕ → ℕ × ℕ
take_back t cols xon (k, used) = (suc k, used)
take_back t cols xof (k, used) = (suc k, used)
take_back t cols (field f) (k, used) =
    if ltb cols (used + len t f) then (k, used) else (suc k, used + len t f)

unfoldable pub fit_back : Table → ℕ → ℕ → List Flag → ℕ × ℕ
fit_back t cols used [] = (0, used)
fit_back t cols used (f ∷ flags) =
    let behind = fit_back t cols used flags in
    if behind.0 == length flags then take_back t cols f behind else behind

abbrev pub is_xof : List Flag → Bool
is_xof (xof ∷ flags) = true
is_xof _ = false

-- `endpflg`
unfoldable pub end_flag : Table → ℕ → ℕ → List Flag → ℕ
end_flag t cols used flags =
    let taken = (fit_back t cols used flags).0 in
    let at = if taken == 0 then 0 else length flags - taken in
    if is_xof (drop at flags) then at + 1 else at

-- What `calibrate_fields` leaves: `procflgs` up to `maxpflgs`, and the rest.
pub record Layout : Type 0 where
  pub pflgsall : List Flag
  pub procflgs : List Flag
  pub varcolsz : ℕ
  pub endpflg : ℕ

-- A window number takes the first column of the alternate display.
abbrev pub lead : Bool → ℕ
lead mode_altscr = if mode_altscr then 1 else 0

unfoldable pub calibrate : Table → Bool → ℕ → Bool → ℕ → ℕ → List Slot → Layout
calibrate t mode_altscr cols hicols sortindx begpflg slots =
    let all = all_flags hicols sortindx slots in
    let h = fit t cols (lead mode_altscr) (drop begpflg all) in
    record {
      pflgsall = all;
      procflgs = drop_xon h.flags;
      varcolsz = varcolsz_of cols h;
      endpflg = end_flag t cols (lead mode_altscr) all;
    }

-- The columns of the headings, and of each row: `utf8_justify` fills the width of a field and a blank.
unfoldable pub columns : Table → ℕ → List Flag → ℕ
columns t varcolsz [] = 0
columns t varcolsz (xon ∷ flags) = columns t varcolsz flags
columns t varcolsz (xof ∷ flags) = columns t varcolsz flags
columns t varcolsz (field f ∷ flags) = width_or varcolsz (t.width f) + 1 + columns t varcolsz flags

unfoldable pub header_columns : Table → Bool → Layout → ℕ
header_columns t mode_altscr l = lead mode_altscr + columns t l.varcolsz l.procflgs
