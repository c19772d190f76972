-- ===== src/Top/Text.antt =====
-- Padding and time texts of top.
pub mod Laws
use yc_360_script.Prelude.{
  ℕ, zero, suc, ◌+◌, ◌-◌, ◌*◌, ◌/◌, ◌%◌, ◌^◌, Bool, true, false, not, ◌&&◌, List, [], ◌∷◌, ◌++◌,
  ltb, leb, ◌==◌, if◌then◌else◌, Bytes, codes, length, take, ◌||◌,
}
use yc_360_script.Prelude.Int.{ℤ, pos, eqb_ℤ}
use yc_360_script.CString.{snprintf}
use yc_360_script.CString.Numbers.{decimal, signed_decimal}

abbrev pub blanks : ℕ → Bytes
blanks zero = []
blanks (suc n) = b' ' ∷ blanks n

-- `%*s` and `%-*s`.
abbrev pub pad_left : ℕ → Bytes → Bytes
pad_left width s = blanks (width - length s) ++ s

abbrev pub pad_right : ℕ → Bytes → Bytes
pad_right width s = s ++ blanks (width - length s)

-- `SCREENMAX`
abbrev pub screen_max : ℕ
screen_max = 512

-- `justify_pad`: `width` bytes and the blank behind a column, as far as the buffer goes. A width of -1
-- in `Fieldstab` stands for a variable one, for which `varcolsz` is passed.
unfoldable pub justify_pad : Bytes → ℕ → Bool → Bytes
justify_pad str width justr =
    let cut = take width str in
    snprintf screen_max ((if justr then pad_left width cut else pad_right width cut) ++ b' ' ∷ [])

unfoldable pub make_chr : ℕ → ℕ → Bool → Bytes
make_chr ch width justr = justify_pad (ch ∷ []) width justr

-- `buf[width - 1] = '+'; buf[width] = 0;` on the text in a buffer: a NUL before them hides them.
unfoldable pub mark_cut : ℕ → Bytes → Bytes
mark_cut w text = if leb (w - 1) (length text) then take (w - 1) text ++ b'+' ∷ [] else text

-- What `make_num` and `make_str` do where the text is too long for the column; the buffers have 128 and
-- 512 bytes, and a width of 0 is taken for the buffer's. The result is the text and the width that the
-- column has then.
unfoldable pub clip : ℕ → Bytes → ℕ → Bytes × ℕ
clip size str width =
    if ltb width (length str)
    then (let w = if width == 0 || leb size width then size - 1 else width in
        (mark_cut w (take (size - 1) str), w))
    else (take (size - 1) str, width)

unfoldable pub make_str : Bytes → ℕ → Bool → Bytes
make_str str width justr = let (text, w) = clip 512 str width in justify_pad text w justr

unfoldable pub make_num : Bool → ℤ → ℕ → Bool → Bool → Bytes
make_num zero_suppress num width justr noz =
    if noz && zero_suppress && eqb_ℤ num (pos 0)
    then justify_pad [] width justr
    else (let (text, w) = clip 128 (signed_decimal num) width in justify_pad text w justr)

-- `%02lu` of a number below 100.
abbrev pub two_digits : ℕ → Bytes
two_digits n = (b'0' + n / 10 % 10) ∷ (b'0' + n % 10) ∷ []

-- The first text that is reached and fits, or "?".
unfoldable pub first_fit : ℕ → List (Bool × Bytes) → Bytes
first_fit width [] = codes "?"
first_fit width ((reached, text) ∷ rest) =
    if reached && leb (length text) width then text else first_fit width rest

-- The cases of the `switch` in `scale_tics`, which fall through: `nt` is in hundredths of a second.
-- TICS_AS_DAY2 (4) is a label inside of the test of TICS_AS_DAY1.
abbrev pub time_forms : ℕ → ℕ → List (Bool × Bytes)
time_forms target nt =
    let secs = nt / 100 in
    let mins = secs / 60 in
    let hour = mins / 60 in
    let days = hour / 24 in
    let week = days / 7 in
    (
      leb target 0 && ltb mins 361,
      decimal mins ++ (b':' ∷ (two_digits (secs % 60) ++ (b'.' ∷ two_digits (nt % 100)))),
    )
    ∷ (leb target 1 && ltb mins 361, decimal mins ++ (b':' ∷ two_digits (secs % 60)))
    ∷ (leb target 2 && ltb hour 97, decimal hour ++ (b',' ∷ two_digits (mins % 60)))
    ∷ (
      leb target 3 && ltb days 15,
      decimal days ++ (codes "d+" ++ (decimal (hour % 24) ++ codes "h")),
    )
    ∷ (target == 4 || leb target 3 && ltb days 15, decimal days ++ codes "d")
    ∷ (leb target 5, decimal week ++ (codes "w+" ++ (decimal (days % 7) ++ codes "d")))
    ∷ (leb target 6, decimal week ++ codes "w")
    ∷ []

-- `(tics * 100ull) / Hertz`
unfoldable pub centiseconds : ℕ → ℕ → ℕ
centiseconds hertz tics = tics * 100 % 2 ^ 64 / hertz

-- `if (Rc.tics_scaled > target) target += Rc.tics_scaled - target;`
abbrev pub scaled_target : ℕ → ℕ → ℕ
scaled_target tics_scaled target = if ltb target tics_scaled then tics_scaled else target

unfoldable pub time_text : Bool → ℕ → ℕ → ℕ → ℕ → ℕ → Bytes
time_text zero_suppress tics_scaled hertz tics width target =
    let nt = centiseconds hertz tics in
    if zero_suppress && nt == 0
    then []
    else first_fit width (time_forms (scaled_target tics_scaled target) nt)

unfoldable pub scale_tics : Bool → ℕ → ℕ → ℕ → ℕ → Bool → ℕ → Bytes
scale_tics zero_suppress tics_scaled hertz tics width justr target =
    justify_pad (time_text zero_suppress tics_scaled hertz tics width target) width justr

-- The floats of the scaling functions, with what their formats print.
pub record Numbers : Type 1 where
  pub F : Type 0
  pub is_positive : F → Bool
  pub kilo : F → F
  pub mem_text : ℕ → F → ℕ → Bytes
  pub whole_text : F → Bytes
  pub tenth_text : F → ℕ → Bytes
  pub unit_text : F → ℕ → Bytes
  pub pcnt_text : ℕ → F → Bytes
  pub pcnt_whole : ℕ → F → Bytes

-- `Scaled_sfxtab`
abbrev pub suffixes : Bytes
suffixes = codes "kmgtpe"

-- The loop of `scale_mem` from stage `i` on, with the suffixes that are left.
unfoldable pub mem_fit : (fl : Numbers) → ℕ → ℕ → ℕ → Bytes → fl.F → Bytes
mem_fit fl target width i [] num = codes "?"
mem_fit fl target width i (c ∷ cs) num =
    let text = fl.mem_text i num c in
    let rest = mem_fit fl target width (i + 1) cs (fl.kilo num) in
    if leb target i && leb (length text) width then text else rest

unfoldable pub scale_mem : (fl : Numbers) → Bool → ℕ → fl.F → ℕ → Bool → Bytes
scale_mem fl zero_suppress target num width justr =
    let text =
      if zero_suppress && not (fl.is_positive num)
      then []
      else mem_fit fl target width 0 (take 5 suffixes) num in
    justify_pad text width justr

-- The loop of `scale_num`.
unfoldable pub num_fit : (fl : Numbers) → ℕ → Bytes → fl.F → Bytes
num_fit fl width [] num = codes "?"
num_fit fl width (c ∷ cs) num =
    let num' = fl.kilo num in
    let rest = num_fit fl width cs num' in
    if leb (length (fl.tenth_text num' c)) width
    then fl.tenth_text num' c
    else if leb (length (fl.unit_text num' c)) width
    then fl.unit_text num' c
    else rest

unfoldable pub scale_num : (fl : Numbers) → Bool → fl.F → ℕ → Bool → Bytes
scale_num fl zero_suppress num width justr =
    let text =
      if zero_suppress && not (fl.is_positive num)
      then []
      else if leb (length (fl.whole_text num)) width
      then fl.whole_text num
      else num_fit fl width suffixes num in
    justify_pad text width justr

-- The precisions that are tried, three digits being the first.
unfoldable pub scale_pcnt : (fl : Numbers) → Bool → fl.F → ℕ → Bool → Bool → Bytes
scale_pcnt fl zero_suppress num width justr xtra =
    let text =
      if zero_suppress && not (fl.is_positive num)
      then []
      else first_fit width (
          (xtra, fl.pcnt_text 3 num)
          ∷ (xtra, fl.pcnt_text 2 num)
          ∷ (true, fl.pcnt_text 1 num)
          ∷ (true, fl.pcnt_whole width num)
          ∷ []) in
    justify_pad text width justr
