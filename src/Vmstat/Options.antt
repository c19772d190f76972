-- ===== src/Vmstat/Options.antt =====
-- The command line of vmstat: `getopt_long` delivers the options one by one, and the operands stand
-- behind them.
pub mod Laws
use yc_360_script.Prelude.{
  ℕ, ◌+◌, ◌-◌, ◌*◌, ◌^◌, Bool, true, false, not, ◌&&◌, ◌||◌, List, [], ◌∷◌, Option, none, some, ltb,
  leb, ◌==◌, if◌then◌else◌, Bytes, codes, drop, has_prefix,
}
use yc_360_script.Prelude.Int.{ℤ, pos, negsuc, sub_ℕ, is_neg}
use yc_360_script.CString.{is_digit, is_space}
use yc_360_script.Vmstat.Words.{u64}

-- `statMode`: the flags that were or-ed into it.
pub record Mode : Type 0 where
  pub disk : Bool
  pub sum : Bool
  pub slab : Bool
  pub partition_stat : Bool
  pub disk_sum : Bool

-- The globals that the options set, and the local `partition`.
pub record Settings : Type 0 where
  pub data_unit : ℕ
  pub unit_char : ℕ
  pub mode : Mode
  pub a_option : Bool
  pub w_option : Bool
  pub y_option : Bool
  pub t_option : Bool
  pub sleep_time : ℕ
  pub infinite_updates : Bool
  pub num_updates : ℕ
  pub height : ℕ
  pub moreheaders : Bool
  pub partition : Option Bytes

abbrev pub no_mode : Mode
no_mode = record {
  disk = false;
  sum = false;
  slab = false;
  partition_stat = false;
  disk_sum = false;
}

abbrev pub initial : Settings
initial = record {
  data_unit = 1024;
  unit_char = b'K';
  mode = no_mode;
  a_option = false;
  w_option = false;
  y_option = false;
  t_option = false;
  sleep_time = 1;
  infinite_updates = false;
  num_updates = 1;
  height = 0;
  moreheaders = true;
  partition = none;
}

-- What `getopt_long` returns: an option with its argument where it takes one, or '?'.
pub data Opt : Type 0 where
  version help disk active forks slabs disk_sum one_header stats wide timestamp no_first : Opt
  partition unit : Bytes → Opt
  unknown : Opt

-- How the program ends before it reports.
pub data Exit : Type 0 where
  shows_version shows_help shows_forks usage_error : Exit
  bad_unit bad_number delay_not_positive delay_too_large : Exit

-- The exit status: `usage(stdout)` is a success, `usage(stderr)` and `xerrx` are failures.
unfoldable pub exit_status : Exit → ℕ
exit_status shows_version = 0
exit_status shows_help = 0
exit_status shows_forks = 0
exit_status _ = 1

pub data Result {ℓ} (A : Type ℓ) : Type ℓ where
  go : A → Result A
  exit : Exit → Result A

infixl 5 ◌>>=◌
abbrev pub ◌>>=◌ {ℓ κ} : {A : Type ℓ} {B : Type κ} → Result A → (A → Result B) → Result B
go a >>= f = f a
exit e >>= f = exit e

abbrev pub first_byte : Bytes → ℕ
first_byte [] = 0
first_byte (c ∷ s) = c

-- The `switch (optarg[0])` of -S; `none` is its default.
unfoldable pub unit_size : ℕ → Option ℕ
unit_size c =
    if c == b'b' || c == b'B'
    then some 1
    else if c == b'k'
    then some 1000
    else if c == b'K'
    then some 1024
    else if c == b'm'
    then some 1000000
    else if c == b'M'
    then some 1048576
    else none

abbrev pub set_unit : Settings → ℕ → Option ℕ → Result Settings
set_unit s c none = exit bad_unit
set_unit s c (some n) = go (record s { data_unit = n; unit_char = c })

abbrev pub strip_dev : Bytes → Bytes
strip_dev p = if has_prefix (codes "/dev/") p then drop 5 p else p

-- One round of the option loop.
unfoldable pub apply_option : Settings → Opt → Result Settings
apply_option s version = exit shows_version
apply_option s help = exit shows_help
apply_option s disk = go (record s { mode = record s.mode { disk = true } })
apply_option s active = go (record s { a_option = true })
apply_option s forks = exit shows_forks
apply_option s slabs = go (record s { mode = record s.mode { slab = true } })
apply_option s disk_sum = go (record s { mode = record s.mode { disk_sum = true } })
apply_option s one_header = go (record s { moreheaders = false })
apply_option s (partition arg) =
    go (record s {
      mode = record s.mode { partition_stat = true };
      partition = some (strip_dev arg);
    })
apply_option s (unit arg) = set_unit s (first_byte arg) (unit_size (first_byte arg))
apply_option s stats = go (record s { mode = record s.mode { sum = true } })
apply_option s wide = go (record s { w_option = true })
apply_option s timestamp = go (record s { t_option = true })
apply_option s no_first = go (record s { y_option = true })
apply_option s unknown = exit usage_error

unfoldable pub apply_options : Settings → List Opt → Result Settings
apply_options s [] = go s
apply_options s (o ∷ os) = apply_option s o >>= λ s'. apply_options s' os

-- `strtol`: the digits, if there is one and nothing follows them.
unfoldable pub read_digits : ℕ → Bytes → Option ℕ
read_digits n [] = some n
read_digits n (c ∷ s) =
    let rest = read_digits (n * 10 + (c - b'0')) s in if is_digit c then rest else none

abbrev pub some_digits : Bytes → Option ℕ
some_digits [] = none
some_digits (c ∷ s) = read_digits 0 (c ∷ s)

abbrev pub as_positive : Option ℕ → Option ℤ
as_positive none = none
as_positive (some n) = if ltb n (2 ^ 63) then some (pos n) else none

abbrev pub as_negative : Option ℕ → Option ℤ
as_negative none = none
as_negative (some n) = if leb n (2 ^ 63) then some (sub_ℕ 0 n) else none

unfoldable pub read_long : Bytes → Option ℤ
read_long [] = none
read_long (c ∷ s) =
    let rest = read_long s in
    if is_space c
    then rest
    else if c == b'-'
    then as_negative (some_digits s)
    else if c == b'+'
    then as_positive (some_digits s)
    else as_positive (some_digits (c ∷ s))

abbrev pub or_error : Option ℤ → Result ℤ
or_error none = exit bad_number
or_error (some n) = go n

-- strutils.c: a `long` that fills the whole text and is in range, or the end of the program.
unfoldable pub strtol_or_err : Bytes → Result ℤ
strtol_or_err str = or_error (read_long str)

abbrev pub uint_max : ℕ
uint_max = 2 ^ 32 - 1

abbrev pub set_delay : Settings → ℤ → Result Settings
set_delay s (negsuc n) = exit delay_not_positive
set_delay s (pos n) =
    if ltb n 1
    then exit delay_not_positive
    else if ltb uint_max n
    then exit delay_too_large
    else go (record s { sleep_time = n; infinite_updates = true; num_updates = 1 })

-- `if (optind < argc) usage(stderr);`
abbrev pub refuse_more : Settings → List Bytes → Result Settings
refuse_more s [] = go s
refuse_more s (x ∷ xs) = exit usage_error

-- The operands: none, the delay, or the delay and the count; the count wraps to an unsigned long.
unfoldable pub apply_operands : Settings → List Bytes → Result Settings
apply_operands s [] = go (record s { num_updates = 1 })
apply_operands s (delay ∷ []) = strtol_or_err delay >>= λ d. set_delay s d
apply_operands s (delay ∷ count ∷ rest) = strtol_or_err delay >>= λ d. set_delay s d >>= λ s'.
    strtol_or_err count >>= λ n.
    refuse_more (record s' { num_updates = u64 n; infinite_updates = false }) rest

-- `winhi() - 3`, at least 1, or 22; `rows` is what `ioctl` reports, if it does.
unfoldable pub winhi : Option ℕ → ℕ
winhi none = 24
winhi (some rows) = if ltb 0 rows then rows else 24

unfoldable pub set_height : Settings → Option ℕ → Settings
set_height s rows =
    if s.moreheaders
    then record s { height = if ltb 3 (winhi rows) then winhi rows - 3 else 22 }
    else s

-- All of `vmstat` in front of the `switch (statMode)`.
unfoldable pub configure : List Opt → List Bytes → Option ℕ → Result Settings
configure opts operands rows =
    apply_options initial opts >>= λ s. apply_operands s operands >>= λ s'. go (set_height s' rows)
