-- ===== src/Tests/Vmstat.antt =====
-- A command line of vmstat and its report.
use yc_360_script.Prelude.{
  arith, ℕ, ◌+◌, ◌<◌, ◌≤◌, ◌≡◌, ◌⊎◌, refl, true, false, List, [], ◌∷◌, some, none, codes, ◌*◌, ◌/◌,
}
use yc_360_script.Prelude.Int.{pos, negsuc, is_neg, ◌+ℤ◌, ◌-ℤ◌}
use yc_360_script.Vmstat.Words.{s32, s64, quotient}
use yc_360_script.Vmstat.Options.{
  Settings, initial, wide, no_first, unit, go, exit, bad_unit, bad_number, delay_not_positive,
  unit_size, apply_option, apply_options, read_digits, read_long, strtol_or_err, apply_operands,
  winhi, set_height, configure,
}
use yc_360_script.Vmstat.Options.Laws.{IsReady, configure-IsReady}
use yc_360_script.Vmstat.Rows.{
  Paging, Memory, Ticks, Reading, Machine, row, percent, settle_idle, cpu_of, nonzero_total, total,
  without_guest, next_row,
}
use yc_360_script.Vmstat.Rows.Percent.{percent-rounds, settle_idle-conserves}

-- `vmstat -w -y -S m 2 3` in a window of 25 lines.
abbrev accepted_settings : Settings
accepted_settings = record initial {
  data_unit = 1000000;
  unit_char = b'm';
  w_option = true;
  y_option = true;
  sleep_time = 2;
  num_updates = 3;
  height = 22;
}

accepts :
    configure (wide ∷ no_first ∷ unit (codes "m") ∷ []) (codes "2" ∷ codes "3" ∷ []) (some 25)
    ≡ go accepted_settings
unfolding configure apply_options apply_option unit_size apply_operands strtol_or_err read_long
    read_digits set_height winhi
accepts = refl

-- `vmstat 2 x`, `vmstat 0`, `vmstat -S g` and `vmstat 1 2 3` are refused.
refuses_words : configure [] (codes "2" ∷ codes "x" ∷ []) none ≡ exit bad_number
unfolding configure apply_options apply_operands strtol_or_err read_long read_digits
refuses_words = refl

refuses_zero : configure [] (codes "0" ∷ []) none ≡ exit delay_not_positive
unfolding configure apply_options apply_operands strtol_or_err read_long read_digits
refuses_zero = refl

refuses_unit : configure (unit (codes "g") ∷ []) [] none ≡ exit bad_unit
unfolding configure apply_options apply_option unit_size
refuses_unit = refl

configure-IsReady_example :
    IsReady accepted_settings
    × ((accepted_settings.moreheaders ≡ false) ⊎ (0 < accepted_settings.height))
configure-IsReady_example =
    configure-IsReady (wide ∷ no_first ∷ unit (codes "m") ∷ []) (codes "2" ∷ codes "3" ∷ [])
      (some 25) accepted_settings accepts

abbrev quiet : Paging
quiet = record { pgpgin = 0; pgpgout = 0; pswpin = 0; pswpout = 0 }

abbrev memory : Memory
memory = record {
  swap_used = 0;
  free = 4096;
  active = 512;
  inactive = 256;
  buffers = 128;
  cached = 64;
}

abbrev ticks : Ticks
ticks = record {
  user = pos 30;
  nice = pos 0;
  system = pos 9;
  irq = pos 1;
  softirq = pos 0;
  idle = pos 155;
  iowait = pos 5;
  stolen = pos 0;
  guest = pos 10;
  guest_nice = pos 0;
}

abbrev reading : Reading
reading = record {
  running = 1;
  blocked = 0;
  interrupts = pos 7;
  switches = pos 8;
  ticks = ticks;
  paging = quiet;
  memory = memory;
}

abbrev machine : Machine
machine = record { convert = λ (n : ℕ). n; kb_per_page = 4; hz = 100 }

abbrev three : List Reading
three = reading ∷ reading ∷ reading ∷ []

a_row :
    (next_row accepted_settings machine quiet (pos 0) reading).0
    ≡ row (1 ∷ 0 ∷ 0 ∷ 4096 ∷ 128 ∷ 64 ∷ 0 ∷ 0 ∷ 0 ∷ 0 ∷ 4 ∷ 4 ∷ 10 ∷ 5 ∷ 78 ∷ 3 ∷ 0 ∷ 5 ∷ []) false
unfolding next_row cpu_of settle_idle nonzero_total total without_guest percent s32 s64 quotient
    ◌+ℤ◌ ◌-ℤ◌
a_row = refl

percent-rounds_example :
    (percent (pos 200) (pos 155) ≡ (100 * 155 + 200 / 2) / 200)
    × (percent (pos 200) (pos 155) ≤ 100)
percent-rounds_example = percent-rounds 200 155 (omega arith) (omega arith) (omega arith)

settle_idle-conserves_example :
    ((settle_idle (pos 3) (negsuc 4)).0 +ℤ (settle_idle (pos 3) (negsuc 4)).1 ≡ pos 3 +ℤ negsuc 4)
    × (is_neg (settle_idle (pos 3) (negsuc 4)).0 ≡ false)
settle_idle-conserves_example =
    settle_idle-conserves (pos 3) (negsuc 4) (omega arith) (omega arith) (omega arith) (omega arith)
