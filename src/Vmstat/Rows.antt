-- ===== src/Vmstat/Rows.antt =====
-- `new_format`: the report of vmstat without a mode. Each reading of the kernel's counters makes a
-- line; the loop ends with the readings or with the count.
pub mod Counts
pub mod Percent
use yc_360_script.Prelude.{
  ℕ, ◌+◌, ◌-◌, ◌*◌, ◌/◌, ◌%◌, ◌^◌, Bool, true, false, not, ◌&&◌, ◌||◌, List, [], ◌∷◌, ◌++◌, ltb,
  leb, ◌==◌, if◌then◌else◌, Bytes, codes, length, take, map,
}
use yc_360_script.Prelude.Int.{ℤ, pos, negsuc, sub_ℕ, is_neg, eqb_ℤ, ltb_ℤ, ◌+ℤ◌, ◌-ℤ◌}
use yc_360_script.Vmstat.Words.{u32, u64, s32, s64, quotient}
use yc_360_script.Vmstat.Options.{Settings}

-- The float arithmetic of `unitConvert`, which is the compiler's and the machine's.
pub record Float : Type 1 where
  pub F : Type 0
  pub of_ℕ : ℕ → F
  pub divide : F → F → F
  pub times : F → F → F
  pub to_ulong : F → ℕ

-- `(unsigned long)((float)size / dataUnit * ((statMode == SLABSTAT) ? 1 : 1024))`
unfoldable pub unit_convert : Float → Settings → Bool → ℕ → ℕ
unit_convert fl s is_slab size =
    let cv = fl.divide (fl.of_ℕ size) (fl.of_ℕ s.data_unit) in
    fl.to_ulong (fl.times cv (fl.of_ℕ (if is_slab then 1 else 1024)))

-- A line of output: column titles, or the fields of a row and whether a time stamp follows.
pub data Line : Type 0 where
  heading : List Bytes → Line
  row : List ℕ → Bool → Line

-- The narrow formats have 17 conversions, and `printf` ignores the argument that is left over.
abbrev pub shown {ℓ} : {A : Type ℓ} → Bool → List A → List A
shown w_option fields = if w_option then fields else take 17 fields

-- The 18 titles; two depend on -a. The line of groups above them and the time zone are left out.
abbrev pub titles : Bool → List Bytes
titles a_option =
    codes "r"
    ∷ codes "b"
    ∷ codes "swpd"
    ∷ codes "free"
    ∷ (if a_option then codes "inact" else codes "buff")
    ∷ (if a_option then codes "active" else codes "cache")
    ∷ codes "si"
    ∷ codes "so"
    ∷ codes "bi"
    ∷ codes "bo"
    ∷ codes "in"
    ∷ codes "cs"
    ∷ codes "us"
    ∷ codes "sy"
    ∷ codes "id"
    ∷ codes "wa"
    ∷ codes "st"
    ∷ codes "gu"
    ∷ []

unfoldable pub new_header : Settings → Line
new_header s = heading (shown s.w_option (titles s.a_option))

-- The counters of /proc/vmstat and /proc/meminfo.
pub record Paging : Type 0 where
  pub pgpgin : ℕ
  pub pgpgout : ℕ
  pub pswpin : ℕ
  pub pswpout : ℕ

pub record Memory : Type 0 where
  pub swap_used : ℕ
  pub free : ℕ
  pub active : ℕ
  pub inactive : ℕ
  pub buffers : ℕ
  pub cached : ℕ

-- /proc/stat since boot, or its signed changes since the reading before.
pub record Ticks : Type 0 where
  pub user : ℤ
  pub nice : ℤ
  pub system : ℤ
  pub irq : ℤ
  pub softirq : ℤ
  pub idle : ℤ
  pub iowait : ℤ
  pub stolen : ℤ
  pub guest : ℤ
  pub guest_nice : ℤ

pub record Reading : Type 0 where
  pub running : ℕ
  pub blocked : ℕ
  pub interrupts : ℤ
  pub switches : ℤ
  pub ticks : Ticks
  pub paging : Paging
  pub memory : Memory

-- `cpu_use`, `cpu_sys`, `cpu_idl`, `cpu_iow`, `cpu_sto`, `cpu_gue`.
pub record Cpu : Type 0 where
  pub use_time : ℤ
  pub sys_time : ℤ
  pub idl_time : ℤ
  pub iow_time : ℤ
  pub sto_time : ℤ
  pub gue_time : ℤ

unfoldable pub cpu_of : Ticks → Cpu
cpu_of t = record {
  use_time = s64 (t.user +ℤ t.nice);
  sys_time = s64 (t.system +ℤ t.irq +ℤ t.softirq);
  idl_time = s64 t.idle;
  iow_time = s64 t.iowait;
  sto_time = s64 t.stolen;
  gue_time = s64 (t.guest +ℤ t.guest_nice);
}

unfoldable pub total : Cpu → ℤ
total c = c.use_time +ℤ c.sys_time +ℤ c.idl_time +ℤ c.iow_time +ℤ c.sto_time

-- `if (!Div) Div = 1, cpu_idl = 1;`
unfoldable pub nonzero_total : Cpu → Cpu × ℤ
nonzero_total c =
    if eqb_ℤ (total c) (pos 0) then (record c { idl_time = pos 1 }, pos 1) else (c, total c)

-- Guest time is part of user time: take it off, but not below 0.
unfoldable pub without_guest : Cpu → Cpu
without_guest c = record c {
  use_time = if ltb_ℤ c.use_time c.gue_time then pos 0 else c.use_time -ℤ c.gue_time;
}

-- `Div / 2UL` is an unsigned division.
abbrev pub half_of : ℤ → ℤ
half_of d = s64 (pos (u64 d / 2))

abbrev pub hundredfold : ℤ → ℤ
hundredfold (pos n) = pos (100 * n)
hundredfold (negsuc n) = sub_ℕ 0 (100 * (n + 1))

-- `(unsigned)((100*x + divo2) / Div)`
unfoldable pub percent : ℤ → ℤ → ℕ
percent d x = u32 (quotient (hundredfold x +ℤ half_of d) d)

abbrev pub percentages : Cpu → ℤ → List ℕ
percentages c d =
    percent d c.use_time
    ∷ percent d c.sys_time
    ∷ percent d c.idl_time
    ∷ percent d c.iow_time
    ∷ percent d c.sto_time
    ∷ percent d c.gue_time
    ∷ []

-- Idle ticks may run backwards for a moment: what is missing is carried over to the next line. The
-- results are the idle ticks to show and the new debt.
unfoldable pub settle_idle : ℤ → ℤ → ℤ × ℤ
settle_idle idle debt =
    let idle' = if eqb_ℤ debt (pos 0) then idle else s32 idle +ℤ debt in
    if is_neg (s32 idle') then (pos 0, s32 idle') else (idle', pos 0)

-- What a report needs besides its settings: the conversion, the page size in KiB and the tick rate.
pub record Machine : Type 0 where
  pub convert : ℕ → ℕ
  pub kb_per_page : ℕ
  pub hz : ℕ

abbrev pub memory_fields : Settings → Machine → Reading → List ℕ
memory_fields s m r =
    r.running
    ∷ r.blocked
    ∷ m.convert r.memory.swap_used
    ∷ m.convert r.memory.free
    ∷ m.convert (if s.a_option then r.memory.inactive else r.memory.buffers)
    ∷ m.convert (if s.a_option then r.memory.active else r.memory.cached)
    ∷ []

-- `(unsigned)((x * hz + divo2) / Div)`: `x` is unsigned, so all of it is.
abbrev pub boot_rate : Machine → ℤ → ℕ → ℕ
boot_rate m d x = (x * m.hz + u64 (half_of d)) % 2 ^ 64 / u64 d % 2 ^ 32

-- The line of averages since boot.
unfoldable pub first_row : Settings → Machine → Reading → Line
first_row s m r =
    let (c, d) = nonzero_total (cpu_of r.ticks) in
    let swap = λ (x : ℕ). m.convert (x * m.kb_per_page % 2 ^ 64) in
    row
      (shown s.w_option (
        memory_fields s m r
        ++ (boot_rate m d (swap r.paging.pswpin)
            ∷ boot_rate m d (swap r.paging.pswpout)
            ∷ boot_rate m d r.paging.pgpgin
            ∷ boot_rate m d r.paging.pgpgout
            ∷ boot_rate m d (u64 r.interrupts)
            ∷ boot_rate m d (u64 r.switches)
            ∷ [])
        ++ percentages (without_guest c) d))
      s.t_option

-- `(unsigned)((x + sleep_half) / sleep_time)` of unsigned longs.
abbrev pub per_second : Settings → ℕ → ℕ
per_second s x = (x + s.sleep_time / 2) % 2 ^ 64 / s.sleep_time % 2 ^ 32

-- The change of an unsigned long counter.
abbrev pub change : ℕ → ℕ → ℕ
change now before = (now + 2 ^ 64 - before) % 2 ^ 64

-- An `int` and an unsigned int are added as unsigned ints.
abbrev pub int_per_second : Settings → ℤ → ℕ
int_per_second s x = (u32 x + s.sleep_time / 2) % 2 ^ 32 / s.sleep_time

abbrev pub paging_fields : Settings → Machine → Paging → Reading → List ℕ
paging_fields s m before r =
    let swap = λ (x : ℕ). m.convert (x * m.kb_per_page % 2 ^ 64) in
    per_second s (swap (change r.paging.pswpin before.pswpin))
    ∷ per_second s (swap (change r.paging.pswpout before.pswpout))
    ∷ per_second s (change r.paging.pgpgin before.pgpgin)
    ∷ per_second s (change r.paging.pgpgout before.pgpgout)
    ∷ int_per_second s r.interrupts
    ∷ int_per_second s r.switches
    ∷ []

-- A line of the main loop, and the debt behind it.
unfoldable pub next_row : Settings → Machine → Paging → ℤ → Reading → Line × ℤ
next_row s m before debt r =
    let c = cpu_of r.ticks in
    let (idle, debt') = settle_idle c.idl_time debt in
    let (c', d) = nonzero_total (record c { idl_time = idle }) in
    (
      row
          (shown s.w_option
            (memory_fields s m r ++ paging_fields s m before r ++ percentages (without_guest c') d))
          s.t_option,
      debt',
    )

abbrev pub header_at : Settings → ℕ → List Line
header_at s i = if s.moreheaders && i % s.height == 0 then new_header s ∷ [] else []

-- The main loop: `i` is an unsigned int.
unfoldable pub main_loop : Settings → Machine → ℕ → Paging → ℤ → List Reading → List Line
main_loop s m i before debt [] = []
main_loop s m i before debt (r ∷ rs) =
    let (line, debt') = next_row s m before debt r in
    let rest = main_loop s m ((i + 1) % 2 ^ 32) r.paging debt' rs in
    if s.infinite_updates || ltb i s.num_updates then header_at s i ++ (line ∷ rest) else []

-- `before` are the paging counters at the start; `r` is the reading of the initial fill.
unfoldable pub new_format : Settings → Machine → Paging → Reading → List Reading → List Line
new_format s m before r rs =
    new_header s
    ∷ (if s.y_option
        then main_loop (record s { num_updates = (s.num_updates + 1) % 2 ^ 64 }) m 1 before (pos 0)
            rs
        else first_row s m r ∷ main_loop s m 1 before (pos 0) rs)
