-- ===== src/Vmstat/Devices.antt =====
-- The reports of vmstat on disks (-d), on one partition (-p), on sums over all disks (-D) and on slabs
-- (-m), and the choice among the reports.
pub mod Laws
pub mod Sums
use yc_360_script.Prelude.{
  ℕ, ◌+◌, ◌-◌, ◌*◌, ◌/◌, ◌%◌, ◌^◌, Bool, true, false, not, ◌&&◌, ◌||◌, List, [], ◌∷◌, ◌++◌, Option,
  none, some, ltb, ◌==◌, if◌then◌else◌, Bytes, length,
}
use yc_360_script.Prelude.Int.{ℤ, pos}
use yc_360_script.Vmstat.Words.{u64, quotient}
use yc_360_script.Vmstat.Options.{Mode, Settings, Exit, usage_error, Result, go, exit}

-- An entry of `reap->stacks`. The numbers are unsigned longs, but `in_progress` is an int.
pub record Device : Type 0 where
  pub name : Bytes
  pub is_disk : Bool
  pub reads : ℕ
  pub read_merges : ℕ
  pub read_sectors : ℕ
  pub read_time : ℕ
  pub writes : ℕ
  pub write_merges : ℕ
  pub write_sectors : ℕ
  pub write_time : ℕ
  pub in_progress : ℤ
  pub io_time : ℕ
  pub io_weighted : ℕ

-- What a report prints, and its calls of `sleep`.
pub data Event : Type 0 where
  column_titles : Event
  device_row : Device → Event
  partition_row : (reads read_sectors writes write_sectors : ℕ) → Event
  slab_row : Bytes → List ℕ → Event
  pause : ℕ → Event
  not_found : Event

-- `moreheaders && ((j % height) == 0)`
abbrev pub titles_at : Settings → ℕ → List Event
titles_at s j = if s.moreheaders && j % s.height == 0 then column_titles ∷ [] else []

-- The loop over the devices, at index `j`.
unfoldable pub disk_rows : Settings → ℕ → List Device → List Event
disk_rows s j [] = []
disk_rows s j (d ∷ ds) =
    let rest = disk_rows s (j + 1) ds in
    if d.is_disk then titles_at s j ++ (device_row d ∷ rest) else rest

-- An int that counts rounds, by its 32 bits, and as the unsigned long that it is compared as.
abbrev pub next_int : ℕ → ℕ
next_int i = (i + 1) % 2 ^ 32

abbrev pub as_long : ℕ → ℕ
as_long i = if ltb i (2 ^ 31) then i else i + (2 ^ 64 - 2 ^ 32)

-- `if (infinite_updates || i+1 < num_updates) sleep(sleep_time);`
abbrev pub pause_at : Settings → ℕ → List Event
pause_at s i =
    if s.infinite_updates || ltb (as_long (next_int i)) s.num_updates
    then pause s.sleep_time ∷ []
    else []

-- The outer loop of three reports: `samples` are what its rounds read.
unfoldable pub sampled {ℓ} : {A : Type ℓ} → Settings → (A → List Event) → ℕ → List A → List Event
sampled s show_sample i [] = []
sampled s show_sample i (x ∷ xs) =
    let rest = sampled s show_sample (next_int i) xs in
    if s.infinite_updates || ltb (as_long i) s.num_updates
    then show_sample x ++ (pause_at s i ++ rest)
    else []

-- `if (!moreheaders) diskheader();`
abbrev pub titles_once : Settings → List Event
titles_once s = if s.moreheaders then [] else column_titles ∷ []

unfoldable pub diskformat : Settings → List (List Device) → List Event
diskformat s samples = titles_once s ++ sampled s (disk_rows s 0) 0 samples

pub record Slab : Type 0 where
  pub name : Bytes
  pub active_objs : ℕ
  pub num_objs : ℕ
  pub obj_size : ℕ
  pub objs_per_slab : ℕ

unfoldable pub slab_rows : Settings → ℕ → List Slab → List Event
slab_rows s j [] = []
slab_rows s j (p ∷ ps) =
    titles_at s j
    ++ (slab_row p.name (p.active_objs ∷ p.num_objs ∷ p.obj_size ∷ p.objs_per_slab ∷ [])
        ∷ slab_rows s (j + 1) ps)

-- `sort` is `procps_slabinfo_sort`, by name.
unfoldable pub slabformat : (List Slab → List Slab) → Settings → List (List Slab) → List Event
slabformat sort s samples = titles_once s ++ sampled s (λ ps. slab_rows s 0 (sort ps)) 0 samples

-- One partition: the samples are what `procps_diskstats_select` returns, NULL being `none`, which
-- ends the program.
unfoldable pub partition_rows : Settings → ℕ → List (Option Device) → List Event
partition_rows s i [] = []
partition_rows s i (none ∷ xs) =
    if s.infinite_updates || ltb (as_long i) s.num_updates then not_found ∷ [] else []
partition_rows s i (some d ∷ xs) =
    let rest = partition_rows s (next_int i) xs in
    if s.infinite_updates || ltb (as_long i) s.num_updates
    then partition_row d.reads d.read_sectors d.writes d.write_sectors ∷ (pause_at s i ++ rest)
    else []

-- `found` is the result of `procps_diskstats_get`.
unfoldable pub diskpartition_format : Settings → Bool → List (Option Device) → List Event
diskpartition_format s found xs =
    if found then column_titles ∷ partition_rows s 0 xs else not_found ∷ []

-- The totals of `disksum_format`; the counts are ints, the rest unsigned longs.
pub record Totals : Type 0 where
  pub disk_count : ℕ
  pub part_count : ℕ
  pub sum_reads : ℕ
  pub sum_read_merges : ℕ
  pub sum_read_sectors : ℕ
  pub sum_read_time : ℕ
  pub sum_writes : ℕ
  pub sum_write_merges : ℕ
  pub sum_write_sectors : ℕ
  pub sum_write_time : ℕ
  pub sum_in_progress : ℕ
  pub sum_io_time : ℕ
  pub sum_io_weighted : ℕ

abbrev pub no_totals : Totals
no_totals = record {
  disk_count = 0;
  part_count = 0;
  sum_reads = 0;
  sum_read_merges = 0;
  sum_read_sectors = 0;
  sum_read_time = 0;
  sum_writes = 0;
  sum_write_merges = 0;
  sum_write_sectors = 0;
  sum_write_time = 0;
  sum_in_progress = 0;
  sum_io_time = 0;
  sum_io_weighted = 0;
}

-- `sum += x` of unsigned longs.
abbrev pub plus : ℕ → ℕ → ℕ
plus sum x = (sum + x) % 2 ^ 64

-- `diskVAL(disk_IO, s_int) / 1000`: an int, which the sum makes an unsigned long.
abbrev pub in_progress_share : Device → ℕ
in_progress_share d = u64 (quotient d.in_progress (pos 1000))

unfoldable pub add_device : Totals → Device → Totals
add_device t d =
    if d.is_disk
    then record {
      disk_count = t.disk_count + 1;
      part_count = t.part_count;
      sum_reads = plus t.sum_reads d.reads;
      sum_read_merges = plus t.sum_read_merges d.read_merges;
      sum_read_sectors = plus t.sum_read_sectors d.read_sectors;
      sum_read_time = plus t.sum_read_time d.read_time;
      sum_writes = plus t.sum_writes d.writes;
      sum_write_merges = plus t.sum_write_merges d.write_merges;
      sum_write_sectors = plus t.sum_write_sectors d.write_sectors;
      sum_write_time = plus t.sum_write_time d.write_time;
      sum_in_progress = plus t.sum_in_progress (in_progress_share d);
      sum_io_time = plus t.sum_io_time (d.io_time / 1000);
      sum_io_weighted = plus t.sum_io_weighted (d.io_weighted / 1000);
    }
    else record t { part_count = t.part_count + 1 }

unfoldable pub sum_devices : Totals → List Device → Totals
sum_devices t [] = t
sum_devices t (d ∷ ds) = sum_devices (add_device t d) ds

unfoldable pub disksum_format : List Device → Totals
disksum_format ds = sum_devices no_totals ds

-- The reports that `switch (statMode)` chooses from.
pub data Report : Type 0 where
  vm_report sum_report disk_report partition_report slab_report disk_sum_report : Report

abbrev pub chosen : Bool → Bool → Bool → Bool → Bool → Result Report
chosen false false false false false = go vm_report
chosen true false false false false = go disk_report
chosen false true false false false = go sum_report
chosen false false true false false = go slab_report
chosen false false false true false = go partition_report
chosen false false false false true = go disk_sum_report
chosen _ _ _ _ _ = exit usage_error

unfoldable pub choose_report : Settings → Result Report
choose_report s = chosen s.mode.disk s.mode.sum s.mode.slab s.mode.partition_stat s.mode.disk_sum
