-- ===== src/Vmstat/Devices/Sums.antt =====
-- The totals of -D.
use yc_360_script.Prelude.{
  ℕ, ◌+◌, ◌%◌, ◌/◌, ◌^◌, ◌≡◌, ◌<◌, ◌∙◌, inl, inr, Bool-cases, Bool, true, false, List, [], ◌∷◌,
  length, if◌then◌else◌, arith, refl,
}
use yc_360_script.Vmstat.Devices.{
  Device, Totals, no_totals, plus, in_progress_share, add_device, sum_devices, disksum_format,
}

-- The sum of a quantity over the disks of a list, without bounds.
abbrev pub over_disks : (Device → ℕ) → List Device → ℕ
over_disks f [] = 0
over_disks f (d ∷ ds) = (if d.is_disk then f d else 0) + over_disks f ds

-- How many entries are disks, or not.
abbrev pub count_disks : List Device → ℕ
count_disks = over_disks (λ _. 1)

-- How one device changes a total.
abbrev Tracks : (Totals → ℕ) → (Device → ℕ) → Type 0
Tracks total_of f =
    (t : Totals) (d : Device)
    → total_of (add_device t d) ≡ (if d.is_disk then plus (total_of t) (f d) else total_of t)

-- A total that every disk adds to modulo 2^64 ends as the sum modulo 2^64.
sum_devices-sum :
    (total_of : Totals → ℕ) (f : Device → ℕ)
    → Tracks total_of f
    → (ds : List Device) (t : Totals) → total_of t < 2 ^ 64
    → total_of (sum_devices t ds) ≡ (total_of t + over_disks f ds) % 2 ^ 64
unfolding sum_devices
sum_devices-sum total_of f step [] t h = omega arith
sum_devices-sum total_of f step (d ∷ ds) t h = elim (Bool-cases d.is_disk) [
  | inl is' ↦
      let here : total_of (add_device t d) ≡ plus (total_of t) (f d) = step t d ∙ rw is' refl in
      let rest = sum_devices-sum total_of f step ds (add_device t d) (omega (arith, here)) in
      rest ∙ rw (here, is') (omega arith)
  | inr no' ↦
      let here : total_of (add_device t d) ≡ total_of t = step t d ∙ rw no' refl in
      let rest = sum_devices-sum total_of f step ds (add_device t d) (omega (arith, here)) in
      rest ∙ rw (here, no') (omega arith)
]

sum_devices-counts :
    (ds : List Device) (t : Totals)
    → ((sum_devices t ds).disk_count ≡ t.disk_count + count_disks ds)
      × ((sum_devices t ds).part_count + count_disks ds ≡ t.part_count + length ds)
unfolding sum_devices add_device
sum_devices-counts [] t = omega arith
sum_devices-counts (d ∷ ds) t = elim (Bool-cases d.is_disk) [
  | inl is' ↦ ground (arith, sum_devices-counts ds (add_device t d))
  | inr no' ↦ ground (arith, sum_devices-counts ds (add_device t d))
]

unchanged_or :
    (P : Bool) (a b : Totals) (total_of : Totals → ℕ)
    → total_of (if P then a else b) ≡ (if P then total_of a else total_of b)
unchanged_or true a b total_of = refl
unchanged_or false a b total_of = refl

disksum_format-total :
    (ds : List Device) (total_of : Totals → ℕ) (f : Device → ℕ)
    → Tracks total_of f
    → total_of no_totals ≡ 0
    → total_of (disksum_format ds) ≡ over_disks f ds % 2 ^ 64
unfolding disksum_format
disksum_format-total ds total_of f step e =
    sum_devices-sum total_of f step ds no_totals (omega (arith, e)) ∙ rw e (omega arith)

-- With -D, each of the totals is the sum of its quantity over the disks alone, modulo 2^64, and every
-- entry counts either as a disk or as a partition.
pub disksum_format-sums :
    (ds : List Device)
    → (let t = disksum_format ds in
        (t.disk_count ≡ count_disks ds)
        × (t.disk_count + t.part_count ≡ length ds)
        × (t.sum_reads ≡ over_disks (λ (d : Device). d.reads) ds % 2 ^ 64)
        × (t.sum_read_merges ≡ over_disks (λ (d : Device). d.read_merges) ds % 2 ^ 64)
        × (t.sum_read_sectors ≡ over_disks (λ (d : Device). d.read_sectors) ds % 2 ^ 64)
        × (t.sum_read_time ≡ over_disks (λ (d : Device). d.read_time) ds % 2 ^ 64)
        × (t.sum_writes ≡ over_disks (λ (d : Device). d.writes) ds % 2 ^ 64)
        × (t.sum_write_merges ≡ over_disks (λ (d : Device). d.write_merges) ds % 2 ^ 64)
        × (t.sum_write_sectors ≡ over_disks (λ (d : Device). d.write_sectors) ds % 2 ^ 64)
        × (t.sum_write_time ≡ over_disks (λ (d : Device). d.write_time) ds % 2 ^ 64)
        × (t.sum_in_progress ≡ over_disks (in_progress_share) ds % 2 ^ 64)
        × (t.sum_io_time ≡ over_disks (λ (d : Device). d.io_time / 1000) ds % 2 ^ 64)
        × (t.sum_io_weighted ≡ over_disks (λ (d : Device). d.io_weighted / 1000) ds % 2 ^ 64))
unfolding disksum_format add_device
disksum_format-sums ds =
    let counts = sum_devices-counts ds no_totals in
    (
      counts.0 ∙ omega arith,
      omega (arith, counts),
      disksum_format-total ds (λ (t : Totals). t.sum_reads) (λ (d : Device). d.reads)
          (λ t d. unchanged_or d.is_disk _ _ (λ (t : Totals). t.sum_reads)) refl,
      disksum_format-total ds (λ (t : Totals). t.sum_read_merges) (λ (d : Device). d.read_merges)
          (λ t d. unchanged_or d.is_disk _ _ (λ (t : Totals). t.sum_read_merges)) refl,
      disksum_format-total ds (λ (t : Totals). t.sum_read_sectors) (λ (d : Device). d.read_sectors)
          (λ t d. unchanged_or d.is_disk _ _ (λ (t : Totals). t.sum_read_sectors)) refl,
      disksum_format-total ds (λ (t : Totals). t.sum_read_time) (λ (d : Device). d.read_time)
          (λ t d. unchanged_or d.is_disk _ _ (λ (t : Totals). t.sum_read_time)) refl,
      disksum_format-total ds (λ (t : Totals). t.sum_writes) (λ (d : Device). d.writes)
          (λ t d. unchanged_or d.is_disk _ _ (λ (t : Totals). t.sum_writes)) refl,
      disksum_format-total ds (λ (t : Totals). t.sum_write_merges) (λ (d : Device). d.write_merges)
          (λ t d. unchanged_or d.is_disk _ _ (λ (t : Totals). t.sum_write_merges)) refl,
      disksum_format-total ds (λ (t : Totals). t.sum_write_sectors)
          (λ (d : Device). d.write_sectors)
          (λ t d. unchanged_or d.is_disk _ _ (λ (t : Totals). t.sum_write_sectors)) refl,
      disksum_format-total ds (λ (t : Totals). t.sum_write_time) (λ (d : Device). d.write_time)
          (λ t d. unchanged_or d.is_disk _ _ (λ (t : Totals). t.sum_write_time)) refl,
      disksum_format-total ds (λ (t : Totals). t.sum_in_progress) (in_progress_share)
          (λ t d. unchanged_or d.is_disk _ _ (λ (t : Totals). t.sum_in_progress)) refl,
      disksum_format-total ds (λ (t : Totals). t.sum_io_time) (λ (d : Device). d.io_time / 1000)
          (λ t d. unchanged_or d.is_disk _ _ (λ (t : Totals). t.sum_io_time)) refl,
      disksum_format-total ds (λ (t : Totals). t.sum_io_weighted)
          (λ (d : Device). d.io_weighted / 1000)
          (λ t d. unchanged_or d.is_disk _ _ (λ (t : Totals). t.sum_io_weighted)) refl,
    )
