-- ===== src/Tests/Devices.antt =====
-- Reports of vmstat on two disks and a partition.
use yc_360_script.Prelude.{
  arith, ◌+◌, ◌^◌, ◌%◌, ◌/◌, ◌≡◌, refl, true, false, List, [], ◌∷◌, codes, length, take, some,
}
use yc_360_script.Prelude.Int.{pos}
use yc_360_script.Vmstat.Options.{Settings, initial, no_mode}
use yc_360_script.Vmstat.Devices.{
  Device, Slab, column_titles, device_row, partition_row, slab_row, pause, disk_rows, sampled,
  diskformat, slab_rows, slabformat, partition_rows, diskpartition_format, in_progress_share,
  disksum_format,
}
use yc_360_script.Vmstat.Devices.Sums.{count_disks, over_disks, disksum_format-sums}
use yc_360_script.Vmstat.Devices.Laws.{untitled, paced, diskformat-rounds}

abbrev sda : Device
sda = record {
  name = codes "sda";
  is_disk = true;
  reads = 5;
  read_merges = 1;
  read_sectors = 40;
  read_time = 3;
  writes = 2;
  write_merges = 0;
  write_sectors = 16;
  write_time = 1;
  in_progress = pos 0;
  io_time = 4000;
  io_weighted = 5000;
}

abbrev sda1 : Device
sda1 = record sda { name = codes "sda1"; is_disk = false }

abbrev sdb : Device
sdb = record sda { name = codes "sdb"; reads = 7 }

abbrev devices : List Device
devices = sda ∷ sda1 ∷ sdb ∷ []

abbrev twice : Settings
twice = record initial { num_updates = 2; height = 2; mode = record no_mode { disk = true } }

-- The titles come before the entries 0 and 2.
first_sample :
    disk_rows twice 0 devices ≡ column_titles ∷ device_row sda ∷ column_titles ∷ device_row sdb ∷ []
unfolding disk_rows
first_sample = refl

-- A partition at a multiple of the height takes the titles with it.
titles_missing :
    disk_rows twice 0 (sda ∷ sdb ∷ sda1 ∷ sdb ∷ [])
    ≡ column_titles ∷ device_row sda ∷ device_row sdb ∷ device_row sdb ∷ []
unfolding disk_rows
titles_missing = refl

one_partition :
    diskpartition_format twice true (some sda1 ∷ some sda1 ∷ [])
    ≡ column_titles ∷ partition_row 5 40 2 16 ∷ pause 1 ∷ partition_row 5 40 2 16 ∷ []
unfolding diskpartition_format partition_rows
one_partition = refl

abbrev dentries : Slab
dentries = record {
  name = codes "dentry";
  active_objs = 9;
  num_objs = 10;
  obj_size = 192;
  objs_per_slab = 21;
}

slabs :
    slabformat (λ ps. ps) (record twice { num_updates = 1 }) ((dentries ∷ []) ∷ [])
    ≡ column_titles ∷ slab_row (codes "dentry") (9 ∷ 10 ∷ 192 ∷ 21 ∷ []) ∷ []
unfolding slabformat sampled slab_rows
slabs = refl

two_rounds :
    untitled (diskformat twice (devices ∷ devices ∷ []))
    ≡ device_row sda ∷ device_row sdb ∷ pause 1 ∷ device_row sda ∷ device_row sdb ∷ []
unfolding diskformat sampled disk_rows
two_rounds = refl

diskformat-rounds_example :
    untitled (diskformat twice (devices ∷ devices ∷ []))
    ≡ paced twice.sleep_time (take 2 (devices ∷ devices ∷ []))
diskformat-rounds_example =
    diskformat-rounds twice (devices ∷ devices ∷ []) refl (omega arith) (omega arith)

disksum_format-sums_example :
    (let t = disksum_format devices in
      (t.disk_count ≡ count_disks devices)
      × (t.disk_count + t.part_count ≡ length devices)
      × (t.sum_reads ≡ over_disks (λ (d : Device). d.reads) devices % 2 ^ 64)
      × (t.sum_read_merges ≡ over_disks (λ (d : Device). d.read_merges) devices % 2 ^ 64)
      × (t.sum_read_sectors ≡ over_disks (λ (d : Device). d.read_sectors) devices % 2 ^ 64)
      × (t.sum_read_time ≡ over_disks (λ (d : Device). d.read_time) devices % 2 ^ 64)
      × (t.sum_writes ≡ over_disks (λ (d : Device). d.writes) devices % 2 ^ 64)
      × (t.sum_write_merges ≡ over_disks (λ (d : Device). d.write_merges) devices % 2 ^ 64)
      × (t.sum_write_sectors ≡ over_disks (λ (d : Device). d.write_sectors) devices % 2 ^ 64)
      × (t.sum_write_time ≡ over_disks (λ (d : Device). d.write_time) devices % 2 ^ 64)
      × (t.sum_in_progress ≡ over_disks (in_progress_share) devices % 2 ^ 64)
      × (t.sum_io_time ≡ over_disks (λ (d : Device). d.io_time / 1000) devices % 2 ^ 64)
      × (t.sum_io_weighted ≡ over_disks (λ (d : Device). d.io_weighted / 1000) devices % 2 ^ 64))
disksum_format-sums_example = disksum_format-sums devices
