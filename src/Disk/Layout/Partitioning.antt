-- ===== src/Disk/Layout/Partitioning.antt =====
-- internal/disk/disk.go: Partition and Format.
use Prim.Native.String.{String}
use invari_os.Base.{ℕ, Result, ok, err, and_then, ◌==◌, if◌then◌else◌}
use invari_os.Base.Visits.{T, ◌>>=◌, ◌>>◌, read, wrap, wrap_result}
use invari_os.Disk.Hardware.{Hardware, Partition, PartType, esp, linux_filesystem}
use invari_os.Disk.Meta.{check}
use invari_os.Disk.Layout.{
  PartitionInfo, Layout, Error, esp_name, meta_name, state_name, data_name, esp_size, meta_size,
  state_size, opening_disk, creating_table, allocating, no_space_for_data, writing_table,
  formatting, wait_for_partition,
}

module _ (h : Hardware) where
  abbrev Disks : Type 0 → Type 0
  Disks A = T h.State Error A

  unfoldable pub pair_up :
      String → Result String (ℕ × Partition × h.Table) → Result Error (PartitionInfo × h.Table)
  pair_up name (err why) = err (allocating name why)
  pair_up name (ok (n, p, table)) = ok (record { number = n; partition = p }, table)

  unfoldable pub allocate : h.Table → ℕ → String → PartType → Result Error (PartitionInfo × h.Table)
  unfolding pair_up
  allocate table size name type = pair_up name (h.allocate_partition table size name type)

  unfoldable pub data_size : h.Table → Result Error ℕ
  data_size table =
      if h.largest_contiguous_allocatable table == 0
      then err no_space_for_data
      else ok (h.largest_contiguous_allocatable table)

  -- The four allocations of Partition, each behind the ones before.
  unfoldable pub fill_data :
      PartitionInfo → PartitionInfo → PartitionInfo → h.Table → Result Error (Layout × h.Table)
  unfolding allocate data_size
  fill_data e m s table = and_then (data_size table) λ size.
      and_then (allocate table size data_name linux_filesystem)
        λ r. ok (record { esp = e; meta = m; state = s; data_part = r.0 }, r.1)

  unfoldable pub fill_state :
      PartitionInfo → PartitionInfo → h.Table → Result Error (Layout × h.Table)
  unfolding allocate fill_data
  fill_state e m table =
      and_then (allocate table state_size state_name linux_filesystem) λ r. fill_data e m r.0 r.1

  unfoldable pub fill_meta : PartitionInfo → h.Table → Result Error (Layout × h.Table)
  unfolding allocate fill_state
  fill_meta e table =
      and_then (allocate table meta_size meta_name linux_filesystem) λ r. fill_state e r.0 r.1

  unfoldable pub fill : h.Table → Result Error (Layout × h.Table)
  unfolding allocate fill_meta
  fill table = and_then (allocate table esp_size esp_name esp) λ r. fill_meta r.0 r.1

  -- What Partition makes in memory before it writes.
  unfoldable pub planned : String → h.State → Result Error (Layout × h.Table)
  unfolding fill
  planned disk s =
      and_then (check opening_disk (h.open_disk s disk))
        λ _. and_then (wrap_result creating_table (h.new_table s disk)) fill

  unfoldable pub partition : String → Disks Layout
  unfolding planned
  partition disk = do
    plan ← read (planned disk)
    wrap writing_table (h.write_table plan.1 disk)
    read (λ _. ok plan.0)

  unfoldable pub format_one :
      String
      → PartitionInfo
      → String
      → (String → String → T h.State String (Unit {0}))
      → Disks (Unit {0})
  unfolding wait_for_partition
  format_one disk p label mkfs = do
    read (wait_for_partition h (h.dev_name disk p.number))
    wrap (formatting label) (mkfs (h.dev_name disk p.number) label)

  unfoldable pub format : String → Layout → Disks (Unit {0})
  unfolding format_one
  format disk layout = do
    format_one disk layout.esp esp_name h.mkfs_vfat
    format_one disk layout.state state_name h.mkfs_xfs
    format_one disk layout.data_part data_name h.mkfs_xfs
