-- ===== src/Disk/Layout.antt =====
-- internal/disk/disk.go: CheckMinimumSize, WaitForPartition, IsInstalled and ReadLayout.
pub mod Partitioning
pub mod Names
pub mod RoundTrip
pub mod Mark
pub mod Ready
use Prim.Native.String.{String}
use text.Mathlib.Text.{◌==◌ as str_eq}
use invari_os.Base.{
  ℕ, zero, suc, ◌+◌, ◌*◌, ◌≡◌, Bool, true, false, not, ◌&&◌, Option, none, some, List, [], ◌∷◌,
  Result, ok, err, and_then, ltb, ◌==◌, if◌then◌else◌,
}
use invari_os.Base.Visits.{T, ◌>>=◌, ◌>>◌, bind, visit, read, wrap, wrap_result}
use invari_os.Efi.LoadOption.{Guid}
use invari_os.Disk.Hardware.{Hardware, Partition, PartType, esp, linux_filesystem}
use invari_os.Disk.Meta
use invari_os.Disk.Meta.{check, is_initialized}

abbrev pub esp_name : String
esp_name = "ESP"

abbrev pub meta_name : String
meta_name = "META"

abbrev pub state_name : String
state_name = "STATE"

abbrev pub data_name : String
data_name = "DATA"

abbrev pub mib : ℕ
mib = 1024 * 1024

abbrev pub xfs_min_size : ℕ
xfs_min_size = 300 * mib

abbrev pub esp_size : ℕ
esp_size = 320 * mib

abbrev pub meta_size : ℕ
meta_size = 1 * mib

abbrev pub state_size : ℕ
state_size = 512 * mib

abbrev pub minimum_disk_size : ℕ
minimum_disk_size = esp_size + meta_size + state_size + xfs_min_size

pub record PartitionInfo : Type 0 where
  pub number : ℕ
  pub partition : Partition

pub record Layout : Type 0 where
  pub esp : PartitionInfo
  pub meta : PartitionInfo
  pub state : PartitionInfo
  pub data_part : PartitionInfo

pub data Error : Type 0 where
  opening_disk : String → Error
  too_small : ℕ → Error
  reading_table : String → Error
  missing_partitions : Error
  creating_table : String → Error
  allocating : String → String → Error
  no_space_for_data : Error
  writing_table : String → Error
  not_appeared : String → Error
  formatting : String → String → Error
  checking_meta : Meta.Error → Error
  reading_class : String → Error
  no_disk : Error
  too_many_disks : ℕ → Error

-- WaitForPartition polls every 50 ms; a poll that is past the deadline is the last.
abbrev pub poll_interval : ℕ
poll_interval = 50

abbrev pub node_timeout : ℕ
node_timeout = 5000

-- The polls of the names that `IsInstalled` and `ReadLayout` look for, in table order: the
-- partitions with their one-based numbers.
pub numbered : ℕ → List (Option Partition) → List PartitionInfo
numbered i [] = []
numbered i (none ∷ ps) = numbered (i + 1) ps
numbered i (some p ∷ ps) = record { number = i + 1; partition = p } ∷ numbered (i + 1) ps

-- The first partition with a name: what `remaining` keeps.
pub first_named : String → List PartitionInfo → Option PartitionInfo
first_named name [] = none
first_named name (p ∷ ps) = if str_eq p.partition.name name then some p else first_named name ps

-- The last one: `metaNumber` is overwritten by each.
pub last_named : String → Option PartitionInfo → List PartitionInfo → Option PartitionInfo
last_named name found [] = found
last_named name found (p ∷ ps) =
    last_named name (if str_eq p.partition.name name then some p else found) ps

is_some : Option PartitionInfo → Bool
is_some none = false
is_some (some p) = true

-- len(found) == len(want).
pub all_found : List PartitionInfo → Bool
unfolding first_named is_some
all_found ps =
    is_some (first_named esp_name ps)
    && (is_some (first_named meta_name ps)
        && (is_some (first_named state_name ps) && is_some (first_named data_name ps)))

number_of : Option PartitionInfo → ℕ
number_of none = 0
number_of (some p) = p.number

pub meta_number : List PartitionInfo → ℕ
unfolding last_named number_of
meta_number ps = number_of (last_named meta_name none ps)

layout_of :
    Option PartitionInfo
    → Option PartitionInfo
    → Option PartitionInfo
    → Option PartitionInfo
    → Result Error Layout
layout_of (some e) (some m) (some s) (some d) =
    ok (record { esp = e; meta = m; state = s; data_part = d })
layout_of _ _ _ _ = err missing_partitions

module _ (h : Hardware) where
  pub check_minimum_size : String → h.State → Result Error (Unit {0})
  check_minimum_size disk s = elim (h.open_disk s disk) [
    | some why ↦ err (opening_disk why)
    | none ↦
        if ltb (h.disk_size s disk) minimum_disk_size
        then err (too_small (h.disk_size s disk))
        else ok tt
  ]

  -- The polls from the k-th on, with the rounds left; poll k is made at 50 k ms.
  unfoldable pub wait_from : ℕ → h.State → String → ℕ → Result Error (Unit {0})
  wait_from zero s path k = err (not_appeared path)
  wait_from (suc rounds) s path k =
      let rest = wait_from rounds s path (k + 1) in
      if h.stat_poll s path k
      then ok tt
      else if ltb node_timeout (k * poll_interval)
      then err (not_appeared path)
      else rest

  -- With a timeout of 5 s the poll at 5050 ms is past the deadline: 102 rounds reach it.
  unfoldable pub wait_for_partition : String → h.State → Result Error (Unit {0})
  unfolding wait_from
  wait_for_partition path s = wait_from 102 s path 0

  checked_meta : h.State → String → Result Error Bool
  checked_meta s path = wrap_result checking_meta (is_initialized h s path)

  installed_at : h.State → String → Result Error Bool
  unfolding wait_for_partition checked_meta
  installed_at s path = elim (wait_for_partition path s) [
    | err e ↦ err e
    | ok _ ↦ checked_meta s path
  ]

  installed_on : h.State → String → List PartitionInfo → Result Error Bool
  unfolding installed_at all_found meta_number
  installed_on s disk ps =
      if not (all_found ps) then ok false else installed_at s (h.dev_name disk (meta_number ps))

  -- A table that cannot be read is no install.
  pub is_installed : String → h.State → Result Error Bool
  unfolding installed_on
  is_installed disk s = elim (h.open_disk s disk) [
    | some why ↦ err (opening_disk why)
    | none ↦ elim (h.read_table s disk) [
      | err why ↦ ok false
      | ok table ↦ installed_on s disk (numbered 0 table)
    ]
  ]

  pub layout_on : List PartitionInfo → Result Error Layout
  unfolding layout_of first_named
  layout_on ps =
      layout_of (first_named esp_name ps) (first_named meta_name ps) (first_named state_name ps)
        (first_named data_name ps)

  pub read_layout : String → h.State → Result Error Layout
  unfolding layout_on numbered
  read_layout disk s = elim (h.open_disk s disk) [
    | some why ↦ err (opening_disk why)
    | none ↦ elim (h.read_table s disk) [
      | err why ↦ err (reading_table why)
      | ok table ↦ layout_on (numbered 0 table)
    ]
  ]
