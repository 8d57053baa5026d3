-- ===== src/Disk/Hardware.antt =====
-- The machine under internal/disk, internal/meta and internal/install: what those packages call
-- of go-blockdevice, go-adv, makefs and the kernel, as operations on an unknown state.
use Prim.Native.String.{String}
use invari_os.Base.{
  take, length, ◌++◌, ◌+◌, ℕ, ◌≡◌, ◌≢◌, Bool, true, false, Option, none, some, List, ◌∷◌, Result,
  ok, All, replicate,
}
use invari_os.Base.Visits.{T}
use invari_os.Efi.LoadOption.{Guid}

-- gpt.Partition, as far as the program reads it.
pub record Partition : Type 0 where
  pub name : String
  pub part_guid : Guid
  pub first_lba : ℕ
  pub last_lba : ℕ

-- The two type GUIDs of internal/parttype.
pub data PartType : Type 0 where
  esp : PartType
  linux_filesystem : PartType

pub record Hardware : Type 1 where
  pub State : Type 0
  -- block.NewFromPath with gpt.DeviceFromBlockDevice: the error, if any.
  pub open_disk : State → String → Option String
  pub disk_size : State → String → ℕ
  -- gpt.Read followed by Partitions().
  pub read_table : State → String → Result String (List (Option Partition))
  -- gpt.New, and the table that it makes in memory.
  pub Table : Type 0
  pub new_table : State → String → Result String Table
  pub allocate_partition : Table → ℕ → String → PartType → Result String (ℕ × Partition × Table)
  -- The table's entries, by number minus one.
  pub slots : Table → List (Option Partition)
  pub largest_contiguous_allocatable : Table → ℕ
  pub write_table : Table → String → T State String (Unit {0})
  -- partitioning.DevName.
  pub dev_name : String → ℕ → String
  -- Whether os.Stat finds the path at its k-th poll from now.
  pub stat_poll : State → String → ℕ → Bool
  -- os.OpenFile for writing and for reading, WriteAt offset 0, Sync, and what the device holds.
  pub open_for_write : State → String → Option String
  pub open_for_read : State → String → Option String
  pub write_at_0 : String → List ℕ → T State String (Unit {0})
  pub sync_device : String → T State String (Unit {0})
  pub device_content : State → String → List ℕ
  -- Whether a file system on the device is mounted.
  pub is_mounted : State → String → Bool
  -- go-adv/adv/talos: Size, the bytes of an empty ADV, and whether NewADV accepts a block.
  pub adv_size : ℕ
  pub empty_adv : Result String (List ℕ)
  pub is_adv : List ℕ → Bool
  -- makefs.VFAT and makefs.XFS, on a device and with a label.
  pub mkfs_vfat : String → String → T State String (Unit {0})
  pub mkfs_xfs : String → String → T State String (Unit {0})

-- `t` differs from `s` in nothing that the install marker on the device `q` depends on.
pub record Quiet (h : Hardware) (disk q : String) (s t : h.State) : Type 0 where
  pub same_content : h.device_content t q ≡ h.device_content s q
  pub same_table : h.read_table t disk ≡ h.read_table s disk
  pub same_open : h.open_disk t disk ≡ h.open_disk s disk
  pub same_mount : h.is_mounted t q ≡ h.is_mounted s q

-- A call leaves the device `q` alone while nothing is mounted from it.
abbrev pub Leaves : (h : Hardware) → String → String → {E A : Type 0} → T h.State E A → Type 0
Leaves h disk q m =
    (s : h.State) → h.is_mounted s q ≡ false → All (Quiet h disk q s) ((m s).1 ∷ (m s).2)

-- Every entry of a table is free.
abbrev pub AllFree : List (Option Partition) → Type 0
AllFree = All λ p. p ≡ none

-- What the program relies on. A new table is empty; an allocation fills a free entry, returns its
-- one-based number and keeps the others; a table that was written is read back; a device that was
-- written holds what was written at its start; mkfs changes its own device only, and fsync none;
-- different numbers have different device nodes; a block of zeros is no ADV, an empty ADV is one.
pub record HardwareLaws (h : Hardware) : Type 0 where
  pub new_table-AllFree :
      (s : h.State) (disk : String) (t : h.Table) → h.new_table s disk ≡ ok t → AllFree (h.slots t)
  pub allocate_partition_lem :
      (t : h.Table) (size : ℕ) (name : String) (type : PartType) (n : ℕ) (p : Partition)
      (t' : h.Table)
      → h.allocate_partition t size name type ≡ ok (n, p, t')
      → (front : List (Option Partition)) × (back : List (Option Partition)) × (h.slots t
          ≡ front ++ (none ∷ back))
        × (h.slots t' ≡ front ++ (some p ∷ back))
        × (n ≡ length front + 1)
        × (p.name ≡ name)
  pub read_table-write_table :
      (t : h.Table) (disk : String) (s u : h.State) (vs : List h.State)
      → h.write_table t disk s ≡ (ok tt, u, vs)
      → (h.open_disk u disk ≡ none) × (h.read_table u disk ≡ ok (h.slots t))
  pub write_at_0-content :
      (disk q : String) (buf : List ℕ) (s u : h.State) (vs : List h.State)
      → h.write_at_0 q buf s ≡ (ok tt, u, vs)
      → (take (length buf) (h.device_content u q) ≡ buf)
        × (h.read_table u disk ≡ h.read_table s disk)
        × (h.open_disk u disk ≡ h.open_disk s disk)
        × (h.is_mounted u q ≡ h.is_mounted s q)
  pub sync_device-Leaves : (disk q p : String) → Leaves h disk q (h.sync_device p)
  pub mkfs_vfat-Leaves : (disk q p label : String) → p ≢ q → Leaves h disk q (h.mkfs_vfat p label)
  pub mkfs_xfs-Leaves : (disk q p label : String) → p ≢ q → Leaves h disk q (h.mkfs_xfs p label)
  pub dev_name_injective : (disk : String) (m n : ℕ) → h.dev_name disk m ≡ h.dev_name disk n → m ≡ n
  pub zeros_no_adv : h.is_adv (replicate h.adv_size 0) ≡ false
  pub empty_adv-is_adv :
      (b : List ℕ) → h.empty_adv ≡ ok b → (length b ≡ h.adv_size) × (h.is_adv b ≡ true)
