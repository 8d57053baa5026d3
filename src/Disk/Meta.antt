-- ===== src/Disk/Meta.antt =====
-- internal/meta/meta.go: Init, Wipe, IsInitialized and writeAt0.
pub mod Marks
use Prim.Native.String.{String}
use invari_os.Base.{
  ℕ, Bool, true, false, Option, none, some, List, [], ◌∷◌, Result, ok, err, take, replicate, ◌≡◌,
  if◌then◌else◌,
}
use invari_os.Base.Visits.{T, ◌>>=◌, ◌>>◌, bind, visit, read, wrap, wrap_result}
use invari_os.Disk.Hardware.{Hardware}

pub data Error : Type 0 where
  creating_adv : String → Error
  opening : String → Error
  writing : String → Error
  syncing : String → Error

-- The error of a call that only tests.
abbrev pub check : {E : Type 0} → (String → E) → Option String → Result E (Unit {0})
check f none = ok tt
check f (some why) = err (f why)

module _ (h : Hardware) where
  unfoldable pub write_at_start : String → List ℕ → T h.State Error (Unit {0})
  write_at_start path buf = do
    read (λ s. check opening (h.open_for_write s path))
    wrap writing (h.write_at_0 path buf)
    wrap syncing (h.sync_device path)

  unfoldable pub init : String → T h.State Error (Unit {0})
  init path = do buf ← read (λ s. wrap_result creating_adv h.empty_adv); write_at_start path buf

  unfoldable pub wipe : String → T h.State Error (Unit {0})
  wipe path = write_at_start path (replicate h.adv_size 0)

  -- The LimitReader lets NewADV see no more than Size bytes.
  pub is_initialized : h.State → String → Result Error Bool
  is_initialized s path = elim (h.open_for_read s path) [
    | some why ↦ err (opening why)
    | none ↦ ok (h.is_adv (take h.adv_size (h.device_content s path)))
  ]
