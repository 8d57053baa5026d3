-- ===== src/Build/Uki.antt =====
-- internal/uki/uki.go, with the PE editing as an operation of the host, and verifyUKI.
use Prim.Native.String.{String}
use invari_os.Base.{ℕ, Option, none, some, List, [], ◌∷◌, Result, ok, err, ◌>>=◌, ◌>>◌}
use invari_os.Base.Text.{Text, codes, under}
use invari_os.Release.OsRelease.{verify_osrel}
use invari_os.Release.OsRelease
use invari_os.Build.Machine.{
  Host, Section, Error, plain, os_release, within, Build, checked, lifted, in_step,
}

-- uki.Config.
pub record Config : Type 0 where
  pub stub_path : Text
  pub kernel_path : Text
  pub initrd_path : Text
  pub cmdline : Text
  pub os_release : Text
  pub output_path : Text

-- 0600.
abbrev private_mode : ℕ
private_mode = 384

-- The sections, in the order in which they are appended.
unfoldable pub sections : Config → Text → List Section
sections c dir =
    record { name = codes ".cmdline"; path = under dir (codes "cmdline") }
    ∷ record { name = codes ".osrel"; path = under dir (codes "os-release") }
    ∷ record { name = codes ".initrd"; path = c.initrd_path }
    ∷ record { name = codes ".linux"; path = c.kernel_path }
    ∷ []

module _ (h : Host) where
  -- Build behind the creation of its scratch directory.
  unfoldable pub assemble_in : Config → Text → Build h (Unit {0})
  unfolding sections
  assemble_in c dir = do
    in_step h "writing cmdline section"
        (λ s. checked h (h.write_file (under dir (codes "cmdline")) c.cmdline private_mode s))
    in_step h "writing os-release section"
        (λ s. checked h (h.write_file (under dir (codes "os-release")) c.os_release private_mode s))
    in_step h "assembling UKI"
        (λ s. checked h (h.assemble c.stub_path c.output_path (sections c dir) s))

  -- The deferred RemoveAll, whose error is dropped.
  unfoldable pub swept :
      Text → Result Error (Unit {0}) × h.State → Result Error (Unit {0}) × h.State
  swept dir (answer, s) = (answer, (h.remove_all dir s).1)

  abbrev made : Result String Text × h.State → Result Error Text × h.State
  made (r, s) = (lifted h r, s)

  unfoldable pub build : Config → Build h (Unit {0})
  unfolding assemble_in swept
  build c = do
    dir ← in_step h "creating scratch dir" (λ s. made (h.mkdir_temp s))
    λ s. swept dir (assemble_in c dir s)

  unfoldable pub judged : Result OsRelease.Error (Unit {0}) → Result Error (Unit {0})
  judged (ok _) = ok tt
  judged (err e) = err (os_release e)

  unfoldable pub verify_section : Option (Result String Text) → Result Error (Unit {0})
  unfolding judged
  verify_section none = judged (verify_osrel none)
  verify_section (some (err why)) = err (within "reading .osrel section" (plain why))
  verify_section (some (ok content)) = judged (verify_osrel (some content))

  unfoldable pub verify_opened :
      Result String (Option (Result String Text)) → Result Error (Unit {0})
  unfolding verify_section
  verify_opened (err why) = err (plain why)
  verify_opened (ok section) = verify_section section

  unfoldable pub verify_uki : Text → Build h (Unit {0})
  unfolding verify_opened
  verify_uki path s = (verify_opened (h.osrel s path), s)
