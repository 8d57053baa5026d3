-- ===== src/Build/Gate.antt =====
-- cmd/build.go: what a build that reports no error went through.
use Prim.Native.String.{String}
use invari_os.Base.{◌++◌, ℕ, true, All, some, [], ok, ◌≡◌, ◌≢◌}
use invari_os.Base.Text.{Text, codes, under}
use invari_os.Ociimage.{push}
use invari_os.Release.{unset, os_release_for, version, ref, tag, insecure_bool}
use invari_os.Release.OsRelease.{
  IsPlain, verify_osrel, os_release_version_id, os_release_version_id-os_release_for,
}
use invari_os.Release.OsRelease
use invari_os.Build.Linked.{IsWord, binary_of}
use invari_os.Build.Machine.{Host, Command}
use invari_os.Build.Layout.{Options}
use invari_os.Build.Prepare.{
  git_describe, build_invarios_binary, is_executable, executables, ca_bundle,
}
use invari_os.Build.Stage.{build_fat_image, build_iso, stage_esp, stage_dir}
use invari_os.Build.Steps.{l}
use invari_os.Build.{disk_out, Archiver, uki_out, stage_rootfs, assemble}

module _ (h : Host) (a : Archiver h.State) (o : Options) where
  -- The tags that git describes the tree by have no white space and no quotes, and are neither
  -- empty nor "none"; the commits and the pull repository have no white space.
  pub record GitNames : Type 0 where
    pub plain :
        (t sha : Text) (s u : h.State) → git_describe h o.root s ≡ (ok (t, sha), u) → IsPlain t
    pub named : (t sha : Text) (s u : h.State) → git_describe h o.root s ≡ (ok (t, sha), u) → t ≢ []
    pub known :
        (t sha : Text) (s u : h.State)
        → git_describe h o.root s ≡ (ok (t, sha), u)
        → t ≢ codes "none"
    pub sha_word :
        (t sha : Text) (s u : h.State) → git_describe h o.root s ≡ (ok (t, sha), u) → IsWord sha
    pub pull_word : IsWord o.pull_repo

  -- What a build from s to t went through: its root file system, for which `command` ran and linked
  -- the binary in u, in v; from its verified state s1 on the assembling of the UKI, in s2 with an
  -- os-release section; then the staging of the ESP; then the push of the staged tree, under the
  -- name that the linked binary pulls; then the images.
  pub record Published (s t : h.State) : Type 0 where
    pub tag : Text
    pub sha : Text
    pub s1 : h.State
    pub s2 : h.State
    pub s3 : h.State
    pub s4 : h.State
    pub s5 : h.State
    pub sdboot_dir : Text
    pub version_id : Text
    pub content : Text
    pub staged_rootfs : stage_rootfs h a o (l h a o) s ≡ (ok tag, s1)
    pub u : h.State
    pub v : h.State
    pub w : h.State
    pub command : Command
    pub output : Text
    pub name : Text
    pub installed : build_invarios_binary h o (l h a o) tag sha u ≡ (ok tt, v)
    pub linked : h.run command u ≡ (ok output, w)
    pub version_linked : version (binary_of command) ≡ version_id
    pub pulls : ref (binary_of command) (version (binary_of command)) o.arch ≡ o.pull_repo ++ name
    pub pulls_insecure : insecure_bool (binary_of command) ≡ o.insecure
    pub programs :
        All
          (λ rel.
            (mode : ℕ) × (h.stat s1 (under (l h a o).rootfs rel) ≡ ok mode)
            × (is_executable h mode ≡ true))
          executables
    pub certificates : (mode : ℕ) × (h.stat s1 (under (l h a o).rootfs ca_bundle) ≡ ok mode)
    pub assembled :
        assemble h a o (l h a o) (os_release_for unset.name tag) s1 ≡ (ok sdboot_dir, s2)
    pub section : h.osrel s2 (uki_out (l h a o)) ≡ ok (some (ok content))
    pub os_release : verify_osrel (some content) ≡ ok tt
    pub read : os_release_version_id (os_release_for unset.name tag) ≡ ok version_id
    pub staged :
        stage_esp h (l h a o) sdboot_dir (uki_out (l h a o)) version_id s2
        ≡ (ok (stage_dir (l h a o)), s3)
    pub pushed :
        push h.registry (o.push_repo ++ name) o.arch (stage_dir (l h a o)) o.insecure s3
        ≡ (ok tt, s4)
    pub disk : build_fat_image h (disk_out (l h a o)) (stage_dir (l h a o)) s4 ≡ (ok tt, s5)
    pub iso : build_iso h (l h a o) (stage_dir (l h a o)) s5 ≡ (ok tt, t)
