-- ===== src/Tests/Release.antt =====
-- internal/version, internal/bootimage and the os-release of cmd/build.go: a build of tag v1.2.
use invari_os.Base.{some, ok, ◌≡◌, arith}
use invari_os.Base.Text.{Text, codes, is_space, IsLine}
use invari_os.Release.{os_release_for}
use invari_os.Release.OsRelease.{
  IsPlain, os_release_version_id, verify_osrel, os_release_version_id-os_release_for,
  verify_osrel-os_release_for,
}

abbrev pub tag : Text
tag = codes "v1.2"

pub tag-IsPlain : IsPlain tag
unfolding is_space
tag-IsPlain = ground arith

name-IsLine : IsLine (codes "InvariOS")
name-IsLine = ground arith

os_release_version_id-os_release_for_example :
    os_release_version_id (os_release_for (codes "InvariOS") tag) ≡ ok tag
os_release_version_id-os_release_for_example =
    os_release_version_id-os_release_for (codes "InvariOS") tag name-IsLine tag-IsPlain

rendered_release_verified : verify_osrel (some (os_release_for (codes "InvariOS") tag)) ≡ ok tt
rendered_release_verified =
    verify_osrel-os_release_for (codes "InvariOS") tag name-IsLine tag-IsPlain
