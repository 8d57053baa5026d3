-- ===== src/Tests/Build/Tree.antt =====
-- cmd/build.go: a template of one file, copied in memory.
use invari_os.Base.{none, [], ◌∷◌, ok, ◌≡◌, refl, ap, ◌∙◌, sym, arith}
use invari_os.Base.Text.{Text, codes, same_text}
use invari_os.Build.Machine.{Host, Visit, walk_failed, here, visited, directory, regular}
use invari_os.Build.Files.{
  copy_error, closed, copied, copy_file, copy_kind, copy_info, copy_visit, copy_visits, copy_tree,
}
use invari_os.Build.Files.Copied.{FileLaws}
use invari_os.Build.Files.Tree.{
  Once, Apart, Copies, Untouched, source_of, target_of, copy_tree-Copies,
}
use invari_os.Tests.Build.{Files, put, memory, memory-FileLaws}

abbrev host : Host
host = record memory {
  walk = λ s p.
      here (ok (directory 493))
      ∷ visited (codes "etc") (ok (directory 493))
      ∷ visited (codes "etc/hosts") (ok (regular 420))
      ∷ [];
}

host-FileLaws : FileLaws host
host-FileLaws = record {
  file = memory-FileLaws.file;
  open_file-file = memory-FileLaws.open_file-file;
  mkdir_all-file = memory-FileLaws.mkdir_all-file;
  create-self = memory-FileLaws.create-self;
  create-other = memory-FileLaws.create-other;
  write-self = memory-FileLaws.write-self;
  write-other = memory-FileLaws.write-other;
  close-file = memory-FileLaws.close-file;
  write_file-self = memory-FileLaws.write_file-self;
  write_file-other = memory-FileLaws.write_file-other;
  remove_all-under = memory-FileLaws.remove_all-under;
  remove_all-outside = memory-FileLaws.remove_all-outside;
}

abbrev src : Text
src = codes "rootfs"

abbrev dst : Text
dst = codes "/b/rootfs"

abbrev checked_in : Files
checked_in = put (codes "rootfs/etc/hosts") (1 ∷ 2 ∷ []) (λ p. none)

abbrev staged : Files
staged = (copy_tree host src dst checked_in).1

source-relative : (v : Visit) → (x : Text) × (source_of host host-FileLaws src dst v ≡ b'r' ∷ x)
source-relative (walk_failed why) = (_, refl)
source-relative (here info) = (_, refl)
source-relative (visited rel info) = (_, refl)

target-absolute : (v : Visit) → (x : Text) × (target_of host host-FileLaws src dst v ≡ b'/' ∷ x)
target-absolute (walk_failed why) = (_, refl)
target-absolute (here info) = (_, refl)
target-absolute (visited rel info) = (_, refl)

host-Apart : Apart host host-FileLaws src dst
host-Apart = record {
  link-other = λ to p q s t e differs. ap (λ x. host-FileLaws.file x.1 q) (sym e);
  sources = λ v w same.
      let (x, a) = source-relative v in
      let (y, b) = target-absolute w in
      let heads : b'r' ∷ x ≡ b'/' ∷ y = sym a ∙ same ∙ b in absurd (ground arith);
}

checked_in-copy : copy_tree host src dst checked_in ≡ (ok tt, staged)
unfolding copy_tree copy_visits copy_visit copy_info copy_kind copy_file copied copy_error closed
    same_text
checked_in-copy = refl

walk-Once : Once host host-FileLaws src dst (host.walk checked_in src)
walk-Once = (
  ((λ e. absurd (ground arith)), ((λ e. absurd (ground arith)), tt)),
  (((λ e. absurd (ground arith)), tt), (tt, tt)),
)

copy_tree-Copies_example :
    Copies host host-FileLaws src dst host-Apart checked_in staged (host.walk checked_in src)
    × ((q : Text)
        → Untouched host host-FileLaws src dst (host.walk checked_in src) q
        → host-FileLaws.file staged q ≡ host-FileLaws.file checked_in q)
copy_tree-Copies_example =
    copy_tree-Copies host host-FileLaws src dst host-Apart checked_in staged walk-Once
      checked_in-copy
