-- ===== src/Tests/Initramfs.antt =====
-- internal/initramfs: an executable of three bytes, written to an archive in memory.
use invari_os.Base.{
  ℕ, none, List, [], ◌∷◌, ◌++◌, map, length, ◌+◌, ◌<◌, ◌^◌, ok, ◌≡◌, refl, sym, ap, arith,
}
use invari_os.Base.Hex.{hex, digit}
use invari_os.Initramfs.{
  Sink, regular, Info, emit, write_padding, write_header, copied, write_payload, write_planned,
  planned, write_entry, plan_of, fixed_part, hex_fields,
}
use invari_os.Initramfs.Writes.{SinkLaws}
use invari_os.Base.{some, map, length, ◌+◌, ◌<◌, ◌^◌}
use invari_os.Initramfs.{write_trailer, directory, symlink}
use invari_os.Initramfs.Archive.Order.{swapped, write_archive-Reordered}
use invari_os.Initramfs.RoundTrip.{data_of, Fits}
use invari_os.Initramfs.Archive.{Item, leb_text, insert, sort_items, write_items, write_archive}
use invari_os.Initramfs.Archive.Reading.{
  Entry, item_of, members, AllFit, read_archive, write_archive-read,
}

abbrev memory : Sink
memory = record {
  State = List ℕ;
  write = λ b s. (none, s ++ b);
  content = λ s. s;
  close = λ s. (none, s);
}

memory-SinkLaws : SinkLaws memory
memory-SinkLaws = record { content-write = λ b s t h. sym (ap (λ x. x.1) h) }

abbrev name : List ℕ
name = b'i' ∷ b'n' ∷ b'i' ∷ b't' ∷ []

abbrev init : Info
init = record {
  perm = 0x1ed;
  node = regular 3 (ok (record { bytes = 1 ∷ 2 ∷ 3 ∷ []; read_error = none }));
}

abbrev archive : List ℕ
archive = (write_entry memory (ok init) name 1 []).1

write_entry-succeeds : write_entry memory (ok init) name 1 [] ≡ (ok tt, archive)
unfolding write_entry planned write_planned write_payload copied write_header write_padding emit
    plan_of fixed_part hex_fields hex digit
write_entry-succeeds = refl

abbrev dir : Info
dir = record { perm = 0x1ed; node = directory }

abbrev link : Info
link = record { perm = 0x1ff; node = symlink (ok (b'i' ∷ b'n' ∷ b'i' ∷ b't' ∷ [])) }

-- "sbin", "init" and "d", in the order of the walk.
abbrev tree : List Item
tree =
    record { name = b's' ∷ b'b' ∷ b'i' ∷ b'n' ∷ []; info = ok link }
    ∷ record { name = name; info = ok init }
    ∷ record { name = b'd' ∷ []; info = ok dir }
    ∷ []

abbrev sorted : List Entry
sorted = (b'd' ∷ [], dir) ∷ (name, init) ∷ (b's' ∷ b'b' ∷ b'i' ∷ b'n' ∷ [], link) ∷ []

tree-sort_items : sort_items tree ≡ map item_of sorted
unfolding sort_items insert leb_text
tree-sort_items = refl

abbrev cpio : List ℕ
cpio = (write_archive memory tree []).1

write_archive-succeeds : write_archive memory tree [] ≡ (ok tt, cpio)
unfolding write_archive write_items sort_items insert leb_text write_trailer write_entry planned
    write_planned write_payload copied write_header write_padding emit plan_of fixed_part hex_fields
    hex digit
write_archive-succeeds = refl

abbrev fits :
    (n : List ℕ) (i : ℕ) (x : Info)
    → 111 + length n < 2 ^ 32
    → i < 2 ^ 32
    → x.perm < 512
    → length (data_of x.node) < 2 ^ 32
    → Fits n i x
fits n i x a b c d = record { name_fits = a; ino_fits = b; perm_fits = c; data_fits = d }

sorted-AllFit : AllFit 0 sorted
sorted-AllFit = (
  fits (b'd' ∷ []) 1 dir (ground arith) (ground arith) (ground arith) (ground arith),
  refl,
  (
    fits name 2 init (ground arith) (ground arith) (ground arith) (ground arith),
    refl,
    (
      fits (b's' ∷ b'b' ∷ b'i' ∷ b'n' ∷ []) 3 link (ground arith) (ground arith) (ground arith)
          (ground arith),
      refl,
      tt,
    ),
  ),
)

write_archive-read_example :
    (bytes : List ℕ) × (cpio ≡ [] ++ bytes)
    × (read_archive (length sorted + 1) bytes ≡ some (members 0 sorted))
write_archive-read_example =
    write_archive-read memory memory-SinkLaws tree sorted [] cpio tree-sort_items sorted-AllFit
      write_archive-succeeds

abbrev first : List ℕ → ℕ
first [] = 0
first (c ∷ t) = c

abbrev entry_d : Item
entry_d = record { name = b'd' ∷ []; info = ok dir }

abbrev entry_i : Item
entry_i = record { name = b'i' ∷ []; info = ok init }

write_archive-Reordered_example :
    write_archive memory (entry_d ∷ entry_i ∷ []) []
    ≡ write_archive memory (entry_i ∷ entry_d ∷ []) []
write_archive-Reordered_example =
    write_archive-Reordered memory (entry_d ∷ entry_i ∷ []) (entry_i ∷ entry_d ∷ []) []
      (swapped entry_d entry_i [] (λ e. absurd (omega (arith, ap first e))))
