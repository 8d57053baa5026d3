-- ===== src/Initramfs/Archive.antt =====
-- internal/initramfs/cpio.go: WriteCPIO, from the walk of the tree to the closed file.
pub mod Reading
pub mod Order
use Prim.Native.String.{String}
use invari_os.Base.{
  ℕ, ◌+◌, ◌%◌, ◌^◌, Bool, true, false, Option, none, some, List, [], ◌∷◌, Result, ok, err, M, bind,
  ◌>>=◌, ◌>>◌, ltb, ◌==◌, if◌then◌else◌,
}
use invari_os.Initramfs.{
  Sink, Error, creating, creating_gzip, walking, closing, Info, written, write_entry, write_trailer,
}

-- A path of the walk by its name in the archive, which filepath.Rel and ToSlash give for every path
-- below the root, with what Lstat says of it.
pub record Item : Type 0 where
  pub name : List ℕ
  pub info : Result String Info

-- Go's order of strings.
unfoldable pub leb_text : List ℕ → List ℕ → Bool
leb_text [] t = true
leb_text (x ∷ s) [] = false
leb_text (x ∷ s) (y ∷ t) = if ltb x y then true else if x == y then leb_text s t else false

unfoldable pub insert : Item → List Item → List Item
unfolding leb_text
insert i [] = i ∷ []
insert i (j ∷ js) = if leb_text i.name j.name then i ∷ j ∷ js else j ∷ insert i js

-- sort.Strings on the paths, which have the root in common and differ.
unfoldable pub sort_items : List Item → List Item
unfolding insert
sort_items [] = []
sort_items (i ∷ is') = insert i (sort_items is')

module _ (w : Sink) where
  -- `ino` is the number of the entry before.
  unfoldable pub write_items : List Item → ℕ → M w.State Error (Unit {0})
  write_items [] ino s = (ok tt, s)
  write_items (i ∷ is') ino s =
      bind (write_entry w i.info i.name ((ino + 1) % 2 ^ 32) s)
        (λ _. write_items is' ((ino + 1) % 2 ^ 32))

  unfoldable pub close_gzip : M w.State Error (Unit {0})
  close_gzip s = written w closing (w.close s)

  unfoldable pub write_archive : List Item → M w.State Error (Unit {0})
  unfolding write_items sort_items
  write_archive is' = write_items (sort_items is') 0 >> write_trailer w

  unfoldable pub walked : Result String (List Item) → M w.State Error (Unit {0})
  unfolding write_archive close_gzip
  walked (err why) s = (err (walking why), s)
  walked (ok is') s = (write_archive is' >> close_gzip) s

  -- Closing the file counts where nothing failed before.
  unfoldable pub file_closed :
      Option String → Result Error (Unit {0}) × w.State → Result Error (Unit {0}) × w.State
  file_closed none p = p
  file_closed (some why) (ok _, s) = (err (closing why), s)
  file_closed (some why) (err e, s) = (err e, s)

  -- The errors of os.Create, of gzip.NewWriterLevel and of Close, and what the walk brings.
  unfoldable pub write_cpio :
      Option String
      → Option String
      → Option String
      → Result String (List Item)
      → M w.State Error (Unit {0})
  unfolding walked file_closed
  write_cpio (some why) gzip close walk s = (err (creating why), s)
  write_cpio none (some why) close walk s = file_closed close (err (creating_gzip why), s)
  write_cpio none none close walk s = file_closed close (walked walk s)
