-- ===== src/Initramfs/Archive/Reading.antt =====
-- internal/initramfs/cpio.go: the archive of a tree, from its reader's side.
use mathlib.Core.Path.{subst}
use invari_os.Base.{
  ℕ, zero, suc, ◌+◌, ◌%◌, ◌^◌, Bool, true, false, ◌&&◌, ◌==◌, Option, none, some, List, [], ◌∷◌,
  ◌++◌, append_assoc, append-nil, map, ok, bind, ◌>>◌, >>=-eq-ok, if◌then◌else◌, length, replicate,
  ◌≡◌, refl, sym, ap, ◌∙◌, arith,
}
use invari_os.Initramfs.{
  Sink, Info, Header, trailer_name, pad, fixed_part, write_entry, write_header, write_trailer,
}
use invari_os.Initramfs.Reader.{Member, read_entry, entry_bytes, read_entry-entry_bytes}
use invari_os.Initramfs.Writes.{SinkLaws, Appends-trans, header-Appends, padding-Appends}
use invari_os.Initramfs.RoundTrip.{Fits, write_entry-Written, type_of, data_of}
use invari_os.Initramfs.Archive.{Item, sort_items, write_items, write_archive}

abbrev same_name : List ℕ → List ℕ → Bool
same_name [] [] = true
same_name [] (y ∷ t) = false
same_name (x ∷ s) [] = false
same_name (x ∷ s) (y ∷ t) = x == y && same_name s t

-- The name that ends an archive, TRAILER!!!.
abbrev end_name : List ℕ
end_name = 0x54 ∷ 0x52 ∷ 0x41 ∷ 0x49 ∷ 0x4c ∷ 0x45 ∷ 0x52 ∷ 0x21 ∷ 0x21 ∷ 0x21 ∷ []

abbrev onto : Member → Option (List Member) → Option (List Member)
onto m none = none
onto m (some ms) = some (m ∷ ms)

-- Goes on behind an entry, unless it is the trailer; `again` reads the rest.
abbrev next_entry :
    (List ℕ → Option (List Member)) → Option (Member × List ℕ) → Option (List Member)
next_entry again none = none
next_entry again (some (m, rest)) =
    let ms = onto m (again rest) in if same_name m.name end_name then some [] else ms

-- The entries of an archive up to its trailer, if it has at most so many.
pub read_archive : ℕ → List ℕ → Option (List Member)
read_archive zero b = none
read_archive (suc n) b = next_entry (read_archive n) (read_entry b)

read_archive-next :
    (n : ℕ) (b rest : List ℕ) (m : Member) (ms : List Member)
    → read_entry b ≡ some (m, rest)
    → same_name m.name end_name ≡ false
    → read_archive n rest ≡ some ms
    → read_archive (suc n) b ≡ some (m ∷ ms)
unfolding read_archive
read_archive-next n b rest m ms e other others = rw (e, other, others)

-- An entry that Lstat describes.
abbrev pub Entry : Type 0
Entry = List ℕ × Info

abbrev pub item_of : Entry → Item
item_of (name, info) = record { name = name; info = ok info }

-- The members that a list of entries stands for, numbered from `ino` on.
abbrev pub members : ℕ → List Entry → List Member
members ino [] = []
members ino ((name, info) ∷ es) =
    record {
      ino = ino + 1;
      mode = type_of info.node + info.perm;
      nlink = 1;
      name = name;
      data_ = data_of info.node;
    }
    ∷ members (ino + 1) es

-- Every entry keeps to the format's fields, and none is named like the trailer.
abbrev pub AllFit : ℕ → List Entry → Type 0
AllFit ino [] = Unit {0}
AllFit ino ((name, info) ∷ es) =
    Fits name (ino + 1) info × (same_name name end_name ≡ false) × AllFit (ino + 1) es

module _ (w : Sink) (laws : SinkLaws w) where
  -- Bytes were appended that a reader takes for these members, whatever it reads behind them.
  record Holds (ms : List Member) (n : ℕ) (s t : w.State) : Type 0 where
    bytes : List ℕ
    appended : w.content t ≡ w.content s ++ bytes
    reads :
        (rest : List ℕ) (k : ℕ) (others : List Member)
        → read_archive k rest ≡ some others
        → read_archive (n + k) (bytes ++ rest) ≡ some (ms ++ others)

  write_items-Holds :
      (es : List Entry) (ino : ℕ) (s t : w.State)
      → AllFit ino es
      → write_items w (map item_of es) ino s ≡ (ok tt, t)
      → Holds (members ino es) (length es) s t
  unfolding write_items
  write_items-Holds [] ino s t fit h =
      let same : s ≡ t = ap (λ x. x.1) h in
      record {
        bytes = [];
        appended = ap w.content (sym same) ∙ sym (append-nil (w.content s));
        reads = λ rest k others e.
            let count : 0 + k ≡ k = omega arith in ap (λ n. read_archive n rest) count ∙ e;
      }
  write_items-Holds ((name, info) ∷ es) ino s t (fits, other, fit) h =
      let small = fits.ino_fits in
      let number : (ino + 1) % 2 ^ 32 ≡ ino + 1 = omega arith in
      let h' =
        subst
          (λ n.
            bind (write_entry w (ok info) name n s) (λ _. write_items w (map item_of es) n)
            ≡ (ok tt, t))
          number h in
      let (_, s1, first, others) =
        >>=-eq-ok (write_entry w (ok info) name (ino + 1))
          (λ _. write_items w (map item_of es) (ino + 1)) s h' in
      let a = write_entry-Written w laws name (ino + 1) info fits s s1 first in
      let b = write_items-Holds es (ino + 1) s1 t fit others in
      record {
        bytes = a.bytes ++ b.bytes;
        appended =
            b.appended
            ∙ ap (λ x. x ++ b.bytes) a.appended
            ∙ append_assoc (w.content s) a.bytes b.bytes;
        reads = λ rest k ms e.
            let count : suc (length es) + k ≡ suc (length es + k) = omega arith in
            ap (λ n. read_archive n ((a.bytes ++ b.bytes) ++ rest)) count
            ∙ ap (read_archive (suc (length es + k))) (append_assoc a.bytes b.bytes rest)
            ∙ read_archive-next (length es + k) (a.bytes ++ (b.bytes ++ rest)) (b.bytes ++ rest) _ _
                (a.read_back (b.bytes ++ rest)) other (b.reads rest k ms e);
      }

  abbrev trailer_header : Header
  trailer_header = record { ino = 0; mode = 0; file_size = 0; nlink = 0; name_size = 11 }

  trailer_bytes : (a b c d : List ℕ) → (a ++ (b ++ c)) ++ d ≡ a ++ (b ++ (c ++ d))
  trailer_bytes a b c d = search (append_assoc)

  write_trailer-Holds :
      (s t : w.State)
      → write_trailer w s ≡ (ok tt, t)
      → (bytes : List ℕ) × (w.content t ≡ w.content s ++ bytes)
        × ((rest : List ℕ) → read_archive 1 (bytes ++ rest) ≡ some [])
  unfolding write_trailer read_archive
  write_trailer-Holds s t h =
      let (_, s1, first, last) = >>=-eq-ok (write_header w trailer_header trailer_name) _ s h in
      let zeros = replicate {A = ℕ} (pad (110 + 11)) 0 in
      let a = header-Appends w laws trailer_header trailer_name s s1 (ground arith) first in
      let b = padding-Appends w laws 0 s1 t last in
      let c = Appends-trans w laws _ (replicate (pad 0) 0) s s1 t a b in
      (
        entry_bytes trailer_header trailer_name [],
        c
            ∙ ap (λ x. w.content s ++ x)
                (trailer_bytes (fixed_part trailer_header) (trailer_name ++ (0 ∷ [])) zeros
                  (replicate (pad 0) 0)),
        λ rest.
            rw
              (read_entry-entry_bytes trailer_header trailer_name [] rest refl refl (ground arith)),
      )

  -- Let the sorted items of a tree be all described by Lstat, keep to the format's 32-bit fields and
  -- not be named like the trailer, and let the part of WriteCPIO that writes them and the trailer
  -- report no error, over a writer that keeps SinkLaws. Then a reader of the newc format gets from
  -- the bytes that were appended exactly these entries, in the sorted order and numbered from 1,
  -- and nothing else.
  pub write_archive-read :
      (is' : List Item) (es : List Entry) (s t : w.State)
      → sort_items is' ≡ map item_of es
      → AllFit 0 es
      → write_archive w is' s ≡ (ok tt, t)
      → (bytes : List ℕ) × (w.content t ≡ w.content s ++ bytes)
        × (read_archive (length es + 1) bytes ≡ some (members 0 es))
  unfolding write_archive
  write_archive-read is' es s t sorted fit h =
      let h' = subst (λ x. (write_items w x 0 >> write_trailer w) s ≡ (ok tt, t)) sorted h in
      let (_, s1, first, second) =
        >>=-eq-ok (write_items w (map item_of es) 0) (λ _. write_trailer w) s h' in
      let a = write_items-Holds es 0 s s1 fit first in
      let (tail, tail_there, reads) = write_trailer-Holds s1 t second in
      let ends : read_archive 1 tail ≡ some [] =
        sym (ap (read_archive 1) (append-nil tail)) ∙ reads [] in
      (
        a.bytes ++ tail,
        tail_there ∙ ap (λ x. x ++ tail) a.appended ∙ append_assoc (w.content s) a.bytes tail,
        a.reads tail 1 [] ends ∙ ap some (append-nil (members 0 es)),
      )
