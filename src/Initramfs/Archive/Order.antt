-- ===== src/Initramfs/Archive/Order.antt =====
-- internal/initramfs/cpio.go: WriteCPIO and the order in which the walk gives the paths.
use invari_os.Base.{ℕ, true, false, List, [], ◌∷◌, ◌≡◌, ◌≢◌, refl, ap, ◌∙◌, arith}
use invari_os.Initramfs.{Sink}
use invari_os.Initramfs.Archive.{Item, leb_text, insert, sort_items, write_archive}

leb_text_total : (s t : List ℕ) → leb_text s t ≡ false → leb_text t s ≡ true
unfolding leb_text
leb_text_total [] t h = absurd (cc)
leb_text_total (x ∷ s) [] h = refl
leb_text_total (x ∷ s) (y ∷ t) h = ground (arith, leb_text_total s t)

leb_text_antisym : (s t : List ℕ) → leb_text s t ≡ true → leb_text t s ≡ true → s ≡ t
unfolding leb_text
leb_text_antisym [] [] h k = refl
leb_text_antisym [] (y ∷ t) h k = absurd (cc)
leb_text_antisym (x ∷ s) [] h k = absurd (cc)
leb_text_antisym (x ∷ s) (y ∷ t) h k = ground (arith, leb_text_antisym s t)

leb_text_trans : (s t u : List ℕ) → leb_text s t ≡ true → leb_text t u ≡ true → leb_text s u ≡ true
unfolding leb_text
leb_text_trans [] t u h k = refl
leb_text_trans (x ∷ s) [] u h k = absurd (cc)
leb_text_trans (x ∷ s) (y ∷ t) [] h k = absurd (cc)
leb_text_trans (x ∷ s) (y ∷ t) (z ∷ u) h k = ground (arith, leb_text_trans s t u)

insert-insert :
    (a b : Item) (is' : List Item)
    → a.name ≢ b.name
    → insert a (insert b is') ≡ insert b (insert a is')
unfolding insert
insert-insert a b [] d =
    ground (arith, leb_text_total a.name b.name, leb_text_antisym a.name b.name)
insert-insert a b (j ∷ js) d = ground (
  arith,
  leb_text_total a.name b.name,
  leb_text_antisym a.name b.name,
  leb_text_trans a.name b.name j.name,
  leb_text_trans b.name a.name j.name,
  leb_text_total a.name j.name,
  leb_text_total b.name j.name,
  leb_text_trans a.name j.name b.name,
  leb_text_trans b.name j.name a.name,
  insert-insert a b js d,
)

-- Two orders of one walk: neighbours of different names change places.
pub data Reordered : List Item → List Item → Type 0 where
  same : (is' : List Item) → Reordered is' is'
  below : (i : Item) (is' js : List Item) → Reordered is' js → Reordered (i ∷ is') (i ∷ js)
  swapped : (i j : Item) (is' : List Item) → i.name ≢ j.name → Reordered (i ∷ j ∷ is') (j ∷ i ∷ is')
  through : (is' js ks : List Item) → Reordered is' js → Reordered js ks → Reordered is' ks

sort_items-Reordered : (is' js : List Item) → Reordered is' js → sort_items is' ≡ sort_items js
unfolding sort_items
sort_items-Reordered _ _ (same is') = refl
sort_items-Reordered _ _ (below i is' js r) = ap (insert i) (sort_items-Reordered is' js r)
sort_items-Reordered _ _ (swapped i j is' d) = insert-insert i j (sort_items is') d
sort_items-Reordered _ _ (through is' js ks r q) =
    sort_items-Reordered is' js r ∙ sort_items-Reordered js ks q

-- Whatever the writer does: two orders of the paths of one tree, whose names differ, give the same
-- archive, the same errors included.
pub write_archive-Reordered :
    (w : Sink) (is' js : List Item) (s : w.State)
    → Reordered is' js
    → write_archive w is' s ≡ write_archive w js s
unfolding write_archive
write_archive-Reordered w is' js s r = rw (sort_items-Reordered is' js r)
