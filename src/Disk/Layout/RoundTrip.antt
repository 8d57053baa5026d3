-- ===== src/Disk/Layout/RoundTrip.antt =====
-- internal/disk/disk.go: what ReadLayout and IsInstalled find in the table that Partition wrote.
use Prim.Native.String.{String}
use mathlib.Core.Path.{subst}
use invari_os.Base.{
  ℕ, ◌≡◌, refl, ap, sym, ◌∙◌, true, Option, none, some, List, Result, ok, err, arith,
  and_then-eq-ok, ok_injective,
}
use invari_os.Base.Visits.{read, wrap, wrap_result, >>=-eq-ok, read-eq-ok, wrap-eq-ok}
use invari_os.Disk.Hardware.{
  Hardware, HardwareLaws, Partition, PartType, esp, linux_filesystem, AllFree,
}
use invari_os.Disk.Meta.{check}
use invari_os.Disk.Layout.{
  opening_disk, creating_table, writing_table, PartitionInfo, Layout, Error, esp_name, meta_name,
  state_name, data_name, esp_size, meta_size, state_size, numbered, first_named, last_named,
  read_layout, layout_on, meta_number, all_found,
}
use invari_os.Disk.Layout.Partitioning.{
  allocate, pair_up, data_size, fill_data, fill_state, fill_meta, fill, planned, partition,
}
use invari_os.Disk.Layout.Names.{
  Unnamed, Unnamed-AllFree, Filled, Filled-first_named, Filled-last_named, Filled-Unnamed,
  Filled-first_named_other, Filled-last_named_other,
}

-- A table in which the four partitions of a layout were allocated in the order of the code.
pub record Allocated (layout : Layout) (ts : List (Option Partition)) : Type 0 where
  pub t0 : List (Option Partition)
  pub t1 : List (Option Partition)
  pub t2 : List (Option Partition)
  pub t3 : List (Option Partition)
  pub empty : AllFree t0
  pub esp : Filled esp_name layout.esp t0 t1
  pub meta : Filled meta_name layout.meta t1 t2
  pub state : Filled state_name layout.state t2 t3
  pub data_part : Filled data_name layout.data_part t3 ts

module _ (layout : Layout) (ts : List (Option Partition)) (a : Allocated layout ts) where
  free : (name : String) → Unnamed name a.t0
  free name = Unnamed-AllFree name a.t0 a.empty

  pub first_esp : first_named esp_name (numbered 0 ts) ≡ some layout.esp
  first_esp =
      Filled-first_named_other a.data_part esp_name refl
      ∙ Filled-first_named_other a.state esp_name refl
      ∙ Filled-first_named_other a.meta esp_name refl
      ∙ Filled-first_named a.esp (free esp_name)

  pub first_meta : first_named meta_name (numbered 0 ts) ≡ some layout.meta
  first_meta =
      Filled-first_named_other a.data_part meta_name refl
      ∙ Filled-first_named_other a.state meta_name refl
      ∙ Filled-first_named a.meta (Filled-Unnamed a.esp meta_name refl (free meta_name))

  pub first_state : first_named state_name (numbered 0 ts) ≡ some layout.state
  first_state =
      Filled-first_named_other a.data_part state_name refl
      ∙ Filled-first_named a.state (
          Filled-Unnamed a.meta state_name refl
            (Filled-Unnamed a.esp state_name refl (free state_name)))

  pub first_data : first_named data_name (numbered 0 ts) ≡ some layout.data_part
  first_data = Filled-first_named a.data_part (
      Filled-Unnamed a.state data_name refl (
        Filled-Unnamed a.meta data_name refl
          (Filled-Unnamed a.esp data_name refl (free data_name))))

  last_meta : last_named meta_name none (numbered 0 ts) ≡ some layout.meta
  last_meta =
      Filled-last_named_other a.data_part meta_name refl
      ∙ Filled-last_named_other a.state meta_name refl
      ∙ Filled-last_named a.meta (Filled-Unnamed a.esp meta_name refl (free meta_name))

  pub meta_number-Allocated : meta_number (numbered 0 ts) ≡ layout.meta.number
  unfolding meta_number
  meta_number-Allocated = rw last_meta

  pub all_found-Allocated : all_found (numbered 0 ts) ≡ true
  unfolding all_found
  all_found-Allocated = rw (first_esp, first_meta, first_state, first_data)

module _ (h : Hardware) (laws : HardwareLaws h) where
  pub layout_on-Allocated :
      (layout : Layout) (ts : List (Option Partition))
      → Allocated layout ts
      → layout_on h (numbered 0 ts) ≡ ok layout
  unfolding layout_on
  layout_on-Allocated layout ts a = rw (
    first_esp layout ts a,
    first_meta layout ts a,
    first_state layout ts a,
    first_data layout ts a,
  )

  pair_up_ok :
      (name : String) (r : Result String (ℕ × Partition × h.Table)) (info : PartitionInfo)
      (t : h.Table)
      → pair_up h name r ≡ ok (info, t)
      → r ≡ ok (info.number, info.partition, t)
  unfolding pair_up
  pair_up_ok name (err why) info t e = absurd (cc)
  pair_up_ok name (ok (n, p, t')) info t e = ground arith

  allocate-Filled :
      (t : h.Table) (size : ℕ) (name : String) (type : PartType) (r : PartitionInfo × h.Table)
      → allocate h t size name type ≡ ok r
      → Filled name r.0 (h.slots t) (h.slots r.1)
  unfolding allocate
  allocate-Filled t size name type (info, t') e =
      let got = pair_up_ok name (h.allocate_partition t size name type) info t' e in
      let (front, back, was, now, number, named) =
        laws.allocate_partition_lem t size name type info.number info.partition t' got in
      record {
        front = front;
        back = back;
        free = was;
        filled = now;
        number_is = number;
        name_is = named;
      }

  -- One stage: what is allocated first, and what the later stages make of the rest.
  fill_data_ok :
      (e m s : PartitionInfo) (t : h.Table) (r : Layout × h.Table)
      → fill_data h e m s t ≡ ok r
      → (d : PartitionInfo) × Filled data_name d (h.slots t) (h.slots r.1)
        × (r.0 ≡ record { esp = e; meta = m; state = s; data_part = d })
  unfolding fill_data
  fill_data_ok e m s t r k =
      let (size, _, k1) = and_then-eq-ok (data_size h t) _ k in
      let (q, got, k2) = and_then-eq-ok (allocate h t size data_name linux_filesystem) _ k1 in
      let same = ok_injective Error k2 in
      (
        q.0,
        subst (λ x. Filled data_name q.0 (h.slots t) (h.slots x)) (ap (λ x. x.1) same)
            (allocate-Filled t size data_name linux_filesystem q got),
        sym (ap (λ x. x.0) same),
      )

  fill_ok :
      (t : h.Table) (r : Layout × h.Table)
      → AllFree (h.slots t)
      → fill h t ≡ ok r
      → Allocated r.0 (h.slots r.1)
  unfolding fill fill_meta fill_state
  fill_ok t r empty k =
      let (q1, got1, k1) = and_then-eq-ok (allocate h t esp_size esp_name esp) _ k in
      let (q2, got2, k2) =
        and_then-eq-ok (allocate h q1.1 meta_size meta_name linux_filesystem) _ k1 in
      let (q3, got3, k3) =
        and_then-eq-ok (allocate h q2.1 state_size state_name linux_filesystem) _ k2 in
      let (d, got4, same) = fill_data_ok q1.0 q2.0 q3.0 q3.1 r k3 in
      subst (λ l. Allocated l (h.slots r.1)) (sym same)
        (record {
          t0 = h.slots t;
          t1 = h.slots q1.1;
          t2 = h.slots q2.1;
          t3 = h.slots q3.1;
          empty = empty;
          esp = allocate-Filled t esp_size esp_name esp q1 got1;
          meta = allocate-Filled q1.1 meta_size meta_name linux_filesystem q2 got2;
          state = allocate-Filled q2.1 state_size state_name linux_filesystem q3 got3;
          data_part = got4;
        })

  wrap_result_ok :
      {A : Type 0} (f : String → Error) (r : Result String A) {a : A}
      → wrap_result f r ≡ ok a
      → r ≡ ok a
  wrap_result_ok f (ok a) k = cc
  wrap_result_ok f (err x) k = absurd (cc)

  planned-Allocated :
      (disk : String) (s : h.State) (r : Layout × h.Table)
      → planned h disk s ≡ ok r
      → Allocated r.0 (h.slots r.1)
  unfolding planned
  planned-Allocated disk s r k =
      let (_, _, k1) = and_then-eq-ok (check opening_disk (h.open_disk s disk)) _ k in
      let (t, made, k2) =
        and_then-eq-ok (wrap_result creating_table (h.new_table s disk)) (fill h) k1 in
      let new = wrap_result_ok creating_table (h.new_table s disk) made in
      fill_ok t r (laws.new_table-AllFree s disk t new) k2

  -- The disk behind Partition: its table holds the layout.
  pub record Partitioned (disk : String) (layout : Layout) (u : h.State) : Type 0 where
    pub ts : List (Option Partition)
    pub opens : h.open_disk u disk ≡ none
    pub reads : h.read_table u disk ≡ ok ts
    pub allocated : Allocated layout ts

  pub partition-Partitioned :
      (disk : String) (s u : h.State) {vs : List h.State} (layout : Layout)
      → partition h disk s ≡ (ok layout, u, vs)
      → Partitioned disk layout u
  unfolding partition
  partition-Partitioned disk s u layout k =
      let (plan, s1, _, _, made, k1) = >>=-eq-ok (read (planned h disk)) _ s k in
      let (planning, _) = read-eq-ok (planned h disk) s made in
      let (_, s2, ws, _, wrote, k2) =
        >>=-eq-ok (wrap writing_table (h.write_table plan.1 disk)) _ s1 k1 in
      let (same_layout, same_state) = read-eq-ok (λ _. ok plan.0) s2 k2 in
      let (opens, reads) =
        laws.read_table-write_table plan.1 disk s1 s2 ws
          (wrap-eq-ok writing_table (h.write_table plan.1 disk) s1 wrote) in
      let done : Partitioned disk plan.0 s2 = record {
        ts = h.slots plan.1;
        opens = opens;
        reads = reads;
        allocated = planned-Allocated disk s plan planning;
      } in
      subst (λ l. Partitioned disk l u) (ok_injective Error same_layout)
        (subst (Partitioned disk plan.0) (sym same_state) done)

  -- If Partition succeeds on a machine that keeps HardwareLaws, ReadLayout of the disk that it
  -- leaves succeeds with the layout that Partition returned.
  pub read_layout-partition :
      (disk : String) (s u : h.State) {vs : List h.State} (layout : Layout)
      → partition h disk s ≡ (ok layout, u, vs)
      → read_layout h disk u ≡ ok layout
  unfolding read_layout
  read_layout-partition disk s u layout k =
      let p = partition-Partitioned disk s u layout k in
      rw (p.opens, read_layout)
        (rw (p.reads, read_layout) (layout_on-Allocated layout p.ts p.allocated))
