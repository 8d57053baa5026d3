-- ===== src/Tests/Mount.antt =====
-- internal/mount: a kernel in memory where DATA is busy. A mount leaves its target writable unless it
-- remounts it read-only.
use Prim.Native.String.{String}
use text.Mathlib.Text.{◌==◌ as str_eq}
use text.Mathlib.TextEquality.{eq_iff}
use invari_os.Base.{
  Bool, true, false, Bool-cases, inl, inr, none, All, if◌then◌else◌, ◌≡◌, ◌≢◌, refl, sym, ap, ◌∙◌,
}
use invari_os.Mount.{
  Mounts, Call, UnmountReply, unmounted, busy, data_dir, state_dir, unmount_volumes,
  unmount_or_remount_read_only, unmount_answer, remounted,
}
use invari_os.Mount.Settled.{
  Standing, away, frozen, writable, MountsLaws, has, is_remount, is_read_only, IsFrozen, IsSafe,
  unmount_volumes-IsSafe,
}

abbrev Table : Type 0
Table = String → Standing

abbrev put : String → Standing → Table → Table
put target x t p = if str_eq p target then x else t p

abbrev mounted_as : Call → Standing
mounted_as c =
    if has is_remount c.flags
    then if has is_read_only c.flags then frozen else writable
    else writable

abbrev pub kernel : Mounts
kernel = record {
  State = Table;
  mount = λ c t. (none, put c.target (mounted_as c) t);
  unmount =
      λ target t. if str_eq target data_dir then (busy, t) else (unmounted, put target away t);
  mkdir_all = λ dir t. (none, t);
}

mounted_as-frozen :
    (c : Call)
    → has is_remount c.flags ≡ true
    → has is_read_only c.flags ≡ true
    → mounted_as c ≡ frozen
mounted_as-frozen c remounts reads = rw (remounts, reads)

put-same : (target : String) (x : Standing) (t : Table) → put target x t target ≡ x
put-same target x t = rw ((eq_iff target target).1 refl)

put-other :
    (target other : String) (x : Standing) (t : Table)
    → other ≢ target
    → put target x t other ≡ t other
put-other target other x t differs = elim (Bool-cases (str_eq other target)) [
  | inl same ↦ absurd (differs ((eq_iff other target).0 same))
  | inr apart ↦ rw apart
]

unmount-is :
    (target : String) (s t : Table) (b : Bool)
    → ◌≡◌ {A = UnmountReply × Table}
        (if b then (busy, s) else (unmounted, put target away s))
        (unmounted, t)
    → t ≡ put target away s
unmount-is target s t true h = absurd (cc (ap (λ x. x.0) h))
unmount-is target s t false h = sym (ap (λ x. x.1) h)

unmount-leaves :
    (target other : String) (s : Table)
    → other ≢ target
    → (b : Bool)
    → (if◌then◌else◌ {A = UnmountReply × Table} b (busy, s) (unmounted, put target away s)).1 other
      ≡ s other
unmount-leaves target other s differs true = refl
unmount-leaves target other s differs false = put-other target other away s differs

kernel-MountsLaws : MountsLaws kernel (λ t target. t target)
kernel-MountsLaws = record {
  unmount-away = λ target s t h.
      ap (λ f. f target) (unmount-is target s t (str_eq target data_dir) h)
      ∙ put-same target away s;
  unmount-other =
      λ target other s differs. unmount-leaves target other s differs (str_eq target data_dir);
  mount-frozen = λ c s t remounts read_only h.
      ap (λ f. f c.target) (sym (ap (λ x. x.1) h))
      ∙ put-same c.target (mounted_as c) s
      ∙ mounted_as-frozen c remounts read_only;
  mount-other = λ c other s differs. put-other c.target other (mounted_as c) s differs;
}

abbrev pub both_writable : Table
both_writable target = writable

only_busy : All IsFrozen (unmount_volumes kernel both_writable).0
unfolding unmount_volumes unmount_or_remount_read_only unmount_answer remounted
only_busy = (tt, tt)

unmount_volumes-IsSafe_example :
    IsSafe ((unmount_volumes kernel both_writable).1 data_dir)
    × IsSafe ((unmount_volumes kernel both_writable).1 state_dir)
unmount_volumes-IsSafe_example =
    unmount_volumes-IsSafe kernel (λ t target. t target) kernel-MountsLaws both_writable only_busy
