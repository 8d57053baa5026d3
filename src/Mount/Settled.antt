-- ===== src/Mount/Settled.antt =====
-- internal/mount/volumes.go: the two writable volumes behind UnmountVolumes. What a mount call does
-- to its target follows from the flags that it passes.
use Prim.Native.String.{String}
use mathlib.Core.Path.{subst}
use text.Mathlib.TextEquality.{eq_iff}
use invari_os.Base.{
  Bool, true, false, Option, none, some, List, [], ◌∷◌, ◌++◌, All, if◌then◌else◌, ◌≡◌, ◌≢◌, refl,
  sym, ap, ◌∙◌,
}
use invari_os.Mount.{
  Flag, remount, read_only, Call, UnmountReply, unmounted, busy, unmount_failed, Mounts, Error,
  remounted_read_only, state_dir, data_dir, remount_call, remounted, unmount_answer,
  unmount_or_remount_read_only, unmount_volumes, error_list,
}

-- How a target stands.
pub data Standing : Type 0 where
  away : Standing
  frozen : Standing
  writable : Standing

abbrev pub is_remount : Flag → Bool
is_remount remount = true
is_remount _ = false

abbrev pub is_read_only : Flag → Bool
is_read_only read_only = true
is_read_only _ = false

abbrev pub has : (Flag → Bool) → List Flag → Bool
has test [] = false
has test (f ∷ fs) = if test f then true else has test fs

-- MS_REMOUNT makes a mount change the flags of what is mounted at its target, and MS_RDONLY with it
-- makes that read-only. An unmount takes away, and neither touches another target.
pub record MountsLaws (k : Mounts) (standing : k.State → String → Standing) : Type 0 where
  pub unmount-away :
      (target : String) (s t : k.State)
      → k.unmount target s ≡ (unmounted, t)
      → standing t target ≡ away
  pub unmount-other :
      (target other : String) (s : k.State)
      → other ≢ target
      → standing (k.unmount target s).1 other ≡ standing s other
  pub mount-frozen :
      (c : Call) (s t : k.State)
      → has is_remount c.flags ≡ true
      → has is_read_only c.flags ≡ true
      → k.mount c s ≡ (none, t)
      → standing t c.target ≡ frozen
  pub mount-other :
      (c : Call) (other : String) (s : k.State)
      → other ≢ c.target
      → standing (k.mount c s).1 other ≡ standing s other

-- The error says that the volume was busy and was remounted read-only.
abbrev pub IsFrozen : Error → Type 0
IsFrozen (remounted_read_only target) = Unit {0}
IsFrozen _ = ⊥

abbrev pub IsSafe : Standing → Type 0
IsSafe away = Unit {0}
IsSafe frozen = Unit {0}
IsSafe writable = ⊥

data-ne-state : data_dir ≢ state_dir
data-ne-state e = absurd (cc ((eq_iff data_dir state_dir).1 e))

module _ (k : Mounts) (standing : k.State → String → Standing) (laws : MountsLaws k standing) where
  remounted-IsSafe :
      (target : String) (s : k.State) (p : Option String × k.State)
      → k.mount (remount_call k target) s ≡ p
      → All IsFrozen (error_list k (remounted k target p).0)
      → IsSafe (standing (remounted k target p).1 target)
  unfolding remounted
  remounted-IsSafe target s (none, t) e h =
      subst IsSafe (sym (laws.mount-frozen (remount_call k target) s t refl refl e)) tt
  remounted-IsSafe target s (some why, t) e h = absurd h.0

  answer-IsSafe :
      (target : String) (s : k.State) (p : UnmountReply × k.State)
      → k.unmount target s ≡ p
      → All IsFrozen (error_list k (unmount_answer k target p).0)
      → IsSafe (standing (unmount_answer k target p).1 target)
  unfolding unmount_answer
  answer-IsSafe target s (unmounted, t) e h = subst IsSafe (sym (laws.unmount-away target s t e)) tt
  answer-IsSafe target s (unmount_failed why, t) e h = absurd h.0
  answer-IsSafe target s (busy, t) e h =
      remounted-IsSafe target t (k.mount (remount_call k target) t) refl h

  remounted-state : (target : String) (p : Option String × k.State) → (remounted k target p).1 ≡ p.1
  unfolding remounted
  remounted-state target (none, t) = refl
  remounted-state target (some why, t) = refl

  answer-other :
      (target other : String) (p : UnmountReply × k.State)
      → other ≢ target
      → standing (unmount_answer k target p).1 other ≡ standing p.1 other
  unfolding unmount_answer
  answer-other target other (unmounted, t) differs = refl
  answer-other target other (unmount_failed why, t) differs = refl
  answer-other target other (busy, t) differs =
      ap (λ x. standing x other) (remounted-state target (k.mount (remount_call k target) t))
      ∙ laws.mount-other (remount_call k target) other t differs

  All-split : (xs ys : List Error) → All IsFrozen (xs ++ ys) → All IsFrozen xs × All IsFrozen ys
  All-split [] ys h = (tt, h)
  All-split (x ∷ xs) ys h = let (a, b) = All-split xs ys h.1 in ((h.0, a), b)

  -- Over a kernel that keeps MountsLaws: if every error that UnmountVolumes reports is that a busy
  -- volume was remounted read-only, also if it reports none, then neither volume is writable any
  -- more.
  pub unmount_volumes-IsSafe :
      (s : k.State)
      → All IsFrozen (unmount_volumes k s).0
      → IsSafe (standing (unmount_volumes k s).1 data_dir)
        × IsSafe (standing (unmount_volumes k s).1 state_dir)
  unfolding unmount_volumes unmount_or_remount_read_only
  unmount_volumes-IsSafe s h =
      let p1 = unmount_answer k data_dir (k.unmount data_dir s) in
      let p2 = unmount_answer k state_dir (k.unmount state_dir p1.1) in
      let (first, second) = All-split (error_list k p1.0) (error_list k p2.0) h in
      let kept : standing p2.1 data_dir ≡ standing p1.1 data_dir =
        answer-other state_dir data_dir (k.unmount state_dir p1.1) data-ne-state
        ∙ laws.unmount-other state_dir data_dir p1.1 data-ne-state in
      (
        subst IsSafe (sym kept) (answer-IsSafe data_dir s (k.unmount data_dir s) refl first),
        answer-IsSafe state_dir p1.1 (k.unmount state_dir p1.1) refl second,
      )
