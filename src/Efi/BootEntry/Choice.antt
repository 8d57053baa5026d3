-- ===== src/Efi/BootEntry/Choice.antt =====
-- internal/efi/efi.go: which number EnsureBootEntry takes.
use invari_os.Base.{
  ℕ, zero, suc, ◌+◌, ◌≤◌, ◌<◌, ◌≡◌, refl, List, [], ◌∷◌, none, some, ok, true, false, All, In,
  arith, inl, inr, ◌⊎◌, Bool-cases, Option-cases,
}
use mathlib.Core.Path.{subst}
use native.Mathlib.Nat.{eq-or-lt_of_le}
use invari_os.Efi.LoadOption.{GoUefi}
use invari_os.Efi.Vars.{EfiVars, boot_entry, Stat, absent, stat_failed, present}
use invari_os.Efi.Vars.Order.{IsU16}
use invari_os.Efi.BootEntry.{
  in_order, labelled, find_by_label, first_free_from, first_free_num, choose_num,
}

Stat-cases : (x : Stat) → (x ≡ absent) ⊎ ((x ≡ stat_failed) ⊎ (x ≡ present))
Stat-cases absent = inl refl
Stat-cases stat_failed = inr (inl refl)
Stat-cases present = inr (inr refl)

module _ (e : EfiVars) (u : GoUefi) (s : e.Store) (order : List ℕ) where
  -- Number `n` is listed in the order, or a file for it is there.
  abbrev pub IsTaken : ℕ → Type 0
  IsTaken n = (in_order order n ≡ true) ⊎ (e.stat s (boot_entry n) ≡ present)

  -- The lowest number below 0xffff that is not taken.
  pub record IsFree (num : ℕ) : Type 0 where
    pub in_range : num < 0xffff
    pub not_in_order : in_order order num ≡ false
    pub no_file : e.stat s (boot_entry num) ≡ absent
    pub lowest : (m : ℕ) → m < num → IsTaken m

  record FreeFrom (n left num : ℕ) : Type 0 where
    bounded : num < n + left
    unlisted : in_order order num ≡ false
    free : e.stat s (boot_entry num) ≡ absent
    before : (m : ℕ) → n ≤ m → m < num → IsTaken m

  FreeFrom-here :
      (n left : ℕ)
      → in_order order n ≡ false
      → e.stat s (boot_entry n) ≡ absent
      → FreeFrom n (suc left) n
  FreeFrom-here n left h k = record {
    bounded = omega arith;
    unlisted = h;
    free = k;
    before = λ m p q. absurd (omega arith);
  }

  FreeFrom-next :
      (n left num : ℕ) → IsTaken n → FreeFrom (n + 1) left num → FreeFrom n (suc left) num
  FreeFrom-next n left num h r = record {
    bounded = omega arith;
    unlisted = r.unlisted;
    free = r.free;
    before = λ m p q. elim (eq-or-lt_of_le p) [
      | inl here ↦ subst IsTaken here h
      | inr later ↦ r.before m (omega arith) q
    ];
  }

  first_free_from_ok :
      (left n num : ℕ) → first_free_from e u left s order n ≡ ok num → FreeFrom n left num
  unfolding first_free_from
  first_free_from_ok zero n num h = absurd (cc)
  first_free_from_ok (suc left) n num h = elim (Bool-cases (in_order order n)) [
    | inl listed ↦
        FreeFrom-next n left num (inl listed) (first_free_from_ok left (n + 1) num (ground arith))
    | inr unlisted ↦ elim (Stat-cases (e.stat s (boot_entry n))) [
      | inl gone ↦
          let here : n ≡ num = ground arith in
          subst (FreeFrom n (suc left)) here (FreeFrom-here n left unlisted gone)
      | inr (inl failed) ↦ absurd (ground arith)
      | inr (inr there) ↦
          FreeFrom-next n left num (inr there) (first_free_from_ok left (n + 1) num (ground arith))
    ]
  ]

  pub first_free_num_ok : (num : ℕ) → first_free_num e u s order ≡ ok num → IsFree num
  unfolding first_free_num
  first_free_num_ok num h =
      let r = first_free_from_ok 0xffff 0 num h in
      record {
        in_range = r.bounded;
        not_in_order = r.unlisted;
        no_file = r.free;
        lowest = λ m q. r.before m (omega arith) q;
      }

module _ (e : EfiVars) (u : GoUefi) (s : e.Store) (label : List ℕ) where
  pub find_by_label-some :
      (order : List ℕ) (num : ℕ)
      → find_by_label e u s order label ≡ some num
      → In num order × (labelled e u s label num ≡ true)
  unfolding find_by_label
  find_by_label-some [] num h = absurd (cc)
  find_by_label-some (n ∷ order) num h = ground (arith, find_by_label-some order num)

  pub find_by_label-none :
      (order : List ℕ)
      → find_by_label e u s order label ≡ none
      → All (λ n. labelled e u s label n ≡ false) order
  unfolding find_by_label
  find_by_label-none [] h = tt
  find_by_label-none (n ∷ order) h = ground (arith, find_by_label-none order)

  -- The number of a listed entry with the label, or a free one if there is none.
  abbrev pub Chosen : List ℕ → ℕ → Type 0
  Chosen order num =
      (In num order × (labelled e u s label num ≡ true))
      ⊎ (All (λ n. labelled e u s label n ≡ false) order × IsFree e u s order num)

  -- If EnsureBootEntry's choice of a number succeeds, it changes no variable, and the number is
  -- listed in the order with an entry that has the label; or no listed entry has the label, and
  -- the number is below 0xffff, not listed, without a file, and every lower number is listed or
  -- has a file.
  pub choose_num_ok :
      (order : List ℕ) (num : ℕ) {t : e.Store}
      → choose_num e u order label s ≡ (ok num, t)
      → (t ≡ s) × Chosen order num
  unfolding choose_num
  choose_num_ok order num h = elim (Option-cases (find_by_label e u s order label)) [
    | inl none_found ↦ (
      ground arith,
      inr (find_by_label-none order none_found, first_free_num_ok e u s order num (ground arith)),
    )
    | inr (n, found_one) ↦ (ground arith, inl (find_by_label-some order num (ground arith)))
  ]

All-In : (order : List ℕ) (num : ℕ) → All IsU16 order → In num order → IsU16 num
All-In [] num h m = absurd (m tt)
All-In (n ∷ order) num h (inl q) = subst IsU16 q h.0
All-In (n ∷ order) num h (inr m) = All-In order num h.1 m

pub Chosen-IsU16 :
    (e : EfiVars) (u : GoUefi) (s : e.Store) (label order : List ℕ) (num : ℕ)
    → All IsU16 order
    → Chosen e u s label order num
    → IsU16 num
Chosen-IsU16 e u s label order num h (inl c) = All-In order num h c.0
Chosen-IsU16 e u s label order num h (inr c) = omega (arith, c.1.in_range)
