-- ===== src/Efi/BootEntry/Ensure.antt =====
-- internal/efi/efi.go: the firmware's variables behind an EnsureBootEntry.
use mathlib.Core.Path.{subst}
use native.Mathlib.Decide.{ℕ_discrete}
use invari_os.Base.{
  ℕ, ◌≡◌, ◌≢◌, refl, sym, ◌∙◌, List, [], ◌∷◌, ok, true, false, ◌||◌, ◌==◌, All, arith, >>=-eq-ok,
  ok_injective,
}
use invari_os.Efi.Utf16.{IsRune}
use invari_os.Efi.LoadOption.{GoUefi, Target, build_load_option}
use invari_os.Efi.LoadOption.Header.{unmarshal_header-build_load_option}
use invari_os.Efi.Vars.{
  EfiVars, EfiVarsLaws, Variable, boot_order, boot_entry, found, Error, write_entry,
  marshal_boot_order, order_of, get_boot_order, write,
}
use invari_os.Efi.Vars.Order.{
  IsU16, boot_order-ne-boot_entry, get_boot_order_ok, order_of-IsU16, order_of-marshal,
  set_boot_order_ok, write_ok,
}
use invari_os.Efi.BootEntry.{
  text_eq, in_order, others, labelled, find_by_label, choose_num, ensure_boot_entry,
}
use invari_os.Efi.BootEntry.Choice.{Chosen, Chosen-IsU16, choose_num_ok}

others-IsU16 : (num : ℕ) (order : List ℕ) → All IsU16 order → All IsU16 (others num order)
unfolding others
others-IsU16 num [] h = tt
others-IsU16 num (n ∷ order) h = ground (arith, others-IsU16 num order h.1)

-- No entry is lost from the order, and `num` stands in it once.
in_order-others :
    (num m : ℕ) (order : List ℕ)
    → in_order (num ∷ others num order) m ≡ (m == num || in_order order m)
unfolding in_order others
in_order-others num m [] = refl
in_order-others num m (n ∷ order) = ground (arith, in_order-others num m order)

in_order-others_self : (num : ℕ) (order : List ℕ) → in_order (others num order) num ≡ false
unfolding in_order others
in_order-others_self num [] = refl
in_order-others_self num (n ∷ order) = ground (arith, in_order-others_self num order)

others-others : (num : ℕ) (order : List ℕ) → others num (num ∷ others num order) ≡ others num order
unfolding others
others-others num [] = ground arith
others-others num (n ∷ order) = ground (arith, others-others num order)

text_eq_refl : (s : List ℕ) → text_eq s s ≡ true
unfolding text_eq
text_eq_refl [] = refl
text_eq_refl (x ∷ s) = ground (arith, text_eq_refl s)

Variable-discrete : Discrete Variable
Variable-discrete = hlevel ℕ_discrete

module _ (e : EfiVars) (u : GoUefi) (label : List ℕ) (target : Target) where
  -- `t` is what a successful call leaves of `s`.
  pub record Ensured (s t : e.Store) : Type 0 where
    pub order : List ℕ
    pub num : ℕ
    pub was_order : order_of e (e.get_var s boot_order) ≡ ok order
    pub choice : choose_num e u order label s ≡ (ok num, s)
    pub chosen : Chosen e u s label order num
    pub entry_written : e.get_var t (boot_entry num) ≡ found (build_load_option u label target)
    pub order_written : e.get_var t boot_order ≡ found (marshal_boot_order (num ∷ others num order))
    pub is_order : order_of e (e.get_var t boot_order) ≡ ok (num ∷ others num order)
    pub all_listed : (m : ℕ) → in_order (num ∷ others num order) m ≡ (m == num || in_order order m)
    pub listed_once : in_order (others num order) num ≡ false
    pub unchanged :
        (w : Variable) → w ≢ boot_entry num → w ≢ boot_order → e.get_var t w ≡ e.get_var s w

module _ (e : EfiVars) (laws : EfiVarsLaws e) (u : GoUefi) (label : List ℕ) (target : Target) where
  -- The two writes behind the choice.
  writes-Ensured :
      (s r t : e.Store) (order : List ℕ) (num : ℕ)
      → order_of e (e.get_var s boot_order) ≡ ok order
      → choose_num e u order label s ≡ (ok num, s)
      → Chosen e u s label order num
      → e.write_var s (boot_entry num) (build_load_option u label target) ≡ (true, r)
      → e.write_var r boot_order (marshal_boot_order (num ∷ others num order)) ≡ (true, t)
      → Ensured e u label target s t
  writes-Ensured s r t order num was choice chosen first second =
      let nums : List ℕ = num ∷ others num order in
      let orders = order_of-IsU16 e laws s order was in
      let fits : All IsU16 nums =
        (Chosen-IsU16 e u s label order num orders chosen, others-IsU16 num order orders) in
      let stored = laws.get_var-write_var r boot_order (marshal_boot_order nums) t second in
      record {
        order = order;
        num = num;
        was_order = was;
        choice = choice;
        chosen = chosen;
        entry_written =
            laws.get_var-write_var_other r boot_order (boot_entry num) (marshal_boot_order nums) t
              second (λ q. boot_order-ne-boot_entry num (sym q))
            ∙ laws.get_var-write_var s (boot_entry num) _ r first;
        order_written = stored;
        is_order = order_of-marshal e t nums fits stored;
        all_listed = λ m. in_order-others num m order;
        listed_once = in_order-others_self num order;
        unchanged = λ w not_entry not_order.
            laws.get_var-write_var_other r boot_order w (marshal_boot_order nums) t second not_order
            ∙ laws.get_var-write_var_other s (boot_entry num) w _ r first not_entry;
      }

  -- Let EnsureBootEntry end without an error, over variables that keep EfiVarsLaws. Then BootOrder
  -- was missing or decodable before; the number it took is a listed entry's with the label, or the
  -- lowest free one if no listed entry has the label; that entry is now the load option of the
  -- label and the target; BootOrder is now that number and then the old order without it, so that
  -- every number of the old order is listed still and the new one is listed once; and every other
  -- variable is what it was.
  pub ensure_boot_entry-Ensured :
      (s t : e.Store)
      → ensure_boot_entry e u label target s ≡ (ok tt, t)
      → Ensured e u label target s t
  unfolding ensure_boot_entry
  ensure_boot_entry-Ensured s t h =
      let (order, s1, got, after_order) = >>=-eq-ok (get_boot_order e) _ s h in
      let (same1, was) = get_boot_order_ok e s got in
      let (num, s2, choice, after_choice) =
        >>=-eq-ok (choose_num e u order label) _ s1 after_order in
      let (same2, chosen) = choose_num_ok e u s1 label order num choice in
      let (_, r, wrote, after_entry) =
        >>=-eq-ok (write e (boot_entry num) (build_load_option u label target) (write_entry num)) _
          s2 after_choice in
      let first = write_ok e (boot_entry num) _ (write_entry num) s2 wrote in
      let second = set_boot_order_ok e (num ∷ others num order) r after_entry in
      let was' = subst (λ x. order_of e (e.get_var x boot_order) ≡ ok order) (sym same1) was in
      let choice' = subst (λ x. choose_num e u order label s1 ≡ (ok num, x)) same2 choice in
      let first' =
        subst (λ x. e.write_var x (boot_entry num) (build_load_option u label target) ≡ (true, r))
          same2 first in
      subst (λ x. Ensured e u label target x t) same1
        (writes-Ensured s1 r t order num was' choice' chosen first' second)

  labelled_after :
      (t : e.Store) (num : ℕ)
      → All IsRune label
      → e.get_var t (boot_entry num) ≡ found (build_load_option u label target)
      → labelled e u t label num ≡ true
  unfolding labelled
  labelled_after t num runes h =
      rw h (
        ground (arith, unmarshal_header-build_load_option u label target runes, text_eq_refl label))

  head_choice :
      (t : e.Store) (n m : ℕ) (rest : List ℕ)
      → labelled e u t label n ≡ true
      → choose_num e u (n ∷ rest) label t ≡ (ok m, t)
      → m ≡ n
  unfolding choose_num find_by_label
  head_choice t n m rest h k = ground arith

  -- The second call finds the entry of the first at the head of the order.
  second_choice :
      (s t v : e.Store)
      → All IsRune label
      → (a : Ensured e u label target s t) (b : Ensured e u label target t v)
      → (b.order ≡ a.num ∷ others a.num a.order) × (b.num ≡ a.num)
  second_choice s t v runes a b =
      let same : b.order ≡ a.num ∷ others a.num a.order =
        ok_injective Error (sym b.was_order ∙ a.is_order) in
      let choice = subst (λ o. choose_num e u o label t ≡ (ok b.num, t)) same b.choice in
      (
        same,
        head_choice t a.num b.num (others a.num a.order)
            (labelled_after t a.num runes a.entry_written) choice,
      )

  -- Let a call of EnsureBootEntry and a second call with the same label and target both end
  -- without an error, over variables that keep EfiVarsLaws, with a label of Unicode scalar values
  -- other than NUL. Then the second call changes no variable.
  pub ensure_boot_entry_again :
      (s t v : e.Store)
      → All IsRune label
      → ensure_boot_entry e u label target s ≡ (ok tt, t)
      → ensure_boot_entry e u label target t ≡ (ok tt, v)
      → (w : Variable) → e.get_var v w ≡ e.get_var t w
  ensure_boot_entry_again s t v runes h k w =
      let a = ensure_boot_entry-Ensured s t h in
      let b = ensure_boot_entry-Ensured t v k in
      let (same_order, same_num) = second_choice s t v runes a b in
      elim (Variable-discrete w (boot_entry a.num)) [
        | yes is_entry ↦ cc (is_entry, same_num, a.entry_written, b.entry_written)
        | no not_entry ↦ elim (Variable-discrete w boot_order) [
          | yes is_order ↦ cc (
            is_order,
            same_num,
            same_order,
            others-others a.num a.order,
            a.order_written,
            b.order_written,
          )
          | no not_order ↦ b.unchanged w (rw same_num not_entry) not_order
        ]
      ]
