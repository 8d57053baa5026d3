-- ===== src/Tests/Link.antt =====
-- internal/network: a link in memory that is set up from nothing, and answers EEXIST for an address
-- that it has.
use Prim.Native.String.{String}
use mathlib.Core.Path.{subst}
use invari_os.Base.{
  ℕ, ◌*◌, ◌/◌, arith, Bool, Bool-cases, ◌==◌, if◌then◌else◌, true, false, Option, none, some, List,
  [], ◌∷◌, ok, In, inl, inr, ◌⊎◌, ◌≡◌, refl, sym, ap,
}
use invari_os.Network.Config.{
  Ip, Ack, Config, default_mask, lease_config, first_router, mask_or_default,
}
use invari_os.Network.Link.{
  Node, Lease, AddReply, added, exists, apply, add_address, address_reply, set_route, write_dns,
  lease_for, configured, with_link, on_link, find_link, link_named, acquire_and_apply,
}
use invari_os.Network.Link.Holds.{Holding}
use invari_os.Network.Maintain.{Attempt, Turn, acquired, tried, reacquire, maintain}
use invari_os.Network.Maintain.Kept.{Willing, Ends, in_force, maintain-Kept}
use invari_os.Network.Maintain.Acquired.{reacquire-Holding}
use invari_os.Network.Link.InForce.{View, NodeLaws, InForce, apply-InForce}

pub record Stored : Type 0 where
  pub addresses : List (Ip × Ip)
  pub gateway : Ip
  pub resolv_conf : String

abbrev offer : Lease
offer = record {
  ack = record {
    your_ip_addr = 192 ∷ 0 ∷ 2 ∷ 10 ∷ [];
    subnet_mask = none;
    router = (192 ∷ 0 ∷ 2 ∷ 1 ∷ []) ∷ [];
    dns = (192 ∷ 0 ∷ 2 ∷ 1 ∷ []) ∷ [];
    lease_time = none;
    renewal_time = none;
  };
  creation_time = 0;
}

abbrev same : Ip → Ip → Bool
same [] [] = true
same (x ∷ xs) (y ∷ ys) = if x == y then same xs ys else false
same [] (y ∷ ys) = false
same (x ∷ xs) [] = false

abbrev listed : Ip → Ip → List (Ip × Ip) → Bool
listed ip mask [] = false
listed ip mask (a ∷ as') =
    if same a.0 ip then if same a.1 mask then true else listed ip mask as' else listed ip mask as'

same_equal : (a b : Ip) → same a b ≡ true → a ≡ b
same_equal [] [] h = refl
same_equal [] (y ∷ ys) h = ground arith
same_equal (x ∷ xs) [] h = ground arith
same_equal (x ∷ xs) (y ∷ ys) h = ground (arith, same_equal xs ys)

pair_equal : {a b c d : Ip} → a ≡ b → c ≡ d → ◌≡◌ {A = Ip × Ip} (a, c) (b, d)
pair_equal e f = cc

listed-In : (ip mask : Ip) (as' : List (Ip × Ip)) → listed ip mask as' ≡ true → In (ip, mask) as'
listed-In ip mask [] h = absurd (ground arith)
listed-In ip mask (a ∷ as') h = elim (Bool-cases (same a.0 ip)) [
  | inr e ↦ inr (listed-In ip mask as' (rw e at h))
  | inl e ↦ elim (Bool-cases (same a.1 mask)) [
    | inr f ↦ inr (listed-In ip mask as' (rw (e, f) at h))
    | inl f ↦ inl (pair_equal (same_equal a.0 ip e) (same_equal a.1 mask f))
  ]
]

abbrev add : Ip → Ip → Stored → AddReply × Stored
add ip mask s =
    if listed ip mask s.addresses
    then (exists, s)
    else (added, record s { addresses = (ip, mask) ∷ s.addresses })

abbrev pub memory : Node
memory = record {
  State = Stored;
  dial = λ s. none;
  links = λ s. ok ("eth0" ∷ []);
  link_up = λ link s. (none, s);
  addr_add = λ link ip mask s. add ip mask s;
  addr_del = λ link ip mask s. (none, record s { addresses = [] });
  route_replace = λ link gw s. (none, record s { gateway = gw });
  route_del = λ link s. (none, record s { gateway = [] });
  write_resolv_conf = λ text s. (none, record s { resolv_conf = text });
  ip_text = λ ip. "192.0.2.1";
  request_lease = λ link s. (ok offer, s);
}

abbrev view : View memory
view = record {
  addresses = λ s link. s.addresses;
  gateway = λ s. s.gateway;
  resolv_conf = λ s. s.resolv_conf;
}

answer-In :
    (ip mask : Ip) (s t : Stored) (reply : AddReply) (b : Bool)
    → listed ip mask s.addresses ≡ b
    → ◌≡◌ {A = AddReply × Stored}
        (if b then (exists, s) else (added, record s { addresses = (ip, mask) ∷ s.addresses }))
        (reply, t)
    → In (ip, mask) t.addresses × (t.gateway ≡ s.gateway)
answer-In ip mask s t reply true there h =
    let now : s ≡ t = ap (λ x. x.1) h in
    (
      subst (λ (u : Stored). In (ip, mask) u.addresses) now (listed-In ip mask s.addresses there),
      ap (λ (u : Stored). u.gateway) (sym now),
    )
answer-In ip mask s t reply false new h =
    let now : record s { addresses = (ip, mask) ∷ s.addresses } ≡ t = ap (λ x. x.1) h in
    (
      subst (λ (u : Stored). In (ip, mask) u.addresses) now (inl refl),
      ap (λ (u : Stored). u.gateway) (sym now),
    )

add-In :
    (ip mask : Ip) (s t : Stored) (reply : AddReply)
    → add ip mask s ≡ (reply, t)
    → In (ip, mask) t.addresses × (t.gateway ≡ s.gateway)
add-In ip mask s t reply h = answer-In ip mask s t reply (listed ip mask s.addresses) refl h

memory-NodeLaws : NodeLaws memory view
memory-NodeLaws = record {
  addr_add-added = λ link ip mask s t h. add-In ip mask s t added h;
  addr_add-exists = λ link ip mask s t h. add-In ip mask s t exists h;
  route_replace_lem = λ link gw s t h.
      let same : record s { gateway = gw } ≡ t = ap (λ x. x.1) h in
      (ap (λ (u : Stored). u.gateway) (sym same), ap (λ (u : Stored). u.addresses) (sym same));
  write_resolv_conf_lem = λ text link s t h.
      let same : record s { resolv_conf = text } ≡ t = ap (λ x. x.1) h in
      (
        ap (λ (u : Stored). u.resolv_conf) (sym same),
        ap (λ (u : Stored). u.addresses) (sym same),
        ap (λ (u : Stored). u.gateway) (sym same),
      );
}

abbrev pub bare : Stored
bare = record { addresses = []; gateway = []; resolv_conf = "" }

abbrev config : Config
config = record {
  ip = 192 ∷ 0 ∷ 2 ∷ 10 ∷ [];
  mask = default_mask;
  gw = 192 ∷ 0 ∷ 2 ∷ 1 ∷ [];
  dns = (192 ∷ 0 ∷ 2 ∷ 1 ∷ []) ∷ [];
}

abbrev after_apply : Stored
after_apply = (apply memory "eth0" config bare).1

bare-apply : apply memory "eth0" config bare ≡ (ok tt, after_apply)
unfolding apply add_address address_reply set_route write_dns
bare-apply = refl

apply-InForce_example : InForce memory view "eth0" config bare after_apply
apply-InForce_example =
    apply-InForce memory view memory-NodeLaws "eth0" config bare after_apply bare-apply

abbrev undisturbed : ℕ → Attempt
undisturbed k = record { canceled = false; slept = true }

bare-reacquire :
    reacquire memory "eth0" 2 undisturbed 0 bare
    ≡ (acquired offer (lease_config offer.ack), after_apply)
unfolding reacquire tried acquire_and_apply lease_for configured with_link on_link find_link
    link_named lease_config first_router mask_or_default apply add_address address_reply set_route
    write_dns
bare-reacquire = refl

reacquire-Holding_example :
    Holding memory view memory-NodeLaws "eth0" offer (lease_config offer.ack) after_apply
reacquire-Holding_example =
    reacquire-Holding memory view memory-NodeLaws "eth0" offer (lease_config offer.ack) 2
      undisturbed 0 bare after_apply bare-reacquire

add-Willing :
    (ip mask : Ip) (s : Stored)
    → (t : Stored) × ((add ip mask s ≡ (added, t)) ⊎ (add ip mask s ≡ (exists, t)))
add-Willing ip mask s = elim (Bool-cases (listed ip mask s.addresses)) [
  | inl there ↦ (s, inr (rw there refl))
  | inr new ↦ (record s { addresses = (ip, mask) ∷ s.addresses }, inl (rw new refl))
]

memory-Willing : Willing memory view memory-NodeLaws "eth0"
memory-Willing = record {
  dial = λ s. refl;
  others = [];
  links = λ s. refl;
  addr_add = λ link ip mask s. add-Willing ip mask s;
  route_replace = λ link gw s. (_, refl);
  write_resolv_conf = λ text s. (_, refl);
}

-- A lease of an hour that is renewed with another name server in the first turn, for ever.
abbrev hour : ℕ
hour = 3600 * 1000000000

abbrev leased : Option ℕ → Ip → Ack
leased time server = record {
  your_ip_addr = 192 ∷ 0 ∷ 2 ∷ 10 ∷ [];
  subnet_mask = none;
  router = (192 ∷ 0 ∷ 2 ∷ 1 ∷ []) ∷ [];
  dns = server ∷ [];
  lease_time = time;
  renewal_time = none;
}

abbrev renewing : ℕ → Turn
renewing k = record {
  slept = true;
  begin = hour / 2;
  rounds = λ i. record {
    canceled = false;
    took = 1;
    renewed = some (leased none (192 ∷ 0 ∷ 2 ∷ 2 ∷ []));
    overslept = 0;
    slept = true;
  };
  round_count = 100;
  canceled = false;
  attempts = undisturbed;
  attempt_count = 1;
}

abbrev first_lease : Lease
first_lease = record { ack = leased (some hour) (192 ∷ 0 ∷ 2 ∷ 1 ∷ []); creation_time = 0 }

maintain-Kept_example :
    Ends memory view memory-NodeLaws "eth0"
      (maintain memory "eth0" 3 renewing 0 first_lease config after_apply)
maintain-Kept_example =
    maintain-Kept memory view memory-NodeLaws "eth0" memory-Willing renewing 3 0 first_lease config
      after_apply (λ k i ack got none_named. absurd (cc (ap (λ o. o) got)))
      (in_force
        (apply-InForce memory view memory-NodeLaws "eth0" config bare after_apply bare-apply))
