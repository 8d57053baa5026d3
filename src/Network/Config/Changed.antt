-- ===== src/Network/Config/Changed.antt =====
-- internal/network/network.go: configChanged as a comparison of configs.
use invari_os.Base.{
  ℕ, zero, suc, Bool, true, false, ◌&&◌, List, [], ◌∷◌, ◌++◌, ◌==◌, if◌then◌else◌, length, take,
  drop, ◌≡◌, refl, ap, sym, ◌∙◌, ◌↔◌, ◌⊎◌, arith, All, map,
}
use mathlib.Core.Path.{ap₂, subst}
use invari_os.Network.Config.{
  Ip, bytes_eq, v4_in_v6_prefix, ip_equal, Config, dns_changed, config_changed,
}

-- nil, an IPv4 address or an IPv6 address.
abbrev pub IsIp : Ip → Type 0
IsIp a = (length a ≡ 0) ⊎ ((length a ≡ 4) ⊎ (length a ≡ 16))

-- An address in its 16-byte form; nil stays nil.
pub to_16 : Ip → Ip
to_16 a = if length a == 4 then v4_in_v6_prefix ++ a else a

bytes_eq_iff : (a b : List ℕ) → (bytes_eq a b ≡ true) ↔ (a ≡ b)
unfolding bytes_eq
bytes_eq_iff [] [] = ((λ h. refl), (λ h. refl))
bytes_eq_iff [] (y ∷ ys) = ground arith
bytes_eq_iff (x ∷ xs) [] = ground arith
bytes_eq_iff (x ∷ xs) (y ∷ ys) = ground (arith, bytes_eq_iff xs ys)

take-append-drop : (n : ℕ) (xs : Ip) → take n xs ++ drop n xs ≡ xs
take-append-drop zero xs = refl
take-append-drop (suc n) [] = refl
take-append-drop (suc n) (x ∷ xs) = ap (◌∷◌ x) (take-append-drop n xs)

and_iff : (p q : Bool) → ((p && q) ≡ true) ↔ ((p ≡ true) × (q ≡ true))
and_iff p q = ground arith

-- An IPv4 address against one of 16 bytes.
mixed_iff :
    (a b : Ip)
    → ((bytes_eq (take 12 b) v4_in_v6_prefix && bytes_eq a (drop 12 b)) ≡ true)
      ↔ (v4_in_v6_prefix ++ a ≡ b)
mixed_iff a b = (there, back)
  where
    there :
        (bytes_eq (take 12 b) v4_in_v6_prefix && bytes_eq a (drop 12 b)) ≡ true
        → v4_in_v6_prefix ++ a ≡ b
    there h =
        let (head, rest) =
          (and_iff (bytes_eq (take 12 b) v4_in_v6_prefix) (bytes_eq a (drop 12 b))).0 h in
        ap₂ ◌++◌ (sym ((bytes_eq_iff (take 12 b) v4_in_v6_prefix).0 head))
          ((bytes_eq_iff a (drop 12 b)).0 rest)
        ∙ take-append-drop 12 b

    back :
        v4_in_v6_prefix ++ a ≡ b
        → (bytes_eq (take 12 b) v4_in_v6_prefix && bytes_eq a (drop 12 b)) ≡ true
    back e =
        subst (λ c. (bytes_eq (take 12 c) v4_in_v6_prefix && bytes_eq a (drop 12 c)) ≡ true) e
          ((and_iff _ _).1
            ((bytes_eq_iff v4_in_v6_prefix v4_in_v6_prefix).1 refl, (bytes_eq_iff a a).1 refl))

-- net.IP.Equal is equality of the 16-byte forms.
pub ip_equal_iff : (a b : Ip) → IsIp a → IsIp b → (ip_equal a b ≡ true) ↔ (to_16 a ≡ to_16 b)
unfolding ip_equal to_16
ip_equal_iff a b ha hb = ground (arith, bytes_eq_iff a b, mixed_iff a b, mixed_iff b a)

dns_changed_iff :
    (xs ys : List Ip)
    → All IsIp xs
    → All IsIp ys
    → length xs ≡ length ys
    → (dns_changed xs ys ≡ false) ↔ (map to_16 xs ≡ map to_16 ys)
unfolding dns_changed
dns_changed_iff [] [] hx hy e = ((λ h. refl), (λ h. refl))
dns_changed_iff [] (y ∷ ys) hx hy e = absurd (omega arith)
dns_changed_iff (x ∷ xs) [] hx hy e = absurd (omega arith)
dns_changed_iff (x ∷ xs) (y ∷ ys) (hx, hxs) (hy, hys) e =
    ground (arith, ip_equal_iff x y hx hy, dns_changed_iff xs ys hxs hys (omega arith))

pub record IsWellFormed (c : Config) : Type 0 where
  pub ip : IsIp c.ip
  pub gw : IsIp c.gw
  pub dns : All IsIp c.dns

-- A config with each of its addresses in 16-byte form.
pub canonical : Config → Config
canonical c = record { ip = to_16 c.ip; mask = c.mask; gw = to_16 c.gw; dns = map to_16 c.dns }

length-map-to_16 : (xs : List Ip) → length (map to_16 xs) ≡ length xs
length-map-to_16 [] = refl
length-map-to_16 (x ∷ xs) = ap suc (length-map-to_16 xs)

-- The same, field by field.
config_changed_parts :
    (a b : Config)
    → IsWellFormed a
    → IsWellFormed b
    → (config_changed a b ≡ false) ↔ (
        (to_16 a.ip ≡ to_16 b.ip)
        × (a.mask ≡ b.mask)
        × (to_16 a.gw ≡ to_16 b.gw)
        × (map to_16 a.dns ≡ map to_16 b.dns))
unfolding config_changed
config_changed_parts a b ha hb = ground (
  arith,
  ip_equal_iff a.ip b.ip ha.ip hb.ip,
  bytes_eq_iff a.mask b.mask,
  ip_equal_iff a.gw b.gw ha.gw hb.gw,
  dns_changed_iff a.dns b.dns ha.dns hb.dns,
  length-map-to_16 a.dns,
  length-map-to_16 b.dns,
  λ (e : map to_16 a.dns ≡ map to_16 b.dns). ap length e,
)

-- For configs whose addresses are nil, IPv4 or IPv6: configChanged returns false exactly if the
-- two are equal once each address is written in its 16-byte form.
pub config_changed_iff :
    (a b : Config)
    → IsWellFormed a
    → IsWellFormed b
    → (config_changed a b ≡ false) ↔ (canonical a ≡ canonical b)
unfolding canonical
config_changed_iff a b ha hb = ground (arith, config_changed_parts a b ha hb)
