-- ===== src/Network/Config.antt =====
-- internal/network/network.go: config, leaseConfig and configChanged.
pub mod Changed
use invari_os.Base.{
  ℕ, ◌%◌, Bool, true, false, not, ◌&&◌, ◌||◌, Option, none, some, List, [], ◌∷◌, ◌++◌, ◌==◌,
  if◌then◌else◌, length, take, drop, replicate,
}

-- net.IP and net.IPMask: 4 or 16 bytes, and the empty list for nil.
abbrev pub Ip : Type 0
Ip = List ℕ

pub bytes_eq : List ℕ → List ℕ → Bool
bytes_eq [] [] = true
bytes_eq [] (y ∷ ys) = false
bytes_eq (x ∷ xs) [] = false
bytes_eq (x ∷ xs) (y ∷ ys) = if x == y then bytes_eq xs ys else false

abbrev pub v4_in_v6_prefix : List ℕ
v4_in_v6_prefix = 0 ∷ 0 ∷ 0 ∷ 0 ∷ 0 ∷ 0 ∷ 0 ∷ 0 ∷ 0 ∷ 0 ∷ 0xff ∷ 0xff ∷ []

-- net.IP.Equal: an IPv4 address and the same address in IPv6 form are equal.
pub ip_equal : Ip → Ip → Bool
unfolding bytes_eq
ip_equal a b =
    if length a == length b
    then bytes_eq a b
    else if length a == 4 && length b == 16
    then bytes_eq (take 12 b) v4_in_v6_prefix && bytes_eq a (drop 12 b)
    else if length a == 16 && length b == 4
    then bytes_eq (take 12 a) v4_in_v6_prefix && bytes_eq (drop 12 a) b
    else false

-- What the code reads of a lease's ACK. A missing subnet mask is nil, and a missing time is
-- `none`; times are nanoseconds.
pub record Ack : Type 0 where
  pub your_ip_addr : Ip
  pub subnet_mask : Option Ip
  pub router : List Ip
  pub dns : List Ip
  pub lease_time : Option ℕ
  pub renewal_time : Option ℕ

pub record Config : Type 0 where
  pub ip : Ip
  pub mask : Ip
  pub gw : Ip
  pub dns : List Ip

-- net.CIDRMask(24, 32).
abbrev pub default_mask : Ip
default_mask = 255 ∷ 255 ∷ 255 ∷ 0 ∷ []

unfoldable pub first_router : List Ip → Ip
first_router [] = []
first_router (r ∷ rs) = r

unfoldable pub mask_or_default : Option Ip → Ip
mask_or_default none = default_mask
mask_or_default (some m) = m

unfoldable pub lease_config : Ack → Config
unfolding first_router mask_or_default
lease_config ack = record {
  ip = ack.your_ip_addr;
  mask = mask_or_default ack.subnet_mask;
  gw = first_router ack.router;
  dns = ack.dns;
}

-- The loop over the name servers, which have one length here.
dns_changed : List Ip → List Ip → Bool
dns_changed [] ys = false
dns_changed (x ∷ xs) [] = false
dns_changed (x ∷ xs) (y ∷ ys) = if not (ip_equal x y) then true else dns_changed xs ys

-- Mask.String() is the mask in hexadecimal, so equal texts are equal bytes.
pub config_changed : Config → Config → Bool
unfolding dns_changed
config_changed a b =
    if not (ip_equal a.ip b.ip) || not (bytes_eq a.mask b.mask)
    then true
    else if not (ip_equal a.gw b.gw)
    then true
    else if not (length a.dns == length b.dns)
    then true
    else dns_changed a.dns b.dns
