-- ===== src/Networks.antt =====
-- Addresses and networks as Python's `ipaddress` computes with them. Reading and printing their text
-- is an interface: the grammar of the texts plays no part in the decisions that are taken.
pub mod Membership
pub mod Texts
use kepryx.Base.{
  ℕ, ◌+◌, ◌-◌, ◌*◌, ◌/◌, ◌%◌, ◌^◌, ◌≤◌, ◌<◌, ◌≡◌, String, Bool, true, false, ◌&&◌, Option, some,
  leb, ltb, ◌==◌,
}

pub data Version : Type 0 where
  v4 v6 : Version

pub record Address : Type 0 where
  pub version : Version
  pub value : ℕ

pub record Network : Type 0 where
  pub version : Version
  pub base : ℕ
  pub prefix : ℕ

unfoldable pub width : Version → ℕ
width v4 = 32
width v6 = 128

unfoldable pub same_version : Version → Version → Bool
same_version v4 v4 = true
same_version v6 v6 = true
same_version _ _ = false

-- `network.num_addresses`.
unfoldable pub num_addresses : Network → ℕ
unfolding width
num_addresses n = 2 ^ (width n.version - n.prefix)

-- `network.broadcast_address`.
unfoldable pub broadcast : Network → ℕ
unfolding num_addresses
broadcast n = n.base + num_addresses n - 1

-- `address in network`: the address without its host bits is the network's.
unfoldable pub contains : Network → Address → Bool
unfolding num_addresses same_version
contains n a =
    same_version a.version n.version && (a.value / num_addresses n * num_addresses n == n.base)

-- `a.subnet_of(b)`, for two networks of one version.
unfoldable pub subnet_of : Network → Network → Bool
unfolding broadcast
subnet_of a b = leb b.base a.base && leb (broadcast a) (broadcast b)

-- What a parsed network satisfies: its host bits are zero.
pub record IsNetwork (n : Network) : Type 0 where
  pub aligned : n.base % num_addresses n ≡ 0

-- `ip_address`, `ip_network(…, strict=False)`, `ip_network(…, strict=True)` and `str`; `none` is the
-- ValueError.
pub record IpTexts : Type 0 where
  pub ip_address : String → Option Address
  pub ip_network : String → Option Network
  pub ip_network_strict : String → Option Network
  pub print_address : Address → String
  pub print_network : Network → String
  pub network_IsNetwork : (s : String) (n : Network) → ip_network s ≡ some n → IsNetwork n
  pub strict-print :
      (s : String) (n : Network)
      → ip_network s ≡ some n
      → ip_network_strict (print_network n) ≡ some n
  pub network-print :
      (s : String) (n : Network) → ip_network s ≡ some n → ip_network (print_network n) ≡ some n
  pub address-print :
      (s : String) (a : Address) → ip_address s ≡ some a → ip_address (print_address a) ≡ some a
