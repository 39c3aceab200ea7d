-- ===== src/Networks/Texts.antt =====
-- A reader and printer of a few texts, which meets the interface.
use kepryx.Base.{
  ◌+◌, ◌*◌, ◌^◌, ◌≡◌, ◌⊎◌, refl, String, Option, none, some, str_eq, ◌==◌, if◌then◌else◌,
  Bool-cases, inl, inr,
}
use kepryx.Networks.{Address, Network, v4, num_addresses, IsNetwork, IpTexts}

-- 10.0.0.0/8 and 10.1.2.0/24
abbrev pub wide : Network
wide = record { version = v4; base = 10 * 2 ^ 24; prefix = 8 }

abbrev pub narrow : Network
narrow = record { version = v4; base = 10 * 2 ^ 24 + 1 * 2 ^ 16 + 2 * 2 ^ 8; prefix = 24 }

-- 10.1.2.7
abbrev pub host : Address
host = record { version = v4; value = 10 * 2 ^ 24 + 1 * 2 ^ 16 + 2 * 2 ^ 8 + 7 }

unfoldable pub read_network : String → Option Network
read_network s =
    if str_eq s "10.0.0.0/8"
    then some wide
    else if str_eq s "10.1.2.0/24"
    then some narrow
    else if str_eq s "10.1.2.9/24"
    then some narrow
    else none

unfoldable pub show_network : Network → String
show_network n = if n.prefix == 8 then "10.0.0.0/8" else "10.1.2.0/24"

unfoldable pub read_address : String → Option Address
read_address s = if str_eq s "10.1.2.7" then some host else none

unfoldable pub show_address : Address → String
show_address a = "10.1.2.7"

wide-IsNetwork : IsNetwork wide
unfolding num_addresses
wide-IsNetwork = record { aligned = refl }

narrow-IsNetwork : IsNetwork narrow
unfolding num_addresses
narrow-IsNetwork = record { aligned = refl }

read_network_cases :
    (s : String) (n : Network) → read_network s ≡ some n → (n ≡ wide) ⊎ (n ≡ narrow)
unfolding read_network
read_network_cases s n e = elim (Bool-cases (str_eq s "10.0.0.0/8")) [
  | inl a ↦ inl (cc (rw a at e))
  | inr a ↦ elim (Bool-cases (str_eq s "10.1.2.0/24")) [
    | inl b ↦ inr (cc (rw (a, b) at e))
    | inr b ↦ elim (Bool-cases (str_eq s "10.1.2.9/24")) [
      | inl c ↦ inr (cc (rw (a, b, c) at e))
      | inr c ↦ cc (rw (a, b, c) at e)
    ]
  ]
]

pub network_IsNetwork : (s : String) (n : Network) → read_network s ≡ some n → IsNetwork n
network_IsNetwork s n e = elim (read_network_cases s n e) [
  | inl p ↦ rw p wide-IsNetwork
  | inr p ↦ rw p narrow-IsNetwork
]

pub network-print :
    (s : String) (n : Network) → read_network s ≡ some n → read_network (show_network n) ≡ some n
unfolding read_network show_network
network-print s n e = elim (read_network_cases s n e) [ inl p ↦ rw p | inr p ↦ rw p ]

pub address-print :
    (s : String) (a : Address) → read_address s ≡ some a → read_address (show_address a) ≡ some a
unfolding read_address show_address
address-print s a e = elim (Bool-cases (str_eq s "10.1.2.7")) [
  | inl q ↦ rw q at e
  | inr q ↦ cc (rw q at e)
]

abbrev pub sample : IpTexts
sample = record {
  ip_address = read_address;
  ip_network = read_network;
  ip_network_strict = read_network;
  print_address = show_address;
  print_network = show_network;
  network_IsNetwork = network_IsNetwork;
  strict-print = network-print;
  network-print = network-print;
  address-print = address-print;
}
