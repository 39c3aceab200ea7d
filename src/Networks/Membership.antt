-- ===== src/Networks/Membership.antt =====
-- Membership is an interval, and a subnet's addresses are the network's.
use native.Mathlib.Nat.{pow-suc}
use kepryx.Base.{
  ℕ, zero, suc, ◌+◌, ◌-◌, ◌*◌, ◌/◌, ◌%◌, ◌^◌, ◌≤◌, ◌<◌, ◌≡◌, refl, ◌∙◌, true, ==_iff, arith,
}
use kepryx.Networks.{
  Address, Network, Version, v4, v6, width, same_version, num_addresses, broadcast, contains,
  subnet_of, IsNetwork,
}

two_pow_pos : (k : ℕ) → 0 < 2 ^ k
two_pow_pos zero = omega arith
two_pow_pos (suc k) = omega (arith, two_pow_pos k, pow-suc 2 k)

pub num_addresses_pos : (n : Network) → 0 < num_addresses n
unfolding num_addresses
num_addresses_pos n = two_pow_pos (width n.version - n.prefix)

block : (b q x : ℕ) → 0 < b → q * b ≤ x → x < q * b + b → x / b * b ≡ q * b
block b q x pos lo hi = grind arith

block_lo : (b x : ℕ) → 0 < b → x / b * b ≤ x
block_lo b x pos = grind arith

block_hi : (b x : ℕ) → 0 < b → x < x / b * b + b
block_hi b x pos = grind arith

aligned_block : (b m : ℕ) → 0 < b → m % b ≡ 0 → m / b * b ≡ m
aligned_block b m pos e = grind arith

pub same_version_eq : (v w : Version) → same_version v w ≡ true → v ≡ w
unfolding same_version
same_version_eq v4 v4 e = refl
same_version_eq v6 v6 e = refl
same_version_eq v4 v6 e = cc
same_version_eq v6 v4 e = cc

pub same_version_refl : (v : Version) → same_version v v ≡ true
unfolding same_version
same_version_refl v4 = refl
same_version_refl v6 = refl

-- An address is in a network exactly when they have one version and it lies between the network's
-- first and last address.
pub record Inside (n : Network) (a : Address) : Type 0 where
  pub version : a.version ≡ n.version
  pub from : n.base ≤ a.value
  pub to : a.value ≤ broadcast n

pub contains-Inside : (n : Network) (a : Address) → contains n a ≡ true → Inside n a
unfolding contains broadcast
contains-Inside n a e = record {
  version = same_version_eq a.version n.version (ground arith);
  from = ground (arith, block_lo (num_addresses n) a.value (num_addresses_pos n));
  to =
      ground (arith, block_hi (num_addresses n) a.value (num_addresses_pos n), num_addresses_pos n);
}

in_block :
    (n : Network) (x : ℕ)
    → IsNetwork n
    → n.base ≤ x
    → x ≤ broadcast n
    → x / num_addresses n * num_addresses n ≡ n.base
unfolding broadcast
in_block n x h lo hi =
    let pos = num_addresses_pos n in
    let whole = aligned_block (num_addresses n) n.base pos h.aligned in
    block (num_addresses n) (n.base / num_addresses n) x pos (omega arith) (omega arith) ∙ whole

pub Inside-contains : (n : Network) (a : Address) → IsNetwork n → Inside n a → contains n a ≡ true
unfolding contains
Inside-contains n a h i =
    rw (i.version, same_version_refl n.version) ((==_iff _ _).1 (in_block n a.value h i.from i.to))

-- Every address of a subnet of one version is an address of the network.
pub contains-subnet_of :
    (a b : Network) (x : Address)
    → IsNetwork b
    → a.version ≡ b.version
    → subnet_of a b ≡ true
    → contains a x ≡ true
    → contains b x ≡ true
unfolding subnet_of
contains-subnet_of a b x h v sub e =
    let i = contains-Inside a x e in
    Inside-contains b x h
      (record { version = i.version ∙ v; from = ground (arith, i.from); to = ground (arith, i.to) })
