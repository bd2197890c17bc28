-- ===== src/Prefixes/Zones.antt =====
-- The prefixes of the three zones of a cluster's block.
use Prim.Native.Nat.{bit_or}
use native.Mathlib.Nat.{
  mul_assoc, one-le-pow, pow-le-pow_right, mul-le-mul_right, mul-div_cancel, add-mul, mod-eq_of_lt,
}
use roksbnkctl.Prelude.{
  ℕ, ◌+◌, ◌-◌, ◌*◌, ◌/◌, ◌%◌, ◌^◌, ◌≤◌, ◌<◌, ◌≡◌, sym, ap, ap₂, ◌∙◌, arith, false, Option, some,
  leb, eqb, Text,
}
use roksbnkctl.Prefixes.{IpNet, nets_overlap, parse_cidr, ok, nth_subnet, print_cidr}
use roksbnkctl.Prefixes.Bits.{bit_or-add}
use roksbnkctl.Prefixes.Blocks.{pow_add}
use roksbnkctl.Prefixes.RoundTrip.{parse_cidr-print_cidr}

pub pow_pos : (k : ℕ) → 0 < 2 ^ k
pow_pos k = omega (arith, one-le-pow k 2 (omega arith))

-- The block of addresses of one zone.
abbrev pub zone_bits : ℕ → ℕ
zone_bits ones = 32 - (ones + 2)

zone_bits-le : (ones : ℕ) → 2 ^ zone_bits ones ≤ 2 ^ 30
zone_bits-le ones = pow-le-pow_right (omega arith) {j = 30} (omega arith)

pub zone_bits-four : (ones : ℕ) → ones ≤ 18 → 2 ^ (32 - ones) ≡ 4 * 2 ^ zone_bits ones
zone_bits-four ones h =
    let e : 32 - ones ≡ 2 + zone_bits ones = omega arith in
    ap (λ k. 2 ^ k) e ∙ pow_add 2 (zone_bits ones)

abbrev pub zone_ip : ℕ → ℕ → ℕ → ℕ
zone_ip q ones i = (q * 4 + i) * 2 ^ zone_bits ones

zone_ip-sum :
    (q ones i : ℕ) → zone_ip q ones i ≡ q * 4 * 2 ^ zone_bits ones + i * 2 ^ zone_bits ones
zone_ip-sum q ones i = grind arith

abbrev pub network_of : ℕ → ℕ → IpNet
network_of q ones = record { bits = 32; ip = q * 2 ^ (32 - ones); ones = ones }

pub nth_subnet-zone_ip :
    (q ones i : ℕ)
    → ones ≤ 18
    → i < 3
    → nth_subnet (network_of q ones) (ones + 2) i ≡ ok (zone_ip q ones i)
unfolding nth_subnet
nth_subnet-zone_ip q ones i h k =
    let s = zone_bits ones in
    let base : q * 2 ^ (32 - ones) ≡ q * 4 * 2 ^ s =
      ap (λ p. q * p) (zone_bits-four ones h) ∙ sym (mul_assoc q 4 (2 ^ s)) in
    let shifted : i * 2 ^ s % 2 ^ 32 ≡ i * 2 ^ s =
      mod-eq_of_lt (
        omega (arith, zone_bits-le ones, mul-le-mul_right {m = i} {n = 2} (2 ^ s) (omega arith))) in
    let value : bit_or (q * 2 ^ (32 - ones)) (i * 2 ^ s % 2 ^ 32) ≡ zone_ip q ones i =
      ap₂ bit_or base shifted ∙ bit_or-add s q i (omega arith) ∙ sym (zone_ip-sum q ones i) in
    let two : ones + 2 - ones ≡ 2 = omega arith in
    let fits : leb (2 ^ (ones + 2 - ones)) i ≡ false = rw two (ground arith) in
    ground (arith, value, fits)

pub zone_ip-lt : (q ones i : ℕ) → ones ≤ 18 → i < 3 → q < 2 ^ ones → zone_ip q ones i < 2 ^ 32
zone_ip-lt q ones i h k lt =
    let s = zone_bits ones in
    let size : 2 ^ ones * 4 * 2 ^ s ≡ 2 ^ 32 =
      mul_assoc (2 ^ ones) 4 (2 ^ s)
      ∙ ap (λ p. 2 ^ ones * p) (sym (zone_bits-four ones h))
      ∙ sym (pow_add ones (32 - ones))
      ∙ ap (λ k. 2 ^ k) {y = 32} (omega arith) in
    let next : (q * 4 + i + 1) * 2 ^ s ≤ 2 ^ ones * 4 * 2 ^ s =
      mul-le-mul_right {m = q * 4 + i + 1} {n = 2 ^ ones * 4} (2 ^ s) (omega arith) in
    omega (arith, size, next, add-mul (q * 4 + i) 1 (2 ^ s), pow_pos s)

unfoldable pub zone_net : ℕ → ℕ → ℕ → IpNet
zone_net q ones i = record { bits = 32; ip = zone_ip q ones i; ones = ones + 2 }

pub parse_cidr-zone :
    (parse_ipv6 : Text → Option ℕ) (q ones i : ℕ)
    → ones ≤ 18
    → i < 3
    → q < 2 ^ ones
    → parse_cidr parse_ipv6 (print_cidr (zone_ip q ones i) (ones + 2)) ≡ some (zone_net q ones i)
unfolding zone_net
parse_cidr-zone parse_ipv6 q ones i h k lt =
    let clear : zone_ip q ones i / 2 ^ zone_bits ones * 2 ^ zone_bits ones ≡ zone_ip q ones i =
      ap (λ m. m * 2 ^ zone_bits ones) (mul-div_cancel (q * 4 + i) (pow_pos (zone_bits ones))) in
    parse_cidr-print_cidr parse_ipv6 (zone_ip q ones i) (ones + 2) (zone_ip-lt q ones i h k lt)
      (omega arith)
    ∙ ap (λ n. some (record { bits = 32; ip = n; ones = ones + 2 })) clear

-- Two zones overlap only where they are the same.
pub nets_overlap-zone :
    (q ones i j : ℕ) → nets_overlap (zone_net q ones i) (zone_net q ones j) ≡ eqb i j
unfolding zone_net
nets_overlap-zone q ones i j = ground (
  arith,
  mul-div_cancel (q * 4 + i) (pow_pos (zone_bits ones)),
  mul-div_cancel (q * 4 + j) (pow_pos (zone_bits ones)),
)
