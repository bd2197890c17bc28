-- ===== src/Prefixes/Tests.antt =====
-- Runs of the prefix arithmetic, and the theorems at concrete prefixes.
use mathlib.Core.List.{Memᴰ}
use roksbnkctl.Prelude.{
  ℕ, ◌^◌, ◌≡◌, ◌↔◌, ◌<◌, refl, true, false, Option, none, some, List, [], ◌∷◌, lit, Text,
  trim_space, arith, ◌==◌,
}
use roksbnkctl.Prefixes.{
  IpNet, ok, err, cut, value_from, leads_zero, octet, parse_ipv4, family_of, parse_ones, parse_cidr,
  cidrs_overlap, decimal, print_ipv4, print_cidr, nth_subnet, zone_prefixes, PrefixConflict,
  intended_prefixes, conflicts_with, conflicts_on, find_prefix_conflicts, not_ipv4, too_small,
  not_cidr,
}
use roksbnkctl.Prefixes.Blocks.{Shared}
use roksbnkctl.Prefixes.Networks.{cidrs_overlap-Shared}
use roksbnkctl.Prefixes.Intended.{IsZoneOf, intended_prefixes-IsZoneOf}
use roksbnkctl.Prefixes.Conflicts.{find_prefix_conflicts-Memᴰ}

arithmetic : Unit {0}
unfolding lit ◌==◌ trim_space cut value_from leads_zero octet parse_ipv4 family_of parse_ones
    parse_cidr cidrs_overlap decimal print_ipv4 print_cidr nth_subnet zone_prefixes
    intended_prefixes conflicts_with conflicts_on find_prefix_conflicts
arithmetic = tt

-- No IPv6 address is read.
abbrev no_ipv6 : Text → Option ℕ
no_ipv6 s = none

-- An IPv6 reader that knows one address.
abbrev one_ipv6 : Text → Option ℕ
one_ipv6 s = some 0xfd

intended_tests :
    (intended_prefixes no_ipv6 (lit " 10.241.0.0/16 ")
      ≡ ok (lit "10.241.0.0/18" ∷ lit "10.241.64.0/18" ∷ lit "10.241.128.0/18" ∷ []))
    × (intended_prefixes no_ipv6 (lit "10.0.0.0/19") ≡ err (too_small (lit "10.0.0.0/19")))
    × (intended_prefixes one_ipv6 (lit "fd::/8") ≡ err (not_ipv4 (lit "fd::/8")))
    × (intended_prefixes no_ipv6 (lit "10.0.0.256/8") ≡ err (not_cidr (lit "10.0.0.256/8")))
    × (cidrs_overlap no_ipv6 (lit "10.241.64.0/18") (lit "10.241.0.0/16") ≡ some true)
    × (cidrs_overlap no_ipv6 (lit "10.241.64.0/18") (lit "10.241.0.0/18") ≡ some false)
unfolding arithmetic
intended_tests = (refl, refl, refl, refl, refl, refl)

abbrev network : IpNet
network = record { bits = 32; ip = 183566336; ones = 16 }

network_parsed : parse_cidr no_ipv6 (trim_space (lit " 10.241.0.0/16 ")) ≡ some network
unfolding arithmetic
network_parsed = refl

intended_prefixes-IsZoneOf_example :
    (a b c : Text) × (intended_prefixes no_ipv6 (lit " 10.241.0.0/16 ") ≡ ok (a ∷ b ∷ c ∷ []))
    × IsZoneOf no_ipv6 network a
    × IsZoneOf no_ipv6 network b
    × IsZoneOf no_ipv6 network c
    × (cidrs_overlap no_ipv6 a b ≡ some false)
    × (cidrs_overlap no_ipv6 a c ≡ some false)
    × (cidrs_overlap no_ipv6 b c ≡ some false)
intended_prefixes-IsZoneOf_example =
    intended_prefixes-IsZoneOf no_ipv6 (lit " 10.241.0.0/16 ") network network_parsed refl
      (omega arith)

abbrev zone : IpNet
zone = record { bits = 32; ip = 183582720; ones = 18 }

zone_parsed : parse_cidr one_ipv6 (trim_space (lit "10.241.64.0/18")) ≡ some zone
unfolding arithmetic
zone_parsed = refl

wide_parsed : parse_cidr one_ipv6 (trim_space (lit " 10.241.0.0/16 ")) ≡ some network
unfolding arithmetic
wide_parsed = refl

one_ipv6_lt : (s : Text) (ip : ℕ) → one_ipv6 s ≡ some ip → ip < 2 ^ 128
one_ipv6_lt s ip h = ground arith

cidrs_overlap-Shared_example :
    (cidrs_overlap one_ipv6 (lit " 10.241.0.0/16 ") (lit "10.241.64.0/18") ≡ some true)
    ↔ Shared network zone
cidrs_overlap-Shared_example =
    cidrs_overlap-Shared one_ipv6 one_ipv6_lt (lit " 10.241.0.0/16 ") (lit "10.241.64.0/18") network
      zone wide_parsed zone_parsed

abbrev attached : List (Text × List Text)
attached =
    (lit "lab", lit "10.1.0.0/18" ∷ lit "10.241.64.0/18" ∷ [])
    ∷ (lit "edge", lit "10.240.0.0/16" ∷ [])
    ∷ []

abbrev clash : PrefixConflict
clash = record {
  intended = lit "10.241.0.0/16";
  existing = lit "10.241.64.0/18";
  vpc_name = lit "lab";
}

clash_found : find_prefix_conflicts no_ipv6 (lit "10.241.0.0/16" ∷ []) attached ≡ some (clash ∷ [])
unfolding arithmetic
clash_found = refl

find_prefix_conflicts-Memᴰ_example : (Memᴰ clash (clash ∷ [])) ↔ (
    Memᴰ clash.intended (lit "10.241.0.0/16" ∷ [])
    × (have : List Text) × Memᴰ (clash.vpc_name, have) attached
    × Memᴰ clash.existing have
    × (cidrs_overlap no_ipv6 clash.intended clash.existing ≡ some true))
find_prefix_conflicts-Memᴰ_example =
    find_prefix_conflicts-Memᴰ no_ipv6 (lit "10.241.0.0/16" ∷ []) attached (clash ∷ []) clash
      clash_found
