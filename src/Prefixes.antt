-- ===== src/Prefixes.antt =====
-- internal/ibm/vpc_prefix_overlap.go: the address prefixes that a new cluster VPC takes, and whether they
-- overlap those of the VPCs on a transit gateway; with net.ParseCIDR and IPNet.Contains, which it calls. An
-- address is a number, and masking off the last bits is a division. The reader of IPv6 addresses is a
-- parameter; an IPv4 address inside an IPv6 one counts as IPv6.
pub mod Bits
pub mod Blocks
pub mod RoundTrip
pub mod Zones
pub mod Networks
pub mod Intended
mod Tests
pub mod Conflicts
use Prim.Native.Nat.{bit_or}
use roksbnkctl.Prelude.{
  ℕ, zero, suc, ◌+◌, ◌-◌, ◌*◌, ◌/◌, ◌%◌, ◌^◌, Bool, true, false, not, ◌&&◌, ◌||◌, Option, none,
  some, List, [], ◌∷◌, ◌++◌, ltb, leb, eqb, if◌then◌else◌, length, is_nil, all, Text, lit, empty,
  ◌==◌, trim_space,
}

-- `net.IPNet`: the length of its addresses in bits, the network's first address and the ones of its mask.
pub record IpNet : Type 0 where
  pub bits : ℕ
  pub ip : ℕ
  pub ones : ℕ

-- How many addresses have the same masked bits.
abbrev pub block : IpNet → ℕ
block n = 2 ^ (n.bits - n.ones)

-- `n.Contains(ip)`, for an address of the given length.
abbrev pub contains_ip : IpNet → ℕ → ℕ → Bool
contains_ip n bits a = eqb n.bits bits && eqb (n.ip / block n) (a / block n)

-- What stands before the first `c` and what behind it.
unfoldable pub cut : ℕ → Text → Option (Text × Text)
cut c [] = none
cut c (d ∷ s) =
    let rest : Option (Text × Text) = elim (cut c s) [
      | none ↦ none
      | some (a, b) ↦ some (d ∷ a, b)
    ] in
    if eqb d c then some ([], s) else rest

abbrev pub is_digit : ℕ → Bool
is_digit c = leb b'0' c && leb c b'9'

-- The value of a run of digits behind others whose value is `n`.
unfoldable pub value_from : ℕ → Text → ℕ
value_from n [] = n
value_from n (c ∷ s) = value_from (n * 10 + (c - b'0')) s

unfoldable pub leads_zero : Text → Bool
leads_zero [] = false
leads_zero (c ∷ s) = eqb c b'0' && not (is_nil s)

-- One field of an IPv4 address.
unfoldable pub octet : Text → Option ℕ
octet s =
    if is_nil s || not (all is_digit s) || leads_zero s
    then none
    else if ltb 255 (value_from 0 s)
    then none
    else some (value_from 0 s)

abbrev pub join4 : Option ℕ → Option ℕ → Option ℕ → Option ℕ → Option ℕ
join4 (some a) (some b) (some c) (some d) = some (((a * 256 + b) * 256 + c) * 256 + d)
join4 _ _ _ _ = none

unfoldable pub parse_ipv4 : Text → Option ℕ
parse_ipv4 s = elim (cut b'.' s) [
  | none ↦ none
  | some (a, s1) ↦ elim (cut b'.' s1) [
    | none ↦ none
    | some (b, s2) ↦ elim (cut b'.' s2) [
      | none ↦ none
      | some (c, d) ↦ join4 (octet a) (octet b) (octet c) (octet d)
    ]
  ]
]

-- Whether the first of the characters that netip.ParseAddr looks for is a dot or a colon.
pub data Family : Type 0 where
  v4 : Family
  v6 : Family
  neither : Family

unfoldable pub family_of : Text → Family
family_of [] = neither
family_of (c ∷ s) =
    let rest = family_of s in
    if eqb c b'.' then v4 else if eqb c b':' then v6 else if eqb c b'%' then neither else rest

-- The digits of a mask, whose value is below 2 ^ 24 - 1 where it is read at all.
unfoldable pub parse_ones : ℕ → Text → Option ℕ
parse_ones bits s =
    if is_nil s || not (all is_digit s)
    then none
    else if ltb bits (value_from 0 s)
    then none
    else some (value_from 0 s)

-- The network of an address: the bits behind the mask are cleared.
abbrev pub masked : ℕ → Option ℕ → Option ℕ → Option IpNet
masked bits (some ip) (some ones) =
    some (record { bits = bits; ip = ip / 2 ^ (bits - ones) * 2 ^ (bits - ones); ones = ones })
masked bits _ _ = none

-- The test of `cidrsOverlap` on two networks.
abbrev pub nets_overlap : IpNet → IpNet → Bool
nets_overlap a b = contains_ip a b.bits b.ip || contains_ip b a.bits a.ip

module _ (parse_ipv6 : Text → Option ℕ) where
  -- The network that `net.ParseCIDR` returns, or nothing on an error.
  unfoldable pub parse_cidr : Text → Option IpNet
  parse_cidr s = elim (cut b'/' s) [
    | none ↦ none
    | some (addr, mask) ↦ elim (family_of addr) [
      | v4 ↦ masked 32 (parse_ipv4 addr) (parse_ones 32 mask)
      | v6 ↦ masked 128 (parse_ipv6 addr) (parse_ones 128 mask)
      | neither ↦ none
    ]
  ]

  -- `cidrsOverlap`; `none` is an error.
  unfoldable pub cidrs_overlap : Text → Text → Option Bool
  cidrs_overlap a b = elim (parse_cidr (trim_space a)) [
    | none ↦ none
    | some na ↦ elim (parse_cidr (trim_space b)) [
      | none ↦ none
      | some nb ↦ some (nets_overlap na nb)
    ]
  ]

-- A number below a thousand in decimal.
unfoldable pub decimal : ℕ → Text
decimal n =
    if ltb n 10
    then (b'0' + n) ∷ []
    else if ltb n 100
    then (b'0' + n / 10) ∷ (b'0' + n % 10) ∷ []
    else (b'0' + n / 100) ∷ (b'0' + n / 10 % 10) ∷ (b'0' + n % 10) ∷ []

-- `net.IP.String` of an IPv4 address.
unfoldable pub print_ipv4 : ℕ → Text
print_ipv4 ip =
    decimal (ip / 2 ^ 24)
    ++ (b'.'
        ∷ (decimal (ip / 2 ^ 16 % 256)
            ++ (b'.' ∷ (decimal (ip / 2 ^ 8 % 256) ++ (b'.' ∷ decimal (ip % 256))))))

unfoldable pub print_cidr : ℕ → ℕ → Text
print_cidr ip ones = print_ipv4 ip ++ (b'/' ∷ decimal ones)

pub data Failure : Type 0 where
  not_cidr : Text → Failure
  not_ipv4 : Text → Failure
  too_small : Text → Failure
  bad_index : ℕ → ℕ → Failure

pub data Result {ℓ} (A : Type ℓ) : Type ℓ where
  ok : A → Result A
  err : Failure → Result A

-- `nthSubnet` on an IPv4 network: the base address of the i-th subnet, in 32-bit arithmetic.
unfoldable pub nth_subnet : IpNet → ℕ → ℕ → Result ℕ
nth_subnet network new_ones i =
    let v = bit_or network.ip (i * 2 ^ (32 - new_ones) % 2 ^ 32) in
    if leb new_ones network.ones || leb (2 ^ (new_ones - network.ones)) i
    then err (bad_index i new_ones)
    else ok v

abbrev pub default_auto_prefixes : List Text
default_auto_prefixes = lit "10.241.0.0/18" ∷ lit "10.241.64.0/18" ∷ lit "10.241.128.0/18" ∷ []

-- The loop of `IntendedPrefixes` over the zones from `i` on.
unfoldable pub zone_prefixes : IpNet → ℕ → ℕ → Result (List Text)
zone_prefixes network i zero = ok []
zone_prefixes network i (suc zones) =
    let rest = zone_prefixes network (suc i) zones in
    elim (nth_subnet network (network.ones + 2) i) [
      | err f ↦ err f
      | ok ip ↦ elim rest [ err f ↦ err f | ok out ↦ ok (print_cidr ip (network.ones + 2) ∷ out) ]
    ]

pub record PrefixConflict : Type 0 where
  pub intended : Text
  pub existing : Text
  pub vpc_name : Text

abbrev pub both :
    Option (List PrefixConflict) → Option (List PrefixConflict) → Option (List PrefixConflict)
both (some xs) (some ys) = some (xs ++ ys)
both _ _ = none

module _ (parse_ipv6 : Text → Option ℕ) where
  -- `IntendedPrefixes`.
  unfoldable pub intended_prefixes : Text → Result (List Text)
  intended_prefixes cidr =
      if trim_space cidr == empty
      then ok default_auto_prefixes
      else elim (parse_cidr parse_ipv6 (trim_space cidr)) [
        | none ↦ err (not_cidr cidr)
        | some network ↦
            if not (eqb network.bits 32)
            then err (not_ipv4 cidr)
            else if ltb 18 network.ones
            then err (too_small cidr)
            else zone_prefixes network 0 3
      ]

  -- The loops of `FindPrefixConflicts`, from the innermost; `none` is an error.
  unfoldable pub conflicts_with : Text → Text → List Text → Option (List PrefixConflict)
  conflicts_with want vpc_name [] = some []
  conflicts_with want vpc_name (got ∷ have) =
      let rest = conflicts_with want vpc_name have in
      elim (cidrs_overlap parse_ipv6 want got) [
        | none ↦ none
        | some overlap ↦ elim rest [
          | none ↦ none
          | some found ↦
              if overlap
              then some (record { intended = want; existing = got; vpc_name = vpc_name } ∷ found)
              else some found
        ]
      ]

  -- The map of the attached prefixes in the order of its iteration.
  unfoldable pub conflicts_on : Text → List (Text × List Text) → Option (List PrefixConflict)
  conflicts_on want [] = some []
  conflicts_on want ((vpc_name, have) ∷ attached) =
      both (conflicts_with want vpc_name have) (conflicts_on want attached)

  -- `FindPrefixConflicts`.
  unfoldable pub find_prefix_conflicts :
      List Text → List (Text × List Text) → Option (List PrefixConflict)
  find_prefix_conflicts [] attached = some []
  find_prefix_conflicts (want ∷ intended) attached =
      both (conflicts_on want attached) (find_prefix_conflicts intended attached)
