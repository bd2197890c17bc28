-- ===== src/Prefixes/Intended.antt =====
-- What `IntendedPrefixes` returns for a network that is large enough.
use native.Mathlib.Nat.{mul-div_cancel, div-div-eq-div-mul}
use roksbnkctl.Prelude.{
  ℕ, ◌+◌, ◌-◌, ◌*◌, ◌/◌, ◌%◌, ◌^◌, ◌≤◌, ◌<◌, ◌≡◌, refl, sym, ap, subst, ◌∙◌, arith, inl, inr, true,
  false, Option, none, some, [], ◌∷◌, ◌++◌, eqb, Text, empty, ◌==◌, ==_sound, trim_space,
  is_visible, trim_space-is_visible, Bool-cases,
}
use roksbnkctl.Prefixes.{
  IpNet, contains_ip, cut, parse_cidr, cidrs_overlap, ok, nth_subnet, zone_prefixes, decimal,
  print_ipv4, print_cidr, intended_prefixes,
}
use roksbnkctl.Prefixes.Zones.{
  pow_pos, zone_bits, zone_bits-four, zone_ip, zone_ip-lt, network_of, nth_subnet-zone_ip, zone_net,
  parse_cidr-zone, nets_overlap-zone,
}
use roksbnkctl.Prefixes.Networks.{parse_cidr-IsNetwork, cidrs_overlap-parsed}

is_visible-append :
    (s t : Text) → is_visible s ≡ true → is_visible t ≡ true → is_visible (s ++ t) ≡ true
is_visible-append [] t h k = k
is_visible-append (c ∷ s) t h k = ground (arith, is_visible-append s t)

decimal-is_visible : (n : ℕ) → n < 1000 → is_visible (decimal n) ≡ true
unfolding decimal
decimal-is_visible n h = ground arith

print_cidr-is_visible :
    (ip ones : ℕ) → ip < 2 ^ 32 → ones ≤ 32 → is_visible (print_cidr ip ones) ≡ true
unfolding print_cidr print_ipv4
print_cidr-is_visible ip ones h k =
    let join : (n : ℕ) (t : Text)
        → n < 1000
        → is_visible t ≡ true
        → is_visible (decimal n ++ t) ≡ true =
      λ n t lt. is_visible-append (decimal n) t (decimal-is_visible n lt) in
    let address = join (ip / 2 ^ 24) _ (omega arith) (
      join (ip / 2 ^ 16 % 256) (b'.' ∷ (decimal (ip / 2 ^ 8 % 256) ++ (b'.' ∷ decimal (ip % 256))))
        (omega arith)
        (join (ip / 2 ^ 8 % 256) (b'.' ∷ decimal (ip % 256)) (omega arith)
          (decimal-is_visible (ip % 256) (omega arith)))) in
    is_visible-append (print_ipv4 ip) (b'/' ∷ decimal ones) address
      (decimal-is_visible ones (omega arith))

-- The prefix of one zone, as it is printed.
abbrev zone_text : ℕ → ℕ → ℕ → Text
zone_text q ones i = print_cidr (zone_ip q ones i) (ones + 2)

trim_space-zone_text :
    (q ones i : ℕ)
    → ones ≤ 18
    → i < 3
    → q < 2 ^ ones
    → trim_space (zone_text q ones i) ≡ zone_text q ones i
trim_space-zone_text q ones i h k lt =
    trim_space-is_visible (zone_text q ones i) (
      print_cidr-is_visible (zone_ip q ones i) (ones + 2) (zone_ip-lt q ones i h k lt)
        (omega arith))

cidrs_overlap-zone_text :
    (parse_ipv6 : Text → Option ℕ) (q ones i j : ℕ)
    → ones ≤ 18
    → q < 2 ^ ones
    → i < 3
    → j < 3
    → cidrs_overlap parse_ipv6 (zone_text q ones i) (zone_text q ones j) ≡ some (eqb i j)
cidrs_overlap-zone_text parse_ipv6 q ones i j h lt ki kj =
    cidrs_overlap-parsed parse_ipv6 (zone_text q ones i) (zone_text q ones j) _ _ _ _
      (trim_space-zone_text q ones i h ki lt) (trim_space-zone_text q ones j h kj lt)
      (parse_cidr-zone parse_ipv6 q ones i h ki lt) (parse_cidr-zone parse_ipv6 q ones j h kj lt)
    ∙ ap (λ b. some b) (nets_overlap-zone q ones i j)

zone_ip-network : (q ones i : ℕ) → ones ≤ 18 → i < 3 → zone_ip q ones i / 2 ^ (32 - ones) ≡ q
zone_ip-network q ones i h k =
    let s = zone_bits ones in
    let four : 2 ^ (32 - ones) ≡ 2 ^ s * 4 = zone_bits-four ones h ∙ omega arith in
    ap (λ p. zone_ip q ones i / p) four
    ∙ sym (div-div-eq-div-mul (zone_ip q ones i) (2 ^ s) 4)
    ∙ ap (λ m. m / 4) (mul-div_cancel (q * 4 + i) (pow_pos s))
    ∙ omega arith

contains_ip-zone :
    (q ones i : ℕ)
    → ones ≤ 18
    → i < 3
    → contains_ip (network_of q ones) 32 (zone_ip q ones i) ≡ true
contains_ip-zone q ones i h k =
    ground (arith, zone_ip-network q ones i h k, mul-div_cancel q (pow_pos (32 - ones)))

zone_prefixes-ok :
    (network : IpNet) (x y z : ℕ)
    → nth_subnet network (network.ones + 2) 0 ≡ ok x
    → nth_subnet network (network.ones + 2) 1 ≡ ok y
    → nth_subnet network (network.ones + 2) 2 ≡ ok z
    → zone_prefixes network 0 3
      ≡ ok (
          print_cidr x (network.ones + 2)
          ∷ print_cidr y (network.ones + 2)
          ∷ print_cidr z (network.ones + 2)
          ∷ [])
unfolding zone_prefixes
zone_prefixes-ok network x y z hx hy hz = ground (arith, hx, hy, hz)

zone_prefixes-network_of :
    (q ones : ℕ)
    → ones ≤ 18
    → zone_prefixes (network_of q ones) 0 3
      ≡ ok (zone_text q ones 0 ∷ zone_text q ones 1 ∷ zone_text q ones 2 ∷ [])
zone_prefixes-network_of q ones h =
    zone_prefixes-ok (network_of q ones) _ _ _ (nth_subnet-zone_ip q ones 0 h (omega arith))
      (nth_subnet-zone_ip q ones 1 h (omega arith)) (nth_subnet-zone_ip q ones 2 h (omega arith))

-- A prefix two bits longer than the network's mask, at an address of the network.
abbrev pub IsZoneOf : (Text → Option ℕ) → IpNet → Text → Type 0
IsZoneOf parse_ipv6 network t =
    (zone : IpNet) × (parse_cidr parse_ipv6 t ≡ some zone)
    × (zone.ones ≡ network.ones + 2)
    × (contains_ip network zone.bits zone.ip ≡ true)

zone_text-IsZoneOf :
    (parse_ipv6 : Text → Option ℕ) (q ones i : ℕ)
    → ones ≤ 18
    → i < 3
    → q < 2 ^ ones
    → IsZoneOf parse_ipv6 (network_of q ones) (zone_text q ones i)
unfolding zone_net
zone_text-IsZoneOf parse_ipv6 q ones i h k lt = (
  zone_net q ones i,
  parse_cidr-zone parse_ipv6 q ones i h k lt,
  refl,
  contains_ip-zone q ones i h k,
)

parse_cidr-empty : (parse_ipv6 : Text → Option ℕ) → parse_cidr parse_ipv6 empty ≡ none
unfolding parse_cidr cut
parse_cidr-empty parse_ipv6 = refl

intended_prefixes-some :
    (parse_ipv6 : Text → Option ℕ) (cidr : Text) (network : IpNet)
    → parse_cidr parse_ipv6 (trim_space cidr) ≡ some network
    → network.bits ≡ 32
    → network.ones ≤ 18
    → intended_prefixes parse_ipv6 cidr ≡ zone_prefixes network 0 3
unfolding intended_prefixes
intended_prefixes-some parse_ipv6 cidr network h k le =
    elim (Bool-cases (trim_space cidr == empty)) [
      | inl e ↦
          let blank = ==_sound (trim_space cidr) empty e in
          ground (arith, blank, parse_cidr-empty parse_ipv6)
      | inr e ↦ ground arith
    ]

-- Where `cluster.vpc_cidr`, trimmed, is an IPv4 network of /18 or larger, the intended prefixes are three
-- texts, each the network of one zone, two bits longer than the whole and in it, and no two of them overlap.
pub intended_prefixes-IsZoneOf :
    (parse_ipv6 : Text → Option ℕ) (cidr : Text) (network : IpNet)
    → parse_cidr parse_ipv6 (trim_space cidr) ≡ some network
    → network.bits ≡ 32
    → network.ones ≤ 18
    → (a b c : Text) × (intended_prefixes parse_ipv6 cidr ≡ ok (a ∷ b ∷ c ∷ []))
      × IsZoneOf parse_ipv6 network a
      × IsZoneOf parse_ipv6 network b
      × IsZoneOf parse_ipv6 network c
      × (cidrs_overlap parse_ipv6 a b ≡ some false)
      × (cidrs_overlap parse_ipv6 a c ≡ some false)
      × (cidrs_overlap parse_ipv6 b c ≡ some false)
intended_prefixes-IsZoneOf parse_ipv6 cidr network h k le =
    let (q, same, lt) = parse_cidr-IsNetwork parse_ipv6 (trim_space cidr) network h k in
    let ones = network.ones in
    let zone = λ (i : ℕ) (ki : i < 3).
      subst (λ n. IsZoneOf parse_ipv6 n (zone_text q ones i)) (sym same)
        (zone_text-IsZoneOf parse_ipv6 q ones i le ki lt) in
    let apart = cidrs_overlap-zone_text parse_ipv6 q ones in
    (
      zone_text q ones 0,
      zone_text q ones 1,
      zone_text q ones 2,
      intended_prefixes-some parse_ipv6 cidr network h k le
          ∙ ap (λ n. zone_prefixes n 0 3) same
          ∙ zone_prefixes-network_of q ones le,
      zone 0 (omega arith),
      zone 1 (omega arith),
      zone 2 (omega arith),
      apart 0 1 le lt (omega arith) (omega arith),
      apart 0 2 le lt (omega arith) (omega arith),
      apart 1 2 le lt (omega arith) (omega arith),
    )
