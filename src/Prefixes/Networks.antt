-- ===== src/Prefixes/Networks.antt =====
-- What the networks are that `net.ParseCIDR` returns, and the overlap of two of them.
use native.Mathlib.Nat.{div-lt_iff_lt-mul, div-mul-le_self}
use roksbnkctl.Prelude.{
  some_injective, ℕ, ◌-◌, ◌*◌, ◌/◌, ◌^◌, ◌≤◌, ◌<◌, ◌≡◌, ◌↔◌, refl, sym, ap, subst, ◌∙◌, arith, inl,
  inr, true, Option, none, some, Text, trim_space, Option-cases,
}
use roksbnkctl.Prefixes.{
  IpNet, nets_overlap, cut, octet, join4, parse_ipv4, Family, v4, v6, neither, family_of,
  parse_ones, masked, parse_cidr, cidrs_overlap,
}
use roksbnkctl.Prefixes.Blocks.{pow_add, IsNet, Shared, nets_overlap-Shared}
use roksbnkctl.Prefixes.Zones.{pow_pos, network_of}

octet_lt : (s : Text) (n : ℕ) → octet s ≡ some n → n < 256
unfolding octet
octet_lt s n h = ground arith

join4_lt :
    (oa ob oc od : Option ℕ) (ip : ℕ)
    → ((n : ℕ) → oa ≡ some n → n < 256)
    → ((n : ℕ) → ob ≡ some n → n < 256)
    → ((n : ℕ) → oc ≡ some n → n < 256)
    → ((n : ℕ) → od ≡ some n → n < 256)
    → join4 oa ob oc od ≡ some ip
    → ip < 2 ^ 32
join4_lt (some a) (some b) (some c) (some d) ip ha hb hc hd h =
    let la = ha a refl in
    let lb = hb b refl in let lc = hc c refl in let ld = hd d refl in ground (arith, la, lb, lc, ld)
join4_lt none ob oc od ip ha hb hc hd h = ground arith
join4_lt (some a) none oc od ip ha hb hc hd h = ground arith
join4_lt (some a) (some b) none od ip ha hb hc hd h = ground arith
join4_lt (some a) (some b) (some c) none ip ha hb hc hd h = ground arith

-- The result of the reader is that of four fields.
parse_ipv4-join4 :
    (s : Text) (ip : ℕ)
    → parse_ipv4 s ≡ some ip
    → (a b c d : Text) × (join4 (octet a) (octet b) (octet c) (octet d) ≡ some ip)
unfolding parse_ipv4
parse_ipv4-join4 s ip h = elim (Option-cases (cut b'.' s)) [
  | inl e ↦ ground arith
  | inr ((a, s1), e1) ↦ elim (Option-cases (cut b'.' s1)) [
    | inl e ↦ ground arith
    | inr ((b, s2), e2) ↦ elim (Option-cases (cut b'.' s2)) [
      | inl e ↦ ground arith
      | inr ((c, d), e3) ↦ (a, b, c, d, ground arith)
    ]
  ]
]

parse_ipv4_lt : (s : Text) (ip : ℕ) → parse_ipv4 s ≡ some ip → ip < 2 ^ 32
parse_ipv4_lt s ip h =
    let (a, b, c, d, e) = parse_ipv4-join4 s ip h in
    join4_lt (octet a) (octet b) (octet c) (octet d) ip (octet_lt a) (octet_lt b) (octet_lt c)
      (octet_lt d) e

parse_ones_le : (bits : ℕ) (s : Text) (n : ℕ) → parse_ones bits s ≡ some n → n ≤ bits
unfolding parse_ones
parse_ones_le bits s n h = ground arith

-- What a network of 32 bits is.
abbrev pub IsNetwork : IpNet → Type 0
IsNetwork n = (q : ℕ) × (n ≡ network_of q n.ones) × (q < 2 ^ n.ones)

masked-IsNetwork :
    (o m : Option ℕ) (n : IpNet)
    → ((ip : ℕ) → o ≡ some ip → ip < 2 ^ 32)
    → ((ones : ℕ) → m ≡ some ones → ones ≤ 32)
    → masked 32 o m ≡ some n
    → IsNetwork n
masked-IsNetwork (some ip) (some ones) n hip hones h =
    let le = hones ones refl in
    let lt = hip ip refl in
    let size : 2 ^ ones * 2 ^ (32 - ones) ≡ 2 ^ 32 =
      sym (pow_add ones (32 - ones)) ∙ ap (λ k. 2 ^ k) {y = 32} (omega arith) in
    subst IsNetwork (some_injective h) (
      ip / 2 ^ (32 - ones),
      refl,
      (div-lt_iff_lt-mul (pow_pos (32 - ones))).1 (omega (arith, size)),
    )
masked-IsNetwork none m n hip hones h = ground arith
masked-IsNetwork (some ip) none n hip hones h = ground arith

masked_bits : (bits : ℕ) (o m : Option ℕ) (n : IpNet) → masked bits o m ≡ some n → n.bits ≡ bits
masked_bits bits (some ip) (some ones) n h = sym (ap (λ (m : IpNet). m.bits) (some_injective h))
masked_bits bits none m n h = ground arith
masked_bits bits (some ip) none n h = ground arith

pub parse_cidr-IsNetwork :
    (parse_ipv6 : Text → Option ℕ) (s : Text) (n : IpNet)
    → parse_cidr parse_ipv6 s ≡ some n
    → n.bits ≡ 32
    → IsNetwork n
unfolding parse_cidr
parse_cidr-IsNetwork parse_ipv6 s n h k = elim (Option-cases (cut b'/' s)) [
  | inl e ↦ ground arith
  | inr ((addr, mask), e) ↦ by_family addr mask (family_of addr) (ground arith)
]
  where
    by_family :
        (addr mask : Text) (f : Family)
        → elim f [
          | v4 ↦ masked 32 (parse_ipv4 addr) (parse_ones 32 mask)
          | v6 ↦ masked 128 (parse_ipv6 addr) (parse_ones 128 mask)
          | neither ↦ none
        ]
          ≡ some n
        → IsNetwork n
    by_family addr mask v4 e =
        masked-IsNetwork (parse_ipv4 addr) (parse_ones 32 mask) n (parse_ipv4_lt addr)
          (parse_ones_le 32 mask) e
    by_family addr mask v6 e =
        ground (arith, k, masked_bits 128 (parse_ipv6 addr) (parse_ones 128 mask) n e)
    by_family addr mask neither e = ground arith

masked-IsNet :
    (bits : ℕ) (o m : Option ℕ) (n : IpNet)
    → ((ip : ℕ) → o ≡ some ip → ip < 2 ^ bits)
    → ((ones : ℕ) → m ≡ some ones → ones ≤ bits)
    → masked bits o m ≡ some n
    → IsNet n
masked-IsNet bits (some ip) (some ones) n hip hones h = subst IsNet (some_injective h) (record {
  ones_le = hones ones refl;
  ip_lt = omega (arith, div-mul-le_self ip (2 ^ (bits - ones)), hip ip refl);
})
masked-IsNet bits none m n hip hones h = ground arith
masked-IsNet bits (some ip) none n hip hones h = ground arith

parse_cidr-IsNet :
    (parse_ipv6 : Text → Option ℕ)
    → ((s : Text) (ip : ℕ) → parse_ipv6 s ≡ some ip → ip < 2 ^ 128)
    → (s : Text) (n : IpNet) → parse_cidr parse_ipv6 s ≡ some n
    → IsNet n
unfolding parse_cidr
parse_cidr-IsNet parse_ipv6 lt s n h = elim (Option-cases (cut b'/' s)) [
  | inl e ↦ ground arith
  | inr ((addr, mask), e) ↦ by_family addr mask (family_of addr) (ground arith)
]
  where
    by_family :
        (addr mask : Text) (f : Family)
        → elim f [
          | v4 ↦ masked 32 (parse_ipv4 addr) (parse_ones 32 mask)
          | v6 ↦ masked 128 (parse_ipv6 addr) (parse_ones 128 mask)
          | neither ↦ none
        ]
          ≡ some n
        → IsNet n
    by_family addr mask v4 e =
        masked-IsNet 32 (parse_ipv4 addr) (parse_ones 32 mask) n (parse_ipv4_lt addr)
          (parse_ones_le 32 mask) e
    by_family addr mask v6 e =
        masked-IsNet 128 (parse_ipv6 addr) (parse_ones 128 mask) n (lt addr)
          (parse_ones_le 128 mask) e
    by_family addr mask neither e = ground arith

pub cidrs_overlap-parsed :
    (parse_ipv6 : Text → Option ℕ) (s t a b : Text) (m n : IpNet)
    → trim_space s ≡ a
    → trim_space t ≡ b
    → parse_cidr parse_ipv6 a ≡ some m
    → parse_cidr parse_ipv6 b ≡ some n
    → cidrs_overlap parse_ipv6 s t ≡ some (nets_overlap m n)
unfolding cidrs_overlap
cidrs_overlap-parsed parse_ipv6 s t a b m n hs ht ha hb = ground (arith, hs, ht, ha, hb)

-- Where the reader of IPv6 addresses returns 128 bits: two texts that are networks once trimmed overlap
-- exactly when there is an address that both networks contain.
pub cidrs_overlap-Shared :
    (parse_ipv6 : Text → Option ℕ)
    → ((s : Text) (ip : ℕ) → parse_ipv6 s ≡ some ip → ip < 2 ^ 128)
    → (s t : Text) (m n : IpNet) → parse_cidr parse_ipv6 (trim_space s) ≡ some m
    → parse_cidr parse_ipv6 (trim_space t) ≡ some n
    → (cidrs_overlap parse_ipv6 s t ≡ some true) ↔ Shared m n
cidrs_overlap-Shared parse_ipv6 lt s t m n hm hn =
    let test = cidrs_overlap-parsed parse_ipv6 s t _ _ m n refl refl hm hn in
    let shared =
      nets_overlap-Shared m n (parse_cidr-IsNet parse_ipv6 lt _ m hm)
        (parse_cidr-IsNet parse_ipv6 lt _ n hn) in
    (λ e. shared.0 (some_injective (sym test ∙ e)), λ x. test ∙ ap (λ b. some b) (shared.1 x))
