-- ===== src/Prefixes/RoundTrip.antt =====
-- Printing an IPv4 network and reading it back.
use roksbnkctl.Prelude.{
  ℕ, ◌+◌, ◌-◌, ◌*◌, ◌/◌, ◌%◌, ◌^◌, ◌≤◌, ◌<◌, ◌≡◌, refl, ◌∙◌, arith, Bool, true, false, not, Option,
  some, [], ◌∷◌, ◌++◌, eqb, is_nil, all, Text,
}
use roksbnkctl.Prefixes.{
  cut, is_digit, value_from, leads_zero, octet, join4, parse_ipv4, v4, family_of, parse_ones,
  masked, parse_cidr, decimal, print_ipv4, print_cidr,
}

decimal-digits : (n : ℕ) → n < 1000 → all is_digit (decimal n) ≡ true
unfolding decimal
decimal-digits n h = ground arith

decimal-is_nil : (n : ℕ) → is_nil (decimal n) ≡ false
unfolding decimal
decimal-is_nil n = ground arith

decimal-leads_zero : (n : ℕ) → leads_zero (decimal n) ≡ false
unfolding decimal leads_zero
decimal-leads_zero n = ground arith

value_from-decimal : (n : ℕ) → value_from 0 (decimal n) ≡ n
unfolding decimal value_from
value_from-decimal n = ground arith

octet-decimal : (n : ℕ) → n < 256 → octet (decimal n) ≡ some n
unfolding octet
octet-decimal n h =
    rw
      (decimal-is_nil n, decimal-digits n (omega arith), decimal-leads_zero n, value_from-decimal n)
      (ground arith)

parse_ones-decimal : (bits n : ℕ) → n ≤ bits → n < 1000 → parse_ones bits (decimal n) ≡ some n
unfolding parse_ones
parse_ones-decimal bits n h k =
    rw (decimal-is_nil n, decimal-digits n k, value_from-decimal n) (ground arith)

-- A text without the character.
abbrev lacks : ℕ → Text → Bool
lacks c s = all (λ d. not (eqb d c)) s

cut-append : (c : ℕ) (s rest : Text) → lacks c s ≡ true → cut c (s ++ (c ∷ rest)) ≡ some (s, rest)
unfolding cut
cut-append c [] rest h = ground arith
cut-append c (d ∷ s) rest h = ground (arith, cut-append c s rest)

digits-lacks : (c : ℕ) (s : Text) → is_digit c ≡ false → all is_digit s ≡ true → lacks c s ≡ true
digits-lacks c [] h k = refl
digits-lacks c (d ∷ s) h k = ground (arith, digits-lacks c s)

lacks-append : (c : ℕ) (s t : Text) → lacks c s ≡ true → lacks c t ≡ true → lacks c (s ++ t) ≡ true
lacks-append c [] t h k = k
lacks-append c (d ∷ s) t h k = ground (arith, lacks-append c s t)

family_of-digits : (s rest : Text) → all is_digit s ≡ true → family_of (s ++ (b'.' ∷ rest)) ≡ v4
unfolding family_of
family_of-digits [] rest h = refl
family_of-digits (d ∷ s) rest h = ground (arith, family_of-digits s rest)

-- The four bytes of an address.
abbrev byte3 : ℕ → ℕ
byte3 ip = ip / 2 ^ 24

abbrev byte2 : ℕ → ℕ
byte2 ip = ip / 2 ^ 16 % 256

abbrev byte1 : ℕ → ℕ
byte1 ip = ip / 2 ^ 8 % 256

abbrev byte0 : ℕ → ℕ
byte0 ip = ip % 256

decimal-lacks : (c n : ℕ) → is_digit c ≡ false → n < 1000 → lacks c (decimal n) ≡ true
decimal-lacks c n h k = digits-lacks c (decimal n) h (decimal-digits n k)

cut-decimal :
    (c n : ℕ) (rest : Text)
    → is_digit c ≡ false
    → n < 1000
    → cut c (decimal n ++ (c ∷ rest)) ≡ some (decimal n, rest)
cut-decimal c n rest h k = cut-append c (decimal n) rest (decimal-lacks c n h k)

bytes_value : (ip : ℕ) → ((byte3 ip * 256 + byte2 ip) * 256 + byte1 ip) * 256 + byte0 ip ≡ ip
bytes_value ip = omega arith

parse_ipv4-cuts :
    (s a s1 b s2 c d : Text)
    → cut b'.' s ≡ some (a, s1)
    → cut b'.' s1 ≡ some (b, s2)
    → cut b'.' s2 ≡ some (c, d)
    → parse_ipv4 s ≡ join4 (octet a) (octet b) (octet c) (octet d)
unfolding parse_ipv4
parse_ipv4-cuts s a s1 b s2 c d h1 h2 h3 = ground arith

join4-some :
    (oa ob oc od : Option ℕ) (a b c d ip : ℕ)
    → oa ≡ some a
    → ob ≡ some b
    → oc ≡ some c
    → od ≡ some d
    → ((a * 256 + b) * 256 + c) * 256 + d ≡ ip
    → join4 oa ob oc od ≡ some ip
join4-some oa ob oc od a b c d ip ha hb hc hd h = ground arith

parse_ipv4-print_ipv4 : (ip : ℕ) → ip < 2 ^ 32 → parse_ipv4 (print_ipv4 ip) ≡ some ip
unfolding print_ipv4
parse_ipv4-print_ipv4 ip h =
    let d1 = decimal (byte1 ip) ++ (b'.' ∷ decimal (byte0 ip)) in
    let d2 = decimal (byte2 ip) ++ (b'.' ∷ d1) in
    parse_ipv4-cuts (decimal (byte3 ip) ++ (b'.' ∷ d2)) (decimal (byte3 ip)) d2 (decimal (byte2 ip))
      d1 (decimal (byte1 ip)) (decimal (byte0 ip))
      (cut-decimal b'.' (byte3 ip) d2 refl (omega arith))
      (cut-decimal b'.' (byte2 ip) d1 refl (omega arith))
      (cut-decimal b'.' (byte1 ip) (decimal (byte0 ip)) refl (omega arith))
    ∙ join4-some (octet (decimal (byte3 ip))) (octet (decimal (byte2 ip)))
        (octet (decimal (byte1 ip))) (octet (decimal (byte0 ip))) (byte3 ip) (byte2 ip) (byte1 ip)
        (byte0 ip) ip (octet-decimal (byte3 ip) (omega arith))
        (octet-decimal (byte2 ip) (omega arith)) (octet-decimal (byte1 ip) (omega arith))
        (octet-decimal (byte0 ip) (omega arith)) (bytes_value ip)

print_ipv4-lacks : (ip : ℕ) → ip < 2 ^ 32 → lacks b'/' (print_ipv4 ip) ≡ true
unfolding print_ipv4
print_ipv4-lacks ip h =
    let lack = λ (n : ℕ) (k : n < 1000). decimal-lacks b'/' n refl k in
    let t0 : lacks b'/' (b'.' ∷ decimal (byte0 ip)) ≡ true = lack (byte0 ip) (omega arith) in
    let t1 : lacks b'/' (b'.' ∷ (decimal (byte1 ip) ++ (b'.' ∷ decimal (byte0 ip)))) ≡ true =
      lacks-append b'/' (decimal (byte1 ip)) (b'.' ∷ decimal (byte0 ip))
        (lack (byte1 ip) (omega arith)) t0 in
    let t2 =
      lacks-append b'/' (decimal (byte2 ip))
        (b'.' ∷ (decimal (byte1 ip) ++ (b'.' ∷ decimal (byte0 ip)))) (lack (byte2 ip) (omega arith))
        t1 in
    lacks-append b'/' (decimal (byte3 ip))
      (b'.' ∷ (decimal (byte2 ip) ++ (b'.' ∷ (decimal (byte1 ip) ++ (b'.' ∷ decimal (byte0 ip))))))
      (lack (byte3 ip) (omega arith)) t2

family_of-print_ipv4 : (ip : ℕ) → ip < 2 ^ 32 → family_of (print_ipv4 ip) ≡ v4
unfolding print_ipv4
family_of-print_ipv4 ip h =
    family_of-digits (decimal (byte3 ip))
      (decimal (byte2 ip) ++ (b'.' ∷ (decimal (byte1 ip) ++ (b'.' ∷ decimal (byte0 ip)))))
      (decimal-digits (byte3 ip) (omega arith))

parse_cidr-cut :
    (parse_ipv6 : Text → Option ℕ) (s addr mask : Text) (ip ones : ℕ)
    → cut b'/' s ≡ some (addr, mask)
    → family_of addr ≡ v4
    → parse_ipv4 addr ≡ some ip
    → parse_ones 32 mask ≡ some ones
    → parse_cidr parse_ipv6 s ≡ masked 32 (some ip) (some ones)
unfolding parse_cidr
parse_cidr-cut parse_ipv6 s addr mask ip ones h1 h2 h3 h4 = ground arith

-- A printed IPv4 network is read back as it was, with the bits behind its mask cleared.
pub parse_cidr-print_cidr :
    (parse_ipv6 : Text → Option ℕ) (ip ones : ℕ)
    → ip < 2 ^ 32
    → ones ≤ 32
    → parse_cidr parse_ipv6 (print_cidr ip ones)
      ≡ some (record { bits = 32; ip = ip / 2 ^ (32 - ones) * 2 ^ (32 - ones); ones = ones })
unfolding print_cidr
parse_cidr-print_cidr parse_ipv6 ip ones h k =
    parse_cidr-cut parse_ipv6 (print_ipv4 ip ++ (b'/' ∷ decimal ones)) (print_ipv4 ip)
      (decimal ones) ip ones
      (cut-append b'/' (print_ipv4 ip) (decimal ones) (print_ipv4-lacks ip h))
      (family_of-print_ipv4 ip h) (parse_ipv4-print_ipv4 ip h)
      (parse_ones-decimal 32 ones k (omega arith))
