-- ===== src/Prefixes/Blocks.antt =====
-- When two networks overlap: blocks of addresses are nested or apart.
use native.Mathlib.Nat.{pow-suc, mul_assoc, div-div-eq-div-mul}
use roksbnkctl.Prelude.{
  ℕ, zero, suc, ◌+◌, ◌-◌, ◌*◌, ◌/◌, ◌^◌, ◌≤◌, ◌<◌, ◌≡◌, ◌↔◌, inl, inr, refl, sym, ap, ◌∙◌, arith,
  true, leb, leb_iff, Bool-cases, subst,
}
use roksbnkctl.Prefixes.{IpNet, block, contains_ip, nets_overlap}

pub pow_add : (m n : ℕ) → 2 ^ (m + n) ≡ 2 ^ m * 2 ^ n
pow_add m zero = let same : m + 0 ≡ m = omega arith in ap (λ e. 2 ^ e) same ∙ omega arith
pow_add m (suc n) =
    ap (λ e. 2 ^ e) (omega arith)
    ∙ pow-suc 2 (m + n)
    ∙ ap (λ p. p * 2) (pow_add m n)
    ∙ mul_assoc (2 ^ m) (2 ^ n) 2
    ∙ ap (λ p. 2 ^ m * p) (sym (pow-suc 2 n))

-- A network whose mask fits its addresses.
pub record IsNet (n : IpNet) : Type 0 where
  pub ones_le : n.ones ≤ n.bits
  pub ip_lt : n.ip < 2 ^ n.bits

-- Addresses that agree in the mask of a network agree in every shorter mask.
pub shorter_mask :
    (bits ones fewer x y : ℕ)
    → fewer ≤ ones
    → ones ≤ bits
    → x / 2 ^ (bits - ones) ≡ y / 2 ^ (bits - ones)
    → x / 2 ^ (bits - fewer) ≡ y / 2 ^ (bits - fewer)
shorter_mask bits ones fewer x y le fits same =
    let split : (z : ℕ) → z / 2 ^ (bits - fewer) ≡ z / 2 ^ (bits - ones) / 2 ^ (ones - fewer) = λ z.
      ap (λ e. z / 2 ^ e) (omega arith)
      ∙ ap (λ p. z / p) (pow_add (bits - ones) (ones - fewer))
      ∙ sym (div-div-eq-div-mul z (2 ^ (bits - ones)) (2 ^ (ones - fewer))) in
    split x ∙ ap (λ q. q / 2 ^ (ones - fewer)) same ∙ sym (split y)

-- An address of both networks.
abbrev pub Shared : IpNet → IpNet → Type 0
Shared a b =
    (x : ℕ) × (x < 2 ^ b.bits) × (contains_ip a b.bits x ≡ true) × (contains_ip b a.bits x ≡ true)

contains_ip_iff :
    (n : IpNet) (bits x : ℕ)
    → (contains_ip n bits x ≡ true) ↔ ((n.bits ≡ bits) × (n.ip / block n ≡ x / block n))
contains_ip_iff n bits x = ground arith

nets_overlap_sound : (a b : IpNet) → IsNet a → IsNet b → nets_overlap a b ≡ true → Shared a b
nets_overlap_sound a b ha hb e = elim (Bool-cases (contains_ip a b.bits b.ip)) [
  | inl inside ↦
      let (same, _) = (contains_ip_iff a b.bits b.ip).0 inside in
      (b.ip, hb.ip_lt, inside, (contains_ip_iff b a.bits b.ip).1 (sym same, refl))
  | inr outside ↦
      let (same, q) = (contains_ip_iff b a.bits a.ip).0 (ground arith) in
      (
        a.ip,
        subst (λ k. a.ip < 2 ^ k) (sym same) ha.ip_lt,
        (contains_ip_iff a b.bits a.ip).1 (sym same, refl),
        (contains_ip_iff b a.bits a.ip).1 (same, q),
      )
]

-- The network with the shorter mask contains the other's first address.
wider_contains :
    (a b : IpNet) (x : ℕ)
    → b.ones ≤ b.bits
    → a.ones ≤ b.ones
    → contains_ip a b.bits x ≡ true
    → contains_ip b a.bits x ≡ true
    → contains_ip a b.bits b.ip ≡ true
wider_contains a b x fits le in_a in_b =
    let (same, qa) = (contains_ip_iff a b.bits x).0 in_a in
    let (_, qb) = (contains_ip_iff b a.bits x).0 in_b in
    let wide : x / 2 ^ (b.bits - a.ones) ≡ b.ip / 2 ^ (b.bits - a.ones) =
      shorter_mask b.bits b.ones a.ones x b.ip le fits (sym qb) in
    (contains_ip_iff a b.bits b.ip).1
      (same, qa ∙ subst (λ k. x / 2 ^ (k - a.ones) ≡ b.ip / 2 ^ (k - a.ones)) (sym same) wide)

-- Two networks overlap by the program's test exactly when there is an address that both contain.
pub nets_overlap-Shared : (a b : IpNet) → IsNet a → IsNet b → (nets_overlap a b ≡ true) ↔ Shared a b
nets_overlap-Shared a b ha hb = (
  nets_overlap_sound a b ha hb,
  λ (x, lt, in_a, in_b). elim (Bool-cases (leb a.ones b.ones)) [
    | inl le ↦
        ground (arith, wider_contains a b x hb.ones_le ((leb_iff a.ones b.ones).0 le) in_a in_b)
    | inr gt ↦
        let back = wider_contains b a x ha.ones_le (ground arith) in_b in_a in ground (arith, back)
  ],
)
