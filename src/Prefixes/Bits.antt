-- ===== src/Prefixes/Bits.antt =====
-- The bitwise or of two numbers that share no digit.
use Prim.Native.Nat.{max, digits, bit_or, bit_or-bitwise}
use native.Mathlib.Nat.{pow-suc, mul_assoc}
use roksbnkctl.Prelude.{
  ℕ, zero, suc, ◌+◌, ◌*◌, ◌/◌, ◌%◌, ◌^◌, ◌≤◌, ◌<◌, ◌≡◌, refl, sym, ap, ap₂, ◌∙◌, arith,
}

-- Fuel above the left number does not matter.
or_fuel : (n m a b : ℕ) → a ≤ n → a ≤ m → digits (λ c. c) max n a b ≡ digits (λ c. c) max m a b
or_fuel zero zero a b p q = refl
or_fuel zero (suc m) zero b p q = refl
or_fuel zero (suc m) (suc a) b p q = absurd (omega arith)
or_fuel (suc n) zero zero b p q = refl
or_fuel (suc n) zero (suc a) b p q = absurd (omega arith)
or_fuel (suc n) (suc m) zero b p q = refl
or_fuel (suc n) (suc m) (suc a) b p q =
    omega (arith, or_fuel n m (suc a / 2) (b / 2) (omega arith) (omega arith))

zero-bit_or : (b : ℕ) → bit_or 0 b ≡ b
zero-bit_or b = bit_or-bitwise 0 b

-- The lowest digit and the rest.
bit_or-step : (a b : ℕ) → bit_or a b ≡ bit_or (a / 2) (b / 2) * 2 + max (a % 2) (b % 2)
bit_or-step zero b = omega (arith, zero-bit_or b, zero-bit_or (b / 2))
bit_or-step (suc a) b = omega (
  arith,
  bit_or-bitwise (suc a) b,
  bit_or-bitwise (suc a / 2) (b / 2),
  or_fuel a (suc a / 2) (suc a / 2) (b / 2) (omega arith) (omega arith),
)

bit_or-zero_below : (n a : ℕ) → a ≤ n → bit_or a 0 ≡ a
bit_or-zero_below n zero h = zero-bit_or 0
bit_or-zero_below zero (suc a) h = absurd (omega arith)
bit_or-zero_below (suc n) (suc a) h =
    omega (arith, bit_or-step (suc a) 0, bit_or-zero_below n (suc a / 2) (omega arith))

bit_or-even : (a b : ℕ) → bit_or (a * 2) (b * 2) ≡ bit_or a b * 2
bit_or-even a b =
    let half : (c : ℕ) → c * 2 / 2 ≡ c = λ c. omega arith in
    let last : (c : ℕ) → c * 2 % 2 ≡ 0 = λ c. omega arith in
    let halves : bit_or (a * 2 / 2) (b * 2 / 2) ≡ bit_or a b = ap₂ bit_or (half a) (half b) in
    let lasts : max (a * 2 % 2) (b * 2 % 2) ≡ 0 = ap₂ max (last a) (last b) in
    omega (arith, bit_or-step (a * 2) (b * 2), halves, lasts)

bit_or-two : (q i : ℕ) → i < 2 → bit_or (q * 2) i ≡ q * 2 + i
bit_or-two q i h =
    let halves : bit_or (q * 2 / 2) (i / 2) ≡ bit_or q 0 = ap₂ bit_or (omega arith) (omega arith) in
    let lasts : max (q * 2 % 2) (i % 2) ≡ max 0 i = ap₂ max (omega arith) (omega arith) in
    omega (arith, bit_or-step (q * 2) i, halves, lasts, bit_or-zero_below q q (omega arith))

bit_or-four : (q i : ℕ) → i < 4 → bit_or (q * 4) i ≡ q * 4 + i
bit_or-four q i h =
    let halves : bit_or (q * 4 / 2) (i / 2) ≡ bit_or (q * 2) (i / 2) =
      ap₂ bit_or (omega arith) refl in
    let lasts : max (q * 4 % 2) (i % 2) ≡ max 0 (i % 2) = ap₂ max (omega arith) refl in
    omega (arith, bit_or-step (q * 4) i, halves, lasts, bit_or-two q (i / 2) (omega arith))

double : (k s : ℕ) → k * 2 ^ suc s ≡ k * 2 ^ s * 2
double k s = ap (λ p. k * p) (pow-suc 2 s) ∙ sym (mul_assoc k (2 ^ s) 2)

-- The last two of the digits that a shift by `s` leaves free.
pub bit_or-add :
    (s q i : ℕ) → i < 4 → bit_or (q * 4 * 2 ^ s) (i * 2 ^ s) ≡ q * 4 * 2 ^ s + i * 2 ^ s
bit_or-add zero q i h =
    let ones : bit_or (q * 4 * 2 ^ 0) (i * 2 ^ 0) ≡ bit_or (q * 4) i =
      ap₂ bit_or (omega arith) (omega arith) in
    omega (arith, ones, bit_or-four q i h)
bit_or-add (suc s) q i h =
    let doubled : bit_or (q * 4 * 2 ^ suc s) (i * 2 ^ suc s)
        ≡ bit_or (q * 4 * 2 ^ s * 2) (i * 2 ^ s * 2) =
      ap₂ bit_or (double (q * 4) s) (double i s) in
    doubled
    ∙ bit_or-even (q * 4 * 2 ^ s) (i * 2 ^ s)
    ∙ ap (λ x. x * 2) (bit_or-add s q i h)
    ∙ omega (arith, double (q * 4) s, double i s)
