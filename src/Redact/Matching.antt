-- ===== src/Redact/Matching.antt =====
-- When an entry matches at a position, and how that changes as more bytes arrive.
use mathlib.Core.List.{Memᴰ}
use roksbnkctl.Prelude.{
  ◌≤◌, ◌<◌, ◌≡◌, refl, sym, ap, ◌⊎◌, inl, inr, true, false, none, some, List, [], ◌∷◌, ◌++◌, arith,
  Bool-cases, length, ◌==◌, has_prefix,
}
use roksbnkctl.Redact.Encoding.{Bytes}
use roksbnkctl.Redact.{matches_at, first_match, potential_among}

-- No entry is a prefix of another.
abbrev pub PrefixFree : List Bytes → Type 0
PrefixFree ss = (s t : Bytes) → Memᴰ s ss → Memᴰ t ss → has_prefix t s ≡ true → s ≡ t

pub matches_at_lem : (s bytes : Bytes) → matches_at s bytes ≡ has_prefix bytes s
unfolding matches_at has_prefix ◌==◌
matches_at_lem [] bytes = ground arith
matches_at_lem (c ∷ s) [] = ground arith
matches_at_lem (c ∷ s) (d ∷ bytes) = ground (arith, matches_at_lem s bytes)

has_prefix_refl : (s : Bytes) → has_prefix s s ≡ true
unfolding has_prefix
has_prefix_refl [] = refl
has_prefix_refl (c ∷ s) = ground (arith, has_prefix_refl s)

pub has_prefix-append :
    (tail rest s : Bytes) → has_prefix tail s ≡ true → has_prefix (tail ++ rest) s ≡ true
unfolding has_prefix
has_prefix-append tail rest [] h = refl
has_prefix-append [] rest (d ∷ s) h = cc
has_prefix-append (c ∷ tail) rest (d ∷ s) h = ground (arith, has_prefix-append tail rest s)

-- A prefix of `tail ++ rest` ends in `tail`, or `tail` is a proper prefix of it.
pub has_prefix-append_cases :
    (tail rest s : Bytes)
    → has_prefix (tail ++ rest) s ≡ true
    → (has_prefix tail s ≡ true) ⊎ ((length tail < length s) × (has_prefix s tail ≡ true))
unfolding has_prefix
has_prefix-append_cases tail rest [] h = inl refl
has_prefix-append_cases [] rest (d ∷ s) h = inr (omega arith, refl)
has_prefix-append_cases (c ∷ tail) rest (d ∷ s) h =
    ground (arith, has_prefix-append_cases tail rest s)

has_prefix_trans :
    (s t u : Bytes) → has_prefix t u ≡ true → has_prefix s t ≡ true → has_prefix s u ≡ true
unfolding has_prefix
has_prefix_trans s t [] h k = refl
has_prefix_trans s [] (d ∷ u) h k = cc
has_prefix_trans [] (c ∷ t) (d ∷ u) h k = cc
has_prefix_trans (b ∷ s) (c ∷ t) (d ∷ u) h k = ground (arith, has_prefix_trans s t u)

pub matches_at-append :
    (s tail rest : Bytes) → matches_at s tail ≡ true → matches_at s (tail ++ rest) ≡ true
matches_at-append s tail rest h =
    ground
      (arith, matches_at_lem s tail, matches_at_lem s (tail ++ rest), has_prefix-append tail rest s)

pub matches_at-append_self : (s rest : Bytes) → matches_at s (s ++ rest) ≡ true
matches_at-append_self s rest =
    ground (arith, matches_at_lem s (s ++ rest), has_prefix-append s rest s (has_prefix_refl s))

pub matches_at_self : (s : Bytes) → matches_at s s ≡ true
matches_at_self s = ground (arith, matches_at_lem s s, has_prefix_refl s)

pub matches_at_of_longer : (s bytes : Bytes) → length bytes < length s → matches_at s bytes ≡ false
unfolding matches_at
matches_at_of_longer s bytes h = ground arith

-- An entry that matches only with the bytes that follow is longer than `tail` and begins with it.
matches_at-append_cases :
    (s tail rest : Bytes)
    → matches_at s tail ≡ false
    → matches_at s (tail ++ rest) ≡ true
    → (length tail < length s) × (has_prefix s tail ≡ true)
matches_at-append_cases s tail rest h k = ground (
  arith,
  matches_at_lem s tail,
  matches_at_lem s (tail ++ rest),
  has_prefix-append_cases tail rest s,
)

pub matches_at-length : (s bytes : Bytes) → matches_at s bytes ≡ true → length s ≤ length bytes
unfolding matches_at
matches_at-length s bytes h = ground arith

pub first_match-some :
    (ss : List Bytes) (tail s : Bytes)
    → first_match ss tail ≡ some s
    → Memᴰ s ss × (matches_at s tail ≡ true)
unfolding first_match
first_match-some [] tail s h = cc
first_match-some (x ∷ ss) tail s h = elim (Bool-cases (matches_at x tail)) [
  | inl m ↦ let e : x ≡ s = ground arith in (Memᴰ.head (sym e), rw (← e) m)
  | inr m ↦
      let (listed, found) = first_match-some ss tail s (ground arith) in (Memᴰ.tail listed, found)
]

-- Where no entry is a prefix of another, the entry that matches is the same whatever follows.
pub first_match-append_some :
    (ss : List Bytes) (tail rest s : Bytes)
    → PrefixFree ss
    → first_match ss tail ≡ some s
    → first_match ss (tail ++ rest) ≡ some s
unfolding first_match
first_match-append_some [] tail rest s free h = cc
first_match-append_some (x ∷ ss) tail rest s free h = elim (Bool-cases (matches_at x tail)) [
  | inl m ↦ ground (arith, matches_at-append x tail rest m)
  | inr m ↦
      let h' : first_match ss tail ≡ some s = ground arith in
      let later =
        first_match-append_some ss tail rest s (λ a b p q. free a b (Memᴰ.tail p) (Memᴰ.tail q))
          h' in
      elim (Bool-cases (matches_at x (tail ++ rest))) [
        | inl k ↦
            let (listed, found) = first_match-some ss tail s h' in
            let (longer, begins) = matches_at-append_cases x tail rest m k in
            let e =
              free s x (Memᴰ.tail listed) (Memᴰ.head refl)
                (has_prefix_trans x tail s (ground (arith, matches_at_lem s tail)) begins) in
            ground (arith, ap (λ y. matches_at y tail) e)
        | inr k ↦ ground arith
      ]
]

-- Where none matches and none is cut off by the end of `tail`, none matches whatever follows.
pub first_match-append_none :
    (ss : List Bytes) (tail rest : Bytes)
    → first_match ss tail ≡ none
    → potential_among ss tail ≡ false
    → first_match ss (tail ++ rest) ≡ none
unfolding first_match potential_among
first_match-append_none [] tail rest h k = refl
first_match-append_none (x ∷ ss) tail rest h k =
    ground (arith, first_match-append_none ss tail rest, matches_at-append_cases x tail rest)
