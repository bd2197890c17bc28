-- ===== src/Prelude/Strings.antt =====
-- Go's `string` as the list of its characters' code points, with what the program uses of package
-- `strings`: equality, `TrimSpace`, `HasPrefix`, `Contains`, `ToLower` and `EqualFold`. Case mapping
-- is that of the ASCII letters; every other character is mapped to itself.
use Prim.Native.Nat.{ℕ, ◌+◌}
use Prim.Native.Char.{code}
use Prim.Native.String.{String}
use mathlib.Core.Path.{◌≡◌, refl, ap, ◌∙◌}
use mathlib.Core.Logic.{◌↔◌, ◌⊎◌, inl, inr}
use mathlib.Core.Bool.{Bool, true, false, not, ◌&&◌, ◌||◌}
use mathlib.Core.List.{List, [], ◌∷◌, ◌++◌}
use native.Mathlib.Omega.{arith}
use roksbnkctl.Prelude.Tests.{Bool-cases, leb, eqb, if◌then◌else◌}
use roksbnkctl.Prelude.Lists.{is_nil, all}

abbrev pub Text : Type 0
Text = List ℕ

-- A literal of the source.
unfoldable pub lit : String → Text
lit String.[] = []
lit (String.◌∷◌ c s) = code c ∷ lit s

abbrev pub empty : Text
empty = []

infix 50 ◌==◌
unfoldable pub ◌==◌ : Text → Text → Bool
[] == [] = true
[] == (d ∷ t) = false
(c ∷ s) == [] = false
(c ∷ s) == (d ∷ t) = eqb c d && s == t

pub ==_refl : (s : Text) → (s == s) ≡ true
unfolding ◌==◌
==_refl [] = refl
==_refl (c ∷ s) = ground (arith, ==_refl s)

pub ==_sound : (s t : Text) → (s == t) ≡ true → s ≡ t
unfolding ◌==◌
==_sound [] [] h = refl
==_sound [] (d ∷ t) h = cc
==_sound (c ∷ s) [] h = cc
==_sound (c ∷ s) (d ∷ t) h = ground (arith, ==_sound s t)

pub ==_iff : (s t : Text) → ((s == t) ≡ true) ↔ (s ≡ t)
==_iff s t = (==_sound s t, λ e. ground (arith, ==_refl t))

-- `unicode.IsSpace`.
abbrev pub is_space : ℕ → Bool
is_space c =
    (leb 9 c && leb c 13)
    || eqb c 32
    || eqb c 0x85
    || eqb c 0xa0
    || eqb c 0x1680
    || (leb 0x2000 c && leb c 0x200a)
    || eqb c 0x2028
    || eqb c 0x2029
    || eqb c 0x202f
    || eqb c 0x205f
    || eqb c 0x3000

trim_left : Text → Text
trim_left [] = []
trim_left (c ∷ s) = let rest = trim_left s in if is_space c then rest else c ∷ s

trim_right : Text → Text
trim_right [] = []
trim_right (c ∷ s) = let rest = trim_right s in if is_nil rest && is_space c then [] else c ∷ rest

-- `strings.TrimSpace`.
unfoldable pub trim_space : Text → Text
unfolding trim_left trim_right
trim_space s = trim_right (trim_left s)

-- `strings.HasPrefix(s, prefix)`.
unfoldable pub has_prefix : Text → Text → Bool
has_prefix s [] = true
has_prefix [] (d ∷ t) = false
has_prefix (c ∷ s) (d ∷ t) = eqb c d && has_prefix s t

-- `strings.Contains(s, substr)`.
unfoldable pub contains : Text → Text → Bool
contains [] t = has_prefix [] t
contains (c ∷ s) t = has_prefix (c ∷ s) t || contains s t

abbrev lower : ℕ → ℕ
lower c = if leb b'A' c && leb c b'Z' then c + 32 else c

-- `strings.ToLower`.
unfoldable pub to_lower : Text → Text
to_lower [] = []
to_lower (c ∷ s) = lower c ∷ to_lower s

-- `strings.EqualFold`.
unfoldable pub equal_fold : Text → Text → Bool
equal_fold [] [] = true
equal_fold [] (d ∷ t) = false
equal_fold (c ∷ s) [] = false
equal_fold (c ∷ s) (d ∷ t) = eqb (lower c) (lower d) && equal_fold s t

pub equal_fold_lem : (s t : Text) → equal_fold s t ≡ (to_lower s == to_lower t)
unfolding equal_fold to_lower ◌==◌
equal_fold_lem [] [] = refl
equal_fold_lem [] (d ∷ t) = refl
equal_fold_lem (c ∷ s) [] = refl
equal_fold_lem (c ∷ s) (d ∷ t) = ap (λ b. eqb (lower c) (lower d) && b) (equal_fold_lem s t)

-- A text of visible ASCII characters has nothing to trim.
abbrev pub is_visible : Text → Bool
is_visible [] = true
is_visible (c ∷ s) = (leb 33 c && leb c 126) && is_visible s

trim_left-is_visible : (s : Text) → is_visible s ≡ true → trim_left s ≡ s
unfolding trim_left
trim_left-is_visible [] h = refl
trim_left-is_visible (c ∷ s) h = ground arith

trim_right-is_visible : (s : Text) → is_visible s ≡ true → trim_right s ≡ s
unfolding trim_right
trim_right-is_visible [] h = refl
trim_right-is_visible (c ∷ s) h =
    let rest : trim_right s ≡ s = trim_right-is_visible s (ground arith) in ground arith

pub trim_space-is_visible : (s : Text) → is_visible s ≡ true → trim_space s ≡ s
unfolding trim_space
trim_space-is_visible s h = ap trim_right (trim_left-is_visible s h) ∙ trim_right-is_visible s h

-- A text whose last character is no space.
unfoldable pub ends_visibly : Text → Bool
ends_visibly [] = false
ends_visibly (c ∷ []) = not (is_space c)
ends_visibly (c ∷ d ∷ s) = ends_visibly (d ∷ s)

trim_left-starts : (c : ℕ) (s : Text) → is_space c ≡ false → trim_left (c ∷ s) ≡ c ∷ s
unfolding trim_left
trim_left-starts c s h = ground arith

trim_right-ends_visibly : (s : Text) → ends_visibly s ≡ true → trim_right s ≡ s
unfolding trim_right ends_visibly
trim_right-ends_visibly [] h = refl
trim_right-ends_visibly (c ∷ []) h = ground arith
trim_right-ends_visibly (c ∷ d ∷ s) h =
    let rest : trim_right (d ∷ s) ≡ d ∷ s = trim_right-ends_visibly (d ∷ s) h in
    ap (λ r. if is_nil r && is_space c then [] else c ∷ r) rest

-- A text between visible characters has nothing to trim.
pub trim_space-ends_visibly :
    (c : ℕ) (s : Text)
    → is_space c ≡ false
    → ends_visibly (c ∷ s) ≡ true
    → trim_space (c ∷ s) ≡ c ∷ s
unfolding trim_space
trim_space-ends_visibly c s h k =
    ap trim_right (trim_left-starts c s h) ∙ trim_right-ends_visibly (c ∷ s) k

ends_visibly-trim_right : (s : Text) → (trim_right s ≡ []) ⊎ (ends_visibly (trim_right s) ≡ true)
unfolding trim_right ends_visibly
ends_visibly-trim_right [] = inl refl
ends_visibly-trim_right (c ∷ s) = elim (ends_visibly-trim_right s) [
  | inl e ↦ elim (Bool-cases (is_space c)) [
    | inl k ↦ inl (ground arith)
    | inr k ↦ inr (ground arith)
  ]
  | inr e ↦ inr (ends_visibly-trim_cons c (trim_right s) e)
]
  where
    ends_visibly-trim_cons :
        (c : ℕ) (r : Text)
        → ends_visibly r ≡ true
        → ends_visibly (if is_nil r && is_space c then [] else c ∷ r) ≡ true
    ends_visibly-trim_cons c [] h = ground arith
    ends_visibly-trim_cons c (d ∷ r) h = h

pub ends_visibly-trim_space :
    (s : Text) → (trim_space s ≡ []) ⊎ (ends_visibly (trim_space s) ≡ true)
unfolding trim_space
ends_visibly-trim_space s = ends_visibly-trim_right (trim_left s)

pub ends_visibly-append : (s t : Text) → ends_visibly t ≡ true → ends_visibly (s ++ t) ≡ true
unfolding ends_visibly
ends_visibly-append [] t h = h
ends_visibly-append (c ∷ []) [] h = ground arith
ends_visibly-append (c ∷ []) (d ∷ t) h = h
ends_visibly-append (c ∷ d ∷ s) t h = ends_visibly-append (d ∷ s) t h

pub ends_visibly-suffix :
    (s : Text) (c : ℕ) (t : Text) → ends_visibly (s ++ (c ∷ t)) ≡ true → ends_visibly (c ∷ t) ≡ true
unfolding ends_visibly
ends_visibly-suffix [] c t h = h
ends_visibly-suffix (d ∷ []) c t h = h
ends_visibly-suffix (d ∷ e ∷ s) c t h = ends_visibly-suffix (e ∷ s) c t h

module _ (p : ℕ → Bool) where
  all-trim_left : (s : Text) → all p s ≡ true → all p (trim_left s) ≡ true
  unfolding trim_left
  all-trim_left [] h = refl
  all-trim_left (c ∷ s) h = ground (arith, all-trim_left s)

  all-trim_right : (s : Text) → all p s ≡ true → all p (trim_right s) ≡ true
  unfolding trim_right
  all-trim_right [] h = refl
  all-trim_right (c ∷ s) h = ground (arith, all-trim_right s)

  pub all-trim_space : (s : Text) → all p s ≡ true → all p (trim_space s) ≡ true
  unfolding trim_space
  all-trim_space s h = all-trim_right (trim_left s) (all-trim_left s h)
