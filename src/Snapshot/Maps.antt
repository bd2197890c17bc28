-- ===== src/Snapshot/Maps.antt =====
-- Maps as lists of entries in the order of their keys.
use roksbnkctl.Prelude.{
  ◌≡◌, refl, sym, ◌⊎◌, subst, arith, Bool, true, false, ◌&&◌, List, [], ◌∷◌, ◌++◌, Text, ◌==◌,
  ==_sound, Bool-cases, inl, inr, All,
}
use roksbnkctl.Snapshot.{precedes, put}

precedes_asym : (s t : Text) → precedes s t ≡ true → precedes t s ≡ false
unfolding precedes
precedes_asym [] [] h = refl
precedes_asym [] (d ∷ t) h = refl
precedes_asym (c ∷ s) [] h = ground arith
precedes_asym (c ∷ s) (d ∷ t) h = ground (arith, precedes_asym s t)

precedes_ne : (s t : Text) → precedes s t ≡ true → (t == s) ≡ false
unfolding precedes ◌==◌
precedes_ne [] [] h = ground arith
precedes_ne [] (d ∷ t) h = refl
precedes_ne (c ∷ s) [] h = ground arith
precedes_ne (c ∷ s) (d ∷ t) h = ground (arith, precedes_ne s t)

precedes_trans : (s t u : Text) → precedes s t ≡ true → precedes t u ≡ true → precedes s u ≡ true
unfolding precedes
precedes_trans [] [] u h k = ground arith
precedes_trans [] (d ∷ t) [] h k = ground arith
precedes_trans [] (d ∷ t) (e ∷ u) h k = refl
precedes_trans (c ∷ s) [] u h k = ground arith
precedes_trans (c ∷ s) (d ∷ t) [] h k = ground arith
precedes_trans (c ∷ s) (d ∷ t) (e ∷ u) h k = ground (arith, precedes_trans s t u)

precedes_total : (s t : Text) → (s == t) ≡ false → precedes s t ≡ false → precedes t s ≡ true
unfolding precedes ◌==◌
precedes_total [] [] h k = ground arith
precedes_total [] (d ∷ t) h k = ground arith
precedes_total (c ∷ s) [] h k = refl
precedes_total (c ∷ s) (d ∷ t) h k = ground (arith, precedes_total s t)

-- Every key comes behind the given one.
abbrev pub follow : Text → List (Text × Text) → Bool
follow key [] = true
follow key ((k, v) ∷ m) = precedes key k && follow key m

-- Every key comes before the given one.
abbrev pub lead : Text → List (Text × Text) → Bool
lead key [] = true
lead key ((k, v) ∷ m) = precedes k key && lead key m

abbrev pub is_ascending : List (Text × Text) → Bool
is_ascending [] = true
is_ascending ((k, v) ∷ m) = follow k m && is_ascending m

pub put-lead :
    (key value : Text) (m : List (Text × Text))
    → lead key m ≡ true
    → put key value m ≡ m ++ ((key, value) ∷ [])
unfolding put
put-lead key value [] h = refl
put-lead key value ((k, v) ∷ m) h =
    ground (arith, put-lead key value m, precedes_asym k key, precedes_ne k key)

follow_trans :
    (key k : Text) (m : List (Text × Text))
    → precedes key k ≡ true
    → follow k m ≡ true
    → follow key m ≡ true
follow_trans key k [] h g = refl
follow_trans key k ((l, v) ∷ m) h g = ground (arith, follow_trans key k m, precedes_trans key k l)

follow-put :
    (k key value : Text) (m : List (Text × Text))
    → precedes k key ≡ true
    → follow k m ≡ true
    → follow k (put key value m) ≡ true
unfolding put
follow-put k key value [] h g = ground arith
follow-put k key value ((l, v) ∷ m) h g = ground (arith, follow-put k key value m)

pub put-is_ascending :
    (key value : Text) (m : List (Text × Text))
    → is_ascending m ≡ true
    → is_ascending (put key value m) ≡ true
unfolding put
put-is_ascending key value [] h = refl
put-is_ascending key value ((k, v) ∷ m) h = elim (Bool-cases (key == k)) [
  | inl e ↦ let same = ==_sound key k e in ground (arith, same)
  | inr e ↦ elim (Bool-cases (precedes key k)) [
    | inl f ↦ ground (arith, follow_trans key k m f)
    | inr f ↦
        let behind = precedes_total key k e f in
        ground (arith, put-is_ascending key value m, follow-put k key value m behind)
  ]
]

-- Where the new entry stands.
put-cases :
    (key value k v : Text) (m : List (Text × Text))
    → (put key value ((k, v) ∷ m) ≡ (key, value) ∷ m)
      ⊎ ((put key value ((k, v) ∷ m) ≡ (key, value) ∷ (k, v) ∷ m)
          ⊎ (put key value ((k, v) ∷ m) ≡ (k, v) ∷ put key value m))
unfolding put
put-cases key value k v m = elim (Bool-cases (key == k)) [
  | inl e ↦ inl (ground arith)
  | inr e ↦ elim (Bool-cases (precedes key k)) [
    | inl f ↦ inr (inl (ground arith))
    | inr f ↦ inr (inr (ground arith))
  ]
]

pub put-All {ℓ} :
    (P : Text × Text → Type ℓ) (key value : Text) (m : List (Text × Text))
    → P (key, value)
    → All P m
    → All P (put key value m)
unfolding put
put-All P key value [] p h = (p, tt)
put-All P key value ((k, v) ∷ m) p h = elim (put-cases key value k v m) [
  | inl e ↦ subst (λ l. All P l) (sym e) (p, h.1)
  | inr (inl e) ↦ subst (λ l. All P l) (sym e) (p, h)
  | inr (inr e) ↦ subst (λ l. All P l) (sym e) (h.0, put-All P key value m p h.1)
]

pub lead-append :
    (key k v : Text) (m : List (Text × Text))
    → lead key m ≡ true
    → precedes k key ≡ true
    → lead key (m ++ ((k, v) ∷ [])) ≡ true
lead-append key k v [] h g = ground arith
lead-append key k v ((l, w) ∷ m) h g = ground (arith, lead-append key k v m)
