-- ===== src/Prefixes/Conflicts.antt =====
-- Which conflicts `FindPrefixConflicts` returns.
use roksbnkctl.Prelude.{
  some_injective, ℕ, ◌≡◌, ◌↔◌, ◌⊎◌, inl, inr, refl, sym, ap, subst, ◌∙◌, arith, true, false, Option,
  none, some, List, [], ◌∷◌, ◌++◌, Text, Memᴰ-cases, Bool-cases, Option-cases,
}
use mathlib.Core.List.{Memᴰ}
use mathlib.Core.List.Memᴰ.{append_cases, append_left, append_right}
use roksbnkctl.Prefixes.{
  cidrs_overlap, PrefixConflict, conflicts_with, both, conflicts_on, find_prefix_conflicts,
}

-- A pair of overlapping prefixes: one that is intended, one of a VPC.
abbrev Reported : (Text → Option ℕ) → Text → Text → List Text → PrefixConflict → Type 0
Reported parse_ipv6 want vpc_name have c =
    (c.intended ≡ want)
    × (c.vpc_name ≡ vpc_name)
    × Memᴰ c.existing have
    × (cidrs_overlap parse_ipv6 want c.existing ≡ some true)

both-some :
    (o p : Option (List PrefixConflict)) (cs : List PrefixConflict)
    → both o p ≡ some cs
    → (xs ys : List PrefixConflict) × (o ≡ some xs) × (p ≡ some ys) × (xs ++ ys ≡ cs)
both-some (some xs) (some ys) cs h = (xs, ys, refl, refl, some_injective h)
both-some none p cs h = ground arith
both-some (some xs) none cs h = ground arith

conflicts_with-cons :
    (parse_ipv6 : Text → Option ℕ) (want vpc_name got : Text) (have : List Text)
    (cs : List PrefixConflict)
    → conflicts_with parse_ipv6 want vpc_name (got ∷ have) ≡ some cs
    → (found : List PrefixConflict) × (conflicts_with parse_ipv6 want vpc_name have ≡ some found)
      × (((cidrs_overlap parse_ipv6 want got ≡ some false) × (cs ≡ found))
          ⊎ ((cidrs_overlap parse_ipv6 want got ≡ some true)
              × (cs ≡ record { intended = want; existing = got; vpc_name = vpc_name } ∷ found)))
unfolding conflicts_with
conflicts_with-cons parse_ipv6 want vpc_name got have cs h =
    elim (Option-cases (cidrs_overlap parse_ipv6 want got)) [
      | inl e ↦ ground arith
      | inr (b, e) ↦ elim (Option-cases (conflicts_with parse_ipv6 want vpc_name have)) [
        | inl f ↦ ground arith
        | inr (found, f) ↦ elim (Bool-cases b) [
          | inl k ↦ (found, f, inr (ground arith))
          | inr k ↦ (found, f, inl (ground arith))
        ]
      ]
    ]

module _ (parse_ipv6 : Text → Option ℕ) where
  conflicts_with-nil :
      (want vpc_name : Text) (cs : List PrefixConflict)
      → conflicts_with parse_ipv6 want vpc_name [] ≡ some cs
      → [] ≡ cs
  unfolding conflicts_with
  conflicts_with-nil want vpc_name cs h = some_injective h

  conflicts_with_sound :
      (want vpc_name : Text) (have : List Text) (cs : List PrefixConflict) (c : PrefixConflict)
      → conflicts_with parse_ipv6 want vpc_name have ≡ some cs
      → Memᴰ c cs
      → Reported parse_ipv6 want vpc_name have c
  conflicts_with_sound want vpc_name [] cs c h m =
      elim (subst (λ l. Memᴰ c l) (sym (conflicts_with-nil want vpc_name cs h)) m) [ ]
  conflicts_with_sound want vpc_name (got ∷ have) cs c h m =
      let (found, f, step) = conflicts_with-cons parse_ipv6 want vpc_name got have cs h in
      let later : Memᴰ c found → Reported parse_ipv6 want vpc_name (got ∷ have) c = λ k.
        let (a, b, d, e) = conflicts_with_sound want vpc_name have found c f k in
        (a, b, Memᴰ.tail d, e) in
      elim step [
        | inl (_, e) ↦ later (subst (λ l. Memᴰ c l) e m)
        | inr (o, e) ↦ elim (Memᴰ-cases (subst (λ l. Memᴰ c l) e m)) [
          | inl same ↦
              let existing = ap (λ (x : PrefixConflict). x.existing) same in
              (
                ap (λ (x : PrefixConflict). x.intended) same,
                ap (λ (x : PrefixConflict). x.vpc_name) same,
                Memᴰ.head existing,
                ap (λ t. cidrs_overlap parse_ipv6 want t) existing ∙ o,
              )
          | inr k ↦ later k
        ]
      ]

  conflicts_with_complete :
      (have : List Text) (cs : List PrefixConflict) (c : PrefixConflict)
      → conflicts_with parse_ipv6 c.intended c.vpc_name have ≡ some cs
      → Memᴰ c.existing have
      → cidrs_overlap parse_ipv6 c.intended c.existing ≡ some true
      → Memᴰ c cs
  conflicts_with_complete [] cs c h m o = elim m [ ]
  conflicts_with_complete (got ∷ have) cs c h m o =
      let (found, f, step) = conflicts_with-cons parse_ipv6 c.intended c.vpc_name got have cs h in
      let later : Memᴰ c.existing have → Memᴰ c found =
        λ k. conflicts_with_complete have found c f k o in
      elim (Memᴰ-cases m) [
        | inl same ↦ elim step [
          | inl (apart, _) ↦
              let yes = ap (λ t. cidrs_overlap parse_ipv6 c.intended t) (sym same) ∙ o in
              ground (arith, apart, yes)
          | inr (_, e) ↦
              subst (λ l. Memᴰ c l) (sym e)
                (Memᴰ.head (
                  ap (λ t. record { intended = c.intended; existing = t; vpc_name = c.vpc_name })
                    same))
        ]
        | inr k ↦ elim step [
          | inl (_, e) ↦ subst (λ l. Memᴰ c l) (sym e) (later k)
          | inr (_, e) ↦ subst (λ l. Memᴰ c l) (sym e) (Memᴰ.tail (later k))
        ]
      ]

  -- A reported pair whose other side is some VPC of the list.
  abbrev ReportedOn : Text → List (Text × List Text) → PrefixConflict → Type 0
  ReportedOn want attached c =
      (c.intended ≡ want)
      × (have : List Text) × Memᴰ (c.vpc_name, have) attached
      × Memᴰ c.existing have
      × (cidrs_overlap parse_ipv6 want c.existing ≡ some true)

  conflicts_on_sound :
      (want : Text) (attached : List (Text × List Text)) (cs : List PrefixConflict)
      (c : PrefixConflict)
      → conflicts_on parse_ipv6 want attached ≡ some cs
      → Memᴰ c cs
      → ReportedOn want attached c
  unfolding conflicts_on
  conflicts_on_sound want [] cs c h m = elim (subst (λ l. Memᴰ c l) (sym (some_injective h)) m) [ ]
  conflicts_on_sound want ((vpc_name, have) ∷ attached) cs c h m =
      let (xs, ys, hx, hy, e) = both-some _ _ cs h in
      elim (append_cases xs (subst (λ l. Memᴰ c l) (sym e) m)) [
        | inl k ↦
            let (a, b, d, o) = conflicts_with_sound want vpc_name have xs c hx k in
            (a, have, Memᴰ.head (ap (λ v. (v, have)) b), d, o)
        | inr k ↦
            let (a, l, b, d, o) = conflicts_on_sound want attached ys c hy k in
            (a, l, Memᴰ.tail b, d, o)
      ]

  conflicts_on_complete :
      (attached : List (Text × List Text)) (cs : List PrefixConflict) (c : PrefixConflict)
      → conflicts_on parse_ipv6 c.intended attached ≡ some cs
      → ReportedOn c.intended attached c
      → Memᴰ c cs
  unfolding conflicts_on
  conflicts_on_complete [] cs c h (_, _, m, _, _) = elim m [ ]
  conflicts_on_complete ((vpc_name, have) ∷ attached) cs c h (_, l, m, d, o) =
      let (xs, ys, hx, hy, e) = both-some _ _ cs h in
      subst (λ l. Memᴰ c l) e
        (elim (Memᴰ-cases m) [
          | inl same ↦
              let hx2 =
                subst
                  (λ (p : Text × List Text). conflicts_with parse_ipv6 c.intended p.0 p.1 ≡ some xs)
                  (sym same) hx in
              append_left ys (conflicts_with_complete l xs c hx2 d o)
          | inr k ↦ append_right xs (conflicts_on_complete attached ys c hy (refl, l, k, d, o))
        ])

  find_sound :
      (intended : List Text) (attached : List (Text × List Text)) (cs : List PrefixConflict)
      (c : PrefixConflict)
      → find_prefix_conflicts parse_ipv6 intended attached ≡ some cs
      → Memᴰ c cs
      → Memᴰ c.intended intended × ReportedOn c.intended attached c
  unfolding find_prefix_conflicts
  find_sound [] attached cs c h m = elim (subst (λ l. Memᴰ c l) (sym (some_injective h)) m) [ ]
  find_sound (want ∷ intended) attached cs c h m =
      let (xs, ys, hx, hy, e) = both-some _ _ cs h in
      elim (append_cases xs (subst (λ l. Memᴰ c l) (sym e) m)) [
        | inl k ↦
            let on = conflicts_on_sound want attached xs c hx k in
            (Memᴰ.head on.0, subst (λ w. ReportedOn w attached c) (sym on.0) on)
        | inr k ↦ let (a, on) = find_sound intended attached ys c hy k in (Memᴰ.tail a, on)
      ]

  find_complete :
      (intended : List Text) (attached : List (Text × List Text)) (cs : List PrefixConflict)
      (c : PrefixConflict)
      → find_prefix_conflicts parse_ipv6 intended attached ≡ some cs
      → Memᴰ c.intended intended
      → ReportedOn c.intended attached c
      → Memᴰ c cs
  unfolding find_prefix_conflicts
  find_complete [] attached cs c h m on = elim m [ ]
  find_complete (want ∷ intended) attached cs c h m on =
      let (xs, ys, hx, hy, e) = both-some _ _ cs h in
      subst (λ l. Memᴰ c l) e
        (elim (Memᴰ-cases m) [
          | inl same ↦
              let hx2 = subst (λ w. conflicts_on parse_ipv6 w attached ≡ some xs) (sym same) hx in
              append_left ys (conflicts_on_complete attached xs c hx2 on)
          | inr k ↦ append_right xs (find_complete intended attached ys c hy k on)
        ])

-- Where every prefix can be read, the conflicts that are returned are exactly these: an intended prefix and a
-- prefix of an attached VPC, under the VPC's name, that overlap.
pub find_prefix_conflicts-Memᴰ :
    (parse_ipv6 : Text → Option ℕ) (intended : List Text) (attached : List (Text × List Text))
    (cs : List PrefixConflict) (c : PrefixConflict)
    → find_prefix_conflicts parse_ipv6 intended attached ≡ some cs
    → (Memᴰ c cs) ↔ (
        Memᴰ c.intended intended
        × (have : List Text) × Memᴰ (c.vpc_name, have) attached
        × Memᴰ c.existing have
        × (cidrs_overlap parse_ipv6 c.intended c.existing ≡ some true))
find_prefix_conflicts-Memᴰ parse_ipv6 intended attached cs c h = (
  λ m.
      let (a, on) = find_sound parse_ipv6 intended attached cs c h m in
      let (_, have, b, d, o) = on in (a, have, b, d, o),
  λ (a, have, b, d, o). find_complete parse_ipv6 intended attached cs c h a (refl, have, b, d, o),
)
