-- ===== src/Drain/Swept.antt =====
-- What a sweep over the namespaces asks to delete.
use mathlib.Core.List.{Memᴰ}
use mathlib.Core.List.Memᴰ.{append_cases}
use roksbnkctl.Prelude.{
  ℕ, ◌≡◌, ◌⊎◌, inl, inr, refl, sym, ap, subst, ◌∙◌, arith, true, false, ◌||◌, Option, none, some,
  List, [], ◌∷◌, if◌then◌else◌, any, map, All, All-append, is_nil, Text, empty, ◌==◌,
  some_injective, Bool-cases, Option-cases, Memᴰ-cases,
}
use roksbnkctl.Orphans.{dedupe_non_empty, dedupe_from}
use roksbnkctl.Drain.{Phase, Gvr, Cluster, Event, requested, passed, recounted}
use roksbnkctl.Drain.Phases.{drain_bnk_custom_resources, Drained}
use roksbnkctl.Drain.Turns.{
  IsLeafEvent, IsRootEvent, IsOrdered, All-map, drain_bnk_custom_resources-IsOrdered,
}
use roksbnkctl.Drain.Selection.{
  drain_groups_for_line, ApiResource, ApiResourceList, is_deletable, deletable_of, comes_before,
  insert_kind, sort_kinds, selected_of, selected, select_bnk_resources, drain_namespaces,
  sweep_bnk_custom_resources,
}

-- A kind that discovery has returned as listable and deletable, in one of the groups.
abbrev pub IsSelected :
    (Text → Option (Text × Text)) → List Text → List (Option ApiResourceList) → Gvr → Type 0
IsSelected parse groups lists g =
    (rl : ApiResourceList) × (r : ApiResource) × Memᴰ (some rl) lists
    × Memᴰ r rl.resources
    × (parse rl.group_version ≡ some (g.group, g.version))
    × (r.kind ≡ g.resource)
    × (is_deletable r ≡ true)
    × (any (λ k. k == g.group) groups ≡ true)

deletable_of_sound :
    (group version : Text) (rs : List ApiResource) (g : Gvr)
    → Memᴰ g (deletable_of group version rs)
    → (r : ApiResource) × Memᴰ r rs
      × (group ≡ g.group)
      × (version ≡ g.version)
      × (r.kind ≡ g.resource)
      × (is_deletable r ≡ true)
unfolding deletable_of
deletable_of_sound group version [] g m = elim m [ ]
deletable_of_sound group version (r ∷ rs) g m = elim (Bool-cases (is_deletable r)) [
  | inl e ↦ elim (Memᴰ-cases (rw e at m)) [
    | inl same ↦ (
      r,
      Memᴰ.head refl,
      ap (λ (x : Gvr). x.group) (sym same),
      ap (λ (x : Gvr). x.version) (sym same),
      ap (λ (x : Gvr). x.resource) (sym same),
      e,
    )
    | inr k ↦
        let (q, a, b, c, d, f) = deletable_of_sound group version rs g k in
        (q, Memᴰ.tail a, b, c, d, f)
  ]
  | inr e ↦
      let (q, a, b, c, d, f) = deletable_of_sound group version rs g (rw e at m) in
      (q, Memᴰ.tail a, b, c, d, f)
]

insert_kind-Memᴰ : (g x : Gvr) (gs : List Gvr) → Memᴰ x (insert_kind g gs) → (x ≡ g) ⊎ Memᴰ x gs
unfolding insert_kind
insert_kind-Memᴰ g x [] m = Memᴰ-cases m
insert_kind-Memᴰ g x (h ∷ hs) m = elim (Bool-cases (comes_before h g)) [
  | inl e ↦ elim (Memᴰ-cases (rw e at m)) [
    | inl same ↦ inr (Memᴰ.head same)
    | inr k ↦ elim (insert_kind-Memᴰ g x hs k) [ inl same ↦ inl same | inr l ↦ inr (Memᴰ.tail l) ]
  ]
  | inr e ↦ Memᴰ-cases (rw e at m)
]

sort_kinds-Memᴰ : (x : Gvr) (gs : List Gvr) → Memᴰ x (sort_kinds gs) → Memᴰ x gs
unfolding sort_kinds
sort_kinds-Memᴰ x [] m = m
sort_kinds-Memᴰ x (g ∷ gs) m = elim (insert_kind-Memᴰ g x (sort_kinds gs) m) [
  | inl same ↦ Memᴰ.head same
  | inr k ↦ Memᴰ.tail (sort_kinds-Memᴰ x gs k)
]

module _ (parse : Text → Option (Text × Text)) (groups : List Text) where
  selected_of-parts :
      (rl : ApiResourceList) (g : Gvr)
      → Memᴰ g (selected_of parse groups rl)
      → (group version : Text) × (parse rl.group_version ≡ some (group, version))
        × (any (λ k. k == group) groups ≡ true)
        × Memᴰ g (deletable_of group version rl.resources)
  selected_of-parts rl g m = by_parse (parse rl.group_version) refl m
    where
      by_parse :
          (o : Option (Text × Text))
          → parse rl.group_version ≡ o
          → Memᴰ g (elim o [
            | none ↦ []
            | some (group, version) ↦
                if any (λ k. k == group) groups then deletable_of group version rl.resources else []
          ])
          → (group version : Text) × (parse rl.group_version ≡ some (group, version))
            × (any (λ k. k == group) groups ≡ true)
            × Memᴰ g (deletable_of group version rl.resources)
      by_parse none e k = elim k [ ]
      by_parse (some (group, version)) e k = elim (Bool-cases (any (λ k. k == group) groups)) [
        | inl f ↦ (group, version, e, f, rw f at k)
        | inr f ↦
            elim (subst (λ b. Memᴰ g (if b then deletable_of group version rl.resources else [])) f
              k) [ ]
      ]

  selected-IsSelected :
      (lists : List (Option ApiResourceList)) (g : Gvr)
      → Memᴰ g (selected parse groups lists)
      → IsSelected parse groups lists g
  unfolding selected
  selected-IsSelected [] g m = elim m [ ]
  selected-IsSelected (none ∷ lists) g m =
      let (rl, r, a, b, c, d, e, f) = selected-IsSelected lists g m in
      (rl, r, Memᴰ.tail a, b, c, d, e, f)
  selected-IsSelected (some rl ∷ lists) g m = elim (append_cases (selected_of parse groups rl) m) [
    | inl k ↦
        let (group, version, parsed, allowed, l) = selected_of-parts rl g k in
        let (r, a, b, c, d, e) = deletable_of_sound group version rl.resources g l in
        (
          rl,
          r,
          Memᴰ.head refl,
          a,
          parsed ∙ ap (λ x. some (x, version)) b ∙ ap (λ y. some (g.group, y)) c,
          d,
          e,
          subst (λ x. any (λ k. k == x) groups ≡ true) b allowed,
        )
    | inr k ↦
        let (rl2, r, a, b, c, d, e, f) = selected-IsSelected lists g k in
        (rl2, r, Memᴰ.tail a, b, c, d, e, f)
  ]

select_bnk_resources-IsSelected :
    (parse : Text → Option (Text × Text)) (lists : List (Option ApiResourceList)) (line : Text)
    (g : Gvr)
    → Memᴰ g (select_bnk_resources parse lists line)
    → IsSelected parse (drain_groups_for_line line) lists g
unfolding select_bnk_resources
select_bnk_resources-IsSelected parse lists line g m =
    selected-IsSelected parse (drain_groups_for_line line) lists g
      (sort_kinds-Memᴰ g (selected parse (drain_groups_for_line line) lists) m)

-- A DELETE is of a kind with the property.
abbrev pub IsOf : (Gvr → Type 0) → Event → Type 0
IsOf P (requested g name) = P g
IsOf P (passed p u) = Unit
IsOf P (recounted p u) = Unit

-- A log in order, all of whose requests have the property.
abbrev pub IsKept : List Gvr → (Gvr → Type 0) → List Event → Type 0
IsKept kinds P log = IsOrdered kinds log × All (IsOf P) log

-- One drain after the other: each log is that of a drain of its namespace, from the state that the one before has left.
abbrev pub AreDrained :
    {S : Type 0}
    → (Text → Cluster S)
    → ℕ
    → List Gvr
    → ℕ
    → ℕ
    → S
    → List (Text × List Event)
    → S
    → Type 0
AreDrained cluster fuel kinds timeout grace world [] after = world ≡ after
AreDrained {S} cluster fuel kinds timeout grace world ((ns, log) ∷ logs) after =
    (r : Drained × Phase S) × (drain_bnk_custom_resources (cluster ns) fuel kinds timeout grace
        world
      ≡ some r)
    × (log ≡ r.1.log)
    × AreDrained cluster fuel kinds timeout grace r.1.world logs after

-- The namespaces of a sweep: none where there is nothing to do, else the first and, if it is another one, the second.
abbrev pub namespaces_of : List Gvr → Text → Text → List Text
namespaces_of kinds flo utils =
    if flo == empty || is_nil kinds
    then []
    else if utils == empty || flo == utils
    then flo ∷ []
    else flo ∷ utils ∷ []

dedupe_non_empty-namespaces_of :
    (kinds : List Gvr) (flo utils : Text)
    → (flo == empty || is_nil kinds) ≡ false
    → dedupe_non_empty (flo ∷ utils ∷ []) ≡ namespaces_of kinds flo utils
unfolding dedupe_non_empty dedupe_from
dedupe_non_empty-namespaces_of kinds flo utils some_work = ground arith

module _ (kinds : List Gvr) (P : Gvr → Type 0) (holds : (g : Gvr) → Memᴰ g kinds → P g) where
  leaf-IsOf : (e : Event) → IsLeafEvent kinds e → IsOf P e
  leaf-IsOf (requested g name) (m, _, _) = holds g m
  leaf-IsOf (passed p u) h = tt
  leaf-IsOf (recounted p u) h = tt

  root-IsOf : (e : Event) → IsRootEvent kinds e → IsOf P e
  root-IsOf (requested g name) (m, _) = holds g m
  root-IsOf (passed p u) h = tt
  root-IsOf (recounted p u) h = tt

  IsOrdered-IsKept : (log : List Event) → IsOrdered kinds log → IsKept kinds P log
  IsOrdered-IsKept log ordered =
      let (roots, leaves, e, r, l, _) = ordered in
      (
        ordered,
        subst (λ x. All (IsOf P) x) (sym e)
            (All-append (IsOf P) roots leaves (All-map _ _ root-IsOf roots r)
              (All-map _ _ leaf-IsOf leaves l)),
      )

  module _ {S : Type 0} (cluster : Text → Cluster S) (fuel timeout grace : ℕ) where
    -- What is kept of a sweep over the namespaces.
    abbrev IsSweep : List Text → S → List (Text × List Event) × S → Type 0
    IsSweep namespaces world (logs, after) =
        (map (λ (e : Text × List Event). e.0) logs ≡ namespaces)
        × AreDrained cluster fuel kinds timeout grace world logs after
        × All (λ e. IsKept kinds P e.1) logs

    drain_namespaces-IsSweep :
        (namespaces : List Text) (world : S) (q : List (Text × List Event) × S)
        → drain_namespaces cluster fuel kinds timeout grace namespaces world ≡ some q
        → IsSweep namespaces world q
    unfolding drain_namespaces
    drain_namespaces-IsSweep [] world q h =
        subst (IsSweep [] world) (some_injective h) (refl, refl, tt)
    drain_namespaces-IsSweep (ns ∷ rest) world q h =
        elim (Option-cases
          (drain_bnk_custom_resources (cluster ns) fuel kinds timeout grace world)) [
            | inl e ↦ ground arith
            | inr (r, e) ↦
                elim (Option-cases
                  (drain_namespaces cluster fuel kinds timeout grace rest r.1.world)) [
                    | inl f ↦ ground arith
                    | inr (more, f) ↦
                        let whole : ((ns, r.1.log) ∷ more.0, more.1) ≡ q = ground arith in
                        let (names, drained, kept) =
                          drain_namespaces-IsSweep rest r.1.world more f in
                        let ordered =
                          drain_bnk_custom_resources-IsOrdered S (cluster ns) fuel kinds timeout
                            grace world r e in
                        subst (IsSweep (ns ∷ rest) world) whole (
                          ap (λ l. ns ∷ l) names,
                          (r, e, refl, drained),
                          (IsOrdered-IsKept r.1.log ordered, kept),
                        )
                  ]
          ]

-- A sweep that ends has drained the namespace of the operator and then, if it has a name and is another one, that of the
-- utilities, and no other; none at all where the first has no name or no kind was selected. In each of them, in that
-- order and each from the state that the one before has left, it has run a drain of that namespace, which has asked to
-- delete in order, and only kinds that discovery has returned as listable and deletable in one of the groups for the
-- release line.
pub sweep_bnk_custom_resources-IsSwept :
    (S : Type 0) (cluster : Text → Cluster S) (parse : Text → Option (Text × Text))
    (lists : List (Option ApiResourceList)) (line : Text) (fuel timeout grace : ℕ)
    (flo utils : Text) (world : S) (q : List (Text × List Event) × S)
    → sweep_bnk_custom_resources cluster fuel
        (select_bnk_resources parse lists line)
        timeout
        grace
        flo
        utils
        world
      ≡ some q
    → (map (λ (e : Text × List Event). e.0) q.0
        ≡ namespaces_of (select_bnk_resources parse lists line) flo utils)
      × AreDrained cluster fuel (select_bnk_resources parse lists line) timeout grace world q.0 q.1
      × All
          (λ e.
            IsKept
              (select_bnk_resources parse lists line)
              (IsSelected parse (drain_groups_for_line line) lists)
              e.1)
          q.0
unfolding sweep_bnk_custom_resources
sweep_bnk_custom_resources-IsSwept S cluster parse lists line fuel timeout grace flo utils world q
      h =
    let kinds = select_bnk_resources parse lists line in
    let P = IsSelected parse (drain_groups_for_line line) lists in
    let holds = select_bnk_resources-IsSelected parse lists line in
    elim (Bool-cases (flo == empty || is_nil kinds)) [
      | inl e ↦
          let none_done : ([], world) ≡ q = some_injective (rw e at h) in
          subst
            (IsSweep kinds P holds cluster fuel timeout grace (namespaces_of kinds flo utils) world)
            none_done (rw e refl, refl, tt)
      | inr e ↦
          subst (λ namespaces. IsSweep kinds P holds cluster fuel timeout grace namespaces world q)
            (dedupe_non_empty-namespaces_of kinds flo utils e)
            (drain_namespaces-IsSweep kinds P holds cluster fuel timeout grace
              (dedupe_non_empty (flo ∷ utils ∷ [])) world q (rw e at h))
    ]
