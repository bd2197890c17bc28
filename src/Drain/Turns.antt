-- ===== src/Drain/Turns.antt =====
-- The order of a drain's two phases.
use mathlib.Core.List.{Memᴰ, append-nil}
use roksbnkctl.Prelude.{
  ℕ, ◌+◌, ◌<◌, ◌≡◌, ◌⊎◌, inl, inr, refl, sym, ap, ◌∙◌, arith, true, false, Option, none, some, List,
  [], ◌∷◌, ◌++◌, ltb, All, some_injective, Bool-cases, Memᴰ-cases,
}
use roksbnkctl.Drain.{
  Gvr, Cluster, Event, requested, passed, recounted, Phase, is_root, flo_managed_component,
  leaves_of, roots_of,
}
use roksbnkctl.Drain.Phases.{
  Drained, Limits, run_phase, added, then_roots, drain_bnk_custom_resources,
}
use roksbnkctl.Drain.Requests.{Concerns, Grew}
use roksbnkctl.Drain.Ordered.{ends_clear, if-some, run_phase-IsPhase}

-- The events of the leaves' phase: a DELETE is of a kind that was given, that is no CNEInstance and that the operator
-- does not manage.
abbrev pub IsLeafEvent : List Gvr → Event → Type 0
IsLeafEvent gvrs (requested g name) =
    Memᴰ g gvrs × (is_root g ≡ false) × (flo_managed_component g ≡ false)
IsLeafEvent gvrs (passed p u) = Unit
IsLeafEvent gvrs (recounted p u) = Unit

-- The events of the roots' phase: a DELETE is of the CNEInstance's kind.
abbrev pub IsRootEvent : List Gvr → Event → Type 0
IsRootEvent gvrs (requested g name) = Memᴰ g gvrs × (is_root g ≡ true)
IsRootEvent gvrs (passed p u) = Unit
IsRootEvent gvrs (recounted p u) = Unit

leaves_of-Memᴰ :
    (gvrs : List Gvr) (g : Gvr)
    → Memᴰ g (leaves_of gvrs)
    → Memᴰ g gvrs × (is_root g ≡ false) × (flo_managed_component g ≡ false)
unfolding leaves_of
leaves_of-Memᴰ [] g m = elim m [ ]
leaves_of-Memᴰ (h ∷ gvrs) g m = elim (Bool-cases (is_root h)) [
  | inl e ↦ let (a, b, c) = leaves_of-Memᴰ gvrs g (rw e at m) in (Memᴰ.tail a, b, c)
  | inr e ↦ elim (Bool-cases (flo_managed_component h)) [
    | inl f ↦ let (a, b, c) = leaves_of-Memᴰ gvrs g (rw (e, f) at m) in (Memᴰ.tail a, b, c)
    | inr f ↦ elim (Memᴰ-cases (rw (e, f) at m)) [
      | inl same ↦ (Memᴰ.head same, ap is_root same ∙ e, ap flo_managed_component same ∙ f)
      | inr k ↦ let (a, b, c) = leaves_of-Memᴰ gvrs g k in (Memᴰ.tail a, b, c)
    ]
  ]
]

roots_of-Memᴰ :
    (gvrs : List Gvr) (g : Gvr) → Memᴰ g (roots_of gvrs) → Memᴰ g gvrs × (is_root g ≡ true)
unfolding roots_of
roots_of-Memᴰ [] g m = elim m [ ]
roots_of-Memᴰ (h ∷ gvrs) g m = elim (Bool-cases (is_root h)) [
  | inl e ↦ elim (Memᴰ-cases (rw e at m)) [
    | inl same ↦ (Memᴰ.head same, ap is_root same ∙ e)
    | inr k ↦ let (a, b) = roots_of-Memᴰ gvrs g k in (Memᴰ.tail a, b)
  ]
  | inr e ↦ let (a, b) = roots_of-Memᴰ gvrs g (rw e at m) in (Memᴰ.tail a, b)
]

leaf_of : (gvrs : List Gvr) (e : Event) → Concerns (leaves_of gvrs) e → IsLeafEvent gvrs e
leaf_of gvrs (requested g name) m = leaves_of-Memᴰ gvrs g m
leaf_of gvrs (passed p u) m = tt
leaf_of gvrs (recounted p u) m = tt

root_of : (gvrs : List Gvr) (e : Event) → Concerns (roots_of gvrs) e → IsRootEvent gvrs e
root_of gvrs (requested g name) m = roots_of-Memᴰ gvrs g m
root_of gvrs (passed p u) m = tt
root_of gvrs (recounted p u) m = tt

pub All-map :
    {A : Type 0} (P Q : A → Type 0) → ((a : A) → P a → Q a) → (xs : List A) → All P xs → All Q xs
All-map P Q f [] h = tt
All-map P Q f (x ∷ xs) (p, h) = (f x p, All-map P Q f xs h)

-- A log, the latest event first, of a drain in the order that it promises: first the leaves, and the CNEInstance only
-- where there were none or the last look at them counted nothing left and nothing hidden.
abbrev pub IsOrdered : List Gvr → List Event → Type 0
IsOrdered gvrs log =
    (roots leaves : List Event) × (log ≡ roots ++ leaves)
    × All (IsRootEvent gvrs) roots
    × All (IsLeafEvent gvrs) leaves
    × ((roots ≡ []) ⊎ ((leaves_of gvrs ≡ []) ⊎ (ends_clear leaves ≡ true)))

added-log :
    {S : Type 0} (cluster : Cluster S) (n : ℕ) (o : Option (Drained × Phase S))
    (r : Drained × Phase S)
    → added cluster n o ≡ some r
    → (q : Drained × Phase S) × (o ≡ some q) × (r.1.log ≡ q.1.log)
added-log cluster n none r h = ground arith
added-log {S} cluster n (some (d, s)) r h =
    ((d, s), refl, ap (λ (x : Drained × Phase S). x.1.log) (sym (some_injective h)))

module _ {S : Type 0} (cluster : Cluster S) (gvrs : List Gvr) where
  then_roots-IsOrdered :
      (fuel : ℕ) (limits : Limits) (s : Phase S) (first : Option (Drained × Phase S))
      (r : Drained × Phase S)
      → s.log ≡ []
      → ((q : Drained × Phase S)
          → first ≡ some q
          → Grew (leaves_of gvrs) s q.1
            × ((leaves_of gvrs ≡ []) ⊎ ((0 < q.0.remaining) ⊎ (ends_clear q.1.log ≡ true))))
      → then_roots cluster fuel (roots_of gvrs) limits first ≡ some r
      → IsOrdered gvrs r.1.log
  then_roots-IsOrdered fuel limits s none r empty k h = ground arith
  then_roots-IsOrdered fuel limits s (some (d, t)) r empty k h =
      let (grew, why) = k (d, t) refl in
      let (new, e, concerns) = grew in
      let log : t.log ≡ new = e ∙ ap (λ l. new ++ l) empty ∙ append-nil new in
      let leaves : All (IsLeafEvent gvrs) new = All-map _ _ (leaf_of gvrs) new concerns in
      elim (if-some (ltb 0 d.remaining) _ _ r h) [
        | inl (_, x) ↦
            let same : r.1.log ≡ t.log =
              ap (λ (y : Drained × Phase S). y.1.log) (sym (some_injective x)) in
            ([], new, same ∙ log, tt, leaves, inl refl)
        | inr (z, x) ↦
            let (q, run, same) = added-log cluster d.deleted _ r x in
            let (after, _) = run_phase-IsPhase cluster fuel (roots_of gvrs) limits t q run in
            let (more, f, about) = after in
            (
              more,
              new,
              same ∙ f ∙ ap (λ l. more ++ l) log,
              All-map _ _ (root_of gvrs) more about,
              leaves,
              elim why [
                | inl none_there ↦ inr (inl none_there)
                | inr (inl left) ↦ ground (arith, left, z)
                | inr (inr clear) ↦ inr (inr (ap ends_clear (sym log) ∙ clear))
              ],
            )
      ]

-- A drain that ends has asked to delete only leaves of the kinds that it was given, none of them managed by the operator,
-- and CNEInstances, and these only after the leaves, where there were no kinds of leaves or the last pass or recount
-- counted none left and no kind as hidden.
pub drain_bnk_custom_resources-IsOrdered :
    (S : Type 0) (cluster : Cluster S) (fuel : ℕ) (gvrs : List Gvr) (timeout grace : ℕ) (world : S)
    (r : Drained × Phase S)
    → drain_bnk_custom_resources cluster fuel gvrs timeout grace world ≡ some r
    → IsOrdered gvrs r.1.log
unfolding drain_bnk_custom_resources
drain_bnk_custom_resources-IsOrdered S cluster fuel gvrs timeout grace world r h =
    let limits : Limits = record {
      deadline = cluster.now world + timeout;
      refusal_grace = grace;
    } in
    let start : Phase S = record { world = world; forbidden = []; deleted_uid = []; log = [] } in
    then_roots-IsOrdered cluster gvrs fuel limits start
      (run_phase cluster fuel (leaves_of gvrs) limits start) r refl
      (run_phase-IsPhase cluster fuel (leaves_of gvrs) limits start) h
