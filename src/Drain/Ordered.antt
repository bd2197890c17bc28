-- ===== src/Drain/Ordered.antt =====
-- What a drain asks to delete, and when it turns to the CNEInstance.
use roksbnkctl.Prelude.{
  ℕ, zero, suc, ◌+◌, ◌<◌, ◌≡◌, ◌⊎◌, inl, inr, refl, sym, ap, subst, arith, Bool, true, false, ◌&&◌,
  Option, none, some, List, [], ◌∷◌, leb, eqb, if◌then◌else◌, some_injective, Bool-cases,
}
use roksbnkctl.Drain.{
  Gvr, Cluster, DeletePass, Event, requested, passed, recounted, Phase, no_pass, delete_kinds,
  delete_all_in,
}
use roksbnkctl.Drain.Phases.{
  Drained, Limits, refusing, waited_out, count_and_name_in, give_up, after_pass, drain_phase,
  run_phase,
}
use roksbnkctl.Drain.Requests.{Grew, same-Grew, Grew-trans, delete_kinds-Grew}

-- The latest event counted nothing that is left and no kind that could not be seen.
abbrev pub ends_clear : List Event → Bool
ends_clear [] = false
ends_clear (requested g name ∷ log) = false
ends_clear (passed p u ∷ log) = eqb p 0 && eqb u 0
ends_clear (recounted p u ∷ log) = eqb p 0 && eqb u 0

-- A phase has asked for its kinds only, and left something, or seen nothing left.
abbrev pub IsPhase : {S : Type 0} → List Gvr → Phase S → Drained × Phase S → Type 0
IsPhase gvrs s (d, t) = Grew gvrs s t × ((0 < d.remaining) ⊎ (ends_clear t.log ≡ true))

pub if-some :
    {A : Type 0} (b : Bool) (x y : Option A) (r : A)
    → (if b then x else y) ≡ some r
    → ((b ≡ true) × (x ≡ some r)) ⊎ ((b ≡ false) × (y ≡ some r))
if-some true x y r h = inl (refl, h)
if-some false x y r h = inr (refl, h)

module _ {S : Type 0} (cluster : Cluster S) (gvrs : List Gvr) where
  recount-Grew : (s t : Phase S) → Grew gvrs s t → Grew gvrs s (count_and_name_in cluster gvrs t).1
  unfolding count_and_name_in
  recount-Grew s t h =
      let c = count_and_name_in cluster gvrs t in
      Grew-trans gvrs s t c.1 h (recounted c.0.present c.0.unknown ∷ [], refl, (tt, tt))

  -- Giving up after a recount.
  give_up-IsPhase :
      (s t : Phase S) (deleted : ℕ)
      → Grew gvrs s t
      → IsPhase gvrs s (give_up cluster deleted none (count_and_name_in cluster gvrs t))
  unfolding count_and_name_in
  give_up-IsPhase s t deleted h =
      let c = (count_and_name_in cluster gvrs t).0 in
      (
        recount-Grew s t h,
        elim (Bool-cases (eqb c.present 0 && eqb c.unknown 0)) [
          | inl e ↦ inr e
          | inr e ↦ inl (some_left c.present c.unknown e)
        ],
      )
    where
      some_left : (p u : ℕ) → (eqb p 0 && eqb u 0) ≡ false → 0 < p + u
      some_left p u e = ground (arith, e)

  -- Giving up with what a pass has seen.
  left-IsPhase :
      (s t : Phase S) (deleted left : ℕ)
      → Grew gvrs s t
      → 0 < left
      → IsPhase gvrs s (give_up cluster deleted (some left) (count_and_name_in cluster gvrs t))
  left-IsPhase s t deleted left h k = (recount-Grew s t h, inl k)

  after_pass-IsPhase :
      (limits : Limits) (deleted : ℕ) (since : Option ℕ) (s : Phase S) (p : DeletePass)
      (t : Phase S) (rest : ℕ → Option ℕ → Phase S → Option (Drained × Phase S))
      (r : Drained × Phase S)
      → Grew gvrs s t
      → ((eqb p.present 0 && eqb p.unknown 0) ≡ true → ends_clear t.log ≡ true)
      → ((total : ℕ) (still : Option ℕ) (later : Phase S)
          → Grew gvrs s later
          → rest total still later ≡ some r
          → IsPhase gvrs s r)
      → after_pass cluster gvrs limits deleted since (p, t) rest ≡ some r
      → IsPhase gvrs s r
  after_pass-IsPhase limits deleted since s p t rest r grew clear next h =
      let total = deleted + p.accepted in
      let now = cluster.now t.world in
      let still = refusing p now since in
      let later : Phase S = record t { world = (cluster.wait t.world).1 } in
      let give = λ (x : Drained × Phase S) (q : IsPhase gvrs s x) (e : some x ≡ some r).
        subst (IsPhase gvrs s) (some_injective e) q in
      elim (if-some (eqb p.present 0 && eqb p.unknown 0) _ _ r h) [
        | inl (e, x) ↦ give _ (grew, inr (clear e)) x
        | inr (e, h1) ↦ elim (if-some (waited_out limits.refusal_grace now still) _ _ r h1) [
          | inl (_, x) ↦
              give _ (left-IsPhase s t total (p.present + p.unknown) grew (ground (arith, e))) x
          | inr (_, h2) ↦ elim (if-some (leb limits.deadline now) _ _ r h2) [
            | inl (_, x) ↦ give _ (give_up-IsPhase s t total grew) x
            | inr (_, h3) ↦ elim (if-some (cluster.wait t.world).0 _ _ r h3) [
              | inl (_, x) ↦ give _ (give_up-IsPhase s later total grew) x
              | inr (_, h4) ↦ next total still later grew h4
            ]
          ]
        ]
      ]

  delete_all_in-Grew : (s : Phase S) → Grew gvrs s (delete_all_in cluster gvrs s).1
  unfolding delete_all_in
  delete_all_in-Grew s =
      let c = delete_kinds cluster gvrs (no_pass, s) in
      Grew-trans gvrs s c.1 (delete_all_in cluster gvrs s).1
        (delete_kinds-Grew gvrs cluster no_pass s)
        (passed c.0.present c.0.unknown ∷ [], refl, (tt, tt))

  delete_all_in-ends_clear :
      (s : Phase S)
      → (eqb (delete_all_in cluster gvrs s).0.present 0
          && eqb (delete_all_in cluster gvrs s).0.unknown 0)
        ≡ true
      → ends_clear (delete_all_in cluster gvrs s).1.log ≡ true
  unfolding delete_all_in
  delete_all_in-ends_clear s h = h

  drain_phase-IsPhase :
      (fuel : ℕ) (limits : Limits) (deleted : ℕ) (since : Option ℕ) (start s : Phase S)
      (r : Drained × Phase S)
      → Grew gvrs start s
      → drain_phase cluster fuel gvrs limits deleted since s ≡ some r
      → IsPhase gvrs start r
  unfolding drain_phase
  drain_phase-IsPhase zero limits deleted since start s r g h = ground arith
  drain_phase-IsPhase (suc fuel) limits deleted since start s r g h =
      let c = delete_all_in cluster gvrs s in
      after_pass-IsPhase limits deleted since start c.0 c.1
        (λ total still later. drain_phase cluster fuel gvrs limits total still later) r
        (Grew-trans gvrs start s c.1 g (delete_all_in-Grew s)) (delete_all_in-ends_clear s)
        (λ total still later k e. drain_phase-IsPhase fuel limits total still start later r k e) h

-- A phase of no kinds does nothing.
pub run_phase-IsPhase :
    {S : Type 0} (cluster : Cluster S) (fuel : ℕ) (gvrs : List Gvr) (limits : Limits) (s : Phase S)
    (r : Drained × Phase S)
    → run_phase cluster fuel gvrs limits s ≡ some r
    → Grew gvrs s r.1 × ((gvrs ≡ []) ⊎ ((0 < r.0.remaining) ⊎ (ends_clear r.1.log ≡ true)))
run_phase-IsPhase cluster fuel [] limits s r h =
    let same : s ≡ r.1 = ap (λ (x : Drained × Phase _). x.1) (some_injective h) in
    (same-Grew [] s r.1 (ap (λ (x : Phase _). x.log) (sym same)), inl refl)
run_phase-IsPhase {S} cluster fuel (g ∷ gvrs) limits s r h =
    let fresh : Phase S = record s { forbidden = []; deleted_uid = [] } in
    let p =
      drain_phase-IsPhase cluster (g ∷ gvrs) fuel limits 0 none s fresh r
        (same-Grew (g ∷ gvrs) s fresh refl) h in
    (p.0, inr p.1)
