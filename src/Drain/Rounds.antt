-- ===== src/Drain/Rounds.antt =====
-- How many rounds a drain needs.
use roksbnkctl.Prelude.{
  ℕ, zero, suc, ◌+◌, ◌<◌, ◌≤◌, ◌≡◌, ◌≢◌, some_injective, ltb, refl, sym, ap, subst, arith, Bool,
  true, false, ◌&&◌, Option, none, some, List, [], ◌∷◌, leb, eqb, if◌then◌else◌, Text,
}
use roksbnkctl.Drain.{Gvr, Cluster, DeletePass, Phase, leaves_of, roots_of, no_pass, delete_all_in}
use roksbnkctl.Drain.Passes.{IsKept, delete_kinds-kept}
use roksbnkctl.Drain.Phases.{
  Count, Drained, Limits, refusing, waited_out, count_listing, count_kinds, count_and_name_in,
  after_pass, drain_phase, run_phase, added, then_roots, drain_bnk_custom_resources,
}

-- A clock that no call turns back, and that a wait moves by a unit at least, unless the context has ended.
pub record IsClock {S : Type 0} (cluster : Cluster S) : Type 0 where
  pub list_le : (g : Gvr) (s : S) → cluster.now s ≤ cluster.now (cluster.list g s).1
  pub delete_le :
      (g : Gvr) (name : Text) (s : S) → cluster.now s ≤ cluster.now (cluster.delete g name s).1
  pub act_le :
      (act : S → S) (s : S) → cluster.neutralise ≡ some act → cluster.now s ≤ cluster.now (act s)
  pub wait_lt :
      (s : S) → (cluster.wait s).0 ≡ false → cluster.now s < cluster.now (cluster.wait s).1
  pub wait_le : (s : S) → cluster.now s ≤ cluster.now (cluster.wait s).1

module _ {S : Type 0} (cluster : Cluster S) (clock : IsClock cluster) where
  -- The one state is no earlier than the other.
  abbrev Later : Phase S → Phase S → Type 0
  Later s t = cluster.now s.world ≤ cluster.now t.world

  Later-IsKept : (gvrs : List Gvr) → IsKept cluster gvrs Later
  Later-IsKept gvrs = record {
    kept_refl = λ s. omega arith;
    kept_trans = λ s t u h k. omega (arith, h, k);
    on_request = λ g name s m. clock.delete_le g name s.world;
    on_act = λ act s n. clock.act_le act s.world n;
    on_list = λ g s. clock.list_le g s.world;
    on_note = λ s forbidden deleted_uid. omega arith;
  }

  delete_all_in-Later : (gvrs : List Gvr) (s : Phase S) → Later s (delete_all_in cluster gvrs s).1
  unfolding delete_all_in
  delete_all_in-Later gvrs s =
      delete_kinds-kept cluster gvrs Later (Later-IsKept gvrs) gvrs no_pass s (λ g m. m)

  count_kinds_le :
      (skip : List Text) (gvrs : List Gvr) (c : Count) (s : S)
      → cluster.now s ≤ cluster.now (count_kinds cluster skip gvrs c s).1
  unfolding count_kinds
  count_kinds_le skip [] c s = omega arith
  count_kinds_le skip (g ∷ gvrs) c s =
      let first = clock.list_le g s in
      let rest =
        count_kinds_le skip gvrs (count_listing skip g (cluster.list g s).0 c)
          (cluster.list g s).1 in
      omega (arith, first, rest)

  count_and_name_in-Later :
      (gvrs : List Gvr) (s : Phase S) → Later s (count_and_name_in cluster gvrs s).1
  unfolding count_and_name_in
  count_and_name_in-Later gvrs s = count_kinds_le s.forbidden gvrs _ s.world

  -- A phase that ends, no earlier than it began.
  abbrev Ends : Phase S → Option (Drained × Phase S) → Type 0
  Ends s o = (r : Drained × Phase S) × (o ≡ some r) × Later s r.1

  if-Ends :
      (s : Phase S) (b : Bool) (x y : Option (Drained × Phase S))
      → Ends s x
      → (b ≡ false → Ends s y)
      → Ends s (if b then x else y)
  if-Ends s true x y h k = h
  if-Ends s false x y h k = k refl

  after_pass-Ends :
      (gvrs : List Gvr) (limits : Limits) (deleted : ℕ) (since : Option ℕ) (s t : Phase S)
      (p : DeletePass) (rest : ℕ → Option ℕ → Phase S → Option (Drained × Phase S))
      → Later s t
      → ((total : ℕ) (still : Option ℕ) (later : Phase S)
          → Later t later
          → cluster.now t.world < cluster.now later.world
          → cluster.now t.world < limits.deadline
          → Ends later (rest total still later))
      → Ends s (after_pass cluster gvrs limits deleted since (p, t) rest)
  after_pass-Ends gvrs limits deleted since s t p rest le next =
      let total = deleted + p.accepted in
      let now = cluster.now t.world in
      let still = refusing p now since in
      let later : Phase S = record t { world = (cluster.wait t.world).1 } in
      let moved : Later t later = clock.wait_le t.world in
      let recount = count_and_name_in-Later gvrs t in
      let recount_later = count_and_name_in-Later gvrs later in
      if-Ends s (eqb p.present 0 && eqb p.unknown 0) _ _ (_, refl, le)
        (λ _.
          if-Ends s (waited_out limits.refusal_grace now still) _ _
            (_, refl, omega (arith, le, recount))
            (λ _.
              if-Ends s (leb limits.deadline now) _ _ (_, refl, omega (arith, le, recount))
                (λ early.
                  if-Ends s (cluster.wait t.world).0 _ _
                    (_, refl, omega (arith, le, moved, recount_later))
                    (λ going.
                      let (r, e, after) =
                        next total still later moved (clock.wait_lt t.world going)
                          (ground (arith, early)) in
                      (r, e, omega (arith, le, moved, after))))))

  drain_phase-Ends :
      (fuel : ℕ) (gvrs : List Gvr) (limits : Limits) (deleted : ℕ) (since : Option ℕ) (s : Phase S)
      → limits.deadline < suc fuel + cluster.now s.world
      → Ends s (drain_phase cluster (suc fuel) gvrs limits deleted since s)
  unfolding drain_phase
  drain_phase-Ends zero gvrs limits deleted since s h =
      let c = delete_all_in cluster gvrs s in
      let le = delete_all_in-Later gvrs s in
      after_pass-Ends gvrs limits deleted since s c.1 c.0
        (λ total still later. drain_phase cluster zero gvrs limits total still later) le
        (λ total still later moved lt early. absurd (omega (arith, h, le, early)))
  drain_phase-Ends (suc fuel) gvrs limits deleted since s h =
      let c = delete_all_in cluster gvrs s in
      let le = delete_all_in-Later gvrs s in
      after_pass-Ends gvrs limits deleted since s c.1 c.0
        (λ total still later. drain_phase cluster (suc fuel) gvrs limits total still later) le
        (λ total still later moved lt early.
          drain_phase-Ends fuel gvrs limits total still later (omega (arith, h, le, lt)))

  run_phase-Ends :
      (fuel : ℕ) (gvrs : List Gvr) (limits : Limits) (s : Phase S)
      → limits.deadline < suc fuel + cluster.now s.world
      → Ends s (run_phase cluster (suc fuel) gvrs limits s)
  run_phase-Ends fuel [] limits s h = (_, refl, omega arith)
  run_phase-Ends fuel (g ∷ gvrs) limits s h =
      drain_phase-Ends fuel (g ∷ gvrs) limits 0 none (record s { forbidden = []; deleted_uid = [] })
        h

  then_roots-Ends :
      (fuel : ℕ) (roots : List Gvr) (limits : Limits) (s : Phase S)
      (first : Option (Drained × Phase S))
      → limits.deadline < suc fuel + cluster.now s.world
      → Ends s first
      → Ends s (then_roots cluster (suc fuel) roots limits first)
  then_roots-Ends fuel roots limits s none h (r, e, le) = ground arith
  then_roots-Ends fuel roots limits s (some (d, t)) h (r, e, le) =
      let here : Later s t =
        subst (λ (x : Drained × Phase S). Later s x.1) (sym (some_injective e)) le in
      if-Ends s (ltb 0 d.remaining) _ _ ((d, t), refl, here)
        (λ _.
          let (q, f, after) = run_phase-Ends fuel roots limits t (omega (arith, h, here)) in
          (_, ap (added cluster d.deleted) f, omega (arith, here, after)))

-- Where no call turns the clock back and a wait moves it by a unit at least, a drain with more rounds than its timeout
-- has units comes to an end.
pub drain_bnk_custom_resources-ne-none :
    (S : Type 0) (cluster : Cluster S) (fuel : ℕ) (gvrs : List Gvr) (timeout grace : ℕ) (world : S)
    → IsClock cluster
    → timeout ≤ fuel
    → drain_bnk_custom_resources cluster (suc fuel) gvrs timeout grace world ≢ none
unfolding drain_bnk_custom_resources
drain_bnk_custom_resources-ne-none S cluster fuel gvrs timeout grace world clock enough =
    let limits : Limits = record {
      deadline = cluster.now world + timeout;
      refusal_grace = grace;
    } in
    let start : Phase S = record { world = world; forbidden = []; deleted_uid = []; log = [] } in
    let in_time : limits.deadline < suc fuel + cluster.now world = omega (arith, enough) in
    let (r, e, _) =
      then_roots-Ends cluster clock fuel (roots_of gvrs) limits start _ in_time
        (run_phase-Ends cluster clock fuel (leaves_of gvrs) limits start in_time) in
    λ no_result. ground (arith, e, no_result)
