-- ===== src/Lifecycle/Up.antt =====
-- internal/orchestration/lifecycle.go, RunUp: what is applied, and after what.
use roksbnkctl.Prelude.{
  ◌≡◌, Bool, true, false, not, ◌&&◌, ◌||◌, some, List, [], ◌∷◌, ◌++◌, refl, ap, ap₂, ◌∙◌, arith,
  any, inl, inr, Bool-cases, Option-cases,
}
use roksbnkctl.Lifecycle.{
  Event, asked, Phase, cluster_up, bnk_plan, testing_plan, bnk_apply, testing_apply, Presence,
  Inputs, Run, events, merge, then_run, done, when, apply_decision, apply_plans,
  run_bnk_and_testing_parallel, run_up,
}
use roksbnkctl.Lifecycle.Down.{starts, succeeded}
use roksbnkctl.Lifecycle.Events.{
  comes_first, is_failure, first_error-none, any-append, any-merge, comes_first-then_run,
  any-then_run,
}

-- The start of an apply, of whichever phase.
abbrev pub starts_apply : Event → Bool
starts_apply e = starts bnk_apply e || starts testing_apply e

module _ (x : Inputs) (schedule : List Bool) where
  plans-ordered :
      (p : Phase) (e : Event → Bool)
      → any starts_apply (events x p) ≡ false
      → (next : Run) → (any is_failure (events x p) ≡ false → any e (events x p) ≡ true)
      → comes_first e starts_apply (then_run (events x p) next).log ≡ true
  plans-ordered p e quiet next ready =
      comes_first-then_run e starts_apply (events x p) next quiet (λ fine.
        ap (λ b. b || comes_first e starts_apply next.log)
          (ready (first_error-none (events x p) fine)))

  parallel-bnk :
      comes_first (succeeded bnk_plan) starts_apply (run_bnk_and_testing_parallel x schedule).log
      ≡ true
  unfolding run_bnk_and_testing_parallel events
  parallel-bnk =
      plans-ordered bnk_plan (succeeded bnk_plan) refl
        (then_run (events x testing_plan) (apply_plans x schedule)) (λ fine. ground arith)

  parallel-testing :
      comes_first
        (succeeded testing_plan)
        starts_apply
        (run_bnk_and_testing_parallel x schedule).log
      ≡ true
  unfolding run_bnk_and_testing_parallel events
  parallel-testing =
      comes_first-then_run (succeeded testing_plan) starts_apply (events x bnk_plan)
        (then_run (events x testing_plan) (apply_plans x schedule)) refl
        (λ fine.
          let behind =
            plans-ordered testing_plan (succeeded testing_plan) refl (apply_plans x schedule)
              (λ fine'. ground arith) in
          ground (arith, behind))

  abbrev questions : List Event
  questions =
      when (not x.auto && x.changes bnk_plan) (asked ∷ [])
      ++ when (not x.auto && x.changes testing_plan) (asked ∷ [])

  abbrev parallel : Run
  parallel = run_bnk_and_testing_parallel x schedule

  abbrev cluster_log : Presence → List Event
  cluster_log p = when (not (not p.cluster && x.outputs)) (events x cluster_up)

  cluster_log-quiet : (p : Presence) → any starts_apply (cluster_log p) ≡ false
  unfolding events
  cluster_log-quiet p = ground arith

  with_cluster :
      (p : Presence) (e : Event → Bool)
      → comes_first e starts_apply parallel.log ≡ true
      → comes_first e starts_apply (then_run (cluster_log p) parallel).log ≡ true
  with_cluster p e h =
      comes_first-then_run e starts_apply (cluster_log p) parallel (cluster_log-quiet p)
        (λ fine. ground (arith, h))

  after_cluster :
      (p : Presence)
      → ((not p.cluster && x.outputs)
          || comes_first
              (succeeded cluster_up)
              starts_apply
              (then_run (cluster_log p) parallel).log)
        ≡ true
  unfolding events
  after_cluster p = elim (Bool-cases (not p.cluster && x.outputs)) [
    | inl reused ↦ rw reused refl
    | inr fresh ↦
        let behind : comes_first (succeeded cluster_up) starts_apply
              (then_run (cluster_log p) parallel).log
            ≡ true =
          comes_first-then_run (succeeded cluster_up) starts_apply (cluster_log p) parallel
            (cluster_log-quiet p) (λ fine. ground (arith, first_error-none (cluster_log p) fine)) in
        ground (arith, behind)
  ]

-- A run of `up` starts to apply only after the BNK and the testing phase have both been planned, and,
-- unless a registered cluster is reused, after the cluster phase has succeeded; however the two applies
-- interleave, and whatever fails.
pub run_up-order :
    (x : Inputs) (schedule : List Bool) (p : Presence)
    → x.presence ≡ some p
    → (comes_first (succeeded bnk_plan) starts_apply (run_up x schedule).log ≡ true)
      × (comes_first (succeeded testing_plan) starts_apply (run_up x schedule).log ≡ true)
      × (((not p.cluster && x.outputs)
            || comes_first (succeeded cluster_up) starts_apply (run_up x schedule).log)
          ≡ true)
unfolding run_up
run_up-order x schedule p found =
    let bnk = with_cluster x schedule p (succeeded bnk_plan) (parallel-bnk x schedule) in
    let testing =
      with_cluster x schedule p (succeeded testing_plan) (parallel-testing x schedule) in
    let cluster = after_cluster x schedule p in
    (ground (arith, bnk), ground (arith, testing), ground (arith, cluster))

module _ (x : Inputs) (schedule : List Bool) where
  abbrev bnk_on : Bool
  bnk_on = x.changes bnk_plan && (x.auto || x.confirms bnk_plan)

  abbrev testing_on : Bool
  testing_on = x.changes testing_plan && (x.auto || x.confirms testing_plan)

  abbrev applies_log : List Event
  applies_log =
      merge schedule (when bnk_on (events x bnk_apply)) (when testing_on (events x testing_apply))

  apply_plans-quiet :
      (q : Event → Bool)
      → q asked ≡ false
      → any q applies_log ≡ false
      → any q (apply_plans x schedule).log ≡ false
  unfolding apply_plans apply_decision
  apply_plans-quiet q plain h =
      let asks : any q (questions x schedule) ≡ false = ground arith in
      let both : any q (then_run (questions x schedule ++ applies_log) done).log ≡ false =
        any-then_run q (questions x schedule ++ applies_log) done
          (any-append q (questions x schedule) applies_log ∙ ap₂ (λ a b. a || b) asks h) refl in
      ground (arith, asks, both)

  run_up-quiet :
      (q : Event → Bool)
      → q asked ≡ false
      → any q (events x cluster_up) ≡ false
      → any q (events x bnk_plan) ≡ false
      → any q (events x testing_plan) ≡ false
      → any q applies_log ≡ false
      → any q (run_up x schedule).log ≡ false
  unfolding run_up run_bnk_and_testing_parallel
  run_up-quiet q plain in_cluster in_bnk in_testing h =
      let planned = then_run (events x testing_plan) (apply_plans x schedule) in
      let later : any q (parallel x schedule).log ≡ false =
        any-then_run q (events x bnk_plan) planned in_bnk (
          any-then_run q (events x testing_plan) (apply_plans x schedule) in_testing
            (apply_plans-quiet q plain h)) in
      elim (Option-cases x.presence) [
        | inl unknown ↦ ground arith
        | inr (p, found) ↦
            let first : any q (cluster_log x schedule p) ≡ false = ground arith in
            let whole =
              any-then_run q (cluster_log x schedule p) (parallel x schedule) first later in
            ground (arith, whole)
      ]

-- A run of `up` starts to apply the BNK phase, or the testing phase, only if its plan has changes, and
-- `--auto` is given or the user confirmed that plan.
pub run_up-consent :
    (x : Inputs) (schedule : List Bool)
    → ((not (any (starts bnk_apply) (run_up x schedule).log)
          || (x.changes bnk_plan && (x.auto || x.confirms bnk_plan)))
        ≡ true)
      × ((not (any (starts testing_apply) (run_up x schedule).log)
            || (x.changes testing_plan && (x.auto || x.confirms testing_plan)))
          ≡ true)
unfolding events
run_up-consent x schedule = (
  elim (Bool-cases (bnk_on x schedule)) [
    | inl on ↦ ground (arith, on)
    | inr off ↦
        let quiet = run_up-quiet x schedule (starts bnk_apply) refl refl refl refl (
          any-merge (starts bnk_apply) schedule (when (bnk_on x schedule) (events x bnk_apply))
            (when (testing_on x schedule) (events x testing_apply))
          ∙ ground (arith, off)) in
        ground (arith, quiet)
  ],
  elim (Bool-cases (testing_on x schedule)) [
    | inl on ↦ ground (arith, on)
    | inr off ↦
        let quiet = run_up-quiet x schedule (starts testing_apply) refl refl refl refl (
          any-merge (starts testing_apply) schedule (when (bnk_on x schedule) (events x bnk_apply))
            (when (testing_on x schedule) (events x testing_apply))
          ∙ ground (arith, off)) in
        ground (arith, quiet)
  ],
)
