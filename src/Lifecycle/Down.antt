-- ===== src/Lifecycle/Down.antt =====
-- internal/orchestration/lifecycle.go, RunDown: the order of a teardown, and when it starts at all.
use roksbnkctl.Prelude.{
  ℕ, ◌≡◌, Bool, true, false, not, ◌&&◌, ◌||◌, none, some, List, [], ◌++◌, refl, ap, ap₂, ◌∙◌, arith,
  eqb, any, inl, inr, Bool-cases, Option-cases,
}
use roksbnkctl.Lifecycle.{
  Event, started, finished, asked, Phase, cluster_up, bnk_plan, testing_plan, bnk_apply,
  testing_apply, trial_down, testing_down, tgw_disconnect, cluster_down, Presence, Inputs, Run,
  any_phase, events, merge, first_error, then_run, done, when, destroy, run_down,
}
use roksbnkctl.Lifecycle.Events.{
  comes_first, is_started, is_failure, first_error-none, then_run-fine, any-append, any-merge,
  comes_first-then_run, then_run-none,
}

abbrev pub rank : Phase → ℕ
rank cluster_up = 0
rank bnk_plan = 1
rank testing_plan = 2
rank bnk_apply = 3
rank testing_apply = 4
rank trial_down = 5
rank testing_down = 6
rank tgw_disconnect = 7
rank cluster_down = 8

abbrev pub starts : Phase → Event → Bool
starts p (started q) = eqb (rank q) (rank p)
starts p (finished q ok) = false
starts p asked = false

abbrev pub succeeded : Phase → Event → Bool
succeeded p (started q) = false
succeeded p (finished q ok) = eqb (rank q) (rank p) && ok
succeeded p asked = false

module _ (x : Inputs) (schedule : List Bool) (p : Presence) where
  abbrev bnk_log : List Event
  bnk_log = when p.bnk (events x trial_down)

  abbrev testing_log : List Event
  testing_log = when p.testing (events x testing_down)

  abbrev first_log : List Event
  first_log = merge schedule bnk_log testing_log

  abbrev tgw_log : List Event
  tgw_log = when p.tgw (events x tgw_disconnect)

  abbrev cluster_run : Run
  cluster_run = then_run (when (p.cluster || p.cluster_residual) (events x cluster_down)) done

  first_log-cluster : any (starts cluster_down) first_log ≡ false
  unfolding events
  first_log-cluster = ground (arith, any-merge (starts cluster_down) schedule bnk_log testing_log)

  tgw_log-cluster : any (starts cluster_down) tgw_log ≡ false
  unfolding events
  tgw_log-cluster = ground arith

  destroy-gated :
      (e : Event → Bool)
      → (any is_failure first_log ≡ false
          → any is_failure tgw_log ≡ false
          → (any e first_log || any e tgw_log) ≡ true)
      → comes_first e (starts cluster_down) (destroy x schedule p).log ≡ true
  unfolding destroy
  destroy-gated e ready =
      comes_first-then_run e (starts cluster_down) first_log (then_run tgw_log cluster_run)
        first_log-cluster
        (λ fine. elim (Bool-cases (any e first_log)) [
          | inl seen ↦ rw seen refl
          | inr unseen ↦ rw unseen (
              comes_first-then_run e (starts cluster_down) tgw_log cluster_run tgw_log-cluster
                (λ fine'. ground (
                  arith,
                  unseen,
                  ready (first_error-none first_log fine) (first_error-none tgw_log fine'),
                )))
        ])

  destroy-bnk :
      p.bnk ≡ true
      → comes_first (succeeded trial_down) (starts cluster_down) (destroy x schedule p).log ≡ true
  unfolding events
  destroy-bnk here = destroy-gated (succeeded trial_down) (λ fine fine'. ground (
    arith,
    any-merge is_failure schedule bnk_log testing_log,
    any-merge (succeeded trial_down) schedule bnk_log testing_log,
  ))

  destroy-testing :
      p.testing ≡ true
      → comes_first (succeeded testing_down) (starts cluster_down) (destroy x schedule p).log ≡ true
  unfolding events
  destroy-testing here = destroy-gated (succeeded testing_down) (λ fine fine'. ground (
    arith,
    any-merge is_failure schedule bnk_log testing_log,
    any-merge (succeeded testing_down) schedule bnk_log testing_log,
  ))

  destroy-tgw :
      p.tgw ≡ true
      → comes_first (succeeded tgw_disconnect) (starts cluster_down) (destroy x schedule p).log
        ≡ true
  unfolding events
  destroy-tgw here = destroy-gated (succeeded tgw_disconnect) (λ fine fine'. ground arith)

  abbrev cluster_log : List Event
  cluster_log = when (p.cluster || p.cluster_residual) (events x cluster_down)

  destroy-log :
      (destroy x schedule p).result ≡ none
      → ((destroy x schedule p).log ≡ first_log ++ (tgw_log ++ (cluster_log ++ [])))
        × (any is_failure first_log ≡ false)
        × (any is_failure tgw_log ≡ false)
        × (any is_failure cluster_log ≡ false)
  unfolding destroy
  destroy-log h =
      let (first_fine, h') = then_run-none first_log (then_run tgw_log cluster_run) h in
      let (tgw_fine, h'') = then_run-none tgw_log cluster_run h' in
      let (cluster_fine, end) = then_run-none cluster_log done h'' in
      (
        ap (λ (r : Run). r.log) (then_run-fine first_log (then_run tgw_log cluster_run) first_fine)
            ∙ ap (λ (r : Run). first_log ++ r.log) (then_run-fine tgw_log cluster_run tgw_fine)
            ∙ ap (λ (r : Run). first_log ++ (tgw_log ++ r.log))
                (then_run-fine cluster_log done cluster_fine),
        first_error-none first_log first_fine,
        first_error-none tgw_log tgw_fine,
        first_error-none cluster_log cluster_fine,
      )

  destroy-any :
      (q : Event → Bool)
      → (destroy x schedule p).result ≡ none
      → any q (destroy x schedule p).log
        ≡ (any q bnk_log || any q testing_log) || (any q tgw_log || (any q cluster_log || false))
  destroy-any q h =
      let (log, _, _, _) = destroy-log h in
      ap (any q) log
      ∙ any-append q first_log (tgw_log ++ (cluster_log ++ []))
      ∙ ap₂ (λ a b. a || b) (any-merge q schedule bnk_log testing_log)
          (any-append q tgw_log (cluster_log ++ [])
            ∙ ap (λ b. any q tgw_log || b) (any-append q cluster_log []))

  -- A run that starts the cluster's teardown has no more than one question before `destroy`.
  run_down-gated :
      (e : Event → Bool)
      → x.presence ≡ some p
      → e asked ≡ false
      → comes_first e (starts cluster_down) (destroy x schedule p).log ≡ true
      → comes_first e (starts cluster_down) (run_down x schedule).log ≡ true
  unfolding run_down then_run first_error
  run_down-gated e found quiet ordered = ground arith

-- A run of `down` starts to destroy the cluster only after the BNK teardown, the testing teardown and
-- the detachment from the transit gateway have each succeeded, if that phase is present; however the two
-- parallel phases interleave, and whatever fails.
pub run_down-order :
    (x : Inputs) (schedule : List Bool) (p : Presence)
    → x.presence ≡ some p
    → ((not p.bnk
          || comes_first (succeeded trial_down) (starts cluster_down) (run_down x schedule).log)
        ≡ true)
      × ((not p.testing
            || comes_first (succeeded testing_down) (starts cluster_down) (run_down x schedule).log)
          ≡ true)
      × ((not p.tgw
            || comes_first
                (succeeded tgw_disconnect)
                (starts cluster_down)
                (run_down x schedule).log)
          ≡ true)
run_down-order x schedule p found = (
  present-or p.bnk (λ h.
      run_down-gated x schedule p (succeeded trial_down) found refl (destroy-bnk x schedule p h)),
  present-or p.testing (λ h.
      run_down-gated x schedule p (succeeded testing_down) found refl
        (destroy-testing x schedule p h)),
  present-or p.tgw (λ h.
      run_down-gated x schedule p (succeeded tgw_disconnect) found refl
        (destroy-tgw x schedule p h)),
)
  where
    present-or : (here : Bool) {b : Bool} → (here ≡ true → b ≡ true) → (not here || b) ≡ true
    present-or true h = h refl
    present-or false h = refl

-- A run of `down` starts a phase only if `--auto` is given or the user confirms, the flag was not
-- rejected, the workspace is there, and neither the gateway nor the license proxy phase has resources.
pub run_down-consent :
    (x : Inputs) (schedule : List Bool)
    → any is_started (run_down x schedule).log ≡ true
    → (p : Presence) × (x.presence ≡ some p)
      × (p.gateway ≡ false)
      × (p.flp ≡ false)
      × ((x.auto || x.confirms cluster_down) ≡ true)
      × (x.rejected ≡ false)
      × (x.context ≡ some true)
unfolding run_down
run_down-consent x schedule h = elim (Option-cases x.presence) [
  | inl unknown ↦ ground arith
  | inr (p, found) ↦
      (p, found, ground arith, ground arith, ground arith, ground arith, ground arith)
]

-- Where every phase of these has succeeded that is present.
abbrev pub IsTornDown : Presence → List Event → Type 0
IsTornDown p log =
    ((not p.bnk || any (succeeded trial_down) log) ≡ true)
    × ((not p.testing || any (succeeded testing_down) log) ≡ true)
    × ((not p.tgw || any (succeeded tgw_disconnect) log) ≡ true)
    × ((not (p.cluster || p.cluster_residual) || any (succeeded cluster_down) log) ≡ true)

destroy-IsTornDown :
    (x : Inputs) (schedule : List Bool) (p : Presence)
    → (destroy x schedule p).result ≡ none
    → IsTornDown p (destroy x schedule p).log
unfolding events
destroy-IsTornDown x schedule p h =
    let (log, first_fine, tgw_fine, cluster_fine) = destroy-log x schedule p h in
    let parallel =
      any-merge is_failure schedule (bnk_log x schedule p) (testing_log x schedule p) in
    (
      ground (arith, parallel, first_fine, destroy-any x schedule p (succeeded trial_down) h),
      ground (arith, parallel, first_fine, destroy-any x schedule p (succeeded testing_down) h),
      ground (arith, tgw_fine, destroy-any x schedule p (succeeded tgw_disconnect) h),
      ground (arith, cluster_fine, destroy-any x schedule p (succeeded cluster_down) h),
    )

-- A run of `down` that reports no error has found nothing in the gateway and the license proxy phase, and has torn
-- down every other phase that was present: BNK, testing, the connection to the transit gateway, and the cluster or
-- what was left of it.
pub run_down-IsTornDown :
    (x : Inputs) (schedule : List Bool) (p : Presence)
    → x.presence ≡ some p
    → (run_down x schedule).result ≡ none
    → (p.gateway ≡ false) × (p.flp ≡ false) × IsTornDown p (run_down x schedule).log
unfolding run_down then_run first_error any_phase
run_down-IsTornDown x schedule p found h =
    let whole = destroy-IsTornDown x schedule p in
    (
      ground arith,
      ground arith,
      (ground (arith, whole), ground (arith, whole), ground (arith, whole), ground (arith, whole)),
    )
