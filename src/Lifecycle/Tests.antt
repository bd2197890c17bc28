-- ===== src/Lifecycle/Tests.antt =====
-- Runs of `up` and `down` on a workspace, and the theorems there.
use roksbnkctl.Prelude.{◌≡◌, refl, Bool, true, false, not, ◌||◌, none, some, List, [], ◌∷◌, any}
use roksbnkctl.Lifecycle.{
  started, finished, asked, Phase, cluster_up, bnk_plan, testing_plan, bnk_apply, testing_apply,
  trial_down, testing_down, tgw_disconnect, cluster_down, Presence, Inputs, phase_failed, aborted,
  any_phase, events, merge, first_error, then_run, destroy, run_down, apply_decision, apply_plans,
  run_bnk_and_testing_parallel, run_up,
}
use roksbnkctl.Lifecycle.Events.{comes_first, is_started}
use roksbnkctl.Lifecycle.Down.{
  starts, succeeded, IsTornDown, run_down-order, run_down-consent, run_down-IsTornDown,
}
use roksbnkctl.Lifecycle.Up.{starts_apply, run_up-order, run_up-consent}

runs : Unit {0}
unfolding any_phase events merge first_error then_run destroy run_down apply_decision apply_plans
    run_bnk_and_testing_parallel run_up
runs = tt

abbrev whole : Presence
whole = record {
  cluster = true;
  cluster_residual = true;
  bnk = true;
  testing = true;
  gateway = false;
  flp = false;
  tgw = true;
}

abbrev inputs : Inputs
inputs = record {
  rejected = false;
  context = some true;
  presence = some whole;
  outputs = false;
  auto = false;
  confirms = λ p. true;
  changes = λ p. true;
  succeeds = λ p. true;
}

abbrev stuck : Inputs
stuck = record inputs { succeeds = λ (p : Phase). elim p [ testing_down ↦ false | _ ↦ true ] }

abbrev declined : Inputs
declined = record inputs { confirms = λ p. false }

abbrev turns : List Bool
turns = true ∷ false ∷ false ∷ []

run_tests :
    (run_down stuck turns ≡ record {
      log =
          asked
          ∷ started trial_down
          ∷ started testing_down
          ∷ finished testing_down false
          ∷ finished trial_down true
          ∷ [];
      result = some (phase_failed testing_down);
    })
    × (run_down declined [] ≡ record { log = asked ∷ []; result = some aborted })
    × ((run_up declined []).result ≡ some aborted)
unfolding runs
run_tests = (refl, refl, refl)

run_down-order_example :
    (comes_first (succeeded trial_down) (starts cluster_down) (run_down inputs turns).log ≡ true)
    × (comes_first (succeeded testing_down) (starts cluster_down) (run_down inputs turns).log
        ≡ true)
    × (comes_first (succeeded tgw_disconnect) (starts cluster_down) (run_down inputs turns).log
        ≡ true)
run_down-order_example = run_down-order inputs turns whole refl

starts_some : any is_started (run_down inputs turns).log ≡ true
unfolding runs
starts_some = refl

run_down-consent_example :
    (p : Presence) × (some whole ≡ some p)
    × (p.gateway ≡ false)
    × (p.flp ≡ false)
    × (true ≡ true)
    × (false ≡ false)
    × (some true ≡ some true)
run_down-consent_example = run_down-consent inputs turns starts_some

succeeds_all : (run_down inputs turns).result ≡ none
unfolding runs
succeeds_all = refl

run_down-IsTornDown_example :
    (whole.gateway ≡ false) × (whole.flp ≡ false) × IsTornDown whole (run_down inputs turns).log
run_down-IsTornDown_example = run_down-IsTornDown inputs turns whole refl succeeds_all

run_up-order_example :
    (comes_first (succeeded bnk_plan) starts_apply (run_up inputs turns).log ≡ true)
    × (comes_first (succeeded testing_plan) starts_apply (run_up inputs turns).log ≡ true)
    × (comes_first (succeeded cluster_up) starts_apply (run_up inputs turns).log ≡ true)
run_up-order_example = run_up-order inputs turns whole refl

run_up-consent_example :
    ((not (any (starts bnk_apply) (run_up declined turns).log) || false) ≡ true)
    × ((not (any (starts testing_apply) (run_up declined turns).log) || false) ≡ true)
run_up-consent_example = run_up-consent declined turns
