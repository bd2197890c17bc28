-- ===== src/Lifecycle.antt =====
-- internal/orchestration/lifecycle.go: RunUp and RunDown, which run the phases of a workspace. A phase
-- is run at most once in a run, so what it answers is a function of the phase; the BNK and the testing
-- phase run at the same time, and a schedule tells how their events interleave.
pub mod Events
pub mod Down
pub mod Up
mod Tests
use roksbnkctl.Prelude.{
  Bool, true, false, not, ◌&&◌, ◌||◌, Option, none, some, List, [], ◌∷◌, ◌++◌, if◌then◌else◌,
}

pub data Phase : Type 0 where
  cluster_up : Phase
  bnk_plan : Phase
  testing_plan : Phase
  bnk_apply : Phase
  testing_apply : Phase
  trial_down : Phase
  testing_down : Phase
  tgw_disconnect : Phase
  cluster_down : Phase

-- `finished` carries whether the phase succeeded; `asked` is a question put to the user.
pub data Event : Type 0 where
  started : Phase → Event
  finished : Phase → Bool → Event
  asked : Event

pub data Failure : Type 0 where
  flag_rejected : Failure
  no_context : Failure
  workspace_not_ready : Failure
  no_presence : Failure
  gateway_present : Failure
  flp_present : Failure
  aborted : Failure
  phase_failed : Phase → Failure

-- `config.Presence`.
pub record Presence : Type 0 where
  pub cluster : Bool
  pub cluster_residual : Bool
  pub bnk : Bool
  pub testing : Bool
  pub gateway : Bool
  pub flp : Bool
  pub tgw : Bool

-- `Presence.Any`.
unfoldable pub any_phase : Presence → Bool
any_phase p = p.cluster || p.bnk || p.testing || p.gateway || p.flp || p.tgw

-- What a run reads. `context` is `config.New`: an error, or whether the workspace is there; `presence`
-- is `none` where it cannot be detected. `outputs` tells whether `cluster-outputs.json` can be read,
-- `changes` whether a plan has changes, and `confirms` what the user answers about a phase.
pub record Inputs : Type 0 where
  pub rejected : Bool
  pub context : Option Bool
  pub presence : Option Presence
  pub outputs : Bool
  pub auto : Bool
  pub confirms : Phase → Bool
  pub changes : Phase → Bool
  pub succeeds : Phase → Bool

pub record Run : Type 0 where
  pub log : List Event
  pub result : Option Failure

-- The events of one phase.
unfoldable pub events : Inputs → Phase → List Event
events x p = started p ∷ finished p (x.succeeds p) ∷ []

-- Two goroutines: the schedule picks the one that goes next, and where it ends, the left one goes
-- before the right one.
unfoldable pub merge : List Bool → List Event → List Event → List Event
merge schedule [] ys = ys
merge schedule (x ∷ xs) [] = x ∷ xs
merge [] (x ∷ xs) (y ∷ ys) = (x ∷ xs) ++ y ∷ ys
merge (true ∷ schedule) (x ∷ xs) (y ∷ ys) = x ∷ merge schedule xs (y ∷ ys)
merge (false ∷ schedule) (x ∷ xs) (y ∷ ys) = y ∷ merge schedule (x ∷ xs) ys

-- `g.Wait()`: the error of the phase that failed first.
unfoldable pub first_error : List Event → Option Failure
first_error [] = none
first_error (finished p false ∷ log) = some (phase_failed p)
first_error (_ ∷ log) = first_error log

-- A run goes on with what comes next unless it has failed.
unfoldable pub then_run : List Event → Run → Run
then_run log next = elim (first_error log) [
  | none ↦ record { log = log ++ next.log; result = next.result }
  | some f ↦ record { log = log; result = some f }
]

abbrev done : Run
done = record { log = []; result = none }

abbrev stop : Failure → Run
stop f = record { log = []; result = some f }

abbrev when : Bool → List Event → List Event
when b log = if b then log else []

-- The end of RunDown, from the parallel part on.
unfoldable pub destroy : Inputs → List Bool → Presence → Run
destroy x schedule p =
    then_run
      (merge schedule (when p.bnk (events x trial_down)) (when p.testing (events x testing_down)))
      (then_run (when p.tgw (events x tgw_disconnect))
        (then_run (when (p.cluster || p.cluster_residual) (events x cluster_down)) done))

unfoldable pub run_down : Inputs → List Bool → Run
run_down x schedule = if x.rejected then stop flag_rejected else elim x.context [
  | none ↦ stop no_context
  | some false ↦ stop workspace_not_ready
  | some true ↦ elim x.presence [
    | none ↦ stop no_presence
    | some p ↦
        if not (any_phase p) && not p.cluster_residual
        then done
        else if p.gateway
        then stop gateway_present
        else if p.flp
        then stop flp_present
        else if x.auto
        then destroy x schedule p
        else if x.confirms cluster_down
        then then_run (asked ∷ []) (destroy x schedule p)
        else record { log = asked ∷ []; result = some aborted }
  ]
]

-- `applyDecision` for one of its two phases.
unfoldable pub apply_decision : Bool → Bool → Bool → Bool
apply_decision changes auto confirm = changes && (auto || confirm)

-- From the two plans on: the question is put for each plan with changes unless `--auto` is given.
unfoldable pub apply_plans : Inputs → List Bool → Run
apply_plans x schedule =
    let run_bnk = apply_decision (x.changes bnk_plan) x.auto (x.confirms bnk_plan) in
    let run_test = apply_decision (x.changes testing_plan) x.auto (x.confirms testing_plan) in
    let questions =
      when (not x.auto && x.changes bnk_plan) (asked ∷ [])
      ++ when (not x.auto && x.changes testing_plan) (asked ∷ []) in
    if not run_bnk && not run_test
    then record {
      log = questions;
      result = if x.changes bnk_plan || x.changes testing_plan then some aborted else none;
    }
    else then_run
        (questions
          ++ merge schedule (when run_bnk (events x bnk_apply))
              (when run_test (events x testing_apply)))
        done

-- `runBNKAndTestingParallel`: both plans, one after the other, before any of them is applied.
unfoldable pub run_bnk_and_testing_parallel : Inputs → List Bool → Run
run_bnk_and_testing_parallel x schedule =
    then_run (events x bnk_plan) (then_run (events x testing_plan) (apply_plans x schedule))

-- The cluster phase is left out where no cluster is in the state but one is registered.
unfoldable pub run_up : Inputs → List Bool → Run
run_up x schedule = if x.rejected then stop flag_rejected else elim x.context [
  | none ↦ stop no_context
  | some _ ↦ elim x.presence [
    | none ↦ stop no_presence
    | some p ↦
        then_run (when (not (not p.cluster && x.outputs)) (events x cluster_up))
          (run_bnk_and_testing_parallel x schedule)
  ]
]
