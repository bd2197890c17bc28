-- ===== src/Retry/Tests.antt =====
-- Runs with retries over a list of the attempts' results.
use roksbnkctl.Prelude.{
  ◌≡◌, refl, Option, none, some, List, [], ◌∷◌, Text, lit, contains, has_prefix,
}
use roksbnkctl.Retry.{
  looks_transient, looks_transient_destroy, retries_destroy, retry_from, apply_with_retry,
  destroy_with_retry,
}

retries : Unit {0}
unfolding lit contains has_prefix looks_transient looks_transient_destroy retries_destroy retry_from
    apply_with_retry destroy_with_retry
retries = tt

-- The state is the list of the results to come.
abbrev next : List (Option Text) → Option Text × List (Option Text)
next [] = (none, [])
next (r ∷ rs) = (r, rs)

abbrev no_cut : List (Option Text) → Option Text × List (Option Text)
no_cut rs = (none, rs)

abbrev always_cut : List (Option Text) → Option Text × List (Option Text)
always_cut rs = (some (lit "context canceled"), rs)

abbrev flaky : Text
flaky = lit "dial tcp: i/o timeout"

abbrev race : Text
race = lit "DeleteVPCWithContext failed: VPC not found"

retry_tests :
    ((apply_with_retry next no_cut (some flaky ∷ [])).failure ≡ none)
    × ((apply_with_retry next no_cut (some flaky ∷ some race ∷ [])).failure ≡ some race)
    × ((destroy_with_retry next no_cut (some flaky ∷ some race ∷ [])).failure ≡ none)
    × ((destroy_with_retry next no_cut (some race ∷ some race ∷ some race ∷ some race ∷ [])).failure
        ≡ some race)
    × ((apply_with_retry next always_cut (some flaky ∷ [])).failure ≡ some (lit "context canceled"))
unfolding retries
retry_tests = (refl, refl, refl, refl, refl)
