-- ===== src/Retry/Bounded.antt =====
-- What the events of a run with retries look like, and how many attempts it has.
use roksbnkctl.Prelude.{
  ℕ, suc, ◌≤◌, ◌≡◌, Bool, true, false, Option, none, some, List, [], ◌∷◌, Text,
}
use roksbnkctl.Retry.{Event, attempted, waited, Run}

-- The events of a run with so many attempts at most, and its error: it ends with the first attempt that
-- succeeds, fails for good, is the last, or is followed by a wait that is cut short.
pub data IsRetry (retries : Text → Bool) : ℕ → List Event → Option Text → Type 0 where
  success : {n : ℕ} → IsRetry retries (suc n) (attempted none ∷ []) none
  hopeless :
      {n : ℕ} {e : Text}
      → retries e ≡ false
      → IsRetry retries (suc n) (attempted (some e) ∷ []) (some e)
  exhausted : {e : Text} → retries e ≡ true → IsRetry retries 1 (attempted (some e) ∷ []) (some e)
  cancelled :
      {n : ℕ} {e c : Text}
      → retries e ≡ true
      → IsRetry retries (suc (suc n)) (attempted (some e) ∷ waited (some c) ∷ []) (some c)
  again :
      {n : ℕ} {e : Text} {events : List Event} {failure : Option Text}
      → retries e ≡ true
      → IsRetry retries (suc n) events failure
      → IsRetry retries (suc (suc n)) (attempted (some e) ∷ waited none ∷ events) failure

abbrev pub attempts : List Event → ℕ
attempts [] = 0
attempts (attempted f ∷ events) = suc (attempts events)
attempts (waited f ∷ events) = attempts events

abbrev pub waits : List Event → ℕ
waits [] = 0
waits (attempted f ∷ events) = waits events
waits (waited f ∷ events) = suc (waits events)

module _ {S : Type 0} (attempt wait : S → Option Text × S) (retries : Text → Bool) where
  abbrev Retried : ℕ → Run S → Type 0
  Retried n run = IsRetry retries n run.events run.failure

-- A run as it may be: so many attempts at most, at least one, and at most one wait for each.
abbrev pub IsBounded : {S : Type 0} → (Text → Bool) → ℕ → Run S → Type 0
IsBounded retries n run =
    IsRetry retries n run.events run.failure
    × (1 ≤ attempts run.events)
    × (attempts run.events ≤ n)
    × (waits run.events ≤ attempts run.events)
