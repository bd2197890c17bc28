-- ===== src/Retry.antt =====
-- internal/orchestration/lifecycle.go: the retries of terraform's apply and destroy (applyWithRetry, destroyWithRetry) and
-- the texts of errors that they are made for. One attempt and one wait are parameters.
mod Tests
pub mod Bounded
use roksbnkctl.Prelude.{
  ℕ, zero, suc, Bool, true, false, not, ◌&&◌, ◌||◌, Option, none, some, List, [], ◌∷◌, ◌++◌,
  if◌then◌else◌, any, Text, lit, contains,
}

abbrev pub apply_max_attempts : ℕ
apply_max_attempts = 5

abbrev pub destroy_max_attempts : ℕ
destroy_max_attempts = 4

abbrev pub transient_texts : List Text
transient_texts =
    lit "exit status 7"
    ∷ lit "Connection refused"
    ∷ lit "connection refused"
    ∷ lit "i/o timeout"
    ∷ lit "no route to host"
    ∷ lit "network is unreachable"
    ∷ lit "no such host"
    ∷ lit "TLS handshake timeout"
    ∷ lit "failed to dial"
    ∷ lit "to download the config doesn't exist"
    ∷ lit "failed calling webhook"
    ∷ lit "server gave HTTP response to HTTPS client"
    ∷ lit "status unknown for quota"
    ∷ []

-- `looksTransient`, on the text of an error.
unfoldable pub looks_transient : Text → Bool
looks_transient s = any (λ pat. contains s pat) transient_texts

abbrev pub teardown_texts : List Text
teardown_texts =
    lit "Public Gateway not found"
    ∷ lit "Cannot delete VPC"
    ∷ lit "is still attached"
    ∷ lit "please retry the request"
    ∷ []

-- `looksTransientDestroy`.
unfoldable pub looks_transient_destroy : Text → Bool
looks_transient_destroy s =
    (contains s (lit "WithContext failed") && contains s (lit "not found"))
    || any (λ pat. contains s pat) teardown_texts

unfoldable pub retries_destroy : Text → Bool
retries_destroy s = looks_transient s || looks_transient_destroy s

-- What a run does: an attempt and a wait, each with its error if it has one.
pub data Event : Type 0 where
  attempted : Option Text → Event
  waited : Option Text → Event

-- How a run ends: its error, the state that it leaves, and its events.
pub record Run (S : Type 0) : Type 0 where
  pub failure : Option Text
  pub state : S
  pub events : List Event

module _ {S : Type 0} (attempt wait : S → Option Text × S) (retries : Text → Bool) where
  abbrev pub ended : Option Text → S → List Event → Run S
  ended failure s events = record { failure = failure; state = s; events = events }

  abbrev pub behind : List Event → Run S → Run S
  behind events run = record run { events = events ++ run.events }

  -- What follows a wait.
  abbrev pub after_wait : Text → Option Text × S → (S → Run S) → Run S
  after_wait e (some c, s) rest = ended (some c) s (attempted (some e) ∷ waited (some c) ∷ [])
  after_wait e (none, s) rest = behind (attempted (some e) ∷ waited none ∷ []) (rest s)

  -- What follows an attempt, for the attempts that are left.
  abbrev pub after_attempt : ℕ → Option Text × S → (Text → S → Run S) → Run S
  after_attempt left (none, s) rest = ended none s (attempted none ∷ [])
  after_attempt zero (some e, s) rest = ended (some e) s (attempted (some e) ∷ [])
  after_attempt (suc left) (some e, s) rest =
      let more = after_wait e (wait s) (rest e) in
      if retries e then more else ended (some e) s (attempted (some e) ∷ [])

  -- The loop, for the attempts that are left; the error is that of the attempt before.
  unfoldable pub retry_from : ℕ → Option Text → S → Run S
  retry_from zero before s = ended before s []
  retry_from (suc left) before s =
      after_attempt left (attempt s) (λ e s2. retry_from left (some e) s2)

module _ {S : Type 0} (attempt wait : S → Option Text × S) where
  -- `applyWithRetry`.
  unfoldable pub apply_with_retry : S → Run S
  apply_with_retry s = retry_from attempt wait looks_transient apply_max_attempts none s

  -- `destroyWithRetry`.
  unfoldable pub destroy_with_retry : S → Run S
  destroy_with_retry s = retry_from attempt wait retries_destroy destroy_max_attempts none s
