-- ===== src/Lifecycle/Events.antt =====
-- Logs of events: what occurs in them, and what occurs before what.
use roksbnkctl.Prelude.{
  ◌≡◌, Bool, true, false, not, ◌&&◌, ◌||◌, none, some, List, [], ◌∷◌, ◌++◌, refl, sym, ap, ◌∙◌,
  arith, any, inl, inr, Option-cases,
}
use roksbnkctl.Lifecycle.{
  Event, started, finished, asked, Run, Failure, merge, first_error, then_run,
}

-- In the log, an event of the second kind stands only behind one of the first kind.
abbrev pub comes_first : (Event → Bool) → (Event → Bool) → List Event → Bool
comes_first e c [] = true
comes_first e c (x ∷ log) = let rest = comes_first e c log in e x || (not (c x) && rest)

abbrev pub is_started : Event → Bool
is_started (started p) = true
is_started (finished p ok) = false
is_started asked = false

abbrev pub is_failure : Event → Bool
is_failure (started p) = false
is_failure (finished p ok) = not ok
is_failure asked = false

pub first_error-none : (log : List Event) → first_error log ≡ none → any is_failure log ≡ false
unfolding first_error
first_error-none [] h = refl
first_error-none (started p ∷ log) h = first_error-none log h
first_error-none (asked ∷ log) h = first_error-none log h
first_error-none (finished p true ∷ log) h = first_error-none log h
first_error-none (finished p false ∷ log) h = ground arith

pub then_run-fine :
    (log : List Event) (next : Run)
    → first_error log ≡ none
    → then_run log next ≡ record { log = log ++ next.log; result = next.result }
unfolding then_run
then_run-fine log next h = rw (h, then_run) refl

pub then_run-failed :
    (log : List Event) (next : Run) (f : Failure)
    → first_error log ≡ some f
    → then_run log next ≡ record { log = log; result = some f }
unfolding then_run
then_run-failed log next f h = rw (h, then_run) refl

module _ (q : Event → Bool) where
  or_assoc : (a b c : Bool) → ((a || b) || c) ≡ (a || (b || c))
  or_assoc true b c = refl
  or_assoc false b c = refl

  or_swap : (a b c : Bool) → (a || (b || c)) ≡ (b || (a || c))
  or_swap true true c = refl
  or_swap true false c = refl
  or_swap false b c = refl

  or_false : (a : Bool) → a ≡ (a || false)
  or_false true = refl
  or_false false = refl

  pub any-append : (xs ys : List Event) → any q (xs ++ ys) ≡ (any q xs || any q ys)
  any-append [] ys = refl
  any-append (x ∷ xs) ys =
      ap (λ b. q x || b) (any-append xs ys) ∙ sym (or_assoc (q x) (any q xs) (any q ys))

  pub any-merge :
      (schedule : List Bool) (xs ys : List Event)
      → any q (merge schedule xs ys) ≡ (any q xs || any q ys)
  unfolding merge
  any-merge schedule [] ys = refl
  any-merge schedule (x ∷ xs) [] = or_false (any q (x ∷ xs))
  any-merge [] (x ∷ xs) (y ∷ ys) = any-append (x ∷ xs) (y ∷ ys)
  any-merge (true ∷ schedule) (x ∷ xs) (y ∷ ys) =
      ap (λ b. q x || b) (any-merge schedule xs (y ∷ ys))
      ∙ sym (or_assoc (q x) (any q xs) (any q (y ∷ ys)))
  any-merge (false ∷ schedule) (x ∷ xs) (y ∷ ys) =
      ap (λ b. q y || b) (any-merge schedule (x ∷ xs) ys)
      ∙ or_swap (q y) (any q (x ∷ xs)) (any q ys)

module _ (e c : Event → Bool) where
  pub comes_first-absent : (log : List Event) → any c log ≡ false → comes_first e c log ≡ true
  comes_first-absent [] h = refl
  comes_first-absent (x ∷ log) h = ground (arith, comes_first-absent log)

  pub comes_first-append :
      (log rest : List Event)
      → any c log ≡ false
      → comes_first e c (log ++ rest) ≡ (any e log || comes_first e c rest)
  comes_first-append [] rest h = refl
  comes_first-append (x ∷ log) rest h = ground (arith, comes_first-append log rest)

  -- A run that goes on only after a log with an event of the first kind and none of the second.
  pub comes_first-then_run :
      (log : List Event) (next : Run)
      → any c log ≡ false
      → (first_error log ≡ none → (any e log || comes_first e c next.log) ≡ true)
      → comes_first e c (then_run log next).log ≡ true
  comes_first-then_run log next h k = elim (Option-cases (first_error log)) [
    | inl fine ↦ rw (then_run-fine log next fine) (comes_first-append log next.log h ∙ k fine)
    | inr (f, failed) ↦ rw (then_run-failed log next f failed) (comes_first-absent log h)
  ]

pub any-then_run :
    (q : Event → Bool) (log : List Event) (next : Run)
    → any q log ≡ false
    → any q next.log ≡ false
    → any q (then_run log next).log ≡ false
any-then_run q log next h k = elim (Option-cases (first_error log)) [
  | inl fine ↦ rw (then_run-fine log next fine) (any-append q log next.log ∙ ground arith)
  | inr (f, failed) ↦ rw (then_run-failed log next f failed) h
]

-- A run that has not failed: neither its log nor what comes next has.
pub then_run-none :
    (log : List Event) (next : Run)
    → (then_run log next).result ≡ none
    → (first_error log ≡ none) × (next.result ≡ none)
then_run-none log next h = elim (Option-cases (first_error log)) [
  | inl fine ↦ (fine, sym (ap (λ (r : Run). r.result) (then_run-fine log next fine)) ∙ h)
  | inr (f, failed) ↦ ground (arith, ap (λ (r : Run). r.result) (then_run-failed log next f failed))
]
