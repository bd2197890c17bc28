-- ===== src/Drain/Phases.antt =====
-- The loop of drainPhase on fuel, a pass for each unit, and the two phases of drainBNKCustomResources.
use roksbnkctl.Prelude.{
  ℕ, zero, suc, ◌+◌, ◌-◌, Bool, false, ◌&&◌, Option, none, some, List, [], ◌∷◌, ltb, leb, eqb,
  if◌then◌else◌, any, Text, ◌==◌,
}
use roksbnkctl.Snapshot.{precedes}
use roksbnkctl.Drain.{
  Gvr, Object, Listing, listed, unlisted, list_failed, Cluster, DeletePass, recounted, Phase,
  key_of, leaves_of, roots_of, delete_all_in,
}

-- `sort.Strings`, by insertion.
unfoldable pub insert_name : Text → List Text → List Text
insert_name n [] = n ∷ []
insert_name n (m ∷ names) =
    let rest = insert_name n names in if precedes m n then m ∷ rest else n ∷ m ∷ names

-- What a recount has seen: objects, kinds that cannot be seen, and the objects' names.
pub record Count : Type 0 where
  pub present : ℕ
  pub unknown : ℕ
  pub names : List Text

abbrev pub counted : List Text → Text → Count → Count
counted skip key c =
    if any (λ k. k == key) skip
    then c
    else record c { present = suc c.present; names = insert_name key c.names }

unfoldable pub count_objects : List Text → Gvr → List Object → Count → Count
count_objects skip g [] c = c
count_objects skip g (o ∷ os) c = count_objects skip g os (counted skip (key_of g o.name) c)

abbrev pub count_listing : List Text → Gvr → Listing → Count → Count
count_listing skip g (listed os) c = count_objects skip g os c
count_listing skip g unlisted c = c
count_listing skip g (list_failed e) c =
    if e.type_gone then c else record c { unknown = suc c.unknown }

-- How a phase ends: how many DELETEs were accepted, how many objects remain and their names.
pub record Drained : Type 0 where
  pub deleted : ℕ
  pub remaining : ℕ
  pub stuck : List Text

-- The limits of a drain, all of them times of the clock.
pub record Limits : Type 0 where
  pub deadline : ℕ
  pub refusal_grace : ℕ

-- A pass that has not moved anything.
abbrev pub is_refused : DeletePass → Bool
is_refused p = eqb p.accepted 0 && eqb p.marked 0 && ltb 0 p.refused && eqb p.unknown 0

-- Since when every DELETE has been refused.
abbrev pub refusing : DeletePass → ℕ → Option ℕ → Option ℕ
refusing p now none = if is_refused p then some now else none
refusing p now (some t) = if is_refused p then some t else none

abbrev pub waited_out : ℕ → ℕ → Option ℕ → Bool
waited_out grace now none = false
waited_out grace now (some t) = leb grace (now - t)

module _ {S : Type 0} (cluster : Cluster S) where
  unfoldable pub count_kinds : List Text → List Gvr → Count → S → Count × S
  count_kinds skip [] c s = (c, s)
  count_kinds skip (g ∷ gvrs) c s =
      let (l, after) = cluster.list g s in count_kinds skip gvrs (count_listing skip g l c) after

  -- `countAndNameIn`.
  unfoldable pub count_and_name_in : List Gvr → Phase S → Count × Phase S
  count_and_name_in gvrs s =
      let (c, after) =
        count_kinds s.forbidden gvrs (record { present = 0; unknown = 0; names = [] }) s.world in
      (c, record s { world = after; log = recounted c.present c.unknown ∷ s.log })

  -- The end of a phase that gives up: what remains is counted anew, or is what the last pass has seen.
  abbrev pub give_up : ℕ → Option ℕ → Count × Phase S → Drained × Phase S
  give_up deleted none (c, s) =
      (record { deleted = deleted; remaining = c.present + c.unknown; stuck = c.names }, s)
  give_up deleted (some left) (c, s) =
      (record { deleted = deleted; remaining = left; stuck = c.names }, s)

  -- What follows a pass.
  abbrev pub after_pass :
      List Gvr
      → Limits
      → ℕ
      → Option ℕ
      → DeletePass × Phase S
      → (ℕ → Option ℕ → Phase S → Option (Drained × Phase S))
      → Option (Drained × Phase S)
  after_pass gvrs limits deleted since (p, s) rest =
      let total = deleted + p.accepted in
      let now = cluster.now s.world in
      let still = refusing p now since in
      let (done, after) = cluster.wait s.world in
      let later = record s { world = after } in
      if eqb p.present 0 && eqb p.unknown 0
      then some (record { deleted = total; remaining = 0; stuck = [] }, s)
      else if waited_out limits.refusal_grace now still
      then some (give_up total (some (p.present + p.unknown)) (count_and_name_in gvrs s))
      else if leb limits.deadline now
      then some (give_up total none (count_and_name_in gvrs s))
      else if done
      then some (give_up total none (count_and_name_in gvrs later))
      else rest total still later

  -- `drainPhase`; `none` is the end of the fuel.
  unfoldable pub drain_phase :
      ℕ → List Gvr → Limits → ℕ → Option ℕ → Phase S → Option (Drained × Phase S)
  drain_phase zero gvrs limits deleted since s = none
  drain_phase (suc fuel) gvrs limits deleted since s =
      after_pass gvrs limits deleted since (delete_all_in cluster gvrs s)
        (λ total still later. drain_phase fuel gvrs limits total still later)

  -- A phase begins with nothing recorded; one of no kinds is passed over.
  abbrev pub run_phase : ℕ → List Gvr → Limits → Phase S → Option (Drained × Phase S)
  run_phase fuel [] limits s = some (record { deleted = 0; remaining = 0; stuck = [] }, s)
  run_phase fuel (g ∷ gvrs) limits s =
      drain_phase fuel (g ∷ gvrs) limits 0 none (record s { forbidden = []; deleted_uid = [] })

  abbrev pub added : ℕ → Option (Drained × Phase S) → Option (Drained × Phase S)
  added deleted none = none
  added deleted (some (d, s)) = some (record d { deleted = deleted + d.deleted }, s)

  -- What follows the leaves.
  abbrev pub then_roots :
      ℕ → List Gvr → Limits → Option (Drained × Phase S) → Option (Drained × Phase S)
  then_roots fuel roots limits none = none
  then_roots fuel roots limits (some (d, s)) =
      let second = added d.deleted (run_phase fuel roots limits s) in
      if ltb 0 d.remaining then some (d, s) else second

  -- `drainBNKCustomResources`.
  unfoldable pub drain_bnk_custom_resources : ℕ → List Gvr → ℕ → ℕ → S → Option (Drained × Phase S)
  drain_bnk_custom_resources fuel gvrs timeout refusal_grace world =
      let limits : Limits = record {
        deadline = cluster.now world + timeout;
        refusal_grace = refusal_grace;
      } in
      then_roots fuel (roots_of gvrs) limits (
        run_phase fuel (leaves_of gvrs) limits
          (record { world = world; forbidden = []; deleted_uid = []; log = [] }))
