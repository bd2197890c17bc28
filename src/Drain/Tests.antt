-- ===== src/Drain/Tests.antt =====
-- Runs of a drain over a small cluster, and the theorems at it.
use roksbnkctl.Prelude.{
  All, map, ℕ, suc, ◌≡◌, ◌≢◌, ◌≤◌, refl, arith, Bool, true, false, Option, none, some, List, [],
  ◌∷◌, if◌then◌else◌, any, Text, lit, ◌==◌, contains, has_prefix,
}
use roksbnkctl.Snapshot.{precedes}
use roksbnkctl.Drain.{
  Gvr, Object, ApiError, listed, Cluster, requested, passed, recounted, Event, Phase, is_root,
  flo_managed_component, leaves_of, roots_of, webhook_refusal, webhook_denial, has_other,
  delete_object, delete_objects, delete_kinds, delete_all_in,
}
use roksbnkctl.Drain.Phases.{
  insert_name, count_objects, count_kinds, count_and_name_in, Drained, drain_phase,
  drain_bnk_custom_resources,
}
use roksbnkctl.Orphans.{dedupe_non_empty}
use roksbnkctl.Drain.Selection.{
  ApiResourceList, drain_groups_for_line, has_verb, deletable_of, insert_kind, sort_kinds, selected,
  select_bnk_resources, drain_namespaces, sweep_bnk_custom_resources,
}
use roksbnkctl.Drain.Swept.{
  IsSelected, IsKept, AreDrained, namespaces_of, sweep_bnk_custom_resources-IsSwept,
}
use roksbnkctl.Drain.Turns.{IsOrdered, drain_bnk_custom_resources-IsOrdered}
use roksbnkctl.Drain.Rounds.{IsClock, drain_bnk_custom_resources-ne-none}

drains : Unit {0}
unfolding lit ◌==◌ contains has_prefix precedes is_root flo_managed_component leaves_of roots_of
    webhook_refusal webhook_denial has_other delete_object delete_objects delete_kinds delete_all_in
    insert_name count_objects count_kinds count_and_name_in drain_phase drain_bnk_custom_resources
    dedupe_non_empty drain_groups_for_line has_verb deletable_of insert_kind sort_kinds selected
    select_bnk_resources drain_namespaces sweep_bnk_custom_resources
drains = tt

abbrev cne : Gvr
cne = record { group = lit "k8s.f5.com"; version = lit "v1"; resource = lit "cneinstances" }

abbrev tmm : Gvr
tmm = record { group = lit "k8s.f5.com"; version = lit "v1"; resource = lit "f5tmms" }

abbrev vlan : Gvr
vlan = record { group = lit "k8s.f5net.com"; version = lit "v1"; resource = lit "vlans" }

abbrev kinds : List Gvr
kinds = cne ∷ tmm ∷ vlan ∷ []

-- The time, the objects that are there as keys, and whether a webhook is in the way.
abbrev World : Type 0
World = ℕ × List Text × Bool

abbrev there : Gvr → World → List Object
there g (t, keys, blocked) =
    if any (λ k. k == g.resource) keys
    then record { name = lit "a"; uid = lit "1"; is_deleting = false } ∷ []
    else []

abbrev without : Text → List Text → List Text
without key [] = []
without key (k ∷ keys) = if k == key then without key keys else k ∷ without key keys

abbrev refusal : ApiError
refusal = record { text = lit "failed calling webhook"; not_found = false; type_gone = false }

abbrev removed : Gvr → World → Option ApiError × World
removed g (t, keys, true) = (some refusal, (t, keys, true))
removed g (t, keys, false) = (none, (t, without g.resource keys, false))

-- A cluster whose webhook goes when it is removed, or one that nothing is removed from.
abbrev cluster : Option (World → World) → Cluster World
cluster act = record {
  list = λ g w. (listed (there g w), w);
  delete = λ g name w. removed g w;
  neutralise = act;
  now = λ w. w.0;
  wait = λ w. (false, (suc w.0, w.1, w.2));
}

abbrev unblocked : World → World
unblocked w = (w.0, w.1, false)

abbrev world : World
world = (0, lit "cneinstances" ∷ lit "f5tmms" ∷ lit "vlans" ∷ [], true)

abbrev log_of : Option (Drained × Phase World) → List Event
log_of none = []
log_of (some r) = r.1.log

abbrev drained_of : Option (Drained × Phase World) → Option Drained
drained_of none = none
drained_of (some r) = some r.0

drain_tests :
    (log_of (drain_bnk_custom_resources (cluster (some unblocked)) 10 kinds 4 2 world)
      ≡ passed 0 0
        ∷ passed 1 0
        ∷ requested cne (lit "a")
        ∷ passed 0 0
        ∷ passed 1 0
        ∷ requested vlan (lit "a")
        ∷ requested vlan (lit "a")
        ∷ [])
    × (drained_of (drain_bnk_custom_resources (cluster none) 10 kinds 9 2 world)
        ≡ some (record { deleted = 0; remaining = 1; stuck = lit "vlans/a" ∷ [] }))
unfolding drains
drain_tests = (refl, refl)

abbrev ended : Drained × Phase World
ended = (
  record { deleted = 0; remaining = 1; stuck = lit "vlans/a" ∷ [] },
  record {
    world = (2, lit "cneinstances" ∷ lit "f5tmms" ∷ lit "vlans" ∷ [], true);
    forbidden = [];
    deleted_uid = [];
    log =
        recounted 1 0
        ∷ passed 1 0
        ∷ requested vlan (lit "a")
        ∷ passed 1 0
        ∷ requested vlan (lit "a")
        ∷ passed 1 0
        ∷ requested vlan (lit "a")
        ∷ [];
  },
)

ended_run : drain_bnk_custom_resources (cluster none) 10 kinds 9 2 world ≡ some ended
unfolding drains
ended_run = refl

drain_bnk_custom_resources-IsOrdered_example : IsOrdered kinds ended.1.log
drain_bnk_custom_resources-IsOrdered_example =
    drain_bnk_custom_resources-IsOrdered World (cluster none) 10 kinds 9 2 world ended ended_run

removed_le : (g : Gvr) (w : World) → w.0 ≤ (removed g w).1.0
removed_le g (t, keys, true) = omega arith
removed_le g (t, keys, false) = omega arith

cluster-IsClock : IsClock (cluster none)
cluster-IsClock = record {
  list_le = λ g s. omega arith;
  delete_le = λ g name s. removed_le g s;
  act_le = λ act s h. ground (arith, h);
  wait_lt = λ s h. omega arith;
  wait_le = λ s. omega arith;
}

drain_bnk_custom_resources-ne-none_example :
    drain_bnk_custom_resources (cluster none) (suc 9) kinds 9 2 world ≢ none
drain_bnk_custom_resources-ne-none_example =
    drain_bnk_custom_resources-ne-none World (cluster none) 9 kinds 9 2 world cluster-IsClock
      (omega arith)

-- A parser that knows three groups.
abbrev parse_gv : Text → Option (Text × Text)
parse_gv t =
    if t == lit "k8s.f5.com/v1"
    then some (lit "k8s.f5.com", lit "v1")
    else if t == lit "k8s.f5net.com/v1"
    then some (lit "k8s.f5net.com", lit "v1")
    else if t == lit "apps/v1"
    then some (lit "apps", lit "v1")
    else none

abbrev all_verbs : List Text
all_verbs = lit "delete" ∷ lit "list" ∷ []

abbrev discovered : List (Option ApiResourceList)
discovered =
    some (record {
      group_version = lit "k8s.f5net.com/v1";
      resources =
          record { kind = lit "vlans"; verbs = all_verbs }
          ∷ record { kind = lit "logs"; verbs = lit "deletecollection" ∷ lit "list" ∷ [] }
          ∷ [];
    })
    ∷ none
    ∷ some (record {
      group_version = lit "k8s.f5.com/v1";
      resources =
          record { kind = lit "f5tmms"; verbs = all_verbs }
          ∷ record { kind = lit "cneinstances"; verbs = all_verbs }
          ∷ [];
    })
    ∷ some (record {
      group_version = lit "apps/v1";
      resources = record { kind = lit "pods"; verbs = all_verbs } ∷ [];
    })
    ∷ []

abbrev swept : List (Text × List Event) × World
swept = (
  (
    lit "flo",
    passed 0 0
        ∷ passed 1 0
        ∷ requested cne (lit "a")
        ∷ passed 0 0
        ∷ passed 1 0
        ∷ requested vlan (lit "a")
        ∷ requested vlan (lit "a")
        ∷ [],
  )
      ∷ (lit "utils", passed 0 0 ∷ passed 0 0 ∷ [])
      ∷ [],
  (2, lit "f5tmms" ∷ [], false),
)

select_tests :
    (select_bnk_resources parse_gv discovered (lit "2.3") ≡ kinds)
    × (select_bnk_resources parse_gv discovered (lit "2.4") ≡ cne ∷ tmm ∷ [])
unfolding drains
select_tests = (refl, refl)

swept_run :
    sweep_bnk_custom_resources
      (λ ns. cluster (some unblocked))
      10
      (select_bnk_resources parse_gv discovered (lit "2.3"))
      4
      2
      (lit "flo")
      (lit "utils")
      world
    ≡ some swept
unfolding drains
swept_run = refl

sweep_bnk_custom_resources-IsSwept_example :
    (map (λ (e : Text × List Event). e.0) swept.0
      ≡ namespaces_of
          (select_bnk_resources parse_gv discovered (lit "2.3"))
          (lit "flo")
          (lit "utils"))
    × AreDrained
        (λ ns. cluster (some unblocked))
        10
        (select_bnk_resources parse_gv discovered (lit "2.3"))
        4
        2
        world
        swept.0
        swept.1
    × All
        (λ e.
          IsKept
            (select_bnk_resources parse_gv discovered (lit "2.3"))
            (IsSelected parse_gv (drain_groups_for_line (lit "2.3")) discovered)
            e.1)
        swept.0
sweep_bnk_custom_resources-IsSwept_example =
    sweep_bnk_custom_resources-IsSwept World (λ ns. cluster (some unblocked)) parse_gv discovered
      (lit "2.3") 10 4 2 (lit "flo") (lit "utils") world swept swept_run
