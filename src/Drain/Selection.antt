-- ===== src/Drain/Selection.antt =====
-- Which kinds a sweep may delete (selectBNKResources, drainGroupsForLine, and BNKCRDGroups of
-- internal/orchestration/bnk_teardown_cleanup.go), and the sweep over a workspace's namespaces. What discovery returns and the
-- parser of a group and version are parameters.
use roksbnkctl.Prelude.{
  ℕ, Bool, ◌&&◌, ◌||◌, Option, none, some, List, [], ◌∷◌, ◌++◌, if◌then◌else◌, any, is_nil, Text,
  lit, empty, ◌==◌,
}
use roksbnkctl.Snapshot.{precedes}
use roksbnkctl.Orphans.{dedupe_non_empty}
use roksbnkctl.Drain.{Gvr, Cluster, Event}
use roksbnkctl.Drain.Phases.{drain_bnk_custom_resources}

abbrev pub bnk_crd_groups : List Text
bnk_crd_groups =
    lit "k8s.f5.com"
    ∷ lit "k8s.f5net.com"
    ∷ lit "gateway.k8s.f5.com"
    ∷ lit "fic.f5.com"
    ∷ lit "metrics.f5.com"
    ∷ []

-- `drainGroupsForLine`.
unfoldable pub drain_groups_for_line : Text → List Text
drain_groups_for_line line =
    if line == lit "2.4"
    then lit "gateway.k8s.f5.com" ∷ lit "fic.f5.com" ∷ lit "k8s.f5.com" ∷ []
    else bnk_crd_groups

unfoldable pub has_verb : List Text → Text → Bool
has_verb verbs want = any (λ v. v == want) verbs

-- A resource that discovery returns, and the list of those of one group and version.
pub record ApiResource : Type 0 where
  pub kind : Text
  pub verbs : List Text

pub record ApiResourceList : Type 0 where
  pub group_version : Text
  pub resources : List ApiResource

abbrev pub is_deletable : ApiResource → Bool
is_deletable r = has_verb r.verbs (lit "list") && has_verb r.verbs (lit "delete")

unfoldable pub deletable_of : Text → Text → List ApiResource → List Gvr
deletable_of group version [] = []
deletable_of group version (r ∷ rs) =
    let rest = deletable_of group version rs in
    if is_deletable r
    then record { group = group; version = version; resource = r.kind } ∷ rest
    else rest

-- The order of the kinds: by group, then by resource.
abbrev pub comes_before : Gvr → Gvr → Bool
comes_before a b =
    if a.group == b.group then precedes a.resource b.resource else precedes a.group b.group

unfoldable pub insert_kind : Gvr → List Gvr → List Gvr
insert_kind g [] = g ∷ []
insert_kind g (h ∷ hs) =
    let rest = insert_kind g hs in if comes_before h g then h ∷ rest else g ∷ h ∷ hs

unfoldable pub sort_kinds : List Gvr → List Gvr
sort_kinds [] = []
sort_kinds (g ∷ gs) = insert_kind g (sort_kinds gs)

module _ (parse_group_version : Text → Option (Text × Text)) where
  abbrev pub selected_of : List Text → ApiResourceList → List Gvr
  selected_of groups rl = elim (parse_group_version rl.group_version) [
    | none ↦ []
    | some (group, version) ↦
        if any (λ g. g == group) groups then deletable_of group version rl.resources else []
  ]

  unfoldable pub selected : List Text → List (Option ApiResourceList) → List Gvr
  selected groups [] = []
  selected groups (none ∷ lists) = selected groups lists
  selected groups (some rl ∷ lists) = selected_of groups rl ++ selected groups lists

  -- `selectBNKResources`.
  unfoldable pub select_bnk_resources : List (Option ApiResourceList) → Text → List Gvr
  select_bnk_resources lists line = sort_kinds (selected (drain_groups_for_line line) lists)

-- The drains of some namespaces, one after the other, each with the log of its events.
unfoldable pub drain_namespaces :
    {S : Type 0}
    → (Text → Cluster S)
    → ℕ
    → List Gvr
    → ℕ
    → ℕ
    → List Text
    → S
    → Option (List (Text × List Event) × S)
drain_namespaces cluster fuel kinds timeout grace [] world = some ([], world)
drain_namespaces cluster fuel kinds timeout grace (ns ∷ rest) world =
    elim (drain_bnk_custom_resources (cluster ns) fuel kinds timeout grace world) [
      | none ↦ none
      | some (d, s) ↦ elim (drain_namespaces cluster fuel kinds timeout grace rest s.world) [
        | none ↦ none
        | some (logs, after) ↦ some ((ns, s.log) ∷ logs, after)
      ]
    ]

-- `sweepBNKCustomResources` on a cluster that can be reached, for the kinds that were discovered.
unfoldable pub sweep_bnk_custom_resources :
    {S : Type 0}
    → (Text → Cluster S)
    → ℕ
    → List Gvr
    → ℕ
    → ℕ
    → Text
    → Text
    → S
    → Option (List (Text × List Event) × S)
sweep_bnk_custom_resources cluster fuel kinds timeout grace flo utils world =
    if flo == empty || is_nil kinds
    then some ([], world)
    else drain_namespaces cluster fuel kinds timeout grace (dedupe_non_empty (flo ∷ utils ∷ []))
        world
