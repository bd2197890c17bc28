-- ===== src/Orphans/Scope.antt =====
-- internal/ibm/orphans.go, FindOrphans: which resources belong to the scope of a cleanup.
use mathlib.Core.List.{append_assoc}
use roksbnkctl.Prelude.{
  ◌≡◌, ◌≢◌, ◌⊎◌, refl, ap, ap₂, sym, subst, eqb_iff, ==_sound, ==_iff, true, false, ◌∙◌, inl, inr,
  ◌&&◌, Option, none, some, List, [], ◌∷◌, ◌++◌, arith, Bool-cases, All, All-append, Text, lit,
  empty, ◌==◌, ==_refl, has_prefix, contains,
}
use roksbnkctl.Orphans.{
  OrphanResource, AdoptedRef, SweepScope, mark_protected, matches_prefix, vpc_collections,
  dedupe_non_empty,
}
use roksbnkctl.Orphans.Adopted.{IsMarked, mark_one-IsMarked}
use roksbnkctl.Orphans.Inventory.{
  Named, Listings, listed, found_of, of_vpc, in_region, in_regions, named_cluster, find_profile,
  to_list, of_gateway, of_cos, profile_of, collected, find_orphans,
}

-- A name of the workspace: the prefix, or what begins with the prefix and a dash.
abbrev pub IsNameOf : Text → Text → Type 0
IsNameOf prefix name =
    (prefix ≢ empty) × ((name ≡ prefix) ⊎ ((rest : Text) × (name ≡ prefix ++ b'-' ∷ rest)))

-- The cluster that is looked up by the prefix.
abbrev pub IsClusterOf : Listings → Text → OrphanResource → Type 0
IsClusterOf listings prefix o =
    (info : Named) × (listings.cluster prefix ≡ some info)
    × (info.id ≢ empty)
    × (o.kind ≡ lit "cluster")
    × (o.id ≡ info.id)
    × (o.name ≡ info.name)

-- A trusted profile of the BNK controller on a cluster.
abbrev pub IsProfileOf : Text → OrphanResource → Type 0
IsProfileOf cluster_id o =
    (cluster_id ≢ empty)
    × (o.kind ≡ lit "trusted_profile")
    × ((rest : Text) × (o.name ≡ cluster_id ++ rest))
    × ((before after : Text) × (o.name ≡ before ++ (lit "f5-cne-controller" ++ after)))

-- A resource that the sweep may name.
abbrev pub BelongsTo : Listings → SweepScope → OrphanResource → Type 0
BelongsTo listings scope o =
    IsNameOf scope.prefix o.name
    ⊎ (IsClusterOf listings scope.prefix o ⊎ IsProfileOf scope.cluster_id o)

has_prefix-append : (s t : Text) → has_prefix s t ≡ true → (rest : Text) × (s ≡ t ++ rest)
unfolding has_prefix
has_prefix-append s [] h = (s, refl)
has_prefix-append [] (d ∷ t) h = ground arith
has_prefix-append (c ∷ s) (d ∷ t) h =
    let (rest, e) = has_prefix-append s t (ground arith) in
    (rest, ap₂ (λ x l. x ∷ l) (ground (arith, eqb_iff c d)) e)

contains-append :
    (s t : Text) → contains s t ≡ true → (before after : Text) × (s ≡ before ++ (t ++ after))
unfolding contains
contains-append [] t h = let (rest, e) = has_prefix-append [] t h in ([], rest, e)
contains-append (c ∷ s) t h = elim (Bool-cases (has_prefix (c ∷ s) t)) [
  | inl here ↦ let (rest, e) = has_prefix-append (c ∷ s) t here in ([], rest, e)
  | inr later ↦
      let (before, after, e) = contains-append s t (ground arith) in
      (c ∷ before, after, ap (λ l. c ∷ l) e)
]

differs : (s t : Text) → (s == t) ≡ false → s ≢ t
differs s t h e = ground (arith, ==_iff s t)

matches_prefix-IsNameOf :
    (name prefix : Text) → matches_prefix name prefix ≡ true → IsNameOf prefix name
unfolding matches_prefix lit
matches_prefix-IsNameOf name prefix h = elim (Bool-cases (prefix == empty)) [
  | inl none_set ↦ ground arith
  | inr set ↦ elim (Bool-cases (name == prefix)) [
    | inl same ↦ (differs prefix empty set, inl (==_sound name prefix same))
    | inr other ↦
        let (rest, e) = has_prefix-append name (prefix ++ lit "-") (ground arith) in
        (differs prefix empty set, inr (rest, e ∙ append_assoc prefix (lit "-") rest))
  ]
]

module _ (listings : Listings) (scope : SweepScope) where
  found_of-BelongsTo :
      (make : Named → OrphanResource) (items : List Named)
      → ((it : Named) → (make it).name ≡ it.name)
      → All (BelongsTo listings scope) (found_of scope.prefix make items)
  unfolding found_of
  found_of-BelongsTo make [] same = tt
  found_of-BelongsTo make (it ∷ items) same =
      let later = found_of-BelongsTo make items same in
      elim (Bool-cases (matches_prefix it.name scope.prefix)) [
        | inl own ↦
            rw own (inl (rw (same it) (matches_prefix-IsNameOf it.name scope.prefix own)), later)
        | inr other ↦ rw other later
      ]

  in_region-BelongsTo :
      (region : Text) (vcs : List (Text × Text))
      → All (BelongsTo listings scope) (in_region listings scope.prefix region vcs)
  unfolding in_region
  in_region-BelongsTo region [] = tt
  in_region-BelongsTo region ((kind, collection) ∷ vcs) =
      All-append (BelongsTo listings scope) _ _
        (found_of-BelongsTo (of_vpc kind region) (listed (listings.collection region collection))
          (λ it. refl))
        (in_region-BelongsTo region vcs)

  in_regions-BelongsTo :
      (regions : List Text)
      → All (BelongsTo listings scope) (in_regions listings scope.prefix regions)
  unfolding in_regions
  in_regions-BelongsTo [] = tt
  in_regions-BelongsTo (region ∷ regions) =
      All-append (BelongsTo listings scope) _ _ (in_region-BelongsTo region vpc_collections)
        (in_regions-BelongsTo regions)

  named_cluster-BelongsTo :
      (o : Option Named)
      → listings.cluster scope.prefix ≡ o
      → All (BelongsTo listings scope) (named_cluster o)
  named_cluster-BelongsTo none answer = tt
  named_cluster-BelongsTo (some info) answer = elim (Bool-cases (info.id == empty)) [
    | inl e ↦ rw e tt
    | inr e ↦ rw e (inr (inl (info, answer, differs info.id empty e, refl, refl, refl)), tt)
  ]

  find_profile-BelongsTo :
      (profiles : List Named)
      → scope.cluster_id ≢ empty
      → All (BelongsTo listings scope) (to_list (find_profile scope.cluster_id profiles))
  unfolding find_profile
  find_profile-BelongsTo [] n = tt
  find_profile-BelongsTo (p ∷ profiles) n =
      elim (Bool-cases
        (has_prefix p.name scope.cluster_id && contains p.name (lit "f5-cne-controller"))) [
          | inl e ↦ rw e (
            inr (
                inr (
                  n,
                  refl,
                  has_prefix-append p.name scope.cluster_id (ground arith),
                  contains-append p.name (lit "f5-cne-controller") (ground arith),
                )),
            tt,
          )
          | inr e ↦ rw e (find_profile-BelongsTo profiles n)
        ]

  profile_of-BelongsTo : All (BelongsTo listings scope) (profile_of listings scope)
  unfolding profile_of
  profile_of-BelongsTo = elim (Bool-cases (scope.cluster_id == empty)) [
    | inl e ↦ rw e tt
    | inr e ↦ rw e (
        find_profile-BelongsTo (listed listings.profiles)
          (λ q. ground (arith, ap (λ t. t == empty) q, ==_refl empty)))
  ]

  collected-BelongsTo : All (BelongsTo listings scope) (collected listings scope)
  unfolding collected
  collected-BelongsTo =
      let gateways = found_of scope.prefix of_gateway (listed listings.transit_gateways) in
      let cos = found_of scope.prefix of_cos (listed listings.cos_instances) in
      let clusters = named_cluster (listings.cluster scope.prefix) in
      let profiles = profile_of listings scope in
      All-append (BelongsTo listings scope)
        (in_regions listings scope.prefix (dedupe_non_empty scope.regions))
        (gateways ++ (cos ++ (clusters ++ profiles)))
        (in_regions-BelongsTo (dedupe_non_empty scope.regions))
        (All-append (BelongsTo listings scope) gateways (cos ++ (clusters ++ profiles))
          (found_of-BelongsTo of_gateway (listed listings.transit_gateways) (λ it. refl))
          (All-append (BelongsTo listings scope) cos (clusters ++ profiles)
            (found_of-BelongsTo of_cos (listed listings.cos_instances) (λ it. refl))
            (All-append (BelongsTo listings scope) clusters profiles
              (named_cluster-BelongsTo (listings.cluster scope.prefix) refl) profile_of-BelongsTo)))

  -- A mark changes nothing that tells where a resource belongs.
  BelongsTo-IsMarked :
      {adopted : List AdoptedRef} {o m : OrphanResource}
      → IsMarked adopted o m
      → BelongsTo listings scope o
      → BelongsTo listings scope m
  BelongsTo-IsMarked k (inl named) = inl (subst (IsNameOf scope.prefix) (sym k.same_name) named)
  BelongsTo-IsMarked k (inr (inl (info, answer, some_id, kind, id, name))) =
      inr (inl (info, answer, some_id, k.same_kind ∙ kind, k.same_id ∙ id, k.same_name ∙ name))
  BelongsTo-IsMarked k (inr (inr (known, kind, (rest, begins), (before, after, holds)))) = inr (
      inr (
        known,
        k.same_kind ∙ kind,
        (rest, k.same_name ∙ begins),
        (before, after, k.same_name ∙ holds),
      ))

  mark_protected-BelongsTo :
      (found : List OrphanResource) (adopted : List AdoptedRef)
      → All (BelongsTo listings scope) found
      → All (BelongsTo listings scope) (mark_protected found adopted)
  unfolding mark_protected
  mark_protected-BelongsTo [] adopted h = tt
  mark_protected-BelongsTo (o ∷ found) adopted (p, h) =
      (BelongsTo-IsMarked (mark_one-IsMarked adopted o) p, mark_protected-BelongsTo found adopted h)

-- Whatever the cloud lists, every resource that a sweep finds belongs to its scope: it is named by the prefix, which is not
-- empty, or by the prefix, a dash and anything; or it is the cluster that the lookup of the prefix returns, with an id;
-- or a trusted profile whose name begins with the scope's cluster id, which is not empty, and contains f5-cne-controller.
pub find_orphans-BelongsTo :
    (listings : Listings) (scope : SweepScope)
    → All (BelongsTo listings scope) (find_orphans listings scope)
unfolding find_orphans
find_orphans-BelongsTo listings scope =
    mark_protected-BelongsTo listings scope (collected listings scope) scope.adopted
      (collected-BelongsTo listings scope)
