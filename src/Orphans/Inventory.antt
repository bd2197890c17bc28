-- ===== src/Orphans/Inventory.antt =====
-- internal/ibm/orphans.go, FindOrphans and findBNKTrustedProfile: which resources a cleanup finds.
-- The answers of the cloud's listing calls are a parameter; a call that fails answers `none`.
use roksbnkctl.Prelude.{
  false, ◌&&◌, Option, none, some, List, [], ◌∷◌, ◌++◌, if◌then◌else◌, Text, lit, empty, ◌==◌,
  has_prefix, contains,
}
use roksbnkctl.Orphans.{
  OrphanResource, SweepScope, mark_protected, matches_prefix, vpc_collections, dedupe_non_empty,
}

pub record Named : Type 0 where
  pub id : Text
  pub name : Text
  pub crn : Text

-- `collection region name` lists one VPC collection; `profiles` stands for Verify and the listing of
-- the account's trusted profiles.
pub record Listings : Type 0 where
  pub collection : Text → Text → Option (List Named)
  pub transit_gateways : Option (List Named)
  pub cos_instances : Option (List Named)
  pub cluster : Text → Option Named
  pub profiles : Option (List Named)

abbrev pub listed : Option (List Named) → List Named
listed none = []
listed (some items) = items

-- The resources of a listing whose names belong to the prefix.
unfoldable pub found_of : Text → (Named → OrphanResource) → List Named → List OrphanResource
found_of prefix make [] = []
found_of prefix make (it ∷ items) =
    let rest = found_of prefix make items in
    if matches_prefix it.name prefix then make it ∷ rest else rest

abbrev pub of_vpc : Text → Text → Named → OrphanResource
of_vpc kind region it = record {
  kind = kind;
  id = it.id;
  name = it.name;
  region = region;
  crn = it.crn;
  protected = false;
  protected_by = empty;
}

abbrev pub global : Text → Text → Text → OrphanResource
global kind id name = record {
  kind = kind;
  id = id;
  name = name;
  region = empty;
  crn = empty;
  protected = false;
  protected_by = empty;
}

module _ (listings : Listings) (prefix : Text) where
  unfoldable pub in_region : Text → List (Text × Text) → List OrphanResource
  in_region region [] = []
  in_region region ((kind, collection) ∷ vcs) =
      found_of prefix (of_vpc kind region) (listed (listings.collection region collection))
      ++ in_region region vcs

  unfoldable pub in_regions : List Text → List OrphanResource
  in_regions [] = []
  in_regions (region ∷ regions) = in_region region vpc_collections ++ in_regions regions

abbrev pub named_cluster : Option Named → List OrphanResource
named_cluster none = []
named_cluster (some info) =
    if info.id == empty then [] else global (lit "cluster") info.id info.name ∷ []

-- The loop of findBNKTrustedProfile.
unfoldable pub find_profile : Text → List Named → Option OrphanResource
find_profile cluster_id [] = none
find_profile cluster_id (p ∷ profiles) =
    let rest = find_profile cluster_id profiles in
    if has_prefix p.name cluster_id && contains p.name (lit "f5-cne-controller")
    then some (global (lit "trusted_profile") p.id p.name)
    else rest

abbrev pub to_list : Option OrphanResource → List OrphanResource
to_list none = []
to_list (some o) = o ∷ []

abbrev pub of_gateway : Named → OrphanResource
of_gateway t = global (lit "transit_gateway") t.id t.name

abbrev pub of_cos : Named → OrphanResource
of_cos c = global (lit "cos_instance") c.crn c.name

-- The profile is looked for only where the cluster is known.
unfoldable pub profile_of : Listings → SweepScope → List OrphanResource
unfolding find_profile
profile_of listings scope =
    if scope.cluster_id == empty
    then []
    else to_list (find_profile scope.cluster_id (listed listings.profiles))

unfoldable pub collected : Listings → SweepScope → List OrphanResource
unfolding in_regions in_region found_of profile_of
collected listings scope =
    in_regions listings scope.prefix (dedupe_non_empty scope.regions)
    ++ (found_of scope.prefix of_gateway (listed listings.transit_gateways)
        ++ (found_of scope.prefix of_cos (listed listings.cos_instances)
            ++ (named_cluster (listings.cluster scope.prefix) ++ profile_of listings scope)))

unfoldable pub find_orphans : Listings → SweepScope → List OrphanResource
unfolding collected mark_protected
find_orphans listings scope = mark_protected (collected listings scope) scope.adopted
