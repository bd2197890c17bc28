-- ===== src/Orphans/Tests.antt =====
-- Runs of the cleanup on a small account, and its theorems there.
use mathlib.Core.List.{Memᴰ}
use roksbnkctl.Prelude.{
  ℕ, ◌+◌, ◌≡◌, ◌≢◌, ◌↔◌, refl, true, false, none, some, List, [], ◌∷◌, arith, ltb, if◌then◌else◌,
  All, Text, lit, empty, ◌==◌, has_prefix, contains, equal_fold, to_lower, trim_space,
}
use roksbnkctl.Orphans.{
  OrphanResource, AdoptedRef, SweepScope, applies, mark_one, mark_protected, sort_orphans,
  dedupe_non_empty, orphan_kind_order, insert_orphan, vpc_collection_for, matches_prefix,
  dedupe_from,
}
use roksbnkctl.Orphans.Order.{IsDistinct, dedupe_non_empty-IsDistinct}
use roksbnkctl.Orphans.Adopted.{AllMarked, mark_protected-AllMarked}
use roksbnkctl.Orphans.Inventory.{Named, Listings, find_orphans, collected}
use roksbnkctl.Orphans.Scope.{BelongsTo, find_orphans-BelongsTo}
use roksbnkctl.Orphans.Connections.{
  Connection, partition, swept_vpc_crns, ours, arriving, departing, in_flight, IsForeign,
  IsPartition, partition-IsPartition,
}
use roksbnkctl.Orphans.Gateway.{
  Request, Failure, Cloud, Session, delete_orphan, delete_transit_gateway, settle_rounds,
  clear_rounds, keep_in_flight, keep_arriving, detach_all, delete_one, delete_cleared,
  delete_settled, send,
}
use roksbnkctl.Orphans.Gateway.Rounds.{IsTimed, delete_transit_gateway-ne-none}
use roksbnkctl.Orphans.Gateway.Requests.{
  IsTeardown, delete_transit_gateway-IsTeardown, delete_transit_gateway-foreign,
}
use roksbnkctl.Orphans.Gateway.Protection.{delete_orphan-mark_one}

abbrev vpc : OrphanResource
vpc = record {
  kind = lit "vpc";
  id = lit "v1";
  name = lit "dev-vpc";
  region = lit "us";
  crn = lit "CRN";
  protected = false;
  protected_by = empty;
}

abbrev subnet : OrphanResource
subnet = record {
  kind = lit "subnet";
  id = lit "s1";
  name = lit "dev-net";
  region = lit "us";
  crn = empty;
  protected = false;
  protected_by = empty;
}

abbrev keep_vpc : AdoptedRef
keep_vpc = record { kind = lit "vpc"; value = lit "DEV-vpc"; source = lit "cluster.vpc" }

abbrev attached : Connection
attached = record {
  id = lit "c1";
  name = lit "one";
  network_type = lit "vpc";
  network_id = lit "crn";
  status = lit "attached";
}

abbrev foreign : Connection
foreign = record {
  id = lit "c2";
  name = lit "two";
  network_type = lit "vpc";
  network_id = lit "elsewhere";
  status = lit "attached";
}

-- A cloud whose state is its clock: a DELETE takes ten seconds, and the connections are gone after
-- twelve.
abbrev toy : List Connection → Cloud ℕ
toy conns = record {
  list_connections = λ id t. (some (if ltb t 12 then conns else []), t);
  delete = λ req t. (false, t + 10);
  wait = λ d t. (false, t + d);
  now = λ t. t;
}

abbrev start : Session ℕ
start = record { world = 0; sent = [] }

toy-IsTimed : (conns : List Connection) → IsTimed (toy conns)
toy-IsTimed conns = record { listing = λ id w. omega arith; waiting = λ d w h. omega arith }

cleanup : Unit {0}
unfolding lit ◌==◌ equal_fold to_lower trim_space has_prefix contains applies mark_one
    mark_protected sort_orphans insert_orphan orphan_kind_order dedupe_non_empty dedupe_from
    partition ours arriving departing in_flight delete_orphan delete_transit_gateway settle_rounds
    clear_rounds keep_in_flight keep_arriving detach_all delete_one delete_cleared delete_settled
    send swept_vpc_crns vpc_collection_for find_orphans collected matches_prefix
cleanup = tt

abbrev torn_down : Session ℕ
torn_down = record {
  world = 25;
  sent = Request.detach (lit "g") attached ∷ Request.gateway (lit "g") ∷ [];
}

gateway_tests :
    delete_transit_gateway (toy (attached ∷ [])) 62 (lit "g") (lit "crn" ∷ []) start
    ≡ some (none, torn_down)
unfolding cleanup
gateway_tests = refl

sweep_tests :
    (sort_orphans (vpc ∷ subnet ∷ []) ≡ subnet ∷ vpc ∷ [])
    × (dedupe_non_empty (lit "us" ∷ empty ∷ lit "us" ∷ lit "eu" ∷ []) ≡ lit "us" ∷ lit "eu" ∷ [])
    × (delete_orphan (toy []) 62 subnet (subnet ∷ []) start
        ≡ some (
          none,
          record {
            world = 10;
            sent = Request.vpc_resource (lit "us") (lit "subnets") (lit "s1") ∷ [];
          },
        ))
unfolding cleanup
sweep_tests = (refl, refl, refl)

delete_transit_gateway-IsTeardown_example :
    IsTeardown (lit "g") (lit "crn" ∷ []) none start torn_down
delete_transit_gateway-IsTeardown_example =
    delete_transit_gateway-IsTeardown (toy (attached ∷ [])) (lit "g") (lit "crn" ∷ []) start 62 none
      torn_down gateway_tests

foreign_lem : IsForeign (lit "crn" ∷ []) foreign
unfolding cleanup
foreign_lem = (refl, refl)

delete_transit_gateway-foreign_example :
    (after : Session ℕ) × (delete_transit_gateway
        (toy (attached ∷ foreign ∷ []))
        62
        (lit "g")
        (lit "crn" ∷ [])
        start
      ≡ some (
        some (
            Failure.foreign_connections
              (partition (attached ∷ foreign ∷ []) (lit "crn" ∷ [])).foreign),
        after,
      ))
    × (after.sent ≡ [])
delete_transit_gateway-foreign_example =
    delete_transit_gateway-foreign (toy (attached ∷ foreign ∷ [])) (lit "g") (lit "crn" ∷ []) start
      62 (attached ∷ foreign ∷ []) foreign refl (Memᴰ.tail (Memᴰ.head refl)) foreign_lem

delete_transit_gateway-ne-none_example :
    delete_transit_gateway (toy (attached ∷ [])) 62 (lit "g") (lit "crn" ∷ []) start ≢ none
delete_transit_gateway-ne-none_example =
    delete_transit_gateway-ne-none (toy (attached ∷ [])) (toy-IsTimed (attached ∷ [])) 62 (lit "g")
      (lit "crn" ∷ []) start (omega arith)

keep_vpc-applies : applies keep_vpc vpc ≡ true
unfolding cleanup
keep_vpc-applies = refl

delete_orphan-mark_one_example :
    delete_orphan (toy []) 62 (mark_one (keep_vpc ∷ []) vpc) (vpc ∷ []) start
    ≡ some (some (Failure.protected_resource (mark_one (keep_vpc ∷ []) vpc)), start)
delete_orphan-mark_one_example =
    delete_orphan-mark_one (toy []) 62 vpc keep_vpc (keep_vpc ∷ []) (vpc ∷ []) start
      (Memᴰ.head refl) keep_vpc-applies

partition-IsPartition_example :
    IsPartition
      (attached ∷ foreign ∷ [])
      (lit "crn" ∷ [])
      (partition (attached ∷ foreign ∷ []) (lit "crn" ∷ []))
partition-IsPartition_example = partition-IsPartition (attached ∷ foreign ∷ []) (lit "crn" ∷ [])

abbrev scope : SweepScope
scope = record {
  prefix = lit "dev";
  cluster_id = lit "c9";
  regions = lit "us" ∷ [];
  adopted = keep_vpc ∷ [];
}

abbrev account : Listings
account = record {
  collection = λ region collection.
      if collection == lit "vpcs"
      then some (
          record { id = lit "v1"; name = lit "dev-vpc"; crn = lit "CRN" }
          ∷ record { id = lit "v2"; name = lit "devel"; crn = empty }
          ∷ [])
      else none;
  transit_gateways = none;
  cos_instances = some [];
  cluster = λ name. none;
  profiles = some (record { id = lit "p"; name = lit "c9-f5-cne-controller"; crn = empty } ∷ []);
}

find_orphans-BelongsTo_example : All (BelongsTo account scope) (find_orphans account scope)
find_orphans-BelongsTo_example = find_orphans-BelongsTo account scope

mark_protected-AllMarked_example :
    AllMarked
      (keep_vpc ∷ [])
      (vpc ∷ subnet ∷ [])
      (mark_protected (vpc ∷ subnet ∷ []) (keep_vpc ∷ []))
mark_protected-AllMarked_example = mark_protected-AllMarked (vpc ∷ subnet ∷ []) (keep_vpc ∷ [])

abbrev regions : List Text
regions = lit "us" ∷ empty ∷ lit "us" ∷ lit "eu" ∷ []

dedupe_non_empty-IsDistinct_example :
    IsDistinct (dedupe_non_empty regions)
    × ((s : Text) → Memᴰ s (dedupe_non_empty regions) ↔ (Memᴰ s regions × (s ≢ empty)))
dedupe_non_empty-IsDistinct_example = dedupe_non_empty-IsDistinct regions

abbrev listed_vpc : Named
listed_vpc = record { id = lit "v1"; name = lit "dev-vpc"; crn = lit "CRN" }

abbrev listed_vpcs : List Named
listed_vpcs = listed_vpc ∷ record { id = lit "v2"; name = lit "devel"; crn = empty } ∷ []
