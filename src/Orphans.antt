-- ===== src/Orphans.antt =====
-- internal/ibm/orphans.go: the cloud resources that a cleanup finds by name, which of them it must
-- leave alone, and the order in which it deletes them.
pub mod Order
pub mod Adopted
pub mod Inventory
pub mod Scope
pub mod Found
pub mod Connections
pub mod Gateway
mod Tests
use roksbnkctl.Prelude.{
  ℕ, ◌≡◌, Bool, true, false, not, ◌&&◌, ◌||◌, Option, none, some, List, [], ◌∷◌, ◌++◌, leb, ltb,
  if◌then◌else◌, is_nil, any, Text, lit, empty, ◌==◌, has_prefix, contains, equal_fold, to_lower,
}

pub record OrphanResource : Type 0 where
  pub kind : Text
  pub id : Text
  pub name : Text
  pub region : Text
  pub crn : Text
  pub protected : Bool
  pub protected_by : Text

pub record AdoptedRef : Type 0 where
  pub kind : Text
  pub value : Text
  pub source : Text

-- The test of the inner loop of markProtected.
unfoldable pub applies : AdoptedRef → OrphanResource → Bool
applies a o =
    not (a.value == empty)
    && (a.kind == empty || a.kind == o.kind)
    && (equal_fold a.value o.name || equal_fold a.value o.id || equal_fold a.value o.crn)

-- The inner loop of markProtected, which ends at the first reference that applies.
unfoldable pub mark_one : List AdoptedRef → OrphanResource → OrphanResource
mark_one [] o = o
mark_one (a ∷ adopted) o =
    if applies a o
    then record o { protected = true; protected_by = a.source }
    else mark_one adopted o

unfoldable pub mark_protected : List OrphanResource → List AdoptedRef → List OrphanResource
unfolding mark_one applies
mark_protected [] adopted = []
mark_protected (o ∷ found) adopted = mark_one adopted o ∷ mark_protected found adopted

pub record SweepScope : Type 0 where
  pub prefix : Text
  pub cluster_id : Text
  pub regions : List Text
  pub adopted : List AdoptedRef

unfoldable pub orphan_kind_order : Text → ℕ
orphan_kind_order kind =
    if kind == lit "cluster"
    then 0
    else if kind == lit "instance"
    then 1
    else if kind == lit "floating_ip"
    then 2
    else if kind == lit "transit_gateway"
    then 3
    else if kind == lit "public_gateway"
    then 4
    else if kind == lit "subnet"
    then 5
    else if kind == lit "security_group"
    then 6
    else if kind == lit "vpc"
    then 7
    else if kind == lit "cos_instance"
    then 8
    else if kind == lit "trusted_profile"
    then 9
    else 100

unfoldable pub matches_prefix : Text → Text → Bool
matches_prefix name prefix =
    if prefix == empty then false else name == prefix || has_prefix name (prefix ++ lit "-")

-- A kind and the collection of the VPC API that lists it. The source writes the answer's key as a
-- third word, the same as the second in every row.
unfoldable pub vpc_collections : List (Text × Text)
vpc_collections =
    (lit "instance", lit "instances")
    ∷ (lit "floating_ip", lit "floating_ips")
    ∷ (lit "public_gateway", lit "public_gateways")
    ∷ (lit "subnet", lit "subnets")
    ∷ (lit "security_group", lit "security_groups")
    ∷ (lit "ssh_key", lit "keys")
    ∷ (lit "vpc", lit "vpcs")
    ∷ []

find_collection : Text → List (Text × Text) → Text
find_collection kind [] = empty
find_collection kind ((k, collection) ∷ vcs) =
    if k == kind then collection else find_collection kind vcs

unfoldable pub vpc_collection_for : Text → Text
unfolding find_collection vpc_collections
vpc_collection_for kind = find_collection kind vpc_collections

-- `sort.SliceStable` by the kind's rank: equal ranks keep their order.
unfoldable pub insert_orphan : OrphanResource → List OrphanResource → List OrphanResource
insert_orphan o [] = o ∷ []
insert_orphan o (p ∷ ps) =
    let rest = insert_orphan o ps in
    if leb (orphan_kind_order o.kind) (orphan_kind_order p.kind) then o ∷ p ∷ ps else p ∷ rest

unfoldable pub sort_orphans : List OrphanResource → List OrphanResource
unfolding insert_orphan
sort_orphans [] = []
sort_orphans (o ∷ os) = insert_orphan o (sort_orphans os)

-- The loop of dedupeNonEmpty with what it has seen.
unfoldable pub dedupe_from : List Text → List Text → List Text
dedupe_from seen [] = []
dedupe_from seen (s ∷ ss) =
    let skip = dedupe_from seen ss in
    let keep = s ∷ dedupe_from (s ∷ seen) ss in
    if s == empty || any (λ t. t == s) seen then skip else keep

unfoldable pub dedupe_non_empty : List Text → List Text
unfolding dedupe_from
dedupe_non_empty ss = dedupe_from [] ss
