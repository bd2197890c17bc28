-- ===== src/Drain.antt =====
-- internal/orchestration/teardown_cr_sweep.go: the drain of one namespace before a teardown (drainBNKCustomResources,
-- drainPhase, deleteAllIn, countAndNameIn), and the choice of what it deletes. The API of the cluster, the clock and
-- the context are a parameter, and a log holds what was asked of the API and seen.
mod Tests
pub mod Phases
pub mod Passes
pub mod Requests
pub mod Ordered
pub mod Turns
pub mod Rounds
pub mod Selection
pub mod Swept
use roksbnkctl.Prelude.{
  ℕ, zero, suc, ◌+◌, ◌-◌, Bool, true, false, not, ◌&&◌, ◌||◌, Option, none, some, List, [], ◌∷◌,
  ◌++◌, ltb, leb, eqb, if◌then◌else◌, any, is_nil, Text, lit, ◌==◌, contains,
}
use roksbnkctl.Snapshot.{precedes}

-- `schema.GroupVersionResource`.
pub record Gvr : Type 0 where
  pub group : Text
  pub version : Text
  pub resource : Text

-- An object of a listing; whether it carries a deletion timestamp.
pub record Object : Type 0 where
  pub name : Text
  pub uid : Text
  pub is_deleting : Bool

-- An error of the API: its text, and what IsNotFound and typeIsGone tell of it.
pub record ApiError : Type 0 where
  pub text : Text
  pub not_found : Bool
  pub type_gone : Bool

pub data Listing : Type 0 where
  listed : List Object → Listing
  unlisted : Listing
  list_failed : ApiError → Listing

-- The cluster in one namespace, with the clock and the end of the context.
pub record Cluster (S : Type 0) : Type 0 where
  pub list : Gvr → S → Listing × S
  pub delete : Gvr → Text → S → Option ApiError × S
  pub neutralise : Option (S → S)
  pub now : S → ℕ
  pub wait : S → Bool × S

abbrev pub cne_instance_resource : Text
cne_instance_resource = lit "cneinstances"

unfoldable pub is_root : Gvr → Bool
is_root g = g.resource == cne_instance_resource

-- `floManagedComponent`.
unfoldable pub flo_managed_component : Gvr → Bool
flo_managed_component g = (g.group == lit "k8s.f5.com") && not (g.resource == cne_instance_resource)

-- `splitCNEInstance`: the leaves, and the roots.
unfoldable pub leaves_of : List Gvr → List Gvr
leaves_of [] = []
leaves_of (g ∷ gvrs) =
    let rest = leaves_of gvrs in
    if is_root g then rest else if flo_managed_component g then rest else g ∷ rest

unfoldable pub roots_of : List Gvr → List Gvr
roots_of [] = []
roots_of (g ∷ gvrs) = let rest = roots_of gvrs in if is_root g then g ∷ rest else rest

-- `webhookRefusal`, on the text of an error.
unfoldable pub webhook_refusal : Text → Bool
webhook_refusal s =
    contains s (lit "failed calling webhook")
    || (contains s (lit "webhook") && contains s (lit "no endpoints available"))

-- `webhookDenial`.
unfoldable pub webhook_denial : Text → Bool
webhook_denial s = contains s (lit "admission webhook") && contains s (lit "denied the request")

pub record DeletePass : Type 0 where
  pub accepted : ℕ
  pub present : ℕ
  pub refused : ℕ
  pub marked : ℕ
  pub unknown : ℕ
  pub remade : ℕ
  pub denied : ℕ

-- What the drain asks of the API to delete, and the counts of its passes: the objects and the kinds it cannot see.
pub data Event : Type 0 where
  requested : Gvr → Text → Event
  passed : ℕ → ℕ → Event
  recounted : ℕ → ℕ → Event

-- The state of a phase; the latest event comes first.
pub record Phase (S : Type 0) : Type 0 where
  pub world : S
  pub forbidden : List Text
  pub deleted_uid : List (Text × Text)
  pub log : List Event

abbrev pub key_of : Gvr → Text → Text
key_of g name = g.resource ++ lit "/" ++ name

-- Whether a map has another value at a key.
unfoldable pub has_other : Text → Text → List (Text × Text) → Bool
has_other key value [] = false
has_other key value ((k, v) ∷ m) =
    let rest = has_other key value m in if k == key then not (v == value) else rest

abbrev pub no_pass : DeletePass
no_pass = record {
  accepted = 0;
  present = 0;
  refused = 0;
  marked = 0;
  unknown = 0;
  remade = 0;
  denied = 0;
}

module _ {S : Type 0} (cluster : Cluster S) where
  -- One DELETE.
  abbrev pub request : Gvr → Text → Phase S → Option ApiError × Phase S
  request g name s =
      let (r, after) = cluster.delete g name s.world in
      (r, record s { world = after; log = requested g name ∷ s.log })

  -- A second DELETE after a webhook that could not be called has been removed.
  abbrev pub retried :
      Gvr → Text → Option (S → S) → Option ApiError × Phase S → Option ApiError × Phase S
  retried g name none (r, s) = (r, s)
  retried g name (some act) (none, s) = (none, s)
  retried g name (some act) (some e, s) =
      let again = request g name (record s { world = act s.world }) in
      if not e.not_found && webhook_refusal e.text then again else (some e, s)

  -- What the answer of the DELETE counts as.
  abbrev pub settled : Text → Text → DeletePass → Option ApiError × Phase S → DeletePass × Phase S
  settled key uid p (none, s) = (
    record p { accepted = suc p.accepted },
    record s { deleted_uid = (key, uid) ∷ s.deleted_uid },
  )
  settled key uid p (some e, s) =
      if e.not_found
      then (p, s)
      else if webhook_denial e.text
      then (
        record p { denied = suc p.denied; present = p.present - 1 },
        record s { forbidden = key ∷ s.forbidden },
      )
      else (record p { refused = suc p.refused }, s)

  unfoldable pub delete_object : Gvr → Object → DeletePass × Phase S → DeletePass × Phase S
  delete_object g o (p, s) =
      let key = key_of g o.name in
      let seen = record p { present = suc p.present } in
      let answer =
        settled key o.uid seen (retried g o.name cluster.neutralise (request g o.name s)) in
      if has_other key o.uid s.deleted_uid
      then (record p { remade = suc p.remade }, s)
      else if o.is_deleting
      then (record seen { marked = suc p.marked }, s)
      else answer

  unfoldable pub delete_objects : Gvr → List Object → DeletePass × Phase S → DeletePass × Phase S
  delete_objects g [] c = c
  delete_objects g (o ∷ os) c = delete_objects g os (delete_object g o c)

  abbrev pub delete_listed : Gvr → DeletePass → Listing × S → Phase S → DeletePass × Phase S
  delete_listed g p (listed os, after) s = delete_objects g os (p, record s { world = after })
  delete_listed g p (unlisted, after) s =
      (record p { unknown = suc p.unknown }, record s { world = after })
  delete_listed g p (list_failed e, after) s =
      (if e.type_gone then p else record p { unknown = suc p.unknown }, record s { world = after })

  unfoldable pub delete_kinds : List Gvr → DeletePass × Phase S → DeletePass × Phase S
  delete_kinds [] c = c
  delete_kinds (g ∷ gvrs) (p, s) = delete_kinds gvrs (delete_listed g p (cluster.list g s.world) s)

  -- `deleteAllIn`.
  unfoldable pub delete_all_in : List Gvr → Phase S → DeletePass × Phase S
  delete_all_in gvrs s =
      let (p, s2) = delete_kinds gvrs (no_pass, s) in
      (p, record s2 { log = passed p.present p.unknown ∷ s2.log })
