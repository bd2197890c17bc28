-- ===== src/Orphans/Connections.antt =====
-- internal/ibm/orphans.go: the state of a transit gateway's connections, and which of them a sweep
-- may detach.
use mathlib.Core.List.{Memᴰ, Perm, perm_middle}
use mathlib.Core.List.Perm
use roksbnkctl.Prelude.{
  ◌≡◌, ap, inl, inr, ◌⊎◌, Bool, true, false, not, ◌&&◌, ◌||◌, List, [], ◌∷◌, ◌++◌, arith,
  if◌then◌else◌, Bool-cases, is_nil, any, All, Memᴰ-cases, Text, lit, empty, ◌==◌, trim_space,
  to_lower, equal_fold,
}
use roksbnkctl.Orphans.{OrphanResource}

pub record Connection : Type 0 where
  pub id : Text
  pub name : Text
  pub network_type : Text
  pub network_id : Text
  pub status : Text

-- The keys of the map of sweptVPCCRNs.
unfoldable pub swept_vpc_crns : List OrphanResource → List Text
swept_vpc_crns [] = []
swept_vpc_crns (o ∷ sweep) =
    let rest = swept_vpc_crns sweep in
    if o.kind == lit "vpc" && not (o.crn == empty) then to_lower o.crn ∷ rest else rest

abbrev pub is_key : List Text → Text → Bool
is_key keys k = any (λ j. j == k) keys

unfoldable pub arriving : Text → Bool
arriving status = equal_fold (trim_space status) (lit "pending")

unfoldable pub departing : Text → Bool
departing status =
    let s = to_lower (trim_space status) in s == lit "deleting" || s == lit "detaching"

unfoldable pub in_flight : Text → Bool
in_flight status = arriving status || departing status

-- A connection to a VPC that this sweep deletes too.
unfoldable pub ours : List Text → Connection → Bool
ours swept c = equal_fold c.network_type (lit "vpc") && is_key swept (to_lower c.network_id)

pub record Partition : Type 0 where
  pub detach : List Connection
  pub settling : List Connection
  pub foreign : List Connection

-- One round of the loop, at the end of the lists in the source and here at their front: the rounds
-- run from the last connection to the first.
classify : List Text → Connection → Partition → Partition
classify swept c p =
    if departing c.status
    then record p { settling = c ∷ p.settling }
    else if not (ours swept c)
    then record p { foreign = c ∷ p.foreign }
    else if arriving c.status
    then record p { settling = c ∷ p.settling }
    else record p { detach = c ∷ p.detach }

unfoldable pub partition : List Connection → List Text → Partition
unfolding classify
partition [] swept = record { detach = []; settling = []; foreign = [] }
partition (c ∷ conns) swept = classify swept c (partition conns swept)

-- What a sweep may detach now, what it has to wait for, and what belongs to somebody else.
abbrev pub CanDetach : List Text → Connection → Type 0
CanDetach swept c =
    (ours swept c ≡ true) × (departing c.status ≡ false) × (arriving c.status ≡ false)

abbrev pub IsSettling : List Text → Connection → Type 0
IsSettling swept c =
    (departing c.status ≡ true) ⊎ ((ours swept c ≡ true) × (arriving c.status ≡ true))

abbrev pub IsForeign : List Text → Connection → Type 0
IsForeign swept c = (ours swept c ≡ false) × (departing c.status ≡ false)

pub record IsPartition (conns : List Connection) (swept : List Text) (p : Partition) : Type 0 where
  pub detachable : All (CanDetach swept) p.detach
  pub unsettled : All (IsSettling swept) p.settling
  pub not_ours : All (IsForeign swept) p.foreign
  pub whole : Perm (p.detach ++ (p.settling ++ p.foreign)) conns

module _ (c : Connection) (conns : List Connection) (swept : List Text) (p : Partition)
    (h : IsPartition conns swept p) where
  settling-whole : Perm (p.detach ++ (c ∷ (p.settling ++ p.foreign))) (c ∷ conns)
  settling-whole = Perm.trans (perm_middle p.detach (p.settling ++ p.foreign)) (Perm.cons c h.whole)

  foreign-whole : Perm (p.detach ++ (p.settling ++ (c ∷ p.foreign))) (c ∷ conns)
  foreign-whole =
      Perm.trans (Perm.append (Perm.refl p.detach) (perm_middle p.settling p.foreign))
        settling-whole

  classify-IsPartition : IsPartition (c ∷ conns) swept (classify swept c p)
  unfolding classify
  classify-IsPartition = elim (Bool-cases (departing c.status)) [
    | inl leaving ↦ rw leaving (record {
      detachable = h.detachable;
      unsettled = (inl leaving, h.unsettled);
      not_ours = h.not_ours;
      whole = settling-whole;
    })
    | inr staying ↦ elim (Bool-cases (ours swept c)) [
      | inr other ↦
          rw (staying, other)
            (record {
              detachable = h.detachable;
              unsettled = h.unsettled;
              not_ours = ((other, staying), h.not_ours);
              whole = foreign-whole;
            })
      | inl own ↦ elim (Bool-cases (arriving c.status)) [
        | inl coming ↦
            rw (staying, own, coming)
              (record {
                detachable = h.detachable;
                unsettled = (inr (own, coming), h.unsettled);
                not_ours = h.not_ours;
                whole = settling-whole;
              })
        | inr attached ↦
            rw (staying, own, attached)
              (record {
                detachable = ((own, staying, attached), h.detachable);
                unsettled = h.unsettled;
                not_ours = h.not_ours;
                whole = Perm.cons c h.whole;
              })
      ]
    ]
  ]

-- Every connection falls into exactly one of three classes. Detached are only connections to VPCs of this
-- sweep that are neither on their way in nor out; waited for are those on their way out, and those of this
-- sweep on their way in; foreign are the others, which are not of this sweep and not on their way out.
pub partition-IsPartition :
    (conns : List Connection) (swept : List Text) → IsPartition conns swept (partition conns swept)
unfolding partition
partition-IsPartition [] swept = record {
  detachable = tt;
  unsettled = tt;
  not_ours = tt;
  whole = Perm.refl [];
}
partition-IsPartition (c ∷ conns) swept =
    classify-IsPartition c conns swept (partition conns swept) (partition-IsPartition conns swept)

pub partition-foreign_of_mem :
    (c : Connection) (conns : List Connection) (swept : List Text)
    → Memᴰ c conns
    → IsForeign swept c
    → is_nil (partition conns swept).foreign ≡ false
unfolding partition classify
partition-foreign_of_mem c [] swept m h = elim m [ ]
partition-foreign_of_mem c (d ∷ conns) swept m h = elim (Memᴰ-cases m) [
  | inl same ↦
      ground (arith, ap (ours swept) same, ap (λ (x : Connection). departing x.status) same)
  | inr later ↦ ground (arith, partition-foreign_of_mem c conns swept later h)
]
