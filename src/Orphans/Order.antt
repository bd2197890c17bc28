-- ===== src/Orphans/Order.antt =====
-- The order of a cleanup, and its list of regions.
use mathlib.Core.List.{Memᴰ, Perm}
use mathlib.Core.List.Perm
use roksbnkctl.Prelude.{
  ◌≤◌, ◌≡◌, ◌≢◌, refl, sym, ap, lit, if◌then◌else◌, inl, inr, ◌↔◌, Bool, false, ◌||◌, List, [], ◌∷◌,
  arith, Bool-cases, any, Memᴰ-cases, Text, empty, ◌==◌, ==_iff, ==_sound,
}
use roksbnkctl.Orphans.{OrphanResource, orphan_kind_order, dedupe_from, dedupe_non_empty}

-- Every resource ranks at or below all that follow it.
abbrev pub IsRanked : List OrphanResource → Type 0
IsRanked [] = Unit
IsRanked (o ∷ os) =
    ((p : OrphanResource) → Memᴰ p os → orphan_kind_order o.kind ≤ orphan_kind_order p.kind)
    × IsRanked os

-- Which kind has to go before which: the cluster, whose deletion goes on by itself, before everything else; an instance
-- before what it holds, its floating IPs, subnets and security groups; and all that lies in or hangs on a VPC before it.
abbrev pub dependencies : List (Text × Text)
dependencies =
    (lit "cluster", lit "instance")
    ∷ (lit "cluster", lit "floating_ip")
    ∷ (lit "cluster", lit "transit_gateway")
    ∷ (lit "cluster", lit "public_gateway")
    ∷ (lit "cluster", lit "subnet")
    ∷ (lit "cluster", lit "security_group")
    ∷ (lit "cluster", lit "vpc")
    ∷ (lit "cluster", lit "cos_instance")
    ∷ (lit "cluster", lit "trusted_profile")
    ∷ (lit "instance", lit "floating_ip")
    ∷ (lit "instance", lit "subnet")
    ∷ (lit "instance", lit "security_group")
    ∷ (lit "instance", lit "vpc")
    ∷ (lit "floating_ip", lit "vpc")
    ∷ (lit "transit_gateway", lit "vpc")
    ∷ (lit "public_gateway", lit "vpc")
    ∷ (lit "subnet", lit "vpc")
    ∷ (lit "security_group", lit "vpc")
    ∷ []

-- No resource comes behind one that has to go after it.
abbrev pub IsSafe : List OrphanResource → Type 0
IsSafe [] = Unit
IsSafe (o ∷ os) =
    ((p : OrphanResource) → Memᴰ p os → ¬ (Memᴰ (p.kind, o.kind) dependencies)) × IsSafe os

-- The resources of one kind, in their order.
unfoldable pub of_kind : Text → List OrphanResource → List OrphanResource
of_kind kind [] = []
of_kind kind (o ∷ os) = let rest = of_kind kind os in if o.kind == kind then o ∷ rest else rest

module _ (seen : List Text) (s : Text) where
  abbrev skips : Bool
  skips = s == empty || any (λ t. t == s) seen

any-cons : (seen : List Text) (x s : Text) → any (λ t. t == s) (x ∷ seen) ≡ false → x ≢ s
any-cons seen x s h e = ground (arith, ==_iff x s)

mem-dedupe_from :
    (seen ss : List Text) (s : Text)
    → Memᴰ s (dedupe_from seen ss)
    → Memᴰ s ss × (s ≢ empty) × (any (λ t. t == s) seen ≡ false)
unfolding dedupe_from
mem-dedupe_from seen [] s m = elim m [ ]
mem-dedupe_from seen (x ∷ ss) s m = elim (Bool-cases (skips seen x)) [
  | inl old ↦
      let (listed, some_text, unseen) = mem-dedupe_from seen ss s (rw old at m) in
      (Memᴰ.tail listed, some_text, unseen)
  | inr new ↦ elim (Memᴰ-cases (rw new at m)) [
    | inl same ↦ (Memᴰ.head same, λ e. ground (arith, ==_iff x empty), rw same (ground arith))
    | inr later ↦
        let (listed, some_text, unseen) = mem-dedupe_from (x ∷ seen) ss s later in
        (Memᴰ.tail listed, some_text, ground arith)
  ]
]

mem-dedupe_from_of :
    (seen ss : List Text) (s : Text)
    → Memᴰ s ss
    → s ≢ empty
    → any (λ t. t == s) seen ≡ false
    → Memᴰ s (dedupe_from seen ss)
unfolding dedupe_from
mem-dedupe_from_of seen [] s m some_text unseen = elim m [ ]
mem-dedupe_from_of seen (x ∷ ss) s m some_text unseen = elim (Bool-cases (skips seen x)) [
  | inl old ↦ elim (Memᴰ-cases m) [
    | inl same ↦ absurd (ground (arith, ==_iff x empty, ap (λ y. skips seen y) same))
    | inr later ↦ rw old (mem-dedupe_from_of seen ss s later some_text unseen)
  ]
  | inr new ↦ elim (Bool-cases (x == s)) [
    | inl same ↦ rw new (Memᴰ.head (sym (==_sound x s same)))
    | inr other ↦ elim (Memᴰ-cases m) [
      | inl same ↦ rw new (Memᴰ.head same)
      | inr later ↦
          rw new (Memᴰ.tail (mem-dedupe_from_of (x ∷ seen) ss s later some_text (ground arith)))
    ]
  ]
]

abbrev pub IsDistinct : List Text → Type 0
IsDistinct [] = Unit
IsDistinct (s ∷ ss) = ¬ (Memᴰ s ss) × IsDistinct ss

dedupe_from-IsDistinct : (seen ss : List Text) → IsDistinct (dedupe_from seen ss)
unfolding dedupe_from
dedupe_from-IsDistinct seen [] = tt
dedupe_from-IsDistinct seen (x ∷ ss) = elim (Bool-cases (skips seen x)) [
  | inl old ↦ rw old (dedupe_from-IsDistinct seen ss)
  | inr new ↦ rw new (
    λ m. any-cons seen x x ((mem-dedupe_from (x ∷ seen) ss x m).2) refl,
    dedupe_from-IsDistinct (x ∷ seen) ss,
  )
]

-- The regions that are swept are exactly the non-empty ones that were given, each once.
pub dedupe_non_empty-IsDistinct :
    (ss : List Text)
    → IsDistinct (dedupe_non_empty ss)
      × ((s : Text) → Memᴰ s (dedupe_non_empty ss) ↔ (Memᴰ s ss × (s ≢ empty)))
unfolding dedupe_non_empty
dedupe_non_empty-IsDistinct ss = (
  dedupe_from-IsDistinct [] ss,
  λ s. (
    λ m. ((mem-dedupe_from [] ss s m).0, (mem-dedupe_from [] ss s m).1),
    λ p. mem-dedupe_from_of [] ss s p.0 p.1 refl,
  ),
)
