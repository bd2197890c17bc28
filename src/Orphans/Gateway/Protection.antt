-- ===== src/Orphans/Gateway/Protection.antt =====
-- internal/ibm/orphans.go: markProtected and DeleteOrphan together.
use mathlib.Core.List.{Memᴰ}
use roksbnkctl.Prelude.{
  ℕ, ◌≡◌, refl, ap, inl, inr, true, some, List, [], ◌∷◌, arith, any, Memᴰ-cases,
}
use roksbnkctl.Orphans.{OrphanResource, AdoptedRef, applies, mark_one}
use roksbnkctl.Orphans.Adopted.{mark_one-IsMarked}
use roksbnkctl.Orphans.Gateway.{Failure, Cloud, Session, delete_orphan}

any_of_mem :
    (o : OrphanResource) (a : AdoptedRef) (adopted : List AdoptedRef)
    → Memᴰ a adopted
    → applies a o ≡ true
    → any (λ x. applies x o) adopted ≡ true
any_of_mem o a [] m h = elim m [ ]
any_of_mem o a (x ∷ adopted) m h = elim (Memᴰ-cases m) [
  | inl same ↦ ground (arith, ap (λ y. applies y o) same)
  | inr later ↦ ground (arith, any_of_mem o a adopted later h)
]

-- Where a reference of the workspace applies to a resource, its deletion after marking sends
-- nothing, leaves the world as it was, and fails by naming the resource.
pub delete_orphan-mark_one :
    {W : Type 0} (cloud : Cloud W) (fuel : ℕ) (o : OrphanResource) (a : AdoptedRef)
    (adopted : List AdoptedRef) (sweep : List OrphanResource) (s : Session W)
    → Memᴰ a adopted
    → applies a o ≡ true
    → delete_orphan cloud fuel (mark_one adopted o) sweep s
      ≡ some (some (Failure.protected_resource (mark_one adopted o)), s)
unfolding delete_orphan
delete_orphan-mark_one cloud fuel o a adopted sweep s m h =
    let marked : (mark_one adopted o).protected ≡ true =
      ground (arith, (mark_one-IsMarked adopted o).marked, any_of_mem o a adopted m h) in
    rw marked refl
