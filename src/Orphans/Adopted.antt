-- ===== src/Orphans/Adopted.antt =====
-- internal/ibm/orphans.go, markProtected: the marks of resources that the workspace adopted.
use roksbnkctl.Prelude.{◌≡◌, ◌||◌, List, [], ◌∷◌, arith, any}
use roksbnkctl.Orphans.{OrphanResource, AdoptedRef, applies, mark_one, mark_protected}

-- Marking changes the mark alone, and sets it exactly if it was set or a reference applies.
pub record IsMarked (adopted : List AdoptedRef) (o m : OrphanResource) : Type 0 where
  pub same_kind : m.kind ≡ o.kind
  pub same_id : m.id ≡ o.id
  pub same_name : m.name ≡ o.name
  pub same_region : m.region ≡ o.region
  pub same_crn : m.crn ≡ o.crn
  pub marked : m.protected ≡ (o.protected || any (λ a. applies a o) adopted)

pub mark_one-IsMarked :
    (adopted : List AdoptedRef) (o : OrphanResource) → IsMarked adopted o (mark_one adopted o)
unfolding mark_one
mark_one-IsMarked [] o = ground arith
mark_one-IsMarked (a ∷ adopted) o = ground (arith, mark_one-IsMarked adopted o)

abbrev pub AllMarked : List AdoptedRef → List OrphanResource → List OrphanResource → Type 0
AllMarked adopted [] [] = Unit
AllMarked adopted (o ∷ found) (m ∷ marked) = IsMarked adopted o m × AllMarked adopted found marked
AllMarked adopted _ _ = ⊥

-- Position by position, the marked list holds the resources that were found, each marked exactly if
-- a reference of the workspace applies to it or it was marked before.
pub mark_protected-AllMarked :
    (found : List OrphanResource) (adopted : List AdoptedRef)
    → AllMarked adopted found (mark_protected found adopted)
unfolding mark_protected
mark_protected-AllMarked [] adopted = tt
mark_protected-AllMarked (o ∷ found) adopted =
    (mark_one-IsMarked adopted o, mark_protected-AllMarked found adopted)
