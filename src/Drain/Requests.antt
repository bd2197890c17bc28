-- ===== src/Drain/Requests.antt =====
-- What a pass asks to delete.
use mathlib.Core.List.{Memᴰ, append_assoc}
use roksbnkctl.Prelude.{◌≡◌, refl, sym, ap, ◌∙◌, List, [], ◌∷◌, ◌++◌, All, All-append}
use roksbnkctl.Drain.{
  Gvr, Cluster, DeletePass, Event, requested, passed, recounted, Phase, delete_kinds,
}
use roksbnkctl.Drain.Passes.{IsKept, delete_kinds-kept}

-- A DELETE is of one of these kinds.
abbrev pub Concerns : List Gvr → Event → Type 0
Concerns gvrs (requested g name) = Memᴰ g gvrs
Concerns gvrs (passed p u) = Unit
Concerns gvrs (recounted p u) = Unit

module _ {S : Type 0} (gvrs : List Gvr) where
  -- The log has grown by events that concern the kinds.
  abbrev pub Grew : Phase S → Phase S → Type 0
  Grew s t = (new : List Event) × (t.log ≡ new ++ s.log) × All (Concerns gvrs) new

  pub same-Grew : (s t : Phase S) → t.log ≡ s.log → Grew s t
  same-Grew s t e = ([], e, tt)

  pub Grew-trans : (s t u : Phase S) → Grew s t → Grew t u → Grew s u
  Grew-trans s t u (a, e, h) (b, f, k) = (
    b ++ a,
    f ∙ ap (λ l. b ++ l) e ∙ sym (append_assoc b a s.log),
    All-append (Concerns gvrs) b a k h,
  )

  Grew-IsKept : (cluster : Cluster S) → IsKept cluster gvrs Grew
  Grew-IsKept cluster = record {
    kept_refl = λ s. same-Grew s s refl;
    kept_trans = Grew-trans;
    on_request = λ g name s m. (requested g name ∷ [], refl, (m, tt));
    on_act = λ act s n. ([], refl, tt);
    on_list = λ g s. ([], refl, tt);
    on_note = λ s forbidden deleted_uid. ([], refl, tt);
  }

  pub delete_kinds-Grew :
      (cluster : Cluster S) (p : DeletePass) (s : Phase S)
      → Grew s (delete_kinds cluster gvrs (p, s)).1
  delete_kinds-Grew cluster p s =
      delete_kinds-kept cluster gvrs Grew (Grew-IsKept cluster) gvrs p s (λ g m. m)
