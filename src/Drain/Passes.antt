-- ===== src/Drain/Passes.antt =====
-- What holds of every step of a pass, whatever the cluster answers.
use mathlib.Core.List.{Memᴰ}
use roksbnkctl.Prelude.{
  ◌≡◌, refl, Bool, true, false, not, ◌&&◌, Option, none, some, List, [], ◌∷◌, if◌then◌else◌, Text,
}
use roksbnkctl.Drain.{
  Gvr, Object, ApiError, Listing, listed, unlisted, list_failed, Cluster, DeletePass, Phase,
  webhook_refusal, webhook_denial, key_of, has_other, request, retried, settled, delete_object,
  delete_objects, delete_listed, delete_kinds,
}

-- A relation between the states of a phase that every step keeps.
pub record IsKept {S : Type 0} (cluster : Cluster S) (gvrs : List Gvr)
    (R : Phase S → Phase S → Type 0) : Type 0 where
  pub kept_refl : (s : Phase S) → R s s
  pub kept_trans : (s t u : Phase S) → R s t → R t u → R s u
  pub on_request :
      (g : Gvr) (name : Text) (s : Phase S) → Memᴰ g gvrs → R s (request cluster g name s).1
  pub on_act :
      (act : S → S) (s : Phase S)
      → cluster.neutralise ≡ some act
      → R s (record s { world = act s.world })
  pub on_list : (g : Gvr) (s : Phase S) → R s (record s { world = (cluster.list g s.world).1 })
  pub on_note :
      (s : Phase S) (forbidden : List Text) (deleted_uid : List (Text × Text))
      → R s (record s { forbidden = forbidden; deleted_uid = deleted_uid })

module _ {S : Type 0} (cluster : Cluster S) (gvrs : List Gvr) (R : Phase S → Phase S → Type 0)
    (keeps : IsKept cluster gvrs R) where
  if-kept :
      {A : Type 0} (s : Phase S) (b : Bool) (x y : A × Phase S)
      → R s x.1
      → R s y.1
      → R s (if b then x else y).1
  if-kept s true x y h k = h
  if-kept s false x y h k = k

  retried-kept :
      (g : Gvr) (name : Text) (act : Option (S → S)) (s : Phase S) (a : Option ApiError × Phase S)
      → Memᴰ g gvrs
      → cluster.neutralise ≡ act
      → R s a.1
      → R s (retried cluster g name act a).1
  retried-kept g name none s a m n h = h
  retried-kept g name (some act) s (none, t) m n h = h
  retried-kept g name (some act) s (some e, t) m n h =
      let cleared : Phase S = record t { world = act t.world } in
      if-kept s (not e.not_found && webhook_refusal e.text) (request cluster g name cleared)
        (some e, t)
        (keeps.kept_trans s cleared (request cluster g name cleared).1
          (keeps.kept_trans s t cleared h (keeps.on_act act t n))
          (keeps.on_request g name cleared m))
        h

  settled-kept :
      (key uid : Text) (p : DeletePass) (s : Phase S) (a : Option ApiError × Phase S)
      → R s a.1
      → R s (settled cluster key uid p a).1
  settled-kept key uid p s (none, t) h =
      keeps.kept_trans s t (record t { deleted_uid = (key, uid) ∷ t.deleted_uid }) h
        (keeps.on_note t t.forbidden ((key, uid) ∷ t.deleted_uid))
  settled-kept key uid p s (some e, t) h = if-kept s e.not_found _ _ h (
      if-kept s (webhook_denial e.text) _ _
        (keeps.kept_trans s t (record t { forbidden = key ∷ t.forbidden }) h
          (keeps.on_note t (key ∷ t.forbidden) t.deleted_uid))
        h)

  delete_object-kept :
      (g : Gvr) (o : Object) (p : DeletePass) (s : Phase S)
      → Memᴰ g gvrs
      → R s (delete_object cluster g o (p, s)).1
  unfolding delete_object
  delete_object-kept g o p s m =
      let key = key_of g o.name in
      if-kept s (has_other key o.uid s.deleted_uid) _ _ (keeps.kept_refl s) (
        if-kept s o.is_deleting _ _ (keeps.kept_refl s) (
          settled-kept key o.uid _ s _
            (retried-kept g o.name cluster.neutralise s _ m refl (keeps.on_request g o.name s m))))

  delete_objects-kept :
      (g : Gvr) (os : List Object) (c : DeletePass × Phase S)
      → Memᴰ g gvrs
      → R c.1 (delete_objects cluster g os c).1
  unfolding delete_objects
  delete_objects-kept g [] c m = keeps.kept_refl c.1
  delete_objects-kept g (o ∷ os) (p, s) m =
      let c = delete_object cluster g o (p, s) in
      keeps.kept_trans s c.1 (delete_objects cluster g os c).1 (delete_object-kept g o p s m)
        (delete_objects-kept g os c m)

  delete_listed-kept :
      (g : Gvr) (p : DeletePass) (l : Listing × S) (s : Phase S)
      → Memᴰ g gvrs
      → R s (record s { world = l.1 })
      → R s (delete_listed cluster g p l s).1
  delete_listed-kept g p (listed os, after) s m h =
      let t : Phase S = record s { world = after } in
      keeps.kept_trans s t (delete_objects cluster g os (p, t)).1 h
        (delete_objects-kept g os (p, t) m)
  delete_listed-kept g p (unlisted, after) s m h = h
  delete_listed-kept g p (list_failed e, after) s m h = h

  -- A pass keeps what every step keeps.
  pub delete_kinds-kept :
      (gs : List Gvr) (p : DeletePass) (s : Phase S)
      → ((g : Gvr) → Memᴰ g gs → Memᴰ g gvrs)
      → R s (delete_kinds cluster gs (p, s)).1
  unfolding delete_kinds
  delete_kinds-kept [] p s m = keeps.kept_refl s
  delete_kinds-kept (g ∷ gs) p s m =
      let c = delete_listed cluster g p (cluster.list g s.world) s in
      keeps.kept_trans s c.1 (delete_kinds cluster gs c).1
        (delete_listed-kept g p (cluster.list g s.world) s (m g (Memᴰ.head refl))
          (keeps.on_list g s))
        (delete_kinds-kept gs c.0 c.1 (λ x k. m x (Memᴰ.tail k)))
