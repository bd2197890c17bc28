-- ===== src/Snapshot/Store.antt =====
-- WriteAppliedTFVars of internal/config/applied_tfvars.go: the snapshot is written beside its place and then moved there.
-- Which system call fails is a parameter.
use roksbnkctl.Prelude.{
  ℕ, ◌≡◌, ◌≢◌, ◌⊎◌, refl, arith, Bool, true, false, Option, none, some, List, ◌∷◌, if◌then◌else◌,
  take, Text, inl, inr, Bool-cases,
}
use roksbnkctl.Snapshot.Writing.{render_applied_tfvars, Disk, applied_tfvars_path}

-- How each system call ends; a write that fails has written so many characters.
pub record Calls : Type 0 where
  pub mkdir_fails : Bool
  pub create_fails : Bool
  pub write_stops : Option ℕ
  pub close_fails : Bool
  pub chmod_fails : Bool
  pub rename_fails : Bool
  pub remove_fails : Bool

-- The snapshot's file, and the temporary ones beside it; os.CreateTemp takes a name that none of them has.
pub record Store : Type 0 where
  pub target : Option Text
  pub temps : List Text

pub data WriteError : Type 0 where
  no_path : WriteError
  not_rendered : WriteError
  creating_dir : WriteError
  creating_temp : WriteError
  writing_temp : WriteError
  closing_temp : WriteError
  changing_mode : WriteError
  renaming_temp : WriteError

-- A result with the files that it leaves: an error, if there is one.
abbrev pub Written : Type 0
Written = Option WriteError × Store

module _ (calls : Calls) where
  -- `os.Remove(tmpPath)`, whose own error is not looked at, for a new file with a text.
  abbrev pub removed : Text → Store → Store
  removed text s = if calls.remove_fails then record s { temps = text ∷ s.temps } else s

  abbrev pub renamed : Text → Store → Written
  renamed text s =
      if calls.rename_fails
      then (some renaming_temp, removed text s)
      else (none, record s { target = some text })

  abbrev pub closed : Text → Store → Written
  closed text s =
      if calls.close_fails
      then (some closing_temp, removed text s)
      else if calls.chmod_fails
      then (some changing_mode, removed text s)
      else renamed text s

  abbrev pub store_body : Text → Option ℕ → Store → Written
  store_body body (some n) s = (some writing_temp, removed (take n body) s)
  store_body body none s = closed body s

  abbrev pub store_rendered : Option Text → Store → Written
  store_rendered none s = (some not_rendered, s)
  store_rendered (some body) s =
      if calls.mkdir_fails
      then (some creating_dir, s)
      else if calls.create_fails
      then (some creating_temp, s)
      else store_body body calls.write_stops s

-- `WriteAppliedTFVars`, at a time and a version.
unfoldable pub write_applied_tfvars :
    Calls → Disk → Text → List Text → Text → Text → Store → Written
write_applied_tfvars calls disk phase sources now version s =
    elim (applied_tfvars_path disk phase) [
      | none ↦ (some no_path, s)
      | some path ↦
          store_rendered calls (render_applied_tfvars disk.read phase sources now version) s
    ]

-- The snapshot after a write is whole, without an error, or what it was; the temporary files are those that were there
-- before, but for the new one where there is an error and it could not be removed.
abbrev pub IsWhole : Calls → Option Text → Store → Written → Type 0
IsWhole calls body s w =
    ((w.0 ≡ none) × (body ≢ none) × (w.1.target ≡ body) × (w.1.temps ≡ s.temps))
    ⊎ ((w.0 ≢ none)
        × (w.1.target ≡ s.target)
        × ((w.1.temps ≡ s.temps)
            ⊎ ((calls.remove_fails ≡ true) × ((text : Text) × (w.1.temps ≡ text ∷ s.temps)))))

module _ (calls : Calls) (body : Option Text) (s : Store) where
  -- A step that fails once the temporary file is there.
  removed-IsWhole :
      (e : WriteError) (text : Text) → IsWhole calls body s (some e, removed calls text s)
  removed-IsWhole e text = elim (Bool-cases calls.remove_fails) [
    | inl r ↦ rw r (inr (λ h. ground (arith, h), refl, inr (refl, (text, refl))))
    | inr r ↦ rw r (inr (λ h. ground (arith, h), refl, inl refl))
  ]

  before-IsWhole : (e : WriteError) → IsWhole calls body s (some e, s)
  before-IsWhole e = inr (λ h. ground (arith, h), refl, inl refl)

  if-IsWhole :
      (b : Bool) (x y : Written)
      → IsWhole calls body s x
      → IsWhole calls body s y
      → IsWhole calls body s (if b then x else y)
  if-IsWhole true x y p q = p
  if-IsWhole false x y p q = q

closed-IsWhole :
    (calls : Calls) (body : Text) (s : Store) → IsWhole calls (some body) s (closed calls body s)
closed-IsWhole calls body s =
    let branch = if-IsWhole calls (some body) s in
    let failing = λ (e : WriteError). removed-IsWhole calls (some body) s e body in
    branch calls.close_fails _ _ (failing closing_temp) (
      branch calls.chmod_fails _ _ (failing changing_mode) (
        branch calls.rename_fails _ _ (failing renaming_temp)
          (inl (refl, λ h. ground (arith, h), refl, refl))))

store_body-IsWhole :
    (calls : Calls) (body : Text) (s : Store) (stops : Option ℕ)
    → IsWhole calls (some body) s (store_body calls body stops s)
store_body-IsWhole calls body s (some n) =
    removed-IsWhole calls (some body) s writing_temp (take n body)
store_body-IsWhole calls body s none = closed-IsWhole calls body s

store_rendered-IsWhole :
    (calls : Calls) (body : Option Text) (s : Store)
    → IsWhole calls body s (store_rendered calls body s)
store_rendered-IsWhole calls none s = before-IsWhole calls none s not_rendered
store_rendered-IsWhole calls (some body) s =
    if-IsWhole calls (some body) s calls.mkdir_fails _ _
      (before-IsWhole calls (some body) s creating_dir)
      (if-IsWhole calls (some body) s calls.create_fails _ _
        (before-IsWhole calls (some body) s creating_temp)
        (store_body-IsWhole calls body s calls.write_stops))

-- Whatever system calls fail: without an error the snapshot is what was rendered, and with one it is what it was; and
-- the temporary files are those that were there before, but for the new one where there is an error and it could not be
-- removed.
pub write_applied_tfvars-IsWhole :
    (calls : Calls) (disk : Disk) (phase : Text) (sources : List Text) (now version : Text)
    (s : Store)
    → IsWhole calls
        (render_applied_tfvars disk.read phase sources now version)
        s
        (write_applied_tfvars calls disk phase sources now version s)
unfolding write_applied_tfvars
write_applied_tfvars-IsWhole calls disk phase sources now version s =
    let body = render_applied_tfvars disk.read phase sources now version in
    by_path (applied_tfvars_path disk phase) body
  where
    by_path :
        (path : Option Text) (body : Option Text)
        → IsWhole calls body s
            (elim path [ none ↦ (some no_path, s) | some p ↦ store_rendered calls body s ])
    by_path none body = before-IsWhole calls body s no_path
    by_path (some p) body = store_rendered-IsWhole calls body s
