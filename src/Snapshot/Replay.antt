-- ===== src/Snapshot/Replay.antt =====
-- What `LayerAppliedTFVars` hands to terraform.
use roksbnkctl.Prelude.{
  ◌≡◌, refl, sym, ap, subst, ◌∙◌, arith, Bool, true, not, ◌&&◌, some, List, [], ◌∷◌, lit,
  if◌then◌else◌, all, All, Text, inl, inr, some_injective, Bool-cases, Option-cases,
}
use roksbnkctl.Snapshot.{is_redacted, read_assignments}
use roksbnkctl.Snapshot.Lines.{is_line}
use roksbnkctl.Snapshot.Values.{is_plain}
use roksbnkctl.Snapshot.Maps.{follow, is_ascending}
use roksbnkctl.Snapshot.Recorded.{IsEntry, read_assignments-is_ascending, read_assignments-IsEntry}
use roksbnkctl.Snapshot.Writing.{
  content, applied_replay_file, without_redacted, replay_assignments, Disk, state_of, in_dir,
  applied_tfvars_path, read_replay_assignments, layer_applied_tfvars,
}
use roksbnkctl.Snapshot.RoundTrip.{balanced, applied_replay_file-entries}

without_redacted-IsEntry :
    (m : List (Text × Text)) → All IsEntry m → All IsEntry (without_redacted m)
unfolding without_redacted
without_redacted-IsEntry [] h = tt
without_redacted-IsEntry ((k, v) ∷ m) (e, h) = elim (Bool-cases (is_redacted k)) [
  | inl r ↦
      subst (λ b. All IsEntry (if b then without_redacted m else (k, v) ∷ without_redacted m))
        (sym r) (without_redacted-IsEntry m h)
  | inr r ↦
      subst (λ b. All IsEntry (if b then without_redacted m else (k, v) ∷ without_redacted m))
        (sym r) (e, without_redacted-IsEntry m h)
]

without_redacted-follow :
    (key : Text) (m : List (Text × Text))
    → follow key m ≡ true
    → follow key (without_redacted m) ≡ true
unfolding without_redacted
without_redacted-follow key [] h = refl
without_redacted-follow key ((k, v) ∷ m) h = ground (arith, without_redacted-follow key m)

without_redacted-is_ascending :
    (m : List (Text × Text)) → is_ascending m ≡ true → is_ascending (without_redacted m) ≡ true
unfolding without_redacted
without_redacted-is_ascending [] h = refl
without_redacted-is_ascending ((k, v) ∷ m) h =
    ground (arith, without_redacted-is_ascending m, without_redacted-follow k m)

-- No entry is of a redacted name.
abbrev pub no_redacted : List (Text × Text) → Bool
no_redacted [] = true
no_redacted ((k, v) ∷ m) = not (is_redacted k) && no_redacted m

no_redacted-balanced : (m : List (Text × Text)) → no_redacted (balanced (without_redacted m)) ≡ true
unfolding without_redacted balanced
no_redacted-balanced [] = refl
no_redacted-balanced ((k, v) ∷ m) = ground (arith, no_redacted-balanced m)

-- Every file that can be created holds the whole text that is written to it.
abbrev pub WritesWhole : Disk → Type 0
WritesWhole disk = (path text written : Text) → disk.held path text ≡ some written → written ≡ text

-- A replay file that is layered comes from a snapshot.
layer_applied_tfvars-parts :
    (disk : Disk) (phase path written : Text)
    → WritesWhole disk
    → layer_applied_tfvars disk phase ≡ some (path, written)
    → (assigns : List (Text × Text)) × (read_replay_assignments disk phase ≡ some assigns)
      × (written ≡ applied_replay_file phase assigns)
unfolding layer_applied_tfvars
layer_applied_tfvars-parts disk phase path written complete h =
    elim (Option-cases (read_replay_assignments disk phase)) [
      | inl e ↦ ground arith
      | inr (assigns, e) ↦ elim (Option-cases (disk.dir (state_of phase))) [
        | inl f ↦ ground arith
        | inr (dir, f) ↦
            let file = in_dir dir (lit ".applied-replay.tfvars") in
            let body = applied_replay_file phase assigns in
            elim (Option-cases (disk.held file body)) [
              | inl g ↦ ground arith
              | inr (held, g) ↦
                  let same : held ≡ written = ground arith in
                  (assigns, e, sym same ∙ complete file body held g)
            ]
      ]
    ]

snapshot_of :
    (disk : Disk) (phase : Text) (assigns : List (Text × Text))
    → read_replay_assignments disk phase ≡ some assigns
    → (path : Text) × (applied_tfvars_path disk phase ≡ some path)
      × (replay_assignments (disk.read path) ≡ some assigns)
unfolding read_replay_assignments
snapshot_of disk phase assigns h = elim (Option-cases (applied_tfvars_path disk phase)) [
  | inl e ↦ ground arith
  | inr (path, e) ↦ (path, e, ground arith)
]

replay_assignments-content :
    (t : Text) (assigns : List (Text × Text))
    → replay_assignments (content t) ≡ some assigns
    → assigns ≡ without_redacted (read_assignments t)
unfolding replay_assignments
replay_assignments-content t assigns h = sym (some_injective h)

-- Where every write is complete, the phase is one line, and the snapshot of the phase is a text whose characters are
-- whitespace as the expressions have it, or visible: the replay file reads back as the entries of the snapshot, those
-- with unbalanced brackets and those of redacted names left out.
pub layer_applied_tfvars-read_assignments :
    (disk : Disk) (phase t snapshot path written : Text)
    → WritesWhole disk
    → is_line phase ≡ true
    → all is_plain t ≡ true
    → applied_tfvars_path disk phase ≡ some snapshot
    → disk.read snapshot ≡ content t
    → layer_applied_tfvars disk phase ≡ some (path, written)
    → (read_assignments written ≡ balanced (without_redacted (read_assignments t)))
      × (no_redacted (read_assignments written) ≡ true)
layer_applied_tfvars-read_assignments disk phase t snapshot path written complete line plain at file
      h =
    let (assigns, e, same) = layer_applied_tfvars-parts disk phase path written complete h in
    let (p, f, g) = snapshot_of disk phase assigns e in
    let here : snapshot ≡ p = some_injective (sym at ∙ f) in
    let from : assigns ≡ without_redacted (read_assignments t) =
      replay_assignments-content t assigns
        (ap replay_assignments (sym file ∙ ap disk.read here) ∙ g) in
    let m = without_redacted (read_assignments t) in
    let back : read_assignments written ≡ balanced m =
      ap read_assignments (same ∙ ap (applied_replay_file phase) from)
      ∙ applied_replay_file-entries phase m line
          (without_redacted-IsEntry (read_assignments t) (read_assignments-IsEntry t plain))
          (without_redacted-is_ascending (read_assignments t) (read_assignments-is_ascending t)) in
    (back, ap no_redacted back ∙ no_redacted-balanced (read_assignments t))
