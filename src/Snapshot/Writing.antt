-- ===== src/Snapshot/Writing.antt =====
-- The writers of internal/config/applied_tfvars.go and internal/orchestration/applied_replay.go: the text of the snapshot and
-- that of the replay file. The file system is a parameter.
use roksbnkctl.Prelude.{
  Bool, not, ◌&&◌, ◌||◌, Option, none, some, List, [], ◌∷◌, ◌++◌, eqb, if◌then◌else◌, is_nil, any,
  Text, lit, ◌==◌,
}
use roksbnkctl.Snapshot.{hcl_value_is_unbalanced, read_assignments, is_redacted}

-- What reading a file gives.
pub data FileRead : Type 0 where
  absent : FileRead
  failed : FileRead
  content : Text → FileRead

abbrev pub has_slash : Text → Bool
has_slash s = any (λ c. eqb c b'/') s

drop_slashes : Text → Text
drop_slashes [] = []
drop_slashes (c ∷ s) =
    let rest = drop_slashes s in if is_nil rest && eqb c b'/' then [] else c ∷ rest

behind_slash : Text → Text
behind_slash [] = []
behind_slash (c ∷ s) =
    let rest = behind_slash s in if has_slash s then rest else if eqb c b'/' then s else c ∷ s

-- `filepath.Base`.
unfoldable pub base : Text → Text
unfolding drop_slashes behind_slash
base [] = lit "."
base (c ∷ s) = let name = drop_slashes (c ∷ s) in if is_nil name then lit "/" else behind_slash name

unfoldable pub source_label : Text → Text
source_label path =
    if base path == lit "terraform.tfvars"
    then lit "config.yaml"
    else if base path == lit "terraform.tfvars.user"
    then lit "terraform.tfvars.user"
    else if base path == lit "cluster-phase-override.tfvars"
    then lit "cluster-phase override"
    else base path

-- A line and what is written behind it.
abbrev pub line_then : Text → Text → Text
line_then l rest = l ++ (b'\n' ∷ rest)

-- The line of an entry in the snapshot; a value may have further lines.
unfoldable pub snapshot_entry : Text → Text → Text
snapshot_entry k v =
    if is_redacted k
    then k ++ lit " = \"<redacted>\"  # source: cred resolver, not persisted"
    else if hcl_value_is_unbalanced v
    then lit "# " ++ k ++ lit " = <skipped: unbalanced brackets>"
    else k ++ lit " = " ++ v

unfoldable pub snapshot_entries : List (Text × Text) → Text → Text
snapshot_entries [] rest = rest
snapshot_entries ((k, v) ∷ m) rest = line_then (snapshot_entry k v) (snapshot_entries m rest)

module _ (files : Text → FileRead) where
  -- The loop over the sources; `none` is the error of a file that cannot be read.
  unfoldable pub snapshot_sections : List Text → Option Text
  snapshot_sections [] = some []
  snapshot_sections (src ∷ sources) =
      let label = source_label src in
      elim (snapshot_sections sources) [
        | none ↦ none
        | some rest ↦ elim (files src) [
          | failed ↦ none
          | absent ↦
              some
                (line_then (lit "# === from " ++ label ++ lit " (missing) ===") (line_then [] rest))
          | content text ↦ some (
              line_then (lit "# === from " ++ label ++ lit " ===")
                (snapshot_entries (read_assignments text) (line_then [] rest)))
        ]
      ]

  -- `renderAppliedTFVars`, for the time as it is formatted.
  unfoldable pub render_applied_tfvars : Text → List Text → Text → Text → Option Text
  render_applied_tfvars phase sources now version = elim (snapshot_sections sources) [
    | none ↦ none
    | some sections ↦ some (
        line_then
          (lit "# Generated by roksbnkctl "
            ++ version
            ++ lit " at "
            ++ now
            ++ lit " after terraform apply on phase="
            ++ phase
            ++ lit ".")
          (line_then
            (lit
              "# Re-generated each apply. Do not edit by hand — your changes will be overwritten.")
            (line_then [] sections)))
  ]

-- The line of an entry in the replay file.
unfoldable pub replay_entry : Text → Text → Text
replay_entry k v =
    if hcl_value_is_unbalanced v
    then lit "# " ++ k ++ lit " = <skipped: unbalanced brackets in the applied snapshot>"
    else k ++ lit " = " ++ v

unfoldable pub replay_entries : List (Text × Text) → Text
replay_entries [] = []
replay_entries ((k, v) ∷ m) = line_then (replay_entry k v) (replay_entries m)

-- What `writeAppliedReplayFile` writes.
unfoldable pub applied_replay_file : Text → List (Text × Text) → Text
applied_replay_file phase assigns =
    line_then
      (lit "# Auto-generated by roksbnkctl from terraform.applied.tfvars (phase="
        ++ phase
        ++ lit ").")
      (line_then (lit "# Deduped (later-source-wins) and stripped of redacted secret keys.") (
        line_then
          (lit
            "# Re-generated on every down/plan/apply. Do not edit by hand — your changes will be overwritten.")
          (line_then [] (replay_entries assigns))))

-- `delete(assigns, k)` for every redacted name.
unfoldable pub without_redacted : List (Text × Text) → List (Text × Text)
without_redacted [] = []
without_redacted ((k, v) ∷ m) =
    let rest = without_redacted m in if is_redacted k then rest else (k, v) ∷ rest

-- `ReadAppliedTFVarsReplayAssignments` on the snapshot's file; `none` is an error.
unfoldable pub replay_assignments : FileRead → Option (List (Text × Text))
replay_assignments failed = none
replay_assignments absent = some []
replay_assignments (content text) = some (without_redacted (read_assignments text))

-- The directories of a workspace's state.
pub data StateDir : Type 0 where
  cluster_state : StateDir
  trial_state : StateDir
  testing_state : StateDir
  gateway_state : StateDir

-- Where a phase keeps its state.
unfoldable pub state_of : Text → StateDir
state_of phase =
    if phase == lit "cluster"
    then cluster_state
    else if phase == lit "trial" || phase == lit "legacy-single"
    then trial_state
    else if phase == lit "testing"
    then testing_state
    else if phase == lit "gateway"
    then gateway_state
    else trial_state

-- The environment: where a state directory is, if it can be told, the files, and what a file holds once a text has been
-- written to it: nothing where it cannot be created, and less than the text where a write fails, whose error the code drops.
pub record Disk : Type 0 where
  pub dir : StateDir → Option Text
  pub read : Text → FileRead
  pub held : Text → Text → Option Text

-- `filepath.Join` of a directory and a file's name.
abbrev pub in_dir : Text → Text → Text
in_dir dir name = dir ++ lit "/" ++ name

module _ (disk : Disk) where
  -- `appliedTFVarsPath`.
  unfoldable pub applied_tfvars_path : Text → Option Text
  applied_tfvars_path phase = elim (disk.dir (state_of phase)) [
    | none ↦ none
    | some dir ↦ some (in_dir dir (lit "terraform.applied.tfvars"))
  ]

  -- `ReadAppliedTFVarsReplayAssignments`; `none` is an error.
  unfoldable pub read_replay_assignments : Text → Option (List (Text × Text))
  read_replay_assignments phase = elim (applied_tfvars_path phase) [
    | none ↦ none
    | some path ↦ replay_assignments (disk.read path)
  ]

  -- `LayerAppliedTFVars`: the path of the replay file and what it then holds, where there is one.
  unfoldable pub layer_applied_tfvars : Text → Option (Text × Text)
  layer_applied_tfvars phase = elim (read_replay_assignments phase) [
    | none ↦ none
    | some assigns ↦ if is_nil assigns then none else elim (disk.dir (state_of phase)) [
      | none ↦ none
      | some dir ↦
          let path = in_dir dir (lit ".applied-replay.tfvars") in
          elim (disk.held path (applied_replay_file phase assigns)) [
            | none ↦ none
            | some written ↦ some (path, written)
          ]
    ]
  ]

-- `RequireSnapshotOrVarFile`; whether it refuses.
unfoldable pub lacks_variables : List Text → List Text → Bool → Bool → Bool
lacks_variables replayed user_var_files has_user_tfvars config_renders_complete = not (
    not (is_nil replayed)
    || not (is_nil user_var_files)
    || has_user_tfvars
    || config_renders_complete)
