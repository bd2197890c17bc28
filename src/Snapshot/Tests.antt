-- ===== src/Snapshot/Tests.antt =====
-- Runs of the reader and the writers of applied variables, and the theorems at concrete files.
use roksbnkctl.Prelude.{
  none, false, ◌≡◌, refl, sym, some_injective, true, false, some, List, [], ◌∷◌, if◌then◌else◌, all,
  All, Text, lit, ◌==◌, has_prefix, trim_space, ends_visibly,
}
use roksbnkctl.Snapshot.{
  split_lines, trim_cr, span_name, skip_spaces, assignment, strip_comment, depth_from,
  block_depth_delta, hcl_value_is_unbalanced, consume_block, parse_entry, precedes, put, read_from,
  read_assignments,
}
use roksbnkctl.Snapshot.Lines.{is_line}
use roksbnkctl.Snapshot.Values.{is_plain}
use roksbnkctl.Snapshot.RoundTrip.{balanced}
use roksbnkctl.Snapshot.Replay.{no_redacted, WritesWhole, layer_applied_tfvars-read_assignments}
use roksbnkctl.Snapshot.Rendered.{kept, kept_all, merged}
use roksbnkctl.Snapshot.Sections.{IsSource}
use roksbnkctl.Snapshot.Merged.{IsHidden, render_applied_tfvars-merged}
use roksbnkctl.Snapshot.Store.{
  Calls, Store, changing_mode, write_applied_tfvars, IsWhole, write_applied_tfvars-IsWhole,
}
use roksbnkctl.Snapshot.Writing.{
  FileRead, absent, content, Disk, base, source_label, snapshot_entry, snapshot_entries,
  snapshot_sections, render_applied_tfvars, replay_entry, replay_entries, applied_replay_file,
  without_redacted, replay_assignments, state_of, applied_tfvars_path, read_replay_assignments,
  layer_applied_tfvars,
}

variables : Unit {0}
unfolding lit ◌==◌ has_prefix trim_space ends_visibly split_lines trim_cr span_name skip_spaces
    assignment strip_comment depth_from block_depth_delta hcl_value_is_unbalanced consume_block
    parse_entry precedes put read_from read_assignments base source_label snapshot_entry
    snapshot_entries snapshot_sections render_applied_tfvars replay_entry replay_entries
    applied_replay_file without_redacted replay_assignments state_of applied_tfvars_path
    read_replay_assignments layer_applied_tfvars kept kept_all merged balanced
variables = tt

-- A value with further lines, one in a comment, one that is a secret, and one that is never closed.
abbrev snapshot : Text
snapshot =
    lit
      "region = \"us-south\"  # where\nzones = [\n  \"a\", # ]\n  \"b\"\n]\nibmcloud_api_key = \"k\"\nopen = {\nnodes = 3\n"

read_tests :
    (read_assignments snapshot
      ≡ (lit "ibmcloud_api_key", lit "\"k\"")
        ∷ (lit "nodes", lit "3")
        ∷ (lit "region", lit "\"us-south\"")
        ∷ (lit "zones", lit "[\n  \"a\", # ]\n  \"b\"\n]")
        ∷ [])
    × (read_assignments (lit "over = [\n]]\nx = 1") ≡ (lit "x", lit "1") ∷ [])
    × (source_label (lit "/home/u/state/terraform.tfvars") ≡ lit "config.yaml")
unfolding variables
read_tests = (refl, refl, refl)

-- The sign of a comment is taken as one in a string too, and the string is left open.
string_test :
    (read_assignments (lit "x = \"a #b\"") ≡ (lit "x", lit "\"a") ∷ [])
    × (hcl_value_is_unbalanced (lit "\"a") ≡ false)
unfolding variables
string_test = (refl, refl)

abbrev disk : Disk
disk = record {
  dir = λ d. some (lit "state");
  read = λ path. content snapshot;
  held = λ path text. some text;
}

disk-WritesWhole : WritesWhole disk
disk-WritesWhole path text written h = some_injective (sym h)

snapshot_plain : all is_plain snapshot ≡ true
unfolding variables
snapshot_plain = refl

snapshot_path :
    applied_tfvars_path disk (lit "cluster") ≡ some (lit "state/terraform.applied.tfvars")
unfolding variables
snapshot_path = refl

abbrev replayed : Text
replayed =
    lit
      "# Auto-generated by roksbnkctl from terraform.applied.tfvars (phase=cluster).\n# Deduped (later-source-wins) and stripped of redacted secret keys.\n# Re-generated on every down/plan/apply. Do not edit by hand — your changes will be overwritten.\n\nnodes = 3\nregion = \"us-south\"\nzones = [\n  \"a\", # ]\n  \"b\"\n]\n"

layered :
    layer_applied_tfvars disk (lit "cluster") ≡ some (lit "state/.applied-replay.tfvars", replayed)
unfolding variables
layered = refl

phase_line : is_line (lit "cluster") ≡ true
unfolding lit
phase_line = refl

layer_applied_tfvars-read_assignments_example :
    (read_assignments replayed ≡ balanced (without_redacted (read_assignments snapshot)))
    × (no_redacted (read_assignments replayed) ≡ true)
layer_applied_tfvars-read_assignments_example =
    layer_applied_tfvars-read_assignments disk (lit "cluster") snapshot
      (lit "state/terraform.applied.tfvars") (lit "state/.applied-replay.tfvars") replayed
      disk-WritesWhole phase_line snapshot_plain snapshot_path refl layered

-- Two sources, the second of which is missing.
abbrev files : Text → FileRead
files path = if path == lit "a/terraform.tfvars" then content snapshot else absent

abbrev sources : List Text
sources = lit "a/terraform.tfvars" ∷ lit "b/extra.tfvars" ∷ []

first-IsSource : IsSource files (lit "a/terraform.tfvars")
unfolding variables
first-IsSource = (refl, refl)

second-IsSource : IsSource files (lit "b/extra.tfvars")
unfolding variables
second-IsSource = (refl, refl)

abbrev rendered : Text
rendered =
    lit
      "# Generated by roksbnkctl 1.0 at noon after terraform apply on phase=cluster.\n# Re-generated each apply. Do not edit by hand — your changes will be overwritten.\n\n# === from config.yaml ===\nibmcloud_api_key = \"<redacted>\"  # source: cred resolver, not persisted\nnodes = 3\nregion = \"us-south\"\nzones = [\n  \"a\", # ]\n  \"b\"\n]\n\n# === from extra.tfvars (missing) ===\n\n"

rendered_written :
    render_applied_tfvars files (lit "cluster") sources (lit "noon") (lit "1.0") ≡ some rendered
unfolding variables
rendered_written = refl

now_line : is_line (lit "noon") ≡ true
unfolding lit
now_line = refl

version_line : is_line (lit "1.0") ≡ true
unfolding lit
version_line = refl

render_applied_tfvars-merged_example :
    (read_assignments rendered ≡ merged files sources []) × All IsHidden (read_assignments rendered)
render_applied_tfvars-merged_example =
    render_applied_tfvars-merged files (lit "cluster") (lit "noon") (lit "1.0") rendered sources
      phase_line now_line version_line (first-IsSource, (second-IsSource, tt)) rendered_written

abbrev calls : Calls
calls = record {
  mkdir_fails = false;
  create_fails = false;
  write_stops = none;
  close_fails = false;
  chmod_fails = true;
  rename_fails = false;
  remove_fails = false;
}

abbrev store : Store
store = record { target = some (lit "old"); temps = lit "stale" ∷ [] }

abbrev snapshot_disk : Disk
snapshot_disk = record disk { read = files }

write_test :
    write_applied_tfvars calls snapshot_disk (lit "cluster") sources (lit "noon") (lit "1.0") store
    ≡ (some changing_mode, store)
unfolding variables write_applied_tfvars
write_test = refl

write_applied_tfvars-IsWhole_example :
    IsWhole calls
      (render_applied_tfvars files (lit "cluster") sources (lit "noon") (lit "1.0"))
      store
      (write_applied_tfvars calls snapshot_disk
        (lit "cluster")
        sources
        (lit "noon")
        (lit "1.0")
        store)
write_applied_tfvars-IsWhole_example =
    write_applied_tfvars-IsWhole calls snapshot_disk (lit "cluster") sources (lit "noon")
      (lit "1.0") store
