-- ===== src/Guard/Tests.antt =====
-- Runs of the checks before `bnk up`, and the theorems at a concrete workspace.
use roksbnkctl.Prelude.{
  ◌≡◌, ◌↔◌, ◌⊎◌, refl, true, false, none, some, List, [], ◌∷◌, Text, lit, empty, ◌==◌, trim_space,
}
use roksbnkctl.Guard.{
  Workspace, ClusterOutputs, changed_line, changed_manifest, mode_changed, single_nic, multi_nic,
  default_manifest_version, default_flo_namespace, default_flo_utils_namespace, span_digits,
  ends_version, match_line, manifest_or_default, bnk_line, bnk_line_or_empty, cluster_network_mode,
  valid_network_mode, schema, network, no_cluster, no_opinion, check_network_mode, flo_namespace_of,
  flo_utils_namespace_of,
}
use roksbnkctl.Guard.Applied.{
  tfvar_string, recorded, check_namespace_topology, check_line_change,
  check_manifest_version_change, prior_workspace,
}
use roksbnkctl.Guard.Settings.{
  Readings, refused, allowed, line_not_known, is_present, check_applied, cidr_warnings,
  guard_create_time_settings,
}
use roksbnkctl.Guard.Line.{IsLine, match_line-IsLine}
use roksbnkctl.Guard.CreateTime.{
  SameNamespaces, SameLine, SameManifest, guard_create_time_settings-unchanged,
}
use roksbnkctl.Guard.Support.{
  SupportLine, find_line, check_supported, guard_supported_combination, Drives,
  check_supported-Drives,
}

checks : Unit {0}
unfolding lit ◌==◌ trim_space single_nic multi_nic default_manifest_version default_flo_namespace
    default_flo_utils_namespace span_digits ends_version match_line manifest_or_default bnk_line
    bnk_line_or_empty cluster_network_mode valid_network_mode schema network no_cluster no_opinion
    check_network_mode flo_namespace_of flo_utils_namespace_of tfvar_string recorded
    check_namespace_topology check_line_change check_manifest_version_change is_present
    check_applied cidr_warnings guard_create_time_settings find_line check_supported
    guard_supported_combination
checks = tt

abbrev on : Text → Workspace
on version = record {
  network_mode = lit "multi-nic";
  vpc_cidr = empty;
  manifest_version = version;
  flo_namespace = empty;
  flo_utils_namespace = empty;
}

abbrev built : ClusterOutputs
built = record {
  cluster_name = lit "dev";
  cluster_id = lit "c9";
  schema_version = 2;
  network_mode = lit "multi-nic";
  vpc_cidr = empty;
}

abbrev applied : List (Text × Text)
applied =
    (lit "flo_namespace", lit "\"f5-bnk\"")
    ∷ (lit "bnk_line", lit "\"2.3\"")
    ∷ (lit "f5_bigip_k8s_manifest_version", lit "\"2.3.0\"")
    ∷ []

abbrev installed : Readings
installed = record { outputs = some built; bnk_present = some true; applied = some applied }

abbrev removed : Readings
removed = record { outputs = some built; bnk_present = some false; applied = some applied }

guard_tests :
    (guard_create_time_settings (some (on (lit "2.4.0"))) installed
      ≡ refused (changed_line (lit "2.3") (lit "2.4")))
    × (guard_create_time_settings (some (on (lit "2.3.1"))) installed
        ≡ refused (changed_manifest (lit "2.3.0") (lit "2.3.1")))
    × (guard_create_time_settings (some (on (lit "2.4.0"))) removed ≡ allowed [])
    × (match_line (lit "2.40-EA") ≡ some (lit "2.40"))
    × (match_line (lit "2.4x") ≡ none)
unfolding checks
guard_tests = (refl, refl, refl, refl, refl)

passed : guard_create_time_settings (some (on (lit "2.3.0"))) installed ≡ allowed []
unfolding checks
passed = refl

present : is_present (some true) ≡ true
unfolding checks
present = refl

absent : is_present (some false) ≡ false
unfolding checks
absent = refl

consistent :
    bnk_line_or_empty
      (some (prior_workspace (recorded applied (lit "f5_bigip_k8s_manifest_version"))))
    ≡ recorded applied (lit "bnk_line")
unfolding checks
consistent = refl

guard_create_time_settings-unchanged_example :
    (((recorded applied (lit "flo_namespace") ≡ empty)
        × (recorded applied (lit "flo_utils_namespace") ≡ empty))
      ⊎ SameNamespaces (on (lit "2.3.0")) applied)
    × SameLine (on (lit "2.3.0")) applied
    × SameManifest (on (lit "2.3.0")) applied
guard_create_time_settings-unchanged_example =
    guard_create_time_settings-unchanged (on (lit "2.3.0")) installed applied [] refl present
      consistent passed

abbrev single : Workspace
single = record (on (lit "2.4.0")) { network_mode = lit "single-nic" }

-- Without an install, only the network mode is compared.
mode_refused :
    guard_create_time_settings (some single) removed
    ≡ refused (mode_changed (lit "multi-nic") (lit "single-nic"))
unfolding checks
mode_refused = refl

match_line-IsLine_example :
    (match_line (lit "2.40-EA") ≡ some (lit "2.40")) ↔ IsLine (lit "2.40-EA") (lit "2.40")
match_line-IsLine_example = match_line-IsLine (lit "2.40-EA") (lit "2.40")

abbrev matrix : List SupportLine
matrix =
    record { bnk = lit "2.3"; contract = 1 ∷ 2 ∷ []; network_modes = lit "single-nic" ∷ [] }
    ∷ record { bnk = lit "2.4"; contract = 1 ∷ 2 ∷ []; network_modes = lit "single-nic" ∷ [] }
    ∷ []

check_supported-Drives_example :
    (check_supported (some matrix) (lit "2.4") (lit "single-nic") 2 ≡ none)
    ↔ ((l : SupportLine) × (find_line (lit "2.4") matrix ≡ some l) × Drives l (lit "single-nic") 2)
check_supported-Drives_example = check_supported-Drives matrix (lit "2.4") (lit "single-nic") 2

unknown_line :
    guard_supported_combination (some matrix) (some (on (lit "2.5.0"))) (some built)
    ≡ allowed (line_not_known (lit "2.5") ∷ [])
unfolding checks
unknown_line = refl
