-- ===== src/Guard/Settings.antt =====
-- internal/orchestration/create_time_guard.go, guardCreateTimeSettings.
use roksbnkctl.Prelude.{
  Bool, false, not, ◌&&◌, Option, none, some, List, [], ◌∷◌, if◌then◌else◌, Text, empty, ◌==◌,
  trim_space,
}
use roksbnkctl.Guard.{Workspace, ClusterOutputs, Failure, check_network_mode}
use roksbnkctl.Guard.Applied.{
  check_namespace_topology, check_line_change, check_manifest_version_change,
}

-- What guardCreateTimeSettings reads: `cluster-outputs.json`, whether the BNK state has resources,
-- and the applied variables of the BNK phase; `none` is an error of the read.
pub record Readings : Type 0 where
  pub outputs : Option ClusterOutputs
  pub bnk_present : Option Bool
  pub applied : Option (List (Text × Text))

-- The warning has the cluster, the CIDR it was built from and the configured one.
pub data Warning : Type 0 where
  cidr_changed : Text → Text → Text → Warning
  line_not_known : Text → Warning

pub data Verdict : Type 0 where
  refused : Failure → Verdict
  allowed : List Warning → Verdict

-- The call of `DetectPresence` with its condition: an error counts as absent.
unfoldable pub is_present : Option Bool → Bool
is_present none = false
is_present (some present) = present

abbrev pub first_failure : List (Option Failure) → Option Failure
first_failure [] = none
first_failure (none ∷ checks) = first_failure checks
first_failure (some f ∷ checks) = some f

-- The checks under `err == nil && bnkPresent`.
unfoldable pub check_applied : Workspace → Readings → Option Failure
check_applied w readings = elim readings.applied [
  | none ↦ none
  | some applied ↦
      if is_present readings.bnk_present
      then first_failure (
          check_namespace_topology (some w) applied
          ∷ check_line_change (some w) applied
          ∷ check_manifest_version_change (some w) applied
          ∷ [])
      else none
]

unfoldable pub cidr_warnings : Workspace → Option ClusterOutputs → List Warning
cidr_warnings w none = []
cidr_warnings w (some c) =
    let cidr = trim_space w.vpc_cidr in
    if c.cluster_id == empty
    then []
    else if not (cidr == empty) && not (c.vpc_cidr == empty) && not (cidr == c.vpc_cidr)
    then cidr_changed c.cluster_name c.vpc_cidr cidr ∷ []
    else []

-- `guardCreateTimeSettings`; a nil context or workspace is `none`.
unfoldable pub guard_create_time_settings : Option Workspace → Readings → Verdict
guard_create_time_settings none readings = allowed []
guard_create_time_settings (some w) readings =
    elim (first_failure
      (check_network_mode (some w) readings.outputs ∷ check_applied w readings ∷ [])) [
        | some f ↦ refused f
        | none ↦ allowed (cidr_warnings w readings.outputs)
      ]
