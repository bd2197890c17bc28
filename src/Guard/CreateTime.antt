-- ===== src/Guard/CreateTime.antt =====
-- internal/orchestration/create_time_guard.go: what guardCreateTimeSettings lets through.
use roksbnkctl.Prelude.{
  ◌≡◌, ◌⊎◌, if◌then◌else◌, inl, inr, true, ◌&&◌, none, some, List, arith, Text, lit, empty, ◌==◌,
  ==_sound, ==_iff, Bool-cases,
}
use roksbnkctl.Guard.{
  Workspace, flo_namespace_of, flo_utils_namespace_of, default_flo_namespace,
  default_flo_utils_namespace, bnk_line_or_empty,
}
use roksbnkctl.Guard.Applied.{
  recorded, check_namespace_topology, check_line_change, check_manifest_version_change,
  prior_workspace,
}
use roksbnkctl.Guard.Settings.{
  Readings, Warning, allowed, check_applied, is_present, guard_create_time_settings,
}

-- The recorded namespaces, an unset one as its default, are those that the workspace asks for.
abbrev namespace_or : Text → Text → Text
namespace_or v default = if v == empty then default else v

pub record SameNamespaces (w : Workspace) (applied : List (Text × Text)) : Type 0 where
  pub same_flo :
      flo_namespace_of w
      ≡ namespace_or (recorded applied (lit "flo_namespace")) default_flo_namespace
  pub same_utils :
      flo_utils_namespace_of w
      ≡ namespace_or (recorded applied (lit "flo_utils_namespace")) default_flo_utils_namespace

check_namespace_topology-SameNamespaces :
    (w : Workspace) (applied : List (Text × Text))
    → check_namespace_topology (some w) applied ≡ none
    → ((recorded applied (lit "flo_namespace") ≡ empty)
        × (recorded applied (lit "flo_utils_namespace") ≡ empty))
      ⊎ SameNamespaces w applied
unfolding check_namespace_topology
check_namespace_topology-SameNamespaces w applied ok =
    let flo = recorded applied (lit "flo_namespace") in
    let utils = recorded applied (lit "flo_utils_namespace") in
    elim (Bool-cases (flo == empty && utils == empty)) [
      | inl unset ↦ inl (ground (arith, ==_sound flo empty), ground (arith, ==_sound utils empty))
      | inr set ↦
          elim (Bool-cases (
            flo_namespace_of w == namespace_or flo default_flo_namespace
            && flo_utils_namespace_of w == namespace_or utils default_flo_utils_namespace)) [
              | inl same ↦ inr (record {
                same_flo =
                    ==_sound (flo_namespace_of w) (namespace_or flo default_flo_namespace)
                      (ground arith);
                same_utils =
                    ==_sound (flo_utils_namespace_of w)
                      (namespace_or utils default_flo_utils_namespace) (ground arith);
              })
              | inr other ↦ ground arith
            ]
    ]

check_line_change-none :
    (w : Workspace) (applied : List (Text × Text))
    → check_line_change (some w) applied ≡ none
    → (recorded applied (lit "bnk_line") ≡ empty)
      ⊎ ((bnk_line_or_empty (some w) ≡ empty)
          ⊎ (bnk_line_or_empty (some w) ≡ recorded applied (lit "bnk_line")))
unfolding check_line_change
check_line_change-none w applied ok = ground (
  arith,
  ==_sound (recorded applied (lit "bnk_line")) empty,
  ==_sound (bnk_line_or_empty (some w)) empty,
  ==_sound (bnk_line_or_empty (some w)) (recorded applied (lit "bnk_line")),
)

-- The recorded line or the workspace's is not known, or they are the same.
pub SameLine : Workspace → List (Text × Text) → Type 0
SameLine w applied =
    (recorded applied (lit "bnk_line") ≡ empty)
    ⊎ ((bnk_line_or_empty (some w) ≡ empty)
        ⊎ (bnk_line_or_empty (some w) ≡ recorded applied (lit "bnk_line")))

pub SameManifest : Workspace → List (Text × Text) → Type 0
SameManifest w applied =
    (recorded applied (lit "f5_bigip_k8s_manifest_version") ≡ empty)
    ⊎ ((w.manifest_version ≡ empty)
        ⊎ (w.manifest_version ≡ recorded applied (lit "f5_bigip_k8s_manifest_version")))

check_manifest_version_change-none :
    (w : Workspace) (applied : List (Text × Text))
    → (bnk_line_or_empty
          (some (prior_workspace (recorded applied (lit "f5_bigip_k8s_manifest_version"))))
        ≡ recorded applied (lit "bnk_line"))
    → check_line_change (some w) applied ≡ none
    → check_manifest_version_change (some w) applied ≡ none
    → SameManifest w applied
unfolding check_manifest_version_change SameManifest
check_manifest_version_change-none w applied consistent line_ok ok =
    let prior = recorded applied (lit "f5_bigip_k8s_manifest_version") in
    let prior_line = bnk_line_or_empty (some (prior_workspace prior)) in
    let current_line = bnk_line_or_empty (some w) in
    ground (
      arith,
      ==_iff prior empty,
      ==_iff w.manifest_version empty,
      ==_iff w.manifest_version prior,
      ==_iff prior_line empty,
      ==_iff current_line empty,
      ==_iff current_line prior_line,
      check_line_change-none w applied line_ok,
    )

check_applied-none :
    (w : Workspace) (readings : Readings) (applied : List (Text × Text))
    → readings.applied ≡ some applied
    → is_present readings.bnk_present ≡ true
    → check_applied w readings ≡ none
    → (check_namespace_topology (some w) applied ≡ none)
      × (check_line_change (some w) applied ≡ none)
      × (check_manifest_version_change (some w) applied ≡ none)
unfolding check_applied
check_applied-none w readings applied read present ok = ground arith

guard_create_time_settings-checked :
    (w : Workspace) (readings : Readings) (warnings : List Warning)
    → guard_create_time_settings (some w) readings ≡ allowed warnings
    → check_applied w readings ≡ none
unfolding guard_create_time_settings
guard_create_time_settings-checked w readings warnings passed = ground arith

-- When guardCreateTimeSettings lets a run pass on a workspace whose BNK install is present, with a
-- readable record of the applied variables in which the line is that of the manifest version, the
-- namespaces are the recorded ones unless none is recorded, and so are the manifest version and the line
-- unless one side does not name them.
pub guard_create_time_settings-unchanged :
    (w : Workspace) (readings : Readings) (applied : List (Text × Text)) (warnings : List Warning)
    → readings.applied ≡ some applied
    → is_present readings.bnk_present ≡ true
    → (bnk_line_or_empty
          (some (prior_workspace (recorded applied (lit "f5_bigip_k8s_manifest_version"))))
        ≡ recorded applied (lit "bnk_line"))
    → guard_create_time_settings (some w) readings ≡ allowed warnings
    → (((recorded applied (lit "flo_namespace") ≡ empty)
          × (recorded applied (lit "flo_utils_namespace") ≡ empty))
        ⊎ SameNamespaces w applied)
      × SameLine w applied
      × SameManifest w applied
unfolding SameLine
guard_create_time_settings-unchanged w readings applied warnings read present consistent passed =
    let (namespaces_ok, line_ok, manifest_ok) =
      check_applied-none w readings applied read present
        (guard_create_time_settings-checked w readings warnings passed) in
    (
      check_namespace_topology-SameNamespaces w applied namespaces_ok,
      check_line_change-none w applied line_ok,
      check_manifest_version_change-none w applied consistent line_ok manifest_ok,
    )
