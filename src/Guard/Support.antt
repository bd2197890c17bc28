-- ===== src/Guard/Support.antt =====
-- internal/config/support_matrix.go, and guardSupportedCombination of
-- internal/orchestration/create_time_guard.go: which release line drives which cluster. The matrix is a
-- parsed YAML file of the build, so it is a parameter; `none` is a parse error.
use roksbnkctl.Prelude.{
  ℕ, ◌≡◌, ◌↔◌, ◌⊎◌, inl, inr, true, not, ◌&&◌, Option, none, some, List, [], ◌∷◌, arith, refl, sym,
  ◌∙◌, ltb, eqb, if◌then◌else◌, any, Text, empty, ◌==◌, ==_iff, Option-cases,
}
use roksbnkctl.Guard.{
  Workspace, ClusterOutputs, Failure, no_matrix, unknown_line, unsupported_mode, unsupported_schema,
  no_line, bnk_line, cluster_network_mode, network, schema, no_cluster,
}
use roksbnkctl.Guard.Settings.{Verdict, refused, allowed, line_not_known}

pub record SupportLine : Type 0 where
  pub bnk : Text
  pub contract : List ℕ
  pub network_modes : List Text

-- The rows in order; the first with the line is used.
unfoldable pub find_line : Text → List SupportLine → Option SupportLine
find_line bnk_line [] = none
find_line bnk_line (l ∷ lines) =
    let rest = find_line bnk_line lines in if l.bnk == bnk_line then some l else rest

abbrev pub row_allows : SupportLine → Text → ℕ → Option Failure
row_allows l mode version =
    if not (mode == empty) && not (any (λ x. x == mode) l.network_modes)
    then some (unsupported_mode l.bnk mode)
    else if ltb 0 version && not (any (λ n. eqb n version) l.contract)
    then some (unsupported_schema l.bnk version)
    else none

-- `CheckSupported`; `none` is a nil error.
unfoldable pub check_supported : Option (List SupportLine) → Text → Text → ℕ → Option Failure
check_supported none bnk_line mode version = some no_matrix
check_supported (some lines) bnk_line mode version = elim (find_line bnk_line lines) [
  | none ↦ some (unknown_line bnk_line)
  | some l ↦ row_allows l mode version
]

-- `errors.Is(err, config.ErrUnknownLine)` makes a warning of the failure.
abbrev verdict_of : Option Failure → Verdict
verdict_of none = allowed []
verdict_of (some (unknown_line line)) = allowed (line_not_known line ∷ [])
verdict_of (some f) = refused f

-- `guardSupportedCombination`; a record that cannot be read is `none`.
unfoldable pub guard_supported_combination :
    Option (List SupportLine) → Option Workspace → Option ClusterOutputs → Verdict
guard_supported_combination matrix none out = allowed []
guard_supported_combination matrix (some w) out = elim (bnk_line (some w)) [
  | none ↦ refused (no_line w.manifest_version)
  | some line ↦
      if no_cluster out
      then verdict_of (check_supported matrix line (cluster_network_mode (some w)) 0)
      else verdict_of (check_supported matrix line (network out) (schema out))
]

-- A row drives a cluster when it lists the cluster's mode and schema; an empty mode and the schema 0
-- are not known and not compared.
abbrev pub Drives : SupportLine → Text → ℕ → Type 0
Drives l mode version =
    ((mode ≡ empty) ⊎ (any (λ x. x == mode) l.network_modes ≡ true))
    × ((version ≡ 0) ⊎ (any (λ n. eqb n version) l.contract ≡ true))

row_allows-Drives :
    (l : SupportLine) (mode : Text) (version : ℕ)
    → (row_allows l mode version ≡ none) ↔ Drives l mode version
row_allows-Drives l mode version = ground (arith, ==_iff mode empty)

check_supported-row :
    (lines : List SupportLine) (line mode : Text) (version : ℕ) (l : SupportLine)
    → find_line line lines ≡ some l
    → check_supported (some lines) line mode version ≡ row_allows l mode version
unfolding check_supported
check_supported-row lines line mode version l found = rw (found, check_supported) refl

-- CheckSupported accepts a line, a mode and a schema exactly when the matrix, which was parsed, has a row
-- for the line, and the first such row lists the mode, if one is given, and the schema, if it is not 0.
pub check_supported-Drives :
    (lines : List SupportLine) (line mode : Text) (version : ℕ)
    → (check_supported (some lines) line mode version ≡ none)
      ↔ ((l : SupportLine) × (find_line line lines ≡ some l) × Drives l mode version)
unfolding check_supported
check_supported-Drives lines line mode version = (
  λ e. elim (Option-cases (find_line line lines)) [
    | inl missing ↦ ground arith
    | inr (l, found) ↦
        let row = check_supported-row lines line mode version l found in
        (l, found, (row_allows-Drives l mode version).0 (sym row ∙ e))
  ],
  λ d.
      check_supported-row lines line mode version d.0 d.1
      ∙ (row_allows-Drives d.0 mode version).1 d.2,
)
