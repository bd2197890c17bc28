-- ===== src/Guard.antt =====
-- internal/config/bnkversion.go, with the defaults of cluster_outputs.go and BNKNamespaces of
-- namespace_topology.go: the release line, the network mode and the namespaces that a workspace asks for,
-- and the failures of the checks that `bnk up` makes before it plans.
pub mod Line
pub mod Applied
pub mod Settings
pub mod CreateTime
pub mod Support
mod Tests
use roksbnkctl.Prelude.{
  ℕ, ◌≡◌, Bool, true, false, not, ◌&&◌, ◌||◌, Option, none, some, List, [], ◌∷◌, ◌++◌, ltb, leb,
  eqb, if◌then◌else◌, is_nil, Text, lit, empty, ◌==◌, trim_space,
}

-- The fields of config.Workspace that the checks read. A nil workspace is `none`.
pub record Workspace : Type 0 where
  pub network_mode : Text
  pub vpc_cidr : Text
  pub manifest_version : Text
  pub flo_namespace : Text
  pub flo_utils_namespace : Text

-- The fields of config.ClusterOutputs that the checks read. A schema version is not negative.
pub record ClusterOutputs : Type 0 where
  pub cluster_name : Text
  pub cluster_id : Text
  pub schema_version : ℕ
  pub network_mode : Text
  pub vpc_cidr : Text

pub data Failure : Type 0 where
  no_workspace : Failure
  no_line : Text → Failure
  unknown_mode : Text → Failure
  mode_changed : Text → Text → Failure
  collapsed_namespaces : Text → Text → Text → Failure
  changed_namespaces : Text → Text → Text → Text → Failure
  changed_line : Text → Text → Failure
  changed_manifest : Text → Text → Failure
  no_matrix : Failure
  unknown_line : Text → Failure
  unsupported_mode : Text → Text → Failure
  unsupported_schema : Text → ℕ → Failure

unfoldable pub single_nic : Text
single_nic = lit "single-nic"

unfoldable pub multi_nic : Text
multi_nic = lit "multi-nic"

unfoldable pub default_manifest_version : Text
default_manifest_version = lit "2.3.0-3.2598.3-0.0.170"

unfoldable pub default_flo_namespace : Text
default_flo_namespace = lit "f5-bnk"

unfoldable pub default_flo_utils_namespace : Text
default_flo_utils_namespace = lit "f5-utils"

-- A digit of the pattern ^(\d+)\.(\d+)(?:[.\-]|$).
abbrev pub is_digit : ℕ → Bool
is_digit c = leb b'0' c && leb c b'9'

-- The longest run of digits at the front, and what follows.
unfoldable pub span_digits : Text → Text × Text
span_digits [] = ([], [])
span_digits (c ∷ s) =
    let (run, rest) = span_digits s in if is_digit c then (c ∷ run, rest) else ([], c ∷ s)

unfoldable pub ends_version : Text → Bool
ends_version [] = true
ends_version (c ∷ s) = eqb c b'.' || eqb c b'-'

after_dot : Text → Text → Option Text
after_dot major [] = none
after_dot major (c ∷ s) =
    let (minor, rest) = span_digits s in
    if eqb c b'.' && not (is_nil minor) && ends_version rest
    then some (major ++ (lit "." ++ minor))
    else none

-- `manifestVersionRe` and the line made of its two groups. A run of digits followed by a digit is
-- never a match, so the greedy groups are the longest runs.
unfoldable pub match_line : Text → Option Text
unfolding after_dot
match_line mv =
    let (major, rest) = span_digits mv in if is_nil major then none else after_dot major rest

unfoldable pub manifest_or_default : Text → Text
manifest_or_default version =
    let mv = trim_space version in if mv == empty then default_manifest_version else mv

-- `(w *Workspace) BNKLine()`, as the line or nothing where the source returns an error.
unfoldable pub bnk_line : Option Workspace → Option Text
bnk_line none = none
bnk_line (some w) = match_line (manifest_or_default w.manifest_version)

unfoldable pub bnk_line_or_empty : Option Workspace → Text
bnk_line_or_empty w = elim (bnk_line w) [ none ↦ empty | some line ↦ line ]

unfoldable pub cluster_network_mode : Option Workspace → Text
cluster_network_mode none = single_nic
cluster_network_mode (some w) =
    if trim_space w.network_mode == empty then single_nic else trim_space w.network_mode

unfoldable pub valid_network_mode : Text → Bool
valid_network_mode s = s == single_nic || s == multi_nic

unfoldable pub schema : Option ClusterOutputs → ℕ
schema none = 1
schema (some c) = if eqb c.schema_version 0 then 1 else c.schema_version

unfoldable pub network : Option ClusterOutputs → Text
network none = single_nic
network (some c) = if c.network_mode == empty then single_nic else c.network_mode

-- `out == nil || out.ClusterID == ""`.
unfoldable pub no_cluster : Option ClusterOutputs → Bool
no_cluster none = true
no_cluster (some c) = c.cluster_id == empty

-- `ws == nil || strings.TrimSpace(ws.Cluster.NetworkMode) == ""`.
unfoldable pub no_opinion : Option Workspace → Bool
no_opinion none = true
no_opinion (some w) = trim_space w.network_mode == empty

-- `none` is a nil error.
unfoldable pub check_network_mode : Option Workspace → Option ClusterOutputs → Option Failure
check_network_mode ws out =
    let mode = cluster_network_mode ws in
    if not (valid_network_mode mode)
    then some (unknown_mode mode)
    else if no_cluster out
    then none
    else if no_opinion ws
    then none
    else if network out == mode
    then none
    else some (mode_changed (network out) mode)

abbrev pub or_else : Text → Text → Text
or_else v default = if v == empty then default else v

unfoldable pub flo_namespace_of : Workspace → Text
flo_namespace_of w = or_else (trim_space w.flo_namespace) default_flo_namespace

unfoldable pub flo_utils_namespace_of : Workspace → Text
flo_utils_namespace_of w = or_else (trim_space w.flo_utils_namespace) default_flo_utils_namespace
