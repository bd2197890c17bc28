-- ===== src/Guard/Applied.antt =====
-- internal/config/namespace_topology.go, line_change.go and manifest_bump.go: the configuration against
-- the variables that the BNK phase was last applied with.
use roksbnkctl.Prelude.{
  Bool, false, not, ◌&&◌, ◌||◌, Option, none, some, List, [], ◌∷◌, eqb, if◌then◌else◌, is_nil, Text,
  lit, empty, ◌==◌, trim_space,
}
use roksbnkctl.Guard.{
  Workspace, Failure, collapsed_namespaces, changed_namespaces, changed_line, changed_manifest,
  default_flo_namespace, default_flo_utils_namespace, bnk_line_or_empty, or_else, flo_namespace_of,
  flo_utils_namespace_of,
}

drop_last : Text → Text
drop_last [] = []
drop_last (c ∷ s) = let rest = drop_last s in if is_nil s then [] else c ∷ rest

ends_quoted : Text → Bool
ends_quoted [] = false
ends_quoted (c ∷ s) = let rest = ends_quoted s in if is_nil s then eqb c b'"' else rest

-- Both quotes of a text of two characters or more.
strip_quotes : Text → Text
strip_quotes [] = []
strip_quotes (c ∷ s) = if eqb c b'"' && ends_quoted s then drop_last s else c ∷ s

-- `tfvarString`.
unfoldable pub tfvar_string : Text → Text
unfolding strip_quotes drop_last ends_quoted
tfvar_string v = trim_space (strip_quotes (trim_space v))

-- `tfvarString(applied[key])`: a missing key reads as the empty string.
unfoldable pub recorded : List (Text × Text) → Text → Text
unfolding tfvar_string
recorded [] key = empty
recorded ((k, v) ∷ applied) key =
    let rest = recorded applied key in if k == key then tfvar_string v else rest

unfoldable pub check_namespace_topology : Option Workspace → List (Text × Text) → Option Failure
check_namespace_topology none applied = none
check_namespace_topology (some w) applied =
    let flo = recorded applied (lit "flo_namespace") in
    let utils = recorded applied (lit "flo_utils_namespace") in
    let prior_flo = or_else flo default_flo_namespace in
    let prior_utils = or_else utils default_flo_utils_namespace in
    if flo == empty && utils == empty
    then none
    else if flo_namespace_of w == prior_flo && flo_utils_namespace_of w == prior_utils
    then none
    else if flo_utils_namespace_of w == flo_namespace_of w && not (prior_utils == prior_flo)
    then some (collapsed_namespaces prior_flo prior_utils (flo_namespace_of w))
    else some
        (changed_namespaces prior_flo prior_utils (flo_namespace_of w) (flo_utils_namespace_of w))

unfoldable pub check_line_change : Option Workspace → List (Text × Text) → Option Failure
check_line_change none applied = none
check_line_change (some w) applied =
    let prior = recorded applied (lit "bnk_line") in
    let current = bnk_line_or_empty (some w) in
    if prior == empty
    then none
    else if current == empty || current == prior
    then none
    else some (changed_line prior current)

-- `priorWS`.
abbrev pub prior_workspace : Text → Workspace
prior_workspace prior = record {
  network_mode = empty;
  vpc_cidr = empty;
  manifest_version = prior;
  flo_namespace = empty;
  flo_utils_namespace = empty;
}

unfoldable pub check_manifest_version_change :
    Option Workspace → List (Text × Text) → Option Failure
check_manifest_version_change none applied = none
check_manifest_version_change (some w) applied =
    let prior = recorded applied (lit "f5_bigip_k8s_manifest_version") in
    let current = w.manifest_version in
    let prior_line = bnk_line_or_empty (some (prior_workspace prior)) in
    let current_line = bnk_line_or_empty (some w) in
    if prior == empty
    then none
    else if current == empty || current == prior
    then none
    else if not (prior_line == empty)
        && not (current_line == empty)
        && not (current_line == prior_line)
    then none
    else some (changed_manifest prior current)
