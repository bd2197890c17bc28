-- ===== src/Matrix.antt =====
-- internal/test/matrix.go: the grid of throughput runs, its validation and its expansion into cells that can be run. An error
-- is a value that names the cell by its index. path.Match and the decimals of a port are parameters.
mod Tests
pub mod Resolved
use roksbnkctl.Prelude.{
  ℕ, zero, suc, Bool, true, false, not, ◌&&◌, ◌||◌, Option, none, some, List, [], ◌∷◌, ◌++◌,
  if◌then◌else◌, is_nil, Text, lit, empty, ◌==◌,
}
use roksbnkctl.Prelude.Int.{ℤ, pos, is_zero}

abbrev pub family_iperf3 : Text
family_iperf3 = lit "iperf3"

abbrev pub family_l7 : Text
family_l7 = lit "l7"

pub record EndpointSpec : Type 0 where
  pub kind : Text
  pub target : Text
  pub host : Text
  pub port : ℤ
  pub url : Text

pub record L7CellSpec : Type 0 where
  pub mode : Text
  pub requests : ℤ
  pub duration : ℤ
  pub clients : ℤ
  pub streams : ℤ
  pub threads : ℤ
  pub http1 : Bool

pub record CellSpec : Type 0 where
  pub name : Text
  pub family : Text
  pub client : Text
  pub server : Text
  pub length : Text
  pub bytes : Text
  pub duration : ℤ
  pub streams : ℤ
  pub l7 : L7CellSpec

-- What the validation reads of the gateway.
pub record GatewayIdentity : Type 0 where
  pub app_namespace : Text
  pub name : Text
  pub http_section : Text
  pub https_section : Text
  pub tcp_section : Text

pub record MatrixSpec : Type 0 where
  pub gateway : GatewayIdentity
  pub routes : Bool
  pub endpoints : List (Text × EndpointSpec)
  pub cells : List CellSpec

pub data Problem : Type 0 where
  no_cells : Problem
  no_gateway : Problem
  no_section : Problem
  no_name : ℕ → Problem
  client_undefined : ℕ → Problem
  client_kind : ℕ → Problem
  client_target : ℕ → Problem
  server_undefined : ℕ → Problem
  server_kind : ℕ → Problem
  server_host : ℕ → Problem
  server_url : ℕ → Problem
  no_mode : ℕ → Problem
  unknown_family : ℕ → Problem

-- `s.Endpoints[key]`.
unfoldable pub endpoint_of : Text → List (Text × EndpointSpec) → Option EndpointSpec
endpoint_of key [] = none
endpoint_of key ((k, ep) ∷ m) = let rest = endpoint_of key m in if k == key then some ep else rest

abbrev pub check_gateway : MatrixSpec → Option Problem
check_gateway s =
    if not s.routes
    then none
    else if s.gateway.app_namespace == empty || s.gateway.name == empty
    then some no_gateway
    else if s.gateway.http_section == empty
        && s.gateway.https_section == empty
        && s.gateway.tcp_section == empty
    then some no_section
    else none

abbrev pub check_client : ℕ → Option EndpointSpec → Option Problem
check_client i none = some (client_undefined i)
check_client i (some ep) =
    if not (ep.kind == lit "vsi")
    then some (client_kind i)
    else if ep.target == empty
    then some (client_target i)
    else none

abbrev pub check_server : ℕ → CellSpec → Option EndpointSpec → Option Problem
check_server i c none = some (server_undefined i)
check_server i c (some srv) =
    if c.family == family_iperf3
    then (if not (srv.kind == lit "address")
        then some (server_kind i)
        else if srv.host == empty
        then some (server_host i)
        else none)
    else if c.family == family_l7
    then (if not (srv.kind == lit "url")
        then some (server_kind i)
        else if srv.url == empty
        then some (server_url i)
        else if c.l7.mode == empty
        then some (no_mode i)
        else none)
    else some (unknown_family i)

-- The first of two problems.
abbrev pub or_else : Option Problem → Option Problem → Option Problem
or_else (some p) next = some p
or_else none next = next

unfoldable pub check_cell : ℕ → List (Text × EndpointSpec) → CellSpec → Option Problem
check_cell i endpoints c = or_else (if c.name == empty then some (no_name i) else none) (
    or_else (if c.client == empty then none else check_client i (endpoint_of c.client endpoints))
      (check_server i c (endpoint_of c.server endpoints)))

unfoldable pub check_cells : ℕ → List (Text × EndpointSpec) → List CellSpec → Option Problem
check_cells i endpoints [] = none
check_cells i endpoints (c ∷ cells) =
    or_else (check_cell i endpoints c) (check_cells (suc i) endpoints cells)

-- `Validate`.
unfoldable pub validate : MatrixSpec → Option Problem
validate s =
    if is_nil s.cells
    then some no_cells
    else or_else (check_gateway s) (check_cells 0 s.endpoints s.cells)

pub record ThroughputOptions : Type 0 where
  pub mode : Text
  pub endpoint : Text
  pub port : ℤ
  pub length : Text
  pub bytes : Text
  pub duration : ℤ
  pub streams : ℤ

-- What a cell runs: the address and options of iperf3, the URL and options of h2load, or nothing.
pub data Tool : Type 0 where
  iperf3 : ThroughputOptions → Tool
  h2load : Text → L7CellSpec → Tool
  no_tool : Tool

pub record ResolvedCell : Type 0 where
  pub name : Text
  pub family : Text
  pub backend_spec : Text
  pub client_label : Text
  pub server_label : Text
  pub tool : Tool

pub data Refusal : Type 0 where
  bad_glob : Refusal
  no_match : Refusal

pub data Expanded : Type 0 where
  expanded : List ResolvedCell → Expanded
  not_expanded : Refusal → Expanded

-- An endpoint that is not defined is the zero value.
abbrev pub found : Option EndpointSpec → EndpointSpec
found none = record { kind = empty; target = empty; host = empty; port = pos 0; url = empty }
found (some ep) = ep

module _ (path_match : Text → Text → Option Bool) (show_port : ℤ → Text) where
  abbrev pub server_of : CellSpec → EndpointSpec → Text × Tool
  server_of c srv =
      let port = if is_zero srv.port then pos 5201 else srv.port in
      if c.family == family_iperf3
      then (
        srv.host ++ lit ":" ++ show_port port,
        iperf3 (record {
          mode = lit "matrix";
          endpoint = srv.host;
          port = port;
          length = c.length;
          bytes = c.bytes;
          duration = c.duration;
          streams = c.streams;
        }),
      )
      else if c.family == family_l7
      then (srv.url, h2load srv.url c.l7)
      else (empty, no_tool)

  unfoldable pub resolve : List (Text × EndpointSpec) → CellSpec → ResolvedCell
  resolve endpoints c =
      let ssh = lit "ssh:" ++ (found (endpoint_of c.client endpoints)).target in
      let (label, tool) = server_of c (found (endpoint_of c.server endpoints)) in
      record {
        name = c.name;
        family = c.family;
        backend_spec = if c.client == empty then empty else ssh;
        client_label = if c.client == empty then lit "local" else ssh;
        server_label = label;
        tool = tool;
      }

  abbrev pub also : ResolvedCell → Option (List ResolvedCell) → Option (List ResolvedCell)
  also rc none = none
  also rc (some out) = some (rc ∷ out)

  -- The loop of `Expand`; `none` is a glob that is not one.
  unfoldable pub expand_cells :
      Text → List (Text × EndpointSpec) → List CellSpec → Option (List ResolvedCell)
  expand_cells only endpoints [] = some []
  expand_cells only endpoints (c ∷ cells) =
      let rest = expand_cells only endpoints cells in
      let kept = also (resolve endpoints c) rest in
      if only == empty
      then kept
      else elim (path_match only c.name) [ none ↦ none | some ok ↦ if ok then kept else rest ]

  -- `Expand`.
  unfoldable pub expand : MatrixSpec → Text → Expanded
  expand s only = elim (expand_cells only s.endpoints s.cells) [
    | none ↦ not_expanded bad_glob
    | some out ↦ if not (only == empty) && is_nil out then not_expanded no_match else expanded out
  ]
