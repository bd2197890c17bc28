-- ===== src/Matrix/Tests.antt =====
-- Runs of the validation and the expansion of a grid, and its theorem at a grid of two cells.
use roksbnkctl.Prelude.{
  ◌≡◌, refl, Bool, false, Option, none, some, List, [], ◌∷◌, Text, lit, empty, ◌==◌,
}
use roksbnkctl.Prelude.Int.{ℤ, pos}
use roksbnkctl.Matrix.{
  EndpointSpec, L7CellSpec, CellSpec, MatrixSpec, ResolvedCell, family_iperf3, family_l7,
  endpoint_of, check_cell, check_cells, validate, resolve, expand_cells, expand, expanded,
  not_expanded, no_match, client_undefined,
}
use roksbnkctl.Matrix.Resolved.{AllResolved, validate-IsResolved}

-- A glob that matches one name, its own.
abbrev same_name : Text → Text → Option Bool
same_name glob name = some (glob == name)

abbrev any_port : ℤ → Text
any_port z = lit "5201"

abbrev no_options : L7CellSpec
no_options = record {
  mode = lit "cps";
  requests = pos 0;
  duration = pos 0;
  clients = pos 0;
  streams = pos 0;
  threads = pos 0;
  http1 = false;
}

abbrev by_iperf3 : CellSpec
by_iperf3 = record {
  name = lit "east-west";
  family = family_iperf3;
  client = lit "jump";
  server = lit "tmm";
  length = empty;
  bytes = empty;
  duration = pos 10;
  streams = pos 4;
  l7 = no_options;
}

abbrev by_h2load : CellSpec
by_h2load = record {
  name = lit "north";
  family = family_l7;
  client = empty;
  server = lit "gw";
  length = empty;
  bytes = empty;
  duration = pos 0;
  streams = pos 0;
  l7 = no_options;
}

abbrev jump : EndpointSpec
jump = record { kind = lit "vsi"; target = lit "jumphost"; host = empty; port = pos 0; url = empty }

abbrev tmm : EndpointSpec
tmm = record {
  kind = lit "address";
  target = empty;
  host = lit "10.0.0.9";
  port = pos 0;
  url = empty;
}

abbrev gateway_url : EndpointSpec
gateway_url = record {
  kind = lit "url";
  target = empty;
  host = empty;
  port = pos 0;
  url = lit "http://gw/";
}

abbrev grid : List (Text × EndpointSpec) → MatrixSpec
grid endpoints = record {
  gateway = record {
    app_namespace = empty;
    name = empty;
    http_section = empty;
    https_section = empty;
    tcp_section = empty;
  };
  routes = false;
  endpoints = endpoints;
  cells = by_iperf3 ∷ by_h2load ∷ [];
}

abbrev whole : MatrixSpec
whole = grid ((lit "jump", jump) ∷ (lit "tmm", tmm) ∷ (lit "gw", gateway_url) ∷ [])

whole_is_valid : validate whole ≡ none
unfolding validate check_cells check_cell endpoint_of ◌==◌ lit
whole_is_valid = refl

missing_client : validate (grid ((lit "tmm", tmm) ∷ [])) ≡ some (client_undefined 0)
unfolding validate check_cells check_cell endpoint_of ◌==◌ lit
missing_client = refl

one_cell :
    expand same_name any_port whole (lit "north")
    ≡ expanded (resolve same_name any_port whole.endpoints by_h2load ∷ [])
unfolding expand expand_cells resolve ◌==◌ lit
one_cell = refl

no_cell : expand same_name any_port whole (lit "south") ≡ not_expanded no_match
unfolding expand expand_cells ◌==◌ lit
no_cell = refl

validate-IsResolved_example :
    (out : List ResolvedCell) × (expand same_name any_port whole empty ≡ expanded out)
    × AllResolved whole.endpoints (by_iperf3 ∷ by_h2load ∷ []) out
validate-IsResolved_example = validate-IsResolved same_name any_port whole whole_is_valid
