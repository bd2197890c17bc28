-- ===== src/Matrix/Resolved.antt =====
-- internal/test/matrix.go: what a resolved cell needs in order to run, and the checks of Validate that give it.
use roksbnkctl.Prelude.{
  ℕ, suc, ◌≡◌, refl, ◌≢◌, ◌⊎◌, not, Option-cases, ==_sound, ==_iff, inl, inr, Bool, true, false,
  Option, none, some, List, [], ◌∷◌, ◌++◌, if◌then◌else◌, is_nil, Text, lit, empty, ◌==◌, arith,
  Bool-cases,
}
use roksbnkctl.Prelude.Int.{ℤ, pos, is_zero}
use roksbnkctl.Matrix.{
  EndpointSpec, CellSpec, MatrixSpec, Problem, Tool, ResolvedCell, endpoint_of, check_client,
  check_server, or_else, check_cell, check_cells, validate, check_gateway, no_cells, iperf3, h2load,
  no_tool, expanded, found, server_of, resolve, expand_cells, expand, family_iperf3, family_l7,
}

-- The port of an endpoint, or the code's default.
abbrev pub IsPort : ℤ → ℤ → Type 0
IsPort given port =
    ((is_zero given ≡ true) × (port ≡ pos 5201)) ⊎ ((is_zero given ≡ false) × (port ≡ given))

-- What a cell runs against an endpoint: iperf3 against an address with a host, h2load against a URL, each with the options
-- that the cell has.
abbrev pub RunsAgainst : CellSpec → EndpointSpec → Tool → Type 0
RunsAgainst c srv (iperf3 o) =
    (c.family ≡ lit "iperf3")
    × (srv.kind ≡ lit "address")
    × (srv.host ≢ empty)
    × (o.endpoint ≡ srv.host)
    × IsPort srv.port o.port
    × (o.length ≡ c.length)
    × (o.bytes ≡ c.bytes)
    × (o.duration ≡ c.duration)
    × (o.streams ≡ c.streams)
RunsAgainst c srv (h2load url o) =
    (c.family ≡ lit "l7")
    × (srv.kind ≡ lit "url")
    × (srv.url ≢ empty)
    × (url ≡ srv.url)
    × (o ≡ c.l7)
    × (o.mode ≢ empty)
RunsAgainst c srv no_tool = ⊥

-- The cell's server is defined, and the tool runs against it.
abbrev pub HasServer : List (Text × EndpointSpec) → CellSpec → Tool → Type 0
HasServer endpoints c tool =
    (srv : EndpointSpec) × (endpoint_of c.server endpoints ≡ some srv) × RunsAgainst c srv tool

-- The cell's client, where it names one, is a defined machine, and the backend is its target over SSH.
abbrev pub HasBackend : List (Text × EndpointSpec) → CellSpec → Text → Type 0
HasBackend endpoints c spec =
    ((c.client ≡ empty) × (spec ≡ empty))
    ⊎ ((c.client ≢ empty)
        × ((ep : EndpointSpec) × (endpoint_of c.client endpoints ≡ some ep)
            × (ep.kind ≡ lit "vsi")
            × (ep.target ≢ empty)
            × (spec ≡ lit "ssh:" ++ ep.target)))

abbrev pub IsResolved : List (Text × EndpointSpec) → CellSpec → ResolvedCell → Type 0
IsResolved endpoints c rc =
    (rc.name ≡ c.name)
    × (rc.family ≡ c.family)
    × HasServer endpoints c rc.tool
    × HasBackend endpoints c rc.backend_spec

-- Position by position, each cell with what it is resolved to.
abbrev pub AllResolved : List (Text × EndpointSpec) → List CellSpec → List ResolvedCell → Type 0
AllResolved endpoints [] [] = Unit
AllResolved endpoints (c ∷ cells) (rc ∷ out) =
    IsResolved endpoints c rc × AllResolved endpoints cells out
AllResolved endpoints _ _ = ⊥

differs : (s t : Text) → (s == t) ≡ false → s ≢ t
differs s t h e = ground (arith, ==_iff s t)

agrees : (s t : Text) → not (s == t) ≡ false → s ≡ t
agrees s t h = ==_sound s t (ground arith)

both_none : (p q : Option Problem) → or_else p q ≡ none → (p ≡ none) × (q ≡ none)
both_none none q e = (refl, e)
both_none (some p) q e = ground arith

-- A test that raised no problem was not met.
guarded :
    (b : Bool) (p : Problem) (q : Option Problem)
    → (if b then some p else q) ≡ none
    → (b ≡ false) × (q ≡ none)
guarded true p q e = ground arith
guarded false p q e = (refl, e)

is_zero-IsPort : (given : ℤ) → IsPort given (if is_zero given then pos 5201 else given)
is_zero-IsPort given = elim (Bool-cases (is_zero given)) [
  | inl zero_port ↦ rw zero_port (inl (refl, refl))
  | inr port ↦ rw port (inr (refl, refl))
]

module _ (path_match : Text → Text → Option Bool) (show_port : ℤ → Text) where
  server_of-RunsAgainst :
      (i : ℕ) (c : CellSpec) (srv : EndpointSpec)
      → check_server i c (some srv) ≡ none
      → RunsAgainst c srv (server_of path_match show_port c srv).1
  server_of-RunsAgainst i c srv e = elim (Bool-cases (c.family == family_iperf3)) [
    | inl is ↦
        let (kind, tests) = guarded _ _ _ (rw is at e) in
        let (host, _) = guarded _ _ _ tests in
        rw is (
          ==_sound c.family (lit "iperf3") is,
          agrees srv.kind (lit "address") kind,
          differs srv.host empty host,
          refl,
          is_zero-IsPort srv.port,
          refl,
          refl,
          refl,
          refl,
        )
    | inr not_iperf3 ↦ elim (Bool-cases (c.family == family_l7)) [
      | inl is_l7 ↦
          let (kind, tests) = guarded _ _ _ (rw (not_iperf3, is_l7) at e) in
          let (url, mode_tests) = guarded _ _ _ tests in
          let (mode, _) = guarded _ _ _ mode_tests in
          rw (not_iperf3, is_l7)
            (
              ==_sound c.family (lit "l7") is_l7,
              agrees srv.kind (lit "url") kind,
              differs srv.url empty url,
              refl,
              refl,
              differs c.l7.mode empty mode,
            )
      | inr neither ↦ let f = rw (not_iperf3, neither) at e in ground arith
    ]
  ]

  server_of-HasServer :
      (i : ℕ) (endpoints : List (Text × EndpointSpec)) (c : CellSpec)
      → check_server i c (endpoint_of c.server endpoints) ≡ none
      → HasServer endpoints c
          (server_of path_match show_port c (found (endpoint_of c.server endpoints))).1
  server_of-HasServer i endpoints c e = elim (Option-cases (endpoint_of c.server endpoints)) [
    | inl undefined ↦ ground arith
    | inr (srv, defined) ↦
        (srv, defined, rw defined (server_of-RunsAgainst i c srv (rw defined at e)))
  ]

  client-HasBackend :
      (i : ℕ) (endpoints : List (Text × EndpointSpec)) (c : CellSpec)
      → (if c.client == empty then none else check_client i (endpoint_of c.client endpoints)) ≡ none
      → HasBackend endpoints c (resolve path_match show_port endpoints c).backend_spec
  unfolding resolve
  client-HasBackend i endpoints c e = elim (Bool-cases (c.client == empty)) [
    | inl local ↦ inl (==_sound c.client empty local, rw local refl)
    | inr named ↦ elim (Option-cases (endpoint_of c.client endpoints)) [
      | inl undefined ↦ let f = rw (named, undefined) at e in ground arith
      | inr (ep, defined) ↦
          let (kind, tests) = guarded _ _ _ (rw (named, defined) at e) in
          let (target, _) = guarded _ _ _ tests in
          inr (
            differs c.client empty named,
            (
              ep,
              defined,
              agrees ep.kind (lit "vsi") kind,
              differs ep.target empty target,
              rw (named, defined) refl,
            ),
          )
    ]
  ]

  resolve-IsResolved :
      (i : ℕ) (endpoints : List (Text × EndpointSpec)) (c : CellSpec)
      → check_cell i endpoints c ≡ none
      → IsResolved endpoints c (resolve path_match show_port endpoints c)
  unfolding resolve check_cell
  resolve-IsResolved i endpoints c e =
      let (_, tests) = both_none _ _ e in
      let (client_ok, server_ok) = both_none _ _ tests in
      (
        refl,
        refl,
        server_of-HasServer i endpoints c server_ok,
        client-HasBackend i endpoints c client_ok,
      )

  expand_cells-AllResolved :
      (i : ℕ) (endpoints : List (Text × EndpointSpec)) (cells : List CellSpec)
      → check_cells i endpoints cells ≡ none
      → (out : List ResolvedCell) × (expand_cells path_match show_port empty endpoints cells
          ≡ some out)
        × AllResolved endpoints cells out
  unfolding check_cells expand_cells ◌==◌
  expand_cells-AllResolved i endpoints [] e = ([], refl, tt)
  expand_cells-AllResolved i endpoints (c ∷ cells) e =
      let (here, later) = both_none _ _ e in
      let (out, runs, resolved) = expand_cells-AllResolved (suc i) endpoints cells later in
      (
        resolve path_match show_port endpoints c ∷ out,
        rw runs refl,
        (resolve-IsResolved i endpoints c here, resolved),
      )

  -- When the validation of a grid finds no problem, its expansion without a filter has, position by position, what each of
  -- the grid's cells asks for, under the cell's name and family: a cell of iperf3 runs against the host of its own server
  -- endpoint, an address, on that endpoint's port or 5201, and one of l7 against the URL of its own, with the cell's options
  -- and a mode; a cell that names no client runs on the local machine, any other over SSH on the target of the machine that
  -- it names, and host, URL, mode and target are not empty. This holds for any path.Match and any way of writing a port.
  pub validate-IsResolved :
      (s : MatrixSpec)
      → validate s ≡ none
      → (out : List ResolvedCell) × (expand path_match show_port s empty ≡ expanded out)
        × AllResolved s.endpoints s.cells out
  unfolding validate expand ◌==◌
  validate-IsResolved s e =
      let (_, tests) =
        guarded (is_nil s.cells) no_cells
          (or_else (check_gateway s) (check_cells 0 s.endpoints s.cells)) e in
      let (_, cells_ok) = both_none (check_gateway s) (check_cells 0 s.endpoints s.cells) tests in
      let (out, runs, resolved) = expand_cells-AllResolved 0 s.endpoints s.cells cells_ok in
      (out, rw (expand, runs) refl, resolved)
