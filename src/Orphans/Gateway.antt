-- ===== src/Orphans/Gateway.antt =====
-- internal/ibm/orphans.go: the deletion of one resource, and of a transit gateway with its
-- connections. The cloud's API, the clock and the context are a parameter; every DELETE that is
-- sent is recorded.
pub mod Protection
pub mod Requests
pub mod Rounds
use roksbnkctl.Prelude.{
  ℕ, zero, suc, ◌+◌, ◌≡◌, ◌≤◌, Bool, true, false, ◌&&◌, ◌||◌, not, Option, none, some, List, [],
  ◌∷◌, ◌++◌, ltb, leb, if◌then◌else◌, is_nil, Text, lit, ◌==◌,
}
use roksbnkctl.Orphans.{OrphanResource, vpc_collection_for}
use roksbnkctl.Orphans.Connections.{
  Connection, Partition, partition, swept_vpc_crns, arriving, in_flight,
}

-- The resource that a DELETE names. `detach` carries the connection whose id its URL holds.
pub data Request : Type 0 where
  gateway : Text → Request
  detach : Text → Connection → Request
  vpc_resource : (region collection id : Text) → Request
  cluster : Text → Request
  cos_instance : Text → Request
  trusted_profile : Text → Request

pub data Failure : Type 0 where
  protected_resource : OrphanResource → Failure
  unknown_kind : Text → Failure
  delete_failed : Request → Failure
  foreign_connections : List Connection → Failure
  still_arriving : List Connection → Failure
  timed_out : List Connection → Failure
  cancelled : Failure

-- What the program relies on. Seconds stand for Go's durations. `wait d` is the `select` on the
-- context and on `time.After(d)`, and tells whether the context was done first; `list_connections`
-- is `none` where the call fails; `delete` tells whether it failed.
pub record Cloud (W : Type 0) : Type 0 where
  pub list_connections : Text → W → Option (List Connection) × W
  pub delete : Request → W → Bool × W
  pub wait : ℕ → W → Bool × W
  pub now : W → ℕ

pub record Session (W : Type 0) : Type 0 where
  pub world : W
  pub sent : List Request

abbrev pub settle_timeout : ℕ
settle_timeout = 300

abbrev pub poll_interval : ℕ
poll_interval = 5

unfoldable pub keep_in_flight : List Connection → List Connection
keep_in_flight [] = []
keep_in_flight (c ∷ conns) =
    let rest = keep_in_flight conns in if in_flight c.status then c ∷ rest else rest

unfoldable pub keep_arriving : List Connection → List Connection
keep_arriving [] = []
keep_arriving (c ∷ conns) =
    let rest = keep_arriving conns in if arriving c.status then c ∷ rest else rest

pub data Settled : Type 0 where
  settled : List Connection → Settled
  stopped : Settled

module _ {W : Type 0} (cloud : Cloud W) where
  -- `c.authedDELETE`, which tells whether it failed.
  unfoldable pub send : Request → Session W → Bool × Session W
  send req s =
      let (failed, world) = cloud.delete req s.world in
      (failed, record { world = world; sent = s.sent ++ req ∷ [] })

  -- The loop of waitTGWConnectionsSettled on fuel; `none` means that the fuel ran out.
  unfoldable pub settle_rounds :
      ℕ → Text → ℕ → List Connection → Session W → Option (Settled × Session W)
  settle_rounds zero id deadline conns s = none
  settle_rounds (suc fuel) id deadline conns s =
      elim (is_nil (keep_in_flight conns) || ltb deadline (cloud.now s.world)) [
        | true ↦ some (settled conns, s)
        | false ↦
            let (done, waited) = cloud.wait poll_interval s.world in
            elim done [
              | true ↦ some (stopped, record s { world = waited })
              | false ↦
                  let (answer, listed) = cloud.list_connections id waited in
                  elim answer [
                    | none ↦ some (settled conns, record s { world = listed })
                    | some next ↦ settle_rounds fuel id deadline next (record s { world = listed })
                  ]
            ]
      ]

  -- The loop of waitTGWConnectionsCleared on fuel; the inner result is nil or the error.
  unfoldable pub clear_rounds : ℕ → Text → ℕ → Session W → Option (Option Failure × Session W)
  clear_rounds zero id deadline s = none
  clear_rounds (suc fuel) id deadline s =
      let (answer, world) = cloud.list_connections id s.world in
      let listed = record s { world = world } in
      elim answer [
        | none ↦ some (none, listed)
        | some conns ↦ elim (is_nil conns) [
          | true ↦ some (none, listed)
          | false ↦ elim (ltb deadline (cloud.now world)) [
            | true ↦ some (some (timed_out conns), listed)
            | false ↦
                let (done, waited) = cloud.wait poll_interval world in
                elim done [
                  | true ↦ some (some cancelled, record s { world = waited })
                  | false ↦ clear_rounds fuel id deadline (record s { world = waited })
                ]
          ]
        ]
      ]

  -- The loop that detaches, which ends at the first failure.
  unfoldable pub detach_all : Text → List Connection → Session W → Option Failure × Session W
  detach_all id [] s = (none, s)
  detach_all id (c ∷ conns) s =
      let (failed, after) = send (detach id c) s in
      let rest = detach_all id conns after in
      if failed then (some (delete_failed (detach id c)), after) else rest

  unfoldable pub delete_one : Request → Session W → Option Failure × Session W
  delete_one req s =
      let (failed, after) = send req s in
      ((if failed then some (delete_failed req) else none), after)

  -- The end of deleteTransitGateway: nothing is sent unless the connections are gone.
  unfoldable pub delete_cleared : ℕ → Text → Bool → Session W → Option (Option Failure × Session W)
  delete_cleared fuel id waits s = elim waits [
    | false ↦ some (delete_one (gateway id) s)
    | true ↦ elim (clear_rounds fuel id (cloud.now s.world + settle_timeout) s) [
      | none ↦ none
      | some (some failure, after) ↦ some (some failure, after)
      | some (none, after) ↦ some (delete_one (gateway id) after)
    ]
  ]

  -- From the second partition on.
  unfoldable pub delete_settled :
      ℕ → Text → Partition → Session W → Option (Option Failure × Session W)
  delete_settled fuel id p s =
      if not (is_nil p.foreign)
      then some (some (foreign_connections p.foreign), s)
      else if not (is_nil (keep_arriving p.settling)) && is_nil p.detach
      then some (some (still_arriving (keep_arriving p.settling)), s)
      else let (refused, after) = detach_all id p.detach s in
        elim refused [
          | some failure ↦ some (some failure, after)
          | none ↦ delete_cleared fuel id (not (is_nil p.detach) || not (is_nil p.settling)) after
        ]

  unfoldable pub delete_transit_gateway :
      ℕ → Text → List Text → Session W → Option (Option Failure × Session W)
  delete_transit_gateway fuel id swept s =
      let (answer, world) = cloud.list_connections id s.world in
      let listed = record s { world = world } in
      elim answer [
        | none ↦ some (delete_one (gateway id) listed)
        | some conns ↦
            let foreign = (partition conns swept).foreign in
            if not (is_nil foreign)
            then some (some (foreign_connections foreign), listed)
            else elim (settle_rounds fuel id (cloud.now world + settle_timeout) conns listed) [
              | none ↦ none
              | some (stopped, after) ↦ some (some cancelled, after)
              | some (settled last, after) ↦ delete_settled fuel id (partition last swept) after
            ]
      ]

  is_vpc_kind : Text → Bool
  is_vpc_kind kind =
      kind == lit "instance"
      || kind == lit "floating_ip"
      || kind == lit "public_gateway"
      || kind == lit "subnet"
      || kind == lit "security_group"
      || kind == lit "ssh_key"
      || kind == lit "vpc"

  unfoldable pub delete_orphan :
      ℕ → OrphanResource → List OrphanResource → Session W → Option (Option Failure × Session W)
  unfolding is_vpc_kind
  delete_orphan fuel o sweep s =
      if o.protected
      then some (some (protected_resource o), s)
      else if is_vpc_kind o.kind
      then some (delete_one (vpc_resource o.region (vpc_collection_for o.kind) o.id) s)
      else if o.kind == lit "transit_gateway"
      then delete_transit_gateway fuel o.id (swept_vpc_crns sweep) s
      else if o.kind == lit "cluster"
      then some (delete_one (cluster o.id) s)
      else if o.kind == lit "cos_instance"
      then some (delete_one (cos_instance o.id) s)
      else if o.kind == lit "trusted_profile"
      then some (delete_one (trusted_profile o.id) s)
      else some (some (unknown_kind o.kind), s)
