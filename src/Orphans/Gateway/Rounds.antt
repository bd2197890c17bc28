-- ===== src/Orphans/Gateway/Rounds.antt =====
-- How many rounds the waits of deleteTransitGateway need.
use roksbnkctl.Prelude.{
  ℕ, zero, suc, ◌+◌, ◌*◌, ◌≡◌, ◌≢◌, ◌≤◌, ◌<◌, inl, inr, Bool, false, ◌||◌, not, none, List, arith,
  Option-cases, is_nil, Text,
}
use roksbnkctl.Orphans.Connections.{Connection, Partition, partition}
use roksbnkctl.Orphans.Gateway.{
  Cloud, Session, settled, stopped, settle_timeout, poll_interval, settle_rounds, clear_rounds,
  detach_all, delete_cleared, delete_settled, delete_transit_gateway,
}

-- The clock does not run back, and a wait that is not cut short lasts as long as asked.
pub record IsTimed {W : Type 0} (cloud : Cloud W) : Type 0 where
  pub listing : (id : Text) (w : W) → cloud.now w ≤ cloud.now (cloud.list_connections id w).1
  pub waiting :
      (d : ℕ) (w : W) → (cloud.wait d w).0 ≡ false → cloud.now w + d ≤ cloud.now (cloud.wait d w).1

module _ {W : Type 0} (cloud : Cloud W) (timed : IsTimed cloud) where
  settle_rounds-ne-none :
      (fuel : ℕ) (id : Text) (deadline : ℕ) (conns : List Connection) (s : Session W)
      → deadline < cloud.now s.world + 5 * fuel
      → settle_rounds cloud (suc fuel) id deadline conns s ≢ none
  unfolding settle_rounds
  settle_rounds-ne-none zero id deadline conns s h = ground (arith)
  settle_rounds-ne-none (suc fuel) id deadline conns s h =
      let waited = (cloud.wait poll_interval s.world).1 in
      let listing = cloud.list_connections id waited in
      elim (Option-cases listing.0) [
        | inl failed ↦ ground arith
        | inr (next, found) ↦ ground (
          arith,
          timed.waiting poll_interval s.world,
          timed.listing id waited,
          settle_rounds-ne-none fuel id deadline next (record s { world = listing.1 }),
        )
      ]

  clear_rounds-ne-none :
      (fuel : ℕ) (id : Text) (deadline : ℕ) (s : Session W)
      → deadline < cloud.now s.world + 5 * fuel
      → clear_rounds cloud (suc fuel) id deadline s ≢ none
  unfolding clear_rounds
  clear_rounds-ne-none zero id deadline s h = ground (arith, timed.listing id s.world)
  clear_rounds-ne-none (suc fuel) id deadline s h =
      let world = (cloud.list_connections id s.world).1 in
      let waited = (cloud.wait poll_interval world).1 in
      ground (
        arith,
        timed.listing id s.world,
        timed.waiting poll_interval world,
        clear_rounds-ne-none fuel id deadline (record s { world = waited }),
      )

  delete_cleared-ne-none :
      (fuel : ℕ) (id : Text) (waits : Bool) (s : Session W)
      → 60 < fuel
      → delete_cleared cloud (suc fuel) id waits s ≢ none
  unfolding delete_cleared
  delete_cleared-ne-none fuel id waits s h =
      ground (arith, clear_rounds-ne-none fuel id (cloud.now s.world + settle_timeout) s)

  delete_settled-ne-none :
      (fuel : ℕ) (id : Text) (p : Partition) (s : Session W)
      → 60 < fuel
      → delete_settled cloud (suc fuel) id p s ≢ none
  unfolding delete_settled
  delete_settled-ne-none fuel id p s h = ground (
    arith,
    delete_cleared-ne-none fuel id (not (is_nil p.detach) || not (is_nil p.settling))
        (detach_all cloud id p.detach s).1,
  )

  -- With a clock that does not run back, the deletion of a transit gateway ends: 62 rounds are enough
  -- for both of its waits, whatever the cloud answers.
  pub delete_transit_gateway-ne-none :
      (fuel : ℕ) (id : Text) (swept : List Text) (s : Session W)
      → 62 ≤ fuel
      → delete_transit_gateway cloud fuel id swept s ≢ none
  unfolding delete_transit_gateway
  delete_transit_gateway-ne-none zero id swept s h = absurd (omega arith)
  delete_transit_gateway-ne-none (suc fuel) id swept s h =
      let listing = cloud.list_connections id s.world in
      let listed = record s { world = listing.1 } in
      elim (Option-cases listing.0) [
        | inl failed ↦ ground arith
        | inr (conns, found) ↦
            let rounds =
              settle_rounds cloud (suc fuel) id (cloud.now listing.1 + settle_timeout) conns
                listed in
            elim (Option-cases rounds) [
              | inl out ↦ absurd (
                  settle_rounds-ne-none fuel id (cloud.now listing.1 + settle_timeout) conns listed
                    (omega arith) out)
              | inr ((settled last, after), e) ↦
                  ground (arith, delete_settled-ne-none fuel id (partition last swept) after)
              | inr ((stopped, after), e) ↦ ground arith
            ]
      ]
