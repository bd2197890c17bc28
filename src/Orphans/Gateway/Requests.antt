-- ===== src/Orphans/Gateway/Requests.antt =====
-- Which DELETEs the deletion of a transit gateway sends.
use mathlib.Core.List.{Memᴰ, append_assoc, append-nil}
use roksbnkctl.Prelude.{
  ℕ, zero, suc, ◌+◌, ◌≡◌, ◌≢◌, refl, sym, ap, subst, ◌∙◌, inl, inr, ◌⊎◌, Bool, true, false, ◌&&◌,
  ◌||◌, not, Option, none, some, List, [], ◌∷◌, ◌++◌, arith, Bool-cases, Option-cases, is_nil, All,
  Text,
}
use roksbnkctl.Orphans.Connections.{
  Connection, partition, CanDetach, IsForeign, partition-IsPartition, partition-foreign_of_mem,
}
use roksbnkctl.Orphans.Gateway.{
  Request, gateway, detach, Failure, Cloud, Session, Settled, settled, stopped, settle_timeout,
  poll_interval, keep_arriving, send, settle_rounds, clear_rounds, detach_all, delete_one,
  delete_cleared, delete_settled, delete_transit_gateway,
}

-- Requests that detach connections of this gateway which the sweep may detach.
abbrev pub IsDetach : Text → List Text → Request → Type 0
IsDetach id swept req = (c : Connection) × (req ≡ detach id c) × CanDetach swept c

-- What was sent between two states: detachments, and behind them at most the gateway's own DELETE,
-- which is always there where no failure is reported.
pub record IsTeardown {W : Type 0} (id : Text) (swept : List Text) (failure : Option Failure)
    (s after : Session W) : Type 0 where
  pub detached : List Request
  pub allowed : All (IsDetach id swept) detached
  pub shape :
      ((after.sent ≡ s.sent ++ detached) × (failure ≢ none))
      ⊎ (after.sent ≡ s.sent ++ (detached ++ gateway id ∷ []))

module _ {W : Type 0} (cloud : Cloud W) where
  settle_rounds-sent :
      (fuel : ℕ) (id : Text) (deadline : ℕ) (conns : List Connection) (s : Session W) (r : Settled)
      (after : Session W)
      → settle_rounds cloud fuel id deadline conns s ≡ some (r, after)
      → after.sent ≡ s.sent
  unfolding settle_rounds
  settle_rounds-sent zero id deadline conns s r after e = cc
  settle_rounds-sent (suc fuel) id deadline conns s r after e =
      let waited = (cloud.wait poll_interval s.world).1 in
      let listing = cloud.list_connections id waited in
      elim (Option-cases listing.0) [
        | inl failed ↦ ground arith
        | inr (next, found) ↦ ground (
          arith,
          settle_rounds-sent fuel id deadline next (record s { world = listing.1 }) r after,
        )
      ]

  clear_rounds-sent :
      (fuel : ℕ) (id : Text) (deadline : ℕ) (s : Session W) (r : Option Failure) (after : Session W)
      → clear_rounds cloud fuel id deadline s ≡ some (r, after)
      → after.sent ≡ s.sent
  unfolding clear_rounds
  clear_rounds-sent zero id deadline s r after e = cc
  clear_rounds-sent (suc fuel) id deadline s r after e =
      let world = (cloud.list_connections id s.world).1 in
      let waited = (cloud.wait poll_interval world).1 in
      ground (arith, clear_rounds-sent fuel id deadline (record s { world = waited }) r after)

  -- What the detachment loop sends, and its result.
  detach_all-sent :
      (id : Text) (swept : List Text) (conns : List Connection) (s : Session W)
      → All (CanDetach swept) conns
      → (ds : List Request) × All (IsDetach id swept) ds
        × ((detach_all cloud id conns s).1.sent ≡ s.sent ++ ds)
  unfolding detach_all send
  detach_all-sent id swept [] s h = ([], tt, sym (append-nil s.sent))
  detach_all-sent id swept (c ∷ conns) s (can, h) =
      let (failed, after) = send cloud (detach id c) s in
      let (ds, allowed, e) = detach_all-sent id swept conns after h in
      elim (Bool-cases failed) [
        | inl f ↦ (detach id c ∷ [], ((c, refl, can), tt), ground arith)
        | inr k ↦ (
          detach id c ∷ ds,
          ((c, refl, can), allowed),
          ground (arith, append_assoc s.sent (detach id c ∷ []) ds),
        )
      ]

  delete_one-sent :
      (req : Request) (s : Session W) → (delete_one cloud req s).1.sent ≡ s.sent ++ req ∷ []
  unfolding delete_one send
  delete_one-sent req s = refl

  -- From here on a result is compared with the state `s` before the detachments `ds`.
  module _ (id : Text) (swept : List Text) (s : Session W) (ds : List Request)
      (allowed : All (IsDetach id swept) ds) where
    delete_one-IsTeardown :
        (mid : Session W)
        → mid.sent ≡ s.sent ++ ds
        → IsTeardown id swept
            (delete_one cloud (gateway id) mid).0
            s
            (delete_one cloud (gateway id) mid).1
    delete_one-IsTeardown mid e = record {
      detached = ds;
      allowed = allowed;
      shape = inr (
          delete_one-sent (gateway id) mid
          ∙ ap (λ l. l ++ gateway id ∷ []) e
          ∙ append_assoc s.sent ds (gateway id ∷ []));
    }

    refused-IsTeardown :
        (failure : Failure) (mid : Session W)
        → mid.sent ≡ s.sent ++ ds
        → IsTeardown id swept (some failure) s mid
    refused-IsTeardown failure mid e = record {
      detached = ds;
      allowed = allowed;
      shape = inl (e, λ h. cc);
    }

    delete_cleared-IsTeardown :
        (fuel : ℕ) (waits : Bool) (mid : Session W) (r : Option Failure) (after : Session W)
        → mid.sent ≡ s.sent ++ ds
        → delete_cleared cloud fuel id waits mid ≡ some (r, after)
        → IsTeardown id swept r s after
    unfolding delete_cleared
    delete_cleared-IsTeardown fuel false mid r after e h =
        let same : delete_one cloud (gateway id) mid ≡ (r, after) = cc in
        subst (λ (p : Option Failure × Session W). IsTeardown id swept p.0 s p.1) same
          (delete_one-IsTeardown mid e)
    delete_cleared-IsTeardown fuel true mid r after e h =
        let rounds = clear_rounds cloud fuel id (cloud.now mid.world + settle_timeout) mid in
        elim (Option-cases rounds) [
          | inl out ↦ ground arith
          | inr ((some failure, cleared), k) ↦
              let sent =
                clear_rounds-sent fuel id (cloud.now mid.world + settle_timeout) mid (some failure)
                  cleared k in
              let same : ◌≡◌ {A = Option Failure × Session W} (some failure, cleared) (r, after) =
                ground arith in
              subst (λ (p : Option Failure × Session W). IsTeardown id swept p.0 s p.1) same
                (refused-IsTeardown failure cleared (sent ∙ e))
          | inr ((none, cleared), k) ↦
              let sent =
                clear_rounds-sent fuel id (cloud.now mid.world + settle_timeout) mid none cleared
                  k in
              let same : delete_one cloud (gateway id) cleared ≡ (r, after) = ground arith in
              subst (λ (p : Option Failure × Session W). IsTeardown id swept p.0 s p.1) same
                (delete_one-IsTeardown cleared (sent ∙ e))
        ]

  abbrev Outcome : Type 0
  Outcome = Option Failure × Session W

  module _ (id : Text) (swept : List Text) (s : Session W) where
    abbrev Torn : Outcome → Type 0
    Torn p = IsTeardown id swept p.0 s p.1

    -- Nothing was sent so far.
    quiet : (failure : Failure) (mid : Session W) → mid.sent ≡ s.sent → Torn (some failure, mid)
    quiet failure mid e =
        refused-IsTeardown id swept s [] tt failure mid (e ∙ sym (append-nil s.sent))

    delete_settled-IsTeardown :
        (fuel : ℕ) (last : List Connection) (mid : Session W) (r : Option Failure)
        (after : Session W)
        → mid.sent ≡ s.sent
        → delete_settled cloud fuel id (partition last swept) mid ≡ some (r, after)
        → IsTeardown id swept r s after
    unfolding delete_settled
    delete_settled-IsTeardown fuel last mid r after e h =
        let p = partition last swept in
        elim (Bool-cases (is_nil p.foreign)) [
          | inr foreign ↦
              let same : ◌≡◌ {A = Outcome} (some (Failure.foreign_connections p.foreign), mid)
                  (r, after) =
                ground arith in
              subst Torn same (quiet (Failure.foreign_connections p.foreign) mid e)
          | inl own ↦
              elim (Bool-cases (not (is_nil (keep_arriving p.settling)) && is_nil p.detach)) [
                | inl stuck ↦
                    let failure = Failure.still_arriving (keep_arriving p.settling) in
                    let same : ◌≡◌ {A = Outcome} (some failure, mid) (r, after) = ground arith in
                    subst Torn same (quiet failure mid e)
                | inr free ↦
                    let (ds, allowed, sent) =
                      detach_all-sent id swept p.detach mid
                        (partition-IsPartition last swept).detachable in
                    let sent' = sent ∙ ap (λ l. l ++ ds) e in
                    let detached = detach_all cloud id p.detach mid in
                    elim (Option-cases detached.0) [
                      | inl done ↦
                          delete_cleared-IsTeardown id swept s ds allowed fuel
                            (not (is_nil p.detach) || not (is_nil p.settling)) detached.1 r after
                            sent' (ground arith)
                      | inr (failure, refused) ↦
                          let same : ◌≡◌ {A = Outcome} (some failure, detached.1) (r, after) =
                            ground arith in
                          subst Torn same
                            (refused-IsTeardown id swept s ds allowed failure detached.1 sent')
                    ]
              ]
        ]

    -- Whatever the cloud answers, the deletion of a transit gateway detaches only connections of that
    -- gateway to VPCs that the same sweep deletes, none of them on its way in or out; it sends the
    -- gateway's own DELETE last and at most once, and has sent it if it reports no failure.
    pub delete_transit_gateway-IsTeardown :
        (fuel : ℕ) (r : Option Failure) (after : Session W)
        → delete_transit_gateway cloud fuel id swept s ≡ some (r, after)
        → IsTeardown id swept r s after
    unfolding delete_transit_gateway
    delete_transit_gateway-IsTeardown fuel r after h =
        let listing = cloud.list_connections id s.world in
        let listed = record s { world = listing.1 } in
        elim (Option-cases listing.0) [
          | inl failed ↦
              let same : delete_one cloud (gateway id) listed ≡ (r, after) = ground arith in
              subst Torn same
                (delete_one-IsTeardown id swept s [] tt listed (sym (append-nil s.sent)))
          | inr (conns, found) ↦
              let foreign = (partition conns swept).foreign in
              elim (Bool-cases (is_nil foreign)) [
                | inr some_foreign ↦
                    let failure = Failure.foreign_connections foreign in
                    let same : ◌≡◌ {A = Outcome} (some failure, listed) (r, after) = ground arith in
                    subst Torn same (quiet failure listed refl)
                | inl own ↦
                    let deadline = cloud.now listing.1 + settle_timeout in
                    elim (Option-cases (settle_rounds cloud fuel id deadline conns listed)) [
                      | inl out ↦ ground arith
                      | inr ((settled last, mid), k) ↦
                          delete_settled-IsTeardown fuel last mid r after
                            (settle_rounds-sent fuel id deadline conns listed (settled last) mid k)
                            (ground arith)
                      | inr ((stopped, mid), k) ↦
                          let same : ◌≡◌ {A = Outcome} (some Failure.cancelled, mid) (r, after) =
                            ground arith in
                          subst Torn same (
                            quiet Failure.cancelled mid
                              (settle_rounds-sent fuel id deadline conns listed stopped mid k))
                    ]
              ]
        ]

    -- If the first listing shows one connection that neither is on its way out nor leads to a VPC of
    -- this sweep, no DELETE is sent at all, and the failure names the foreign connections.
    pub delete_transit_gateway-foreign :
        (fuel : ℕ) (conns : List Connection) (c : Connection)
        → (cloud.list_connections id s.world).0 ≡ some conns
        → Memᴰ c conns
        → IsForeign swept c
        → (after : Session W) × (delete_transit_gateway cloud fuel id swept s
            ≡ some (some (Failure.foreign_connections (partition conns swept).foreign), after))
          × (after.sent ≡ s.sent)
    unfolding delete_transit_gateway
    delete_transit_gateway-foreign fuel conns c found listed foreign = (
      record s { world = (cloud.list_connections id s.world).1 },
      ground (arith, partition-foreign_of_mem c conns swept listed foreign),
      refl,
    )
