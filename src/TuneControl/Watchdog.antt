-- ===== src/TuneControl/Watchdog.antt =====
-- The link between the Tune lease of src/tune_control.c and the transmitter's owner, and what
-- the two time limits guarantee.
use flex1500d.Base.{ℕ, ◌+◌, ◌^◌, ◌≤◌, ◌<◌, ◌≡◌, ◌≢◌, ◌⊎◌, Bool, true, false, arith}
use flex1500d.TxControl
use flex1500d.TxControl.{TxControl, TxControlResult, TxOwner}
use flex1500d.TxControl.Invariant
use flex1500d.TxControl.Invariant.{request-IsValid, release_with-IsValid}
use flex1500d.TxControl.Owner.{request_owner, release_with-owner}
use flex1500d.TuneControl.{
  TuneControl, TuneResult, ok, expired, hard_limit, hardware_error, lease_ms, hard_limit_ms,
  release_tune, stop_active, start_carrier, start, keepalive, stop, tick, reconcile, shutdown,
}

-- Whenever Tune owns the transmitter, a lease is active that can stop it and that the watchdog sees.
pub record IsLinked {Ctx : Type 0} (c : TuneControl) (tx : TxControl Ctx) : Type 0 where
  pub valid : Invariant.IsValid tx
  pub leased : c.active ≡ true → (c.lease ≢ 0) × (c.enabled ≡ true) × (c.tx_control ≡ true)
  pub no_orphan : tx.owner ≡ TxOwner.tune → c.active ≡ true

module _ {Ctx : Type 0} (c : TuneControl) (tx : TxControl Ctx) where
  release_tune_lem :
      IsLinked c tx
      → c.active ≡ true
      → Invariant.IsValid (release_tune c.tx_control tx).1
        × ((release_tune c.tx_control tx).1.owner ≢ TxOwner.tune)
  unfolding release_tune TxControl.release
  release_tune_lem l on =
      ground (
        arith,
        release_with-IsValid false tx TxOwner.tune,
        release_with-owner tx false TxOwner.tune,
      )

  pub stop_active-IsLinked :
      (reason : TuneResult)
      → IsLinked c tx
      → IsLinked (stop_active c tx reason).1 (stop_active c tx reason).2
  unfolding stop_active
  stop_active-IsLinked reason l = ground (arith, release_tune_lem l)

  -- What a stop leaves: no lease, and Tune off the transmitter.
  pub stop_active_stops :
      (reason : TuneResult)
      → IsLinked c tx
      → c.active ≡ true
      → ((stop_active c tx reason).2.owner ≢ TxOwner.tune)
        × ((stop_active c tx reason).1.active ≡ false)
        × ((stop_active c tx reason).1.lease ≡ 0)
        × (((stop_active c tx reason).0 ≡ reason) ⊎ ((stop_active c tx reason).0 ≡ hardware_error))
  unfolding stop_active
  stop_active_stops reason l on = ground (arith, release_tune_lem l)

  pub start-IsLinked :
      (now lease : ℕ) → IsLinked c tx → IsLinked (start c tx now lease).1 (start c tx now lease).2
  unfolding start start_carrier
  start-IsLinked now lease l =
      ground (arith, request-IsValid tx TxOwner.tune now, request_owner tx TxOwner.tune now)

  pub keepalive-IsLinked :
      (now lease : ℕ)
      → IsLinked c tx
      → IsLinked (keepalive c tx now lease).1 (keepalive c tx now lease).2
  unfolding keepalive
  keepalive-IsLinked now lease l =
      ground (arith, stop_active-IsLinked hard_limit l, stop_active-IsLinked expired l)

  pub stop-IsLinked : (lease : ℕ) → IsLinked c tx → IsLinked (stop c tx lease).1 (stop c tx lease).2
  unfolding stop
  stop-IsLinked lease l = ground (arith, stop_active-IsLinked ok l)

  pub tick-IsLinked : (now : ℕ) → IsLinked c tx → IsLinked (tick c tx now).1 (tick c tx now).2
  unfolding tick
  tick-IsLinked now l =
      ground (arith, stop_active-IsLinked hard_limit l, stop_active-IsLinked expired l)

  pub reconcile-IsLinked : (watchdog : Bool) → IsLinked c tx → IsLinked (reconcile c tx watchdog) tx
  unfolding reconcile
  reconcile-IsLinked watchdog l = ground arith

  pub shutdown-IsLinked : IsLinked c tx → IsLinked (shutdown c tx).0 (shutdown c tx).1
  unfolding shutdown
  shutdown-IsLinked l = ground (arith, stop_active-IsLinked ok l)

  -- Every Tune operation keeps the link: from a state where the controller is valid, an active Tune
  -- has a nonzero lease, and Tune owns the transmitter only while a lease is active, each of start,
  -- keepalive, stop, tick, reconcile and shutdown leads to such a state, on success and on every error.
  pub tune_operations-IsLinked :
      (now lease : ℕ) (watchdog : Bool)
      → IsLinked c tx
      → IsLinked (start c tx now lease).1 (start c tx now lease).2
        × IsLinked (keepalive c tx now lease).1 (keepalive c tx now lease).2
        × IsLinked (stop c tx lease).1 (stop c tx lease).2
        × IsLinked (tick c tx now).1 (tick c tx now).2
        × IsLinked (reconcile c tx watchdog) tx
        × IsLinked (shutdown c tx).0 (shutdown c tx).1
  tune_operations-IsLinked now lease watchdog l = (
    start-IsLinked now lease l,
    keepalive-IsLinked now lease l,
    stop-IsLinked lease l,
    tick-IsLinked now l,
    reconcile-IsLinked watchdog l,
    shutdown-IsLinked l,
  )

  -- A tick at `now` while a lease is active, on a 64-bit clock that has not gone back: if less than
  -- the hard limit has passed since the start and less than the lease time since the last renewal,
  -- it returns ok and changes nothing; otherwise Tune no longer owns the transmitter and the lease
  -- is gone, and the result says which limit was hit or that the hardware failed to stop.
  pub tick_watchdog :
      (now : ℕ)
      → IsLinked c tx
      → c.active ≡ true
      → c.started_ms ≤ now
      → c.renewed_ms ≤ now
      → now < 2 ^ 64
      → ((now < c.started_ms + hard_limit_ms)
          × (now < c.renewed_ms + lease_ms)
          × (tick c tx now ≡ (ok, c, tx)))
        ⊎ (((c.started_ms + hard_limit_ms ≤ now) ⊎ (c.renewed_ms + lease_ms ≤ now))
            × ((tick c tx now).2.owner ≢ TxOwner.tune)
            × ((tick c tx now).1.active ≡ false)
            × (((tick c tx now).0 ≡ hard_limit)
                ⊎ ((tick c tx now).0 ≡ expired)
                ⊎ ((tick c tx now).0 ≡ hardware_error)))
  unfolding tick
  tick_watchdog now l on le le' fit =
      ground (arith, stop_active_stops hard_limit l on, stop_active_stops expired l on)

  -- A keepalive that succeeds comes from the lease's holder, before both limits have passed, and
  -- moves nothing but the renewal time: the hard limit still counts from the start.
  pub keepalive_renews :
      (now lease : ℕ)
      → IsLinked c tx
      → c.started_ms ≤ now
      → c.renewed_ms ≤ now
      → now < 2 ^ 64
      → (keepalive c tx now lease).0 ≡ ok
      → (c.active ≡ true)
        × (lease ≡ c.lease)
        × (now < c.started_ms + hard_limit_ms)
        × (now < c.renewed_ms + lease_ms)
        × (keepalive c tx now lease ≡ (ok, record c { renewed_ms = now }, tx))
  unfolding keepalive
  keepalive_renews now lease l le le' fit good =
      ground (arith, stop_active_stops hard_limit l, stop_active_stops expired l)
