-- ===== src/Station.antt =====
-- The transmit side of the daemon in src/flex1500d.c: one controller, one Tune lease, one network
-- session and one station lease over the same radio, and the events of its main loop.
pub mod Safe
pub mod Linked
pub mod Events
pub mod Keep
pub mod Rounds
pub mod OnAir
mod Tests
use flex1500d.Base.{ℕ, ◌*◌, ◌==◌, Bool, true, false, not, ◌&&◌, if◌then◌else◌, List, [], ◌∷◌}
use mathlib.Core.Option.{Option}
use flex1500d.Base.Ints.{ℤ}
use flex1500d.TxControl
use flex1500d.TxControl.{TxControl, TxControlResult, TxOwner}
use flex1500d.TuneControl
use flex1500d.TuneControl.{TuneControl, TuneResult}
use flex1500d.NetworkTx
use flex1500d.NetworkTx.{NetworkTx, NetworkTxResult, NetworkTxProfile}
use flex1500d.StationOwner
use flex1500d.StationOwner.{StationOwner, StationOwnerResult}

-- The variables of `serve_live_rx_at` that share the transmitter.
pub record Station (Ctx : Type 0) : Type 0 where
  pub tx : TxControl Ctx
  pub tune : TuneControl
  pub net : NetworkTx
  pub station : StationOwner

abbrev pub timeout_default_ms : ℕ
timeout_default_ms = 180 * 1000

unfoldable pub count_watchdog : NetworkTxResult → TuneControl → TuneControl
count_watchdog NetworkTxResult.expired tune = record tune {
  diagnostics = TuneControl.count_watchdog_stop tune.diagnostics;
}
count_watchdog NetworkTxResult.hardware_error tune = TuneControl.record_cleanup_failure tune
count_watchdog _ tune = tune

abbrev pub is_max_key : TxControlResult → Bool
is_max_key TxControlResult.max_key = true
is_max_key _ = false

-- What the diagnostics keep of the maximum-key timer's result, and of the button's.
unfoldable pub note_key_result : TxControlResult → TuneControl → TuneControl
note_key_result TxControlResult.hardware_error tune = TuneControl.record_cleanup_failure tune
note_key_result _ tune = tune

unfoldable pub note_ptt_result : TxControlResult → TuneControl → TuneControl
note_ptt_result TxControlResult.busy tune = TuneControl.count_rejected tune
note_ptt_result TxControlResult.inhibited tune = TuneControl.count_rejected tune
note_ptt_result TxControlResult.hardware_error tune = TuneControl.record_cleanup_failure tune
note_ptt_result _ tune = tune

module _ {Ctx : Type 0} where
  -- The state before the main loop: transmit preparation has left the radio unkeyed.
  unfoldable pub start_up :
      Bool → Ctx → (Ctx → TxOwner → ℤ × Ctx) → (Ctx → TxOwner → Bool → ℤ × Ctx) → Station Ctx
  start_up transmit_enabled context start stop =
      let tx =
        TxControl.init transmit_enabled timeout_default_ms context (Option.some start)
          (Option.some stop) in
      record {
        tx = if transmit_enabled then TxControl.arm_physical_ptt tx else tx;
        tune = TuneControl.init transmit_enabled true;
        net = NetworkTx.init transmit_enabled true;
        station = StationOwner.init;
      }

  -- `if (network_tx.reserved) release(&network_tx, network_tx.lease);`
  unfoldable pub release_reserved : Station Ctx → Station Ctx
  release_reserved s =
      let (r, net, tx) = NetworkTx.release s.net s.tx s.net.lease in
      if s.net.reserved then record s { tx = tx; net = net } else s

  -- On an expired station lease, Tune is shut down and a reserved session is released.
  unfoldable pub release_controls : Station Ctx → Station Ctx
  release_controls s =
      let (tune, tx) = TuneControl.shutdown s.tune s.tx in
      release_reserved (record s { tx = tx; tune = tune })

  unfoldable pub station_watchdog : Station Ctx → ℕ → Station Ctx
  station_watchdog s now_ms =
      let (result, station) = StationOwner.tick s.station now_ms in
      let s' = record s { station = station } in
      elim result [ StationOwnerResult.expired ↦ release_controls s' | _ ↦ s' ]

  unfoldable pub tune_watchdog : Station Ctx → ℕ → Station Ctx
  tune_watchdog s now_ms =
      let (r, tune, tx) = TuneControl.tick s.tune s.tx now_ms in record s { tx = tx; tune = tune }

  -- The maximum-key timer, and what follows from its result.
  unfoldable pub key_watchdog : Station Ctx → ℕ → Station Ctx
  key_watchdog s now_ms =
      let (r, tx) = TxControl.tick s.tx now_ms in
      let tune = TuneControl.reconcile s.tune tx (is_max_key r) in
      record s { tx = tx; tune = note_key_result r tune }

  -- Reconcile the network session, then its lease timer.
  unfoldable pub network_watchdog : Station Ctx → ℕ → Station Ctx
  network_watchdog s now_ms =
      let (r, net, tx) = NetworkTx.tick (NetworkTx.reconcile s.net s.tx) s.tx now_ms in
      record s { tx = tx; net = net; tune = count_watchdog r s.tune }

  -- The head of each round of the main loop. The four clocks are read one after the other.
  unfoldable pub watchdogs : Station Ctx → ℕ → ℕ → ℕ → ℕ → Station Ctx
  watchdogs s t₀ t₁ t₂ t₃ =
      network_watchdog (key_watchdog (tune_watchdog (station_watchdog s t₀) t₁) t₂) t₃

  -- An edge of the microphone button, with `allowed` for the known frequency inside an allocation.
  unfoldable pub microphone_edge : Station Ctx → Bool → Bool → ℕ → Station Ctx
  microphone_edge s pressed allowed now_ms =
      let (r, tx) = TxControl.physical_ptt s.tx pressed now_ms in
      let tune = TuneControl.reconcile s.tune tx false in
      if not s.tx.enabled
      then s
      else if pressed && s.tx.physical_ptt_armed && not allowed
      then record s { tune = TuneControl.count_rejected s.tune }
      else record s { tx = tx; tune = note_ptt_result r tune }

  unfoldable pub daemon_tx_shutdown : Station Ctx → Station Ctx
  daemon_tx_shutdown s =
      let tx = TxControl.shutdown s.tx in
      let tune = TuneControl.reconcile s.tune tx false in
      record s {
        tx = tx;
        tune =
            if s.tune.active && tx.cleanup_failed
            then TuneControl.record_cleanup_failure tune
            else tune;
      }

  -- The network session's stream is cut, and its lease released.
  unfoldable pub drop_session : Station Ctx → Station Ctx
  drop_session s =
      let (r, net, tx) = NetworkTx.disconnect_stream s.net s.tx in
      let (r', net', tx') = NetworkTx.release net tx net.lease in record s { tx = tx'; net = net' }

  -- What a receive failure does before the receiver is stopped.
  unfoldable pub usb_failure : Station Ctx → Station Ctx
  usb_failure s = daemon_tx_shutdown (drop_session s)

  -- A successful recovery: fresh controllers with the old time limit and counters, armed again,
  -- over the radio `context` that was opened anew.
  unfoldable pub recover :
      Station Ctx
      → Bool
      → Ctx
      → (Ctx → TxOwner → ℤ × Ctx)
      → (Ctx → TxOwner → Bool → ℤ × Ctx)
      → Station Ctx
  recover s transmit_enabled context start stop =
      let tx =
        TxControl.init transmit_enabled (TxControl.timeout_seconds s.tx * 1000) context
          (Option.some start) (Option.some stop) in
      record s {
        tx = if transmit_enabled then TxControl.arm_physical_ptt tx else tx;
        tune = record (TuneControl.init transmit_enabled true) { diagnostics = s.tune.diagnostics };
        net = NetworkTx.init transmit_enabled true;
      }
