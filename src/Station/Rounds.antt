-- ===== src/Station/Rounds.antt =====
-- The daemon's own events in src/flex1500d.c keep the controller safe and linked: the watchdogs
-- at the head of each round, the microphone button, and the shutdown after a USB failure.
use flex1500d.Base.{ℕ, Bool, true, false, arith}
use flex1500d.Base.Ints.{ℤ}
use flex1500d.TxControl
use flex1500d.TxControl.{TxControl, TxControlResult, TxOwner}
use flex1500d.TxControl.Hardware.{Unkeys}
use flex1500d.TuneControl
use flex1500d.TuneControl.{TuneControl, TxDiagnostics, count_cleanup_failure}
use flex1500d.TuneControl.Watchdog
use flex1500d.TuneControl.Frame
use flex1500d.NetworkTx
use flex1500d.NetworkTx.{NetworkTx, NetworkTxResult}
use flex1500d.NetworkTx.Link
use flex1500d.NetworkTx.Frame as NetFrame
use flex1500d.StationOwner
use flex1500d.Station.{
  Station, release_reserved, release_controls, station_watchdog, tune_watchdog, key_watchdog,
  count_watchdog, network_watchdog, watchdogs, note_key_result, note_ptt_result, microphone_edge,
  daemon_tx_shutdown, drop_session, usb_failure,
}
use flex1500d.Station.Safe.{
  Keeps-IsSafe_tune, Keeps-IsSafe_http, tick-IsSafe, ptt-IsSafe, shutdown-IsSafe,
}
use flex1500d.Station.Linked.{
  Keeps-networked, Keeps-tuned, ptt-AreLinked, tick-AreLinked, shutdown-AreLinked,
}
use flex1500d.Station.Keep.{
  IsGood, tune_event, net_event, station-IsGood, tx_disconnect-IsGood, tx_release-IsGood,
}
use flex1500d.Station.Events.{apply}

module _ {Ctx : Type 0} where
  -- Counting changes nothing that the link reads.
  counted-IsLinked :
      (c : TuneControl) (d : TxDiagnostics) (tx : TxControl Ctx)
      → Watchdog.IsLinked c tx
      → Watchdog.IsLinked (record c { diagnostics = d }) tx
  counted-IsLinked c d tx l = record { valid = l.valid; leased = l.leased; no_orphan = l.no_orphan }

  count_watchdog-IsLinked :
      (r : NetworkTxResult) (c : TuneControl) (tx : TxControl Ctx)
      → Watchdog.IsLinked c tx
      → Watchdog.IsLinked (count_watchdog r c) tx
  unfolding count_watchdog TuneControl.record_cleanup_failure
  count_watchdog-IsLinked NetworkTxResult.expired c tx l = counted-IsLinked c _ tx l
  count_watchdog-IsLinked NetworkTxResult.hardware_error c tx l = counted-IsLinked c _ tx l
  count_watchdog-IsLinked _ c tx l = l

  note_key_result-IsLinked :
      (r : TxControlResult) (c : TuneControl) (tx : TxControl Ctx)
      → Watchdog.IsLinked c tx
      → Watchdog.IsLinked (note_key_result r c) tx
  unfolding note_key_result TuneControl.record_cleanup_failure
  note_key_result-IsLinked TxControlResult.hardware_error c tx l = counted-IsLinked c _ tx l
  note_key_result-IsLinked _ c tx l = l

  note_ptt_result-IsLinked :
      (r : TxControlResult) (c : TuneControl) (tx : TxControl Ctx)
      → Watchdog.IsLinked c tx
      → Watchdog.IsLinked (note_ptt_result r c) tx
  unfolding note_ptt_result TuneControl.record_cleanup_failure
  note_ptt_result-IsLinked TxControlResult.busy c tx l = counted-IsLinked c _ tx l
  note_ptt_result-IsLinked TxControlResult.inhibited c tx l = counted-IsLinked c _ tx l
  note_ptt_result-IsLinked TxControlResult.hardware_error c tx l = counted-IsLinked c _ tx l
  note_ptt_result-IsLinked _ c tx l = l

module _ {Ctx : Type 0} (keyed : Ctx → Bool) (stop : Ctx → TxOwner → Bool → ℤ × Ctx)
    (unkeys : Unkeys keyed stop) (s : Station Ctx) (g : IsGood keyed stop s) where
  tune_watchdog-IsGood : (now : ℕ) → IsGood keyed stop (tune_watchdog s now)
  unfolding tune_watchdog
  tune_watchdog-IsGood now =
      tune_event keyed stop s _ _ (Watchdog.tick-IsLinked s.tune s.tx now g.links.tuned)
        (Frame.tick_keeps _ (Keeps-IsSafe_tune keyed stop unkeys) s.tune s.tx g.safe now)
        (Frame.tick_keeps _ (Keeps-networked s.net) s.tune s.tx g.links.networked now)

  key_watchdog-IsGood : (now : ℕ) → IsGood keyed stop (key_watchdog s now)
  unfolding key_watchdog
  key_watchdog-IsGood now =
      let links = tick-AreLinked s.tune s.net s.tx now g.links in
      tune_event keyed stop s _ _
        (note_key_result-IsLinked _ _ _ (Watchdog.reconcile-IsLinked s.tune _ _ links.tuned))
        (tick-IsSafe keyed stop unkeys s.tx now g.safe) links.networked

  pub microphone_edge-IsGood :
      (pressed allowed : Bool) (now : ℕ) → IsGood keyed stop (microphone_edge s pressed allowed now)
  unfolding microphone_edge
  microphone_edge-IsGood pressed allowed now =
      let links = ptt-AreLinked s.tune s.net s.tx pressed now g.links in
      ground (
        arith,
        tune_event keyed stop s _ s.tx
            (counted-IsLinked s.tune (TuneControl.count_rejected s.tune).diagnostics s.tx
              g.links.tuned)
            g.safe g.links.networked,
        tune_event keyed stop s _ _
            (note_ptt_result-IsLinked (TxControl.physical_ptt s.tx pressed now).0 _ _
              (Watchdog.reconcile-IsLinked s.tune _ false links.tuned))
            (ptt-IsSafe keyed stop unkeys s.tx pressed now g.safe) links.networked,
      )

  network_watchdog-IsGood : (now : ℕ) → IsGood keyed stop (network_watchdog s now)
  unfolding network_watchdog
  network_watchdog-IsGood now =
      let n = NetworkTx.reconcile s.net s.tx in
      let l = Link.reconcile-IsLinked s.net s.tx g.links.networked in
      record {
        safe = NetFrame.tick_keeps _ (Keeps-IsSafe_http keyed stop unkeys) n s.tx g.safe now;
        links = record {
          tuned =
              count_watchdog-IsLinked (NetworkTx.tick n s.tx now).0 s.tune _
                (NetFrame.tick_keeps _ (Keeps-tuned s.tune) n s.tx g.links.tuned now);
          networked = Link.tick-IsLinked n s.tx now l;
        };
      }

  release_reserved-IsGood : IsGood keyed stop (release_reserved s)
  unfolding release_reserved
  release_reserved-IsGood = ground (
    arith,
    net_event keyed stop s _ _ (Link.release-IsLinked s.net s.tx s.net.lease g.links.networked)
        (NetFrame.release_keeps _ (Keeps-IsSafe_http keyed stop unkeys) s.net s.tx g.safe
          s.net.lease)
        (NetFrame.release_keeps _ (Keeps-tuned s.tune) s.net s.tx g.links.tuned s.net.lease),
  )

  tune_shutdown-IsGood : IsGood keyed stop (record s {
    tx = (TuneControl.shutdown s.tune s.tx).1;
    tune = (TuneControl.shutdown s.tune s.tx).0;
  })
  tune_shutdown-IsGood =
      tune_event keyed stop s _ _ (Watchdog.shutdown-IsLinked s.tune s.tx g.links.tuned)
        (Frame.shutdown_keeps _ (Keeps-IsSafe_tune keyed stop unkeys) s.tune s.tx g.safe)
        (Frame.shutdown_keeps _ (Keeps-networked s.net) s.tune s.tx g.links.networked)

module _ {Ctx : Type 0} (keyed : Ctx → Bool) (stop : Ctx → TxOwner → Bool → ℤ × Ctx)
    (unkeys : Unkeys keyed stop) where
  release_controls-IsGood :
      (s : Station Ctx) → IsGood keyed stop s → IsGood keyed stop (release_controls s)
  unfolding release_controls
  release_controls-IsGood s g =
      release_reserved-IsGood keyed stop unkeys _ (tune_shutdown-IsGood keyed stop unkeys s g)

  station_watchdog-IsGood :
      (s : Station Ctx) (now : ℕ) → IsGood keyed stop s → IsGood keyed stop (station_watchdog s now)
  unfolding station_watchdog
  station_watchdog-IsGood s now g =
      let g' = station-IsGood keyed stop unkeys s g (StationOwner.tick s.station now).1 in
      ground (arith, release_controls-IsGood _ g')

  pub watchdogs-IsGood :
      (s : Station Ctx) (t₀ t₁ t₂ t₃ : ℕ)
      → IsGood keyed stop s
      → IsGood keyed stop (watchdogs s t₀ t₁ t₂ t₃)
  unfolding watchdogs
  watchdogs-IsGood s t₀ t₁ t₂ t₃ g =
      network_watchdog-IsGood keyed stop unkeys _
        (key_watchdog-IsGood keyed stop unkeys _
          (tune_watchdog-IsGood keyed stop unkeys _ (station_watchdog-IsGood s t₀ g) t₁) t₂)
        t₃

  daemon_tx_shutdown-IsGood :
      (s : Station Ctx) → IsGood keyed stop s → IsGood keyed stop (daemon_tx_shutdown s)
  unfolding daemon_tx_shutdown TuneControl.record_cleanup_failure
  daemon_tx_shutdown-IsGood s g =
      let links = shutdown-AreLinked s.tune s.net s.tx g.links in
      let safe = shutdown-IsSafe keyed stop unkeys s.tx g.safe in
      let tuned = Watchdog.reconcile-IsLinked s.tune _ false links.tuned in
      ground (
        arith,
        tune_event keyed stop s _ _ tuned safe links.networked,
        tune_event keyed stop s _ _
            (counted-IsLinked _
              (count_cleanup_failure true
                (TuneControl.reconcile s.tune (TxControl.shutdown s.tx) false).diagnostics)
              _ tuned)
            safe links.networked,
      )

  drop_session-IsGood : (s : Station Ctx) → IsGood keyed stop s → IsGood keyed stop (drop_session s)
  unfolding drop_session apply
  drop_session-IsGood s g =
      tx_release-IsGood keyed stop unkeys _ (tx_disconnect-IsGood keyed stop unkeys s g) _

  pub usb_failure-IsGood :
      (s : Station Ctx) → IsGood keyed stop s → IsGood keyed stop (usb_failure s)
  unfolding usb_failure
  usb_failure-IsGood s g = daemon_tx_shutdown-IsGood _ (drop_session-IsGood s g)
