-- ===== src/Station/Keep.antt =====
-- Every event keeps the controller of src/flex1500d.c safe and linked to its two network clients.
use flex1500d.Base.{ℕ, Bool}
use flex1500d.Base.Ints.{ℤ}
use flex1500d.TxControl.{TxControl, TxOwner}
use flex1500d.TxControl.Hardware.{Unkeys}
use flex1500d.TuneControl.{TuneControl}
use flex1500d.TuneControl.Watchdog
use flex1500d.TuneControl.Frame
use flex1500d.NetworkTx.{NetworkTx}
use flex1500d.NetworkTx.Link
use flex1500d.StationOwner.{StationOwner}
use flex1500d.NetworkTx.Frame as NetFrame
use flex1500d.Station.{Station}
use flex1500d.Station.Safe.{IsSafe, Keeps-IsSafe_tune, Keeps-IsSafe_http, set_timeout-IsSafe}
use flex1500d.Station.Linked.{AreLinked, Keeps-networked, Keeps-tuned, set_timeout-AreLinked}
use flex1500d.Station.Events.{
  tune_start, tune_keepalive, tune_stop, tx_ptt_start, tx_ptt_stop, tx_release, tx_disconnect,
  tx_timeout, apply,
}

pub record IsGood {Ctx : Type 0} (keyed : Ctx → Bool) (stop : Ctx → TxOwner → Bool → ℤ × Ctx)
    (s : Station Ctx) : Type 0 where
  pub safe : IsSafe keyed stop s.tx
  pub links : AreLinked s.tune s.net s.tx

module _ {Ctx : Type 0} (keyed : Ctx → Bool) (stop : Ctx → TxOwner → Bool → ℤ × Ctx) where
  -- A Tune operation that keeps its own link and moves the controller as `Keeps` allows.
  pub tune_event :
      (s : Station Ctx) (c : TuneControl) (tx : TxControl Ctx)
      → Watchdog.IsLinked c tx
      → IsSafe keyed stop tx
      → Link.IsLinked s.net tx
      → IsGood keyed stop (record s { tx = tx; tune = c })
  tune_event s c tx l safe n = record { safe = safe; links = record { tuned = l; networked = n } }

  pub net_event :
      (s : Station Ctx) (n : NetworkTx) (tx : TxControl Ctx)
      → Link.IsLinked n tx
      → IsSafe keyed stop tx
      → Watchdog.IsLinked s.tune tx
      → IsGood keyed stop (record s { tx = tx; net = n })
  net_event s n tx l safe t = record { safe = safe; links = record { tuned = t; networked = l } }

module _ {Ctx : Type 0} (keyed : Ctx → Bool) (stop : Ctx → TxOwner → Bool → ℤ × Ctx)
    (unkeys : Unkeys keyed stop) (s : Station Ctx) (g : IsGood keyed stop s) where
  pub tune_start-IsGood : (now lease : ℕ) → IsGood keyed stop (apply s (tune_start now lease))
  unfolding apply
  tune_start-IsGood now lease =
      tune_event keyed stop s _ _ (Watchdog.start-IsLinked s.tune s.tx now lease g.links.tuned)
        (Frame.start_keeps _ (Keeps-IsSafe_tune keyed stop unkeys) s.tune s.tx g.safe now lease)
        (Frame.start_keeps _ (Keeps-networked s.net) s.tune s.tx g.links.networked now lease)

  pub tune_keepalive-IsGood :
      (now lease : ℕ) → IsGood keyed stop (apply s (tune_keepalive now lease))
  unfolding apply
  tune_keepalive-IsGood now lease =
      tune_event keyed stop s _ _ (Watchdog.keepalive-IsLinked s.tune s.tx now lease g.links.tuned)
        (Frame.keepalive_keeps _ (Keeps-IsSafe_tune keyed stop unkeys) s.tune s.tx g.safe now lease)
        (Frame.keepalive_keeps _ (Keeps-networked s.net) s.tune s.tx g.links.networked now lease)

  pub tune_stop-IsGood : (lease : ℕ) → IsGood keyed stop (apply s (tune_stop lease))
  unfolding apply
  tune_stop-IsGood lease =
      tune_event keyed stop s _ _ (Watchdog.stop-IsLinked s.tune s.tx lease g.links.tuned)
        (Frame.stop_keeps _ (Keeps-IsSafe_tune keyed stop unkeys) s.tune s.tx g.safe lease)
        (Frame.stop_keeps _ (Keeps-networked s.net) s.tune s.tx g.links.networked lease)

  pub tx_ptt_start-IsGood : (lease now : ℕ) → IsGood keyed stop (apply s (tx_ptt_start lease now))
  unfolding apply
  tx_ptt_start-IsGood lease now =
      net_event keyed stop s _ _ (Link.ptt_start-IsLinked s.net s.tx lease now g.links.networked)
        (NetFrame.ptt_start_keeps _ (Keeps-IsSafe_http keyed stop unkeys) s.net s.tx g.safe lease
          now)
        (NetFrame.ptt_start_keeps _ (Keeps-tuned s.tune) s.net s.tx g.links.tuned lease now)

  pub tx_ptt_stop-IsGood : (lease : ℕ) → IsGood keyed stop (apply s (tx_ptt_stop lease))
  unfolding apply
  tx_ptt_stop-IsGood lease =
      net_event keyed stop s _ _ (Link.ptt_stop-IsLinked s.net s.tx lease g.links.networked)
        (NetFrame.ptt_stop_keeps _ (Keeps-IsSafe_http keyed stop unkeys) s.net s.tx g.safe lease)
        (NetFrame.ptt_stop_keeps _ (Keeps-tuned s.tune) s.net s.tx g.links.tuned lease)

  pub tx_release-IsGood : (lease : ℕ) → IsGood keyed stop (apply s (tx_release lease))
  unfolding apply
  tx_release-IsGood lease =
      net_event keyed stop s _ _ (Link.release-IsLinked s.net s.tx lease g.links.networked)
        (NetFrame.release_keeps _ (Keeps-IsSafe_http keyed stop unkeys) s.net s.tx g.safe lease)
        (NetFrame.release_keeps _ (Keeps-tuned s.tune) s.net s.tx g.links.tuned lease)

  pub tx_disconnect-IsGood : IsGood keyed stop (apply s tx_disconnect)
  unfolding apply
  tx_disconnect-IsGood =
      net_event keyed stop s _ _ (Link.disconnect_stream-IsLinked s.net s.tx g.links.networked)
        (NetFrame.disconnect_stream_keeps _ (Keeps-IsSafe_http keyed stop unkeys) s.net s.tx g.safe)
        (NetFrame.disconnect_stream_keeps _ (Keeps-tuned s.tune) s.net s.tx g.links.tuned)

  -- Calls that leave the controller alone.
  pub quiet_net-IsGood :
      (n : NetworkTx) → Link.IsLinked n s.tx → IsGood keyed stop (record s { net = n })
  quiet_net-IsGood n l = net_event keyed stop s n s.tx l g.safe g.links.tuned

  pub station-IsGood : (o : StationOwner) → IsGood keyed stop (record s { station = o })
  station-IsGood o = record { safe = g.safe; links = g.links }

  pub tx_timeout-IsGood : (seconds : ℕ) → IsGood keyed stop (apply s (tx_timeout seconds))
  unfolding apply
  tx_timeout-IsGood seconds = record {
    safe = set_timeout-IsSafe keyed stop unkeys s.tx seconds g.safe;
    links = set_timeout-AreLinked s.tune s.net s.tx seconds g.links;
  }
