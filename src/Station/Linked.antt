-- ===== src/Station/Linked.antt =====
-- How the links of Tune and of the network session survive each other's calls and the daemon's own.
use flex1500d.Base.{ℕ, Bool, arith}
use flex1500d.TxControl
use flex1500d.TxControl.{TxControl, TxOwner, tune, http}
use flex1500d.TxControl.Frame.{Keeps}
use flex1500d.TxControl.Invariant.{
  request-IsValid, release_with-IsValid, physical_ptt-IsValid, tick-IsValid, shutdown-IsValid,
  set_timeout-IsValid,
}
use flex1500d.TxControl.Owner.{
  request_owner, release_with_frame, tick-owner, shutdown-owner, physical_ptt-owner,
}
use flex1500d.TuneControl.{TuneControl}
use flex1500d.TuneControl.Watchdog
use flex1500d.NetworkTx.{NetworkTx}
use flex1500d.NetworkTx.Link

-- Both links over one controller.
pub record AreLinked {Ctx : Type 0} (c : TuneControl) (s : NetworkTx) (tx : TxControl Ctx)
    : Type 0 where
  pub tuned : Watchdog.IsLinked c tx
  pub networked : Link.IsLinked s tx

module _ {Ctx : Type 0} where
  pub Keeps-networked : (s : NetworkTx) → Keeps {Ctx = Ctx} (λ tx. Link.IsLinked s tx) tune
  Keeps-networked s = record {
    by_request = λ tx now l. ground (
      arith,
      request-IsValid tx tune now,
      request_owner tx tune now,
      l.valid,
      l.ready,
      l.leased,
      l.bounded,
      l.no_orphan,
    );
    by_release = λ g tx l. ground (
      arith,
      release_with-IsValid g tx tune,
      release_with_frame tx g tune,
      l.valid,
      l.ready,
      l.leased,
      l.bounded,
      l.no_orphan,
    );
  }

  pub Keeps-tuned : (c : TuneControl) → Keeps {Ctx = Ctx} (λ tx. Watchdog.IsLinked c tx) http
  Keeps-tuned c = record {
    by_request = λ tx now l. ground (
      arith,
      request-IsValid tx http now,
      request_owner tx http now,
      l.valid,
      l.leased,
      l.no_orphan,
    );
    by_release = λ g tx l. ground (
      arith,
      release_with-IsValid g tx http,
      release_with_frame tx g http,
      l.valid,
      l.leased,
      l.no_orphan,
    );
  }

module _ {Ctx : Type 0} (c : TuneControl) (s : NetworkTx) (tx : TxControl Ctx) where
  -- Calls that can only keep the owner, free the transmitter or give it to the microphone.
  pub ptt-AreLinked :
      (b : Bool) (now : ℕ) → AreLinked c s tx → AreLinked c s (TxControl.physical_ptt tx b now).1
  ptt-AreLinked b now l = ground (arith, physical_ptt-IsValid tx b now, physical_ptt-owner tx b now)

  pub tick-AreLinked : (now : ℕ) → AreLinked c s tx → AreLinked c s (TxControl.tick tx now).1
  tick-AreLinked now l = ground (arith, tick-IsValid tx now, tick-owner tx now)

  pub shutdown-AreLinked : AreLinked c s tx → AreLinked c s (TxControl.shutdown tx)
  shutdown-AreLinked l = ground (arith, shutdown-IsValid tx, shutdown-owner tx)

  pub set_timeout-AreLinked :
      (n : ℕ) → AreLinked c s tx → AreLinked c s (TxControl.set_timeout_seconds tx n).1
  unfolding TxControl.set_timeout_seconds
  set_timeout-AreLinked n l = ground (arith, set_timeout-IsValid tx n)
