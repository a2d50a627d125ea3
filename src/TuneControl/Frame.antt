-- ===== src/TuneControl/Frame.antt =====
-- The operations of src/tune_control.c touch the controller only by requests and releases for Tune.
use flex1500d.Base.{ℕ, false, arith}
use flex1500d.TxControl
use flex1500d.TxControl.{TxControl, TxOwner}
use flex1500d.TxControl.Frame.{Keeps}
use flex1500d.TuneControl.{
  TuneControl, TuneResult, ok, expired, hard_limit, release_tune, stop_active, start_carrier, start,
  keepalive, stop, tick, shutdown,
}

module _ {Ctx : Type 0} (P : TxControl Ctx → Type 0) (k : Keeps P TxOwner.tune) (c : TuneControl)
    (tx : TxControl Ctx) (p : P tx) where
  stop_active_keeps : (reason : TuneResult) → P (stop_active c tx reason).2
  unfolding stop_active release_tune TxControl.release
  stop_active_keeps reason = ground (arith, k.by_release false tx)

  pub start_keeps : (now lease : ℕ) → P (start c tx now lease).2
  unfolding start start_carrier
  start_keeps now lease = ground (arith, k.by_request tx now)

  pub keepalive_keeps : (now lease : ℕ) → P (keepalive c tx now lease).2
  unfolding keepalive
  keepalive_keeps now lease =
      ground (arith, stop_active_keeps hard_limit, stop_active_keeps expired)

  pub stop_keeps : (lease : ℕ) → P (stop c tx lease).2
  unfolding stop
  stop_keeps lease = ground (arith, stop_active_keeps ok)

  pub tick_keeps : (now : ℕ) → P (tick c tx now).2
  unfolding tick
  tick_keeps now = ground (arith, stop_active_keeps hard_limit, stop_active_keeps expired)

  pub shutdown_keeps : P (shutdown c tx).1
  unfolding shutdown
  shutdown_keeps = ground (arith, stop_active_keeps ok)
