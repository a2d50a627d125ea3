-- ===== src/NetworkTx/Frame.antt =====
-- The operations of src/network_tx.c touch the controller only by requests and releases for `http`.
use flex1500d.Base.{ℕ, true, false, arith}
use flex1500d.TxControl
use flex1500d.TxControl.{TxControl, TxOwner}
use flex1500d.TxControl.Frame.{Keeps}
use flex1500d.NetworkTx.{
  NetworkTx, release_http, stop_if_keyed, key, ptt_start, ptt_stop, release, disconnect_stream,
  tick,
}

module _ {Ctx : Type 0} (P : TxControl Ctx → Type 0) (k : Keeps P TxOwner.http) (s : NetworkTx)
    (tx : TxControl Ctx) (p : P tx) where
  stop_if_keyed_keeps : P (stop_if_keyed s tx).2
  unfolding stop_if_keyed release_http TxControl.release
  stop_if_keyed_keeps = ground (arith, k.by_release false tx)

  pub ptt_start_keeps : (lease now : ℕ) → P (ptt_start s tx lease now).2
  unfolding ptt_start key
  ptt_start_keeps lease now = ground (arith, k.by_request tx now)

  pub ptt_stop_keeps : (lease : ℕ) → P (ptt_stop s tx lease).2
  unfolding ptt_stop release_http TxControl.release_graceful
  ptt_stop_keeps lease = ground (arith, k.by_release true tx)

  pub release_keeps : (lease : ℕ) → P (release s tx lease).2
  unfolding release
  release_keeps lease = ground (arith, stop_if_keyed_keeps)

  pub disconnect_stream_keeps : P (disconnect_stream s tx).2
  unfolding disconnect_stream
  disconnect_stream_keeps = ground (arith, stop_if_keyed_keeps)

  pub tick_keeps : (now : ℕ) → P (tick s tx now).2
  unfolding tick
  tick_keeps now = ground (arith, stop_if_keyed_keeps)
