-- ===== src/Station/Events.antt =====
-- What can happen to the transmit side of src/flex1500d.c between two looks at it: the calls that
-- src/api.c makes for HTTP requests, the button, the head of the main loop, and a USB failure.
use flex1500d.Base.{ℕ, Bool, if◌then◌else◌, not}
use flex1500d.TxControl
use flex1500d.TxControl.{TxControl, TxOwner, owner_eq}
use flex1500d.TuneControl
use flex1500d.NetworkTx
use flex1500d.NetworkTx.{NetworkTxProfile}
use flex1500d.StationOwner
use flex1500d.Station.{Station, watchdogs, microphone_edge, usb_failure}

pub data Event : Type 0 where
  tune_start tune_keepalive : (now_ms lease : ℕ) → Event
  tune_stop : (lease : ℕ) → Event
  tx_acquire : NetworkTxProfile → (lease now_ms : ℕ) → Event
  tx_keepalive tx_stream tx_ptt_start : (lease now_ms : ℕ) → Event
  tx_data : (lease frames now_ms : ℕ) → Event
  tx_ptt_stop tx_release : (lease : ℕ) → Event
  tx_disconnect : Event
  owner_acquire : (lease now_ms : ℕ) → (mode_aware : Bool) → Event
  owner_keepalive : (lease now_ms : ℕ) → Event
  owner_release : (lease : ℕ) → Event
  tx_timeout : (seconds : ℕ) → Event
  button : (pressed allowed : Bool) → (now_ms : ℕ) → Event
  round : (t₀ t₁ t₂ t₃ : ℕ) → Event
  usb_fails : Event

unfoldable pub apply : {Ctx : Type 0} → Station Ctx → Event → Station Ctx
apply s (tune_start now lease) =
    let (r, tune, tx) = TuneControl.start s.tune s.tx now lease in record s { tx = tx; tune = tune }
apply s (tune_keepalive now lease) =
    let (r, tune, tx) = TuneControl.keepalive s.tune s.tx now lease in
    record s { tx = tx; tune = tune }
apply s (tune_stop lease) =
    let (r, tune, tx) = TuneControl.stop s.tune s.tx lease in record s { tx = tx; tune = tune }
apply s (tx_acquire profile lease now) = record s {
  net = (NetworkTx.acquire s.net s.tx profile lease now).1;
}
apply s (tx_keepalive lease now) = record s { net = (NetworkTx.keepalive s.net lease now).1 }
apply s (tx_stream lease now) = record s { net = (NetworkTx.attach_stream s.net lease now).1 }
apply s (tx_ptt_start lease now) =
    let (r, net, tx) = NetworkTx.ptt_start s.net s.tx lease now in record s { tx = tx; net = net }
apply s (tx_data lease frames now) = record s {
  net = (NetworkTx.record_data s.net lease frames now).1;
}
apply s (tx_ptt_stop lease) =
    let (r, net, tx) = NetworkTx.ptt_stop s.net s.tx lease in record s { tx = tx; net = net }
apply s (tx_release lease) =
    let (r, net, tx) = NetworkTx.release s.net s.tx lease in record s { tx = tx; net = net }
apply s tx_disconnect =
    let (r, net, tx) = NetworkTx.disconnect_stream s.net s.tx in record s { tx = tx; net = net }
apply s (owner_acquire lease now aware) = record s {
  station = (StationOwner.acquire_with_mode s.station lease now aware).1;
}
apply s (owner_keepalive lease now) = record s {
  station = (StationOwner.keepalive s.station lease now).1;
}
apply s (owner_release lease) =
    if not (owner_eq s.tx.owner TxOwner.none)
    then s
    else record s { station = (StationOwner.release s.station lease).1 }
apply s (tx_timeout seconds) = record s { tx = (TxControl.set_timeout_seconds s.tx seconds).1 }
apply s (button pressed allowed now) = microphone_edge s pressed allowed now
apply s (round t₀ t₁ t₂ t₃) = watchdogs s t₀ t₁ t₂ t₃
apply s usb_fails = usb_failure s
