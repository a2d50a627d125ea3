-- ===== src/Daemon/Failure.antt =====
-- A Tune start of src/usb_rx.c that fails on its way, and what `flex1500_tx_control_request` of
-- src/tx_control.c reports of it.
use mathlib.Core.Option.{some}
use flex1500d.Base.{ℕ, ◌≡◌, refl, Bool, true, false, arith}
use flex1500d.Base.Ints.{is_zero}
use flex1500d.TxControl
use flex1500d.TxControl.{TxControl, TxControlResult, TxOwner}
use flex1500d.Protocol.Bands.{pa_filter_for_frequency, tune_frequency_allowed}
use flex1500d.Protocol.Builders.{usb_tune_frequency_to_tuning_word}
use flex1500d.UsbRx.{UsbRx, Libusb, success}
use flex1500d.UsbRx.Transmit.{
  tune_sequence, or_stop, tune_carrier_start, tune_carrier_stop, is_ready,
}
use flex1500d.UsbRx.Forget.{failed_start_stop}
use flex1500d.Daemon.{DaemonTx, AudioStream}
use flex1500d.Daemon.Owner.{start_tune_owner, daemon_tx_owner_start, daemon_tx_owner_stop}

module _ {W : Type 0} (usb_calls : Libusb W) (word : ℕ → ℕ) (stream : AudioStream W) where
  -- The start gets past its checks, and one of its steps fails.
  pub record Breaks (filter w : ℕ) (d : DaemonTx W) : Type 0 where
    pub known : d.receiver.frequency_known ≡ true
    pub allowed : tune_frequency_allowed d.receiver.frequency_hz ≡ true
    pub ready : is_ready d.receiver ≡ true
    pub is_filter : pa_filter_for_frequency d.receiver.frequency_hz ≡ some filter
    pub is_word : usb_tune_frequency_to_tuning_word word d.receiver.frequency_hz 600 ≡ some w
    pub broken : (tune_sequence usb_calls word filter w d.receiver).0 ≡ false

  -- The receiver behind the failed start and the stop that it does itself.
  abbrev pub left_by : ℕ → ℕ → DaemonTx W → UsbRx W
  left_by filter w d = (or_stop usb_calls word (tune_sequence usb_calls word filter w) d.receiver).1

  start-Breaks :
      (filter w : ℕ) (d : DaemonTx W)
      → Breaks filter w d
      → (is_zero (daemon_tx_owner_start usb_calls word stream d TxOwner.tune).0 ≡ false)
        × ((daemon_tx_owner_start usb_calls word stream d TxOwner.tune).1.receiver
            ≡ left_by filter w d)
  unfolding daemon_tx_owner_start start_tune_owner tune_carrier_start or_stop
  start-Breaks filter w d b = (ground arith, ground arith)

  idle_stop :
      (r : UsbRx W) (d : DaemonTx W) (graceful : Bool)
      → d.receiver ≡ r
      → tune_carrier_stop usb_calls word r ≡ (success, r)
      → (is_zero (daemon_tx_owner_stop usb_calls word stream d TxOwner.tune graceful).0 ≡ true)
        × ((daemon_tx_owner_stop usb_calls word stream d TxOwner.tune graceful).1.receiver ≡ r)
  unfolding daemon_tx_owner_stop
  idle_stop r d graceful e q = rw (e, q) (refl, refl)

  break_stop :
      (filter w : ℕ) (d : DaemonTx W)
      → Breaks filter w d
      → (left_by filter w d).opened ≡ true
      → tune_carrier_stop usb_calls word (left_by filter w d) ≡ (success, left_by filter w d)
  break_stop filter w d b o =
      failed_start_stop usb_calls word (tune_sequence usb_calls word filter w) d.receiver b.broken o

  -- Where the daemon's callbacks are the controller's, and a Tune start gets past its checks and
  -- then fails on an open receiver, the request ends in a hardware error without a cleanup failure,
  -- and the receiver is as the failed start's own stop has left it: the controller's stop did
  -- nothing.
  pub failed_start_unreported :
      (c : TxControl (DaemonTx W)) (now_ms filter w : ℕ)
      → c.start_callback ≡ some (daemon_tx_owner_start usb_calls word stream)
      → c.stop_callback ≡ some (daemon_tx_owner_stop usb_calls word stream)
      → Breaks filter w c.callback_context
      → (left_by filter w c.callback_context).opened ≡ true
      → ((TxControl.key c TxOwner.tune now_ms).0 ≡ TxControlResult.hardware_error)
        × ((TxControl.key c TxOwner.tune now_ms).1.cleanup_failed ≡ false)
        × ((TxControl.key c TxOwner.tune now_ms).1.callback_context.receiver
            ≡ left_by filter w c.callback_context)
  unfolding TxControl.key TxControl.call_start TxControl.call_stop
  failed_start_unreported c now_ms filter w es ep b o =
      let d = c.callback_context in
      let (f, r) = start-Breaks filter w d b in
      let d' = (daemon_tx_owner_start usb_calls word stream d TxOwner.tune).1 in
      let (z, k) = idle_stop (left_by filter w d) d' false r (break_stop filter w d b o) in
      rw (es, f, ep, z, k) (refl, refl, refl)
