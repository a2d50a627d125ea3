-- ===== src/UsbRx/Graceful.antt =====
-- `flex1500_usb_rx_microphone_tx_stop_graceful` of src/usb_rx.c, and the settings around it.
use flex1500d.Base.{ℕ, ◌≡◌, refl, ◌∙◌, arith, true, false, not, if◌then◌else◌}
use flex1500d.Base.Ints.{ℤ, is_zero}
use flex1500d.UsbRx.{UsbRx, Libusb, error_invalid_param}
use flex1500d.UsbRx.Stream.{serve_rounds}
use flex1500d.UsbRx.Events.{IsBlind, serve_rounds-kept}
use flex1500d.UsbRx.Keyed.{may_be_keyed}
use flex1500d.UsbRx.Actions.{trace_blind}
use flex1500d.UsbRx.Unkey.{IsTracked, tune_carrier_stop_unkeys}
use flex1500d.UsbRx.Transmit.{is_keying, tune_carrier_stop}

module _ {W : Type 0} (usb : Libusb W) (word : ℕ → ℕ) where
  -- The rounds are those before the queue is empty or the time is over.
  unfoldable pub microphone_tx_stop_graceful : ℕ → UsbRx W → ℤ × UsbRx W
  microphone_tx_stop_graceful maximum_drain_ms r =
      let (rounds, world) = usb.serve r.world maximum_drain_ms in
      let (ignored, r') =
        serve_rounds rounds (record r { world = world; tx_accepting_audio = false }) in
      let stopped = tune_carrier_stop usb word r' in
      if not r.opened then (error_invalid_param, r) else stopped

  keying_blind : IsBlind (λ (r : UsbRx W). is_keying r)
  unfolding IsBlind is_keying
  keying_blind world slots active streaming running microphone capture accepting r = refl

  -- The receiver at the end of a graceful drain.
  abbrev pub drained : ℕ → UsbRx W → UsbRx W
  drained ms r =
      (serve_rounds (usb.serve r.world ms).0
        (record r { world = (usb.serve r.world ms).1; tx_accepting_audio = false })).1

  drained-IsTracked : (ms : ℕ) (r : UsbRx W) → IsTracked r → IsTracked (drained ms r)
  unfolding is_keying
  drained-IsTracked ms r t =
      let r' = record r { world = (usb.serve r.world ms).1; tx_accepting_audio = false } in
      let e = serve_rounds-kept _ (trace_blind W) (usb.serve r.world ms).0 r' in
      let k = serve_rounds-kept _ keying_blind (usb.serve r.world ms).0 r' in
      record { tracked = λ h. k ∙ t.tracked (rw e at h) }

  -- A graceful stop that returns 0 has unkeyed the radio too.
  pub graceful_unkeys :
      (ms : ℕ) (r : UsbRx W)
      → IsTracked r
      → is_zero (microphone_tx_stop_graceful ms r).0 ≡ true
      → may_be_keyed (microphone_tx_stop_graceful ms r).1.trace ≡ false
  unfolding microphone_tx_stop_graceful
  graceful_unkeys ms r t h =
      ground (arith, tune_carrier_stop_unkeys usb word (drained ms r) (drained-IsTracked ms r t))
