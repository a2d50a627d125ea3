-- ===== src/UsbRx/Forget.antt =====
-- What a stop of src/usb_rx.c forgets, and a stop after it.
use flex1500d.Base.{
  ℕ, ◌≡◌, refl, Bool, true, false, List, [], ◌∷◌, ◌||◌, Bool-cases, inl, inr, arith,
}
use flex1500d.IqRing
use flex1500d.Publisher.{zero_sample}
use flex1500d.UsbRx.{UsbRx, Libusb, EventRound, Completion, slot_done, listener_lost, success}
use flex1500d.UsbRx.Events.{IsBlind, release-kept}
use flex1500d.UsbRx.Stream.{
  tune_complete, resubmit, deliver, drain, release_tune_stream, tx_stream_present,
}
use flex1500d.UsbRx.Transmit.{
  Step, has_transmission, forget, carrier_stop, tune_carrier_stop, or_stop,
}

module _ {W : Type 0} where
  -- No event starts the stream again.
  tune_complete_off :
      (i : ℕ) (x y : Bool) (n : ℕ) (r : UsbRx W)
      → r.tune_streaming ≡ false
      → (tune_complete i x y n r).tune_streaming ≡ false
  unfolding tune_complete resubmit
  tune_complete_off i x y n r h = ground arith

  deliver_off :
      (cs : List Completion) (r : UsbRx W)
      → r.tune_streaming ≡ false
      → (deliver cs r).tune_streaming ≡ false
  unfolding deliver
  deliver_off [] r h = h
  deliver_off (slot_done i x y n ∷ cs) r h =
      deliver_off cs (tune_complete i x y n r) (tune_complete_off i x y n r h)
  deliver_off (listener_lost ∷ cs) r h = deliver_off cs (record r { running = false }) h

  drain_off :
      (qs : List EventRound) (r : UsbRx W)
      → r.tune_streaming ≡ false
      → (drain qs r).tune_streaming ≡ false
  unfolding drain
  drain_off [] r h = h
  drain_off (q ∷ qs) r h =
      let d = deliver_off q.completions r h in
      ground (arith, drain_off qs (deliver q.completions r) d)

module _ {W : Type 0} (usb : Libusb W) (word : ℕ → ℕ) where
  release_off : (r : UsbRx W) → tx_stream_present (release_tune_stream usb r) ≡ false
  unfolding release_tune_stream tx_stream_present
  release_off r =
      let r' = record r { world = (usb.serve r.world 5).1; tune_streaming = false } in
      ground (arith, drain_off (usb.serve r.world 5).0 r' refl)

  flags : UsbRx W → Bool
  flags r =
      r.tune_prepared || r.tune_active || r.tune_keyed || r.tune_key_attempted
      || r.tune_transition_attempted || r.tune_frequency_attempted

  flags_blind : IsBlind flags
  unfolding IsBlind flags
  flags_blind world slots active streaming running microphone capture accepting r = refl

  quiet_off :
      (r : UsbRx W)
      → flags r ≡ false
      → tx_stream_present r ≡ false
      → has_transmission (record r { destination = IqRing.clear zero_sample r.destination }) ≡ false
  unfolding has_transmission flags tx_stream_present
  quiet_off r f p = ground arith

  forget_off : (r : UsbRx W) → has_transmission (forget usb word r) ≡ false
  unfolding forget has_transmission flags
  forget_off r =
      let r' = record r {
        tune_keyed = false;
        tune_key_attempted = false;
        tune_active = false;
        tune_prepared = false;
        tune_transition_attempted = false;
        tune_frequency_attempted = false;
      } in
      elim (Bool-cases (tx_stream_present r')) [
        | inl e ↦ rw e (
            quiet_off (release_tune_stream usb r') (release-kept flags flags_blind usb r')
              (release_off r'))
        | inr e ↦ rw e (quiet_off r' refl e)
      ]

  pub stop_off :
      (r : UsbRx W)
      → r.opened ≡ true
      → has_transmission r ≡ false
      → tune_carrier_stop usb word r ≡ (success, r)
  unfolding tune_carrier_stop
  stop_off r o e = ground arith

  carrier_stop_off : (r : UsbRx W) → has_transmission (carrier_stop usb word r).1 ≡ false
  unfolding carrier_stop
  carrier_stop_off r = forget_off _

  pub stopped_off :
      (r : UsbRx W) → r.opened ≡ true → has_transmission (tune_carrier_stop usb word r).1 ≡ false
  unfolding tune_carrier_stop
  stopped_off r o = ground (arith, carrier_stop_off r)

  was_opened : (r : UsbRx W) → (tune_carrier_stop usb word r).1.opened ≡ true → r.opened ≡ true
  unfolding tune_carrier_stop
  was_opened r o = elim (Bool-cases r.opened) [ inl e ↦ e | inr e ↦ ground arith ]

  -- A stop after a stop does nothing, whatever the first one reached: an open receiver answers 0
  -- and is what it was.
  stop_twice :
      (r : UsbRx W)
      → (tune_carrier_stop usb word r).1.opened ≡ true
      → tune_carrier_stop usb word (tune_carrier_stop usb word r).1
        ≡ (success, (tune_carrier_stop usb word r).1)
  stop_twice r o = stop_off (tune_carrier_stop usb word r).1 o (stopped_off r (was_opened r o))

  -- So a stop after a start that has failed on its way answers 0 and sends nothing, also where the
  -- failed start's own stop has not unkeyed the radio.
  pub failed_start_stop :
      (sequence : Step W) (r : UsbRx W)
      → (sequence r).0 ≡ false
      → (or_stop usb word sequence r).1.opened ≡ true
      → tune_carrier_stop usb word (or_stop usb word sequence r).1
        ≡ (success, (or_stop usb word sequence r).1)
  unfolding or_stop
  failed_start_stop sequence r f o = rw f (stop_twice (sequence r).1 (rw f at o))
