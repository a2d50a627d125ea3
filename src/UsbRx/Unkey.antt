-- ===== src/UsbRx/Unkey.antt =====
-- A stop of src/usb_rx.c that returns 0 has unkeyed the radio.
use mathlib.Core.Option.{Option, some}
use flex1500d.Base.{ℕ, ◌≡◌, refl, ap, ◌∙◌, Bool, true, false, Bool-cases, inl, inr, arith}
use flex1500d.Base.Ints.{ℤ, pos, is_zero}
use flex1500d.TxLifecycle.{
  TxCleanupAction, transition_mute, unkey, restore_rx_frequency, transition_unmute, stop_stream,
  reset_pa_filter, disable_amplifier, action_bit, has, cleanup_plan, execute_cleanup, Cleanup,
  attempt, attempt_all,
}
use flex1500d.UsbRx.{UsbRx, Libusb}
use flex1500d.UsbRx.Stream.{tx_stream_present}
use flex1500d.UsbRx.Transmit.{
  carrier_stop, tx_partial_state, is_keying, has_transmission, cleanup_action, forget,
  tune_carrier_stop,
}
use flex1500d.UsbRx.Keyed.{may_be_keyed}
use flex1500d.UsbRx.Actions.{
  partial-unkey, release-trace, attempt_keyed, attempt_error, attempt_unkey, attempt_unplanned,
}

-- Where the radio may be keyed, a flag of the receiver says so.
pub record IsTracked {W : Type 0} (r : UsbRx W) : Type 0 where
  pub tracked : may_be_keyed r.trace ≡ true → is_keying r ≡ true

module _ {W : Type 0} (usb : Libusb W) (word : ℕ → ℕ) (preserve : Bool) (plan : ℕ) where
  -- One turn of the cleanup, and the two and five turns around the unkey.
  abbrev turn : TxCleanupAction → Cleanup (UsbRx W) → Cleanup (UsbRx W)
  turn = attempt (cleanup_action usb word preserve) plan

  abbrev later_turns : Cleanup (UsbRx W) → Cleanup (UsbRx W)
  later_turns s = turn stop_stream (
      turn disable_amplifier
        (turn reset_pa_filter (turn transition_unmute (turn restore_rx_frequency s))))

  later_keyed :
      (s : Cleanup (UsbRx W))
      → may_be_keyed (later_turns s).context.trace ≡ may_be_keyed s.context.trace
  later_keyed s =
      let a = turn restore_rx_frequency s in
      let b = turn transition_unmute a in
      let c = turn reset_pa_filter b in
      let d = turn disable_amplifier c in
      attempt_keyed usb word preserve plan stop_stream d (cc)
      ∙ attempt_keyed usb word preserve plan disable_amplifier c (cc)
      ∙ attempt_keyed usb word preserve plan reset_pa_filter b (cc)
      ∙ attempt_keyed usb word preserve plan transition_unmute a (cc)
      ∙ attempt_keyed usb word preserve plan restore_rx_frequency s (cc)

  later_error :
      (s : Cleanup (UsbRx W))
      → is_zero (later_turns s).first_error ≡ true
      → is_zero s.first_error ≡ true
  later_error s h =
      let a = turn restore_rx_frequency s in
      let b = turn transition_unmute a in
      let c = turn reset_pa_filter b in
      let d = turn disable_amplifier c in
      attempt_error usb word preserve plan restore_rx_frequency s (
        attempt_error usb word preserve plan transition_unmute a (
          attempt_error usb word preserve plan reset_pa_filter b (
            attempt_error usb word preserve plan disable_amplifier c
              (attempt_error usb word preserve plan stop_stream d h))))

  abbrev start : UsbRx W → Cleanup (UsbRx W)
  start r = record { attempted = 0; first_error = pos 0; context = r }

  abbrev cleaned : UsbRx W → ℤ × Option ℕ × UsbRx W
  cleaned r = execute_cleanup plan (some (cleanup_action usb word preserve)) r

  cleaned_turns :
      (r : UsbRx W)
      → cleaned r ≡ (
        (later_turns (turn unkey (turn transition_mute (start r)))).first_error,
        some (later_turns (turn unkey (turn transition_mute (start r)))).attempted,
        (later_turns (turn unkey (turn transition_mute (start r)))).context,
      )
  unfolding execute_cleanup attempt_all
  cleaned_turns r = refl

  -- A cleanup with the unkey that returns 0 leaves the radio unkeyed.
  pub cleaned_unkeys :
      (r : UsbRx W)
      → has plan (action_bit unkey) ≡ true
      → is_zero (cleaned r).0 ≡ true
      → may_be_keyed (cleaned r).2.trace ≡ false
  cleaned_unkeys r p h =
      let s = turn unkey (turn transition_mute (start r)) in
      rw (cleaned_turns r) (
        later_keyed s
        ∙ attempt_unkey usb word preserve plan (turn transition_mute (start r)) p
            (later_error s (rw (cleaned_turns r) at h)))

  -- A cleanup without the unkey leaves it as it was.
  pub cleaned_keyed :
      (r : UsbRx W)
      → has plan (action_bit unkey) ≡ false
      → may_be_keyed (cleaned r).2.trace ≡ may_be_keyed r.trace
  cleaned_keyed r p =
      let s = turn transition_mute (start r) in
      rw (cleaned_turns r) (
        later_keyed (turn unkey s)
        ∙ ap (λ k. may_be_keyed k.context.trace) (attempt_unplanned usb word preserve plan s p)
        ∙ attempt_keyed usb word preserve plan transition_mute (start r) (cc))

module _ {W : Type 0} (usb : Libusb W) (word : ℕ → ℕ) where
  pub forget-trace : (r : UsbRx W) → (forget usb word r).trace ≡ r.trace
  unfolding forget
  forget-trace r =
      let r' = record r {
        tune_keyed = false;
        tune_key_attempted = false;
        tune_active = false;
        tune_prepared = false;
        tune_transition_attempted = false;
        tune_frequency_attempted = false;
      } in
      elim (Bool-cases (tx_stream_present r')) [
        | inl e ↦ ground (arith, release-trace usb word r')
        | inr e ↦ ground arith
      ]

  plan_unkey :
      (r : UsbRx W) → has (cleanup_plan (tx_partial_state r)) (action_bit unkey) ≡ is_keying r
  unfolding tx_partial_state
  plan_unkey r = partial-unkey _ _ _ _ _ _

  pub stop_opened :
      (r : UsbRx W) → is_zero (tune_carrier_stop usb word r).0 ≡ true → r.opened ≡ true
  unfolding tune_carrier_stop
  stop_opened r h = ground arith

  -- A stop that returns 0 has unkeyed the radio, where the receiver's flags told that it may be
  -- keyed.
  pub tune_carrier_stop_unkeys :
      (r : UsbRx W)
      → IsTracked r
      → is_zero (tune_carrier_stop usb word r).0 ≡ true
      → may_be_keyed (tune_carrier_stop usb word r).1.trace ≡ false
  unfolding tune_carrier_stop carrier_stop has_transmission is_keying
  tune_carrier_stop_unkeys r t h =
      let o = stop_opened r h in
      let plan = cleanup_plan (tx_partial_state r) in
      let r' = (cleaned usb word r.transmit_prepared plan r).2 in
      elim (Bool-cases (is_keying r)) [
        | inl e ↦ ground (
          arith,
          forget-trace r',
          cleaned_unkeys usb word r.transmit_prepared plan r (plan_unkey r ∙ e),
        )
        | inr e ↦ elim (Bool-cases (may_be_keyed r.trace)) [
          | inl k ↦ absurd (ground (arith, t.tracked k))
          | inr k ↦ ground (
            arith,
            forget-trace r',
            cleaned_keyed usb word r.transmit_prepared plan r (plan_unkey r ∙ e),
          )
        ]
      ]
