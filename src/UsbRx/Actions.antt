-- ===== src/UsbRx/Actions.antt =====
-- Events, and the cleanup actions of src/usb_rx.c, and whether the radio may be keyed.
use mathlib.Core.Option.{some, none}
use flex1500d.Base.{ℕ, ◌≡◌, ◌≢◌, ◌⊎◌, refl, ap, Bool, true, false, List, if◌then◌else◌, arith}
use flex1500d.Base.Ints.{is_zero}
use flex1500d.TxLifecycle.{
  TxCleanupAction, transition_mute, unkey, restore_rx_frequency, transition_unmute, stop_stream,
  reset_pa_filter, disable_amplifier, action_bit, has, cleanup_plan, Cleanup, attempt,
}
use flex1500d.Protocol.Builders.{
  build_pa_filter_request, build_amp_tx1_request, build_transition_mute_request,
  build_rx_tune_request, rx_frequency_to_tuning_word,
}
use flex1500d.UsbRx.{UsbRx, Libusb, issue}
use flex1500d.UsbRx.Events.{IsBlind, service-kept, release-kept, start_tune_stream-kept}
use flex1500d.UsbRx.Stream.{start_tune_stream, service_usb_for, release_tune_stream}
use flex1500d.UsbRx.Transmit.{
  partial_bits, cleanup_action, cleanup_filter, restore_frequency, restore_request,
}
use flex1500d.UsbRx.Keyed.{
  may_be_keyed, IsOther, one-IsOther, two-IsOther, issue_keyed, issue_unkey,
}

rx_frequency_to_tuning_word_cases :
    (word : ℕ → ℕ) (f : ℕ)
    → (rx_frequency_to_tuning_word word f ≡ none)
      ⊎ (rx_frequency_to_tuning_word word f ≡ some (word f))
unfolding rx_frequency_to_tuning_word
rx_frequency_to_tuning_word_cases word f = ground arith

pub partial-unkey :
    (a b c d e f : Bool) → has (cleanup_plan (partial_bits a b c d e f)) (action_bit unkey) ≡ f
unfolding cleanup_plan partial_bits
partial-unkey a b c d e f = ground arith

pub trace_blind : (W : Type 0) → IsBlind (λ (r : UsbRx W). r.trace)
unfolding IsBlind
trace_blind W world slots active streaming running microphone capture accepting r = refl

module _ {W : Type 0} (usb : Libusb W) (word : ℕ → ℕ) where
  -- Events offer nothing to the command endpoint.
  pub service-trace : (n : ℕ) (r : UsbRx W) → (service_usb_for usb n r).1.trace ≡ r.trace
  service-trace = service-kept _ (trace_blind W) usb

  pub release-trace : (r : UsbRx W) → (release_tune_stream usb r).trace ≡ r.trace
  release-trace = release-kept _ (trace_blind W) usb

  pub start_tune_stream-trace :
      (m : Bool) (r : UsbRx W) → (start_tune_stream usb m r).1.trace ≡ r.trace
  start_tune_stream-trace = start_tune_stream-kept _ (trace_blind W) usb

  mute-IsOther :
      (b : Bool) (i : ℕ) (p : List ℕ) → build_transition_mute_request i b ≡ some p → IsOther p
  unfolding build_transition_mute_request
  mute-IsOther b i p h =
      ground
        (arith, two-IsOther i 1020 48 (if b then 0x2500 else 0x25c0) (omega arith) (omega arith))

  restore-IsOther : (f i : ℕ) (p : List ℕ) → restore_request usb word f i ≡ some p → IsOther p
  unfolding restore_request build_rx_tune_request
  restore-IsOther f i p h = ground (
    arith,
    one-IsOther i 1347 (word f) (omega arith) (omega arith),
    rx_frequency_to_tuning_word_cases word f,
  )

  pub restore-keyed :
      (r : UsbRx W) → may_be_keyed (restore_frequency usb word r).1.trace ≡ may_be_keyed r.trace
  unfolding restore_frequency
  restore-keyed r = ground (
    arith,
    issue_keyed usb (restore_request usb word r.frequency_hz) r
        (restore-IsOther r.frequency_hz r.next_command_index),
    service-trace 200 (issue usb (restore_request usb word r.frequency_hz) r).1,
  )

  pa-IsOther : (n i : ℕ) (p : List ℕ) → build_pa_filter_request i n ≡ some p → IsOther p
  unfolding build_pa_filter_request
  pa-IsOther n i p h = ground (arith, one-IsOther i 1260 n (omega arith) (omega arith))

  amp-IsOther : (b : Bool) (i : ℕ) (p : List ℕ) → build_amp_tx1_request i b ≡ some p → IsOther p
  unfolding build_amp_tx1_request
  amp-IsOther b i p h =
      ground (arith, one-IsOther i 1298 (if b then 1 else 0) (omega arith) (omega arith))

  pub mute_keyed :
      (b : Bool) (r : UsbRx W)
      → may_be_keyed (issue usb (λ index. build_transition_mute_request index b) r).1.trace
        ≡ may_be_keyed r.trace
  mute_keyed b r = issue_keyed usb _ r (mute-IsOther b r.next_command_index)

  pub pa_keyed :
      (n : ℕ) (r : UsbRx W)
      → may_be_keyed (issue usb (λ index. build_pa_filter_request index n) r).1.trace
        ≡ may_be_keyed r.trace
  pa_keyed n r = issue_keyed usb _ r (pa-IsOther n r.next_command_index)

  pub amp_keyed :
      (b : Bool) (r : UsbRx W)
      → may_be_keyed (issue usb (λ index. build_amp_tx1_request index b) r).1.trace
        ≡ may_be_keyed r.trace
  amp_keyed b r = issue_keyed usb _ r (amp-IsOther b r.next_command_index)

  -- A cleanup action that is not the unkey does not change whether the radio may be keyed.
  pub action_keyed :
      (preserve : Bool) (r : UsbRx W) (a : TxCleanupAction)
      → a ≢ unkey
      → may_be_keyed (cleanup_action usb word preserve r a).1.trace ≡ may_be_keyed r.trace
  unfolding cleanup_action
  action_keyed preserve r transition_mute h = mute_keyed true r
  action_keyed preserve r unkey h = absurd (h refl)
  action_keyed preserve r restore_rx_frequency h = restore-keyed r
  action_keyed preserve r transition_unmute h = mute_keyed false r
  action_keyed preserve r reset_pa_filter h = pa_keyed (cleanup_filter usb word preserve r) r
  action_keyed preserve r disable_amplifier h = amp_keyed false r
  action_keyed preserve r stop_stream h = ap may_be_keyed (release-trace r)

  -- So it is with its turn in the cleanup, which keeps an earlier error.
  pub attempt_keyed :
      (preserve : Bool) (plan : ℕ) (a : TxCleanupAction) (s : Cleanup (UsbRx W))
      → a ≢ unkey
      → may_be_keyed (attempt (cleanup_action usb word preserve) plan a s).context.trace
        ≡ may_be_keyed s.context.trace
  unfolding attempt
  attempt_keyed preserve plan a s h = ground (arith, action_keyed preserve s.context a h)

  pub attempt_error :
      (preserve : Bool) (plan : ℕ) (a : TxCleanupAction) (s : Cleanup (UsbRx W))
      → is_zero (attempt (cleanup_action usb word preserve) plan a s).first_error ≡ true
      → is_zero s.first_error ≡ true
  unfolding attempt
  attempt_error preserve plan a s h = ground arith

  -- The unkey's turn unkeys where it is planned and no error shows.
  pub attempt_unkey :
      (preserve : Bool) (plan : ℕ) (s : Cleanup (UsbRx W))
      → has plan (action_bit unkey) ≡ true
      → is_zero (attempt (cleanup_action usb word preserve) plan unkey s).first_error ≡ true
      → may_be_keyed (attempt (cleanup_action usb word preserve) plan unkey s).context.trace ≡ false
  unfolding attempt cleanup_action
  attempt_unkey preserve plan s p h = ground (arith, issue_unkey usb s.context)

  -- Without the flag it is not planned, and changes nothing.
  pub attempt_unplanned :
      (preserve : Bool) (plan : ℕ) (s : Cleanup (UsbRx W))
      → has plan (action_bit unkey) ≡ false
      → attempt (cleanup_action usb word preserve) plan unkey s ≡ s
  unfolding attempt
  attempt_unplanned preserve plan s p = ground arith
