-- ===== src/UsbRx/Transmit.antt =====
-- Starting, stopping and preparing transmission in src/usb_rx.c. A chain of steps that ends in
-- `goto fail` is a `do` block of steps that succeed or not; what they changed stays changed.
use mathlib.Core.Option.{Option, some, none}
use flex1500d.Base.{ℕ, Bool, true, false, List, ◌&&◌, ◌||◌, not, if◌then◌else◌}
use flex1500d.Base.Ints.{ℤ, is_zero}
use flex1500d.IqRing
use flex1500d.Publisher.{zero_sample}
use flex1500d.TxLifecycle.{
  TxCleanupAction, transition_mute, unkey, restore_rx_frequency, transition_unmute, stop_stream,
  reset_pa_filter, disable_amplifier, action_bit, has, or_if, pa_selected, stream_started,
  transition_attempted, frequency_attempted, key_attempted, cleanup_plan, execute_cleanup,
}
use flex1500d.TxLifecycle
use flex1500d.Protocol.Builders.{
  build_pa_filter_request, build_amp_tx1_request, build_transition_mute_request,
  build_tuning_word_request, build_tr_request, build_rx_tune_request,
  usb_tune_frequency_to_tuning_word,
}
use flex1500d.Protocol.Bands.{pa_filter_for_frequency}
use flex1500d.UsbRx.{
  UsbRx, Libusb, TxFaultStage, after_stream, after_key, success, error_io, error_invalid_param,
  issue,
}
use flex1500d.UsbRx.Stream.{
  tx_stream_present, service_usb_for, release_tune_stream, start_tune_stream,
}

abbrev pub tune_transition_ms : ℕ
tune_transition_ms = 200

abbrev pub tune_pre_roll_ms : ℕ
tune_pre_roll_ms = 250

abbrev pub tune_tone_hz : ℕ
tune_tone_hz = 600

unfoldable pub partial_bits : (pa amp stream transition frequency key : Bool) → ℕ
partial_bits pa amp stream transition frequency key = or_if key key_attempted (
    or_if frequency frequency_attempted (
      or_if transition transition_attempted (
        or_if stream stream_started
          (or_if amp TxLifecycle.amp_enable_attempted (or_if pa pa_selected 0)))))

abbrev pub Step : Type 0 → Type 0
Step W = UsbRx W → Bool × UsbRx W

infixl 5 ◌>>◌
unfoldable pub ◌>>◌ : {W : Type 0} → Step W → Step W → Step W
◌>>◌ m k r = let (done, r') = m r in if done then k r' else (false, r')

-- `if (f(...) != 0) goto fail;`
abbrev pub checked : {W : Type 0} → (UsbRx W → ℤ × UsbRx W) → Step W
checked f r = let (result, r') = f r in (is_zero result, r')

abbrev pub update : {W : Type 0} → (UsbRx W → UsbRx W) → Step W
update f r = (true, f r)

abbrev pub is_stage : TxFaultStage → TxFaultStage → Bool
is_stage after_stream after_stream = true
is_stage after_key after_key = true
is_stage _ _ = false

-- `if (receiver->tx_fault_stage == stage) goto fail;`
abbrev pub unless_fault : {W : Type 0} → TxFaultStage → Step W
unless_fault stage r = (not (is_stage stage r.tx_fault_stage), r)

unfoldable pub is_keying : {W : Type 0} → UsbRx W → Bool
is_keying r = r.tune_key_attempted || r.tune_keyed || r.tune_active

unfoldable pub tx_partial_state : {W : Type 0} → UsbRx W → ℕ
tx_partial_state r =
    partial_bits r.pa_filter_known (r.amp_enable_attempted || r.transmit_prepared)
      (tx_stream_present r) r.tune_transition_attempted r.tune_frequency_attempted (is_keying r)

-- The test at the head of `flex1500_usb_rx_tune_carrier_stop`.
unfoldable pub has_transmission : {W : Type 0} → UsbRx W → Bool
has_transmission r =
    r.tune_prepared
    || r.tune_active
    || r.tune_keyed
    || r.tune_key_attempted
    || tx_stream_present r
    || r.tune_transition_attempted
    || r.tune_frequency_attempted

unfoldable pub is_ready : {W : Type 0} → UsbRx W → Bool
is_ready r = r.running && r.opened && r.transmit_prepared && r.frequency_known && not r.tune_active

-- The answers of src/tx_audio_stream.c to the set-up of an audio transmission.
pub record AudioSetup : Type 0 where
  pub accepted : Bool
  pub prebuffer_given : Bool
  pub prebuffer_accepted : Bool

module _ {W : Type 0} (usb : Libusb W) (word : ℕ → ℕ) where
  -- `preserve` is `preserve_pa_preparation`.
  unfoldable pub cleanup_filter : Bool → UsbRx W → ℕ
  cleanup_filter preserve r = elim (pa_filter_for_frequency r.frequency_hz) [
    | none ↦ 0
    | some filter ↦ if preserve && r.frequency_known then filter else 0
  ]

  unfoldable pub restore_request : ℕ → ℕ → Option (List ℕ)
  restore_request frequency_hz index = elim (build_rx_tune_request word index frequency_hz) [
    | none ↦ none
    | some (packet, w) ↦ some packet
  ]

  unfoldable pub restore_frequency : UsbRx W → ℤ × UsbRx W
  restore_frequency r =
      let (result, r') = issue usb (restore_request r.frequency_hz) r in
      if not r.frequency_known
      then (success, r)
      else if is_zero result && r'.tune_streaming && r'.running
      then service_usb_for usb tune_transition_ms r'
      else (result, r')

  unfoldable pub cleanup_action : Bool → UsbRx W → TxCleanupAction → ℤ × UsbRx W
  cleanup_action preserve r transition_mute =
      issue usb (λ index. build_transition_mute_request index true) r
  cleanup_action preserve r unkey = issue usb (λ index. build_tr_request index false) r
  cleanup_action preserve r restore_rx_frequency = restore_frequency r
  cleanup_action preserve r transition_unmute =
      issue usb (λ index. build_transition_mute_request index false) r
  cleanup_action preserve r reset_pa_filter =
      let (result, r') =
        issue usb (λ index. build_pa_filter_request index (cleanup_filter preserve r)) r in
      (result, record r' { pa_filter = cleanup_filter preserve r; pa_filter_known = preserve })
  cleanup_action preserve r disable_amplifier =
      issue usb (λ index. build_amp_tx1_request index false) r
  cleanup_action preserve r stop_stream = (success, release_tune_stream usb r)

  -- What follows the cleanup in a stop.
  unfoldable pub forget : UsbRx W → UsbRx W
  forget r =
      let r' = record r {
        tune_keyed = false;
        tune_key_attempted = false;
        tune_active = false;
        tune_prepared = false;
        tune_transition_attempted = false;
        tune_frequency_attempted = false;
      } in
      let r'' = if tx_stream_present r' then release_tune_stream usb r' else r' in
      record r'' { destination = IqRing.clear zero_sample r''.destination }

  -- A stop of an open receiver that transmits.
  unfoldable pub carrier_stop : UsbRx W → ℤ × UsbRx W
  carrier_stop r =
      let (first_error, attempted, r') =
        execute_cleanup (cleanup_plan (tx_partial_state r))
          (some (cleanup_action r.transmit_prepared)) r in
      (first_error, forget r')

  unfoldable pub tune_carrier_stop : UsbRx W → ℤ × UsbRx W
  tune_carrier_stop r =
      let stopped = carrier_stop r in
      if not r.opened
      then (error_invalid_param, r)
      else if not (has_transmission r)
      then (success, r)
      else stopped

  -- From the PA filter to the carrier's pre-roll, as both starts have it.
  unfoldable pub start_stream : Bool → ℕ → Step W
  start_stream generated_audio pa_filter = do
    update (λ r. record r { tune_prepared = true })
    checked (issue usb (λ index. build_pa_filter_request index pa_filter))
    update (λ r. record r { pa_filter = pa_filter; pa_filter_known = true })
    checked (issue usb (λ index. build_amp_tx1_request index true))
    checked (start_tune_stream usb generated_audio)
    checked (service_usb_for usb tune_pre_roll_ms)

  -- Mute, frequency and key.
  unfoldable pub key_up : ℕ → Step W
  key_up tuning_word = do
    update (λ r. record r { tune_transition_attempted = true })
    checked (issue usb (λ index. build_transition_mute_request index true))
    update (λ r. record r { tune_frequency_attempted = true })
    checked (issue usb (λ index. build_tuning_word_request index tuning_word))
    update (λ r. record r { tune_key_attempted = true })
    checked (issue usb (λ index. build_tr_request index true))
    update (λ r. record r { tune_keyed = true })

  unfoldable pub go_on_air : Step W
  go_on_air = do
    checked (service_usb_for usb tune_transition_ms)
    checked (issue usb (λ index. build_transition_mute_request index false))
    update (λ r. record r { tune_transition_attempted = false; tune_active = true })

  unfoldable pub tune_sequence : ℕ → ℕ → Step W
  tune_sequence pa_filter tuning_word = do
    start_stream false pa_filter
    unless_fault after_stream
    key_up tuning_word
    unless_fault after_key
    go_on_air

  unfoldable pub audio_sequence : Bool → ℕ → ℕ → Step W
  audio_sequence capture_physical pa_filter tuning_word = do
    start_stream true pa_filter
    key_up tuning_word
    update (λ r. record r { microphone_capture_enabled = capture_physical })
    go_on_air

  -- The `fail` label.
  unfoldable pub or_stop : Step W → UsbRx W → ℤ × UsbRx W
  or_stop sequence r =
      let (done, r') = sequence r in
      let (ignored, r'') = tune_carrier_stop r' in if done then (success, r') else (error_io, r'')

  unfoldable pub tune_carrier_start : UsbRx W → ℤ × UsbRx W
  tune_carrier_start r =
      if not (is_ready r)
      then (error_invalid_param, r)
      else elim (pa_filter_for_frequency r.frequency_hz) [
        | none ↦ (error_invalid_param, r)
        | some pa_filter ↦
            elim (usb_tune_frequency_to_tuning_word word r.frequency_hz tune_tone_hz) [
              | none ↦ (error_invalid_param, r)
              | some tuning_word ↦ or_stop (tune_sequence pa_filter tuning_word) r
            ]
      ]

  -- `tx_offset_hz` is the intermediate frequency of AM and of translated I/Q, or 0.
  unfoldable pub audio_tx_start : AudioSetup → Bool → ℕ → UsbRx W → ℤ × UsbRx W
  audio_tx_start setup capture_physical tx_offset_hz r =
      if not (is_ready r) || r.tune_streaming
      then (error_invalid_param, r)
      else elim (pa_filter_for_frequency r.frequency_hz) [
        | none ↦ (error_invalid_param, r)
        | some pa_filter ↦
            elim (usb_tune_frequency_to_tuning_word word r.frequency_hz tx_offset_hz) [
              | none ↦ (error_invalid_param, r)
              | some tuning_word ↦
                  if not setup.accepted || setup.prebuffer_given && not setup.prebuffer_accepted
                  then (error_invalid_param, r)
                  else or_stop (audio_sequence capture_physical pa_filter tuning_word) r
            ]
      ]
