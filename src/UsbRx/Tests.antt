-- ===== src/UsbRx/Tests.antt =====
-- Runs of the transmit side of src/usb_rx.c over a bus that fails after a number of packets.
use flex1500d.Base.{ℕ, zero, suc, ◌*◌, ◌%◌, ◌≡◌, refl, true, false, List, []}
use flex1500d.Base.Ints.{ℤ, pos, is_zero}
use flex1500d.Base.Lists.{replicate}
use flex1500d.IqRing
use flex1500d.IqRing.{IqRing}
use flex1500d.Publisher.{zero_sample}
use flex1500d.UsbRx.{UsbRx, Libusb, empty_slot, no_fault, error_io, success}
use flex1500d.TxLifecycle.{execute_cleanup, attempt_all, attempt, cleanup_plan}
use flex1500d.Protocol.{store_be32}
use flex1500d.Protocol.Fields.{word_at}
use flex1500d.Protocol.Bands.{
  rx_filter_for_frequency, pa_filter_for_frequency, filter_for_frequency, first_filter,
}
use flex1500d.Protocol.Builders.{
  usb_tune_frequency_to_tuning_word, rx_frequency_to_tuning_word, build_rx_tune_request,
  build_rx_filter_request, build_pa_filter_request, build_amp_tx1_request,
  build_transition_mute_request, build_tuning_word_request, build_tr_request, blank,
}
use flex1500d.UsbRx.{issue, send_rx_command}
use flex1500d.UsbRx.Stream.{
  start_tune_stream, open_slots, release_tune_stream, service_usb_for, serve_rounds, drain, deliver,
  tune_complete, resubmit, tx_stream_present,
}
use flex1500d.UsbRx.Tune.{
  tune, plan_tune, plan_rx, plan_pa, send_tune, send_rx_filter, send_pa_filter, finish_tune,
}
use flex1500d.UsbRx.Retune.{Retuned, tune_Retuned}
use flex1500d.UsbRx.Start.{start_stop_unkeys}
use flex1500d.UsbRx.Transmit.{
  tune_sequence, start_stream, key_up, go_on_air, or_stop, is_ready, ◌>>◌, carrier_stop, forget,
  has_transmission, tx_partial_state, partial_bits, cleanup_action, cleanup_filter,
  restore_frequency, restore_request, tune_carrier_start, tune_carrier_stop, is_keying,
}
use flex1500d.UsbRx.Keyed.{may_be_keyed, sets_tr}

-- The state of the bus is the number of packets that it still takes.
abbrev pub transfer : ℕ → List ℕ → ℤ × ℕ × ℕ
transfer zero packet = (error_io, 0, 0)
transfer (suc n) packet = (success, 20, n)

abbrev pub bus : Libusb ℕ
bus = record {
  interrupt_transfer = transfer;
  allocate = λ n. (true, true, n);
  submit = λ n. (success, n);
  serve = λ n ms. ([], n);
}

abbrev pub word_of : ℕ → ℕ
word_of f = f * 9 % 4294967296

abbrev pub ring : IqRing zero_sample
ring = record { samples = []; capacity = 0; read_index = 0; size = 0; dropped = 0 }

-- A prepared receiver on 14.2 MHz over a bus that takes `n` packets.
abbrev pub ready : ℕ → UsbRx ℕ
ready n = record {
  world = n;
  trace = [];
  opened = true;
  destination = ring;
  tune_slots = replicate 8 empty_slot;
  active_tune_transfers = 0;
  running = true;
  tune_streaming = false;
  tune_prepared = false;
  tune_active = false;
  tune_keyed = false;
  tune_key_attempted = false;
  tune_transition_attempted = false;
  tune_frequency_attempted = false;
  microphone_streaming = false;
  microphone_capture_enabled = false;
  tx_accepting_audio = false;
  tx_fault_stage = no_fault;
  transmit_prepared = true;
  amp_enable_attempted = true;
  pa_filter_known = true;
  pa_filter = 3;
  frequency_known = true;
  filter_known = true;
  frequency_hz = 14200000;
  rx_filter = 5;
  gain_known = false;
  gain_db = pos 0;
  next_command_index = 7;
  command_errors = 0;
  rx_tune_operations = 1;
}

abbrev pub started : UsbRx ℕ
started = (tune_carrier_start bus word_of (ready 100)).1

-- The key is the last packet that the bus takes.
abbrev pub stuck : UsbRx ℕ
stuck = (tune_carrier_start bus word_of (ready 5)).1

started_ok : is_zero (tune_carrier_start bus word_of (ready 100)).0 ≡ true
unfolding tune_carrier_start tune_sequence start_stream key_up go_on_air or_stop is_ready ◌>>◌
    tune_carrier_stop carrier_stop forget has_transmission is_keying tx_partial_state partial_bits
    cleanup_action cleanup_filter restore_frequency restore_request tx_stream_present
    start_tune_stream open_slots release_tune_stream service_usb_for serve_rounds drain deliver
    tune_complete resubmit issue send_rx_command may_be_keyed sets_tr word_at execute_cleanup
    attempt_all attempt cleanup_plan IqRing.clear pa_filter_for_frequency filter_for_frequency
    first_filter usb_tune_frequency_to_tuning_word rx_frequency_to_tuning_word build_rx_tune_request
    build_pa_filter_request build_amp_tx1_request build_transition_mute_request
    build_tuning_word_request build_tr_request blank store_be32
started_ok = refl

stopped_ok : is_zero (tune_carrier_stop bus word_of started).0 ≡ true
unfolding tune_carrier_start tune_sequence start_stream key_up go_on_air or_stop is_ready ◌>>◌
    tune_carrier_stop carrier_stop forget has_transmission is_keying tx_partial_state partial_bits
    cleanup_action cleanup_filter restore_frequency restore_request tx_stream_present
    start_tune_stream open_slots release_tune_stream service_usb_for serve_rounds drain deliver
    tune_complete resubmit issue send_rx_command may_be_keyed sets_tr word_at execute_cleanup
    attempt_all attempt cleanup_plan IqRing.clear pa_filter_for_frequency filter_for_frequency
    first_filter usb_tune_frequency_to_tuning_word rx_frequency_to_tuning_word build_rx_tune_request
    build_pa_filter_request build_amp_tx1_request build_transition_mute_request
    build_tuning_word_request build_tr_request blank store_be32
stopped_ok = refl

start_stop_unkeys_example : may_be_keyed (tune_carrier_stop bus word_of started).1.trace ≡ false
start_stop_unkeys_example = start_stop_unkeys bus word_of (ready 100) started_ok stopped_ok

stuck_keyed : may_be_keyed stuck.trace ≡ true
unfolding tune_carrier_start tune_sequence start_stream key_up go_on_air or_stop is_ready ◌>>◌
    tune_carrier_stop carrier_stop forget has_transmission is_keying tx_partial_state partial_bits
    cleanup_action cleanup_filter restore_frequency restore_request tx_stream_present
    start_tune_stream open_slots release_tune_stream service_usb_for serve_rounds drain deliver
    tune_complete resubmit issue send_rx_command may_be_keyed sets_tr word_at execute_cleanup
    attempt_all attempt cleanup_plan IqRing.clear pa_filter_for_frequency filter_for_frequency
    first_filter usb_tune_frequency_to_tuning_word rx_frequency_to_tuning_word build_rx_tune_request
    build_pa_filter_request build_amp_tx1_request build_transition_mute_request
    build_tuning_word_request build_tr_request blank store_be32
stuck_keyed = refl

tuned_ok : is_zero (tune bus word_of 7100000 (ready 3)).0 ≡ true
unfolding tune plan_tune plan_rx plan_pa send_tune send_rx_filter send_pa_filter finish_tune
    send_rx_command IqRing.clear pa_filter_for_frequency rx_filter_for_frequency
    filter_for_frequency first_filter rx_frequency_to_tuning_word build_rx_tune_request
    build_rx_filter_request build_pa_filter_request blank store_be32
tuned_ok = refl

tune_Retuned_example : Retuned word_of 7100000 (ready 3) (tune bus word_of 7100000 (ready 3)).1
tune_Retuned_example = tune_Retuned bus word_of 7100000 (ready 3) tuned_ok
