-- ===== src/Daemon/Tests.antt =====
-- Runs of the daemon's callbacks over a bus that fails after a number of packets.
use mathlib.Core.Option.{some}
use flex1500d.Base.{ℕ, ◌≡◌, ◌≢◌, ◌⊎◌, refl, Bool, true, false, []}
use flex1500d.Base.Ints.{ℤ, is_zero}
use flex1500d.IqRing
use flex1500d.TxControl
use flex1500d.TxControl.{TxControl, TxControlResult, TxOwner, TxState}
use flex1500d.TuneControl
use flex1500d.NetworkTx
use flex1500d.NetworkTx.{min_prebuffer_frames, valid_profile}
use flex1500d.StationOwner
use flex1500d.Protocol.Bands.{
  tune_frequency_allowed, physical_mic_frequency_allowed, in_allocations,
}
use flex1500d.UsbRx.{UsbRx}
use flex1500d.UsbRx.Keyed.{may_be_keyed, sets_tr}
use flex1500d.UsbRx.Unkey.{IsTracked}
use flex1500d.UsbRx.Tests.{bus, word_of, ready, started}
use flex1500d.UsbRx.Transmit.{tune_carrier_start, tune_carrier_stop, is_keying}
use flex1500d.TxLifecycle.{execute_cleanup, attempt_all, attempt, cleanup_plan}
use flex1500d.Protocol.{store_be32}
use flex1500d.Protocol.Fields.{word_at}
use flex1500d.Protocol.Bands.{pa_filter_for_frequency, filter_for_frequency, first_filter}
use flex1500d.Protocol.Builders.{
  usb_tune_frequency_to_tuning_word, rx_frequency_to_tuning_word, build_rx_tune_request,
  build_pa_filter_request, build_amp_tx1_request, build_transition_mute_request,
  build_tuning_word_request, build_tr_request, blank,
}
use flex1500d.UsbRx.{issue, send_rx_command}
use flex1500d.UsbRx.Stream.{
  start_tune_stream, open_slots, release_tune_stream, service_usb_for, serve_rounds, drain, deliver,
  tune_complete, resubmit, tx_stream_present,
}
use flex1500d.UsbRx.Transmit.{
  tune_sequence, start_stream, key_up, go_on_air, or_stop, is_ready, ◌>>◌, carrier_stop, forget,
  has_transmission, tx_partial_state, partial_bits, cleanup_action, cleanup_filter,
  restore_frequency, restore_request, tune_carrier_start, tune_carrier_stop, is_keying,
}
use flex1500d.Station.{Station, start_up}
use flex1500d.Station.Events.{apply, tune_start}
use flex1500d.Station.OnAir.{Reach, starts, next, does}
use flex1500d.Daemon.{DaemonTx, AudioStream, TxMode, RxMode}
use flex1500d.Daemon.Owner.{start_tune_owner, daemon_tx_owner_start, daemon_tx_owner_stop}
use flex1500d.Daemon.Permit.{StartedFor, daemon_tx_owner_start_permitted}
use flex1500d.Daemon.Stop.{keying_cause, daemon_tx_owner_stop_unkeys}
use flex1500d.Daemon.Failure.{Breaks, left_by, failed_start_unreported}

abbrev pub stream : AudioStream ℕ
stream = record {
  accepts = λ mode drive gain. true;
  takes = λ raw bytes. true;
  should_translate = λ bytes. false;
  stats = λ r. record {
    underrun_frames = 0;
    clipped_frames = 0;
    limited_frames = 0;
    dropped_microphone_frames = 0;
    peak_queued_frames = 0;
    stop_requested_frames = 0;
    graceful_drained_frames = 0;
    graceful_discarded_frames = 0;
    graceful_drain_ms = 0;
  };
}

abbrev pub context : UsbRx ℕ → DaemonTx ℕ
context r = record {
  receiver = r;
  api = record {
    rx_mode = RxMode.usb;
    tx_drive_percent = 50;
    tx_microphone_gain_db = 0;
    tx_compressor_enabled = false;
  };
  station = StationOwner.init;
  tune_control = TuneControl.init true true;
  network_tx = NetworkTx.init true true;
  network_prebuffer = [];
  frequency_hz = 0;
  mode = TxMode.usb;
  drive_percent = 0;
  microphone_gain_db = 0;
  compressor_enabled = false;
}

abbrev pub begin : DaemonTx ℕ → TxOwner → ℤ × DaemonTx ℕ
begin = daemon_tx_owner_start bus word_of stream

abbrev pub finish : DaemonTx ℕ → TxOwner → Bool → ℤ × DaemonTx ℕ
finish = daemon_tx_owner_stop bus word_of stream

tune_begins : is_zero (begin (context (ready 100)) TxOwner.tune).0 ≡ true
unfolding tune_carrier_start tune_sequence start_stream key_up go_on_air or_stop is_ready ◌>>◌
    tune_carrier_stop carrier_stop forget has_transmission is_keying tx_partial_state partial_bits
    cleanup_action cleanup_filter restore_frequency restore_request tx_stream_present
    start_tune_stream open_slots release_tune_stream service_usb_for serve_rounds drain deliver
    tune_complete resubmit issue send_rx_command may_be_keyed sets_tr word_at execute_cleanup
    attempt_all attempt cleanup_plan IqRing.clear pa_filter_for_frequency filter_for_frequency
    first_filter usb_tune_frequency_to_tuning_word rx_frequency_to_tuning_word build_rx_tune_request
    build_pa_filter_request build_amp_tx1_request build_transition_mute_request
    build_tuning_word_request build_tr_request blank store_be32 daemon_tx_owner_start
    start_tune_owner tune_frequency_allowed physical_mic_frequency_allowed in_allocations
tune_begins = refl

daemon_tx_owner_start_permitted_example :
    StartedFor word_of
      (context (ready 100))
      (begin (context (ready 100)) TxOwner.tune).1
      TxOwner.tune
daemon_tx_owner_start_permitted_example =
    daemon_tx_owner_start_permitted bus word_of stream (context (ready 100)) TxOwner.tune
      tune_begins

started_IsTracked : IsTracked started
unfolding tune_carrier_start tune_sequence start_stream key_up go_on_air or_stop is_ready ◌>>◌
    tune_carrier_stop carrier_stop forget has_transmission is_keying tx_partial_state partial_bits
    cleanup_action cleanup_filter restore_frequency restore_request tx_stream_present
    start_tune_stream open_slots release_tune_stream service_usb_for serve_rounds drain deliver
    tune_complete resubmit issue send_rx_command may_be_keyed sets_tr word_at execute_cleanup
    attempt_all attempt cleanup_plan IqRing.clear pa_filter_for_frequency filter_for_frequency
    first_filter usb_tune_frequency_to_tuning_word rx_frequency_to_tuning_word build_rx_tune_request
    build_pa_filter_request build_amp_tx1_request build_transition_mute_request
    build_tuning_word_request build_tr_request blank store_be32
started_IsTracked = record { tracked = λ h. refl }

tune_ends : is_zero (finish (context started) TxOwner.tune false).0 ≡ true
unfolding tune_carrier_start tune_sequence start_stream key_up go_on_air or_stop is_ready ◌>>◌
    tune_carrier_stop carrier_stop forget has_transmission is_keying tx_partial_state partial_bits
    cleanup_action cleanup_filter restore_frequency restore_request tx_stream_present
    start_tune_stream open_slots release_tune_stream service_usb_for serve_rounds drain deliver
    tune_complete resubmit issue send_rx_command may_be_keyed sets_tr word_at execute_cleanup
    attempt_all attempt cleanup_plan IqRing.clear pa_filter_for_frequency filter_for_frequency
    first_filter usb_tune_frequency_to_tuning_word rx_frequency_to_tuning_word build_rx_tune_request
    build_pa_filter_request build_amp_tx1_request build_transition_mute_request
    build_tuning_word_request build_tr_request blank store_be32 daemon_tx_owner_stop
tune_ends = refl

daemon_tx_owner_stop_unkeys_example :
    may_be_keyed (finish (context started) TxOwner.tune false).1.receiver.trace ≡ false
daemon_tx_owner_stop_unkeys_example =
    daemon_tx_owner_stop_unkeys bus word_of stream (context started) TxOwner.tune false
      started_IsTracked tune_ends

abbrev controller : TxControl (DaemonTx ℕ)
controller =
    TxControl.arm_physical_ptt
      (TxControl.init true 180000 (context (ready 5)) (some begin) (some finish))

abbrev tuning_word : ℕ
tuning_word = word_of 14199400

key-Breaks : Breaks bus word_of stream 4 tuning_word (context (ready 5))
unfolding tune_carrier_start tune_sequence start_stream key_up go_on_air or_stop is_ready ◌>>◌
    tune_carrier_stop carrier_stop forget has_transmission is_keying tx_partial_state partial_bits
    cleanup_action cleanup_filter restore_frequency restore_request tx_stream_present
    start_tune_stream open_slots release_tune_stream service_usb_for serve_rounds drain deliver
    tune_complete resubmit issue send_rx_command may_be_keyed sets_tr word_at execute_cleanup
    attempt_all attempt cleanup_plan IqRing.clear pa_filter_for_frequency filter_for_frequency
    first_filter usb_tune_frequency_to_tuning_word rx_frequency_to_tuning_word build_rx_tune_request
    build_pa_filter_request build_amp_tx1_request build_transition_mute_request
    build_tuning_word_request build_tr_request blank store_be32 tune_frequency_allowed
    physical_mic_frequency_allowed in_allocations
key-Breaks = record {
  known = refl;
  allowed = refl;
  ready = refl;
  is_filter = refl;
  is_word = refl;
  broken = refl;
}

failed_start_unreported_example :
    ((TxControl.key controller TxOwner.tune 1000).0 ≡ TxControlResult.hardware_error)
    × ((TxControl.key controller TxOwner.tune 1000).1.cleanup_failed ≡ false)
    × ((TxControl.key controller TxOwner.tune 1000).1.callback_context.receiver
        ≡ left_by bus word_of stream 4 tuning_word controller.callback_context)
unfolding tune_carrier_start tune_sequence start_stream key_up go_on_air or_stop is_ready ◌>>◌
    tune_carrier_stop carrier_stop forget has_transmission is_keying tx_partial_state partial_bits
    cleanup_action cleanup_filter restore_frequency restore_request tx_stream_present
    start_tune_stream open_slots release_tune_stream service_usb_for serve_rounds drain deliver
    tune_complete resubmit issue send_rx_command may_be_keyed sets_tr word_at execute_cleanup
    attempt_all attempt cleanup_plan IqRing.clear pa_filter_for_frequency filter_for_frequency
    first_filter usb_tune_frequency_to_tuning_word rx_frequency_to_tuning_word build_rx_tune_request
    build_pa_filter_request build_amp_tx1_request build_transition_mute_request
    build_tuning_word_request build_tr_request blank store_be32 TxControl.init
    TxControl.arm_physical_ptt
failed_start_unreported_example =
    failed_start_unreported bus word_of stream controller 1000 4 tuning_word refl refl key-Breaks
      refl

-- In that run the radio may be keyed, since no SET_TR(0) was transferred.
still_keyed :
    may_be_keyed (left_by bus word_of stream 4 tuning_word (context (ready 5))).trace ≡ true
unfolding tune_carrier_start tune_sequence start_stream key_up go_on_air or_stop is_ready ◌>>◌
    tune_carrier_stop carrier_stop forget has_transmission is_keying tx_partial_state partial_bits
    cleanup_action cleanup_filter restore_frequency restore_request tx_stream_present
    start_tune_stream open_slots release_tune_stream service_usb_for serve_rounds drain deliver
    tune_complete resubmit issue send_rx_command may_be_keyed sets_tr word_at execute_cleanup
    attempt_all attempt cleanup_plan IqRing.clear pa_filter_for_frequency filter_for_frequency
    first_filter usb_tune_frequency_to_tuning_word rx_frequency_to_tuning_word build_rx_tune_request
    build_pa_filter_request build_amp_tx1_request build_transition_mute_request
    build_tuning_word_request build_tr_request blank store_be32
still_keyed = refl

abbrev on_station : Station (DaemonTx ℕ)
on_station = apply (start_up true (context (ready 100)) begin finish) (tune_start 1000 9)

on_station-Reach : Reach (λ d. is_keying d.receiver) begin finish true on_station
unfolding is_keying
on_station-Reach = next (starts (context (ready 100)) refl) (does (tune_start 1000 9))

keying_cause_example :
    ((on_station.tx.owner ≡ TxOwner.tune)
      × (on_station.tune.active ≡ true)
      × (on_station.tune.lease ≢ 0))
    ⊎ ((on_station.tx.owner ≡ TxOwner.http)
        × (on_station.net.keyed ≡ true)
        × (on_station.net.reserved ≡ true)
        × (on_station.net.lease ≢ 0)
        × (valid_profile on_station.net.profile ≡ true)
        × (on_station.net.stream_connected ≡ true)
        × (on_station.net.buffered_frames ≡ min_prebuffer_frames))
    ⊎ ((on_station.tx.owner ≡ TxOwner.physical_mic)
        × (on_station.tx.physical_ptt_armed ≡ true)
        × (on_station.tx.physical_ptt_pressed ≡ true))
    ⊎ ((on_station.tx.owner ≡ TxOwner.none)
        × (on_station.tx.state ≡ TxState.faulted)
        × (on_station.tx.cleanup_failed ≡ true))
unfolding tune_carrier_start tune_sequence start_stream key_up go_on_air or_stop is_ready ◌>>◌
    tune_carrier_stop carrier_stop forget has_transmission is_keying tx_partial_state partial_bits
    cleanup_action cleanup_filter restore_frequency restore_request tx_stream_present
    start_tune_stream open_slots release_tune_stream service_usb_for serve_rounds drain deliver
    tune_complete resubmit issue send_rx_command may_be_keyed sets_tr word_at execute_cleanup
    attempt_all attempt cleanup_plan IqRing.clear pa_filter_for_frequency filter_for_frequency
    first_filter usb_tune_frequency_to_tuning_word rx_frequency_to_tuning_word build_rx_tune_request
    build_pa_filter_request build_amp_tx1_request build_transition_mute_request
    build_tuning_word_request build_tr_request blank store_be32 apply start_up TuneControl.start
    TuneControl.start_carrier TuneControl.init TxControl.init TxControl.arm_physical_ptt
    TxControl.request TxControl.key TxControl.call_start TxControl.call_stop TxControl.valid_owner
    daemon_tx_owner_start start_tune_owner tune_frequency_allowed physical_mic_frequency_allowed
    in_allocations
keying_cause_example = keying_cause bus word_of stream begin true on_station on_station-Reach refl
