-- ===== src/System/Tests.antt =====
-- A request that starts Tune on the whole daemon, and the cause of its keying.
use flex1500d.Base.{List, ◌∷◌, not, ◌||◌, ◌++◌, ℕ, ◌≡◌, ◌≢◌, ◌⊎◌, refl, true, false, []}
use flex1500d.Base.Ints.{ℤ, pos}
use flex1500d.IqRing
use flex1500d.TxControl
use flex1500d.TxControl.{TxControl, TxControlResult, TxOwner, TxState, owner_eq}
use flex1500d.TuneControl
use flex1500d.NetworkTx
use flex1500d.NetworkTx.{min_prebuffer_frames, valid_profile}
use flex1500d.StationOwner
use flex1500d.Protocol.Bands.{
  tune_frequency_allowed, physical_mic_frequency_allowed, in_allocations,
}
use flex1500d.UsbRx.Keyed.{may_be_keyed, sets_tr}
use flex1500d.UsbRx.Tests.{bus, word_of, ready}
use flex1500d.UsbRx.Transmit.{tune_carrier_start, tune_carrier_stop, is_keying}
use flex1500d.TxLifecycle.{execute_cleanup, attempt_all, attempt, cleanup_plan}
use flex1500d.Protocol.{store_be32}
use flex1500d.Protocol.Fields.{word_at}
use flex1500d.Protocol.Bands.{pa_filter_for_frequency, filter_for_frequency, first_filter}
use flex1500d.Protocol.Builders.{
  usb_tune_frequency_to_tuning_word, rx_frequency_to_tuning_word, build_rx_tune_request,
  build_pa_filter_request, build_amp_tx1_request, build_transition_mute_request,
  build_tuning_word_request, build_tr_request, blank,
}
use flex1500d.UsbRx.{issue, send_rx_command}
use flex1500d.UsbRx.Stream.{
  start_tune_stream, open_slots, release_tune_stream, service_usb_for, serve_rounds, drain, deliver,
  tune_complete, resubmit, tx_stream_present,
}
use flex1500d.UsbRx.Transmit.{
  tune_sequence, start_stream, key_up, go_on_air, or_stop, is_ready, ◌>>◌, carrier_stop, forget,
  has_transmission, tx_partial_state, partial_bits, cleanup_action, cleanup_filter,
  restore_frequency, restore_request, tune_carrier_start, tune_carrier_stop, is_keying,
}
use flex1500d.Station.{Station, start_up}
use flex1500d.Station.Events.{apply}
use flex1500d.Daemon.{DaemonTx}
use flex1500d.Daemon.Owner.{start_tune_owner, daemon_tx_owner_start}
use flex1500d.Requests.{after, first, is_digit}
use flex1500d.Api
use flex1500d.Api.{issue_lease, ApiController}
use flex1500d.Api.Text
use flex1500d.Api.Text.{codes}
use flex1500d.Api.Handlers
use flex1500d.Api.Receive
use flex1500d.Api.Dispatch
use flex1500d.Api.Receive.{dispatch}
use flex1500d.Api.Tests.{no_scan, on_20m, line}
use flex1500d.Daemon.Tests.{stream, context, begin, finish}
use flex1500d.System.{serve_request}
use flex1500d.System.Rtl.{RtlClient, receive_bytes, receive_bytes_refused}
use flex1500d.System.Whole.{Reach, started, next, requested, request_keying_cause}

abbrev no_gain : List ℕ → ℤ
no_gain gain = pos 0

abbrev settings : ApiController
settings = record (Api.init true true false) {
  tune_control = true;
  request_now_ms = 5000;
  next_tune_lease = 7;
}

abbrev start_request : List ℕ
start_request = line (codes "PUT /v1/radio/tune/start HTTP/1.1") ++ Text.line_end

abbrev before_request : Station (DaemonTx ℕ)
before_request = start_up true (context (ready 100)) begin finish

abbrev tuned_station : Station (DaemonTx ℕ)
tuned_station =
    (serve_request bus word_of no_gain no_scan on_20m settings start_request
      before_request).1.station

tuned_station-Reach : Reach bus word_of stream no_gain begin true tuned_station
unfolding is_keying
tuned_station-Reach =
    next (started (context (ready 100)) refl) (requested no_scan on_20m settings start_request)

tuned_keying : is_keying tuned_station.tx.callback_context.receiver ≡ true
unfolding tune_carrier_start tune_sequence start_stream key_up go_on_air or_stop is_ready ◌>>◌
    tune_carrier_stop carrier_stop forget has_transmission is_keying tx_partial_state partial_bits
    cleanup_action cleanup_filter restore_frequency restore_request tx_stream_present
    start_tune_stream open_slots release_tune_stream service_usb_for serve_rounds drain deliver
    tune_complete resubmit issue send_rx_command may_be_keyed sets_tr word_at execute_cleanup
    attempt_all attempt cleanup_plan IqRing.clear pa_filter_for_frequency filter_for_frequency
    first_filter usb_tune_frequency_to_tuning_word rx_frequency_to_tuning_word build_rx_tune_request
    build_pa_filter_request build_amp_tx1_request build_transition_mute_request
    build_tuning_word_request build_tr_request blank store_be32 apply start_up TuneControl.start
    TuneControl.start_carrier TuneControl.init TxControl.init TxControl.arm_physical_ptt
    TxControl.request TxControl.key TxControl.call_start TxControl.call_stop TxControl.valid_owner
    daemon_tx_owner_start start_tune_owner tune_frequency_allowed physical_mic_frequency_allowed
    in_allocations Handlers.station_request_authorized Api.init StationOwner.matches
    Text.control_lease Text.request_header Text.header_in Text.line_starts Text.header_value
    Text.skip_blank Text.begins Text.find Text.after_caseless Text.strtoull Text.signed
    Text.unsigned Text.digits Text.skip_space after first is_digit dispatch Receive.route
    Dispatch.owner_path Dispatch.station_controlled Text.request_is Dispatch.tune_request
    Dispatch.tune_start Dispatch.tune_status issue_lease NetworkTx.init serve_request
    Receive.receive_request
tuned_keying = refl

request_keying_cause_example :
    ((tuned_station.tx.owner ≡ TxOwner.tune)
      × (tuned_station.tune.active ≡ true)
      × (tuned_station.tune.lease ≢ 0))
    ⊎ ((tuned_station.tx.owner ≡ TxOwner.http)
        × (tuned_station.net.keyed ≡ true)
        × (tuned_station.net.reserved ≡ true)
        × (tuned_station.net.lease ≢ 0)
        × (valid_profile tuned_station.net.profile ≡ true)
        × (tuned_station.net.stream_connected ≡ true)
        × (tuned_station.net.buffered_frames ≡ min_prebuffer_frames))
    ⊎ ((tuned_station.tx.owner ≡ TxOwner.physical_mic)
        × (tuned_station.tx.physical_ptt_armed ≡ true)
        × (tuned_station.tx.physical_ptt_pressed ≡ true))
    ⊎ ((tuned_station.tx.owner ≡ TxOwner.none)
        × (tuned_station.tx.state ≡ TxState.faulted)
        × (tuned_station.tx.cleanup_failed ≡ true))
request_keying_cause_example =
    request_keying_cause bus word_of stream no_gain begin true tuned_station tuned_station-Reach
      tuned_keying

abbrev held_station : Station (DaemonTx ℕ)
held_station = record before_request {
  station = record { held = true; mode_aware = true; lease = 7; renewed_ms = 4000 };
}

held_station-refuses :
    (not (owner_eq held_station.tx.owner TxOwner.none) || held_station.station.held) ≡ true
unfolding start_up TuneControl.init NetworkTx.init TxControl.init TxControl.arm_physical_ptt
held_station-refuses = refl

abbrev new_client : RtlClient
new_client = record { parser = record { pending = [] }; output_rate = 48000 }

-- A command for 14 MHz, and one for another rate.
receive_bytes_refused_example :
    (receive_bytes bus word_of no_gain true
      (1 ∷ 0 ∷ 213 ∷ 159 ∷ 128 ∷ 2 ∷ 0 ∷ 3 ∷ 169 ∷ 128 ∷ [])
      (new_client, held_station)).1
    ≡ held_station
receive_bytes_refused_example =
    receive_bytes_refused bus word_of no_gain true
      (1 ∷ 0 ∷ 213 ∷ 159 ∷ 128 ∷ 2 ∷ 0 ∷ 3 ∷ 169 ∷ 128 ∷ []) new_client held_station
      held_station-refuses
