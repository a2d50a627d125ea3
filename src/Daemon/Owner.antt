-- ===== src/Daemon/Owner.antt =====
-- The two callbacks of src/flex1500d.c.
use mathlib.Core.Option.{some, none}
use flex1500d.Base.{ℕ, Bool, true, false, List, [], ◌&&◌, ◌||◌, not, if◌then◌else◌, ltb}
use flex1500d.Base.Ints.{ℤ, is_zero, minus_one}
use flex1500d.Base.Words.{add64}
use flex1500d.TxControl.{TxOwner}
use flex1500d.TuneControl
use flex1500d.TuneControl.{TuneControl, TxDiagnostics}
use flex1500d.Protocol.Bands.{tune_frequency_allowed}
use flex1500d.UsbRx.{UsbRx, Libusb}
use flex1500d.UsbRx.Transmit.{tune_carrier_start, tune_carrier_stop, audio_tx_start}
use flex1500d.UsbRx.Graceful.{microphone_tx_stop_graceful}
use flex1500d.Daemon.{
  TxMode, am_if_hz, graceful_drain_ms, TxAudioStats, AudioStream, DaemonTx, is_am,
  resolve_physical_tx_mode, network_mode, network_allowed, is_empty, is_iq, count_start,
}

module _ {W : Type 0} (usb_calls : Libusb W) (word : ℕ → ℕ) (stream : AudioStream W) where
  -- `flex1500_usb_rx_network_tx_start` and `_microphone_tx_start`
  unfoldable pub network_tx_start : TxMode → ℕ → Bool → Bool → List ℕ → UsbRx W → ℤ × UsbRx W
  network_tx_start mode drive_percent raw_iq translate prebuffer =
      audio_tx_start usb_calls word
        (record {
          accepted = stream.accepts mode drive_percent 0;
          prebuffer_given = not (is_empty prebuffer);
          prebuffer_accepted = stream.takes raw_iq prebuffer;
        })
        false (if is_am mode || translate then am_if_hz else 0)

  unfoldable pub microphone_tx_start : TxMode → ℕ → ℕ → UsbRx W → ℤ × UsbRx W
  microphone_tx_start mode drive_percent gain_db =
      audio_tx_start usb_calls word
        (record {
          accepted = stream.accepts mode drive_percent gain_db;
          prebuffer_given = false;
          prebuffer_accepted = false;
        })
        true (if is_am mode then am_if_hz else 0)

  unfoldable pub start_tune_owner : DaemonTx W → ℤ × DaemonTx W
  start_tune_owner d =
      let d' = record d { frequency_hz = d.receiver.frequency_hz } in
      let (result, receiver) = tune_carrier_start usb_calls word d.receiver in
      if not d.receiver.frequency_known
      then (minus_one, d)
      else if not (tune_frequency_allowed d.receiver.frequency_hz)
      then (minus_one, d')
      else (result, record d' { receiver = receiver })

  unfoldable pub start_network_owner : DaemonTx W → ℤ × DaemonTx W
  start_network_owner d =
      let d' = record d { frequency_hz = d.receiver.frequency_hz } in
      let raw_iq = is_iq d.network_tx.profile.source in
      let (result, receiver) =
        network_tx_start (network_mode d.network_tx.profile.mode) d.network_tx.profile.drive_percent
          raw_iq (raw_iq && stream.should_translate d.network_prebuffer) d.network_prebuffer
          d.receiver in
      if not (network_allowed d.network_tx d.receiver.frequency_hz)
      then (minus_one, d')
      else if is_zero result
      then (result, count_start (record d' { receiver = receiver; network_prebuffer = [] }))
      else (result, record d' { receiver = receiver })

  -- The profile is frozen before the first command.
  unfoldable pub start_microphone_owner : TxMode → DaemonTx W → ℤ × DaemonTx W
  start_microphone_owner mode d =
      let d' = record d {
        mode = mode;
        drive_percent = d.api.tx_drive_percent;
        microphone_gain_db = d.api.tx_microphone_gain_db;
        compressor_enabled = d.api.tx_compressor_enabled;
      } in
      let (result, receiver) =
        microphone_tx_start mode d'.drive_percent d'.microphone_gain_db d'.receiver in
      if is_zero result
      then (result, count_start (record d' { receiver = receiver }))
      else (result, record d' { receiver = receiver })

  unfoldable pub start_physical_owner : DaemonTx W → ℤ × DaemonTx W
  start_physical_owner d =
      let d' = record d { frequency_hz = d.receiver.frequency_hz } in
      if not d.receiver.frequency_known
      then (minus_one, d)
      else elim (resolve_physical_tx_mode d.api d.station d.receiver.frequency_hz) [
        | none ↦ (minus_one, d')
        | some mode ↦ start_microphone_owner mode d'
      ]

  unfoldable pub daemon_tx_owner_start : DaemonTx W → TxOwner → ℤ × DaemonTx W
  daemon_tx_owner_start d TxOwner.tune = start_tune_owner d
  daemon_tx_owner_start d TxOwner.http =
      if d.network_tx.reserved && d.receiver.frequency_known
      then start_network_owner d
      else (minus_one, d)
  daemon_tx_owner_start d TxOwner.physical_mic = start_physical_owner d
  daemon_tx_owner_start d _ = (minus_one, d)

  -- What a stop adds to the Tune control's diagnostics.
  unfoldable pub record_stop : TxAudioStats → TuneControl → TuneControl
  record_stop stats c =
      let counted = record c {
        diagnostics = record c.diagnostics { stops = add64 c.diagnostics.stops 1 };
      } in
      TuneControl.record_graceful_drain
        (TuneControl.record_audio_quality
          (TuneControl.record_underrun counted stats.underrun_frames) stats.clipped_frames
          stats.limited_frames stats.dropped_microphone_frames)
        (if ltb stats.peak_queued_frames stats.stop_requested_frames
          then stats.stop_requested_frames
          else stats.peak_queued_frames)
        stats.stop_requested_frames stats.graceful_drained_frames stats.graceful_discarded_frames
        stats.graceful_drain_ms

  unfoldable pub stop_audio_owner : DaemonTx W → Bool → ℤ × DaemonTx W
  stop_audio_owner d graceful =
      let (result, receiver) =
        if graceful
        then microphone_tx_stop_graceful usb_calls word graceful_drain_ms d.receiver
        else tune_carrier_stop usb_calls word d.receiver in
      (
        result,
        record d {
          receiver = receiver;
          tune_control = record_stop (stream.stats receiver) d.tune_control;
        },
      )

  unfoldable pub daemon_tx_owner_stop : DaemonTx W → TxOwner → Bool → ℤ × DaemonTx W
  daemon_tx_owner_stop d TxOwner.tune graceful =
      let (result, receiver) = tune_carrier_stop usb_calls word d.receiver in
      (result, record d { receiver = receiver })
  daemon_tx_owner_stop d TxOwner.physical_mic graceful = stop_audio_owner d graceful
  daemon_tx_owner_stop d TxOwner.http graceful = stop_audio_owner d graceful
  daemon_tx_owner_stop d _ graceful = (minus_one, d)
