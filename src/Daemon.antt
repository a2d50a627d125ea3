-- ===== src/Daemon.antt =====
-- The callbacks by which the controller of src/tx_control.c reaches the receiver of src/usb_rx.c:
-- `daemon_tx_owner_start` and `daemon_tx_owner_stop` of src/flex1500d.c. The context's pointers to
-- the settings, the Tune control, the station and the network session are the values there.
pub mod Owner
pub mod Permit
pub mod Stop
pub mod Failure
pub mod Tests
use mathlib.Core.Option.{Option, some, none}
use flex1500d.Base.{
  ℕ, ◌+◌, Bool, true, false, List, [], ◌∷◌, ◌&&◌, ◌||◌, not, if◌then◌else◌, ltb, ◌==◌,
}
use flex1500d.Base.Ints.{ℤ, is_zero, minus_one}
use flex1500d.Base.Words.{add64}
use flex1500d.TxControl.{TxOwner}
use flex1500d.TuneControl
use flex1500d.TuneControl.{TuneControl, TxDiagnostics}
use flex1500d.NetworkTx.{NetworkTx, NetworkTxMode, NetworkTxSource, audio, iq}
use flex1500d.StationOwner.{StationOwner}
use flex1500d.Protocol.Bands.{
  tune_frequency_allowed, am_frequency_allowed, physical_mic_frequency_allowed,
  network_iq_frequency_allowed, default_ssb_upper_sideband,
}
use flex1500d.UsbRx.{UsbRx, Libusb}
use flex1500d.UsbRx.Transmit.{AudioSetup, tune_carrier_start, tune_carrier_stop, audio_tx_start}
use flex1500d.UsbRx.Graceful.{microphone_tx_stop_graceful}

-- `flex1500_tx_mode`
pub data TxMode : Type 0 where
  usb lsb am : TxMode

-- The words of `api->rx_mode`, where those that do not transmit are one.
pub data RxMode : Type 0 where
  usb lsb am other : RxMode

abbrev pub am_if_hz : ℕ
am_if_hz = 11025

abbrev pub graceful_drain_ms : ℕ
graceful_drain_ms = 1000

-- The settings of `flex1500_api_controller` that transmission reads.
pub record Settings : Type 0 where
  pub rx_mode : RxMode
  pub tx_drive_percent : ℕ
  pub tx_microphone_gain_db : ℕ
  pub tx_compressor_enabled : Bool

-- The integer counters of `flex1500_tx_audio_stats` that a stop reports.
pub record TxAudioStats : Type 0 where
  pub underrun_frames : ℕ
  pub clipped_frames : ℕ
  pub limited_frames : ℕ
  pub dropped_microphone_frames : ℕ
  pub peak_queued_frames : ℕ
  pub stop_requested_frames : ℕ
  pub graceful_drained_frames : ℕ
  pub graceful_discarded_frames : ℕ
  pub graceful_drain_ms : ℕ

-- What src/tx_audio_stream.c answers: whether it takes a mode with a drive and a gain in decibels,
-- whether it takes a prebuffer, whether raw I/Q is to be translated, and its counters.
pub record AudioStream (W : Type 0) : Type 0 where
  pub accepts : TxMode → ℕ → ℕ → Bool
  pub takes : Bool → List ℕ → Bool
  pub should_translate : List ℕ → Bool
  pub stats : UsbRx W → TxAudioStats

pub record DaemonTx (W : Type 0) : Type 0 where
  pub receiver : UsbRx W
  pub api : Settings
  pub station : StationOwner
  pub tune_control : TuneControl
  pub network_tx : NetworkTx
  pub network_prebuffer : List ℕ
  pub frequency_hz : ℕ
  pub mode : TxMode
  pub drive_percent : ℕ
  pub microphone_gain_db : ℕ
  pub compressor_enabled : Bool

unfoldable pub sideband : Bool → TxMode
sideband upper = if upper then TxMode.usb else TxMode.lsb

abbrev pub spoken_mode : RxMode → Option TxMode
spoken_mode RxMode.usb = some TxMode.usb
spoken_mode RxMode.lsb = some TxMode.lsb
spoken_mode RxMode.am = some TxMode.am
spoken_mode RxMode.other = none

abbrev pub is_upper : TxMode → Bool
is_upper TxMode.usb = true
is_upper _ = false

abbrev pub is_am : TxMode → Bool
is_am TxMode.am = true
is_am _ = false

unfoldable pub mode_allowed : TxMode → ℕ → Bool
mode_allowed mode frequency_hz =
    if is_am mode
    then am_frequency_allowed frequency_hz
    else physical_mic_frequency_allowed frequency_hz (is_upper mode)

-- `none` where it returns false.
unfoldable pub resolve_physical_tx_mode : Settings → StationOwner → ℕ → Option TxMode
resolve_physical_tx_mode api station frequency_hz =
    if station.held && not station.mode_aware
    then elim (default_ssb_upper_sideband frequency_hz) [
      | none ↦ none
      | some upper ↦ some (sideband upper)
    ]
    else elim (spoken_mode api.rx_mode) [
      | none ↦ none
      | some mode ↦ if mode_allowed mode frequency_hz then some mode else none
    ]

abbrev pub network_mode : NetworkTxMode → TxMode
network_mode NetworkTxMode.lsb = TxMode.lsb
network_mode NetworkTxMode.am = TxMode.am
network_mode _ = TxMode.usb

abbrev pub is_empty : List ℕ → Bool
is_empty [] = true
is_empty (byte ∷ rest) = false

abbrev pub is_iq : NetworkTxSource → Bool
is_iq iq = true
is_iq audio = false

abbrev pub count_start : {W : Type 0} → DaemonTx W → DaemonTx W
count_start d = record d {
  tune_control = record d.tune_control {
    diagnostics = record d.tune_control.diagnostics {
      starts = add64 d.tune_control.diagnostics.starts 1;
    };
  };
}

unfoldable pub network_allowed : NetworkTx → ℕ → Bool
network_allowed net frequency_hz =
    if is_iq net.profile.source
    then network_iq_frequency_allowed frequency_hz
    else mode_allowed (network_mode net.profile.mode) frequency_hz
