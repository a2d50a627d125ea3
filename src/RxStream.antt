-- ===== src/RxStream.antt =====
-- The receive side of src/usb_rx.c, with the sample conversion of src/iq.c: the completions of the
-- endpoint-0x82 and endpoint-0x83 transfers, and the counters they keep. The fields of the receiver
-- that these functions use are here; UsbRx has those of the transmit side. libusb's submission and
-- the monotonic clock are the parameter `Bus`, floating point is `Floats` of TxAudio.
pub mod Process
pub mod Complete
pub mod Running
pub mod Classify
pub mod Bytes
pub mod Received
pub mod Slots
pub mod Halt
pub mod Health
mod Tests
use flex1500d.Base.{ℕ, Bool, List}
use flex1500d.Base.Ints.{ℤ}
use flex1500d.IqRing.{IqRing}
use flex1500d.Protocol.{PhysicalInputs}
use flex1500d.TxAudio.{Floats, Iq, TxAudioStream, zero_iq}

-- RX_TRANSFER_COUNT, RX_PACKETS_PER_TRANSFER, FLEX1500_SAMPLE_PACKET_SIZE, RX_FRAMES_PER_PACKET.
abbrev pub transfer_count : ℕ
transfer_count = 8

abbrev pub packets_per_transfer : ℕ
packets_per_transfer = 64

abbrev pub packet_size : ℕ
packet_size = 192

abbrev pub frames_per_packet : ℕ
frames_per_packet = 48

-- `enum libusb_transfer_status`
pub data TransferStatus : Type 0 where
  completed error timed_out cancelled stall no_device overflow : TransferStatus

-- An isochronous packet with the bytes that arrived.
pub record Packet : Type 0 where
  pub status : TransferStatus
  pub payload : List ℕ

-- The clock in milliseconds, and the submission of a transfer.
pub record Bus (W : Type 0) : Type 0 where
  pub monotonic_ms : W → ℕ × W
  pub submit : W → ℤ × W

-- The five counters of `classify_transfer_status`, which there are for transfers and for packets.
pub record Classes : Type 0 where
  pub timeouts : ℕ
  pub stalls : ℕ
  pub no_device : ℕ
  pub overflows : ℕ
  pub other_errors : ℕ

-- `flex1500_usb_rx_counters`, less the two that the radio commands keep.
pub record RxCounters : Type 0 where
  pub usb_packets : ℕ
  pub usb_packet_errors : ℕ
  pub bytes : ℕ
  pub transfer_resubmits : ℕ
  pub transfer_submit_errors : ℕ
  pub transfer_status_errors : ℕ
  pub transfer_classes : Classes
  pub packet_status_errors : ℕ
  pub packet_classes : Classes
  pub short_packets : ℕ
  pub zero_length_packets : ℕ
  pub oversized_packets : ℕ
  pub missing_bytes : ℕ
  pub trailing_bytes : ℕ
  pub error_events : ℕ
  pub status_packets : ℕ
  pub status_changes : ℕ
  pub status_errors : ℕ
  pub first_error_ms : ℕ
  pub last_error_ms : ℕ
  pub first_sentinel_frame : ℕ
  pub last_sentinel_frame : ℕ
  pub first_sentinel_ms : ℕ
  pub last_sentinel_ms : ℕ

-- `flex1500_iq_stats`
pub record IqStats (D : Type 0) : Type 0 where
  pub frames : ℕ
  pub sentinel_frames : ℕ
  pub min_i : ℤ
  pub max_i : ℤ
  pub min_q : ℤ
  pub max_q : ℤ
  pub mean_i : D
  pub mean_q : D
  pub have_samples : Bool

-- `flex1500_dc_blocker`
pub record DcBlocker (F : Type 0) : Type 0 where
  pub estimate_i : F
  pub estimate_q : F
  pub alpha : F
  pub initialized : Bool

module _ {F D : Type 0} (c : Floats F D) (W : Type 0) where
  -- `submitted` has one entry for each of the receive slots.
  pub record RxReceiver : Type 0 where
    pub world : W
    pub destination : IqRing (zero_iq c)
    pub submitted : List Bool
    pub status_submitted : Bool
    pub physical_inputs_known : Bool
    pub physical_inputs : PhysicalInputs
    pub iq_stats : IqStats D
    pub dc_blocker : DcBlocker F
    pub counters : RxCounters
    pub active_transfers : ℕ
    pub running : Bool
    pub stopping : Bool
    pub microphone_streaming : Bool
    pub microphone_capture_enabled : Bool
    pub tx_accepting_audio : Bool
    pub microphone_stream : TxAudioStream F D
    pub started_ms : ℕ
    pub sentinel_seen : Bool
    pub consecutive_transfer_failures : ℕ
