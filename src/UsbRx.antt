-- ===== src/UsbRx.antt =====
-- The transmit side and the radio commands of src/usb_rx.c, with the libusb calls as parameters.
-- Stream has the endpoint-0x01 stream, Transmit the start and stop of transmission, Prepare its preparation,
-- Tune the receive commands. `trace` is not a field of the source: it keeps, newest first, what
-- was offered to the command endpoint and whether all of it was transferred.
pub mod Stream
pub mod Transmit
pub mod Prepare
pub mod Tune
pub mod Retune
pub mod Events
pub mod Keyed
pub mod Actions
pub mod Unkey
pub mod Order
pub mod Start
pub mod Forget
pub mod Graceful
pub mod Tests
use mathlib.Core.Option.{Option, some, none}
use flex1500d.Base.{ℕ, ◌+◌, ◌%◌, Bool, true, false, List, ◌∷◌, ◌&&◌, not, if◌then◌else◌, ◌==◌}
use flex1500d.Base.Ints.{ℤ, pos, negsuc, is_zero}
use flex1500d.Base.Words.{add64}
use flex1500d.IqRing.{IqRing}
use flex1500d.Publisher.{zero_sample}
use flex1500d.Protocol.{command_packet_size}

-- LIBUSB_SUCCESS, LIBUSB_ERROR_IO, _INVALID_PARAM, _INTERRUPTED and _NO_MEM of libusb.
abbrev pub success : ℤ
success = pos 0

abbrev pub error_io : ℤ
error_io = negsuc 0

abbrev pub error_invalid_param : ℤ
error_invalid_param = negsuc 1

abbrev pub error_no_mem : ℤ
error_no_mem = negsuc 10

abbrev pub is_interrupted : ℤ → Bool
is_interrupted (pos n) = false
is_interrupted (negsuc n) = n == 9

-- The fields of `tune_slot` that tell whether it is in use.
pub record TuneSlot : Type 0 where
  pub buffer : Bool
  pub transfer : Bool
  pub submitted : Bool
  pub audio_frames : ℕ

abbrev pub empty_slot : TuneSlot
empty_slot = record { buffer = false; transfer = false; submitted = false; audio_frames = 0 }

pub data TxFaultStage : Type 0 where
  no_fault after_stream after_key : TxFaultStage

-- What a callback of libusb reports: a transfer of a slot of the transmit stream, which failed or
-- not, with the outcome of its resubmission and the frames that it took; or the loss of the
-- receive or the status listener.
pub data Completion : Type 0 where
  slot_done : (index : ℕ) → (failed resubmitted : Bool) → (frames : ℕ) → Completion
  listener_lost : Completion

-- One call of `libusb_handle_events_timeout_completed`.
pub record EventRound : Type 0 where
  pub result : ℤ
  pub completions : List Completion

-- The calls of libusb, over the state of the bus. `serve` gives the rounds of event handling that
-- fall into a duration.
pub record Libusb (W : Type 0) : Type 0 where
  pub interrupt_transfer : W → List ℕ → ℤ × ℕ × W
  pub allocate : W → Bool × Bool × W
  pub submit : W → ℤ × W
  pub serve : W → ℕ → List EventRound × W

pub record Sent : Type 0 where
  pub packet : List ℕ
  pub delivered : Bool

pub record UsbRx (W : Type 0) : Type 0 where
  pub world : W
  pub trace : List Sent
  pub opened : Bool
  pub destination : IqRing zero_sample
  pub tune_slots : List TuneSlot
  pub active_tune_transfers : ℕ
  pub running : Bool
  pub tune_streaming : Bool
  pub tune_prepared : Bool
  pub tune_active : Bool
  pub tune_keyed : Bool
  pub tune_key_attempted : Bool
  pub tune_transition_attempted : Bool
  pub tune_frequency_attempted : Bool
  pub microphone_streaming : Bool
  pub microphone_capture_enabled : Bool
  pub tx_accepting_audio : Bool
  pub tx_fault_stage : TxFaultStage
  pub transmit_prepared : Bool
  pub amp_enable_attempted : Bool
  pub pa_filter_known : Bool
  pub pa_filter : ℕ
  pub frequency_known : Bool
  pub filter_known : Bool
  pub frequency_hz : ℕ
  pub rx_filter : ℕ
  pub gain_known : Bool
  pub gain_db : ℤ
  pub next_command_index : ℕ
  pub command_errors : ℕ
  pub rx_tune_operations : ℕ

-- All of a packet was transferred.
abbrev pub whole : ℤ → ℕ → Bool
whole result transferred = is_zero result && transferred == command_packet_size

module _ {W : Type 0} (usb : Libusb W) where
  unfoldable pub send_rx_command : List ℕ → UsbRx W → ℤ × UsbRx W
  send_rx_command packet r =
      let (result, transferred, world) = usb.interrupt_transfer r.world packet in
      let r' = record r {
        world = world;
        trace = record { packet = packet; delivered = whole result transferred } ∷ r.trace;
      } in
      if whole result transferred then (success, r') else (
        if is_zero result then error_io else result,
        record r' { command_errors = add64 r.command_errors 1 },
      )

  -- A builder with `next_command_index++`, and the send. No caller meets a builder that refuses.
  unfoldable pub issue : (ℕ → Option (List ℕ)) → UsbRx W → ℤ × UsbRx W
  issue build r =
      let r' = record r { next_command_index = (r.next_command_index + 1) % 256 } in
      elim (build r.next_command_index) [
        | none ↦ (error_invalid_param, r')
        | some packet ↦ send_rx_command packet r'
      ]
