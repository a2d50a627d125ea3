-- ===== src/RxStream/Tests.antt =====
-- Runs of the receive side of src/usb_rx.c, and its theorems at concrete completions.
use flex1500d.Base.{ℕ, ◌+◌, ◌≤◌, ◌≡◌, refl, true, false, List, [], ◌∷◌, arith}
use flex1500d.Base.Ints.{ℤ, pos, negsuc}
use flex1500d.Base.Lists.{replicate}
use flex1500d.TxAudio.Tests.{whole_numbers, new_stream}
use flex1500d.RxStream.{TransferStatus, Packet, Bus, Classes, RxCounters, RxReceiver}
use flex1500d.RxStream.Complete.{is_completed, is_cancelled}
use flex1500d.RxStream.Running.{Arrival, transfer_done, status_done, run_arrivals}
use flex1500d.RxStream.Classify.{Classified, run_arrivals-Classified}
use flex1500d.RxStream.Bytes.{Counted}
use flex1500d.RxStream.Received.{Fits, AllFit, run_arrivals-Counted}
use flex1500d.RxStream.Slots.{Tracked, set_bits, is_submitted}
use flex1500d.RxStream.Halt.{
  AllSubmitted, run_arrivals-Tracked, drain, begin_stop, AllHandled, completions, stop_drains,
}
use flex1500d.RxStream.Health.{is_failure, AllFailures, failures_give_up}

-- A clock that goes on by a millisecond a reading, and a device that takes every transfer.
abbrev ticking : Bus ℕ
ticking = record { monotonic_ms = λ w. (w, w + 1); submit = λ w. (pos 0, w) }

abbrev no_classes : Classes
no_classes = record { timeouts = 0; stalls = 0; no_device = 0; overflows = 0; other_errors = 0 }

abbrev no_counters : RxCounters
no_counters = record {
  usb_packets = 0;
  usb_packet_errors = 0;
  bytes = 0;
  transfer_resubmits = 0;
  transfer_submit_errors = 0;
  transfer_status_errors = 0;
  transfer_classes = no_classes;
  packet_status_errors = 0;
  packet_classes = no_classes;
  short_packets = 0;
  zero_length_packets = 0;
  oversized_packets = 0;
  missing_bytes = 0;
  trailing_bytes = 0;
  error_events = 0;
  status_packets = 0;
  status_changes = 0;
  status_errors = 0;
  first_error_ms = 0;
  last_error_ms = 0;
  first_sentinel_frame = 0;
  last_sentinel_frame = 0;
  first_sentinel_ms = 0;
  last_sentinel_ms = 0;
}

-- A receiver that has started: all its transfers are submitted.
abbrev started : RxReceiver whole_numbers ℕ
started = record {
  world = 5;
  destination = record {
    samples = record { i = 0; q = 0 } ∷ [];
    capacity = 1;
    read_index = 0;
    size = 0;
    dropped = 0;
  };
  submitted = replicate 8 true;
  status_submitted = true;
  physical_inputs_known = false;
  physical_inputs = record {
    raw_status = 0;
    mic_ptt = false;
    flexwire_ptt = false;
    dash = false;
    dot = false;
  };
  iq_stats = record {
    frames = 0;
    sentinel_frames = 0;
    min_i = pos 0;
    max_i = pos 0;
    min_q = pos 0;
    max_q = pos 0;
    mean_i = 0;
    mean_q = 0;
    have_samples = false;
  };
  dc_blocker = record { estimate_i = 0; estimate_q = 0; alpha = 0; initialized = false };
  counters = no_counters;
  active_transfers = 9;
  running = true;
  stopping = false;
  microphone_streaming = false;
  microphone_capture_enabled = false;
  tx_accepting_audio = false;
  microphone_stream = new_stream;
  started_ms = 0;
  sentinel_seen = false;
  consecutive_transfer_failures = 0;
}

abbrev short_packet : Packet
short_packet = record { status = TransferStatus.completed; payload = 1 ∷ 0 ∷ 2 ∷ 0 ∷ 9 ∷ [] }

abbrev lost_packet : Packet
lost_packet = record { status = TransferStatus.timed_out; payload = [] }

abbrev arrivals : List Arrival
arrivals =
    transfer_done 0 TransferStatus.completed (short_packet ∷ lost_packet ∷ [])
    ∷ transfer_done 3 TransferStatus.stall []
    ∷ status_done TransferStatus.completed (255 ∷ [])
    ∷ []

arrivals-Classified : Classified (run_arrivals ticking arrivals started).counters
arrivals-Classified =
    run_arrivals-Classified ticking arrivals started
      record { packets = refl; transfers = refl; errors = refl; events = refl }

arrivals-AllFit : AllFit arrivals
unfolding AllFit Fits
arrivals-AllFit = ((omega arith, (omega arith, tt)), (tt, tt))

arrivals-Counted : Counted ticking (run_arrivals ticking arrivals started)
arrivals-Counted =
    run_arrivals-Counted ticking arrivals started arrivals-AllFit
      record { streaming = refl; whole = refl; framed = refl }

started-Tracked : Tracked started
unfolding set_bits
started-Tracked = record { active = refl }

one-AllSubmitted : AllSubmitted ticking (transfer_done 0 TransferStatus.stall [] ∷ []) started
unfolding AllSubmitted is_submitted
one-AllSubmitted = (refl, tt)

one-Tracked : Tracked (run_arrivals ticking (transfer_done 0 TransferStatus.stall [] ∷ []) started)
one-Tracked =
    run_arrivals-Tracked ticking (transfer_done 0 TransferStatus.stall [] ∷ []) started
      one-AllSubmitted started-Tracked

abbrev cancelled_slots : List Arrival
cancelled_slots = replicate 8 (transfer_done 0 TransferStatus.cancelled [])

abbrev rounds : List (ℤ × List Arrival)
rounds =
    (pos 0, cancelled_slots)
    ∷ (negsuc 9, [])
    ∷ (pos 0, status_done TransferStatus.cancelled [] ∷ [])
    ∷ []

rounds-AllHandled : AllHandled rounds
unfolding AllHandled
rounds-AllHandled = (refl, (refl, (refl, tt)))

rounds_enough : started.active_transfers ≤ completions rounds
unfolding completions
rounds_enough = omega arith

started_drains : (drain ticking rounds (begin_stop ticking started)).active_transfers ≡ 0
started_drains = stop_drains ticking rounds started rounds-AllHandled rounds_enough

abbrev stalls : List Arrival
stalls = transfer_done 0 TransferStatus.stall [] ∷ transfer_done 1 TransferStatus.timed_out [] ∷ []

stalls-AllFailures : AllFailures stalls
unfolding AllFailures is_failure is_completed is_cancelled
stalls-AllFailures = (refl, (refl, tt))

two_stalls : (run_arrivals ticking stalls started).running ≡ true
two_stalls =
    failures_give_up ticking stalls started (λ w. refl) stalls-AllFailures (omega arith) refl refl
