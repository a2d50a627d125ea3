-- ===== src/RxStream/Classify.antt =====
-- The error counters of src/usb_rx.c: each error is counted once in its class, in the total of its
-- kind and as an event, over every sequence of completions.
use flex1500d.Base.{
  either, ℕ, ◌+◌, ◌-◌, ◌*◌, ◌%◌, Bool, true, false, not, List, [], ◌∷◌, ◌&&◌, ltb, ◌==◌, ◌≡◌, refl,
  arith,
}
use flex1500d.Base.Ints.{is_zero}
use flex1500d.Base.Words.{u64_mod}
use flex1500d.Base.Lists.{length}
use flex1500d.Protocol.{decode_physical_inputs}
use flex1500d.TxAudio.{Floats}
use flex1500d.RxStream.{TransferStatus, Packet, Bus, Classes, RxCounters, RxReceiver, packet_size}
use flex1500d.RxStream.Process.{elapsed_ms, note_sentinel, receive_samples, process_packet}
use flex1500d.RxStream.Complete.{
  classify, is_completed, is_cancelled, mark_error_event, classify_transfer_status, failed_packet,
  check_length, count_packet, count_trailing, arrived_packet, rx_packet, failed_transfer,
  submit_slot, retire_slot, rx_result, rx_complete, submit_status, note_inputs, status_result,
  status_complete,
}
use flex1500d.RxStream.Running.{
  Arrival, transfer_done, status_done, arrive, run_arrivals, scan_sentinels-Keeps, rx_packets-Keeps,
  run_arrivals-Keeps,
}

abbrev pub class_sum : Classes → ℕ
class_sum k = k.timeouts + k.stalls + k.no_device + k.overflows + k.other_errors

-- The totals that belong together, modulo 2^64.
pub record Classified (k : RxCounters) : Type 0 where
  pub packets : class_sum k.packet_classes % u64_mod ≡ k.packet_status_errors % u64_mod
  pub transfers : class_sum k.transfer_classes % u64_mod ≡ k.transfer_status_errors % u64_mod
  pub errors :
      k.usb_packet_errors % u64_mod
      ≡ (k.packet_status_errors + 64 * k.transfer_status_errors) % u64_mod
  pub events :
      k.error_events % u64_mod
      ≡ (k.packet_status_errors + k.transfer_status_errors + k.short_packets + k.oversized_packets)
        % u64_mod

class_sum-classify :
    (status : TransferStatus) (k : Classes)
    → class_sum (classify status k) % u64_mod ≡ (class_sum k + 1) % u64_mod
unfolding classify
class_sum-classify TransferStatus.completed k = omega arith
class_sum-classify TransferStatus.error k = omega arith
class_sum-classify TransferStatus.timed_out k = omega arith
class_sum-classify TransferStatus.cancelled k = omega arith
class_sum-classify TransferStatus.stall k = omega arith
class_sum-classify TransferStatus.no_device k = omega arith
class_sum-classify TransferStatus.overflow k = omega arith

module _ {F D W : Type 0} {c : Floats F D} (bus : Bus W) where
  abbrev AreClassified : RxReceiver c W → Type 0
  AreClassified r = Classified r.counters

  note_sentinel-Classified :
      (frame : ℕ) (r : RxReceiver c W) → AreClassified r → AreClassified (note_sentinel bus frame r)
  unfolding note_sentinel elapsed_ms
  note_sentinel-Classified frame r h = record {
    packets = h.packets;
    transfers = h.transfers;
    errors = h.errors;
    events = h.events;
  }

  process_packet-Classified :
      (bytes : List ℕ) (r : RxReceiver c W)
      → AreClassified r
      → AreClassified (process_packet bus bytes r)
  unfolding process_packet receive_samples
  process_packet-Classified bytes r h =
      either AreClassified r.microphone_streaming _ _
        (λ e.
          either AreClassified (r.microphone_capture_enabled && r.tx_accepting_audio) _ r (λ f. h)
            (λ f. h))
        (λ e.
          scan_sentinels-Keeps bus AreClassified note_sentinel-Classified r.iq_stats.frames bytes r
            h)

  failed_packet-Classified :
      (status : TransferStatus) (r : RxReceiver c W)
      → AreClassified r
      → AreClassified (failed_packet bus status r)
  unfolding failed_packet classify_transfer_status mark_error_event elapsed_ms
  failed_packet-Classified status r h = record {
    packets = omega (arith, h.packets, class_sum-classify status r.counters.packet_classes);
    transfers = h.transfers;
    errors = omega (arith, h.errors);
    events = omega (arith, h.events);
  }

  failed_transfer-Classified :
      (status : TransferStatus) (r : RxReceiver c W)
      → AreClassified r
      → AreClassified (failed_transfer bus status r)
  unfolding failed_transfer classify_transfer_status mark_error_event elapsed_ms
  failed_transfer-Classified status r h = record {
    packets = h.packets;
    transfers = omega (arith, h.transfers, class_sum-classify status r.counters.transfer_classes);
    errors = omega (arith, h.errors);
    events = omega (arith, h.events);
  }

  -- An event for a packet that is short or oversized.
  event-Classified :
      (r r' : RxReceiver c W)
      → AreClassified r
      → r'.counters.packet_classes ≡ r.counters.packet_classes
      → r'.counters.transfer_classes ≡ r.counters.transfer_classes
      → r'.counters.packet_status_errors ≡ r.counters.packet_status_errors
      → r'.counters.transfer_status_errors ≡ r.counters.transfer_status_errors
      → r'.counters.usb_packet_errors ≡ r.counters.usb_packet_errors
      → (r'.counters.short_packets + r'.counters.oversized_packets) % u64_mod
        ≡ (r.counters.short_packets + r.counters.oversized_packets + 1) % u64_mod
      → r'.counters.error_events ≡ r.counters.error_events
      → AreClassified (mark_error_event bus r')
  unfolding mark_error_event elapsed_ms
  event-Classified r r' h a b d e f g i = record {
    packets = rw (a, d) h.packets;
    transfers = rw (b, e) h.transfers;
    errors = omega (arith, h.errors);
    events = omega (arith, h.events);
  }

  check_length-Classified :
      (n : ℕ) (r : RxReceiver c W) → AreClassified r → AreClassified (check_length bus n r)
  unfolding check_length
  check_length-Classified n r h =
      either AreClassified (n == 0) _ _
        (λ e. event-Classified r _ h refl refl refl refl refl (omega arith) refl)
        (λ e.
          either AreClassified (ltb n packet_size) _ _
            (λ e. event-Classified r _ h refl refl refl refl refl (omega arith) refl)
            (λ e.
              either AreClassified (ltb packet_size n) _ r
                (λ e. event-Classified r _ h refl refl refl refl refl (omega arith) refl) (λ e. h)))

  arrived_packet-Classified :
      (payload : List ℕ) (r : RxReceiver c W)
      → AreClassified r
      → AreClassified (arrived_packet bus payload r)
  unfolding arrived_packet count_packet count_trailing
  arrived_packet-Classified payload r h =
      let n = length payload in
      let x = check_length-Classified n (count_packet bus n r) record {
        packets = h.packets;
        transfers = h.transfers;
        errors = h.errors;
        events = h.events;
      } in
      let y = count_trailing bus n (check_length bus n (count_packet bus n r)) in
      let z : AreClassified y = record {
        packets = x.packets;
        transfers = x.transfers;
        errors = x.errors;
        events = x.events;
      } in
      either AreClassified (ltb 0 n) (process_packet bus payload y) y
        (λ e. process_packet-Classified payload y z) (λ e. z)

  rx_packet-Classified :
      (packet : Packet) (r : RxReceiver c W)
      → AreClassified r
      → AreClassified (rx_packet bus packet r)
  unfolding rx_packet
  rx_packet-Classified packet r h =
      either AreClassified (is_completed packet.status) _ _
        (λ e. arrived_packet-Classified packet.payload r h)
        (λ e. failed_packet-Classified packet.status r h)

  rx_result-Classified :
      (status : TransferStatus) (packets : List Packet) (r : RxReceiver c W)
      → AreClassified r
      → AreClassified (rx_result bus status packets r)
  unfolding rx_result
  rx_result-Classified status packets r h =
      either AreClassified (is_completed status) _ _
        (λ e. rx_packets-Keeps bus AreClassified rx_packet-Classified packets _ h)
        (λ e.
          either AreClassified (not (is_cancelled status)) _ r
            (λ e. failed_transfer-Classified status r h) (λ e. h))

  submit_slot-Classified :
      (slot : ℕ) (resubmit : Bool) (r : RxReceiver c W)
      → AreClassified r
      → AreClassified (submit_slot bus slot resubmit r).1
  unfolding submit_slot
  submit_slot-Classified slot resubmit r h =
      either AreClassified (is_zero (bus.submit r.world).0) _ _
        (λ e. record {
          packets = h.packets;
          transfers = h.transfers;
          errors = h.errors;
          events = h.events;
        })
        (λ e. record {
          packets = h.packets;
          transfers = h.transfers;
          errors = h.errors;
          events = h.events;
        })

  rx_complete-Classified :
      (slot : ℕ) (status : TransferStatus) (packets : List Packet) (r : RxReceiver c W)
      → AreClassified r
      → AreClassified (rx_complete bus slot status packets r)
  unfolding rx_complete retire_slot
  rx_complete-Classified slot status packets r h =
      let r' = rx_result bus status packets (retire_slot bus slot r) in
      let h' = rx_result-Classified status packets (retire_slot bus slot r) h in
      either AreClassified (not r'.stopping && r'.running) _ r'
        (λ e. submit_slot-Classified slot true r' h') (λ e. h')

  submit_status-Classified :
      (r : RxReceiver c W) → AreClassified r → AreClassified (submit_status bus r).1
  unfolding submit_status
  submit_status-Classified r h =
      either AreClassified (is_zero (bus.submit r.world).0) _ _ (λ e. h)
        (λ e. record {
          packets = h.packets;
          transfers = h.transfers;
          errors = h.errors;
          events = h.events;
        })

  note_inputs-Classified :
      (buffer : List ℕ) (r : RxReceiver c W)
      → AreClassified r
      → AreClassified (note_inputs bus buffer r)
  unfolding note_inputs decode_physical_inputs
  note_inputs-Classified [] r h = record {
    packets = h.packets;
    transfers = h.transfers;
    errors = h.errors;
    events = h.events;
  }
  note_inputs-Classified (status ∷ rest) r h = record {
    packets = h.packets;
    transfers = h.transfers;
    errors = h.errors;
    events = h.events;
  }

  status_complete-Classified :
      (status : TransferStatus) (buffer : List ℕ) (r : RxReceiver c W)
      → AreClassified r
      → AreClassified (status_complete bus status buffer r)
  unfolding status_complete status_result
  status_complete-Classified status buffer r h =
      let r0 = record r { status_submitted = false; active_transfers = r.active_transfers - 1 } in
      let r' = status_result bus status buffer r0 in
      let h' : AreClassified r' =
        either AreClassified (is_completed status) _ _ (λ e. note_inputs-Classified buffer r0 h)
          (λ e.
            either AreClassified (not (is_cancelled status)) _ r0
              (λ e. record {
                packets = h.packets;
                transfers = h.transfers;
                errors = h.errors;
                events = h.events;
              })
              (λ e. h)) in
      either AreClassified (not r'.stopping && r'.running) _ r'
        (λ e. submit_status-Classified r' h') (λ e. h')

  arrive-Classified :
      (arrival : Arrival) (r : RxReceiver c W)
      → AreClassified r
      → AreClassified (arrive bus arrival r)
  unfolding arrive
  arrive-Classified (transfer_done slot status packets) r h =
      rx_complete-Classified slot status packets r h
  arrive-Classified (status_done status buffer) r h = status_complete-Classified status buffer r h

  -- Over any sequence of completions, from counters that agree: the five classes of packet errors
  -- add up to their total, and those of transfer errors to theirs; a failed transfer counts as 64
  -- packet errors; and the error events are the failed packets, the failed transfers, and the
  -- short and the oversized packets. All sums are modulo 2^64.
  pub run_arrivals-Classified :
      (arrivals : List Arrival) (r : RxReceiver c W)
      → Classified r.counters
      → Classified (run_arrivals bus arrivals r).counters
  run_arrivals-Classified arrivals r h =
      run_arrivals-Keeps bus AreClassified arrive-Classified arrivals r h
