-- ===== src/RxStream/Complete.antt =====
-- The completions of src/usb_rx.c's receive and status transfers.
use mathlib.Core.Option.{some, none}
use flex1500d.Base.{
  ℕ, ◌+◌, ◌-◌, ◌%◌, Bool, true, false, not, List, [], ◌∷◌, ◌&&◌, ◌||◌, if◌then◌else◌, ltb, leb,
  ◌==◌,
}
use flex1500d.Base.Ints.{ℤ, is_zero}
use flex1500d.Base.Words.{add64, add32}
use flex1500d.Base.Lists.{length, set}
use flex1500d.Protocol.{decode_physical_inputs, physical_inputs_equal}
use flex1500d.TxAudio.{Floats}
use flex1500d.RxStream.{
  TransferStatus, Packet, Bus, Classes, RxReceiver, transfer_count, packets_per_transfer,
  packet_size,
}
use flex1500d.RxStream.Process.{elapsed_ms, process_packet}

-- The counter of a class, and `other_errors` for the statuses that have none.
unfoldable pub classify : TransferStatus → Classes → Classes
classify TransferStatus.timed_out k = record k { timeouts = add64 k.timeouts 1 }
classify TransferStatus.stall k = record k { stalls = add64 k.stalls 1 }
classify TransferStatus.no_device k = record k { no_device = add64 k.no_device 1 }
classify TransferStatus.overflow k = record k { overflows = add64 k.overflows 1 }
classify _ k = record k { other_errors = add64 k.other_errors 1 }

unfoldable pub is_completed : TransferStatus → Bool
is_completed TransferStatus.completed = true
is_completed _ = false

unfoldable pub is_cancelled : TransferStatus → Bool
is_cancelled TransferStatus.cancelled = true
is_cancelled _ = false

unfoldable pub is_no_device : TransferStatus → Bool
is_no_device TransferStatus.no_device = true
is_no_device _ = false

module _ {F D W : Type 0} {c : Floats F D} (bus : Bus W) where
  unfoldable pub mark_error_event : RxReceiver c W → RxReceiver c W
  mark_error_event r =
      let (when, r') = elapsed_ms bus r in
      record r' {
        counters = record r'.counters {
          first_error_ms =
              if r'.counters.error_events == 0 then when else r'.counters.first_error_ms;
          last_error_ms = when;
          error_events = add64 r'.counters.error_events 1;
        };
      }

  unfoldable pub classify_transfer_status : TransferStatus → Bool → RxReceiver c W → RxReceiver c W
  classify_transfer_status status packet r = mark_error_event (record r {
    counters = record r.counters {
      packet_classes =
          if packet then classify status r.counters.packet_classes else r.counters.packet_classes;
      transfer_classes =
          if packet
          then r.counters.transfer_classes
          else classify status r.counters.transfer_classes;
    };
  })

  -- A packet whose status is not completed.
  unfoldable pub failed_packet : TransferStatus → RxReceiver c W → RxReceiver c W
  failed_packet status r = classify_transfer_status status true (record r {
    counters = record r.counters {
      usb_packet_errors = add64 r.counters.usb_packet_errors 1;
      packet_status_errors = add64 r.counters.packet_status_errors 1;
    };
  })

  -- The check of a packet's length; `length` is its `actual_length`.
  unfoldable pub check_length : ℕ → RxReceiver c W → RxReceiver c W
  check_length length r =
      if length == 0
      then mark_error_event (record r {
        counters = record r.counters {
          zero_length_packets = add64 r.counters.zero_length_packets 1;
          short_packets = add64 r.counters.short_packets 1;
          missing_bytes = add64 r.counters.missing_bytes packet_size;
        };
      })
      else if ltb length packet_size
      then mark_error_event (record r {
        counters = record r.counters {
          short_packets = add64 r.counters.short_packets 1;
          missing_bytes = add64 r.counters.missing_bytes (packet_size - length);
        };
      })
      else if ltb packet_size length
      then mark_error_event (record r {
        counters = record r.counters { oversized_packets = add64 r.counters.oversized_packets 1 };
      })
      else r

  unfoldable pub count_packet : ℕ → RxReceiver c W → RxReceiver c W
  count_packet length r = record r {
    counters = record r.counters {
      usb_packets = add64 r.counters.usb_packets 1;
      bytes = add64 r.counters.bytes length;
    };
  }

  unfoldable pub count_trailing : ℕ → RxReceiver c W → RxReceiver c W
  count_trailing length r = record r {
    counters = record r.counters { trailing_bytes = add64 r.counters.trailing_bytes (length % 4) };
  }

  unfoldable pub arrived_packet : List ℕ → RxReceiver c W → RxReceiver c W
  arrived_packet payload r =
      let r' =
        count_trailing (length payload)
          (check_length (length payload) (count_packet (length payload) r)) in
      if ltb 0 (length payload) then process_packet bus payload r' else r'

  unfoldable pub rx_packet : Packet → RxReceiver c W → RxReceiver c W
  rx_packet packet r =
      if is_completed packet.status
      then arrived_packet packet.payload r
      else failed_packet packet.status r

  unfoldable pub rx_packets : List Packet → RxReceiver c W → RxReceiver c W
  rx_packets [] r = r
  rx_packets (packet ∷ packets) r = rx_packets packets (rx_packet packet r)

  -- A transfer that failed; the receiver gives up after eight in a row.
  unfoldable pub failed_transfer : TransferStatus → RxReceiver c W → RxReceiver c W
  failed_transfer status r =
      let r' = classify_transfer_status status false (record r {
        counters = record r.counters {
          usb_packet_errors = add64 r.counters.usb_packet_errors packets_per_transfer;
          transfer_status_errors = add64 r.counters.transfer_status_errors 1;
        };
      }) in
      let failures = add32 r'.consecutive_transfer_failures 1 in
      record r' {
        consecutive_transfer_failures = failures;
        running = if leb transfer_count failures then false else r'.running;
      }

  unfoldable pub submit_slot : ℕ → Bool → RxReceiver c W → ℤ × RxReceiver c W
  submit_slot slot resubmit r =
      let (result, world) = bus.submit r.world in
      (
        result,
        (if is_zero result
            then record r {
              world = world;
              submitted = set r.submitted slot true;
              active_transfers = r.active_transfers + 1;
              counters = record r.counters {
                transfer_resubmits =
                    if resubmit
                    then add64 r.counters.transfer_resubmits 1
                    else r.counters.transfer_resubmits;
              };
            }
            else record r {
              world = world;
              running = false;
              counters = record r.counters {
                transfer_submit_errors = add64 r.counters.transfer_submit_errors 1;
              };
            }),
      )

  -- What a completion does before it looks at the status.
  unfoldable pub retire_slot : ℕ → RxReceiver c W → RxReceiver c W
  retire_slot slot r = record r {
    submitted = set r.submitted slot false;
    active_transfers = r.active_transfers - 1;
  }

  unfoldable pub rx_result : TransferStatus → List Packet → RxReceiver c W → RxReceiver c W
  rx_result status packets r =
      if is_completed status
      then rx_packets packets (record r { consecutive_transfer_failures = 0 })
      else if not (is_cancelled status)
      then failed_transfer status r
      else r

  unfoldable pub rx_complete : ℕ → TransferStatus → List Packet → RxReceiver c W → RxReceiver c W
  rx_complete slot status packets r =
      let r' = rx_result status packets (retire_slot slot r) in
      if not r'.stopping && r'.running then (submit_slot slot true r').1 else r'

  unfoldable pub submit_status : RxReceiver c W → ℤ × RxReceiver c W
  submit_status r =
      let (result, world) = bus.submit r.world in
      (
        result,
        (if is_zero result
            then record r {
              world = world;
              status_submitted = true;
              active_transfers = r.active_transfers + 1;
            }
            else record r {
              world = world;
              running = false;
              counters = record r.counters { status_errors = add64 r.counters.status_errors 1 };
            }),
      )

  -- A status packet that arrived.
  unfoldable pub note_inputs : List ℕ → RxReceiver c W → RxReceiver c W
  note_inputs buffer r =
      let r' = record r {
        counters = record r.counters { status_packets = add64 r.counters.status_packets 1 };
      } in
      elim (decode_physical_inputs buffer) [
        | none ↦ record r' {
          counters = record r'.counters { status_errors = add64 r'.counters.status_errors 1 };
        }
        | some inputs ↦ record r' {
          physical_inputs = inputs;
          physical_inputs_known = true;
          counters = record r'.counters {
            status_changes =
                if not r'.physical_inputs_known
                  || not (physical_inputs_equal r'.physical_inputs inputs)
                then add64 r'.counters.status_changes 1
                else r'.counters.status_changes;
          };
        }
      ]

  unfoldable pub status_result : TransferStatus → List ℕ → RxReceiver c W → RxReceiver c W
  status_result status buffer r =
      if is_completed status
      then note_inputs buffer r
      else if not (is_cancelled status)
      then record r {
        running = if is_no_device status then false else r.running;
        counters = record r.counters { status_errors = add64 r.counters.status_errors 1 };
      }
      else r

  unfoldable pub status_complete : TransferStatus → List ℕ → RxReceiver c W → RxReceiver c W
  status_complete status buffer r =
      let r' =
        status_result status buffer
          (record r { status_submitted = false; active_transfers = r.active_transfers - 1 }) in
      if not r'.stopping && r'.running then (submit_status r').1 else r'
