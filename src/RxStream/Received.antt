-- ===== src/RxStream/Received.antt =====
-- Over every sequence of completions of src/usb_rx.c no byte is lost without being counted.
use flex1500d.Base.{either, ℕ, ◌-◌, ◌≤◌, false, not, List, [], ◌∷◌, ◌&&◌, ◌≡◌, refl, ◌∙◌, arith}
use flex1500d.Base.Ints.{is_zero}
use flex1500d.Base.Lists.{length}
use flex1500d.Protocol.{decode_physical_inputs}
use flex1500d.TxAudio.{Floats}
use flex1500d.RxStream.{TransferStatus, Packet, Bus, RxReceiver, packet_size}
use flex1500d.RxStream.Process.{elapsed_ms}
use flex1500d.RxStream.Complete.{
  is_completed, is_cancelled, mark_error_event, classify_transfer_status, failed_packet, rx_packet,
  rx_packets, failed_transfer, submit_slot, retire_slot, rx_result, rx_complete, submit_status,
  note_inputs, status_result, status_complete,
}
use flex1500d.RxStream.Running.{Arrival, transfer_done, status_done, arrive, run_arrivals}
use flex1500d.RxStream.Bytes.{Counted, arrived_packet-Counted}

-- No packet is longer than what the transfer asks for.
unfoldable pub Fits : List Packet → Type 0
Fits [] = Unit
Fits (packet ∷ packets) = (length packet.payload ≤ packet_size) × Fits packets

unfoldable pub AllFit : List Arrival → Type 0
AllFit [] = Unit
AllFit (transfer_done slot status packets ∷ arrivals) = Fits packets × AllFit arrivals
AllFit (status_done status buffer ∷ arrivals) = AllFit arrivals

module _ {F D W : Type 0} {c : Floats F D} (bus : Bus W) where
  -- An operation that counts no bytes.
  carry :
      (r r' : RxReceiver c W)
      → Counted bus r
      → r'.counters.bytes ≡ r.counters.bytes
      → r'.counters.usb_packets ≡ r.counters.usb_packets
      → r'.counters.missing_bytes ≡ r.counters.missing_bytes
      → r'.counters.trailing_bytes ≡ r.counters.trailing_bytes
      → r'.iq_stats.frames ≡ r.iq_stats.frames
      → r'.microphone_streaming ≡ r.microphone_streaming
      → Counted bus r'
  carry r r' h a b d e f g = record {
    streaming = g ∙ h.streaming;
    whole = omega (arith, h.whole);
    framed = omega (arith, h.framed);
  }

  rx_packet-Counted :
      (packet : Packet) (r : RxReceiver c W)
      → length packet.payload ≤ packet_size
      → Counted bus r
      → Counted bus (rx_packet bus packet r)
  unfolding rx_packet failed_packet classify_transfer_status mark_error_event elapsed_ms
  rx_packet-Counted packet r l h =
      either (Counted bus) (is_completed packet.status) _ _
        (λ e. arrived_packet-Counted bus packet.payload r l h)
        (λ e. carry r _ h refl refl refl refl refl refl)

  rx_packets-Counted :
      (packets : List Packet) (r : RxReceiver c W)
      → Fits packets
      → Counted bus r
      → Counted bus (rx_packets bus packets r)
  unfolding rx_packets Fits
  rx_packets-Counted [] r l h = h
  rx_packets-Counted (packet ∷ packets) r (l, k) h =
      rx_packets-Counted packets (rx_packet bus packet r) k (rx_packet-Counted packet r l h)

  rx_result-Counted :
      (status : TransferStatus) (packets : List Packet) (r : RxReceiver c W)
      → Fits packets
      → Counted bus r
      → Counted bus (rx_result bus status packets r)
  unfolding rx_result failed_transfer classify_transfer_status mark_error_event elapsed_ms
  rx_result-Counted status packets r l h =
      either (Counted bus) (is_completed status) _ _
        (λ e. rx_packets-Counted packets _ l (carry r _ h refl refl refl refl refl refl))
        (λ e.
          either (Counted bus) (not (is_cancelled status)) _ r
            (λ f. carry r _ h refl refl refl refl refl refl) (λ f. h))

  rx_complete-Counted :
      (slot : ℕ) (status : TransferStatus) (packets : List Packet) (r : RxReceiver c W)
      → Fits packets
      → Counted bus r
      → Counted bus (rx_complete bus slot status packets r)
  unfolding rx_complete retire_slot submit_slot
  rx_complete-Counted slot status packets r l h =
      let r' = rx_result bus status packets (retire_slot bus slot r) in
      let h' =
        rx_result-Counted status packets (retire_slot bus slot r) l
          (carry r _ h refl refl refl refl refl refl) in
      either (Counted bus) (not r'.stopping && r'.running) _ r'
        (λ e.
          either (Counted bus) (is_zero (bus.submit r'.world).0) _ _
            (λ f. carry r' _ h' refl refl refl refl refl refl)
            (λ f. carry r' _ h' refl refl refl refl refl refl))
        (λ e. h')

  note_inputs-Counted :
      (buffer : List ℕ) (r : RxReceiver c W)
      → Counted bus r
      → Counted bus (note_inputs bus buffer r)
  unfolding note_inputs decode_physical_inputs
  note_inputs-Counted [] r h = carry r _ h refl refl refl refl refl refl
  note_inputs-Counted (status ∷ rest) r h = carry r _ h refl refl refl refl refl refl

  status_complete-Counted :
      (status : TransferStatus) (buffer : List ℕ) (r : RxReceiver c W)
      → Counted bus r
      → Counted bus (status_complete bus status buffer r)
  unfolding status_complete status_result submit_status
  status_complete-Counted status buffer r h =
      let r0 = record r { status_submitted = false; active_transfers = r.active_transfers - 1 } in
      let h0 : Counted bus r0 = carry r r0 h refl refl refl refl refl refl in
      let r' = status_result bus status buffer r0 in
      let h' : Counted bus r' =
        either (Counted bus) (is_completed status) _ _ (λ e. note_inputs-Counted buffer r0 h0)
          (λ e.
            either (Counted bus) (not (is_cancelled status)) _ r0
              (λ f. carry r0 _ h0 refl refl refl refl refl refl) (λ f. h0)) in
      either (Counted bus) (not r'.stopping && r'.running) _ r'
        (λ e.
          either (Counted bus) (is_zero (bus.submit r'.world).0) _ _
            (λ f. carry r' _ h' refl refl refl refl refl refl)
            (λ f. carry r' _ h' refl refl refl refl refl refl))
        (λ e. h')

  -- Over any sequence of completions whose packets are no longer than 192 bytes, a receiver that
  -- receives stays one, and where its counters agreed they agree: the bytes received and the bytes
  -- missing are 192 for each packet, and the bytes received are 4 for each sample frame converted
  -- and the trailing ones, all modulo 2^64.
  pub run_arrivals-Counted :
      (arrivals : List Arrival) (r : RxReceiver c W)
      → AllFit arrivals
      → Counted bus r
      → Counted bus (run_arrivals bus arrivals r)
  unfolding run_arrivals arrive AllFit
  run_arrivals-Counted [] r l h = h
  run_arrivals-Counted (transfer_done slot status packets ∷ arrivals) r (l, k) h =
      run_arrivals-Counted arrivals _ k (rx_complete-Counted slot status packets r l h)
  run_arrivals-Counted (status_done status buffer ∷ arrivals) r k h =
      run_arrivals-Counted arrivals _ k (status_complete-Counted status buffer r h)
