-- ===== src/RxStream/Running.antt =====
-- Sequences of completions of src/usb_rx.c, and what a property needs to hold after each of them.
use flex1500d.Base.{either, ℕ, List, [], ◌∷◌}
use flex1500d.Base.Words.{add64}
use flex1500d.Protocol.{decode_iq_frame}
use flex1500d.TxAudio.{Floats}
use flex1500d.RxStream.{TransferStatus, Packet, Bus, RxReceiver}
use flex1500d.RxStream.Process.{both_minus_one, note_sentinel, scan_sentinels}
use flex1500d.RxStream.Complete.{rx_packet, rx_packets, rx_complete, status_complete}

pub data Arrival : Type 0 where
  transfer_done : ℕ → TransferStatus → List Packet → Arrival
  status_done : TransferStatus → List ℕ → Arrival

module _ {F D W : Type 0} {c : Floats F D} (bus : Bus W) where
  unfoldable pub arrive : Arrival → RxReceiver c W → RxReceiver c W
  arrive (transfer_done slot status packets) r = rx_complete bus slot status packets r
  arrive (status_done status buffer) r = status_complete bus status buffer r

  unfoldable pub run_arrivals : List Arrival → RxReceiver c W → RxReceiver c W
  run_arrivals [] r = r
  run_arrivals (arrival ∷ arrivals) r = run_arrivals arrivals (arrive arrival r)

module _ {F D W : Type 0} {c : Floats F D} (bus : Bus W) (P : RxReceiver c W → Type 0) where
  scan_from :
      ((frame : ℕ) (r : RxReceiver c W) → P r → P (note_sentinel bus frame r))
      → (bytes : List ℕ) (frame : ℕ) (r : RxReceiver c W) → P r
      → P (scan_sentinels bus frame bytes r)
  unfolding scan_sentinels
  scan_from note [] frame r h = h
  scan_from note (a ∷ []) frame r h = h
  scan_from note (a ∷ b ∷ []) frame r h = h
  scan_from note (a ∷ b ∷ d ∷ []) frame r h = h
  scan_from note (i0 ∷ i1 ∷ q0 ∷ q1 ∷ bytes) frame r h = scan_from note bytes (add64 frame 1) _ (
      either P (both_minus_one (decode_iq_frame i0 i1 q0 q1).0 (decode_iq_frame i0 i1 q0 q1).1)
        (note_sentinel bus frame r) r (λ e. note frame r h) (λ e. h))

  pub scan_sentinels-Keeps :
      ((frame : ℕ) (r : RxReceiver c W) → P r → P (note_sentinel bus frame r))
      → (frame : ℕ) (bytes : List ℕ) (r : RxReceiver c W) → P r
      → P (scan_sentinels bus frame bytes r)
  scan_sentinels-Keeps note frame bytes r h = scan_from note bytes frame r h

  pub rx_packets-Keeps :
      ((packet : Packet) (r : RxReceiver c W) → P r → P (rx_packet bus packet r))
      → (packets : List Packet) (r : RxReceiver c W) → P r
      → P (rx_packets bus packets r)
  unfolding rx_packets
  rx_packets-Keeps step [] r h = h
  rx_packets-Keeps step (packet ∷ packets) r h =
      rx_packets-Keeps step packets (rx_packet bus packet r) (step packet r h)

  pub run_arrivals-Keeps :
      ((arrival : Arrival) (r : RxReceiver c W) → P r → P (arrive bus arrival r))
      → (arrivals : List Arrival) (r : RxReceiver c W) → P r
      → P (run_arrivals bus arrivals r)
  unfolding run_arrivals
  run_arrivals-Keeps step [] r h = h
  run_arrivals-Keeps step (arrival ∷ arrivals) r h =
      run_arrivals-Keeps step arrivals (arrive bus arrival r) (step arrival r h)
