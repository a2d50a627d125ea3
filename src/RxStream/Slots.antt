-- ===== src/RxStream/Slots.antt =====
-- The transfers of src/usb_rx.c that are under way: `active_transfers` counts the receive slots and
-- the status transfer that are submitted.
use flex1500d.Base.{
  either, ℕ, zero, suc, ◌+◌, Bool, true, false, not, List, [], ◌∷◌, ◌&&◌, ltb, ◌==◌, ◌≡◌, refl, ap,
  ◌∙◌, arith,
}
use flex1500d.Base.Lists.{length, get_or, set}
use flex1500d.TxAudio.{Floats}
use flex1500d.RxStream.{TransferStatus, Packet, Bus, RxReceiver, packet_size}
use flex1500d.RxStream.Process.{elapsed_ms, note_sentinel, receive_samples, process_packet}
use flex1500d.RxStream.Complete.{
  is_completed, is_cancelled, mark_error_event, classify_transfer_status, failed_packet,
  check_length, count_packet, count_trailing, arrived_packet, rx_packet, failed_transfer, rx_result,
}
use flex1500d.RxStream.Running.{
  Arrival, transfer_done, status_done, scan_sentinels-Keeps, rx_packets-Keeps,
}

unfoldable pub set_bits : List Bool → ℕ
set_bits [] = 0
set_bits (true ∷ bits) = suc (set_bits bits)
set_bits (false ∷ bits) = set_bits bits

abbrev pub bit : Bool → ℕ
bit true = 1
bit false = 0

module _ {F D W : Type 0} {c : Floats F D} where
  pub record Tracked (r : RxReceiver c W) : Type 0 where
    pub active : r.active_transfers ≡ set_bits r.submitted + bit r.status_submitted

  -- A completion is of a transfer that is under way.
  unfoldable pub is_submitted : Arrival → RxReceiver c W → Bool
  is_submitted (transfer_done slot status packets) r = get_or r.submitted slot false
  is_submitted (status_done status buffer) r = r.status_submitted

pub set_bits-clear :
    (bits : List Bool) (i : ℕ)
    → get_or bits i false ≡ true
    → set_bits bits ≡ suc (set_bits (set bits i false)) × get_or (set bits i false) i true ≡ false
unfolding set_bits
set_bits-clear [] i h = absurd (ground arith)
set_bits-clear (true ∷ bits) zero h = (refl, refl)
set_bits-clear (false ∷ bits) zero h = absurd (ground arith)
set_bits-clear (true ∷ bits) (suc i) h = let (a, b) = set_bits-clear bits i h in (ap suc a, b)
set_bits-clear (false ∷ bits) (suc i) h = set_bits-clear bits i h

pub set_bits-set :
    (bits : List Bool) (i : ℕ)
    → get_or bits i true ≡ false
    → set_bits (set bits i true) ≡ suc (set_bits bits)
unfolding set_bits
set_bits-set [] i h = absurd (ground arith)
set_bits-set (true ∷ bits) zero h = absurd (ground arith)
set_bits-set (false ∷ bits) zero h = refl
set_bits-set (true ∷ bits) (suc i) h = ap suc (set_bits-set bits i h)
set_bits-set (false ∷ bits) (suc i) h = set_bits-set bits i h

module _ {F D W : Type 0} {c : Floats F D} (bus : Bus W) where
  -- The receiver after has the transfers of the one before, and runs only where it did.
  pub record Settled (r r' : RxReceiver c W) : Type 0 where
    pub submitted : r'.submitted ≡ r.submitted
    pub status : r'.status_submitted ≡ r.status_submitted
    pub active : r'.active_transfers ≡ r.active_transfers
    pub stopping : r'.stopping ≡ r.stopping
    pub halted : r.running ≡ false → r'.running ≡ false

  -- An operation on other fields.
  pub settle :
      (r s t : RxReceiver c W)
      → Settled r s
      → t.submitted ≡ s.submitted
      → t.status_submitted ≡ s.status_submitted
      → t.active_transfers ≡ s.active_transfers
      → t.stopping ≡ s.stopping
      → (s.running ≡ false → t.running ≡ false)
      → Settled r t
  settle r s t h a b d e f = record {
    submitted = a ∙ h.submitted;
    status = b ∙ h.status;
    active = d ∙ h.active;
    stopping = e ∙ h.stopping;
    halted = λ k. f (h.halted k);
  }

  pub stays : (r : RxReceiver c W) → Settled r r
  stays r = record {
    submitted = refl;
    status = refl;
    active = refl;
    stopping = refl;
    halted = λ k. k;
  }

  module _ (r : RxReceiver c W) where
    process_packet-Settled :
        (bytes : List ℕ) (s : RxReceiver c W) → Settled r s → Settled r (process_packet bus bytes s)
    unfolding process_packet receive_samples note_sentinel elapsed_ms
    process_packet-Settled bytes s h =
        either (Settled r) s.microphone_streaming _ _
          (λ e.
            either (Settled r) (s.microphone_capture_enabled && s.tx_accepting_audio) _ s
              (λ f. settle r s _ h refl refl refl refl (λ k. k)) (λ f. h))
          (λ e.
            settle r _ _
              (scan_sentinels-Keeps bus (Settled r)
                (λ frame t k. settle r t _ k refl refl refl refl (λ i. i)) s.iq_stats.frames bytes s
                h)
              refl refl refl refl (λ k. k))

    check_length-Settled :
        (n : ℕ) (s : RxReceiver c W) → Settled r s → Settled r (check_length bus n s)
    unfolding check_length mark_error_event elapsed_ms
    check_length-Settled n s h =
        either (Settled r) (n == 0) _ _ (λ e. settle r s _ h refl refl refl refl (λ k. k))
          (λ e.
            either (Settled r) (ltb n packet_size) _ _
              (λ f. settle r s _ h refl refl refl refl (λ k. k))
              (λ f.
                either (Settled r) (ltb packet_size n) _ s
                  (λ g. settle r s _ h refl refl refl refl (λ k. k)) (λ g. h)))

    rx_packet-Settled :
        (packet : Packet) (s : RxReceiver c W) → Settled r s → Settled r (rx_packet bus packet s)
    unfolding rx_packet arrived_packet failed_packet classify_transfer_status mark_error_event
        elapsed_ms count_packet count_trailing
    rx_packet-Settled packet s h =
        let n = length packet.payload in
        let t = check_length bus n (count_packet bus n s) in
        let k =
          check_length-Settled n (count_packet bus n s)
            (settle r s _ h refl refl refl refl (λ k. k)) in
        let u = count_trailing bus n t in
        let l : Settled r u = settle r t u k refl refl refl refl (λ k. k) in
        either (Settled r) (is_completed packet.status) _ _
          (λ e.
            either (Settled r) (ltb 0 n) (process_packet bus packet.payload u) u
              (λ f. process_packet-Settled packet.payload u l) (λ f. l))
          (λ e. settle r s _ h refl refl refl refl (λ k. k))

    pub rx_result-Settled :
        (status : TransferStatus) (packets : List Packet)
        → Settled r (rx_result bus status packets r)
    unfolding rx_result failed_transfer classify_transfer_status mark_error_event elapsed_ms
    rx_result-Settled status packets =
        either (Settled r) (is_completed status) _ _
          (λ e.
            rx_packets-Keeps bus (Settled r) rx_packet-Settled packets _
              (settle r r _ (stays r) refl refl refl refl (λ k. k)))
          (λ e.
            either (Settled r) (not (is_cancelled status)) _ r
              (λ f. settle r r _ (stays r) refl refl refl refl (λ k. ground arith)) (λ f. stays r))
