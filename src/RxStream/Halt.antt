-- ===== src/RxStream/Halt.antt =====
-- The transfers of src/usb_rx.c over a sequence of completions: their number is right, and after
-- `flex1500_usb_rx_stop` has cancelled them none is submitted again, so that its wait ends.
use flex1500d.Base.{
  either, ℕ, ◌+◌, ◌-◌, ◌≤◌, true, false, not, List, [], ◌∷◌, ◌&&◌, ◌||◌, if◌then◌else◌, ◌==◌, ◌≡◌,
  refl, ap, ◌∙◌, arith,
}
use flex1500d.Base.Ints.{ℤ, is_zero}
use flex1500d.Base.Lists.{length, get_or}
use flex1500d.TxAudio.{Floats}
use flex1500d.UsbRx.{is_interrupted}
use flex1500d.Protocol.{decode_physical_inputs}
use flex1500d.RxStream.{TransferStatus, Packet, Bus, RxReceiver}
use flex1500d.RxStream.Complete.{
  is_completed, is_cancelled, submit_slot, retire_slot, rx_result, rx_complete, submit_status,
  note_inputs, status_result, status_complete,
}
use flex1500d.RxStream.Running.{Arrival, transfer_done, status_done, arrive, run_arrivals}
use flex1500d.RxStream.Slots.{
  set_bits, bit, Tracked, is_submitted, set_bits-clear, set_bits-set, Settled, settle, stays,
  rx_result-Settled,
}

module _ {F D W : Type 0} {c : Floats F D} (bus : Bus W) where
  note_inputs-Settled :
      (buffer : List ℕ) (r : RxReceiver c W) → Settled bus r (note_inputs bus buffer r)
  unfolding note_inputs decode_physical_inputs
  note_inputs-Settled [] r = settle bus r r _ (stays bus r) refl refl refl refl (λ k. k)
  note_inputs-Settled (status ∷ rest) r =
      settle bus r r _ (stays bus r) refl refl refl refl (λ k. k)

  status_result-Settled :
      (status : TransferStatus) (buffer : List ℕ) (r : RxReceiver c W)
      → Settled bus r (status_result bus status buffer r)
  unfolding status_result
  status_result-Settled status buffer r =
      either (Settled bus r) (is_completed status) _ _ (λ e. note_inputs-Settled buffer r)
        (λ e.
          either (Settled bus r) (not (is_cancelled status)) _ r
            (λ f. settle bus r r _ (stays bus r) refl refl refl refl (λ k. ground arith))
            (λ f. stays bus r))

  rx_complete-Tracked :
      (slot : ℕ) (status : TransferStatus) (packets : List Packet) (r : RxReceiver c W)
      → get_or r.submitted slot false ≡ true
      → Tracked r
      → Tracked (rx_complete bus slot status packets r)
  unfolding rx_complete retire_slot submit_slot
  rx_complete-Tracked slot status packets r e h =
      let r' = rx_result bus status packets (retire_slot bus slot r) in
      let s = rx_result-Settled bus (retire_slot bus slot r) status packets in
      let (a, b) = set_bits-clear r.submitted slot e in
      let x = ap set_bits s.submitted in
      let y = set_bits-set r'.submitted slot (ap (λ k. get_or k slot true) s.submitted ∙ b) in
      let z = ap bit s.status in
      let fine : Tracked r' = record { active = omega (arith, h.active, a, x, z, s.active) } in
      either Tracked (not r'.stopping && r'.running) _ r'
        (λ e.
          either Tracked (is_zero (bus.submit r'.world).0) _ _
            (λ f. record { active = omega (arith, fine.active, y) })
            (λ f. record { active = fine.active }))
        (λ e. fine)

  status_complete-Tracked :
      (status : TransferStatus) (buffer : List ℕ) (r : RxReceiver c W)
      → r.status_submitted ≡ true
      → Tracked r
      → Tracked (status_complete bus status buffer r)
  unfolding status_complete submit_status
  status_complete-Tracked status buffer r e h =
      let r0 = record r { status_submitted = false; active_transfers = r.active_transfers - 1 } in
      let r' = status_result bus status buffer r0 in
      let s = status_result-Settled status buffer r0 in
      let w = ap bit e in
      let x = ap set_bits s.submitted in
      let z = ap bit s.status in
      let fine : Tracked r' = record { active = omega (arith, h.active, w, x, z, s.active) } in
      either Tracked (not r'.stopping && r'.running) _ r'
        (λ e.
          either Tracked (is_zero (bus.submit r'.world).0) _ _
            (λ f. record { active = omega (arith, fine.active, z) })
            (λ f. record { active = fine.active }))
        (λ e. fine)

  -- Each completion is of a transfer that is under way when it comes.
  unfoldable pub AllSubmitted : List Arrival → RxReceiver c W → Type 0
  AllSubmitted [] r = Unit
  AllSubmitted (arrival ∷ arrivals) r =
      (is_submitted arrival r ≡ true) × AllSubmitted arrivals (arrive bus arrival r)

  -- Over any sequence of completions of transfers that are under way, `active_transfers` stays the
  -- number of the receive slots and the status transfer that are submitted.
  pub run_arrivals-Tracked :
      (arrivals : List Arrival) (r : RxReceiver c W)
      → AllSubmitted arrivals r
      → Tracked r
      → Tracked (run_arrivals bus arrivals r)
  unfolding run_arrivals arrive AllSubmitted is_submitted
  run_arrivals-Tracked [] r l h = h
  run_arrivals-Tracked (transfer_done slot status packets ∷ arrivals) r (e, l) h =
      run_arrivals-Tracked arrivals _ l (rx_complete-Tracked slot status packets r e h)
  run_arrivals-Tracked (status_done status buffer ∷ arrivals) r (e, l) h =
      run_arrivals-Tracked arrivals _ l (status_complete-Tracked status buffer r e h)

  -- What `flex1500_usb_rx_stop` does before it cancels what is submitted.
  unfoldable pub begin_stop : RxReceiver c W → RxReceiver c W
  begin_stop r = record r { stopping = true; running = false }

  -- Its wait, over the rounds of `libusb_handle_events` with their results and completions.
  unfoldable pub drain : List (ℤ × List Arrival) → RxReceiver c W → RxReceiver c W
  drain [] r = r
  drain ((result, arrivals) ∷ rounds) r =
      let r' = run_arrivals bus arrivals r in
      let later = drain rounds r' in
      if r.active_transfers == 0
      then r
      else if not (is_zero result) && not (is_interrupted result)
      then r'
      else later

  record Stopped (n : ℕ) (r : RxReceiver c W) : Type 0 where
    active : r.active_transfers ≡ n
    stopping : r.stopping ≡ true

  arrive-Stopped :
      (arrival : Arrival) (n : ℕ) (r : RxReceiver c W)
      → Stopped n r
      → Stopped (n - 1) (arrive bus arrival r)
  unfolding arrive rx_complete retire_slot status_complete
  arrive-Stopped (transfer_done slot status packets) n r h =
      let r' = rx_result bus status packets (retire_slot bus slot r) in
      let s = rx_result-Settled bus (retire_slot bus slot r) status packets in
      either (Stopped (n - 1)) (not r'.stopping && r'.running) _ r'
        (λ e. absurd (ground (arith, s.stopping, h.stopping)))
        (λ e. record {
          active = s.active ∙ ap (λ k. k - 1) h.active;
          stopping = s.stopping ∙ h.stopping;
        })
  arrive-Stopped (status_done status buffer) n r h =
      let r0 = record r { status_submitted = false; active_transfers = r.active_transfers - 1 } in
      let r' = status_result bus status buffer r0 in
      let s = status_result-Settled status buffer r0 in
      either (Stopped (n - 1)) (not r'.stopping && r'.running) _ r'
        (λ e. absurd (ground (arith, s.stopping, h.stopping)))
        (λ e. record {
          active = s.active ∙ ap (λ k. k - 1) h.active;
          stopping = s.stopping ∙ h.stopping;
        })

  run-Stopped :
      (arrivals : List Arrival) (n : ℕ) (r : RxReceiver c W)
      → Stopped n r
      → Stopped (n - length arrivals) (run_arrivals bus arrivals r)
  unfolding run_arrivals
  run-Stopped [] n r h = record { active = h.active ∙ omega arith; stopping = h.stopping }
  run-Stopped (arrival ∷ arrivals) n r h =
      let s = run-Stopped arrivals (n - 1) (arrive bus arrival r) (arrive-Stopped arrival n r h) in
      record { active = s.active ∙ omega arith; stopping = s.stopping }

-- The rounds that the wait continues after, and the completions in them.
unfoldable pub AllHandled : List (ℤ × List Arrival) → Type 0
AllHandled [] = Unit
AllHandled ((result, arrivals) ∷ rounds) =
    ((is_zero result || is_interrupted result) ≡ true) × AllHandled rounds

unfoldable pub completions : List (ℤ × List Arrival) → ℕ
completions [] = 0
completions ((result, arrivals) ∷ rounds) = length arrivals + completions rounds

module _ {F D W : Type 0} {c : Floats F D} (bus : Bus W) where
  drain-Stopped :
      (rounds : List (ℤ × List Arrival)) (n : ℕ) (r : RxReceiver c W)
      → Stopped bus n r
      → AllHandled rounds
      → n ≤ completions rounds
      → (drain bus rounds r).active_transfers ≡ 0
  unfolding drain AllHandled completions
  drain-Stopped [] n r s a h = s.active ∙ omega arith
  drain-Stopped ((result, arrivals) ∷ rounds) n r s (e, a) h =
      let later =
        drain-Stopped rounds (n - length arrivals) (run_arrivals bus arrivals r)
          (run-Stopped bus arrivals n r s) a (omega arith) in
      either (λ (t : RxReceiver c W). t.active_transfers ≡ 0) (r.active_transfers == 0) r _
        (λ f. ground arith)
        (λ f.
          either (λ (t : RxReceiver c W). t.active_transfers ≡ 0)
            (not (is_zero result) && not (is_interrupted result)) _ _ (λ g. absurd (ground arith))
            (λ g. later))

  -- The wait of a stop ends with no transfer under way, where libusb reports no error and delivers
  -- as many completions, in any order and with any outcome, as transfers were under way.
  pub stop_drains :
      (rounds : List (ℤ × List Arrival)) (r : RxReceiver c W)
      → AllHandled rounds
      → r.active_transfers ≤ completions rounds
      → (drain bus rounds (begin_stop bus r)).active_transfers ≡ 0
  unfolding begin_stop
  stop_drains rounds r a h =
      drain-Stopped rounds r.active_transfers _ record { active = refl; stopping = refl } a h
