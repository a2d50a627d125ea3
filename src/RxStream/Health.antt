-- ===== src/RxStream/Health.antt =====
-- When src/usb_rx.c gives the receive stream up: at the eighth failed transfer in a row.
use flex1500d.Base.{
  either, ℕ, ◌+◌, ◌<◌, Bool, true, false, not, List, [], ◌∷◌, ◌&&◌, ltb, ◌≡◌, ap, ◌∙◌, arith,
}
use flex1500d.Base.Ints.{is_zero}
use flex1500d.Base.Words.{u32_mod}
use flex1500d.Base.Lists.{length}
use flex1500d.TxAudio.{Floats}
use flex1500d.RxStream.{TransferStatus, Bus, RxReceiver}
use flex1500d.RxStream.Process.{elapsed_ms}
use flex1500d.RxStream.Complete.{
  is_completed, is_cancelled, mark_error_event, classify_transfer_status, failed_transfer,
  submit_slot, retire_slot, rx_result, rx_complete,
}
use flex1500d.RxStream.Running.{Arrival, transfer_done, status_done, arrive, run_arrivals}

-- A completion of a receive transfer that failed.
unfoldable pub is_failure : Arrival → Bool
is_failure (transfer_done slot status packets) =
    not (is_completed status) && not (is_cancelled status)
is_failure (status_done status buffer) = false

unfoldable pub AllFailures : List Arrival → Type 0
AllFailures [] = Unit
AllFailures (arrival ∷ arrivals) = (is_failure arrival ≡ true) × AllFailures arrivals

module _ {F D W : Type 0} {c : Floats F D} (bus : Bus W) where
  record Failing (n : ℕ) (r : RxReceiver c W) : Type 0 where
    failures : r.consecutive_transfer_failures ≡ n
    running : r.running ≡ ltb n 8

  failed_transfer-Failing :
      (status : TransferStatus) (n : ℕ) (r : RxReceiver c W)
      → n + 1 < u32_mod
      → Failing n r
      → Failing (n + 1) (failed_transfer bus status r)
  unfolding failed_transfer classify_transfer_status mark_error_event elapsed_ms
  failed_transfer-Failing status n r l h = record {
    failures = omega (arith, h.failures);
    running = ground (arith, h.failures, h.running);
  }

  arrive-Failing :
      (arrival : Arrival) (n : ℕ) (r : RxReceiver c W)
      → ((w : W) → is_zero (bus.submit w).0 ≡ true)
      → is_failure arrival ≡ true
      → n + 1 < u32_mod
      → Failing n r
      → Failing (n + 1) (arrive bus arrival r)
  unfolding arrive is_failure rx_complete rx_result retire_slot submit_slot
  arrive-Failing (transfer_done slot status packets) n r ok e l h =
      let r0 = retire_slot bus slot r in
      let f =
        failed_transfer-Failing status n r0 l
          record { failures = h.failures; running = h.running } in
      let r' = rx_result bus status packets r0 in
      let k : Failing (n + 1) r' =
        either (Failing (n + 1)) (is_completed status) _ _ (λ i. absurd (ground arith))
          (λ i.
            either (Failing (n + 1)) (not (is_cancelled status)) _ r0 (λ j. f)
              (λ j. absurd (ground arith))) in
      either (Failing (n + 1)) (not r'.stopping && r'.running) _ r'
        (λ i.
          either (Failing (n + 1)) (is_zero (bus.submit r'.world).0) _ _
            (λ j. record { failures = k.failures; running = k.running })
            (λ j. absurd (ground (arith, ok r'.world))))
        (λ i. k)
  arrive-Failing (status_done status buffer) n r ok e l h = absurd (ground arith)

  run-Failing :
      (arrivals : List Arrival) (n : ℕ) (r : RxReceiver c W)
      → ((w : W) → is_zero (bus.submit w).0 ≡ true)
      → AllFailures arrivals
      → n + length arrivals < u32_mod
      → Failing n r
      → (run_arrivals bus arrivals r).running ≡ ltb (n + length arrivals) 8
  unfolding run_arrivals AllFailures
  run-Failing [] n r ok e l h = h.running ∙ ap (λ k. ltb k 8) (omega arith)
  run-Failing (arrival ∷ arrivals) n r ok (e, es) l h =
      run-Failing arrivals (n + 1) (arrive bus arrival r) ok es (omega arith)
        (arrive-Failing arrival n r ok e (omega arith) h)
      ∙ ap (λ k. ltb k 8) (omega arith)

  -- A receiver that runs and has no failure behind it runs after a sequence of failed transfers
  -- exactly when they are fewer than eight, where libusb takes every transfer that is submitted
  -- again and there are fewer than 2^32.
  pub failures_give_up :
      (arrivals : List Arrival) (r : RxReceiver c W)
      → ((w : W) → is_zero (bus.submit w).0 ≡ true)
      → AllFailures arrivals
      → length arrivals < u32_mod
      → r.consecutive_transfer_failures ≡ 0
      → r.running ≡ true
      → (run_arrivals bus arrivals r).running ≡ ltb (length arrivals) 8
  failures_give_up arrivals r ok e l f h =
      run-Failing arrivals 0 r ok e (omega arith) record { failures = f; running = h }
      ∙ ap (λ k. ltb k 8) (omega arith)
