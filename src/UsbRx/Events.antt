-- ===== src/UsbRx/Events.antt =====
-- What the events of src/usb_rx.c leave alone: a view of the receiver that reads neither the slots
-- nor the fields `active_tune_transfers`, `tune_streaming` and `running`.
use flex1500d.Base.{
  ℕ, zero, suc, ◌≡◌, refl, ◌∙◌, Bool, true, false, List, [], ◌∷◌, ◌&&◌, not, Bool-cases, inl, inr,
  arith,
}
use flex1500d.Base.Ints.{is_zero}
use flex1500d.UsbRx.{UsbRx, Libusb, TuneSlot, EventRound, Completion, slot_done, listener_lost}
use flex1500d.UsbRx.Stream.{
  tune_complete, resubmit, deliver, serve_rounds, drain, service_usb_for, release_tune_stream,
  open_slots, start_tune_stream,
}

-- The fields that the stream's start, events and release write.
abbrev with_stream :
    {W : Type 0}
    → W
    → List TuneSlot
    → ℕ
    → (streaming running microphone capture accepting : Bool) → UsbRx W
    → UsbRx W
with_stream world slots active streaming running microphone capture accepting r = record r {
  world = world;
  tune_slots = slots;
  active_tune_transfers = active;
  tune_streaming = streaming;
  running = running;
  microphone_streaming = microphone;
  microphone_capture_enabled = capture;
  tx_accepting_audio = accepting;
}

module _ {W A : Type 0} (view : UsbRx W → A) where
  -- The view reads none of them.
  unfoldable pub IsBlind : Type 0
  IsBlind =
      (world : W) (slots : List TuneSlot) (active : ℕ)
      (streaming running microphone capture accepting : Bool) (r : UsbRx W)
      → view (with_stream world slots active streaming running microphone capture accepting r)
        ≡ view r

  module _ (blind : IsBlind) where
    tune_complete-kept :
        (i : ℕ) (x y : Bool) (n : ℕ) (r : UsbRx W) → view (tune_complete i x y n r) ≡ view r
    unfolding tune_complete resubmit IsBlind
    tune_complete-kept i x true n r =
        elim (Bool-cases (r.tune_streaming && not x && (r.running && not x))) [
          | inl e ↦ rw e (blind _ _ _ _ _ _ _ _ r)
          | inr e ↦ rw e (blind _ _ _ _ _ _ _ _ r)
        ]
    tune_complete-kept i x false n r =
        elim (Bool-cases (r.tune_streaming && not x && (r.running && not x))) [
          | inl e ↦ rw e (blind _ _ _ _ _ _ _ _ r)
          | inr e ↦ rw e (blind _ _ _ _ _ _ _ _ r)
        ]

    deliver-kept : (cs : List Completion) (r : UsbRx W) → view (deliver cs r) ≡ view r
    unfolding deliver IsBlind
    deliver-kept [] r = refl
    deliver-kept (slot_done i x y n ∷ cs) r =
        deliver-kept cs (tune_complete i x y n r) ∙ tune_complete-kept i x y n r
    deliver-kept (listener_lost ∷ cs) r =
        deliver-kept cs (record r { running = false }) ∙ blind _ _ _ _ _ _ _ _ r

    pub serve_rounds-kept :
        (qs : List EventRound) (r : UsbRx W) → view (serve_rounds qs r).1 ≡ view r
    unfolding serve_rounds
    serve_rounds-kept [] r = refl
    serve_rounds-kept (q ∷ qs) r =
        ground (arith, deliver-kept q.completions r, serve_rounds-kept qs (deliver q.completions r))

    drain-kept : (qs : List EventRound) (r : UsbRx W) → view (drain qs r) ≡ view r
    unfolding drain
    drain-kept [] r = refl
    drain-kept (q ∷ qs) r =
        ground (arith, deliver-kept q.completions r, drain-kept qs (deliver q.completions r))

    module _ (usb : Libusb W) where
      pub service-kept : (n : ℕ) (r : UsbRx W) → view (service_usb_for usb n r).1 ≡ view r
      unfolding service_usb_for IsBlind
      service-kept n r =
          serve_rounds-kept (usb.serve r.world n).0 (record r { world = (usb.serve r.world n).1 })
          ∙ blind _ _ _ _ _ _ _ _ r

      pub release-kept : (r : UsbRx W) → view (release_tune_stream usb r) ≡ view r
      unfolding release_tune_stream IsBlind
      release-kept r =
          let r' = record r { world = (usb.serve r.world 5).1; tune_streaming = false } in
          blind _ _ _ _ _ _ _ _ (drain (usb.serve r.world 5).0 r')
          ∙ drain-kept (usb.serve r.world 5).0 r'
          ∙ blind _ _ _ _ _ _ _ _ r

      open_slots-kept : (i n : ℕ) (r : UsbRx W) → view (open_slots usb i n r).1 ≡ view r
      unfolding open_slots IsBlind
      open_slots-kept i zero r = refl
      open_slots-kept i (suc n) r =
          let (buffer, transfer, world) = usb.allocate r.world in
          elim (Bool-cases (not (buffer && transfer))) [
            | inl e ↦ rw e (release-kept _ ∙ blind _ _ _ _ _ _ _ _ r)
            | inr e ↦ elim (Bool-cases (not (is_zero (usb.submit world).0))) [
              | inl f ↦ rw (e, f) (release-kept _ ∙ blind _ _ _ _ _ _ _ _ r)
              | inr f ↦ rw (e, f) (open_slots-kept (suc i) n _ ∙ blind _ _ _ _ _ _ _ _ r)
            ]
          ]

      pub start_tune_stream-kept :
          (m : Bool) (r : UsbRx W) → view (start_tune_stream usb m r).1 ≡ view r
      unfolding start_tune_stream IsBlind
      start_tune_stream-kept m r =
          open_slots-kept 0 8
            (record r { tune_streaming = true; microphone_streaming = m; tx_accepting_audio = m })
          ∙ blind _ _ _ _ _ _ _ _ r
