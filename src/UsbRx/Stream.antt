-- ===== src/UsbRx/Stream.antt =====
-- The endpoint-0x01 stream of src/usb_rx.c: its slots, its events, its start and its release.
use flex1500d.Base.{
  ℕ, zero, suc, ◌+◌, ◌-◌, Bool, true, false, List, [], ◌∷◌, ◌&&◌, ◌||◌, not, if◌then◌else◌, ltb,
  ◌==◌,
}
use flex1500d.Base.Ints.{ℤ, is_zero}
use flex1500d.Base.Lists.{get_or, set, replicate}
use flex1500d.UsbRx.{
  UsbRx, Libusb, TuneSlot, empty_slot, Completion, slot_done, listener_lost, EventRound, success,
  error_io, error_no_mem, is_interrupted,
}

abbrev pub tune_transfer_count : ℕ
tune_transfer_count = 8

abbrev in_use : TuneSlot → Bool
in_use s = s.transfer || s.buffer || s.submitted

abbrev any_in_use : List TuneSlot → Bool
any_in_use [] = false
any_in_use (s ∷ rest) = in_use s || any_in_use rest

unfoldable pub tx_stream_present : {W : Type 0} → UsbRx W → Bool
tx_stream_present r = r.tune_streaming || ltb 0 r.active_tune_transfers || any_in_use r.tune_slots

-- A resubmission that succeeded, or did not.
unfoldable pub resubmit : {W : Type 0} → ℕ → Bool → ℕ → UsbRx W → UsbRx W
resubmit index resubmitted frames r =
    if resubmitted
    then record r {
      tune_slots = set r.tune_slots index (record (get_or r.tune_slots index empty_slot) {
        submitted = true;
        audio_frames = if r.microphone_streaming then frames else 0;
      });
      active_tune_transfers = r.active_tune_transfers + 1;
    }
    else record r { tune_streaming = false; running = false }

unfoldable pub tune_complete : {W : Type 0} → ℕ → Bool → Bool → ℕ → UsbRx W → UsbRx W
tune_complete index failed resubmitted frames r =
    let r' = record r {
      tune_slots =
          set r.tune_slots index
            (record (get_or r.tune_slots index empty_slot) { submitted = false; audio_frames = 0 });
      active_tune_transfers = r.active_tune_transfers - 1;
      tune_streaming = r.tune_streaming && not failed;
      running = r.running && not failed;
    } in
    if r'.tune_streaming && r'.running then resubmit index resubmitted frames r' else r'

unfoldable pub deliver : {W : Type 0} → List Completion → UsbRx W → UsbRx W
deliver [] r = r
deliver (slot_done index failed resubmitted frames ∷ rest) r =
    deliver rest (tune_complete index failed resubmitted frames r)
deliver (listener_lost ∷ rest) r = deliver rest (record r { running = false })

abbrev pub is_failure : ℤ → Bool
is_failure result = not (is_zero result) && not (is_interrupted result)

-- The loop of `service_usb_for` over the rounds before its deadline.
unfoldable pub serve_rounds : {W : Type 0} → List EventRound → UsbRx W → ℤ × UsbRx W
serve_rounds [] r = (success, r)
serve_rounds (q ∷ rest) r =
    let r' = deliver q.completions r in
    let later = serve_rounds rest r' in
    if is_failure q.result
    then (q.result, r')
    else if not r'.tune_streaming || not r'.running
    then (error_io, r')
    else later

-- The loop of `release_tune_stream`, which waits for the cancelled transfers.
unfoldable pub drain : {W : Type 0} → List EventRound → UsbRx W → UsbRx W
drain [] r = r
drain (q ∷ rest) r =
    let r' = deliver q.completions r in
    let later = drain rest r' in
    if r.active_tune_transfers == 0 then r else if is_failure q.result then r' else later

module _ {W : Type 0} (usb : Libusb W) where
  unfoldable pub service_usb_for : ℕ → UsbRx W → ℤ × UsbRx W
  service_usb_for duration_ms r =
      let (rounds, world) = usb.serve r.world duration_ms in
      serve_rounds rounds (record r { world = world })

  unfoldable pub release_tune_stream : UsbRx W → UsbRx W
  release_tune_stream r =
      let (rounds, world) = usb.serve r.world 5 in
      let r' = drain rounds (record r { world = world; tune_streaming = false }) in
      record r' {
        tune_slots = replicate tune_transfer_count empty_slot;
        active_tune_transfers = 0;
        microphone_streaming = false;
        microphone_capture_enabled = false;
        tx_accepting_audio = false;
      }

  -- The loop over the slots from `index` on, `left` of them.
  unfoldable pub open_slots : ℕ → ℕ → UsbRx W → ℤ × UsbRx W
  open_slots index zero r = (success, r)
  open_slots index (suc left) r =
      let (buffer, transfer, world) = usb.allocate r.world in
      let (result, world') = usb.submit world in
      let slot = record (get_or r.tune_slots index empty_slot) {
        buffer = buffer;
        transfer = transfer;
      } in
      let r' = record r { world = world; tune_slots = set r.tune_slots index slot } in
      let r'' = record r {
        world = world';
        tune_slots = set r.tune_slots index (record slot { submitted = true });
        active_tune_transfers = r.active_tune_transfers + 1;
      } in
      let later = open_slots (suc index) left r'' in
      if not (buffer && transfer)
      then (error_no_mem, release_tune_stream r')
      else if not (is_zero result)
      then (result, release_tune_stream (record r' { world = world' }))
      else later

  unfoldable pub start_tune_stream : Bool → UsbRx W → ℤ × UsbRx W
  start_tune_stream microphone r = open_slots 0 tune_transfer_count (record r {
    tune_streaming = true;
    microphone_streaming = microphone;
    tx_accepting_audio = microphone;
  })
