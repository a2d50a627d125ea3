-- ===== src/RxStream/Bytes.antt =====
-- The byte counters of src/usb_rx.c: while the receiver receives, every byte that arrives is in a
-- sample frame or counted as trailing, and every byte that does not is counted as missing.
use flex1500d.Base.{
  either, ℕ, zero, suc, ◌+◌, ◌-◌, ◌*◌, ◌/◌, ◌%◌, ◌≤◌, false, List, [], ◌∷◌, ltb, ◌==◌, ◌≡◌, refl,
  ap, ◌∙◌, arith, Bool-cases, inl, inr,
}
use flex1500d.Base.Ints.{ℤ}
use flex1500d.Base.Words.{u64_mod, add64}
use flex1500d.Base.Lists.{length}
use flex1500d.Protocol.{decode_iq_frame}
use flex1500d.TxAudio.{Floats}
use flex1500d.RxStream.{Bus, RxReceiver, IqStats, DcBlocker, packet_size, frames_per_packet}
use flex1500d.RxStream.Process.{
  update_stats, block_dc, process_frames, process_iq16le, elapsed_ms, note_sentinel, scan_sentinels,
  receive_samples, process_packet,
}
use flex1500d.RxStream.Complete.{
  mark_error_event, check_length, count_packet, count_trailing, arrived_packet,
}
use flex1500d.RxStream.Running.{scan_sentinels-Keeps}

module _ {F D : Type 0} (c : Floats F D) where
  frames-update_stats : (s : IqStats D) (i q : ℤ) → (update_stats c i q s).frames ≡ add64 s.frames 1
  unfolding update_stats
  frames-update_stats s i q = elim (Bool-cases s.have_samples) [ inl e ↦ rw e | inr e ↦ rw e ]

  frames-process_frames :
      (n : ℕ) (bytes : List ℕ) (s : IqStats D) (b : DcBlocker F)
      → n ≤ length bytes / 4
      → (process_frames c n bytes s b).1.frames % u64_mod ≡ (s.frames + n) % u64_mod
  unfolding process_frames
  frames-process_frames zero bytes s b h = ap (λ k. k % u64_mod) (omega arith)
  frames-process_frames (suc n) [] s b h = absurd (omega arith)
  frames-process_frames (suc n) (i ∷ []) s b h = absurd (omega arith)
  frames-process_frames (suc n) (i ∷ j ∷ []) s b h = absurd (omega arith)
  frames-process_frames (suc n) (i ∷ j ∷ k ∷ []) s b h = absurd (omega arith)
  frames-process_frames (suc n) (i0 ∷ i1 ∷ q0 ∷ q1 ∷ bytes) s b h =
      let (i, q) = decode_iq_frame i0 i1 q0 q1 in
      omega (
        arith,
        frames-process_frames n bytes (update_stats c i q s) (block_dc c i q b) (omega arith),
        frames-update_stats s i q,
      )

  frames-process_iq16le :
      (bytes : List ℕ) (s : IqStats D) (b : DcBlocker F)
      → length bytes ≤ packet_size
      → (process_iq16le c bytes frames_per_packet s b).1.frames % u64_mod
        ≡ (s.frames + length bytes / 4) % u64_mod
  unfolding process_iq16le
  frames-process_iq16le bytes s b h = elim (Bool-cases (ltb frames_per_packet (length bytes / 4))) [
    | inl e ↦ absurd (ground arith)
    | inr e ↦ rw e (frames-process_frames (length bytes / 4) bytes s b (omega arith))
  ]

module _ {F D W : Type 0} {c : Floats F D} (bus : Bus W) where
  -- The receiver after is the one before in what is counted of bytes and frames.
  record Like (r r' : RxReceiver c W) : Type 0 where
    bytes : r'.counters.bytes ≡ r.counters.bytes
    packets : r'.counters.usb_packets ≡ r.counters.usb_packets
    missing : r'.counters.missing_bytes ≡ r.counters.missing_bytes
    trailing : r'.counters.trailing_bytes ≡ r.counters.trailing_bytes
    frames : r'.iq_stats.frames ≡ r.iq_stats.frames
    streaming : r'.microphone_streaming ≡ r.microphone_streaming

  abbrev same_counts : (r : RxReceiver c W) → Like r r
  same_counts r = record {
    bytes = refl;
    packets = refl;
    missing = refl;
    trailing = refl;
    frames = refl;
    streaming = refl;
  }

  note_sentinel-Like :
      (r : RxReceiver c W) (frame : ℕ) (r' : RxReceiver c W)
      → Like r r'
      → Like r (note_sentinel bus frame r')
  unfolding note_sentinel elapsed_ms
  note_sentinel-Like r frame r' h = record {
    bytes = h.bytes;
    packets = h.packets;
    missing = h.missing;
    trailing = h.trailing;
    frames = h.frames;
    streaming = h.streaming;
  }

  -- What a receiver that receives samples has counted.
  pub record Counted (r : RxReceiver c W) : Type 0 where
    pub streaming : r.microphone_streaming ≡ false
    pub whole :
        (r.counters.bytes + r.counters.missing_bytes) % u64_mod
        ≡ (192 * r.counters.usb_packets) % u64_mod
    pub framed :
        r.counters.bytes % u64_mod ≡ (4 * r.iq_stats.frames + r.counters.trailing_bytes) % u64_mod

  -- A receiver that has `n` bytes to convert.
  record Pending (n : ℕ) (r : RxReceiver c W) : Type 0 where
    streaming : r.microphone_streaming ≡ false
    whole :
        (r.counters.bytes + r.counters.missing_bytes) % u64_mod
        ≡ (192 * r.counters.usb_packets) % u64_mod
    framed :
        r.counters.bytes % u64_mod
        ≡ (4 * r.iq_stats.frames + 4 * (n / 4) + r.counters.trailing_bytes) % u64_mod

  process_packet-Counted :
      (bytes : List ℕ) (r : RxReceiver c W)
      → length bytes ≤ packet_size
      → Pending (length bytes) r
      → Counted (process_packet bus bytes r)
  unfolding process_packet receive_samples
  process_packet-Counted bytes r l h =
      let r' = scan_sentinels bus r.iq_stats.frames bytes r in
      let s =
        scan_sentinels-Keeps bus (Like r) (note_sentinel-Like r) r.iq_stats.frames bytes r
          (same_counts r) in
      let f = frames-process_iq16le c bytes r'.iq_stats r'.dc_blocker l in
      either Counted r.microphone_streaming _ _ (λ e. absurd (ground (arith, h.streaming)))
        (λ e. record {
          streaming = s.streaming ∙ h.streaming;
          whole = omega (arith, s.bytes, s.missing, s.packets, h.whole);
          framed = omega (arith, s.bytes, s.trailing, s.frames, f, h.framed);
        })

  -- The length check of a packet that fits adds the bytes that are missing.
  record Checked (n : ℕ) (r r' : RxReceiver c W) : Type 0 where
    bytes : r'.counters.bytes ≡ r.counters.bytes
    packets : r'.counters.usb_packets ≡ r.counters.usb_packets
    missing :
        r'.counters.missing_bytes % u64_mod
        ≡ (r.counters.missing_bytes + (packet_size - n)) % u64_mod
    trailing : r'.counters.trailing_bytes ≡ r.counters.trailing_bytes
    frames : r'.iq_stats.frames ≡ r.iq_stats.frames
    streaming : r'.microphone_streaming ≡ r.microphone_streaming

  check_length-Checked :
      (n : ℕ) (r : RxReceiver c W) → n ≤ packet_size → Checked n r (check_length bus n r)
  unfolding check_length mark_error_event elapsed_ms
  check_length-Checked n r h =
      either (Checked n r) (n == 0) _ _
        (λ e. record {
          bytes = refl;
          packets = refl;
          missing = ground arith;
          trailing = refl;
          frames = refl;
          streaming = refl;
        })
        (λ e.
          either (Checked n r) (ltb n packet_size) _ _
            (λ f. record {
              bytes = refl;
              packets = refl;
              missing = omega arith;
              trailing = refl;
              frames = refl;
              streaming = refl;
            })
            (λ f.
              either (Checked n r) (ltb packet_size n) _ r (λ g. absurd (ground arith))
                (λ g. record {
                  bytes = refl;
                  packets = refl;
                  missing = ground arith;
                  trailing = refl;
                  frames = refl;
                  streaming = refl;
                })))

  pub arrived_packet-Counted :
      (payload : List ℕ) (r : RxReceiver c W)
      → length payload ≤ packet_size
      → Counted r
      → Counted (arrived_packet bus payload r)
  unfolding arrived_packet count_packet count_trailing
  arrived_packet-Counted payload r l h =
      let n = length payload in
      let x = check_length-Checked n (count_packet bus n r) l in
      let y = count_trailing bus n (check_length bus n (count_packet bus n r)) in
      either Counted (ltb 0 n) (process_packet bus payload y) y
        (λ e. process_packet-Counted payload y l record {
          streaming = x.streaming ∙ h.streaming;
          whole = omega (arith, x.bytes, x.packets, x.missing, h.whole);
          framed = omega (arith, x.bytes, x.trailing, x.frames, h.framed);
        })
        (λ e. record {
          streaming = x.streaming ∙ h.streaming;
          whole = omega (arith, x.bytes, x.packets, x.missing, h.whole);
          framed = ground (arith, x.bytes, x.trailing, x.frames, h.framed);
        })
