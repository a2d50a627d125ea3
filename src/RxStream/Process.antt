-- ===== src/RxStream/Process.antt =====
-- The sample conversion of src/iq.c, and what src/usb_rx.c does with a packet that arrived.
use flex1500d.Base.{ℕ, suc, ◌-◌, ◌/◌, Bool, true, List, [], ◌∷◌, ◌&&◌, if◌then◌else◌, ltb}
use flex1500d.Base.Ints.{ℤ, ltz, is_minus_one}
use flex1500d.Base.Words.{add64}
use flex1500d.Base.Lists.{length}
use flex1500d.IqRing.{push}
use flex1500d.Protocol.{decode_iq_frame}
use flex1500d.TxAudio.{Floats, Iq, zero_iq}
use flex1500d.TxAudio.Push.{push_iq16le}
use flex1500d.RxStream.{Bus, IqStats, DcBlocker, RxReceiver, frames_per_packet}

abbrev pub both_minus_one : ℤ → ℤ → Bool
both_minus_one i q = is_minus_one i && is_minus_one q

abbrev pub least : ℤ → ℤ → ℤ
least sample bound = if ltz sample bound then sample else bound

abbrev pub greatest : ℤ → ℤ → ℤ
greatest sample bound = if ltz bound sample then sample else bound

module _ {F D : Type 0} (c : Floats F D) where
  unfoldable pub update_stats : ℤ → ℤ → IqStats D → IqStats D
  update_stats i q s =
      let frames = add64 s.frames 1 in
      let sentinel_frames =
        if both_minus_one i q then add64 s.sentinel_frames 1 else s.sentinel_frames in
      if s.have_samples
      then record {
        frames = frames;
        sentinel_frames = sentinel_frames;
        min_i = least i s.min_i;
        max_i = greatest i s.max_i;
        min_q = least q s.min_q;
        max_q = greatest q s.max_q;
        mean_i = c.add_d s.mean_i (c.div_d (c.sub_d (c.of_int_d i) s.mean_i) (c.of_nat_d frames));
        mean_q = c.add_d s.mean_q (c.div_d (c.sub_d (c.of_int_d q) s.mean_q) (c.of_nat_d frames));
        have_samples = true;
      }
      else record {
        frames = frames;
        sentinel_frames = sentinel_frames;
        min_i = i;
        max_i = i;
        min_q = q;
        max_q = q;
        mean_i = c.of_int_d i;
        mean_q = c.of_int_d q;
        have_samples = true;
      }

  unfoldable pub block_dc : ℤ → ℤ → DcBlocker F → DcBlocker F
  block_dc i q b =
      if b.initialized
      then record b {
        estimate_i = c.add b.estimate_i (c.mul b.alpha (c.sub (c.of_int i) b.estimate_i));
        estimate_q = c.add b.estimate_q (c.mul b.alpha (c.sub (c.of_int q) b.estimate_q));
      }
      else record b { estimate_i = c.of_int i; estimate_q = c.of_int q; initialized = true }

  -- The loop of `flex1500_process_iq16le`, for a number of frames.
  unfoldable pub process_frames :
      ℕ → List ℕ → IqStats D → DcBlocker F → List (Iq F) × IqStats D × DcBlocker F
  process_frames (suc n) (i0 ∷ i1 ∷ q0 ∷ q1 ∷ bytes) stats blocker =
      let (i, q) = decode_iq_frame i0 i1 q0 q1 in
      let blocked = block_dc i q blocker in
      let (output, stats', blocker') = process_frames n bytes (update_stats i q stats) blocked in
      (
        record {
          i = c.sub (c.of_int i) blocked.estimate_i;
          q = c.sub (c.of_int q) blocked.estimate_q;
        }
            ∷ output,
        stats',
        blocker',
      )
  process_frames _ _ stats blocker = ([], stats, blocker)

  -- The frames written are as many as the result of `flex1500_process_iq16le`.
  unfoldable pub process_iq16le :
      List ℕ → ℕ → IqStats D → DcBlocker F → List (Iq F) × IqStats D × DcBlocker F
  process_iq16le bytes output_capacity stats blocker =
      process_frames
        (if ltb output_capacity (length bytes / 4) then output_capacity else length bytes / 4) bytes
        stats blocker

module _ {F D W : Type 0} {c : Floats F D} (bus : Bus W) where
  unfoldable pub elapsed_ms : RxReceiver c W → ℕ × RxReceiver c W
  elapsed_ms r =
      let (now, world) = bus.monotonic_ms r.world in
      ((if ltb now r.started_ms then 0 else now - r.started_ms), record r { world = world })

  -- A frame of two samples of -1.
  unfoldable pub note_sentinel : ℕ → RxReceiver c W → RxReceiver c W
  note_sentinel frame r =
      let (when, r') = elapsed_ms r in
      record r' {
        sentinel_seen = true;
        counters = record r'.counters {
          first_sentinel_frame =
              if r'.sentinel_seen then r'.counters.first_sentinel_frame else frame;
          first_sentinel_ms = if r'.sentinel_seen then r'.counters.first_sentinel_ms else when;
          last_sentinel_frame = frame;
          last_sentinel_ms = when;
        };
      }

  -- The scan of a packet for sentinels, from a frame number on.
  unfoldable pub scan_sentinels : ℕ → List ℕ → RxReceiver c W → RxReceiver c W
  scan_sentinels frame (i0 ∷ i1 ∷ q0 ∷ q1 ∷ bytes) r =
      let (i, q) = decode_iq_frame i0 i1 q0 q1 in
      scan_sentinels (add64 frame 1) bytes (if both_minus_one i q then note_sentinel frame r else r)
  scan_sentinels frame _ r = r

  -- The conversion of a packet, and its samples pushed to the ring.
  unfoldable pub receive_samples : List ℕ → RxReceiver c W → RxReceiver c W
  receive_samples bytes r =
      let (samples, stats, blocker) =
        process_iq16le c bytes frames_per_packet r.iq_stats r.dc_blocker in
      record r {
        iq_stats = stats;
        dc_blocker = blocker;
        destination = (push (zero_iq c) r.destination samples).1;
      }

  unfoldable pub process_packet : List ℕ → RxReceiver c W → RxReceiver c W
  process_packet bytes r =
      if r.microphone_streaming
      then (if r.microphone_capture_enabled && r.tx_accepting_audio
          then record r { microphone_stream = (push_iq16le c bytes r.microphone_stream).1 }
          else r)
      else receive_samples bytes (scan_sentinels r.iq_stats.frames bytes r)
