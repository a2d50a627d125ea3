-- ===== src/Publisher/Tests.antt =====
-- A run of src/publisher.c, and its theorems at that run.
use flex1500d.Base.{ℕ, ◌+◌, ◌≡◌, refl, true, List, [], ◌∷◌, arith}
use flex1500d.IqRing.{IqRing, pop, available, read_samples}
use flex1500d.IqRing.Queue.{contents}
use flex1500d.Publisher.{
  zero_sample, IqPublisher, PublishResult, ok, zero_stats, encode_iq_frame, prepare_frame,
  next_frame, remaining, pump, encode_samples, le32, be32,
}
use mathlib.Core.Option.{some}
use flex1500d.Publisher.Reader.{ArePatterns, read_frame, prepare_frame-read_frame}
use flex1500d.Publisher.Stream.{Moves, pump-Moves}

-- Two samples in a ring of two.
abbrev ring : IqRing zero_sample
ring = record {
  samples = (1, 2) ∷ (3, 4) ∷ [];
  capacity = 2;
  read_index = 0;
  size = 2;
  dropped = 0;
}

abbrev publisher : IqPublisher
publisher = record {
  source = ring;
  next_sequence = 7;
  samples_per_frame = 1;
  pending = [];
  pending_offset = 0;
  pending_samples = 0;
  stats = zero_stats;
}

-- A socket that takes at most 16 bytes of each write and counts the writes.
abbrev short_writer : ℕ → List ℕ → PublishResult × ℕ × ℕ
short_writer writes bytes = (ok, 16, writes + 1)

ring-ArePatterns : ArePatterns (contents zero_sample ring)
unfolding ArePatterns contents read_samples
ring-ArePatterns = (omega arith, omega arith, (omega arith, omega arith, tt))

publisher_frame :
    (prepare_frame publisher).0 ≡ true
    × read_frame (remaining (prepare_frame publisher).1) ≡ some (7, 48000, (1, 2) ∷ [])
    × contents zero_sample (prepare_frame publisher).1.source ≡ (3, 4) ∷ []
    × (prepare_frame publisher).1.pending_samples ≡ 1
    × (prepare_frame publisher).1.next_sequence ≡ 8
    × (prepare_frame publisher).1.stats.frames_encoded ≡ 1
unfolding contents read_samples
publisher_frame =
    prepare_frame-read_frame publisher (omega arith) (omega arith) (omega arith) (omega arith)
      ring-ArePatterns

publisher_ready : (prepare_frame publisher).0 ≡ true
publisher_ready = publisher_frame.0

publisher-Moves :
    Moves
      (remaining (prepare_frame publisher).1)
      ok
      16
      (pump short_writer publisher 0).0
      (remaining (pump short_writer publisher 0).1)
    × (pump short_writer publisher 0).2 ≡ 1
publisher-Moves = pump-Moves short_writer publisher 0 publisher_ready

frame_bytes :
    remaining (prepare_frame publisher).1
    ≡ 70 ∷ 49 ∷ 53 ∷ 73 ∷ 1 ∷ 1 ∷ 0 ∷ 20 ∷ 0 ∷ 0 ∷ 0 ∷ 7 ∷ 0 ∷ 0 ∷ 187 ∷ 128 ∷ 0 ∷ 0 ∷ 0 ∷ 1 ∷ 1 ∷ 0
      ∷ 0 ∷ 0 ∷ 2 ∷ 0 ∷ 0 ∷ 0 ∷ []
unfolding remaining prepare_frame next_frame encode_iq_frame encode_samples le32 be32 pop available
    read_samples
frame_bytes = refl
