-- ===== src/Publisher/Frames.antt =====
-- The sizes of the frames that src/publisher.c prepares.
use flex1500d.Base.{ℕ, ◌+◌, ◌*◌, ◌≤◌, ◌≡◌, refl, List, [], ◌∷◌, arith}
use flex1500d.Base.Lists.{length}
use flex1500d.IqRing.{available, pop}
use flex1500d.IqRing.Queue.{length-pop}
use flex1500d.Publisher.{
  Sample, zero_sample, encode_iq_frame, encode_samples, le32, be32, IqPublisher, frame_count,
}

pub length-encode_samples :
    (samples : List Sample) → length (encode_samples samples) ≡ length samples * 8
unfolding encode_samples le32
length-encode_samples [] = refl
length-encode_samples ((i, q) ∷ samples) = omega (arith, length-encode_samples samples)

-- A frame that fits takes 20 bytes and 8 for each sample.
length-encode_iq_frame :
    (sequence : ℕ) (samples : List Sample) (capacity : ℕ)
    → 20 + length samples * 8 ≤ capacity
    → length (encode_iq_frame sequence samples capacity) ≡ 20 + length samples * 8
unfolding encode_iq_frame be32
length-encode_iq_frame sequence samples capacity h = ground (arith, length-encode_samples samples)

popped :
    (p : IqPublisher) → length (pop zero_sample p.source (frame_count p)).0 ≤ p.samples_per_frame
unfolding available
popped p = ground (arith, length-pop zero_sample p.source (frame_count p))

pub fits :
    (p : IqPublisher)
    → p.samples_per_frame ≤ 256
    → 20 + length (pop zero_sample p.source (frame_count p)).0 * 8 ≤ 2068
fits p h = omega (arith, popped p)
