-- ===== src/Publisher/Reader.antt =====
-- What a client reads from the frames that src/publisher.c prepares. The reader is written from the
-- layout of the frame, apart from the encoder.
use Prim.Native.Nat.{min}
use mathlib.Core.Option.{Option, some, none}
use mathlib.Core.Path.{ap₂}
use flex1500d.Base.{
  ℕ, zero, suc, ◌+◌, ◌*◌, ◌/◌, ◌%◌, ◌<◌, ◌≤◌, ◌≡◌, refl, ap, sym, ◌∙◌, true, false, List, [], ◌∷◌,
  ◌++◌, ◌&&◌, if◌then◌else◌, ◌==◌, arith,
}
use flex1500d.Base.Lists.{length, get_or, take, drop}
use flex1500d.IqRing.{available, pop}
use flex1500d.IqRing.Queue.{length-pop, contents, contents-pop}
use flex1500d.Publisher.{
  Sample, zero_sample, encode_iq_frame, encode_samples, le32, be32, IqPublisher, frame_count,
  next_frame, prepare_frame, remaining,
}
use flex1500d.Publisher.Frames.{length-encode_samples, fits}

-- Four bytes as a number, high byte first.
abbrev pub be_value : List ℕ → ℕ
be_value b = get_or b 0 0 * 16777216 + get_or b 1 0 * 65536 + get_or b 2 0 * 256 + get_or b 3 0

-- Four bytes as a number, low byte first.
abbrev pub le_value : List ℕ → ℕ
le_value b = get_or b 3 0 * 16777216 + get_or b 2 0 * 65536 + get_or b 1 0 * 256 + get_or b 0 0

-- `count` samples of eight bytes.
unfoldable pub samples_of : ℕ → List ℕ → List Sample
samples_of zero b = []
samples_of (suc count) b = (le_value b, le_value (drop 4 b)) ∷ samples_of count (drop 8 b)

-- The sequence number, the rate and the samples of a frame: it begins with "F15I", version 1, format
-- 1 and the header's size of 20, and has as many bytes as its count asks for.
unfoldable pub read_frame : List ℕ → Option (ℕ × ℕ × List Sample)
read_frame b =
    if get_or b 0 0 == 70
      && get_or b 1 0 == 49
      && get_or b 2 0 == 53
      && get_or b 3 0 == 73
      && get_or b 4 0 == 1
      && get_or b 5 0 == 1
      && get_or b 6 0 * 256 + get_or b 7 0 == 20
      && length b == 20 + be_value (drop 16 b) * 8
    then some
        (be_value (drop 8 b), be_value (drop 12 b), samples_of (be_value (drop 16 b)) (drop 20 b))
    else none

-- Samples of two 32-bit patterns.
unfoldable pub ArePatterns : List Sample → Type 0
ArePatterns [] = Unit
ArePatterns ((i, q) ∷ samples) = i < 4294967296 × q < 4294967296 × ArePatterns samples

value_be :
    (v : ℕ)
    → v < 4294967296
    → v / 16777216 % 256 * 16777216 + v / 65536 % 256 * 65536 + v / 256 % 256 * 256 + v % 256 ≡ v
value_be v h = omega arith

samples_of-encode_samples :
    (samples : List Sample)
    → ArePatterns samples
    → samples_of (length samples) (encode_samples samples) ≡ samples
unfolding samples_of encode_samples le32 ArePatterns
samples_of-encode_samples [] h = refl
samples_of-encode_samples ((i, q) ∷ samples) (a, b, h) =
    ap₂ (λ x rest. x ∷ rest) (ap₂ (λ x y. (x, y)) (value_be i a) (value_be q b))
      (samples_of-encode_samples samples h)

-- The bytes of a frame that fits.
abbrev layout : ℕ → List Sample → List ℕ
layout sequence samples =
    (70 ∷ 49 ∷ 53 ∷ 73 ∷ 1 ∷ 1 ∷ 0 ∷ 20 ∷ [])
    ++ (be32 sequence ++ (be32 48000 ++ (be32 (length samples) ++ encode_samples samples)))

encode_iq_frame-layout :
    (sequence : ℕ) (samples : List Sample) (capacity : ℕ)
    → 20 + length samples * 8 ≤ capacity
    → encode_iq_frame sequence samples capacity ≡ layout sequence samples
unfolding encode_iq_frame
encode_iq_frame-layout sequence samples capacity h = ground arith

read_frame-layout :
    (sequence : ℕ) (samples : List Sample)
    → sequence < 4294967296
    → ArePatterns samples
    → length samples < 4294967296
    → read_frame (layout sequence samples) ≡ some (sequence, 48000, samples)
unfolding read_frame be32
read_frame-layout sequence samples s w l =
    rw
      (
        value_be sequence s,
        value_be (length samples) l,
        length-encode_samples samples,
        samples_of-encode_samples samples w,
      )
      (ground arith)

take_front : {A : Type 0} (xs ys : List A) → take (length xs) (xs ++ ys) ≡ xs
take_front [] ys = refl
take_front (x ∷ xs) ys = ap (λ k. x ∷ k) (take_front xs ys)

drop_front : {A : Type 0} (xs ys : List A) → drop (length xs) (xs ++ ys) ≡ ys
drop_front [] ys = refl
drop_front (x ∷ xs) ys = drop_front xs ys

front-ArePatterns : (xs ys : List Sample) → ArePatterns (xs ++ ys) → ArePatterns xs
unfolding ArePatterns
front-ArePatterns [] ys h = tt
front-ArePatterns ((i, q) ∷ xs) ys (a, b, h) = (a, b, front-ArePatterns xs ys h)

-- A frame takes the samples that wait, up to the frame's size.
frame_samples :
    (p : IqPublisher)
    → let n = min p.source.size p.samples_per_frame in
      let (samples, source) = pop zero_sample p.source (frame_count p) in
      length samples ≡ n
      × samples ≡ take n (contents zero_sample p.source)
      × contents zero_sample source ≡ drop n (contents zero_sample p.source)
unfolding available
frame_samples p =
    let n = min p.source.size p.samples_per_frame in
    let samples = (pop zero_sample p.source (frame_count p)).0 in
    let left = contents zero_sample (pop zero_sample p.source (frame_count p)).1 in
    let size = length-pop zero_sample p.source (frame_count p) ∙ counted in
    let whole = contents-pop zero_sample p.source (frame_count p) in
    (
      size,
      sym (take_front samples left) ∙ ap₂ (λ k xs. take k xs) size whole,
      sym (drop_front samples left) ∙ ap₂ (λ k xs. drop k xs) size whole,
    )
  where
    counted : available zero_sample p.source (frame_count p) ≡ min p.source.size p.samples_per_frame
    counted = ground arith

layout_filled :
    (sequence : ℕ) (samples : List Sample) → (length (layout sequence samples) == 0) ≡ false
layout_filled sequence samples = ground arith

next_frame-read_frame :
    (p : IqPublisher)
    → p.samples_per_frame ≤ 256
    → p.next_sequence < 4294967296
    → ArePatterns (contents zero_sample p.source)
    → let samples = (pop zero_sample p.source (frame_count p)).0 in
      let (ready, q) = next_frame p in
      ready ≡ true
      × read_frame (remaining q) ≡ some (p.next_sequence, 48000, samples)
      × q.pending_samples ≡ length samples
      × q.next_sequence ≡ (p.next_sequence + 1) % 4294967296
      × q.stats.frames_encoded ≡ (p.stats.frames_encoded + 1) % 18446744073709551616
      × q.source ≡ (pop zero_sample p.source (frame_count p)).1
unfolding next_frame remaining
next_frame-read_frame p h s w =
    let samples = (pop zero_sample p.source (frame_count p)).0 in
    let left = contents zero_sample (pop zero_sample p.source (frame_count p)).1 in
    rw
      (
        encode_iq_frame-layout p.next_sequence samples 2068 (fits p h),
        layout_filled p.next_sequence samples,
      )
      (
        refl,
        read_frame-layout p.next_sequence samples s
            (front-ArePatterns samples left
              (rw (contents-pop zero_sample p.source (frame_count p)) w))
            (omega (arith, fits p h)),
        refl,
        refl,
        refl,
        refl,
      )

prepare_frame-next_frame :
    (p : IqPublisher)
    → length p.pending ≤ p.pending_offset
    → 0 < p.source.size
    → prepare_frame p ≡ next_frame p
unfolding prepare_frame
prepare_frame-next_frame p a b = ground arith

-- Where no frame waits, the ring has samples, a frame has at most 256 of them, and the sequence number
-- and the samples are 32-bit words, a frame is prepared, and a client that reads it finds the next
-- sequence number, the rate of 48000 and the oldest samples of the ring, as many as there are or a
-- frame has; the ring keeps the others, and the sequence number and the count of frames go up by one,
-- modulo 2^32 and 2^64.
pub prepare_frame-read_frame :
    (p : IqPublisher)
    → p.samples_per_frame ≤ 256
    → length p.pending ≤ p.pending_offset
    → 0 < p.source.size
    → p.next_sequence < 4294967296
    → ArePatterns (contents zero_sample p.source)
    → let n = min p.source.size p.samples_per_frame in
      let (ready, q) = prepare_frame p in
      ready ≡ true
      × read_frame (remaining q)
        ≡ some (p.next_sequence, 48000, take n (contents zero_sample p.source))
      × contents zero_sample q.source ≡ drop n (contents zero_sample p.source)
      × q.pending_samples ≡ n
      × q.next_sequence ≡ (p.next_sequence + 1) % 4294967296
      × q.stats.frames_encoded ≡ (p.stats.frames_encoded + 1) % 18446744073709551616
prepare_frame-read_frame p h a b s w =
    let (size, front, left) = frame_samples p in
    let (ready, read, count, sequence, encoded, source) = next_frame-read_frame p h s w in
    rw (prepare_frame-next_frame p a b) (
      ready,
      read ∙ ap (λ k. some (p.next_sequence, 48000, k)) front,
      ap (λ k. contents zero_sample k) source ∙ left,
      count ∙ size,
      sequence,
      encoded,
    )
