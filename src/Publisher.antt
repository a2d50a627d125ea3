-- ===== src/Publisher.antt =====
-- `flex1500_encode_iq_frame` of src/network.c and the publisher of src/publisher.c. A sample is
-- the pair of its two 32-bit patterns, so that no float is computed with. The writer is the
-- caller's, over a context of its own; a result other than the five named ones is an error.
pub mod Frames
pub mod Reader
pub mod Stream
mod Tests
use mathlib.Core.Option.{Option, some, none}
use flex1500d.Base.{
  ℕ, ◌+◌, ◌-◌, ◌*◌, ◌/◌, ◌%◌, Bool, true, false, List, [], ◌∷◌, ◌++◌, ◌&&◌, ◌||◌, not,
  if◌then◌else◌, ltb, ◌==◌,
}
use flex1500d.Base.Lists.{length, drop}
use flex1500d.Base.Words.{add64, add32}
use flex1500d.IqRing.{IqRing, pop}

abbrev pub Sample : Type 0
Sample = ℕ × ℕ

abbrev pub zero_sample : Sample
zero_sample = (0, 0)

abbrev pub header_size : ℕ
header_size = 20

abbrev pub max_samples : ℕ
max_samples = 256

abbrev pub buffer_size : ℕ
buffer_size = 20 + 256 * 8

-- The four bytes of `store_be32`.
unfoldable pub be32 : ℕ → List ℕ
be32 v = v / 16777216 % 256 ∷ v / 65536 % 256 ∷ v / 256 % 256 ∷ v % 256 ∷ []

-- The four bytes of `store_f32le`.
unfoldable pub le32 : ℕ → List ℕ
le32 v = v % 256 ∷ v / 256 % 256 ∷ v / 65536 % 256 ∷ v / 16777216 % 256 ∷ []

unfoldable pub encode_samples : List Sample → List ℕ
encode_samples [] = []
encode_samples ((i, q) ∷ samples) = le32 i ++ (le32 q ++ encode_samples samples)

-- The bytes written, none where the result is 0. The header is "F15I", the version, the format,
-- its own size in two bytes, the sequence, the rate and the count.
unfoldable pub encode_iq_frame : ℕ → List Sample → ℕ → List ℕ
encode_iq_frame sequence samples capacity =
    if ltb capacity (header_size + length samples * 8)
    then []
    else (70 ∷ 49 ∷ 53 ∷ 73 ∷ 1 ∷ 1 ∷ 0 ∷ 20 ∷ [])
      ++ (be32 sequence ++ (be32 48000 ++ (be32 (length samples) ++ encode_samples samples)))

pub data PublishResult : Type 0 where
  ok : PublishResult
  empty : PublishResult
  would_block : PublishResult
  disconnected : PublishResult
  error : PublishResult

pub record PublisherStats : Type 0 where
  pub frames_encoded : ℕ
  pub frames_sent : ℕ
  pub samples_sent : ℕ
  pub would_block_events : ℕ
  pub disconnects : ℕ
  pub write_errors : ℕ

-- `pending` is the first `pending_length` bytes of the buffer.
pub record IqPublisher : Type 0 where
  pub source : IqRing zero_sample
  pub next_sequence : ℕ
  pub samples_per_frame : ℕ
  pub pending : List ℕ
  pub pending_offset : ℕ
  pub pending_samples : ℕ
  pub stats : PublisherStats

abbrev pub zero_stats : PublisherStats
zero_stats = record {
  frames_encoded = 0;
  frames_sent = 0;
  samples_sent = 0;
  would_block_events = 0;
  disconnects = 0;
  write_errors = 0;
}

-- The publisher, where the size of its frames is accepted.
unfoldable pub init : IqRing zero_sample → ℕ → Option IqPublisher
init source samples_per_frame =
    if samples_per_frame == 0 || ltb max_samples samples_per_frame
    then none
    else some record {
      source = source;
      next_sequence = 0;
      samples_per_frame = samples_per_frame;
      pending = [];
      pending_offset = 0;
      pending_samples = 0;
      stats = zero_stats;
    }

abbrev pub frame_count : IqPublisher → ℕ
frame_count p = if ltb p.source.size p.samples_per_frame then p.source.size else p.samples_per_frame

-- What `prepare_frame` does where no frame is pending and the ring has samples.
unfoldable pub next_frame : IqPublisher → Bool × IqPublisher
next_frame p =
    let (samples, source) = pop zero_sample p.source (frame_count p) in
    let frame = encode_iq_frame p.next_sequence samples buffer_size in
    if length frame == 0 then (false, record p { source = source; pending = [] }) else (
      true,
      record p {
        source = source;
        pending = frame;
        pending_offset = 0;
        pending_samples = length samples;
        next_sequence = add32 p.next_sequence 1;
        stats = record p.stats { frames_encoded = add64 p.stats.frames_encoded 1 };
      },
    )

unfoldable pub prepare_frame : IqPublisher → Bool × IqPublisher
prepare_frame p =
    if ltb p.pending_offset (length p.pending)
    then (true, p)
    else if p.source.size == 0
    then (false, p)
    else next_frame p

unfoldable pub disconnect : IqPublisher → IqPublisher
disconnect p = record p { pending = []; pending_offset = 0; pending_samples = 0 }

-- The bytes that wait, from the offset on.
unfoldable pub remaining : IqPublisher → List ℕ
remaining p = drop p.pending_offset p.pending

unfoldable pub note_would_block : IqPublisher → IqPublisher
note_would_block p = record p {
  stats = record p.stats { would_block_events = add64 p.stats.would_block_events 1 };
}

unfoldable pub note_disconnect : IqPublisher → IqPublisher
note_disconnect p =
    disconnect (record p { stats = record p.stats { disconnects = add64 p.stats.disconnects 1 } })

unfoldable pub note_error : IqPublisher → IqPublisher
note_error p = record p { stats = record p.stats { write_errors = add64 p.stats.write_errors 1 } }

-- The end of `pump`, after the writer took `written` bytes.
unfoldable pub advance : IqPublisher → ℕ → IqPublisher
advance p written =
    let p' = record p { pending_offset = p.pending_offset + written } in
    if not (p.pending_offset + written == length p.pending) then p' else record p {
      stats = record p.stats {
        frames_sent = add64 p.stats.frames_sent 1;
        samples_sent = add64 p.stats.samples_sent p.pending_samples;
      };
      pending = [];
      pending_offset = 0;
      pending_samples = 0;
    }

-- `pump` after the call of the writer on a prepared publisher.
unfoldable pub settle : IqPublisher → PublishResult → ℕ → PublishResult × IqPublisher
settle p would_block written = (would_block, note_would_block p)
settle p disconnected written = (disconnected, note_disconnect p)
settle p ok written =
    if written == 0 || ltb (length (remaining p)) written
    then (error, note_error p)
    else (ok, advance p written)
settle p empty written = (error, note_error p)
settle p error written = (error, note_error p)

module _ {W : Type 0} (writer : W → List ℕ → PublishResult × ℕ × W) where
  unfoldable pub pump : IqPublisher → W → PublishResult × IqPublisher × W
  pump p w =
      let (ready, p') = prepare_frame p in
      let (result, written, w') = writer w (remaining p') in
      let (settled, p'') = settle p' result written in
      if not ready then (empty, p', w) else (settled, p'', w')
