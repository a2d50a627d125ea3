-- ===== src/TxAudio/Push.antt =====
-- src/tx_audio_stream.c: the life of the stream and the samples that enter it.
use mathlib.Core.Option.{Option, some, none}
use flex1500d.Base.{
  ℕ, ◌+◌, ◌-◌, ◌*◌, ◌/◌, ◌%◌, Bool, true, false, List, [], ◌∷◌, ◌||◌, not, if◌then◌else◌, ltb, leb,
  ◌==◌,
}
use flex1500d.Base.Words.{add64}
use flex1500d.Base.Lists.{length, set, replicate}
use flex1500d.TxAudio.{Floats, TxMode, TxDsp, TxAudioStream, capacity, zero_f, zero_iq, zero_stats}
use flex1500d.TxAudio.Dsp.{init_passband}

-- The pattern of a sample of two bytes.
abbrev pub le16 : ℕ → ℕ → ℕ
le16 low high = low + 256 * high

-- `flex1500_tx_audio_stream_available`
unfoldable pub available : {F D : Type 0} → TxAudioStream F D → ℕ
available s = if leb s.count capacity then capacity - s.count else 0

-- `flex1500_tx_audio_stream_queued`
unfoldable pub queued : {F D : Type 0} → TxAudioStream F D → ℕ
queued s = s.count

unfoldable pub set_compressor : {F D : Type 0} → Bool → TxAudioStream F D → TxAudioStream F D
set_compressor enabled s = record s { compressor_enabled = enabled }

unfoldable pub begin_graceful_stop : {F D : Type 0} → TxAudioStream F D → TxAudioStream F D
begin_graceful_stop s = if not s.raw_iq then record s { graceful_stop_requested = true } else s

unfoldable pub set_raw_iq : {F D : Type 0} → Bool → TxAudioStream F D → TxAudioStream F D
set_raw_iq enabled s = record s { raw_iq = enabled }

-- A frame that finds no room.
unfoldable pub drop_frame : {F D : Type 0} → TxAudioStream F D → TxAudioStream F D
drop_frame s = record s {
  stats = record s.stats { dropped_microphone_frames = add64 s.stats.dropped_microphone_frames 1 };
}

module _ {F D : Type 0} (c : Floats F D) where
  unfoldable pub set_raw_iq_translation : Bool → TxAudioStream F D → TxAudioStream F D
  set_raw_iq_translation enabled s = record s {
    translate_raw_iq = enabled;
    raw_iq_phase = zero_f c;
  }

  -- The cleared stream, with its two arrays of 65,536 samples.
  unfoldable pub fresh : TxDsp F → ℕ → F → TxAudioStream F D
  fresh dsp drive_percent microphone_gain = record {
    dsp = dsp;
    microphone = replicate capacity (zero_f c);
    network_iq = replicate capacity (zero_iq c);
    raw_iq = false;
    translate_raw_iq = false;
    raw_iq_phase = zero_f c;
    read_index = 0;
    write_index = 0;
    count = 0;
    drive_percent = drive_percent;
    microphone_gain = microphone_gain;
    compressor_enabled = false;
    input_square_sum = c.zero_d;
    post_gain_square_sum = c.zero_d;
    output_square_sum = c.zero_d;
    post_gain_frames = 0;
    fade_position = 0;
    graceful_stop_requested = false;
    previous_output_valid = false;
    previous_output_i = zero_f c;
    previous_output_q = zero_f c;
    stats = zero_stats c;
  }

  -- `none` where it returns false.
  unfoldable pub init : TxMode → ℕ → F → Option (TxAudioStream F D)
  init mode drive_percent microphone_gain =
      if ltb drive_percent 1
        || (ltb 100 drive_percent
            || (not (c.is_finite microphone_gain) || c.at_most microphone_gain (zero_f c)))
      then none
      else elim (init_passband c mode 300 3000) [
        | none ↦ none
        | some dsp ↦ some (fresh dsp drive_percent microphone_gain)
      ]

  -- `(float)sample / 32768.0f`
  unfoldable pub normalize : ℕ → F
  normalize pattern = c.div (c.of_i16 pattern) (c.real 32768 1)

  abbrev pub larger : F → F → F
  larger peak x = if c.less peak x then x else peak

  abbrev pub square : F → D
  square x = c.mul_d (c.widen x) (c.widen x)

  -- What both kinds of push do with a frame that was stored.
  unfoldable pub admit : F → TxAudioStream F D → TxAudioStream F D
  admit normalized s = record s {
    write_index = (s.write_index + 1) % capacity;
    count = s.count + 1;
    input_square_sum = c.add_d s.input_square_sum (square normalized);
    stats = record s.stats {
      peak_queued_frames =
          if ltb s.stats.peak_queued_frames (s.count + 1)
          then s.count + 1
          else s.stats.peak_queued_frames;
      input_peak = larger s.stats.input_peak (c.fabs normalized);
    };
  }

  unfoldable pub store_microphone : F → TxAudioStream F D → TxAudioStream F D
  store_microphone normalized s = record s {
    microphone = set s.microphone s.write_index normalized;
  }

  unfoldable pub store_iq : F → ℕ → TxAudioStream F D → TxAudioStream F D
  store_iq normalized q s =
      if s.raw_iq
      then record s {
        network_iq = set s.network_iq s.write_index record { i = normalized; q = normalize q };
      }
      else store_microphone normalized s

  unfoldable pub push_pcm_frame : ℕ → TxAudioStream F D → TxAudioStream F D
  push_pcm_frame pattern s =
      if s.count == capacity
      then drop_frame s
      else admit (normalize pattern) (store_microphone (normalize pattern) s)

  unfoldable pub push_iq_frame : ℕ → ℕ → TxAudioStream F D → TxAudioStream F D
  push_iq_frame i q s =
      if s.count == capacity then drop_frame s else admit (normalize i) (store_iq (normalize i) q s)

  -- The loop over frames of two bytes, with the frames accepted; an odd byte is left.
  unfoldable pub pcm_frames : List ℕ → TxAudioStream F D → ℕ × TxAudioStream F D
  pcm_frames (low ∷ high ∷ input) s =
      let (accepted, s') = pcm_frames input (push_pcm_frame (le16 low high) s) in
      ((if s.count == capacity then accepted else accepted + 1), s')
  pcm_frames (low ∷ []) s = (0, s)
  pcm_frames [] s = (0, s)

  unfoldable pub iq_frames : List ℕ → TxAudioStream F D → ℕ × TxAudioStream F D
  iq_frames (i0 ∷ i1 ∷ q0 ∷ q1 ∷ input) s =
      let (accepted, s') = iq_frames input (push_iq_frame (le16 i0 i1) (le16 q0 q1) s) in
      ((if s.count == capacity then accepted else accepted + 1), s')
  iq_frames _ s = (0, s)

  -- What follows either loop.
  unfoldable pub count_frames : ℕ → TxAudioStream F D → TxAudioStream F D
  count_frames frames s =
      let microphone_frames = add64 s.stats.microphone_frames frames in
      record s {
        stats = record s.stats {
          microphone_frames = microphone_frames;
          input_rms =
              if not (microphone_frames == 0)
              then c.narrow (c.sqrt (c.div_d s.input_square_sum (c.of_nat_d microphone_frames)))
              else s.stats.input_rms;
        };
      }

  unfoldable pub push_pcm16le : List ℕ → TxAudioStream F D → ℕ × TxAudioStream F D
  push_pcm16le input s =
      let (accepted, s') = pcm_frames input s in
      if s.raw_iq || s.graceful_stop_requested
      then (0, s)
      else (accepted, count_frames (length input / 2) s')

  unfoldable pub push_iq16le : List ℕ → TxAudioStream F D → ℕ × TxAudioStream F D
  push_iq16le input s =
      let (accepted, s') = iq_frames input s in
      if s.graceful_stop_requested then (0, s) else (accepted, count_frames (length input / 4) s')
