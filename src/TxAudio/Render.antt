-- ===== src/TxAudio/Render.antt =====
-- src/tx_audio_stream.c: the frames that leave the stream for the transmit endpoint.
use mathlib.Core.Option.{some, none}
use flex1500d.Base.{
  ℕ, zero, suc, ◌+◌, ◌-◌, ◌/◌, ◌%◌, Bool, true, false, List, [], ◌∷◌, ◌++◌, ◌||◌, ◌&&◌, not,
  if◌then◌else◌, ltb, ◌==◌,
}
use flex1500d.Base.Words.{add64}
use flex1500d.Base.Lists.{get_or}
use flex1500d.TxAudio.{
  Floats, TxMode, Iq, TxAudioStream, capacity, envelope_frames, full_drive_peak, zero_f, one_f, pi,
  zero_iq,
}
use flex1500d.TxAudio.Dsp.{process, init_passband, advance_phase, am_step}
use flex1500d.TxAudio.Push.{larger, square}

module _ {F D : Type 0} (c : Floats F D) where
  unfoldable pub raised_cosine : F → F
  raised_cosine position =
      if c.at_most position (zero_f c)
      then zero_f c
      else if c.at_most (one_f c) position
      then one_f c
      else c.sub (c.real 5 10) (c.mul (c.real 5 10) (c.cos (c.mul (pi c) position)))

  -- The 16-bit pattern, and whether the sample was clipped.
  unfoldable pub clamp_i16 : F → ℕ × Bool
  clamp_i16 sample =
      if c.less (c.real 32767 1) sample
      then (32767, true)
      else if c.less sample (c.neg (c.real 32768 1))
      then (32768, true)
      else (c.to_i16 sample, false)

  -- `flex1500_tx_audio_stream_reset`, where init_passband refuses no default.
  unfoldable pub reset : TxMode → TxAudioStream F D → TxAudioStream F D
  reset mode s = record s {
    read_index = 0;
    write_index = 0;
    count = 0;
    fade_position = 0;
    graceful_stop_requested = false;
    previous_output_valid = false;
    previous_output_i = zero_f c;
    previous_output_q = zero_f c;
    dsp = elim (init_passband c mode 300 3000) [ some dsp ↦ dsp | none ↦ s.dsp ];
  }

  abbrev pub rotate : F → Iq F → Iq F
  rotate phase iq = record {
    i = c.add (c.mul iq.i (c.cos phase)) (c.mul iq.q (c.sin phase));
    q = c.sub (c.mul iq.q (c.cos phase)) (c.mul iq.i (c.sin phase));
  }

  -- The raw I/Q frame to be sent, translated by the AM offset where that is asked for.
  unfoldable pub raw_frame : TxAudioStream F D → Iq F × TxAudioStream F D
  raw_frame s =
      let iq = get_or s.network_iq s.read_index (zero_iq c) in
      if s.translate_raw_iq
      then (
        rotate s.raw_iq_phase iq,
        record s { raw_iq_phase = advance_phase c s.raw_iq_phase (am_step c) },
      )
      else (iq, s)

  unfoldable pub compress : F → F
  compress microphone =
      c.copysign
        (c.mul (c.real 25 100)
          (c.pow (c.div (c.fabs microphone) (c.real 25 100)) (c.div (one_f c) (c.real 3 1))))
        microphone

  -- The removal of the oldest frame, with the counters of the gain stage.
  unfoldable pub consume : F → TxAudioStream F D → TxAudioStream F D
  consume microphone s =
      let post_gain_frames = add64 s.post_gain_frames 1 in
      let post_gain_square_sum = c.add_d s.post_gain_square_sum (square c microphone) in
      record s {
        read_index = (s.read_index + 1) % capacity;
        count = s.count - 1;
        post_gain_square_sum = post_gain_square_sum;
        post_gain_frames = post_gain_frames;
        stats = record s.stats {
          post_gain_peak = larger c s.stats.post_gain_peak (c.fabs microphone);
          post_gain_rms =
              c.narrow (c.sqrt (c.div_d post_gain_square_sum (c.of_nat_d post_gain_frames)));
        };
      }

  unfoldable pub modulated : F → TxAudioStream F D → Iq F × TxAudioStream F D
  modulated microphone s =
      let (iq, dsp) = process c s.dsp microphone in (iq, record s { dsp = dsp })

  unfoldable pub next_raw : TxAudioStream F D → Iq F × TxAudioStream F D
  next_raw s =
      let microphone = c.mul (get_or s.microphone s.read_index (zero_f c)) s.microphone_gain in
      let (iq, s') = raw_frame s in (iq, consume microphone s')

  unfoldable pub next_microphone : TxAudioStream F D → Iq F × TxAudioStream F D
  next_microphone s =
      let microphone = c.mul (get_or s.microphone s.read_index (zero_f c)) s.microphone_gain in
      let loud = s.compressor_enabled && c.less (c.real 25 100) (c.fabs microphone) in
      modulated (if loud then compress microphone else microphone) (consume microphone s)

  -- Silence where nothing waits.
  unfoldable pub underrun : TxAudioStream F D → Iq F × TxAudioStream F D
  underrun s =
      modulated (zero_f c)
        (record s { stats = record s.stats { underrun_frames = add64 s.stats.underrun_frames 1 } })

  unfoldable pub next_frame : TxAudioStream F D → Iq F × TxAudioStream F D
  next_frame s =
      if ltb 0 s.count then (if s.raw_iq then next_raw s else next_microphone s) else underrun s

  -- The envelope of the frame that was taken, and the stream with it advanced.
  unfoldable pub next_fade : TxAudioStream F D → F × TxAudioStream F D
  next_fade s =
      let rising = ltb s.fade_position envelope_frames in
      let fade =
        if rising
        then raised_cosine (c.div (c.of_nat s.fade_position) (c.of_nat envelope_frames))
        else one_f c in
      (
        if s.graceful_stop_requested && ltb s.count envelope_frames
            then c.mul fade (raised_cosine (c.div (c.of_nat s.count) (c.of_nat envelope_frames)))
            else fade,
        record s { fade_position = if rising then s.fade_position + 1 else s.fade_position },
      )

  abbrev pub drive_limit : TxAudioStream F D → F
  drive_limit s = c.div (c.mul (c.of_nat full_drive_peak) (c.of_nat s.drive_percent)) (c.real 100 1)

  -- The frame scaled to the drive limit, and whether it had to be.
  unfoldable pub limit : F → Iq F → Iq F × Bool
  limit drive iq =
      let magnitude = c.hypot iq.i iq.q in
      if c.less drive magnitude && c.less (zero_f c) magnitude
      then (
        record { i = c.mul iq.i (c.div drive magnitude); q = c.mul iq.q (c.div drive magnitude) },
        true,
      )
      else (iq, false)

  abbrev pub bump : Bool → ℕ → ℕ
  bump flag n = if flag then add64 n 1 else n

  -- The four bytes of a frame, and the stream with its output recorded.
  unfoldable pub emit : Iq F → Bool → TxAudioStream F D → List ℕ × TxAudioStream F D
  emit iq limited s =
      let (sample_i, clipped_i) = clamp_i16 iq.i in
      let (sample_q, clipped_q) = clamp_i16 iq.q in
      let i = c.of_i16 sample_i in
      let q = c.of_i16 sample_q in
      let magnitude = c.hypot i q in
      let normalized =
        if c.less (zero_f c) (drive_limit s)
        then c.div magnitude (c.of_nat full_drive_peak)
        else zero_f c in
      let step = c.hypot (c.sub i s.previous_output_i) (c.sub q s.previous_output_q) in
      (
        sample_i % 256 ∷ sample_i / 256 % 256 ∷ sample_q % 256 ∷ sample_q / 256 % 256 ∷ [],
        record s {
          previous_output_i = i;
          previous_output_q = q;
          previous_output_valid = true;
          output_square_sum = c.add_d s.output_square_sum (square c normalized);
          stats = record s.stats {
            limited_frames = bump limited s.stats.limited_frames;
            clipped_frames = bump (clipped_i || clipped_q) s.stats.clipped_frames;
            maximum_output_step =
                if s.previous_output_valid
                then larger c s.stats.maximum_output_step step
                else s.stats.maximum_output_step;
            output_peak = larger c s.stats.output_peak normalized;
            peak_magnitude = larger c s.stats.peak_magnitude magnitude;
          };
        },
      )

  -- One round of the loop of render.
  unfoldable pub render_frame : TxAudioStream F D → List ℕ × TxAudioStream F D
  render_frame s =
      let (iq, taken) = next_frame s in
      let (fade, faded) = next_fade taken in
      let (output, limited) = limit (drive_limit s) record {
        i = c.mul (c.mul iq.i (drive_limit s)) fade;
        q = c.mul (c.mul iq.q (drive_limit s)) fade;
      } in
      emit output limited faded

  unfoldable pub render_frames : ℕ → TxAudioStream F D → List ℕ × TxAudioStream F D
  render_frames zero s = ([], s)
  render_frames (suc frames) s =
      let (bytes, s') = render_frame s in
      let (rest, s'') = render_frames frames s' in (bytes ++ rest, s'')

  -- `flex1500_tx_audio_stream_render_iq16le`, whose result is the number of frames asked for.
  unfoldable pub render_iq16le : ℕ → TxAudioStream F D → List ℕ × TxAudioStream F D
  render_iq16le frames s =
      let (output, s') = render_frames frames s in
      let output_frames = add64 s'.stats.output_frames frames in
      (
        output,
        record s' {
          stats = record s'.stats {
            output_frames = output_frames;
            output_rms =
                if not (output_frames == 0)
                then c.narrow (c.sqrt (c.div_d s'.output_square_sum (c.of_nat_d output_frames)))
                else s'.stats.output_rms;
          };
        },
      )
