-- ===== src/TxAudio/Dsp.antt =====
-- src/tx_dsp.c: the filter design and the modulation of one microphone sample.
use mathlib.Core.Option.{Option, some, none}
use flex1500d.Base.{
  ℕ, zero, suc, ◌+◌, ◌-◌, ◌%◌, Bool, List, [], ◌∷◌, ◌||◌, if◌then◌else◌, ltb, ◌==◌,
}
use flex1500d.Base.Ints.{ℤ, pos, negsuc}
use flex1500d.Base.Words.{add32}
use flex1500d.Base.Lists.{get_or, set, replicate}
use flex1500d.TxAudio.{Floats, TxMode, Iq, TxDsp, fir_taps, zero_f, one_f, pi}

abbrev pub middle : ℕ
middle = 64

-- `tap - middle`
unfoldable pub offset_of : ℕ → ℤ
offset_of tap = if ltb tap middle then negsuc (middle - tap - 1) else pos (tap - middle)

-- `(abs(offset) & 1) != 0`, which an offset of 0 does not have.
unfoldable pub odd : ℤ → Bool
odd (pos n) = n % 2 == 1
odd (negsuc n) = n % 2 == 0

abbrev pub next_index : ℕ → ℕ
next_index index = (index + 1) % fir_taps

module _ {F D : Type 0} (c : Floats F D) where
  abbrev pub sample_rate : F
  sample_rate = c.real 48000 1

  abbrev pub two_f : F
  two_f = c.real 2 1

  unfoldable pub lowpass_coefficient : F → ℤ → F
  lowpass_coefficient cutoff (pos zero) = c.div (c.mul two_f cutoff) sample_rate
  lowpass_coefficient cutoff offset =
      c.div
        (c.sin (c.div (c.mul (c.mul (c.mul two_f (pi c)) cutoff) (c.of_int offset)) sample_rate))
        (c.mul (pi c) (c.of_int offset))

  unfoldable pub window : ℕ → F
  window tap = c.sub (c.real 54 100) (
      c.mul (c.real 46 100)
        (c.cos (c.div (c.mul (c.mul two_f (pi c)) (c.of_nat tap)) (c.of_nat (fir_taps - 1)))))

  unfoldable pub bandpass_tap : ℕ → ℕ → ℕ → F
  bandpass_tap low_cut_hz high_cut_hz tap =
      c.mul
        (c.sub (lowpass_coefficient (c.of_nat high_cut_hz) (offset_of tap))
          (lowpass_coefficient (c.of_nat low_cut_hz) (offset_of tap)))
        (window tap)

  unfoldable pub hilbert_tap : ℕ → F
  hilbert_tap tap =
      if odd (offset_of tap)
      then c.div (c.mul two_f (window tap)) (c.mul (pi c) (c.of_int (offset_of tap)))
      else zero_f c

  -- The taps from `tap` on.
  unfoldable pub taps : (ℕ → F) → ℕ → ℕ → List F
  taps coefficient tap zero = []
  taps coefficient tap (suc n) = coefficient tap ∷ taps coefficient (suc tap) n

  -- The cleared modulator with its two filters.
  unfoldable pub designed : TxMode → ℕ → ℕ → TxDsp F
  designed mode low_cut_hz high_cut_hz = record {
    bandpass = taps (bandpass_tap low_cut_hz high_cut_hz) 0 fir_taps;
    hilbert = taps hilbert_tap 0 fir_taps;
    audio_history = replicate fir_taps (zero_f c);
    filtered_history = replicate fir_taps (zero_f c);
    audio_index = 0;
    filtered_index = 0;
    previous_input = zero_f c;
    previous_highpass = zero_f c;
    carrier_phase = zero_f c;
    low_cut_hz = low_cut_hz;
    high_cut_hz = high_cut_hz;
    mode = mode;
  }

  unfoldable pub init_passband : TxMode → ℕ → ℕ → Option (TxDsp F)
  init_passband mode low_cut_hz high_cut_hz =
      if ltb low_cut_hz 50 || (ltb 12000 high_cut_hz || ltb high_cut_hz (add32 low_cut_hz 100))
      then none
      else some (designed mode low_cut_hz high_cut_hz)

  -- The loop of `fir`, from a tap and a position on.
  unfoldable pub fir_from : List F → List F → ℕ → ℕ → ℕ → F → F
  fir_from coefficients history zero tap position output = output
  fir_from coefficients history (suc n) tap position output =
      fir_from coefficients history n (suc tap)
        (if position == 0 then fir_taps - 1 else position - 1)
        (c.add output
          (c.mul (get_or coefficients tap (zero_f c)) (get_or history position (zero_f c))))

  unfoldable pub fir : List F → List F → ℕ → F
  fir coefficients history newest = fir_from coefficients history fir_taps 0 newest (zero_f c)

  -- Adds an angle to a phase, less one turn where it reaches one.
  unfoldable pub advance_phase : F → F → F
  advance_phase phase step =
      let phase' = c.add phase step in
      if c.at_most (c.mul two_f (pi c)) phase' then c.sub phase' (c.mul two_f (pi c)) else phase'

  abbrev pub am_step : F
  am_step = c.div (c.mul (c.mul two_f (pi c)) (c.of_nat 11025)) sample_rate

  unfoldable pub am_envelope : F → F
  am_envelope in_phase =
      c.mul (c.div (one_f c) (c.add (one_f c) (c.real 8 10))) (
        c.add (one_f c)
          (c.mul (c.real 8 10) (c.fmax (c.neg (one_f c)) (c.fmin (one_f c) in_phase))))

  -- The output for the delayed in-phase sample, with the phase of the AM carrier after it.
  unfoldable pub modulate : TxDsp F → F → F → Iq F × F
  modulate dsp in_phase quadrature = elim dsp.mode [
    | TxMode.am ↦ (
      record {
        i = c.mul (am_envelope in_phase) (c.cos dsp.carrier_phase);
        q = c.mul (c.neg (am_envelope in_phase)) (c.sin dsp.carrier_phase);
      },
      advance_phase dsp.carrier_phase am_step,
    )
    | TxMode.usb ↦ (record { i = in_phase; q = c.neg quadrature }, dsp.carrier_phase)
    | TxMode.lsb ↦ (record { i = in_phase; q = quadrature }, dsp.carrier_phase)
  ]

  -- `flex1500_tx_dsp_process`
  unfoldable pub process : TxDsp F → F → Iq F × TxDsp F
  process dsp microphone_sample =
      let highpass =
        c.add (c.sub microphone_sample dsp.previous_input)
          (c.mul (c.real 995 1000) dsp.previous_highpass) in
      let audio = set dsp.audio_history dsp.audio_index highpass in
      let filtered_history =
        set dsp.filtered_history dsp.filtered_index (fir dsp.bandpass audio dsp.audio_index) in
      let in_phase =
        get_or filtered_history ((dsp.filtered_index + fir_taps - middle) % fir_taps) (zero_f c) in
      let (output, phase) =
        modulate dsp in_phase (fir dsp.hilbert filtered_history dsp.filtered_index) in
      (
        output,
        record dsp {
          audio_history = audio;
          filtered_history = filtered_history;
          audio_index = next_index dsp.audio_index;
          filtered_index = next_index dsp.filtered_index;
          previous_input = microphone_sample;
          previous_highpass = highpass;
          carrier_phase = phase;
        },
      )
