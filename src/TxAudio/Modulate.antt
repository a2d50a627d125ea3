-- ===== src/TxAudio/Modulate.antt =====
-- Over any sequence of samples the modulator of src/tx_dsp.c is the one over delay lines.
use mathlib.Core.Option.{some, none}
use mathlib.Core.Path.{ap₂, subst}
use flex1500d.Base.{ℕ, zero, suc, ◌≡◌, refl, ap, ◌∙◌, Bool, if◌then◌else◌, List, [], ◌∷◌, arith}
use flex1500d.Base.Lists.{length, get_or, set, length-set, length-replicate}
use flex1500d.TxAudio.{Floats, Iq, TxDsp, TxMode, fir_taps, zero_f}
use flex1500d.TxAudio.Dsp.{
  middle, fir, process, taps, designed, init_passband, bandpass_tap, hilbert_tap,
}
use flex1500d.TxAudio.Shift.{
  shift, recent, weighted, Lines, process_line, lines, IsTuned, recent-write, fir-write,
  delayed-write, emit, modulate-emit,
}

module _ {F D : Type 0} (c : Floats F D) where
  process-process_line :
      (dsp : TxDsp F) (x : F)
      → IsTuned c dsp
      → (process c dsp x).0 ≡ (process_line c dsp (lines c dsp) x).0
        × lines c (process c dsp x).1 ≡ (process_line c dsp (lines c dsp) x).1
  unfolding process process_line lines
  process-process_line dsp x t =
      let h = c.add (c.sub x dsp.previous_input) (c.mul (c.real 995 1000) dsp.previous_highpass) in
      let history = dsp.filtered_history in
      let index = dsp.filtered_index in
      let v = fir c dsp.bandpass (set dsp.audio_history dsp.audio_index h) dsp.audio_index in
      let ev =
        fir-write c dsp.bandpass dsp.audio_history dsp.audio_index h t.bandpass t.audio
          t.audio_place in
      let line = recent (zero_f c) history index in
      let a =
        delayed-write c history index v t.filtered t.filtered_place
        ∙ ap (λ k. get_or (shift (zero_f c) k line) middle (zero_f c)) ev in
      let b =
        fir-write c dsp.hilbert history index v t.hilbert t.filtered t.filtered_place
        ∙ ap (λ k. weighted c (zero_f c) dsp.hilbert (shift (zero_f c) k line)) ev in
      let d =
        recent-write c history index v t.filtered t.filtered_place
        ∙ ap (λ k. shift (zero_f c) k line) ev in
      let e = recent-write c dsp.audio_history dsp.audio_index h t.audio t.audio_place in
      let f = modulate-emit c dsp _ _ ∙ ap₂ (emit c dsp.mode dsp.carrier_phase) a b in
      (ap (λ k. k.0) f, rw (e, d, f))

  pub process-IsTuned : (dsp : TxDsp F) (x : F) → IsTuned c dsp → IsTuned c (process c dsp x).1
  unfolding process
  process-IsTuned dsp x t = record {
    bandpass = t.bandpass;
    hilbert = t.hilbert;
    audio = length-set dsp.audio_history dsp.audio_index _ ∙ t.audio;
    filtered = length-set dsp.filtered_history dsp.filtered_index _ ∙ t.filtered;
    audio_place = omega arith;
    filtered_place = omega arith;
  }

  -- The outputs for a sequence of samples.
  unfoldable pub process_all : TxDsp F → List F → List (Iq F)
  process_all dsp [] = []
  process_all dsp (x ∷ xs) = (process c dsp x).0 ∷ process_all (process c dsp x).1 xs

  unfoldable pub process_lines : TxDsp F → Lines c → List F → List (Iq F)
  process_lines dsp line [] = []
  process_lines dsp line (x ∷ xs) =
      (process_line c dsp line x).0 ∷ process_lines dsp (process_line c dsp line x).1 xs

  length-taps : (f : ℕ → F) (tap n : ℕ) → length (taps c f tap n) ≡ n
  unfolding taps
  length-taps f tap zero = refl
  length-taps f tap (suc n) = ap suc (length-taps f (suc tap) n)

  designed-IsTuned :
      (mode : TxMode) (low_cut_hz high_cut_hz : ℕ)
      → IsTuned c (designed c mode low_cut_hz high_cut_hz)
  unfolding designed
  designed-IsTuned mode low_cut_hz high_cut_hz = record {
    bandpass = length-taps (bandpass_tap c low_cut_hz high_cut_hz) 0 fir_taps;
    hilbert = length-taps (hilbert_tap c) 0 fir_taps;
    audio = length-replicate fir_taps (zero_f c);
    filtered = length-replicate fir_taps (zero_f c);
    audio_place = omega arith;
    filtered_place = omega arith;
  }

  given : (b : Bool) (x y : TxDsp F) → (if b then none else some x) ≡ some y → x ≡ y
  given b x y h = ground arith

  -- A modulator that its initialisation gives is tuned.
  pub init_passband-IsTuned :
      (mode : TxMode) (low_cut_hz high_cut_hz : ℕ) (dsp : TxDsp F)
      → init_passband c mode low_cut_hz high_cut_hz ≡ some dsp
      → IsTuned c dsp
  unfolding init_passband
  init_passband-IsTuned mode low_cut_hz high_cut_hz dsp h =
      subst (IsTuned c) (given _ (designed c mode low_cut_hz high_cut_hz) dsp h)
        (designed-IsTuned mode low_cut_hz high_cut_hz)

  same_design :
      (dsp : TxDsp F) (x : F) (line : Lines c) (y : F)
      → process_line c (process c dsp x).1 line y ≡ process_line c dsp line y
  unfolding process process_line
  same_design dsp x line y = refl

  same_design_all :
      (dsp : TxDsp F) (x : F) (line : Lines c) (ys : List F)
      → process_lines (process c dsp x).1 line ys ≡ process_lines dsp line ys
  unfolding process_lines
  same_design_all dsp x line [] = refl
  same_design_all dsp x line (y ∷ ys) =
      ap₂ (λ k l. k ∷ l) (ap (λ k. k.0) (same_design dsp x line y))
        (same_design_all dsp x (process_line c (process c dsp x).1 line y).1 ys
          ∙ ap (λ k. process_lines dsp k.1 ys) (same_design dsp x line y))

  -- A tuned modulator gives for every sequence of samples what the one over delay lines gives that
  -- starts from its histories: the in-phase sample is 64 samples old, the quadrature is the weighted
  -- line, negated on the upper sideband, and AM is the bounded envelope on its carrier.
  pub process_all-process_lines :
      (dsp : TxDsp F) (xs : List F)
      → IsTuned c dsp
      → process_all dsp xs ≡ process_lines dsp (lines c dsp) xs
  unfolding process_all process_lines
  process_all-process_lines dsp [] t = refl
  process_all-process_lines dsp (x ∷ xs) t =
      let (a, b) = process-process_line dsp x t in
      ap₂ (λ k l. k ∷ l) a
        (process_all-process_lines (process c dsp x).1 xs (process-IsTuned dsp x t)
          ∙ same_design_all dsp x (lines c (process c dsp x).1) xs
          ∙ ap (λ k. process_lines dsp k xs) b)
