-- ===== src/TxAudio/Shift.antt =====
-- The modulator of src/tx_dsp.c, which keeps its histories in rings, computes what one does that
-- keeps the newest samples first in a list.
use flex1500d.Base.{
  ℕ, zero, suc, ◌+◌, ◌-◌, ◌%◌, ◌≤◌, ◌<◌, ◌≡◌, refl, ap, sym, ◌∙◌, List, [], ◌∷◌, if◌then◌else◌,
  ◌==◌, arith,
}
use mathlib.Core.Path.{ap₂}
use flex1500d.Base.Lists.{length, get_or, set, take, drop, get_or-set_self, get_or-set_ne}
use flex1500d.TxAudio.{Floats, Iq, TxDsp, TxMode, fir_taps, zero_f}
use flex1500d.TxAudio.Dsp.{
  middle, next_index, fir_from, fir, modulate, am_envelope, advance_phase, am_step,
}

abbrev pub previous : ℕ → ℕ
previous position = if position == 0 then fir_taps - 1 else position - 1

previous-next_index : (index : ℕ) → index < fir_taps → previous (next_index index) ≡ index
previous-next_index index h = ground arith

module _ {F : Type 0} (zero_a : F) where
  -- The `n` entries before a position and at it, newest first.
  unfoldable pub read_back : List F → ℕ → ℕ → List F
  read_back history zero position = []
  read_back history (suc n) position =
      get_or history position zero_a ∷ read_back history n (previous position)

  -- A write is not seen by a read that ends after it.
  read_back-set :
      (history : List F) (at n position : ℕ) (x : F)
      → position < fir_taps
      → at < fir_taps
      → n ≤ (position + fir_taps - at) % fir_taps
      → read_back (set history at x) n position ≡ read_back history n position
  unfolding read_back
  read_back-set history at zero position x a b h = refl
  read_back-set history at (suc n) position x a b h =
      ap₂ (λ k l. k ∷ l) (get_or-set_ne history at position x zero_a (λ e. ground arith))
        (read_back-set history at n (previous position) x (ground arith) b (ground arith))

  get_or-read_back :
      (history : List F) (n k position : ℕ)
      → position < fir_taps
      → k < n
      → n ≤ fir_taps
      → get_or (read_back history n position) k zero_a
        ≡ get_or history ((position + fir_taps - k) % fir_taps) zero_a
  unfolding read_back
  get_or-read_back history zero k position a h b = absurd (omega arith)
  get_or-read_back history (suc n) zero position a h b =
      ap (λ j. get_or history j zero_a) (omega arith)
  get_or-read_back history (suc n) (suc k) position a h b =
      get_or-read_back history n k (previous position) (ground arith) (omega arith) (omega arith)
      ∙ ap (λ j. get_or history j zero_a) (ground arith)

  take-read_back :
      (history : List F) (n m position : ℕ)
      → n ≤ m
      → take n (read_back history m position) ≡ read_back history n position
  unfolding read_back
  take-read_back history zero m position h = refl
  take-read_back history (suc n) zero position h = absurd (omega arith)
  take-read_back history (suc n) (suc m) position h =
      ap (λ l. get_or history position zero_a ∷ l)
        (take-read_back history n m (previous position) (omega arith))

  -- The entries of a history, newest first, where the next is written at an index.
  unfoldable pub recent : List F → ℕ → List F
  recent history index = read_back history fir_taps (previous index)

  abbrev pub shift : F → List F → List F
  shift x line = x ∷ take (fir_taps - 1) line

  read_back-write :
      (history : List F) (index : ℕ) (x : F)
      → length history ≡ fir_taps
      → index < fir_taps
      → read_back (set history index x) fir_taps index ≡ shift x (recent history index)
  unfolding read_back recent
  read_back-write history index x l h =
      ap₂ (λ k l. k ∷ l) (get_or-set_self history index x zero_a (omega arith))
        (read_back-set history index (fir_taps - 1) (previous index) x (ground arith) h
            (ground arith)
          ∙ sym (take-read_back history (fir_taps - 1) fir_taps (previous index) (omega arith)))

drop_get :
    {A : Type 0} (xs : List A) (n : ℕ) (d : A)
    → n < length xs
    → drop n xs ≡ get_or xs n d ∷ drop (suc n) xs
drop_get [] n d h = absurd (omega arith)
drop_get (x ∷ xs) zero d h = refl
drop_get (x ∷ xs) (suc n) d h = drop_get xs n d (omega arith)

module _ {F D : Type 0} (c : Floats F D) where
  -- The sum of the products of two lists, added to an output from the left.
  unfoldable pub weighted : F → List F → List F → F
  weighted output [] line = output
  weighted output (x ∷ xs) [] = output
  weighted output (x ∷ xs) (y ∷ line) = weighted (c.add output (c.mul x y)) xs line

  weighted_end : (output : F) (xs : List F) → weighted output xs [] ≡ output
  unfolding weighted
  weighted_end output [] = refl
  weighted_end output (x ∷ xs) = refl

  fir_from-weighted :
      (coefficients history : List F) (n tap position : ℕ) (output : F)
      → tap + n ≡ length coefficients
      → fir_from c coefficients history n tap position output
        ≡ weighted output (drop tap coefficients) (read_back (zero_f c) history n position)
  unfolding fir_from weighted read_back
  fir_from-weighted coefficients history zero tap position output h =
      sym (weighted_end output (drop tap coefficients))
  fir_from-weighted coefficients history (suc n) tap position output h =
      fir_from-weighted coefficients history n (suc tap) (previous position)
        (c.add output
          (c.mul (get_or coefficients tap (zero_f c)) (get_or history position (zero_f c))))
        (omega arith)
      ∙ ap (λ k. weighted output k (read_back (zero_f c) history (suc n) position))
          (sym (drop_get coefficients tap (zero_f c) (omega arith)))

  fir-weighted :
      (coefficients history : List F) (newest : ℕ)
      → length coefficients ≡ fir_taps
      → fir c coefficients history newest
        ≡ weighted (zero_f c) coefficients (read_back (zero_f c) history fir_taps newest)
  unfolding fir
  fir-weighted coefficients history newest h =
      fir_from-weighted coefficients history fir_taps 0 newest (zero_f c) (sym h)

  -- A modulator over two delay lines of 129 samples, newest first.
  pub record Lines : Type 0 where
    pub audio : List F
    pub filtered : List F
    pub previous_input : F
    pub previous_highpass : F
    pub carrier_phase : F

  -- The sample of a mode and the phase behind it: a sideband is the in-phase sample with the
  -- quadrature, negated on the upper one; AM is the envelope on its carrier.
  unfoldable pub emit : TxMode → F → F → F → Iq F × F
  emit TxMode.usb phase in_phase quadrature = (record { i = in_phase; q = c.neg quadrature }, phase)
  emit TxMode.lsb phase in_phase quadrature = (record { i = in_phase; q = quadrature }, phase)
  emit TxMode.am phase in_phase quadrature =
      let bounded = c.fmax (c.neg (c.real 1 1)) (c.fmin (c.real 1 1) in_phase) in
      let depth = c.real 8 10 in
      let carrier = c.div (c.real 1 1) (c.add (c.real 1 1) depth) in
      let envelope = c.mul carrier (c.add (c.real 1 1) (c.mul depth bounded)) in
      (
        record { i = c.mul envelope (c.cos phase); q = c.mul (c.neg envelope) (c.sin phase) },
        advance_phase c phase (am_step c),
      )

  pub modulate-emit :
      (dsp : TxDsp F) (in_phase quadrature : F)
      → modulate c dsp in_phase quadrature ≡ emit dsp.mode dsp.carrier_phase in_phase quadrature
  unfolding modulate emit am_envelope
  modulate-emit dsp in_phase quadrature = by_mode dsp.mode
    where
      by_mode :
          (mode : TxMode)
          → modulate c record dsp { mode = mode } in_phase quadrature
            ≡ emit mode dsp.carrier_phase in_phase quadrature
      by_mode TxMode.usb = refl
      by_mode TxMode.lsb = refl
      by_mode TxMode.am = refl

  -- The promise: the microphone sample is high-passed and band-passed, and the filtered sample of
  -- 64 samples ago is modulated with the Hilbert transform of the filtered line.
  unfoldable pub process_line : TxDsp F → Lines → F → Iq F × Lines
  process_line dsp line microphone_sample =
      let highpass =
        c.add (c.sub microphone_sample line.previous_input)
          (c.mul (c.real 995 1000) line.previous_highpass) in
      let audio = shift (zero_f c) highpass line.audio in
      let filtered = shift (zero_f c) (weighted (zero_f c) dsp.bandpass audio) line.filtered in
      let (output, phase) =
        emit dsp.mode line.carrier_phase (get_or filtered 64 (zero_f c))
          (weighted (zero_f c) dsp.hilbert filtered) in
      (
        output,
        record {
          audio = audio;
          filtered = filtered;
          previous_input = microphone_sample;
          previous_highpass = highpass;
          carrier_phase = phase;
        },
      )

  unfoldable pub lines : TxDsp F → Lines
  lines dsp = record {
    audio = recent (zero_f c) dsp.audio_history dsp.audio_index;
    filtered = recent (zero_f c) dsp.filtered_history dsp.filtered_index;
    previous_input = dsp.previous_input;
    previous_highpass = dsp.previous_highpass;
    carrier_phase = dsp.carrier_phase;
  }

  pub record IsTuned (dsp : TxDsp F) : Type 0 where
    pub bandpass : length dsp.bandpass ≡ fir_taps
    pub hilbert : length dsp.hilbert ≡ fir_taps
    pub audio : length dsp.audio_history ≡ fir_taps
    pub filtered : length dsp.filtered_history ≡ fir_taps
    pub audio_place : dsp.audio_index < fir_taps
    pub filtered_place : dsp.filtered_index < fir_taps

  pub recent-write :
      (history : List F) (index : ℕ) (x : F)
      → length history ≡ fir_taps
      → index < fir_taps
      → recent (zero_f c) (set history index x) (next_index index)
        ≡ shift (zero_f c) x (recent (zero_f c) history index)
  unfolding recent
  recent-write history index x l h =
      ap (read_back (zero_f c) (set history index x) fir_taps) (previous-next_index index h)
      ∙ read_back-write (zero_f c) history index x l h

  pub fir-write :
      (coefficients history : List F) (index : ℕ) (x : F)
      → length coefficients ≡ fir_taps
      → length history ≡ fir_taps
      → index < fir_taps
      → fir c coefficients (set history index x) index
        ≡ weighted (zero_f c) coefficients (shift (zero_f c) x (recent (zero_f c) history index))
  fir-write coefficients history index x k l h =
      fir-weighted coefficients (set history index x) index k
      ∙ ap (weighted (zero_f c) coefficients) (read_back-write (zero_f c) history index x l h)

  pub delayed-write :
      (history : List F) (index : ℕ) (x : F)
      → length history ≡ fir_taps
      → index < fir_taps
      → get_or (set history index x) ((index + fir_taps - middle) % fir_taps) (zero_f c)
        ≡ get_or (shift (zero_f c) x (recent (zero_f c) history index)) middle (zero_f c)
  delayed-write history index x l h =
      sym (
        get_or-read_back (zero_f c) (set history index x) fir_taps middle index h (omega arith)
          (omega arith))
      ∙ ap (λ k. get_or k middle (zero_f c)) (read_back-write (zero_f c) history index x l h)
