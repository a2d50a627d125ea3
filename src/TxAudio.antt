-- ===== src/TxAudio.antt =====
-- The transmit audio stream of src/tx_audio_stream.c and the modulator of src/tx_dsp.c: the queue
-- of samples that wait, their modulation, and the counters. The machine's floating point and the C
-- mathematics library are a parameter, `Floats`, over two types for `float` and `double`; a 16-bit
-- sample is its pattern below 2^16. The four counters of a graceful stop are those of UsbRx/Graceful.
pub mod Dsp
pub mod Push
pub mod Render
pub mod Raw
pub mod Queue
pub mod Sound
pub mod Enter
pub mod Drain
pub mod Account
pub mod Refine
pub mod Shift
pub mod Modulate
pub mod Tests
use flex1500d.Base.{ℕ, ◌^◌, Bool, false, List}
use flex1500d.Base.Ints.{ℤ}
use flex1500d.Base.Lists.{replicate}

-- FLEX1500_TX_AUDIO_CAPACITY, FLEX1500_TX_ENVELOPE_FRAMES and FLEX1500_TX_FULL_DRIVE_PEAK.
abbrev pub capacity : ℕ
capacity = 65536

abbrev pub envelope_frames : ℕ
envelope_frames = 480

abbrev pub full_drive_peak : ℕ
full_drive_peak = 24890

abbrev pub fir_taps : ℕ
fir_taps = 129

-- `real n d` is the constant n / d, `to_i16` is `lrintf` as a 16-bit pattern.
pub record Floats (F D : Type 0) : Type 0 where
  pub real : ℕ → ℕ → F
  pub of_i16 : ℕ → F
  pub of_int : ℤ → F
  pub of_nat : ℕ → F
  pub to_i16 : F → ℕ
  pub add : F → F → F
  pub sub : F → F → F
  pub mul : F → F → F
  pub div : F → F → F
  pub neg : F → F
  pub less : F → F → Bool
  pub at_most : F → F → Bool
  pub is_finite : F → Bool
  pub fabs : F → F
  pub cos : F → F
  pub sin : F → F
  pub pow : F → F → F
  pub hypot : F → F → F
  pub copysign : F → F → F
  pub fmin : F → F → F
  pub fmax : F → F → F
  pub widen : F → D
  pub narrow : D → F
  pub zero_d : D
  pub real_d : ℕ → ℕ → D
  pub of_nat_d : ℕ → D
  pub of_int_d : ℤ → D
  pub add_d : D → D → D
  pub sub_d : D → D → D
  pub mul_d : D → D → D
  pub div_d : D → D → D
  pub sqrt : D → D
  pub hypot_d : D → D → D
  pub at_most_d : D → D → Bool

pub data TxMode : Type 0 where
  usb lsb am : TxMode

-- `flex1500_iq_sample`
pub record Iq (F : Type 0) : Type 0 where
  pub i : F
  pub q : F

-- `flex1500_tx_dsp`
pub record TxDsp (F : Type 0) : Type 0 where
  pub bandpass : List F
  pub hilbert : List F
  pub audio_history : List F
  pub filtered_history : List F
  pub audio_index : ℕ
  pub filtered_index : ℕ
  pub previous_input : F
  pub previous_highpass : F
  pub carrier_phase : F
  pub low_cut_hz : ℕ
  pub high_cut_hz : ℕ
  pub mode : TxMode

-- `flex1500_tx_audio_stats`
pub record TxAudioStats (F : Type 0) : Type 0 where
  pub microphone_frames : ℕ
  pub output_frames : ℕ
  pub dropped_microphone_frames : ℕ
  pub underrun_frames : ℕ
  pub clipped_frames : ℕ
  pub limited_frames : ℕ
  pub peak_queued_frames : ℕ
  pub input_peak : F
  pub input_rms : F
  pub post_gain_peak : F
  pub post_gain_rms : F
  pub output_peak : F
  pub output_rms : F
  pub peak_magnitude : F
  pub maximum_output_step : F

-- `flex1500_tx_audio_stream`
pub record TxAudioStream (F D : Type 0) : Type 0 where
  pub dsp : TxDsp F
  pub microphone : List F
  pub network_iq : List (Iq F)
  pub raw_iq : Bool
  pub translate_raw_iq : Bool
  pub raw_iq_phase : F
  pub read_index : ℕ
  pub write_index : ℕ
  pub count : ℕ
  pub drive_percent : ℕ
  pub microphone_gain : F
  pub compressor_enabled : Bool
  pub input_square_sum : D
  pub post_gain_square_sum : D
  pub output_square_sum : D
  pub post_gain_frames : ℕ
  pub fade_position : ℕ
  pub graceful_stop_requested : Bool
  pub previous_output_valid : Bool
  pub previous_output_i : F
  pub previous_output_q : F
  pub stats : TxAudioStats F

module _ {F D : Type 0} (c : Floats F D) where
  abbrev pub zero_f : F
  zero_f = c.real 0 1

  abbrev pub one_f : F
  one_f = c.real 1 1

  -- 3.14159265358979323846f
  abbrev pub pi : F
  pi = c.real 314159265358979323846 (10 ^ 20)

  abbrev pub zero_iq : Iq F
  zero_iq = record { i = zero_f; q = zero_f }

  abbrev pub zero_stats : TxAudioStats F
  zero_stats = record {
    microphone_frames = 0;
    output_frames = 0;
    dropped_microphone_frames = 0;
    underrun_frames = 0;
    clipped_frames = 0;
    limited_frames = 0;
    peak_queued_frames = 0;
    input_peak = zero_f;
    input_rms = zero_f;
    post_gain_peak = zero_f;
    post_gain_rms = zero_f;
    output_peak = zero_f;
    output_rms = zero_f;
    peak_magnitude = zero_f;
    maximum_output_step = zero_f;
  }
