-- ===== src/TxAudio/Raw.antt =====
-- src/tx_audio_stream.c: the measurements of raw I/Q that choose whether it is translated.
use flex1500d.Base.{ℕ, ◌*◌, ◌/◌, Bool, false, List, ◌∷◌, ◌&&◌, if◌then◌else◌, ltb}
use flex1500d.Base.Lists.{length}
use flex1500d.Protocol.{decode_iq_frame}
use flex1500d.TxAudio.{Floats, zero_f}

-- The sums over the frames of an input.
pub record IqSums (D : Type 0) : Type 0 where
  pub sum_i : D
  pub sum_q : D
  pub sum_power : D

module _ {F D : Type 0} (c : Floats F D) where
  -- The loop over the frames of four bytes.
  unfoldable pub sum_frames : List ℕ → IqSums D → IqSums D
  sum_frames (i0 ∷ i1 ∷ q0 ∷ q1 ∷ input) s =
      let (i, q) = decode_iq_frame i0 i1 q0 q1 in
      let i = c.of_int_d i in
      let q = c.of_int_d q in
      sum_frames input record {
        sum_i = c.add_d s.sum_i i;
        sum_q = c.add_d s.sum_q q;
        sum_power = c.add_d s.sum_power (c.add_d (c.mul_d i i) (c.mul_d q q));
      }
  sum_frames _ s = s

  abbrev no_sums : IqSums D
  no_sums = record { sum_i = c.zero_d; sum_q = c.zero_d; sum_power = c.zero_d }

  -- The root of the mean power.
  abbrev rms : List ℕ → D → D
  rms input sum_power = c.sqrt (c.div_d sum_power (c.of_nat_d (length input / 4)))

  unfoldable pub raw_iq_dc_carrier_ratio : List ℕ → F
  raw_iq_dc_carrier_ratio input =
      let s = sum_frames input no_sums in
      let frames = c.of_nat_d (length input / 4) in
      if ltb (length input) 4
      then zero_f c
      else if c.at_most_d s.sum_power c.zero_d
      then zero_f c
      else c.narrow (
          c.div_d (c.hypot_d (c.div_d s.sum_i frames) (c.div_d s.sum_q frames))
            (rms input s.sum_power))

  unfoldable pub raw_iq_should_translate : List ℕ → Bool
  raw_iq_should_translate input =
      if ltb (length input) (1024 * 4)
      then false
      else c.at_most_d (c.real_d 2 100)
          (c.div_d (rms input (sum_frames input no_sums).sum_power) (c.real_d 32768 1))
        && c.at_most (c.real 75 100) (raw_iq_dc_carrier_ratio input)
