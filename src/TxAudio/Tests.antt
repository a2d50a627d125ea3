-- ===== src/TxAudio/Tests.antt =====
-- Runs of the transmit audio stream of src/tx_audio_stream.c over whole numbers in place of floating
-- point, and its theorems at concrete calls.
use mathlib.Core.Option.{some}
use flex1500d.Base.{
  ℕ, ◌+◌, ◌-◌, ◌*◌, ◌/◌, ◌%◌, ◌≡◌, refl, true, false, List, [], ◌∷◌, if◌then◌else◌, ltb, leb,
}
use flex1500d.Base.Ints.{ℤ, pos, negsuc}
use flex1500d.Base.Lists.{drop}
use flex1500d.TxAudio.{Floats, TxMode, TxDsp, TxAudioStream}
use flex1500d.TxAudio.Dsp.{designed, init_passband}
use flex1500d.TxAudio.Push.{
  fresh, queued, begin_graceful_stop, push_pcm16le, pcm_frames, push_pcm_frame, admit,
  store_microphone, count_frames,
}
use flex1500d.TxAudio.Raw.{raw_iq_should_translate, raw_iq_dc_carrier_ratio, sum_frames}
use flex1500d.Protocol.{decode_iq_frame, to_i16}
use flex1500d.TxAudio.Queue.{queue_of}
use flex1500d.TxAudio.Sound.{contents}
use flex1500d.TxAudio.Refine.{
  Call, pushes_pcm, pushes_iq, renders, stops, stream_step, run_stream, run_stream-IsSound,
  run_queue, view, fresh-IsSound, run_stream-run_queue,
}
use flex1500d.TxAudio.Drain.{rendered, graceful_stop_drains}
use flex1500d.TxAudio.Account.{Balanced, fresh_stream-Balanced}
use flex1500d.TxAudio.Shift.{lines}
use flex1500d.TxAudio.Modulate.{
  process_all, process_lines, init_passband-IsTuned, process_all-process_lines,
}

abbrev pub integer : ℤ → ℕ
integer (pos n) = n
integer (negsuc n) = n + 1

abbrev pub whole_numbers : Floats ℕ ℕ
whole_numbers = record {
  real = λ n d. n / d;
  of_i16 = λ n. n;
  of_int = integer;
  of_nat = λ n. n;
  to_i16 = λ n. n % 65536;
  add = λ a b. a + b;
  sub = λ a b. a - b;
  mul = λ a b. a * b;
  div = λ a b. a / b;
  neg = λ a. a;
  less = ltb;
  at_most = leb;
  is_finite = λ a. true;
  fabs = λ a. a;
  cos = λ a. 1;
  sin = λ a. 0;
  pow = λ a b. a;
  hypot = λ a b. a + b;
  copysign = λ a b. a;
  fmin = λ a b. if ltb a b then a else b;
  fmax = λ a b. if ltb a b then b else a;
  widen = λ a. a;
  narrow = λ a. a;
  zero_d = 0;
  real_d = λ n d. n / d;
  of_nat_d = λ n. n;
  of_int_d = integer;
  sub_d = λ a b. a - b;
  add_d = λ a b. a + b;
  mul_d = λ a b. a * b;
  div_d = λ a b. a / b;
  sqrt = λ a. a;
  hypot_d = λ a b. a + b;
  at_most_d = leb;
}

new_dsp : TxDsp ℕ
new_dsp = designed whole_numbers TxMode.usb 300 3000

pub new_stream : TxAudioStream ℕ ℕ
new_stream = fresh whole_numbers new_dsp 100 1

abbrev calls : List Call
calls =
    pushes_pcm (1 ∷ 0 ∷ 2 ∷ 0 ∷ 3 ∷ [])
    ∷ renders 1
    ∷ pushes_iq (9 ∷ 0 ∷ 8 ∷ 0 ∷ [])
    ∷ stops
    ∷ pushes_pcm (5 ∷ 0 ∷ [])
    ∷ renders 1
    ∷ []

stream_refines :
    view whole_numbers (run_stream whole_numbers calls (fresh whole_numbers new_dsp 100 1))
    ≡ run_queue whole_numbers false calls (view whole_numbers (fresh whole_numbers new_dsp 100 1))
unfolding fresh
stream_refines =
    run_stream-run_queue whole_numbers calls (fresh whole_numbers new_dsp 100 1)
      (fresh-IsSound whole_numbers new_dsp 100 1)

calls-Balanced :
    Balanced (queue_of (run_stream whole_numbers calls (fresh whole_numbers new_dsp 100 1)))
calls-Balanced = fresh_stream-Balanced whole_numbers calls new_dsp 100 1

abbrev filled : TxAudioStream ℕ ℕ
filled =
    run_stream whole_numbers (pushes_pcm (1 ∷ 0 ∷ 2 ∷ 0 ∷ []) ∷ [])
      (fresh whole_numbers new_dsp 100 1)

filled_waits : queued filled ≡ 2
unfolding run_stream stream_step push_pcm16le pcm_frames push_pcm_frame admit store_microphone
    count_frames fresh queued
filled_waits = refl

filled_microphone : filled.raw_iq ≡ false
unfolding run_stream stream_step push_pcm16le pcm_frames push_pcm_frame admit store_microphone
    count_frames fresh
filled_microphone = refl

-- The samples that wait when the stop is asked for are rendered, and no later one is let in.
filled_drains :
    (contents 0 (
        queue_of (
          run_stream whole_numbers
            (pushes_pcm (5 ∷ 0 ∷ []) ∷ renders 2 ∷ [])
            (begin_graceful_stop filled)))
      ≡ drop 2 (contents 0 (queue_of filled)))
    × (queued (
          run_stream whole_numbers
            (pushes_pcm (5 ∷ 0 ∷ []) ∷ renders 2 ∷ [])
            (begin_graceful_stop filled))
        ≡ queued filled - 2)
unfolding rendered
filled_drains =
    graceful_stop_drains whole_numbers (pushes_pcm (5 ∷ 0 ∷ []) ∷ renders 2 ∷ []) filled
      (run_stream-IsSound whole_numbers (pushes_pcm (1 ∷ 0 ∷ 2 ∷ 0 ∷ []) ∷ [])
        (fresh whole_numbers new_dsp 100 1) (fresh-IsSound whole_numbers new_dsp 100 1))
      filled_microphone

new_dsp-init : init_passband whole_numbers TxMode.usb 300 3000 ≡ some new_dsp
unfolding init_passband new_dsp
new_dsp-init = refl

samples_modulate :
    process_all whole_numbers new_dsp (5 ∷ 9 ∷ 2 ∷ [])
    ≡ process_lines whole_numbers new_dsp (lines whole_numbers new_dsp) (5 ∷ 9 ∷ 2 ∷ [])
samples_modulate =
    process_all-process_lines whole_numbers new_dsp (5 ∷ 9 ∷ 2 ∷ [])
      (init_passband-IsTuned whole_numbers TxMode.usb 300 3000 new_dsp new_dsp-init)

-- Too little input is not translated, nor measured.
short_input :
    (raw_iq_should_translate whole_numbers (5 ∷ 0 ∷ 5 ∷ 0 ∷ []) ≡ false)
    × (raw_iq_dc_carrier_ratio whole_numbers (5 ∷ 0 ∷ 5 ∷ []) ≡ 0)
unfolding raw_iq_should_translate raw_iq_dc_carrier_ratio sum_frames decode_iq_frame to_i16
short_input = (refl, refl)
