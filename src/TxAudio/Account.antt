-- ===== src/TxAudio/Account.antt =====
-- The counters of src/tx_audio_stream.c: no frame of the input is lost without being counted, and
-- each frame of the output is one that was taken or an underrun.
use flex1500d.Base.{
  ℕ, zero, suc, ◌+◌, ◌/◌, ◌%◌, ◌≡◌, refl, sym, ◌∙◌, Bool, true, false, List, [], ◌∷◌, ◌||◌,
  if◌then◌else◌, ◌==◌, ltb, ◌≤◌, Bool-cases, inl, inr, arith,
}
use mathlib.Core.Path.{subst}
use flex1500d.Base.Words.{add64, u64_mod}
use flex1500d.Base.Lists.{length}
use flex1500d.TxAudio.{Floats, Iq, TxDsp, TxAudioStream, capacity}
use flex1500d.TxAudio.Push.{fresh, begin_graceful_stop}
use flex1500d.TxAudio.Queue.{QueueState, queue_of, leave, leave_all, queue_of-render_iq16le}
use flex1500d.TxAudio.Sound.{IsSound, enter, enter-IsSound}
use flex1500d.TxAudio.Enter.{
  enter_all, counted, pcm_input, iq_input, queue_of-push_pcm16le, queue_of-push_iq16le,
}
use flex1500d.TxAudio.Refine.{
  Call, pushes_pcm, pushes_iq, renders, stops, stream_step, run_stream, step-IsSound, fresh-IsSound,
}

-- Counters of 64 bits that wrap agree modulo 2^64.
abbrev pub input_balance : {F : Type 0} → QueueState F → ℕ
input_balance q = (q.dropped + q.taken + q.count) % u64_mod

abbrev pub output_balance : {F : Type 0} → QueueState F → ℕ
output_balance q = (q.taken + q.underruns) % u64_mod

-- The highest count was the highest, and there was room for it.
abbrev pub Peaked : {F : Type 0} → QueueState F → Type 0
Peaked q = (q.count ≤ q.peak) × (q.peak ≤ capacity)

abbrev pub Balanced : {F : Type 0} → QueueState F → Type 0
Balanced q =
    (input_balance q ≡ q.microphone_frames) × (output_balance q ≡ q.output_frames) × Peaked q

-- A queue whose counters are `n` frames of input and `m` of output ahead.
record Ahead {F : Type 0} (n m : ℕ) (q p : QueueState F) : Type 0 where
  input : input_balance p ≡ add64 (input_balance q) n
  output : output_balance p ≡ add64 (output_balance q) m
  microphone : p.microphone_frames ≡ q.microphone_frames
  rendered : p.output_frames ≡ q.output_frames
  peak : Peaked p

enter-Ahead :
    {F : Type 0} (sample : F) (iq : Iq F) (q : QueueState F)
    → IsSound q
    → Peaked q
    → Ahead 1 0 q (enter sample iq q)
unfolding enter
enter-Ahead sample iq q v (a, b) = elim (Bool-cases (q.count == capacity)) [
  | inl e ↦ rw e record {
    input = omega arith;
    output = omega arith;
    microphone = refl;
    rendered = refl;
    peak = (a, b);
  }
  | inr e ↦ rw e record {
    input = omega arith;
    output = omega arith;
    microphone = refl;
    rendered = refl;
    peak = (ground arith, ground (arith, v.room));
  }
]

leave-Ahead : {F : Type 0} (q : QueueState F) → Peaked q → Ahead 0 1 q (leave q)
unfolding leave
leave-Ahead q (a, b) = elim (Bool-cases (ltb 0 q.count)) [
  | inl e ↦ rw e record {
    input = ground arith;
    output = omega arith;
    microphone = refl;
    rendered = refl;
    peak = (omega arith, b);
  }
  | inr e ↦ rw e record {
    input = omega arith;
    output = omega arith;
    microphone = refl;
    rendered = refl;
    peak = (a, b);
  }
]

stay-Ahead : {F : Type 0} (q : QueueState F) → Peaked q → Ahead 0 0 q q
stay-Ahead q h = record {
  input = omega arith;
  output = omega arith;
  microphone = refl;
  rendered = refl;
  peak = h;
}

trans-Ahead :
    {F : Type 0} (n n' m m' k l : ℕ) (q p r : QueueState F)
    → k ≡ n + n'
    → l ≡ m + m'
    → Ahead n m q p
    → Ahead n' m' p r
    → Ahead k l q r
trans-Ahead n n' m m' k l q p r d e x y = record {
  input = omega (arith, x.input, y.input);
  output = omega (arith, x.output, y.output);
  microphone = y.microphone ∙ x.microphone;
  rendered = y.rendered ∙ x.rendered;
  peak = y.peak;
}

enter_all-Ahead :
    {F : Type 0} (frames : List (F × Iq F)) (q : QueueState F)
    → IsSound q
    → Peaked q
    → Ahead (length frames) 0 q (enter_all frames q)
unfolding enter_all
enter_all-Ahead [] q v h = stay-Ahead q h
enter_all-Ahead ((sample, iq) ∷ frames) q v h =
    let one = enter-Ahead sample iq q v h in
    trans-Ahead 1 (length frames) 0 0 (suc (length frames)) 0 q (enter sample iq q)
      (enter_all frames (enter sample iq q)) (omega arith) (omega arith) one
      (enter_all-Ahead frames (enter sample iq q) (enter-IsSound sample iq q v) one.peak)

leave_all-Ahead : {F : Type 0} (n : ℕ) (q : QueueState F) → Peaked q → Ahead 0 n q (leave_all n q)
unfolding leave_all
leave_all-Ahead zero q h = stay-Ahead q h
leave_all-Ahead (suc n) q h =
    let one = leave-Ahead q h in
    trans-Ahead 0 0 1 n 0 (suc n) q (leave q) (leave_all n (leave q)) (omega arith) (omega arith)
      one (leave_all-Ahead n (leave q) one.peak)

-- What the operations that add up a total do to the balance.
counted-Balanced :
    {F : Type 0} (n : ℕ) (frames : List (F × Iq F)) (q : QueueState F)
    → IsSound q
    → length frames ≡ n
    → Balanced q
    → Balanced (counted n (enter_all frames q))
counted-Balanced n frames q v e (a, b, h) =
    let x = enter_all-Ahead frames q v h in
    (omega (arith, x.input, x.microphone), omega (arith, x.output, x.rendered), x.peak)

rendered-Balanced :
    {F : Type 0} (n : ℕ) (q : QueueState F)
    → Balanced q
    → Balanced (let p = leave_all n q in record p { output_frames = add64 p.output_frames n })
rendered-Balanced n q (a, b, h) =
    let x = leave_all-Ahead n q h in
    (omega (arith, x.input, x.microphone), omega (arith, x.output, x.rendered), x.peak)

if-Balanced :
    {F : Type 0} (b : Bool) (q p : QueueState F)
    → Balanced q
    → Balanced p
    → Balanced (if b then q else p)
if-Balanced true q p h k = h
if-Balanced false q p h k = k

module _ {F D : Type 0} (c : Floats F D) where
  length-pcm_input : (input : List ℕ) → length (pcm_input c input) ≡ length input / 2
  unfolding pcm_input
  length-pcm_input [] = refl
  length-pcm_input (low ∷ []) = refl
  length-pcm_input (low ∷ high ∷ input) = omega (arith, length-pcm_input input)

  length-iq_input : (input : List ℕ) → length (iq_input c input) ≡ length input / 4
  unfolding iq_input
  length-iq_input [] = refl
  length-iq_input (a ∷ []) = refl
  length-iq_input (a ∷ b ∷ []) = refl
  length-iq_input (a ∷ b ∷ d ∷ []) = refl
  length-iq_input (i0 ∷ i1 ∷ q0 ∷ q1 ∷ input) = omega (arith, length-iq_input input)

  stop-Balanced :
      (s : TxAudioStream F D) → Balanced (queue_of s) → Balanced (queue_of (begin_graceful_stop s))
  unfolding begin_graceful_stop
  stop-Balanced s h = elim (Bool-cases s.raw_iq) [ inl e ↦ rw e h | inr e ↦ rw e h ]

  step-Balanced :
      (call : Call) (s : TxAudioStream F D)
      → IsSound (queue_of s)
      → Balanced (queue_of s)
      → Balanced (queue_of (stream_step c s call))
  unfolding stream_step
  step-Balanced (pushes_pcm input) s v h = subst Balanced (sym (queue_of-push_pcm16le c input s)) (
      if-Balanced (s.raw_iq || s.graceful_stop_requested) (queue_of s) _ h (
        counted-Balanced (length input / 2) (pcm_input c input) (queue_of s) v
          (length-pcm_input input) h))
  step-Balanced (pushes_iq input) s v h = subst Balanced (sym (queue_of-push_iq16le c input s)) (
      if-Balanced s.graceful_stop_requested (queue_of s) _ h (
        counted-Balanced (length input / 4) (iq_input c input) (queue_of s) v
          (length-iq_input input) h))
  step-Balanced (renders n) s v h =
      subst Balanced (sym (queue_of-render_iq16le c n s)) (rendered-Balanced n (queue_of s) h)
  step-Balanced stops s v h = stop-Balanced s h

  fresh-Balanced :
      (dsp : TxDsp F) (drive_percent : ℕ) (gain : F)
      → Balanced (queue_of (fresh c dsp drive_percent gain))
  unfolding fresh
  fresh-Balanced dsp drive_percent gain = (refl, refl, (omega arith, omega arith))

  run-Balanced :
      (calls : List Call) (s : TxAudioStream F D)
      → IsSound (queue_of s)
      → Balanced (queue_of s)
      → Balanced (queue_of (run_stream c calls s))
  unfolding run_stream
  run-Balanced [] s v h = h
  run-Balanced (call ∷ calls) s v h =
      run-Balanced calls (stream_step c s call) (step-IsSound c call s v) (step-Balanced call s v h)

  -- After any sequence of pushes, renderings and stops on a new stream, the frames given to it are
  -- those dropped, those taken for the output and those that wait, and the frames of output are
  -- those taken and the underruns, all modulo 2^64; the peak is at least the number that wait and
  -- at most the capacity.
  pub fresh_stream-Balanced :
      (calls : List Call) (dsp : TxDsp F) (drive_percent : ℕ) (gain : F)
      → Balanced (queue_of (run_stream c calls (fresh c dsp drive_percent gain)))
  fresh_stream-Balanced calls dsp drive_percent gain =
      run-Balanced calls (fresh c dsp drive_percent gain) (fresh-IsSound c dsp drive_percent gain)
        (fresh-Balanced dsp drive_percent gain)
