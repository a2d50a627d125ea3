-- ===== src/TxAudio/Queue.antt =====
-- What src/tx_audio_stream.c does to its queue and its frame counters, apart from all samples'
-- values: render takes at most one frame a round, whatever the modulator and the envelope do.
use flex1500d.Base.{
  ℕ, zero, suc, ◌+◌, ◌-◌, ◌%◌, ◌≡◌, refl, ap, ◌∙◌, Bool, true, false, List, if◌then◌else◌, ltb,
  Bool-cases, inl, inr,
}
use flex1500d.Base.Words.{add64}
use flex1500d.TxAudio.{Floats, Iq, TxAudioStream, capacity}
use flex1500d.TxAudio.Render.{
  raw_frame, consume, modulated, next_raw, next_microphone, underrun, next_frame, next_fade, emit,
  render_frame, render_frames, render_iq16le,
}

-- The fields of a stream that are no sample statistics.
pub record QueueState (F : Type 0) : Type 0 where
  pub microphone : List F
  pub network_iq : List (Iq F)
  pub raw_iq : Bool
  pub read_index : ℕ
  pub write_index : ℕ
  pub count : ℕ
  pub graceful : Bool
  pub microphone_frames : ℕ
  pub output_frames : ℕ
  pub dropped : ℕ
  pub underruns : ℕ
  pub taken : ℕ
  pub peak : ℕ

abbrev pub queue_of : {F D : Type 0} → TxAudioStream F D → QueueState F
queue_of s = record {
  microphone = s.microphone;
  network_iq = s.network_iq;
  raw_iq = s.raw_iq;
  read_index = s.read_index;
  write_index = s.write_index;
  count = s.count;
  graceful = s.graceful_stop_requested;
  microphone_frames = s.stats.microphone_frames;
  output_frames = s.stats.output_frames;
  dropped = s.stats.dropped_microphone_frames;
  underruns = s.stats.underrun_frames;
  taken = s.post_gain_frames;
  peak = s.stats.peak_queued_frames;
}

abbrev pub take_one : {F : Type 0} → QueueState F → QueueState F
take_one q = record q {
  read_index = (q.read_index + 1) % capacity;
  count = q.count - 1;
  taken = add64 q.taken 1;
}

-- A frame leaves the queue, or an underrun is counted.
unfoldable pub leave : {F : Type 0} → QueueState F → QueueState F
leave q = if ltb 0 q.count then take_one q else record q { underruns = add64 q.underruns 1 }

unfoldable pub leave_all : {F : Type 0} → ℕ → QueueState F → QueueState F
leave_all zero q = q
leave_all (suc n) q = leave_all n (leave q)

module _ {F D : Type 0} (c : Floats F D) where
  queue_of-if :
      (b : Bool) (x y : Iq F × TxAudioStream F D) (t : QueueState F)
      → queue_of x.1 ≡ t
      → queue_of y.1 ≡ t
      → queue_of (if b then x else y).1 ≡ t
  queue_of-if true x y t e f = e
  queue_of-if false x y t e f = f

  queue_of-raw_frame : (s : TxAudioStream F D) → queue_of (raw_frame c s).1 ≡ queue_of s
  unfolding raw_frame
  queue_of-raw_frame s = queue_of-if s.translate_raw_iq _ _ (queue_of s) refl refl

  queue_of-next_raw : (s : TxAudioStream F D) → queue_of (next_raw c s).1 ≡ take_one (queue_of s)
  unfolding next_raw consume
  queue_of-next_raw s = ap take_one (queue_of-raw_frame s)

  queue_of-next_frame : (s : TxAudioStream F D) → queue_of (next_frame c s).1 ≡ leave (queue_of s)
  unfolding next_frame next_microphone modulated consume underrun leave
  queue_of-next_frame s = elim (Bool-cases (ltb 0 s.count)) [
    | inl e ↦ rw e (queue_of-if s.raw_iq _ _ (take_one (queue_of s)) (queue_of-next_raw s) refl)
    | inr e ↦ rw e
  ]

  pub queue_of-render_frame :
      (s : TxAudioStream F D) → queue_of (render_frame c s).1 ≡ leave (queue_of s)
  unfolding render_frame next_fade emit
  queue_of-render_frame s = queue_of-next_frame s

  pub queue_of-render_frames :
      (n : ℕ) (s : TxAudioStream F D) → queue_of (render_frames c n s).1 ≡ leave_all n (queue_of s)
  unfolding render_frames leave_all
  queue_of-render_frames zero s = refl
  queue_of-render_frames (suc n) s =
      queue_of-render_frames n (render_frame c s).1 ∙ ap (leave_all n) (queue_of-render_frame s)

  pub queue_of-render_iq16le :
      (n : ℕ) (s : TxAudioStream F D)
      → queue_of (render_iq16le c n s).1
        ≡ (let q = leave_all n (queue_of s) in record q { output_frames = add64 q.output_frames n })
  unfolding render_iq16le
  queue_of-render_iq16le n s =
      ap (λ (q : QueueState F). record q { output_frames = add64 q.output_frames n })
        (queue_of-render_frames n s)
