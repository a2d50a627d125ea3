-- ===== src/TxAudio/Refine.antt =====
-- The transmit audio stream of src/tx_audio_stream.c refines a bounded queue of frames that a
-- graceful stop closes, over every sequence of calls.
use mathlib.Core.Path.{ap₂, subst}
use flex1500d.Base.{
  ℕ, zero, suc, ◌-◌, ◌/◌, ◌≡◌, refl, ap, sym, ◌∙◌, Bool, true, false, not, List, [], ◌∷◌, ◌++◌,
  ◌||◌, map, if◌then◌else◌, ltb, Bool-cases, inl, inr, arith,
}
use flex1500d.Base.Lists.{length, take, drop, length-replicate}
use flex1500d.TxAudio.{Floats, Iq, TxDsp, TxAudioStream, capacity, zero_f, zero_iq}
use flex1500d.TxAudio.Push.{fresh, push_pcm16le, push_iq16le, begin_graceful_stop}
use flex1500d.TxAudio.Render.{render_iq16le}
use flex1500d.TxAudio.Queue.{QueueState, queue_of, leave, leave_all, queue_of-render_iq16le}
use flex1500d.TxAudio.Sound.{IsSound, leave-IsSound, contents, length-contents, contents-leave}
use flex1500d.TxAudio.Enter.{
  enter_all, counted, pcm_input, iq_input, stored_frame, enter_all-IsSound, raw_iq-enter_all,
  graceful-enter_all, contents-enter_all, queue_of-push_pcm16le, queue_of-push_iq16le,
}

-- A call on the stream: two kinds of push, the rendering of frames, and the graceful stop.
pub data Call : Type 0 where
  pushes_pcm pushes_iq : List ℕ → Call
  renders : ℕ → Call
  stops : Call

-- The frames that wait, and whether a graceful stop was asked for.
abbrev pub Queue : Type 0 → Type 0
Queue F = List (Iq F) × Bool

module _ {F D : Type 0} (c : Floats F D) where
  unfoldable pub stream_step : TxAudioStream F D → Call → TxAudioStream F D
  stream_step s (pushes_pcm input) = (push_pcm16le c input s).1
  stream_step s (pushes_iq input) = (push_iq16le c input s).1
  stream_step s (renders frames) = (render_iq16le c frames s).1
  stream_step s stops = begin_graceful_stop s

  unfoldable pub run_stream : List Call → TxAudioStream F D → TxAudioStream F D
  run_stream [] s = s
  run_stream (call ∷ calls) s = run_stream calls (stream_step s call)

  abbrev pub append_frames : Bool → List (F × Iq F) → Queue F → Queue F
  append_frames raw frames (q, stopping) =
      (q ++ take (capacity - length q) (map (stored_frame (zero_f c) raw) frames), stopping)

  -- The promise, for a stream of raw I/Q or of microphone samples.
  unfoldable pub queue_step : Bool → Queue F → Call → Queue F
  queue_step raw (q, stopping) (pushes_pcm input) =
      if raw || stopping then (q, stopping) else append_frames raw (pcm_input c input) (q, stopping)
  queue_step raw (q, stopping) (pushes_iq input) =
      if stopping then (q, stopping) else append_frames raw (iq_input c input) (q, stopping)
  queue_step raw (q, stopping) (renders frames) = (drop frames q, stopping)
  queue_step raw (q, stopping) stops = (q, (if not raw then true else stopping))

  unfoldable pub run_queue : Bool → List Call → Queue F → Queue F
  run_queue raw [] q = q
  run_queue raw (call ∷ calls) q = run_queue raw calls (queue_step raw q call)

  unfoldable pub view : TxAudioStream F D → Queue F
  view s = (contents (zero_f c) (queue_of s), s.graceful_stop_requested)

  drop-drop : {A : Type 0} (n : ℕ) (xs : List A) → drop n (drop 1 xs) ≡ drop (suc n) xs
  drop-drop zero [] = refl
  drop-drop (suc n) [] = refl
  drop-drop n (x ∷ xs) = refl

  raw_iq-leave : (q : QueueState F) → (leave q).raw_iq ≡ q.raw_iq
  unfolding leave
  raw_iq-leave q = elim (Bool-cases (ltb 0 q.count)) [ inl e ↦ rw e | inr e ↦ rw e ]

  graceful-leave : (q : QueueState F) → (leave q).graceful ≡ q.graceful
  unfolding leave
  graceful-leave q = elim (Bool-cases (ltb 0 q.count)) [ inl e ↦ rw e | inr e ↦ rw e ]

  leave_all-Keeps :
      (n : ℕ) (q : QueueState F)
      → contents (zero_f c) (leave_all n q) ≡ drop n (contents (zero_f c) q)
        × (leave_all n q).raw_iq ≡ q.raw_iq
        × (leave_all n q).graceful ≡ q.graceful
  unfolding leave_all
  leave_all-Keeps zero q = (refl, refl, refl)
  leave_all-Keeps (suc n) q =
      let (a, b, d) = leave_all-Keeps n (leave q) in
      (
        a ∙ ap (drop n) (contents-leave (zero_f c) q) ∙ drop-drop n (contents (zero_f c) q),
        b ∙ raw_iq-leave q,
        d ∙ graceful-leave q,
      )

  pub leave_all-IsSound : (n : ℕ) (q : QueueState F) → IsSound q → IsSound (leave_all n q)
  unfolding leave_all
  leave_all-IsSound zero q v = v
  leave_all-IsSound (suc n) q v = leave_all-IsSound n (leave q) (leave-IsSound q v)

  -- A queue state stands for a queue.
  record Views (raw : Bool) (v : Queue F) (q : QueueState F) : Type 0 where
    sound : IsSound q
    frames : contents (zero_f c) q ≡ v.0
    stopping : q.graceful ≡ v.1
    kind : q.raw_iq ≡ raw

  leave_all-Views :
      (raw : Bool) (n output : ℕ) (v : Queue F) (q : QueueState F)
      → Views raw v q
      → Views raw (drop n v.0, v.1) record (leave_all n q) { output_frames = output }
  unfolding contents
  leave_all-Views raw n output v q w =
      let (a, b, d) = leave_all-Keeps n q in
      let sound = leave_all-IsSound n q w.sound in
      record {
        sound = record {
          microphones = sound.microphones;
          network = sound.network;
          start = sound.start;
          room = sound.room;
          apart = sound.apart;
        };
        frames = a ∙ ap (drop n) w.frames;
        stopping = d ∙ w.stopping;
        kind = b ∙ w.kind;
      }

  append_frames-Views :
      (raw : Bool) (n : ℕ) (input : List (F × Iq F)) (v : Queue F) (q : QueueState F)
      → Views raw v q
      → Views raw (append_frames raw input v) (counted n (enter_all input q))
  unfolding contents
  append_frames-Views raw n input v q w =
      let sound = enter_all-IsSound input q w.sound in
      record {
        sound = record {
          microphones = sound.microphones;
          network = sound.network;
          start = sound.start;
          room = sound.room;
          apart = sound.apart;
        };
        frames =
            contents-enter_all (zero_f c) input q w.sound
            ∙ ap
                (λ k. k ++ take (capacity - q.count) (map (stored_frame (zero_f c) q.raw_iq) input))
                w.frames
            ∙ ap (λ k. v.0 ++ take (capacity - q.count) (map (stored_frame (zero_f c) k) input))
                w.kind
            ∙ ap (λ k. v.0 ++ take (capacity - k) (map (stored_frame (zero_f c) raw) input))
                (sym (length-contents (zero_f c) q) ∙ ap length w.frames);
        stopping = graceful-enter_all input q ∙ w.stopping;
        kind = raw_iq-enter_all input q ∙ w.kind;
      }

  if-Views :
      (b b' raw : Bool) (v u : Queue F) (q p : QueueState F)
      → b ≡ b'
      → Views raw v q
      → Views raw u p
      → Views raw (if b' then v else u) (if b then q else p)
  if-Views true true raw v u q p e w z = w
  if-Views false false raw v u q p e w z = z
  if-Views true false raw v u q p e w z = ground arith
  if-Views false true raw v u q p e w z = ground arith

  stopped :
      (b : Bool) (s : TxAudioStream F D)
      → queue_of (if b then record s { graceful_stop_requested = true } else s)
        ≡ record (queue_of s) { graceful = if b then true else s.graceful_stop_requested }
  stopped true s = refl
  stopped false s = refl

  stop-Views :
      (raw : Bool) (v : Queue F) (s : TxAudioStream F D)
      → Views raw v (queue_of s)
      → Views raw (v.0, (if not raw then true else v.1)) (queue_of (begin_graceful_stop s))
  unfolding begin_graceful_stop contents
  stop-Views raw v s w =
      subst (Views raw (v.0, (if not raw then true else v.1))) (sym (stopped (not s.raw_iq) s))
        record {
          sound = record {
            microphones = w.sound.microphones;
            network = w.sound.network;
            start = w.sound.start;
            room = w.sound.room;
            apart = w.sound.apart;
          };
          frames = w.frames;
          stopping = ap₂ (λ a b. if not a then true else b) w.kind w.stopping;
          kind = w.kind;
        }

  step-Views :
      (raw : Bool) (call : Call) (v : Queue F) (s : TxAudioStream F D)
      → Views raw v (queue_of s)
      → Views raw (queue_step raw v call) (queue_of (stream_step s call))
  unfolding queue_step stream_step
  step-Views raw (pushes_pcm input) v s w =
      subst (Views raw (queue_step raw v (pushes_pcm input)))
        (sym (queue_of-push_pcm16le c input s))
        (if-Views (s.raw_iq || s.graceful_stop_requested) (raw || v.1) raw v _ (queue_of s) _
          (ap₂ (λ a b. a || b) w.kind w.stopping) w
          (append_frames-Views raw (length input / 2) (pcm_input c input) v (queue_of s) w))
  step-Views raw (pushes_iq input) v s w =
      subst (Views raw (queue_step raw v (pushes_iq input))) (sym (queue_of-push_iq16le c input s))
        (if-Views s.graceful_stop_requested v.1 raw v _ (queue_of s) _ w.stopping w
          (append_frames-Views raw (length input / 4) (iq_input c input) v (queue_of s) w))
  step-Views raw (renders n) v s w =
      subst (Views raw (drop n v.0, v.1)) (sym (queue_of-render_iq16le c n s))
        (leave_all-Views raw n _ v (queue_of s) w)
  step-Views raw stops v s w = stop-Views raw v s w

  run-Views :
      (raw : Bool) (calls : List Call) (v : Queue F) (s : TxAudioStream F D)
      → Views raw v (queue_of s)
      → Views raw (run_queue raw calls v) (queue_of (run_stream calls s))
  unfolding run_queue run_stream
  run-Views raw [] v s w = w
  run-Views raw (call ∷ calls) v s w =
      run-Views raw calls (queue_step raw v call) (stream_step s call) (step-Views raw call v s w)

  view-Views : (s : TxAudioStream F D) → IsSound (queue_of s) → Views s.raw_iq (view s) (queue_of s)
  unfolding view
  view-Views s h = record { sound = h; frames = refl; stopping = refl; kind = refl }

  -- Any sequence of pushes, renderings and stops leaves on a sound stream what it leaves on a
  -- bounded queue: a push appends the frames that there is room for, unless the stream is stopping
  -- or, for a push of microphone samples, raw; rendering removes as many frames from the front.
  pub run_stream-run_queue :
      (calls : List Call) (s : TxAudioStream F D)
      → IsSound (queue_of s)
      → view (run_stream calls s) ≡ run_queue s.raw_iq calls (view s)
  unfolding view
  run_stream-run_queue calls s h =
      let w = run-Views s.raw_iq calls (view s) s (view-Views s h) in
      ap₂ (λ a b. (a, b)) w.frames w.stopping

  pub run_stream-IsSound :
      (calls : List Call) (s : TxAudioStream F D)
      → IsSound (queue_of s)
      → IsSound (queue_of (run_stream calls s))
  run_stream-IsSound calls s h = (run-Views s.raw_iq calls (view s) s (view-Views s h)).sound

  pub step-IsSound :
      (call : Call) (s : TxAudioStream F D)
      → IsSound (queue_of s)
      → IsSound (queue_of (stream_step s call))
  step-IsSound call s h = (step-Views s.raw_iq call (view s) s (view-Views s h)).sound

  pub fresh-IsSound :
      (dsp : TxDsp F) (drive_percent : ℕ) (gain : F)
      → IsSound (queue_of (fresh c dsp drive_percent gain))
  unfolding fresh
  fresh-IsSound dsp drive_percent gain = record {
    microphones = length-replicate capacity (zero_f c);
    network = length-replicate capacity (zero_iq c);
    start = omega arith;
    room = omega arith;
    apart = refl;
  }
