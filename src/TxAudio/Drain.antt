-- ===== src/TxAudio/Drain.antt =====
-- The graceful stop of src/tx_audio_stream.c: it lets nothing more in, so that rendering empties
-- the queue.
use flex1500d.Base.{
  ℕ, zero, suc, ◌+◌, ◌-◌, ◌≡◌, refl, ap, sym, ◌∙◌, true, false, List, [], ◌∷◌, arith,
}
use flex1500d.Base.Lists.{length, drop, length-drop}
use flex1500d.TxAudio.{Floats, Iq, TxAudioStream, zero_f}
use flex1500d.TxAudio.Push.{begin_graceful_stop, queued}
use flex1500d.TxAudio.Queue.{queue_of}
use flex1500d.TxAudio.Sound.{IsSound, contents, length-contents}
use flex1500d.TxAudio.Refine.{
  Call, pushes_pcm, pushes_iq, renders, stops, Queue, stream_step, run_stream, queue_step,
  run_queue, view, run_stream-run_queue,
}

-- The frames that a sequence of calls renders.
unfoldable pub rendered : List Call → ℕ
rendered [] = 0
rendered (renders n ∷ calls) = n + rendered calls
rendered (pushes_pcm input ∷ calls) = rendered calls
rendered (pushes_iq input ∷ calls) = rendered calls
rendered (stops ∷ calls) = rendered calls

drop_empty : {A : Type 0} (n : ℕ) → drop {A = A} n [] ≡ []
drop_empty zero = refl
drop_empty (suc n) = refl

drop-drop : {A : Type 0} (n m : ℕ) (xs : List A) → drop m (drop n xs) ≡ drop (n + m) xs
drop-drop zero m xs = ap (λ k. drop k xs) (omega arith)
drop-drop (suc n) m [] = drop_empty m ∙ sym (drop_empty (suc n + m))
drop-drop (suc n) m (x ∷ xs) =
    drop-drop n m xs ∙ ap (λ k. drop k (x ∷ xs)) {x = suc (n + m)} {y = suc n + m} (omega arith)

module _ {F D : Type 0} (c : Floats F D) where
  run_queue-stopping :
      (calls : List Call) (q : List (Iq F))
      → run_queue c false calls (q, true) ≡ (drop (rendered calls) q, true)
  unfolding run_queue queue_step rendered
  run_queue-stopping [] q = refl
  run_queue-stopping (pushes_pcm input ∷ calls) q = run_queue-stopping calls q
  run_queue-stopping (pushes_iq input ∷ calls) q = run_queue-stopping calls q
  run_queue-stopping (stops ∷ calls) q = run_queue-stopping calls q
  run_queue-stopping (renders n ∷ calls) q =
      run_queue-stopping calls (drop n q) ∙ ap (λ k. (k, true)) (drop-drop n (rendered calls) q)

  -- After a graceful stop of a sound stream of microphone samples, whatever calls follow leave of
  -- the frames that waited all but the first that were rendered; so nothing waits once as many are
  -- rendered as waited.
  pub graceful_stop_drains :
      (calls : List Call) (s : TxAudioStream F D)
      → IsSound (queue_of s)
      → s.raw_iq ≡ false
      → (contents (zero_f c) (queue_of (run_stream c calls (begin_graceful_stop s)))
          ≡ drop (rendered calls) (contents (zero_f c) (queue_of s)))
        × (queued (run_stream c calls (begin_graceful_stop s)) ≡ queued s - rendered calls)
  unfolding begin_graceful_stop view queued run_stream stream_step run_queue queue_step
  graceful_stop_drains calls s v h =
      let e =
        ap (λ (k : Queue F). k.0)
          (run_stream-run_queue c (stops ∷ calls) s v
            ∙ ap (λ raw. run_queue c raw (stops ∷ calls) (view c s)) h
            ∙ run_queue-stopping calls (contents (zero_f c) (queue_of s))) in
      (
        e,
        sym (length-contents (zero_f c) (queue_of (run_stream c (stops ∷ calls) s)))
            ∙ ap length e
            ∙ length-drop (rendered calls) (contents (zero_f c) (queue_of s))
            ∙ ap (λ k. k - rendered calls) (length-contents (zero_f c) (queue_of s)),
      )
