-- ===== src/TxAudio/Enter.antt =====
-- What the pushes of src/tx_audio_stream.c do to the queue: each frame of the input enters it in
-- turn, or is dropped where it is full.
use flex1500d.Base.{
  ℕ, zero, suc, ◌+◌, ◌-◌, ◌/◌, ◌≡◌, refl, ap, sym, ◌∙◌, Bool, true, false, List, [], ◌∷◌, ◌++◌,
  ◌||◌, map, if◌then◌else◌, ◌==◌, Bool-cases, inl, inr, arith,
}
use flex1500d.Base.Words.{add64}
use flex1500d.Base.Lists.{length, take, length-append}
use flex1500d.TxAudio.{Floats, Iq, TxAudioStream, capacity, zero_iq}
use flex1500d.TxAudio.Push.{
  le16, drop_frame, normalize, admit, store_microphone, store_iq, push_pcm_frame, push_iq_frame,
  pcm_frames, iq_frames, count_frames, push_pcm16le, push_iq16le,
}
use flex1500d.TxAudio.Queue.{QueueState, queue_of}
use flex1500d.TxAudio.Sound.{
  enter, IsSound, enter-IsSound, contents, length-contents, contents-enter, stored,
}

unfoldable pub enter_all : {F : Type 0} → List (F × Iq F) → QueueState F → QueueState F
enter_all [] q = q
enter_all ((sample, iq) ∷ frames) q = enter_all frames (enter sample iq q)

abbrev pub counted : {F : Type 0} → ℕ → QueueState F → QueueState F
counted frames q = record q { microphone_frames = add64 q.microphone_frames frames }

raw_iq-enter :
    {F : Type 0} (sample : F) (iq : Iq F) (q : QueueState F) → (enter sample iq q).raw_iq ≡ q.raw_iq
unfolding enter
raw_iq-enter sample iq q = elim (Bool-cases (q.count == capacity)) [ inl e ↦ rw e | inr e ↦ rw e ]

graceful-enter :
    {F : Type 0} (sample : F) (iq : Iq F) (q : QueueState F)
    → (enter sample iq q).graceful ≡ q.graceful
unfolding enter
graceful-enter sample iq q = elim (Bool-cases (q.count == capacity)) [ inl e ↦ rw e | inr e ↦ rw e ]

pub enter_all-IsSound :
    {F : Type 0} (frames : List (F × Iq F)) (q : QueueState F)
    → IsSound q
    → IsSound (enter_all frames q)
unfolding enter_all
enter_all-IsSound [] q v = v
enter_all-IsSound ((sample, iq) ∷ frames) q v =
    enter_all-IsSound frames (enter sample iq q) (enter-IsSound sample iq q v)

pub raw_iq-enter_all :
    {F : Type 0} (frames : List (F × Iq F)) (q : QueueState F)
    → (enter_all frames q).raw_iq ≡ q.raw_iq
unfolding enter_all
raw_iq-enter_all [] q = refl
raw_iq-enter_all ((sample, iq) ∷ frames) q =
    raw_iq-enter_all frames (enter sample iq q) ∙ raw_iq-enter sample iq q

pub graceful-enter_all :
    {F : Type 0} (frames : List (F × Iq F)) (q : QueueState F)
    → (enter_all frames q).graceful ≡ q.graceful
unfolding enter_all
graceful-enter_all [] q = refl
graceful-enter_all ((sample, iq) ∷ frames) q =
    graceful-enter_all frames (enter sample iq q) ∙ graceful-enter sample iq q

append-take_empty : {A : Type 0} (xs : List A) (k : ℕ) → xs ++ take k [] ≡ xs
append-take_empty [] zero = refl
append-take_empty [] (suc k) = refl
append-take_empty (x ∷ xs) k = ap (λ l. x ∷ l) (append-take_empty xs k)

-- Room for `k` elements after a list is taken from the front.
append-take :
    {A : Type 0} (xs ys : List A) (x : A) (k : ℕ)
    → (xs ++ take k (x ∷ [])) ++ take (k - length (take k (x ∷ []))) ys ≡ xs ++ take k (x ∷ ys)
append-take [] ys x zero = refl
append-take [] ys x (suc zero) = refl
append-take [] ys x (suc (suc k)) =
    ap (λ j. x ∷ take j ys) {x = suc (suc k) - 1} {y = suc k} (omega arith)
append-take (z ∷ xs) ys x k = ap (λ l. z ∷ l) (append-take xs ys x k)

module _ {F : Type 0} (zero_sample : F) where
  abbrev pub stored_frame : Bool → F × Iq F → Iq F
  stored_frame raw (sample, iq) = stored zero_sample raw sample iq

  count-enter :
      (sample : F) (iq : Iq F) (q : QueueState F)
      → IsSound q
      → capacity - (enter sample iq q).count
        ≡ capacity
          - q.count
          - length (take (capacity - q.count) (stored zero_sample q.raw_iq sample iq ∷ []))
  count-enter sample iq q v =
      ap (λ k. capacity - k)
        (sym (length-contents zero_sample (enter sample iq q))
          ∙ ap length (contents-enter zero_sample sample iq q v)
          ∙ length-append (contents zero_sample q)
              (take (capacity - q.count) (stored zero_sample q.raw_iq sample iq ∷ []))
          ∙ ap
              (λ k.
                k + length (take (capacity - q.count) (stored zero_sample q.raw_iq sample iq ∷ [])))
              (length-contents zero_sample q))
      ∙ omega arith

  -- The frames that there is room for are the last to wait, in their order.
  pub contents-enter_all :
      (frames : List (F × Iq F)) (q : QueueState F)
      → IsSound q
      → contents zero_sample (enter_all frames q)
        ≡ contents zero_sample q ++ take (capacity - q.count) (map (stored_frame q.raw_iq) frames)
  unfolding enter_all
  contents-enter_all [] q v = sym (append-take_empty (contents zero_sample q) (capacity - q.count))
  contents-enter_all ((sample, iq) ∷ frames) q v =
      contents-enter_all frames (enter sample iq q) (enter-IsSound sample iq q v)
      ∙ ap
          (λ raw.
            contents zero_sample (enter sample iq q)
            ++ take (capacity - (enter sample iq q).count) (map (stored_frame raw) frames))
          (raw_iq-enter sample iq q)
      ∙ ap
          (λ k.
            contents zero_sample (enter sample iq q) ++ take k (map (stored_frame q.raw_iq) frames))
          (count-enter sample iq q v)
      ∙ ap
          (λ xs.
            xs
            ++ take
                (capacity
                  - q.count
                  - length (take (capacity - q.count) (stored zero_sample q.raw_iq sample iq ∷ [])))
                (map (stored_frame q.raw_iq) frames))
          (contents-enter zero_sample sample iq q v)
      ∙ append-take (contents zero_sample q) (map (stored_frame q.raw_iq) frames)
          (stored zero_sample q.raw_iq sample iq) (capacity - q.count)

module _ {F D : Type 0} (c : Floats F D) where
  -- The frames of an input of two or four bytes each.
  unfoldable pub pcm_input : List ℕ → List (F × Iq F)
  pcm_input (low ∷ high ∷ input) = (normalize c (le16 low high), zero_iq c) ∷ pcm_input input
  pcm_input (low ∷ []) = []
  pcm_input [] = []

  abbrev pub iq_frame : ℕ → ℕ → F × Iq F
  iq_frame i q = (normalize c i, record { i = normalize c i; q = normalize c q })

  unfoldable pub iq_input : List ℕ → List (F × Iq F)
  iq_input (i0 ∷ i1 ∷ q0 ∷ q1 ∷ input) = iq_frame (le16 i0 i1) (le16 q0 q1) ∷ iq_input input
  iq_input _ = []

  queue_of-push_pcm_frame :
      (pattern : ℕ) (s : TxAudioStream F D)
      → s.raw_iq ≡ false
      → queue_of (push_pcm_frame c pattern s) ≡ enter (normalize c pattern) (zero_iq c) (queue_of s)
  unfolding push_pcm_frame drop_frame admit store_microphone enter
  queue_of-push_pcm_frame pattern s h = elim (Bool-cases (s.count == capacity)) [
    | inl e ↦ rw e
    | inr e ↦ rw (e, h)
  ]

  queue_of-push_iq_frame :
      (i q : ℕ) (s : TxAudioStream F D)
      → queue_of (push_iq_frame c i q s)
        ≡ enter (normalize c i) record { i = normalize c i; q = normalize c q } (queue_of s)
  unfolding push_iq_frame drop_frame admit store_iq store_microphone enter
  queue_of-push_iq_frame i q s = elim (Bool-cases (s.count == capacity)) [
    | inl e ↦ rw e
    | inr e ↦ elim (Bool-cases s.raw_iq) [ inl h ↦ rw (e, h) | inr h ↦ rw (e, h) ]
  ]

  queue_of-pcm_frames :
      (input : List ℕ) (s : TxAudioStream F D)
      → s.raw_iq ≡ false
      → queue_of (pcm_frames c input s).1 ≡ enter_all (pcm_input input) (queue_of s)
  unfolding pcm_frames enter_all pcm_input
  queue_of-pcm_frames [] s h = refl
  queue_of-pcm_frames (low ∷ []) s h = refl
  queue_of-pcm_frames (low ∷ high ∷ input) s h =
      let e = queue_of-push_pcm_frame (le16 low high) s h in
      queue_of-pcm_frames input (push_pcm_frame c (le16 low high) s) (
        ap (λ (q : QueueState F). q.raw_iq) e
        ∙ raw_iq-enter (normalize c (le16 low high)) (zero_iq c) (queue_of s)
        ∙ h)
      ∙ ap (enter_all (pcm_input input)) e

  queue_of-iq_frames :
      (input : List ℕ) (s : TxAudioStream F D)
      → queue_of (iq_frames c input s).1 ≡ enter_all (iq_input input) (queue_of s)
  unfolding iq_frames enter_all iq_input
  queue_of-iq_frames [] s = refl
  queue_of-iq_frames (a ∷ []) s = refl
  queue_of-iq_frames (a ∷ b ∷ []) s = refl
  queue_of-iq_frames (a ∷ b ∷ d ∷ []) s = refl
  queue_of-iq_frames (i0 ∷ i1 ∷ q0 ∷ q1 ∷ input) s =
      queue_of-iq_frames input (push_iq_frame c (le16 i0 i1) (le16 q0 q1) s)
      ∙ ap (enter_all (iq_input input)) (queue_of-push_iq_frame (le16 i0 i1) (le16 q0 q1) s)

  queue_of-if :
      (b : Bool) (x y : ℕ × TxAudioStream F D) (t u : QueueState F)
      → queue_of x.1 ≡ t
      → (b ≡ false → queue_of y.1 ≡ u)
      → queue_of (if b then x else y).1 ≡ (if b then t else u)
  queue_of-if true x y t u e f = e
  queue_of-if false x y t u e f = f refl

  or_false : (a b : Bool) → (a || b) ≡ false → a ≡ false
  or_false a b h = ground arith

  pub queue_of-push_pcm16le :
      (input : List ℕ) (s : TxAudioStream F D)
      → queue_of (push_pcm16le c input s).1 ≡ (
          if s.raw_iq || s.graceful_stop_requested
          then queue_of s
          else counted (length input / 2) (enter_all (pcm_input input) (queue_of s)))
  unfolding push_pcm16le count_frames
  queue_of-push_pcm16le input s =
      queue_of-if (s.raw_iq || s.graceful_stop_requested) _ _ (queue_of s)
        (counted (length input / 2) (enter_all (pcm_input input) (queue_of s))) refl
        (λ e.
          ap (counted (length input / 2))
            (queue_of-pcm_frames input s (or_false s.raw_iq s.graceful_stop_requested e)))

  pub queue_of-push_iq16le :
      (input : List ℕ) (s : TxAudioStream F D)
      → queue_of (push_iq16le c input s).1 ≡ (
          if s.graceful_stop_requested
          then queue_of s
          else counted (length input / 4) (enter_all (iq_input input) (queue_of s)))
  unfolding push_iq16le count_frames
  queue_of-push_iq16le input s =
      queue_of-if s.graceful_stop_requested _ _ (queue_of s)
        (counted (length input / 4) (enter_all (iq_input input) (queue_of s))) refl
        (λ e. ap (counted (length input / 4)) (queue_of-iq_frames input s))
