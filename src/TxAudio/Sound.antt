-- ===== src/TxAudio/Sound.antt =====
-- The queue of src/tx_audio_stream.c is sound: its indices stay in its arrays and apart by its
-- count, so that what waits is a list with a frame more at its end or one less at its front.
use mathlib.Core.List.{append-nil}
use native.Mathlib.Nat.{mod-lt}
use flex1500d.Base.{
  ℕ, zero, suc, ◌+◌, ◌-◌, ◌%◌, ◌≤◌, ◌<◌, ◌≡◌, refl, ap, sym, ◌∙◌, Bool, true, false, List, [], ◌∷◌,
  ◌++◌, map, if◌then◌else◌, ltb, ◌==◌, Bool-cases, inl, inr, arith,
}
use flex1500d.Base.Words.{add64}
use flex1500d.Base.Lists.{length, set, take, drop, length-set}
use flex1500d.IqRing.{read_samples}
use flex1500d.IqRing.Queue.{read-set_end, length-read_samples, read_congruent}
use flex1500d.TxAudio.{Iq, capacity}
use flex1500d.TxAudio.Queue.{QueueState, leave}

-- A frame is stored, or dropped where the queue is full.
abbrev pub store_one : {F : Type 0} → F → Iq F → QueueState F → QueueState F
store_one sample iq q = record q {
  microphone = if q.raw_iq then q.microphone else set q.microphone q.write_index sample;
  network_iq = if q.raw_iq then set q.network_iq q.write_index iq else q.network_iq;
  write_index = (q.write_index + 1) % capacity;
  count = q.count + 1;
  peak = if ltb q.peak (q.count + 1) then q.count + 1 else q.peak;
}

unfoldable pub enter : {F : Type 0} → F → Iq F → QueueState F → QueueState F
enter sample iq q =
    if q.count == capacity then record q { dropped = add64 q.dropped 1 } else store_one sample iq q

pub record IsSound {F : Type 0} (q : QueueState F) : Type 0 where
  pub microphones : length q.microphone ≡ capacity
  pub network : length q.network_iq ≡ capacity
  pub start : q.read_index < capacity
  pub room : q.count ≤ capacity
  pub apart : q.write_index ≡ (q.read_index + q.count) % capacity

length-if :
    {A : Type 0} (b : Bool) (xs : List A) (i : ℕ) (x : A)
    → length (if b then set xs i x else xs) ≡ length xs
length-if true xs i x = length-set xs i x
length-if false xs i x = refl

length-if_not :
    {A : Type 0} (b : Bool) (xs : List A) (i : ℕ) (x : A)
    → length (if b then xs else set xs i x) ≡ length xs
length-if_not true xs i x = refl
length-if_not false xs i x = length-set xs i x

-- The index after the end is the end of one more.
end_suc : (at n : ℕ) → ((at + n) % capacity + 1) % capacity ≡ (at + (n + 1)) % capacity
end_suc at n = omega arith

start_suc : (at n : ℕ) → 0 < n → (at + n) % capacity ≡ ((at + 1) % capacity + (n - 1)) % capacity
start_suc at n h = omega arith

store_one-IsSound :
    {F : Type 0} (sample : F) (iq : Iq F) (q : QueueState F)
    → IsSound q
    → q.count < capacity
    → IsSound (store_one sample iq q)
store_one-IsSound sample iq q v h = record {
  microphones = length-if_not q.raw_iq q.microphone q.write_index sample ∙ v.microphones;
  network = length-if q.raw_iq q.network_iq q.write_index iq ∙ v.network;
  start = v.start;
  room = omega arith;
  apart = ap (λ k. (k + 1) % capacity) v.apart ∙ end_suc q.read_index q.count;
}

pub enter-IsSound :
    {F : Type 0} (sample : F) (iq : Iq F) (q : QueueState F)
    → IsSound q
    → IsSound (enter sample iq q)
unfolding enter
enter-IsSound sample iq q v = elim (Bool-cases (q.count == capacity)) [
  | inl e ↦ rw e record {
    microphones = v.microphones;
    network = v.network;
    start = v.start;
    room = v.room;
    apart = v.apart;
  }
  | inr e ↦ rw e (store_one-IsSound sample iq q v (ground (arith, v.room)))
]

pub leave-IsSound : {F : Type 0} (q : QueueState F) → IsSound q → IsSound (leave q)
unfolding leave
leave-IsSound q v = elim (Bool-cases (ltb 0 q.count)) [
  | inr e ↦ rw e record {
    microphones = v.microphones;
    network = v.network;
    start = v.start;
    room = v.room;
    apart = v.apart;
  }
  | inl e ↦ rw e record {
    microphones = v.microphones;
    network = v.network;
    start = mod-lt (q.read_index + 1) {m = capacity} (omega arith);
    room = omega (arith, v.room);
    apart = v.apart ∙ start_suc q.read_index q.count (ground arith);
  }
]

pub append-take_none : {A : Type 0} {k : ℕ} (xs ys : List A) → k ≡ 0 → xs ++ take k ys ≡ xs
append-take_none xs ys e = ap (λ k. xs ++ take k ys) e ∙ append-nil xs

take_positive : {A : Type 0} (k : ℕ) (x : A) → 0 < k → take k (x ∷ []) ≡ x ∷ []
take_positive zero x h = absurd (omega arith)
take_positive (suc zero) x h = refl
take_positive (suc (suc k)) x h = refl

module _ {F : Type 0} (zero_sample : F) where
  abbrev silent : Iq F
  silent = record { i = zero_sample; q = zero_sample }

  abbrev pub frame_of : F → Iq F
  frame_of sample = record { i = sample; q = zero_sample }

  abbrev pub stored : Bool → F → Iq F → Iq F
  stored raw sample iq = if raw then iq else frame_of sample

  unfoldable pub contents_of : Bool → List F → List (Iq F) → ℕ → ℕ → List (Iq F)
  contents_of true microphone network_iq at n = read_samples silent network_iq capacity at n
  contents_of false microphone network_iq at n =
      map frame_of (read_samples zero_sample microphone capacity at n)

  -- The frames that wait, oldest first: raw I/Q, or microphone samples in I.
  unfoldable pub contents : QueueState F → List (Iq F)
  contents q = contents_of q.raw_iq q.microphone q.network_iq q.read_index q.count

  map-append : (xs ys : List F) → map frame_of (xs ++ ys) ≡ map frame_of xs ++ map frame_of ys
  map-append [] ys = refl
  map-append (x ∷ xs) ys = ap (λ k. frame_of x ∷ k) (map-append xs ys)

  length-map : (xs : List F) → length (map frame_of xs) ≡ length xs
  length-map [] = refl
  length-map (x ∷ xs) = ap suc (length-map xs)

  length-contents_of :
      (raw : Bool) (microphone : List F) (network_iq : List (Iq F)) (at n : ℕ)
      → length (contents_of raw microphone network_iq at n) ≡ n
  unfolding contents_of
  length-contents_of true microphone network_iq at n =
      length-read_samples silent network_iq capacity at n
  length-contents_of false microphone network_iq at n =
      length-map (read_samples zero_sample microphone capacity at n)
      ∙ length-read_samples zero_sample microphone capacity at n

  pub length-contents : (q : QueueState F) → length (contents q) ≡ q.count
  unfolding contents
  length-contents q = length-contents_of q.raw_iq q.microphone q.network_iq q.read_index q.count

  stored_end :
      {A : Type 0} (zero_a : A) (buffer : List A) (at n write : ℕ) (x : A)
      → write ≡ (at + n) % capacity
      → length buffer ≡ capacity
      → at < capacity
      → n < capacity
      → read_samples zero_a (set buffer write x) capacity at (n + 1)
        ≡ read_samples zero_a buffer capacity at n ++ (x ∷ [])
  stored_end zero_a buffer at n write x e l h k =
      ap (λ j. read_samples zero_a (set buffer j x) capacity at (n + 1)) e
      ∙ read-set_end zero_a buffer capacity at n x l h k

  contents_of-set :
      (raw : Bool) (microphone : List F) (network_iq : List (Iq F)) (at n write : ℕ) (sample : F)
      (iq : Iq F)
      → write ≡ (at + n) % capacity
      → length microphone ≡ capacity
      → length network_iq ≡ capacity
      → at < capacity
      → n < capacity
      → contents_of raw
          (if raw then microphone else set microphone write sample)
          (if raw then set network_iq write iq else network_iq)
          at
          (n + 1)
        ≡ contents_of raw microphone network_iq at n ++ (stored raw sample iq ∷ [])
  unfolding contents_of
  contents_of-set true microphone network_iq at n write sample iq e l m h k =
      stored_end silent network_iq at n write iq e m h k
  contents_of-set false microphone network_iq at n write sample iq e l m h k =
      ap (map frame_of) (stored_end zero_sample microphone at n write sample e l h k)
      ∙ map-append (read_samples zero_sample microphone capacity at n) (sample ∷ [])

  contents_of-drop :
      (raw : Bool) (microphone : List F) (network_iq : List (Iq F)) (at n : ℕ)
      → contents_of raw microphone network_iq ((at + 1) % capacity) n
        ≡ drop 1 (contents_of raw microphone network_iq at (suc n))
  unfolding contents_of read_samples
  contents_of-drop true microphone network_iq at n =
      read_congruent silent network_iq capacity ((at + 1) % capacity) (suc at) n (omega arith)
  contents_of-drop false microphone network_iq at n = ap (map frame_of) (
      read_congruent zero_sample microphone capacity ((at + 1) % capacity) (suc at) n (omega arith))

  contents_of-empty :
      (raw : Bool) (microphone : List F) (network_iq : List (Iq F)) (at n : ℕ)
      → n ≡ 0
      → contents_of raw microphone network_iq at n
        ≡ drop 1 (contents_of raw microphone network_iq at n)
  unfolding contents_of read_samples
  contents_of-empty true microphone network_iq at zero e = refl
  contents_of-empty false microphone network_iq at zero e = refl
  contents_of-empty raw microphone network_iq at (suc n) e = absurd (omega arith)

  -- Where there is room the frame is the last to wait, and where there is none it is dropped.
  pub contents-enter :
      (sample : F) (iq : Iq F) (q : QueueState F)
      → IsSound q
      → contents (enter sample iq q)
        ≡ contents q ++ take (capacity - q.count) (stored q.raw_iq sample iq ∷ [])
  unfolding enter contents
  contents-enter sample iq q v = elim (Bool-cases (q.count == capacity)) [
    | inl e ↦
        rw e (sym (append-take_none (contents q) (stored q.raw_iq sample iq ∷ []) (ground arith)))
    | inr e ↦ rw e (
        contents_of-set q.raw_iq q.microphone q.network_iq q.read_index q.count q.write_index sample
          iq v.apart v.microphones v.network v.start (ground (arith, v.room))
        ∙ ap (λ k. contents q ++ k)
            (sym (
              take_positive (capacity - q.count) (stored q.raw_iq sample iq)
                (ground (arith, v.room)))))
  ]

  pub contents-leave : (q : QueueState F) → contents (leave q) ≡ drop 1 (contents q)
  unfolding leave contents
  contents-leave q = elim (Bool-cases (ltb 0 q.count)) [
    | inl e ↦ rw e (
        contents_of-drop q.raw_iq q.microphone q.network_iq q.read_index (q.count - 1)
        ∙ ap (λ k. drop 1 (contents_of q.raw_iq q.microphone q.network_iq q.read_index k))
            (ground arith))
    | inr e ↦
        rw e
          (contents_of-empty q.raw_iq q.microphone q.network_iq q.read_index q.count (ground arith))
  ]
