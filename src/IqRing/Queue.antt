-- ===== src/IqRing/Queue.antt =====
-- The ring of src/iq.c is a bounded first-in first-out queue.
use mathlib.Core.Option.{some}
use native.Mathlib.Nat.{mod-eq_of_lt, mod-eq-sub-mod, mod-lt, mod-mod, suc-mod}
use mathlib.Core.Path.{ap₂}
use flex1500d.Base.{
  ℕ, zero, suc, ◌+◌, ◌-◌, ◌%◌, ◌<◌, ◌≤◌, ◌≡◌, ◌≢◌, refl, ap, sym, ◌∙◌, true, List, [], ◌∷◌, ◌++◌,
  if◌then◌else◌, ltb, Bool-cases, inl, inr, arith,
}
use flex1500d.Base.Lists.{
  length, get_or, set, take, length-set, get_or-set_self, get_or-set_ne, length-take,
  length-replicate,
}
use flex1500d.IqRing.{IqRing, init, write_samples, read_samples, accepted, push, available, pop}

-- An index below twice the capacity wraps at most once.
wrap : (i turn : ℕ) → i < turn + turn → i % turn ≡ (if ltb i turn then i else i - turn)
wrap i turn h = elim (Bool-cases (ltb i turn)) [
  | inl e ↦ ground (arith, mod-eq_of_lt {n = i} {m = turn} (ground arith))
  | inr e ↦ ground (
    arith,
    mod-eq-sub-mod {n = i} {m = turn} (ground arith),
    mod-eq_of_lt {n = i - turn} {m = turn} (ground arith),
  )
]

-- Two indices less than a turn apart name two places.
wrap_ne : (i j turn : ℕ) → i < j → j < i + turn → j < turn + turn → i % turn ≢ j % turn
wrap_ne i j turn a b c = ground (arith, wrap i turn (omega arith), wrap j turn c)

wrap_lt : (i turn : ℕ) → i < turn + turn → i % turn < turn
wrap_lt i turn h = ground (arith, wrap i turn h)

module _ {A : Type 0} (zero_sample : A) where
  pub record IsValid (r : IqRing zero_sample) : Type 0 where
    pub whole : length r.samples ≡ r.capacity
    pub start : r.read_index < r.capacity
    pub room : r.size ≤ r.capacity

  length-write_samples :
      (buffer : List A) (turn at : ℕ) (xs : List A)
      → length (write_samples zero_sample buffer turn at xs) ≡ length buffer
  unfolding write_samples
  length-write_samples buffer turn at [] = refl
  length-write_samples buffer turn at (x ∷ xs) = omega (
    arith,
    length-write_samples (set buffer (at % turn) x) turn (suc at) xs,
    length-set buffer (at % turn) x,
  )

  pub length-read_samples :
      (buffer : List A) (turn at n : ℕ) → length (read_samples zero_sample buffer turn at n) ≡ n
  unfolding read_samples
  length-read_samples buffer turn at zero = refl
  length-read_samples buffer turn at (suc n) = ap suc (length-read_samples buffer turn (suc at) n)

  read_at :
      (buffer : List A) (turn : ℕ) {i j m n : ℕ}
      → i ≡ j
      → m ≡ n
      → read_samples zero_sample buffer turn i m ≡ read_samples zero_sample buffer turn j n
  read_at buffer turn e f = rw (e, f)

  -- A read splits at any point.
  read-append :
      (buffer : List A) (turn at m n : ℕ)
      → read_samples zero_sample buffer turn at (m + n)
        ≡ read_samples zero_sample buffer turn at m
          ++ read_samples zero_sample buffer turn (at + m) n
  unfolding read_samples
  read-append buffer turn at zero n = read_at buffer turn (omega arith) (omega arith)
  read-append buffer turn at (suc m) n =
      read_at buffer turn {m = suc m + n} {n = suc (m + n)} refl (omega arith)
      ∙ ap (λ k. get_or buffer (at % turn) zero_sample ∷ k)
          (read-append buffer turn (suc at) m n
            ∙ ap (λ k. read_samples zero_sample buffer turn (suc at) m ++ k)
                (read_at buffer turn (omega arith) refl))

  -- A write at `j` is not seen by a read that stays within a turn before it.
  read-set :
      (buffer : List A) (turn at n j : ℕ) (x : A)
      → at + n ≤ j
      → j < at + turn
      → j < turn + turn
      → read_samples zero_sample (set buffer (j % turn) x) turn at n
        ≡ read_samples zero_sample buffer turn at n
  unfolding read_samples
  read-set buffer turn at zero j x a b c = refl
  read-set buffer turn at (suc n) j x a b c = rw (
    get_or-set_ne buffer (j % turn) (at % turn) x zero_sample
        (λ e. wrap_ne at j turn (omega arith) b c (sym e)),
    read-set buffer turn (suc at) n j x (omega arith) (omega arith) c,
  )

  append-nil : (xs : List A) → xs ++ [] ≡ xs
  append-nil [] = refl
  append-nil (z ∷ zs) = ap (λ k. z ∷ k) (append-nil zs)

  snoc-append : (xs ys : List A) (x : A) → (xs ++ (x ∷ [])) ++ ys ≡ xs ++ (x ∷ ys)
  snoc-append [] ys x = refl
  snoc-append (z ∷ zs) ys x = ap (λ k. z ∷ k) (snoc-append zs ys x)

  -- Writing just past a read extends it by that sample.
  pub read-set_end :
      (buffer : List A) (turn at n : ℕ) (x : A)
      → length buffer ≡ turn
      → at < turn
      → n < turn
      → read_samples zero_sample (set buffer ((at + n) % turn) x) turn at (n + 1)
        ≡ read_samples zero_sample buffer turn at n ++ (x ∷ [])
  unfolding read_samples
  read-set_end buffer turn at n x l h r = rw (
    read-append (set buffer ((at + n) % turn) x) turn at n 1,
    read-set buffer turn at n (at + n) x (omega arith) (omega arith) (omega arith),
    get_or-set_self buffer ((at + n) % turn) x zero_sample
        (omega (arith, wrap_lt (at + n) turn (omega arith), l)),
  )

  -- Writing samples just past a read extends it by them, as far as there is room.
  read-write_samples :
      (buffer : List A) (turn at n : ℕ) (xs : List A)
      → length buffer ≡ turn
      → at < turn
      → n + length xs ≤ turn
      → read_samples zero_sample
          (write_samples zero_sample buffer turn (at + n) xs)
          turn
          at
          (n + length xs)
        ≡ read_samples zero_sample buffer turn at n ++ xs
  unfolding write_samples
  read-write_samples buffer turn at n [] l h r =
      read_at buffer turn refl (omega arith)
      ∙ sym (append-nil (read_samples zero_sample buffer turn at n))
  read-write_samples buffer turn at n (x ∷ xs) l h r =
      let buffer' = set buffer ((at + n) % turn) x in
      ap
        (λ k.
          read_samples zero_sample (write_samples zero_sample buffer' turn k xs) turn at
            (n + suc (length xs)))
        (omega arith)
      ∙ read_at (write_samples zero_sample buffer' turn (at + (n + 1)) xs) turn refl (omega arith)
      ∙ read-write_samples buffer' turn at (n + 1) xs (length-set buffer ((at + n) % turn) x ∙ l) h
          (omega arith)
      ∙ ap (λ k. k ++ xs) (read-set_end buffer turn at n x l h (omega arith))
      ∙ snoc-append (read_samples zero_sample buffer turn at n) xs x

  -- The samples that wait, oldest first.
  unfoldable pub contents : IqRing zero_sample → List A
  contents r = read_samples zero_sample r.samples r.capacity r.read_index r.size

  accepted_le : (r : IqRing zero_sample) (n : ℕ) → accepted zero_sample r n ≤ n
  unfolding accepted
  accepted_le r n = ground arith

  accepted_room :
      (r : IqRing zero_sample) (n : ℕ)
      → r.size ≤ r.capacity
      → r.size + accepted zero_sample r n ≤ r.capacity
  unfolding accepted
  accepted_room r n h = ground arith

  pub take_over : (n : ℕ) (xs : List A) → length xs ≤ n → take n xs ≡ xs
  take_over zero [] h = refl
  take_over zero (x ∷ xs) h = absurd (omega arith)
  take_over (suc n) [] h = refl
  take_over (suc n) (x ∷ xs) h = ap (λ k. x ∷ k) (take_over n xs (omega arith))

  take-accepted :
      (r : IqRing zero_sample) (xs : List A)
      → take (accepted zero_sample r (length xs)) xs ≡ take (r.capacity - r.size) xs
  unfolding accepted
  take-accepted r xs =
      ground (arith, take_over (length xs) xs (omega arith), take_over (r.capacity - r.size) xs)

  length-accepted :
      (r : IqRing zero_sample) (xs : List A)
      → length (take (accepted zero_sample r (length xs)) xs) ≡ accepted zero_sample r (length xs)
  unfolding accepted
  length-accepted r xs =
      omega (arith, length-take (accepted zero_sample r (length xs)) xs, accepted_le r (length xs))

  pub length-contents : (r : IqRing zero_sample) → length (contents r) ≡ r.size
  unfolding contents
  length-contents r = length-read_samples r.samples r.capacity r.read_index r.size

  -- A new ring is valid and empty.
  pub init-IsValid :
      (capacity : ℕ) (r : IqRing zero_sample)
      → init zero_sample capacity true ≡ some r
      → IsValid r × contents r ≡ [] × r.capacity ≡ capacity
  unfolding init contents read_samples
  init-IsValid capacity r h = ground (arith, length-replicate capacity zero_sample)

  push_lem :
      (r : IqRing zero_sample) (xs : List A)
      → IsValid r
      → contents (push zero_sample r xs).1 ≡ contents r ++ take (r.capacity - r.size) xs
  unfolding contents push
  push_lem r xs v =
      let kept = take (accepted zero_sample r (length xs)) xs in
      read_at (write_samples zero_sample r.samples r.capacity (r.read_index + r.size) kept)
        r.capacity refl (ap (λ k. r.size + k) (sym (length-accepted r xs)))
      ∙ read-write_samples r.samples r.capacity r.read_index r.size kept v.whole v.start
          (omega (arith, length-accepted r xs, accepted_room r (length xs) v.room))
      ∙ ap (λ k. read_samples zero_sample r.samples r.capacity r.read_index r.size ++ k)
          (take-accepted r xs)

  -- `push` appends the samples that there is room for, in their order.
  pub contents-push :
      (r : IqRing zero_sample) (xs : List A)
      → IsValid r
      → contents (push zero_sample r xs).1
        ≡ contents r ++ take (r.capacity - length (contents r)) xs
  contents-push r xs v = rw (length-contents r) (push_lem r xs v)

  pub push-IsValid :
      (r : IqRing zero_sample) (xs : List A) → IsValid r → IsValid (push zero_sample r xs).1
  unfolding push
  push-IsValid r xs v = record {
    whole =
        length-write_samples r.samples r.capacity (r.read_index + r.size)
          (take (accepted zero_sample r (length xs)) xs)
        ∙ v.whole;
    start = v.start;
    room = accepted_room r (length xs) v.room;
  }

  pub available_le : (r : IqRing zero_sample) (n : ℕ) → available zero_sample r n ≤ r.size
  unfolding available
  available_le r n = ground arith

  -- `read_samples` reads its start modulo the capacity.
  pub read_congruent :
      (buffer : List A) (turn i j n : ℕ)
      → i % turn ≡ j % turn
      → read_samples zero_sample buffer turn i n ≡ read_samples zero_sample buffer turn j n
  unfolding read_samples
  read_congruent buffer turn i j zero e = refl
  read_congruent buffer turn i j (suc n) e =
      ap₂ (λ a b. get_or buffer a zero_sample ∷ b) e
        (read_congruent buffer turn (suc i) (suc j) n
          (suc-mod i turn ∙ ap (λ k. suc k % turn) e ∙ sym (suc-mod j turn)))

  -- What `pop` gives, followed by what it leaves, is what there was.
  pub contents-pop :
      (r : IqRing zero_sample) (n : ℕ)
      → (pop zero_sample r n).0 ++ contents (pop zero_sample r n).1 ≡ contents r
  unfolding contents pop
  contents-pop r n =
      ap
        (λ k.
          read_samples zero_sample r.samples r.capacity r.read_index (available zero_sample r n)
          ++ k)
        (read_congruent r.samples r.capacity
          ((r.read_index + available zero_sample r n) % r.capacity)
          (r.read_index + available zero_sample r n) (r.size - available zero_sample r n)
          (mod-mod (r.read_index + available zero_sample r n) r.capacity))
      ∙ sym (
          read-append r.samples r.capacity r.read_index (available zero_sample r n)
            (r.size - available zero_sample r n))
      ∙ read_at r.samples r.capacity refl (omega (arith, available_le r n))

  pub pop-IsValid : (r : IqRing zero_sample) (n : ℕ) → IsValid r → IsValid (pop zero_sample r n).1
  unfolding pop
  pop-IsValid r n v = record {
    whole = v.whole;
    start =
        mod-lt (r.read_index + available zero_sample r n) {m = r.capacity} (omega (arith, v.start));
    room = omega (arith, v.room);
  }

  pub length-pop :
      (r : IqRing zero_sample) (n : ℕ) → length (pop zero_sample r n).0 ≡ available zero_sample r n
  unfolding pop
  length-pop r n = length-read_samples r.samples r.capacity r.read_index (available zero_sample r n)
