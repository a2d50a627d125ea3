-- ===== src/IqRing/Refine.antt =====
-- The ring of src/iq.c refines a bounded queue over every sequence of calls.
use mathlib.Core.Option.{some}
use mathlib.Core.Path.{ap₂}
use Prim.Native.Nat.{min}
use flex1500d.Base.{
  ℕ, zero, suc, ◌-◌, ◌≡◌, refl, ap, sym, ◌∙◌, true, List, [], ◌∷◌, ◌++◌, if◌then◌else◌, ltb, arith,
}
use flex1500d.Base.Lists.{length, take, drop}
use flex1500d.Base.Words.{add64}
use flex1500d.IqRing.{IqRing, init, push, accepted, available, pop, clear, read_samples}
use flex1500d.IqRing.Queue.{
  IsValid, contents, init-IsValid, contents-push, push-IsValid, contents-pop, pop-IsValid,
  length-pop, length-contents,
}

-- A list falls into its first `n` elements and the others in one way.
split_lem :
    {A : Type 0} (xs ys : List A) (n : ℕ)
    → length xs ≡ min n (length (xs ++ ys))
    → xs ≡ take n (xs ++ ys) × ys ≡ drop n (xs ++ ys)
split_lem [] ys zero h = (refl, refl)
split_lem [] [] (suc n) h = (refl, refl)
split_lem [] (y ∷ ys) (suc n) h = absurd (omega arith)
split_lem (x ∷ xs) ys zero h = absurd (omega arith)
split_lem (x ∷ xs) ys (suc n) h =
    let (a, b) = split_lem xs ys n (omega arith) in (ap (λ k. x ∷ k) a, b)

split_of :
    {A : Type 0} (xs ys q : List A) (n : ℕ)
    → xs ++ ys ≡ q
    → length xs ≡ min n (length q)
    → xs ≡ take n q × ys ≡ drop n q
split_of xs ys q n e h = rw (sym e) (split_lem xs ys n (h ∙ ap (λ k. min n (length k)) (sym e)))

-- A call of the ring by its owner.
pub data Call (A : Type 0) : Type 0 where
  pushes : List A → Call A
  pops : ℕ → Call A
  clears : Call A

-- The promise: a queue of at most `capacity` samples, with the count of those refused. A push
-- answers how many it took, a pop the samples that it gives and how many they are.
unfoldable pub queue_step : {A : Type 0} → ℕ → List A × ℕ → Call A → (ℕ × List A) × (List A × ℕ)
queue_step capacity (q, lost) (pushes xs) = (
  (min (length xs) (capacity - length q), []),
  (
    q ++ take (capacity - length q) xs,
    if ltb (capacity - length q) (length xs)
        then add64 lost (length xs - (capacity - length q))
        else lost,
  ),
)
queue_step capacity (q, lost) (pops n) = ((min n (length q), take n q), (drop n q, lost))
queue_step capacity (q, lost) clears = ((0, []), ([], lost))

-- The answers of the calls, in order, and the last state.
unfoldable pub run :
    {S A : Type 0} → (S → Call A → (ℕ × List A) × S) → S → List (Call A) → List (ℕ × List A) × S
run step s [] = ([], s)
run step s (c ∷ cs) =
    let (given, s') = step s c in let (later, last) = run step s' cs in (given ∷ later, last)

module _ {A : Type 0} (zero_sample : A) where
  unfoldable pub ring_step : IqRing zero_sample → Call A → (ℕ × List A) × IqRing zero_sample
  ring_step r (pushes xs) = let (taken, r') = push zero_sample r xs in ((taken, []), r')
  ring_step r (pops n) = let (samples, r') = pop zero_sample r n in ((length samples, samples), r')
  ring_step r clears = ((0, []), clear zero_sample r)

  unfoldable pub view : IqRing zero_sample → List A × ℕ
  view r = (contents zero_sample r, r.dropped)

  available-min : (r : IqRing zero_sample) (n : ℕ) → available zero_sample r n ≡ min n r.size
  unfolding available
  available-min r n = ground arith

  given-pop :
      (r : IqRing zero_sample) (n : ℕ)
      → length (pop zero_sample r n).0 ≡ min n (length (contents zero_sample r))
  given-pop r n =
      length-pop zero_sample r n
      ∙ available-min r n
      ∙ ap (λ k. min n k) (sym (length-contents zero_sample r))

  contents-pops :
      (r : IqRing zero_sample) (n : ℕ)
      → (pop zero_sample r n).0 ≡ take n (contents zero_sample r)
        × contents zero_sample (pop zero_sample r n).1 ≡ drop n (contents zero_sample r)
  contents-pops r n =
      split_of (pop zero_sample r n).0 (contents zero_sample (pop zero_sample r n).1)
        (contents zero_sample r) n (contents-pop zero_sample r n) (given-pop r n)

  view-push :
      (r : IqRing zero_sample) (xs : List A)
      → IsValid zero_sample r
      → view (push zero_sample r xs).1 ≡ (queue_step r.capacity (view r) (pushes xs)).1
  unfolding view queue_step push
  view-push r xs v = ground (arith, contents-push zero_sample r xs v, length-contents zero_sample r)

  taken-push :
      (r : IqRing zero_sample) (xs : List A)
      → (push zero_sample r xs).0 ≡ min (length xs) (r.capacity - length (contents zero_sample r))
  unfolding push accepted
  taken-push r xs = ground (arith, length-contents zero_sample r)

  capacity-push :
      (r : IqRing zero_sample) (xs : List A) → (push zero_sample r xs).1.capacity ≡ r.capacity
  unfolding push
  capacity-push r xs = refl

  capacity-pop : (r : IqRing zero_sample) (n : ℕ) → (pop zero_sample r n).1.capacity ≡ r.capacity
  unfolding pop
  capacity-pop r n = refl

  view-pop :
      (r : IqRing zero_sample) (n : ℕ)
      → contents zero_sample (pop zero_sample r n).1 ≡ drop n (contents zero_sample r)
      → view (pop zero_sample r n).1 ≡ (drop n (contents zero_sample r), r.dropped)
  unfolding view pop
  view-pop r n e = ap (λ k. (k, r.dropped)) e

  clear_lem :
      (r : IqRing zero_sample)
      → IsValid zero_sample r
      → ◌≡◌ {A = ℕ × List A} (0, []) (0, [])
        × view (clear zero_sample r) ≡ ([], r.dropped)
        × IsValid zero_sample (clear zero_sample r)
        × (clear zero_sample r).capacity ≡ r.capacity
  unfolding clear view contents read_samples
  clear_lem r v = (
    refl,
    refl,
    record { whole = v.whole; start = omega (arith, v.start); room = omega arith },
    refl,
  )

  -- One call of a valid ring does to its contents and its count what the queue does, and leaves
  -- the ring valid.
  step_lem :
      (r : IqRing zero_sample) (c : Call A)
      → IsValid zero_sample r
      → (ring_step r c).0 ≡ (queue_step r.capacity (view r) c).0
        × view (ring_step r c).1 ≡ (queue_step r.capacity (view r) c).1
        × IsValid zero_sample (ring_step r c).1
        × (ring_step r c).1.capacity ≡ r.capacity
  unfolding ring_step queue_step view
  step_lem r (pushes xs) v = (
    ap (λ k. (k, [])) (taken-push r xs),
    view-push r xs v,
    push-IsValid zero_sample r xs v,
    capacity-push r xs,
  )
  step_lem r (pops n) v =
      let (a, b) = contents-pops r n in
      (
        ap₂ (λ k l. (k, l)) (given-pop r n) a,
        view-pop r n b,
        pop-IsValid zero_sample r n v,
        capacity-pop r n,
      )
  step_lem r clears v = clear_lem r v

  run_lem :
      (capacity : ℕ) (r : IqRing zero_sample) (q : List A × ℕ) (cs : List (Call A))
      → IsValid zero_sample r
      → r.capacity ≡ capacity
      → view r ≡ q
      → (run ring_step r cs).0 ≡ (run (queue_step capacity) q cs).0
        × view (run ring_step r cs).1 ≡ (run (queue_step capacity) q cs).1
  unfolding run
  run_lem capacity r q [] v e f = (refl, f)
  run_lem capacity r q (c ∷ cs) v e f =
      let (given, seen, v', same) = step_lem r c v in
      let (later, last) =
        run_lem capacity (ring_step r c).1 (queue_step capacity q c).1 cs v' (same ∙ e)
          (seen ∙ ap₂ (λ k s. (queue_step k s c).1) e f) in
      (ap₂ (λ a b. a ∷ b) (given ∙ ap₂ (λ k s. (queue_step k s c).0) e f) later, last)

  start_view :
      (capacity : ℕ) (r : IqRing zero_sample)
      → init zero_sample capacity true ≡ some r
      → r.dropped ≡ 0
  unfolding init
  start_view capacity r h = ground arith

  -- From a new ring of any capacity, every push, pop and clear of a sequence answers what the bounded
  -- queue answers, the number taken or the samples given, and the ring ends with the queue's
  -- samples and its count of refused ones.
  pub run-queue_step :
      (capacity : ℕ) (r : IqRing zero_sample) (cs : List (Call A))
      → init zero_sample capacity true ≡ some r
      → (run ring_step r cs).0 ≡ (run (queue_step capacity) ([], 0) cs).0
        × view (run ring_step r cs).1 ≡ (run (queue_step capacity) ([], 0) cs).1
  unfolding view
  run-queue_step capacity r cs h =
      let (v, empty, same) = init-IsValid zero_sample capacity r h in
      run_lem capacity r ([], 0) cs v same (ap₂ (λ a b. (a, b)) empty (start_view capacity r h))
