-- ===== src/IqRing/Tests.antt =====
-- Runs of the sample ring of src/iq.c, and its theorem at a concrete sequence of calls.
use mathlib.Core.Option.{some}
use flex1500d.Base.{◌≡◌, ℕ, refl, true, List, [], ◌∷◌}
use flex1500d.IqRing.{IqRing, init, push, pop, accepted, available, write_samples, read_samples}
use flex1500d.IqRing.Refine.{Call, pushes, pops, run, ring_step, queue_step, view, run-queue_step}

abbrev empty_ring : IqRing {A = ℕ} 0
empty_ring = record {
  samples = 0 ∷ 0 ∷ 0 ∷ [];
  capacity = 3;
  read_index = 0;
  size = 0;
  dropped = 0;
}

abbrev calls : List (Call ℕ)
calls = pushes (1 ∷ 2 ∷ []) ∷ pops 1 ∷ pushes (3 ∷ 4 ∷ 5 ∷ []) ∷ pops 9 ∷ []

empty_ring-init : init 0 3 true ≡ some empty_ring
unfolding init
empty_ring-init = refl

-- One sample of the second push finds no room.
calls-run : run (ring_step 0) empty_ring calls ≡ (
  (2, []) ∷ (1, 1 ∷ []) ∷ (2, []) ∷ (3, 2 ∷ 3 ∷ 4 ∷ []) ∷ [],
  record empty_ring { samples = 4 ∷ 2 ∷ 3 ∷ []; read_index = 1; dropped = 1 },
)
unfolding run ring_step push pop accepted available write_samples read_samples
calls-run = refl

calls_refine :
    (run (ring_step 0) empty_ring calls).0 ≡ (run (queue_step 3) ([], 0) calls).0
    × view 0 (run (ring_step 0) empty_ring calls).1 ≡ (run (queue_step 3) ([], 0) calls).1
calls_refine = run-queue_step 0 3 empty_ring calls empty_ring-init
