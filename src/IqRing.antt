-- ===== src/IqRing.antt =====
-- The sample ring of src/iq.c: `flex1500_iq_ring_init`, `_push`, `_pop` and `_clear`. A sample is
-- any type with a zero. `capacity` is a number of samples in memory, so that
-- `read_index + size + index`, which stays below twice the capacity, does not wrap.
pub mod Queue
pub mod Refine
mod Tests
use mathlib.Core.Option.{Option, some, none}
use flex1500d.Base.{
  ℕ, zero, suc, ◌+◌, ◌-◌, ◌%◌, Bool, true, List, [], ◌∷◌, ◌||◌, not, if◌then◌else◌, ltb, ◌==◌,
}
use flex1500d.Base.Lists.{length, get_or, set, take, replicate}
use flex1500d.Base.Words.{add64}

module _ {A : Type 0} (zero_sample : A) where
  pub record IqRing : Type 0 where
    pub samples : List A
    pub capacity : ℕ
    pub read_index : ℕ
    pub size : ℕ
    pub dropped : ℕ

  -- `allocated` tells whether `calloc` gave memory.
  unfoldable pub init : ℕ → Bool → Option IqRing
  init capacity allocated =
      if capacity == 0 || not allocated
      then none
      else some record {
        samples = replicate capacity zero_sample;
        capacity = capacity;
        read_index = 0;
        size = 0;
        dropped = 0;
      }

  -- The loop of `push`, from the write index `at`.
  unfoldable pub write_samples : List A → ℕ → ℕ → List A → List A
  write_samples buffer capacity at [] = buffer
  write_samples buffer capacity at (x ∷ xs) =
      write_samples (set buffer (at % capacity) x) capacity (suc at) xs

  -- The loop of `pop`, from the read index `at`.
  unfoldable pub read_samples : List A → ℕ → ℕ → ℕ → List A
  read_samples buffer capacity at zero = []
  read_samples buffer capacity at (suc n) =
      get_or buffer (at % capacity) zero_sample ∷ read_samples buffer capacity (suc at) n

  unfoldable pub accepted : IqRing → ℕ → ℕ
  accepted r count = if ltb (r.capacity - r.size) count then r.capacity - r.size else count

  unfoldable pub push : IqRing → List A → ℕ × IqRing
  push r xs = (
    accepted r (length xs),
    record r {
      samples =
          write_samples r.samples r.capacity (r.read_index + r.size)
            (take (accepted r (length xs)) xs);
      size = r.size + accepted r (length xs);
      dropped =
          if ltb (r.capacity - r.size) (length xs)
          then add64 r.dropped (length xs - (r.capacity - r.size))
          else r.dropped;
    },
  )

  unfoldable pub available : IqRing → ℕ → ℕ
  available r count = if ltb r.size count then r.size else count

  -- The samples that were read, whose number is the result, and the ring.
  unfoldable pub pop : IqRing → ℕ → List A × IqRing
  pop r count = (
    read_samples r.samples r.capacity r.read_index (available r count),
    record r {
      read_index = (r.read_index + available r count) % r.capacity;
      size = r.size - available r count;
    },
  )

  unfoldable pub clear : IqRing → IqRing
  clear r = record r { read_index = 0; size = 0 }
