-- ===== src/Protocol/Decode.antt =====
-- The words, samples and inputs of src/protocol.c round trip.
use mathlib.Core.Option.{some, none}
use mathlib.Core.List.{List, ◌∷◌}
use flex1500d.Base.{ℕ, ◌+◌, ◌-◌, ◌*◌, ◌/◌, ◌%◌, ◌<◌, ◌≤◌, ◌≡◌, ◌↔◌, true, arith}
use flex1500d.Base.Ints.{ℤ, pos, negsuc}
use flex1500d.Base.Lists.{length, get_or, set, length-set}
use flex1500d.Protocol.{
  store_be32, decode_u32_response, decode_iq_frame, to_i16, decode_physical_inputs,
  physical_inputs_equal, PhysicalInputs, same,
}

length-store_be32 : (packet : List ℕ) (at v : ℕ) → length (store_be32 packet at v) ≡ length packet
unfolding store_be32
length-store_be32 packet at v = omega (
  arith,
  length-set packet at (v / 16777216 % 256),
  length-set (set packet at (v / 16777216 % 256)) (at + 1) (v / 65536 % 256),
  length-set (set (set packet at (v / 16777216 % 256)) (at + 1) (v / 65536 % 256)) (at + 2)
      (v / 256 % 256),
  length-set
      (set (set (set packet at (v / 16777216 % 256)) (at + 1) (v / 65536 % 256)) (at + 2)
        (v / 256 % 256))
      (at + 3) (v % 256),
)

bytes_of :
    (v : ℕ)
    → v < 4294967296
    → v / 16777216 % 256 * 16777216 + v / 65536 % 256 * 65536 + v / 256 % 256 * 256 + v % 256 ≡ v
bytes_of v h = omega arith

-- A response that carries the flag, the expected index and a big-endian word decodes to the word.
pub decode_u32_response-store_be32 :
    (b0 index b3 b4 b5 b6 b7 v : ℕ) (rest : List ℕ)
    → v < 4294967296
    → decode_u32_response (store_be32 (b0 ∷ 1 ∷ index ∷ b3 ∷ b4 ∷ b5 ∷ b6 ∷ b7 ∷ rest) 4 v) index
      ≡ some v
unfolding store_be32 decode_u32_response
decode_u32_response-store_be32 b0 index b3 b4 b5 b6 b7 v rest h = ground (arith, bytes_of v h)

-- A response is refused exactly when it is short, carries no flag or answers another index.
pub decode_u32_response_none :
    (packet : List ℕ) (index : ℕ)
    → (decode_u32_response packet index ≡ none)
      ↔ ¬ (8 ≤ length packet × get_or packet 1 0 ≡ 1 × get_or packet 2 0 ≡ index)
unfolding decode_u32_response
decode_u32_response_none packet index = ground arith

-- The bytes of a sample in two's complement, low byte first.
unfoldable pub word_of : ℤ → ℕ
word_of (pos n) = n
word_of (negsuc n) = 65535 - n

unfoldable pub IsInt16 : ℤ → Type 0
IsInt16 (pos n) = n < 32768
IsInt16 (negsuc n) = n < 32768

to_i16-word_of : (z : ℤ) → IsInt16 z → to_i16 (word_of z) ≡ z
unfolding to_i16 word_of IsInt16
to_i16-word_of (pos n) h = ground arith
to_i16-word_of (negsuc n) h = ground arith

split : (n : ℕ) → n < 65536 → n % 256 + n / 256 % 256 * 256 ≡ n
split n h = omega arith

word_of_bound : (z : ℤ) → IsInt16 z → word_of z < 65536
unfolding word_of IsInt16
word_of_bound (pos n) h = ground arith
word_of_bound (negsuc n) h = ground arith

-- The little-endian two's complement bytes of a pair of 16-bit samples decode to the pair.
pub decode_iq_frame-word_of :
    (i q : ℤ)
    → IsInt16 i
    → IsInt16 q
    → decode_iq_frame
        (word_of i % 256)
        (word_of i / 256 % 256)
        (word_of q % 256)
        (word_of q / 256 % 256)
      ≡ (i, q)
unfolding decode_iq_frame
decode_iq_frame-word_of i q hi hq = rw (
  split (word_of i) (word_of_bound i hi),
  split (word_of q) (word_of_bound q hq),
  to_i16-word_of i hi,
  to_i16-word_of q hq,
)

-- Two status packets decode to equal inputs exactly where they agree in bits 0, 3, 4 and 5 of
-- their first byte.
pub physical_inputs_equal_bits :
    (a b : ℕ) (p q : List ℕ) (l r : PhysicalInputs)
    → decode_physical_inputs (a ∷ p) ≡ some l
    → decode_physical_inputs (b ∷ q) ≡ some r
    → (physical_inputs_equal l r ≡ true)
      ↔ (a % 2 ≡ b % 2 × a / 8 % 2 ≡ b / 8 % 2 × a / 16 % 2 ≡ b / 16 % 2 × a / 32 % 2 ≡ b / 32 % 2)
unfolding decode_physical_inputs physical_inputs_equal same
physical_inputs_equal_bits a b p q l r hl hr = ground arith
