-- ===== src/Protocol.antt =====
-- Packets of src/protocol.c as lists of bytes: the big-endian words, the response, the I/Q
-- sample and the physical inputs. Protocol/Builders has the commands, Protocol/Bands the filters
-- and the frequency policies.
use mathlib.Core.Option.{Option, some, none}
use mathlib.Core.List.{List, [], ◌∷◌}
use flex1500d.Base.{
  ℕ, ◌+◌, ◌-◌, ◌*◌, ◌/◌, ◌%◌, Bool, true, false, ◌&&◌, ◌||◌, not, if◌then◌else◌, ltb, ◌==◌,
}
use flex1500d.Base.Ints.{ℤ, pos, negsuc}
use flex1500d.Base.Lists.{length, get_or, set}
pub mod Bands
pub mod Builders
pub mod Decode
pub mod Fields
pub mod Policy
mod Tests

abbrev pub command_packet_size : ℕ
command_packet_size = 20

abbrev pub ep_sample_in : ℕ
ep_sample_in = 0x82

abbrev pub ep_status_in : ℕ
ep_status_in = 0x83

pub data TransferKind : Type 0 where
  isochronous : TransferKind
  interrupt : TransferKind
  control : TransferKind

unfoldable pub rx_probe_transfer_allowed : TransferKind → ℕ → Bool
rx_probe_transfer_allowed isochronous endpoint = endpoint == ep_sample_in
rx_probe_transfer_allowed interrupt endpoint = endpoint == ep_status_in
rx_probe_transfer_allowed control endpoint = false

-- The conversion of a `uint16_t` to `int16_t`.
unfoldable pub to_i16 : ℕ → ℤ
to_i16 n = if ltb n 32768 then pos n else negsuc (65535 - n)

-- Bytes are below 256, so the `|` of shifted bytes is their sum.
unfoldable pub decode_iq_frame : ℕ → ℕ → ℕ → ℕ → ℤ × ℤ
decode_iq_frame b0 b1 b2 b3 = (to_i16 (b0 + b1 * 256), to_i16 (b2 + b3 * 256))

pub record PhysicalInputs : Type 0 where
  pub raw_status : ℕ
  pub mic_ptt : Bool
  pub flexwire_ptt : Bool
  pub dash : Bool
  pub dot : Bool

-- `&` with a power of two is a bit of the quotient.
unfoldable pub decode_physical_inputs : List ℕ → Option PhysicalInputs
decode_physical_inputs [] = none
decode_physical_inputs (status ∷ rest) = some record {
  raw_status = status;
  mic_ptt = status % 2 == 0;
  flexwire_ptt = status / 8 % 2 == 0;
  dash = status / 16 % 2 == 0;
  dot = status / 32 % 2 == 0;
}

unfoldable pub same : Bool → Bool → Bool
same true b = b
same false b = not b

unfoldable pub physical_inputs_equal : PhysicalInputs → PhysicalInputs → Bool
physical_inputs_equal l r =
    same l.mic_ptt r.mic_ptt
    && same l.flexwire_ptt r.flexwire_ptt
    && same l.dash r.dash
    && same l.dot r.dot

-- The four bytes from `at` on.
unfoldable pub store_be32 : List ℕ → ℕ → ℕ → List ℕ
store_be32 packet at value =
    set
      (set (set (set packet at (value / 16777216 % 256)) (at + 1) (value / 65536 % 256)) (at + 2)
        (value / 256 % 256))
      (at + 3) (value % 256)

unfoldable pub decode_u32_response : List ℕ → ℕ → Option ℕ
decode_u32_response packet expected_index =
    if ltb (length packet) 8
      || not (get_or packet 1 0 == 1)
      || not (get_or packet 2 0 == expected_index)
    then none
    else some (
        get_or packet 4 0 * 16777216
        + get_or packet 5 0 * 65536
        + get_or packet 6 0 * 256
        + get_or packet 7 0)
