-- ===== src/Protocol/Fields.antt =====
-- The commands of src/protocol.c as one type, and the fields that a built packet carries.
use mathlib.Core.Option.{Option, some}
use mathlib.Core.List.{List}
use flex1500d.Base.{ℕ, ◌+◌, ◌*◌, ◌<◌, ◌≡◌, Bool, if◌then◌else◌, arith}
use flex1500d.Base.Lists.{length, get_or}
use flex1500d.Protocol.{store_be32}
use flex1500d.Protocol.Builders.{
  blank, build_initialize_request, build_rx_filter_request, build_rx_gain_request,
  build_rx_antenna_request, build_main_tx_antenna_request, build_pa_filter_request,
  build_tuning_word_request, build_tr_request, build_amp_tx1_request, build_transition_mute_request,
}

-- A command with its parameters, as the radio is meant to understand it.
pub data Command : Type 0 where
  initialize : Command
  rx_filter : ℕ → Command
  rx_gain : ℕ → Command
  rx_antenna : ℕ → Command
  main_tx_antenna : Command
  pa_filter : ℕ → Command
  tuning_word : ℕ → Command
  transmit : Bool → Command
  amplifier : Bool → Command
  transition_mute : Bool → Command

-- The builder of each command.
unfoldable pub build : ℕ → Command → Option (List ℕ)
build index initialize = build_initialize_request index
build index (rx_filter n) = build_rx_filter_request index n
build index (rx_gain n) = build_rx_gain_request index n
build index (rx_antenna n) = build_rx_antenna_request index n
build index main_tx_antenna = build_main_tx_antenna_request index
build index (pa_filter n) = build_pa_filter_request index n
build index (tuning_word n) = build_tuning_word_request index n
build index (transmit b) = build_tr_request index b
build index (amplifier b) = build_amp_tx1_request index b
build index (transition_mute b) = build_transition_mute_request index b

-- The opcode and the two parameters of the command table.
unfoldable pub meaning : Command → ℕ × ℕ × ℕ
meaning initialize = (1219, 0, 0)
meaning (rx_filter n) = (1257, n, 0)
meaning (rx_gain n) = (1247, n, 0)
meaning (rx_antenna n) = (1278, n, 0)
meaning main_tx_antenna = (1279, 0, 0)
meaning (pa_filter n) = (1260, n, 0)
meaning (tuning_word n) = (1347, n, 0)
meaning (transmit b) = (1276, if b then 1 else 0, 0)
meaning (amplifier b) = (1298, if b then 1 else 0, 0)
meaning (transition_mute b) = (1020, 48, if b then 9472 else 9664)

-- The big-endian word at an offset.
unfoldable pub word_at : List ℕ → ℕ → ℕ
word_at p at =
    get_or p at 0 * 16777216
    + get_or p (at + 1) 0 * 65536
    + get_or p (at + 2) 0 * 256
    + get_or p (at + 3) 0

unfoldable pub Carries : List ℕ → ℕ → ℕ → ℕ → ℕ → Type 0
Carries p index opcode a b =
    length p ≡ 20 × get_or p 0 0 ≡ index × word_at p 4 ≡ opcode × word_at p 8 ≡ a × word_at p 12 ≡ b

blank-Carries_two :
    (index opcode a b : ℕ)
    → opcode < 4294967296
    → a < 4294967296
    → b < 4294967296
    → Carries (store_be32 (store_be32 (blank index opcode) 8 a) 12 b) index opcode a b
unfolding Carries word_at store_be32 blank
blank-Carries_two index opcode a b ho ha hb = omega arith

blank-Carries_one :
    (index opcode a : ℕ)
    → opcode < 4294967296
    → a < 4294967296
    → Carries (store_be32 (blank index opcode) 8 a) index opcode a 0
unfolding Carries word_at store_be32 blank
blank-Carries_one index opcode a ho ha = omega arith

blank-Carries :
    (index opcode : ℕ) → opcode < 4294967296 → Carries (blank index opcode) index opcode 0 0
unfolding Carries word_at store_be32 blank
blank-Carries index opcode ho = omega arith

bit_of : (b : Bool) → (if b then 1 else 0) < 4294967296
bit_of b = ground arith

mute_of : (b : Bool) → (if b then 9472 else 9664) < 4294967296
mute_of b = ground arith

-- A tuning word is a 32-bit word; the other parameters are tested by their builders.
unfoldable pub IsWord : Command → Type 0
IsWord (tuning_word n) = n < 4294967296
IsWord c = Unit

-- A packet that a builder gives has 20 bytes and carries the index and the command's opcode and
-- parameters, where a tuning word is below 2 ^ 32.
pub build_fields :
    (index : ℕ) (c : Command) (p : List ℕ)
    → IsWord c
    → build index c ≡ some p
    → Carries p index (meaning c).0 (meaning c).1 (meaning c).2
unfolding build meaning IsWord build_initialize_request build_rx_filter_request
    build_rx_gain_request build_rx_antenna_request build_main_tx_antenna_request
    build_pa_filter_request build_tuning_word_request build_tr_request build_amp_tx1_request
    build_transition_mute_request
build_fields index initialize p w h = ground (arith, blank-Carries index 1219 (omega arith))
build_fields index (rx_filter n) p w h =
    ground (arith, blank-Carries_one index 1257 n (omega arith))
build_fields index (rx_gain n) p w h = ground (arith, blank-Carries_one index 1247 n)
build_fields index (rx_antenna n) p w h = ground (arith, blank-Carries_one index 1278 n)
build_fields index main_tx_antenna p w h = ground (arith, blank-Carries_one index 1279 0)
build_fields index (pa_filter n) p w h = ground (arith, blank-Carries_one index 1260 n)
build_fields index (tuning_word n) p w h = ground (arith, blank-Carries_one index 1347 n)
build_fields index (transmit b) p w h =
    ground (arith, blank-Carries_one index 1276 (if b then 1 else 0))
build_fields index (amplifier b) p w h =
    ground (arith, blank-Carries_one index 1298 (if b then 1 else 0))
build_fields index (transition_mute b) p w h =
    ground (arith, blank-Carries_two index 1020 48 (if b then 9472 else 9664))
