-- ===== src/Protocol/Builders.antt =====
-- The command builders of src/protocol.c. A builder that returns false gives `none`.
use mathlib.Core.Option.{Option, some, none}
use mathlib.Core.List.{List}
use flex1500d.Base.{ℕ, ◌-◌, Bool, ◌&&◌, ◌||◌, not, if◌then◌else◌, ltb, leb, ◌==◌}
use flex1500d.Base.Lists.{set, replicate}
use flex1500d.Protocol.{command_packet_size, store_be32}

abbrev pub op_i2c_write_2_value : ℕ
op_i2c_write_2_value = 1020

abbrev pub op_get_firmware_rev : ℕ
op_get_firmware_rev = 1200

abbrev pub op_initialize : ℕ
op_initialize = 1219

abbrev pub op_set_trx_preamp : ℕ
op_set_trx_preamp = 1247

abbrev pub op_set_rx1_filter : ℕ
op_set_rx1_filter = 1257

abbrev pub op_set_pa_filter : ℕ
op_set_pa_filter = 1260

abbrev pub op_set_tr : ℕ
op_set_tr = 1276

abbrev pub op_set_rx1_ant : ℕ
op_set_rx1_ant = 1278

abbrev pub op_set_tx_ant : ℕ
op_set_tx_ant = 1279

abbrev pub op_set_amp_tx1 : ℕ
op_set_amp_tx1 = 1298

abbrev pub op_set_rx1_freq_tw : ℕ
op_set_rx1_freq_tw = 1347

abbrev pub min_rx_frequency_hz : ℕ
min_rx_frequency_hz = 100000

abbrev pub max_rx_frequency_hz : ℕ
max_rx_frequency_hz = 54000000

-- `memset`, the index and the opcode, which every builder writes first.
unfoldable pub blank : ℕ → ℕ → List ℕ
blank index opcode = store_be32 (set (replicate command_packet_size 0) 0 index) 4 opcode

unfoldable pub firmware_read_request_allowed : ℕ → ℕ → ℕ → Bool
firmware_read_request_allowed opcode param1 param2 =
    opcode == op_get_firmware_rev && param1 == 0 && param2 == 0

unfoldable pub build_firmware_read_request : ℕ → ℕ → ℕ → ℕ → Option (List ℕ)
build_firmware_read_request index opcode param1 param2 =
    if not (firmware_read_request_allowed opcode param1 param2)
    then none
    else some (store_be32 (store_be32 (blank index opcode) 8 param1) 12 param2)

unfoldable pub build_initialize_request : ℕ → Option (List ℕ)
build_initialize_request index = some (blank index op_initialize)

unfoldable pub build_rx_filter_request : ℕ → ℕ → Option (List ℕ)
build_rx_filter_request index filter =
    if ltb 11 filter then none else some (store_be32 (blank index op_set_rx1_filter) 8 filter)

-- The enumeration is unsigned, so that only its upper end is tested.
unfoldable pub build_rx_gain_request : ℕ → ℕ → Option (List ℕ)
build_rx_gain_request index gain =
    if ltb 4 gain then none else some (store_be32 (blank index op_set_trx_preamp) 8 gain)

unfoldable pub build_rx_antenna_request : ℕ → ℕ → Option (List ℕ)
build_rx_antenna_request index antenna =
    if ltb 2 antenna then none else some (store_be32 (blank index op_set_rx1_ant) 8 antenna)

unfoldable pub build_main_tx_antenna_request : ℕ → Option (List ℕ)
build_main_tx_antenna_request index = some (store_be32 (blank index op_set_tx_ant) 8 0)

unfoldable pub build_pa_filter_request : ℕ → ℕ → Option (List ℕ)
build_pa_filter_request index filter =
    if ltb 7 filter then none else some (store_be32 (blank index op_set_pa_filter) 8 filter)

unfoldable pub build_tuning_word_request : ℕ → ℕ → Option (List ℕ)
build_tuning_word_request index tuning_word =
    some (store_be32 (blank index op_set_rx1_freq_tw) 8 tuning_word)

unfoldable pub build_tr_request : ℕ → Bool → Option (List ℕ)
build_tr_request index transmit =
    some (store_be32 (blank index op_set_tr) 8 (if transmit then 1 else 0))

unfoldable pub build_amp_tx1_request : ℕ → Bool → Option (List ℕ)
build_amp_tx1_request index enabled =
    some (store_be32 (blank index op_set_amp_tx1) 8 (if enabled then 1 else 0))

unfoldable pub build_transition_mute_request : ℕ → Bool → Option (List ℕ)
build_transition_mute_request index muted = some (
    store_be32 (store_be32 (blank index op_i2c_write_2_value) 8 0x30) 12
      (if muted then 0x2500 else 0x25c0))

-- The `double` arithmetic of the tuning word is the parameter `word`: it takes a frequency in
-- the accepted range and gives the truncated quotient.
module _ (word : ℕ → ℕ) where
  unfoldable pub rx_frequency_to_tuning_word : ℕ → Option ℕ
  rx_frequency_to_tuning_word frequency_hz =
      if ltb frequency_hz min_rx_frequency_hz || ltb max_rx_frequency_hz frequency_hz
      then none
      else some (word frequency_hz)

  unfoldable pub build_rx_tune_request : ℕ → ℕ → Option (List ℕ × ℕ)
  build_rx_tune_request index frequency_hz = elim (rx_frequency_to_tuning_word frequency_hz) [
    | none ↦ none
    | some tuning_word ↦
        some (store_be32 (blank index op_set_rx1_freq_tw) 8 tuning_word, tuning_word)
  ]

  unfoldable pub usb_tune_frequency_to_tuning_word : ℕ → ℕ → Option ℕ
  usb_tune_frequency_to_tuning_word carrier_hz tone_hz =
      if ltb carrier_hz min_rx_frequency_hz
        || ltb max_rx_frequency_hz carrier_hz
        || leb carrier_hz tone_hz
      then none
      else rx_frequency_to_tuning_word (carrier_hz - tone_hz)
