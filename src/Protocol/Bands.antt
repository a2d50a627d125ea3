-- ===== src/Protocol/Bands.antt =====
-- The filter tables and the transmit frequency policies of src/protocol.c.
use mathlib.Core.Option.{Option, some, none}
use mathlib.Core.List.{List, [], ◌∷◌}
use flex1500d.Base.{ℕ, ◌+◌, ◌-◌, Bool, true, false, ◌&&◌, ◌||◌, not, if◌then◌else◌, ltb, leb, ◌==◌}
use flex1500d.Protocol.Builders.{min_rx_frequency_hz, max_rx_frequency_hz}

-- The tables pair an upper bound with its filter.
abbrev pub rx_filters : List (ℕ × ℕ)
rx_filters =
    (480000, 0)
    ∷ (880000, 11)
    ∷ (1600000, 10)
    ∷ (2300000, 9)
    ∷ (3500000, 8)
    ∷ (5200000, 7)
    ∷ (7700000, 6)
    ∷ (11400000, 5)
    ∷ (17000000, 4)
    ∷ (25300000, 3)
    ∷ (37600000, 2)
    ∷ (56000000, 1)
    ∷ []

abbrev pub pa_filters : List (ℕ × ℕ)
pa_filters =
    (2500000, 7) ∷ (5000000, 6) ∷ (8800000, 5) ∷ (17500000, 4) ∷ (24000000, 3) ∷ (35000000, 2) ∷ []

-- The loop over a table, and the filter behind it.
unfoldable pub first_filter : List (ℕ × ℕ) → ℕ → ℕ
first_filter [] frequency_hz = 1
first_filter ((upper, filter) ∷ rest) frequency_hz =
    if ltb frequency_hz upper then filter else first_filter rest frequency_hz

unfoldable pub filter_for_frequency : List (ℕ × ℕ) → ℕ → Option ℕ
filter_for_frequency table frequency_hz =
    if ltb frequency_hz min_rx_frequency_hz || ltb max_rx_frequency_hz frequency_hz
    then none
    else some (first_filter table frequency_hz)

unfoldable pub rx_filter_for_frequency : ℕ → Option ℕ
rx_filter_for_frequency = filter_for_frequency rx_filters

unfoldable pub pa_filter_for_frequency : ℕ → Option ℕ
pa_filter_for_frequency = filter_for_frequency pa_filters

abbrev pub voice_allocations : List (ℕ × ℕ)
voice_allocations =
    (1800000, 2000000)
    ∷ (3500000, 4000000)
    ∷ (7000000, 7300000)
    ∷ (14000000, 14350000)
    ∷ (18068000, 18168000)
    ∷ (21000000, 21450000)
    ∷ (24890000, 24990000)
    ∷ (28000000, 29700000)
    ∷ (50000000, 54000000)
    ∷ []

abbrev pub sixty_meter_carriers : List ℕ
sixty_meter_carriers = 5330500 ∷ 5346500 ∷ 5371500 ∷ 5403500 ∷ []

-- The loop that the three policies share, with the margin each keeps from the edges.
unfoldable pub in_allocations : ℕ → List (ℕ × ℕ) → ℕ → Bool
in_allocations margin [] frequency_hz = false
in_allocations margin ((low, high) ∷ rest) frequency_hz =
    if leb (low + margin) frequency_hz && leb frequency_hz (high - margin)
    then true
    else in_allocations margin rest frequency_hz

unfoldable pub is_carrier : List ℕ → ℕ → Bool
is_carrier [] frequency_hz = false
is_carrier (carrier ∷ rest) frequency_hz =
    if frequency_hz == carrier then true else is_carrier rest frequency_hz

unfoldable pub physical_mic_frequency_allowed : ℕ → Bool → Bool
physical_mic_frequency_allowed frequency_hz upper_sideband =
    if in_allocations 0 voice_allocations frequency_hz
    then true
    else if not upper_sideband
    then false
    else if leb 5351500 frequency_hz && leb frequency_hz 5363500
    then true
    else is_carrier sixty_meter_carriers frequency_hz

unfoldable pub tune_frequency_allowed : ℕ → Bool
tune_frequency_allowed frequency_hz = physical_mic_frequency_allowed frequency_hz true

unfoldable pub am_frequency_allowed : ℕ → Bool
am_frequency_allowed = in_allocations 3000 voice_allocations

unfoldable pub network_iq_frequency_allowed : ℕ → Bool
network_iq_frequency_allowed = in_allocations 24000 voice_allocations

-- Whether the default sideband is the upper one, where it may be used.
unfoldable pub default_ssb_upper_sideband : ℕ → Option Bool
default_ssb_upper_sideband frequency_hz =
    let upper = leb 10000000 frequency_hz || leb 5330000 frequency_hz && leb frequency_hz 5405000 in
    if not (physical_mic_frequency_allowed frequency_hz upper) then none else some upper
