-- ===== src/Protocol/Policy.antt =====
-- What the frequency policies and the filter tables of src/protocol.c guarantee.
use mathlib.Core.Option.{some, none}
use mathlib.Core.List.{List, [], ◌∷◌}
use flex1500d.Base.{ℕ, ◌+◌, ◌≤◌, ◌≡◌, ◌≢◌, Bool, true, arith}
use flex1500d.Protocol.Builders.{
  build_pa_filter_request, build_rx_filter_request, rx_frequency_to_tuning_word,
}
use flex1500d.Protocol.Bands.{
  first_filter, rx_filters, pa_filters, filter_for_frequency, rx_filter_for_frequency,
  pa_filter_for_frequency, voice_allocations, in_allocations, is_carrier, sixty_meter_carriers,
  physical_mic_frequency_allowed, am_frequency_allowed, network_iq_frequency_allowed,
  default_ssb_upper_sideband,
}

-- A frequency that clears the edges by the margin has the whole margin inside one allocation.
in_allocations_margin :
    (margin : ℕ) (bands : List (ℕ × ℕ)) (f g : ℕ)
    → in_allocations margin bands f ≡ true
    → f ≤ g + margin
    → g ≤ f + margin
    → in_allocations 0 bands g ≡ true
unfolding in_allocations
in_allocations_margin margin [] f g h lo hi = ground arith
in_allocations_margin margin ((low, high) ∷ rest) f g h lo hi =
    ground (arith, in_allocations_margin margin rest f g)

mic_in_allocations :
    (f : ℕ) (upper : Bool)
    → in_allocations 0 voice_allocations f ≡ true
    → physical_mic_frequency_allowed f upper ≡ true
unfolding physical_mic_frequency_allowed
mic_in_allocations f upper h = ground arith

-- Where AM is allowed, every frequency of its 3 kHz sidebands is one the microphone may use.
pub am_frequency_allowed_band :
    (f g : ℕ) (upper : Bool)
    → am_frequency_allowed f ≡ true
    → f ≤ g + 3000
    → g ≤ f + 3000
    → physical_mic_frequency_allowed g upper ≡ true
unfolding am_frequency_allowed
am_frequency_allowed_band f g upper h lo hi =
    mic_in_allocations g upper (in_allocations_margin 3000 voice_allocations f g h lo hi)

-- Where network I/Q is allowed, every frequency of its 48 kHz passband is one the microphone
-- may use.
pub network_iq_frequency_allowed_band :
    (f g : ℕ) (upper : Bool)
    → network_iq_frequency_allowed f ≡ true
    → f ≤ g + 24000
    → g ≤ f + 24000
    → physical_mic_frequency_allowed g upper ≡ true
unfolding network_iq_frequency_allowed
network_iq_frequency_allowed_band f g upper h lo hi =
    mic_in_allocations g upper (in_allocations_margin 24000 voice_allocations f g h lo hi)

-- The default sideband is one that the policy allows.
pub default_ssb_allowed :
    (f : ℕ) (upper : Bool)
    → default_ssb_upper_sideband f ≡ some upper
    → physical_mic_frequency_allowed f upper ≡ true
unfolding default_ssb_upper_sideband
default_ssb_allowed f upper h = ground arith

in_allocations_range :
    (f : ℕ) → in_allocations 0 voice_allocations f ≡ true → 1800000 ≤ f × f ≤ 54000000
unfolding in_allocations
in_allocations_range f h = ground arith

carrier_range : (f : ℕ) → is_carrier sixty_meter_carriers f ≡ true → 1800000 ≤ f × f ≤ 54000000
unfolding is_carrier
carrier_range f h = ground arith

mic_range :
    (f : ℕ) (upper : Bool)
    → physical_mic_frequency_allowed f upper ≡ true
    → 1800000 ≤ f × f ≤ 54000000
unfolding physical_mic_frequency_allowed
mic_range f upper h = ground (arith, in_allocations_range f, carrier_range f)

rx_bound : (f : ℕ) → first_filter rx_filters f ≤ 11
unfolding first_filter
rx_bound f = ground arith

pa_bound : (f : ℕ) → first_filter pa_filters f ≤ 7
unfolding first_filter
pa_bound f = ground arith

-- A filter that the tables choose is one that its command builder accepts, for both tables.
pub filter_built :
    (index f rx pa : ℕ)
    → rx_filter_for_frequency f ≡ some rx
    → pa_filter_for_frequency f ≡ some pa
    → build_rx_filter_request index rx ≢ none × build_pa_filter_request index pa ≢ none
unfolding rx_filter_for_frequency pa_filter_for_frequency filter_for_frequency
    build_rx_filter_request build_pa_filter_request
filter_built index f rx pa hr hp = ground (arith, rx_bound f, pa_bound f)

-- Every frequency that the microphone policy allows has a receive and a PA filter and a tuning
-- word.
pub mic_frequency_tunable :
    (word : ℕ → ℕ) (f : ℕ) (upper : Bool)
    → physical_mic_frequency_allowed f upper ≡ true
    → (rx_filter_for_frequency f ≢ none × pa_filter_for_frequency f ≢ none)
      × rx_frequency_to_tuning_word word f ≡ some (word f)
unfolding rx_filter_for_frequency pa_filter_for_frequency filter_for_frequency
    rx_frequency_to_tuning_word
mic_frequency_tunable word f upper h = ground (arith, mic_range f upper h)

-- A higher frequency never has a PA filter of a higher index.
pub pa_filter_antitone :
    (f g a b : ℕ)
    → f ≤ g
    → pa_filter_for_frequency f ≡ some a
    → pa_filter_for_frequency g ≡ some b
    → b ≤ a
unfolding pa_filter_for_frequency filter_for_frequency first_filter
pa_filter_antitone f g a b h hf hg = ground arith
