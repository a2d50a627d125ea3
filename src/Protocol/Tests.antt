-- ===== src/Protocol/Tests.antt =====
-- Runs of src/protocol.c, and its theorems at concrete inputs.
use mathlib.Core.Option.{some, none}
use flex1500d.Base.{◌≡◌, ◌≢◌, ◌↔◌, ◌≤◌, ◌*◌, ℕ, refl, true, false, List, [], ◌∷◌, arith, ◌%◌, ◌/◌}
use flex1500d.Base.Ints.{pos, negsuc}
use flex1500d.Base.Lists.{length, get_or}
use flex1500d.Protocol.{
  store_be32, decode_u32_response, decode_iq_frame, to_i16, decode_physical_inputs,
  physical_inputs_equal, PhysicalInputs,
}
use flex1500d.Protocol.Builders.{
  build_pa_filter_request, build_rx_filter_request, rx_frequency_to_tuning_word, blank,
}
use flex1500d.Protocol.Bands.{
  first_filter, filter_for_frequency, rx_filter_for_frequency, pa_filter_for_frequency,
  physical_mic_frequency_allowed, am_frequency_allowed, network_iq_frequency_allowed,
  in_allocations,
}
use flex1500d.Protocol.Decode.{
  decode_u32_response-store_be32, decode_u32_response_none, decode_iq_frame-word_of, word_of,
  IsInt16, physical_inputs_equal_bits,
}
use flex1500d.Protocol.Fields.{build, pa_filter, IsWord, Carries, meaning, build_fields}
use flex1500d.Protocol.Policy.{
  am_frequency_allowed_band, network_iq_frequency_allowed_band, filter_built, mic_frequency_tunable,
  pa_filter_antitone,
}

firmware_response :
    decode_u32_response (store_be32 (0 ∷ 1 ∷ 9 ∷ 0 ∷ 0 ∷ 0 ∷ 0 ∷ 0 ∷ []) 4 3735928559) 9
    ≡ some 3735928559
firmware_response = decode_u32_response-store_be32 0 9 0 0 0 0 0 3735928559 [] (omega arith)

abbrev short_packet : List ℕ
short_packet = 0 ∷ 1 ∷ 9 ∷ []

short_response :
    (decode_u32_response short_packet 9 ≡ none)
    ↔ ¬ (8 ≤ length short_packet × get_or short_packet 1 0 ≡ 1 × get_or short_packet 2 0 ≡ 9)
short_response = decode_u32_response_none short_packet 9

small-IsInt16 : IsInt16 (negsuc 0)
unfolding IsInt16
small-IsInt16 = omega arith

large-IsInt16 : IsInt16 (pos 32767)
unfolding IsInt16
large-IsInt16 = omega arith

-- The sample pair -1, 32767.
extreme_samples :
    decode_iq_frame
      (word_of (negsuc 0) % 256)
      (word_of (negsuc 0) / 256 % 256)
      (word_of (pos 32767) % 256)
      (word_of (pos 32767) / 256 % 256)
    ≡ (negsuc 0, pos 32767)
extreme_samples = decode_iq_frame-word_of (negsuc 0) (pos 32767) small-IsInt16 large-IsInt16

extreme_bytes : decode_iq_frame 255 255 255 127 ≡ (negsuc 0, pos 32767)
unfolding decode_iq_frame to_i16
extreme_bytes = refl

abbrev pressed : PhysicalInputs
pressed = record {
  raw_status = 254;
  mic_ptt = true;
  flexwire_ptt = false;
  dash = false;
  dot = false;
}

abbrev pressed_too : PhysicalInputs
pressed_too = record {
  raw_status = 252;
  mic_ptt = true;
  flexwire_ptt = false;
  dash = false;
  dot = false;
}

pressed_inputs : decode_physical_inputs (254 ∷ []) ≡ some pressed
unfolding decode_physical_inputs
pressed_inputs = refl

pressed_too_inputs : decode_physical_inputs (252 ∷ []) ≡ some pressed_too
unfolding decode_physical_inputs
pressed_too_inputs = refl

same_inputs : (physical_inputs_equal pressed pressed_too ≡ true) ↔ (
    254 % 2 ≡ 252 % 2
    × 254 / 8 % 2 ≡ 252 / 8 % 2
    × 254 / 16 % 2 ≡ 252 / 16 % 2
    × 254 / 32 % 2 ≡ 252 / 32 % 2)
same_inputs =
    physical_inputs_equal_bits 254 252 [] [] pressed pressed_too pressed_inputs pressed_too_inputs

abbrev packet : List ℕ
packet = store_be32 (blank 3 1260) 8 5

pa_filter_built : build 3 (pa_filter 5) ≡ some packet
unfolding build build_pa_filter_request
pa_filter_built = refl

no-IsWord : IsWord (pa_filter 5)
unfolding IsWord
no-IsWord = tt

pa_filter_packet :
    Carries packet 3 (meaning (pa_filter 5)).0 (meaning (pa_filter 5)).1 (meaning (pa_filter 5)).2
pa_filter_packet = build_fields 3 (pa_filter 5) packet no-IsWord pa_filter_built

am_allowed : am_frequency_allowed 7200000 ≡ true
unfolding am_frequency_allowed in_allocations
am_allowed = refl

am_edge : physical_mic_frequency_allowed 7203000 false ≡ true
am_edge = am_frequency_allowed_band 7200000 7203000 false am_allowed (omega arith) (omega arith)

network_iq_allowed : network_iq_frequency_allowed 7200000 ≡ true
unfolding network_iq_frequency_allowed in_allocations
network_iq_allowed = refl

network_iq_edge : physical_mic_frequency_allowed 7176000 false ≡ true
network_iq_edge =
    network_iq_frequency_allowed_band 7200000 7176000 false network_iq_allowed (omega arith)
      (omega arith)

rx_filter_40m : rx_filter_for_frequency 7200000 ≡ some 6
unfolding rx_filter_for_frequency filter_for_frequency first_filter
rx_filter_40m = refl

pa_filter_40m : pa_filter_for_frequency 7200000 ≡ some 5
unfolding pa_filter_for_frequency filter_for_frequency first_filter
pa_filter_40m = refl

pa_filter_20m : pa_filter_for_frequency 14200000 ≡ some 4
unfolding pa_filter_for_frequency filter_for_frequency first_filter
pa_filter_20m = refl

filters_40m : build_rx_filter_request 1 6 ≢ none × build_pa_filter_request 1 5 ≢ none
filters_40m = filter_built 1 7200000 6 5 rx_filter_40m pa_filter_40m

filters_fall : 4 ≤ 5
filters_fall = pa_filter_antitone 7200000 14200000 5 4 (omega arith) pa_filter_40m pa_filter_20m

abbrev rounded_word : ℕ → ℕ
rounded_word frequency_hz = frequency_hz * 8589934590 / 384000000

tunable_40m :
    (rx_filter_for_frequency 7203000 ≢ none × pa_filter_for_frequency 7203000 ≢ none)
    × rx_frequency_to_tuning_word rounded_word 7203000 ≡ some (rounded_word 7203000)
tunable_40m = mic_frequency_tunable rounded_word 7203000 false am_edge
