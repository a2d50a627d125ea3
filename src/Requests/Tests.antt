-- ===== src/Requests/Tests.antt =====
-- Runs of the request parsers of src/network.c, and its theorems at those requests.
use mathlib.Core.Option.{some, none}
use flex1500d.Base.{ℕ, ◌≡◌, ◌≤◌, ◌<◌, ◌↔◌, ◌-◌, refl, List, [], ◌∷◌, ◌++◌, if◌then◌else◌, leb, ◌==◌}
use flex1500d.Base.Ints.{pos, negsuc}
use flex1500d.Requests.{
  parse_rx_frequency_request, parse_rx_bandwidth_request, parse_rx_mode_request,
  parse_rx_gain_request, parse_rx_squelch_request, frequency_prefix, bandwidth_prefix, mode_prefix,
  gain_prefix, squelch_prefix, modes, gains, is_digit, after, first, parse_u32_path, read_u32,
  read_digits, parse_word, find_word, is_word,
}
use flex1500d.Requests.Parse.{
  AreDigits, Asks, value_from, parse_rx_frequency_request_iff, parse_rx_bandwidth_request_iff,
}
use flex1500d.Requests.Words.{IsOneOf, parse_word_iff}
use flex1500d.Requests.Squelch.{minus, word_of, parse_rx_squelch_request-append}

-- "PUT /v1/radio/frequency/7200000 "
abbrev frequency_request : List ℕ
frequency_request = frequency_prefix ++ (55 ∷ 50 ∷ 48 ∷ 48 ∷ 48 ∷ 48 ∷ 48 ∷ 32 ∷ [])

frequency_run : parse_rx_frequency_request frequency_request ≡ some 7200000
unfolding parse_rx_frequency_request parse_u32_path read_u32 read_digits after first is_digit
frequency_run = refl

frequency_example :
    (parse_rx_frequency_request frequency_request ≡ some 7200000)
    ↔ (Asks frequency_prefix frequency_request 7200000 × 7200000 < 4294967296)
frequency_example = parse_rx_frequency_request_iff frequency_request 7200000

-- "PUT /v1/radio/bandwidth/50 "
abbrev narrow_request : List ℕ
narrow_request = bandwidth_prefix ++ (53 ∷ 48 ∷ 32 ∷ [])

narrow_run : parse_rx_bandwidth_request narrow_request ≡ none
unfolding parse_rx_bandwidth_request parse_u32_path read_u32 read_digits after first is_digit
narrow_run = refl

bandwidth_example :
    (parse_rx_bandwidth_request narrow_request ≡ some 50)
    ↔ (Asks bandwidth_prefix narrow_request 50 × 100 ≤ 50 × 50 ≤ 20000)
bandwidth_example = parse_rx_bandwidth_request_iff narrow_request 50

-- "PUT /v1/radio/mode/am "
abbrev mode_request : List ℕ
mode_request = mode_prefix ++ (97 ∷ 109 ∷ 32 ∷ [])

mode_run : parse_rx_mode_request mode_request ≡ some (97 ∷ 109 ∷ [])
unfolding parse_rx_mode_request parse_word find_word is_word after first
mode_run = refl

word_example :
    ((parse_rx_mode_request mode_request ≡ some (97 ∷ 109 ∷ [])) ↔ (
      IsOneOf (97 ∷ 109 ∷ []) modes
      × ((rest : List ℕ) × (mode_request ≡ mode_prefix ++ ((97 ∷ 109 ∷ []) ++ (32 ∷ rest))))))
    × ((parse_rx_gain_request mode_request ≡ some (97 ∷ 109 ∷ [])) ↔ (
        IsOneOf (97 ∷ 109 ∷ []) gains
        × ((rest : List ℕ) × (mode_request ≡ gain_prefix ++ ((97 ∷ 109 ∷ []) ++ (32 ∷ rest))))))
word_example = parse_word_iff mode_request (97 ∷ 109 ∷ [])

-- The digits of 4294967356, which is 2 ^ 32 + 60.
abbrev wrapping_digits : List ℕ
wrapping_digits = 50 ∷ 57 ∷ 52 ∷ 57 ∷ 54 ∷ 55 ∷ 51 ∷ 53 ∷ 54 ∷ []

wrapping_AreDigits : AreDigits (52 ∷ wrapping_digits)
unfolding AreDigits is_digit
wrapping_AreDigits =
    (refl, (refl, (refl, (refl, (refl, (refl, (refl, (refl, (refl, (refl, tt))))))))))

wrapping_word : word_of (52 ∷ wrapping_digits) ≡ 60
unfolding value_from
wrapping_word = refl

wrapping_example :
    (parse_rx_squelch_request (squelch_prefix ++ (45 ∷ 52 ∷ (wrapping_digits ++ (32 ∷ [])))) ≡ (
      if leb (word_of (52 ∷ wrapping_digits)) 120
      then some (minus (word_of (52 ∷ wrapping_digits)))
      else none))
    × (parse_rx_squelch_request (squelch_prefix ++ (52 ∷ (wrapping_digits ++ (32 ∷ [])))) ≡ (
        if word_of (52 ∷ wrapping_digits) == 0
        then some (pos 0)
        else if leb 4294967176 (word_of (52 ∷ wrapping_digits))
        then some (negsuc (4294967295 - word_of (52 ∷ wrapping_digits)))
        else none))
wrapping_example = parse_rx_squelch_request-append 52 wrapping_digits [] wrapping_AreDigits
