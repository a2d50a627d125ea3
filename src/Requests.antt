-- ===== src/Requests.antt =====
-- The request parsers of src/network.c. A C string is the list of its characters before the
-- terminating zero, so that a read at the end of the list is a read of that zero.
pub mod Parse
pub mod Squelch
pub mod Words
mod Tests
use mathlib.Core.Option.{Option, some, none}
use flex1500d.Base.{
  ℕ, ◌+◌, ◌-◌, ◌*◌, ◌%◌, Bool, true, false, List, [], ◌∷◌, ◌++◌, ◌&&◌, ◌||◌, not, if◌then◌else◌,
  ltb, leb, ◌==◌,
}
use flex1500d.Base.Ints.{ℤ, pos, negsuc}
use flex1500d.Base.Words.{u32_mod}

-- `strncmp(request, prefix, strlen(prefix)) == 0`, with what follows the prefix.
unfoldable pub after : List ℕ → List ℕ → Option (List ℕ)
after [] request = some request
after (c ∷ prefix) [] = none
after (c ∷ prefix) (d ∷ request) = if c == d then after prefix request else none

unfoldable pub is_digit : ℕ → Bool
is_digit c = leb 48 c && leb c 57

-- `*cursor`
unfoldable pub first : List ℕ → ℕ
first [] = 0
first (c ∷ rest) = c

-- The loop over the digits, with the check against `UINT32_MAX` after each.
unfoldable pub read_digits : ℕ → List ℕ → Option (ℕ × List ℕ)
read_digits parsed [] = some (parsed, [])
read_digits parsed (c ∷ rest) =
    let later = read_digits (parsed * 10 + (c - 48)) rest in
    if is_digit c
    then (if ltb 4294967295 (parsed * 10 + (c - 48)) then none else later)
    else some (parsed, c ∷ rest)

-- The digits behind the prefix, up to the space.
unfoldable pub read_u32 : List ℕ → Option ℕ
read_u32 cursor = if not (is_digit (first cursor)) then none else elim (read_digits 0 cursor) [
  | none ↦ none
  | some (parsed, rest) ↦ if not (first rest == 32) then none else some parsed
]

unfoldable pub parse_u32_path : List ℕ → List ℕ → Option ℕ
parse_u32_path request prefix = elim (after prefix request) [
  | none ↦ none
  | some cursor ↦ read_u32 cursor
]

-- "PUT /v1/radio/"
abbrev pub radio_path : List ℕ
radio_path = 80 ∷ 85 ∷ 84 ∷ 32 ∷ 47 ∷ 118 ∷ 49 ∷ 47 ∷ 114 ∷ 97 ∷ 100 ∷ 105 ∷ 111 ∷ 47 ∷ []

-- "PUT /v1/radio/frequency/"
abbrev pub frequency_prefix : List ℕ
frequency_prefix = radio_path ++ (102 ∷ 114 ∷ 101 ∷ 113 ∷ 117 ∷ 101 ∷ 110 ∷ 99 ∷ 121 ∷ 47 ∷ [])

-- "PUT /v1/radio/bandwidth/"
abbrev pub bandwidth_prefix : List ℕ
bandwidth_prefix = radio_path ++ (98 ∷ 97 ∷ 110 ∷ 100 ∷ 119 ∷ 105 ∷ 100 ∷ 116 ∷ 104 ∷ 47 ∷ [])

-- "PUT /v1/radio/squelch/"
abbrev pub squelch_prefix : List ℕ
squelch_prefix = radio_path ++ (115 ∷ 113 ∷ 117 ∷ 101 ∷ 108 ∷ 99 ∷ 104 ∷ 47 ∷ [])

-- "PUT /v1/radio/mode/"
abbrev pub mode_prefix : List ℕ
mode_prefix = radio_path ++ (109 ∷ 111 ∷ 100 ∷ 101 ∷ 47 ∷ [])

-- "PUT /v1/radio/gain/"
abbrev pub gain_prefix : List ℕ
gain_prefix = radio_path ++ (103 ∷ 97 ∷ 105 ∷ 110 ∷ 47 ∷ [])

unfoldable pub parse_rx_frequency_request : List ℕ → Option ℕ
parse_rx_frequency_request request = parse_u32_path request frequency_prefix

unfoldable pub parse_rx_bandwidth_request : List ℕ → Option ℕ
parse_rx_bandwidth_request request = elim (parse_u32_path request bandwidth_prefix) [
  | none ↦ none
  | some bandwidth_hz ↦
      if leb 100 bandwidth_hz && leb bandwidth_hz 20000 then some bandwidth_hz else none
]

-- The modes "am", "fm", "usb", "lsb" and "cw".
abbrev pub modes : List (List ℕ)
modes =
    (97 ∷ 109 ∷ [])
    ∷ (102 ∷ 109 ∷ [])
    ∷ (117 ∷ 115 ∷ 98 ∷ [])
    ∷ (108 ∷ 115 ∷ 98 ∷ [])
    ∷ (99 ∷ 119 ∷ [])
    ∷ []

-- The gains "-10", "0", "10", "20" and "30", as they are printed.
abbrev pub gains : List (List ℕ)
gains = (45 ∷ 49 ∷ 48 ∷ []) ∷ (48 ∷ []) ∷ (49 ∷ 48 ∷ []) ∷ (50 ∷ 48 ∷ []) ∷ (51 ∷ 48 ∷ []) ∷ []

-- The value starts with `word` and a space follows.
unfoldable pub is_word : List ℕ → List ℕ → Bool
is_word word value = elim (after word value) [ none ↦ false | some rest ↦ first rest == 32 ]

-- The loop over a table of words.
unfoldable pub find_word : List (List ℕ) → List ℕ → Option (List ℕ)
find_word [] value = none
find_word (word ∷ words) value = if is_word word value then some word else find_word words value

unfoldable pub parse_word : List ℕ → List (List ℕ) → List ℕ → Option (List ℕ)
parse_word prefix words request = elim (after prefix request) [
  | none ↦ none
  | some value ↦ find_word words value
]

unfoldable pub parse_rx_mode_request : List ℕ → Option (List ℕ)
parse_rx_mode_request = parse_word mode_prefix modes

-- The gain is the one whose text this gives.
unfoldable pub parse_rx_gain_request : List ℕ → Option (List ℕ)
parse_rx_gain_request = parse_word gain_prefix gains

-- The loop of the squelch parser: `int32_t`, kept as the unsigned word of the same bits. The
-- source does not check it; where it overflows, C leaves the result open, and the model wraps.
unfoldable pub read_squelch : ℕ → List ℕ → ℕ × List ℕ
read_squelch parsed [] = (parsed, [])
read_squelch parsed (c ∷ rest) =
    let later = read_squelch ((parsed * 10 + (c - 48)) % u32_mod) rest in
    if is_digit c then later else (parsed, c ∷ rest)

-- Negation of the word.
unfoldable pub negate : Bool → ℕ → ℕ
negate negative parsed = if negative then (u32_mod - parsed) % u32_mod else parsed

-- The word as `int32_t`, where it lies from -120 to 0.
unfoldable pub squelch_of : ℕ → Option ℤ
squelch_of word =
    if word == 0
    then some (pos 0)
    else if leb (u32_mod - 120) word
    then some (negsuc (u32_mod - 1 - word))
    else none

unfoldable pub parse_squelch : Bool → List ℕ → Option ℤ
parse_squelch negative cursor =
    let (parsed, rest) = read_squelch 0 cursor in
    if not (is_digit (first cursor))
    then none
    else if not (first rest == 32)
    then none
    else squelch_of (negate negative parsed)

-- A minus sign is skipped.
unfoldable pub squelch_value : List ℕ → Option ℤ
squelch_value [] = parse_squelch false []
squelch_value (c ∷ rest) =
    if c == 45 then parse_squelch true rest else parse_squelch false (c ∷ rest)

unfoldable pub parse_rx_squelch_request : List ℕ → Option ℤ
parse_rx_squelch_request request = elim (after squelch_prefix request) [
  | none ↦ none
  | some cursor ↦ squelch_value cursor
]
