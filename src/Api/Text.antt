-- ===== src/Api/Text.antt =====
-- How src/api.c reads a request. A C string is the list of its characters before the terminating
-- zero. `sscanf` is a parameter; `strtoull` and `strstr` are the C library's, written out.
use Prim.Native.Char.{code}
use Prim.Native.String.{String}
use mathlib.Core.Option.{Option, some, none}
use flex1500d.Base.{
  ℕ, ◌+◌, ◌-◌, ◌*◌, Bool, true, false, List, [], ◌∷◌, ◌++◌, ◌&&◌, ◌||◌, not, if◌then◌else◌, ltb,
  leb, ◌==◌,
}
use flex1500d.Base.Lists.{drop}
use flex1500d.Requests.{after, first, is_digit}

abbrev pub codes : String → List ℕ
codes String.[] = []
codes (String.◌∷◌ c s) = code c ∷ codes s

-- `strncmp(request, prefix, strlen(prefix)) == 0`
unfoldable pub begins : List ℕ → List ℕ → Bool
begins prefix request = elim (after prefix request) [ none ↦ false | some rest ↦ true ]

-- `strstr`
unfoldable pub find : List ℕ → List ℕ → Option (List ℕ)
find needle [] = if begins needle [] then some [] else none
find needle (c ∷ rest) = if begins needle (c ∷ rest) then some (c ∷ rest) else find needle rest

abbrev to_lower : ℕ → ℕ
to_lower c = if leb 65 c && leb c 90 then c + 32 else c

-- `strncasecmp(text, word, strlen(word)) == 0`, with what follows.
unfoldable pub after_caseless : List ℕ → List ℕ → Option (List ℕ)
after_caseless [] text = some text
after_caseless (c ∷ word) [] = none
after_caseless (c ∷ word) (d ∷ text) =
    if to_lower c == to_lower d then after_caseless word text else none

unfoldable pub begins_caseless : List ℕ → List ℕ → Bool
begins_caseless word text = elim (after_caseless word text) [ none ↦ false | some rest ↦ true ]

abbrev u64_max : ℕ
u64_max = 18446744073709551615

-- The digits of `strtoull`, where a value that is too large stays at 2 ^ 64.
unfoldable pub digits : ℕ → List ℕ → ℕ × List ℕ
digits value [] = (value, [])
digits value (c ∷ rest) =
    let next = value * 10 + (c - 48) in
    let later = digits (if ltb u64_max next then u64_max + 1 else next) rest in
    if is_digit c then later else (value, c ∷ rest)

abbrev is_space : ℕ → Bool
is_space c = c == 32 || leb 9 c && leb c 13

unfoldable pub skip_space : List ℕ → List ℕ
skip_space [] = []
skip_space (c ∷ rest) = if is_space c then skip_space rest else c ∷ rest

-- The result for the digits' value, which is negated behind a minus sign where it is not too large.
abbrev signed_value : Bool → ℕ → ℕ
signed_value negative value =
    if ltb u64_max value
    then u64_max
    else if negative && not (value == 0)
    then u64_max + 1 - value
    else value

unfoldable pub unsigned : Bool → List ℕ → Option (ℕ × List ℕ)
unsigned negative cursor =
    let (value, rest) = digits 0 cursor in
    if not (is_digit (first cursor)) then none else some (signed_value negative value, rest)

unfoldable pub signed : List ℕ → Option (ℕ × List ℕ)
signed [] = none
signed (c ∷ rest) =
    if c == 45
    then unsigned true rest
    else if c == 43
    then unsigned false rest
    else unsigned false (c ∷ rest)

-- The value and the end; `none` where `end == start`.
unfoldable pub strtoull : List ℕ → Option (ℕ × List ℕ)
strtoull text = signed (skip_space text)

abbrev http_end : List ℕ → Bool
http_end rest = begins (codes " HTTP/") rest

unfoldable pub parse_lease_path : List ℕ → List ℕ → Option ℕ
parse_lease_path request prefix = elim (after prefix request) [
  | none ↦ none
  | some cursor ↦ elim (strtoull cursor) [
    | none ↦ none
    | some (value, rest) ↦ if value == 0 || not (http_end rest) then none else some value
  ]
]

-- `parse_tx_timeout_request` is the same with its prefix.
unfoldable pub parse_uint_setting : List ℕ → List ℕ → Option ℕ
parse_uint_setting request prefix = elim (after prefix request) [
  | none ↦ none
  | some cursor ↦ elim (strtoull cursor) [
    | none ↦ none
    | some (value, rest) ↦ if ltb 4294967295 value || not (http_end rest) then none else some value
  ]
]

-- Every method and path of the source is shorter than the buffer of `request_is`.
unfoldable pub request_is : List ℕ → List ℕ → List ℕ → Bool
request_is request method path = begins (method ++ (codes " ") ++ path ++ (codes " HTTP/")) request

abbrev pub line_end : List ℕ
line_end = 13 ∷ 10 ∷ []

unfoldable pub skip_blank : List ℕ → List ℕ
skip_blank [] = []
skip_blank (c ∷ rest) = if c == 32 || c == 9 then skip_blank rest else c ∷ rest

-- The value of a header on this line.
unfoldable pub header_value : List ℕ → List ℕ → Option (List ℕ)
header_value name line = elim (after_caseless name line) [
  | none ↦ none
  | some rest ↦ elim rest [
    | [] ↦ none
    | c ∷ value ↦ if c == 58 then some (skip_blank value) else none
  ]
]

-- What follows each end of a line.
unfoldable pub line_starts : List ℕ → List (List ℕ)
line_starts [] = []
line_starts (c ∷ rest) =
    let later = line_starts rest in
    if begins line_end (c ∷ rest) then drop 1 rest ∷ later else later

-- The loop over the lines, up to the empty line or to one without an end.
unfoldable pub header_in : List ℕ → List (List ℕ) → Option (List ℕ)
header_in name [] = none
header_in name (line ∷ more) = elim (find line_end line) [
  | none ↦ none
  | some end ↦
      if begins line_end line
      then none
      else elim (header_value name line) [ none ↦ header_in name more | some value ↦ some value ]
]

unfoldable pub request_header : List ℕ → List ℕ → Option (List ℕ)
request_header request name = header_in name (request ∷ line_starts request)

abbrev ends_line : List ℕ → Bool
ends_line rest = first rest == 13 || first rest == 10

unfoldable pub request_lease : List ℕ → Option ℕ
request_lease request = elim (request_header request (codes "X-Flex1500-TX-Lease")) [
  | none ↦ none
  | some value ↦ elim (strtoull value) [
    | none ↦ none
    | some (lease, rest) ↦ if lease == 0 || not (ends_line rest) then none else some lease
  ]
]

-- The lease that a control request carries, where it carries one.
unfoldable pub control_lease : List ℕ → Option ℕ
control_lease request = elim (request_header request (codes "X-Flex1500-Control-Lease")) [
  | none ↦ none
  | some value ↦ elim (strtoull value) [ none ↦ none | some (lease, rest) ↦ some lease ]
]
