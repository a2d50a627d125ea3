-- ===== src/Requests/Squelch.antt =====
-- What the squelch parser of src/network.c makes of a decimal number.
use mathlib.Core.Option.{some, none}
use flex1500d.Base.{
  ℕ, zero, suc, ◌+◌, ◌-◌, ◌*◌, ◌%◌, ◌<◌, ◌≡◌, ◌≢◌, refl, ap, sym, ◌∙◌, Bool, true, false, List, [],
  ◌∷◌, ◌++◌, if◌then◌else◌, leb, ◌==◌, arith,
}
use flex1500d.Base.Ints.{ℤ, pos, negsuc}
use flex1500d.Requests.{
  after, is_digit, first, read_squelch, negate, squelch_of, parse_squelch, squelch_value,
  parse_rx_squelch_request, squelch_prefix,
}
use flex1500d.Requests.Parse.{value_from, AreDigits, after-append}

abbrev pub word_of : List ℕ → ℕ
word_of ds = value_from 0 ds % 4294967296

-- The negative of a number.
unfoldable pub minus : ℕ → ℤ
minus zero = pos 0
minus (suc n) = negsuc n

step_mod : (n d : ℕ) → (n % 4294967296 * 10 + d) % 4294967296 ≡ (n * 10 + d) % 4294967296
step_mod n d = omega arith

value_from-mod :
    (n : ℕ) (ds : List ℕ)
    → value_from (n % 4294967296) ds % 4294967296 ≡ value_from n ds % 4294967296
unfolding value_from
value_from-mod n [] = omega arith
value_from-mod n (c ∷ ds) =
    sym (value_from-mod (n % 4294967296 * 10 + (c - 48)) ds)
    ∙ ap (λ k. value_from k ds % 4294967296) (step_mod n (c - 48))
    ∙ value_from-mod (n * 10 + (c - 48)) ds

read_squelch-append :
    (n : ℕ) (ds rest : List ℕ)
    → n < 4294967296
    → AreDigits ds
    → is_digit (first rest) ≡ false
    → read_squelch n (ds ++ rest) ≡ (value_from n ds % 4294967296, rest)
unfolding read_squelch value_from AreDigits first
read_squelch-append n [] [] b a e = ground arith
read_squelch-append n [] (x ∷ rest) b a e = ground arith
read_squelch-append n (c ∷ ds) rest b a e = ground (
  arith,
  read_squelch-append ((n * 10 + (c - 48)) % 4294967296) ds rest (omega arith) a.1 e,
  value_from-mod (n * 10 + (c - 48)) ds,
)

negative_word :
    (w : ℕ)
    → w < 4294967296
    → squelch_of (negate true w) ≡ (if leb w 120 then some (minus w) else none)
unfolding squelch_of negate minus
negative_word zero b = refl
negative_word (suc w) b = ground arith

positive_word :
    (w : ℕ)
    → squelch_of (negate false w) ≡ (
        if w == 0
        then some (pos 0)
        else if leb 4294967176 w
        then some (negsuc (4294967295 - w))
        else none)
unfolding squelch_of negate
positive_word w = ground arith

space_ends : (rest : List ℕ) → is_digit (first (32 ∷ rest)) ≡ false
unfolding is_digit first
space_ends rest = refl

parse_squelch-append :
    (negative : Bool) (c : ℕ) (ds rest : List ℕ)
    → AreDigits (c ∷ ds)
    → parse_squelch negative (c ∷ (ds ++ (32 ∷ rest)))
      ≡ squelch_of (negate negative (word_of (c ∷ ds)))
unfolding parse_squelch first AreDigits
parse_squelch-append negative c ds rest a =
    ground
      (arith, read_squelch-append 0 (c ∷ ds) (32 ∷ rest) (omega arith) a (space_ends rest), a.0)

digit_ne : (c : ℕ) → is_digit c ≡ true → c ≢ 45
unfolding is_digit
digit_ne c h = ground arith

request_value :
    (request cursor : List ℕ)
    → after squelch_prefix request ≡ some cursor
    → parse_rx_squelch_request request ≡ squelch_value cursor
unfolding parse_rx_squelch_request
request_value request cursor h = ground arith

negative_request :
    (c : ℕ) (ds rest : List ℕ)
    → AreDigits (c ∷ ds)
    → parse_rx_squelch_request (squelch_prefix ++ (45 ∷ c ∷ (ds ++ (32 ∷ rest))))
      ≡ (if leb (word_of (c ∷ ds)) 120 then some (minus (word_of (c ∷ ds))) else none)
unfolding squelch_value
negative_request c ds rest a =
    request_value (squelch_prefix ++ (45 ∷ c ∷ (ds ++ (32 ∷ rest)))) (45 ∷ c ∷ (ds ++ (32 ∷ rest)))
      (after-append squelch_prefix (45 ∷ c ∷ (ds ++ (32 ∷ rest))))
    ∙ parse_squelch-append true c ds rest a
    ∙ negative_word (word_of (c ∷ ds)) (omega arith)

skips_sign :
    (c : ℕ) (rest : List ℕ)
    → is_digit c ≡ true
    → squelch_value (c ∷ rest) ≡ parse_squelch false (c ∷ rest)
unfolding squelch_value
skips_sign c rest h = ground (arith, digit_ne c h)

positive_request :
    (c : ℕ) (ds rest : List ℕ)
    → AreDigits (c ∷ ds)
    → parse_rx_squelch_request (squelch_prefix ++ (c ∷ (ds ++ (32 ∷ rest)))) ≡ (
        if word_of (c ∷ ds) == 0
        then some (pos 0)
        else if leb 4294967176 (word_of (c ∷ ds))
        then some (negsuc (4294967295 - word_of (c ∷ ds)))
        else none)
unfolding AreDigits
positive_request c ds rest a =
    request_value (squelch_prefix ++ (c ∷ (ds ++ (32 ∷ rest)))) (c ∷ (ds ++ (32 ∷ rest)))
      (after-append squelch_prefix (c ∷ (ds ++ (32 ∷ rest))))
    ∙ skips_sign c (ds ++ (32 ∷ rest)) a.0
    ∙ parse_squelch-append false c ds rest a
    ∙ positive_word (word_of (c ∷ ds))

-- The result for a decimal number hangs on its remainder by 2 ^ 32 alone: behind a minus sign a
-- remainder of at most 120 is accepted as its negative, and without the sign a remainder of 0 or
-- one of the last 120 is accepted as the `int32_t` of those bits.
pub parse_rx_squelch_request-append :
    (c : ℕ) (ds rest : List ℕ)
    → AreDigits (c ∷ ds)
    → (parse_rx_squelch_request (squelch_prefix ++ (45 ∷ c ∷ (ds ++ (32 ∷ rest))))
        ≡ (if leb (word_of (c ∷ ds)) 120 then some (minus (word_of (c ∷ ds))) else none))
      × (parse_rx_squelch_request (squelch_prefix ++ (c ∷ (ds ++ (32 ∷ rest)))) ≡ (
          if word_of (c ∷ ds) == 0
          then some (pos 0)
          else if leb 4294967176 (word_of (c ∷ ds))
          then some (negsuc (4294967295 - word_of (c ∷ ds)))
          else none))
parse_rx_squelch_request-append c ds rest a =
    (negative_request c ds rest a, positive_request c ds rest a)
