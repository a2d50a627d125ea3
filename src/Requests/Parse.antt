-- ===== src/Requests/Parse.antt =====
-- The parsers of src/network.c accept exactly the decimal numbers and the words of their tables.
use mathlib.Core.Option.{some}
use flex1500d.Base.{
  ℕ, ◌+◌, ◌-◌, ◌*◌, ◌<◌, ◌≤◌, ◌≡◌, ◌↔◌, inl, inr, refl, ap, true, false, List, [], ◌∷◌, ◌++◌,
  Bool-cases, Option-cases, arith,
}
use flex1500d.Requests.{
  after, is_digit, first, read_digits, read_u32, parse_u32_path, frequency_prefix, bandwidth_prefix,
  parse_rx_frequency_request, parse_rx_bandwidth_request,
}

-- The number that a list of digits spells behind the number `n`.
unfoldable pub value_from : ℕ → List ℕ → ℕ
value_from n [] = n
value_from n (c ∷ rest) = value_from (n * 10 + (c - 48)) rest

unfoldable pub AreDigits : List ℕ → Type 0
AreDigits [] = Unit
AreDigits (c ∷ rest) = is_digit c ≡ true × AreDigits rest

-- The text that follows starts with a space.
unfoldable pub StartsWithSpace : List ℕ → Type 0
StartsWithSpace rest = first rest ≡ 32

pub after-append : (prefix rest : List ℕ) → after prefix (prefix ++ rest) ≡ some rest
unfolding after
after-append [] rest = refl
after-append (c ∷ prefix) rest = ground (arith, after-append prefix rest)

pub after_sound :
    (prefix request rest : List ℕ) → after prefix request ≡ some rest → request ≡ prefix ++ rest
unfolding after
after_sound [] request rest h = ground arith
after_sound (c ∷ prefix) [] rest h = ground arith
after_sound (c ∷ prefix) (d ∷ request) rest h = ground (arith, after_sound prefix request rest)

value_from-le : (n : ℕ) (ds : List ℕ) → n ≤ value_from n ds
unfolding value_from
value_from-le n [] = omega arith
value_from-le n (c ∷ rest) = omega (arith, value_from-le (n * 10 + (c - 48)) rest)

-- The loop reads all the digits, where the number fits.
read_digits-append :
    (n : ℕ) (ds rest : List ℕ)
    → AreDigits ds
    → is_digit (first rest) ≡ false
    → value_from n ds < 4294967296
    → read_digits n (ds ++ rest) ≡ some (value_from n ds, rest)
unfolding read_digits value_from AreDigits first
read_digits-append n [] [] a b c = refl
read_digits-append n [] (x ∷ rest) a b c = ground arith
read_digits-append n (x ∷ ds) rest a b c = ground (
  arith,
  read_digits-append (n * 10 + (x - 48)) ds rest a.1 b,
  value_from-le (n * 10 + (x - 48)) ds,
)

-- A text is digits that spell `v` behind the number `n`, and then `rest`.
pub record Spells (n : ℕ) (text : List ℕ) (v : ℕ) (rest : List ℕ) : Type 0 where
  pub digits : List ℕ
  pub spelled : text ≡ digits ++ rest
  pub are : AreDigits digits
  pub value : value_from n digits ≡ v

-- What the loop has read is digits that spell a 32-bit number.
read_digits_sound :
    (n : ℕ) (cursor : List ℕ) (v : ℕ) (rest : List ℕ)
    → n < 4294967296
    → read_digits n cursor ≡ some (v, rest)
    → Spells n cursor v rest × v < 4294967296
unfolding read_digits value_from AreDigits
read_digits_sound n [] v rest b h =
    (record { digits = []; spelled = ground arith; are = tt; value = ground arith }, ground arith)
read_digits_sound n (c ∷ cursor) v rest b h = elim (Bool-cases (is_digit c)) [
  | inr e ↦
      (record { digits = []; spelled = ground arith; are = tt; value = ground arith }, ground arith)
  | inl e ↦
      let (s, r) =
        read_digits_sound (n * 10 + (c - 48)) cursor v rest (ground arith) (ground arith) in
      (
        record {
          digits = c ∷ s.digits;
          spelled = ap (λ k. c ∷ k) s.spelled;
          are = (e, s.are);
          value = s.value;
        },
        r,
      )
]

-- A request is the prefix, a decimal number of at least one digit, and a space.
pub record Asks (prefix request : List ℕ) (v : ℕ) : Type 0 where
  pub text : List ℕ
  pub rest : List ℕ
  pub begins : request ≡ prefix ++ text
  pub number : Spells 0 text v (32 ∷ rest)
  pub some_digit : is_digit (first text) ≡ true

pub starts_with_space : (rest : List ℕ) → first rest ≡ 32 → (tail : List ℕ) × (rest ≡ 32 ∷ tail)
unfolding first
starts_with_space [] h = absurd (omega (arith, h))
starts_with_space (c ∷ rest) h = (rest, ap (λ k. k ∷ rest) h)

read_u32_sound :
    (cursor : List ℕ) (v : ℕ)
    → read_u32 cursor ≡ some v
    → (is_digit (first cursor) ≡ true)
      × ((rest : List ℕ) × (read_digits 0 cursor ≡ some (v, 32 ∷ rest)))
unfolding read_u32
read_u32_sound cursor v h = elim (Option-cases (read_digits 0 cursor)) [
  | inl e ↦ absurd (ground arith)
  | inr (p, e) ↦
      let (rest, f) = starts_with_space p.1 (ground arith) in (ground arith, (rest, ground arith))
]

parse_u32_path_sound :
    (prefix request : List ℕ) (v : ℕ)
    → parse_u32_path request prefix ≡ some v
    → Asks prefix request v × v < 4294967296
unfolding parse_u32_path
parse_u32_path_sound prefix request v h = elim (Option-cases (after prefix request)) [
  | inl e ↦ absurd (ground arith)
  | inr (cursor, e) ↦
      let (d, (rest, f)) = read_u32_sound cursor v (ground arith) in
      let (s, r) = read_digits_sound 0 cursor v (32 ∷ rest) (omega arith) f in
      (
        record {
          text = cursor;
          rest = rest;
          begins = after_sound prefix request cursor e;
          number = s;
          some_digit = d;
        },
        r,
      )
]

space_ends : (rest : List ℕ) → is_digit (first (32 ∷ rest)) ≡ false
unfolding is_digit first
space_ends rest = refl

read_u32_full :
    (text : List ℕ) (v : ℕ) (rest : List ℕ)
    → Spells 0 text v (32 ∷ rest)
    → is_digit (first text) ≡ true
    → v < 4294967296
    → read_u32 text ≡ some v
unfolding read_u32 first
read_u32_full text v rest s d b =
    let e = read_digits-append 0 s.digits (32 ∷ rest) s.are (space_ends rest) (rw s.value b) in
    ground (arith, s.spelled, e, s.value)

parse_u32_path_full :
    (prefix request : List ℕ) (v : ℕ)
    → Asks prefix request v
    → v < 4294967296
    → parse_u32_path request prefix ≡ some v
unfolding parse_u32_path
parse_u32_path_full prefix request v a b = ground (
  arith,
  a.begins,
  after-append prefix a.text,
  read_u32_full a.text v a.rest a.number a.some_digit b,
)

-- A number is read from a request exactly if the request is the prefix, digits that spell the
-- number, which is below 2 ^ 32, and a space.
pub parse_u32_path_iff :
    (prefix request : List ℕ) (v : ℕ)
    → (parse_u32_path request prefix ≡ some v) ↔ (Asks prefix request v × v < 4294967296)
parse_u32_path_iff prefix request v =
    (parse_u32_path_sound prefix request v, λ p. parse_u32_path_full prefix request v p.0 p.1)

-- A frequency is accepted exactly if it is a decimal number below 2 ^ 32 and a space follows it.
pub parse_rx_frequency_request_iff :
    (request : List ℕ) (v : ℕ)
    → (parse_rx_frequency_request request ≡ some v)
      ↔ (Asks frequency_prefix request v × v < 4294967296)
unfolding parse_rx_frequency_request
parse_rx_frequency_request_iff request v = parse_u32_path_iff frequency_prefix request v

-- A bandwidth is accepted exactly if it is a decimal number from 100 to 20000 and a space follows
-- it.
pub parse_rx_bandwidth_request_iff :
    (request : List ℕ) (v : ℕ)
    → (parse_rx_bandwidth_request request ≡ some v)
      ↔ (Asks bandwidth_prefix request v × 100 ≤ v × v ≤ 20000)
unfolding parse_rx_bandwidth_request
parse_rx_bandwidth_request_iff request v = (
  λ h. elim (Option-cases (parse_u32_path request bandwidth_prefix)) [
    | inl e ↦ absurd (ground arith)
    | inr (w, e) ↦
        let (a, b) = parse_u32_path_sound bandwidth_prefix request v (ground arith) in
        (a, ground arith, ground arith)
  ],
  λ p.
      let e = parse_u32_path_full bandwidth_prefix request v p.0 (omega (arith, p.2)) in
      ground (arith, e, p.1, p.2),
)
