-- ===== src/Http/Length.antt =====
-- A client can read a response of src/network.c: its Content-Length is the length of its body.
use mathlib.Core.Option.{Option, some, none}
use flex1500d.Base.{
  ℕ, zero, suc, ◌+◌, ◌-◌, ◌*◌, ◌/◌, ◌%◌, ◌<◌, ◌≡◌, refl, ap, sym, ◌∙◌, List, [], ◌∷◌, ◌++◌, ◌&&◌,
  if◌then◌else◌, leb, ◌==◌, either, Bool-cases, inl, inr, arith,
}
use flex1500d.Base.Lists.{length, drop, length-append}
use flex1500d.Api.Text.{codes, begins, find}
use flex1500d.Requests.{after, first}
use flex1500d.Http.{
  print_from, print_size, answer, before_length, after_length, response_text, build_http_response,
}

-- The value of the digits at the front of a text.
unfoldable pub read_size : ℕ → List ℕ → ℕ
read_size value [] = value
read_size value (c ∷ text) =
    let later = read_size (value * 10 + (c - 48)) text in
    if leb 48 c && leb c 57 then later else value

read_digit :
    (value d : ℕ) (text : List ℕ)
    → d < 10
    → read_size value ((48 + d) ∷ text) ≡ read_size (value * 10 + d) text
unfolding read_size
read_digit value d text h =
    either (λ k. k ≡ read_size (value * 10 + d) text) (leb 48 (48 + d) && leb (48 + d) 57) _ _
      (λ e. ap (λ k. read_size k text) (omega arith)) (λ e. absurd (ground arith))

read-print_from :
    (fuel n : ℕ) (text : List ℕ)
    → n < fuel
    → read_size 0 (print_from fuel n text) ≡ read_size n text
unfolding print_from
read-print_from zero n text h = absurd (omega arith)
read-print_from (suc fuel) n text h =
    either (λ k. read_size 0 k ≡ read_size n text) (n / 10 == 0) _ _
      (λ e. read_digit 0 (n % 10) text (omega arith) ∙ ap (λ k. read_size k text) (ground arith))
      (λ e.
        read-print_from fuel (n / 10) ((48 + n % 10) ∷ text) (ground arith)
        ∙ read_digit (n / 10) (n % 10) text (omega arith)
        ∙ ap (λ k. read_size k text) (omega arith))

-- The number behind the first "Content-Length: ".
unfoldable pub content_length : List ℕ → Option ℕ
content_length text = elim (find (codes "Content-Length: ") text) [
  | none ↦ none
  | some rest ↦ some (read_size 0 (drop 16 rest))
]

-- A carriage return is no digit.
read_size-after_length : (size : ℕ) (body : List ℕ) → read_size size (after_length body) ≡ size
unfolding read_size
read_size-after_length size body = refl

sized : (body : List ℕ) → read_size 0 (print_size (length body) (after_length body)) ≡ length body
unfolding print_size
sized body =
    read-print_from (suc (length body)) (length body) (after_length body) (omega arith)
    ∙ read_size-after_length (length body) body

ok_length :
    (body : List ℕ) → content_length (response_text (codes "200 OK") body) ≡ some (length body)
unfolding content_length response_text find begins after first
ok_length body = ap some (sized body)

unavailable_length :
    (body : List ℕ)
    → content_length (response_text (codes "503 Service Unavailable") body) ≡ some (length body)
unfolding content_length response_text find begins after first
unavailable_length body = ap some (sized body)

missing_length :
    (body : List ℕ)
    → content_length (response_text (codes "404 Not Found") body) ≡ some (length body)
unfolding content_length response_text find begins after first
missing_length body = ap some (sized body)

-- The last `n` characters.
unfoldable pub last_part : ℕ → List ℕ → List ℕ
last_part n text = drop (length text - n) text

drop-append : (n : ℕ) (xs ys : List ℕ) → n ≡ length xs → drop n (xs ++ ys) ≡ ys
drop-append zero [] ys h = refl
drop-append (suc n) [] ys h = absurd (omega arith)
drop-append zero (x ∷ xs) ys h = absurd (omega arith)
drop-append (suc n) (x ∷ xs) ys h = drop-append n xs ys (omega arith)

last_part-append : (xs ys : List ℕ) → last_part (length ys) (xs ++ ys) ≡ ys
unfolding last_part
last_part-append xs ys = drop-append _ xs ys (omega (arith, length-append xs ys))

print_from-append :
    (fuel n : ℕ) (xs ys : List ℕ) → print_from fuel n (xs ++ ys) ≡ print_from fuel n xs ++ ys
unfolding print_from
print_from-append zero n xs ys = refl
print_from-append (suc fuel) n xs ys = elim (Bool-cases (n / 10 == 0)) [
  | inl e ↦ rw e
  | inr e ↦ rw e (print_from-append fuel (n / 10) ((48 + n % 10) ∷ xs) ys)
]

append_assoc : (xs ys zs : List ℕ) → (xs ++ ys) ++ zs ≡ xs ++ (ys ++ zs)
append_assoc [] ys zs = refl
append_assoc (x ∷ xs) ys zs = ap (λ k. x ∷ k) (append_assoc xs ys zs)

response_body :
    (status_line body : List ℕ) → last_part (length body) (response_text status_line body) ≡ body
unfolding response_text print_size
response_body status_line body =
    ap (λ k. last_part (length body) (before_length status_line ++ k))
      (print_from-append (suc (length body)) (length body) (after_length []) body)
    ∙ ap (last_part (length body)) (
        sym (
          append_assoc (before_length status_line)
            (print_from (suc (length body)) (length body) (after_length [])) body))
    ∙ last_part-append
        (before_length status_line
          ++ print_from (suc (length body)) (length body) (after_length []))
        body

content_length-answer :
    (request status_json radio_json : List ℕ)
    → let (status_line, body) = answer request status_json radio_json in
      content_length (response_text status_line body) ≡ some (length body)
unfolding answer
content_length-answer request status_json radio_json =
    either (λ (l, b). content_length (response_text l b) ≡ some (length b))
      (begins (codes "GET /v1/status ") request) _ _ (λ _. ok_length _)
      (λ _.
        either (λ (l, b). content_length (response_text l b) ≡ some (length b))
          (begins (codes "GET /v1/radio ") request) _ _ (λ _. ok_length _)
          (λ _.
            either (λ (l, b). content_length (response_text l b) ≡ some (length b))
              (begins (codes "GET /v1/stream/iq ") request) _ _ (λ _. unavailable_length _)
              (λ _. missing_length _)))

-- What a text that fits is.
fits :
    (capacity : ℕ) (built text : List ℕ)
    → (if leb capacity (length built) then none else some built) ≡ some text
    → (length built < capacity) × (built ≡ text)
fits capacity built text h = (ground arith, ground arith)

-- A response is shorter than the buffer that it was written to, the number behind its
-- Content-Length is the length of the body that answers the request, and that body is the text's
-- last so many characters.
pub build_http_response-readable :
    (request status_json radio_json : List ℕ) (capacity : ℕ) (text : List ℕ)
    → build_http_response request status_json radio_json capacity ≡ some text
    → let body = (answer request status_json radio_json).1 in
      (length text < capacity)
      × (content_length text ≡ some (length body))
      × (last_part (length body) text ≡ body)
unfolding build_http_response
build_http_response-readable request status_json radio_json capacity text h =
    let (short, same) = fits capacity _ text h in
    rw (sym same) (
      short,
      content_length-answer request status_json radio_json,
      response_body (answer request status_json radio_json).0
          (answer request status_json radio_json).1,
    )
