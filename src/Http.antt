-- ===== src/Http.antt =====
-- `flex1500_build_http_response` of src/network.c: the whole text of the responses that the daemon
-- gives to requests for its status and its radio. A text is the list of its characters.
pub mod Length
mod Tests
use mathlib.Core.Option.{Option, some, none}
use flex1500d.Base.{ℕ, zero, suc, ◌+◌, ◌/◌, ◌%◌, List, [], ◌∷◌, ◌++◌, if◌then◌else◌, leb, ◌==◌}
use flex1500d.Base.Lists.{length}
use flex1500d.Api.Text.{codes, begins, line_end}

-- `%zu`, with `fuel` digits at most before those that stand.
unfoldable pub print_from : ℕ → ℕ → List ℕ → List ℕ
print_from zero n text = text
print_from (suc fuel) n text =
    let rest = print_from fuel (n / 10) ((48 + n % 10) ∷ text) in
    if n / 10 == 0 then (48 + n % 10) ∷ text else rest

-- A number has fewer digits than its successor.
unfoldable pub print_size : ℕ → List ℕ → List ℕ
print_size n text = print_from (suc n) n text

-- The status line and the body that a request is answered with.
unfoldable pub answer : List ℕ → List ℕ → List ℕ → List ℕ × List ℕ
answer request status_json radio_json =
    if begins (codes "GET /v1/status ") request
    then (codes "200 OK", status_json)
    else if begins (codes "GET /v1/radio ") request
    then (codes "200 OK", radio_json)
    else if begins (codes "GET /v1/stream/iq ") request
    then (
      codes "503 Service Unavailable",
      codes "{\"error\":\"IQ stream is not active\"}" ++ (10 ∷ []),
    )
    else (codes "404 Not Found", codes "{\"error\":\"not found\"}" ++ (10 ∷ []))

abbrev pub before_length : List ℕ → List ℕ
before_length status_line =
    codes "HTTP/1.1 "
    ++ (status_line
        ++ (line_end
            ++ (codes "Content-Type: application/json" ++ (line_end ++ codes "Content-Length: "))))

abbrev pub after_length : List ℕ → List ℕ
after_length body =
    line_end
    ++ (codes "Connection: close"
        ++ (line_end ++ (codes "Cache-Control: no-store" ++ (line_end ++ (line_end ++ body)))))

unfoldable pub response_text : List ℕ → List ℕ → List ℕ
response_text status_line body =
    before_length status_line ++ print_size (length body) (after_length body)

-- The text and its length, none where the result is 0.
unfoldable pub build_http_response : List ℕ → List ℕ → List ℕ → ℕ → Option (List ℕ)
build_http_response request status_json radio_json capacity =
    let (status_line, body) = answer request status_json radio_json in
    let text = response_text status_line body in
    if leb capacity (length text) then none else some text
