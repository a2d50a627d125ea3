-- ===== src/Http/Tests.antt =====
-- Runs of the response of src/network.c on concrete requests.
use mathlib.Core.Option.{some, none}
use flex1500d.Base.{ℕ, ◌<◌, ◌≡◌, refl, List, []}
use flex1500d.Base.Lists.{length}
use flex1500d.Api.Text.{codes, begins}
use flex1500d.Requests.{after}
use flex1500d.Http.{print_from, print_size, answer, response_text, build_http_response}
use flex1500d.Http.Length.{content_length, last_part, build_http_response-readable}

abbrev status_request : List ℕ
status_request = codes "GET /v1/status HTTP/1.1"

abbrev status_json : List ℕ
status_json = codes "{\"state\":\"ok\"}"

abbrev status_text : List ℕ
status_text = response_text (codes "200 OK") status_json

status_built : build_http_response status_request status_json [] 200 ≡ some status_text
unfolding build_http_response answer response_text begins after print_size print_from
status_built = refl

status_readable :
    (length status_text < 200)
    × (content_length status_text ≡ some 14)
    × (last_part 14 status_text ≡ status_json)
unfolding answer begins after
status_readable =
    build_http_response-readable status_request status_json [] 200 status_text status_built

-- A text of 127 characters does not fit in as many.
status_too_long : build_http_response status_request status_json [] 127 ≡ none
unfolding build_http_response answer response_text begins after print_size print_from
status_too_long = refl

wrong_path : (answer (codes "GET /v1/statu HTTP/1.1") status_json []).0 ≡ codes "404 Not Found"
unfolding answer begins after
wrong_path = refl
