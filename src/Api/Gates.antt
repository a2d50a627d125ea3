-- ===== src/Api/Gates.antt =====
-- A request without the station's lease, in src/api.c.
use mathlib.Core.Option.{none}
use flex1500d.Base.{ℕ, ◌≡◌, refl, false, List, Bool-cases, inl, inr, arith}
use flex1500d.Requests.{
  parse_u32_path, parse_word, parse_rx_frequency_request, parse_rx_mode_request,
  parse_rx_gain_request, parse_rx_bandwidth_request, frequency_prefix, mode_prefix, gain_prefix,
  bandwidth_prefix, modes, gains,
}
use flex1500d.Api.{RadioInfo, Server}
use flex1500d.Api.Text.{begins}
use flex1500d.Api.Profile.{Scan}
use flex1500d.Api.Handlers.{station_request_authorized, acquire_owner, keep_owner, release_owner}
use flex1500d.Api.Dispatch.{station_controlled, owner_path, owner_request, radio_path}
use flex1500d.Api.Receive.{
  dispatch, route, receive_request, frequency_request, stream_request, gain_request, page_request,
  moves_receiver,
}

number_needs_prefix :
    (prefix request : List ℕ) → begins prefix request ≡ false → parse_u32_path request prefix ≡ none
unfolding begins parse_u32_path
number_needs_prefix prefix request h = ground arith

word_needs_prefix :
    (prefix request : List ℕ) (words : List (List ℕ))
    → begins prefix request ≡ false
    → parse_word prefix words request ≡ none
unfolding begins parse_word
word_needs_prefix prefix request words h = ground arith

-- Off the radio's paths no parser of the receiver reads anything.
off_radio :
    (request : List ℕ)
    → radio_path request ≡ false
    → (parse_rx_frequency_request request ≡ none)
      × (parse_rx_mode_request request ≡ none)
      × (parse_rx_gain_request request ≡ none)
      × (parse_rx_bandwidth_request request ≡ none)
unfolding parse_rx_frequency_request parse_rx_mode_request parse_rx_gain_request
    parse_rx_bandwidth_request
off_radio request h =
    let f = number_needs_prefix frequency_prefix request (ground arith) in
    let m = word_needs_prefix mode_prefix request modes (ground arith) in
    let g = word_needs_prefix gain_prefix request gains (ground arith) in
    let b = number_needs_prefix bandwidth_prefix request (ground arith) in (f, m, g, ground arith)

module _ {Ctx : Type 0} where
  pub owner_request_keeps :
      (request : List ℕ) (v : Server Ctx)
      → ((owner_request request v).1.station.tx ≡ v.station.tx)
        × ((owner_request request v).1.station.tune ≡ v.station.tune)
        × ((owner_request request v).1.station.net ≡ v.station.net)
  unfolding owner_request acquire_owner keep_owner release_owner
  owner_request_keeps request v = (ground arith, ground arith, ground arith)

  page_request_keeps :
      (request : List ℕ) (v : Server Ctx) → (page_request request v).1.station ≡ v.station
  unfolding page_request
  page_request_keeps request v = ground arith

  receive_request_keeps :
      (request : List ℕ) (v : Server Ctx)
      → radio_path request ≡ false
      → (receive_request request v).1.station ≡ v.station
  unfolding receive_request moves_receiver frequency_request stream_request gain_request
  receive_request_keeps request v h =
      let (f, m, g, b) = off_radio request h in ground (arith, page_request_keeps request v)

  pub uncontrolled_route :
      (scan : Scan) (r : RadioInfo) (request : List ℕ) (v : Server Ctx)
      → station_controlled request ≡ false
      → (route scan r request v ≡ receive_request request v) × (radio_path request ≡ false)
  unfolding route station_controlled
  uncontrolled_route scan r request v h = (ground arith, ground arith)

  -- A request of any text that does not carry the lease of the station's holder leaves the
  -- transmit controller, the Tune control and the network session as they are.
  pub unauthorized_untouched :
      (scan : Scan) (r : RadioInfo) (request : List ℕ) (v : Server Ctx)
      → station_request_authorized v request ≡ false
      → ((dispatch scan r request v).1.station.tx ≡ v.station.tx)
        × ((dispatch scan r request v).1.station.tune ≡ v.station.tune)
        × ((dispatch scan r request v).1.station.net ≡ v.station.net)
  unfolding dispatch
  unauthorized_untouched scan r request v h = elim (Bool-cases (owner_path request)) [
    | inl o ↦ rw o (owner_request_keeps request v)
    | inr o ↦ elim (Bool-cases (station_controlled request)) [
      | inl c ↦ rw (o, c, h) (refl, refl, refl)
      | inr c ↦
          let (e, p) = uncontrolled_route scan r request v c in
          rw (o, c, e, receive_request_keeps request v p) (refl, refl, refl)
    ]
  ]
