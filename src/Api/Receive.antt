-- ===== src/Api/Receive.antt =====
-- The branches of `flex1500_api_dispatch` for the receiver, and the dispatch over all branches.
use mathlib.Core.Option.{Option, some, none}
use flex1500d.Base.{ℕ, Bool, true, false, List, ◌&&◌, ◌||◌, not, if◌then◌else◌}
use flex1500d.Base.Ints.{ℤ, is_zero}
use flex1500d.Protocol.Bands.{rx_filter_for_frequency}
use flex1500d.Requests.{
  parse_rx_frequency_request, parse_rx_mode_request, parse_rx_gain_request,
  parse_rx_bandwidth_request, parse_rx_squelch_request,
}
use flex1500d.Api.{
  ApiController, RadioInfo, Reply, reply, act, Server, mode_bandwidth, tuned_rx, rx_tune_failed,
  open_iq_stream, serve_test_page,
}
use flex1500d.Api.Text.{codes, begins}
use flex1500d.Api.Profile.{Scan}
use flex1500d.Api.Handlers.{transmitter_active, station_request_authorized}
use flex1500d.Api.Session.{tx_request}
use flex1500d.Api.Dispatch.{
  tune_path, tx_general_path, radio_path, station_controlled, owner_path, owner_request,
  compressor_request, drive_request, mic_gain_request, timeout_request, tune_request,
}

abbrev pub is_some : {A : Type 0} → Option A → Bool
is_some none = false
is_some (some a) = true

-- A frequency, a mode or a bandwidth is not changed while the transmitter has an owner.
unfoldable pub moves_receiver : List ℕ → Bool
moves_receiver request =
    is_some (parse_rx_frequency_request request)
    || is_some (parse_rx_mode_request request)
    || is_some (parse_rx_bandwidth_request request)

module _ {Ctx : Type 0} where
  -- The radio's state lies behind the controller of the transmitter.
  unfoldable pub with_radio : Server Ctx → Ctx → Server Ctx
  with_radio v context = record v {
    station = record v.station { tx = record v.station.tx { callback_context = context } };
  }

  unfoldable pub retune : (Ctx → ℕ → ℤ × ℕ × Ctx) → ℕ → Server Ctx → Reply × Server Ctx
  retune tune_rx frequency v =
      let (result, filter, context) = tune_rx v.station.tx.callback_context frequency in
      if not (is_some (rx_filter_for_frequency frequency))
      then (reply 400, v)
      else if is_zero result
      then (record (act tuned_rx 200) { tuned = some (frequency, filter) }, with_radio v context)
      else (act rx_tune_failed 500, with_radio v context)

  unfoldable pub change_gain : (Ctx → List ℕ → ℤ × Ctx) → List ℕ → Server Ctx → Reply × Server Ctx
  change_gain set_rx_gain gain v =
      let (result, context) = set_rx_gain v.station.tx.callback_context gain in
      (reply (if is_zero result then 200 else 500), with_radio v context)

  -- The paths that nothing above has answered, and the pages. A status of 0 is the page with the
  -- status and the radio, which src/network.c writes.
  unfoldable pub page_request : List ℕ → Server Ctx → Reply × Server Ctx
  page_request request v =
      if radio_path request || begins (codes "PUT /v1/radio/squelch/") request
      then (reply 404, v)
      else if begins (codes "GET /v1/stream/iq ") request && v.api.iq_stream_active
      then (act open_iq_stream 0, v)
      else if begins (codes "GET /test HTTP/") request && v.api.test_page_enabled
      then (act serve_test_page 0, v)
      else (reply 0, v)

  unfoldable pub gain_request : List ℕ → Server Ctx → Reply × Server Ctx
  gain_request request v = elim (parse_rx_gain_request request) [
    | none ↦ page_request request v
    | some gain ↦ elim v.set_rx_gain [
      | none ↦ page_request request v
      | some set_rx_gain ↦
          if v.api.rx_tuning_enabled then change_gain set_rx_gain gain v else page_request request v
    ]
  ]

  -- The settings of the I/Q stream, which need an active stream.
  unfoldable pub stream_setting : List ℕ → Server Ctx → Option ApiController
  stream_setting request v = elim (parse_rx_mode_request request) [
    | some mode ↦ some (record v.api { rx_mode = mode; rx_bandwidth_hz = mode_bandwidth mode })
    | none ↦ elim (parse_rx_bandwidth_request request) [
      | some bandwidth_hz ↦ some (record v.api { rx_bandwidth_hz = bandwidth_hz })
      | none ↦ elim (parse_rx_squelch_request request) [
        | some squelch_db ↦ some (record v.api { rx_squelch_db = squelch_db })
        | none ↦ none
      ]
    ]
  ]

  unfoldable pub stream_request : List ℕ → Server Ctx → Reply × Server Ctx
  stream_request request v = elim (stream_setting request v) [
    | none ↦ gain_request request v
    | some api ↦
        if v.api.iq_stream_active
        then (reply 200, record v { api = api })
        else gain_request request v
  ]

  unfoldable pub frequency_request : List ℕ → Server Ctx → Reply × Server Ctx
  frequency_request request v = elim (parse_rx_frequency_request request) [
    | none ↦ stream_request request v
    | some frequency ↦ elim v.tune_rx [
      | none ↦ stream_request request v
      | some tune_rx ↦
          if v.api.rx_tuning_enabled then retune tune_rx frequency v else stream_request request v
    ]
  ]

  unfoldable pub receive_request : List ℕ → Server Ctx → Reply × Server Ctx
  receive_request request v =
      if moves_receiver request && transmitter_active v
      then (reply 409, v)
      else frequency_request request v

  -- What follows the check of the station's lease.
  unfoldable pub route : Scan → RadioInfo → List ℕ → Server Ctx → Reply × Server Ctx
  route scan radio request v =
      if tx_general_path request
      then tx_request scan radio request v
      else if begins (codes "PUT /v1/radio/tx-compressor/") request
      then compressor_request request v
      else if begins (codes "PUT /v1/radio/tx-drive/") request
      then drive_request request v
      else if begins (codes "PUT /v1/radio/mic-gain/") request
      then mic_gain_request request v
      else if begins (codes "PUT /v1/radio/tx-timeout/") request
      then timeout_request request v
      else if tune_path request
      then tune_request radio request v
      else receive_request request v

  unfoldable pub dispatch : Scan → RadioInfo → List ℕ → Server Ctx → Reply × Server Ctx
  dispatch scan radio request v =
      if owner_path request
      then owner_request request v
      else if station_controlled request && not (station_request_authorized v request)
      then (reply 409, v)
      else route scan radio request v
