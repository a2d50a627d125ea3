-- ===== src/Api/Refine.antt =====
-- Every dispatch of src/api.c moves the variables of src/flex1500d.c by events alone.
use flex1500d.Base.{ℕ, List, not, ◌&&◌, ◌||◌, ltb}
use flex1500d.Base.Ints.{ℤ, is_zero}
use flex1500d.Requests.{parse_rx_frequency_request, parse_rx_gain_request}
use flex1500d.Station.Events.{tune_start, tune_keepalive, tune_stop, tx_timeout, apply}
use flex1500d.Protocol.Bands.{tune_frequency_allowed, rx_filter_for_frequency}
use flex1500d.TxControl.{TxOwner, owner_eq}
use flex1500d.Api.{ApiController, RadioInfo, Server, reply, issue_lease}
use flex1500d.Api.Text.{codes, begins, request_is, parse_lease_path, parse_uint_setting}
use flex1500d.Api.Profile.{Scan}
use flex1500d.Api.Handlers
use flex1500d.Api.Dispatch
use flex1500d.Api.Receive
use flex1500d.Api.Receive.{is_some}
use flex1500d.Api.Effect.{
  Effect, nothing, event, leased, refused, radio, Does, if-Does, option-Does, stays, leaves, Moved,
  option_known-Does, tx_request-Does,
}

module _ {Ctx : Type 0} (moves : Ctx → Ctx → Type 0) where
  owner_request-Does :
      (request : List ℕ) (v : Server Ctx) → Does moves v.station (Dispatch.owner_request request v)
  unfolding Dispatch.owner_request Handlers.acquire_owner Handlers.keep_owner Handlers.release_owner
  owner_request-Does request v =
      if-Does moves v.station (not v.api.station_owner) _ _ (stays moves v (reply 404)) (
        if-Does moves v.station (request_is request (codes "POST") (codes "/v1/control/owner")) _ _
          (leaves moves v.station _ _ (leased _))
          (if-Does moves v.station
            (request_is request (codes "PUT") (codes "/v1/control/owner/keepalive")) _ _
            (leaves moves v.station _ _ (leased _))
            (if-Does moves v.station (Handlers.transmitter_active v) _ _ (stays moves v (reply 409))
              (leaves moves v.station _ _ (leased _)))))

  change_setting-Does :
      (v : Server Ctx) (api : ApiController) → Does moves v.station (Dispatch.change_setting v api)
  unfolding Dispatch.change_setting
  change_setting-Does v api =
      option-Does moves v.station (Dispatch.setting_refusal v) _ _
        (leaves moves v.station (reply 200) (record v { api = api }) nothing)
        (λ status. stays moves v (reply status))

  tune_start-Does :
      (r : RadioInfo) (v : Server Ctx) → Does moves v.station (Dispatch.tune_start r v)
  unfolding Dispatch.tune_start apply
  tune_start-Does r v =
      if-Does moves v.station (not r.frequency_known || not (tune_frequency_allowed r.frequency_hz))
        _ _ (leaves moves v.station _ _ refused)
        (leaves moves v.station _ _
          (event (tune_start v.api.request_now_ms (issue_lease v.api.next_tune_lease).0)))

  tune_request-Does :
      (r : RadioInfo) (request : List ℕ) (v : Server Ctx)
      → Does moves v.station (Dispatch.tune_request r request v)
  unfolding Dispatch.tune_request Dispatch.tune_leased Dispatch.tune_keepalive Dispatch.tune_stop
      apply
  tune_request-Does r request v =
      let now = v.api.request_now_ms in
      let stop = codes "PUT /v1/radio/tune/stop/" in
      if-Does moves v.station (not v.api.tune_control) _ _ (stays moves v (reply 404)) (
        if-Does moves v.station (begins (codes "PUT /v1/radio/tune/start HTTP/") request) _ _
          (tune_start-Does r v)
          (option-Does moves v.station
            (parse_lease_path request (codes "PUT /v1/radio/tune/keepalive/")) _ _
            (option-Does moves v.station (parse_lease_path request stop) _ _
              (stays moves v (reply 403))
              (λ lease. leaves moves v.station _ _ (event (tune_stop lease))))
            (λ lease. leaves moves v.station _ _ (event (tune_keepalive now lease)))))

  timeout_request-Does :
      (request : List ℕ) (v : Server Ctx)
      → Does moves v.station (Dispatch.timeout_request request v)
  unfolding Dispatch.timeout_request Dispatch.set_timeout apply
  timeout_request-Does request v =
      option-Does moves v.station (parse_uint_setting request (codes "PUT /v1/radio/tx-timeout/")) _
        _ (stays moves v (reply 400))
        (λ seconds.
          if-Does moves v.station (ltb seconds 30 || ltb 1800 seconds) _ _
            (stays moves v (reply 400))
            (if-Does moves v.station
              (not v.api.tune_control || not v.station.tune.tx_control || not v.station.tx.enabled)
              _ _ (stays moves v (reply 404))
              (if-Does moves v.station (not (owner_eq v.station.tx.owner TxOwner.none)) _ _
                (stays moves v (reply 409))
                (leaves moves v.station _ _ (event (tx_timeout seconds))))))

  tx_setting-Does :
      (request : List ℕ) (v : Server Ctx)
      → Does moves v.station (Dispatch.compressor_request request v)
        × Does moves v.station (Dispatch.drive_request request v)
        × Does moves v.station (Dispatch.mic_gain_request request v)
  unfolding Dispatch.compressor_request Dispatch.drive_request Dispatch.mic_gain_request
  tx_setting-Does request v =
      let on = begins (codes "PUT /v1/radio/tx-compressor/on HTTP/") request in
      let off = begins (codes "PUT /v1/radio/tx-compressor/off HTTP/") request in
      (
        if-Does moves v.station (not on && not off) _ _ (stays moves v (reply 400))
            (change_setting-Does v _),
        option-Does moves v.station (parse_uint_setting request (codes "PUT /v1/radio/tx-drive/")) _
            _ (stays moves v (reply 400))
            (λ n.
              if-Does moves v.station (ltb n 1 || ltb 100 n) _ _ (stays moves v (reply 400))
                (change_setting-Does v _)),
        option-Does moves v.station (parse_uint_setting request (codes "PUT /v1/radio/mic-gain/")) _
            _ (stays moves v (reply 400))
            (λ n.
              if-Does moves v.station (ltb 70 n) _ _ (stays moves v (reply 400))
                (change_setting-Does v _)),
      )

  page_request-Does :
      (request : List ℕ) (v : Server Ctx) → Does moves v.station (Receive.page_request request v)
  unfolding Receive.page_request
  page_request-Does request v =
      if-Does moves v.station
        (Dispatch.radio_path request || begins (codes "PUT /v1/radio/squelch/") request) _ _
        (stays moves v (reply 404))
        (if-Does moves v.station
          (begins (codes "GET /v1/stream/iq ") request && v.api.iq_stream_active) _ _
          (stays moves v _)
          (if-Does moves v.station
            (begins (codes "GET /test HTTP/") request && v.api.test_page_enabled) _ _
            (stays moves v _) (stays moves v (reply 0))))

  gain_request-Does :
      (request : List ℕ) (v : Server Ctx)
      → Moved moves v
      → Does moves v.station (Receive.gain_request request v)
  unfolding Receive.gain_request Receive.change_gain Receive.with_radio
  gain_request-Does request v w =
      let page = page_request-Does request v in
      option-Does moves v.station (parse_rx_gain_request request) _ _ page (λ gain.
        option_known-Does moves v.station v.set_rx_gain _ _ page (λ set e.
          if-Does moves v.station v.api.rx_tuning_enabled _ _
            (leaves moves v.station _ _
              (radio _ (w.gained set v.station.tx.callback_context gain e)))
            page))

  stream_request-Does :
      (request : List ℕ) (v : Server Ctx)
      → Moved moves v
      → Does moves v.station (Receive.stream_request request v)
  unfolding Receive.stream_request
  stream_request-Does request v w =
      option-Does moves v.station (Receive.stream_setting request v) _ _
        (gain_request-Does request v w)
        (λ api.
          if-Does moves v.station v.api.iq_stream_active _ _
            (leaves moves v.station (reply 200) (record v { api = api }) nothing)
            (gain_request-Does request v w))

  retune-Does :
      (tune_rx : Ctx → ℕ → ℤ × ℕ × Ctx) (f : ℕ) (v : Server Ctx)
      → ((context : Ctx) → moves context (tune_rx context f).2)
      → Does moves v.station (Receive.retune tune_rx f v)
  unfolding Receive.retune Receive.with_radio
  retune-Does tune_rx f v w =
      if-Does moves v.station (not (is_some (rx_filter_for_frequency f))) _ _
        (stays moves v (reply 400))
        (if-Does moves v.station (is_zero (tune_rx v.station.tx.callback_context f).0) _ _
          (leaves moves v.station _ _ (radio _ (w v.station.tx.callback_context)))
          (leaves moves v.station _ _ (radio _ (w v.station.tx.callback_context))))

  frequency_request-Does :
      (request : List ℕ) (v : Server Ctx)
      → Moved moves v
      → Does moves v.station (Receive.frequency_request request v)
  unfolding Receive.frequency_request
  frequency_request-Does request v w =
      let later = stream_request-Does request v w in
      option-Does moves v.station (parse_rx_frequency_request request) _ _ later (λ f.
        option_known-Does moves v.station v.tune_rx _ _ later (λ tune e.
          if-Does moves v.station v.api.rx_tuning_enabled _ _
            (retune-Does tune f v (λ context. w.tuned tune context f e)) later))

  route-Does :
      (scan : Scan) (r : RadioInfo) (request : List ℕ) (v : Server Ctx)
      → Moved moves v
      → Does moves v.station (Receive.route scan r request v)
  unfolding Receive.route Receive.receive_request
  route-Does scan r request v w =
      let s = v.station in
      let (compressor, drive, gain) = tx_setting-Does request v in
      if-Does moves s (Dispatch.tx_general_path request) _ _
        (tx_request-Does moves scan r request v)
        (if-Does moves s (begins (codes "PUT /v1/radio/tx-compressor/") request) _ _ compressor (
          if-Does moves s (begins (codes "PUT /v1/radio/tx-drive/") request) _ _ drive (
            if-Does moves s (begins (codes "PUT /v1/radio/mic-gain/") request) _ _ gain (
              if-Does moves s (begins (codes "PUT /v1/radio/tx-timeout/") request) _ _
                (timeout_request-Does request v)
                (if-Does moves s (Dispatch.tune_path request) _ _ (tune_request-Does r request v) (
                  if-Does moves s (Receive.moves_receiver request && Handlers.transmitter_active v)
                    _ _ (stays moves v (reply 409)) (frequency_request-Does request v w)))))))

  dispatch-Does :
      (scan : Scan) (r : RadioInfo) (request : List ℕ) (v : Server Ctx)
      → Moved moves v
      → Does moves v.station (Receive.dispatch scan r request v)
  unfolding Receive.dispatch
  dispatch-Does scan r request v w =
      if-Does moves v.station (Dispatch.owner_path request) _ _ (owner_request-Does request v) (
        if-Does moves v.station
          (Dispatch.station_controlled request
            && not (Handlers.station_request_authorized v request))
          _ _ (stays moves v (reply 409)) (route-Does scan r request v w))

  -- Every dispatch, of any request text, moves the daemon's variables only by events of the transmit
  -- side, by another station lease, by a count of a refused request, by a move of the radio's state
  -- that a receive callback can make, or by a sequence of these.
  pub dispatch-Effect :
      (scan : Scan) (r : RadioInfo) (request : List ℕ) (v : Server Ctx)
      → Moved moves v
      → Effect moves v.station (Receive.dispatch scan r request v).1.station
  unfolding Does
  dispatch-Effect scan r request v w = dispatch-Does scan r request v w
