-- ===== src/Api/Dispatch.antt =====
-- The branches of `flex1500_api_dispatch` for Tune and the settings, and the dispatch.
use mathlib.Core.Option.{Option, some, none}
use flex1500d.Base.{ℕ, Bool, List, ◌&&◌, ◌||◌, not, if◌then◌else◌, ltb}
use flex1500d.TxControl
use flex1500d.TxControl.{TxOwner, owner_eq}
use flex1500d.TuneControl
use flex1500d.TuneControl.{TuneControl, TuneResult, count_rejected}
use flex1500d.Protocol.Bands.{tune_frequency_allowed}
use flex1500d.Api.{ApiController, RadioInfo, Reply, reply, Server, issue_lease}
use flex1500d.Api.Text.{codes, begins, parse_lease_path, parse_uint_setting, request_is}
use flex1500d.Api.Handlers.{transmitter_active, acquire_owner, keep_owner, release_owner}

unfoldable pub tune_status : TuneResult → ℕ
tune_status TuneResult.ok = 200
tune_status TuneResult.busy = 409
tune_status TuneResult.invalid_lease = 403
tune_status TuneResult.disabled = 404
tune_status _ = 500

-- The literal starts of paths.
abbrev pub tune_path : List ℕ → Bool
tune_path = begins (codes "PUT /v1/radio/tune/")

abbrev pub tx_general_path : List ℕ → Bool
tx_general_path request =
    begins (codes "POST /v1/tx/") request
    || begins (codes "PUT /v1/tx/") request
    || begins (codes "CONNECT /v1/tx/") request
    || begins (codes "DELETE /v1/tx/") request

abbrev pub radio_path : List ℕ → Bool
radio_path request =
    begins (codes "PUT /v1/radio/frequency/") request
    || begins (codes "PUT /v1/radio/mode/") request
    || begins (codes "PUT /v1/radio/gain/") request
    || begins (codes "PUT /v1/radio/bandwidth/") request

abbrev pub tx_setting_path : List ℕ → Bool
tx_setting_path request =
    begins (codes "PUT /v1/radio/tx-drive/") request
    || begins (codes "PUT /v1/radio/mic-gain/") request
    || begins (codes "PUT /v1/radio/tx-timeout/") request
    || begins (codes "PUT /v1/radio/tx-compressor/") request

unfoldable pub station_controlled : List ℕ → Bool
station_controlled request =
    tx_general_path request || tune_path request || radio_path request || tx_setting_path request

unfoldable pub owner_path : List ℕ → Bool
owner_path request =
    request_is request (codes "POST") (codes "/v1/control/owner")
    || request_is request (codes "PUT") (codes "/v1/control/owner/keepalive")
    || request_is request (codes "DELETE") (codes "/v1/control/owner")

module _ {Ctx : Type 0} where
  unfoldable pub owner_request : List ℕ → Server Ctx → Reply × Server Ctx
  owner_request request v =
      if not v.api.station_owner
      then (reply 404, v)
      else if request_is request (codes "POST") (codes "/v1/control/owner")
      then acquire_owner request v
      else if request_is request (codes "PUT") (codes "/v1/control/owner/keepalive")
      then keep_owner request v
      else release_owner request v

  -- Whether a setting of the transmitter may be changed, or the status that refuses it.
  unfoldable pub setting_refusal : Server Ctx → Option ℕ
  setting_refusal v =
      if not v.api.tune_control || not v.station.tune.tx_control || not v.station.tx.enabled
      then some 404
      else if transmitter_active v
      then some 409
      else none

  unfoldable pub change_setting : Server Ctx → ApiController → Reply × Server Ctx
  change_setting v api = elim (setting_refusal v) [
    | some status ↦ (reply status, v)
    | none ↦ (reply 200, record v { api = api })
  ]

  unfoldable pub compressor_request : List ℕ → Server Ctx → Reply × Server Ctx
  compressor_request request v =
      let on = begins (codes "PUT /v1/radio/tx-compressor/on HTTP/") request in
      let off = begins (codes "PUT /v1/radio/tx-compressor/off HTTP/") request in
      if not on && not off
      then (reply 400, v)
      else change_setting v (record v.api { tx_compressor_enabled = on })

  unfoldable pub drive_request : List ℕ → Server Ctx → Reply × Server Ctx
  drive_request request v = elim (parse_uint_setting request (codes "PUT /v1/radio/tx-drive/")) [
    | none ↦ (reply 400, v)
    | some value ↦
        if ltb value 1 || ltb 100 value
        then (reply 400, v)
        else change_setting v (record v.api { tx_drive_percent = value })
  ]

  unfoldable pub mic_gain_request : List ℕ → Server Ctx → Reply × Server Ctx
  mic_gain_request request v = elim (parse_uint_setting request (codes "PUT /v1/radio/mic-gain/")) [
    | none ↦ (reply 400, v)
    | some value ↦
        if ltb 70 value
        then (reply 400, v)
        else change_setting v (record v.api { tx_microphone_gain_db = value })
  ]

  unfoldable pub set_timeout : ℕ → Server Ctx → Reply × Server Ctx
  set_timeout seconds v =
      let (done, tx) = TxControl.set_timeout_seconds v.station.tx seconds in
      if not v.api.tune_control || not v.station.tune.tx_control || not v.station.tx.enabled
      then (reply 404, v)
      else if not (owner_eq v.station.tx.owner TxOwner.none)
      then (reply 409, v)
      else (reply (if done then 200 else 500), record v { station = record v.station { tx = tx } })

  unfoldable pub timeout_request : List ℕ → Server Ctx → Reply × Server Ctx
  timeout_request request v =
      elim (parse_uint_setting request (codes "PUT /v1/radio/tx-timeout/")) [
        | none ↦ (reply 400, v)
        | some seconds ↦
            if ltb seconds 30 || ltb 1800 seconds then (reply 400, v) else set_timeout seconds v
      ]

  unfoldable pub tune_start : RadioInfo → Server Ctx → Reply × Server Ctx
  tune_start radio v =
      let (lease, next) = issue_lease v.api.next_tune_lease in
      let (result, tune, tx) =
        TuneControl.start v.station.tune v.station.tx v.api.request_now_ms lease in
      let v' = record v {
        api = record v.api { next_tune_lease = next };
        station = record v.station { tune = tune; tx = tx };
      } in
      if not radio.frequency_known || not (tune_frequency_allowed radio.frequency_hz)
      then (
        reply 422,
        record v { station = record v.station { tune = count_rejected v.station.tune } },
      )
      else (
        record (reply (tune_status result)) {
          lease = elim result [ TuneResult.ok ↦ lease | _ ↦ 0 ];
        },
        v',
      )

  unfoldable pub tune_keepalive : ℕ → Server Ctx → Reply × Server Ctx
  tune_keepalive lease v =
      let (result, tune, tx) =
        TuneControl.keepalive v.station.tune v.station.tx v.api.request_now_ms lease in
      (reply (tune_status result), record v { station = record v.station { tune = tune; tx = tx } })

  unfoldable pub tune_stop : ℕ → Server Ctx → Reply × Server Ctx
  tune_stop lease v =
      let (result, tune, tx) = TuneControl.stop v.station.tune v.station.tx lease in
      (reply (tune_status result), record v { station = record v.station { tune = tune; tx = tx } })

  unfoldable pub tune_leased : List ℕ → Server Ctx → Reply × Server Ctx
  tune_leased request v = elim (parse_lease_path request (codes "PUT /v1/radio/tune/keepalive/")) [
    | some lease ↦ tune_keepalive lease v
    | none ↦ elim (parse_lease_path request (codes "PUT /v1/radio/tune/stop/")) [
      | some lease ↦ tune_stop lease v
      | none ↦ (reply 403, v)
    ]
  ]

  unfoldable pub tune_request : RadioInfo → List ℕ → Server Ctx → Reply × Server Ctx
  tune_request radio request v =
      if not v.api.tune_control
      then (reply 404, v)
      else if begins (codes "PUT /v1/radio/tune/start HTTP/") request
      then tune_start radio v
      else tune_leased request v
