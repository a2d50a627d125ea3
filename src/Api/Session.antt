-- ===== src/Api/Session.antt =====
-- The branch of `flex1500_api_dispatch` for the network session.
use mathlib.Core.Option.{Option, some, none}
use flex1500d.Base.{
  ℕ, ◌/◌, ◌%◌, Bool, true, false, List, [], ◌∷◌, ◌&&◌, ◌||◌, not, if◌then◌else◌, ltb, leb, ◌==◌,
}
use flex1500d.TuneControl.{count_rejected}
use flex1500d.NetworkTx
use flex1500d.NetworkTx.{NetworkTx, NetworkTxResult, NetworkTxProfile}
use flex1500d.Daemon.{network_allowed, is_iq}
use flex1500d.Api.{RadioInfo, Reply, reply, act, Server, issue_lease, push_tx_audio, open_tx_stream}
use flex1500d.Api.Text.{codes, find, begins_caseless, request_is, request_header, request_lease}
use flex1500d.Api.Profile.{Scan, parse_tx_profile}

unfoldable pub tx_status : NetworkTxResult → ℕ
tx_status NetworkTxResult.ok = 200
tx_status NetworkTxResult.disabled = 404
tx_status NetworkTxResult.busy = 409
tx_status NetworkTxResult.not_ready = 409
tx_status NetworkTxResult.stale = 410
tx_status NetworkTxResult.hardware_error = 500
tx_status NetworkTxResult.invalid = 422
tx_status NetworkTxResult.expired = 400

abbrev pub is_refusal : NetworkTxResult → Bool
is_refusal NetworkTxResult.busy = true
is_refusal NetworkTxResult.stale = true
is_refusal _ = false

-- The profile of a request with the right content type.
unfoldable pub session_profile : Scan → List ℕ → Option NetworkTxProfile
session_profile scan request = elim (request_header request (codes "Content-Type")) [
  | none ↦ none
  | some value ↦
      if begins_caseless (codes "application/json") value
      then parse_tx_profile scan request
      else none
]

-- The length of an audio body, where there is a body and the length is even and in range.
unfoldable pub body_bytes : Scan → List ℕ → Option ℕ
body_bytes scan value = elim (scan.number [] value) [
  | none ↦ none
  | some bytes ↦ if ltb 0 bytes && leb bytes 9600 && bytes % 2 == 0 then some bytes else none
]

unfoldable pub audio_bytes : Scan → List ℕ → Option ℕ
audio_bytes scan request = elim (find (13 ∷ 10 ∷ 13 ∷ 10 ∷ []) request) [
  | none ↦ none
  | some body ↦ elim (request_header request (codes "Content-Length")) [
    | none ↦ none
    | some value ↦ body_bytes scan value
  ]
]

module _ {Ctx : Type 0} where
  unfoldable pub note_refusal : NetworkTxResult → Server Ctx → Server Ctx
  note_refusal result v =
      if is_refusal result
      then record v { station = record v.station { tune = count_rejected v.station.tune } }
      else v

  unfoldable pub answer_tx : NetworkTxResult → Server Ctx → Reply × Server Ctx
  answer_tx result v = (reply (tx_status result), note_refusal result v)

  unfoldable pub with_net : Server Ctx → NetworkTx → Server Ctx
  with_net v net = record v { station = record v.station { net = net } }

  -- `tx_session_create`
  unfoldable pub create_session : Scan → List ℕ → Server Ctx → Reply × Server Ctx
  create_session scan request v = elim (session_profile scan request) [
    | none ↦ answer_tx NetworkTxResult.invalid v
    | some profile ↦
        let (lease, next) = issue_lease v.api.next_tx_lease in
        let (result, net) =
          NetworkTx.acquire v.station.net v.station.tx profile lease v.api.request_now_ms in
        let v' = with_net (record v { api = record v.api { next_tx_lease = next } }) net in
        let (answer, v'') = answer_tx result v' in
        (if NetworkTx.is_ok result then record (reply 201) { lease = lease } else answer, v'')
  ]

  unfoldable pub tx_keepalive : ℕ → Server Ctx → Reply × Server Ctx
  tx_keepalive lease v =
      let (result, net) = NetworkTx.keepalive v.station.net lease v.api.request_now_ms in
      answer_tx result (with_net v net)

  unfoldable pub tx_stream : ℕ → Server Ctx → Reply × Server Ctx
  tx_stream lease v =
      let (result, net) = NetworkTx.attach_stream v.station.net lease v.api.request_now_ms in
      let (answer, v') = answer_tx result (with_net v net) in
      (if NetworkTx.is_ok result then act open_tx_stream 0 else answer, v')

  unfoldable pub tx_ptt_start : RadioInfo → ℕ → Server Ctx → Reply × Server Ctx
  tx_ptt_start radio lease v =
      let (result, net, tx) =
        NetworkTx.ptt_start v.station.net v.station.tx lease v.api.request_now_ms in
      if radio.frequency_known && network_allowed v.station.net radio.frequency_hz
      then answer_tx result (record v { station = record v.station { net = net; tx = tx } })
      else answer_tx NetworkTxResult.invalid v

  unfoldable pub tx_ptt_stop : ℕ → Server Ctx → Reply × Server Ctx
  tx_ptt_stop lease v =
      let (result, net, tx) = NetworkTx.ptt_stop v.station.net v.station.tx lease in
      answer_tx result (record v { station = record v.station { net = net; tx = tx } })

  unfoldable pub tx_release : ℕ → Server Ctx → Reply × Server Ctx
  tx_release lease v =
      let (result, net, tx) = NetworkTx.release v.station.net v.station.tx lease in
      answer_tx result (record v { station = record v.station { net = net; tx = tx } })

  -- Audio for a session without a stream attaches it first.
  unfoldable pub attach_for_audio : ℕ → Server Ctx → NetworkTxResult × NetworkTx
  attach_for_audio lease v =
      if v.station.net.stream_connected
      then (NetworkTxResult.ok, v.station.net)
      else NetworkTx.attach_stream v.station.net lease v.api.request_now_ms

  unfoldable pub push_audio : ℕ → ℕ → Server Ctx → Reply × Server Ctx
  push_audio lease bytes v =
      let (attached, net) = attach_for_audio lease v in
      let (result, net') = NetworkTx.record_data net lease (bytes / 2) v.api.request_now_ms in
      if not (NetworkTx.is_ok attached)
      then answer_tx attached (with_net v net)
      else if NetworkTx.is_ok result
      then (act push_tx_audio 200, with_net v net')
      else answer_tx result (with_net v net')

  unfoldable pub tx_audio : Scan → List ℕ → ℕ → Server Ctx → Reply × Server Ctx
  tx_audio scan request lease v = elim (audio_bytes scan request) [
    | none ↦ answer_tx NetworkTxResult.invalid v
    | some bytes ↦
        if is_iq v.station.net.profile.source
        then answer_tx NetworkTxResult.invalid v
        else push_audio lease bytes v
  ]

  -- The requests that carry a lease.
  unfoldable pub leased_tx : Scan → RadioInfo → List ℕ → ℕ → Server Ctx → Reply × Server Ctx
  leased_tx scan radio request lease v =
      if request_is request (codes "PUT") (codes "/v1/tx/sessions/keepalive")
      then tx_keepalive lease v
      else if request_is request (codes "CONNECT") (codes "/v1/tx/stream")
      then tx_stream lease v
      else if request_is request (codes "PUT") (codes "/v1/tx/ptt/start")
      then tx_ptt_start radio lease v
      else if request_is request (codes "PUT") (codes "/v1/tx/ptt/stop")
      then tx_ptt_stop lease v
      else if request_is request (codes "DELETE") (codes "/v1/tx/sessions/current")
      then tx_release lease v
      else if request_is request (codes "POST") (codes "/v1/tx/audio")
      then tx_audio scan request lease v
      else answer_tx NetworkTxResult.invalid v

  unfoldable pub tx_request : Scan → RadioInfo → List ℕ → Server Ctx → Reply × Server Ctx
  tx_request scan radio request v =
      if not v.api.network_tx || not v.station.net.enabled
      then (reply 404, v)
      else if request_is request (codes "POST") (codes "/v1/tx/sessions")
      then create_session scan request v
      else elim (request_lease request) [
        | none ↦ answer_tx NetworkTxResult.invalid v
        | some lease ↦ leased_tx scan radio request lease v
      ]
