-- ===== src/Api/Effect.antt =====
-- What the branches of `flex1500_api_dispatch` for the station lease and the network session do to
-- the variables of src/flex1500d.c: only events of Station.Events, a station lease, a counter of
-- refused requests, or the radio's own state, which the receive callbacks move by a relation.
use mathlib.Core.Option.{Option, some, none}
use flex1500d.Base.Ints.{ℤ}
use flex1500d.Base.{ℕ, ◌/◌, ◌≡◌, refl, Bool, true, false, List, not, ◌||◌, if◌then◌else◌}
use flex1500d.TuneControl.{count_rejected}
use flex1500d.StationOwner.{StationOwner}
use flex1500d.NetworkTx
use flex1500d.NetworkTx.{NetworkTx, NetworkTxResult}
use flex1500d.Station.{Station}
use flex1500d.Station.Events.{
  Event, tx_acquire, tx_keepalive, tx_stream, tx_ptt_start, tx_data, tx_ptt_stop, tx_release, apply,
}
use flex1500d.Api.{reply, act, push_tx_audio, issue_lease, RadioInfo, Reply, Server}
use flex1500d.Api.Text.{codes, request_is, request_lease}
use flex1500d.Daemon.{is_iq}
use flex1500d.Api.Profile.{Scan}
use flex1500d.Api.Session

pub data Effect {Ctx : Type 0} (moves : Ctx → Ctx → Type 0)
    : Station Ctx → Station Ctx → Type 0 where
  nothing : {s : Station Ctx} → Effect moves s s
  event : {s : Station Ctx} (e : Event) → Effect moves s (apply s e)
  leased : {s : Station Ctx} (o : StationOwner) → Effect moves s (record s { station = o })
  refused : {s : Station Ctx} → Effect moves s (record s { tune = count_rejected s.tune })
  radio :
      {s : Station Ctx} (context : Ctx)
      → moves s.tx.callback_context context
      → Effect moves s (record s { tx = record s.tx { callback_context = context } })
  both : {s t u : Station Ctx} → Effect moves s t → Effect moves t u → Effect moves s u

module _ {Ctx : Type 0} (moves : Ctx → Ctx → Type 0) where
  -- The server behind a reply comes from the station by an effect.
  unfoldable pub Does : Station Ctx → Reply × Server Ctx → Type 0
  Does s r = Effect moves s r.1.station

  -- What the receive callbacks do to the radio's state.
  pub record Moved (v : Server Ctx) : Type 0 where
    pub tuned :
        (f : Ctx → ℕ → ℤ × ℕ × Ctx) (context : Ctx) (frequency : ℕ)
        → v.tune_rx ≡ some f
        → moves context (f context frequency).2
    pub gained :
        (f : Ctx → List ℕ → ℤ × Ctx) (context : Ctx) (gain : List ℕ)
        → v.set_rx_gain ≡ some f
        → moves context (f context gain).1

  pub if-Does :
      (s : Station Ctx) (b : Bool) (x y : Reply × Server Ctx)
      → Does s x
      → Does s y
      → Does s (if b then x else y)
  if-Does s true x y f g = f
  if-Does s false x y f g = g

  pub option-Does :
      {A : Type 0} (s : Station Ctx) (o : Option A) (x : Reply × Server Ctx)
      (k : A → Reply × Server Ctx)
      → Does s x
      → ((a : A) → Does s (k a))
      → Does s (elim o [ none ↦ x | some a ↦ k a ])
  option-Does s none x k f g = f
  option-Does s (some a) x k f g = g a

  -- The same, with what the value is known to be.
  pub option_known-Does :
      {A : Type 0} (s : Station Ctx) (o : Option A) (x : Reply × Server Ctx)
      (k : A → Reply × Server Ctx)
      → Does s x
      → ((a : A) → o ≡ some a → Does s (k a))
      → Does s (elim o [ none ↦ x | some a ↦ k a ])
  option_known-Does s none x k f g = f
  option_known-Does s (some a) x k f g = g a refl

  pub stays : (v : Server Ctx) (r : Reply) → Does v.station (r, v)
  unfolding Does
  stays v r = nothing

  pub leaves :
      (s : Station Ctx) (r : Reply) (v : Server Ctx) → Effect moves s v.station → Does s (r, v)
  unfolding Does
  leaves s r v f = f

  answer-Does :
      (s : Station Ctx) (result : NetworkTxResult) (v : Server Ctx)
      → Effect moves s v.station
      → Does s (Session.answer_tx result v)
  unfolding Does Session.answer_tx Session.note_refusal
  answer-Does s NetworkTxResult.busy v f = both f refused
  answer-Does s NetworkTxResult.stale v f = both f refused
  answer-Does s NetworkTxResult.ok v f = f
  answer-Does s NetworkTxResult.disabled v f = f
  answer-Does s NetworkTxResult.invalid v f = f
  answer-Does s NetworkTxResult.not_ready v f = f
  answer-Does s NetworkTxResult.hardware_error v f = f
  answer-Does s NetworkTxResult.expired v f = f

  tx_keepalive-Does : (lease : ℕ) (v : Server Ctx) → Does v.station (Session.tx_keepalive lease v)
  unfolding Session.tx_keepalive Session.with_net apply
  tx_keepalive-Does lease v =
      answer-Does v.station _ _ (event (tx_keepalive lease v.api.request_now_ms))

  tx_ptt_start-Does :
      (r : RadioInfo) (lease : ℕ) (v : Server Ctx) → Does v.station (Session.tx_ptt_start r lease v)
  unfolding Session.tx_ptt_start apply
  tx_ptt_start-Does r lease v =
      if-Does v.station _ _ _
        (answer-Does v.station _ _ (event (tx_ptt_start lease v.api.request_now_ms)))
        (answer-Does v.station NetworkTxResult.invalid v nothing)

  tx_stream-Does : (lease : ℕ) (v : Server Ctx) → Does v.station (Session.tx_stream lease v)
  unfolding Session.tx_stream Session.with_net apply Does
  tx_stream-Does lease v = answer-Does v.station _ _ (event (tx_stream lease v.api.request_now_ms))

  tx_ptt_stop-Does : (lease : ℕ) (v : Server Ctx) → Does v.station (Session.tx_ptt_stop lease v)
  unfolding Session.tx_ptt_stop apply
  tx_ptt_stop-Does lease v = answer-Does v.station _ _ (event (tx_ptt_stop lease))

  tx_release-Does : (lease : ℕ) (v : Server Ctx) → Does v.station (Session.tx_release lease v)
  unfolding Session.tx_release apply
  tx_release-Does lease v = answer-Does v.station _ _ (event (tx_release lease))

  create_session-Does :
      (scan : Scan) (request : List ℕ) (v : Server Ctx)
      → Does v.station (Session.create_session scan request v)
  unfolding Session.create_session Session.with_net apply Does
  create_session-Does scan request v =
      option-Does v.station _ _ _ (answer-Does v.station NetworkTxResult.invalid v nothing)
        (λ profile.
          answer-Does v.station _ _
            (event (tx_acquire profile (issue_lease v.api.next_tx_lease).0 v.api.request_now_ms)))

  attach-Effect :
      (lease : ℕ) (v : Server Ctx)
      → Effect moves v.station (Session.with_net v (Session.attach_for_audio lease v).1).station
  unfolding Session.attach_for_audio Session.with_net apply
  attach-Effect lease v = attached v.station.net.stream_connected
    where
      attached :
          (b : Bool)
          → Effect moves v.station (record v.station {
            net =
                (if b
                  then (NetworkTxResult.ok, v.station.net)
                  else NetworkTx.attach_stream v.station.net lease v.api.request_now_ms).1;
          })
      attached true = nothing
      attached false = event (tx_stream lease v.api.request_now_ms)

  push_audio-Does :
      (lease bytes : ℕ) (v : Server Ctx) → Does v.station (Session.push_audio lease bytes v)
  unfolding Session.push_audio Session.with_net apply
  push_audio-Does lease bytes v =
      let a = Session.attach_for_audio lease v in
      let r = NetworkTx.record_data a.1 lease (bytes / 2) v.api.request_now_ms in
      let f = attach-Effect lease v in
      let g = both f (event (tx_data lease (bytes / 2) v.api.request_now_ms)) in
      if-Does v.station (not (NetworkTx.is_ok a.0)) _ _
        (answer-Does v.station a.0 (Session.with_net v a.1) f)
        (if-Does v.station (NetworkTx.is_ok r.0) _ _
          (leaves v.station (act push_tx_audio 200) (Session.with_net v r.1) g)
          (answer-Does v.station r.0 (Session.with_net v r.1) g))

  tx_audio-Does :
      (scan : Scan) (request : List ℕ) (lease : ℕ) (v : Server Ctx)
      → Does v.station (Session.tx_audio scan request lease v)
  unfolding Session.tx_audio
  tx_audio-Does scan request lease v =
      let refusal = answer-Does v.station NetworkTxResult.invalid v nothing in
      option-Does v.station (Session.audio_bytes scan request) _ _ refusal (λ bytes.
        if-Does v.station (is_iq v.station.net.profile.source) _ _ refusal
          (push_audio-Does lease bytes v))

  leased_tx-Does :
      (scan : Scan) (r : RadioInfo) (request : List ℕ) (lease : ℕ) (v : Server Ctx)
      → Does v.station (Session.leased_tx scan r request lease v)
  unfolding Session.leased_tx
  leased_tx-Does scan r request lease v =
      let is = request_is request in
      if-Does v.station (is (codes "PUT") (codes "/v1/tx/sessions/keepalive")) _ _
        (tx_keepalive-Does lease v)
        (if-Does v.station (is (codes "CONNECT") (codes "/v1/tx/stream")) _ _
          (tx_stream-Does lease v)
          (if-Does v.station (is (codes "PUT") (codes "/v1/tx/ptt/start")) _ _
            (tx_ptt_start-Does r lease v)
            (if-Does v.station (is (codes "PUT") (codes "/v1/tx/ptt/stop")) _ _
              (tx_ptt_stop-Does lease v)
              (if-Does v.station (is (codes "DELETE") (codes "/v1/tx/sessions/current")) _ _
                (tx_release-Does lease v)
                (if-Does v.station (is (codes "POST") (codes "/v1/tx/audio")) _ _
                  (tx_audio-Does scan request lease v)
                  (answer-Does v.station NetworkTxResult.invalid v nothing))))))

  pub tx_request-Does :
      (scan : Scan) (r : RadioInfo) (request : List ℕ) (v : Server Ctx)
      → Does v.station (Session.tx_request scan r request v)
  unfolding Session.tx_request
  tx_request-Does scan r request v =
      if-Does v.station (not v.api.network_tx || not v.station.net.enabled) _ _
        (stays v (reply 404))
        (if-Does v.station (request_is request (codes "POST") (codes "/v1/tx/sessions")) _ _
          (create_session-Does scan request v)
          (option-Does v.station (request_lease request) _ _
            (answer-Does v.station NetworkTxResult.invalid v nothing)
            (λ lease. leased_tx-Does scan r request lease v)))
